-- ===== src/Policy/Catalog.antt =====
-- `CompiledPolicy` and `compile_role_binding` of src/authz/src/handler/policy/mod.rs.
use authguard.Base.{
  ℕ, ◌||◌, List, [], ◌∷◌, ◌++◌, map, Text, contains, is_blank, lookup, from_pairs, max, Result, ok,
  err, ◌>>=◌, ◌>>◌, ok_or, map_err, try_map, if◌then◌else◌,
}
use authguard.Urn.{error_to_string}
use authguard.Urn.Pattern
use authguard.Model.{
  HttpRouteMatcher, IamActionInfo, IamRoleInfo, IamRoleBindingInfo, IamPolicyInfo,
  AuthorizationRequest, AuthorizationDecision, AuthorizationScope,
}
use authguard.Model.Condition
use authguard.Model.Condition.{Net, EvaluationContext}
use authguard.Http.{HttpMappingError, CompiledHttpRoute, ResolvedHttpRoute, Values}
use authguard.Http.Compile
use authguard.Http.Route
use authguard.Policy.Evaluator
use authguard.Policy.Evaluator.{CompiledRoleBinding}

pub data PolicyError : Type 0 where
  duplicate_action duplicate_role duplicate_role_binding duplicate_route_matcher :
      Text → PolicyError
  unknown_action unknown_role : Text → Text → PolicyError
  invalid_principal : Text → PolicyError
  invalid_binding_urn invalid_binding_condition : Text → Text → PolicyError
  invalid_http_route : HttpMappingError → PolicyError

pub record CompiledPolicy (Cidr : Type 0) : Type 0 where
  pub policy : IamPolicyInfo
  pub role_bindings : List (CompiledRoleBinding Cidr)
  pub routes : List CompiledHttpRoute

-- The loop of `validate_unique`; `seen` holds the values so far.
unfoldable pub unique_from :
    (Text → PolicyError) → List Text → List Text → Result PolicyError (Unit {0})
unique_from error seen [] = ok tt
unique_from error seen (value ∷ values) =
    if is_blank value || contains value seen
    then err (error value)
    else unique_from error (value ∷ seen) values

unfoldable pub validate_unique : (Text → PolicyError) → List Text → Result PolicyError (Unit {0})
unfolding unique_from
validate_unique error values = unique_from error [] values

-- The actions of one role are known.
unfoldable pub check_role : List Text → Text → List Text → Result PolicyError (Unit {0})
check_role action_ids role_id [] = ok tt
check_role action_ids role_id (action_id ∷ rest) =
    if contains action_id action_ids
    then check_role action_ids role_id rest
    else err (unknown_action role_id action_id)

unfoldable pub check_roles : List Text → List IamRoleInfo → Result PolicyError (Unit {0})
unfolding check_role
check_roles action_ids [] = ok tt
check_roles action_ids (role ∷ roles) = do
  check_role action_ids role.id role.action_ids
  check_roles action_ids roles

abbrev pub matchers : List IamActionInfo → List HttpRouteMatcher
matchers [] = []
matchers (action ∷ actions) = action.route_matchers ++ matchers actions

-- Each route matcher with the identifier of its action, in order.
abbrev pub owned_matchers : List IamActionInfo → List (Text × HttpRouteMatcher)
owned_matchers [] = []
owned_matchers (action ∷ actions) =
    map (λ matcher. (action.identifier, matcher)) action.route_matchers ++ owned_matchers actions

unfoldable pub compile_routes : List IamActionInfo → Result PolicyError (List CompiledHttpRoute)
compile_routes actions =
    try_map (λ owned. map_err invalid_http_route (Compile.compile owned.0 owned.1))
      (owned_matchers actions)

-- The map from the id of a role to the role.
unfoldable pub role_map : List IamRoleInfo → List (Text × IamRoleInfo)
role_map roles = from_pairs [] (map (λ (role : IamRoleInfo). (role.id, role)) roles)

-- `IamPolicyInfo` with another revision.
abbrev pub with_revision : IamPolicyInfo → ℕ → IamPolicyInfo
with_revision policy revision = record policy { revision = revision }

abbrev pub action_ids_of : IamPolicyInfo → List Text
action_ids_of policy = map (λ (action : IamActionInfo). action.identifier) policy.actions

abbrev pub role_ids_of : IamPolicyInfo → List Text
role_ids_of policy = map (λ (role : IamRoleInfo). role.id) policy.roles

abbrev pub binding_ids_of : IamPolicyInfo → List Text
binding_ids_of policy = map (λ (binding : IamRoleBindingInfo). binding.id) policy.role_bindings

abbrev pub matcher_ids_of : IamPolicyInfo → List Text
matcher_ids_of policy = map (λ (matcher : HttpRouteMatcher). matcher.id) (matchers policy.actions)

-- The checks of `compile` before anything is built.
unfoldable pub validate : IamPolicyInfo → Result PolicyError (Unit {0})
unfolding validate_unique check_roles
validate policy = do
  validate_unique duplicate_action (action_ids_of policy)
  validate_unique duplicate_role (role_ids_of policy)
  validate_unique duplicate_role_binding (binding_ids_of policy)
  validate_unique duplicate_route_matcher (matcher_ids_of policy)
  check_roles (action_ids_of policy) policy.roles

module _ {Addr Cidr : Type 0} (net : Net Addr Cidr) where
  unfoldable pub compile_role_binding :
      List (Text × IamRoleInfo) → IamRoleBindingInfo → Result PolicyError (CompiledRoleBinding Cidr)
  compile_role_binding roles binding =
      if is_blank binding.principal_id then err (invalid_principal binding.id) else do
        role ← ok_or (unknown_role binding.id binding.role_id) (lookup binding.role_id roles)
        resource_urn ←
            map_err (λ error. invalid_binding_urn binding.id (error_to_string error))
              (Pattern.from_str binding.resource_urn)
        conditions ←
            map_err (invalid_binding_condition binding.id)
              (Condition.compile net binding.conditions)
        ok (record {
          id = binding.id;
          principal_id = binding.principal_id;
          action_ids = role.action_ids;
          effect = binding.effect;
          resource_urn = resource_urn;
          conditions = conditions;
        })

  unfoldable pub compile : IamPolicyInfo → ℕ → Result PolicyError (CompiledPolicy Cidr)
  unfolding validate compile_role_binding compile_routes role_map
  compile policy revision = do
    validate policy
    bindings ← try_map (compile_role_binding (role_map policy.roles)) policy.role_bindings
    routes ← compile_routes policy.actions
    ok (record {
      policy = with_revision policy revision;
      role_bindings = bindings;
      routes = routes;
    })

  -- `CompiledPolicy::resolve_http_route`, `authorize` and `authorization_scope`
  unfoldable pub resolve_http_route :
      CompiledPolicy Cidr → Text → Text → Text → Values → Result HttpMappingError ResolvedHttpRoute
  resolve_http_route catalog method host path claims =
      Route.resolve_route catalog.routes method host path claims

  unfoldable pub authorize : CompiledPolicy Cidr → AuthorizationRequest Addr → AuthorizationDecision
  authorize catalog request = Evaluator.authorize net catalog.role_bindings request

  unfoldable pub authorization_scope :
      CompiledPolicy Cidr → Text → List Text → Text → EvaluationContext Addr → AuthorizationScope
  authorization_scope catalog principal_id groups action context =
      Evaluator.authorization_scope net catalog.role_bindings principal_id groups action context

  -- `PolicyRuntime::new`: a revision of 0 becomes 1.
  unfoldable pub initial_catalog : IamPolicyInfo → Result PolicyError (CompiledPolicy Cidr)
  unfolding compile
  initial_catalog policy = compile policy (max policy.revision 1)

-- ===== src/Policy/Evaluator.antt =====
-- `AuthorizationEvaluator` of src/authz/src/handler/policy/mod.rs.
use authguard.Base.{
  Bool, true, false, ◌&&◌, ◌||◌, Option, none, some, List, [], ◌∷◌, Text, codes, ◌==◌, contains,
  sort, dedup, if◌then◌else◌,
}
use authguard.Urn.{UrnPattern}
use authguard.Urn.Pattern.{matches_any, to_string}
use authguard.Model.{
  Effect, is_deny, AuthorizationRequest, AuthorizationDecision, AuthorizationScope,
}
use authguard.Model.Condition
use authguard.Model.Condition.{AuthorizationConditions, EvaluationContext, Net}

pub record CompiledRoleBinding (Cidr : Type 0) : Type 0 where
  pub id : Text
  pub principal_id : Text
  pub action_ids : List Text
  pub effect : Effect
  pub resource_urn : UrnPattern
  pub conditions : AuthorizationConditions Cidr

unfoldable pub principal_matches :
    {Cidr : Type 0} → CompiledRoleBinding Cidr → Text → List Text → Bool
principal_matches binding principal_id group_principal_ids =
    binding.principal_id == principal_id || contains binding.principal_id group_principal_ids

abbrev pub explicit_deny : Text → AuthorizationDecision
explicit_deny id = record {
  allowed = false;
  reason = codes "explicit deny";
  role_binding_id = some id;
}

-- The decision once every binding has been looked at: `allow.map_or_else(…)`.
abbrev pub final_decision : Option Text → AuthorizationDecision
final_decision none = record {
  allowed = false;
  reason = codes "default deny";
  role_binding_id = none;
}
final_decision (some id) = record {
  allowed = true;
  reason = codes "matched role binding";
  role_binding_id = some id;
}

module _ {Addr Cidr : Type 0} (net : Net Addr Cidr) where
  -- The binding is not passed over by `continue`.
  unfoldable pub applies : AuthorizationRequest Addr → CompiledRoleBinding Cidr → Bool
  unfolding principal_matches
  applies request binding =
      principal_matches binding request.principal_id request.group_principal_ids
      && matches_any binding.resource_urn (request.resource_urn ∷ request.parent_urns)
      && contains request.action binding.action_ids
      && Condition.matches net binding.conditions request.context

  -- The loop of `authorize`; `found` is the variable `allow`.
  unfoldable pub decide :
      AuthorizationRequest Addr
      → Option Text
      → List (CompiledRoleBinding Cidr)
      → AuthorizationDecision
  unfolding applies
  decide request found [] = final_decision found
  decide request found (binding ∷ rest) =
      let passed_over = decide request found rest in
      let allowed = decide request (some binding.id) rest in
      if applies request binding
      then (if is_deny binding.effect then explicit_deny binding.id else allowed)
      else passed_over

  unfoldable pub authorize :
      List (CompiledRoleBinding Cidr) → AuthorizationRequest Addr → AuthorizationDecision
  unfolding decide
  authorize role_bindings request = decide request none role_bindings

  -- The binding counts for the scope: it is of the principal and the action, and its conditions hold.
  unfoldable pub in_scope :
      Text → List Text → Text → EvaluationContext Addr → CompiledRoleBinding Cidr → Bool
  unfolding principal_matches
  in_scope principal_id groups action context binding =
      principal_matches binding principal_id groups
      && contains action binding.action_ids
      && Condition.matches net binding.conditions context

  -- The patterns that one effect gives, in the order of the bindings.
  unfoldable pub targets :
      (CompiledRoleBinding Cidr → Bool) → Bool → List (CompiledRoleBinding Cidr) → List Text
  targets counts denied [] = []
  targets counts denied (binding ∷ rest) =
      let others = targets counts denied rest in
      if counts binding
      then (if is_deny binding.effect
          then (if denied then to_string binding.resource_urn ∷ others else others)
          else (if denied then others else to_string binding.resource_urn ∷ others))
      else others

  unfoldable pub authorization_scope :
      List (CompiledRoleBinding Cidr)
      → Text
      → List Text
      → Text
      → EvaluationContext Addr
      → AuthorizationScope
  unfolding in_scope targets
  authorization_scope role_bindings principal_id groups action context =
      let counts = in_scope principal_id groups action context in
      record {
        allow_resource_urns = dedup (sort (targets counts false role_bindings));
        deny_resource_urns = dedup (sort (targets counts true role_bindings));
      }

-- ===== src/Policy/Handler.antt =====
-- `PolicyHandler` of src/authz/src/handler/policy/policy.rs, with the runtime catalog of
-- `PolicyRuntime` (policy/mod.rs). The databases behind the two repositories are one value `Db`; the
-- write lock makes every change one step.
use authguard.Base.{
  ℕ, Bool, false, ◌+◌, ◌^◌, ◌||◌, ◌&&◌, not, Option, none, some, List, [], ◌∷◌, map, Text, codes,
  is_blank, is_empty, ltb, eqb, sort, dedup, Result, ok, err, ◌>>=◌, ◌>>◌, ok_or, map_err, try_map,
  if◌then◌else◌,
}
use authguard.Urn.{error_to_string}
use authguard.Urn.Exact
use authguard.Model.{
  IamActionInfo, IamRoleInfo, IamRoleBindingInfo, IamPolicyInfo, IamPrincipalInfo, is_active,
  AuthorizationDecision,
}
use authguard.Model.Condition.{Net, EvaluationContext}
use authguard.Policy.Catalog
use authguard.Policy.Catalog.{CompiledPolicy, compile, initial_catalog, matchers}
use authguard.Policy.Mutation.{
  PolicyHandlerError, not_found, principal_disabled, revision_conflict, invalid_request,
  authorization_principal_inactive, invalid_policy, storage, Mutation, ensure_matching_id,
  find_item, action_id, role_id, binding_id, action_resource, role_resource, role_binding_resource,
  push_role_binding, set_role_binding, remove_role_binding, push_action, set_action, remove_action,
  push_role, set_role, remove_role, clear,
}

-- The trait `PolicyRepository`, over the database.
pub record PolicyRepository (Db : Type 0) : Type 0 where
  pub load : Db → Result Text IamPolicyInfo
  pub replace : IamPolicyInfo → Db → Result Text (Unit {0}) × Db

-- `get` of the trait `PrincipalRepository`
abbrev pub PrincipalRepository : Type 0 → Type 0 → Type 0
PrincipalRepository Db Json = Text → Db → Result Text (Option (IamPrincipalInfo Json))

-- What changes while the handler runs.
pub record PolicyHandler (Db Cidr : Type 0) : Type 0 where
  pub runtime : CompiledPolicy Cidr
  pub db : Db

-- The outcome of an operation, and the state after it.
abbrev pub Outcome : Type 0 → Type 0 → Type 0 → Type 0
Outcome Db Cidr A = Result PolicyHandlerError A × PolicyHandler Db Cidr

module _ {Db Cidr : Type 0} where
  -- `?` in an operation: an error leaves the state as it is.
  abbrev pub attempt :
      {A B : Type 0}
      → Result PolicyHandlerError A
      → PolicyHandler Db Cidr
      → (A → Outcome Db Cidr B)
      → Outcome Db Cidr B
  attempt (ok a) handler go_on = go_on a
  attempt (err e) handler go_on = (err e, handler)

  -- The response that is made of the replacement.
  abbrev pub respond : {A B : Type 0} → (A → B) → Outcome Db Cidr A → Outcome Db Cidr B
  respond f (ok a, handler) = (ok (f a), handler)
  respond f (err e, handler) = (err e, handler)

  abbrev pub catalog : PolicyHandler Db Cidr → IamPolicyInfo
  catalog handler = handler.runtime.policy

  unfoldable pub require_revision :
      ℕ → PolicyHandler Db Cidr → Result PolicyHandlerError IamPolicyInfo
  require_revision expected_revision handler =
      if not (eqb (catalog handler).revision expected_revision)
      then err (revision_conflict expected_revision (catalog handler).revision)
      else ok (catalog handler)

  unfoldable pub action_item :
      PolicyHandler Db Cidr → Text → Result PolicyHandlerError (ℕ × IamActionInfo)
  unfolding find_item
  action_item handler id =
      find_item action_id (catalog handler).revision (catalog handler).actions action_resource id

  unfoldable pub role_item :
      PolicyHandler Db Cidr → Text → Result PolicyHandlerError (ℕ × IamRoleInfo)
  unfolding find_item
  role_item handler id =
      find_item role_id (catalog handler).revision (catalog handler).roles role_resource id

  unfoldable pub role_binding_item :
      PolicyHandler Db Cidr → Text → Result PolicyHandlerError (ℕ × IamRoleBindingInfo)
  unfolding find_item
  role_binding_item handler id =
      find_item binding_id (catalog handler).revision (catalog handler).role_bindings
        role_binding_resource id

-- `u64::checked_add(1)`
unfoldable pub next_revision : ℕ → Result PolicyHandlerError ℕ
next_revision revision =
    if ltb (revision + 1) (2 ^ 64)
    then ok (revision + 1)
    else err (storage (codes "policy revision overflow"))

pub record AuthorizeRequest (Addr : Type 0) : Type 0 where
  pub principal_id : Text
  pub group_principal_ids : List Text
  pub action : Text
  pub resource_urn : Text
  pub parent_urns : List Text
  pub context : EvaluationContext Addr

abbrev pub required_fields : Text
required_fields = codes "principal_id, action, and resource_urn are required"

abbrev pub revision_mismatch : Text
revision_mismatch = codes "If-Match must equal the policy revision in the request body"

module _ {Addr Cidr Db Json : Type 0} (net : Net Addr Cidr) (repository : PolicyRepository Db)
    (principals : PrincipalRepository Db Json) where
  -- Nothing is stored, and the configuration has a policy.
  abbrev pub initializes : IamPolicyInfo → Option IamPolicyInfo → Bool
  initializes stored none = false
  initializes stored (some policy) =
      is_empty stored.actions && is_empty stored.roles && is_empty stored.role_bindings

  abbrev pub opened_policy : IamPolicyInfo → Option IamPolicyInfo → IamPolicyInfo
  opened_policy stored none = stored
  opened_policy stored (some policy) = if initializes stored (some policy) then policy else stored

  -- The end of `open`, after the policy was written.
  abbrev pub opened :
      CompiledPolicy Cidr
      → Result Text (Unit {0}) × Db
      → Result PolicyHandlerError (PolicyHandler Db Cidr) × Db
  opened runtime (err e, db) = (err (storage e), db)
  opened runtime (ok _, db) = (ok (record { runtime = runtime; db = db }), db)

  unfoldable pub open_handler :
      Option IamPolicyInfo → Db → Result PolicyHandlerError (PolicyHandler Db Cidr) × Db
  unfolding initial_catalog
  open_handler bootstrap_policy db = elim (repository.load db) [
    | err e ↦ (err (storage e), db)
    | ok stored ↦ elim (initial_catalog net (opened_policy stored bootstrap_policy)) [
      | err e ↦ (err (invalid_policy e), db)
      | ok runtime ↦
          if initializes stored bootstrap_policy
          then opened runtime (repository.replace runtime.policy db)
          else (ok (record { runtime = runtime; db = db }), db)
    ]
  ]

  unfoldable pub require_active_principal : Text → Db → Result PolicyHandlerError (Unit {0})
  require_active_principal id db = do
    found ← map_err storage (principals id db)
    principal ← ok_or (not_found (codes "principal") id) found
    if is_active principal.status then ok tt else err (principal_disabled id)

  -- The loop of `require_active_binding_principals`
  unfoldable pub require_all_active : List Text → Db → Result PolicyHandlerError (Unit {0})
  unfolding require_active_principal
  require_all_active [] db = ok tt
  require_all_active (id ∷ ids) db = do require_active_principal id db; require_all_active ids db

  -- The set of ids is walked in order.
  unfoldable pub require_active_binding_principals :
      IamPolicyInfo → Db → Result PolicyHandlerError (Unit {0})
  unfolding require_all_active
  require_active_binding_principals policy db =
      require_all_active
        (dedup (sort (map (λ (b : IamRoleBindingInfo). b.principal_id) policy.role_bindings))) db

  -- `runtime.install`, when the repository has taken the policy.
  abbrev pub installed :
      CompiledPolicy Cidr
      → PolicyHandler Db Cidr
      → Result Text (Unit {0}) × Db
      → Outcome Db Cidr IamPolicyInfo
  installed compiled handler (err e, db) =
      (err (storage e), record { runtime = handler.runtime; db = db })
  installed compiled handler (ok _, db) =
      (ok compiled.policy, record { runtime = compiled; db = db })

  unfoldable pub store_and_install :
      CompiledPolicy Cidr → PolicyHandler Db Cidr → Outcome Db Cidr IamPolicyInfo
  store_and_install compiled handler =
      installed compiled handler (repository.replace compiled.policy handler.db)

  unfoldable pub persist_and_publish :
      ℕ → IamPolicyInfo → PolicyHandler Db Cidr → Outcome Db Cidr IamPolicyInfo
  unfolding next_revision compile store_and_install
  persist_and_publish expected_revision policy handler =
      attempt
        (do
          replacement_revision ← next_revision expected_revision
          map_err invalid_policy (compile net policy replacement_revision))
        handler (λ compiled. store_and_install compiled handler)

  unfoldable pub mutate : ℕ → Mutation → PolicyHandler Db Cidr → Outcome Db Cidr IamPolicyInfo
  unfolding require_revision persist_and_publish
  mutate expected_revision mutation handler =
      attempt (do current ← require_revision expected_revision handler; mutation current) handler
        (λ replacement. persist_and_publish expected_revision replacement handler)

  unfoldable pub create_role_binding :
      ℕ → IamRoleBindingInfo → PolicyHandler Db Cidr → Outcome Db Cidr (ℕ × IamRoleBindingInfo)
  unfolding require_active_principal mutate push_role_binding
  create_role_binding expected_revision binding handler =
      attempt (require_active_principal binding.principal_id handler.db) handler (λ _.
        respond (λ (policy : IamPolicyInfo). (policy.revision, binding))
          (mutate expected_revision (push_role_binding binding) handler))

  unfoldable pub update_role_binding :
      ℕ
      → Text
      → IamRoleBindingInfo
      → PolicyHandler Db Cidr
      → Outcome Db Cidr (ℕ × IamRoleBindingInfo)
  unfolding ensure_matching_id require_active_principal mutate set_role_binding
  update_role_binding expected_revision id binding handler =
      attempt
        (do
          ensure_matching_id role_binding_resource id binding.id
          require_active_principal binding.principal_id handler.db)
        handler
        (λ _.
          respond (λ (policy : IamPolicyInfo). (policy.revision, binding))
            (mutate expected_revision (set_role_binding id binding) handler))

  unfoldable pub delete_role_binding : ℕ → Text → PolicyHandler Db Cidr → Outcome Db Cidr ℕ
  unfolding mutate remove_role_binding
  delete_role_binding expected_revision id handler =
      respond (λ (policy : IamPolicyInfo). policy.revision)
        (mutate expected_revision (remove_role_binding id) handler)

  unfoldable pub create_action :
      ℕ → IamActionInfo → PolicyHandler Db Cidr → Outcome Db Cidr (ℕ × IamActionInfo)
  unfolding mutate push_action
  create_action expected_revision action handler =
      respond (λ (policy : IamPolicyInfo). (policy.revision, action))
        (mutate expected_revision (push_action action) handler)

  unfoldable pub update_action :
      ℕ → Text → IamActionInfo → PolicyHandler Db Cidr → Outcome Db Cidr (ℕ × IamActionInfo)
  unfolding ensure_matching_id mutate set_action
  update_action expected_revision id action handler =
      attempt (ensure_matching_id action_resource id action.identifier) handler (λ _.
        respond (λ (policy : IamPolicyInfo). (policy.revision, action))
          (mutate expected_revision (set_action id action) handler))

  unfoldable pub delete_action : ℕ → Text → PolicyHandler Db Cidr → Outcome Db Cidr ℕ
  unfolding mutate remove_action
  delete_action expected_revision id handler =
      respond (λ (policy : IamPolicyInfo). policy.revision)
        (mutate expected_revision (remove_action id) handler)

  unfoldable pub create_role :
      ℕ → IamRoleInfo → PolicyHandler Db Cidr → Outcome Db Cidr (ℕ × IamRoleInfo)
  unfolding mutate push_role
  create_role expected_revision role handler =
      respond (λ (policy : IamPolicyInfo). (policy.revision, role))
        (mutate expected_revision (push_role role) handler)

  unfoldable pub update_role :
      ℕ → Text → IamRoleInfo → PolicyHandler Db Cidr → Outcome Db Cidr (ℕ × IamRoleInfo)
  unfolding ensure_matching_id mutate set_role
  update_role expected_revision id role handler =
      attempt (ensure_matching_id role_resource id role.id) handler (λ _.
        respond (λ (policy : IamPolicyInfo). (policy.revision, role))
          (mutate expected_revision (set_role id role) handler))

  unfoldable pub delete_role : ℕ → Text → PolicyHandler Db Cidr → Outcome Db Cidr ℕ
  unfolding mutate remove_role
  delete_role expected_revision id handler =
      respond (λ (policy : IamPolicyInfo). policy.revision)
        (mutate expected_revision (remove_role id) handler)

  unfoldable pub replace : ℕ → IamPolicyInfo → PolicyHandler Db Cidr → Outcome Db Cidr IamPolicyInfo
  unfolding require_revision require_active_binding_principals persist_and_publish
  replace expected_revision policy handler =
      attempt
        (if not (eqb expected_revision policy.revision)
          then err (invalid_request revision_mismatch)
          else (do
            current ← require_revision expected_revision handler
            require_active_binding_principals policy handler.db))
        handler (λ _. persist_and_publish expected_revision policy handler)

  unfoldable pub reset : ℕ → PolicyHandler Db Cidr → Outcome Db Cidr ℕ
  unfolding mutate clear
  reset expected_revision handler =
      respond (λ (policy : IamPolicyInfo). policy.revision) (mutate expected_revision clear handler)

  abbrev pub is_active_principal : Option (IamPrincipalInfo Json) → Bool
  is_active_principal none = false
  is_active_principal (some principal) = is_active principal.status

  unfoldable pub authorize_request :
      AuthorizeRequest Addr
      → PolicyHandler Db Cidr
      → Result PolicyHandlerError AuthorizationDecision
  authorize_request request handler =
      if is_blank request.principal_id || is_blank request.action || is_blank request.resource_urn
      then err (invalid_request required_fields)
      else (do
        resource_urn ←
            map_err (λ error. invalid_request (error_to_string error))
              (Exact.from_str request.resource_urn)
        parent_urns ←
            map_err (λ error. invalid_request (error_to_string error))
              (try_map Exact.from_str request.parent_urns)
        principal ← map_err storage (principals request.principal_id handler.db)
        if not (is_active_principal principal)
            then err (authorization_principal_inactive request.principal_id)
            else ok (
                Catalog.authorize net handler.runtime (record {
                  principal_id = request.principal_id;
                  group_principal_ids = request.group_principal_ids;
                  action = request.action;
                  resource_urn = resource_urn;
                  parent_urns = parent_urns;
                  context = request.context;
                })))

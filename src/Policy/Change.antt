-- ===== src/Policy/Change.antt =====
-- The changes that the methods of `PolicyHandler` (src/authz/src/handler/policy/policy.rs) make, and
-- what they mean for whoever reads the catalog by id.
use authguard.Base.{ℕ, Option, none, some, Text, ◌==◌, if◌then◌else◌}
use authguard.Model.{IamActionInfo, IamRoleInfo, IamRoleBindingInfo, IamPolicyInfo}
use authguard.Model.Condition.{Net}
use authguard.Policy.Mutation.{find_by, action_id, role_id, binding_id}
use authguard.Policy.Handler.{
  PolicyRepository, PrincipalRepository, PolicyHandler, Outcome, respond, create_role_binding,
  update_role_binding, delete_role_binding, create_action, update_action, delete_action,
  create_role, update_role, delete_role, replace, reset,
}

-- One request to change the catalog.
pub data Change : Type 0 where
  create_action_of : IamActionInfo → Change
  update_action_of : Text → IamActionInfo → Change
  delete_action_of : Text → Change
  create_role_of : IamRoleInfo → Change
  update_role_of : Text → IamRoleInfo → Change
  delete_role_of : Text → Change
  create_role_binding_of : IamRoleBindingInfo → Change
  update_role_binding_of : Text → IamRoleBindingInfo → Change
  delete_role_binding_of : Text → Change
  replace_of : IamPolicyInfo → Change
  reset_of : Change

-- A catalog as its readers know it: what stands under an id. The order and the revision are forgotten.
pub record View : Type 0 where
  pub actions : Text → Option IamActionInfo
  pub roles : Text → Option IamRoleInfo
  pub role_bindings : Text → Option IamRoleBindingInfo

abbrev pub view : IamPolicyInfo → View
view policy = record {
  actions = λ id. find_by action_id id policy.actions;
  roles = λ id. find_by role_id id policy.roles;
  role_bindings = λ id. find_by binding_id id policy.role_bindings;
}

abbrev pub put : {A : Type 0} → Text → A → (Text → Option A) → Text → Option A
put id new items k = if id == k then some new else items k

abbrev pub drop : {A : Type 0} → Text → (Text → Option A) → Text → Option A
drop id items k = if id == k then none else items k

-- What a change means, whatever the code does for it.
abbrev pub meaning : Change → View → View
meaning (create_action_of a) v = record v { actions = put a.identifier a v.actions }
meaning (update_action_of id a) v = record v { actions = put id a v.actions }
meaning (delete_action_of id) v = record v { actions = drop id v.actions }
meaning (create_role_of r) v = record v { roles = put r.id r v.roles }
meaning (update_role_of id r) v = record v { roles = put id r v.roles }
meaning (delete_role_of id) v = record v { roles = drop id v.roles }
meaning (create_role_binding_of b) v = record v { role_bindings = put b.id b v.role_bindings }
meaning (update_role_binding_of id b) v = record v { role_bindings = put id b v.role_bindings }
meaning (delete_role_binding_of id) v = record v { role_bindings = drop id v.role_bindings }
meaning (replace_of policy) v = view policy
meaning reset_of v = record { actions = λ _. none; roles = λ _. none; role_bindings = λ _. none }

module _ {Addr Cidr Db Json : Type 0} (net : Net Addr Cidr) (repository : PolicyRepository Db)
    (principals : PrincipalRepository Db Json) where
  -- The method that answers the request; of its response, the revision.
  unfoldable pub perform : Change → ℕ → PolicyHandler Db Cidr → Outcome Db Cidr ℕ
  unfolding create_role_binding update_role_binding delete_role_binding create_action update_action
      delete_action create_role update_role delete_role replace reset
  perform (create_action_of a) n h =
      respond (λ r. r.0) (create_action net repository principals n a h)
  perform (update_action_of id a) n h =
      respond (λ r. r.0) (update_action net repository principals n id a h)
  perform (delete_action_of id) n h = delete_action net repository principals n id h
  perform (create_role_of r) n h = respond (λ r. r.0) (create_role net repository principals n r h)
  perform (update_role_of id r) n h =
      respond (λ r. r.0) (update_role net repository principals n id r h)
  perform (delete_role_of id) n h = delete_role net repository principals n id h
  perform (create_role_binding_of b) n h =
      respond (λ r. r.0) (create_role_binding net repository principals n b h)
  perform (update_role_binding_of id b) n h =
      respond (λ r. r.0) (update_role_binding net repository principals n id b h)
  perform (delete_role_binding_of id) n h = delete_role_binding net repository principals n id h
  perform (replace_of policy) n h =
      respond (λ (p : IamPolicyInfo). p.revision) (replace net repository principals n policy h)
  perform reset_of n h = reset net repository principals n h

-- ===== src/Policy/Mutation.antt =====
-- The changes that `PolicyHandler` makes to a policy: the closures that its methods give to `mutate`,
-- and their helpers, of src/authz/src/handler/policy/policy.rs.
use mathlib.Core.Option
use authguard.Base.{
  ℕ, not, Option, none, some, List, [], ◌∷◌, ◌++◌, Text, codes, ◌==◌, contains, any, eqb, length,
  retain, find, Result, ok, err, ◌>>=◌, ◌>>◌, ok_or, if◌then◌else◌,
}
use authguard.Model.{IamActionInfo, IamRoleInfo, IamRoleBindingInfo, IamPolicyInfo}
use authguard.Policy.Catalog.{PolicyError, action_ids_of, role_ids_of, binding_ids_of}

pub data PolicyHandlerError : Type 0 where
  already_exists not_found : Text → Text → PolicyHandlerError
  id_mismatch : Text → Text → Text → PolicyHandlerError
  principal_disabled : Text → PolicyHandlerError
  referenced : Text → Text → Text → PolicyHandlerError
  revision_conflict : ℕ → ℕ → PolicyHandlerError
  invalid_request : Text → PolicyHandlerError
  authorization_principal_inactive : Text → PolicyHandlerError
  invalid_policy : PolicyError → PolicyHandlerError
  storage : Text → PolicyHandlerError

-- The names of the kinds of resources, as errors show them.
abbrev pub action_resource : Text
action_resource = codes "action"

abbrev pub role_resource : Text
role_resource = codes "role"

abbrev pub role_binding_resource : Text
role_binding_resource = codes "role binding"

unfoldable pub ensure_absent : List Text → Text → Text → Result PolicyHandlerError (Unit {0})
ensure_absent ids resource id = if contains id ids then err (already_exists resource id) else ok tt

unfoldable pub ensure_matching_id : Text → Text → Text → Result PolicyHandlerError (Unit {0})
ensure_matching_id resource path_id body_id =
    if path_id == body_id then ok tt else err (id_mismatch resource path_id body_id)

module _ {A : Type 0} (key : A → Text) where
  -- `iter_mut().find(…)`, and the assignment to what it finds.
  unfoldable pub set_first : Text → A → List A → Option (List A)
  set_first id new [] = none
  set_first id new (item ∷ items) =
      let rest = set_first id new items in
      if key item == id then some (new ∷ items) else Option.map (λ changed. item ∷ changed) rest

  abbrev pub find_by : Text → List A → Option A
  find_by id items = find (λ item. key item == id) items

  unfoldable pub remove_by_id : Text → List A → Text → Result PolicyHandlerError (List A)
  remove_by_id resource items id =
      let kept = retain (λ item. not (key item == id)) items in
      if eqb (length kept) (length items) then err (not_found resource id) else ok kept

  -- The item beside the revision of the catalog, a `ResourceItem`.
  unfoldable pub find_item : ℕ → List A → Text → Text → Result PolicyHandlerError (ℕ × A)
  find_item policy_revision items resource id = do
    item ← ok_or (not_found resource id) (find_by id items)
    ok (policy_revision, item)

abbrev pub action_id : IamActionInfo → Text
action_id action = action.identifier

abbrev pub role_id : IamRoleInfo → Text
role_id role = role.id

abbrev pub binding_id : IamRoleBindingInfo → Text
binding_id binding = binding.id

-- What a change makes of the current policy.
abbrev pub Mutation : Type 0
Mutation = IamPolicyInfo → Result PolicyHandlerError IamPolicyInfo

abbrev pub with_actions : IamPolicyInfo → List IamActionInfo → IamPolicyInfo
with_actions policy actions = record policy { actions = actions }

abbrev pub with_roles : IamPolicyInfo → List IamRoleInfo → IamPolicyInfo
with_roles policy roles = record policy { roles = roles }

abbrev pub with_role_bindings : IamPolicyInfo → List IamRoleBindingInfo → IamPolicyInfo
with_role_bindings policy bindings = record policy { role_bindings = bindings }

-- The closures of `create_role_binding`, `update_role_binding` and `delete_role_binding`
unfoldable pub push_role_binding : IamRoleBindingInfo → Mutation
unfolding ensure_absent
push_role_binding binding policy = do
  ensure_absent (binding_ids_of policy) role_binding_resource binding.id
  ok (with_role_bindings policy (policy.role_bindings ++ (binding ∷ [])))

unfoldable pub set_role_binding : Text → IamRoleBindingInfo → Mutation
unfolding set_first
set_role_binding id binding policy = do
  bindings ←
      ok_or (not_found role_binding_resource id)
        (set_first binding_id id binding policy.role_bindings)
  ok (with_role_bindings policy bindings)

unfoldable pub remove_role_binding : Text → Mutation
unfolding remove_by_id
remove_role_binding id policy = do
  bindings ← remove_by_id binding_id role_binding_resource policy.role_bindings id
  ok (with_role_bindings policy bindings)

-- The closures of `create_action`, `update_action` and `delete_action`
unfoldable pub push_action : IamActionInfo → Mutation
unfolding ensure_absent
push_action action policy = do
  ensure_absent (action_ids_of policy) action_resource action.identifier
  ok (with_actions policy (policy.actions ++ (action ∷ [])))

unfoldable pub set_action : Text → IamActionInfo → Mutation
unfolding set_first
set_action id action policy = do
  actions ← ok_or (not_found action_resource id) (set_first action_id id action policy.actions)
  ok (with_actions policy actions)

unfoldable pub remove_action : Text → Mutation
unfolding remove_by_id
remove_action id policy =
    if any (λ (role : IamRoleInfo). contains id role.action_ids) policy.roles
    then err (referenced action_resource id (codes "a role"))
    else (do
      actions ← remove_by_id action_id action_resource policy.actions id
      ok (with_actions policy actions))

-- The closures of `create_role`, `update_role` and `delete_role`
unfoldable pub push_role : IamRoleInfo → Mutation
unfolding ensure_absent
push_role role policy = do
  ensure_absent (role_ids_of policy) role_resource role.id
  ok (with_roles policy (policy.roles ++ (role ∷ [])))

unfoldable pub set_role : Text → IamRoleInfo → Mutation
unfolding set_first
set_role id role policy = do
  roles ← ok_or (not_found role_resource id) (set_first role_id id role policy.roles)
  ok (with_roles policy roles)

unfoldable pub remove_role : Text → Mutation
unfolding remove_by_id
remove_role id policy =
    if any (λ (binding : IamRoleBindingInfo). binding.role_id == id) policy.role_bindings
    then err (referenced role_resource id (codes "a role binding"))
    else (do
      roles ← remove_by_id role_id role_resource policy.roles id
      ok (with_roles policy roles))

-- The closure of `reset`
unfoldable pub clear : Mutation
clear policy =
    ok (record { revision = policy.revision; actions = []; roles = []; role_bindings = [] })

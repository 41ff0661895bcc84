-- ===== src/Policy/Meaning.antt =====
-- What the changes of `PolicyHandler` (src/authz/src/handler/policy/policy.rs) make of a policy is what
-- they mean.
use authguard.Base.{
  ◌≡◌, sym, ap, subst, [], ◌∷◌, ◌++◌, Option, some, Text, contains, Result, ok, ◌>>=◌, ◌>>◌, ok_or,
  bind-eq-ok, ok_inj, ok_or-eq-ok, Bool-cases, any, ◌==◌, if◌then◌else◌, List, inl, inr,
}
use authguard.Model.{IamActionInfo, IamRoleInfo, IamRoleBindingInfo, IamPolicyInfo}
use authguard.Policy.Catalog.{action_ids_of, role_ids_of, binding_ids_of}
use authguard.Policy.Mutation.{
  PolicyHandlerError, Mutation, action_id, role_id, binding_id, action_resource, role_resource,
  role_binding_resource, ensure_absent, ensure_matching_id, set_first, remove_by_id, find_by,
  push_role_binding, set_role_binding, remove_role_binding, push_action, set_action, remove_action,
  push_role, set_role, remove_role, clear, not_found, with_actions, with_roles, with_role_bindings,
}
use authguard.Policy.Change.{
  Change, view, meaning, create_action_of, update_action_of, delete_action_of, create_role_of,
  update_role_of, delete_role_of, create_role_binding_of, update_role_binding_of,
  delete_role_binding_of, replace_of, reset_of,
}
use authguard.Policy.Keyed.{
  find_by-push, find_by-set_first, find_by-remove_by_id, ensure_absent-eq-ok,
  ensure_matching_id-eq-ok,
}

-- What the method of a change makes of the current policy.
abbrev pub mutation_of : Change → Mutation
mutation_of (create_action_of a) policy = push_action a policy
mutation_of (update_action_of id a) policy =
    ensure_matching_id action_resource id a.identifier >> set_action id a policy
mutation_of (delete_action_of id) policy = remove_action id policy
mutation_of (create_role_of r) policy = push_role r policy
mutation_of (update_role_of id r) policy =
    ensure_matching_id role_resource id r.id >> set_role id r policy
mutation_of (delete_role_of id) policy = remove_role id policy
mutation_of (create_role_binding_of b) policy = push_role_binding b policy
mutation_of (update_role_binding_of id b) policy =
    ensure_matching_id role_binding_resource id b.id >> set_role_binding id b policy
mutation_of (delete_role_binding_of id) policy = remove_role_binding id policy
mutation_of (replace_of p) policy = ok p
mutation_of reset_of policy = clear policy

abbrev Finds : {A : Type 0} → (A → Text) → List A → (Text → Option A) → Type 0
Finds key items f = (k : Text) → find_by key k items ≡ f k

view-with_actions :
    (policy : IamPolicyInfo) (actions : List IamActionInfo) (f : Text → Option IamActionInfo)
    → Finds action_id actions f
    → view (with_actions policy actions) ≡ record (view policy) { actions = f }
view-with_actions policy actions f h = λ i. record (view policy) { actions = λ k. h k i }

view-with_roles :
    (policy : IamPolicyInfo) (roles : List IamRoleInfo) (f : Text → Option IamRoleInfo)
    → Finds role_id roles f
    → view (with_roles policy roles) ≡ record (view policy) { roles = f }
view-with_roles policy roles f h = λ i. record (view policy) { roles = λ k. h k i }

view-with_role_bindings :
    (policy : IamPolicyInfo) (bindings : List IamRoleBindingInfo)
    (f : Text → Option IamRoleBindingInfo)
    → Finds binding_id bindings f
    → view (with_role_bindings policy bindings) ≡ record (view policy) { role_bindings = f }
view-with_role_bindings policy bindings f h =
    λ i. record (view policy) { role_bindings = λ k. h k i }

-- A mutation that ends with one more step on the policy.
module _ {A : Type 0} (goal : IamPolicyInfo → Type 0) (r : Result PolicyHandlerError A)
    (step : A → IamPolicyInfo) where
  end-eq-ok :
      (p : IamPolicyInfo)
      → (r >>= λ a. ok (step a)) ≡ ok p
      → ((a : A) → r ≡ ok a → goal (step a))
      → goal p
  end-eq-ok p h f =
      let (a, e, h₁) = bind-eq-ok r (λ a. ok (step a)) h in subst goal (ok_inj h₁) (f a e)

module _ {A : Type 0} (key : A → Text) (resource id : Text) where
  set_first-eq-ok :
      (new : A) (items out : List A)
      → key new ≡ id
      → ok_or (not_found resource id) (set_first key id new items) ≡ ok out
      → Finds key out (λ k. if id == k then some new else find_by key k items)
  set_first-eq-ok new items out same h k =
      find_by-set_first key id k new items out same (ok_or-eq-ok _ (set_first key id new items) h)

-- A mutation that succeeds makes of the policy what the change means.
pub mutation_of-view :
    (c : Change) (policy p : IamPolicyInfo)
    → mutation_of c policy ≡ ok p
    → view p ≡ meaning c (view policy)
unfolding push_role_binding set_role_binding remove_role_binding push_action set_action
    remove_action push_role set_role remove_role clear
mutation_of-view (create_action_of a) policy p h =
    end-eq-ok (λ p. view p ≡ meaning (create_action_of a) (view policy))
      (ensure_absent (action_ids_of policy) action_resource a.identifier)
      (λ _. with_actions policy (policy.actions ++ (a ∷ []))) p h
      (λ _ e.
        view-with_actions policy _ _
          (λ k. find_by-push action_id k a policy.actions (ensure_absent-eq-ok _ _ _ e)))
mutation_of-view (update_action_of id a) policy p h =
    let r = ok_or (not_found action_resource id) (set_first action_id id a policy.actions) in
    let (u, e, h₁) =
      bind-eq-ok (ensure_matching_id action_resource id a.identifier)
        (λ _. r >>= λ actions. ok (with_actions policy actions)) h in
    end-eq-ok (λ p. view p ≡ meaning (update_action_of id a) (view policy)) r (with_actions policy)
      p h₁
      (λ out e₁. view-with_actions policy out _ (
        set_first-eq-ok action_id action_resource id a policy.actions out
          (ensure_matching_id-eq-ok _ _ _ e) e₁))
mutation_of-view (delete_action_of id) policy p h =
    elim (Bool-cases (any (λ (role : IamRoleInfo). contains id role.action_ids) policy.roles)) [
      | inl used ↦ cc (rw used at h)
      | inr unused ↦
          end-eq-ok (λ p. view p ≡ meaning (delete_action_of id) (view policy))
            (remove_by_id action_id action_resource policy.actions id) (with_actions policy) p
            (rw unused at h)
            (λ out e.
              view-with_actions policy out _
                (λ k. find_by-remove_by_id action_id action_resource id k policy.actions out e))
    ]
mutation_of-view (create_role_of a) policy p h =
    end-eq-ok (λ p. view p ≡ meaning (create_role_of a) (view policy))
      (ensure_absent (role_ids_of policy) role_resource a.id)
      (λ _. with_roles policy (policy.roles ++ (a ∷ []))) p h
      (λ _ e.
        view-with_roles policy _ _
          (λ k. find_by-push role_id k a policy.roles (ensure_absent-eq-ok _ _ _ e)))
mutation_of-view (update_role_of id a) policy p h =
    let r = ok_or (not_found role_resource id) (set_first role_id id a policy.roles) in
    let (u, e, h₁) =
      bind-eq-ok (ensure_matching_id role_resource id a.id)
        (λ _. r >>= λ roles. ok (with_roles policy roles)) h in
    end-eq-ok (λ p. view p ≡ meaning (update_role_of id a) (view policy)) r (with_roles policy) p h₁
      (λ out e₁. view-with_roles policy out _ (
        set_first-eq-ok role_id role_resource id a policy.roles out
          (ensure_matching_id-eq-ok _ _ _ e) e₁))
mutation_of-view (delete_role_of id) policy p h =
    elim (Bool-cases
      (any (λ (binding : IamRoleBindingInfo). binding.role_id == id) policy.role_bindings)) [
        | inl used ↦ cc (rw used at h)
        | inr unused ↦
            end-eq-ok (λ p. view p ≡ meaning (delete_role_of id) (view policy))
              (remove_by_id role_id role_resource policy.roles id) (with_roles policy) p
              (rw unused at h)
              (λ out e.
                view-with_roles policy out _
                  (λ k. find_by-remove_by_id role_id role_resource id k policy.roles out e))
      ]
mutation_of-view (create_role_binding_of a) policy p h =
    end-eq-ok (λ p. view p ≡ meaning (create_role_binding_of a) (view policy))
      (ensure_absent (binding_ids_of policy) role_binding_resource a.id)
      (λ _. with_role_bindings policy (policy.role_bindings ++ (a ∷ []))) p h
      (λ _ e.
        view-with_role_bindings policy _ _
          (λ k. find_by-push binding_id k a policy.role_bindings (ensure_absent-eq-ok _ _ _ e)))
mutation_of-view (update_role_binding_of id a) policy p h =
    let r =
      ok_or (not_found role_binding_resource id) (set_first binding_id id a policy.role_bindings) in
    let (u, e, h₁) =
      bind-eq-ok (ensure_matching_id role_binding_resource id a.id)
        (λ _. r >>= λ bindings. ok (with_role_bindings policy bindings)) h in
    end-eq-ok (λ p. view p ≡ meaning (update_role_binding_of id a) (view policy)) r
      (with_role_bindings policy) p h₁
      (λ out e₁. view-with_role_bindings policy out _ (
        set_first-eq-ok binding_id role_binding_resource id a policy.role_bindings out
          (ensure_matching_id-eq-ok _ _ _ e) e₁))
mutation_of-view (delete_role_binding_of id) policy p h =
    end-eq-ok (λ p. view p ≡ meaning (delete_role_binding_of id) (view policy))
      (remove_by_id binding_id role_binding_resource policy.role_bindings id)
      (with_role_bindings policy) p h
      (λ out e. view-with_role_bindings policy out _ (λ k.
        find_by-remove_by_id binding_id role_binding_resource id k policy.role_bindings out e))
mutation_of-view (replace_of q) policy p h = ap view (sym (ok_inj h))
mutation_of-view reset_of policy p h = ap view (sym (ok_inj h))

-- ===== src/Policy/Refinement.antt =====
-- The methods of `PolicyHandler` (src/authz/src/handler/policy/policy.rs) against what the changes
-- mean.
use authguard.Base.{
  ℕ, ◌+◌, ◌^◌, ◌<◌, ◌≡◌, refl, sym, ◌∙◌, ap, subst, ◌⊎◌, inl, inr, Result, ok, err, ◌>>=◌, ◌>>◌,
  bind-eq-ok, Bool-cases, not, eqb, if◌then◌else◌,
}
use authguard.Model.{IamActionInfo, IamRoleInfo, IamRoleBindingInfo, IamPolicyInfo}
use authguard.Model.Condition.{Net}
use authguard.Policy.Catalog.{compile}
use authguard.Policy.CatalogLaws.{compile-IsCompiled}
use authguard.Policy.Mutation.{
  PolicyHandlerError, Mutation, action_resource, role_resource, role_binding_resource,
  ensure_matching_id, push_role_binding, set_role_binding, remove_role_binding, push_action,
  set_action, remove_action, push_role, set_role, remove_role, clear, invalid_request,
}
use authguard.Policy.Handler.{
  PolicyRepository, PrincipalRepository, PolicyHandler, Outcome, respond, catalog, mutate,
  create_role_binding, update_role_binding, delete_role_binding, create_action, update_action,
  delete_action, create_role, update_role, delete_role, replace, reset, require_active_principal,
  require_revision, persist_and_publish, require_active_binding_principals, revision_mismatch,
}
use authguard.Policy.Change.{
  Change, view, meaning, perform, create_action_of, update_action_of, delete_action_of,
  create_role_of, update_role_of, delete_role_of, create_role_binding_of, update_role_binding_of,
  delete_role_binding_of, replace_of, reset_of,
}
use authguard.Policy.Meaning.{mutation_of, mutation_of-view}
use authguard.Policy.Published.{
  revision_of, respond-respond, require_revision-eq-ok, Rejected, Published, Ends, attempt-Ends,
  persist_and_publish-Ends, mutate-Ends,
}

module _ {Addr Cidr Db Json : Type 0} (net : Net Addr Cidr) (repository : PolicyRepository Db)
    (principals : PrincipalRepository Db Json) (before : PolicyHandler Db Cidr) where
  responded-Ends :
      {B : Type 0} (x : B) (mutation : Mutation) (n : ℕ)
      → Ends net repository principals before mutation n (
          respond
            (λ (r : ℕ × B). r.0)
            (respond
              (λ (p : IamPolicyInfo). (p.revision, x))
              (mutate net repository principals n mutation before)))
  responded-Ends x mutation n =
      subst (Ends net repository principals before mutation n)
        (sym (
          respond-respond (λ r. r.0) (λ (p : IamPolicyInfo). (p.revision, x))
            (mutate net repository principals n mutation before)))
        (mutate-Ends net repository principals before mutation n)

  -- A check that has succeeded may stand before the mutation.
  checked-Ends :
      (check : Result PolicyHandlerError (Unit {0})) (mutation : Mutation) (n : ℕ)
      (out : Outcome Db Cidr ℕ)
      → check ≡ ok tt
      → Ends net repository principals before mutation n out
      → Ends net repository principals before (λ p. check >> mutation p) n out
  checked-Ends (ok _) mutation n out h ends = ends
  checked-Ends (err e) mutation n out h ends = cc

  pub perform-Ends :
      (c : Change) (n : ℕ)
      → Ends net repository principals before
          (mutation_of c)
          n
          (perform net repository principals c n before)
  unfolding perform create_role_binding update_role_binding delete_role_binding create_action
      update_action delete_action create_role update_role delete_role replace reset
  perform-Ends (create_action_of a) n = responded-Ends a (push_action a) n
  perform-Ends (update_action_of id a) n =
      attempt-Ends net repository principals before (mutation_of (update_action_of id a)) n
        (λ (r : ℕ × IamActionInfo). r.0) (ensure_matching_id action_resource id a.identifier)
        (λ _.
          respond (λ (p : IamPolicyInfo). (p.revision, a))
            (mutate net repository principals n (set_action id a) before))
        (λ _ e.
          checked-Ends (ensure_matching_id action_resource id a.identifier) (set_action id a) n _ e
            (responded-Ends a (set_action id a) n))
  perform-Ends (delete_action_of id) n =
      mutate-Ends net repository principals before (remove_action id) n
  perform-Ends (create_role_of r) n = responded-Ends r (push_role r) n
  perform-Ends (update_role_of id r) n =
      attempt-Ends net repository principals before (mutation_of (update_role_of id r)) n
        (λ (r : ℕ × IamRoleInfo). r.0) (ensure_matching_id role_resource id r.id)
        (λ _.
          respond (λ (p : IamPolicyInfo). (p.revision, r))
            (mutate net repository principals n (set_role id r) before))
        (λ _ e.
          checked-Ends (ensure_matching_id role_resource id r.id) (set_role id r) n _ e
            (responded-Ends r (set_role id r) n))
  perform-Ends (delete_role_of id) n =
      mutate-Ends net repository principals before (remove_role id) n
  perform-Ends (create_role_binding_of b) n =
      attempt-Ends net repository principals before (push_role_binding b) n
        (λ (r : ℕ × IamRoleBindingInfo). r.0)
        (require_active_principal net repository principals b.principal_id before.db)
        (λ _.
          respond (λ (p : IamPolicyInfo). (p.revision, b))
            (mutate net repository principals n (push_role_binding b) before))
        (λ _ e. responded-Ends b (push_role_binding b) n)
  perform-Ends (update_role_binding_of id b) n =
      let check = ensure_matching_id role_binding_resource id b.id in
      let active : Unit {0} → Result PolicyHandlerError (Unit {0}) =
        λ _. require_active_principal net repository principals b.principal_id before.db in
      attempt-Ends net repository principals before (mutation_of (update_role_binding_of id b)) n
        (λ (r : ℕ × IamRoleBindingInfo). r.0) (check >>= active)
        (λ _.
          respond (λ (p : IamPolicyInfo). (p.revision, b))
            (mutate net repository principals n (set_role_binding id b) before))
        (λ _ e.
          checked-Ends check (set_role_binding id b) n _ (bind-eq-ok check active e).1
            (responded-Ends b (set_role_binding id b) n))
  perform-Ends (delete_role_binding_of id) n =
      mutate-Ends net repository principals before (remove_role_binding id) n
  perform-Ends (replace_of policy) n =
      let active : IamPolicyInfo → Result PolicyHandlerError (Unit {0}) =
        λ _. require_active_binding_principals net repository principals policy before.db in
      let checks = require_revision n before >>= active in
      let guarded =
        if not (eqb n policy.revision) then err (invalid_request revision_mismatch) else checks in
      attempt-Ends net repository principals before (λ _. ok policy) n revision_of guarded
        (λ _. persist_and_publish net repository principals n policy before)
        (λ u h. elim (Bool-cases (eqb n policy.revision)) [
          | inl same ↦
              let (current, e, _) = bind-eq-ok (require_revision n before) active (rw same at h) in
              persist_and_publish-Ends net repository principals before (λ _. ok policy) n policy
                (require_revision-eq-ok n before current e).0 refl
          | inr other ↦ cc (rw other at h)
        ])
  perform-Ends reset_of n = mutate-Ends net repository principals before clear n

  -- The change was made: the catalog is one revision on and holds what the change means, and it was
  -- compiled and stored before it was installed.
  pub record Accepted (c : Change) (n : ℕ) (out : Outcome Db Cidr ℕ) : Type 0 where
    pub current : n ≡ (catalog before).revision
    pub bounded : n + 1 < 2 ^ 64
    pub answer : out.0 ≡ ok (n + 1)
    pub revision : (catalog out.1).revision ≡ n + 1
    pub contents : view (catalog out.1) ≡ meaning c (view (catalog before))
    pub policy : IamPolicyInfo
    pub compiled : compile net policy (n + 1) ≡ ok out.1.runtime
    pub stored : repository.replace (catalog out.1) before.db ≡ (ok tt, out.1.db)

  Published-Accepted :
      (c : Change) (n : ℕ) (out : Outcome Db Cidr ℕ)
      → Published net repository principals before (mutation_of c) n out
      → Accepted c n out
  Published-Accepted c n out p =
      let held = (compile-IsCompiled net p.policy (n + 1) out.1.runtime p.compiled).held in
      record {
        current = p.current;
        bounded = p.bounded;
        answer = p.answer;
        revision = ap revision_of held;
        contents = ap view held ∙ mutation_of-view c (catalog before) p.policy p.changed;
        policy = p.policy;
        compiled = p.compiled;
        stored = p.stored;
      }

  -- Every change of the catalog either is rejected with an error, and then what is installed is as
  -- before and the database is as it was or as a failed write left it, or it is made: then it named
  -- the current revision, the answer and the catalog have the next revision, which is below 2 ^ 64,
  -- the catalog holds under every id what the change means, and it compiled and was stored.
  pub perform_refines :
      (c : Change) (n : ℕ)
      → Rejected net repository principals before (perform net repository principals c n before)
        ⊎ Accepted c n (perform net repository principals c n before)
  perform_refines c n = elim (perform-Ends c n) [
    | inl rejected ↦ inl rejected
    | inr published ↦ inr (Published-Accepted c n _ published)
  ]

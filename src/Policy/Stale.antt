-- ===== src/Policy/Stale.antt =====
-- Changes under a revision that is no longer the current one (`require_revision` of
-- src/authz/src/handler/policy/policy.rs), and what a change needs to be made.
use authguard.Base.{
  ℕ, ◌+◌, ◌^◌, ◌<◌, ◌≡◌, ◌≢◌, refl, sym, ap, ◌∙◌, inl, inr, true, false, arith, eqb, eqb_iff, ltb,
  Result, ok, err, ◌>>=◌, Bool-cases,
}
use authguard.Model.{IamPolicyInfo}
use authguard.Model.Condition.{Net}
use authguard.Policy.Catalog.{CompiledPolicy, compile}
use authguard.Policy.Mutation.{
  PolicyHandlerError, Mutation, revision_conflict, invalid_request, ensure_matching_id,
  action_resource, role_resource, role_binding_resource, push_role_binding, set_role_binding,
  remove_role_binding, push_action, set_action, remove_action, push_role, set_role, remove_role,
  clear,
}
use authguard.Policy.Handler.{
  PolicyRepository, PrincipalRepository, PolicyHandler, Outcome, respond, attempt, catalog, mutate,
  require_revision, require_active_principal, create_role_binding, update_role_binding,
  delete_role_binding, create_action, update_action, delete_action, create_role, update_role,
  delete_role, replace, reset, persist_and_publish, next_revision, store_and_install,
  revision_mismatch,
}
use authguard.Policy.Change.{
  Change, perform, create_action_of, update_action_of, delete_action_of, create_role_of,
  update_role_of, delete_role_of, create_role_binding_of, update_role_binding_of,
  delete_role_binding_of, replace_of, reset_of,
}
use authguard.Policy.Refinement.{perform_refines}
use authguard.Policy.Runs.{Run, Run-revision}

module _ {Db Cidr : Type 0} (before : PolicyHandler Db Cidr) where
  -- An error, and the runtime catalog and the database exactly as before.
  abbrev pub Stays : {A : Type 0} → Outcome Db Cidr A → Type 0
  Stays out = (e : PolicyHandlerError) × (out ≡ (err e, before))

  respond-Stays :
      {A B : Type 0} (f : A → B) (out : Outcome Db Cidr A) → Stays out → Stays (respond f out)
  respond-Stays f out (e, h) = (e, ap (respond f) h)

  attempt-Stays :
      {A B : Type 0} (r : Result PolicyHandlerError A) (go_on : A → Outcome Db Cidr B)
      → ((a : A) → Stays (go_on a))
      → Stays (attempt r before go_on)
  attempt-Stays (ok a) go_on h = h a
  attempt-Stays (err e) go_on h = (e, refl)

module _ {Addr Cidr Db Json : Type 0} (net : Net Addr Cidr) (repository : PolicyRepository Db)
    (principals : PrincipalRepository Db Json) where
  module _ (n : ℕ) (before : PolicyHandler Db Cidr) (old : n ≢ (catalog before).revision) where
    other_revision : eqb (catalog before).revision n ≡ false
    other_revision = ground (arith, eqb_iff (catalog before).revision n)

    -- The mutation is not looked at.
    mutate_stale :
        (mutation : Mutation)
        → mutate net repository principals n mutation before
          ≡ (err (revision_conflict n (catalog before).revision), before)
    unfolding mutate require_revision
    mutate_stale mutation = rw (other_revision, require_revision) refl

    mutate-Stays :
        {B : Type 0} (f : IamPolicyInfo → B) (mutation : Mutation)
        → Stays before (respond f (mutate net repository principals n mutation before))
    mutate-Stays f mutation =
        respond-Stays before f (mutate net repository principals n mutation before)
          (_, mutate_stale mutation)

    -- A change that does not name the current revision is answered by an error, and leaves the catalog
    -- and the database exactly as they are: not even a write is tried.
    pub perform_stale : (c : Change) → Stays before (perform net repository principals c n before)
    unfolding perform create_role_binding update_role_binding delete_role_binding create_action
        update_action delete_action create_role update_role delete_role replace reset
    perform_stale (create_action_of a) = respond-Stays before _ _ (mutate-Stays _ (push_action a))
    perform_stale (update_action_of id a) = respond-Stays before _ _ (
        attempt-Stays before (ensure_matching_id action_resource id a.identifier) _
          (λ _. mutate-Stays (λ (p : IamPolicyInfo). (p.revision, a)) (set_action id a)))
    perform_stale (delete_action_of id) = mutate-Stays _ (remove_action id)
    perform_stale (create_role_of r) = respond-Stays before _ _ (mutate-Stays _ (push_role r))
    perform_stale (update_role_of id r) = respond-Stays before _ _ (
        attempt-Stays before (ensure_matching_id role_resource id r.id) _
          (λ _. mutate-Stays (λ (p : IamPolicyInfo). (p.revision, r)) (set_role id r)))
    perform_stale (delete_role_of id) = mutate-Stays _ (remove_role id)
    perform_stale (create_role_binding_of b) = respond-Stays before _ _ (
        attempt-Stays before
          (require_active_principal net repository principals b.principal_id before.db) _
          (λ _. mutate-Stays (λ (p : IamPolicyInfo). (p.revision, b)) (push_role_binding b)))
    perform_stale (update_role_binding_of id b) = respond-Stays before _ _ (
        attempt-Stays before
          (ensure_matching_id role_binding_resource id b.id >>= λ _.
            require_active_principal net repository principals b.principal_id before.db)
          _ (λ _. mutate-Stays (λ (p : IamPolicyInfo). (p.revision, b)) (set_role_binding id b)))
    perform_stale (delete_role_binding_of id) = mutate-Stays _ (remove_role_binding id)
    perform_stale (replace_of policy) = elim (Bool-cases (eqb n policy.revision)) [
      | inl same ↦ (
        revision_conflict n (catalog before).revision,
        rw (same, other_revision, require_revision) refl,
      )
      | inr other ↦ (invalid_request revision_mismatch, rw (other) refl)
    ]
    perform_stale reset_of = mutate-Stays _ clear

  -- Once a change under a revision has been made, no later change under the same revision is made by the
  -- same handler, however many changes it makes or rejects in between: of several writers that read the
  -- same catalog, one at most succeeds. The handler is not opened again in between, which would count
  -- revisions anew, and it is the only writer of the policy.
  pub no_lost_update :
      (c later : Change) (n revision : ℕ) (h k : PolicyHandler Db Cidr)
      → (perform net repository principals c n h).0 ≡ ok revision
      → Run net repository principals (perform net repository principals c n h).1 k
      → Stays k (perform net repository principals later n k)
  no_lost_update c later n revision h k made run =
      elim (perform_refines net repository principals h c n) [
        | inl r ↦ let clash = sym made ∙ r.answer in cc
        | inr a ↦
            perform_stale n k
              (λ same. omega (arith, same, a.revision, Run-revision net repository principals run))
              later
      ]

  -- A mutation is made when it names the current revision, the next revision is below 2 ^ 64, it
  -- applies to the current policy, its result compiles, and the repository stores it: then the answer
  -- is the new policy, and the new catalog is installed.
  pub mutate_succeeds :
      (mutation : Mutation) (n : ℕ) (h : PolicyHandler Db Cidr) (policy : IamPolicyInfo)
      (compiled : CompiledPolicy Cidr) (db : Db)
      → n ≡ (catalog h).revision
      → n + 1 < 2 ^ 64
      → mutation (catalog h) ≡ ok policy
      → compile net policy (n + 1) ≡ ok compiled
      → repository.replace compiled.policy h.db ≡ (ok tt, db)
      → mutate net repository principals n mutation h
        ≡ (ok compiled.policy, record { runtime = compiled; db = db })
  unfolding mutate require_revision persist_and_publish next_revision store_and_install
  mutate_succeeds mutation n h policy compiled db current bounded applies compiles stored =
      let e : eqb (catalog h).revision n ≡ true = ground (arith, eqb_iff (catalog h).revision n) in
      let fits : ltb (n + 1) (2 ^ 64) ≡ true = ground arith in
      rw (e, require_revision, applies, persist_and_publish, fits, next_revision, compiles, stored)
        refl

-- ===== src/Policy/Published.antt =====
-- How a change of the catalog ends (`mutate`, `persist_and_publish` and `replace` of
-- src/authz/src/handler/policy/policy.rs): it is rejected, or it is stored and installed.
use authguard.Base.{
  ℕ, ◌+◌, ◌^◌, ◌<◌, ◌≡◌, refl, sym, ap, subst, ◌⊎◌, inl, inr, Text, arith, eqb, eqb_iff, ltb,
  Result, ok, err, ◌>>=◌, map_err, bind-eq-ok, ok_inj, map_err-eq-ok, Bool-cases,
}
use authguard.Model.{IamPolicyInfo}
use authguard.Model.Condition.{Net}
use authguard.Policy.Catalog.{CompiledPolicy, compile}
use authguard.Policy.CatalogLaws.{compile-IsCompiled}
use authguard.Policy.Mutation.{PolicyHandlerError, Mutation, invalid_policy}
use authguard.Policy.Handler.{
  PolicyRepository, PrincipalRepository, PolicyHandler, Outcome, attempt, respond, catalog,
  next_revision, require_revision, installed, store_and_install, persist_and_publish, mutate,
}

abbrev pub revision_of : IamPolicyInfo → ℕ
revision_of policy = policy.revision

module _ {Db Cidr : Type 0} where
  pub respond-respond :
      {A B C : Type 0} (f : B → C) (g : A → B) (out : Outcome Db Cidr A)
      → respond f (respond g out) ≡ respond (λ a. f (g a)) out
  respond-respond f g (ok a, handler) = refl
  respond-respond f g (err e, handler) = refl

pub require_revision-eq-ok :
    {Db Cidr : Type 0} (expected : ℕ) (handler : PolicyHandler Db Cidr) (policy : IamPolicyInfo)
    → require_revision expected handler ≡ ok policy
    → (expected ≡ (catalog handler).revision) × (policy ≡ catalog handler)
unfolding require_revision
require_revision-eq-ok expected handler policy h =
    elim (Bool-cases (eqb (catalog handler).revision expected)) [
      | inl same ↦
          (sym ((eqb_iff (catalog handler).revision expected).0 same), sym (ok_inj (rw same at h)))
      | inr other ↦ cc (rw other at h)
    ]

pub next_revision-eq-ok :
    (revision next : ℕ)
    → next_revision revision ≡ ok next
    → (next ≡ revision + 1) × (revision + 1 < 2 ^ 64)
unfolding next_revision
next_revision-eq-ok revision next h = elim (Bool-cases (ltb (revision + 1) (2 ^ 64))) [
  | inl fits ↦ (sym (ok_inj (rw fits at h)), ground arith)
  | inr over ↦ cc (rw over at h)
]

module _ {Addr Cidr Db Json : Type 0} (net : Net Addr Cidr) (repository : PolicyRepository Db)
    (principals : PrincipalRepository Db Json) (before : PolicyHandler Db Cidr) where
  -- The database is as it was, or as a failed write left it.
  abbrev pub NotStored : Db → Type 0
  NotStored db =
      (db ≡ before.db)
      ⊎ ((policy : IamPolicyInfo) × (error : Text) × (repository.replace policy before.db
            ≡ (err error, db)))

  -- The operation answers an error, and what is installed is as before.
  pub record Rejected {A : Type 0} (out : Outcome Db Cidr A) : Type 0 where
    pub error : PolicyHandlerError
    pub answer : out.0 ≡ err error
    pub runtime : out.1.runtime ≡ before.runtime
    pub db : NotStored out.1.db

  -- What the mutation makes of the current policy compiles under the next revision, is stored, and is
  -- installed.
  pub record Published (mutation : Mutation) (expected : ℕ) (out : Outcome Db Cidr ℕ) : Type 0 where
    pub current : expected ≡ (catalog before).revision
    pub bounded : expected + 1 < 2 ^ 64
    pub policy : IamPolicyInfo
    pub changed : mutation (catalog before) ≡ ok policy
    pub compiled : compile net policy (expected + 1) ≡ ok out.1.runtime
    pub stored : repository.replace out.1.runtime.policy before.db ≡ (ok tt, out.1.db)
    pub answer : out.0 ≡ ok (expected + 1)

  abbrev pub Ends : Mutation → ℕ → Outcome Db Cidr ℕ → Type 0
  Ends mutation expected out = Rejected out ⊎ Published mutation expected out

  pub attempt-Ends :
      {A B : Type 0} (mutation : Mutation) (expected : ℕ) (f : B → ℕ)
      (r : Result PolicyHandlerError A) (go_on : A → Outcome Db Cidr B)
      → ((a : A) → r ≡ ok a → Ends mutation expected (respond f (go_on a)))
      → Ends mutation expected (respond f (attempt r before go_on))
  attempt-Ends mutation expected f (ok a) go_on h = h a refl
  attempt-Ends mutation expected f (err e) go_on h =
      inl (record { error = e; answer = refl; runtime = refl; db = inl refl })

  installed-Ends :
      (mutation : Mutation) (expected : ℕ) (policy : IamPolicyInfo) (compiled : CompiledPolicy Cidr)
      (written : Result Text (Unit {0}) × Db)
      → expected ≡ (catalog before).revision
      → expected + 1 < 2 ^ 64
      → mutation (catalog before) ≡ ok policy
      → compile net policy (expected + 1) ≡ ok compiled
      → repository.replace compiled.policy before.db ≡ written
      → Ends mutation expected
          (respond revision_of (installed net repository principals compiled before written))
  installed-Ends mutation expected policy compiled (err e, db) current bounded changed h written =
      inl (record {
        error = _;
        answer = refl;
        runtime = refl;
        db = inr (compiled.policy, e, written);
      })
  installed-Ends mutation expected policy compiled (ok _, db) current bounded changed h written =
      inr (record {
        current = current;
        bounded = bounded;
        policy = policy;
        changed = changed;
        compiled = h;
        stored = written;
        answer =
            ap (λ (p : IamPolicyInfo). ok p.revision)
              (compile-IsCompiled net policy (expected + 1) compiled h).held;
      })

  pub persist_and_publish-Ends :
      (mutation : Mutation) (expected : ℕ) (policy : IamPolicyInfo)
      → expected ≡ (catalog before).revision
      → mutation (catalog before) ≡ ok policy
      → Ends mutation expected (
          respond revision_of
            (persist_and_publish net repository principals expected policy before))
  unfolding persist_and_publish store_and_install
  persist_and_publish-Ends mutation expected policy current changed =
      let compile_next : ℕ → Result PolicyHandlerError (CompiledPolicy Cidr) =
        λ next. map_err invalid_policy (compile net policy next) in
      attempt-Ends mutation expected revision_of (next_revision expected >>= compile_next)
        (λ compiled. store_and_install net repository principals compiled before)
        (λ compiled h.
          let (next, e, h₁) = bind-eq-ok (next_revision expected) compile_next h in
          let (same, bounded) = next_revision-eq-ok expected next e in
          installed-Ends mutation expected policy compiled
            (repository.replace compiled.policy before.db) current bounded changed
            (subst (λ n. compile net policy n ≡ ok compiled) same
              (map_err-eq-ok invalid_policy (compile net policy next) h₁))
            refl)

  pub mutate-Ends :
      (mutation : Mutation) (expected : ℕ)
      → Ends mutation expected
          (respond revision_of (mutate net repository principals expected mutation before))
  unfolding mutate
  mutate-Ends mutation expected =
      attempt-Ends mutation expected revision_of (require_revision expected before >>= mutation)
        (λ policy. persist_and_publish net repository principals expected policy before)
        (λ policy h.
          let (current, e, h₁) = bind-eq-ok (require_revision expected before) mutation h in
          let (same, is_current) = require_revision-eq-ok expected before current e in
          persist_and_publish-Ends mutation expected policy same
            (subst (λ p. mutation p ≡ ok policy) is_current h₁))

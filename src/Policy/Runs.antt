-- ===== src/Policy/Runs.antt =====
-- Runs of `PolicyHandler` (src/authz/src/handler/policy/policy.rs): changes one after another, as the
-- write lock orders them, and between them what others do to the database.
use mathlib.Core.List.{Perm}
use authguard.Base.{
  ℕ, ◌+◌, ◌≤◌, ◌≡◌, refl, sym, ap, subst, ◌∙◌, inl, inr, map, Text, arith, sort, ok, err,
}
use authguard.Model.{IamRoleInfo, IamPolicyInfo}
use authguard.Model.Condition.{Net}
use authguard.Policy.Catalog.{CompiledPolicy, compile}
use authguard.Policy.Handler.{PolicyRepository, PrincipalRepository, PolicyHandler, catalog}
use authguard.Policy.Change.{Change, perform}
use authguard.Policy.Refinement.{perform_refines}

-- The same catalog, whatever the order of its lists and of the actions of a role. The revision is not
-- stored.
abbrev sorted_role : IamRoleInfo → IamRoleInfo
sorted_role role = record role { action_ids = sort role.action_ids }

pub record SameContents (q p : IamPolicyInfo) : Type 0 where
  pub actions : Perm q.actions p.actions
  pub roles : Perm (map sorted_role q.roles) (map sorted_role p.roles)
  pub role_bindings : Perm q.role_bindings p.role_bindings

-- What a transaction of the database promises: a policy that was written is read back, and a write
-- that failed has changed nothing.
pub record KeepsPolicies {Db : Type 0} (repository : PolicyRepository Db) : Type 0 where
  pub kept :
      (p : IamPolicyInfo) (db after : Db)
      → repository.replace p db ≡ (ok tt, after)
      → (q : IamPolicyInfo) × (repository.load after ≡ ok q) × SameContents q p
  pub untouched :
      (p : IamPolicyInfo) (db after : Db) (e : Text)
      → repository.replace p db ≡ (err e, after)
      → repository.load after ≡ repository.load db

module _ {Addr Cidr Db Json : Type 0} (net : Net Addr Cidr) (repository : PolicyRepository Db)
    (principals : PrincipalRepository Db Json) where
  pub data Run : PolicyHandler Db Cidr → PolicyHandler Db Cidr → Type 0 where
    done : {h : PolicyHandler Db Cidr} → Run h h
    changes :
        {h k : PolicyHandler Db Cidr} (c : Change) (n : ℕ)
        → Run (perform net repository principals c n h).1 k
        → Run h k
    -- Others use the database, and leave the stored policy as it is.
    elsewhere :
        {h k : PolicyHandler Db Cidr} (db : Db)
        → repository.load db ≡ repository.load h.db
        → Run (record { runtime = h.runtime; db = db }) k
        → Run h k

  -- What is installed was compiled, and the database holds the same catalog.
  pub record IsSound (h : PolicyHandler Db Cidr) : Type 0 where
    pub source : IamPolicyInfo
    pub revision : ℕ
    pub positive : 1 ≤ revision
    pub compiled : compile net source revision ≡ ok h.runtime
    pub loaded : IamPolicyInfo
    pub stored : repository.load h.db ≡ ok loaded
    pub same : SameContents loaded (catalog h)

  perform-revision :
      (c : Change) (n : ℕ) (h : PolicyHandler Db Cidr)
      → (catalog h).revision ≤ (catalog (perform net repository principals c n h).1).revision
  perform-revision c n h = elim (perform_refines net repository principals h c n) [
    | inl r ↦
        subst (λ (x : CompiledPolicy Cidr). (catalog h).revision ≤ x.policy.revision)
          (sym r.runtime) (omega arith)
    | inr a ↦ omega (arith, a.current, a.revision)
  ]

  pub Run-revision :
      {h k : PolicyHandler Db Cidr} → Run h k → (catalog h).revision ≤ (catalog k).revision
  Run-revision done = omega arith
  Run-revision (changes {h} {k} c n run) = omega (arith, perform-revision c n h, Run-revision run)
  Run-revision (elsewhere db e run) = Run-revision run

  module _ (keeps : KeepsPolicies repository) where
    -- A database that reads as before keeps the catalog sound.
    moved-IsSound :
        (h k : PolicyHandler Db Cidr)
        → k.runtime ≡ h.runtime
        → repository.load k.db ≡ repository.load h.db
        → IsSound h
        → IsSound k
    moved-IsSound h k same_runtime same_db s = record {
      source = s.source;
      revision = s.revision;
      positive = s.positive;
      compiled = s.compiled ∙ ap ok (sym same_runtime);
      loaded = s.loaded;
      stored = same_db ∙ s.stored;
      same =
          subst (λ (x : CompiledPolicy Cidr). SameContents s.loaded x.policy) (sym same_runtime)
            s.same;
    }

    -- A catalog that was just stored is sound.
    pub stored-IsSound :
        (h : PolicyHandler Db Cidr) (source : IamPolicyInfo) (revision : ℕ) (db : Db)
        → 1 ≤ revision
        → compile net source revision ≡ ok h.runtime
        → repository.replace (catalog h) db ≡ (ok tt, h.db)
        → IsSound h
    stored-IsSound h source revision db positive compiled stored =
        let (loaded, e, same) = keeps.kept (catalog h) db h.db stored in
        record {
          source = source;
          revision = revision;
          positive = positive;
          compiled = compiled;
          loaded = loaded;
          stored = e;
          same = same;
        }

    pub perform-IsSound :
        (c : Change) (n : ℕ) (h : PolicyHandler Db Cidr)
        → IsSound h
        → IsSound (perform net repository principals c n h).1
    perform-IsSound c n h s = elim (perform_refines net repository principals h c n) [
      | inl r ↦
          moved-IsSound h _ r.runtime
            (elim r.db [
              | inl same ↦ ap repository.load same
              | inr (p, e, failed) ↦ keeps.untouched p h.db _ e failed
            ])
            s
      | inr a ↦ stored-IsSound _ a.policy (n + 1) h.db (omega arith) a.compiled a.stored
    ]

    -- However the changes, whether made or rejected, and the other uses of the database follow each
    -- other, what is installed was compiled under a positive revision, and the database holds the same
    -- catalog up to order.
    pub Run-IsSound : {h k : PolicyHandler Db Cidr} → Run h k → IsSound h → IsSound k
    Run-IsSound done s = s
    Run-IsSound (changes {h} {k} c n run) s = Run-IsSound run (perform-IsSound c n h s)
    Run-IsSound (elsewhere {h} {k} db e run) s =
        Run-IsSound run (moved-IsSound h (record { runtime = h.runtime; db = db }) refl e s)

-- ===== src/Policy/Opened.antt =====
-- What `PolicyHandler::open` of src/authz/src/handler/policy/policy.rs starts from.
use mathlib.Core.List.Perm
use authguard.Base.{
  ◌≡◌, refl, sym, ap, subst, ◌∙◌, inl, inr, false, max, arith, Option, none, some, Text, Result, ok,
  err, ok_inj, Bool-cases, Result-cases,
}
use authguard.Model.{IamPolicyInfo}
use authguard.Model.Condition.{Net}
use authguard.Policy.Catalog.{CompiledPolicy, compile, initial_catalog}
use authguard.Policy.CatalogLaws.{compile-IsCompiled}
use authguard.Policy.Handler.{
  PolicyRepository, PrincipalRepository, PolicyHandler, open_handler, opened, opened_policy,
  initializes,
}
use authguard.Policy.Runs.{KeepsPolicies, SameContents, IsSound, Run, Run-IsSound, stored-IsSound}

module _ {Addr Cidr Db Json : Type 0} (net : Net Addr Cidr) (repository : PolicyRepository Db)
    (principals : PrincipalRepository Db Json) (keeps : KeepsPolicies repository) where
  opened-eq-ok :
      (runtime : CompiledPolicy Cidr) (written : Result Text (Unit {0}) × Db)
      (h : PolicyHandler Db Cidr) (after : Db)
      → opened net repository principals runtime written ≡ (ok h, after)
      → (written ≡ (ok tt, after)) × (h ≡ record { runtime = runtime; db = after })
  opened-eq-ok runtime (ok _, db) h after e = (
    λ i. (ok tt, (e i).1),
    ok_inj (ap (λ p. p.0) (sym e))
        ∙ ap (λ (d : Db). record { runtime = runtime; db = d }) (ap (λ p. p.1) e),
  )
  opened-eq-ok runtime (err _, db) h after e = let e₀ = ap (λ p. p.0) e in cc

  -- Without a policy to start with, or beside a stored one, the stored one is opened.
  opened_policy-filled :
      (stored : IamPolicyInfo) (bootstrap : Option IamPolicyInfo)
      → initializes net repository principals stored bootstrap ≡ false
      → opened_policy net repository principals stored bootstrap ≡ stored
  opened_policy-filled stored none h = refl
  opened_policy-filled stored (some policy) h = rw h refl

  kept-IsSound :
      (stored : IamPolicyInfo) (runtime : CompiledPolicy Cidr) (db : Db)
      → repository.load db ≡ ok stored
      → compile net stored (max stored.revision 1) ≡ ok runtime
      → IsSound net repository principals (record { runtime = runtime; db = db })
  kept-IsSound stored runtime db loaded compiled =
      let c = compile-IsCompiled net stored (max stored.revision 1) runtime compiled in
      record {
        source = stored;
        revision = max stored.revision 1;
        positive = omega arith;
        compiled = compiled;
        loaded = stored;
        stored = loaded;
        same =
            subst (SameContents stored) (sym c.held)
              (record { actions = Perm.refl _; roles = Perm.refl _; role_bindings = Perm.refl _ });
      }

  open_handler-IsSound :
      (bootstrap : Option IamPolicyInfo) (db after : Db) (h : PolicyHandler Db Cidr)
      → open_handler net repository principals bootstrap db ≡ (ok h, after)
      → IsSound net repository principals h
  unfolding open_handler initial_catalog
  open_handler-IsSound bootstrap db after h e = elim (Result-cases (repository.load db)) [
    | inr (error, failed) ↦ let e₀ = ap (λ p. p.0) (rw (failed, open_handler) at e) in cc
    | inl (stored, loaded) ↦
        let source = opened_policy net repository principals stored bootstrap in
        elim (Result-cases
          (initial_catalog net (opened_policy net repository principals stored bootstrap))) [
            | inr (error, invalid) ↦
                let e₀ =
                  ap (λ p. p.0) (rw (invalid, open_handler) at (rw (loaded, open_handler) at e)) in
                cc
            | inl (runtime, compiled) ↦
                elim (Bool-cases (initializes net repository principals stored bootstrap)) [
                  | inl empty ↦
                      let e₁ =
                        rw (empty, open_handler) at
                          (rw (compiled, open_handler) at (rw (loaded, open_handler) at e)) in
                      let (written, same) =
                        opened-eq-ok runtime (repository.replace runtime.policy db) h after e₁ in
                      subst (IsSound net repository principals) (sym same) (
                        stored-IsSound net repository principals keeps
                          (record { runtime = runtime; db = after }) source (max source.revision 1)
                          db (omega arith) compiled written)
                  | inr filled ↦
                      let e₁ =
                        rw (filled, open_handler) at
                          (rw (compiled, open_handler) at (rw (loaded, open_handler) at e)) in
                      subst (IsSound net repository principals) (ok_inj (ap (λ p. p.0) e₁)) (
                        kept-IsSound stored runtime db loaded (
                          subst
                            (λ (p : IamPolicyInfo). compile net p (max p.revision 1) ≡ ok runtime)
                            (opened_policy-filled stored bootstrap filled) compiled))
                ]
          ]
  ]

  -- Whatever was stored or configured when the handler was opened, and however changes, made or rejected,
  -- follow, what is installed was compiled from a policy under a positive revision, and the database
  -- holds the same catalog up to order. Between the changes the database may be used for anything that
  -- leaves the stored policy as it is: the handler is the only writer of the policy.
  pub opened_Run-IsSound :
      (bootstrap : Option IamPolicyInfo) (db after : Db) (h k : PolicyHandler Db Cidr)
      → open_handler net repository principals bootstrap db ≡ (ok h, after)
      → Run net repository principals h k
      → IsSound net repository principals k
  opened_Run-IsSound bootstrap db after h k e run =
      Run-IsSound net repository principals keeps run (open_handler-IsSound bootstrap db after h e)

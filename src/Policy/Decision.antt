-- ===== src/Policy/Decision.antt =====
-- Which bindings decide a request (`AuthorizationEvaluator::authorize` of
-- src/authz/src/handler/policy/mod.rs).
use mathlib.Core.Bool.{Bool-set}
use mathlib.Core.Option
use mathlib.Core.List.{Perm, Permᴰ, reverse, reverse-cons}
use mathlib.Core.Logic.{∥∥₁_elim}
use authguard.Base.{
  ◌≡◌, refl, ap, ◌∙◌, Bool, not, ◌&&◌, ◌||◌, Option, none, some, List, [], ◌∷◌, ◌++◌, Text, arith,
  any, find, if◌then◌else◌,
}
use authguard.Model.{is_deny, AuthorizationRequest, AuthorizationDecision}
use authguard.Model.Condition.{Net}
use authguard.Policy.Evaluator.{
  CompiledRoleBinding, applies, decide, authorize, explicit_deny, final_decision,
}

-- A test over a list does not depend on the order.
any-Permᴰ : {A : Type 0} (p : A → Bool) {xs ys : List A} → Permᴰ xs ys → any p xs ≡ any p ys
any-Permᴰ p Permᴰ.nil = refl
any-Permᴰ p (Permᴰ.cons {a} {b} e h) = ground (arith, ap p e, any-Permᴰ p h)
any-Permᴰ p (Permᴰ.swap e f) = ground (arith, ap p e, ap p f)
any-Permᴰ p (Permᴰ.trans h k) = any-Permᴰ p h ∙ any-Permᴰ p k

any-Perm : {A : Type 0} (p : A → Bool) {xs ys : List A} → Perm xs ys → any p xs ≡ any p ys
any-Perm p h = ∥∥₁_elim h (Bool-set _ _) (any-Permᴰ p)

abbrev or_found : Option Text → Option Text → Option Text
or_found none found = found
or_found (some id) found = some id

module _ {Addr Cidr : Type 0} (net : Net Addr Cidr) (request : AuthorizationRequest Addr) where
  abbrev pub denies : CompiledRoleBinding Cidr → Bool
  denies b = applies net request b && is_deny b.effect

  abbrev pub allows : CompiledRoleBinding Cidr → Bool
  allows b = applies net request b && not (is_deny b.effect)

  decide_allowed :
      (found : Option Text) (bs : List (CompiledRoleBinding Cidr))
      → (decide net request found bs).allowed
        ≡ ((any allows bs || (final_decision found).allowed) && not (any denies bs))
  unfolding decide
  decide_allowed none [] = refl
  decide_allowed (some id) [] = refl
  decide_allowed found (b ∷ bs) =
      ground (arith, decide_allowed found bs, decide_allowed (some b.id) bs)

  -- A request is allowed exactly when some binding that allows applies to it and no binding that
  -- denies does: a denial overrides every allowance.
  pub authorize_allowed :
      (bs : List (CompiledRoleBinding Cidr))
      → (authorize net bs request).allowed ≡ (any allows bs && not (any denies bs))
  unfolding authorize
  authorize_allowed bs = ground (arith, decide_allowed none bs)

  abbrev id_of : Option (CompiledRoleBinding Cidr) → Option Text
  id_of = Option.map (λ (b : CompiledRoleBinding Cidr). b.id)

  -- The decision without the loop: the first denial that applies, or else the last allowance.
  abbrev pub specified : List (CompiledRoleBinding Cidr) → Option Text → AuthorizationDecision
  specified bs found = elim (find denies bs) [
    | some b ↦ explicit_deny b.id
    | none ↦ final_decision (or_found (id_of (find (applies net request) (reverse bs))) found)
  ]

  last_of_append :
      (bs cs : List (CompiledRoleBinding Cidr))
      → id_of (find (applies net request) (bs ++ cs))
        ≡ or_found (id_of (find (applies net request) bs)) (id_of (find (applies net request) cs))
  last_of_append [] cs = refl
  last_of_append (b ∷ bs) cs = ground (arith, last_of_append bs cs)

  last_of_cons :
      (b : CompiledRoleBinding Cidr) (bs : List (CompiledRoleBinding Cidr)) (found : Option Text)
      → or_found (id_of (find (applies net request) (reverse (b ∷ bs)))) found
        ≡ or_found
            (id_of (find (applies net request) (reverse bs)))
            (if applies net request b then some b.id else found)
  last_of_cons b bs found = rw reverse-cons (ground (arith, last_of_append (reverse bs) (b ∷ [])))

  decide-specified :
      (found : Option Text) (bs : List (CompiledRoleBinding Cidr))
      → decide net request found bs ≡ specified bs found
  unfolding decide
  decide-specified found [] = refl
  decide-specified found (b ∷ bs) =
      ground
        (arith, last_of_cons b bs found, decide-specified found bs, decide-specified (some b.id) bs)

  -- The decision is that of the first binding in the catalog's order that applies and denies; where
  -- there is none, it is that of the last binding that applies, and a default denial where none does.
  pub authorize-specified :
      (bs : List (CompiledRoleBinding Cidr)) → authorize net bs request ≡ specified bs none
  unfolding authorize
  authorize-specified bs = decide-specified none bs

  -- Whether a request is allowed does not depend on the order of the bindings.
  pub authorize_order :
      (bs cs : List (CompiledRoleBinding Cidr))
      → Perm bs cs
      → (authorize net bs request).allowed ≡ (authorize net cs request).allowed
  authorize_order bs cs h =
      ground
        (arith, authorize_allowed bs, authorize_allowed cs, any-Perm allows h, any-Perm denies h)

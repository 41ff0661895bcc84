-- ===== src/Principals/SearchLaws.antt =====
-- What a federated search gives.
use authguard.Base.{
  ℕ, suc, ◌+◌, ◌≤◌, ◌≡◌, refl, sym, ap, subst, ◌∙◌, arith, inl, inr, true, false, Bool-cases,
  Option, none, some, List, [], ◌∷◌, Text, ◌==◌, eq_iff, any, and_cases, if◌then◌else◌,
}
use authguard.Identity.Headers.{or_else}
use authguard.Principals.Discovery.{PrincipalProjection}
use authguard.Principals.Manage.{
  has_key, key_le, insert_by_key, or_insert, deduplicate_from, deduplicate_principals,
}

-- The first projection of a key, and how many there are.
abbrev pub find_key : Text × Text → List PrincipalProjection → Option PrincipalProjection
find_key key [] = none
find_key key (p ∷ ps) = if has_key key p then some p else find_key key ps

abbrev pub count_key : Text × Text → List PrincipalProjection → ℕ
count_key key [] = 0
count_key key (p ∷ ps) = if has_key key p then suc (count_key key ps) else count_key key ps

abbrev key_of : PrincipalProjection → Text × Text
key_of p = (p.reference.issuer, p.reference.external_id)

has_key-eq : (key : Text × Text) (p : PrincipalProjection) → has_key key p ≡ true → key ≡ key_of p
has_key-eq key p h =
    let (issuer, external) = and_cases (key.0 == p.reference.issuer) _ h in
    λ i. (
      (eq_iff key.0 p.reference.issuer).0 issuer i,
      (eq_iff key.1 p.reference.external_id).0 external i,
    )

any-find_key :
    (key : Text × Text) (ps : List PrincipalProjection)
    → any (has_key key) ps ≡ true
    → (p : PrincipalProjection) × (find_key key ps ≡ some p)
any-find_key key [] h = cc
any-find_key key (p ∷ ps) h = elim (Bool-cases (has_key key p)) [
  | inl here ↦ (p, rw here refl)
  | inr later ↦ let (q, e) = any-find_key key ps (rw later at h) in (q, rw later e)
]

absent :
    (key : Text × Text) (ps : List PrincipalProjection)
    → any (has_key key) ps ≡ false
    → (find_key key ps ≡ none) × (count_key key ps ≡ 0)
absent key [] h = (refl, refl)
absent key (p ∷ ps) h = elim (Bool-cases (has_key key p)) [
  | inl here ↦ cc (rw here at h)
  | inr later ↦ rw later (absent key ps (rw later at h))
]

-- Two projections that have a key have the key of each other.
both_keys :
    (key : Text × Text) (p q : PrincipalProjection)
    → has_key key p ≡ true
    → has_key key q ≡ true
    → has_key (key_of p) q ≡ true
both_keys key p q h k = subst (λ held. has_key held q ≡ true) (has_key-eq key p h) k

abbrev as_found : Text × Text → PrincipalProjection → Option PrincipalProjection
as_found key p = if has_key key p then some p else none

or_else-none : {A : Type 0} (a : Option A) → a ≡ or_else a none
or_else-none none = refl
or_else-none (some a) = refl

put_before :
    (key : Text × Text) (p : PrincipalProjection) (ps : List PrincipalProjection)
    → any (has_key (key_of p)) ps ≡ false
    → (find_key key (p ∷ ps) ≡ or_else (find_key key ps) (as_found key p))
      × (count_key key (p ∷ ps) ≡ count_key key ps + (if has_key key p then 1 else 0))
put_before key p ps h = elim (Bool-cases (has_key key p)) [
  | inr other ↦ rw other (or_else-none (find_key key ps), omega arith)
  | inl here ↦
      let gone =
        absent key ps (subst (λ k. any (has_key k) ps ≡ false) (sym (has_key-eq key p here)) h) in
      rw (here, gone.0, gone.1) (refl, refl)
]

insert_by_key-find :
    (key : Text × Text) (p : PrincipalProjection) (ps : List PrincipalProjection)
    → any (has_key (key_of p)) ps ≡ false
    → (find_key key (insert_by_key p ps) ≡ or_else (find_key key ps) (as_found key p))
      × (count_key key (insert_by_key p ps) ≡ count_key key ps + (if has_key key p then 1 else 0))
unfolding insert_by_key
insert_by_key-find key p [] h = ground arith
insert_by_key-find key p (q ∷ qs) h =
    let none_later : any (has_key (key_of p)) qs ≡ false = ground arith in
    let other : has_key (key_of p) q ≡ false = ground arith in
    let later = insert_by_key-find key p qs none_later in
    elim (Bool-cases (key_le p q)) [
      | inl before ↦ rw before (put_before key p (q ∷ qs) h)
      | inr after ↦ elim (Bool-cases (has_key key q)) [
        | inr passed ↦ rw (after, passed) later
        | inl held ↦ elim (Bool-cases (has_key key p)) [
          | inl both ↦ cc (sym (both_keys key p q both held) ∙ other)
          | inr only_q ↦ rw (after, held, only_q) (refl, omega (arith, rw only_q at later.1))
        ]
      ]
    ]

kept_first :
    (key : Text × Text) (p : PrincipalProjection) (ps : List PrincipalProjection)
    → any (has_key (key_of p)) ps ≡ true
    → find_key key ps ≡ or_else (find_key key ps) (as_found key p)
kept_first key p ps held = elim (Bool-cases (has_key key p)) [
  | inr other ↦ rw other (or_else-none (find_key key ps))
  | inl here ↦
      let (first, e) =
        any-find_key key ps
          (subst (λ k. any (has_key k) ps ≡ true) (sym (has_key-eq key p here)) held) in
      rw e refl
]

few_left :
    (key : Text × Text) (p : PrincipalProjection) (ps : List PrincipalProjection)
    → any (has_key (key_of p)) ps ≡ false
    → count_key key ps ≤ 1
    → count_key key ps + (if has_key key p then 1 else 0) ≤ 1
few_left key p ps new few = elim (Bool-cases (has_key key p)) [
  | inr other ↦ rw other (omega (arith, few))
  | inl here ↦
      let gone =
        absent key ps (subst (λ k. any (has_key k) ps ≡ false) (sym (has_key-eq key p here)) new) in
      rw (here, gone.1) (omega arith)
]

or_insert-find :
    (key : Text × Text) (p : PrincipalProjection) (ps : List PrincipalProjection)
    → count_key key ps ≤ 1
    → (find_key key (or_insert p ps) ≡ or_else (find_key key ps) (as_found key p))
      × (count_key key (or_insert p ps) ≤ 1)
unfolding or_insert
or_insert-find key p ps few = elim (Bool-cases (any (has_key (key_of p)) ps)) [
  | inr new ↦
      let (found, counted) = insert_by_key-find key p ps new in
      rw new (found, subst (λ n. n ≤ 1) (sym counted) (few_left key p ps new few))
  | inl held ↦ rw held (kept_first key p ps held, few)
]

first_of :
    (key : Text × Text) (p : PrincipalProjection) (ps : List PrincipalProjection)
    → or_else (as_found key p) (find_key key ps) ≡ find_key key (p ∷ ps)
first_of key p ps = elim (Bool-cases (has_key key p)) [
  | inl here ↦ rw here refl
  | inr other ↦ rw other refl
]

or_else_assoc : {A : Type 0} (a b c : Option A) → or_else (or_else a b) c ≡ or_else a (or_else b c)
or_else_assoc none b c = refl
or_else_assoc (some a) b c = refl

deduplicate_from-find :
    (key : Text × Text) (unique ps : List PrincipalProjection)
    → count_key key unique ≤ 1
    → (find_key key (deduplicate_from unique ps) ≡ or_else (find_key key unique) (find_key key ps))
      × (count_key key (deduplicate_from unique ps) ≤ 1)
unfolding deduplicate_from
deduplicate_from-find key unique [] few = (or_else-none (find_key key unique), few)
deduplicate_from-find key unique (p ∷ ps) few =
    let (found, one) = or_insert-find key p unique few in
    let (later, still_one) = deduplicate_from-find key (or_insert p unique) ps one in
    (
      later
          ∙ ap (λ f. or_else f (find_key key ps)) found
          ∙ or_else_assoc (find_key key unique) (as_found key p) (find_key key ps)
          ∙ ap (or_else (find_key key unique)) (first_of key p ps),
      still_one,
    )

-- After a search each identity key of the providers' answers is there once, as the first projection of
-- that key in the order of the pages.
pub deduplicate_principals-find :
    (key : Text × Text) (ps : List PrincipalProjection)
    → (find_key key (deduplicate_principals ps) ≡ find_key key ps)
      × (count_key key (deduplicate_principals ps) ≤ 1)
deduplicate_principals-find key ps = deduplicate_from-find key [] ps (omega arith)

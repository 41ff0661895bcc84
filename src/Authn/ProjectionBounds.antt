-- ===== src/Authn/ProjectionBounds.antt =====
-- The bounds of what crosses from the authentication to the token.
use authguard.Base.{
  ℕ, min, ◌+◌, ◌≤◌, ◌≡◌, refl, ap, ◌∙◌, arith, inl, inr, Bool, true, false, not, ◌||◌, ◌&&◌,
  Bool-cases, Option, none, some, List, [], ◌∷◌, Text, codes, ◌==◌, eq_iff, All, all, len, length,
  lookup, insert, lookup-insert, leb, ltb, sort, insert_sorted, dedup, dedup_from, Result, ok, err,
  and_cases,
}
use authguard.Cache.Memory.{saturating_add, u64_max}
use authguard.Identity.Json.{Value, Object, Serde}
use authguard.Identity.Canonical.{IsCanonical, validate_canonical-eq-ok}
use authguard.Identity.Increasing.{dedup-sort-All, dedup-sort-IsIncreasing, dedup-sort-length}
use authguard.Identity.Claims.{max_groups, max_group_bytes, total_len, scalar_claim}
use authguard.Identity.ClaimsLaws.{AreGroups}
use authguard.Authn.Projection.{
  max_context_bytes, is_private_or_reserved_claim, is_ok, is_canonical, groups_fit,
  projected_groups, Context, take_claim, project_claim, project_claims, no_context,
}

is_ok_unit : (result : Result Text (Unit {0})) → is_ok result ≡ true → result ≡ ok tt
is_ok_unit (ok tt) h = refl
is_ok_unit (err e) h = cc

all-IsCanonical :
    (field : Text) (groups : List Text)
    → all (is_canonical field) groups ≡ true
    → All IsCanonical groups
all-IsCanonical field [] h = tt
all-IsCanonical field (group ∷ groups) h =
    let (first, rest) = and_cases (is_canonical field group) _ h in
    (validate_canonical-eq-ok group field (is_ok_unit _ first), all-IsCanonical field groups rest)

insert_sorted-total_len :
    (x : Text) (xs : List Text) → total_len (insert_sorted x xs) ≡ len x + total_len xs
unfolding insert_sorted
insert_sorted-total_len x [] = refl
insert_sorted-total_len x (y ∷ ys) = ground (arith, insert_sorted-total_len x ys)

sort-total_len : (xs : List Text) → total_len (sort xs) ≡ total_len xs
unfolding sort
sort-total_len [] = refl
sort-total_len (x ∷ xs) = omega (arith, insert_sorted-total_len x (sort xs), sort-total_len xs)

dedup_from-total_len : (x : Text) (xs : List Text) → total_len (dedup_from x xs) ≤ total_len xs
unfolding dedup_from
dedup_from-total_len x [] = omega arith
dedup_from-total_len x (y ∷ ys) =
    ground (arith, dedup_from-total_len x ys, dedup_from-total_len y ys)

dedup-total_len : (xs : List Text) → total_len (dedup xs) ≤ total_len xs
unfolding dedup
dedup-total_len [] = omega arith
dedup-total_len (x ∷ xs) = omega (arith, dedup_from-total_len x xs)

-- The bytes of the names and values of claims.
abbrev pub claims_len : List (Text × Text) → ℕ
claims_len [] = 0
claims_len ((name, value) ∷ claims) = len name + len value + claims_len claims

insert-claims_len :
    (name value : Text) (claims : List (Text × Text))
    → claims_len (insert name value claims) ≤ len name + len value + claims_len claims
unfolding insert
insert-claims_len name value [] = omega arith
insert-claims_len name value ((key, old) ∷ claims) =
    ground (arith, eq_iff key name, insert-claims_len name value claims)

-- What a context keeps while claims are taken.
pub record IsBounded (context : Context) : Type 0 where
  pub counted : claims_len context.claims ≤ context.bytes
  pub bounded : context.bytes ≤ max_context_bytes
  pub nothing_private :
      (name : Text) → is_private_or_reserved_claim name ≡ true → lookup name context.claims ≡ none

-- No sum saturates where a claim is taken.
exact_size :
    (bytes name value : ℕ)
    → ltb max_context_bytes (saturating_add bytes (saturating_add name value)) ≡ false
    → (saturating_add name value ≡ name + value) × (bytes + (name + value) ≤ max_context_bytes)
unfolding saturating_add
exact_size bytes name value h =
    let fits : min (bytes + min (name + value) u64_max) u64_max ≤ max_context_bytes =
      ground arith in
    (omega arith, omega arith)

or_false : (a b : Bool) → (a || b) ≡ false → b ≡ false
or_false a b h = ground arith

private_differs :
    (taken name : Text)
    → is_private_or_reserved_claim taken ≡ false
    → is_private_or_reserved_claim name ≡ true
    → (taken == name) ≡ false
private_differs taken name h k = elim (Bool-cases (taken == name)) [
  | inr other ↦ other
  | inl same ↦ cc (ap is_private_or_reserved_claim ((eq_iff taken name).0 same))
]

module _ (serde : Serde) where
  take_claim-IsBounded :
      (name value : Text) (context : Context)
      → is_private_or_reserved_claim name ≡ false
      → IsBounded context
      → IsBounded (take_claim name (some value) context)
  take_claim-IsBounded name value context public held =
      elim (Bool-cases (
        not (is_canonical (codes "trusted_claim") name)
        || ltb max_context_bytes
            (saturating_add context.bytes (saturating_add (len name) (len value))))) [
              | inl skipped ↦ rw skipped held
              | inr taken ↦
                  let (size, fits) =
                    exact_size context.bytes (len name) (len value)
                      (or_false (not (is_canonical (codes "trusted_claim") name)) _ taken) in
                  rw taken (record {
                    counted =
                        omega
                          (arith, insert-claims_len name value context.claims, held.counted, size);
                    bounded = omega (arith, size, fits);
                    nothing_private = λ other private.
                        lookup-insert name other value context.claims
                        ∙ rw (private_differs name other public private)
                            (held.nothing_private other private);
                  })
            ]

  project_claim-IsBounded :
      (context : Context) (name : Text) (value : Value)
      → IsBounded context
      → IsBounded (project_claim serde context (name, value))
  project_claim-IsBounded context name value held =
      elim (Bool-cases (is_private_or_reserved_claim name)) [
        | inl private ↦ rw private held
        | inr public ↦ rw public (taken (scalar_claim serde value) public)
      ]
    where
      taken :
          (scalar : Option Text)
          → is_private_or_reserved_claim name ≡ false
          → IsBounded (take_claim name scalar context)
      taken none public = held
      taken (some text) public = take_claim-IsBounded name text context public held

  pub project_claims-IsBounded :
      (context : Context) (claims : Object)
      → IsBounded context
      → IsBounded (project_claims serde context claims)
  unfolding project_claims
  project_claims-IsBounded context [] held = held
  project_claims-IsBounded context ((name, value) ∷ claims) held =
      project_claims-IsBounded (project_claim serde context (name, value)) claims
        (project_claim-IsBounded context name value held)

  pub projected_groups-AreGroups :
      (groups : Option (List Text))
      → AreGroups (projected_groups groups)
        × (total_len (projected_groups groups) ≤ max_group_bytes)
  projected_groups-AreGroups none =
      (record { canonical = tt; increasing = tt; few = omega arith }, omega arith)
  projected_groups-AreGroups (some groups) = elim (Bool-cases (groups_fit groups)) [
    | inr large ↦
        rw large (record { canonical = tt; increasing = tt; few = omega arith }, omega arith)
    | inl fit ↦
        let (bounds, canonical) = and_cases (leb (length groups) max_groups && _) _ fit in
        let (few, short) = and_cases (leb (length groups) max_groups) _ bounds in
        rw fit (
          record {
            canonical =
                dedup-sort-All IsCanonical groups
                  (all-IsCanonical (codes "authguard_group_ids") groups canonical);
            increasing = dedup-sort-IsIncreasing groups;
            few = ground (arith, dedup-sort-length groups, few);
          },
          ground (arith, dedup-total_len (sort groups), sort-total_len groups, short),
        )
  ]

  pub empty-IsBounded : IsBounded (no_context serde)
  unfolding lookup
  empty-IsBounded = record {
    counted = omega arith;
    bounded = omega arith;
    nothing_private = λ name private. refl;
  }

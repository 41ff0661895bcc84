-- ===== src/Identity/ClaimsLaws.antt =====
-- What an identity that was read from a verified token satisfies.
use authguard.Base.{
  ◌≤◌, ◌≡◌, refl, sym, subst, ap, ◌∙◌, arith, inl, inr, true, false, ◌||◌, Bool-cases, Option, none,
  some, List, [], ◌∷◌, Text, codes, ◌==◌, eq_iff, eq_refl, lookup, insert, lookup-insert,
  from_pairs, contains, All, length, ltb, try_map, ok, bind-eq-ok, ok_inj, unless-eq-ok, map_err,
  map_err-eq-ok, ok_or, ok_or-eq-ok,
}
use authguard.Access.Signer.{Bytes, Crypto}
use authguard.Identity.Json.{
  Value, null, boolean, number, string, array, object, Object, Serde, elements, as_str,
}
use authguard.Identity.Canonical.{validate_canonical, IsCanonical, validate_canonical-eq-ok}
use authguard.Identity.Increasing.{
  IsIncreasing, dedup-sort-IsIncreasing, dedup-sort-All, dedup-sort-length,
}
use authguard.Identity.Headers.{and_then}
use authguard.Identity.Claims.{
  AuthenticatedPrincipalContext, invalid_groups, missing_principal_id, too_large,
  invalid_principal_kind, max_groups, max_scalar_claim_bytes, scalar_bytes, scalar_claim,
  scalar_claims, add_scalar, is_boundary_claim, parse_principal_kind, total_len, max_group_bytes,
  canonical_group, bounded_groups, read_groups, read_string_array, bool_text, read_identity,
  payload_object, from_verified_jwt_with_claims,
}

IsCanonical-groups :
    (values : List Text) {groups : List Text}
    → try_map canonical_group values ≡ ok groups
    → All IsCanonical groups × (length groups ≡ length values)
unfolding try_map canonical_group
IsCanonical-groups [] h = subst (λ gs. All IsCanonical gs × (length gs ≡ 0)) (ok_inj h) (tt, refl)
IsCanonical-groups (value ∷ values) h =
    let (first, e₁, h₁) = bind-eq-ok (canonical_group value) _ h in
    let (rest, e₂, h₂) = bind-eq-ok (try_map canonical_group values) _ h₁ in
    let (checked, e₃, h₃) =
      bind-eq-ok (map_err (λ _. invalid_groups) (validate_canonical value (codes "group_id"))) _
        e₁ in
    let (all_rest, len_rest) = IsCanonical-groups values e₂ in
    let canonical = validate_canonical-eq-ok value (codes "group_id") (map_err-eq-ok _ _ e₃) in
    subst (λ gs. All IsCanonical gs × (length gs ≡ length (value ∷ values))) (ok_inj h₂)
      ((subst IsCanonical (ok_inj h₃) canonical, all_rest), omega (arith, len_rest))

-- The groups are canonical, in strictly increasing order, and at most `max_groups`.
pub record AreGroups (groups : List Text) : Type 0 where
  pub canonical : All IsCanonical groups
  pub increasing : IsIncreasing groups
  pub few : length groups ≤ max_groups

no_groups : AreGroups []
no_groups = record { canonical = tt; increasing = tt; few = omega arith }

bounded_groups-AreGroups :
    (values : List Text) {groups : List Text} → bounded_groups values ≡ ok groups → AreGroups groups
unfolding bounded_groups
bounded_groups-AreGroups values h =
    elim (Bool-cases (ltb max_groups (length values) || ltb max_group_bytes (total_len values))) [
      | inl large ↦ cc (rw large at h)
      | inr small ↦
          let (found, e, h₁) = bind-eq-ok (try_map canonical_group values) _ (rw small at h) in
          let (canonical, same) = IsCanonical-groups values e in
          subst AreGroups (ok_inj h₁) (record {
            canonical = dedup-sort-All IsCanonical found canonical;
            increasing = dedup-sort-IsIncreasing found;
            few = ground (arith, dedup-sort-length found, same, small);
          })
    ]

read_groups-AreGroups :
    (claim : Option Value) {groups : List Text} → read_groups claim ≡ ok groups → AreGroups groups
unfolding read_groups
read_groups-AreGroups none h = subst AreGroups (ok_inj h) no_groups
read_groups-AreGroups (some null) h = subst AreGroups (ok_inj h) no_groups
read_groups-AreGroups (some (string value)) h = bounded_groups-AreGroups (value ∷ []) h
read_groups-AreGroups (some (array values)) h =
    let (texts, e, h₁) =
      bind-eq-ok (try_map (λ value. ok_or invalid_groups (as_str value)) (elements values)) _ h in
    bounded_groups-AreGroups texts h₁
read_groups-AreGroups (some (boolean b)) h = cc
read_groups-AreGroups (some (number n)) h = cc
read_groups-AreGroups (some (object fields)) h = cc

from_pairs-lacks :
    (name : Text) (pairs table : List (Text × Text))
    → lookup name pairs ≡ none
    → lookup name table ≡ none
    → lookup name (from_pairs table pairs) ≡ none
unfolding from_pairs lookup
from_pairs-lacks name [] table h k = k
from_pairs-lacks name ((key, value) ∷ pairs) table h k = elim (Bool-cases (key == name)) [
  | inl same ↦ cc (rw same at h)
  | inr other ↦
      from_pairs-lacks name pairs (insert key value table) (rw other at h)
        (lookup-insert key name value table ∙ rw other k)
]

add_scalar-other :
    (serde : Serde) (name held : Text) (value : Option Text) (rest : List (Text × Text))
    → (held == name) ≡ false
    → lookup name (add_scalar serde held value rest) ≡ lookup name rest
unfolding lookup
add_scalar-other serde name held none rest other = refl
add_scalar-other serde name held (some value) rest other = rw other refl

boundary_differs :
    (held name : Text)
    → is_boundary_claim held ≡ false
    → is_boundary_claim name ≡ true
    → (held == name) ≡ false
boundary_differs held name h k = elim (Bool-cases (held == name)) [
  | inr other ↦ other
  | inl same ↦ cc (ap is_boundary_claim ((eq_iff held name).0 same))
]

scalar_claims-boundary :
    (serde : Serde) (name : Text) (fields : Object)
    → is_boundary_claim name ≡ true
    → lookup name (scalar_claims serde fields) ≡ none
unfolding scalar_claims lookup
scalar_claims-boundary serde name [] h = refl
scalar_claims-boundary serde name ((held, value) ∷ fields) h =
    elim (Bool-cases (is_boundary_claim held)) [
      | inl dropped ↦ rw dropped (scalar_claims-boundary serde name fields h)
      | inr kept ↦ rw kept (
          add_scalar-other serde name held (scalar_claim serde value) (scalar_claims serde fields)
            (boundary_differs held name kept h)
          ∙ scalar_claims-boundary serde name fields h)
    ]

mfa_claim : is_boundary_claim (codes "mfa") ≡ false
unfolding is_boundary_claim ◌==◌
mfa_claim = refl

-- What holds of every identity that a token gives.
pub record IsTrusted (identity : AuthenticatedPrincipalContext) : Type 0 where
  pub principal : IsCanonical identity.principal_id
  pub groups : AreGroups identity.stable_group_ids
  pub no_boundary_claim :
      (name : Text) → is_boundary_claim name ≡ true → lookup name identity.trusted_claims ≡ none
  pub mfa :
      lookup (codes "mfa") identity.trusted_claims
      ≡ some (bool_text (contains (codes "mfa") identity.amr))

module _ (serde : Serde) where
  -- How an identity follows from the claims of a token.
  pub record IsRead (fields : Object) (id_claim kind_claim groups_claim : Text)
      (identity : AuthenticatedPrincipalContext) : Type 0 where
    pub principal_claim : and_then (lookup id_claim fields) as_str ≡ some identity.principal_id
    pub canonical : validate_canonical identity.principal_id (codes "principal_id") ≡ ok tt
    pub kind_of :
        and_then (and_then (lookup kind_claim fields) as_str) parse_principal_kind
        ≡ some identity.kind
    pub groups_of : read_groups (lookup groups_claim fields) ≡ ok identity.stable_group_ids
    pub small : ltb max_scalar_claim_bytes (scalar_bytes 0 (scalar_claims serde fields)) ≡ false
    pub amr_of : read_string_array (lookup (codes "amr") fields) ≡ ok identity.amr
    pub trusted_of :
        identity.trusted_claims
        ≡ insert
            (codes "mfa")
            (bool_text (contains (codes "mfa") identity.amr))
            (from_pairs [] (scalar_claims serde fields))
    pub acr_of : identity.acr ≡ and_then (lookup (codes "acr") fields) as_str

  pub read_identity-IsRead :
      (fields : Object) (id_claim kind_claim groups_claim : Text)
      (identity : AuthenticatedPrincipalContext)
      → read_identity serde fields id_claim kind_claim groups_claim ≡ ok identity
      → IsRead fields id_claim kind_claim groups_claim identity
  unfolding read_identity
  read_identity-IsRead fields id_claim kind_claim groups_claim identity h =
      let (principal_id, e₁, h₁) =
        bind-eq-ok (ok_or missing_principal_id (and_then (lookup id_claim fields) as_str)) _ h in
      let (checked, e₂, h₂) =
        bind-eq-ok
          (map_err (λ _. missing_principal_id)
            (validate_canonical principal_id (codes "principal_id")))
          _ h₁ in
      let (kind, e₃, h₃) =
        bind-eq-ok
          (ok_or invalid_principal_kind
            (and_then (and_then (lookup kind_claim fields) as_str) parse_principal_kind))
          _ h₂ in
      let (groups, e₄, h₄) = bind-eq-ok (read_groups (lookup groups_claim fields)) _ h₃ in
      let (small, h₅) =
        unless-eq-ok (ltb max_scalar_claim_bytes (scalar_bytes 0 (scalar_claims serde fields)))
          too_large _ h₄ in
      let (amr, e₅, h₆) = bind-eq-ok (read_string_array (lookup (codes "amr") fields)) _ h₅ in
      subst (IsRead fields id_claim kind_claim groups_claim) (ok_inj h₆) (record {
        principal_claim = ok_or-eq-ok _ _ e₁;
        canonical = map_err-eq-ok _ _ e₂;
        kind_of = ok_or-eq-ok _ _ e₃;
        groups_of = e₄;
        small = small;
        amr_of = e₅;
        trusted_of = refl;
        acr_of = refl;
      })

  pub read_identity_of_IsRead :
      (fields : Object) (id_claim kind_claim groups_claim : Text)
      (identity : AuthenticatedPrincipalContext)
      → IsRead fields id_claim kind_claim groups_claim identity
      → read_identity serde fields id_claim kind_claim groups_claim ≡ ok identity
  unfolding read_identity
  read_identity_of_IsRead fields id_claim kind_claim groups_claim identity r =
      rw
        (
          r.principal_claim,
          r.canonical,
          r.kind_of,
          r.groups_of,
          r.small,
          r.amr_of,
          sym r.trusted_of,
          sym r.acr_of,
        )
        refl

  IsRead-IsTrusted :
      (fields : Object) (id_claim kind_claim groups_claim : Text)
      (identity : AuthenticatedPrincipalContext)
      → IsRead fields id_claim kind_claim groups_claim identity
      → IsTrusted identity
  unfolding lookup
  IsRead-IsTrusted fields id_claim kind_claim groups_claim identity r = record {
    principal = validate_canonical-eq-ok identity.principal_id (codes "principal_id") r.canonical;
    groups = read_groups-AreGroups (lookup groups_claim fields) r.groups_of;
    no_boundary_claim = λ name boundary.
        ap (lookup name) r.trusted_of
        ∙ lookup-insert (codes "mfa") name _ _
        ∙ rw (boundary_differs (codes "mfa") name mfa_claim boundary) (
            from_pairs-lacks name (scalar_claims serde fields) []
              (scalar_claims-boundary serde name fields boundary) refl);
    mfa =
        ap (lookup (codes "mfa")) r.trusted_of
        ∙ lookup-insert (codes "mfa") (codes "mfa") _ _
        ∙ rw (eq_refl (codes "mfa")) refl;
  }

  -- An identity that is read from a verified token has a canonical principal, canonical groups in
  -- strictly increasing order, at most 128 of them, no claim with a name that AuthGuard keeps for
  -- itself, and a claim `mfa` that says whether the methods name it.
  pub from_verified_jwt-IsTrusted :
      (crypto : Crypto) (decode_padded : Text → Option Bytes)
      (token id_claim kind_claim groups_claim : Text) (identity : AuthenticatedPrincipalContext)
      → from_verified_jwt_with_claims serde crypto decode_padded token id_claim kind_claim
          groups_claim
        ≡ ok identity
      → IsTrusted identity
  unfolding from_verified_jwt_with_claims
  from_verified_jwt-IsTrusted crypto decode_padded token id_claim kind_claim groups_claim identity
        h =
      let (fields, e, h₁) = bind-eq-ok (payload_object serde crypto decode_padded token) _ h in
      IsRead-IsTrusted fields id_claim kind_claim groups_claim identity
        (read_identity-IsRead fields id_claim kind_claim groups_claim identity h₁)

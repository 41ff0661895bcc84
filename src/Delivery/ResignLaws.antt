-- ===== src/Delivery/ResignLaws.antt =====
-- What a token that `resign_token` of src/authz/src/handler/authorization.rs has signed says.
use authguard.Base.{
  ℕ, ◌+◌, ◌-◌, ◌≤◌, ◌<◌, ◌≡◌, refl, sym, subst, ◌∙◌, arith, inl, inr, min, true, false, Option,
  none, some, List, Text, codes, ◌==◌, eq_refl, lookup, insert, lookup-insert, leb, ltb, ok, ok_or,
  ok_or-eq-ok, bind-eq-ok, ok_inj, some_inj, Bool-cases,
}
use authguard.Cache.Memory.{saturating_add, as_secs}
use authguard.Delivery.Check.{invalid_identity_expiry, resign_unavailable}
use authguard.Identity.Json.{string, boolean, u64}
use authguard.Identity.Claims.{AuthenticatedPrincipalContext}
use authguard.Delivery.Resign.{
  Claims, with_acr, resign_token_claims, source_remaining, resign_token, from_secs,
}

skip :
    {V : Type 0} (key wanted : Text) (value : V) (table : List (Text × V))
    → (key == wanted) ≡ false
    → lookup wanted (insert key value table) ≡ lookup wanted table
skip key wanted value table h = lookup-insert key wanted value table ∙ rw h refl

found :
    {V : Type 0} (key : Text) (value : V) (table : List (Text × V))
    → lookup key (insert key value table) ≡ some value
found key value table = lookup-insert key key value table ∙ rw (eq_refl key) refl

skip_acr :
    (acr : Option Text) (wanted : Text) (claims : Claims)
    → (codes "acr" == wanted) ≡ false
    → lookup wanted (with_acr acr claims) ≡ lookup wanted claims
skip_acr none wanted claims h = refl
skip_acr (some value) wanted claims h = skip (codes "acr") wanted (string value) claims h

-- The claims name AuthGuard and the principal, whatever the source token claimed.
pub record NamesPrincipal (claims : Claims) (principal_id : Text) (expiry : ℕ) : Type 0 where
  pub issuer : lookup (codes "iss") claims ≡ some (string (codes "authguard-authz"))
  pub principal : lookup (codes "principal_id") claims ≡ some (string principal_id)
  pub subject : lookup (codes "sub") claims ≡ some (string principal_id)
  pub origin : lookup (codes "authguardOrigin") claims ≡ some (boolean true)
  pub expires : lookup (codes "exp") claims ≡ some (u64 expiry)

claims-NamesPrincipal :
    (identity : AuthenticatedPrincipalContext) (principal_id : Text) (now ttl : ℕ)
    → NamesPrincipal
        (resign_token_claims identity principal_id now ttl)
        principal_id
        (saturating_add now (as_secs ttl))
unfolding resign_token_claims ◌==◌
claims-NamesPrincipal identity principal_id now ttl = record {
  issuer =
      skip (codes "exp") (codes "iss") _ _ refl
      ∙ skip (codes "iat") (codes "iss") _ _ refl
      ∙ skip (codes "authguardOrigin") (codes "iss") _ _ refl
      ∙ skip (codes "amr") (codes "iss") _ _ refl
      ∙ skip_acr identity.acr (codes "iss") _ refl
      ∙ skip (codes "authguard_group_ids") (codes "iss") _ _ refl
      ∙ skip (codes "principal_kind") (codes "iss") _ _ refl
      ∙ skip (codes "principal_id") (codes "iss") _ _ refl
      ∙ skip (codes "sub") (codes "iss") _ _ refl
      ∙ found (codes "iss") _ _;
  principal =
      skip (codes "exp") (codes "principal_id") _ _ refl
      ∙ skip (codes "iat") (codes "principal_id") _ _ refl
      ∙ skip (codes "authguardOrigin") (codes "principal_id") _ _ refl
      ∙ skip (codes "amr") (codes "principal_id") _ _ refl
      ∙ skip_acr identity.acr (codes "principal_id") _ refl
      ∙ skip (codes "authguard_group_ids") (codes "principal_id") _ _ refl
      ∙ skip (codes "principal_kind") (codes "principal_id") _ _ refl
      ∙ found (codes "principal_id") _ _;
  subject =
      skip (codes "exp") (codes "sub") _ _ refl
      ∙ skip (codes "iat") (codes "sub") _ _ refl
      ∙ skip (codes "authguardOrigin") (codes "sub") _ _ refl
      ∙ skip (codes "amr") (codes "sub") _ _ refl
      ∙ skip_acr identity.acr (codes "sub") _ refl
      ∙ skip (codes "authguard_group_ids") (codes "sub") _ _ refl
      ∙ skip (codes "principal_kind") (codes "sub") _ _ refl
      ∙ skip (codes "principal_id") (codes "sub") _ _ refl
      ∙ found (codes "sub") _ _;
  origin =
      skip (codes "exp") (codes "authguardOrigin") _ _ refl
      ∙ skip (codes "iat") (codes "authguardOrigin") _ _ refl
      ∙ found (codes "authguardOrigin") _ _;
  expires = found (codes "exp") _ _;
}

source_remaining-eq-some :
    (source : Option ℕ) (now remaining : ℕ)
    → source_remaining source now ≡ some remaining
    → (expires : ℕ) × (source ≡ some expires) × (expires ≡ now + remaining) × (0 < remaining)
unfolding source_remaining
source_remaining-eq-some none now remaining h = cc
source_remaining-eq-some (some expires) now remaining h = elim (Bool-cases (leb now expires)) [
  | inr late ↦ cc (rw late at h)
  | inl early ↦ elim (Bool-cases (ltb 0 (expires - now))) [
    | inr none_left ↦ cc (rw (early, source_remaining, none_left) at h)
    | inl some_left ↦
        let e : expires - now ≡ remaining =
          some_inj (rw (early, source_remaining, some_left) at h) in
        (expires, refl, ground (arith, e), ground (arith, e))
  ]
]

expiry_le :
    (now max_ttl remaining : ℕ)
    → saturating_add now (as_secs (min max_ttl (from_secs remaining))) ≤ now + remaining
unfolding saturating_add as_secs
expiry_le now max_ttl remaining = omega arith

-- A token is signed only for a source token that has not expired. Its claims name AuthGuard as issuer
-- and origin and the resolved principal as subject, whatever the source token claimed, and it expires no
-- later than the source token.
pub resign_token_bounds :
    (sign : Claims → Option Text) (max_ttl : ℕ) (identity : AuthenticatedPrincipalContext)
    (principal_id : Text) (source : Option ℕ) (now : ℕ) (signed : Text)
    → resign_token sign (some max_ttl) identity principal_id source now ≡ ok (some signed)
    → (expires : ℕ) × (claims : Claims) × (expiry : ℕ) × (source ≡ some expires)
      × (now < expires)
      × (sign claims ≡ some signed)
      × NamesPrincipal claims principal_id expiry
      × (expiry ≤ expires)
unfolding resign_token
resign_token_bounds sign max_ttl identity principal_id source now signed h =
    let (remaining, e₁, h₁) =
      bind-eq-ok (ok_or invalid_identity_expiry (source_remaining source now)) _ h in
    let (expires, e₂, exact, positive) =
      source_remaining-eq-some source now remaining (ok_or-eq-ok _ _ e₁) in
    let ttl = min max_ttl (from_secs remaining) in
    let (token, e₃, h₂) =
      bind-eq-ok
        (ok_or resign_unavailable (sign (resign_token_claims identity principal_id now ttl))) _
        h₁ in
    (
      expires,
      resign_token_claims identity principal_id now ttl,
      saturating_add now (as_secs ttl),
      e₂,
      omega (arith, exact, positive),
      ok_or-eq-ok _ _ e₃ ∙ ok_inj h₂,
      claims-NamesPrincipal identity principal_id now ttl,
      subst (λ bound. saturating_add now (as_secs ttl) ≤ bound) (sym exact)
          (expiry_le now max_ttl remaining),
    )

-- ===== src/Delivery/Resign.antt =====
-- The token for the service behind the gateway: `resign_token` of
-- src/authz/src/handler/authorization.rs. Encoding and RS256 signing of the claims are the parameter
-- `sign`. A duration is counted in nanoseconds.
use authguard.Base.{
  ℕ, ◌*◌, ◌-◌, min, true, Option, none, some, map, Text, codes, ltb, leb, insert, Result, ok, ◌>>=◌,
  ok_or, if◌then◌else◌,
}
use authguard.Model.{kind_text}
use authguard.Identity.Json.{Object, boolean, string, strings, u64}
use authguard.Identity.Claims.{AuthenticatedPrincipalContext}
use authguard.Cache.Memory.{saturating_add, as_secs}
use authguard.Delivery.Check.{CheckFailure, invalid_identity_expiry, resign_unavailable}

abbrev pub Claims : Type 0
Claims = Object

abbrev pub with_acr : Option Text → Claims → Claims
with_acr none claims = claims
with_acr (some value) claims = insert (codes "acr") (string value) claims

unfoldable pub resign_token_claims : AuthenticatedPrincipalContext → Text → ℕ → ℕ → Claims
unfolding saturating_add as_secs
resign_token_claims identity principal_id now_epoch_seconds ttl =
    let trusted : Claims = map (λ claim. (claim.0, string claim.1)) identity.trusted_claims in
    let issued = insert (codes "iss") (string (codes "authguard-authz")) trusted in
    let subject = insert (codes "sub") (string principal_id) issued in
    let principal = insert (codes "principal_id") (string principal_id) subject in
    let kind = insert (codes "principal_kind") (string (kind_text identity.kind)) principal in
    let groups = insert (codes "authguard_group_ids") (strings identity.stable_group_ids) kind in
    let amr = insert (codes "amr") (strings identity.amr) (with_acr identity.acr groups) in
    let origin = insert (codes "authguardOrigin") (boolean true) amr in
    let iat = insert (codes "iat") (u64 now_epoch_seconds) origin in
    insert (codes "exp") (u64 (saturating_add now_epoch_seconds (as_secs ttl))) iat

-- `expires.checked_sub(now)`, when it is not 0
unfoldable pub source_remaining : Option ℕ → ℕ → Option ℕ
source_remaining none now = none
source_remaining (some expires) now =
    if leb now expires then (if ltb 0 (expires - now) then some (expires - now) else none) else none

-- `Duration::from_secs`
abbrev pub from_secs : ℕ → ℕ
from_secs seconds = seconds * 1000000000

module _ (sign : Claims → Option Text) where
  -- Without a signer there is no token; `max_ttl` is the signer's.
  unfoldable pub resign_token :
      Option ℕ
      → AuthenticatedPrincipalContext
      → Text
      → Option ℕ
      → ℕ
      → Result CheckFailure (Option Text)
  unfolding source_remaining resign_token_claims
  resign_token none identity principal_id source_expires now = ok none
  resign_token (some max_ttl) identity principal_id source_expires now = do
    remaining ← ok_or invalid_identity_expiry (source_remaining source_expires now)
    let ttl = min max_ttl (from_secs remaining)
    signed ← ok_or resign_unavailable (sign (resign_token_claims identity principal_id now ttl))
    ok (some signed)

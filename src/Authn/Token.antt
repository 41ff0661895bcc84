-- ===== src/Authn/Token.antt =====
-- `TokenIssuer` of src/authn/src/authentication/token.rs. Durations are counted in nanoseconds.
use authguard.Base.{
  ℕ, Bool, false, not, ◌||◌, Option, none, some, [], ◌∷◌, map, Text, codes, ◌==◌, any, is_empty,
  leb, trim, split, strip_prefix, lookup, insert, from_pairs, Result, ok, err, ◌>>=◌, ok_or,
  map_err, if◌then◌else◌,
}
use authguard.Model.{kind_text}
use authguard.Model.Condition.{is_none_or, is_some_and}
use authguard.Cache.Memory.{saturating_add, as_secs}
use authguard.Access.Signer.{Bytes, Crypto}
use authguard.Identity.Json.{
  Value, null, boolean, number, string, array, object, Object, Serde, strings, u64, fields_of,
  elements, as_str, as_u64, as_object,
}
use authguard.Identity.Headers.{
  HttpTypes, HeaderMap, and_then, then_some, find_map, bearer_value, token_cookie,
}
use authguard.Identity.Claims.{AuthenticatedPrincipalContext, from_verified_jwt}
use authguard.Identity.External.{AuthenticationResult}
use authguard.Jwt.Signing
use authguard.Jwt.Signing.{Rsa}

pub record TokenProperties : Type 0 where
  pub issuer : Text
  pub audience : Text
  pub ttl : ℕ

pub record TokenIssuer (Key : Type 0) : Type 0 where
  pub config : TokenProperties
  pub signing_key : Option Key
  pub public_key : Option Text

pub data TokenError : Type 0 where
  signing_unavailable invalid_token : TokenError

-- The claims that AuthGuard sets over the trusted ones.
abbrev pub issued_claims :
    TokenProperties → AuthenticatedPrincipalContext → AuthenticationResult → ℕ → ℕ → Object
issued_claims config principal authentication auth_time now =
    (codes "iss", string config.issuer)
    ∷ (codes "aud", string config.audience)
    ∷ (codes "sub", string principal.principal_id)
    ∷ (codes "principal_id", string principal.principal_id)
    ∷ (codes "principal_kind", string (kind_text principal.kind))
    ∷ (codes "authguard_group_ids", strings principal.stable_group_ids)
    ∷ (codes "amr", strings authentication.amr)
    ∷ (codes "auth_time", u64 auth_time)
    ∷ (codes "iat", u64 now)
    ∷ (codes "exp", u64 (saturating_add now (as_secs config.ttl)))
    ∷ []

abbrev pub set_acr : Option Text → Object → Object
set_acr none claims = claims
set_acr (some acr) claims = insert (codes "acr") (string acr) claims

unfoldable pub token_claims :
    TokenProperties → AuthenticatedPrincipalContext → AuthenticationResult → ℕ → ℕ → Object
unfolding saturating_add as_secs
token_claims config principal authentication auth_time now =
    let trusted : Object = map (λ claim. (claim.0, string claim.1)) principal.trusted_claims in
    set_acr authentication.acr
      (from_pairs trusted (issued_claims config principal authentication auth_time now))

-- `bearer_value` is the function of the same name in the identity model.
unfoldable pub cookie_token : Text → Option Text
cookie_token value =
    find_map
      (λ entry. and_then (strip_prefix token_cookie (trim entry)) (λ rest.
        and_then (strip_prefix (codes "=") rest)
          (λ token. then_some (not (is_empty token)) (some token))))
      (split b';' value)

unfoldable pub audience_matches : Option Value → Text → Bool
audience_matches (some (string value)) expected = value == expected
audience_matches (some (array values)) expected =
    any (λ value. is_some_and (as_str value) (λ text. text == expected)) (elements values)
audience_matches (some null) expected = false
audience_matches (some (boolean _)) expected = false
audience_matches (some (number _)) expected = false
audience_matches (some (object _)) expected = false
audience_matches none expected = false

-- `claims.get(name).and_then(Value::as_str) == Some(expected)`
abbrev pub claim_is : Text → Object → Text → Bool
claim_is name claims expected =
    is_some_and (and_then (lookup name claims) as_str) (λ value. value == expected)

abbrev pub filled : Text → Option Text
filled value = then_some (not (is_empty value)) (some value)

-- The test before the token is read as an identity.
unfoldable pub claims_rejected : TokenProperties → Object → Text → ℕ → Bool
unfolding audience_matches
claims_rejected config claims principal_id now =
    not (claim_is (codes "sub") claims principal_id)
    || not (claim_is (codes "iss") claims config.issuer)
    || not (audience_matches (lookup (codes "aud") claims) config.audience)
    || is_none_or (and_then (lookup (codes "exp") claims) as_u64) (λ exp. leb exp now)

module _ {Key Public : Type 0} (rsa : Rsa Key Public) (crypto : Crypto)
    (decode_padded : Text → Option Bytes) (serde : Serde) where
  -- `now` is what `epoch_seconds` gives.
  unfoldable pub issue :
      TokenIssuer Key
      → AuthenticatedPrincipalContext
      → AuthenticationResult
      → ℕ
      → Result TokenError Text
  unfolding token_claims
  issue issuer principal authentication now = do
    key ← ok_or signing_unavailable issuer.signing_key
    auth_time ← ok_or signing_unavailable authentication.authenticated_at
    payload ← ok_or signing_unavailable (
        serde.to_vec
          (object (fields_of (token_claims issuer.config principal authentication auth_time now))))
    ok (Signing.sign rsa crypto key payload)

  unfoldable pub authenticate :
      TokenIssuer Key → Text → ℕ → Result TokenError AuthenticatedPrincipalContext
  unfolding claims_rejected
  authenticate issuer token now = do
    public_pem ← ok_or signing_unavailable issuer.public_key
    payload ← map_err (λ _. invalid_token) (Signing.verify rsa crypto public_pem token)
    value ← ok_or invalid_token (serde.from_slice payload)
    claims ← ok_or invalid_token (as_object value)
    principal_id ←
        ok_or invalid_token
          (and_then (and_then (lookup (codes "principal_id") claims) as_str) filled)
    if claims_rejected issuer.config claims principal_id now
        then err invalid_token
        else map_err (λ _. invalid_token) (from_verified_jwt serde crypto decode_padded token)

  module _ (http : HttpTypes) where
    abbrev pub constant_header : Text → HeaderMap → Option Text
    constant_header name headers = and_then (lookup name headers) http.to_str

    unfoldable pub authenticate_bearer : TokenIssuer Key → HeaderMap → ℕ → Result TokenError Text
    unfolding authenticate
    authenticate_bearer issuer headers now = do
      token ←
          ok_or invalid_token
            (and_then (constant_header (codes "authorization") headers) bearer_value)
      principal ← authenticate issuer token now
      ok principal.principal_id

    unfoldable pub authenticate_cookie :
        TokenIssuer Key → HeaderMap → ℕ → Result TokenError AuthenticatedPrincipalContext
    unfolding authenticate cookie_token
    authenticate_cookie issuer headers now = do
      token ← ok_or invalid_token (and_then (constant_header (codes "cookie") headers) cookie_token)
      authenticate issuer token now

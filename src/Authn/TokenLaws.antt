-- ===== src/Authn/TokenLaws.antt =====
-- What an accepted token says.
use authguard.Base.{
  ℕ, ◌<◌, ◌≡◌, refl, sym, ap, subst, ◌∙◌, arith, inl, inr, Bool, true, false, not, ◌||◌, Option,
  none, some, [], ◌∷◌, Text, codes, ◌==◌, eq_iff, lookup, split, join, split-join, leb, ok, ok_or,
  map_err, bind-eq-ok, map_err-eq-ok, ok_or-eq-ok, unless-eq-ok, Option-cases, some_inj,
}
use authguard.Model.Condition.{is_none_or}
use authguard.Access.Signer.{Bytes, Crypto}
use authguard.Identity.Json.{Value, Object, Serde, as_str, as_u64, as_object}
use authguard.Identity.Headers.{and_then}
use authguard.Identity.Claims.{
  AuthenticatedPrincipalContext, payload_object, read_identity, from_verified_jwt_with_claims,
  from_verified_jwt,
}
use authguard.Identity.ClaimsLaws.{read_identity-IsRead}
use authguard.Jwt.Signing
use authguard.Jwt.Signing.{Rsa, jwt_header, signing_input}
use authguard.Jwt.SigningLaws.{IsJwt, IsJwt-verify_iff}
use authguard.Authn.Token.{
  TokenProperties, TokenIssuer, signing_unavailable, invalid_token, audience_matches, claim_is,
  filled, claims_rejected, authenticate,
}

claim_is-eq-true :
    (name : Text) (claims : Object) (expected : Text)
    → claim_is name claims expected ≡ true
    → and_then (lookup name claims) as_str ≡ some expected
claim_is-eq-true name claims expected h =
    elim (Option-cases (and_then (lookup name claims) as_str)) [
      | inl missing ↦ cc (rw missing at h)
      | inr (value, e) ↦ e ∙ ap some ((eq_iff value expected).0 (rw e at h))
    ]

-- What the claims of an accepted token say at a time.
pub record Says (config : TokenProperties) (claims : Object) (principal_id : Text) (now : ℕ)
    : Type 0 where
  pub principal : and_then (lookup (codes "principal_id") claims) as_str ≡ some principal_id
  pub subject : and_then (lookup (codes "sub") claims) as_str ≡ some principal_id
  pub issuer : and_then (lookup (codes "iss") claims) as_str ≡ some config.issuer
  pub audience : audience_matches (lookup (codes "aud") claims) config.audience ≡ true
  pub expiry : ℕ
  pub expires : and_then (lookup (codes "exp") claims) as_u64 ≡ some expiry
  pub live : now < expiry

not_expired :
    (claim : Option ℕ) (now : ℕ)
    → is_none_or claim (λ exp. leb exp now) ≡ false
    → (expiry : ℕ) × (claim ≡ some expiry) × (now < expiry)
not_expired none now h = cc
not_expired (some expiry) now h = (expiry, refl, ground arith)

none_rejects :
    (subject issuer audience late : Bool)
    → (not subject || not issuer || not audience || late) ≡ false
    → (subject ≡ true) × (issuer ≡ true) × (audience ≡ true) × (late ≡ false)
none_rejects subject issuer audience late h = ground arith

claims_rejected-eq-false :
    (config : TokenProperties) (claims : Object) (principal_id : Text) (now : ℕ)
    → and_then (lookup (codes "principal_id") claims) as_str ≡ some principal_id
    → claims_rejected config claims principal_id now ≡ false
    → Says config claims principal_id now
unfolding claims_rejected
claims_rejected-eq-false config claims principal_id now e h =
    let exp = and_then (lookup (codes "exp") claims) as_u64 in
    let (subject, issuer, audience, late) =
      none_rejects (claim_is (codes "sub") claims principal_id)
        (claim_is (codes "iss") claims config.issuer)
        (audience_matches (lookup (codes "aud") claims) config.audience)
        (is_none_or exp (λ exp. leb exp now)) h in
    let (expiry, expires, live) = not_expired exp now late in
    record {
      principal = e;
      subject = claim_is-eq-true (codes "sub") claims principal_id subject;
      issuer = claim_is-eq-true (codes "iss") claims config.issuer issuer;
      audience = audience;
      expiry = expiry;
      expires = expires;
      live = live;
    }

filled-eq-some :
    (value : Option Text) {text : Text} → and_then value filled ≡ some text → value ≡ some text
filled-eq-some none h = cc
filled-eq-some (some value) h = ground arith

module _ {Key Public : Type 0} (rsa : Rsa Key Public) (crypto : Crypto)
    (decode_padded : Text → Option Bytes) (serde : Serde) where
  -- A verified token is read from the payload that was verified.
  pub payload_object_of_IsJwt :
      (public_pem token : Text) (payload : Bytes) (value : Value) (claims : Object)
      → IsJwt rsa crypto public_pem payload token
      → serde.from_slice payload ≡ some value
      → as_object value ≡ some claims
      → payload_object serde crypto decode_padded token ≡ ok claims
  unfolding payload_object ◌==◌ join
  payload_object_of_IsJwt public_pem token payload value claims jwt e f =
      let cut : split b'.' token ≡ jwt_header ∷ jwt.part ∷ jwt.mark ∷ [] =
        ap (split b'.') jwt.text
        ∙ split-join b'.' jwt_header (jwt.part ∷ jwt.mark ∷ []) refl
            (jwt.part_dot, (jwt.mark_dot, tt)) in
      rw (cut, jwt.part_filled, jwt.part_decoded, e, f) refl

  -- What an accepted token is.
  pub record IsAccepted (issuer : TokenIssuer Key) (token : Text) (now : ℕ)
      (principal : AuthenticatedPrincipalContext) : Type 0 where
    pub public_pem : Text
    pub public_key : issuer.public_key ≡ some public_pem
    pub payload : Bytes
    pub signed : IsJwt rsa crypto public_pem payload token
    pub value : Value
    pub read : serde.from_slice payload ≡ some value
    pub claims : Object
    pub is_object : as_object value ≡ some claims
    pub says : Says issuer.config claims principal.principal_id now

  authenticate-IsAccepted :
      (issuer : TokenIssuer Key) (token : Text) (now : ℕ)
      (principal : AuthenticatedPrincipalContext)
      → authenticate rsa crypto decode_padded serde issuer token now ≡ ok principal
      → IsAccepted issuer token now principal
  unfolding authenticate from_verified_jwt from_verified_jwt_with_claims
  authenticate-IsAccepted issuer token now principal h =
      let (public_pem, e₁, h₁) = bind-eq-ok (ok_or signing_unavailable issuer.public_key) _ h in
      let (payload, e₂, h₂) =
        bind-eq-ok (map_err (λ _. invalid_token) (Signing.verify rsa crypto public_pem token)) _
          h₁ in
      let (value, e₃, h₃) = bind-eq-ok (ok_or invalid_token (serde.from_slice payload)) _ h₂ in
      let (claims, e₄, h₄) = bind-eq-ok (ok_or invalid_token (as_object value)) _ h₃ in
      let (principal_id, e₅, h₅) =
        bind-eq-ok
          (ok_or invalid_token
            (and_then (and_then (lookup (codes "principal_id") claims) as_str) filled))
          _ h₄ in
      let (passed, h₆) =
        unless-eq-ok (claims_rejected issuer.config claims principal_id now) invalid_token _ h₅ in
      let jwt = (IsJwt-verify_iff rsa crypto public_pem token payload).0 (map_err-eq-ok _ _ e₂) in
      let says =
        claims_rejected-eq-false issuer.config claims principal_id now
          (filled-eq-some _ (ok_or-eq-ok _ _ e₅)) passed in
      let object_read =
        payload_object_of_IsJwt public_pem token payload value claims jwt (ok_or-eq-ok _ _ e₃)
          (ok_or-eq-ok _ _ e₄) in
      let read : read_identity serde claims (codes "principal_id") (codes "principal_kind")
            (codes "authguard_group_ids")
          ≡ ok principal =
        rw (object_read) at (map_err-eq-ok _ _ h₆) in
      let is_read = read_identity-IsRead serde claims _ _ _ principal read in
      let same : principal_id ≡ principal.principal_id =
        some_inj (sym says.principal ∙ is_read.principal_claim) in
      record {
        public_pem = public_pem;
        public_key = ok_or-eq-ok _ _ e₁;
        payload = payload;
        signed = jwt;
        value = value;
        read = ok_or-eq-ok _ _ e₃;
        claims = claims;
        is_object = ok_or-eq-ok _ _ e₄;
        says = subst (λ id. Says issuer.config claims id now) same says;
      }

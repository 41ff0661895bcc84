-- ===== src/Authn/TokenTrip.antt =====
-- A token that was issued is accepted, as the principal that it was issued for.
use authguard.Base.{
  ℕ, ◌≤◌, ◌<◌, ◌≡◌, refl, sym, ap, subst, ◌∙◌, arith, false, Option, none, some, List, [], ◌∷◌, map,
  Text, codes, ◌==◌, eq_refl, contains, is_empty, lookup, insert, lookup-insert, from_pairs,
  last_value, lookup-from_pairs, leb, ok, ok_or, bind-eq-ok, ok_inj, ok_or-eq-ok,
}
use authguard.Model.{PrincipalKind, user, workload, group, kind_text}
use authguard.Cache.Memory.{saturating_add, as_secs}
use authguard.Access.Signer.{Bytes, Crypto}
use authguard.Identity.Json.{
  Value, string, object, Object, Serde, strings, u64, fields_of, entries, as_str, as_object,
}
use authguard.Identity.Canonical.{IsCanonical, validate_canonical_of}
use authguard.Identity.Headers.{and_then}
use authguard.Identity.Claims.{
  from_verified_jwt, from_verified_jwt_with_claims, AuthenticatedPrincipalContext,
  parse_principal_kind, total_len, max_group_bytes, max_scalar_claim_bytes, scalar_bytes,
  scalar_claims, bool_text, read_groups, read_string_array,
}
use authguard.Identity.ClaimsLaws.{AreGroups, IsRead, read_identity_of_IsRead}
use authguard.Identity.GroupsLaws.{read_groups-strings, read_string_array-strings}
use authguard.Authn.Token.{
  TokenProperties, issued_claims, set_acr, token_claims, audience_matches, filled, claims_rejected,
  TokenIssuer, signing_unavailable, issue, authenticate,
}
use authguard.Identity.External.{AuthenticationResult}
use authguard.Jwt.Signing
use authguard.Jwt.Signing.{Rsa}
use authguard.Jwt.SigningLaws.{IsKeyPair, verify-sign, IsJwt-verify_iff}
use authguard.Authn.TokenLaws.{payload_object_of_IsJwt}

entries-fields_of : (claims : Object) → entries (fields_of claims) ≡ claims
entries-fields_of [] = refl
entries-fields_of ((name, value) ∷ rest) = ap (λ r. (name, value) ∷ r) (entries-fields_of rest)

kind_trip : (kind : PrincipalKind) → parse_principal_kind (kind_text kind) ≡ some kind
unfolding parse_principal_kind ◌==◌
kind_trip user = refl
kind_trip workload = refl
kind_trip group = refl

lookup-texts :
    (name : Text) (claims : List (Text × Text))
    → lookup name claims ≡ none
    → lookup name (map (λ (claim : Text × Text). (claim.0, string claim.1)) claims) ≡ none
unfolding lookup
lookup-texts name [] h = refl
lookup-texts name ((key, value) ∷ claims) h = ground (arith, lookup-texts name claims)

set_acr-other :
    (name : Text) (acr : Option Text) (claims : Object)
    → (codes "acr" == name) ≡ false
    → lookup name (set_acr acr claims) ≡ lookup name claims
set_acr-other name none claims other = refl
set_acr-other name (some acr) claims other =
    lookup-insert (codes "acr") name (string acr) claims ∙ rw other refl

module _ (config : TokenProperties) (principal : AuthenticatedPrincipalContext)
    (authentication : AuthenticationResult) (auth_time now : ℕ) where
  abbrev claims : Object
  claims = token_claims config principal authentication auth_time now

  -- A claim that AuthGuard sets has its value in the token.
  set_claim :
      (name : Text) (value : Value)
      → (codes "acr" == name) ≡ false
      → ((found : Option Value)
          → last_value name found (issued_claims config principal authentication auth_time now)
            ≡ some value)
      → lookup name claims ≡ some value
  unfolding token_claims
  set_claim name value other last =
      set_acr-other name authentication.acr _ other ∙ lookup-from_pairs name _ _ ∙ last _

  acr_claim :
      (acr : Option Text)
      → lookup (codes "acr") principal.trusted_claims ≡ none
      → and_then
          (lookup (codes "acr") (
            set_acr acr (
              from_pairs
                (map (λ (claim : Text × Text). (claim.0, string claim.1)) principal.trusted_claims)
                (issued_claims config principal authentication auth_time now))))
          as_str
        ≡ acr
  unfolding last_value ◌==◌
  acr_claim (some acr) h =
      ap (λ found. and_then found as_str) (lookup-insert (codes "acr") (codes "acr") (string acr) _)
  acr_claim none h =
      ap (λ found. and_then found as_str)
        (lookup-from_pairs (codes "acr") _ _
          ∙ lookup-texts (codes "acr") principal.trusted_claims h)

  -- What the principal must have for its token to be read.
  pub record IsIssuable : Type 0 where
    pub canonical : IsCanonical principal.principal_id
    pub groups : AreGroups principal.stable_group_ids
    pub short : total_len principal.stable_group_ids ≤ max_group_bytes
    pub no_acr : lookup (codes "acr") principal.trusted_claims ≡ none

  claims_acr :
      lookup (codes "acr") principal.trusted_claims ≡ none
      → and_then (lookup (codes "acr") claims) as_str ≡ authentication.acr
  unfolding token_claims
  claims_acr h = acr_claim authentication.acr h

  -- The claims that the acceptance looks at.
  record Claimed : Type 0 where
    subject : lookup (codes "sub") claims ≡ some (string principal.principal_id)
    named : lookup (codes "principal_id") claims ≡ some (string principal.principal_id)
    issuer : lookup (codes "iss") claims ≡ some (string config.issuer)
    audience : lookup (codes "aud") claims ≡ some (string config.audience)
    expires : lookup (codes "exp") claims ≡ some (u64 (saturating_add now (as_secs config.ttl)))

  claimed : Claimed
  unfolding last_value ◌==◌
  claimed = record {
    subject = set_claim (codes "sub") (string principal.principal_id) refl (λ _. refl);
    named = set_claim (codes "principal_id") (string principal.principal_id) refl (λ _. refl);
    issuer = set_claim (codes "iss") (string config.issuer) refl (λ _. refl);
    audience = set_claim (codes "aud") (string config.audience) refl (λ _. refl);
    expires =
        set_claim (codes "exp") (u64 (saturating_add now (as_secs config.ttl))) refl (λ _. refl);
  }

  pub claims_accepted :
      (later : ℕ)
      → later < saturating_add now (as_secs config.ttl)
      → claims_rejected config claims principal.principal_id later ≡ false
  unfolding claims_rejected audience_matches
  claims_accepted later live =
      let late : leb (saturating_add now (as_secs config.ttl)) later ≡ false = ground arith in
      rw
        (
          claimed.subject,
          claimed.issuer,
          claimed.audience,
          claimed.expires,
          audience_matches,
          eq_refl principal.principal_id,
          eq_refl config.issuer,
          eq_refl config.audience,
          late,
        )
        refl

  pub claims_named :
      is_empty principal.principal_id ≡ false
      → and_then (and_then (lookup (codes "principal_id") claims) as_str) filled
        ≡ some principal.principal_id
  claims_named h = rw (claimed.named, h) refl

  module _ (serde : Serde) where
    -- The identity that the token gives.
    abbrev pub issued_identity : AuthenticatedPrincipalContext
    issued_identity = record {
      principal_id = principal.principal_id;
      kind = principal.kind;
      stable_group_ids = principal.stable_group_ids;
      trusted_claims =
          insert (codes "mfa") (bool_text (contains (codes "mfa") authentication.amr))
            (from_pairs [] (scalar_claims serde claims));
      acr = authentication.acr;
      amr = authentication.amr;
    }

    issued-IsRead :
        IsIssuable
        → scalar_bytes 0 (scalar_claims serde claims) ≤ max_scalar_claim_bytes
        → IsRead serde claims
            (codes "principal_id")
            (codes "principal_kind")
            (codes "authguard_group_ids")
            issued_identity
    unfolding last_value ◌==◌
    issued-IsRead issuable small = record {
      principal_claim =
          ap (λ found. and_then found as_str)
            (set_claim (codes "principal_id") (string principal.principal_id) refl (λ _. refl));
      canonical =
          validate_canonical_of principal.principal_id (codes "principal_id") issuable.canonical;
      kind_of =
          ap (λ found. and_then (and_then found as_str) parse_principal_kind)
            (set_claim (codes "principal_kind") (string (kind_text principal.kind)) refl
              (λ _. refl))
          ∙ kind_trip principal.kind;
      groups_of =
          ap read_groups (
            set_claim (codes "authguard_group_ids") (strings principal.stable_group_ids) refl
              (λ _. refl))
          ∙ read_groups-strings principal.stable_group_ids issuable.groups issuable.short;
      small = ground (arith, small);
      amr_of =
          ap read_string_array
            (set_claim (codes "amr") (strings authentication.amr) refl (λ _. refl))
          ∙ read_string_array-strings authentication.amr;
      trusted_of = refl;
      acr_of = sym (claims_acr issuable.no_acr);
    }

-- What `serde_json` documents, at one object: what was written is read back, and is not empty.
pub record ReadsBack (crypto : Crypto) (serde : Serde) (claims : Object) : Type 0 where
  pub reads :
      (payload : Bytes)
      → serde.to_vec (object (fields_of claims)) ≡ some payload
      → serde.from_slice payload ≡ some (object (fields_of claims))
  pub written_filled :
      (payload : Bytes)
      → serde.to_vec (object (fields_of claims)) ≡ some payload
      → is_empty (crypto.encode payload) ≡ false

module _ {Key Public : Type 0} (rsa : Rsa Key Public) (crypto : Crypto)
    (decode_padded : Text → Option Bytes) (serde : Serde) (issuer : TokenIssuer Key) (key : Key)
    (public_pem : Text) (pair : IsKeyPair rsa crypto key public_pem) where
  signed-authenticate :
      (principal : AuthenticatedPrincipalContext) (authentication : AuthenticationResult)
      (auth_time now later : ℕ) (payload : Bytes)
      → issuer.public_key ≡ some public_pem
      → ReadsBack crypto serde (token_claims issuer.config principal authentication auth_time now)
      → IsIssuable issuer.config principal authentication auth_time now
      → scalar_bytes 0
          (scalar_claims serde (token_claims issuer.config principal authentication auth_time now))
        ≤ max_scalar_claim_bytes
      → later < saturating_add now (as_secs issuer.config.ttl)
      → serde.to_vec
          (object (fields_of (token_claims issuer.config principal authentication auth_time now)))
        ≡ some payload
      → authenticate rsa crypto decode_padded serde issuer
          (Signing.sign rsa crypto key payload)
          later
        ≡ ok (issued_identity issuer.config principal authentication auth_time now serde)
  unfolding authenticate from_verified_jwt from_verified_jwt_with_claims
  signed-authenticate principal authentication auth_time now later payload public_key reads_back
        issuable small live written =
      let config = issuer.config in
      let claims = token_claims config principal authentication auth_time now in
      let filled_text = reads_back.written_filled payload written in
      let read = reads_back.reads payload written in
      let verified = verify-sign rsa crypto key public_pem payload pair filled_text in
      let same : as_object (object (fields_of claims)) ≡ some claims =
        ap some (entries-fields_of claims) in
      let object_read =
        payload_object_of_IsJwt rsa crypto decode_padded serde public_pem
          (Signing.sign rsa crypto key payload) payload (object (fields_of claims)) claims
          ((IsJwt-verify_iff rsa crypto public_pem (Signing.sign rsa crypto key payload) payload).0
            verified)
          read same in
      rw
        (
          public_key,
          verified,
          read,
          entries-fields_of claims,
          claims_named config principal authentication auth_time now issuable.canonical.filled,
          claims_accepted config principal authentication auth_time now later live,
          object_read,
          read_identity_of_IsRead serde claims _ _ _ _
              (issued-IsRead config principal authentication auth_time now serde issuable small),
        )
        refl

  -- A token that is issued for a principal with canonical id and groups is accepted until it expires,
  -- and gives that principal: its id, kind and groups, and the methods and class of the authentication.
  -- The scalar claims of the token must fit the bound of the reader.
  pub authenticate-issue :
      (principal : AuthenticatedPrincipalContext) (authentication : AuthenticationResult)
      (auth_time now later : ℕ) (token : Text)
      → issuer.signing_key ≡ some key
      → issuer.public_key ≡ some public_pem
      → authentication.authenticated_at ≡ some auth_time
      → ReadsBack crypto serde (token_claims issuer.config principal authentication auth_time now)
      → IsIssuable issuer.config principal authentication auth_time now
      → scalar_bytes 0
          (scalar_claims serde (token_claims issuer.config principal authentication auth_time now))
        ≤ max_scalar_claim_bytes
      → later < saturating_add now (as_secs issuer.config.ttl)
      → issue rsa crypto decode_padded serde issuer principal authentication now ≡ ok token
      → authenticate rsa crypto decode_padded serde issuer token later
        ≡ ok (issued_identity issuer.config principal authentication auth_time now serde)
  unfolding issue
  authenticate-issue principal authentication auth_time now later token signing public at reads_back
        issuable small live h =
      let claims = token_claims issuer.config principal authentication auth_time now in
      let (payload, e, h₁) =
        bind-eq-ok (ok_or signing_unavailable (serde.to_vec (object (fields_of claims)))) _
          (rw (signing, at) at h) in
      subst
        (λ t.
          authenticate rsa crypto decode_padded serde issuer t later
          ≡ ok (issued_identity issuer.config principal authentication auth_time now serde))
        (ok_inj h₁)
        (signed-authenticate principal authentication auth_time now later payload public reads_back
          issuable small live (ok_or-eq-ok _ _ e))

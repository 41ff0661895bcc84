-- ===== src/Jwt/SigningLaws.antt =====
-- What a verified token vouches for, and that a signed token verifies.
use authguard.Base.{
  ◌≡◌, refl, ◌↔◌, Bool, sym, ap, subst, ◌∙◌, true, false, not, ◌||◌, arith, some, List, [], ◌∷◌,
  ◌++◌, Text, ◌==◌, eq_iff, is_empty, split, join, join-split, split-join, split-All_Lacks, Lacks,
  All, ok, ok_or, bind-eq-ok, ok_inj, ok_or-eq-ok, unless-eq-ok,
}
use authguard.Access.Signer.{Bytes, Crypto}
use authguard.Jwt.Signing.{
  Rsa, invalid_signing_key, invalid_token_format, invalid_signature, jwt_header, signing_input,
  jwt_parts, sign, verify,
}

not-false : (b : Bool) → not b ≡ false → b ≡ true
not-false true h = refl
not-false false h = cc

jwt_parts-eq-ok :
    (parts : List Text) (payload signature : Text)
    → jwt_parts parts ≡ ok (payload, signature)
    → (parts ≡ jwt_header ∷ payload ∷ signature ∷ [])
      × (is_empty payload ≡ false)
      × (is_empty signature ≡ false)
unfolding jwt_parts
jwt_parts-eq-ok (a ∷ b ∷ c ∷ []) payload signature h =
    let (passed, done) =
      unless-eq-ok (not (a == jwt_header) || is_empty b || is_empty c) invalid_token_format _ h in
    let e : ◌≡◌ {A = Text × Text} (b, c) (payload, signature) = ok_inj done in
    let same_header : a ≡ jwt_header = (eq_iff a jwt_header).0 (ground arith) in
    (
      (λ i. same_header i ∷ (e i).0 ∷ (e i).1 ∷ []),
      subst (λ x. is_empty x ≡ false) (ap (λ p. p.0) e) (ground arith),
      subst (λ x. is_empty x ≡ false) (ap (λ p. p.1) e) (ground arith),
    )
jwt_parts-eq-ok _ payload signature h = cc

module _ {Key Public : Type 0} (rsa : Rsa Key Public) (crypto : Crypto) where
  -- The token is the header, an encoding of the payload and an encoding of a signature that the public
  -- key accepts for the two, with dots between.
  pub record IsJwt (public_pem : Text) (payload : Bytes) (token : Text) : Type 0 where
    pub public : Public
    pub public_read : rsa.from_pkcs1_pem public_pem ≡ some public
    pub part : Text
    pub part_filled : is_empty part ≡ false
    pub part_dot : Lacks b'.' part
    pub part_decoded : crypto.decode part ≡ some payload
    pub mark : Text
    pub mark_filled : is_empty mark ≡ false
    pub mark_dot : Lacks b'.' mark
    pub signature : Bytes
    pub mark_decoded : crypto.decode mark ≡ some signature
    pub well_formed : rsa.is_signature signature ≡ true
    pub accepted : rsa.verify public (signing_input part) signature ≡ true
    pub text : token ≡ signing_input part ++ (b'.' ∷ mark)

  verify-IsJwt :
      (public_pem token : Text) (payload : Bytes)
      → verify rsa crypto public_pem token ≡ ok payload
      → IsJwt public_pem payload token
  unfolding verify join
  verify-IsJwt public_pem token payload h =
      let (public, e₁, h₁) =
        bind-eq-ok (ok_or invalid_signing_key (rsa.from_pkcs1_pem public_pem)) _ h in
      let (parts, e₂, h₂) = bind-eq-ok (jwt_parts (split b'.' token)) _ h₁ in
      let (signature, e₃, h₃) =
        bind-eq-ok (ok_or invalid_token_format (crypto.decode parts.1)) _ h₂ in
      let (formed, h₄) =
        unless-eq-ok (not (rsa.is_signature signature)) invalid_token_format _ h₃ in
      let (passed, h₅) =
        unless-eq-ok (not (rsa.verify public (signing_input parts.0) signature)) invalid_signature _
          h₄ in
      let (cut, part_filled, mark_filled) = jwt_parts-eq-ok (split b'.' token) parts.0 parts.1 e₂ in
      let pieces = subst (All (Lacks b'.')) cut (split-All_Lacks b'.' token) in
      record {
        public = public;
        public_read = ok_or-eq-ok _ _ e₁;
        part = parts.0;
        part_filled = part_filled;
        part_dot = pieces.1.0;
        part_decoded = ok_or-eq-ok _ _ h₅;
        mark = parts.1;
        mark_filled = mark_filled;
        mark_dot = pieces.1.1.0;
        signature = signature;
        mark_decoded = ok_or-eq-ok _ _ e₃;
        well_formed = not-false _ formed;
        accepted = not-false _ passed;
        text = sym (join-split b'.' token) ∙ ap (join b'.') cut;
      }

  verify_of_IsJwt :
      (public_pem token : Text) (payload : Bytes)
      → IsJwt public_pem payload token
      → verify rsa crypto public_pem token ≡ ok payload
  unfolding verify jwt_parts join ◌==◌
  verify_of_IsJwt public_pem token payload s =
      let cut : split b'.' token ≡ jwt_header ∷ s.part ∷ s.mark ∷ [] =
        ap (split b'.') s.text
        ∙ split-join b'.' jwt_header (s.part ∷ s.mark ∷ []) refl (s.part_dot, (s.mark_dot, tt)) in
      rw
        (
          s.public_read, verify, cut, jwt_parts, s.part_filled, s.mark_filled, s.mark_decoded,
          s.well_formed, s.accepted, s.part_decoded,
        )
        refl

  -- A token verifies under a public key as a payload exactly when it is the header of RS256, an encoding
  -- of the payload and an encoding of a signature that the key accepts for the two, with a dot between,
  -- and no dot within, any of them, and none of them empty.
  pub IsJwt-verify_iff :
      (public_pem token : Text) (payload : Bytes)
      → (verify rsa crypto public_pem token ≡ ok payload) ↔ IsJwt public_pem payload token
  IsJwt-verify_iff public_pem token payload =
      (verify-IsJwt public_pem token payload, verify_of_IsJwt public_pem token payload)

  -- What the libraries document of a key and its public key.
  pub record IsKeyPair (key : Key) (public_pem : Text) : Type 0 where
    pub public : Public
    pub public_read : rsa.from_pkcs1_pem public_pem ≡ some public
    pub formed : (text : Text) → rsa.is_signature (rsa.sign key text) ≡ true
    pub accepts : (text : Text) → rsa.verify public text (rsa.sign key text) ≡ true
    pub decoded : (bytes : Bytes) → crypto.decode (crypto.encode bytes) ≡ some bytes
    pub no_dot : (bytes : Bytes) → Lacks b'.' (crypto.encode bytes)
    pub mark_filled : (text : Text) → is_empty (crypto.encode (rsa.sign key text)) ≡ false

  pub verify-sign :
      (key : Key) (public_pem : Text) (payload : Bytes)
      → IsKeyPair key public_pem
      → is_empty (crypto.encode payload) ≡ false
      → verify rsa crypto public_pem (sign rsa crypto key payload) ≡ ok payload
  unfolding sign
  verify-sign key public_pem payload pair filled =
      let part = crypto.encode payload in
      verify_of_IsJwt public_pem (sign rsa crypto key payload) payload (record {
        public = pair.public;
        public_read = pair.public_read;
        part = part;
        part_filled = filled;
        part_dot = pair.no_dot payload;
        part_decoded = pair.decoded payload;
        mark = crypto.encode (rsa.sign key (signing_input part));
        mark_filled = pair.mark_filled (signing_input part);
        mark_dot = pair.no_dot (rsa.sign key (signing_input part));
        signature = rsa.sign key (signing_input part);
        mark_decoded = pair.decoded (rsa.sign key (signing_input part));
        well_formed = pair.formed (signing_input part);
        accepted = pair.accepts (signing_input part);
        text = refl;
      })

-- ===== src/Access/SignerLaws.antt =====
-- What a signature of `AccessContextSigner` (src/common/src/utils/context.rs) vouches for.
use authguard.Base.{
  ◌≡◌, refl, ◌↔◌, sym, ap, subst, ◌∙◌, false, not, ◌||◌, arith, inl, inr, some, List, [], ◌∷◌, ◌++◌,
  Text, ◌==◌, eq_iff, eq_refl, is_empty, split, join, join-split, split-join, split-All_Lacks,
  Lacks, All, ok, ok_or, bind-eq-ok, ok_inj, ok_or-eq-ok, Bool-cases,
}
use authguard.Access.Signer.{
  Bytes, Crypto, AccessContextSigner, invalid_signing_key, invalid_signed_format,
  signed_context_prefix, signing_input_of, signed_parts, sign_encoded, verify,
}

-- What the libraries document: a decoded text is what was encoded, an encoded tag is not empty and has
-- no dot.
pub record IsUrlSafe (crypto : Crypto) : Type 0 where
  pub decoded : (bytes : Bytes) → crypto.decode (crypto.encode bytes) ≡ some bytes
  pub no_dot : (bytes : Bytes) → Lacks b'.' (crypto.encode bytes)
  pub filled :
      (key : Bytes) (text : Text) (tag : Bytes)
      → crypto.mac key text ≡ some tag
      → is_empty (crypto.encode tag) ≡ false

-- The signed text is the prefix, the payload and an encoding of the payload's tag under the key, with
-- dots between.
pub record IsSigned (crypto : Crypto) (signer : AccessContextSigner) (payload signed : Text)
    : Type 0 where
  pub tag : Bytes
  pub signature : Text
  pub mac : crypto.mac signer.key (signing_input_of payload) ≡ some tag
  pub decode : crypto.decode signature ≡ some tag
  pub payload_filled : is_empty payload ≡ false
  pub signature_filled : is_empty signature ≡ false
  pub payload_dot : Lacks b'.' payload
  pub signature_dot : Lacks b'.' signature
  pub text : signed ≡ signing_input_of payload ++ (b'.' ∷ signature)

signed_parts-eq-ok :
    (parts : List Text) (payload signature : Text)
    → signed_parts parts ≡ ok (payload, signature)
    → (parts ≡ signed_context_prefix ∷ payload ∷ signature ∷ [])
      × (is_empty payload ≡ false)
      × (is_empty signature ≡ false)
unfolding signed_parts
signed_parts-eq-ok (a ∷ b ∷ c ∷ []) payload signature h =
    elim (Bool-cases (not (a == signed_context_prefix) || is_empty b || is_empty c)) [
      | inl bad ↦ cc (rw bad at h)
      | inr good ↦
          let e : ◌≡◌ {A = Text × Text} (b, c) (payload, signature) = ok_inj (rw good at h) in
          let same_prefix : a ≡ signed_context_prefix =
            (eq_iff a signed_context_prefix).0 (ground arith) in
          (
            (λ i. same_prefix i ∷ (e i).0 ∷ (e i).1 ∷ []),
            subst (λ x. is_empty x ≡ false) (ap (λ p. p.0) e) (ground arith),
            subst (λ x. is_empty x ≡ false) (ap (λ p. p.1) e) (ground arith),
          )
    ]
signed_parts-eq-ok _ payload signature h = cc

module _ (crypto : Crypto) (signer : AccessContextSigner) where
  verify-IsSigned :
      (signed payload : Text)
      → verify crypto signer signed ≡ ok payload
      → IsSigned crypto signer payload signed
  unfolding verify join
  verify-IsSigned signed payload h =
      let (parts, e₁, h₁) = bind-eq-ok (signed_parts (split b'.' signed)) _ h in
      let (signature, e₂, h₂) =
        bind-eq-ok (ok_or invalid_signed_format (crypto.decode parts.1)) _ h₁ in
      let (tag, e₃, h₃) =
        bind-eq-ok (ok_or invalid_signing_key (crypto.mac signer.key (signing_input_of parts.0))) _
          h₂ in
      let (cut, payload_filled, signature_filled) =
        signed_parts-eq-ok (split b'.' signed) parts.0 parts.1 e₁ in
      let pieces = subst (All (Lacks b'.')) cut (split-All_Lacks b'.' signed) in
      elim (Bool-cases (tag == signature)) [
        | inr other ↦ cc (rw other at h₃)
        | inl same ↦
            subst (λ p. IsSigned crypto signer p signed) (ok_inj (rw same at h₃))
              (record {
                tag = tag;
                signature = parts.1;
                mac = ok_or-eq-ok _ _ e₃;
                decode = ok_or-eq-ok _ _ e₂ ∙ ap some (sym ((eq_iff tag signature).0 same));
                payload_filled = payload_filled;
                signature_filled = signature_filled;
                payload_dot = pieces.1.0;
                signature_dot = pieces.1.1.0;
                text = sym (join-split b'.' signed) ∙ ap (join b'.') cut;
              })
      ]

  verify_of_IsSigned :
      (signed payload : Text)
      → IsSigned crypto signer payload signed
      → verify crypto signer signed ≡ ok payload
  unfolding verify signed_parts join ◌==◌
  verify_of_IsSigned signed payload s =
      let cut : split b'.' signed ≡ signed_context_prefix ∷ payload ∷ s.signature ∷ [] =
        ap (split b'.') s.text
        ∙ split-join b'.' signed_context_prefix (payload ∷ s.signature ∷ []) refl
            (s.payload_dot, (s.signature_dot, tt)) in
      rw
        (
          cut,
          verify,
          s.payload_filled,
          signed_parts,
          s.signature_filled,
          s.decode,
          s.mac,
          eq_refl s.tag,
        )
        refl

  -- A text verifies as a payload exactly when it is the prefix, the payload and an encoding of the tag
  -- that the key gives for the prefix and the payload, with a dot between, and no dot within, any of
  -- them, and neither of the two empty. Nothing else passes: no other prefix, no further part, no other
  -- tag.
  pub verify_iff :
      (signed payload : Text)
      → (verify crypto signer signed ≡ ok payload) ↔ IsSigned crypto signer payload signed
  verify_iff signed payload = (verify-IsSigned signed payload, verify_of_IsSigned signed payload)

  -- What was signed verifies: a payload that is not empty and has no dot is given back.
  pub verify-sign_encoded :
      (encoded signed : Text)
      → IsUrlSafe crypto
      → is_empty encoded ≡ false
      → Lacks b'.' encoded
      → sign_encoded crypto signer encoded ≡ ok signed
      → verify crypto signer signed ≡ ok encoded
  unfolding sign_encoded
  verify-sign_encoded encoded signed safe filled dot h =
      let (tag, e, h₁) =
        bind-eq-ok (ok_or invalid_signing_key (crypto.mac signer.key (signing_input_of encoded))) _
          h in
      let mac =
        ok_or-eq-ok invalid_signing_key (crypto.mac signer.key (signing_input_of encoded)) e in
      verify_of_IsSigned signed encoded (record {
        tag = tag;
        signature = crypto.encode tag;
        mac = mac;
        decode = safe.decoded tag;
        payload_filled = filled;
        signature_filled = safe.filled signer.key (signing_input_of encoded) tag mac;
        payload_dot = dot;
        signature_dot = safe.no_dot tag;
        text = sym (ok_inj h₁);
      })

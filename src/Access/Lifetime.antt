-- ===== src/Access/Lifetime.antt =====
-- When an access context (src/common/src/utils/context.rs) is accepted.
use authguard.Base.{
  some_inj, ℕ, ◌+◌, ◌≤◌, ◌<◌, ◌≡◌, ◌↔◌, refl, subst, false, arith, inl, inr, Option-cases, Text,
  some, is_empty, Lacks, min, ok, ◌>>=◌, ok_or, bind-eq-ok, ok_inj,
}
use authguard.Cache.Memory.{saturating_add, as_secs, u64_max}
use authguard.Access.Signer.{Bytes, Crypto, AccessContextSigner, sign_encoded, verify, base64, json}
use authguard.Access.Context.{
  AccessContextInput, AccessContext, Json, new_context, validate, encode, decode,
}
use authguard.Access.SignerLaws.{IsUrlSafe, verify-sign_encoded}

-- Accepted at this time. The clock may be 30 seconds behind the clock of the issuer.
pub record IsCurrent (context : AccessContext) (now : ℕ) : Type 0 where
  pub version : context.version ≡ 3
  pub lifetime : context.issued_at_epoch_seconds < context.expires_at_epoch_seconds
  pub issued : context.issued_at_epoch_seconds ≤ min (now + 30) u64_max
  pub live : now < context.expires_at_epoch_seconds

-- A context is valid exactly when it has version 3, expires after it is issued, was issued at most 30
-- seconds later than now, and has not expired.
pub validate_iff :
    (context : AccessContext) (now : ℕ) → (validate context now ≡ ok tt) ↔ IsCurrent context now
unfolding validate saturating_add
validate_iff context now = (
  λ h. record {
    version = ground arith;
    lifetime = ground arith;
    issued = ground arith;
    live = ground arith;
  },
  λ v. ground arith,
)

-- What a fresh context, not near the end of time, is good for.
pub new_context_iff :
    (input : AccessContextInput) (issued ttl now : ℕ)
    → issued + as_secs ttl ≤ u64_max
    → now + 30 ≤ u64_max
    → (validate (new_context input issued ttl) now ≡ ok tt)
      ↔ ((issued ≤ now + 30) × (now < issued + as_secs ttl) × (1 ≤ as_secs ttl))
unfolding new_context saturating_add
new_context_iff input issued ttl now bounded early =
    let (to, from) = validate_iff (new_context input issued ttl) now in
    (
      λ h. (
        omega (arith, (to h).issued, early),
        omega (arith, bounded, (to h).live),
        omega (arith, bounded, (to h).lifetime),
      ),
      λ v. from (record {
        version = refl;
        lifetime = omega (arith, v.1, v.2, bounded, v.0);
        issued = omega (arith, v.0, early);
        live = omega (arith, v.1, bounded);
      }),
    )

module _ (crypto : Crypto) (serde : Json) where
  -- What `serde_json` and `base64` document: the context that was written is read back, and its encoding
  -- is not empty and has no dot.
  pub record ReadsBack (context : AccessContext) : Type 0 where
    pub read :
        (bytes : Bytes) → serde.to_vec context ≡ some bytes → serde.from_slice bytes ≡ some context
    pub filled :
        (bytes : Bytes) → serde.to_vec context ≡ some bytes → is_empty (crypto.encode bytes) ≡ false

  -- A context that was encoded and signed arrives: at the receiver the signature verifies under the same
  -- key and the context is read back as it was, while it is current.
  pub decode-encode :
      (signer : AccessContextSigner) (context : AccessContext) (encoded signed : Text) (now : ℕ)
      → IsUrlSafe crypto
      → ReadsBack context
      → encode crypto serde context ≡ some encoded
      → sign_encoded crypto signer encoded ≡ ok signed
      → IsCurrent context now
      → (verify crypto signer signed >>= decode crypto serde now) ≡ ok context
  unfolding encode decode
  decode-encode signer context encoded signed now safe reads written is_signed current =
      elim (Option-cases (serde.to_vec context)) [
        | inl failed ↦ cc (rw (failed, encode) at written)
        | inr (bytes, e) ↦
            let same : crypto.encode bytes ≡ encoded = some_inj (rw (e, encode) at written) in
            let verified =
              verify-sign_encoded crypto signer encoded signed safe
                (subst (λ t. is_empty t ≡ false) same (reads.filled bytes e))
                (subst (Lacks b'.') same (safe.no_dot bytes)) is_signed in
            let decoded : crypto.decode encoded ≡ some bytes =
              subst (λ t. crypto.decode t ≡ some bytes) same (safe.decoded bytes) in
            rw (verified, decoded, decode, reads.read bytes e, (validate_iff context now).1 current)
              refl
      ]

  pub decode-IsCurrent :
      (encoded : Text) (context : AccessContext) (now : ℕ)
      → decode crypto serde now encoded ≡ ok context
      → IsCurrent context now
  unfolding decode
  decode-IsCurrent encoded context now h =
      let (bytes, e₁, h₁) = bind-eq-ok (ok_or base64 (crypto.decode encoded)) _ h in
      let (found, e₂, h₂) = bind-eq-ok (ok_or json (serde.from_slice bytes)) _ h₁ in
      let (checked, e₃, h₃) = bind-eq-ok (validate found now) _ h₂ in
      subst (λ c. IsCurrent c now) (ok_inj h₃) ((validate_iff found now).0 e₃)

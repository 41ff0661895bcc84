-- ===== src/Delivery/ScopeTokens.antt =====
-- Scopes that are delivered by a token (`prepare_delivery` and `resolve_scope` of
-- src/authz/src/handler/authorization.rs).
use authguard.Base.{
  ℕ, ◌≤◌, ◌≡◌, refl, sym, subst, inl, inr, true, some, Text, len, all, Result, ok, err,
  Option-cases, some_inj, ok_inj, ap,
}
use authguard.Access.Signer.{Bytes, Crypto}
use authguard.Access.SignerLaws.{IsUrlSafe}
use authguard.Access.Context.{AccessContext, Json, new_context, encode, decode}
use authguard.Access.Lifetime.{IsCurrent, ReadsBack, validate_iff}
use authguard.Delivery.Check.{
  AccessDelivery, token, ScopeCache, ScopeDeliveryProperties, new_scope_token, is_token_char,
  valid_scope_token, input_of, stored_token, token_delivery, checked_scope, resolve_scope,
}

-- A scope that is stored in `state` for `ttl` at the time of `cache` is loaded at the time of
-- `cache_later`, with no other use of the cache between.
pub record KeepsScopes {S : Type 0} (cache cache_later : ScopeCache S) (ttl : ℕ) (state : S)
    : Type 0 where
  pub kept :
      (text context : Text) (after : S)
      → cache.store_scope text context ttl state ≡ (ok tt, after)
      → (later : S) × (cache_later.load_scope text after ≡ (ok (some context), later))

-- What Base64URL makes of 32 bytes: 43 characters of its alphabet.
pub record IsTokenText (crypto : Crypto) (bytes : Bytes) : Type 0 where
  pub length_of : len (crypto.encode bytes) ≡ 43
  pub alphabet : all is_token_char (crypto.encode bytes) ≡ true

new_scope_token-valid :
    (crypto : Crypto) (bytes : Bytes)
    → IsTokenText crypto bytes
    → valid_scope_token (new_scope_token crypto bytes) ≡ true
unfolding valid_scope_token new_scope_token len
new_scope_token-valid crypto bytes t = rw (t.length_of, t.alphabet) refl

module _ {S : Type 0} (crypto : Crypto) (serde : Json) (cache : ScopeCache S) where
  -- The header is sent directly only within the two limits.
  pub record WithinLimits (settings : ScopeDeliveryProperties) (urn_count : ℕ) (header : Text)
      : Type 0 where
    pub urns : urn_count ≤ settings.direct_urn_limit
    pub bytes : len header ≤ settings.max_direct_header_bytes

  stored_token-eq :
      (text : Text) (out : Result Text (Unit {0}) × S) (delivery : AccessDelivery) (after : S)
      → stored_token crypto serde cache text out ≡ (ok delivery, after)
      → (out ≡ (ok tt, after)) × (delivery ≡ token text)
  stored_token-eq text (ok _, state) delivery after h =
      (λ i. (ok tt, (h i).1), sym (ok_inj (ap (λ p. p.0) h)))
  stored_token-eq text (err _, state) delivery after h = let c = ap (λ p. p.0) h in cc

  checked_scope-ok :
      (cache_later : ScopeCache S) (later : ℕ) (encoded : Text) (context : AccessContext)
      → decode crypto serde later encoded ≡ ok context
      → checked_scope crypto serde cache_later later encoded ≡ ok encoded
  checked_scope-ok cache_later later encoded context h = rw (h, checked_scope) refl

  -- What a token stands for.
  pub record IsStored (settings : ScopeDeliveryProperties) (context : AccessContext) (now : ℕ)
      (bytes : Bytes) (delivery : AccessDelivery) (state after : S) : Type 0 where
    pub encoded : Text
    pub encodes :
        encode crypto serde
          (new_context (input_of crypto serde cache context) now settings.scope_token_ttl)
        ≡ some encoded
    pub stores :
        cache.store_scope (new_scope_token crypto bytes) encoded settings.scope_token_ttl state
        ≡ (ok tt, after)
    pub is_token : delivery ≡ token (new_scope_token crypto bytes)

  token_delivery-IsStored :
      (settings : ScopeDeliveryProperties) (context : AccessContext) (now : ℕ) (bytes : Bytes)
      (state after : S) (delivery : AccessDelivery)
      → token_delivery crypto serde cache settings context now bytes state ≡ (ok delivery, after)
      → IsStored settings context now bytes delivery state after
  unfolding token_delivery
  token_delivery-IsStored settings context now bytes state after delivery h =
      elim (Option-cases (
        encode crypto serde
          (new_context (input_of crypto serde cache context) now settings.scope_token_ttl))) [
            | inl failed ↦ let c = ap (λ p. p.0) (rw (failed, token_delivery) at h) in cc
            | inr (encoded, e) ↦
                let (stores, is_token) =
                  stored_token-eq (new_scope_token crypto bytes) _ delivery after
                    (rw (e, token_delivery) at h) in
                record { encoded = encoded; encodes = e; stores = stores; is_token = is_token }
          ]

  -- The service that shows the token gets the context that was delivered, with the same principal,
  -- action, resource and scope, as long as the context is current and the cache keeps it: the token has
  -- the form that is asked for, the cache has the context, and the context decodes.
  pub resolve_scope-token_delivery :
      (cache_later : ScopeCache S) (settings : ScopeDeliveryProperties) (context : AccessContext)
      (now later : ℕ) (bytes : Bytes) (state after : S) (delivery : AccessDelivery)
      → IsUrlSafe crypto
      → KeepsScopes cache cache_later settings.scope_token_ttl state
      → IsTokenText crypto bytes
      → ReadsBack crypto serde
          (new_context (input_of crypto serde cache context) now settings.scope_token_ttl)
      → IsCurrent
          (new_context (input_of crypto serde cache context) now settings.scope_token_ttl)
          later
      → token_delivery crypto serde cache settings context now bytes state ≡ (ok delivery, after)
      → (encoded : Text) × (delivery ≡ token (new_scope_token crypto bytes))
        × ((resolve_scope crypto serde cache_later later (new_scope_token crypto bytes) after).0
            ≡ ok encoded)
        × (decode crypto serde later encoded
            ≡ ok (new_context (input_of crypto serde cache context) now settings.scope_token_ttl))
  unfolding resolve_scope encode decode
  resolve_scope-token_delivery cache_later settings context now later bytes state after delivery
        safe keeps form reads current h =
      let s = token_delivery-IsStored settings context now bytes state after delivery h in
      let made = new_context (input_of crypto serde cache context) now settings.scope_token_ttl in
      let (rest, loaded) = keeps.kept _ _ _ s.stores in
      elim (Option-cases (serde.to_vec made)) [
        | inl failed ↦ let clash = rw (failed, encode) at s.encodes in cc
        | inr (json, e) ↦
            let same : crypto.encode json ≡ s.encoded = some_inj (rw (e, encode) at s.encodes) in
            let read : crypto.decode s.encoded ≡ some json =
              subst (λ t. crypto.decode t ≡ some json) same (safe.decoded json) in
            let decodes : decode crypto serde later s.encoded ≡ ok made =
              rw (read, decode, reads.read json e, (validate_iff made later).1 current) refl in
            (
              s.encoded,
              s.is_token,
              rw (new_scope_token-valid crypto bytes form, resolve_scope, loaded)
                  (checked_scope-ok cache_later later s.encoded made decodes),
              decodes,
            )
      ]

-- ===== src/Adapter/AccessLaws.antt =====
-- What a service sees is what the gateway decided.
use authguard.Base.{ℕ, ◌≡◌, refl, false, Option, some, Text, is_empty, ok, bind-eq-ok}
use authguard.Access.Signer.{Bytes, Crypto, AccessContextSigner, sign_encoded, verify}
use authguard.Access.SignerLaws.{IsUrlSafe}
use authguard.Access.Context.{AccessContext, Json, new_context, encode}
use authguard.Access.Lifetime.{IsCurrent, ReadsBack, decode-encode}
use authguard.Delivery.Check.{
  ScopeCache, ScopeDeliveryProperties, ScopeStatus, AccessDelivery, new_scope_token, input_of,
  token_delivery, resolve_scope,
}
use authguard.Delivery.ScopeTokens.{KeepsScopes, IsTokenText, resolve_scope-token_delivery}
use authguard.Delivery.Response.{access_context_header, scope_token_header}
use authguard.Adapter.Access.{
  RequestAccess, from_context, header_resolve, grpc_resolve, client_resolve_scope,
}

-- What a service is meant to see of a context: each part under its own name.
abbrev pub seen_from : AccessContext → RequestAccess
seen_from context = record {
  principal_id = context.principal_id;
  action = context.action;
  resource_urn = context.resource_urn;
  grants = record {
    allow_resource_urns = context.allow_resource_urns;
    deny_resource_urns = context.deny_resource_urns;
  };
}

module _ (crypto : Crypto) (serde : Json) where
  -- A context that the gateway signs and puts into the header of a request gives the service the
  -- principal, the action, the resource and the grants that it was made of, while it is current and the
  -- two share the key.
  pub header_resolve-sign_encoded :
      (signer : AccessContextSigner) (context : AccessContext) (encoded signed : Text) (now : ℕ)
      (header : Text → Option Text)
      → IsUrlSafe crypto
      → ReadsBack crypto serde context
      → encode crypto serde context ≡ some encoded
      → sign_encoded crypto signer encoded ≡ ok signed
      → is_empty signed ≡ false
      → IsCurrent context now
      → header access_context_header ≡ some signed
      → header_resolve crypto serde now signer header ≡ ok (some (seen_from context))
  unfolding header_resolve from_context
  header_resolve-sign_encoded signer context encoded signed now header safe reads written is_signed
        filled current sent =
      let arrived =
        decode-encode crypto serde signer context encoded signed now safe reads written is_signed
          current in
      let (payload, verified, decoded) = bind-eq-ok (verify crypto signer signed) _ arrived in
      rw (sent, filled, verified, decoded) refl

  module _ {S : Type 0} (cache cache_later : ScopeCache S)
      (text : ScopeStatus crypto serde cache_later → Text) where
    -- A scope that the gateway delivers by a token gives the service that resolves the token at the
    -- gateway the same principal, action, resource and grants, while the context is current and the cache,
    -- which no one uses in between, still has what was stored.
    pub grpc_resolve-token_delivery :
        (settings : ScopeDeliveryProperties) (context : AccessContext) (now later : ℕ)
        (bytes : Bytes) (state after : S) (delivery : AccessDelivery) (header : Text → Option Text)
        → IsUrlSafe crypto
        → KeepsScopes cache cache_later settings.scope_token_ttl state
        → IsTokenText crypto bytes
        → ReadsBack crypto serde
            (new_context (input_of crypto serde cache context) now settings.scope_token_ttl)
        → IsCurrent
            (new_context (input_of crypto serde cache context) now settings.scope_token_ttl)
            later
        → token_delivery crypto serde cache settings context now bytes state ≡ (ok delivery, after)
        → header scope_token_header ≡ some (new_scope_token crypto bytes)
        → grpc_resolve crypto serde later
            (λ shown.
              client_resolve_scope text
                (resolve_scope crypto serde cache_later later shown after).0)
            header
          ≡ ok (some (seen_from context))
    unfolding grpc_resolve from_context client_resolve_scope new_context new_scope_token
    grpc_resolve-token_delivery settings context now later bytes state after delivery header safe
          keeps form reads current h sent =
        let (encoded, delivered, resolved, decoded) =
          resolve_scope-token_delivery crypto serde cache cache_later settings context now later
            bytes state after delivery safe keeps form reads current h in
        rw (sent, resolved, decoded) refl

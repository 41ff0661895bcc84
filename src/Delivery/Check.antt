-- ===== src/Delivery/Check.antt =====
-- Failures of a check, and the delivery of its scope: `CheckFailure`, `prepare_delivery` and
-- `resolve_scope` of src/authz/src/handler/authorization.rs.
use authguard.Base.{
  ℕ, ◌+◌, Bool, false, not, ◌||◌, ◌&&◌, Option, none, some, [], ◌∷◌, ◌++◌, Text, codes, len, leb,
  eqb, all, Result, ok, err, if◌then◌else◌,
}
use authguard.Access.Signer.{Bytes, Crypto, AccessContextSigner, sign_encoded}
use authguard.Access.Context.{AccessContext, AccessContextInput, Json, new_context, encode, decode}

-- The codes that are used.
pub data HttpStatusCode : Type 0 where
  bad_request unauthorized forbidden internal_server_error service_unavailable : HttpStatusCode

pub record CheckFailure : Type 0 where
  pub status : HttpStatusCode
  pub metric_reason : Text
  pub code : Text
  pub message : Text

abbrev pub context_encoding : CheckFailure
context_encoding = record {
  status = internal_server_error;
  metric_reason = codes "invalid request";
  code = codes "context_encoding_failed";
  message = codes "failed to create trusted access context";
}

abbrev pub scope_cache_unavailable : CheckFailure
scope_cache_unavailable = record {
  status = service_unavailable;
  metric_reason = codes "scope cache unavailable";
  code = codes "scope_cache_unavailable";
  message = codes "authorization scope is temporarily unavailable";
}

abbrev pub invalid_identity_expiry : CheckFailure
invalid_identity_expiry = record {
  status = unauthorized;
  metric_reason = codes "invalid identity";
  code = codes "invalid_identity_expiry";
  message = codes "trusted identity token expiry is missing or expired";
}

abbrev pub resign_unavailable : CheckFailure
resign_unavailable = record {
  status = service_unavailable;
  metric_reason = codes "resign unavailable";
  code = codes "resign_unavailable";
  message = codes "trusted upstream identity could not be issued";
}

pub data AccessDelivery : Type 0 where
  direct token : Text → AccessDelivery

-- The trait `IAuthorizationCache` over its state: `store_scope` and `load_scope`.
pub record ScopeCache (S : Type 0) : Type 0 where
  pub store_scope : Text → Text → ℕ → S → Result Text (Unit {0}) × S
  pub load_scope : Text → S → Result Text (Option Text) × S

-- The settings of the delivery; a duration is counted in nanoseconds.
pub record ScopeDeliveryProperties : Type 0 where
  pub direct_urn_limit : ℕ
  pub max_direct_header_bytes : ℕ
  pub direct_context_hmac_key : Text
  pub context_ttl : ℕ
  pub scope_token_ttl : ℕ

abbrev pub scope_token_prefix : Text
scope_token_prefix = codes "ags_"

-- `new_scope_token` on the bytes that were drawn
unfoldable pub new_scope_token : Crypto → Bytes → Text
new_scope_token crypto bytes = scope_token_prefix ++ crypto.encode bytes

abbrev pub between : ℕ → ℕ → ℕ → Bool
between low high c = leb low c && leb c high

abbrev pub is_token_char : ℕ → Bool
is_token_char c =
    between b'a' b'z' c || between b'A' b'Z' c || between b'0' b'9' c || eqb c b'-' || eqb c b'_'

-- `token[SCOPE_TOKEN_PREFIX.len()..]` behind the prefix; none when it does not begin so.
abbrev pub after_prefix : Text → Text → Option Text
after_prefix [] text = some text
after_prefix (c ∷ prefix) [] = none
after_prefix (c ∷ prefix) (d ∷ text) = if eqb c d then after_prefix prefix text else none

unfoldable pub valid_scope_token : Text → Bool
valid_scope_token text =
    eqb (len text) (len scope_token_prefix + 43) && elim (after_prefix scope_token_prefix text) [
      | none ↦ false
      | some rest ↦ all is_token_char rest
    ]

module _ {S : Type 0} (crypto : Crypto) (serde : Json) (cache : ScopeCache S) where
  -- The input of the second context is the first one's.
  abbrev pub input_of : AccessContext → AccessContextInput
  input_of context = record {
    principal_id = context.principal_id;
    action = context.action;
    resource_urn = context.resource_urn;
    allow_resource_urns = context.allow_resource_urns;
    deny_resource_urns = context.deny_resource_urns;
    policy_revision = context.policy_revision;
  }

  abbrev pub stored_token :
      Text → Result Text (Unit {0}) × S → Result CheckFailure AccessDelivery × S
  stored_token text (ok _, state) = (ok (token text), state)
  stored_token text (err _, state) = (err scope_cache_unavailable, state)

  -- `prepare_delivery` where the direct header is too large
  unfoldable pub token_delivery :
      ScopeDeliveryProperties
      → AccessContext
      → ℕ
      → Bytes
      → S
      → Result CheckFailure AccessDelivery × S
  unfolding new_scope_token
  token_delivery settings direct_context now bytes state =
      elim (encode crypto serde
        (new_context (input_of direct_context) now settings.scope_token_ttl)) [
          | none ↦ (err context_encoding, state)
          | some encoded ↦
              let text = new_scope_token crypto bytes in
              stored_token text (cache.store_scope text encoded settings.scope_token_ttl state)
        ]

  unfoldable pub prepare_delivery :
      ScopeDeliveryProperties
      → AccessContextSigner
      → AccessContext
      → ℕ
      → ℕ
      → Bytes
      → S
      → Result CheckFailure AccessDelivery × S
  unfolding token_delivery
  prepare_delivery settings signer direct_context urn_count now bytes state =
      elim (encode crypto serde direct_context) [
        | none ↦ (err context_encoding, state)
        | some payload ↦ elim (sign_encoded crypto signer payload) [
          | err _ ↦ (err context_encoding, state)
          | ok direct_encoded ↦
              if leb urn_count settings.direct_urn_limit
                && leb (len direct_encoded) settings.max_direct_header_bytes
              then (ok (direct direct_encoded), state)
              else token_delivery settings direct_context now bytes state
        ]
      ]

  pub data ScopeStatus : Type 0 where
    invalid_argument unauthenticated unavailable : ScopeStatus

  abbrev pub checked_scope : ℕ → Text → Result ScopeStatus Text
  checked_scope now encoded = elim (decode crypto serde now encoded) [
    | ok _ ↦ ok encoded
    | err _ ↦ err unauthenticated
  ]

  abbrev pub loaded_scope : ℕ → Result Text (Option Text) × S → Result ScopeStatus Text × S
  loaded_scope now (ok (some encoded), state) = (checked_scope now encoded, state)
  loaded_scope now (ok none, state) = (err unauthenticated, state)
  loaded_scope now (err _, state) = (err unavailable, state)

  -- `resolve_scope`; `now` is what `decode` reads.
  unfoldable pub resolve_scope : ℕ → Text → S → Result ScopeStatus Text × S
  unfolding valid_scope_token
  resolve_scope now text state =
      if not (valid_scope_token text)
      then (err invalid_argument, state)
      else loaded_scope now (cache.load_scope text state)

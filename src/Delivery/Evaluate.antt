-- ===== src/Delivery/Evaluate.antt =====
-- `request_identity`, `source_token_expiry`, `evaluate_request`, `allowed` and `check` of
-- src/authz/src/handler/authorization.rs. Metrics, spans and logs are left out. The principals are read
-- from the database, the policy from the runtime catalog, and the scope cache changes.
use authguard.Base.{
  ℕ, Option, none, some, List, ◌∷◌, Text, codes, lookup, split, Result, ok, ◌>>=◌, ok_or, map_err,
  if◌then◌else◌,
}
use authguard.Http.{ResolvedHttpRoute}
use authguard.Model.{AuthorizationRequest, AuthorizationDecision, AuthorizationScope}
use authguard.Model.Condition.{Net, EvaluationContext}
use authguard.Access.Signer.{Bytes, Crypto, AccessContextSigner}
use authguard.Policy.Catalog
use authguard.Policy.Catalog.{CompiledPolicy}
use authguard.Identity.Json.{Object, Serde, as_u64, as_object}
use authguard.Identity.Headers.{HttpTypes, and_then, gateway_token}
use authguard.Identity.Claims.{AuthenticatedPrincipalContext, decode_payload, from_gateway_headers}
use authguard.Principals.Store.{PrincipalRepository}
use authguard.Principals.Resolve.{ResolvedRequestPrincipal, resolve_request}
use authguard.Delivery.Check.{CheckFailure, invalid_identity_expiry, ScopeDeliveryProperties}
use authguard.Delivery.Failure.{principal_failure, identity_failure, route_failure}
use authguard.Delivery.Request.{WorkloadRequest}

pub record IdentityProperties : Type 0 where
  pub token_header : Text
  pub principal_id_claim : Text
  pub principal_kind_claim : Text
  pub groups_claim : Text

-- The fixed parts of `DefaultAuthorizationHandler`; `resign` is the longest time of a token.
pub record DefaultAuthorizationHandler : Type 0 where
  pub identity : IdentityProperties
  pub scope_delivery : ScopeDeliveryProperties
  pub direct_context_signer : AccessContextSigner
  pub resign : Option ℕ

pub record RequestEvaluation : Type 0 where
  pub principal_id : Text
  pub route : ResolvedHttpRoute
  pub decision : AuthorizationDecision
  pub authorization_scope : Option AuthorizationScope
  pub policy_revision : ℕ
  pub identity : AuthenticatedPrincipalContext
  pub source_expires_at_epoch_seconds : Option ℕ

-- `split('.').nth(1)`
abbrev pub second : List Text → Option Text
second (header ∷ payload ∷ rest) = some payload
second _ = none

abbrev pub expiry_claim : Object → Option ℕ
expiry_claim claims = and_then (lookup (codes "exp") claims) as_u64

abbrev pub evaluation_context :
    {Addr : Type 0} → WorkloadRequest Addr → AuthenticatedPrincipalContext → EvaluationContext Addr
evaluation_context request identity = record {
  source_ip = request.source_ip;
  request_method = some request.method;
  secure_transport = some request.secure_transport;
  claims = identity.trusted_claims;
}

abbrev pub authorization_request :
    {Addr : Type 0}
    → WorkloadRequest Addr
    → AuthenticatedPrincipalContext
    → ResolvedRequestPrincipal
    → ResolvedHttpRoute
    → AuthorizationRequest Addr
authorization_request request identity resolved route = record {
  principal_id = resolved.principal_id;
  group_principal_ids = resolved.group_principal_ids;
  action = route.action;
  resource_urn = route.resource_urn;
  parent_urns = route.parent_urns;
  context = evaluation_context request identity;
}

module _ {Addr Cidr : Type 0} (net : Net Addr Cidr) (http : HttpTypes) (crypto : Crypto)
    (decode_padded : Text → Option Bytes) (serde : Serde)
    (handler : DefaultAuthorizationHandler) where
  unfoldable pub request_identity :
      WorkloadRequest Addr → Result CheckFailure AuthenticatedPrincipalContext
  unfolding from_gateway_headers
  request_identity request = map_err identity_failure (
      from_gateway_headers serde crypto decode_padded http request.headers
        handler.identity.token_header handler.identity.principal_id_claim
        handler.identity.principal_kind_claim handler.identity.groups_claim)

  -- The expiry in the payload of a token
  abbrev pub token_expiry : Text → Option ℕ
  token_expiry token = and_then (second (split b'.' token)) (λ encoded.
      and_then (decode_payload serde crypto decode_padded encoded) (λ payload.
        and_then (serde.from_slice payload) (λ claims. and_then (as_object claims) expiry_claim)))

  abbrev pub expiry_of_request : Option ℕ → WorkloadRequest Addr → Result CheckFailure (Option ℕ)
  expiry_of_request none request = ok none
  expiry_of_request (some max_ttl) request = do
    token ←
        ok_or invalid_identity_expiry
          (gateway_token http request.headers handler.identity.token_header)
    expires_at ← ok_or invalid_identity_expiry (token_expiry token)
    ok (some expires_at)

  unfoldable pub source_token_expiry : WorkloadRequest Addr → Result CheckFailure (Option ℕ)
  source_token_expiry request = expiry_of_request handler.resign request

  module _ {Db : Type 0} (repository : PrincipalRepository Db) where
    -- The end of `evaluate_request`, where the principals and the route are known.
    abbrev pub evaluation :
        CompiledPolicy Cidr
        → WorkloadRequest Addr
        → AuthenticatedPrincipalContext
        → Option ℕ
        → ResolvedRequestPrincipal
        → ResolvedHttpRoute
        → RequestEvaluation
    evaluation catalog request identity source_expiry resolved route =
        let context = evaluation_context request identity in
        let decision =
          Catalog.authorize net catalog (authorization_request request identity resolved route) in
        record {
          principal_id = resolved.principal_id;
          route = route;
          decision = decision;
          authorization_scope =
              if decision.allowed
              then some (
                  Catalog.authorization_scope net catalog resolved.principal_id
                    resolved.group_principal_ids route.action context)
              else none;
          policy_revision = catalog.policy.revision;
          identity = identity;
          source_expires_at_epoch_seconds = source_expiry;
        }

    unfoldable pub evaluate_request :
        CompiledPolicy Cidr → Db → WorkloadRequest Addr → Result CheckFailure RequestEvaluation
    unfolding request_identity source_token_expiry
    evaluate_request catalog db request = do
      identity ← request_identity request
      source_expiry ← source_token_expiry request
      resolved ← map_err principal_failure (resolve_request repository identity db)
      route ← map_err route_failure (
          Catalog.resolve_http_route net catalog request.method request.host request.path
            identity.trusted_claims)
      ok (evaluation catalog request identity source_expiry resolved route)

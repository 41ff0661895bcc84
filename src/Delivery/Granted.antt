-- ===== src/Delivery/Granted.antt =====
-- What stands behind an answer of `check` that lets a request through.
use authguard.Base.{ℕ, ◌+◌, ◌≡◌, true, Option, some, Text, length, ok}
use authguard.Http.{ResolvedHttpRoute}
use authguard.Model.{AuthorizationScope, AuthorizationRequest}
use authguard.Model.Condition.{Net}
use authguard.Access.Signer.{Bytes, Crypto}
use authguard.Access.Context.{AccessContext, Json}
use authguard.Cache.Memory.{saturating_add, as_secs}
use authguard.Urn.Exact
use authguard.Model.Condition.{EvaluationContext}
use authguard.Policy.Catalog
use authguard.Policy.Catalog.{CompiledPolicy}
use authguard.Identity.Json.{Serde}
use authguard.Identity.Headers.{HttpTypes}
use authguard.Identity.Claims.{AuthenticatedPrincipalContext}
use authguard.Principals.Store.{PrincipalRepository}
use authguard.Principals.Resolve.{ResolvedRequestPrincipal}
use authguard.Principals.ResolveLaws.{FindsStored, Resolved}
use authguard.Delivery.Check.{AccessDelivery, ScopeCache, prepare_delivery}
use authguard.Delivery.Response.{CheckResponse, ok_response, allowed_http_response}
use authguard.Delivery.Resign.{Claims, resign_token}
use authguard.Delivery.Request.{CheckRequest, WorkloadRequest, try_from}
use authguard.Delivery.Evaluate.{
  DefaultAuthorizationHandler, RequestEvaluation, request_identity, evaluation,
}
use authguard.Delivery.Authorize.{Surroundings, allowed}

module _ {S : Type 0} (crypto : Crypto) (json : Json) (cache : ScopeCache S)
    (sign : Claims → Option Text) (handler : DefaultAuthorizationHandler) where
  -- The context that a scope is meant to be delivered as, with each part spelled out.
  abbrev pub delivered_context : RequestEvaluation → AuthorizationScope → ℕ → AccessContext
  delivered_context evaluated scoped now = record {
    version = 3;
    principal_id = evaluated.principal_id;
    action = evaluated.route.action;
    resource_urn = Exact.to_string evaluated.route.resource_urn;
    allow_resource_urns = scoped.allow_resource_urns;
    deny_resource_urns = scoped.deny_resource_urns;
    policy_revision = evaluated.policy_revision;
    issued_at_epoch_seconds = now;
    expires_at_epoch_seconds = saturating_add now (as_secs handler.scope_delivery.context_ttl);
  }

  -- The scope was delivered, and the answer carries the delivery.
  pub record Delivered (evaluated : RequestEvaluation) (surroundings : Surroundings) (state : S)
      (answer : CheckResponse × S) : Type 0 where
    pub scoped : AuthorizationScope
    pub has_scope : evaluated.authorization_scope ≡ some scoped
    pub resign : Option Text
    pub resigned :
        resign_token sign handler.resign evaluated.identity evaluated.principal_id
          evaluated.source_expires_at_epoch_seconds surroundings.resign_now
        ≡ ok resign
    pub delivery : AccessDelivery
    pub prepared :
        prepare_delivery crypto json cache handler.scope_delivery handler.direct_context_signer
          (delivered_context evaluated scoped surroundings.now)
          (length scoped.allow_resource_urns + length scoped.deny_resource_urns)
          surroundings.now
          surroundings.drawn
          state
        ≡ (ok delivery, answer.1)
    pub answered_with :
        answer.0.http
        ≡ ok_response (allowed_http_response handler.identity.token_header delivery resign)

  module _ {Addr Cidr Db : Type 0} (net : Net Addr Cidr) (parse_ip : Text → Option Addr)
      (http : HttpTypes) (decode_padded : Text → Option Bytes) (serde : Serde)
      (repository : PrincipalRepository Db) (laws : FindsStored repository) where
    -- The evaluation of a request, step by step.
    pub record Evaluated (catalog : CompiledPolicy Cidr) (db : Db) (input : WorkloadRequest Addr)
        (done : RequestEvaluation) : Type 0 where
      pub identity : AuthenticatedPrincipalContext
      pub identified :
          request_identity net http crypto decode_padded serde handler input ≡ ok identity
      pub source_expiry : Option ℕ
      pub resolved : ResolvedRequestPrincipal
      pub principals : Resolved repository laws identity db resolved
      pub route : ResolvedHttpRoute
      pub routed :
          Catalog.resolve_http_route net catalog input.method input.host input.path
            identity.trusted_claims
          ≡ ok route
      pub is_principal : done.principal_id ≡ resolved.principal_id
      pub is_route : done.route ≡ route
      pub is_identity : done.identity ≡ identity
      pub is_revision : done.policy_revision ≡ catalog.policy.revision
      pub evaluation_of :
          done
          ≡ evaluation net http crypto decode_padded serde handler repository catalog input identity
              source_expiry resolved route

    -- What the conditions of a binding are meant to see of a request.
    abbrev pub seen_context :
        WorkloadRequest Addr → AuthenticatedPrincipalContext → EvaluationContext Addr
    seen_context input identity = record {
      source_ip = input.source_ip;
      request_method = some input.method;
      secure_transport = some input.secure_transport;
      claims = identity.trusted_claims;
    }

    -- The question that the catalog is meant to be asked: the principal with all its groups, and the
    -- action and the resource of the route with its parents.
    abbrev pub asked :
        WorkloadRequest Addr
        → AuthenticatedPrincipalContext
        → ResolvedRequestPrincipal
        → ResolvedHttpRoute
        → AuthorizationRequest Addr
    asked input identity resolved route = record {
      principal_id = resolved.principal_id;
      group_principal_ids = resolved.group_principal_ids;
      action = route.action;
      resource_urn = route.resource_urn;
      parent_urns = route.parent_urns;
      context = seen_context input identity;
    }

    -- Everything that an answer of success rests on.
    pub record Granted (catalog : CompiledPolicy Cidr) (db : Db) (request : CheckRequest)
        (surroundings : Surroundings) (state : S) (answer : CheckResponse × S) : Type 0 where
      pub input : WorkloadRequest Addr
      pub read : try_from http parse_ip request ≡ ok input
      pub done : RequestEvaluation
      pub evaluated : Evaluated catalog db input done
      pub decision_allowed :
          (Catalog.authorize net catalog
            (asked input evaluated.identity evaluated.resolved evaluated.route)).allowed
          ≡ true
      pub delivered : Delivered done surroundings state answer
      pub delivered_scope :
          delivered.scoped
          ≡ Catalog.authorization_scope net catalog evaluated.resolved.principal_id
              evaluated.resolved.group_principal_ids evaluated.route.action
              (seen_context input evaluated.identity)

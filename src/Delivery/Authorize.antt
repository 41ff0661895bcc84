-- ===== src/Delivery/Authorize.antt =====
-- `allowed` and `check` of src/authz/src/handler/authorization.rs. The clock is read once, and once more
-- for the token that is signed anew; the bytes of a scope token are drawn before.
use authguard.Base.{ℕ, ◌+◌, Option, none, some, Text, codes, length, Result, ok, err, if◌then◌else◌}
use authguard.Model.{AuthorizationScope}
use authguard.Model.Condition.{Net}
use authguard.Urn.Exact
use authguard.Access.Signer.{Bytes, Crypto}
use authguard.Access.Context.{AccessContext, Json, new_context}
use authguard.Policy.Catalog.{CompiledPolicy}
use authguard.Identity.Json.{Serde}
use authguard.Identity.Headers.{HttpTypes}
use authguard.Principals.Store.{PrincipalRepository}
use authguard.Delivery.Check.{
  bad_request, forbidden, internal_server_error, CheckFailure, AccessDelivery, ScopeCache,
  prepare_delivery,
}
use authguard.Delivery.Response.{CheckResponse, ok_code, ok_response, denied, allowed_http_response}
use authguard.Delivery.Resign.{Claims, resign_token}
use authguard.Delivery.Request.{CheckRequest, WorkloadRequest, try_from}
use authguard.Delivery.Evaluate.{DefaultAuthorizationHandler, RequestEvaluation, evaluate_request}

-- What a check reads from its surroundings.
pub record Surroundings : Type 0 where
  pub now : ℕ
  pub resign_now : ℕ
  pub drawn : Bytes

abbrev pub failed : CheckFailure → CheckResponse
failed failure = denied failure.status failure.code failure.message

abbrev pub missing_scope : CheckResponse
missing_scope =
    denied internal_server_error (codes "invalid_authorization_result")
      (codes "authorization result did not contain a resource scope")

abbrev pub not_authorized : CheckResponse
not_authorized = denied forbidden (codes "authorization_denied") (codes "request is not authorized")

module _ {S : Type 0} (crypto : Crypto) (json : Json) (cache : ScopeCache S)
    (sign : Claims → Option Text) (handler : DefaultAuthorizationHandler) where
  -- The context of the delivery in `allowed`
  unfoldable pub context_of : RequestEvaluation → AuthorizationScope → ℕ → AccessContext
  unfolding new_context
  context_of evaluation scoped now =
      new_context
        (record {
          principal_id = evaluation.principal_id;
          action = evaluation.route.action;
          resource_urn = Exact.to_string evaluation.route.resource_urn;
          allow_resource_urns = scoped.allow_resource_urns;
          deny_resource_urns = scoped.deny_resource_urns;
          policy_revision = evaluation.policy_revision;
        })
        now handler.scope_delivery.context_ttl

  abbrev pub answered : Option Text → Result CheckFailure AccessDelivery × S → CheckResponse × S
  answered resign (err failure, state) = (failed failure, state)
  answered resign (ok delivery, state) = (
    record {
      status = ok_code;
      http = ok_response (allowed_http_response handler.identity.token_header delivery resign);
    },
    state,
  )

  abbrev pub with_scope :
      RequestEvaluation
      → AuthorizationScope
      → Surroundings
      → S
      → Result CheckFailure (Option Text)
      → CheckResponse × S
  with_scope evaluation scoped surroundings state (err failure) = (failed failure, state)
  with_scope evaluation scoped surroundings state (ok resign) = answered resign (
      prepare_delivery crypto json cache handler.scope_delivery handler.direct_context_signer
        (context_of evaluation scoped surroundings.now)
        (length scoped.allow_resource_urns + length scoped.deny_resource_urns) surroundings.now
        surroundings.drawn state)

  abbrev pub allowed_with :
      RequestEvaluation → Surroundings → S → Option AuthorizationScope → CheckResponse × S
  allowed_with evaluation surroundings state none = (missing_scope, state)
  allowed_with evaluation surroundings state (some scoped) =
      with_scope evaluation scoped surroundings state (
        resign_token sign handler.resign evaluation.identity evaluation.principal_id
          evaluation.source_expires_at_epoch_seconds surroundings.resign_now)

  unfoldable pub allowed : RequestEvaluation → Surroundings → S → CheckResponse × S
  unfolding context_of resign_token prepare_delivery
  allowed evaluation surroundings state =
      allowed_with evaluation surroundings state evaluation.authorization_scope

  -- The branches of `check` behind the reading of the request
  abbrev pub respond : Result CheckFailure RequestEvaluation → Surroundings → S → CheckResponse × S
  respond (err failure) surroundings state = (failed failure, state)
  respond (ok evaluation) surroundings state =
      if evaluation.decision.allowed
      then allowed evaluation surroundings state
      else (not_authorized, state)

  module _ {Addr Cidr Db : Type 0} (net : Net Addr Cidr) (parse_ip : Text → Option Addr)
      (http : HttpTypes) (decode_padded : Text → Option Bytes) (serde : Serde)
      (repository : PrincipalRepository Db) where
    abbrev pub check_input :
        CompiledPolicy Cidr
        → Db
        → Result Text (WorkloadRequest Addr)
        → Surroundings
        → S
        → CheckResponse × S
    check_input catalog db (err message) surroundings state =
        (denied bad_request (codes "invalid_request") message, state)
    check_input catalog db (ok input) surroundings state =
        respond
          (evaluate_request net http crypto decode_padded serde handler repository catalog db input)
          surroundings state

    unfoldable pub check :
        CompiledPolicy Cidr → Db → CheckRequest → Surroundings → S → CheckResponse × S
    unfolding allowed evaluate_request try_from
    check catalog db request surroundings state =
        check_input catalog db (try_from http parse_ip request) surroundings state

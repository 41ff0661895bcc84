-- ===== src/Delivery/Failure.antt =====
-- The failures of a check before its decision: `CheckFailure::principal`, `request_identity` and
-- `evaluate_request` of src/authz/src/handler/authorization.rs.
use authguard.Base.{codes}
use authguard.Http.{HttpMappingError, not_mapped}
use authguard.Identity.Claims.{IdentityError, missing}
use authguard.Principals.Store.{
  PrincipalHandlerError, not_found, disabled_principal, kind_mismatch, referenced, conflict,
  provider_unavailable, discovery, storage,
}
use authguard.Delivery.Check.{CheckFailure, unauthorized, forbidden, service_unavailable}

abbrev pub principal_disabled : CheckFailure
principal_disabled = record {
  status = forbidden;
  metric_reason = codes "principal disabled";
  code = codes "principal_disabled";
  message = codes "the authenticated principal is disabled";
}

abbrev pub unknown_principal : CheckFailure
unknown_principal = record {
  status = unauthorized;
  metric_reason = codes "unknown principal";
  code = codes "unknown_principal";
  message = codes "the authenticated principal is not registered";
}

abbrev pub principal_unavailable : CheckFailure
principal_unavailable = record {
  status = service_unavailable;
  metric_reason = codes "principal resolution unavailable";
  code = codes "principal_resolution_unavailable";
  message = codes "principal resolution is temporarily unavailable";
}

-- `CheckFailure::principal`
unfoldable pub principal_failure : PrincipalHandlerError → CheckFailure
principal_failure error = elim error [
  | disabled_principal _ ↦ principal_disabled
  | kind_mismatch _ ↦ principal_disabled
  | not_found _ ↦ unknown_principal
  | provider_unavailable ↦ unknown_principal
  | referenced _ ↦ principal_unavailable
  | conflict ↦ principal_unavailable
  | discovery _ ↦ principal_unavailable
  | storage _ ↦ principal_unavailable
]

abbrev pub identity_failure : IdentityError → CheckFailure
identity_failure missing = record {
  status = unauthorized;
  metric_reason = codes "missing identity";
  code = codes "missing_identity";
  message = codes "trusted identity token is required";
}
identity_failure _ = record {
  status = unauthorized;
  metric_reason = codes "invalid identity";
  code = codes "invalid_identity";
  message = codes "trusted identity token is invalid";
}

abbrev pub route_failure : HttpMappingError → CheckFailure
route_failure not_mapped = record {
  status = forbidden;
  metric_reason = codes "route not mapped";
  code = codes "route_not_mapped";
  message = codes "request route has no authorization mapping";
}
route_failure _ = record {
  status = forbidden;
  metric_reason = codes "invalid request";
  code = codes "invalid_route_mapping";
  message = codes "request route mapping is invalid";
}

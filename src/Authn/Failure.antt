-- ===== src/Authn/Failure.antt =====
-- `ApiError` of src/authn/src/handler/error.rs and the errors that become one. Logs are left out, and so
-- is `not_implemented`, which only the feature `web3` has.
use authguard.Base.{ℕ, Text, codes, ◌||◌, eqb, if◌then◌else◌}
use authguard.Authn.Linking.{
  AccountLinkingError, invalid_identity, authoritative_login_required, link_not_allowed,
  principal_disabled, already_bound, repository_failed,
}
use authguard.Authn.Token.{TokenError, signing_unavailable, invalid_token}
use authguard.Authn.Pipeline.{
  AuthenticationPipelineError, linking, token, step_up_principal_mismatch,
}

pub data ChallengeError : Type 0 where
  backend invalid_state : ChallengeError

-- The status is the number of the `StatusCode`.
pub record ApiError : Type 0 where
  pub status : ℕ
  pub code : Text
  pub message : Text

abbrev pub bad_request : Text → ApiError
bad_request message = record { status = 400; code = codes "invalid_request"; message = message }

abbrev pub unauthorized : Text → ApiError
unauthorized message = record {
  status = 401;
  code = codes "authentication_failed";
  message = message;
}

abbrev pub not_found : Text → ApiError
not_found message = record { status = 404; code = codes "not_found"; message = message }

abbrev pub conflict : Text → ApiError
conflict message = record { status = 409; code = codes "conflict"; message = message }

abbrev pub unavailable : Text → ApiError
unavailable message = record { status = 503; code = codes "service_unavailable"; message = message }

abbrev pub internal : Text → ApiError
internal message = record { status = 500; code = codes "internal_error"; message = message }

abbrev pub challenge : ChallengeError → ApiError
challenge invalid_state = bad_request (codes "invalid or expired challenge")
challenge backend = unavailable (codes "authentication challenge service is unavailable")

abbrev pub linking_rejected : ApiError
linking_rejected = record {
  status = 403;
  code = codes "account_linking_rejected";
  message = codes "account linking was rejected";
}

abbrev pub linking_failure : AccountLinkingError → ApiError
linking_failure (authoritative_login_required _) = linking_rejected
linking_failure (link_not_allowed _) = linking_rejected
linking_failure (principal_disabled _) = linking_rejected
linking_failure already_bound = conflict (codes "external identity is already linked")
linking_failure (invalid_identity _) = unavailable (codes "account linking is unavailable")
linking_failure (repository_failed _) = unavailable (codes "account linking is unavailable")

-- `ApiError::pipeline`
abbrev pub pipeline_failure : AuthenticationPipelineError → ApiError
pipeline_failure (linking error) = linking_failure error
pipeline_failure (token _) = internal (codes "canonical token could not be issued")
pipeline_failure step_up_principal_mismatch = record {
  status = 403;
  code = codes "step_up_rejected";
  message = codes "step-up authentication does not match the current Principal";
}

-- `ApiError::token`
abbrev pub token_failure : TokenError → ApiError
token_failure invalid_token = unauthorized (codes "valid AuthGuard token required")
token_failure signing_unavailable = internal (codes "canonical token verification is unavailable")

unfoldable pub metric_outcome : ApiError → Text
metric_outcome error =
    if eqb error.status 400 || eqb error.status 404
    then codes "invalid_request"
    else if eqb error.status 401 || eqb error.status 403
    then codes "rejected"
    else if eqb error.status 409
    then codes "conflict"
    else if eqb error.status 501
    then codes "unsupported"
    else if eqb error.status 503
    then codes "unavailable"
    else codes "error"

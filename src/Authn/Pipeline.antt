-- ===== src/Authn/Pipeline.antt =====
-- `AuthenticationPipeline` of src/authn/src/handler/authentication.rs.
use authguard.Base.{
  Option, Text, codes, ◌==◌, contains_key, not, Result, ok, err, ◌>>=◌, map_err, if◌then◌else◌, ℕ,
}
use authguard.Model.{PrincipalKind}
use authguard.Cache.Memory.{as_secs}
use authguard.Access.Signer.{Bytes, Crypto}
use authguard.Identity.Json.{Serde}
use authguard.Identity.Headers.{HttpTypes, HeaderMap}
use authguard.Identity.Claims.{AuthenticatedPrincipalContext}
use authguard.Identity.External.{AuthenticationResult, ExternalIdentityKey}
use authguard.Jwt.Signing.{Rsa}
use authguard.Authn.Linking.{
  IdentityBindingRepository, AccountLinkingProperties, AccountLinkingError, resolve_login,
  link_identity, rollback_identity_binding,
}
use authguard.Authn.Token.{TokenIssuer, TokenError, issue, authenticate_bearer, authenticate_cookie}
use authguard.Authn.Projection.{project_authorization_context}

-- The account-linking policy and the issuer; the repository is a parameter.
pub record AuthenticationPipeline (Key : Type 0) : Type 0 where
  pub policy : AccountLinkingProperties
  pub tokens : TokenIssuer Key

pub record IssuedAuthentication : Type 0 where
  pub access_token : Text
  pub expires_in : ℕ
  pub principal : AuthenticatedPrincipalContext

pub data AuthenticationPipelineError : Type 0 where
  linking : AccountLinkingError → AuthenticationPipelineError
  token : TokenError → AuthenticationPipelineError
  step_up_principal_mismatch : AuthenticationPipelineError

-- What an operation gives, and the database after it.
abbrev pub Piped : Type 0 → Type 0 → Type 0
Piped Db A = Result AuthenticationPipelineError A × Db

abbrev pub then_pure :
    {Db A B : Type 0} → Piped Db A → (A → Result AuthenticationPipelineError B) → Piped Db B
then_pure (outcome, db) next = (outcome >>= next, db)

abbrev pub as_piped : {Db A : Type 0} → Result AccountLinkingError A × Db → Piped Db A
as_piped (outcome, db) = (map_err linking outcome, db)

module _ {Key Public Db : Type 0} (rsa : Rsa Key Public) (crypto : Crypto)
    (decode_padded : Text → Option Bytes) (serde : Serde)
    (repository : IdentityBindingRepository Db) (pipeline : AuthenticationPipeline Key) where
  -- `AuthenticationPipeline::issue`
  unfoldable pub issue_authentication :
      AuthenticationResult
      → AuthenticatedPrincipalContext
      → ℕ
      → Result AuthenticationPipelineError IssuedAuthentication
  unfolding project_authorization_context issue
  issue_authentication authentication resolved now = do
    let principal = project_authorization_context serde resolved authentication
    access_token ←
        map_err token
          (issue rsa crypto decode_padded serde pipeline.tokens principal authentication now)
    ok (record {
      access_token = access_token;
      expires_in = as_secs pipeline.tokens.config.ttl;
      principal = principal;
    })

  unfoldable pub login :
      Bytes → ℕ → AuthenticationResult → PrincipalKind → Db → Piped Db IssuedAuthentication
  unfolding resolve_login issue_authentication
  login random now authentication kind db =
      then_pure
        (as_piped (resolve_login repository pipeline.policy crypto random authentication kind db))
        (λ principal. issue_authentication authentication principal now)

  unfoldable pub link : ℕ → Text → AuthenticationResult → Db → Piped Db IssuedAuthentication
  unfolding link_identity issue_authentication
  link now principal_id authentication db =
      then_pure (as_piped (link_identity repository pipeline.policy principal_id authentication db))
        (λ principal. issue_authentication authentication principal now)

  abbrev pub same_principal :
      Text
      → AuthenticatedPrincipalContext
      → Result AuthenticationPipelineError AuthenticatedPrincipalContext
  same_principal principal_id principal =
      if not (principal.principal_id == principal_id)
      then err step_up_principal_mismatch
      else ok principal

  unfoldable pub resolve_step_up :
      Bytes
      → Text
      → AuthenticationResult
      → PrincipalKind
      → Db
      → Piped Db AuthenticatedPrincipalContext
  unfolding resolve_login
  resolve_step_up random principal_id authentication kind db =
      then_pure
        (as_piped (resolve_login repository pipeline.policy crypto random authentication kind db))
        (same_principal principal_id)

  unfoldable pub verify_step_up :
      Bytes → Text → AuthenticationResult → PrincipalKind → Db → Piped Db (Unit {0})
  unfolding resolve_step_up
  verify_step_up random principal_id authentication kind db =
      then_pure (resolve_step_up random principal_id authentication kind db) (λ _. ok tt)

  unfoldable pub complete_step_up :
      Bytes → ℕ → Text → AuthenticationResult → PrincipalKind → Db → Piped Db IssuedAuthentication
  unfolding resolve_step_up issue_authentication
  complete_step_up random now principal_id authentication kind db =
      then_pure (resolve_step_up random principal_id authentication kind db)
        (λ principal. issue_authentication authentication principal now)

  unfoldable pub rollback_binding : Text → ExternalIdentityKey → Db → Piped Db (Unit {0})
  unfolding rollback_identity_binding
  rollback_binding principal_id identity_key db =
      as_piped (rollback_identity_binding repository pipeline.policy principal_id identity_key db)

  -- `authenticate_request_principal`: a bearer token goes before the cookie.
  unfoldable pub authenticate_request_principal : HttpTypes → HeaderMap → ℕ → Result TokenError Text
  unfolding authenticate_bearer authenticate_cookie
  authenticate_request_principal http headers now =
      if contains_key (codes "authorization") headers
      then authenticate_bearer rsa crypto decode_padded serde http pipeline.tokens headers now
      else (do
        principal ←
            authenticate_cookie rsa crypto decode_padded serde http pipeline.tokens headers now
        ok principal.principal_id)

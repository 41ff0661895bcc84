-- ===== src/Authn/Oauth2.antt =====
-- `OAuth2Handler` of src/authn/src/handler/oauth2.rs. Each operation gives its answer with the database
-- and the cache after it; metrics and logs are left out.
use authguard.Base.{
  ℕ, Bool, true, false, not, ◌&&◌, Option, none, some, List, [], Text, codes, ◌==◌, is_empty,
  lookup, Result, ok, err, ◌>>=◌, ok_or, map_err, if◌then◌else◌,
}
use authguard.Model.{PrincipalKind, user, group, same_kind}
use authguard.Access.Signer.{Bytes, Crypto}
use authguard.Identity.Json.{Serde}
use authguard.Identity.Headers.{HttpTypes, HeaderMap}
use authguard.Identity.External.{ExternalIdentity, AuthenticationResult}
use authguard.Jwt.Signing.{Rsa}
use authguard.Authn.Linking.{IdentityBindingRepository}
use authguard.Authn.Token.{authenticate_bearer}
use authguard.Authn.Pipeline.{AuthenticationPipeline, IssuedAuthentication, Piped, login, link}
use authguard.Authn.Failure.{
  ApiError, ChallengeError, bad_request, not_found, unavailable, challenge, pipeline_failure,
  token_failure,
}
use authguard.Authn.Challenge.{ICache, Codec, put_json, consume_json}
use authguard.Authn.Application.{Urls, ApplicationProperties, validate_destination}
use authguard.Authn.Provider.{
  ProviderError, ProviderRuntime, ProviderAuthorization, OAuthLikeCallback, provider_authentication,
}
use authguard.Authn.Login.{LoginResponse, login_response, Response, into_response, into_redirect}

pub record AuthorizeQuery : Type 0 where
  pub return_uri : Text
  pub return_to : Text

-- The destination, and whether it was given as `return_to`.
unfoldable pub return_destination : AuthorizeQuery → Result ApiError (Text × Bool)
return_destination query =
    if not (is_empty query.return_uri)
      && not (is_empty query.return_to)
      && not (query.return_uri == query.return_to)
    then err (bad_request (codes "return_uri and return_to must match when both are set"))
    else if is_empty query.return_to
    then ok (query.return_uri, false)
    else ok (query.return_to, true)

pub record CallbackQuery : Type 0 where
  pub code : Text
  pub state : Text

pub record TokenExchangeRequest : Type 0 where
  pub subject_token : Text
  pub kind : PrincipalKind

pub record OAuthChallenge : Type 0 where
  pub provider : Text
  pub return_uri : Text
  pub redirect_after_login : Bool
  pub nonce : Option Text
  pub pkce_verifier : Option Text
  pub link_principal_id : Option Text

abbrev pub oauth_challenge_purpose : Text
oauth_challenge_purpose = codes "oauth"

-- The providers, the applications of the configuration, the pipeline and the life of a challenge.
pub record OAuth2Handler (Key : Type 0) : Type 0 where
  pub providers : List (Text × ProviderRuntime)
  pub applications : List (Text × ApplicationProperties)
  pub pipeline : AuthenticationPipeline Key
  pub challenge_ttl : ℕ

-- What the clock and the random generator give to a request.
pub record Moment : Type 0 where
  pub authenticated_at : Option ℕ
  pub now : ℕ
  pub random : Bytes

abbrev pub provider_missing : ApiError
provider_missing = not_found (codes "authentication provider is not configured")

abbrev pub provider_error : ProviderError → ApiError
provider_error error = unavailable (codes "external identity provider authentication failed")

abbrev pub invalid_oauth_state : ApiError
invalid_oauth_state = bad_request (codes "invalid or expired OAuth state")

-- The challenge of a callback, which must be for its provider.
abbrev pub flow_of :
    Text → Result ChallengeError (Option OAuthChallenge) → Result ApiError OAuthChallenge
flow_of provider (err error) = err (challenge error)
flow_of provider (ok none) = err invalid_oauth_state
flow_of provider (ok (some flow)) =
    if flow.provider == provider then ok flow else err invalid_oauth_state

abbrev pub callback_request : ProviderRuntime → OAuthChallenge → Text → OAuthLikeCallback
callback_request runtime flow code = record {
  authorization_code = code;
  redirect_uri = runtime.callback_url;
  client_id = runtime.client_id;
  client_secret = runtime.client_secret;
  nonce = flow.nonce;
  pkce_verifier = flow.pkce_verifier;
}

-- `random_id` on the bytes that were drawn
abbrev pub random_id : Crypto → Bytes → Text
random_id crypto random = crypto.encode random

abbrev pub prepared :
    {Store : Type 0}
    → Text
    → Result ChallengeError (Unit {0}) × Store
    → Result ApiError Text × Store
prepared url (outcome, store) = (map_err challenge outcome >>= (λ _. ok url), store)

module _ {Key Public Db Url : Type 0} (rsa : Rsa Key Public) (crypto : Crypto)
    (decode_padded : Text → Option Bytes) (serde : Serde) (http : HttpTypes) (urls : Urls Url)
    (digest : Text → Text) (codec : Codec OAuthChallenge)
    (repository : IdentityBindingRepository Db) (handler : OAuth2Handler Key) where
  -- Everything before the challenge is stored.
  abbrev pub authorization_of :
      Text → HeaderMap → Text → Bool → Text → Result ApiError (Text × ProviderAuthorization)
  authorization_of provider headers return_uri redirect_after_login state_value = do
    destination ←
        validate_destination urls http
          (record { applications = handler.applications; headers = headers }) return_uri
          redirect_after_login
    runtime ← ok_or provider_missing (lookup provider handler.providers)
    authorization ←
        map_err provider_error
          (runtime.adapter.authorize runtime.client_id runtime.callback_url state_value)
    ok (destination, authorization)

  abbrev pub challenge_of :
      Text → Bool → Option Text → Text × ProviderAuthorization → OAuthChallenge
  challenge_of provider redirect_after_login link_principal_id (destination, authorization) =
      record {
        provider = provider;
        return_uri = destination;
        redirect_after_login = redirect_after_login;
        nonce = authorization.nonce;
        pkce_verifier = authorization.pkce_verifier;
        link_principal_id = link_principal_id;
      }

  -- The identity that the provider answers for the code.
  abbrev pub identity_of :
      Text → OAuthChallenge → Text → Result ApiError (ProviderRuntime × ExternalIdentity)
  identity_of provider flow code = do
    runtime ← ok_or provider_missing (lookup provider handler.providers)
    identity ←
        map_err provider_error (runtime.adapter.authenticate (callback_request runtime flow code))
    ok (runtime, identity)

  abbrev pub converge :
      Option Text → AuthenticationResult → Moment → Db → Piped Db IssuedAuthentication
  converge (some principal_id) authentication moment db =
      link rsa crypto decode_padded serde repository handler.pipeline moment.now principal_id
        authentication db
  converge none authentication moment db =
      login rsa crypto decode_padded serde repository handler.pipeline moment.random moment.now
        authentication user db

  abbrev pub respond : OAuthChallenge → IssuedAuthentication → Result ApiError Response
  respond flow issued =
      let response = login_response issued flow.return_uri in
      if flow.redirect_after_login
      then into_redirect http serde response
      else ok (into_response http serde response)

  abbrev pub responded :
      OAuthChallenge → Piped Db IssuedAuthentication → Result ApiError Response × Db
  responded flow (outcome, db) = (map_err pipeline_failure outcome >>= respond flow, db)

  abbrev pub with_identity :
      OAuthChallenge
      → Moment
      → Db
      → Result ApiError (ProviderRuntime × ExternalIdentity)
      → Result ApiError Response × Db
  with_identity flow moment db (err error) = (err error, db)
  with_identity flow moment db (ok (runtime, identity)) = responded flow (
      converge flow.link_principal_id
        (provider_authentication identity runtime.protocol moment.authenticated_at) moment db)

  -- A callback with its challenge.
  abbrev pub with_flow :
      Text → Text → Moment → Db → Result ApiError OAuthChallenge → Result ApiError Response × Db
  with_flow provider code moment db (err error) = (err error, db)
  with_flow provider code moment db (ok flow) =
      with_identity flow moment db (identity_of provider flow code)

  abbrev pub accepted : TokenExchangeRequest → Result ApiError (Unit {0})
  accepted request =
      if is_empty request.subject_token
      then err (bad_request (codes "subjectToken is required"))
      else if same_kind request.kind group
      then err (bad_request (codes "GROUP principals cannot authenticate with bearer tokens"))
      else ok tt

  abbrev pub bearer_identity :
      Text → TokenExchangeRequest → Result ApiError (ProviderRuntime × ExternalIdentity)
  bearer_identity provider request = do
    _ ← accepted request
    runtime ← ok_or provider_missing (lookup provider handler.providers)
    identity ←
        map_err provider_error
          (runtime.adapter.authenticate_bearer request.subject_token request.kind)
    ok (runtime, identity)

  abbrev pub answered : Piped Db IssuedAuthentication → Result ApiError LoginResponse × Db
  answered (outcome, after) =
      (map_err pipeline_failure outcome >>= (λ issued. ok (login_response issued [])), after)

  abbrev pub exchanged :
      PrincipalKind
      → Moment
      → Db
      → Result ApiError (ProviderRuntime × ExternalIdentity)
      → Result ApiError LoginResponse × Db
  exchanged kind moment db (err error) = (err error, db)
  exchanged kind moment db (ok (runtime, identity)) = answered (
      login rsa crypto decode_padded serde repository handler.pipeline moment.random moment.now
        (provider_authentication identity runtime.protocol moment.authenticated_at) kind db)

  unfoldable pub token_exchange :
      Text → TokenExchangeRequest → Moment → Db → Result ApiError LoginResponse × Db
  unfolding login provider_authentication login_response
  token_exchange provider request moment db =
      exchanged request.kind moment db (bearer_identity provider request)

  module _ {Store : Type 0} (cache : ICache Store) where
    abbrev pub store_challenge :
        Text
        → Bool
        → Option Text
        → Text
        → Store
        → Result ApiError (Text × ProviderAuthorization)
        → Result ApiError Text × Store
    store_challenge provider redirect_after_login link_principal_id state_value store (err error) =
        (err error, store)
    store_challenge provider redirect_after_login link_principal_id state_value store
          (ok (destination, authorization)) =
        prepared authorization.url (
          put_json digest cache codec oauth_challenge_purpose state_value
            (challenge_of provider redirect_after_login link_principal_id
              (destination, authorization))
            handler.challenge_ttl store)

    unfoldable pub prepare_authorization :
        Text → HeaderMap → Text → Bool → Option Text → Bytes → Store → Result ApiError Text × Store
    unfolding validate_destination put_json
    prepare_authorization provider headers return_uri redirect_after_login link_principal_id random
          store =
        let state_value = random_id crypto random in
        store_challenge provider redirect_after_login link_principal_id state_value store
          (authorization_of provider headers return_uri redirect_after_login state_value)

    abbrev pub prepare_destination :
        Text
        → HeaderMap
        → Option Text
        → Bytes
        → Store
        → Result ApiError (Text × Bool)
        → Result ApiError Text × Store
    prepare_destination provider headers link_principal_id random store (err error) =
        (err error, store)
    prepare_destination provider headers link_principal_id random store
          (ok (return_uri, redirect_after_login)) =
        prepare_authorization provider headers return_uri redirect_after_login link_principal_id
          random store

    unfoldable pub authorize :
        Text → AuthorizeQuery → HeaderMap → Bytes → Store → Result ApiError Text × Store
    unfolding return_destination prepare_authorization
    authorize provider query headers random store =
        prepare_destination provider headers none random store (return_destination query)

    abbrev pub link_for :
        Text
        → AuthorizeQuery
        → HeaderMap
        → Bytes
        → Store
        → Result ApiError Text
        → Result ApiError Text × Store
    link_for provider query headers random store (err error) = (err error, store)
    link_for provider query headers random store (ok principal_id) =
        prepare_destination provider headers (some principal_id) random store
          (return_destination query)

    unfoldable pub link_authorize :
        Text → AuthorizeQuery → HeaderMap → ℕ → Bytes → Store → Result ApiError Text × Store
    unfolding return_destination prepare_authorization authenticate_bearer
    link_authorize provider query headers now random store =
        link_for provider query headers random store (
          map_err token_failure (
            authenticate_bearer rsa crypto decode_padded serde http handler.pipeline.tokens headers
              now))

    abbrev pub called_back :
        Text
        → Text
        → Moment
        → Db
        → Result ChallengeError (Option OAuthChallenge) × Store
        → Result ApiError Response × (Db × Store)
    called_back provider code moment db (found, store) =
        let (answer, after) = with_flow provider code moment db (flow_of provider found) in
        (answer, (after, store))

    unfoldable pub callback :
        Text → CallbackQuery → Moment → Db → Store → Result ApiError Response × (Db × Store)
    unfolding consume_json login link provider_authentication into_redirect into_response
        login_response
    callback provider query moment db store =
        called_back provider query.code moment db
          (consume_json digest cache codec oauth_challenge_purpose query.state store)

-- ===== src/Authn/FlowLaws.antt =====
-- What a callback of OAuth that ends well has done.
use authguard.Base.{
  ℕ, ◌≡◌, refl, sym, ap, subst, ◌∙◌, inl, inr, Bool-cases, Option, none, some, some_inj, Text, ◌==◌,
  eq_iff, lookup, Result, ok, err, ok_inj, ok_or, map_err, map_err-eq-ok, bind-eq-ok, ok_or-eq-ok,
}
use authguard.Access.Signer.{Bytes, Crypto}
use authguard.Identity.Json.{Serde}
use authguard.Identity.Headers.{HttpTypes}
use authguard.Identity.External.{ExternalIdentity, AuthenticationResult}
use authguard.Jwt.Signing.{Rsa}
use authguard.Model.{user}
use authguard.Authn.Linking.{IdentityBindingRepository, resolve_login, link_identity}
use authguard.Authn.LinkingLaws.{KeepsBindings, IsBound, resolve_login-IsBound}
use authguard.Authn.LinkLaws.{link_identity-IsLinked}
use authguard.Authn.Token.{issue}
use authguard.Authn.Pipeline.{AuthenticationPipeline, IssuedAuthentication, Piped, login, link}
use authguard.Authn.PipelineLaws.{then_pure-eq-ok, issue_authentication-eq-ok}
use authguard.Authn.Failure.{ApiError, ChallengeError}
use authguard.Authn.Challenge.{ICache, Codec, consume_json}
use authguard.Authn.Application.{Urls}
use authguard.Authn.Provider.{ProviderRuntime, provider_authentication}
use authguard.Authn.Login.{Response}
use authguard.Authn.Oauth2.{
  OAuthChallenge, OAuth2Handler, Moment, CallbackQuery, provider_missing, provider_error,
  oauth_challenge_purpose, flow_of, callback_request, identity_of, converge, respond, responded,
  with_identity, with_flow, called_back, callback,
}

module _ {Key Public Db : Type 0} (rsa : Rsa Key Public) (crypto : Crypto)
    (decode_padded : Text → Option Bytes) (serde : Serde)
    (repository : IdentityBindingRepository Db) (pipeline : AuthenticationPipeline Key)
    (laws : KeepsBindings repository pipeline.policy) where
  login-IsBound :
      (random : Bytes) (now : ℕ) (authentication : AuthenticationResult) (db after : Db)
      (issued : IssuedAuthentication)
      → login rsa crypto decode_padded serde repository pipeline random now authentication user db
        ≡ (ok issued, after)
      → IsBound repository pipeline.policy authentication.external_identity after
          issued.principal.principal_id
        × (issue rsa crypto decode_padded serde pipeline.tokens issued.principal authentication now
            ≡ ok issued.access_token)
  unfolding login
  login-IsBound random now authentication db after issued h =
      let (resolved, e, h₁) =
        then_pure-eq-ok
          (resolve_login repository pipeline.policy crypto random authentication user db) _ after
          h in
      let (projected, issues, same) =
        issue_authentication-eq-ok rsa crypto decode_padded serde repository pipeline authentication
          resolved now issued h₁ in
      (
        subst (IsBound repository pipeline.policy authentication.external_identity after) (sym same)
            (resolve_login-IsBound repository pipeline.policy crypto laws random authentication user
              db after resolved e),
        issues,
      )

  link-IsBound :
      (now : ℕ) (principal_id : Text) (authentication : AuthenticationResult) (db after : Db)
      (issued : IssuedAuthentication)
      → link rsa crypto decode_padded serde repository pipeline now principal_id authentication db
        ≡ (ok issued, after)
      → IsBound repository pipeline.policy authentication.external_identity after
          issued.principal.principal_id
        × (issued.principal.principal_id ≡ principal_id)
        × (issue rsa crypto decode_padded serde pipeline.tokens issued.principal authentication now
            ≡ ok issued.access_token)
  unfolding link
  link-IsBound now principal_id authentication db after issued h =
      let (resolved, e, h₁) =
        then_pure-eq-ok (link_identity repository pipeline.policy principal_id authentication db) _
          after h in
      let (projected, issues, same) =
        issue_authentication-eq-ok rsa crypto decode_padded serde repository pipeline authentication
          resolved now issued h₁ in
      let linked =
        link_identity-IsLinked repository pipeline.policy laws principal_id authentication db after
          resolved e in
      let same_id = same ∙ linked.same_principal in
      (
        subst (IsBound repository pipeline.policy authentication.external_identity after)
            (sym same_id) linked.bound,
        same_id,
        issues,
      )

module _ {Key Public Db Url Store : Type 0} (rsa : Rsa Key Public) (crypto : Crypto)
    (decode_padded : Text → Option Bytes) (serde : Serde) (http : HttpTypes) (urls : Urls Url)
    (digest : Text → Text) (codec : Codec OAuthChallenge)
    (repository : IdentityBindingRepository Db) (handler : OAuth2Handler Key)
    (laws : KeepsBindings repository handler.pipeline.policy) (cache : ICache Store) where
  -- The course of a callback that ends well.
  pub record Completed (provider : Text) (query : CallbackQuery) (moment : Moment)
      (store later : Store) (after : Db) (response : Response) : Type 0 where
    pub flow : OAuthChallenge
    pub consumed :
        consume_json digest cache codec oauth_challenge_purpose query.state store
        ≡ (ok (some flow), later)
    pub same_provider : flow.provider ≡ provider
    pub runtime : ProviderRuntime
    pub configured : lookup provider handler.providers ≡ some runtime
    pub identity : ExternalIdentity
    pub proved :
        runtime.adapter.authenticate (record {
          authorization_code = query.code;
          redirect_uri = runtime.callback_url;
          client_id = runtime.client_id;
          client_secret = runtime.client_secret;
          nonce = flow.nonce;
          pkce_verifier = flow.pkce_verifier;
        })
        ≡ ok identity
    pub issued : IssuedAuthentication
    pub answered :
        respond rsa crypto decode_padded serde http urls digest codec repository handler flow issued
        ≡ ok response
    pub bound :
        IsBound repository handler.pipeline.policy
          (provider_authentication identity runtime.protocol
            moment.authenticated_at).external_identity
          after
          issued.principal.principal_id
    pub issues :
        issue rsa crypto decode_padded serde handler.pipeline.tokens issued.principal
          (provider_authentication identity runtime.protocol moment.authenticated_at)
          moment.now
        ≡ ok issued.access_token
    pub linked : (id : Text) → flow.link_principal_id ≡ some id → issued.principal.principal_id ≡ id

  flow_of-eq-ok :
      (provider : Text) (found : Result ChallengeError (Option OAuthChallenge))
      (flow : OAuthChallenge)
      → flow_of provider found ≡ ok flow
      → (found ≡ ok (some flow)) × (flow.provider ≡ provider)
  flow_of-eq-ok provider (err e) flow h = cc
  flow_of-eq-ok provider (ok none) flow h = cc
  flow_of-eq-ok provider (ok (some held)) flow h = elim (Bool-cases (held.provider == provider)) [
    | inr other ↦ cc (rw other at h)
    | inl same ↦
        let e : held ≡ flow = ok_inj (rw same at h) in
        (
          ap (λ f. ok (some f)) e,
          subst (λ f. f.provider ≡ provider) e ((eq_iff held.provider provider).0 same),
        )
  ]

  responded-eq-ok :
      (flow : OAuthChallenge) (piped : Piped Db IssuedAuthentication) (response : Response)
      (after : Db)
      → responded rsa crypto decode_padded serde http urls digest codec repository handler flow
          piped
        ≡ (ok response, after)
      → (issued : IssuedAuthentication) × (piped ≡ (ok issued, after))
        × (respond rsa crypto decode_padded serde http urls digest codec repository handler flow
              issued
            ≡ ok response)
  responded-eq-ok flow (err e, db) response after h = cc
  responded-eq-ok flow (ok issued, db) response after h =
      (issued, λ i. (ok issued, (h i).1), λ i. (h i).0)

  converge-IsBound :
      (link_to : Option Text) (authentication : AuthenticationResult) (moment : Moment)
      (db after : Db) (issued : IssuedAuthentication)
      → converge rsa crypto decode_padded serde http urls digest codec repository handler link_to
          authentication moment db
        ≡ (ok issued, after)
      → IsBound repository handler.pipeline.policy authentication.external_identity after
          issued.principal.principal_id
        × ((id : Text) → link_to ≡ some id → issued.principal.principal_id ≡ id)
        × (issue rsa crypto decode_padded serde handler.pipeline.tokens issued.principal
              authentication moment.now
            ≡ ok issued.access_token)
  converge-IsBound none authentication moment db after issued h =
      let (bound, issues) =
        login-IsBound rsa crypto decode_padded serde repository handler.pipeline laws moment.random
          moment.now authentication db after issued h in
      (bound, λ id e. cc, issues)
  converge-IsBound (some principal_id) authentication moment db after issued h =
      let (bound, same, issues) =
        link-IsBound rsa crypto decode_padded serde repository handler.pipeline laws moment.now
          principal_id authentication db after issued h in
      (bound, λ id e. same ∙ some_inj e, issues)

  with_identity-eq-ok :
      (flow : OAuthChallenge) (moment : Moment) (db after : Db)
      (found : Result ApiError (ProviderRuntime × ExternalIdentity)) (response : Response)
      → with_identity rsa crypto decode_padded serde http urls digest codec repository handler flow
          moment db found
        ≡ (ok response, after)
      → (runtime : ProviderRuntime) × (identity : ExternalIdentity) × (found
          ≡ ok (runtime, identity))
        × (issued : IssuedAuthentication) × (converge rsa crypto decode_padded serde http urls
              digest codec repository handler flow.link_principal_id
              (provider_authentication identity runtime.protocol moment.authenticated_at)
              moment
              db
            ≡ (ok issued, after))
        × (respond rsa crypto decode_padded serde http urls digest codec repository handler flow
              issued
            ≡ ok response)
  with_identity-eq-ok flow moment db after (err e) response h = cc
  with_identity-eq-ok flow moment db after (ok (runtime, identity)) response h =
      let (issued, e, answer) = responded-eq-ok flow _ response after h in
      (runtime, identity, refl, issued, e, answer)

  with_flow-eq-ok :
      (provider code : Text) (moment : Moment) (db after : Db)
      (found : Result ApiError OAuthChallenge) (response : Response)
      → with_flow rsa crypto decode_padded serde http urls digest codec repository handler provider
          code moment db found
        ≡ (ok response, after)
      → (flow : OAuthChallenge) × (found ≡ ok flow)
        × (with_identity rsa crypto decode_padded serde http urls digest codec repository handler
              flow moment db
              (identity_of rsa crypto decode_padded serde http urls digest codec repository handler
                provider flow code)
            ≡ (ok response, after))
  with_flow-eq-ok provider code moment db after (err e) response h = cc
  with_flow-eq-ok provider code moment db after (ok flow) response h = (flow, refl, h)

  called_back-eq-ok :
      (provider : Text) (query : CallbackQuery) (moment : Moment) (db after : Db)
      (store later : Store) (consumed : Result ChallengeError (Option OAuthChallenge) × Store)
      (response : Response)
      → consume_json digest cache codec oauth_challenge_purpose query.state store ≡ consumed
      → called_back rsa crypto decode_padded serde http urls digest codec repository handler cache
          provider query.code moment db consumed
        ≡ (ok response, (after, later))
      → Completed provider query moment store later after response
  called_back-eq-ok provider query moment db after store later (found, kept) response c h =
      let (flow, e₁, h₁) =
        with_flow-eq-ok provider query.code moment db after (flow_of provider found) response
          (λ i. ((h i).0, (h i).1.0)) in
      let (is_found, same_provider) = flow_of-eq-ok provider found flow e₁ in
      let (runtime, identity, e₂, issued, e₃, told) =
        with_identity-eq-ok flow moment db after _ response h₁ in
      let (held, e₄, h₄) =
        bind-eq-ok (ok_or provider_missing (lookup provider handler.providers)) _ e₂ in
      let (answer, e₅, h₅) =
        bind-eq-ok
          (map_err provider_error
            (held.adapter.authenticate (callback_request held flow query.code)))
          _ h₄ in
      let same : held ≡ runtime = ap (λ p. p.0) (ok_inj h₅) in
      let same_identity : answer ≡ identity = ap (λ p. p.1) (ok_inj h₅) in
      let (bound, linked, issues) =
        converge-IsBound flow.link_principal_id
          (provider_authentication identity runtime.protocol moment.authenticated_at) moment db
          after issued e₃ in
      record {
        flow = flow;
        consumed = c ∙ (λ i. (is_found i, (h i).1.1));
        same_provider = same_provider;
        runtime = runtime;
        configured = ok_or-eq-ok _ _ e₄ ∙ ap some same;
        identity = identity;
        proved =
            subst
              (λ (r : ProviderRuntime).
                r.adapter.authenticate (callback_request r flow query.code) ≡ ok identity)
              same (map_err-eq-ok _ _ e₅ ∙ ap ok same_identity);
        issued = issued;
        answered = told;
        bound = bound;
        issues = issues;
        linked = linked;
      }

  -- A callback that ends well has consumed a challenge for its provider, and the provider has proved an
  -- identity for the code under the nonce and the verifier of that challenge. The identity is bound to
  -- the active principal that the token is for, which is the one the challenge was made to link, where
  -- it names one; the answer is made of that token, which was issued for that principal.
  pub callback-Completed :
      (provider : Text) (query : CallbackQuery) (moment : Moment) (db after : Db)
      (store later : Store) (response : Response)
      → callback rsa crypto decode_padded serde http urls digest codec repository handler cache
          provider query moment db store
        ≡ (ok response, (after, later))
      → Completed provider query moment store later after response
  unfolding callback
  callback-Completed provider query moment db after store later response h =
      called_back-eq-ok provider query moment db after store later _ response refl h

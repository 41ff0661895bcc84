-- ===== src/Authn/PipelineLaws.antt =====
-- The pipeline as a whole: from a verified identity to a token, and from the token to the principal.
use authguard.Base.{
  contains, ℕ, ◌≤◌, ◌<◌, ◌≡◌, refl, sym, ap, subst, ◌∙◌, arith, true, false, not, Option, some,
  Text, codes, ◌==◌, eq_iff, Result, ok, err, map_err, map_err-eq-ok, bind-eq-ok, ok_inj,
  unless-eq-ok,
}
use authguard.Model.{PrincipalKind}
use authguard.Cache.Memory.{saturating_add, as_secs}
use authguard.Access.Signer.{Bytes, Crypto}
use authguard.Identity.Json.{Serde}
use authguard.Identity.Canonical.{IsCanonical}
use authguard.Identity.Claims.{
  AuthenticatedPrincipalContext, max_scalar_claim_bytes, scalar_bytes, scalar_claims,
}
use authguard.Identity.External.{AuthenticationResult}
use authguard.Jwt.Signing.{Rsa}
use authguard.Jwt.SigningLaws.{IsKeyPair}
use authguard.Authn.Linking.{IdentityBindingRepository, Linked, resolve_login}
use authguard.Authn.LinkingLaws.{
  KeepsBindings, IsBound, resolve_login-IsBound, resolve_login_of_IsBound,
}
use authguard.Authn.Token.{token_claims, issue, authenticate}
use authguard.Authn.TokenTrip.{IsIssuable, ReadsBack, issued_identity, authenticate-issue}
use authguard.Authn.Projection.{project_authorization_context}
use authguard.Authn.ProjectionLaws.{withheld, IsProjected, project-IsProjected}
use authguard.Authn.Pipeline.{
  AuthenticationPipeline, IssuedAuthentication, AuthenticationPipelineError, token,
  step_up_principal_mismatch, Piped, then_pure, as_piped, issue_authentication, login,
  same_principal, resolve_step_up, complete_step_up,
}

-- A step that ends well began with a link that did.
pub then_pure-eq-ok :
    {Db A : Type 0} (linked : Linked Db)
    (next : AuthenticatedPrincipalContext → Result AuthenticationPipelineError A) (after : Db)
    {a : A}
    → then_pure (as_piped linked) next ≡ (ok a, after)
    → (principal : AuthenticatedPrincipalContext) × (linked ≡ (ok principal, after))
      × (next principal ≡ ok a)
then_pure-eq-ok (ok principal, db) next after h =
    (principal, λ i. (ok principal, (h i).1), ap (λ r. r.0) h)
then_pure-eq-ok (err e, db) next after h = cc

piped-eq-ok :
    {Db A B : Type 0} (piped : Piped Db A) (next : A → Result AuthenticationPipelineError B)
    (after : Db) {b : B}
    → then_pure piped next ≡ (ok b, after)
    → (a : A) × (piped ≡ (ok a, after)) × (next a ≡ ok b)
piped-eq-ok (ok a, db) next after h = (a, λ i. (ok a, (h i).1), ap (λ r. r.0) h)
piped-eq-ok (err e, db) next after h = cc

acr_private : contains (codes "acr") withheld ≡ true
unfolding ◌==◌
acr_private = refl

module _ {Key Public Db : Type 0} (rsa : Rsa Key Public) (crypto : Crypto)
    (decode_padded : Text → Option Bytes) (serde : Serde)
    (repository : IdentityBindingRepository Db) (pipeline : AuthenticationPipeline Key) where
  pub issue_authentication-eq-ok :
      (authentication : AuthenticationResult) (resolved : AuthenticatedPrincipalContext) (now : ℕ)
      (issued : IssuedAuthentication)
      → issue_authentication rsa crypto decode_padded serde repository pipeline authentication
          resolved now
        ≡ ok issued
      → (issued.principal ≡ project_authorization_context serde resolved authentication)
        × (issue rsa crypto decode_padded serde pipeline.tokens issued.principal authentication now
            ≡ ok issued.access_token)
        × (issued.principal.principal_id ≡ resolved.principal_id)
  unfolding issue_authentication project_authorization_context
  issue_authentication-eq-ok authentication resolved now issued h =
      let principal = project_authorization_context serde resolved authentication in
      let (access_token, e, h₁) =
        bind-eq-ok
          (map_err token
            (issue rsa crypto decode_padded serde pipeline.tokens principal authentication now))
          _ h in
      let same : principal ≡ issued.principal = ap (λ i. i.principal) (ok_inj h₁) in
      let same_token : access_token ≡ issued.access_token = ap (λ i. i.access_token) (ok_inj h₁) in
      (
        sym same,
        subst
            (λ p.
              issue rsa crypto decode_padded serde pipeline.tokens p authentication now
              ≡ ok issued.access_token)
            same (map_err-eq-ok _ _ e ∙ ap ok same_token),
        ap (λ p. p.principal_id) (sym same),
      )

  projected-IsIssuable :
      (resolved issued : AuthenticatedPrincipalContext) (authentication : AuthenticationResult)
      (auth_time now : ℕ)
      → issued ≡ project_authorization_context serde resolved authentication
      → IsCanonical issued.principal_id
      → IsIssuable pipeline.tokens.config issued authentication auth_time now
  projected-IsIssuable resolved issued authentication auth_time now e canonical =
      let projected =
        subst (IsProjected serde authentication.external_identity.claims) (sym e)
          (project-IsProjected serde resolved authentication) in
      record {
        canonical = canonical;
        groups = projected.groups;
        short = projected.groups_short;
        no_acr = projected.nothing_private (codes "acr") acr_private;
      }

  -- A login that ends well leaves the external identity bound to an active principal, and its token is
  -- accepted until it expires, as that principal with the groups that were projected, whatever the
  -- identity claimed. The id of the principal is canonical, and the scalar claims of the token fit the
  -- bound of the reader.
  pub login-authenticate :
      (laws : KeepsBindings repository pipeline.policy) (key : Key) (public_pem : Text)
      (pair : IsKeyPair rsa crypto key public_pem) (random : Bytes) (now later auth_time : ℕ)
      (authentication : AuthenticationResult) (kind : PrincipalKind) (db after : Db)
      (issued : IssuedAuthentication)
      → pipeline.tokens.signing_key ≡ some key
      → pipeline.tokens.public_key ≡ some public_pem
      → authentication.authenticated_at ≡ some auth_time
      → ReadsBack crypto serde
          (token_claims pipeline.tokens.config issued.principal authentication auth_time now)
      → IsCanonical issued.principal.principal_id
      → scalar_bytes 0 (
          scalar_claims serde
            (token_claims pipeline.tokens.config issued.principal authentication auth_time now))
        ≤ max_scalar_claim_bytes
      → later < saturating_add now (as_secs pipeline.tokens.config.ttl)
      → login rsa crypto decode_padded serde repository pipeline random now authentication kind db
        ≡ (ok issued, after)
      → IsBound repository pipeline.policy authentication.external_identity after
          issued.principal.principal_id
        × (found : AuthenticatedPrincipalContext) × (authenticate rsa crypto decode_padded serde
              pipeline.tokens issued.access_token later
            ≡ ok found)
        × (found.principal_id ≡ issued.principal.principal_id)
        × (found.kind ≡ issued.principal.kind)
        × (found.stable_group_ids ≡ issued.principal.stable_group_ids)
  unfolding login
  login-authenticate laws key public_pem pair random now later auth_time authentication kind db
        after issued signing public at reads_back canonical small live h =
      let (resolved, e, h₁) =
        then_pure-eq-ok
          (resolve_login repository pipeline.policy crypto random authentication kind db) _ after
          h in
      let (projected, issues, same_id) =
        issue_authentication-eq-ok authentication resolved now issued h₁ in
      let bound =
        resolve_login-IsBound repository pipeline.policy crypto laws random authentication kind db
          after resolved e in
      let issuable =
        projected-IsIssuable resolved issued.principal authentication auth_time now projected
          canonical in
      let accepted =
        authenticate-issue rsa crypto decode_padded serde pipeline.tokens key public_pem pair
          issued.principal authentication auth_time now later issued.access_token signing public at
          reads_back issuable small live issues in
      (
        subst (IsBound repository pipeline.policy authentication.external_identity after)
            (sym same_id) bound,
        issued_identity pipeline.tokens.config issued.principal authentication auth_time now serde,
        accepted,
        refl,
        refl,
        refl,
      )

  same_principal-eq-ok :
      (principal_id : Text) (principal found : AuthenticatedPrincipalContext)
      → same_principal rsa crypto decode_padded serde repository pipeline principal_id principal
        ≡ ok found
      → (principal.principal_id ≡ principal_id) × (found.principal_id ≡ principal_id)
  same_principal-eq-ok principal_id principal found h =
      let (same, e) =
        unless-eq-ok (not (principal.principal_id == principal_id)) step_up_principal_mismatch _
          h in
      let is_id : principal.principal_id ≡ principal_id =
        (eq_iff principal.principal_id principal_id).0 (ground arith) in
      (is_id, ap (λ p. p.principal_id) (sym (ok_inj e)) ∙ is_id)

  resolve_step_up-eq-ok :
      (laws : KeepsBindings repository pipeline.policy) (random : Bytes) (principal_id : Text)
      (authentication : AuthenticationResult) (kind : PrincipalKind) (db after : Db)
      (found : AuthenticatedPrincipalContext)
      → resolve_step_up rsa crypto decode_padded serde repository pipeline random principal_id
          authentication kind db
        ≡ (ok found, after)
      → (found.principal_id ≡ principal_id)
        × IsBound repository pipeline.policy authentication.external_identity after principal_id
  unfolding resolve_step_up
  resolve_step_up-eq-ok laws random principal_id authentication kind db after found h =
      let (resolved, e, h₁) =
        then_pure-eq-ok
          (resolve_login repository pipeline.policy crypto random authentication kind db) _ after
          h in
      let (same, same_found) = same_principal-eq-ok principal_id resolved found h₁ in
      (
        same_found,
        subst (IsBound repository pipeline.policy authentication.external_identity after) same (
            resolve_login-IsBound repository pipeline.policy crypto laws random authentication kind
              db after resolved e),
      )

  -- A step-up is completed only with an identity that is bound to the principal it is for, and its token
  -- is accepted until it expires, as that principal. The id of the principal is canonical, and the scalar
  -- claims of the token fit the bound of the reader.
  pub complete_step_up-authenticate :
      (laws : KeepsBindings repository pipeline.policy) (key : Key) (public_pem : Text)
      (pair : IsKeyPair rsa crypto key public_pem) (random : Bytes) (now later auth_time : ℕ)
      (principal_id : Text) (authentication : AuthenticationResult) (kind : PrincipalKind)
      (db after : Db) (issued : IssuedAuthentication)
      → pipeline.tokens.signing_key ≡ some key
      → pipeline.tokens.public_key ≡ some public_pem
      → authentication.authenticated_at ≡ some auth_time
      → ReadsBack crypto serde
          (token_claims pipeline.tokens.config issued.principal authentication auth_time now)
      → IsCanonical issued.principal.principal_id
      → scalar_bytes 0 (
          scalar_claims serde
            (token_claims pipeline.tokens.config issued.principal authentication auth_time now))
        ≤ max_scalar_claim_bytes
      → later < saturating_add now (as_secs pipeline.tokens.config.ttl)
      → complete_step_up rsa crypto decode_padded serde repository pipeline random now principal_id
          authentication kind db
        ≡ (ok issued, after)
      → IsBound repository pipeline.policy authentication.external_identity after principal_id
        × (found : AuthenticatedPrincipalContext) × (authenticate rsa crypto decode_padded serde
              pipeline.tokens issued.access_token later
            ≡ ok found)
        × (found.principal_id ≡ principal_id)
        × (found.kind ≡ issued.principal.kind)
        × (found.stable_group_ids ≡ issued.principal.stable_group_ids)
  unfolding complete_step_up
  complete_step_up-authenticate laws key public_pem pair random now later auth_time principal_id
        authentication kind db after issued signing public at reads_back canonical small live h =
      let (resolved, e, h₁) =
        piped-eq-ok
          (resolve_step_up rsa crypto decode_padded serde repository pipeline random principal_id
            authentication kind db)
          _ after h in
      let (same, bound) =
        resolve_step_up-eq-ok laws random principal_id authentication kind db after resolved e in
      let (projected, issues, same_id) =
        issue_authentication-eq-ok authentication resolved now issued h₁ in
      let issuable =
        projected-IsIssuable resolved issued.principal authentication auth_time now projected
          canonical in
      let accepted =
        authenticate-issue rsa crypto decode_padded serde pipeline.tokens key public_pem pair
          issued.principal authentication auth_time now later issued.access_token signing public at
          reads_back issuable small live issues in
      (
        bound,
        issued_identity pipeline.tokens.config issued.principal authentication auth_time now serde,
        accepted,
        same_id ∙ same,
        refl,
        refl,
      )

  -- A step-up with an identity that is bound to another active principal is refused, and changes
  -- nothing.
  pub step_up_refused :
      (random : Bytes) (principal_id other_id : Text) (authentication : AuthenticationResult)
      (kind : PrincipalKind) (db : Db)
      → IsBound repository pipeline.policy authentication.external_identity db other_id
      → (other_id == principal_id) ≡ false
      → resolve_step_up rsa crypto decode_padded serde repository pipeline random principal_id
          authentication kind db
        ≡ (err step_up_principal_mismatch, db)
  unfolding resolve_step_up
  step_up_refused random principal_id other_id authentication kind db bound differs =
      let (found, e, same) =
        resolve_login_of_IsBound repository pipeline.policy crypto random authentication kind db
          other_id bound in
      let refused : (found.principal_id == principal_id) ≡ false =
        ap (λ id. id == principal_id) same ∙ differs in
      rw (e, refused) refl

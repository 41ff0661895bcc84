-- ===== src/Authn/LinkingLaws.antt =====
-- Which principal an identity resolves to.
use authguard.Base.{
  ◌≡◌, refl, sym, ap, subst, ◌∙◌, arith, inl, inr, true, false, Option, none, some, Text, [],
  contains, Result, ok, err, Result-cases, Bool-cases,
}
use authguard.Model.{PrincipalKind, is_active}
use authguard.Access.Signer.{Bytes, Crypto}
use authguard.Identity.Claims.{AuthenticatedPrincipalContext}
use authguard.Identity.External.{ExternalIdentity, ExternalIdentityKey, AuthenticationResult, key}
use authguard.Principals.Store.{Principal}
use authguard.Authn.Linking.{
  IdentityBindingRepository, IdentityRepositoryError, AccountLinkingProperties, explicit,
  authoritative_login_required, context, written, may_create, login_found, resolve_login,
}

-- A context names its principal, which is active.
pub context-eq-ok :
    (principal : Principal) (authentication : AuthenticationResult)
    (found : AuthenticatedPrincipalContext)
    → context principal authentication ≡ ok found
    → (is_active principal.status ≡ true)
      × (found.principal_id ≡ principal.id)
      × (found.kind ≡ principal.kind)
unfolding context
context-eq-ok principal authentication found h = ground arith

context_of_active :
    (principal : Principal) (authentication : AuthenticationResult)
    → is_active principal.status ≡ true
    → (found : AuthenticatedPrincipalContext) × (context principal authentication ≡ ok found)
      × (found.principal_id ≡ principal.id)
unfolding context
context_of_active principal authentication h = (
  record {
    principal_id = principal.id;
    kind = principal.kind;
    stable_group_ids = [];
    trusted_claims = [];
    acr = authentication.acr;
    amr = authentication.amr;
  },
  rw h refl,
  refl,
)

module _ {Db : Type 0} (repository : IdentityBindingRepository Db)
    (policy : AccountLinkingProperties) where
  -- What a binding that was written does: the identity finds its principal.
  pub record KeepsBindings : Type 0 where
    pub created :
        (principal stored : Principal) (identity : ExternalIdentity)
        (identity_key : ExternalIdentityKey) (db after : Db)
        → key identity ≡ ok identity_key
        → repository.create_principal_and_bind principal identity db ≡ (ok stored, after)
        → repository.find_principal_by_identity identity_key after ≡ ok (some stored)
    pub bound :
        (principal_id : Text) (stored : Principal) (identity : ExternalIdentity)
        (identity_key : ExternalIdentityKey) (db after : Db)
        → key identity ≡ ok identity_key
        → repository.bind_identity principal_id identity db ≡ (ok stored, after)
        → (stored.id ≡ principal_id)
          × (repository.find_principal_by_identity identity_key after ≡ ok (some stored))

  -- The identity is bound, in this database, to an active principal of this id.
  pub record IsBound (identity : ExternalIdentity) (db : Db) (principal_id : Text) : Type 0 where
    pub identity_key : ExternalIdentityKey
    pub has_key : key identity ≡ ok identity_key
    pub principal : Principal
    pub found : repository.find_principal_by_identity identity_key db ≡ ok (some principal)
    pub active_principal : is_active principal.status ≡ true
    pub same_id : principal.id ≡ principal_id

  -- Only the key of an identity counts.
  pub IsBound-key :
      (identity other : ExternalIdentity) (db : Db) (principal_id : Text)
      → key identity ≡ key other
      → IsBound identity db principal_id
      → IsBound other db principal_id
  IsBound-key identity other db principal_id same bound = record {
    identity_key = bound.identity_key;
    has_key = sym same ∙ bound.has_key;
    principal = bound.principal;
    found = bound.found;
    active_principal = bound.active_principal;
    same_id = bound.same_id;
  }

  pub written-IsBound :
      (authentication : AuthenticationResult) (identity_key : ExternalIdentityKey) (after : Db)
      (write : Result IdentityRepositoryError Principal × Db)
      (context_found : AuthenticatedPrincipalContext)
      → key authentication.external_identity ≡ ok identity_key
      → ((stored : Principal) (now : Db)
          → write ≡ (ok stored, now)
          → repository.find_principal_by_identity identity_key now ≡ ok (some stored))
      → written repository policy authentication write ≡ (ok context_found, after)
      → IsBound authentication.external_identity after context_found.principal_id
  written-IsBound authentication identity_key after (err e, now) context_found k keeps h = cc
  written-IsBound authentication identity_key after (ok stored, now) context_found k keeps h =
      let (alive, same, kind) =
        context-eq-ok stored authentication context_found (ap (λ r. r.0) h) in
      record {
        identity_key = identity_key;
        has_key = k;
        principal = stored;
        found =
            subst (λ d. repository.find_principal_by_identity identity_key d ≡ ok (some stored))
              (ap (λ r. r.1) h) (keeps stored now refl);
        active_principal = alive;
        same_id = sym same;
      }

  module _ (crypto : Crypto) where
    unbound_login :
        (laws : KeepsBindings) (random : Bytes) (authentication : AuthenticationResult)
        (kind : PrincipalKind) (identity_key : ExternalIdentityKey) (db after : Db)
        (context_found : AuthenticatedPrincipalContext)
        → key authentication.external_identity ≡ ok identity_key
        → login_found repository policy crypto random authentication kind db (ok none)
          ≡ (ok context_found, after)
        → IsBound authentication.external_identity after context_found.principal_id
    unbound_login laws random authentication kind identity_key db after context_found k h =
        elim (Bool-cases (may_create repository policy authentication.external_identity.provider)) [
          | inr refused ↦ cc (rw refused at h)
          | inl creates ↦
              written-IsBound authentication identity_key after _ context_found k
                (λ stored now w. laws.created _ stored _ identity_key db now k w) (rw creates at h)
        ]

    found_login :
        (laws : KeepsBindings) (random : Bytes) (authentication : AuthenticationResult)
        (kind : PrincipalKind) (identity_key : ExternalIdentityKey) (db after : Db)
        (context_found : AuthenticatedPrincipalContext)
        (found : Result IdentityRepositoryError (Option Principal))
        → key authentication.external_identity ≡ ok identity_key
        → repository.find_principal_by_identity identity_key db ≡ found
        → login_found repository policy crypto random authentication kind db found
          ≡ (ok context_found, after)
        → IsBound authentication.external_identity after context_found.principal_id
    found_login laws random authentication kind identity_key db after context_found (err e) k f h =
        cc
    found_login laws random authentication kind identity_key db after context_found (ok none) k f
          h =
        unbound_login laws random authentication kind identity_key db after context_found k h
    found_login laws random authentication kind identity_key db after context_found
          (ok (some principal)) k f h =
        let (alive, same, kinds) =
          context-eq-ok principal authentication context_found (ap (λ r. r.0) h) in
        record {
          identity_key = identity_key;
          has_key = k;
          principal = principal;
          found =
              subst
                (λ d. repository.find_principal_by_identity identity_key d ≡ ok (some principal))
                (ap (λ r. r.1) h) f;
          active_principal = alive;
          same_id = sym same;
        }

    -- After a login the identity is bound to the active principal that the login gave.
    pub resolve_login-IsBound :
        (laws : KeepsBindings) (random : Bytes) (authentication : AuthenticationResult)
        (kind : PrincipalKind) (db after : Db) (context_found : AuthenticatedPrincipalContext)
        → resolve_login repository policy crypto random authentication kind db
          ≡ (ok context_found, after)
        → IsBound authentication.external_identity after context_found.principal_id
    unfolding resolve_login
    resolve_login-IsBound laws random authentication kind db after context_found h =
        elim (Result-cases (key authentication.external_identity)) [
          | inl (identity_key, k) ↦
              found_login laws random authentication kind identity_key db after context_found _ k
                refl (rw k at h)
          | inr (e, k) ↦ cc (rw k at h)
        ]

    -- A login of a bound identity gives its principal, and changes nothing.
    pub resolve_login_of_IsBound :
        (random : Bytes) (authentication : AuthenticationResult) (kind : PrincipalKind) (db : Db)
        (principal_id : Text)
        → IsBound authentication.external_identity db principal_id
        → (context_found : AuthenticatedPrincipalContext) × (resolve_login repository policy crypto
              random authentication kind db
            ≡ (ok context_found, db))
          × (context_found.principal_id ≡ principal_id)
    unfolding resolve_login
    resolve_login_of_IsBound random authentication kind db principal_id bound =
        let (context_found, e, same) =
          context_of_active bound.principal authentication bound.active_principal in
        (context_found, rw (bound.has_key, bound.found, e) refl, same ∙ bound.same_id)

    -- Once an identity has logged in, a second login under the same key, on the database that the first
    -- one left, gives the same principal and leaves the database as it is, whatever is drawn, however it
    -- authenticates and whatever else it claims.
    pub login_again :
        (laws : KeepsBindings) (random again : Bytes) (first second : AuthenticationResult)
        (kind other_kind : PrincipalKind) (db after : Db)
        (context_found : AuthenticatedPrincipalContext)
        → key first.external_identity ≡ key second.external_identity
        → resolve_login repository policy crypto random first kind db ≡ (ok context_found, after)
        → (later : AuthenticatedPrincipalContext) × (resolve_login repository policy crypto again
              second other_kind after
            ≡ (ok later, after))
          × (later.principal_id ≡ context_found.principal_id)
    login_again laws random again first second kind other_kind db after context_found same h =
        resolve_login_of_IsBound again second other_kind after context_found.principal_id (
          IsBound-key first.external_identity second.external_identity after
            context_found.principal_id same
            (resolve_login-IsBound laws random first kind db after context_found h))

    -- Under the explicit strategy an identity that is bound to no principal is refused, and the database
    -- left as it is, unless its provider is authoritative.
    pub login_refused :
        (random : Bytes) (authentication : AuthenticationResult) (kind : PrincipalKind)
        (identity_key : ExternalIdentityKey) (db : Db)
        → key authentication.external_identity ≡ ok identity_key
        → repository.find_principal_by_identity identity_key db ≡ ok none
        → policy.strategy ≡ explicit
        → contains authentication.external_identity.provider policy.authoritative_providers ≡ false
        → resolve_login repository policy crypto random authentication kind db
          ≡ (err (authoritative_login_required authentication.external_identity.provider), db)
    unfolding resolve_login
    login_refused random authentication kind identity_key db k unbound strategy provider =
        rw (k, unbound, strategy, provider) refl

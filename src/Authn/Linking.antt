-- ===== src/Authn/Linking.antt =====
-- `AccountLinkingService` of src/authn/src/principal/jit.rs over the trait `IdentityBindingRepository` of
-- src/common/src/storage/authn/mod.rs. Logs are left out.
use authguard.Base.{
  Bool, true, false, not, ◌||◌, Option, none, some, List, [], ◌∷◌, ◌++◌, Text, codes, contains,
  is_blank, lookup, Result, ok, err, map_err, ◌>>=◌, if◌then◌else◌,
}
use authguard.Model.{PrincipalKind, active, is_active}
use authguard.Access.Signer.{Bytes, Crypto}
use authguard.Identity.Json.{as_str}
use authguard.Identity.Headers.{and_then, find_map}
use authguard.Identity.Claims.{AuthenticatedPrincipalContext}
use authguard.Identity.External.{
  ExternalIdentity, ExternalIdentityKey, IdentityModelError, AuthenticationResult, key,
}
use authguard.Principals.Store.{Principal}

pub data IdentityRepositoryError : Type 0 where
  identity_already_bound : IdentityRepositoryError
  backend : Text → IdentityRepositoryError

pub record IdentityBindingRepository (Db : Type 0) : Type 0 where
  pub find_principal_by_identity :
      ExternalIdentityKey → Db → Result IdentityRepositoryError (Option Principal)
  pub create_principal_and_bind :
      Principal → ExternalIdentity → Db → Result IdentityRepositoryError Principal × Db
  pub bind_identity : Text → ExternalIdentity → Db → Result IdentityRepositoryError Principal × Db
  pub principal_has_provider : Text → Text → Db → Result IdentityRepositoryError Bool
  pub rollback_identity_binding :
      Text → ExternalIdentityKey → Db → Result IdentityRepositoryError (Unit {0}) × Db

pub data LinkingStrategy : Type 0 where
  explicit first_login : LinkingStrategy

abbrev pub is_first_login : LinkingStrategy → Bool
is_first_login explicit = false
is_first_login first_login = true

pub record AccountLinkingProperties : Type 0 where
  pub strategy : LinkingStrategy
  pub authoritative_providers : List Text
  pub allow_link : List (Text × List Text)

pub data AccountLinkingError : Type 0 where
  invalid_identity : IdentityModelError → AccountLinkingError
  authoritative_login_required link_not_allowed principal_disabled : Text → AccountLinkingError
  already_bound : AccountLinkingError
  repository_failed : Text → AccountLinkingError

-- `From<IdentityRepositoryError>`
abbrev pub from_repository : IdentityRepositoryError → AccountLinkingError
from_repository identity_already_bound = already_bound
from_repository (backend message) = repository_failed message

abbrev pub display_claims : List Text
display_claims = codes "display_name" ∷ codes "username" ∷ codes "email" ∷ []

abbrev pub filled_or : Text → Option Text → Text
filled_or subject none = subject
filled_or subject (some value) = if is_blank value then subject else value

unfoldable pub display_name_of : ExternalIdentity → Text
display_name_of identity =
    filled_or identity.subject
      (find_map (λ name. and_then (lookup name identity.claims) as_str) display_claims)

-- `new_principal` on the bytes that were drawn
unfoldable pub new_principal : Crypto → Bytes → ExternalIdentity → PrincipalKind → Principal
unfolding display_name_of
new_principal crypto random identity kind = record {
  id = codes "P_" ++ crypto.encode random;
  kind = kind;
  display_name = display_name_of identity;
  status = active;
  authorization_state = [];
}

-- `AccountLinkingService::context`
unfoldable pub context :
    Principal → AuthenticationResult → Result AccountLinkingError AuthenticatedPrincipalContext
context principal authentication =
    if not (is_active principal.status)
    then err (principal_disabled principal.id)
    else ok (record {
      principal_id = principal.id;
      kind = principal.kind;
      stable_group_ids = [];
      trusted_claims = [];
      acr = authentication.acr;
      amr = authentication.amr;
    })

-- What an operation gives, and the database after it.
abbrev pub Linked : Type 0 → Type 0
Linked Db = Result AccountLinkingError AuthenticatedPrincipalContext × Db

module _ {Db : Type 0} (repository : IdentityBindingRepository Db)
    (policy : AccountLinkingProperties) where
  -- The context of the principal that a write gave.
  abbrev pub written :
      AuthenticationResult → Result IdentityRepositoryError Principal × Db → Linked Db
  written authentication (err e, db) = (err (from_repository e), db)
  written authentication (ok principal, db) = (context principal authentication, db)

  abbrev pub may_create : Text → Bool
  may_create provider =
      is_first_login policy.strategy || contains provider policy.authoritative_providers

  -- The branches of `resolve_login` behind the lookup
  abbrev pub login_found :
      Crypto
      → Bytes
      → AuthenticationResult
      → PrincipalKind
      → Db
      → Result IdentityRepositoryError (Option Principal)
      → Linked Db
  login_found crypto random authentication kind db (err e) = (err (from_repository e), db)
  login_found crypto random authentication kind db (ok (some principal)) =
      (context principal authentication, db)
  login_found crypto random authentication kind db (ok none) =
      let identity = authentication.external_identity in
      if may_create identity.provider
      then written authentication (
          repository.create_principal_and_bind (new_principal crypto random identity kind) identity
            db)
      else (err (authoritative_login_required identity.provider), db)

  abbrev pub login_keyed :
      Crypto
      → Bytes
      → AuthenticationResult
      → PrincipalKind
      → Db
      → Result IdentityModelError ExternalIdentityKey
      → Linked Db
  login_keyed crypto random authentication kind db (err e) = (err (invalid_identity e), db)
  login_keyed crypto random authentication kind db (ok identity_key) =
      login_found crypto random authentication kind db
        (repository.find_principal_by_identity identity_key db)

  unfoldable pub resolve_login :
      Crypto → Bytes → AuthenticationResult → PrincipalKind → Db → Linked Db
  unfolding context new_principal
  resolve_login crypto random authentication kind db =
      login_keyed crypto random authentication kind db (key authentication.external_identity)

  -- The loop over `allow_link`: whether a link is permitted, or the first failure of a lookup.
  unfoldable pub permitted :
      Text → Text → Db → List (Text × List Text) → Result IdentityRepositoryError Bool
  permitted principal_id provider db [] = ok false
  permitted principal_id provider db ((authoritative, secondary) ∷ rest) =
      let later = permitted principal_id provider db rest in
      if contains provider secondary
      then (do
        has ← repository.principal_has_provider principal_id authoritative db
        if has then ok true else later)
      else later

  abbrev pub link_permitted :
      Text → AuthenticationResult → Db → Result IdentityRepositoryError Bool → Linked Db
  link_permitted principal_id authentication db (err e) = (err (from_repository e), db)
  link_permitted principal_id authentication db (ok false) =
      (err (link_not_allowed authentication.external_identity.provider), db)
  link_permitted principal_id authentication db (ok true) =
      written authentication
        (repository.bind_identity principal_id authentication.external_identity db)

  abbrev pub link_keyed :
      Text → AuthenticationResult → Db → Result IdentityModelError ExternalIdentityKey → Linked Db
  link_keyed principal_id authentication db (err e) = (err (invalid_identity e), db)
  link_keyed principal_id authentication db (ok identity_key) =
      link_permitted principal_id authentication db
        (permitted principal_id authentication.external_identity.provider db policy.allow_link)

  unfoldable pub link_identity : Text → AuthenticationResult → Db → Linked Db
  unfolding context permitted
  link_identity principal_id authentication db =
      link_keyed principal_id authentication db (key authentication.external_identity)

  -- `rollback_identity_binding`
  abbrev pub rolled_back :
      Result IdentityRepositoryError (Unit {0}) × Db → Result AccountLinkingError (Unit {0}) × Db
  rolled_back (outcome, db) = (map_err from_repository outcome, db)

  unfoldable pub rollback_identity_binding :
      Text → ExternalIdentityKey → Db → Result AccountLinkingError (Unit {0}) × Db
  rollback_identity_binding principal_id identity_key db =
      rolled_back (repository.rollback_identity_binding principal_id identity_key db)

-- ===== src/Identity/External.antt =====
-- External identities and their keys: `ExternalIdentity`, `ExternalIdentityKey` and
-- `AuthenticationResult` of src/common/src/model/identity.rs.
use authguard.Base.{
  ℕ, Option, List, [], ◌∷◌, ◌++◌, Text, codes, contains, Result, ok, ◌>>=◌, map_err, if◌then◌else◌,
}
use authguard.Identity.Json.{Object}
use authguard.Identity.Canonical.{validate_canonical}

pub record ExternalIdentity : Type 0 where
  pub provider : Text
  pub issuer : Text
  pub subject : Text
  pub claims : Object

pub record ExternalIdentityKey : Type 0 where
  pub provider : Text
  pub issuer : Text
  pub subject : Text

pub data IdentityModelError : Type 0 where
  invalid_identity_component : Text → IdentityModelError

abbrev pub check_component : Text → Text → Result IdentityModelError (Unit {0})
check_component name value = map_err invalid_identity_component (validate_canonical value name)

-- `ExternalIdentityKey::new`
unfoldable pub new_key : Text → Text → Text → Result IdentityModelError ExternalIdentityKey
new_key provider issuer subject = do
  _ ← check_component (codes "provider") provider
  _ ← check_component (codes "issuer") issuer
  _ ← check_component (codes "subject") subject
  ok (record { provider = provider; issuer = issuer; subject = subject })

unfoldable pub key : ExternalIdentity → Result IdentityModelError ExternalIdentityKey
unfolding new_key
key identity = new_key identity.provider identity.issuer identity.subject

-- `authenticated_at` is the timestamp in seconds; none where it lies before the epoch.
pub record AuthenticationResult : Type 0 where
  pub external_identity : ExternalIdentity
  pub amr : List Text
  pub acr : Option Text
  pub authenticated_at : Option ℕ

-- The loop of `AuthenticationResult::new`
unfoldable pub add_methods : List Text → List Text → List Text
add_methods amr [] = amr
add_methods amr (method ∷ methods) =
    add_methods (if contains method amr then amr else amr ++ (method ∷ [])) methods

-- `AuthenticationResult::new`
unfoldable pub new_authentication :
    ExternalIdentity → List Text → Option Text → Option ℕ → AuthenticationResult
unfolding add_methods
new_authentication external_identity methods acr authenticated_at = record {
  external_identity = external_identity;
  amr = add_methods [] methods;
  acr = acr;
  authenticated_at = authenticated_at;
}

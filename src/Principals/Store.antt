-- ===== src/Principals/Store.antt =====
-- The trait `PrincipalRepository` of src/common/src/storage/authz/mod.rs over the database, and the
-- errors of src/authz/src/handler/principal.rs.
use authguard.Base.{ℕ, Bool, Option, List, Text, Result}
use authguard.Model.{IamPrincipalInfo, PrincipalStatus}
use authguard.Identity.Json.{Object, Value}
use authguard.Identity.External.{ExternalIdentityKey}

abbrev pub Principal : Type 0
Principal = IamPrincipalInfo Object

-- src/common/src/model/principal.rs
pub record IamPrincipalIdentityInfo : Type 0 where
  pub principal_id : Text
  pub provider : Text
  pub issuer : Text
  pub subject : Text
  pub claims : Value

-- An `anyhow::Error` of the repository, by what it downcasts to.
pub data StorageError : Type 0 where
  identity_conflict : StorageError
  principal_referenced : Text → StorageError
  backend : Text → StorageError

pub record PrincipalRepository (Db : Type 0) : Type 0 where
  pub upsert : Principal → Db → Result StorageError Principal × Db
  pub upsert_with_identity :
      Principal → IamPrincipalIdentityInfo → Db → Result StorageError Principal × Db
  pub get : Text → Db → Result StorageError (Option Principal)
  pub find_by_identity : ExternalIdentityKey → Db → Result StorageError (Option Principal)
  pub get_identity : Text → Text → Db → Result StorageError (Option IamPrincipalIdentityInfo)
  pub find_by_ids : List Text → Db → Result StorageError (List Principal)
  pub list : Text → Option Text → ℕ → Db → Result StorageError (List Principal)
  pub update_status : Text → PrincipalStatus → Db → Result StorageError (Option Principal) × Db
  pub delete : Text → Db → Result StorageError Bool × Db

-- src/common/src/principal/mod.rs
pub data PrincipalDiscoveryError : Type 0 where
  invalid_configuration invalid_query unknown_provider task authentication :
      Text → PrincipalDiscoveryError
  http_status : Text → Text → ℕ → PrincipalDiscoveryError
  transport : Text → Text → Text → PrincipalDiscoveryError
  invalid_response : Text → Text → PrincipalDiscoveryError

pub data PrincipalHandlerError : Type 0 where
  not_found disabled_principal kind_mismatch referenced : Text → PrincipalHandlerError
  conflict provider_unavailable : PrincipalHandlerError
  discovery : PrincipalDiscoveryError → PrincipalHandlerError
  storage : StorageError → PrincipalHandlerError

-- `map_storage_error`
abbrev pub map_storage_error : StorageError → PrincipalHandlerError
map_storage_error identity_conflict = conflict
map_storage_error (principal_referenced id) = referenced id
map_storage_error (backend text) = storage (backend text)

-- ===== src/Access/Context.antt =====
-- `AccessContext` of src/common/src/utils/context.rs. Times are seconds since the epoch, a `Duration` is
-- counted in nanoseconds. `serde_json` is the parameter `Json`.
use authguard.Base.{
  ℕ, not, Option, none, some, List, Text, ltb, leb, eqb, Result, ok, err, ◌>>=◌, ok_or,
  if◌then◌else◌,
}
use authguard.Cache.Memory.{saturating_add, as_secs}
use authguard.Access.Signer.{
  Bytes, Crypto, AccessContextError, base64, json, unsupported_version, expired, issued_in_future,
  invalid_lifetime,
}

abbrev pub access_context_version : ℕ
access_context_version = 3

pub record AccessContextInput : Type 0 where
  pub principal_id : Text
  pub action : Text
  pub resource_urn : Text
  pub allow_resource_urns : List Text
  pub deny_resource_urns : List Text
  pub policy_revision : ℕ

pub record AccessContext : Type 0 where
  pub version : ℕ
  pub principal_id : Text
  pub action : Text
  pub resource_urn : Text
  pub allow_resource_urns : List Text
  pub deny_resource_urns : List Text
  pub policy_revision : ℕ
  pub issued_at_epoch_seconds : ℕ
  pub expires_at_epoch_seconds : ℕ

-- `serde_json::to_vec` and `from_slice`
pub record Json : Type 0 where
  pub to_vec : AccessContext → Option Bytes
  pub from_slice : Bytes → Option AccessContext

-- `AccessContext::new`
unfoldable pub new_context : AccessContextInput → ℕ → ℕ → AccessContext
unfolding saturating_add as_secs
new_context input issued_at_epoch_seconds ttl = record {
  version = access_context_version;
  principal_id = input.principal_id;
  action = input.action;
  resource_urn = input.resource_urn;
  allow_resource_urns = input.allow_resource_urns;
  deny_resource_urns = input.deny_resource_urns;
  policy_revision = input.policy_revision;
  issued_at_epoch_seconds = issued_at_epoch_seconds;
  expires_at_epoch_seconds = saturating_add issued_at_epoch_seconds (as_secs ttl);
}

unfoldable pub validate : AccessContext → ℕ → Result AccessContextError (Unit {0})
unfolding saturating_add
validate context now_epoch_seconds =
    if not (eqb context.version access_context_version)
    then err (unsupported_version context.version)
    else if leb context.expires_at_epoch_seconds context.issued_at_epoch_seconds
    then err invalid_lifetime
    else if ltb (saturating_add now_epoch_seconds 30) context.issued_at_epoch_seconds
    then err issued_in_future
    else if leb context.expires_at_epoch_seconds now_epoch_seconds
    then err expired
    else ok tt

module _ (crypto : Crypto) (serde : Json) where
  unfoldable pub encode : AccessContext → Option Text
  encode context = elim (serde.to_vec context) [
    | none ↦ none
    | some bytes ↦ some (crypto.encode bytes)
  ]

  -- `now` is what `epoch_seconds` gives.
  unfoldable pub decode : ℕ → Text → Result AccessContextError AccessContext
  unfolding validate
  decode now encoded = do
    bytes ← ok_or base64 (crypto.decode encoded)
    context ← ok_or json (serde.from_slice bytes)
    checked ← validate context now
    ok context

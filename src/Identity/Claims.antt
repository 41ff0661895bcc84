-- ===== src/Identity/Claims.antt =====
-- The identity in a verified token: `AuthenticatedPrincipalContext` of
-- src/common/src/model/identity.rs. Padded Base64URL is the parameter `decode_padded`.
use authguard.Base.{
  ℕ, ◌+◌, ◌*◌, Bool, true, false, ◌||◌, Option, none, some, List, [], ◌∷◌, Text, codes, ◌==◌, len,
  length, contains, is_empty, split, ltb, sort, dedup, lookup, insert, from_pairs, Result, ok, err,
  ◌>>=◌, ok_or, map_err, try_map, if◌then◌else◌,
}
use authguard.Model.{PrincipalKind, user, workload, group}
use authguard.Cache.Memory.{saturating_add}
use authguard.Access.Signer.{Bytes, Crypto}
use authguard.Identity.Json.{
  Value, null, boolean, number, string, array, object, unsigned, other, Object, Serde, elements,
  as_str, as_object,
}
use authguard.Identity.Canonical.{validate_canonical}
use authguard.Identity.Headers.{HttpTypes, HeaderMap, and_then, or_else, gateway_token}

pub record AuthenticatedPrincipalContext : Type 0 where
  pub principal_id : Text
  pub kind : PrincipalKind
  pub stable_group_ids : List Text
  pub trusted_claims : List (Text × Text)
  pub acr : Option Text
  pub amr : List Text

pub data IdentityError : Type 0 where
  missing not_jwt invalid_base64 invalid_json missing_principal_id invalid_principal_kind
        invalid_groups too_large :
      IdentityError

abbrev pub max_groups : ℕ
max_groups = 128

abbrev pub max_group_bytes : ℕ
max_group_bytes = 16 * 1024

abbrev pub max_scalar_claim_bytes : ℕ
max_scalar_claim_bytes = 64 * 1024

unfoldable pub parse_principal_kind : Text → Option PrincipalKind
parse_principal_kind value =
    if value == codes "USER"
    then some user
    else if value == codes "WORKLOAD"
    then some workload
    else if value == codes "GROUP"
    then some group
    else none

-- `iter().map(len).sum()`
abbrev pub total_len : List Text → ℕ
total_len [] = 0
total_len (x ∷ xs) = len x + total_len xs

unfoldable pub canonical_group : Text → Result IdentityError Text
canonical_group value = do
  _ ← map_err (λ _. invalid_groups) (validate_canonical value (codes "group_id"))
  ok value

-- `read_groups` on the texts that the claim holds
unfoldable pub bounded_groups : List Text → Result IdentityError (List Text)
unfolding canonical_group
bounded_groups values =
    if ltb max_groups (length values) || ltb max_group_bytes (total_len values)
    then err too_large
    else (do groups ← try_map canonical_group values; ok (dedup (sort groups)))

unfoldable pub read_groups : Option Value → Result IdentityError (List Text)
unfolding bounded_groups
read_groups none = ok []
read_groups (some null) = ok []
read_groups (some (string value)) = bounded_groups (value ∷ [])
read_groups (some (array values)) = do
  texts ← try_map (λ value. ok_or invalid_groups (as_str value)) (elements values)
  bounded_groups texts
read_groups (some (boolean _)) = err invalid_groups
read_groups (some (number _)) = err invalid_groups
read_groups (some (object _)) = err invalid_groups

unfoldable pub read_string_array : Option Value → Result IdentityError (List Text)
read_string_array none = ok []
read_string_array (some null) = ok []
read_string_array (some (array values)) =
    try_map (λ value. ok_or invalid_json (as_str value)) (elements values)
read_string_array (some (string _)) = err invalid_json
read_string_array (some (boolean _)) = err invalid_json
read_string_array (some (number _)) = err invalid_json
read_string_array (some (object _)) = err invalid_json

abbrev pub boundary_claims : List Text
boundary_claims =
    codes "iss"
    ∷ codes "sub"
    ∷ codes "aud"
    ∷ codes "iat"
    ∷ codes "exp"
    ∷ codes "nbf"
    ∷ codes "jti"
    ∷ codes "provider"
    ∷ codes "access_token"
    ∷ codes "refresh_token"
    ∷ codes "authorization_code"
    ∷ codes "principal_id"
    ∷ codes "principal_kind"
    ∷ codes "authguard_group_ids"
    ∷ codes "acr"
    ∷ codes "amr"
    ∷ codes "authguardOrigin"
    ∷ []

unfoldable pub is_boundary_claim : Text → Bool
is_boundary_claim name = contains name boundary_claims

-- `to_string` of a truth value
abbrev pub bool_text : Bool → Text
bool_text true = codes "true"
bool_text false = codes "false"

-- The bytes of the names and values, counted as they are collected.
unfoldable pub scalar_bytes : ℕ → List (Text × Text) → ℕ
scalar_bytes count [] = count
scalar_bytes count ((name, value) ∷ rest) =
    scalar_bytes (saturating_add count (len name + len value)) rest

module _ (serde : Serde) where
  unfoldable pub scalar_claim : Value → Option Text
  scalar_claim (string value) = some value
  scalar_claim (boolean value) = some (bool_text value)
  scalar_claim (number (unsigned n)) = some (serde.u64_to_string n)
  scalar_claim (number (other text)) = some text
  scalar_claim null = none
  scalar_claim (array _) = none
  scalar_claim (object _) = none

  abbrev pub add_scalar : Text → Option Text → List (Text × Text) → List (Text × Text)
  add_scalar name none rest = rest
  add_scalar name (some value) rest = (name, value) ∷ rest

  -- `filter(!is_boundary_claim)` and `filter_map(scalar_claim)`
  unfoldable pub scalar_claims : Object → List (Text × Text)
  unfolding scalar_claim
  scalar_claims [] = []
  scalar_claims ((name, value) ∷ fields) =
      let rest = scalar_claims fields in
      if is_boundary_claim name then rest else add_scalar name (scalar_claim value) rest

  -- `from_verified_jwt_with_claims` behind the decoding of the payload
  unfoldable pub read_identity :
      Object → Text → Text → Text → Result IdentityError AuthenticatedPrincipalContext
  unfolding read_groups read_string_array scalar_claims scalar_bytes
  read_identity fields principal_id_claim kind_claim groups_claim = do
    principal_id ← ok_or missing_principal_id (and_then (lookup principal_id_claim fields) as_str)
    _ ← map_err (λ _. missing_principal_id) (validate_canonical principal_id (codes "principal_id"))
    kind ←
        ok_or invalid_principal_kind
          (and_then (and_then (lookup kind_claim fields) as_str) parse_principal_kind)
    stable_group_ids ← read_groups (lookup groups_claim fields)
    if ltb max_scalar_claim_bytes (scalar_bytes 0 (scalar_claims fields))
        then err too_large
        else (do
          amr ← read_string_array (lookup (codes "amr") fields)
          ok (record {
            principal_id = principal_id;
            kind = kind;
            stable_group_ids = stable_group_ids;
            trusted_claims =
                insert (codes "mfa") (bool_text (contains (codes "mfa") amr))
                  (from_pairs [] (scalar_claims fields));
            acr = and_then (lookup (codes "acr") fields) as_str;
            amr = amr;
          }))

  module _ (crypto : Crypto) (decode_padded : Text → Option Bytes) where
    -- The part between the first two of exactly two dots.
    abbrev pub payload_part : List Text → Result IdentityError Text
    payload_part (header ∷ payload ∷ signature ∷ []) =
        if is_empty payload then err not_jwt else ok payload
    payload_part _ = err not_jwt

    abbrev pub decode_payload : Text → Option Bytes
    decode_payload part = or_else (crypto.decode part) (decode_padded part)

    unfoldable pub payload_object : Text → Result IdentityError Object
    payload_object token = do
      part ← payload_part (split b'.' token)
      payload ← ok_or invalid_base64 (decode_payload part)
      value ← ok_or invalid_json (serde.from_slice payload)
      ok_or invalid_json (as_object value)

    unfoldable pub from_verified_jwt_with_claims :
        Text → Text → Text → Text → Result IdentityError AuthenticatedPrincipalContext
    unfolding payload_object read_identity
    from_verified_jwt_with_claims token principal_id_claim kind_claim groups_claim = do
      fields ← payload_object token
      read_identity fields principal_id_claim kind_claim groups_claim

    unfoldable pub from_verified_jwt : Text → Result IdentityError AuthenticatedPrincipalContext
    unfolding from_verified_jwt_with_claims
    from_verified_jwt token =
        from_verified_jwt_with_claims token (codes "principal_id") (codes "principal_kind")
          (codes "authguard_group_ids")

    unfoldable pub from_gateway_headers :
        HttpTypes
        → HeaderMap
        → Text
        → Text
        → Text
        → Text
        → Result IdentityError AuthenticatedPrincipalContext
    unfolding from_verified_jwt_with_claims gateway_token
    from_gateway_headers http headers token_header principal_id_claim kind_claim groups_claim = do
      token ← ok_or missing (gateway_token http headers token_header)
      from_verified_jwt_with_claims token principal_id_claim kind_claim groups_claim

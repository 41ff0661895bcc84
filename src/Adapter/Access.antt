-- ===== src/Adapter/Access.antt =====
-- Access contexts at a service: src/adapters/rust/src/access.rs and model.rs. Logs are left out, and so
-- are the channel of gRPC and the thread that an access is bound to: the binding is a state.
use authguard.Base.{
  Bool, true, false, Option, none, some, List, [], ◌∷◌, ◌++◌, Text, codes, contains, is_empty,
  strip_prefix, to_ascii_lowercase, trim, Result, ok, err, ◌>>=◌, map_err, ok_or, if◌then◌else◌, ℕ,
}
use authguard.Access.Signer.{Crypto, AccessContextError, AccessContextSigner, verify}
use authguard.Access.Context.{AccessContext, Json, decode}
use authguard.Delivery.Response.{access_context_header, scope_token_header}

pub record AccessGrantSet : Type 0 where
  pub allow_resource_urns : List Text
  pub deny_resource_urns : List Text

pub record RequestAccess : Type 0 where
  pub principal_id : Text
  pub action : Text
  pub resource_urn : Text
  pub grants : AccessGrantSet

-- `RequestAccess::from_context`
unfoldable pub from_context : AccessContext → RequestAccess
from_context context = record {
  principal_id = context.principal_id;
  action = context.action;
  resource_urn = context.resource_urn;
  grants = record {
    allow_resource_urns = context.allow_resource_urns;
    deny_resource_urns = context.deny_resource_urns;
  };
}

unfoldable pub from_grants : AccessGrantSet → RequestAccess
from_grants grants = record { principal_id = []; action = []; resource_urn = []; grants = grants }

-- An error of a context is kept as it is, in place of its text.
pub data AccessError : Type 0 where
  context_unavailable : AccessError
  action_mismatch : Text → Text → AccessError
  invalid_context : AccessContextError → AccessError
  resolver : Text → AccessError

-- The header of a request, where it is not empty.
abbrev pub filled_header : Option Text → Option Text
filled_header none = none
filled_header (some value) = if is_empty value then none else some value

module _ (crypto : Crypto) (serde : Json) (now : ℕ) where
  abbrev pub header_access :
      AccessContextSigner → Option Text → Result AccessError (Option RequestAccess)
  header_access signer none = ok none
  header_access signer (some encoded) = do
    payload ← map_err invalid_context (verify crypto signer encoded)
    context ← map_err invalid_context (decode crypto serde now payload)
    ok (some (from_context context))

  -- `HeaderAccessContextResolver::resolve`
  unfoldable pub header_resolve :
      AccessContextSigner → (Text → Option Text) → Result AccessError (Option RequestAccess)
  unfolding from_context verify decode
  header_resolve signer header = header_access signer (filled_header (header access_context_header))

  abbrev pub grpc_access :
      (Text → Result AccessError Text) → Option Text → Result AccessError (Option RequestAccess)
  grpc_access client none = ok none
  grpc_access client (some token) = do
    encoded ← client token
    context ← map_err invalid_context (decode crypto serde now encoded)
    ok (some (from_context context))

  -- `GrpcAccessContextResolver::resolve`
  unfoldable pub grpc_resolve :
      (Text → Result AccessError Text)
      → (Text → Option Text)
      → Result AccessError (Option RequestAccess)
  unfolding from_context decode
  grpc_resolve client header = grpc_access client (filled_header (header scope_token_header))

-- `GrpcScopeTokenClient::resolve_scope` on what the server answers
unfoldable pub client_resolve_scope :
    {Status : Type 0} → (Status → Text) → Result Status Text → Result AccessError Text
client_resolve_scope text answer = map_err (λ status. resolver (text status)) answer

-- The access that is bound, if any.
abbrev pub CurrentAccess : Type 0
CurrentAccess = Option RequestAccess

unfoldable pub set_current_access : RequestAccess → CurrentAccess → CurrentAccess
set_current_access request_access current = some request_access

unfoldable pub set_current : AccessGrantSet → CurrentAccess → CurrentAccess
unfolding from_grants set_current_access
set_current grants current = set_current_access (from_grants grants) current

abbrev pub grants_of : CurrentAccess → Option AccessGrantSet
grants_of none = none
grants_of (some access) = some access.grants

unfoldable pub require_current : CurrentAccess → Result AccessError AccessGrantSet
require_current current = ok_or context_unavailable (grants_of current)

unfoldable pub require_current_access : CurrentAccess → Result AccessError RequestAccess
require_current_access current = ok_or context_unavailable current

unfoldable pub clear_current : CurrentAccess → CurrentAccess
clear_current current = none

abbrev pub or_whole : Text → Option Text → Text
or_whole text none = text
or_whole text (some rest) = rest

abbrev pub starts_with : Text → Text → Bool
starts_with prefix text = elim (strip_prefix prefix text) [ none ↦ false | some rest ↦ true ]

unfoldable pub normalize_target : Text → Bool → Text
unfolding strip_prefix
normalize_target target tls =
    let trimmed = trim target in
    let name = or_whole trimmed (strip_prefix (codes "dns:///") trimmed) in
    if starts_with (codes "http://") name
    then name
    else if starts_with (codes "https://") name
    then name
    else if tls
    then codes "https://" ++ name
    else codes "http://" ++ name

abbrev pub true_texts : List Text
true_texts = codes "1" ∷ codes "true" ∷ codes "yes" ∷ codes "on" ∷ []

abbrev pub false_texts : List Text
false_texts = codes "0" ∷ codes "false" ∷ codes "no" ∷ codes "off" ∷ [] ∷ []

abbrev pub parsed_flag : Text → Text → Result AccessError Bool
parsed_flag name value =
    if contains value true_texts
    then ok true
    else if contains value false_texts
    then ok false
    else err (resolver (name ++ codes " must be a boolean"))

-- `parse_bool_env` on the value of the variable
unfoldable pub parse_bool_env : Text → Bool → Option Text → Result AccessError Bool
parse_bool_env name default none = ok default
parse_bool_env name default (some raw) = parsed_flag name (to_ascii_lowercase (trim raw))

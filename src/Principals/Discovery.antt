-- ===== src/Principals/Discovery.antt =====
-- Federated search: the types of src/common/src/principal/mod.rs and its check of queries.
use authguard.Base.{
  ℕ, Bool, false, ◌||◌, Option, none, some, List, [], ◌∷◌, ◌++◌, Text, codes, len, ltb, is_blank,
  is_empty, lookup, Result, ok, err, if◌then◌else◌,
}
use authguard.Model.{PrincipalKind, same_kind}
use authguard.Identity.Json.{Object}
use authguard.Principals.Store.{PrincipalDiscoveryError, invalid_query}

pub record ExternalPrincipalRef : Type 0 where
  pub provider_id : Text
  pub issuer : Text
  pub external_id : Text

pub record PrincipalMaterializationRequest : Type 0 where
  pub principal_id : Text
  pub reference : ExternalPrincipalRef

pub record PrincipalProjection : Type 0 where
  pub reference : ExternalPrincipalRef
  pub kind : PrincipalKind
  pub display_name : Text
  pub username : Option Text
  pub email : Option Text
  pub enabled : Bool
  pub attributes : Object

-- `identity_key`
abbrev pub identity_key : PrincipalProjection → Text × Text
identity_key principal = (principal.reference.issuer, principal.reference.external_id)

pub record PrincipalSearchQuery : Type 0 where
  pub text : Text
  pub kinds : List PrincipalKind
  pub provider_ids : List Text
  pub per_provider_limit : ℕ
  pub cursors : List (Text × Text)

abbrev pub default_page_size : ℕ
default_page_size = 20

abbrev pub max_page_size : ℕ
max_page_size = 100

abbrev pub max_text_bytes : ℕ
max_text_bytes = 256

-- `PrincipalSearchQuery::new`
unfoldable pub new_query : Text → PrincipalSearchQuery
new_query text = record {
  text = text;
  kinds = [];
  provider_ids = [];
  per_provider_limit = default_page_size;
  cursors = [];
}

unfoldable pub cursor_for : PrincipalSearchQuery → Text → Option Text
cursor_for query provider_id = lookup provider_id query.cursors

abbrev pub has_kind : PrincipalKind → List PrincipalKind → Bool
has_kind kind [] = false
has_kind kind (held ∷ kinds) = same_kind held kind || has_kind kind kinds

unfoldable pub supports_kind : PrincipalSearchQuery → PrincipalKind → Bool
supports_kind query kind = is_empty query.kinds || has_kind kind query.kinds

abbrev pub cursor_key : Text → Text → Text
cursor_key provider_id stream = provider_id ++ (b':' ∷ stream)

abbrev pub parsed_cursor : Text → Option ℕ → Result PrincipalDiscoveryError ℕ
parsed_cursor key none =
    err (invalid_query (codes "cursor for provider `" ++ key ++ codes "` is invalid"))
parsed_cursor key (some offset) = ok offset

abbrev pub read_cursor : (Text → Option ℕ) → Text → Option Text → Result PrincipalDiscoveryError ℕ
read_cursor parse key none = ok 0
read_cursor parse key (some value) = parsed_cursor key (parse value)

-- `parse` is `str::parse` for u32.
unfoldable pub offset_cursor :
    (Text → Option ℕ) → PrincipalSearchQuery → Text → Text → Result PrincipalDiscoveryError ℕ
unfolding cursor_for
offset_cursor parse query provider_id stream =
    let key = cursor_key provider_id stream in read_cursor parse key (cursor_for query key)

pub record PrincipalSearchPage : Type 0 where
  pub principals : List PrincipalProjection
  pub next_cursors : List (Text × Text)

unfoldable pub validate_search_query :
    PrincipalSearchQuery → Result PrincipalDiscoveryError (Unit {0})
validate_search_query query =
    if is_blank query.text
    then err (invalid_query (codes "search text must not be empty"))
    else if ltb max_text_bytes (len query.text)
    then err (invalid_query (codes "search text must not exceed 256 bytes"))
    else if ltb query.per_provider_limit 1 || ltb max_page_size query.per_provider_limit
    then err (invalid_query (codes "per_provider_limit must be between 1 and 100"))
    else ok tt

-- A search provider: its protocol, its configured id, and what it answers in one request.
pub record SearchProvider : Type 0 where
  pub provider : Text
  pub provider_id : Text
  pub discover : PrincipalSearchQuery → Result PrincipalDiscoveryError PrincipalSearchPage
  pub resolve_principal :
      ExternalPrincipalRef → Result PrincipalDiscoveryError (Option PrincipalProjection)

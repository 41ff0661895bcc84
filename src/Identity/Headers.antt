-- ===== src/Identity/Headers.antt =====
-- The token of a request: `gateway_token` of src/common/src/model/identity.rs. The crate `http` is the
-- parameter `HttpTypes`.
use authguard.Base.{
  Bool, not, ◌&&◌, Option, none, some, List, [], ◌∷◌, Text, codes, ◌==◌, eq_ignore_ascii_case,
  is_blank, is_empty, trim, split, split_once, lookup, if◌then◌else◌,
}

-- `HeaderName::from_bytes` with the name in lower case, `HeaderValue::from_str`, and `to_str`.
pub record HttpTypes : Type 0 where
  pub header_name : Text → Option Text
  pub header_value : Text → Option Text
  pub to_str : Text → Option Text

-- `HeaderMap`: names in lower case, each once.
abbrev pub HeaderMap : Type 0
HeaderMap = List (Text × Text)

abbrev pub then_some {ℓ} : {A : Type ℓ} → Bool → Option A → Option A
then_some test value = if test then value else none

-- `and_then`
abbrev pub and_then {ℓ κ} : {A : Type ℓ} {B : Type κ} → Option A → (A → Option B) → Option B
and_then none next = none
and_then (some a) next = next a

-- `or_else`
abbrev pub or_else {ℓ} : {A : Type ℓ} → Option A → Option A → Option A
or_else none other = other
or_else (some a) other = some a

unfoldable pub find_map {ℓ κ} : {A : Type ℓ} {B : Type κ} → (A → Option B) → List A → Option B
find_map f [] = none
find_map f (x ∷ xs) = or_else (f x) (find_map f xs)

unfoldable pub bearer_of : Text × Text → Option Text
bearer_of (scheme, token) =
    then_some (eq_ignore_ascii_case scheme (codes "bearer") && not (is_blank token))
      (some (trim token))

unfoldable pub bearer_value : Text → Option Text
unfolding bearer_of
bearer_value authorization = and_then (split_once b' ' authorization) bearer_of

abbrev pub named_value : Text → Text × Text → Option Text
named_value name (key, value) = then_some (key == name && not (is_empty value)) (some value)

abbrev pub is_authorization : Text → Bool
is_authorization token_header = eq_ignore_ascii_case token_header (codes "authorization")

abbrev pub token_cookie : Text
token_cookie = codes "authguard_token"

module _ (http : HttpTypes) where
  -- `headers.get(name)` and `to_str().ok()`
  unfoldable pub header_text : HeaderMap → Text → Option Text
  header_text headers name =
      and_then (http.header_name name) (λ lower. and_then (lookup lower headers) http.to_str)

  unfoldable pub cookie_value : HeaderMap → Text → Option Text
  unfolding header_text
  cookie_value headers name = and_then (header_text headers (codes "cookie")) (λ cookies.
      find_map (λ cookie. and_then (split_once b'=' (trim cookie)) (named_value name))
        (split b';' cookies))

  -- `filter(|value| !value.is_empty())`, and the form of the header
  abbrev pub configured_token : Text → Text → Option Text
  configured_token token_header value =
      then_some (not (is_empty value))
        (if is_authorization token_header then bearer_value value else some value)

  unfoldable pub gateway_token : HeaderMap → Text → Option Text
  unfolding header_text bearer_value cookie_value
  gateway_token headers token_header =
      or_else (and_then (header_text headers token_header) (configured_token token_header))
        (then_some (is_authorization token_header) (cookie_value headers token_cookie))

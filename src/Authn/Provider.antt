-- ===== src/Authn/Provider.antt =====
-- The provider interface `IProviderAdapter` of src/authn/src/provider/mod.rs, and
-- `provider_authentication` of src/authn/src/handler/oauth2.rs.
use authguard.Base.{
  ℕ, zero, suc, Bool, not, ◌&&◌, Option, none, some, List, [], ◌∷◌, Text, codes, len, leb, is_empty,
  lookup, remove, Result, if◌then◌else◌,
}
use authguard.Model.{PrincipalKind}
use authguard.Identity.Json.{Value, array, elements, as_str}
use authguard.Identity.Headers.{and_then, then_some}
use authguard.Identity.External.{ExternalIdentity, AuthenticationResult, new_authentication}

pub data ProviderError : Type 0 where
  invalid_configuration : Text → ProviderError
  missing_access_token missing_subject invalid_identity_token unsupported_flow : ProviderError
  transport : Text → ProviderError
  provider_rejected : ℕ → ProviderError

pub record OAuthLikeCallback : Type 0 where
  pub authorization_code : Text
  pub redirect_uri : Text
  pub client_id : Text
  pub client_secret : Text
  pub nonce : Option Text
  pub pkce_verifier : Option Text

pub record ProviderAuthorization : Type 0 where
  pub url : Text
  pub nonce : Option Text
  pub pkce_verifier : Option Text

-- What an adapter answers in one request.
pub record IProviderAdapter : Type 0 where
  pub authorize : Text → Text → Text → Result ProviderError ProviderAuthorization
  pub authenticate : OAuthLikeCallback → Result ProviderError ExternalIdentity
  pub authenticate_bearer : Text → PrincipalKind → Result ProviderError ExternalIdentity

pub data ProviderProtocol : Type 0 where
  o_auth2 oidc : ProviderProtocol

pub record ProviderRuntime : Type 0 where
  pub adapter : IProviderAdapter
  pub client_id : Text
  pub client_secret : Text
  pub callback_url : Text
  pub protocol : ProviderProtocol

abbrev pub as_array : Value → Option (List Value)
as_array (array values) = some (elements values)
as_array _ = none

abbrev pub fits : ℕ → Text → Bool
fits bound value = not (is_empty value) && leb (len value) bound

abbrev pub kept_method : Option Text → List Text → List Text
kept_method none rest = rest
kept_method (some value) rest = if fits 64 value then value ∷ rest else rest

-- `filter_map(as_str)` and the filter on the texts
unfoldable pub methods_of : List Value → List Text
methods_of [] = []
methods_of (value ∷ values) = kept_method (as_str value) (methods_of values)

-- `take`
unfoldable pub first : ℕ → List Text → List Text
first zero texts = []
first (suc n) [] = []
first (suc n) (text ∷ texts) = text ∷ first n texts

abbrev pub methods_or : Text → Option (List Text) → List Text
methods_or fallback none = fallback ∷ []
methods_or fallback (some []) = fallback ∷ []
methods_or fallback (some (method ∷ methods)) = method ∷ methods

unfoldable pub protocol_methods : ProviderProtocol → Option Value → List Text
unfolding methods_of first
protocol_methods o_auth2 claim = codes "oauth2" ∷ []
protocol_methods oidc claim =
    methods_or (codes "oidc")
      (and_then (and_then claim as_array) (λ values. some (first 16 (methods_of values))))

unfoldable pub protocol_class : ProviderProtocol → Option Value → Option Text
protocol_class o_auth2 claim = none
protocol_class oidc claim =
    and_then (and_then claim as_str) (λ value. then_some (fits 512 value) (some value))

-- `authenticated_at` is what the clock gives.
unfoldable pub provider_authentication :
    ExternalIdentity → ProviderProtocol → Option ℕ → AuthenticationResult
unfolding protocol_methods protocol_class new_authentication
provider_authentication identity protocol authenticated_at =
    new_authentication
      (record identity { claims = remove (codes "acr") (remove (codes "amr") identity.claims) })
      (protocol_methods protocol (lookup (codes "amr") identity.claims))
      (protocol_class protocol (lookup (codes "acr") identity.claims)) authenticated_at

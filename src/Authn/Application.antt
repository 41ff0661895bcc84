-- ===== src/Authn/Application.antt =====
-- `ApplicationResolver` of src/authn/src/route/application.rs. The crate `url` is the parameter `Urls`.
use authguard.Base.{
  ℕ, Bool, true, false, not, ◌||◌, ◌&&◌, Option, none, some, List, [], ◌∷◌, ◌++◌, Text, codes, ◌==◌,
  eqb, leb, any, contains, contains_char, starts_with_char, is_empty, strip_prefix, lookup,
  to_ascii_lowercase, Result, ok, err, ◌>>=◌, ok_or, if◌then◌else◌,
}
use authguard.Model.Condition.{is_some_and}
use authguard.Identity.Headers.{HttpTypes, HeaderMap, and_then, then_some, find_map}
use authguard.Authn.Failure.{ApiError, bad_request}

-- What the source calls of `Url`; the port is `port_or_known_default`.
pub record Urls (Url : Type 0) : Type 0 where
  pub parse : Text → Option Url
  pub scheme : Url → Text
  pub username : Url → Text
  pub path : Url → Text
  pub host_str : Url → Option Text
  pub password : Url → Option Text
  pub fragment : Url → Option Text
  pub query : Url → Option Text
  pub port : Url → Option ℕ

pub record ApplicationThemeProperties : Type 0 where
  pub id : Text
  pub stylesheet : Text

pub record ApplicationProperties : Type 0 where
  pub hosts : List Text
  pub display_name : Text
  pub logo : Text
  pub theme : Option ApplicationThemeProperties
  pub return_uris : List Text

pub record ResolvedApplication : Type 0 where
  pub id : Text
  pub display_name : Text
  pub logo : Text
  pub theme : Option ApplicationThemeProperties
  pub properties : ApplicationProperties

-- The applications of the configuration by their id, and the headers of a request.
pub record ApplicationResolver : Type 0 where
  pub applications : List (Text × ApplicationProperties)
  pub headers : HeaderMap

abbrev pub same_text : Option Text → Option Text → Bool
same_text none none = true
same_text (some a) (some b) = a == b
same_text _ _ = false

abbrev pub same_port : Option ℕ → Option ℕ → Bool
same_port none none = true
same_port (some a) (some b) = eqb a b
same_port _ _ = false

abbrev pub is_some {ℓ} : {A : Type ℓ} → Option A → Bool
is_some none = false
is_some (some a) = true

-- `strip_suffix("/**")`
unfoldable pub before_wildcard : Text → Option Text
before_wildcard [] = none
before_wildcard (c ∷ text) =
    let rest = before_wildcard text in
    if (c ∷ text) == codes "/**" then some [] else and_then rest (λ kept. some (c ∷ kept))

abbrev pub keep_char : ℕ → Text → Text
keep_char c rest = if eqb c b'/' && is_empty rest then [] else c ∷ rest

-- `trim_end_matches('/')`
unfoldable pub trim_end_slashes : Text → Text
trim_end_slashes [] = []
trim_end_slashes (c ∷ text) = keep_char c (trim_end_slashes text)

abbrev pub is_ascii_control : ℕ → Bool
is_ascii_control c = leb c 31 || eqb c 127

-- The destination is no path of this origin.
abbrev pub leaves_origin : Text → Bool
leaves_origin destination =
    is_some (strip_prefix (codes "//") destination)
    || contains_char 92 destination
    || any is_ascii_control destination

abbrev pub host_rejected : Text → Bool
host_rejected value =
    is_empty value || contains_char b'/' value || contains_char b'@' value || contains_char 92 value

abbrev pub resolved_as : Text → Text × ApplicationProperties → Option ResolvedApplication
resolved_as host (id, application) = then_some (contains host application.hosts) (
    some (record {
      id = id;
      display_name = application.display_name;
      logo = application.logo;
      theme = application.theme;
      properties = application;
    }))

module _ {Url : Type 0} (urls : Urls Url) where
  -- One entry of `return_uris` against a candidate.
  unfoldable pub path_allowed : Bool → Text → Text → Bool
  unfolding trim_end_slashes strip_prefix
  path_allowed wildcard configured candidate =
      let path = trim_end_slashes configured in
      if wildcard
      then is_empty path
        || candidate == path
        || is_some (strip_prefix (path ++ codes "/") candidate)
      else candidate == configured

  abbrev pub same_origin : Url → Url → Bool
  same_origin candidate configured =
      urls.scheme candidate == urls.scheme configured
      && same_text (urls.host_str candidate) (urls.host_str configured)
      && same_port (urls.port candidate) (urls.port configured)

  abbrev pub url_allowed : Bool → Url → Option Url → Bool
  url_allowed wildcard candidate none = false
  url_allowed wildcard candidate (some configured) =
      same_origin candidate configured
      && path_allowed wildcard (urls.path configured) (urls.path candidate)

  abbrev pub entry_allowed : Url → Text → Option Text → Bool
  entry_allowed candidate configured none = url_allowed false candidate (urls.parse configured)
  entry_allowed candidate configured (some prefix) = url_allowed true candidate (urls.parse prefix)

  unfoldable pub matches_return_uri : ApplicationProperties → Url → Bool
  unfolding before_wildcard path_allowed
  matches_return_uri application candidate =
      any (λ configured. entry_allowed candidate configured (before_wildcard configured))
        application.return_uris

  abbrev pub invalid_host : ApiError
  invalid_host = bad_request (codes "Host header is invalid")

  unfoldable pub parsed_host : Text → Result ApiError Text
  parsed_host value = if host_rejected value then err invalid_host else (do
    parsed ← ok_or invalid_host (urls.parse (codes "https://" ++ value))
    if not (is_empty (urls.username parsed))
          || is_some (urls.password parsed)
          || not (urls.path parsed == codes "/")
        then err invalid_host
        else ok_or invalid_host
            (and_then (urls.host_str parsed) (λ host. some (to_ascii_lowercase host))))

  module _ (http : HttpTypes) (resolver : ApplicationResolver) where
    abbrev pub host_of : Option Text → Result ApiError (Option Text)
    host_of none = ok none
    host_of (some value) = do
      text ← ok_or invalid_host (http.to_str value)
      host ← parsed_host text
      ok (some host)

    unfoldable pub request_host : Result ApiError (Option Text)
    unfolding parsed_host
    request_host = host_of (lookup (codes "host") resolver.headers)

    abbrev pub application_of : Text → Option ResolvedApplication
    application_of host = find_map (resolved_as host) resolver.applications

    unfoldable pub resolve : Result ApiError (Option ResolvedApplication)
    unfolding find_map request_host
    resolve = do host ← request_host; ok (and_then host application_of)

    abbrev pub not_current : Text → Url → Bool
    not_current host parsed =
        not (urls.scheme parsed == codes "https")
        || not (same_text (urls.host_str parsed) (some host))
        || not (is_empty (urls.username parsed))
        || is_some (urls.password parsed)
        || is_some (urls.fragment parsed)

    -- The candidate of a destination that begins with `/`
    abbrev pub relative_candidate : Text → Text → Result ApiError Url
    relative_candidate host destination =
        if leaves_origin destination
        then err (bad_request (codes "return_to must be a same-origin path"))
        else ok_or (bad_request (codes "return_to is invalid"))
            (urls.parse (codes "https://" ++ host ++ destination))

    abbrev pub not_configured : ApiError
    not_configured = bad_request (codes "return_to is not configured for this application")

    -- The candidate of any other destination
    abbrev pub absolute_candidate : Text → Option ResolvedApplication → Text → Result ApiError Url
    absolute_candidate host none destination =
        err (bad_request (codes "absolute return_to requires a configured application"))
    absolute_candidate host (some application) destination = do
      parsed ← ok_or (bad_request (codes "return_to is invalid")) (urls.parse destination)
      if not_current host parsed
          then err (bad_request (codes "return_to must target the current HTTPS host"))
          else if not (matches_return_uri application.properties parsed)
          then err not_configured
          else ok parsed

    abbrev pub candidate_of : Text → Option ResolvedApplication → Text → Result ApiError Url
    candidate_of host application destination =
        if starts_with_char b'/' destination
        then relative_candidate host destination
        else absolute_candidate host application destination

    abbrev pub with_query : Text → Option Text → Text
    with_query path none = path
    with_query path (some query) = path ++ (b'?' ∷ query)

    unfoldable pub validate_destination : Text → Bool → Result ApiError Text
    unfolding resolve matches_return_uri strip_prefix
    validate_destination destination require_application =
        if is_empty destination then ok [] else (do
          found ← request_host
          host ← ok_or (bad_request (codes "Host header is required")) found
          application ← resolve
          if require_application && not (is_some application)
              then err (bad_request (codes "return_to requires a configured application host"))
              else (do
                candidate ← candidate_of host application destination
                if is_some_and application
                      (λ app. not (matches_return_uri app.properties candidate))
                    then err not_configured
                    else ok (with_query (urls.path candidate) (urls.query candidate))))

    abbrev pub validate_return_to : Text → Result ApiError Text
    validate_return_to return_to = validate_destination return_to true

    abbrev pub validate_response_return_uri : Text → Result ApiError Text
    validate_response_return_uri return_uri = validate_destination return_uri false

-- ===== src/Authn/FlowExamples.antt =====
-- A flow of OAuth with the cache in memory, from the authorization to the callback.
use authguard.Base.{
  ◌<◌, ◌≡◌, refl, arith, true, false, Option, none, some, [], ◌∷◌, ◌++◌, Text, codes, ◌==◌, trim,
  len, strip_prefix, split_once, lookup, Result, ok, err, if◌then◌else◌,
}
use authguard.Access.Examples.{toy}
use authguard.Cache.Memory
use authguard.Cache.Memory.{
  MemoryAuthorizationCache, new_cache, expires_at, saturating_add, as_secs,
}
use authguard.Cache.Use.{run}
use authguard.Identity.Headers.{HeaderMap, and_then}
use authguard.Identity.Canonical.{validate_canonical}
use authguard.Identity.External.{key}
use authguard.Delivery.CheckExamples.{all_headers}
use authguard.Authn.Challenge.{memory_cache}
use authguard.Authn.Application.{
  Urls, ApplicationProperties, ApplicationResolver, validate_destination,
}
use authguard.Authn.ApplicationLaws.{Destination, validate_destination-Destination}
use authguard.Authn.Provider.{
  ProviderRuntime, ProviderAuthorization, o_auth2, missing_access_token, unsupported_flow,
}
use authguard.Authn.Failure.{ApiError}
use authguard.Jwt.Signing.{sign}
use authguard.Authn.Login.{Response, redirect}
use authguard.Authn.Oauth2.{
  OAuth2Handler, Moment, CallbackQuery, prepare_authorization, callback, random_id,
  authorization_of, with_flow, invalid_oauth_state, oauth_challenge_purpose,
}
use authguard.Authn.FlowLaws.{Completed, callback-Completed}
use authguard.Authn.OneTime.{callback_at, callback_once, callback-prepare_authorization}
use authguard.Authn.Examples.{Bindings, bindings, on_first_login, identity_of, keeps}
use authguard.Authn.PipelineExamples.{toy_rsa, pipeline, one_object}
use authguard.Authn.FlowCodec.{codec, reads_back}

-- A URL is a host and a path.
abbrev url_of : Text × Text → Option (Text × Text)
url_of (host, rest) = some (host, b'/' ∷ rest)

abbrev or_root : Text → Option (Text × Text) → Option (Text × Text)
or_root text none = some (text, codes "/")
or_root text (some parts) = url_of parts

abbrev toy_urls : Urls (Text × Text)
toy_urls = record {
  parse = λ text.
      and_then (strip_prefix (codes "https://") text) (λ rest. or_root rest (split_once b'/' rest));
  scheme = λ url. codes "https";
  username = λ url. [];
  path = λ url. url.1;
  host_str = λ url. some url.0;
  password = λ url. none;
  fragment = λ url. none;
  query = λ url. none;
  port = λ url. some 443;
}

abbrev application : ApplicationProperties
application = record {
  hosts = codes "a.b" ∷ [];
  display_name = codes "A";
  logo = [];
  theme = none;
  return_uris = codes "https://a.b/**" ∷ [];
}

abbrev app_headers : HeaderMap
app_headers = (codes "host", codes "a.b") ∷ []

abbrev resolver : ApplicationResolver
resolver = record { applications = (codes "app", application) ∷ []; headers = app_headers }

leads : validate_destination toy_urls all_headers resolver (codes "/jobs") true ≡ ok (codes "/jobs")
unfolding validate_destination lookup ◌==◌ split_once
leads = refl

validate_destination-Destination_example :
    Destination toy_urls all_headers resolver (codes "/jobs") (codes "/jobs") true
validate_destination-Destination_example =
    validate_destination-Destination toy_urls all_headers resolver (codes "/jobs") (codes "/jobs")
      true refl leads

abbrev runtime : ProviderRuntime
runtime = record {
  adapter = record {
    authorize = λ id callback_url state. ok (record {
      url = codes "https://corp/?state=" ++ state;
      nonce = some (codes "n");
      pkce_verifier = none;
    });
    authenticate = λ answer.
        if answer.authorization_code == codes "good"
        then ok (identity_of (codes "corp"))
        else err missing_access_token;
    authenticate_bearer = λ text kind. err unsupported_flow;
  };
  client_id = codes "id";
  client_secret = codes "secret";
  callback_url = codes "https://a.b/callback";
  protocol = o_auth2;
}

abbrev handler : OAuth2Handler (Unit {0})
handler = record {
  providers = (codes "corp", runtime) ∷ [];
  applications = resolver.applications;
  pipeline = pipeline;
  challenge_ttl = 60000000000;
}

abbrev empty_cache : MemoryAuthorizationCache
empty_cache = new_cache 10 300000000000

abbrev started : Result ApiError Text × MemoryAuthorizationCache
started =
    prepare_authorization toy_rsa toy (λ text. none) one_object all_headers toy_urls (λ text. text)
      codec bindings handler (memory_cache 100) (codes "corp") app_headers (codes "/jobs") true none
      (3 ∷ []) empty_cache

starts : started.0 ≡ ok (codes "https://corp/?state=2")
unfolding prepare_authorization lookup ◌==◌ split_once Memory.put_if_absent new_cache
starts = refl

abbrev answer : CallbackQuery
answer = record { code = codes "good"; state = codes "2" }

abbrev moment : Moment
moment = record { authenticated_at = some 110; now = 110; random = 2 ∷ [] }

abbrev called : Result ApiError Response × (Bindings × MemoryAuthorizationCache)
called =
    callback toy_rsa toy (λ text. none) one_object all_headers toy_urls (λ text. text) codec
      bindings handler (memory_cache 110) (codes "corp") answer moment [] started.1

abbrev the_cookie : Text
the_cookie =
    codes "authguard_token="
    ++ sign toy_rsa toy tt (1 ∷ [])
    ++ codes "; Path=/; Max-Age=100; HttpOnly; Secure; SameSite=Lax"

logs_in_and_redirects : called.0 ≡ ok (redirect (codes "/jobs") the_cookie)
unfolding callback Memory.take prepare_authorization ◌==◌ split_once Memory.put_if_absent new_cache
    key validate_canonical trim len sign
logs_in_and_redirects = refl

callback-Completed_example :
    Completed toy_rsa toy
      (λ text. none)
      one_object
      all_headers
      toy_urls
      (λ text. text)
      codec
      bindings
      handler
      (keeps on_first_login)
      (memory_cache 110)
      (codes "corp")
      answer
      moment
      started.1
      called.1.1
      called.1.0
      (redirect (codes "/jobs") the_cookie)
callback-Completed_example =
    callback-Completed toy_rsa toy (λ text. none) one_object all_headers toy_urls (λ text. text)
      codec bindings handler (keeps on_first_login) (memory_cache 110) (codes "corp") answer moment
      [] called.1.0 started.1 called.1.1 (redirect (codes "/jobs") the_cookie)
      (λ i. (logs_in_and_redirects i, called.1))

-- A second browser sends the same state, with a code of its own.
abbrev replayed : CallbackQuery
replayed = record { code = codes "stolen"; state = codes "2" }

callback_once_example :
    let second =
      callback_at toy_rsa toy
        (λ text. none)
        one_object
        all_headers
        toy_urls
        (λ text. text)
        codec
        bindings
        handler
        120
        (codes "corp")
        replayed
        moment
        []
        called.1.1 in
    (second.0 ≡ err invalid_oauth_state) × (second.1.0 ≡ [])
unfolding run
callback_once_example =
    callback_once toy_rsa toy (λ text. none) one_object all_headers toy_urls (λ text. text) codec
      bindings handler 110 120 (codes "corp") (codes "corp") answer replayed moment moment []
      called.1.0 [] started.1 called.1.1 called.0 [] refl tt refl

in_time : 110 < expires_at empty_cache 100 handler.challenge_ttl
unfolding expires_at new_cache
in_time = omega arith

-- A callback of another flow.
abbrev other_query : CallbackQuery
other_query = record { code = codes "good"; state = codes "another" }

other_digest :
    (oauth_challenge_purpose ++ (0 ∷ codes "another")
      == oauth_challenge_purpose ++ (0 ∷ random_id toy (3 ∷ [])))
    ≡ false
unfolding ◌==◌
other_digest = refl

callback-prepare_authorization_example :
    (destination : Text) × (authorization : ProviderAuthorization) × (authorization.url
      ≡ codes "https://corp/?state=2")
    × (authorization_of toy_rsa toy
          (λ text. none)
          one_object
          all_headers
          toy_urls
          (λ text. text)
          codec
          bindings
          handler
          (codes "corp")
          app_headers
          (codes "/jobs")
          true
          (random_id toy (3 ∷ []))
        ≡ ok (destination, authorization))
    × (let called =
          callback_at toy_rsa toy
            (λ text. none)
            one_object
            all_headers
            toy_urls
            (λ text. text)
            codec
            bindings
            handler
            110
            (codes "corp")
            (record { code = codes "good"; state = random_id toy (3 ∷ []) })
            moment
            []
            (callback_at toy_rsa toy
              (λ text. none)
              one_object
              all_headers
              toy_urls
              (λ text. text)
              codec
              bindings
              handler
              105
              (codes "corp")
              other_query
              moment
              []
              started.1).1.1 in
        (called.0, called.1.0)
        ≡ with_flow toy_rsa toy
            (λ text. none)
            one_object
            all_headers
            toy_urls
            (λ text. text)
            codec
            bindings
            handler
            (codes "corp")
            (codes "good")
            moment
            []
            (ok (record {
              provider = codes "corp";
              return_uri = destination;
              redirect_after_login = true;
              nonce = authorization.nonce;
              pkce_verifier = authorization.pkce_verifier;
              link_principal_id = none;
            })))
unfolding run prepare_authorization
callback-prepare_authorization_example =
    callback-prepare_authorization toy_rsa toy (λ text. none) one_object all_headers toy_urls
      (λ text. text) codec bindings handler reads_back 100 110 (codes "corp") app_headers
      (codes "/jobs") true none (3 ∷ []) (codes "good") (codes "https://corp/?state=2") moment []
      empty_cache started.1 [] 105 (codes "corp") other_query moment [] (λ i. (starts i, started.1))
      in_time tt (omega arith) other_digest

-- ===== src/Authn/ApplicationLaws.antt =====
-- Where a validated destination may lead.
use authguard.Base.{
  ◌≡◌, ◌⊎◌, refl, sym, ap, subst, ◌∙◌, arith, inl, inr, Bool, true, false, not, ◌&&◌, Bool-cases,
  Option, none, some, ◌++◌, ◌||◌, ◌==◌, eq_iff, strip_prefix, contains_char, any, leb, eqb, Text,
  codes, starts_with_char, is_empty, ok, ok_or, bind-eq-ok, ok_inj, ok_or-eq-ok, unless-eq-ok,
}
use authguard.Model.Condition.{is_some_and}
use authguard.Identity.Headers.{HttpTypes}
use authguard.Authn.Failure.{bad_request}
use authguard.Authn.Application.{
  Urls, ResolvedApplication, ApplicationResolver, is_some, matches_return_uri, request_host,
  application_of, resolve, not_current, leaves_origin, is_ascii_control, same_text,
  absolute_candidate, candidate_of, not_configured, with_query, validate_destination,
}

is_some-false : (o : Option Text) → is_some o ≡ false → o ≡ none
is_some-false none h = refl
is_some-false (some text) h = cc

same_text-some : (o : Option Text) (host : Text) → same_text o (some host) ≡ true → o ≡ some host
same_text-some none host h = cc
same_text-some (some text) host h = ap some ((eq_iff text host).0 h)

all_pass :
    (a b c d e : Bool)
    → (not a || not b || not c || d || e) ≡ false
    → (a ≡ true) × (b ≡ true) × (c ≡ true) × (d ≡ false) × (e ≡ false)
all_pass a b c d e h = (ground arith, ground arith, ground arith, ground arith, ground arith)

none_pass : (a b c : Bool) → (a || b || c) ≡ false → (a ≡ false) × (b ≡ false) × (c ≡ false)
none_pass a b c h = (ground arith, ground arith, ground arith)

module _ {Url : Type 0} (urls : Urls Url) (http : HttpTypes) (resolver : ApplicationResolver) where
  -- Begins with one slash, and has no backslash and no control character.
  pub record IsPath (destination : Text) : Type 0 where
    pub rooted : starts_with_char b'/' destination ≡ true
    pub one_slash : strip_prefix (codes "//") destination ≡ none
    pub no_backslash : contains_char 92 destination ≡ false
    pub no_control : any (λ c. leb c 31 || eqb c 127) destination ≡ false

  -- A URL of HTTPS at the host, without user, password and fragment.
  pub record IsAtHost (host : Text) (url : Url) : Type 0 where
    pub https : urls.scheme url ≡ codes "https"
    pub at_host : urls.host_str url ≡ some host
    pub no_user : is_empty (urls.username url) ≡ true
    pub no_password : urls.password url ≡ none
    pub no_fragment : urls.fragment url ≡ none

  abbrev pub Parsed : Text → Text → Url → Type 0
  Parsed host destination url =
      (IsPath destination × (urls.parse (codes "https://" ++ host ++ destination) ≡ some url))
      ⊎ ((starts_with_char b'/' destination ≡ false)
          × (urls.parse destination ≡ some url)
          × IsAtHost host url)

  not_current-IsAtHost :
      (host : Text) (url : Url)
      → not_current urls http resolver host url ≡ false
      → IsAtHost host url
  not_current-IsAtHost host url h =
      let (https, at_host, no_user, no_password, no_fragment) =
        all_pass (urls.scheme url == codes "https") (same_text (urls.host_str url) (some host))
          (is_empty (urls.username url)) (is_some (urls.password url)) (is_some (urls.fragment url))
          h in
      record {
        https = (eq_iff (urls.scheme url) (codes "https")).0 https;
        at_host = same_text-some (urls.host_str url) host at_host;
        no_user = no_user;
        no_password = is_some-false (urls.password url) no_password;
        no_fragment = is_some-false (urls.fragment url) no_fragment;
      }

  leaves_origin-IsPath :
      (destination : Text)
      → starts_with_char b'/' destination ≡ true
      → leaves_origin destination ≡ false
      → IsPath destination
  leaves_origin-IsPath destination rooted h =
      let (one, back, control) =
        none_pass (is_some (strip_prefix (codes "//") destination)) (contains_char 92 destination)
          (any is_ascii_control destination) h in
      record {
        rooted = rooted;
        one_slash = is_some-false (strip_prefix (codes "//") destination) one;
        no_backslash = back;
        no_control = control;
      }

  absolute-eq-ok :
      (host destination : Text) (application : Option ResolvedApplication) (url : Url)
      → absolute_candidate urls http resolver host application destination ≡ ok url
      → (urls.parse destination ≡ some url) × IsAtHost host url × (is_some application ≡ true)
  absolute-eq-ok host destination none url h = cc
  absolute-eq-ok host destination (some application) url h =
      let (parsed, e₁, h₁) =
        bind-eq-ok (ok_or (bad_request (codes "return_to is invalid")) (urls.parse destination)) _
          h in
      let (current, h₂) = unless-eq-ok (not_current urls http resolver host parsed) _ _ h₁ in
      let (configured, h₃) =
        unless-eq-ok (not (matches_return_uri urls application.properties parsed))
          (not_configured urls http resolver) _ h₂ in
      (
        ok_or-eq-ok _ _ e₁ ∙ ap some (ok_inj h₃),
        subst (IsAtHost host) (ok_inj h₃) (not_current-IsAtHost host parsed current),
        refl,
      )

  candidate_of-eq-ok :
      (host destination : Text) (application : Option ResolvedApplication) (url : Url)
      → candidate_of urls http resolver host application destination ≡ ok url
      → Parsed host destination url
        × ((starts_with_char b'/' destination ≡ true) ⊎ (is_some application ≡ true))
  candidate_of-eq-ok host destination application url h =
      elim (Bool-cases (starts_with_char b'/' destination)) [
        | inl relative ↦
            let (stays, h₁) =
              unless-eq-ok (leaves_origin destination)
                (bad_request (codes "return_to must be a same-origin path")) _ (rw relative at h) in
            (
              inl (leaves_origin-IsPath destination relative stays, ok_or-eq-ok _ _ h₁),
              inl relative,
            )
        | inr absolute ↦
            let (parsed, at_host, known) =
              absolute-eq-ok host destination application url (rw absolute at h) in
            (inr (absolute, parsed, at_host), inr known)
      ]

  -- Where the destination may lead, by the application of the host.
  abbrev pub Allowed : Text → Bool → Url → Option ResolvedApplication → Type 0
  Allowed destination require_application url none =
      (require_application ≡ false) × (starts_with_char b'/' destination ≡ true)
  Allowed destination require_application url (some application) =
      matches_return_uri urls application.properties url ≡ true

  resolve-eq-ok :
      (host : Text) (application : Option ResolvedApplication)
      → request_host urls http resolver ≡ ok (some host)
      → resolve urls http resolver ≡ ok application
      → application_of urls http resolver host ≡ application
  unfolding resolve
  resolve-eq-ok host application has_host h = ok_inj (rw has_host at h)

  allowed_of :
      (destination : Text) (require_application : Bool) (url : Url)
      (application : Option ResolvedApplication)
      → (require_application && not (is_some application)) ≡ false
      → (starts_with_char b'/' destination ≡ true) ⊎ (is_some application ≡ true)
      → is_some_and application (λ app. not (matches_return_uri urls app.properties url)) ≡ false
      → Allowed destination require_application url application
  allowed_of destination require_application url none r (inl relative) m = (ground arith, relative)
  allowed_of destination require_application url none r (inr known) m = cc
  allowed_of destination require_application url (some application) r known m = ground arith

  -- A destination that was accepted, and the path that it leads to.
  pub record Destination (destination path : Text) (require_application : Bool) : Type 0 where
    pub host : Text
    pub has_host : request_host urls http resolver ≡ ok (some host)
    pub url : Url
    pub path_of : path ≡ with_query urls http resolver (urls.path url) (urls.query url)
    pub parsed : Parsed host destination url
    pub allowed :
        Allowed destination require_application url (application_of urls http resolver host)

  -- A destination is accepted as the path and query of a URL. Either the destination begins with one
  -- slash and has no backslash and no control character, and the URL is that of the request's host with
  -- the destination behind it; or the destination is itself a URL of HTTPS at the request's host, without
  -- user, password and fragment. The application of the host has a return URI that lets the URL through;
  -- where the host has none, the destination is such a path, and no application was asked for.
  pub validate_destination-Destination :
      (destination path : Text) (require_application : Bool)
      → is_empty destination ≡ false
      → validate_destination urls http resolver destination require_application ≡ ok path
      → Destination destination path require_application
  unfolding validate_destination
  validate_destination-Destination destination path require_application filled h =
      let (found, e₁, h₁) = bind-eq-ok (request_host urls http resolver) _ (rw filled at h) in
      let (host, e₂, h₂) =
        bind-eq-ok (ok_or (bad_request (codes "Host header is required")) found) _ h₁ in
      let has_host = e₁ ∙ ap ok (ok_or-eq-ok _ _ e₂) in
      let (application, e₃, h₃) = bind-eq-ok (resolve urls http resolver) _ h₂ in
      let same : application_of urls http resolver host ≡ application =
        resolve-eq-ok host application has_host e₃ in
      let (known, h₄) =
        unless-eq-ok (require_application && not (is_some application))
          (bad_request (codes "return_to requires a configured application host")) _ h₃ in
      let (url, e₅, h₅) =
        bind-eq-ok (candidate_of urls http resolver host application destination) _ h₄ in
      let (matched, h₆) =
        unless-eq-ok
          (is_some_and application (λ app. not (matches_return_uri urls app.properties url)))
          (not_configured urls http resolver) _ h₅ in
      let (parsed, origin) = candidate_of-eq-ok host destination application url e₅ in
      record {
        host = host;
        has_host = has_host;
        url = url;
        path_of = sym (ok_inj h₆);
        parsed = parsed;
        allowed =
            subst (Allowed destination require_application url) (sym same)
              (allowed_of destination require_application url application known origin matched);
      }

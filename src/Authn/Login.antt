-- ===== src/Authn/Login.antt =====
-- `LoginResponse` of src/authn/src/handler/mod.rs.
use authguard.Base.{ℕ, ◌++◌, Text, codes, is_empty, Result, ok, err, ◌>>=◌, ok_or, if◌then◌else◌}
use authguard.Identity.Json.{Serde}
use authguard.Identity.Headers.{HttpTypes, token_cookie}
use authguard.Identity.Claims.{AuthenticatedPrincipalContext}
use authguard.Authn.Failure.{ApiError, internal}
use authguard.Authn.Pipeline.{IssuedAuthentication}

pub record LoginResponse : Type 0 where
  pub access_token : Text
  pub token_type : Text
  pub expires_in : ℕ
  pub return_uri : Text
  pub principal : AuthenticatedPrincipalContext

-- `LoginResponse::new`
unfoldable pub login_response : IssuedAuthentication → Text → LoginResponse
login_response issued return_uri = record {
  access_token = issued.access_token;
  token_type = codes "Bearer";
  expires_in = issued.expires_in;
  return_uri = return_uri;
  principal = issued.principal;
}

-- An answer with its cookie; each of the two is marked `no-store`.
pub data Response : Type 0 where
  json : LoginResponse → Text → Response
  redirect : Text → Text → Response
  failure : ApiError → Response

module _ (http : HttpTypes) (serde : Serde) where
  abbrev pub cookie_text : LoginResponse → Text
  cookie_text response =
      token_cookie
      ++ codes "="
      ++ response.access_token
      ++ codes "; Path=/; Max-Age="
      ++ serde.u64_to_string response.expires_in
      ++ codes "; HttpOnly; Secure; SameSite=Lax"

  unfoldable pub session_cookie : LoginResponse → Result ApiError Text
  session_cookie response =
      ok_or (internal (codes "canonical token could not be issued"))
        (http.header_value (cookie_text response))

  abbrev pub answer_with : LoginResponse → Result ApiError Text → Response
  answer_with response (ok cookie) = json response cookie
  answer_with response (err error) = failure error

  unfoldable pub into_response : LoginResponse → Response
  unfolding session_cookie
  into_response response = answer_with response (session_cookie response)

  unfoldable pub into_redirect : LoginResponse → Result ApiError Response
  unfolding into_response
  into_redirect response =
      if is_empty response.return_uri
      then ok (into_response response)
      else (do cookie ← session_cookie response; ok (redirect response.return_uri cookie))

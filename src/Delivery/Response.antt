-- ===== src/Delivery/Response.antt =====
-- The answers of `check` in src/authz/src/handler/authorization.rs. A builder of the crate `envoy-types`
-- is the list of what it was given.
use authguard.Base.{
  Bool, true, false, not, ◌||◌, Option, none, some, List, [], ◌∷◌, ◌++◌, Text, codes,
  eq_ignore_ascii_case, if◌then◌else◌,
}
use authguard.Delivery.Check.{
  HttpStatusCode, bad_request, unauthorized, internal_server_error, AccessDelivery, direct, token,
}

abbrev pub access_context_header : Text
access_context_header = codes "x-authguard-context"

abbrev pub scope_token_header : Text
scope_token_header = codes "x-authguard-scope-token"

abbrev pub authorization_header : Text
authorization_header = codes "authorization"

abbrev pub legacy_access_headers : List Text
legacy_access_headers =
    codes "x-authguard-subject-id"
    ∷ codes "x-authguard-action"
    ∷ codes "x-authguard-resource-urn"
    ∷ []

abbrev pub untrusted_identity_headers : List Text
untrusted_identity_headers =
    codes "x-authguard-id-token"
    ∷ codes "x-authguard-issuer"
    ∷ codes "x-authguard-external-id"
    ∷ codes "x-authguard-groups"
    ∷ codes "x-authguard-claim-tenant-id"
    ∷ []

-- What Envoy does with a header that is added: `HeaderAppendAction` of the crate `envoy-types`.
pub data HeaderAppendAction : Type 0 where
  append_if_exists_or_add add_if_absent overwrite_if_exists_or_add overwrite_if_exists :
      HeaderAppendAction

-- `add_header`: the key, the value and the append action
pub record HeaderValueOption : Type 0 where
  pub key : Text
  pub value : Text
  pub append_action : HeaderAppendAction

abbrev pub add_header : Text → Text → HeaderAppendAction → HeaderValueOption
add_header key value append_action = record {
  key = key;
  value = value;
  append_action = append_action;
}

-- `OkHttpResponseBuilder`: the headers that the gateway removes, and those that it adds.
pub record OkHttpResponse : Type 0 where
  pub headers_to_remove : List Text
  pub headers : List HeaderValueOption

-- `is_none()` of the token that is signed anew
abbrev pub is_none : Option Text → Bool
is_none none = true
is_none (some text) = false

abbrev pub when : Bool → Text → List Text
when b header = if b then header ∷ [] else []

-- The alternate delivery header
abbrev pub alternate_header : AccessDelivery → Text
alternate_header (direct encoded) = scope_token_header
alternate_header (token text) = access_context_header

abbrev pub delivery_header : AccessDelivery → HeaderValueOption
delivery_header (direct encoded) =
    add_header access_context_header encoded overwrite_if_exists_or_add
delivery_header (token text) = add_header scope_token_header text overwrite_if_exists_or_add

abbrev pub bearer : Option Text → List HeaderValueOption
bearer none = []
bearer (some text) =
    add_header authorization_header (codes "Bearer " ++ text) overwrite_if_exists_or_add ∷ []

unfoldable pub allowed_http_response : Text → AccessDelivery → Option Text → OkHttpResponse
allowed_http_response token_header delivery resign_token = record {
  headers_to_remove =
      when (is_none resign_token) authorization_header
      ++ (legacy_access_headers
          ++ (untrusted_identity_headers
              ++ (when
                    (is_none resign_token
                      || not (eq_ignore_ascii_case token_header authorization_header))
                    token_header
                  ++ (alternate_header delivery ∷ []))));
  headers = delivery_header delivery ∷ bearer resign_token;
}

pub data GrpcCode : Type 0 where
  ok_code unauthenticated_code invalid_argument_code internal_code permission_denied_code : GrpcCode

-- The body is the JSON object of a code and a message.
pub record DeniedHttpResponse : Type 0 where
  pub status : HttpStatusCode
  pub headers : List (Text × Text)
  pub code : Text
  pub message : Text

pub data HttpResponse : Type 0 where
  ok_response : OkHttpResponse → HttpResponse
  denied_response : DeniedHttpResponse → HttpResponse

pub record CheckResponse : Type 0 where
  pub status : GrpcCode
  pub http : HttpResponse

abbrev pub grpc_status : HttpStatusCode → GrpcCode
grpc_status unauthorized = unauthenticated_code
grpc_status bad_request = invalid_argument_code
grpc_status internal_server_error = internal_code
grpc_status _ = permission_denied_code

abbrev pub challenge : HttpStatusCode → List (Text × Text)
challenge unauthorized = (codes "www-authenticate", codes "Bearer realm=\"authguard\"") ∷ []
challenge _ = []

unfoldable pub denied : HttpStatusCode → Text → Text → CheckResponse
denied status code message = record {
  status = grpc_status status;
  http = denied_response (record {
    status = status;
    headers = (codes "content-type", codes "application/json") ∷ challenge status;
    code = code;
    message = message;
  });
}

-- ===== src/Delivery/Request.antt =====
-- The request of the gateway: `CheckRequest` of the crate `envoy-types`, by the fields that are read, and
-- `WorkloadRequest` of src/authz/src/handler/authorization.rs.
use authguard.Base.{
  ℕ, Bool, not, ◌||◌, ◌&&◌, Option, none, some, List, [], ◌∷◌, Text, codes, eq_ignore_ascii_case,
  all, is_empty, leb, len, split, lookup, insert, Result, ok, err, ◌>>=◌, ok_or, if◌then◌else◌,
}
use authguard.Identity.Headers.{HttpTypes, HeaderMap, and_then, then_some, header_text}

pub data PeerAddress : Type 0 where
  socket_address : Text → PeerAddress
  pipe envoy_internal_address : PeerAddress

-- `address` is the address inside the peer's address.
pub record Peer : Type 0 where
  pub address : Option PeerAddress

pub record HttpRequest : Type 0 where
  pub method : Text
  pub host : Text
  pub path : Text
  pub scheme : Text
  pub headers : List (Text × Text)

-- `http` is the HTTP part of the request.
pub record AttributeContext : Type 0 where
  pub source : Option Peer
  pub http : Option HttpRequest

pub record CheckRequest : Type 0 where
  pub attributes : Option AttributeContext

pub record WorkloadRequest (Addr : Type 0) : Type 0 where
  pub method : Text
  pub host : Text
  pub path : Text
  pub headers : HeaderMap
  pub source_ip : Option Addr
  pub secure_transport : Bool

abbrev pub max_request_id_bytes : ℕ
max_request_id_bytes = 128

-- `is_ascii_graphic` of every byte: a character outside ASCII has other bytes.
abbrev pub is_ascii_graphic : ℕ → Bool
is_ascii_graphic c = leb 33 c && leb c 126

-- `split('?').next().unwrap_or("/")`
abbrev pub before_query : List Text → Text
before_query [] = codes "/"
before_query (path ∷ query) = path

abbrev pub unwrap_or_default : Option Text → Text
unwrap_or_default none = []
unwrap_or_default (some text) = text

module _ (http : HttpTypes) where
  abbrev pub insert_header : Option Text → Option Text → HeaderMap → HeaderMap
  insert_header (some name) (some value) result = insert name value result
  insert_header _ _ result = result

  -- The loop of `header_map`: a header with a name or value that is none is left out.
  unfoldable pub header_map : HeaderMap → List (Text × Text) → HeaderMap
  header_map result [] = result
  header_map result ((name, value) ∷ headers) =
      header_map (insert_header (http.header_name name) (http.header_value value) result) headers

  module _ {Addr : Type 0} (parse_ip : Text → Option Addr) where
    unfoldable pub peer_ip : Peer → Option Addr
    peer_ip peer = elim peer.address [
      | some (socket_address address) ↦ parse_ip address
      | some pipe ↦ none
      | some envoy_internal_address ↦ none
      | none ↦ none
    ]

    abbrev pub workload_request : AttributeContext → HttpRequest → WorkloadRequest Addr
    workload_request attributes request = record {
      method = request.method;
      host =
          if is_empty request.host
          then unwrap_or_default (lookup (codes "host") request.headers)
          else request.host;
      path = before_query (split b'?' request.path);
      headers = header_map [] request.headers;
      source_ip = and_then attributes.source peer_ip;
      secure_transport = eq_ignore_ascii_case request.scheme (codes "https");
    }

    -- `WorkloadRequest::try_from`
    unfoldable pub try_from : CheckRequest → Result Text (WorkloadRequest Addr)
    unfolding peer_ip header_map
    try_from request = do
      attributes ← ok_or (codes "Envoy CheckRequest is missing attributes") request.attributes
      http_request ← ok_or (codes "Envoy CheckRequest is missing HTTP attributes") attributes.http
      if is_empty http_request.method || is_empty http_request.path
          then err (codes "Envoy CheckRequest method and path are required")
          else ok (workload_request attributes http_request)

  -- `WorkloadRequest::request_id`
  unfoldable pub request_id : {Addr : Type 0} → WorkloadRequest Addr → Option Text
  request_id request = and_then (header_text http request.headers (codes "x-request-id")) (λ value.
      then_some
        (not (is_empty value) && leb (len value) max_request_id_bytes && all is_ascii_graphic value)
        (some value))

-- ===== src/Http/Route.antt =====
-- Route resolution of src/common/src/utils/http_matcher.rs: `match_path`, `host_matches`,
-- `CompiledHttpRoute::resolve` and `resolve_route`.
use authguard.Base.{
  Bool, not, ◌&&◌, ◌||◌, Option, none, some, List, [], ◌∷◌, Text, codes, ◌==◌, is_empty,
  any as list_any, eq_ignore_ascii_case, to_ascii_lowercase, split, strip_prefix, ends_with, insert,
  Result, ok, err, ◌>>=◌, map_err, try_map, if◌then◌else◌,
}
use authguard.Urn.{ResourceUrn, error_to_string}
use authguard.Urn.Exact.{from_str}
use authguard.Http.{
  ResolvedHttpRoute, HttpMappingError, ambiguous, not_mapped, invalid_resource_urn, PathMatcher,
  CompiledHttpRoute, Values,
}
use authguard.Http.Template.{expand_template}
use authguard.Http.Compile.{split_path}

-- The values after a match; `none` is the result `false`.
unfoldable pub match_segments : List PathMatcher → List Text → Values → Option Values
match_segments [] request values = if is_empty request then some values else none
match_segments (PathMatcher.remainder ∷ pattern) request values = some values
match_segments (PathMatcher.literal expected ∷ pattern) [] values = none
match_segments (PathMatcher.literal expected ∷ pattern) (segment ∷ request) values =
    if segment == expected then match_segments pattern request values else none
match_segments (PathMatcher.variable name ∷ pattern) [] values = none
match_segments (PathMatcher.variable name ∷ pattern) (value ∷ request) values =
    match_segments pattern request (insert name value values)
match_segments (PathMatcher.any ∷ pattern) [] values = none
match_segments (PathMatcher.any ∷ pattern) (segment ∷ request) values =
    match_segments pattern request values

unfoldable pub match_path : List PathMatcher → Text → Values → Option Values
unfolding match_segments split_path
match_path pattern request_path values = match_segments pattern (split_path request_path) values

-- `host.split(':').next().unwrap_or(host)`
abbrev first_or : Text → List Text → Text
first_or host [] = host
first_or host (piece ∷ pieces) = piece

unfoldable pub host_matches : Text → Text → Bool
host_matches pattern host =
    let name = first_or host (split b':' host) in
    elim (strip_prefix (codes "*.") pattern) [
      | some suffix ↦ not (name == suffix) && ends_with (b'.' ∷ suffix) name
      | none ↦ eq_ignore_ascii_case pattern name
    ]

-- The values that a template may name before the path is matched: the claims, then the request.
unfoldable pub request_values : Text → Text → Values → Values
request_values method host claims =
    insert (codes "host") host (insert (codes "method") (to_ascii_lowercase method) claims)

-- `expand_template` followed by `ResourceUrn::from_str`.
unfoldable pub expand_urn : Values → Text → Result HttpMappingError ResourceUrn
unfolding expand_template
expand_urn values template = do
  raw ← expand_template template values
  map_err (λ error. invalid_resource_urn (error_to_string error)) (from_str raw)

-- The methods and hosts of the rule admit the request.
unfoldable pub admits_request : CompiledHttpRoute → Text → Text → Bool
unfolding host_matches
admits_request route method host =
    (is_empty route.rule.methods
      || list_any (λ candidate. eq_ignore_ascii_case candidate method) route.rule.methods)
    && (is_empty route.rule.hosts
        || list_any (λ candidate. host_matches candidate host) route.rule.hosts)

-- What `resolve` does once the path has matched.
unfoldable pub instantiate : CompiledHttpRoute → Values → Result HttpMappingError ResolvedHttpRoute
unfolding expand_urn
instantiate route values = do
  resource_urn ← expand_urn values route.rule.resource_urn
  parent_urns ← try_map (expand_urn values) route.rule.parent_urns
  ok (record {
    route_id = route.rule.id;
    action = route.action;
    resource_urn = resource_urn;
    parent_urns = parent_urns;
  })

-- `claims` is a map: no name stands in it twice.
unfoldable pub resolve :
    CompiledHttpRoute
    → Text
    → Text
    → Text
    → Values
    → Result HttpMappingError (Option ResolvedHttpRoute)
unfolding admits_request match_path instantiate request_values
resolve route method host request_path claims =
    if admits_request route method host
    then elim (match_path route.path request_path (request_values method host claims)) [
      | none ↦ ok none
      | some values ↦ do resolved ← instantiate route values; ok (some resolved)
    ]
    else ok none

-- The test of `resolved` for a second candidate.
abbrev pub accept :
    Option ResolvedHttpRoute
    → Option ResolvedHttpRoute
    → Result HttpMappingError (Option ResolvedHttpRoute)
accept resolved none = ok resolved
accept none (some candidate) = ok (some candidate)
accept (some _) (some _) = err ambiguous

-- The loop of `resolve_route`.
unfoldable pub resolve_from :
    Option ResolvedHttpRoute
    → List CompiledHttpRoute
    → Text
    → Text
    → Text
    → Values
    → Result HttpMappingError ResolvedHttpRoute
unfolding resolve
resolve_from none [] method host path claims = err not_mapped
resolve_from (some resolved) [] method host path claims = ok resolved
resolve_from resolved (route ∷ routes) method host path claims = do
  candidate ← resolve route method host path claims
  next ← accept resolved candidate
  resolve_from next routes method host path claims

unfoldable pub resolve_route :
    List CompiledHttpRoute → Text → Text → Text → Values → Result HttpMappingError ResolvedHttpRoute
unfolding resolve_from
resolve_route routes method host path claims = resolve_from none routes method host path claims

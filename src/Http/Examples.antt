-- ===== src/Http/Examples.antt =====
-- Tests of the route code, and its theorems at concrete inputs.
use authguard.Base.{
  ◌≡◌, refl, ◌↔◌, ◌==◌, some, List, [], ◌∷◌, ◌++◌, codes, lookup, insert, split_once, ok, err,
  splitn, split, trim_matches, arith, strip_prefix, ends_with, try_map,
}
use authguard.Urn.{split_urn, split_path}
use authguard.Urn.Exact
use authguard.Model.{HttpRouteMatcher}
use authguard.Http.{ResolvedHttpRoute, CompiledHttpRoute, PathMatcher, Values, ambiguous}
use authguard.Http.Compile
use authguard.Http.Template.{expand_from, expand_from_fuel, Parts}
use authguard.Http.Route.{match_path, request_values, resolve_route}
use authguard.Http.RouteLaws.{IsOnly, resolve_route_iff, AreExact, resolve_route-AreExact}

abbrev pub rule : HttpRouteMatcher
rule = record {
  id = codes "job-read";
  methods = codes "GET" ∷ [];
  hosts = codes "*.example.com" ∷ [];
  path = codes "/jobs/{job_id}";
  resource_urn = codes "urn:iam:prod:growth:global:{tenant_id}:job/{job_id}";
  parent_urns = [];
}

abbrev pub pattern : List PathMatcher
pattern = PathMatcher.literal (codes "jobs") ∷ PathMatcher.variable (codes "job_id") ∷ []

abbrev pub route : CompiledHttpRoute
route = record { action = codes "job.read"; rule = rule; path = pattern }

compiled : Compile.compile (codes "job.read") rule ≡ ok route
unfolding Compile.compile trim_matches split ◌==◌
compiled = refl

abbrev claims : Values
claims = (codes "tenant_id", codes "acme") ∷ (codes "method", codes "forged") ∷ []

abbrev resolved : ResolvedHttpRoute
resolved = record {
  route_id = codes "job-read";
  action = codes "job.read";
  resource_urn = record {
    partition = codes "prod";
    service = codes "growth";
    region = codes "global";
    tenant = codes "acme";
    path = codes "job" ∷ codes "job-1" ∷ [];
  };
  parent_urns = [];
}

resolves :
    resolve_route (route ∷ []) (codes "GET") (codes "api.example.com") (codes "/jobs/job-1") claims
    ≡ ok resolved
unfolding resolve_route trim_matches split ◌==◌ strip_prefix ends_with lookup insert split_once
    try_map Exact.from_str split_urn split_path splitn
resolves = refl

clashes :
    resolve_route
      (route ∷ route ∷ [])
      (codes "GET")
      (codes "api.example.com")
      (codes "/jobs/job-1")
      claims
    ≡ err ambiguous
unfolding resolve_route trim_matches split ◌==◌ strip_prefix ends_with lookup insert split_once
    try_map Exact.from_str split_urn split_path splitn
clashes = refl

resolve_route_iff_example :
    (resolve_route (route ∷ []) (codes "GET") (codes "api.example.com") (codes "/jobs/job-1") claims
      ≡ ok resolved)
    ↔ IsOnly
        (codes "GET")
        (codes "api.example.com")
        (codes "/jobs/job-1")
        claims
        (route ∷ [])
        resolved
resolve_route_iff_example =
    resolve_route_iff (codes "GET") (codes "api.example.com") (codes "/jobs/job-1") claims
      (route ∷ []) resolved

resolve_route-AreExact_example : AreExact resolved
resolve_route-AreExact_example =
    resolve_route-AreExact (route ∷ []) (codes "GET") (codes "api.example.com")
      (codes "/jobs/job-1") claims resolved resolves

expand_from_fuel_example :
    expand_from 9 claims [] (codes "{method}") ≡ expand_from 20 claims [] (codes "{method}")
expand_from_fuel_example =
    expand_from_fuel 9 20 claims [] (codes "{method}") (omega arith) (omega arith)

abbrev parts : Parts
parts = (codes "t/", codes "tenant_id") ∷ []

abbrev matched : Values
matched = claims ++ ((codes "host", codes "h") ∷ (codes "job_id", codes "job-1") ∷ [])

abbrev seen : Values
seen =
    (codes "tenant_id", codes "acme")
    ∷ (codes "method", codes "get")
    ∷ (codes "host", codes "h")
    ∷ (codes "job_id", codes "job-1")
    ∷ []

matches_path :
    match_path pattern (codes "/jobs/job-1") (request_values (codes "GET") (codes "h") claims)
    ≡ some seen
unfolding match_path request_values trim_matches split ◌==◌ insert
matches_path = refl

-- ===== src/Http/PathLaws.antt =====
-- What a matched path says of the values (`match_path` of src/common/src/utils/http_matcher.rs).
use authguard.Base.{
  ◌≡◌, refl, false, Option, none, some, List, [], ◌∷◌, map, Text, ◌==◌, eq_iff, codes, contains,
  lookup, insert, lookup-insert, if◌then◌else◌, arith, to_ascii_lowercase,
}
use authguard.Http.{PathMatcher, Values}
use authguard.Http.Compile.{split_path}
use authguard.Http.Route.{match_segments, match_path, request_values}

-- The names that a path binds.
abbrev pub variables : List PathMatcher → List Text
variables [] = []
variables (PathMatcher.variable name ∷ pattern) = name ∷ variables pattern
variables (_ ∷ pattern) = variables pattern

match_segments-keeps :
    (k : Text) (pattern : List PathMatcher) (request : List Text) (values out : Values)
    → match_segments pattern request values ≡ some out
    → contains k (variables pattern) ≡ false
    → lookup k out ≡ lookup k values
unfolding match_segments
match_segments-keeps k [] [] values out h free = ground arith
match_segments-keeps k [] (s ∷ request) values out h free = cc
match_segments-keeps k (PathMatcher.remainder ∷ pattern) request values out h free = ground arith
match_segments-keeps k (PathMatcher.literal e ∷ pattern) [] values out h free = cc
match_segments-keeps k (PathMatcher.literal e ∷ pattern) (s ∷ request) values out h free =
    match_segments-keeps k pattern request values out (ground arith) free
match_segments-keeps k (PathMatcher.any ∷ pattern) [] values out h free = cc
match_segments-keeps k (PathMatcher.any ∷ pattern) (s ∷ request) values out h free =
    match_segments-keeps k pattern request values out h free
match_segments-keeps k (PathMatcher.variable n ∷ pattern) [] values out h free = cc
match_segments-keeps k (PathMatcher.variable n ∷ pattern) (s ∷ request) values out h free = ground (
  arith,
  match_segments-keeps k pattern request (insert n s values) out h,
  lookup-insert n k s values,
  eq_iff n k,
  eq_iff k n,
)

-- A value of the claims reaches the templates as it is, unless the path binds its name or the name
-- is `method` or `host`: these two are always the request's own, whatever the claims say.
pub match_path-claims :
    (pattern : List PathMatcher) (method host path : Text) (claims out : Values)
    → match_path pattern path (request_values method host claims) ≡ some out
    → (k : Text) → contains k (variables pattern) ≡ false
    → lookup k out ≡ (
        if codes "host" == k
        then some host
        else if codes "method" == k
        then some (to_ascii_lowercase method)
        else lookup k claims)
unfolding match_path request_values
match_path-claims pattern method host path claims out h k free = ground (
  arith,
  match_segments-keeps k pattern (split_path path) _ out h free,
  lookup-insert (codes "host") k host (insert (codes "method") (to_ascii_lowercase method) claims),
  lookup-insert (codes "method") k (to_ascii_lowercase method) claims,
)

-- A pattern of literals and distinct variables.
abbrev pub IsPlain : List PathMatcher → Type 0
IsPlain [] = Unit
IsPlain (PathMatcher.literal text ∷ pattern) = IsPlain pattern
IsPlain (PathMatcher.variable name ∷ pattern) =
    (contains name (variables pattern) ≡ false) × IsPlain pattern
IsPlain (_ ∷ pattern) = ⊥

-- The segments that a pattern stands for under some values.
abbrev pub segments : Values → List PathMatcher → List (Option Text)
segments values [] = []
segments values (PathMatcher.literal text ∷ pattern) = some text ∷ segments values pattern
segments values (PathMatcher.variable name ∷ pattern) = lookup name values ∷ segments values pattern
segments values (_ ∷ pattern) = none ∷ segments values pattern

rebuilds :
    (pattern : List PathMatcher) (request : List Text) (values out : Values)
    → IsPlain pattern
    → match_segments pattern request values ≡ some out
    → segments out pattern ≡ map some request
unfolding match_segments
rebuilds [] [] values out p h = refl
rebuilds [] (s ∷ request) values out p h = cc
rebuilds (PathMatcher.remainder ∷ pattern) request values out p h = absurd p
rebuilds (PathMatcher.any ∷ pattern) request values out p h = absurd p
rebuilds (PathMatcher.literal e ∷ pattern) [] values out p h = cc
rebuilds (PathMatcher.literal e ∷ pattern) (s ∷ request) values out p h =
    ground (arith, eq_iff s e, rebuilds pattern request values out p)
rebuilds (PathMatcher.variable n ∷ pattern) [] values out p h = cc
rebuilds (PathMatcher.variable n ∷ pattern) (s ∷ request) values out (free, p) h = ground (
  arith,
  rebuilds pattern request (insert n s values) out p h,
  match_segments-keeps n pattern request (insert n s values) out h free,
  lookup-insert n n s values,
  eq_iff n n,
)

-- Where a path of literals and distinct variables matches, putting the values back into it gives
-- the segments of the request: each variable holds the segment at its place.
pub match_path-rebuilds :
    (pattern : List PathMatcher) (path : Text) (values out : Values)
    → IsPlain pattern
    → match_path pattern path values ≡ some out
    → segments out pattern ≡ map some (split_path path)
unfolding match_path
match_path-rebuilds pattern path values out p h = rebuilds pattern (split_path path) values out p h

-- ===== src/Http/Compile.antt =====
-- `CompiledHttpRoute::compile` of src/common/src/utils/http_matcher.rs.
use authguard.Base.{
  Bool, not, ◌&&◌, ◌||◌, List, [], ◌∷◌, Text, codes, ◌==◌, starts_with_char, ends_with_char,
  is_empty, all, eqb, is_ascii_alphanumeric, retain, split, trim_matches, Result, ok, err, ◌>>=◌,
  if◌then◌else◌,
}
use authguard.Model.{HttpRouteMatcher}
use authguard.Http.{
  HttpMappingError, path_must_start_with_slash, invalid_variable, invalid_glob_star, PathMatcher,
  CompiledHttpRoute,
}

-- The segments of a path; slashes at the ends and empty segments are dropped.
unfoldable pub split_path : Text → List Text
split_path path =
    retain (λ segment. not (is_empty segment)) (split b'/' (trim_matches (eqb b'/') path))

abbrev drop_last : Text → Text
drop_last [] = []
drop_last (x ∷ []) = []
drop_last (x ∷ y ∷ s) = x ∷ drop_last (y ∷ s)

-- `&value[1..value.len() - 1]`
unfoldable pub inner : Text → Text
inner [] = []
inner (x ∷ s) = drop_last s

unfoldable pub valid_variable : Text → Bool
valid_variable value =
    not (is_empty value) && all (λ c. is_ascii_alphanumeric c || eqb c b'_') value

-- One round of the loop; `last` is `index + 1 == raw_segments.len()`.
unfoldable pub compile_segment : Text → Bool → Text → Result HttpMappingError PathMatcher
unfolding inner valid_variable
compile_segment route_id last segment =
    if segment == codes "*"
    then ok PathMatcher.any
    else if segment == codes "**" && last
    then ok PathMatcher.remainder
    else if segment == codes "**"
    then err (invalid_glob_star route_id)
    else if starts_with_char b'{' segment && ends_with_char b'}' segment
    then (if valid_variable (inner segment)
        then ok (PathMatcher.variable (inner segment))
        else err (invalid_variable route_id (inner segment)))
    else ok (PathMatcher.literal segment)

unfoldable pub compile_segments : Text → List Text → Result HttpMappingError (List PathMatcher)
unfolding compile_segment
compile_segments route_id [] = ok []
compile_segments route_id (segment ∷ rest) = do
  matcher ← compile_segment route_id (is_empty rest) segment
  path ← compile_segments route_id rest
  ok (matcher ∷ path)

unfoldable pub compile : Text → HttpRouteMatcher → Result HttpMappingError CompiledHttpRoute
unfolding compile_segments split_path
compile action rule =
    if not (starts_with_char b'/' rule.path) then err (path_must_start_with_slash rule.id) else do
      path ← compile_segments rule.id (split_path rule.path)
      ok (record { action = action; rule = rule; path = path })

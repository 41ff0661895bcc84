-- ===== src/Urn/Pattern.antt =====
-- `UrnPattern` of src/common/src/utils/policy_urn.rs: `FromStr`, `Display` and matching.
use authguard.Base.{
  Bool, true, false, ◌&&◌, List, [], ◌∷◌, map, Text, codes, ◌==◌, contains_char, is_empty, join,
  Result, ok, err, ◌>>=◌, if◌then◌else◌, any as list_any,
}
use authguard.Urn.{
  UrnError, empty_segment, invalid_wildcard, invalid_glob_star, ResourceUrn, SegmentPattern,
  PathPattern, UrnPattern, split_urn, split_path, star, glob,
}
use authguard.Urn.Exact.{write_urn}

-- `SegmentPattern::parse`
unfoldable pub parse_segment : Text → Result UrnError SegmentPattern
parse_segment input =
    if is_empty input
    then err (empty_segment (codes "segment"))
    else if input == star
    then ok SegmentPattern.any
    else if input == glob
    then err (invalid_wildcard input)
    else if contains_char b'*' input
    then err (invalid_wildcard input)
    else ok (SegmentPattern.exact input)

-- One segment of a path; `last` is `idx + 1 == segments.len()`.
unfoldable pub parse_path_segment : Bool → Text → Result UrnError PathPattern
parse_path_segment last segment =
    if segment == star
    then ok PathPattern.any
    else if segment == glob && last
    then ok PathPattern.glob_star
    else if segment == glob
    then err invalid_glob_star
    else if contains_char b'*' segment
    then err (invalid_wildcard segment)
    else ok (PathPattern.exact segment)

-- The loop of `parse_path_pattern`.
unfoldable pub parse_segments : List Text → Result UrnError (List PathPattern)
unfolding parse_path_segment
parse_segments [] = ok []
parse_segments (segment ∷ rest) = do
  parsed ← parse_path_segment (is_empty rest) segment
  result ← parse_segments rest
  ok (parsed ∷ result)

unfoldable pub parse_path_pattern : Text → Result UrnError (List PathPattern)
unfolding parse_segments
parse_path_pattern input = do segments ← split_path input; parse_segments segments

unfoldable pub from_str : Text → Result UrnError UrnPattern
unfolding parse_segment parse_path_pattern
from_str input = do
  parts ← split_urn input
  partition ← parse_segment parts.partition
  service ← parse_segment parts.service
  region ← parse_segment parts.region
  tenant ← parse_segment parts.tenant
  path ← parse_path_pattern parts.path
  ok (record {
    partition = partition;
    service = service;
    region = region;
    tenant = tenant;
    path = path;
  })

-- `Display` of the two kinds of segment.
abbrev pub segment_to_string : SegmentPattern → Text
segment_to_string (SegmentPattern.exact value) = value
segment_to_string SegmentPattern.any = star

abbrev pub path_to_string : PathPattern → Text
path_to_string (PathPattern.exact value) = value
path_to_string PathPattern.any = star
path_to_string PathPattern.glob_star = glob

unfoldable pub to_string : UrnPattern → Text
unfolding write_urn
to_string p =
    write_urn (segment_to_string p.partition) (segment_to_string p.service)
      (segment_to_string p.region) (segment_to_string p.tenant)
      (join b'/' (map path_to_string p.path))

unfoldable pub segment_matches : SegmentPattern → Text → Bool
segment_matches (SegmentPattern.exact expected) value = expected == value
segment_matches SegmentPattern.any value = true

-- The two indices move together: the walk is over what is left of the pattern and of the path.
unfoldable pub path_matches : List PathPattern → List Text → Bool
path_matches [] path = is_empty path
path_matches (PathPattern.glob_star ∷ pattern) path = is_empty pattern
path_matches (PathPattern.any ∷ pattern) [] = false
path_matches (PathPattern.any ∷ pattern) (_ ∷ path) = path_matches pattern path
path_matches (PathPattern.exact expected ∷ pattern) [] = false
path_matches (PathPattern.exact expected ∷ pattern) (segment ∷ path) =
    segment == expected && path_matches pattern path

-- `UrnPattern::matches`
unfoldable pub matches : UrnPattern → ResourceUrn → Bool
unfolding segment_matches path_matches
matches p u =
    segment_matches p.partition u.partition
    && segment_matches p.service u.service
    && segment_matches p.region u.region
    && segment_matches p.tenant u.tenant
    && path_matches p.path u.path

unfoldable pub matches_any : UrnPattern → List ResourceUrn → Bool
unfolding matches
matches_any p urns = list_any (matches p) urns

-- ===== src/Urn/Exact.antt =====
-- `ResourceUrn` of src/common/src/utils/policy_urn.rs: `FromStr` and `Display`.
use authguard.Base.{
  ◌||◌, List, [], ◌∷◌, ◌++◌, Text, codes, ◌==◌, contains_char, is_empty, join, Result, ok, err,
  ◌>>=◌, ◌>>◌, if◌then◌else◌,
}
use authguard.Urn.{
  UrnError, empty_segment, wildcard_in_exact_urn, ResourceUrn, split_urn, split_path, star, glob,
}

unfoldable pub validate_exact_segment : Text → Text → Result UrnError (Unit {0})
validate_exact_segment name input =
    if is_empty input
    then err (empty_segment name)
    else if input == star || input == glob || contains_char b'*' input
    then err (wildcard_in_exact_urn input)
    else ok tt

-- The loop over the path segments.
unfoldable pub reject_wildcards : List Text → Result UrnError (Unit {0})
reject_wildcards [] = ok tt
reject_wildcards (segment ∷ rest) =
    if segment == star || segment == glob
    then err (wildcard_in_exact_urn segment)
    else reject_wildcards rest

unfoldable pub from_str : Text → Result UrnError ResourceUrn
unfolding validate_exact_segment reject_wildcards
from_str input = do
  parts ← split_urn input
  validate_exact_segment (codes "partition") parts.partition
  validate_exact_segment (codes "service") parts.service
  validate_exact_segment (codes "region") parts.region
  validate_exact_segment (codes "tenant") parts.tenant
  path ← split_path parts.path
  reject_wildcards path
  ok (record {
    partition = parts.partition;
    service = parts.service;
    region = parts.region;
    tenant = parts.tenant;
    path = path;
  })

unfoldable pub path_string : ResourceUrn → Text
path_string u = join b'/' u.path

-- `urn:iam:{}:{}:{}:{}:{}`, shared by the two `Display` instances.
unfoldable pub write_urn : Text → Text → Text → Text → Text → Text
write_urn partition service region tenant path =
    codes "urn:iam:"
    ++ (partition ++ (b':' ∷ service ++ (b':' ∷ region ++ (b':' ∷ tenant ++ (b':' ∷ path)))))

unfoldable pub to_string : ResourceUrn → Text
unfolding write_urn
to_string u = write_urn u.partition u.service u.region u.tenant (join b'/' u.path)

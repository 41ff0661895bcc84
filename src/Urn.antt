-- ===== src/Urn.antt =====
-- Resource URNs: the data of src/common/src/utils/policy_urn.rs. `Urn.Exact` reads and prints
-- exact URNs, `Urn.Pattern` patterns; the other children prove.
pub mod Exact
pub mod Pattern
pub mod Pieces
pub mod ExactTrip
pub mod PatternTrip
pub mod Covers
mod Examples
use authguard.Base.{
  ℕ, suc, Bool, ◌&&◌, ◌||◌, not, List, [], ◌∷◌, Text, codes, ◌==◌, contains_char, is_empty, splitn,
  split, Result, ok, err, ◌>>=◌, ◌>>◌, if◌then◌else◌, ◌++◌, any as list_any,
}

pub data UrnError : Type 0 where
  invalid_format : UrnError
  empty_segment : Text → UrnError
  wildcard_in_exact_urn : Text → UrnError
  invalid_wildcard : Text → UrnError
  invalid_glob_star : UrnError

pub record ResourceUrn : Type 0 where
  pub partition : Text
  pub service : Text
  pub region : Text
  pub tenant : Text
  pub path : List Text

pub data SegmentPattern : Type 0 where
  exact : Text → SegmentPattern
  any : SegmentPattern

pub data PathPattern : Type 0 where
  exact : Text → PathPattern
  any : PathPattern
  glob_star : PathPattern

pub record UrnPattern : Type 0 where
  pub partition : SegmentPattern
  pub service : SegmentPattern
  pub region : SegmentPattern
  pub tenant : SegmentPattern
  pub path : List PathPattern

pub record UrnParts : Type 0 where
  pub partition : Text
  pub service : Text
  pub region : Text
  pub tenant : Text
  pub path : Text

-- The message of `#[error(…)]`.
unfoldable pub error_to_string : UrnError → Text
error_to_string invalid_format =
    codes "URN must use format urn:iam:<partition>:<service>:<region>:<tenant>:<resource-path>"
error_to_string (empty_segment name) =
    codes "URN segment `" ++ (name ++ codes "` must not be empty")
error_to_string (wildcard_in_exact_urn input) =
    codes "exact Resource URN must not contain wildcard `" ++ (input ++ codes "`")
error_to_string (invalid_wildcard input) =
    codes "wildcard `" ++ (input ++ codes "` is not allowed in this segment")
error_to_string invalid_glob_star =
    codes "globstar ** is only allowed as the final resource path segment"

abbrev pub star : Text
star = codes "*"

abbrev pub glob : Text
glob = codes "**"

-- The pieces of the scheme `urn:iam:…`, once the text is cut.
unfoldable pub check_parts : List Text → Result UrnError UrnParts
check_parts (scheme ∷ nid ∷ partition ∷ service ∷ region ∷ tenant ∷ path ∷ []) =
    if not (scheme == codes "urn") || not (nid == codes "iam") || contains_char b':' path
    then err invalid_format
    else ok (record {
      partition = partition;
      service = service;
      region = region;
      tenant = tenant;
      path = path;
    })
check_parts _ = err invalid_format

unfoldable pub split_urn : Text → Result UrnError UrnParts
unfolding check_parts
split_urn input = check_parts (splitn 7 b':' input)

unfoldable pub split_path : Text → Result UrnError (List Text)
split_path input =
    if is_empty input
    then err (empty_segment (codes "resource-path"))
    else (let segments = split b'/' input in
        if list_any is_empty segments
        then err (empty_segment (codes "resource-path"))
        else ok segments)

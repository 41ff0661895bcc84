-- ===== src/Http.antt =====
-- HTTP requests mapped to resources: src/common/src/utils/http_matcher.rs. The loops over an index
-- walk over what is left of the pattern and of the request's segments.
pub mod Template
pub mod Compile
pub mod Route
pub mod PathLaws
pub mod RouteLaws
pub mod Examples
use authguard.Base.{Text, List, codes, ◌++◌}
use authguard.Urn.{ResourceUrn}
use authguard.Model.{HttpRouteMatcher}

pub record ResolvedHttpRoute : Type 0 where
  pub route_id : Text
  pub action : Text
  pub resource_urn : ResourceUrn
  pub parent_urns : List ResourceUrn

pub data HttpMappingError : Type 0 where
  path_must_start_with_slash : Text → HttpMappingError
  invalid_variable : Text → Text → HttpMappingError
  invalid_glob_star : Text → HttpMappingError
  ambiguous not_mapped : HttpMappingError
  missing_template_value : Text → HttpMappingError
  invalid_resource_urn : Text → HttpMappingError

pub data PathMatcher : Type 0 where
  literal : Text → PathMatcher
  variable : Text → PathMatcher
  any : PathMatcher
  remainder : PathMatcher

pub record CompiledHttpRoute : Type 0 where
  pub action : Text
  pub rule : HttpRouteMatcher
  pub path : List PathMatcher

-- The variables of a template: names with their values.
abbrev pub Values : Type 0
Values = List (Text × Text)

-- ===== src/Sql/Compile.antt =====
-- `ResourceSqlMapping` of src/common/src/utils/sql.rs. The two vectors that the source fills side by
-- side, `clauses` and `params`, are one list of clauses, each with its text and its parameters.
use mathlib.Core.Option
use authguard.Base.{
  Bool, true, false, ◌||◌, Option, none, some, List, [], ◌∷◌, ◌++◌, map, Text, codes, ◌==◌, any,
  is_empty, join, Result, ok, err, ◌>>=◌, map_err, try_map, if◌then◌else◌,
}
use authguard.Urn.{SegmentPattern, PathPattern, UrnPattern, error_to_string}
use authguard.Urn.Pattern.{from_str}

-- The patterns stand for their text in the error.
pub data SqlCompileError : Type 0 where
  invalid_pattern : Text → SqlCompileError
  unsupported_remainder_pattern : List PathPattern → SqlCompileError

pub record SqlScope : Type 0 where
  pub where_clause : Text
  pub params : List Text

abbrev pub deny_all : SqlScope
deny_all = record { where_clause = codes "0=1"; params = [] }

abbrev pub allow_all : SqlScope
allow_all = record { where_clause = codes "1=1"; params = [] }

pub data SegmentMap : Type 0 where
  const column : Text → SegmentMap

pub data PathMap : Type 0 where
  literal column remainder_column : Text → PathMap

pub record ResourceSqlMapping : Type 0 where
  pub partition : SegmentMap
  pub service : SegmentMap
  pub region : SegmentMap
  pub tenant : SegmentMap
  pub path : List PathMap

-- `{column} = ?`, and `({column} = ? OR {column} LIKE ?)` for a path and what is below it
pub data Clause : Type 0 where
  equals within : Text → Text → Clause

abbrev pub clause_text : Clause → Text
clause_text (equals name value) = name ++ codes " = ?"
clause_text (within name prefix) =
    codes "(" ++ (name ++ (codes " = ? OR " ++ (name ++ codes " LIKE ?)")))

-- The pattern of `LIKE`.
abbrev pub below : Text → Text
below prefix = prefix ++ codes "/%"

abbrev pub clause_params : Clause → List Text
clause_params (equals name value) = value ∷ []
clause_params (within name prefix) = prefix ∷ below prefix ∷ []

abbrev pub all_params : List Clause → List Text
all_params [] = []
all_params (clause ∷ clauses) = clause_params clause ++ all_params clauses

-- `join` of the source, with a text between the pieces
unfoldable pub join_texts : Text → List Text → Text
join_texts separator [] = []
join_texts separator (t ∷ []) = t
join_texts separator (t ∷ u ∷ ts) = t ++ (separator ++ join_texts separator (u ∷ ts))

-- The clauses of one segment; none where the source answers false.
unfoldable pub compile_segment : SegmentMap → SegmentPattern → Option (List Clause)
compile_segment mapping SegmentPattern.any = some []
compile_segment (SegmentMap.const expected) (SegmentPattern.exact value) =
    if expected == value then some [] else none
compile_segment (SegmentMap.column name) (SegmentPattern.exact value) =
    some (equals name value ∷ [])

abbrev pub is_any : PathPattern → Bool
is_any PathPattern.any = true
is_any _ = false

abbrev pub is_glob : List PathPattern → Bool
is_glob (PathPattern.glob_star ∷ []) = true
is_glob _ = false

-- `matches!(remaining.last(), Some(PathPattern::GlobStar))`
unfoldable pub ends_with_glob : List PathPattern → Bool
ends_with_glob [] = false
ends_with_glob (PathPattern.glob_star ∷ []) = true
ends_with_glob (_ ∷ []) = false
ends_with_glob (_ ∷ q ∷ qs) = ends_with_glob (q ∷ qs)

-- `remaining[..remaining.len() - 1]`
unfoldable pub without_last : List PathPattern → List PathPattern
without_last [] = []
without_last (q ∷ []) = []
without_last (q ∷ r ∷ qs) = q ∷ without_last (r ∷ qs)

abbrev pub exact_value : List PathPattern → PathPattern → Result SqlCompileError Text
exact_value remaining (PathPattern.exact value) = ok value
exact_value remaining _ = err (unsupported_remainder_pattern remaining)

unfoldable pub compile_remainder : Text → List PathPattern → Result SqlCompileError (List Clause)
unfolding ends_with_glob without_last
compile_remainder name remaining =
    if is_empty remaining || is_glob remaining
    then ok []
    else if any is_any remaining
    then err (unsupported_remainder_pattern remaining)
    else if ends_with_glob remaining
    then (do
      values ← try_map (exact_value remaining) (without_last remaining)
      let prefix = join b'/' values
      if is_empty prefix then ok [] else ok (within name prefix ∷ []))
    else (do
      values ← try_map (exact_value remaining) remaining
      ok (equals name (join b'/' values) ∷ []))

-- One more clause before those of the rest.
abbrev pub with_clause :
    Clause
    → Result SqlCompileError (Option (List Clause))
    → Result SqlCompileError (Option (List Clause))
with_clause clause (ok (some clauses)) = ok (some (clause ∷ clauses))
with_clause clause (ok none) = ok none
with_clause clause (err e) = err e

-- `compile_path`: the walk over what is left of the mapping and of the pattern; none where the source
-- answers false.
unfoldable pub compile_path :
    List PathMap → List PathPattern → Result SqlCompileError (Option (List Clause))
unfolding compile_remainder
compile_path [] pattern = if is_empty pattern || is_glob pattern then ok (some []) else ok none
compile_path (mapping ∷ mappings) (PathPattern.glob_star ∷ pattern) = ok (some [])
compile_path (PathMap.remainder_column name ∷ mappings) pattern = do
  clauses ← compile_remainder name pattern
  ok (some clauses)
compile_path (PathMap.literal expected ∷ mappings) [] = ok none
compile_path (PathMap.literal expected ∷ mappings) (PathPattern.exact value ∷ pattern) =
    let rest = compile_path mappings pattern in if value == expected then rest else ok none
compile_path (PathMap.literal expected ∷ mappings) (PathPattern.any ∷ pattern) =
    compile_path mappings pattern
compile_path (PathMap.column name ∷ mappings) [] = ok none
compile_path (PathMap.column name ∷ mappings) (PathPattern.exact value ∷ pattern) =
    with_clause (equals name value) (compile_path mappings pattern)
compile_path (PathMap.column name ∷ mappings) (PathPattern.any ∷ pattern) =
    compile_path mappings pattern

abbrev pub and_then :
    Option (List Clause)
    → Result SqlCompileError (Option (List Clause))
    → Result SqlCompileError (Option (List Clause))
and_then none rest = ok none
and_then (some clauses) (ok (some more)) = ok (some (clauses ++ more))
and_then (some clauses) (ok none) = ok none
and_then (some clauses) (err e) = err e

module _ (mapping : ResourceSqlMapping) where
  -- The clauses that `compile_pattern` collects; none where it answers none.
  unfoldable pub compile_clauses : UrnPattern → Result SqlCompileError (Option (List Clause))
  unfolding compile_segment compile_path
  compile_clauses pattern =
      let path = compile_path mapping.path pattern.path in
      and_then (compile_segment mapping.partition pattern.partition) (
        and_then (compile_segment mapping.service pattern.service) (
          and_then (compile_segment mapping.region pattern.region)
            (and_then (compile_segment mapping.tenant pattern.tenant) path)))

  -- `clauses.join(" AND ")`, or everything without a clause
  abbrev pub scope_of : List Clause → SqlScope
  scope_of [] = allow_all
  scope_of (clause ∷ clauses) = record {
    where_clause = join_texts (codes " AND ") (map clause_text (clause ∷ clauses));
    params = all_params (clause ∷ clauses);
  }

  unfoldable pub compile_pattern : UrnPattern → Result SqlCompileError (Option SqlScope)
  unfolding compile_clauses
  compile_pattern pattern = do clauses ← compile_clauses pattern; ok (Option.map scope_of clauses)

  abbrev pub add_scope : Option SqlScope → List SqlScope → List SqlScope
  add_scope none scopes = scopes
  add_scope (some scope) scopes = scope ∷ scopes

  -- The first loop of `compile_scope`
  unfoldable pub compile_allowed : List UrnPattern → Result SqlCompileError (List SqlScope)
  unfolding compile_pattern
  compile_allowed [] = ok []
  compile_allowed (pattern ∷ patterns) = do
    scope ← compile_pattern pattern
    rest ← compile_allowed patterns
    ok (add_scope scope rest)

  abbrev pub in_parens : SqlScope → Text
  in_parens scope = codes "(" ++ (scope.where_clause ++ codes ")")

  abbrev pub params_of : List SqlScope → List Text
  params_of [] = []
  params_of (scope ∷ scopes) = scope.params ++ params_of scopes

  unfoldable pub or_scopes : List SqlScope → SqlScope
  unfolding join_texts
  or_scopes (scope ∷ []) = scope
  or_scopes scopes =
      if any (λ (s : SqlScope). s.where_clause == codes "1=1") scopes then allow_all else record {
        where_clause = join_texts (codes " OR ") (map in_parens scopes);
        params = params_of scopes;
      }

  abbrev pub except : SqlScope → SqlScope → SqlScope
  except scope deny_scope = record {
    where_clause = in_parens scope ++ (codes " AND NOT " ++ in_parens deny_scope);
    params = scope.params ++ deny_scope.params;
  }

  -- The second loop
  unfoldable pub compile_denied : SqlScope → List UrnPattern → Result SqlCompileError SqlScope
  unfolding compile_pattern
  compile_denied scope [] = ok scope
  compile_denied scope (pattern ∷ patterns) = do
    compiled ← compile_pattern pattern
    elim compiled [
      | none ↦ compile_denied scope patterns
      | some deny_scope ↦
          let rest = compile_denied (except scope deny_scope) patterns in
          if deny_scope.where_clause == codes "1=1" then ok deny_all else rest
    ]

  unfoldable pub compile_scope : List UrnPattern → List UrnPattern → Result SqlCompileError SqlScope
  unfolding compile_allowed compile_denied or_scopes
  compile_scope allow deny = do
    allow_scopes ← compile_allowed allow
    if is_empty allow_scopes then ok deny_all else compile_denied (or_scopes allow_scopes) deny

  unfoldable pub parse_patterns : List Text → Result SqlCompileError (List UrnPattern)
  parse_patterns patterns =
      try_map
        (λ pattern. map_err (λ error. invalid_pattern (error_to_string error)) (from_str pattern))
        patterns

  unfoldable pub compile_scope_strs : List Text → List Text → Result SqlCompileError SqlScope
  unfolding parse_patterns compile_scope
  compile_scope_strs allow deny = do
    allow_patterns ← parse_patterns allow
    deny_patterns ← parse_patterns deny
    compile_scope allow_patterns deny_patterns

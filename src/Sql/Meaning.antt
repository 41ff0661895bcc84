-- ===== src/Sql/Meaning.antt =====
-- What the clauses of src/common/src/utils/sql.rs say of a row, and the URN that a row stands for under
-- a mapping.
use authguard.Base.{Bool, true, ◌||◌, ◌≡◌, ◌↔◌, List, [], ◌∷◌, ◌++◌, Text, ◌==◌, all, split, Lacks}
use authguard.Urn.{ResourceUrn}
use authguard.Sql.Compile.{SegmentMap, PathMap, ResourceSqlMapping, Clause, equals, within, below}

-- The database's `LIKE`, of a value and a pattern, where it tells upper from lower case, as that of
-- PostgreSQL does and that of SQLite does under `case_sensitive_like`. After a prefix without `%`, `_`
-- and the escape `\\`, the pattern `/%` asks for a slash, and leaves the rest free.
pub record IsLike (like : Text → Text → Bool) : Type 0 where
  pub below_iff :
      (value prefix : Text)
      → Lacks b'%' prefix
      → Lacks b'_' prefix
      → Lacks 92 prefix
      → (like value (below prefix) ≡ true) ↔ ((rest : Text) × (value ≡ prefix ++ (b'/' ∷ rest)))

module _ (like : Text → Text → Bool) (row : Text → Text) where
  -- The clause holds of the row, a value for every column.
  abbrev pub holds : Clause → Bool
  holds (equals name value) = row name == value
  holds (within name prefix) = row name == prefix || like (row name) (below prefix)

  abbrev pub all_hold : List Clause → Bool
  all_hold clauses = all holds clauses

  abbrev pub segment_of : SegmentMap → Text
  segment_of (SegmentMap.const value) = value
  segment_of (SegmentMap.column name) = row name

  -- A remainder column holds the rest of the path.
  abbrev pub path_of : List PathMap → List Text
  path_of [] = []
  path_of (PathMap.literal value ∷ mappings) = value ∷ path_of mappings
  path_of (PathMap.column name ∷ mappings) = row name ∷ path_of mappings
  path_of (PathMap.remainder_column name ∷ mappings) = split b'/' (row name)

  abbrev pub urn_of : ResourceSqlMapping → ResourceUrn
  urn_of mapping = record {
    partition = segment_of mapping.partition;
    service = segment_of mapping.service;
    region = segment_of mapping.region;
    tenant = segment_of mapping.tenant;
    path = path_of mapping.path;
  }

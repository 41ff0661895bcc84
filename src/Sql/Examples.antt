-- ===== src/Sql/Examples.antt =====
-- Tests of the SQL compilation, and its theorems at a table of stored objects.
use authguard.Base.{
  Bool, true, false, not, ◌&&◌, ◌≡◌, refl, ap, arith, eqb, eqb_iff, List, [], ◌∷◌, ◌++◌, Text,
  codes, any, split, splitn, ◌==◌, try_map, join, ok, if◌then◌else◌,
}
use authguard.Urn.{SegmentPattern, PathPattern, UrnPattern, split_urn, split_path}
use authguard.Urn.Pattern
use authguard.Urn.Pattern.{matches}
use authguard.Urn.PatternTrip.{from_str-eq-ok}
use authguard.Sql.Compile.{
  SegmentMap, PathMap, ResourceSqlMapping, SqlScope, below, allow_all, compile_scope,
  compile_scope_strs,
}
use authguard.Sql.Meaning.{IsLike}
use authguard.Sql.ScopeLaws.{Suits, Means, covers, compile_scope-Means}

abbrev objects : ResourceSqlMapping
objects = record {
  partition = SegmentMap.const (codes "prod");
  service = SegmentMap.const (codes "store");
  region = SegmentMap.column (codes "region");
  tenant = SegmentMap.column (codes "account");
  path =
      PathMap.literal (codes "bucket")
      ∷ PathMap.column (codes "bucket")
      ∷ PathMap.literal (codes "object")
      ∷ PathMap.remainder_column (codes "key")
      ∷ [];
}

abbrev august : Text
august = codes "urn:iam:prod:store:*:acme:bucket/logs/object/2026/08/**"

abbrev secret : Text
secret = codes "urn:iam:prod:store:*:acme:bucket/logs/object/2026/08/secret"

abbrev compiled : SqlScope
compiled = record {
  where_clause =
      codes
        "(account = ? AND bucket = ? AND (key = ? OR key LIKE ?)) AND NOT (account = ? AND bucket = ? AND key = ?)";
  params =
      codes "acme"
      ∷ codes "logs"
      ∷ codes "2026/08"
      ∷ codes "2026/08/%"
      ∷ codes "acme"
      ∷ codes "logs"
      ∷ codes "2026/08/secret"
      ∷ [];
}

compiles : compile_scope_strs objects (august ∷ []) (secret ∷ []) ≡ ok compiled
unfolding compile_scope_strs Pattern.from_str split_urn split_path splitn split ◌==◌ try_map join
compiles = refl

-- A pattern that ends at the remainder column lets every row of the bucket through, although it matches
-- none of their URNs.
abbrev no_key : Text
no_key = codes "urn:iam:prod:store:*:*:bucket/*/object"

no_key_lets_through : compile_scope_strs objects (no_key ∷ []) [] ≡ ok allow_all
unfolding compile_scope_strs Pattern.from_str split_urn split_path splitn split ◌==◌ try_map join
no_key_lets_through = refl

-- `LIKE` for the patterns that are used: what stands before the `%` comes first.
abbrev starts : Text → Text → Bool
starts [] s = true
starts (x ∷ p) [] = false
starts (x ∷ p) (y ∷ s) = eqb y x && starts p s

abbrev before_last : Text → Text
before_last [] = []
before_last (x ∷ []) = []
before_last (x ∷ y ∷ s) = x ∷ before_last (y ∷ s)

abbrev like : Text → Text → Bool
like value pattern = starts (before_last pattern) value

like_to :
    (prefix value : Text)
    → like value (below prefix) ≡ true
    → (rest : Text) × (value ≡ prefix ++ (b'/' ∷ rest))
like_to [] [] h = cc
like_to [] (y ∷ value) h = (value, ap (λ c. c ∷ value) ((eqb_iff y b'/').0 (ground arith)))
like_to (x ∷ []) [] h = cc
like_to (x ∷ x₁ ∷ prefix) [] h = cc
like_to (x ∷ []) (y ∷ value) h =
    let (rest, e) = like_to [] value (ground arith) in
    (rest, λ i. (eqb_iff y x).0 (ground arith) i ∷ e i)
like_to (x ∷ x₁ ∷ prefix) (y ∷ value) h =
    let (rest, e) = like_to (x₁ ∷ prefix) value (ground arith) in
    (rest, λ i. (eqb_iff y x).0 (ground arith) i ∷ e i)

like_from : (prefix rest : Text) → like (prefix ++ (b'/' ∷ rest)) (below prefix) ≡ true
like_from [] rest = refl
like_from (x ∷ []) rest = ground arith
like_from (x ∷ x₁ ∷ prefix) rest = ground (arith, like_from (x₁ ∷ prefix) rest)

abbrev in_august : List PathPattern → UrnPattern
in_august rest = record {
  partition = SegmentPattern.exact (codes "prod");
  service = SegmentPattern.exact (codes "store");
  region = SegmentPattern.any;
  tenant = SegmentPattern.exact (codes "acme");
  path =
      PathPattern.exact (codes "bucket")
      ∷ PathPattern.exact (codes "logs")
      ∷ PathPattern.exact (codes "object")
      ∷ PathPattern.exact (codes "2026")
      ∷ PathPattern.exact (codes "08")
      ∷ rest;
}

abbrev all_of_august : UrnPattern
all_of_august = in_august (PathPattern.glob_star ∷ [])

abbrev the_secret : UrnPattern
the_secret = in_august (PathPattern.exact (codes "secret") ∷ [])

reads_august : Pattern.from_str august ≡ ok all_of_august
unfolding Pattern.from_str split_urn split_path splitn split ◌==◌
reads_august = refl

reads_secret : Pattern.from_str secret ≡ ok the_secret
unfolding Pattern.from_str split_urn split_path splitn split ◌==◌
reads_secret = refl

august-Suits : Suits objects all_of_august
august-Suits = record {
  is_pattern = (from_str-eq-ok august all_of_august reads_august).1;
  fills = refl;
  literal = (
    (refl, refl, refl),
    (
      (refl, refl, refl),
      ((refl, refl, refl), ((refl, refl, refl), ((refl, refl, refl), (tt, tt)))),
    ),
  );
}

secret-Suits : Suits objects the_secret
secret-Suits = record {
  is_pattern = (from_str-eq-ok secret the_secret reads_secret).1;
  fills = refl;
  literal = (
    (refl, refl, refl),
    (
      (refl, refl, refl),
      ((refl, refl, refl), ((refl, refl, refl), ((refl, refl, refl), ((refl, refl, refl), tt)))),
    ),
  );
}

compiles_parsed : compile_scope objects (all_of_august ∷ []) (the_secret ∷ []) ≡ ok compiled
unfolding compile_scope ◌==◌ try_map join
compiles_parsed = refl

-- A row, by its columns.
abbrev row : Text → Text
row name =
    if name == codes "account"
    then codes "acme"
    else if name == codes "bucket"
    then codes "logs"
    else if name == codes "key"
    then codes "2026/08/public"
    else codes "eu"

like-IsLike : IsLike like
like-IsLike = record {
  below_iff =
      λ value prefix p u b. (like_to prefix value, λ (rest, e). rw e (like_from prefix rest));
}

compile_scope-Means_example : Means objects like row like-IsLike compiled (
    any (covers objects like row like-IsLike) (all_of_august ∷ [])
    && not (any (covers objects like row like-IsLike) (the_secret ∷ [])))
compile_scope-Means_example =
    compile_scope-Means objects like row like-IsLike (all_of_august ∷ []) (the_secret ∷ []) compiled
      (august-Suits, tt) (secret-Suits, tt) compiles_parsed

-- ===== src/Urn/Covers.antt =====
-- What a pattern covers (`UrnPattern::matches` of src/common/src/utils/policy_urn.rs).
use authguard.Base.{
  ◌≡◌, refl, sym, ◌∙◌, ap, ◌↔◌, true, List, [], ◌∷◌, ◌++◌, map, Text, ◌==◌, eq_iff, Lacks, is_empty,
  All, ok, ok_inj, arith, and_cases,
}
use authguard.Urn.{ResourceUrn, SegmentPattern, PathPattern, UrnPattern}
use authguard.Urn.Exact
use authguard.Urn.Exact.{write_urn}
use authguard.Urn.ExactTrip.{IsStep, IsExact}
use authguard.Urn.Pattern.{from_str, to_string, path_to_string, path_matches, matches}
use authguard.Urn.PatternTrip.{IsPathSegment, GlobIsLast, IsPattern, from_str-to_string}

abbrev pub NoGlob : PathPattern → Type 0
NoGlob PathPattern.glob_star = ⊥
NoGlob _ = Unit

glob_covers :
    (qs : List PathPattern) (pre post : List Text)
    → All NoGlob qs
    → path_matches qs pre ≡ true
    → path_matches (qs ++ (PathPattern.glob_star ∷ [])) (pre ++ post) ≡ true
unfolding path_matches
glob_covers [] [] post h m = refl
glob_covers [] (u ∷ pre) post h m = cc
glob_covers (PathPattern.exact v ∷ qs) [] post h m = cc
glob_covers (PathPattern.exact v ∷ qs) (u ∷ pre) post (_, h) m =
    ground (arith, glob_covers qs pre post h)
glob_covers (PathPattern.any ∷ qs) [] post h m = cc
glob_covers (PathPattern.any ∷ qs) (u ∷ pre) post (_, h) m = glob_covers qs pre post h m
glob_covers (PathPattern.glob_star ∷ qs) pre post (h, _) m = absurd h

abbrev Begins : List PathPattern → List Text → Type 0
Begins qs path =
    (pre : List Text) × (post : List Text) × (path ≡ pre ++ post) × (path_matches qs pre ≡ true)

Begins-cons :
    (q : PathPattern) (qs : List PathPattern) (u : Text) (path : List Text)
    → ((pre : List Text) → path_matches qs pre ≡ true → path_matches (q ∷ qs) (u ∷ pre) ≡ true)
    → Begins qs path
    → Begins (q ∷ qs) (u ∷ path)
Begins-cons q qs u path step (pre, post, e, m) = (u ∷ pre, post, ap (◌∷◌ u) e, step pre m)

glob-Begins :
    (qs : List PathPattern) (path : List Text)
    → All NoGlob qs
    → path_matches (qs ++ (PathPattern.glob_star ∷ [])) path ≡ true
    → Begins qs path
unfolding path_matches
glob-Begins [] path h m = ([], path, refl, refl)
glob-Begins (PathPattern.exact v ∷ qs) [] h m = cc
glob-Begins (PathPattern.exact v ∷ qs) (u ∷ path) (_, h) m =
    let (same, rest) = and_cases (u == v) _ m in
    Begins-cons (PathPattern.exact v) qs u path (λ pre k. rw (same, k)) (glob-Begins qs path h rest)
glob-Begins (PathPattern.any ∷ qs) [] h m = cc
glob-Begins (PathPattern.any ∷ qs) (u ∷ path) (_, h) m =
    Begins-cons PathPattern.any qs u path (λ pre k. k) (glob-Begins qs path h m)
glob-Begins (PathPattern.glob_star ∷ qs) path (h, _) m = absurd h

-- A path pattern that ends in `**` covers exactly the paths that begin with a path which the
-- pattern before the `**` covers; the rest of the path is free and may be empty.
pub path_matches-glob_iff :
    (qs : List PathPattern) (path : List Text)
    → All NoGlob qs
    → (path_matches (qs ++ (PathPattern.glob_star ∷ [])) path ≡ true) ↔ (
        (pre : List Text) × (post : List Text) × (path ≡ pre ++ post)
        × (path_matches qs pre ≡ true))
path_matches-glob_iff qs path h =
    (glob-Begins qs path h, λ (pre, post, e, m). rw e (glob_covers qs pre post h m))

-- The pattern that is an exact URN.
abbrev of_exact : ResourceUrn → UrnPattern
of_exact u = record {
  partition = SegmentPattern.exact u.partition;
  service = SegmentPattern.exact u.service;
  region = SegmentPattern.exact u.region;
  tenant = SegmentPattern.exact u.tenant;
  path = map PathPattern.exact u.path;
}

print_exact : (path : List Text) → map path_to_string (map PathPattern.exact path) ≡ path
print_exact [] = refl
print_exact (s ∷ path) = ap (◌∷◌ s) (print_exact path)

path_of_exact :
    (path : List Text)
    → All IsStep path
    → All (Lacks b'*') path
    → All IsPathSegment (map PathPattern.exact path)
path_of_exact [] h k = tt
path_of_exact (s ∷ path) (h, hs) (k, ks) = ((h.0, h.1, k), path_of_exact path hs ks)

last_of_exact : (path : List Text) → GlobIsLast (map PathPattern.exact path)
last_of_exact [] = tt
last_of_exact (s ∷ path) = last_of_exact path

filled_of_exact : (path : List Text) → is_empty (map PathPattern.exact path) ≡ is_empty path
filled_of_exact [] = refl
filled_of_exact (s ∷ path) = refl

pub path_matches-exact_iff :
    (path other : List Text)
    → (path_matches (map PathPattern.exact path) other ≡ true) ↔ (other ≡ path)
unfolding path_matches
path_matches-exact_iff [] [] = ground arith
path_matches-exact_iff [] (u ∷ other) = ground arith
path_matches-exact_iff (s ∷ path) [] = ground arith
path_matches-exact_iff (s ∷ path) (u ∷ other) =
    ground (arith, path_matches-exact_iff path other, eq_iff u s)

matches-of_exact_iff : (u v : ResourceUrn) → (matches (of_exact u) v ≡ true) ↔ (v ≡ u)
unfolding matches
matches-of_exact_iff u v = ground (
  arith,
  eq_iff u.partition v.partition,
  eq_iff u.service v.service,
  eq_iff u.region v.region,
  eq_iff u.tenant v.tenant,
  path_matches-exact_iff u.path v.path,
)

-- An exact URN whose path holds no star, read as a pattern, covers that resource and no other.
pub exact_pattern_iff :
    (u v : ResourceUrn) (p : UrnPattern)
    → IsExact u
    → All (Lacks b'*') u.path
    → from_str (Exact.to_string u) ≡ ok p
    → (matches p v ≡ true) ↔ (v ≡ u)
unfolding to_string Exact.to_string
exact_pattern_iff u v p h plain read =
    let well : IsPattern (of_exact u) = record {
      partition = h.partition;
      service = h.service;
      region = h.region;
      tenant = h.tenant;
      filled = filled_of_exact u.path ∙ h.filled;
      path = path_of_exact u.path h.path plain;
      last = last_of_exact u.path;
    } in
    let back = rw print_exact at (from_str-to_string (of_exact u) well) in
    let same : of_exact u ≡ p = ok_inj (sym back ∙ read) in rw (← same) (matches-of_exact_iff u v)

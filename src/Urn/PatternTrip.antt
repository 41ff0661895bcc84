-- ===== src/Urn/PatternTrip.antt =====
-- Reading and printing Resource URN patterns (src/common/src/utils/policy_urn.rs).
use authguard.Base.{
  ◌≡◌, refl, sym, ◌∙◌, ◌↔◌, subst, Bool, true, false, List, [], ◌∷◌, map, Text, ◌==◌, eq_iff, Lacks,
  is_empty, All, join, All-Lacks_of_join, Lacks-join, ok, bind-eq-ok, ok_inj, arith,
}
use authguard.Urn.{
  SegmentPattern, PathPattern, UrnPattern, UrnParts, star, glob, split_urn, split_path,
}
use authguard.Urn.ExactTrip.{IsName}
use authguard.Urn.Pattern.{
  parse_segment, parse_path_segment, parse_segments, parse_path_pattern, from_str, to_string,
  segment_to_string, path_to_string,
}
use authguard.Urn.Pieces.{
  IsClean, IsPiece, split_urn-write, split_urn-eq-ok, split_path-eq-ok, split_path-join,
}

abbrev pub IsSegment : SegmentPattern → Type 0
IsSegment (SegmentPattern.exact value) = IsName value
IsSegment SegmentPattern.any = Unit

abbrev pub IsPathSegment : PathPattern → Type 0
IsPathSegment (PathPattern.exact value) = IsPiece value × Lacks b':' value × Lacks b'*' value
IsPathSegment _ = Unit

-- `**` stands last or not at all.
abbrev pub GlobIsLast : List PathPattern → Type 0
GlobIsLast [] = Unit
GlobIsLast (PathPattern.glob_star ∷ rest) = is_empty rest ≡ true
GlobIsLast (_ ∷ rest) = GlobIsLast rest

-- The patterns that a text can name.
pub record IsPattern (p : UrnPattern) : Type 0 where
  pub partition : IsSegment p.partition
  pub service : IsSegment p.service
  pub region : IsSegment p.region
  pub tenant : IsSegment p.tenant
  pub filled : is_empty p.path ≡ false
  pub path : All IsPathSegment p.path
  pub last : GlobIsLast p.path

parse_segment-eq-ok :
    (s : Text) (p : SegmentPattern)
    → parse_segment s ≡ ok p
    → Lacks b':' s
    → (s ≡ segment_to_string p) × IsSegment p
unfolding parse_segment ◌==◌
parse_segment-eq-ok s (SegmentPattern.exact v) h k =
    let e : s ≡ v = ground arith in
    (e, (rw (← e) (ground arith), rw (← e) k, rw (← e) (ground arith)))
parse_segment-eq-ok s SegmentPattern.any h k = (ground (arith, eq_iff s star), tt)

parse_segment_name : (p : SegmentPattern) → IsSegment p → parse_segment (segment_to_string p) ≡ ok p
unfolding parse_segment ◌==◌
parse_segment_name (SegmentPattern.exact v) (filled, _, plain) =
    ground (arith, eq_iff v star, eq_iff v glob)
parse_segment_name SegmentPattern.any h = refl

segment_colon : (p : SegmentPattern) → IsSegment p → Lacks b':' (segment_to_string p)
segment_colon (SegmentPattern.exact v) (_, k, _) = k
segment_colon SegmentPattern.any h = refl

parse_path_segment-eq-ok :
    (last : Bool) (s : Text) (p : PathPattern)
    → parse_path_segment last s ≡ ok p
    → IsPiece s
    → Lacks b':' s
    → (s ≡ path_to_string p) × IsPathSegment p
unfolding parse_path_segment
parse_path_segment-eq-ok last s (PathPattern.exact v) h k c =
    let e : s ≡ v = ground arith in
    (e, (subst IsPiece e k, subst (Lacks b':') e c, subst (Lacks b'*') e (ground arith)))
parse_path_segment-eq-ok last s PathPattern.any h k c = (ground (arith, eq_iff s star), tt)
parse_path_segment-eq-ok last s PathPattern.glob_star h k c = (ground (arith, eq_iff s glob), tt)

parse_path_segment_last :
    (last : Bool) (s : Text) → parse_path_segment last s ≡ ok PathPattern.glob_star → last ≡ true
unfolding parse_path_segment
parse_path_segment_last last s h = ground arith

parse_segments-empty :
    (ps : List Text) (path : List PathPattern)
    → parse_segments ps ≡ ok path
    → is_empty ps ≡ is_empty path
unfolding parse_segments
parse_segments-empty [] path h = ground arith
parse_segments-empty (s ∷ ps) [] h = ground arith
parse_segments-empty (s ∷ ps) (p ∷ path) h = refl

glob_last_cons :
    (p : PathPattern) (s : Text) (ps : List Text) (path : List PathPattern)
    → parse_path_segment (is_empty ps) s ≡ ok p
    → parse_segments ps ≡ ok path
    → GlobIsLast path
    → GlobIsLast (p ∷ path)
glob_last_cons (PathPattern.exact v) s ps path h r k = k
glob_last_cons PathPattern.any s ps path h r k = k
glob_last_cons PathPattern.glob_star s ps path h r k =
    sym (parse_segments-empty ps path r) ∙ parse_path_segment_last (is_empty ps) s h

abbrev Reads : List Text → List PathPattern → Type 0
Reads ps path = (ps ≡ map path_to_string path) × All IsPathSegment path × GlobIsLast path

Reads-cons :
    (p : PathPattern) (s : Text) (ps : List Text) (path : List PathPattern)
    → parse_path_segment (is_empty ps) s ≡ ok p
    → parse_segments ps ≡ ok path
    → IsPiece s
    → Lacks b':' s
    → Reads ps path
    → Reads (s ∷ ps) (p ∷ path)
Reads-cons p s ps path h r k c (e, all, last) =
    let (es, ok_p) = parse_path_segment-eq-ok (is_empty ps) s p h k c in
    (cc, (ok_p, all), glob_last_cons p s ps path h r last)

parse_segments-eq-ok :
    (ps : List Text) (path : List PathPattern)
    → parse_segments ps ≡ ok path
    → All IsPiece ps
    → All (Lacks b':') ps
    → Reads ps path
unfolding parse_segments
parse_segments-eq-ok [] path h k c = let e : [] ≡ path = cc in rw (← e) (refl, tt, tt)
parse_segments-eq-ok (s ∷ ps) path h (k, ks) (c, cs) =
    let (p, hp, h₁) = bind-eq-ok (parse_path_segment (is_empty ps) s) _ h in
    let (rest, hr, h₂) = bind-eq-ok (parse_segments ps) _ h₁ in
    let e : p ∷ rest ≡ path = cc in
    subst (Reads (s ∷ ps)) e
      (Reads-cons p s ps rest hp hr k c (parse_segments-eq-ok ps rest hr ks cs))

-- The text of a path segment is a piece, and `parse_path_segment` reads it back.
path-IsPiece : (p : PathPattern) → IsPathSegment p → IsPiece (path_to_string p)
path-IsPiece (PathPattern.exact v) h = h.0
path-IsPiece PathPattern.any h = (refl, refl)
path-IsPiece PathPattern.glob_star h = (refl, refl)

path_colon : (p : PathPattern) → IsPathSegment p → Lacks b':' (path_to_string p)
path_colon (PathPattern.exact v) h = h.1
path_colon PathPattern.any h = refl
path_colon PathPattern.glob_star h = refl

path_reads :
    (p : PathPattern) (rest : List PathPattern)
    → IsPathSegment p
    → GlobIsLast (p ∷ rest)
    → parse_path_segment (is_empty (map path_to_string rest)) (path_to_string p) ≡ ok p
unfolding parse_path_segment ◌==◌
path_reads (PathPattern.exact v) rest (_, _, plain) last =
    ground (arith, eq_iff v star, eq_iff v glob)
path_reads PathPattern.any rest h last = refl
path_reads PathPattern.glob_star [] h last = refl
path_reads PathPattern.glob_star (q ∷ rest) h last = cc

GlobIsLast-tail :
    (p : PathPattern) (rest : List PathPattern) → GlobIsLast (p ∷ rest) → GlobIsLast rest
GlobIsLast-tail (PathPattern.exact v) rest h = h
GlobIsLast-tail PathPattern.any rest h = h
GlobIsLast-tail PathPattern.glob_star [] h = tt
GlobIsLast-tail PathPattern.glob_star (q ∷ rest) h = cc

parse_segments-map :
    (path : List PathPattern)
    → All IsPathSegment path
    → GlobIsLast path
    → parse_segments (map path_to_string path) ≡ ok path
unfolding parse_segments
parse_segments-map [] h last = refl
parse_segments-map (p ∷ path) (h, k) last =
    rw (path_reads p path h last, parse_segments-map path k (GlobIsLast-tail p path last))

pieces_of_path :
    (path : List PathPattern) → All IsPathSegment path → All IsPiece (map path_to_string path)
pieces_of_path [] h = tt
pieces_of_path (p ∷ path) (h, k) = (path-IsPiece p h, pieces_of_path path k)

colons_of_path :
    (path : List PathPattern) → All IsPathSegment path → All (Lacks b':') (map path_to_string path)
colons_of_path [] h = tt
colons_of_path (p ∷ path) (h, k) = (path_colon p h, colons_of_path path k)

filled_of_path : (path : List PathPattern) → is_empty (map path_to_string path) ≡ is_empty path
filled_of_path [] = refl
filled_of_path (p ∷ path) = refl

abbrev parts_of : UrnPattern → UrnParts
parts_of p = record {
  partition = segment_to_string p.partition;
  service = segment_to_string p.service;
  region = segment_to_string p.region;
  tenant = segment_to_string p.tenant;
  path = join b'/' (map path_to_string p.path);
}

pub from_str-to_string : (p : UrnPattern) → IsPattern p → from_str (to_string p) ≡ ok p
unfolding from_str to_string
from_str-to_string p h =
    let clean : IsClean (parts_of p) = record {
      partition = segment_colon p.partition h.partition;
      service = segment_colon p.service h.service;
      region = segment_colon p.region h.region;
      tenant = segment_colon p.tenant h.tenant;
      path = Lacks-join b'/' b':' _ refl (colons_of_path p.path h.path);
    } in
    rw (
      split_urn-write (parts_of p) clean,
      parse_segment_name p.partition h.partition,
      parse_segment_name p.service h.service,
      parse_segment_name p.region h.region,
      parse_segment_name p.tenant h.tenant,
      split_path-join (map path_to_string p.path) (filled_of_path p.path ∙ h.filled)
          (pieces_of_path p.path h.path),
      parse_segments-map p.path h.path h.last,
    )

-- What the checks of `from_str` leave known of its parts.
assembled :
    (s : Text) (parts : UrnParts) (pieces : List Text) (p : UrnPattern)
    → split_urn s ≡ ok parts
    → parse_segment parts.partition ≡ ok p.partition
    → parse_segment parts.service ≡ ok p.service
    → parse_segment parts.region ≡ ok p.region
    → parse_segment parts.tenant ≡ ok p.tenant
    → split_path parts.path ≡ ok pieces
    → parse_segments pieces ≡ ok p.path
    → (s ≡ to_string p) × IsPattern p
unfolding to_string
assembled s parts pieces p cut v₁ v₂ v₃ v₄ split read =
    let (e, clean) = split_urn-eq-ok s parts cut in
    let (joined, filled, steps) = split_path-eq-ok parts.path pieces split in
    let colons = All-Lacks_of_join b'/' b':' pieces (rw joined at clean.path) in
    let (printed, all, last) = parse_segments-eq-ok pieces p.path read steps colons in
    let (t₁, w₁) = parse_segment-eq-ok _ p.partition v₁ clean.partition in
    let (t₂, w₂) = parse_segment-eq-ok _ p.service v₂ clean.service in
    let (t₃, w₃) = parse_segment-eq-ok _ p.region v₃ clean.region in
    let (t₄, w₄) = parse_segment-eq-ok _ p.tenant v₄ clean.tenant in
    (
      rw (← t₁, ← t₂, ← t₃, ← t₄, ← printed, ← joined) e,
      record {
        partition = w₁;
        service = w₂;
        region = w₃;
        tenant = w₄;
        filled = sym (parse_segments-empty pieces p.path read) ∙ filled;
        path = all;
        last = last;
      },
    )

pub from_str-eq-ok :
    (s : Text) (p : UrnPattern) → from_str s ≡ ok p → (s ≡ to_string p) × IsPattern p
unfolding from_str
from_str-eq-ok s p h =
    let (parts, cut, h₁) = bind-eq-ok (split_urn s) _ h in
    let (p₁, e₁, h₂) = bind-eq-ok (parse_segment parts.partition) _ h₁ in
    let (p₂, e₂, h₃) = bind-eq-ok (parse_segment parts.service) _ h₂ in
    let (p₃, e₃, h₄) = bind-eq-ok (parse_segment parts.region) _ h₃ in
    let (p₄, e₄, h₅) = bind-eq-ok (parse_segment parts.tenant) _ h₄ in
    let (path, e₅, h₆) = bind-eq-ok (parse_path_pattern parts.path) _ h₅ in
    let (pieces, e₆, e₇) = bind-eq-ok (split_path parts.path) _ e₅ in
    subst (λ q. (s ≡ to_string q) × IsPattern q) (ok_inj h₆)
      (assembled s parts pieces _ cut e₁ e₂ e₃ e₄ e₆ e₇)

-- A text reads as a pattern exactly when it is the print of that pattern, whose four names are `*`
-- or a name that is not empty and holds no colon and no star, and whose path is a non-empty list of
-- `*`, of `**` in the last place and of segments that are not empty and hold no slash, colon or
-- star.
pub IsPattern-from_str_iff :
    (s : Text) (p : UrnPattern) → (from_str s ≡ ok p) ↔ ((s ≡ to_string p) × IsPattern p)
IsPattern-from_str_iff s p =
    (from_str-eq-ok s p, λ h. subst (λ t. from_str t ≡ ok p) (sym h.0) (from_str-to_string p h.1))

-- ===== src/Urn/ExactTrip.antt =====
-- Reading and printing exact Resource URNs (src/common/src/utils/policy_urn.rs).
use authguard.Base.{
  ◌≡◌, refl, sym, ◌↔◌, subst, false, List, [], ◌∷◌, Text, codes, ◌==◌, eq_iff, Lacks, is_empty, All,
  join, All-Lacks_of_join, Lacks-join, ok, bind-eq-ok, ok_inj, arith,
}
use authguard.Urn.{ResourceUrn, UrnParts, star, glob, split_urn, split_path}
use authguard.Urn.Exact.{validate_exact_segment, reject_wildcards, from_str, to_string, write_urn}
use authguard.Urn.Pieces.{
  IsClean, IsPiece, split_urn-write, split_urn-eq-ok, split_path-eq-ok, split_path-join,
}

-- A segment before the path: not empty, with no colon and no wildcard.
abbrev pub IsName : Text → Type 0
IsName s = (is_empty s ≡ false) × Lacks b':' s × Lacks b'*' s

-- A segment of the path: not empty, no separator, and neither of the two wildcards.
abbrev pub IsStep : Text → Type 0
IsStep s = IsPiece s × Lacks b':' s × ((s == star) ≡ false) × ((s == glob) ≡ false)

-- The exact URNs that a text can name.
pub record IsExact (u : ResourceUrn) : Type 0 where
  pub partition : IsName u.partition
  pub service : IsName u.service
  pub region : IsName u.region
  pub tenant : IsName u.tenant
  pub filled : is_empty u.path ≡ false
  pub path : All IsStep u.path

validate-eq-ok :
    (name s : Text) → validate_exact_segment name s ≡ ok tt → (is_empty s ≡ false) × Lacks b'*' s
unfolding validate_exact_segment
validate-eq-ok name s h = ground arith

validate_name : (name s : Text) → IsName s → validate_exact_segment name s ≡ ok tt
unfolding validate_exact_segment ◌==◌
validate_name name s (filled, _, plain) = ground (arith, eq_iff s star, eq_iff s glob)

reject-eq-ok :
    (ps : List Text)
    → reject_wildcards ps ≡ ok tt
    → All IsPiece ps
    → All (Lacks b':') ps
    → All IsStep ps
unfolding reject_wildcards
reject-eq-ok [] h k c = tt
reject-eq-ok (p ∷ ps) h (k, ks) (c, cs) =
    ((k, c, ground arith, ground arith), reject-eq-ok ps (ground arith) ks cs)

reject_steps : (ps : List Text) → All IsStep ps → reject_wildcards ps ≡ ok tt
unfolding reject_wildcards
reject_steps [] h = refl
reject_steps (p ∷ ps) ((_, _, s, g), h) = rw (s, g) (reject_steps ps h)

pieces_of_steps : (ps : List Text) → All IsStep ps → All IsPiece ps
pieces_of_steps [] h = tt
pieces_of_steps (p ∷ ps) (s, h) = (s.0, pieces_of_steps ps h)

colons_of_steps : (ps : List Text) → All IsStep ps → All (Lacks b':') ps
colons_of_steps [] h = tt
colons_of_steps (p ∷ ps) (s, h) = (s.1, colons_of_steps ps h)

abbrev parts_of : ResourceUrn → UrnParts
parts_of u = record {
  partition = u.partition;
  service = u.service;
  region = u.region;
  tenant = u.tenant;
  path = join b'/' u.path;
}

abbrev urn_of : UrnParts → List Text → ResourceUrn
urn_of parts path = record {
  partition = parts.partition;
  service = parts.service;
  region = parts.region;
  tenant = parts.tenant;
  path = path;
}

pub from_str-to_string : (u : ResourceUrn) → IsExact u → from_str (to_string u) ≡ ok u
unfolding from_str to_string
from_str-to_string u h =
    let clean : IsClean (parts_of u) = record {
      partition = h.partition.1;
      service = h.service.1;
      region = h.region.1;
      tenant = h.tenant.1;
      path = Lacks-join b'/' b':' u.path refl (colons_of_steps u.path h.path);
    } in
    rw (
      split_urn-write (parts_of u) clean,
      validate_name (codes "partition") u.partition h.partition,
      validate_name (codes "service") u.service h.service,
      validate_name (codes "region") u.region h.region,
      validate_name (codes "tenant") u.tenant h.tenant,
      split_path-join u.path h.filled (pieces_of_steps u.path h.path),
      reject_steps u.path h.path,
    )

-- What the checks of `from_str` leave known of its parts.
assembled :
    (s : Text) (parts : UrnParts) (path : List Text)
    → split_urn s ≡ ok parts
    → validate_exact_segment (codes "partition") parts.partition ≡ ok tt
    → validate_exact_segment (codes "service") parts.service ≡ ok tt
    → validate_exact_segment (codes "region") parts.region ≡ ok tt
    → validate_exact_segment (codes "tenant") parts.tenant ≡ ok tt
    → split_path parts.path ≡ ok path
    → reject_wildcards path ≡ ok tt
    → (s ≡ write_urn parts.partition parts.service parts.region parts.tenant (join b'/' path))
      × IsExact (urn_of parts path)
assembled s parts path cut v₁ v₂ v₃ v₄ split rejected =
    let (e, clean) = split_urn-eq-ok s parts cut in
    let (joined, filled, steps) = split_path-eq-ok parts.path path split in
    let (f₁, w₁) = validate-eq-ok _ _ v₁ in
    let (f₂, w₂) = validate-eq-ok _ _ v₂ in
    let (f₃, w₃) = validate-eq-ok _ _ v₃ in
    let (f₄, w₄) = validate-eq-ok _ _ v₄ in
    let colons = All-Lacks_of_join b'/' b':' path (rw joined at clean.path) in
    (
      rw (← joined) e,
      record {
        partition = (f₁, clean.partition, w₁);
        service = (f₂, clean.service, w₂);
        region = (f₃, clean.region, w₃);
        tenant = (f₄, clean.tenant, w₄);
        filled = filled;
        path = reject-eq-ok path rejected steps colons;
      },
    )

pub from_str-eq-ok :
    (s : Text) (u : ResourceUrn) → from_str s ≡ ok u → (s ≡ to_string u) × IsExact u
unfolding from_str to_string
from_str-eq-ok s u h =
    let (parts, cut, h₁) = bind-eq-ok (split_urn s) _ h in
    let (v₁, e₁, h₂) =
      bind-eq-ok (validate_exact_segment (codes "partition") parts.partition) _ h₁ in
    let (v₂, e₂, h₃) = bind-eq-ok (validate_exact_segment (codes "service") parts.service) _ h₂ in
    let (v₃, e₃, h₄) = bind-eq-ok (validate_exact_segment (codes "region") parts.region) _ h₃ in
    let (v₄, e₄, h₅) = bind-eq-ok (validate_exact_segment (codes "tenant") parts.tenant) _ h₄ in
    let (path, e₅, h₆) = bind-eq-ok (split_path parts.path) _ h₅ in
    let (v₆, e₆, h₇) = bind-eq-ok (reject_wildcards path) _ h₆ in
    let same : urn_of parts path ≡ u = ok_inj h₇ in
    rw (← same) (assembled s parts path cut e₁ e₂ e₃ e₄ e₅ e₆)

-- A text reads as an exact URN exactly when it is the print of that URN, whose four names are not
-- empty and hold no colon and no wildcard, and whose path is a non-empty list of segments that are
-- not empty, hold no slash and no colon, and are neither `*` nor `**`.
pub IsExact-from_str_iff :
    (s : Text) (u : ResourceUrn) → (from_str s ≡ ok u) ↔ ((s ≡ to_string u) × IsExact u)
IsExact-from_str_iff s u =
    (from_str-eq-ok s u, λ h. subst (λ t. from_str t ≡ ok u) (sym h.0) (from_str-to_string u h.1))

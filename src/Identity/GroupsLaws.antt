-- ===== src/Identity/GroupsLaws.antt =====
-- Groups and methods that were written into a token are read back.
use authguard.Base.{
  ◌≤◌, ◌≡◌, refl, arith, false, some, List, [], ◌∷◌, map, Text, codes, All, length, ltb, try_map,
  ok, ok_or,
}
use authguard.Identity.Json.{string, elements, items_of, strings, as_str}
use authguard.Identity.Canonical.{IsCanonical, validate_canonical_of}
use authguard.Identity.Increasing.{dedup-sort_of_IsIncreasing}
use authguard.Identity.Claims.{
  invalid_json, invalid_groups, max_groups, total_len, max_group_bytes, canonical_group,
  bounded_groups, read_groups, read_string_array,
}
use authguard.Identity.ClaimsLaws.{AreGroups}

-- Groups that are canonical, increasing, few and short are read as they are.
canonical_groups_of :
    (groups : List Text) → All IsCanonical groups → try_map canonical_group groups ≡ ok groups
unfolding try_map canonical_group
canonical_groups_of [] h = refl
canonical_groups_of (group ∷ groups) h =
    rw (validate_canonical_of group (codes "group_id") h.0, canonical_groups_of groups h.1) refl

strings_read :
    (texts : List Text)
    → try_map
        (λ value. ok_or invalid_groups (as_str value))
        (elements (items_of (map string texts)))
      ≡ ok texts
unfolding try_map
strings_read [] = refl
strings_read (text ∷ texts) = rw (strings_read texts) refl

pub read_groups-strings :
    (groups : List Text)
    → AreGroups groups
    → total_len groups ≤ max_group_bytes
    → read_groups (some (strings groups)) ≡ ok groups
unfolding read_groups bounded_groups
read_groups-strings groups are short =
    let few : ltb max_groups (length groups) ≡ false = ground (arith, are.few) in
    let bytes : ltb max_group_bytes (total_len groups) ≡ false = ground (arith, short) in
    rw
      (
        strings_read groups,
        few,
        bytes,
        canonical_groups_of groups are.canonical,
        dedup-sort_of_IsIncreasing groups are.increasing,
      )
      refl

methods_read :
    (texts : List Text)
    → try_map (λ value. ok_or invalid_json (as_str value)) (elements (items_of (map string texts)))
      ≡ ok texts
unfolding try_map
methods_read [] = refl
methods_read (text ∷ texts) = rw (methods_read texts) refl

pub read_string_array-strings :
    (texts : List Text) → read_string_array (some (strings texts)) ≡ ok texts
unfolding read_string_array
read_string_array-strings texts = methods_read texts

-- ===== src/Identity/Canonical.antt =====
-- `validate_canonical` of src/common/src/utils/mod.rs.
use authguard.Base.{
  ℕ, ◌≤◌, ◌≡◌, arith, Bool, false, not, ◌||◌, ◌&&◌, Text, ◌==◌, eq_iff, any, is_empty, len, trim,
  leb, ltb, Result, ok, err, if◌then◌else◌,
}

abbrev pub max_canonical_id_bytes : ℕ
max_canonical_id_bytes = 512

-- `char::is_control`, the category Cc of Unicode
abbrev pub is_control : ℕ → Bool
is_control c = leb c 31 || (leb 127 c && leb c 159)

-- The error is the name of the field.
unfoldable pub validate_canonical : Text → Text → Result Text (Unit {0})
validate_canonical value field =
    if is_empty value
      || not (trim value == value)
      || ltb max_canonical_id_bytes (len value)
      || any is_control value
    then err field
    else ok tt

pub record IsCanonical (value : Text) : Type 0 where
  pub filled : is_empty value ≡ false
  pub trimmed : trim value ≡ value
  pub short : len value ≤ max_canonical_id_bytes
  pub printable : any is_control value ≡ false

pub validate_canonical-eq-ok :
    (value field : Text) → validate_canonical value field ≡ ok tt → IsCanonical value
unfolding validate_canonical
validate_canonical-eq-ok value field h = ground (arith, eq_iff (trim value) value)

pub validate_canonical_of :
    (value field : Text) → IsCanonical value → validate_canonical value field ≡ ok tt
unfolding validate_canonical
validate_canonical_of value field c =
    ground (arith, eq_iff (trim value) value, c.filled, c.trimmed, c.short, c.printable)

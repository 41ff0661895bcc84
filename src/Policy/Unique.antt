-- ===== src/Policy/Unique.antt =====
-- What `validate_unique` of src/authz/src/handler/policy/mod.rs establishes.
use authguard.Base.{
  ◌≡◌, refl, ◌↔◌, true, false, List, [], ◌∷◌, Text, eq_iff, contains, is_blank, arith, ok,
}
use authguard.Policy.Catalog.{PolicyError, unique_from, validate_unique}

-- No value is blank, and none stands twice.
abbrev pub IsUnique : List Text → Type 0
IsUnique [] = Unit
IsUnique (value ∷ values) =
    (is_blank value ≡ false) × (contains value values ≡ false) × IsUnique values

abbrev Fresh : List Text → List Text → Type 0
Fresh seen [] = Unit
Fresh seen (value ∷ values) =
    (is_blank value ≡ false) × (contains value seen ≡ false) × Fresh (value ∷ seen) values

unique_from_iff :
    (error : Text → PolicyError) (seen values : List Text)
    → (unique_from error seen values ≡ ok tt) ↔ Fresh seen values
unfolding unique_from
unique_from_iff error seen [] = (λ _. tt, λ _. refl)
unique_from_iff error seen (value ∷ values) =
    let (to, from) = unique_from_iff error (value ∷ seen) values in
    (λ h. (ground arith, ground arith, to (ground arith)), λ f. rw (f.0, f.1) (from f.2))

-- A value that was seen does not come again.
Fresh-contains :
    (value : Text) (seen values : List Text)
    → contains value seen ≡ true
    → Fresh seen values
    → contains value values ≡ false
Fresh-contains value seen [] h f = refl
Fresh-contains value seen (v ∷ values) h (_, fresh, f) =
    let later = Fresh-contains value (v ∷ seen) values (ground arith) f in
    ground (arith, eq_iff value v)

Fresh-IsUnique : (seen values : List Text) → Fresh seen values → IsUnique values
Fresh-IsUnique seen [] f = tt
Fresh-IsUnique seen (value ∷ values) (filled, _, f) = (
  filled,
  Fresh-contains value (value ∷ seen) values (ground (arith, eq_iff value value)) f,
  Fresh-IsUnique (value ∷ seen) values f,
)

pub validate_unique-IsUnique :
    (error : Text → PolicyError) (values : List Text)
    → validate_unique error values ≡ ok tt
    → IsUnique values
unfolding validate_unique
validate_unique-IsUnique error values h =
    Fresh-IsUnique [] values ((unique_from_iff error [] values).0 h)

Fresh-of_IsUnique :
    (seen values : List Text)
    → IsUnique values
    → ((v : Text) → contains v values ≡ true → contains v seen ≡ false)
    → Fresh seen values
Fresh-of_IsUnique seen [] u apart = tt
Fresh-of_IsUnique seen (value ∷ values) (filled, new, u) apart = (
  filled,
  apart value (ground (arith, eq_iff value value)),
  Fresh-of_IsUnique (value ∷ seen) values u
      (λ v h. ground (arith, apart v (ground arith), eq_iff v value)),
)

-- The check passes exactly when no value is blank and no value stands twice.
pub validate_unique_iff :
    (error : Text → PolicyError) (values : List Text)
    → (validate_unique error values ≡ ok tt) ↔ IsUnique values
unfolding validate_unique
validate_unique_iff error values = (
  validate_unique-IsUnique error values,
  λ u. (unique_from_iff error [] values).1 (Fresh-of_IsUnique [] values u (λ v h. refl)),
)

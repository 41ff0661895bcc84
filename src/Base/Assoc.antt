-- ===== src/Base/Assoc.antt =====
-- Maps with text keys (`HashMap`, `BTreeMap`) as association lists without order.
use mathlib.Core.Path.{◌≡◌, refl, ap, ◌∙◌}
use mathlib.Core.Bool.{Bool, not}
use mathlib.Core.Option.{Option, none, some}
use mathlib.Core.List.{List, [], ◌∷◌}
use native.Mathlib.Omega.{arith}
use authguard.Base.Tests.{if◌then◌else◌}
use authguard.Base.Lists.{any, retain}
use authguard.Base.Chars.{Text, ◌==◌, eq_iff}

module _ {ℓ} {V : Type ℓ} where
  unfoldable pub lookup : Text → List (Text × V) → Option V
  lookup k [] = none
  lookup k ((j, v) ∷ m) = if j == k then some v else lookup k m

  unfoldable pub insert : Text → V → List (Text × V) → List (Text × V)
  insert k v [] = (k, v) ∷ []
  insert k v ((j, w) ∷ m) = if j == k then (k, v) ∷ m else (j, w) ∷ insert k v m

  -- `collect::<HashMap<_, _>>()`: the last value of a key stays.
  unfoldable pub from_pairs : List (Text × V) → List (Text × V) → List (Text × V)
  unfolding insert
  from_pairs m [] = m
  from_pairs m ((k, v) ∷ rest) = from_pairs (insert k v m) rest

  -- `HashMap::remove`
  abbrev pub remove : Text → List (Text × V) → List (Text × V)
  remove k = retain (λ entry. not (entry.0 == k))

  -- `HashMap::insert`, for maps whose order is never looked at.
  abbrev pub put : Text → V → List (Text × V) → List (Text × V)
  put k v m = (k, v) ∷ remove k m

  abbrev pub contains_key : Text → List (Text × V) → Bool
  contains_key k = any (λ entry. entry.0 == k)

  -- What an insertion changes for a reader.
  pub lookup-insert :
      (key wanted : Text) (value : V) (table : List (Text × V))
      → lookup wanted (insert key value table)
        ≡ (if key == wanted then some value else lookup wanted table)
  unfolding insert lookup
  lookup-insert key wanted value [] = refl
  lookup-insert key wanted value ((held, old) ∷ table) =
      let later = lookup-insert key wanted value table in
      ground (arith, later, eq_iff held key, eq_iff held wanted, eq_iff key wanted)

  -- The last value of a key in a list of pairs, or what is found without them.
  unfoldable pub last_value : Text → Option V → List (Text × V) → Option V
  last_value wanted found [] = found
  last_value wanted found ((key, value) ∷ pairs) =
      last_value wanted (if key == wanted then some value else found) pairs

  pub lookup-from_pairs :
      (wanted : Text) (table pairs : List (Text × V))
      → lookup wanted (from_pairs table pairs) ≡ last_value wanted (lookup wanted table) pairs
  unfolding from_pairs last_value
  lookup-from_pairs wanted table [] = refl
  lookup-from_pairs wanted table ((key, value) ∷ pairs) =
      lookup-from_pairs wanted (insert key value table) pairs
      ∙ ap (λ found. last_value wanted found pairs) (lookup-insert key wanted value table)

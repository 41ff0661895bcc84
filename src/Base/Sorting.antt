-- ===== src/Base/Sorting.antt =====
-- `Vec<String>::sort` and `dedup`. Texts are ordered by their bytes in UTF-8, which is the order of
-- their characters.
use Prim.Native.Nat.{compare, Ordering}
use mathlib.Core.Path.{◌≡◌, refl}
use mathlib.Core.Bool.{Bool, true, false, ◌||◌}
use mathlib.Core.List.{List, [], ◌∷◌}
use native.Mathlib.Omega.{arith}
use authguard.Base.Tests.{if◌then◌else◌}
use authguard.Base.Lists.{any}
use authguard.Base.Chars.{Text, ◌==◌, eq_iff}

unfoldable pub text_le : Text → Text → Bool
text_le [] t = true
text_le (a ∷ s) [] = false
text_le (a ∷ s) (b ∷ t) =
    let rest = text_le s t in
    elim (compare a b) [ Ordering.lt ↦ true | Ordering.gt ↦ false | Ordering.eq ↦ rest ]

unfoldable pub insert_sorted : Text → List Text → List Text
unfolding text_le
insert_sorted x [] = x ∷ []
insert_sorted x (y ∷ ys) = if text_le x y then x ∷ y ∷ ys else y ∷ insert_sorted x ys

unfoldable pub sort : List Text → List Text
unfolding insert_sorted
sort [] = []
sort (x ∷ xs) = insert_sorted x (sort xs)

-- Drops an element that equals the one kept before it.
unfoldable pub dedup_from : Text → List Text → List Text
dedup_from x [] = []
dedup_from x (y ∷ ys) =
    let same = dedup_from x ys in let other = dedup_from y ys in if y == x then same else y ∷ other

unfoldable pub dedup : List Text → List Text
unfolding dedup_from
dedup [] = []
dedup (x ∷ xs) = x ∷ dedup_from x xs

-- Neither changes which elements there are, so no test over the elements changes.
module _ (p : Text → Bool) where
  any-insert_sorted : (x : Text) (xs : List Text) → any p (insert_sorted x xs) ≡ (p x || any p xs)
  unfolding insert_sorted
  any-insert_sorted x [] = refl
  any-insert_sorted x (y ∷ ys) = ground (arith, any-insert_sorted x ys)

  any-sort : (xs : List Text) → any p (sort xs) ≡ any p xs
  unfolding sort
  any-sort [] = refl
  any-sort (x ∷ xs) = ground (arith, any-insert_sorted x (sort xs), any-sort xs)

  any-dedup_from :
      (x : Text) (xs : List Text) → (p x || any p (dedup_from x xs)) ≡ (p x || any p xs)
  unfolding dedup_from
  any-dedup_from x [] = refl
  any-dedup_from x (y ∷ ys) = ground (arith, eq_iff y x, any-dedup_from x ys, any-dedup_from y ys)

  any-dedup : (xs : List Text) → any p (dedup xs) ≡ any p xs
  unfolding dedup
  any-dedup [] = refl
  any-dedup (x ∷ xs) = any-dedup_from x xs

  pub any-dedup-sort : (xs : List Text) → any p (dedup (sort xs)) ≡ any p xs
  any-dedup-sort xs = ground (arith, any-dedup (sort xs), any-sort xs)

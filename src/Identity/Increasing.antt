-- ===== src/Identity/Increasing.antt =====
-- What `sort` and `dedup` leave: texts in strictly increasing order, with what holds of each.
use authguard.Base.{
  ◌≤◌, ◌≡◌, refl, ap, subst, ◌∙◌, eq_comm, arith, true, false, Bool-cases, inl, inr, List, [], ◌∷◌,
  Text, ◌==◌, eq_iff, All, length, text_le, insert_sorted, sort, dedup_from, dedup,
}

-- Each text stands before the next one.
abbrev pub IsIncreasing : List Text → Type 0
IsIncreasing [] = Unit
IsIncreasing (x ∷ []) = Unit
IsIncreasing (x ∷ y ∷ ys) = (text_le x y ≡ true) × ((x == y) ≡ false) × IsIncreasing (y ∷ ys)

abbrev IsOrdered : List Text → Type 0
IsOrdered [] = Unit
IsOrdered (x ∷ []) = Unit
IsOrdered (x ∷ y ∷ ys) = (text_le x y ≡ true) × IsOrdered (y ∷ ys)

text_le_total : (s t : Text) → text_le s t ≡ false → text_le t s ≡ true
unfolding text_le
text_le_total [] t h = cc
text_le_total (a ∷ s) [] h = refl
text_le_total (a ∷ s) (b ∷ t) h = ground (arith, text_le_total s t)

insert_sorted-IsOrdered :
    (x : Text) (xs : List Text) → IsOrdered xs → IsOrdered (insert_sorted x xs)
unfolding insert_sorted
insert_sorted-IsOrdered x [] h = tt
insert_sorted-IsOrdered x (y ∷ []) h = ground (arith, text_le_total x y)
insert_sorted-IsOrdered x (y ∷ z ∷ zs) h =
    let later = insert_sorted-IsOrdered x (z ∷ zs) h.1 in
    elim (Bool-cases (text_le x y)) [
      | inl before ↦ rw before (before, h)
      | inr after ↦ elim (Bool-cases (text_le x z)) [
        | inl here ↦ rw (after, here) (text_le_total x y after, rw here at later)
        | inr further ↦ rw (after, further) (h.0, rw further at later)
      ]
    ]

sort-IsOrdered : (xs : List Text) → IsOrdered (sort xs)
unfolding sort
sort-IsOrdered [] = tt
sort-IsOrdered (x ∷ xs) = insert_sorted-IsOrdered x (sort xs) (sort-IsOrdered xs)

dedup_from-IsIncreasing :
    (x : Text) (xs : List Text) → IsOrdered (x ∷ xs) → IsIncreasing (x ∷ dedup_from x xs)
unfolding dedup_from
dedup_from-IsIncreasing x [] h = tt
dedup_from-IsIncreasing x (y ∷ ys) h = elim (Bool-cases (y == x)) [
  | inl same ↦
      let e = (eq_iff y x).0 same in
      rw same (dedup_from-IsIncreasing x ys (subst (λ first. IsOrdered (first ∷ ys)) e h.1))
  | inr other ↦ rw other (h.0, eq_comm x y ∙ other, dedup_from-IsIncreasing y ys h.1)
]

pub dedup-sort-IsIncreasing : (xs : List Text) → IsIncreasing (dedup (sort xs))
unfolding dedup
dedup-sort-IsIncreasing xs = from_ordered (sort xs) (sort-IsOrdered xs)
  where
    from_ordered : (ys : List Text) → IsOrdered ys → IsIncreasing (dedup ys)
    from_ordered [] h = tt
    from_ordered (y ∷ ys) h = dedup_from-IsIncreasing y ys h

module _ (P : Text → Type 0) where
  insert_sorted-All : (x : Text) (xs : List Text) → P x → All P xs → All P (insert_sorted x xs)
  unfolding insert_sorted
  insert_sorted-All x [] p ps = (p, tt)
  insert_sorted-All x (y ∷ ys) p ps = elim (Bool-cases (text_le x y)) [
    | inl before ↦ rw before (p, ps)
    | inr after ↦ rw after (ps.0, insert_sorted-All x ys p ps.1)
  ]

  sort-All : (xs : List Text) → All P xs → All P (sort xs)
  unfolding sort
  sort-All [] ps = tt
  sort-All (x ∷ xs) ps = insert_sorted-All x (sort xs) ps.0 (sort-All xs ps.1)

  dedup_from-All : (x : Text) (xs : List Text) → All P xs → All P (dedup_from x xs)
  unfolding dedup_from
  dedup_from-All x [] ps = tt
  dedup_from-All x (y ∷ ys) ps = elim (Bool-cases (y == x)) [
    | inl same ↦ rw same (dedup_from-All x ys ps.1)
    | inr other ↦ rw other (ps.0, dedup_from-All y ys ps.1)
  ]

  dedup-All : (xs : List Text) → All P xs → All P (dedup xs)
  unfolding dedup
  dedup-All [] ps = tt
  dedup-All (x ∷ xs) ps = (ps.0, dedup_from-All x xs ps.1)

  pub dedup-sort-All : (xs : List Text) → All P xs → All P (dedup (sort xs))
  dedup-sort-All xs ps = dedup-All (sort xs) (sort-All xs ps)

insert_sorted-length : (x : Text) (xs : List Text) → length (insert_sorted x xs) ≡ length (x ∷ xs)
unfolding insert_sorted
insert_sorted-length x [] = refl
insert_sorted-length x (y ∷ ys) = ground (arith, insert_sorted-length x ys)

sort-length : (xs : List Text) → length (sort xs) ≡ length xs
unfolding sort
sort-length [] = refl
sort-length (x ∷ xs) = omega (arith, insert_sorted-length x (sort xs), sort-length xs)

dedup_from-length : (x : Text) (xs : List Text) → length (dedup_from x xs) ≤ length xs
unfolding dedup_from
dedup_from-length x [] = omega arith
dedup_from-length x (y ∷ ys) = ground (arith, dedup_from-length x ys, dedup_from-length y ys)

dedup-length : (xs : List Text) → length (dedup xs) ≤ length xs
unfolding dedup
dedup-length [] = omega arith
dedup-length (x ∷ xs) = omega (arith, dedup_from-length x xs)

pub dedup-sort-length : (xs : List Text) → length (dedup (sort xs)) ≤ length xs
dedup-sort-length xs = omega (arith, sort-length xs, dedup-length (sort xs))

-- Neither changes a list that is in strictly increasing order.
sort_of_IsIncreasing : (xs : List Text) → IsIncreasing xs → sort xs ≡ xs
unfolding sort insert_sorted
sort_of_IsIncreasing [] h = refl
sort_of_IsIncreasing (x ∷ []) h = refl
sort_of_IsIncreasing (x ∷ y ∷ ys) h =
    ap (insert_sorted x) (sort_of_IsIncreasing (y ∷ ys) h.2) ∙ rw (h.0, insert_sorted) refl

dedup_from_of_IsIncreasing :
    (x : Text) (xs : List Text) → IsIncreasing (x ∷ xs) → dedup_from x xs ≡ xs
unfolding dedup_from
dedup_from_of_IsIncreasing x [] h = refl
dedup_from_of_IsIncreasing x (y ∷ ys) h =
    rw (eq_comm y x ∙ h.1) (ap (λ rest. y ∷ rest) (dedup_from_of_IsIncreasing y ys h.2))

dedup_of_IsIncreasing : (xs : List Text) → IsIncreasing xs → dedup xs ≡ xs
unfolding dedup
dedup_of_IsIncreasing [] h = refl
dedup_of_IsIncreasing (x ∷ xs) h = ap (λ rest. x ∷ rest) (dedup_from_of_IsIncreasing x xs h)

pub dedup-sort_of_IsIncreasing : (xs : List Text) → IsIncreasing xs → dedup (sort xs) ≡ xs
dedup-sort_of_IsIncreasing xs h = ap dedup (sort_of_IsIncreasing xs h) ∙ dedup_of_IsIncreasing xs h

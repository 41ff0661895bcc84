-- ===== src/Base/Splitting.antt =====
-- `split`, `splitn`, `split_once` and `join` on one separator, and how they undo one another.
use Prim.Native.Nat.{ℕ, zero, suc}
use mathlib.Core.Path.{◌≡◌, refl, ap, sym, ◌∙◌}
use mathlib.Core.Logic.{inl, inr}
use mathlib.Core.Bool.{false}
use mathlib.Core.Option
use mathlib.Core.Option.{Option, none, some}
use mathlib.Core.List.{List, [], ◌∷◌, ◌++◌}
use native.Mathlib.Omega.{arith}
use authguard.Base.Tests.{eqb, eqb_iff, eqb_refl, if◌then◌else◌, Bool-cases, Option-cases}
use authguard.Base.Lists.{All, is_empty}
use authguard.Base.Chars.{Text, contains_char}

-- Adds a character to the first piece.
unfoldable pub push_front : ℕ → List Text → List Text
push_front c [] = (c ∷ []) ∷ []
push_front c (p ∷ ps) = (c ∷ p) ∷ ps

unfoldable pub split : ℕ → Text → List Text
unfolding push_front
split c [] = [] ∷ []
split c (x ∷ s) = let rest = split c s in if eqb x c then [] ∷ rest else push_front x rest

unfoldable pub join : ℕ → List Text → Text
join c [] = []
join c (p ∷ []) = p
join c (p ∷ q ∷ ps) = p ++ (c ∷ join c (q ∷ ps))

unfoldable pub split_once : ℕ → Text → Option (Text × Text)
split_once c [] = none
split_once c (x ∷ s) =
    let rest = split_once c s in
    if eqb x c then some ([], s) else Option.map (λ r. (x ∷ r.0, r.1)) rest

-- At most so many pieces; the last one holds the rest, separators included.
unfoldable pub splitn : ℕ → ℕ → Text → List Text
unfolding split_once
splitn zero c s = []
splitn (suc zero) c s = s ∷ []
splitn (suc (suc n)) c s = elim (split_once c s) [
  | none ↦ s ∷ []
  | some (a, b) ↦ a ∷ splitn (suc n) c b
]

-- A text without the character.
abbrev pub Lacks : ℕ → Text → Type 0
Lacks c s = contains_char c s ≡ false

module _ (c : ℕ) where
  pub Lacks-append : (s t : Text) → Lacks c s → Lacks c t → Lacks c (s ++ t)
  Lacks-append [] t h k = k
  Lacks-append (x ∷ s) t h k = ground (arith, Lacks-append s t)

  pub split_cons : (s : Text) → (p : Text) × (ps : List Text) × (split c s ≡ p ∷ ps)
  unfolding split
  split_cons [] = ([], [], refl)
  split_cons (x ∷ s) =
      let (p, ps, e) = split_cons s in
      elim (Bool-cases (eqb x c)) [
        | inl same ↦ ([], split c s, rw same)
        | inr other ↦ (x ∷ p, ps, rw (other, e))
      ]

  join-push_front : (x : ℕ) (ps : List Text) → join c (push_front x ps) ≡ x ∷ join c ps
  unfolding join push_front
  join-push_front x [] = refl
  join-push_front x (p ∷ []) = refl
  join-push_front x (p ∷ q ∷ ps) = refl

  join-nil_front : (p : Text) (ps : List Text) → join c ([] ∷ p ∷ ps) ≡ c ∷ join c (p ∷ ps)
  unfolding join
  join-nil_front p ps = refl

  join-after_separator :
      (x : ℕ) (s : Text) → x ≡ c → join c (split c s) ≡ s → join c ([] ∷ split c s) ≡ x ∷ s
  join-after_separator x s same ih =
      let (p, ps, e) = split_cons s in
      rw e (join-nil_front p ps ∙ ap (◌∷◌ c) (rw e at ih) ∙ ap (λ y. y ∷ s) (sym same))

  -- Joining the pieces gives the text back.
  pub join-split : (s : Text) → join c (split c s) ≡ s
  unfolding split
  join-split [] = unfold join in refl
  join-split (x ∷ s) = elim (Bool-cases (eqb x c)) [
    | inl same ↦ rw same (join-after_separator x s ((eqb_iff x c).0 same) (join-split s))
    | inr other ↦ rw other (join-push_front x (split c s) ∙ ap (◌∷◌ x) (join-split s))
  ]

  push_front-All :
      (x : ℕ) (ps : List Text)
      → eqb c x ≡ false
      → All (Lacks c) ps
      → All (Lacks c) (push_front x ps)
  unfolding push_front
  push_front-All x [] h k = ground arith
  push_front-All x (p ∷ ps) h (k, ks) = (rw h k, ks)

  -- No piece holds the separator.
  pub split-All_Lacks : (s : Text) → All (Lacks c) (split c s)
  unfolding split
  split-All_Lacks [] = (refl, tt)
  split-All_Lacks (x ∷ s) = elim (Bool-cases (eqb x c)) [
    | inl same ↦ rw same (refl, split-All_Lacks s)
    | inr other ↦ rw other (push_front-All x (split c s) (ground arith) (split-All_Lacks s))
  ]

  pub split_of_Lacks : (p : Text) → Lacks c p → split c p ≡ p ∷ []
  unfolding split
  split_of_Lacks [] h = refl
  split_of_Lacks (x ∷ p) h =
      ground (arith, split_of_Lacks p, ap (push_front x) (split_of_Lacks p (ground arith)))

  pub split-append : (p s : Text) → Lacks c p → split c (p ++ (c ∷ s)) ≡ p ∷ split c s
  unfolding split
  split-append [] s h = rw (eqb_refl c)
  split-append (x ∷ p) s h =
      let other : eqb x c ≡ false = ground arith in rw (other, split-append p s (ground arith))

  -- Splitting a join of pieces without the separator gives the pieces back.
  pub split-join :
      (p : Text) (ps : List Text)
      → Lacks c p
      → All (Lacks c) ps
      → split c (join c (p ∷ ps)) ≡ p ∷ ps
  unfolding join
  split-join p [] h k = split_of_Lacks p h
  split-join p (q ∷ ps) h (k, ks) =
      split-append p (join c (q ∷ ps)) h ∙ ap (◌∷◌ p) (split-join q ps k ks)

  pub split_once-append : (p s : Text) → Lacks c p → split_once c (p ++ (c ∷ s)) ≡ some (p, s)
  unfolding split_once
  split_once-append [] s h = rw (eqb_refl c)
  split_once-append (x ∷ p) s h =
      let other : eqb x c ≡ false = ground arith in rw (other, split_once-append p s (ground arith))

  pub split_once_of_Lacks : (p : Text) → Lacks c p → split_once c p ≡ none
  unfolding split_once
  split_once_of_Lacks [] h = refl
  split_once_of_Lacks (x ∷ p) h =
      let other : eqb x c ≡ false = ground arith in rw (other, split_once_of_Lacks p (ground arith))

  -- What a split at the first separator says of the text.
  pub split_once-eq-some :
      (s a b : Text) → split_once c s ≡ some (a, b) → (s ≡ a ++ (c ∷ b)) × Lacks c a
  unfolding split_once
  split_once-eq-some [] a b h = cc
  split_once-eq-some (x ∷ s) a b h = elim (Bool-cases (eqb x c)) [
    | inl same ↦ at_head a b ((eqb_iff x c).0 same) (rw same at h)
    | inr other ↦ elim (Option-cases (split_once c s)) [
      | inl missing ↦ cc (rw (other, missing) at h)
      | inr (r, found) ↦
          let (e, k) = split_once-eq-some s r.0 r.1 found in
          later a b r.0 r.1 other e k (rw (other, found) at h)
    ]
  ]
    where
      at_head :
          (a b : Text)
          → x ≡ c
          → ◌≡◌ {A = Option (Text × Text)} (some ([], s)) (some (a, b))
          → (x ∷ s ≡ a ++ (c ∷ b)) × Lacks c a
      at_head [] b e h = (cc, refl)
      at_head (y ∷ a) b e h = cc

      later :
          (a b p q : Text)
          → eqb x c ≡ false
          → s ≡ p ++ (c ∷ q)
          → Lacks c p
          → ◌≡◌ {A = Option (Text × Text)} (some (x ∷ p, q)) (some (a, b))
          → (x ∷ s ≡ a ++ (c ∷ b)) × Lacks c a
      later a b p q other e k h =
          let ea : x ∷ p ≡ a = cc in
          let eb : q ≡ b = cc in rw (← ea, ← eb) (ap (◌∷◌ x) e, ground arith)

  pub splitn-append :
      (n : ℕ) (p s : Text)
      → Lacks c p
      → splitn (suc (suc n)) c (p ++ (c ∷ s)) ≡ p ∷ splitn (suc n) c s
  unfolding splitn
  splitn-append n p s h = rw (split_once-append p s h, splitn)

  -- The first of two or more pieces stands before a separator, and holds none.
  pub splitn-eq-cons :
      (n : ℕ) (s a b : Text) (rest : List Text)
      → splitn (suc (suc n)) c s ≡ a ∷ b ∷ rest
      → (t : Text) × (s ≡ a ++ (c ∷ t)) × Lacks c a × (splitn (suc n) c t ≡ b ∷ rest)
  unfolding splitn
  splitn-eq-cons n s a b rest h = elim (Option-cases (split_once c s)) [
    | inl missing ↦ cc (rw (missing, splitn) at h)
    | inr ((p, q), found) ↦
        let (e, k) = split_once-eq-some s p q found in
        let h' : p ∷ splitn (suc n) c q ≡ a ∷ b ∷ rest = rw (found, splitn) at h in
        let ep : p ≡ a = cc in (q, rw (← ep) e, rw (← ep) k, cc)
  ]

  pub join-filled :
      (p : Text) (ps : List Text) → is_empty p ≡ false → is_empty (join c (p ∷ ps)) ≡ false
  unfolding join
  join-filled [] ps h = cc
  join-filled (x ∷ p) [] h = refl
  join-filled (x ∷ p) (q ∷ ps) h = refl

module _ (c d : ℕ) where
  pub Lacks-join : (ps : List Text) → eqb d c ≡ false → All (Lacks d) ps → Lacks d (join c ps)
  unfolding join
  Lacks-join [] ne h = refl
  Lacks-join (p ∷ []) ne (h, _) = h
  Lacks-join (p ∷ q ∷ ps) ne (h, k) = Lacks-append d p _ h (rw ne (Lacks-join (q ∷ ps) ne k))

  Lacks_of_append : (s t : Text) → Lacks d (s ++ t) → Lacks d s × Lacks d t
  Lacks_of_append [] t h = (refl, h)
  Lacks_of_append (x ∷ s) t h = ground (arith, Lacks_of_append s t)

  pub All-Lacks_of_join : (ps : List Text) → Lacks d (join c ps) → All (Lacks d) ps
  unfolding join
  All-Lacks_of_join [] h = tt
  All-Lacks_of_join (p ∷ []) h = (h, tt)
  All-Lacks_of_join (p ∷ q ∷ ps) h =
      let (k, r) = Lacks_of_append p (c ∷ join c (q ∷ ps)) h in
      (k, All-Lacks_of_join (q ∷ ps) (ground arith))

-- ===== src/Urn/Pieces.antt =====
-- What `split_urn` of src/common/src/utils/policy_urn.rs accepts.
use authguard.Base.{
  ℕ, suc, ◌≡◌, sym, refl, false, List, [], ◌∷◌, ◌++◌, Text, codes, ◌==◌, eq_iff, Lacks, splitn,
  splitn-append, splitn-eq-cons, ok, arith, is_empty, any as list_any, All, join, split, join-split,
  split_cons, split-All_Lacks, split-join, join-filled,
}
use authguard.Urn.{UrnParts, check_parts, split_urn, split_path}
use authguard.Urn.Exact.{write_urn}

abbrev pub write_parts : UrnParts → Text
write_parts u = write_urn u.partition u.service u.region u.tenant u.path

-- No part holds a colon.
pub record IsClean (u : UrnParts) : Type 0 where
  pub partition : Lacks b':' u.partition
  pub service : Lacks b':' u.service
  pub region : Lacks b':' u.region
  pub tenant : Lacks b':' u.tenant
  pub path : Lacks b':' u.path

pub split_urn-write : (u : UrnParts) → IsClean u → split_urn (write_parts u) ≡ ok u
unfolding split_urn write_urn ◌==◌
split_urn-write u h =
    rw
      (
        splitn-append b':' 5 (codes "urn") _ refl,
        splitn-append b':' 4 (codes "iam") _ refl,
        splitn-append b':' 3 u.partition _ h.partition,
        splitn-append b':' 2 u.service _ h.service,
        splitn-append b':' 1 u.region _ h.region,
        splitn-append b':' 0 u.tenant u.path h.tenant,
      )
      (unfold splitn in rw (h.path) refl)

abbrev pieces : UrnParts → List Text
pieces u = codes "urn" ∷ codes "iam" ∷ u.partition ∷ u.service ∷ u.region ∷ u.tenant ∷ u.path ∷ []

check_parts-eq-ok :
    (ps : List Text) (u : UrnParts) → check_parts ps ≡ ok u → (ps ≡ pieces u) × Lacks b':' u.path
unfolding check_parts
check_parts-eq-ok (a ∷ b ∷ p ∷ s ∷ r ∷ t ∷ path ∷ []) u h =
    ground (arith, eq_iff a (codes "urn"), eq_iff b (codes "iam"))
check_parts-eq-ok _ u h = cc

splitn_one : (s : Text) → splitn 1 b':' s ≡ s ∷ []
unfolding splitn
splitn_one s = refl

abbrev cut :
    (n : ℕ) (s a b : Text) (rest : List Text)
    → splitn (suc (suc n)) b':' s ≡ a ∷ b ∷ rest
    → (t : Text) × (s ≡ a ++ (b':' ∷ t)) × Lacks b':' a × (splitn (suc n) b':' t ≡ b ∷ rest)
cut = splitn-eq-cons b':'

-- An accepted text is the print of its parts, which hold no colon.
pub split_urn-eq-ok :
    (s : Text) (u : UrnParts) → split_urn s ≡ ok u → (s ≡ write_parts u) × IsClean u
unfolding split_urn write_urn
split_urn-eq-ok s u h =
    let (e, last) = check_parts-eq-ok (splitn 7 b':' s) u h in
    let (s₁, e₁, k₁, r₁) = cut 5 s (codes "urn") (codes "iam") _ e in
    let (s₂, e₂, k₂, r₂) = cut 4 s₁ (codes "iam") u.partition _ r₁ in
    let (s₃, e₃, k₃, r₃) = cut 3 s₂ u.partition u.service _ r₂ in
    let (s₄, e₄, k₄, r₄) = cut 2 s₃ u.service u.region _ r₃ in
    let (s₅, e₅, k₅, r₅) = cut 1 s₄ u.region u.tenant _ r₄ in
    let (s₆, e₆, k₆, r₆) = cut 0 s₅ u.tenant u.path _ r₅ in
    let e₇ : s₆ ≡ u.path = cc (splitn_one s₆) in
    (
      rw (e₁, e₂, e₃, e₄, e₅, e₆, e₇) refl,
      record { partition = k₃; service = k₄; region = k₅; tenant = k₆; path = last },
    )

-- A path segment as `split_path` returns them.
abbrev pub IsPiece : Text → Type 0
IsPiece s = (is_empty s ≡ false) × Lacks b'/' s

All-IsPiece : (ps : List Text) → list_any is_empty ps ≡ false → All (Lacks b'/') ps → All IsPiece ps
All-IsPiece [] h k = tt
All-IsPiece (p ∷ ps) h (k, ks) = ((ground arith, k), All-IsPiece ps (ground arith) ks)

All-Lacks_of_IsPiece : (ps : List Text) → All IsPiece ps → All (Lacks b'/') ps
All-Lacks_of_IsPiece [] h = tt
All-Lacks_of_IsPiece (p ∷ ps) ((_, k), h) = (k, All-Lacks_of_IsPiece ps h)

any_empty_of_IsPiece : (ps : List Text) → All IsPiece ps → list_any is_empty ps ≡ false
any_empty_of_IsPiece [] h = refl
any_empty_of_IsPiece (p ∷ ps) ((e, _), h) = rw e (any_empty_of_IsPiece ps h)

pub split_path-eq-ok :
    (s : Text) (ps : List Text)
    → split_path s ≡ ok ps
    → (s ≡ join b'/' ps) × (is_empty ps ≡ false) × All IsPiece ps
unfolding split_path
split_path-eq-ok s ps h =
    let e : split b'/' s ≡ ps = ground arith in
    let none_empty : list_any is_empty ps ≡ false = ground arith in
    let (p, rest, cons) = split_cons b'/' s in
    (
      rw (← e) (sym (join-split b'/' s)),
      rw (← e, cons) refl,
      All-IsPiece ps none_empty (rw e at (split-All_Lacks b'/' s)),
    )

pub split_path-join :
    (ps : List Text) → is_empty ps ≡ false → All IsPiece ps → split_path (join b'/' ps) ≡ ok ps
unfolding split_path
split_path-join [] h k = cc
split_path-join (p ∷ ps) h k =
    let e = split-join b'/' p ps (k.0).1 (All-Lacks_of_IsPiece ps k.1) in
    let filled : is_empty (join b'/' (p ∷ ps)) ≡ false = join-filled b'/' p ps (k.0).0 in
    rw (filled, e, any_empty_of_IsPiece (p ∷ ps) k)

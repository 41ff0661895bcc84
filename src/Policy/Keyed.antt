-- ===== src/Policy/Keyed.antt =====
-- What the helpers of `PolicyHandler` (src/authz/src/handler/policy/policy.rs) do to a list that is
-- read by key.
use authguard.Base.{
  some_inj, ◌≡◌, refl, subst, inl, inr, false, not, none, some, List, [], ◌∷◌, ◌++◌, map, Text,
  ◌==◌, eq_iff, contains, arith, retain, ok, if◌then◌else◌, Bool-cases, Option-cases,
}
use authguard.Policy.Mutation.{find_by, set_first, remove_by_id, ensure_absent, ensure_matching_id}

module _ {A : Type 0} (key : A → Text) where
  pub find_by-push :
      (k : Text) (new : A) (items : List A)
      → contains (key new) (map key items) ≡ false
      → find_by key k (items ++ (new ∷ []))
        ≡ (if key new == k then some new else find_by key k items)
  find_by-push k new [] absent = refl
  find_by-push k new (item ∷ items) absent = ground (
    arith,
    find_by-push k new items (ground arith),
    eq_iff (key new) k,
    eq_iff (key item) k,
    eq_iff (key item) (key new),
    eq_iff (key new) (key item),
  )

  pub find_by-set_first :
      (id k : Text) (new : A) (items out : List A)
      → key new ≡ id
      → set_first key id new items ≡ some out
      → find_by key k out ≡ (if id == k then some new else find_by key k items)
  unfolding set_first
  find_by-set_first id k new [] out same h = cc
  find_by-set_first id k new (item ∷ items) out same h = elim (Bool-cases (key item == id)) [
    | inl found ↦
        subst
          (λ list.
            find_by key k list ≡ (if id == k then some new else find_by key k (item ∷ items)))
          (some_inj (rw found at h))
          (ground (
            arith,
            eq_iff id k,
            eq_iff (key item) id,
            eq_iff (key new) id,
            eq_iff (key item) k,
            eq_iff (key new) k,
          ))
    | inr other ↦ elim (Option-cases (set_first key id new items)) [
      | inl nothing ↦ cc (rw (nothing, set_first) at (rw (other, set_first) at h))
      | inr (rest, e) ↦
          subst
            (λ list.
              find_by key k list ≡ (if id == k then some new else find_by key k (item ∷ items)))
            (some_inj (rw (other, e) at h))
            (ground (
              arith,
              find_by-set_first id k new items rest same e,
              eq_iff id k,
              eq_iff (key item) id,
              eq_iff (key item) k,
            ))
    ]
  ]

  find_by-retain :
      (id k : Text) (items : List A)
      → find_by key k (retain (λ item. not (key item == id)) items)
        ≡ (if id == k then none else find_by key k items)
  find_by-retain id k [] = ground arith
  find_by-retain id k (item ∷ items) =
      ground
        (arith, find_by-retain id k items, eq_iff id k, eq_iff (key item) k, eq_iff (key item) id)

  pub find_by-remove_by_id :
      (resource id k : Text) (items out : List A)
      → remove_by_id key resource items id ≡ ok out
      → find_by key k out ≡ (if id == k then none else find_by key k items)
  unfolding remove_by_id
  find_by-remove_by_id resource id k items out h =
      subst (λ list. find_by key k list ≡ (if id == k then none else find_by key k items))
        (ground arith) (find_by-retain id k items)

pub ensure_absent-eq-ok :
    (ids : List Text) (resource id : Text)
    → ensure_absent ids resource id ≡ ok tt
    → contains id ids ≡ false
unfolding ensure_absent
ensure_absent-eq-ok ids resource id h = ground arith

pub ensure_matching_id-eq-ok :
    (resource path_id body_id : Text)
    → ensure_matching_id resource path_id body_id ≡ ok tt
    → body_id ≡ path_id
unfolding ensure_matching_id
ensure_matching_id-eq-ok resource path_id body_id h = ground (arith, eq_iff path_id body_id)

-- ===== src/Sql/Remainder.antt =====
-- The clause for a remainder column (`compile_remainder` of src/common/src/utils/sql.rs).
use authguard.Base.{
  Bool, true, ◌||◌, ◌≡◌, refl, sym, ap, subst, ◌∙◌, inl, inr, arith, List, [], ◌∷◌, ◌++◌, map, Text,
  ◌==◌, eq_iff, append-nil, append_assoc, or_cases, join, split, join-split, split-append,
  split-join, Lacks, All, ok, try_map, bind-eq-ok, ok_inj, Bool-ext,
}
use authguard.Urn.{PathPattern}
use authguard.Urn.Pattern.{path_matches}
use authguard.Urn.Covers.{NoGlob, path_matches-exact_iff, path_matches-glob_iff}
use authguard.Sql.Compile.{below, ends_with_glob, without_last, exact_value}
use authguard.Sql.Meaning.{IsLike}

pub exact_values :
    (remaining qs : List PathPattern) (values : List Text)
    → try_map (exact_value remaining) qs ≡ ok values
    → qs ≡ map PathPattern.exact values
unfolding try_map
exact_values remaining [] values h = subst (λ vs. [] ≡ map PathPattern.exact vs) (ok_inj h) refl
exact_values remaining (PathPattern.exact v ∷ qs) values h =
    let (vs, e, h₁) = bind-eq-ok (try_map (exact_value remaining) qs) _ h in
    subst (λ ws. PathPattern.exact v ∷ qs ≡ map PathPattern.exact ws) (ok_inj h₁)
      (ap (◌∷◌ (PathPattern.exact v)) (exact_values remaining qs vs e))
exact_values remaining (PathPattern.any ∷ qs) values h = cc
exact_values remaining (PathPattern.glob_star ∷ qs) values h = cc

pub without_last-append :
    (qs : List PathPattern)
    → ends_with_glob qs ≡ true
    → qs ≡ without_last qs ++ (PathPattern.glob_star ∷ [])
unfolding ends_with_glob without_last
without_last-append [] h = cc
without_last-append (PathPattern.exact v ∷ []) h = cc
without_last-append (PathPattern.any ∷ []) h = cc
without_last-append (PathPattern.glob_star ∷ []) h = refl
without_last-append (PathPattern.exact v ∷ q ∷ qs) h =
    ap (◌∷◌ (PathPattern.exact v)) (without_last-append (q ∷ qs) h)
without_last-append (PathPattern.any ∷ q ∷ qs) h =
    ap (◌∷◌ PathPattern.any) (without_last-append (q ∷ qs) h)
without_last-append (PathPattern.glob_star ∷ q ∷ qs) h =
    ap (◌∷◌ PathPattern.glob_star) (without_last-append (q ∷ qs) h)

exact-NoGlob : (values : List Text) → All NoGlob (map PathPattern.exact values)
exact-NoGlob [] = tt
exact-NoGlob (v ∷ values) = (tt, exact-NoGlob values)

-- Cutting a text that goes on after a slash.
split-join_append :
    (v : Text) (vs : List Text) (rest : Text)
    → Lacks b'/' v
    → All (Lacks b'/') vs
    → split b'/' (join b'/' (v ∷ vs) ++ (b'/' ∷ rest)) ≡ (v ∷ vs) ++ split b'/' rest
unfolding join
split-join_append v [] rest h hs = split-append b'/' v rest h
split-join_append v (w ∷ vs) rest h (k, ks) =
    ap (split b'/') (append_assoc v (b'/' ∷ join b'/' (w ∷ vs)) (b'/' ∷ rest))
    ∙ split-append b'/' v (join b'/' (w ∷ vs) ++ (b'/' ∷ rest)) h
    ∙ ap (◌∷◌ v) (split-join_append w vs rest k ks)

join-append :
    (v : Text) (vs : List Text) (w : Text) (ws : List Text)
    → join b'/' ((v ∷ vs) ++ (w ∷ ws)) ≡ join b'/' (v ∷ vs) ++ (b'/' ∷ join b'/' (w ∷ ws))
unfolding join
join-append v [] w ws = refl
join-append v (u ∷ vs) w ws =
    ap (λ t. v ++ (b'/' ∷ t)) (join-append u vs w ws)
    ∙ sym (append_assoc v (b'/' ∷ join b'/' (u ∷ vs)) (b'/' ∷ join b'/' (w ∷ ws)))

module _ (value v : Text) (vs : List Text) (h : Lacks b'/' v) (hs : All (Lacks b'/') vs) where
  -- A value is the joined pieces exactly when it is cut into them.
  pub remainder_exact :
      (value == join b'/' (v ∷ vs))
      ≡ path_matches (map PathPattern.exact (v ∷ vs)) (split b'/' value)
  remainder_exact =
      let (to, from) = path_matches-exact_iff (v ∷ vs) (split b'/' value) in
      Bool-ext _ _
        (λ same. from (
          ap (split b'/') ((eq_iff value (join b'/' (v ∷ vs))).0 same) ∙ split-join b'/' v vs h hs))
        (λ m.
          (eq_iff value (join b'/' (v ∷ vs))).1
            (sym (join-split b'/' value) ∙ ap (join b'/') (to m)))

  module _ (like : Text → Text → Bool) (law : IsLike like)
      (no_percent : Lacks b'%' (join b'/' (v ∷ vs)))
      (no_underscore : Lacks b'_' (join b'/' (v ∷ vs)))
      (no_escape : Lacks 92 (join b'/' (v ∷ vs))) where
    below-after :
        (post : List Text)
        → split b'/' value ≡ (v ∷ vs) ++ post
        → (value == join b'/' (v ∷ vs) || like value (below (join b'/' (v ∷ vs)))) ≡ true
    below-after [] e =
        let same =
          (eq_iff value (join b'/' (v ∷ vs))).1
            (sym (join-split b'/' value) ∙ ap (join b'/') (e ∙ append-nil (v ∷ vs))) in
        rw same refl
    below-after (w ∷ ws) e =
        let found =
          (law.below_iff value (join b'/' (v ∷ vs)) no_percent no_underscore no_escape).1 (
            join b'/' (w ∷ ws),
            sym (join-split b'/' value) ∙ ap (join b'/') e ∙ join-append v vs w ws,
          ) in
        ground (arith, found)

    -- A value is the prefix or goes on below it exactly when its pieces begin with the prefix's.
    pub remainder_below :
        (value == join b'/' (v ∷ vs) || like value (below (join b'/' (v ∷ vs))))
        ≡ path_matches
            (map PathPattern.exact (v ∷ vs) ++ (PathPattern.glob_star ∷ []))
            (split b'/' value)
    remainder_below =
        let (to, from) =
          path_matches-glob_iff (map PathPattern.exact (v ∷ vs)) (split b'/' value)
            (exact-NoGlob (v ∷ vs)) in
        let begins = (path_matches-exact_iff (v ∷ vs) (v ∷ vs)).1 refl in
        Bool-ext _ _
          (λ found. elim (or_cases (value == join b'/' (v ∷ vs)) _ found) [
            | inl same ↦ from (
              v ∷ vs,
              [],
              ap (split b'/') ((eq_iff value (join b'/' (v ∷ vs))).0 same)
                  ∙ split-join b'/' v vs h hs
                  ∙ sym (append-nil (v ∷ vs)),
              begins,
            )
            | inr liked ↦
                let (rest, e) =
                  (law.below_iff value (join b'/' (v ∷ vs)) no_percent no_underscore no_escape).0
                    liked in
                from (
                  v ∷ vs,
                  split b'/' rest,
                  ap (split b'/') e ∙ split-join_append v vs rest h hs,
                  begins,
                )
          ])
          (λ m.
            let (pre, post, e, k) = to m in
            below-after post (e ∙ ap (λ p. p ++ post) ((path_matches-exact_iff (v ∷ vs) pre).0 k)))

-- ===== src/Sql/RemainderLaws.antt =====
-- What `compile_remainder` of src/common/src/utils/sql.rs says of the value of its column.
use authguard.Base.{
  Bool, true, false, ◌&&◌, ◌≡◌, refl, sym, ap, subst, ◌∙◌, inl, inr, arith, List, [], ◌∷◌, ◌++◌,
  map, Text, any, is_empty, append-nil, join, join-filled, split, Lacks, Lacks-join, All, Result,
  ok, try_map, bind-eq-ok, ok_inj, Bool-cases, if◌then◌else◌,
}
use authguard.Urn.{PathPattern}
use authguard.Urn.Pattern.{path_matches}
use authguard.Urn.PatternTrip.{IsPathSegment}
use authguard.Sql.Compile.{
  SqlCompileError, Clause, equals, within, is_any, is_glob, ends_with_glob, without_last,
  exact_value, compile_remainder,
}
use authguard.Sql.Meaning.{IsLike, all_hold}
use authguard.Sql.Remainder.{exact_values, without_last-append, remainder_exact, remainder_below}

-- No sign of the value means something to `LIKE`.
abbrev pub IsLiteral : PathPattern → Type 0
IsLiteral (PathPattern.exact value) = Lacks b'%' value × Lacks b'_' value × Lacks 92 value
IsLiteral _ = Unit

pieces_of :
    (values : List Text) (more : List PathPattern)
    → All IsPathSegment (map PathPattern.exact values ++ more)
    → All (Lacks b'/') values
pieces_of [] more h = tt
pieces_of (v ∷ values) more (h, hs) = (h.0.1, pieces_of values more hs)

literals_of :
    (values : List Text) (more : List PathPattern)
    → All IsLiteral (map PathPattern.exact values ++ more)
    → All (Lacks b'%') values × All (Lacks b'_') values × All (Lacks 92) values
literals_of [] more h = (tt, tt, tt)
literals_of (v ∷ values) more (h, hs) =
    let (ps, us, es) = literals_of values more hs in ((h.0, ps), (h.1, us), (h.2, es))

is_glob-eq-true : (qs : List PathPattern) → is_glob qs ≡ true → qs ≡ PathPattern.glob_star ∷ []
is_glob-eq-true [] h = cc
is_glob-eq-true (PathPattern.exact v ∷ qs) h = cc
is_glob-eq-true (PathPattern.any ∷ qs) h = cc
is_glob-eq-true (PathPattern.glob_star ∷ []) h = refl
is_glob-eq-true (PathPattern.glob_star ∷ q ∷ qs) h = cc

and_true : (b : Bool) → (b && true) ≡ b
and_true b = ground arith

module _ (like : Text → Text → Bool) (row : Text → Text) (law : IsLike like) where
  exact_clause :
      (name : Text) (values : List Text) (qs : List PathPattern)
      → is_empty qs ≡ false
      → qs ≡ map PathPattern.exact values
      → All IsPathSegment qs
      → all_hold like row (equals name (join b'/' values) ∷ [])
        ≡ path_matches qs (split b'/' (row name))
  exact_clause name [] qs filled e h = let c = sym filled ∙ ap is_empty e in cc
  exact_clause name (v ∷ vs) qs filled e h =
      let (k, ks) = pieces_of (v ∷ vs) [] (subst (All IsPathSegment) (e ∙ sym (append-nil _)) h) in
      rw e (and_true _ ∙ remainder_exact (row name) v vs k ks)

  below_clause :
      (name : Text) (values : List Text) (qs : List PathPattern) (cs : List Clause)
      → is_glob qs ≡ false
      → qs ≡ map PathPattern.exact values ++ (PathPattern.glob_star ∷ [])
      → All IsPathSegment qs
      → All IsLiteral qs
      → ◌≡◌ {A = Result SqlCompileError (List Clause)}
          (if is_empty (join b'/' values) then ok [] else ok (within name (join b'/' values) ∷ []))
          (ok cs)
      → all_hold like row cs ≡ path_matches qs (split b'/' (row name))
  below_clause name [] qs cs alone e h l made = let c = sym alone ∙ ap is_glob e in cc
  below_clause name (v ∷ vs) qs cs alone e h l made =
      let pieces = subst (All IsPathSegment) e h in
      let (k, ks) = pieces_of (v ∷ vs) (PathPattern.glob_star ∷ []) pieces in
      let (ps, us, es) =
        literals_of (v ∷ vs) (PathPattern.glob_star ∷ []) (subst (All IsLiteral) e l) in
      let filled = join-filled b'/' v vs pieces.0.0.0 in
      subst (λ clauses. all_hold like row clauses ≡ path_matches qs (split b'/' (row name)))
        (ok_inj (rw filled at made))
        (rw e (
          and_true _
          ∙ remainder_below (row name) v vs k ks like law (Lacks-join b'/' b'%' (v ∷ vs) refl ps)
              (Lacks-join b'/' b'_' (v ∷ vs) refl us) (Lacks-join b'/' 92 (v ∷ vs) refl es)))

  pub compile_remainder-holds :
      (name : Text) (qs : List PathPattern) (cs : List Clause)
      → is_empty qs ≡ false
      → All IsPathSegment qs
      → All IsLiteral qs
      → compile_remainder name qs ≡ ok cs
      → all_hold like row cs ≡ path_matches qs (split b'/' (row name))
  unfolding compile_remainder path_matches
  compile_remainder-holds name qs cs filled h l made = elim (Bool-cases (is_glob qs)) [
    | inl alone ↦
        let e = is_glob-eq-true qs alone in
        let none_made : [] ≡ cs = ok_inj (rw (filled, alone) at made) in
        subst (λ clauses. all_hold like row clauses ≡ path_matches qs (split b'/' (row name)))
          none_made (rw e refl)
    | inr more ↦ elim (Bool-cases (any is_any qs)) [
      | inl wild ↦ cc (rw (filled, more, compile_remainder, wild) at made)
      | inr plain ↦ elim (Bool-cases (ends_with_glob qs)) [
        | inl open_end ↦
            let made₁ = rw (filled, more, compile_remainder, plain, open_end) at made in
            let (values, e, made₂) =
              bind-eq-ok (try_map (exact_value qs) (without_last qs)) _ made₁ in
            below_clause name values qs cs more
              (without_last-append qs open_end
                ∙ ap (λ p. p ++ (PathPattern.glob_star ∷ []))
                    (exact_values qs (without_last qs) values e))
              h l made₂
        | inr closed ↦
            let made₁ = rw (filled, more, compile_remainder, plain, closed) at made in
            let (values, e, made₂) = bind-eq-ok (try_map (exact_value qs) qs) _ made₁ in
            subst (λ clauses. all_hold like row clauses ≡ path_matches qs (split b'/' (row name)))
              (ok_inj made₂) (exact_clause name values qs filled (exact_values qs qs values e) h)
      ]
    ]
  ]

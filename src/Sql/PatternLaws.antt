-- ===== src/Sql/PatternLaws.antt =====
-- One pattern as clauses (`compile_pattern` of src/common/src/utils/sql.rs), against what the pattern
-- matches.
use authguard.Base.{
  eq_comm, Bool, true, false, ◌&&◌, ◌≡◌, refl, sym, subst, ◌∙◌, inl, inr, arith, Option, none, some,
  List, [], ◌∷◌, ◌++◌, Text, ◌==◌, is_empty, split, All, Result, ok, err, ◌>>=◌, bind-eq-ok, ok_inj,
  Bool-cases,
}
use authguard.Urn.{SegmentPattern, PathPattern, UrnPattern}
use authguard.Urn.Pattern.{path_matches, segment_matches, matches}
use authguard.Urn.PatternTrip.{IsPathSegment, GlobIsLast, IsPattern}
use authguard.Sql.Compile.{
  SqlCompileError, SegmentMap, PathMap, ResourceSqlMapping, Clause, equals, compile_remainder,
  compile_segment, compile_path, with_clause, and_then, compile_clauses,
}
use authguard.Sql.Meaning.{IsLike, all_hold, holds, segment_of, path_of, urn_of}
use authguard.Sql.RemainderLaws.{IsLiteral, compile_remainder-holds}

-- The pattern does not end where the remainder column begins.
abbrev pub FillsRemainder : List PathMap → List PathPattern → Type 0
FillsRemainder (PathMap.remainder_column name ∷ mappings) qs = is_empty qs ≡ false
FillsRemainder (PathMap.literal value ∷ mappings) (PathPattern.glob_star ∷ qs) = Unit
FillsRemainder (PathMap.column name ∷ mappings) (PathPattern.glob_star ∷ qs) = Unit
FillsRemainder (PathMap.literal value ∷ mappings) (q ∷ qs) = FillsRemainder mappings qs
FillsRemainder (PathMap.column name ∷ mappings) (q ∷ qs) = FillsRemainder mappings qs
FillsRemainder _ _ = Unit

and_four : (b c d e : Bool) → (b && (c && (d && e))) ≡ (b && c && d && e)
and_four b c d e = ground arith

and_five : (a b c d e : Bool) → (a && (b && (c && (d && e)))) ≡ (a && b && c && d && e)
and_five true b c d e = and_four b c d e
and_five false b c d e = refl

module _ (like : Text → Text → Bool) (row : Text → Text) (law : IsLike like) where
  -- The clauses hold exactly when the test does; without clauses it does not.
  abbrev pub Says : Option (List Clause) → Bool → Type 0
  Says none test = test ≡ false
  Says (some clauses) test = all_hold like row clauses ≡ test

  compile_segment-Says :
      (mapping : SegmentMap) (pattern : SegmentPattern)
      → Says
          (compile_segment mapping pattern)
          (segment_matches pattern (segment_of like row mapping))
  unfolding compile_segment segment_matches
  compile_segment-Says mapping SegmentPattern.any = refl
  compile_segment-Says (SegmentMap.const expected) (SegmentPattern.exact value) =
      elim (Bool-cases (expected == value)) [
        | inl same ↦ rw (eq_comm value expected, same) refl
        | inr other ↦ rw (eq_comm value expected, other) refl
      ]
  compile_segment-Says (SegmentMap.column name) (SegmentPattern.exact value) =
      rw (eq_comm value (row name)) (ground arith)

  all_hold-append :
      (cs ds : List Clause)
      → all_hold like row (cs ++ ds) ≡ (all_hold like row cs && all_hold like row ds)
  all_hold-append [] ds = refl
  all_hold-append (c ∷ cs) ds = ground (arith, all_hold-append cs ds)

  both : {a b c d : Bool} → a ≡ b → c ≡ d → (a && c) ≡ (b && d)
  both p q = λ i. p i && q i

  Says-with_clause :
      (clause : Clause) (rest : Result SqlCompileError (Option (List Clause)))
      (made : Option (List Clause)) (b : Bool)
      → with_clause clause rest ≡ ok made
      → ((found : Option (List Clause)) → rest ≡ ok found → Says found b)
      → Says made (holds like row clause && b)
  Says-with_clause clause (ok (some cs)) made b h f =
      subst (λ m. Says m (holds like row clause && b)) (ok_inj h)
        (both {a = holds like row clause} refl (f (some cs) refl))
  Says-with_clause clause (ok none) made b h f =
      let no = f none refl in
      subst (λ m. Says m (holds like row clause && b)) (ok_inj h) (ground arith)
  Says-with_clause clause (err e) made b h f = cc

  remainder-Says :
      (name : Text) (qs : List PathPattern) (made : Option (List Clause))
      → is_empty qs ≡ false
      → All IsPathSegment qs
      → All IsLiteral qs
      → (compile_remainder name qs >>= λ clauses. ok (some clauses)) ≡ ok made
      → Says made (path_matches qs (split b'/' (row name)))
  remainder-Says name qs made f h l e =
      let (cs, e₁, e₂) = bind-eq-ok (compile_remainder name qs) _ e in
      subst (λ m. Says m (path_matches qs (split b'/' (row name)))) (ok_inj e₂)
        (compile_remainder-holds like row law name qs cs f h l e₁)

  -- A test that holds already is left out.
  Says-and_then :
      (first : Option (List Clause)) (rest : Result SqlCompileError (Option (List Clause)))
      (made : Option (List Clause)) (a b : Bool)
      → and_then first rest ≡ ok made
      → Says first a
      → ((found : Option (List Clause)) → rest ≡ ok found → Says found b)
      → Says made (a && b)
  Says-and_then none rest made a b h s f = subst (λ m. Says m (a && b)) (ok_inj h) (ground arith)
  Says-and_then (some cs) (ok (some ds)) made a b h s f =
      subst (λ m. Says m (a && b)) (ok_inj h) (all_hold-append cs ds ∙ both s (f (some ds) refl))
  Says-and_then (some cs) (ok none) made a b h s f =
      let no = f none refl in subst (λ m. Says m (a && b)) (ok_inj h) (ground arith)
  Says-and_then (some cs) (err e) made a b h s f = cc

  compile_path-Says :
      (mappings : List PathMap) (qs : List PathPattern) (made : Option (List Clause))
      → FillsRemainder mappings qs
      → All IsPathSegment qs
      → All IsLiteral qs
      → GlobIsLast qs
      → compile_path mappings qs ≡ ok made
      → Says made (path_matches qs (path_of like row mappings))
  unfolding compile_path path_matches
  compile_path-Says [] [] made f h l g e = subst (λ m. Says m true) (ok_inj e) refl
  compile_path-Says [] (PathPattern.exact v ∷ qs) made f h l g e =
      subst (λ m. Says m false) (ok_inj e) refl
  compile_path-Says [] (PathPattern.any ∷ qs) made f h l g e =
      subst (λ m. Says m false) (ok_inj e) refl
  compile_path-Says [] (PathPattern.glob_star ∷ []) made f h l g e =
      subst (λ m. Says m true) (ok_inj e) refl
  compile_path-Says [] (PathPattern.glob_star ∷ q ∷ qs) made f h l g e = cc
  compile_path-Says (m ∷ ms) (PathPattern.glob_star ∷ qs) made f h l g e =
      subst (λ m. Says m (is_empty qs)) (ok_inj e) (sym g)
  compile_path-Says (PathMap.remainder_column name ∷ ms) [] made f h l g e = cc
  compile_path-Says (PathMap.remainder_column name ∷ ms) (PathPattern.exact v ∷ qs) made f h l g e =
      remainder-Says name (PathPattern.exact v ∷ qs) made f h l e
  compile_path-Says (PathMap.remainder_column name ∷ ms) (PathPattern.any ∷ qs) made f h l g e =
      remainder-Says name (PathPattern.any ∷ qs) made f h l e
  compile_path-Says (PathMap.literal value ∷ ms) [] made f h l g e =
      subst (λ m. Says m false) (ok_inj e) refl
  compile_path-Says (PathMap.literal value ∷ ms) (PathPattern.exact v ∷ qs) made f (_, h) (_, l) g
        e =
      elim (Bool-cases (v == value)) [
        | inl same ↦
            rw (eq_comm value v, same)
              (compile_path-Says ms qs made f h l g (rw (same, compile_path) at e))
        | inr other ↦
            rw (eq_comm value v, other)
              (subst (λ m. Says m false) (ok_inj (rw (other, compile_path) at e)) refl)
      ]
  compile_path-Says (PathMap.literal value ∷ ms) (PathPattern.any ∷ qs) made f (_, h) (_, l) g e =
      compile_path-Says ms qs made f h l g e
  compile_path-Says (PathMap.column name ∷ ms) [] made f h l g e =
      subst (λ m. Says m false) (ok_inj e) refl
  compile_path-Says (PathMap.column name ∷ ms) (PathPattern.exact v ∷ qs) made f (_, h) (_, l) g e =
      Says-with_clause (equals name v) (compile_path ms qs) made
        (path_matches qs (path_of like row ms)) e
        (λ found e₁. compile_path-Says ms qs found f h l g e₁)
  compile_path-Says (PathMap.column name ∷ ms) (PathPattern.any ∷ qs) made f (_, h) (_, l) g e =
      compile_path-Says ms qs made f h l g e

  pub compile_clauses-Says :
      (mapping : ResourceSqlMapping) (pattern : UrnPattern) (made : Option (List Clause))
      → IsPattern pattern
      → FillsRemainder mapping.path pattern.path
      → All IsLiteral pattern.path
      → compile_clauses mapping pattern ≡ ok made
      → Says made (matches pattern (urn_of like row mapping))
  unfolding compile_clauses matches
  compile_clauses-Says mapping p made is f l h =
      let path = compile_path mapping.path p.path in
      let tenant = and_then (compile_segment mapping.tenant p.tenant) path in
      let region = and_then (compile_segment mapping.region p.region) tenant in
      let service = and_then (compile_segment mapping.service p.service) region in
      subst (Says made)
        (and_five (segment_matches p.partition (segment_of like row mapping.partition))
          (segment_matches p.service (segment_of like row mapping.service))
          (segment_matches p.region (segment_of like row mapping.region))
          (segment_matches p.tenant (segment_of like row mapping.tenant))
          (path_matches p.path (path_of like row mapping.path)))
        (Says-and_then (compile_segment mapping.partition p.partition) service made _ _ h
          (compile_segment-Says mapping.partition p.partition)
          (λ made₁ h₁.
            Says-and_then (compile_segment mapping.service p.service) region made₁ _ _ h₁
              (compile_segment-Says mapping.service p.service)
              (λ made₂ h₂.
                Says-and_then (compile_segment mapping.region p.region) tenant made₂ _ _ h₂
                  (compile_segment-Says mapping.region p.region)
                  (λ made₃ h₃.
                    Says-and_then (compile_segment mapping.tenant p.tenant) path made₃ _ _ h₃
                      (compile_segment-Says mapping.tenant p.tenant)
                      (λ made₄ h₄.
                        compile_path-Says mapping.path p.path made₄ f is.path l is.last h₄)))))

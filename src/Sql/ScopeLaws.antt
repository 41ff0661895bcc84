-- ===== src/Sql/ScopeLaws.antt =====
-- Whole scopes (`compile_scope` of src/common/src/utils/sql.rs), against the patterns that they are made
-- of.
use mathlib.Core.Option
use authguard.Base.{
  Bool, true, false, not, ◌||◌, ◌&&◌, ◌≡◌, refl, sym, ap, subst, ◌∙◌, inl, inr, arith, Option, none,
  some, List, [], ◌∷◌, map, Text, codes, ◌==◌, any, is_empty, All, Result, ok, bind-eq-ok, ok_inj,
  or_cases, Bool-cases, if◌then◌else◌,
}
use authguard.Urn.{UrnPattern}
use authguard.Urn.Pattern.{matches}
use authguard.Urn.PatternTrip.{IsPattern}
use authguard.Sql.Compile.{
  SqlCompileError, ResourceSqlMapping, SqlScope, Clause, deny_all, scope_of, or_scopes, except,
  compile_clauses, compile_pattern, add_scope, compile_allowed, compile_denied, compile_scope,
}
use authguard.Sql.Meaning.{IsLike, all_hold, urn_of}
use authguard.Sql.RemainderLaws.{IsLiteral}
use authguard.Sql.PatternLaws.{FillsRemainder, Says, compile_clauses-Says}
use authguard.Sql.OneEqualsOne.{scope_of-one}
use authguard.Sql.Text.{Condition, nothing, every, either, but_not, spell}
use authguard.Sql.TextLaws.{render, render-spell}

-- The pattern is one that a text can name, fits the mapping, and its values mean themselves to `LIKE`.
pub record Suits (mapping : ResourceSqlMapping) (pattern : UrnPattern) : Type 0 where
  pub is_pattern : IsPattern pattern
  pub fills : FillsRemainder mapping.path pattern.path
  pub literal : All IsLiteral pattern.path

module _ (mapping : ResourceSqlMapping) where
  module _ (like : Text → Text → Bool) (row : Text → Text) (law : IsLike like) where
    abbrev pub truth : Condition → Bool
    truth nothing = false
    truth (every clauses) = all_hold like row clauses
    truth (either alternatives) = any (all_hold like row) alternatives
    truth (but_not condition clauses) = truth condition && not (all_hold like row clauses)

    -- The pattern matches the URN of the row.
    abbrev pub covers : UrnPattern → Bool
    covers pattern = matches pattern (urn_of like row mapping)

    compile_pattern-Says :
        (pattern : UrnPattern) (scope : Option SqlScope)
        → Suits mapping pattern
        → compile_pattern mapping pattern ≡ ok scope
        → (made : Option (List Clause)) × (scope ≡ Option.map (scope_of mapping) made)
          × Says like row law made (covers pattern)
    unfolding compile_pattern
    compile_pattern-Says pattern scope s h =
        let (made, e, h₁) = bind-eq-ok (compile_clauses mapping pattern) _ h in
        (
          made,
          sym (ok_inj h₁),
          compile_clauses-Says like row law mapping pattern made s.is_pattern s.fills s.literal e,
        )

    -- One of these has the test `test`.
    abbrev Alternatives : List SqlScope → Bool → Type 0
    Alternatives scopes test =
        (alternatives : List (List Clause)) × (scopes ≡ map (scope_of mapping) alternatives)
        × (any (all_hold like row) alternatives ≡ test)

    add-Alternatives :
        (made : Option (List Clause)) (scopes : List SqlScope) (test others : Bool)
        → Says like row law made test
        → Alternatives scopes others
        → Alternatives
            (add_scope mapping (Option.map (scope_of mapping) made) scopes)
            (test || others)
    add-Alternatives none scopes test others s (alternatives, e, means) =
        (alternatives, e, ground arith)
    add-Alternatives (some clauses) scopes test others s (alternatives, e, means) =
        (clauses ∷ alternatives, ap (◌∷◌ (scope_of mapping clauses)) e, ground arith)

    compile_allowed-Alternatives :
        (allow : List UrnPattern) (scopes : List SqlScope)
        → All (Suits mapping) allow
        → compile_allowed mapping allow ≡ ok scopes
        → Alternatives scopes (any covers allow)
    unfolding compile_allowed
    compile_allowed-Alternatives [] scopes s h = ([], sym (ok_inj h), refl)
    compile_allowed-Alternatives (p ∷ allow) scopes (s, ss) h =
        let (scope, e, h₁) = bind-eq-ok (compile_pattern mapping p) _ h in
        let (rest, e₁, h₂) = bind-eq-ok (compile_allowed mapping allow) _ h₁ in
        let (made, same, says) = compile_pattern-Says p scope s e in
        subst (λ list. Alternatives list (any covers (p ∷ allow)))
          (ap (λ o. add_scope mapping o rest) (sym same) ∙ ok_inj h₂)
          (add-Alternatives made rest (covers p) (any covers allow) says
            (compile_allowed-Alternatives allow rest ss e₁))

    -- The compiler's own text of a condition with this truth.
    abbrev Rendered : SqlScope → Bool → Type 0
    Rendered scope test = (c : Condition) × (render mapping c ≡ scope) × (truth c ≡ test)

    -- The scope is the text of a condition with this truth.
    abbrev pub Means : SqlScope → Bool → Type 0
    Means scope test = (c : Condition) × (spell c ≡ scope) × (truth c ≡ test)

    some_one :
        (alternatives : List (List Clause))
        → any
            (λ (s : SqlScope). s.where_clause == codes "1=1")
            (map (scope_of mapping) alternatives)
          ≡ true
        → any (all_hold like row) alternatives ≡ true
    some_one [] h = cc
    some_one (clauses ∷ alternatives) h =
        elim (or_cases ((scope_of mapping clauses).where_clause == codes "1=1") _ h) [
          | inl one ↦ rw (scope_of-one mapping clauses one) refl
          | inr later ↦ ground (arith, some_one alternatives later)
        ]

    or_scopes-Rendered :
        (alternatives : List (List Clause))
        → is_empty alternatives ≡ false
        → Rendered
            (or_scopes mapping (map (scope_of mapping) alternatives))
            (any (all_hold like row) alternatives)
    unfolding or_scopes
    or_scopes-Rendered [] h = cc
    or_scopes-Rendered (clauses ∷ []) h = (every clauses, refl, ground arith)
    or_scopes-Rendered (clauses ∷ more ∷ alternatives) h =
        let all = clauses ∷ more ∷ alternatives in
        elim (Bool-cases
          (any (λ (s : SqlScope). s.where_clause == codes "1=1") (map (scope_of mapping) all))) [
            | inl one ↦ rw one (every [], refl, sym (some_one all one))
            | inr none_one ↦ rw none_one (either all, refl, refl)
          ]

    after_deny :
        (made : Option (List Clause)) (scope out : SqlScope) (denied : List UrnPattern)
        (test hit others : Bool)
        → Says like row law made hit
        → Rendered scope test
        → ((next : SqlScope) (now : Bool)
            → Rendered next now
            → compile_denied mapping next denied ≡ ok out
            → Rendered out (now && not others))
        → elim (Option.map (scope_of mapping) made) as (λ _. Result SqlCompileError SqlScope) [
          | none ↦ compile_denied mapping scope denied
          | some deny_scope ↦
              if deny_scope.where_clause == codes "1=1"
              then ok deny_all
              else compile_denied mapping (except mapping scope deny_scope) denied
        ]
          ≡ ok out
        → Rendered out (test && not (hit || others))
    after_deny none scope out denied test hit others s m ih h =
        let (c, e, t) = ih scope test m h in
        let unhit : (test && not others) ≡ (test && not (hit || others)) = ground arith in
        (c, e, t ∙ unhit)
    after_deny (some clauses) scope out denied test hit others s (c, e, t) ih h =
        elim (Bool-cases ((scope_of mapping clauses).where_clause == codes "1=1")) [
          | inl one ↦
              let hits : hit ≡ true =
                sym s ∙ ap (all_hold like row) (scope_of-one mapping clauses one) in
              (nothing, ok_inj (rw one at h), ground arith)
          | inr more ↦
              let kept : Rendered (except mapping scope (scope_of mapping clauses))
                  (test && not hit) =
                (
                  but_not c clauses,
                  ap (λ r. except mapping r (scope_of mapping clauses)) e,
                  λ i. t i && not (s i),
                ) in
              let (d, e₁, t₁) = ih _ (test && not hit) kept (rw more at h) in
              let split_up : (test && not hit && not others) ≡ (test && not (hit || others)) =
                ground arith in
              (d, e₁, t₁ ∙ split_up)
        ]

    compile_denied-Rendered :
        (deny : List UrnPattern) (scope out : SqlScope) (test : Bool)
        → All (Suits mapping) deny
        → Rendered scope test
        → compile_denied mapping scope deny ≡ ok out
        → Rendered out (test && not (any covers deny))
    unfolding compile_denied
    compile_denied-Rendered [] scope out test s (c, e, t) h =
        let all : test ≡ (test && not false) = ground arith in (c, e ∙ ok_inj h, t ∙ all)
    compile_denied-Rendered (p ∷ deny) scope out test (s, ss) m h =
        let (compiled, e, h₁) = bind-eq-ok (compile_pattern mapping p) _ h in
        let (made, same, says) = compile_pattern-Says p compiled s e in
        after_deny made scope out deny test (covers p) (any covers deny) says m
          (λ next now m₁ h₂. compile_denied-Rendered deny next out now ss m₁ h₂)
          (subst
            (λ o.
              elim o as (λ _. Result SqlCompileError SqlScope) [
                | none ↦ compile_denied mapping scope deny
                | some deny_scope ↦
                    if deny_scope.where_clause == codes "1=1"
                    then ok deny_all
                    else compile_denied mapping (except mapping scope deny_scope) deny
              ]
              ≡ ok out)
            same h₁)

    empty_scopes :
        (alternatives : List (List Clause))
        → is_empty (map (scope_of mapping) alternatives) ≡ is_empty alternatives
    empty_scopes [] = refl
    empty_scopes (clauses ∷ alternatives) = refl

    none_of :
        (alternatives : List (List Clause))
        → is_empty (map (scope_of mapping) alternatives) ≡ true
        → any (all_hold like row) alternatives ≡ false
    none_of [] h = refl
    none_of (clauses ∷ alternatives) h = cc

    -- A scope that is compiled is the SQL text of a condition, with its parameters in order, that holds of
    -- a row exactly when some allowed pattern, and no denied one, matches the URN of the row. The text
    -- joins the clauses of a pattern by ` AND `, the patterns in parentheses by ` OR `, and what is denied
    -- by ` AND NOT `. The patterns are parsed ones whose values have no `%`, no `_` and no backslash, and
    -- none of them ends just where the mapping has its remainder column; the `LIKE` of the database tells
    -- upper from lower case.
    pub compile_scope-Means :
        (allow deny : List UrnPattern) (scope : SqlScope)
        → All (Suits mapping) allow
        → All (Suits mapping) deny
        → compile_scope mapping allow deny ≡ ok scope
        → Means scope (any covers allow && not (any covers deny))
    unfolding compile_scope
    compile_scope-Means allow deny scope sa sd h =
        let (scopes, e, h₁) = bind-eq-ok (compile_allowed mapping allow) _ h in
        let (alternatives, same, means) = compile_allowed-Alternatives allow scopes sa e in
        elim (Bool-cases (is_empty scopes)) [
          | inl none_left ↦
              let nothing_allowed =
                sym means ∙ none_of alternatives (ap is_empty (sym same) ∙ none_left) in
              (nothing, ok_inj (rw none_left at h₁), ground arith)
          | inr some_left ↦
              let (c, e₁, t) =
                or_scopes-Rendered alternatives
                  (sym (empty_scopes alternatives) ∙ ap is_empty (sym same) ∙ some_left) in
              let (out, e₂, t₂) =
                compile_denied-Rendered deny (or_scopes mapping scopes) scope (any covers allow) sd
                  (c, e₁ ∙ ap (or_scopes mapping) (sym same), t ∙ means) (rw some_left at h₁) in
              (out, sym (render-spell mapping out) ∙ e₂, t₂)
        ]

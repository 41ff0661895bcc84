-- ===== src/Sql/OneEqualsOne.antt =====
-- The test `where_clause == "1=1"` of src/common/src/utils/sql.rs finds the scopes without clauses.
use authguard.Base.{
  ◌≡◌, refl, sym, ap, ◌∙◌, true, false, List, [], ◌∷◌, ◌++◌, map, Text, codes, ◌==◌, eq_iff,
  is_empty, ends_with_char,
}
use authguard.Sql.Compile.{
  ResourceSqlMapping, Clause, equals, within, clause_text, join_texts, scope_of,
}

-- The text is not empty, and ends in another character than `1`.
abbrev EndsOtherwise : Text → Type 0
EndsOtherwise t = (is_empty t ≡ false) × (ends_with_char b'1' t ≡ false)

EndsOtherwise-append : (s t : Text) → EndsOtherwise t → EndsOtherwise (s ++ t)
EndsOtherwise-append [] t h = h
EndsOtherwise-append (c ∷ []) [] h = cc
EndsOtherwise-append (c ∷ []) (d ∷ t) h = (refl, h.1)
EndsOtherwise-append (c ∷ d ∷ s) t h = (refl, (EndsOtherwise-append (d ∷ s) t h).1)

clause_text-EndsOtherwise : (clause : Clause) → EndsOtherwise (clause_text clause)
clause_text-EndsOtherwise (equals name value) =
    EndsOtherwise-append name (codes " = ?") (refl, refl)
clause_text-EndsOtherwise (within name prefix) = EndsOtherwise-append (codes "(") _ (
    EndsOtherwise-append name _ (
      EndsOtherwise-append (codes " = ? OR ") _
        (EndsOtherwise-append name (codes " LIKE ?)") (refl, refl))))

join-EndsOtherwise :
    (separator : Text) (clause : Clause) (clauses : List Clause)
    → EndsOtherwise (join_texts separator (map clause_text (clause ∷ clauses)))
unfolding join_texts
join-EndsOtherwise separator clause [] = clause_text-EndsOtherwise clause
join-EndsOtherwise separator clause (d ∷ clauses) =
    EndsOtherwise-append (clause_text clause) _
      (EndsOtherwise-append separator _ (join-EndsOtherwise separator d clauses))

pub scope_of-one :
    (mapping : ResourceSqlMapping) (clauses : List Clause)
    → ((scope_of mapping clauses).where_clause == codes "1=1") ≡ true
    → clauses ≡ []
scope_of-one mapping [] h = refl
scope_of-one mapping (c ∷ clauses) h =
    let ends = (join-EndsOtherwise (codes " AND ") c clauses).1 in
    let same = (eq_iff (scope_of mapping (c ∷ clauses)).where_clause (codes "1=1")).0 h in
    let clash : true ≡ false = sym (ap (ends_with_char b'1') same) ∙ ends in cc

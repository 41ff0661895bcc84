-- ===== src/Sql/TextLaws.antt =====
-- The texts that src/common/src/utils/sql.rs writes are those of the conditions.
use authguard.Base.{◌≡◌, refl, List, [], ◌∷◌, ◌++◌, map, codes}
use authguard.Sql.Compile.{
  ResourceSqlMapping, SqlScope, Clause, equals, within, deny_all, clause_text, clause_params,
  all_params, join_texts, scope_of, in_parens, params_of, except,
}
use authguard.Sql.Text.{
  Condition, nothing, every, either, but_not, clause_sql, clause_arguments, conjunction, arguments,
  parenthesized, disjunction, all_arguments, spell,
}

clause_text_lem : (clause : Clause) → clause_text clause ≡ clause_sql clause
clause_text_lem (equals name value) = refl
clause_text_lem (within name prefix) = refl

clause_params_lem : (clause : Clause) → clause_params clause ≡ clause_arguments clause
clause_params_lem (equals name value) = refl
clause_params_lem (within name prefix) = refl

all_params_lem : (clauses : List Clause) → all_params clauses ≡ arguments clauses
all_params_lem [] = refl
all_params_lem (clause ∷ clauses) = λ i. clause_params_lem clause i ++ all_params_lem clauses i

join_clauses :
    (clause : Clause) (clauses : List Clause)
    → join_texts (codes " AND ") (map clause_text (clause ∷ clauses))
      ≡ conjunction (clause ∷ clauses)
unfolding join_texts
join_clauses clause [] = clause_text_lem clause
join_clauses clause (next ∷ clauses) =
    λ i. clause_text_lem clause i ++ (codes " AND " ++ join_clauses next clauses i)

module _ (mapping : ResourceSqlMapping) where
  abbrev pub render : Condition → SqlScope
  render nothing = deny_all
  render (every clauses) = scope_of mapping clauses
  render (either alternatives) = record {
    where_clause =
        join_texts (codes " OR ") (map (in_parens mapping) (map (scope_of mapping) alternatives));
    params = params_of mapping (map (scope_of mapping) alternatives);
  }
  render (but_not condition clauses) = except mapping (render condition) (scope_of mapping clauses)

  scope_of_lem : (clauses : List Clause) → scope_of mapping clauses ≡ spell (every clauses)
  scope_of_lem [] = refl
  scope_of_lem (clause ∷ clauses) = λ i. record {
    where_clause = join_clauses clause clauses i;
    params = all_params_lem (clause ∷ clauses) i;
  }

  join_scopes :
      (alternatives : List (List Clause))
      → join_texts (codes " OR ") (map (in_parens mapping) (map (scope_of mapping) alternatives))
        ≡ disjunction alternatives
  unfolding join_texts
  join_scopes [] = refl
  join_scopes (clauses ∷ []) = λ i. parenthesized (scope_of_lem clauses i).where_clause
  join_scopes (clauses ∷ next ∷ alternatives) = λ i.
      parenthesized (scope_of_lem clauses i).where_clause
      ++ (codes " OR " ++ join_scopes (next ∷ alternatives) i)

  params_of_lem :
      (alternatives : List (List Clause))
      → params_of mapping (map (scope_of mapping) alternatives) ≡ all_arguments alternatives
  params_of_lem [] = refl
  params_of_lem (clauses ∷ alternatives) =
      λ i. (scope_of_lem clauses i).params ++ params_of_lem alternatives i

  pub render-spell : (c : Condition) → render c ≡ spell c
  render-spell nothing = refl
  render-spell (every clauses) = scope_of_lem clauses
  render-spell (either alternatives) = λ i. record {
    where_clause = join_scopes alternatives i;
    params = params_of_lem alternatives i;
  }
  render-spell (but_not c clauses) = λ i. except mapping (render-spell c i) (scope_of_lem clauses i)

-- ===== src/Sql/Text.antt =====
-- The SQL text of a scope as it is to be read, independent of the compiler of src/common/src/utils/sql.rs:
-- conditions on the columns of a row, each with its text and the parameters of its question marks.
use authguard.Base.{List, [], ◌∷◌, ◌++◌, Text, codes}
use authguard.Sql.Compile.{SqlScope, Clause, equals, within}

pub data Condition : Type 0 where
  nothing : Condition
  every : List Clause → Condition
  either : List (List Clause) → Condition
  but_not : Condition → List Clause → Condition

abbrev pub clause_sql : Clause → Text
clause_sql (equals name value) = name ++ codes " = ?"
clause_sql (within name prefix) =
    codes "(" ++ (name ++ (codes " = ? OR " ++ (name ++ codes " LIKE ?)")))

abbrev pub clause_arguments : Clause → List Text
clause_arguments (equals name value) = value ∷ []
clause_arguments (within name prefix) = prefix ∷ (prefix ++ codes "/%") ∷ []

-- All clauses of a pattern; without one, every row.
abbrev pub conjunction : List Clause → Text
conjunction [] = codes "1=1"
conjunction (clause ∷ []) = clause_sql clause
conjunction (clause ∷ next ∷ clauses) =
    clause_sql clause ++ (codes " AND " ++ conjunction (next ∷ clauses))

abbrev pub arguments : List Clause → List Text
arguments [] = []
arguments (clause ∷ clauses) = clause_arguments clause ++ arguments clauses

abbrev pub parenthesized : Text → Text
parenthesized text = codes "(" ++ (text ++ codes ")")

abbrev pub disjunction : List (List Clause) → Text
disjunction [] = []
disjunction (clauses ∷ []) = parenthesized (conjunction clauses)
disjunction (clauses ∷ next ∷ alternatives) =
    parenthesized (conjunction clauses) ++ (codes " OR " ++ disjunction (next ∷ alternatives))

abbrev pub all_arguments : List (List Clause) → List Text
all_arguments [] = []
all_arguments (clauses ∷ alternatives) = arguments clauses ++ all_arguments alternatives

-- The text of a condition and its parameters.
abbrev pub spell : Condition → SqlScope
spell nothing = record { where_clause = codes "0=1"; params = [] }
spell (every clauses) = record { where_clause = conjunction clauses; params = arguments clauses }
spell (either alternatives) = record {
  where_clause = disjunction alternatives;
  params = all_arguments alternatives;
}
spell (but_not condition clauses) =
    let rest = spell condition in
    record {
      where_clause =
          parenthesized rest.where_clause
          ++ (codes " AND NOT " ++ parenthesized (conjunction clauses));
      params = rest.params ++ arguments clauses;
    }

-- ===== src/Http/Template.antt =====
-- `expand_template` of src/common/src/utils/http_matcher.rs, and that its fuel suffices.
use authguard.Base.{
  ℕ, zero, suc, ◌<◌, ◌≡◌, refl, ap, ◌∙◌, none, some, List, [], ◌∷◌, ◌++◌, Text, length, lookup,
  length-append, split_once, split_once-eq-some, Option-cases, split_once-append,
  split_once_of_Lacks, All, Lacks, append_assoc, inl, inr, Result, ok, err, ◌>>=◌, ok_or, arith,
}
use authguard.Http.{HttpMappingError, missing_template_value, Values}

-- The `while let` loop on fuel; a round consumes two braces at least. Out of fuel it stops with the
-- text so far, which `expand_from_fuel` shows never to happen from `expand_template`.
unfoldable pub expand_from : ℕ → Values → Text → Text → Result HttpMappingError Text
expand_from zero values output remaining = ok output
expand_from (suc fuel) values output remaining = elim (split_once b'{' remaining) [
  | none ↦ ok (output ++ remaining)
  | some (start, after_start) ↦ elim (split_once b'}' after_start) [
    | none ↦ err (missing_template_value after_start)
    | some (name, rest) ↦ elim (lookup name values) [
      | none ↦ err (missing_template_value name)
      | some value ↦ expand_from fuel values (output ++ (start ++ value)) rest
    ]
  ]
]

unfoldable pub expand_template : Text → Values → Result HttpMappingError Text
unfolding expand_from
expand_template template values = expand_from (suc (length template)) values [] template

split_shorter : (c : ℕ) (s a b : Text) → split_once c s ≡ some (a, b) → length b < length s
split_shorter c s a b h =
    let (e, _) = split_once-eq-some c s a b h in
    let measured = ap length e in omega (arith, length-append {0} a (c ∷ b))

-- The result does not depend on the fuel, once that is more than the length of what remains; so
-- `expand_template` never stops for lack of it.
pub expand_from_fuel :
    (f g : ℕ) (values : Values) (output remaining : Text)
    → length remaining < f
    → length remaining < g
    → expand_from f values output remaining ≡ expand_from g values output remaining
unfolding expand_from
expand_from_fuel zero g values output remaining h k = elim h [ ]
expand_from_fuel (suc f) zero values output remaining h k = elim k [ ]
expand_from_fuel (suc f) (suc g) values output remaining h k =
    elim (Option-cases (split_once b'{' remaining)) [
      | inl last ↦ rw (last, expand_from)
      | inr ((start, after_start), opened) ↦ elim (Option-cases (split_once b'}' after_start)) [
        | inl unclosed ↦ rw (opened, expand_from) (rw (unclosed, expand_from))
        | inr ((name, rest), closed) ↦ elim (Option-cases (lookup name values)) [
          | inl missing ↦
              rw (opened, expand_from) (rw (closed, expand_from) (rw (missing, expand_from)))
          | inr (value, found) ↦
              let a = split_shorter b'{' remaining start after_start opened in
              let b = split_shorter b'}' after_start name rest closed in
              rw (opened, expand_from)
                (rw (closed, expand_from)
                  (rw (found, expand_from)
                    (expand_from_fuel f g values (output ++ (start ++ value)) rest (omega arith)
                      (omega arith))))
        ]
      ]
    ]

-- A template as its author thinks of it: literal texts, each before a name, and a last text.
abbrev pub Parts : Type 0
Parts = List (Text × Text)

abbrev pub print : Parts → Text → Text
print [] last = last
print ((text, name) ∷ parts) last = text ++ (b'{' ∷ name ++ (b'}' ∷ print parts last))

abbrev pub fill : Values → Parts → Text → Result HttpMappingError Text
fill values [] last = ok last
fill values ((text, name) ∷ parts) last = do
  value ← ok_or (missing_template_value name) (lookup name values)
  rest ← fill values parts last
  ok (text ++ (value ++ rest))

-- No brace opens in the texts or closes in the names.
abbrev pub AreParts : Parts → Type 0
AreParts = All (λ p. Lacks b'{' p.0 × Lacks b'}' p.1)

abbrev after : Text → Result HttpMappingError Text → Result HttpMappingError Text
after output (ok text) = ok (output ++ text)
after output (err e) = err e

after_after :
    (output text value : Text) (r : Result HttpMappingError Text)
    → after (output ++ (text ++ value)) r
      ≡ after output (r >>= λ rest. ok (text ++ (value ++ rest)))
after_after output text value (ok rest) = ap ok (simp append_assoc)
after_after output text value (err e) = refl

expand_parts :
    (fuel : ℕ) (values : Values) (output : Text) (parts : Parts) (last : Text)
    → AreParts parts
    → Lacks b'{' last
    → length (print parts last) < fuel
    → expand_from fuel values output (print parts last) ≡ after output (fill values parts last)
unfolding expand_from
expand_parts zero values output parts last h k f = elim f [ ]
expand_parts (suc fuel) values output [] last h k f =
    rw (split_once_of_Lacks b'{' last k, expand_from)
expand_parts (suc fuel) values output ((text, name) ∷ parts) last ((a, b), h) k f =
    rw (split_once-append b'{' text (name ++ (b'}' ∷ print parts last)) a, expand_from)
      (rw (split_once-append b'}' name (print parts last) b, expand_from)
        (elim (Option-cases (lookup name values)) [
          | inl missing ↦ rw (missing, expand_from)
          | inr (value, found) ↦
              let shorter : length (print parts last) < fuel = omega (
                arith,
                length-append {0} text (b'{' ∷ name ++ (b'}' ∷ print parts last)),
                length-append {0} name (b'}' ∷ print parts last),
              ) in
              rw (found, expand_from)
                (expand_parts fuel values (output ++ (text ++ value)) parts last h k shorter
                  ∙ after_after output text value (fill values parts last))
        ]))

after_nil : (r : Result HttpMappingError Text) → after [] r ≡ r
after_nil (ok text) = refl
after_nil (err e) = refl

-- A template whose texts open no brace and whose names close none expands to its texts with the
-- values of its names between them, or fails with the first name that has no value.
pub expand_template-print :
    (values : Values) (parts : Parts) (last : Text)
    → AreParts parts
    → Lacks b'{' last
    → expand_template (print parts last) values ≡ fill values parts last
unfolding expand_template
expand_template-print values parts last h k =
    expand_parts (suc (length (print parts last))) values [] parts last h k (omega arith)
    ∙ after_nil (fill values parts last)

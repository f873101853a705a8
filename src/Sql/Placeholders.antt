-- ===== src/Sql/Placeholders.antt =====
-- The placeholders of a compiled filter against its arguments.
use quordon.Prelude.{
  ℕ, suc, ◌+◌, ◌≡◌, refl, sym, subst, ◌⊎◌, inl, inr, true, false, List, [], ◌∷◌, ◌++◌, map, ◌==◌,
  nat_has_eq, string_has_eq, nat_eq, length, lookup, In, Lacks, contains, contains_iff, Text,
  String, text, some, if◌then◌else◌, arith, Bool-cases, ==_iff,
}
use quordon.Queryspec.Identifier.{IsPortable, IsPortable-Lacks, identifier_byte}
use quordon.Queryspec.Predicates.{Arity, exactly, some_values, operator_arity}
use quordon.Sql.{
  quote, double_quotes, operators, is_null_test, is_list_test, join_more, join_with,
  source_text_expression,
}

-- The question marks of a text.
abbrev pub holes : Text → ℕ
holes [] = 0
holes (c ∷ s) = if nat_eq c b'?' then suc (holes s) else holes s

pub holes_append : (s t : Text) → holes (s ++ t) ≡ holes s + holes t
holes_append [] t = omega arith
holes_append (c ∷ s) t = ground (arith, holes_append s t)

holes-Lacks : (s : Text) → Lacks b'?' s → holes s ≡ 0
holes-Lacks [] h = refl
holes-Lacks (c ∷ s) (h, k) = ground (arith, holes-Lacks s k)

holes-double_quotes : (s : Text) → holes (double_quotes s) ≡ holes s
holes-double_quotes [] = refl
holes-double_quotes (c ∷ s) = ground (arith, holes-double_quotes s)

identifier_byte-question : identifier_byte b'?' ≡ false
unfolding identifier_byte
identifier_byte-question = ground arith

pub holes-quote : (s : Text) → IsPortable s → holes (quote s) ≡ 0
unfolding quote
holes-quote s p =
    let plain = holes-Lacks s (IsPortable-Lacks b'?' s (identifier_byte-question) p) in
    omega (arith, plain, holes-double_quotes s, holes_append (double_quotes s) (text "`"))

-- A column of a comparison as source text.
pub holes-source_text :
    (field : Text) → holes field ≡ 0 → holes (source_text_expression field true) ≡ 0
unfolding source_text_expression
holes-source_text field h = omega (
  arith,
  h,
  holes_append field (text " AS CHAR CHARACTER SET utf8mb4)"),
  holes_append (field ++ text " AS CHAR CHARACTER SET utf8mb4)") (text " AS BINARY)"),
)

-- A placeholder for each argument, between commas.
module _ {A : Type 0} (mark : Text) (one : holes mark ≡ 1) where
  holes_more : (args : List A) → holes (join_more (text ", ") (map (λ _. mark) args)) ≡ length args
  holes_more [] = refl
  holes_more (a ∷ args) = omega (
    arith,
    one,
    holes_more args,
    holes_append mark (join_more (text ", ") (map (λ _. mark) args)),
  )

  pub holes-placeholders :
      (args : List A) → holes (join_with (text ", ") (map (λ _. mark) args)) ≡ length args
  holes-placeholders [] = refl
  holes-placeholders (a ∷ args) = omega (
    arith,
    one,
    holes_more args,
    holes_append mark (join_more (text ", ") (map (λ _. mark) args)),
  )

-- An operator with its spelling, which has no placeholder, and the form that it compiles to.
abbrev pub Form : String → Arity → Type 0
Form op arity =
    ((arity ≡ exactly 0) × (is_null_test op ≡ true))
    ⊎ ((arity ≡ some_values) × (is_null_test op ≡ false) × (is_list_test op ≡ true))
    ⊎ ((arity ≡ exactly 1) × (is_null_test op ≡ false) × (is_list_test op ≡ false))

abbrev Spelled : String → Type 0
Spelled op =
    (arity : Arity) × (t : Text) × (operator_arity op ≡ some arity)
    × (lookup op operators ≡ some t)
    × (holes t ≡ 0)
    × Form op arity

abbrev comparisons : List String
comparisons = "eq" ∷ "ne" ∷ "lt" ∷ "lte" ∷ "gt" ∷ "gte" ∷ "like" ∷ []

comparison_spelled : (op : String) → In op comparisons → Spelled op
unfolding operator_arity
comparison_spelled op (inl e) =
    subst Spelled e (_, _, refl, refl, refl, inr (inr (refl, refl, refl)))
comparison_spelled op (inr (inl e)) =
    subst Spelled e (_, _, refl, refl, refl, inr (inr (refl, refl, refl)))
comparison_spelled op (inr (inr (inl e))) =
    subst Spelled e (_, _, refl, refl, refl, inr (inr (refl, refl, refl)))
comparison_spelled op (inr (inr (inr (inl e)))) =
    subst Spelled e (_, _, refl, refl, refl, inr (inr (refl, refl, refl)))
comparison_spelled op (inr (inr (inr (inr (inl e))))) =
    subst Spelled e (_, _, refl, refl, refl, inr (inr (refl, refl, refl)))
comparison_spelled op (inr (inr (inr (inr (inr (inl e)))))) =
    subst Spelled e (_, _, refl, refl, refl, inr (inr (refl, refl, refl)))
comparison_spelled op (inr (inr (inr (inr (inr (inr (inl e))))))) =
    subst Spelled e (_, _, refl, refl, refl, inr (inr (refl, refl, refl)))
comparison_spelled op (inr (inr (inr (inr (inr (inr (inr none_left))))))) = elim none_left [ ]

named_spelled : (op word : String) → (op == word) ≡ true → Spelled word → Spelled op
named_spelled op word h s = subst Spelled (sym ((==_iff op word).0 h)) s

spelled : (op : String) (arity : Arity) → operator_arity op ≡ some arity → Spelled op
unfolding operator_arity
spelled op arity h = elim (Bool-cases (contains comparisons op)) [
  | inl comparison ↦ comparison_spelled op ((contains_iff comparisons op).0 comparison)
  | inr other ↦ elim (Bool-cases (op == "in")) [
    | inl e ↦ named_spelled op "in" e (_, _, refl, refl, refl, inr (inl (refl, refl, refl)))
    | inr not_in ↦ elim (Bool-cases (op == "not_in")) [
      | inl e ↦ named_spelled op "not_in" e (_, _, refl, refl, refl, inr (inl (refl, refl, refl)))
      | inr no_list ↦ elim (Bool-cases (op == "is_null")) [
        | inl e ↦ named_spelled op "is_null" e (_, _, refl, refl, refl, inl (refl, refl))
        | inr no_null ↦ elim (Bool-cases (op == "is_not_null")) [
          | inl e ↦ named_spelled op "is_not_null" e (_, _, refl, refl, refl, inl (refl, refl))
          | inr unknown ↦ absurd (ground arith)
        ]
      ]
    ]
  ]
]

-- Every operator that the validation knows is spelled, in the form of its arity.
pub operator_spelled :
    (op : String) (arity : Arity)
    → operator_arity op ≡ some arity
    → (t : Text) × (lookup op operators ≡ some t) × (holes t ≡ 0) × Form op arity
operator_spelled op arity h =
    let (arity', t, same, found, plain, form) = spelled op arity h in
    let e : arity' ≡ arity = ground arith in (t, found, plain, rw (sym e) form)

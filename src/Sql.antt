-- ===== src/Sql.antt =====
-- internal/adapters/mysql8/mysql8.go `compile`, `compileSelect`, `compileFilter` and source_text.go
-- `compileSourceTextFilter`: the text of a statement, and the arguments of its placeholders.
pub mod Placeholders
pub mod Arguments
pub mod Statements
use quordon.Prelude.{
  ℕ, zero, suc, ◌+◌, ◌-◌, ◌/◌, ◌%◌, Bool, true, false, not, ◌&&◌, ◌||◌, List, [], ◌∷◌, ◌++◌, map,
  ◌==◌, nat_has_eq, string_has_eq, text_has_eq, leb, ltb, length, lookup, Text, String, text,
  Option, none, some, if◌then◌else◌, Result, ok, err, ◌>>=◌, ◌>>◌, fail_if,
}
use quordon.Queryspec.{
  Filter, filter, Filters, nil, cons, TypedValue, Representation, representation_source_text,
  value_list, ResourceRef, Selection, Sort, NormalizedSpec,
}
use quordon.Queryspec.Value.{Codec, Bind, int, bind_value}

abbrev pub Compiled : Type 0
Compiled = Result String (Text × List Bind)

abbrev upper : ℕ → ℕ
upper c = if leb b'a' c && leb c b'z' then c - 32 else c

-- `strings.ToUpper` of an ASCII word.
abbrev pub to_upper : String → Text
to_upper word = map upper (text word)

-- `strings.Join` of the parts after the first.
abbrev pub join_more : Text → List Text → Text
join_more sep [] = []
join_more sep (p ∷ ps) = sep ++ p ++ join_more sep ps

abbrev pub join_with : Text → List Text → Text
join_with sep [] = []
join_with sep (p ∷ ps) = p ++ join_more sep ps

abbrev pub double_quotes : Text → Text
double_quotes [] = []
double_quotes (c ∷ s) = if c == b'`' then b'`' ∷ b'`' ∷ double_quotes s else c ∷ double_quotes s

unfoldable pub quote : Text → Text
quote identifier = text "`" ++ double_quotes identifier ++ text "`"

unfoldable pub qualify_source_field : ResourceRef → Text → Text
qualify_source_field source field =
    quote source.schema ++ text "." ++ quote source.name ++ text "." ++ quote field

unfoldable pub source_text_expression : Text → Bool → Text
source_text_expression field binary =
    let expression = text "CAST(" ++ field ++ text " AS CHAR CHARACTER SET utf8mb4)" in
    if binary then text "CAST(" ++ expression ++ text " AS BINARY)" else expression

unfoldable pub represented_field : Text → Representation → Bool → Text
represented_field field r binary =
    if r == representation_source_text then source_text_expression field binary else field

-- The map `operators`, the same in both functions.
abbrev pub operators : List (String × Text)
operators =
    ("eq", text "=")
    ∷ ("ne", text "<>")
    ∷ ("lt", text "<")
    ∷ ("lte", text "<=")
    ∷ ("gt", text ">")
    ∷ ("gte", text ">=")
    ∷ ("like", text "LIKE")
    ∷ ("in", text "IN")
    ∷ ("not_in", text "NOT IN")
    ∷ ("is_null", text "IS NULL")
    ∷ ("is_not_null", text "IS NOT NULL")
    ∷ []

abbrev pub is_null_test : String → Bool
is_null_test operator = operator == "is_null" || operator == "is_not_null"

abbrev pub is_list_test : String → Bool
is_list_test operator = operator == "in" || operator == "not_in"

module _ (codec : Codec) where
  -- The loop over the values: the bound values, in order.
  unfoldable pub bind_values : List TypedValue → Result String (List Bind)
  bind_values [] = ok []
  bind_values (v ∷ vs) = do bound ← bind_value codec v; rest ← bind_values vs; ok (bound ∷ rest)

  -- The loop over the values, with its test of the type.
  unfoldable pub bind_strings : List TypedValue → Result String (List Bind)
  bind_strings [] = ok []
  bind_strings (v ∷ vs) = do
    fail_if (not (v.type == "string")) "source_text requires string operands"
    bound ← bind_value codec v
    rest ← bind_strings vs
    ok (bound ∷ rest)

  -- From the look-up of the operator on; the field is not yet cast.
  unfoldable pub compile_source_text : String → Text → List TypedValue → Compiled
  unfolding source_text_expression bind_strings
  compile_source_text operator column values = elim (lookup operator operators) [
    | none ↦ err "unsupported source_text operator"
    | some op ↦
        let field = source_text_expression column true in
        if is_null_test operator then ok (field ++ text " " ++ op, []) else do
          args ← bind_strings values
          if is_list_test operator
              then ok (
                field
                    ++ text " "
                    ++ op
                    ++ text " ("
                    ++ join_with (text ", ") (map (λ _. text "CAST(? AS BINARY)") args)
                    ++ text ")",
                args,
              )
              else if not (length args == 1)
              then err "invalid source_text operand arity"
              else ok (field ++ text " " ++ op ++ text " " ++ text "CAST(? AS BINARY)", args)
  ]

  -- A predicate that is not compared as source text.
  unfoldable pub compile_predicate : String → Text → List TypedValue → Compiled
  unfolding bind_values
  compile_predicate operator column values = elim (lookup operator operators) [
    | none ↦ err "unsupported filter operator"
    | some op ↦ if is_null_test operator then ok (column ++ text " " ++ op, []) else do
      args ← bind_values values
      if is_list_test operator
          then ok (
            column
                ++ text " "
                ++ op
                ++ text " ("
                ++ join_with (text ", ") (map (λ _. text "?") args)
                ++ text ")",
            args,
          )
          else ok (column ++ text " " ++ op ++ text " ?", args)
  ]

  abbrev pub group_clause : String → List Text × List Bind → Compiled
  group_clause operator (wheres, args) =
      ok
        (text "(" ++ join_with (text " " ++ to_upper operator ++ text " ") wheres ++ text ")", args)

  unfoldable mutual
    unfolding quote compile_source_text compile_predicate

    pub compile_filter : Filter → Compiled
    compile_filter (filter r kind field operator values expressions) =
        let parts = compile_filters expressions in
        if r == representation_source_text
        then compile_source_text operator (quote field) (value_list values)
        else if kind == "group"
        then (parts >>= group_clause operator)
        else compile_predicate operator (quote field) (value_list values)

    -- The loop over the expressions of a group.
    pub compile_filters : Filters → Result String (List Text × List Bind)
    compile_filters nil = ok ([], [])
    compile_filters (cons f fs) = do
      part ← compile_filter f
      rest ← compile_filters fs
      ok (part.0 ∷ rest.0, part.1 ++ rest.1)

-- `%d` of a number that is not negative.
unfoldable pub digits : ℕ → ℕ → Text → Text
digits zero n s = s
digits (suc fuel) n s =
    let rest = digits fuel (n / 10) ((b'0' + n % 10) ∷ s) in
    if ltb n 10 then (b'0' + n) ∷ s else rest

unfoldable pub decimal : ℕ → Text
unfolding digits
decimal n = digits (suc n) n []

unfoldable pub alias_clause : Selection → Text
unfolding quote
alias_clause s =
    if not (s.alias == [])
    then text " AS " ++ quote s.alias
    else if s.representation == representation_source_text
    then text " AS " ++ quote s.field
    else []

unfoldable pub order_by_clause : ResourceRef → List Sort → Text
unfolding represented_field qualify_source_field
order_by_clause source [] = []
order_by_clause source (s ∷ sorts) =
    text " ORDER BY "
    ++ join_with (text ", ") (
        map
          (λ sort.
            represented_field (qualify_source_field source sort.field) sort.representation true
            ++ text " "
            ++ to_upper sort.direction)
          (s ∷ sorts))

group_by_clause : ResourceRef → List Text → Text
unfolding qualify_source_field
group_by_clause source [] = []
group_by_clause source (field ∷ fields) =
    text " GROUP BY " ++ join_with (text ", ") (map (qualify_source_field source) (field ∷ fields))

unfoldable pub where_clause : Codec → Option Filter → Compiled
unfolding compile_filter
where_clause codec none = ok ([], [])
where_clause codec (some f) = do
  compiled ← compile_filter codec f
  ok (text " WHERE " ++ compiled.0, compiled.1)

-- An expression of the projection of `compile`: a field or an aggregate function.
unfoldable pub explain_expression : Selection → Text
unfolding represented_field quote alias_clause
explain_expression s =
    (if s.kind == "field"
      then represented_field (quote s.field) s.representation false
      else to_upper s.function
        ++ text "("
        ++ (if s.field == [] then text "*" else quote s.field)
        ++ text ")")
    ++ alias_clause s

-- An expression of the projection of `compileSelect`: a qualified field.
unfoldable pub select_expression : ResourceRef → Selection → Text
unfolding represented_field qualify_source_field alias_clause
select_expression source s =
    represented_field (qualify_source_field source s.field) s.representation false ++ alias_clause s

unfoldable pub compile : Codec → NormalizedSpec → ℕ → Compiled
unfolding where_clause group_by_clause order_by_clause explain_expression quote decimal
compile codec spec deadline_ms = do
  compiled ← where_clause codec spec.where_filter
  ok (
    text "EXPLAIN FORMAT=JSON SELECT /*+ MAX_EXECUTION_TIME("
        ++ decimal deadline_ms
        ++ text ") */ "
        ++ join_with (text ", ") (map explain_expression spec.projection)
        ++ text " FROM "
        ++ quote spec.source.schema
        ++ text "."
        ++ quote spec.source.name
        ++ compiled.0
        ++ group_by_clause spec.source spec.group_by
        ++ order_by_clause spec.source spec.order_by
        ++ text " LIMIT ? OFFSET ?",
    compiled.1 ++ int spec.limit ∷ int spec.offset ∷ [],
  )

unfoldable pub compile_select : Codec → NormalizedSpec → ℕ → ℕ → Compiled
unfolding where_clause order_by_clause select_expression quote decimal
compile_select codec spec deadline_ms row_limit = do
  compiled ← where_clause codec spec.where_filter
  ok (
    text "SELECT /*+ MAX_EXECUTION_TIME("
        ++ decimal deadline_ms
        ++ text ") */ "
        ++ join_with (text ", ") (map (select_expression spec.source) spec.projection)
        ++ text " FROM "
        ++ quote spec.source.schema
        ++ text "."
        ++ quote spec.source.name
        ++ compiled.0
        ++ order_by_clause spec.source spec.order_by
        ++ text " LIMIT ? OFFSET ?",
    compiled.1 ++ int row_limit ∷ int spec.offset ∷ [],
  )

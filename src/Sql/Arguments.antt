-- ===== src/Sql/Arguments.antt =====
-- What a well-formed filter compiles to.
use quordon.Prelude.{
  ℕ, ◌+◌, ◌≤◌, ◌≡◌, refl, sym, subst, ◌⊎◌, inl, inr, true, List, [], ◌∷◌, ◌++◌, map, ◌==◌,
  nat_has_eq, string_has_eq, length, length-append, lookup, All, Text, String, text, some, Result,
  ok, arith, Bool-cases, ==_iff,
}
use quordon.Queryspec.{
  Stats, PathPart, Filter, filter, Filters, nil, cons, TypedValue, Representation,
  representation_source_text,
}
use quordon.Queryspec.Value.{Codec, Bind}
use quordon.Queryspec.Predicates.{FilterLimits, validate_filter, Arity}
use quordon.Queryspec.Predicates.Counts.{
  IsWellFormed, AreWellFormed, a_predicate, a_group, none_left, one_more, Binds, Fits,
  parameter_count, parameter_counts,
}
use quordon.Queryspec.Predicates.Sound.{validate_filter_sound}
use quordon.Sql.{
  Compiled, quote, operators, join_more, join_with, source_text_expression, bind_values,
  bind_strings, compile_source_text, compile_predicate, compile_filter, compile_filters, to_upper,
}
use quordon.Sql.Placeholders.{
  holes, holes_append, holes-quote, holes-source_text, holes-placeholders, Form, operator_spelled,
}

-- A text and its arguments, of the given number: as many placeholders as arguments.
abbrev Compiles : Compiled → ℕ → Type 0
Compiles c n =
    (w : Text) × (args : List Bind) × (c ≡ ok (w, args))
    × (holes w ≡ length args)
    × (length args ≡ n)

module _ (codec : Codec) where
  bind_values_total :
      (r : Representation) (vs : List TypedValue)
      → All (Binds codec r) vs
      → (args : List Bind) × (bind_values codec vs ≡ ok args) × (length args ≡ length vs)
  unfolding bind_values
  bind_values_total r [] h = ([], refl, refl)
  bind_values_total r (v ∷ vs) (((b, bound), typed), others) =
      let (args, e, same) = bind_values_total r vs others in (b ∷ args, rw (bound, e), rw same)

  bind_strings_total :
      (vs : List TypedValue)
      → All (Binds codec representation_source_text) vs
      → (args : List Bind) × (bind_strings codec vs ≡ ok args) × (length args ≡ length vs)
  unfolding bind_strings
  bind_strings_total [] h = ([], refl, refl)
  bind_strings_total (v ∷ vs) (((b, bound), typed), others) =
      let (args, e, same) = bind_strings_total vs others in
      let is_string : (v.type == "string") ≡ true = elim typed [
        | inl other ↦ absurd (other refl)
        | inr string ↦ (==_iff v.type "string").1 string
      ] in
      (b ∷ args, rw (is_string, bound, e), rw same)

  module _ (op : String) (t : Text) (found : lookup op operators ≡ some t) (none_in : holes t ≡ 0)
      (vs : List TypedValue) (args : List Bind) (same : length args ≡ length vs) (column : Text)
      (plain : holes column ≡ 0) where
    predicate_at :
        (arity : Arity)
        → Fits arity (length vs)
        → Form op arity
        → bind_values codec vs ≡ ok args
        → Compiles (compile_predicate codec op column vs) (length vs)
    unfolding compile_predicate
    predicate_at arity fits (inl (e, null)) bound = (
      column ++ text " " ++ t,
      [],
      rw (compile_predicate, found, null),
      grind (arith, holes_append),
      sym (subst (λ a. Fits a (length vs)) e fits),
    )
    predicate_at arity fits (inr (inl (e, not_null, list))) bound =
        let marks : Text = join_with (text ", ") (map (λ _. text "?") args) in
        (
          column ++ text " " ++ t ++ text " (" ++ marks ++ text ")",
          args,
          rw (compile_predicate, found, not_null, bound, list),
          grind (arith, holes_append, holes-placeholders (text "?") refl args),
          same,
        )
    predicate_at arity fits (inr (inr (e, not_null, no_list))) bound =
        let one : length vs ≡ 1 = subst (λ a. Fits a (length vs)) e fits in
        (
          column ++ text " " ++ t ++ text " ?",
          args,
          rw (compile_predicate, found, not_null, bound, no_list),
          grind (arith, holes_append),
          same,
        )

    source_text_at :
        (arity : Arity)
        → Fits arity (length vs)
        → Form op arity
        → bind_strings codec vs ≡ ok args
        → Compiles (compile_source_text codec op column vs) (length vs)
    unfolding compile_source_text
    source_text_at arity fits (inl (e, null)) bound =
        let cast = holes-source_text column plain in
        (
          source_text_expression column true ++ text " " ++ t,
          [],
          rw (compile_source_text, found, null),
          grind (arith, holes_append),
          sym (subst (λ a. Fits a (length vs)) e fits),
        )
    source_text_at arity fits (inr (inl (e, not_null, list))) bound =
        let cast = holes-source_text column plain in
        let marks : Text = join_with (text ", ") (map (λ _. text "CAST(? AS BINARY)") args) in
        (
          source_text_expression column true ++ text " " ++ t ++ text " (" ++ marks ++ text ")",
          args,
          rw (compile_source_text, found, not_null, bound, list),
          grind (arith, holes_append, holes-placeholders (text "CAST(? AS BINARY)") refl args),
          same,
        )
    source_text_at arity fits (inr (inr (e, not_null, no_list))) bound =
        let cast = holes-source_text column plain in
        let one : length vs ≡ 1 = subst (λ a. Fits a (length vs)) e fits in
        let single : (length args == 1) ≡ true =
          (==_iff (length args) 1).1 (omega (arith, same, one)) in
        (
          source_text_expression column true
              ++ text " "
              ++ t
              ++ text " "
              ++ text "CAST(? AS BINARY)",
          args,
          rw (compile_source_text, found, not_null, bound, no_list, single),
          grind (arith, holes_append),
          same,
        )

  -- The texts and arguments of the expressions of a group.
  abbrev CompilesAll : Result String (List Text × List Bind) → ℕ → Type 0
  CompilesAll c n =
      (ws : List Text) × (args : List Bind) × (c ≡ ok (ws, args))
      × ((sep : Text) → holes sep ≡ 0 → holes (join_more sep ws) ≡ length args)
      × ((sep : Text) → holes sep ≡ 0 → holes (join_with sep ws) ≡ length args)
      × (length args ≡ n)

  conjunction_plain :
      (op : String) → (op ≡ "and") ⊎ (op ≡ "or") → holes (text " " ++ to_upper op ++ text " ") ≡ 0
  conjunction_plain op (inl e) = rw e
  conjunction_plain op (inr e) = rw e

  mutual
    unfolding compile_filter compile_filters parameter_count parameter_counts

    pub filter-Compiles :
        (f : Filter) → IsWellFormed codec f → Compiles (compile_filter codec f) (parameter_count f)
    filter-Compiles (filter r kind field op (some vs) es)
          (a_predicate {arity = arity} is_predicate _ _ _ portable known fits typed) =
        let (t, found, none_in, form) = operator_spelled op arity known in
        let plain = holes-quote field portable in
        elim (Bool-cases (r == representation_source_text)) [
          | inl source ↦
              let source_typed =
                subst (λ r. All (Binds codec r) vs) ((==_iff r _).0 source) typed in
              let (args, bound, same) = bind_strings_total vs source_typed in
              rw (source, is_predicate)
                (source_text_at op t found none_in vs args same (quote field) plain arity fits form
                  bound)
          | inr other ↦
              let (args, bound, same) = bind_values_total r vs typed in
              rw (other, is_predicate)
                (predicate_at op t found none_in vs args same (quote field) plain arity fits form
                  bound)
        ]
    filter-Compiles (filter r kind field op values es)
          (a_group is_group no_representation _ _ conjunction _ _ wfs) =
        let (ws, args, e, _, joined, same) = filters-Compiles es wfs in
        let sep : Text = text " " ++ to_upper op ++ text " " in
        let inside = joined sep (conjunction_plain op conjunction) in
        rw (no_representation, is_group, e)
          (text "(" ++ join_with sep ws ++ text ")", args, refl, grind (arith, holes_append), same)

    filters-Compiles :
        (fs : Filters)
        → AreWellFormed codec fs
        → CompilesAll (compile_filters codec fs) (parameter_counts fs)
    filters-Compiles nil none_left = ([], [], refl, λ sep h. refl, λ sep h. refl, refl)
    filters-Compiles (cons f fs) (one_more wf wfs) =
        let (w, args, e, marks, same) = filter-Compiles f wf in
        let (ws, others, es, more, _, sames) = filters-Compiles fs wfs in
        (
          w ∷ ws,
          args ++ others,
          rw (e, es),
          λ sep h. let rest = more sep h in grind (arith, holes_append, length-append args others),
          λ sep h. let rest = more sep h in grind (arith, holes_append, length-append args others),
          omega (arith, length-append args others),
        )

-- A filter that the validation accepts, with counts that begin within the limits, compiles; its text
-- has one placeholder for each argument, and the arguments are as many as the parameters that the
-- validation counted.
pub compile_filter-validate_filter :
    (codec : Codec) (limits : FilterLimits) (path : List PathPart) (f : Filter) (depth : ℕ)
    (s s' : Stats)
    → s.predicates ≤ limits.max_predicates
    → s.parameters ≤ limits.max_parameters
    → validate_filter codec limits path f depth s ≡ ok s'
    → (w : Text) × (args : List Bind) × (compile_filter codec f ≡ ok (w, args))
      × (holes w ≡ length args)
      × (s.parameters + length args ≡ s'.parameters)
compile_filter-validate_filter codec limits path f depth s s' few small h =
    let (wf, (_, parameters, _), _, _, _) =
      validate_filter_sound codec limits path f depth s s' few small h in
    let (w, args, compiled, marks, same) = filter-Compiles codec f wf in
    (w, args, compiled, marks, omega (arith, parameters, same))

-- ===== src/Queryspec/Validate/Stable.antt =====
-- `Revalidate`: what it accepts, and how it composes with `Validate` and with itself.
use quordon.Prelude.{ℕ, min, ◌≤◌, ◌≡◌, ◌↔◌, true, ok, length, arith, ltb, if◌then◌else◌}
use quordon.Domain.{Limits, min_limits}
use quordon.Queryspec.{Spec, Validated}
use quordon.Queryspec.Value.{Codec}
use quordon.Queryspec.Validate.{validate, revalidate}
use quordon.Queryspec.Validate.Bounds.{IsWithin, validate_sound}

-- The same query with its row limit lowered to a bound.
abbrev pub limited : Validated → ℕ → Validated
limited q rows = record q { spec = record q.spec { limit = min q.spec.limit rows } }

-- Everything that `Revalidate` holds a query to.
pub record Admits (l : Limits) (q : Validated) : Type 0 where
  pub valid : q.valid ≡ true
  pub projection : length q.spec.projection ≤ l.max_projection_fields
  pub group_by : length q.spec.group_by ≤ l.max_group_by_fields
  pub order_by : length q.spec.order_by ≤ l.max_order_by_fields
  pub predicates : q.stats.predicates ≤ l.max_predicates
  pub expression_depth : q.stats.expression_depth ≤ l.max_expression_depth
  pub parameters : q.stats.parameters ≤ l.max_parameters
  pub offset : q.spec.offset ≤ l.max_offset
  pub rows : 1 ≤ l.max_rows

admitted : (q : Validated) (l : Limits) → Admits l q → revalidate q l ≡ ok (limited q l.max_rows)
unfolding revalidate
admitted q l a = ground arith

pub revalidate_sound :
    (q : Validated) (l : Limits) (q' : Validated)
    → revalidate q l ≡ ok q'
    → Admits l q × (q' ≡ limited q l.max_rows)
unfolding revalidate
revalidate_sound q l q' h = (ground arith, ground arith)

-- `Revalidate` accepts exactly the valid queries that lie within the limits, the row limit aside,
-- if that limit is at least 1; it changes nothing but the row limit, which it lowers to the bound.
pub revalidate_iff :
    (q : Validated) (l : Limits) (q' : Validated)
    → (revalidate q l ≡ ok q') ↔ Admits l q × (q' ≡ limited q l.max_rows)
revalidate_iff q l q' = (revalidate_sound q l q', λ (a, e). rw e (admitted q l a))

-- A query that `Validate` accepted under limits with at least one row is accepted unchanged by
-- `Revalidate` under the same limits.
pub revalidate-validate :
    (codec : Codec) (spec : Spec) (l : Limits) (q : Validated)
    → 1 ≤ l.max_rows
    → validate codec spec l ≡ ok q
    → revalidate q l ≡ ok q
unfolding revalidate
revalidate-validate codec spec l q rows h =
    let (valid, within, _, _) = validate_sound codec spec l q h in
    let w : IsWithin l q = within in ground arith

-- A test that one limit passes is, under the least of two, the test of the other.
ltb-min : (n a b : ℕ) → n ≤ a → ltb (min a b) n ≡ ltb b n
ltb-min n a b h = ground arith

least :
    (n a b : ℕ)
    → (if ltb (min a b) n then min a b else n) ≡ (if ltb b (min n a) then b else min n a)
least n a b = ground arith

-- To check under one set of limits and then under another is to check under the least of both.
pub revalidate-revalidate :
    (q : Validated) (a b : Limits) (q' : Validated)
    → revalidate q a ≡ ok q'
    → revalidate q' b ≡ revalidate q (min_limits a b)
unfolding revalidate min_limits
revalidate-revalidate q a b q' h =
    let (w, e) = revalidate_sound q a q' h in
    rw (
      e,
      ltb-min _ _ b.max_projection_fields w.projection,
      ltb-min _ _ b.max_group_by_fields w.group_by,
      ltb-min _ _ b.max_order_by_fields w.order_by,
      ltb-min _ _ b.max_predicates w.predicates,
      ltb-min _ _ b.max_expression_depth w.expression_depth,
      ltb-min _ _ b.max_parameters w.parameters,
      ltb-min _ _ b.max_offset w.offset,
      ltb-min _ _ b.max_rows w.rows,
      least q.spec.limit a.max_rows b.max_rows,
    )

-- ===== src/Domain/Meet.antt =====
-- internal/domain/domain.go `Limits.Min` against the order of limits.
use quordon.Prelude.{◌≤◌, ◌↔◌, arith}
use quordon.Domain.{Limits, min_limits}

-- No limit of the first is looser than that of the second.
pub record Within (a b : Limits) : Type 0 where
  pub deadline_ms : a.deadline_ms ≤ b.deadline_ms
  pub max_request_bytes : a.max_request_bytes ≤ b.max_request_bytes
  pub max_projection_fields : a.max_projection_fields ≤ b.max_projection_fields
  pub max_group_by_fields : a.max_group_by_fields ≤ b.max_group_by_fields
  pub max_order_by_fields : a.max_order_by_fields ≤ b.max_order_by_fields
  pub max_predicates : a.max_predicates ≤ b.max_predicates
  pub max_expression_depth : a.max_expression_depth ≤ b.max_expression_depth
  pub max_parameters : a.max_parameters ≤ b.max_parameters
  pub max_rows : a.max_rows ≤ b.max_rows
  pub max_result_bytes : a.max_result_bytes ≤ b.max_result_bytes
  pub max_offset : a.max_offset ≤ b.max_offset
  pub max_concurrency : a.max_concurrency ≤ b.max_concurrency

pub min_limits-Within_left : (a b : Limits) → Within (min_limits a b) a
unfolding min_limits
min_limits-Within_left a b = omega arith

pub min_limits-Within_right : (a b : Limits) → Within (min_limits a b) b
unfolding min_limits
min_limits-Within_right a b = omega arith

-- Limits are within the minimum of two sets of limits exactly if they are within each of the two.
pub min_limits_iff : (a b c : Limits) → Within c (min_limits a b) ↔ (Within c a × Within c b)
unfolding min_limits
min_limits_iff a b c = ((λ h. (omega arith, omega arith)), (λ (h, k). omega arith))

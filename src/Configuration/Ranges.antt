-- ===== src/Configuration/Ranges.antt =====
-- internal/config/config.go: what accepted limits and patterns are, and that bindings keep to them.
use quordon.Prelude.{
  ℕ, ◌≡◌, ◌≤◌, ◌↔◌, ◌∙◌, ◌⊎◌, inl, inr, refl, ap, Bool-cases, true, false, not, ◌&&◌, List, [], ◌∷◌,
  ◌++◌, ◌==◌, ==_iff, nat_has_eq, text_has_eq, string_has_eq, length, All, Text, text, String, some,
  lookup, ok, arith, split,
}
use quordon.Domain.{Limits, Operation, min_limits}
use quordon.Domain.Meet.{Within, min_limits-Within_left, min_limits-Within_right}
use quordon.Queryspec.Identifier.{identifier_pattern}
use quordon.Policy.{Snapshot, Profile, PatternPolicy, AuthorizedBinding}
use quordon.Policy.Binding.{authorize_binding}
use quordon.Policy.Binding.Route.{authorize_binding_iff}
use quordon.Configuration.{
  LimitValue, limit_values, check_values, validate_limits, valid_portable_identifier, check_parts,
  check_patterns, validate_patterns,
}

abbrev IsInRange : LimitValue → Type 0
IsInRange item = (item.minimum ≤ item.value) × (item.value ≤ item.maximum)

-- The ranges that the service supports.
pub record IsSupported (l : Limits) : Type 0 where
  pub deadline_ms : (1 ≤ l.deadline_ms) × (l.deadline_ms ≤ 300000)
  pub max_request_bytes : (1 ≤ l.max_request_bytes) × (l.max_request_bytes ≤ 16777216)
  pub max_projection_fields : (1 ≤ l.max_projection_fields) × (l.max_projection_fields ≤ 100)
  pub max_group_by_fields : (1 ≤ l.max_group_by_fields) × (l.max_group_by_fields ≤ 100)
  pub max_order_by_fields : (1 ≤ l.max_order_by_fields) × (l.max_order_by_fields ≤ 100)
  pub max_predicates : (1 ≤ l.max_predicates) × (l.max_predicates ≤ 10000)
  pub max_expression_depth : (1 ≤ l.max_expression_depth) × (l.max_expression_depth ≤ 64)
  pub max_parameters : (2 ≤ l.max_parameters) × (l.max_parameters ≤ 10000)
  pub max_rows : (1 ≤ l.max_rows) × (l.max_rows ≤ 1000000)
  pub max_result_bytes : (1 ≤ l.max_result_bytes) × (l.max_result_bytes ≤ 16777216)
  pub max_offset : l.max_offset ≤ 1000000000
  pub max_concurrency : (1 ≤ l.max_concurrency) × (l.max_concurrency ≤ 1024)

check_values_iff :
    (path : String) (items : List LimitValue)
    → (check_values path items ≡ ok tt) ↔ All IsInRange items
unfolding check_values
check_values_iff path [] = (λ _. tt, λ _. refl)
check_values_iff path (item ∷ items) = ground (arith, check_values_iff path items)

-- The limits are accepted exactly if each of them is in the range that the service supports.
pub validate_limits_iff :
    (path : String) (l : Limits) → (validate_limits path l ≡ ok tt) ↔ IsSupported l
unfolding validate_limits
validate_limits_iff path l =
    let table = check_values_iff path (limit_values l) in
    (λ h. let ranges = table.0 h in omega arith, λ s. table.1 (omega arith))

min_limits-IsSupported :
    (a b : Limits) → IsSupported a → IsSupported b → IsSupported (min_limits a b)
unfolding min_limits
min_limits-IsSupported a b h k = omega arith

-- A binding of a snapshot whose hard limits, and the limits of the profile, were accepted carries limits
-- that would be accepted, and that are no looser than either.
pub validate_limits-authorize_binding :
    (s : Snapshot) (principal profile datasource : String) (operation : Operation)
    (b : AuthorizedBinding) (p : Profile) (path : String)
    → authorize_binding s principal profile datasource operation ≡ ok b
    → lookup profile s.profiles ≡ some p
    → validate_limits "hard_limits" s.hard_limits ≡ ok tt
    → validate_limits path p.limits ≡ ok tt
    → (validate_limits path b.limits ≡ ok tt)
      × Within b.limits s.hard_limits
      × Within b.limits p.limits
validate_limits-authorize_binding s principal profile datasource operation b p path bound found hard
      soft =
    let (q, routes, e) =
      (authorize_binding_iff s principal profile datasource operation b).0 bound in
    let same : q ≡ p = cc (routes.configured, found) in
    let limits : b.limits ≡ min_limits s.hard_limits p.limits =
      ap (λ (x : AuthorizedBinding). x.limits) e
      ∙ ap (λ (x : Profile). min_limits s.hard_limits x.limits) same in
    let supported =
      min_limits-IsSupported s.hard_limits p.limits
        ((validate_limits_iff "hard_limits" s.hard_limits).0 hard)
        ((validate_limits_iff path p.limits).0 soft) in
    rw limits (
      (validate_limits_iff path (min_limits s.hard_limits p.limits)).1 supported,
      min_limits-Within_left s.hard_limits p.limits,
      min_limits-Within_right s.hard_limits p.limits,
    )

-- A segment of a pattern: any name, or a portable identifier.
abbrev pub IsSegment : Text → Type 0
IsSegment part = (part ≡ text "*") ⊎ ((length part ≤ 128) × (identifier_pattern part ≡ true))

abbrev pub IsPattern : ℕ → Text → Type 0
IsPattern segments pattern =
    (length (split pattern b'.') ≡ segments) × All IsSegment (split pattern b'.')

part_iff :
    (part : Text)
    → ((not (part == text "*") && not (valid_portable_identifier part)) ≡ false) ↔ IsSegment part
part_iff part = elim (Bool-cases (part == text "*")) [
  | inl any_name ↦ (λ _. inl ((==_iff part (text "*")).0 any_name), λ _. rw any_name refl)
  | inr other ↦ (
    (λ h. inr (ground arith)),
    (λ h. elim h [
      | inl same ↦ rw ((==_iff part (text "*")).1 same) refl
      | inr portable ↦ ground arith
    ]),
  )
]

check_parts_iff :
    (pattern : Text) (parts : List Text) → (check_parts pattern parts ≡ ok tt) ↔ All IsSegment parts
unfolding check_parts
check_parts_iff pattern [] = (λ _. tt, λ _. refl)
check_parts_iff pattern (part ∷ parts) =
    ground (arith, part_iff part, check_parts_iff pattern parts)

check_patterns_iff :
    (segments : ℕ) (patterns : List Text)
    → (check_patterns segments patterns ≡ ok tt) ↔ All (IsPattern segments) patterns
unfolding check_patterns
check_patterns_iff segments [] = (λ _. tt, λ _. refl)
check_patterns_iff segments (pattern ∷ patterns) =
    ground
      (arith, check_parts_iff pattern (split pattern b'.'), check_patterns_iff segments patterns)

All-append : (P : Text → Type 0) (xs ys : List Text) → All P (xs ++ ys) ↔ (All P xs × All P ys)
All-append P [] ys = (λ h. (tt, h), λ (_, h). h)
All-append P (x ∷ xs) ys =
    let rest = All-append P xs ys in
    (
      (λ (first, h). let (a, b) = rest.0 h in ((first, a), b)),
      (λ ((first, a), b). (first, rest.1 (a, b))),
    )

-- A pattern policy is accepted exactly if each of its patterns, those that allow and those that deny,
-- has as many segments as wanted, each of them `*` or a portable identifier.
pub validate_patterns_iff :
    (policy : PatternPolicy) (segments : ℕ)
    → (validate_patterns policy segments ≡ ok tt)
      ↔ (All (IsPattern segments) policy.allow × All (IsPattern segments) policy.deny)
unfolding validate_patterns
validate_patterns_iff policy segments =
    let checked = check_patterns_iff segments (policy.allow ++ policy.deny) in
    let both = All-append (IsPattern segments) policy.allow policy.deny in
    ((λ h. both.0 (checked.0 h)), (λ h. checked.1 (both.1 h)))

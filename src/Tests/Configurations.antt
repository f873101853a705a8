-- ===== src/Tests/Configurations.antt =====
-- The theorems on checks of the configuration, applied.
use quordon.Prelude.{◌≡◌, ◌↔◌, refl, All, [], ◌∷◌, text, ok}
use quordon.Domain.{min_limits, operation_select}
use quordon.Domain.Meet.{Within}
use quordon.Policy.Binding.{authorize_binding, assigned_profile}
use quordon.Configuration.{check_values, validate_limits, validate_patterns}
use quordon.Configuration.Ranges.{
  IsSupported, IsPattern, validate_limits_iff, validate_limits-authorize_binding,
  validate_patterns_iff,
}
use quordon.Tests.{limits, no_secrets, profile, snapshot, binding}

accepted : validate_limits "hard_limits" limits ≡ ok tt
unfolding validate_limits check_values
accepted = refl

minted_here :
    authorize_binding snapshot "ann" "reader" "main" operation_select
    ≡ ok (binding operation_select)
unfolding authorize_binding assigned_profile min_limits
minted_here = refl

validate_limits_iff_example : (validate_limits "hard_limits" limits ≡ ok tt) ↔ IsSupported limits
validate_limits_iff_example = validate_limits_iff "hard_limits" limits

validate_limits-authorize_binding_example :
    (validate_limits "hard_limits" limits ≡ ok tt) × Within limits limits × Within limits limits
validate_limits-authorize_binding_example =
    validate_limits-authorize_binding snapshot "ann" "reader" "main" operation_select
      (binding operation_select) profile "hard_limits" minted_here refl accepted accepted

validate_patterns_iff_example : (validate_patterns no_secrets 3 ≡ ok tt) ↔ (
    All (IsPattern 3) (text "app.users.*" ∷ []) × All (IsPattern 3) (text "app.users.secret" ∷ []))
validate_patterns_iff_example = validate_patterns_iff no_secrets 3

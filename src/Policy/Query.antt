-- ===== src/Policy/Query.antt =====
-- internal/policy/policy.go `authorizeQuery` behind `AuthorizeExplain` and `AuthorizeSelect`.
pub mod Grant
use quordon.Prelude.{
  Bool, true, false, not, ◌&&◌, ◌||◌, List, [], ◌∷◌, ◌==◌, string_has_eq, Text, all, if◌then◌else◌,
  Result, ok, err, ◌>>=◌, ◌>>◌, fail_if,
}
use quordon.Domain.{
  Operation, IdentifierSemantics, min_limits, operation_select, operation_explain_select,
}
use quordon.Queryspec.{Checked, ResourceRef, Validated, NormalizedSpec}
use quordon.Queryspec.Validate.{revalidate, validate_simple_select}
use quordon.Policy.{
  Snapshot, Profile, ResourcePolicy, AuthorizedBinding, AuthorizedQuery, PolicyError, denial,
  invalid, denied_resource, denied_field,
}
use quordon.Policy.Patterns.{allowed}
use quordon.Policy.Binding.{profile_for_binding}
use quordon.Policy.Features.{referenced_fields, authorize_features}

-- A validation error passed on by the policy engine.
abbrev pub checked : {A : Type 0} → Checked A → Result PolicyError A
checked (ok a) = ok a
checked (err e) = err (invalid e)

-- Which segments of a name ignore the case of letters.
abbrev pub schema_cases : IdentifierSemantics → List Bool
schema_cases sem = sem.case_insensitive_schemas ∷ []

abbrev pub object_cases : IdentifierSemantics → List Bool
object_cases sem = sem.case_insensitive_schemas ∷ sem.case_insensitive_objects ∷ []

abbrev pub field_cases : IdentifierSemantics → List Bool
field_cases sem =
    sem.case_insensitive_schemas ∷ sem.case_insensitive_objects ∷ sem.case_insensitive_fields ∷ []

abbrev pub schema_allowed : ResourcePolicy → IdentifierSemantics → Text → Bool
schema_allowed r sem schema = allowed r.schemas (schema ∷ []) (schema_cases sem)

abbrev pub object_allowed : ResourcePolicy → IdentifierSemantics → Text → Text → Bool
object_allowed r sem schema object = allowed r.objects (schema ∷ object ∷ []) (object_cases sem)

abbrev pub field_allowed : ResourcePolicy → IdentifierSemantics → Text → Text → Text → Bool
field_allowed r sem schema object field =
    allowed r.fields (schema ∷ object ∷ field ∷ []) (field_cases sem)

-- The resource and the fields of a query under a profile.
unfoldable pub authorize_resources :
    ResourcePolicy → IdentifierSemantics → NormalizedSpec → Result PolicyError (Unit {0})
authorize_resources r sem spec = do
  fail_if
      (not (schema_allowed r sem spec.source.schema)
        || not (object_allowed r sem spec.source.schema spec.source.name))
      (denial denied_resource)
  fail_if
      (not (
        all (λ f. field_allowed r sem spec.source.schema spec.source.name f)
          (referenced_fields spec)))
      (denial denied_field)

-- The extra check of an executable select.
unfoldable pub check_operation : Operation → Validated → Result PolicyError (Unit {0})
check_operation operation query =
    if operation == operation_select then checked (validate_simple_select query) else ok tt

unfoldable pub authorize_query :
    Snapshot
    → AuthorizedBinding
    → Operation
    → Validated
    → IdentifierSemantics
    → Result PolicyError AuthorizedQuery
authorize_query s b operation query sem = do
  profile ← profile_for_binding s b operation
  let limits = min_limits s.hard_limits profile.limits
  revalidated ← checked (revalidate query limits)
  check_operation operation revalidated
  authorize_resources profile.resources sem revalidated.spec
  authorize_features profile.query revalidated.spec
  ok (record {
    principal = b.principal;
    profile = b.key.profile;
    datasource = b.key.datasource;
    operation = operation;
    limits = limits;
    query = revalidated;
  })

-- `AuthorizeExplain`
unfoldable pub authorize_explain :
    Snapshot
    → AuthorizedBinding
    → Validated
    → IdentifierSemantics
    → Result PolicyError AuthorizedQuery
authorize_explain s b query sem = authorize_query s b operation_explain_select query sem

-- `AuthorizeSelect`
unfoldable pub authorize_select :
    Snapshot
    → AuthorizedBinding
    → Validated
    → IdentifierSemantics
    → Result PolicyError AuthorizedQuery
authorize_select s b query sem = authorize_query s b operation_select query sem

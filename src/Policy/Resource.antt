-- ===== src/Policy/Resource.antt =====
-- internal/policy/policy.go: `authorizeSchema` behind `AuthorizeListObjects` and
-- `AuthorizeDescribeObject`, the tests of the token that it mints, and `AuthorizeObjectStatistics`.
-- The digest of the semantics generation (SHA-256 in hexadecimal) is a parameter.
pub mod Scope
use Prim.Native.String.{◌++◌}
use quordon.Prelude.{
  Bool, true, false, not, ◌&&◌, ◌||◌, List, [], ◌∷◌, ◌==◌, string_has_eq, text_has_eq, Text, String,
  to_lower, if◌then◌else◌, Result, ok, err, ◌>>=◌, ◌>>◌, fail_if,
}
use quordon.Domain.{
  Operation, IdentifierSemantics, Limits, min_limits, operation_list_objects,
  operation_describe_object, operation_describe_object_statistics,
}
use quordon.Queryspec.{ResourceRef}
use quordon.Queryspec.Identifier.{is_identifier}
use quordon.Policy.{
  Snapshot, Profile, AuthorizedBinding, AuthorizedSchema, PolicyError, denial, denied_operation,
  denied_resource,
}
use quordon.Policy.Binding.{profile_for_binding}
use quordon.Policy.Query.{schema_allowed, object_allowed, field_allowed}

-- The switch on the operation: which coordinates it takes.
unfoldable pub check_coordinates : Operation → ResourceRef → Result PolicyError (Unit {0})
check_coordinates operation resource =
    if operation == operation_list_objects
    then fail_if (not (is_identifier resource.schema) || not (resource.name == []))
        (denial denied_resource)
    else if operation == operation_describe_object
    then fail_if (not (is_identifier resource.schema) || not (is_identifier resource.name))
        (denial denied_resource)
    else err (denial denied_operation)

unfoldable pub authorize_schema :
    Snapshot
    → AuthorizedBinding
    → Operation
    → ResourceRef
    → IdentifierSemantics
    → Result PolicyError AuthorizedSchema
authorize_schema s b operation resource sem = do
  check_coordinates operation resource
  profile ← profile_for_binding s b operation
  fail_if (not (schema_allowed profile.resources sem resource.schema)) (denial denied_resource)
  fail_if
      (not (resource.name == [])
        && not (object_allowed profile.resources sem resource.schema resource.name))
      (denial denied_resource)
  ok (record {
    principal = b.principal;
    profile = b.key.profile;
    datasource = b.key.datasource;
    operation = operation;
    schema = resource.schema;
    object = resource.name;
    limits = min_limits s.hard_limits profile.limits;
    resources = profile.resources;
    semantics = sem;
  })

-- `AuthorizeListObjects`
unfoldable pub authorize_list_objects :
    Snapshot → AuthorizedBinding → Text → IdentifierSemantics → Result PolicyError AuthorizedSchema
authorize_list_objects s b schema sem =
    authorize_schema s b operation_list_objects (record { schema = schema; name = [] }) sem

-- `AuthorizeDescribeObject`
unfoldable pub authorize_describe_object :
    Snapshot
    → AuthorizedBinding
    → ResourceRef
    → IdentifierSemantics
    → Result PolicyError AuthorizedSchema
authorize_describe_object s b object sem = authorize_schema s b operation_describe_object object sem

unfoldable pub allows_object : AuthorizedSchema → Text → Bool
allows_object a object =
    if not (a.operation == operation_list_objects) || not (a.object == [])
    then false
    else object_allowed a.resources a.semantics a.schema object

unfoldable pub allows_field : AuthorizedSchema → Text → Bool
allows_field a field =
    if not (a.operation == operation_describe_object) || a.object == []
    then false
    else field_allowed a.resources a.semantics a.schema a.object field

-- `canonicalPolicyIdentifier`
unfoldable pub canonical_policy_identifier : Text → Bool → Text
canonical_policy_identifier value insensitive = if insensitive then to_lower value else value

pub record AuthorizedObjectStatistics : Type 0 where
  pub principal : String
  pub credential_identifier : String
  pub profile : String
  pub policy_version : String
  pub policy_hash : String
  pub datasource : String
  pub adapter : String
  pub operation : Operation
  pub schema : Text
  pub object : Text
  pub limits : Limits
  pub semantics : IdentifierSemantics
  pub semantics_generation : String

abbrev bool_text : Bool → String
bool_text true = "true"
bool_text false = "false"

abbrev zero_byte : String
zero_byte = "\0"

-- `generationInput`
generation_input : Snapshot → AuthorizedBinding → String → IdentifierSemantics → String
generation_input s b adapter sem =
    s.hash
    ++ zero_byte
    ++ b.key.profile
    ++ zero_byte
    ++ b.key.datasource
    ++ zero_byte
    ++ adapter
    ++ zero_byte
    ++ bool_text sem.case_insensitive_schemas
    ++ bool_text sem.case_insensitive_objects
    ++ bool_text sem.case_insensitive_fields

unfoldable pub authorize_object_statistics :
    (digest : String → String)
    → Snapshot
    → AuthorizedBinding
    → String
    → String
    → ResourceRef
    → IdentifierSemantics
    → Result PolicyError AuthorizedObjectStatistics
unfolding generation_input
authorize_object_statistics digest s b credential adapter resource sem = do
  fail_if (b.principal == "" || credential == "" || b.key.profile == "" || adapter == "")
      (denial denied_operation)
  fail_if (not (is_identifier resource.schema) || not (is_identifier resource.name))
      (denial denied_resource)
  profile ← profile_for_binding s b operation_describe_object_statistics
  fail_if
      (not (schema_allowed profile.resources sem resource.schema)
        || not (object_allowed profile.resources sem resource.schema resource.name))
      (denial denied_resource)
  ok (record {
    principal = b.principal;
    credential_identifier = credential;
    profile = b.key.profile;
    policy_version = s.version;
    policy_hash = s.hash;
    datasource = b.key.datasource;
    adapter = adapter;
    operation = operation_describe_object_statistics;
    schema = canonical_policy_identifier resource.schema sem.case_insensitive_schemas;
    object = canonical_policy_identifier resource.name sem.case_insensitive_objects;
    limits = min_limits s.hard_limits profile.limits;
    semantics = sem;
    semantics_generation = digest (generation_input s b adapter sem);
  })

-- ===== src/Tests/Policies.antt =====
-- The theorems on policies, applied.
use quordon.Prelude.{
  ◌≡◌, ◌≢◌, refl, ◌↔◌, true, false, [], ◌∷◌, Text, text, ok, In, text_eq, text_has_eq, split,
}
use quordon.Domain.{
  min_limits, Operation, operation_select, operation_list_objects, operation_describe_object,
}
use quordon.Queryspec.Identifier.{
  is_identifier, validate_identifier, identifier_pattern, identifier_byte,
}
use quordon.Policy.{Profile, AuthorizedQuery, AuthorizedSchema}
use quordon.Policy.Patterns.{match_part, match_parts, match, allowed}
use quordon.Policy.Patterns.Meaning.{Permits, allowed_iff}
use quordon.Policy.Binding.{assigned_profile, authorize_binding, profile_for_binding}
use quordon.Policy.Binding.Route.{
  Routes, Accepts, minted, authorize_binding_iff, minted_binding_accepted, minted_binding_only_here,
}
use quordon.Policy.Features.{authorize_features, referenced_fields}
use quordon.Policy.Features.Grants.{Grants, authorize_features_iff}
use quordon.Policy.Features.Fields.{Refers, IsOrdered, referenced_fields_lem}
use quordon.Policy.Query.{authorize_query}
use quordon.Policy.Query.Grant.{
  SchemaPermitted, ObjectPermitted, FieldPermitted, Granted, authorize_query_iff,
}
use quordon.Policy.Resource.{
  check_coordinates, authorize_schema, authorize_list_objects, authorize_describe_object,
  allows_object, allows_field,
}
use quordon.Policy.Resource.Scope.{list_objects_scope, describe_object_scope}
use quordon.Tests.{
  limits, source, validated, case_sensitive, no_secrets, profile, snapshot, binding,
}

abbrev query_token : AuthorizedQuery
query_token = record {
  principal = "ann";
  profile = "reader";
  datasource = "main";
  operation = operation_select;
  limits = limits;
  query = validated;
}

abbrev schema_token : Operation → Text → AuthorizedSchema
schema_token operation object = record {
  principal = "ann";
  profile = "reader";
  datasource = "main";
  operation = operation;
  schema = text "app";
  object = object;
  limits = limits;
  resources = profile.resources;
  semantics = case_sensitive;
}

minted_here :
    authorize_binding snapshot "ann" "reader" "main" operation_select
    ≡ ok (binding operation_select)
unfolding authorize_binding assigned_profile min_limits
minted_here = refl

accepted_here :
    profile_for_binding snapshot (binding operation_select) operation_select ≡ ok profile
unfolding profile_for_binding assigned_profile
accepted_here = refl

listed :
    authorize_list_objects snapshot (binding operation_list_objects) (text "app") case_sensitive
    ≡ ok (schema_token operation_list_objects [])
unfolding authorize_list_objects authorize_schema profile_for_binding assigned_profile
    check_coordinates is_identifier validate_identifier identifier_pattern identifier_byte allowed
    match match_parts match_part text_eq split min_limits
listed = refl

described :
    authorize_describe_object snapshot (binding operation_describe_object) source case_sensitive
    ≡ ok (schema_token operation_describe_object (text "users"))
unfolding authorize_describe_object authorize_schema profile_for_binding assigned_profile
    check_coordinates is_identifier validate_identifier identifier_pattern identifier_byte allowed
    match match_parts match_part text_eq split min_limits
described = refl

authorize_query_iff_example :
    (authorize_query snapshot (binding operation_select) operation_select validated case_sensitive
      ≡ ok query_token)
    ↔ Granted snapshot
        (binding operation_select)
        operation_select
        validated
        case_sensitive
        query_token
authorize_query_iff_example =
    authorize_query_iff snapshot (binding operation_select) operation_select validated
      case_sensitive query_token

allowed_iff_example :
    (allowed no_secrets (text "app" ∷ text "users" ∷ text "secret" ∷ []) (false ∷ false ∷ true ∷ [])
      ≡ true)
    ↔ Permits no_secrets
        (false ∷ false ∷ true ∷ [])
        (text "app" ∷ text "users" ∷ text "secret" ∷ [])
allowed_iff_example =
    allowed_iff no_secrets (text "app" ∷ text "users" ∷ text "secret" ∷ [])
      (false ∷ false ∷ true ∷ [])

authorize_binding_iff_example :
    (authorize_binding snapshot "ann" "reader" "main" operation_select
      ≡ ok (binding operation_select))
    ↔ ((p : Profile) × Routes snapshot "ann" "reader" "main" operation_select p
        × (binding operation_select ≡ minted snapshot "ann" "reader" "main" operation_select p))
authorize_binding_iff_example =
    authorize_binding_iff snapshot "ann" "reader" "main" operation_select (binding operation_select)

minted_binding_accepted_example :
    (p : Profile) × (profile_for_binding snapshot (binding operation_select) operation_select
      ≡ ok p)
    × (limits ≡ min_limits limits p.limits)
minted_binding_accepted_example =
    minted_binding_accepted snapshot "ann" "reader" "main" operation_select
      (binding operation_select) (λ e. cc) (λ e. cc) (λ e. cc) minted_here

minted_binding_only_here_example :
    (snapshot.address ≡ snapshot.address)
    × (snapshot.hash ≡ snapshot.hash)
    × (operation_select ≡ operation_select)
minted_binding_only_here_example =
    minted_binding_only_here snapshot "ann" "reader" "main" operation_select
      (binding operation_select) snapshot operation_select profile minted_here accepted_here

authorize_features_iff_example :
    (authorize_features profile.query validated.spec ≡ ok tt) ↔ Grants profile.query validated.spec
authorize_features_iff_example = authorize_features_iff profile.query validated.spec

referenced_fields_lem_example :
    (In (text "id") (referenced_fields validated.spec)
      ↔ (Refers (text "id") validated.spec × (text "id" ≢ [])))
    × IsOrdered (referenced_fields validated.spec)
referenced_fields_lem_example = referenced_fields_lem validated.spec (text "id")

list_objects_scope_example :
    (p : Profile) × Accepts snapshot (binding operation_list_objects) operation_list_objects p
    × SchemaPermitted p.resources case_sensitive (text "app")
    × ((allows_object (schema_token operation_list_objects []) (text "users") ≡ true)
        ↔ ObjectPermitted p.resources case_sensitive (text "app") (text "users"))
    × (allows_field (schema_token operation_list_objects []) (text "id") ≡ false)
list_objects_scope_example =
    list_objects_scope snapshot (binding operation_list_objects) (text "app") case_sensitive
      (schema_token operation_list_objects []) (text "users") (text "id") listed

describe_object_scope_example :
    (p : Profile) × Accepts snapshot (binding operation_describe_object) operation_describe_object p
    × SchemaPermitted p.resources case_sensitive (text "app")
    × ObjectPermitted p.resources case_sensitive (text "app") (text "users")
    × ((allows_field (schema_token operation_describe_object (text "users")) (text "id") ≡ true)
        ↔ FieldPermitted p.resources case_sensitive (text "app") (text "users") (text "id"))
    × (allows_object (schema_token operation_describe_object (text "users")) (text "users") ≡ false)
describe_object_scope_example =
    describe_object_scope snapshot (binding operation_describe_object) source case_sensitive
      (schema_token operation_describe_object (text "users")) (text "users") (text "id") described

-- ===== src/Service/Schemas/Answers.antt =====
-- internal/queryservice, `ListObjects` and `DescribeObject`: the whole run where nothing fails.
use quordon.Prelude.{
  ℕ, ◌≡◌, refl, string_has_eq, true, contains, List, [], ◌∷◌, length, Text, String, some, ok,
}
use quordon.Domain.{
  Operation, IdentifierSemantics, operation_list_objects, operation_describe_object,
}
use quordon.Queryspec.{ResourceRef}
use quordon.Policy.{AuthorizedBinding, AuthorizedSchema}
use quordon.Policy.Binding.{authorize_binding}
use quordon.Policy.Resource.{authorize_schema, authorize_list_objects, authorize_describe_object}
use quordon.Capacity.{Gates, acquire_capacity}
use quordon.Capacity.Release.{release_capacity-acquire_capacity}
use quordon.Encoding.{Utf8}
use quordon.Encoding.Metadata.{
  ObjectDescription, bounded_object_list_result, bounded_object_description_result,
}
use quordon.Database.{Failure, capabilities, identifier_semantics}
use quordon.Database
use quordon.Service.{
  Event, Happening, audited, asked, inspected, World, Environment, Caller, write_audit,
  with_capacity, observe, observe_identifier_semantics,
}
use quordon.Service.Stages.{
  allow_event, assigned_binding, require_supported, ask_semantics, authorized,
}
use quordon.Service.Schemas.{
  valid_schema_coordinates, column_fields, prepare_schema_operation, admit_schema,
  operation_completion, run_list_objects, run_describe_object, list_objects, describe_object,
}

module _ (env : Environment) (utf8 : Utf8) (caller : Caller) (profile datasource : String)
    (w : World) where
  -- Every step of a handler before the call succeeds, and the sink takes every event.
  pub record Admissible (op : Operation) (object : ResourceRef) (b : AuthorizedBinding)
      (sem : IdentifierSemantics) (token : AuthorizedSchema) (entered : Gates) : Type 0 where
    pub coordinates : valid_schema_coordinates op object.schema object.name ≡ true
    pub bound : authorize_binding env.policy caller.principal profile datasource op ≡ ok b
    pub supported : contains (capabilities env.databases b.key.datasource) b.operation ≡ true
    pub semantics : identifier_semantics env.databases (length w.trace) b.key.datasource ≡ ok sem
    pub granted : authorize_schema env.policy b op object sem ≡ ok token
    pub taken : (past : List Happening) (event : Event) → env.sink past event ≡ true
    pub room : acquire_capacity b.key w.gates ≡ (entered, true)

  module _ (b : AuthorizedBinding) (sem : IdentifierSemantics) (token : AuthorizedSchema)
      (g : Gates) where
    -- The world after the decision.
    abbrev pub decided : ResourceRef → World
    decided object = record {
      gates = w.gates;
      discoveries = observe b.key.datasource sem w.discoveries;
      trace =
          audited (allow_event env caller b "" (object ∷ []) []) true
          ∷ asked b.key.datasource
          ∷ w.trace;
    }

    -- The world at the end.
    abbrev pub finished : ResourceRef → Event → World
    finished object completion = record (decided object) {
      trace = audited completion true ∷ inspected token ∷ (decided object).trace;
    }

    prepared :
        (op : Operation) (object : ResourceRef)
        → Admissible op object b sem token g
        → prepare_schema_operation env utf8 caller profile datasource op object w ≡ (ok b, w)
    unfolding prepare_schema_operation assigned_binding require_supported
    prepared op object a = rw (a.coordinates, a.bound, a.supported) refl

    admitted :
        (op : Operation) (object : ResourceRef)
        → Admissible op object b sem token g
        → admit_schema env utf8 caller
            (λ b sem. authorize_schema env.policy b op object sem)
            b
            object
            w
          ≡ (ok token, decided object)
    unfolding admit_schema ask_semantics observe_identifier_semantics authorized write_audit
    admitted op object a =
        rw
          (
            a.semantics,
            a.granted,
            a.taken (asked b.key.datasource ∷ w.trace)
                (allow_event env caller b "" (object ∷ []) []),
          )
          refl

    -- Where the coordinates, the route, the adapter's capability, the policy engine, the capacity and the
    -- sink let it through, and the manager lists objects whose encoding is within the maximum,
    -- `list_objects` answers with them, and has done exactly this, in this order: asked for the
    -- semantics, had the decision taken by the sink, called the adapter, and had the completion taken by
    -- the sink; the gates are as they were.
    pub list_objects_lem :
        (schema : Text) (objects : List Text) (adapter : String) (size : ℕ)
        → Admissible operation_list_objects (record { schema = schema; name = [] }) b sem token g
        → Database.list_objects env.databases
            (length (decided (record { schema = schema; name = [] })).trace)
            token
          ≡ (ok objects, adapter)
        → bounded_object_list_result utf8 objects b.limits.max_result_bytes ≡ some size
        → list_objects env utf8 caller profile datasource schema w ≡ (
          ok objects,
          finished
              (record { schema = schema; name = [] })
              (record (operation_completion env utf8 caller b adapter
                (record { schema = schema; name = [] })
                []) {
                  outcome = "success";
                  result_bytes = size;
                  metadata = ("object_count", length objects) ∷ [];
                }),
        )
    unfolding list_objects authorize_list_objects with_capacity run_list_objects write_audit
    list_objects_lem schema objects adapter size a came sized =
        let completion =
          record (operation_completion env utf8 caller b adapter
            (record { schema = schema; name = [] }) []) {
              outcome = "success";
              result_bytes = size;
              metadata = ("object_count", length objects) ∷ [];
            } in
        rw
          (
            prepared operation_list_objects (record { schema = schema; name = [] }) a,
            admitted operation_list_objects (record { schema = schema; name = [] }) a,
            a.room,
            came,
            sized,
            a.taken (inspected token ∷ (decided (record { schema = schema; name = [] })).trace)
                completion,
            release_capacity-acquire_capacity b.key w.gates g a.room,
          )
          refl

    -- Where the coordinates, the route, the adapter's capability, the policy engine, the capacity and the
    -- sink let it through, and the manager describes an object in an encoding within the maximum,
    -- `describe_object` answers with it, and has done exactly this, in this order: asked for the
    -- semantics, had the decision taken by the sink, called the adapter, and had the completion taken by
    -- the sink; the gates are as they were.
    pub describe_object_lem :
        (object : ResourceRef) (description : ObjectDescription) (adapter : String) (size : ℕ)
        → Admissible operation_describe_object object b sem token g
        → Database.describe_object env.databases (length (decided object).trace) token
          ≡ (ok description, adapter)
        → bounded_object_description_result utf8 description b.limits.max_result_bytes ≡ some size
        → describe_object env utf8 caller profile datasource object w ≡ (
          ok description,
          finished object
              (record (operation_completion env utf8 caller b adapter object
                (column_fields description.columns)) {
                  outcome = "success";
                  result_bytes = size;
                  metadata = ("column_count", length description.columns) ∷ [];
                }),
        )
    unfolding describe_object authorize_describe_object with_capacity run_describe_object
        write_audit
    describe_object_lem object description adapter size a came sized =
        let completion =
          record (operation_completion env utf8 caller b adapter object
            (column_fields description.columns)) {
              outcome = "success";
              result_bytes = size;
              metadata = ("column_count", length description.columns) ∷ [];
            } in
        rw
          (
            prepared operation_describe_object object a,
            admitted operation_describe_object object a,
            a.room,
            came,
            sized,
            a.taken (inspected token ∷ (decided object).trace) completion,
            release_capacity-acquire_capacity b.key w.gates g a.room,
          )
          refl

-- ===== src/Service/Schemas/Safe.antt =====
-- internal/queryservice, `ListObjects` and `DescribeObject`: what their answers show.
use quordon.Prelude.{◌≡◌, refl, ap, string_has_eq, List, [], Text, String, Result, ok}
use quordon.Domain.{
  operation_list_objects, operation_describe_object, Operation, IdentifierSemantics,
}
use quordon.Queryspec.{ResourceRef}
use quordon.Policy.{PolicyError, AuthorizedBinding, AuthorizedSchema}
use quordon.Policy.Binding.{authorize_binding}
use quordon.Policy.Binding.Route.{authorize_binding_iff}
use quordon.Policy.Resource.{authorize_schema}
use quordon.Capacity.{Gates}
use quordon.Encoding.{Utf8}
use quordon.Policy.Resource.{authorize_list_objects, authorize_describe_object}
use quordon.Encoding.Metadata.{bounded_object_list_result, bounded_object_description_result}
use quordon.Service.{Happening, World, Environment, Caller, M, ◌>>=◌, with_capacity}
use quordon.Service.Discipline.{IsDisciplined, Settles}
use quordon.Service.Triples.{Triple, Invariant, Outcome, Triple->>=, Triple-with_capacity}
use quordon.Service.Schemas.{
  prepare_schema_operation, admit_schema, run_list_objects, run_describe_object, list_objects,
  describe_object,
}
use quordon.Service.Schemas.Ready.{Ready, prepare_schema_operation-Bound, admit_schema-Ready}
use quordon.Service.Schemas.Shown.{Answered, ObjectsShown, ColumnsShown}
use quordon.Service.Schemas.Completed.{
  ListPost, DescribePost, run_list_objects-Answered, run_describe_object-Answered,
}

module _ (env : Environment) (utf8 : Utf8) (caller : Caller) where
  module _ (g : Gates) where
    -- From the preparation on.
    bound_schema :
        {A : Type 0} (op : Operation) (object : ResourceRef) (profile datasource : String)
        (authorize : AuthorizedBinding → IdentifierSemantics → Result PolicyError AuthorizedSchema)
        (call : AuthorizedBinding → AuthorizedSchema → M A) (Q : A → List Happening → Type 0)
        → ((b : AuthorizedBinding) (sem : IdentifierSemantics)
            → authorize b sem ≡ authorize_schema env.policy b op object sem)
        → ((h : Gates) (b : AuthorizedBinding) (token : AuthorizedSchema)
            → authorize_binding env.policy caller.principal profile datasource op ≡ ok b
            → Triple
                (Invariant (Ready env utf8 caller op object b token) h)
                (call b token)
                (λ a after. Invariant (IsDisciplined env) h after × Q a after.trace)
                (Invariant (IsDisciplined env) h))
        → Triple
            (Invariant (IsDisciplined env) g)
            (prepare_schema_operation env utf8 caller profile datasource op object >>= λ b.
              admit_schema env utf8 caller authorize b object >>= λ token.
              with_capacity b.key (call b token))
            (λ a after. Invariant (IsDisciplined env) g after × Q a after.trace)
            (Invariant (IsDisciplined env) g)
    bound_schema op object profile datasource authorize call Q calls serves =
        Triple->>= (prepare_schema_operation-Bound env utf8 caller op object g profile datasource)
          (λ b. record {
            run = λ w (p, bound).
                let route =
                  ((authorize_binding_iff env.policy caller.principal profile datasource op b).0
                    bound).2 in
                let named : b.principal ≡ caller.principal =
                  ap (λ (r : AuthorizedBinding). r.principal) route in
                let asked_for : b.operation ≡ op =
                  ap (λ (r : AuthorizedBinding). r.operation) route in
                (Triple->>=
                    (admit_schema-Ready env utf8 caller op object g authorize b (calls b) asked_for
                      named)
                    (λ token.
                      Triple-with_capacity (IsDisciplined env) g
                        (Ready env utf8 caller op object b token) b.key (call b token) Q
                        (λ past ready. ready.good) (λ h. serves h b token bound))).run
                  w p;
          })

module _ (env : Environment) (utf8 : Utf8) (caller : Caller) (profile datasource : String)
    (w : World) where
  -- From a disciplined world, `list_objects` leaves a disciplined one, with the gates as they were, also
  -- where it fails. Where it answers, the route is assigned to the caller, the profile permits the
  -- schema and each object listed, which is an identifier, under the semantics that the datasource gave,
  -- the last call was made with a schema token, and the sink took the completion, with success and the
  -- size that the answer has within the maximum of the binding.
  pub list_objects-Settles :
      (schema : Text)
      → IsDisciplined env w.trace
      → Outcome
          (λ objects after.
            Settles env w after
            × Answered env utf8 caller operation_list_objects profile datasource
                (ObjectsShown env utf8 caller schema)
                (bounded_object_list_result utf8)
                objects
                after.trace)
          (Settles env w)
          (list_objects env utf8 caller profile datasource schema w)
  unfolding list_objects authorize_list_objects ListPost
  list_objects-Settles schema p =
      (bound_schema env utf8 caller w.gates operation_list_objects
          (record { schema = schema; name = [] }) profile datasource
          (λ b semantics. authorize_list_objects env.policy b schema semantics)
          (λ b token.
            run_list_objects env utf8 caller b (record { schema = schema; name = [] }) token)
          (Answered env utf8 caller operation_list_objects profile datasource
            (ObjectsShown env utf8 caller schema) (bounded_object_list_result utf8))
          (λ b sem. refl)
          (λ h b token bound.
            run_list_objects-Answered env utf8 caller h schema b profile datasource token
              bound)).run
        w (p, refl)

  -- From a disciplined world, `describe_object` leaves a disciplined one, with the gates as they were,
  -- also where it fails. Where it answers, the route is assigned to the caller, the profile permits the
  -- schema, the object and each column shown, whose name is an identifier, under the semantics that the
  -- datasource gave, the last call was made with a schema token, and the sink took the completion, with
  -- success and the size that the answer has within the maximum of the binding.
  pub describe_object-Settles :
      (object : ResourceRef)
      → IsDisciplined env w.trace
      → Outcome
          (λ description after.
            Settles env w after
            × Answered env utf8 caller operation_describe_object profile datasource
                (ColumnsShown env utf8 caller object)
                (bounded_object_description_result utf8)
                description
                after.trace)
          (Settles env w)
          (describe_object env utf8 caller profile datasource object w)
  unfolding describe_object authorize_describe_object DescribePost
  describe_object-Settles object p =
      (bound_schema env utf8 caller w.gates operation_describe_object object profile datasource
          (λ b semantics. authorize_describe_object env.policy b object semantics)
          (λ b token. run_describe_object env utf8 caller b object token)
          (Answered env utf8 caller operation_describe_object profile datasource
            (ColumnsShown env utf8 caller object) (bounded_object_description_result utf8))
          (λ b sem. refl)
          (λ h b token bound.
            run_describe_object-Answered env utf8 caller h object b profile datasource token
              bound)).run
        w (p, refl)

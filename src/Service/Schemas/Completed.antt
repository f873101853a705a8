-- ===== src/Service/Schemas/Completed.antt =====
-- internal/queryservice, `ListObjects` and `DescribeObject` from the call on.
use quordon.Prelude.{
  ℕ, ◌≡◌, refl, string_has_eq, true, List, [], ◌∷◌, length, Text, String, Option, Option-cases,
  lookup, some, inl, inr, Result, ok, err,
}
use quordon.Domain.{
  operation_list_objects, operation_describe_object, Operation, IdentifierSemantics,
}
use quordon.Queryspec.{ResourceRef}
use quordon.Policy.{Profile, AuthorizedBinding, AuthorizedSchema}
use quordon.Policy.Binding.{authorize_binding}
use quordon.Capacity.{Gates}
use quordon.Encoding.{Utf8}
use quordon.Policy.Resource.{authorize_list_objects, authorize_describe_object}
use quordon.Encoding.Metadata.{
  ObjectDescription, bounded_object_list_result, bounded_object_description_result,
}
use quordon.Database.{Failure, of_kind, foreign, Answer}
use quordon.Database
use quordon.Database.Filtered.{list_objects-All, describe_object-All}
use quordon.Service.{
  ErrorKind, ServiceError, service_unavailable, Event, Happening, audited, inspected, World,
  Environment, Caller, note,
}
use quordon.Service.Discipline.{IsDisciplined}
use quordon.Service.Discipline.Steps.{completed, audited-IsDisciplined, asked-IsDisciplined}
use quordon.Service.Triples.{Triple, Invariant, Outcome}
use quordon.Service.Stages.{complete_error}
use quordon.Service.Stages.Keeps.{Triple-complete_error}
use quordon.Service.Schemas.{
  column_fields, unless_unavailable, not_found_instead, as_not_found, operation_completion, listed,
  run_list_objects, described, run_describe_object,
}
use quordon.Service.Schemas.Ready.{Ready}
use quordon.Service.Schemas.Shown.{
  Answered, ObjectsShown, ColumnsShown, list_shown, description_shown,
}

module _ (env : Environment) (utf8 : Utf8) (caller : Caller) where
  module _ (g : Gates) where
    -- The call itself is one that the discipline allows.
    called :
        (op : Operation) (object : ResourceRef) (b : AuthorizedBinding) (token : AuthorizedSchema)
        (w : World)
        → Invariant (Ready env utf8 caller op object b token) g w
        → Invariant (IsDisciplined env) g (note (inspected token) w)
    unfolding IsDisciplined
    called op object b token w (ready, same) = ((ready.covered, ready.good), same)

    -- A failure, after the call.
    failed :
        {A : Type 0} (completion : Event) (failure : Failure) (Q : A → World → Type 0) (w : World)
        → Invariant (IsDisciplined env) g w
        → Outcome Q
            (Invariant (IsDisciplined env) g)
            (complete_error env caller completion failure w)
    failed completion failure Q w p =
        (Triple-complete_error env caller (IsDisciplined env) g (audited-IsDisciplined env)
            (asked-IsDisciplined env) completion failure Q).run
          w p

    answered :
        {A : Type 0} (op : Operation) (object : ResourceRef) (b : AuthorizedBinding)
        (through at : String) (token : AuthorizedSchema) (past : List Happening)
        (Shows : Profile → IdentifierSemantics → A → Type 0) (size_of : A → ℕ → Option ℕ)
        (answer : A) (event : Event)
        → authorize_binding env.policy caller.principal through at op ≡ ok b
        → (ready : Ready env utf8 caller op object b token past)
        → ((p : Profile) × (lookup b.key.profile env.policy.profiles ≡ some p)
            × Shows p ready.semantics answer)
        → event.outcome ≡ "success"
        → size_of answer b.limits.max_result_bytes ≡ some event.result_bytes
        → Answered env utf8 caller op through at Shows size_of answer
            (audited event true ∷ inspected token ∷ past)
    answered op object b through at token past Shows size_of answer event bound ready
          (p, configured, shows) succeeded sized =
        record {
          b = b;
          bound = bound;
          assigned = p;
          configured = configured;
          semantics = ready.semantics;
          reported = ready.reported;
          shows = shows;
          token = token;
          event = event;
          older = past;
          trace = refl;
          outcome = succeeded;
          result_bytes = sized;
        }

    module _ (schema : Text) (b : AuthorizedBinding) (through at : String)
        (token : AuthorizedSchema)
        (bound : authorize_binding env.policy caller.principal through at operation_list_objects
          ≡ ok b) where
      unfoldable pub ListPost : List Text → World → Type 0
      ListPost a after =
          Invariant (IsDisciplined env) g after
          × Answered env utf8 caller operation_list_objects through at
              (ObjectsShown env utf8 caller schema) (bounded_object_list_result utf8) a after.trace

      listed-Answered :
          (w : World)
          → Invariant
              (Ready env utf8 caller operation_list_objects
                (record { schema = schema; name = [] })
                b
                token)
              g
              w
          → (r : Answer (List Text))
          → Database.list_objects env.databases (length w.trace) token ≡ r
          → Outcome ListPost (Invariant (IsDisciplined env) g) (
              listed env utf8 caller b
                (record { schema = schema; name = [] })
                r
                (note (inspected token) w))
      unfolding ListPost authorize_list_objects
      listed-Answered w p (err failure, adapter) came =
          let object : ResourceRef = record { schema = schema; name = [] } in
          failed (operation_completion env utf8 caller b adapter object []) failure ListPost
            (note (inspected token) w) (called operation_list_objects object b token w p)
      listed-Answered w (ready, same) (ok objects, adapter) came =
          let object : ResourceRef = record { schema = schema; name = [] } in
          let completion = operation_completion env utf8 caller b adapter object [] in
          let after = called operation_list_objects object b token w (ready, same) in
          elim (Option-cases (bounded_object_list_result utf8 objects b.limits.max_result_bytes)) [
            | inl large ↦ rw large (
                failed completion (of_kind Database.result_too_large) ListPost
                  (note (inspected token) w) after)
            | inr (size, sized) ↦
                let event = record completion {
                  outcome = "success";
                  result_bytes = size;
                  metadata = ("object_count", length objects) ∷ [];
                } in
                let allowed =
                  list_objects-All token env.databases (length w.trace) objects adapter came in
                rw sized (
                  completed env caller g event objects
                    (Answered env utf8 caller operation_list_objects through at
                      (ObjectsShown env utf8 caller schema) (bounded_object_list_result utf8))
                    (note (inspected token) w) after
                    (answered operation_list_objects object b through at token w.trace
                      (ObjectsShown env utf8 caller schema) (bounded_object_list_result utf8)
                      objects event bound ready
                      (list_shown env utf8 caller schema b ready.semantics token ready.granted
                        objects allowed)
                      refl sized))
          ]

      pub run_list_objects-Answered :
          Triple
            (Invariant
              (Ready env utf8 caller operation_list_objects
                (record { schema = schema; name = [] })
                b
                token)
              g)
            (run_list_objects env utf8 caller b (record { schema = schema; name = [] }) token)
            ListPost
            (Invariant (IsDisciplined env) g)
      unfolding run_list_objects
      run_list_objects-Answered = record {
        run = λ w p.
            listed-Answered w p (Database.list_objects env.databases (length w.trace) token) refl;
      }

    module _ (object : ResourceRef) (b : AuthorizedBinding) (through at : String)
        (token : AuthorizedSchema)
        (bound : authorize_binding env.policy caller.principal through at operation_describe_object
          ≡ ok b) where
      unfoldable pub DescribePost : ObjectDescription → World → Type 0
      DescribePost a after =
          Invariant (IsDisciplined env) g after
          × Answered env utf8 caller operation_describe_object through at
              (ColumnsShown env utf8 caller object) (bounded_object_description_result utf8) a
              after.trace

      renamed :
          (kind : ErrorKind) (e : ServiceError) (w : World)
          → Invariant (IsDisciplined env) g w
          → Outcome DescribePost (Invariant (IsDisciplined env) g) (unless_unavailable kind e w)
      renamed service_unavailable e w p = p
      renamed kind e w p = p

      hidden :
          (r : Result ServiceError ObjectDescription × World)
          → Outcome DescribePost (Invariant (IsDisciplined env) g) r
          → Outcome DescribePost (Invariant (IsDisciplined env) g) (not_found_instead r)
      hidden (ok a, w) p = p
      hidden (err e, w) p = renamed e.kind e w p

      described_failed :
          (failure other : Failure) (completion : Event) (w : World)
          → Invariant (IsDisciplined env) g w
          → Outcome DescribePost
              (Invariant (IsDisciplined env) g)
              (as_not_found failure (complete_error env caller completion other) w)
      described_failed (of_kind Database.invalid) other completion w p =
          hidden (complete_error env caller completion other w)
            (failed completion other DescribePost w p)
      described_failed foreign other completion w p = failed completion other DescribePost w p
      described_failed (of_kind kind) other completion w p =
          failed completion other DescribePost w p

      described-Answered :
          (w : World)
          → Invariant (Ready env utf8 caller operation_describe_object object b token) g w
          → (r : Answer ObjectDescription)
          → Database.describe_object env.databases (length w.trace) token ≡ r
          → Outcome DescribePost
              (Invariant (IsDisciplined env) g)
              (described env utf8 caller b object r (note (inspected token) w))
      unfolding DescribePost authorize_describe_object
      described-Answered w p (err failure, adapter) came =
          described_failed failure failure
            (operation_completion env utf8 caller b adapter object []) (note (inspected token) w)
            (called operation_describe_object object b token w p)
      described-Answered w (ready, same) (ok description, adapter) came =
          let completion =
            operation_completion env utf8 caller b adapter object
              (column_fields description.columns) in
          let after = called operation_describe_object object b token w (ready, same) in
          elim (Option-cases
            (bounded_object_description_result utf8 description b.limits.max_result_bytes)) [
              | inl large ↦ rw large (
                  failed completion (of_kind Database.result_too_large) DescribePost
                    (note (inspected token) w) after)
              | inr (size, sized) ↦
                  let event = record completion {
                    outcome = "success";
                    result_bytes = size;
                    metadata = ("column_count", length description.columns) ∷ [];
                  } in
                  let allowed =
                    describe_object-All token env.databases (length w.trace) description adapter
                      came in
                  rw sized (
                    completed env caller g event description
                      (Answered env utf8 caller operation_describe_object through at
                        (ColumnsShown env utf8 caller object)
                        (bounded_object_description_result utf8))
                      (note (inspected token) w) after
                      (answered operation_describe_object object b through at token w.trace
                        (ColumnsShown env utf8 caller object)
                        (bounded_object_description_result utf8) description event bound ready
                        (description_shown env utf8 caller object b ready.semantics token
                          ready.granted description allowed)
                        refl sized))
            ]

      pub run_describe_object-Answered :
          Triple
            (Invariant (Ready env utf8 caller operation_describe_object object b token) g)
            (run_describe_object env utf8 caller b object token)
            DescribePost
            (Invariant (IsDisciplined env) g)
      unfolding run_describe_object
      run_describe_object-Answered = record {
        run = λ w p.
            described-Answered w p (Database.describe_object env.databases (length w.trace) token)
              refl;
      }

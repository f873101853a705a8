-- ===== src/Service/Discipline.antt =====
-- internal/queryservice: the order in which the handlers do things to the outside.
pub mod Steps
use quordon.Prelude.{ℕ, ◌≡◌, true, ok, List, [], ◌∷◌, Text, String}
use quordon.Domain.{
  Operation, IdentifierSemantics, operation_list_objects, operation_describe_object,
}
use quordon.Queryspec.{ResourceRef, Validated}
use quordon.Policy.{Snapshot, AuthorizedBinding, AuthorizedQuery, AuthorizedSchema}
use quordon.Policy.Features.{referenced_fields}
use quordon.Policy.Query.Grant.{Granted}
use quordon.Policy.Resource.{authorize_schema}
use quordon.Database.{identifier_semantics}
use quordon.Service.{Event, Happening, audited, asked, queried, inspected, World, Environment}

module _ (env : Environment) where
  -- An event that allows an operation, under this policy, with these resources and fields.
  pub record Allows (who through at : String) (what : Operation) (over : List ResourceRef)
      (reads : List Text) (event : Event) : Type 0 where
    pub decision : event.decision ≡ "allow"
    pub policy_hash : event.policy_hash ≡ env.policy.hash
    pub principal : event.principal ≡ who
    pub profile : event.policy_profile ≡ through
    pub datasource : event.datasource ≡ at
    pub operation : event.operation ≡ what
    pub resources : event.resources ≡ over
    pub fields : event.fields ≡ reads

  -- The semantics are those that the datasource gave at some moment.
  abbrev pub Reported : String → IdentifierSemantics → Type 0
  Reported datasource sem = (now : ℕ) × (identifier_semantics env.databases now datasource ≡ ok sem)

  -- The last happening is such an event, and the sink took it.
  abbrev pub Recorded : (Event → Type 0) → List Happening → Type 0
  Recorded Allowing past =
      (event : Event) × (older : List Happening) × (past ≡ audited event true ∷ older)
      × Allowing event

  -- A token that the policy engine granted, on record.
  abbrev pub QueryCovered : AuthorizedQuery → List Happening → Type 0
  QueryCovered token past =
      ((b : AuthorizedBinding) × (q : Validated) × (sem : IdentifierSemantics) × Reported
          token.datasource sem
        × Granted env.policy b token.operation q sem token)
      × Recorded
          (Allows token.principal token.profile token.datasource token.operation
            (token.query.spec.source ∷ []) (referenced_fields token.query.spec))
          past

  abbrev pub SchemaCovered : AuthorizedSchema → List Happening → Type 0
  SchemaCovered token past =
      ((b : AuthorizedBinding) × (r : ResourceRef) × (sem : IdentifierSemantics) × Reported
          token.datasource sem
        × (authorize_schema env.policy b token.operation r sem ≡ ok token))
      × Recorded
          (Allows token.principal token.profile token.datasource token.operation
            (record { schema = token.schema; name = token.object } ∷ []) [])
          past

  -- Whatever reached an adapter was granted and was on record just before.
  unfoldable pub IsDisciplined : List Happening → Type 0
  IsDisciplined [] = Unit
  IsDisciplined (audited event accepted ∷ past) = IsDisciplined past
  IsDisciplined (asked datasource ∷ past) = IsDisciplined past
  IsDisciplined (queried token ∷ past) = QueryCovered token past × IsDisciplined past
  IsDisciplined (inspected token ∷ past) = SchemaCovered token past × IsDisciplined past

  -- A world that a handler leaves: disciplined, and with the gates that it found.
  abbrev pub Settles : World → World → Type 0
  Settles before after = IsDisciplined after.trace × (after.gates ≡ before.gates)

-- ===== src/Service.antt =====
-- internal/queryservice/service.go: what the handlers of a request share. A handler is a function of
-- the world, which it returns changed, also where it ends with an error: the capacity gates, the
-- published discoveries, and the trace of what was done to the outside, the newest first. The length
-- of the trace is the moment of a call. The audit sink is a parameter: whether it takes an event,
-- after a trace. So are SHA-256 over a query (`ShapeHash`) and over a requested name
-- (`auditIdentifierHash`), and the number of bytes of a name. The deadlines of a request show as
-- failures of the adapter and of the sink; durations are left out of the events.
pub mod Discipline
pub mod Observed
pub mod Triples
pub mod Stages
pub mod Queries
pub mod Schemas
pub mod Capabilities
use quordon.Prelude.{
  ℕ, Bool, true, false, not, ◌&&◌, ◌||◌, List, [], ◌∷◌, ◌==◌, string_has_eq, length, Text, String,
  Option, none, some, if◌then◌else◌, Result, ok, err,
}
use quordon.Domain.{Limits, Operation, IdentifierSemantics}
use quordon.Queryspec.{ResourceRef, NormalizedSpec, ValidationError}
use quordon.Queryspec.Value.{Codec}
use quordon.Policy.{Snapshot, Reason, BindingKey, AuthorizedQuery, AuthorizedSchema}
use quordon.Capacity.{Gates, acquire_capacity, release_capacity}
use quordon.Database.{Manager, Failure}

pub data ErrorKind : Type 0 where
  invalid denied not_found too_large capacity not_implemented service_unavailable unavailable
        timeout upstream result_too_large :
      ErrorKind

pub record ServiceError : Type 0 where
  pub kind : ErrorKind
  pub reason_code : Option Reason

-- internal/audit/audit.go `Event`, without its times and what only the listing of query shapes fills
-- in. A resource is a schema and an object.
pub record Event : Type 0 where
  pub type : String
  pub request_id : String
  pub query_id : String
  pub principal : String
  pub client_identifier : String
  pub policy_profile : String
  pub policy_version : String
  pub policy_hash : String
  pub datasource : String
  pub adapter : String
  pub operation : Operation
  pub decision : String
  pub reason_code : Option Reason
  pub outcome : String
  pub error_kind : Option ErrorKind
  pub result_bytes : ℕ
  pub query_shape_hash : String
  pub requested_profile_hash : String
  pub requested_profile_bytes : ℕ
  pub requested_datasource_hash : String
  pub requested_datasource_bytes : ℕ
  pub resources : List ResourceRef
  pub fields : List Text
  pub metadata : List (String × ℕ)

-- What a handler does to the outside: an event, with the answer of the sink, a question for the
-- identifier semantics of a datasource, and the calls with a token.
pub data Happening : Type 0 where
  audited : Event → Bool → Happening
  asked : String → Happening
  queried : AuthorizedQuery → Happening
  inspected : AuthorizedSchema → Happening

-- A published discovery: the binding it stands under, its datasource and the semantics that it was made for.
pub record Discovery : Type 0 where
  pub key : BindingKey
  pub datasource : String
  pub semantics : IdentifierSemantics

pub record World : Type 0 where
  pub gates : Gates
  pub discoveries : List Discovery
  pub trace : List Happening

-- `configuredQueryShapeSupport`
pub record ShapeSupport : Type 0 where
  pub count : ℕ
  pub supported : Bool

pub record Environment : Type 0 where
  pub shape_support : List (BindingKey × ShapeSupport)
  pub policy : Snapshot
  pub databases : Manager
  pub sink : List Happening → Event → Bool
  pub codec : Codec
  pub shape_hash : NormalizedSpec → String
  pub identifier_hash : String → String → String
  pub byte_length : String → ℕ

-- Who asks: the request, the query (or none), the principal and the name it signed in with.
pub record Caller : Type 0 where
  pub request_id : String
  pub query_id : String
  pub principal : String
  pub client_identifier : String

abbrev pub M : Type 0 → Type 0
M A = World → Result ServiceError A × World

-- What follows an outcome: the next step, unless there is an error.
abbrev pub continue :
    {A B : Type 0} → (A → M B) → Result ServiceError A × World → Result ServiceError B × World
continue next (ok a, w) = next a w
continue next (err e, w) = (err e, w)

infixl 5 ◌>>=◌ ◌>>◌
abbrev pub ◌>>=◌ : {A B : Type 0} → M A → (A → M B) → M B
◌>>=◌ m f w = continue f (m w)

abbrev pub ◌>>◌ : {A B : Type 0} → M A → M B → M B
m >> k = m >>= λ _. k

abbrev pub pure : {A : Type 0} → A → M A
pure a w = (ok a, w)

abbrev pub raise : {A : Type 0} → ErrorKind → Option Reason → M A
raise kind reason w = (err (record { kind = kind; reason_code = reason }), w)

abbrev pub fail_when : Bool → ErrorKind → M (Unit {0})
fail_when true kind = raise kind none
fail_when false kind = pure tt

-- Something done to the outside.
abbrev pub note : Happening → World → World
note h w = record w { trace = h ∷ w.trace }

-- `writeAudit`, where a failure ends the request.
unfoldable pub write_audit : Environment → Event → M (Unit {0})
write_audit env event w =
    let accepted = env.sink w.trace event in
    let after = note (audited event accepted) w in
    if accepted then pure tt after else raise service_unavailable none after

abbrev same : Bool → Bool → Bool
same true b = b
same false b = not b

-- `MatchesSemantics` of policy/query_shapes.go.
abbrev matches_semantics : Discovery → IdentifierSemantics → Bool
matches_semantics d semantics =
    same d.semantics.case_insensitive_schemas semantics.case_insensitive_schemas
    && same d.semantics.case_insensitive_objects semantics.case_insensitive_objects
    && same d.semantics.case_insensitive_fields semantics.case_insensitive_fields

unfoldable pub observe : String → IdentifierSemantics → List Discovery → List Discovery
observe datasource semantics [] = []
observe datasource semantics (d ∷ ds) =
    let rest = observe datasource semantics ds in
    if not (d.datasource == datasource) || matches_semantics d semantics then d ∷ rest else rest

unfoldable pub observe_identifier_semantics : BindingKey → IdentifierSemantics → M (Unit {0})
unfolding observe
observe_identifier_semantics key semantics w =
    pure tt (record w { discoveries = observe key.datasource semantics w.discoveries })

-- `acquireCapacity`, the rest of the handler, and the deferred release.
unfoldable pub with_capacity : {A : Type 0} → BindingKey → M A → M A
with_capacity key body w =
    let attempt = acquire_capacity key w.gates in
    let entered = record w { gates = attempt.0 } in
    let result = body entered in
    if attempt.1
    then (result.0, record result.1 { gates = release_capacity key result.1.gates })
    else raise capacity none entered

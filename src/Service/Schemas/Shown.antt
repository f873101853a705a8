-- ===== src/Service/Schemas/Shown.antt =====
-- internal/queryservice, `ListObjects` and `DescribeObject`: what an answer shows, under the profile.
use quordon.Prelude.{
  ℕ, ◌≡◌, string_has_eq, true, List, [], ◌∷◌, Text, String, Option, All, lookup, some, ok,
}
use quordon.Domain.{Operation, IdentifierSemantics}
use quordon.Queryspec.{ResourceRef}
use quordon.Policy.{Profile, AuthorizedBinding, AuthorizedSchema}
use quordon.Policy.Binding.{authorize_binding}
use quordon.Encoding.{Utf8}
use quordon.Policy.Query.Grant.{SchemaPermitted, ObjectPermitted, FieldPermitted}
use quordon.Policy.Resource.{authorize_list_objects, authorize_describe_object}
use quordon.Policy.Resource.Scope.{list_objects_scope, describe_object_scope}
use quordon.Queryspec.Identifier.{is_identifier}
use quordon.Encoding.Metadata.{ColumnDescription, ObjectDescription}
use quordon.Database.Filtered.{IsAllowedObject, IsAllowedColumn}
use quordon.Service.{Event, Happening, audited, inspected, Environment, Caller}
use quordon.Service.Discipline.{Reported}

module _ (env : Environment) (utf8 : Utf8) (caller : Caller) where
  -- The last two things done are a call with a token of this route, and a completion with success and
  -- the size of the answer, which the sink took.
  pub record Answered {A : Type 0} (op : Operation) (through at : String)
      (Shows : Profile → IdentifierSemantics → A → Type 0) (size_of : A → ℕ → Option ℕ) (answer : A)
      (past : List Happening) : Type 0 where
    pub b : AuthorizedBinding
    pub bound : authorize_binding env.policy caller.principal through at op ≡ ok b
    pub assigned : Profile
    pub configured : lookup b.key.profile env.policy.profiles ≡ some assigned
    pub semantics : IdentifierSemantics
    pub reported : Reported env b.key.datasource semantics
    pub shows : Shows assigned semantics answer
    pub token : AuthorizedSchema
    pub event : Event
    pub older : List Happening
    pub trace : past ≡ audited event true ∷ inspected token ∷ older
    pub outcome : event.outcome ≡ "success"
    pub result_bytes : size_of answer b.limits.max_result_bytes ≡ some event.result_bytes

  -- Objects of a schema, and columns of an object, that a profile permits.
  abbrev pub ObjectsShown : Text → Profile → IdentifierSemantics → List Text → Type 0
  ObjectsShown schema p sem objects =
      SchemaPermitted p.resources sem schema
      × All
          (λ object. (is_identifier object ≡ true) × ObjectPermitted p.resources sem schema object)
          objects

  abbrev pub ColumnsShown : ResourceRef → Profile → IdentifierSemantics → ObjectDescription → Type 0
  ColumnsShown object p sem description =
      SchemaPermitted p.resources sem object.schema
      × ObjectPermitted p.resources sem object.schema object.name
      × All
          (λ (c : ColumnDescription).
            (is_identifier c.name ≡ true)
            × FieldPermitted p.resources sem object.schema object.name c.name)
          description.columns

  module _ (schema : Text) (b : AuthorizedBinding) (sem : IdentifierSemantics)
      (token : AuthorizedSchema)
      (granted : authorize_list_objects env.policy b schema sem ≡ ok token) where
    objects_shown :
        (p : Profile) (objects : List Text)
        → lookup b.key.profile env.policy.profiles ≡ some p
        → All (IsAllowedObject token) objects
        → All
            (λ object.
              (is_identifier object ≡ true) × ObjectPermitted p.resources sem schema object)
            objects
    objects_shown p [] configured tt = tt
    objects_shown p (object ∷ objects) configured (allowed, rest) =
        let (q, accepts, permitted, shows, hidden) =
          list_objects_scope env.policy b schema sem token object [] granted in
        let same : q ≡ p = cc (accepts.route.configured, configured) in
        ((allowed.0, rw (← same) (shows.0 allowed.1)), objects_shown p objects configured rest)

    pub list_shown :
        (objects : List Text)
        → All (IsAllowedObject token) objects
        → (p : Profile) × (lookup b.key.profile env.policy.profiles ≡ some p)
          × ObjectsShown schema p sem objects
    list_shown objects allowed =
        let (p, accepts, permitted, shows, hidden) =
          list_objects_scope env.policy b schema sem token [] [] granted in
        (
          p,
          accepts.route.configured,
          (permitted, objects_shown p objects accepts.route.configured allowed),
        )

  module _ (object : ResourceRef) (b : AuthorizedBinding) (sem : IdentifierSemantics)
      (token : AuthorizedSchema)
      (granted : authorize_describe_object env.policy b object sem ≡ ok token) where
    columns_shown :
        (p : Profile) (columns : List ColumnDescription)
        → lookup b.key.profile env.policy.profiles ≡ some p
        → All (IsAllowedColumn token) columns
        → All
            (λ (c : ColumnDescription).
              (is_identifier c.name ≡ true)
              × FieldPermitted p.resources sem object.schema object.name c.name)
            columns
    columns_shown p [] configured tt = tt
    columns_shown p (c ∷ columns) configured (allowed, rest) =
        let (q, accepts, permitted, there, shows, hidden) =
          describe_object_scope env.policy b object sem token [] c.name granted in
        let same : q ≡ p = cc (accepts.route.configured, configured) in
        ((allowed.0, rw (← same) (shows.0 allowed.1)), columns_shown p columns configured rest)

    pub description_shown :
        (description : ObjectDescription)
        → All (IsAllowedColumn token) description.columns
        → (p : Profile) × (lookup b.key.profile env.policy.profiles ≡ some p)
          × ColumnsShown object p sem description
    description_shown description allowed =
        let (p, accepts, permitted, there, shows, hidden) =
          describe_object_scope env.policy b object sem token [] [] granted in
        (
          p,
          accepts.route.configured,
          (permitted, there, columns_shown p description.columns accepts.route.configured allowed),
        )

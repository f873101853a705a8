-- ===== src/Policy/Resource/Scope.antt =====
-- What a token for a schema or an object lets its holder see.
use quordon.Prelude.{
  text_eq, text_eq_iff, ◌≡◌, ◌≢◌, ◌⊎◌, inl, inr, ◌↔◌, true, false, not, ◌&&◌, [], Text, arith, ◌==◌,
  string_has_eq, text_has_eq, ==_iff, ==_false_iff, Bool-cases, ok, Result-cases,
}
use quordon.Domain.{
  Operation, IdentifierSemantics, operation_list_objects, operation_describe_object,
}
use quordon.Queryspec.{ResourceRef}
use quordon.Queryspec.Identifier.{is_identifier, validate_identifier}
use quordon.Policy.{Snapshot, Profile, AuthorizedBinding, AuthorizedSchema}
use quordon.Policy.Binding.{profile_for_binding}
use quordon.Policy.Binding.Route.{Accepts, profile_for_binding_iff}
use quordon.Policy.Query.{schema_allowed, object_allowed, field_allowed}
use quordon.Policy.Query.Grant.{
  SchemaPermitted, ObjectPermitted, FieldPermitted, schema_iff, object_iff, field_iff,
}
use quordon.Policy.Resource.{
  check_coordinates, authorize_schema, authorize_list_objects, authorize_describe_object,
  allows_object, allows_field,
}

module _ (a : AuthorizedSchema) where
  listing_objects :
      (object : Text)
      → a.operation ≡ operation_list_objects
      → a.object ≡ []
      → allows_object a object ≡ object_allowed a.resources a.semantics a.schema object
  unfolding allows_object
  listing_objects object op none =
      let is_list : (a.operation == operation_list_objects) ≡ true =
        (==_iff a.operation operation_list_objects).1 op in
      rw (is_list, (==_iff a.object []).1 none)

  listing_fields :
      (field : Text) → a.operation ≡ operation_list_objects → allows_field a field ≡ false
  unfolding allows_field
  listing_fields field op =
      let differs : (a.operation == operation_describe_object) ≡ false = rw op in rw differs

  description_objects :
      (object : Text) → a.operation ≡ operation_describe_object → allows_object a object ≡ false
  unfolding allows_object
  description_objects object op =
      let differs : (a.operation == operation_list_objects) ≡ false = rw op in rw differs

  description_fields :
      (field : Text)
      → a.operation ≡ operation_describe_object
      → a.object ≢ []
      → allows_field a field ≡ field_allowed a.resources a.semantics a.schema a.object field
  unfolding allows_field
  description_fields field op named =
      let is_describe : (a.operation == operation_describe_object) ≡ true =
        (==_iff a.operation operation_describe_object).1 op in
      rw (is_describe, (==_false_iff a.object []).1 named)

-- What `authorizeSchema` established for its token.
record Minted (s : Snapshot) (b : AuthorizedBinding) (op : Operation) (r : ResourceRef)
    (sem : IdentifierSemantics) (a : AuthorizedSchema) : Type 0 where
  assigned : Profile
  accepts : Accepts s b op assigned
  coordinates : check_coordinates op r ≡ ok tt
  permitted : SchemaPermitted assigned.resources sem r.schema
  object_permitted : (r.name ≡ []) ⊎ ObjectPermitted assigned.resources sem r.schema r.name
  operation : a.operation ≡ op
  schema : a.schema ≡ r.schema
  object : a.object ≡ r.name
  resources : a.resources ≡ assigned.resources
  semantics : a.semantics ≡ sem

minted :
    (s : Snapshot) (b : AuthorizedBinding) (op : Operation) (r : ResourceRef)
    (sem : IdentifierSemantics) (a : AuthorizedSchema)
    → authorize_schema s b op r sem ≡ ok a
    → Minted s b op r sem a
unfolding authorize_schema
minted s b op r sem a h = elim (Result-cases (profile_for_binding s b op)) [
  | inr (e, refused) ↦ absurd (ground arith)
  | inl (p, e) ↦
      let allowed_schema : schema_allowed p.resources sem r.schema ≡ true = ground arith in
      let allowed_object : (not (r.name == [])
            && not (object_allowed p.resources sem r.schema r.name))
          ≡ false =
        ground arith in
      record {
        assigned = p;
        accepts = (profile_for_binding_iff s b op p).0 e;
        coordinates = ground arith;
        permitted = (schema_iff p.resources sem r.schema).0 allowed_schema;
        object_permitted = elim (Bool-cases (r.name == [])) [
          | inl none ↦ inl ((==_iff r.name []).0 none)
          | inr named ↦ inr ((object_iff p.resources sem r.schema r.name).0 (ground arith))
        ];
        operation = ground arith;
        schema = ground arith;
        object = ground arith;
        resources = ground arith;
        semantics = ground arith;
      }
]

-- A listing shows exactly the objects of its schema that the profile permits, and no field.
pub list_objects_scope :
    (s : Snapshot) (b : AuthorizedBinding) (schema : Text) (sem : IdentifierSemantics)
    (a : AuthorizedSchema) (object field : Text)
    → authorize_list_objects s b schema sem ≡ ok a
    → (p : Profile) × Accepts s b operation_list_objects p
      × SchemaPermitted p.resources sem schema
      × ((allows_object a object ≡ true) ↔ ObjectPermitted p.resources sem schema object)
      × (allows_field a field ≡ false)
unfolding authorize_list_objects
list_objects_scope s b schema sem a object field h =
    let m = minted s b operation_list_objects (record { schema = schema; name = [] }) sem a h in
    (
      m.assigned,
      m.accepts,
      m.permitted,
      rw (listing_objects a object m.operation m.object, m.resources, m.semantics, m.schema)
          (object_iff m.assigned.resources sem schema object),
      listing_fields a field m.operation,
    )

named_object : (s : Text) → is_identifier s ≡ true → s ≢ []
unfolding is_identifier validate_identifier
named_object s h none = let empty : text_eq s [] ≡ true = (text_eq_iff s []).1 none in ground arith

describes :
    (r : ResourceRef)
    → check_coordinates operation_describe_object r ≡ ok tt
    → is_identifier r.name ≡ true
unfolding check_coordinates
describes r h = ground arith

-- A description shows exactly the fields of its object that the profile permits, and lists no
-- object; the profile permits that object and its schema.
pub describe_object_scope :
    (s : Snapshot) (b : AuthorizedBinding) (r : ResourceRef) (sem : IdentifierSemantics)
    (a : AuthorizedSchema) (object field : Text)
    → authorize_describe_object s b r sem ≡ ok a
    → (p : Profile) × Accepts s b operation_describe_object p
      × SchemaPermitted p.resources sem r.schema
      × ObjectPermitted p.resources sem r.schema r.name
      × ((allows_field a field ≡ true) ↔ FieldPermitted p.resources sem r.schema r.name field)
      × (allows_object a object ≡ false)
unfolding authorize_describe_object
describe_object_scope s b r sem a object field h =
    let m = minted s b operation_describe_object r sem a h in
    let named = named_object r.name (describes r m.coordinates) in
    (
      m.assigned,
      m.accepts,
      m.permitted,
      elim m.object_permitted [ inl none ↦ absurd (named none) | inr permitted ↦ permitted ],
      rw
          (
            description_fields a field m.operation (rw m.object named),
            m.resources,
            m.semantics,
            m.schema,
            m.object,
          )
          (field_iff m.assigned.resources sem r.schema r.name field),
      description_objects a object m.operation,
    )

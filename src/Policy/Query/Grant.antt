-- ===== src/Policy/Query/Grant.antt =====
-- What an authorized query has been granted.
use quordon.Prelude.{
  ℕ, suc, nat_has_eq, ◌≡◌, ◌≢◌, refl, ap, ◌⊎◌, inl, inr, ◌↔◌, true, List, [], ◌∷◌, Text, All, all,
  all_iff, arith, ◌==◌, string_has_eq, ==_iff, ==_false_iff, length, Bool-cases, ok, Result-cases,
  each_from,
}
use quordon.Domain.{Operation, IdentifierSemantics, min_limits, operation_select}
use quordon.Queryspec.{Validated, NormalizedSpec, Selection}
use quordon.Queryspec.Validate.{revalidate, check_plain_field, validate_simple_select}
use quordon.Queryspec.Validate.Stable.{Admits, limited, revalidate_iff}
use quordon.Policy.{Snapshot, Profile, ResourcePolicy, AuthorizedBinding, AuthorizedQuery}
use quordon.Policy.Patterns.Meaning.{Permits, allowed_iff}
use quordon.Policy.Binding.{profile_for_binding}
use quordon.Policy.Binding.Route.{Accepts, profile_for_binding_iff}
use quordon.Policy.Features.{referenced_fields, authorize_features}
use quordon.Policy.Features.Grants.{Grants, authorize_features_iff}
use quordon.Policy.Query.{
  schema_cases, object_cases, field_cases, schema_allowed, object_allowed, field_allowed,
  authorize_resources, check_operation, authorize_query,
}

abbrev pub SchemaPermitted : ResourcePolicy → IdentifierSemantics → Text → Type 0
SchemaPermitted r sem schema = Permits r.schemas (schema_cases sem) (schema ∷ [])

abbrev pub ObjectPermitted : ResourcePolicy → IdentifierSemantics → Text → Text → Type 0
ObjectPermitted r sem schema object = Permits r.objects (object_cases sem) (schema ∷ object ∷ [])

abbrev pub FieldPermitted : ResourcePolicy → IdentifierSemantics → Text → Text → Text → Type 0
FieldPermitted r sem schema object field =
    Permits r.fields (field_cases sem) (schema ∷ object ∷ field ∷ [])

-- The resource policy permits the schema, the object and each field that the query refers to.
pub record Reaches (r : ResourcePolicy) (sem : IdentifierSemantics) (spec : NormalizedSpec)
    : Type 0 where
  pub schema : SchemaPermitted r sem spec.source.schema
  pub object : ObjectPermitted r sem spec.source.schema spec.source.name
  pub fields :
      All (FieldPermitted r sem spec.source.schema spec.source.name) (referenced_fields spec)

module _ (r : ResourcePolicy) (sem : IdentifierSemantics) where
  pub schema_iff :
      (schema : Text) → (schema_allowed r sem schema ≡ true) ↔ SchemaPermitted r sem schema
  schema_iff schema = allowed_iff r.schemas (schema ∷ []) (schema_cases sem)

  pub object_iff :
      (schema object : Text)
      → (object_allowed r sem schema object ≡ true) ↔ ObjectPermitted r sem schema object
  object_iff schema object = allowed_iff r.objects (schema ∷ object ∷ []) (object_cases sem)

  pub field_iff :
      (schema object field : Text)
      → (field_allowed r sem schema object field ≡ true) ↔ FieldPermitted r sem schema object field
  field_iff schema object field =
      allowed_iff r.fields (schema ∷ object ∷ field ∷ []) (field_cases sem)

  fields_iff :
      (spec : NormalizedSpec)
      → (all
            (λ f. field_allowed r sem spec.source.schema spec.source.name f)
            (referenced_fields spec)
          ≡ true)
        ↔ All (FieldPermitted r sem spec.source.schema spec.source.name) (referenced_fields spec)
  fields_iff spec =
      all_iff _ _ (field_iff spec.source.schema spec.source.name) (referenced_fields spec)

  pub authorize_resources_iff :
      (spec : NormalizedSpec) → (authorize_resources r sem spec ≡ ok tt) ↔ Reaches r sem spec
  unfolding authorize_resources
  authorize_resources_iff spec = (
    (λ h. record {
      schema = (schema_iff spec.source.schema).0 (ground arith);
      object = (object_iff spec.source.schema spec.source.name).0 (ground arith);
      fields = (fields_iff spec).0 (ground arith);
    }),
    λ g.
        let schema = (schema_iff spec.source.schema).1 g.schema in
        let object = (object_iff spec.source.schema spec.source.name).1 g.object in
        rw (schema, object, (fields_iff spec).1 g.fields),
  )

-- Every selection is a plain field, and nothing is grouped.
pub record IsSimple (q : Validated) : Type 0 where
  pub valid : q.valid ≡ true
  pub ungrouped : length q.spec.group_by ≡ 0
  pub fields : All (λ (x : Selection). x.kind ≡ "field") q.spec.projection

plain_field_iff : (i : ℕ) (x : Selection) → (check_plain_field i x ≡ ok tt) ↔ (x.kind ≡ "field")
unfolding check_plain_field
plain_field_iff i x =
    ((λ h. (==_iff x.kind "field").0 (ground arith)), λ e. rw ((==_iff x.kind "field").1 e))

plain_fields_iff :
    (i : ℕ) (xs : List Selection)
    → (each_from check_plain_field i xs ≡ ok tt) ↔ All (λ (x : Selection). x.kind ≡ "field") xs
plain_fields_iff i [] = (λ _. tt, λ _. refl)
plain_fields_iff i (x ∷ xs) = ground (arith, plain_field_iff i x, plain_fields_iff (suc i) xs)

pub validate_simple_select_iff : (q : Validated) → (validate_simple_select q ≡ ok tt) ↔ IsSimple q
unfolding validate_simple_select
validate_simple_select_iff q =
    let fields = plain_fields_iff 0 q.spec.projection in
    (
      (λ h. record {
        valid = ground arith;
        ungrouped = ground arith;
        fields = fields.0 (ground arith);
      }),
      λ w. ground (arith, fields.1 w.fields),
    )

-- The conditions of a grant, and the token that it gives.
pub record Granted (s : Snapshot) (b : AuthorizedBinding) (op : Operation) (q : Validated)
    (sem : IdentifierSemantics) (a : AuthorizedQuery) : Type 0 where
  pub assigned : Profile
  pub accepts : Accepts s b op assigned
  pub bounds : a.limits ≡ min_limits s.hard_limits assigned.limits
  pub admits : Admits a.limits q
  pub lowered : a.query ≡ limited q a.limits.max_rows
  pub simple : (op ≢ operation_select) ⊎ IsSimple a.query
  pub reaches : Reaches assigned.resources sem a.query.spec
  pub grants : Grants assigned.query a.query.spec
  pub principal : a.principal ≡ b.principal
  pub profile : a.profile ≡ b.key.profile
  pub datasource : a.datasource ≡ b.key.datasource
  pub operation : a.operation ≡ op

operation_iff :
    (op : Operation) (q : Validated)
    → (check_operation op q ≡ ok tt) ↔ ((op ≢ operation_select) ⊎ IsSimple q)
unfolding check_operation
operation_iff op q = (
  (λ h. elim (Bool-cases (op == operation_select)) [
    | inl select ↦
        let simple : validate_simple_select q ≡ ok tt = ground arith in
        inr ((validate_simple_select_iff q).0 simple)
    | inr other ↦ inl ((==_false_iff op operation_select).0 other)
  ]),
  λ h. elim h [
    | inl other ↦ rw ((==_false_iff op operation_select).1 other)
    | inr simple ↦ ground (arith, (validate_simple_select_iff q).1 simple)
  ],
)

module _ (s : Snapshot) (b : AuthorizedBinding) (op : Operation) (q : Validated)
    (sem : IdentifierSemantics) (a : AuthorizedQuery) where
  grant_sound : authorize_query s b op q sem ≡ ok a → Granted s b op q sem a
  unfolding authorize_query
  grant_sound h = elim (Result-cases (profile_for_binding s b op)) [
    | inr (e, refused) ↦ absurd (ground arith)
    | inl (p, e) ↦ elim (Result-cases (revalidate q (min_limits s.hard_limits p.limits))) [
      | inr (e', refused) ↦ absurd (ground arith)
      | inl (q', e') ↦
          let same : a.query ≡ q' = ground arith in
          let limits : a.limits ≡ min_limits s.hard_limits p.limits = ground arith in
          let (admits, lowered) = (revalidate_iff q _ q').0 e' in
          let simple : check_operation op q' ≡ ok tt = ground arith in
          let reaches : authorize_resources p.resources sem q'.spec ≡ ok tt = ground arith in
          let grants : authorize_features p.query q'.spec ≡ ok tt = ground arith in
          record {
            assigned = p;
            accepts = (profile_for_binding_iff s b op p).0 e;
            bounds = limits;
            admits = rw limits admits;
            lowered = rw (same, limits) lowered;
            simple = rw same ((operation_iff op q').0 simple);
            reaches = rw same ((authorize_resources_iff p.resources sem q'.spec).0 reaches);
            grants = rw same ((authorize_features_iff p.query q'.spec).0 grants);
            principal = ground arith;
            profile = ground arith;
            datasource = ground arith;
            operation = ground arith;
          }
    ]
  ]

  grant_complete : Granted s b op q sem a → authorize_query s b op q sem ≡ ok a
  unfolding authorize_query
  grant_complete g =
      let accepts = (profile_for_binding_iff s b op g.assigned).1 g.accepts in
      let admits : revalidate q a.limits ≡ ok a.query =
        (revalidate_iff q a.limits a.query).1 (g.admits, g.lowered) in
      let simple = (operation_iff op a.query).1 g.simple in
      let reaches = (authorize_resources_iff g.assigned.resources sem a.query.spec).1 g.reaches in
      let grants = (authorize_features_iff g.assigned.query a.query.spec).1 g.grants in
      let t : AuthorizedQuery = record {
        principal = b.principal;
        profile = b.key.profile;
        datasource = b.key.datasource;
        operation = op;
        limits = a.limits;
        query = a.query;
      } in
      let token : t ≡ a = ground (arith, g.principal, g.profile, g.datasource, g.operation) in
      rw (accepts, authorize_query)
        (rw (← g.bounds)
          (rw (admits, authorize_query) (rw (simple, reaches, grants) (ap ok token))))

  -- A query is authorized exactly if the snapshot accepts the binding for the operation, the query
  -- lies within the least of the hard and the profile's limits, an executable select is simple, the
  -- profile permits the schema, the object and every field that the query refers to, and grants
  -- each feature; the token carries the binding's route, those limits, and the query with its row
  -- limit lowered to theirs.
  pub authorize_query_iff : (authorize_query s b op q sem ≡ ok a) ↔ Granted s b op q sem a
  authorize_query_iff = (grant_sound, grant_complete)

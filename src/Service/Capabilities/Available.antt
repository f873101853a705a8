-- ===== src/Service/Capabilities/Available.antt =====
-- internal/queryservice/service.go `Capabilities`: when an operation is shown for a profile and a
-- datasource.
use quordon.Prelude.{
  ◌≡◌, ◌↔◌, ◌⊎◌, inl, inr, subst, true, Bool-cases, [], string_has_eq, ◌≢◌, ◌≤◌, any_iff, ==_iff,
  ==_false_iff, ◌==◌, contains, contains_iff, Option-cases, In, Any, lookup, String, some, arith,
}
use quordon.Domain.{Operation, operation_list_query_shapes}
use quordon.Policy.{BindingKey, binding_key_has_eq}
use quordon.Database.{Manager, Source, Adapter, capabilities}
use quordon.Service.{World, Environment, Discovery, ShapeSupport}
use quordon.Service.Capabilities.{
  Sorting, supported_here, supports_configured_query_shapes, has_query_shape_discovery, offered,
}

abbrev pub Supports : BindingKey → BindingKey × ShapeSupport → Type 0
Supports key (k, support) = (k ≡ key) × (1 ≤ support.count) × (support.supported ≡ true)

-- What an operation needs besides a binding: of the datasource an adapter that is capable of it, or,
-- for the listing of query shapes, shapes that are configured, supported and discovered.
abbrev pub IsAvailable : Environment → World → BindingKey → Operation → Type 0
IsAvailable env w key operation =
    ((operation ≢ operation_list_query_shapes)
      × ((s : Source) × (a : Adapter) × (lookup key.datasource env.databases ≡ some s)
          × (s.adapter ≡ some a)
          × In operation s.capabilities))
    ⊎ ((operation ≡ operation_list_query_shapes)
        × Any (Supports key) env.shape_support
        × Any (λ (d : Discovery). d.key ≡ key) w.discoveries)

capable_iff :
    (databases : Manager) (datasource : String) (operation : Operation)
    → (contains (capabilities databases datasource) operation ≡ true) ↔ (
        (s : Source) × (a : Adapter) × (lookup datasource databases ≡ some s)
        × (s.adapter ≡ some a)
        × In operation s.capabilities)
unfolding capabilities
capable_iff databases datasource operation = elim (Option-cases (lookup datasource databases)) [
  | inl unknown ↦ rw unknown ((λ h. absurd cc), λ (_, _, known, _, _). absurd cc)
  | inr (s, known) ↦ elim (Option-cases s.adapter) [
    | inl absent ↦ (
      (λ h. absurd (let e : contains [] operation ≡ true = ground (arith, known, absent) in cc)),
      λ (t, b, other, present, _). absurd (
          let same : t ≡ s = cc (known, other) in
          let e : s.adapter ≡ some b = subst (λ x. x.adapter ≡ some b) same present in
          cc (absent, e)),
    )
    | inr (a, present) ↦ (
      (λ h. (
        s,
        a,
        known,
        present,
        (contains_iff s.capabilities operation).0 (ground (arith, known, present)),
      )),
      λ (t, b, other, _, capable).
          let same : t ≡ s = cc (known, other) in
          let here = subst (λ x. In operation x.capabilities) same capable in
          let listed = (contains_iff s.capabilities operation).1 here in
          ground (arith, known, present),
    )
  ]
]

supported_here_iff :
    (key : BindingKey) (entry : BindingKey × ShapeSupport)
    → (supported_here key entry ≡ true) ↔ Supports key entry
supported_here_iff key entry = ground (arith, ==_iff entry.0 key)

pub offered_iff :
    (env : Environment) (sorting : Sorting) (w : World) (key : BindingKey) (operation : Operation)
    → (offered env sorting w key operation ≡ true) ↔ IsAvailable env w key operation
unfolding offered supports_configured_query_shapes has_query_shape_discovery
offered_iff env sorting w key operation =
    let supported =
      any_iff (Supports key) (supported_here key) (supported_here_iff key) env.shape_support in
    let discovered =
      any_iff (λ (d : Discovery). d.key ≡ key) (λ d. d.key == key) (λ d. ==_iff d.key key)
        w.discoveries in
    elim (Bool-cases (operation == operation_list_query_shapes)) [
      | inl listing ↦
          let same = (==_iff operation operation_list_query_shapes).0 listing in
          (
            (λ h. inr (
              same,
              supported.0 (ground (arith, listing)),
              discovered.0 (ground (arith, listing)),
            )),
            λ h. elim h [
              | inl (other, _) ↦ absurd (other same)
              | inr (_, a, b) ↦ rw (listing, supported.1 a, discovered.1 b)
            ],
          )
      | inr other ↦
          let different = (==_false_iff operation operation_list_query_shapes).0 other in
          let capable = capable_iff env.databases key.datasource operation in
          (
            (λ h. inl (different, capable.0 (ground (arith, other)))),
            λ h. elim h [
              | inl (_, on) ↦ rw other (capable.1 on)
              | inr (same, _, _) ↦ absurd (different same)
            ],
          )
    ]

-- ===== src/Service/Capabilities.antt =====
-- internal/queryservice/service.go `Capabilities`: what a principal may use. `slices.SortFunc` by name is
-- a parameter. The versions of the API and of the service are constants of the build and left out.
pub mod Advertised
pub mod Available
pub mod Lists
use quordon.Prelude.{
  ℕ, Bool, true, false, not, ◌&&◌, List, [], ◌∷◌, ◌==◌, string_has_eq, nat_has_eq, length, any,
  contains, lookup, String, Option, none, some, if◌then◌else◌,
}
use quordon.Domain.{Limits, Operation, min_limits, operation_list_query_shapes}
use quordon.Policy.{Snapshot, Principal, Profile, BindingKey, binding_key_has_eq}
use quordon.Database.{capabilities, adapter_name}
use quordon.Service.{World, Environment, Discovery, ShapeSupport}

pub record DatasourceCapability : Type 0 where
  pub name : String
  pub adapter : String
  pub operations : List Operation

pub record ProfileCapability : Type 0 where
  pub name : String
  pub limits : Limits
  pub datasources : List DatasourceCapability

pub record Capabilities : Type 0 where
  pub policy_version : String
  pub profiles : List ProfileCapability

-- Sorting by name.
pub record Sorting : Type 0 where
  pub profiles : List ProfileCapability → List ProfileCapability
  pub datasources : List DatasourceCapability → List DatasourceCapability

abbrev pub profiles_of : Option Principal → List String
profiles_of none = []
profiles_of (some p) = p.profiles

abbrev pub datasources_of : Option Principal → List String
datasources_of none = []
datasources_of (some p) = p.datasources

abbrev pub principal_profiles : Snapshot → String → List String
principal_profiles s principal = profiles_of (lookup principal s.principals)

abbrev pub principal_datasources : Snapshot → String → List String
principal_datasources s principal = datasources_of (lookup principal s.principals)

abbrev pub supported_here : BindingKey → BindingKey × ShapeSupport → Bool
supported_here key (k, support) = k == key && not (support.count == 0) && support.supported

module _ (env : Environment) (sorting : Sorting) (w : World) where
  -- `supportsConfiguredQueryShapes`
  unfoldable pub supports_configured_query_shapes : BindingKey → Bool
  supports_configured_query_shapes key = any (supported_here key) env.shape_support

  -- `hasQueryShapeDiscovery`
  unfoldable pub has_query_shape_discovery : BindingKey → Bool
  has_query_shape_discovery key = any (λ (d : Discovery). d.key == key) w.discoveries

  -- Whether an operation of a profile is shown for a datasource.
  unfoldable pub offered : BindingKey → Operation → Bool
  unfolding supports_configured_query_shapes has_query_shape_discovery
  offered key operation =
      if operation == operation_list_query_shapes
      then supports_configured_query_shapes key && has_query_shape_discovery key
      else contains (capabilities env.databases key.datasource) operation

  unfoldable pub offered_operations : BindingKey → List Operation → List Operation
  offered_operations key [] = []
  offered_operations key (operation ∷ operations) =
      let rest = offered_operations key operations in
      if offered key operation then operation ∷ rest else rest

  unfoldable pub datasource_capabilities :
      String → List String → List Operation → List String → List DatasourceCapability
  datasource_capabilities profile assigned operations [] = []
  datasource_capabilities profile assigned operations (datasource ∷ datasources) =
      let rest = datasource_capabilities profile assigned operations datasources in
      if not (contains assigned datasource)
      then rest
      else record {
        name = datasource;
        adapter = adapter_name env.databases datasource;
        operations =
            offered_operations (record { profile = profile; datasource = datasource }) operations;
      }
        ∷ rest

  abbrev pub with_datasources :
      String → Limits → List DatasourceCapability → List ProfileCapability → List ProfileCapability
  with_datasources name limits [] rest = rest
  with_datasources name limits (d ∷ ds) rest =
      record {
        name = name;
        limits = min_limits env.policy.hard_limits limits;
        datasources = d ∷ ds;
      }
      ∷ rest

  -- A profile, if it is configured.
  abbrev pub with_profile :
      List String → String → Option Profile → List ProfileCapability → List ProfileCapability
  with_profile assigned name none rest = rest
  with_profile assigned name (some p) rest =
      with_datasources name p.limits
        (sorting.datasources (datasource_capabilities name assigned p.operations p.datasources))
        rest

  unfoldable pub profile_capabilities : List String → List String → List ProfileCapability
  profile_capabilities assigned [] = []
  profile_capabilities assigned (name ∷ names) =
      with_profile assigned name (lookup name env.policy.profiles)
        (profile_capabilities assigned names)

  unfoldable pub service_capabilities : String → Capabilities
  unfolding profile_capabilities
  service_capabilities principal = record {
    policy_version = env.policy.version;
    profiles = sorting.profiles (
        profile_capabilities (principal_datasources env.policy principal)
          (principal_profiles env.policy principal));
  }

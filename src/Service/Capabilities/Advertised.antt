-- ===== src/Service/Capabilities/Advertised.antt =====
-- internal/queryservice/service.go `Capabilities` against the policy engine.
use quordon.Prelude.{
  ◌≡◌, ◌↔◌, refl, true, List, string_has_eq, contains, contains_iff, In, Any, lookup, String,
  Option, none, some, ok,
}
use quordon.Domain.{Operation}
use quordon.Policy.{Principal, binding_key_has_eq, AuthorizedBinding}
use quordon.Policy.Binding.{authorize_binding}
use quordon.Policy.Binding.Route.{minted, authorize_binding_iff}
use quordon.Service.{World, Environment}
use quordon.Service.Capabilities.{
  Sorting, profiles_of, datasources_of, principal_profiles, principal_datasources,
  profile_capabilities, service_capabilities,
}
use quordon.Service.Capabilities.Lists.{Sorts, Shows, Configured, Offered, profile_capabilities_lem}
use quordon.Service.Capabilities.Available.{IsAvailable, offered_iff}

account_of :
    (principals : List (String × Principal)) (principal profile datasource : String)
    (o : Option Principal)
    → lookup principal principals ≡ o
    → In profile (profiles_of o)
    → contains (datasources_of o) datasource ≡ true
    → (a : Principal) × (lookup principal principals ≡ some a)
      × In profile a.profiles
      × In datasource a.datasources
account_of principals principal profile datasource none known nowhere assigned = absurd nowhere
account_of principals principal profile datasource (some a) known listed assigned =
    (a, known, listed, (contains_iff a.datasources datasource).0 assigned)

-- A profile, a datasource of it and an operation are advertised to a principal exactly if the policy
-- engine mints a binding for them and the operation is available: for the listing of query shapes,
-- if for that profile and datasource shapes are configured and supported, and a discovery is kept;
-- for any other, if the datasource has an adapter and is capable of it. Sorting may be any function that keeps the elements.
pub service_capabilities_iff :
    (env : Environment) (sorting : Sorting) (w : World) (principal profile datasource : String)
    (operation : Operation)
    → Sorts sorting
    → Any
        (Shows profile datasource operation)
        (service_capabilities env sorting w principal).profiles
      ↔ (((b : AuthorizedBinding) × (authorize_binding env.policy principal profile datasource
                operation
              ≡ ok b))
          × IsAvailable env w (record { profile = profile; datasource = datasource }) operation)
unfolding service_capabilities Configured Offered
service_capabilities_iff env sorting w principal profile datasource operation sorts =
    let available =
      offered_iff env sorting w (record { profile = profile; datasource = datasource }) operation in
    let assigned = principal_datasources env.policy principal in
    let names = principal_profiles env.policy principal in
    let sorted =
      sorts.0 (Shows profile datasource operation)
        (profile_capabilities env sorting w assigned names) in
    let lists =
      profile_capabilities_lem env sorting w sorts profile datasource operation assigned names in
    (
      (λ h.
          let (listed, configuration) = lists.0 (sorted.0 h) in
          let (p, found, inside, (known, configured, on)) = configuration in
          let (a, account, by_profile, by_datasource) =
            account_of env.policy.principals principal profile datasource
              (lookup principal env.policy.principals) refl listed known in
          (
            (
              minted env.policy principal profile datasource operation p,
              (authorize_binding_iff env.policy principal profile datasource operation
                    (minted env.policy principal profile datasource operation p)).1
                  (
                    p,
                    record {
                      account = a;
                      known = account;
                      account_profile = by_profile;
                      account_datasource = by_datasource;
                      configured = found;
                      profile_datasource = inside;
                      profile_operation = configured;
                    },
                    refl,
                  ),
            ),
            available.0 on,
          )),
      (λ ((b, bound), on).
          let (p, routes, _) =
            (authorize_binding_iff env.policy principal profile datasource operation b).0 bound in
          let listed : In profile names = rw routes.known routes.account_profile in
          let known : contains assigned datasource ≡ true =
            rw routes.known
              ((contains_iff routes.account.datasources datasource).1 routes.account_datasource) in
          sorted.1 (
            lists.1 (
              listed,
              (
                p,
                routes.configured,
                routes.profile_datasource,
                (known, routes.profile_operation, available.1 on),
              ),
            ))),
    )

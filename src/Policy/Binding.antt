-- ===== src/Policy/Binding.antt =====
-- internal/policy/policy.go `AuthorizeBinding` and `profileForBinding`: a route from a principal over
-- a profile to a datasource, checked when it is minted and again when it is used.
pub mod Route
use quordon.Prelude.{
  Bool, true, false, not, ◌&&◌, ◌||◌, List, ◌==◌, nat_has_eq, string_has_eq, String, contains,
  lookup, Option, none, some, if◌then◌else◌, Result, ok, err,
}
use quordon.Domain.{Operation, min_limits}
use quordon.Policy.{
  Snapshot, Principal, Profile, BindingKey, AuthorizedBinding, PolicyError, denial,
  denied_operation,
}

-- `!ok || !slices.Contains(…)` on the entry of the principal and on that of the profile.
abbrev pub principal_assigned : Option Principal → String → String → Bool
principal_assigned none profile datasource = false
principal_assigned (some p) profile datasource =
    contains p.profiles profile && contains p.datasources datasource

abbrev pub profile_assigned : Profile → String → Operation → Bool
profile_assigned p datasource operation =
    contains p.datasources datasource && contains p.operations operation

-- The profile of a route whose three assignments and operation are all configured.
unfoldable pub assigned_profile :
    Snapshot → String → String → String → Operation → Result PolicyError Profile
assigned_profile s principal profile datasource operation =
    if not (principal_assigned (lookup principal s.principals) profile datasource)
    then err (denial denied_operation)
    else elim (lookup profile s.profiles) [
      | none ↦ err (denial denied_operation)
      | some p ↦
          if not (profile_assigned p datasource operation)
          then err (denial denied_operation)
          else ok p
    ]

unfoldable pub authorize_binding :
    Snapshot → String → String → String → Operation → Result PolicyError AuthorizedBinding
authorize_binding s principal profile datasource operation =
    elim (assigned_profile s principal profile datasource operation) [
      | err e ↦ err e
      | ok p ↦ ok (record {
        owner = s.address;
        principal = principal;
        key = record { profile = profile; datasource = datasource };
        operation = operation;
        limits = min_limits s.hard_limits p.limits;
        policy_hash = s.hash;
      })
    ]

unfoldable pub profile_for_binding :
    Snapshot → AuthorizedBinding → Operation → Result PolicyError Profile
profile_for_binding s b operation =
    if not (b.owner == s.address)
      || not (b.policy_hash == s.hash)
      || b.principal == ""
      || b.key.profile == ""
      || b.key.datasource == ""
      || not (b.operation == operation)
    then err (denial denied_operation)
    else assigned_profile s b.principal b.key.profile b.key.datasource operation

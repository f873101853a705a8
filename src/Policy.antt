-- ===== src/Policy.antt =====
-- internal/policy/policy.go: the policy engine. A snapshot of the checked configuration mints tokens
-- (bindings, authorized queries, authorized schemas) that carry what was decided. Principals,
-- profiles and datasources are named by strings that are only compared whole; a map is a list of
-- entries, and its lookup finds the first. A snapshot's address, by which a binding names its owner,
-- is a number. Copies (`slices.Clone`, `cloneProfile`) are the values themselves.
pub mod Patterns
pub mod Binding
pub mod Features
pub mod Query
pub mod Resource
use quordon.Prelude.{
  ℕ, Bool, true, ◌&&◌, ◌≡◌, ◌↔◌, List, String, Text, arith, Eq, ◌==◌, ==_iff, string_has_eq,
}
use quordon.Domain.{Limits, Operation, IdentifierSemantics}
use quordon.Queryspec.{ValidationError, Validated}

pub data Reason : Type 0 where
  denied_operation denied_resource denied_field denied_query_feature : Reason

-- The errors of an authorization: a denial, or a refused revalidation.
pub data PolicyError : Type 0 where
  denial : Reason → PolicyError
  invalid : ValidationError → PolicyError

-- internal/config/config.go
pub record PatternPolicy : Type 0 where
  pub allow : List Text
  pub deny : List Text

pub record ResourcePolicy : Type 0 where
  pub schemas : PatternPolicy
  pub objects : PatternPolicy
  pub fields : PatternPolicy

pub record QueryPolicy : Type 0 where
  pub allow_source_text : Bool
  pub allow_filtering : Bool
  pub allow_group_by : Bool
  pub allow_sorting : Bool
  pub allowed_filter_operators : List String
  pub allowed_aggregates : List String

pub record Profile : Type 0 where
  pub datasources : List String
  pub operations : List Operation
  pub resources : ResourcePolicy
  pub query : QueryPolicy
  pub limits : Limits

pub record Principal : Type 0 where
  pub profiles : List String
  pub datasources : List String

pub record Snapshot : Type 0 where
  pub address : ℕ
  pub version : String
  pub hash : String
  pub hard_limits : Limits
  pub principals : List (String × Principal)
  pub profiles : List (String × Profile)

pub record BindingKey : Type 0 where
  pub profile : String
  pub datasource : String

abbrev pub binding_key_eq : BindingKey → BindingKey → Bool
binding_key_eq a b = a.profile == b.profile && a.datasource == b.datasource

pub binding_key_eq_iff : (a b : BindingKey) → (binding_key_eq a b ≡ true) ↔ (a ≡ b)
binding_key_eq_iff a b =
    ground (arith, ==_iff a.profile b.profile, ==_iff a.datasource b.datasource)

instance abbrev pub binding_key_has_eq : Eq BindingKey
binding_key_has_eq = record { equals = binding_key_eq; equals_iff = binding_key_eq_iff }

pub record AuthorizedBinding : Type 0 where
  pub owner : ℕ
  pub principal : String
  pub key : BindingKey
  pub operation : Operation
  pub limits : Limits
  pub policy_hash : String

pub record AuthorizedQuery : Type 0 where
  pub principal : String
  pub profile : String
  pub datasource : String
  pub operation : Operation
  pub limits : Limits
  pub query : Validated

pub record AuthorizedSchema : Type 0 where
  pub principal : String
  pub profile : String
  pub datasource : String
  pub operation : Operation
  pub schema : Text
  pub object : Text
  pub limits : Limits
  pub resources : ResourcePolicy
  pub semantics : IdentifierSemantics

-- ===== src/Database.antt =====
-- internal/database/database.go `Manager`: the configured datasources, and the calls that go through
-- them to an adapter. What an adapter answers is a parameter, at each moment of the run anew: the
-- moment is a number. Of a failure the model has its kind, if it is an `Error` of this package.
pub mod Filtered
use quordon.Prelude.{
  ℕ, Bool, true, false, not, ◌&&◌, ◌||◌, List, [], ◌∷◌, ◌==◌, string_has_eq, text_has_eq, contains,
  lookup, Text, String, Option, none, some, if◌then◌else◌, Result, ok, err, ◌>>=◌, ◌>>◌, fail_if,
}
use quordon.Domain.{
  Operation, IdentifierSemantics, operation_explain_select, operation_select,
  operation_list_objects, operation_describe_object,
}
use quordon.Queryspec.{ResourceRef}
use quordon.Queryspec.Identifier.{is_identifier}
use quordon.Policy.{AuthorizedQuery, AuthorizedSchema}
use quordon.Policy.Resource.{allows_object, allows_field}
use quordon.Encoding.Collect.{SelectResult}
use quordon.Encoding.Metadata.{ColumnDescription, ObjectDescription}

pub data ErrorKind : Type 0 where
  invalid not_found not_implemented unavailable timeout upstream request_too_large
        result_too_large :
      ErrorKind

pub data Failure : Type 0 where
  of_kind : ErrorKind → Failure
  foreign : Failure

pub record ExplainResult : Type 0 where
  pub format : String
  pub plan : Text

pub record Adapter : Type 0 where
  pub identifier_semantics : ℕ → Result Failure IdentifierSemantics
  pub explain : ℕ → AuthorizedQuery → Result Failure ExplainResult
  pub list_objects : ℕ → Text → Result Failure (List Text)
  pub describe_object : ℕ → ResourceRef → Result Failure ObjectDescription
  pub select : ℕ → AuthorizedQuery → Result Failure SelectResult

-- `ready` says that the adapter and the pool are there and that nothing failed when they were made,
-- `implements_schema` and `implements_select` which further interfaces the adapter has.
pub record Source : Type 0 where
  pub adapter : Option Adapter
  pub adapter_name : String
  pub capabilities : List Operation
  pub features : List String
  pub ready : Bool
  pub implements_schema : Bool
  pub implements_select : Bool

abbrev pub Manager : Type 0
Manager = List (String × Source)

abbrev pub Answer : Type 0 → Type 0
Answer A = Result Failure A × String

-- The adapter of a source that is ready.
abbrev pub usable : Option Source → Option (Source × Adapter)
usable none = none
usable (some s) = elim s.adapter [ none ↦ none | some a ↦ if s.ready then some (s, a) else none ]

unfoldable pub identifier_semantics : Manager → ℕ → String → Result Failure IdentifierSemantics
identifier_semantics m now datasource = elim (usable (lookup datasource m)) [
  | none ↦ err (of_kind unavailable)
  | some (s, a) ↦ a.identifier_semantics now
]

unfoldable pub require_capability : Source → Operation → Result Failure (Unit {0})
require_capability s operation =
    fail_if (not (contains s.capabilities operation)) (of_kind not_implemented)

unfoldable pub adapter_name : Manager → String → String
adapter_name m datasource = elim (lookup datasource m) [
  | none ↦ ""
  | some s ↦ elim s.adapter [ none ↦ "" | some a ↦ s.adapter_name ]
]

unfoldable pub capabilities : Manager → String → List Operation
capabilities m datasource = elim (lookup datasource m) [
  | none ↦ []
  | some s ↦ elim s.adapter [ none ↦ [] | some a ↦ s.capabilities ]
]

unfoldable pub features : Manager → String → List String
features m datasource = elim (lookup datasource m) [
  | none ↦ []
  | some s ↦ elim s.adapter [ none ↦ [] | some a ↦ s.features ]
]

-- `availableSource`, and the call on the source that it finds.
abbrev pub on_source :
    {A : Type 0} → Manager → String → (Source → Adapter → Result Failure A) → Answer A
on_source m datasource call = elim (usable (lookup datasource m)) [
  | none ↦ (err (of_kind unavailable), "")
  | some (s, a) ↦ (call s a, s.adapter_name)
]

unfoldable pub explain : Manager → ℕ → AuthorizedQuery → Answer ExplainResult
unfolding require_capability
explain m now query =
    if not (query.operation == operation_explain_select)
    then (err (of_kind upstream), "")
    else on_source m query.datasource
        λ s a. do require_capability s operation_explain_select; a.explain now query

unfoldable pub select : Manager → ℕ → AuthorizedQuery → Answer SelectResult
unfolding require_capability
select m now query =
    if not (query.operation == operation_select)
    then (err (of_kind upstream), "")
    else on_source m query.datasource λ s a. do
      require_capability s operation_select
      fail_if (not s.implements_select) (of_kind upstream)
      a.select now query

-- The loops that keep what the token allows.
unfoldable pub allowed_objects : AuthorizedSchema → List Text → List Text
allowed_objects authorized [] = []
allowed_objects authorized (object ∷ objects) =
    let rest = allowed_objects authorized objects in
    if is_identifier object && allows_object authorized object then object ∷ rest else rest

unfoldable pub allowed_columns : AuthorizedSchema → List ColumnDescription → List ColumnDescription
allowed_columns authorized [] = []
allowed_columns authorized (column ∷ columns) =
    let rest = allowed_columns authorized columns in
    if is_identifier column.name && allows_field authorized column.name then column ∷ rest else rest

unfoldable pub list_objects : Manager → ℕ → AuthorizedSchema → Answer (List Text)
unfolding require_capability
list_objects m now authorized =
    if not (authorized.operation == operation_list_objects)
      || authorized.schema == []
      || not (authorized.object == [])
    then (err (of_kind upstream), "")
    else on_source m authorized.datasource λ s a. do
      require_capability s operation_list_objects
      fail_if (not s.implements_schema) (of_kind upstream)
      objects ← a.list_objects now authorized.schema
      ok (allowed_objects authorized objects)

unfoldable pub describe_object : Manager → ℕ → AuthorizedSchema → Answer ObjectDescription
unfolding require_capability
describe_object m now authorized =
    if not (authorized.operation == operation_describe_object)
      || authorized.schema == []
      || authorized.object == []
    then (err (of_kind upstream), "")
    else on_source m authorized.datasource λ s a. do
      require_capability s operation_describe_object
      fail_if (not s.implements_schema) (of_kind upstream)
      description ←
          a.describe_object now (record { schema = authorized.schema; name = authorized.object })
      ok (record description { columns = allowed_columns authorized description.columns })

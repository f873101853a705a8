-- ===== src/Queryspec.antt =====
-- internal/queryspec/types.go: the data of a structured query. Strings that the program compares
-- whole (kinds, operators, directions, type names) are native strings; identifiers are byte texts.
-- A JSON raw message is the token that it spells, a number with its literal. A slice is a list,
-- and an option of a list where the code tells nil from empty. The path of an error message
-- (`query.filter.expressions[3].field`) is the list of its parts.
pub mod Identifier
pub mod Number
pub mod Integer
pub mod Value
pub mod Predicates
pub mod Projection
pub mod Validate
use quordon.Prelude.{
  ℕ, suc, ◌==◌, String, string_has_eq, Bool, List, [], ◌∷◌, Option, none, some, ◌++◌, Result, Text,
  ◌||◌,
}
use quordon.Prelude.Int.{ℤ}

abbrev pub protocol_max_identifier_bytes : ℕ
protocol_max_identifier_bytes = 128

abbrev pub protocol_max_projection_fields : ℕ
protocol_max_projection_fields = 100

abbrev pub protocol_max_group_by_fields : ℕ
protocol_max_group_by_fields = 100

abbrev pub protocol_max_order_by_fields : ℕ
protocol_max_order_by_fields = 100

abbrev pub protocol_max_filter_items : ℕ
protocol_max_filter_items = 200

abbrev pub protocol_max_rows : ℕ
protocol_max_rows = 1000000

abbrev pub protocol_max_offset : ℕ
protocol_max_offset = 1000000000

abbrev pub default_limit : ℕ
default_limit = 100

-- `Representation`: "" or "source_text".
abbrev pub Representation : Type 0
Representation = String

abbrev pub representation_source_text : Representation
representation_source_text = "source_text"

pub record ResourceRef : Type 0 where
  pub schema : Text
  pub name : Text

pub record Selection : Type 0 where
  pub representation : Representation
  pub kind : String
  pub field : Text
  pub function : String
  pub alias : Text

pub record Sort : Type 0 where
  pub representation : Representation
  pub field : Text
  pub direction : String

-- What a `json.RawMessage` spells. Arrays and objects are accepted by no type of value.
pub data RawMessage : Type 0 where
  null : RawMessage
  boolean : Bool → RawMessage
  number : Text → RawMessage
  quoted : Text → RawMessage
  composite : RawMessage

pub record TypedValue : Type 0 where
  pub type : String
  pub value : Option RawMessage

mutual
  pub data Filter : Type 0 where
    filter :
        (representation : Representation) (kind : String) (field : Text) (operator : String)
        (values : Option (List TypedValue)) (expressions : Filters)
        → Filter

  pub data Filters : Type 0 where
    nil : Filters
    cons : Filter → Filters → Filters

pub record Spec : Type 0 where
  pub source : ResourceRef
  pub projection : List Selection
  pub where_filter : Option Filter
  pub group_by : List Text
  pub order_by : List Sort
  pub limit : Option ℤ
  pub offset : Option ℤ

pub record NormalizedSpec : Type 0 where
  pub source : ResourceRef
  pub projection : List Selection
  pub where_filter : Option Filter
  pub group_by : List Text
  pub order_by : List Sort
  pub limit : ℕ
  pub offset : ℕ

pub record Stats : Type 0 where
  pub predicates : ℕ
  pub expression_depth : ℕ
  pub parameters : ℕ

pub record Validated : Type 0 where
  pub spec : NormalizedSpec
  pub stats : Stats
  pub valid : Bool

pub data PathPart : Type 0 where
  name : String → PathPart
  index : ℕ → PathPart

pub record ValidationError : Type 0 where
  pub path : List PathPart
  pub message : String

abbrev pub Checked : Type 0 → Type 0
Checked A = Result ValidationError A

abbrev pub at : List PathPart → String → ValidationError
at p m = record { path = p; message = m }

infixl 60 ◌/+◌
abbrev pub ◌/+◌ : List PathPart → PathPart → List PathPart
p /+ part = p ++ part ∷ []

abbrev pub query_at : String → List PathPart
query_at part = name "query" ∷ name part ∷ []

-- `Representation.Valid`
abbrev pub representation_valid : Representation → Bool
representation_valid r = r == "" || r == representation_source_text

-- The operations that the code performs on a list of filter groups.
abbrev pub length_filters : Filters → ℕ
length_filters nil = 0
length_filters (cons f fs) = suc (length_filters fs)

-- `len(filter.Values)`, 0 for nil.
abbrev pub value_list : Option (List TypedValue) → List TypedValue
value_list none = []
value_list (some vs) = vs

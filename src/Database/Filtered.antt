-- ===== src/Database/Filtered.antt =====
-- internal/database/database.go: what the answers on schemas and objects hold.
use quordon.Prelude.{
  ℕ, ◌≡◌, true, List, [], ◌∷◌, Text, String, ok, string_has_eq, text_has_eq, All, arith,
  Option-cases, inl, inr, lookup, Result-cases,
}
use quordon.Queryspec.Identifier.{is_identifier}
use quordon.Policy.{AuthorizedSchema}
use quordon.Policy.Resource.{allows_object, allows_field}
use quordon.Encoding.Metadata.{ColumnDescription, ObjectDescription}
use quordon.Database.{
  Manager, usable, allowed_objects, allowed_columns, list_objects, describe_object,
}

module _ (authorized : AuthorizedSchema) where
  abbrev pub IsAllowedObject : Text → Type 0
  IsAllowedObject object = (is_identifier object ≡ true) × (allows_object authorized object ≡ true)

  abbrev pub IsAllowedColumn : ColumnDescription → Type 0
  IsAllowedColumn column =
      (is_identifier column.name ≡ true) × (allows_field authorized column.name ≡ true)

  allowed_objects-All :
      (objects : List Text) → All IsAllowedObject (allowed_objects authorized objects)
  unfolding allowed_objects
  allowed_objects-All [] = tt
  allowed_objects-All (object ∷ objects) = ground (arith, allowed_objects-All objects)

  allowed_columns-All :
      (columns : List ColumnDescription) → All IsAllowedColumn (allowed_columns authorized columns)
  unfolding allowed_columns
  allowed_columns-All [] = tt
  allowed_columns-All (column ∷ columns) = ground (arith, allowed_columns-All columns)

  -- Whatever the adapter answers, the objects listed are identifiers that the token allows.
  pub list_objects-All :
      (m : Manager) (now : ℕ) (objects : List Text) (adapter : String)
      → list_objects m now authorized ≡ (ok objects, adapter)
      → All IsAllowedObject objects
  unfolding list_objects
  list_objects-All m now objects adapter h =
      elim (Option-cases (usable (lookup authorized.datasource m))) [
        | inl absent ↦ absurd (ground arith)
        | inr ((s, a), found) ↦ elim (Result-cases (a.list_objects now authorized.schema)) [
          | inl (all, answered) ↦
              let kept : allowed_objects authorized all ≡ objects = ground arith in
              rw (← kept) (allowed_objects-All all)
          | inr (e, failed) ↦ absurd (ground arith)
        ]
      ]

  pub describe_object-All :
      (m : Manager) (now : ℕ) (description : ObjectDescription) (adapter : String)
      → describe_object m now authorized ≡ (ok description, adapter)
      → All IsAllowedColumn description.columns
  unfolding describe_object
  describe_object-All m now description adapter h =
      elim (Option-cases (usable (lookup authorized.datasource m))) [
        | inl absent ↦ absurd (ground arith)
        | inr ((s, a), found) ↦
            elim (Result-cases (
              a.describe_object now
                (record { schema = authorized.schema; name = authorized.object }))) [
                  | inl (whole, answered) ↦
                      let kept : allowed_columns authorized whole.columns ≡ description.columns =
                        ground arith in
                      rw (← kept) (allowed_columns-All whole.columns)
                  | inr (e, failed) ↦ absurd (ground arith)
                ]
      ]

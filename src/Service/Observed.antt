-- ===== src/Service/Observed.antt =====
-- internal/queryservice/query_shapes.go `observeIdentifierSemantics`: which discoveries stay published.
use quordon.Prelude.{
  ◌≡◌, ◌≢◌, ◌↔◌, ◌⊎◌, inl, inr, refl, Bool, Bool-cases, true, false, not, ◌||◌, List, [], ◌∷◌, ◌==◌,
  ==_iff, ==_false_iff, string_has_eq, Any, String, ok, arith,
}
use quordon.Domain.{IdentifierSemantics}
use quordon.Policy.{BindingKey}
use quordon.Service.{
  Discovery, World, same, matches_semantics, observe, observe_identifier_semantics,
}

same_iff : (a b : Bool) → (same a b ≡ true) ↔ (a ≡ b)
same_iff true true = (λ _. refl, λ _. refl)
same_iff true false = ((λ h. absurd cc), (λ h. absurd cc))
same_iff false true = ((λ h. absurd cc), (λ h. absurd cc))
same_iff false false = (λ _. refl, λ _. refl)

matches_iff :
    (d : Discovery) (semantics : IdentifierSemantics)
    → (matches_semantics d semantics ≡ true) ↔ (d.semantics ≡ semantics)
matches_iff d semantics = ground (
  arith,
  same_iff d.semantics.case_insensitive_schemas semantics.case_insensitive_schemas,
  same_iff d.semantics.case_insensitive_objects semantics.case_insensitive_objects,
  same_iff d.semantics.case_insensitive_fields semantics.case_insensitive_fields,
)

module _ (datasource : String) (semantics : IdentifierSemantics) where
  -- Of another datasource, or made for these semantics.
  abbrev pub Stays : Discovery → Type 0
  Stays d = (d.datasource ≢ datasource) ⊎ (d.semantics ≡ semantics)

  kept_iff :
      (d : Discovery)
      → ((not (d.datasource == datasource) || matches_semantics d semantics) ≡ true) ↔ Stays d
  kept_iff d = elim (Bool-cases (d.datasource == datasource)) [
    | inr other ↦
        rw other ((λ _. inl ((==_false_iff d.datasource datasource).0 other)), (λ _. refl))
    | inl here ↦
        let at : d.datasource ≡ datasource = (==_iff d.datasource datasource).0 here in
        rw here (
          (λ h. inr ((matches_iff d semantics).0 h)),
          (λ h. elim h [ inl away ↦ absurd (away at) | inr e ↦ (matches_iff d semantics).1 e ]),
        )
  ]

  observe_lem :
      (P : Discovery → Type 0) (ds : List Discovery)
      → Any P (observe datasource semantics ds) ↔ Any (λ d. P d × Stays d) ds
  unfolding observe
  observe_lem P [] = ((λ h. h), (λ h. h))
  observe_lem P (d ∷ ds) =
      let rest = observe_lem P ds in
      let stays = kept_iff d in
      elim (Bool-cases (not (d.datasource == datasource) || matches_semantics d semantics)) [
        | inl kept ↦ rw kept (
          (λ h. elim h [ inl p ↦ inl (p, stays.0 kept) | inr later ↦ inr (rest.0 later) ]),
          (λ h. elim h [ inl p ↦ inl p.0 | inr later ↦ inr (rest.1 later) ]),
        )
        | inr dropped ↦ rw dropped (
          (λ h. inr (rest.0 h)),
          (λ h. elim h [ inl p ↦ absurd (let e = stays.1 p.1 in cc) | inr later ↦ rest.1 later ]),
        )
      ]

-- After an operation saw the semantics of a datasource, the discoveries that stay published are those
-- of the other datasources and those that were made for exactly these semantics; nothing else changes.
pub observe_identifier_semantics_lem :
    (key : BindingKey) (semantics : IdentifierSemantics) (w : World) (P : Discovery → Type 0)
    → ((observe_identifier_semantics key semantics w).0 ≡ ok tt)
      × ((observe_identifier_semantics key semantics w).1.gates ≡ w.gates)
      × ((observe_identifier_semantics key semantics w).1.trace ≡ w.trace)
      × (Any P (observe_identifier_semantics key semantics w).1.discoveries
          ↔ Any (λ d. P d × Stays key.datasource semantics d) w.discoveries)
unfolding observe_identifier_semantics
observe_identifier_semantics_lem key semantics w P =
    (refl, refl, refl, observe_lem key.datasource semantics P w.discoveries)

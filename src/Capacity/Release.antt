-- ===== src/Capacity/Release.antt =====
-- What an attempt at capacity does to the gates, and what releasing it does.
use quordon.Policy.{BindingKey, binding_key_has_eq}
use quordon.Prelude.{
  ◌⊎◌, ℕ, ◌+◌, ◌≡◌, refl, true, false, List, [], ◌∷◌, ltb, ◌==◌, none, some, arith, Bool-cases,
  Option-cases, inl, inr, ap,
}
use quordon.Capacity.{
  Gate, Gates, enter, leave, gate_of, set_gate, acquire_capacity, release_capacity,
}

abbrev entered : Gate → Gate
entered g = record g { tokens = g.tokens + 1 }

leave-entered : (g : Gate) → leave (entered g) ≡ g
unfolding leave
leave-entered g =
    let with_tokens : ℕ → Gate = λ n. record g { tokens = n } in ap with_tokens (omega arith)

enter-cases : (g : Gate) → (enter g ≡ none) ⊎ (enter g ≡ some (entered g))
unfolding enter
enter-cases g = elim (Bool-cases (ltb g.tokens g.capacity)) [
  | inl room ↦ inr (rw room)
  | inr full ↦ inl (rw full)
]

module _ (key : BindingKey) (g : Gate) where
  gate_of-set_gate :
      (old : Gate) (gates : List (BindingKey × Gate))
      → gate_of key gates ≡ some old
      → gate_of key (set_gate key g gates) ≡ some g
  unfolding gate_of set_gate
  gate_of-set_gate old [] h = ground arith
  gate_of-set_gate old ((k, g') ∷ gates) h = elim (Bool-cases (k == key)) [
    | inl same ↦ rw (same, same)
    | inr other ↦ rw (other, other) (gate_of-set_gate old gates (ground arith))
  ]

  set_gate-back :
      (old : Gate) (gates : List (BindingKey × Gate))
      → gate_of key gates ≡ some old
      → set_gate key old (set_gate key g gates) ≡ gates
  unfolding gate_of set_gate
  set_gate-back old [] h = refl
  set_gate-back old ((k, g') ∷ gates) h = elim (Bool-cases (k == key)) [
    | inl same ↦ let found : g' ≡ old = ground arith in rw (same, same, found)
    | inr other ↦ rw (other, other, set_gate-back old gates (ground arith))
  ]

-- The attempt gives the capacity and takes a token of both gates, or changes nothing.
acquire-cases :
    (key : BindingKey) (gates : Gates)
    → (acquire_capacity key gates ≡ (gates, false))
      ⊎ ((gate : Gate) × (gate_of key gates.binding_capacity ≡ some gate)
          × (acquire_capacity key gates ≡ (
            record {
              global_capacity = entered gates.global_capacity;
              binding_capacity = set_gate key (entered gate) gates.binding_capacity;
            },
            true,
          )))
unfolding acquire_capacity
acquire-cases key gates = elim (enter-cases gates.global_capacity) [
  | inl full ↦ inl (rw (acquire_capacity, full))
  | inr room ↦ elim (Option-cases (gate_of key gates.binding_capacity)) [
    | inl unknown ↦ inl (rw (acquire_capacity, room, unknown, leave-entered gates.global_capacity))
    | inr (gate, known) ↦ elim (enter-cases gate) [
      | inl full ↦
          inl (rw (acquire_capacity, room, known, full, leave-entered gates.global_capacity))
      | inr free ↦ inr (gate, known, rw (acquire_capacity, room, known, free))
    ]
  ]
]

-- Releasing the capacity that an attempt gave puts every gate back to what it was before.
pub release_capacity-acquire_capacity :
    (key : BindingKey) (gates gates' : Gates)
    → acquire_capacity key gates ≡ (gates', true)
    → release_capacity key gates' ≡ gates
unfolding release_capacity
release_capacity-acquire_capacity key gates gates' h = elim (acquire-cases key gates) [
  | inl refused ↦ absurd (ground arith)
  | inr (gate, known, given) ↦
      let held : Gates = record {
        global_capacity = entered gates.global_capacity;
        binding_capacity = set_gate key (entered gate) gates.binding_capacity;
      } in
      let same : gates' ≡ held = ground arith in
      rw (
        same,
        gate_of-set_gate key (entered gate) gate gates.binding_capacity known,
        leave-entered gates.global_capacity,
        leave-entered gate,
        same,
        set_gate-back key (entered gate) gate gates.binding_capacity known,
      )
]

-- An attempt that is refused changes no gate.
pub acquire_capacity-refused :
    (key : BindingKey) (gates gates' : Gates)
    → acquire_capacity key gates ≡ (gates', false)
    → gates' ≡ gates
acquire_capacity-refused key gates gates' h = elim (acquire-cases key gates) [
  | inl refused ↦ ground arith
  | inr (gate, known, given) ↦ absurd (ground arith)
]

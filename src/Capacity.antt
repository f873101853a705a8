-- ===== src/Capacity.antt =====
-- internal/queryservice/service.go `acquireCapacity`: requests that run at once. A channel of the
-- program that serves as a gate is its capacity and the number of tokens in it; the gates of the
-- bindings are found by key.
pub mod Release
use quordon.Policy.{BindingKey, binding_key_has_eq}
use quordon.Prelude.{
  ℕ, suc, ◌+◌, ◌-◌, ◌≤◌, Bool, true, false, List, [], ◌∷◌, ltb, ◌==◌, Option, none, some,
  if◌then◌else◌,
}

pub record Gate : Type 0 where
  pub capacity : ℕ
  pub tokens : ℕ

pub record Gates : Type 0 where
  pub global_capacity : Gate
  pub binding_capacity : List (BindingKey × Gate)

-- `select { case gate <- struct{}{}: … default: … }`
unfoldable pub enter : Gate → Option Gate
enter g = if ltb g.tokens g.capacity then some (record g { tokens = g.tokens + 1 }) else none

-- `<-gate`
unfoldable pub leave : Gate → Gate
leave g = record g { tokens = g.tokens - 1 }

unfoldable pub gate_of : BindingKey → List (BindingKey × Gate) → Option Gate
gate_of key [] = none
gate_of key ((k, g) ∷ gates) = if k == key then some g else gate_of key gates

unfoldable pub set_gate : BindingKey → Gate → List (BindingKey × Gate) → List (BindingKey × Gate)
set_gate key gate [] = []
set_gate key gate ((k, g) ∷ gates) =
    let rest = set_gate key gate gates in if k == key then (k, gate) ∷ gates else (k, g) ∷ rest

-- The gates after the attempt, and whether it has the capacity.
unfoldable pub acquire_capacity : BindingKey → Gates → Gates × Bool
unfolding enter leave gate_of set_gate
acquire_capacity key gates = elim (enter gates.global_capacity) [
  | none ↦ (gates, false)
  | some global ↦ elim (gate_of key gates.binding_capacity) [
    | none ↦ (record gates { global_capacity = leave global }, false)
    | some gate ↦ elim (enter gate) [
      | none ↦ (record gates { global_capacity = leave global }, false)
      | some entered ↦ (
        record {
          global_capacity = global;
          binding_capacity = set_gate key entered gates.binding_capacity;
        },
        true,
      )
    ]
  ]
]

-- The function that a successful attempt returns.
unfoldable pub release_capacity : BindingKey → Gates → Gates
unfolding leave gate_of set_gate
release_capacity key gates = record {
  global_capacity = leave gates.global_capacity;
  binding_capacity = elim (gate_of key gates.binding_capacity) [
    | none ↦ gates.binding_capacity
    | some gate ↦ set_gate key (leave gate) gates.binding_capacity
  ];
}

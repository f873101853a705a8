-- ===== src/Service/Triples.antt =====
-- Statements about a handler: from a condition on the world, one on the world and the value that it
-- returns, and another on the world that an error leaves.
use quordon.Prelude.{
  ◌≡◌, refl, ap, ◌∙◌, Bool, true, false, Bool-cases, List, ◌∷◌, inl, inr, Result, ok, err,
}
use quordon.Policy.{BindingKey}
use quordon.Capacity.{Gates, acquire_capacity, release_capacity}
use quordon.Capacity.Release.{release_capacity-acquire_capacity, acquire_capacity-refused}
use quordon.Service.{
  ErrorKind, ServiceError, Event, Happening, audited, World, Environment, M, continue, ◌>>=◌,
  fail_when, write_audit, with_capacity,
}

-- What holds of the outcome.
abbrev pub Outcome :
    {A : Type 0} → (A → World → Type 0) → (World → Type 0) → Result ServiceError A × World → Type 0
Outcome Q E (ok a, w) = Q a w
Outcome Q E (err e, w) = E w

pub record Triple {A : Type 0} (P : World → Type 0) (m : M A) (Q : A → World → Type 0)
    (E : World → Type 0) : Type 0 where
  pub run : (w : World) → P w → Outcome Q E (m w)

module _ {A B : Type 0} (R : A → World → Type 0) (f : A → M B) (Q : B → World → Type 0)
    (E : World → Type 0) where
  continued :
      (r : Result ServiceError A × World)
      → Outcome R E r
      → ((a : A) → Triple (R a) (f a) Q E)
      → Outcome Q E (continue f r)
  continued (ok a, w) holds next = (next a).run w holds
  continued (err e, w) holds next = holds

module _ {A B : Type 0} {P : World → Type 0} {m : M A} {R : A → World → Type 0} {f : A → M B}
    {Q : B → World → Type 0} {E : World → Type 0} where
  pub Triple->>= : Triple P m R E → ((a : A) → Triple (R a) (f a) Q E) → Triple P (m >>= f) Q E
  Triple->>= first next = record { run = λ w p. continued R f Q E (m w) (first.run w p) next }

-- A condition on the gates and the trace.
abbrev pub Invariant : (List Happening → Type 0) → Gates → World → Type 0
Invariant P g w = P w.trace × (w.gates ≡ g)

module _ (P : List Happening → Type 0) (g : Gates) where
  -- A test leaves the world alone.
  pub Triple-fail_when :
      (test : Bool) (kind : ErrorKind)
      → Triple
          (Invariant P g)
          (fail_when test kind)
          (λ _ w. Invariant P g w × (test ≡ false))
          (Invariant P g)
  Triple-fail_when true kind = record { run = λ w p. p }
  Triple-fail_when false kind = record { run = λ w p. (p, refl) }

  -- An event, of which the trace then has that the sink took it.
  pub Triple-write_audit :
      (env : Environment) (event : Event)
      → ((past : List Happening) (b : Bool) → P past → P (audited event b ∷ past))
      → Triple
          (Invariant P g)
          (write_audit env event)
          (λ _ w.
            Invariant P g w
            × ((past : List Happening) × (w.trace ≡ audited event true ∷ past) × P past))
          (Invariant P g)
  unfolding write_audit
  Triple-write_audit env event keeps = record {
    run = λ w (p, same). elim (Bool-cases (env.sink w.trace event)) [
      | inl taken ↦ rw taken ((keeps w.trace true p, same), (w.trace, refl, p))
      | inr failed ↦ rw failed (keeps w.trace false p, same)
    ];
  }

  released :
      {A : Type 0} (key : BindingKey) (g' : Gates) (Q : A → List Happening → Type 0)
      (r : Result ServiceError A × World)
      → release_capacity key g' ≡ g
      → Outcome (λ a w. Invariant P g' w × Q a w.trace) (Invariant P g') r
      → Outcome
          (λ a w. Invariant P g w × Q a w.trace)
          (Invariant P g)
          (r.0, record r.1 { gates = release_capacity key r.1.gates })
  released key g' Q (ok a, w) back ((p, same), q) = ((p, ap (release_capacity key) same ∙ back), q)
  released key g' Q (err e, w) back (p, same) = (p, ap (release_capacity key) same ∙ back)

  -- A body that keeps the gates that it finds leaves those before the capacity was taken.
  pub Triple-with_capacity :
      {A : Type 0} (R : List Happening → Type 0) (key : BindingKey) (body : M A)
      (Q : A → List Happening → Type 0)
      → ((past : List Happening) → R past → P past)
      → ((g' : Gates)
          → Triple (Invariant R g') body (λ a w. Invariant P g' w × Q a w.trace) (Invariant P g'))
      → Triple
          (Invariant R g)
          (with_capacity key body)
          (λ a w. Invariant P g w × Q a w.trace)
          (Invariant P g)
  unfolding with_capacity
  Triple-with_capacity R key body Q less keeps = record {
    run = λ w (p, same).
        let attempt : Gates × Bool = acquire_capacity key w.gates in
        elim (Bool-cases attempt.1) [
          | inl given ↦
              let pair : acquire_capacity key w.gates ≡ (attempt.0, true) =
                ap (λ (b : Bool). (attempt.0, b)) given in
              let back = release_capacity-acquire_capacity key w.gates attempt.0 pair in
              rw given (
                released key attempt.0 Q (body (record w { gates = attempt.0 })) (back ∙ same)
                  ((keeps attempt.0).run (record w { gates = attempt.0 }) (p, refl)))
          | inr refused ↦
              let pair : acquire_capacity key w.gates ≡ (attempt.0, false) =
                ap (λ (b : Bool). (attempt.0, b)) refused in
              rw refused
                (less w.trace p, acquire_capacity-refused key w.gates attempt.0 pair ∙ same)
        ];
  }

module _ {A : Type 0} (Q R : A → World → Type 0) (E : World → Type 0) where
  weakened :
      (r : Result ServiceError A × World)
      → Outcome R E r
      → ((a : A) (w : World) → R a w → Q a w)
      → Outcome Q E r
  weakened (ok a, w) holds less = less a w holds
  weakened (err e, w) holds less = holds

module _ {A : Type 0} {P : World → Type 0} {m : M A} {Q R : A → World → Type 0}
    {E : World → Type 0} where
  pub Triple-weaken : Triple P m R E → ((a : A) (w : World) → R a w → Q a w) → Triple P m Q E
  Triple-weaken t less = record { run = λ w p. weakened Q R E (m w) (t.run w p) less }

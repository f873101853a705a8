-- ===== src/Service/Discipline/Steps.antt =====
-- internal/queryservice: the steps of the handlers leave a world disciplined, and the gates alone.
use quordon.Prelude.{Bool, true, false, Bool-cases, inl, inr, List, ◌∷◌, String}
use quordon.Capacity.{Gates}
use quordon.Service.{
  ErrorKind, Event, Happening, audited, asked, World, Environment, Caller, M, ◌>>◌, pure, fail_when,
  write_audit,
}
use quordon.Service.Discipline.{IsDisciplined}
use quordon.Service.Triples.{Invariant, Outcome, Triple-weaken, Triple-fail_when}
use quordon.Service.Stages.Keeps.{Keeps}

module _ (env : Environment) where
  pub audited-IsDisciplined :
      (past : List Happening) (event : Event) (b : Bool)
      → IsDisciplined env past
      → IsDisciplined env (audited event b ∷ past)
  unfolding IsDisciplined
  audited-IsDisciplined past event b p = p

  pub asked-IsDisciplined :
      (past : List Happening) (datasource : String)
      → IsDisciplined env past
      → IsDisciplined env (asked datasource ∷ past)
  unfolding IsDisciplined
  asked-IsDisciplined past datasource p = p

module _ (env : Environment) (caller : Caller) (g : Gates) where
  -- A step that keeps to the discipline.
  abbrev pub Still : {A : Type 0} → M A → Type 0
  Still =
      Keeps env caller (IsDisciplined env) g (audited-IsDisciplined env) (asked-IsDisciplined env)

  pub fail_when-Still : (test : Bool) (kind : ErrorKind) → Still (fail_when test kind)
  fail_when-Still test kind =
      Triple-weaken (Triple-fail_when (IsDisciplined env) g test kind) (λ _ w q. q.0)

  -- The completion of an answer: if the sink took it, it is the last happening.
  pub completed :
      {A : Type 0} (event : Event) (answer : A) (Q : A → List Happening → Type 0) (w : World)
      → Invariant (IsDisciplined env) g w
      → Q answer (audited event true ∷ w.trace)
      → Outcome
          (λ a after. Invariant (IsDisciplined env) g after × Q a after.trace)
          (Invariant (IsDisciplined env) g)
          ((write_audit env event >> pure answer) w)
  unfolding write_audit
  completed event answer Q w (p, same) serves = elim (Bool-cases (env.sink w.trace event)) [
    | inl taken ↦ rw taken ((audited-IsDisciplined env w.trace event true p, same), serves)
    | inr failed ↦ rw failed (audited-IsDisciplined env w.trace event false p, same)
  ]

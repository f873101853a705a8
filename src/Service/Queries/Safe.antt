-- ===== src/Service/Queries/Safe.antt =====
-- internal/queryservice, `Explain` and `Select`: no query reaches an adapter before the policy engine
-- granted it and the sink took the record of that.
use quordon.Prelude.{
  ℕ, ◌≡◌, refl, ap, string_has_eq, Bool, true, false, List, [], ◌∷◌, length, String, Result, ok,
  err,
}
use quordon.Domain.{Operation, IdentifierSemantics, operation_explain_select, operation_select}
use quordon.Queryspec.{Validated}
use quordon.Policy.{PolicyError, AuthorizedBinding, AuthorizedQuery}
use quordon.Policy.Binding.Route.{authorize_binding_iff}
use quordon.Policy.Query.{authorize_explain, authorize_select}
use quordon.Policy.Query.Grant.{Granted, authorize_query_iff}
use quordon.Capacity.{Gates}
use quordon.Encoding.Collect.{SelectResult}
use quordon.Database.{Failure, ExplainResult, Answer}
use quordon.Database
use quordon.Service.{
  Event, Happening, audited, queried, World, Environment, Caller, M, ◌>>=◌, note, with_capacity,
}
use quordon.Service.Discipline.{IsDisciplined, Settles}
use quordon.Service.Discipline.Steps.{audited-IsDisciplined, asked-IsDisciplined, completed}
use quordon.Service.Triples.{
  Triple, Invariant, Outcome, Triple->>=, Triple-weaken, Triple-with_capacity,
}
use quordon.Service.Stages.{decision_type, assigned_binding}
use quordon.Service.Stages.Keeps.{Triple-assigned_binding, Triple-complete_error}
use quordon.Service.Queries.Ready.{Ready, admit_query-Ready}
use quordon.Service.Queries.{
  as_number, Request, ExplainAnswer, SelectAnswer, query_completion, admit_query, explained,
  run_explain, selected, run_select, explain, select,
}

-- The last two things done are the call of an adapter with a token of this route, which the answer
-- came from, and a completion with success and the size of that answer, which the sink took.
pub record Served (what : Operation) (who through at : String) (Came : ℕ → AuthorizedQuery → Type 0)
    (size : ℕ) (past : List Happening) : Type 0 where
  pub token : AuthorizedQuery
  pub event : Event
  pub older : List Happening
  pub trace : past ≡ audited event true ∷ queried token ∷ older
  pub operation : token.operation ≡ what
  pub principal : token.principal ≡ who
  pub profile : token.profile ≡ through
  pub datasource : token.datasource ≡ at
  pub came : Came (length older) token
  pub outcome : event.outcome ≡ "success"
  pub result_bytes : event.result_bytes ≡ size

module _ (env : Environment) (caller : Caller) where
  abbrev pub ExplainServed : String → String → String → ExplainAnswer → List Happening → Type 0
  ExplainServed principal profile datasource answer =
      Served operation_explain_select principal profile datasource
        (λ now token. Database.explain env.databases now token ≡ (ok answer.result, answer.adapter))
        (length answer.result.plan)

  abbrev pub SelectServed : String → String → String → SelectAnswer → List Happening → Type 0
  SelectServed principal profile datasource answer =
      Served operation_select principal profile datasource
        (λ now token. Database.select env.databases now token ≡ (ok answer.result, answer.adapter))
        (answer.result.result_bytes)

  module _ (g : Gates) where
    -- The call itself is one that the discipline allows.
    called :
        (b : AuthorizedBinding) (op : Operation) (token : AuthorizedQuery) (w : World)
        → Invariant (Ready env caller b op token) g w
        → Invariant (IsDisciplined env) g (note (queried token) w)
    unfolding IsDisciplined
    called b op token w (ready, same) = ((ready.covered, ready.good), same)

    served :
        (b : AuthorizedBinding) (op : Operation) (token : AuthorizedQuery)
        (Came : ℕ → AuthorizedQuery → Type 0) (event : Event) (size : ℕ) (past : List Happening)
        → Ready env caller b op token past
        → Came (length past) token
        → event.outcome ≡ "success"
        → event.result_bytes ≡ size
        → Served op b.principal b.key.profile b.key.datasource Came size
            (audited event true ∷ queried token ∷ past)
    served b op token Came event size past ready came succeeded sized = record {
      token = token;
      event = event;
      older = past;
      trace = refl;
      operation = ready.operation;
      principal = ready.principal;
      profile = ready.profile;
      datasource = ready.datasource;
      came = came;
      outcome = succeeded;
      result_bytes = sized;
    }

    explained-Served :
        (b : AuthorizedBinding) (shape_hash : String) (token : AuthorizedQuery) (w : World)
        → Invariant (Ready env caller b operation_explain_select token) g w
        → (r : Answer ExplainResult) → Database.explain env.databases (length w.trace) token ≡ r
        → Outcome
            (λ a after.
              Invariant (IsDisciplined env) g after
              × ExplainServed b.principal b.key.profile b.key.datasource a after.trace)
            (Invariant (IsDisciplined env) g)
            (explained env caller b shape_hash token r (note (queried token) w))
    explained-Served b shape_hash token w p (err failure, adapter) came =
        (Triple-complete_error env caller (IsDisciplined env) g (audited-IsDisciplined env)
            (asked-IsDisciplined env) (query_completion env caller b adapter shape_hash token)
            failure
            (λ a after.
              Invariant (IsDisciplined env) g after
              × ExplainServed b.principal b.key.profile b.key.datasource a after.trace)).run
          (note (queried token) w) (called b operation_explain_select token w p)
    explained-Served b shape_hash token w p (ok result, adapter) came =
        let event = record (query_completion env caller b adapter shape_hash token) {
          outcome = "success";
          result_bytes = length result.plan;
        } in
        completed env caller g event
          (record { adapter = adapter; result = result; limits = b.limits })
          (ExplainServed b.principal b.key.profile b.key.datasource) (note (queried token) w)
          (called b operation_explain_select token w p)
          (served b operation_explain_select token
            (λ now t. Database.explain env.databases now t ≡ (ok result, adapter)) event
            (length result.plan) w.trace p.0 came refl refl)

    run_explain-Served :
        (b : AuthorizedBinding) (shape_hash : String) (token : AuthorizedQuery)
        → Triple
            (Invariant (Ready env caller b operation_explain_select token) g)
            (run_explain env caller b shape_hash token)
            (λ a after.
              Invariant (IsDisciplined env) g after
              × ExplainServed b.principal b.key.profile b.key.datasource a after.trace)
            (Invariant (IsDisciplined env) g)
    unfolding run_explain
    run_explain-Served b shape_hash token = record {
      run = λ w p.
          explained-Served b shape_hash token w p
            (Database.explain env.databases (length w.trace) token) refl;
    }

    selected-Served :
        (b : AuthorizedBinding) (shape_hash : String) (token : AuthorizedQuery) (w : World)
        → Invariant (Ready env caller b operation_select token) g w
        → (r : Answer SelectResult) → Database.select env.databases (length w.trace) token ≡ r
        → Outcome
            (λ a after.
              Invariant (IsDisciplined env) g after
              × SelectServed b.principal b.key.profile b.key.datasource a after.trace)
            (Invariant (IsDisciplined env) g)
            (selected env caller b shape_hash token r (note (queried token) w))
    selected-Served b shape_hash token w p (err failure, adapter) came =
        (Triple-complete_error env caller (IsDisciplined env) g (audited-IsDisciplined env)
            (asked-IsDisciplined env) (query_completion env caller b adapter shape_hash token)
            failure
            (λ a after.
              Invariant (IsDisciplined env) g after
              × SelectServed b.principal b.key.profile b.key.datasource a after.trace)).run
          (note (queried token) w) (called b operation_select token w p)
    selected-Served b shape_hash token w p (ok result, adapter) came =
        let event = record (query_completion env caller b adapter shape_hash token) {
          outcome = "success";
          result_bytes = result.result_bytes;
          metadata =
              ("row_count", result.row_count) ∷ ("truncated", as_number result.truncated) ∷ [];
        } in
        completed env caller g event
          (record { adapter = adapter; result = result; limits = b.limits })
          (SelectServed b.principal b.key.profile b.key.datasource) (note (queried token) w)
          (called b operation_select token w p)
          (served b operation_select token
            (λ now t. Database.select env.databases now t ≡ (ok result, adapter)) event
            (result.result_bytes) w.trace p.0 came refl refl)

    run_select-Served :
        (b : AuthorizedBinding) (shape_hash : String) (token : AuthorizedQuery)
        → Triple
            (Invariant (Ready env caller b operation_select token) g)
            (run_select env caller b shape_hash token)
            (λ a after.
              Invariant (IsDisciplined env) g after
              × SelectServed b.principal b.key.profile b.key.datasource a after.trace)
            (Invariant (IsDisciplined env) g)
    unfolding run_select
    run_select-Served b shape_hash token = record {
      run = λ w p.
          selected-Served b shape_hash token w p
            (Database.select env.databases (length w.trace) token) refl;
    }

    -- From the binding on.
    bound_query :
        {A : Type 0} (op : Operation) (profile datasource : String)
        (Q : String → String → String → A → List Happening → Type 0) (simple : Bool) (type : String)
        (authorize : AuthorizedBinding
          → Validated
          → IdentifierSemantics
          → Result PolicyError AuthorizedQuery)
        (call : AuthorizedBinding → String → AuthorizedQuery → M A) (body_bytes : ℕ)
        (request : Request)
        → ((b : AuthorizedBinding) (q : Validated) (sem : IdentifierSemantics)
              (token : AuthorizedQuery)
            → authorize b q sem ≡ ok token
            → Granted env.policy b op q sem token)
        → ((h : Gates) (b : AuthorizedBinding) (shape_hash : String) (token : AuthorizedQuery)
            → Triple
                (Invariant (Ready env caller b op token) h)
                (call b shape_hash token)
                (λ a after.
                  Invariant (IsDisciplined env) h after
                  × Q b.principal b.key.profile b.key.datasource a after.trace)
                (Invariant (IsDisciplined env) h))
        → Triple
            (Invariant (IsDisciplined env) g)
            (assigned_binding env caller profile datasource op >>= λ b.
              admit_query env caller simple type authorize b body_bytes request >>= λ admitted.
              with_capacity b.key (call b admitted.1 admitted.0))
            (λ a after.
              Invariant (IsDisciplined env) g after
              × Q caller.principal profile datasource a after.trace)
            (Invariant (IsDisciplined env) g)
    bound_query op profile datasource Q simple type authorize call body_bytes request grants
          serves =
        Triple->>=
          (Triple-assigned_binding env caller (IsDisciplined env) g (audited-IsDisciplined env)
            (asked-IsDisciplined env) profile datasource op)
          (λ b. record {
            run = λ w (p, bound).
                let route =
                  ((authorize_binding_iff env.policy caller.principal profile datasource op b).0
                    bound).2 in
                let named : b.principal ≡ caller.principal =
                  ap (λ (r : AuthorizedBinding). r.principal) route in
                let through : b.key.profile ≡ profile =
                  ap (λ (r : AuthorizedBinding). r.key.profile) route in
                let at : b.key.datasource ≡ datasource =
                  ap (λ (r : AuthorizedBinding). r.key.datasource) route in
                let asked_for : b.operation ≡ op =
                  ap (λ (r : AuthorizedBinding). r.operation) route in
                (Triple-weaken
                    (Triple->>=
                      (admit_query-Ready env caller g simple type authorize b op body_bytes request
                        (grants b) asked_for named)
                      (λ admitted.
                        Triple-with_capacity (IsDisciplined env) g
                          (Ready env caller b op admitted.0) b.key (call b admitted.1 admitted.0)
                          (Q b.principal b.key.profile b.key.datasource) (λ past ready. ready.good)
                          (λ h. serves h b admitted.1 admitted.0)))
                    (λ a after (q, r). (q, rw (← named, ← through, ← at) r))).run
                  w p;
          })

module _ (env : Environment) (caller : Caller) (body_bytes : ℕ) (request : Request)
    (w : World) where
  -- From a disciplined world, `explain` leaves a disciplined one, with the gates as they were, also
  -- where it fails: no token went to an adapter that the policy engine did not grant, or before the
  -- sink took the record of that grant. Where it answers, the last call was made with a token of the
  -- caller, the route of the request and the operation, the answer is what the manager gave to that
  -- token at that moment, and the sink took the completion with success and the size of the plan.
  pub explain-Settles :
      IsDisciplined env w.trace
      → Outcome
          (λ answer after.
            Settles env w after
            × ExplainServed env caller caller.principal request.profile request.datasource answer
                after.trace)
          (Settles env w)
          (explain env caller body_bytes request w)
  unfolding explain authorize_explain
  explain-Settles p =
      (bound_query env caller w.gates operation_explain_select request.profile request.datasource
          (ExplainServed env caller) false "query_decision" (authorize_explain env.policy)
          (run_explain env caller) body_bytes request
          (λ b q sem token came.
            (authorize_query_iff env.policy b operation_explain_select q sem token).0 came)
          (run_explain-Served env caller)).run
        w (p, refl)

  -- From a disciplined world, `select` leaves a disciplined one, with the gates as they were, also
  -- where it fails: no token went to an adapter that the policy engine did not grant, or before the
  -- sink took the record of that grant. Where it answers, the last call was made with a token of the
  -- caller, the route of the request and the operation, the answer is what the manager gave to that
  -- token at that moment, and the sink took the completion with success and the size of the rows.
  pub select-Settles :
      IsDisciplined env w.trace
      → Outcome
          (λ answer after.
            Settles env w after
            × SelectServed env caller caller.principal request.profile request.datasource answer
                after.trace)
          (Settles env w)
          (select env caller body_bytes request w)
  unfolding select authorize_select
  select-Settles p =
      (bound_query env caller w.gates operation_select request.profile request.datasource
          (SelectServed env caller) true (decision_type env caller) (authorize_select env.policy)
          (run_select env caller) body_bytes request
          (λ b q sem token came.
            (authorize_query_iff env.policy b operation_select q sem token).0 came)
          (run_select-Served env caller)).run
        w (p, refl)

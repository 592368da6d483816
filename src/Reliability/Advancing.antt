-- ===== src/Reliability/Advancing.antt =====
-- What an attempt does to the row of its incident.
use agentic_mesh.Prelude.{
  ℕ, ◌+◌, String, true, false, ◌≡◌, refl, subst, ap, ltb, ok, update_if, ◌>>=◌, >>=-then,
  ok-injective, if◌then◌else◌, Bool-cases, inl, inr,
}
use agentic_mesh.Work.{
  Stage, technical, pm_correction, recovery, Outcome, RequestStatus, Incident, WorkDb,
  has_incident_key,
}
use agentic_mesh.Work.Rows.{Keeps, Keeps-refl}
use agentic_mesh.Reliability.{
  RetryEnv, route_retry, insert_request, resolve_request, set_next, with_next, exhaust, recover,
  close_row, pm_role,
}
use agentic_mesh.Reliability.Attempts.{
  new_request, fail_technical, fail_correction, advance_failed, succeed, apply_outcome,
}
use agentic_mesh.Reliability.Results.{AttemptResult}
use agentic_mesh.Reliability.Steps.{route_retry-Keeps, insert_request-Keeps}

-- The row after an attempt with an outcome, a stage and a number.
abbrev pub advanced : ℕ → Outcome → Stage → ℕ → Incident → Incident
advanced now Outcome.succeeded stage n = recover now
advanced now Outcome.failed technical n =
    with_next (if ltb n 3 then technical else pm_correction) (if ltb n 3 then n + 1 else 1)
advanced now Outcome.failed pm_correction n =
    with_next (if ltb n 3 then pm_correction else recovery) (if ltb n 3 then n + 1 else 1)
advanced now Outcome.failed recovery n = exhaust

-- One incident changes by `f`, and the other tables of the work stay.
pub record Advances (project incident : String) (f : Incident → Incident) (db db' : WorkDb)
    : Type 0 where
  pub works_kept : db'.works ≡ db.works
  pub gates_kept : db'.gates ≡ db.gates
  pub approvals_kept : db'.approvals ≡ db.approvals
  pub attempts_kept : db'.attempts ≡ db.attempts
  pub advanced_row : db'.incidents ≡ update_if (has_incident_key project incident) f db.incidents

-- An update of the row, and then a step that keeps the tables.
update-Advances :
    (project incident : String) (f : Incident → Incident) (db db' : WorkDb)
    → Keeps
        (record db { incidents = update_if (has_incident_key project incident) f db.incidents })
        db'
    → Advances project incident f db db'
update-Advances project incident f db db' k = record {
  works_kept = k.works_kept;
  gates_kept = k.gates_kept;
  approvals_kept = k.approvals_kept;
  attempts_kept = k.attempts_kept;
  advanced_row = k.incidents_kept;
}

-- The same two steps in the other order.
Keeps-update :
    (project incident : String) (f : Incident → Incident) (db db₁ : WorkDb)
    → Keeps db db₁
    → Advances project incident f db
        (record db₁ { incidents = update_if (has_incident_key project incident) f db₁.incidents })
Keeps-update project incident f db db₁ k = record {
  works_kept = k.works_kept;
  gates_kept = k.gates_kept;
  approvals_kept = k.approvals_kept;
  attempts_kept = k.attempts_kept;
  advanced_row = ap (update_if (has_incident_key project incident) f) k.incidents_kept;
}

-- `with_next` and the route to the role that must act
routed-Advances :
    (db : WorkDb) (env : RetryEnv) (a : AttemptResult) (i : Incident) (role : String)
    (stage : Stage) (n : ℕ) (action : String) (db' : WorkDb) (done : String)
    → ◌>>=◌ {B = WorkDb × String}
        (route_retry
          (set_next db a.project_id a.incident_id stage n)
          env
          a.project_id
          a.work_item_id
          role
          a.incident_id
          stage
          n
          i.safe_summary
          i.source_ref
          false)
        (λ d. ok (d, action))
      ≡ ok (db', done)
    → Advances a.project_id a.incident_id (with_next stage n) db db'
unfolding set_next
routed-Advances db env a i role stage n action db' done h =
    >>=-then
      (route_retry (set_next db a.project_id a.incident_id stage n) env a.project_id a.work_item_id
        role a.incident_id stage n i.safe_summary i.source_ref false)
      _ h
      λ d hd h₁.
        subst (Advances a.project_id a.incident_id (with_next stage n) db)
          (ap (λ x. x.0) (ok-injective h₁))
          (update-Advances a.project_id a.incident_id (with_next stage n) db d (
            route_retry-Keeps _ env a.project_id a.work_item_id role a.incident_id stage n
              i.safe_summary i.source_ref false d hd))

fail_technical-Advances :
    (db : WorkDb) (env : RetryEnv) (a : AttemptResult) (i : Incident) (db' : WorkDb) (done : String)
    → fail_technical db env a i ≡ ok (db', done)
    → Advances a.project_id a.incident_id
        (advanced (env.clock 2) Outcome.failed technical a.attempt_number)
        db
        db'
unfolding fail_technical
fail_technical-Advances db env a i db' done h = elim (Bool-cases (ltb a.attempt_number 3)) [
  | inl e ↦ rw e (
      routed-Advances db env a i i.owner_role_id technical (a.attempt_number + 1)
        "reliability.retry_routed" db' done (rw e at h))
  | inr e ↦ rw e (
      routed-Advances db env a i pm_role pm_correction 1 "reliability.retry_routed" db' done
        (rw e at h))
]

fail_correction-Advances :
    (db : WorkDb) (env : RetryEnv) (a : AttemptResult) (i : Incident) (db' : WorkDb) (done : String)
    → fail_correction db env a i ≡ ok (db', done)
    → Advances a.project_id a.incident_id
        (advanced (env.clock 2) Outcome.failed pm_correction a.attempt_number)
        db
        db'
unfolding fail_correction set_next
fail_correction-Advances db env a i db' done h = elim (Bool-cases (ltb a.attempt_number 3)) [
  | inl e ↦ rw e (
      routed-Advances db env a i pm_role pm_correction (a.attempt_number + 1)
        "reliability.pm_correction_routed" db' done (rw e at h))
  | inr e ↦ rw e (
      >>=-then (insert_request db (new_request env a i)) _ (rw e at h) λ d hd h₁.
        subst (Advances a.project_id a.incident_id (with_next recovery 1) db)
          (ap (λ x. x.0) (ok-injective h₁))
          (Keeps-update a.project_id a.incident_id (with_next recovery 1) db d
            (insert_request-Keeps db (new_request env a i) d hd)))
]

advance_failed-Advances :
    (stage : Stage) (db : WorkDb) (env : RetryEnv) (a : AttemptResult) (i : Incident) (db' : WorkDb)
    (done : String)
    → advance_failed stage db env a i ≡ ok (db', done)
    → Advances a.project_id a.incident_id
        (advanced (env.clock 2) Outcome.failed stage a.attempt_number)
        db
        db'
unfolding advance_failed resolve_request close_row
advance_failed-Advances technical db env a i db' done h =
    fail_technical-Advances db env a i db' done h
advance_failed-Advances pm_correction db env a i db' done h =
    fail_correction-Advances db env a i db' done h
advance_failed-Advances recovery db env a i db' done h =
    subst (Advances a.project_id a.incident_id exhaust db) (ap (λ x. x.0) (ok-injective h))
      (record {
        works_kept = refl;
        gates_kept = refl;
        approvals_kept = refl;
        attempts_kept = refl;
        advanced_row = refl;
      })

succeed-Advances :
    (stage : Stage) (db : WorkDb) (env : RetryEnv) (a : AttemptResult) (i : Incident) (db' : WorkDb)
    (done : String)
    → succeed stage db env a i ≡ ok (db', done)
    → Advances a.project_id a.incident_id (recover (env.clock 2)) db db'
unfolding succeed resolve_request close_row
succeed-Advances recovery db env a i db' done h =
    let resolved =
      resolve_request db a.project_id a.incident_id RequestStatus.succeeded (env.clock 1)
        a.evidence in
    >>=-then
      (route_retry resolved env a.project_id a.work_item_id i.owner_role_id a.incident_id recovery 1
        i.safe_summary i.source_ref true)
      _ h
      λ d hd h₁.
        let k =
          route_retry-Keeps resolved env a.project_id a.work_item_id i.owner_role_id a.incident_id
            recovery 1 i.safe_summary i.source_ref true d hd in
        subst (Advances a.project_id a.incident_id (recover (env.clock 2)) db)
          (ap (λ x. x.0) (ok-injective h₁))
          (Keeps-update a.project_id a.incident_id (recover (env.clock 2)) db d (record {
            works_kept = k.works_kept;
            gates_kept = k.gates_kept;
            approvals_kept = k.approvals_kept;
            incidents_kept = k.incidents_kept;
            attempts_kept = k.attempts_kept;
          }))
succeed-Advances technical db env a i db' done h =
    subst (Advances a.project_id a.incident_id (recover (env.clock 2)) db)
      (ap (λ x. x.0) (ok-injective h))
      (Keeps-update a.project_id a.incident_id (recover (env.clock 2)) db db (Keeps-refl db))
succeed-Advances pm_correction db env a i db' done h =
    subst (Advances a.project_id a.incident_id (recover (env.clock 2)) db)
      (ap (λ x. x.0) (ok-injective h))
      (Keeps-update a.project_id a.incident_id (recover (env.clock 2)) db db (Keeps-refl db))

pub apply_outcome-Advances :
    (outcome : Outcome) (db : WorkDb) (env : RetryEnv) (a : AttemptResult) (i : Incident)
    (db' : WorkDb) (done : String)
    → apply_outcome outcome db env a i ≡ ok (db', done)
    → Advances a.project_id a.incident_id
        (advanced (env.clock 2) outcome a.stage a.attempt_number)
        db
        db'
unfolding apply_outcome
apply_outcome-Advances Outcome.succeeded db env a i db' done h =
    succeed-Advances a.stage db env a i db' done h
apply_outcome-Advances Outcome.failed db env a i db' done h =
    advance_failed-Advances a.stage db env a i db' done h

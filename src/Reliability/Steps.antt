-- ===== src/Reliability/Steps.antt =====
-- What the parts of a recorded attempt do to the incidents, and that they leave the rest alone.
use agentic_mesh.Prelude.{
  ℕ, String, Bool, ◌≡◌, refl, subst, ap, not, leb, ok, err, any_of, guard, >>=-then, >>-then,
  ok-injective,
}
use agentic_mesh.Prelude.Text.{len}
use agentic_mesh.Journal.{Journaled, EventDraft}
use agentic_mesh.Routing.{route_in_transaction}
use agentic_mesh.Work.{Stage, RecoveryRequest, WorkDb}
use agentic_mesh.Work.Rows.{Keeps, publish-Keeps}
use agentic_mesh.Reliability.{
  RetryEnv, from_append, from_routing, policy_failed, audit, journal_event, route_retry,
  insert_request, request_collides, retry_draft, queue_of,
}
use agentic_mesh.Reliability.Attempts.{audited_attempt, attempt_event, report_attempt}
use agentic_mesh.Reliability.Results.{AttemptResult}
use agentic_mesh.Reliability.Incidents.{ReliabilityStatus, status_of}

pub from_append-ok {ℓ} : {A : Type ℓ} (r : Journaled A) (a : A) → from_append r ≡ ok a → r ≡ ok a
from_append-ok (ok b) a h = ap ok (ok-injective h)
from_append-ok (err e) a h = cc

pub journal_event-Keeps :
    (db : WorkDb) (env : RetryEnv) (now : ℕ) (draft : EventDraft) (db' : WorkDb)
    → journal_event db env now draft ≡ ok db'
    → Keeps db db'
unfolding journal_event
journal_event-Keeps db env now draft db' h =
    publish-Keeps env.routing.sha256 now db draft "reliability.changed" draft.payload db'
      (from_append-ok _ db' h)

pub route_retry-Keeps :
    (db : WorkDb) (env : RetryEnv) (project work role incident : String) (stage : Stage) (n : ℕ)
    (summary source : String) (resumed : Bool) (db' : WorkDb)
    → route_retry db env project work role incident stage n summary source resumed ≡ ok db'
    → Keeps db db'
unfolding route_retry
route_retry-Keeps db env project work role incident stage n summary source resumed db' h =
    >>=-then (retry_draft project work role incident stage n summary source resumed) _ h
      λ draft hd h₁.
        >>=-then (from_routing (route_in_transaction (queue_of db) env.routing draft)) _ h₁
          λ routed hr h₂. subst (Keeps db) (ok-injective h₂) (record {
            works_kept = refl;
            gates_kept = refl;
            approvals_kept = refl;
            incidents_kept = refl;
            attempts_kept = refl;
          })

pub insert_request-Keeps :
    (db : WorkDb) (r : RecoveryRequest) (db' : WorkDb) → insert_request db r ≡ ok db' → Keeps db db'
unfolding insert_request
insert_request-Keeps db r db' h =
    >>-then (guard (not (any_of (request_collides r) db.requests)) policy_failed) _ h λ fresh h₁.
      >>-then (guard (leb (len r.exact_goal) 4000) policy_failed) _ h₁ λ short h₂.
        subst (Keeps db) (ok-injective h₂) (record {
          works_kept = refl;
          gates_kept = refl;
          approvals_kept = refl;
          incidents_kept = refl;
          attempts_kept = refl;
        })

-- The audit record, the event and the reading at the end leave the tables of the work alone.
pub report_attempt-Keeps :
    (db : WorkDb) (env : RetryEnv) (a : AttemptResult) (action : String) (db' : WorkDb)
    (found : ReliabilityStatus)
    → report_attempt db env a action ≡ ok (db', found)
    → Keeps db db' × (status_of db' a.project_id a.incident_id ≡ ok found)
unfolding report_attempt audit
report_attempt-Keeps db env a action db' found h =
    >>=-then
      (journal_event (audited_attempt db a action) env (env.clock 3) (attempt_event a action)) _ h
      λ db₁ hj h₁. >>=-then (status_of db₁ a.project_id a.incident_id) _ h₁ λ s hs h₂.
        let last : db₁ ≡ db' = ap (λ x. x.0) (ok-injective h₂) in
        let same : s ≡ found = ap (λ x. x.1) (ok-injective h₂) in
        let kept =
          journal_event-Keeps (audited_attempt db a action) env (env.clock 3)
            (attempt_event a action) db₁ hj in
        (
          subst (Keeps db) last (record {
            works_kept = kept.works_kept;
            gates_kept = kept.gates_kept;
            approvals_kept = kept.approvals_kept;
            incidents_kept = kept.incidents_kept;
            attempts_kept = kept.attempts_kept;
          }),
          subst (λ d. status_of d a.project_id a.incident_id ≡ ok found) last
              (subst (λ r. status_of db₁ a.project_id a.incident_id ≡ ok r) same hs),
        )

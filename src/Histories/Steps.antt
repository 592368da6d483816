-- ===== src/Histories/Steps.antt =====
-- The operations as changes of the tables.
use agentic_mesh.Prelude.{
  String, Option, List, ◌≡◌, refl, subst, ap, ◌&&◌, not, guard, ok, >>=-then, >>-then, ok-injective,
  inl, inr,
}
use agentic_mesh.Prelude.Sets.{has_duplicates}
use agentic_mesh.Prelude.Json.{Fields}
use agentic_mesh.Prelude.Int.{ℤ}
use agentic_mesh.Work.{Stage, Outcome, Gate, Approval, WorkDb}
use agentic_mesh.Work.Rows.{Keeps-refl}
use agentic_mesh.Lifecycle.{
  Lived, WorkEnv, bad_argument, lifecycle_required, required_each, is_empty_list, evidence_or_empty,
}
use agentic_mesh.Lifecycle.Gates.{
  decision_status, new_gate, gate_row, decide_row, open_gate, decide_gate,
}
use agentic_mesh.Lifecycle.Gating.{create_work_item-Creates, gate_row-Opens, decide_row-Decides}
use agentic_mesh.Reliability.{RetryEnv}
use agentic_mesh.Reliability.Incidents.{ReliabilityStatus, new_report, start}
use agentic_mesh.Reliability.Attempts.{record_attempt}
use agentic_mesh.Reliability.Results.{new_result}
use agentic_mesh.Reliability.Recording.{attempt_row-Recorded}
use agentic_mesh.Reliability.Starting.{start_row-Starts}
use agentic_mesh.Histories.{
  Op, creates_project, creates_work, transitions, opens, decides, starts, records, others, step,
}
use agentic_mesh.Histories.Changes.{
  Change, keeps, creates, opens_gate, decides_gate, starts_incident, records_attempt,
  committed-Change, or_same-Change, create_project-Change, transition-Change,
}

open_gate-Change :
    (db : WorkDb) (env : WorkEnv) (project work gate kind requester : String)
    (sponsor_ids : List String) (correlation : String) (expected : ℤ) (evidence : Option Fields)
    (db' : WorkDb) (read : Lived Gate)
    → open_gate db env project work gate kind requester sponsor_ids correlation expected evidence
      ≡ ok (db', read)
    → Change db db'
unfolding open_gate
open_gate-Change db env project work gate kind requester sponsor_ids correlation expected evidence
      db' read h =
    >>=-then (lifecycle_required project "project_id") _ h λ p hp h₁.
      >>=-then (lifecycle_required work "work_item_id") _ h₁ λ k hk h₂.
        >>=-then (lifecycle_required gate "gate_id") _ h₂ λ g hg h₃.
          >>=-then (lifecycle_required kind "gate_type") _ h₃ λ t ht h₄.
            >>=-then (lifecycle_required requester "requested_by") _ h₄ λ r hr h₅.
              >>=-then (lifecycle_required correlation "correlation_id") _ h₅ λ c hc h₆.
                >>=-then (required_each sponsor_ids "sponsor_id") _ h₆ λ ss hs h₇.
                  >>-then
                    (guard (not (is_empty_list ss) && not (has_duplicates ss))
                      (bad_argument "sponsor_ids must be non-empty and unique"))
                    _ h₇
                    λ distinct h₈.
                      >>=-then (gate_row db env (new_gate p g k t r c evidence) ss expected) _ h₈
                        λ d hd h₉.
                          gate_row-Opens db env (new_gate p g k t r c evidence) ss expected d hd
                            λ current o. subst (Change db) (ap (λ x. x.0) (ok-injective h₉)) (
                              opens_gate env (new_gate p g k t r c evidence) ss expected current
                                refl o)

decide_gate-Change :
    (db : WorkDb) (env : WorkEnv) (project gate sponsor decision rationale : String)
    (evidence : Option Fields) (db' : WorkDb) (read : Lived Approval)
    → decide_gate db env project gate sponsor decision rationale evidence ≡ ok (db', read)
    → Change db db'
unfolding decide_gate
decide_gate-Change db env project gate sponsor decision rationale evidence db' read h =
    >>=-then (lifecycle_required project "project_id") _ h λ p hp h₁.
      >>=-then (lifecycle_required gate "gate_id") _ h₁ λ k hk h₂.
        >>=-then (lifecycle_required sponsor "sponsor_id") _ h₂ λ s hs h₃.
          >>=-then (lifecycle_required decision "decision") _ h₃ λ c hc h₄.
            >>=-then (decision_status c) _ h₄ λ status hd h₅.
              >>=-then (lifecycle_required rationale "rationale") _ h₅ λ r hr h₆.
                >>=-then (decide_row db env p k s c status r (evidence_or_empty evidence)) _ h₆
                  λ d hx h₇.
                    decide_row-Decides db env p k s c status r (evidence_or_empty evidence) d.0 d.1
                      hx
                      λ g a current x same. subst (Change db) (ap (λ x. x.0) (ok-injective h₇)) (
                        decides_gate env p k s c status r (evidence_or_empty evidence) g a current
                          hd x)

start-Change :
    (db : WorkDb) (env : RetryEnv) (project work key category summary source actor : String)
    (db' : WorkDb) (found : ReliabilityStatus)
    → start db env project work key category summary source actor ≡ ok (db', found)
    → Change db db'
unfolding start
start-Change db env project work key category summary source actor db' found h =
    >>=-then (new_report env project work key category summary source actor) _ h λ r hr h₁.
      elim (start_row-Starts db env r db' found h₁) [
        | inl same ↦ subst (Change db) same (keeps (Keeps-refl db))
        | inr (owner, s) ↦ starts_incident _ refl refl s
      ]

record_attempt-Change :
    (db : WorkDb) (env : RetryEnv) (project work incident attempt : String) (stage : Stage)
    (number : ℤ) (outcome : Outcome) (actor : String) (correction : Option String)
    (evidence : Option Fields) (db' : WorkDb) (found : ReliabilityStatus)
    → record_attempt db env project work incident attempt stage number outcome actor correction
        evidence
      ≡ ok (db', found)
    → Change db db'
unfolding record_attempt
record_attempt-Change db env project work incident attempt stage number outcome actor correction
      evidence db' found h =
    >>=-then
      (new_result project work incident attempt stage number outcome actor correction evidence) _ h
      λ a ha h₁. attempt_row-Recorded db env a db' found h₁ λ w i hw hi owner st r. elim r [
        | inl (x, hx, same_text, same) ↦ subst (Change db) same (keeps (Keeps-refl db))
        | inr (j, c) ↦ records_attempt env a j c
      ]

-- Every step of a history makes one of the changes.
pub step-Change : (db : WorkDb) (o : Op) → Change db (step db o)
unfolding step
step-Change db (creates_project project name sponsors) =
    or_same-Change db _ (create_project-Change db project name sponsors)
step-Change db (creates_work env project work title owner actor correlation) =
    committed-Change db _ λ db' read h.
      let (w, c) =
        create_work_item-Creates db env project work title owner actor correlation db' read h in
      creates w c
step-Change db (transitions env project work target actor correlation expected reason evidence) =
    committed-Change db _
      (transition-Change db env project work target actor correlation expected reason evidence)
step-Change db (opens env project work gate kind requester sponsors correlation expected evidence) =
    committed-Change db _ (
      open_gate-Change db env project work gate kind requester sponsors correlation expected
        evidence)
step-Change db (decides env project gate sponsor decision rationale evidence) =
    committed-Change db _
      (decide_gate-Change db env project gate sponsor decision rationale evidence)
step-Change db (starts env project work key category summary source actor) =
    committed-Change db _ (start-Change db env project work key category summary source actor)
step-Change db
      (records env project work incident attempt stage number outcome actor correction evidence) =
    committed-Change db _ (
      record_attempt-Change db env project work incident attempt stage number outcome actor
        correction evidence)
step-Change db (others db') = keeps (record {
  works_kept = refl;
  gates_kept = refl;
  approvals_kept = refl;
  incidents_kept = refl;
  attempts_kept = refl;
})

-- ===== src/Lifecycle/Moving.antt =====
-- What transition_work_item has done where it returns.
use Prim.Native.String.{◌++◌ as append_text}
use agentic_mesh.Prelude.{
  ℕ, ◌+◌, String, true, false, Option, some, ◌≡◌, ◌==◌, ◌&&◌, not, leb, eqb, any_of, find_if,
  update_if, guard, guard-ok, not-true, ok, err, >>=-then, >>-then, or_raise-ok, ok-injective,
  subst, ap,
}
use agentic_mesh.Prelude.Sets.{contains}
use agentic_mesh.Prelude.Json.{Fields}
use agentic_mesh.Prelude.Int.{ℤ}
use agentic_mesh.Journal.{Journaled, bad_value}
use agentic_mesh.Work.{WorkItem, Incident, WorkDb, has_work_key, is_open_incident}
use agentic_mesh.Work.Rows.{publish-Keeps}
use agentic_mesh.Lifecycle.{
  Lived, conflicting, transaction_failed, WorkEnv, lifecycle_required, from_journal,
  outbound_payload, direct_transitions, lock_work_item, checked_reason, version_of,
  exhausted_incident, with_incident, move_work, end_incident, is_ended_by, move_rows, moved_event,
  transition_row, evidence_or_empty, get_work_item, transition_work_item,
}

pub from_journal-ok {ℓ} : {A : Type ℓ} (r : Journaled A) (a : A) → from_journal r ≡ ok a → r ≡ ok a
from_journal-ok (ok b) a h = ap ok (ok-injective h)
from_journal-ok (err (bad_value m)) a h = cc
from_journal-ok (err e) a h = cc

-- The work item moved from `current` to the target, and the incident that it names ended.
pub record Moves (db : WorkDb) (env : WorkEnv) (project work target : String) (expected : ℕ)
    (reason : Option String) (evidence : Fields) (current : WorkItem) (incident : Option Incident)
    (db' : WorkDb) : Type 0 where
  pub work_found : find_if (has_work_key project work) db.works ≡ some current
  pub fresh_version : eqb current.version expected ≡ true
  pub allowed : contains (direct_transitions current.status) target ≡ true
  pub recovered_before :
      ((target == "completed") && any_of (is_open_incident project work) db.incidents) ≡ false
  pub incident_found : exhausted_incident db target project work ≡ ok incident
  pub gates_kept : db'.gates ≡ db.gates
  pub approvals_kept : db'.approvals ≡ db.approvals
  pub attempts_kept : db'.attempts ≡ db.attempts
  pub work_moved :
      db'.works
      ≡ update_if
          (has_work_key project work)
          (move_work (env.clock 0) target reason (with_incident incident evidence))
          db.works
  pub incident_ended :
      db'.incidents
      ≡ update_if (is_ended_by project incident) (end_incident (env.clock 1)) db.incidents

pub transition_row-Moves {ℓ} :
    {P : Type ℓ} (db : WorkDb) (env : WorkEnv) (project work target actor correlation : String)
    (expected : ℕ) (reason : Option String) (evidence : Fields) (db' : WorkDb)
    → transition_row db env project work target actor correlation expected reason evidence ≡ ok db'
    → ((current : WorkItem) (incident : Option Incident)
        → Moves db env project work target expected reason evidence current incident db'
        → P)
    → P
unfolding transition_row lock_work_item move_rows
transition_row-Moves db env project work target actor correlation expected reason evidence db' h k =
    >>=-then (lock_work_item db project work) _ h λ current hw h₁.
      >>-then (guard (eqb current.version expected) (conflicting "work item version is stale")) _ h₁
        λ same h₂.
          >>-then
            (guard (contains (direct_transitions current.status) target) (
              conflicting (
                append_text "invalid work item transition: "
                  (append_text current.status (append_text " -> " target)))))
            _ h₂
            λ allowed h₃.
              >>-then
                (guard
                  (not (
                    (target == "completed") && any_of (is_open_incident project work) db.incidents))
                  (conflicting "completed work requires its failure incident to be resolved"))
                _ h₃
                λ resolved h₄.
                  >>=-then (exhausted_incident db target project work) _ h₄ λ incident hi h₅.
                    >>-then (guard (leb (current.version + 1) 2147483647) transaction_failed) _ h₅
                      λ fits h₆.
                        let kept =
                          publish-Keeps env.sha256 (env.clock 2)
                            (move_rows db env project work target reason
                              (with_incident incident evidence) incident)
                            (moved_event project work actor correlation target (current.version + 1)
                              reason (with_incident incident evidence))
                            "lifecycle.events"
                            (outbound_payload project work (append_text "work." target) target) db'
                            (from_journal-ok _ db' h₆) in
                        k current incident (record {
                          work_found = or_raise-ok _ _ hw;
                          fresh_version = guard-ok _ _ same;
                          allowed = guard-ok _ _ allowed;
                          recovered_before = not-true _ (guard-ok _ _ resolved);
                          incident_found = hi;
                          gates_kept = kept.gates_kept;
                          approvals_kept = kept.approvals_kept;
                          attempts_kept = kept.attempts_kept;
                          work_moved = kept.works_kept;
                          incident_ended = kept.incidents_kept;
                        })

-- What a successful call says of its arguments and its result.
pub transition_work_item-Moves {ℓ} :
    {P : Type ℓ} (db : WorkDb) (env : WorkEnv) (project work target actor correlation : String)
    (expected : ℤ) (reason : String) (evidence : Option Fields) (db' : WorkDb)
    (read : Lived WorkItem)
    → transition_work_item db env project work target actor correlation expected reason evidence
      ≡ ok (db', read)
    → ((p k t : String) (v : ℕ) (r : Option String) (current : WorkItem)
          (incident : Option Incident)
        → lifecycle_required project "project_id" ≡ ok p
        → lifecycle_required work "work_item_id" ≡ ok k
        → lifecycle_required target "target_status" ≡ ok t
        → version_of expected ≡ ok v
        → Moves db env p k t v r (evidence_or_empty evidence) current incident db'
        → get_work_item db' p k ≡ read
        → P)
    → P
unfolding transition_work_item
transition_work_item-Moves db env project work target actor correlation expected reason evidence db'
      read h done =
    >>=-then (lifecycle_required project "project_id") _ h λ p hp h₁.
      >>=-then (lifecycle_required work "work_item_id") _ h₁ λ k hk h₂.
        >>=-then (lifecycle_required target "target_status") _ h₂ λ t ht h₃.
          >>=-then (lifecycle_required actor "actor_id") _ h₃ λ a ha h₄.
            >>=-then (lifecycle_required correlation "correlation_id") _ h₄ λ c hc h₅.
              >>=-then (version_of expected) _ h₅ λ v hv h₆.
                >>=-then (checked_reason t reason) _ h₆ λ r hr h₇.
                  >>=-then (transition_row db env p k t a c v r (evidence_or_empty evidence)) _ h₇
                    λ d hd h₈.
                      let last : d ≡ db' = ap (λ x. x.0) (ok-injective h₈) in
                      let result = ap (λ x. x.1) (ok-injective h₈) in
                      transition_row-Moves db env p k t a c v r (evidence_or_empty evidence) d hd
                        λ current incident m.
                          done p k t v r current incident hp hk ht hv
                            (subst
                              (Moves db env p k t v r (evidence_or_empty evidence) current incident)
                              last m)
                            (subst (λ x. get_work_item x p k ≡ read) last result)

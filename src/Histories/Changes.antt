-- ===== src/Histories/Changes.antt =====
-- The changes that one operation can make, as a relation between tables, and those of create_project
-- and transition_work_item.
use agentic_mesh.Prelude.{
  ℕ, String, Option, some, List, ◌≡◌, refl, subst, ◌==◌, not, any_of, guard, Result, ok, err,
  >>=-then, >>-then, ok-injective,
}
use agentic_mesh.Prelude.Sets.{has_duplicates}
use agentic_mesh.Prelude.Json.{Fields}
use agentic_mesh.Prelude.Int.{ℤ}
use agentic_mesh.Queue.Store.{has_pair}
use agentic_mesh.Work.{
  technical, WorkItem, IncidentStatus, Incident, GateStatus, pending, Gate, Approval, WorkDb,
}
use agentic_mesh.Work.Rows.{Keeps, Keeps-refl}
use agentic_mesh.Lifecycle.{
  Lived, WorkEnv, bad_argument, conflicting, lifecycle_required, required_each, is_empty_list,
  evidence_or_empty, create_project, transition_work_item,
}
use agentic_mesh.Lifecycle.Moving.{Moves, transition_work_item-Moves}
use agentic_mesh.Lifecycle.Gates.{decision_status}
use agentic_mesh.Lifecycle.Gating.{Creates, Opens, Decides}
use agentic_mesh.Reliability.{RetryEnv}
use agentic_mesh.Reliability.Results.{AttemptResult}
use agentic_mesh.Reliability.Recording.{Records}
use agentic_mesh.Reliability.Starting.{Starts}
use agentic_mesh.Histories.{committed, or_same}

pub data Change (db db' : WorkDb) : Type 0 where
  keeps : Keeps db db' → Change db db'
  creates : (w : WorkItem) → Creates db w db' → Change db db'
  moves :
      (env : WorkEnv) (project work target : String) (expected : ℕ) (reason : Option String)
      (evidence : Fields) (current : WorkItem) (incident : Option Incident)
      → Moves db env project work target expected reason evidence current incident db'
      → Change db db'
  opens_gate :
      (env : WorkEnv) (g : Gate) (sponsors : List String) (expected : ℤ) (current : WorkItem)
      → g.status ≡ pending
      → Opens db env g sponsors expected current db'
      → Change db db'
  decides_gate :
      (env : WorkEnv) (project gate sponsor decision : String) (status : GateStatus)
      (rationale : String) (evidence : Fields) (g : Gate) (a : Approval) (current : WorkItem)
      → decision_status decision ≡ ok status
      → Decides db env project gate sponsor decision status rationale evidence g a current db'
      → Change db db'
  starts_incident :
      (i : Incident)
      → i.status ≡ IncidentStatus.active
      → i.next ≡ some (technical, 1)
      → Starts db i db'
      → Change db db'
  records_attempt :
      (env : RetryEnv) (a : AttemptResult) (i : Incident) → Records db env a i db' → Change db db'

-- An operation that fails keeps the tables.
pub committed-Change {ℓ κ} :
    {E : Type ℓ} {A : Type κ} (db : WorkDb) (r : Result E (WorkDb × A))
    → ((db' : WorkDb) (a : A) → r ≡ ok (db', a) → Change db db')
    → Change db (committed db r)
committed-Change db (ok (db', a)) h = h db' a refl
committed-Change db (err e) h = keeps (Keeps-refl db)

pub or_same-Change {ℓ} :
    {E : Type ℓ} (db : WorkDb) (r : Result E WorkDb)
    → ((db' : WorkDb) → r ≡ ok db' → Change db db')
    → Change db (or_same db r)
or_same-Change db (ok db') h = h db' refl
or_same-Change db (err e) h = keeps (Keeps-refl db)

pub create_project-Change :
    (db : WorkDb) (project name : String) (sponsor_ids : List String) (db' : WorkDb)
    → create_project db project name sponsor_ids ≡ ok db'
    → Change db db'
unfolding create_project
create_project-Change db project name sponsor_ids db' h =
    >>=-then (lifecycle_required project "project_id") _ h λ p hp h₁.
      >>=-then (lifecycle_required name "display_name") _ h₁ λ n hn h₂.
        >>=-then (required_each sponsor_ids "sponsor_id") _ h₂ λ ss hs h₃.
          >>-then
            (guard (not (is_empty_list ss)) (bad_argument "at least one sponsor_id is required")) _
            h₃
            λ some_sponsor h₄.
              >>-then (guard (not (has_duplicates ss)) (bad_argument "sponsor_ids must be unique"))
                _ h₄
                λ distinct h₅.
                  >>-then
                    (guard (not (any_of (λ q. q.project_id == p) db.projects))
                      (conflicting "project or sponsor already exists"))
                    _ h₅
                    λ fresh h₆.
                      >>-then
                        (guard (not (any_of (λ s. has_pair p s db.sponsors) ss))
                          (conflicting "project or sponsor already exists"))
                        _ h₆
                        λ fresh_sponsors h₇. subst (Change db) (ok-injective h₇) (
                          keeps (record {
                            works_kept = refl;
                            gates_kept = refl;
                            approvals_kept = refl;
                            incidents_kept = refl;
                            attempts_kept = refl;
                          }))

pub transition-Change :
    (db : WorkDb) (env : WorkEnv) (project work target actor correlation : String) (expected : ℤ)
    (reason : String) (evidence : Option Fields) (db' : WorkDb) (read : Lived WorkItem)
    → transition_work_item db env project work target actor correlation expected reason evidence
      ≡ ok (db', read)
    → Change db db'
transition-Change db env project work target actor correlation expected reason evidence db' read h =
    transition_work_item-Moves db env project work target actor correlation expected reason evidence
      db' read h
      λ p k t v r current incident hp hk ht hv m same.
        moves env p k t v r (evidence_or_empty evidence) current incident m

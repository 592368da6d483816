-- ===== src/Histories/Invariant.antt =====
-- The retry policy over histories.
use agentic_mesh.Prelude.{
  ℕ, ◌≤◌, String, true, Option, none, some, List, [], ◌∷◌, ◌≡◌, refl, sym, subst, find_if, count_if,
  update_if, inl, inr, if◌then◌else◌, Bool-cases, find_if-update, count_if-update_same,
}
use mathlib.Core.Option
use agentic_mesh.Work.{Incident, IncidentStatus, Attempt, WorkDb, has_incident_key}
use agentic_mesh.Lifecycle.{is_exhausted_status, end_incident, is_ended_by}
use agentic_mesh.Reliability.{is_active_incident}
use agentic_mesh.Reliability.Results.{new_attempt}
use agentic_mesh.Reliability.Policy.{follows, row_follows, is_failure_of, FollowsPolicy, is_next-eq}
use agentic_mesh.Reliability.Incidents.{is_attempt_of}
use agentic_mesh.Reliability.Rows.{attempt-FollowsPolicy}
use agentic_mesh.Reliability.Starting.{new-FollowsPolicy}
use agentic_mesh.Histories.{Op, step, run}
use agentic_mesh.Histories.Changes.{
  Change, keeps, creates, moves, opens_gate, decides_gate, starts_incident, records_attempt,
}
use agentic_mesh.Histories.Steps.{step-Change}

active-eq : (s : IncidentStatus) → is_active_incident s ≡ true → s ≡ IncidentStatus.active
active-eq IncidentStatus.active h = refl
active-eq IncidentStatus.recovered h = cc
active-eq IncidentStatus.terminal_eligible h = cc
active-eq IncidentStatus.terminal h = cc

ended-own :
    (now n f : ℕ) (i : Incident) (s : IncidentStatus)
    → i.status ≡ s
    → row_follows (some i) n f ≡ true
    → row_follows (some (if is_exhausted_status i.status then end_incident now i else i)) n f ≡ true
unfolding row_follows follows end_incident
ended-own now n f i IncidentStatus.active e h = rw e (rw e at h)
ended-own now n f i IncidentStatus.recovered e h = rw e (rw e at h)
ended-own now n f i IncidentStatus.terminal_eligible e h = rw e (rw e at h)
ended-own now n f i IncidentStatus.terminal e h = rw e (rw e at h)

-- An incident that becomes terminal keeps the policy, since it was exhausted.
ended-row :
    (project : String) (e : Option Incident) (now n f : ℕ) (o : Option Incident)
    → row_follows o n f ≡ true
    → row_follows
        (Option.map (λ x. if is_ended_by project e x then end_incident now x else x) o)
        n
        f
      ≡ true
unfolding row_follows follows is_ended_by end_incident
ended-row project e now n f none h = h
ended-row project none now n f (some i) h = h
ended-row project (some found) now n f (some i) h =
    elim (Bool-cases (has_incident_key project found.incident_id i)) [
      | inr away ↦ rw away h
      | inl own ↦ rw own (ended-own now n f i i.status refl h)
    ]

ended-key :
    (now : ℕ) (p k : String) (i : Incident)
    → has_incident_key p k (end_incident now i) ≡ has_incident_key p k i
unfolding has_incident_key end_incident
ended-key now p k i = refl

ended-FollowsPolicy :
    (project : String) (e : Option Incident) (now : ℕ) (incidents : List Incident)
    (attempts : List Attempt)
    → FollowsPolicy incidents attempts
    → FollowsPolicy (update_if (is_ended_by project e) (end_incident now) incidents) attempts
ended-FollowsPolicy project e now incidents attempts v = record {
  incident_once = λ p k.
      subst (λ c. c ≤ 1)
        (sym (
          count_if-update_same (has_incident_key p k) (is_ended_by project e) (end_incident now)
            incidents (ended-key now p k)))
        (v.incident_once p k);
  followed = λ p k.
      subst
        (λ o.
          row_follows o (count_if (is_attempt_of p k) attempts)
            (count_if (is_failure_of p k) attempts)
          ≡ true)
        (sym (
          find_if-update (has_incident_key p k) (is_ended_by project e) (end_incident now) incidents
            (ended-key now p k)))
        (ended-row project e now (count_if (is_attempt_of p k) attempts)
          (count_if (is_failure_of p k) attempts) (find_if (has_incident_key p k) incidents)
          (v.followed p k));
  placed = v.placed;
}

-- The policy reads the tables of incidents and attempts only.
same-FollowsPolicy :
    (is is' : List Incident) (ys ys' : List Attempt)
    → is' ≡ is
    → ys' ≡ ys
    → FollowsPolicy is ys
    → FollowsPolicy is' ys'
same-FollowsPolicy is is' ys ys' e f v =
    subst (λ x. FollowsPolicy x ys') (sym e) (subst (λ x. FollowsPolicy is x) (sym f) v)

Change-FollowsPolicy :
    (db db' : WorkDb)
    → Change db db'
    → FollowsPolicy db.incidents db.attempts
    → FollowsPolicy db'.incidents db'.attempts
Change-FollowsPolicy db db' (keeps k) v =
    same-FollowsPolicy db.incidents db'.incidents db.attempts db'.attempts k.incidents_kept
      k.attempts_kept v
Change-FollowsPolicy db db' (creates w c) v =
    same-FollowsPolicy db.incidents db'.incidents db.attempts db'.attempts c.incidents_kept
      c.attempts_kept v
Change-FollowsPolicy db db' (opens_gate env g sponsors expected current p o) v =
    same-FollowsPolicy db.incidents db'.incidents db.attempts db'.attempts o.incidents_kept
      o.attempts_kept v
Change-FollowsPolicy db db'
      (decides_gate env project gate sponsor decision status rationale evidence g a current p d) v =
    same-FollowsPolicy db.incidents db'.incidents db.attempts db'.attempts d.incidents_kept
      d.attempts_kept v
Change-FollowsPolicy db db'
      (moves env project work target expected reason evidence current incident m) v =
    same-FollowsPolicy _ db'.incidents db.attempts db'.attempts m.incident_ended m.attempts_kept
      (ended-FollowsPolicy project incident (env.clock 1) db.incidents db.attempts v)
Change-FollowsPolicy db db' (starts_incident i active first s) v =
    same-FollowsPolicy (i ∷ db.incidents) db'.incidents db.attempts db'.attempts s.incident_added
      s.attempts_kept (new-FollowsPolicy i db.incidents db.attempts active first s.fresh v)
Change-FollowsPolicy db db' (records_attempt env a i r) v =
    same-FollowsPolicy _ db'.incidents (new_attempt env a ∷ db.attempts) db'.attempts
      r.incident_advanced r.attempt_added
      (attempt-FollowsPolicy (env.clock 2) a.stage a.attempt_number i (new_attempt env a)
        db.incidents db.attempts v r.incident_found (active-eq i.status r.accepting)
        (is_next-eq a.stage a.attempt_number i.next r.in_turn) refl refl refl)

-- Every history of the operations on work and its failures, with any writes of other components to
-- their own tables, keeps the policy: keys of incidents are unique; the recorded attempts of an
-- incident, as many as there are, have its first places in the order of three technical attempts,
-- three corrections and one recovery, one attempt at each place, by ordinal, stage and number; and
-- an active incident's next attempt is the place after them, which all failed. A recovered incident has one successful attempt
-- and at most six failed ones; a terminal incident, or one that may become terminal, has
-- seven attempts, which all failed.
pub run-FollowsPolicy :
    (db : WorkDb) (os : List Op)
    → FollowsPolicy db.incidents db.attempts
    → FollowsPolicy (run db os).incidents (run db os).attempts
unfolding run
run-FollowsPolicy db [] v = v
run-FollowsPolicy db (o ∷ os) v =
    run-FollowsPolicy (step db o) os (Change-FollowsPolicy db (step db o) (step-Change db o) v)

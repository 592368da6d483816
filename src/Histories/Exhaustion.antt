-- ===== src/Histories/Exhaustion.antt =====
-- The way of a work item into the status of an error.
use agentic_mesh.Prelude.{
  ℕ, String, true, false, Option, some, List, ◌≡◌, refl, sym, subst, ◌∙◌, ◌==◌, ◌&&◌, arith, eq_iff,
  find_if, count_if, Any, find_if-Any, find_if-true, &&-true, or_raise, or_raise-ok, >>=-then, ok,
  err, Bool-cases, inl, inr, ok-injective,
}
use agentic_mesh.Prelude.Text.{strip}
use agentic_mesh.Prelude.Json.{Fields}
use agentic_mesh.Prelude.Int.{ℤ}
use agentic_mesh.Work.{IncidentStatus, Incident, Attempt, WorkItem, WorkDb, has_incident_key}
use agentic_mesh.Work.Rows.{find_if_unique}
use agentic_mesh.Lifecycle.{
  Lived, WorkEnv, conflicting, lifecycle_required, bad_argument, is_exhausted_status, is_exhausted,
  exhausted_incident, transition_work_item,
}
use agentic_mesh.Lifecycle.Moving.{transition_work_item-Moves}
use agentic_mesh.Reliability.Policy.{FollowsPolicy, is_failure_of, follows, row_follows}
use agentic_mesh.Reliability.Incidents.{is_attempt_of}
use agentic_mesh.Histories.{Op, run}
use agentic_mesh.Histories.Invariant.{run-FollowsPolicy}

required-empty :
    (value name : String)
    → (strip value == "") ≡ true
    → lifecycle_required value name ≡ err (bad_argument name)
unfolding lifecycle_required
required-empty value name e = rw e refl

required-full :
    (value name : String)
    → (strip value == "") ≡ false
    → lifecycle_required value name ≡ ok (strip value)
unfolding lifecycle_required
required-full value name e = rw e refl

-- `_required` gives its argument without the white space around it.
pub lifecycle_required-ok :
    (value name result : String) → lifecycle_required value name ≡ ok result → strip value ≡ result
lifecycle_required-ok value name result h = elim (Bool-cases (strip value == "")) [
  | inl e ↦ cc (required-empty value name e, h)
  | inr e ↦ ok-injective (sym (required-full value name e) ∙ h)
]

exhausted-status :
    (s : IncidentStatus) → is_exhausted_status s ≡ true → s ≡ IncidentStatus.terminal_eligible
exhausted-status IncidentStatus.terminal_eligible h = refl
exhausted-status IncidentStatus.active h = cc
exhausted-status IncidentStatus.recovered h = cc
exhausted-status IncidentStatus.terminal h = cc

exhausted-counts :
    (i : Incident) (n f : ℕ)
    → i.status ≡ IncidentStatus.terminal_eligible
    → row_follows (some i) n f ≡ true
    → (n ≡ 7) × (f ≡ 7)
unfolding row_follows follows
exhausted-counts i n f e h =
    let k : follows IncidentStatus.terminal_eligible i.next n f ≡ true = rw e at h in
    (ground (arith, k), ground (arith, k))

has_incident_key_self : (i : Incident) → has_incident_key i.project_id i.incident_id i ≡ true
unfolding has_incident_key
has_incident_key_self i =
    ground (
      arith,
      (eq_iff i.project_id i.project_id).1 refl,
      (eq_iff i.incident_id i.incident_id).1 refl,
    )

-- An incident that is found among those that may become terminal has seven failed attempts.
exhausted-seven :
    (incidents : List Incident) (attempts : List Attempt) (p k : String) (i : Incident)
    → FollowsPolicy incidents attempts
    → find_if (is_exhausted p k) incidents ≡ some i
    → (i.project_id ≡ p)
      × (i.work_item_id ≡ k)
      × (count_if (is_attempt_of i.project_id i.incident_id) attempts ≡ 7)
      × (count_if (is_failure_of i.project_id i.incident_id) attempts ≡ 7)
unfolding is_exhausted
exhausted-seven incidents attempts p k i v found =
    let own = find_if-true (is_exhausted p k) incidents i found in
    let (keys, status) =
      &&-true ((i.project_id == p) && (i.work_item_id == k)) (is_exhausted_status i.status) own in
    let (project, work) = &&-true (i.project_id == p) (i.work_item_id == k) keys in
    let row =
      find_if_unique (has_incident_key i.project_id i.incident_id) incidents i
        (v.incident_once i.project_id i.incident_id)
        (find_if-Any (is_exhausted p k) incidents i found) (has_incident_key_self i) in
    let (n, f) = exhausted-counts i _ _ (exhausted-status i.status status) (
      subst
        (λ o.
          row_follows o (count_if (is_attempt_of i.project_id i.incident_id) attempts)
            (count_if (is_failure_of i.project_id i.incident_id) attempts)
          ≡ true)
        row (v.followed i.project_id i.incident_id)) in
    ((eq_iff i.project_id p).0 project, (eq_iff i.work_item_id k).0 work, n, f)

exhausted_incident-found :
    (db : WorkDb) (t p k : String) (o : Option Incident)
    → t ≡ "error"
    → exhausted_incident db t p k ≡ ok o
    → (i : Incident) × (find_if (is_exhausted p k) db.incidents ≡ some i) × (o ≡ some i)
unfolding exhausted_incident
exhausted_incident-found db t p k o e h =
    let first : exhausted_incident db "error" p k ≡ ok o =
      subst (λ x. exhausted_incident db x p k ≡ ok o) e h in
    >>=-then
      (or_raise (find_if (is_exhausted p k) db.incidents)
        (conflicting "terminal error requires exhausted retry and recovery chain"))
      _ first λ i hi h₁. (i, or_raise-ok _ _ hi, sym (ok-injective h₁))

-- Work becomes an error only after its failures: where a transition to "error" succeeds after any
-- history, there is an incident of that work item, with exactly seven recorded attempts, of which
-- all seven failed.
pub error-exhausted :
    (db : WorkDb) (os : List Op) (env : WorkEnv) (project work target actor correlation : String)
    (expected : ℤ) (reason : String) (evidence : Option Fields) (db' : WorkDb)
    (read : Lived WorkItem)
    → FollowsPolicy db.incidents db.attempts
    → strip target ≡ "error"
    → transition_work_item
        (run db os)
        env
        project
        work
        target
        actor
        correlation
        expected
        reason
        evidence
      ≡ ok (db', read)
    → (i : Incident) × Any (λ x. x ≡ i) (run db os).incidents
      × (i.project_id ≡ strip project)
      × (i.work_item_id ≡ strip work)
      × (count_if (is_attempt_of i.project_id i.incident_id) (run db os).attempts ≡ 7)
      × (count_if (is_failure_of i.project_id i.incident_id) (run db os).attempts ≡ 7)
error-exhausted db os env project work target actor correlation expected reason evidence db' read v
      e h =
    transition_work_item-Moves (run db os) env project work target actor correlation expected reason
      evidence db' read h
      λ p k t version r current incident hp hk ht hv m same.
        let t-error = sym (lifecycle_required-ok target _ t ht) ∙ e in
        let (i, found, named) =
          exhausted_incident-found (run db os) t p k incident t-error m.incident_found in
        let (own_project, own_work, n, f) =
          exhausted-seven (run db os).incidents (run db os).attempts p k i
            (run-FollowsPolicy db os v) found in
        (
          i,
          find_if-Any (is_exhausted p k) (run db os).incidents i found,
          own_project ∙ sym (lifecycle_required-ok project _ p hp),
          own_work ∙ sym (lifecycle_required-ok work _ k hk),
          n,
          f,
        )

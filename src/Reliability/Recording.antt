-- ===== src/Reliability/Recording.antt =====
-- What record_attempt has done where it returns.
use agentic_mesh.Prelude.{
  String, true, false, Option, none, some, ◌∷◌, ◌≡◌, refl, sym, subst, ap, ◌∙◌, ◌==◌, not, any_of,
  find_if, update_if, guard, guard-ok, not-true, ok, >>=-then, >>-then, or_raise, or_raise-ok,
  ok-injective, inl, inr, ◌⊎◌,
}
use agentic_mesh.Work.{WorkItem, Incident, Attempt, WorkDb, has_work_key, has_incident_key}
use agentic_mesh.Reliability.{
  RetryEnv, conflicts, unknown, policy_failed, is_next, is_active_incident, request_fingerprint_of,
}
use agentic_mesh.Reliability.Incidents.{ReliabilityStatus, status_of}
use agentic_mesh.Reliability.Attempts.{record_new, record_once, attempt_row}
use agentic_mesh.Reliability.Results.{
  AttemptResult, result_request, check_supervisor, has_correction, correction_digest_of,
  new_attempt, attempt_collides, has_attempt_key, insert_attempt,
}
use agentic_mesh.Reliability.Steps.{report_attempt-Keeps}
use agentic_mesh.Reliability.Advancing.{advanced, Advances, apply_outcome-Advances}

-- A new attempt was recorded for the active incident `i` at its next place.
pub record Records (db : WorkDb) (env : RetryEnv) (a : AttemptResult) (i : Incident) (db' : WorkDb)
    : Type 0 where
  pub incident_found : find_if (has_incident_key a.project_id a.incident_id) db.incidents ≡ some i
  pub accepting : is_active_incident i.status ≡ true
  pub in_turn : is_next a.stage a.attempt_number i.next ≡ true
  pub uncorrected :
      any_of
        (has_correction a.project_id a.incident_id (correction_digest_of env a.correction))
        db.attempts
      ≡ false
  pub works_kept : db'.works ≡ db.works
  pub gates_kept : db'.gates ≡ db.gates
  pub approvals_kept : db'.approvals ≡ db.approvals
  pub attempt_added : db'.attempts ≡ new_attempt env a ∷ db.attempts
  pub incident_advanced :
      db'.incidents
      ≡ update_if
          (has_incident_key a.project_id a.incident_id)
          (advanced (env.clock 2) a.outcome a.stage a.attempt_number)
          db.incidents

insert_attempt-adds :
    (db : WorkDb) (x : Attempt) (d : WorkDb)
    → insert_attempt db x ≡ ok d
    → record db { attempts = x ∷ db.attempts } ≡ d
unfolding insert_attempt
insert_attempt-adds db x d h =
    >>-then (guard (not (any_of (attempt_collides x) db.attempts)) policy_failed) _ h
      λ fresh h₁. ok-injective h₁

-- what the outcome of the attempt does
abbrev AdvancesBy : RetryEnv → AttemptResult → WorkDb → WorkDb → Type 0
AdvancesBy env a db' d =
    Advances a.project_id a.incident_id (advanced (env.clock 2) a.outcome a.stage a.attempt_number)
      d db'

record_new-Records :
    (db : WorkDb) (env : RetryEnv) (a : AttemptResult) (w : WorkItem) (i : Incident) (db' : WorkDb)
    (action : String)
    → find_if (has_incident_key a.project_id a.incident_id) db.incidents ≡ some i
    → record_new db env a w i ≡ ok (db', action)
    → Records db env a i db'
unfolding record_new insert_attempt
record_new-Records db env a w i db' action found h =
    let repeated =
      any_of (has_correction a.project_id a.incident_id (correction_digest_of env a.correction))
        db.attempts in
    >>-then
      (guard (is_active_incident i.status) (conflicts "failure incident is not accepting attempts"))
      _ h
      λ accepting h₁.
        >>-then (guard (w.status == "active") (conflicts "work item is not active for retry")) _ h₁
          λ working h₂.
            >>-then
              (guard (is_next a.stage a.attempt_number i.next)
                (conflicts "attempt does not match the required retry stage"))
              _ h₂
              λ in_turn h₃. >>-then (check_supervisor db a) _ h₃ λ verified h₄.
                >>-then
                  (guard (not repeated) (conflicts "PM correction instruction must be distinct")) _
                  h₄
                  λ distinct h₅. >>=-then (insert_attempt db (new_attempt env a)) _ h₅ λ d hd h₆.
                    let adv =
                      subst (AdvancesBy env a db')
                        (sym (insert_attempt-adds db (new_attempt env a) d hd))
                        (apply_outcome-Advances a.outcome d env a i db' action h₆) in
                    record {
                      incident_found = found;
                      accepting = guard-ok _ _ accepting;
                      in_turn = guard-ok _ _ in_turn;
                      uncorrected = not-true _ (guard-ok _ _ distinct);
                      works_kept = adv.works_kept;
                      gates_kept = adv.gates_kept;
                      approvals_kept = adv.approvals_kept;
                      attempt_added = adv.attempts_kept;
                      incident_advanced = adv.advanced_row;
                    }

-- The attempt was recorded before, and nothing changes, or it is new.
abbrev pub Recorded : WorkDb → RetryEnv → AttemptResult → WorkDb → Type 0
Recorded db env a db' =
    ((x : Attempt) × (find_if (has_attempt_key a.project_id a.attempt_id) db.attempts ≡ some x)
      × ((x.request_fingerprint == request_fingerprint_of env (result_request a)) ≡ true)
      × (db ≡ db'))
    ⊎ ((i : Incident) × Records db env a i db')

record_once-Recorded :
    (db : WorkDb) (env : RetryEnv) (a : AttemptResult) (w : WorkItem) (i : Incident)
    (o : Option Attempt) (db' : WorkDb) (found : ReliabilityStatus)
    → find_if (has_attempt_key a.project_id a.attempt_id) db.attempts ≡ o
    → find_if (has_incident_key a.project_id a.incident_id) db.incidents ≡ some i
    → record_once db env a w i o ≡ ok (db', found)
    → (status_of db' a.project_id a.incident_id ≡ ok found) × Recorded db env a db'
unfolding record_once
record_once-Recorded db env a w i (some x) db' found hx hi h =
    >>-then
      (guard (x.request_fingerprint == request_fingerprint_of env (result_request a))
        (conflicts "attempt id is already used by a different result"))
      _ h
      λ same h₁. >>=-then (status_of db a.project_id a.incident_id) _ h₁ λ s hs h₂.
        let db-same : db ≡ db' = ap (λ x. x.0) (ok-injective h₂) in
        let s-same : s ≡ found = ap (λ x. x.1) (ok-injective h₂) in
        (
          subst (λ d. status_of d a.project_id a.incident_id ≡ ok found) db-same
              (hs ∙ ap ok s-same),
          inl (x, hx, guard-ok _ _ same, db-same),
        )
record_once-Recorded db env a w i none db' found hx hi h =
    >>=-then (record_new db env a w i) _ h λ y hy h₁.
      let r = record_new-Records db env a w i y.0 y.1 hi hy in
      let (k, st) = report_attempt-Keeps y.0 env a y.1 db' found h₁ in
      (
        st,
        inr (
          i,
          record {
            incident_found = r.incident_found;
            accepting = r.accepting;
            in_turn = r.in_turn;
            uncorrected = r.uncorrected;
            works_kept = k.works_kept ∙ r.works_kept;
            gates_kept = k.gates_kept ∙ r.gates_kept;
            approvals_kept = k.approvals_kept ∙ r.approvals_kept;
            attempt_added = k.attempts_kept ∙ r.attempt_added;
            incident_advanced = k.incidents_kept ∙ r.incident_advanced;
          },
        ),
      )

-- A call that returns found the work item and an incident of that work item.
pub attempt_row-Recorded {ℓ} :
    {P : Type ℓ} (db : WorkDb) (env : RetryEnv) (a : AttemptResult) (db' : WorkDb)
    (found : ReliabilityStatus)
    → attempt_row db env a ≡ ok (db', found)
    → ((w : WorkItem) (i : Incident)
        → find_if (has_work_key a.project_id a.work_item_id) db.works ≡ some w
        → find_if (has_incident_key a.project_id a.incident_id) db.incidents ≡ some i
        → (i.work_item_id == a.work_item_id) ≡ true
        → status_of db' a.project_id a.incident_id ≡ ok found
        → Recorded db env a db'
        → P)
    → P
unfolding attempt_row
attempt_row-Recorded db env a db' found h k =
    >>=-then
      (or_raise (find_if (has_work_key a.project_id a.work_item_id) db.works)
        (unknown "work item not found"))
      _ h
      λ w hw h₁.
        >>=-then
          (or_raise (find_if (has_incident_key a.project_id a.incident_id) db.incidents)
            (unknown "failure incident not found"))
          _ h₁
          λ i hi h₂.
            >>-then
              (guard (i.work_item_id == a.work_item_id) (unknown "failure incident not found")) _ h₂
              λ owner h₃.
                let there = or_raise-ok _ _ hi in
                let (st, r) = record_once-Recorded db env a w i _ db' found refl there h₃ in
                k w i (or_raise-ok _ _ hw) there (guard-ok _ _ owner) st r

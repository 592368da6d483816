-- ===== src/Reliability/Repeats.antt =====
-- A repeated call of record_attempt.
use agentic_mesh.Prelude.{
  ℕ, String, true, Option, some, List, ◌∷◌, ◌≡◌, refl, sym, subst, ap, ◌∙◌, ◌==◌, eq_iff, find_if,
  ok, >>=-then, some-injective, Bool-cases, inl, inr, find_if-true, find_if-update,
}
use mathlib.Core.Option
use agentic_mesh.Prelude.Json.{Fields}
use agentic_mesh.Prelude.Int.{ℤ}
use agentic_mesh.Work.{
  Stage, technical, pm_correction, recovery, Outcome, WorkItem, Incident, Attempt, WorkDb,
  has_work_key, has_incident_key,
}
use agentic_mesh.Reliability.{
  RetryEnv, request_fingerprint_of, is_active_incident, with_next, exhaust, recover,
}
use agentic_mesh.Reliability.Incidents.{ReliabilityStatus, status_of}
use agentic_mesh.Reliability.Attempts.{record_once, attempt_row, record_attempt}
use agentic_mesh.Reliability.Results.{
  AttemptResult, result_request, new_result, has_attempt_key, new_attempt,
}
use agentic_mesh.Reliability.Advancing.{advanced}
use agentic_mesh.Reliability.Rows.{advanced-key}
use agentic_mesh.Reliability.Recording.{Records, attempt_row-Recorded}

with_next-work :
    (s : Stage) (n : ℕ) (i : Incident) → (with_next s n i).work_item_id ≡ i.work_item_id
unfolding with_next
with_next-work s n i = elim (Bool-cases (is_active_incident i.status)) [
  | inl e ↦ rw e refl
  | inr e ↦ rw e refl
]

advanced-work :
    (now : ℕ) (o : Outcome) (s : Stage) (m : ℕ) (i : Incident)
    → (advanced now o s m i).work_item_id ≡ i.work_item_id
unfolding exhaust recover
advanced-work now Outcome.succeeded s m i = refl
advanced-work now Outcome.failed recovery m i = refl
advanced-work now Outcome.failed technical m i = with_next-work _ _ i
advanced-work now Outcome.failed pm_correction m i = with_next-work _ _ i

-- The row of an attempt's incident after the attempt.
pub advanced-found :
    (db : WorkDb) (env : RetryEnv) (a : AttemptResult) (i : Incident) (db' : WorkDb)
    → Records db env a i db'
    → find_if (has_incident_key a.project_id a.incident_id) db'.incidents
      ≡ some (advanced (env.clock 2) a.outcome a.stage a.attempt_number i)
advanced-found db env a i db' r =
    let own = has_incident_key a.project_id a.incident_id in
    let f = advanced (env.clock 2) a.outcome a.stage a.attempt_number in
    let key : own i ≡ true = find_if-true own db.incidents i r.incident_found in
    ap (find_if own) r.incident_advanced
    ∙ find_if-update own own f db.incidents
        (advanced-key (env.clock 2) a.outcome a.stage a.attempt_number a.project_id a.incident_id)
    ∙ rw (r.incident_found, Option.map, key) refl

-- The row of a new attempt.
attempt-found :
    (env : RetryEnv) (a : AttemptResult) (attempts : List Attempt)
    → find_if (has_attempt_key a.project_id a.attempt_id) (new_attempt env a ∷ attempts)
      ≡ some (new_attempt env a)
unfolding find_if has_attempt_key
attempt-found env a attempts =
    rw ((eq_iff a.project_id a.project_id).1 refl, (eq_iff a.attempt_id a.attempt_id).1 refl) refl

same-fingerprint :
    (env env' : RetryEnv) (m : Fields)
    → env'.routing.sha256 ≡ env.routing.sha256
    → env'.routing.dumps ≡ env.routing.dumps
    → request_fingerprint_of env' m ≡ request_fingerprint_of env m
unfolding request_fingerprint_of
same-fingerprint env env' m hash text =
    ap (λ f. f (env'.routing.dumps m)) hash ∙ ap (λ g. env.routing.sha256 (g m)) text

-- What a call with the row of the same attempt returns.
attempt_row-repeat :
    (db : WorkDb) (env : RetryEnv) (a : AttemptResult) (w : WorkItem) (i : Incident) (x : Attempt)
    (found : ReliabilityStatus)
    → find_if (has_work_key a.project_id a.work_item_id) db.works ≡ some w
    → find_if (has_incident_key a.project_id a.incident_id) db.incidents ≡ some i
    → (i.work_item_id == a.work_item_id) ≡ true
    → find_if (has_attempt_key a.project_id a.attempt_id) db.attempts ≡ some x
    → (x.request_fingerprint == request_fingerprint_of env (result_request a)) ≡ true
    → status_of db a.project_id a.incident_id ≡ ok found
    → attempt_row db env a ≡ ok (db, found)
unfolding attempt_row record_once
attempt_row-repeat db env a w i x found hw hi owner hx text st =
    rw (hw, hi, owner, hx, text, st) refl

-- A second call with the result of the first, in the tables that the first left, returns the same
-- status and changes nothing, for the same hash and JSON text.
attempt_row-again :
    (db : WorkDb) (env env' : RetryEnv) (a : AttemptResult) (db' : WorkDb)
    (found : ReliabilityStatus)
    → env'.routing.sha256 ≡ env.routing.sha256
    → env'.routing.dumps ≡ env.routing.dumps
    → attempt_row db env a ≡ ok (db', found)
    → attempt_row db' env' a ≡ ok (db', found)
attempt_row-again db env env' a db' found hash dumped h =
    attempt_row-Recorded db env a db' found h λ w i hw hi owner st r.
      let text = same-fingerprint env env' (result_request a) hash dumped in
      elim r [
        | inl (x, hx, same_text, same) ↦
            subst (λ d. attempt_row d env' a ≡ ok (d, found)) same
              (attempt_row-repeat db env' a w i x found hw hi owner hx
                (subst (λ t. (x.request_fingerprint == t) ≡ true) (sym text) same_text)
                (subst (λ d. status_of d a.project_id a.incident_id ≡ ok found) (sym same) st))
        | inr (j, c) ↦
            let same_incident : i ≡ j = some-injective (sym hi ∙ c.incident_found) in
            let f = advanced (env.clock 2) a.outcome a.stage a.attempt_number in
            attempt_row-repeat db' env' a w (f j) (new_attempt env a) found
              (ap (find_if (has_work_key a.project_id a.work_item_id)) c.works_kept ∙ hw)
              (advanced-found db env a j db' c)
              (subst (λ t. (t == a.work_item_id) ≡ true)
                (sym (
                  advanced-work (env.clock 2) a.outcome a.stage a.attempt_number j
                  ∙ ap (λ x. x.work_item_id) (sym same_incident)))
                owner)
              (ap (find_if (has_attempt_key a.project_id a.attempt_id)) c.attempt_added
                ∙ attempt-found env a db.attempts)
              ((eq_iff _ _).1 (sym text)) st
      ]

-- record_attempt may be repeated: after a call that returned, a call with the same arguments returns
-- the same status and leaves the tables as they are, for the same hash and JSON text, whatever the
-- other arguments from outside: both clocks and the searching of patterns.
pub record_attempt-again :
    (db : WorkDb) (env env' : RetryEnv) (project work incident attempt : String) (stage : Stage)
    (number : ℤ) (outcome : Outcome) (actor : String) (correction : Option String)
    (evidence : Option Fields) (db' : WorkDb) (found : ReliabilityStatus)
    → env'.routing.sha256 ≡ env.routing.sha256
    → env'.routing.dumps ≡ env.routing.dumps
    → record_attempt db env project work incident attempt stage number outcome actor correction
        evidence
      ≡ ok (db', found)
    → record_attempt db' env' project work incident attempt stage number outcome actor correction
        evidence
      ≡ ok (db', found)
unfolding record_attempt
record_attempt-again db env env' project work incident attempt stage number outcome actor correction
      evidence db' found hash dumped h =
    >>=-then
      (new_result project work incident attempt stage number outcome actor correction evidence) _ h
      λ a ha h₁. rw ha (attempt_row-again db env env' a db' found hash dumped h₁)

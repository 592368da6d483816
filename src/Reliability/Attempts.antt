-- ===== src/Reliability/Attempts.antt =====
-- reliability.py, ReliabilityStore.record_attempt, _advance_failed and _succeed.
use agentic_mesh.Prelude.{
  ◌+◌, String, true, false, Option, none, some, ◌==◌, not, ltb, any_of, find_if, ok, ◌>>=◌, ◌>>◌,
  guard, or_raise, if◌then◌else◌,
}
use agentic_mesh.Prelude.Json.{int, str, Fields, end, field}
use agentic_mesh.Prelude.Int.{ℤ}
use agentic_mesh.Journal.{EventDraft}
use agentic_mesh.Work.{
  Stage, technical, pm_correction, recovery, Outcome, Incident, Attempt, RequestStatus,
  RecoveryRequest, WorkItem, WorkDb, has_work_key, has_incident_key,
}
use agentic_mesh.Reliability.{
  unknown, conflicts, Relied, RetryEnv, request_fingerprint_of, derived_id, stage_name, is_next,
  is_active_incident, set_next, audit, retry_event, journal_event, route_retry, pm_role,
  recovery_goal, insert_request, resolve_request, exhaust, recover, close_row,
}
use agentic_mesh.Reliability.Incidents.{ReliabilityStatus, status_of}
use agentic_mesh.Reliability.Results.{
  AttemptResult, check_supervisor, correction_digest_of, has_attempt_key, has_correction,
  insert_attempt, new_attempt, new_result, outcome_name, result_request,
}

-- _advance_failed for a failed technical attempt
unfoldable pub fail_technical :
    WorkDb → RetryEnv → AttemptResult → Incident → Relied (WorkDb × String)
unfolding set_next route_retry
fail_technical db env a i =
    if ltb a.attempt_number 3
    then (do
      db' ←
          route_retry (set_next db a.project_id a.incident_id technical (a.attempt_number + 1)) env
            a.project_id a.work_item_id i.owner_role_id a.incident_id technical
            (a.attempt_number + 1) i.safe_summary i.source_ref false
      ok (db', "reliability.retry_routed"))
    else (do
      db' ←
          route_retry (set_next db a.project_id a.incident_id pm_correction 1) env a.project_id
            a.work_item_id pm_role a.incident_id pm_correction 1 i.safe_summary i.source_ref false
      ok (db', "reliability.retry_routed"))

-- the row of a recovery request
unfoldable pub new_request : RetryEnv → AttemptResult → Incident → RecoveryRequest
unfolding derived_id recovery_goal
new_request env a i = record {
  project_id = a.project_id;
  recovery_request_id = derived_id env "recovery" a.project_id a.incident_id;
  incident_id = a.incident_id;
  work_item_id = a.work_item_id;
  exact_goal = recovery_goal a.work_item_id i.safe_summary i.source_ref;
  status = RequestStatus.pending;
  requested_at = env.clock 1;
  resolved_at = none;
  evidence = end;
}

-- _advance_failed for a failed correction
unfoldable pub fail_correction :
    WorkDb → RetryEnv → AttemptResult → Incident → Relied (WorkDb × String)
unfolding set_next route_retry new_request insert_request
fail_correction db env a i =
    if ltb a.attempt_number 3
    then (do
      db' ←
          route_retry (set_next db a.project_id a.incident_id pm_correction (a.attempt_number + 1))
            env a.project_id a.work_item_id pm_role a.incident_id pm_correction
            (a.attempt_number + 1) i.safe_summary i.source_ref false
      ok (db', "reliability.pm_correction_routed"))
    else (do
      db' ← insert_request db (new_request env a i)
      ok (set_next db' a.project_id a.incident_id recovery 1, "reliability.recovery_requested"))

-- _advance_failed
unfoldable pub advance_failed :
    Stage → WorkDb → RetryEnv → AttemptResult → Incident → Relied (WorkDb × String)
unfolding fail_technical fail_correction resolve_request close_row exhaust
advance_failed technical db env a i = fail_technical db env a i
advance_failed pm_correction db env a i = fail_correction db env a i
advance_failed recovery db env a i =
    let resolved =
      resolve_request db a.project_id a.incident_id RequestStatus.failed (env.clock 1) a.evidence in
    ok
      (close_row resolved a.project_id a.incident_id exhaust, "reliability.terminal_error_eligible")

-- _succeed
unfoldable pub succeed :
    Stage → WorkDb → RetryEnv → AttemptResult → Incident → Relied (WorkDb × String)
unfolding resolve_request route_retry close_row recover
succeed recovery db env a i = do
  let resolved =
      resolve_request db a.project_id a.incident_id RequestStatus.succeeded (env.clock 1) a.evidence
  db' ←
      route_retry resolved env a.project_id a.work_item_id i.owner_role_id a.incident_id recovery 1
        i.safe_summary i.source_ref true
  ok (
    close_row db' a.project_id a.incident_id (recover (env.clock 2)),
    "reliability.incident_recovered",
  )
succeed _ db env a i = ok (
  close_row db a.project_id a.incident_id (recover (env.clock 2)),
  "reliability.incident_recovered",
)

-- the branch on the outcome
unfoldable pub apply_outcome :
    Outcome → WorkDb → RetryEnv → AttemptResult → Incident → Relied (WorkDb × String)
unfolding succeed advance_failed
apply_outcome Outcome.succeeded db env a i = succeed a.stage db env a i
apply_outcome Outcome.failed db env a i = advance_failed a.stage db env a i

-- record_attempt for an attempt that is not recorded yet, up to its events
unfoldable pub record_new :
    WorkDb → RetryEnv → AttemptResult → WorkItem → Incident → Relied (WorkDb × String)
unfolding is_next check_supervisor has_correction any_of insert_attempt apply_outcome
record_new db env a w i = do
  guard (is_active_incident i.status) (conflicts "failure incident is not accepting attempts")
  guard (w.status == "active") (conflicts "work item is not active for retry")
  guard (is_next a.stage a.attempt_number i.next)
      (conflicts "attempt does not match the required retry stage")
  check_supervisor db a
  guard
      (not (
        any_of (has_correction a.project_id a.incident_id (correction_digest_of env a.correction))
          db.attempts))
      (conflicts "PM correction instruction must be distinct")
  db' ← insert_attempt db (new_attempt env a)
  apply_outcome a.outcome db' env a i

-- the audit record of an attempt
abbrev pub audited_attempt : WorkDb → AttemptResult → String → WorkDb
audited_attempt db a action = audit db a.project_id a.actor_id action a.incident_id (
    field "attempt_id" (str a.attempt_id) (
      field "stage" (str (stage_name a.stage)) (
        field "attempt_number" (int a.attempt_number)
          (field "outcome" (str (outcome_name a.outcome)) end))))

-- the event of an attempt
abbrev pub attempt_event : AttemptResult → String → EventDraft
attempt_event a action =
    retry_event a.project_id a.work_item_id a.actor_id a.attempt_id a.incident_id
      "reliability.attempt_recorded"
      (field "incident_id" (str a.incident_id) (
        field "attempt_id" (str a.attempt_id) (
          field "stage" (str (stage_name a.stage)) (
            field "attempt_number" (int a.attempt_number)
              (field "outcome" (str (outcome_name a.outcome)) (field "result" (str action) end))))))

-- the audit record, the event and the status at the end of record_attempt
unfoldable pub report_attempt :
    WorkDb → RetryEnv → AttemptResult → String → Relied (WorkDb × ReliabilityStatus)
unfolding audit journal_event status_of
report_attempt db env a action = do
  db' ← journal_event (audited_attempt db a action) env (env.clock 3) (attempt_event a action)
  found ← status_of db' a.project_id a.incident_id
  ok (db', found)

-- record_attempt from the row of an earlier call with the same identity on, or from that of none
unfoldable pub record_once :
    WorkDb
    → RetryEnv
    → AttemptResult
    → WorkItem
    → Incident
    → Option Attempt
    → Relied (WorkDb × ReliabilityStatus)
unfolding status_of record_new report_attempt
record_once db env a w i (some old) = do
  guard (old.request_fingerprint == request_fingerprint_of env (result_request a))
      (conflicts "attempt id is already used by a different result")
  found ← status_of db a.project_id a.incident_id
  ok (db, found)
record_once db env a w i none = do
  advanced ← record_new db env a w i
  report_attempt advanced.0 env a advanced.1

-- the transaction of record_attempt
unfoldable pub attempt_row : WorkDb → RetryEnv → AttemptResult → Relied (WorkDb × ReliabilityStatus)
unfolding find_if has_work_key has_incident_key has_attempt_key record_once
attempt_row db env a = do
  w ←
      or_raise (find_if (has_work_key a.project_id a.work_item_id) db.works)
        (unknown "work item not found")
  i ←
      or_raise (find_if (has_incident_key a.project_id a.incident_id) db.incidents)
        (unknown "failure incident not found")
  guard (i.work_item_id == a.work_item_id) (unknown "failure incident not found")
  record_once db env a w i (find_if (has_attempt_key a.project_id a.attempt_id) db.attempts)

-- record_attempt
unfoldable pub record_attempt :
    WorkDb
    → RetryEnv
    → String
    → String
    → String
    → String
    → Stage
    → ℤ
    → Outcome
    → String
    → Option String
    → Option Fields
    → Relied (WorkDb × ReliabilityStatus)
unfolding new_result attempt_row
record_attempt db env project work incident attempt stage number outcome actor correction evidence =
    do
      result ←
          new_result project work incident attempt stage number outcome actor correction evidence
      attempt_row db env result

-- ===== src/Reliability/Results.antt =====
-- reliability.py: the arguments of record_attempt and their checks, and the row of an attempt.
use agentic_mesh.Prelude.{
  ℕ, String, Bool, true, false, Option, none, some, ◌∷◌, ◌==◌, ◌&&◌, ◌||◌, not, leb, eqb, any_of,
  find_if, ok, err, ◌>>=◌, ◌>>◌, guard, if◌then◌else◌,
}
use agentic_mesh.Prelude.Json.{Json, null, int, str, obj, Fields, end, field, json_eq}
use agentic_mesh.Prelude.Int.{ℤ, pos, negsuc}
use agentic_mesh.Work.{Stage, pm_correction, recovery, Outcome, Attempt, SupervisorRun, WorkDb}
use agentic_mesh.Reliability.{
  bad_input, conflicts, policy_failed, Relied, RetryEnv, retry_identifier, bounded,
  request_fingerprint_of, ordinal_of, stage_name, same_stage,
}
use agentic_mesh.Reliability.Incidents.{is_attempt_of}

-- the arguments of record_attempt after their checks
pub record AttemptResult : Type 0 where
  pub project_id : String
  pub work_item_id : String
  pub incident_id : String
  pub attempt_id : String
  pub actor_id : String
  pub stage : Stage
  pub attempt_number : ℕ
  pub outcome : Outcome
  pub correction : Option String
  pub evidence : Fields

abbrev pub maximum_of : Stage → ℕ
maximum_of recovery = 1
maximum_of _ = 3

unfoldable pub checked_number : Stage → ℤ → Relied ℕ
checked_number stage (pos n) =
    if leb 1 n && leb n (maximum_of stage) then ok n else err (bad_input "attempt_number")
checked_number stage (negsuc n) = err (bad_input "attempt_number")

-- the correction instruction, which only the stage of the corrections has
unfoldable pub checked_correction : Stage → Option String → Relied (Option String)
unfolding bounded
checked_correction pm_correction (some text) = do
  correction ← bounded text "correction_instruction" 2000
  ok (some correction)
checked_correction pm_correction none = err (bad_input "correction_instruction")
checked_correction _ none = ok none
checked_correction _ (some text) = err (bad_input "correction_instruction")

abbrev pub evidence_of : Option Fields → Fields
evidence_of none = end
evidence_of (some e) = e

-- the checks of the arguments; stage and outcome are of the declared types
unfoldable pub new_result :
    String
    → String
    → String
    → String
    → Stage
    → ℤ
    → Outcome
    → String
    → Option String
    → Option Fields
    → Relied AttemptResult
unfolding retry_identifier bounded checked_number checked_correction
new_result project work incident attempt stage number outcome actor correction evidence = do
  project_id ← retry_identifier project "project_id"
  work_item_id ← retry_identifier work "work_item_id"
  incident_id ← retry_identifier incident "incident_id"
  attempt_id ← retry_identifier attempt "attempt_id"
  actor_id ← bounded actor "actor_id" 512
  n ← checked_number stage number
  checked ← checked_correction stage correction
  ok (record {
    project_id = project_id;
    work_item_id = work_item_id;
    incident_id = incident_id;
    attempt_id = attempt_id;
    actor_id = actor_id;
    stage = stage;
    attempt_number = n;
    outcome = outcome;
    correction = checked;
    evidence = evidence_of evidence;
  })

abbrev pub outcome_name : Outcome → String
outcome_name Outcome.succeeded = "succeeded"
outcome_name Outcome.failed = "failed"

abbrev pub json_of : Option String → Json
json_of none = null
json_of (some s) = str s

abbrev pub result_request : AttemptResult → Fields
result_request a = field "project_id" (str a.project_id) (
    field "work_item_id" (str a.work_item_id) (
      field "incident_id" (str a.incident_id) (
        field "stage" (str (stage_name a.stage)) (
          field "attempt_number" (int a.attempt_number) (
            field "outcome" (str (outcome_name a.outcome)) (
              field "correction_instruction" (json_of a.correction)
                (field "evidence" (obj a.evidence) end)))))))

-- the columns that the evidence of a recovery attempt must repeat
abbrev pub supervisor_evidence : SupervisorRun → Fields
supervisor_evidence run = field "recovery_run_id" (str run.run_id) (
    field "safe_summary" run.safe_summary (
      field "verification_ref" run.verification_ref (
        field "usage_used" run.usage_used (
          field "usage_limit" (int run.usage_limit) (
            field "tool_profile_reference" (str run.tool_profile_reference)
              (field "tool_profile_digest" (str run.tool_profile_digest) end))))))

abbrev pub same_outcome : Outcome → Option Outcome → Bool
same_outcome Outcome.succeeded (some Outcome.succeeded) = true
same_outcome Outcome.failed (some Outcome.failed) = true
same_outcome _ _ = false

-- the JOIN of the supervisor's runs with the recovery requests, and its WHERE clause
unfoldable pub is_supervisor_result : WorkDb → AttemptResult → SupervisorRun → Bool
unfolding any_of
is_supervisor_result db a run =
    (run.project_id == a.project_id)
    && (run.run_id == a.attempt_id)
    && any_of
        (λ q.
          (q.project_id == run.project_id)
          && (q.recovery_request_id == run.recovery_request_id)
          && (q.incident_id == a.incident_id))
        db.requests
    && run.reported
    && same_outcome a.outcome run.outcome

-- `supervisor_result is None or evidence_value != {...}`
unfoldable pub is_verified : AttemptResult → Option SupervisorRun → Bool
unfolding json_eq
is_verified a none = false
is_verified a (some run) = json_eq (obj a.evidence) (obj (supervisor_evidence run))

unfoldable pub check_supervisor : WorkDb → AttemptResult → Relied (Unit {0})
unfolding find_if is_supervisor_result is_verified
check_supervisor db a =
    guard
      (not (same_stage a.stage recovery)
        || is_verified a (find_if (is_supervisor_result db a) db.runs))
      (conflicts "recovery attempt requires a verified supervisor result")

-- hashlib.sha256(correction.encode("utf-8")).hexdigest()
unfoldable pub correction_digest_of : RetryEnv → Option String → Option String
correction_digest_of env none = none
correction_digest_of env (some correction) = some (env.routing.sha256 correction)

abbrev pub same_digest : Option String → Option String → Bool
same_digest (some a) (some b) = a == b
same_digest _ _ = false

unfoldable pub has_correction : String → String → Option String → Attempt → Bool
unfolding is_attempt_of
has_correction project incident digest a =
    is_attempt_of project incident a && same_digest a.correction_digest digest

unfoldable pub has_attempt_key : String → String → Attempt → Bool
has_attempt_key project attempt a = (a.project_id == project) && (a.attempt_id == attempt)

-- the unique keys of failure_attempts
unfoldable pub attempt_collides : Attempt → Attempt → Bool
unfolding has_attempt_key is_attempt_of has_correction
attempt_collides a b =
    has_attempt_key a.project_id a.attempt_id b
    || (is_attempt_of a.project_id a.incident_id b
        && (eqb b.ordinal a.ordinal
            || (same_stage b.stage a.stage && eqb b.stage_attempt a.stage_attempt)))
    || has_correction a.project_id a.incident_id a.correction_digest b

abbrev pub new_attempt : RetryEnv → AttemptResult → Attempt
new_attempt env a = record {
  project_id = a.project_id;
  attempt_id = a.attempt_id;
  incident_id = a.incident_id;
  ordinal = ordinal_of a.stage a.attempt_number;
  stage = a.stage;
  stage_attempt = a.attempt_number;
  outcome = a.outcome;
  correction_instruction = a.correction;
  correction_digest = correction_digest_of env a.correction;
  actor_id = a.actor_id;
  evidence = a.evidence;
  request_fingerprint = request_fingerprint_of env (result_request a);
  recorded_at = env.clock 0;
}

-- the INSERT INTO failure_attempts
unfoldable pub insert_attempt : WorkDb → Attempt → Relied WorkDb
unfolding attempt_collides any_of
insert_attempt db a = do
  guard (not (any_of (attempt_collides a) db.attempts)) policy_failed
  ok (record db { attempts = a ∷ db.attempts })

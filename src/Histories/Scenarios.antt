-- ===== src/Histories/Scenarios.antt =====
-- One work item whose technical attempts, corrections and recovery all fail: tests, and the theorems
-- at that history.
use Prim.Native.String.{[] as end_of_text, ◌∷◌ as cons_text}
use Prim.Native.Char.{code}
use agentic_mesh.Prelude.{
  ℕ, ◌+◌, String, Bool, true, false, Option, none, some, List, [], ◌∷◌, ◌++◌, ◌≡◌, refl, arith, eqb,
  find_if, count_if, Any, length, ok, err, Result, if◌then◌else◌,
}
use agentic_mesh.Prelude.Text.{strip}
use agentic_mesh.Prelude.Json.{null, int, str, Fields, end, field}
use agentic_mesh.Prelude.Int.{pos}
use agentic_mesh.Queue.{QueueDb}
use agentic_mesh.Routing.{RouteEnv}
use agentic_mesh.Work.{
  Stage, technical, pm_correction, recovery, Outcome, IncidentStatus, Incident, WorkItem,
  SupervisorRun, WorkDb, has_work_key,
}
use agentic_mesh.Lifecycle.{Lived, WorkEnv, is_terminal_status, transition_work_item}
use agentic_mesh.Reliability.{Relied, RetryEnv, ordinal_of}
use agentic_mesh.Reliability.Repeats.{record_attempt-again}
use agentic_mesh.Reliability.Policy.{FollowsPolicy, is_failure_of, row_follows}
use agentic_mesh.Reliability.Incidents.{ReliabilityStatus, is_attempt_of, start}
use agentic_mesh.Reliability.Attempts.{record_attempt}
use agentic_mesh.Reliability.Results.{correction_digest_of}
use agentic_mesh.Histories.{Op, starts, records, others, step, run}
use agentic_mesh.Histories.Invariant.{run-FollowsPolicy}
use agentic_mesh.Histories.Exhaustion.{error-exhausted}
use agentic_mesh.Histories.Finality.{run-final}

-- a stand-in for the hash: the text backwards, without the characters of code zero
abbrev backwards : String → String → String
backwards end_of_text done = done
backwards (cons_text c s) done = backwards s (if eqb (code c) 0 then done else cons_text c done)

abbrev routing : RouteEnv
routing = record {
  now = 50;
  sha256 = λ s. backwards s "";
  dumps = λ m. "json";
  isoformat = λ t. "time";
}

abbrev retry_env : RetryEnv
retry_env = record { clock = λ n. 100 + n; routing = routing; search_pattern = λ p s. false }

abbrev pub work_env : WorkEnv
work_env = record { clock = λ n. 200 + n; sha256 = λ s. backwards s "" }

abbrev queue_db : QueueDb
queue_db = record {
  roles =
      record { project_id = "p"; role_id = "developer"; status = "active" }
      ∷ record { project_id = "p"; role_id = "project-manager"; status = "active" }
      ∷ [];
  work_items = [];
  queues =
      record {
        project_id = "p";
        queue_id = "q";
        role_id = "developer";
        capability = none;
        paused = false;
      }
      ∷ record {
        project_id = "p";
        queue_id = "m";
        role_id = "project-manager";
        capability = none;
        paused = false;
      }
      ∷ [];
  instances = [];
  items = [];
  leases = [];
  handoffs = [];
}

abbrev pub work_item : WorkItem
work_item = record {
  project_id = "p";
  work_item_id = "w";
  title = "Build it";
  status = "active";
  owner_role_id = some "developer";
  version = 2;
  terminal_reason = none;
  terminal_evidence = end;
  updated_at = 9;
}

abbrev pub work_db : WorkDb
work_db = record {
  projects = record { project_id = "p"; display_name = "P" } ∷ [];
  sponsors = ("p", "ann") ∷ [];
  works = work_item ∷ [];
  gates = [];
  approvals = [];
  incidents = [];
  attempts = [];
  requests = [];
  runs = [];
  audits = [];
  journal = record { events = []; outbox = []; next_event_id = 1; next_outbox_id = 1 };
  queue = queue_db;
}

abbrev started : Op
started = starts retry_env "p" "w" "k" "build" "it does not build" "log:1" "worker"

abbrev fails : String → Stage → ℕ → Option String → Op
fails id stage n correction =
    records retry_env "p" "w" "incident-kp" id stage (pos n) Outcome.failed "worker" correction none

abbrev six_failures : List Op
six_failures =
    started
    ∷ fails "t1" technical 1 none
    ∷ fails "t2" technical 2 none
    ∷ fails "t3" technical 3 none
    ∷ fails "c1" pm_correction 1 (some "rebuild")
    ∷ fails "c2" pm_correction 2 (some "pin the tool")
    ∷ fails "c3" pm_correction 3 (some "remove the cache")
    ∷ []

abbrev supervisor_run : SupervisorRun
supervisor_run = record {
  project_id = "p";
  recovery_request_id = "recovery-pk-tnedicnip";
  run_id = "r1";
  reported = true;
  outcome = some Outcome.failed;
  safe_summary = str "no repair";
  verification_ref = null;
  usage_used = int 3;
  usage_limit = 10;
  tool_profile_reference = "tools";
  tool_profile_digest = "d";
}

abbrev recovery_evidence : Fields
recovery_evidence = field "recovery_run_id" (str "r1") (
    field "safe_summary" (str "no repair") (
      field "verification_ref" null (
        field "usage_used" (int 3) (
          field "usage_limit" (int 10) (
            field "tool_profile_reference" (str "tools")
              (field "tool_profile_digest" (str "d") end))))))

abbrev history : List Op
history =
    six_failures
    ++ others (record (run work_db six_failures) { runs = supervisor_run ∷ [] })
      ∷ records retry_env "p" "w" "incident-kp" "r1" recovery (pos 1) Outcome.failed "supervisor"
          none (some recovery_evidence)
      ∷ []

-- the table of incidents has no rows
no-incidents : FollowsPolicy work_db.incidents work_db.attempts
unfolding count_if find_if row_follows
no-incidents = record {
  incident_once = λ p k. omega arith;
  followed = λ p k. refl;
  placed = λ p k o. ground arith;
}

exhausted_test : length (run work_db history).attempts ≡ 7
unfolding step run record_attempt start correction_digest_of ordinal_of
exhausted_test = refl

run-FollowsPolicy_example :
    FollowsPolicy (run work_db history).incidents (run work_db history).attempts
run-FollowsPolicy_example = run-FollowsPolicy work_db history no-incidents

strip-error : strip "error" ≡ "error"
unfolding strip
strip-error = refl

-- what a call has returned, where it has returned
abbrev pub returns {ℓ κ} : {E : Type ℓ} {A : Type κ} → Result E A → Bool
returns (ok a) = true
returns (err e) = false

abbrev pub result_of {ℓ κ} : {E : Type ℓ} {A : Type κ} → A → Result E A → A
result_of a (ok b) = b
result_of a (err e) = a

pub returned {ℓ κ} :
    {E : Type ℓ} {A : Type κ} (a : A) (r : Result E A) → returns r ≡ true → r ≡ ok (result_of a r)
returned a (ok b) h = refl
returned a (err e) h = cc

-- the work item becomes an error
unfoldable ending : Lived (WorkDb × Lived WorkItem)
unfolding run transition_work_item
ending =
    transition_work_item (run work_db history) work_env "p" "w" "error" "ann" "c" (pos 2)
      "no repair" none

error_test : returns ending ≡ true
unfolding ending step run record_attempt start correction_digest_of ordinal_of transition_work_item
error_test = refl

ended : WorkDb × Lived WorkItem
ended = result_of (work_db, ok work_item) ending

error-exhausted_example :
    (i : Incident) × Any (λ x. x ≡ i) (run work_db history).incidents
    × (i.project_id ≡ strip "p")
    × (i.work_item_id ≡ strip "w")
    × (count_if (is_attempt_of i.project_id i.incident_id) (run work_db history).attempts ≡ 7)
    × (count_if (is_failure_of i.project_id i.incident_id) (run work_db history).attempts ≡ 7)
unfolding ending ended
error-exhausted_example =
    error-exhausted work_db history work_env "p" "w" "error" "ann" "c" (pos 2) "no repair" none
      ended.0 ended.1 no-incidents strip-error (returned (work_db, ok work_item) ending error_test)

-- completed work meets the same history
abbrev completed_item : WorkItem
completed_item = record work_item { status = "completed"; terminal_reason = some "done" }

abbrev completed_db : WorkDb
completed_db = record work_db { works = completed_item ∷ [] }

run-final_example :
    find_if (has_work_key "p" "w") (run completed_db history).works ≡ some completed_item
unfolding find_if has_work_key is_terminal_status
run-final_example = run-final completed_db history "p" "w" completed_item refl refl

-- the first technical attempt, and the same call again by another clock
unfoldable first_attempt : RetryEnv → WorkDb → Relied (WorkDb × ReliabilityStatus)
unfolding record_attempt
first_attempt env db =
    record_attempt db env "p" "w" "incident-kp" "t1" technical (pos 1) Outcome.failed "worker" none
      none

first_test : returns (first_attempt retry_env (run work_db (started ∷ []))) ≡ true
unfolding first_attempt step run record_attempt start correction_digest_of ordinal_of
first_test = refl

abbrev no_status : ReliabilityStatus
no_status = record {
  incident = record {
    project_id = "";
    incident_id = "";
    work_item_id = "";
    owner_role_id = "";
    idempotency_key = "";
    request_fingerprint = "";
    failure_category = "";
    safe_summary = "";
    source_ref = "";
    status = IncidentStatus.active;
    next = none;
    started_by = "";
    started_at = 0;
    resolved_at = none;
  };
  attempts = [];
  recovery_request = none;
}

recorded_once : WorkDb × ReliabilityStatus
recorded_once =
    result_of (work_db, no_status) (first_attempt retry_env (run work_db (started ∷ [])))

later_env : RetryEnv
later_env = record retry_env { clock = λ n. 900 + n; routing = record routing { now = 950 } }

record_attempt-again_example : first_attempt later_env recorded_once.0 ≡ ok recorded_once
unfolding first_attempt recorded_once later_env
record_attempt-again_example =
    record_attempt-again (run work_db (started ∷ [])) retry_env later_env "p" "w" "incident-kp" "t1"
      technical (pos 1) Outcome.failed "worker" none none recorded_once.0 recorded_once.1 refl refl
      (returned (work_db, no_status) (first_attempt retry_env (run work_db (started ∷ [])))
        first_test)

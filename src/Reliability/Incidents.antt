-- ===== src/Reliability/Incidents.antt =====
-- reliability.py, ReliabilityStore.start and _status. An operation is one transaction: it returns the
-- tables that it commits, or raises and commits nothing.
use agentic_mesh.Prelude.{
  String, Bool, false, Option, none, some, List, ◌∷◌, ◌==◌, ◌&&◌, ◌||◌, not, ltb, eqb, any_of,
  find_if, keep_if, ok, ◌>>=◌, ◌>>◌, guard, or_raise,
}
use agentic_mesh.Prelude.Sorting.{sort_by, first_row}
use agentic_mesh.Prelude.Json.{int, str, Fields, end, field}
use agentic_mesh.Journal.{EventDraft}
use agentic_mesh.Work.{
  technical, IncidentStatus, Incident, Attempt, RecoveryRequest, WorkItem, WorkDb, has_work_key,
  has_incident_key, is_open_incident,
}
use agentic_mesh.Reliability.{
  unknown, conflicts, policy_failed, Relied, RetryEnv, reject_sensitive_content, retry_identifier,
  bounded, request_fingerprint_of, derived_id, audit, retry_event, journal_event, route_retry,
}

-- ReliabilityStatus
pub record ReliabilityStatus : Type 0 where
  pub incident : Incident
  pub attempts : List Attempt
  pub recovery_request : Option RecoveryRequest

unfoldable pub is_attempt_of : String → String → Attempt → Bool
is_attempt_of project incident a = (a.project_id == project) && (a.incident_id == incident)

-- _status
unfoldable pub status_of : WorkDb → String → String → Relied ReliabilityStatus
unfolding find_if has_incident_key sort_by keep_if is_attempt_of
status_of db project incident = do
  i ←
      or_raise (find_if (has_incident_key project incident) db.incidents)
        (unknown "failure incident not found")
  ok (record {
    incident = i;
    attempts = sort_by (λ a. a.ordinal) (keep_if (is_attempt_of project incident) db.attempts);
    recovery_request =
        find_if (λ r. (r.project_id == project) && (r.incident_id == incident)) db.requests;
  })

unfoldable pub has_incident_request : String → String → Incident → Bool
has_incident_request project key i = (i.project_id == project) && (i.idempotency_key == key)

-- the INSERT INTO failure_incidents, with the primary key and the index of one open incident for
-- each work item
unfoldable pub insert_incident : WorkDb → Incident → Relied WorkDb
unfolding has_incident_key is_open_incident any_of
insert_incident db i = do
  guard (not (any_of (has_incident_key i.project_id i.incident_id) db.incidents)) policy_failed
  guard (not (any_of (is_open_incident i.project_id i.work_item_id) db.incidents)) policy_failed
  ok (record db { incidents = i ∷ db.incidents })

-- the arguments of start after their checks
pub record FailureReport : Type 0 where
  pub project_id : String
  pub work_item_id : String
  pub idempotency_key : String
  pub failure_category : String
  pub safe_summary : String
  pub source_ref : String
  pub actor_id : String

-- the checks of the arguments
unfoldable pub new_report :
    RetryEnv → String → String → String → String → String → String → String → Relied FailureReport
unfolding retry_identifier bounded reject_sensitive_content
new_report env project work key category summary source actor = do
  project_id ← retry_identifier project "project_id"
  work_item_id ← retry_identifier work "work_item_id"
  idempotency_key ← retry_identifier key "idempotency_key"
  failure_category ← retry_identifier category "failure_category"
  safe_summary ← bounded summary "safe_summary" 1000
  source_ref ← bounded source "source_ref" 1000
  reject_sensitive_content env.search_pattern safe_summary "safe_summary"
  reject_sensitive_content env.search_pattern source_ref "source_ref"
  actor_id ← bounded actor "actor_id" 512
  ok (record {
    project_id = project_id;
    work_item_id = work_item_id;
    idempotency_key = idempotency_key;
    failure_category = failure_category;
    safe_summary = safe_summary;
    source_ref = source_ref;
    actor_id = actor_id;
  })

abbrev pub report_request : FailureReport → Fields
report_request r = field "project_id" (str r.project_id) (
    field "work_item_id" (str r.work_item_id) (
      field "failure_category" (str r.failure_category)
        (field "safe_summary" (str r.safe_summary) (field "source_ref" (str r.source_ref) end))))

abbrev pub new_incident : RetryEnv → FailureReport → String → Incident
new_incident env r owner = record {
  project_id = r.project_id;
  incident_id = derived_id env "incident" r.project_id r.idempotency_key;
  work_item_id = r.work_item_id;
  owner_role_id = owner;
  idempotency_key = r.idempotency_key;
  request_fingerprint = request_fingerprint_of env (report_request r);
  failure_category = r.failure_category;
  safe_summary = r.safe_summary;
  source_ref = r.source_ref;
  status = IncidentStatus.active;
  next = some (technical, 1);
  started_by = r.actor_id;
  started_at = env.clock 0;
  resolved_at = none;
}

-- the audit record and the event of a new incident
abbrev pub started_audit : WorkDb → FailureReport → String → WorkDb
started_audit db r incident =
    audit db r.project_id r.actor_id "reliability.incident_started" incident (
      field "work_item_id" (str r.work_item_id)
        (field "next_stage" (str "technical") (field "next_attempt_number" (int 1) end)))

abbrev pub started_event : FailureReport → String → EventDraft
started_event r incident =
    retry_event r.project_id r.work_item_id r.actor_id r.idempotency_key incident
      "reliability.incident_started"
      (field "incident_id" (str incident) (
        field "next_stage" (str "technical") (
          field "next_attempt_number" (int 1)
            (field "failure_category" (str r.failure_category) end))))

-- start for a new incident
unfoldable pub start_new :
    WorkDb → RetryEnv → FailureReport → WorkItem → Relied (WorkDb × ReliabilityStatus)
unfolding is_open_incident any_of insert_incident route_retry audit journal_event status_of
    derived_id request_fingerprint_of
start_new db env r w = do
  guard (w.status == "active") (conflicts "only active work with an owning role can start recovery")
  owner ←
      or_raise w.owner_role_id (conflicts "only active work with an owning role can start recovery")
  guard (not (any_of (is_open_incident r.project_id r.work_item_id) db.incidents))
      (conflicts "work item already has an unresolved failure incident")
  let i = new_incident env r owner
  db₁ ← insert_incident db i
  db₂ ←
      route_retry db₁ env r.project_id r.work_item_id owner i.incident_id technical 1 r.safe_summary
        r.source_ref false
  db₃ ←
      journal_event (started_audit db₂ r i.incident_id) env (env.clock 1)
        (started_event r i.incident_id)
  found ← status_of db₃ r.project_id i.incident_id
  ok (db₃, found)

-- start from the row of an earlier call with the same key on, or from that of none
unfoldable pub start_once :
    WorkDb
    → RetryEnv
    → FailureReport
    → WorkItem
    → Option Incident
    → Relied (WorkDb × ReliabilityStatus)
unfolding status_of start_new request_fingerprint_of
start_once db env r w none = start_new db env r w
start_once db env r w (some i) = do
  guard (i.request_fingerprint == request_fingerprint_of env (report_request r))
      (conflicts "idempotency key is already used by different failure work")
  found ← status_of db r.project_id i.incident_id
  ok (db, found)

-- the transaction of start
unfoldable pub start_row : WorkDb → RetryEnv → FailureReport → Relied (WorkDb × ReliabilityStatus)
unfolding find_if has_work_key has_incident_request start_once
start_row db env r = do
  w ←
      or_raise (find_if (has_work_key r.project_id r.work_item_id) db.works)
        (unknown "work item not found")
  start_once db env r w (find_if (has_incident_request r.project_id r.idempotency_key) db.incidents)

-- start
unfoldable pub start :
    WorkDb
    → RetryEnv
    → String
    → String
    → String
    → String
    → String
    → String
    → String
    → Relied (WorkDb × ReliabilityStatus)
unfolding new_report start_row
start db env project work key category summary source actor = do
  report ← new_report env project work key category summary source actor
  start_row db env report

-- ORDER BY started_at DESC, incident_id DESC
unfoldable pub later_incident : (String → String → Bool) → Incident → Incident → Bool
later_incident text_lt a b =
    ltb b.started_at a.started_at
    || (eqb a.started_at b.started_at && text_lt b.incident_id a.incident_id)

-- the incident that status selects
unfoldable pub selected_incident :
    WorkDb → (String → String → Bool) → String → String → Option String → Relied String
unfolding retry_identifier first_row later_incident keep_if
selected_incident db text_lt project work (some incident) = retry_identifier incident "incident_id"
selected_incident db text_lt project work none = do
  i ←
      or_raise
        (first_row (later_incident text_lt)
          (keep_if (λ i. (i.project_id == project) && (i.work_item_id == work)) db.incidents))
        (unknown "failure incident not found")
  ok i.incident_id

-- status; the collation of the database is an argument
unfoldable pub status :
    WorkDb → (String → String → Bool) → String → String → Option String → Relied ReliabilityStatus
unfolding retry_identifier selected_incident status_of
status db text_lt project work incident = do
  project_id ← retry_identifier project "project_id"
  work_item_id ← retry_identifier work "work_item_id"
  incident_id ← selected_incident db text_lt project_id work_item_id incident
  found ← status_of db project_id incident_id
  guard (found.incident.work_item_id == work_item_id) (unknown "failure incident not found")
  ok found

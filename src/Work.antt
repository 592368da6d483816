-- ===== src/Work.antt =====
-- The tables that lifecycle.py and reliability.py share, those of the migrations 0001, 0003, 0015 and
-- 0016, with the journal and the queues, and what both stores do with them: locking a work item and
-- appending to the journal. A status that the database does not restrict is a text.
pub mod Rows
use agentic_mesh.Prelude.{
  ℕ, ◌+◌, String, Bool, true, false, Option, none, some, List, [], ◌∷◌, map, ◌==◌, ◌&&◌, ok, ◌>>=◌,
}
use agentic_mesh.Prelude.Json.{Json, Fields}
use agentic_mesh.Queue.{QueueDb}
use agentic_mesh.Journal.{Journaled, EventDraft, Journal, append, new_event, new_outbound}

pub record Project : Type 0 where
  pub project_id : String
  pub display_name : String

-- WorkItemRecord, and the columns that the stores write besides
pub record WorkItem : Type 0 where
  pub project_id : String
  pub work_item_id : String
  pub title : String
  pub status : String
  pub owner_role_id : Option String
  pub version : ℕ
  pub terminal_reason : Option String
  pub terminal_evidence : Fields
  pub updated_at : ℕ

-- the statuses of gates without a flow; `timed_out` is one of gates with a flow only
pub data GateStatus : Type 0 where
  pending approved rejected : GateStatus

-- GateRecord
pub record Gate : Type 0 where
  pub project_id : String
  pub gate_id : String
  pub work_item_id : String
  pub gate_type : String
  pub status : GateStatus
  pub requested_by : String
  pub correlation_id : String
  pub evidence : Fields
  pub resolved_at : Option ℕ

-- ApprovalRecord
pub record Approval : Type 0 where
  pub project_id : String
  pub approval_id : String
  pub gate_id : String
  pub approver_id : String
  pub decision : Option String
  pub rationale : Option String
  pub evidence : Fields
  pub decided_at : Option ℕ

pub data Stage : Type 0 where
  technical pm_correction recovery : Stage

pub data Outcome : Type 0 where
  succeeded failed : Outcome

pub data IncidentStatus : Type 0 where
  active recovered terminal_eligible terminal : IncidentStatus

-- FailureIncident; `next` is the pair of next_stage and next_attempt_number, and `none` for the pair
-- of 'none' and NULL, which a constraint of the table makes the only one
pub record Incident : Type 0 where
  pub project_id : String
  pub incident_id : String
  pub work_item_id : String
  pub owner_role_id : String
  pub idempotency_key : String
  pub request_fingerprint : String
  pub failure_category : String
  pub safe_summary : String
  pub source_ref : String
  pub status : IncidentStatus
  pub next : Option (Stage × ℕ)
  pub started_by : String
  pub started_at : ℕ
  pub resolved_at : Option ℕ

-- FailureAttempt
pub record Attempt : Type 0 where
  pub project_id : String
  pub attempt_id : String
  pub incident_id : String
  pub ordinal : ℕ
  pub stage : Stage
  pub stage_attempt : ℕ
  pub outcome : Outcome
  pub correction_instruction : Option String
  pub correction_digest : Option String
  pub actor_id : String
  pub evidence : Fields
  pub request_fingerprint : String
  pub recorded_at : ℕ

pub data RequestStatus : Type 0 where
  pending succeeded failed : RequestStatus

-- RecoveryRequest
pub record RecoveryRequest : Type 0 where
  pub project_id : String
  pub recovery_request_id : String
  pub incident_id : String
  pub work_item_id : String
  pub exact_goal : String
  pub status : RequestStatus
  pub requested_at : ℕ
  pub resolved_at : Option ℕ
  pub evidence : Fields

-- the columns of recovery_supervisor_runs that a recovery attempt is compared with; a column that
-- may be NULL is a JSON value
pub record SupervisorRun : Type 0 where
  pub project_id : String
  pub recovery_request_id : String
  pub run_id : String
  pub reported : Bool
  pub outcome : Option Outcome
  pub safe_summary : Json
  pub verification_ref : Json
  pub usage_used : Json
  pub usage_limit : ℕ
  pub tool_profile_reference : String
  pub tool_profile_digest : String

pub record AuditRecord : Type 0 where
  pub project_id : String
  pub actor_id : String
  pub action : String
  pub object_type : String
  pub object_id : String
  pub details : Fields

pub record WorkDb : Type 0 where
  pub projects : List Project
  pub sponsors : List (String × String)
  pub works : List WorkItem
  pub gates : List Gate
  pub approvals : List Approval
  pub incidents : List Incident
  pub attempts : List Attempt
  pub requests : List RecoveryRequest
  pub runs : List SupervisorRun
  pub audits : List AuditRecord
  pub journal : Journal
  pub queue : QueueDb

-- the columns of the keys
unfoldable pub has_work_key : String → String → WorkItem → Bool
has_work_key project work w = (w.project_id == project) && (w.work_item_id == work)

unfoldable pub has_gate_key : String → String → Gate → Bool
has_gate_key project gate g = (g.project_id == project) && (g.gate_id == gate)

unfoldable pub has_approval_key : String → String → Approval → Bool
has_approval_key project approval a = (a.project_id == project) && (a.approval_id == approval)

unfoldable pub has_incident_key : String → String → Incident → Bool
has_incident_key project incident i = (i.project_id == project) && (i.incident_id == incident)

abbrev pub is_open_status : IncidentStatus → Bool
is_open_status IncidentStatus.active = true
is_open_status IncidentStatus.terminal_eligible = true
is_open_status _ = false

-- status IN ('active', 'terminal_eligible')
unfoldable pub is_open_incident : String → String → Incident → Bool
is_open_incident project work i =
    (i.project_id == project) && (i.work_item_id == work) && is_open_status i.status

-- the keys of work_items, for the foreign keys of the events and the queue items
unfoldable pub work_keys : List WorkItem → List (String × String)
work_keys works = map (λ w. (w.project_id, w.work_item_id)) works

-- an event with one message: the drafts and their checks, and EventUnitOfWork.append
unfoldable pub publish :
    (String → String) → ℕ → WorkDb → EventDraft → String → Fields → Journaled WorkDb
unfolding new_event new_outbound append work_keys
publish sha256 now db draft topic payload = do
  e ← new_event draft
  m ← new_outbound topic payload
  appended ← append sha256 now (work_keys db.works) db.journal e (m ∷ [])
  ok (record db { journal = appended.0 })

-- ===== src/Lifecycle/Gates.antt =====
-- lifecycle.py, LifecycleStore.open_gate, decide_gate, get_gate and get_approval.
use Prim.Native.String.{◌++◌ as append_text}
use agentic_mesh.Prelude.{
  ℕ, ◌+◌, String, Bool, true, false, Option, none, some, List, [], ◌∷◌, ◌==◌, ◌&&◌, ◌||◌, not, leb,
  eqb, any_of, all_of, find_if, update_if, is_none, ok, err, ◌>>=◌, ◌>>◌, guard, or_raise,
  if◌then◌else◌,
}
use agentic_mesh.Prelude.Sets.{has_duplicates}
use agentic_mesh.Prelude.Json.{str, obj, Fields, end, field}
use agentic_mesh.Prelude.Int.{ℤ, pos, negsuc}
use agentic_mesh.Queue.Store.{has_pair}
use agentic_mesh.Journal.{EventDraft}
use agentic_mesh.Work.{
  WorkItem, GateStatus, pending, approved, rejected, Gate, Approval, WorkDb, has_work_key,
  has_gate_key, has_approval_key, publish,
}
use agentic_mesh.Lifecycle.{
  bad_argument, no_such, conflicting, unauthorised, transaction_failed, Lived, WorkEnv,
  lifecycle_required, required_each, from_journal, is_empty_list, work_event, outbound_payload,
  lock_work_item, evidence_or_empty,
}

-- `current.version != expected_version`; the argument may be any integer here
unfoldable pub is_version : ℤ → ℕ → Bool
is_version (pos n) version = eqb version n
is_version (negsuc n) version = false

-- get_gate
unfoldable pub get_gate : WorkDb → String → String → Lived Gate
unfolding lifecycle_required find_if has_gate_key
get_gate db project gate = do
  project_id ← lifecycle_required project "project_id"
  gate_id ← lifecycle_required gate "gate_id"
  or_raise (find_if (has_gate_key project_id gate_id) db.gates) (no_such "gate not found")

-- get_approval
unfoldable pub get_approval : WorkDb → String → String → Lived Approval
unfolding lifecycle_required find_if has_approval_key
get_approval db project approval = do
  project_id ← lifecycle_required project "project_id"
  approval_id ← lifecycle_required approval "approval_id"
  or_raise (find_if (has_approval_key project_id approval_id) db.approvals)
      (no_such "approval not found")

-- f"{gate_id}:{sponsor}"
abbrev pub approval_name : String → String → String
approval_name gate sponsor = append_text gate (append_text ":" sponsor)

unfoldable pub is_approval_of : String → String → String → Approval → Bool
is_approval_of project gate approver a =
    (a.project_id == project) && (a.gate_id == gate) && (a.approver_id == approver)

-- the INSERT INTO approvals for one sponsor, with the primary key and the unique key of the table
unfoldable pub insert_approval : String → String → String → List Approval → Lived (List Approval)
unfolding has_approval_key is_approval_of any_of
insert_approval project gate sponsor approvals = do
  guard
      (not (
        any_of (has_approval_key project (approval_name gate sponsor)) approvals
        || any_of (is_approval_of project gate sponsor) approvals))
      transaction_failed
  ok (
      record {
        project_id = project;
        approval_id = approval_name gate sponsor;
        gate_id = gate;
        approver_id = sponsor;
        decision = none;
        rationale = none;
        evidence = end;
        decided_at = none;
      }
      ∷ approvals)

-- `for sponsor in sponsors`
unfoldable pub insert_approvals :
    String → String → List String → List Approval → Lived (List Approval)
unfolding insert_approval
insert_approvals project gate [] approvals = ok approvals
insert_approvals project gate (s ∷ ss) approvals = do
  more ← insert_approval project gate s approvals
  insert_approvals project gate ss more

-- the UPDATE of the work item's status and version
unfoldable pub set_work : ℕ → String → WorkItem → WorkItem
set_work now status w = record w { status = status; version = w.version + 1; updated_at = now }

-- the INSERT INTO gates and the UPDATE of the work item
unfoldable pub gate_rows : WorkDb → WorkEnv → Gate → List Approval → WorkDb
unfolding has_work_key set_work update_if
gate_rows db env g approvals = record db {
  gates = g ∷ db.gates;
  works =
      update_if (has_work_key g.project_id g.work_item_id) (set_work (env.clock 0) "gated")
        db.works;
  approvals = approvals;
}

-- the event of a new gate
abbrev pub gate_event : Gate → EventDraft
gate_event g =
    work_event g.project_id g.work_item_id g.requested_by g.correlation_id "gate.opened"
      (field "gate_id" (str g.gate_id) (field "gate_type" (str g.gate_type) end))

-- open_gate, with checked arguments, up to the commit
unfoldable pub gate_row : WorkDb → WorkEnv → Gate → List String → ℤ → Lived WorkDb
unfolding lock_work_item is_version all_of has_pair any_of has_gate_key insert_approvals gate_rows
    publish
gate_row db env g sponsors expected = do
  current ← lock_work_item db g.project_id g.work_item_id
  guard (is_version expected current.version) (conflicting "work item version is stale")
  guard (current.status == "active") (conflicting "only active work can enter a gate")
  guard (all_of (λ s. has_pair g.project_id s db.sponsors) sponsors)
      (unauthorised "gate approver is not a project sponsor")
  guard (not (any_of (has_gate_key g.project_id g.gate_id) db.gates))
      (conflicting "gate already exists")
  guard (leb (current.version + 1) 2147483647) transaction_failed
  approvals ← insert_approvals g.project_id g.gate_id sponsors db.approvals
  from_journal (
      publish env.sha256 (env.clock 1) (gate_rows db env g approvals) (gate_event g)
        "lifecycle.events" (outbound_payload g.project_id g.work_item_id "gate.opened" "gated"))

-- the row of a new gate
abbrev pub new_gate : String → String → String → String → String → String → Option Fields → Gate
new_gate project gate work kind requester correlation evidence = record {
  project_id = project;
  gate_id = gate;
  work_item_id = work;
  gate_type = kind;
  status = pending;
  requested_by = requester;
  correlation_id = correlation;
  evidence = evidence_or_empty evidence;
  resolved_at = none;
}

-- open_gate
unfoldable pub open_gate :
    WorkDb
    → WorkEnv
    → String
    → String
    → String
    → String
    → String
    → List String
    → String
    → ℤ
    → Option Fields
    → Lived (WorkDb × Lived Gate)
unfolding lifecycle_required required_each has_duplicates gate_row get_gate
open_gate db env project work gate kind requester sponsor_ids correlation expected evidence = do
  project_id ← lifecycle_required project "project_id"
  work_item_id ← lifecycle_required work "work_item_id"
  gate_id ← lifecycle_required gate "gate_id"
  gate_type ← lifecycle_required kind "gate_type"
  requested_by ← lifecycle_required requester "requested_by"
  correlation_id ← lifecycle_required correlation "correlation_id"
  sponsors ← required_each sponsor_ids "sponsor_id"
  guard (not (is_empty_list sponsors) && not (has_duplicates sponsors))
      (bad_argument "sponsor_ids must be non-empty and unique")
  db' ←
      gate_row db env
        (new_gate project_id gate_id work_item_id gate_type requested_by correlation_id evidence)
        sponsors expected
  ok (db', get_gate db' project_id gate_id)

-- `decision not in {"approved", "rejected"}`, and the status that the gate takes
unfoldable pub decision_status : String → Lived GateStatus
decision_status decision =
    if decision == "approved"
    then ok approved
    else if decision == "rejected"
    then ok rejected
    else err (bad_argument "decision must be approved or rejected")

abbrev pub is_pending : GateStatus → Bool
is_pending pending = true
is_pending _ = false

-- the UPDATE of the approval
unfoldable pub decide_approval : ℕ → String → String → Fields → Approval → Approval
decide_approval now decision rationale evidence a = record a {
  decision = some decision;
  rationale = some rationale;
  evidence = evidence;
  decided_at = some now;
}

-- the UPDATE of the gate
unfoldable pub resolve_gate : ℕ → GateStatus → Gate → Gate
resolve_gate now status g = record g { status = status; resolved_at = some now }

-- the three UPDATEs of decide_gate
unfoldable pub decide_rows :
    WorkDb → WorkEnv → Gate → Approval → String → GateStatus → String → Fields → WorkDb
unfolding has_approval_key decide_approval has_gate_key resolve_gate has_work_key set_work update_if
decide_rows db env g a decision status rationale evidence = record db {
  approvals =
      update_if (has_approval_key g.project_id a.approval_id)
        (decide_approval (env.clock 0) decision rationale evidence) db.approvals;
  gates =
      update_if (has_gate_key g.project_id g.gate_id) (resolve_gate (env.clock 1) status) db.gates;
  works =
      update_if (has_work_key g.project_id g.work_item_id) (set_work (env.clock 2) "active")
        db.works;
}

-- the event of a decision
abbrev pub decision_event : Gate → String → String → String → Fields → EventDraft
decision_event g sponsor decision rationale evidence =
    work_event g.project_id g.work_item_id sponsor g.correlation_id (append_text "gate." decision) (
      field "gate_id" (str g.gate_id) (
        field "decision" (str decision)
          (field "rationale" (str rationale) (field "evidence" (obj evidence) end))))

-- decide_gate, with checked arguments, up to the commit
unfoldable pub decide_row :
    WorkDb
    → WorkEnv
    → String
    → String
    → String
    → String
    → GateStatus
    → String
    → Fields
    → Lived (WorkDb × String)
unfolding find_if has_gate_key is_approval_of lock_work_item decide_rows publish
decide_row db env project gate sponsor decision status rationale evidence = do
  g ← or_raise (find_if (has_gate_key project gate) db.gates) (no_such "gate not found")
  guard (is_pending g.status) (conflicting "gate is already resolved")
  a ←
      or_raise (find_if (is_approval_of project gate sponsor) db.approvals)
        (unauthorised "sponsor is not authorized for this gate")
  guard (is_none a.decision) (conflicting "approval is already decided")
  current ← lock_work_item db project g.work_item_id
  guard (current.status == "gated") (conflicting "gated work item state is inconsistent")
  guard (leb (current.version + 1) 2147483647) transaction_failed
  db' ← from_journal (
      publish env.sha256 (env.clock 3) (decide_rows db env g a decision status rationale evidence)
        (decision_event g sponsor decision rationale evidence) "lifecycle.events"
        (outbound_payload project g.work_item_id (append_text "gate." decision) "active"))
  ok (db', a.approval_id)

-- decide_gate
unfoldable pub decide_gate :
    WorkDb
    → WorkEnv
    → String
    → String
    → String
    → String
    → String
    → Option Fields
    → Lived (WorkDb × Lived Approval)
unfolding lifecycle_required decision_status decide_row get_approval
decide_gate db env project gate sponsor decision rationale evidence = do
  project_id ← lifecycle_required project "project_id"
  gate_id ← lifecycle_required gate "gate_id"
  sponsor_id ← lifecycle_required sponsor "sponsor_id"
  chosen ← lifecycle_required decision "decision"
  status ← decision_status chosen
  reason ← lifecycle_required rationale "rationale"
  decided ←
      decide_row db env project_id gate_id sponsor_id chosen status reason
        (evidence_or_empty evidence)
  ok (decided.0, get_approval decided.0 project_id decided.1)

-- ===== src/Lifecycle.antt =====
-- src/agentic_mesh_v5/lifecycle.py: projects and work items, and the transitions of work. Gates are in
-- Lifecycle/Gates. Each operation is one transaction on the tables of Work: it returns the tables that
-- it commits, or raises and commits nothing.
pub mod Gates
pub mod Moving
pub mod Gating
use Prim.Native.String.{◌++◌ as append_text}
use agentic_mesh.Prelude.{
  ℕ, ◌+◌, String, Bool, true, false, Option, none, some, List, [], ◌∷◌, ◌++◌, map, ◌==◌, ◌&&◌, ◌||◌,
  not, leb, eqb, any_of, all_of, find_if, update_if, is_none, Result, ok, err, ◌>>=◌, ◌>>◌, guard,
  or_raise, if◌then◌else◌,
}
use agentic_mesh.Prelude.Text.{strip}
use agentic_mesh.Prelude.Sets.{contains, has_duplicates}
use agentic_mesh.Prelude.Json.{Json, null, int, str, obj, Fields, end, field, put}
use agentic_mesh.Prelude.Int.{ℤ, pos, negsuc}
use agentic_mesh.Queue.Store.{has_pair, has_role_key}
use agentic_mesh.Journal.{JournalError, bad_value, Journaled, EventDraft}
use agentic_mesh.Work.{
  WorkItem, IncidentStatus, Incident, WorkDb, has_work_key, has_incident_key, is_open_incident,
  publish,
}

-- ValueError, LifecycleNotFound, LifecycleConflict, LifecycleAuthorizationError, LifecycleError, and
-- the DatabaseError that EventStore.transaction makes of any other exception
pub data LifecycleError : Type 0 where
  bad_argument no_such conflicting unauthorised : String → LifecycleError
  creation_failed transaction_failed : LifecycleError

abbrev pub Lived {ℓ} : Type ℓ → Type ℓ
Lived A = Result LifecycleError A

-- What a transaction takes from outside: the clock at its statements, in their order, and
-- `hashlib.sha256(...).hexdigest()` of a text.
pub record WorkEnv : Type 0 where
  pub clock : ℕ → ℕ
  pub sha256 : String → String

-- _required
unfoldable pub lifecycle_required : String → String → Lived String
unfolding strip
lifecycle_required value name =
    if strip value == "" then err (bad_argument name) else ok (strip value)

unfoldable pub required_each : List String → String → Lived (List String)
unfolding lifecycle_required
required_each [] name = ok []
required_each (v ∷ vs) name = do
  value ← lifecycle_required v name
  values ← required_each vs name
  ok (value ∷ values)

-- the exceptions of an append in EventStore.transaction
abbrev pub from_journal {ℓ} : {A : Type ℓ} → Journaled A → Lived A
from_journal (ok a) = ok a
from_journal (err (bad_value m)) = err (bad_argument m)
from_journal (err _) = err transaction_failed

abbrev pub is_empty_list {ℓ} : {A : Type ℓ} → List A → Bool
is_empty_list [] = true
is_empty_list (_ ∷ _) = false

-- create_project
unfoldable pub create_project : WorkDb → String → String → List String → Lived WorkDb
unfolding lifecycle_required required_each has_duplicates has_pair any_of
create_project db project name sponsor_ids = do
  project_id ← lifecycle_required project "project_id"
  display_name ← lifecycle_required name "display_name"
  sponsors ← required_each sponsor_ids "sponsor_id"
  guard (not (is_empty_list sponsors)) (bad_argument "at least one sponsor_id is required")
  guard (not (has_duplicates sponsors)) (bad_argument "sponsor_ids must be unique")
  guard (not (any_of (λ p. p.project_id == project_id) db.projects))
      (conflicting "project or sponsor already exists")
  guard (not (any_of (λ s. has_pair project_id s db.sponsors) sponsors))
      (conflicting "project or sponsor already exists")
  ok (record db {
    projects = record { project_id = project_id; display_name = display_name } ∷ db.projects;
    sponsors = map (λ s. (project_id, s)) sponsors ++ db.sponsors;
  })

-- _event
abbrev pub work_event : String → String → String → String → String → Fields → EventDraft
work_event project work actor correlation event_type payload = record {
  project_id = project;
  work_item_id = work;
  actor_id = actor;
  correlation_id = correlation;
  aggregate_type = "work-item";
  aggregate_id = work;
  event_type = event_type;
  payload = payload;
  causation_id = none;
}

-- _outbound
abbrev pub outbound_payload : String → String → String → String → Fields
outbound_payload project work event_type status = field "project_id" (str project) (
    field "work_item_id" (str work)
      (field "event_type" (str event_type) (field "status" (str status) end)))

-- get_work_item
unfoldable pub get_work_item : WorkDb → String → String → Lived WorkItem
unfolding lifecycle_required find_if has_work_key
get_work_item db project work = do
  project_id ← lifecycle_required project "project_id"
  work_item_id ← lifecycle_required work "work_item_id"
  or_raise (find_if (has_work_key project_id work_item_id) db.works) (no_such "work item not found")

-- the foreign keys of a work item
unfoldable pub is_referenced : WorkDb → String → Option String → Bool
unfolding has_role_key any_of
is_referenced db project none = any_of (λ p. p.project_id == project) db.projects
is_referenced db project (some r) =
    any_of (λ p. p.project_id == project) db.projects
    && any_of (has_role_key project r) db.queue.roles

-- the INSERT of create_work_item
unfoldable pub insert_work : WorkDb → WorkItem → Option String → Lived WorkDb
unfolding has_work_key is_referenced any_of
insert_work db w role = do
  guard (not (any_of (has_work_key w.project_id w.work_item_id) db.works))
      (conflicting "work item already exists")
  guard (is_referenced db w.project_id role) (no_such "project or owning role not found")
  ok (record db { works = w ∷ db.works })

-- the row of a new work item
abbrev pub new_work : WorkEnv → String → String → String → String → WorkItem
new_work env project work title owner = record {
  project_id = project;
  work_item_id = work;
  title = title;
  status = "new";
  owner_role_id = some owner;
  version = 1;
  terminal_reason = none;
  terminal_evidence = end;
  updated_at = env.clock 0;
}

-- the event of a new work item
abbrev pub created_event : String → String → String → String → EventDraft
created_event project work actor correlation =
    work_event project work actor correlation "work.created" (field "status" (str "new") end)

-- create_work_item
unfoldable pub create_work_item :
    WorkDb
    → WorkEnv
    → String
    → String
    → String
    → String
    → String
    → String
    → Lived (WorkDb × Lived WorkItem)
unfolding lifecycle_required insert_work publish get_work_item
create_work_item db env project work title owner actor correlation = do
  project_id ← lifecycle_required project "project_id"
  work_item_id ← lifecycle_required work "work_item_id"
  title' ← lifecycle_required title "title"
  owner_role_id ← lifecycle_required owner "owner_role_id"
  actor_id ← lifecycle_required actor "actor_id"
  correlation_id ← lifecycle_required correlation "correlation_id"
  db₁ ←
      insert_work db (new_work env project_id work_item_id title' owner_role_id)
        (some owner_role_id)
  db₂ ← from_journal (
      publish env.sha256 (env.clock 1) db₁
        (created_event project_id work_item_id actor_id correlation_id) "lifecycle.events"
        (outbound_payload project_id work_item_id "work.created" "new"))
  ok (db₂, get_work_item db₂ project_id work_item_id)

-- _DIRECT_TRANSITIONS
unfoldable pub direct_transitions : String → List String
direct_transitions status =
    if status == "new"
    then "active" ∷ []
    else if status == "active"
    then "completed" ∷ "error" ∷ []
    else []

-- _lock_work_item
unfoldable pub lock_work_item : WorkDb → String → String → Lived WorkItem
unfolding find_if has_work_key
lock_work_item db project work =
    or_raise (find_if (has_work_key project work) db.works) (no_such "work item not found")

unfoldable pub is_terminal_status : String → Bool
is_terminal_status status = (status == "completed") || (status == "error")

-- `_required(reason, "reason") if terminal else None`
unfoldable pub checked_reason : String → String → Lived (Option String)
unfolding is_terminal_status lifecycle_required
checked_reason target reason =
    if is_terminal_status target
    then (do value ← lifecycle_required reason "reason"; ok (some value))
    else ok none

-- `current.version != expected_version`, where the expected version is positive
abbrev pub version_of : ℤ → Lived ℕ
version_of (pos n) =
    if leb 1 n then ok n else err (bad_argument "expected_version must be positive")
version_of (negsuc n) = err (bad_argument "expected_version must be positive")

abbrev pub is_exhausted_status : IncidentStatus → Bool
is_exhausted_status IncidentStatus.terminal_eligible = true
is_exhausted_status _ = false

unfoldable pub is_exhausted : String → String → Incident → Bool
is_exhausted project work i =
    (i.project_id == project) && (i.work_item_id == work) && is_exhausted_status i.status

-- the incident that a transition to error needs
unfoldable pub exhausted_incident : WorkDb → String → String → String → Lived (Option Incident)
unfolding find_if is_exhausted
exhausted_incident db target project work =
    if target == "error"
    then (do
      i ←
          or_raise (find_if (is_exhausted project work) db.incidents)
            (conflicting "terminal error requires exhausted retry and recovery chain")
      ok (some i))
    else ok none

abbrev pub with_incident : Option Incident → Fields → Fields
with_incident none evidence = evidence
with_incident (some i) evidence = put evidence "failure_incident_id" (str i.incident_id)

-- the UPDATE of the work item
unfoldable pub move_work : ℕ → String → Option String → Fields → WorkItem → WorkItem
move_work now target reason evidence w = record w {
  status = target;
  version = w.version + 1;
  terminal_reason = reason;
  terminal_evidence = evidence;
  updated_at = now;
}

-- the UPDATE of the incident that becomes terminal
unfoldable pub end_incident : ℕ → Incident → Incident
end_incident now i = record i { status = IncidentStatus.terminal; resolved_at = some now }

unfoldable pub is_ended_by : String → Option Incident → Incident → Bool
unfolding has_incident_key
is_ended_by project none i = false
is_ended_by project (some found) i =
    has_incident_key project found.incident_id i && is_exhausted_status i.status

abbrev pub reason_json : Option String → Json
reason_json none = null
reason_json (some r) = str r

-- the statements of transition_work_item on the tables, before the event
unfoldable pub move_rows :
    WorkDb → WorkEnv → String → String → String → Option String → Fields → Option Incident → WorkDb
unfolding has_work_key move_work is_ended_by end_incident update_if
move_rows db env project work target reason evidence incident = record db {
  works =
      update_if (has_work_key project work) (move_work (env.clock 0) target reason evidence)
        db.works;
  incidents = update_if (is_ended_by project incident) (end_incident (env.clock 1)) db.incidents;
}

-- the event of a transition
abbrev pub moved_event :
    String → String → String → String → String → ℕ → Option String → Fields → EventDraft
moved_event project work actor correlation target version reason evidence =
    work_event project work actor correlation (append_text "work." target) (
      field "status" (str target) (
        field "version" (int version)
          (field "reason" (reason_json reason) (field "evidence" (obj evidence) end))))

-- transition_work_item, with checked arguments, up to the commit
unfoldable pub transition_row :
    WorkDb
    → WorkEnv
    → String
    → String
    → String
    → String
    → String
    → ℕ
    → Option String
    → Fields
    → Lived WorkDb
unfolding lock_work_item direct_transitions contains is_open_incident any_of exhausted_incident
    move_rows publish
transition_row db env project work target actor correlation expected reason evidence = do
  current ← lock_work_item db project work
  guard (eqb current.version expected) (conflicting "work item version is stale")
  guard (contains (direct_transitions current.status) target) (
      conflicting (
        append_text "invalid work item transition: "
          (append_text current.status (append_text " -> " target))))
  guard (not ((target == "completed") && any_of (is_open_incident project work) db.incidents))
      (conflicting "completed work requires its failure incident to be resolved")
  incident ← exhausted_incident db target project work
  guard (leb (current.version + 1) 2147483647) transaction_failed
  from_journal (
      publish env.sha256 (env.clock 2)
        (move_rows db env project work target reason (with_incident incident evidence) incident)
        (moved_event project work actor correlation target (current.version + 1) reason
          (with_incident incident evidence))
        "lifecycle.events" (outbound_payload project work (append_text "work." target) target))

-- `dict(evidence or {})`
abbrev pub evidence_or_empty : Option Fields → Fields
evidence_or_empty none = end
evidence_or_empty (some e) = e

-- transition_work_item
unfoldable pub transition_work_item :
    WorkDb
    → WorkEnv
    → String
    → String
    → String
    → String
    → String
    → ℤ
    → String
    → Option Fields
    → Lived (WorkDb × Lived WorkItem)
unfolding lifecycle_required checked_reason transition_row get_work_item
transition_work_item db env project work target actor correlation expected reason evidence = do
  project_id ← lifecycle_required project "project_id"
  work_item_id ← lifecycle_required work "work_item_id"
  target_status ← lifecycle_required target "target_status"
  actor_id ← lifecycle_required actor "actor_id"
  correlation_id ← lifecycle_required correlation "correlation_id"
  expected_version ← version_of expected
  reason_value ← checked_reason target_status reason
  db' ←
      transition_row db env project_id work_item_id target_status actor_id correlation_id
        expected_version reason_value (evidence_or_empty evidence)
  ok (db', get_work_item db' project_id work_item_id)

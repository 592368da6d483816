-- ===== src/Reliability.antt =====
-- src/agentic_mesh_v5/reliability.py: the fixed policy of three technical attempts, three corrections
-- and one recovery. Here are its arguments, its errors, and what its parts do to the tables of Work;
-- the operations are in Reliability/Incidents,
-- Reliability/Results and Reliability/Attempts. From progress.py it has the test for restricted
-- content.
pub mod Incidents
pub mod Results
pub mod Attempts
pub mod Steps
pub mod Advancing
pub mod Policy
pub mod Rows
pub mod Recording
pub mod Starting
pub mod Repeats
use Prim.Native.String.{◌++◌ as append_text}
use agentic_mesh.Prelude.{
  ℕ, ◌+◌, String, Bool, true, false, Option, none, some, List, [], ◌∷◌, ◌==◌, ◌&&◌, ◌||◌, not, ltb,
  leb, eqb, any_of, find_if, update_if, is_some, Result, ok, err, ◌>>=◌, ◌>>◌, guard, or_raise,
  if◌then◌else◌,
}
use agentic_mesh.Prelude.Text.{strip, len, is_identifier, take_text, decimal}
use agentic_mesh.Prelude.Json.{Json, null, bool, int, str, obj, Fields, end, field}
use agentic_mesh.Prelude.Int.{ℤ, pos, negsuc}
use agentic_mesh.Queue.{QueueDb, QueueItem}
use agentic_mesh.Journal.{Journaled, EventDraft}
use agentic_mesh.Routing.{
  RoutingError, route_not_found, route_conflict, Routed, RouteEnv, RouteDraft, new_draft,
  route_in_transaction,
}
use agentic_mesh.Work.{
  Stage, technical, pm_correction, recovery, Outcome, IncidentStatus, Incident, RequestStatus,
  RecoveryRequest, AuditRecord, WorkDb, has_incident_key, work_keys, publish,
}

-- ValueError, ProgressSensitiveContent, ReliabilityNotFound, ReliabilityConflict and ReliabilityError
pub data ReliabilityError : Type 0 where
  bad_input sensitive_content unknown conflicts : String → ReliabilityError
  policy_failed : ReliabilityError

abbrev pub Relied {ℓ} : Type ℓ → Type ℓ
Relied A = Result ReliabilityError A

-- What an operation takes from outside: the clock at its statements, in their order; the hash, the
-- JSON text and the clock of a route; and `re.search` without regard to case.
pub record RetryEnv : Type 0 where
  pub clock : ℕ → ℕ
  pub routing : RouteEnv
  pub search_pattern : String → String → Bool

-- _SENSITIVE_PATTERNS
abbrev pub sensitive_patterns : List String
sensitive_patterns =
    "-----BEGIN (?:RSA |EC |OPENSSH )?PRIVATE KEY-----" ∷ "\\bBearer\\s+[A-Za-z0-9._~+/=-]{16,}"
    ∷ "\\bsk-[A-Za-z0-9_-]{16,}"
    ∷ "\\b(?:access_token|refresh_token|client_secret|password)[\"']?\\s*[:=]\\s*[\"']?[^\\s\"']{8,}"
    ∷ "\\b(?:api[_-]?key|secret[_-]?key|token)[\"']?\\s*[:=]\\s*[\"']?[^\\s\"']{12,}"
    ∷ "\\b(?:gh[pousr]_[A-Za-z0-9]{20,}|AKIA[0-9A-Z]{16}|xox[baprs]-[A-Za-z0-9-]{16,})"
    ∷ "(?:postgres(?:ql)?|mysql|mongodb(?:\\+srv)?)://[^\\s/:@]+:[^\\s/@]+@"
    ∷ "</?(?:analysis|reasoning|chain[-_ ]of[-_ ]thought)>" ∷ []

-- reject_sensitive_content
unfoldable pub reject_sensitive_content :
    (String → String → Bool) → String → String → Relied (Unit {0})
unfolding any_of
reject_sensitive_content search_pattern value name =
    guard (not (any_of (λ pattern_text. search_pattern pattern_text value) sensitive_patterns))
      (sensitive_content name)

-- _identifier
unfoldable pub retry_identifier : String → String → Relied String
unfolding strip is_identifier
retry_identifier value name =
    if is_identifier (strip value) then ok (strip value) else err (bad_input name)

-- _bounded
unfoldable pub bounded : String → String → ℕ → Relied String
unfolding strip len
bounded value name maximum =
    if (strip value == "") || ltb maximum (len (strip value))
    then err (bad_input name)
    else ok (strip value)

-- _fingerprint
unfoldable pub request_fingerprint_of : RetryEnv → Fields → String
request_fingerprint_of env m = env.routing.sha256 (env.routing.dumps m)

-- _derived_id
unfoldable pub derived_id : RetryEnv → String → String → String → String
unfolding take_text
derived_id env label project key = append_text label (
    append_text "-"
      (take_text 32 (env.routing.sha256 (append_text project (append_text "\0" key)))))

-- _ordinal
unfoldable pub ordinal_of : Stage → ℕ → ℕ
ordinal_of technical n = n
ordinal_of pm_correction n = 3 + n
ordinal_of recovery n = 7

abbrev pub stage_name : Stage → String
stage_name technical = "technical"
stage_name pm_correction = "pm_correction"
stage_name recovery = "recovery"

abbrev pub same_stage : Stage → Stage → Bool
same_stage technical technical = true
same_stage pm_correction pm_correction = true
same_stage recovery recovery = true
same_stage _ _ = false

-- `(incident[3], incident[4]) != (stage, attempt_number)`
unfoldable pub is_next : Stage → ℕ → Option (Stage × ℕ) → Bool
is_next stage n none = false
is_next stage n (some (s, m)) = same_stage s stage && eqb m n

-- _set_next
abbrev pub is_active_incident : IncidentStatus → Bool
is_active_incident IncidentStatus.active = true
is_active_incident _ = false

unfoldable pub with_next : Stage → ℕ → Incident → Incident
with_next stage n i = if is_active_incident i.status then record i { next = some (stage, n) } else i

unfoldable pub set_next : WorkDb → String → String → Stage → ℕ → WorkDb
unfolding has_incident_key with_next update_if
set_next db project incident stage n = record db {
  incidents = update_if (has_incident_key project incident) (with_next stage n) db.incidents;
}

-- _audit
unfoldable pub audit : WorkDb → String → String → String → String → Fields → WorkDb
audit db project actor action object details = record db {
  audits =
      record {
        project_id = project;
        actor_id = actor;
        action = action;
        object_type = "failure-incident";
        object_id = object;
        details = details;
      }
      ∷ db.audits;
}

-- the handlers of start and record_attempt around a route and around an append
abbrev pub from_routing {ℓ} : {A : Type ℓ} → Routed A → Relied A
from_routing (ok a) = ok a
from_routing (err (route_not_found _)) =
    err (conflicts "required continuation route is unavailable")
from_routing (err (route_conflict _)) = err (conflicts "required continuation route is unavailable")
from_routing (err _) = err policy_failed

abbrev pub from_append {ℓ} : {A : Type ℓ} → Journaled A → Relied A
from_append (ok a) = ok a
from_append (err _) = err policy_failed

-- the EventDraft of _journal
abbrev pub retry_event : String → String → String → String → String → String → Fields → EventDraft
retry_event project work actor correlation incident event_type payload = record {
  project_id = project;
  work_item_id = work;
  actor_id = actor;
  correlation_id = correlation;
  aggregate_type = "failure-incident";
  aggregate_id = incident;
  event_type = event_type;
  payload = payload;
  causation_id = none;
}

-- _journal
unfoldable pub journal_event : WorkDb → RetryEnv → ℕ → EventDraft → Relied WorkDb
unfolding publish
journal_event db env now draft =
    from_append (publish env.routing.sha256 now db draft "reliability.changed" draft.payload)

unfoldable pub required_action : Bool → Stage → String
required_action true stage = "Resume normal work after verified independent recovery."
required_action false pm_correction =
    "Produce and execute one distinct, minimal corrective instruction; do not repeat an earlier correction or over-engineer the repair."
required_action false _ = "Retry the same bounded operation using the recorded evidence."

-- `"resume" if resumed else f"{stage}-{attempt_number}"`
unfoldable pub route_suffix : Bool → Stage → ℕ → String
unfolding decimal
route_suffix true stage n = "resume"
route_suffix false stage n = append_text (stage_name stage) (append_text "-" (decimal 10 n))

-- the RouteDraft of _route, with its checks
unfoldable pub retry_draft :
    String → String → String → String → Stage → ℕ → String → String → Bool → Relied RouteDraft
unfolding required_action route_suffix new_draft
retry_draft project work role incident stage n summary source resumed = from_routing (
    new_draft project work role
      (append_text "reliability:"
        (append_text incident (append_text ":" (route_suffix resumed stage n))))
      (field "reliability"
        (obj (
          field "incident_id" (str incident) (
            field "stage" (str (stage_name stage)) (
              field "attempt_number" (int n) (
                field "safe_summary" (str summary) (
                  field "source_ref" (str source) (
                    field "resumed_after_recovery" (bool resumed)
                      (field "required_action" (str (required_action resumed stage)) end))))))))
        end)
      none (pos 200) none)

-- the queues' tables, whose keys of work items are those of the work items here
unfoldable pub queue_of : WorkDb → QueueDb
unfolding work_keys
queue_of db = record db.queue { work_items = work_keys db.works }

-- _route
unfoldable pub route_retry :
    WorkDb
    → RetryEnv
    → String
    → String
    → String
    → String
    → Stage
    → ℕ
    → String
    → String
    → Bool
    → Relied WorkDb
unfolding retry_draft route_in_transaction queue_of
route_retry db env project work role incident stage n summary source resumed = do
  draft ← retry_draft project work role incident stage n summary source resumed
  routed ← from_routing (route_in_transaction (queue_of db) env.routing draft)
  ok (record db { queue = routed.0 })

-- the constant _PM_ROLE
abbrev pub pm_role : String
pm_role = "project-manager"

-- the exact goal of a recovery request
unfoldable pub recovery_goal : String → String → String → String
recovery_goal work summary source = append_text "Restore Agentic Mesh work item " (
    append_text work (
      append_text
        " after its technical retries and PM corrections were exhausted. Resolve this verified failure: "
        (append_text summary (
          append_text " Source: " (
            append_text source
              ". Leave the Mesh in a verified working state and record the repair evidence.")))))

unfoldable pub request_collides : RecoveryRequest → RecoveryRequest → Bool
request_collides r q =
    (q.project_id == r.project_id)
    && ((q.recovery_request_id == r.recovery_request_id) || (q.incident_id == r.incident_id))

-- the INSERT INTO recovery_requests, with its unique keys and the bound on the goal
unfoldable pub insert_request : WorkDb → RecoveryRequest → Relied WorkDb
unfolding request_collides any_of len
insert_request db r = do
  guard (not (any_of (request_collides r) db.requests)) policy_failed
  guard (leb (len r.exact_goal) 4000) policy_failed
  ok (record db { requests = r ∷ db.requests })

abbrev pub is_pending_request : RequestStatus → Bool
is_pending_request RequestStatus.pending = true
is_pending_request _ = false

unfoldable pub is_request_of : String → String → RecoveryRequest → Bool
is_request_of project incident r =
    (r.project_id == project) && (r.incident_id == incident) && is_pending_request r.status

-- the UPDATE that resolves a pending request
unfoldable pub resolve_request : WorkDb → String → String → RequestStatus → ℕ → Fields → WorkDb
unfolding is_request_of update_if
resolve_request db project incident status now evidence = record db {
  requests =
      update_if (is_request_of project incident)
        (λ r. record r { status = status; resolved_at = some now; evidence = evidence })
        db.requests;
}

-- the UPDATE of an incident that a failed recovery leaves without a next attempt
unfoldable pub exhaust : Incident → Incident
exhaust i = record i { status = IncidentStatus.terminal_eligible; next = none }

-- the UPDATE of an incident that an attempt has resolved
unfoldable pub recover : ℕ → Incident → Incident
recover now i = record i { status = IncidentStatus.recovered; next = none; resolved_at = some now }

unfoldable pub close_row : WorkDb → String → String → (Incident → Incident) → WorkDb
unfolding has_incident_key update_if
close_row db project incident f = record db {
  incidents = update_if (has_incident_key project incident) f db.incidents;
}

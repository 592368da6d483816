-- ===== src/Routing.antt =====
-- src/agentic_mesh_v5/routing.py: routes put one item for each idempotency key into the queue of a
-- role. The tables are those of the queues; a route is one transaction on them, in which the
-- advisory lock keeps out routes with the same key.
pub mod Idempotence
pub mod Delivery
pub mod Scenarios
use Prim.Native.String.{◌++◌ as append_text, [] as no_text, ◌∷◌ as add_char}
use agentic_mesh.Prelude.{
  ℕ, zero, suc, String, Bool, true, false, Option, none, some, List, ◌==◌, ◌&&◌, not, if◌then◌else◌,
  any_of, find_if, Result, ok, err, ◌>>=◌, ◌>>◌, guard, or_raise,
}
use agentic_mesh.Prelude.Text.{take_text, strip, is_identifier}
use agentic_mesh.Prelude.Json.{Json, null, int, negative_int, str, obj, Fields, end, field}
use agentic_mesh.Prelude.Int.{ℤ, pos, negsuc, fits_int4}
use agentic_mesh.Queue.{
  QueueError, not_found, conflict, ready, Role, RoleQueue, QueueItem, QueueDb, Queued,
  has_queue_key,
}
use agentic_mesh.Queue.Store.{has_pair, has_role_key, insert_item}

-- ValueError, RoutingNotFound, RoutingConflict and RoutingError; `raised` is an exception of the
-- database on its way through `route_in_transaction`
pub data RoutingError : Type 0 where
  invalid_draft route_not_found route_conflict : String → RoutingError
  route_error : RoutingError
  raised : QueueError → RoutingError

abbrev pub Routed {ℓ} : Type ℓ → Type ℓ
Routed A = Result RoutingError A

-- Times are microseconds.
pub record RouteDraft : Type 0 where
  pub project_id : String
  pub work_item_id : String
  pub target_role_id : String
  pub idempotency_key : String
  pub payload : Fields
  pub capability : Option String
  pub priority : ℤ
  pub available_at : Option ℕ

-- What a route takes from outside: the clock at its INSERT, `hashlib.sha256(...).hexdigest()` of a
-- text, `json.dumps` with sorted keys, and `datetime.isoformat`.
pub record RouteEnv : Type 0 where
  pub now : ℕ
  pub sha256 : String → String
  pub dumps : Fields → String
  pub isoformat : ℕ → String

-- _identifier
unfoldable pub route_identifier : String → String → Routed String
unfolding strip is_identifier
route_identifier value name =
    if is_identifier (strip value) then ok (strip value) else err (invalid_draft name)

unfoldable pub route_capability : Option String → Routed (Option String)
unfolding route_identifier
route_capability none = ok none
route_capability (some value) = do
  capability ← route_identifier value "capability"
  ok (some capability)

-- RouteDraft.__post_init__, on arguments of the declared types
unfoldable pub new_draft :
    String → String → String → String → Fields → Option String → ℤ → Option ℕ → Routed RouteDraft
unfolding route_identifier route_capability
new_draft project work role key payload capability priority available = do
  project_id ← route_identifier project "project_id"
  work_item_id ← route_identifier work "work_item_id"
  target_role_id ← route_identifier role "target_role_id"
  idempotency_key ← route_identifier key "idempotency_key"
  checked ← route_capability capability
  guard (fits_int4 priority) (invalid_draft "priority")
  ok (record {
    project_id = project_id;
    work_item_id = work_item_id;
    target_role_id = target_role_id;
    idempotency_key = idempotency_key;
    payload = payload;
    capability = checked;
    priority = priority;
    available_at = available;
  })

json_text : Option String → Json
json_text none = null
json_text (some s) = str s

json_time : (ℕ → String) → Option ℕ → Json
json_time isoformat none = null
json_time isoformat (some t) = str (isoformat t)

json_int : ℤ → Json
json_int (pos n) = int n
json_int (negsuc n) = negative_int n

-- _fingerprint
unfoldable pub fingerprint : RouteEnv → RouteDraft → String
unfolding json_text json_time json_int
fingerprint env d = env.sha256 (
    env.dumps (
      field "work_item_id" (str d.work_item_id) (
        field "target_role_id" (str d.target_role_id) (
          field "capability" (json_text d.capability) (
            field "priority" (json_int d.priority) (
              field "available_at" (json_time env.isoformat d.available_at)
                (field "payload" (obj d.payload) end)))))))

-- _route_item_id
unfoldable pub route_item_id : RouteEnv → String → String → String
unfolding take_text
route_item_id env project key =
    append_text "route-" (take_text 32 (env.sha256 (append_text project (append_text "\0" key))))

unfoldable pub same_text : Option String → String → Bool
same_text none t = false
same_text (some s) t = s == t

-- the SELECT of _existing
unfoldable pub is_existing : QueueDb → String → String → QueueItem → Bool
unfolding any_of has_queue_key
is_existing db project key i =
    (i.project_id == project)
    && (i.idempotency_key == key)
    && any_of (has_queue_key i.project_id i.queue_id) db.queues

-- the end of _existing: the row of the same work, or the conflict with other work
unfoldable pub accept_existing : String → Option QueueItem → Routed (Option QueueItem)
unfolding same_text
accept_existing wanted none = ok none
accept_existing wanted (some i) = do
  guard (same_text i.route_fingerprint wanted)
      (route_conflict "idempotency key is already used by different work")
  ok (some i)

-- _existing
unfoldable pub existing_route : QueueDb → RouteDraft → String → Routed (Option QueueItem)
unfolding find_if is_existing accept_existing
existing_route db d wanted =
    accept_existing wanted (find_if (is_existing db d.project_id d.idempotency_key) db.items)

-- IS NOT DISTINCT FROM
unfoldable pub not_distinct : Option String → Option String → Bool
not_distinct none none = true
not_distinct (some a) (some b) = a == b
not_distinct _ _ = false

-- the WHERE clause of the target's SELECT
unfoldable pub is_target : QueueDb → RouteDraft → RoleQueue → Bool
unfolding not_distinct has_role_key any_of
is_target db d q =
    (q.project_id == d.project_id)
    && (q.role_id == d.target_role_id)
    && not_distinct q.capability d.capability
    && not q.paused
    && any_of (λ r. has_role_key q.project_id q.role_id r && (r.status == "active")) db.roles

-- the row that the INSERT writes, with the defaults of the table
unfoldable pub routed_row : RouteEnv → RouteDraft → String → QueueItem
unfolding fingerprint route_item_id
routed_row env d queue = record {
  project_id = d.project_id;
  queue_item_id = route_item_id env d.project_id d.idempotency_key;
  queue_id = queue;
  work_item_id = d.work_item_id;
  status = ready;
  priority = d.priority;
  attempt_count = 0;
  available_at = elim d.available_at [ none ↦ env.now | some t ↦ t ];
  payload = d.payload;
  idempotency_key = d.idempotency_key;
  route_fingerprint = some (fingerprint env d);
  created_at = env.now;
  updated_at = env.now;
}

abbrev pub from_database {ℓ} : {A : Type ℓ} → Queued A → Routed A
from_database (ok a) = ok a
from_database (err e) = err (raised e)

-- route_in_transaction where no row exists
unfoldable pub route_new : QueueDb → RouteEnv → RouteDraft → Routed (QueueDb × QueueItem)
unfolding has_pair find_if is_target routed_row insert_item
route_new db env d = do
  guard (has_pair d.project_id d.work_item_id db.work_items)
      (route_not_found "project work item not found")
  q ←
      or_raise (find_if (is_target db d) db.queues)
        (route_not_found "active role capability target not found")
  db' ← from_database (insert_item db (routed_row env d q.queue_id))
  ok (db', routed_row env d q.queue_id)

-- route_in_transaction
unfoldable pub route_in_transaction : QueueDb → RouteEnv → RouteDraft → Routed (QueueDb × QueueItem)
unfolding fingerprint existing_route route_new
route_in_transaction db env d = do
  found ← existing_route db d (fingerprint env d)
  elim found [ none ↦ route_new db env d | some i ↦ ok (db, i) ]

-- the `except` clauses of route
unfoldable pub as_routing {ℓ} : {A : Type ℓ} → Routed A → Routed A
as_routing (err (raised (not_found _))) = err (route_not_found "route target not found in project")
as_routing (err (raised (conflict _))) = err (route_conflict "route idempotency conflict")
as_routing (err (raised _)) = err route_error
as_routing r = r

-- Router.route
unfoldable pub route : QueueDb → RouteEnv → RouteDraft → Routed (QueueDb × QueueItem)
unfolding as_routing route_in_transaction
route db env d = as_routing (route_in_transaction db env d)

-- ===== src/Queue/Store/Rows.antt =====
-- queues.py, RoleQueueStore.create_queue, enqueue and get_item.
use agentic_mesh.Prelude.{
  ℕ, String, Bool, false, Option, none, some, List, ◌∷◌, ◌==◌, ◌&&◌, ◌||◌, not, any_of, find_if, ok,
  ◌>>=◌, ◌>>◌, guard, or_raise,
}
use agentic_mesh.Prelude.Json.{Fields}
use agentic_mesh.Prelude.Int.{ℤ, fits_int4}
use agentic_mesh.Queue.{
  not_found, conflict, database_error, ready, QueueItem, Role, RoleQueue, QueueDb, Queued, required,
  optional_capability, has_item_key, has_queue_key,
}

-- a pair of keys in a list of pairs, for the foreign keys
unfoldable pub has_pair : String → String → List (String × String) → Bool
unfolding any_of
has_pair a b pairs = any_of (λ (x, y). (x == a) && (y == b)) pairs

unfoldable pub has_role_key : String → String → Role → Bool
has_role_key project role r = (r.project_id == project) && (r.role_id == role)

-- COALESCE(capability, '')
abbrev pub target_capability : Option String → String
target_capability none = ""
target_capability (some c) = c

-- the columns of the unique index role_queues_target_key
unfoldable pub has_target : String → String → Option String → RoleQueue → Bool
has_target project role capability q =
    (q.project_id == project)
    && (q.role_id == role)
    && (target_capability q.capability == target_capability capability)

-- create_queue
unfoldable pub create_queue : QueueDb → String → String → String → Option String → Queued QueueDb
unfolding required optional_capability has_queue_key has_target has_role_key any_of
create_queue db project queue role capability = do
  project_id ← required project "project_id"
  queue_id ← required queue "queue_id"
  role_id ← required role "role_id"
  cap ← optional_capability capability
  guard (not (any_of (has_queue_key project_id queue_id) db.queues))
      (conflict "queue already exists")
  guard (not (any_of (has_target project_id role_id cap) db.queues))
      (conflict "queue already exists")
  guard (any_of (has_role_key project_id role_id) db.roles) (not_found "project role not found")
  ok (record db {
    queues =
        record {
          project_id = project_id;
          queue_id = queue_id;
          role_id = role_id;
          capability = cap;
          paused = false;
        }
        ∷ db.queues;
  })

-- get_item
unfoldable pub get_item : QueueDb → String → String → Queued QueueItem
unfolding required find_if has_item_key
get_item db project item = do
  project_id ← required project "project_id"
  queue_item_id ← required item "queue_item_id"
  or_raise (find_if (has_item_key project_id queue_item_id) db.items)
      (not_found "queue item not found")

-- the primary key and the unique idempotency key of queue_items
unfoldable pub item_collides : QueueItem → QueueItem → Bool
unfolding has_item_key
item_collides i j =
    has_item_key i.project_id i.queue_item_id j
    || ((j.project_id == i.project_id) && (j.idempotency_key == i.idempotency_key))

-- the INSERT of enqueue, in the order in which Postgres checks its constraints
unfoldable pub insert_item : QueueDb → QueueItem → Queued QueueDb
unfolding item_collides has_queue_key has_pair any_of
insert_item db i = do
  guard (fits_int4 i.priority) (database_error "integer out of range")
  guard (not (any_of (item_collides i) db.items))
      (conflict "queue item or idempotency key already exists")
  guard
      (any_of (has_queue_key i.project_id i.queue_id) db.queues
        && has_pair i.project_id i.work_item_id db.work_items)
      (not_found "queue or work item not found in project")
  ok (record db { items = i ∷ db.items })

-- enqueue; `now` is the clock at the INSERT
unfoldable pub enqueue :
    QueueDb
    → ℕ
    → String
    → String
    → String
    → String
    → String
    → Fields
    → ℤ
    → Option ℕ
    → Queued (QueueDb × Queued QueueItem)
unfolding required insert_item get_item
enqueue db now project queue item work key payload priority available = do
  project_id ← required project "project_id"
  queue_id ← required queue "queue_id"
  queue_item_id ← required item "queue_item_id"
  work_item_id ← required work "work_item_id"
  idempotency_key ← required key "idempotency_key"
  db' ← insert_item db (record {
    project_id = project_id;
    queue_item_id = queue_item_id;
    queue_id = queue_id;
    work_item_id = work_item_id;
    status = ready;
    priority = priority;
    attempt_count = 0;
    available_at = elim available [ none ↦ now | some t ↦ t ];
    payload = payload;
    idempotency_key = idempotency_key;
    route_fingerprint = none;
    created_at = now;
    updated_at = now;
  })
  ok (db', get_item db' project_id queue_item_id)

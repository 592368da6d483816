-- ===== src/Queue/Store/Claim.antt =====
-- queues.py, RoleQueueStore.claim.
use agentic_mesh.Prelude.{
  ℕ, ◌+◌, ◌*◌, String, Bool, Option, none, some, ◌∷◌, ◌==◌, ◌&&◌, ◌||◌, not, ltb, leb, eqb, is_none,
  any_of, find_if, keep_if, update_if, ok, ◌>>=◌, ◌>>◌, guard, or_raise,
}
use agentic_mesh.Prelude.Int.{ℤ, ltb_ℤ}
use agentic_mesh.Prelude.Sorting.{first_row}
use agentic_mesh.Queue.{
  not_found, conflict, unauthorized, database_error, leased, is_ready, QueueItem, Lease, QueueDb,
  LeaseClaim, Queued, required, validate_lease_seconds, second, has_item_key, has_lease_key,
  has_queue_key,
}
use agentic_mesh.Queue.Store.Reclaim.{reclaim_expired}

-- What the environment gives to one claim: the clock at its statements, the fresh identifiers of
-- `uuid4`, the rows that other transactions have locked, and the collation of the database.
pub record ClaimEnv : Type 0 where
  pub reclaim_time : ℕ
  pub select_time : ℕ
  pub lease_time : ℕ
  pub update_time : ℕ
  pub new_lease_id : String
  pub new_token : String
  pub is_locked : QueueItem → Bool
  pub text_lt : String → String → Bool

-- ORDER BY priority DESC, available_at, created_at, queue_item_id: does `a` come before `b`?
unfoldable pub precedes : (String → String → Bool) → QueueItem → QueueItem → Bool
precedes text_lt a b =
    ltb_ℤ b.priority a.priority
    || (not (ltb_ℤ a.priority b.priority)
        && (ltb a.available_at b.available_at
            || (eqb a.available_at b.available_at
                && (ltb a.created_at b.created_at
                    || (eqb a.created_at b.created_at
                        && text_lt a.queue_item_id b.queue_item_id)))))

-- the WHERE clause of the SELECT in claim, with SKIP LOCKED
unfoldable pub is_claimable : ClaimEnv → String → String → QueueItem → Bool
is_claimable env project queue i =
    (i.project_id == project)
    && (i.queue_id == queue)
    && is_ready i.status
    && leb i.available_at env.select_time
    && not (env.is_locked i)

-- an unreleased lease of one item
unfoldable pub is_active_for : String → String → Lease → Bool
is_active_for project item l =
    (l.project_id == project) && (l.queue_item_id == item) && is_none l.released

-- the primary key, the unique token and the index leases_one_active_per_item_idx
unfoldable pub lease_collides : Lease → Lease → Bool
unfolding has_lease_key is_active_for
lease_collides l m =
    has_lease_key l.project_id l.lease_id m
    || (m.lease_token == l.lease_token)
    || is_active_for l.project_id l.queue_item_id m

-- the INSERT of claim, of an unreleased lease
unfoldable pub insert_lease : QueueDb → Lease → Queued QueueDb
unfolding lease_collides any_of
insert_lease db l = do
  guard (not (any_of (lease_collides l) db.leases)) (database_error "unique violation")
  ok (record db { leases = l ∷ db.leases })

-- the UPDATE of claim
unfoldable pub take_item : ℕ → QueueItem → QueueItem
take_item now i = record i {
  status = leased;
  attempt_count = i.attempt_count + 1;
  updated_at = now;
}

-- the lease that a claim inserts
abbrev pub new_lease : ClaimEnv → String → String → ℕ → QueueItem → Lease
new_lease env project owner seconds i = record {
  project_id = project;
  lease_id = env.new_lease_id;
  queue_item_id = i.queue_item_id;
  owner_instance_id = owner;
  lease_token = env.new_token;
  acquired_at = env.lease_time;
  heartbeat_at = env.lease_time;
  expires_at = env.lease_time + seconds * second;
  released = none;
}

-- the LeaseClaim that a claim returns
abbrev pub new_claim : ClaimEnv → String → String → ℕ → QueueItem → LeaseClaim
new_claim env project owner seconds i = record {
  project_id = project;
  lease_id = env.new_lease_id;
  lease_token = env.new_token;
  queue_item = take_item env.update_time i;
  owner_instance_id = owner;
  acquired_at = env.lease_time;
  heartbeat_at = env.lease_time;
  expires_at = env.lease_time + seconds * second;
}

-- claim from the selected row on
unfoldable pub lease_row :
    QueueDb → ClaimEnv → String → String → ℕ → QueueItem → Queued (QueueDb × Option LeaseClaim)
unfolding insert_lease take_item has_item_key update_if
lease_row db env project owner seconds i = do
  db' ← insert_lease db (new_lease env project owner seconds i)
  guard (leb (i.attempt_count + 1) 2147483647) (database_error "integer out of range")
  ok (
    record db' {
      items =
          update_if (has_item_key project i.queue_item_id) (take_item env.update_time) db'.items;
    },
    some (new_claim env project owner seconds i),
  )

-- the JOIN of claim and the checks on it
unfoldable pub check_binding : QueueDb → String → String → String → Queued (Unit {0})
unfolding has_queue_key find_if
check_binding db project queue owner = do
  q ←
      or_raise (find_if (has_queue_key project queue) db.queues)
        (not_found "queue or role instance not found")
  i ←
      or_raise (find_if (λ x. (x.project_id == project) && (x.instance_id == owner)) db.instances)
        (not_found "queue or role instance not found")
  guard (not q.paused) (conflict "queue is paused")
  guard ((q.role_id == i.role_id) && (i.status == "running"))
      (unauthorized "role instance cannot claim this role queue")

-- the SELECT of claim
unfoldable pub select_row : QueueDb → ClaimEnv → String → String → Option QueueItem
unfolding first_row precedes is_claimable keep_if
select_row db env project queue =
    first_row (precedes env.text_lt) (keep_if (is_claimable env project queue) db.items)

-- the end of claim: nothing to claim, or the lease of the selected row
unfoldable pub lease_selected :
    QueueDb
    → ClaimEnv
    → String
    → String
    → ℕ
    → Option QueueItem
    → Queued (QueueDb × Option LeaseClaim)
unfolding lease_row
lease_selected db env project owner seconds none = ok (db, none)
lease_selected db env project owner seconds (some i) = lease_row db env project owner seconds i

-- claim, with normalised arguments
unfoldable pub claim_row :
    QueueDb → ClaimEnv → String → String → String → ℕ → Queued (QueueDb × Option LeaseClaim)
unfolding check_binding reclaim_expired select_row lease_selected
claim_row db env project queue owner seconds = do
  check_binding db project queue owner
  let swept = reclaim_expired db env.reclaim_time project
  lease_selected swept env project owner seconds (select_row swept env project queue)

-- claim
unfoldable pub claim :
    QueueDb → ClaimEnv → String → String → String → ℤ → Queued (QueueDb × Option LeaseClaim)
unfolding required validate_lease_seconds claim_row
claim db env project queue owner lease_seconds = do
  project_id ← required project "project_id"
  queue_id ← required queue "queue_id"
  owner_instance_id ← required owner "owner_instance_id"
  seconds ← validate_lease_seconds lease_seconds
  claim_row db env project_id queue_id owner_instance_id seconds

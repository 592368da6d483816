-- ===== src/Queue/Store/Finish.antt =====
-- queues.py, RoleQueueStore.heartbeat, complete, release and _finish_lease.
use agentic_mesh.Prelude.{
  ℕ, ◌+◌, ◌*◌, String, Bool, true, false, ◌==◌, ◌&&◌, not, leb, is_none, any_of, find_if, update_if,
  ok, ◌>>=◌, ◌>>◌, guard, or_raise,
}
use agentic_mesh.Prelude.Int.{ℤ}
use agentic_mesh.Queue.{
  conflict, unauthorized, lease_expired, ItemStatus, ready, completed, QueueItem, Lease, Handoff,
  QueueDb, Queued, required, validate_lease_seconds, second, has_item_key, has_lease_key,
}
use agentic_mesh.Queue.Store.Rows.{get_item}
use agentic_mesh.Queue.Store.Reclaim.{release_lease, set_status}

-- _lock_active_lease: the row, whose column queue_item_id is read
unfoldable pub lock_active_lease : QueueDb → String → String → String → Queued Lease
unfolding find_if has_lease_key
lock_active_lease db project lease token =
    or_raise
      (find_if
        (λ l. has_lease_key project lease l && (l.lease_token == token) && is_none l.released)
        db.leases)
      (unauthorized "active lease token is invalid")

-- the UPDATE of heartbeat
unfoldable pub extend_lease : ℕ → ℕ → Lease → Lease
extend_lease now seconds l = record l { heartbeat_at = now; expires_at = now + seconds * second }

-- heartbeat; `checked` is the clock at the SELECT and `now` at the UPDATE
unfoldable pub heartbeat : QueueDb → ℕ → ℕ → String → String → String → ℤ → Queued (QueueDb × ℕ)
unfolding required validate_lease_seconds lock_active_lease extend_lease has_lease_key update_if
heartbeat db checked now project lease token lease_seconds = do
  project_id ← required project "project_id"
  lease_id ← required lease "lease_id"
  lease_token ← required token "lease_token"
  seconds ← validate_lease_seconds lease_seconds
  l ← lock_active_lease db project_id lease_id lease_token
  guard (not (leb l.expires_at checked)) lease_expired
  ok (
    record db {
      leases = update_if (has_lease_key project_id lease_id) (extend_lease now seconds) db.leases;
    },
    now + seconds * second,
  )

-- a handoff of the item that is not accepted yet
unfoldable pub is_pending_handoff : String → String → Handoff → Bool
is_pending_handoff project item h =
    (h.project_id == project) && (h.source_queue_item_id == item) && not (h.status == "accepted")

-- the two UPDATEs of _finish_lease
unfoldable pub finish_rows : QueueDb → ℕ → String → String → String → ItemStatus → String → QueueDb
unfolding has_lease_key release_lease has_item_key set_status update_if
finish_rows db now project lease item status reason = record db {
  leases = update_if (has_lease_key project lease) (release_lease now reason) db.leases;
  items = update_if (has_item_key project item) (set_status status now) db.items;
}

abbrev pub is_completed : ItemStatus → Bool
is_completed completed = true
is_completed _ = false

-- the transaction of _finish_lease; `checked` is the clock at the SELECT and `now` at the UPDATEs
unfoldable pub finish_row :
    QueueDb → ℕ → ℕ → String → String → String → ItemStatus → String → Queued (QueueDb × String)
unfolding lock_active_lease is_pending_handoff any_of finish_rows
finish_row db checked now project lease token status reason = do
  l ← lock_active_lease db project lease token
  guard (not (leb l.expires_at checked)) lease_expired
  guard
      (not (is_completed status && any_of (is_pending_handoff project l.queue_item_id) db.handoffs))
      (conflict "source work cannot complete before handoff acceptance")
  ok (finish_rows db now project lease l.queue_item_id status reason, l.queue_item_id)

-- _finish_lease
unfoldable pub finish_lease :
    QueueDb
    → ℕ
    → ℕ
    → String
    → String
    → String
    → ItemStatus
    → String
    → Queued (QueueDb × Queued QueueItem)
unfolding required finish_row get_item
finish_lease db checked now project lease token status reason = do
  project_id ← required project "project_id"
  lease_id ← required lease "lease_id"
  lease_token ← required token "lease_token"
  finished ← finish_row db checked now project_id lease_id lease_token status reason
  ok (finished.0, get_item finished.0 project_id finished.1)

-- complete
unfoldable pub complete :
    QueueDb → ℕ → ℕ → String → String → String → Queued (QueueDb × Queued QueueItem)
unfolding finish_lease
complete db checked now project lease token =
    finish_lease db checked now project lease token completed "completed"

-- release
unfoldable pub release :
    QueueDb → ℕ → ℕ → String → String → String → Queued (QueueDb × Queued QueueItem)
unfolding finish_lease
release db checked now project lease token =
    finish_lease db checked now project lease token ready "released"

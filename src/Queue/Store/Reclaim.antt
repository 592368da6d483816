-- ===== src/Queue/Store/Reclaim.antt =====
-- queues.py, RoleQueueStore._reclaim_expired.
use agentic_mesh.Prelude.{ℕ, String, Bool, some, List, ◌==◌, ◌&&◌, leb, is_none, any_of, update_if}
use agentic_mesh.Queue.{ItemStatus, ready, is_leased, QueueItem, Lease, QueueDb}

-- an unreleased lease whose time is over
unfoldable pub is_expired : String → ℕ → Lease → Bool
is_expired project now l = (l.project_id == project) && is_none l.released && leb l.expires_at now

unfoldable pub release_lease : ℕ → String → Lease → Lease
release_lease now reason l = record l {
  released = some (record { released_at = now; released_reason = reason });
}

-- the items that the second part of _reclaim_expired updates: leased, with an expired lease
unfoldable pub is_reclaimed : String → ℕ → List Lease → QueueItem → Bool
unfolding is_expired any_of
is_reclaimed project now leases i =
    (i.project_id == project)
    && is_leased i.status
    && any_of (λ l. is_expired project now l && (l.queue_item_id == i.queue_item_id)) leases

unfoldable pub set_status : ItemStatus → ℕ → QueueItem → QueueItem
set_status status now i = record i { status = status; updated_at = now }

-- _reclaim_expired
unfoldable pub reclaim_expired : QueueDb → ℕ → String → QueueDb
unfolding is_expired release_lease is_reclaimed set_status update_if
reclaim_expired db now project = record db {
  leases = update_if (is_expired project now) (release_lease now "expired") db.leases;
  items = update_if (is_reclaimed project now db.leases) (set_status ready now) db.items;
}

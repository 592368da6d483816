-- ===== src/Queue/Store.antt =====
-- queues.py, class RoleQueueStore. Each operation is one transaction on the tables: it returns the
-- tables that it commits, or raises and commits nothing. SQL conditions are tests on rows, and each
-- constraint of the tables that a statement can violate is checked where the statement runs.
-- `clock_timestamp()` is read once in each statement. `get_item` after a commit has its own
-- connection, so its outcome comes beside the tables that are committed by then.
pub mod Rows
pub mod Reclaim
pub mod Claim
pub mod Finish
pub mod Metrics
unfoldable pub use agentic_mesh.Queue.Store.Rows.{
  has_pair, has_role_key, target_capability, has_target, create_queue, get_item, item_collides,
  insert_item, enqueue,
}
unfoldable pub use agentic_mesh.Queue.Store.Reclaim.{
  is_expired, release_lease, is_reclaimed, set_status, reclaim_expired,
}
pub use agentic_mesh.Queue.Store.Claim.{ClaimEnv}
unfoldable pub use agentic_mesh.Queue.Store.Claim.{
  precedes, is_claimable, is_active_for, lease_collides, insert_lease, take_item, new_lease,
  new_claim, lease_row, check_binding, select_row, lease_selected, claim_row, claim,
}
unfoldable pub use agentic_mesh.Queue.Store.Finish.{
  lock_active_lease, extend_lease, heartbeat, is_pending_handoff, finish_rows, is_completed,
  finish_row, finish_lease, complete, release,
}
unfoldable pub use agentic_mesh.Queue.Store.Metrics.{oldest, age_of, sum_attempts, metrics}

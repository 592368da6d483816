-- ===== src/Queue/Finishing.antt =====
-- What the UPDATEs of a completion change, in the tables of leases and items.
use agentic_mesh.Prelude.{
  ℕ, String, true, false, none, some, ◌≡◌, refl, arith, eq_iff, ◌==◌, ◌&&◌, find_if,
}
use agentic_mesh.Prelude.Updates.{find_if-update_own, find_if-update_other}
use agentic_mesh.Queue.{completed, QueueItem, Lease, QueueDb, has_item_key, has_lease_key}
use agentic_mesh.Queue.Store.{finish_rows, release_lease, set_status}

-- The completion of one item and one lease: the lease that the key finds is released at the time of
-- the completion, for the reason that it completed; the item that the key finds is completed then;
-- every other lease and item is the same, and so are the other tables.
pub record Completes (before after : QueueDb) (now : ℕ) (project lease item : String) : Type 0 where
  pub held : Lease
  pub held_before : find_if (has_lease_key project lease) before.leases ≡ some held
  pub was_active : held.released ≡ none
  pub held_after :
      find_if (has_lease_key project lease) after.leases
      ≡ some (record held {
        released = some (record { released_at = now; released_reason = "completed" });
      })
  pub worked : QueueItem
  pub worked_before : find_if (has_item_key project item) before.items ≡ some worked
  pub worked_after :
      find_if (has_item_key project item) after.items
      ≡ some (record worked { status = completed; updated_at = now })
  pub leases_kept :
      (p l : String)
      → ((p == project) && (l == lease)) ≡ false
      → find_if (has_lease_key p l) after.leases ≡ find_if (has_lease_key p l) before.leases
  pub items_kept :
      (p i : String)
      → ((p == project) && (i == item)) ≡ false
      → find_if (has_item_key p i) after.items ≡ find_if (has_item_key p i) before.items
  pub rest_kept : after ≡ record before { leases = after.leases; items = after.items }

lease_away :
    (p l q m : String) (x : Lease)
    → ((p == q) && (l == m)) ≡ false
    → has_lease_key p l x ≡ true
    → has_lease_key q m x ≡ false
unfolding has_lease_key
lease_away p l q m x away own = ground (
  arith,
  eq_iff x.project_id p,
  eq_iff x.project_id q,
  eq_iff p q,
  eq_iff x.lease_id l,
  eq_iff x.lease_id m,
  eq_iff l m,
)

item_away :
    (p l q m : String) (x : QueueItem)
    → ((p == q) && (l == m)) ≡ false
    → has_item_key p l x ≡ true
    → has_item_key q m x ≡ false
unfolding has_item_key
item_away p l q m x away own = ground (
  arith,
  eq_iff x.project_id p,
  eq_iff x.project_id q,
  eq_iff p q,
  eq_iff x.queue_item_id l,
  eq_iff x.queue_item_id m,
  eq_iff l m,
)

pub finish_rows-Completes :
    (db : QueueDb) (now : ℕ) (project lease item : String) (l : Lease) (i : QueueItem)
    → find_if (has_lease_key project lease) db.leases ≡ some l
    → l.released ≡ none
    → find_if (has_item_key project item) db.items ≡ some i
    → Completes db
        (finish_rows db now project lease item completed "completed")
        now
        project
        lease
        item
unfolding finish_rows release_lease set_status
finish_rows-Completes db now project lease item l i found free worked =
    let lease_same : (p k : String) (x : Lease)
        → has_lease_key p k (release_lease now "completed" x) ≡ has_lease_key p k x =
      λ p k x. unfold has_lease_key release_lease in refl in
    let item_same : (p k : String) (x : QueueItem)
        → has_item_key p k (set_status completed now x) ≡ has_item_key p k x =
      λ p k x. unfold has_item_key set_status in refl in
    record {
      held = l;
      held_before = found;
      was_active = free;
      held_after =
          find_if-update_own (has_lease_key project lease) (release_lease now "completed") db.leases
            l (lease_same project lease) found;
      worked = i;
      worked_before = worked;
      worked_after =
          find_if-update_own (has_item_key project item) (set_status completed now) db.items i
            (item_same project item) worked;
      leases_kept = λ p k away.
          find_if-update_other (has_lease_key p k) (has_lease_key project lease)
            (release_lease now "completed") db.leases (lease_same p k)
            (λ x. lease_away p k project lease x away);
      items_kept = λ p k away.
          find_if-update_other (has_item_key p k) (has_item_key project item)
            (set_status completed now) db.items (item_same p k)
            (λ x. item_away p k project item x away);
      rest_kept = refl;
    }

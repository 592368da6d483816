-- ===== src/Routing/Delivery.antt =====
-- Where a route puts its item.
use agentic_mesh.Prelude.{
  true, false, ◌∷◌, ◌≡◌, sym, ◌⊎◌, inl, inr, subst, any_of, ok, Any, find_if-Any, find_if-true,
}
use agentic_mesh.Queue.{RoleQueue, QueueItem, QueueDb}
use agentic_mesh.Queue.Store.{item_collides, insert_item}
use agentic_mesh.Queue.Preservation.{insert_item-ok}
use agentic_mesh.Routing.{RouteDraft, RouteEnv, is_existing, is_target, routed_row, route}
use agentic_mesh.Routing.Idempotence.{route_new-ok, route-cases, route-transaction}

pub route-delivers :
    (db : QueueDb) (env : RouteEnv) (d : RouteDraft) (db' : QueueDb) (i : QueueItem)
    → route db env d ≡ ok (db', i)
    → ((db' ≡ db)
        × Any (λ x. x ≡ i) db.items
        × (is_existing db d.project_id d.idempotency_key i ≡ true))
      ⊎ ((q : RoleQueue) × Any (λ x. x ≡ q) db.queues
          × (is_target db d q ≡ true)
          × (i ≡ routed_row env d q.queue_id)
          × (any_of (item_collides i) db.items ≡ false)
          × (db' ≡ record db { items = i ∷ db.items }))
route-delivers db env d db' i h =
    elim (route-cases db env d db' i (route-transaction db env d (db', i) h)) [
      | inl (same, found, _) ↦
          let test = is_existing db d.project_id d.idempotency_key in
          inl (same, find_if-Any test db.items i found, find_if-true test db.items i found)
      | inr (_, new) ↦
          let (q, _, found, inserted, row) = route_new-ok db env d db' i new in
          let (fresh, eq) =
            insert_item-ok db i db' (subst (λ x. insert_item db x ≡ ok db') (sym row) inserted) in
          inr (
            q,
            find_if-Any (is_target db d) db.queues q found,
            find_if-true (is_target db d) db.queues q found,
            row,
            fresh,
            eq,
          )
    ]

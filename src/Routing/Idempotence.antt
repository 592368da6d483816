-- ===== src/Routing/Idempotence.antt =====
-- What a successful route leaves behind, and what a second route with its key gets.
use agentic_mesh.Prelude.{
  String, true, Option, none, some, List, ◌∷◌, ◌≡◌, refl, sym, ◌⊎◌, inl, inr, ◌==◌, if◌then◌else◌,
  arith, eq_iff, any_of, find_if, ok, err, guard, or_raise, >>-then, >>=-then, ok-injective,
  Option-cases, Bool-cases, guard-ok, or_raise-ok, subst, ap,
}
use agentic_mesh.Queue.{RoleQueue, QueueItem, QueueDb, Queued, has_queue_key}
use agentic_mesh.Queue.Store.{has_pair, insert_item}
use agentic_mesh.Queue.Preservation.{insert_item-ok}
use agentic_mesh.Routing.{
  route_not_found, route_conflict, Routed, RouteDraft, RouteEnv, fingerprint, same_text,
  is_existing, accept_existing, existing_route, is_target, routed_row, from_database, route_new,
  route_in_transaction, as_routing, route,
}

insert_item-queue :
    (db : QueueDb) (i : QueueItem) (db' : QueueDb)
    → insert_item db i ≡ ok db'
    → any_of (has_queue_key i.project_id i.queue_id) db.queues ≡ true
unfolding insert_item
insert_item-queue db i db' h = ground arith

accept_existing-none :
    (wanted : String) (o : Option QueueItem) → accept_existing wanted o ≡ ok none → o ≡ none
unfolding accept_existing
accept_existing-none wanted none h = refl
accept_existing-none wanted (some i) h = ground arith

accept_existing-some :
    (wanted : String) (o : Option QueueItem) (i : QueueItem)
    → accept_existing wanted o ≡ ok (some i)
    → (o ≡ some i) × (same_text i.route_fingerprint wanted ≡ true)
unfolding accept_existing
accept_existing-some wanted none i h = ground arith
accept_existing-some wanted (some j) i h = ground arith

same_text-true : (o : Option String) (t : String) → same_text o t ≡ true → o ≡ some t
unfolding same_text
same_text-true none t h = ground arith
same_text-true (some s) t h = ground (arith, eq_iff s t)

from_database-ok : (r : Queued QueueDb) (db : QueueDb) → from_database r ≡ ok db → r ≡ ok db
from_database-ok (ok a) db h = rw (ok-injective h)
from_database-ok (err e) db h = ground arith

-- A row that `route_new` returns is the row of the draft in the queue of a target.
pub route_new-ok :
    (db : QueueDb) (env : RouteEnv) (d : RouteDraft) (db' : QueueDb) (i : QueueItem)
    → route_new db env d ≡ ok (db', i)
    → (q : RoleQueue) × (has_pair d.project_id d.work_item_id db.work_items ≡ true)
      × (find_if (is_target db d) db.queues ≡ some q)
      × (insert_item db (routed_row env d q.queue_id) ≡ ok db')
      × (i ≡ routed_row env d q.queue_id)
unfolding route_new
route_new-ok db env d db' i h =
    >>-then
      (guard (has_pair d.project_id d.work_item_id db.work_items)
        (route_not_found "project work item not found"))
      _ h
      λ known h₁.
        >>=-then
          (or_raise (find_if (is_target db d) db.queues)
            (route_not_found "active role capability target not found"))
          _ h₁
          λ q hq h₂.
            let row = routed_row env d q.queue_id in
            >>=-then (from_database (insert_item db row)) _ h₂ λ db₁ hd h₃.
              let same : db₁ ≡ db' = ground arith in
              (
                q,
                guard-ok _ _ known,
                or_raise-ok _ _ hq,
                subst (λ x. insert_item db row ≡ ok x) same (from_database-ok _ _ hd),
                ground arith,
              )

pub route-cases :
    (db : QueueDb) (env : RouteEnv) (d : RouteDraft) (db' : QueueDb) (i : QueueItem)
    → route_in_transaction db env d ≡ ok (db', i)
    → ((db' ≡ db)
        × (find_if (is_existing db d.project_id d.idempotency_key) db.items ≡ some i)
        × (same_text i.route_fingerprint (fingerprint env d) ≡ true))
      ⊎ ((find_if (is_existing db d.project_id d.idempotency_key) db.items ≡ none)
          × (route_new db env d ≡ ok (db', i)))
unfolding route_in_transaction existing_route
route-cases db env d db' i h =
    let wanted = fingerprint env d in
    let rows = find_if (is_existing db d.project_id d.idempotency_key) db.items in
    >>=-then (accept_existing wanted rows) _ h λ found hf h₁. elim (Option-cases found) [
      | inl e ↦ inr (accept_existing-none wanted rows (rw e at hf), rw e at h₁)
      | inr (j, e) ↦
          let same : ok (db, j) ≡ ok (db', i) = rw e at h₁ in
          let old : j ≡ i = ap (λ x. x.1) (ok-injective same) in
          let kept : db ≡ db' = ap (λ x. x.0) (ok-injective same) in
          let accepted : accept_existing wanted rows ≡ ok (some i) = rw (← old, ← e) hf in
          let (f, s) = accept_existing-some wanted rows i accepted in inl (sym kept, f, s)
    ]

row_found :
    (db : QueueDb) (env : RouteEnv) (d : RouteDraft) (queue : String) (rows : List QueueItem)
    → any_of (has_queue_key d.project_id queue) db.queues ≡ true
    → find_if (is_existing db d.project_id d.idempotency_key) (routed_row env d queue ∷ rows)
      ≡ some (routed_row env d queue)
unfolding is_existing find_if routed_row
row_found db env d queue rows known = rw (
  (eq_iff d.project_id d.project_id).1 refl,
  (eq_iff d.idempotency_key d.idempotency_key).1 refl,
  known,
)

-- The row that a route has returned is in the tables, with the fingerprint of the draft.
pub route-found :
    (db : QueueDb) (env : RouteEnv) (d : RouteDraft) (db' : QueueDb) (i : QueueItem)
    → route_in_transaction db env d ≡ ok (db', i)
    → (find_if (is_existing db' d.project_id d.idempotency_key) db'.items ≡ some i)
      × (i.route_fingerprint ≡ some (fingerprint env d))
unfolding is_existing routed_row
route-found db env d db' i h = elim (route-cases db env d db' i h) [
  | inl (same, f, s) ↦ (rw same f, same_text-true _ _ s)
  | inr (_, new) ↦
      let (q, _, _, inserted, row) = route_new-ok db env d db' i new in
      let known = insert_item-queue db (routed_row env d q.queue_id) db' inserted in
      let (_, eq) = insert_item-ok db (routed_row env d q.queue_id) db' inserted in
      (
        subst
            (λ (x : QueueDb).
              find_if (is_existing x d.project_id d.idempotency_key) x.items ≡ some i)
            (sym eq)
            (subst
              (λ (x : QueueItem).
                find_if (is_existing db d.project_id d.idempotency_key)
                  (routed_row env d q.queue_id ∷ db.items)
                ≡ some x)
              (sym row) (row_found db env d q.queue_id db.items known)),
        ap (λ x. x.route_fingerprint) row,
      )
]

as_routing-ok :
    (r : Routed (QueueDb × QueueItem)) (a : QueueDb × QueueItem) → as_routing r ≡ ok a → r ≡ ok a
unfolding as_routing
as_routing-ok (ok b) a h = h
as_routing-ok (err e) a h = ground arith

pub route-transaction :
    (db : QueueDb) (env : RouteEnv) (d : RouteDraft) (a : QueueDb × QueueItem)
    → route db env d ≡ ok a
    → route_in_transaction db env d ≡ ok a
unfolding route
route-transaction db env d a h = as_routing-ok (route_in_transaction db env d) a h

rerouted :
    (db : QueueDb) (again : RouteEnv) (e : RouteDraft) (i : QueueItem) (old : String)
    → find_if (is_existing db e.project_id e.idempotency_key) db.items ≡ some i
    → i.route_fingerprint ≡ some old
    → route db again e ≡ (
        if old == fingerprint again e
        then ok (db, i)
        else err (route_conflict "idempotency key is already used by different work"))
unfolding route route_in_transaction existing_route accept_existing same_text as_routing
rerouted db again e i old found written =
    let wanted = fingerprint again e in
    let test : same_text i.route_fingerprint wanted ≡ (old == wanted) = rw written refl in
    elim (Bool-cases (old == wanted)) [ inl t ↦ rw (found, test, t) | inr f ↦ rw (found, test, f) ]

-- After a successful route, a route with the same project and key, at any time, is decided by its
-- fingerprint alone: with the same it returns the same row and changes nothing, and with another it
-- is refused as a conflict.
pub route-decided :
    (db : QueueDb) (env : RouteEnv) (d : RouteDraft) (db' : QueueDb) (i : QueueItem)
    (again : RouteEnv) (e : RouteDraft)
    → route db env d ≡ ok (db', i)
    → e.project_id ≡ d.project_id
    → e.idempotency_key ≡ d.idempotency_key
    → route db' again e ≡ (
        if fingerprint env d == fingerprint again e
        then ok (db', i)
        else err (route_conflict "idempotency key is already used by different work"))
route-decided db env d db' i again e h project key =
    let (found, written) = route-found db env d db' i (route-transaction db env d (db', i) h) in
    rerouted db' again e i (fingerprint env d)
      (subst (λ (k : String). find_if (is_existing db' e.project_id k) db'.items ≡ some i) (sym key)
        (subst (λ (p : String). find_if (is_existing db' p d.idempotency_key) db'.items ≡ some i)
          (sym project) found))
      written

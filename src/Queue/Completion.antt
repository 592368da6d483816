-- ===== src/Queue/Completion.antt =====
-- Completed items over histories of operations.
use agentic_mesh.Prelude.{
  ℕ, ◌≤◌, String, Bool, true, false, Option, none, List, [], ◌∷◌, ◌≡◌, refl, ◌&&◌, arith, eq_iff,
  is_none, any_of, count_if, update_if, Any, inl, inr, Bool-cases, Option-cases, count_if-of_false,
  count_if-of_none, count_if-update_le, count_if_unique, sym, subst, count_if-pos, any_of-Any,
  &&-true, ok-injective, ok, ap,
}
use agentic_mesh.Prelude.Int.{ℤ}
use agentic_mesh.Queue.{
  ItemStatus, ready, completed, is_leased, QueueItem, Lease, QueueDb, LeaseClaim, Queued,
  has_item_key, has_lease_key,
}
use agentic_mesh.Queue.Store.{
  is_reclaimed, set_status, reclaim_expired, is_active_for, ClaimEnv, is_claimable, take_item,
  select_row, lease_selected, enqueue, claim, heartbeat, finish_rows, finish_lease, complete,
  release, create_queue, is_completed,
}
use agentic_mesh.Queue.Consistency.{
  is_leased_item, IsConsistent, reclaim_expired-IsConsistent, lock_active_lease-found,
}
use agentic_mesh.Queue.Preservation.{select_row-claimable, lease_row-ok, insert_item-ok}
use agentic_mesh.Routing.{route}
use agentic_mesh.Routing.Delivery.{route-delivers}
use agentic_mesh.Queue.History.{
  Op, creates, enqueues, claims, heartbeats, completes, releases, others, step, run, committed-elim,
  after_route-elim, routes, or_same-elim, claim-ok, finish_lease-ok, create_queue-ok, heartbeat-ok,
  enqueue-ok, step-IsConsistent,
}

-- a completed row with a key
unfoldable pub is_completed_item : String → String → QueueItem → Bool
unfolding has_item_key
is_completed_item p q i = has_item_key p q i && is_completed i.status

leased-parts :
    (a b : String) (i : QueueItem)
    → is_leased_item a b i ≡ true
    → (has_item_key a b i ≡ true) × (is_leased i.status ≡ true)
unfolding is_leased_item
leased-parts a b i t = &&-true (has_item_key a b i) (is_leased i.status) t

module _ (p q : String) where
  abbrev Done : QueueDb → Type 0
  Done db = 1 ≤ count_if (is_completed_item p q) db.items

  reclaim-Done :
      (db : QueueDb) (now : ℕ) (project : String) → Done db → Done (reclaim_expired db now project)
  unfolding reclaim_expired
  reclaim-Done db now project d =
      let back = is_reclaimed project now db.leases in
      omega (
        arith,
        count_if-update_le back (is_completed_item p q) (set_status ready now) db.items (
            count_if-of_false _ db.items
              (λ i. unfold is_reclaimed is_completed_item in ground arith)),
      )

  -- An update by the key of a row that is not completed.
  update-Done :
      (db : QueueDb) (project item : String) (f : QueueItem → QueueItem) (i : QueueItem)
      → IsConsistent db
      → Any (λ x. x ≡ i) db.items
      → has_item_key project item i ≡ true
      → is_completed i.status ≡ false
      → Done db
      → 1 ≤ count_if (is_completed_item p q) (update_if (has_item_key project item) f db.items)
  update-Done db project item f i v m key open_ d =
      let key_of = has_item_key project item in
      let other : is_completed_item p q i ≡ false = unfold is_completed_item in ground arith in
      let untouched =
        count_if_unique key_of (is_completed_item p q) db.items i (v.item_keys project item) m
          key in
      omega (
        arith,
        count_if-update_le key_of (is_completed_item p q) f db.items (rw other at untouched),
      )

  -- The item of an unreleased lease is leased.
  leased_row :
      (db : QueueDb) (l : Lease)
      → IsConsistent db
      → Any (λ x. x ≡ l) db.leases
      → is_none l.released ≡ true
      → (i : QueueItem) × Any (λ x. x ≡ i) db.items
        × (has_item_key l.project_id l.queue_item_id i ≡ true)
        × (is_leased i.status ≡ true)
  leased_row db l v m unreleased =
      let a = l.project_id in
      let b = l.queue_item_id in
      let active : is_active_for a b l ≡ true =
        unfold is_active_for in rw ((eq_iff a a).1 refl, (eq_iff b b).1 refl, unreleased) in
      elim (Bool-cases (any_of (is_leased_item a b) db.items)) [
        | inl e ↦
            let (i, k, t) = any_of-Any (is_leased_item a b) db.items e in
            let (key, busy) = leased-parts a b i t in (i, k, key, busy)
        | inr e ↦ absurd (
            omega (
              arith,
              v.leased_once a b,
              count_if-of_none (is_leased_item a b) db.items e,
              count_if-pos (is_active_for a b) db.leases l m active,
            ))
      ]

  claim-Done :
      (db : QueueDb) (env : ClaimEnv) (project queue owner : String) (seconds : ℤ) (db' : QueueDb)
      (c : Option LeaseClaim)
      → IsConsistent db
      → Done db
      → claim db env project queue owner seconds ≡ ok (db', c)
      → Done db'
  unfolding lease_selected
  claim-Done db env project queue owner seconds db' c v d h =
      claim-ok db env project queue owner seconds db' c h λ p' q' o s _ _ _ chosen.
        let swept = reclaim_expired db env.reclaim_time p' in
        let d' = reclaim-Done db env.reclaim_time p' d in
        elim (Option-cases (select_row swept env p' q')) [
          | inl e ↦
              let same : ok (swept, none) ≡ ok (db', c) = rw (e, lease_selected) at chosen in
              rw (← ap (λ (x : QueueDb × Option LeaseClaim). x.0) (ok-injective same)) d'
          | inr (i, e) ↦
              let row = rw (e, lease_selected) at chosen in
              let (m, t) = select_row-claimable swept env p' q' i e in
              let (_, eq, _) = lease_row-ok swept env p' o s i db' c row in
              let key : has_item_key p' i.queue_item_id i ≡ true =
                unfold is_claimable has_item_key in
                ground (arith, (eq_iff i.queue_item_id i.queue_item_id).1 refl) in
              let open_ : is_completed i.status ≡ false = unfold is_claimable in ground arith in
              rw eq (
                update-Done swept p' i.queue_item_id (take_item env.update_time) i
                  (reclaim_expired-IsConsistent db env.reclaim_time p' v) m key open_ d')
        ]

  finish-Done :
      (db : QueueDb) (checked now : ℕ) (project lease token : String) (status : ItemStatus)
      (reason : String) (db' : QueueDb) (r : Queued QueueItem)
      → IsConsistent db
      → Done db
      → finish_lease db checked now project lease token status reason ≡ ok (db', r)
      → Done db'
  unfolding finish_rows
  finish-Done db checked now project lease token status reason db' r v d h =
      finish_lease-ok db checked now project lease token status reason db' r h
        λ p' l' t' found _ _ _ locked _ _ eq.
          let (m, lkey, _, unreleased) = lock_active_lease-found db p' l' t' found locked in
          let (i, k, key, busy) = leased_row db found v m unreleased in
          let own : p' ≡ found.project_id =
            unfold has_lease_key in sym ((eq_iff found.project_id p').0 (ground arith)) in
          rw eq (
            update-Done db p' found.queue_item_id (set_status status now) i v k
              (subst (λ (a : String). has_item_key a found.queue_item_id i ≡ true) (sym own) key)
              (ground arith) d)

  step-Done : (db : QueueDb) (o : Op) → IsConsistent db → Done db → Done (step db o)
  unfolding step complete release
  step-Done db (creates project queue role capability) v d =
      or_same-elim Done db (create_queue db project queue role capability) d
        λ db' h. rw (create_queue-ok db project queue role capability db' h) d
  step-Done db (enqueues now project queue item work key payload priority available) v d =
      committed-elim Done db (enqueue db now project queue item work key payload priority available)
        d
        λ db' r h.
          enqueue-ok db now project queue item work key payload priority available db' r h λ i s e.
            let (_, eq) = insert_item-ok db i db' e in rw eq (unfold count_if in omega arith)
  step-Done db (routes env i) v d = after_route-elim Done db (route db env i) d λ db' row h.
      elim (route-delivers db env i db' row h) [
        | inl (same, _, _) ↦ rw same d
        | inr (_, _, _, _, _, eq) ↦ rw eq (unfold count_if in omega arith)
      ]
  step-Done db (claims env project queue owner seconds) v d =
      committed-elim Done db (claim db env project queue owner seconds) d
        λ db' c h. claim-Done db env project queue owner seconds db' c v d h
  step-Done db (heartbeats checked now project lease token seconds) v d =
      committed-elim Done db (heartbeat db checked now project lease token seconds) d λ db' e h.
        heartbeat-ok db checked now project lease token seconds db' e h
          λ _ _ _ _ _ _ _ _ _ eq _. rw eq d
  step-Done db (completes checked now project lease token) v d =
      committed-elim Done db (complete db checked now project lease token) d
        λ db' r h. finish-Done db checked now project lease token completed "completed" db' r v d h
  step-Done db (releases checked now project lease token) v d =
      committed-elim Done db (release db checked now project lease token) d
        λ db' r h. finish-Done db checked now project lease token ready "released" db' r v d h
  step-Done db (others roles work queues instances handoffs) v d = d

  -- An item that is completed in consistent tables is completed after any history of operations.
  pub run-completed :
      (db : QueueDb) (os : List Op)
      → IsConsistent db
      → 1 ≤ count_if (is_completed_item p q) db.items
      → 1 ≤ count_if (is_completed_item p q) (run db os).items
  unfolding run
  run-completed db [] v d = d
  run-completed db (o ∷ os) v d =
      run-completed (step db o) os (step-IsConsistent db o v) (step-Done db o v d)

-- ===== src/Queue/History.antt =====
-- Histories of the queue store: any sequence of its operations, and of writes by other components
-- to the tables that it only reads. A failing operation leaves the tables as they were.
use agentic_mesh.Prelude.{
  ℕ, ◌+◌, ◌*◌, ap, inl, inr, String, false, Option, none, some, List, [], ◌∷◌, ◌≡◌, refl, arith,
  leb, any_of, update_if, Option-cases, count_if-update_same, >>-then, >>=-then, ok-injective, ok,
  err, ◌>>=◌,
}
use agentic_mesh.Prelude.Json.{Fields}
use agentic_mesh.Prelude.Int.{ℤ}
use agentic_mesh.Queue.{
  ItemStatus, ready, completed, is_leased, Role, RoleQueue, RoleInstance, QueueItem, Lease, Handoff,
  QueueDb, LeaseClaim, Queued, required, validate_lease_seconds, second, has_lease_key,
}
use agentic_mesh.Queue.Store.{
  is_active_for, insert_item, enqueue, ClaimEnv, is_claimable, check_binding, reclaim_expired,
  select_row, lease_selected, claim_row, claim, lock_active_lease, extend_lease, heartbeat,
  is_pending_handoff, finish_rows, finish_row, finish_lease, complete, release, create_queue,
}
use agentic_mesh.Queue.Consistency.{
  IsConsistent, reclaim_expired-IsConsistent, lock_active_lease-found, finish_rows-IsConsistent,
}
use agentic_mesh.Routing.{Routed, RouteEnv, RouteDraft, route, routed_row}
use agentic_mesh.Routing.Delivery.{route-delivers}
use agentic_mesh.Queue.Preservation.{
  add_item, select_row-claimable, insert_item-IsConsistent, lease_row-IsConsistent,
}

pub data Op : Type 0 where
  creates : String → String → String → Option String → Op
  enqueues : ℕ → String → String → String → String → String → Fields → ℤ → Option ℕ → Op
  routes : RouteEnv → RouteDraft → Op
  claims : ClaimEnv → String → String → String → ℤ → Op
  heartbeats : ℕ → ℕ → String → String → String → ℤ → Op
  completes releases : ℕ → ℕ → String → String → String → Op
  -- other components write roles, work items, queues, instances and handoffs
  others :
      List Role → List (String × String) → List RoleQueue → List RoleInstance → List Handoff → Op

abbrev pub committed {ℓ} : {A : Type ℓ} → QueueDb → Queued (QueueDb × A) → QueueDb
committed db (ok (db', a)) = db'
committed db (err e) = db

abbrev pub or_same : QueueDb → Queued QueueDb → QueueDb
or_same db (ok db') = db'
or_same db (err e) = db

abbrev pub after_route : QueueDb → Routed (QueueDb × QueueItem) → QueueDb
after_route db (ok (db', i)) = db'
after_route db (err e) = db

unfoldable pub step : QueueDb → Op → QueueDb
step db (creates project queue role capability) =
    or_same db (create_queue db project queue role capability)
step db (enqueues now project queue item work key payload priority available) =
    committed db (enqueue db now project queue item work key payload priority available)
step db (routes env d) = after_route db (route db env d)
step db (claims env project queue owner seconds) =
    committed db (claim db env project queue owner seconds)
step db (heartbeats checked now project lease token seconds) =
    committed db (heartbeat db checked now project lease token seconds)
step db (completes checked now project lease token) =
    committed db (complete db checked now project lease token)
step db (releases checked now project lease token) =
    committed db (release db checked now project lease token)
step db (others roles work queues instances handoffs) = record db {
  roles = roles;
  work_items = work;
  queues = queues;
  instances = instances;
  handoffs = handoffs;
}

unfoldable pub run : QueueDb → List Op → QueueDb
run db [] = db
run db (o ∷ os) = run (step db o) os

pub committed-elim {ℓ κ} :
    {A : Type ℓ} (P : QueueDb → Type κ) (db : QueueDb) (r : Queued (QueueDb × A))
    → P db
    → ((db' : QueueDb) (a : A) → r ≡ ok (db', a) → P db')
    → P (committed db r)
committed-elim P db (ok (db', a)) same done = done db' a refl
committed-elim P db (err e) same done = same

-- What a successful claim has done.
pub claim-ok {ℓ} :
    {P : Type ℓ} (db : QueueDb) (env : ClaimEnv) (project queue owner : String) (lease_seconds : ℤ)
    (db' : QueueDb) (c : Option LeaseClaim)
    → claim db env project queue owner lease_seconds ≡ ok (db', c)
    → ((p q o : String) (seconds : ℕ)
        → required project "project_id" ≡ ok p
        → required queue "queue_id" ≡ ok q
        → check_binding db p q o ≡ ok tt
        → lease_selected
            (reclaim_expired db env.reclaim_time p)
            env
            p
            o
            seconds
            (select_row (reclaim_expired db env.reclaim_time p) env p q)
          ≡ ok (db', c)
        → P)
    → P
unfolding claim claim_row
claim-ok db env project queue owner lease_seconds db' c h k =
    >>=-then (required project "project_id") _ h λ p hp h₁.
      >>=-then (required queue "queue_id") _ h₁ λ q hq h₂.
        >>=-then (required owner "owner_instance_id") _ h₂ λ o ho h₃.
          >>=-then (validate_lease_seconds lease_seconds) _ h₃ λ seconds hs h₄.
            >>-then (check_binding db p q o) _ h₄ λ bound h₅. k p q o seconds hp hq bound h₅

-- What a successful complete or release has done.
pub finish_lease-ok {ℓ} :
    {P : Type ℓ} (db : QueueDb) (checked now : ℕ) (project lease token : String)
    (status : ItemStatus) (reason : String) (db' : QueueDb) (r : Queued QueueItem)
    → finish_lease db checked now project lease token status reason ≡ ok (db', r)
    → ((p l t : String) (found : Lease)
        → required project "project_id" ≡ ok p
        → required lease "lease_id" ≡ ok l
        → required token "lease_token" ≡ ok t
        → lock_active_lease db p l t ≡ ok found
        → leb found.expires_at checked ≡ false
        → (status ≡ completed
            → any_of (is_pending_handoff p found.queue_item_id) db.handoffs ≡ false)
        → db' ≡ finish_rows db now p l found.queue_item_id status reason
        → P)
    → P
unfolding finish_lease finish_row
finish_lease-ok db checked now project lease token status reason db' r h k =
    >>=-then (required project "project_id") _ h λ p hp h₁.
      >>=-then (required lease "lease_id") _ h₁ λ l hl h₂.
        >>=-then (required token "lease_token") _ h₂ λ t ht h₃.
          >>=-then (lock_active_lease db p l t >>= _) _ h₃ λ finished hf h₄.
            >>=-then (lock_active_lease db p l t) _ hf λ found ha h₅.
              k p l t found hp hl ht ha (ground arith) (λ e. ground arith) (ground arith)

pub create_queue-ok :
    (db : QueueDb) (project queue role : String) (capability : Option String) (db' : QueueDb)
    → create_queue db project queue role capability ≡ ok db'
    → db' ≡ record db { queues = db'.queues }
unfolding create_queue
create_queue-ok db project queue role capability db' h = ground arith

pub or_same-elim {κ} :
    (P : QueueDb → Type κ) (db : QueueDb) (r : Queued QueueDb)
    → P db
    → ((db' : QueueDb) → r ≡ ok db' → P db')
    → P (or_same db r)
or_same-elim P db (ok db') same done = done db' refl
or_same-elim P db (err e) same done = same

pub after_route-elim {κ} :
    (P : QueueDb → Type κ) (db : QueueDb) (r : Routed (QueueDb × QueueItem))
    → P db
    → ((db' : QueueDb) (i : QueueItem) → r ≡ ok (db', i) → P db')
    → P (after_route db r)
after_route-elim P db (ok (db', i)) same done = done db' i refl
after_route-elim P db (err e) same done = same

-- What a successful heartbeat has done.
pub heartbeat-ok {ℓ} :
    {P : Type ℓ} (db : QueueDb) (checked now : ℕ) (project lease token : String) (lease_seconds : ℤ)
    (db' : QueueDb) (e : ℕ)
    → heartbeat db checked now project lease token lease_seconds ≡ ok (db', e)
    → ((p l t : String) (seconds : ℕ) (found : Lease)
        → required lease "lease_id" ≡ ok l
        → validate_lease_seconds lease_seconds ≡ ok seconds
        → lock_active_lease db p l t ≡ ok found
        → leb found.expires_at checked ≡ false
        → db' ≡ record db {
          leases = update_if (has_lease_key p l) (extend_lease now seconds) db.leases;
        }
        → e ≡ now + seconds * second
        → P)
    → P
unfolding heartbeat
heartbeat-ok db checked now project lease token lease_seconds db' e h k =
    >>=-then (required project "project_id") _ h λ p hp h₁.
      >>=-then (required lease "lease_id") _ h₁ λ l hl h₂.
        >>=-then (required token "lease_token") _ h₂ λ t ht h₃.
          >>=-then (validate_lease_seconds lease_seconds) _ h₃ λ seconds hs h₄.
            >>=-then (lock_active_lease db p l t) _ h₄ λ found ha h₅.
              k p l t seconds found hl hs ha (ground arith) (ground arith) (ground arith)

-- What a successful enqueue has done.
pub enqueue-ok {ℓ} :
    {P : Type ℓ} (db : QueueDb) (now : ℕ) (project queue item work key : String) (payload : Fields)
    (priority : ℤ) (available : Option ℕ) (db' : QueueDb) (r : Queued QueueItem)
    → enqueue db now project queue item work key payload priority available ≡ ok (db', r)
    → ((i : QueueItem) → i.status ≡ ready → insert_item db i ≡ ok db' → P)
    → P
unfolding enqueue
enqueue-ok db now project queue item work key payload priority available db' r h k =
    >>=-then (required project "project_id") _ h λ p hp h₁.
      >>=-then (required queue "queue_id") _ h₁ λ q hq h₂.
        >>=-then (required item "queue_item_id") _ h₂ λ i hi h₃.
          >>=-then (required work "work_item_id") _ h₃ λ w hw h₄.
            >>=-then (required key "idempotency_key") _ h₄ λ y hy h₅.
              let row : QueueItem = record {
                project_id = p;
                queue_item_id = i;
                queue_id = q;
                work_item_id = w;
                status = ready;
                priority = priority;
                attempt_count = 0;
                available_at = elim available [ none ↦ now | some t ↦ t ];
                payload = payload;
                idempotency_key = y;
                route_fingerprint = none;
                created_at = now;
                updated_at = now;
              } in
              >>=-then (insert_item db row) _ h₅ λ d hd h₆. k row refl (ground arith)

module _ (db : QueueDb) (v : IsConsistent db) where
  claim-IsConsistent :
      (env : ClaimEnv) (project queue owner : String) (lease_seconds : ℤ) (db' : QueueDb)
      (c : Option LeaseClaim)
      → claim db env project queue owner lease_seconds ≡ ok (db', c)
      → IsConsistent db'
  unfolding lease_selected is_claimable
  claim-IsConsistent env project queue owner lease_seconds db' c h =
      claim-ok db env project queue owner lease_seconds db' c h λ p q o seconds _ _ _ leased_row.
        let swept = reclaim_expired db env.reclaim_time p in
        let v' = reclaim_expired-IsConsistent db env.reclaim_time p v in
        elim (Option-cases (select_row swept env p q)) [
          | inl e ↦
              let same : ok (swept, none) ≡ ok (db', c) = rw (e, lease_selected) at leased_row in
              rw (← ap (λ (x : QueueDb × Option LeaseClaim). x.0) (ok-injective same)) v'
          | inr (i, e) ↦
              let row = rw (e, lease_selected) at leased_row in
              let (m, t) = select_row-claimable swept env p q i e in
              lease_row-IsConsistent swept v' env p o seconds i db' c m (ground arith)
                (ground arith) row
        ]

  heartbeat-IsConsistent :
      (checked now : ℕ) (project lease token : String) (lease_seconds : ℤ) (db' : QueueDb) (e : ℕ)
      → heartbeat db checked now project lease token lease_seconds ≡ ok (db', e)
      → IsConsistent db'
  heartbeat-IsConsistent checked now project lease token lease_seconds db' e h =
      heartbeat-ok db checked now project lease token lease_seconds db' e h
        λ p l t seconds found _ _ _ _ eq _. rw eq (record {
          item_keys = v.item_keys;
          lease_keys = λ a b.
              rw
                (count_if-update_same (has_lease_key a b) (has_lease_key p l)
                  (extend_lease now seconds) db.leases
                  (λ x. unfold has_lease_key extend_lease in refl))
                (v.lease_keys a b);
          leased_once = λ a b.
              rw
                (count_if-update_same (is_active_for a b) (has_lease_key p l)
                  (extend_lease now seconds) db.leases
                  (λ x. unfold is_active_for extend_lease in refl))
                (v.leased_once a b);
        })

  finish_lease-IsConsistent :
      (checked now : ℕ) (project lease token : String) (status : ItemStatus) (reason : String)
      (db' : QueueDb) (r : Queued QueueItem)
      → is_leased status ≡ false
      → finish_lease db checked now project lease token status reason ≡ ok (db', r)
      → IsConsistent db'
  finish_lease-IsConsistent checked now project lease token status reason db' r idle h =
      finish_lease-ok db checked now project lease token status reason db' r h
        λ p l t found _ _ _ locked _ _ eq.
          let (m, key, _, unreleased) = lock_active_lease-found db p l t found locked in
          rw eq (finish_rows-IsConsistent db v p l found m key unreleased now status reason idle)

-- One operation, or a write by another component, keeps the tables consistent.
pub step-IsConsistent : (db : QueueDb) (o : Op) → IsConsistent db → IsConsistent (step db o)
unfolding step complete release
step-IsConsistent db (creates project queue role capability) v =
    or_same-elim IsConsistent db (create_queue db project queue role capability) v λ db' h.
      rw (create_queue-ok db project queue role capability db' h)
        (record { item_keys = v.item_keys; lease_keys = v.lease_keys; leased_once = v.leased_once })
step-IsConsistent db (enqueues now project queue item work key payload priority available) v =
    committed-elim IsConsistent db
      (enqueue db now project queue item work key payload priority available) v
      λ db' r h.
        enqueue-ok db now project queue item work key payload priority available db' r h
          λ i s e. insert_item-IsConsistent db v i db' (rw s) e
step-IsConsistent db (routes env d) v =
    after_route-elim IsConsistent db (route db env d) v λ db' i h.
      elim (route-delivers db env d db' i h) [
        | inl (same, _, _) ↦ rw same v
        | inr (q, _, _, row, fresh, eq) ↦
            rw eq (add_item db v i (rw row (unfold routed_row in refl)) fresh)
      ]
step-IsConsistent db (claims env project queue owner seconds) v =
    committed-elim IsConsistent db (claim db env project queue owner seconds) v
      λ db' c h. claim-IsConsistent db v env project queue owner seconds db' c h
step-IsConsistent db (heartbeats checked now project lease token seconds) v =
    committed-elim IsConsistent db (heartbeat db checked now project lease token seconds) v
      λ db' e h. heartbeat-IsConsistent db v checked now project lease token seconds db' e h
step-IsConsistent db (completes checked now project lease token) v =
    committed-elim IsConsistent db (complete db checked now project lease token) v λ db' r h.
      finish_lease-IsConsistent db v checked now project lease token completed "completed" db' r
        refl h
step-IsConsistent db (releases checked now project lease token) v =
    committed-elim IsConsistent db (release db checked now project lease token) v λ db' r h.
      finish_lease-IsConsistent db v checked now project lease token ready "released" db' r refl h
step-IsConsistent db (others roles work queues instances handoffs) v = record {
  item_keys = v.item_keys;
  lease_keys = v.lease_keys;
  leased_once = v.leased_once;
}

-- From consistent tables, any history of operations leads to consistent tables: keys are unique,
-- and for each item the unreleased leases are as many as the leased rows.
pub run-IsConsistent : (db : QueueDb) (os : List Op) → IsConsistent db → IsConsistent (run db os)
unfolding run
run-IsConsistent db [] v = v
run-IsConsistent db (o ∷ os) v = run-IsConsistent (step db o) os (step-IsConsistent db o v)

-- ===== src/Queue/Holding.antt =====
-- What the holder of a fresh lease can do with it.
use agentic_mesh.Prelude.{
  ℕ, ◌+◌, ◌*◌, ◌<◌, String, Bool, true, false, Option, none, some, ◌≡◌, refl, sym, ◌∙◌, arith,
  eq_iff, ◌==◌, leb, if◌then◌else◌, any_of, find_if, subst, ap, ok, err, ◌>>=◌, ok-injective,
  some-injective, Option-cases, inl, inr, find_if-none, Any-any_of,
}
use agentic_mesh.Prelude.Updates.{find_if-update_own}
use agentic_mesh.Prelude.Text.{strip, strip-strip}
use agentic_mesh.Prelude.Int.{ℤ}
use agentic_mesh.Queue.{
  completed, QueueItem, QueueDb, has_item_key, LeaseClaim, Queued, required, has_lease_key,
  value_error, second, QueueError,
}
use agentic_mesh.Queue.Store.{
  ClaimEnv, reclaim_expired, select_row, lease_selected, new_lease, new_claim, claim,
  lock_active_lease, is_pending_handoff, finish_rows, finish_row, finish_lease, complete, get_item,
  take_item, is_claimable,
}
use agentic_mesh.Queue.Preservation.{with_lease, lease_row-ok, select_row-claimable}
use agentic_mesh.Queue.History.{claim-ok}
use agentic_mesh.Queue.Finishing.{Completes, finish_rows-Completes}

if_raise :
    (b : Bool) (e : QueueError) (x y : String)
    → ◌≡◌ {A = Queued String} (if b then err e else ok x) (ok y)
    → (b ≡ false) × (x ≡ y)
if_raise true e x y h = ground arith
if_raise false e x y h = (refl, ok-injective h)

-- What `_required` returns passes it again.
pub required-required :
    (value name p : String) → required value name ≡ ok p → required p name ≡ ok p
unfolding required
required-required value name p h =
    let (full, same) = if_raise (strip value == "") (value_error name) (strip value) p h in
    let kept : strip p ≡ p = rw (← same) (strip-strip value) in rw (kept, ← same, full)

selected-leases :
    (swept : QueueDb) (env : ClaimEnv) (p o : String) (seconds : ℕ) (row : Option QueueItem)
    (db' : QueueDb) (c : LeaseClaim)
    → lease_selected swept env p o seconds row ≡ ok (db', some c)
    → (i : QueueItem) × (row ≡ some i)
      × (c ≡ new_claim env p o seconds i)
      × (db' ≡ with_lease swept env p o seconds i)
unfolding lease_selected
selected-leases swept env p o seconds none db' c h = cc
selected-leases swept env p o seconds (some i) db' c h =
    let (_, eq, made) = lease_row-ok swept env p o seconds i db' (some c) h in
    (i, refl, some-injective made, eq)

-- the holder's row is the one that `_lock_active_lease` finds
lock-fresh :
    (db : QueueDb) (env : ClaimEnv) (p o : String) (seconds : ℕ) (i : QueueItem)
    → lock_active_lease (with_lease db env p o seconds i) p env.new_lease_id env.new_token
      ≡ ok (new_lease env p o seconds i)
unfolding lock_active_lease has_lease_key find_if
lock-fresh db env p o seconds i = rw (
  (eq_iff p p).1 refl,
  (eq_iff env.new_lease_id env.new_lease_id).1 refl,
  (eq_iff env.new_token env.new_token).1 refl,
)

-- what `complete` returns: the tables after its two UPDATEs, and what get_item reads from them
abbrev completes_with : QueueDb → ℕ → String → String → String → Queued (QueueDb × Queued QueueItem)
completes_with db now project lease item =
    let done = finish_rows db now project lease item completed "completed" in
    ok (done, get_item done project item)

>>=-run {ℓ κ} :
    {A : Type ℓ} {B : Type κ} (m : Queued A) (f : A → Queued B) (a : A) → m ≡ ok a → (m >>= f) ≡ f a
>>=-run m f a h = ap (λ x. x >>= f) h

row-fresh :
    (swept : QueueDb) (env : ClaimEnv) (p o : String) (seconds : ℕ) (i : QueueItem)
    (checked now : ℕ)
    → checked < env.lease_time + seconds * second
    → any_of (is_pending_handoff p i.queue_item_id) swept.handoffs ≡ false
    → finish_row
        (with_lease swept env p o seconds i)
        checked
        now
        p
        env.new_lease_id
        env.new_token
        completed
        "completed"
      ≡ ok (
        finish_rows
            (with_lease swept env p o seconds i)
            now
            p
            env.new_lease_id
            i.queue_item_id
            completed
            "completed",
        i.queue_item_id,
      )
unfolding finish_row
row-fresh swept env p o seconds i checked now early free =
    let live : leb (env.lease_time + seconds * second) checked ≡ false = ground arith in
    rw (lock-fresh swept env p o seconds i, live, free)

complete-runs :
    (db : QueueDb) (checked now : ℕ) (p l t item : String) (done : QueueDb)
    → required p "project_id" ≡ ok p
    → required l "lease_id" ≡ ok l
    → required t "lease_token" ≡ ok t
    → finish_row db checked now p l t completed "completed" ≡ ok (done, item)
    → complete db checked now p l t ≡ ok (done, get_item done p item)
unfolding complete finish_lease
complete-runs db checked now p l t item done hp hl ht h =
    >>=-run (required p "project_id") _ p hp
    ∙ (>>=-run (required l "lease_id") _ l hl
        ∙ (>>=-run (required t "lease_token") _ t ht
            ∙ >>=-run (finish_row db checked now p l t completed "completed") _ (done, item) h))

complete-leased :
    (swept : QueueDb) (env : ClaimEnv) (p o : String) (seconds : ℕ) (i : QueueItem) (db' : QueueDb)
    (c : LeaseClaim) (checked now : ℕ)
    → c ≡ new_claim env p o seconds i
    → db' ≡ with_lease swept env p o seconds i
    → required p "project_id" ≡ ok p
    → required env.new_lease_id "lease_id" ≡ ok env.new_lease_id
    → required env.new_token "lease_token" ≡ ok env.new_token
    → checked < c.expires_at
    → any_of (is_pending_handoff c.project_id c.queue_item.queue_item_id) db'.handoffs ≡ false
    → complete db' checked now c.project_id c.lease_id c.lease_token
      ≡ completes_with db' now c.project_id c.lease_id c.queue_item.queue_item_id
unfolding take_item
complete-leased swept env p o seconds i db' c checked now made eq hp hl ht =
    subst
      (λ (x : LeaseClaim).
        checked < x.expires_at
        → any_of (is_pending_handoff x.project_id x.queue_item.queue_item_id) db'.handoffs ≡ false
        → complete db' checked now x.project_id x.lease_id x.lease_token
          ≡ completes_with db' now x.project_id x.lease_id x.queue_item.queue_item_id)
      (sym made)
      (subst
        (λ (y : QueueDb).
          checked < env.lease_time + seconds * second
          → any_of (is_pending_handoff p i.queue_item_id) y.handoffs ≡ false
          → complete y checked now p env.new_lease_id env.new_token
            ≡ completes_with y now p env.new_lease_id i.queue_item_id)
        (sym eq)
        (λ early free.
          complete-runs (with_lease swept env p o seconds i) checked now p env.new_lease_id
            env.new_token i.queue_item_id _ hp hl ht
            (row-fresh swept env p o seconds i checked now early free)))

-- the claimed row is in the tables, under its key
item_found :
    (swept : QueueDb) (env : ClaimEnv) (p q o : String) (seconds : ℕ) (i : QueueItem)
    → select_row swept env p q ≡ some i
    → (x : QueueItem) × (find_if
          (has_item_key p i.queue_item_id)
          (with_lease swept env p o seconds i).items
        ≡ some x)
item_found swept env p q o seconds i chosen =
    let key = has_item_key p i.queue_item_id in
    let (m, t) = select_row-claimable swept env p q i chosen in
    let own : key i ≡ true =
      unfold has_item_key is_claimable in ground (arith, eq_iff i.queue_item_id i.queue_item_id) in
    elim (Option-cases (find_if key swept.items)) [
      | inr (x, e) ↦ (
        take_item env.update_time x,
        find_if-update_own key (take_item env.update_time) swept.items x
            (λ y. unfold has_item_key take_item in refl) e,
      )
      | inl e ↦
          let missing = find_if-none key swept.items e in
          let there = Any-any_of key swept.items i m own in cc (missing, there)
    ]

claimed-Completes :
    (swept : QueueDb) (env : ClaimEnv) (p q o : String) (seconds : ℕ) (i : QueueItem) (now : ℕ)
    → select_row swept env p q ≡ some i
    → Completes
        (with_lease swept env p o seconds i)
        (finish_rows
          (with_lease swept env p o seconds i)
          now
          p
          env.new_lease_id
          i.queue_item_id
          completed
          "completed")
        now
        p
        env.new_lease_id
        i.queue_item_id
claimed-Completes swept env p q o seconds i now chosen =
    let (x, found) = item_found swept env p q o seconds i chosen in
    finish_rows-Completes (with_lease swept env p o seconds i) now p env.new_lease_id
      i.queue_item_id (new_lease env p o seconds i) x
      (unfold find_if has_lease_key in
        rw ((eq_iff p p).1 refl, (eq_iff env.new_lease_id env.new_lease_id).1 refl) refl)
      refl found

leased-Completes :
    (swept : QueueDb) (env : ClaimEnv) (p q o : String) (seconds : ℕ) (i : QueueItem)
    (db' : QueueDb) (c : LeaseClaim) (now : ℕ)
    → c ≡ new_claim env p o seconds i
    → db' ≡ with_lease swept env p o seconds i
    → select_row swept env p q ≡ some i
    → Completes db'
        (finish_rows db' now c.project_id c.lease_id c.queue_item.queue_item_id completed
          "completed")
        now
        c.project_id
        c.lease_id
        c.queue_item.queue_item_id
unfolding take_item
leased-Completes swept env p q o seconds i db' c now made eq chosen =
    subst
      (λ (x : LeaseClaim).
        Completes db'
          (finish_rows db' now x.project_id x.lease_id x.queue_item.queue_item_id completed
            "completed")
          now x.project_id x.lease_id x.queue_item.queue_item_id)
      (sym made)
      (subst
        (λ (y : QueueDb).
          Completes y (finish_rows y now p env.new_lease_id i.queue_item_id completed "completed")
            now p env.new_lease_id i.queue_item_id)
        (sym eq) (claimed-Completes swept env p q o seconds i now chosen))

-- A lease is good for completing: after a claim, completing with the lease's identifier and token,
-- before the lease expires and where no handoff of the item is open, succeeds. The claim's lease,
-- which was active, is released then for the reason "completed", the claimed item is completed, and
-- every other lease, item and table is the same. The identifiers that the claim drew must be texts
-- that `_required` leaves alone, as those of `uuid4` are.
pub claim-complete :
    (db : QueueDb) (env : ClaimEnv) (project queue owner : String) (lease_seconds : ℤ)
    (db' : QueueDb) (c : LeaseClaim) (checked now : ℕ)
    → required env.new_lease_id "lease_id" ≡ ok env.new_lease_id
    → required env.new_token "lease_token" ≡ ok env.new_token
    → claim db env project queue owner lease_seconds ≡ ok (db', some c)
    → checked < c.expires_at
    → any_of (is_pending_handoff c.project_id c.queue_item.queue_item_id) db'.handoffs ≡ false
    → (after : QueueDb) × (complete db' checked now c.project_id c.lease_id c.lease_token
        ≡ ok (after, get_item after c.project_id c.queue_item.queue_item_id))
      × Completes db' after now c.project_id c.lease_id c.queue_item.queue_item_id
claim-complete db env project queue owner lease_seconds db' c checked now hl ht h early free =
    claim-ok db env project queue owner lease_seconds db' (some c) h λ p q o seconds hp _ _ chosen.
      let swept = reclaim_expired db env.reclaim_time p in
      let (i, row, made, eq) =
        selected-leases swept env p o seconds (select_row swept env p q) db' c chosen in
      let still = required-required project "project_id" p hp in
      (
        _,
        complete-leased swept env p o seconds i db' c checked now made eq still hl ht early free,
        leased-Completes swept env p q o seconds i db' c now made eq row,
      )

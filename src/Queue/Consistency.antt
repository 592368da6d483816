-- ===== src/Queue/Consistency.antt =====
-- The invariant of the queue tables: keys are unique, and an item is leased exactly while it has one
-- unreleased lease.
use agentic_mesh.Prelude.{
  ℕ, ◌≤◌, String, Bool, true, false, List, ◌≡◌, refl, inl, inr, ◌==◌, ◌&&◌, arith, eq_iff, is_none,
  any_of, find_if, count_if, update_if, Any, Bool-cases, count_if-le, count_if-of_false,
  count_if-of_none, count_if-update, count_if-update_same, count_if_unique, count_if-pos,
  any_of-Any, Any-any_of, &&-true, find_if-Any, find_if-true, or_raise-ok, if◌then◌else◌, ok,
}
use agentic_mesh.Queue.{
  ItemStatus, ready, is_leased, QueueItem, Lease, QueueDb, has_item_key, has_lease_key,
}
use agentic_mesh.Queue.Store.{
  is_expired, release_lease, is_reclaimed, set_status, reclaim_expired, is_active_for,
  lock_active_lease, finish_rows,
}

unfoldable pub is_leased_item : String → String → QueueItem → Bool
unfolding has_item_key
is_leased_item project item i = has_item_key project item i && is_leased i.status

pub record IsConsistent (db : QueueDb) : Type 0 where
  pub item_keys : (project item : String) → count_if (has_item_key project item) db.items ≤ 1
  pub lease_keys : (project lease : String) → count_if (has_lease_key project lease) db.leases ≤ 1
  pub leased_once :
      (project item : String)
      → count_if (is_active_for project item) db.leases
        ≡ count_if (is_leased_item project item) db.items

-- So an item has at most one unreleased lease.
pub active-le :
    {db : QueueDb}
    → IsConsistent db
    → (project item : String) → count_if (is_active_for project item) db.leases ≤ 1
unfolding is_leased_item
active-le {db} v project item = omega (
  arith,
  v.leased_once project item,
  v.item_keys project item,
  count_if-le (has_item_key project item) (is_leased_item project item) db.items
      (λ i h. ground arith),
)

-- Rows that an update releases or makes ready are not active, nor leased.
released-inactive :
    (p q : String) (s : Lease → Bool) (now : ℕ) (reason : String) (xs : List Lease)
    → count_if (λ x. s x && is_active_for p q (release_lease now reason x)) xs ≡ 0
unfolding is_active_for release_lease
released-inactive p q s now reason xs = count_if-of_false _ xs (λ x. ground arith)

unleased :
    (p q : String) (s : QueueItem → Bool) (status : ItemStatus) (now : ℕ) (xs : List QueueItem)
    → is_leased status ≡ false
    → count_if (λ x. s x && is_leased_item p q (set_status status now x)) xs ≡ 0
unfolding is_leased_item set_status has_item_key
unleased p q s status now xs h = count_if-of_false _ xs (λ x. ground arith)

-- Updates that leave the keys of rows alone.
item_keys-update :
    (db : QueueDb) (s : QueueItem → Bool) (status : ItemStatus) (now : ℕ)
    → IsConsistent db
    → (p q : String)
    → count_if (has_item_key p q) (update_if s (set_status status now) db.items) ≤ 1
unfolding has_item_key set_status
item_keys-update db s status now v p q =
    rw (count_if-update_same (has_item_key p q) s (set_status status now) db.items (λ x. refl))
      (v.item_keys p q)

lease_keys-release :
    (db : QueueDb) (s : Lease → Bool) (now : ℕ) (reason : String)
    → IsConsistent db
    → (p l : String)
    → count_if (has_lease_key p l) (update_if s (release_lease now reason) db.leases) ≤ 1
unfolding has_lease_key release_lease
lease_keys-release db s now reason v p l =
    rw (count_if-update_same (has_lease_key p l) s (release_lease now reason) db.leases (λ x. refl))
      (v.lease_keys p l)

module _ (project p q : String) (now : ℕ) where
  -- an expired lease of an item, seen from the item's key
  expired-active :
      (l : Lease) (i : QueueItem)
      → is_expired project now l ≡ true
      → (l.queue_item_id == i.queue_item_id) ≡ true
      → (i.project_id == project) ≡ true
      → has_item_key p q i ≡ true
      → is_active_for p q l ≡ true
  unfolding is_expired has_item_key is_active_for
  expired-active l i h k e f = ground (
    arith,
    eq_iff l.project_id project,
    eq_iff i.project_id project,
    eq_iff i.project_id p,
    eq_iff l.queue_item_id i.queue_item_id,
    eq_iff i.queue_item_id q,
    eq_iff l.project_id p,
    eq_iff l.queue_item_id q,
  )

  active-expired :
      (l : Lease) (i : QueueItem)
      → is_expired project now l ≡ true
      → is_active_for p q l ≡ true
      → has_item_key p q i ≡ true
      → ((i.project_id == project) ≡ true) × ((l.queue_item_id == i.queue_item_id) ≡ true)
  unfolding is_expired has_item_key is_active_for
  active-expired l i h k f = ground (
    arith,
    eq_iff l.project_id project,
    eq_iff i.project_id project,
    eq_iff i.project_id p,
    eq_iff l.queue_item_id i.queue_item_id,
    eq_iff i.queue_item_id q,
    eq_iff l.project_id p,
    eq_iff l.queue_item_id q,
  )

module _ (db : QueueDb) (v : IsConsistent db) (now : ℕ) (project p q : String) where
  -- the expired leases of one item
  abbrev dying : Lease → Bool
  dying l = is_expired project now l && is_active_for p q l

  abbrev reclaimed : QueueItem → Bool
  reclaimed i = is_reclaimed project now db.leases i && is_leased_item p q i

  abbrev holds_expired : QueueItem → Bool
  holds_expired i =
      any_of (λ l. is_expired project now l && (l.queue_item_id == i.queue_item_id)) db.leases

  some-dying : (i : QueueItem) → reclaimed i ≡ true → 1 ≤ count_if dying db.leases
  unfolding is_reclaimed is_leased_item
  some-dying i t =
      let owned : (i.project_id == project) ≡ true = ground arith in
      let key : has_item_key p q i ≡ true = ground arith in
      let held : holds_expired i ≡ true = ground arith in
      let (l, m, k) = any_of-Any _ db.leases held in
      let (over, same) = &&-true (is_expired project now l) _ k in
      count_if-pos dying db.leases l m
        (rw (over, expired-active project p q now l i over same owned key))

  reclaimed-dying : count_if dying db.leases ≡ 0 → count_if reclaimed db.items ≡ 0
  reclaimed-dying none_dies = elim (Bool-cases (any_of reclaimed db.items)) [
    | inr e ↦ count_if-of_none reclaimed db.items e
    | inl e ↦
        let (i, _, t) = any_of-Any reclaimed db.items e in absurd (omega (arith, some-dying i t))
  ]

  all-reclaimed :
      (l : Lease)
      → Any (λ x. x ≡ l) db.leases
      → dying l ≡ true
      → (i : QueueItem) → is_leased_item p q i ≡ true
      → reclaimed i ≡ true
  unfolding is_reclaimed is_leased_item
  all-reclaimed l m k i t =
      let (over, active) = &&-true (is_expired project now l) (is_active_for p q l) k in
      let (key, busy) = &&-true (has_item_key p q i) (is_leased i.status) t in
      let (owned, same) = active-expired project p q now l i over active key in
      let held : holds_expired i ≡ true = Any-any_of _ db.leases l m (rw (over, same)) in
      rw (owned, busy, held, key)

  dying-reclaimed : count_if dying db.leases ≡ count_if reclaimed db.items
  dying-reclaimed = elim (Bool-cases (any_of dying db.leases)) [
    | inr e ↦ let z = count_if-of_none dying db.leases e in rw (z, reclaimed-dying z)
    | inl e ↦
        let (l, m, k) = any_of-Any dying db.leases e in
        omega (
          arith,
          count_if-pos dying db.leases l m k,
          count_if-le (is_active_for p q) dying db.leases (λ x h. (&&-true _ _ h).1),
          active-le v p q,
          v.leased_once p q,
          count_if-le reclaimed (is_leased_item p q) db.items (all-reclaimed l m k),
          count_if-le (is_leased_item p q) reclaimed db.items (λ x h. (&&-true _ _ h).1),
        )
  ]

-- Reclaiming takes each expired lease and the status of its item together.
pub reclaim_expired-IsConsistent :
    (db : QueueDb) (now : ℕ) (project : String)
    → IsConsistent db
    → IsConsistent (reclaim_expired db now project)
unfolding reclaim_expired
reclaim_expired-IsConsistent db now project v = record {
  item_keys = item_keys-update db (is_reclaimed project now db.leases) ready now v;
  lease_keys = lease_keys-release db (is_expired project now) now "expired" v;
  leased_once = λ p q.
      let over = is_expired project now in
      let back = is_reclaimed project now db.leases in
      omega (
        arith,
        count_if-update over (is_active_for p q) (release_lease now "expired") db.leases,
        count_if-update back (is_leased_item p q) (set_status ready now) db.items,
        dying-reclaimed db v now project p q,
        v.leased_once p q,
        released-inactive p q over now "expired" db.leases,
        unleased p q back ready now db.items refl,
      );
}

-- The lease that a token names, as `_lock_active_lease` finds it.
pub lock_active_lease-found :
    (db : QueueDb) (project lease token : String) (l : Lease)
    → lock_active_lease db project lease token ≡ ok l
    → Any (λ x. x ≡ l) db.leases
      × (has_lease_key project lease l ≡ true)
      × ((l.lease_token == token) ≡ true)
      × (is_none l.released ≡ true)
unfolding lock_active_lease
lock_active_lease-found db project lease token l h =
    let test = λ (x : Lease).
      has_lease_key project lease x && (x.lease_token == token) && is_none x.released in
    let found = or_raise-ok (find_if test db.leases) _ h in
    let t = find_if-true test db.leases l found in
    let (keyed, unreleased) = &&-true _ (is_none l.released) t in
    let (key, tok) = &&-true (has_lease_key project lease l) (l.lease_token == token) keyed in
    (find_if-Any test db.leases l found, key, tok, unreleased)

module _ (db : QueueDb) (v : IsConsistent db) (project lease : String) (l : Lease)
    (m : Any (λ x. x ≡ l) db.leases) (key : has_lease_key project lease l ≡ true)
    (unreleased : is_none l.released ≡ true) where
  -- the leased item of the lease, among the items with a key
  leased-holder :
      (p q : String)
      → count_if (λ i. has_item_key project l.queue_item_id i && is_leased_item p q i) db.items
        ≡ (if is_active_for p q l then 1 else 0)
  unfolding is_active_for is_leased_item has_item_key has_lease_key
  leased-holder p q = elim (Bool-cases (is_active_for p q l)) [
    | inl active ↦ rw active (
        omega (
          arith,
          count_if-pos (is_active_for p q) db.leases l m active,
          active-le v p q,
          v.leased_once p q,
          count_if-le (is_leased_item p q)
              (λ i. has_item_key project l.queue_item_id i && is_leased_item p q i) db.items
              (λ i h. (&&-true _ _ h).1),
          count_if-le (λ i. has_item_key project l.queue_item_id i && is_leased_item p q i)
              (is_leased_item p q) db.items (λ i h. same_item p q i active h),
        ))
    | inr idle ↦ rw idle (count_if-of_false _ db.items (λ i. other_item p q i idle))
  ]
    where
      same_item :
          (p q : String) (i : QueueItem)
          → is_active_for p q l ≡ true
          → is_leased_item p q i ≡ true
          → (has_item_key project l.queue_item_id i && is_leased_item p q i) ≡ true
      same_item p q i active h = ground (
        arith,
        key,
        eq_iff l.project_id project,
        eq_iff l.project_id p,
        eq_iff l.queue_item_id q,
        eq_iff i.project_id p,
        eq_iff i.queue_item_id q,
        eq_iff i.project_id project,
        eq_iff i.queue_item_id l.queue_item_id,
      )

      other_item :
          (p q : String) (i : QueueItem)
          → is_active_for p q l ≡ false
          → (has_item_key project l.queue_item_id i && is_leased_item p q i) ≡ false
      other_item p q i idle = ground (
        arith,
        key,
        unreleased,
        eq_iff l.project_id project,
        eq_iff l.project_id p,
        eq_iff l.queue_item_id q,
        eq_iff i.project_id p,
        eq_iff i.queue_item_id q,
        eq_iff i.project_id project,
        eq_iff i.queue_item_id l.queue_item_id,
      )

  pub finish_rows-IsConsistent :
      (now : ℕ) (status : ItemStatus) (reason : String)
      → is_leased status ≡ false
      → IsConsistent (finish_rows db now project lease l.queue_item_id status reason)
  unfolding finish_rows
  finish_rows-IsConsistent now status reason idle = record {
    item_keys = item_keys-update db (has_item_key project l.queue_item_id) status now v;
    lease_keys = lease_keys-release db (has_lease_key project lease) now reason v;
    leased_once = λ p q. omega (
      arith,
      count_if-update (has_lease_key project lease) (is_active_for p q) (release_lease now reason)
          db.leases,
      count_if-update (has_item_key project l.queue_item_id) (is_leased_item p q)
          (set_status status now) db.items,
      count_if_unique (has_lease_key project lease) (is_active_for p q) db.leases l
          (v.lease_keys project lease) m key,
      leased-holder p q,
      v.leased_once p q,
      released-inactive p q (has_lease_key project lease) now reason db.leases,
      unleased p q (has_item_key project l.queue_item_id) status now db.items idle,
    );
  }

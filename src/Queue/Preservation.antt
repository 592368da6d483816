-- ===== src/Queue/Preservation.antt =====
-- The operations that add rows, and the consistency of the tables.
use agentic_mesh.Prelude.{
  ℕ, ◌+◌, ◌≤◌, String, Bool, true, false, Option, some, List, [], ◌∷◌, ◌≡◌, refl, inl, inr, ◌==◌,
  arith, eq_iff, any_of, keep_if, count_if, update_if, Any, Bool-cases, if◌then◌else◌,
  count_if-of_none, count_if-update, count_if-update_same, count_if_unique, keep_if-Any, ok, ap,
}
use agentic_mesh.Prelude.Sorting.{first_row-Any}
use agentic_mesh.Queue.{
  is_ready, is_leased, QueueItem, Lease, QueueDb, LeaseClaim, has_item_key, has_lease_key,
}
use agentic_mesh.Queue.Store.{
  is_active_for, item_collides, lease_collides, insert_item, ClaimEnv, precedes, is_claimable,
  insert_lease, take_item, new_lease, new_claim, lease_row, select_row,
}
use agentic_mesh.Queue.Consistency.{is_leased_item, IsConsistent}

pub select_row-claimable :
    (db : QueueDb) (env : ClaimEnv) (project queue : String) (i : QueueItem)
    → select_row db env project queue ≡ some i
    → Any (λ x. x ≡ i) db.items × (is_claimable env project queue i ≡ true)
unfolding select_row
select_row-claimable db env project queue i h =
    keep_if-Any (is_claimable env project queue) db.items i
      (first_row-Any (precedes env.text_lt) (keep_if (is_claimable env project queue) db.items) i h)

-- A row with a fresh key.
fresh_key {ℓ} :
    {A : Type ℓ} (k : A → Bool) (x : A) (xs : List A)
    → count_if k xs ≤ 1
    → (k x ≡ true → any_of k xs ≡ false)
    → count_if k (x ∷ xs) ≤ 1
unfolding count_if
fresh_key k x xs u fresh = elim (Bool-cases (k x)) [
  | inl e ↦ omega (
    arith,
    count_if-of_none k xs (fresh e),
    ap (λ (b : Bool). (if b then 1 else 0) + count_if k xs) e,
  )
  | inr e ↦ rw e (omega arith)
]

-- A test that fails on no row of a disjunction fails on none.
any_of-weaken {ℓ} :
    {A : Type ℓ} (p q : A → Bool) (xs : List A)
    → ((x : A) → q x ≡ true → p x ≡ true)
    → any_of p xs ≡ false
    → any_of q xs ≡ false
unfolding any_of
any_of-weaken p q [] h f = refl
any_of-weaken p q (x ∷ xs) h f = ground (arith, h x, any_of-weaken p q xs h)

-- Two rows whose keys agree collide.
same_item_key :
    (i j : QueueItem) (p q : String)
    → has_item_key p q i ≡ true
    → has_item_key p q j ≡ true
    → item_collides i j ≡ true
unfolding has_item_key item_collides
same_item_key i j p q h k = ground (
  arith,
  eq_iff i.project_id p,
  eq_iff j.project_id p,
  eq_iff i.queue_item_id q,
  eq_iff j.queue_item_id q,
  eq_iff j.project_id i.project_id,
  eq_iff j.queue_item_id i.queue_item_id,
)

same_lease_key :
    (l m : Lease) (p q : String)
    → has_lease_key p q l ≡ true
    → has_lease_key p q m ≡ true
    → lease_collides l m ≡ true
unfolding has_lease_key lease_collides
same_lease_key l m p q h k = ground (
  arith,
  eq_iff l.project_id p,
  eq_iff m.project_id p,
  eq_iff l.lease_id q,
  eq_iff m.lease_id q,
  eq_iff m.project_id l.project_id,
  eq_iff m.lease_id l.lease_id,
)

pub insert_item-ok :
    (db : QueueDb) (i : QueueItem) (db' : QueueDb)
    → insert_item db i ≡ ok db'
    → (any_of (item_collides i) db.items ≡ false) × (db' ≡ record db { items = i ∷ db.items })
unfolding insert_item
insert_item-ok db i db' h = ground arith

-- the tables after the claim of a row
abbrev pub with_lease : QueueDb → ClaimEnv → String → String → ℕ → QueueItem → QueueDb
with_lease db env project owner seconds i = record db {
  leases = new_lease env project owner seconds i ∷ db.leases;
  items = update_if (has_item_key project i.queue_item_id) (take_item env.update_time) db.items;
}

pub lease_row-ok :
    (db : QueueDb) (env : ClaimEnv) (project owner : String) (seconds : ℕ) (i : QueueItem)
    (db' : QueueDb) (c : Option LeaseClaim)
    → lease_row db env project owner seconds i ≡ ok (db', c)
    → (any_of (lease_collides (new_lease env project owner seconds i)) db.leases ≡ false)
      × (db' ≡ with_lease db env project owner seconds i)
      × (c ≡ some (new_claim env project owner seconds i))
unfolding lease_row insert_lease
lease_row-ok db env project owner seconds i db' c h = ground arith

module _ (db : QueueDb) (v : IsConsistent db) where
  pub add_item :
      (i : QueueItem)
      → is_leased i.status ≡ false
      → any_of (item_collides i) db.items ≡ false
      → IsConsistent (record db { items = i ∷ db.items })
  unfolding count_if is_leased_item
  add_item i idle fresh = record {
    item_keys = λ p q. fresh_key (has_item_key p q) i db.items (v.item_keys p q) (λ k.
        any_of-weaken (item_collides i) (has_item_key p q) db.items
          (λ j t. same_item_key i j p q k t) fresh);
    lease_keys = v.lease_keys;
    leased_once = λ p q. ground (arith, v.leased_once p q);
  }

  pub insert_item-IsConsistent :
      (i : QueueItem) (db' : QueueDb)
      → is_leased i.status ≡ false
      → insert_item db i ≡ ok db'
      → IsConsistent db'
  insert_item-IsConsistent i db' idle h =
      let (fresh, e) = insert_item-ok db i db' h in rw e (add_item i idle fresh)

  -- the taken item, seen from a key
  taken :
      (env : ClaimEnv) (project owner : String) (seconds : ℕ) (i : QueueItem)
      → (i.project_id == project) ≡ true
      → (p q : String)
      → is_leased_item p q (take_item env.update_time i)
        ≡ is_active_for p q (new_lease env project owner seconds i)
  unfolding is_leased_item has_item_key take_item is_active_for
  taken env project owner seconds i owned p q =
      ground (arith, eq_iff i.project_id project, eq_iff i.project_id p, eq_iff project p)

  with_lease-IsConsistent :
      (env : ClaimEnv) (project owner : String) (seconds : ℕ) (i : QueueItem)
      → Any (λ x. x ≡ i) db.items
      → (i.project_id == project) ≡ true
      → is_ready i.status ≡ true
      → any_of (lease_collides (new_lease env project owner seconds i)) db.leases ≡ false
      → IsConsistent (with_lease db env project owner seconds i)
  unfolding count_if
  with_lease-IsConsistent env project owner seconds i m owned idle fresh = record {
    item_keys = λ p q.
        rw
          (count_if-update_same (has_item_key p q) key (take_item env.update_time) db.items
            (λ x. unfold has_item_key take_item in refl))
          (v.item_keys p q);
    lease_keys = λ p q. fresh_key (has_lease_key p q) lease db.leases (v.lease_keys p q) (λ k.
        any_of-weaken (lease_collides lease) (has_lease_key p q) db.leases
          (λ x t. same_lease_key lease x p q k t) fresh);
    leased_once = λ p q.
        let unique = v.item_keys project i.queue_item_id in
        let was_ready : is_leased_item p q i ≡ false = unfold is_leased_item in ground arith in
        let before = count_if_unique key (is_leased_item p q) db.items i unique m holds in
        let after =
          count_if_unique key (λ x. is_leased_item p q (take_item env.update_time x)) db.items i
            unique m holds in
        let moved = count_if-update key (is_leased_item p q) (take_item env.update_time) db.items in
        let same = taken env project owner seconds i owned p q in
        ground (arith, v.leased_once p q, was_ready, before, after, moved, same);
  }
    where
      lease : Lease
      lease = new_lease env project owner seconds i

      key : QueueItem → Bool
      key = has_item_key project i.queue_item_id

      holds : has_item_key project i.queue_item_id i ≡ true
      holds = unfold has_item_key in rw (owned, (eq_iff i.queue_item_id i.queue_item_id).1 refl)

  -- The lease of a ready item and the item's new status go together.
  pub lease_row-IsConsistent :
      (env : ClaimEnv) (project owner : String) (seconds : ℕ) (i : QueueItem) (db' : QueueDb)
      (c : Option LeaseClaim)
      → Any (λ x. x ≡ i) db.items
      → (i.project_id == project) ≡ true
      → is_ready i.status ≡ true
      → lease_row db env project owner seconds i ≡ ok (db', c)
      → IsConsistent db'
  lease_row-IsConsistent env project owner seconds i db' c m owned idle h =
      let (fresh, e, _) = lease_row-ok db env project owner seconds i db' c h in
      rw e (with_lease-IsConsistent env project owner seconds i m owned idle fresh)

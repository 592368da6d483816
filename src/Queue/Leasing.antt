-- ===== src/Queue/Leasing.antt =====
-- Leases against the claims of others.
use agentic_mesh.Prelude.{
  ℕ, ◌≤◌, String, Bool, true, none, some, ◌≡◌, refl, ◌&&◌, arith, eq_iff, ltb, count_if, update_if,
  Any, inl, inr, Option-cases, count_if-le, count_if-of_false, count_if-update, count_if_unique,
  &&-true, ok, zero, suc, ◌⊎◌, subst, sym, some-injective,
}
use agentic_mesh.Prelude.Int.{ℤ}
use agentic_mesh.Queue.{is_ready, is_leased, QueueItem, Lease, QueueDb, LeaseClaim, has_item_key}
use agentic_mesh.Queue.Store.{
  is_expired, release_lease, reclaim_expired, is_active_for, ClaimEnv, is_claimable, take_item,
  select_row, lease_selected, claim,
}
use agentic_mesh.Queue.Consistency.{is_leased_item, IsConsistent, reclaim_expired-IsConsistent}
use agentic_mesh.Queue.Preservation.{select_row-claimable, lease_row-ok}
use agentic_mesh.Queue.History.{claim-ok}

-- an unreleased lease of the item (p, q) that has not expired at a time
unfoldable pub is_live : String → String → ℕ → Lease → Bool
unfolding is_active_for
is_live p q time l = is_active_for p q l && ltb time l.expires_at

live-active :
    (p q : String) (time : ℕ) (l : Lease) → is_live p q time l ≡ true → is_active_for p q l ≡ true
unfolding is_live
live-active p q time l h = (&&-true (is_active_for p q l) _ h).0

-- Reclaiming at an earlier time leaves a live lease alone.
live-reclaim :
    (db : QueueDb) (now time : ℕ) (project p q : String)
    → now ≤ time
    → 1 ≤ count_if (is_live p q time) db.leases
    → 1 ≤ count_if (is_active_for p q) (reclaim_expired db now project).leases
unfolding reclaim_expired
live-reclaim db now time project p q early live =
    let over = is_expired project now in
    let moved = count_if-update over (is_live p q time) (release_lease now "expired") db.leases in
    let kept =
      count_if-of_false (λ l. over l && is_live p q time l) db.leases
        (λ l. unfold is_expired is_live in ground arith) in
    omega (
      arith,
      moved,
      kept,
      count_if-le (is_active_for p q) (is_live p q time)
          (update_if over (release_lease now "expired") db.leases) (live-active p q time),
    )

-- In consistent tables the item of an active lease is not ready.
active-not-ready :
    (db : QueueDb) (i : QueueItem)
    → IsConsistent db
    → Any (λ x. x ≡ i) db.items
    → 1 ≤ count_if (is_active_for i.project_id i.queue_item_id) db.leases
    → is_leased i.status ≡ true
active-not-ready db i v m active =
    let p = i.project_id in
    let q = i.queue_item_id in
    let own : has_item_key p q i ≡ true =
      unfold has_item_key in
      rw (
        (eq_iff i.project_id i.project_id).1 refl,
        (eq_iff i.queue_item_id i.queue_item_id).1 refl,
      ) in
    let unique =
      count_if_unique (has_item_key p q) (λ x. is_leased x.status) db.items i (v.item_keys p q) m
        own in
    let same = v.leased_once p q in unfold is_leased_item in ground (arith, unique, same)

-- a number is zero, or not
zero-cases : (n : ℕ) → (n ≡ 0) ⊎ (1 ≤ n)
zero-cases zero = inl refl
zero-cases (suc n) = inr (omega arith)

ready-not-live :
    (db : QueueDb) (now time : ℕ) (project : String) (i : QueueItem)
    → IsConsistent db
    → now ≤ time
    → Any (λ x. x ≡ i) (reclaim_expired db now project).items
    → is_ready i.status ≡ true
    → count_if (is_live i.project_id i.queue_item_id time) db.leases ≡ 0
ready-not-live db now time project i v early m free =
    elim (zero-cases (count_if (is_live i.project_id i.queue_item_id time) db.leases)) [
      | inl e ↦ e
      | inr live ↦
          let busy =
            active-not-ready (reclaim_expired db now project) i
              (reclaim_expired-IsConsistent db now project v) m
              (live-reclaim db now time project i.project_id i.queue_item_id early live) in
          ground (arith, busy, free)
    ]

-- While a lease of an item lives, no claim by anybody gets the item, whatever the queue, the role
-- instance and the rows that others have locked: a claim whose clock at the reclaiming statement is
-- not past a time at which the lease is unexpired returns another item, or none.
pub claim-skips-live :
    (db : QueueDb) (env : ClaimEnv) (project queue owner : String) (lease_seconds : ℤ)
    (db' : QueueDb) (c : LeaseClaim) (time : ℕ)
    → IsConsistent db
    → env.reclaim_time ≤ time
    → claim db env project queue owner lease_seconds ≡ ok (db', some c)
    → count_if (is_live c.queue_item.project_id c.queue_item.queue_item_id time) db.leases ≡ 0
unfolding lease_selected
claim-skips-live db env project queue owner lease_seconds db' c time v early h =
    claim-ok db env project queue owner lease_seconds db' (some c) h λ p q o seconds _ _ _ chosen.
      let swept = reclaim_expired db env.reclaim_time p in
      elim (Option-cases (select_row swept env p q)) [
        | inl e ↦
            let same : ok (swept, none) ≡ ok (db', some c) = rw (e, lease_selected) at chosen in
            cc same
        | inr (i, e) ↦
            let row = rw (e, lease_selected) at chosen in
            let (m, t) = select_row-claimable swept env p q i e in
            let (_, _, returned) = lease_row-ok swept env p o seconds i db' (some c) row in
            let free : is_ready i.status ≡ true = unfold is_claimable in ground arith in
            let quiet = ready-not-live db env.reclaim_time time p i v early m free in
            subst
              (λ (x : LeaseClaim).
                count_if (is_live x.queue_item.project_id x.queue_item.queue_item_id time) db.leases
                ≡ 0)
              (some-injective (sym returned)) (unfold take_item in quiet)
      ]

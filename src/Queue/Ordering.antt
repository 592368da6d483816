-- ===== src/Queue/Ordering.antt =====
-- Which row a claim takes, and what the counters of `metrics` say.
use agentic_mesh.Prelude.{
  ℕ, ◌+◌, String, Bool, true, false, Option, none, some, List, [], ◌∷◌, ◌≡◌, refl, ◌==◌, ◌&&◌, ◌||◌,
  arith, ltb, leb, any_of, count_if, keep_if, Any, inl, inr, Option-cases, ok, ap, >>-then,
  >>=-then, some-injective, is_none, ◌↔◌, guard, ok-injective, Any-keep_if,
}
use agentic_mesh.Prelude.Int.{ℤ}
use agentic_mesh.Prelude.Sorting.{IsCollation, first_row-least}
use agentic_mesh.Queue.{
  not_found, has_queue_key, is_ready, is_leased, QueueItem, QueueDb, QueueMetrics, LeaseClaim,
  required,
}
use agentic_mesh.Queue.Store.{
  ClaimEnv, precedes, is_claimable, take_item, lease_selected, reclaim_expired, select_row, claim,
  oldest, age_of, metrics,
}
use agentic_mesh.Queue.Preservation.{select_row-claimable, lease_row-ok}
use agentic_mesh.Queue.History.{claim-ok}

module _ (text_lt : String → String → Bool) (col : IsCollation text_lt) where
  precedes-asymmetric :
      (a b : QueueItem) → precedes text_lt a b ≡ true → precedes text_lt b a ≡ false
  unfolding precedes
  precedes-asymmetric a b h = ground (arith, col.asymmetric a.queue_item_id b.queue_item_id)

  precedes-negatively_transitive :
      (a b c : QueueItem)
      → precedes text_lt a b ≡ false
      → precedes text_lt b c ≡ false
      → precedes text_lt a c ≡ false
  unfolding precedes
  precedes-negatively_transitive a b c h k =
      ground (arith, col.negatively_transitive a.queue_item_id b.queue_item_id c.queue_item_id)

  select_row-least :
      (db : QueueDb) (env : ClaimEnv) (p q : String) (i : QueueItem)
      → env.text_lt ≡ text_lt
      → select_row db env p q ≡ some i
      → (j : QueueItem) → Any (λ x. x ≡ j) db.items
      → is_claimable env p q j ≡ true
      → precedes text_lt j i ≡ false
  unfolding select_row
  select_row-least db env p q i e h j m t =
      first_row-least (precedes text_lt) precedes-asymmetric precedes-negatively_transitive
        (keep_if (is_claimable env p q) db.items) i (rw e at h) j
        (Any-keep_if (is_claimable env p q) db.items j m t)

-- the rows of the tables that a claim selects from: those after the reclaiming
abbrev pub Claimable : QueueDb → ClaimEnv → String → String → QueueItem → Type 0
Claimable db env p q j =
    Any (λ x. x ≡ j) (reclaim_expired db env.reclaim_time p).items × (is_claimable env p q j ≡ true)

-- For a collation that is a strict order, a claim that returns a lease returns a claimable row of
-- its project and queue, with one attempt more and leased, and no claimable row comes before that
-- row in the order of priority, availability, creation and identifier.
pub claim-takes-first :
    (db : QueueDb) (env : ClaimEnv) (project queue owner : String) (lease_seconds : ℤ)
    (db' : QueueDb) (c : LeaseClaim)
    → IsCollation env.text_lt
    → claim db env project queue owner lease_seconds ≡ ok (db', some c)
    → (p : String) × (q : String) × (i : QueueItem) × (required project "project_id" ≡ ok p)
      × (required queue "queue_id" ≡ ok q)
      × (c.queue_item ≡ take_item env.update_time i)
      × Claimable db env p q i
      × ((j : QueueItem) → Claimable db env p q j → precedes env.text_lt j i ≡ false)
unfolding lease_selected
claim-takes-first db env project queue owner lease_seconds db' c col h =
    claim-ok db env project queue owner lease_seconds db' (some c) h λ p q o seconds hp hq _ chosen.
      let swept = reclaim_expired db env.reclaim_time p in
      elim (Option-cases (select_row swept env p q)) [
        | inl e ↦
            let same : ok (swept, none) ≡ ok (db', some c) = rw (e, lease_selected) at chosen in
            cc same
        | inr (i, e) ↦
            let row = rw (e, lease_selected) at chosen in
            let (_, _, returned) = lease_row-ok swept env p o seconds i db' (some c) row in
            (
              p,
              q,
              i,
              hp,
              hq,
              ap (λ (x : LeaseClaim). x.queue_item) (some-injective returned),
              select_row-claimable swept env p q i e,
              λ j (m, t). select_row-least env.text_lt col swept env p q i refl e j m t,
            )
      ]

count-split :
    (mine : QueueItem → Bool) (now : ℕ) (is : List QueueItem)
    → count_if (λ i. mine i && (is_ready i.status || is_leased i.status)) is
      ≡ count_if (λ i. mine i && is_ready i.status && leb i.available_at now) is
        + count_if (λ i. mine i && is_ready i.status && ltb now i.available_at) is
        + count_if (λ i. mine i && is_leased i.status) is
unfolding count_if
count-split mine now [] = refl
count-split mine now (i ∷ is) = ground (arith, count-split mine now is)

oldest-none :
    (p : QueueItem → Bool) (is : List QueueItem)
    → (is_none (oldest p is) ≡ true) ↔ (count_if p is ≡ 0)
unfolding oldest count_if
oldest-none p [] = (λ h. refl, λ h. refl)
oldest-none p (i ∷ is) =
    let rest = oldest-none p is in
    elim (Option-cases (oldest p is)) [
      | inl e ↦ (λ h. ground (arith, rest.0 (ap is_none e)), λ h. ground arith)
      | inr (t, e) ↦ (λ h. ground arith, λ h. ground (arith, rest.1))
    ]

age-none : (now : ℕ) (o : Option ℕ) → is_none (age_of now o) ≡ is_none o
age-none now none = refl
age-none now (some t) = refl

-- The counters of `metrics` add up: the depth of a queue is the rows that are due, those that are
-- delayed and those that are leased; and it reports an age of the oldest due row exactly when some
-- row is due.
pub metrics-adds_up :
    (db : QueueDb) (now : ℕ) (project queue : String) (m : QueueMetrics)
    → metrics db now project queue ≡ ok m
    → (m.depth ≡ m.ready_now + m.delayed + m.leased_now)
      × ((is_none m.oldest_ready_age ≡ true) ↔ (m.ready_now ≡ 0))
unfolding metrics
metrics-adds_up db now project queue m h = >>=-then (required project "project_id") _ h λ p hp h₁.
    >>=-then (required queue "queue_id") _ h₁ λ q hq h₂.
      >>-then (guard (any_of (has_queue_key p q) db.queues) (not_found "queue not found")) _ h₂
        λ known h₃.
          let mine = λ (i : QueueItem). (i.project_id == p) && (i.queue_id == q) in
          let due = λ (i : QueueItem). mine i && is_ready i.status && leb i.available_at now in
          let e = ok-injective h₃ in
          rw (← e) (
            count-split mine now db.items,
            rw (age-none now (oldest due db.items)) (oldest-none due db.items),
          )

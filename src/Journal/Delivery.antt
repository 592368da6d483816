-- ===== src/Journal/Delivery.antt =====
-- What one dispatch does to the outbox, on every outcome of the delivery.
use Prim.Native.Nat.{◌^◌}
use Prim.Native.String.{◌++◌ as append_text}
use agentic_mesh.Prelude.{
  sym, ap, subst, ◌∙◌, update_if-update_if, ℕ, suc, ◌+◌, ◌≤◌, String, true, false, Option, none,
  some, List, ◌≡◌, ◌≢◌, refl, ◌⊎◌, inl, inr, arith, eq_iff, ok, leb, ltb, ◌*◌, if◌then◌else◌, guard,
  find_if, update_if, Any, >>=-then, >>-then, ok-injective, find_if-update, Bool-cases,
  Option-cases,
}
use mathlib.Core.Option
use native.Mathlib.Nat.{pow-le-pow_right, pow-suc}
use agentic_mesh.Prelude.Sorting.{IsCollation}
use agentic_mesh.Journal.Due.{is_earlier, select_due-found, select_due-none, select_due-first}
use agentic_mesh.Journal.{journal_failed, StoredEvent, OutboxRow, Journal}
use agentic_mesh.Journal.Outbox.{
  Delivered, receipt, DispatchResult, empty, delivered, failed, DispatchEnv, join_events, is_due,
  select_due, message_of, has_outbox_key, count_attempt, backoff, postpone, mark_dispatched,
  delivery_error, settle, dispatch_row, checked_project, dispatch_one,
}

power_bounds : (n : ℕ) → 1 ≤ n → n ≤ 8 → (2 ≤ 2 ^ n) × (2 ^ n ≤ 256)
power_bounds n h k = (pow-le-pow_right (omega arith) h, pow-le-pow_right (omega arith) k)

backoff_range : (n : ℕ) → 1 ≤ n → (2000000 ≤ backoff n) × (backoff n ≤ 256000000)
unfolding backoff
backoff_range n h = elim (Bool-cases (leb n 8)) [
  | inl small ↦ rw small (omega (arith, power_bounds n h (ground arith)))
  | inr large ↦ rw large (omega arith)
]

backoff_rises : (m n : ℕ) → m ≤ n → backoff m ≤ backoff n
unfolding backoff
backoff_rises m n h = elim (Bool-cases (leb n 8)) [
  | inl small ↦
      let below : leb m 8 ≡ true = ground (arith, small, h) in
      let power : 2 ^ m ≤ 2 ^ n = pow-le-pow_right (omega arith) h in
      rw (small, below) (omega (arith, power))
  | inr large ↦ elim (Bool-cases (leb m 8)) [
    | inl small ↦
        let small_le : m ≤ 8 = ground (arith, small) in
        let power : 2 ^ m ≤ 2 ^ 8 = pow-le-pow_right (omega arith) small_le in
        rw (large, small) (omega (arith, power))
    | inr both ↦ rw (large, both) (omega arith)
  ]
]

backoff_next : (n : ℕ) → backoff (suc n) ≡ (if ltb n 8 then 2 * backoff n else backoff n)
unfolding backoff
backoff_next n = elim (Bool-cases (ltb n 8)) [
  | inl below ↦
      let one : leb (suc n) 8 ≡ true = ground (arith, below) in
      let two : leb n 8 ≡ true = ground (arith, below) in
      let power : 2 ^ suc n ≡ 2 ^ n * 2 = pow-suc 2 n in rw (below, one, two) (omega (arith, power))
  | inr above ↦ elim (Bool-cases (leb n 8)) [
    | inl last ↦ let eight : n ≡ 8 = ground (arith, above, last) in rw eight refl
    | inr past ↦
        let one : leb (suc n) 8 ≡ false = ground (arith, past) in rw (one, past, above) refl
  ]
]

-- The delay after a failed attempt is between two and 256 seconds, is not shorter after more
-- attempts, and doubles from one attempt to the next until the eighth, from where on it is the same.
pub backoff_bounds :
    (m n : ℕ)
    → 1 ≤ m
    → m ≤ n
    → (2000000 ≤ backoff m)
      × (backoff m ≤ backoff n)
      × (backoff n ≤ 256000000)
      × (backoff (suc n) ≡ (if ltb n 8 then 2 * backoff n else backoff n))
backoff_bounds m n h k =
    ((backoff_range m h).0, backoff_rises m n k, (backoff_range n (omega arith)).1, backoff_next n)

-- the rows after a change to the row of a message
abbrev pub Changed : (OutboxRow → OutboxRow) → OutboxRow → List OutboxRow → List OutboxRow → Type 0
Changed f o before after =
    (p : String) (id : ℕ)
    → find_if (has_outbox_key p id) after
      ≡ Option.map (λ x. if has_outbox_key o.project_id o.outbox_id x then f x else x)
          (find_if (has_outbox_key p id) before)

-- What one dispatch of a row does: the receipt of its own key marks it as dispatched, and anything
-- else postpones it.
pub data Settles (env : DispatchEnv) (o : OutboxRow) (e : StoredEvent) (before : List OutboxRow)
    : List OutboxRow → DispatchResult → Type 0 where
  done :
      {after : List OutboxRow}
      → env.deliver (message_of o e) ≡ receipt o.idempotency_key
      → Changed
          (λ x. record x {
            attempt_count = x.attempt_count + 1;
            last_error = none;
            dispatched_at = some env.settle_time;
          })
          o
          before
          after
      → Settles env o e before after (delivered o.outbox_id o.idempotency_key)
  again :
      {after : List OutboxRow} (error : String)
      → env.deliver (message_of o e) ≢ receipt o.idempotency_key
      → Changed
          (λ x. record x {
            attempt_count = x.attempt_count + 1;
            last_error = some error;
            available_at = env.settle_time + backoff (x.attempt_count + 1);
          })
          o
          before
          after
      → Settles env o e before after (failed o.outbox_id o.idempotency_key error)

receipt_ok : (key : String) (d : Delivered) → delivery_error key d ≡ none → d ≡ receipt key
unfolding delivery_error
receipt_ok key (receipt k) h = ground (arith, eq_iff k key)
receipt_ok key d h = ground arith

receipt_bad :
    (key name : String) (d : Delivered) → delivery_error key d ≡ some name → d ≢ receipt key
unfolding delivery_error
receipt_bad key name (receipt k) h = ground (arith, eq_iff k key)
receipt_bad key name d h = ground arith

Changed-trans :
    (f g : OutboxRow → OutboxRow) (o : OutboxRow) (rows : List OutboxRow)
    → ((p : String) (id : ℕ) (x : OutboxRow) → has_outbox_key p id (f x) ≡ has_outbox_key p id x)
    → ((p : String) (id : ℕ) (x : OutboxRow) → has_outbox_key p id (g x) ≡ has_outbox_key p id x)
    → Changed
        (λ x. f (g x))
        o
        rows
        (update_if
          (has_outbox_key o.project_id o.outbox_id)
          f
          (update_if (has_outbox_key o.project_id o.outbox_id) g rows))
Changed-trans f g o rows hf hg p id =
    let key = has_outbox_key o.project_id o.outbox_id in
    ap (find_if (has_outbox_key p id))
      (update_if-update_if key f g rows (hg o.project_id o.outbox_id))
    ∙ find_if-update (has_outbox_key p id) key (λ x. f (g x)) rows (λ x. hf p id (g x) ∙ hg p id x)

counted_key :
    (p : String) (id : ℕ) (x : OutboxRow)
    → has_outbox_key p id (count_attempt x) ≡ has_outbox_key p id x
unfolding has_outbox_key count_attempt
counted_key p id x = refl

marked_key :
    (now : ℕ) (p : String) (id : ℕ) (x : OutboxRow)
    → has_outbox_key p id (mark_dispatched now x) ≡ has_outbox_key p id x
unfolding has_outbox_key mark_dispatched
marked_key now p id x = refl

postponed_key :
    (now : ℕ) (error : String) (p : String) (id : ℕ) (x : OutboxRow)
    → has_outbox_key p id (postpone now error x) ≡ has_outbox_key p id x
unfolding has_outbox_key postpone
postponed_key now error p id x = refl

settle-Settles :
    (j : Journal) (env : DispatchEnv) (o : OutboxRow) (e : StoredEvent) (failure : Option String)
    → delivery_error o.idempotency_key (env.deliver (message_of o e)) ≡ failure
    → let counted = update_if (has_outbox_key o.project_id o.outbox_id) count_attempt j.outbox in
      let settled =
        settle env.settle_time (record j { outbox = counted }) (message_of o e) failure in
      Settles env o e j.outbox settled.0.outbox settled.1 × (settled.0.events ≡ j.events)
unfolding settle mark_dispatched postpone count_attempt
settle-Settles j env o e none h = (
  done (receipt_ok o.idempotency_key (env.deliver (message_of o e)) h) (
      Changed-trans (mark_dispatched env.settle_time) count_attempt o j.outbox
        (marked_key env.settle_time) counted_key),
  refl,
)
settle-Settles j env o e (some name) h = (
  again (append_text "delivery failed: " name)
      (receipt_bad o.idempotency_key name (env.deliver (message_of o e)) h)
      (Changed-trans (postpone env.settle_time (append_text "delivery failed: " name)) count_attempt
        o j.outbox (postponed_key env.settle_time (append_text "delivery failed: " name))
        counted_key),
  refl,
)

dispatch_row-Settles :
    (j : Journal) (env : DispatchEnv) (o : OutboxRow) (e : StoredEvent) (j' : Journal)
    (r : DispatchResult)
    → dispatch_row j env (some (o, e)) ≡ ok (j', r)
    → Settles env o e j.outbox j'.outbox r × (j'.events ≡ j.events)
unfolding dispatch_row
dispatch_row-Settles j env o e j' r h =
    >>-then (guard (leb (o.attempt_count + 1) 2147483647) (journal_failed "outbox dispatch failed"))
      _ h
      λ small h₁.
        subst
          (λ (x : Journal × DispatchResult).
            Settles env o e j.outbox x.0.outbox x.1 × (x.0.events ≡ j.events))
          (ok-injective h₁)
          (settle-Settles j env o e
            (delivery_error o.idempotency_key (env.deliver (message_of o e))) refl)

-- A dispatch that returns either finds no message that is due, and changes nothing, or gives one
-- due message of the outbox to the adapter. No other due message has an earlier project in the
-- collation or, in its own project, an earlier time or the same time and a smaller identity. A
-- receipt with the message's own key marks its row as dispatched. Anything else, also another
-- receipt or an exception, sets the row's error and makes it due again after the delay for its
-- attempts. Both count the attempt, and no other row and no event changes.
pub dispatch-Settles :
    (j : Journal) (env : DispatchEnv) (project : Option String) (j' : Journal) (r : DispatchResult)
    → IsCollation env.text_lt
    → dispatch_one j env project ≡ ok (j', r)
    → ((r ≡ empty)
        × (j' ≡ j)
        × (p : Option String) × (checked_project project ≡ ok p)
        × ((y : OutboxRow × StoredEvent)
            → Any (λ x. x ≡ y) (join_events j.events j.outbox)
            → is_due env p y ≡ false))
      ⊎ ((o : OutboxRow) × (e : StoredEvent) × (p : Option String) × (checked_project project
            ≡ ok p)
          × Any (λ x. x ≡ (o, e)) (join_events j.events j.outbox)
          × (is_due env p (o, e) ≡ true)
          × ((y : OutboxRow × StoredEvent)
              → Any (λ x. x ≡ y) (join_events j.events j.outbox)
              → is_due env p y ≡ true
              → is_earlier env.text_lt y.0 o ≡ false)
          × Settles env o e j.outbox j'.outbox r
          × (j'.events ≡ j.events))
unfolding dispatch_one
dispatch-Settles j env project j' r col h = >>=-then (checked_project project) _ h λ p hp h₁.
    elim (Option-cases (select_due j env p)) [
      | inl e ↦
          let same : ok (j, empty) ≡ ok (j', r) = rw (e, dispatch_row) at h₁ in
          inl (
            ap (λ x. x.1) (sym (ok-injective same)),
            ap (λ x. x.0) (sym (ok-injective same)),
            p,
            hp,
            select_due-none j env p e,
          )
      | inr ((o, e), found) ↦
          let row : dispatch_row j env (some (o, e)) ≡ ok (j', r) = rw found at h₁ in
          let (m, due) = select_due-found j env p (o, e) found in
          let (settled, kept) = dispatch_row-Settles j env o e j' r row in
          inr (o, e, p, hp, m, due, select_due-first j env p col (o, e) found, settled, kept)
    ]

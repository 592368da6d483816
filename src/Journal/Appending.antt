-- ===== src/Journal/Appending.antt =====
-- What an append adds to the journal.
use Prim.Native.String.{◌++◌ as append_text}
use agentic_mesh.Prelude.Text.{decimal, take_text}
use agentic_mesh.Prelude.{
  Any, here, there, Any-split, inl, inr, ◌⊎◌, none, eq_iff, &&-true, Bool-cases, count_if-of_none,
  ◌∙◌, ℕ, ◌+◌, ◌≤◌, String, true, false, List, [], ◌∷◌, ◌≡◌, refl, sym, subst, ap, arith, ok, ltb,
  eqb, not, if◌then◌else◌, count_if, length, map, any_of, guard, ◌==◌, >>-then, >>=-then,
  ok-injective, guard-ok, not-true, ◌&&◌,
}
use agentic_mesh.Prelude.Sets.{has_duplicates}
use agentic_mesh.Journal.{
  bad_value, missing_reference, duplicate_key, EventDraft, OutboundDraft, StoredEvent, OutboxRow,
  Journal, insert_outbound, insert_all, insert_event, append, has_delivery_key, delivery_key,
}

-- Identities are unique and below the counters that give the next ones, and so are the keys of the
-- deliveries of a project.
pub record IsNumbered (j : Journal) : Type 0 where
  pub events_once :
      (id : ℕ)
      → count_if (λ e. eqb e.event_id id) j.events ≤ (if ltb id j.next_event_id then 1 else 0)
  pub outbox_once :
      (id : ℕ)
      → count_if (λ o. eqb o.outbox_id id) j.outbox ≤ (if ltb id j.next_outbox_id then 1 else 0)
  pub delivery_once : (p key : String) → count_if (has_delivery_key p key) j.outbox ≤ 1

-- The row of a message of an event: it is due from the time of the append on, without an attempt, and
-- its delivery key has the project, the number of the event and the digest of the topic.
pub record IsRowOf (sha256 : String → String) (now : ℕ) (project : String) (event_id : ℕ)
    (m : OutboundDraft) (o : OutboxRow) : Type 0 where
  pub own_project : o.project_id ≡ project
  pub own_event : o.event_id ≡ event_id
  pub own_topic : o.topic ≡ m.topic
  pub own_payload : o.payload ≡ m.payload
  pub own_key :
      o.idempotency_key
      ≡ append_text project (
          append_text ":"
            (append_text (decimal 19 event_id) (append_text ":" (take_text 16 (sha256 m.topic)))))
  pub due_now : o.available_at ≡ now
  pub waiting : o.dispatched_at ≡ none
  pub unattempted : o.attempt_count ≡ 0

insert_event-IsNumbered :
    (now : ℕ) (j : Journal) (e : EventDraft) → IsNumbered j → IsNumbered (insert_event now j e)
unfolding insert_event count_if
insert_event-IsNumbered now j e v = record {
  events_once = λ id. ground (arith, v.events_once id);
  outbox_once = v.outbox_once;
  delivery_once = v.delivery_once;
}

-- The rows of messages: each message has one, and the old rows stay.
pub record Writes (sha256 : String → String) (now : ℕ) (project : String) (event_id : ℕ)
    (ms : List OutboundDraft) (rows rows' : List OutboxRow) : Type 0 where
  pub rows_added : length rows' ≡ length ms + length rows
  pub rows_kept : (o : OutboxRow) → Any (λ x. x ≡ o) rows → Any (λ x. x ≡ o) rows'
  pub rows_written :
      (m : OutboundDraft)
      → Any (λ x. x ≡ m) ms
      → (o : OutboxRow) × Any (λ x. x ≡ o) rows' × IsRowOf sha256 now project event_id m o
  pub rows_explained :
      (o : OutboxRow)
      → Any (λ x. x ≡ o) rows'
      → Any (λ x. x ≡ o) rows
        ⊎ ((m : OutboundDraft) × Any (λ x. x ≡ m) ms × IsRowOf sha256 now project event_id m o)

record Adds (sha256 : String → String) (now : ℕ) (project : String) (event_id : ℕ) (j : Journal)
    (ms : List OutboundDraft) (j' : Journal) : Type 0 where
  events_kept : j'.events ≡ j.events
  written : Writes sha256 now project event_id ms j.outbox j'.outbox
  numbered : IsNumbered j → IsNumbered j'

-- the row that insert_outbound writes
abbrev new_row : (String → String) → ℕ → String → ℕ → Journal → OutboundDraft → OutboxRow
new_row sha256 now project event_id j m = record {
  outbox_id = j.next_outbox_id;
  project_id = project;
  event_id = event_id;
  topic = m.topic;
  payload = m.payload;
  idempotency_key = delivery_key sha256 project event_id m.topic;
  available_at = now;
  dispatched_at = none;
  attempt_count = 0;
  last_error = none;
}

new_row-IsRowOf :
    (sha256 : String → String) (now : ℕ) (project : String) (event_id : ℕ) (j : Journal)
    (m : OutboundDraft)
    → IsRowOf sha256 now project event_id m (new_row sha256 now project event_id j m)
unfolding delivery_key
new_row-IsRowOf sha256 now project event_id j m = record {
  own_project = refl;
  own_event = refl;
  own_topic = refl;
  own_payload = refl;
  own_key = refl;
  due_now = refl;
  waiting = refl;
  unattempted = refl;
}

-- A fresh delivery key stays the only one of its project.
delivery_once-new :
    (project key : String) (rows : List OutboxRow) (o : OutboxRow)
    → o.project_id ≡ project
    → o.idempotency_key ≡ key
    → any_of (has_delivery_key project key) rows ≡ false
    → (p k : String) → count_if (has_delivery_key p k) rows ≤ 1
    → count_if (has_delivery_key p k) (o ∷ rows) ≤ 1
unfolding count_if has_delivery_key
delivery_once-new project key rows o hp hk fresh p k once =
    elim (Bool-cases ((o.project_id == p) && (o.idempotency_key == k))) [
      | inr away ↦ rw away (omega (arith, once))
      | inl own ↦
          let (a, b) = &&-true (o.project_id == p) (o.idempotency_key == k) own in
          let p-same = sym hp ∙ (eq_iff o.project_id p).0 a in
          let k-same = sym hk ∙ (eq_iff o.idempotency_key k).0 b in
          let none_before : any_of (has_delivery_key p k) rows ≡ false =
            subst (λ y. any_of (has_delivery_key y k) rows ≡ false) p-same
              (subst (λ y. any_of (has_delivery_key project y) rows ≡ false) k-same fresh) in
          let count = count_if-of_none (has_delivery_key p k) rows none_before in
          rw own (omega (arith, count))
    ]

insert_outbound-Adds :
    (sha256 : String → String) (now : ℕ) (project : String) (event_id : ℕ) (j : Journal)
    (m : OutboundDraft) (j' : Journal)
    → insert_outbound sha256 now project event_id j m ≡ ok j'
    → Adds sha256 now project event_id j (m ∷ []) j'
unfolding insert_outbound count_if
insert_outbound-Adds sha256 now project event_id j m j' h =
    let row = new_row sha256 now project event_id j m in
    let own = new_row-IsRowOf sha256 now project event_id j m in
    >>-then
      (guard
        (not (
          any_of (has_delivery_key project (delivery_key sha256 project event_id m.topic))
            j.outbox))
        duplicate_key)
      _ h
      λ fresh h₁. subst (Adds sha256 now project event_id j (m ∷ [])) (ok-injective h₁) (record {
        events_kept = refl;
        written = record {
          rows_added = omega arith;
          rows_kept = λ o here_before. there here_before;
          rows_written = λ n wanted. elim (Any-split wanted) [
            | inl same ↦
                subst
                  (λ y.
                    (o : OutboxRow) × Any (λ x. x ≡ o) (row ∷ j.outbox)
                    × IsRowOf sha256 now project event_id y o)
                  same (row, here refl, own)
            | inr later ↦ elim later [ ]
          ];
          rows_explained = λ o m₁. elim (Any-split m₁) [
            | inl same ↦ inr (m, here refl, subst (IsRowOf sha256 now project event_id m) same own)
            | inr old ↦ inl old
          ];
        };
        numbered = λ v. record {
          events_once = v.events_once;
          outbox_once = λ id. ground (arith, v.outbox_once id);
          delivery_once = λ p k.
              delivery_once-new project (delivery_key sha256 project event_id m.topic) j.outbox row
                refl refl (not-true _ (guard-ok _ _ fresh)) p k (v.delivery_once p k);
        };
      })

insert_all-Adds :
    (sha256 : String → String) (now : ℕ) (project : String) (event_id : ℕ) (j : Journal)
    (ms : List OutboundDraft) (j' : Journal)
    → insert_all sha256 now project event_id j ms ≡ ok j'
    → Adds sha256 now project event_id j ms j'
unfolding insert_all
insert_all-Adds sha256 now project event_id j [] j' h =
    subst (Adds sha256 now project event_id j []) (ok-injective h) (record {
      events_kept = refl;
      written = record {
        rows_added = omega arith;
        rows_kept = λ o old. old;
        rows_written = λ m wanted. elim wanted [ ];
        rows_explained = λ o old. inl old;
      };
      numbered = λ v. v;
    })
insert_all-Adds sha256 now project event_id j (m ∷ ms) j' h =
    >>=-then (insert_outbound sha256 now project event_id j m) _ h λ j₁ h₁ h₂.
      let first = insert_outbound-Adds sha256 now project event_id j m j₁ h₁ in
      let rest = insert_all-Adds sha256 now project event_id j₁ ms j' h₂ in
      record {
        events_kept = cc (rest.events_kept, first.events_kept);
        written = record {
          rows_added = omega (arith, rest.written.rows_added, first.written.rows_added);
          rows_kept = λ o old. rest.written.rows_kept o (first.written.rows_kept o old);
          rows_written = λ n wanted. elim (Any-split wanted) [
            | inl same ↦
                let (o, there_before, own) = first.written.rows_written n (here same) in
                (o, rest.written.rows_kept o there_before, own)
            | inr later ↦ rest.written.rows_written n later
          ];
          rows_explained = λ o now_there. elim (rest.written.rows_explained o now_there) [
            | inr (n, wanted, own) ↦ inr (n, there wanted, own)
            | inl middle ↦ elim (first.written.rows_explained o middle) [
              | inl old ↦ inl old
              | inr (n, wanted, own) ↦ elim (Any-split wanted) [
                | inl same ↦ inr (n, here same, own)
                | inr none_there ↦ elim none_there [ ]
              ]
            ]
          ];
        };
        numbered = λ v. rest.numbered (first.numbered v);
      }

-- An append that returns writes the event of the draft with the next identity in front of the
-- events, which stay. The rows of the outbox stay, each message has a row with its topic and payload,
-- the event and the delivery key of the three, and the outbox has no other rows. The event's work
-- item is known, the topics are distinct, and identities and delivery keys stay unique.
pub append-Adds :
    (sha256 : String → String) (now : ℕ) (works : List (String × String)) (j : Journal)
    (e : EventDraft) (ms : List OutboundDraft) (j' : Journal) (s : StoredEvent)
    → append sha256 now works j e ms ≡ ok (j', s)
    → (s ≡ record { event_id = j.next_event_id; draft = e; occurred_at = now })
      × (j'.events ≡ s ∷ j.events)
      × Writes sha256 now e.project_id j.next_event_id ms j.outbox j'.outbox
      × (any_of (λ (p, w). (p == e.project_id) && (w == e.work_item_id)) works ≡ true)
      × (has_duplicates (map (λ m. m.topic) ms) ≡ false)
      × (IsNumbered j → IsNumbered j')
unfolding append
append-Adds sha256 now works j e ms j' s h =
    >>-then
      (guard (not (has_duplicates (map (λ m. m.topic) ms)))
        (bad_value "outbound topics must be unique within one event"))
      _ h
      λ topics h₁.
        >>-then
          (guard (any_of (λ (p, w). (p == e.project_id) && (w == e.work_item_id)) works)
            missing_reference)
          _ h₁
          λ known h₂.
            >>=-then (insert_all sha256 now e.project_id j.next_event_id (insert_event now j e) ms)
              _ h₂
              λ j₁ h₃ h₄.
                let same = ok-injective h₄ in
                let last : j₁ ≡ j' = ap (λ x. x.0) same in
                let stored = sym (ap (λ x. x.1) same) in
                let adds =
                  subst (Adds sha256 now e.project_id j.next_event_id (insert_event now j e) ms)
                    last
                    (insert_all-Adds sha256 now e.project_id j.next_event_id (insert_event now j e)
                      ms j₁ h₃) in
                (
                  stored,
                  unfold insert_event in rw (adds.events_kept, stored),
                  unfold insert_event in adds.written,
                  guard-ok _ _ known,
                  not-true _ (guard-ok _ _ topics),
                  λ v. adds.numbered (insert_event-IsNumbered now j e v),
                )

-- ===== src/Journal/Scenarios.antt =====
-- A journal with three events and one message: tests, and the theorems at them.
use agentic_mesh.Prelude.Sorting.{IsCollation}
use agentic_mesh.Journal.Due.{is_earlier}
use agentic_mesh.Prelude.{
  ltb, ◌*◌, if◌then◌else◌, ℕ, ◌≤◌, String, true, false, Option, none, some, List, [], ◌∷◌, ◌≡◌,
  refl, ◌⊎◌, ◌==◌, ◌&&◌, arith, ok, err, map, any_of, Any,
}
use agentic_mesh.Prelude.Sets.{has_duplicates}
use agentic_mesh.Prelude.Json.{end}
use agentic_mesh.Prelude.Int.{pos, negsuc}
use agentic_mesh.Journal.{
  EventDraft, OutboundDraft, StoredEvent, OutboxRow, Journal, bad_value, missing_reference,
  journal_required, checked_after, checked_limit, append, read_events, new_event,
}
use agentic_mesh.Journal.Outbox.{
  DispatchEnv, empty, delivered, failed, Delivered, receipt, raises, join_events, is_due,
  select_due, backoff, checked_project, dispatch_one,
}
use agentic_mesh.Journal.Paging.{IsPage, read-IsPage}
use agentic_mesh.Journal.Appending.{IsNumbered, Writes, append-Adds}
use agentic_mesh.Journal.Delivery.{Settles, dispatch-Settles, backoff_bounds}

abbrev draft : String → EventDraft
draft project = record {
  project_id = project;
  work_item_id = "w";
  actor_id = "pm";
  correlation_id = "c";
  aggregate_type = "work-item";
  aggregate_id = "w";
  event_type = "work.created";
  payload = end;
  causation_id = none;
}

abbrev event : ℕ → String → StoredEvent
event id project = record { event_id = id; draft = draft project; occurred_at = 5 }

abbrev journal : Journal
journal = record {
  events = event 3 "p" ∷ event 2 "other" ∷ event 1 "p" ∷ [];
  outbox = [];
  next_event_id = 4;
  next_outbox_id = 1;
}

abbrev note : OutboundDraft
note = record { topic = "lifecycle.events"; payload = end }

abbrev works : List (String × String)
works = ("p", "w") ∷ []

abbrev message : OutboxRow
message = record {
  outbox_id = 1;
  project_id = "p";
  event_id = 4;
  topic = "lifecycle.events";
  payload = end;
  idempotency_key = "p:4:lifecycle.events";
  available_at = 9;
  dispatched_at = none;
  attempt_count = 0;
  last_error = none;
}

abbrev appended : Journal
appended = record {
  events = record { event_id = 4; draft = draft "p"; occurred_at = 9 } ∷ journal.events;
  outbox = message ∷ [];
  next_event_id = 5;
  next_outbox_id = 2;
}

abbrev stored : StoredEvent
stored = record { event_id = 4; draft = draft "p"; occurred_at = 9 }

append_test : append (λ s. s) 9 works journal (draft "p") (note ∷ []) ≡ ok (appended, stored)
unfolding append
append_test = refl

repeated_topic_test :
    append (λ s. s) 9 works journal (draft "p") (note ∷ note ∷ [])
    ≡ err (bad_value "outbound topics must be unique within one event")
unfolding append
repeated_topic_test = refl

unknown_work_test : append (λ s. s) 9 works journal (draft "other") [] ≡ err missing_reference
unfolding append
unknown_work_test = refl

blank_actor_test : new_event (record (draft "p") { actor_id = "  " }) ≡ err (bad_value "actor_id")
unfolding new_event
blank_actor_test = refl

append-Adds_example :
    (stored ≡ record { event_id = 4; draft = draft "p"; occurred_at = 9 })
    × (appended.events ≡ stored ∷ journal.events)
    × Writes (λ s. s) 9 "p" 4 (note ∷ []) journal.outbox appended.outbox
    × (any_of (λ (p, w). (p == "p") && (w == "w")) works ≡ true)
    × (has_duplicates (map (λ m. m.topic) (note ∷ [])) ≡ false)
    × (IsNumbered journal → IsNumbered appended)
append-Adds_example =
    append-Adds (λ s. s) 9 works journal (draft "p") (note ∷ []) appended stored append_test

page_test : read_events journal " p " (pos 0) (pos 1) ≡ ok (event 1 "p" ∷ [])
unfolding read_events
page_test = refl

negative_test :
    read_events journal "p" (negsuc 0) (pos 1) ≡ err (bad_value "after_event_id cannot be negative")
unfolding read_events
negative_test = refl

read-IsPage_example :
    (p : String) × (a : ℕ) × (n : ℕ) × (journal_required " p " "project_id" ≡ ok p)
    × (checked_after (pos 0) ≡ ok a)
    × (checked_limit (pos 1) ≡ ok n)
    × IsPage journal p a n (event 1 "p" ∷ [])
read-IsPage_example = read-IsPage journal " p " (pos 0) (pos 1) (event 1 "p" ∷ []) page_test

abbrev adapter : Delivered → DispatchEnv
adapter answer = record {
  select_time = 10;
  settle_time = 20;
  is_locked = λ o. false;
  text_lt = λ a b. false;
  deliver = λ m. answer;
}

abbrev settled_db : OutboxRow → Journal
settled_db row = record appended { outbox = row ∷ [] }

delivered_test :
    dispatch_one appended (adapter (receipt "p:4:lifecycle.events")) none
    ≡ ok (
      settled_db (record message { attempt_count = 1; dispatched_at = some 20 }),
      delivered 1 "p:4:lifecycle.events",
    )
unfolding dispatch_one
delivered_test = refl

abbrev postponed : Journal
postponed = settled_db (record message {
  attempt_count = 1;
  available_at = 2000020;
  last_error = some "delivery failed: TimeoutError";
})

postponed_test :
    dispatch_one appended (adapter (raises "TimeoutError")) (some "p")
    ≡ ok (postponed, failed 1 "p:4:lifecycle.events" "delivery failed: TimeoutError")
unfolding dispatch_one
postponed_test = refl

nothing_due_test :
    dispatch_one postponed (adapter (raises "TimeoutError")) (some "p") ≡ ok (postponed, empty)
unfolding dispatch_one
nothing_due_test = refl

flat : IsCollation (λ a b. false)
flat = record { asymmetric = λ a b h. refl; negatively_transitive = λ a b c h k. refl }

dispatch-Settles_example :
    ((failed 1 "p:4:lifecycle.events" "delivery failed: TimeoutError" ≡ empty)
      × (postponed ≡ appended)
      × (p : Option String) × (checked_project (some "p") ≡ ok p)
      × ((y : OutboxRow × StoredEvent)
          → Any (λ x. x ≡ y) (join_events appended.events appended.outbox)
          → is_due (adapter (raises "TimeoutError")) p y ≡ false))
    ⊎ ((o : OutboxRow) × (e : StoredEvent) × (p : Option String) × (checked_project (some "p")
          ≡ ok p)
        × Any (λ x. x ≡ (o, e)) (join_events appended.events appended.outbox)
        × (is_due (adapter (raises "TimeoutError")) p (o, e) ≡ true)
        × ((y : OutboxRow × StoredEvent)
            → Any (λ x. x ≡ y) (join_events appended.events appended.outbox)
            → is_due (adapter (raises "TimeoutError")) p y ≡ true
            → is_earlier (λ a b. false) y.0 o ≡ false)
        × Settles
            (adapter (raises "TimeoutError"))
            o
            e
            appended.outbox
            postponed.outbox
            (failed 1 "p:4:lifecycle.events" "delivery failed: TimeoutError")
        × (postponed.events ≡ appended.events))
dispatch-Settles_example =
    dispatch-Settles appended (adapter (raises "TimeoutError")) (some "p") postponed
      (failed 1 "p:4:lifecycle.events" "delivery failed: TimeoutError") flat postponed_test

-- of two due messages the older is taken
abbrev two_due : Journal
two_due = record appended {
  outbox = message ∷ record message { outbox_id = 2; available_at = 8; idempotency_key = "k" } ∷ [];
}

oldest_test :
    select_due two_due (adapter (raises "TimeoutError")) none
    ≡ some (record message { outbox_id = 2; available_at = 8; idempotency_key = "k" }, stored)
unfolding select_due
oldest_test = refl

backoff_bounds_example :
    (2000000 ≤ backoff 3)
    × (backoff 3 ≤ backoff 12)
    × (backoff 12 ≤ 256000000)
    × (backoff 13 ≡ (if ltb 12 8 then 2 * backoff 12 else backoff 12))
backoff_bounds_example = backoff_bounds 3 12 (omega arith) (omega arith)

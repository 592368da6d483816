-- ===== src/Journal.antt =====
-- src/agentic_mesh_v5/events.py: the event journal and the outbox. The tables are those of the
-- migrations 0001 and 0002. Appending runs in the caller's transaction, so it takes the journal and
-- returns the new one, or raises; the identity columns are counters of the journal.
pub mod Outbox
pub mod Paging
pub mod Appending
pub mod Due
pub mod Delivery
pub mod Scenarios
use Prim.Native.String.{◌++◌ as append_text}
use agentic_mesh.Prelude.{
  ℕ, ◌+◌, String, Bool, true, false, Option, none, some, List, [], ◌∷◌, ◌++◌, map, ◌==◌, ◌&&◌, not,
  ltb, leb, any_of, keep_if, Result, ok, err, ◌>>=◌, ◌>>◌, guard, if◌then◌else◌,
}
use agentic_mesh.Prelude.Text.{strip, take_text, decimal}
use agentic_mesh.Prelude.Sets.{has_duplicates}
use agentic_mesh.Prelude.Sorting.{sort_by, take}
use agentic_mesh.Prelude.Json.{Fields}
use agentic_mesh.Prelude.Int.{ℤ, pos, negsuc}

-- ValueError, what psycopg raises for the foreign keys and the unique keys, and DatabaseError
pub data JournalError : Type 0 where
  bad_value : String → JournalError
  missing_reference duplicate_key out_of_range : JournalError
  journal_failed : String → JournalError

abbrev pub Journaled {ℓ} : Type ℓ → Type ℓ
Journaled A = Result JournalError A

-- _required
unfoldable pub journal_required : String → String → Journaled String
unfolding strip
journal_required value name = if strip value == "" then err (bad_value name) else ok (strip value)

pub record OutboundDraft : Type 0 where
  pub topic : String
  pub payload : Fields

-- OutboundDraft.__post_init__
unfoldable pub new_outbound : String → Fields → Journaled OutboundDraft
unfolding journal_required
new_outbound topic payload = do
  checked ← journal_required topic "topic"
  ok (record { topic = checked; payload = payload })

pub record EventDraft : Type 0 where
  pub project_id : String
  pub work_item_id : String
  pub actor_id : String
  pub correlation_id : String
  pub aggregate_type : String
  pub aggregate_id : String
  pub event_type : String
  pub payload : Fields
  pub causation_id : Option String

unfoldable pub checked_causation : Option String → Journaled (Option String)
unfolding journal_required
checked_causation none = ok none
checked_causation (some c) = do checked ← journal_required c "causation_id"; ok (some checked)

-- EventDraft.__post_init__
unfoldable pub new_event : EventDraft → Journaled EventDraft
unfolding journal_required checked_causation
new_event e = do
  project ← journal_required e.project_id "project_id"
  work ← journal_required e.work_item_id "work_item_id"
  actor ← journal_required e.actor_id "actor_id"
  correlation ← journal_required e.correlation_id "correlation_id"
  kind ← journal_required e.aggregate_type "aggregate_type"
  aggregate ← journal_required e.aggregate_id "aggregate_id"
  event_type ← journal_required e.event_type "event_type"
  causation ← checked_causation e.causation_id
  ok (record {
    project_id = project;
    work_item_id = work;
    actor_id = actor;
    correlation_id = correlation;
    aggregate_type = kind;
    aggregate_id = aggregate;
    event_type = event_type;
    payload = e.payload;
    causation_id = causation;
  })

-- StoredEvent, and the row of `events`: a draft with its identity and its time
pub record StoredEvent : Type 0 where
  pub event_id : ℕ
  pub draft : EventDraft
  pub occurred_at : ℕ

pub record OutboxRow : Type 0 where
  pub outbox_id : ℕ
  pub project_id : String
  pub event_id : ℕ
  pub topic : String
  pub payload : Fields
  pub idempotency_key : String
  pub available_at : ℕ
  pub dispatched_at : Option ℕ
  pub attempt_count : ℕ
  pub last_error : Option String

pub record Journal : Type 0 where
  pub events : List StoredEvent
  pub outbox : List OutboxRow
  pub next_event_id : ℕ
  pub next_outbox_id : ℕ

-- f"{event.project_id}:{event_id}:{digest}"; an identity column has at most 19 digits
unfoldable pub delivery_key : (String → String) → String → ℕ → String → String
unfolding take_text decimal
delivery_key sha256 project event_id topic = append_text project (
    append_text ":"
      (append_text (decimal 19 event_id) (append_text ":" (take_text 16 (sha256 topic)))))

unfoldable pub has_delivery_key : String → String → OutboxRow → Bool
has_delivery_key project key o = (o.project_id == project) && (o.idempotency_key == key)

-- the INSERT INTO outbox of one message
unfoldable pub insert_outbound :
    (String → String) → ℕ → String → ℕ → Journal → OutboundDraft → Journaled Journal
unfolding delivery_key has_delivery_key any_of
insert_outbound sha256 now project event_id j m = do
  guard
      (not
        (any_of (has_delivery_key project (delivery_key sha256 project event_id m.topic)) j.outbox))
      duplicate_key
  ok (record j {
    outbox =
        record {
          outbox_id = j.next_outbox_id;
          project_id = project;
          event_id = event_id;
          topic = m.topic;
          payload = m.payload;
          idempotency_key = delivery_key sha256 project event_id m.topic;
          available_at = now;
          dispatched_at = none;
          attempt_count = 0;
          last_error = none;
        }
        ∷ j.outbox;
    next_outbox_id = j.next_outbox_id + 1;
  })

-- `for message in outbound`
unfoldable pub insert_all :
    (String → String) → ℕ → String → ℕ → Journal → List OutboundDraft → Journaled Journal
unfolding insert_outbound
insert_all sha256 now project event_id j [] = ok j
insert_all sha256 now project event_id j (m ∷ ms) = do
  j' ← insert_outbound sha256 now project event_id j m
  insert_all sha256 now project event_id j' ms

-- the INSERT INTO events
unfoldable pub insert_event : ℕ → Journal → EventDraft → Journal
insert_event now j e = record j {
  events = record { event_id = j.next_event_id; draft = e; occurred_at = now } ∷ j.events;
  next_event_id = j.next_event_id + 1;
}

-- EventUnitOfWork.append; `works` holds the keys of the table work_items
unfoldable pub append :
    (String → String)
    → ℕ
    → List (String × String)
    → Journal
    → EventDraft
    → List OutboundDraft
    → Journaled (Journal × StoredEvent)
unfolding has_duplicates any_of insert_event insert_all
append sha256 now works j e outbound = do
  guard (not (has_duplicates (map (λ m. m.topic) outbound)))
      (bad_value "outbound topics must be unique within one event")
  guard (any_of (λ (p, w). (p == e.project_id) && (w == e.work_item_id)) works) missing_reference
  j' ← insert_all sha256 now e.project_id j.next_event_id (insert_event now j e) outbound
  ok (j', record { event_id = j.next_event_id; draft = e; occurred_at = now })

-- `1 <= limit <= 1000`
unfoldable pub checked_limit : ℤ → Journaled ℕ
checked_limit (pos n) =
    if leb 1 n && leb n 1000 then ok n else err (bad_value "limit must be between 1 and 1000")
checked_limit (negsuc n) = err (bad_value "limit must be between 1 and 1000")

unfoldable pub checked_after : ℤ → Journaled ℕ
checked_after (pos n) = ok n
checked_after (negsuc n) = err (bad_value "after_event_id cannot be negative")

-- the WHERE clause of EventStore.read
unfoldable pub is_later : String → ℕ → StoredEvent → Bool
is_later project after e = (e.draft.project_id == project) && ltb after e.event_id

-- EventStore.read
unfoldable pub read_events : Journal → String → ℤ → ℤ → Journaled (List StoredEvent)
unfolding journal_required checked_after checked_limit is_later keep_if sort_by take
read_events j project after_event_id limit = do
  project_id ← journal_required project "project_id"
  after ← checked_after after_event_id
  count ← checked_limit limit
  ok (take count (sort_by (λ e. e.event_id) (keep_if (is_later project_id after) j.events)))

-- ===== src/Journal/Outbox.antt =====
-- events.py, OutboxDispatcher: one message is taken, given to the adapter, and settled, in one
-- transaction. The adapter is an argument.
use agentic_mesh.Prelude.{
  ℕ, ◌+◌, ◌*◌, String, Bool, true, Option, none, some, List, [], ◌∷◌, ◌==◌, ◌&&◌, ◌||◌, not, ltb,
  leb, eqb, is_none, find_if, keep_if, update_if, ok, ◌>>=◌, ◌>>◌, guard, if◌then◌else◌,
}
use Prim.Native.Nat.{◌^◌}
use Prim.Native.String.{◌++◌ as append_text}
use agentic_mesh.Prelude.Sorting.{first_row}
use agentic_mesh.Prelude.Json.{Fields}
use agentic_mesh.Journal.{
  journal_failed, Journaled, journal_required, StoredEvent, OutboxRow, Journal,
}

pub record OutboxMessage : Type 0 where
  pub outbox_id : ℕ
  pub event_id : ℕ
  pub project_id : String
  pub work_item_id : String
  pub actor_id : String
  pub correlation_id : String
  pub topic : String
  pub payload : Fields
  pub idempotency_key : String
  pub attempt : ℕ

-- what `adapter.deliver` does: it returns a DeliveryReceipt with a key, returns anything else, or
-- raises an exception of the class that is named
pub data Delivered : Type 0 where
  receipt : String → Delivered
  no_receipt : Delivered
  raises : String → Delivered

pub data DispatchResult : Type 0 where
  empty : DispatchResult
  delivered : ℕ → String → DispatchResult
  failed : ℕ → String → String → DispatchResult

-- the clock at the SELECT and at the last UPDATE, the rows that others have locked, the collation
-- of the database, and the adapter
pub record DispatchEnv : Type 0 where
  pub select_time : ℕ
  pub settle_time : ℕ
  pub is_locked : OutboxRow → Bool
  pub text_lt : String → String → Bool
  pub deliver : OutboxMessage → Delivered

-- the JOIN with the events
unfoldable pub join_events : List StoredEvent → List OutboxRow → List (OutboxRow × StoredEvent)
unfolding find_if
join_events events [] = []
join_events events (o ∷ os) =
    let rest = join_events events os in
    elim (find_if (λ e. (e.draft.project_id == o.project_id) && eqb e.event_id o.event_id) events) [
      | none ↦ rest
      | some e ↦ (o, e) ∷ rest
    ]

unfoldable pub in_project : Option String → OutboxRow → Bool
in_project none o = true
in_project (some p) o = o.project_id == p

-- the WHERE clause, with SKIP LOCKED
unfoldable pub is_due : DispatchEnv → Option String → OutboxRow × StoredEvent → Bool
unfolding in_project
is_due env project (o, e) =
    is_none o.dispatched_at
    && leb o.available_at env.select_time
    && in_project project o
    && not (env.is_locked o)

-- ORDER BY o.project_id, o.available_at, o.outbox_id
unfoldable pub due_before :
    (String → String → Bool) → OutboxRow × StoredEvent → OutboxRow × StoredEvent → Bool
due_before text_lt (a, _) (b, _) =
    text_lt a.project_id b.project_id
    || (not (text_lt b.project_id a.project_id)
        && (ltb a.available_at b.available_at
            || (eqb a.available_at b.available_at && ltb a.outbox_id b.outbox_id)))

unfoldable pub select_due : Journal → DispatchEnv → Option String → Option (OutboxRow × StoredEvent)
unfolding first_row due_before keep_if is_due join_events
select_due j env project =
    first_row (due_before env.text_lt)
      (keep_if (is_due env project) (join_events j.events j.outbox))

-- OutboxMessage(*row[:-1], attempt=row[-1] + 1)
abbrev pub message_of : OutboxRow → StoredEvent → OutboxMessage
message_of o e = record {
  outbox_id = o.outbox_id;
  event_id = o.event_id;
  project_id = o.project_id;
  work_item_id = e.draft.work_item_id;
  actor_id = e.draft.actor_id;
  correlation_id = e.draft.correlation_id;
  topic = o.topic;
  payload = o.payload;
  idempotency_key = o.idempotency_key;
  attempt = o.attempt_count + 1;
}

unfoldable pub has_outbox_key : String → ℕ → OutboxRow → Bool
has_outbox_key project id o = (o.project_id == project) && eqb o.outbox_id id

-- the UPDATE before the delivery
unfoldable pub count_attempt : OutboxRow → OutboxRow
count_attempt o = record o { attempt_count = o.attempt_count + 1; last_error = none }

-- power(2, LEAST(attempt_count, 8)) seconds
unfoldable pub backoff : ℕ → ℕ
backoff attempts = 2 ^ (if leb attempts 8 then attempts else 8) * 1000000

-- the UPDATE after a failed delivery
unfoldable pub postpone : ℕ → String → OutboxRow → OutboxRow
unfolding backoff
postpone now error o = record o {
  last_error = some error;
  available_at = now + backoff o.attempt_count;
}

-- the UPDATE after a delivery
unfoldable pub mark_dispatched : ℕ → OutboxRow → OutboxRow
mark_dispatched now o = record o { dispatched_at = some now; last_error = none }

-- the class of the exception that the delivery and the test of its receipt raise, if any
unfoldable pub delivery_error : String → Delivered → Option String
delivery_error key (receipt k) = if k == key then none else some "ValueError"
delivery_error key no_receipt = some "ValueError"
delivery_error key (raises name) = some name

-- the last UPDATE and the result
unfoldable pub settle : ℕ → Journal → OutboxMessage → Option String → Journal × DispatchResult
unfolding has_outbox_key postpone mark_dispatched update_if
settle now j m none = (
  record j {
    outbox = update_if (has_outbox_key m.project_id m.outbox_id) (mark_dispatched now) j.outbox;
  },
  delivered m.outbox_id m.idempotency_key,
)
settle now j m (some name) =
    let error = append_text "delivery failed: " name in
    (
      record j {
        outbox = update_if (has_outbox_key m.project_id m.outbox_id) (postpone now error) j.outbox;
      },
      failed m.outbox_id m.idempotency_key error,
    )

-- dispatch_one from the selected row on
unfoldable pub dispatch_row :
    Journal → DispatchEnv → Option (OutboxRow × StoredEvent) → Journaled (Journal × DispatchResult)
unfolding has_outbox_key count_attempt update_if delivery_error settle
dispatch_row j env none = ok (j, empty)
dispatch_row j env (some (o, e)) = do
  let m = message_of o e
  guard (leb m.attempt 2147483647) (journal_failed "outbox dispatch failed")
  let counted = update_if (has_outbox_key m.project_id m.outbox_id) count_attempt j.outbox
  ok (
      settle env.settle_time (record j { outbox = counted }) m
        (delivery_error m.idempotency_key (env.deliver m)))

unfoldable pub checked_project : Option String → Journaled (Option String)
unfolding journal_required
checked_project none = ok none
checked_project (some p) = do project ← journal_required p "project_id"; ok (some project)

-- OutboxDispatcher.dispatch_one
unfoldable pub dispatch_one :
    Journal → DispatchEnv → Option String → Journaled (Journal × DispatchResult)
unfolding checked_project select_due dispatch_row
dispatch_one j env project = do
  checked ← checked_project project
  dispatch_row j env (select_due j env checked)

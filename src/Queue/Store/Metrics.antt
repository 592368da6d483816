-- ===== src/Queue/Store/Metrics.antt =====
-- queues.py, RoleQueueStore.metrics.
use agentic_mesh.Prelude.{
  ℕ, ◌+◌, ◌-◌, String, Bool, Option, none, some, List, [], ◌∷◌, ◌==◌, ◌&&◌, ◌||◌, ltb, leb,
  if◌then◌else◌, any_of, count_if, ok, ◌>>=◌, ◌>>◌, guard,
}
use agentic_mesh.Queue.{
  not_found, is_ready, is_leased, QueueItem, QueueDb, QueueMetrics, Queued, required, has_queue_key,
}

-- min(available_at) over the rows that pass the test
unfoldable pub oldest : (QueueItem → Bool) → List QueueItem → Option ℕ
oldest p [] = none
oldest p (i ∷ is) =
    let rest = oldest p is in
    if p i
    then (elim rest [
      | none ↦ some i.available_at
      | some t ↦ some (if ltb t i.available_at then t else i.available_at)
    ])
    else rest

-- now - min(available_at), which is NULL where the minimum is
abbrev pub age_of : ℕ → Option ℕ → Option ℕ
age_of now none = none
age_of now (some t) = some (now - t)

-- sum(attempt_count) over the rows that pass the test
unfoldable pub sum_attempts : (QueueItem → Bool) → List QueueItem → ℕ
sum_attempts p [] = 0
sum_attempts p (i ∷ is) = (if p i then i.attempt_count else 0) + sum_attempts p is

-- metrics; `now` is the clock that the query observes once. The age is in microseconds.
unfoldable pub metrics : QueueDb → ℕ → String → String → Queued QueueMetrics
unfolding required has_queue_key any_of count_if oldest sum_attempts
metrics db now project queue = do
  project_id ← required project "project_id"
  queue_id ← required queue "queue_id"
  guard (any_of (has_queue_key project_id queue_id) db.queues) (not_found "queue not found")
  let mine = λ (i : QueueItem). (i.project_id == project_id) && (i.queue_id == queue_id)
  let due = λ (i : QueueItem). mine i && is_ready i.status && leb i.available_at now
  ok (record {
    project_id = project_id;
    queue_id = queue_id;
    depth = count_if (λ i. mine i && (is_ready i.status || is_leased i.status)) db.items;
    ready_now = count_if due db.items;
    delayed = count_if (λ i. mine i && is_ready i.status && ltb now i.available_at) db.items;
    leased_now = count_if (λ i. mine i && is_leased i.status) db.items;
    oldest_ready_age = age_of now (oldest due db.items);
    total_attempts = sum_attempts mine db.items;
  })

-- ===== src/Queue/Scenarios.antt =====
-- A queue with an urgent and a plain item and an expired lease: tests of the operations, and the
-- theorems at them.
use agentic_mesh.Prelude.{
  ℕ, ◌+◌, ◌≤◌, String, true, false, none, some, [], ◌∷◌, ◌≡◌, refl, ◌↔◌, ok, err, arith, count_if,
  is_none, any_of, false,
}
use agentic_mesh.Prelude.Sorting.{IsCollation}
use agentic_mesh.Prelude.Text.{distinct}
use agentic_mesh.Prelude.Json.{end}
use agentic_mesh.Prelude.Int.{ℤ, pos}
use agentic_mesh.Queue.{
  ready, leased, lease_expired, QueueItem, Lease, QueueDb, LeaseClaim, QueueMetrics, required,
  has_item_key, has_lease_key,
}
use agentic_mesh.Queue.Store.{
  is_active_for, ClaimEnv, precedes, take_item, claim, metrics, complete, heartbeat, get_item,
  is_pending_handoff,
}
use agentic_mesh.Queue.Consistency.{IsConsistent, is_leased_item}
use agentic_mesh.Queue.History.{claims, completes, step, run, run-IsConsistent}
use agentic_mesh.Queue.Leasing.{is_live, claim-skips-live}
use agentic_mesh.Queue.Finishing.{Completes}
use agentic_mesh.Queue.Holding.{claim-complete}
use agentic_mesh.Queue.Completion.{is_completed_item, run-completed}
use agentic_mesh.Queue.Ordering.{Claimable, claim-takes-first, metrics-adds_up}

abbrev item : String → ℤ → ℕ → QueueItem
item id priority available = record {
  project_id = "p";
  queue_item_id = id;
  queue_id = "q";
  work_item_id = "w";
  status = ready;
  priority = priority;
  attempt_count = 0;
  available_at = available;
  payload = end;
  idempotency_key = id;
  route_fingerprint = none;
  created_at = 0;
  updated_at = 0;
}

abbrev queue_db : QueueDb
queue_db = record {
  roles = record { project_id = "p"; role_id = "developer"; status = "active" } ∷ [];
  work_items = ("p", "w") ∷ [];
  queues =
      record {
        project_id = "p";
        queue_id = "q";
        role_id = "developer";
        capability = none;
        paused = false;
      }
      ∷ [];
  instances =
      record { project_id = "p"; instance_id = "dev-1"; role_id = "developer"; status = "running" }
      ∷ [];
  items = item "plain" (pos 0) 5 ∷ item "urgent" (pos 7) 9 ∷ item "later" (pos 9) 500 ∷ [];
  leases = [];
  handoffs = [];
}

-- no two texts differ in this collation
abbrev env_at : ℕ → String → String → ClaimEnv
env_at time id token = record {
  reclaim_time = time;
  select_time = time;
  lease_time = time;
  update_time = time;
  new_lease_id = id;
  new_token = token;
  is_locked = λ _. false;
  text_lt = λ _ _. false;
}

flat : IsCollation (λ _ _. false)
flat = record { asymmetric = λ a b h. refl; negatively_transitive = λ a b c h k. refl }

abbrev urgent_lease : Lease
urgent_lease = record {
  project_id = "p";
  lease_id = "lease-1";
  queue_item_id = "urgent";
  owner_instance_id = "dev-1";
  lease_token = "t1";
  acquired_at = 10;
  heartbeat_at = 10;
  expires_at = 60000010;
  released = none;
}

abbrev urgent_claim : LeaseClaim
urgent_claim = record {
  project_id = "p";
  lease_id = "lease-1";
  lease_token = "t1";
  queue_item = record (item "urgent" (pos 7) 9) {
    status = leased;
    attempt_count = 1;
    updated_at = 10;
  };
  owner_instance_id = "dev-1";
  acquired_at = 10;
  heartbeat_at = 10;
  expires_at = 60000010;
}

abbrev after_claim : QueueDb
after_claim = record queue_db {
  items = item "plain" (pos 0) 5 ∷ urgent_claim.queue_item ∷ item "later" (pos 9) 500 ∷ [];
  leases = urgent_lease ∷ [];
}

-- The urgent item is claimed, and not the one that is not available yet.
urgent_first :
    claim queue_db (env_at 10 "lease-1" "t1") "p" " q " "dev-1" (pos 60)
    ≡ ok (after_claim, some urgent_claim)
unfolding claim
urgent_first = refl

plain_next :
    (run after_claim (claims (env_at 11 "lease-2" "t2") "p" "q" "dev-1" (pos 60) ∷ [])).leases
    ≡ record {
      project_id = "p";
      lease_id = "lease-2";
      queue_item_id = "plain";
      owner_instance_id = "dev-1";
      lease_token = "t2";
      acquired_at = 11;
      heartbeat_at = 11;
      expires_at = 60000011;
      released = none;
    }
      ∷ urgent_lease
      ∷ []
unfolding run step claim
plain_next = refl

expired_heartbeat :
    heartbeat after_claim 60000010 60000010 "p" "lease-1" "t1" (pos 60) ≡ err lease_expired
unfolding heartbeat
expired_heartbeat = refl

queue_db-IsConsistent : IsConsistent queue_db
unfolding count_if has_item_key has_lease_key is_active_for is_leased_item
queue_db-IsConsistent = record {
  item_keys = λ p q. ground (
    arith,
    distinct "plain" "urgent" q refl,
    distinct "plain" "later" q refl,
    distinct "urgent" "later" q refl,
  );
  lease_keys = λ p l. omega arith;
  leased_once = λ p q. ground arith;
}

run-IsConsistent_example : IsConsistent (
    run queue_db (
      claims (env_at 10 "lease-1" "t1") "p" "q" "dev-1" (pos 60)
      ∷ completes 20 21 "p" "lease-1" "t1"
      ∷ claims (env_at 30 "lease-1" "t3") "p" "q" "dev-1" (pos 60)
      ∷ []))
run-IsConsistent_example =
    run-IsConsistent queue_db
      (claims (env_at 10 "lease-1" "t1") "p" "q" "dev-1" (pos 60)
        ∷ completes 20 21 "p" "lease-1" "t1"
        ∷ claims (env_at 30 "lease-1" "t3") "p" "q" "dev-1" (pos 60)
        ∷ [])
      queue_db-IsConsistent

after_claim-IsConsistent : IsConsistent after_claim
unfolding run step claim
after_claim-IsConsistent =
    run-IsConsistent queue_db (claims (env_at 10 "lease-1" "t1") "p" "q" "dev-1" (pos 60) ∷ [])
      queue_db-IsConsistent

abbrev plain_claim : LeaseClaim
plain_claim = record {
  project_id = "p";
  lease_id = "lease-2";
  lease_token = "t2";
  queue_item = record (item "plain" (pos 0) 5) {
    status = leased;
    attempt_count = 1;
    updated_at = 11;
  };
  owner_instance_id = "dev-1";
  acquired_at = 11;
  heartbeat_at = 11;
  expires_at = 60000011;
}

abbrev after_both : QueueDb
after_both = run after_claim (claims (env_at 11 "lease-2" "t2") "p" "q" "dev-1" (pos 60) ∷ [])

second_claim :
    claim after_claim (env_at 11 "lease-2" "t2") "p" "q" "dev-1" (pos 60)
    ≡ ok (after_both, some plain_claim)
unfolding run step claim
second_claim = refl

claim-skips-live_example : count_if (is_live "p" "plain" 100) after_claim.leases ≡ 0
claim-skips-live_example =
    claim-skips-live after_claim (env_at 11 "lease-2" "t2") "p" "q" "dev-1" (pos 60) after_both
      plain_claim 100 after_claim-IsConsistent (omega arith) second_claim

lease_kept : required "lease-2" "lease_id" ≡ ok "lease-2"
unfolding required
lease_kept = refl

token_kept : required "t2" "lease_token" ≡ ok "t2"
unfolding required
token_kept = refl

no_handoff : any_of (is_pending_handoff "p" "plain") after_both.handoffs ≡ false
unfolding run step claim any_of
no_handoff = refl

claim-complete_example :
    (after : QueueDb) × (complete after_both 50 51 "p" "lease-2" "t2"
      ≡ ok (after, get_item after "p" "plain"))
    × Completes after_both after 51 "p" "lease-2" "plain"
claim-complete_example =
    claim-complete after_claim (env_at 11 "lease-2" "t2") "p" "q" "dev-1" (pos 60) after_both
      plain_claim 50 51 lease_kept token_kept second_claim (omega arith) no_handoff

claim-takes-first_example :
    (p : String) × (q : String) × (i : QueueItem) × (required "p" "project_id" ≡ ok p)
    × (required " q " "queue_id" ≡ ok q)
    × (urgent_claim.queue_item ≡ take_item 10 i)
    × Claimable queue_db (env_at 10 "lease-1" "t1") p q i
    × ((j : QueueItem)
        → Claimable queue_db (env_at 10 "lease-1" "t1") p q j
        → precedes (λ _ _. false) j i ≡ false)
claim-takes-first_example =
    claim-takes-first queue_db (env_at 10 "lease-1" "t1") "p" " q " "dev-1" (pos 60) after_claim
      urgent_claim flat urgent_first

abbrev after_complete : QueueDb
after_complete = run after_claim (completes 20 21 "p" "lease-1" "t1" ∷ [])

urgent_done : 1 ≤ count_if (is_completed_item "p" "urgent") after_complete.items
unfolding run step complete is_completed_item count_if
urgent_done = omega arith

run-completed_example :
    1
    ≤ count_if
        (is_completed_item "p" "urgent")
        (run after_complete (claims (env_at 30 "lease-3" "t3") "p" "q" "dev-1" (pos 60) ∷ [])).items
run-completed_example =
    run-completed "p" "urgent" after_complete
      (claims (env_at 30 "lease-3" "t3") "p" "q" "dev-1" (pos 60) ∷ [])
      (run-IsConsistent after_claim (completes 20 21 "p" "lease-1" "t1" ∷ [])
        after_claim-IsConsistent)
      urgent_done

abbrev counters : QueueMetrics
counters = record {
  project_id = "p";
  queue_id = "q";
  depth = 3;
  ready_now = 1;
  delayed = 1;
  leased_now = 1;
  oldest_ready_age = some 95;
  total_attempts = 1;
}

counted : metrics after_claim 100 "p" "q" ≡ ok counters
unfolding metrics
counted = refl

metrics-adds_up_example :
    (counters.depth ≡ 1 + 1 + 1)
    × ((is_none counters.oldest_ready_age ≡ true) ↔ (counters.ready_now ≡ 0))
metrics-adds_up_example = metrics-adds_up after_claim 100 "p" "q" counters counted

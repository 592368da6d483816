-- ===== src/Routing/Scenarios.antt =====
-- Routes of one piece of work to a developer, twice, and to a reviewer: tests, and the theorems at
-- them.
use agentic_mesh.Prelude.{
  ℕ, String, false, Option, none, some, [], ◌∷◌, ◌≡◌, refl, ◌==◌, if◌then◌else◌, ok, err,
}
use agentic_mesh.Prelude.Json.{Json, str, end, field, get}
use agentic_mesh.Prelude.Int.{pos}
use agentic_mesh.Queue.{ready, QueueItem, QueueDb}
use agentic_mesh.Routing.{
  route_conflict, route_not_found, RouteDraft, RouteEnv, new_draft, fingerprint, route,
}
use agentic_mesh.Routing.Idempotence.{route-decided}

abbrev text_of : Option Json → String
text_of (some (str s)) = s
text_of _ = ""

-- a stand-in for the hash that tells the drafts below apart
abbrev route_env : ℕ → RouteEnv
route_env now = record {
  now = now;
  sha256 = λ s. s;
  dumps = λ m. text_of (get m "target_role_id");
  isoformat = λ t. "time";
}

abbrev draft : String → RouteDraft
draft role = record {
  project_id = "p";
  work_item_id = "w";
  target_role_id = role;
  idempotency_key = "k";
  payload = field "note" (str "build it") end;
  capability = none;
  priority = pos 200;
  available_at = none;
}

abbrev empty_db : QueueDb
empty_db = record {
  roles = record { project_id = "p"; role_id = "developer"; status = "active" } ∷ [];
  work_items = ("p", "w") ∷ [];
  queues =
      record {
        project_id = "p";
        queue_id = "q";
        role_id = "developer";
        capability = none;
        paused = false;
      }
      ∷ [];
  instances = [];
  items = [];
  leases = [];
  handoffs = [];
}

abbrev routed_item : QueueItem
routed_item = record {
  project_id = "p";
  queue_item_id = "route-p\0k";
  queue_id = "q";
  work_item_id = "w";
  status = ready;
  priority = pos 200;
  attempt_count = 0;
  available_at = 40;
  payload = field "note" (str "build it") end;
  idempotency_key = "k";
  route_fingerprint = some "developer";
  created_at = 40;
  updated_at = 40;
}

abbrev routed_db : QueueDb
routed_db = record empty_db { items = routed_item ∷ [] }

new_draft_test :
    new_draft " p " "w" "developer" "k" (field "note" (str "build it") end) none (pos 200) none
    ≡ ok (draft "developer")
unfolding new_draft
new_draft_test = refl

route_test : route empty_db (route_env 40) (draft "developer") ≡ ok (routed_db, routed_item)
unfolding route get
route_test = refl

no_target_test :
    route empty_db (route_env 40) (draft "reviewer")
    ≡ err (route_not_found "active role capability target not found")
unfolding route get
no_target_test = refl

route-decided_example : route routed_db (route_env 90) (draft "reviewer") ≡ (
    if fingerprint (route_env 40) (draft "developer")
      == fingerprint (route_env 90) (draft "reviewer")
    then ok (routed_db, routed_item)
    else err (route_conflict "idempotency key is already used by different work"))
route-decided_example =
    route-decided empty_db (route_env 40) (draft "developer") routed_db routed_item (route_env 90)
      (draft "reviewer") route_test refl refl

refused_test :
    route routed_db (route_env 90) (draft "reviewer")
    ≡ err (route_conflict "idempotency key is already used by different work")
unfolding route get
refused_test = refl

repeated_test : route routed_db (route_env 90) (draft "developer") ≡ ok (routed_db, routed_item)
unfolding route get
repeated_test = refl

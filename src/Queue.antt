-- ===== src/Queue.antt =====
-- src/agentic_mesh_v5/queues.py: the tables behind the role queues, the arguments' checks and the
-- errors. The operations are in Queue/Store. The tables are those of the migrations 0001, 0004, 0011
-- and 0012, with the columns that the operations read or write; a row's primary key is its identifiers.
pub mod Store
pub mod Consistency
pub mod Preservation
pub mod History
pub mod Leasing
pub mod Finishing
pub mod Holding
pub mod Completion
pub mod Ordering
pub mod Scenarios
use agentic_mesh.Prelude.{
  ℕ, String, Bool, true, false, Option, none, some, List, [], ◌≡◌, refl, ◌&&◌, ◌==◌, leb,
  if◌then◌else◌, Result, ok, err, ◌>>=◌,
}
use agentic_mesh.Prelude.Text.{strip, is_identifier}
use agentic_mesh.Prelude.Json.{Json, Fields}
use agentic_mesh.Prelude.Int.{ℤ, pos, negsuc}

-- ValueError, QueueNotFound, QueueConflict, QueueAuthorizationError, LeaseExpired, and what psycopg
-- raises where the code does not catch it
pub data QueueError : Type 0 where
  value_error not_found conflict unauthorized database_error : String → QueueError
  lease_expired : QueueError

pub data ItemStatus : Type 0 where
  ready leased completed : ItemStatus

abbrev pub is_ready : ItemStatus → Bool
is_ready ready = true
is_ready _ = false

abbrev pub is_leased : ItemStatus → Bool
is_leased leased = true
is_leased _ = false

pub record Role : Type 0 where
  pub project_id : String
  pub role_id : String
  pub status : String

pub record RoleQueue : Type 0 where
  pub project_id : String
  pub queue_id : String
  pub role_id : String
  pub capability : Option String
  pub paused : Bool

pub record RoleInstance : Type 0 where
  pub project_id : String
  pub instance_id : String
  pub role_id : String
  pub status : String

-- QueueItemRecord and the row that it is read from. Times are microseconds.
pub record QueueItem : Type 0 where
  pub project_id : String
  pub queue_item_id : String
  pub queue_id : String
  pub work_item_id : String
  pub status : ItemStatus
  pub priority : ℤ
  pub attempt_count : ℕ
  pub available_at : ℕ
  pub payload : Fields
  pub idempotency_key : String
  -- written by routes only
  pub route_fingerprint : Option String
  pub created_at : ℕ
  pub updated_at : ℕ

-- released_at and released_reason, which are NULL together
pub record Release : Type 0 where
  pub released_at : ℕ
  pub released_reason : String

pub record Lease : Type 0 where
  pub project_id : String
  pub lease_id : String
  pub queue_item_id : String
  pub owner_instance_id : String
  pub lease_token : String
  pub acquired_at : ℕ
  pub heartbeat_at : ℕ
  pub expires_at : ℕ
  pub released : Option Release

pub record Handoff : Type 0 where
  pub project_id : String
  pub source_queue_item_id : String
  pub status : String

pub record QueueDb : Type 0 where
  pub roles : List Role
  pub work_items : List (String × String)
  pub queues : List RoleQueue
  pub instances : List RoleInstance
  pub items : List QueueItem
  pub leases : List Lease
  pub handoffs : List Handoff

-- LeaseClaim
pub record LeaseClaim : Type 0 where
  pub project_id : String
  pub lease_id : String
  pub lease_token : String
  pub queue_item : QueueItem
  pub owner_instance_id : String
  pub acquired_at : ℕ
  pub heartbeat_at : ℕ
  pub expires_at : ℕ

-- QueueMetrics
pub record QueueMetrics : Type 0 where
  pub project_id : String
  pub queue_id : String
  pub depth : ℕ
  pub ready_now : ℕ
  pub delayed : ℕ
  pub leased_now : ℕ
  pub oldest_ready_age : Option ℕ
  pub total_attempts : ℕ

abbrev pub Queued {ℓ} : Type ℓ → Type ℓ
Queued A = Result QueueError A

-- _required
unfoldable pub required : String → String → Queued String
unfolding strip
required value name = if strip value == "" then err (value_error name) else ok (strip value)

-- _optional_capability
unfoldable pub optional_capability : Option String → Queued (Option String)
unfolding required is_identifier
optional_capability none = ok none
optional_capability (some value) = do
  capability ← required value "capability"
  if is_identifier capability then ok (some capability) else err (value_error "capability")

-- _validate_lease_seconds
unfoldable pub validate_lease_seconds : ℤ → Queued ℕ
validate_lease_seconds (pos n) =
    if leb 1 n && leb n 3600 then ok n else err (value_error "lease_seconds")
validate_lease_seconds (negsuc n) = err (value_error "lease_seconds")

-- one second on the clock of the database
abbrev pub second : ℕ
second = 1000000

-- the columns of the keys
unfoldable pub has_item_key : String → String → QueueItem → Bool
has_item_key project item i = (i.project_id == project) && (i.queue_item_id == item)

unfoldable pub has_lease_key : String → String → Lease → Bool
has_lease_key project lease l = (l.project_id == project) && (l.lease_id == lease)

unfoldable pub has_queue_key : String → String → RoleQueue → Bool
has_queue_key project queue q = (q.project_id == project) && (q.queue_id == queue)

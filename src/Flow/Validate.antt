-- ===== src/Flow/Validate.antt =====
-- flow_definition.py: `validate_flow` and the checks that it makes, lines 116-169 and 245-263.
use agentic_mesh.Prelude.Sets.{contains}
use agentic_mesh.Prelude.{
  ℕ, zero, suc, String, Bool, true, false, Option, none, some, List, [], ◌∷◌, map, ◌==◌, ◌&&◌, ◌||◌,
  not, if◌then◌else◌, is_some, length, Result, ok, err, ◌>>=◌, ◌>>◌, guard, any_of, all_of, keep_if,
}
use agentic_mesh.Prelude.Json.{Json, int, bool, Fields, get}
use agentic_mesh.Flow.{
  FlowError, unsupported_schema, unknown_entry, terminal_mismatch, unreachable_states,
  terminal_has_routes, dead_end, unknown_target, target_owner_disagrees, overlapping_routes,
  key_error, no_fuel, Condition, FlowRoute, FlowState, FlowDefinition, find_state,
}
use agentic_mesh.Flow.Parse.{identifier, string_list, read_states, read_digest}

-- _conditions_overlap
unfoldable pub conditions_overlap : Option Condition → Option Condition → Bool
unfolding contains any_of
conditions_overlap none _ = true
conditions_overlap (some c) none = true
conditions_overlap (some c) (some d) =
    if c.field_name == d.field_name then any_of (contains d.values) c.values else true

-- the test of the inner loop of _reject_overlapping_routes
unfoldable pub routes_overlap : FlowRoute → FlowRoute → Bool
unfolding conditions_overlap
routes_overlap r other =
    (r.outcome == other.outcome) && conditions_overlap r.condition other.condition

-- `for x in xs: check(x)`
unfoldable pub for_each {ℓ} :
    {A : Type ℓ} → (A → Result FlowError (Unit {0})) → List A → Result FlowError (Unit {0})
for_each check [] = ok tt
for_each check (x ∷ xs) = check x >> for_each check xs

-- _reject_overlapping_routes
unfoldable pub reject_overlapping : String → List FlowRoute → Result FlowError (Unit {0})
unfolding for_each routes_overlap
reject_overlapping state [] = ok tt
reject_overlapping state (r ∷ rest) = do
  for_each
      (λ other.
        guard (not (routes_overlap r other)) (overlapping_routes state r.route_id other.route_id))
      rest
  reject_overlapping state rest

-- the checks on the target of one route
unfoldable pub check_route : List FlowState → FlowRoute → Result FlowError (Unit {0})
unfolding find_state
check_route states r = elim (find_state states r.target_state) [
  | none ↦ err (unknown_target r.route_id)
  | some target ↦ guard (target.owner_role == r.target_role) (target_owner_disagrees r.route_id)
]

abbrev pub is_empty {ℓ} : {A : Type ℓ} → List A → Bool
is_empty [] = true
is_empty (_ ∷ _) = false

-- the body of the loop over the states
unfoldable pub check_state : List FlowState → FlowState → Result FlowError (Unit {0})
unfolding for_each check_route reject_overlapping
check_state states s = do
  guard (not (s.terminal && not (is_empty s.routes))) (terminal_has_routes s.state_id)
  guard (s.terminal || not (is_empty s.routes)) (dead_end s.state_id)
  for_each (check_route states) s.routes
  reject_overlapping s.state_id s.routes

-- the body of the inner loop: a target that is new joins the reachable set and the pending stack
unfoldable pub add_target : String → List String × List String → List String × List String
unfolding contains
add_target target (reachable, pending) =
    if contains reachable target
    then (reachable, pending)
    else (target ∷ reachable, target ∷ pending)

-- the inner loop over the routes of a state
unfoldable pub push_targets : List FlowRoute → List String × List String → List String × List String
unfolding add_target
push_targets [] found = found
push_targets (r ∷ rest) found = push_targets rest (add_target r.target_state found)

-- the while loop over `pending`; the end of the list `pending` is the head here
unfoldable pub explore :
    ℕ → List FlowState → List String × List String → Result FlowError (List String)
unfolding push_targets find_state
explore zero states found = err no_fuel
explore (suc fuel) states (reachable, []) = ok reachable
explore (suc fuel) states (reachable, id ∷ pending) = elim (find_state states id) [
  | none ↦ err (key_error id)
  | some s ↦ explore fuel states (push_targets s.routes (reachable, pending))
]

-- set(xs) == set(ys)
unfoldable pub same_set : List String → List String → Bool
unfolding contains all_of
same_set xs ys = all_of (contains ys) xs && all_of (contains xs) ys

-- `value.get("schema_version") != 1`, where True == 1 in Python
unfoldable pub equals_one : Option Json → Bool
equals_one (some (int (suc zero))) = true
equals_one (some (bool true)) = true
equals_one _ = false

abbrev pub state_ids : List FlowState → List String
state_ids = map λ s. s.state_id

-- validate_flow from the parsed header and states on
unfoldable pub check_flow : String → List String → List FlowState → Result FlowError (Unit {0})
unfolding same_set keep_if for_each check_state explore find_state
check_flow entry terminals states = do
  guard (is_some (find_state states entry)) unknown_entry
  guard (same_set terminals (state_ids (keep_if (λ s. s.terminal) states))) terminal_mismatch
  for_each (check_state states) states
  reachable ← explore (suc (length states)) states (entry ∷ [], entry ∷ [])
  guard (same_set reachable (state_ids states)) unreachable_states

-- validate_flow
unfoldable pub validate_flow : Fields → String → Result FlowError FlowDefinition
unfolding equals_one identifier string_list read_states check_flow read_digest
validate_flow value digest = do
  guard (equals_one (get value "schema_version")) unsupported_schema
  flow_id ← identifier (get value "flow_id") "flow_id"
  leader ← identifier (get value "leader_role") "leader_role"
  entry ← identifier (get value "entry_state") "entry_state"
  terminals ← string_list (get value "terminal_states") "terminal_states"
  states ← read_states (get value "states")
  check_flow entry terminals states
  checked ← read_digest digest
  ok (record {
    flow_id = flow_id;
    leader_role = leader;
    entry_state = entry;
    terminal_states = terminals;
    states = states;
    snapshot = value;
    digest = checked;
  })

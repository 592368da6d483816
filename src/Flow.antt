-- ===== src/Flow.antt =====
-- src/agentic_mesh_v5/flow_definition.py: the data of a flow, the conditions on actions and routes,
-- and the selection of a route. Reading a flow from JSON is in Flow/Parse and its validation in
-- Flow/Validate; the other children prove what a validated flow guarantees.
pub mod Parse
pub mod Validate
pub mod Routing
pub mod Reachability
pub mod Exploration
pub mod Soundness
pub mod Validity
pub mod Scenarios
use agentic_mesh.Prelude.Sets.{contains, has_duplicates}
use agentic_mesh.Prelude.{
  ℕ, String, Bool, true, false, Option, none, some, List, [], ◌∷◌, ◌++◌, ◌&&◌, ◌==◌, any_of,
  keep_if, find_if, Result, ok, err, or_raise,
}
use agentic_mesh.Prelude.Json.{Json, Fields, field, end, str, get}

-- FlowDefinitionError, one constructor for each message; `key_error` is the KeyError of a missing
-- dictionary key, and `no_fuel` is not an exception of the program.
pub data FlowError : Type 0 where
  unsupported_schema states_required unknown_entry terminal_mismatch unreachable_states : FlowError
  invalid not_an_array not_an_object not_unique : String → FlowError
  invalid_artifact duplicate_action_ids terminal_not_boolean : String → FlowError
  ambiguous_role_key condition_not_single invalid_digest : FlowError
  terminal_has_routes dead_end unknown_state : String → FlowError
  unknown_target target_owner_disagrees : String → FlowError
  overlapping_routes : String → String → String → FlowError
  no_single_route : String → String → FlowError
  key_error : String → FlowError
  no_fuel : FlowError

pub record Condition : Type 0 where
  pub field_name : String
  pub values : List String

-- `value in values`: a value that is no string is in no tuple of strings
unfoldable pub member : Option Json → List String → Bool
unfolding contains
member (some (str s)) values = contains values s
member _ values = false

-- Condition.matches
unfoldable pub condition_matches : Condition → Fields → Bool
unfolding member get
condition_matches c fields = member (get fields c.field_name) c.values

-- `self.condition is None or self.condition.matches(fields)`
unfoldable pub admits : Option Condition → Fields → Bool
unfolding condition_matches
admits none fields = true
admits (some c) fields = condition_matches c fields

pub data ActionKind : Type 0 where
  artifact consult gate inform : ActionKind

pub record FlowAction : Type 0 where
  pub action_id : String
  pub kind : ActionKind
  pub role_id : String
  pub payload : Fields
  pub condition : Option Condition

pub record FlowRoute : Type 0 where
  pub route_id : String
  pub outcome : String
  pub target_state : String
  pub target_role : String
  pub condition : Option Condition

-- FlowAction.applies
unfoldable pub applies : Fields → FlowAction → Bool
unfolding admits
applies fields a = admits a.condition fields

-- FlowRoute.matches
unfoldable pub route_matches : String → Fields → FlowRoute → Bool
unfolding admits
route_matches outcome fields r = (r.outcome == outcome) && admits r.condition fields

pub record FlowState : Type 0 where
  pub state_id : String
  pub owner_role : String
  pub purpose : String
  pub artifact_path : String
  pub consults : List FlowAction
  pub gates : List FlowAction
  pub informs : List FlowAction
  pub routes : List FlowRoute
  pub terminal : Bool

-- FlowState.obligations
unfoldable pub obligations : FlowState → Fields → List FlowAction
unfolding applies keep_if
obligations s fields =
    record {
      action_id = "artifact";
      kind = artifact;
      role_id = s.owner_role;
      payload = field "path" (str s.artifact_path) end;
      condition = none;
    }
    ∷ keep_if (applies fields) (s.consults ++ (s.gates ++ s.informs))

-- `if len(matches) != 1: raise`
unfoldable pub exactly_one : String → String → List FlowRoute → Result FlowError FlowRoute
exactly_one state outcome (r ∷ []) = ok r
exactly_one state outcome _ = err (no_single_route state outcome)

-- FlowState.select_route
unfoldable pub select_route : FlowState → String → Fields → Result FlowError FlowRoute
unfolding exactly_one route_matches keep_if
select_route s outcome fields =
    exactly_one s.state_id outcome (keep_if (route_matches outcome fields) s.routes)

pub record FlowDefinition : Type 0 where
  pub flow_id : String
  pub leader_role : String
  pub entry_state : String
  pub terminal_states : List String
  pub states : List FlowState
  pub snapshot : Fields
  pub digest : String

-- `states.get(state_id)`
unfoldable pub find_state : List FlowState → String → Option FlowState
unfolding find_if
find_state states state_id = find_if (λ s. s.state_id == state_id) states

-- FlowDefinition.state
unfoldable pub flow_state : FlowDefinition → String → Result FlowError FlowState
unfolding find_state
flow_state flow state_id = or_raise (find_state flow.states state_id) (unknown_state state_id)

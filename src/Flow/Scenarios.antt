-- ===== src/Flow/Scenarios.antt =====
-- A flow with two states, the tests of the definitions on it, and the theorems at it.
use agentic_mesh.Prelude.Sets.{contains}
use agentic_mesh.Prelude.{
  String, Bool, true, false, some, List, [], ◌∷◌, ◌≡◌, refl, ok, err, ◌↔◌, ◌⊎◌, suc, length, Any,
  any_of,
}
use agentic_mesh.Prelude.Json.{Json, int, bool, str, arr, obj, Items, nil, cons, Fields, end, field}
use agentic_mesh.Flow.{
  FlowRoute, FlowState, FlowDefinition, overlapping_routes, unreachable_states, no_single_route,
  admits, route_matches, find_state, select_route, flow_state,
}
use agentic_mesh.Flow.Validate.{conditions_overlap, explore, check_flow, validate_flow}
use agentic_mesh.Flow.Routing.{conditions_overlap_iff}
use agentic_mesh.Flow.Reachability.{Reach}
use agentic_mesh.Flow.Exploration.{Linked, explore-Exact}
use agentic_mesh.Flow.Soundness.{IsValidFlow}
use agentic_mesh.Flow.Validity.{check_flow_iff, validate_flow-IsValid, select_route-decides}

abbrev one : String → Items
one s = cons (str s) nil

abbrev route_json : String → String → String → String → Items → Json
route_json id target role key values = obj (
    field "id" (str id) (
      field "outcome" (str "done") (
        field "target_state" (str target)
          (field "target_role" (str role) (field "when" (obj (field key (arr values) end)) end)))))

abbrev state : String → Bool → Items → Json
state owner terminal routes = obj (
    field "owner_role" (str owner) (
      field "purpose" (str "work") (
        field "artifact" (str "out/{work_item_id}.md")
          (field "routes" (arr routes) (field "terminal" (bool terminal) end)))))

abbrev flow_with : Items → Fields
flow_with routes = field "schema_version" (int 1) (
    field "flow_id" (str "delivery") (
      field "leader_role" (str "product") (
        field "entry_state" (str "build") (
          field "terminal_states" (arr (one "shipped")) (
            field "states"
              (obj (
                field "build" (state "developer" false routes)
                  (field "shipped" (state "release" true nil) end)))
              end)))))

abbrev low : Json
low = route_json "ship" "shipped" "release" "risk" (one "low")

abbrev high : Json
high = route_json "rework" "build" "developer" "risk" (one "high")

abbrev delivery : Fields
delivery = flow_with (cons low (cons high nil))

abbrev digest : String
digest = "00000000000000000000000000000000000000000000000000000000000000ff"

abbrev ship_route : FlowRoute
ship_route = record {
  route_id = "ship";
  outcome = "done";
  target_state = "shipped";
  target_role = "release";
  condition = some (record { field_name = "risk"; values = "low" ∷ [] });
}

abbrev rework_route : FlowRoute
rework_route = record {
  route_id = "rework";
  outcome = "done";
  target_state = "build";
  target_role = "developer";
  condition = some (record { field_name = "risk"; values = "high" ∷ [] });
}

abbrev build : FlowState
build = record {
  state_id = "build";
  owner_role = "developer";
  purpose = "work";
  artifact_path = "out/{work_item_id}.md";
  consults = [];
  gates = [];
  informs = [];
  routes = ship_route ∷ rework_route ∷ [];
  terminal = false;
}

abbrev shipped : FlowState
shipped = record {
  state_id = "shipped";
  owner_role = "release";
  purpose = "work";
  artifact_path = "out/{work_item_id}.md";
  consults = [];
  gates = [];
  informs = [];
  routes = [];
  terminal = true;
}

abbrev delivery_flow : FlowDefinition
delivery_flow = record {
  flow_id = "delivery";
  leader_role = "product";
  entry_state = "build";
  terminal_states = "shipped" ∷ [];
  states = build ∷ shipped ∷ [];
  snapshot = delivery;
  digest = digest;
}

delivery_validates : validate_flow delivery digest ≡ ok delivery_flow
unfolding validate_flow
delivery_validates = refl

abbrev also_low : Json
also_low = route_json "also" "build" "developer" "cost" (one "low")

overlap_refused :
    validate_flow (flow_with (cons low (cons also_low nil))) digest
    ≡ err (overlapping_routes "build" "ship" "also")
unfolding validate_flow
overlap_refused = refl

loop_refused : validate_flow (flow_with (cons high nil)) digest ≡ err unreachable_states
unfolding validate_flow
loop_refused = refl

abbrev risky : Fields
risky = field "risk" (str "high") end

rework_selected : select_route build "done" risky ≡ ok rework_route
unfolding select_route
rework_selected = refl

delivery-Linked : Linked delivery_flow.states "build"
unfolding find_state
delivery-Linked = record { entry_known = refl; targets_known = ((refl, (refl, tt)), (tt, tt)) }

explore-Exact_example :
    (r : List String) × (explore
        (suc (length delivery_flow.states))
        delivery_flow.states
        ("build" ∷ [], "build" ∷ [])
      ≡ ok r)
    × ((id : String) → (contains r id ≡ true) ↔ Reach delivery_flow.states "build" id)
explore-Exact_example = explore-Exact delivery_flow.states "build" delivery-Linked

check_flow_iff_example :
    (check_flow "build" ("shipped" ∷ []) delivery_flow.states ≡ ok tt)
    ↔ IsValidFlow "build" ("shipped" ∷ []) delivery_flow.states
check_flow_iff_example = check_flow_iff "build" ("shipped" ∷ []) delivery_flow.states

validate_flow-IsValid_example : IsValidFlow "build" ("shipped" ∷ []) delivery_flow.states
validate_flow-IsValid_example =
    validate_flow-IsValid delivery digest delivery_flow delivery_validates

build_found : flow_state delivery_flow "build" ≡ ok build
unfolding flow_state
build_found = refl

select_route-decides_example :
    ((any_of (route_matches "done" risky) build.routes ≡ false)
      × (select_route build "done" risky ≡ err (no_single_route "build" "done")))
    ⊎ ((r : FlowRoute) × (t : FlowState) × (select_route build "done" risky ≡ ok r)
        × Any (λ x. x ≡ r) build.routes
        × (route_matches "done" risky r ≡ true)
        × (flow_state delivery_flow r.target_state ≡ ok t)
        × (t.owner_role ≡ r.target_role))
select_route-decides_example =
    select_route-decides delivery digest delivery_flow "build" build "done" risky delivery_validates
      build_found

conditions_overlap_iff_example :
    (conditions_overlap ship_route.condition rework_route.condition ≡ true) ↔ (
      (fields : Fields) × (admits ship_route.condition fields ≡ true)
      × (admits rework_route.condition fields ≡ true))
conditions_overlap_iff_example =
    conditions_overlap_iff ship_route.condition rework_route.condition (λ e. cc) (λ e. cc)

-- ===== src/Flow/Validity.antt =====
-- `validate_flow` against IsValidFlow, and what that gives to the selection of routes.
use agentic_mesh.Prelude.{
  ap, String, true, false, List, [], ◌∷◌, ◌≡◌, ◌↔◌, ◌==◌, Bool-cases, ok, err, guard, Any, All,
  is_some, any_of, keep_if, >>-eq-ok, >>=-then, >>-then, ok-injective, subst, or_raise-ok, ◌⊎◌, inl,
  inr, guard-ok, All-Any, find_if-All,
}
use agentic_mesh.Prelude.Json.{Fields, get}
use agentic_mesh.Flow.{
  FlowRoute, FlowState, FlowDefinition, no_single_route, find_state, route_matches, exactly_one,
  select_route, flow_state,
}
use agentic_mesh.Flow.Parse.{identifier, string_list, read_states, read_digest}
use agentic_mesh.Flow.Validate.{
  for_each, check_state, same_set, state_ids, check_flow, equals_one, validate_flow,
}
use agentic_mesh.Flow.Reachability.{Reach, TargetsKnown}
use agentic_mesh.Flow.Exploration.{Linked, Reach-known, explore-Exact}
use agentic_mesh.Flow.Routing.{matching-single, matching-none}
use agentic_mesh.Flow.Soundness.{
  RouteFits, StateFits, IsValidFlow, check_state_iff, same_set_iff, All-ids, ids-All, known-ids,
  for_each_iff, reject_overlapping_iff,
}

fits-known :
    (states : List FlowState) (rs : List FlowRoute)
    → All (RouteFits states) rs
    → TargetsKnown states rs
fits-known states [] h = tt
fits-known states (r ∷ rs) ((t, e, _), h) = (ap is_some e, fits-known states rs h)

All-known :
    (states ss : List FlowState)
    → All (StateFits states) ss
    → All (λ s. TargetsKnown states s.routes) ss
All-known states [] h = tt
All-known states (s ∷ ss) h = (fits-known states s.routes h.0.targets, All-known states ss h.1)

module _ (entry : String) (terminals : List String) (states : List FlowState) where
  -- The checks of `validate_flow` on the states pass exactly for the valid flows.
  pub check_flow_iff :
      (check_flow entry terminals states ≡ ok tt) ↔ IsValidFlow entry terminals states
  unfolding check_flow
  check_flow_iff = (to, from)
    where
      terminal_ids : List String
      terminal_ids = state_ids (keep_if (λ s. s.terminal) states)

      each : (for_each (check_state states) states ≡ ok tt) ↔ All (StateFits states) states
      each = for_each_iff (check_state states) (StateFits states) (check_state_iff states) states

      to : check_flow entry terminals states ≡ ok tt → IsValidFlow entry terminals states
      to h =
          let (known, h₁) = >>-eq-ok (guard (is_some (find_state states entry)) _) _ h in
          let (ends, h₂) = >>-eq-ok (guard (same_set terminals terminal_ids) _) _ h₁ in
          let (checked, h₃) = >>-eq-ok (for_each (check_state states) states) _ h₂ in
          let linked : Linked states entry = record {
            entry_known = guard-ok _ _ known;
            targets_known = All-known states states (each.0 checked);
          } in
          let (r, runs, exact) = explore-Exact states entry linked in
          let covers : same_set r (state_ids states) ≡ true = guard-ok _ _ (rw runs at h₃) in
          record {
            entry_known = linked.entry_known;
            terminals_agree = (same_set_iff terminals terminal_ids).0 (guard-ok _ _ ends);
            states_fit = each.0 checked;
            all_reachable =
                All-ids (Reach states entry) states
                  (λ id k. (exact id).0 (((same_set_iff r (state_ids states)).0 covers id).1 k));
          }

      from : IsValidFlow entry terminals states → check_flow entry terminals states ≡ ok tt
      from v =
          let linked : Linked states entry = record {
            entry_known = v.entry_known;
            targets_known = All-known states states v.states_fit;
          } in
          let (r, runs, exact) = explore-Exact states entry linked in
          let covers : same_set r (state_ids states) ≡ true =
            (same_set_iff r (state_ids states)).1 (λ id. (
              λ k. known-ids states id (Reach-known states entry linked ((exact id).0 k)),
              λ k. (exact id).1 (ids-All (Reach states entry) states v.all_reachable id k),
            )) in
          rw (
            v.entry_known,
            (same_set_iff terminals terminal_ids).1 v.terminals_agree,
            each.1 v.states_fit,
            runs,
            covers,
          )

validate_flow-checked :
    (value : Fields) (digest : String) (flow : FlowDefinition)
    → validate_flow value digest ≡ ok flow
    → check_flow flow.entry_state flow.terminal_states flow.states ≡ ok tt
unfolding validate_flow
validate_flow-checked value digest flow h =
    >>-then (guard (equals_one (get value "schema_version")) _) _ h λ _ h₁.
      >>=-then (identifier (get value "flow_id") "flow_id") _ h₁ λ flow_id _ h₂.
        >>=-then (identifier (get value "leader_role") "leader_role") _ h₂ λ leader _ h₃.
          >>=-then (identifier (get value "entry_state") "entry_state") _ h₃ λ entry _ h₄.
            >>=-then (string_list (get value "terminal_states") "terminal_states") _ h₄ λ ends _ h₅.
              >>=-then (read_states (get value "states")) _ h₅ λ states _ h₆.
                >>-then (check_flow entry ends states) _ h₆ λ checked h₇.
                  >>=-then (read_digest digest) _ h₇ λ hash _ h₈.
                    subst
                      (λ (f : FlowDefinition).
                        check_flow f.entry_state f.terminal_states f.states ≡ ok tt)
                      (ok-injective h₈) checked

-- A flow that `validate_flow` returns is valid.
pub validate_flow-IsValid :
    (value : Fields) (digest : String) (flow : FlowDefinition)
    → validate_flow value digest ≡ ok flow
    → IsValidFlow flow.entry_state flow.terminal_states flow.states
validate_flow-IsValid value digest flow h =
    (check_flow_iff flow.entry_state flow.terminal_states flow.states).0
      (validate_flow-checked value digest flow h)

-- In a validated flow a state either has no route for an outcome, and `select_route` says so, or it
-- selects the one route that matches, whose target is a state of the flow with the owner that the
-- route names.
pub select_route-decides :
    (value : Fields) (digest : String) (flow : FlowDefinition) (id : String) (s : FlowState)
    (outcome : String) (fields : Fields)
    → validate_flow value digest ≡ ok flow
    → flow_state flow id ≡ ok s
    → ((any_of (route_matches outcome fields) s.routes ≡ false)
        × (select_route s outcome fields ≡ err (no_single_route s.state_id outcome)))
      ⊎ ((r : FlowRoute) × (t : FlowState) × (select_route s outcome fields ≡ ok r)
          × Any (λ x. x ≡ r) s.routes
          × (route_matches outcome fields r ≡ true)
          × (flow_state flow r.target_state ≡ ok t)
          × (t.owner_role ≡ r.target_role))
unfolding select_route flow_state exactly_one find_state
select_route-decides value digest flow id s outcome fields h k =
    let valid = validate_flow-IsValid value digest flow h in
    let found = or_raise-ok (find_state flow.states id) _ k in
    let fits : StateFits flow.states s =
      find_if-All (λ x. x.state_id == id) (StateFits flow.states) flow.states s valid.states_fit
        found in
    let apart = (reject_overlapping_iff s.state_id s.routes).1 fits.exclusive in
    elim (Bool-cases (any_of (route_matches outcome fields) s.routes)) [
      | inr nothing ↦ inl (nothing, rw (matching-none s.state_id outcome fields s.routes nothing))
      | inl something ↦
          let (r, single, among, m) =
            matching-single s.state_id outcome fields s.routes apart something in
          let (t, target, owner) = All-Any (RouteFits flow.states) s.routes r fits.targets among in
          inr (r, t, rw single, among, m, rw target, owner)
    ]

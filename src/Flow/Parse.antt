-- ===== src/Flow/Parse.antt =====
-- flow_definition.py: reading states, actions, routes and conditions from JSON, lines 172-283.
use Prim.Native.String.{◌++◌ as append_text}
use text.Mathlib.Text.{starts_with}
use agentic_mesh.Prelude.Sets.{has_duplicates}
use agentic_mesh.Prelude.{
  ℕ, ◌+◌, String, Bool, Option, none, some, List, [], ◌∷◌, ◌++◌, map, ◌==◌, ◌&&◌, ◌||◌, not, ltb,
  leb, eqb, if◌then◌else◌, is_some, Result, ok, err, ◌>>=◌, ◌>>◌, guard,
}
use agentic_mesh.Prelude.Text.{decimal, strip, len, is_slug, all_chars}
use agentic_mesh.Prelude.Json.{
  Json, null, bool, str, arr, obj, cons, Fields, end, field, get, items, entries,
}
use agentic_mesh.Flow.{
  FlowError, invalid, not_an_array, not_an_object, not_unique, invalid_artifact,
  duplicate_action_ids, terminal_not_boolean, ambiguous_role_key, condition_not_single,
  invalid_digest, Condition, ActionKind, artifact, consult, gate, inform, FlowAction, FlowRoute,
  FlowState,
}

abbrev Parsed {ℓ} : Type ℓ → Type ℓ
Parsed A = Result FlowError A

-- _identifier; an absent key is None
unfoldable pub identifier : Option Json → String → Parsed String
unfolding is_slug
identifier (some (str s)) label = if is_slug s then ok s else err (invalid label)
identifier _ label = err (invalid label)

-- _required
unfoldable pub required : Option Json → String → Parsed String
unfolding strip len
required (some (str s)) label =
    if (strip s == "") || ltb 4000 (len s) then err (invalid label) else ok (strip s)
required _ label = err (invalid label)

-- [f(x) for x in xs], stopping at the first exception
unfoldable pub collect {ℓ κ} : {A : Type ℓ} {B : Type κ} → (A → Parsed B) → List A → Parsed (List B)
collect f [] = ok []
collect f (x ∷ xs) = do y ← f x; ys ← collect f xs; ok (y ∷ ys)

-- _string_list
unfoldable pub string_list : Option Json → String → Parsed (List String)
unfolding collect identifier has_duplicates items
string_list (some (arr (cons x xs))) label = do
  values ← collect (λ v. identifier (some v) label) (x ∷ items xs)
  guard (not (has_duplicates values)) (not_unique label)
  ok values
string_list _ label = err (not_an_array label)

-- _condition
unfoldable pub read_condition : Option Json → Parsed (Option Condition)
unfolding identifier string_list
read_condition none = ok none
read_condition (some null) = ok none
read_condition (some (obj (field key values end))) = do
  name ← identifier (some (str key)) "condition field"
  vs ← string_list (some values) "condition values"
  ok (some (record { field_name = name; values = vs }))
read_condition _ = err condition_not_single

read_route : Json → Parsed FlowRoute
unfolding identifier read_condition
read_route (obj m) = do
  route_id ← identifier (get m "id") "route_id"
  outcome ← identifier (get m "outcome") "outcome"
  target_state ← identifier (get m "target_state") "target_state"
  target_role ← identifier (get m "target_role") "target_role"
  condition ← read_condition (get m "when")
  ok (record {
    route_id = route_id;
    outcome = outcome;
    target_state = target_state;
    target_role = target_role;
    condition = condition;
  })
read_route _ = err (not_an_object "route")

-- `value.get(key, [])` where the value must be an array
json_list : Option Json → String → Parsed (List Json)
unfolding items
json_list none label = ok []
json_list (some (arr xs)) label = ok (items xs)
json_list (some _) label = err (not_an_array label)

-- _routes
unfoldable pub read_routes : Option Json → Parsed (List FlowRoute)
unfolding json_list collect read_route
read_routes value = do xs ← json_list value "routes"; collect read_route xs

abbrev kind_name : ActionKind → String
kind_name artifact = "artifact"
kind_name consult = "consult"
kind_name gate = "gate"
kind_name inform = "inform"

-- the key of a raw action that names its role
role_key : ActionKind → Fields → Parsed String
unfolding get
role_key gate m =
    if is_some (get m "reviewer_role") && is_some (get m "requested_from")
    then err ambiguous_role_key
    else if is_some (get m "requested_from")
    then ok "requested_from"
    else ok "reviewer_role"
role_key _ m = ok "role"

-- raw.get(key, default)
get_default : Fields → String → String → Option Json
get_default m key default = elim (get m key) [ none ↦ some (str default) | some v ↦ some v ]

-- {key: item for key, item in raw.items() if key != "when"}
without_when : Fields → Fields
without_when end = end
without_when (field k v m) =
    let rest = without_when m in if k == "when" then rest else field k v rest

-- one round of the loop of _actions; `number` is index + 1, of fewer than 30 digits
read_action : ActionKind → String → ℕ → Json → Parsed FlowAction
unfolding role_key get_default identifier decimal without_when read_condition
read_action kind owner number (obj m) = do
  key ← role_key kind m
  role ← identifier (get_default m key owner) key
  action_id ←
      identifier
        (get_default m "id" (append_text (kind_name kind) (append_text "-" (decimal 30 number))))
        (append_text (kind_name kind) "_id")
  condition ← read_condition (get m "when")
  ok (record {
    action_id = action_id;
    kind = kind;
    role_id = role;
    payload = without_when m;
    condition = condition;
  })
read_action kind owner number _ = err (not_an_object (kind_name kind))

read_actions_from : ActionKind → String → ℕ → List Json → Parsed (List FlowAction)
unfolding read_action
read_actions_from kind owner number [] = ok []
read_actions_from kind owner number (x ∷ xs) = do
  a ← read_action kind owner number x
  rest ← read_actions_from kind owner (number + 1) xs
  ok (a ∷ rest)

-- _actions
unfoldable pub read_actions : Option Json → ActionKind → String → Parsed (List FlowAction)
unfolding json_list read_actions_from
read_actions value kind owner = do
  xs ← json_list value (append_text (kind_name kind) "s")
  read_actions_from kind owner 1 xs

-- `needle in s`
has_substring : String → String → Bool
has_substring needle String.[] = needle == ""
has_substring needle (String.◌∷◌ c s) =
    starts_with (String.◌∷◌ c s) needle || has_substring needle s

read_flag : Option Json → String → Parsed Bool
read_flag (some (bool b)) state_id = ok b
read_flag _ state_id = err (terminal_not_boolean state_id)

-- _state
unfoldable pub read_state : String → Json → Parsed FlowState
unfolding identifier required read_actions read_routes has_substring has_duplicates read_flag
read_state state_id (obj m) = do
  owner ← identifier (get m "owner_role") "owner_role"
  purpose ← required (get m "purpose") "purpose"
  path ← required (get m "artifact") "artifact"
  guard (has_substring "{work_item_id}" path && not (starts_with path "/" || starts_with path "\\"))
      (invalid_artifact state_id)
  consults ← read_actions (get m "consults") consult owner
  gates ← read_actions (get m "gates") gate owner
  informs ← read_actions (get m "informs") inform owner
  routes ← read_routes (get m "routes")
  guard
      (not (
        has_duplicates (
          "artifact"
          ∷ (map (λ a. a.action_id) (consults ++ (gates ++ informs))
              ++ map (λ r. r.route_id) routes))))
      (duplicate_action_ids state_id)
  terminal ← read_flag (get m "terminal") state_id
  ok (record {
    state_id = state_id;
    owner_role = owner;
    purpose = purpose;
    artifact_path = path;
    consults = consults;
    gates = gates;
    informs = informs;
    routes = routes;
    terminal = terminal;
  })
read_state state_id _ = err (not_an_object state_id)

-- one entry of the dictionary comprehension over `raw_states.items()`
read_entry : String × Json → Parsed FlowState
unfolding identifier read_state
read_entry (key, raw) = do
  state_id ← identifier (some (str key)) "state_id"
  read_state state_id raw

-- the states of a flow; a missing, empty or other value is refused
unfoldable pub read_states : Option Json → Parsed (List FlowState)
unfolding collect read_entry entries
read_states (some (obj (field k v m))) = collect read_entry ((k, v) ∷ entries m)
read_states _ = err FlowError.states_required

is_hex : ℕ → Bool
is_hex c = (leb b'0' c && leb c b'9') || (leb b'a' c && leb c b'f')

-- _digest: [0-9a-f]{64}
unfoldable pub read_digest : String → Parsed String
unfolding is_hex all_chars len
read_digest s = if all_chars is_hex s && eqb (len s) 64 then ok s else err invalid_digest

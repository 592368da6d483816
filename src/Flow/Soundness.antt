-- ===== src/Flow/Soundness.antt =====
-- The checks of `validate_flow` against what they are for: which flows pass, and why.
use agentic_mesh.Prelude.Sets.{contains}
use agentic_mesh.Prelude.{
  String, Bool, true, false, some, List, [], ◌∷◌, ◌≡◌, ◌≢◌, refl, ◌↔◌, inl, inr, ◌==◌, ◌&&◌, ◌||◌,
  not, arith, eq_iff, Bool-cases, Option-cases, Result, ok, guard, All, is_some, any_of, all_of,
  keep_if, >>-eq-ok, guard-ok, &&-true, subst,
}
use agentic_mesh.Flow.{FlowError, FlowRoute, FlowState, find_state, overlapping_routes}
use agentic_mesh.Flow.Validate.{
  routes_overlap, for_each, reject_overlapping, check_route, is_empty, check_state, same_set,
  state_ids,
}
use agentic_mesh.Flow.Reachability.{Reach}

-- No two of the routes overlap.
abbrev pub Exclusive : List FlowRoute → Type 0
Exclusive [] = Unit {0}
Exclusive (r ∷ rest) = All (λ o. routes_overlap r o ≡ false) rest × Exclusive rest

-- The route leads to a state that has the owner which the route names.
abbrev pub RouteFits : List FlowState → FlowRoute → Type 0
RouteFits states r =
    (t : FlowState) × (find_state states r.target_state ≡ some t) × (t.owner_role ≡ r.target_role)

pub record StateFits (states : List FlowState) (s : FlowState) : Type 0 where
  pub terminal_ends : s.terminal ≡ true → s.routes ≡ []
  pub others_go_on : s.terminal ≡ false → s.routes ≢ []
  pub targets : All (RouteFits states) s.routes
  pub exclusive : Exclusive s.routes

-- A flow as its author means it.
pub record IsValidFlow (entry : String) (terminals : List String) (states : List FlowState)
    : Type 0 where
  pub entry_known : is_some (find_state states entry) ≡ true
  pub terminals_agree :
      (id : String)
      → (contains terminals id ≡ true)
        ↔ (contains (state_ids (keep_if (λ s. s.terminal) states)) id ≡ true)
  pub states_fit : All (StateFits states) states
  pub all_reachable : All (λ s. Reach states entry s.state_id) states

-- `for x in xs: check(x)` passes exactly when each check does.
pub for_each_iff {ℓ κ} :
    {A : Type ℓ} (check : A → Result FlowError (Unit {0})) (P : A → Type κ)
    → ((x : A) → (check x ≡ ok tt) ↔ P x)
    → (xs : List A) → (for_each check xs ≡ ok tt) ↔ All P xs
unfolding for_each
for_each_iff check P each [] = (λ h. tt, λ h. refl)
for_each_iff check P each (x ∷ xs) = (
  λ h.
      let (first, later) = >>-eq-ok (check x) (for_each check xs) h in
      ((each x).0 first, (for_each_iff check P each xs).0 later),
  λ h. rw ((each x).1 h.0) ((for_each_iff check P each xs).1 h.1),
)

guard_iff {ℓ} : {E : Type ℓ} (b : Bool) (e : E) → (guard b e ≡ ok tt) ↔ (b ≡ true)
guard_iff b e = (guard-ok b e, λ h. rw h)

guard-not_iff {ℓ} : {E : Type ℓ} (b : Bool) (e : E) → (guard (not b) e ≡ ok tt) ↔ (b ≡ false)
guard-not_iff true e = (λ h. cc, λ h. cc)
guard-not_iff false e = (λ h. refl, λ h. refl)

pub reject_overlapping_iff :
    (state : String) (rs : List FlowRoute) → (reject_overlapping state rs ≡ ok tt) ↔ Exclusive rs
unfolding reject_overlapping
reject_overlapping_iff state [] = (λ h. tt, λ h. refl)
reject_overlapping_iff state (r ∷ rest) =
    let each =
      for_each_iff
        (λ o. guard (not (routes_overlap r o)) (overlapping_routes state r.route_id o.route_id))
        (λ o. routes_overlap r o ≡ false) (λ o. guard-not_iff (routes_overlap r o) _) rest in
    (
      λ h.
          let (first, later) = >>-eq-ok (for_each _ rest) (reject_overlapping state rest) h in
          (each.0 first, (reject_overlapping_iff state rest).0 later),
      λ h. rw (each.1 h.0) ((reject_overlapping_iff state rest).1 h.1),
    )

check_route_iff :
    (states : List FlowState) (r : FlowRoute) → (check_route states r ≡ ok tt) ↔ RouteFits states r
unfolding check_route
check_route_iff states r = elim (Option-cases (find_state states r.target_state)) [
  | inl e ↦ (λ h. cc (rw (e, check_route) at h), λ (t, found, _). cc)
  | inr (t, e) ↦ (
    λ h. (t, e, (eq_iff t.owner_role r.target_role).0 (ground arith)),
    λ (u, found, owner). ground (arith, (eq_iff u.owner_role r.target_role).1 owner),
  )
]

is_empty_iff {ℓ} : {A : Type ℓ} (xs : List A) → (is_empty xs ≡ true) ↔ (xs ≡ [])
is_empty_iff [] = (λ h. refl, λ h. refl)
is_empty_iff (x ∷ xs) = (λ h. cc, λ h. cc)

pub check_state_iff :
    (states : List FlowState) (s : FlowState) → (check_state states s ≡ ok tt) ↔ StateFits states s
unfolding check_state
check_state_iff states s =
    let empty = is_empty_iff s.routes in
    let targets =
      for_each_iff (check_route states) (RouteFits states) (check_route_iff states) s.routes in
    let apart = reject_overlapping_iff s.state_id s.routes in
    (
      λ h.
          let (ends, h₁) = >>-eq-ok (guard (not (s.terminal && not (is_empty s.routes))) _) _ h in
          let (goes_on, h₂) = >>-eq-ok (guard (s.terminal || not (is_empty s.routes)) _) _ h₁ in
          let (fits, h₃) = >>-eq-ok (for_each (check_route states) s.routes) _ h₂ in
          record {
            terminal_ends = λ t. empty.0 (ground arith);
            others_go_on = λ t e. ground (arith, empty.1 e);
            targets = targets.0 fits;
            exclusive = apart.0 h₃;
          },
      λ v.
          let ends : (not (s.terminal && not (is_empty s.routes))) ≡ true =
            elim (Bool-cases s.terminal) [
              | inl t ↦ ground (arith, empty.1 (v.terminal_ends t))
              | inr f ↦ rw f
            ] in
          let goes_on : (s.terminal || not (is_empty s.routes)) ≡ true =
            elim (Bool-cases s.terminal) [
              | inl t ↦ rw t
              | inr f ↦ elim (Bool-cases (is_empty s.routes)) [
                | inl e ↦ absurd (v.others_go_on f (empty.0 e))
                | inr e ↦ rw (f, e)
              ]
            ] in
          rw (ends, goes_on, targets.1 v.targets) (apart.1 v.exclusive),
    )

subset_iff :
    (xs ys : List String)
    → (all_of (contains ys) xs ≡ true)
      ↔ ((id : String) → contains xs id ≡ true → contains ys id ≡ true)
unfolding all_of contains any_of
subset_iff [] ys = (λ h id k. cc, λ h. refl)
subset_iff (x ∷ xs) ys =
    let later = subset_iff xs ys in
    (
      λ h id k.
          let (first, rest) = &&-true (contains ys x) (all_of (contains ys) xs) h in
          elim (Bool-cases (x == id)) [
            | inl e ↦ subst (λ j. contains ys j ≡ true) ((eq_iff x id).0 e) first
            | inr e ↦ later.0 rest id (ground arith)
          ],
      λ h.
          let first : contains ys x ≡ true = h x (ground (arith, (eq_iff x x).1 refl)) in
          let rest = later.1 (λ id k. h id (ground arith)) in ground (arith, first, rest),
    )

pub same_set_iff :
    (xs ys : List String)
    → (same_set xs ys ≡ true) ↔ ((id : String) → (contains xs id ≡ true) ↔ (contains ys id ≡ true))
unfolding same_set
same_set_iff xs ys =
    let to = subset_iff xs ys in
    let from = subset_iff ys xs in
    (
      λ h id.
          let (a, b) = &&-true (all_of (contains ys) xs) (all_of (contains xs) ys) h in
          (to.0 a id, from.0 b id),
      λ h. rw (to.1 (λ id. (h id).0), from.1 (λ id. (h id).1)),
    )

pub All-ids {κ} :
    (P : String → Type κ) (states : List FlowState)
    → ((id : String) → contains (state_ids states) id ≡ true → P id)
    → All (λ s. P s.state_id) states
unfolding contains any_of
All-ids P [] h = tt
All-ids P (s ∷ states) h = (
  h s.state_id (ground (arith, (eq_iff s.state_id s.state_id).1 refl)),
  All-ids P states (λ id k. h id (ground arith)),
)

pub ids-All {κ} :
    (P : String → Type κ) (states : List FlowState)
    → All (λ s. P s.state_id) states
    → (id : String) → contains (state_ids states) id ≡ true
    → P id
unfolding contains any_of
ids-All P [] h id k = cc
ids-All P (s ∷ states) h id k = elim (Bool-cases (s.state_id == id)) [
  | inl e ↦ subst P ((eq_iff s.state_id id).0 e) h.0
  | inr e ↦ ids-All P states h.1 id (ground arith)
]

pub known-ids :
    (states : List FlowState) (id : String)
    → is_some (find_state states id) ≡ true
    → contains (state_ids states) id ≡ true
unfolding find_state contains any_of
known-ids [] id h = cc
known-ids (s ∷ states) id h = ground (arith, known-ids states id)

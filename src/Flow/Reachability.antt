-- ===== src/Flow/Reachability.antt =====
-- The worklist of `validate_flow` and an inductive definition of reachability.
use agentic_mesh.Prelude.Sets.{contains}
use agentic_mesh.Prelude.{
  ℕ, ◌+◌, ◌≤◌, ◌<◌, String, true, false, some, List, [], ◌∷◌, ◌≡◌, refl, ◌⊎◌, inl, inr, ◌==◌, ◌||◌,
  arith, eq_iff, any_of, count_if, Bool-cases, Any, here, there, subst, ap, ◌&&◌, not, length,
  count_if-le-length, All, is_some,
}
use agentic_mesh.Flow.{FlowRoute, FlowState, find_state}
use agentic_mesh.Flow.Validate.{add_target, push_targets}

-- Routes lead from the state `entry` to the state with this identifier.
pub data Reach (states : List FlowState) (entry : String) : String → Type 0 where
  start : Reach states entry entry
  follow :
      {id : String} (s : FlowState) (r : FlowRoute)
      → Reach states entry id
      → find_state states id ≡ some s
      → Any (λ x. x ≡ r) s.routes
      → Reach states entry r.target_state

-- Every route of every state has a target among the states.
abbrev pub TargetsKnown : List FlowState → List FlowRoute → Type 0
TargetsKnown states rs = All (λ r. is_some (find_state states r.target_state) ≡ true) rs

-- the states that are not found yet
unfoldable pub unseen : List FlowState → List String → ℕ
unfolding count_if
unseen states reachable = count_if (λ s. not (contains reachable s.state_id)) states

contains-cons :
    (xs : List String) (x a : String) → contains (x ∷ xs) a ≡ ((x == a) || contains xs a)
unfolding contains any_of
contains-cons xs x a = refl

pub unseen-le :
    (states : List FlowState) (reachable : List String) (id : String)
    → unseen states (id ∷ reachable) ≤ unseen states reachable
unfolding unseen contains any_of
unseen-le [] reachable id = omega arith
unseen-le (s ∷ states) reachable id = ground (arith, unseen-le states reachable id)

contains-eq : (xs : List String) (t id : String) → (t == id) ≡ true → contains xs t ≡ contains xs id
contains-eq xs t id h = ap (contains xs) ((eq_iff t id).0 h)

-- A new identifier of a state leaves fewer states unseen.
unseen-lt :
    (states : List FlowState) (reachable : List String) (id : String)
    → contains reachable id ≡ false
    → is_some (find_state states id) ≡ true
    → unseen states (id ∷ reachable) < unseen states reachable
unfolding unseen find_state
unseen-lt [] reachable id h k = cc
unseen-lt (s ∷ states) reachable id h k = elim (Bool-cases (s.state_id == id)) [
  | inl e ↦
      let p : s.state_id ≡ id = (eq_iff s.state_id id).0 e in
      let old : contains reachable s.state_id ≡ false = rw p h in
      ground (
        arith,
        old,
        contains-cons reachable id s.state_id,
        eq_iff id s.state_id,
        unseen-le states reachable id,
      )
  | inr e ↦
      let fewer = unseen-lt states reachable id h (ground arith) in
      ground (arith, fewer, contains-cons reachable id s.state_id)
]

pub unseen-entry :
    (states : List FlowState) (entry : String)
    → is_some (find_state states entry) ≡ true
    → unseen states (entry ∷ []) < length states
unfolding unseen contains any_of
unseen-entry states entry known = omega (
  arith,
  unseen-lt states [] entry refl known,
  count_if-le-length (λ s. not (contains [] s.state_id)) states,
)

-- The stack of pending states, and how much work is left.
abbrev pub work : List FlowState → List String × List String → ℕ
work states (reachable, pending) = unseen states reachable + length pending

add_target-work :
    (states : List FlowState) (t : String) (found : List String × List String)
    → is_some (find_state states t) ≡ true
    → work states (add_target t found) ≤ work states found
unfolding add_target
add_target-work states t (reachable, pending) known = ground (arith, unseen-lt states reachable t)

pub push_targets-work :
    (states : List FlowState) (rs : List FlowRoute) (found : List String × List String)
    → TargetsKnown states rs
    → work states (push_targets rs found) ≤ work states found
unfolding push_targets
push_targets-work states [] found known = omega arith
push_targets-work states (r ∷ rs) found known = omega (
  arith,
  push_targets-work states rs (add_target r.target_state found) known.1,
  add_target-work states r.target_state found known.0,
)

module _ (t : String) (found : List String × List String) (id : String) where
  seen-add_target : contains (add_target t found).0 id ≡ ((t == id) || contains found.0 id)
  unfolding add_target
  seen-add_target = ground (arith, contains-cons found.0 t id, contains-eq found.0 t id)

  pending-add_target :
      contains (add_target t found).1 id
      ≡ ((not (contains found.0 t) && (t == id)) || contains found.1 id)
  unfolding add_target
  pending-add_target = ground (arith, contains-cons found.1 t id)

-- What the inner loop does to the two lists.
module _ (id : String) where
  pub push_targets-grows :
      (rs : List FlowRoute) (found : List String × List String)
      → contains found.0 id ≡ true
      → contains (push_targets rs found).0 id ≡ true
  unfolding push_targets
  push_targets-grows [] found h = h
  push_targets-grows (r ∷ rs) found h =
      push_targets-grows rs (add_target r.target_state found)
        (ground (arith, seen-add_target r.target_state found id))

  pub push_targets-keeps_pending :
      (rs : List FlowRoute) (found : List String × List String)
      → contains found.1 id ≡ true
      → contains (push_targets rs found).1 id ≡ true
  unfolding push_targets
  push_targets-keeps_pending [] found h = h
  push_targets-keeps_pending (r ∷ rs) found h =
      push_targets-keeps_pending rs (add_target r.target_state found)
        (ground (arith, pending-add_target r.target_state found id))

  -- What was not there before is pending, and is the target of one of the routes.
  pub push_targets-new :
      (rs : List FlowRoute) (found : List String × List String)
      → contains (push_targets rs found).0 id ≡ true
      → (contains found.0 id ≡ true)
        ⊎ ((contains (push_targets rs found).1 id ≡ true)
            × ((r : FlowRoute) × Any (λ x. x ≡ r) rs × (r.target_state ≡ id)))
  unfolding push_targets
  push_targets-new [] found h = inl h
  push_targets-new (r ∷ rs) found h =
      elim (push_targets-new rs (add_target r.target_state found) h) [
        | inr (waits, (r', among, e)) ↦ inr (waits, (r', there among, e))
        | inl added ↦ elim (Bool-cases (contains found.0 id)) [
          | inl old ↦ inl old
          | inr new ↦
              let same : (r.target_state == id) ≡ true =
                ground (arith, seen-add_target r.target_state found id) in
              let waits : contains (add_target r.target_state found).1 id ≡ true = ground (
                arith,
                pending-add_target r.target_state found id,
                contains-eq found.0 r.target_state id,
              ) in
              inr (
                push_targets-keeps_pending rs (add_target r.target_state found) waits,
                (r, here refl, (eq_iff r.target_state id).0 same),
              )
        ]
      ]

pub push_targets-adds :
    (rs : List FlowRoute) (found : List String × List String) (r : FlowRoute)
    → Any (λ x. x ≡ r) rs
    → contains (push_targets rs found).0 r.target_state ≡ true
unfolding push_targets
push_targets-adds [] found r m = elim m [ ]
push_targets-adds (x ∷ rs) found r (here e) =
    let first = seen-add_target x.target_state found x.target_state in
    subst
      (λ (y : FlowRoute).
        contains (push_targets rs (add_target x.target_state found)).0 y.target_state ≡ true)
      e
      (push_targets-grows x.target_state rs (add_target x.target_state found)
        (ground (arith, first, (eq_iff x.target_state x.target_state).1 refl)))
push_targets-adds (x ∷ rs) found r (there m) =
    push_targets-adds rs (add_target x.target_state found) r m

pub push_targets-pending_seen :
    (rs : List FlowRoute) (found : List String × List String)
    → ((id : String) → contains found.1 id ≡ true → contains found.0 id ≡ true)
    → (id : String) → contains (push_targets rs found).1 id ≡ true
    → contains (push_targets rs found).0 id ≡ true
unfolding push_targets
push_targets-pending_seen [] found h id k = h id k
push_targets-pending_seen (r ∷ rs) found h id k =
    push_targets-pending_seen rs (add_target r.target_state found)
      (λ j w. ground (
        arith,
        h j,
        seen-add_target r.target_state found j,
        pending-add_target r.target_state found j,
      ))
      id k

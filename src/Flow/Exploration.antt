-- ===== src/Flow/Exploration.antt =====
-- The loop of `validate_flow` over the pending states: its invariant, its end within the fuel, and
-- what it computes.
use agentic_mesh.Prelude.Sets.{contains}
use agentic_mesh.Prelude.{
  ℕ, zero, suc, ◌<◌, String, true, Option, some, List, [], ◌∷◌, ◌≡◌, refl, ◌↔◌, ◌⊎◌, inl, inr, ◌==◌,
  arith, eq_iff, Bool-cases, Option-cases, ok, Any, sym, subst, All, is_some, length, find_if-All,
  All-Any, any_of, ap,
}
use agentic_mesh.Flow.{FlowRoute, FlowState, find_state}
use agentic_mesh.Flow.Validate.{push_targets, explore}
use agentic_mesh.Flow.Reachability.{
  Reach, start, follow, TargetsKnown, work, unseen-entry, push_targets-work, push_targets-grows,
  push_targets-keeps_pending, push_targets-new, push_targets-adds, push_targets-pending_seen,
}

-- What the checks before the loop give: the entry and every target are states.
pub record Linked (states : List FlowState) (entry : String) : Type 0 where
  pub entry_known : is_some (find_state states entry) ≡ true
  pub targets_known : All (λ s. TargetsKnown states s.routes) states

contains_self : (id : String) (xs : List String) → contains (id ∷ xs) id ≡ true
unfolding contains any_of
contains_self id xs = ground (arith, (eq_iff id id).1 refl)

module _ (states : List FlowState) (entry : String) (linked : Linked states entry) where
  state_targets :
      (id : String) (s : FlowState) → find_state states id ≡ some s → TargetsKnown states s.routes
  unfolding find_state
  state_targets id s e =
      find_if-All (λ x. x.state_id == id) (λ x. TargetsKnown states x.routes) states s
        linked.targets_known e

  -- Only states are reached.
  pub Reach-known : {id : String} → Reach states entry id → is_some (find_state states id) ≡ true
  Reach-known start = linked.entry_known
  Reach-known (follow {id = id} s r before e m) = All-Any _ s.routes r (state_targets id s e) m

  -- every route of the state leads to a state that has been found
  abbrev Covered : List String → String → Type 0
  Covered reachable id =
      (s : FlowState) (r : FlowRoute)
      → find_state states id ≡ some s
      → Any (λ x. x ≡ r) s.routes
      → contains reachable r.target_state ≡ true

  record Inv (found : List String × List String) : Type 0 where
    sound : (id : String) → contains found.0 id ≡ true → Reach states entry id
    pending_seen : (id : String) → contains found.1 id ≡ true → contains found.0 id ≡ true
    covered :
        (id : String)
        → contains found.0 id ≡ true
        → (contains found.1 id ≡ true) ⊎ Covered found.0 id
    entry_seen : contains found.0 entry ≡ true

  Covered-after :
      (id : String) (s : FlowState) (reachable pending : List String)
      → find_state states id ≡ some s
      → Inv (reachable, id ∷ pending)
      → (j : String) → contains (push_targets s.routes (reachable, pending)).0 j ≡ true
      → (contains (push_targets s.routes (reachable, pending)).1 j ≡ true)
        ⊎ Covered (push_targets s.routes (reachable, pending)).0 j
  unfolding contains any_of
  Covered-after id s reachable pending e v j h =
      elim (push_targets-new j s.routes (reachable, pending) h) [
        | inr (waits, _) ↦ inl waits
        | inl old ↦ elim (v.covered j old) [
          | inr c ↦ inr λ s' r e' m.
              push_targets-grows r.target_state s.routes (reachable, pending) (c s' r e' m)
          | inl waits ↦ elim (Bool-cases (id == j)) [
            | inr other ↦
                inl (push_targets-keeps_pending j s.routes (reachable, pending) (ground arith))
            | inl same ↦ inr λ s' r e' m.
                let p : s ≡ s' = cc (ap (find_state states) ((eq_iff id j).0 same)) in
                push_targets-adds s.routes (reachable, pending) r
                  (subst (λ (x : FlowState). Any (λ y. y ≡ r) x.routes) (sym p) m)
          ]
        ]
      ]

  push_targets-Inv :
      (id : String) (s : FlowState) (reachable pending : List String)
      → find_state states id ≡ some s
      → Inv (reachable, id ∷ pending)
      → Inv (push_targets s.routes (reachable, pending))
  unfolding contains any_of
  push_targets-Inv id s reachable pending e v = record {
    sound = λ j h. elim (push_targets-new j s.routes (reachable, pending) h) [
      | inl old ↦ v.sound j old
      | inr (waits, (r, among, p)) ↦
          subst (Reach states entry) p
            (follow s r (v.sound id (v.pending_seen id (contains_self id pending))) e among)
    ];
    pending_seen =
        push_targets-pending_seen s.routes (reachable, pending)
          (λ j h. v.pending_seen j (ground arith));
    covered = Covered-after id s reachable pending e v;
    entry_seen = push_targets-grows entry s.routes (reachable, pending) v.entry_seen;
  }

  abbrev Exact : List String → Type 0
  Exact r = (id : String) → (contains r id ≡ true) ↔ Reach states entry id

  -- With nothing pending, whatever is reachable has been found.
  Inv-complete :
      (reachable : List String)
      → Inv (reachable, [])
      → {id : String} → Reach states entry id
      → contains reachable id ≡ true
  unfolding contains any_of
  Inv-complete reachable v start = v.entry_seen
  Inv-complete reachable v (follow {id = id} s r before e m) =
      elim (v.covered id (Inv-complete reachable v before)) [ inl waits ↦ cc | inr c ↦ c s r e m ]

  explore_from :
      (fuel : ℕ) (found : List String × List String)
      → work states found < fuel
      → Inv found
      → (r : List String) × (explore fuel states found ≡ ok r) × Exact r
  unfolding explore
  explore_from zero found h v = elim h [ ]
  explore_from (suc fuel) (reachable, []) h v =
      (reachable, refl, λ id. (v.sound id, Inv-complete reachable v))
  explore_from (suc fuel) (reachable, id ∷ pending) h v =
      elim (Option-cases (find_state states id)) [
        | inl e ↦
            let waits = v.pending_seen id (contains_self id pending) in
            cc (Reach-known (v.sound id waits), ap (λ (o : Option FlowState). is_some o) e)
        | inr (s, e) ↦
            let less =
              push_targets-work states s.routes (reachable, pending) (state_targets id s e) in
            let (r, runs, exact) =
              explore_from fuel (push_targets s.routes (reachable, pending)) (omega (arith, less))
                (push_targets-Inv id s reachable pending e v) in
            (r, rw (e, explore) runs, exact)
      ]

  initial-Inv : Inv (entry ∷ [], entry ∷ [])
  unfolding contains any_of
  initial-Inv = record {
    sound = λ id h. subst (Reach states entry) ((eq_iff entry id).0 (ground arith)) start;
    pending_seen = λ id h. h;
    covered = λ id h. inl h;
    entry_seen = contains_self entry [];
  }

  -- For a known entry and known targets: with one unit of fuel more than there are states, the loop
  -- ends, and returns exactly the states that routes lead to from the entry.
  pub explore-Exact :
      (r : List String) × (explore (suc (length states)) states (entry ∷ [], entry ∷ []) ≡ ok r)
      × ((id : String) → (contains r id ≡ true) ↔ Reach states entry id)
  explore-Exact = explore_from (suc (length states)) (entry ∷ [], entry ∷ []) enough initial-Inv
    where
      enough : work states (entry ∷ [], entry ∷ []) < suc (length states)
      enough = omega (arith, unseen-entry states entry linked.entry_known)

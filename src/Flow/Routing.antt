-- ===== src/Flow/Routing.antt =====
-- What `_conditions_overlap` and `_reject_overlapping_routes` mean for the routes that match.
use agentic_mesh.Prelude.Sets.{contains}
use agentic_mesh.Prelude.{
  String, true, false, Option, none, some, List, [], ◌∷◌, ◌≡◌, ◌≢◌, refl, ◌↔◌, inl, inr, ◌==◌,
  arith, eq_iff, any_of, keep_if, Bool-cases, &&-true, ok, Any, here, there, sym, ◌∙◌, guard, not,
  subst, >>-eq-ok, guard-ok, not-true,
}
use agentic_mesh.Prelude.Json.{Json, Fields, end, field, get, str}
use agentic_mesh.Flow.{
  Condition, FlowRoute, member, condition_matches, admits, route_matches, overlapping_routes,
}
use agentic_mesh.Flow.Validate.{conditions_overlap, routes_overlap, for_each, reject_overlapping}

-- A value of both sequences makes them intersect.
pub contains_both :
    (xs ys : List String) (a : String)
    → contains xs a ≡ true
    → contains ys a ≡ true
    → any_of (contains ys) xs ≡ true
unfolding contains any_of
contains_both [] ys a h k = cc
contains_both (x ∷ xs) ys a h k = elim (Bool-cases (x == a)) [
  | inl e ↦ let p : x ≡ a = (eq_iff x a).0 e in rw (p, k)
  | inr e ↦ ground (arith, contains_both xs ys a)
]

member_both :
    (v : Option Json) (xs ys : List String)
    → member v xs ≡ true
    → member v ys ≡ true
    → any_of (contains ys) xs ≡ true
unfolding member
member_both (some (str s)) xs ys h k = contains_both xs ys s h k
member_both _ xs ys h k = cc

-- Two conditions that admit the same fields overlap.
pub admits-overlap :
    (c d : Option Condition) (fields : Fields)
    → admits c fields ≡ true
    → admits d fields ≡ true
    → conditions_overlap c d ≡ true
unfolding admits condition_matches conditions_overlap
admits-overlap none d fields h k = refl
admits-overlap (some c) none fields h k = refl
admits-overlap (some c) (some d) fields h k = elim (Bool-cases (c.field_name == d.field_name)) [
  | inl e ↦
      let p : c.field_name ≡ d.field_name = (eq_iff c.field_name d.field_name).0 e in
      rw e (
        member_both (get fields c.field_name) c.values d.values h
          (subst (λ f. member (get fields f) d.values ≡ true) (sym p) k))
  | inr e ↦ rw e
]

-- The converse, so that no flow is refused without need: of conditions that overlap there are fields
-- which both admit. (`_string_list` makes the values of a condition non-empty.)
abbrev pub HasValues : Option Condition → Type 0
HasValues none = Unit {0}
HasValues (some c) = c.values ≢ []

contains_head : (v : String) (vs : List String) → contains (v ∷ vs) v ≡ true
unfolding contains any_of
contains_head v vs = ground (arith, (eq_iff v v).1 refl)

contains_later :
    (v : String) (vs : List String) (a : String) → contains vs a ≡ true → contains (v ∷ vs) a ≡ true
unfolding contains any_of
contains_later v vs a h = ground arith

-- a value that a condition admits
some_value : (vs : List String) → vs ≢ [] → (v : String) × (contains vs v ≡ true)
some_value [] h = absurd (h refl)
some_value (v ∷ vs) h = (v, contains_head v vs)

one_field : (c : Condition) → c.values ≢ [] → (fields : Fields) × (admits (some c) fields ≡ true)
unfolding admits condition_matches member get
one_field c h =
    let (v, e) = some_value c.values h in
    (field c.field_name (str v) end, rw ((eq_iff c.field_name c.field_name).1 refl) e)

common_value :
    (xs ys : List String)
    → any_of (contains ys) xs ≡ true
    → (a : String) × (contains xs a ≡ true) × (contains ys a ≡ true)
unfolding any_of
common_value [] ys h = cc
common_value (x ∷ xs) ys h = elim (Bool-cases (contains ys x)) [
  | inl e ↦ (x, contains_head x xs, e)
  | inr e ↦ let (a, p, q) = common_value xs ys (ground arith) in (a, contains_later x xs a p, q)
]

pub overlap-admits :
    (c d : Option Condition)
    → HasValues c
    → HasValues d
    → conditions_overlap c d ≡ true
    → (fields : Fields) × (admits c fields ≡ true) × (admits d fields ≡ true)
unfolding conditions_overlap admits condition_matches member get
overlap-admits none none hc hd h = (end, refl, refl)
overlap-admits none (some d) hc hd h = let (f, e) = one_field d hd in (f, refl, e)
overlap-admits (some c) none hc hd h = let (f, e) = one_field c hc in (f, e, refl)
overlap-admits (some c) (some d) hc hd h = elim (Bool-cases (c.field_name == d.field_name)) [
  | inl same ↦
      let (a, p, q) = common_value c.values d.values (ground arith) in
      (field c.field_name (str a) end, rw ((eq_iff c.field_name c.field_name).1 refl) p, rw same q)
  | inr other ↦
      let (v, p) = some_value c.values hc in
      let (w, q) = some_value d.values hd in
      (
        field c.field_name (str v) (field d.field_name (str w) end),
        rw ((eq_iff c.field_name c.field_name).1 refl) p,
        rw (other, (eq_iff d.field_name d.field_name).1 refl) q,
      )
]

-- Two conditions overlap, in the sense of `_conditions_overlap`, exactly when there are fields that
-- both admit. The values of a condition must not be empty, which `_string_list` enforces.
pub conditions_overlap_iff :
    (c d : Option Condition)
    → HasValues c
    → HasValues d
    → (conditions_overlap c d ≡ true)
      ↔ ((fields : Fields) × (admits c fields ≡ true) × (admits d fields ≡ true))
conditions_overlap_iff c d hc hd =
    (overlap-admits c d hc hd, λ (fields, p, q). admits-overlap c d fields p q)

-- Two routes that match the same outcome and fields overlap.
pub matches-overlap :
    (outcome : String) (fields : Fields) (r s : FlowRoute)
    → route_matches outcome fields r ≡ true
    → route_matches outcome fields s ≡ true
    → routes_overlap r s ≡ true
unfolding route_matches routes_overlap
matches-overlap outcome fields r s h k =
    let (ro, rc) = &&-true (r.outcome == outcome) (admits r.condition fields) h in
    let (so, sc) = &&-true (s.outcome == outcome) (admits s.condition fields) k in
    let same : (r.outcome == s.outcome) ≡ true =
      (eq_iff r.outcome s.outcome).1
        ((eq_iff r.outcome outcome).0 ro ∙ sym ((eq_iff s.outcome outcome).0 so)) in
    rw (same, admits-overlap r.condition s.condition fields rc sc)

module _ (state outcome : String) (fields : Fields) where
  abbrev pub matching : List FlowRoute → List FlowRoute
  matching = keep_if (route_matches outcome fields)

  no_rival :
      (r : FlowRoute) (rest : List FlowRoute)
      → route_matches outcome fields r ≡ true
      → for_each
          (λ o. guard (not (routes_overlap r o)) (overlapping_routes state r.route_id o.route_id))
          rest
        ≡ ok tt
      → matching rest ≡ []
  unfolding for_each keep_if
  no_rival r [] m h = refl
  no_rival r (o ∷ rest) m h =
      let (first, later) = >>-eq-ok (guard (not (routes_overlap r o)) _) _ h in
      let apart = not-true _ (guard-ok _ _ first) in
      elim (Bool-cases (route_matches outcome fields o)) [
        | inl e ↦ cc (matches-overlap outcome fields r o m e)
        | inr e ↦ rw e (no_rival r rest m later)
      ]

  -- If some route matches, the list of matches has one element, which is among the routes.
  pub matching-single :
      (rs : List FlowRoute)
      → reject_overlapping state rs ≡ ok tt
      → any_of (route_matches outcome fields) rs ≡ true
      → (r : FlowRoute) × (matching rs ≡ r ∷ [])
        × Any (λ x. x ≡ r) rs
        × (route_matches outcome fields r ≡ true)
  unfolding reject_overlapping keep_if any_of
  matching-single [] h a = cc
  matching-single (x ∷ rest) h a =
      let (here_ok, later) = >>-eq-ok (for_each _ rest) _ h in
      elim (Bool-cases (route_matches outcome fields x)) [
        | inl e ↦ (x, rw (e, no_rival x rest e here_ok), here refl, e)
        | inr e ↦
            let (r, single, among, m) = matching-single rest later (ground arith) in
            (r, rw (e, single), there among, m)
      ]

  pub matching-none :
      (rs : List FlowRoute) → any_of (route_matches outcome fields) rs ≡ false → matching rs ≡ []
  unfolding keep_if any_of
  matching-none [] h = refl
  matching-none (x ∷ rest) h = ground (arith, matching-none rest)

-- ===== src/Reliability/Rows.antt =====
-- A new attempt in the tables of incidents and attempts: the policy for its incident and for the
-- others.
use agentic_mesh.Prelude.{
  ℕ, ◌+◌, ◌≤◌, String, Bool, true, false, Option, none, some, List, ◌∷◌, ◌≡◌, refl, sym, subst, ◌∙◌,
  ◌&&◌, leb, arith, eq_iff, find_if, count_if, update_if, if◌then◌else◌, Bool-cases, inl, inr,
  &&-true, find_if-update, find_if-true, count_if-update_same,
}
use mathlib.Core.Option
use agentic_mesh.Work.{
  Stage, technical, pm_correction, recovery, Outcome, IncidentStatus, Incident, Attempt,
  has_incident_key,
}
use agentic_mesh.Reliability.{is_active_incident, with_next, exhaust, recover, ordinal_of}
use agentic_mesh.Reliability.Incidents.{is_attempt_of}
use agentic_mesh.Reliability.Advancing.{advanced}
use agentic_mesh.Reliability.Policy.{
  is_failure_of, is_place, at_place, follows, row_follows, FollowsPolicy, advanced-follows,
  is_place-ordinal_of, places_filled,
}

-- Two rows with the same key columns, and the tests of the keys.
pub has_incident_key-eq :
    (p k : String) (i : Incident)
    → has_incident_key p k i ≡ true
    → (i.project_id ≡ p) × (i.incident_id ≡ k)
unfolding has_incident_key
has_incident_key-eq p k i h =
    let (a, b) = &&-true _ _ h in ((eq_iff i.project_id p).0 a, (eq_iff i.incident_id k).0 b)

with_next-key :
    (s : Stage) (n : ℕ) (p k : String) (i : Incident)
    → has_incident_key p k (with_next s n i) ≡ has_incident_key p k i
unfolding has_incident_key with_next
with_next-key s n p k i = elim (Bool-cases (is_active_incident i.status)) [
  | inl e ↦ rw e refl
  | inr e ↦ rw e refl
]

pub advanced-key :
    (now : ℕ) (outcome : Outcome) (s : Stage) (m : ℕ) (p k : String) (i : Incident)
    → has_incident_key p k (advanced now outcome s m i) ≡ has_incident_key p k i
unfolding has_incident_key exhaust recover
advanced-key now Outcome.succeeded s m p k i = refl
advanced-key now Outcome.failed recovery m p k i = refl
advanced-key now Outcome.failed technical m p k i = with_next-key _ _ p k i
advanced-key now Outcome.failed pm_correction m p k i = with_next-key _ _ p k i

-- A row with the key of the attempt's incident has the key of no other.
own-not-other :
    (p k : String) (x : Attempt) (j : Incident)
    → is_attempt_of p k x ≡ false
    → has_incident_key p k j ≡ true
    → has_incident_key x.project_id x.incident_id j ≡ false
unfolding has_incident_key is_attempt_of
own-not-other p k x j away key = elim (Bool-cases (has_incident_key x.project_id x.incident_id j)) [
  | inr e ↦ e
  | inl e ↦
      let (a, b) = has_incident_key-eq p k j key in
      let (c, d) = has_incident_key-eq x.project_id x.incident_id j e in
      let same : is_attempt_of p k x ≡ true =
        ground
          (arith, (eq_iff x.project_id p).1 (sym c ∙ a), (eq_iff x.incident_id k).1 (sym d ∙ b)) in
      cc (same, away)
]

-- the row that the update leaves for a key
abbrev row_after : ℕ → Stage → ℕ → Attempt → Option Incident → Option Incident
row_after now s m x o =
    Option.map
      (λ y.
        if has_incident_key x.project_id x.incident_id y then advanced now x.outcome s m y else y)
      o

own-found :
    (x : Attempt) (p k : String) (incidents : List Incident) (i : Incident)
    → is_attempt_of p k x ≡ true
    → find_if (has_incident_key x.project_id x.incident_id) incidents ≡ some i
    → find_if (has_incident_key p k) incidents ≡ some i
unfolding is_attempt_of
own-found x p k incidents i own found =
    let (a, b) = &&-true _ _ own in
    subst (λ q. find_if (has_incident_key q k) incidents ≡ some i) ((eq_iff x.project_id p).0 a)
      (subst (λ q. find_if (has_incident_key x.project_id q) incidents ≡ some i)
        ((eq_iff x.incident_id k).0 b) found)

row_after-other :
    (now : ℕ) (s : Stage) (m : ℕ) (x : Attempt) (p k : String) (o : Option Incident)
    → is_attempt_of p k x ≡ false
    → ((j : Incident) → o ≡ some j → has_incident_key p k j ≡ true)
    → row_after now s m x o ≡ o
row_after-other now s m x p k none away keys = refl
row_after-other now s m x p k (some j) away keys =
    rw (own-not-other p k x j away (keys j refl)) refl

count_if-other :
    (q : Attempt → Bool) (x : Attempt) (attempts : List Attempt)
    → q x ≡ false
    → count_if q (x ∷ attempts) ≡ count_if q attempts
unfolding count_if
count_if-other q x attempts h = rw h (omega arith)

is_failure_of-other :
    (p k : String) (x : Attempt) → is_attempt_of p k x ≡ false → is_failure_of p k x ≡ false
unfolding is_failure_of
is_failure_of-other p k x h = rw h refl

other-follows :
    (now : ℕ) (s : Stage) (m : ℕ) (x : Attempt) (incidents : List Incident)
    (attempts : List Attempt) (p k : String)
    → FollowsPolicy incidents attempts
    → is_attempt_of p k x ≡ false
    → row_follows
        (row_after now s m x (find_if (has_incident_key p k) incidents))
        (count_if (is_attempt_of p k) (x ∷ attempts))
        (count_if (is_failure_of p k) (x ∷ attempts))
      ≡ true
other-follows now s m x incidents attempts p k v away = cc (
  row_after-other now s m x p k (find_if (has_incident_key p k) incidents) away
      (find_if-true (has_incident_key p k) incidents),
  count_if-other (is_attempt_of p k) x attempts away,
  count_if-other (is_failure_of p k) x attempts (is_failure_of-other p k x away),
  v.followed p k,
)

own-follows :
    (now : ℕ) (s : Stage) (m : ℕ) (i : Incident) (x : Attempt) (incidents : List Incident)
    (attempts : List Attempt) (p k : String)
    → FollowsPolicy incidents attempts
    → is_attempt_of p k x ≡ true
    → has_incident_key x.project_id x.incident_id i ≡ true
    → find_if (has_incident_key p k) incidents ≡ some i
    → i.status ≡ IncidentStatus.active
    → i.next ≡ some (s, m)
    → row_follows
        (row_after now s m x (find_if (has_incident_key p k) incidents))
        (count_if (is_attempt_of p k) (x ∷ attempts))
        (count_if (is_failure_of p k) (x ∷ attempts))
      ≡ true
unfolding count_if is_failure_of row_follows
own-follows now s m i x incidents attempts p k v own key found active next =
    let before : row_follows (some i) (count_if (is_attempt_of p k) attempts)
          (count_if (is_failure_of p k) attempts)
        ≡ true =
      subst
        (λ o.
          row_follows o (count_if (is_attempt_of p k) attempts)
            (count_if (is_failure_of p k) attempts)
          ≡ true)
        found (v.followed p k) in
    let after =
      advanced-follows now x.outcome s m (count_if (is_attempt_of p k) attempts)
        (count_if (is_failure_of p k) attempts) i active
        (subst
          (λ t.
            follows t (some (s, m)) (count_if (is_attempt_of p k) attempts)
              (count_if (is_failure_of p k) attempts)
            ≡ true)
          active
          (subst
            (λ t.
              follows i.status t (count_if (is_attempt_of p k) attempts)
                (count_if (is_failure_of p k) attempts)
              ≡ true)
            next before)) in
    rw (found, Option.map, key, own) after

at_place-other :
    (p k : String) (o : ℕ) (x : Attempt) → is_attempt_of p k x ≡ false → at_place p k o x ≡ false
unfolding at_place
at_place-other p k o x h = rw h refl

other_placed :
    (x : Attempt) (incidents : List Incident) (attempts : List Attempt) (p k : String) (o : ℕ)
    → FollowsPolicy incidents attempts
    → is_attempt_of p k x ≡ false
    → count_if (at_place p k o) (x ∷ attempts)
      ≡ (if leb 1 o && leb o (count_if (is_attempt_of p k) (x ∷ attempts)) then 1 else 0)
other_placed x incidents attempts p k o v away =
    rw
      (
        count_if-other (at_place p k o) x attempts (at_place-other p k o x away),
        count_if-other (is_attempt_of p k) x attempts away,
      )
      (v.placed p k o)

next_of :
    (t : IncidentStatus) (next : Option (Stage × ℕ)) (n f : ℕ) (s : Stage) (m : ℕ)
    → t ≡ IncidentStatus.active
    → next ≡ some (s, m)
    → follows t next n f ≡ true
    → is_place s m (n + 1) ≡ true
unfolding follows
next_of t next n f s m active asked h = let both = rw (active, asked) at h in (&&-true _ _ both).0

-- the place after those of the attempts so far is the next one
next_place :
    (incidents : List Incident) (attempts : List Attempt) (p k : String) (i : Incident) (s : Stage)
    (m : ℕ)
    → FollowsPolicy incidents attempts
    → find_if (has_incident_key p k) incidents ≡ some i
    → i.status ≡ IncidentStatus.active
    → i.next ≡ some (s, m)
    → is_place s m (count_if (is_attempt_of p k) attempts + 1) ≡ true
unfolding row_follows
next_place incidents attempts p k i s m v found active next =
    next_of i.status i.next _ _ s m active next (
      subst
        (λ o.
          row_follows o (count_if (is_attempt_of p k) attempts)
            (count_if (is_failure_of p k) attempts)
          ≡ true)
        found (v.followed p k))

own_placed :
    (s : Stage) (m : ℕ) (x : Attempt) (incidents : List Incident) (attempts : List Attempt)
    (p k : String) (o : ℕ)
    → FollowsPolicy incidents attempts
    → is_attempt_of p k x ≡ true
    → x.stage ≡ s
    → x.stage_attempt ≡ m
    → x.ordinal ≡ ordinal_of s m
    → is_place s m (count_if (is_attempt_of p k) attempts + 1) ≡ true
    → count_if (at_place p k o) (x ∷ attempts)
      ≡ (if leb 1 o && leb o (count_if (is_attempt_of p k) (x ∷ attempts)) then 1 else 0)
unfolding count_if at_place
own_placed s m x incidents attempts p k o v own stage number ordinal place =
    rw (own, stage, number, ordinal, is_place-ordinal_of s m _ place, v.placed p k o)
      (places_filled s m (count_if (is_attempt_of p k) attempts) o place)

-- An attempt for an active incident at its next place.
pub attempt-FollowsPolicy :
    (now : ℕ) (s : Stage) (m : ℕ) (i : Incident) (x : Attempt) (incidents : List Incident)
    (attempts : List Attempt)
    → FollowsPolicy incidents attempts
    → find_if (has_incident_key x.project_id x.incident_id) incidents ≡ some i
    → i.status ≡ IncidentStatus.active
    → i.next ≡ some (s, m)
    → x.stage ≡ s
    → x.stage_attempt ≡ m
    → x.ordinal ≡ ordinal_of s m
    → FollowsPolicy
        (update_if
          (has_incident_key x.project_id x.incident_id)
          (advanced now x.outcome s m)
          incidents)
        (x ∷ attempts)
unfolding count_if
attempt-FollowsPolicy now s m i x incidents attempts v found active next stage number ordinal =
    let f = advanced now x.outcome s m in
    let own = has_incident_key x.project_id x.incident_id in
    record {
      incident_once = λ p k.
          subst (λ c. c ≤ 1)
            (sym (
              count_if-update_same (has_incident_key p k) own f incidents
                (advanced-key now x.outcome s m p k)))
            (v.incident_once p k);
      followed = λ p k.
          subst
            (λ o.
              row_follows o (count_if (is_attempt_of p k) (x ∷ attempts))
                (count_if (is_failure_of p k) (x ∷ attempts))
              ≡ true)
            (sym (
              find_if-update (has_incident_key p k) own f incidents
                (advanced-key now x.outcome s m p k)))
            (elim (Bool-cases (is_attempt_of p k x)) [
              | inr away ↦ other-follows now s m x incidents attempts p k v away
              | inl own ↦
                  own-follows now s m i x incidents attempts p k v own
                    (find_if-true _ incidents i found) (own-found x p k incidents i own found)
                    active next
            ]);
      placed = λ p k o. elim (Bool-cases (is_attempt_of p k x)) [
        | inr away ↦ other_placed x incidents attempts p k o v away
        | inl own ↦ own_placed s m x incidents attempts p k o v own stage number ordinal (
            next_place incidents attempts p k i s m v (own-found x p k incidents i own found) active
              next)
      ];
    }

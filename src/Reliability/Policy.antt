-- ===== src/Reliability/Policy.antt =====
-- The fixed policy of three technical attempts, three corrections and one recovery, read off the
-- rows of an incident and of its attempts.
use agentic_mesh.Prelude.{
  ℕ, ◌+◌, ◌≤◌, String, Bool, true, false, Option, none, some, List, ◌≡◌, ap, subst, arith, ◌&&◌,
  ltb, leb, eqb, is_none, find_if, count_if, if◌then◌else◌, Bool-cases, inl, inr,
}
use agentic_mesh.Work.{
  Stage, technical, pm_correction, recovery, Outcome, IncidentStatus, Incident, Attempt,
  has_incident_key,
}
use agentic_mesh.Reliability.{ordinal_of, is_next, with_next, exhaust, recover}
use agentic_mesh.Reliability.Incidents.{is_attempt_of}
use agentic_mesh.Reliability.Advancing.{advanced}

abbrev pub is_failed : Outcome → Bool
is_failed Outcome.failed = true
is_failed Outcome.succeeded = false

unfoldable pub is_failure_of : String → String → Attempt → Bool
unfolding is_attempt_of
is_failure_of project incident a = is_attempt_of project incident a && is_failed a.outcome

-- The order of the policy: attempts 1 to 3 of the stage of the owner are its places 1 to 3, those of
-- the corrections its places 4 to 6, and the one of the recovery is its place 7.
unfoldable pub is_place : Stage → ℕ → ℕ → Bool
is_place technical m o = leb 1 m && leb m 3 && eqb o m
is_place pm_correction m o = leb 1 m && leb m 3 && eqb o (3 + m)
is_place recovery m o = eqb m 1 && eqb o 7

-- an attempt of an incident whose ordinal is a place, at the stage and number of that place
unfoldable pub at_place : String → String → ℕ → Attempt → Bool
unfolding is_attempt_of is_place
at_place project incident o a =
    is_attempt_of project incident a && eqb a.ordinal o && is_place a.stage a.stage_attempt o

-- A status and a next attempt, against the number of the attempts and of the failed ones: the next
-- attempt is the one after the failed ones in the order of the policy; seven failures exhaust it.
unfoldable pub follows : IncidentStatus → Option (Stage × ℕ) → ℕ → ℕ → Bool
unfolding is_place
follows IncidentStatus.active (some (s, m)) n f = is_place s m (n + 1) && eqb f n
follows IncidentStatus.active none n f = false
follows IncidentStatus.recovered next n f = is_none next && leb n 7 && eqb n (f + 1)
follows _ next n f = is_none next && eqb n 7 && eqb f 7

-- the same for the row that a key finds: an incident that is not there has no attempts
unfoldable pub row_follows : Option Incident → ℕ → ℕ → Bool
unfolding follows
row_follows none n f = eqb n 0 && eqb f 0
row_follows (some i) n f = follows i.status i.next n f

-- Keys of incidents are unique, each incident follows the policy, and its attempts, as many as there
-- are, stand at the first places of the policy, one at each.
pub record FollowsPolicy (incidents : List Incident) (attempts : List Attempt) : Type 0 where
  pub incident_once :
      (project incident : String) → count_if (has_incident_key project incident) incidents ≤ 1
  pub followed :
      (project incident : String)
      → row_follows
          (find_if (has_incident_key project incident) incidents)
          (count_if (is_attempt_of project incident) attempts)
          (count_if (is_failure_of project incident) attempts)
        ≡ true
  pub placed :
      (project incident : String) (o : ℕ)
      → count_if (at_place project incident o) attempts
        ≡ (if leb 1 o && leb o (count_if (is_attempt_of project incident) attempts) then 1 else 0)

eqb-eq : (k m : ℕ) → eqb k m ≡ true → k ≡ m
eqb-eq k m h = ground (arith, h)

pub is_next-eq :
    (s : Stage) (m : ℕ) (o : Option (Stage × ℕ)) → is_next s m o ≡ true → o ≡ some (s, m)
unfolding is_next
is_next-eq s m none h = cc
is_next-eq technical m (some (technical, k)) h = ap (λ x. some (technical, x)) (eqb-eq k m h)
is_next-eq pm_correction m (some (pm_correction, k)) h =
    ap (λ x. some (pm_correction, x)) (eqb-eq k m h)
is_next-eq recovery m (some (recovery, k)) h = ap (λ x. some (recovery, x)) (eqb-eq k m h)
is_next-eq technical m (some (pm_correction, k)) h = cc
is_next-eq technical m (some (recovery, k)) h = cc
is_next-eq pm_correction m (some (technical, k)) h = cc
is_next-eq pm_correction m (some (recovery, k)) h = cc
is_next-eq recovery m (some (technical, k)) h = cc
is_next-eq recovery m (some (pm_correction, k)) h = cc

pub is_place-ordinal_of : (s : Stage) (m o : ℕ) → is_place s m o ≡ true → ordinal_of s m ≡ o
unfolding is_place ordinal_of
is_place-ordinal_of technical m o h = ground (arith, h)
is_place-ordinal_of pm_correction m o h = ground (arith, h)
is_place-ordinal_of recovery m o h = ground (arith, h)

-- The places that are filled, after the next one is.
pub places_filled :
    (s : Stage) (m n o : ℕ)
    → is_place s m (n + 1) ≡ true
    → (if eqb (n + 1) o && is_place s m o then 1 else 0) + (if leb 1 o && leb o n then 1 else 0)
      ≡ (if leb 1 o && leb o (1 + n) then 1 else 0)
places_filled s m n o h = elim (Bool-cases (eqb (n + 1) o)) [
  | inl e ↦
      let there : is_place s m o ≡ true =
        subst (λ x. is_place s m x ≡ true) (eqb-eq (n + 1) o e) h in
      rw (e, there) (ground (arith, e))
  | inr e ↦ rw e (ground (arith, e))
]

-- One more attempt, at the place that the row asks for, keeps the policy.
pub advanced-follows :
    (now : ℕ) (outcome : Outcome) (s : Stage) (m n f : ℕ) (i : Incident)
    → i.status ≡ IncidentStatus.active
    → follows IncidentStatus.active (some (s, m)) n f ≡ true
    → follows
        (advanced now outcome s m i).status
        (advanced now outcome s m i).next
        (1 + n)
        ((if is_failed outcome then 1 else 0) + f)
      ≡ true
unfolding follows is_place with_next exhaust recover
advanced-follows now Outcome.succeeded technical m n f i active h = ground (arith, h)
advanced-follows now Outcome.succeeded pm_correction m n f i active h = ground (arith, h)
advanced-follows now Outcome.succeeded recovery m n f i active h = ground (arith, h)
advanced-follows now Outcome.failed technical m n f i active h =
    rw active (elim (Bool-cases (ltb m 3)) [
      | inl e ↦ rw e (ground (arith, h))
      | inr e ↦ rw e (ground (arith, h))
    ])
advanced-follows now Outcome.failed pm_correction m n f i active h =
    rw active (elim (Bool-cases (ltb m 3)) [
      | inl e ↦ rw e (ground (arith, h))
      | inr e ↦ rw e (ground (arith, h))
    ])
advanced-follows now Outcome.failed recovery m n f i active h = ground (arith, h)

-- ===== src/Histories/Versions.antt =====
-- The version of a work item, and what a transition may change.
use agentic_mesh.Prelude.{
  ℕ, ◌+◌, String, true, false, Option, some, List, ◌≡◌, refl, sym, subst, ap, ◌∙◌, ◌==◌, ◌&&◌,
  arith, leb, eqb, find_if, update_if, Bool-cases, inl, inr, find_if-true, find_if-update, ok, err,
  ok-injective,
}
use mathlib.Core.Option
use agentic_mesh.Prelude.Text.{strip}
use agentic_mesh.Prelude.Json.{Fields}
use agentic_mesh.Prelude.Int.{ℤ, pos, negsuc}
use agentic_mesh.Work.{WorkItem, WorkDb, has_work_key}
use agentic_mesh.Lifecycle.{
  Lived, WorkEnv, bad_argument, version_of, move_work, with_incident, evidence_or_empty,
  transition_work_item,
}
use agentic_mesh.Lifecycle.Moving.{transition_work_item-Moves}
use agentic_mesh.Histories.Exhaustion.{lifecycle_required-ok}
use agentic_mesh.Histories.Finality.{move_work-key}
use agentic_mesh.Histories.Matching.{other-row}

version_of-ok : (z : ℤ) (v : ℕ) → version_of z ≡ ok v → z ≡ pos v
version_of-ok (pos n) v h = elim (Bool-cases (leb 1 n)) [
  | inl e ↦ let same : ok n ≡ ok v = rw e at h in ap pos (ok-injective same)
  | inr e ↦
      let bad : err (bad_argument "expected_version must be positive") ≡ ok v = rw e at h in cc bad
]
version_of-ok (negsuc n) v h = cc

same-number : (a b : ℕ) → eqb a b ≡ true → a ≡ b
same-number a b h = ground (arith, h)

-- What a transition leaves of the work items.
pub record Moved (works works' : List WorkItem) (project work target : String) (expected : ℤ)
    (current moved : WorkItem) : Type 0 where
  pub was_there : find_if (has_work_key project work) works ≡ some current
  pub is_there : find_if (has_work_key project work) works' ≡ some moved
  pub was_expected : expected ≡ pos current.version
  pub next_version : moved.version ≡ current.version + 1
  pub at_target : moved.status ≡ target
  pub same_owner : moved.owner_role_id ≡ current.owner_role_id
  pub others_kept :
      (p k : String)
      → ((p == project) && (k == work)) ≡ false
      → find_if (has_work_key p k) works' ≡ find_if (has_work_key p k) works

moves-Moved :
    (works works' : List WorkItem) (p k t : String) (expected : ℤ) (now : ℕ) (r : Option String)
    (e : Fields) (current : WorkItem)
    → find_if (has_work_key p k) works ≡ some current
    → expected ≡ pos current.version
    → works' ≡ update_if (has_work_key p k) (move_work now t r e) works
    → Moved works works' p k t expected current (move_work now t r e current)
unfolding move_work
moves-Moved works works' p k t expected now r e current found version moved =
    let f = move_work now t r e in
    record {
      was_there = found;
      is_there =
          ap (find_if (has_work_key p k)) moved
          ∙ find_if-update (has_work_key p k) (has_work_key p k) f works
              (move_work-key now t r e p k)
          ∙ rw (found, Option.map, find_if-true (has_work_key p k) works current found) refl;
      was_expected = version;
      next_version = refl;
      at_target = refl;
      same_owner = refl;
      others_kept = λ q l away.
          ap (find_if (has_work_key q l)) moved
          ∙ find_if-update (has_work_key q l) (has_work_key p k) f works
              (move_work-key now t r e q l)
          ∙ other-row works q l p k f away;
    }

-- A transition that succeeds found the work item at the version that the caller expected. It leaves
-- the item at the target status, with the next version and the same owner, and every other work item
-- as it was.
pub transition-Moved :
    (db : WorkDb) (env : WorkEnv) (project work target actor correlation : String) (expected : ℤ)
    (reason : String) (evidence : Option Fields) (db' : WorkDb) (read : Lived WorkItem)
    → transition_work_item db env project work target actor correlation expected reason evidence
      ≡ ok (db', read)
    → (current : WorkItem) × (moved : WorkItem) × Moved db.works db'.works
        (strip project)
        (strip work)
        (strip target)
        expected
        current
        moved
transition-Moved db env project work target actor correlation expected reason evidence db' read h =
    transition_work_item-Moves db env project work target actor correlation expected reason evidence
      db' read h
      λ p k t v r current incident hp hk ht hv m same. (
        current,
        move_work (env.clock 0) t r (with_incident incident (evidence_or_empty evidence)) current,
        subst
            (λ x. Moved db.works db'.works x (strip work) (strip target) expected current (
              move_work (env.clock 0) t r (with_incident incident (evidence_or_empty evidence))
                current))
            (sym (lifecycle_required-ok project _ p hp))
            (subst
              (λ x. Moved db.works db'.works p x (strip target) expected current (
                move_work (env.clock 0) t r (with_incident incident (evidence_or_empty evidence))
                  current))
              (sym (lifecycle_required-ok work _ k hk))
              (subst
                (λ x. Moved db.works db'.works p k x expected current (
                  move_work (env.clock 0) t r (with_incident incident (evidence_or_empty evidence))
                    current))
                (sym (lifecycle_required-ok target _ t ht))
                (moves-Moved db.works db'.works p k t expected (env.clock 0) r
                  (with_incident incident (evidence_or_empty evidence)) current m.work_found
                  (version_of-ok expected v hv
                    ∙ ap pos (sym (same-number current.version v m.fresh_version)))
                  m.work_moved))),
      )

-- ===== src/Histories/Abstraction.antt =====
-- The abstract life of one work item: a key has no row until the item is created, and then a row
-- that moves between its statuses, one version at a time, whichever module writes it.
use agentic_mesh.Prelude.{
  ℕ, ◌+◌, String, true, false, Option, none, some, List, ◌∷◌, ◌≡◌, refl, sym, subst, ◌==◌, arith,
  eq_iff, find_if, update_if, any_of, Bool-cases, inl, inr,
}
use agentic_mesh.Prelude.Sets.{contains}
use agentic_mesh.Prelude.Json.{Fields}
use agentic_mesh.Work.{WorkItem, WorkDb, has_work_key}
use agentic_mesh.Work.Rows.{any_of-find_if}
use agentic_mesh.Lifecycle.{direct_transitions, move_work, with_incident}
use agentic_mesh.Lifecycle.Gates.{set_work}
use agentic_mesh.Histories.{Op, step}
use agentic_mesh.Histories.Changes.{
  Change, keeps, creates, moves, opens_gate, decides_gate, starts_incident, records_attempt,
}
use agentic_mesh.Histories.Steps.{step-Change}
use agentic_mesh.Histories.Finality.{has_work_key-eq, set_work-key, move_work-key}
use agentic_mesh.Histories.Matching.{update-wanted}

-- The arrows between the statuses of a work item.
pub data CanMove : String → String → Type 0 where
  activates : CanMove "new" "active"
  completes : CanMove "active" "completed"
  fails : CanMove "active" "error"
  gates : CanMove "active" "gated"
  resumes : CanMove "gated" "active"

-- One row of a work item after another: an arrow, the next version, and the same item.
pub record Advances (w w' : WorkItem) : Type 0 where
  pub arrow : CanMove w.status w'.status
  pub next_version : w'.version ≡ w.version + 1
  pub same_project : w'.project_id ≡ w.project_id
  pub same_item : w'.work_item_id ≡ w.work_item_id
  pub same_title : w'.title ≡ w.title
  pub same_owner : w'.owner_role_id ≡ w.owner_role_id

-- What one step may do to the row of a key.
pub data WorkStep (p k : String) : Option WorkItem → Option WorkItem → Type 0 where
  stays : (o : Option WorkItem) → WorkStep p k o o
  appears :
      (w : WorkItem)
      → w.project_id ≡ p
      → w.work_item_id ≡ k
      → w.status ≡ "new"
      → w.version ≡ 1
      → WorkStep p k none (some w)
  advances : (w w' : WorkItem) → Advances w w' → WorkStep p k (some w) (some w')

direct_transitions-CanMove :
    (s target : String) → contains (direct_transitions s) target ≡ true → CanMove s target
unfolding direct_transitions contains any_of
direct_transitions-CanMove s target h = elim (Bool-cases (s == "new")) [
  | inl e ↦
      let t : target ≡ "active" =
        ground (arith, h, eq_iff target "active", eq_iff "active" target) in
      subst (λ x. CanMove x target) (sym ((eq_iff s "new").0 e))
        (subst (CanMove "new") (sym t) activates)
  | inr e ↦ elim (Bool-cases (s == "active")) [
    | inr f ↦ ground (arith, h)
    | inl f ↦
        subst (λ x. CanMove x target) (sym ((eq_iff s "active").0 f))
          (elim (Bool-cases (target == "completed")) [
            | inl g ↦ subst (CanMove "active") (sym ((eq_iff target "completed").0 g)) completes
            | inr g ↦
                let t : target ≡ "error" = ground (
                  arith,
                  h,
                  eq_iff target "error",
                  eq_iff "error" target,
                  eq_iff "completed" target,
                  eq_iff target "completed",
                ) in
                subst (CanMove "active") (sym t) fails
          ])
  ]
]

same-WorkStep :
    (p k : String) (works works' : List WorkItem)
    → works' ≡ works
    → WorkStep p k (find_if (has_work_key p k) works) (find_if (has_work_key p k) works')
same-WorkStep p k works works' e =
    subst (λ x. WorkStep p k (find_if (has_work_key p k) works) (find_if (has_work_key p k) x))
      (sym e) (stays _)

added-WorkStep :
    (p k : String) (w : WorkItem) (works : List WorkItem)
    → any_of (has_work_key w.project_id w.work_item_id) works ≡ false
    → w.status ≡ "new"
    → w.version ≡ 1
    → WorkStep p k (find_if (has_work_key p k) works) (find_if (has_work_key p k) (w ∷ works))
unfolding find_if
added-WorkStep p k w works fresh new first = elim (Bool-cases (has_work_key p k w)) [
  | inr e ↦ rw e (stays _)
  | inl e ↦
      let (a, b) = has_work_key-eq p k w e in
      let none_before : any_of (has_work_key p k) works ≡ false =
        subst (λ y. any_of (has_work_key y k) works ≡ false) a
          (subst (λ y. any_of (has_work_key w.project_id y) works ≡ false) b fresh) in
      rw (e, any_of-find_if (has_work_key p k) works none_before) (appears w a b new first)
]

-- The update of the row that a key finds is a step of that row, and of no other.
updated-WorkStep :
    (p k q l : String) (f : WorkItem → WorkItem) (works works' : List WorkItem) (current : WorkItem)
    → ((p k : String) (x : WorkItem) → has_work_key p k (f x) ≡ has_work_key p k x)
    → find_if (has_work_key q l) works ≡ some current
    → works' ≡ update_if (has_work_key q l) f works
    → Advances current (f current)
    → WorkStep p k (find_if (has_work_key p k) works) (find_if (has_work_key p k) works')
updated-WorkStep p k q l f works works' current key found updated step =
    rw updated (elim (update-wanted works p k q l f current key found) [
      | inr (_, e) ↦ rw e (stays _)
      | inl ((a, b), e) ↦ rw (e, a, b, found) (advances current (f current) step)
    ])

moved-Advances :
    (now : ℕ) (target : String) (reason : Option String) (evidence : Fields) (w : WorkItem)
    → CanMove w.status target
    → Advances w (move_work now target reason evidence w)
unfolding move_work
moved-Advances now target reason evidence w c = record {
  arrow = c;
  next_version = refl;
  same_project = refl;
  same_item = refl;
  same_title = refl;
  same_owner = refl;
}

set-Advances :
    (now : ℕ) (status : String) (w : WorkItem)
    → CanMove w.status status
    → Advances w (set_work now status w)
unfolding set_work
set-Advances now status w c = record {
  arrow = c;
  next_version = refl;
  same_project = refl;
  same_item = refl;
  same_title = refl;
  same_owner = refl;
}

from-status : (s t target : String) → (s == t) ≡ true → CanMove t target → CanMove s target
from-status s t target e c = subst (λ x. CanMove x target) (sym ((eq_iff s t).0 e)) c

Change-WorkStep :
    (db db' : WorkDb) (p k : String)
    → Change db db'
    → WorkStep p k (find_if (has_work_key p k) db.works) (find_if (has_work_key p k) db'.works)
Change-WorkStep db db' p k (keeps c) = same-WorkStep p k db.works db'.works c.works_kept
Change-WorkStep db db' p k (creates w c) =
    subst (λ x. WorkStep p k (find_if (has_work_key p k) db.works) (find_if (has_work_key p k) x))
      (sym c.work_added) (added-WorkStep p k w db.works c.fresh c.starts_new c.first_version)
Change-WorkStep db db' p k
      (moves env project work target expected reason evidence current incident c) =
    updated-WorkStep p k project work _ db.works db'.works current
      (move_work-key (env.clock 0) target reason (with_incident incident evidence)) c.work_found
      c.work_moved
      (moved-Advances (env.clock 0) target reason (with_incident incident evidence) current
        (direct_transitions-CanMove current.status target c.allowed))
Change-WorkStep db db' p k (opens_gate env g sponsors expected current pend c) =
    updated-WorkStep p k g.project_id g.work_item_id _ db.works db'.works current
      (set_work-key (env.clock 0) "gated") c.work_found c.work_gated
      (set-Advances (env.clock 0) "gated" current
        (from-status current.status "active" "gated" c.was_active gates))
Change-WorkStep db db' p k
      (decides_gate env project gate sponsor decision status rationale evidence g a current d c) =
    updated-WorkStep p k g.project_id g.work_item_id _ db.works db'.works current
      (set_work-key (env.clock 2) "active") c.own_work c.work_resumed
      (set-Advances (env.clock 2) "active" current
        (from-status current.status "gated" "active" c.was_gated resumes))
Change-WorkStep db db' p k (starts_incident i active first c) =
    same-WorkStep p k db.works db'.works c.works_kept
Change-WorkStep db db' p k (records_attempt env a i c) =
    same-WorkStep p k db.works db'.works c.works_kept

-- Every operation, and every write of other components to their own tables, moves the row of each
-- work item as the abstract life allows: the row stays the same; or there was none and now there is
-- one of that key, with status "new" and version 1; or the row has gone along one arrow, "new" to
-- "active", "active" to "completed", "error" or "gated", or "gated" to "active", to the next
-- version, with the same identifiers, title and owner.
pub step-WorkStep :
    (db : WorkDb) (o : Op) (p k : String)
    → WorkStep p k
        (find_if (has_work_key p k) db.works)
        (find_if (has_work_key p k) (step db o).works)
step-WorkStep db o p k = Change-WorkStep db (step db o) p k (step-Change db o)

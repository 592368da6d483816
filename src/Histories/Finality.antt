-- ===== src/Histories/Finality.antt =====
-- Work that is completed or an error, over histories.
use agentic_mesh.Prelude.{
  ℕ, String, true, false, Option, some, List, [], ◌∷◌, ◌≡◌, refl, sym, subst, ap, ◌∙◌, ◌==◌, arith,
  eq_iff, any_of, find_if, update_if, Bool-cases, inl, inr, &&-true, find_if-true, find_if-update,
  some-injective, ◌⊎◌,
}
use mathlib.Core.Option
use agentic_mesh.Prelude.Sets.{contains}
use agentic_mesh.Prelude.Json.{Fields}
use agentic_mesh.Work.{WorkItem, WorkDb, has_work_key}
use agentic_mesh.Work.Rows.{any_of-find_if}
use agentic_mesh.Lifecycle.{direct_transitions, is_terminal_status, move_work, with_incident}
use agentic_mesh.Lifecycle.Gates.{set_work}
use agentic_mesh.Histories.{Op, step, run}
use agentic_mesh.Histories.Changes.{
  Change, keeps, creates, moves, opens_gate, decides_gate, starts_incident, records_attempt,
}
use agentic_mesh.Histories.Steps.{step-Change}

-- A terminal status has no transition, and is neither active nor gated.
terminal-stuck :
    (s target : String)
    → is_terminal_status s ≡ true
    → (contains (direct_transitions s) target ≡ false)
      × ((s == "active") ≡ false)
      × ((s == "gated") ≡ false)
unfolding is_terminal_status direct_transitions contains
terminal-stuck s target h = elim (Bool-cases (s == "completed")) [
  | inl e ↦ let same = (eq_iff s "completed").0 e in rw same (refl, refl, refl)
  | inr e ↦ let same = (eq_iff s "error").0 (ground (arith, h, e)) in rw same (refl, refl, refl)
]

pub has_work_key-eq :
    (p k : String) (w : WorkItem)
    → has_work_key p k w ≡ true
    → (w.project_id ≡ p) × (w.work_item_id ≡ k)
unfolding has_work_key
has_work_key-eq p k w h =
    let (a, b) = &&-true (w.project_id == p) (w.work_item_id == k) h in
    ((eq_iff w.project_id p).0 a, (eq_iff w.work_item_id k).0 b)

-- The row of another key stays where the updated row is not terminal.
update-other :
    (works : List WorkItem) (p k q l : String) (f : WorkItem → WorkItem) (w current : WorkItem)
    → ((p k : String) (x : WorkItem) → has_work_key p k (f x) ≡ has_work_key p k x)
    → find_if (has_work_key p k) works ≡ some w
    → find_if (has_work_key q l) works ≡ some current
    → is_terminal_status w.status ≡ true
    → is_terminal_status current.status ≡ false
    → find_if (has_work_key p k) (update_if (has_work_key q l) f works) ≡ some w
update-other works p k q l f w current key found target terminal alive =
    find_if-update (has_work_key p k) (has_work_key q l) f works (key p k)
    ∙ elim (Bool-cases (has_work_key q l w)) [
      | inr e ↦ rw (found, Option.map, e) refl
      | inl e ↦
          let (a, b) = has_work_key-eq p k w (find_if-true (has_work_key p k) works w found) in
          let (c, d) = has_work_key-eq q l w e in
          let own : find_if (has_work_key q l) works ≡ some w =
            subst (λ x. find_if (has_work_key x l) works ≡ some w) (sym a ∙ c)
              (subst (λ x. find_if (has_work_key p x) works ≡ some w) (sym b ∙ d) found) in
          let same : w ≡ current = some-injective (sym own ∙ target) in
          cc (ap (λ x. is_terminal_status x.status) same, terminal, alive)
    ]

added-other :
    (works : List WorkItem) (p k : String) (x w : WorkItem)
    → any_of (has_work_key x.project_id x.work_item_id) works ≡ false
    → find_if (has_work_key p k) works ≡ some w
    → find_if (has_work_key p k) (x ∷ works) ≡ some w
unfolding find_if
added-other works p k x w fresh found = elim (Bool-cases (has_work_key p k x)) [
  | inr e ↦ rw e found
  | inl e ↦
      let (a, b) = has_work_key-eq p k x e in
      let none_before : any_of (has_work_key p k) works ≡ false =
        subst (λ y. any_of (has_work_key y k) works ≡ false) a
          (subst (λ y. any_of (has_work_key x.project_id y) works ≡ false) b fresh) in
      cc (any_of-find_if (has_work_key p k) works none_before, found)
]

pub set_work-key :
    (now : ℕ) (status p k : String) (x : WorkItem)
    → has_work_key p k (set_work now status x) ≡ has_work_key p k x
unfolding has_work_key set_work
set_work-key now status p k x = refl

pub move_work-key :
    (now : ℕ) (status : String) (reason : Option String) (evidence : Fields) (p k : String)
    (x : WorkItem)
    → has_work_key p k (move_work now status reason evidence x) ≡ has_work_key p k x
unfolding has_work_key move_work
move_work-key now status reason evidence p k x = refl

-- A status that is active or gated, or has a transition, is not terminal.
alive :
    (s target : String)
    → (contains (direct_transitions s) target ≡ true)
      ⊎ ((s == "active") ≡ true)
      ⊎ ((s == "gated") ≡ true)
    → is_terminal_status s ≡ false
alive s target h = elim (Bool-cases (is_terminal_status s)) [
  | inr e ↦ e
  | inl e ↦
      let (a, b, c) = terminal-stuck s target e in
      elim h [ inl t ↦ cc (a, t) | inr (inl t) ↦ cc (b, t) | inr (inr t) ↦ cc (c, t) ]
]

Change-final :
    (db db' : WorkDb) (p k : String) (w : WorkItem)
    → Change db db'
    → is_terminal_status w.status ≡ true
    → find_if (has_work_key p k) db.works ≡ some w
    → find_if (has_work_key p k) db'.works ≡ some w
Change-final db db' p k w (keeps c) terminal found =
    ap (find_if (has_work_key p k)) c.works_kept ∙ found
Change-final db db' p k w (creates x c) terminal found =
    ap (find_if (has_work_key p k)) c.work_added ∙ added-other db.works p k x w c.fresh found
Change-final db db' p k w
      (moves env project work target expected reason evidence current incident c) terminal found =
    ap (find_if (has_work_key p k)) c.work_moved
    ∙ update-other db.works p k project work _ w current
        (move_work-key (env.clock 0) target reason (with_incident incident evidence)) found
        c.work_found terminal (alive current.status target (inl c.allowed))
Change-final db db' p k w (opens_gate env g sponsors expected current pend c) terminal found =
    ap (find_if (has_work_key p k)) c.work_gated
    ∙ update-other db.works p k g.project_id g.work_item_id _ w current
        (set_work-key (env.clock 0) "gated") found c.work_found terminal
        (alive current.status "" (inr (inl c.was_active)))
Change-final db db' p k w
      (decides_gate env project gate sponsor decision status rationale evidence g a current d c)
      terminal found =
    ap (find_if (has_work_key p k)) c.work_resumed
    ∙ update-other db.works p k g.project_id g.work_item_id _ w current
        (set_work-key (env.clock 2) "active") found c.own_work terminal
        (alive current.status "" (inr (inr c.was_gated)))
Change-final db db' p k w (starts_incident i active first c) terminal found =
    ap (find_if (has_work_key p k)) c.works_kept ∙ found
Change-final db db' p k w (records_attempt env a i c) terminal found =
    ap (find_if (has_work_key p k)) c.works_kept ∙ found

-- A work item that is completed or an error stays as it is in every history of the operations and of
-- the writes of other components to their own tables: its whole row, with status, version, reason
-- and evidence.
pub run-final :
    (db : WorkDb) (os : List Op) (p k : String) (w : WorkItem)
    → find_if (has_work_key p k) db.works ≡ some w
    → is_terminal_status w.status ≡ true
    → find_if (has_work_key p k) (run db os).works ≡ some w
unfolding run
run-final db [] p k w found terminal = found
run-final db (o ∷ os) p k w found terminal =
    run-final (step db o) os p k w
      (Change-final db (step db o) p k w (step-Change db o) terminal found) terminal

-- ===== src/Histories/Matching.antt =====
-- Pending gates against gated work, and the row of a work item after an update.
use agentic_mesh.Prelude.{
  ℕ, ◌≤◌, String, Bool, true, false, Option, none, some, List, ◌≡◌, refl, sym, subst, ◌∙◌, ◌==◌,
  ◌&&◌, arith, eq_iff, find_if, count_if, update_if, Bool-cases, Option-cases, inl, inr, ◌⊎◌,
  if◌then◌else◌, &&-true, find_if-true, find_if-update,
}
use mathlib.Core.Option
use agentic_mesh.Work.{WorkItem, Gate, has_work_key, has_gate_key}
use agentic_mesh.Lifecycle.Gates.{is_pending}
use agentic_mesh.Histories.Finality.{has_work_key-eq}

unfoldable pub is_open_gate : String → String → Gate → Bool
is_open_gate p w g = (p == g.project_id) && (w == g.work_item_id) && is_pending g.status

-- the pending gates that the row of a work item asks for
abbrev pub gates_wanted : Option WorkItem → ℕ
gates_wanted none = 0
gates_wanted (some w) = if w.status == "gated" then 1 else 0

-- Keys of gates are unique, and a work item has one pending gate where it is gated, else none.
pub record GatesMatch (works : List WorkItem) (gates : List Gate) : Type 0 where
  pub gate_once : (p g : String) → count_if (has_gate_key p g) gates ≤ 1
  pub matched :
      (p w : String)
      → count_if (is_open_gate p w) gates ≡ gates_wanted (find_if (has_work_key p w) works)

pub other-row :
    (works : List WorkItem) (p k q l : String) (f : WorkItem → WorkItem)
    → ((p == q) && (k == l)) ≡ false
    → Option.map (λ x. if has_work_key q l x then f x else x) (find_if (has_work_key p k) works)
      ≡ find_if (has_work_key p k) works
other-row works p k q l f away = elim (Option-cases (find_if (has_work_key p k) works)) [
  | inl e ↦ rw (e, Option.map) refl
  | inr (w, e) ↦ elim (Bool-cases (has_work_key q l w)) [
    | inr h ↦ rw (e, Option.map, h) refl
    | inl h ↦
        let (a, b) = has_work_key-eq p k w (find_if-true (has_work_key p k) works w e) in
        let (c, d) = has_work_key-eq q l w h in
        let same : ((p == q) && (k == l)) ≡ true =
          ground (arith, (eq_iff p q).1 (sym a ∙ c), (eq_iff k l).1 (sym b ∙ d)) in
        cc (same, away)
  ]
]

-- The lookup of a key after an update of the work item that another key finds.
pub update-wanted :
    (works : List WorkItem) (p k q l : String) (f : WorkItem → WorkItem) (current : WorkItem)
    → ((p k : String) (x : WorkItem) → has_work_key p k (f x) ≡ has_work_key p k x)
    → find_if (has_work_key q l) works ≡ some current
    → (((p ≡ q) × (k ≡ l))
        × (find_if (has_work_key p k) (update_if (has_work_key q l) f works) ≡ some (f current)))
      ⊎ ((((p == q) && (k == l)) ≡ false)
          × (find_if (has_work_key p k) (update_if (has_work_key q l) f works)
              ≡ find_if (has_work_key p k) works))
update-wanted works p k q l f current key found = elim (Bool-cases ((p == q) && (k == l))) [
  | inl e ↦
      let (a, b) = &&-true (p == q) (k == l) e in
      let p-q = (eq_iff p q).0 a in
      let k-l = (eq_iff k l).0 b in
      inl (
        (p-q, k-l),
        subst
            (λ x.
              find_if (has_work_key x k) (update_if (has_work_key q l) f works) ≡ some (f current))
            (sym p-q)
            (subst
              (λ x.
                find_if (has_work_key q x) (update_if (has_work_key q l) f works)
                ≡ some (f current))
              (sym k-l)
              (find_if-update (has_work_key q l) (has_work_key q l) f works (key q l)
                ∙ rw (found, Option.map, find_if-true (has_work_key q l) works current found)
                    refl)),
      )
  | inr e ↦ inr (
    e,
    find_if-update (has_work_key p k) (has_work_key q l) f works (key p k)
        ∙ other-row works p k q l f e,
  )
]

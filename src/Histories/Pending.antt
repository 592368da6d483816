-- ===== src/Histories/Pending.antt =====
-- Pending gates and gated work, over histories.
use agentic_mesh.Prelude.{
  ℕ, ◌≤◌, String, Bool, true, false, some, List, [], ◌∷◌, ◌≡◌, refl, sym, subst, ap, ◌∙◌, ◌==◌,
  ◌&&◌, arith, eq_iff, any_of, find_if, count_if, update_if, Any, Bool-cases, inl, inr,
  if◌then◌else◌, &&-true, find_if-Any, count_if-update, count_if-update_same, count_if_unique,
  count_if-of_false, count_if-of_none, ok, err, ok-injective,
}
use agentic_mesh.Prelude.Sets.{contains}
use agentic_mesh.Work.{
  WorkItem, GateStatus, pending, approved, rejected, Gate, WorkDb, has_work_key, has_gate_key,
}
use agentic_mesh.Work.Rows.{any_of-find_if}
use agentic_mesh.Lifecycle.{bad_argument, direct_transitions, move_work, with_incident}
use agentic_mesh.Lifecycle.Gates.{is_pending, set_work, resolve_gate, decision_status}
use agentic_mesh.Histories.{Op, step, run}
use agentic_mesh.Histories.Changes.{
  Change, keeps, creates, moves, opens_gate, decides_gate, starts_incident, records_attempt,
}
use agentic_mesh.Histories.Steps.{step-Change}
use agentic_mesh.Histories.Finality.{has_work_key-eq, set_work-key, move_work-key}
use agentic_mesh.Histories.Matching.{GatesMatch, gates_wanted, is_open_gate, update-wanted}

-- A text in a list without the other is not the other.
not-listed :
    (xs : List String) (t : String)
    → contains xs t ≡ true
    → contains xs "gated" ≡ false
    → (t == "gated") ≡ false
not-listed xs t h n = elim (Bool-cases (t == "gated")) [
  | inr e ↦ e
  | inl e ↦ cc (ap (contains xs) ((eq_iff t "gated").0 e), h, n)
]

-- A transition neither leaves a gate nor enters one.
transition-ungated :
    (s t : String)
    → contains (direct_transitions s) t ≡ true
    → ((s == "gated") ≡ false) × ((t == "gated") ≡ false)
unfolding direct_transitions contains
transition-ungated s t h = elim (Bool-cases (s == "new")) [
  | inl e ↦
      let same = (eq_iff s "new").0 e in
      rw same (refl, not-listed ("active" ∷ []) t (rw same at h) refl)
  | inr n ↦ elim (Bool-cases (s == "active")) [
    | inl e ↦
        let same = (eq_iff s "active").0 e in
        rw same (refl, not-listed ("completed" ∷ "error" ∷ []) t (rw same at h) refl)
    | inr a ↦ let none_left : contains [] t ≡ true = rw (n, a) at h in cc none_left
  ]
]

moved-GatesMatch :
    (works : List WorkItem) (gates : List Gate) (q l : String) (f : WorkItem → WorkItem)
    (current : WorkItem)
    → ((p k : String) (x : WorkItem) → has_work_key p k (f x) ≡ has_work_key p k x)
    → find_if (has_work_key q l) works ≡ some current
    → (current.status == "gated") ≡ false
    → ((f current).status == "gated") ≡ false
    → GatesMatch works gates
    → GatesMatch (update_if (has_work_key q l) f works) gates
moved-GatesMatch works gates q l f current key found before after v = record {
  gate_once = v.gate_once;
  matched = λ p k. elim (update-wanted works p k q l f current key found) [
    | inr (away, e) ↦ v.matched p k ∙ ap gates_wanted (sym e)
    | inl ((a, b), e) ↦
        let was : gates_wanted (find_if (has_work_key p k) works) ≡ 0 =
          ap gates_wanted (
            ap (λ x. find_if (has_work_key x k) works) a
            ∙ ap (λ x. find_if (has_work_key q x) works) b
            ∙ found)
          ∙ rw before refl in
        v.matched p k ∙ was ∙ sym (ap gates_wanted e ∙ rw after refl)
  ];
}

created-GatesMatch :
    (works : List WorkItem) (gates : List Gate) (w : WorkItem)
    → any_of (has_work_key w.project_id w.work_item_id) works ≡ false
    → w.status ≡ "new"
    → GatesMatch works gates
    → GatesMatch (w ∷ works) gates
unfolding find_if
created-GatesMatch works gates w fresh new v = record {
  gate_once = v.gate_once;
  matched = λ p k. elim (Bool-cases (has_work_key p k w)) [
    | inr e ↦ rw e (v.matched p k)
    | inl e ↦
        let (a, b) = has_work_key-eq p k w e in
        let none_before : any_of (has_work_key p k) works ≡ false =
          subst (λ y. any_of (has_work_key y k) works ≡ false) a
            (subst (λ y. any_of (has_work_key w.project_id y) works ≡ false) b fresh) in
        let was = ap gates_wanted (any_of-find_if (has_work_key p k) works none_before) in
        rw (e, new) (v.matched p k ∙ was)
  ];
}

is_open_gate-own :
    (p k : String) (g : Gate) (b : Bool)
    → g.status ≡ pending
    → ((p == g.project_id) && (k == g.work_item_id)) ≡ b
    → is_open_gate p k g ≡ b
unfolding is_open_gate
is_open_gate-own p k g true e h = rw (e, h) refl
is_open_gate-own p k g false e h = rw (e, h) refl

-- The key of a fresh gate counts none before.
fresh-gate :
    (p k : String) (g : Gate) (gates : List Gate)
    → any_of (has_gate_key g.project_id g.gate_id) gates ≡ false
    → has_gate_key p k g ≡ true
    → count_if (has_gate_key p k) gates ≡ 0
unfolding has_gate_key
fresh-gate p k g gates fresh h =
    let (a, b) = &&-true (g.project_id == p) (g.gate_id == k) h in
    count_if-of_none (has_gate_key p k) gates (
      subst (λ y. any_of (has_gate_key y k) gates ≡ false) ((eq_iff g.project_id p).0 a)
        (subst (λ y. any_of (has_gate_key g.project_id y) gates ≡ false) ((eq_iff g.gate_id k).0 b)
          fresh))

pub own-pair : (q l : String) → ((q == q) && (l == l)) ≡ true
own-pair q l = rw ((eq_iff q q).1 refl, (eq_iff l l).1 refl) refl

pub same-pair : (p k q l : String) → p ≡ q → k ≡ l → ((p == q) && (k == l)) ≡ true
same-pair p k q l a b =
    subst (λ x. ((x == q) && (k == l)) ≡ true) (sym a)
      (subst (λ x. ((q == q) && (x == l)) ≡ true) (sym b) (own-pair q l))

-- What a key that finds `current` wants.
wanted-at :
    (works : List WorkItem) (p k q l : String) (current : WorkItem)
    → p ≡ q
    → k ≡ l
    → find_if (has_work_key q l) works ≡ some current
    → gates_wanted (find_if (has_work_key p k) works) ≡ (if current.status == "gated" then 1 else 0)
wanted-at works p k q l current a b found = ap gates_wanted (
    ap (λ x. find_if (has_work_key x k) works) a
    ∙ ap (λ x. find_if (has_work_key q x) works) b
    ∙ found)

active-ungated : (s : String) → (s == "active") ≡ true → (s == "gated") ≡ false
active-ungated s h = let same = (eq_iff s "active").0 h in rw same refl

opened-GatesMatch :
    (works : List WorkItem) (gates : List Gate) (g : Gate) (now : ℕ) (current : WorkItem)
    → find_if (has_work_key g.project_id g.work_item_id) works ≡ some current
    → (current.status == "active") ≡ true
    → any_of (has_gate_key g.project_id g.gate_id) gates ≡ false
    → g.status ≡ pending
    → GatesMatch works gates
    → GatesMatch
        (update_if (has_work_key g.project_id g.work_item_id) (set_work now "gated") works)
        (g ∷ gates)
unfolding count_if set_work
opened-GatesMatch works gates g now current found active fresh pend v = record {
  gate_once = λ p k. elim (Bool-cases (has_gate_key p k g)) [
    | inr e ↦ rw e (omega (arith, v.gate_once p k))
    | inl e ↦ rw e (omega (arith, fresh-gate p k g gates fresh e))
  ];
  matched = λ p k.
      elim (update-wanted works p k g.project_id g.work_item_id (set_work now "gated") current
        (set_work-key now "gated") found) [
          | inr (away, e) ↦
              rw (is_open_gate-own p k g false pend away)
                (omega (arith, v.matched p k, ap gates_wanted e))
          | inl ((a, b), e) ↦
              let was : gates_wanted (find_if (has_work_key p k) works) ≡ 0 =
                wanted-at works p k g.project_id g.work_item_id current a b found
                ∙ rw (active-ungated current.status active) refl in
              rw (is_open_gate-own p k g true pend (same-pair p k _ _ a b))
                (omega (arith, v.matched p k, was, ap gates_wanted e))
        ];
}

resolved-closed :
    (key : Gate → Bool) (p k : String) (now : ℕ) (status : GateStatus) (gates : List Gate)
    → is_pending status ≡ false
    → count_if (λ x. key x && is_open_gate p k (resolve_gate now status x)) gates ≡ 0
unfolding is_open_gate resolve_gate
resolved-closed key p k now status gates closed =
    count_if-of_false _ gates λ x. rw closed (ground arith)

pub has_gate_key_self : (g : Gate) → has_gate_key g.project_id g.gate_id g ≡ true
unfolding has_gate_key
has_gate_key_self g = own-pair g.project_id g.gate_id

pub resolve_gate-key :
    (now : ℕ) (status : GateStatus) (p k : String) (g : Gate)
    → has_gate_key p k (resolve_gate now status g) ≡ has_gate_key p k g
unfolding has_gate_key resolve_gate
resolve_gate-key now status p k g = refl

decided-GatesMatch :
    (works : List WorkItem) (gates : List Gate) (g : Gate) (now later : ℕ) (status : GateStatus)
    (current : WorkItem)
    → find_if (has_work_key g.project_id g.work_item_id) works ≡ some current
    → (current.status == "gated") ≡ true
    → Any (λ x. x ≡ g) gates
    → g.status ≡ pending
    → is_pending status ≡ false
    → GatesMatch works gates
    → GatesMatch
        (update_if (has_work_key g.project_id g.work_item_id) (set_work later "active") works)
        (update_if (has_gate_key g.project_id g.gate_id) (resolve_gate now status) gates)
unfolding set_work
decided-GatesMatch works gates g now later status current found gated member pend closed v =
    let own = has_gate_key g.project_id g.gate_id in
    let f = resolve_gate now status in
    record {
      gate_once = λ p k.
          subst (λ c. c ≤ 1)
            (sym (
              count_if-update_same (has_gate_key p k) own f gates
                (resolve_gate-key now status p k)))
            (v.gate_once p k);
      matched = λ p k.
          let moved = count_if-update own (is_open_gate p k) f gates in
          let after = resolved-closed own p k now status gates closed in
          let before =
            count_if_unique own (is_open_gate p k) gates g (v.gate_once g.project_id g.gate_id)
              member (has_gate_key_self g) in
          elim (update-wanted works p k g.project_id g.work_item_id (set_work later "active")
            current (set_work-key later "active") found) [
              | inr (away, e) ↦
                  let none_here = rw (is_open_gate-own p k g false pend away) at before in
                  omega (arith, moved, after, none_here, v.matched p k, ap gates_wanted e)
              | inl ((a, b), e) ↦
                  let one_here =
                    rw (is_open_gate-own p k g true pend (same-pair p k _ _ a b)) at before in
                  let was : gates_wanted (find_if (has_work_key p k) works) ≡ 1 =
                    wanted-at works p k g.project_id g.work_item_id current a b found
                    ∙ rw gated refl in
                  omega (arith, moved, after, one_here, was, v.matched p k, ap gates_wanted e)
            ];
    }

same-GatesMatch :
    (ws ws' : List WorkItem) (gs gs' : List Gate)
    → ws' ≡ ws
    → gs' ≡ gs
    → GatesMatch ws gs
    → GatesMatch ws' gs'
same-GatesMatch ws ws' gs gs' e f v =
    subst (λ x. GatesMatch x gs') (sym e) (subst (λ x. GatesMatch ws x) (sym f) v)

pub pending-eq : (s : GateStatus) → is_pending s ≡ true → s ≡ pending
pending-eq pending h = refl
pending-eq approved h = cc
pending-eq rejected h = cc

pub decision-closes :
    (d : String) (s : GateStatus) → decision_status d ≡ ok s → is_pending s ≡ false
unfolding decision_status
decision-closes d s h = elim (Bool-cases (d == "approved")) [
  | inl e ↦ let same : ok approved ≡ ok s = rw e at h in ap is_pending (sym (ok-injective same))
  | inr e ↦ elim (Bool-cases (d == "rejected")) [
    | inl r ↦
        let same : ok rejected ≡ ok s = rw (e, r) at h in ap is_pending (sym (ok-injective same))
    | inr r ↦
        let bad : err (bad_argument "decision must be approved or rejected") ≡ ok s =
          rw (e, r) at h in
        cc bad
  ]
]

Change-GatesMatch :
    (db db' : WorkDb)
    → Change db db'
    → GatesMatch db.works db.gates
    → GatesMatch db'.works db'.gates
unfolding move_work
Change-GatesMatch db db' (keeps c) v = same-GatesMatch _ _ _ _ c.works_kept c.gates_kept v
Change-GatesMatch db db' (creates w c) v =
    same-GatesMatch _ _ _ _ c.work_added c.gates_kept
      (created-GatesMatch db.works db.gates w c.fresh c.starts_new v)
Change-GatesMatch db db' (moves env project work target expected reason evidence current incident c)
      v =
    let (before, after) = transition-ungated current.status target c.allowed in
    same-GatesMatch _ _ _ _ c.work_moved c.gates_kept (
      moved-GatesMatch db.works db.gates project work _ current
        (move_work-key (env.clock 0) target reason (with_incident incident evidence)) c.work_found
        before after v)
Change-GatesMatch db db' (opens_gate env g sponsors expected current pend c) v =
    same-GatesMatch _ _ _ _ c.work_gated c.gate_added (
      opened-GatesMatch db.works db.gates g (env.clock 0) current c.work_found c.was_active
        c.fresh_gate pend v)
Change-GatesMatch db db'
      (decides_gate env project gate sponsor decision status rationale evidence g a current d c) v =
    same-GatesMatch _ _ _ _ c.work_resumed c.gate_resolved (
      decided-GatesMatch db.works db.gates g (env.clock 1) (env.clock 2) status current c.own_work
        c.was_gated (find_if-Any (has_gate_key project gate) db.gates g c.gate_found)
        (pending-eq g.status c.was_pending) (decision-closes decision status d) v)
Change-GatesMatch db db' (starts_incident i active first c) v =
    same-GatesMatch _ _ _ _ c.works_kept c.gates_kept v
Change-GatesMatch db db' (records_attempt env a i c) v =
    same-GatesMatch _ _ _ _ c.works_kept c.gates_kept v

-- Every history keeps the gates and the work items in step: keys of gates are unique, a gated work
-- item has exactly one pending gate, and any other has none.
pub run-GatesMatch :
    (db : WorkDb) (os : List Op)
    → GatesMatch db.works db.gates
    → GatesMatch (run db os).works (run db os).gates
unfolding run
run-GatesMatch db [] v = v
run-GatesMatch db (o ∷ os) v =
    run-GatesMatch (step db o) os (Change-GatesMatch db (step db o) (step-Change db o) v)

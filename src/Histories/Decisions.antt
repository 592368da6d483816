-- ===== src/Histories/Decisions.antt =====
-- The decisions of a gate, over histories.
use agentic_mesh.Prelude.{
  String, true, false, Option, some, List, [], ◌∷◌, ◌≡◌, refl, sym, subst, ap, ◌∙◌, ◌==◌, eq_iff,
  any_of, find_if, Bool-cases, inl, inr, &&-true, find_if-true, find_if-update, some-injective, ok,
  err, >>=-then, ok-injective,
}
use mathlib.Core.Option
use agentic_mesh.Prelude.Json.{Fields}
use agentic_mesh.Work.{GateStatus, Gate, Approval, WorkDb, has_gate_key}
use agentic_mesh.Work.Rows.{any_of-find_if}
use agentic_mesh.Lifecycle.{Lived, WorkEnv, conflicting, lifecycle_required, evidence_or_empty}
use agentic_mesh.Lifecycle.Gates.{
  is_pending, resolve_gate, decision_status, decide_row, decide_gate,
}
use agentic_mesh.Lifecycle.Gating.{decide_row-Decides}
use agentic_mesh.Histories.{Op, step, run}
use agentic_mesh.Histories.Changes.{
  Change, keeps, creates, moves, opens_gate, decides_gate, starts_incident, records_attempt,
}
use agentic_mesh.Histories.Steps.{step-Change}
use agentic_mesh.Histories.Pending.{decision-closes, has_gate_key_self, resolve_gate-key}

has_gate_key-eq :
    (p k : String) (g : Gate) → has_gate_key p k g ≡ true → (g.project_id ≡ p) × (g.gate_id ≡ k)
unfolding has_gate_key
has_gate_key-eq p k g h =
    let (a, b) = &&-true (g.project_id == p) (g.gate_id == k) h in
    ((eq_iff g.project_id p).0 a, (eq_iff g.gate_id k).0 b)

-- A gate that is not pending is not the one that is decided.
other-gate :
    (gates : List Gate) (p k q l : String) (x g : Gate)
    → find_if (has_gate_key p k) gates ≡ some x
    → is_pending x.status ≡ false
    → find_if (has_gate_key q l) gates ≡ some g
    → is_pending g.status ≡ true
    → has_gate_key g.project_id g.gate_id x ≡ false
other-gate gates p k q l x g found closed target waiting =
    elim (Bool-cases (has_gate_key g.project_id g.gate_id x)) [
      | inr e ↦ e
      | inl e ↦
          let (a, b) = has_gate_key-eq p k x (find_if-true (has_gate_key p k) gates x found) in
          let (c, d) = has_gate_key-eq g.project_id g.gate_id x e in
          let (m, n) = has_gate_key-eq q l g (find_if-true (has_gate_key q l) gates g target) in
          let own : find_if (has_gate_key q l) gates ≡ some x =
            subst (λ y. find_if (has_gate_key y l) gates ≡ some x) (sym a ∙ c ∙ m)
              (subst (λ y. find_if (has_gate_key p y) gates ≡ some x) (sym b ∙ d ∙ n) found) in
          let same : x ≡ g = some-injective (sym own ∙ target) in
          cc (ap (λ y. is_pending y.status) same, closed, waiting)
    ]

added-gate :
    (gates : List Gate) (p k : String) (g x : Gate)
    → any_of (has_gate_key g.project_id g.gate_id) gates ≡ false
    → find_if (has_gate_key p k) gates ≡ some x
    → find_if (has_gate_key p k) (g ∷ gates) ≡ some x
unfolding find_if
added-gate gates p k g x fresh found = elim (Bool-cases (has_gate_key p k g)) [
  | inr e ↦ rw e found
  | inl e ↦
      let (a, b) = has_gate_key-eq p k g e in
      let none_before : any_of (has_gate_key p k) gates ≡ false =
        subst (λ y. any_of (has_gate_key y k) gates ≡ false) a
          (subst (λ y. any_of (has_gate_key g.project_id y) gates ≡ false) b fresh) in
      cc (any_of-find_if (has_gate_key p k) gates none_before, found)
]

Change-resolved :
    (db db' : WorkDb) (p k : String) (x : Gate)
    → Change db db'
    → is_pending x.status ≡ false
    → find_if (has_gate_key p k) db.gates ≡ some x
    → find_if (has_gate_key p k) db'.gates ≡ some x
Change-resolved db db' p k x (keeps c) closed found =
    ap (find_if (has_gate_key p k)) c.gates_kept ∙ found
Change-resolved db db' p k x (creates w c) closed found =
    ap (find_if (has_gate_key p k)) c.gates_kept ∙ found
Change-resolved db db' p k x
      (moves env project work target expected reason evidence current incident c) closed found =
    ap (find_if (has_gate_key p k)) c.gates_kept ∙ found
Change-resolved db db' p k x (opens_gate env g sponsors expected current pend c) closed found =
    ap (find_if (has_gate_key p k)) c.gate_added ∙ added-gate db.gates p k g x c.fresh_gate found
Change-resolved db db' p k x
      (decides_gate env project gate sponsor decision status rationale evidence g a current d c)
      closed found =
    ap (find_if (has_gate_key p k)) c.gate_resolved
    ∙ find_if-update (has_gate_key p k) (has_gate_key g.project_id g.gate_id)
        (resolve_gate (env.clock 1) status) db.gates (resolve_gate-key (env.clock 1) status p k)
    ∙ rw
        (
          found,
          Option.map,
          other-gate db.gates p k project gate x g found closed c.gate_found c.was_pending,
        )
        refl
Change-resolved db db' p k x (starts_incident i active first c) closed found =
    ap (find_if (has_gate_key p k)) c.gates_kept ∙ found
Change-resolved db db' p k x (records_attempt env a i c) closed found =
    ap (find_if (has_gate_key p k)) c.gates_kept ∙ found

run-resolved :
    (db : WorkDb) (os : List Op) (p k : String) (x : Gate)
    → is_pending x.status ≡ false
    → find_if (has_gate_key p k) db.gates ≡ some x
    → find_if (has_gate_key p k) (run db os).gates ≡ some x
unfolding run
run-resolved db [] p k x closed found = found
run-resolved db (o ∷ os) p k x closed found =
    run-resolved (step db o) os p k x closed
      (Change-resolved db (step db o) p k x (step-Change db o) closed found)

-- The gate of a decision, after it.
decided-gate :
    (db : WorkDb) (env : WorkEnv) (project gate sponsor decision : String) (status : GateStatus)
    (rationale : String) (evidence : Fields) (db' : WorkDb) (id : String)
    → decision_status decision ≡ ok status
    → decide_row db env project gate sponsor decision status rationale evidence ≡ ok (db', id)
    → (x : Gate) × (find_if (has_gate_key project gate) db'.gates ≡ some x)
      × (is_pending x.status ≡ false)
unfolding resolve_gate
decided-gate db env project gate sponsor decision status rationale evidence db' id hd h =
    decide_row-Decides db env project gate sponsor decision status rationale evidence db' id h
      λ g a current c same. (
        resolve_gate (env.clock 1) status g,
        ap (find_if (has_gate_key project gate)) c.gate_resolved
            ∙ find_if-update (has_gate_key project gate) (has_gate_key g.project_id g.gate_id)
                (resolve_gate (env.clock 1) status) db.gates
                (resolve_gate-key (env.clock 1) status project gate)
            ∙ rw (c.gate_found, Option.map, has_gate_key_self g) refl,
        decision-closes decision status hd,
      )

decide_row-resolved :
    (db : WorkDb) (env : WorkEnv) (project gate sponsor decision : String) (status : GateStatus)
    (rationale : String) (evidence : Fields) (x : Gate)
    → find_if (has_gate_key project gate) db.gates ≡ some x
    → is_pending x.status ≡ false
    → decide_row db env project gate sponsor decision status rationale evidence
      ≡ err (conflicting "gate is already resolved")
unfolding decide_row
decide_row-resolved db env project gate sponsor decision status rationale evidence x found closed =
    rw (found, closed) refl

-- A gate is decided once: after decide_gate has returned, and after any history from there on, every
-- further decision of the same gate whose sponsor, decision and rationale pass their checks is
-- refused as a conflict, whoever asks.
pub decide_gate-once :
    (db : WorkDb) (env : WorkEnv) (project gate sponsor decision rationale : String)
    (evidence : Option Fields) (db' : WorkDb) (read : Lived Approval) (os : List Op)
    (later : WorkEnv) (sponsor₂ decision₂ rationale₂ s d r : String) (status : GateStatus)
    (evidence₂ : Option Fields)
    → decide_gate db env project gate sponsor decision rationale evidence ≡ ok (db', read)
    → lifecycle_required sponsor₂ "sponsor_id" ≡ ok s
    → lifecycle_required decision₂ "decision" ≡ ok d
    → decision_status d ≡ ok status
    → lifecycle_required rationale₂ "rationale" ≡ ok r
    → decide_gate (run db' os) later project gate sponsor₂ decision₂ rationale₂ evidence₂
      ≡ err (conflicting "gate is already resolved")
unfolding decide_gate
decide_gate-once db env project gate sponsor decision rationale evidence db' read os later sponsor₂
      decision₂ rationale₂ s d r status evidence₂ h hs hd hst hr =
    >>=-then (lifecycle_required project "project_id") _ h λ p hp h₁.
      >>=-then (lifecycle_required gate "gate_id") _ h₁ λ k hk h₂.
        >>=-then (lifecycle_required sponsor "sponsor_id") _ h₂ λ s₁ hs₁ h₃.
          >>=-then (lifecycle_required decision "decision") _ h₃ λ d₁ hd₁ h₄.
            >>=-then (decision_status d₁) _ h₄ λ st₁ hst₁ h₅.
              >>=-then (lifecycle_required rationale "rationale") _ h₅ λ r₁ hr₁ h₆.
                >>=-then (decide_row db env p k s₁ d₁ st₁ r₁ (evidence_or_empty evidence)) _ h₆
                  λ y hy h₇.
                    let (x, found, closed) =
                      decided-gate db env p k s₁ d₁ st₁ r₁ (evidence_or_empty evidence) y.0 y.1 hst₁
                        hy in
                    let there : find_if (has_gate_key p k) db'.gates ≡ some x =
                      subst (λ z. find_if (has_gate_key p k) z.gates ≡ some x)
                        (ap (λ z. z.0) (ok-injective h₇)) found in
                    let refused =
                      decide_row-resolved (run db' os) later p k s d status r
                        (evidence_or_empty evidence₂) x (run-resolved db' os p k x closed there)
                        closed in
                    rw (hp, hk, hs, hd, hst, hr, refused) refl

-- ===== src/Histories/Deciding.antt =====
-- What decide_gate leaves in the tables of gates, approvals and work items.
use agentic_mesh.Prelude.{
  ℕ, ◌+◌, String, true, Option, none, some, ◌≡◌, refl, sym, subst, ap, ◌∙◌, ◌==◌, arith, eq_iff,
  find_if, find_if-true, is_none, ok, >>=-then, ok-injective, ◌⊎◌, inl, inr, Bool-cases,
}
use agentic_mesh.Prelude.Text.{strip}
use agentic_mesh.Prelude.Updates.{find_if-update_found}
use agentic_mesh.Prelude.Json.{Fields}
use agentic_mesh.Work.{
  pending, approved, rejected, GateStatus, WorkItem, Gate, Approval, WorkDb, has_work_key,
  has_gate_key, has_approval_key,
}
use agentic_mesh.Lifecycle.{Lived, WorkEnv, lifecycle_required, evidence_or_empty}
use agentic_mesh.Lifecycle.Gates.{
  is_approval_of, is_pending, decision_status, decide_approval, resolve_gate, set_work, decide_row,
  decide_gate,
}
use agentic_mesh.Lifecycle.Gating.{Decides, decide_row-Decides}
use agentic_mesh.Histories.Exhaustion.{lifecycle_required-ok}
use agentic_mesh.Histories.Finality.{set_work-key}
use agentic_mesh.Histories.Pending.{has_gate_key_self, resolve_gate-key}

-- A pending gate of gated work before a decision, and the rows after it.
pub record IsDecided (db db' : WorkDb) (clock : ℕ → ℕ)
    (project gate sponsor decision rationale : String) (evidence : Fields) (status : GateStatus)
    (g : Gate) (a : Approval) (w : WorkItem) : Type 0 where
  pub chosen :
      ((decision ≡ "approved") × (status ≡ approved))
      ⊎ ((decision ≡ "rejected") × (status ≡ rejected))
  pub gate_before : find_if (has_gate_key project gate) db.gates ≡ some g
  pub was_pending : g.status ≡ pending
  pub gate_after :
      find_if (has_gate_key project gate) db'.gates
      ≡ some (record g { status = status; resolved_at = some (clock 1) })
  pub approval_before : find_if (is_approval_of project gate sponsor) db.approvals ≡ some a
  pub undecided : a.decision ≡ none
  pub approval_after :
      find_if (is_approval_of project gate sponsor) db'.approvals
      ≡ some (record a {
        decision = some decision;
        rationale = some rationale;
        evidence = evidence;
        decided_at = some (clock 0);
      })
  pub work_before : find_if (has_work_key project g.work_item_id) db.works ≡ some w
  pub was_gated : w.status ≡ "gated"
  pub work_after :
      find_if (has_work_key project g.work_item_id) db'.works
      ≡ some (record w { status = "active"; version = w.version + 1; updated_at = clock 2 })

pending-eq : (s : GateStatus) → is_pending s ≡ true → s ≡ pending
pending-eq pending h = refl
pending-eq approved h = cc
pending-eq rejected h = cc

none-eq : (o : Option String) → is_none o ≡ true → o ≡ none
none-eq none h = refl
none-eq (some x) h = cc

decision_status-chosen :
    (decision : String) (status : GateStatus)
    → decision_status decision ≡ ok status
    → ((decision ≡ "approved") × (status ≡ approved))
      ⊎ ((decision ≡ "rejected") × (status ≡ rejected))
unfolding decision_status
decision_status-chosen decision status h = elim (Bool-cases (decision == "approved")) [
  | inl e ↦
      let same : ok approved ≡ ok status = rw e at h in
      inl ((eq_iff decision "approved").0 e, sym (ok-injective same))
  | inr e ↦ elim (Bool-cases (decision == "rejected")) [
    | inl f ↦
        let same : ok rejected ≡ ok status = rw (e, f) at h in
        inr ((eq_iff decision "rejected").0 f, sym (ok-injective same))
    | inr f ↦ let bad = rw (e, f) at h in cc bad
  ]
]

own_approval :
    (project gate sponsor : String) (g : Gate) (a : Approval)
    → has_gate_key project gate g ≡ true
    → is_approval_of project gate sponsor a ≡ true
    → has_approval_key g.project_id a.approval_id a ≡ true
unfolding has_gate_key is_approval_of has_approval_key
own_approval project gate sponsor g a own asked = ground (
  arith,
  eq_iff g.project_id project,
  eq_iff a.project_id project,
  eq_iff a.project_id g.project_id,
  eq_iff a.approval_id a.approval_id,
)

decide_approval-same :
    (now : ℕ) (decision rationale : String) (evidence : Fields) (p k s : String) (x : Approval)
    → is_approval_of p k s (decide_approval now decision rationale evidence x)
      ≡ is_approval_of p k s x
unfolding is_approval_of decide_approval
decide_approval-same now decision rationale evidence p k s x = refl

Decides-IsDecided :
    (db db' : WorkDb) (env : WorkEnv) (project gate sponsor decision : String) (status : GateStatus)
    (rationale : String) (evidence : Fields) (g : Gate) (a : Approval) (w : WorkItem)
    → decision_status decision ≡ ok status
    → Decides db env project gate sponsor decision status rationale evidence g a w db'
    → IsDecided db db' env.clock project gate sponsor decision rationale evidence status g a w
unfolding decide_approval resolve_gate set_work
Decides-IsDecided db db' env project gate sponsor decision status rationale evidence g a w valid d =
    let own = find_if-true (has_gate_key project gate) db.gates g d.gate_found in
    let asked =
      find_if-true (is_approval_of project gate sponsor) db.approvals a d.approval_found in
    record {
      chosen = decision_status-chosen decision status valid;
      gate_before = d.gate_found;
      was_pending = pending-eq g.status d.was_pending;
      gate_after =
          ap (find_if (has_gate_key project gate)) d.gate_resolved
          ∙ find_if-update_found (has_gate_key project gate) (has_gate_key g.project_id g.gate_id)
              (resolve_gate (env.clock 1) status) db.gates g
              (resolve_gate-key (env.clock 1) status project gate) d.gate_found
              (has_gate_key_self g);
      approval_before = d.approval_found;
      undecided = none-eq a.decision d.undecided;
      approval_after =
          ap (find_if (is_approval_of project gate sponsor)) d.approval_decided
          ∙ find_if-update_found (is_approval_of project gate sponsor)
              (has_approval_key g.project_id a.approval_id)
              (decide_approval (env.clock 0) decision rationale evidence) db.approvals a
              (decide_approval-same (env.clock 0) decision rationale evidence project gate sponsor)
              d.approval_found (own_approval project gate sponsor g a own asked);
      work_before = d.work_found;
      was_gated = (eq_iff w.status "gated").0 d.was_gated;
      work_after =
          ap (find_if (has_work_key project g.work_item_id)) d.work_resumed
          ∙ find_if-update_found (has_work_key project g.work_item_id)
              (has_work_key g.project_id g.work_item_id) (set_work (env.clock 2) "active") db.works
              w (set_work-key (env.clock 2) "active" project g.work_item_id) d.work_found
              (find_if-true (has_work_key g.project_id g.work_item_id) db.works w d.own_work);
    }

-- A call of decide_gate that returns found a pending gate of gated work, and an approval of the
-- sponsor without a decision. The decision was "approved" or "rejected", and the gate now has the
-- status of that name; the sponsor's approval records the decision, its rationale and evidence; and
-- the work item is active again, at the next version. Arguments are read without the blanks around
-- them.
pub decide_gate-IsDecided :
    (db : WorkDb) (env : WorkEnv) (project gate sponsor decision rationale : String)
    (evidence : Option Fields) (db' : WorkDb) (read : Lived Approval)
    → decide_gate db env project gate sponsor decision rationale evidence ≡ ok (db', read)
    → (status : GateStatus) × (g : Gate) × (a : Approval) × (w : WorkItem) × IsDecided db db'
        env.clock
        (strip project)
        (strip gate)
        (strip sponsor)
        (strip decision)
        (strip rationale)
        (evidence_or_empty evidence)
        status
        g
        a
        w
unfolding decide_gate
decide_gate-IsDecided db env project gate sponsor decision rationale evidence db' read h =
    >>=-then (lifecycle_required project "project_id") _ h λ p hp h₁.
      >>=-then (lifecycle_required gate "gate_id") _ h₁ λ k hk h₂.
        >>=-then (lifecycle_required sponsor "sponsor_id") _ h₂ λ s hs h₃.
          >>=-then (lifecycle_required decision "decision") _ h₃ λ c hc h₄.
            >>=-then (decision_status c) _ h₄ λ status hd h₅.
              >>=-then (lifecycle_required rationale "rationale") _ h₅ λ r hr h₆.
                >>=-then (decide_row db env p k s c status r (evidence_or_empty evidence)) _ h₆
                  λ d hx h₇.
                    decide_row-Decides db env p k s c status r (evidence_or_empty evidence) d.0 d.1
                      hx
                      λ g a w x same. (
                        status,
                        g,
                        a,
                        w,
                        rw
                            (
                              lifecycle_required-ok project "project_id" p hp,
                              lifecycle_required-ok gate "gate_id" k hk,
                              lifecycle_required-ok sponsor "sponsor_id" s hs,
                              lifecycle_required-ok decision "decision" c hc,
                              lifecycle_required-ok rationale "rationale" r hr,
                            )
                            (subst
                              (λ y.
                                IsDecided db y env.clock p k s c r (evidence_or_empty evidence)
                                  status g a w)
                              (ap (λ x. x.0) (ok-injective h₇))
                              (Decides-IsDecided db d.0 env p k s c status r
                                (evidence_or_empty evidence) g a w hd x)),
                      )

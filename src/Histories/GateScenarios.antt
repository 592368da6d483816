-- ===== src/Histories/GateScenarios.antt =====
-- A gate that is opened and decided: tests, and the theorems on gates and versions at them.
use agentic_mesh.Prelude.{
  ℕ, String, true, none, some, [], ◌∷◌, ◌≡◌, refl, arith, find_if, count_if, ok, err, Bool-cases,
  inl, inr,
}
use mathlib.Core.Option
use agentic_mesh.Prelude.Text.{strip}
use agentic_mesh.Prelude.Int.{pos}
use agentic_mesh.Work.{rejected, GateStatus, Gate, WorkItem, Approval, WorkDb, has_work_key}
use agentic_mesh.Lifecycle.{
  Lived, bad_argument, conflicting, lifecycle_required, transition_work_item, evidence_or_empty,
}
use agentic_mesh.Lifecycle.Gates.{decision_status, open_gate, decide_gate}
use agentic_mesh.Histories.{Op, opens, decides, step, run}
use agentic_mesh.Histories.Abstraction.{WorkStep, step-WorkStep}
use agentic_mesh.Histories.Pending.{run-GatesMatch}
use agentic_mesh.Histories.Matching.{GatesMatch}
use agentic_mesh.Histories.Deciding.{IsDecided, decide_gate-IsDecided}
use agentic_mesh.Histories.Decisions.{decide_gate-once}
use agentic_mesh.Histories.Versions.{Moved, transition-Moved}
use agentic_mesh.Histories.Scenarios.{work_env, work_item, work_db, returns, result_of, returned}

-- active work without gates
no-gates : GatesMatch work_db.works work_db.gates
unfolding count_if find_if
no-gates = record {
  gate_once = λ p g. omega arith;
  matched = λ p w. elim (Bool-cases (has_work_key p w work_item)) [
    | inl e ↦ rw e refl
    | inr e ↦ rw e refl
  ];
}

abbrev opening : Op
opening = opens work_env "p" "w" "g" "release" "worker" ("ann" ∷ []) "c" (pos 2) none

abbrev approving : Op
approving = decides work_env "p" "g" "ann" "approved" "it is ready" none

run-GatesMatch_example :
    GatesMatch
      (run work_db (opening ∷ approving ∷ [])).works
      (run work_db (opening ∷ approving ∷ [])).gates
run-GatesMatch_example = run-GatesMatch work_db (opening ∷ approving ∷ []) no-gates

step-WorkStep_example :
    WorkStep "p" "w"
      (find_if (has_work_key "p" "w") work_db.works)
      (find_if (has_work_key "p" "w") (step work_db opening).works)
step-WorkStep_example = step-WorkStep work_db opening "p" "w"

-- the gate's opening is a step of the abstract life: the work item is gated at the next version
opening_test :
    Option.map {B = String × ℕ}
      (λ w. (w.status, w.version))
      (find_if (has_work_key "p" "w") (step work_db opening).works)
    ≡ some ("gated", 3)
unfolding step open_gate find_if has_work_key
opening_test = refl

unfoldable deciding : Lived (WorkDb × Lived Approval)
unfolding run decide_gate
deciding =
    decide_gate (run work_db (opening ∷ [])) work_env "p" "g" "ann" "approved" "it is ready" none

deciding_test : returns deciding ≡ true
unfolding deciding step run open_gate decide_gate
deciding_test = refl

decided : WorkDb × Lived Approval
decided = result_of (work_db, err (bad_argument "")) deciding

checked_sponsor : lifecycle_required "bob" "sponsor_id" ≡ ok "bob"
unfolding lifecycle_required
checked_sponsor = refl

checked_decision : lifecycle_required "rejected" "decision" ≡ ok "rejected"
unfolding lifecycle_required
checked_decision = refl

checked_status : decision_status "rejected" ≡ ok rejected
unfolding decision_status
checked_status = refl

checked_rationale : lifecycle_required " too late" "rationale" ≡ ok "too late"
unfolding lifecycle_required
checked_rationale = refl

decide_gate-once_example :
    decide_gate (run decided.0 (opening ∷ [])) work_env "p" "g" "bob" "rejected" " too late" none
    ≡ err (conflicting "gate is already resolved")
unfolding deciding decided
decide_gate-once_example =
    decide_gate-once (run work_db (opening ∷ [])) work_env "p" "g" "ann" "approved" "it is ready"
      none decided.0 decided.1 (opening ∷ []) work_env "bob" "rejected" " too late" "bob" "rejected"
      "too late" rejected none (returned (work_db, err (bad_argument "")) deciding deciding_test)
      checked_sponsor checked_decision checked_status checked_rationale

-- the blanks around the gate's identifier are not read
unfoldable rejecting : Lived (WorkDb × Lived Approval)
unfolding run decide_gate
rejecting =
    decide_gate (run work_db (opening ∷ [])) work_env "p" " g" "ann" "rejected" "too late" none

rejecting_test : returns rejecting ≡ true
unfolding rejecting step run open_gate decide_gate
rejecting_test = refl

rejected_gate : WorkDb × Lived Approval
rejected_gate = result_of (work_db, err (bad_argument "")) rejecting

decide_gate-IsDecided_example :
    (status : GateStatus) × (g : Gate) × (a : Approval) × (w : WorkItem) × IsDecided
      (run work_db (opening ∷ []))
      rejected_gate.0
      work_env.clock
      (strip "p")
      (strip " g")
      (strip "ann")
      (strip "rejected")
      (strip "too late")
      (evidence_or_empty none)
      status
      g
      a
      w
unfolding rejecting rejected_gate
decide_gate-IsDecided_example =
    decide_gate-IsDecided (run work_db (opening ∷ [])) work_env "p" " g" "ann" "rejected" "too late"
      none rejected_gate.0 rejected_gate.1
      (returned (work_db, err (bad_argument "")) rejecting rejecting_test)

unfoldable completing : Lived (WorkDb × Lived WorkItem)
unfolding transition_work_item
completing =
    transition_work_item work_db work_env "p" "w" " completed" "ann" "c" (pos 2) "done" none

completing_test : returns completing ≡ true
unfolding completing transition_work_item
completing_test = refl

completed : WorkDb × Lived WorkItem
completed = result_of (work_db, err (bad_argument "")) completing

transition-Moved_example :
    (current : WorkItem) × (moved : WorkItem) × Moved work_db.works completed.0.works
      (strip "p")
      (strip "w")
      (strip " completed")
      (pos 2)
      current
      moved
unfolding completing completed
transition-Moved_example =
    transition-Moved work_db work_env "p" "w" " completed" "ann" "c" (pos 2) "done" none completed.0
      completed.1 (returned (work_db, err (bad_argument "")) completing completing_test)

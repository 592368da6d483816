-- ===== src/Histories.antt =====
-- Histories of work: any sequence of the operations of LifecycleStore (lifecycle.py) and of
-- ReliabilityStore (reliability.py), and of writes by other components to the tables that these two
-- do not own. A failing operation leaves the tables as they were.
pub mod Changes
pub mod Steps
pub mod Invariant
pub mod Exhaustion
pub mod Finality
pub mod Matching
pub mod Abstraction
pub mod Pending
pub mod Decisions
pub mod Deciding
pub mod Versions
pub mod GateScenarios
pub mod Scenarios
use agentic_mesh.Prelude.{ℕ, String, Bool, Option, none, some, List, [], ◌∷◌, ◌≡◌, Result, ok, err}
use agentic_mesh.Prelude.Json.{Fields}
use agentic_mesh.Prelude.Int.{ℤ}
use agentic_mesh.Work.{Stage, Outcome, WorkDb}
use agentic_mesh.Lifecycle.{WorkEnv, create_project, create_work_item, transition_work_item}
use agentic_mesh.Lifecycle.Gates.{open_gate, decide_gate}
use agentic_mesh.Reliability.{RetryEnv}
use agentic_mesh.Reliability.Incidents.{start}
use agentic_mesh.Reliability.Attempts.{record_attempt}

pub data Op : Type 0 where
  creates_project : String → String → List String → Op
  creates_work : WorkEnv → String → String → String → String → String → String → Op
  transitions :
      WorkEnv → String → String → String → String → String → ℤ → String → Option Fields → Op
  opens :
      WorkEnv
      → String
      → String
      → String
      → String
      → String
      → List String
      → String
      → ℤ
      → Option Fields
      → Op
  decides : WorkEnv → String → String → String → String → String → Option Fields → Op
  starts : RetryEnv → String → String → String → String → String → String → String → Op
  records :
      RetryEnv
      → String
      → String
      → String
      → String
      → Stage
      → ℤ
      → Outcome
      → String
      → Option String
      → Option Fields
      → Op
  -- other components write tables other than those of work items, gates, approvals, incidents and
  -- attempts; the tables that they write are then as in the argument (the writes of
  -- sponsor_approvals.py and flow_engine.py to work items and gates are not among these)
  others : WorkDb → Op

abbrev pub committed {ℓ κ} : {E : Type ℓ} {A : Type κ} → WorkDb → Result E (WorkDb × A) → WorkDb
committed db (ok (db', a)) = db'
committed db (err e) = db

abbrev pub or_same {ℓ} : {E : Type ℓ} → WorkDb → Result E WorkDb → WorkDb
or_same db (ok db') = db'
or_same db (err e) = db

unfoldable pub step : WorkDb → Op → WorkDb
step db (creates_project project name sponsors) =
    or_same db (create_project db project name sponsors)
step db (creates_work env project work title owner actor correlation) =
    committed db (create_work_item db env project work title owner actor correlation)
step db (transitions env project work target actor correlation expected reason evidence) =
    committed db
      (transition_work_item db env project work target actor correlation expected reason evidence)
step db (opens env project work gate kind requester sponsors correlation expected evidence) =
    committed db
      (open_gate db env project work gate kind requester sponsors correlation expected evidence)
step db (decides env project gate sponsor decision rationale evidence) =
    committed db (decide_gate db env project gate sponsor decision rationale evidence)
step db (starts env project work key category summary source actor) =
    committed db (start db env project work key category summary source actor)
step db (records env project work incident attempt stage number outcome actor correction evidence) =
    committed db (
      record_attempt db env project work incident attempt stage number outcome actor correction
        evidence)
step db (others db') = record db {
  projects = db'.projects;
  sponsors = db'.sponsors;
  requests = db'.requests;
  runs = db'.runs;
  audits = db'.audits;
  journal = db'.journal;
  queue = db'.queue;
}

unfoldable pub run : WorkDb → List Op → WorkDb
run db [] = db
run db (o ∷ os) = run (step db o) os

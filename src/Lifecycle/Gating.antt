-- ===== src/Lifecycle/Gating.antt =====
-- What create_work_item, open_gate and decide_gate have done where they return.
use agentic_mesh.Prelude.{
  ◌+◌, String, true, false, Option, some, List, ◌∷◌, ◌≡◌, refl, ◌==◌, not, leb, any_of, all_of,
  find_if, update_if, is_none, guard, guard-ok, not-true, ok, >>=-then, >>-then, or_raise,
  or_raise-ok, ok-injective, subst, ap, sym, eq_iff, &&-true, find_if-true, ◌∙◌,
}
use agentic_mesh.Prelude.Json.{Fields}
use agentic_mesh.Prelude.Int.{ℤ}
use Prim.Native.String.{◌++◌ as append_text}
use agentic_mesh.Queue.Store.{has_pair}
use agentic_mesh.Work.{
  WorkItem, GateStatus, Gate, Approval, WorkDb, has_work_key, has_gate_key, has_approval_key,
  publish,
}
use agentic_mesh.Work.Rows.{publish-Keeps}
use agentic_mesh.Lifecycle.{
  conflicting, no_such, unauthorised, transaction_failed, WorkEnv, lock_work_item, outbound_payload,
  Lived, lifecycle_required, from_journal, is_referenced, new_work, created_event, insert_work,
  create_work_item,
}
use agentic_mesh.Lifecycle.Moving.{from_journal-ok}
use agentic_mesh.Lifecycle.Gates.{
  is_version, is_approval_of, insert_approvals, set_work, gate_rows, gate_event, gate_row,
  is_pending, decide_approval, resolve_gate, decide_rows, decision_event, decide_row,
}

-- The gate `g` was opened on active work.
pub record Opens (db : WorkDb) (env : WorkEnv) (g : Gate) (sponsors : List String) (expected : ℤ)
    (current : WorkItem) (db' : WorkDb) : Type 0 where
  pub work_found : find_if (has_work_key g.project_id g.work_item_id) db.works ≡ some current
  pub fresh_version : is_version expected current.version ≡ true
  pub was_active : (current.status == "active") ≡ true
  pub known_sponsors : all_of (λ s. has_pair g.project_id s db.sponsors) sponsors ≡ true
  pub fresh_gate : any_of (has_gate_key g.project_id g.gate_id) db.gates ≡ false
  pub approvals_added :
      insert_approvals g.project_id g.gate_id sponsors db.approvals ≡ ok db'.approvals
  pub gate_added : db'.gates ≡ g ∷ db.gates
  pub work_gated :
      db'.works
      ≡ update_if
          (has_work_key g.project_id g.work_item_id)
          (set_work (env.clock 0) "gated")
          db.works
  pub incidents_kept : db'.incidents ≡ db.incidents
  pub attempts_kept : db'.attempts ≡ db.attempts

pub gate_row-Opens {ℓ} :
    {P : Type ℓ} (db : WorkDb) (env : WorkEnv) (g : Gate) (sponsors : List String) (expected : ℤ)
    (db' : WorkDb)
    → gate_row db env g sponsors expected ≡ ok db'
    → ((current : WorkItem) → Opens db env g sponsors expected current db' → P)
    → P
unfolding gate_row lock_work_item gate_rows
gate_row-Opens db env g sponsors expected db' h k =
    >>=-then (lock_work_item db g.project_id g.work_item_id) _ h λ current hw h₁.
      >>-then
        (guard (is_version expected current.version) (conflicting "work item version is stale")) _
        h₁
        λ same h₂.
          >>-then
            (guard (current.status == "active") (conflicting "only active work can enter a gate")) _
            h₂
            λ active h₃.
              >>-then
                (guard (all_of (λ s. has_pair g.project_id s db.sponsors) sponsors)
                  (unauthorised "gate approver is not a project sponsor"))
                _ h₃
                λ known h₄.
                  >>-then
                    (guard (not (any_of (has_gate_key g.project_id g.gate_id) db.gates))
                      (conflicting "gate already exists"))
                    _ h₄
                    λ fresh h₅.
                      >>-then (guard (leb (current.version + 1) 2147483647) transaction_failed) _ h₅
                        λ fits h₆.
                          >>=-then (insert_approvals g.project_id g.gate_id sponsors db.approvals) _
                            h₆
                            λ approvals ha h₇.
                              let kept =
                                publish-Keeps env.sha256 (env.clock 1)
                                  (gate_rows db env g approvals) (gate_event g) "lifecycle.events"
                                  (outbound_payload g.project_id g.work_item_id "gate.opened"
                                    "gated")
                                  db' (from_journal-ok _ db' h₇) in
                              k current (record {
                                work_found = or_raise-ok _ _ hw;
                                fresh_version = guard-ok _ _ same;
                                was_active = guard-ok _ _ active;
                                known_sponsors = guard-ok _ _ known;
                                fresh_gate = not-true _ (guard-ok _ _ fresh);
                                approvals_added = cc (ha, kept.approvals_kept);
                                gate_added = kept.gates_kept;
                                work_gated = kept.works_kept;
                                incidents_kept = kept.incidents_kept;
                                attempts_kept = kept.attempts_kept;
                              })

-- The pending gate `g` of gated work was decided by the approver of `a`.
pub record Decides (db : WorkDb) (env : WorkEnv) (project gate sponsor decision : String)
    (status : GateStatus) (rationale : String) (evidence : Fields) (g : Gate) (a : Approval)
    (current : WorkItem) (db' : WorkDb) : Type 0 where
  pub gate_found : find_if (has_gate_key project gate) db.gates ≡ some g
  pub was_pending : is_pending g.status ≡ true
  pub approval_found : find_if (is_approval_of project gate sponsor) db.approvals ≡ some a
  pub undecided : is_none a.decision ≡ true
  pub work_found : find_if (has_work_key project g.work_item_id) db.works ≡ some current
  pub own_work : find_if (has_work_key g.project_id g.work_item_id) db.works ≡ some current
  pub was_gated : (current.status == "gated") ≡ true
  pub approval_decided :
      db'.approvals
      ≡ update_if
          (has_approval_key g.project_id a.approval_id)
          (decide_approval (env.clock 0) decision rationale evidence)
          db.approvals
  pub gate_resolved :
      db'.gates
      ≡ update_if (has_gate_key g.project_id g.gate_id) (resolve_gate (env.clock 1) status) db.gates
  pub work_resumed :
      db'.works
      ≡ update_if
          (has_work_key g.project_id g.work_item_id)
          (set_work (env.clock 2) "active")
          db.works
  pub incidents_kept : db'.incidents ≡ db.incidents
  pub attempts_kept : db'.attempts ≡ db.attempts

-- A gate that is found belongs to the project that was asked for.
own-work :
    (project gate : String) (g : Gate) (db : WorkDb) (current : WorkItem)
    → find_if (has_gate_key project gate) db.gates ≡ some g
    → find_if (has_work_key project g.work_item_id) db.works ≡ some current
    → find_if (has_work_key g.project_id g.work_item_id) db.works ≡ some current
unfolding has_gate_key
own-work project gate g db current found work =
    let own = find_if-true (has_gate_key project gate) db.gates g found in
    let (a, b) = &&-true (g.project_id == project) (g.gate_id == gate) own in
    subst (λ p. find_if (has_work_key p g.work_item_id) db.works ≡ some current)
      (sym ((eq_iff g.project_id project).0 a)) work

pub decide_row-Decides {ℓ} :
    {P : Type ℓ} (db : WorkDb) (env : WorkEnv) (project gate sponsor decision : String)
    (status : GateStatus) (rationale : String) (evidence : Fields) (db' : WorkDb) (id : String)
    → decide_row db env project gate sponsor decision status rationale evidence ≡ ok (db', id)
    → ((g : Gate) (a : Approval) (current : WorkItem)
        → Decides db env project gate sponsor decision status rationale evidence g a current db'
        → id ≡ a.approval_id
        → P)
    → P
unfolding decide_row lock_work_item decide_rows
decide_row-Decides db env project gate sponsor decision status rationale evidence db' id h k =
    >>=-then (or_raise (find_if (has_gate_key project gate) db.gates) (no_such "gate not found")) _
      h
      λ g hg h₁.
        >>-then (guard (is_pending g.status) (conflicting "gate is already resolved")) _ h₁
          λ pending h₂.
            >>=-then
              (or_raise (find_if (is_approval_of project gate sponsor) db.approvals)
                (unauthorised "sponsor is not authorized for this gate"))
              _ h₂
              λ a ha h₃.
                >>-then (guard (is_none a.decision) (conflicting "approval is already decided")) _
                  h₃
                  λ undecided h₄.
                    >>=-then (lock_work_item db project g.work_item_id) _ h₄ λ current hw h₅.
                      >>-then
                        (guard (current.status == "gated")
                          (conflicting "gated work item state is inconsistent"))
                        _ h₅
                        λ gated h₆.
                          >>-then (guard (leb (current.version + 1) 2147483647) transaction_failed)
                            _ h₆
                            λ fits h₇.
                              >>=-then
                                (from_journal (
                                  publish env.sha256 (env.clock 3)
                                    (decide_rows db env g a decision status rationale evidence)
                                    (decision_event g sponsor decision rationale evidence)
                                    "lifecycle.events"
                                    (outbound_payload project g.work_item_id
                                      (append_text "gate." decision) "active")))
                                _ h₇
                                λ d hd h₈.
                                  let kept =
                                    publish-Keeps env.sha256 (env.clock 3)
                                      (decide_rows db env g a decision status rationale evidence)
                                      (decision_event g sponsor decision rationale evidence)
                                      "lifecycle.events"
                                      (outbound_payload project g.work_item_id
                                        (append_text "gate." decision) "active")
                                      d (from_journal-ok _ d hd) in
                                  k g a current
                                    (subst
                                      (Decides db env project gate sponsor decision status rationale
                                        evidence g a current)
                                      (ap (λ x. x.0) (ok-injective h₈))
                                      (record {
                                        gate_found = or_raise-ok _ _ hg;
                                        was_pending = guard-ok _ _ pending;
                                        approval_found = or_raise-ok _ _ ha;
                                        undecided = guard-ok _ _ undecided;
                                        work_found = or_raise-ok _ _ hw;
                                        own_work =
                                            own-work project gate g db current (or_raise-ok _ _ hg)
                                              (or_raise-ok _ _ hw);
                                        was_gated = guard-ok _ _ gated;
                                        approval_decided = kept.approvals_kept;
                                        gate_resolved = kept.gates_kept;
                                        work_resumed = kept.works_kept;
                                        incidents_kept = kept.incidents_kept;
                                        attempts_kept = kept.attempts_kept;
                                      }))
                                    (ap (λ x. x.1) (sym (ok-injective h₈)))

-- The new work item `w`, at version 1.
pub record Creates (db : WorkDb) (w : WorkItem) (db' : WorkDb) : Type 0 where
  pub fresh : any_of (has_work_key w.project_id w.work_item_id) db.works ≡ false
  pub starts_new : w.status ≡ "new"
  pub first_version : w.version ≡ 1
  pub work_added : db'.works ≡ w ∷ db.works
  pub gates_kept : db'.gates ≡ db.gates
  pub approvals_kept : db'.approvals ≡ db.approvals
  pub incidents_kept : db'.incidents ≡ db.incidents
  pub attempts_kept : db'.attempts ≡ db.attempts

insert_work-adds :
    (db : WorkDb) (w : WorkItem) (role : Option String) (d : WorkDb)
    → insert_work db w role ≡ ok d
    → (any_of (has_work_key w.project_id w.work_item_id) db.works ≡ false)
      × (record db { works = w ∷ db.works } ≡ d)
unfolding insert_work
insert_work-adds db w role d h =
    >>-then
      (guard (not (any_of (has_work_key w.project_id w.work_item_id) db.works))
        (conflicting "work item already exists"))
      _ h
      λ fresh h₁.
        >>-then
          (guard (is_referenced db w.project_id role) (no_such "project or owning role not found"))
          _ h₁ λ known h₂. (not-true _ (guard-ok _ _ fresh), ok-injective h₂)

pub create_work_item-Creates :
    (db : WorkDb) (env : WorkEnv) (project work title owner actor correlation : String)
    (db' : WorkDb) (read : Lived WorkItem)
    → create_work_item db env project work title owner actor correlation ≡ ok (db', read)
    → (w : WorkItem) × Creates db w db'
unfolding create_work_item
create_work_item-Creates db env project work title owner actor correlation db' read h =
    >>=-then (lifecycle_required project "project_id") _ h λ p hp h₁.
      >>=-then (lifecycle_required work "work_item_id") _ h₁ λ k hk h₂.
        >>=-then (lifecycle_required title "title") _ h₂ λ t ht h₃.
          >>=-then (lifecycle_required owner "owner_role_id") _ h₃ λ o ho h₄.
            >>=-then (lifecycle_required actor "actor_id") _ h₄ λ a ha h₅.
              >>=-then (lifecycle_required correlation "correlation_id") _ h₅ λ c hc h₆.
                >>=-then (insert_work db (new_work env p k t o) (some o)) _ h₆ λ d hd h₇.
                  >>=-then
                    (from_journal (
                      publish env.sha256 (env.clock 1) d (created_event p k a c) "lifecycle.events"
                        (outbound_payload p k "work.created" "new")))
                    _ h₇
                    λ e he h₈.
                      let (fresh, added) =
                        insert_work-adds db (new_work env p k t o) (some o) d hd in
                      let kept =
                        publish-Keeps env.sha256 (env.clock 1) d (created_event p k a c)
                          "lifecycle.events" (outbound_payload p k "work.created" "new") e
                          (from_journal-ok _ e he) in
                      (
                        new_work env p k t o,
                        subst (Creates db (new_work env p k t o)) (ap (λ x. x.0) (ok-injective h₈))
                            (record {
                              fresh = fresh;
                              starts_new = refl;
                              first_version = refl;
                              work_added = kept.works_kept ∙ ap (λ x. x.works) (sym added);
                              gates_kept = kept.gates_kept ∙ ap (λ x. x.gates) (sym added);
                              approvals_kept =
                                  kept.approvals_kept ∙ ap (λ x. x.approvals) (sym added);
                              incidents_kept =
                                  kept.incidents_kept ∙ ap (λ x. x.incidents) (sym added);
                              attempts_kept = kept.attempts_kept ∙ ap (λ x. x.attempts) (sym added);
                            }),
                      )

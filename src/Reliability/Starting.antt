-- ===== src/Reliability/Starting.antt =====
-- What start has done where it returns, and that each operation on incidents keeps the policy.
use agentic_mesh.Prelude.{
  ℕ, String, true, false, Option, none, some, List, ◌∷◌, ◌≡◌, sym, subst, ap, ◌∙◌, ◌==◌, not, arith,
  any_of, find_if, count_if, guard, guard-ok, not-true, ok, >>=-then, >>-then, or_raise,
  ok-injective, Bool-cases, inl, inr, ◌⊎◌, count_if-of_none,
}
use agentic_mesh.Work.{
  technical, WorkItem, IncidentStatus, Incident, Attempt, WorkDb, has_work_key, has_incident_key,
  is_open_incident,
}
use agentic_mesh.Work.Rows.{any_of-find_if}
use agentic_mesh.Reliability.{
  RetryEnv, conflicts, unknown, policy_failed, request_fingerprint_of, audit, journal_event,
  route_retry,
}
use agentic_mesh.Reliability.Incidents.{
  ReliabilityStatus, status_of, is_attempt_of, FailureReport, report_request, new_incident,
  insert_incident, started_audit, started_event, start_new, start_once, start_row,
}
use agentic_mesh.Reliability.Rows.{has_incident_key-eq}
use agentic_mesh.Reliability.Steps.{journal_event-Keeps, route_retry-Keeps}
use agentic_mesh.Reliability.Policy.{follows, row_follows, is_failure_of, FollowsPolicy}

insert_incident-adds :
    (db : WorkDb) (i : Incident) (d : WorkDb)
    → insert_incident db i ≡ ok d
    → (any_of (has_incident_key i.project_id i.incident_id) db.incidents ≡ false)
      × (record db { incidents = i ∷ db.incidents } ≡ d)
unfolding insert_incident
insert_incident-adds db i d h =
    >>-then
      (guard (not (any_of (has_incident_key i.project_id i.incident_id) db.incidents))
        policy_failed)
      _ h
      λ fresh h₁.
        >>-then
          (guard (not (any_of (is_open_incident i.project_id i.work_item_id) db.incidents))
            policy_failed)
          _ h₁ λ single h₂. (not-true _ (guard-ok _ _ fresh), ok-injective h₂)

-- A new incident, which is active at the first technical attempt, and nothing else.
pub record Starts (db : WorkDb) (i : Incident) (db' : WorkDb) : Type 0 where
  pub fresh : any_of (has_incident_key i.project_id i.incident_id) db.incidents ≡ false
  pub works_kept : db'.works ≡ db.works
  pub gates_kept : db'.gates ≡ db.gates
  pub approvals_kept : db'.approvals ≡ db.approvals
  pub attempts_kept : db'.attempts ≡ db.attempts
  pub incident_added : db'.incidents ≡ i ∷ db.incidents

new-follows :
    (i : Incident) (n f : ℕ)
    → i.status ≡ IncidentStatus.active
    → i.next ≡ some (technical, 1)
    → row_follows none n f ≡ true
    → row_follows (some i) n f ≡ true
unfolding row_follows follows
new-follows i n f active next h = rw (active, next) (ground (arith, h))

-- The key of a fresh incident finds none before.
fresh-key :
    (p k : String) (i : Incident) (incidents : List Incident)
    → any_of (has_incident_key i.project_id i.incident_id) incidents ≡ false
    → has_incident_key p k i ≡ true
    → any_of (has_incident_key p k) incidents ≡ false
fresh-key p k i incidents fresh key =
    let (a, b) = has_incident_key-eq p k i key in
    subst (λ q. any_of (has_incident_key q k) incidents ≡ false) a
      (subst (λ q. any_of (has_incident_key i.project_id q) incidents ≡ false) b fresh)

-- A new active incident keeps the policy.
pub new-FollowsPolicy :
    (i : Incident) (incidents : List Incident) (attempts : List Attempt)
    → i.status ≡ IncidentStatus.active
    → i.next ≡ some (technical, 1)
    → any_of (has_incident_key i.project_id i.incident_id) incidents ≡ false
    → FollowsPolicy incidents attempts
    → FollowsPolicy (i ∷ incidents) attempts
unfolding count_if find_if
new-FollowsPolicy i incidents attempts active next fresh v = record {
  incident_once = λ p k. elim (Bool-cases (has_incident_key p k i)) [
    | inr e ↦ rw e (omega (arith, v.incident_once p k))
    | inl e ↦ rw e (omega (arith, count_if-of_none _ incidents (fresh-key p k i incidents fresh e)))
  ];
  followed = λ p k. elim (Bool-cases (has_incident_key p k i)) [
    | inr e ↦ rw e (v.followed p k)
    | inl e ↦
        let none_before =
          subst
            (λ o.
              row_follows o (count_if (is_attempt_of p k) attempts)
                (count_if (is_failure_of p k) attempts)
              ≡ true)
            (any_of-find_if _ incidents (fresh-key p k i incidents fresh e)) (v.followed p k) in
        rw e (new-follows i _ _ active next none_before)
  ];
  placed = v.placed;
}

start_new-Starts :
    (db : WorkDb) (env : RetryEnv) (r : FailureReport) (w : WorkItem) (db' : WorkDb)
    (found : ReliabilityStatus)
    → start_new db env r w ≡ ok (db', found)
    → (owner : String) × Starts db (new_incident env r owner) db'
unfolding start_new audit
start_new-Starts db env r w db' found h =
    >>-then
      (guard (w.status == "active")
        (conflicts "only active work with an owning role can start recovery"))
      _ h
      λ working h₁.
        >>=-then
          (or_raise w.owner_role_id
            (conflicts "only active work with an owning role can start recovery"))
          _ h₁
          λ owner ho h₂.
            >>-then
              (guard (not (any_of (is_open_incident r.project_id r.work_item_id) db.incidents))
                (conflicts "work item already has an unresolved failure incident"))
              _ h₂
              λ single h₃.
                let i = new_incident env r owner in
                >>=-then (insert_incident db i) _ h₃ λ db₁ hi h₄.
                  >>=-then
                    (route_retry db₁ env r.project_id r.work_item_id owner i.incident_id technical 1
                      r.safe_summary r.source_ref false)
                    _ h₄
                    λ db₂ hr h₅.
                      >>=-then
                        (journal_event (started_audit db₂ r i.incident_id) env (env.clock 1)
                          (started_event r i.incident_id))
                        _ h₅
                        λ db₃ hj h₆.
                          >>=-then (status_of db₃ r.project_id i.incident_id) _ h₆ λ st hs h₇.
                            let (fresh, added) = insert_incident-adds db i db₁ hi in
                            let routed =
                              route_retry-Keeps db₁ env r.project_id r.work_item_id owner
                                i.incident_id technical 1 r.safe_summary r.source_ref false db₂
                                hr in
                            let kept =
                              journal_event-Keeps (started_audit db₂ r i.incident_id) env
                                (env.clock 1) (started_event r i.incident_id) db₃ hj in
                            (
                              owner,
                              subst (Starts db i) (ap (λ x. x.0) (ok-injective h₇)) (record {
                                fresh = fresh;
                                works_kept =
                                    kept.works_kept
                                    ∙ routed.works_kept
                                    ∙ ap (λ d. d.works) (sym added);
                                gates_kept =
                                    kept.gates_kept
                                    ∙ routed.gates_kept
                                    ∙ ap (λ d. d.gates) (sym added);
                                approvals_kept =
                                    kept.approvals_kept
                                    ∙ routed.approvals_kept
                                    ∙ ap (λ d. d.approvals) (sym added);
                                attempts_kept =
                                    kept.attempts_kept
                                    ∙ routed.attempts_kept
                                    ∙ ap (λ d. d.attempts) (sym added);
                                incident_added =
                                    kept.incidents_kept
                                    ∙ routed.incidents_kept
                                    ∙ ap (λ d. d.incidents) (sym added);
                              }),
                            )

start_once-Starts :
    (db : WorkDb) (env : RetryEnv) (r : FailureReport) (w : WorkItem) (o : Option Incident)
    (db' : WorkDb) (found : ReliabilityStatus)
    → start_once db env r w o ≡ ok (db', found)
    → (db ≡ db') ⊎ ((owner : String) × Starts db (new_incident env r owner) db')
unfolding start_once
start_once-Starts db env r w none db' found h = inr (start_new-Starts db env r w db' found h)
start_once-Starts db env r w (some i) db' found h =
    >>-then
      (guard (i.request_fingerprint == request_fingerprint_of env (report_request r))
        (conflicts "idempotency key is already used by different failure work"))
      _ h
      λ same h₁.
        >>=-then (status_of db r.project_id i.incident_id) _ h₁
          λ s hs h₂. inl (ap (λ x. x.0) (ok-injective h₂))

-- A call that returns either found the incident of its key, and changed nothing, or started one.
pub start_row-Starts :
    (db : WorkDb) (env : RetryEnv) (r : FailureReport) (db' : WorkDb) (found : ReliabilityStatus)
    → start_row db env r ≡ ok (db', found)
    → (db ≡ db') ⊎ ((owner : String) × Starts db (new_incident env r owner) db')
unfolding start_row
start_row-Starts db env r db' found h =
    >>=-then
      (or_raise (find_if (has_work_key r.project_id r.work_item_id) db.works)
        (unknown "work item not found"))
      _ h λ w hw h₁. start_once-Starts db env r w _ db' found h₁

-- ===== src/Journal/Due.antt =====
-- Which due message a dispatch takes.
use agentic_mesh.Prelude.{
  String, Bool, true, false, Option, none, some, ◌≡◌, ap, arith, eq_iff, ◌==◌, ◌&&◌, ◌||◌, ltb, eqb,
  keep_if, Any, keep_if-Any, Any-keep_if, Bool-cases, inl, inr,
}
use agentic_mesh.Prelude.Sorting.{first_row-Any, first_row-none, first_row-least, IsCollation}
use agentic_mesh.Journal.{StoredEvent, OutboxRow, Journal}
use agentic_mesh.Journal.Outbox.{DispatchEnv, join_events, is_due, due_before, select_due}

-- An earlier project or, in the same project, an earlier time or the same time and a smaller
-- identity.
abbrev pub is_earlier : (String → String → Bool) → OutboxRow → OutboxRow → Bool
is_earlier text_lt a b =
    text_lt a.project_id b.project_id
    || ((a.project_id == b.project_id) && ltb a.available_at b.available_at)
    || ((a.project_id == b.project_id)
        && eqb a.available_at b.available_at
        && ltb a.outbox_id b.outbox_id)

pub select_due-found :
    (j : Journal) (env : DispatchEnv) (p : Option String) (x : OutboxRow × StoredEvent)
    → select_due j env p ≡ some x
    → Any (λ y. y ≡ x) (join_events j.events j.outbox) × (is_due env p x ≡ true)
unfolding select_due
select_due-found j env p x h =
    let rows = join_events j.events j.outbox in
    keep_if-Any (is_due env p) rows x
      (first_row-Any (due_before env.text_lt) (keep_if (is_due env p) rows) x h)

pub select_due-none :
    (j : Journal) (env : DispatchEnv) (p : Option String)
    → select_due j env p ≡ none
    → (y : OutboxRow × StoredEvent) → Any (λ x. x ≡ y) (join_events j.events j.outbox)
    → is_due env p y ≡ false
unfolding select_due
select_due-none j env p h y m = elim (Bool-cases (is_due env p y)) [
  | inr e ↦ e
  | inl e ↦ absurd (
      first_row-none (due_before env.text_lt) _ h y
        (Any-keep_if (is_due env p) (join_events j.events j.outbox) y m e))
]

module _ (text_lt : String → String → Bool) (col : IsCollation text_lt) where
  due_before-asymmetric :
      (a b : OutboxRow × StoredEvent)
      → due_before text_lt a b ≡ true
      → due_before text_lt b a ≡ false
  unfolding due_before
  due_before-asymmetric (a, d) (b, e) h =
      ground (arith, h, col.asymmetric a.project_id b.project_id)

  due_before-negatively_transitive :
      (a b c : OutboxRow × StoredEvent)
      → due_before text_lt a b ≡ false
      → due_before text_lt b c ≡ false
      → due_before text_lt a c ≡ false
  unfolding due_before
  due_before-negatively_transitive (a, d) (b, e) (c, f) h k = ground (
    arith,
    h,
    k,
    col.negatively_transitive a.project_id b.project_id c.project_id,
    col.negatively_transitive c.project_id a.project_id b.project_id,
    col.negatively_transitive b.project_id c.project_id a.project_id,
  )

  due_before-earlier :
      (a b : OutboxRow) (d e : StoredEvent)
      → due_before text_lt (a, d) (b, e) ≡ false
      → is_earlier text_lt a b ≡ false
  unfolding due_before
  due_before-earlier a b d e h = elim (Bool-cases (a.project_id == b.project_id)) [
    | inr away ↦ ground (arith, h, away)
    | inl own ↦
        let same = (eq_iff a.project_id b.project_id).0 own in
        let level = ap (text_lt b.project_id) same in
        ground (arith, h, own, level, col.asymmetric b.project_id b.project_id)
  ]

pub select_due-first :
    (j : Journal) (env : DispatchEnv) (p : Option String)
    → IsCollation env.text_lt
    → (x : OutboxRow × StoredEvent) → select_due j env p ≡ some x
    → (y : OutboxRow × StoredEvent) → Any (λ z. z ≡ y) (join_events j.events j.outbox)
    → is_due env p y ≡ true
    → is_earlier env.text_lt y.0 x.0 ≡ false
unfolding select_due
select_due-first j env p col x h y m due = due_before-earlier env.text_lt col y.0 x.0 y.1 x.1 (
    first_row-least (due_before env.text_lt) (due_before-asymmetric env.text_lt col)
      (due_before-negatively_transitive env.text_lt col) _ x h y
      (Any-keep_if (is_due env p) (join_events j.events j.outbox) y m due))

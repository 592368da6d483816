-- ===== src/Journal/Paging.antt =====
-- The pages in which the event journal is read.
use agentic_mesh.Prelude.{
  ℕ, ◌≤◌, String, true, List, ◌≡◌, ◌⊎◌, ok, keep_if, length, All, Any, subst, >>=-then,
  ok-injective, keep_if-Any, Any-keep_if,
}
use agentic_mesh.Prelude.Sorting.{
  sort_by, take, IsAscending, sort_by-IsAscending, sort_by-Any, take-IsAscending, take-covers,
  take-Any, length-take,
}
use agentic_mesh.Prelude.Int.{ℤ}
use agentic_mesh.Journal.{
  StoredEvent, Journal, journal_required, checked_after, checked_limit, is_later, read_events,
}

-- A page of a project's events after an identity: ascending, no longer than the limit, of such
-- events only, and without gaps, since an event that it leaves out follows a full page.
pub record IsPage (j : Journal) (project : String) (after limit : ℕ) (page : List StoredEvent)
    : Type 0 where
  pub ascending : IsAscending (λ e. e.event_id) page
  pub within : length page ≤ limit
  pub sound :
      (e : StoredEvent)
      → Any (λ x. x ≡ e) page
      → Any (λ x. x ≡ e) j.events × (is_later project after e ≡ true)
  pub gapless :
      (e : StoredEvent)
      → Any (λ x. x ≡ e) j.events
      → is_later project after e ≡ true
      → Any (λ x. x ≡ e) page ⊎ ((length page ≡ limit) × All (λ x. x.event_id ≤ e.event_id) page)

paged-IsPage :
    (j : Journal) (project : String) (after limit : ℕ)
    → IsPage j project after limit
        (take limit (sort_by (λ e. e.event_id) (keep_if (is_later project after) j.events)))
paged-IsPage j project after limit =
    let test = is_later project after in
    let rows = keep_if test j.events in
    let id = λ (e : StoredEvent). e.event_id in
    let sorted = sort_by id rows in
    record {
      ascending = take-IsAscending id limit sorted (sort_by-IsAscending id rows);
      within = length-take limit sorted;
      sound = λ e m.
          keep_if-Any test j.events e ((sort_by-Any id rows e).0 (take-Any limit sorted e m));
      gapless = λ e m t.
          take-covers id limit sorted e (sort_by-IsAscending id rows)
            ((sort_by-Any id rows e).1 (Any-keep_if test j.events e m t));
    }

-- Where `read` succeeds, its arguments pass their checks and it returns the page of the project's
-- events after the identity: ascending, within the limit, and without gaps.
pub read-IsPage :
    (j : Journal) (project : String) (after limit : ℤ) (page : List StoredEvent)
    → read_events j project after limit ≡ ok page
    → (p : String) × (a : ℕ) × (n : ℕ) × (journal_required project "project_id" ≡ ok p)
      × (checked_after after ≡ ok a)
      × (checked_limit limit ≡ ok n)
      × IsPage j p a n page
unfolding read_events
read-IsPage j project after limit page h =
    >>=-then (journal_required project "project_id") _ h λ p hp h₁.
      >>=-then (checked_after after) _ h₁ λ a ha h₂. >>=-then (checked_limit limit) _ h₂ λ n hn h₃.
        (p, a, n, hp, ha, hn, subst (IsPage j p a n) (ok-injective h₃) (paged-IsPage j p a n))

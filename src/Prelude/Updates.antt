-- ===== src/Prelude/Updates.antt =====
-- What a lookup finds after an update of the rows of one key, for the UPDATE statements of all stores.
use mathlib.Core.Path.{◌≡◌, refl, ◌∙◌}
use mathlib.Core.Logic.{inl, inr}
use mathlib.Core.Bool.{Bool, true, false}
use mathlib.Core.List.{List}
use mathlib.Core.Option.{Option, none, some}
use mathlib.Core.Option
use agentic_mesh.Prelude.Tests.{Option-cases}
use agentic_mesh.Prelude.Lists.{find_if, update_if, find_if-true, find_if-update}

-- The row that the key of the update finds is the updated one.
pub find_if-update_own {ℓ} :
    {A : Type ℓ} (q : A → Bool) (f : A → A) (xs : List A) (a : A)
    → ((x : A) → q (f x) ≡ q x)
    → find_if q xs ≡ some a
    → find_if q (update_if q f xs) ≡ some (f a)
find_if-update_own q f xs a same found =
    find_if-update q q f xs same ∙ rw (found, Option.map, find_if-true q xs a found) refl

-- A key that no updated row has finds the row that it found before.
pub find_if-update_other {ℓ} :
    {A : Type ℓ} (q s : A → Bool) (f : A → A) (xs : List A)
    → ((x : A) → q (f x) ≡ q x)
    → ((x : A) → q x ≡ true → s x ≡ false)
    → find_if q (update_if s f xs) ≡ find_if q xs
find_if-update_other q s f xs same away =
    find_if-update q s f xs same ∙ elim (Option-cases (find_if q xs)) [
      | inl e ↦ rw (e, Option.map) refl
      | inr (a, e) ↦ rw (e, Option.map, away a (find_if-true q xs a e)) refl
    ]

-- The row that a test finds is updated where it passes the test of the update.
pub find_if-update_found {ℓ} :
    {A : Type ℓ} (q s : A → Bool) (f : A → A) (xs : List A) (a : A)
    → ((x : A) → q (f x) ≡ q x)
    → find_if q xs ≡ some a
    → s a ≡ true
    → find_if q (update_if s f xs) ≡ some (f a)
find_if-update_found q s f xs a same found own =
    find_if-update q s f xs same ∙ rw (found, Option.map, own) refl

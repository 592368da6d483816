-- ===== src/Prelude/Sorting.antt =====
-- ORDER BY and LIMIT, and Python's `sorted`.
use Prim.Native.Nat.{ℕ, zero, suc, ◌≤◌}
use mathlib.Core.Path.{◌≡◌, refl, ap}
use Prim.Native.String.{String}
use mathlib.Core.Logic.{◌⊎◌, ◌↔◌, inl, inr}
use mathlib.Core.Bool.{Bool, true, false}
use mathlib.Core.Option.{Option, none, some}
use mathlib.Core.List.{List, [], ◌∷◌}
use native.Mathlib.Omega.{arith}
use agentic_mesh.Prelude.Tests.{if◌then◌else◌, leb, Bool-cases, Option-cases}
use agentic_mesh.Prelude.Lists.{All, Any, here, there, Any-split, All-Any, length}

-- the row that ORDER BY puts first
unfoldable pub first_row {ℓ} : {A : Type ℓ} → (A → A → Bool) → List A → Option A
first_row before [] = none
first_row before (x ∷ xs) = elim (first_row before xs) [
  | none ↦ some x
  | some y ↦ some (if before y x then y else x)
]

-- ORDER BY ... LIMIT 1 returns a row of the table.
pub first_row-Any {ℓ} :
    {A : Type ℓ} (before : A → A → Bool) (xs : List A) (a : A)
    → first_row before xs ≡ some a
    → Any (λ x. x ≡ a) xs
unfolding first_row
first_row-Any before [] a h = cc
first_row-Any before (x ∷ xs) a h = elim (Option-cases (first_row before xs)) [
  | inl e ↦ let only : some x ≡ some a = rw (e, first_row) at h in here (cc only)
  | inr (y, e) ↦
      let best : some (if before y x then y else x) ≡ some a = rw (e, first_row) at h in
      elim (Bool-cases (before y x)) [
        | inl t ↦
            let p : y ≡ a = ground (arith, best, t) in
            there (first_row-Any before xs a (rw e (ap some p)))
        | inr f ↦ here (ground (arith, best, f))
      ]
]

-- What ORDER BY needs of the collation: it is a strict weak order.
pub record IsCollation (text_lt : String → String → Bool) : Type 0 where
  pub asymmetric : (a b : String) → text_lt a b ≡ true → text_lt b a ≡ false
  pub negatively_transitive :
      (a b c : String) → text_lt a b ≡ false → text_lt b c ≡ false → text_lt a c ≡ false

-- A table with rows has a first one.
pub first_row-none {ℓ} :
    {A : Type ℓ} (before : A → A → Bool) (xs : List A)
    → first_row before xs ≡ none
    → (b : A) → Any (λ x. x ≡ b) xs
    → ⊥
unfolding first_row
first_row-none before [] e b m = elim m [ ]
first_row-none before (x ∷ xs) e b m = elim (Option-cases (first_row before xs)) [
  | inl n ↦ let found : some x ≡ none = rw (n, first_row) at e in cc found
  | inr (y, n) ↦
      let found : some (if before y x then y else x) ≡ none = rw (n, first_row) at e in cc found
]

module _ {ℓ} {A : Type ℓ} (before : A → A → Bool)
    (asymmetric : (a b : A) → before a b ≡ true → before b a ≡ false)
    (negatively_transitive : (a b c : A)
      → before a b ≡ false
      → before b c ≡ false
      → before a c ≡ false) where
  irreflexive : (a : A) → before a a ≡ false
  irreflexive a = elim (Bool-cases (before a a)) [ inl t ↦ asymmetric a a t | inr f ↦ f ]

  -- The row that ORDER BY puts first has no other before it.
  pub first_row-least :
      (xs : List A) (a : A)
      → first_row before xs ≡ some a
      → (b : A) → Any (λ x. x ≡ b) xs
      → before b a ≡ false
  unfolding first_row
  first_row-least [] a h b m = elim m [ ]
  first_row-least (x ∷ xs) a h b m = elim (Option-cases (first_row before xs)) [
    | inl e ↦
        let only : some x ≡ some a = rw (e, first_row) at h in
        let p : x ≡ a = cc only in
        elim (Any-split m) [
          | inl q ↦ rw (← p, ← q) (irreflexive x)
          | inr later ↦ absurd (first_row-none before xs e b later)
        ]
    | inr (y, e) ↦
        let best : some (if before y x then y else x) ≡ some a = rw (e, first_row) at h in
        elim (Bool-cases (before y x)) [
          | inl earlier ↦
              let p : y ≡ a = ground (arith, best, earlier) in
              elim (Any-split m) [
                | inl q ↦ rw (← p, ← q) (asymmetric y x earlier)
                | inr later ↦ rw (← p) (first_row-least xs y e b later)
              ]
          | inr behind ↦
              let p : x ≡ a = ground (arith, best, behind) in
              elim (Any-split m) [
                | inl q ↦ rw (← p, ← q) (irreflexive x)
                | inr later ↦
                    rw (← p) (negatively_transitive b y x (first_row-least xs y e b later) behind)
              ]
        ]
  ]

-- LIMIT n
unfoldable pub take {ℓ} : {A : Type ℓ} → ℕ → List A → List A
take zero xs = []
take (suc n) [] = []
take (suc n) (x ∷ xs) = x ∷ take n xs

module _ {ℓ} {A : Type ℓ} (key : A → ℕ) where
  unfoldable pub insert_by : A → List A → List A
  insert_by x [] = x ∷ []
  insert_by x (y ∷ ys) = if leb (key x) (key y) then x ∷ y ∷ ys else y ∷ insert_by x ys

  -- ORDER BY a number, smallest first
  unfoldable pub sort_by : List A → List A
  unfolding insert_by
  sort_by [] = []
  sort_by (x ∷ xs) = insert_by x (sort_by xs)

  -- each element is followed by none that is smaller
  abbrev pub IsAscending : List A → Type 0
  IsAscending [] = Unit
  IsAscending (x ∷ xs) = All (λ y. key x ≤ key y) xs × IsAscending xs

  All-insert_by {κ} :
      (P : A → Type κ) (x : A) (ys : List A) → P x → All P ys → All P (insert_by x ys)
  unfolding insert_by
  All-insert_by P x [] p h = (p, tt)
  All-insert_by P x (y ∷ ys) p h = elim (Bool-cases (leb (key x) (key y))) [
    | inl e ↦ rw e (p, h)
    | inr e ↦ rw e (h.0, All-insert_by P x ys p h.1)
  ]

  All-below : (a b : ℕ) (ys : List A) → a ≤ b → All (λ y. b ≤ key y) ys → All (λ y. a ≤ key y) ys
  All-below a b [] h k = tt
  All-below a b (y ∷ ys) h k = (omega (arith, k.0), All-below a b ys h k.1)

  insert_by-IsAscending : (x : A) (ys : List A) → IsAscending ys → IsAscending (insert_by x ys)
  unfolding insert_by
  insert_by-IsAscending x [] h = (tt, tt)
  insert_by-IsAscending x (y ∷ ys) h = elim (Bool-cases (leb (key x) (key y))) [
    | inl e ↦
        let le : key x ≤ key y = ground arith in rw e ((le, All-below (key x) (key y) ys le h.0), h)
    | inr e ↦
        let ge : key y ≤ key x = ground arith in
        rw e (All-insert_by (λ z. key y ≤ key z) x ys ge h.0, insert_by-IsAscending x ys h.1)
  ]

  pub sort_by-IsAscending : (xs : List A) → IsAscending (sort_by xs)
  unfolding sort_by
  sort_by-IsAscending [] = tt
  sort_by-IsAscending (x ∷ xs) = insert_by-IsAscending x (sort_by xs) (sort_by-IsAscending xs)

  insert_by-Any :
      (x a : A) (ys : List A) → Any (λ y. y ≡ a) (insert_by x ys) ↔ ((x ≡ a) ⊎ Any (λ y. y ≡ a) ys)
  unfolding insert_by
  insert_by-Any x a [] = (λ m. Any-split m, λ c. elim c [ inl e ↦ here e | inr m ↦ there m ])
  insert_by-Any x a (y ∷ ys) = elim (Bool-cases (leb (key x) (key y))) [
    | inl e ↦ rw e (λ m. Any-split m, λ c. elim c [ inl e ↦ here e | inr m ↦ there m ])
    | inr e ↦
        let ih = insert_by-Any x a ys in
        rw e (
          λ m. elim (Any-split m) [
            | inl q ↦ inr (here q)
            | inr k ↦ elim (ih.0 k) [ inl q ↦ inl q | inr later ↦ inr (there later) ]
          ],
          λ c. elim c [
            | inl q ↦ there (ih.1 (inl q))
            | inr m ↦ elim (Any-split m) [ inl q ↦ here q | inr k ↦ there (ih.1 (inr k)) ]
          ],
        )
  ]

  pub sort_by-Any : (xs : List A) (a : A) → Any (λ y. y ≡ a) (sort_by xs) ↔ Any (λ y. y ≡ a) xs
  unfolding sort_by
  sort_by-Any [] a = (λ m. m, λ m. m)
  sort_by-Any (x ∷ xs) a =
      let step = insert_by-Any x a (sort_by xs) in
      let ih = sort_by-Any xs a in
      (
        λ m. elim (step.0 m) [ inl e ↦ here e | inr k ↦ there (ih.0 k) ],
        λ m. elim (Any-split m) [ inl e ↦ step.1 (inl e) | inr k ↦ step.1 (inr (ih.1 k)) ],
      )

  All-take {κ} : (P : A → Type κ) (n : ℕ) (xs : List A) → All P xs → All P (take n xs)
  unfolding take
  All-take P zero xs h = tt
  All-take P (suc n) [] h = tt
  All-take P (suc n) (x ∷ xs) h = (h.0, All-take P n xs h.1)

  pub take-IsAscending : (n : ℕ) (xs : List A) → IsAscending xs → IsAscending (take n xs)
  unfolding take
  take-IsAscending zero xs h = tt
  take-IsAscending (suc n) [] h = tt
  take-IsAscending (suc n) (x ∷ xs) h =
      (All-take (λ y. key x ≤ key y) n xs h.0, take-IsAscending n xs h.1)

  -- What a limit leaves out comes after a full page.
  pub take-covers :
      (n : ℕ) (xs : List A) (a : A)
      → IsAscending xs
      → Any (λ y. y ≡ a) xs
      → Any (λ y. y ≡ a) (take n xs)
        ⊎ ((length (take n xs) ≡ n) × All (λ y. key y ≤ key a) (take n xs))
  unfolding take
  take-covers n [] a h m = elim m [ ]
  take-covers zero (x ∷ xs) a h m = inr (refl, tt)
  take-covers (suc n) (x ∷ xs) a h m = elim (Any-split m) [
    | inl e ↦ inl (here e)
    | inr k ↦ elim (take-covers n xs a h.1 k) [
      | inl t ↦ inl (there t)
      | inr (full, below) ↦
          let first = All-Any (λ y. key x ≤ key y) xs a h.0 k in inr (ap suc full, (first, below))
    ]
  ]

pub take-Any {ℓ} :
    {A : Type ℓ} (n : ℕ) (xs : List A) (a : A) → Any (λ y. y ≡ a) (take n xs) → Any (λ y. y ≡ a) xs
unfolding take
take-Any zero xs a m = elim m [ ]
take-Any (suc n) [] a m = elim m [ ]
take-Any (suc n) (x ∷ xs) a m = elim (Any-split m) [
  | inl e ↦ here e
  | inr k ↦ there (take-Any n xs a k)
]

pub length-take {ℓ} : {A : Type ℓ} (n : ℕ) (xs : List A) → length (take n xs) ≤ n
unfolding take
length-take zero xs = omega arith
length-take (suc n) [] = omega arith
length-take (suc n) (x ∷ xs) = omega (arith, length-take n xs)

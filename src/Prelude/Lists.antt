-- ===== src/Prelude/Lists.antt =====
-- Lists filtered, searched and updated by Boolean tests: the rows of a table under a WHERE clause,
-- and Python's comprehensions.
use Prim.Native.Nat.{ℕ, suc, ◌+◌, ◌≤◌}
use mathlib.Core.Path.{◌≡◌, refl, sym, subst}
use mathlib.Core.Logic.{◌⊎◌, inl, inr}
use mathlib.Core.Bool.{Bool, true, false, ◌&&◌, ◌||◌}
use mathlib.Core.List.{List, [], ◌∷◌, ◌++◌}
use mathlib.Core.Option.{Option, none, some}
use mathlib.Core.Option
use native.Mathlib.Omega.{arith}
use agentic_mesh.Prelude.Tests.{if◌then◌else◌, Bool-cases}

module _ {ℓ} {A : Type ℓ} where
  abbrev pub length : List A → ℕ
  length [] = 0
  length (x ∷ xs) = suc (length xs)

  pub length-append : (xs ys : List A) → length (xs ++ ys) ≡ length xs + length ys
  length-append [] ys = omega arith
  length-append (x ∷ xs) ys = omega (arith, length-append xs ys)

  -- Every element satisfies `P`; tactics read this as a tuple.
  abbrev pub All {κ} : (A → Type κ) → List A → Type κ
  All P [] = Unit
  All P (x ∷ xs) = P x × All P xs

  -- Some element satisfies `P`.
  pub data Any {κ} (P : A → Type κ) : List A → Type (ℓ ⊔ κ) where
    here : {x : A} {xs : List A} → P x → Any P (x ∷ xs)
    there : {x : A} {xs : List A} → Any P xs → Any P (x ∷ xs)

pub Any-split {ℓ κ} :
    {A : Type ℓ} {P : A → Type κ} {x : A} {xs : List A} → Any P (x ∷ xs) → P x ⊎ Any P xs
Any-split (here h) = inl h
Any-split (there m) = inr m

module _ {ℓ} {A : Type ℓ} (p : A → Bool) where
  unfoldable pub any_of : List A → Bool
  any_of [] = false
  any_of (x ∷ xs) = p x || any_of xs

  unfoldable pub all_of : List A → Bool
  all_of [] = true
  all_of (x ∷ xs) = p x && all_of xs

  unfoldable pub keep_if : List A → List A
  keep_if [] = []
  keep_if (x ∷ xs) = let rest = keep_if xs in if p x then x ∷ rest else rest

  unfoldable pub find_if : List A → Option A
  find_if [] = none
  find_if (x ∷ xs) = if p x then some x else find_if xs

  unfoldable pub count_if : List A → ℕ
  count_if [] = 0
  count_if (x ∷ xs) = (if p x then 1 else 0) + count_if xs

  unfoldable pub update_if : (A → A) → List A → List A
  update_if f [] = []
  update_if f (x ∷ xs) = (if p x then f x else x) ∷ update_if f xs

-- A stronger test counts fewer rows.
pub count_if-le {ℓ} :
    {A : Type ℓ} (p q : A → Bool) (xs : List A)
    → ((x : A) → q x ≡ true → p x ≡ true)
    → count_if q xs ≤ count_if p xs
unfolding count_if
count_if-le p q [] h = omega arith
count_if-le p q (x ∷ xs) h = ground (arith, h x, count_if-le p q xs h)

pub count_if-of_false {ℓ} :
    {A : Type ℓ} (p : A → Bool) (xs : List A) → ((x : A) → p x ≡ false) → count_if p xs ≡ 0
unfolding count_if
count_if-of_false p [] h = refl
count_if-of_false p (x ∷ xs) h = rw (h x) (omega (arith, count_if-of_false p xs h))

-- An update that a test does not see.
pub count_if-update_same {ℓ} :
    {A : Type ℓ} (p s : A → Bool) (f : A → A) (xs : List A)
    → ((x : A) → p (f x) ≡ p x)
    → count_if p (update_if s f xs) ≡ count_if p xs
unfolding count_if update_if
count_if-update_same p s f [] h = refl
count_if-update_same p s f (x ∷ xs) h = ground (arith, h x, count_if-update_same p s f xs h)

-- A lookup after an update that keeps what the lookup tests.
pub find_if-update {ℓ} :
    {A : Type ℓ} (q s : A → Bool) (f : A → A) (xs : List A)
    → ((x : A) → q (f x) ≡ q x)
    → find_if q (update_if s f xs) ≡ Option.map (λ x. if s x then f x else x) (find_if q xs)
unfolding find_if update_if
find_if-update q s f [] h = refl
find_if-update q s f (x ∷ xs) h = elim (Bool-cases (s x)) [
  | inl t ↦ elim (Bool-cases (q x)) [
    | inl e ↦ rw (t, h x, e, Option.map, t)
    | inr e ↦ rw (t, h x, e) (find_if-update q s f xs h)
  ]
  | inr t ↦ elim (Bool-cases (q x)) [
    | inl e ↦ rw (t, e, Option.map, t)
    | inr e ↦ rw (t, e) (find_if-update q s f xs h)
  ]
]

-- Two updates of the same rows are one.
pub update_if-update_if {ℓ} :
    {A : Type ℓ} (s : A → Bool) (f g : A → A) (xs : List A)
    → ((x : A) → s (g x) ≡ s x)
    → update_if s f (update_if s g xs) ≡ update_if s (λ x. f (g x)) xs
unfolding update_if
update_if-update_if s f g [] h = refl
update_if-update_if s f g (x ∷ xs) h = elim (Bool-cases (s x)) [
  | inl t ↦ rw (t, h x, t, update_if-update_if s f g xs h)
  | inr t ↦ rw (t, t, update_if-update_if s f g xs h)
]

module _ {ℓ} {A : Type ℓ} (p : A → Bool) where
  pub find_if-true : (xs : List A) (a : A) → find_if p xs ≡ some a → p a ≡ true
  unfolding find_if
  find_if-true [] a h = cc
  find_if-true (x ∷ xs) a h = elim (Bool-cases (p x)) [
    | inl e ↦ ground (arith, find_if-true xs a)
    | inr e ↦ ground (arith, find_if-true xs a)
  ]

  pub find_if-none : (xs : List A) → find_if p xs ≡ none → any_of p xs ≡ false
  unfolding find_if any_of
  find_if-none [] h = refl
  find_if-none (x ∷ xs) h = ground (arith, find_if-none xs)

  pub count_if-append : (xs ys : List A) → count_if p (xs ++ ys) ≡ count_if p xs + count_if p ys
  unfolding count_if
  count_if-append [] ys = omega arith
  count_if-append (x ∷ xs) ys = omega (arith, count_if-append xs ys)

  pub count_if-le-length : (xs : List A) → count_if p xs ≤ length xs
  unfolding count_if
  count_if-le-length [] = omega arith
  count_if-le-length (x ∷ xs) = ground (arith, count_if-le-length xs)

  pub find_if-Any : (xs : List A) (a : A) → find_if p xs ≡ some a → Any (λ x. x ≡ a) xs
  unfolding find_if
  find_if-Any [] a h = cc
  find_if-Any (x ∷ xs) a h = elim (Bool-cases (p x)) [
    | inl e ↦ here (ground arith)
    | inr e ↦ there (find_if-Any xs a (ground arith))
  ]

  pub count_if-pos : (xs : List A) (a : A) → Any (λ x. x ≡ a) xs → p a ≡ true → 1 ≤ count_if p xs
  unfolding count_if
  count_if-pos [] a m h = elim m [ ]
  count_if-pos (x ∷ xs) a (here e) h =
      let t : p x ≡ true = subst (λ y. p y ≡ true) (sym e) h in rw t (omega arith)
  count_if-pos (x ∷ xs) a (there m) h = omega (arith, count_if-pos xs a m h)

  pub count_if-of_none : (xs : List A) → any_of p xs ≡ false → count_if p xs ≡ 0
  unfolding count_if any_of
  count_if-of_none [] h = refl
  count_if-of_none (x ∷ xs) h = ground (arith, count_if-of_none xs)

  pub any_of-Any : (xs : List A) → any_of p xs ≡ true → (a : A) × Any (λ x. x ≡ a) xs × (p a ≡ true)
  unfolding any_of
  any_of-Any [] h = cc
  any_of-Any (x ∷ xs) h = elim (Bool-cases (p x)) [
    | inl e ↦ (x, here refl, e)
    | inr e ↦ let (a, m, t) = any_of-Any xs (ground arith) in (a, there m, t)
  ]

  pub Any-any_of : (xs : List A) (a : A) → Any (λ x. x ≡ a) xs → p a ≡ true → any_of p xs ≡ true
  unfolding any_of
  Any-any_of [] a m h = elim m [ ]
  Any-any_of (x ∷ xs) a (here e) h = let t : p x ≡ true = subst (λ y. p y ≡ true) (sym e) h in rw t
  Any-any_of (x ∷ xs) a (there m) h = ground (arith, Any-any_of xs a m h)

  -- An update moves into `q` and out of it; the rows that it leaves alone count as before.
  pub count_if-update :
      (q : A → Bool) (f : A → A) (xs : List A)
      → count_if q (update_if p f xs) + count_if (λ x. p x && q x) xs
        ≡ count_if q xs + count_if (λ x. p x && q (f x)) xs
  unfolding count_if update_if
  count_if-update q f [] = refl
  count_if-update q f (x ∷ xs) = ground (arith, count_if-update q f xs)

  -- An update that takes no row out of `q`.
  pub count_if-update_le :
      (q : A → Bool) (f : A → A) (xs : List A)
      → count_if (λ x. p x && q x) xs ≡ 0
      → count_if q xs ≤ count_if q (update_if p f xs)
  count_if-update_le q f xs h = omega (arith, count_if-update q f xs)

  -- The one row with a key is the row that was found.
  pub count_if_unique :
      (q : A → Bool) (xs : List A) (a : A)
      → count_if p xs ≤ 1
      → Any (λ x. x ≡ a) xs
      → p a ≡ true
      → count_if (λ x. p x && q x) xs ≡ (if q a then 1 else 0)
  unfolding count_if
  count_if_unique q [] a u m h = elim m [ ]
  count_if_unique q (x ∷ xs) a u (here e) h =
      let t : p x ≡ true = subst (λ y. p y ≡ true) (sym e) h in
      let rest = count_if-le p (λ y. p y && q y) xs (λ y k. ground arith) in
      subst (λ y. count_if (λ y. p y && q y) (x ∷ xs) ≡ (if q y then 1 else 0)) e
        (ground (arith, t, rest))
  count_if_unique q (x ∷ xs) a u (there m) h =
      ground (arith, count_if-pos xs a m h, count_if_unique q xs a (omega arith) m h)

  pub keep_if-Any :
      (xs : List A) (a : A) → Any (λ x. x ≡ a) (keep_if p xs) → Any (λ x. x ≡ a) xs × (p a ≡ true)
  unfolding keep_if
  keep_if-Any [] a m = elim m [ ]
  keep_if-Any (x ∷ xs) a m = elim (Bool-cases (p x)) [
    | inr e ↦
        let m' : Any (λ y. y ≡ a) (keep_if p xs) = rw (e, keep_if) at m in
        let (k, t) = keep_if-Any xs a m' in (there k, t)
    | inl e ↦
        let m' : Any (λ y. y ≡ a) (x ∷ keep_if p xs) = rw (e, keep_if) at m in
        elim (Any-split m') [
          | inl q ↦ (here q, subst (λ y. p y ≡ true) q e)
          | inr k ↦ let (k', t) = keep_if-Any xs a k in (there k', t)
        ]
  ]

  pub Any-keep_if :
      (xs : List A) (a : A) → Any (λ x. x ≡ a) xs → p a ≡ true → Any (λ x. x ≡ a) (keep_if p xs)
  unfolding keep_if
  Any-keep_if [] a m t = elim m [ ]
  Any-keep_if (x ∷ xs) a (here e) t =
      let k : p x ≡ true = subst (λ y. p y ≡ true) (sym e) t in rw k (here e)
  Any-keep_if (x ∷ xs) a (there m) t = elim (Bool-cases (p x)) [
    | inl k ↦ rw k (there (Any-keep_if xs a m t))
    | inr k ↦ rw k (Any-keep_if xs a m t)
  ]

  pub find_if-All {κ} :
      (P : A → Type κ) (xs : List A) (a : A) → All P xs → find_if p xs ≡ some a → P a
  unfolding find_if
  find_if-All P [] a h e = cc
  find_if-All P (x ∷ xs) a h e = elim (Bool-cases (p x)) [
    | inl t ↦ subst P (ground arith) h.0
    | inr f ↦ find_if-All P xs a h.1 (ground arith)
  ]

module _ {ℓ κ} {A : Type ℓ} (P : A → Type κ) where
  pub All-Any : (xs : List A) (a : A) → All P xs → Any (λ x. x ≡ a) xs → P a
  All-Any [] a h m = elim m [ ]
  All-Any (x ∷ xs) a h (here e) = subst P e h.0
  All-Any (x ∷ xs) a h (there m) = All-Any xs a h.1 m

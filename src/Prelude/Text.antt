-- ===== src/Prelude/Text.antt =====
-- Python's `str.strip`, and the two identifier patterns of the program.
use Prim.Native.Nat.{ℕ, zero, suc, ◌/◌, ◌%◌}
use Prim.Native.Char.{code}
use Prim.Native.String.{String, [], ◌∷◌, ◌++◌ as append_text}
use mathlib.Core.Path.{◌≡◌, refl}
use mathlib.Core.Bool.{Bool, true, false, ◌&&◌, ◌||◌}
use native.Mathlib.Omega.{arith}
use text.Mathlib.Text.{◌==◌}
use text.Mathlib.TextEquality.{eq_iff}
use mathlib.Core.Logic.{inl, inr}
use agentic_mesh.Prelude.Tests.{ltb, leb, eqb, if◌then◌else◌, Bool-cases}

-- the code points that `str.isspace` and `str.strip` take as white space
unfoldable pub is_space : ℕ → Bool
is_space c =
    (leb 9 c && leb c 13)
    || (leb 28 c && leb c 32)
    || eqb c 133
    || eqb c 160
    || eqb c 5760
    || (leb 8192 c && leb c 8202)
    || eqb c 8232
    || eqb c 8233
    || eqb c 8239
    || eqb c 8287
    || eqb c 12288

strip_left : String → String
strip_left [] = []
strip_left (c ∷ s) = if is_space (code c) then strip_left s else c ∷ s

strip_right : String → String
strip_right [] = []
strip_right (c ∷ s) =
    let rest = strip_right s in if is_space (code c) && (rest == "") then [] else c ∷ rest

unfoldable pub strip : String → String
unfolding strip_left strip_right is_space
strip s = strip_right (strip_left s)

strip_right-strip_right : (s : String) → strip_right (strip_right s) ≡ strip_right s
unfolding strip_right
strip_right-strip_right [] = refl
strip_right-strip_right (c ∷ s) = elim (Bool-cases (is_space (code c) && (strip_right s == ""))) [
  | inl e ↦ rw e
  | inr e ↦ rw (e, strip_right-strip_right s, e)
]

strip_left-strip :
    (s : String) → strip_left (strip_right (strip_left s)) ≡ strip_right (strip_left s)
unfolding strip_left strip_right
strip_left-strip [] = refl
strip_left-strip (c ∷ s) = elim (Bool-cases (is_space (code c))) [
  | inl e ↦ rw (e, strip_left-strip s)
  | inr e ↦ rw (e, e, e)
]

pub strip-strip : (s : String) → strip (strip s) ≡ strip s
unfolding strip
strip-strip s = rw (strip_left-strip s, strip_right-strip_right (strip_left s))

-- len(s): the number of code points
unfoldable pub len : String → ℕ
len [] = 0
len (c ∷ s) = suc (len s)

unfoldable pub all_chars : (ℕ → Bool) → String → Bool
all_chars p [] = true
all_chars p (c ∷ s) = p (code c) && all_chars p s

is_lower : ℕ → Bool
is_lower c = leb b'a' c && leb c b'z'

is_upper : ℕ → Bool
is_upper c = leb b'A' c && leb c b'Z'

is_digit : ℕ → Bool
is_digit c = leb b'0' c && leb c b'9'

-- [a-z0-9_-]
slug_char : ℕ → Bool
slug_char c = is_lower c || is_digit c || eqb c b'_' || eqb c b'-'

-- ^[a-z][a-z0-9_-]{0,127}$
unfoldable pub is_slug : String → Bool
unfolding slug_char is_lower is_digit all_chars len
is_slug [] = false
is_slug (c ∷ s) = is_lower (code c) && all_chars slug_char s && leb (len s) 127

-- [A-Za-z0-9._:-]
identifier_char : ℕ → Bool
identifier_char c =
    is_lower c || is_upper c || is_digit c || eqb c b'.' || eqb c b'_' || eqb c b':' || eqb c b'-'

-- ^[A-Za-z0-9._:-]{1,128}$
unfoldable pub is_identifier : String → Bool
unfolding identifier_char is_lower is_upper is_digit all_chars len
is_identifier s = all_chars identifier_char s && leb 1 (len s) && leb (len s) 128

-- str(n) of a number below 10 ^ fuel
unfoldable pub decimal : ℕ → ℕ → String
decimal zero n = ""
decimal (suc fuel) n = elim (ltb n 10) [
  | true ↦ digit n
  | false ↦ append_text (decimal fuel (n / 10)) (digit (n % 10))
]
  where
    digit : ℕ → String
    digit d =
        if eqb d 0
        then "0"
        else if eqb d 1
        then "1"
        else if eqb d 2
        then "2"
        else if eqb d 3
        then "3"
        else if eqb d 4
        then "4"
        else if eqb d 5
        then "5"
        else if eqb d 6
        then "6"
        else if eqb d 7
        then "7"
        else if eqb d 8
        then "8"
        else "9"

-- s[:n]
unfoldable pub take_text : ℕ → String → String
take_text zero s = ""
take_text (suc n) [] = ""
take_text (suc n) (c ∷ s) = c ∷ take_text n s

-- Two texts that differ are not both equal to a third.
pub distinct : (s t q : String) → (s == t) ≡ false → (s == q) ≡ true → (t == q) ≡ false
distinct s t q h k = ground (arith, eq_iff s t, eq_iff s q, eq_iff t q)

strip_test : strip "  role a\n" ≡ "role a"
unfolding strip
strip_test = refl

slug_test : is_slug "peer-review_2" ≡ true
unfolding is_slug
slug_test = refl

identifier_test : is_identifier "lease:A.1 " ≡ false
unfolding is_identifier
identifier_test = refl

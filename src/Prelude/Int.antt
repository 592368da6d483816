-- ===== src/Prelude/Int.antt =====
-- Signed integers over the native numbers, as far as the program orders them.
use Prim.Native.Nat.{ℕ}
use mathlib.Core.Bool.{Bool, true, false}
use agentic_mesh.Prelude.Tests.{ltb, leb}

-- `negsuc n` is -(n + 1).
pub data ℤ : Type 0 where
  pos : ℕ → ℤ
  negsuc : ℕ → ℤ

abbrev pub ltb_ℤ : ℤ → ℤ → Bool
ltb_ℤ (pos a) (pos b) = ltb a b
ltb_ℤ (pos a) (negsuc b) = false
ltb_ℤ (negsuc a) (pos b) = true
ltb_ℤ (negsuc a) (negsuc b) = ltb b a

-- the range of Postgres' `integer`
abbrev pub fits_int4 : ℤ → Bool
fits_int4 (pos n) = leb n 2147483647
fits_int4 (negsuc n) = leb n 2147483647

-- ===== src/Prelude/Sets.antt =====
-- Sequences of strings as sets.
use Prim.Native.String.{String}
use mathlib.Core.Bool.{Bool, false, ◌||◌}
use mathlib.Core.List.{List, [], ◌∷◌}
use text.Mathlib.Text.{◌==◌}
use agentic_mesh.Prelude.Lists.{any_of}

-- `a in xs` for a sequence or a set of strings
unfoldable pub contains : List String → String → Bool
unfolding any_of
contains xs a = any_of (λ x. x == a) xs

-- len(xs) != len(set(xs))
unfoldable pub has_duplicates : List String → Bool
unfolding contains
has_duplicates [] = false
has_duplicates (x ∷ xs) = contains xs x || has_duplicates xs

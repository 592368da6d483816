-- ===== src/Prelude/Json.antt =====
-- JSON values as Python reads them: dictionaries have string keys, in insertion order. Numbers are
-- the integers; no operation modelled here reads a float.
use Prim.Native.Nat.{ℕ, suc}
use Prim.Native.String.{String}
use mathlib.Core.Path.{◌≡◌, refl}
use mathlib.Core.Bool.{Bool, true, false, ◌&&◌}
use mathlib.Core.Option.{Option, none, some}
use mathlib.Core.List.{List, [], ◌∷◌}
use native.Mathlib.Omega.{arith}
use text.Mathlib.Text.{◌==◌}
use text.Mathlib.TextEquality.{eq_iff}
use agentic_mesh.Prelude.Tests.{if◌then◌else◌, eqb}

mutual
  pub data Json : Type 0 where
    null : Json
    bool : Bool → Json
    int : ℕ → Json
    -- `negative_int n` is -(n + 1)
    negative_int : ℕ → Json
    str : String → Json
    arr : Items → Json
    obj : Fields → Json

  pub data Items : Type 0 where
    nil : Items
    cons : Json → Items → Items

  pub data Fields : Type 0 where
    end : Fields
    field : String → Json → Fields → Fields

-- d.get(key)
unfoldable pub get : Fields → String → Option Json
get end k = none
get (field j v m) k = if j == k then some v else get m k

-- d[key] = value
unfoldable pub put : Fields → String → Json → Fields
put end k v = field k v end
put (field j w m) k v = if j == k then field j v m else field j w (put m k v)

pub get-put :
    (m : Fields) (k j : String) (v : Json)
    → get (put m k v) j ≡ (if k == j then some v else get m j)
unfolding get put
get-put end k j v = refl
get-put (field i w m) k j v = ground (arith, eq_iff k j, eq_iff i k, eq_iff i j, get-put m k j v)

unfoldable pub items : Items → List Json
items nil = []
items (cons j xs) = j ∷ items xs

unfoldable pub entries : Fields → List (String × Json)
entries end = []
entries (field k v m) = (k, v) ∷ entries m

abbrev pub bool_number : Bool → ℕ
bool_number true = 1
bool_number false = 0

abbrev pub is_held : (Json → Bool) → Option Json → Bool
is_held p none = false
is_held p (some v) = p v

unfoldable pub size : Fields → ℕ
size end = 0
size (field k v m) = suc (size m)

-- Python's `==` on JSON values: dictionaries without regard to order, and True equal to 1
unfoldable mutual
  unfolding get size

  pub json_eq : Json → Json → Bool
  json_eq null null = true
  json_eq (bool a) (bool b) = eqb (bool_number a) (bool_number b)
  json_eq (bool a) (int n) = eqb (bool_number a) n
  json_eq (int m) (bool b) = eqb m (bool_number b)
  json_eq (int m) (int n) = eqb m n
  json_eq (negative_int m) (negative_int n) = eqb m n
  json_eq (str s) (str t) = s == t
  json_eq (arr xs) (arr ys) = items_eq xs ys
  json_eq (obj m) (obj n) = eqb (size m) (size n) && fields_within m n
  json_eq _ _ = false

  pub items_eq : Items → Items → Bool
  items_eq nil nil = true
  items_eq (cons x xs) (cons y ys) = json_eq x y && items_eq xs ys
  items_eq _ _ = false

  pub fields_within : Fields → Fields → Bool
  fields_within end n = true
  fields_within (field k v m) n = is_held (json_eq v) (get n k) && fields_within m n

json_eq_test :
    json_eq
      (obj (field "a" (int 1) (field "b" (str "x") end)))
      (obj (field "b" (str "x") (field "a" (bool true) end)))
    ≡ true
unfolding json_eq
json_eq_test = refl

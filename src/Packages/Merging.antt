-- ===== src/Packages/Merging.antt =====
-- What a key of merged settings holds.
use agentic_mesh.Prelude.{
  String, Option, none, some, ◌≡◌, refl, subst, ap, ◌∙◌, ◌==◌, inl, inr, eq_iff, Bool-cases,
}
use agentic_mesh.Prelude.Json.{Json, obj, Fields, end, field, get, put, get-put}
use agentic_mesh.Packages.{merge_value, merge}

-- the keys of a dictionary are distinct
abbrev pub HasDistinctKeys : Fields → Type 0
HasDistinctKeys end = Unit {0}
HasDistinctKeys (field k v m) = (get m k ≡ none) × HasDistinctKeys m

-- what a key should hold, by what the two dictionaries hold
unfoldable pub overlaid : Option Json → Option Json → Option Json
unfolding merge
overlaid base none = base
overlaid (some (obj a)) (some (obj b)) = some (obj (merge a b))
overlaid base (some v) = some v

merge_value-overlaid :
    (base : Option Json) (v : Json) → some (merge_value base v) ≡ overlaid base (some v)
unfolding merge_value overlaid
merge_value-overlaid none v = refl
merge_value-overlaid (some (obj a)) (obj b) = refl
merge_value-overlaid (some base) v = refl

-- For an overlay with distinct keys, a key of a merge holds what the base holds where the overlay
-- lacks the key, the merge of the two where both hold dictionaries, and the overlay's value else.
pub get-merge :
    (base overlay : Fields) (j : String)
    → HasDistinctKeys overlay
    → get (merge base overlay) j ≡ overlaid (get base j) (get overlay j)
unfolding merge get overlaid
get-merge base end j h = refl
get-merge base (field k v overlay) j (fresh, h) =
    let w = merge_value (get base k) v in
    let rest = get-merge (put base k w) overlay j h in
    elim (Bool-cases (k == j)) [
      | inl e ↦
          let same : k ≡ j = (eq_iff k j).0 e in
          let none_left : get overlay j ≡ none = subst (λ x. get overlay x ≡ none) same fresh in
          rw (rest, get-put base k j w, e, none_left)
            (ap (λ x. some (merge_value (get base x) v)) same ∙ merge_value-overlaid (get base j) v)
      | inr e ↦ rw (rest, get-put base k j w, e)
    ]

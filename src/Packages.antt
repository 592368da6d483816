-- ===== src/Packages.antt =====
-- src/agentic_mesh_v5/package_resolver.py: how the settings of the packages are merged. The order of
-- the packages and the reading of their files are not here.
pub mod Merging
pub mod Scenarios
use agentic_mesh.Prelude.{Option, none, some, List, [], ◌∷◌}
use agentic_mesh.Prelude.Json.{Json, obj, Fields, end, field, get, put}

unfoldable mutual
  unfolding get put

  -- the value that `_merge` stores for a key, from the current value and that of the overlay
  pub merge_value : Option Json → Json → Json
  merge_value (some (obj current)) (obj value) = obj (merge current value)
  merge_value current value = value

  -- _merge
  pub merge : Fields → Fields → Fields
  merge base end = base
  merge base (field k v overlay) = merge (put base k (merge_value (get base k) v)) overlay

-- the loop of resolve_packages over the JSON contents
unfoldable pub merge_settings : Fields → List Fields → Fields
unfolding merge
merge_settings settings [] = settings
merge_settings settings (content ∷ contents) = merge_settings (merge settings content) contents

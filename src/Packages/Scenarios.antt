-- ===== src/Packages/Scenarios.antt =====
-- A project's override of the settings of a base package: a test, and the theorem at it.
use agentic_mesh.Prelude.{[], ◌∷◌, ◌≡◌, refl}
use agentic_mesh.Prelude.Json.{str, int, obj, Fields, end, field, get}
use agentic_mesh.Packages.{merge, merge_settings}
use agentic_mesh.Packages.Merging.{HasDistinctKeys, overlaid, get-merge}

abbrev base : Fields
base =
    field "limits" (obj (field "retries" (int 3) (field "minutes" (int 20) end)))
      (field "mode" (str "safe") end)

abbrev override : Fields
override = field "limits" (obj (field "minutes" (int 5) end)) (field "owner" (str "product") end)

merge_test :
    merge_settings end (base ∷ override ∷ [])
    ≡ field "limits"
        (obj (field "retries" (int 3) (field "minutes" (int 5) end)))
        (field "mode" (str "safe") (field "owner" (str "product") end))
unfolding merge_settings
merge_test = refl

replaced_test :
    merge base (field "limits" (str "none") end)
    ≡ field "limits" (str "none") (field "mode" (str "safe") end)
unfolding merge
replaced_test = refl

override-HasDistinctKeys : HasDistinctKeys override
unfolding get
override-HasDistinctKeys = (refl, (refl, tt))

get-merge_example :
    get (merge base override) "limits" ≡ overlaid (get base "limits") (get override "limits")
get-merge_example = get-merge base override "limits" override-HasDistinctKeys

-- ===== src/Guidance/Lists.antt =====
-- `_append_unique`, `_trim_paths` and `_unique_ordered`.
use iruka_virtual_file_syste.Prelude.{
  ℕ, ◌-◌, Bool, true, false, ◌||◌, List, [], ◌∷◌, ◌++◌, length, drop, contains, list_eq, nat_eq,
  if◌then◌else◌,
}
use iruka_virtual_file_syste.Text.{Text}

-- MAX_TRACKED_PATHS
abbrev pub max_tracked_paths : ℕ
max_tracked_paths = 32

-- `not path`
abbrev pub is_empty : Text → Bool
is_empty [] = true
is_empty (c ∷ s) = false

-- `paths[-MAX_TRACKED_PATHS:]`
unfoldable pub trim_paths : List Text → List Text
trim_paths paths = drop (length paths - max_tracked_paths) paths

unfoldable pub append_unique : List Text → Text → List Text
append_unique items path =
    if is_empty path || contains path items then items else items ++ (path ∷ [])

unfoldable pub unique_from : List Text → List Text → List Text
unique_from out [] = out
unique_from out (p ∷ paths) =
    unique_from (if is_empty p || contains p out then out else out ++ (p ∷ [])) paths

-- The set `seen` of the source holds the members of `out`.
unfoldable pub unique_ordered : List Text → List Text
unfolding unique_from
unique_ordered paths = unique_from [] paths

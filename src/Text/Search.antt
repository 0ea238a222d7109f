-- ===== src/Text/Search.antt =====
-- `str.replace`, `str.count` and `in` on texts.
use iruka_virtual_file_syste.Prelude.{
  ℕ, zero, suc, Bool, true, false, ◌&&◌, ◌||◌, List, [], ◌∷◌, ◌++◌, drop, length, if◌then◌else◌,
  ◌==◌, nat_eq,
}

unfoldable pub is_prefix : List ℕ → List ℕ → Bool
is_prefix [] s = true
is_prefix (p ∷ ps) [] = false
is_prefix (p ∷ ps) (c ∷ s) = c == p && is_prefix ps s

-- `part in s`
unfoldable pub occurs_in : List ℕ → List ℕ → Bool
unfolding is_prefix
occurs_in part [] = is_prefix part []
occurs_in part (c ∷ s) = is_prefix part (c ∷ s) || occurs_in part s

-- `s.replace(part, by, 1)`
unfoldable pub replace_first : List ℕ → List ℕ → List ℕ → List ℕ
unfolding is_prefix
replace_first part by [] = if is_prefix part [] then by else []
replace_first part by (c ∷ s) = elim (is_prefix part (c ∷ s)) [
  | true ↦ by ++ drop (length part) (c ∷ s)
  | false ↦ c ∷ replace_first part by s
]

-- `s.replace("", by)`
unfoldable pub intersperse : List ℕ → List ℕ → List ℕ
intersperse by [] = by
intersperse by (c ∷ s) = by ++ (c ∷ intersperse by s)

-- The replacement from the left; so many characters of a match are still to drop.
unfoldable pub replace_from : ℕ → ℕ → List ℕ → List ℕ → List ℕ → List ℕ
unfolding is_prefix
replace_from skip p ps by [] = []
replace_from (suc skip) p ps by (c ∷ s) = replace_from skip p ps by s
replace_from zero p ps by (c ∷ s) = elim (is_prefix (p ∷ ps) (c ∷ s)) [
  | true ↦ by ++ replace_from (length ps) p ps by s
  | false ↦ c ∷ replace_from 0 p ps by s
]

-- `s.replace(part, by)`
unfoldable pub replace_all : List ℕ → List ℕ → List ℕ → List ℕ
unfolding intersperse replace_from
replace_all [] by s = intersperse by s
replace_all (p ∷ ps) by s = replace_from 0 p ps by s

-- The count from the left, with the characters of a match that are still to skip.
unfoldable pub count_from : ℕ → ℕ → List ℕ → List ℕ → ℕ
unfolding is_prefix
count_from skip p ps [] = 0
count_from (suc skip) p ps (c ∷ s) = count_from skip p ps s
count_from zero p ps (c ∷ s) = elim (is_prefix (p ∷ ps) (c ∷ s)) [
  | true ↦ suc (count_from (length ps) p ps s)
  | false ↦ count_from 0 p ps s
]

-- `s.count(part)`
unfoldable pub count_all : List ℕ → List ℕ → ℕ
unfolding count_from
count_all [] s = suc (length s)
count_all (p ∷ ps) s = count_from 0 p ps s

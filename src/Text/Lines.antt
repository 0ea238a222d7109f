-- ===== src/Text/Lines.antt =====
-- `str.splitlines`, with and without the line ends.
use iruka_virtual_file_syste.Prelude.{
  ℕ, Bool, true, false, ◌&&◌, ◌||◌, List, [], ◌∷◌, ◌++◌, map, ◌==◌, nat_eq, leb, if◌then◌else◌,
}

-- The line boundaries of `str.splitlines`, but for the pair of a carriage return and a line feed.
unfoldable pub is_break : ℕ → Bool
is_break c = (leb 10 c && leb c 13) || (leb 28 c && leb c 30) || c == 133 || c == 8232 || c == 8233

-- The lines, each with its end, read with the current line so far.
lines_from : List ℕ → List ℕ → List (List ℕ × List ℕ)
lines_from [] [] = []
lines_from (c ∷ cs) [] = (c ∷ cs, []) ∷ []
lines_from line (x ∷ []) = if is_break x then (line, x ∷ []) ∷ [] else (line ++ x ∷ [], []) ∷ []
lines_from line (x ∷ y ∷ s) = elim (x == 13 && y == 10) [
  | true ↦ (line, x ∷ y ∷ []) ∷ lines_from [] s
  | false ↦ elim (is_break x) [
    | true ↦ (line, x ∷ []) ∷ lines_from [] (y ∷ s)
    | false ↦ lines_from (line ++ x ∷ []) (y ∷ s)
  ]
]

-- `s.splitlines()`
unfoldable pub splitlines : List ℕ → List (List ℕ)
unfolding lines_from is_break
splitlines s = map (λ (line, end). line) (lines_from [] s)

-- `s.splitlines(keepends=True)`
unfoldable pub splitlines_keepends : List ℕ → List (List ℕ)
unfolding lines_from is_break
splitlines_keepends s = map (λ (line, end). line ++ end) (lines_from [] s)

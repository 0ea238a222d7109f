-- ===== src/Editing/Patch.antt =====
-- `apply_unified_patch` of `runtime/editing.py`.
use iruka_virtual_file_syste.Prelude.{
  ℕ, suc, Bool, true, false, not, Option, none, some, List, [], ◌∷◌, ◌++◌, ℤ, pos, add_nat,
  pred_int, int_leb, length, drop, ◌==◌, nat_eq, list_eq, if◌then◌else◌,
}
use iruka_virtual_file_syste.Text.{Text, text, join, starts_with}
use iruka_virtual_file_syste.Text.Lines.{splitlines}
use iruka_virtual_file_syste.Text.Number.{is_digit, read_digits}
use iruka_virtual_file_syste.Result.{Result, ok, raise, ◌>>=◌}
use iruka_virtual_file_syste.Editing.Slices.{slice, slice_from, item, max_int}

-- `(\d+)` at the front, with what follows
unfoldable pub match_number : Text → Option (ℕ × Text)
match_number [] = none
match_number (c ∷ s) = if is_digit c then some (read_digits 0 (c ∷ s)) else none

-- `(?:,(\d+))?`: a comma without digits is left, and fails the match later
unfoldable pub match_count : Text → Text
unfolding match_number
match_count [] = []
match_count (c ∷ s) = elim (c == b',') [
  | false ↦ c ∷ s
  | true ↦ elim (match_number s) [ none ↦ c ∷ s | some (n, rest) ↦ rest ]
]

unfoldable pub match_literal : Text → Text → Option Text
match_literal part s = if starts_with s part then some (drop (length part) s) else none

-- `re.match(r"@@ -(\d+)(?:,(\d+))? \+(\d+)(?:,(\d+))? @@", line)`, group 1 as a number
unfoldable pub match_header : Text → Option ℕ
unfolding match_number match_count match_literal
match_header line = elim (match_literal (text "@@ -") line) [
  | none ↦ none
  | some s ↦ elim (match_number s) [
    | none ↦ none
    | some (old_start, s) ↦ elim (match_literal (text " +") (match_count s)) [
      | none ↦ none
      | some s ↦ elim (match_number s) [
        | none ↦ none
        | some (new_start, s) ↦
            if starts_with (match_count s) (text " @@") then some old_start else none
      ]
    ]
  ]
]

pub record Conflict : Type 0 where
  pub line : ℕ
  pub reason : Text
  pub expected : Option Text

-- What the loop over the lines returns: the output lines, or the first conflict and whether the
-- text stays as it was.
pub data Applied : Type 0 where
  lines : List Text → Applied
  bad_header : List Text → Conflict → Applied
  rejected : Conflict → Applied

-- `pos >= len(original) or original[pos] != text`
unfoldable pub mismatch : List Text → ℤ → Text → Result Bool
mismatch original p expected =
    if int_leb (pos (length original)) p
    then ok true
    else item original p >>= λ line. ok (not (line == expected))

-- The marker of a line of a hunk and its text; an empty line is an empty context line.
unfoldable pub marker_of : Text → ℕ × Text
marker_of [] = (b' ', [])
marker_of (c ∷ s) = (c, s)

-- What a line of a hunk does: the output and the position after it, or a conflict. A line that
-- begins with a backslash is skipped.
pub data Marked : Type 0 where
  moved : List Text → ℤ → Marked
  conflict : Text → Option Text → Marked

unfoldable pub apply_marked : List Text → List Text → ℤ → ℕ → Text → Result Marked
unfolding mismatch
apply_marked original output p marker t = elim (marker == b'\\') [
  | true ↦ ok (moved output p)
  | false ↦ elim (marker == b' ') [
    | true ↦ elim (mismatch original p t) [
      | raise e ↦ raise e
      | ok true ↦ ok (conflict (text "context mismatch") (some t))
      | ok false ↦ item original p >>= λ line. ok (moved (output ++ line ∷ []) (add_nat p 1))
    ]
    | false ↦ elim (marker == b'-') [
      | true ↦ elim (mismatch original p t) [
        | raise e ↦ raise e
        | ok true ↦ ok (conflict (text "remove mismatch") (some t))
        | ok false ↦ ok (moved output (add_nat p 1))
      ]
      | false ↦ elim (marker == b'+') [
        | true ↦ ok (moved (output ++ t ∷ []) p)
        | false ↦ ok (conflict (text "unsupported marker: " ++ marker ∷ []) none)
      ]
    ]
  ]
]

unfoldable pub apply_line : List Text → List Text → ℤ → Text → Result Marked
unfolding apply_marked marker_of
apply_line original output p line =
    let (marker, t) = marker_of line in apply_marked original output p marker t

-- Where the loop is: between hunks, with `cursor`, or inside one, with `pos`.
pub data Place : Type 0 where
  between : ℤ → Place
  inside : ℤ → Place

-- The cursor that the next hunk or the end sees: a hunk ends with `cursor = pos`.
abbrev pub cursor_of : Place → ℤ
cursor_of (between cursor) = cursor
cursor_of (inside p) = p

-- The loops over the lines of the diff, from the line number on.
unfoldable pub patch_from : List Text → ℕ → List Text → Place → List Text → Result Applied
patch_from original idx output place [] =
    ok (lines (output ++ slice_from original (cursor_of place)))
patch_from original idx output place (line ∷ rest) = elim (starts_with line (text "@@")) [
  | true ↦ elim (match_header line) [
    | none ↦ ok (
        bad_header (output ++ slice_from original (cursor_of place))
          (record { line = suc idx; reason = text "invalid hunk header"; expected = none }))
    | some old_start ↦
        let start = pred_int (pos old_start) in
        patch_from original (suc idx)
          (output ++ slice original (cursor_of place) (max_int start (cursor_of place)))
          (inside start) rest
  ]
  | false ↦ elim place [
    | between cursor ↦ patch_from original (suc idx) output (between cursor) rest
    | inside p ↦ elim (apply_line original output p line) [
      | raise e ↦ raise e
      | ok (conflict reason expected) ↦
          ok (rejected (record { line = suc idx; reason = reason; expected = expected }))
      | ok (moved output' p') ↦ patch_from original (suc idx) output' (inside p') rest
    ]
  ]
]

-- `before.endswith("\n")`
unfoldable pub ends_with_newline : Text → Bool
ends_with_newline [] = false
ends_with_newline (c ∷ []) = c == 10
ends_with_newline (c ∷ d ∷ s) = ends_with_newline (d ∷ s)

-- `"\n".join(output) + newline`
unfoldable pub join_lines : Text → List Text → Text
unfolding ends_with_newline
join_lines before output =
    join (10 ∷ []) output ++ (if ends_with_newline before then 10 ∷ [] else [])

unfoldable pub apply_unified_patch : Text → Text → Result (Text × List Conflict)
unfolding join_lines
apply_unified_patch before diff_text =
    elim (patch_from (splitlines before) 0 [] (between (pos 0)) (splitlines diff_text)) [
      | raise e ↦ raise e
      | ok (lines output) ↦ ok (join_lines before output, [])
      | ok (bad_header output c) ↦ ok (join_lines before output, c ∷ [])
      | ok (rejected c) ↦ ok (before, c ∷ [])
    ]

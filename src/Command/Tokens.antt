-- ===== src/Command/Tokens.antt =====
-- `shell_tokens` of `command_parser.py`, after the lexer.
use iruka_virtual_file_syste.Prelude.{
  true, false, not, ◌&&◌, List, [], ◌∷◌, ◌++◌, map, ◌==◌, nat_eq, list_eq, if◌then◌else◌, all_of,
}
use iruka_virtual_file_syste.Text.{Text, text}

-- A run of at least three `>` becomes single ones; `>` and `>>` stay.
unfoldable pub normalize_token : Text → List Text
normalize_token [] = [] ∷ []
normalize_token (c ∷ s) =
    if not (c ∷ s == text ">>") && all_of (λ d. d == b'>') (c ∷ s) && not (c ∷ s == text ">")
    then map (λ d. text ">") (c ∷ s)
    else (c ∷ s) ∷ []

unfoldable pub normalize_tokens : List Text → List Text
unfolding normalize_token
normalize_tokens [] = []
normalize_tokens (t ∷ ts) = normalize_token t ++ normalize_tokens ts

-- The loop that merges the parts of `2>&1`.
unfoldable pub merge_tokens : List Text → List Text
merge_tokens [] = []
merge_tokens (a ∷ []) = a ∷ []
merge_tokens (a ∷ b ∷ []) =
    if a == text "2>" && b == text "&1" then text "2>&1" ∷ [] else a ∷ b ∷ []
merge_tokens (a ∷ b ∷ c ∷ ts) = elim (a == text "2" && b == text ">&" && c == text "1") [
  | true ↦ text "2>&1" ∷ merge_tokens ts
  | false ↦ elim (a == text "2>" && b == text "&1") [
    | true ↦ text "2>&1" ∷ merge_tokens (c ∷ ts)
    | false ↦ a ∷ merge_tokens (b ∷ c ∷ ts)
  ]
]

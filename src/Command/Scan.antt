-- ===== src/Command/Scan.antt =====
-- The scanners of `command_parser.py` for `||`, `<<<`, `<` and numbered redirects.
use iruka_virtual_file_syste.Prelude.{
  ℕ, suc, Bool, true, false, not, ◌&&◌, ◌||◌, Option, none, some, [], ◌∷◌, ◌++◌, ◌==◌, nat_eq,
  option_eq,
}
use iruka_virtual_file_syste.Text.{Text}
use iruka_virtual_file_syste.Text.Strip.{strip, rstrip}
use iruka_virtual_file_syste.Text.Number.{is_digit}
use iruka_virtual_file_syste.Command.Quotes.{Quotes, unquoted, is_quoted, quote_step}

-- The loop of `_top_level_or_parts` over the rest of the text, with the text before it.
unfoldable pub or_parts_from : Quotes → Text → Text → Option (Text × Text)
or_parts_from q before [] = none
or_parts_from q before (c ∷ []) = none
or_parts_from q before (c ∷ d ∷ s) = elim (quote_step q c) [
  | some q' ↦ or_parts_from q' (before ++ c ∷ []) (d ∷ s)
  | none ↦ elim (not (is_quoted q) && c == b'|' && d == b'|') [
    | true ↦ some (rstrip before, strip s)
    | false ↦ or_parts_from q (before ++ c ∷ []) (d ∷ s)
  ]
]

-- `_top_level_or_parts`
unfoldable pub top_level_or_parts : Text → Option (Text × Text)
unfolding or_parts_from
top_level_or_parts cmd = or_parts_from unquoted [] cmd

-- The loop of `_top_level_here_string_index` over the text from an index on.
unfoldable pub here_string_from : Quotes → ℕ → Text → Option ℕ
here_string_from q idx [] = none
here_string_from q idx (c ∷ []) = none
here_string_from q idx (c ∷ d ∷ []) = none
here_string_from q idx (c ∷ d ∷ e ∷ s) = elim (quote_step q c) [
  | some q' ↦ here_string_from q' (suc idx) (d ∷ e ∷ s)
  | none ↦ elim (not (is_quoted q) && c == b'<' && d == b'<' && e == b'<') [
    | true ↦ some idx
    | false ↦ here_string_from q (suc idx) (d ∷ e ∷ s)
  ]
]

-- `_top_level_here_string_index`
unfoldable pub top_level_here_string_index : Text → Option ℕ
unfolding here_string_from
top_level_here_string_index cmd = here_string_from unquoted 0 cmd

-- The loop of `_contains_plain_input_redirect`, with the character before.
unfoldable pub plain_redirect_from : Option ℕ → Text → Bool
plain_redirect_from prev [] = false
plain_redirect_from prev (c ∷ []) = c == b'<' && not (prev == some b'<')
plain_redirect_from prev (c ∷ d ∷ s) = elim (c == b'<') [
  | false ↦ plain_redirect_from (some c) (d ∷ s)
  | true ↦ elim (d == b'<') [
    | true ↦ plain_redirect_from (some d) s
    | false ↦ elim (prev == some b'<') [
      | true ↦ plain_redirect_from (some c) (d ∷ s)
      | false ↦ true
    ]
  ]
]

-- `_contains_plain_input_redirect`
unfoldable pub contains_plain_input_redirect : Text → Bool
unfolding plain_redirect_from
contains_plain_input_redirect cmd = plain_redirect_from none cmd

-- `re.search(r"(^|[^0-9])(?:1>|2>)", s)`, given whether the character before is a digit
unfoldable pub numbered_redirect_from : Bool → Text → Bool
numbered_redirect_from after_digit [] = false
numbered_redirect_from after_digit (c ∷ []) = false
numbered_redirect_from after_digit (c ∷ d ∷ s) =
    (not after_digit && (c == b'1' || c == b'2') && d == b'>')
    || numbered_redirect_from (is_digit c) (d ∷ s)

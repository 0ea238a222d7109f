-- ===== src/Command/Heredoc.antt =====
-- `_extract_heredoc` and `_extract_here_string` of `command_parser.py`. `shlex.split` is a parameter.
use iruka_virtual_file_syste.Prelude.{
  ℕ, ◌+◌, Bool, true, false, ◌||◌, Option, none, some, List, [], ◌∷◌, ◌++◌, ◌==◌, nat_eq, list_eq,
  if◌then◌else◌, take, drop,
}
use iruka_virtual_file_syste.Text.{Text, text, join, starts_with}
use iruka_virtual_file_syste.Text.Lines.{splitlines_keepends}
use iruka_virtual_file_syste.Text.Search.{occurs_in}
use iruka_virtual_file_syste.Text.Strip.{strip, rstrip, rstrip_by, lstrip_by, is_space}
use iruka_virtual_file_syste.Command.Errors.{
  ParseErrorDetail, plain_error, invalid_heredoc_error_detail,
}
use iruka_virtual_file_syste.Command.Scan.{top_level_here_string_index}

-- What a lexer returns: its tokens or the message of its `ValueError`.
pub data Lexed : Type 0 where
  tokens : List Text → Lexed
  lex_error : Text → Lexed

-- The command without its input text and that text, or the error.
pub data Extracted : Type 0 where
  extracted : Text → Text → Extracted
  refused : ParseErrorDetail → Extracted

-- The text up to the first character that satisfies the test, and the rest.
unfoldable pub break_at : (ℕ → Bool) → Text → Text × Text
break_at p [] = ([], [])
break_at p (c ∷ s) =
    let (before, rest) = break_at p s in if p c then ([], c ∷ s) else (c ∷ before, rest)

-- `'([^']+)'` or `"([^"]+)"` at the front, with what follows
unfoldable pub quoted_delimiter : ℕ → Text → Option (Text × Text)
unfolding break_at
quoted_delimiter quote [] = none
quoted_delimiter quote (c ∷ s) = if c == quote then closed (break_at (λ d. d == quote) s) else none
  where
    closed : Text × Text → Option (Text × Text)
    closed ([], rest) = none
    closed (d ∷ ds, []) = none
    closed (d ∷ ds, q ∷ rest) = some (d ∷ ds, rest)

-- `([^\s|;&>]+)` at the front
unfoldable pub bare_delimiter : Text → Option (Text × Text)
unfolding break_at
bare_delimiter s =
    found (break_at (λ c. is_space c || c == b'|' || c == b';' || c == b'&' || c == b'>') s)
  where
    found : Text × Text → Option (Text × Text)
    found ([], rest) = none
    found (c ∷ cs, rest) = some (c ∷ cs, rest)

abbrev or_else : Option (Text × Text) → Option (Text × Text) → Option (Text × Text)
or_else none o = o
or_else (some p) o = some p

unfoldable pub delimiter_at : Text → Option (Text × Text)
delimiter_at s =
    let rest = lstrip_by is_space s in
    or_else (quoted_delimiter b'\'' rest)
      (or_else (quoted_delimiter b'"' rest) (bare_delimiter rest))

-- `re.search(r"<<\s*(?:'([^']+)'|\"([^\"]+)\"|([^\s|;&>]+))", header)`: the delimiter, what stands
-- before the match and what stands after it
unfoldable pub find_delimiter : Text → Text → Option (Text × Text × Text)
find_delimiter before [] = none
find_delimiter before (c ∷ s) = elim (starts_with (c ∷ s) (text "<<")) [
  | false ↦ find_delimiter (before ++ c ∷ []) s
  | true ↦ elim (delimiter_at (drop 1 s)) [
    | none ↦ find_delimiter (before ++ c ∷ []) s
    | some (delimiter, after) ↦ some (delimiter, before, after)
  ]
]

abbrev pub is_line_end : ℕ → Bool
is_line_end c = c == 13 || c == 10

-- The lines before the terminator and the lines after it.
unfoldable pub collect_body : Text → List Text → Option (List Text × List Text)
collect_body delimiter [] = none
collect_body delimiter (line ∷ lines) = elim (rstrip_by is_line_end line == delimiter) [
  | true ↦ some ([], lines)
  | false ↦ elim (collect_body delimiter lines) [
    | none ↦ none
    | some (body, rest) ↦ some (line ∷ body, rest)
  ]
]

unfoldable pub multiple_blocks_error : ParseErrorDetail
multiple_blocks_error = record {
  kind = text "multiple_heredoc_write_blocks";
  summary = text "multiple heredoc write blocks in a single raw command are not supported.";
  suggestion = some (text "Split them into two commands with `;` or `&&`.");
  example = some (
      text "Template: `cat <<'EOF' >| /workspace/a ... EOF ; cat <<'EOF' >| /workspace/b ... EOF`");
}

-- The checks after the terminator is found.
unfoldable pub finish_heredoc : Text → List Text → List Text → Extracted
unfolding multiple_blocks_error plain_error
finish_heredoc header body rest =
    if occurs_in (text "<<") header
    then refused
        (plain_error (text "multiple_heredocs") (text "multiple heredocs are not supported"))
    else elim (strip (join [] rest)) [
      | [] ↦ extracted header (join [] body)
      | c ∷ s ↦ refused multiple_blocks_error
    ]

module _ (shlex_split : Text → Lexed) (str_split : Text → List Text) where
  -- `_first_command_name`; `str.split` without arguments is the other parameter
  unfoldable pub first_command_name : Text → Text
  first_command_name raw = elim (strip raw) [
    | [] ↦ []
    | c ∷ s ↦ elim (shlex_split (c ∷ s)) [
      | tokens ts ↦ first ts
      | lex_error message ↦ first (str_split (c ∷ s))
    ]
  ]
    where
      first : List Text → Text
      first [] = []
      first (t ∷ ts) = t

  -- `_extract_heredoc`
  unfoldable pub extract_heredoc : Text → Extracted
  unfolding first_command_name finish_heredoc
  extract_heredoc cmd = elim (occurs_in (text "<<") cmd) [
    | false ↦ extracted cmd []
    | true ↦ elim (splitlines_keepends cmd) [
      | [] ↦ extracted cmd []
      | line ∷ body_lines ↦
          let header = rstrip_by is_line_end line in
          elim (find_delimiter [] header) [
            | none ↦ refused (invalid_heredoc_error_detail (first_command_name header))
            | some (delimiter, before, after) ↦ elim (collect_body delimiter body_lines) [
              | none ↦ refused (
                  plain_error (text "missing_heredoc_terminator")
                    (text "heredoc terminator not found: " ++ delimiter))
              | some (body, rest) ↦ finish_heredoc (strip (before ++ after)) body rest
            ]
          ]
    ]
  ]

  -- The right-hand side of `<<<`.
  unfoldable pub here_string_input : Text → Text → Extracted
  unfolding plain_error
  here_string_input primary [] = refused (
      plain_error (text "missing_here_string_input")
        (text "here-string redirect <<< is missing input text"))
  here_string_input primary (c ∷ rhs) =
      elim (occurs_in (text "$(") (c ∷ rhs) || occurs_in (text "`") (c ∷ rhs)) [
        | true ↦ refused (record {
          kind = text "unsupported_here_string_substitution";
          summary = text "here-string command substitution is not supported.";
          suggestion = some (
              text "Use `cat <file> | <command>`, `echo <text> | <command>`, or "
              ++ text "`cat <<'EOF' | <command>` instead.");
          example = none;
        })
        | false ↦ elim (shlex_split (c ∷ rhs)) [
          | lex_error message ↦ refused (
              plain_error (text "invalid_here_string_text")
                (text "invalid here-string text: " ++ message))
          | tokens [] ↦ refused (
              plain_error (text "missing_here_string_input")
                (text "here-string redirect <<< is missing input text"))
          | tokens (t ∷ ts) ↦ extracted primary (join (text " ") (t ∷ ts) ++ text "\n")
        ]
      ]

  -- `_extract_here_string`
  unfoldable pub extract_here_string : Text → Extracted
  unfolding here_string_input plain_error
  extract_here_string cmd = elim (top_level_here_string_index cmd) [
    | none ↦ extracted cmd []
    | some split_idx ↦ elim (rstrip (take split_idx cmd)) [
      | [] ↦ refused (
          plain_error (text "missing_here_string_command")
            (text "here-string redirect <<< is missing a command before it"))
      | c ∷ primary ↦ here_string_input (c ∷ primary) (strip (drop (split_idx + 3) cmd))
    ]
  ]

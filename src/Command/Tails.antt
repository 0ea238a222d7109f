-- ===== src/Command/Tails.antt =====
-- `_extract_compatible_shell_tails` and `_detect_unsupported_shell_syntax` of `command_parser.py`.
use iruka_virtual_file_syste.Prelude.{
  ℕ, zero, suc, Bool, true, false, ◌&&◌, ◌||◌, Option, none, some, [], ◌∷◌, ◌++◌, ◌==◌, nat_eq,
  list_eq, if◌then◌else◌, drop,
}
use iruka_virtual_file_syste.Text.{Text, text, starts_with}
use iruka_virtual_file_syste.Text.Search.{occurs_in}
use iruka_virtual_file_syste.Text.Strip.{strip, is_space}
use iruka_virtual_file_syste.Command.Errors.{
  ParseErrorDetail, plain_error, unsupported_or_error_detail,
}
use iruka_virtual_file_syste.Command.Scan.{
  top_level_or_parts, contains_plain_input_redirect, numbered_redirect_from,
}

-- `2>/dev/null` at the front, then white space or the end
unfoldable pub null_redirect_here : Text → Bool
null_redirect_here s = starts_with s (text "2>/dev/null") && ends (drop 11 s)
  where
    ends : Text → Bool
    ends [] = true
    ends (c ∷ t) = is_space c

unfoldable pub null_redirect_after_space : Text → Bool
unfolding null_redirect_here
null_redirect_after_space [] = false
null_redirect_after_space (c ∷ s) =
    (is_space c && null_redirect_here s) || null_redirect_after_space s

-- `re.search(r"(?:^|\s)2>/dev/null(?:\s|$)", s)`
unfoldable pub has_null_redirect : Text → Bool
unfolding null_redirect_here null_redirect_after_space
has_null_redirect s = null_redirect_here s || null_redirect_after_space s

-- The replacement after the start of the text; so many characters of a match are still to drop.
unfoldable pub drop_null_from : ℕ → Text → Text
unfolding null_redirect_here
drop_null_from skip [] = []
drop_null_from (suc skip) (c ∷ s) = drop_null_from skip s
drop_null_from zero (c ∷ s) = elim (is_space c && null_redirect_here s) [
  | true ↦ b' ' ∷ drop_null_from 11 s
  | false ↦ c ∷ drop_null_from 0 s
]

-- `re.sub(r"(?:^|\s)2>/dev/null(?=\s|$)", " ", s)`
unfoldable pub drop_null_redirects : Text → Text
unfolding null_redirect_here drop_null_from
drop_null_redirects s =
    if null_redirect_here s then b' ' ∷ drop_null_from 11 s else drop_null_from 0 s

-- `compat`; "or_fallback" is a list of one command
pub record Compat : Type 0 where
  pub discard_stderr : Bool
  pub ignore_error : Bool
  pub or_fallback : Option Text

-- The `||` tails that the parser takes.
unfoldable pub extract_or_tail : Bool → Text → Text × Compat
extract_or_tail discard stripped = elim (top_level_or_parts stripped) [
  | none ↦ (stripped, record { discard_stderr = discard; ignore_error = false; or_fallback = none })
  | some (primary, fallback_text) ↦ elim (strip fallback_text == text "true") [
    | true ↦ (
      primary,
      record { discard_stderr = discard; ignore_error = true; or_fallback = some (text "true") },
    )
    | false ↦ elim (strip fallback_text == text ":") [
      | true ↦ (
        primary,
        record { discard_stderr = discard; ignore_error = true; or_fallback = some (text ":") },
      )
      | false ↦ elim (strip fallback_text == text "help") [
        | true ↦ (
          primary,
          record {
            discard_stderr = discard;
            ignore_error = false;
            or_fallback = some (text "help");
          },
        )
        | false ↦ (
          stripped,
          record { discard_stderr = discard; ignore_error = false; or_fallback = none },
        )
      ]
    ]
  ]
]

-- `_extract_compatible_shell_tails`
unfoldable pub extract_compatible_shell_tails : Text → Text × Compat
unfolding extract_or_tail
extract_compatible_shell_tails cmd = elim (strip cmd) [
  | [] ↦ (cmd, record { discard_stderr = false; ignore_error = false; or_fallback = none })
  | c ∷ s ↦ elim (has_null_redirect (c ∷ s)) [
    | true ↦ extract_or_tail true (drop_null_redirects (c ∷ s))
    | false ↦ extract_or_tail false (c ∷ s)
  ]
]

-- The fallback that `_detect_unsupported_shell_syntax` names in its message.
unfoldable pub or_error : Text → ParseErrorDetail
or_error stripped = elim (top_level_or_parts stripped) [
  | none ↦ unsupported_or_error_detail []
  | some (primary, fallback_text) ↦ unsupported_or_error_detail fallback_text
]

unfoldable pub here_string_redirect_error : ParseErrorDetail
here_string_redirect_error = record {
  kind = text "unsupported_here_string_redirect";
  summary = text "unsupported here-string redirect <<<.";
  suggestion = some (
      text "Use `echo <text> | <command>`, `cat <file> | <command>`, or "
      ++ text "`cat <<'EOF' | <command>` instead.");
  example = none;
}

unfoldable pub stderr_redirect_error : ParseErrorDetail
stderr_redirect_error = record {
  kind = text "unsupported_general_stderr_redirect";
  summary = text "general 1>/2> redirects are not supported.";
  suggestion = some (
      text "Use `2>/dev/null` to discard stderr, `2>&1` to merge stderr into stdout, or remove the "
      ++ text "stderr redirect tail and run the main command directly.");
  example = none;
}

-- `_detect_unsupported_shell_syntax`; a blank command has no syntax to refuse
unfoldable pub detect_unsupported_shell_syntax : Text → Option ParseErrorDetail
unfolding or_error here_string_redirect_error stderr_redirect_error plain_error
detect_unsupported_shell_syntax cmd =
    let stripped = strip cmd in
    if occurs_in (text "||") stripped
    then some (or_error stripped)
    else if occurs_in (text "$(") stripped || occurs_in (text "`") stripped
    then some (
        plain_error (text "unsupported_command_substitution")
          (text "command substitution is not supported; use plain commands only"))
    else if occurs_in (text "<<<") stripped
    then some here_string_redirect_error
    else if occurs_in (text "&>") stripped
    then some (
        plain_error (text "&>_not_supported")
          (text "&> redirect is not supported; only >, >>, >|, and 2>&1 are supported"))
    else if numbered_redirect_from false stripped
    then some stderr_redirect_error
    else if contains_plain_input_redirect stripped
    then some
        (plain_error (text "unsupported_input_redirect") (text "input redirect < is not supported"))
    else none

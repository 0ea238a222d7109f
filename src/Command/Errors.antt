-- ===== src/Command/Errors.antt =====
-- `parse_errors.py`: the details of a parse error and their message.
use iruka_virtual_file_syste.Prelude.{
  Option, none, some, true, false, ◌||◌, [], ◌∷◌, ◌++◌, ◌==◌, nat_eq, list_eq,
}
use iruka_virtual_file_syste.Text.{Text, text}
use iruka_virtual_file_syste.Text.Search.{occurs_in}

pub record ParseErrorDetail : Type 0 where
  pub kind : Text
  pub summary : Text
  pub suggestion : Option Text
  pub example : Option Text

-- `ParseErrorDetail.render`; an empty suggestion or example counts as missing
unfoldable pub render : ParseErrorDetail → Text
render d = text "parse error: " ++ d.summary ++ tail d.suggestion ++ tail d.example
  where
    tail : Option Text → Text
    tail none = []
    tail (some []) = []
    tail (some (c ∷ s)) = b' ' ∷ c ∷ s

-- `make_parse_error` without suggestion and example
unfoldable pub plain_error : Text → Text → ParseErrorDetail
plain_error kind summary = record {
  kind = kind;
  summary = summary;
  suggestion = none;
  example = none;
}

unfoldable pub invalid_heredoc_error_detail : Text → ParseErrorDetail
unfolding plain_error
invalid_heredoc_error_detail command =
    plain_error (text "invalid_heredoc")
      (text "invalid heredoc syntax for `" ++ name command ++ text "`")
  where
    name : Text → Text
    name [] = text "command"
    name (c ∷ s) = c ∷ s

unfoldable pub unsupported_or_error_detail : Text → ParseErrorDetail
unsupported_or_error_detail fallback_text = record {
  kind = text "unsupported_or_fallback";
  summary = text "unsupported " ++ suffix fallback_text ++ text " fallback.";
  suggestion = some (
      text
        "Supported forms are `|| true`, `|| :`, and `|| help`. Otherwise remove the `|| ...` tail "
      ++ text "and run the main command directly, or rewrite it as `;` / `&&` explicitly.");
  example = none;
}
  where
    suffix : Text → Text
    suffix [] = text "`||`"
    suffix (c ∷ s) = text "`|| " ++ (c ∷ s) ++ text "`"

unfoldable pub shlex_parse_error_detail : Text → Text → ParseErrorDetail
unfolding plain_error
shlex_parse_error_detail cmd message = elim (message == text "No escaped character") [
  | false ↦ plain_error (text "shlex_error") message
  | true ↦
      elim (occurs_in (text "-exec") cmd
        || occurs_in (text "\\;") cmd
        || occurs_in (text "\\(") cmd
        || occurs_in (text "\\)") cmd) [
          | false ↦
              plain_error (text "stray_escape")
                (text "stray backslash escape; use plain commands only")
          | true ↦ record {
            kind = text "unsupported_find_escape";
            summary = text "shell-escaped find syntax is not supported in that form.";
            suggestion = some (
                text "Use a limited form like `find /workspace -type f -exec grep -l TODO {} \\;`, "
                ++ text "`find ... | xargs grep -l TODO`, or `grep -l TODO /workspace`.");
            example = none;
          }
        ]
]

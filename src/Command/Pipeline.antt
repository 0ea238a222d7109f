-- ===== src/Command/Pipeline.antt =====
-- `parse_pipeline_and_redirect_detailed` of `command_parser.py`. The lexers of `shlex` are parameters.
use iruka_virtual_file_syste.Prelude.{
  Bool, true, false, ◌||◌, Option, none, some, List, [], ◌∷◌, ◌++◌, ◌==◌, nat_eq, list_eq,
}
use iruka_virtual_file_syste.Text.{Text, text}
use iruka_virtual_file_syste.Command.Errors.{
  ParseErrorDetail, plain_error, shlex_parse_error_detail,
}
use iruka_virtual_file_syste.Command.Tails.{
  Compat, extract_compatible_shell_tails, detect_unsupported_shell_syntax,
}
use iruka_virtual_file_syste.Command.Heredoc.{
  Lexed, tokens, lex_error, extracted, refused, extract_heredoc, extract_here_string,
}
use iruka_virtual_file_syste.Command.Tokens.{normalize_tokens, merge_tokens}

pub record Redirect : Type 0 where
  pub op : Text
  pub path : Text
  pub force : Bool

-- The result of the loop: the pipeline, the redirect and "merge_stderr".
pub record Stages : Type 0 where
  pub pipeline : List (List Text)
  pub redirect : Option Redirect
  pub merge_stderr : Bool

pub data Staged : Type 0 where
  staged : Stages → Staged
  stage_error : ParseErrorDetail → Staged

-- The current command ends up in the pipeline, unless it is empty.
unfoldable pub finish_stages : List (List Text) → List Text → Option Redirect → Bool → Staged
unfolding plain_error
finish_stages [] [] redirect merge =
    stage_error (plain_error (text "empty_command") (text "empty command"))
finish_stages (p ∷ ps) [] redirect merge =
    staged (record { pipeline = p ∷ ps; redirect = redirect; merge_stderr = merge })
finish_stages pipeline (t ∷ ts) redirect merge =
    staged
      (record { pipeline = pipeline ++ (t ∷ ts) ∷ []; redirect = redirect; merge_stderr = merge })

-- What follows a redirect: its target, and `--force` at most.
unfoldable pub read_redirect : List (List Text) → List Text → Bool → Text → List Text → Staged
unfolding plain_error finish_stages
read_redirect pipeline current merge op [] =
    stage_error (plain_error (text "missing_redirect_target") (text "redirect target is missing"))
read_redirect pipeline current merge op (path ∷ []) =
    finish_stages pipeline current (some (record { op = op; path = path; force = op == text ">|" }))
      merge
read_redirect pipeline current merge op (path ∷ t ∷ []) = elim (t == text "--force") [
  | true ↦
      finish_stages pipeline current (some (record { op = op; path = path; force = true })) merge
  | false ↦ stage_error (
      plain_error (text "trailing_tokens_after_redirect")
        (text "trailing tokens after redirect target"))
]
read_redirect pipeline current merge op (path ∷ t ∷ u ∷ ts) = stage_error (
    plain_error (text "trailing_tokens_after_redirect")
      (text "trailing tokens after redirect target"))

unfoldable pub is_redirect : Text → Bool
is_redirect t = t == text ">" || t == text ">>" || t == text ">|"

-- The loop over the tokens.
unfoldable pub stages_from : List (List Text) → List Text → Bool → List Text → Staged
unfolding plain_error
stages_from pipeline current merge [] = finish_stages pipeline current none merge
stages_from pipeline current merge (t ∷ ts) = elim (t == text "2>&1") [
  | true ↦ stages_from pipeline current true ts
  | false ↦ elim (t == text "|") [
    | true ↦ elim current [
      | [] ↦
          stage_error
            (plain_error (text "empty_command_before_pipe") (text "empty command before pipe"))
      | c ∷ cs ↦ stages_from (pipeline ++ (c ∷ cs) ∷ []) [] merge ts
    ]
    | false ↦ elim (is_redirect t) [
      | true ↦ read_redirect pipeline current merge t ts
      | false ↦ stages_from pipeline (current ++ t ∷ []) merge ts
    ]
  ]
]

pub record Parsed : Type 0 where
  pub stages : Stages
  pub discard_stderr : Bool
  pub ignore_error : Bool
  pub or_fallback : Option Text
  pub stdin_text : Text

-- A command without tokens has an empty pipeline and nothing else.
pub data ParseResult : Type 0 where
  no_tokens : ParseResult
  parsed : Parsed → ParseResult
  parse_error : ParseErrorDetail → ParseResult

-- `stdin_text or here_string_text`
abbrev text_or : Text → Text → Text
text_or [] other = other
text_or (c ∷ s) other = c ∷ s

-- `shlex.shlex` with the settings of `shell_tokens`, `shlex.split` and `str.split`.
module _ (lexer : Text → Lexed) (shlex_split : Text → Lexed) (str_split : Text → List Text) where
  -- The part after the input texts are extracted.
  unfoldable pub parse_stages : Text → Compat → Text → ParseResult
  parse_stages cmd compat stdin_text = elim (lexer cmd) [
    | lex_error message ↦ parse_error (shlex_parse_error_detail cmd message)
    | tokens ts ↦ elim (merge_tokens (normalize_tokens ts)) [
      | [] ↦ no_tokens
      | t ∷ rest ↦ elim (stages_from [] [] false (t ∷ rest)) [
        | stage_error detail ↦ parse_error detail
        | staged stages ↦ parsed (record {
          stages = stages;
          discard_stderr = compat.discard_stderr;
          ignore_error = compat.ignore_error;
          or_fallback = compat.or_fallback;
          stdin_text = stdin_text;
        })
      ]
    ]
  ]

  unfoldable pub parse_pipeline_and_redirect_detailed : Text → ParseResult
  unfolding parse_stages
  parse_pipeline_and_redirect_detailed cmd =
      let (main, compat) = extract_compatible_shell_tails cmd in
      elim (extract_here_string shlex_split str_split main) [
        | refused detail ↦ parse_error detail
        | extracted primary here_string_text ↦ elim (detect_unsupported_shell_syntax primary) [
          | some detail ↦ parse_error detail
          | none ↦ elim (extract_heredoc shlex_split str_split primary) [
            | refused detail ↦ parse_error detail
            | extracted rest stdin_text ↦
                parse_stages rest compat (text_or stdin_text here_string_text)
          ]
        ]
      ]

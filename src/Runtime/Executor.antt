-- ===== src/Runtime/Executor.antt =====
-- `run_command_chain` and `run_single_command` of `runtime/executor.py`. The nested
-- entries of the artifacts (`pipeline`, `redirect`, `results`, `parse_error`, `fallback_artifacts`)
-- are left out.
use iruka_virtual_file_syste.Prelude.{
  ℕ, Bool, true, false, not, ◌&&◌, Option, none, some, List, [], ◌∷◌, ◌++◌, pos, keep, nat_eq,
  list_eq, ◌==◌, if◌then◌else◌,
}
use iruka_virtual_file_syste.Text.{Text, text, join}
use iruka_virtual_file_syste.Text.Strip.{strip}
use iruka_virtual_file_syste.Dict.{put}
use iruka_virtual_file_syste.Result.{Result, ok, raise, ◌>>=◌}
use iruka_virtual_file_syste.Editing.Patch.{ends_with_newline}
use iruka_virtual_file_syste.Command.Errors.{render}
use iruka_virtual_file_syste.Command.Chain.{ChainOp, always, if_ok, Piece, split_chain}
use iruka_virtual_file_syste.Command.Pipeline.{
  Parsed, no_tokens, parsed, parse_error, parse_pipeline_and_redirect_detailed,
}
use iruka_virtual_file_syste.Runtime.World.{
  World, Externals, number, texts, flag, Artifacts, VirtualCommandResult, Outcome, succeed,
  fail_with,
}
use iruka_virtual_file_syste.Runtime.Texts.{newline}
use iruka_virtual_file_syste.Runtime.Dispatch.{exec_argv}
use iruka_virtual_file_syste.Runtime.Redirects.{apply_redirect}

-- `a.update(b)`
unfoldable pub update : Artifacts → Artifacts → Artifacts
update a [] = a
update a ((key, value) ∷ b) = update (put key value a) b

-- `"\n".join(chunk for chunk in chunks if chunk).strip()`
unfoldable pub join_chunks : List Text → Text
join_chunks chunks = strip (join newline (keep (λ chunk. not (chunk == [])) chunks))

-- `(stdout + ("\n" if stdout and not stdout.endswith("\n") else "") + stderr).strip()`
unfoldable pub merged : Text → Text → Text
merged [] stderr = strip stderr
merged (c ∷ stdout) stderr =
    strip ((c ∷ stdout) ++ ((if ends_with_newline (c ∷ stdout) then [] else newline) ++ stderr))

-- The two outputs, with stderr discarded or merged into stdout.
unfoldable pub outputs : Bool → Bool → Text → Text → Text × Text
unfolding merged
outputs true merge_stderr stdout stderr = (stdout, [])
outputs false false stdout stderr = (stdout, stderr)
outputs false true stdout [] = (stdout, [])
outputs false true stdout (c ∷ stderr) = (merged stdout (c ∷ stderr), [])

unfoldable pub fallback_argv : Option Text → List Text
fallback_argv none = []
fallback_argv (some fallback) = fallback ∷ []

module _ (ext : Externals) where
  -- The loop over the pipeline: it ends at the first command that fails, and the output of each
  -- command is the input of the next one.
  unfoldable pub run_pipeline : List (List Text) → Text → VirtualCommandResult → World → Outcome
  run_pipeline [] input_text last_result w = ok (last_result, w)
  run_pipeline (argv ∷ pipeline) input_text last_result w = elim (exec_argv ext argv input_text w) [
    | raise e ↦ raise e
    | ok (result, w') ↦ elim (result.exit_code == 0) [
      | true ↦ run_pipeline pipeline result.stdout result w'
      | false ↦ ok (result, w')
    ]
  ]

  -- The report on a pipeline that failed with this result.
  unfoldable pub report_failure : Parsed → VirtualCommandResult → World → Outcome
  unfolding outputs join_chunks fallback_argv
  report_failure p result w =
      let (stdout, stderr) =
        outputs p.discard_stderr p.stages.merge_stderr result.stdout result.stderr in
      elim p.ignore_error [
        | true ↦ ok (
          record {
            stdout = stdout;
            stderr = stderr;
            exit_code = 0;
            artifacts =
                put (text "or_fallback") (texts (fallback_argv p.or_fallback))
                  (put (text "ignored_error") (flag true) result.artifacts);
          },
          w,
        )
        | false ↦ elim p.or_fallback [
          | none ↦ ok (record result { stdout = stdout; stderr = stderr }, w)
          | some fallback ↦ do
            (second, w) ← exec_argv ext (fallback ∷ []) [] w
            ok (
              record {
                stdout = join_chunks (stdout ∷ second.stdout ∷ []);
                stderr =
                    join_chunks (stderr ∷ (if p.discard_stderr then [] else second.stderr) ∷ []);
                exit_code = second.exit_code;
                artifacts =
                    put (text "fallback_exit_code") (number (pos second.exit_code))
                      (put (text "or_fallback") (texts (fallback ∷ [])) result.artifacts);
              },
              w,
            )
        ]
      ]

  -- The end of a pipeline whose commands all succeeded, the last one with this result.
  unfoldable pub report_success : Parsed → VirtualCommandResult → World → Outcome
  unfolding outputs
  report_success p result w =
      let (stdout, stderr) =
        outputs p.discard_stderr p.stages.merge_stderr result.stdout result.stderr in
      elim p.stages.redirect [
        | none ↦ ok (record result { stdout = stdout; stderr = stderr }, w)
        | some redirect ↦ do
          (written, w) ← apply_redirect ext redirect stdout w
          elim (written.exit_code == 0) [
            | true ↦ succeed [] [] w
            | false ↦ ok (record written { stdout = [] }, w)
          ]
      ]

  abbrev pub no_result : VirtualCommandResult
  no_result = record { stdout = []; stderr = []; exit_code = 0; artifacts = [] }

  -- `run_single_command`
  unfoldable pub run_single_command : Text → World → Outcome
  unfolding run_pipeline report_failure report_success
  run_single_command cmd w =
      elim (parse_pipeline_and_redirect_detailed ext.lexer ext.shlex_split ext.str_split cmd) [
        | parse_error detail ↦ fail_with 2 (render detail) [] w
        | no_tokens ↦ ok (no_result, w)
        | parsed p ↦ elim (run_pipeline p.stages.pipeline p.stdin_text no_result w) [
          | raise e ↦ raise e
          | ok (result, w') ↦ elim (result.exit_code == 0) [
            | true ↦ report_success p result w'
            | false ↦ report_failure p result w'
          ]
        ]
      ]

-- What the loop of `run_command_chain` has collected.
pub record Chunks : Type 0 where
  pub stdout_chunks : List Text
  pub stderr_chunks : List Text
  pub chain_artifacts : Artifacts
  pub last_exit : ℕ

abbrev pub no_chunks : Chunks
no_chunks = record { stdout_chunks = []; stderr_chunks = []; chain_artifacts = []; last_exit = 0 }

abbrev pub is_if_ok : ChainOp → Bool
is_if_ok always = false
is_if_ok if_ok = true

-- Whether the loop passes over a piece.
unfoldable pub is_passed : Piece → Chunks → Bool
is_passed piece chunks = is_if_ok piece.op && not (chunks.last_exit == 0)

-- One result goes to the chunks.
unfoldable pub collect : VirtualCommandResult → Chunks → Chunks
unfolding update
collect result chunks = record {
  stdout_chunks = chunks.stdout_chunks ++ result.stdout ∷ [];
  stderr_chunks = chunks.stderr_chunks ++ result.stderr ∷ [];
  chain_artifacts = update chunks.chain_artifacts result.artifacts;
  last_exit = result.exit_code;
}

-- The loop of `run_command_chain`, over what runs one command.
unfoldable pub run_pieces :
    (Text → World → Outcome) → List Piece → Chunks → World → Result (Chunks × World)
unfolding is_passed collect
run_pieces single [] chunks w = ok (chunks, w)
run_pieces single (piece ∷ pieces) chunks w = elim (is_passed piece chunks) [
  | true ↦ run_pieces single pieces chunks w
  | false ↦ elim (single piece.cmd w) [
    | raise e ↦ raise e
    | ok (result, w') ↦ run_pieces single pieces (collect result chunks) w'
  ]
]

-- `run_command_chain`
unfoldable pub run_command_chain : Externals → Text → World → Outcome
unfolding run_pieces join_chunks
run_command_chain ext raw_cmd w = do
  (chunks, w) ← run_pieces (run_single_command ext) (split_chain raw_cmd) no_chunks w
  ok (
    record {
      stdout = join_chunks chunks.stdout_chunks;
      stderr = join_chunks chunks.stderr_chunks;
      exit_code = chunks.last_exit;
      artifacts = chunks.chain_artifacts;
    },
    w,
  )

-- ===== src/Runtime/Silence.antt =====
-- The loop of `find -exec` (`_run_find_exec` of `runtime/search.py`).
use iruka_virtual_file_syste.Prelude.{
  true, false, contains, Distinct, sym, List, [], ◌∷◌, ◌++◌, keep, not, nat_eq, list_eq, ◌==◌, ◌≡◌,
  refl, ap, ◌∙◌, append_assoc, append-nil, list_beq,
}
use iruka_virtual_file_syste.Text.{Text, join}
use iruka_virtual_file_syste.Text.Lines.{splitlines}
use iruka_virtual_file_syste.Result.{ok}
use iruka_virtual_file_syste.Runtime.World.{
  World, VirtualCommandResult, Outcome, Artifacts, succeed,
}
use iruka_virtual_file_syste.Runtime.Texts.{newline}
use iruka_virtual_file_syste.Runtime.Find.{run_on, round_of, fill_in, is_search, lines, stop}
use iruka_virtual_file_syste.Runtime.Unseen.{first_times, add_unseen_lem}

round_silent :
    (argv : List Text) (result : VirtualCommandResult)
    → result.exit_code ≡ 0
    → result.stdout ≡ []
    → round_of argv result ≡ stop
unfolding round_of list_beq
round_silent argv result good silent = rw (round_of, good, silent) refl

round_full :
    (argv : List Text) (result : VirtualCommandResult)
    → result.exit_code ≡ 0
    → (result.stdout == []) ≡ false
    → round_of argv result ≡ lines (keep (λ line. not (line == [])) (splitlines result.stdout))
unfolding round_of
round_full argv result good full = rw (round_of, good, full) refl

round_missed :
    (argv : List Text) (result : VirtualCommandResult)
    → result.exit_code ≡ 1
    → is_search argv ≡ true
    → round_of argv result ≡ lines []
unfolding round_of
round_missed argv result missed search = rw (round_of, missed, search) refl

module _ (exec_argv : List Text → Text → World → Outcome) (exec_tokens : List Text)
    (artifacts : Artifacts) where
  -- The commands for the paths let the loop go on, and this is what they print: each succeeds with
  -- output, or is a search that has no match.
  pub data Printed : List Text → World → List Text → World → Type 0 where
    done : (w : World) → Printed [] w [] w
    step :
        (path : Text) (paths printed : List Text) (w w' last : World)
        (result : VirtualCommandResult)
        → exec_argv (fill_in path exec_tokens) [] w ≡ ok (result, w')
        → result.exit_code ≡ 0
        → (result.stdout == []) ≡ false
        → Printed paths w' printed last
        → Printed
            (path ∷ paths)
            w
            (keep (λ line. not (line == [])) (splitlines result.stdout) ++ printed)
            last
    no_match :
        (path : Text) (paths printed : List Text) (w w' last : World)
        (result : VirtualCommandResult)
        → exec_argv (fill_in path exec_tokens) [] w ≡ ok (result, w')
        → result.exit_code ≡ 1
        → is_search (fill_in path exec_tokens) ≡ true
        → Printed paths w' printed last
        → Printed (path ∷ paths) w printed last

  -- The loop goes through such paths and then on.
  run_on-append :
      (before paths more printed : List Text) (w last : World)
      → Printed paths w printed last
      → run_on exec_argv exec_tokens artifacts before (paths ++ more) w
        ≡ run_on exec_argv exec_tokens artifacts (before ++ printed) more last
  unfolding run_on
  run_on-append before paths more printed w last (done u) = rw append-nil refl
  run_on-append before paths more printed w last
        (step path rest rest_printed u u' end result ran good full p) =
      let own = keep (λ line. not (line == [])) (splitlines result.stdout) in
      rw (run_on, ran, round_full (fill_in path exec_tokens) result good full)
        (run_on-append (before ++ own) rest more rest_printed u' end p
          ∙ ap (λ ls. run_on exec_argv exec_tokens artifacts ls more end)
              (append_assoc before own rest_printed))
  run_on-append before paths more printed w last
        (no_match path rest rest_printed u u' end result ran missed search p) =
      rw (run_on, ran, round_missed (fill_in path exec_tokens) result missed search)
        (ap (λ ls. run_on exec_argv exec_tokens artifacts ls (rest ++ more) u') (append-nil before)
          ∙ run_on-append before rest more rest_printed u' end p)

  -- Where every command succeeds with output or is a search without a match, the loop visits all
  -- paths and succeeds, and the lines that it prints are those before it and those of the commands
  -- that are not empty, none of them twice, in the order of their first time.
  pub run_on_prints :
      (before paths printed : List Text) (w last : World)
      → Printed paths w printed last
      → (out : List Text) × (run_on exec_argv exec_tokens artifacts before paths w
          ≡ succeed (join newline out) artifacts last)
        × (out ≡ first_times (before ++ printed))
        × Distinct out
        × ((line : Text) → contains line out ≡ contains line (before ++ printed))
  unfolding run_on
  run_on_prints before paths printed w last p =
      let (unseen, distinct, same) = add_unseen_lem (before ++ printed) in
      (
        first_times (before ++ printed),
        ap (λ ps. run_on exec_argv exec_tokens artifacts before ps w) (sym (append-nil paths))
            ∙ run_on-append before paths [] printed w last p
            ∙ ap (λ ls. succeed (join newline ls) artifacts last) unseen,
        refl,
        distinct,
        same,
      )

  -- Where the commands for some paths succeed with output or are searches without a match and the
  -- next one succeeds without output, the loop ends there with exit code 0 and an empty output,
  -- whatever was printed: the output so far is lost, and the rest of the paths is not visited.
  pub run_on_silent :
      (before paths printed rest : List Text) (path : Text) (w last w' : World)
      (result : VirtualCommandResult)
      → Printed paths w printed last
      → exec_argv (fill_in path exec_tokens) [] last ≡ ok (result, w')
      → result.exit_code ≡ 0
      → result.stdout ≡ []
      → run_on exec_argv exec_tokens artifacts before (paths ++ path ∷ rest) w
        ≡ ok (
          record { stdout = []; stderr = result.stderr; exit_code = 0; artifacts = artifacts },
          w',
        )
  unfolding run_on
  run_on_silent before paths printed rest path w last w' result p ran good silent =
      run_on-append before paths (path ∷ rest) printed w last p
      ∙ rw (run_on, ran, round_silent (fill_in path exec_tokens) result good silent)
          (rw (good, silent) refl)

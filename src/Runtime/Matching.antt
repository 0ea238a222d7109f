-- ===== src/Runtime/Matching.antt =====
-- `rg` and `grep` of `runtime/executor.py`.
use iruka_virtual_file_syste.Prelude.{
  ℕ, suc, ◌+◌, Bool, true, false, not, ◌&&◌, ◌||◌, none, some, List, [], ◌∷◌, ◌++◌, pos, keep, map,
  contains, length, nat_eq, list_eq, ◌==◌, if◌then◌else◌,
}
use iruka_virtual_file_syste.Text.{Text, text, join}
use iruka_virtual_file_syste.Text.Number.{show_nat}
use iruka_virtual_file_syste.Result.{Result, ok, raise, ◌>>=◌}
use iruka_virtual_file_syste.Sorting.{sort_by, text_leb}
use iruka_virtual_file_syste.Model.{Node, is_dir}
use iruka_virtual_file_syste.Runtime.World.{
  World, Externals, Artifacts, text_value, number, texts, Outcome, succeed, fail,
}
use iruka_virtual_file_syste.Runtime.Search.{
  search_text_lines, search_nodes, search_match_counts, search_matching_file_paths,
}
use iruka_virtual_file_syste.Runtime.Targets.{resolve, format_missing_path_error}
use iruka_virtual_file_syste.Runtime.Texts.{newline, is_option}
use iruka_virtual_file_syste.Runtime.Find.{add_unseen}
use iruka_virtual_file_syste.Runtime.Listing.{first_sorted}

-- One option of `_expand_short_flags`.
unfoldable pub expand_flag : Text → List Text
expand_flag [] = [] ∷ []
expand_flag (c ∷ []) = (c ∷ []) ∷ []
expand_flag (c ∷ d ∷ []) = (c ∷ d ∷ []) ∷ []
expand_flag (c ∷ d ∷ e ∷ s) =
    if c == b'-' && not (d == b'-')
    then map (λ part. b'-' ∷ part ∷ []) (d ∷ e ∷ s)
    else (c ∷ d ∷ e ∷ s) ∷ []

-- `_expand_short_flags`
unfoldable pub expand_short_flags : List Text → List Text
unfolding expand_flag
expand_short_flags [] = []
expand_short_flags (flag ∷ flags) = expand_flag flag ++ expand_short_flags flags

-- `_format_count_outputs`
unfoldable pub format_count_outputs : Bool → List (Text × ℕ) → List Text
format_count_outputs single_target [] = []
format_count_outputs single_target ((path, count) ∷ []) =
    if single_target then show_nat count ∷ [] else (path ++ (text ":" ++ show_nat count)) ∷ []
format_count_outputs single_target ((path, count) ∷ c ∷ counts) =
    (path ++ (text ":" ++ show_nat count)) ∷ format_count_outputs false (c ∷ counts)

unfoldable pub sum_counts : List (Text × ℕ) → ℕ
sum_counts [] = 0
sum_counts ((path, count) ∷ counts) = count + sum_counts counts

-- `_format_search_unsupported_option`
unfoldable pub format_search_unsupported_option : Text → Text → Text
format_search_unsupported_option command option =
    command
    ++ (text ": unsupported option: "
        ++ (option
            ++ (text ". Supported options: "
                ++ ((if command == text "rg" then text "-l, -c, -n" else text "-l, -c, -v, -n")
                    ++ (text ". Try: "
                        ++ (command
                            ++ (text " -l PATTERN /workspace to locate files or "
                                ++ (command ++ text " -c PATTERN <paths> to count matches."))))))))

-- `[f"{index}:{line}" for index, line in enumerate(matched, start)]`
unfoldable pub numbered : ℕ → List Text → List Text
numbered index [] = []
numbered index (line ∷ lines) = (show_nat index ++ (text ":" ++ line)) ∷ numbered (suc index) lines

-- The options and operands of `rg` and `grep`.
pub record SearchArgs : Type 0 where
  pub command : Text
  pub flags : List Text
  pub pattern : Text
  pub targets : List Text

abbrev pub has_flag : SearchArgs → Text → Bool
has_flag a option = contains option a.flags

module _ (ext : Externals) (a : SearchArgs) where
  abbrev stdin_artifacts : ℕ → Artifacts
  stdin_artifacts match_count =
      (text "match_count", number (pos match_count))
      ∷ (text "source", text_value (text "stdin"))
      ∷ (text "flags", texts (sort_by text_leb a.flags))
      ∷ []

  -- The report on the lines of the input that match.
  unfoldable pub stdin_matches : List Text → World → Outcome
  unfolding numbered
  stdin_matches [] w =
      if has_flag a (text "-c")
      then ok (
        record { stdout = show_nat 0; stderr = []; exit_code = 1; artifacts = stdin_artifacts 0 },
        w,
      )
      else fail [] (stdin_artifacts 0) w
  stdin_matches (m ∷ matched) w =
      if has_flag a (text "-c")
      then succeed (show_nat (length (m ∷ matched))) (stdin_artifacts (length (m ∷ matched))) w
      else if has_flag a (text "-l")
      then succeed (text "stdin") (stdin_artifacts 1) w
      else succeed
          (join newline (if has_flag a (text "-n") then numbered 1 (m ∷ matched) else m ∷ matched))
          (stdin_artifacts (length (m ∷ matched))) w

  -- The outputs of one target and the number of its matches.
  unfoldable pub target_matches : Node → World → Result (List Text × ℕ)
  unfolding format_count_outputs sum_counts
  target_matches node w =
      let invert_match = has_flag a (text "-v") in
      elim (has_flag a (text "-l")) [
        | true ↦ do
          matches ← search_matching_file_paths ext w.mirror a.pattern invert_match node
          ok (matches, length matches)
        | false ↦ elim (has_flag a (text "-c")) [
          | true ↦ do
            counts ← search_match_counts ext w.mirror a.pattern invert_match node
            ok (
              format_count_outputs (length a.targets == 1 && not (is_dir node.node_type)) counts,
              sum_counts counts,
            )
          | false ↦ do
            matches ← search_nodes ext w.mirror a.pattern invert_match node
            ok (matches, length matches)
        ]
      ]

  -- The report after all targets.
  unfoldable pub search_done : List Text → ℕ → World → Outcome
  search_done [] match_count w = fail [] ((text "match_count", number (pos 0)) ∷ []) w
  search_done (o ∷ outputs) match_count w =
      succeed (join newline (o ∷ outputs))
        ((text "match_count", number (pos match_count))
          ∷ (text "pattern", text_value a.pattern)
          ∷ (text "flags", texts (sort_by text_leb a.flags))
          ∷ (text "targets", texts a.targets)
          ∷ [])
        w

  -- The loop over the targets.
  unfoldable pub search_targets : List Text → ℕ → List Text → World → Outcome
  unfolding target_matches search_done add_unseen
  search_targets outputs match_count [] w = search_done outputs match_count w
  search_targets outputs match_count (target ∷ targets) w = elim (resolve w target) [
    | raise e ↦ raise e
    | ok none ↦ do
      message ← format_missing_path_error ext w a.command target true
      fail message [] w
    | ok (some node) ↦ elim (target_matches node w) [
      | raise e ↦ raise e
      | ok (matches, n) ↦ search_targets (add_unseen outputs matches) (match_count + n) targets w
    ]
  ]

  unfoldable pub search_input : Text → World → Outcome
  unfolding stdin_matches search_targets
  search_input input_text w = elim a.targets [
    | [] ↦ stdin_matches (search_text_lines ext input_text a.pattern (has_flag a (text "-v"))) w
    | t ∷ ts ↦ search_targets [] 0 (t ∷ ts) w
  ]

unfoldable pub is_search_option : Text → Text → Bool
is_search_option command option =
    option == text "-l"
    || option == text "-c"
    || option == text "-n"
    || (command == text "grep" && option == text "-v")

-- `rg` and `grep` of `exec_argv`, with the name of the command
unfoldable pub exec_search : Externals → Text → List Text → Text → World → Outcome
unfolding is_option expand_short_flags is_search_option first_sorted search_input
    format_search_unsupported_option
exec_search ext command args input_text w =
    let flags = expand_short_flags (keep is_option args) in
    elim (first_sorted (keep (λ option. not (is_search_option command option)) flags)) [
      | some option ↦ fail (format_search_unsupported_option command option) [] w
      | none ↦ elim (contains (text "-l") flags && contains (text "-c") flags) [
        | true ↦ fail (command ++ text ": use either -l or -c, not both") [] w
        | false ↦ elim (keep (λ arg. not (is_option arg)) args) [
          | [] ↦ fail (command ++ text ": missing pattern") [] w
          | pattern ∷ targets ↦
              search_input ext
                (record { command = command; flags = flags; pattern = pattern; targets = targets })
                input_text w
        ]
      ]
    ]

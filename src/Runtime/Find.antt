-- ===== src/Runtime/Find.antt =====
-- `exec_find` of `runtime/search.py`. The executor that `-exec` calls is a parameter.
use iruka_virtual_file_syste.Prelude.{
  ℕ, Bool, true, false, not, ◌&&◌, ◌||◌, Option, none, some, List, [], ◌∷◌, ◌++◌, pos, keep, map,
  contains, length, nat_eq, list_eq, ◌==◌, if◌then◌else◌,
}
use iruka_virtual_file_syste.Text.{Text, text, join}
use iruka_virtual_file_syste.Text.Lines.{splitlines}
use iruka_virtual_file_syste.Result.{Result, ok, raise, ◌>>=◌}
use iruka_virtual_file_syste.Sorting.{sort_by, text_leb}
use iruka_virtual_file_syste.Model.{NodeType, dir, file, Node, WorkspaceMirror}
use iruka_virtual_file_syste.Paths.Resolve.{node_path}
use iruka_virtual_file_syste.Runtime.World.{
  World, Externals, Artifacts, null, text_value, number, texts, VirtualCommandResult, Outcome,
  succeed, fail,
}
use iruka_virtual_file_syste.Runtime.Search.{find_paths}
use iruka_virtual_file_syste.Runtime.Targets.{resolve, format_missing_path_error}
use iruka_virtual_file_syste.Runtime.Texts.{newline, is_option}

-- What the loop over the arguments has read.
pub record FindArgs : Type 0 where
  pub positional : List Text
  pub name_patterns : List Text
  pub type_filter : Option NodeType
  pub exec_tokens : Option (List Text)

abbrev pub no_find_args : FindArgs
no_find_args = record {
  positional = [];
  name_patterns = [];
  type_filter = none;
  exec_tokens = none;
}

pub data FindRead : Type 0 where
  find_args : FindArgs → FindRead
  find_error : Text → FindRead

-- The value of `-type`.
unfoldable pub type_of : Text → Option NodeType
type_of raw_type =
    if raw_type == text "f" then some file else if raw_type == text "d" then some dir else none

-- The tokens that are read as they come: brackets and `-o` are skipped.
unfoldable pub is_skipped : Text → Bool
is_skipped token = token == text "(" || token == text ")" || token == text "-o"

-- Where the loop is: between two options, after `-name`, after `-type`, or in `-exec` with the
-- tokens so far.
pub data FindState : Type 0 where
  between after_name after_type : FindState
  in_exec : List Text → FindState

-- The end of the arguments.
unfoldable pub end_of_args : FindState → FindArgs → FindRead
end_of_args between a = find_args a
end_of_args after_name a = find_error (text "find: missing pattern after -name")
end_of_args after_type a = find_error (text "find: missing type after -type")
end_of_args (in_exec tokens) a = find_error (
    text "find: missing ';' terminator for -exec. Example: "
    ++ text "find /workspace -type f -exec grep -l TODO {} \\;")

-- The loop of `exec_find` over its arguments.
unfoldable pub read_find_args : FindState → FindArgs → List Text → FindRead
unfolding type_of is_skipped end_of_args is_option
read_find_args state a [] = end_of_args state a
read_find_args after_name a (token ∷ args) =
    read_find_args between (record a { name_patterns = a.name_patterns ++ token ∷ [] }) args
read_find_args after_type a (token ∷ args) = elim (type_of token) [
  | none ↦ find_error (text "find: unsupported -type value: " ++ token)
  | some t ↦ read_find_args between (record a { type_filter = some t }) args
]
read_find_args (in_exec tokens) a (token ∷ args) = elim (token == text ";") [
  | false ↦ read_find_args (in_exec (tokens ++ token ∷ [])) a args
  | true ↦ elim tokens [
    | [] ↦ find_error (text "find: missing command after -exec")
    | t ∷ ts ↦ read_find_args between (record a { exec_tokens = some (t ∷ ts) }) args
  ]
]
read_find_args between a (token ∷ args) = elim (token == text "-name") [
  | true ↦ read_find_args after_name a args
  | false ↦ elim (token == text "-type") [
    | true ↦ read_find_args after_type a args
    | false ↦ elim (token == text "-exec") [
      | true ↦ elim a.exec_tokens [
        | some tokens ↦ find_error (text "find: only a single -exec clause is supported")
        | none ↦ read_find_args (in_exec []) a args
      ]
      | false ↦ elim (is_skipped token) [
        | true ↦ read_find_args between a args
        | false ↦ elim (is_option token) [
          | true ↦ find_error (text "find: unsupported option: " ++ token)
          | false ↦
              read_find_args between (record a { positional = a.positional ++ token ∷ [] }) args
        ]
      ]
    ]
  ]
]

-- The items of the second list that the first one lacks, each once, after the first one.
unfoldable pub add_unseen : List Text → List Text → List Text
add_unseen seen [] = seen
add_unseen seen (item ∷ items) =
    add_unseen (if contains item seen then seen else seen ++ item ∷ []) items

-- The loop over the patterns.
unfoldable pub named_paths :
    Externals
    → WorkspaceMirror
    → Node
    → Option NodeType
    → List Text
    → List Text
    → Result (List Text)
unfolding add_unseen
named_paths ext m node type_filter candidates [] = ok candidates
named_paths ext m node type_filter candidates (pattern ∷ patterns) =
    elim (find_paths ext m node (some pattern) type_filter) [
      | raise e ↦ raise e
      | ok found ↦ named_paths ext m node type_filter (add_unseen candidates found) patterns
    ]

-- `_resolve_find_matches`
unfoldable pub resolve_find_matches :
    Externals → WorkspaceMirror → Node → List Text → Option NodeType → Result (List Text)
unfolding named_paths
resolve_find_matches ext m node [] type_filter = find_paths ext m node none type_filter
resolve_find_matches ext m node (p ∷ ps) type_filter =
    named_paths ext m node type_filter [] (p ∷ ps) >>= λ candidates.
    ok (sort_by text_leb candidates)

-- The artifacts of a search.
unfoldable pub find_artifacts : Text → ℕ → FindArgs → Artifacts
find_artifacts path match_count a =
    (text "path", text_value path)
    ∷ (text "match_count", number (pos match_count))
    ∷ (text "name_patterns", texts a.name_patterns)
    ∷ (
      text "type_filter",
      elim a.type_filter [
        | none ↦ null
        | some dir ↦ text_value (text "dir")
        | some file ↦ text_value (text "file")
      ],
    )
    ∷ []

-- How one round of the loop of `_run_find_exec` goes on: with lines, without, or not at all.
pub data Round : Type 0 where
  lines : List Text → Round
  stop : Round

unfoldable pub is_search : List Text → Bool
is_search [] = false
is_search (name ∷ args) = name == text "grep" || name == text "rg"

unfoldable pub round_of : List Text → VirtualCommandResult → Round
unfolding is_search
round_of argv result =
    if result.exit_code == 0 && not (result.stdout == [])
    then lines (keep (λ line. not (line == [])) (splitlines result.stdout))
    else if result.exit_code == 1 && is_search argv
    then lines []
    else stop

-- The command for one path.
unfoldable pub fill_in : Text → List Text → List Text
fill_in path = map (λ token. if token == text "{}" then path else token)

-- The executor with the command that it runs, which has no input.
module _ (exec_argv : List Text → Text → World → Outcome) (exec_tokens : List Text) where
  -- The loop of `_run_find_exec`; the artifacts of the commands are not kept.
  unfoldable pub run_on : Artifacts → List Text → List Text → World → Outcome
  unfolding round_of fill_in add_unseen
  run_on artifacts stdout_lines [] w =
      succeed (join newline (add_unseen [] stdout_lines)) artifacts w
  run_on artifacts stdout_lines (path ∷ paths) w =
      elim (exec_argv (fill_in path exec_tokens) [] w) [
        | raise e ↦ raise e
        | ok (result, w') ↦ elim (round_of (fill_in path exec_tokens) result) [
          | lines more ↦ run_on artifacts (stdout_lines ++ more) paths w'
          | stop ↦ ok (record result { artifacts = artifacts }, w')
        ]
      ]

  -- `_run_find_exec`
  unfoldable pub run_find_exec : Artifacts → List Text → World → Outcome
  unfolding run_on
  run_find_exec artifacts matches w =
      if contains (text "{}") exec_tokens
      then run_on (artifacts ++ (text "exec", texts exec_tokens) ∷ []) [] matches w
      else fail (text "find: -exec command must include {}") [] w

module _ (ext : Externals) (exec_argv : List Text → Text → World → Outcome) where
  -- The end of `exec_find`, with the matches.
  unfoldable pub find_done : FindArgs → Text → List Text → World → Outcome
  unfolding run_find_exec find_artifacts
  find_done a path matches w = elim a.exec_tokens [
    | some tokens ↦
        run_find_exec exec_argv tokens (find_artifacts path (length matches) a) matches w
    | none ↦ elim matches [
      | [] ↦ fail [] (find_artifacts path 0 a) w
      | m ∷ ms ↦ succeed (join newline (m ∷ ms)) (find_artifacts path (length (m ∷ ms)) a) w
    ]
  ]

  -- The search below a target.
  unfoldable pub find_below : FindArgs → Text → World → Outcome
  unfolding resolve_find_matches find_done
  find_below a target w = elim (resolve w target) [
    | raise e ↦ raise e
    | ok none ↦ do
      message ← format_missing_path_error ext w (text "find") target true
      fail message [] w
    | ok (some node) ↦ do
      matches ← resolve_find_matches ext w.mirror node a.name_patterns a.type_filter
      path ← node_path w.mirror node
      find_done a path matches w
  ]

  -- The search with its root, of which there is one at most.
  unfoldable pub find_from : FindArgs → List Text → World → Outcome
  unfolding find_below
  find_from a [] w = find_below a (text ".") w
  find_from a (target ∷ []) w = find_below a target w
  find_from a (p ∷ q ∷ rest) w = fail (text "find: only a single search root is supported") [] w

  unfoldable pub exec_find : List Text → World → Outcome
  unfolding read_find_args find_from
  exec_find args w = elim (read_find_args between no_find_args args) [
    | find_error message ↦ fail message [] w
    | find_args a ↦ find_from a a.positional w
  ]

-- ===== src/Runtime/Edits.antt =====
-- `exec_edit` and `exec_patch` of `runtime/editing.py`, and `write_file` of `runtime/filesystem.py`.
use iruka_virtual_file_syste.Prelude.{
  ℕ, suc, Bool, true, false, Option, none, some, List, [], ◌∷◌, ◌++◌, pos, contains, nat_eq,
  list_eq, ◌==◌, if◌then◌else◌,
}
use iruka_virtual_file_syste.Text.{Text, text}
use iruka_virtual_file_syste.Text.Number.{show_nat}
use iruka_virtual_file_syste.Text.Search.{occurs_in, replace_first, replace_all, count_all}
use iruka_virtual_file_syste.Dict.{get}
use iruka_virtual_file_syste.Result.{Result, ok, raise, ◌>>=◌}
use iruka_virtual_file_syste.Model.{Node}
use iruka_virtual_file_syste.Mirror.Mutate.{mutate_write_file}
use iruka_virtual_file_syste.Command.Options.{Options, parse_options}
use iruka_virtual_file_syste.Editing.Patch.{apply_unified_patch}
use iruka_virtual_file_syste.Paths.Resolve.{node_path}
use iruka_virtual_file_syste.Paths.Normalize.{allow_write_path}
use iruka_virtual_file_syste.Runtime.World.{
  World, Externals, text_value, number, conflicts, Outcome, succeed, fail, mutate_workspace_mirror,
  get_node_content,
}
use iruka_virtual_file_syste.Runtime.Targets.{resolve, format_missing_path_error}
use iruka_virtual_file_syste.Runtime.Files.{file_only}

-- `write_file`
unfoldable pub write_file : Node → Text → World → Result (ℕ × World)
write_file node content = mutate_workspace_mirror (mutate_write_file node content)

-- `next_ephemeral_patch_id`
unfoldable pub next_ephemeral_patch_id : World → ℕ × World
next_ephemeral_patch_id w =
    (suc w.ephemeral_patch_id, record w { ephemeral_patch_id = suc w.ephemeral_patch_id })

-- A file that may be written, for `edit` and `patch`.
unfoldable pub with_editable : Externals → Text → Text → World → (Node → Text → Outcome) → Outcome
with_editable ext command path w continue = elim (resolve w path) [
  | raise e ↦ raise e
  | ok found ↦ elim (file_only found) [
    | none ↦ do message ← format_missing_path_error ext w command path false; fail message [] w
    | some node ↦ elim (node_path w.mirror node) [
      | raise e ↦ raise e
      | ok target ↦ elim (allow_write_path target) [
        | some reason ↦
            fail (command ++ (text ": " ++ reason)) ((text "path", text_value target) ∷ []) w
        | none ↦ continue node target
      ]
    ]
  ]
]

-- `edit` without `--find` and `--replace`.
unfoldable pub edit_rewrite : Node → Text → Text → World → Outcome
edit_rewrite node target [] w =
    fail
      (text
          "edit: require --find and --replace, or provide heredoc input for a full rewrite. Example: "
        ++ text "edit /workspace/file.txt --find old --replace new")
      [] w
edit_rewrite node target (c ∷ input_text) w = do
  (version_no, w) ← write_file node (c ∷ input_text) w
  succeed (text "rewrote " ++ (target ++ (text " from heredoc -> version " ++ show_nat version_no)))
      ((text "path", text_value target)
        ∷ (text "version", number (pos version_no))
        ∷ (text "rewrite_mode", text_value (text "heredoc"))
        ∷ [])
      w

-- The content after an edit and the number of replacements.
unfoldable pub edited : Bool → Text → Text → Text → Text × ℕ
edited true find_text replace_text before =
    (replace_all find_text replace_text before, count_all find_text before)
edited false find_text replace_text before = (replace_first find_text replace_text before, 1)

-- `edit` with `--find` and `--replace`.
unfoldable pub edit_found : Bool → Text → Text → Node → Text → World → Outcome
unfolding edited
edit_found every find_text replace_text node target w =
    let before = get_node_content w.mirror node in
    elim (occurs_in find_text before) [
      | false ↦ fail (text "edit: target text not found") ((text "path", text_value target) ∷ []) w
      | true ↦ do
        let (after, count) = edited every find_text replace_text before
        (version_no, w) ← write_file node after w
        succeed
            (text "edited "
              ++ (show_nat count
                  ++ (text " occurrence(s) in "
                      ++ (target ++ (text " -> version " ++ show_nat version_no)))))
            ((text "path", text_value target)
              ∷ (text "version", number (pos version_no))
              ∷ (text "replacements", number (pos count))
              ∷ [])
            w
    ]

-- What `edit` does to the file, by the options that are there.
unfoldable pub edit_by : Bool → Option Text → Option Text → Text → Node → Text → World → Outcome
unfolding edit_rewrite edit_found
edit_by every (some find_text) (some replace_text) input_text node target w =
    edit_found every find_text replace_text node target w
edit_by every (some find_text) none input_text node target w = edit_rewrite node target input_text w
edit_by every none replace_text input_text node target w = edit_rewrite node target input_text w

unfoldable pub exec_edit : Externals → List Text → Text → World → Outcome
unfolding with_editable edit_by
exec_edit ext [] input_text w = fail (text "edit: missing path") [] w
exec_edit ext (path ∷ args) input_text w =
    let opts = parse_options args in
    with_editable ext (text "edit") path w λ node target.
      edit_by (contains (text "--all") opts.flags) (get (text "--find") opts.values)
        (get (text "--replace") opts.values) input_text node target w

unfoldable pub patch_done : ℕ → Text → ℕ → World → Outcome
patch_done patch_id target version_no =
    succeed (text "patch applied to " ++ (target ++ (text " -> version " ++ show_nat version_no))) (
      (text "patch_id", number (pos patch_id))
      ∷ (text "path", text_value target)
      ∷ (text "version", number (pos version_no))
      ∷ [])

-- `patch` with a diff.
unfoldable pub patch_unified : Externals → Text → Node → Text → World → Outcome
unfolding next_ephemeral_patch_id patch_done
patch_unified ext unified node target w =
    elim (apply_unified_patch (get_node_content w.mirror node) unified) [
      | raise e ↦ raise e
      | ok (after, []) ↦ do
        let (patch_id, w) = next_ephemeral_patch_id w
        (version_no, w) ← write_file node after w
        patch_done patch_id target version_no w
      | ok (after, c ∷ cs) ↦
          let (patch_id, w) = next_ephemeral_patch_id w in
          fail (text "patch: rejected hunks: " ++ ext.dumps (c ∷ cs))
            ((text "patch_id", number (pos patch_id)) ∷ (text "conflicts", conflicts (c ∷ cs)) ∷ [])
            w
    ]

-- `patch` with `--find` and `--replace`.
unfoldable pub patch_found : Text → Text → Node → Text → World → Outcome
unfolding next_ephemeral_patch_id patch_done
patch_found find_text replace_text node target w =
    let before = get_node_content w.mirror node in
    elim (occurs_in find_text before) [
      | false ↦ fail (text "patch: target text not found") [] w
      | true ↦ do
        let (patch_id, w) = next_ephemeral_patch_id w
        (version_no, w) ← write_file node (replace_first find_text replace_text before) w
        patch_done patch_id target version_no w
    ]

unfoldable pub patch_usage : World → Outcome
patch_usage =
    fail
      (text "patch: require either --unified, heredoc diff input, or (--find and --replace). "
        ++ (text "Examples: patch --path /workspace/file.txt --unified '@@ -1,1 +1,1 @@ ...' "
            ++ text "or patch --path /workspace/file.txt --find old --replace new"))
      []

-- `patch` without a diff.
unfoldable pub patch_by : Option Text → Option Text → Node → Text → World → Outcome
unfolding patch_found patch_usage
patch_by (some find_text) (some replace_text) node target w =
    patch_found find_text replace_text node target w
patch_by (some find_text) none node target w = patch_usage w
patch_by none replace_text node target w = patch_usage w

-- `opts.get("--unified") or (input_text if input_text else None)`
unfoldable pub unified_of : Option Text → Text → Option Text
unified_of (some (c ∷ s)) input_text = some (c ∷ s)
unified_of (some []) [] = none
unified_of (some []) (d ∷ t) = some (d ∷ t)
unified_of none [] = none
unified_of none (d ∷ t) = some (d ∷ t)

-- The arguments without a leading `apply`.
unfoldable pub patch_args : List Text → List Text
patch_args [] = []
patch_args (arg ∷ args) = if arg == text "apply" then args else arg ∷ args

-- `patch` once its options are read.
unfoldable pub patch_with : Externals → Options → Text → Text → World → Outcome
unfolding with_editable patch_unified patch_by unified_of
patch_with ext opts path input_text w = with_editable ext (text "patch") path w λ node target.
    elim (unified_of (get (text "--unified") opts.values) input_text) [
      | some unified ↦ patch_unified ext unified node target w
      | none ↦
          patch_by (get (text "--find") opts.values) (get (text "--replace") opts.values) node
            target w
    ]

unfoldable pub exec_patch : Externals → List Text → Text → World → Outcome
unfolding patch_args patch_with
exec_patch ext args input_text w =
    let opts = parse_options (patch_args args) in
    elim (get (text "--path") opts.values) [
      | some (c ∷ path) ↦ patch_with ext opts (c ∷ path) input_text w
      | some [] ↦ no_path w
      | none ↦ no_path w
    ]
  where
    no_path : World → Outcome
    no_path =
        fail
          (text "patch: require --path. Example: "
            ++ text "patch --path /workspace/file.txt --find old --replace new")
          []

-- ===== src/Runtime/Listing.antt =====
-- `ls`, `status` and `tree` of `runtime/executor.py`, with `tree_view.py`.
use iruka_virtual_file_syste.Prelude.{
  ℕ, zero, suc, Bool, true, false, not, ◌||◌, Option, none, some, List, [], ◌∷◌, ◌++◌, ℤ, pos, keep,
  map, length, nat_eq, list_eq, ◌==◌, if◌then◌else◌,
}
use iruka_virtual_file_syste.Text.{Text, text, join}
use iruka_virtual_file_syste.Text.Number.{show_nat}
use iruka_virtual_file_syste.Text.Search.{replace_first}
use iruka_virtual_file_syste.Result.{Result, ok, raise, diverges, ◌>>=◌}
use iruka_virtual_file_syste.Sorting.{sort_by, text_leb}
use iruka_virtual_file_syste.Model.{Node, WorkspaceMirror, is_dir, version_or_one}
use iruka_virtual_file_syste.Guidance.{TaskGuidance}
use iruka_virtual_file_syste.Guidance.Hints.{
  stored_state, task_guidance_from_state, render_task_guidance_status, build_verification_hint,
}
use iruka_virtual_file_syste.Paths.Resolve.{list_children, node_path}
use iruka_virtual_file_syste.Runtime.World.{
  World, Externals, text_value, number, texts, Outcome, succeed, fail, get_or_create_root,
}
use iruka_virtual_file_syste.Runtime.Targets.{resolve, format_missing_path_error}
use iruka_virtual_file_syste.Runtime.Texts.{newline, is_option}
use iruka_virtual_file_syste.Runtime.Find.{add_unseen}

unfoldable pub display_name : Node → Text
display_name node = if is_dir node.node_type then node.name ++ text "/" else node.name

-- `_format_ls_entry`
unfoldable pub format_ls_entry : Externals → Bool → Node → Text
unfolding display_name
format_ls_entry ext false node = display_name node
format_ls_entry ext true node =
    let kind = if is_dir node.node_type then text "dir " else text "file" in
    let size = if is_dir node.node_type then 0 else length node.content_text in
    kind
    ++ (text " size="
        ++ (show_nat size
            ++ (text " version="
                ++ (show_nat (version_or_one node.version_no)
                    ++ (text " mtime=" ++ (ext.mtime node ++ (text " " ++ display_name node)))))))

-- `_format_ls_missing_target`
unfoldable pub format_ls_missing_target : Externals → World → Text → Result Text
format_ls_missing_target ext w target = do
  missing ← format_missing_path_error ext w (text "ls") target true
  ok (
      replace_first (text ": No such file or directory.") (text "': No such file or directory.")
        (replace_first (text "ls: ") (text "ls: cannot access '") missing))

-- `_format_ls_unsupported_option`
unfoldable pub format_ls_unsupported_option : Text → Text
format_ls_unsupported_option option =
    if option == text "-R"
    then text "ls: unsupported option: -R. Try: tree for recursion or find /workspace -name <file>"
    else text "ls: unsupported option: " ++ option

-- `sorted(...)[0]`, if there is one
unfoldable pub first_sorted : List Text → Option Text
first_sorted items = first (sort_by text_leb items)
  where
    first : List Text → Option Text
    first [] = none
    first (x ∷ xs) = some x

unfoldable pub is_long : Text → Bool
is_long option = option == text "-l" || option == text "-la" || option == text "-al"

unfoldable pub is_ls_option : Text → Bool
unfolding is_long
is_ls_option option = is_long option || option == text "-a"

unfoldable pub first_or : Text → List Text → Text
first_or default [] = default
first_or default (x ∷ xs) = x

-- The report on a node that `ls` found.
unfoldable pub ls_node : Externals → List Text → Node → World → Outcome
unfolding format_ls_entry is_long
ls_node ext flags node w = elim (node_path w.mirror node) [
  | raise e ↦ raise e
  | ok path ↦ elim (is_dir node.node_type) [
    | false ↦
        succeed (format_ls_entry ext long node)
          ((text "path", text_value path) ∷ (text "flags", texts (sort_by text_leb flags)) ∷ []) w
    | true ↦ do
      children ← list_children w.mirror node.id
      succeed (join newline (map (format_ls_entry ext long) children))
          ((text "path", text_value path)
            ∷ (text "count", number (pos (length children)))
            ∷ (text "flags", texts (sort_by text_leb flags))
            ∷ [])
          w
  ]
]
  where
    long : Bool
    long = not (keep is_long flags == [])

-- `ls` of `exec_argv`
unfoldable pub exec_ls : Externals → List Text → World → Outcome
unfolding is_option first_sorted is_ls_option format_ls_unsupported_option first_or ls_node
    add_unseen format_ls_missing_target
exec_ls ext args w =
    let flags = add_unseen [] (keep is_option args) in
    let target = first_or (text ".") (keep (λ arg. not (is_option arg)) args) in
    elim (first_sorted (keep (λ option. not (is_ls_option option)) flags)) [
      | some option ↦
          fail (format_ls_unsupported_option option)
            ((text "unsupported_option", text_value option) ∷ []) w
      | none ↦ elim (resolve w target) [
        | raise e ↦ raise e
        | ok none ↦ do message ← format_ls_missing_target ext w target; fail message [] w
        | ok (some node) ↦ ls_node ext flags node w
      ]
    ]

-- The task guidance of the active mirror's metadata.
unfoldable pub guidance_of : World → TaskGuidance
guidance_of w = task_guidance_from_state (stored_state w.mirror.workspace_metadata)

-- `_exec_status`; the artifact with the whole guidance is left out
unfoldable pub exec_status : World → Outcome
unfolding guidance_of
exec_status w =
    let g = guidance_of w in
    succeed (render_task_guidance_status g [])
      ((
        text "verification_hint",
        text_value
            (build_verification_hint g.modified_paths g.required_paths g.possible_missing_targets),
      )
        ∷ (text "modified_paths", texts g.modified_paths)
        ∷ (text "state_source", text_value (text "workspace_metadata"))
        ∷ [])
      w

-- The loop of `render_tree_lines` over the children, with what renders the children of a node.
unfoldable pub tree_lines : (ℤ → Text → Result (List Text)) → Text → List Node → Result (List Text)
unfolding display_name
tree_lines render prefix [] = ok []
tree_lines render prefix (node ∷ nodes) =
    let last = nodes_end nodes in
    let line = prefix ++ ((if last then text "└── " else text "├── ") ++ display_name node) in
    do
      below ← elim (is_dir node.node_type) [
        | true ↦ render node.id (prefix ++ (if last then text "    " else text "│   "))
        | false ↦ ok []
      ]
      rest ← tree_lines render prefix nodes
      ok (line ∷ (below ++ rest))
  where
    nodes_end : List Node → Bool
    nodes_end [] = true
    nodes_end (n ∷ ns) = false

-- `render_tree_lines` without a depth limit; the fuel bounds the depth
unfoldable pub render_tree_lines : ℕ → WorkspaceMirror → ℤ → Text → Result (List Text)
unfolding tree_lines
render_tree_lines zero m parent_id prefix = raise diverges
render_tree_lines (suc fuel) m parent_id prefix = do
  children ← list_children m parent_id
  tree_lines (render_tree_lines fuel m) prefix children

-- `render_virtual_tree`, with the world after the root is made if need be
unfoldable pub render_virtual_tree : World → Result (Text × World)
unfolding render_tree_lines
render_virtual_tree w =
    let (root, w') = get_or_create_root w in
    do
      lines ← render_tree_lines (suc (length w'.mirror.nodes)) w'.mirror root.id []
      ok (join newline (text "/" ∷ lines), w')

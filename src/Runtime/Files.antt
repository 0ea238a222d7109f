-- ===== src/Runtime/Files.antt =====
-- `touch` and `rm` of `runtime/fs_commands.py`, with the functions of
-- `runtime/filesystem.py` that they call.
use iruka_virtual_file_syste.Prelude.{
  true, false, Option, none, some, List, [], ◌∷◌, ◌++◌, ℤ, length, nat_eq, list_eq, int_eq,
  if◌then◌else◌,
}
use iruka_virtual_file_syste.Text.{Text, text, starts_with}
use iruka_virtual_file_syste.Text.Number.{show_nat}
use iruka_virtual_file_syste.Dict.{remove}
use iruka_virtual_file_syste.Result.{Result, ok, raise, ◌>>=◌}
use iruka_virtual_file_syste.Model.{is_dir, Node}
use iruka_virtual_file_syste.Mirror.Mutate.{
  mutate_get_or_create_child_dir, mutate_get_or_create_child_file, mutate_touch_existing_file,
  mutate_delete_node,
}
use iruka_virtual_file_syste.Paths.Resolve.{resolve_parent_for_create, node_path}
use iruka_virtual_file_syste.Paths.Normalize.{allow_write_path}
use iruka_virtual_file_syste.Runtime.World.{
  World, Externals, Artifacts, text_value, texts, VirtualCommandResult, Outcome, succeed, fail,
  mutate_workspace_mirror,
}
use iruka_virtual_file_syste.Runtime.Targets.{
  resolve, resolve_target_path_for_write, detect_ambiguous_create_target,
  format_ambiguous_create_target_message, format_missing_path_error, conflict_artifacts,
}

-- What one operand of a loop leads to: a path that was there or that the loop made, or the end.
pub data Operand : Type 0 where
  existed made : Text → Operand
  stop : VirtualCommandResult → Operand

abbrev pub stop_with : Text → Artifacts → World → Result (Operand × World)
stop_with message artifacts w =
    ok (stop (record { stdout = []; stderr = message; exit_code = 1; artifacts = artifacts }), w)

-- `get_or_create_child_file`
unfoldable pub get_or_create_child_file : ℤ → Text → Text → World → Result (Node × World)
get_or_create_child_file parent_id name content =
    mutate_workspace_mirror (mutate_get_or_create_child_file parent_id name content)

-- `get_or_create_child_dir`
unfoldable pub get_or_create_child_dir : ℤ → Text → World → Result (Node × World)
get_or_create_child_dir parent_id name =
    mutate_workspace_mirror (mutate_get_or_create_child_dir parent_id name)

-- `", ".join(summary or ["ok"])` of the counts that are not zero
unfoldable pub summary_of : List Text → List Text → Text
summary_of [] [] = text "ok"
summary_of (c ∷ cs) [] = text "created=" ++ show_nat (length (c ∷ cs))
summary_of [] (e ∷ es) = text "existing=" ++ show_nat (length (e ∷ es))
summary_of (c ∷ cs) (e ∷ es) =
    text "created="
    ++ (show_nat (length (c ∷ cs)) ++ (text ", existing=" ++ show_nat (length (e ∷ es))))

-- `touch` of a node that is there.
unfoldable pub touch_existing : Text → Node → World → Result (Operand × World)
touch_existing raw_path node w = elim (is_dir node.node_type) [
  | true ↦ stop_with (text "touch: cannot touch '" ++ (raw_path ++ text "': Not a file")) [] w
  | false ↦ do
    (done, w) ← mutate_workspace_mirror (mutate_touch_existing_file node) w
    path ← node_path w.mirror node
    ok (existed path, w)
]

-- `touch` of a path without a node.
unfoldable pub touch_new : Text → World → Result (Operand × World)
touch_new raw_path w = elim (resolve_parent_for_create w.mirror w.cwd_node_id raw_path) [
  | raise e ↦ raise e
  | ok (none, name) ↦
      stop_with (text "touch: cannot touch '" ++ (raw_path ++ text "': invalid parent path")) [] w
  | ok (some parent, name) ↦ do
    (file_node, w) ← get_or_create_child_file parent.id name [] w
    path ← node_path w.mirror file_node
    ok (made path, w)
]

module _ (ext : Externals) where
  -- `touch` of a target that may be written.
  unfoldable pub touch_allowed : Text → Option Node → World → Result (Operand × World)
  unfolding touch_existing touch_new
  touch_allowed raw_path node w = elim (detect_ambiguous_create_target ext w raw_path node) [
    | raise e ↦ raise e
    | ok (some conflict) ↦
        stop_with (format_ambiguous_create_target_message ext conflict (text "touch"))
          (conflict_artifacts conflict) w
    | ok none ↦ elim node [ some n ↦ touch_existing raw_path n w | none ↦ touch_new raw_path w ]
  ]

  -- One round of the loop of `exec_touch`.
  unfoldable pub touch_one : Text → World → Result (Operand × World)
  unfolding touch_allowed
  touch_one raw_path w = elim (resolve w raw_path) [
    | raise e ↦ raise e
    | ok node ↦ elim (resolve_target_path_for_write w raw_path node) [
      | raise e ↦ raise e
      | ok none ↦
          stop_with (text "touch: cannot touch '" ++ (raw_path ++ text "': invalid parent path")) []
            w
      | ok (some target) ↦ elim (allow_write_path target) [
        | some reason ↦
            stop_with (text "touch: " ++ reason) ((text "path", text_value target) ∷ []) w
        | none ↦ touch_allowed raw_path node w
      ]
    ]
  ]

-- The loop over the operands, with what it made and found so far.
unfoldable pub operands :
    (Text → World → Result (Operand × World))
    → (List Text → List Text → World → Outcome)
    → List Text
    → List Text
    → List Text
    → World
    → Outcome
operands one finish created existing [] w = finish created existing w
operands one finish created existing (raw_path ∷ paths) w = elim (one raw_path w) [
  | raise e ↦ raise e
  | ok (stop result, w') ↦ ok (result, w')
  | ok (existed path, w') ↦ operands one finish created (existing ++ path ∷ []) paths w'
  | ok (made path, w') ↦ operands one finish (created ++ path ∷ []) existing paths w'
]

unfoldable pub touch_done : List Text → List Text → World → Outcome
touch_done created existing =
    succeed (text "touch " ++ summary_of created existing)
      ((text "created", texts created) ∷ (text "existing", texts existing) ∷ [])

unfoldable pub exec_touch : Externals → List Text → World → Outcome
unfolding touch_one operands touch_done
exec_touch ext [] w = fail (text "touch: missing file operand") [] w
exec_touch ext (p ∷ ps) w = operands (touch_one ext) touch_done [] [] (p ∷ ps) w

-- `_persist_delete_node` of the in-memory repository
unfoldable pub persist_delete_node : Node → World → World
persist_delete_node node w = record w {
  repo = record w.repo { nodes = remove node.id w.repo.nodes };
}

-- `delete_node`
unfoldable pub delete_node : Node → World → Result World
unfolding persist_delete_node
delete_node node w = do
  (done, w) ← mutate_workspace_mirror (mutate_delete_node node) w
  ok (persist_delete_node node w)

-- `rm` of a file.
unfoldable pub remove_file : Node → World → Outcome
remove_file node w = elim (node_path w.mirror node) [
  | raise e ↦ raise e
  | ok path ↦ elim (allow_write_path path) [
    | some reason ↦ fail (text "rm: " ++ reason) ((text "path", text_value path) ∷ []) w
    | none ↦ do
      w ← delete_node node w
      succeed (text "removed " ++ path) ((text "path", text_value path) ∷ []) w
  ]
]

-- A node that is there and a file.
unfoldable pub file_only : Option Node → Option Node
file_only none = none
file_only (some node) = if is_dir node.node_type then none else some node

unfoldable pub exec_rm : Externals → List Text → World → Outcome
unfolding remove_file
exec_rm ext [] w = fail (text "rm: require exactly one file path") [] w
exec_rm ext (target ∷ []) w = elim (starts_with target (text "-")) [
  | true ↦ fail (text "rm: unsupported option: " ++ target) [] w
  | false ↦ elim (resolve w target) [
    | raise e ↦ raise e
    | ok node ↦ elim (file_only node) [
      | none ↦ do
        message ← format_missing_path_error ext w (text "rm") target false
        fail message [] w
      | some n ↦ remove_file n w
    ]
  ]
]
exec_rm ext (target ∷ other ∷ rest) w = fail (text "rm: require exactly one file path") [] w

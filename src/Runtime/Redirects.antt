-- ===== src/Runtime/Redirects.antt =====
-- `apply_redirect` of `runtime/executor.py`.
use iruka_virtual_file_syste.Prelude.{
  Bool, true, false, not, ◌&&◌, Option, none, some, [], ◌∷◌, ◌++◌, pos, nat_eq, list_eq, ◌==◌,
  if◌then◌else◌,
}
use iruka_virtual_file_syste.Text.{Text, text}
use iruka_virtual_file_syste.Result.{ok, raise, ◌>>=◌}
use iruka_virtual_file_syste.Model.{Node, is_dir}
use iruka_virtual_file_syste.Command.Pipeline.{Redirect}
use iruka_virtual_file_syste.Paths.Resolve.{resolve_parent_for_create, node_path}
use iruka_virtual_file_syste.Paths.Normalize.{allow_write_path}
use iruka_virtual_file_syste.Runtime.World.{
  World, Externals, text_value, number, Outcome, succeed, fail, get_node_content,
}
use iruka_virtual_file_syste.Runtime.Targets.{
  resolve, resolve_target_path_for_write, detect_ambiguous_create_target,
  format_ambiguous_create_target_message, conflict_artifacts, format_overwrite_conflict_message,
  build_overwrite_conflict,
}
use iruka_virtual_file_syste.Runtime.Files.{get_or_create_child_file}
use iruka_virtual_file_syste.Runtime.Edits.{write_file}

-- The write of a redirect to its node.
unfoldable pub write_redirect : Redirect → Text → Node → World → Outcome
write_redirect redirect output_text node w = do
  let new_content =
      if redirect.op == text ">>"
      then get_node_content w.mirror node ++ output_text
      else output_text
  (version_no, w) ← write_file node new_content w
  path ← node_path w.mirror node
  succeed []
      ((text "path", text_value path)
        ∷ (text "op", text_value redirect.op)
        ∷ (text "version", number (pos version_no))
        ∷ [])
      w

-- A redirect to a path without a node.
unfoldable pub redirect_new : Redirect → Text → World → Outcome
unfolding write_redirect
redirect_new redirect output_text w =
    elim (resolve_parent_for_create w.mirror w.cwd_node_id redirect.path) [
      | raise e ↦ raise e
      | ok (none, name) ↦
          fail (text "redirect: cannot create " ++ (redirect.path ++ text ": invalid parent path"))
            [] w
      | ok (some parent, name) ↦ do
        (node, w) ← get_or_create_child_file parent.id name [] w
        write_redirect redirect output_text node w
    ]

-- A redirect to a node that is there.
unfoldable pub redirect_existing : Redirect → Text → Node → World → Outcome
unfolding write_redirect
redirect_existing redirect output_text node w =
    elim (redirect.op == text ">" && not redirect.force) [
      | false ↦ write_redirect redirect output_text node w
      | true ↦ do
        path ← node_path w.mirror node
        fail (format_overwrite_conflict_message path)
            (build_overwrite_conflict path ++ (text "op", text_value redirect.op) ∷ []) w
    ]

unfoldable pub is_directory : Option Node → Bool
is_directory none = false
is_directory (some node) = is_dir node.node_type

module _ (ext : Externals) where
  -- A redirect to a target that may be written.
  unfoldable pub redirect_allowed : Redirect → Text → Option Node → World → Outcome
  unfolding redirect_new redirect_existing
  redirect_allowed redirect output_text node w =
      elim (detect_ambiguous_create_target ext w redirect.path node) [
        | raise e ↦ raise e
        | ok (some conflict) ↦
            fail (format_ambiguous_create_target_message ext conflict (text "redirect"))
              (conflict_artifacts conflict) w
        | ok none ↦ elim node [
          | none ↦ redirect_new redirect output_text w
          | some n ↦ redirect_existing redirect output_text n w
        ]
      ]

  -- A redirect to a path that has no directory.
  unfoldable pub redirect_to : Redirect → Text → Option Node → World → Outcome
  unfolding redirect_allowed
  redirect_to redirect output_text node w =
      elim (resolve_target_path_for_write w redirect.path node) [
        | raise e ↦ raise e
        | ok none ↦
            fail
              (text "redirect: cannot create " ++ (redirect.path ++ text ": invalid parent path"))
              [] w
        | ok (some target) ↦ elim (allow_write_path target) [
          | some reason ↦
              fail (text "redirect: " ++ reason) ((text "path", text_value target) ∷ []) w
          | none ↦ redirect_allowed redirect output_text node w
        ]
      ]

  -- `apply_redirect`
  unfoldable pub apply_redirect : Redirect → Text → World → Outcome
  unfolding redirect_to is_directory
  apply_redirect redirect output_text w = elim (resolve w redirect.path) [
    | raise e ↦ raise e
    | ok node ↦ elim (is_directory node) [
      | true ↦ fail (text "redirect: " ++ (redirect.path ++ text ": is a directory")) [] w
      | false ↦ redirect_to redirect output_text node w
    ]
  ]

-- ===== src/Runtime/Dispatch.antt =====
-- `exec_argv` of `runtime/executor.py`: one command with its arguments and its input.
use iruka_virtual_file_syste.Prelude.{
  ℕ, zero, suc, ◌+◌, true, false, not, none, some, List, [], ◌∷◌, ◌++◌, pos, keep, map, length,
  nat_eq, list_eq, ◌==◌, if◌then◌else◌,
}
use iruka_virtual_file_syste.Text.{Text, text, join}
use iruka_virtual_file_syste.Text.Lines.{splitlines}
use iruka_virtual_file_syste.Text.Strip.{strip}
use iruka_virtual_file_syste.Dict.{put}
use iruka_virtual_file_syste.Result.{ok, raise, diverges, ◌>>=◌}
use iruka_virtual_file_syste.Model.{is_dir}
use iruka_virtual_file_syste.Mirror.Mutate.{mutate_cd}
use iruka_virtual_file_syste.Paths.Resolve.{node_path}
use iruka_virtual_file_syste.Runtime.World.{
  World, Externals, text_value, number, texts, flag, Outcome, succeed, fail, fail_with,
  mutate_workspace_mirror, must_get_node,
}
use iruka_virtual_file_syste.Runtime.Targets.{resolve}
use iruka_virtual_file_syste.Runtime.Files.{exec_touch, exec_rm}
use iruka_virtual_file_syste.Runtime.Directories.{exec_mkdir}
use iruka_virtual_file_syste.Runtime.Transfers.{exec_cp, exec_mv}
use iruka_virtual_file_syste.Runtime.Texts.{
  exec_cat, exec_wc, exec_sort, exec_head, exec_basename, exec_dirname,
}
use iruka_virtual_file_syste.Runtime.Edits.{exec_edit, exec_patch}
use iruka_virtual_file_syste.Runtime.Find.{exec_find}
use iruka_virtual_file_syste.Runtime.Listing.{
  exec_ls, exec_status, guidance_of, render_virtual_tree, first_or,
}
use iruka_virtual_file_syste.Runtime.Matching.{exec_search}
use iruka_virtual_file_syste.Runtime.Help.{exec_help}

-- The commands that `exec_argv` tells apart by name.
pub data Command : Type 0 where
  pwd cd ls cat find rg grep xargs wc mkdir cp mv rm head sort status : Command
  verify basename dirname edit patch tree echo colon help touch unsupported : Command

unfoldable pub command_of : Text → Command
command_of name =
    if name == text "pwd"
    then pwd
    else if name == text "cd"
    then cd
    else if name == text "ls"
    then ls
    else if name == text "cat"
    then cat
    else if name == text "find"
    then find
    else if name == text "rg"
    then rg
    else if name == text "grep"
    then grep
    else if name == text "xargs"
    then xargs
    else if name == text "wc"
    then wc
    else if name == text "mkdir"
    then mkdir
    else if name == text "cp"
    then cp
    else if name == text "mv"
    then mv
    else if name == text "rm"
    then rm
    else if name == text "head"
    then head
    else if name == text "sort"
    then sort
    else if name == text "status"
    then status
    else if name == text "verify"
    then verify
    else if name == text "basename"
    then basename
    else if name == text "dirname"
    then dirname
    else if name == text "edit"
    then edit
    else if name == text "patch"
    then patch
    else if name == text "tree"
    then tree
    else if name == text "echo"
    then echo
    else if name == text ":"
    then colon
    else if name == text "help"
    then help
    else if name == text "touch"
    then touch
    else unsupported

-- `pwd` of `exec_argv`
unfoldable pub exec_pwd : World → Outcome
exec_pwd w = do
  cwd ← must_get_node w.cwd_node_id w
  path ← node_path w.mirror cwd
  succeed path [] w

-- `cd` of `exec_argv`
unfoldable pub exec_cd : List Text → World → Outcome
exec_cd args w =
    let target = first_or (text "/workspace") args in
    elim (resolve w target) [
      | raise e ↦ raise e
      | ok none ↦ refused target
      | ok (some node) ↦ elim (is_dir node.node_type) [
        | false ↦ refused target
        | true ↦ do
          (done, w) ←
              mutate_workspace_mirror (mutate_cd node.id) (record w { cwd_node_id = node.id })
          path ← node_path w.mirror node
          succeed [] ((text "cwd", text_value path) ∷ []) w
      ]
    ]
  where
    refused : Text → Outcome
    refused target = fail (text "cd: no such directory: " ++ target) [] w

-- `[line.strip() for line in input_text.splitlines() if line.strip()]`
unfoldable pub stdin_paths : Text → List Text
stdin_paths input_text = keep (λ line. not (line == [])) (map strip (splitlines input_text))

-- The executor itself, for the commands that call it.
module _ (again : List Text → Text → World → Outcome) where
  -- `xargs` with the paths of its input.
  unfoldable pub xargs_on : List Text → List Text → World → Outcome
  xargs_on args [] w = succeed [] ((text "input_count", number (pos 0)) ∷ []) w
  xargs_on args (p ∷ ps) w = do
    (result, w) ← again (args ++ (p ∷ ps)) [] w
    ok (
      record result {
        artifacts =
            put (text "expanded_argv") (texts (args ++ (p ∷ ps)))
              (put (text "input_count") (number (pos (length (p ∷ ps)))) result.artifacts);
      },
      w,
    )

  -- `xargs` of `exec_argv`
  unfoldable pub exec_xargs : List Text → Text → World → Outcome
  unfolding xargs_on stdin_paths
  exec_xargs [] input_text w = fail (text "xargs: missing command") [] w
  exec_xargs (a ∷ args) input_text w = xargs_on (a ∷ args) (stdin_paths input_text) w

  -- The end of `_exec_verify`, with its targets.
  unfoldable pub verify_targets : List Text → World → Outcome
  verify_targets [] w =
      succeed (text "No pending verification paths.")
        ((text "files", texts []) ∷ (text "verification", text_value (text "noop")) ∷ []) w
  verify_targets (t ∷ ts) w = again (text "cat" ∷ t ∷ ts) [] w

  -- `_exec_verify`
  unfoldable pub exec_verify : List Text → World → Outcome
  unfolding verify_targets guidance_of
  exec_verify [] w = verify_targets (guidance_of w).required_paths w
  exec_verify (t ∷ ts) w = verify_targets (t ∷ ts) w

-- `tree` of `exec_argv`
unfoldable pub exec_tree : World → Outcome
exec_tree w = do (stdout, w) ← render_virtual_tree w; succeed stdout [] w

module _ (ext : Externals) (again : List Text → Text → World → Outcome) where
  -- The branches of `exec_argv`.
  unfoldable pub run : Command → Text → List Text → Text → World → Outcome
  unfolding exec_pwd exec_cd exec_xargs exec_verify exec_tree
  run pwd name args input_text w = exec_pwd w
  run cd name args input_text w = exec_cd args w
  run ls name args input_text w = exec_ls ext args w
  run cat name args input_text w = exec_cat ext args input_text w
  run find name args input_text w = exec_find ext again args w
  run rg name args input_text w = exec_search ext name args input_text w
  run grep name args input_text w = exec_search ext name args input_text w
  run xargs name args input_text w = exec_xargs again args input_text w
  run wc name args input_text w = exec_wc ext args input_text w
  run mkdir name args input_text w = exec_mkdir args w
  run cp name args input_text w = exec_cp ext args w
  run mv name args input_text w = exec_mv ext args w
  run rm name args input_text w = exec_rm ext args w
  run head name args input_text w = exec_head ext args input_text w
  run sort name args input_text w = exec_sort ext args input_text w
  run status name args input_text w = exec_status w
  run verify name args input_text w = exec_verify again args w
  run basename name args input_text w = exec_basename ext args w
  run dirname name args input_text w = exec_dirname ext args w
  run edit name args input_text w = exec_edit ext args input_text w
  run patch name args input_text w = exec_patch ext args input_text w
  run tree name args input_text w = exec_tree w
  run echo name args input_text w = succeed (join (text " ") args) [] w
  run colon name args input_text w = succeed [] ((text "noop", flag true) ∷ []) w
  run help name args input_text w = exec_help w
  run touch name args input_text w = exec_touch ext args w
  run unsupported name args input_text w =
      fail_with 127 (text "unsupported command: " ++ (name ++ text ". Try: help")) [] w

-- The fuel bounds how deep commands run commands.
unfoldable pub exec_with : ℕ → Externals → List Text → Text → World → Outcome
unfolding run command_of
exec_with zero ext argv input_text w = raise diverges
exec_with (suc fuel) ext [] input_text w = succeed [] [] w
exec_with (suc fuel) ext (name ∷ args) input_text w =
    run ext (exec_with fuel ext) (command_of name) name args input_text w

-- `exec_argv`
unfoldable pub exec_argv : Externals → List Text → Text → World → Outcome
unfolding exec_with
exec_argv ext argv input_text w =
    exec_with (suc (length argv + length (stdin_paths input_text))) ext argv input_text w

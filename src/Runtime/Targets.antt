-- ===== src/Runtime/Targets.antt =====
-- Where a write goes and what is said of a path that is missing: `service_ops/file_api.py`,
-- `write_conflicts.py`, and the hints of `integrations/agent/path_guidance.py`.
use iruka_virtual_file_syste.Prelude.{
  Bool, true, false, not, ◌&&◌, ◌||◌, Option, none, some, List, [], ◌∷◌, ◌++◌, keep, contains,
  nat_eq, list_eq, int_eq, ◌==◌, if◌then◌else◌,
}
use iruka_virtual_file_syste.Text.{Text, text, split_on}
use iruka_virtual_file_syste.Text.Strip.{rstrip_char}
use iruka_virtual_file_syste.Result.{Result, ok, raise, ◌>>=◌}
use iruka_virtual_file_syste.Model.{file, Node, WorkspaceMirror}
use iruka_virtual_file_syste.Paths.{path_is_under}
use iruka_virtual_file_syste.Paths.Resolve.{resolve_path, resolve_parent_for_create, node_path}
use iruka_virtual_file_syste.Paths.Normalize.{vfs_root, normalize_virtual_path}
use iruka_virtual_file_syste.Runtime.World.{
  World, Externals, Artifacts, text_value, flag, must_get_node,
}
use iruka_virtual_file_syste.Runtime.Search.{find_paths}

-- `resolve_path` with the session's current directory
unfoldable pub resolve : World → Text → Result (Option Node)
resolve w path = resolve_path w.mirror w.cwd_node_id path

-- `f"/{leaf}"` below the root, `f"{parent_path.rstrip('/')}/{leaf}"` elsewhere
unfoldable pub leaf_path : Text → Text → Text
leaf_path parent_path leaf =
    if parent_path == text "/"
    then text "/" ++ leaf
    else rstrip_char b'/' parent_path ++ (text "/" ++ leaf)

-- The target below a parent that the path has, if it has one and a leaf.
unfoldable pub target_below : WorkspaceMirror → Option Node → Text → Result (Option Text)
unfolding leaf_path
target_below m none leaf = ok none
target_below m (some parent) [] = ok none
target_below m (some parent) (c ∷ leaf) = do
  parent_path ← node_path m parent
  ok (some (leaf_path parent_path (c ∷ leaf)))

-- `resolve_target_path_for_write`
unfoldable pub resolve_target_path_for_write : World → Text → Option Node → Result (Option Text)
unfolding target_below
resolve_target_path_for_write w raw_path (some node) =
    node_path w.mirror node >>= λ path. ok (some path)
resolve_target_path_for_write w raw_path none = do
  (parent, leaf) ← resolve_parent_for_create w.mirror w.cwd_node_id raw_path
  target_below w.mirror parent leaf

-- The paths of `requested_path` and `suggested_path`.
pub record Conflict : Type 0 where
  pub requested_path : Text
  pub suggested_path : Text

abbrev pub conflict_artifacts : Conflict → Artifacts
conflict_artifacts c =
    (text "requested_path", text_value c.requested_path)
    ∷ (text "suggested_path", text_value c.suggested_path)
    ∷ []

-- The one path of the list, if it has one.
unfoldable pub only_one : List Text → Option Text
only_one [] = none
only_one (p ∷ []) = some p
only_one (p ∷ q ∷ ps) = none

-- `str(target or "").rstrip("/").split("/")[-1]`
unfoldable pub last_part : List Text → Text
last_part [] = []
last_part (p ∷ []) = p
last_part (p ∷ q ∷ ps) = last_part (q ∷ ps)

module _ (ext : Externals) where
  -- The conflict of a target that is to stand directly below the workspace's root.
  unfoldable pub same_name_conflict : World → Text → Result (Option Conflict)
  unfolding only_one
  same_name_conflict w target = elim (resolve w vfs_root) [
    | raise e ↦ raise e
    | ok none ↦ ok none
    | ok (some workspace_root) ↦ do
      found ← find_paths ext w.mirror workspace_root (some (ext.path_name target)) (some file)
      elim (only_one (keep (λ path. not (path == target)) found)) [
        | none ↦ ok none
        | some path ↦ ok (some (record { requested_path = target; suggested_path = path }))
      ]
  ]

  -- `detect_ambiguous_create_target`
  unfoldable pub detect_ambiguous_create_target :
      World → Text → Option Node → Result (Option Conflict)
  unfolding same_name_conflict
  detect_ambiguous_create_target w raw_path (some node) = ok none
  detect_ambiguous_create_target w raw_path none =
      elim (resolve_target_path_for_write w raw_path none) [
        | raise e ↦ raise e
        | ok none ↦ ok none
        | ok (some target) ↦
            elim (path_is_under target vfs_root && ext.path_parent target == vfs_root) [
              | false ↦ ok none
              | true ↦ same_name_conflict w target
            ]
      ]

  -- `format_ambiguous_create_target_message`, with its label
  unfoldable pub format_ambiguous_create_target_message : Conflict → Text → Text
  format_ambiguous_create_target_message c label =
      label
      ++ (text ": "
          ++ (c.requested_path
              ++ (text
                    " would create a new root-level file, but an existing file with the same name was found at "
                  ++ (c.suggested_path ++ text ". Use the existing path instead."))))

  -- `_find_unique_named_path`, called with a database and a session, as all commands call it (without
  -- them it returns None)
  unfoldable pub find_unique_named_path : World → Text → Text → Result (Option Text)
  unfolding only_one
  find_unique_named_path w basename raw_target =
      elim (basename == [] || basename == text "." || basename == text "..") [
        | true ↦ ok none
        | false ↦ elim (resolve w vfs_root) [
          | raise e ↦ raise e
          | ok none ↦ ok none
          | ok (some workspace_root) ↦ do
            normalized ←
                normalize_virtual_path (must_get_node w.cwd_node_id w >>= node_path w.mirror)
                  raw_target
            found ← find_paths ext w.mirror workspace_root (some basename) none
            ok (only_one (keep (λ path. not (path == or_target normalized raw_target)) found))
        ]
      ]
    where
      or_target : Option Text → Text → Text
      or_target none raw = raw
      or_target (some path) raw = path

  -- `_search_hint`
  unfoldable pub search_hint : Text → Text → Bool → Option Text → Text
  search_hint command basename directory_style (some path) =
      if contains command
          (text "cat" ∷ text "edit" ∷ text "patch" ∷ text "wc" ∷ text "head" ∷ text "rm" ∷ [])
        && not directory_style
      then text " Most likely existing path: "
        ++ (path
            ++ (text ". Exact retry: "
                ++ (command
                    ++ (text " "
                        ++ (ext.quote path
                            ++ (text ". Do not recreate /workspace/"
                                ++ (basename
                                    ++ text " when that exact file already exists elsewhere.")))))))
      else text " Most likely existing path: "
        ++ (path
            ++ (text ". Exact retry: find /workspace -name "
                ++ (ext.quote basename
                    ++ (text
                          ". If workspace_bootstrap or unique_filename_index lists that basename once, "
                        ++ text "reuse the exact path above."))))
  search_hint command basename directory_style none =
      if basename == [] || basename == text "." || basename == text ".."
      then text " Try: ls -la /workspace, find /workspace -type f, or inspect workspace_bootstrap"
      else text " Try: find /workspace -name "
        ++ (ext.quote basename
            ++ (text " -> cat -> edit/patch. If workspace_bootstrap shows a unique filename hint, "
                ++ text "use that exact path directly."))

  -- `format_missing_path_error`
  unfoldable pub format_missing_path_error : World → Text → Text → Bool → Result Text
  unfolding last_part search_hint
  format_missing_path_error w command target directory_style = do
    let basename = last_part (split_on b'/' (rstrip_char b'/' target))
    suggested ← find_unique_named_path w basename target
    ok (
        command
        ++ (text ": "
            ++ (target
                ++ (text ": "
                    ++ ((if directory_style
                          then text "No such file or directory"
                          else text "No such file")
                        ++ (text "." ++ search_hint command basename directory_style suggested))))))

-- `format_overwrite_conflict_message` for a redirect
unfoldable pub format_overwrite_conflict_message : Text → Text
format_overwrite_conflict_message path =
    text "redirect: file already exists: "
    ++ (path ++ (text ". To overwrite this exact file, rerun the same command with >| " ++ path))

-- `build_overwrite_conflict` for a redirect
unfoldable pub build_overwrite_conflict : Text → Artifacts
build_overwrite_conflict path =
    (text "ok", flag false)
    ∷ (text "conflict", flag true)
    ∷ (text "path", text_value path)
    ∷ (text "reason", text_value (text "already_exists"))
    ∷ (text "requires_confirmation", flag true)
    ∷ (text "suggested_overwrite_mode", text_value (text ">|"))
    ∷ (text "source", text_value (text "redirect"))
    ∷ []

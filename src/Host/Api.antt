-- ===== src/Host/Api.antt =====
-- What the host does with a workspace that `ensure_virtual_workspace` finds ready: the access modes of
-- iruka_vfs/integrations/agent/access_mode.py, and the reads and writes of
-- iruka_vfs/service_ops/file_api.py.
use iruka_virtual_file_syste.Prelude.{
  suc, Bool, true, false, not, Option, none, some, List, [], ◌∷◌, ◌++◌, keep, nat_eq, list_eq, ◌==◌,
  if◌then◌else◌,
}
use iruka_virtual_file_syste.Text.{Text, text}
use iruka_virtual_file_syste.Text.Strip.{strip}
use iruka_virtual_file_syste.Dict.{Dict, put}
use iruka_virtual_file_syste.Result.{
  Result, ok, raise, value_error, permission_error, file_exists_error, file_not_found_error, ◌>>=◌,
}
use iruka_virtual_file_syste.Sorting.{sort_by, text_leb}
use iruka_virtual_file_syste.Model.{Node, is_dir, Value, text_value, WorkspaceMirror}
use iruka_virtual_file_syste.Repositories.{update_workspace_metadata}
use iruka_virtual_file_syste.Context.{Settings, assert_workspace_tenant}
use iruka_virtual_file_syste.Paths.Resolve.{resolve_path, list_children, node_path}
use iruka_virtual_file_syste.Paths.Normalize.{
  AccessMode, host, agent, workspace_access_mode_from_metadata, normalize_workspace_path,
  allow_write_path,
}
use iruka_virtual_file_syste.Runtime.World.{
  World, Externals, set_workspace_mirror, get_node_content,
}
use iruka_virtual_file_syste.Runtime.Targets.{
  resolve, detect_ambiguous_create_target, format_ambiguous_create_target_message,
}
use iruka_virtual_file_syste.Runtime.Search.{collect_files}
use iruka_virtual_file_syste.Host.{Seeded, seed_workspace_file}

unfoldable pub mode_name : AccessMode → Text
mode_name host = text "host"
mode_name agent = text "agent"

unfoldable pub same_mode : AccessMode → AccessMode → Bool
same_mode host host = true
same_mode host agent = false
same_mode agent host = false
same_mode agent agent = true

-- The mode that a normalized text names.
unfoldable pub mode_of : Text → Option AccessMode
mode_of name =
    if name == text "host" then some host else if name == text "agent" then some agent else none

module _ (ext : Externals) (str : Value → Text) where
  -- `workspace_access_mode_for_runtime`, of a workspace with a mirror
  unfoldable pub workspace_access_mode_for_runtime : World → AccessMode
  workspace_access_mode_for_runtime w =
      workspace_access_mode_from_metadata ext.lower str w.mirror.workspace_metadata

  unfoldable pub assert_workspace_access_mode : AccessMode → World → Result AccessMode
  unfolding workspace_access_mode_for_runtime
  assert_workspace_access_mode required w =
      let actual = workspace_access_mode_for_runtime w in
      if same_mode actual required
      then ok actual
      else raise (
          permission_error (
            text "workspace access mode is '"
            ++ (mode_name actual ++ (text "', required '" ++ (mode_name required ++ text "'")))))

  -- `_mutate_workspace_access_mode` in its mutation: the metadata is marked and stored
  unfoldable pub mutate_workspace_access_mode : AccessMode → World → AccessMode × World
  unfolding workspace_access_mode_for_runtime
  mutate_workspace_access_mode mode w =
      let m = w.mirror in
      let metadata =
        put (text "virtual_access_mode") (text_value (mode_name mode)) m.workspace_metadata in
      if same_mode (workspace_access_mode_for_runtime w) mode then (mode, w) else (
        mode,
        set_workspace_mirror
            (record m {
              workspace_metadata = metadata;
              dirty_workspace_metadata = true;
              revision = suc m.revision;
            })
            (record w {
              repo = update_workspace_metadata m.workspace_id m.tenant_key metadata w.repo;
            }),
      )

  -- `set_workspace_access_mode` of a caller with the given tenant, without its flush
  unfoldable pub set_workspace_access_mode :
      Settings → Text → Text → World → Result (AccessMode × World)
  set_workspace_access_mode settings tenant_id mode w = do
    tenant_key ← assert_workspace_tenant settings w.mirror.tenant_key tenant_id
    elim (mode_of (ext.lower (strip mode))) [
      | none ↦ raise (value_error (text "unsupported workspace access mode: " ++ mode))
      | some normalized ↦ ok (mutate_workspace_access_mode normalized w)
    ]

  -- The session that a call makes from the mirror has its current directory.
  unfoldable pub with_session : World → World
  with_session w = record w { cwd_node_id = w.mirror.cwd_node_id }

  -- The checks of `write_workspace_file` on the target, and the write.
  unfoldable pub write_normalized : Text → Text → Bool → World → Result (Seeded × World)
  write_normalized normalized content overwrite w =
      elim (detect_ambiguous_create_target ext w normalized none) [
        | raise e ↦ raise e
        | ok (some found) ↦ raise (
            file_exists_error
              (format_ambiguous_create_target_message ext found (text "write_file")))
        | ok none ↦ elim (allow_write_path normalized) [
          | some reason ↦ raise (permission_error (text "write_file: " ++ reason))
          | none ↦ seed_workspace_file normalized content overwrite true w
        ]
      ]

  -- `write_workspace_file` of a workspace that is ready, whose mirror has the tenant that
  -- `workspace_tenant_key` finds
  unfoldable pub write_workspace_file :
      Settings → Text → Text → Text → Bool → World → Result (Seeded × World)
  write_workspace_file settings tenant_id path content overwrite w = do
    tenant_key ← assert_workspace_tenant settings w.mirror.tenant_key tenant_id
    mode ← assert_workspace_access_mode host w
    normalized ← normalize_workspace_path path true
    write_normalized normalized content overwrite (with_session w)

  -- `read_workspace_file`; both modes are readable
  unfoldable pub read_workspace_file : Settings → Text → Text → World → Result Text
  read_workspace_file settings tenant_id path w = do
    tenant_key ← assert_workspace_tenant settings w.mirror.tenant_key tenant_id
    normalized ← normalize_workspace_path path true
    found ← resolve (with_session w) normalized
    elim found [
      | none ↦ raise (file_not_found_error (text "workspace file not found: " ++ normalized))
      | some node ↦
          if is_dir node.node_type
          then raise (file_not_found_error (text "workspace file not found: " ++ normalized))
          else ok (get_node_content w.mirror node)
    ]

-- `[(node_path(item), get_node_content(item)) for item in files]`
unfoldable pub file_rows : WorkspaceMirror → List Node → Result (Dict Text Text)
file_rows m [] = ok []
file_rows m (node ∷ nodes) = do
  path ← node_path m node
  rows ← file_rows m nodes
  ok ((path, get_node_content m node) ∷ rows)

-- `{path: content for path, content in rows}`
unfoldable pub dict_of : Dict Text Text → Dict Text Text → Dict Text Text
dict_of d [] = d
dict_of d ((path, content) ∷ rows) = dict_of (put path content d) rows

unfoldable pub directory_files : Bool → WorkspaceMirror → Node → Result (List Node)
directory_files true m node = collect_files m node.id
directory_files false m node = do
  children ← list_children m node.id
  ok (keep (λ (child : Node). not (is_dir child.node_type)) children)

-- `read_workspace_directory`
unfoldable pub read_workspace_directory :
    Settings → Text → Text → Bool → World → Result (Dict Text Text)
read_workspace_directory settings tenant_id path recursive w = do
  tenant_key ← assert_workspace_tenant settings w.mirror.tenant_key tenant_id
  normalized ← normalize_workspace_path path false
  found ← resolve_path w.mirror w.mirror.cwd_node_id normalized
  elim found [
    | none ↦ raise (file_not_found_error (text "workspace directory not found: " ++ normalized))
    | some node ↦ elim (is_dir node.node_type) [
      | false ↦ raise (file_not_found_error (text "workspace directory not found: " ++ normalized))
      | true ↦ do
        files ← directory_files recursive w.mirror node
        rows ← file_rows w.mirror files
        ok (dict_of [] (sort_by (λ a b. text_leb a.0 b.0) rows))
    ]
  ]

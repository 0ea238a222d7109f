-- ===== src/Host.antt =====
-- `seed_workspace_file` and `ensure_virtual_dir_path` of iruka_vfs/service_ops/bootstrap.py.
pub mod Api
pub mod Writes
use iruka_virtual_file_syste.Prelude.{
  ℕ, suc, Bool, true, false, not, ◌&&◌, ◌||◌, Option, none, some, List, [], ◌∷◌, ◌++◌, ℤ, keep,
  nat_eq, list_eq, ◌==◌, if◌then◌else◌,
}
use iruka_virtual_file_syste.Text.{Text, text, split_on}
use iruka_virtual_file_syste.Text.Strip.{strip}
use iruka_virtual_file_syste.Dict.{Dict, put}
use iruka_virtual_file_syste.Result.{
  Result, ok, raise, value_error, permission_error, file_exists_error, file_not_found_error, ◌>>=◌,
}
use iruka_virtual_file_syste.Sorting.{sort_by, text_leb}
use iruka_virtual_file_syste.Model.{Node, is_dir, Value, text_value, Metadata, WorkspaceMirror}
use iruka_virtual_file_syste.Repositories.{update_workspace_metadata}
use iruka_virtual_file_syste.Context.{Settings, assert_workspace_tenant}
use iruka_virtual_file_syste.Paths.Resolve.{resolve_path, rpartition, list_children, node_path}
use iruka_virtual_file_syste.Paths.Normalize.{
  AccessMode, host, agent, workspace_access_mode_from_metadata, normalize_workspace_path,
  allow_write_path,
}
use iruka_virtual_file_syste.Runtime.World.{
  World, Externals, set_workspace_mirror, get_node_content, get_node_version, get_or_create_root,
}
use iruka_virtual_file_syste.Runtime.Targets.{
  resolve, detect_ambiguous_create_target, format_ambiguous_create_target_message,
}
use iruka_virtual_file_syste.Runtime.Files.{get_or_create_child_file, get_or_create_child_dir}
use iruka_virtual_file_syste.Runtime.Edits.{write_file}
use iruka_virtual_file_syste.Runtime.Search.{collect_files}

-- The loop of `ensure_virtual_dir_path` over the parts of the normalized path.
unfoldable pub ensure_parts : Text → Node → List Text → World → Result (Node × World)
ensure_parts normalized current [] w = ok (current, w)
ensure_parts normalized current (part ∷ parts) w = elim (resolve_path w.mirror current.id part) [
  | raise e ↦ raise e
  | ok (some child) ↦ elim (is_dir child.node_type) [
    | true ↦ ensure_parts normalized child parts w
    | false ↦ raise (value_error (text "workspace path exists as file: " ++ normalized))
  ]
  | ok none ↦ elim (get_or_create_child_dir current.id part w) [
    | raise e ↦ raise e
    | ok (child, w') ↦ ensure_parts normalized child parts w'
  ]
]

-- `ensure_virtual_dir_path`
unfoldable pub ensure_virtual_dir_path : Text → World → Result (Node × World)
unfolding ensure_parts
ensure_virtual_dir_path dir_path w = do
  normalized ← normalize_workspace_path dir_path false
  let (root, w') = get_or_create_root w
  elim (normalized == text "/") [
    | true ↦ ok (root, w')
    | false ↦
        ensure_parts normalized root (keep (λ part. not (part == [])) (split_on b'/' normalized)) w'
  ]

-- What `seed_workspace_file` returns: the conflict with the file that is there, that file as it is,
-- or the file that was made or written.
pub data Seeded : Type 0 where
  conflict : Text → ℕ → Seeded
  existing : Text → ℕ → Seeded
  written : Text → ℕ → Bool → Seeded

-- The path that the result reports.
unfoldable pub seeded_path : Seeded → Text
seeded_path (conflict path version) = path
seeded_path (existing path version) = path
seeded_path (written path version created) = path

-- The file of the path, whether it is new, and the world with it.
unfoldable pub seed_node : Text → Text → Node → Text → World → Result (Node × Bool × World)
seed_node normalized content parent name w = elim (resolve_path w.mirror parent.id name) [
  | raise e ↦ raise e
  | ok (some node) ↦ elim (is_dir node.node_type) [
    | true ↦ raise (value_error (text "workspace path exists as directory: " ++ normalized))
    | false ↦ ok (node, false, w)
  ]
  | ok none ↦ elim (get_or_create_child_file parent.id name content w) [
    | raise e ↦ raise e
    | ok (node, w') ↦ ok (node, true, w')
  ]
]

-- What follows: a new file has its content; one that is there is written if the call overwrites.
unfoldable pub seed_found :
    Text → Text → Bool → Bool → Node × Bool × World → Result (Seeded × World)
seed_found normalized content overwrite conflicts (node, true, w) =
    ok (written normalized (get_node_version w.mirror node) true, w)
seed_found normalized content false conflicts (node, false, w) =
    let version = get_node_version w.mirror node in
    ok (if conflicts then conflict normalized version else existing normalized version, w)
seed_found normalized content true conflicts (node, false, w) =
    elim (get_node_content w.mirror node == content) [
      | true ↦ ok (written normalized (get_node_version w.mirror node) false, w)
      | false ↦ elim (write_file node content w) [
        | raise e ↦ raise e
        | ok (version, w') ↦ ok (written normalized version false, w')
      ]
    ]

unfoldable pub or_root : Text → Text
or_root [] = text "/"
or_root (c ∷ path) = c ∷ path

-- `seed_workspace_file`, with `overwrite_existing` and `conflict_if_exists`
unfoldable pub seed_workspace_file : Text → Text → Bool → Bool → World → Result (Seeded × World)
seed_workspace_file path content overwrite conflicts w = do
  normalized ← normalize_workspace_path path true
  let (parent_path, name) = rpartition normalized
  (parent, w') ← ensure_virtual_dir_path (or_root parent_path) w
  found ← seed_node normalized content parent name w'
  seed_found normalized content overwrite conflicts found

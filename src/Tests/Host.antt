-- ===== src/Tests/Host.antt =====
-- The writes of the host at the workspace of the commands' examples.
use iruka_virtual_file_syste.Context.{assert_workspace_tenant, Settings, normalize_tenant_id}
use iruka_virtual_file_syste.Dict.{get, values}
use iruka_virtual_file_syste.Host.Api.{
  assert_workspace_access_mode, with_session, write_normalized, same_mode,
  workspace_access_mode_for_runtime, write_workspace_file,
}
use iruka_virtual_file_syste.Host.{
  ensure_virtual_dir_path, or_root, seed_found, seed_node, seed_workspace_file, Seeded, written,
  seeded_path,
}
use iruka_virtual_file_syste.Mirror.Indexing.{mirror_node_path_locked}
use iruka_virtual_file_syste.Mirror.Mutate.{mutate_write_file}
use iruka_virtual_file_syste.Paths.Normalize.{
  absolute, allow_write_path, check_normalized, clean_parts, normalize_workspace_path, vfs_root,
  workspace_access_mode_from_metadata, host,
}
use iruka_virtual_file_syste.Paths.Resolve.{
  find_child, node_path, nodes_of, resolve_parent_for_create, resolve_path, rpartition, walk,
}
use iruka_virtual_file_syste.Paths.{path_is_under}
use iruka_virtual_file_syste.Prelude.{
  option_beq, ◌≡◌, refl, true, false, nat_eq, list_eq, list_beq, ◌==◌, [],
}
use iruka_virtual_file_syste.Repositories.{first_row, get_root}
use iruka_virtual_file_syste.Runtime.Edits.{write_file}
use iruka_virtual_file_syste.Runtime.Search.{find_paths, same_type}
use iruka_virtual_file_syste.Runtime.Targets.{
  detect_ambiguous_create_target, last_part, resolve, resolve_target_path_for_write,
}
use iruka_virtual_file_syste.Runtime.World.{
  get_node_content, get_or_create_root, mutate_workspace_mirror, World,
}
use iruka_virtual_file_syste.Sorting.{sort_by}
use iruka_virtual_file_syste.Text.Strip.{lstrip_char, rstrip_char, strip}
use iruka_virtual_file_syste.Text.{join, split_on, starts_with, Text, text}
use iruka_virtual_file_syste.Result.{Result, ok, raise}
use iruka_virtual_file_syste.Model.{Value}
use iruka_virtual_file_syste.Paths.Clean.{IsNormal}
use iruka_virtual_file_syste.Host.Writes.{write_workspace_file_lem}
use iruka_virtual_file_syste.Tests.Runtime.{ext, world}

abbrev plain : Settings
plain = record {
  default_tenant_id = text "default";
  redis_key_namespace = text "vfs";
  default_scope = text "db";
}

abbrev str : Value → Text
str v = []

-- The text of the file is replaced.
abbrev outcome : Result (Seeded × World)
outcome = write_workspace_file ext str plain (text "t") (text "a.txt") (text "new") true world

abbrev after : World
after = elim outcome [ ok (r, w) ↦ w | raise e ↦ world ]

write_workspace_file_example :
    ((world.mirror.tenant_key == normalize_tenant_id plain (text "t")) ≡ true)
    × (same_mode (workspace_access_mode_for_runtime ext str world) host ≡ true)
    × IsNormal (seeded_path (written (text "/workspace/a.txt") 5 false))
unfolding write_workspace_file assert_workspace_tenant list_beq strip assert_workspace_access_mode
    same_mode workspace_access_mode_from_metadata get normalize_workspace_path clean_parts split_on
    absolute starts_with rstrip_char vfs_root lstrip_char check_normalized path_is_under join
    write_normalized detect_ambiguous_create_target resolve_target_path_for_write
    resolve_parent_for_create rpartition resolve_path with_session walk find_child option_beq
    node_path mirror_node_path_locked resolve find_paths nodes_of sort_by same_type last_part
    allow_write_path seed_workspace_file ensure_virtual_dir_path or_root get_or_create_root get_root
    first_row values seed_node seed_found get_node_content write_file mutate_workspace_mirror
    mutate_write_file
write_workspace_file_example =
    write_workspace_file_lem ext str plain (text "t") (text "a.txt") (text "new") true world after
      (written (text "/workspace/a.txt") 5 false) refl

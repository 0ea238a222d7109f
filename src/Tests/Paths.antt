-- ===== src/Tests/Paths.antt =====
-- The rules on paths at a concrete path.
use iruka_virtual_file_syste.Prelude.{refl, false, list_beq}
use iruka_virtual_file_syste.Text.{text, split_on, starts_with, join}
use iruka_virtual_file_syste.Text.Strip.{strip, rstrip_by, rstrip_char, lstrip_char, rstrip_cons}
use iruka_virtual_file_syste.Paths.{path_is_under}
use iruka_virtual_file_syste.Paths.Normalize.{
  vfs_root, normalize_workspace_path, clean_parts, absolute, check_normalized,
}
use iruka_virtual_file_syste.Paths.Clean.{IsNormal, normalize_workspace_path_lem}

normalize_workspace_path_example : IsNormal (text "/workspace/a/b")
unfolding normalize_workspace_path clean_parts absolute check_normalized vfs_root path_is_under
    strip split_on starts_with join rstrip_by rstrip_char lstrip_char rstrip_cons text list_beq
normalize_workspace_path_example =
    normalize_workspace_path_lem (text "a/./b/") (text "/workspace/a/b") false refl

-- ===== src/Paths.antt =====
-- Paths of a workspace (iruka_vfs/pathing, the path rules of iruka_vfs/service_ops).
pub mod Resolve
pub mod Normalize
pub mod Clean
use iruka_virtual_file_syste.Prelude.{Bool, ◌||◌, [], ◌∷◌, ◌++◌, ◌==◌, list_eq, nat_eq}
use iruka_virtual_file_syste.Text.{Text, text, starts_with}
use iruka_virtual_file_syste.Text.Strip.{rstrip_char}

-- `path.rstrip("/") or "/"`
abbrev pub norm_path : Text → Text
norm_path path = or_root (rstrip_char b'/' path)
  where
    or_root : Text → Text
    or_root [] = text "/"
    or_root (c ∷ s) = c ∷ s

unfoldable pub path_is_under : Text → Text → Bool
path_is_under path root =
    norm_path path == norm_path root || starts_with (norm_path path) (norm_path root ++ text "/")

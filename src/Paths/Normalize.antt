-- ===== src/Paths/Normalize.antt =====
-- `normalize_workspace_path` and `workspace_access_mode_from_metadata` of `service_ops/bootstrap.py`,
-- `normalize_virtual_path` and `allow_write_path` of `service_ops/file_api.py`.
use iruka_virtual_file_syste.Prelude.{
  Bool, true, false, not, ◌&&◌, ◌||◌, Option, none, some, List, [], ◌∷◌, ◌++◌, nat_eq, list_eq,
  int_eq, ◌==◌, if◌then◌else◌,
}
use iruka_virtual_file_syste.Text.{Text, text, starts_with, split_on, join}
use iruka_virtual_file_syste.Text.Strip.{strip, rstrip_char, lstrip_char}
use iruka_virtual_file_syste.Dict.{get}
use iruka_virtual_file_syste.Result.{Result, ok, raise, value_error, ◌>>=◌}
use iruka_virtual_file_syste.Model.{Value, Metadata}
use iruka_virtual_file_syste.Paths.{path_is_under}

-- VFS_ROOT
unfoldable pub vfs_root : Text
unfolding text
vfs_root = text "/workspace"

unfoldable pub missing_path : Text
missing_path = text "workspace path is required"

-- The loop over the parts of the path; the raw path stands in the message.
unfoldable pub clean_parts : Text → List Text → Result (List Text)
clean_parts raw_path [] = ok []
clean_parts raw_path (part ∷ parts) = elim (part == [] || part == text ".") [
  | true ↦ clean_parts raw_path parts
  | false ↦ elim (part == text "..") [
    | true ↦ raise (value_error (text "workspace path cannot contain '..': " ++ raw_path))
    | false ↦ elim (clean_parts raw_path parts) [ raise e ↦ raise e | ok rest ↦ ok (part ∷ rest) ]
  ]
]

-- The absolute path of a stripped path that is not empty.
unfoldable pub absolute : Text → Text
absolute cleaned =
    if starts_with cleaned (text "/")
    then cleaned
    else rstrip_char b'/' vfs_root ++ (text "/" ++ lstrip_char b'/' cleaned)

-- The checks on the normalized path.
unfoldable pub check_normalized : Text → Bool → Text → Result Text
check_normalized raw_path require_file normalized =
    if not (path_is_under normalized vfs_root)
    then raise (
        value_error
          (text "workspace path must stay under " ++ (vfs_root ++ (text ": " ++ raw_path))))
    else if require_file && normalized == vfs_root
    then raise
        (value_error (text "workspace file path must not be the workspace root: " ++ raw_path))
    else ok normalized

-- `normalize_workspace_path`
unfoldable pub normalize_workspace_path : Text → Bool → Result Text
unfolding missing_path
normalize_workspace_path raw_path require_file = elim (strip raw_path) [
  | [] ↦ raise (value_error missing_path)
  | c ∷ s ↦ elim (clean_parts raw_path (split_on b'/' (absolute (c ∷ s)))) [
    | raise e ↦ raise e
    | ok parts ↦ check_normalized raw_path require_file (text "/" ++ join (text "/") parts)
  ]
]

-- `path.rstrip("/") or "/"`
unfoldable pub or_slash : Text → Text
or_slash [] = text "/"
or_slash (c ∷ s) = c ∷ s

-- `normalize_virtual_path`, with the path of the current directory, which only a relative path needs
unfoldable pub normalize_virtual_path : Result Text → Text → Result (Option Text)
unfolding or_slash
normalize_virtual_path cwd_path [] = ok none
normalize_virtual_path cwd_path (c ∷ s) = elim (c == b'/') [
  | true ↦ ok (some (or_slash (rstrip_char b'/' (c ∷ s))))
  | false ↦ do
    cwd ← cwd_path
    let joined =
        if cwd == text "/"
        then text "/" ++ (c ∷ s)
        else rstrip_char b'/' cwd ++ (text "/" ++ (c ∷ s))
    ok (some (or_slash (rstrip_char b'/' joined)))
]

unfoldable pub deny_reason : Text → Text
deny_reason path = text "write denied: path is outside workspace (" ++ (path ++ text ")")

-- `allow_write_path`: the reason of a refusal
unfoldable pub allow_write_path : Text → Option Text
unfolding deny_reason
allow_write_path path = if path_is_under path vfs_root then none else some (deny_reason path)

-- The value of "virtual_access_mode": `host` or `agent`.
pub data AccessMode : Type 0 where
  host agent : AccessMode

-- `workspace_access_mode_from_metadata`, with `str.lower`; a mode that is not a text counts by what
-- the other parameter makes of it, as `str` does
unfoldable pub workspace_access_mode_from_metadata :
    (Text → Text) → (Value → Text) → Metadata → AccessMode
workspace_access_mode_from_metadata lower str metadata =
    elim (get (text "virtual_access_mode") metadata) [
      | none ↦ host
      | some v ↦ if lower (strip (str v)) == text "agent" then agent else host
    ]

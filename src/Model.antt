-- ===== src/Model.antt =====
-- `models.py` and the row types of `dependencies.py`: the file nodes, the mirror that holds a
-- workspace in memory, and the result of a command. Time stamps are not modelled.
use iruka_virtual_file_syste.Prelude.{ℕ, zero, suc, Bool, true, false, Option, List, ℤ}
use iruka_virtual_file_syste.Text.{Text}
use iruka_virtual_file_syste.Dict.{Dict}

pub data NodeType : Type 0 where
  dir file : NodeType

abbrev pub is_dir : NodeType → Bool
is_dir dir = true
is_dir file = false

pub record Node : Type 0 where
  pub id : ℤ
  pub parent_id : Option ℤ
  pub name : Text
  pub node_type : NodeType
  pub content_text : Text
  pub version_no : ℕ

-- The values that the program stores in the metadata of a workspace.
pub data Value : Type 0 where
  text_value : Text → Value
  flag : Bool → Value
  paths : List Text → Value
  path_lists : Dict Text (List Text) → Value

abbrev pub Metadata : Type 0
Metadata = Dict Text Value

pub record WorkspaceMirror : Type 0 where
  pub tenant_key : Text
  pub scope_key : Text
  pub workspace_id : ℤ
  pub root_id : ℤ
  pub session_id : ℤ
  pub cwd_node_id : ℤ
  pub nodes : Dict ℤ Node
  pub path_to_id : Dict Text ℤ
  pub children_by_parent : Dict (Option ℤ) (List ℤ)
  pub workspace_metadata : Metadata
  pub revision : ℕ
  pub checkpoint_revision : ℕ
  pub dirty_content_node_ids : List ℤ
  pub dirty_structure_node_ids : List ℤ
  pub dirty_session : Bool
  pub dirty_workspace_metadata : Bool
  pub next_temp_id : ℤ

-- `int(version_no or 1)`
abbrev pub version_or_one : ℕ → ℕ
version_or_one zero = 1
version_or_one (suc n) = suc n

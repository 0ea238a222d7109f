-- ===== src/Repositories.antt =====
-- The repositories of iruka_vfs/in_memory_repositories.py: dictionaries of rows with counters for
-- the ids. Time stamps are left out.
pub mod Nodes
use iruka_virtual_file_syste.Prelude.{
  ℕ, zero, suc, ◌+◌, Bool, true, false, not, ◌&&◌, ◌||◌, Option, none, some, List, [], ◌∷◌, ◌++◌, ℤ,
  pos, negsuc, int_leb, int_eq, nat_eq, list_eq, option_eq, pair_eq, get_or, keep, ◌==◌,
  if◌then◌else◌, is_some,
}
use iruka_virtual_file_syste.Text.{Text, text}
use iruka_virtual_file_syste.Dict.{Dict, get, put, values}
use iruka_virtual_file_syste.Sorting.{sort_by}
use iruka_virtual_file_syste.Model.{NodeType, dir, file, is_dir, Node, Metadata}
use iruka_virtual_file_syste.Mirror.Indexing.{node_leb}

pub record NodeRow : Type 0 where
  pub tenant_id : Text
  pub workspace_id : ℤ
  pub node : Node

pub record SessionRow : Type 0 where
  pub id : ℤ
  pub tenant_id : Text
  pub workspace_id : ℤ
  pub cwd_node_id : ℤ
  pub env_json : Metadata
  pub status : Text

pub record WorkspaceRow : Type 0 where
  pub id : ℤ
  pub tenant_id : Text
  pub metadata_json : Metadata

pub record RepoState : Type 0 where
  pub next_session_id : ℕ
  pub next_node_id : ℕ
  pub workspaces : Dict (Text × ℤ) WorkspaceRow
  pub sessions : Dict ℤ SessionRow
  pub nodes : Dict ℤ NodeRow

unfoldable pub get_workspace : ℤ → Text → RepoState → Option WorkspaceRow
get_workspace workspace_id tenant_key st = get (tenant_key, workspace_id) st.workspaces

-- A workspace that is missing is made.
unfoldable pub update_workspace_metadata : ℤ → Text → Metadata → RepoState → RepoState
unfolding get_workspace
update_workspace_metadata workspace_id tenant_key metadata_json st =
    let made : WorkspaceRow = record {
      id = workspace_id;
      tenant_id = tenant_key;
      metadata_json = metadata_json;
    } in
    let workspace = get_or (get_workspace workspace_id tenant_key st) made in
    record st {
      workspaces =
          put (tenant_key, workspace_id)
            (record workspace { metadata_json = metadata_json; tenant_id = tenant_key })
            st.workspaces;
    }

-- `next((row for row in rows if test(row)), None)`
unfoldable pub first_row {ℓ} : {A : Type ℓ} → (A → Bool) → List A → Option A
first_row test [] = none
first_row test (row ∷ rows) = if test row then some row else first_row test rows

-- The active sessions of the workspace, the one with the highest id first.
unfoldable pub get_active_session : ℤ → Text → RepoState → Option SessionRow
get_active_session workspace_id tenant_key st = head (
    sort_by (λ a b. int_leb b.id a.id)
      (keep
        (λ s.
          s.workspace_id == workspace_id && s.tenant_id == tenant_key && s.status == text "active")
        (values st.sessions)))
  where
    head : List SessionRow → Option SessionRow
    head [] = none
    head (s ∷ rest) = some s

unfoldable pub create_session : Text → ℤ → ℤ → Metadata → Text → RepoState → SessionRow × RepoState
create_session tenant_key workspace_id cwd_node_id env_json status st =
    let session : SessionRow = record {
      id = pos st.next_session_id;
      tenant_id = tenant_key;
      workspace_id = workspace_id;
      cwd_node_id = cwd_node_id;
      env_json = env_json;
      status = status;
    } in
    (
      session,
      record st {
        next_session_id = suc st.next_session_id;
        sessions = put session.id session st.sessions;
      },
    )

unfoldable pub update_session_cwd : ℤ → Text → ℤ → RepoState → RepoState
update_session_cwd session_id tenant_key cwd_node_id st = elim (get session_id st.sessions) [
  | none ↦ st
  | some session ↦
      if session.tenant_id == tenant_key
      then record st {
        sessions = put session_id (record session { cwd_node_id = cwd_node_id }) st.sessions;
      }
      else st
]

unfoldable pub get_root : ℤ → Text → RepoState → Option NodeRow
get_root workspace_id tenant_key st =
    first_row
      (λ row.
        row.tenant_id == tenant_key
        && row.workspace_id == workspace_id
        && not (is_some row.node.parent_id)
        && row.node.name == [])
      (values st.nodes)

-- `int(getattr(node, "parent_id", -1) or -1)`
unfoldable pub parent_or_minus_one : Option ℤ → ℤ
parent_or_minus_one none = negsuc 0
parent_or_minus_one (some p) = if p == pos 0 then negsuc 0 else p

unfoldable pub get_child : Text → ℤ → ℤ → Text → NodeType → RepoState → Option NodeRow
unfolding parent_or_minus_one
get_child tenant_key workspace_id parent_id name node_type st =
    first_row
      (λ row.
        row.tenant_id == tenant_key
        && row.workspace_id == workspace_id
        && parent_or_minus_one row.node.parent_id == parent_id
        && row.node.name == name
        && same_type row.node.node_type node_type)
      (values st.nodes)
  where
    same_type : NodeType → NodeType → Bool
    same_type dir t = is_dir t
    same_type file t = not (is_dir t)

unfoldable pub create_node :
    Text → ℤ → Option ℤ → Text → NodeType → Text → ℕ → RepoState → NodeRow × RepoState
create_node tenant_key workspace_id parent_id name node_type content_text version_no st =
    let row : NodeRow = record {
      tenant_id = tenant_key;
      workspace_id = workspace_id;
      node = record {
        id = pos st.next_node_id;
        parent_id = parent_id;
        name = name;
        node_type = node_type;
        content_text = content_text;
        version_no = version_no;
      };
    } in
    (
      row,
      record st {
        next_node_id = suc st.next_node_id;
        nodes = put (pos st.next_node_id) row st.nodes;
      },
    )

unfoldable pub get_node : ℤ → Text → RepoState → Option NodeRow
get_node node_id tenant_key st = elim (get node_id st.nodes) [
  | none ↦ none
  | some row ↦ if row.tenant_id == tenant_key then some row else none
]

-- By parent, where a row without parent counts as -1, then by type, then by name.
unfoldable pub row_leb : NodeRow → NodeRow → Bool
row_leb a b =
    let p = sort_parent a.node.parent_id in
    let q = sort_parent b.node.parent_id in if p == q then node_leb a.node b.node else int_leb p q
  where
    sort_parent : Option ℤ → ℤ
    sort_parent none = negsuc 0
    sort_parent (some p) = p

unfoldable pub list_workspace_nodes : ℤ → Text → RepoState → List NodeRow
unfolding row_leb
list_workspace_nodes workspace_id tenant_key st = sort_by row_leb (
    keep (λ row. row.tenant_id == tenant_key && row.workspace_id == workspace_id) (values st.nodes))

unfoldable pub update_node_content :
    ℤ → Text → Option ℤ → Text → NodeType → Text → ℕ → RepoState → RepoState
update_node_content node_id tenant_key parent_id name node_type content_text version_no st =
    elim (get_node node_id tenant_key st) [
      | none ↦ st
      | some row ↦ record st {
        nodes =
            put node_id
              (record row {
                node = record row.node {
                  parent_id = parent_id;
                  name = name;
                  node_type = node_type;
                  content_text = content_text;
                  version_no = version_no;
                };
              })
              st.nodes;
      }
    ]

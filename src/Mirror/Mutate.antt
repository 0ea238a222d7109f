-- ===== src/Mirror/Mutate.antt =====
-- The mutations of `runtime/filesystem.py`, `runtime/fs_commands.py` and `runtime/executor.py`.
-- Each takes a mirror and returns its result, whether it changed the mirror, and the mirror.
use iruka_virtual_file_syste.Prelude.{
  ℕ, ◌+◌, Bool, true, false, not, none, some, List, [], ◌∷◌, ◌++◌, ℤ, pred_int, keep, contains,
  get_or, int_eq, option_eq, list_eq, nat_eq, ◌==◌, if◌then◌else◌,
}
use iruka_virtual_file_syste.Text.{Text, text}
use iruka_virtual_file_syste.Text.Strip.{rstrip_char}
use iruka_virtual_file_syste.Text.Number.{show_int}
use iruka_virtual_file_syste.Dict.{get, put, remove}
use iruka_virtual_file_syste.Result.{
  Result, ok, value_error, key_error, require, guard, ◌>>=◌, ◌>>◌,
}
use iruka_virtual_file_syste.Model.{
  NodeType, dir, file, is_dir, Node, WorkspaceMirror, version_or_one,
}
use iruka_virtual_file_syste.Mirror.Indexing.{
  ensure_children_sorted_locked, mirror_node_path_locked, append_child,
  rebuild_workspace_mirror_indexes_locked,
}

-- `mirror.dirty_….add(node_id)`
unfoldable pub add_id : ℤ → List ℤ → List ℤ
add_id i ids = if contains i ids then ids else ids ++ (i ∷ [])

-- `mirror.dirty_….discard(node_id)`
unfoldable pub discard_id : ℤ → List ℤ → List ℤ
discard_id i = keep (λ j. not (j == i))

abbrev pub Mutation {ℓ} : Type ℓ → Type ℓ
Mutation A = WorkspaceMirror → Result (A × Bool × WorkspaceMirror)

-- `f"{parent_path.rstrip('/')}/{name}" if parent_path != "/" else f"/{name}"`
unfoldable pub child_path : Text → Text → Text
child_path parent_path name =
    if parent_path == text "/"
    then text "/" ++ name
    else rstrip_char b'/' parent_path ++ text "/" ++ name

-- The branch that makes the node.
unfoldable pub add_child : NodeType → ℤ → Text → Text → Text → Mutation Node
add_child kind parent_id name content target_path m = do
  let node : Node = record {
    id = m.next_temp_id;
    parent_id = some parent_id;
    name = name;
    node_type = kind;
    content_text = content;
    version_no = 1;
  }
  let nodes = put node.id node m.nodes
  children ←
      ensure_children_sorted_locked nodes (some parent_id)
        (append_child (some parent_id) node.id m.children_by_parent)
  ok (
    node,
    true,
    record m {
      next_temp_id = pred_int m.next_temp_id;
      nodes = nodes;
      children_by_parent = children;
      path_to_id = put target_path node.id m.path_to_id;
      dirty_structure_node_ids = add_id node.id m.dirty_structure_node_ids;
      revision = m.revision + 1;
    },
  )

invalid_parent : ℤ → Text
invalid_parent i = text "invalid virtual parent: " ++ show_int i

unfoldable pub get_or_create_child : NodeType → ℤ → Text → Text → Mutation Node
unfolding add_child invalid_parent
get_or_create_child kind parent_id name content m = do
  parent ← require (value_error (invalid_parent parent_id)) (get parent_id m.nodes)
  guard (is_dir parent.node_type) (value_error (invalid_parent parent_id))
  parent_path ← mirror_node_path_locked m.nodes parent
  let target_path = child_path parent_path name
  elim (get target_path m.path_to_id) [
    | some existing_id ↦ do
      existing ← require key_error (get existing_id m.nodes)
      ok (existing, false, m)
    | none ↦ add_child kind parent_id name content target_path m
  ]

-- `_mutate_get_or_create_child_dir`
unfoldable pub mutate_get_or_create_child_dir : ℤ → Text → Mutation Node
unfolding get_or_create_child
mutate_get_or_create_child_dir parent_id name = get_or_create_child dir parent_id name []

-- `_mutate_get_or_create_child_file`
unfoldable pub mutate_get_or_create_child_file : ℤ → Text → Text → Mutation Node
unfolding get_or_create_child
mutate_get_or_create_child_file = get_or_create_child file

-- The node of the mirror, or the caller's copy of it, which then enters the mirror.
unfoldable pub adopt_node : Node → WorkspaceMirror → Result (Node × WorkspaceMirror)
adopt_node node m = elim (get node.id m.nodes) [
  | some mirror_node ↦ ok (mirror_node, m)
  | none ↦ do
    m' ← rebuild_workspace_mirror_indexes_locked (record m { nodes = put node.id node m.nodes })
    ok (node, m')
]

-- `_mutate_write_file`
unfoldable pub mutate_write_file : Node → Text → Mutation ℕ
unfolding adopt_node
mutate_write_file node content m = do
  (mirror_node, m') ← adopt_node node m
  let next_version = version_or_one mirror_node.version_no + 1
  let written : Node = record mirror_node { content_text = content; version_no = next_version }
  ok (
    next_version,
    true,
    record m' {
      nodes = put mirror_node.id written m'.nodes;
      dirty_content_node_ids = add_id mirror_node.id m'.dirty_content_node_ids;
      revision = m'.revision + 1;
    },
  )

-- `_mutate_move_node`
unfoldable pub mutate_move_node : Node → ℤ → Text → Mutation ℕ
unfolding adopt_node
mutate_move_node node parent_id name m = do
  (mirror_node, m') ← adopt_node node m
  let next_version = version_or_one mirror_node.version_no + 1
  let moved : Node = record mirror_node {
    parent_id = some parent_id;
    name = name;
    version_no = next_version;
  }
  m'' ← rebuild_workspace_mirror_indexes_locked (record m' {
    nodes = put mirror_node.id moved m'.nodes;
    dirty_structure_node_ids = add_id mirror_node.id m'.dirty_structure_node_ids;
    revision = m'.revision + 1;
  })
  ok (next_version, true, m'')

-- `_mutate_delete_node`
unfoldable pub mutate_delete_node : Node → Mutation Bool
mutate_delete_node node m = elim (get node.id m.nodes) [
  | none ↦ ok (false, false, m)
  | some mirror_node ↦ do
    m' ← rebuild_workspace_mirror_indexes_locked (record m {
      nodes = remove node.id m.nodes;
      dirty_structure_node_ids = discard_id node.id m.dirty_structure_node_ids;
      dirty_content_node_ids = discard_id node.id m.dirty_content_node_ids;
    })
    ok (true, true, record m' { revision = m'.revision + 1 })
]

-- `_mutate_touch_existing_file`, which also sets the node's time stamp
unfoldable pub mutate_touch_existing_file : Node → Mutation Bool
mutate_touch_existing_file node m =
    let mirror_node = get_or (get node.id m.nodes) node in
    ok (
      true,
      true,
      record m {
        dirty_content_node_ids = add_id mirror_node.id m.dirty_content_node_ids;
        revision = m.revision + 1;
      },
    )

-- `_mutate_cd`
unfoldable pub mutate_cd : ℤ → Mutation Bool
mutate_cd cwd_node_id m =
    if m.cwd_node_id == cwd_node_id
    then ok (false, false, m)
    else ok (
      true,
      true,
      record m { cwd_node_id = cwd_node_id; dirty_session = true; revision = m.revision + 1 },
    )

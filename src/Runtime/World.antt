-- ===== src/Runtime/World.antt =====
-- What a command reads and changes, and the transactions of `mirror/mutation.py`.
use iruka_virtual_file_syste.Prelude.{
  ℕ, Bool, true, false, Option, none, some, List, [], ◌++◌, ℤ, pos, get_or, nat_eq, int_eq, list_eq,
  ◌==◌, if◌then◌else◌,
}
use iruka_virtual_file_syste.Text.{Text, text}
use iruka_virtual_file_syste.Text.Number.{show_int}
use iruka_virtual_file_syste.Dict.{Dict, get}
use iruka_virtual_file_syste.Result.{Result, ok, raise, value_error}
use iruka_virtual_file_syste.Model.{dir, Node, WorkspaceMirror, version_or_one}
use iruka_virtual_file_syste.Mirror.Mutate.{Mutation}
use iruka_virtual_file_syste.Checkpoint.{mirror_has_dirty_state}
use iruka_virtual_file_syste.Store.{
  WorkspaceStateRef, LocalCheckpointState, enqueue_workspace_checkpoint, mark_workspace_dirty,
  clear_workspace_dirty,
}
use iruka_virtual_file_syste.Repositories.{RepoState, get_root, create_node, get_node}
use iruka_virtual_file_syste.Command.Heredoc.{Lexed}
use iruka_virtual_file_syste.Editing.Patch.{Conflict}

-- The mirror that the store holds and the agent shell has made active, the store's checkpoint
-- state, the in-memory repositories, the session's current directory, the last patch id,
-- and the time that a checkpoint is enqueued with.
pub record World : Type 0 where
  pub mirror : WorkspaceMirror
  pub checkpoints : LocalCheckpointState
  pub repo : RepoState
  pub cwd_node_id : ℤ
  pub ephemeral_patch_id : ℕ
  pub clock : ℕ

-- The functions of Python's library that commands call, and the time stamps, which the mirror of
-- this model does not have: `fnmatch.fnmatchcase`, `re.compile` with `search`, `str.lower`,
-- `shlex.quote`, the lexers, `str.split`, `PurePosixPath`, `json.dumps` of the conflicts of a patch,
-- and the text of a node's time of change.
pub record Externals : Type 0 where
  pub fnmatchcase : Text → Text → Bool
  pub compile : Text → Option (Text → Bool)
  pub lower : Text → Text
  pub quote : Text → Text
  pub lexer : Text → Lexed
  pub shlex_split : Text → Lexed
  pub str_split : Text → List Text
  pub path_name : Text → Text
  pub path_parent : Text → Text
  pub dumps : List Conflict → Text
  pub mtime : Node → Text

-- An entry of a result's artifacts.
pub data Artifact : Type 0 where
  null : Artifact
  text_value : Text → Artifact
  number : ℤ → Artifact
  flag : Bool → Artifact
  texts : List Text → Artifact
  conflicts : List Conflict → Artifact

abbrev pub Artifacts : Type 0
Artifacts = Dict Text Artifact

pub record VirtualCommandResult : Type 0 where
  pub stdout : Text
  pub stderr : Text
  pub exit_code : ℕ
  pub artifacts : Artifacts

-- What a command returns: its result and the world after it, or an exception.
abbrev pub Outcome : Type 0
Outcome = Result (VirtualCommandResult × World)

abbrev pub succeed : Text → Artifacts → World → Outcome
succeed stdout artifacts w =
    ok (record { stdout = stdout; stderr = []; exit_code = 0; artifacts = artifacts }, w)

abbrev pub fail_with : ℕ → Text → Artifacts → World → Outcome
fail_with code stderr artifacts w =
    ok (record { stdout = []; stderr = stderr; exit_code = code; artifacts = artifacts }, w)

abbrev pub fail : Text → Artifacts → World → Outcome
fail = fail_with 1

unfoldable pub ref_of : WorkspaceMirror → WorkspaceStateRef
ref_of m = record {
  tenant_key = m.tenant_key;
  workspace_id = m.workspace_id;
  scope_key = m.scope_key;
}

-- `LocalMemoryStateStore.set_workspace_mirror`
unfoldable pub set_workspace_mirror : WorkspaceMirror → World → World
set_workspace_mirror m w = record w {
  mirror = m;
  checkpoints =
      if mirror_has_dirty_state m
      then enqueue_workspace_checkpoint (ref_of m) w.clock false
          (mark_workspace_dirty (ref_of m) w.checkpoints)
      else clear_workspace_dirty (ref_of m) w.checkpoints;
}

-- `mutate_workspace_mirror` of a mirror that is there
unfoldable pub mutate_workspace_mirror {ℓ} : {A : Type ℓ} → Mutation A → World → Result (A × World)
mutate_workspace_mirror mutate w = elim (mutate w.mirror) [
  | raise e ↦ raise e
  | ok (result, changed, m) ↦
      ok (result, if changed then set_workspace_mirror m w else record w { mirror = m })
]

unfoldable pub mirror_node : WorkspaceMirror → Node → Node
mirror_node m node = get_or (get node.id m.nodes) node

-- `get_node_content`
unfoldable pub get_node_content : WorkspaceMirror → Node → Text
unfolding mirror_node
get_node_content m node = (mirror_node m node).content_text

-- `get_node_version`
unfoldable pub get_node_version : WorkspaceMirror → Node → ℕ
unfolding mirror_node
get_node_version m node = version_or_one (mirror_node m node).version_no

-- `get_or_create_root`, of the repository
unfoldable pub get_or_create_root : World → Node × World
get_or_create_root w = elim (get_root w.mirror.workspace_id w.mirror.tenant_key w.repo) [
  | some row ↦ (row.node, w)
  | none ↦
      let (row, repo) =
        create_node w.mirror.tenant_key w.mirror.workspace_id none [] dir [] 1 w.repo in
      (row.node, record w { repo = repo })
]

-- `must_get_node`
unfoldable pub must_get_node : ℤ → World → Result Node
must_get_node i w = elim (i == pos 0) [
  | true ↦ raise (value_error (text "missing virtual node id"))
  | false ↦ elim (get i w.mirror.nodes) [
    | some node ↦ ok node
    | none ↦ elim (get_node i w.mirror.tenant_key w.repo) [
      | some row ↦ ok row.node
      | none ↦ raise (value_error (text "virtual node not found: " ++ show_int i))
    ]
  ]
]

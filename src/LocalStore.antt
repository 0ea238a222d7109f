-- ===== src/LocalStore.antt =====
-- `LocalMemoryStateStore` of iruka_vfs/workspace_state_store.py with the mirrors that it holds, their
-- index and its checkpoint state, and the reading of a queue token. The locks are not modelled.
pub mod Comparisons
pub mod Implements
pub mod Refinement
pub mod Tokens
use iruka_virtual_file_syste.Prelude.{
  ℕ, zero, suc, Bool, true, false, not, ◌&&◌, Option, none, some, List, [], ◌∷◌, ◌++◌, ℤ, int_eq,
  nat_eq, list_eq, option_eq, Eq, ◌==◌, ◌≡◌, ◌↔◌, arith, is_some, if◌then◌else◌, list_beq_iff,
  option_beq_iff,
}
use iruka_virtual_file_syste.Text.{Text, text}
use iruka_virtual_file_syste.Dict.{Dict, get, put, remove}
use iruka_virtual_file_syste.Result.{Result, ok, raise, value_error}
use iruka_virtual_file_syste.Model.{WorkspaceMirror}
use iruka_virtual_file_syste.Checkpoint.{mirror_has_dirty_state}
use iruka_virtual_file_syste.Context.{
  Settings, ActiveContext, active_workspace_mirror, effective_tenant_key, effective_workspace_scope,
  workspace_base_key,
}
use iruka_virtual_file_syste.Store.{
  WorkspaceStateRef, LocalCheckpointState, enqueue_workspace_checkpoint, mark_workspace_dirty,
  clear_workspace_dirty, clear_error_payload, clear_dead_letter_payload, clear_retry_count,
  clear_checkpoint_schedule,
}

-- `(tenant_key, workspace_id, scope_key)`; the scope is `None` in the entry for any scope
pub record IndexKey : Type 0 where
  pub tenant_key : Text
  pub workspace_id : ℤ
  pub scope_key : Option Text

abbrev pub same_key : IndexKey → IndexKey → Bool
same_key a b =
    a.workspace_id == b.workspace_id && a.tenant_key == b.tenant_key && a.scope_key == b.scope_key

pub same_key_iff : (a b : IndexKey) → (same_key a b ≡ true) ↔ (a ≡ b)
same_key_iff a b = (
  λ h. ground (
    arith,
    int_eq.beq_iff a.workspace_id b.workspace_id,
    list_beq_iff a.tenant_key b.tenant_key,
    option_beq_iff a.scope_key b.scope_key,
  ),
  λ h. ground (
    arith,
    h,
    int_eq.beq_iff a.workspace_id b.workspace_id,
    list_beq_iff a.tenant_key b.tenant_key,
    option_beq_iff a.scope_key b.scope_key,
  ),
)

instance abbrev pub key_eq : Eq IndexKey
key_eq = record { beq = same_key; beq_iff = same_key_iff }

-- The state of the store, with what its thread has made active.
pub record LocalState : Type 0 where
  pub settings : Settings
  pub context : ActiveContext
  pub local_workspace_mirrors : Dict Text WorkspaceMirror
  pub local_workspace_indexes : Dict IndexKey Text
  pub local_checkpoint_state : LocalCheckpointState

-- `workspace_ref(mirror=mirror)`
unfoldable pub workspace_ref : WorkspaceMirror → WorkspaceStateRef
workspace_ref mirror = record {
  tenant_key = mirror.tenant_key;
  workspace_id = mirror.workspace_id;
  scope_key = mirror.scope_key;
}

-- `workspace_ref(workspace_id=…, tenant_key=…, scope_key=…)`
unfoldable pub workspace_ref_of_id : Option ℤ → Text → Text → LocalState → Result WorkspaceStateRef
workspace_ref_of_id none tenant_key scope_key st =
    raise (value_error (text "workspace_id is required when mirror is not provided"))
workspace_ref_of_id (some workspace_id) tenant_key scope_key st = ok (record {
  tenant_key = effective_tenant_key st.settings st.context tenant_key;
  workspace_id = workspace_id;
  scope_key = effective_workspace_scope st.settings st.context scope_key;
})

unfoldable pub base_key : LocalState → WorkspaceStateRef → Text
base_key st ref =
    workspace_base_key st.settings st.context ref.tenant_key ref.workspace_id ref.scope_key

unfoldable pub index_key : WorkspaceStateRef → IndexKey
index_key ref = record {
  tenant_key = ref.tenant_key;
  workspace_id = ref.workspace_id;
  scope_key = some ref.scope_key;
}

unfoldable pub any_scope : WorkspaceStateRef → IndexKey
any_scope ref = record {
  tenant_key = ref.tenant_key;
  workspace_id = ref.workspace_id;
  scope_key = none;
}

-- The workspace that a call names, its tenant and scope resolved.
unfoldable pub resolve_ref : ℤ → Text → Text → LocalState → WorkspaceStateRef
resolve_ref workspace_id tenant_key scope_key st = record {
  tenant_key = effective_tenant_key st.settings st.context tenant_key;
  workspace_id = workspace_id;
  scope_key = effective_workspace_scope st.settings st.context scope_key;
}

-- `indexes.get(key)`, where an empty base key counts as missing
unfoldable pub indexed : IndexKey → LocalState → Option Text
indexed key st = elim (get key st.local_workspace_indexes) [
  | none ↦ none
  | some k ↦ if k == [] then none else some k
]

unfoldable pub lookup_mirror : Option Text → LocalState → Option WorkspaceMirror
lookup_mirror none st = none
lookup_mirror (some k) st = get k st.local_workspace_mirrors

-- `get_workspace_mirror`; a scope that is not given is `none`
unfoldable pub get_workspace_mirror : ℤ → Text → Option Text → LocalState → Option WorkspaceMirror
unfolding resolve_ref indexed lookup_mirror
get_workspace_mirror workspace_id tenant_key scope_key st =
    elim (active_workspace_mirror (some workspace_id) st.context) [
      | some active ↦ some active
      | none ↦ elim scope_key [
        | some scope ↦
            lookup_mirror (indexed (index_key (resolve_ref workspace_id tenant_key scope st)) st) st
        | none ↦
            let ref = resolve_ref workspace_id tenant_key [] st in
            elim (indexed (index_key ref) st) [
              | some k ↦ get k st.local_workspace_mirrors
              | none ↦ lookup_mirror (indexed (any_scope ref) st) st
            ]
      ]
    ]

unfoldable pub load_workspace_mirror : WorkspaceStateRef → LocalState → Option WorkspaceMirror
unfolding base_key
load_workspace_mirror ref st = get (base_key st ref) st.local_workspace_mirrors

-- `set_workspace_mirror`, at the time `now`
unfoldable pub set_workspace_mirror : ℕ → WorkspaceMirror → LocalState → LocalState
unfolding base_key
set_workspace_mirror now mirror st =
    let ref = workspace_ref mirror in
    let k = base_key st ref in
    record st {
      local_workspace_mirrors = put k mirror st.local_workspace_mirrors;
      local_workspace_indexes =
          put (any_scope ref) k (put (index_key ref) k st.local_workspace_indexes);
      local_checkpoint_state =
          if mirror_has_dirty_state mirror
          then enqueue_workspace_checkpoint ref now false
              (mark_workspace_dirty ref st.local_checkpoint_state)
          else clear_workspace_dirty ref st.local_checkpoint_state;
    }

-- What `delete_workspace_mirror` clears of the checkpoint state.
unfoldable pub forget_checkpoints : WorkspaceStateRef → LocalCheckpointState → LocalCheckpointState
forget_checkpoints ref st = clear_workspace_dirty ref (
    clear_checkpoint_schedule ref
      (clear_retry_count ref (clear_dead_letter_payload ref (clear_error_payload ref st))))

-- The deletion of the mirror under a base key.
unfoldable pub drop_mirror : WorkspaceStateRef → Text → LocalState → LocalState
drop_mirror ref k st =
    let indexes = remove (index_key ref) st.local_workspace_indexes in
    record st {
      local_workspace_mirrors = remove k st.local_workspace_mirrors;
      local_workspace_indexes =
          if get (any_scope ref) indexes == some k then remove (any_scope ref) indexes else indexes;
      local_checkpoint_state = forget_checkpoints ref st.local_checkpoint_state;
    }

-- `delete_workspace_mirror` with the base key that the index holds. An empty one is popped from the
-- index, and nothing else is.
unfoldable pub delete_indexed : WorkspaceStateRef → Option Text → LocalState → LocalState
delete_indexed ref none st = st
delete_indexed ref (some []) st = record st {
  local_workspace_indexes = remove (index_key ref) st.local_workspace_indexes;
}
delete_indexed ref (some (c ∷ k)) st = drop_mirror ref (c ∷ k) st

unfoldable pub delete_workspace_mirror : ℤ → Text → Text → LocalState → LocalState
delete_workspace_mirror workspace_id tenant_key scope_key st =
    let ref = resolve_ref workspace_id tenant_key scope_key st in
    delete_indexed ref (get (index_key ref) st.local_workspace_indexes) st

-- `s.split(c, 1)`: the parts before and after the first `c`
unfoldable pub split_once : ℕ → Text → Option (Text × Text)
split_once c [] = none
split_once c (d ∷ s) = let rest = split_once c s in split_rest (d == c) d s rest
  where
    split_rest : Bool → ℕ → Text → Option (Text × Text) → Option (Text × Text)
    split_rest true d s rest = some ([], s)
    split_rest false d s none = none
    split_rest false d s (some (a, b)) = some (d ∷ a, b)

-- `_workspace_ref_from_token`, where `parse_int` is Python's `int` of a text
unfoldable pub workspace_ref_from_token : (Text → Option ℤ) → Text → Option WorkspaceStateRef
unfolding split_once
workspace_ref_from_token parse_int token = elim (split_once b'|' token) [
  | none ↦ none
  | some (tenant_key, rest) ↦ elim (split_once b'|' rest) [
    | none ↦ none
    | some (number, scope_key) ↦ elim (parse_int number) [
      | none ↦ none
      | some workspace_id ↦
          some
            (record { tenant_key = tenant_key; workspace_id = workspace_id; scope_key = scope_key })
    ]
  ]
]

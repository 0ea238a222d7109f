-- ===== src/Context.antt =====
-- `mirror/context.py` and `mirror/keys.py`: the active workspace, tenant and scope of a thread, and
-- the keys under which a workspace is stored. The settings are those of `dependencies.py`; the scope
-- that is hashed from the database's address is a setting here.
pub mod Keys
use iruka_virtual_file_syste.Prelude.{
  Bool, true, false, not, ◌&&◌, Option, none, some, List, [], ◌∷◌, ◌++◌, ℤ, int_eq, nat_eq, list_eq,
  ◌==◌, get_or, if◌then◌else◌,
}
use iruka_virtual_file_syste.Text.{Text, text}
use iruka_virtual_file_syste.Text.Strip.{strip}
use iruka_virtual_file_syste.Text.Number.{show_int}
use iruka_virtual_file_syste.Result.{Result, ok, raise, permission_error}
use iruka_virtual_file_syste.Model.{WorkspaceMirror}

pub record Settings : Type 0 where
  pub default_tenant_id : Text
  pub redis_key_namespace : Text
  -- `hashlib.sha1(base.encode("utf-8")).hexdigest()[:12]` of `database_url or "default-db"`
  pub default_scope : Text

-- `runtime_state.active_workspace_context`
pub record ActiveContext : Type 0 where
  pub mirror : Option WorkspaceMirror
  pub tenant_key : Option Text
  pub scope_key : Option Text

-- `a or b` of two texts
unfoldable pub or_else : Text → Text → Text
or_else [] b = b
or_else (c ∷ a) b = c ∷ a

-- `str(value) if value else None`
unfoldable pub filled : Text → Option Text
filled [] = none
filled (c ∷ a) = some (c ∷ a)

unfoldable pub active_workspace_mirror : Option ℤ → ActiveContext → Option WorkspaceMirror
active_workspace_mirror none context = context.mirror
active_workspace_mirror (some workspace_id) context = elim context.mirror [
  | none ↦ none
  | some mirror ↦ if mirror.workspace_id == workspace_id then some mirror else none
]

unfoldable pub active_workspace_tenant : ActiveContext → Option Text
unfolding filled
active_workspace_tenant context = elim context.tenant_key [
  | some tenant_key ↦ filled tenant_key
  | none ↦ elim context.mirror [ none ↦ none | some mirror ↦ some mirror.tenant_key ]
]

unfoldable pub active_workspace_scope : ActiveContext → Option Text
unfolding filled
active_workspace_scope context = elim context.scope_key [
  | some scope_key ↦ filled scope_key
  | none ↦ elim context.mirror [ none ↦ none | some mirror ↦ some mirror.scope_key ]
]

-- A key that is not given is the empty text.
unfoldable pub effective_tenant_key : Settings → ActiveContext → Text → Text
unfolding or_else
effective_tenant_key settings context explicit =
    or_else (strip (or_else explicit (get_or (active_workspace_tenant context) [])))
      settings.default_tenant_id

unfoldable pub effective_workspace_scope : Settings → ActiveContext → Text → Text
unfolding or_else
effective_workspace_scope settings context explicit =
    or_else (strip (or_else explicit (get_or (active_workspace_scope context) [])))
      settings.default_scope

unfoldable pub normalize_tenant_id : Settings → Text → Text
unfolding or_else
normalize_tenant_id settings tenant_id = or_else (strip tenant_id) settings.default_tenant_id

-- `workspace_tenant_key`, with the texts of "tenant_id" and "tenant" in the metadata, which are
-- empty where they are missing
unfoldable pub workspace_tenant_key : Settings → Text → Text → Text → Text
unfolding or_else
workspace_tenant_key settings tenant_id metadata_tenant_id metadata_tenant =
    or_else
      (strip (
        or_else tenant_id
          (or_else metadata_tenant_id (or_else metadata_tenant settings.default_tenant_id))))
      settings.default_tenant_id

-- `assert_workspace_tenant` of a workspace with the expected tenant
unfoldable pub assert_workspace_tenant : Settings → Text → Text → Result Text
unfolding normalize_tenant_id
assert_workspace_tenant settings expected tenant_id =
    let requested = normalize_tenant_id settings tenant_id in
    if expected == requested
    then ok expected
    else raise (
        permission_error (
          text "tenant mismatch: workspace tenant is '"
          ++ expected
          ++ text "', requested '"
          ++ requested
          ++ text "'"))

-- `set_active_workspace_mirror`, `set_active_workspace_tenant`, `set_active_workspace_scope`
unfoldable pub set_active_workspace_mirror : Option WorkspaceMirror → ActiveContext → ActiveContext
set_active_workspace_mirror mirror context = record context { mirror = mirror }

unfoldable pub set_active_workspace_tenant : Option Text → ActiveContext → ActiveContext
set_active_workspace_tenant tenant_key context = record context { tenant_key = tenant_key }

unfoldable pub set_active_workspace_scope : Option Text → ActiveContext → ActiveContext
set_active_workspace_scope scope_key context = record context { scope_key = scope_key }

-- What stands between the scope, the tenant and the number of a workspace in its key.
unfoldable pub scoped_key : Settings → Text → Text → Text → ℤ → Text
scoped_key settings scope tenant_key label workspace_id =
    settings.redis_key_namespace
    ++ (text ":vfs:scope:"
        ++ (scope
            ++ (text ":tenant:" ++ (tenant_key ++ (label ++ (b':' ∷ show_int workspace_id))))))

unfoldable pub workspace_base_key : Settings → ActiveContext → Text → ℤ → Text → Text
unfolding scoped_key
workspace_base_key settings context tenant_key workspace_id scope_key =
    scoped_key settings (effective_workspace_scope settings context scope_key) tenant_key
      (text ":workspace") workspace_id

unfoldable pub workspace_index_key : Settings → ActiveContext → Text → ℤ → Text → Text
unfolding scoped_key
workspace_index_key settings context tenant_key workspace_id scope_key =
    scoped_key settings (effective_workspace_scope settings context scope_key) tenant_key
      (text ":workspace-index") workspace_id

unfoldable pub workspace_latest_index_key : Settings → Text → ℤ → Text
workspace_latest_index_key settings tenant_key workspace_id =
    settings.redis_key_namespace
    ++ (text ":vfs:tenant:"
        ++ (tenant_key ++ (text ":workspace-index-latest:" ++ show_int workspace_id)))

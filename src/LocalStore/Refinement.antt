-- ===== src/LocalStore/Refinement.antt =====
-- `LocalMemoryStateStore` is a map from tenant and number to mirror, for the workspaces of a scope.
use mathlib.Core.Path.{subst}
use iruka_virtual_file_syste.Prelude.{
  ℕ, ◌≡◌, refl, ap, sym, ◌∙◌, Option, none, some, List, [], ◌∷◌, ℤ,
}
use iruka_virtual_file_syste.Text.{Text}
use iruka_virtual_file_syste.Dict.{get}
use iruka_virtual_file_syste.Model.{WorkspaceMirror}
use iruka_virtual_file_syste.Store.{WorkspaceStateRef}
use iruka_virtual_file_syste.Context.{
  Settings, ActiveContext, effective_tenant_key, effective_workspace_scope,
}
use iruka_virtual_file_syste.LocalStore.{
  key_eq, index_key, resolve_ref, LocalState, get_workspace_mirror, load_workspace_mirror,
  set_workspace_mirror, delete_workspace_mirror, delete_indexed, drop_mirror,
}
use iruka_virtual_file_syste.LocalStore.Comparisons.{ref}
use iruka_virtual_file_syste.LocalStore.Implements.{
  Mirrors, assign, forget, Implements, set_workspace_mirror-Implements,
  delete_workspace_mirror-Implements, get_workspace_mirror-Implements,
}

-- A change of the store: a mirror is set at a time, or the one of a number and tenant is deleted.
pub data Change : Type 0 where
  set_mirror : ℕ → WorkspaceMirror → Change
  delete_mirror : ℤ → Text → Change

abbrev pub InScope : Text → List Change → Type 0
InScope scope [] = Unit
InScope scope (set_mirror now mirror ∷ changes) = (mirror.scope_key ≡ scope) × InScope scope changes
InScope scope (delete_mirror i tenant ∷ changes) = InScope scope changes

unfoldable pub run_changes : Text → List Change → LocalState → LocalState
run_changes scope [] st = st
run_changes scope (set_mirror now mirror ∷ changes) st =
    run_changes scope changes (set_workspace_mirror now mirror st)
run_changes scope (delete_mirror i tenant ∷ changes) st =
    run_changes scope changes (delete_workspace_mirror i tenant scope st)

unfoldable pub changed : Settings → ActiveContext → List Change → Mirrors → Mirrors
changed settings context [] mirrors = mirrors
changed settings context (set_mirror now mirror ∷ changes) mirrors =
    changed settings context changes (assign mirror mirrors)
changed settings context (delete_mirror i tenant ∷ changes) mirrors =
    changed settings context changes
      (forget (effective_tenant_key settings context tenant) i mirrors)

-- What every change keeps.
record Keeps (scope : Text) (settings : Settings) (context : ActiveContext) (mirrors : Mirrors)
    (st : LocalState) : Type 0 where
  settings_kept : st.settings ≡ settings
  context_kept : st.context ≡ context
  implements : Implements scope mirrors st

delete_kept :
    (ref : WorkspaceStateRef) (found : Option Text) (st : LocalState)
    → ((delete_indexed ref found st).settings ≡ st.settings)
      × ((delete_indexed ref found st).context ≡ st.context)
unfolding delete_indexed drop_mirror
delete_kept ref none st = (refl, refl)
delete_kept ref (some []) st = (refl, refl)
delete_kept ref (some (c ∷ k)) st = (refl, refl)

set_settings :
    (now : ℕ) (mirror : WorkspaceMirror) (st : LocalState)
    → (set_workspace_mirror now mirror st).settings ≡ st.settings
unfolding set_workspace_mirror
set_settings now mirror st = refl

set_context :
    (now : ℕ) (mirror : WorkspaceMirror) (st : LocalState)
    → (set_workspace_mirror now mirror st).context ≡ st.context
unfolding set_workspace_mirror
set_context now mirror st = refl

scope_kept :
    (scope : Text) (settings : Settings) (context : ActiveContext) (mirrors : Mirrors)
    (st : LocalState)
    → effective_workspace_scope settings context scope ≡ scope
    → Keeps scope settings context mirrors st
    → effective_workspace_scope st.settings st.context scope ≡ scope
scope_kept scope settings context mirrors st h k =
    subst (λ (p : Settings × ActiveContext). effective_workspace_scope p.0 p.1 scope ≡ scope)
      (λ n. (sym k.settings_kept n, sym k.context_kept n)) h

get_workspace_mirror-Keeps :
    (scope tenant : Text) (i : ℤ) (settings : Settings) (context : ActiveContext)
    (mirrors : Mirrors) (st : LocalState)
    → effective_workspace_scope settings context scope ≡ scope
    → context.mirror ≡ none
    → Keeps scope settings context mirrors st
    → get_workspace_mirror i tenant (some scope) st
      ≡ mirrors (effective_tenant_key settings context tenant) i
get_workspace_mirror-Keeps scope tenant i settings context mirrors st h idle k =
    get_workspace_mirror-Implements scope tenant i mirrors st
      (scope_kept scope settings context mirrors st h k)
      (ap (λ (c : ActiveContext). c.mirror) k.context_kept ∙ idle) k.implements
    ∙ (λ n. mirrors (effective_tenant_key (k.settings_kept n) (k.context_kept n) tenant) i)

delete_mirror-Keeps :
    (scope tenant : Text) (i : ℤ) (settings : Settings) (context : ActiveContext)
    (mirrors : Mirrors) (st : LocalState)
    → effective_workspace_scope settings context scope ≡ scope
    → Keeps scope settings context mirrors st
    → Keeps scope settings context
        (forget (effective_tenant_key settings context tenant) i mirrors)
        (delete_workspace_mirror i tenant scope st)
unfolding delete_workspace_mirror
delete_mirror-Keeps scope tenant i settings context mirrors st h k =
    let deleted = resolve_ref i tenant scope st in
    let found = get (index_key deleted) st.local_workspace_indexes in
    record {
      settings_kept = (delete_kept deleted found st).0 ∙ k.settings_kept;
      context_kept = (delete_kept deleted found st).1 ∙ k.context_kept;
      implements =
          subst
            (λ (p : Settings × ActiveContext).
              Implements scope (forget (effective_tenant_key p.0 p.1 tenant) i mirrors)
                (delete_workspace_mirror i tenant scope st))
            (λ n. (k.settings_kept n, k.context_kept n))
            (delete_workspace_mirror-Implements scope tenant i mirrors st
              (scope_kept scope settings context mirrors st h k) k.implements);
    }

run_changes-Keeps :
    (scope : Text) (changes : List Change) (settings : Settings) (context : ActiveContext)
    (mirrors : Mirrors) (st : LocalState)
    → effective_workspace_scope settings context scope ≡ scope
    → InScope scope changes
    → Keeps scope settings context mirrors st
    → Keeps scope settings context
        (changed settings context changes mirrors)
        (run_changes scope changes st)
unfolding run_changes changed
run_changes-Keeps scope [] settings context mirrors st h inside k = k
run_changes-Keeps scope (set_mirror now mirror ∷ changes) settings context mirrors st h inside k =
    run_changes-Keeps scope changes settings context (assign mirror mirrors)
      (set_workspace_mirror now mirror st) h inside.1
      (record {
        settings_kept = set_settings now mirror st ∙ k.settings_kept;
        context_kept = set_context now mirror st ∙ k.context_kept;
        implements =
            set_workspace_mirror-Implements scope now mirror mirrors st inside.0 k.implements;
      })
run_changes-Keeps scope (delete_mirror i tenant ∷ changes) settings context mirrors st h inside k =
    run_changes-Keeps scope changes settings context
      (forget (effective_tenant_key settings context tenant) i mirrors)
      (delete_workspace_mirror i tenant scope st) h inside
      (delete_mirror-Keeps scope tenant i settings context mirrors st h k)

-- Take a scope that the store resolves to itself, no active workspace, and mirrors that the store
-- holds for the workspaces of the scope. After any sequence of settings of mirrors of the scope and
-- deletions in it, loading a workspace of the scope, and getting it by number and tenant, finds what
-- the map of the mirrors holds after the same assignments and removals.
pub run_changes_lem :
    (scope : Text) (changes : List Change) (mirrors : Mirrors) (st : LocalState) (t : Text) (i : ℤ)
    → effective_workspace_scope st.settings st.context scope ≡ scope
    → st.context.mirror ≡ none
    → InScope scope changes
    → Implements scope mirrors st
    → (load_workspace_mirror (ref scope t i) (run_changes scope changes st)
        ≡ changed st.settings st.context changes mirrors t i)
      × (get_workspace_mirror i t (some scope) (run_changes scope changes st)
          ≡ changed st.settings st.context changes mirrors
              (effective_tenant_key st.settings st.context t)
              i)
run_changes_lem scope changes mirrors st t i h idle inside c =
    let k =
      run_changes-Keeps scope changes st.settings st.context mirrors st h inside
        (record { settings_kept = refl; context_kept = refl; implements = c }) in
    (
      k.implements.stored t i,
      get_workspace_mirror-Keeps scope t i st.settings st.context
          (changed st.settings st.context changes mirrors) (run_changes scope changes st) h idle k,
    )

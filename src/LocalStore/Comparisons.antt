-- ===== src/LocalStore/Comparisons.antt =====
-- The keys of the workspaces of one scope are compared like their tenants and numbers.
use iruka_virtual_file_syste.Prelude.{
  ℕ, ◌≡◌, ◌≢◌, refl, sym, ap, ◌∙◌, Bool, true, false, ◌&&◌, [], ◌∷◌, ◌++◌, ℤ, int_eq, nat_eq,
  list_eq, option_eq, ◌==◌, list_beq_iff, arith, beq_of_iff,
}
use iruka_virtual_file_syste.Text.{Text, text}
use iruka_virtual_file_syste.Model.{WorkspaceMirror}
use iruka_virtual_file_syste.Store.{WorkspaceStateRef}
use iruka_virtual_file_syste.Context.{
  Settings, ActiveContext, effective_tenant_key, effective_workspace_scope, workspace_base_key,
  scoped_key,
}
use iruka_virtual_file_syste.Context.Keys.{workspace_base_key_inj}
use iruka_virtual_file_syste.LocalStore.{
  LocalState, IndexKey, key_eq, index_key, any_scope, workspace_ref, resolve_ref,
}

abbrev pub at : Text → ℤ → Text → ℤ → Bool
at tenant i t j = j == i && t == tenant

module _ (scope : Text) where
  abbrev pub ref : Text → ℤ → WorkspaceStateRef
  ref t i = record { tenant_key = t; workspace_id = i; scope_key = scope }

pub at_iff : (tenant t : Text) (i j : ℤ) → at tenant i t j ≡ true → (tenant ≡ t) × (i ≡ j)
at_iff tenant t i j h = (ground (arith, list_beq_iff t tenant), ground (arith, int_eq.beq_iff j i))

at_refl : (t : Text) (i : ℤ) → at t i t i ≡ true
at_refl t i = ground (arith, list_beq_iff t t, int_eq.beq_iff i i)

at_of_eq : (tenant t : Text) (i j : ℤ) → (tenant ≡ t) × (i ≡ j) → at tenant i t j ≡ true
at_of_eq tenant t i j e = rw (e.0, e.1) (at_refl t j)

-- Base keys and index keys of one scope are compared like tenant and number.
pub base_key-at :
    (scope tenant t : Text) (i j : ℤ) (settings : Settings) (context : ActiveContext)
    → (workspace_base_key settings context tenant i scope
        == workspace_base_key settings context t j scope)
      ≡ at tenant i t j
base_key-at scope tenant t i j settings context =
    beq_of_iff (workspace_base_key settings context tenant i scope)
      (workspace_base_key settings context t j scope) (at tenant i t j)
      (λ e. at_of_eq tenant t i j (workspace_base_key_inj settings context scope tenant t i j e))
      (λ h. let (e, e') = at_iff tenant t i j h in rw (e, e') refl)

pub index_key-at :
    (scope tenant t : Text) (i j : ℤ)
    → key_eq.beq (index_key (ref scope tenant i)) (index_key (ref scope t j)) ≡ at tenant i t j
unfolding index_key
index_key-at scope tenant t i j =
    beq_of_iff (index_key (ref scope tenant i)) (index_key (ref scope t j)) (at tenant i t j)
      (λ e.
        at_of_eq tenant t i j
          (ap (λ (k : IndexKey). k.tenant_key) e, ap (λ (k : IndexKey). k.workspace_id) e))
      (λ h. let (e, e') = at_iff tenant t i j h in rw (e, e') refl)

pub any_scope_index :
    (scope tenant t : Text) (i j : ℤ)
    → key_eq.beq (any_scope (ref scope tenant i)) (index_key (ref scope t j)) ≡ false
unfolding any_scope index_key
any_scope_index scope tenant t i j =
    beq_of_iff (any_scope (ref scope tenant i)) (index_key (ref scope t j)) false
      (λ e. cc (ap (λ (k : IndexKey). k.scope_key) e)) (λ h. cc)

pub workspace_ref-eq :
    (scope : Text) (mirror : WorkspaceMirror)
    → mirror.scope_key ≡ scope
    → workspace_ref mirror ≡ ref scope mirror.tenant_key mirror.workspace_id
unfolding workspace_ref
workspace_ref-eq scope mirror h =
    ap
      (λ (s : Text).
        let r : WorkspaceStateRef = record {
          tenant_key = mirror.tenant_key;
          workspace_id = mirror.workspace_id;
          scope_key = s;
        } in
        r)
      h

pub resolve_ref-eq :
    (scope tenant : Text) (i : ℤ) (st : LocalState)
    → effective_workspace_scope st.settings st.context scope ≡ scope
    → resolve_ref i tenant scope st
      ≡ ref scope (effective_tenant_key st.settings st.context tenant) i
unfolding resolve_ref
resolve_ref-eq scope tenant i st h =
    ap
      (λ (s : Text).
        let r : WorkspaceStateRef = record {
          tenant_key = effective_tenant_key st.settings st.context tenant;
          workspace_id = i;
          scope_key = s;
        } in
        r)
      h

module _ (k : Text) where
  -- A base key is never empty.
  pub not-empty :
      (settings : Settings) (scope tenant label : Text) (i : ℤ)
      → k ≡ scoped_key settings scope tenant label i
      → k ≢ []
  unfolding scoped_key text
  not-empty settings scope tenant label i e h =
      append-ne-nil settings.redis_key_namespace _ _ (sym e ∙ h)
    where
      append-ne-nil : (s : Text) (c : ℕ) (r : Text) → s ++ c ∷ r ≢ []
      append-ne-nil [] c r h = cc
      append-ne-nil (d ∷ s) c r h = cc

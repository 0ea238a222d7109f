-- ===== src/LocalStore/Implements.antt =====
-- The mirrors of one scope in `LocalMemoryStateStore` are a map from tenant and number to mirror.
use mathlib.Core.Path.{subst, fun_ext}
use iruka_virtual_file_syste.Prelude.{
  ℕ, ◌≡◌, ◌≢◌, refl, sym, ap, ◌∙◌, inl, inr, Bool, true, false, Option, none, some, [], ◌∷◌, ℤ,
  int_eq, nat_eq, list_eq, option_eq, ◌==◌, list_beq, Bool-cases, Option-cases, is_some,
  if◌then◌else◌,
}
use iruka_virtual_file_syste.Text.{Text, text}
use iruka_virtual_file_syste.Dict.{get, remove}
use iruka_virtual_file_syste.Dict.Laws.{get-put, get-remove}
use iruka_virtual_file_syste.Model.{WorkspaceMirror}
use iruka_virtual_file_syste.Context.{
  ActiveContext, active_workspace_mirror, effective_tenant_key, effective_workspace_scope,
  workspace_base_key,
}
use iruka_virtual_file_syste.LocalStore.{
  LocalState, IndexKey, key_eq, index_key, any_scope, base_key, indexed, lookup_mirror,
  get_workspace_mirror, load_workspace_mirror, set_workspace_mirror, drop_mirror, delete_indexed,
  delete_workspace_mirror,
}
use iruka_virtual_file_syste.LocalStore.Comparisons.{
  at, ref, at_iff, base_key-at, index_key-at, any_scope_index, workspace_ref-eq, resolve_ref-eq,
  not-empty,
}

-- What the store promises: a mirror for each tenant and number.
abbrev pub Mirrors : Type 0
Mirrors = Text → ℤ → Option WorkspaceMirror

unfoldable pub assign : WorkspaceMirror → Mirrors → Mirrors
assign mirror mirrors t j =
    if at mirror.tenant_key mirror.workspace_id t j then some mirror else mirrors t j

unfoldable pub forget : Text → ℤ → Mirrors → Mirrors
forget tenant i mirrors t j = if at tenant i t j then none else mirrors t j

module _ (scope : Text) where
  -- The store holds the mirrors, and its index has exactly their entries.
  pub record Implements (mirrors : Mirrors) (st : LocalState) : Type 0 where
    pub stored : (t : Text) (i : ℤ) → load_workspace_mirror (ref scope t i) st ≡ mirrors t i
    pub listed :
        (t : Text) (i : ℤ)
        → get (index_key (ref scope t i)) st.local_workspace_indexes
          ≡ (if is_some (mirrors t i) then some (base_key st (ref scope t i)) else none)

-- The entry that a test decides, as the index holds it and as the map says it.
new_entry :
    (b : Bool) (mirror : WorkspaceMirror) (old : Option WorkspaceMirror) (k k' : Text)
    → (b ≡ true → k ≡ k')
    → (if b then some k else (if is_some old then some k' else none))
      ≡ (if is_some (if b then some mirror else old) then some k' else none)
new_entry true mirror old k k' same = ap some (same refl)
new_entry false mirror old k k' same = refl

no_entry :
    (b : Bool) (old : Option WorkspaceMirror) (k : Text)
    → (if b then none else (if is_some old then some k else none))
      ≡ (if is_some (if b then none else old) then some k else none)
no_entry true old k = refl
no_entry false old k = refl

pub set_workspace_mirror-Implements :
    (scope : Text) (now : ℕ) (mirror : WorkspaceMirror) (mirrors : Mirrors) (st : LocalState)
    → mirror.scope_key ≡ scope
    → Implements scope mirrors st
    → Implements scope (assign mirror mirrors) (set_workspace_mirror now mirror st)
unfolding set_workspace_mirror load_workspace_mirror assign
set_workspace_mirror-Implements scope now mirror mirrors st h c = record {
  stored = λ t j.
      let e = workspace_ref-eq scope mirror h in
      rw
        (
          e,
          get-put,
          base_key-at scope mirror.tenant_key t mirror.workspace_id j st.settings st.context,
        )
        (ap (λ o. if at mirror.tenant_key mirror.workspace_id t j then some mirror else o)
          (c.stored t j));
  listed = λ t j.
      let e = workspace_ref-eq scope mirror h in
      rw
        (
          e,
          get-put,
          any_scope_index scope mirror.tenant_key t mirror.workspace_id j,
          get-put,
          index_key-at scope mirror.tenant_key t mirror.workspace_id j,
        )
        (rw (c.listed t j) (
          new_entry (at mirror.tenant_key mirror.workspace_id t j) mirror (mirrors t j)
            (workspace_base_key st.settings st.context mirror.tenant_key mirror.workspace_id scope)
            (workspace_base_key st.settings st.context t j scope)
            (λ same.
              let (e', e'') = at_iff mirror.tenant_key t mirror.workspace_id j same in
              ap (λ u. workspace_base_key st.settings st.context u mirror.workspace_id scope) e'
              ∙ ap (λ n. workspace_base_key st.settings st.context t n scope) e'')));
}

drop_mirror-Implements :
    (scope tenant k : Text) (i : ℤ) (mirrors : Mirrors) (st : LocalState)
    → k ≡ base_key st (ref scope tenant i)
    → Implements scope mirrors st
    → Implements scope (forget tenant i mirrors) (drop_mirror (ref scope tenant i) k st)
unfolding drop_mirror load_workspace_mirror forget base_key
drop_mirror-Implements scope tenant k i mirrors st e c = record {
  stored = λ t j.
      rw (e, get-remove, base_key-at scope tenant t i j st.settings st.context)
        (ap (λ o. if at tenant i t j then none else o) (c.stored t j));
  listed = λ t j.
      elim (Bool-cases (
        get (any_scope (ref scope tenant i))
          (remove (index_key (ref scope tenant i)) st.local_workspace_indexes)
        == some k)) [
          | inl latest ↦
              rw
                (
                  latest,
                  get-remove,
                  any_scope_index scope tenant t i j,
                  get-remove,
                  index_key-at scope tenant t i j,
                  c.listed t j,
                )
                (no_entry (at tenant i t j) (mirrors t j) _)
          | inr other ↦
              rw (other, get-remove, index_key-at scope tenant t i j, c.listed t j)
                (no_entry (at tenant i t j) (mirrors t j) _)
        ];
}

forget_absent :
    (tenant : Text) (i : ℤ) (mirrors : Mirrors)
    → mirrors tenant i ≡ none
    → forget tenant i mirrors ≡ mirrors
unfolding forget
forget_absent tenant i mirrors h = fun_ext (λ t. fun_ext (λ j. elim (Bool-cases (at tenant i t j)) [
  | inl same ↦
      let (e, e') = at_iff tenant t i j same in
      rw same (sym h ∙ ap (λ u. mirrors u i) e ∙ ap (mirrors t) e')
  | inr other ↦ rw other refl
]))

missing_entry :
    (o : Option WorkspaceMirror) (k : Text) → none ≡ (if is_some o then some k else none) → o ≡ none
missing_entry none k h = refl
missing_entry (some m) k h = cc

found_entry :
    (o : Option WorkspaceMirror) (k k' : Text)
    → some k ≡ (if is_some o then some k' else none)
    → k ≡ k'
found_entry none k k' h = cc
found_entry (some m) k k' h = cc

delete_indexed-Implements :
    (scope tenant : Text) (i : ℤ) (found : Option Text) (mirrors : Mirrors) (st : LocalState)
    → get (index_key (ref scope tenant i)) st.local_workspace_indexes ≡ found
    → Implements scope mirrors st
    → Implements scope (forget tenant i mirrors) (delete_indexed (ref scope tenant i) found st)
unfolding delete_indexed base_key workspace_base_key
delete_indexed-Implements scope tenant i none mirrors st e c =
    subst (λ ms. Implements scope ms st)
      (sym (
        forget_absent tenant i mirrors
          (missing_entry (mirrors tenant i) _ (sym e ∙ c.listed tenant i))))
      c
delete_indexed-Implements scope tenant i (some []) mirrors st e c = absurd (
    not-empty [] st.settings (effective_workspace_scope st.settings st.context scope) tenant
      (text ":workspace") i
      (found_entry (mirrors tenant i) [] (base_key st (ref scope tenant i))
        (sym e ∙ c.listed tenant i))
      refl)
delete_indexed-Implements scope tenant i (some (x ∷ k)) mirrors st e c =
    drop_mirror-Implements scope tenant (x ∷ k) i mirrors st
      (found_entry (mirrors tenant i) (x ∷ k) (base_key st (ref scope tenant i))
        (sym e ∙ c.listed tenant i))
      c

pub delete_workspace_mirror-Implements :
    (scope tenant : Text) (i : ℤ) (mirrors : Mirrors) (st : LocalState)
    → effective_workspace_scope st.settings st.context scope ≡ scope
    → Implements scope mirrors st
    → Implements scope
        (forget (effective_tenant_key st.settings st.context tenant) i mirrors)
        (delete_workspace_mirror i tenant scope st)
unfolding delete_workspace_mirror
delete_workspace_mirror-Implements scope tenant i mirrors st h c =
    rw (resolve_ref-eq scope tenant i st h) (
      delete_indexed-Implements scope (effective_tenant_key st.settings st.context tenant) i
        (get (index_key (ref scope (effective_tenant_key st.settings st.context tenant) i))
          st.local_workspace_indexes)
        mirrors st refl c)

indexed_missing :
    (key : IndexKey) (st : LocalState)
    → get key st.local_workspace_indexes ≡ none
    → indexed key st ≡ none
unfolding indexed
indexed_missing key st e = rw (e, indexed) refl

indexed_found :
    (key : IndexKey) (k : Text) (st : LocalState)
    → k ≢ []
    → get key st.local_workspace_indexes ≡ some k
    → indexed key st ≡ some k
unfolding indexed list_beq
indexed_found key [] st h e = absurd (h refl)
indexed_found key (c ∷ k) st h e = rw (e, indexed) refl

lookup_listed :
    (scope t : Text) (i : ℤ) (mirrors : Mirrors) (st : LocalState)
    → Implements scope mirrors st
    → lookup_mirror (indexed (index_key (ref scope t i)) st) st ≡ mirrors t i
unfolding lookup_mirror load_workspace_mirror workspace_base_key
lookup_listed scope t i mirrors st c = elim (Option-cases (mirrors t i)) [
  | inl gone ↦
      let missing : get (index_key (ref scope t i)) st.local_workspace_indexes ≡ none =
        c.listed t i
        ∙ ap (λ o. if is_some o then some (base_key st (ref scope t i)) else none) gone in
      rw (indexed_missing (index_key (ref scope t i)) st missing, gone) refl
  | inr (m, held) ↦
      let k = base_key st (ref scope t i) in
      let found : get (index_key (ref scope t i)) st.local_workspace_indexes ≡ some k =
        c.listed t i ∙ ap (λ o. if is_some o then some k else none) held in
      rw
        (indexed_found (index_key (ref scope t i)) k st
          (not-empty k st.settings (effective_workspace_scope st.settings st.context scope) t
            (text ":workspace") i refl)
          found)
        (c.stored t i)
]

none_active :
    (i : ℤ) (context : ActiveContext)
    → context.mirror ≡ none
    → active_workspace_mirror (some i) context ≡ none
unfolding active_workspace_mirror
none_active i context h = rw (h, active_workspace_mirror) refl

-- What a read finds where no workspace is active.
pub get_workspace_mirror-Implements :
    (scope tenant : Text) (i : ℤ) (mirrors : Mirrors) (st : LocalState)
    → effective_workspace_scope st.settings st.context scope ≡ scope
    → st.context.mirror ≡ none
    → Implements scope mirrors st
    → get_workspace_mirror i tenant (some scope) st
      ≡ mirrors (effective_tenant_key st.settings st.context tenant) i
unfolding get_workspace_mirror
get_workspace_mirror-Implements scope tenant i mirrors st h idle c =
    rw (none_active i st.context idle, get_workspace_mirror, h)
      (lookup_listed scope (effective_tenant_key st.settings st.context tenant) i mirrors st c)

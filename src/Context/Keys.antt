-- ===== src/Context/Keys.antt =====
-- The keys of two workspaces of one scope are the same only for the same tenant and number.
use iruka_virtual_file_syste.Prelude.{
  ℕ, ◌≡◌, refl, sym, ◌∙◌, true, false, List, [], ◌∷◌, ◌++◌, ℤ, contains, nat_eq, list_eq, arith,
  append_assoc,
}
use mathlib.Core.List.{append_cancel_left, append_cancel_right}
use iruka_virtual_file_syste.Text.{Text, text}
use iruka_virtual_file_syste.Text.Number.{is_digit, show_int}
use iruka_virtual_file_syste.Text.Number.Laws.{contains-show_int, show_int_inj}
use iruka_virtual_file_syste.Context.{
  Settings, ActiveContext, effective_workspace_scope, scoped_key, workspace_base_key,
}

contains_middle : (c : ℕ) (xs ys : List ℕ) → contains c (xs ++ c ∷ ys) ≡ true
unfolding contains
contains_middle c [] ys = ground arith
contains_middle c (x ∷ xs) ys = ground (arith, contains_middle c xs ys)

-- A text is cut at its last separator in one way.
pub last_cut :
    (c : ℕ) (xs ys xs' ys' : List ℕ)
    → contains c ys ≡ false
    → contains c ys' ≡ false
    → xs ++ c ∷ ys ≡ xs' ++ c ∷ ys'
    → (xs ≡ xs') × (ys ≡ ys')
last_cut c [] ys [] ys' h h' e = (refl, cc)
last_cut c [] ys (x ∷ xs') ys' h h' e = absurd (ground (arith, contains_middle c xs' ys'))
last_cut c (x ∷ xs) ys [] ys' h h' e = absurd (ground (arith, contains_middle c xs ys))
last_cut c (x ∷ xs) ys (x' ∷ xs') ys' h h' e =
    let rest = last_cut c xs ys xs' ys' h h' (cc) in ground (arith, rest)

pub scoped_key_inj :
    (settings : Settings) (scope label tenant tenant' : Text) (i i' : ℤ)
    → scoped_key settings scope tenant label i ≡ scoped_key settings scope tenant' label i'
    → (tenant ≡ tenant') × (i ≡ i')
unfolding scoped_key is_digit contains
scoped_key_inj settings scope label tenant tenant' i i' e =
    let inner = append_cancel_left (text ":tenant:") _ _ (
      append_cancel_left scope _ _ (
        append_cancel_left (text ":vfs:scope:") _ _
          (append_cancel_left settings.redis_key_namespace _ _ e))) in
    let parts =
      last_cut b':' (tenant ++ label) (show_int i) (tenant' ++ label) (show_int i') (no_colon i)
        (no_colon i')
        (append_assoc tenant label (b':' ∷ show_int i)
          ∙ inner
          ∙ sym (append_assoc tenant' label (b':' ∷ show_int i'))) in
    (append_cancel_right tenant tenant' label parts.0, show_int_inj i i' parts.1)
  where
    no_colon : (k : ℤ) → contains b':' (show_int k) ≡ false
    no_colon k = contains-show_int b':' k refl refl

pub workspace_base_key_inj :
    (settings : Settings) (context : ActiveContext) (scope tenant tenant' : Text) (i i' : ℤ)
    → workspace_base_key settings context tenant i scope
      ≡ workspace_base_key settings context tenant' i' scope
    → (tenant ≡ tenant') × (i ≡ i')
unfolding workspace_base_key
workspace_base_key_inj settings context scope tenant tenant' i i' e =
    scoped_key_inj settings (effective_workspace_scope settings context scope) (text ":workspace")
      tenant tenant' i i' e

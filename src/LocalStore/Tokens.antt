-- ===== src/LocalStore/Tokens.antt =====
-- A queue token is read back as the workspace that it stands for.
use iruka_virtual_file_syste.Prelude.{
  ◌≡◌, refl, false, Option, none, some, [], ◌∷◌, ◌++◌, ℤ, contains, nat_eq, ◌==◌, Bool-cases, inl,
  inr, arith, append_assoc, ℕ,
}
use iruka_virtual_file_syste.Text.{Text, text}
use iruka_virtual_file_syste.Text.Number.{show_int, is_digit}
use iruka_virtual_file_syste.Text.Number.Laws.{contains-show_int}
use iruka_virtual_file_syste.Store.{queue_token}
use iruka_virtual_file_syste.LocalStore.{split_once, workspace_ref_from_token}

split_once_at :
    (c : ℕ) (xs ys : Text) → contains c xs ≡ false → split_once c (xs ++ c ∷ ys) ≡ some (xs, ys)
unfolding split_once contains
split_once_at c [] ys h = ground arith
split_once_at c (x ∷ xs) ys h = elim (Bool-cases (x == c)) [
  | inl same ↦ absurd (ground (arith, same))
  | inr other ↦ rw (other, split_once_at c xs ys (ground (arith, h))) refl
]

-- The token with its parts bracketed to the right.
token_parts :
    (tenant scope : Text) (i : ℤ)
    → queue_token (record { tenant_key = tenant; workspace_id = i; scope_key = scope })
      ≡ tenant ++ b'|' ∷ (show_int i ++ b'|' ∷ scope)
unfolding queue_token text
token_parts tenant scope i = simp append_assoc

number_plain : (i : ℤ) → contains b'|' (show_int i) ≡ false
unfolding contains is_digit
number_plain i = contains-show_int b'|' i refl refl

-- Where `int` reads back the texts of integers, the token of a workspace whose tenant has no `|`
-- is read back as that workspace.
pub workspace_ref_from_token_lem :
    (parse_int : Text → Option ℤ) (tenant scope : Text) (i : ℤ)
    → ((j : ℤ) → parse_int (show_int j) ≡ some j)
    → contains b'|' tenant ≡ false
    → workspace_ref_from_token parse_int
        (queue_token (record { tenant_key = tenant; workspace_id = i; scope_key = scope }))
      ≡ some (record { tenant_key = tenant; workspace_id = i; scope_key = scope })
unfolding workspace_ref_from_token
workspace_ref_from_token_lem parse_int tenant scope i reads plain =
    rw
      (
        token_parts tenant scope i,
        workspace_ref_from_token,
        split_once_at b'|' tenant (show_int i ++ b'|' ∷ scope) plain,
        split_once_at b'|' (show_int i) scope (number_plain i),
        reads i,
      )
      refl

-- The token of a workspace whose tenant has two parts around a `|`, the second of which is no
-- number, is read as no workspace.
pub token_lost :
    (parse_int : Text → Option ℤ) (first second scope : Text) (i : ℤ)
    → contains b'|' first ≡ false
    → contains b'|' second ≡ false
    → parse_int second ≡ none
    → workspace_ref_from_token parse_int (
        queue_token
          (record { tenant_key = first ++ b'|' ∷ second; workspace_id = i; scope_key = scope }))
      ≡ none
unfolding workspace_ref_from_token
token_lost parse_int first second scope i plain plain' unread =
    rw
      (
        token_parts (first ++ b'|' ∷ second) scope i,
        append_assoc first (b'|' ∷ second) (b'|' ∷ (show_int i ++ b'|' ∷ scope)),
        workspace_ref_from_token,
        split_once_at b'|' first (second ++ b'|' ∷ (show_int i ++ b'|' ∷ scope)) plain,
        split_once_at b'|' second (show_int i ++ b'|' ∷ scope) plain',
        unread,
      )
      refl

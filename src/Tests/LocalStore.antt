-- ===== src/Tests/LocalStore.antt =====
-- The theorems of the store of mirrors at concrete data.
use iruka_virtual_file_syste.Prelude.{
  ◌≡◌, refl, Option, none, some, [], ◌∷◌, ◌++◌, ℤ, pos, negsuc, nat_eq, list_eq, ◌==◌, contains,
  Bool, true, false, ℕ, zero, suc,
}
use iruka_virtual_file_syste.Text.{Text, text}
use iruka_virtual_file_syste.Text.Strip.{strip}
use iruka_virtual_file_syste.Text.Number.{show_int, read_digits, is_digit}
use iruka_virtual_file_syste.Text.Number.Laws.{read_digits-show_nat}
use iruka_virtual_file_syste.Dict.{get}
use iruka_virtual_file_syste.Model.{WorkspaceMirror, flag}
use iruka_virtual_file_syste.Store.{queue_token}
use iruka_virtual_file_syste.Context.{effective_tenant_key, effective_workspace_scope}
use iruka_virtual_file_syste.LocalStore.{
  LocalState, load_workspace_mirror, get_workspace_mirror, workspace_ref_from_token,
}
use iruka_virtual_file_syste.LocalStore.Comparisons.{ref}
use iruka_virtual_file_syste.LocalStore.Implements.{Mirrors, Implements}
use iruka_virtual_file_syste.LocalStore.Refinement.{
  set_mirror, delete_mirror, run_changes, changed, run_changes_lem,
}
use iruka_virtual_file_syste.LocalStore.Tokens.{workspace_ref_from_token_lem, token_lost}

abbrev mirror_of : Text → Text → WorkspaceMirror
mirror_of tenant scope = record {
  tenant_key = tenant;
  scope_key = scope;
  workspace_id = pos 7;
  root_id = pos 1;
  session_id = pos 1;
  cwd_node_id = pos 1;
  nodes = [];
  path_to_id = [];
  children_by_parent = [];
  workspace_metadata = (text "virtual_workspace_ready", flag true) ∷ [];
  revision = 1;
  checkpoint_revision = 1;
  dirty_content_node_ids = [];
  dirty_structure_node_ids = [];
  dirty_session = true;
  dirty_workspace_metadata = false;
  next_temp_id = negsuc 0;
}

abbrev empty_store : LocalState
empty_store = record {
  settings = record {
    default_tenant_id = text "default";
    redis_key_namespace = text "vfs";
    default_scope = text "db";
  };
  context = record { mirror = none; tenant_key = none; scope_key = none };
  local_workspace_mirrors = [];
  local_workspace_indexes = [];
  local_checkpoint_state = record {
    queue = [];
    enqueued = [];
    dirty = [];
    due_at = [];
    errors = [];
    dead_letters = [];
    dead_letter_payloads = [];
    retry_counts = [];
  };
}

abbrev no_mirrors : Mirrors
no_mirrors t i = none

empty_store-Implements : (scope : Text) → Implements scope no_mirrors empty_store
unfolding load_workspace_mirror get
empty_store-Implements scope = record { stored = λ t i. refl; listed = λ t i. refl }

run_changes_example :
    (load_workspace_mirror (ref (text "s") (text "u") (pos 7)) (
        run_changes
          (text "s")
          (set_mirror 5 (mirror_of (text "u") (text "s")) ∷ delete_mirror (pos 8) [] ∷ [])
          empty_store)
      ≡ changed empty_store.settings empty_store.context
          (set_mirror 5 (mirror_of (text "u") (text "s")) ∷ delete_mirror (pos 8) [] ∷ [])
          no_mirrors
          (text "u")
          (pos 7))
    × (get_workspace_mirror (pos 7) (text "u") (some (text "s")) (
          run_changes
            (text "s")
            (set_mirror 5 (mirror_of (text "u") (text "s")) ∷ delete_mirror (pos 8) [] ∷ [])
            empty_store)
        ≡ changed empty_store.settings empty_store.context
            (set_mirror 5 (mirror_of (text "u") (text "s")) ∷ delete_mirror (pos 8) [] ∷ [])
            no_mirrors
            (effective_tenant_key empty_store.settings empty_store.context (text "u"))
            (pos 7))
unfolding effective_workspace_scope text strip
run_changes_example =
    run_changes_lem (text "s")
      (set_mirror 5 (mirror_of (text "u") (text "s")) ∷ delete_mirror (pos 8) [] ∷ []) no_mirrors
      empty_store (text "u") (pos 7) refl refl (refl, tt) (empty_store-Implements (text "s"))

-- `int` on the texts of integers.
abbrev signed : Bool → ℕ → Option ℤ
signed false n = none
signed true zero = none
signed true (suc n) = some (negsuc n)

abbrev number_of : ℕ × Text → Option ℤ
number_of (n, []) = some (pos n)
number_of (n, c ∷ rest) = signed (c == b'-') (read_digits 0 rest).0

abbrev digits_of : Text → Option ℤ
digits_of s = number_of (read_digits 0 s)

digits_of-show_int : (j : ℤ) → digits_of (show_int j) ≡ some j
unfolding show_int read_digits is_digit
digits_of-show_int (pos n) = rw read_digits-show_nat refl
digits_of-show_int (negsuc n) = rw read_digits-show_nat refl

workspace_ref_from_token_example :
    workspace_ref_from_token digits_of
      (queue_token (record { tenant_key = text "t"; workspace_id = pos 7; scope_key = text "s|x" }))
    ≡ some (record { tenant_key = text "t"; workspace_id = pos 7; scope_key = text "s|x" })
unfolding contains text
workspace_ref_from_token_example =
    workspace_ref_from_token_lem digits_of (text "t") (text "s|x") (pos 7) digits_of-show_int refl

token_lost_example :
    workspace_ref_from_token digits_of (
      queue_token (record {
        tenant_key = text "a" ++ b'|' ∷ text "b";
        workspace_id = pos 7;
        scope_key = text "s";
      }))
    ≡ none
unfolding contains text read_digits is_digit
token_lost_example = token_lost digits_of (text "a") (text "b") (text "s") (pos 7) refl refl refl

-- ===== src/Tests/Runtime.antt =====
-- The commands at a workspace with one file.
use iruka_virtual_file_syste.Prelude.{
  ◌+◌, ◌≡◌, refl, ◌⊎◌, true, false, not, Option, none, some, List, [], ◌∷◌, ◌++◌, ℤ, pos, negsuc,
  keep, length, list_eq, list_beq, contains, arith, nat_eq, int_eq, ◌==◌, if◌then◌else◌, Distinct,
}
use iruka_virtual_file_syste.Text.{Text, text, join, split_on}
use iruka_virtual_file_syste.Text.Search.{occurs_in}
use iruka_virtual_file_syste.Text.Replace.{no_match_before}
use iruka_virtual_file_syste.Runtime.Replacing.{edit_by_first}
use iruka_virtual_file_syste.Dict.{get}
use iruka_virtual_file_syste.Result.{ok, raise, diverges}
use iruka_virtual_file_syste.Model.{Node, dir, file, WorkspaceMirror}
use iruka_virtual_file_syste.Command.Heredoc.{tokens}
use iruka_virtual_file_syste.Command.Chain.{always, if_ok}
use iruka_virtual_file_syste.Command.Pipeline.{Redirect}
use iruka_virtual_file_syste.Paths.Resolve.{rpartition}
use iruka_virtual_file_syste.Runtime.World.{
  World, Externals, set_workspace_mirror, ref_of, Outcome, succeed, VirtualCommandResult,
  get_node_content, get_node_version,
}
use iruka_virtual_file_syste.Runtime.Targets.{resolve, last_part}
use iruka_virtual_file_syste.Runtime.Files.{exec_rm}
use iruka_virtual_file_syste.Runtime.Directories.{mkdir_target}
use iruka_virtual_file_syste.Paths.Normalize.{vfs_root, allow_write_path}
use iruka_virtual_file_syste.Runtime.Escapes.{mkdir_target-allow_write_path}
use iruka_virtual_file_syste.Runtime.Edits.{with_editable, edit_by, write_file}
use iruka_virtual_file_syste.Runtime.Transfers.{exec_cp, exec_mv}
use iruka_virtual_file_syste.Runtime.Find.{run_on, fill_in}
use iruka_virtual_file_syste.Runtime.Unseen.{first_times}
use iruka_virtual_file_syste.Runtime.Dispatch.{stdin_paths, exec_argv, exec_with, run, command_of}
use iruka_virtual_file_syste.Runtime.Executor.{run_pieces, no_chunks, collect, is_passed}
use iruka_virtual_file_syste.Runtime.Redirects.{apply_redirect}
use iruka_virtual_file_syste.Runtime.Texts.{newline}
use iruka_virtual_file_syste.Text.Lines.{splitlines}
use iruka_virtual_file_syste.Runtime.Depth.{exec_over, exec_argv_lem}
use iruka_virtual_file_syste.Text.Strip.{strip}
use iruka_virtual_file_syste.Runtime.Marking.{set_workspace_mirror_lem}
use iruka_virtual_file_syste.Checkpoint.{mirror_has_dirty_state}
use iruka_virtual_file_syste.Store.{queue_token}
use iruka_virtual_file_syste.Store.Queue.{IsScheduled}
use iruka_virtual_file_syste.Runtime.Chains.{run_pieces_stop}
use iruka_virtual_file_syste.Runtime.Confinement.{
  world_after, NamesInside, WritesInside, PlacedInside, with_editable-NamesInside,
  exec_rm-NamesInside, apply_redirect-WritesInside, transfers_confined,
}
use iruka_virtual_file_syste.Runtime.Silence.{run_on_silent, run_on_prints, done, step}
use iruka_virtual_file_syste.Runtime.Writes.{write_file-get_node_content}

abbrev pub words : Text → List Text
words s = keep (λ w. not (w == [])) (split_on b' ' s)

-- Stand-ins for Python's library that are right for the data of these examples.
abbrev pub ext : Externals
ext = record {
  fnmatchcase = λ name pattern. name == pattern;
  compile = λ pattern. some (occurs_in pattern);
  lower = λ s. s;
  quote = λ s. s;
  lexer = λ s. tokens (words s);
  shlex_split = λ s. tokens (words s);
  str_split = words;
  path_name = λ s. last_part (split_on b'/' s);
  path_parent = λ s. (rpartition s).0;
  dumps = λ cs. [];
  mtime = λ node. text "-";
}

abbrev pub folder : ℤ → Option ℤ → Text → Node
folder i parent name = record {
  id = i;
  parent_id = parent;
  name = name;
  node_type = dir;
  content_text = [];
  version_no = 1;
}

abbrev pub note : Node
note = record {
  id = pos 3;
  parent_id = some (pos 2);
  name = text "a.txt";
  node_type = file;
  content_text = text "one two one";
  version_no = 4;
}

abbrev pub world : World
world = record {
  mirror = record {
    tenant_key = text "t";
    scope_key = text "s";
    workspace_id = pos 1;
    root_id = pos 1;
    session_id = pos 1;
    cwd_node_id = pos 2;
    nodes =
        (pos 1, folder (pos 1) none [])
        ∷ (pos 2, folder (pos 2) (some (pos 1)) (text "workspace"))
        ∷ (pos 3, note)
        ∷ [];
    path_to_id =
        (text "/", pos 1) ∷ (text "/workspace", pos 2) ∷ (text "/workspace/a.txt", pos 3) ∷ [];
    children_by_parent =
        (none, pos 1 ∷ []) ∷ (some (pos 1), pos 2 ∷ []) ∷ (some (pos 2), pos 3 ∷ []) ∷ [];
    workspace_metadata = [];
    revision = 4;
    checkpoint_revision = 4;
    dirty_content_node_ids = [];
    dirty_structure_node_ids = [];
    dirty_session = false;
    dirty_workspace_metadata = false;
    next_temp_id = negsuc 0;
  };
  checkpoints = record {
    queue = [];
    enqueued = [];
    dirty = [];
    due_at = [];
    errors = [];
    dead_letters = [];
    dead_letter_payloads = [];
    retry_counts = [];
  };
  repo = record {
    workspaces = [];
    next_session_id = 2;
    next_node_id = 2;
    sessions = [];
    nodes =
        (
          pos 1,
          record { tenant_id = text "t"; workspace_id = pos 1; node = folder (pos 1) none [] },
        )
        ∷ [];
  };
  cwd_node_id = pos 2;
  ephemeral_patch_id = 0;
  clock = 5;
}

abbrev one_word : Text → World → Outcome
one_word cmd w = exec_argv ext (cmd ∷ []) [] w

abbrev nope : VirtualCommandResult
nope = record {
  stdout = [];
  stderr = text "unsupported command: nope. Try: help";
  exit_code = 127;
  artifacts = [];
}

run_pieces_stop_example :
    run_pieces one_word
      (record { op = always; cmd = text "nope" } ∷ record { op = if_ok; cmd = text "help" } ∷ [])
      no_chunks
      world
    ≡ ok (collect nope no_chunks, world)
unfolding run_pieces is_passed exec_argv exec_with run command_of text list_beq
run_pieces_stop_example =
    run_pieces_stop one_word (record { op = always; cmd = text "nope" } ∷ [])
      (record { op = if_ok; cmd = text "help" } ∷ []) no_chunks (collect nope no_chunks) world world
      refl refl (refl, tt)

with_editable_example :
    (world_after world (
        with_editable ext
          (text "edit")
          (text "a.txt")
          world
          λ node target. edit_by false (some (text "one")) (some (text "1")) [] node target world)
      ≡ world)
    ⊎ NamesInside world (text "a.txt")
with_editable_example =
    with_editable-NamesInside ext (text "edit") (text "a.txt") world
      (λ node target. edit_by false (some (text "one")) (some (text "1")) [] node target world)

exec_rm_example :
    (world_after world (exec_rm ext (text "/workspace/a.txt" ∷ []) world) ≡ world)
    ⊎ NamesInside world (text "/workspace/a.txt")
exec_rm_example = exec_rm-NamesInside ext (text "/workspace/a.txt") world

abbrev append_note : Redirect
append_note = record { op = text ">>"; path = text "a.txt"; force = false }

apply_redirect_example :
    (world_after world (apply_redirect ext append_note (text "!") world) ≡ world)
    ⊎ ((node : Option Node) × (resolve world (text "a.txt") ≡ ok node)
        × WritesInside world (text "a.txt") node)
apply_redirect_example = apply_redirect-WritesInside ext append_note (text "!") world

transfers_confined_example :
    ((world_after world (exec_cp ext (text "a.txt" ∷ text "b.txt" ∷ []) world) ≡ world)
      ⊎ PlacedInside world (text "a.txt") (text "b.txt"))
    × ((world_after world (exec_mv ext (text "a.txt" ∷ text "b.txt" ∷ []) world) ≡ world)
        ⊎ PlacedInside world (text "a.txt") (text "b.txt"))
transfers_confined_example = transfers_confined ext (text "a.txt") (text "b.txt") world

-- `find /workspace -exec : {} ;` with what a command printed before.
abbrev echoed : VirtualCommandResult
echoed = record { stdout = text "/x"; stderr = []; exit_code = 0; artifacts = [] }

-- A command that prints its path for /x, and nothing for any other path.
abbrev echo_or_nothing : List Text → Text → World → Outcome
echo_or_nothing argv input_text w =
    if argv == text "echo" ∷ text "/x" ∷ [] then ok (echoed, w) else succeed [] [] w

run_on_silent_example :
    run_on echo_or_nothing
      (text "echo" ∷ text "{}" ∷ [])
      []
      []
      (text "/x" ∷ text "/y" ∷ text "/z" ∷ [])
      world
    ≡ ok (record { stdout = []; stderr = []; exit_code = 0; artifacts = [] }, world)
unfolding fill_in text list_beq splitlines
run_on_silent_example =
    run_on_silent echo_or_nothing (text "echo" ∷ text "{}" ∷ []) [] [] (text "/x" ∷ [])
      (text "/x" ∷ []) (text "/z" ∷ []) (text "/y") world world world
      (record { stdout = []; stderr = []; exit_code = 0; artifacts = [] })
      (step (text "/x") [] [] world world world echoed refl refl refl (done world)) refl refl refl

run_on_prints_example :
    (out : List Text) × (run_on
        (exec_argv ext)
        (text "echo" ∷ text "{}" ∷ [])
        []
        (text "/x" ∷ text "/y" ∷ [])
        (text "/x" ∷ [])
        world
      ≡ succeed (join newline out) [] world)
    × (out ≡ first_times (text "/x" ∷ text "/y" ∷ text "/x" ∷ []))
    × Distinct out
    × ((line : Text) → contains line out ≡ contains line (text "/x" ∷ text "/y" ∷ text "/x" ∷ []))
unfolding exec_argv exec_with run command_of fill_in text list_beq splitlines join
run_on_prints_example =
    run_on_prints (exec_argv ext) (text "echo" ∷ text "{}" ∷ []) [] (text "/x" ∷ text "/y" ∷ [])
      (text "/x" ∷ []) (text "/x" ∷ []) world world
      (step (text "/x") [] [] world world world echoed refl refl refl (done world))

write_file_example :
    (w' : World) × (write_file note (text "three") world ≡ ok (4 + 1, w'))
    × (get_node_content w'.mirror note ≡ text "three")
    × (get_node_version w'.mirror note ≡ 4 + 1)
unfolding get
write_file_example = write_file-get_node_content note note (text "three") world refl refl

edit_by_example :
    ((occurs_in (text "e") (get_node_content world.mirror note) ≡ false)
      × ((result : VirtualCommandResult) × (edit_by false
              (some (text "e"))
              (some (text "E"))
              []
              note
              (text "/x")
              world
            ≡ ok (result, world))
          × (result.exit_code ≡ 1)))
    ⊎ ((before after : Text) × (w' : World) × (result : VirtualCommandResult) × (get_node_content
            world.mirror note
          ≡ before ++ (text "e" ++ after))
        × (no_match_before (text "e") (length before) (get_node_content world.mirror note) ≡ true)
        × (edit_by false (some (text "e")) (some (text "E")) [] note (text "/x") world
            ≡ ok (result, w'))
        × (result.exit_code ≡ 0)
        × (get_node_content w'.mirror note ≡ before ++ (text "E" ++ after))
        × (get_node_version w'.mirror note ≡ 4 + 1))
unfolding get
edit_by_example = edit_by_first (text "e") (text "E") [] (text "/x") note note world refl refl

mkdir_check_example :
    (target : Text) × (mkdir_target true (vfs_root ++ (b'/' ∷ text "../x")) world
      ≡ ok (some target))
    × (allow_write_path target ≡ none)
mkdir_check_example = mkdir_target-allow_write_path (text "../x") world

-- `xargs cat` with one path as its input.
exec_argv_example :
    exec_over
      (λ argv input_text w. raise diverges)
      9
      ext
      (text "xargs" ∷ text "cat" ∷ [])
      (text "a.txt")
      world
    ≡ exec_argv ext (text "xargs" ∷ text "cat" ∷ []) (text "a.txt") world
unfolding stdin_paths splitlines strip text list_beq
exec_argv_example =
    exec_argv_lem ext (λ argv input_text w. raise diverges) 9 (text "xargs" ∷ text "cat" ∷ [])
      (text "a.txt") world (omega arith)

world-IsScheduled : IsScheduled world.checkpoints
unfolding contains
world-IsScheduled = record { distinct = tt; covered = λ t h. h }

abbrev changed_mirror : WorkspaceMirror
changed_mirror = record world.mirror { dirty_content_node_ids = pos 3 ∷ [] }

set_workspace_mirror_example :
    IsScheduled (set_workspace_mirror changed_mirror world).checkpoints
    × (contains
          (queue_token (ref_of changed_mirror))
          (set_workspace_mirror changed_mirror world).checkpoints.dirty
        ≡ true)
    × (contains
          (queue_token (ref_of changed_mirror))
          (set_workspace_mirror changed_mirror world).checkpoints.enqueued
        ≡ true)
    × (get
          (queue_token (ref_of changed_mirror))
          (set_workspace_mirror changed_mirror world).checkpoints.due_at
        ≡ some 5)
unfolding mirror_has_dirty_state get
set_workspace_mirror_example =
    set_workspace_mirror_lem changed_mirror world world-IsScheduled refl refl

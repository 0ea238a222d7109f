-- ===== src/Runtime/Transfers.antt =====
-- `cp` and `mv` of `runtime/fs_commands.py`, and `move_node` of `runtime/filesystem.py`.
use iruka_virtual_file_syste.Prelude.{
  ℕ, true, false, Option, none, some, List, [], ◌∷◌, ◌++◌, ℤ, pos, nat_eq, list_eq, ◌==◌,
}
use iruka_virtual_file_syste.Text.{Text, text}
use iruka_virtual_file_syste.Text.Number.{show_nat}
use iruka_virtual_file_syste.Text.Strip.{rstrip_char}
use iruka_virtual_file_syste.Result.{Result, ok, raise, key_error, require, ◌>>=◌}
use iruka_virtual_file_syste.Model.{is_dir, Node}
use iruka_virtual_file_syste.Mirror.Mutate.{mutate_move_node}
use iruka_virtual_file_syste.Repositories.{update_node_content}
use iruka_virtual_file_syste.Paths.Resolve.{resolve_parent_for_create, node_path}
use iruka_virtual_file_syste.Paths.Normalize.{allow_write_path}
use iruka_virtual_file_syste.Runtime.World.{
  World, Externals, text_value, number, Outcome, succeed, fail, mutate_workspace_mirror,
  mirror_node, get_node_content,
}
use iruka_virtual_file_syste.Runtime.Targets.{
  resolve, resolve_target_path_for_write, detect_ambiguous_create_target,
  format_ambiguous_create_target_message, format_missing_path_error, conflict_artifacts,
  format_overwrite_conflict_message, build_overwrite_conflict,
}
use iruka_virtual_file_syste.Runtime.Files.{get_or_create_child_file, file_only}

-- Where the target is: its path as it is resolved from here on, and its node; or the refusal.
pub data Place : Type 0 where
  place : Text → Option Node → Place
  taken : Text → Place

-- A directory stands for the source's name in it; another node is a conflict.
unfoldable pub place_of : World → Node → Text → Result Place
place_of w source_node target = elim (resolve w target) [
  | raise e ↦ raise e
  | ok none ↦ ok (place target none)
  | ok (some node) ↦ elim (node_path w.mirror node) [
    | raise e ↦ raise e
    | ok path ↦ elim (is_dir node.node_type) [
      | false ↦ ok (taken path)
      | true ↦ do
        let inside = rstrip_char b'/' path ++ (text "/" ++ source_node.name)
        inner ← resolve w inside
        ok (place inside inner)
    ]
  ]
]

-- The target of a command that may be written, with the command's name and what it cannot do.
unfoldable pub checked_target :
    Text → Text → Text → Option Node → World → (Text → Outcome) → Outcome
checked_target command cannot target node w continue =
    elim (resolve_target_path_for_write w target node) [
      | raise e ↦ raise e
      | ok none ↦ fail (command ++ (cannot ++ (target ++ text "': invalid parent path"))) [] w
      | ok (some resolved) ↦ elim (allow_write_path resolved) [
        | some reason ↦
            fail (command ++ (text ": " ++ reason)) ((text "path", text_value resolved) ∷ []) w
        | none ↦ continue resolved
      ]
    ]

-- The parent and the name that the target has, both of which have to be there.
unfoldable pub with_parent : Text → Text → Text → World → (Node → Text → Outcome) → Outcome
with_parent command cannot target w continue =
    elim (resolve_parent_for_create w.mirror w.cwd_node_id target) [
      | raise e ↦ raise e
      | ok (none, name) ↦ invalid
      | ok (some parent, []) ↦ invalid
      | ok (some parent, c ∷ name) ↦ continue parent (c ∷ name)
    ]
  where
    invalid : Outcome
    invalid = fail (command ++ (cannot ++ (target ++ text "': invalid parent path"))) [] w

-- The last step of `cp`.
unfoldable pub copy_to : Node → Node → Text → World → Outcome
copy_to source_node parent name w = do
  (created, w) ← get_or_create_child_file parent.id name (get_node_content w.mirror source_node) w
  from ← node_path w.mirror source_node
  to ← node_path w.mirror created
  succeed (text "copied " ++ (from ++ (text " -> " ++ to)))
      ((text "source", text_value from) ∷ (text "target", text_value to) ∷ []) w

module _ (ext : Externals) where
  unfoldable pub copy_placed : Node → Text → Option Node → World → Outcome
  unfolding copy_to
  copy_placed source_node target node w =
      checked_target (text "cp") (text ": cannot create '") target node w λ resolved.
        elim (detect_ambiguous_create_target ext w target node) [
          | raise e ↦ raise e
          | ok (some conflict) ↦
              fail (format_ambiguous_create_target_message ext conflict (text "redirect"))
                (conflict_artifacts conflict) w
          | ok none ↦
              with_parent (text "cp") (text ": cannot create '") target w
                λ parent name. copy_to source_node parent name w
        ]

  -- The source, which has to be a file, and the place of the target.
  unfoldable pub with_source :
      Text → Text → Text → World → (Node → Text → Option Node → Outcome) → Outcome
  with_source command source target w continue = elim (resolve w source) [
    | raise e ↦ raise e
    | ok found ↦ elim (file_only found) [
      | none ↦ do message ← format_missing_path_error ext w command source false; fail message [] w
      | some source_node ↦ elim (place_of w source_node target) [
        | raise e ↦ raise e
        | ok (taken path) ↦
            fail (format_overwrite_conflict_message path) (build_overwrite_conflict path) w
        | ok (place target' node) ↦ continue source_node target' node
      ]
    ]
  ]

  unfoldable pub exec_cp : List Text → World → Outcome
  unfolding with_source copy_placed
  exec_cp (source ∷ target ∷ []) w =
      with_source (text "cp") source target w
        λ source_node target' node. copy_placed source_node target' node w
  exec_cp [] w = fail (text "cp: require <source> <target>") [] w
  exec_cp (a ∷ []) w = fail (text "cp: require <source> <target>") [] w
  exec_cp (a ∷ b ∷ c ∷ rest) w = fail (text "cp: require <source> <target>") [] w

-- `_persist_node_metadata`, for the node after the move
unfoldable pub persist_node_metadata : Node → ℤ → Text → ℕ → World → World
persist_node_metadata node parent_id name version_no w = record w {
  repo =
      update_node_content node.id w.mirror.tenant_key (some parent_id) name node.node_type
        node.content_text version_no w.repo;
}

-- `move_node`; the caller's node is the mirror's
unfoldable pub move_node : Node → ℤ → Text → World → Result (ℕ × World)
unfolding persist_node_metadata
move_node node parent_id name w = do
  (next_version, w) ← mutate_workspace_mirror (mutate_move_node node parent_id name) w
  ok (next_version, persist_node_metadata (mirror_node w.mirror node) parent_id name next_version w)

-- The last steps of `mv`: the path that the report gives is that of the node found at the target.
unfoldable pub move_to : Text → Text → Node → Node → Text → World → Outcome
move_to source resolved source_node parent name w = do
  (version_no, w) ← move_node source_node parent.id name w
  found ← resolve w resolved
  node ← require key_error found
  moved_path ← node_path w.mirror node
  succeed
      (text "moved "
        ++ (source
            ++ (text " -> "
                ++ (moved_path ++ (text " (version " ++ (show_nat version_no ++ text ")"))))))
      ((text "source", text_value source)
        ∷ (text "target", text_value moved_path)
        ∷ (text "version", number (pos version_no))
        ∷ [])
      w

unfoldable pub move_placed : Text → Node → Text → Option Node → World → Outcome
unfolding move_to
move_placed source source_node target node w =
    checked_target (text "mv") (text ": cannot move to '") target node w λ resolved.
      with_parent (text "mv") (text ": cannot move to '") target w λ parent name.
        elim (node_path w.mirror source_node) [
          | raise e ↦ raise e
          | ok path ↦ elim (path == resolved) [
            | true ↦
                succeed (text "moved " ++ (resolved ++ (text " -> " ++ resolved)))
                  ((text "source", text_value resolved) ∷ (text "target", text_value resolved) ∷ [])
                  w
            | false ↦ move_to source resolved source_node parent name w
          ]
        ]

unfoldable pub exec_mv : Externals → List Text → World → Outcome
unfolding move_placed
exec_mv ext (source ∷ target ∷ []) w =
    with_source ext (text "mv") source target w
      λ source_node target' node. move_placed source source_node target' node w
exec_mv ext [] w = fail (text "mv: require <source> <target>") [] w
exec_mv ext (a ∷ []) w = fail (text "mv: require <source> <target>") [] w
exec_mv ext (a ∷ b ∷ c ∷ rest) w = fail (text "mv: require <source> <target>") [] w

-- ===== src/Runtime/Directories.antt =====
-- `mkdir` of `runtime/fs_commands.py`, with `mkdir_parents` of `runtime/filesystem.py`.
use iruka_virtual_file_syste.Prelude.{
  Bool, true, false, ◌&&◌, Option, none, some, List, [], ◌∷◌, ◌++◌, nat_eq, list_eq, int_eq, ◌==◌,
}
use iruka_virtual_file_syste.Text.{Text, text, starts_with}
use iruka_virtual_file_syste.Result.{Result, ok, raise, value_error, ◌>>=◌}
use iruka_virtual_file_syste.Model.{is_dir, Node}
use iruka_virtual_file_syste.Paths.Resolve.{
  path_parts, resolve_path, resolve_parent_for_create, node_path,
}
use iruka_virtual_file_syste.Paths.Normalize.{allow_write_path, normalize_virtual_path}
use iruka_virtual_file_syste.Runtime.World.{
  World, text_value, texts, flag, Outcome, succeed, fail, get_or_create_root, must_get_node,
}
use iruka_virtual_file_syste.Runtime.Targets.{resolve, resolve_target_path_for_write}
use iruka_virtual_file_syste.Runtime.Files.{
  Operand, existed, made, stop_with, get_or_create_child_dir, summary_of, operands,
}

-- The loop of `mkdir_parents` over the parts of the path.
unfoldable pub make_parts : Text → Node → List Text → World → Result (Node × World)
make_parts raw_path current [] w = ok (current, w)
make_parts raw_path current (part ∷ parts) w = elim (part == text ".") [
  | true ↦ make_parts raw_path current parts w
  | false ↦ elim (part == text "..") [
    | true ↦ elim current.parent_id [
      | none ↦ make_parts raw_path current parts w
      | some p ↦ elim (must_get_node p w) [
        | raise e ↦ raise e
        | ok parent ↦ make_parts raw_path parent parts w
      ]
    ]
    | false ↦ elim (resolve_path w.mirror current.id part) [
      | raise e ↦ raise e
      | ok none ↦ elim (get_or_create_child_dir current.id part w) [
        | raise e ↦ raise e
        | ok (child, w') ↦ make_parts raw_path child parts w'
      ]
      | ok (some child) ↦ elim (is_dir child.node_type) [
        | true ↦ make_parts raw_path child parts w
        | false ↦ raise (
            value_error
              (text "mkdir: cannot create directory '" ++ (raw_path ++ text "': File exists")))
      ]
    ]
  ]
]

-- The node that the loop begins at, and the world after the root is made if need be.
unfoldable pub start_of : Text → World → Result (Node × World)
start_of raw_path w = elim (starts_with raw_path (text "/")) [
  | true ↦ ok (get_or_create_root w)
  | false ↦ must_get_node w.cwd_node_id w >>= λ node. ok (node, w)
]

-- `mkdir_parents`
unfoldable pub mkdir_parents : Text → World → Result (Text × World)
unfolding make_parts start_of
mkdir_parents raw_path w = elim (start_of raw_path w) [
  | raise e ↦ raise e
  | ok (current, w) ↦ elim (path_parts raw_path) [
    | [] ↦ raise (value_error (text "mkdir: invalid path"))
    | part ∷ parts ↦ do
      (node, w) ← make_parts raw_path current (part ∷ parts) w
      path ← node_path w.mirror node
      ok (path, w)
  ]
]

unfoldable pub file_exists : Text → Text
file_exists raw_path =
    text "mkdir: cannot create directory '" ++ (raw_path ++ text "': File exists")

-- `mkdir` of a path without a node; with `-p` a `ValueError` becomes the result.
unfoldable pub mkdir_new : Bool → Text → Text → World → Result (Operand × World)
unfolding mkdir_parents
mkdir_new true target raw_path w = elim (mkdir_parents raw_path w) [
  | raise (value_error message) ↦ stop_with message ((text "path", text_value target) ∷ []) w
  | raise e ↦ raise e
  | ok (path, w') ↦ ok (made path, w')
]
mkdir_new false target raw_path w =
    elim (resolve_parent_for_create w.mirror w.cwd_node_id raw_path) [
      | raise e ↦ raise e
      | ok (none, name) ↦ missing raw_path w
      | ok (some parent, []) ↦ missing raw_path w
      | ok (some parent, c ∷ name) ↦ do
        (dir_node, w) ← get_or_create_child_dir parent.id (c ∷ name) w
        path ← node_path w.mirror dir_node
        ok (made path, w)
    ]
  where
    missing : Text → World → Result (Operand × World)
    missing raw_path w =
        stop_with
          (text "mkdir: cannot create directory '"
            ++ (raw_path ++ text "': No such file or directory"))
          [] w

-- The target that the check of `mkdir` looks at: with `-p`, the path as it is written.
unfoldable pub mkdir_target : Bool → Text → World → Result (Option Text)
mkdir_target true raw_path w =
    normalize_virtual_path (must_get_node w.cwd_node_id w >>= node_path w.mirror) raw_path
mkdir_target false raw_path w = resolve_target_path_for_write w raw_path none

-- One round of the loop of `exec_mkdir`.
unfoldable pub mkdir_one : Bool → Text → World → Result (Operand × World)
unfolding mkdir_new mkdir_target file_exists
mkdir_one parents raw_path w = elim (mkdir_target parents raw_path w) [
  | raise e ↦ raise e
  | ok none ↦
      stop_with (text "mkdir: cannot create directory '" ++ (raw_path ++ text "': invalid path")) []
        w
  | ok (some target) ↦ elim (allow_write_path target) [
    | some reason ↦ stop_with (text "mkdir: " ++ reason) ((text "path", text_value target) ∷ []) w
    | none ↦ elim (resolve w raw_path) [
      | raise e ↦ raise e
      | ok none ↦ mkdir_new parents target raw_path w
      | ok (some node) ↦ elim (is_dir node.node_type && parents) [
        | true ↦ node_path w.mirror node >>= λ path. ok (existed path, w)
        | false ↦ stop_with (file_exists raw_path) [] w
      ]
    ]
  ]
]

-- The options of `mkdir`: whether there is a `-p`, and the targets; or the option it refuses.
pub data MkdirArgs : Type 0 where
  mkdir_args : Bool → List Text → MkdirArgs
  unsupported : Text → MkdirArgs

unfoldable pub read_mkdir_args : Bool → List Text → List Text → MkdirArgs
read_mkdir_args parents targets [] = mkdir_args parents targets
read_mkdir_args parents targets (arg ∷ args) = elim (arg == text "-p") [
  | true ↦ read_mkdir_args true targets args
  | false ↦ elim (starts_with arg (text "-")) [
    | true ↦ unsupported arg
    | false ↦ read_mkdir_args parents (targets ++ arg ∷ []) args
  ]
]

unfoldable pub mkdir_done : Bool → List Text → List Text → World → Outcome
mkdir_done parents created existing = succeed (text "mkdir " ++ summary_of created existing) (
    (text "created", texts created)
    ∷ (text "existing", texts existing)
    ∷ (text "parents", flag parents)
    ∷ [])

unfoldable pub exec_mkdir : List Text → World → Outcome
unfolding read_mkdir_args operands mkdir_one mkdir_done
exec_mkdir [] w = fail (text "mkdir: missing operand") [] w
exec_mkdir (arg ∷ args) w = elim (read_mkdir_args false [] (arg ∷ args)) [
  | unsupported option ↦ fail (text "mkdir: unsupported option: " ++ option) [] w
  | mkdir_args parents [] ↦ fail (text "mkdir: missing operand") [] w
  | mkdir_args parents (t ∷ ts) ↦ operands (mkdir_one parents) (mkdir_done parents) [] [] (t ∷ ts) w
]

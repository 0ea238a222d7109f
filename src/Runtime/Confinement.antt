-- ===== src/Runtime/Confinement.antt =====
-- Where commands write: each one that changes the world has a target below the workspace's root.
use iruka_virtual_file_syste.Prelude.{
  true, false, Option, none, some, [], ◌∷◌, nat_eq, list_eq, ◌≡◌, refl, inl, inr, ◌⊎◌, Bool-cases,
}
use iruka_virtual_file_syste.Text.{Text, text, starts_with}
use iruka_virtual_file_syste.Result.{Result, ok, raise, ◌>>=◌, Result-cases}
use iruka_virtual_file_syste.Model.{Node, is_dir}
use iruka_virtual_file_syste.Paths.{path_is_under}
use iruka_virtual_file_syste.Paths.Resolve.{node_path}
use iruka_virtual_file_syste.Paths.Normalize.{vfs_root, allow_write_path, deny_reason}
use iruka_virtual_file_syste.Runtime.World.{World, Externals, Outcome, fail}
use iruka_virtual_file_syste.Runtime.Targets.{
  resolve, resolve_target_path_for_write, format_missing_path_error,
}
use iruka_virtual_file_syste.Runtime.Files.{file_only, remove_file, exec_rm}
use iruka_virtual_file_syste.Runtime.Edits.{with_editable}
use iruka_virtual_file_syste.Runtime.Transfers.{
  place, taken, place_of, checked_target, with_source, copy_placed, move_placed, exec_cp, exec_mv,
}
use iruka_virtual_file_syste.Command.Pipeline.{Redirect}
use iruka_virtual_file_syste.Runtime.Redirects.{apply_redirect, redirect_to, is_directory}

-- The world after a command; an exception leaves no world to speak of, so it counts as before.
abbrev pub world_after : World → Outcome → World
world_after w (ok (result, w')) = w'
world_after w (raise e) = w

-- The path is the root of the workspace or below it.
abbrev pub IsInside : Text → Type 0
IsInside path = path_is_under path vfs_root ≡ true

pub allow_write_path-cases :
    (path : Text)
    → (IsInside path × (allow_write_path path ≡ none))
      ⊎ (allow_write_path path ≡ some (deny_reason path))
unfolding allow_write_path
allow_write_path-cases path = elim (Bool-cases (path_is_under path vfs_root)) [
  | inl inside ↦ inl (inside, rw (allow_write_path, inside) refl)
  | inr outside ↦ inr (rw (allow_write_path, outside) refl)
]

-- The path that the command works on names a node with a path inside the workspace.
abbrev pub NamesInside : World → Text → Type 0
NamesInside w raw =
    (node : Node) × (path : Text) × (resolve w raw ≡ ok (some node))
    × (node_path w.mirror node ≡ ok path)
    × IsInside path

refusal : (w : World) (r : Result Text) → world_after w (r >>= λ message. fail message [] w) ≡ w
refusal w (ok message) = refl
refusal w (raise e) = refl

-- `edit` and `patch` leave the world as it is, or their path names something inside the workspace.
pub with_editable-NamesInside :
    (ext : Externals) (command path : Text) (w : World) (continue : Node → Text → Outcome)
    → (world_after w (with_editable ext command path w continue) ≡ w) ⊎ NamesInside w path
unfolding with_editable file_only
with_editable-NamesInside ext command path w continue = elim (Result-cases (resolve w path)) [
  | inl (e, q) ↦ inl (rw (with_editable, q) refl)
  | inr (none, q) ↦
      inl (rw (with_editable, q) (refusal w (format_missing_path_error ext w command path false)))
  | inr (some node, q) ↦ elim (Bool-cases (is_dir node.node_type)) [
    | inl d ↦
        inl (
          rw (with_editable, q, d) (refusal w (format_missing_path_error ext w command path false)))
    | inr f ↦ elim (Result-cases (node_path w.mirror node)) [
      | inl (e, p) ↦ inl (rw (with_editable, q, f, p) refl)
      | inr (target, p) ↦ elim (allow_write_path-cases target) [
        | inl (inside, allowed) ↦ inr (node, target, q, p, inside)
        | inr denied ↦ inl (rw (with_editable, q, f, p, denied) refl)
      ]
    ]
  ]
]

-- `rm` leaves the world as it is, or its operand names something inside the workspace.
pub exec_rm-NamesInside :
    (ext : Externals) (target : Text) (w : World)
    → (world_after w (exec_rm ext (target ∷ []) w) ≡ w) ⊎ NamesInside w target
unfolding exec_rm remove_file file_only
exec_rm-NamesInside ext target w = elim (Bool-cases (starts_with target (text "-"))) [
  | inl dash ↦ inl (rw (exec_rm, dash) refl)
  | inr plain ↦ elim (Result-cases (resolve w target)) [
    | inl (e, q) ↦ inl (rw (exec_rm, plain, q) refl)
    | inr (none, q) ↦ inl (
        rw (exec_rm, plain, q)
          (refusal w (format_missing_path_error ext w (text "rm") target false)))
    | inr (some node, q) ↦ elim (Bool-cases (is_dir node.node_type)) [
      | inl d ↦ inl (
          rw (exec_rm, plain, q, d)
            (refusal w (format_missing_path_error ext w (text "rm") target false)))
      | inr f ↦ elim (Result-cases (node_path w.mirror node)) [
        | inl (e, p) ↦ inl (rw (exec_rm, remove_file, plain, q, f, p) refl)
        | inr (path, p) ↦ elim (allow_write_path-cases path) [
          | inl (inside, allowed) ↦ inr (node, path, q, p, inside)
          | inr denied ↦ inl (rw (exec_rm, remove_file, plain, q, f, p, denied) refl)
        ]
      ]
    ]
  ]
]

-- The path that the write goes to, by the path and the node that the command has for it.
abbrev pub WritesInside : World → Text → Option Node → Type 0
WritesInside w raw node =
    (target : Text) × (resolve_target_path_for_write w raw node ≡ ok (some target))
    × IsInside target

-- A redirect leaves the world as it is, or the path that its operand stands for is inside the
-- workspace.
pub apply_redirect-WritesInside :
    (ext : Externals) (redirect : Redirect) (output_text : Text) (w : World)
    → (world_after w (apply_redirect ext redirect output_text w) ≡ w)
      ⊎ ((node : Option Node) × (resolve w redirect.path ≡ ok node)
          × WritesInside w redirect.path node)
unfolding apply_redirect redirect_to
apply_redirect-WritesInside ext redirect output_text w =
    elim (Result-cases (resolve w redirect.path)) [
      | inl (e, q) ↦ inl (rw (apply_redirect, q) refl)
      | inr (node, q) ↦ elim (Bool-cases (is_directory node)) [
        | inl d ↦ inl (rw (apply_redirect, q, d) refl)
        | inr f ↦ elim (Result-cases (resolve_target_path_for_write w redirect.path node)) [
          | inl (e, t) ↦ inl (rw (apply_redirect, redirect_to, q, f, t) refl)
          | inr (none, t) ↦ inl (rw (apply_redirect, redirect_to, q, f, t) refl)
          | inr (some target, t) ↦ elim (allow_write_path-cases target) [
            | inl (inside, allowed) ↦ inr (node, q, (target, t, inside))
            | inr denied ↦ inl (rw (apply_redirect, redirect_to, q, f, t, denied) refl)
          ]
        ]
      ]
    ]

-- `cp` and `mv` go on, with this end, only to a target inside the workspace.
checked_target-WritesInside :
    (command cannot target : Text) (node : Option Node) (w : World) (continue : Text → Outcome)
    → (world_after w (checked_target command cannot target node w continue) ≡ w)
      ⊎ WritesInside w target node
unfolding checked_target
checked_target-WritesInside command cannot target node w continue =
    elim (Result-cases (resolve_target_path_for_write w target node)) [
      | inl (e, t) ↦ inl (rw (checked_target, t) refl)
      | inr (none, t) ↦ inl (rw (checked_target, t) refl)
      | inr (some resolved, t) ↦ elim (allow_write_path-cases resolved) [
        | inl (inside, allowed) ↦ inr (resolved, t, inside)
        | inr denied ↦ inl (rw (checked_target, t, denied) refl)
      ]
    ]

-- The target and its node as `cp` and `mv` resolve them for a source, inside the workspace.
abbrev pub PlacedInside : World → Text → Text → Type 0
PlacedInside w source target =
    (source_node : Node) × (raw : Text) × (node : Option Node) × (resolve w source
      ≡ ok (some source_node))
    × (place_of w source_node target ≡ ok (place raw node))
    × WritesInside w raw node

with_source-PlacedInside :
    (ext : Externals) (command source target : Text) (w : World)
    (continue : Node → Text → Option Node → Outcome)
    (confined : (n : Node) (raw : Text) (node : Option Node)
      → (world_after w (continue n raw node) ≡ w) ⊎ WritesInside w raw node)
    → (world_after w (with_source ext command source target w continue) ≡ w)
      ⊎ PlacedInside w source target
unfolding with_source file_only
with_source-PlacedInside ext command source target w continue confined =
    elim (Result-cases (resolve w source)) [
      | inl (e, q) ↦ inl (rw (with_source, q) refl)
      | inr (none, q) ↦
          inl
            (rw (with_source, q) (refusal w (format_missing_path_error ext w command source false)))
      | inr (some node, q) ↦ elim (Bool-cases (is_dir node.node_type)) [
        | inl d ↦ inl (
            rw (with_source, q, d)
              (refusal w (format_missing_path_error ext w command source false)))
        | inr f ↦ elim (Result-cases (place_of w node target)) [
          | inl (e, p) ↦ inl (rw (with_source, q, f, p) refl)
          | inr (taken path, p) ↦ inl (rw (with_source, q, f, p) refl)
          | inr (place raw at, p) ↦ elim (confined node raw at) [
            | inl same ↦ inl (rw (with_source, q, f, p) same)
            | inr inside ↦ inr (node, raw, at, q, p, inside)
          ]
        ]
      ]
    ]

-- `cp` and `mv` leave the world as it is, or the path that their target stands for is inside the
-- workspace. The source of `mv` may be anywhere.
pub transfers_confined :
    (ext : Externals) (source target : Text) (w : World)
    → ((world_after w (exec_cp ext (source ∷ target ∷ []) w) ≡ w) ⊎ PlacedInside w source target)
      × ((world_after w (exec_mv ext (source ∷ target ∷ []) w) ≡ w) ⊎ PlacedInside w source target)
unfolding exec_cp exec_mv copy_placed move_placed
transfers_confined ext source target w = (
  with_source-PlacedInside ext (text "cp") source target w
      (λ n raw node. copy_placed ext n raw node w)
      (λ n raw node.
        checked_target-WritesInside (text "cp") (text ": cannot create '") raw node w _),
  with_source-PlacedInside ext (text "mv") source target w
      (λ n raw node. move_placed source n raw node w)
      (λ n raw node.
        checked_target-WritesInside (text "mv") (text ": cannot move to '") raw node w _),
)

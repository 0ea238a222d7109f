-- ===== src/Host/Writes.antt =====
-- What a successful write of the host went through.
use mathlib.Core.Path.{subst}
use iruka_virtual_file_syste.Prelude.{
  ℕ, ◌+◌, int_eq, if◌then◌else◌, list_beq_iff, ◌≡◌, refl, sym, ap, ◌∙◌, Bool, true, false, none,
  some, ◌⊎◌, inl, inr, [], ◌++◌, ◌==◌, nat_eq, list_eq, Bool-cases, Option-cases,
}
use iruka_virtual_file_syste.Text.{Text, text}
use iruka_virtual_file_syste.Dict.{get}
use iruka_virtual_file_syste.Result.{
  Result, Error, ok, raise, file_exists_error, permission_error, ◌>>=◌, Result-cases,
}
use iruka_virtual_file_syste.Result.Chains.{middle}
use iruka_virtual_file_syste.Model.{version_or_one, Node, Value}
use iruka_virtual_file_syste.Context.{Settings, assert_workspace_tenant, normalize_tenant_id}
use iruka_virtual_file_syste.Paths.Normalize.{
  AccessMode, host, normalize_workspace_path, allow_write_path,
}
use iruka_virtual_file_syste.Paths.Resolve.{rpartition}
use iruka_virtual_file_syste.Paths.Clean.{IsNormal, normalize_workspace_path_lem}
use iruka_virtual_file_syste.Runtime.World.{World, Externals, get_node_content, get_node_version}
use iruka_virtual_file_syste.Runtime.Targets.{
  detect_ambiguous_create_target, format_ambiguous_create_target_message,
}
use iruka_virtual_file_syste.Runtime.Edits.{write_file}
use iruka_virtual_file_syste.Runtime.Writes.{write_file-get_node_content}
use iruka_virtual_file_syste.Host.{
  Seeded, written, seeded_path, seed_found, seed_node, ensure_virtual_dir_path, or_root,
  seed_workspace_file,
}
use iruka_virtual_file_syste.Host.Api.{
  same_mode, workspace_access_mode_for_runtime, assert_workspace_access_mode, with_session,
  write_normalized, write_workspace_file,
}

abbrev reported : Result (Seeded × World) → Text
unfolding seeded_path
reported (ok (r, w)) = seeded_path r
reported (raise e) = []

-- An overwriting call on a file that is there writes it, or raises what the write raises.
overwrite_outcome :
    (normalized content : Text) (conflicts : Bool) (node : Node) (w : World)
    → ((version : ℕ) × (after : World) × (seed_found normalized content true conflicts
            (node, false, w)
          ≡ ok (written normalized version false, after)))
      ⊎ ((x : Error) × (seed_found normalized content true conflicts (node, false, w) ≡ raise x))
unfolding seed_found
overwrite_outcome normalized content conflicts node w =
    elim (Bool-cases (get_node_content w.mirror node == content)) [
      | inl same ↦ inl (get_node_version w.mirror node, w, rw (seed_found, same) refl)
      | inr other ↦ elim (Result-cases (write_file node content w)) [
        | inl (x, failed) ↦ inr (x, rw (seed_found, other, failed) refl)
        | inr ((version, after), wrote) ↦ inl (version, after, rw (seed_found, other, wrote) refl)
      ]
    ]

seed_found-path :
    (normalized content : Text) (overwrite conflicts : Bool) (node : Node) (created : Bool)
    (w w' : World) (r : Seeded)
    → seed_found normalized content overwrite conflicts (node, created, w) ≡ ok (r, w')
    → seeded_path r ≡ normalized
unfolding seed_found seeded_path
seed_found-path normalized content overwrite conflicts node true w w' r h = sym (ap reported h)
seed_found-path normalized content false true node false w w' r h = sym (ap reported h)
seed_found-path normalized content false false node false w w' r h = sym (ap reported h)
seed_found-path normalized content true conflicts node false w w' r h =
    elim (overwrite_outcome normalized content conflicts node w) [
      | inl (v, after, e) ↦ sym (ap reported h) ∙ ap reported e
      | inr (x, e) ↦ cc (sym h ∙ e)
    ]

seed_workspace_file-path :
    (path content : Text) (overwrite conflicts : Bool) (w w' : World) (r : Seeded)
    → seed_workspace_file path content overwrite conflicts w ≡ ok (r, w')
    → IsNormal (seeded_path r)
unfolding seed_workspace_file
seed_workspace_file-path path content overwrite conflicts w w' r h =
    let finish =
      λ (n : Text) (f : Node × Bool × World). seed_found n content overwrite conflicts f in
    let place =
      λ (n : Text) (p : Node × World). seed_node n content p.0 (rpartition n).1 p.1 >>= finish n in
    let dirs = λ (n : Text). ensure_virtual_dir_path (or_root (rpartition n).0) w >>= place n in
    let (n, h1, normal) = middle (normalize_workspace_path path true) dirs (r, w') h in
    let (p, h2, _) =
      middle (ensure_virtual_dir_path (or_root (rpartition n).0) w) (place n) (r, w') h1 in
    let ((node, created, after), h3, _) =
      middle (seed_node n content p.0 (rpartition n).1 p.1) (finish n) (r, w') h2 in
    subst IsNormal (sym (seed_found-path n content overwrite conflicts node created after w' r h3))
      (normalize_workspace_path_lem path n true normal)

-- The file that a call overwrites has the call's content afterwards.
pub seed_found-get_node_content :
    (normalized content : Text) (conflicts : Bool) (node n : Node) (w w' : World) (r : Seeded)
    → get node.id w.mirror.nodes ≡ some n
    → n.id ≡ node.id
    → seed_found normalized content true conflicts (node, false, w) ≡ ok (r, w')
    → get_node_content w'.mirror node ≡ content
unfolding seed_found
seed_found-get_node_content normalized content conflicts node n w w' r found same h =
    elim (Bool-cases (get_node_content w.mirror node == content)) [
      | inl there ↦
          ap after (sym h ∙ unchanged there)
          ∙ (list_beq_iff (get_node_content w.mirror node) content).0 there
      | inr other ↦
          let (w'', wrote, read, _) = write_file-get_node_content node n content w found same in
          ap after (sym h ∙ rewritten w'' other wrote) ∙ read
    ]
  where
    after : Result (Seeded × World) → Text
    after (ok (s, u)) = get_node_content u.mirror node
    after (raise e) = content

    unchanged :
        (get_node_content w.mirror node == content) ≡ true
        → seed_found normalized content true conflicts (node, false, w)
          ≡ ok (written normalized (get_node_version w.mirror node) false, w)
    unchanged there = rw (seed_found, there) refl

    rewritten :
        (u : World)
        → (get_node_content w.mirror node == content) ≡ false
        → write_file node content w ≡ ok (version_or_one n.version_no + 1, u)
        → seed_found normalized content true conflicts (node, false, w)
          ≡ ok (written normalized (version_or_one n.version_no + 1) false, u)
    rewritten u other wrote = rw (seed_found, other, wrote) refl

-- A check that succeeds has passed.
guarded :
    {A : Type 0} (test : Bool) (a : A) (e : Error) (out : A)
    → (if test then ok a else raise e) ≡ ok out
    → test ≡ true
guarded true a e out h = refl
guarded false a e out h = cc

tenant_checked :
    (settings : Settings) (expected tenant_id tenant : Text)
    → assert_workspace_tenant settings expected tenant_id ≡ ok tenant
    → (expected == normalize_tenant_id settings tenant_id) ≡ true
unfolding assert_workspace_tenant
tenant_checked settings expected tenant_id tenant h =
    guarded (expected == normalize_tenant_id settings tenant_id) _ _ tenant h

module _ (ext : Externals) (str : Value → Text) where
  mode_checked :
      (w : World) (mode : AccessMode)
      → assert_workspace_access_mode ext str host w ≡ ok mode
      → same_mode (workspace_access_mode_for_runtime ext str w) host ≡ true
  unfolding assert_workspace_access_mode
  mode_checked w mode h =
      guarded (same_mode (workspace_access_mode_for_runtime ext str w) host) _ _ mode h

  -- The checks on the target raise, or leave the call to the seeding.
  write_normalized-cases :
      (normalized content : Text) (overwrite : Bool) (w : World)
      → ((x : Error) × (write_normalized ext str normalized content overwrite w ≡ raise x))
        ⊎ (write_normalized ext str normalized content overwrite w
            ≡ seed_workspace_file normalized content overwrite true w)
  unfolding write_normalized
  write_normalized-cases normalized content overwrite w =
      elim (Result-cases (detect_ambiguous_create_target ext w normalized none)) [
        | inl (e, failed) ↦ inl (e, rw (write_normalized, failed) refl)
        | inr (some found, ambiguous) ↦
            let message = format_ambiguous_create_target_message ext found (text "write_file") in
            inl (file_exists_error message, rw (write_normalized, ambiguous) refl)
        | inr (none, free) ↦ elim (Option-cases (allow_write_path normalized)) [
          | inr (reason, denied) ↦ inl (
            permission_error (text "write_file: " ++ reason),
            rw (write_normalized, free, denied) refl,
          )
          | inl allowed ↦ inr (rw (write_normalized, free, allowed) refl)
        ]
      ]

  write_normalized-path :
      (normalized content : Text) (overwrite : Bool) (w w' : World) (r : Seeded)
      → write_normalized ext str normalized content overwrite w ≡ ok (r, w')
      → IsNormal (seeded_path r)
  write_normalized-path normalized content overwrite w w' r h =
      elim (write_normalized-cases normalized content overwrite w) [
        | inl (x, e) ↦ cc (sym h ∙ e)
        | inr e ↦ seed_workspace_file-path normalized content overwrite true w w' r (sym e ∙ h)
      ]

  -- A write of the host that succeeds is made by a caller of the workspace's tenant, while the
  -- workspace is in the host's mode, and the path that it reports is the root of the workspace or
  -- below it, and a slash and clean parts with slashes between them.
  pub write_workspace_file_lem :
      (settings : Settings) (tenant_id path content : Text) (overwrite : Bool) (w w' : World)
      (r : Seeded)
      → write_workspace_file ext str settings tenant_id path content overwrite w ≡ ok (r, w')
      → ((w.mirror.tenant_key == normalize_tenant_id settings tenant_id) ≡ true)
        × (same_mode (workspace_access_mode_for_runtime ext str w) host ≡ true)
        × IsNormal (seeded_path r)
  unfolding write_workspace_file
  write_workspace_file_lem settings tenant_id path content overwrite w w' r h =
      let write =
        λ (n : Text). write_normalized ext str n content overwrite (with_session ext str w) in
      let target = λ (m : AccessMode). normalize_workspace_path path true >>= write in
      let check = λ (t : Text). assert_workspace_access_mode ext str host w >>= target in
      let (t, h1, tenant) =
        middle (assert_workspace_tenant settings w.mirror.tenant_key tenant_id) check (r, w') h in
      let (m, h2, mode) = middle (assert_workspace_access_mode ext str host w) target (r, w') h1 in
      let (n, h3, _) = middle (normalize_workspace_path path true) write (r, w') h2 in
      (
        tenant_checked settings w.mirror.tenant_key tenant_id t tenant,
        mode_checked w m mode,
        write_normalized-path n content overwrite (with_session ext str w) w' r h3,
      )

-- ===== src/Runtime/Escapes.antt =====
-- The check of `mkdir -p` (`exec_mkdir` of `runtime/fs_commands.py`), which looks at the path as it
-- is written.
use iruka_virtual_file_syste.Prelude.{
  Bool, true, ◌||◌, arith, none, some, [], ◌∷◌, ◌++◌, nat_eq, list_eq, ◌==◌, ◌≡◌, refl, ap, ◌∙◌,
  inl, inr, ◌⊎◌, beq_refl,
}
use iruka_virtual_file_syste.Text.{Text, text, starts_with}
use iruka_virtual_file_syste.Text.Strip.{rstrip_by, rstrip_cons, rstrip_char}
use iruka_virtual_file_syste.Result.{ok}
use iruka_virtual_file_syste.Paths.{path_is_under, norm_path}
use iruka_virtual_file_syste.Paths.Normalize.{
  vfs_root, allow_write_path, normalize_virtual_path, or_slash,
}
use iruka_virtual_file_syste.Runtime.World.{World}
use iruka_virtual_file_syste.Runtime.Directories.{mkdir_target}

abbrev below : Text → Text
below s = vfs_root ++ (b'/' ∷ s)

abbrev around : Text → Text → Text
around [] tail = tail
around (c ∷ s) tail = rstrip_cons (λ d. d == b'/') c (around s tail)

-- A path below the root keeps the root in front when its last slashes are dropped.
rstrip-below :
    (s : Text)
    → (rstrip_char b'/' (below s) ≡ vfs_root)
      ⊎ ((y : Text) × (rstrip_char b'/' (below s) ≡ below y))
unfolding rstrip_char rstrip_by rstrip_cons vfs_root text
rstrip-below s = go (rstrip_by (λ d. d == b'/') s)
  where
    go :
        (r : Text)
        → (around vfs_root (rstrip_cons (λ d. d == b'/') b'/' r) ≡ vfs_root)
          ⊎ ((y : Text) × (around vfs_root (rstrip_cons (λ d. d == b'/') b'/' r) ≡ below y))
    go [] = inl refl
    go (d ∷ y) = inr (d ∷ y, refl)

starts_with-append : (p y : Text) → starts_with (p ++ y) p ≡ true
unfolding starts_with
starts_with-append [] y = refl
starts_with-append (c ∷ p) y = rw (beq_refl c) (starts_with-append p y)

norm_path-root : norm_path vfs_root ≡ vfs_root
unfolding vfs_root rstrip_char rstrip_by rstrip_cons text
norm_path-root = refl

norm_path-below :
    (y : Text) → (norm_path (below y) ≡ vfs_root) ⊎ ((z : Text) × (norm_path (below y) ≡ below z))
unfolding vfs_root text
norm_path-below y = elim (rstrip-below y) [
  | inl gone ↦ inl (rw gone refl)
  | inr (z, stays) ↦ inr (z, rw stays refl)
]

under_of_norm :
    (path norm : Text)
    → norm_path path ≡ norm
    → ((norm == vfs_root) || starts_with norm (vfs_root ++ text "/")) ≡ true
    → path_is_under path vfs_root ≡ true
unfolding path_is_under
under_of_norm path norm e h =
    ap (λ n. (n == norm_path vfs_root) || starts_with n (norm_path vfs_root ++ text "/")) e
    ∙ ap (λ r. (norm == r) || starts_with norm (r ++ text "/")) norm_path-root
    ∙ h

root-is_under : path_is_under vfs_root vfs_root ≡ true
root-is_under = under_of_norm vfs_root vfs_root norm_path-root (rw (beq_refl vfs_root) refl)

below-starts_with : (z : Text) → starts_with (below z) (vfs_root ++ text "/") ≡ true
unfolding vfs_root text
below-starts_with z = starts_with-append (vfs_root ++ text "/") z

below-is_under : (y : Text) → path_is_under (below y) vfs_root ≡ true
below-is_under y = elim (norm_path-below y) [
  | inl e ↦ under_of_norm (below y) vfs_root e (rw (beq_refl vfs_root) refl)
  | inr (z, e) ↦
      under_of_norm (below y) (below z) e (or_true (below z == vfs_root) (below-starts_with z))
]
  where
    or_true : (a : Bool) {b : Bool} → b ≡ true → (a || b) ≡ true
    or_true a h = ground arith

allowed : (path : Text) → path_is_under path vfs_root ≡ true → allow_write_path path ≡ none
unfolding allow_write_path
allowed path inside = rw (allow_write_path, inside) refl

-- The check of `mkdir -p` lets every path pass that begins with the workspace's root and a slash,
-- whatever parts follow, those that lead out of the workspace included.
pub mkdir_target-allow_write_path :
    (s : Text) (w : World)
    → (target : Text) × (mkdir_target true (vfs_root ++ (b'/' ∷ s)) w ≡ ok (some target))
      × (allow_write_path target ≡ none)
unfolding mkdir_target normalize_virtual_path or_slash vfs_root text
mkdir_target-allow_write_path s w = elim (rstrip-below s) [
  | inl gone ↦ (vfs_root, rw gone refl, allowed vfs_root root-is_under)
  | inr (y, stays) ↦ (below y, rw stays refl, allowed (below y) (below-is_under y))
]

-- ===== src/Paths/Clean.antt =====
-- What `normalize_workspace_path` of `service_ops/bootstrap.py` promises of its result.
use iruka_virtual_file_syste.Prelude.{
  Bool, true, false, ◌&&◌, ◌||◌, List, [], ◌∷◌, ◌++◌, contains, nat_eq, list_eq, ◌==◌, ◌≡◌, refl,
  inl, inr, arith, Bool-cases,
}
use iruka_virtual_file_syste.Text.{Text, text, split_on, join}
use iruka_virtual_file_syste.Text.Strip.{strip}
use iruka_virtual_file_syste.Result.{Result, ok, raise, value_error, Result-cases}
use mathlib.Core.Path.{subst}
use iruka_virtual_file_syste.Paths.{path_is_under}
use iruka_virtual_file_syste.Paths.Normalize.{
  vfs_root, clean_parts, check_normalized, absolute, missing_path, normalize_workspace_path,
}

-- No part is empty, `.` or `..`.
abbrev pub AreClean : List Text → Type 0
AreClean parts =
    (contains [] parts ≡ false)
    × (contains (text ".") parts ≡ false)
    × (contains (text "..") parts ≡ false)

abbrev CleanResult : Result (List Text) → Type 0
CleanResult (ok parts) = AreClean parts
CleanResult (raise e) = Unit

clean_parts-CleanResult : (raw : Text) (parts : List Text) → CleanResult (clean_parts raw parts)
unfolding clean_parts contains
clean_parts-CleanResult raw [] = (refl, refl, refl)
clean_parts-CleanResult raw (part ∷ parts) = elim (Bool-cases (part == [] || part == text ".")) [
  | inl skip ↦ rw (clean_parts, skip) (clean_parts-CleanResult raw parts)
  | inr other ↦ elim (Bool-cases (part == text "..")) [
    | inl up ↦ rw (clean_parts, other, up) tt
    | inr plain ↦ elim (Result-cases (clean_parts raw parts)) [
      | inl (e, q) ↦ rw (clean_parts, other, plain, q) tt
      | inr (rest, q) ↦
          let clean : AreClean rest = subst CleanResult q (clean_parts-CleanResult raw parts) in
          rw (clean_parts, other, plain, q)
            (
              ground (arith, other, clean.0),
              ground (arith, other, clean.1),
              ground (arith, plain, clean.2),
            )
    ]
  ]
]

-- The path is inside the workspace, and a slash and clean parts with slashes between them.
abbrev pub IsNormal : Text → Type 0
IsNormal path =
    (path_is_under path vfs_root ≡ true)
    × ((parts : List Text) × (path ≡ text "/" ++ join (text "/") parts) × AreClean parts)

abbrev NormalResult : Result Text → Type 0
NormalResult (ok path) = IsNormal path
NormalResult (raise e) = Unit

check_normalized-NormalResult :
    (raw : Text) (require_file : Bool) (parts : List Text)
    → AreClean parts
    → NormalResult (check_normalized raw require_file (text "/" ++ join (text "/") parts))
unfolding check_normalized
check_normalized-NormalResult raw require_file parts clean =
    elim (Bool-cases (path_is_under (text "/" ++ join (text "/") parts) vfs_root)) [
      | inr outside ↦ rw (check_normalized, outside) tt
      | inl inside ↦
          elim (Bool-cases (require_file && (text "/" ++ join (text "/") parts) == vfs_root)) [
            | inl root ↦ rw (check_normalized, inside, root) tt
            | inr other ↦ rw (check_normalized, inside, other) (inside, (parts, refl, clean))
          ]
    ]

normalize_workspace_path-NormalResult :
    (raw_path : Text) (require_file : Bool)
    → NormalResult (normalize_workspace_path raw_path require_file)
unfolding normalize_workspace_path
normalize_workspace_path-NormalResult raw_path require_file = go (strip raw_path)
  where
    go :
        (s : Text)
        → NormalResult (elim s [
          | [] ↦ raise (value_error missing_path)
          | c ∷ t ↦ elim (clean_parts raw_path (split_on b'/' (absolute (c ∷ t)))) [
            | raise e ↦ raise e
            | ok parts ↦ check_normalized raw_path require_file (text "/" ++ join (text "/") parts)
          ]
        ])
    go [] = tt
    go (c ∷ t) = elim (Result-cases (clean_parts raw_path (split_on b'/' (absolute (c ∷ t))))) [
      | inl (e, q) ↦ rw q tt
      | inr (parts, q) ↦ rw q (
          check_normalized-NormalResult raw_path require_file parts (
            subst CleanResult q
              (clean_parts-CleanResult raw_path (split_on b'/' (absolute (c ∷ t))))))
    ]

-- A path that is normalized is the root of the workspace or below it, and a slash and parts with
-- slashes between them, none of which is empty, `.` or `..`.
pub normalize_workspace_path_lem :
    (raw_path path : Text) (require_file : Bool)
    → normalize_workspace_path raw_path require_file ≡ ok path
    → IsNormal path
normalize_workspace_path_lem raw_path path require_file h =
    subst NormalResult h (normalize_workspace_path-NormalResult raw_path require_file)

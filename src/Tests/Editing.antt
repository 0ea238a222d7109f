-- ===== src/Tests/Editing.antt =====
-- The theorem on unified diffs at a concrete text and diff.
use iruka_virtual_file_syste.Prelude.{◌≡◌, refl, [], ◌∷◌}
use iruka_virtual_file_syste.Text.{text, starts_with}
use iruka_virtual_file_syste.Text.Lines.{splitlines}
use iruka_virtual_file_syste.Text.Number.{is_digit, read_digits}
use iruka_virtual_file_syste.Result.{ok}
use iruka_virtual_file_syste.Editing.Patch.{apply_unified_patch, join_lines, match_header}
use iruka_virtual_file_syste.Editing.Hunks.{Hunk, kept, removed, added, apply_unified_patch_lem}

abbrev hunk : Hunk
hunk = record {
  gap = text "a" ∷ [];
  header = text "@@ -2,2 +2,2 @@";
  edits = kept (text "b") ∷ removed (text "c") ∷ added (text "d") ∷ [];
}

apply_unified_patch_example :
    apply_unified_patch (text "a\nb\nc\ne\n") (text "@@ -2,2 +2,2 @@\n b\n-c\n+d")
    ≡ ok (join_lines (text "a\nb\nc\ne\n") (text "a" ∷ text "b" ∷ text "d" ∷ text "e" ∷ []), [])
unfolding text starts_with splitlines match_header is_digit read_digits
apply_unified_patch_example =
    apply_unified_patch_lem (text "a\nb\nc\ne\n") (text "@@ -2,2 +2,2 @@\n b\n-c\n+d") (hunk ∷ [])
      (text "e" ∷ []) refl refl (refl, refl, tt)

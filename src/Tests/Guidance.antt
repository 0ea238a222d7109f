-- ===== src/Tests/Guidance.antt =====
-- Runs of the guidance model and its theorems at concrete data.
use iruka_virtual_file_syste.Prelude.{
  length, ◌≤◌, ◌≡◌, refl, false, not, none, some, [], ◌∷◌, contains, Distinct, ◌&&◌, list_beq,
  list_eq, nat_eq,
}
use iruka_virtual_file_syste.Text.{Text, text}
use iruka_virtual_file_syste.Guidance.{build_task_guidance}
use iruka_virtual_file_syste.Guidance.Lists.{unique_ordered, is_empty}
use iruka_virtual_file_syste.Guidance.Events.{Summary, Artifacts, command_kind, summarize_command}
use iruka_virtual_file_syste.Guidance.Tracking.{State, normalize_paths}
use iruka_virtual_file_syste.Guidance.Unique.{unique_ordered_lem}
use iruka_virtual_file_syste.Guidance.Verification.{
  edit_pending, read_clears, recreated_untracked, tracked_bounded,
}

abbrev a_md : Text
a_md = text "/workspace/a.md"

abbrev b_md : Text
b_md = text "/workspace/b.md"

abbrev before : State
before = record {
  read_paths = a_md ∷ [];
  written_paths = a_md ∷ b_md ∷ [];
  verified_paths = [];
  removed_paths = b_md ∷ [];
  target_candidates = [];
}

abbrev nothing : Artifacts
nothing = record { files = []; path = none; source = none; target = none; created = [] }

unique_run : unique_ordered (a_md ∷ b_md ∷ [] ∷ a_md ∷ []) ≡ a_md ∷ b_md ∷ []
unfolding unique_ordered text contains list_beq
unique_run = refl

edit_pending_example :
    contains a_md
      (build_task_guidance before
        (summarize_command (text "edit") (record nothing { path = some a_md }))).required_paths
    ≡ not (contains a_md (normalize_paths before.removed_paths))
unfolding command_kind text contains list_beq
edit_pending_example =
    edit_pending before (text "edit") a_md (record nothing { path = some a_md }) refl refl refl

read_clears_example :
    contains a_md
      (build_task_guidance before
        (summarize_command (text "cat") (record nothing { files = a_md ∷ [] }))).required_paths
    ≡ false
unfolding command_kind text contains list_beq
read_clears_example =
    read_clears before (text "cat") a_md (record nothing { files = a_md ∷ [] }) refl refl refl

recreated_untracked_example :
    let removed =
      (build_task_guidance before
        (summarize_command (text "rm") (record nothing { path = some a_md }))).state in
    let touched = summarize_command (text "touch") (record nothing { created = a_md ∷ [] }) in
    contains a_md (build_task_guidance removed touched).modified_paths ≡ false
unfolding command_kind text contains list_beq
recreated_untracked_example =
    recreated_untracked before (text "rm") (text "touch") a_md (record nothing { path = some a_md })
      (record nothing { created = a_md ∷ [] }) refl refl refl refl refl

abbrev edited : Summary
edited = summarize_command (text "edit") (record nothing { path = some a_md })

tracked_bounded_example :
    let s = (build_task_guidance before edited).state in
    (length s.read_paths ≤ 32)
    × (length s.written_paths ≤ 32)
    × (length s.verified_paths ≤ 32)
    × (length s.removed_paths ≤ 32)
    × (length s.target_candidates ≤ 32)
tracked_bounded_example = tracked_bounded before edited

unique_ordered_example :
    Distinct (unique_ordered (a_md ∷ a_md ∷ []))
    × ((q : Text)
        → contains q (unique_ordered (a_md ∷ a_md ∷ []))
          ≡ (not (is_empty q) && contains q (a_md ∷ a_md ∷ [])))
unique_ordered_example = unique_ordered_lem (a_md ∷ a_md ∷ [])

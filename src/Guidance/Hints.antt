-- ===== src/Guidance/Hints.antt =====
-- The texts of `integrations/agent/guidance.py`, and the guidance of a stored state.
use iruka_virtual_file_syste.Prelude.{
  none, some, List, [], ◌∷◌, ◌++◌, get_or, nat_eq, list_eq, ◌==◌, if◌then◌else◌,
}
use iruka_virtual_file_syste.Text.{Text, text, join}
use iruka_virtual_file_syste.Dict.{Dict, get}
use iruka_virtual_file_syste.Model.{text_value, flag, paths, path_lists, Metadata}
use iruka_virtual_file_syste.Guidance.{TaskGuidance, build_task_guidance}
use iruka_virtual_file_syste.Guidance.Events.{no_events}
use iruka_virtual_file_syste.Guidance.Tracking.{State}

abbrev pub guidance_state_key : Text
guidance_state_key = text "_agent_task_guidance_state"

-- The state under its key in a workspace's metadata; a value of another kind does not occur there.
unfoldable pub stored_state : Metadata → State
stored_state metadata = elim (get guidance_state_key metadata) [
  | some (path_lists lists) ↦ of_lists lists
  | some (paths ps) ↦ of_lists []
  | some (text_value s) ↦ of_lists []
  | some (flag b) ↦ of_lists []
  | none ↦ of_lists []
]
  where
    of_lists : Dict Text (List Text) → State
    of_lists lists = record {
      read_paths = get_or (get (text "read_paths") lists) [];
      written_paths = get_or (get (text "written_paths") lists) [];
      verified_paths = get_or (get (text "verified_paths") lists) [];
      removed_paths = get_or (get (text "removed_paths") lists) [];
      target_candidates = get_or (get (text "target_candidates") lists) [];
    }

-- `task_guidance_from_state`
unfoldable pub task_guidance_from_state : State → TaskGuidance
task_guidance_from_state state = build_task_guidance state no_events

-- The value of "suggested_readback".
unfoldable pub suggested_readback : List Text → Text
suggested_readback [] = []
suggested_readback (p ∷ ps) = text "cat " ++ join (text " ") (p ∷ ps)

unfoldable pub also_targets : Text → List Text → Text
also_targets label [] = []
also_targets label (t ∷ ts) = label ++ (join (text ", ") (t ∷ ts) ++ text ".")

-- `_build_verification_hint`: the modified, the required and the possibly missing paths
unfoldable pub build_verification_hint : List Text → List Text → List Text → Text
unfolding suggested_readback also_targets
build_verification_hint modified_paths (r ∷ rs) targets =
    text "Before finishing, verify every changed file with: "
    ++ (suggested_readback (r ∷ rs)
        ++ (text ". Outstanding paths: "
            ++ (join (text ", ") (r ∷ rs)
                ++ (text ". Reuse these exact paths in the final answer."
                    ++ also_targets (text " Also review possible untouched targets: ") targets))))
build_verification_hint (m ∷ ms) [] targets =
    text "Changed files tracked in this session: "
    ++ (join (text ", ") (m ∷ ms)
        ++ (text ". Reuse these exact paths in the final answer."
            ++ also_targets (text " Possible untouched targets: ") targets))
build_verification_hint [] [] targets = []

-- `', '.join(items) or '-'`
unfoldable pub listed : List Text → Text
listed items = if join (text ", ") items == [] then text "-" else join (text ", ") items

-- A line that is only there with a text.
unfoldable pub line_with : Text → Text → List Text
line_with label [] = []
line_with label (c ∷ s) = (label ++ (c ∷ s)) ∷ []

-- `render_task_guidance_status`, with the recent paths
unfoldable pub render_task_guidance_status : TaskGuidance → List Text → Text
unfolding build_verification_hint suggested_readback listed line_with
render_task_guidance_status g recent_paths = join (10 ∷ []) (
    (text "Task status:")
    ∷ (text "- changed_paths: " ++ listed g.modified_paths)
    ∷ (text "- pending_verification_paths: " ++ listed g.required_paths)
    ∷ (text "- verified_paths: " ++ listed g.state.verified_paths)
    ∷ (text "- possible_missing_targets: " ++ listed g.possible_missing_targets)
    ∷ (text "- recent_paths: " ++ listed recent_paths)
    ∷ (line_with (text "- suggested_readback: ") (suggested_readback g.required_paths)
        ++ line_with (text "- verification_hint: ")
            (build_verification_hint g.modified_paths g.required_paths g.possible_missing_targets)))

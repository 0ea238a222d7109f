-- ===== src/Guidance/Tracking.antt =====
-- `_normalize_state` and `_apply_summary`: the tracked paths, and what a summary does to them.
use iruka_virtual_file_syste.Prelude.{
  not, ◌&&◌, List, [], ◌∷◌, ◌++◌, keep, contains, ◌==◌, list_eq, nat_eq, if◌then◌else◌,
}
use iruka_virtual_file_syste.Text.{Text}
use iruka_virtual_file_syste.Guidance.Lists.{append_unique, trim_paths, unique_ordered}
use iruka_virtual_file_syste.Guidance.Events.{Event, read, write, remove, verify_read, Summary}

pub record State : Type 0 where
  pub read_paths : List Text
  pub written_paths : List Text
  pub verified_paths : List Text
  pub removed_paths : List Text
  pub target_candidates : List Text

-- `_trim_paths(_coerce_path_list(value))`: the lists of a stored state hold texts
unfoldable pub normalize_paths : List Text → List Text
normalize_paths paths = trim_paths (unique_ordered paths)

unfoldable pub normalize_state : State → State
unfolding normalize_paths
normalize_state s = record {
  read_paths = normalize_paths s.read_paths;
  written_paths = normalize_paths s.written_paths;
  verified_paths = normalize_paths s.verified_paths;
  removed_paths = normalize_paths s.removed_paths;
  target_candidates = normalize_paths s.target_candidates;
}

-- One round of the loop over the events.
unfoldable pub apply_event : State → Event → State
apply_event s (read p) = record s { read_paths = append_unique s.read_paths p }
apply_event s (write p) = record s {
  written_paths = append_unique s.written_paths p;
  verified_paths = keep (λ q. not (q == p)) s.verified_paths;
}
apply_event s (remove p) = record s { removed_paths = append_unique s.removed_paths p }
apply_event s (verify_read p) =
    if contains p s.written_paths
      && not (contains p s.verified_paths)
      && not (contains p s.removed_paths)
    then record s { verified_paths = s.verified_paths ++ (p ∷ []) }
    else s

unfoldable pub apply_events : State → List Event → State
unfolding apply_event
apply_events s [] = s
apply_events s (event ∷ events) = apply_events (apply_event s event) events

append_all : List Text → List Text → List Text
append_all items [] = items
append_all items (p ∷ ps) = append_all (append_unique items p) ps

-- `_apply_summary`
unfoldable pub apply_summary : State → Summary → State
unfolding apply_events append_all
apply_summary s summary =
    let t =
      apply_events
        (record s { target_candidates = append_all s.target_candidates summary.target_candidates })
        summary.events in
    record {
      read_paths = trim_paths t.read_paths;
      written_paths = trim_paths t.written_paths;
      verified_paths = trim_paths t.verified_paths;
      removed_paths = trim_paths t.removed_paths;
      target_candidates = trim_paths t.target_candidates;
    }

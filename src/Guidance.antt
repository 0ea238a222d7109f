-- ===== src/Guidance.antt =====
-- `integrations/agent/guidance.py`: which paths an agent has written, read back and removed, and
-- which it still has to verify, and the texts that say so.
pub mod Lists
pub mod Events
pub mod Tracking
pub mod Pending
pub mod Verification
pub mod Unique
pub mod Hints
use iruka_virtual_file_syste.Prelude.{
  Bool, true, false, not, ◌&&◌, List, [], ◌∷◌, ◌++◌, keep, contains, list_eq, nat_eq, ℕ,
}
use iruka_virtual_file_syste.Text.{Text}
use Lists.{unique_ordered}
use Events.{Summary}
use Tracking.{State, normalize_state, apply_summary}

pub record TaskGuidance : Type 0 where
  pub state : State
  pub modified_paths : List Text
  pub required_paths : List Text
  pub possible_missing_targets : List Text
  pub recently_verified_paths : List Text

empty_unless : List Text → List Text → List Text
empty_unless [] paths = []
empty_unless (p ∷ ps) paths = paths

-- `build_task_guidance`, from the summary of the result's artifacts
unfoldable pub build_task_guidance : State → Summary → TaskGuidance
unfolding empty_unless
build_task_guidance previous summary =
    let updated = apply_summary (normalize_state previous) summary in
    let modified = keep (λ p. not (contains p updated.removed_paths)) updated.written_paths in
    let targets =
      keep (λ p. not (contains p modified) && not (contains p updated.removed_paths))
        updated.target_candidates in
    record {
      state = updated;
      modified_paths = modified;
      required_paths =
          keep
            (λ p. not (contains p updated.verified_paths) && not (contains p updated.removed_paths))
            modified;
      possible_missing_targets = empty_unless modified targets;
      recently_verified_paths =
          unique_ordered (keep (λ p. contains p updated.verified_paths) summary.verification_reads);
    }

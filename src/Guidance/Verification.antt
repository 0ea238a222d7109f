-- ===== src/Guidance/Verification.antt =====
-- Which paths `build_task_guidance` reports as still to be verified after one command.
use iruka_virtual_file_syste.Prelude.{
  ◌≤◌, ◌≡◌, inl, inr, Bool, true, false, not, ◌&&◌, some, List, [], ◌∷◌, ◌++◌, keep, length,
  contains, ◌==◌, list_eq, nat_eq, arith, Bool-cases, beq_refl, contains-keep, not-contains-drop,
}
use iruka_virtual_file_syste.Text.{Text}
use iruka_virtual_file_syste.Guidance.{build_task_guidance}
use iruka_virtual_file_syste.Guidance.Events.{
  Artifacts, reads, edits, removes, touches, nonempty, Summary, command_kind, given,
  summarize_command,
}
use iruka_virtual_file_syste.Guidance.Lists.{append_unique, trim_paths, is_empty}
use iruka_virtual_file_syste.Guidance.Tracking.{
  State, normalize_paths, apply_summary, normalize_state,
}
use iruka_virtual_file_syste.Guidance.Pending.{
  length-trim_paths-le, length-normalize_paths-le, contains-trim_paths-append_unique,
  contains-trim_paths-append, trim_paths-normalize_paths, contains-normalize_paths,
}

not-contains-trim_paths-keep :
    (p : Text) (paths : List Text)
    → contains p (trim_paths (keep (λ q. not (q == p)) paths)) ≡ false
unfolding trim_paths
not-contains-trim_paths-keep p paths =
    not-contains-drop p _ (keep (λ q. not (q == p)) paths)
      (rw contains-keep (ground (arith, beq_refl p)))

-- After an `edit` or a `patch` of a path, that path has to be verified exactly when it is not
-- among the removed paths that were tracked before.
pub edit_pending :
    (previous : State) (command p : Text) (a : Artifacts)
    → command_kind command ≡ edits
    → a.path ≡ some p
    → is_empty p ≡ false
    → contains p (build_task_guidance previous (summarize_command command a)).required_paths
      ≡ not (contains p (normalize_paths previous.removed_paths))
unfolding build_task_guidance apply_summary normalize_state summarize_command given
edit_pending previous command p a kind path named =
    rw (kind, path)
      (rw named (
        rw (contains-keep, contains-keep)
          (simp trim_paths-normalize_paths (
            ground (
              arith,
              not-contains-trim_paths-keep p (normalize_paths previous.verified_paths),
              contains-trim_paths-append_unique p (normalize_paths previous.written_paths) named
                  (length-normalize_paths-le previous.written_paths),
            )))))

-- Reading a path back clears it: after a `cat` of it, it is never among the paths to verify.
pub read_clears :
    (previous : State) (command p : Text) (a : Artifacts)
    → command_kind command ≡ reads
    → a.files ≡ p ∷ []
    → is_empty p ≡ false
    → contains p (build_task_guidance previous (summarize_command command a)).required_paths ≡ false
unfolding build_task_guidance apply_summary normalize_state summarize_command
read_clears previous command p a kind files named =
    rw (kind, files)
      (rw (contains-keep, contains-keep)
        (elim (Bool-cases verifies) [
          | inl now ↦ rw now (rw verified_now (ground arith))
          | inr before ↦ rw before (simp trim_paths-normalize_paths (ground (arith, before)))
        ]))
  where
    written : List Text
    written = normalize_paths previous.written_paths

    verified : List Text
    verified = normalize_paths previous.verified_paths

    removed : List Text
    removed = normalize_paths previous.removed_paths

    verifies : Bool
    verifies = contains p written && not (contains p verified) && not (contains p removed)

    verified_now : contains p (trim_paths (verified ++ (p ∷ []))) ≡ true
    verified_now = contains-trim_paths-append p verified (length-normalize_paths-le _)

-- Once a path is removed it stays out of the modified paths: a `touch` that makes it anew is not
-- reported, whatever was tracked before.
pub recreated_untracked :
    (previous : State) (rm touch p : Text) (removal creation : Artifacts)
    → command_kind rm ≡ removes
    → removal.path ≡ some p
    → command_kind touch ≡ touches
    → creation.created ≡ p ∷ []
    → is_empty p ≡ false
    → let removed = (build_task_guidance previous (summarize_command rm removal)).state in
      contains p (build_task_guidance removed (summarize_command touch creation)).modified_paths
      ≡ false
unfolding build_task_guidance apply_summary normalize_state summarize_command given nonempty
recreated_untracked previous rm touch p removal creation k1 path k2 created named =
    rw (k1, path, k2, created)
      (rw named (
        rw contains-keep (
          simp trim_paths-normalize_paths (
            ground (
              arith,
              contains-normalize_paths p _
                  (length-trim_paths-le (append_unique (normalize_paths previous.removed_paths) p))
                  named
                  (contains-trim_paths-append_unique p (normalize_paths previous.removed_paths)
                    named (length-normalize_paths-le previous.removed_paths)),
            )))))

-- Every list that the guidance carries over to the next command has at most 32 paths.
pub tracked_bounded :
    (previous : State) (summary : Summary)
    → let s = (build_task_guidance previous summary).state in
      (length s.read_paths ≤ 32)
      × (length s.written_paths ≤ 32)
      × (length s.verified_paths ≤ 32)
      × (length s.removed_paths ≤ 32)
      × (length s.target_candidates ≤ 32)
unfolding build_task_guidance apply_summary
tracked_bounded previous summary = (
  length-trim_paths-le _,
  length-trim_paths-le _,
  length-trim_paths-le _,
  length-trim_paths-le _,
  length-trim_paths-le _,
)

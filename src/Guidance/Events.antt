-- ===== src/Guidance/Events.antt =====
-- `_summarize_command` and `_summarize_result_artifacts`: the events that the artifacts of a chain
-- of commands stand for.
use iruka_virtual_file_syste.Prelude.{
  Option, none, some, List, [], ◌∷◌, ◌++◌, map, ◌==◌, ◌||◌, contains, list_eq, nat_eq,
  if◌then◌else◌,
}
use iruka_virtual_file_syste.Text.{Text, text}
use iruka_virtual_file_syste.Guidance.Lists.{unique_ordered, is_empty}

pub data Event : Type 0 where
  read write remove verify_read : Text → Event

-- The entries of a command's artifacts that the summary reads; an entry of another type than the
-- source asks for counts as missing.
pub record Artifacts : Type 0 where
  pub files : List Text
  pub path : Option Text
  pub source : Option Text
  pub target : Option Text
  pub created : List Text

pub record Summary : Type 0 where
  pub read_paths : List Text
  pub verification_reads : List Text
  pub written_paths : List Text
  pub removed_paths : List Text
  pub target_candidates : List Text
  pub events : List Event

abbrev pub no_events : Summary
no_events = record {
  read_paths = [];
  verification_reads = [];
  written_paths = [];
  removed_paths = [];
  target_candidates = [];
  events = [];
}

-- `isinstance(path, str) and path`
unfoldable pub given : Option Text → List Text
given none = []
given (some p) = if is_empty p then [] else p ∷ []

unfoldable pub nonempty : List Text → List Text
nonempty [] = []
nonempty (p ∷ ps) = let rest = nonempty ps in if is_empty p then rest else p ∷ rest

-- What a command of each kind reports. `cp` and `mv` report alike.
pub data CommandKind : Type 0 where
  reads edits copies removes touches other : CommandKind

unfoldable pub command_kind : Text → CommandKind
command_kind c =
    if contains c (text "cat" ∷ text "head" ∷ text "wc" ∷ text "sort" ∷ text "verify" ∷ [])
    then reads
    else if c == text "edit" || c == text "patch"
    then edits
    else if c == text "cp" || c == text "mv"
    then copies
    else if c == text "rm"
    then removes
    else if c == text "touch"
    then touches
    else other

unfoldable pub summarize_kind : CommandKind → Artifacts → Summary
summarize_kind reads a = record {
  read_paths = unique_ordered a.files;
  verification_reads = unique_ordered a.files;
  written_paths = [];
  removed_paths = [];
  target_candidates = unique_ordered a.files;
  events = map read a.files ++ map verify_read a.files;
}
summarize_kind edits a = record {
  read_paths = unique_ordered (given a.path);
  verification_reads = [];
  written_paths = unique_ordered (given a.path);
  removed_paths = [];
  target_candidates = unique_ordered (given a.path);
  events = map read (given a.path) ++ map write (given a.path);
}
summarize_kind copies a = record {
  read_paths = unique_ordered (given a.source);
  verification_reads = [];
  written_paths = unique_ordered (given a.target);
  removed_paths = [];
  target_candidates = unique_ordered (given a.target);
  events = map read (given a.source) ++ map write (given a.target);
}
summarize_kind removes a = record {
  read_paths = [];
  verification_reads = [];
  written_paths = [];
  removed_paths = unique_ordered (given a.path);
  target_candidates = unique_ordered (given a.path);
  events = map remove (given a.path);
}
summarize_kind touches a = record {
  read_paths = [];
  verification_reads = [];
  written_paths = unique_ordered (nonempty a.created);
  removed_paths = [];
  target_candidates = unique_ordered (nonempty a.created);
  events = map write (nonempty a.created);
}
summarize_kind other a = no_events

-- `_summarize_command`
unfoldable pub summarize_command : Text → Artifacts → Summary
unfolding command_kind summarize_kind
summarize_command c a = summarize_kind (command_kind c) a

-- A stage of a pipeline: its argument vector and its artifacts.
pub record Stage : Type 0 where
  pub argv : List Text
  pub artifacts : Artifacts

-- One result of a chain: the stages of its pipeline, and the path of its redirect.
pub record Entry : Type 0 where
  pub pipeline : List Stage
  pub redirect : Option Text

abbrev join_summaries : Summary → Summary → Summary
join_summaries a b = record {
  read_paths = a.read_paths ++ b.read_paths;
  verification_reads = a.verification_reads ++ b.verification_reads;
  written_paths = a.written_paths ++ b.written_paths;
  removed_paths = a.removed_paths ++ b.removed_paths;
  target_candidates = a.target_candidates ++ b.target_candidates;
  events = a.events ++ b.events;
}

stage_summary : Stage → Summary
stage_summary stage = elim stage.argv [
  | [] ↦ no_events
  | command ∷ args ↦ summarize_command command stage.artifacts
]

stages_summary : List Stage → Summary
stages_summary [] = no_events
stages_summary (stage ∷ stages) = join_summaries (stage_summary stage) (stages_summary stages)

redirect_summary : Option Text → Summary
redirect_summary redirect = record no_events {
  written_paths = given redirect;
  target_candidates = given redirect;
  events = map write (given redirect);
}

entries_summary : List Entry → Summary
entries_summary [] = no_events
entries_summary (entry ∷ entries) =
    join_summaries
      (join_summaries (stages_summary entry.pipeline) (redirect_summary entry.redirect))
      (entries_summary entries)

-- `_summarize_result_artifacts`
unfoldable pub summarize_result_artifacts : List Entry → Summary
unfolding entries_summary stages_summary stage_summary redirect_summary summarize_command
summarize_result_artifacts results =
    let all = entries_summary results in
    record {
      read_paths = unique_ordered all.read_paths;
      verification_reads = unique_ordered all.verification_reads;
      written_paths = unique_ordered all.written_paths;
      removed_paths = unique_ordered all.removed_paths;
      target_candidates = unique_ordered all.target_candidates;
      events = all.events;
    }

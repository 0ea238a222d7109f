-- ===== src/Runtime/Search.antt =====
-- `runtime/search.py` where the workspace has a mirror: matching lines, and the files and paths
-- below a node.
use iruka_virtual_file_syste.Prelude.{
  ℕ, zero, suc, Bool, true, false, not, ◌&&◌, ◌||◌, Option, none, some, List, [], ◌∷◌, ◌++◌, ℤ,
  keep, length, nat_eq, list_eq, int_eq, if◌then◌else◌,
}
use iruka_virtual_file_syste.Text.{Text, text, starts_with}
use iruka_virtual_file_syste.Text.Lines.{splitlines}
use iruka_virtual_file_syste.Text.Number.{show_nat}
use iruka_virtual_file_syste.Text.Search.{occurs_in}
use iruka_virtual_file_syste.Result.{Result, ok, raise, diverges, ◌>>=◌}
use iruka_virtual_file_syste.Sorting.{sort_by, text_leb}
use iruka_virtual_file_syste.Model.{NodeType, dir, file, is_dir, Node, WorkspaceMirror}
use iruka_virtual_file_syste.Mirror.Indexing.{mirror_node_path_locked}
use iruka_virtual_file_syste.Paths.Resolve.{child_ids, nodes_of, node_path}
use iruka_virtual_file_syste.Runtime.World.{Externals, mirror_node, get_node_content}

unfoldable pub same_type : NodeType → NodeType → Bool
same_type dir t = is_dir t
same_type file t = not (is_dir t)

module _ (ext : Externals) where
  -- `_line_matches`; a pattern that is no regular expression is searched as it is, in any case
  unfoldable pub line_matches : Text → Text → Bool → Bool
  line_matches line pattern invert_match =
      if invert_match then not (hit (ext.compile pattern)) else hit (ext.compile pattern)
    where
      hit : Option (Text → Bool) → Bool
      hit none = occurs_in (ext.lower pattern) (ext.lower line)
      hit (some search_regex) = search_regex line

  -- `search_text_lines`
  unfoldable pub search_text_lines : Text → Text → Bool → List Text
  unfolding line_matches
  search_text_lines s pattern invert_match =
      keep (λ line. line_matches line pattern invert_match) (splitlines s)

  -- `count_text_matches`
  unfoldable pub count_text_matches : Text → Text → Bool → ℕ
  unfolding search_text_lines
  count_text_matches s pattern invert_match = length (search_text_lines s pattern invert_match)

  -- `_find_node_matches`
  unfoldable pub find_node_matches : Node → Option Text → Option NodeType → Bool
  find_node_matches node name_pattern node_type = has_type node_type && has_name name_pattern
    where
      has_type : Option NodeType → Bool
      has_type none = true
      has_type (some t) = same_type node.node_type t

      has_name : Option Text → Bool
      has_name none = true
      has_name (some pattern) = ext.fnmatchcase node.name pattern

  -- The loop over the children, in the order of their output.
  unfoldable pub collect_children : (Node → Result (List Text)) → List Node → Result (List Text)
  collect_children visit [] = ok []
  collect_children visit (child ∷ children) = do
    first ← visit child
    rest ← collect_children visit children
    ok (first ++ rest)

  -- `_collect_find_paths_locked`; the fuel bounds the depth
  unfoldable pub collect_find_paths_locked :
      ℕ → WorkspaceMirror → Option Text → Option NodeType → Node → Result (List Text)
  unfolding find_node_matches collect_children
  collect_find_paths_locked zero m name_pattern node_type node = raise diverges
  collect_find_paths_locked (suc fuel) m name_pattern node_type node = do
    path ← mirror_node_path_locked m.nodes node
    let own = if find_node_matches node name_pattern node_type then path ∷ [] else []
    elim (is_dir node.node_type) [
      | false ↦ ok own
      | true ↦ do
        children ← nodes_of m.nodes (child_ids m node.id)
        let sorted = sort_by (λ (a : Node) b. text_leb a.name b.name) children
        below ← collect_children (collect_find_paths_locked fuel m name_pattern node_type) sorted
        ok (own ++ below)
    ]

  -- `find_paths`; a path has at most as many nodes as the mirror
  unfoldable pub find_paths :
      WorkspaceMirror → Node → Option Text → Option NodeType → Result (List Text)
  unfolding collect_find_paths_locked
  find_paths m node name_pattern node_type =
      collect_find_paths_locked (suc (length m.nodes)) m name_pattern node_type (mirror_node m node)

-- The children of one directory in the loop of `collect_files`: the files, and the ids that are
-- pushed, the last one on top.
unfoldable pub split_children : List Node → List Node → List ℤ → List Node × List ℤ
split_children [] out stack = (out, stack)
split_children (child ∷ children) out stack =
    if is_dir child.node_type
    then split_children children out (child.id ∷ stack)
    else split_children children (out ++ child ∷ []) stack

-- The loop of `collect_files`; each directory is popped once.
unfoldable pub collect_files_from : ℕ → WorkspaceMirror → List Node → List ℤ → Result (List Node)
unfolding split_children
collect_files_from fuel m out [] = ok out
collect_files_from zero m out (i ∷ stack) = raise diverges
collect_files_from (suc fuel) m out (i ∷ stack) = elim (nodes_of m.nodes (child_ids m i)) [
  | raise e ↦ raise e
  | ok children ↦
      let (out', stack') = split_children children out stack in
      collect_files_from fuel m out' stack'
]

-- `collect_files`
unfoldable pub collect_files : WorkspaceMirror → ℤ → Result (List Node)
unfolding collect_files_from
collect_files m parent_id = collect_files_from (suc (length m.nodes)) m [] (parent_id ∷ [])

-- `collect_files_for_search`
unfoldable pub collect_files_for_search : WorkspaceMirror → Node → Result (List Node)
collect_files_for_search m node =
    if is_dir node.node_type then collect_files m node.id else ok (mirror_node m node ∷ [])

-- `search_display_path`
unfoldable pub search_display_path : WorkspaceMirror → Node → Result Text
search_display_path m node = elim node.parent_id [
  | some p ↦ node_path m node
  | none ↦ if starts_with node.name (text "/") then ok node.name else node_path m node
]

module _ (ext : Externals) (m : WorkspaceMirror) (pattern : Text) (invert_match : Bool) where
  -- The matching lines of one file, from a line number on.
  unfoldable pub matching_lines : Text → ℕ → List Text → List Text
  matching_lines path i [] = []
  matching_lines path i (line ∷ lines) =
      let rest = matching_lines path (suc i) lines in
      if line_matches ext line pattern invert_match
      then (path ++ (text ":" ++ (show_nat i ++ (text ":" ++ line)))) ∷ rest
      else rest

  -- Whether a line matches; the loop ends at the first one.
  unfoldable pub has_match : List Text → Bool
  has_match [] = false
  has_match (line ∷ lines) = line_matches ext line pattern invert_match || has_match lines

  -- The loop of `search_nodes` over the files; a path is only asked for where a line matches.
  unfoldable pub search_files : List Node → Result (List Text)
  unfolding matching_lines has_match
  search_files [] = ok []
  search_files (item ∷ items) = elim (has_match (splitlines (get_node_content m item))) [
    | false ↦ search_files items
    | true ↦ do
      path ← search_display_path m item
      rest ← search_files items
      ok (matching_lines path 1 (splitlines (get_node_content m item)) ++ rest)
  ]

  -- The loop of `search_match_counts` over the files.
  unfoldable pub count_files : List Node → Result (List (Text × ℕ))
  count_files [] = ok []
  count_files (item ∷ items) =
      elim (count_text_matches ext (get_node_content m item) pattern invert_match) [
        | zero ↦ count_files items
        | suc n ↦ do
          path ← search_display_path m item
          rest ← count_files items
          ok ((path, suc n) ∷ rest)
      ]

  -- The loop of `search_matching_file_paths` over the files.
  unfoldable pub matching_files : List Node → Result (List Text)
  unfolding has_match
  matching_files [] = ok []
  matching_files (item ∷ items) = elim (has_match (splitlines (get_node_content m item))) [
    | false ↦ matching_files items
    | true ↦ do path ← search_display_path m item; rest ← matching_files items; ok (path ∷ rest)
  ]

  unfoldable pub search_nodes : Node → Result (List Text)
  unfolding search_files
  search_nodes node = do files ← collect_files_for_search m node; search_files files

  unfoldable pub search_match_counts : Node → Result (List (Text × ℕ))
  unfolding count_files
  search_match_counts node = do files ← collect_files_for_search m node; count_files files

  unfoldable pub search_matching_file_paths : Node → Result (List Text)
  unfolding matching_files
  search_matching_file_paths node = do files ← collect_files_for_search m node; matching_files files

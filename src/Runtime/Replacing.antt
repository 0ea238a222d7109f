-- ===== src/Runtime/Replacing.antt =====
-- What `edit --find ... --replace ...` makes of a file (`exec_edit` of `runtime/editing.py`).
use iruka_virtual_file_syste.Prelude.{
  ℕ, pos, ◌+◌, ◌≡◌, ◌⊎◌, refl, inl, inr, true, false, some, [], ◌∷◌, ◌++◌, length, Bool-cases,
  nat_eq, int_eq,
}
use iruka_virtual_file_syste.Text.{Text, text}
use iruka_virtual_file_syste.Text.Number.{show_nat}
use iruka_virtual_file_syste.Text.Search.{occurs_in}
use iruka_virtual_file_syste.Text.Replace.{no_match_before, replace_first_lem}
use iruka_virtual_file_syste.Dict.{get}
use iruka_virtual_file_syste.Result.{ok}
use iruka_virtual_file_syste.Model.{Node, version_or_one}
use iruka_virtual_file_syste.Runtime.World.{
  World, VirtualCommandResult, get_node_content, get_node_version, text_value, number,
}
use iruka_virtual_file_syste.Runtime.Edits.{edit_by, edit_found, edited}
use iruka_virtual_file_syste.Runtime.Writes.{write_file-get_node_content}

-- The result of an edit that replaces one occurrence.
abbrev edit_result : Text → ℕ → VirtualCommandResult
edit_result target version_no = record {
  stdout =
      text "edited "
      ++ (show_nat 1
          ++ (text " occurrence(s) in "
              ++ (target ++ (text " -> version " ++ show_nat version_no))));
  stderr = [];
  exit_code = 0;
  artifacts =
      (text "path", text_value target)
      ∷ (text "version", number (pos version_no))
      ∷ (text "replacements", number (pos 1))
      ∷ [];
}

-- An edit without --all of a file of the mirror, with a text to find and its replacement. Where the
-- content lacks the text, the edit fails with exit code 1 and changes nothing. Else it succeeds with
-- exit code 0, and the file then has the content in which the replacement stands in the place of
-- the text where it first begins, with what was before and after it, under the next version.
pub edit_by_first :
    (find_text replace_text input_text target : Text) (node n : Node) (w : World)
    → get node.id w.mirror.nodes ≡ some n
    → n.id ≡ node.id
    → ((occurs_in find_text (get_node_content w.mirror node) ≡ false)
        × ((result : VirtualCommandResult) × (edit_by false
                (some find_text)
                (some replace_text)
                input_text
                node
                target
                w
              ≡ ok (result, w))
            × (result.exit_code ≡ 1)))
      ⊎ ((before after : Text) × (w' : World) × (result : VirtualCommandResult) × (get_node_content
              w.mirror node
            ≡ before ++ (find_text ++ after))
          × (no_match_before find_text (length before) (get_node_content w.mirror node) ≡ true)
          × (edit_by false (some find_text) (some replace_text) input_text node target w
              ≡ ok (result, w'))
          × (result.exit_code ≡ 0)
          × (get_node_content w'.mirror node ≡ before ++ (replace_text ++ after))
          × (get_node_version w'.mirror node ≡ version_or_one n.version_no + 1))
unfolding edit_by edit_found edited
edit_by_first find_text replace_text input_text target node n w found same =
    elim (Bool-cases (occurs_in find_text (get_node_content w.mirror node))) [
      | inr lacks ↦ inl (
        lacks,
        (
          record {
            stdout = [];
            stderr = text "edit: target text not found";
            exit_code = 1;
            artifacts = (text "path", text_value target) ∷ [];
          },
          rw (edit_found, lacks) refl,
          refl,
        ),
      )
      | inl has ↦
          let (before, after, split, replaced, first) =
            replace_first_lem find_text replace_text (get_node_content w.mirror node) has in
          let (w', written, content, version) =
            write_file-get_node_content node n (before ++ (replace_text ++ after)) w found same in
          inr (
            before,
            after,
            w',
            edit_result target (version_or_one n.version_no + 1),
            split,
            first,
            rw (edit_found, has) (rw replaced (rw written refl)),
            refl,
            content,
            version,
          )
    ]

-- ===== src/Runtime/Help.antt =====
-- `HELP_TEXT` of `runtime/executor.py` and the report of `help`.
use iruka_virtual_file_syste.Prelude.{List, [], ◌∷◌, ◌++◌}
use iruka_virtual_file_syste.Text.{Text, text, join}
use iruka_virtual_file_syste.Runtime.World.{World, text_value, texts, Outcome, succeed}
use iruka_virtual_file_syste.Runtime.Texts.{newline}

abbrev help_lines : List Text
help_lines =
    text "Virtual workspace shell"
    ∷ text ""
    ∷ text "Supported commands:"
    ∷ text "- pwd"
    ∷ text "- cd <path>"
    ∷ text "- ls [path]"
    ∷ text "  ls -l / ls -la also work and show type, size, version, and mtime"
    ∷ text "- cat <file>"
    ∷ text "- find [path] [-type f|d] [-name <glob>]"
    ∷ text "- rg [-l|-c|-n] <pattern> [path...]"
    ∷ text "- grep [-l|-c|-v|-n] <pattern> [path...]"
    ∷ text "- status"
    ∷ text "- verify [path...]"
    ∷ text "- wc -l <file>"
    ∷ text "- mkdir [-p] <path>"
    ∷ text "- touch <file>"
    ∷ text "- cp <source> <target>"
    ∷ text "- mv <source> <target>"
    ∷ text "- rm <file>"
    ∷ text "- head [-n <count>] [file...]"
    ∷ text "- sort [file...]"
    ∷ text "- basename <path>"
    ∷ text "- dirname <path>"
    ∷ text "- edit <file> --find <text> --replace <text> [--all]"
    ∷ text "- patch --path <file> --find <text> --replace <text>"
    ∷ text "- patch --path <file> --unified <diff>"
    ∷ text "- tree"
    ∷ text "- xargs <command> [args...]"
    ∷ text "- echo <text>"
    ∷ text "- help"
    ∷ text ""
    ∷ text "Discovery tips:"
    ∷ text
        "- When the target path is unknown, use: find /workspace -name <file> -> cat -> edit/patch"
    ∷ text "- Use find /workspace -name brief.md when you know the filename but not the path"
    ∷ text
        "- Reuse exact paths from workspace_bootstrap or unique_filename_index before guessing /workspace/<file>"
    ∷ text
        "- find also supports a limited -exec form, for example: find /workspace -type f -exec grep -l TODO {} \\;"
    ∷ text "- Use tree when you need the top-level directory layout"
    ∷ text
        "- Each bash result also includes workspace_outline, workspace_bootstrap, and unique_filename_index for path discovery"
    ∷ text
        "- Use status to inspect tracked changed paths / pending verification, and verify to read back pending files"
    ∷ text
        "- Limited shell-compat tails are supported: 2>/dev/null and restricted || fallbacks (true, :, help)"
    ∷ text ""
    ∷ text "Write rules:"
    ∷ text "- All writes must stay under /workspace"
    ∷ text "- > creates or writes a file but does not overwrite an existing file"
    ∷ text "- >| overwrites an existing file explicitly"
    ∷ text "- >> appends to an existing file"
    ∷ text "- When rewriting an existing file after reading it, prefer >| directly"
    ∷ text "- Limited heredoc is supported, for example: cat <<'EOF' > /workspace/file ... EOF"
    ∷ text "- edit / patch also accept heredoc input for existing-file rewrites"
    ∷ text "- Use host write_file(..., overwrite=True) or shell >| only after confirmation"
    ∷ text ""
    ∷ text "Do not use unsupported shell syntax such as:"
    ∷ text "- general ||"
    ∷ text "- <, general 1>, 2>, &>"
    ∷ text "- $(...) or `...`"
    ∷ []

unfoldable pub help_text : Text
help_text = join newline help_lines ++ newline

abbrev supported_commands : List Text
supported_commands =
    text "pwd"
    ∷ text "cd"
    ∷ text "ls"
    ∷ text "cat"
    ∷ text "find"
    ∷ text "rg"
    ∷ text "grep"
    ∷ text "status"
    ∷ text "verify"
    ∷ text "wc"
    ∷ text "mkdir"
    ∷ text "touch"
    ∷ text "cp"
    ∷ text "mv"
    ∷ text "rm"
    ∷ text "head"
    ∷ text "sort"
    ∷ text "basename"
    ∷ text "dirname"
    ∷ text "edit"
    ∷ text "patch"
    ∷ text "tree"
    ∷ text "xargs"
    ∷ text "echo"
    ∷ text "help"
    ∷ []

-- `help` of `exec_argv`, without the entry on heredocs
unfoldable pub exec_help : World → Outcome
unfolding help_text
exec_help = succeed help_text (
    (text "supported_commands", texts supported_commands)
    ∷ (text "redirects", texts (text ">" ∷ text ">|" ∷ text ">>" ∷ []))
    ∷ (
      text "compat_tails",
      texts (text "2>/dev/null" ∷ text "|| true" ∷ text "|| :" ∷ text "|| help" ∷ []),
    )
    ∷ (text "write_root", text_value (text "/workspace"))
    ∷ [])

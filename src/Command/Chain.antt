-- ===== src/Command/Chain.antt =====
-- `split_chain` of `command_parser.py`: the commands of a line with `;` and `&&` between them.
use iruka_virtual_file_syste.Prelude.{
  true, false, not, ◌&&◌, ◌||◌, Option, none, some, List, [], ◌∷◌, ◌++◌, ◌==◌, nat_eq, list_eq,
  if◌then◌else◌,
}
use iruka_virtual_file_syste.Text.{Text, text, join}
use iruka_virtual_file_syste.Text.Lines.{splitlines_keepends}
use iruka_virtual_file_syste.Text.Search.{occurs_in}
use iruka_virtual_file_syste.Text.Strip.{strip, rstrip_by}
use iruka_virtual_file_syste.Command.Quotes.{Quotes, unquoted, is_quoted, quote_step}

-- The value of "op": `;` or `&&`.
pub data ChainOp : Type 0 where
  always if_ok : ChainOp

pub record Piece : Type 0 where
  pub op : ChainOp
  pub cmd : Text

-- The piece of the characters so far, unless they are blank.
unfoldable pub add_piece : ChainOp → Text → List Piece → List Piece
add_piece op chars rest = elim (strip chars) [
  | [] ↦ rest
  | c ∷ s ↦ record { op = op; cmd = c ∷ s } ∷ rest
]

-- The loop of `split_chain`.
unfoldable pub chain_from : Quotes → ChainOp → Text → Text → List Piece
chain_from q op chars [] = add_piece op chars []
chain_from q op chars (c ∷ []) = elim (quote_step q c) [
  | some q' ↦ add_piece op (chars ++ c ∷ []) []
  | none ↦ elim (not (is_quoted q) && c == b';') [
    | true ↦ add_piece op chars []
    | false ↦ add_piece op (chars ++ c ∷ []) []
  ]
]
chain_from q op chars (c ∷ d ∷ s) = elim (quote_step q c) [
  | some q' ↦ chain_from q' op (chars ++ c ∷ []) (d ∷ s)
  | none ↦ elim (not (is_quoted q) && c == b'&' && d == b'&') [
    | true ↦ add_piece op chars (chain_from q if_ok [] s)
    | false ↦ elim (not (is_quoted q) && c == b';') [
      | true ↦ add_piece op chars (chain_from q always [] (d ∷ s))
      | false ↦ chain_from q op (chars ++ c ∷ []) (d ∷ s)
    ]
  ]
]

-- `re.split(r"\s*(&&|;)\s*", header)` up to the white space, which the caller strips
unfoldable pub split_header : Text → Text → List Text
split_header chars [] = chars ∷ []
split_header chars (c ∷ []) =
    if c == b';' then chars ∷ text ";" ∷ [] ∷ [] else (chars ++ c ∷ []) ∷ []
split_header chars (c ∷ d ∷ s) = elim (c == b'&' && d == b'&') [
  | true ↦ chars ∷ text "&&" ∷ split_header [] s
  | false ↦ elim (c == b';') [
    | true ↦ chars ∷ text ";" ∷ split_header [] (d ∷ s)
    | false ↦ split_header (chars ++ c ∷ []) (d ∷ s)
  ]
]

-- The loop over the tokens of the header.
unfoldable pub header_pieces : ChainOp → List Text → List Piece
header_pieces op [] = []
header_pieces op (token ∷ tokens) = elim (strip token) [
  | [] ↦ header_pieces op tokens
  | c ∷ s ↦ elim (c ∷ s == text "&&") [
    | true ↦ header_pieces if_ok tokens
    | false ↦ elim (c ∷ s == text ";") [
      | true ↦ header_pieces always tokens
      | false ↦ record { op = op; cmd = c ∷ s } ∷ header_pieces op tokens
    ]
  ]
]

-- The last piece gets the lines after the header.
unfoldable pub add_body : Text → List Piece → List Piece
add_body body [] = []
add_body body (p ∷ []) = record p { cmd = p.cmd ++ body } ∷ []
add_body body (p ∷ q ∷ ps) = p ∷ add_body body (q ∷ ps)

-- `_split_chain_with_heredoc`
unfoldable pub split_chain_with_heredoc : Text → Option (List Piece)
unfolding split_header header_pieces add_body
split_chain_with_heredoc raw_cmd = elim (occurs_in (text "<<") raw_cmd) [
  | false ↦ none
  | true ↦ elim (splitlines_keepends raw_cmd) [
    | [] ↦ none
    | line ∷ body_lines ↦
        let header = rstrip_by (λ c. c == 13 || c == 10) line in
        elim (occurs_in (text "<<") header) [
          | false ↦ none
          | true ↦ some (pieces_of raw_cmd body_lines (split_header [] (strip header)))
        ]
  ]
]
  where
    body_of : List Text → Text
    body_of [] = []
    body_of (l ∷ ls) = text "\n" ++ join [] (l ∷ ls)

    whole : Text → List Piece
    whole raw_cmd = record { op = always; cmd = strip raw_cmd } ∷ []

    or_whole : Text → List Text → List Piece → List Piece
    or_whole raw_cmd body_lines [] = whole raw_cmd
    or_whole raw_cmd body_lines (p ∷ ps) = add_body (body_of body_lines) (p ∷ ps)

    pieces_of : Text → List Text → List Text → List Piece
    pieces_of raw_cmd body_lines [] = whole raw_cmd
    pieces_of raw_cmd body_lines (t ∷ []) = whole raw_cmd
    pieces_of raw_cmd body_lines (t ∷ u ∷ ts) =
        or_whole raw_cmd body_lines (header_pieces always (t ∷ u ∷ ts))

-- `pieces or [{"op": ";", "cmd": stripped}]`
unfoldable pub pieces_or : Text → List Piece → List Piece
pieces_or stripped [] = record { op = always; cmd = stripped } ∷ []
pieces_or stripped (p ∷ ps) = p ∷ ps

-- A blank command makes no piece, so it ends as one empty piece too.
unfoldable pub split_chain : Text → List Piece
unfolding chain_from
split_chain raw_cmd = elim (split_chain_with_heredoc raw_cmd) [
  | some pieces ↦ pieces
  | none ↦ pieces_or (strip raw_cmd) (chain_from unquoted always [] (strip raw_cmd))
]

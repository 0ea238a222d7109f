-- ===== src/Command/Chaining.antt =====
-- `split_chain` reads back commands that are joined by `;` and `&&`.
use iruka_virtual_file_syste.Prelude.{
  ℕ, ◌≡◌, ◌∙◌, refl, sym, ap, Bool, true, false, not, ◌&&◌, none, List, [], ◌∷◌, ◌++◌, ◌==◌, nat_eq,
  list_eq, all_of, arith, append-nil, append_assoc, list_beq_iff,
}
use iruka_virtual_file_syste.Text.{Text, text}
use iruka_virtual_file_syste.Text.Search.{occurs_in, is_prefix}
use iruka_virtual_file_syste.Text.Strip.{strip, is_space, lstrip_by, rstrip_by, rstrip_cons}
use iruka_virtual_file_syste.Command.Quotes.{unquoted, quote_step}
use iruka_virtual_file_syste.Command.Chain.{
  ChainOp, always, if_ok, Piece, add_piece, chain_from, split_chain_with_heredoc, pieces_or,
  split_chain,
}
use iruka_virtual_file_syste.Command.Piping.{and_true, not-true}

-- A character that neither quotes, separates nor starts an input redirect.
abbrev pub is_plain : ℕ → Bool
is_plain c =
    not (c == 92)
    && not (c == 39)
    && not (c == 34)
    && not (c == 59)
    && not (c == 38)
    && not (c == 60)

-- A command of such characters that is not blank and has no white space at its ends.
abbrev pub is_simple : Text → Bool
is_simple [] = false
is_simple (c ∷ s) =
    not (is_space c) && rstrip_by is_space (c ∷ s) == c ∷ s && all_of is_plain (c ∷ s)

abbrev pub op_text : ChainOp → Text
op_text always = 59 ∷ []
op_text if_ok = 38 ∷ 38 ∷ []

-- Each piece with its operator in front.
unfoldable pub chain_tail : List Piece → Text
chain_tail [] = []
chain_tail (p ∷ ps) = op_text p.op ++ (p.cmd ++ chain_tail ps)

abbrev pub all_simple : List Piece → Bool
all_simple = all_of (λ p. is_simple p.cmd)

-- A plain character joins the current command.
chain_from-plain :
    (op : ChainOp) (chars s : Text) (c : ℕ)
    → is_plain c ≡ true
    → chain_from unquoted op chars (c ∷ s) ≡ chain_from unquoted op (chars ++ c ∷ []) s
unfolding chain_from quote_step
chain_from-plain op chars [] c h = ground (arith, h)
chain_from-plain op chars (d ∷ s) c h = ground (arith, h)

chain_from-plain_text :
    (op : ChainOp) (chars word s : Text)
    → all_of is_plain word ≡ true
    → chain_from unquoted op chars (word ++ s) ≡ chain_from unquoted op (chars ++ word) s
chain_from-plain_text op chars [] s h =
    ap (λ t. chain_from unquoted op t s) (sym (append-nil chars))
chain_from-plain_text op chars (c ∷ word) s h =
    chain_from-plain op chars (word ++ s) c (and_true _ _ h).0
    ∙ chain_from-plain_text op (chars ++ c ∷ []) word s (and_true _ _ h).1
    ∙ ap (λ t. chain_from unquoted op t s) (append_assoc chars (c ∷ []) word)

lstrip_by-kept : (p : ℕ → Bool) (c : ℕ) (s : Text) → p c ≡ false → lstrip_by p (c ∷ s) ≡ c ∷ s
unfolding lstrip_by
lstrip_by-kept p c s h = rw h refl

strip-kept :
    (c : ℕ) (s : Text)
    → is_space c ≡ false
    → rstrip_by is_space (c ∷ s) ≡ c ∷ s
    → strip (c ∷ s) ≡ c ∷ s
unfolding strip
strip-kept c s h e = ap (rstrip_by is_space) (lstrip_by-kept is_space c s h) ∙ e

strip-simple : (cmd : Text) → is_simple cmd ≡ true → strip cmd ≡ cmd
strip-simple [] h = absurd (ground arith)
strip-simple (c ∷ s) h =
    let (ends, plain) = and_true _ _ h in
    let (first, last) = and_true _ _ ends in
    strip-kept c s (not-true (is_space c) first)
      ((list_beq_iff (rstrip_by is_space (c ∷ s)) (c ∷ s)).0 last)

add_piece-simple :
    (op : ChainOp) (cmd : Text) (rest : List Piece)
    → is_simple cmd ≡ true
    → add_piece op cmd rest ≡ record { op = op; cmd = cmd } ∷ rest
unfolding add_piece
add_piece-simple op [] rest h = absurd (ground arith)
add_piece-simple op (c ∷ s) rest h = rw (strip-simple (c ∷ s) h, add_piece) refl

chain_from-op :
    (op next : ChainOp) (chars s : Text)
    → chain_from unquoted op chars (op_text next ++ s)
      ≡ add_piece op chars (chain_from unquoted next [] s)
unfolding chain_from quote_step add_piece strip lstrip_by rstrip_by
chain_from-op op always chars [] = refl
chain_from-op op always chars (d ∷ s) = refl
chain_from-op op if_ok chars s = refl

simple_plain : (cmd : Text) → is_simple cmd ≡ true → all_of is_plain cmd ≡ true
simple_plain [] h = absurd (ground arith)
simple_plain (c ∷ s) h = (and_true _ _ h).1

chain_from-chain_tail :
    (op : ChainOp) (cmd : Text) (ps : List Piece)
    → is_simple cmd ≡ true
    → all_simple ps ≡ true
    → chain_from unquoted op [] (cmd ++ chain_tail ps) ≡ record { op = op; cmd = cmd } ∷ ps
unfolding chain_tail chain_from
chain_from-chain_tail op cmd [] h hs =
    chain_from-plain_text op [] cmd [] (simple_plain cmd h) ∙ add_piece-simple op cmd [] h
chain_from-chain_tail op cmd (p ∷ ps) h hs =
    chain_from-plain_text op [] cmd (op_text p.op ++ (p.cmd ++ chain_tail ps)) (simple_plain cmd h)
    ∙ chain_from-op op p.op cmd (p.cmd ++ chain_tail ps)
    ∙ ap (add_piece op cmd)
        (chain_from-chain_tail p.op p.cmd ps (and_true _ _ hs).0 (and_true _ _ hs).1)
    ∙ add_piece-simple op cmd (p ∷ ps) h

-- Trailing white space of a text is that of its last part.
rstrip_by-append :
    (p : ℕ → Bool) (d : ℕ) (s t : Text)
    → rstrip_by p (d ∷ t) ≡ d ∷ t
    → rstrip_by p (s ++ d ∷ t) ≡ s ++ d ∷ t
unfolding rstrip_by rstrip_cons
rstrip_by-append p d [] t h = h
rstrip_by-append p d (c ∷ []) t h = ap (rstrip_cons p c) h
rstrip_by-append p d (c ∷ b ∷ s) t h = ap (rstrip_cons p c) (rstrip_by-append p d (b ∷ s) t h)

rstrip_by-simple :
    (cmd : Text) (s : Text) → is_simple cmd ≡ true → rstrip_by is_space (s ++ cmd) ≡ s ++ cmd
rstrip_by-simple [] s h = absurd (ground arith)
rstrip_by-simple (d ∷ t) s h =
    rstrip_by-append is_space d s t
      ((list_beq_iff (rstrip_by is_space (d ∷ t)) (d ∷ t)).0 (and_true _ _ (and_true _ _ h).0).1)

rstrip_by-chain_tail :
    (cmd s : Text) (ps : List Piece)
    → is_simple cmd ≡ true
    → all_simple ps ≡ true
    → rstrip_by is_space (s ++ (cmd ++ chain_tail ps)) ≡ s ++ (cmd ++ chain_tail ps)
unfolding chain_tail
rstrip_by-chain_tail cmd s [] h hs =
    ap (λ t. rstrip_by is_space (s ++ t)) (append-nil cmd)
    ∙ rstrip_by-simple cmd s h
    ∙ ap (λ t. s ++ t) (sym (append-nil cmd))
rstrip_by-chain_tail cmd s (p ∷ ps) h hs =
    let e = regroup s cmd (op_text p.op) (p.cmd ++ chain_tail ps) in
    ap (rstrip_by is_space) e
    ∙ rstrip_by-chain_tail p.cmd (s ++ cmd ++ op_text p.op) ps (and_true _ _ hs).0
        (and_true _ _ hs).1
    ∙ sym e
  where
    regroup : (a b c d : Text) → a ++ (b ++ (c ++ d)) ≡ a ++ b ++ c ++ d
    regroup a b c d = sym (append_assoc a b (c ++ d)) ∙ sym (append_assoc (a ++ b) c d)

all_of-append :
    (p : ℕ → Bool) (s t : Text) → all_of p s ≡ true → all_of p t ≡ true → all_of p (s ++ t) ≡ true
all_of-append p [] t h k = k
all_of-append p (c ∷ s) t h k = ground (arith, all_of-append p s t)

occurs_in-none : (s : Text) → all_of (λ c. not (c == 60)) s ≡ true → occurs_in (text "<<") s ≡ false
unfolding occurs_in is_prefix text
occurs_in-none [] h = refl
occurs_in-none (c ∷ s) h = ground (arith, occurs_in-none s)

plain_no_redirect : (s : Text) → all_of is_plain s ≡ true → all_of (λ c. not (c == 60)) s ≡ true
plain_no_redirect [] h = refl
plain_no_redirect (c ∷ s) h = ground (arith, plain_no_redirect s)

op_text_no_redirect : (op : ChainOp) → all_of (λ c. not (c == 60)) (op_text op) ≡ true
op_text_no_redirect always = refl
op_text_no_redirect if_ok = refl

chain_tail_no_redirect :
    (ps : List Piece) → all_simple ps ≡ true → all_of (λ c. not (c == 60)) (chain_tail ps) ≡ true
unfolding chain_tail
chain_tail_no_redirect [] h = refl
chain_tail_no_redirect (p ∷ ps) h =
    all_of-append (λ c. not (c == 60)) (op_text p.op) (p.cmd ++ chain_tail ps)
      (op_text_no_redirect p.op)
      (all_of-append (λ c. not (c == 60)) p.cmd (chain_tail ps)
        (plain_no_redirect p.cmd (simple_plain p.cmd (and_true _ _ h).0))
        (chain_tail_no_redirect ps (and_true _ _ h).1))

split_chain_with_heredoc-none :
    (raw : Text) → occurs_in (text "<<") raw ≡ false → split_chain_with_heredoc raw ≡ none
unfolding split_chain_with_heredoc
split_chain_with_heredoc-none raw unseen = rw (unseen, split_chain_with_heredoc) refl

split_chain-none :
    (raw : Text)
    → split_chain_with_heredoc raw ≡ none
    → split_chain raw ≡ pieces_or (strip raw) (chain_from unquoted always [] (strip raw))
unfolding split_chain
split_chain-none raw e = rw (e, split_chain) refl

split_chain_plain :
    (c : ℕ) (s : Text)
    → is_space c ≡ false
    → rstrip_by is_space (c ∷ s) ≡ c ∷ s
    → occurs_in (text "<<") (c ∷ s) ≡ false
    → split_chain (c ∷ s) ≡ pieces_or (c ∷ s) (chain_from unquoted always [] (c ∷ s))
split_chain_plain c s h e unseen =
    split_chain-none (c ∷ s) (split_chain_with_heredoc-none (c ∷ s) unseen)
    ∙ (ap (λ t. pieces_or t (chain_from unquoted always [] t)) (strip-kept c s h e))

-- A line of commands, each after the `;` or `&&` of its piece but for the first one, splits into
-- these pieces, where no command is blank, has white space at its ends, or contains a quote, a
-- backslash, `;`, `&` or `<`.
pub split_chain_round_trip :
    (cmd : Text) (ps : List Piece)
    → is_simple cmd ≡ true
    → all_simple ps ≡ true
    → split_chain (cmd ++ chain_tail ps) ≡ record { op = always; cmd = cmd } ∷ ps
unfolding pieces_or
split_chain_round_trip [] ps h hs = absurd (ground arith)
split_chain_round_trip (c ∷ s) ps h hs =
    split_chain_plain c (s ++ chain_tail ps)
      (not-true (is_space c) (and_true _ _ (and_true _ _ h).0).0)
      (rstrip_by-chain_tail (c ∷ s) [] ps h hs)
      (occurs_in-none (c ∷ s ++ chain_tail ps) (
        all_of-append (λ c. not (c == 60)) (c ∷ s) (chain_tail ps)
          (plain_no_redirect (c ∷ s) (simple_plain (c ∷ s) h)) (chain_tail_no_redirect ps hs)))
    ∙ ap (pieces_or (c ∷ s ++ chain_tail ps)) (chain_from-chain_tail always (c ∷ s) ps h hs)

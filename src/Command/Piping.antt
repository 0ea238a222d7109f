-- ===== src/Command/Piping.antt =====
-- The loop of `parse_pipeline_and_redirect_detailed` reads back the tokens of a pipeline.
use iruka_virtual_file_syste.Prelude.{
  ◌≡◌, ◌∙◌, refl, sym, ap, inl, inr, Bool, true, false, not, ◌&&◌, ◌||◌, Option, none, some, List,
  [], ◌∷◌, ◌++◌, ◌==◌, nat_eq, list_eq, list_beq, if◌then◌else◌, all_of, arith, Bool-cases,
  beq_refl, append-nil, append_assoc,
}
use iruka_virtual_file_syste.Text.{Text, text}
use iruka_virtual_file_syste.Command.Pipeline.{
  Redirect, Staged, staged, stages_from, finish_stages, read_redirect, is_redirect,
}

-- A token that the loop does not treat as an operator.
abbrev pub is_word : Text → Bool
is_word t = not (t == text "2>&1") && not (t == text "|") && not (is_redirect t)

-- A command has at least one word.
abbrev pub is_command : List Text → Bool
is_command [] = false
is_command (t ∷ ts) = all_of is_word (t ∷ ts)

-- The tokens of a redirect; `>|` forces by itself.
unfoldable pub redirect_tokens : Option Redirect → List Text
redirect_tokens none = []
redirect_tokens (some r) =
    r.op ∷ r.path ∷ (if r.force && not (r.op == text ">|") then text "--force" ∷ [] else [])

unfoldable pub pipeline_tokens : List Text → List (List Text) → List Text → List Text
pipeline_tokens command [] rest = command ++ rest
pipeline_tokens command (next ∷ commands) rest =
    command ++ text "|" ∷ pipeline_tokens next commands rest

-- A redirect that the parser can return: its operator is one of the three, and `>|` forces.
abbrev pub is_printable : Option Redirect → Bool
is_printable none = true
is_printable (some r) =
    is_redirect r.op
    && not (r.op == text "2>&1")
    && not (r.op == text "|")
    && (r.force || not (r.op == text ">|"))

pub and_true : (b c : Bool) → (b && c) ≡ true → (b ≡ true) × (c ≡ true)
and_true true c h = (refl, h)
and_true false c h = absurd (ground arith)

pub not-true : (b : Bool) → not b ≡ true → b ≡ false
not-true true h = absurd (ground arith)
not-true false h = refl

-- A word joins the current command.
stages_from-word :
    (t : Text) (rest : List Text) (pipeline : List (List Text)) (current : List Text) (merge : Bool)
    → is_word t ≡ true
    → stages_from pipeline current merge (t ∷ rest)
      ≡ stages_from pipeline (current ++ t ∷ []) merge rest
unfolding stages_from
stages_from-word t rest pipeline current merge h =
    let (operators, redirect) = and_true _ _ h in
    let (merging, pipe) = and_true _ _ operators in
    rw (not-true (t == text "2>&1") merging, stages_from)
      (rw (not-true (t == text "|") pipe) (rw (not-true (is_redirect t) redirect) refl))

stages_from-words :
    (words rest : List Text) (pipeline : List (List Text)) (current : List Text) (merge : Bool)
    → all_of is_word words ≡ true
    → stages_from pipeline current merge (words ++ rest)
      ≡ stages_from pipeline (current ++ words) merge rest
stages_from-words [] rest pipeline current merge h =
    ap (λ c. stages_from pipeline c merge rest) (sym (append-nil current))
stages_from-words (t ∷ words) rest pipeline current merge h =
    stages_from-word t (words ++ rest) pipeline current merge (and_true _ _ h).0
    ∙ stages_from-words words rest pipeline (current ++ t ∷ []) merge (and_true _ _ h).1
    ∙ ap (λ c. stages_from pipeline c merge rest) (append_assoc current (t ∷ []) words)

finish_stages_last :
    (pipeline : List (List Text)) (t : Text) (ts : List Text) (r : Option Redirect) (merge : Bool)
    → finish_stages pipeline (t ∷ ts) r merge
      ≡ staged (record { pipeline = pipeline ++ (t ∷ ts) ∷ []; redirect = r; merge_stderr = merge })
unfolding finish_stages
finish_stages_last [] t ts r merge = refl
finish_stages_last (p ∷ ps) t ts r merge = refl

abbrev redirect_end : Redirect → List Text
redirect_end r = r.path ∷ (if r.force && not (r.op == text ">|") then text "--force" ∷ [] else [])

stages_from-redirect :
    (pipeline : List (List Text)) (t : Text) (ts rest : List Text) (r : Redirect) (merge : Bool)
    → is_redirect r.op ≡ true
    → (r.op == text "2>&1") ≡ false
    → (r.op == text "|") ≡ false
    → stages_from pipeline (t ∷ ts) merge (r.op ∷ rest)
      ≡ read_redirect pipeline (t ∷ ts) merge r.op rest
unfolding stages_from
stages_from-redirect pipeline t ts rest r merge operator merging pipe =
    rw (merging, stages_from) (rw pipe (rw operator refl))

read_redirect_back :
    (pipeline : List (List Text)) (t : Text) (ts : List Text) (r : Redirect) (merge : Bool)
    → (r.force || not (r.op == text ">|")) ≡ true
    → read_redirect pipeline (t ∷ ts) merge r.op (redirect_end r)
      ≡ staged
          (record { pipeline = pipeline ++ (t ∷ ts) ∷ []; redirect = some r; merge_stderr = merge })
unfolding read_redirect
read_redirect_back pipeline t ts r merge h =
    let end : Bool → Staged = λ f.
      finish_stages pipeline (t ∷ ts) (some (record { op = r.op; path = r.path; force = f }))
        merge in
    elim (Bool-cases (r.force && not (r.op == text ">|"))) [
      | inl flag ↦
          rw (flag, read_redirect)
            (rw (beq_refl (text "--force")) (ap end (sym (and_true _ _ flag).0)))
          ∙ finish_stages_last pipeline t ts (some r) merge
      | inr no_flag ↦
          rw (no_flag, read_redirect) (ap end (ground (arith, h, no_flag)))
          ∙ finish_stages_last pipeline t ts (some r) merge
    ]

-- After the last command the redirect, if any, is read.
stages_from-redirect_tokens :
    (pipeline : List (List Text)) (t : Text) (ts : List Text) (r : Option Redirect) (merge : Bool)
    → is_printable r ≡ true
    → stages_from pipeline (t ∷ ts) merge (redirect_tokens r)
      ≡ staged (record { pipeline = pipeline ++ (t ∷ ts) ∷ []; redirect = r; merge_stderr = merge })
unfolding stages_from redirect_tokens read_redirect
stages_from-redirect_tokens pipeline t ts none merge h = finish_stages_last pipeline t ts none merge
stages_from-redirect_tokens pipeline t ts (some r) merge h =
    let (operators, forced) = and_true _ _ h in
    let (operators', pipe) = and_true _ _ operators in
    let (operator, merging) = and_true _ _ operators' in
    stages_from-redirect pipeline t ts (redirect_end r) r merge operator (not-true _ merging)
      (not-true _ pipe)
    ∙ read_redirect_back pipeline t ts r merge forced

-- The command up to a pipe enters the pipeline.
stages_from-pipe :
    (pipeline : List (List Text)) (t : Text) (ts rest : List Text) (merge : Bool)
    → stages_from pipeline (t ∷ ts) merge (text "|" ∷ rest)
      ≡ stages_from (pipeline ++ (t ∷ ts) ∷ []) [] merge rest
unfolding stages_from text list_beq
stages_from-pipe pipeline t ts rest merge = refl

stages_from-pipeline_tokens :
    (command : List Text) (commands pipeline : List (List Text)) (r : Option Redirect)
    (merge : Bool)
    → all_of is_command (command ∷ commands) ≡ true
    → is_printable r ≡ true
    → stages_from pipeline [] merge (pipeline_tokens command commands (redirect_tokens r))
      ≡ staged
          (record { pipeline = pipeline ++ command ∷ commands; redirect = r; merge_stderr = merge })
unfolding pipeline_tokens
stages_from-pipeline_tokens [] commands pipeline r merge h p = absurd (ground arith)
stages_from-pipeline_tokens (t ∷ ts) [] pipeline r merge h p =
    stages_from-words (t ∷ ts) (redirect_tokens r) pipeline [] merge (and_true _ _ h).0
    ∙ stages_from-redirect_tokens pipeline t ts r merge p
stages_from-pipeline_tokens (t ∷ ts) (next ∷ commands) pipeline r merge h p =
    stages_from-words (t ∷ ts) (text "|" ∷ pipeline_tokens next commands (redirect_tokens r))
      pipeline [] merge (and_true _ _ h).0
    ∙ stages_from-pipe pipeline t ts (pipeline_tokens next commands (redirect_tokens r)) merge
    ∙ stages_from-pipeline_tokens next commands (pipeline ++ (t ∷ ts) ∷ []) r merge
        (and_true _ _ h).1 p
    ∙ ap (λ c. staged (record { pipeline = c; redirect = r; merge_stderr = merge }))
        (append_assoc pipeline ((t ∷ ts) ∷ []) (next ∷ commands))

-- The tokens of the stages: `2>&1` in front where stderr is merged, the commands with `|` between
-- them, and the redirect.
unfoldable pub stage_tokens : Bool → List Text → List (List Text) → Option Redirect → List Text
stage_tokens merge command commands r =
    (if merge then text "2>&1" ∷ [] else []) ++ pipeline_tokens command commands (redirect_tokens r)

-- The loop over the tokens of a pipeline with its redirect and its merging of stderr gives them
-- back, where every command has a word and only words, and the redirect is one that the parser
-- returns: its operator is `>`, `>>` or `>|`, and `>|` has "force".
pub stages_round_trip :
    (merge : Bool) (command : List Text) (commands : List (List Text)) (r : Option Redirect)
    → all_of is_command (command ∷ commands) ≡ true
    → is_printable r ≡ true
    → stages_from [] [] false (stage_tokens merge command commands r)
      ≡ staged (record { pipeline = command ∷ commands; redirect = r; merge_stderr = merge })
unfolding stage_tokens stages_from text list_beq pipeline_tokens
stages_round_trip true command commands r h p =
    stages_from-pipeline_tokens command commands [] r true h p
stages_round_trip false command commands r h p =
    stages_from-pipeline_tokens command commands [] r false h p

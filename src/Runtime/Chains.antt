-- ===== src/Runtime/Chains.antt =====
-- How the commands of a line follow each other: `run_command_chain` of `runtime/executor.py`.
use iruka_virtual_file_syste.Prelude.{
  true, false, not, ◌&&◌, List, [], ◌∷◌, ◌++◌, nat_eq, ◌==◌, ◌≡◌, refl, ap, ◌∙◌, inl, inr,
  Bool-cases,
}
use iruka_virtual_file_syste.Text.{Text}
use iruka_virtual_file_syste.Result.{Result, ok, ◌>>=◌, Result-cases}
use iruka_virtual_file_syste.Command.Chain.{if_ok, Piece}
use iruka_virtual_file_syste.Runtime.World.{World, Outcome}
use iruka_virtual_file_syste.Runtime.Executor.{Chunks, run_pieces, is_passed, is_if_ok, collect}

-- Pieces that all stand after `&&`.
abbrev pub AreConditional : List Piece → Type 0
AreConditional [] = Unit
AreConditional (piece ∷ pieces) = (piece.op ≡ if_ok) × AreConditional pieces

module _ (single : Text → World → Outcome) where
  -- Two lines after each other run like one.
  pub run_pieces-append :
      (xs ys : List Piece) (chunks : Chunks) (w : World)
      → run_pieces single (xs ++ ys) chunks w ≡ (
          run_pieces single xs chunks w >>= λ (after : Chunks × World).
          run_pieces single ys after.0 after.1)
  unfolding run_pieces
  run_pieces-append [] ys chunks w = refl
  run_pieces-append (x ∷ xs) ys chunks w = elim (Bool-cases (is_passed x chunks)) [
    | inl passed ↦ rw (run_pieces, passed) (run_pieces-append xs ys chunks w)
    | inr runs ↦ elim (Result-cases (single x.cmd w)) [
      | inl (e, q) ↦ rw (run_pieces, runs, q) refl
      | inr ((result, w'), q) ↦
          rw (run_pieces, runs, q) (run_pieces-append xs ys (collect result chunks) w')
    ]
  ]

  passed_over :
      (y : Piece) (chunks : Chunks)
      → y.op ≡ if_ok
      → (chunks.last_exit == 0) ≡ false
      → is_passed y chunks ≡ true
  unfolding is_passed
  passed_over y chunks conditional failed =
      ap (λ op. is_if_ok op && not (chunks.last_exit == 0)) conditional ∙ ap not failed

  -- After a failure nothing that stands after `&&` runs.
  run_pieces-passes :
      (ys : List Piece) (chunks : Chunks) (w : World)
      → AreConditional ys
      → (chunks.last_exit == 0) ≡ false
      → run_pieces single ys chunks w ≡ ok (chunks, w)
  unfolding run_pieces
  run_pieces-passes [] chunks w conditional failed = refl
  run_pieces-passes (y ∷ ys) chunks w conditional failed =
      let passed : is_passed y chunks ≡ true = passed_over y chunks conditional.0 failed in
      rw (run_pieces, passed) (run_pieces-passes ys chunks w conditional.1 failed)

  -- Where a line ends with a command that failed, commands after it that all stand behind `&&` do
  -- not run: the result, the outputs and the world are those of the line.
  pub run_pieces_stop :
      (xs ys : List Piece) (chunks after : Chunks) (w w' : World)
      → run_pieces single xs chunks w ≡ ok (after, w')
      → (after.last_exit == 0) ≡ false
      → AreConditional ys
      → run_pieces single (xs ++ ys) chunks w ≡ ok (after, w')
  run_pieces_stop xs ys chunks after w w' line failed conditional =
      run_pieces-append xs ys chunks w
      ∙ ap
          (λ (r : Result (Chunks × World)).
            r >>= λ (a : Chunks × World). run_pieces single ys a.0 a.1)
          line
      ∙ run_pieces-passes ys after w' conditional failed

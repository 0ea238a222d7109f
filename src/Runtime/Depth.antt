-- ===== src/Runtime/Depth.antt =====
-- How deep the commands of `exec_argv` run commands, and that its fuel is enough.
use iruka_virtual_file_syste.Prelude.{
  ℕ, zero, suc, ◌+◌, ◌<◌, List, [], ◌∷◌, ◌++◌, length, nat_eq, list_eq, ◌≡◌, refl, sym, ◌∙◌, arith,
  length-append, list_beq,
}
use iruka_virtual_file_syste.Text.{Text, text}
use iruka_virtual_file_syste.Text.Lines.{splitlines}
use iruka_virtual_file_syste.Runtime.World.{World, Externals, Outcome, succeed}
use iruka_virtual_file_syste.Runtime.Texts.{exec_cat}
use iruka_virtual_file_syste.Runtime.Listing.{guidance_of}
use iruka_virtual_file_syste.Runtime.Dispatch.{
  Command, command_of, run, exec_with, exec_argv, stdin_paths, exec_xargs, xargs_on, exec_verify,
  verify_targets, pwd, cd, ls, cat, find, rg, grep, xargs, wc, mkdir, cp, mv, rm, head, sort,
  status, verify, basename, dirname, edit, patch, tree, echo, colon, help, touch, unsupported,
}
use iruka_virtual_file_syste.Runtime.Nesting.{Agree, exec_find-Agree}

exec_xargs-Agree :
    (f g : List Text → Text → World → Outcome) (args : List Text) (input_text : Text) (w : World)
    → Agree (length args + length (stdin_paths input_text)) f g
    → exec_xargs f args input_text w ≡ exec_xargs g args input_text w
unfolding exec_xargs xargs_on
exec_xargs-Agree f g [] input_text w same = refl
exec_xargs-Agree f g (a ∷ args) input_text w same = on_paths (stdin_paths input_text) same
  where
    on_paths :
        (ps : List Text)
        → Agree (length (a ∷ args) + length ps) f g
        → xargs_on f (a ∷ args) ps w ≡ xargs_on g (a ∷ args) ps w
    on_paths [] same = refl
    on_paths (p ∷ ps) same =
        let one : f ((a ∷ args) ++ (p ∷ ps)) [] w ≡ g ((a ∷ args) ++ (p ∷ ps)) [] w =
          same ((a ∷ args) ++ (p ∷ ps)) w (rw length-append (omega arith)) in
        rw (xargs_on, one) refl

exec_verify-Agree :
    (f g : List Text → Text → World → Outcome) (args : List Text) (w : World)
    → ((ts : List Text) (u : World) → f (text "cat" ∷ ts) [] u ≡ g (text "cat" ∷ ts) [] u)
    → exec_verify f args w ≡ exec_verify g args w
unfolding exec_verify verify_targets
exec_verify-Agree f g [] w cats = on_targets (guidance_of w).required_paths
  where
    on_targets : (ts : List Text) → verify_targets f ts w ≡ verify_targets g ts w
    on_targets [] = refl
    on_targets (t ∷ ts) = cats (t ∷ ts) w
exec_verify-Agree f g (t ∷ ts) w cats = cats (t ∷ ts) w

run-Agree :
    (ext : Externals) (f g : List Text → Text → World → Outcome) (c : Command) (name : Text)
    (args : List Text) (input_text : Text) (w : World)
    → Agree (length args + length (stdin_paths input_text)) f g
    → ((ts : List Text) (u : World) → f (text "cat" ∷ ts) [] u ≡ g (text "cat" ∷ ts) [] u)
    → run ext f c name args input_text w ≡ run ext g c name args input_text w
unfolding run exec_xargs exec_verify
run-Agree ext f g find name args input_text w same cats =
    exec_find-Agree ext f g args w (λ argv u short. same argv u (omega arith))
run-Agree ext f g xargs name args input_text w same cats =
    exec_xargs-Agree f g args input_text w same
run-Agree ext f g verify name args input_text w same cats = exec_verify-Agree f g args w cats
run-Agree ext f g pwd name args input_text w same cats = refl
run-Agree ext f g cd name args input_text w same cats = refl
run-Agree ext f g ls name args input_text w same cats = refl
run-Agree ext f g cat name args input_text w same cats = refl
run-Agree ext f g rg name args input_text w same cats = refl
run-Agree ext f g grep name args input_text w same cats = refl
run-Agree ext f g wc name args input_text w same cats = refl
run-Agree ext f g mkdir name args input_text w same cats = refl
run-Agree ext f g cp name args input_text w same cats = refl
run-Agree ext f g mv name args input_text w same cats = refl
run-Agree ext f g rm name args input_text w same cats = refl
run-Agree ext f g head name args input_text w same cats = refl
run-Agree ext f g sort name args input_text w same cats = refl
run-Agree ext f g status name args input_text w same cats = refl
run-Agree ext f g basename name args input_text w same cats = refl
run-Agree ext f g dirname name args input_text w same cats = refl
run-Agree ext f g edit name args input_text w same cats = refl
run-Agree ext f g patch name args input_text w same cats = refl
run-Agree ext f g tree name args input_text w same cats = refl
run-Agree ext f g echo name args input_text w same cats = refl
run-Agree ext f g colon name args input_text w same cats = refl
run-Agree ext f g help name args input_text w same cats = refl
run-Agree ext f g touch name args input_text w same cats = refl
run-Agree ext f g unsupported name args input_text w same cats = refl

no_paths : length (stdin_paths []) ≡ 0
unfolding stdin_paths splitlines
no_paths = refl

-- The executor where another one takes over at the depth that the fuel bounds.
unfoldable pub exec_over :
    (List Text → Text → World → Outcome) → ℕ → Externals → List Text → Text → World → Outcome
exec_over deeper zero ext argv input_text w = deeper argv input_text w
exec_over deeper (suc fuel) ext [] input_text w = succeed [] [] w
exec_over deeper (suc fuel) ext (name ∷ args) input_text w =
    run ext (exec_over deeper fuel ext) (command_of name) name args input_text w

exec_with-cat :
    (ext : Externals) (fuel : ℕ) (ts : List Text) (w : World)
    → 0 < fuel
    → exec_with fuel ext (text "cat" ∷ ts) [] w ≡ exec_cat ext ts [] w
unfolding exec_with command_of run text list_beq
exec_with-cat ext zero ts w some_fuel = absurd (omega arith)
exec_with-cat ext (suc fuel) ts w some_fuel = refl

module _ (ext : Externals) (deeper : List Text → Text → World → Outcome) where
  exec_over-cat :
      (fuel : ℕ) (ts : List Text) (w : World)
      → 0 < fuel
      → exec_over deeper fuel ext (text "cat" ∷ ts) [] w ≡ exec_cat ext ts [] w
  unfolding exec_over command_of run text list_beq
  exec_over-cat zero ts w some_fuel = absurd (omega arith)
  exec_over-cat (suc fuel) ts w some_fuel = refl

  -- Above the bound neither the amount of fuel nor what is deeper makes a difference.
  exec_with-over :
      (fuel depth : ℕ) (argv : List Text) (input_text : Text) (w : World)
      → length argv + length (stdin_paths input_text) < fuel
      → length argv + length (stdin_paths input_text) < depth
      → exec_with fuel ext argv input_text w ≡ exec_over deeper depth ext argv input_text w
  unfolding exec_with exec_over
  exec_with-over zero depth argv input_text w h g = absurd (omega arith)
  exec_with-over (suc fuel) zero argv input_text w h g = absurd (omega arith)
  exec_with-over (suc fuel) (suc depth) [] input_text w h g = refl
  exec_with-over (suc fuel) (suc depth) (name ∷ args) input_text w h g =
      run-Agree ext (exec_with fuel ext) (exec_over deeper depth ext) (command_of name) name args
        input_text w
        (λ argv u fits.
          exec_with-over fuel depth argv [] u (rw no_paths (omega arith))
            (rw no_paths (omega arith)))
        (λ ts u.
          exec_with-cat ext fuel ts u (omega arith) ∙ sym (exec_over-cat depth ts u (omega arith)))

  -- The executor's fuel never runs out: whatever takes over at a depth above the length of the
  -- command and the number of paths in its input, the outcome is that of `exec_argv`, so that
  -- commands that run commands never get to that depth.
  pub exec_argv_lem :
      (depth : ℕ) (argv : List Text) (input_text : Text) (w : World)
      → length argv + length (stdin_paths input_text) < depth
      → exec_over deeper depth ext argv input_text w ≡ exec_argv ext argv input_text w
  unfolding exec_argv
  exec_argv_lem depth argv input_text w h = sym (
      exec_with-over (suc (length argv + length (stdin_paths input_text))) depth argv input_text w
        (omega arith) h)

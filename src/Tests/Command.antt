-- ===== src/Tests/Command.antt =====
-- The theorems of the command parser at concrete commands.
use iruka_virtual_file_syste.Prelude.{◌≡◌, refl, true, false, some, [], ◌∷◌, ◌++◌, list_beq}
use iruka_virtual_file_syste.Text.{text}
use iruka_virtual_file_syste.Text.Strip.{rstrip_by, is_space}
use iruka_virtual_file_syste.Command.Chain.{always, if_ok, split_chain}
use iruka_virtual_file_syste.Command.Pipeline.{staged, stages_from, is_redirect}
use iruka_virtual_file_syste.Command.Piping.{stage_tokens, stages_round_trip}
use iruka_virtual_file_syste.Command.Chaining.{chain_tail, split_chain_round_trip}

split_chain_example :
    split_chain (
      text "cd a"
      ++ chain_tail (
          record { op = if_ok; cmd = text "ls -l" }
          ∷ record { op = always; cmd = text "pwd" }
          ∷ []))
    ≡ record { op = always; cmd = text "cd a" }
      ∷ record { op = if_ok; cmd = text "ls -l" }
      ∷ record { op = always; cmd = text "pwd" }
      ∷ []
unfolding text rstrip_by is_space list_beq
split_chain_example =
    split_chain_round_trip (text "cd a")
      (record { op = if_ok; cmd = text "ls -l" } ∷ record { op = always; cmd = text "pwd" } ∷ [])
      refl refl

stages_example :
    stages_from [] [] false (
      stage_tokens true
        (text "cat" ∷ text "a" ∷ [])
        ((text "head" ∷ []) ∷ [])
        (some (record { op = text ">"; path = text "b"; force = true })))
    ≡ staged (record {
      pipeline = (text "cat" ∷ text "a" ∷ []) ∷ (text "head" ∷ []) ∷ [];
      redirect = some (record { op = text ">"; path = text "b"; force = true });
      merge_stderr = true;
    })
unfolding text is_redirect list_beq
stages_example =
    stages_round_trip true (text "cat" ∷ text "a" ∷ []) ((text "head" ∷ []) ∷ [])
      (some (record { op = text ">"; path = text "b"; force = true })) refl refl

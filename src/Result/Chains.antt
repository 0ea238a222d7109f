-- ===== src/Result/Chains.antt =====
-- A chain that succeeds has a value between its steps.
use iruka_virtual_file_syste.Prelude.{◌≡◌, refl}
use iruka_virtual_file_syste.Result.{Result, ok, raise, ◌>>=◌}

pub middle :
    {A B : Type 0} (first : Result A) (next : A → Result B) (out : B)
    → (first >>= next) ≡ ok out
    → (a : A) × (next a ≡ ok out) × (first ≡ ok a)
middle (raise failure) next out h = cc
middle (ok a) next out h = (a, h, refl)

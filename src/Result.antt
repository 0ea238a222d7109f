-- ===== src/Result.antt =====
-- Python's exceptions as values. `diverges` is a loop that never ends.
pub mod Chains
use iruka_virtual_file_syste.Prelude.{
  Bool, true, false, Option, none, some, ◌≡◌, refl, ◌⊎◌, inl, inr,
}
use iruka_virtual_file_syste.Text.{Text}

pub data Error : Type 0 where
  value_error permission_error file_exists_error file_not_found_error : Text → Error
  key_error index_error stop_iteration diverges : Error

pub data Result {ℓ} (A : Type ℓ) : Type ℓ where
  ok : A → Result A
  raise : Error → Result A

infixl 5 ◌>>=◌ ◌>>◌
abbrev pub ◌>>=◌ {ℓ κ} : {A : Type ℓ} {B : Type κ} → Result A → (A → Result B) → Result B
ok a >>= f = f a
raise e >>= f = raise e

abbrev pub ◌>>◌ {ℓ κ} : {A : Type ℓ} {B : Type κ} → Result A → Result B → Result B
m >> k = m >>= λ _. k

-- `if not test: raise error`
abbrev pub guard : Bool → Error → Result (Unit {0})
guard true e = ok tt
guard false e = raise e

-- `d[k]`, or the given error where the key is missing
abbrev pub require {ℓ} : {A : Type ℓ} → Error → Option A → Result A
require e none = raise e
require e (some a) = ok a

pub Result-cases {ℓ} :
    {A : Type ℓ} (r : Result A) → ((e : Error) × (r ≡ raise e)) ⊎ ((a : A) × (r ≡ ok a))
Result-cases (ok a) = inr (a, refl)
Result-cases (raise e) = inl (e, refl)

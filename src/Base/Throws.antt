-- ===== src/Base/Throws.antt =====
-- The exceptions of the program, and what a call returns or throws, with `do`.

-- The strings that the code throws, and a wait for a request that was never made, which the code
-- does not survive in any defined way.
pub data Exception : Type 0 where
  out_of_memory buffer_size_not_enough unset_request : Exception

pub data Result {ℓ} (A : Type ℓ) : Type ℓ where
  returns : A → Result A
  throws : Exception → Result A

infixl 5 ◌>>=◌ ◌>>◌
abbrev pub ◌>>=◌ {ℓ κ} : {A : Type ℓ} {B : Type κ} → Result A → (A → Result B) → Result B
returns a >>= f = f a
throws e >>= f = throws e

abbrev pub ◌>>◌ {ℓ} : {B : Type ℓ} → Result (Unit {0}) → Result B → Result B
m >> k = m >>= λ _. k

-- ===== src/Backend/Fitting.antt =====
-- The search of `getFit` in src/Register.h for the register that holds a variable.
use ntu_csie_complier.Prelude.{ℕ, ◌<◌, ◌≤◌, Bool, true, false, Option, none, some, ◌≡◌}
use ntu_csie_complier.Backend.Code.{Address, same_address}
use ntu_csie_complier.Backend.State.{GenState}

-- The least number from `lo` below `hi` that passes a test, if there is one.
pub data Least (test : ℕ → Bool) (lo hi : ℕ) : Option ℕ → Type 0 where
  least :
      {r : ℕ}
      → test r ≡ true
      → r < hi
      → ((k : ℕ) → lo ≤ k → k < r → test k ≡ false)
      → Least test lo hi (some r)
  no_one : ((k : ℕ) → lo ≤ k → k < hi → test k ≡ false) → Least test lo hi none

-- The register holds the variable at the address: what it is for is an address, and this one.
pub record HoldsAddress (s : GenState) (a : Address) (r : ℕ) : Type 0 where
  pub is_address : (s.regs r).target_is_address ≡ true
  pub same : same_address (s.regs r).target_addr a ≡ true

-- The outcome of `getFit`: the first register that holds the variable at the address, or none, and
-- then no register holds it.
pub data Fit (s : GenState) (a : Address) : Option ℕ → Type 0 where
  fitting :
      {r : ℕ}
      → HoldsAddress s a r
      → r < 54
      → ((k : ℕ) → k < r → ¬ HoldsAddress s a k)
      → Fit s a (some r)
  no_fit : ((k : ℕ) → k < 54 → ¬ HoldsAddress s a k) → Fit s a none

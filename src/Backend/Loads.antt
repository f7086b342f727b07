-- ===== src/Backend/Loads.antt =====
-- `load(const Address &)` of src/Register.cpp.
use ntu_csie_complier.Prelude.{ℕ, none, some, ◌==◌, if◌then◌else◌}
use ntu_csie_complier.Effect.{pure, ◌>>◌, modify}
use ntu_csie_complier.Types.{op_add}
use ntu_csie_complier.Backend.Code.{Address, load_addr, load_word, Instr}
use ntu_csie_complier.Backend.State.{GenState, Gen, Host, emit}
use ntu_csie_complier.Backend.Operations.{reg_is_float, set_dirty, operand_int}

abbrev pub load_word_of : GenState → ℕ → Address → Instr
load_word_of s r a = if reg_is_float s r then Instr.l_s r a.addr_name else Instr.lw r a.addr_name

module _ (host : Host) where
  -- `load(const Address &)`; an address is not loaded into a `float` register.
  unfoldable pub load_base : ℕ → ℕ → ℕ → Gen (Unit {0})
  unfolding operand_int emit
  load_base r base offset = do
    modify (emit (Instr.move r base))
    if offset == 0 then pure tt else operand_int host r op_add r offset

  unfoldable pub load_addr_int : ℕ → Address → Gen (Unit {0})
  unfolding load_base emit
  load_addr_int r a = elim (a.reg) [
    | some base ↦ load_base r base (a.offset)
    | none ↦ modify (emit (Instr.la r a.addr_name))
  ]

  unfoldable pub load_address : ℕ → Address → Gen (Unit {0})
  unfolding load_addr_int set_dirty emit
  load_address r a s = elim (a.load_type) [
    | load_word ↦ some (tt, set_dirty r (emit (load_word_of s r a) s))
    | load_addr ↦ if reg_is_float s r then none else (do load_addr_int r a; modify (set_dirty r)) s
  ]

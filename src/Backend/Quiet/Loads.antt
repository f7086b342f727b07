-- ===== src/Backend/Quiet/Loads.antt =====
-- Loading addresses (src/Register.cpp) and `genSyscall` (src/gen-part.cpp).
use ntu_csie_complier.Backend.Quiet.{Quiet, Quiet-trans, emit-Quiet, IsPlain}
use ntu_csie_complier.Backend.Quiet.Steps.{set_dirty-Quiet, load_int-Quiet}
use ntu_csie_complier.Prelude.{ℕ, Bool, true, false, Option, none, some, ◌==◌, if◌then◌else◌, refl}
use ntu_csie_complier.Effect.{pure, ◌>>◌, modify}
use ntu_csie_complier.Effect.Post.{Post, faults, returns}
use ntu_csie_complier.Types.{op_add}
use ntu_csie_complier.Backend.Code.{
  Label, Address, LoadType, load_addr, load_word, Instr, v0, f0, a0, f12,
}
use ntu_csie_complier.Backend.State.{GenState, Host, emit}
use ntu_csie_complier.Backend.Operations.{set_dirty, load_reg, reg_is_float}
use ntu_csie_complier.Backend.Loads.{load_word_of, load_base, load_addr_int, load_address}
use ntu_csie_complier.Backend.Syscalls.{
  SystemCallCode, print_int, print_float, print_string, read_int, read_float, exit, gen_syscall,
  call_number,
}
use ntu_csie_complier.Backend.Quiet.Rules.{
  Silent, pure-Silent, modify-Silent, if-Silent, choice-Silent, emit-Silent, ◌▹◌,
}
use ntu_csie_complier.Backend.Quiet.Operations.{load_reg-Silent, operand_int-Silent}

module _ (l : Label) (host : Host) where
  load_base-Silent : (r base offset : ℕ) → Silent l (load_base host r base offset)
  unfolding load_base
  load_base-Silent r base offset = emit-Silent l (Instr.move r base) (refl, refl) ▹ λ _.
      choice-Silent l (offset == 0) (pure tt) _ (pure-Silent l tt)
        (operand_int-Silent l host r op_add r offset)

  load_addr_int-Silent : (r : ℕ) (a : Address) → Silent l (load_addr_int host r a)
  unfolding load_addr_int
  load_addr_int-Silent r a = of_base (a.reg)
    where
      of_base :
          (b : Option ℕ)
          → Silent l (elim b [
            | some base ↦ load_base host r base a.offset
            | none ↦ modify (emit (Instr.la r a.addr_name))
          ])
      of_base none = emit-Silent l (Instr.la r a.addr_name) (refl, refl)
      of_base (some base) = load_base-Silent r base a.offset

  load_word-Quiet :
      (r : ℕ) (a : Address) (s : GenState) → Quiet l s (set_dirty r (emit (load_word_of s r a) s))
  load_word-Quiet r a s =
      Quiet-trans l _ _ _ (emit-Quiet l (load_word_of s r a) s (at_kind (reg_is_float s r)))
        (set_dirty-Quiet l r _)
    where
      at_kind :
          (b : Bool) → IsPlain l (if b then Instr.l_s r a.addr_name else Instr.lw r a.addr_name)
      at_kind true = (refl, refl)
      at_kind false = (refl, refl)

  load_addr-Silent :
      (r : ℕ) (a : Address)
      → Silent l (λ s.
        (if reg_is_float s r then none else (do load_addr_int host r a; modify (set_dirty r)) s))
  load_addr-Silent r a =
      if-Silent l (λ s. reg_is_float s r) (λ s. none) _ (λ s. faults)
        (load_addr_int-Silent r a ▹ λ _. modify-Silent l _ (set_dirty-Quiet l r))

  pub load_address-Silent : (r : ℕ) (a : Address) → Silent l (load_address host r a)
  unfolding load_address
  load_address-Silent r a s = of_type (a.load_type)
    where
      of_type :
          (t : LoadType)
          → Post
              (λ (x : Unit {0}) u. Quiet l s u)
              (elim t [
                | load_word ↦ some (tt, set_dirty r (emit (load_word_of s r a) s))
                | load_addr ↦
                    if reg_is_float s r
                    then none
                    else (do load_addr_int host r a; modify (set_dirty r)) s
              ])
      of_type load_word = returns (load_word-Quiet r a s)
      of_type load_addr = load_addr-Silent r a s

  shown-Silent : (r from : ℕ) → Silent l (load_reg host r from >> modify (emit Instr.syscall))
  shown-Silent r from =
      load_reg-Silent l host r from ▹ λ _. emit-Silent l Instr.syscall (refl, refl)

  read-Silent : (r from : ℕ) → Silent l (modify (emit Instr.syscall) >> load_reg host r from)
  read-Silent r from = emit-Silent l Instr.syscall (refl, refl) ▹ λ _. load_reg-Silent l host r from

  pub gen_syscall-Silent : (code : SystemCallCode) (r : ℕ) → Silent l (gen_syscall host code r)
  unfolding gen_syscall
  gen_syscall-Silent code r =
      modify-Silent l _ (load_int-Quiet l host v0 (call_number code)) ▹ λ _. of_code code
    where
      of_code :
          (c : SystemCallCode)
          → Silent l (elim c [
            | print_int ↦ load_reg host a0 r >> modify (emit Instr.syscall)
            | print_float ↦ load_reg host f12 r >> modify (emit Instr.syscall)
            | print_string ↦ load_reg host a0 r >> modify (emit Instr.syscall)
            | read_int ↦ modify (emit Instr.syscall) >> load_reg host r v0
            | read_float ↦ modify (emit Instr.syscall) >> load_reg host r f0
            | exit ↦ modify (emit Instr.syscall)
            | _ ↦ pure tt
          ])
      of_code print_int = shown-Silent a0 r
      of_code print_float = shown-Silent f12 r
      of_code print_string = shown-Silent a0 r
      of_code read_int = read-Silent r v0
      of_code read_float = read-Silent r f0
      of_code exit = emit-Silent l Instr.syscall (refl, refl)
      of_code SystemCallCode.print_double = pure-Silent l tt
      of_code SystemCallCode.read_double = pure-Silent l tt
      of_code SystemCallCode.read_string = pure-Silent l tt
      of_code SystemCallCode.sbrk = pure-Silent l tt

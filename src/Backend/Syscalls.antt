-- ===== src/Backend/Syscalls.antt =====
-- `genSyscall` of src/gen-part.cpp.
use ntu_csie_complier.Prelude.{ℕ}
use ntu_csie_complier.Effect.{pure, ◌>>◌, modify}
use ntu_csie_complier.Backend.Code.{Instr, v0, f0, a0, f12}
use ntu_csie_complier.Backend.State.{Gen, Host, emit}
use ntu_csie_complier.Backend.Operations.{load_int, load_reg}

pub data SystemCallCode : Type 0 where
  print_int print_float print_double print_string read_int read_float read_double read_string sbrk
        exit :
      SystemCallCode

abbrev pub call_number : SystemCallCode → ℕ
call_number print_int = 1
call_number print_float = 2
call_number print_double = 3
call_number print_string = 4
call_number read_int = 5
call_number read_float = 6
call_number read_double = 7
call_number read_string = 8
call_number sbrk = 9
call_number exit = 10

module _ (host : Host) where
  -- `genSyscall`; for `EXIT` the register is not used, and for the calls it does not handle it writes a
  -- comment.
  unfoldable pub gen_syscall : SystemCallCode → ℕ → Gen (Unit {0})
  unfolding load_int load_reg emit
  gen_syscall code value = do
    modify (load_int host v0 (call_number code))
    elim code [
      | print_int ↦ load_reg host a0 value >> modify (emit Instr.syscall)
      | print_float ↦ load_reg host f12 value >> modify (emit Instr.syscall)
      | print_string ↦ load_reg host a0 value >> modify (emit Instr.syscall)
      | read_int ↦ modify (emit Instr.syscall) >> load_reg host value v0
      | read_float ↦ modify (emit Instr.syscall) >> load_reg host value f0
      | exit ↦ modify (emit Instr.syscall)
      | _ ↦ pure tt
    ]

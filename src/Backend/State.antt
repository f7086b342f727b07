-- ===== src/Backend/State.antt =====
-- The state of the back end: the registers of src/Register.h with the lock map, and the output.
use ntu_csie_complier.Prelude.{
  ℕ, Bool, true, false, Option, none, some, List, [], ◌∷◌, ◌++◌, ◌==◌, if◌then◌else◌,
}
use ntu_csie_complier.Effect.{Action}
use ntu_csie_complier.Types.{DataType}
use ntu_csie_complier.Backend.Code.{Address, named, label_address, Instr}

-- `target_is_address` is `targetType`; `target` is the node of a temporary value.
pub record Register : Type 0 where
  pub reg_type : DataType
  pub target_addr : Address
  pub dirty : Bool
  pub modified : Bool
  pub target : Option ℕ
  pub target_is_address : Bool

-- `draws` counts the calls of `random`; the branch indices are the `static` counters of the three
-- functions that have one.
pub record GenState : Type 0 where
  pub regs : ℕ → Register
  pub locked : ℕ → Bool
  pub draws : ℕ
  pub output : List Instr
  pub const_branch_index : ℕ
  pub branch_index : ℕ
  pub not_index : ℕ

abbrev pub Gen : Type 0 → Type 0
Gen A = Action GenState A

-- The C library's `random`, by the number of the call, and the conversions of numbers: the bits of
-- `(float) value` as a `double`, and `(int) value`. `tries` bounds the search for a register that is
-- not locked.
pub record Host : Type 0 where
  pub random : ℕ → ℕ
  pub tries : ℕ
  pub float_of_int : ℕ → ℕ
  pub int_of_double : ℕ → ℕ

-- `CodeGenStream`
unfoldable pub emit : Instr → GenState → GenState
emit i s = record s { output = s.output ++ i ∷ [] }

abbrev pub put : (ℕ → Register) → ℕ → Register → ℕ → Register
put regs r x k = if k == r then x else regs k

unfoldable pub set_reg : ℕ → Register → GenState → GenState
set_reg r x s = record s { regs = put s.regs r x }

-- `Register::clear`
abbrev pub cleared : Register → Register
cleared x = record x {
  modified = false;
  dirty = false;
  target = none;
  target_addr = label_address (named "");
  target_is_address = false;
}

unfoldable pub clear : ℕ → GenState → GenState
unfolding set_reg
clear r s = set_reg r (cleared (s.regs r)) s

abbrev pub is_float : DataType → Bool
is_float DataType.float_type = true
is_float _ = false

abbrev pub store : ℕ → DataType → Address → Instr
store r t a = if is_float t then Instr.s_s r a.addr_name else Instr.sw r a.addr_name

-- `Register::save(const Address &)`
unfoldable pub save_to : ℕ → Address → GenState → GenState
unfolding emit clear
save_to r a s =
    let s1 = emit (store r (s.regs r).reg_type a) s in
    if (s.regs r).target_addr.is_volatile then clear r s1 else s1

abbrev pub is_variable_modified : Register → Bool
is_variable_modified x = if x.target_is_address then x.modified else false

abbrev pub set_flags : Bool → Bool → ℕ → GenState → GenState
set_flags dirty modified r s =
    set_reg r (record (s.regs r) { dirty = dirty; modified = modified }) s

-- `Register::save()`
unfoldable pub save : ℕ → GenState → GenState
unfolding save_to set_reg
save r s =
    if is_variable_modified (s.regs r)
    then set_flags false false r (save_to r (s.regs r).target_addr s)
    else set_flags false (s.regs r).modified r s

-- `setTarget`
unfoldable pub set_target_node : ℕ → ℕ → GenState → GenState
unfolding save_to set_reg
set_target_node r node s =
    let s1 = if (s.regs r).target_is_address then save_to r (s.regs r).target_addr s else s in
    set_reg r (record (s1.regs r) { target_is_address = false; target = some node }) s1

unfoldable pub set_target_address : ℕ → Address → GenState → GenState
unfolding set_reg
set_target_address r a s =
    set_reg r (record (s.regs r) { target_is_address = true; target_addr = a }) s

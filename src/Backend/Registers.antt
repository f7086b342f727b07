-- ===== src/Backend/Registers.antt =====
-- `RegisterSystem` of src/Register.h and src/Register.cpp.
use ntu_csie_complier.Prelude.{
  ℕ, zero, suc, ◌%◌, Bool, true, false, not, ◌&&◌, Option, none, some, List, [], ◌∷◌, ◌++◌, ◌==◌,
  ltb, length, get_elem?, if◌then◌else◌, ◌||◌,
}
use ntu_csie_complier.Types.{DataType, int_type, float_type}
use ntu_csie_complier.Backend.Code.{Address, label_address, named, same_address}
use ntu_csie_complier.Backend.State.{Register, GenState, Gen, Host, clear, save, is_float}

-- The numbers `first`, `first + 1` and so on.
unfoldable pub count_up : ℕ → ℕ → List ℕ
count_up first zero = []
count_up first (suc n) = first ∷ count_up (suc first) n

-- `calleeReg`, `callerReg`, `floatCallee`, `floatCaller` and `registers`.
abbrev pub callee_reg : List ℕ
callee_reg = 0 ∷ 1 ∷ 2 ∷ 3 ∷ 4 ∷ 5 ∷ 6 ∷ 7 ∷ []

abbrev pub caller_reg : List ℕ
caller_reg = 8 ∷ 9 ∷ 10 ∷ 11 ∷ 12 ∷ 13 ∷ 14 ∷ 15 ∷ 16 ∷ 17 ∷ []

unfoldable pub float_callee : List ℕ
unfolding count_up
float_callee = count_up 18 14

unfoldable pub float_caller : List ℕ
unfolding count_up
float_caller = count_up 32 15

unfoldable pub registers : List ℕ
unfolding count_up
registers = count_up 0 54

abbrev pub type_of_reg : ℕ → DataType
type_of_reg r = if ltb 17 r && ltb r 47 || r == 48 then float_type else int_type

-- `Register::Register`
abbrev pub new_register : DataType → Register
new_register t = record {
  reg_type = t;
  target_addr = label_address (named "");
  dirty = false;
  modified = false;
  target = none;
  target_is_address = false;
}

unfoldable pub initial_gen_state : GenState
initial_gen_state = record {
  regs = λ r. new_register (type_of_reg r);
  locked = λ r. false;
  draws = 0;
  output = [];
  const_branch_index = 0;
  branch_index = 0;
  not_index = 0;
}

unfoldable pub lock : ℕ → Bool → GenState → GenState
lock r l s = record s { locked = λ k. if k == r then l else s.locked k }

-- The loops of `findVacant` over the vector: the first register that passes the test.
unfoldable pub first_where : (ℕ → Bool) → List ℕ → Option ℕ
first_where test [] = none
first_where test (r ∷ v) = if test r then some r else first_where test v

abbrev pub is_clean : GenState → ℕ → Bool
is_clean s r = not (s.regs r).dirty && not (s.locked r)

abbrev pub is_unmodified : GenState → ℕ → Bool
is_unmodified s r = not (s.regs r).modified && not (s.locked r)

-- What a draw comes to, given what the next draws come to.
abbrev pub unless_locked : Bool → ℕ → ℕ → Option (ℕ × ℕ) → Option (ℕ × ℕ)
unless_locked true r n rest = rest
unless_locked false r n rest = some (r, suc n)

abbrev pub drawn : (ℕ → Bool) → ℕ → Option (ℕ × ℕ) → Option ℕ → Option (ℕ × ℕ)
drawn locked n rest none = none
drawn locked n rest (some r) = unless_locked (locked r) r n rest

abbrev pub spill : GenState → Option (ℕ × ℕ) → Option (ℕ × GenState)
spill s none = none
spill s (some (r, n)) = some (r, clear r (save r (record s { draws = n })))

abbrev pub pool : DataType → Bool → List ℕ
pool t is_caller =
    if is_caller
    then (if is_float t then float_caller else caller_reg)
    else (if is_float t then float_callee else callee_reg)

module _ (host : Host) where
  -- The loop that draws registers at random until one is not locked, with the number of calls of
  -- `random` that it makes.
  unfoldable pub draw_unlocked : (ℕ → Bool) → List ℕ → ℕ → ℕ → Option (ℕ × ℕ)
  draw_unlocked locked v zero n = none
  draw_unlocked locked v (suc tries) n =
      drawn locked n (draw_unlocked locked v tries (suc n)) (get_elem? v (host.random n % length v))

  abbrev pub or_spill : List ℕ → GenState → Option ℕ → Option (ℕ × GenState)
  or_spill v s (some r) = some (r, s)
  or_spill v s none = spill s (draw_unlocked s.locked v (host.tries) s.draws)

  abbrev pub or_unmodified : List ℕ → GenState → Option ℕ → Option (ℕ × GenState)
  or_unmodified v s (some r) = some (r, s)
  or_unmodified v s none = or_spill v s (first_where (is_unmodified s) v)

  -- `findVacant`, with the register in place of its index.
  unfoldable pub find_vacant : List ℕ → Gen ℕ
  unfolding first_where draw_unlocked save clear
  find_vacant v s = or_unmodified v s (first_where (is_clean s) v)

  -- `getReg(type, isCaller)`
  unfoldable pub get_reg : DataType → Bool → Gen ℕ
  unfolding find_vacant float_caller float_callee
  get_reg t is_caller = find_vacant (pool t is_caller)

-- `fit(const Address &)` and `getFit`
abbrev pub fits_address : GenState → Address → ℕ → Bool
fits_address s a r =
    if (s.regs r).target_is_address then same_address (s.regs r).target_addr a else false

unfoldable pub get_fit : Address → GenState → Option ℕ
unfolding first_where registers
get_fit a s = first_where (fits_address s a) registers

-- `fit(const AST_NODE *)`
abbrev pub same_node : Option ℕ → ℕ → Bool
same_node none n = false
same_node (some k) n = k == n

unfoldable pub fits_node : GenState → ℕ → ℕ → Bool
fits_node s n r = if (s.regs r).target_is_address then false else same_node (s.regs r).target n

unfoldable pub save_all : List ℕ → GenState → GenState
unfolding save clear
save_all [] s = s
save_all (r ∷ v) s = save_all v (clear r (save r s))

unfoldable pub save_and_clear : GenState → GenState
unfolding save_all registers
save_and_clear s = save_all registers s

unfoldable pub clear_all : List ℕ → GenState → GenState
unfolding clear
clear_all [] s = s
clear_all (r ∷ v) s = clear_all v (clear r s)

-- `RegisterSystem::clear`
unfoldable pub clear_registers : GenState → GenState
unfolding clear_all registers
clear_registers s = clear_all registers s

unfoldable pub clear_reg_record : GenState → GenState
unfolding clear_all float_caller
clear_reg_record s = clear_all float_caller (clear_all caller_reg s)

unfoldable pub get_callee : List ℕ
unfolding float_callee
get_callee = callee_reg ++ float_callee

-- ===== src/Backend/Frame.antt =====
-- `ARSystem` of src/Register.cpp: where variables are stored, and the code at the start and the end of
-- a function.
use ntu_csie_complier.Prelude.{
  ℕ, suc, ◌+◌, ◌-◌, ◌*◌, ◌%◌, Bool, true, String, Option, none, some, List, [], ◌∷◌, ◌++◌, ◌==◌,
  str_eq, length, if◌then◌else◌,
}
use ntu_csie_complier.Effect.{pure, ◌>>=◌, ◌>>◌, modify}
use ntu_csie_complier.Types.{TypeDescriptor, scalar, array, int_type, op_add, op_sub}
use ntu_csie_complier.Types.Descriptor.{size}
use ntu_csie_complier.Semantic.Fold.{int_mod}
use ntu_csie_complier.Backend.Code.{
  Address, Label, prefixed, named, tagged, load_addr, Instr, reg_address, label_address, plus,
  minus, ra, fp, sp,
}
use ntu_csie_complier.Backend.State.{GenState, Gen, Host, emit, save_to}
use ntu_csie_complier.Backend.Registers.{get_reg, get_callee, clear_reg_record, clear_registers}
use ntu_csie_complier.Backend.Operations.{operand, operand_int, emits}
use ntu_csie_complier.Backend.Loads.{load_address}
use ntu_csie_complier.Backend.Syscalls.{gen_syscall, exit}

-- An entry is the number of its node; `tag_index` is the `static` counter of `getTag`.
pub record ArSystem : Type 0 where
  pub func_name : String
  pub total_offset : ℕ
  pub param_offset : ℕ
  pub str_const : List (String × Label)
  pub local_variable : ℕ → Option Address
  pub global_variable : ℕ → Option Address
  pub init_routine : List (Label × Label)
  pub tag_index : ℕ

-- What `addVariable` reads of an entry.
pub record Variable : Type 0 where
  pub entry : ℕ
  pub name : String
  pub nesting_level : ℕ
  pub type : TypeDescriptor

unfoldable pub clear_ar : ArSystem → ArSystem
clear_ar a = record a { local_variable = λ e. none; total_offset = 0; param_offset = 8 }

unfoldable pub initial_ar_system : ArSystem
initial_ar_system = record {
  func_name = "";
  total_offset = 0;
  param_offset = 8;
  str_const = [];
  local_variable = λ e. none;
  global_variable = λ e. none;
  init_routine = [];
  tag_index = 0;
}

abbrev pub bind_address : (ℕ → Option Address) → ℕ → Address → ℕ → Option Address
bind_address map e a k = if k == e then some a else map k

abbrev pub global_address : Variable → Address
global_address v =
    let a = label_address (prefixed "_" v.name) in
    elim (v.type) [ scalar d ↦ a | array p ↦ record a { load_type = load_addr } ]

-- The branches of `addVariable`: a global variable, a parameter and a local variable.
unfoldable pub add_global : Variable → ArSystem → ArSystem
add_global v a = record a {
  global_variable = bind_address a.global_variable v.entry (global_address v);
}

unfoldable pub add_param : Variable → ArSystem → ArSystem
unfolding plus
add_param v a = record a {
  local_variable = bind_address a.local_variable v.entry (plus (reg_address fp) a.param_offset);
  param_offset = a.param_offset + 4;
}

unfoldable pub add_local : Variable → ArSystem → ArSystem
unfolding minus size
add_local v a =
    let total = (a.total_offset + size v.type) % int_mod in
    record a {
      local_variable = bind_address a.local_variable v.entry (minus (reg_address fp) total);
      total_offset = total;
    }

-- `addVariable(SymbolTableEntry *, bool)`
unfoldable pub add_variable : Variable → Bool → ArSystem → ArSystem
unfolding add_global add_param add_local
add_variable v is_param a =
    if v.nesting_level == 0
    then add_global v a
    else if is_param
    then add_param v a
    else add_local v a

-- `getTag`, `getStartTag` and `getEndTag`.
unfoldable pub get_tag : String → ArSystem → Label × ArSystem
get_tag prefix a = (tagged prefix a.func_name a.tag_index, record a { tag_index = suc a.tag_index })

abbrev pub start_tag : ArSystem → Label
start_tag a = named a.func_name

abbrev pub end_tag : ArSystem → Label
end_tag a = prefixed "_end_" a.func_name

abbrev pub find_string : String → List (String × Label) → Option Label
find_string s [] = none
find_string s ((k, l) ∷ rest) = if str_eq s k then some l else find_string s rest

-- `addVariable(const char *)`
unfoldable pub add_string : String → GenState → ArSystem → GenState × ArSystem
unfolding get_tag emit
add_string str s a = elim (find_string str a.str_const) [
  | some l ↦ (s, a)
  | none ↦
      let (l, a') = get_tag "_STR" a in
      (
        emits (Instr.data_segment ∷ Instr.asciiz l str ∷ Instr.text ∷ []) s,
        record a' { str_const = a.str_const ++ (str, l) ∷ [] },
      )
]

unfoldable pub global_init_routine : Label → Label → ArSystem → ArSystem
global_init_routine start end a = record a { init_routine = a.init_routine ++ (start, end) ∷ [] }

-- The address of the `i`th saved register, `Address(fp) - 4*i - 4`.
unfoldable pub save_slot : ℕ → Address
unfolding minus
save_slot i = minus (minus (reg_address fp) (4 * i)) 4

-- The loop of `prologue` that saves the registers of `getCallee`.
unfoldable pub save_callee : ℕ → List ℕ → GenState → GenState
unfolding save_to save_slot
save_callee i [] s = s
save_callee i (r ∷ v) s = save_callee (suc i) v (save_to r (save_slot i) s)

abbrev pub init_code : List (Label × Label) → List Instr
init_code [] = []
init_code ((start, end) ∷ routines) = Instr.jump start ∷ Instr.mark end ∷ init_code routines

abbrev pub main_code : String → List (Label × Label) → List Instr
main_code name routines = if str_eq name "main" then init_code routines else []

module _ (host : Host) where
  -- The loop of `epilogue` that loads them again.
  unfoldable pub load_callee : ℕ → List ℕ → Gen (Unit {0})
  unfolding load_address save_slot
  load_callee i [] = pure tt
  load_callee i (r ∷ v) = do load_address host r (save_slot i); load_callee (suc i) v

  -- The code that `prologue` writes up to the saved registers.
  unfoldable pub open_frame : String → Gen (Unit {0})
  unfolding operand_int load_address operand save_to emit get_reg
  open_frame name = do
    modify (emit Instr.text)
    modify (emit (Instr.mark (named name)))
    modify (save_to ra (reg_address sp))
    modify (save_to fp (minus (reg_address sp) 4))
    operand_int host fp op_add sp (int_mod - 4)
    operand_int host sp op_add sp (int_mod - 8)
    tmp ← get_reg host int_type true
    load_address host tmp (label_address (prefixed "_framesize_" name))
    operand host sp op_sub sp tmp

  unfoldable pub prologue_code : String → List (Label × Label) → Gen (Unit {0})
  unfolding open_frame save_callee get_callee emit clear_reg_record
  prologue_code name routines = do
    open_frame name
    modify (save_callee 0 get_callee)
    modify (emit (Instr.mark (prefixed "_begin_" name)))
    modify (emits (main_code name routines))
    modify clear_reg_record

  unfoldable pub prologue : String → ArSystem → Gen ArSystem
  unfolding prologue_code get_callee
  prologue name a = do
    prologue_code name a.init_routine
    pure (record a {
      func_name = name;
      init_routine = if str_eq name "main" then [] else a.init_routine;
      total_offset = 4 * length get_callee;
    })

  unfoldable pub leave : ArSystem → Gen (Unit {0})
  unfolding gen_syscall emit
  leave a =
      if str_eq a.func_name "main" then gen_syscall host exit ra else modify (emit Instr.jr_ra)

  -- The code that `epilogue` writes, from the end tag to the return.
  unfoldable pub close_frame : ArSystem → Gen (Unit {0})
  unfolding load_callee load_address operand_int leave emit get_callee
  close_frame a = do
    modify (emit (Instr.mark (end_tag a)))
    load_callee 0 get_callee
    load_address host ra (plus (reg_address fp) 4)
    operand_int host sp op_add fp 4
    load_address host fp (reg_address fp)
    leave a

  unfoldable pub epilogue : ArSystem → Gen ArSystem
  unfolding close_frame emit clear_registers clear_ar
  epilogue a = do
    close_frame a
    modify (emit Instr.data_segment)
    modify (emit (Instr.word (prefixed "_framesize_" a.func_name) a.total_offset))
    modify clear_registers
    pure (clear_ar a)

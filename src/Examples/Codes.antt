-- ===== src/Examples/Codes.antt =====
-- The theorems on the back end at concrete states: busy registers, a function `f`, two variables.
use ntu_csie_complier.Prelude.{
  ℕ, ◌<◌, ◌%◌, true, false, none, some, List, [], ◌∷◌, ◌++◌, ◌==◌, ltb, leb, if◌then◌else◌, ◌≡◌,
  ◌≢◌, refl, arith,
}
use ntu_csie_complier.Effect.Post.{Post}
use ntu_csie_complier.Types.{int_type, scalar, array, ArrayProperties, op_ge, op_logical_negation}
use ntu_csie_complier.Types.Descriptor.{get_sub_array_property}
use ntu_csie_complier.Types.Descriptor.Laws.{get_sub_array_property-drop}
use ntu_csie_complier.Semantic.Fold.{unary_int}
use ntu_csie_complier.Backend.Code.{Address, Instr, label_address, prefixed}
use ntu_csie_complier.Backend.State.{GenState, Host, is_float, cleared}
use ntu_csie_complier.Backend.Registers.{
  new_register, type_of_reg, initial_gen_state, registers, get_reg, save_and_clear,
}
use ntu_csie_complier.Backend.Operations.{compare_code, not_code, word_of}
use ntu_csie_complier.Backend.Frame.{
  ArSystem, Variable, initial_ar_system, prologue, epilogue, add_variable, clear_ar,
}
use ntu_csie_complier.Backend.Allocation.{Typed, GivenAway, get_reg-GivenAway, get_reg-Typed}
use ntu_csie_complier.Backend.Drawing.{get_reg-finds}
use ntu_csie_complier.Backend.Flush.{stores, save_and_clear-stores}
use ntu_csie_complier.Backend.Written.{Adds, IsFresh}
use ntu_csie_complier.Backend.Entry.{enter_lines, prologue-enter_lines}
use ntu_csie_complier.Backend.Exit.{leave_lines, epilogue-leave_lines}
use ntu_csie_complier.Backend.Machine.{Processor, Machine, FloatTests, set_word, run, run_jumps}
use ntu_csie_complier.Backend.Return.{Restored, epilogue-prologue}
use ntu_csie_complier.Backend.Roundtrip.{enter_lines-runs}
use ntu_csie_complier.Backend.Opening.{pushed}
use ntu_csie_complier.Backend.Branches.{compare_code-compares, not_code-unary_int, compares}
use ntu_csie_complier.Backend.Layout.{LaidOutIn, add_variable-IsLaidOut, no_locals-IsLaidOut}

abbrev some_host : Host
some_host = record { random = λ n. n; tries = 20; float_of_int = λ n. n; int_of_double = λ d. d }

abbrev x_address : Address
x_address = label_address (prefixed "_" "x")

-- Every register holds a new value of a variable, and $t0 is locked.
abbrev busy : GenState
busy = record initial_gen_state {
  regs = λ r. record (new_register (type_of_reg r)) {
    dirty = true;
    modified = true;
    target_is_address = true;
    target_addr = x_address;
  };
  locked = λ r. r == 8;
}

get_reg-GivenAway_example : Post (λ r u. GivenAway busy r u) (get_reg some_host int_type true busy)
get_reg-GivenAway_example = get_reg-GivenAway some_host int_type true busy (λ r h. refl)

get_reg-Typed_example :
    Post
      (λ r u. (is_float (u.regs r).reg_type ≡ is_float int_type) × Typed u)
      (get_reg some_host int_type true busy)
get_reg-Typed_example = get_reg-Typed some_host int_type true busy (λ r. refl)

get_reg-finds_example : get_reg some_host int_type true busy ≢ none
unfolding initial_gen_state
get_reg-finds_example = get_reg-finds some_host int_type true busy 1 9 (omega arith) refl refl

save_and_clear-stores_example :
    ((save_and_clear busy).output ≡ busy.output ++ stores busy.regs registers)
    × ((r : ℕ) → r < 54 → (save_and_clear busy).regs r ≡ cleared (busy.regs r))
save_and_clear-stores_example = save_and_clear-stores busy

fresh : IsFresh initial_gen_state
unfolding initial_gen_state
fresh = record { new = λ r. refl; unlocked = λ r. refl }

abbrev ar_of_f : ArSystem
ar_of_f = record initial_ar_system { func_name = "f"; init_routine = []; total_offset = 88 }

prologue_of_f :
    (t : GenState) × (prologue some_host "f" initial_ar_system initial_gen_state
      ≡ some (ar_of_f, t))
    × Adds (enter_lines "f" []) initial_gen_state t
unfolding initial_ar_system
prologue_of_f = prologue-enter_lines some_host "f" initial_ar_system initial_gen_state fresh

prologue-enter_lines_example :
    (t : GenState) × (prologue some_host "f" initial_ar_system initial_gen_state
      ≡ some
          (record initial_ar_system { func_name = "f"; init_routine = []; total_offset = 88 }, t))
    × Adds (enter_lines "f" []) initial_gen_state t
unfolding initial_ar_system
prologue-enter_lines_example =
    prologue-enter_lines some_host "f" initial_ar_system initial_gen_state fresh

initial_Typed : Typed initial_gen_state
unfolding initial_gen_state
initial_Typed r = refl

abbrev f_leave_lines : List Instr
f_leave_lines =
    leave_lines some_host "f"
    ++ Instr.data_segment ∷ Instr.word (prefixed "_framesize_" "f") 88 ∷ []

epilogue_of_f :
    (t : GenState) × (epilogue some_host ar_of_f initial_gen_state ≡ some (clear_ar ar_of_f, t))
    × (t.output ≡ initial_gen_state.output ++ f_leave_lines)
    × ((r : ℕ) → r < 54 → t.regs r ≡ new_register (type_of_reg r))
epilogue_of_f = epilogue-leave_lines some_host ar_of_f initial_gen_state initial_Typed

epilogue-leave_lines_example :
    (t : GenState) × (epilogue some_host ar_of_f initial_gen_state ≡ some (clear_ar ar_of_f, t))
    × (t.output ≡ initial_gen_state.output ++ f_leave_lines)
    × ((r : ℕ) → r < 54 → t.regs r ≡ new_register (type_of_reg r))
epilogue-leave_lines_example =
    epilogue-leave_lines some_host ar_of_f initial_gen_state initial_Typed

abbrev some_processor : Processor
some_processor = record {
  labels = λ l. 0;
  and_word = λ a b. if a == 1 then b % 2 else 0;
  or_word = λ a b. if a == 0 then b else a;
}

abbrev some_machine : Machine
some_machine = record { regs = λ r. if r == 51 then 4000 else r; mem = λ a. 0 }

in_f : (m : Machine) × (run some_processor (enter_lines "f" []) some_machine ≡ some m)
unfolding pushed
in_f =
    let r = enter_lines-runs some_processor "f" [] some_machine refl (omega arith) (omega arith) in
    (r.0, r.1)

-- The body of `f` changes a saved register.
abbrev behind_body : Machine
behind_body = set_word 0 77 in_f.0

epilogue-prologue_example :
    (m : Machine) × (run some_processor f_leave_lines behind_body ≡ some m)
    × Restored some_machine m
unfolding initial_ar_system
epilogue-prologue_example =
    epilogue-prologue some_processor some_host "f" initial_ar_system ar_of_f ar_of_f
      (clear_ar ar_of_f) initial_gen_state prologue_of_f.0 initial_gen_state epilogue_of_f.0
      (enter_lines "f" []) f_leave_lines some_machine in_f.0 behind_body refl fresh prologue_of_f.1
      prologue_of_f.2.output_is refl initial_Typed epilogue_of_f.1 epilogue_of_f.2 (omega arith)
      in_f.1 (refl, λ i lt. refl)

abbrev some_tests : FloatTests
some_tests = record {
  float_eq = λ a b. a == b;
  float_le = λ a b. leb a b;
  float_lt = λ a b. ltb a b;
}

compare_code-compares_example :
    run_jumps some_processor some_tests 8
      (compare_code op_ge 5 8 18 19)
      (compare_code op_ge 5 8 18 19)
      false
      some_machine
    ≡ some (set_word 8 (word_of false) some_machine)
unfolding compares
compare_code-compares_example =
    compare_code-compares some_processor some_tests op_ge 5 8 18 19 false false some_machine refl

not_code-unary_int_example :
    run_jumps some_processor some_tests 6
      (not_code 8 3 (Instr.li 8 0) (Instr.li 8 1) 9)
      (not_code 8 3 (Instr.li 8 0) (Instr.li 8 1) 9)
      false
      some_machine
    ≡ some (set_word 8 (unary_int op_logical_negation 9) some_machine)
not_code-unary_int_example =
    not_code-unary_int some_processor some_tests 3 8 9 false some_machine (Instr.li 8 0)
      (Instr.li 8 1) refl refl

abbrev matrix : ArrayProperties
matrix = record { dimension = 3; sizes = 2 ∷ 3 ∷ 5 ∷ []; element_type = int_type }

-- A matrix, a number and a parameter of `f`.
abbrev matrix_variable : Variable
matrix_variable = record { entry = 1; name = "a"; nesting_level = 1; type = array matrix }

abbrev x_variable : Variable
x_variable = record { entry = 2; name = "x"; nesting_level = 1; type = scalar int_type }

abbrev sizes_of : ℕ → ℕ
sizes_of e = if e == 1 then 120 else 4

abbrev after_matrix : ArSystem
after_matrix = add_variable matrix_variable false ar_of_f

matrix_LaidOut : LaidOutIn sizes_of after_matrix
unfolding initial_ar_system add_variable
matrix_LaidOut =
    add_variable-IsLaidOut sizes_of matrix_variable false ar_of_f refl (omega arith) (omega arith)
      (omega arith) (omega arith) (no_locals-IsLaidOut sizes_of 88)

add_variable-IsLaidOut_example : LaidOutIn sizes_of (add_variable x_variable false after_matrix)
unfolding initial_ar_system add_variable
add_variable-IsLaidOut_example =
    add_variable-IsLaidOut sizes_of x_variable false after_matrix refl (omega arith) (omega arith)
      (omega arith) (omega arith) matrix_LaidOut

get_sub_array_property-drop_example :
    get_sub_array_property 1 (array matrix)
    ≡ some (array (record matrix { dimension = 2; sizes = 3 ∷ 5 ∷ [] }))
get_sub_array_property-drop_example =
    get_sub_array_property-drop matrix 1 refl (omega arith) (omega arith)

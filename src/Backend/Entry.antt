-- ===== src/Backend/Entry.antt =====
-- What `prologue` of src/Register.cpp writes.
use ntu_csie_complier.Prelude.{
  ℕ, Option, none, some, String, str_eq, List, [], ◌∷◌, ◌++◌, if◌then◌else◌, ◌≡◌, sym, subst, refl,
  ap, append-nil,
}
use ntu_csie_complier.Backend.Code.{Label, Instr, prefixed}
use ntu_csie_complier.Backend.State.{GenState, Host, emit}
use ntu_csie_complier.Backend.Registers.{
  get_callee, clear_all, clear_reg_record, caller_reg, float_caller,
}
use ntu_csie_complier.Backend.Operations.{emits}
use ntu_csie_complier.Backend.Frame.{ArSystem, save_callee, prologue_code, prologue, main_code}
use ntu_csie_complier.Backend.Allocation.{Typed}
use ntu_csie_complier.Backend.Written.{
  Adds, Adds-trans, Writes, wrote, then-Writes, IsFresh, open_lines, save_lines, open_frame-Writes,
  save_callee-Adds, emit-Adds, clear-Adds, emits-output,
}

pub emits-Adds : (code : List Instr) (s : GenState) → Typed s → Adds code s (emits code s)
unfolding emit
emits-Adds code s typed = record {
  output_is = emits-output code s;
  typed = emits-Typed code s typed;
}
  where
    emits-Typed : (code : List Instr) (s : GenState) → Typed s → Typed (emits code s)
    emits-Typed [] s typed = typed
    emits-Typed (i ∷ code) s typed = emits-Typed code (emit i s) typed

pub clear_all-Adds : (v : List ℕ) (s : GenState) → Typed s → Adds [] s (clear_all v s)
unfolding clear_all
clear_all-Adds [] s typed = record { output_is = sym (append-nil s.output); typed = typed }
clear_all-Adds (r ∷ v) s typed =
    let p = clear-Adds r s typed in Adds-trans p (clear_all-Adds v _ p.typed)

pub and_nothing : {c : List Instr} {s t u : GenState} → Adds c s t → Adds [] t u → Adds c s u
and_nothing {c} {s} {t} {u} p q = subst (λ d. Adds d s u) (append-nil c) (Adds-trans p q)

clear_reg_record-Adds : (s : GenState) → Typed s → Adds [] s (clear_reg_record s)
unfolding clear_reg_record
clear_reg_record-Adds s typed =
    let p = clear_all-Adds caller_reg s typed in
    and_nothing p (clear_all-Adds float_caller (clear_all caller_reg s) p.typed)

-- The code before the body of a function: a frame is opened, the registers are saved, and for `main`
-- the initial values of global variables are computed.
unfoldable pub enter_lines : String → List (Label × Label) → List Instr
enter_lines name routines =
    open_lines name
    ++ (save_lines 0 get_callee ++ Instr.mark (prefixed "_begin_" name) ∷ main_code name routines)

-- The state that an action with a result leaves.
pub result_of :
    {c : List Instr} {s : GenState} {r : Option (Unit {0} × GenState)}
    → Writes c s r
    → (t : GenState) × (r ≡ some (tt, t)) × Adds c s t
result_of (wrote {t} p) = (t, refl, p)

module _ (host : Host) where
  prologue_code-Writes :
      (name : String) (routines : List (Label × Label)) (s : GenState)
      → IsFresh s
      → Writes (enter_lines name routines) s (prologue_code host name routines s)
  unfolding prologue_code enter_lines clear_reg_record
  prologue_code-Writes name routines s fresh =
      then-Writes
        (λ t. some (
          tt,
          clear_reg_record (
              emits (main_code name routines)
                (emit (Instr.mark (prefixed "_begin_" name)) (save_callee 0 get_callee t))),
        ))
        (open_frame-Writes host name s fresh)
        (λ t typed.
          let mark = Instr.mark (prefixed "_begin_" name) in
          let p = save_callee-Adds 0 get_callee t typed in
          let q = emit-Adds mark (save_callee 0 get_callee t) p.typed in
          let r =
            emits-Adds (main_code name routines) (emit mark (save_callee 0 get_callee t)) q.typed in
          wrote (Adds-trans p (Adds-trans q (and_nothing r (clear_reg_record-Adds _ r.typed)))))

  -- With all registers fresh, `prologue` has a result. It appends `enter_lines` to the output: a
  -- frame is opened, the 22 registers of `getCallee` are saved, and only for `main` the routines for
  -- global variables follow. The saved registers take the first 88 bytes of the frame.
  pub prologue-enter_lines :
      (name : String) (a : ArSystem) (s : GenState)
      → IsFresh s
      → (t : GenState) × (prologue host name a s
          ≡ some (
            record a {
              func_name = name;
              init_routine = if str_eq name "main" then [] else a.init_routine;
              total_offset = 88;
            },
            t,
          ))
        × Adds (enter_lines name a.init_routine) s t
  unfolding prologue
  prologue-enter_lines name a s fresh =
      let a' : ArSystem = record a {
        func_name = name;
        init_routine = if str_eq name "main" then [] else a.init_routine;
        total_offset = 88;
      } in
      let (t, e, p) = result_of (prologue_code-Writes name a.init_routine s fresh) in
      (
        t,
        ap
            (λ (r : Option (Unit {0} × GenState)). elim r as (λ _. Option (ArSystem × GenState)) [
              | none ↦ none
              | some (u, t) ↦ some (a', t)
            ])
            e,
        p,
      )

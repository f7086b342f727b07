-- ===== src/Backend/Functions.antt =====
-- The code of a function (`genDeclareNode` of src/codeGen.c): the parts of it that `prologue`, the body and
-- `epilogue` write.
use ntu_csie_complier.Prelude.{
  ℕ, ◌<◌, Option, none, some, String, List, [], ◌∷◌, ◌++◌, append_assoc, ◌≡◌, refl, ap, sym, ◌∙◌,
  Option, subst, if◌then◌else◌, str_eq,
}
use ntu_csie_complier.Effect.Post.{Post, faults, returns, bind, bind_eq, of_some}
use ntu_csie_complier.Backend.Code.{named, prefixed, Instr}
use ntu_csie_complier.Backend.Spelling.{number_of, number_from}
use ntu_csie_complier.Backend.State.{Host}
use ntu_csie_complier.Backend.Registers.{new_register, type_of_reg, get_callee}
use ntu_csie_complier.Backend.Frame.{clear_ar, prologue, ArSystem}
use ntu_csie_complier.Backend.Allocation.{Typed}
use ntu_csie_complier.Backend.Written.{IsFresh}
use ntu_csie_complier.Backend.Entry.{enter_lines, prologue-enter_lines}
use ntu_csie_complier.Backend.Exit.{leave_lines, epilogue-leave_lines}
use ntu_csie_complier.Backend.Body.{GenDecl, GenStmt}
use ntu_csie_complier.Backend.Nodes.{Coder}
use ntu_csie_complier.Backend.Generation.{
  opened, open_function, close_function, gen_function_body, gen_function,
}
use ntu_csie_complier.Backend.Tags.{Step}
use ntu_csie_complier.Backend.Tags.Frames.{entered_ar}
use ntu_csie_complier.Backend.Tags.Programs.{gen_function_body-Balanced}

-- The result of an action is known behind it.
known :
    {S A : Type 0} {P : A → S → Type 0} (r : Option (A × S))
    → Post P r
    → Post (λ a t. (r ≡ some (a, t)) × P a t) r
known none faults = faults
known (some (a, t)) (returns p) = returns (refl, p)

no_number : number_of (named "") ≡ 0
unfolding number_from
no_number = refl

entered_88 :
    (name : String) (a : ArSystem)
    → entered_ar name a ≡ record a {
      func_name = name;
      init_routine = if str_eq name "main" then [] else a.init_routine;
      total_offset = 88;
    }
unfolding get_callee
entered_88 name a = refl

module _ (host : Host) (name : String) (params : List GenDecl) (b : GenStmt) where
  abbrev pub ending : String → ℕ → List Instr
  ending name size =
      leave_lines host name
      ++ Instr.data_segment ∷ Instr.word (prefixed "_framesize_" name) size ∷ []

  -- The code of a function, where `u` and `w` are the states around its parameters and its body: `u` is
  -- the one that `prologue` leaves, whose total offset is the size of the 22 saved registers.
  pub record Compiled (s t : Coder) : Type 0 where
    pub u : Coder
    pub w : Coder
    pub body : List Instr
    pub opens : prologue host name s.ar s.gen ≡ some (u.ar, u.gen)
    pub u_ar : u.ar ≡ record s.ar {
      func_name = name;
      init_routine = if str_eq name "main" then [] else s.ar.init_routine;
      total_offset = 88;
    }
    pub runs : gen_function_body host params b u ≡ some (tt, w)
    pub body_is : w.gen.output ≡ u.gen.output ++ body
    pub output_is :
        t.gen.output
        ≡ s.gen.output
          ++ (enter_lines name s.ar.init_routine ++ (body ++ ending name w.ar.total_offset))
    pub no_locals : t.ar ≡ clear_ar w.ar
    pub are_new : (r : ℕ) → r < 54 → t.gen.regs r ≡ new_register (type_of_reg r)

  closed :
      (s u w : Coder)
      → u.gen.output ≡ s.gen.output ++ enter_lines name s.ar.init_routine
      → prologue host name s.ar s.gen ≡ some (u.ar, u.gen)
      → u.ar ≡ entered_ar name s.ar
      → Typed u.gen
      → gen_function_body host params b u ≡ some (tt, w)
      → Step (named "") 0 0 0 u w
      → Post (λ (x : Unit {0}) t. Compiled s t) (close_function host w)
  unfolding close_function
  closed s u w o before ar typed e p =
      let g = p.balance.grows in
      let name_is = p.same_name ∙ ap (λ a. a.func_name) ar in
      let (t, f, o', new) = epilogue-leave_lines host w.ar w.gen (λ r. g.same_types r ∙ typed r) in
      let enter = enter_lines name s.ar.init_routine in
      let out = w.gen.output in
      subst (λ r. Post (λ (x : Unit {0}) t. Compiled s t) (opened w r)) (sym f)
        (returns (record {
          u = u;
          w = w;
          body = g.code;
          opens = before;
          u_ar = ar ∙ entered_88 name s.ar;
          runs = e;
          body_is = g.output_is;
          output_is =
              o'
              ∙ ap (λ n. out ++ ending n w.ar.total_offset) name_is
              ∙ ap (λ c. c ++ ending name w.ar.total_offset) (g.output_is ∙ ap (λ c. c ++ g.code) o)
              ∙ append_assoc (s.gen.output ++ enter) g.code (ending name w.ar.total_offset)
              ∙ append_assoc s.gen.output enter (g.code ++ ending name w.ar.total_offset);
          no_locals = refl;
          are_new = new;
        }))

  gen_function-Post :
      (s : Coder)
      → IsFresh s.gen
      → Post (λ (x : Unit {0}) t. Compiled s t) (gen_function host name params b s)
  unfolding gen_function open_function
  gen_function-Post s fresh =
      let (g, e, p) = prologue-enter_lines host name s.ar s.gen fresh in
      let u : Coder = record s { ar = entered_ar name s.ar; gen = g } in
      let run = gen_function_body host params b in
      subst (λ r. Post (λ (x : Unit {0}) t. Compiled s t) r)
        (sym (bind_eq (open_function host name) _ s tt u (ap (opened s) e)))
        (bind run _ u
          (known (run u) (gen_function_body-Balanced (named "") 0 host no_number params b u))
          (λ x w q. closed s u w p.output_is e refl p.typed q.0 q.1))

  -- Where the compiler translates a function from fresh registers, it appends the code of `prologue`,
  -- then what it appends for the parameters and the body, then the code of `epilogue` and, as the size
  -- of the frame, the total offset behind the body. The parameters and the body are translated in the
  -- state that `prologue` leaves, whose total offset is 88, the size of the 22 saved registers. At the
  -- end all registers are new again, and no local variable has an address.
  pub gen_function-Compiled :
      (s t : Coder)
      → IsFresh s.gen
      → gen_function host name params b s ≡ some (tt, t)
      → Compiled s t
  gen_function-Compiled s t fresh h =
      of_some (subst (λ r. Post (λ (x : Unit {0}) t. Compiled s t) r) h (gen_function-Post s fresh))

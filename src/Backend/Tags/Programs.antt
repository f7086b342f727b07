-- ===== src/Backend/Tags/Programs.antt =====
-- The labels of a whole program (`codeGen` of src/codeGen.c).
use ntu_csie_complier.Prelude.{
  ℕ, ◌+◌, ◌≤◌, ◌<◌, Bool, true, false, Option, none, some, String, str_eq, List, [], ◌∷◌,
  if◌then◌else◌, ◌≡◌, refl, ap, arith, subst, sym, All,
}
use ntu_csie_complier.Effect.{◌>>=◌}
use ntu_csie_complier.Effect.Post.{Post, faults, returns, sequence, weaken, of_some}
use ntu_csie_complier.Backend.Spelling.{number_of, IsPlain, last_code}
use ntu_csie_complier.Backend.Code.{Label}
use ntu_csie_complier.Backend.State.{GenState, Host}
use ntu_csie_complier.Backend.Frame.{ArSystem, prologue, epilogue, clear_ar}
use ntu_csie_complier.Backend.Labels.{total, between}
use ntu_csie_complier.Backend.Quiet.{definitions, uses}
use ntu_csie_complier.Backend.Body.{GenDecl, GenStmt, GenGlobal, global_stmt, function_decl}
use ntu_csie_complier.Backend.Nodes.{Coder, Code}
use ntu_csie_complier.Backend.Generation.{
  opened, gen_params, open_function, close_function, gen_function_body, gen_function, gen_global,
  gen_globals, initial_coder, code_gen,
}
use ntu_csie_complier.Backend.Tags.{Balance, Balance-trans, Balanced, ◌▸◌, ends, starts}
use ntu_csie_complier.Backend.Tags.Nodes.{pure-Balanced}
use ntu_csie_complier.Backend.Tags.Declarations.{gen_declare-Balanced}
use ntu_csie_complier.Backend.Tags.Blocks.{gen_stmt-Balanced}
use ntu_csie_complier.Backend.Tags.Frames.{routines_of, prologue-Entered, epilogue-Quiet}

opened-Post :
    (P : ArSystem → GenState → Type 0) (s : Coder) (r : Option (ArSystem × GenState))
    → Post P r
    → Post (λ (x : Unit {0}) t. P t.ar t.gen) (opened s r)
opened-Post P s none faults = faults
opened-Post P s (some (a, g)) (returns p) = returns p

-- The routines that are left behind `prologue`, and those it writes, are all.
parted :
    (f : List (Label × Label) → ℕ) (name : String) (v : List (Label × Label))
    → f [] ≡ 0
    → f (routines_of name v) + f (if str_eq name "main" then [] else v) ≡ f v
parted f name v h = at_name (str_eq name "main")
  where
    at_name : (b : Bool) → f (if b then v else []) + f (if b then [] else v) ≡ f v
    at_name true = omega arith
    at_name false = omega arith

-- A function whose name does not end in a digit.
abbrev pub HasPlainName : GenGlobal → Type 0
HasPlainName (global_stmt s) = Unit
HasPlainName (function_decl name params b) = IsPlain name

module _ (l : Label) (i : ℕ) (host : Host) (e : number_of l ≡ i) where
  -- An action that defines labels of `getTag` once and goes to them only if it does.
  abbrev Fair : {A : Type 0} → Code A → Type 0
  Fair {A} m = (s : Coder) → Post (λ (a : A) t. Balance l i 0 0 s t) (m s)

  of_Balanced : {A : Type 0} (m : Code A) → Balanced l i 0 0 m → Fair m
  of_Balanced m h s = weaken (h s) (λ a t p. p.balance)

  bind-Fair :
      {A B : Type 0} (m : Code A) (k : A → Code B)
      → Fair m
      → ((a : A) → Fair (k a))
      → Fair (m >>= k)
  bind-Fair m k h next s =
      sequence (Balance l i 0 0) (λ s t u p q. Balance-trans l i p q) m k s (h s) next

  open_function-Fair : (name : String) → IsPlain name → Fair (open_function host name)
  unfolding open_function ends starts
  open_function-Fair name h s =
      weaken
        (opened-Post _ s (prologue host name s.ar s.gen) (prologue-Entered l host name s.ar s.gen))
        (λ x t p.
          let q = p.0 in
          let a = p.1 in
          let v = s.ar.init_routine in
          let d = q.adds_ends in
          let u = q.adds_starts in
          let pe = parted (ends l) name v refl in
          let ps = parted (starts l) name v refl in
          let ends_are = ap (λ a. ends l a.init_routine) a in
          let starts_are = ap (λ a. starts l a.init_routine) a in
          let tag = ap (λ a. a.tag_index) a in
          record {
            grows = q.grows;
            tags = omega arith;
            plain = λ x. subst IsPlain (sym (ap (λ a. a.func_name) a)) h;
            at_most = λ x. omega arith;
            at_least = omega arith;
            resolved = λ h. omega arith;
          })

  close_function-Fair : Fair (close_function host)
  unfolding close_function clear_ar
  close_function-Fair s =
      weaken (opened-Post _ s (epilogue host s.ar s.gen) (epilogue-Quiet l host s.ar s.gen))
        (λ x t p.
          let q = p.0 in
          let d = q.same_definitions in
          let u = q.same_uses in
          let ends_are = ap (λ a. ends l a.init_routine) p.1 in
          let starts_are = ap (λ a. starts l a.init_routine) p.1 in
          let tag = ap (λ a. a.tag_index) p.1 in
          record {
            grows = q.grows;
            tags = omega arith;
            plain = λ x. subst IsPlain (sym (ap (λ a. a.func_name) p.1)) x;
            at_most = λ x. omega arith;
            at_least = omega arith;
            resolved = λ h. omega arith;
          })

  gen_params-Balanced : (ds : List GenDecl) → Balanced l i 0 0 (gen_params host ds)
  unfolding gen_params
  gen_params-Balanced [] = pure-Balanced l i tt
  gen_params-Balanced (d ∷ ds) = gen_declare-Balanced l i host e d ▸ λ _. gen_params-Balanced ds

  pub gen_function_body-Balanced :
      (params : List GenDecl) (b : GenStmt) → Balanced l i 0 0 (gen_function_body host params b)
  unfolding gen_function_body
  gen_function_body-Balanced params b =
      gen_params-Balanced params ▸ λ _. gen_stmt-Balanced l i host e b

  gen_global-Fair : (g : GenGlobal) → HasPlainName g → Fair (gen_global host g)
  unfolding gen_global gen_function
  gen_global-Fair (global_stmt s) h = of_Balanced _ (gen_stmt-Balanced l i host e s)
  gen_global-Fair (function_decl name params b) h = bind-Fair _ _ (open_function-Fair name h) (λ _.
      bind-Fair _ _ (of_Balanced _ (gen_function_body-Balanced params b))
        (λ _. close_function-Fair))

  gen_globals-Fair : (gs : List GenGlobal) → All HasPlainName gs → Fair (gen_globals host gs)
  unfolding gen_globals
  gen_globals-Fair [] h = of_Balanced _ (pure-Balanced l i tt)
  gen_globals-Fair (g ∷ gs) h = bind-Fair _ _ (gen_global-Fair g h.0) (λ _. gen_globals-Fair gs h.1)

below_one : (a b i : ℕ) → between a b i ≤ 1
below_one a b i = ground arith

code_gen-Balance :
    (host : Host) (program : List GenGlobal) (t : Coder) (l : Label)
    → All HasPlainName program
    → code_gen host program ≡ some (tt, t)
    → Balance l (number_of l) 0 0 initial_coder t
unfolding code_gen
code_gen-Balance host program t l names h = of_some (
    subst (λ r. Post (λ (x : Unit {0}) u. Balance l (number_of l) 0 0 initial_coder u) r) h
      (gen_globals-Fair l (number_of l) host refl program names initial_coder))

none_defined :
    (l : Label) → definitions l initial_coder.gen + ends l initial_coder.ar.init_routine ≡ 0
unfolding initial_coder ends total
none_defined l = refl

none_used : (l : Label) → uses l initial_coder.gen + starts l initial_coder.ar.init_routine ≡ 0
unfolding initial_coder starts total
none_used l = refl

no_name-IsPlain : IsPlain initial_coder.ar.func_name
unfolding initial_coder last_code
no_name-IsPlain = refl

-- Where `codeGen` translates a program in which no name of a function ends in a digit, the labels of
-- `getTag` that the code defines have different texts: each text is defined by one of them at most.
-- Labels that are not made by `getTag` are not counted.
pub code_gen_unique :
    (host : Host) (program : List GenGlobal) (t : Coder) (l : Label)
    → All HasPlainName program
    → code_gen host program ≡ some (tt, t)
    → definitions l t.gen ≤ 1
code_gen_unique host program t l names h =
    let p = code_gen-Balance host program t l names h in
    let a = p.at_most no_name-IsPlain in
    let z = none_defined l in
    let b = below_one (initial_coder.ar.tag_index) t.ar.tag_index (number_of l) in omega arith

-- Where `codeGen` translates a program in which no name of a function ends in a digit, and no routine
-- of a global variable is left for `main`, each text of a label of `getTag` that the code goes to is
-- defined by exactly one label of `getTag`. Labels that are not made by `getTag` are not counted.
pub code_gen-resolved :
    (host : Host) (program : List GenGlobal) (t : Coder) (l : Label)
    → All HasPlainName program
    → code_gen host program ≡ some (tt, t)
    → t.ar.init_routine ≡ []
    → 0 < uses l t.gen
    → definitions l t.gen ≡ 1
unfolding ends starts
code_gen-resolved host program t l names h none_left used =
    let p = code_gen-Balance host program t l names h in
    let le = code_gen_unique host program t l names h in
    let z = none_defined l in
    let z' = none_used l in
    let n = ap (ends l) none_left in
    let n' = ap (starts l) none_left in
    let r = λ (x : definitions l t.gen ≡ 0). p.resolved (omega arith) in ground (arith, r)

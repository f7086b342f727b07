-- ===== src/Backend/Passing.antt =====
-- Where a caller stores the arguments (`genFunctionCall` of src/codeGen.c) and where the function that is
-- called finds its parameters (`genDeclareNode`, and `addVariable` of src/Register.cpp).
use ntu_csie_complier.Prelude.{
  ℕ, ◌+◌, ◌-◌, ◌*◌, ◌%◌, ◌<◌, Bool, true, false, Option, none, some, List, [], ◌∷◌, ◌++◌, ◌==◌,
  length, All, if◌then◌else◌, ◌≡◌, refl, ap, ◌∙◌, arith,
}
use ntu_csie_complier.Effect.{pure, ◌>>=◌, ◌>>◌}
use ntu_csie_complier.Effect.Post.{bind_eq}
use ntu_csie_complier.Backend.Elements.{declared_address}
use ntu_csie_complier.Semantic.Fold.{int_mod}
use ntu_csie_complier.Backend.Code.{Address, reg_address, plus, minus, fp, sp}
use ntu_csie_complier.Backend.State.{Host}
use ntu_csie_complier.Backend.Frame.{ArSystem, Variable, add_variable, add_global, add_param}
use ntu_csie_complier.Backend.Tree.{GenId}
use ntu_csie_complier.Backend.Body.{
  Declarator, normal_id, array_id, GenDecl, function_parameter_decl,
}
use ntu_csie_complier.Backend.Nodes.{Coder}
use ntu_csie_complier.Backend.Expressions.{argument_slot}
use ntu_csie_complier.Backend.Generation.{
  gen_global_variable, gen_local_variable, gen_params, gen_declare, gen_variables, gen_variable,
  declare, gen_local_variable,
}

-- A parameter, as src/parser.y builds it: with a name, or with an array.
pub data Parameter : Type 0 where
  plain with_dimensions : GenId → Parameter

abbrev pub variable_of : Parameter → Variable
variable_of (plain i) = i.variable
variable_of (with_dimensions i) = i.variable

abbrev pub parameter_decl : Parameter → GenDecl
parameter_decl (plain i) = function_parameter_decl (normal_id i ∷ [])
parameter_decl (with_dimensions i) = function_parameter_decl (array_id i ∷ [])

abbrev pub parameter_decls : List Parameter → List GenDecl
parameter_decls [] = []
parameter_decls (p ∷ ps) = parameter_decl p ∷ parameter_decls ps

-- The variables get their addresses one after the other.
unfoldable pub add_parameters : List Parameter → ArSystem → ArSystem
add_parameters [] a = a
add_parameters (p ∷ ps) a = add_parameters ps (add_variable (variable_of p) true a)

abbrev pub IsLocal : Parameter → Type 0
IsLocal p = ((variable_of p).nesting_level == 0) ≡ false

-- The word that an address with a register stands for.
abbrev pub word_at : (ℕ → ℕ) → Address → Option ℕ
word_at regs a = elim (a.reg) [ none ↦ none | some r ↦ some ((regs r + a.offset) % int_mod) ]

module _ (host : Host) where
  -- A parameter that is not a global variable is only given an address.
  gen_local :
      (v : Variable) (d : Declarator) (s : Coder)
      → (v.nesting_level == 0) ≡ false
      → ((if v.nesting_level == 0
              then (do a ← declared_address v; gen_global_variable host d a)
              else pure tt)
            >> pure tt)
          (record s { ar = add_variable v true s.ar })
        ≡ some (tt, record s { ar = add_variable v true s.ar })
  gen_local v d s h =
      ap
        (λ (b : Bool).
          ((if b then (do a ← declared_address v; gen_global_variable host d a) else pure tt)
              >> pure tt)
            (record s { ar = add_variable v true s.ar }))
        h

  gen_parameter :
      (p : Parameter) (s : Coder)
      → IsLocal p
      → gen_declare host (parameter_decl p) s
        ≡ some (tt, record s { ar = add_variable (variable_of p) true s.ar })
  unfolding gen_declare gen_variables gen_variable declare gen_local_variable
  gen_parameter (plain i) s h = gen_local (i.variable) (normal_id i) s h
  gen_parameter (with_dimensions i) s h = gen_local (i.variable) (array_id i) s h

  gen_parameters :
      (ps : List Parameter) (s : Coder)
      → All IsLocal ps
      → gen_params host (parameter_decls ps) s ≡ some (tt, record s { ar = add_parameters ps s.ar })
  unfolding gen_params add_parameters
  gen_parameters [] s h = refl
  gen_parameters (p ∷ ps) s h =
      bind_eq (gen_declare host (parameter_decl p)) _ s tt _ (gen_parameter p s h.0)
      ∙ gen_parameters ps (record s { ar = add_variable (variable_of p) true s.ar }) h.1

add_local_param :
    (v : Variable) (a : ArSystem)
    → (v.nesting_level == 0) ≡ false
    → add_variable v true a ≡ add_param v a
unfolding add_variable
add_local_param v a h = ap (λ (b : Bool). if b then add_global v a else add_param v a) h

-- A parameter keeps its address when others are declared.
params-other :
    (k : ℕ) (ps : List Parameter) (a : ArSystem)
    → All IsLocal ps
    → All (λ p. (k == (variable_of p).entry) ≡ false) ps
    → (add_parameters ps a).local_variable k ≡ a.local_variable k
unfolding add_parameters add_param
params-other k [] a h d = refl
params-other k (p ∷ ps) a h d =
    params-other k ps (add_variable (variable_of p) true a) h.1 d.1
    ∙ ap (λ b. b.local_variable k) (add_local_param (variable_of p) a h.0)
    ∙ ap
        (λ (b : Bool).
          if b then some (plus (reg_address fp) a.param_offset) else a.local_variable k)
        d.0

-- The address that a parameter gets, with as many before it.
params-find :
    (ps : List Parameter) (p : Parameter) (qs : List Parameter) (a : ArSystem)
    → All IsLocal (ps ++ p ∷ qs)
    → All (λ q. ((variable_of p).entry == (variable_of q).entry) ≡ false) qs
    → (add_parameters (ps ++ p ∷ qs) a).local_variable (variable_of p).entry
      ≡ some (plus (reg_address fp) (a.param_offset + 4 * length ps))
unfolding add_parameters add_param
params-find [] p qs a h d =
    let v = variable_of p in
    let same : (v.entry == v.entry) ≡ true = ground arith in
    params-other v.entry qs (add_variable v true a) h.1 d
    ∙ ap (λ b. b.local_variable v.entry) (add_local_param v a h.0)
    ∙ ap
        (λ (b : Bool).
          if b then some (plus (reg_address fp) a.param_offset) else a.local_variable v.entry)
        same
    ∙ ap (λ o. some (plus (reg_address fp) o)) (omega arith)
params-find (q ∷ ps) p qs a h d =
    let e = ap (λ b. b.param_offset) (add_local_param (variable_of q) a h.0) in
    params-find ps p qs (add_variable (variable_of q) true a) h.1 d
    ∙ ap (λ o. some (plus (reg_address fp) o)) (omega arith)

slot-word :
    (regs : ℕ → ℕ) (n k : ℕ)
    → 4 * k + 8 < int_mod
    → regs fp ≡ (n + (int_mod - 4)) % int_mod
    → regs sp ≡ n
    → word_at regs (plus (reg_address fp) (8 + 4 * k)) ≡ word_at regs (argument_slot k)
unfolding plus minus argument_slot
slot-word regs n k h hf hs = ap (λ w. some w) (omega arith)

-- Let `ps`, `p` and `qs` be the parameters of a function, none of them a global variable and those
-- behind `p` other variables than `p`, with no more of them before `p` than words have room for; let the
-- first parameter be at the offset 8, and the frame pointer 4 below the stack pointer of the caller. The
-- code for the declarations of the parameters then has a result, in which the word of `p` is the one
-- where the caller stores the argument at the place of `p`.
pub parameter-argument :
    (host : Host) (ps : List Parameter) (p : Parameter) (qs : List Parameter) (s : Coder)
    → (regs : ℕ → ℕ) (n : ℕ) → All IsLocal (ps ++ p ∷ qs)
    → All (λ q. ((variable_of p).entry == (variable_of q).entry) ≡ false) qs
    → 4 * length ps + 8 < int_mod
    → s.ar.param_offset ≡ 8
    → regs fp ≡ (n + (int_mod - 4)) % int_mod
    → regs sp ≡ n
    → (t : Coder) × (a : Address) × (gen_params host (parameter_decls (ps ++ p ∷ qs)) s
        ≡ some (tt, t))
      × (t.ar.local_variable (variable_of p).entry ≡ some a)
      × (word_at regs a ≡ word_at regs (argument_slot (length ps)))
parameter-argument host ps p qs s regs n local distinct small start hf hs = (
  record s { ar = add_parameters (ps ++ p ∷ qs) s.ar },
  plus (reg_address fp) (8 + 4 * length ps),
  gen_parameters host (ps ++ p ∷ qs) s local,
  params-find ps p qs s.ar local distinct
      ∙ ap (λ o. some (plus (reg_address fp) (o + 4 * length ps))) start,
  slot-word regs n (length ps) small hf hs,
)

-- ===== src/Backend/Tags/Constants.antt =====
-- The labels of strings, and the branches to labels (`genConStmt` of src/codeGen.c, and `branch` and
-- `addVariable` of src/Register.cpp).
use ntu_csie_complier.Prelude.{ℕ, suc, Option, none, some, String, [], ◌∷◌, ◌++◌, ◌≡◌, refl, arith}
use ntu_csie_complier.Effect.{◌>>◌}
use ntu_csie_complier.Effect.Post.{Post, faults, returns, weaken, of_some}
use ntu_csie_complier.Types.{ConType, integerc, floatc, stringc}
use ntu_csie_complier.Backend.Spelling.{number_of, tagged-IsCounted}
use ntu_csie_complier.Backend.Code.{Label, tagged, Instr}
use ntu_csie_complier.Backend.State.{Host, GenState, emit}
use ntu_csie_complier.Backend.Operations.{branch, branch2, tested, emits}
use ntu_csie_complier.Backend.Frame.{find_string, add_string, ArSystem}
use ntu_csie_complier.Backend.Labels.{matches, defined, used, matches-between}
use ntu_csie_complier.Backend.Quiet.Steps.{load_int-Quiet, load_double-Quiet}
use ntu_csie_complier.Backend.Quiet.Operations.{tested-Silent}
use ntu_csie_complier.Backend.Tree.{GenNode}
use ntu_csie_complier.Backend.Nodes.{Coder, on_gen, write, force_caller, put_gen}
use ntu_csie_complier.Backend.Expressions.{declare_string, load_constant, gen_con_stmt}
use ntu_csie_complier.Backend.Tags.{
  Balanced, Balanced-eq, ◌▸◌, write-Balanced, Step, unchanged-Step, close-Step, with_tags, Quiet,
  Step-eq, Step-trans, Quiet-Step,
}
use ntu_csie_complier.Backend.Tags.Nodes.{
  modify-Balanced, load_address-Balanced, temp_node-Balanced,
}
use ntu_csie_complier.Backend.Tags.Addresses.{constant_address-Balanced}

-- What `addVariable` of a string comes to, given the label that is found.
abbrev string_added : String → GenState → ArSystem → Option Label → GenState × ArSystem
string_added str g a (some k) = (g, a)
string_added str g a none = (
  emits
      (Instr.data_segment
        ∷ Instr.asciiz (tagged "_STR" a.func_name a.tag_index) str
        ∷ Instr.text
        ∷ [])
      g,
  record a {
    tag_index = suc a.tag_index;
    str_const = a.str_const ++ (str, tagged "_STR" a.func_name a.tag_index) ∷ [];
  },
)

module _ (l : Label) (i : ℕ) where
  branched :
      (x : ℕ → Instr) (u : ℕ) (s : Coder) (r : Option (ℕ × GenState))
      → ((t : ℕ) → (defined l (x t) ≡ 0) × (used l (x t) ≡ u))
      → Post (λ (t : ℕ) g. Quiet l s.gen g) r
      → Post
          (λ (a : Unit {0}) t. Step l i 0 u s t)
          (put_gen s (elim r [ none ↦ none | some (t, g) ↦ some (tt, emit (x t) g) ]))
  branched x u s none h faults = faults
  branched x u s (some (t, g)) h (returns q) =
      weaken (write-Balanced l i (x t) (record s { gen = g })) (λ a v p.
        Step-eq l i (let e = (h t).0 in omega arith) (let e = (h t).1 in omega arith)
          (Step-trans l i (Quiet-Step l i s (record s { gen = g }) q refl refl refl) p))

  module _ (host : Host) (e : number_of l ≡ i) where
    pub branch-Balanced :
        (r : ℕ) (k : Label) → Balanced l i 0 (matches k l) (on_gen (branch host r k))
    unfolding branch
    branch-Balanced r k s =
        branched (λ t. Instr.beqz t k) (matches k l) s (tested host r s.gen) (λ t. (refl, refl))
          (tested-Silent l host r s.gen)

    pub branch2-Balanced :
        (r : ℕ) (k : Label) → Balanced l i 0 (matches k l) (on_gen (branch2 host r k))
    unfolding branch2
    branch2-Balanced r k s =
        branched (λ t. Instr.bne_zero t k) (matches k l) s (tested host r s.gen) (λ t. (refl, refl))
          (tested-Silent l host r s.gen)

    write_string-Balanced :
        (k : Label) (str : String)
        → Balanced l i
            (matches k l)
            0
            (write Instr.data_segment >> write (Instr.asciiz k str) >> write Instr.text)
    write_string-Balanced k str = Balanced-eq l i _ (omega arith) (omega arith) (
        (write-Balanced l i Instr.data_segment ▸ λ _. write-Balanced l i (Instr.asciiz k str))
        ▸ λ _. write-Balanced l i Instr.text)

    abbrev string_written : Label → String → Coder → Coder
    string_written k str s = record s {
      gen = emits (Instr.data_segment ∷ Instr.asciiz k str ∷ Instr.text ∷ []) s.gen;
    }

    -- The code of a string that is not declared defines its label.
    declared_string :
        (str : String) (s : Coder) (o : Option Label)
        → Step l i 0 0 s (record s {
          gen = (string_added str s.gen s.ar o).0;
          ar = (string_added str s.gen s.ar o).1;
        })
    declared_string str s (some k) = unchanged-Step l i s s refl refl refl refl
    declared_string str s none =
        let k = tagged "_STR" s.ar.func_name s.ar.tag_index in
        let s1 = with_tags l i (suc s.ar.tag_index) s in
        let p = of_some (write_string-Balanced k str s1) in
        close-Step l i s (suc s.ar.tag_index) _ (omega arith)
          (λ h.
            matches-between k l s.ar.tag_index i
              (tagged-IsCounted "_STR" s.ar.func_name s.ar.tag_index h) e)
          (λ h. refl)
          (Step-trans l i p (unchanged-Step l i (string_written k str s1) _ refl refl refl refl))

    declare_string-Balanced : (str : String) → Balanced l i 0 0 (declare_string str)
    unfolding declare_string add_string
    declare_string-Balanced str s = returns (declared_string str s (find_string str s.ar.str_const))

    load_constant-Balanced : (r : ℕ) (c : ConType) → Balanced l i 0 0 (load_constant host r c)
    unfolding load_constant
    load_constant-Balanced r (integerc value) =
        modify-Balanced l i _ (load_int-Quiet l host r value)
    load_constant-Balanced r (floatc value) =
        modify-Balanced l i _ (load_double-Quiet l host r value)
    load_constant-Balanced r (stringc str) = declare_string-Balanced str ▸ λ _.
        constant_address-Balanced l i (stringc str) ▸ λ a. load_address-Balanced l i host r a

    pub gen_con_stmt-Balanced :
        (n : GenNode) (c : ConType) → Balanced l i 0 0 (gen_con_stmt host n c)
    unfolding gen_con_stmt
    gen_con_stmt-Balanced n c =
        temp_node-Balanced l i host n.data_type n.node_id force_caller ▸ λ r.
        load_constant-Balanced r c

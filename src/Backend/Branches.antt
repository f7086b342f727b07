-- ===== src/Backend/Branches.antt =====
-- The code with branches that src/Register.cpp writes for comparisons of `float`s and for `!`.
use ntu_csie_complier.Prelude.{
  String, ℕ, Bool, true, false, not, Option, none, some, some-injective, [], ◌∷◌, ◌==◌,
  if◌then◌else◌, ◌≡◌, ◌∙◌, refl, ap, arith, some-injective,
}
use ntu_csie_complier.Types.{
  BinaryOperator, op_add, op_sub, op_mul, op_div, op_eq, op_ge, op_le, op_ne, op_gt, op_lt, op_and,
  op_or, op_logical_negation,
}
use ntu_csie_complier.Semantic.Fold.{bool_word, unary_int}
use ntu_csie_complier.Backend.Code.{Instr, numbered, same_label, label_text}
use ntu_csie_complier.Backend.Spelling.{same_text_refl}
use ntu_csie_complier.Backend.Operations.{compare_code, not_code, binary_negate, word_of}
use ntu_csie_complier.Backend.Machine.{
  Processor, Machine, FloatTests, float_flag, run_jumps, step, set_word,
}

same_number : (a : String) (i : ℕ) → same_label (numbered a i) (numbered a i) ≡ true
unfolding same_label
same_number a i = same_text_refl (label_text (numbered a i))

end_false : (i : ℕ) → same_label (numbered "End_False" i) (numbered "_False" i) ≡ false
unfolding same_label
end_false i = refl

end_true : (i : ℕ) → same_label (numbered "_EndNot" i) (numbered "_TrueNot" i) ≡ false
unfolding same_label
end_true i = refl

-- What the code of a comparison finds: `>=` and `>` are the negations of `<=` and `<`.
unfoldable pub compares : FloatTests → BinaryOperator → ℕ → ℕ → Option Bool
compares f op_eq a b = some (f.float_eq a b)
compares f op_ne a b = some (not (f.float_eq a b))
compares f op_le a b = some (f.float_le a b)
compares f op_lt a b = some (f.float_lt a b)
compares f op_ge a b = some (not (f.float_le a b))
compares f op_gt a b = some (not (f.float_lt a b))
compares f _ a b = none

module _ (p : Processor) (f : FloatTests) where
  compare_run :
      (op : BinaryOperator) (i r a b : ℕ) (flag t : Bool) (m : Machine)
      → float_flag p f op (m.regs a) (m.regs b) ≡ some t
      → run_jumps p f 8 (compare_code op i r a b) (compare_code op i r a b) flag m
        ≡ some (set_word r (word_of (if t then not (binary_negate op) else binary_negate op)) m)
  unfolding run_jumps compare_code step
  compare_run op i r a b flag true m h =
      rw (h, run_jumps)
        (ap
            (λ (c : Bool).
              run_jumps p f 4 (compare_code op i r a b)
                (if c
                  then Instr.li r (word_of (binary_negate op))
                    ∷ Instr.mark (numbered "End_False" i)
                    ∷ []
                  else if same_label (numbered "End_False" i) (numbered "End_False" i)
                  then []
                  else [])
                true (set_word r (word_of (not (binary_negate op))) m))
            (end_false i)
          ∙ ap
              (λ (c : Bool).
                run_jumps p f 4 (compare_code op i r a b) (if c then [] else []) true
                  (set_word r (word_of (not (binary_negate op))) m))
              (same_number "End_False" i))
  compare_run op i r a b flag false m h =
      rw (h, run_jumps)
        (ap
          (λ (c : Bool).
            run_jumps p f 6 (compare_code op i r a b)
              (if c
                then Instr.li r (word_of (binary_negate op))
                  ∷ Instr.mark (numbered "End_False" i)
                  ∷ []
                else if same_label (numbered "_False" i) (numbered "End_False" i)
                then []
                else [])
              false m)
          (same_number "_False" i))

  if_itself : (t : Bool) → (if t then true else false) ≡ t
  if_itself t = ground arith

  if_negated : (t : Bool) → (if t then false else true) ≡ not t
  if_negated t = ground arith

  -- Where an operator compares `float`s, the code for it puts 1 in its register if the
  -- comparison that `compares` names holds, and 0 if not, in at most eight steps. For `>=` and `>` these
  -- are the negations of `<=` and `<`.
  pub compare_code-compares :
      (op : BinaryOperator) (i r a b : ℕ) (flag v : Bool) (m : Machine)
      → compares f op (m.regs a) (m.regs b) ≡ some v
      → run_jumps p f 8 (compare_code op i r a b) (compare_code op i r a b) flag m
        ≡ some (set_word r (word_of v) m)
  unfolding compares
  compare_code-compares op i r a b flag v m h = go op h
    where
      x : ℕ
      x = m.regs a

      y : ℕ
      y = m.regs b

      result : Bool → Option Machine
      result v = some (set_word r (word_of v) m)

      go :
          (op : BinaryOperator)
          → compares f op x y ≡ some v
          → run_jumps p f 8 (compare_code op i r a b) (compare_code op i r a b) flag m ≡ result v
      go op_eq h =
          compare_run op_eq i r a b flag (f.float_eq x y) m refl
          ∙ ap result (if_itself (f.float_eq x y) ∙ some-injective _ v h)
      go op_le h =
          compare_run op_le i r a b flag (f.float_le x y) m refl
          ∙ ap result (if_itself (f.float_le x y) ∙ some-injective _ v h)
      go op_lt h =
          compare_run op_lt i r a b flag (f.float_lt x y) m refl
          ∙ ap result (if_itself (f.float_lt x y) ∙ some-injective _ v h)
      go op_ne h =
          compare_run op_ne i r a b flag (f.float_eq x y) m refl
          ∙ ap result (if_negated (f.float_eq x y) ∙ some-injective _ v h)
      go op_ge h =
          compare_run op_ge i r a b flag (f.float_le x y) m refl
          ∙ ap result (if_negated (f.float_le x y) ∙ some-injective _ v h)
      go op_gt h =
          compare_run op_gt i r a b flag (f.float_lt x y) m refl
          ∙ ap result (if_negated (f.float_lt x y) ∙ some-injective _ v h)
      go op_add h = ground arith
      go op_sub h = ground arith
      go op_mul h = ground arith
      go op_div h = ground arith
      go op_and h = ground arith
      go op_or h = ground arith

  not_run :
      (i r from : ℕ) (flag z : Bool) (m : Machine)
      → (m.regs from == 0) ≡ z
      → run_jumps p f 6
          (not_code r i (Instr.li r 0) (Instr.li r 1) from)
          (not_code r i (Instr.li r 0) (Instr.li r 1) from)
          flag
          m
        ≡ some (set_word r (bool_word z) m)
  unfolding run_jumps not_code step
  not_run i r from flag true m h = rw (h, run_jumps, same_number "_TrueNot" i)
  not_run i r from flag false m h =
      rw (h, run_jumps)
        (ap
            (λ (c : Bool).
              run_jumps p f 3 (not_code r i (Instr.li r 0) (Instr.li r 1) from)
                (if c
                  then Instr.li r 1 ∷ Instr.mark (numbered "_EndNot" i) ∷ []
                  else if same_label (numbered "_EndNot" i) (numbered "_EndNot" i)
                  then []
                  else [])
                flag (set_word r 0 m))
            (end_true i)
          ∙ ap
              (λ (c : Bool).
                run_jumps p f 3 (not_code r i (Instr.li r 0) (Instr.li r 1) from)
                  (if c then [] else []) flag (set_word r 0 m))
              (same_number "_EndNot" i))

  -- The code of `!` leaves in its register what folding `!` gives, in at most six steps, where the
  -- constants 0 and 1 are loaded as they are.
  pub not_code-unary_int :
      (i r from : ℕ) (flag : Bool) (m : Machine) (load_zero load_one : Instr)
      → load_zero ≡ Instr.li r 0
      → load_one ≡ Instr.li r 1
      → run_jumps p f 6
          (not_code r i load_zero load_one from)
          (not_code r i load_zero load_one from)
          flag
          m
        ≡ some (set_word r (unary_int op_logical_negation (m.regs from)) m)
  unfolding unary_int
  not_code-unary_int i r from flag m load_zero load_one h0 h1 =
      ap
        (λ (z : Instr).
          run_jumps p f 6 (not_code r i z load_one from) (not_code r i z load_one from) flag m)
        h0
      ∙ ap
          (λ (o : Instr).
            run_jumps p f 6 (not_code r i (Instr.li r 0) o from)
              (not_code r i (Instr.li r 0) o from) flag m)
          h1
      ∙ not_run i r from flag (m.regs from == 0) m refl

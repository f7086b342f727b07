-- ===== src/Backend/Labels.antt =====
-- The labels of `getTag` (src/Register.cpp) in the code that src/codeGen.c writes: where they are defined
-- and where the code goes to them.
use ntu_csie_complier.Prelude.{
  ℕ, ◌+◌, Bool, true, false, List, [], ◌∷◌, ◌++◌, ltb, leb, if◌then◌else◌, ◌≡◌, ◌≢◌, arith, ap, sym,
  ◌∙◌, String, ◌≤◌, ◌<◌, suc, Bool-cases, inl, inr, length, length-append,
}
use ntu_csie_complier.Backend.Code.{Label, tagged, extended, codes, label_text, same_label, Instr}
use ntu_csie_complier.Backend.Spelling.{IsCounted, number_of, number_from, same_label-text}
use ntu_csie_complier.Backend.Operations.{word_of}

abbrev pub is_tag : Label → Bool
is_tag (tagged a f i) = true
is_tag (extended a k) = is_tag k
is_tag _ = false

-- 1 if the first label is a label of `getTag` and the second one has the same text.
abbrev pub matches : Label → Label → ℕ
matches k l = if is_tag k then word_of (same_label k l) else 0

-- How many labels of `getTag` with the text of `l` an instruction defines, and goes to.
abbrev pub defined : Label → Instr → ℕ
defined l (Instr.mark k) = matches k l
defined l (Instr.word k n) = matches k l
defined l (Instr.space k n) = matches k l
defined l (Instr.float k n) = matches k l
defined l (Instr.asciiz k str) = matches k l
defined l _ = 0

abbrev pub used : Label → Instr → ℕ
used l (Instr.beqz r k) = matches k l
used l (Instr.bne_zero r k) = matches k l
used l (Instr.bc1f k) = matches k l
used l (Instr.jump k) = matches k l
used l (Instr.jal k) = matches k l
used l _ = 0

unfoldable pub total : (Instr → ℕ) → List Instr → ℕ
total f [] = 0
total f (i ∷ code) = f i + total f code

pub total-append : (f : Instr → ℕ) (c d : List Instr) → total f (c ++ d) ≡ total f c + total f d
unfolding total
total-append f [] d = omega arith
total-append f (i ∷ c) d = let e = total-append f c d in omega arith

pub total-snoc :
    (f : Instr → ℕ) (c : List Instr) (i : Instr) → total f (c ++ i ∷ []) ≡ total f c + f i
unfolding total
total-snoc f c i = let e = total-append f c (i ∷ []) in omega arith

-- 1 if `i` is a counter from `a` on, before `b`.
abbrev pub between : ℕ → ℕ → ℕ → ℕ
between a b i = if leb a i then word_of (ltb i b) else 0

-- A label with the counter `n` only has the text of labels with that counter.
pub matches-between :
    (k l : Label) (n i : ℕ) → IsCounted k n → number_of l ≡ i → matches k l ≤ between n (suc n) i
matches-between k l n i h e = elim (Bool-cases (same_label k l)) [
  | inl same ↦
      let q : n ≡ i = sym (h 0) ∙ ap (number_from 0) (same_label-text k l same) ∙ e in ground arith
  | inr differ ↦ ground (arith, differ)
]

-- Of two labels with different texts, at most one has the text of a third one.
pub two_labels :
    (j k l : Label) (n i : ℕ)
    → label_text j ≢ label_text k
    → IsCounted j n
    → IsCounted k n
    → number_of l ≡ i
    → matches j l + matches k l ≤ between n (suc n) i
two_labels j k l n i differ hj hk e =
    let a = matches-between j l n i hj e in
    let b = matches-between k l n i hk e in
    elim (Bool-cases (same_label j l)) [
      | inl t ↦ elim (Bool-cases (same_label k l)) [
        | inl t' ↦ absurd (differ (same_label-text j l t ∙ sym (same_label-text k l t')))
        | inr f' ↦ ground (arith, f')
      ]
      | inr f ↦ ground (arith, f)
    ]

-- Extensions of one label that are not equally long.
pub tagged-extended :
    (b : String) (k : Label) → 0 < length (codes b) → label_text k ≢ label_text (extended b k)
tagged-extended b k h e =
    let n = ap length e in let n' = length-append (codes b) (label_text k) in omega arith

pub extended-extended :
    (a b : String) (k : Label)
    → length (codes a) < length (codes b)
    → label_text (extended a k) ≢ label_text (extended b k)
extended-extended a b k h e =
    let n = ap length e in
    let na = length-append (codes a) (label_text k) in
    let nb = length-append (codes b) (label_text k) in omega arith

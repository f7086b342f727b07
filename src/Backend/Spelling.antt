-- ===== src/Backend/Spelling.antt =====
-- The text of the labels that `getTag` of src/Register.cpp writes, and the number at its end.
use ntu_csie_complier.Prelude.{
  ℕ, zero, suc, ◌+◌, ◌*◌, ◌-◌, ◌/◌, ◌%◌, ◌<◌, ◌≡◌, refl, ap, ◌∙◌, Bool, true, false, ◌&&◌, List, [],
  ◌∷◌, ◌++◌, ltb, leb, if◌then◌else◌, arith, String, Bool-cases, inl, inr,
}
use ntu_csie_complier.Backend.Code.{
  Label, tagged, extended, codes, decimal_from, decimal, label_text, same_text, same_label,
}

abbrev pub is_digit : ℕ → Bool
is_digit c = leb 48 c && leb c 57

-- The number that the digits at the end of a text make, where those before the text make `n`.
unfoldable pub number_from : ℕ → List ℕ → ℕ
number_from n [] = n
number_from n (c ∷ s) = number_from (if is_digit c then 10 * n + (c - 48) else 0) s

-- The number at the end of a label.
abbrev pub number_of : Label → ℕ
number_of l = number_from 0 (label_text l)

-- The last character of a text, or the one before it.
unfoldable pub last_code : ℕ → List ℕ → ℕ
last_code c [] = c
last_code c (d ∷ s) = last_code d s

-- A name that does not end in a digit.
abbrev pub IsPlain : String → Type 0
IsPlain name = is_digit (last_code b'_' (codes name)) ≡ false

-- Whatever is before the label, the number at its end is this one.
abbrev pub IsCounted : Label → ℕ → Type 0
IsCounted k n = (before : ℕ) → number_from before (label_text k) ≡ n

number_from-snoc :
    (n : ℕ) (s : List ℕ) (c : ℕ)
    → is_digit c ≡ true
    → number_from n (s ++ c ∷ []) ≡ 10 * number_from n s + (c - 48)
unfolding number_from
number_from-snoc n [] c h = ap (λ b. if b then 10 * n + (c - 48) else 0) h
number_from-snoc n (d ∷ s) c h =
    number_from-snoc (if is_digit d then 10 * n + (d - 48) else 0) s c h

one_digit : (n : ℕ) → n < 10 → number_from 0 ((48 + n) ∷ []) ≡ n
unfolding number_from
one_digit n h = ground arith

number_from-decimal_from : (fuel n : ℕ) → n < fuel → number_from 0 (decimal_from fuel n) ≡ n
unfolding decimal_from
number_from-decimal_from zero n h = omega arith
number_from-decimal_from (suc fuel) n h = elim (Bool-cases (ltb n 10)) [
  | inl e ↦
      ap
        (λ (b : Bool).
          number_from 0
            (if b then (48 + n) ∷ [] else decimal_from fuel (n / 10) ++ (48 + n % 10) ∷ []))
        e
      ∙ one_digit n (ground arith)
  | inr e ↦
      let short : n / 10 < fuel = ground arith in
      ap
        (λ (b : Bool).
          number_from 0
            (if b then (48 + n) ∷ [] else decimal_from fuel (n / 10) ++ (48 + n % 10) ∷ []))
        e
      ∙ number_from-snoc 0 (decimal_from fuel (n / 10)) (48 + n % 10) (ground arith)
      ∙ ap (λ k. 10 * k + (48 + n % 10 - 48)) (number_from-decimal_from fuel (n / 10) short)
      ∙ omega arith
]

number_from-decimal : (n : ℕ) → number_from 0 (decimal n) ≡ n
unfolding decimal
number_from-decimal n = number_from-decimal_from (suc n) n (omega arith)

-- What is before a character that is no digit does not count.
plain-number_from :
    (s t : List ℕ) (c n : ℕ)
    → is_digit (last_code c s) ≡ false
    → number_from n (c ∷ (s ++ t)) ≡ number_from 0 t
unfolding number_from last_code
plain-number_from [] t c n h = ap (λ b. number_from (if b then 10 * n + (c - 48) else 0) t) h
plain-number_from (d ∷ s) t c n h =
    plain-number_from s t d (if is_digit c then 10 * n + (c - 48) else 0) h

counted_after :
    (s t : List ℕ) (n : ℕ)
    → ((before : ℕ) → number_from before t ≡ n)
    → (before : ℕ) → number_from before (s ++ t) ≡ n
unfolding number_from
counted_after [] t n h before = h before
counted_after (c ∷ s) t n h before =
    counted_after s t n h (if is_digit c then 10 * before + (c - 48) else 0)

-- In a function whose name does not end in a digit, the counter of `getTag` can be read off the label.
pub tagged-IsCounted : (a f : String) (n : ℕ) → IsPlain f → IsCounted (tagged a f n) n
tagged-IsCounted a f n h =
    counted_after (b'_' ∷ codes a) (b'_' ∷ (codes f ++ decimal n)) n
      (λ before. plain-number_from (codes f) (decimal n) b'_' before h ∙ number_from-decimal n)

pub extended-IsCounted :
    (a : String) (k : Label) (n : ℕ) → IsCounted k n → IsCounted (extended a k) n
extended-IsCounted a k n h = counted_after (codes a) (label_text k) n h

same_text-path : (s t : List ℕ) → same_text s t ≡ true → s ≡ t
same_text-path [] [] h = refl
same_text-path (c ∷ s) (d ∷ t) h =
    let e : c ≡ d = ground arith in
    let e' = same_text-path s t (ground (arith, h)) in ap (λ c. c ∷ s) e ∙ ap (λ s. d ∷ s) e'
same_text-path [] (d ∷ t) h = ground (arith, h)
same_text-path (c ∷ s) [] h = ground (arith, h)

pub same_text_refl : (s : List ℕ) → same_text s s ≡ true
same_text_refl [] = refl
same_text_refl (c ∷ s) = ground (arith, same_text_refl s)

pub same_label-text : (k l : Label) → same_label k l ≡ true → label_text k ≡ label_text l
unfolding same_label
same_label-text k l h = same_text-path (label_text k) (label_text l) h

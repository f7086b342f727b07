-- ===== src/Backend/Code.antt =====
-- What src/Register.cpp and src/gen-part.cpp write to `output.s`, and src/Address.h.
use Prim.Native.Char.{code}
use ntu_csie_complier.Prelude.{
  zero, suc, List, [], ◌∷◌, ◌++◌, ltb, if◌then◌else◌, ◌/◌, ℕ, ◌+◌, ◌-◌, ◌%◌, Bool, true, false,
  ◌&&◌, String, Option, none, some, ◌==◌,
}
use ntu_csie_complier.Types.{BinaryOperator}
use ntu_csie_complier.Semantic.Fold.{int_mod}

-- A register is the number of its place in `registers`, which `RegisterSystem::RegisterSystem` fills
-- in this order: $s0 to $s7, $t0 to $t9, $f1 to $f29, and these seven.
abbrev pub v0 : ℕ
v0 = 47

abbrev pub f0 : ℕ
f0 = 48

abbrev pub ra : ℕ
ra = 49

abbrev pub fp : ℕ
fp = 50

abbrev pub sp : ℕ
sp = 51

abbrev pub a0 : ℕ
a0 = 52

abbrev pub zero_reg : ℕ
zero_reg = 53

abbrev pub f12 : ℕ
f12 = 29

-- The formats of labels: "%s", "%s%d", a constant before "%s", "_%s_%s%d" of `getTag`, and a constant
-- before one of these.
pub data Label : Type 0 where
  named : String → Label
  numbered : String → ℕ → Label
  prefixed : String → String → Label
  tagged : String → String → ℕ → Label
  extended : String → Label → Label

abbrev pub codes : String → List ℕ
codes String.[] = []
codes (String.◌∷◌ c s) = code c ∷ codes s

-- "%d" of a number that is not negative, with as many digits at most as there is fuel; one more than the
-- number itself is enough.
unfoldable pub decimal_from : ℕ → ℕ → List ℕ
decimal_from zero n = []
decimal_from (suc fuel) n =
    let rest = decimal_from fuel (n / 10) in
    if ltb n 10 then (48 + n) ∷ [] else rest ++ (48 + n % 10) ∷ []

unfoldable pub decimal : ℕ → List ℕ
unfolding decimal_from
decimal n = decimal_from (suc n) n

-- The characters that are written: of `getTag`, the name of the function and the counter run together,
-- so that two labels with different parts can have one text.
abbrev pub label_text : Label → List ℕ
label_text (named a) = codes a
label_text (numbered a i) = codes a ++ decimal i
label_text (prefixed a b) = codes a ++ codes b
label_text (tagged a f i) = b'_' ∷ (codes a ++ (b'_' ∷ (codes f ++ decimal i)))
label_text (extended a k) = codes a ++ label_text k

abbrev pub same_text : List ℕ → List ℕ → Bool
same_text [] [] = true
same_text (c ∷ s) (d ∷ t) = c == d && same_text s t
same_text _ _ = false

-- Labels are compared by their text, in the assembler and by `operator ==` of addresses.
unfoldable pub same_label : Label → Label → Bool
unfolding decimal
same_label k l = same_text (label_text k) (label_text l)

-- `addrName`: a label, or the format "%d(%s)" of an offset, which is a word, and a register.
pub data AddrName : Type 0 where
  at_label : Label → AddrName
  indexed : ℕ → ℕ → AddrName

abbrev pub same_name : AddrName → AddrName → Bool
same_name (at_label a) (at_label b) = same_label a b
same_name (indexed o r) (indexed p q) = o == p && r == q
same_name _ _ = false

pub data LoadType : Type 0 where
  load_addr load_word : LoadType

pub record Address : Type 0 where
  pub addr_name : AddrName
  pub reg : Option ℕ
  pub offset : ℕ
  pub load_type : LoadType
  pub is_volatile : Bool

abbrev pub label_address : Label → Address
label_address l = record {
  addr_name = at_label l;
  reg = none;
  offset = 0;
  load_type = load_word;
  is_volatile = false;
}

abbrev pub reg_address : ℕ → Address
reg_address r = record {
  addr_name = indexed 0 r;
  reg = some r;
  offset = 0;
  load_type = load_word;
  is_volatile = false;
}

-- `setName`
abbrev pub set_name : Option ℕ → ℕ → AddrName → AddrName
set_name none o name = name
set_name (some r) o name = indexed o r

-- `operator -` and `operator +`, where the argument is a word.
unfoldable pub minus : Address → ℕ → Address
minus a i =
    let o = (a.offset + int_mod - i) % int_mod in
    record a { offset = o; addr_name = set_name a.reg o a.addr_name }

unfoldable pub plus : Address → ℕ → Address
unfolding minus
plus a i = minus a ((int_mod - i) % int_mod)

abbrev pub has_reg : Address → Bool
has_reg a = elim (a.reg) [ none ↦ false | some r ↦ true ]

abbrev pub same_address : Address → Address → Bool
same_address a b = same_name a.addr_name b.addr_name

-- One line of assembly. `binary` and `compare` are the rows and columns of `Binarycommand`; the flag
-- is the column of `float`s.
pub data Instr : Type 0 where
  binary : BinaryOperator → Bool → ℕ → ℕ → ℕ → Instr
  compare : BinaryOperator → ℕ → ℕ → Instr
  addi : ℕ → ℕ → ℕ → Instr
  li li_s : ℕ → ℕ → Instr
  la : ℕ → AddrName → Instr
  move mov_s cvt_w_s cvt_s_w mfc1 mtc1 abs not_bits : ℕ → ℕ → Instr
  lw l_s sw s_s : ℕ → AddrName → Instr
  beqz bne_zero : ℕ → Label → Instr
  bc1f jump jal : Label → Instr
  jr_ra syscall : Instr
  mark : Label → Instr
  text data_segment : Instr
  word space : Label → ℕ → Instr
  float : Label → ℕ → Instr
  asciiz : Label → String → Instr

-- ===== src/Backend/Written.antt =====
-- The code that the start and the end of a function consist of (`prologue` and `epilogue` of
-- src/Register.cpp).
use ntu_csie_complier.Prelude.{
  ℕ, suc, ◌+◌, ◌*◌, ◌-◌, ◌%◌, Bool, true, false, Option, none, some, String, List, [], ◌∷◌, ◌++◌,
  if◌then◌else◌, ◌≡◌, ◌∙◌, sym, subst, refl, ap, append_assoc, append-nil, fun_ext,
}
use ntu_csie_complier.Types.{op_sub}
use ntu_csie_complier.Semantic.Fold.{int_mod}
use ntu_csie_complier.Backend.Code.{
  Address, Instr, indexed, at_label, named, prefixed, minus, ra, fp, sp, AddrName, load_word,
}
use ntu_csie_complier.Backend.State.{
  Register, GenState, Host, emit, put, set_reg, cleared, clear, store, save_to, is_float,
}
use ntu_csie_complier.Backend.Registers.{
  new_register, type_of_reg, get_reg, find_vacant, first_where,
}
use ntu_csie_complier.Backend.Operations.{
  emits, operand, operand_int, set_dirty, set_modified, set_both, clear_volatile,
  float_operand_clearing,
}
use ntu_csie_complier.Backend.Loads.{load_address, load_word_of}
use ntu_csie_complier.Backend.Frame.{open_frame, save_slot, save_callee, load_callee}
use ntu_csie_complier.Backend.Allocation.{Typed}
use ntu_csie_complier.Backend.Evict.{put_type}

pub emits-output : (code : List Instr) (s : GenState) → (emits code s).output ≡ s.output ++ code
unfolding emit
emits-output [] s = sym (append-nil s.output)
emits-output (i ∷ code) s = emits-output code (emit i s) ∙ append_assoc s.output (i ∷ []) code

-- The output grows by this code, and the registers keep their kinds.
pub record Adds (code : List Instr) (s t : GenState) : Type 0 where
  pub output_is : t.output ≡ s.output ++ code
  pub typed : Typed t

pub Adds-trans : {c d : List Instr} {s t u : GenState} → Adds c s t → Adds d t u → Adds (c ++ d) s u
Adds-trans {c} {d} {s} p q = record {
  output_is = q.output_is ∙ ap (λ o. o ++ d) p.output_is ∙ append_assoc s.output c d;
  typed = q.typed;
}

-- An action has a result, and adds this code.
pub data Writes (code : List Instr) (s : GenState) : Option (Unit {0} × GenState) → Type 0 where
  wrote : {t : GenState} → Adds code s t → Writes code s (some (tt, t))

Writes-trans :
    {c d : List Instr} {s t : GenState} {r : Option (Unit {0} × GenState)}
    → Adds c s t
    → Writes d t r
    → Writes (c ++ d) s r
Writes-trans p (wrote q) = wrote (Adds-trans p q)

pub then-Writes :
    {c d : List Instr} {s : GenState} {r : Option (Unit {0} × GenState)}
    (k : GenState → Option (Unit {0} × GenState))
    → Writes c s r
    → ((t : GenState) → Typed t → Writes d t (k t))
    → Writes (c ++ d) s (elim r [ none ↦ none | some (a, t) ↦ k t ])
then-Writes k (wrote p) next = Writes-trans p (next _ p.typed)

-- The code that saves registers, from the `i`th slot on, and that loads them again.
abbrev pub slot : ℕ → ℕ
slot i = ((0 + int_mod - 4 * i) % int_mod + int_mod - 4) % int_mod

abbrev pub save_line : ℕ → ℕ → Instr
save_line i r =
    if is_float (type_of_reg r)
    then Instr.s_s r (indexed (slot i) fp)
    else Instr.sw r (indexed (slot i) fp)

abbrev pub load_line : AddrName → ℕ → Instr
load_line n r = if is_float (type_of_reg r) then Instr.l_s r n else Instr.lw r n

unfoldable pub save_lines : ℕ → List ℕ → List Instr
save_lines i [] = []
save_lines i (r ∷ v) = save_line i r ∷ save_lines (suc i) v

unfoldable pub load_lines : ℕ → List ℕ → List Instr
load_lines i [] = []
load_lines i (r ∷ v) = load_line (indexed (slot i) fp) r ∷ load_lines (suc i) v

pub set_reg-Adds :
    (r : ℕ) (x : Register) (s : GenState)
    → x.reg_type ≡ (s.regs r).reg_type
    → Typed s
    → Adds [] s (set_reg r x s)
unfolding set_reg
set_reg-Adds r x s e typed = record {
  output_is = sym (append-nil s.output);
  typed = λ k. put_type s.regs r x k e ∙ typed k;
}

pub emit-Adds : (i : Instr) (s : GenState) → Typed s → Adds (i ∷ []) s (emit i s)
unfolding emit
emit-Adds i s typed = record { output_is = refl; typed = typed }

pub clear-Adds : (r : ℕ) (s : GenState) → Typed s → Adds [] s (clear r s)
unfolding clear
clear-Adds r s = set_reg-Adds r (cleared (s.regs r)) s refl

store_line :
    (i r : ℕ) (s : GenState) → Typed s → store r (s.regs r).reg_type (save_slot i) ≡ save_line i r
unfolding save_slot minus
store_line i r s typed = ap (λ d. store r d (save_slot i)) (typed r)

pub save_to-Adds :
    (r : ℕ) (a : Address) (s : GenState)
    → Typed s
    → Adds (store r (s.regs r).reg_type a ∷ []) s (save_to r a s)
unfolding save_to
save_to-Adds r a s typed = at (s.regs r).target_addr.is_volatile
  where
    line : Instr
    line = store r (s.regs r).reg_type a

    at : (b : Bool) → Adds (line ∷ []) s (if b then clear r (emit line s) else emit line s)
    at true = Adds-trans (emit-Adds line s typed) (clear-Adds r (emit line s) typed')
      where
        typed' : Typed (emit line s)
        typed' = (emit-Adds line s typed).typed
    at false = emit-Adds line s typed

pub save_callee-Adds :
    (i : ℕ) (v : List ℕ) (s : GenState) → Typed s → Adds (save_lines i v) s (save_callee i v s)
unfolding save_callee save_lines
save_callee-Adds i [] s typed = record { output_is = sym (append-nil s.output); typed = typed }
save_callee-Adds i (r ∷ v) s typed =
    let p = save_to-Adds r (save_slot i) s typed in
    let p' = subst (λ l. Adds (l ∷ []) s (save_to r (save_slot i) s)) (store_line i r s typed) p in
    Adds-trans p' (save_callee-Adds (suc i) v (save_to r (save_slot i) s) p.typed)

-- All registers are as `RegisterSystem` makes them, and none is locked.
pub record IsFresh (s : GenState) : Type 0 where
  pub new : (r : ℕ) → s.regs r ≡ new_register (type_of_reg r)
  pub unlocked : (r : ℕ) → s.locked r ≡ false

abbrev freshened : GenState → GenState
freshened s = record s { regs = λ r. new_register (type_of_reg r); locked = λ r. false }

IsFresh-eq : (s : GenState) → IsFresh s → freshened s ≡ s
IsFresh-eq s f =
    ap (λ regs. record s { regs = regs; locked = λ r. false }) (sym (fun_ext f.new))
    ∙ ap (λ locked. record s { locked = locked }) (sym (fun_ext f.unlocked))

abbrev TypedRegs : (ℕ → Register) → Type 0
TypedRegs regs = (k : ℕ) → (regs k).reg_type ≡ type_of_reg k

put-TypedRegs :
    (regs : ℕ → Register) (r : ℕ) (x : Register)
    → x.reg_type ≡ type_of_reg r
    → TypedRegs regs
    → TypedRegs (put regs r x)
put-TypedRegs regs r x e typed k = put_type regs r x k (e ∙ sym (typed r)) ∙ typed k

-- The code that opens a frame, up to the saved registers.
unfoldable pub open_lines : String → List Instr
open_lines name =
    Instr.text
    ∷ Instr.mark (named name)
    ∷ Instr.sw ra (indexed 0 sp)
    ∷ Instr.sw fp (indexed (int_mod - 4) sp)
    ∷ Instr.addi fp sp (int_mod - 4)
    ∷ Instr.addi sp sp (int_mod - 8)
    ∷ Instr.lw 8 (at_label (prefixed "_framesize_" name))
    ∷ Instr.binary op_sub false sp sp 8
    ∷ []

module _ (host : Host) where
  pub open_frame-Writes :
      (name : String) (s : GenState)
      → IsFresh s
      → Writes (open_lines name) s (open_frame host name s)
  unfolding open_frame open_lines operand_int load_address operand save_to emit get_reg minus
      set_reg clear find_vacant first_where set_dirty set_modified set_both clear_volatile
      float_operand_clearing
  open_frame-Writes name s f =
      subst (λ s. Writes (open_lines name) s (open_frame host name s)) (IsFresh-eq s f)
        (wrote (record {
          output_is = emits-output (open_lines name) (freshened s);
          typed = put-TypedRegs _ sp _ refl (
              put-TypedRegs _ 8 _ refl
                (put-TypedRegs _ sp _ refl (put-TypedRegs _ fp _ refl (λ k. refl))));
        }))

  -- Loading a word from an address.
  pub load_word-Writes :
      (r : ℕ) (n : AddrName) (base : Option ℕ) (o : ℕ) (v : Bool) (s : GenState)
      → Typed s
      → Writes (load_line n r ∷ []) s (
          load_address host r
            (record {
              addr_name = n;
              reg = base;
              offset = o;
              load_type = load_word;
              is_volatile = v;
            })
            s)
  unfolding load_address set_dirty
  load_word-Writes r n base o v s typed =
      let a : Address = record {
        addr_name = n;
        reg = base;
        offset = o;
        load_type = load_word;
        is_volatile = v;
      } in
      let line = load_word_of s r a in
      let p = emit-Adds line s typed in
      let q =
        set_reg-Adds r (record ((emit line s).regs r) { dirty = true }) (emit line s) refl
          p.typed in
      subst (λ l. Writes (l ∷ []) s (load_address host r a s))
        (ap (λ d. if is_float d then Instr.l_s r n else Instr.lw r n) (typed r))
        (wrote (Adds-trans p q))

  load_slot-Writes :
      (i r : ℕ) (s : GenState)
      → Typed s
      → Writes (load_line (indexed (slot i) fp) r ∷ []) s (load_address host r (save_slot i) s)
  unfolding save_slot minus
  load_slot-Writes i r s typed =
      load_word-Writes r (indexed (slot i) fp) (some fp) (slot i) false s typed

  pub load_callee-Writes :
      (i : ℕ) (v : List ℕ) (s : GenState)
      → Typed s
      → Writes (load_lines i v) s (load_callee host i v s)
  unfolding load_callee load_lines
  load_callee-Writes i [] s typed =
      wrote (record { output_is = sym (append-nil s.output); typed = typed })
  load_callee-Writes i (r ∷ v) s typed =
      then-Writes (load_callee host (suc i) v) (load_slot-Writes i r s typed)
        (λ t typed'. load_callee-Writes (suc i) v t typed')

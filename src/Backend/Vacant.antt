-- ===== src/Backend/Vacant.antt =====
-- The search of `findVacant` for a register, in src/Register.cpp.
use ntu_csie_complier.Prelude.{
  ℕ, zero, suc, ◌%◌, Bool, true, false, not, ◌&&◌, Option, none, some, List, [], ◌∷◌, get_elem?,
  length, if◌then◌else◌, ◌≡◌, refl, ap, arith, subst, some-injective, ◌∙◌, sym,
}
use ntu_csie_complier.Effect.Post.{Post, faults, returns, of_some}
use ntu_csie_complier.Backend.State.{GenState, Host}
use ntu_csie_complier.Backend.Registers.{
  first_where, is_clean, is_unmodified, draw_unlocked, find_vacant, or_unmodified, spill, or_spill,
  drawn, unless_locked,
}
use ntu_csie_complier.Backend.Evict.{evict, clear-save}

-- A register of the list that passes a test.
pub data Any (test : ℕ → Bool) : List ℕ → ℕ → Type 0 where
  here : {r : ℕ} {v : List ℕ} → test r ≡ true → Any test (r ∷ v) r
  there : {r k : ℕ} {v : List ℕ} → Any test v r → Any test (k ∷ v) r

pub Any-test : {test : ℕ → Bool} {v : List ℕ} {r : ℕ} → Any test v r → test r ≡ true
Any-test (here h) = h
Any-test (there a) = Any-test a

pub Any-imp :
    {p q : ℕ → Bool} {v : List ℕ} {r : ℕ}
    → ((k : ℕ) → p k ≡ true → q k ≡ true)
    → Any p v r
    → Any q v r
Any-imp imp (here h) = here (imp _ h)
Any-imp imp (there a) = there (Any-imp imp a)

pub Any-get :
    {test : ℕ → Bool} (v : List ℕ) (i r : ℕ) → get_elem? v i ≡ some r → test r ≡ true → Any test v r
Any-get {test} (x ∷ v) zero r h t =
    let e = some-injective x r h in subst (λ k. Any test (x ∷ v) k) e (here (ap test e ∙ t))
Any-get (x ∷ v) (suc i) r h t = there (Any-get v i r h t)
Any-get [] i r h t = ground arith

first_where-cons :
    (test : ℕ → Bool) (k : ℕ) (v : List ℕ) (r : ℕ) (b : Bool)
    → test k ≡ b
    → (if b then some k else first_where test v) ≡ some r
    → ((r : ℕ) → first_where test v ≡ some r → Any test v r)
    → Any test (k ∷ v) r
first_where-cons test k v r true e h rest =
    subst (λ j. Any test (k ∷ v) j) (some-injective k r h) (here e)
first_where-cons test k v r false e h rest = there (rest r h)

pub first_where-Any :
    (test : ℕ → Bool) (v : List ℕ) (r : ℕ) → first_where test v ≡ some r → Any test v r
unfolding first_where
first_where-Any test [] r h = ground arith
first_where-Any test (k ∷ v) r h =
    first_where-cons test k v r (test k) refl h (first_where-Any test v)

abbrev pub is_free : GenState → ℕ → Bool
is_free s k = not (s.locked k)

-- What `findVacant` leaves of the state: all of it, or the register is stored and cleared.
pub data Given (s : GenState) (r : ℕ) : GenState → Type 0 where
  as_clean : (s.regs r).dirty ≡ false → Given s r s
  as_unmodified : (s.regs r).modified ≡ false → Given s r s
  spilled : (n : ℕ) → Given s r (evict r (record s { draws = n }))

and_split : (a b : Bool) → (a && b) ≡ true → (a ≡ true) × (b ≡ true)
and_split a b h = ground arith

false_of_not : (a : Bool) → not a ≡ true → a ≡ false
false_of_not a h = ground arith

module _ (host : Host) where
  draw_step :
      (locked : ℕ → Bool) (v : List ℕ) (i n : ℕ) (o : Option ℕ) (rest : Option (ℕ × ℕ))
      → get_elem? v i ≡ o
      → Post (λ r m. Any (λ k. not (locked k)) v r) rest
      → Post (λ r m. Any (λ k. not (locked k)) v r) (drawn locked n rest o)
  draw_step locked v i n none rest e h = faults
  draw_step locked v i n (some r) rest e h = draw_at (locked r) refl
    where
      draw_at :
          (b : Bool)
          → locked r ≡ b
          → Post (λ r m. Any (λ k. not (locked k)) v r) (unless_locked b r n rest)
      draw_at true l = h
      draw_at false l = returns (Any-get v i r e (ap not l))

  draw_unlocked-Any :
      (locked : ℕ → Bool) (v : List ℕ) (tries n : ℕ)
      → Post (λ r m. Any (λ k. not (locked k)) v r) (draw_unlocked host locked v tries n)
  unfolding draw_unlocked
  draw_unlocked-Any locked v zero n = faults
  draw_unlocked-Any locked v (suc tries) n =
      draw_step locked v (host.random n % length v) n (get_elem? v (host.random n % length v))
        (draw_unlocked host locked v tries (suc n)) refl (draw_unlocked-Any locked v tries (suc n))

  spill-Given :
      (v : List ℕ) (s : GenState) (o : Option (ℕ × ℕ))
      → Post (λ r m. Any (is_free s) v r) o
      → Post (λ r t. Any (is_free s) v r × Given s r t) (spill s o)
  spill-Given v s none h = faults
  spill-Given v s (some (r, n)) h = returns (
    of_some h,
    subst (λ t. Given s r t) (sym (clear-save r (record s { draws = n }))) (spilled n),
  )

  find_unmodified :
      (v : List ℕ) (s : GenState) (o : Option ℕ)
      → first_where (is_unmodified s) v ≡ o
      → Post (λ r t. Any (is_free s) v r × Given s r t) (or_spill host v s o)
  find_unmodified v s none e =
      spill-Given v s (draw_unlocked host s.locked v (host.tries) s.draws)
        (draw_unlocked-Any s.locked v (host.tries) s.draws)
  find_unmodified v s (some r) e =
      let a = first_where-Any (is_unmodified s) v r e in
      returns (
        Any-imp (λ k t. (and_split (not (s.regs k).modified) (is_free s k) t).1) a,
        as_unmodified (
            false_of_not (s.regs r).modified
              (and_split (not (s.regs r).modified) (is_free s r) (Any-test a)).0),
      )

  find_clean :
      (v : List ℕ) (s : GenState) (o : Option ℕ)
      → first_where (is_clean s) v ≡ o
      → Post (λ r t. Any (is_free s) v r × Given s r t) (or_unmodified host v s o)
  find_clean v s none e = find_unmodified v s (first_where (is_unmodified s) v) refl
  find_clean v s (some r) e =
      let a = first_where-Any (is_clean s) v r e in
      returns (
        Any-imp (λ k t. (and_split (not (s.regs k).dirty) (is_free s k) t).1) a,
        as_clean (
            false_of_not (s.regs r).dirty
              (and_split (not (s.regs r).dirty) (is_free s r) (Any-test a)).0),
      )

  pub find_vacant-Given :
      (v : List ℕ) (s : GenState)
      → Post (λ r t. Any (is_free s) v r × Given s r t) (find_vacant host v s)
  unfolding find_vacant
  find_vacant-Given v s = find_clean v s (first_where (is_clean s) v) refl

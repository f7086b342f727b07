-- ===== src/Backend/Drawing.antt =====
-- The search of `findVacant` in src/Register.cpp comes to an end.
use ntu_csie_complier.Prelude.{
  ℕ, zero, suc, ◌+◌, ◌%◌, ◌<◌, Bool, true, false, Option, none, some, some-injective, List, [], ◌∷◌,
  get_elem?, length, ◌≡◌, ◌≢◌, ◌∙◌, refl, ap, arith,
}
use ntu_csie_complier.Types.{DataType}
use ntu_csie_complier.Backend.State.{GenState, Host}
use ntu_csie_complier.Backend.Registers.{
  first_where, is_clean, is_unmodified, draw_unlocked, find_vacant, get_reg, pool, or_unmodified,
  spill, or_spill, drawn, unless_locked,
}

some_at : {A : Type 0} (a : A) → some a ≢ none
some_at a h = ground arith

get_elem?-in : (v : List ℕ) (i : ℕ) → get_elem? v i ≡ none → (i < length v) → ⊥
get_elem?-in [] i h lt = omega arith
get_elem?-in (x ∷ v) zero h lt = ground arith
get_elem?-in (x ∷ v) (suc i) h lt = get_elem?-in v i h (omega arith)

positive : (v : List ℕ) (i r : ℕ) → get_elem? v i ≡ some r → 0 < length v
positive [] i r h = ground arith
positive (x ∷ v) i r h = omega arith

module _ (host : Host) (locked : ℕ → Bool) (v : List ℕ) where
  draw_found :
      (o : Option ℕ) (n r : ℕ) (rest : Option (ℕ × ℕ))
      → o ≡ some r
      → locked r ≡ false
      → drawn locked n rest o ≢ none
  draw_found none n r rest e l = ground arith
  draw_found (some k) n r rest e l = free_at (locked k) (ap locked (some-injective k r e) ∙ l)
    where
      free_at : (b : Bool) → b ≡ false → unless_locked b k n rest ≢ none
      free_at true h = ground arith
      free_at false h = some_at (k, suc n)

  draw_on :
      (o : Option ℕ) (n : ℕ) (rest : Option (ℕ × ℕ))
      → o ≢ none
      → rest ≢ none
      → drawn locked n rest o ≢ none
  draw_on none n rest h k = λ e. h refl
  draw_on (some r) n rest h k = any_at (locked r)
    where
      any_at : (b : Bool) → unless_locked b r n rest ≢ none
      any_at true = k
      any_at false = some_at (r, suc n)

  draw_unlocked-finds :
      (tries n m r : ℕ)
      → m < tries
      → get_elem? v (host.random (n + m) % length v) ≡ some r
      → locked r ≡ false
      → draw_unlocked host locked v tries n ≢ none
  unfolding draw_unlocked
  draw_unlocked-finds zero n m r lt e l = ground arith
  draw_unlocked-finds (suc tries) n zero r lt e l =
      draw_found (get_elem? v (host.random n % length v)) n r
        (draw_unlocked host locked v tries (suc n))
        (ap (λ k. get_elem? v (host.random k % length v)) (omega arith) ∙ e) l
  draw_unlocked-finds (suc tries) n (suc m) r lt e l =
      let pos = positive v (host.random (n + suc m) % length v) r e in
      draw_on (get_elem? v (host.random n % length v)) n (draw_unlocked host locked v tries (suc n))
        (λ h. get_elem?-in v (host.random n % length v) h (ground arith))
        (draw_unlocked-finds tries (suc n) m r (omega arith)
          (ap (λ k. get_elem? v (host.random k % length v)) (omega arith) ∙ e) l)

module _ (host : Host) where
  spill_found : (s : GenState) (o : Option (ℕ × ℕ)) → o ≢ none → spill s o ≢ none
  spill_found s none h = λ e. h refl
  spill_found s (some (r, n)) h = λ e. ground arith

  or_spill_found :
      (v : List ℕ) (s : GenState) (o : Option ℕ)
      → draw_unlocked host s.locked v (host.tries) s.draws ≢ none
      → or_spill host v s o ≢ none
  or_spill_found v s none h = spill_found s (draw_unlocked host s.locked v (host.tries) s.draws) h
  or_spill_found v s (some r) h = some_at (r, s)

  or_unmodified_found :
      (v : List ℕ) (s : GenState) (o : Option ℕ)
      → draw_unlocked host s.locked v (host.tries) s.draws ≢ none
      → or_unmodified host v s o ≢ none
  or_unmodified_found v s none h = or_spill_found v s (first_where (is_unmodified s) v) h
  or_unmodified_found v s (some r) h = some_at (r, s)

  -- If one of the next `tries` numbers that `random` gives is the place of a register that is not
  -- locked, then `getReg` gives a register.
  pub get_reg-finds :
      (t : DataType) (is_caller : Bool) (s : GenState) (m r : ℕ)
      → m < host.tries
      → get_elem? (pool t is_caller) (host.random (s.draws + m) % length (pool t is_caller))
        ≡ some r
      → s.locked r ≡ false
      → get_reg host t is_caller s ≢ none
  unfolding get_reg find_vacant
  get_reg-finds t is_caller s m r lt e l =
      or_unmodified_found (pool t is_caller) s (first_where (is_clean s) (pool t is_caller))
        (draw_unlocked-finds host s.locked (pool t is_caller) (host.tries) s.draws m r lt e l)

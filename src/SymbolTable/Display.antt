-- ===== src/SymbolTable/Display.antt =====
-- The scope display as a stack: what a write at one level leaves of the levels below it.
use ntu_csie_complier.Prelude.{
  ℕ, zero, suc, ◌<◌, ◌≡◌, refl, List, [], ◌∷◌, ◌++◌, arith, length, set,
}
use ntu_csie_complier.SymbolTable.Defs.{SymbolTableEntry, scope_at}
use ntu_csie_complier.SymbolTable.Scopes.{levels}

abbrev pub Display : Type 0 → Type 0
Display A = List (List (SymbolTableEntry A))

module _ {A : Type 0} where
  pub scope_at-set_self :
      (display : Display A) (i : ℕ) (scope : List (SymbolTableEntry A))
      → i < length display
      → scope_at (set display i scope) i ≡ scope
  scope_at-set_self [] i scope h = elim h [ ]
  scope_at-set_self (x ∷ display) zero scope h = refl
  scope_at-set_self (x ∷ display) (suc i) scope h = scope_at-set_self display i scope (omega arith)

  pub scope_at-set_above :
      (display : Display A) (i j : ℕ) (scope : List (SymbolTableEntry A))
      → j < i
      → scope_at (set display i scope) j ≡ scope_at display j
  scope_at-set_above [] i j scope h = refl
  scope_at-set_above (x ∷ display) zero j scope h = elim h [ ]
  scope_at-set_above (x ∷ display) (suc i) zero scope h = refl
  scope_at-set_above (x ∷ display) (suc i) (suc j) scope h =
      scope_at-set_above display i j scope (omega arith)

  pub levels-set_above :
      (display : Display A) (i level : ℕ) (scope : List (SymbolTableEntry A))
      → level < i
      → levels (set display i scope) level ≡ levels display level
  levels-set_above display i zero scope h = ground (arith, scope_at-set_above display i 0 scope h)
  levels-set_above display i (suc level) scope h = ground (
    arith,
    scope_at-set_above display i (suc level) scope h,
    levels-set_above display i level scope (omega arith),
  )

  pub scope_at-append :
      (display more : Display A) (i : ℕ)
      → i < length display
      → scope_at (display ++ more) i ≡ scope_at display i
  scope_at-append [] more i h = elim h [ ]
  scope_at-append (x ∷ display) more zero h = refl
  scope_at-append (x ∷ display) more (suc i) h = scope_at-append display more i (omega arith)

  pub levels-append :
      (display more : Display A) (level : ℕ)
      → level < length display
      → levels (display ++ more) level ≡ levels display level
  levels-append display more zero h = ground (arith, scope_at-append display more 0 h)
  levels-append display more (suc level) h = ground (
    arith,
    scope_at-append display more (suc level) h,
    levels-append display more level (omega arith),
  )

  pub length-levels : (display : Display A) (level : ℕ) → length (levels display level) ≡ suc level
  length-levels display zero = refl
  length-levels display (suc level) = omega (arith, length-levels display level)

  pub length-set :
      (display : Display A) (i : ℕ) (scope : List (SymbolTableEntry A))
      → length (set display i scope) ≡ length display
  length-set [] i scope = refl
  length-set (x ∷ display) zero scope = refl
  length-set (x ∷ display) (suc i) scope = omega (arith, length-set display i scope)

  -- The stack below the top.
  abbrev pub below : Display A → ℕ → Display A
  below display zero = []
  below display (suc level) = levels display level

  pub levels-below :
      (display : Display A) (level : ℕ)
      → levels display level ≡ scope_at display level ∷ below display level
  levels-below display zero = refl
  levels-below display (suc level) = refl

  -- A write at the top replaces the innermost scope and no other.
  pub levels-set_top :
      (display : Display A) (level : ℕ) (scope : List (SymbolTableEntry A))
      → level < length display
      → levels (set display level scope) level ≡ scope ∷ below display level
  levels-set_top display zero scope h = ground (arith, scope_at-set_self display 0 scope h)
  levels-set_top display (suc level) scope h = ground (
    arith,
    scope_at-set_self display (suc level) scope h,
    levels-set_above display (suc level) level scope (omega arith),
  )

-- ===== src/SymbolTable/Scopes.antt =====
-- What src/symbolTable.c promises: a stack of scopes, innermost first, in which a name stands for
-- its innermost declaration. The invariant ties the hash chains and the scope display to it.
use ntu_csie_complier.Prelude.{
  ℕ, zero, suc, ◌<◌, ◌≡◌, inl, inr, String, Option, none, some, List, [], ◌∷◌, arith, str_eq,
  str_eq_iff, Bool-cases, Option-cases, length,
}
use ntu_csie_complier.SymbolTable.Hash.{hash}
use ntu_csie_complier.SymbolTable.Defs.{
  Binding, SymbolTableEntry, SymbolTable, entry_name, find, scope_at,
}

module _ {A : Type 0} where
  -- The scopes of levels `level`, ..., 0.
  abbrev pub levels : List (List (SymbolTableEntry A)) → ℕ → List (List (SymbolTableEntry A))
  levels display zero = scope_at display zero ∷ []
  levels display (suc level) = scope_at display (suc level) ∷ levels display level

  abbrev pub scopes : SymbolTable A → List (List (SymbolTableEntry A))
  scopes t = levels t.scope_display t.current_level

  -- The declarations of a name, innermost first.
  unfoldable pub visible : String → List (List (SymbolTableEntry A)) → List (Binding A)
  unfolding find
  visible name [] = []
  visible name (scope ∷ outer) = elim (find name scope) [
    | none ↦ visible name outer
    | some e ↦ e.binding ∷ visible name outer
  ]

  -- The entry that a list of declarations of one name makes: the first one, with the rest behind.
  abbrev pub as_entry : List (Binding A) → Option (SymbolTableEntry A)
  as_entry [] = none
  as_entry (b ∷ outer) = some (record { binding = b; same_name_in_outer_level = outer })

  -- In each scope a name is declared once, at the scope's level, and leads to what it shadows.
  abbrev pub IsScope : List (SymbolTableEntry A) → List (List (SymbolTableEntry A)) → Type 0
  IsScope [] outer = Unit
  IsScope (e ∷ scope) outer =
      (find (entry_name e) scope ≡ none)
      × (e.binding.nesting_level ≡ length outer)
      × (e.same_name_in_outer_level ≡ visible (entry_name e) outer)
      × IsScope scope outer

  abbrev pub AreScopes : List (List (SymbolTableEntry A)) → Type 0
  AreScopes [] = Unit
  AreScopes (scope ∷ outer) = IsScope scope outer × AreScopes outer

  abbrev pub IsChain : List (SymbolTableEntry A) → Type 0
  IsChain [] = Unit
  IsChain (e ∷ chain) = (find (entry_name e) chain ≡ none) × IsChain chain

  -- The hash chains hold, for each name, the entry that is expected of it.
  pub record Holds (hash_table : ℕ → List (SymbolTableEntry A))
      (expected : String → Option (SymbolTableEntry A)) : Type 0 where
    pub chains : (k : ℕ) → IsChain (hash_table k)
    pub finds : (name : String) → find name (hash_table (hash name)) ≡ expected name

  -- ... which is that of its innermost declaration.
  abbrev pub Indexes : (ℕ → List (SymbolTableEntry A)) → List (List (SymbolTableEntry A)) → Type 0
  Indexes hash_table stack = Holds hash_table (λ name. as_entry (visible name stack))

  pub record IsValid (t : SymbolTable A) : Type 0 where
    pub within : t.current_level < length t.scope_display
    pub counted : t.scope_display_element_count ≡ length t.scope_display
    pub scoped : AreScopes (scopes t)
    pub indexed : Indexes t.hash_table (scopes t)

  pub find-name :
      (name : String) (chain : List (SymbolTableEntry A)) (e : SymbolTableEntry A)
      → find name chain ≡ some e
      → entry_name e ≡ name
  unfolding find
  find-name name [] e h = absurd (ground arith)
  find-name name (x ∷ chain) e h = elim (Bool-cases (str_eq (entry_name x) name)) [
    | inl hit ↦ ground (arith, str_eq_iff (entry_name x) name)
    | inr miss ↦ find-name name chain e (ground arith)
  ]

  pub find-IsScope :
      (name : String) (scope : List (SymbolTableEntry A)) (outer : List (List (SymbolTableEntry A)))
      (e : SymbolTableEntry A)
      → IsScope scope outer
      → find name scope ≡ some e
      → (e.binding.nesting_level ≡ length outer) × (e.same_name_in_outer_level ≡ visible name outer)
  unfolding find
  find-IsScope name [] outer e s h = absurd (ground arith)
  find-IsScope name (x ∷ scope) outer e s h = elim (Bool-cases (str_eq (entry_name x) name)) [
    | inl hit ↦
        let same : entry_name x ≡ name = (str_eq_iff (entry_name x) name).0 hit in
        let is : x ≡ e = ground arith in rw (← is) (s.1, rw (← same) s.2)
    | inr miss ↦ find-IsScope name scope outer e s.3 (ground arith)
  ]

  -- A declaration that is visible from some scopes was made at one of their levels.
  pub visible-lt :
      (name : String) (stack : List (List (SymbolTableEntry A))) (b : Binding A)
      (outer : List (Binding A))
      → AreScopes stack
      → visible name stack ≡ b ∷ outer
      → b.nesting_level < length stack
  unfolding visible
  visible-lt name [] b outer s h = absurd (ground arith)
  visible-lt name (scope ∷ stack) b outer s h = elim (Option-cases (find name scope)) [
    | inl e ↦
        let below : b.nesting_level < length stack =
          visible-lt name stack b outer s.1 (ground arith) in
        omega arith
    | inr (x, e) ↦ ground (arith, find-IsScope name scope stack x s.0 e)
  ]

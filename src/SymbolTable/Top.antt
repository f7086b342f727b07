-- ===== src/SymbolTable/Top.antt =====
-- The innermost scope of a table, apart from the scopes around it.
use ntu_csie_complier.Prelude.{
  some, arith, false, ◌==◌, ℕ, zero, suc, ◌≡◌, refl, ◌⊎◌, inl, inr, String, none, List, [], ◌∷◌,
  arith, length, set,
}
use ntu_csie_complier.SymbolTable.Hash.{hash}
use ntu_csie_complier.SymbolTable.Defs.{Binding, SymbolTableEntry, SymbolTable, find, scope_at}
use ntu_csie_complier.SymbolTable.Scopes.{
  visible-lt, IsScope, AreScopes, Indexes, IsValid, visible, as_entry,
}
use ntu_csie_complier.SymbolTable.Display.{
  Display, below, levels-below, levels-set_top, length-levels, length-set,
}

module _ {A : Type 0} where
  abbrev pub top : SymbolTable A → List (SymbolTableEntry A)
  top t = scope_at t.scope_display t.current_level

  abbrev pub outer_scopes : SymbolTable A → List (List (SymbolTableEntry A))
  outer_scopes t = below t.scope_display t.current_level

  -- The table with other hash chains and another innermost scope.
  abbrev pub retop :
      SymbolTable A → (ℕ → List (SymbolTableEntry A)) → List (SymbolTableEntry A) → SymbolTable A
  retop t table scope = record t {
    hash_table = table;
    scope_display = set t.scope_display t.current_level scope;
  }

  -- A valid table, with its innermost scope apart.
  pub record TopValid (t : SymbolTable A) : Type 0 where
    pub is_scope : IsScope (top t) (outer_scopes t)
    pub are_scopes : AreScopes (outer_scopes t)
    pub indexes : Indexes t.hash_table (top t ∷ outer_scopes t)
    pub level : length (outer_scopes t) ≡ t.current_level

  pub length-below : (display : Display A) (level : ℕ) → length (below display level) ≡ level
  length-below display zero = refl
  length-below display (suc level) = length-levels display level

  pub apart : (t : SymbolTable A) → IsValid t → TopValid t
  apart t v =
      let scoped : AreScopes (top t ∷ outer_scopes t) =
        rw (levels-below t.scope_display t.current_level) at v.scoped in
      record {
        is_scope = scoped.0;
        are_scopes = scoped.1;
        indexes = rw (levels-below t.scope_display t.current_level) at v.indexed;
        level = length-below t.scope_display t.current_level;
      }

  pub retop-IsValid :
      (t : SymbolTable A) (table : ℕ → List (SymbolTableEntry A))
      (scope : List (SymbolTableEntry A))
      → IsValid t
      → IsScope scope (outer_scopes t)
      → Indexes table (scope ∷ outer_scopes t)
      → IsValid (retop t table scope)
  retop-IsValid t table scope v is ix =
      let e = levels-set_top t.scope_display t.current_level scope v.within in
      record {
        within = omega (arith, v.within, length-set t.scope_display t.current_level scope);
        counted = omega (arith, v.counted, length-set t.scope_display t.current_level scope);
        scoped = rw e (is, (apart t v).are_scopes);
        indexed = rw e ix;
      }

  pub finds-top :
      (name : String) (t : SymbolTable A)
      → IsValid t
      → find name (t.hash_table (hash name)) ≡ as_entry (visible name (top t ∷ outer_scopes t))
  finds-top name t v = (apart t v).indexes.finds name

  pub finds-outer :
      (name : String) (t : SymbolTable A)
      → IsValid t
      → find name (top t) ≡ none
      → find name (t.hash_table (hash name)) ≡ as_entry (visible name (outer_scopes t))
  unfolding visible
  finds-outer name t v new = ground (arith, finds-top name t v)

  pub visible_cases :
      (l : List (Binding A)) → (l ≡ []) ⊎ ((b : Binding A) × (bs : List (Binding A)) × (l ≡ b ∷ bs))
  visible_cases [] = inl refl
  visible_cases (b ∷ bs) = inr (b, bs, refl)

  -- A name that the innermost scope lacks is on no chain, or it was declared at an outer level.
  pub finds-lower :
      (name : String) (t : SymbolTable A)
      → IsValid t
      → find name (top t) ≡ none
      → (find name (t.hash_table (hash name)) ≡ none)
        ⊎ ((e : SymbolTableEntry A) × (find name (t.hash_table (hash name)) ≡ some e)
            × ((e.binding.nesting_level == t.current_level) ≡ false))
  finds-lower name t v new = elim (visible_cases (visible name (outer_scopes t))) [
    | inl e ↦ inl (rw (finds-outer name t v new, e))
    | inr (b, bs, e) ↦ inr (
      record { binding = b; same_name_in_outer_level = bs },
      rw (finds-outer name t v new, e),
      ground (
        arith,
        visible-lt name (outer_scopes t) b bs (apart t v).are_scopes e,
        (apart t v).level,
      ),
    )
  ]

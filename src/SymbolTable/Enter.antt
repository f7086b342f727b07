-- ===== src/SymbolTable/Enter.antt =====
-- `enterSymbol` of src/symbolTable.c: it keeps the invariant, and declares in the innermost scope.
use ntu_csie_complier.Prelude.{
  ℕ, ◌≡◌, refl, sym, ◌∙◌, inl, inr, String, none, some, List, ◌∷◌, arith, str_eq, str_eq_iff,
  str_eq_refl, ◌==◌, ==_iff, false, if◌then◌else◌,
}
use ntu_csie_complier.SymbolTable.Hash.{hash}
use ntu_csie_complier.SymbolTable.Defs.{
  SymbolTableEntry, SymbolTable, entry_name, find, new_entry, enter_into_hash_train,
  remove_from_hash_train, link_entry, enter_symbol,
}
use ntu_csie_complier.SymbolTable.Scopes.{
  Holds, IsValid, visible, as_entry, scopes, find-IsScope, visible-lt, find-name,
}
use ntu_csie_complier.SymbolTable.Chains.{
  remove_named-Holds, enter_into_hash_train-Holds, Holds-ext,
}
use ntu_csie_complier.SymbolTable.Display.{levels-set_top}
use ntu_csie_complier.SymbolTable.Top.{
  top, outer_scopes, apart, retop-IsValid, finds-top, finds-outer, visible_cases,
}

module _ {A : Type 0} where
  -- The end of `enterSymbol`, from chains that do not hold the name.
  link_entry-IsValid :
      (e : SymbolTableEntry A) (t : SymbolTable A) (table : ℕ → List (SymbolTableEntry A))
      → IsValid t
      → find (entry_name e) (top t) ≡ none
      → e.binding.nesting_level ≡ t.current_level
      → e.same_name_in_outer_level ≡ visible (entry_name e) (outer_scopes t)
      → Holds table (λ m.
        if str_eq (entry_name e) m then none else as_entry (visible m (top t ∷ outer_scopes t)))
      → IsValid (link_entry e (record t { hash_table = table }))
  unfolding link_entry find visible
  link_entry-IsValid e t table v new level outer holds =
      let a = apart t v in
      let t1 : SymbolTable A = record t { hash_table = table } in
      retop-IsValid t (enter_into_hash_train (hash (entry_name e)) e t1).hash_table (e ∷ top t) v
        (new, level ∙ sym a.level, outer, a.is_scope)
        (Holds-ext _ _ (λ m. ground (arith, str_eq_iff (entry_name e) m))
          (enter_into_hash_train-Holds e t1 _ (ground (arith, str_eq_refl (entry_name e))) holds))

  -- The entry that declares a name in the innermost scope.
  abbrev pub entry_in : SymbolTable A → String → A → SymbolTableEntry A
  entry_in t name attribute =
      new_entry name attribute t.current_level (visible name (outer_scopes t))

  -- The chains from which `enterSymbol` goes on to link the new entry.
  enter_symbol-link :
      (name : String) (attribute : A) (t : SymbolTable A)
      → IsValid t
      → find name (top t) ≡ none
      → (table : ℕ → List (SymbolTableEntry A)) × (enter_symbol name attribute t ≡ (
        some (entry_in t name attribute),
        link_entry (entry_in t name attribute) (record t { hash_table = table }),
      ))
        × Holds table
            (λ m. if str_eq name m then none else as_entry (visible m (top t ∷ outer_scopes t)))
  unfolding enter_symbol
  enter_symbol-link name attribute t v new = elim (visible_cases (visible name (outer_scopes t))) [
    | inl e ↦ (
      t.hash_table,
      rw (finds-outer name t v new, e),
      Holds-ext _ _
          (λ m. ground (arith, finds-outer name t v new, finds-top name t v, str_eq_iff name m))
          (apart t v).indexes,
    )
    | inr (b, bs, e) ↦
        let a = apart t v in
        let old : SymbolTableEntry A = record { binding = b; same_name_in_outer_level = bs } in
        let found : find name (t.hash_table (hash name)) ≡ some old =
          rw (finds-outer name t v new, e) in
        let same : b.name ≡ name = find-name name (t.hash_table (hash name)) old found in
        let lower : (b.nesting_level == t.current_level) ≡ false =
          ground (arith, visible-lt name (outer_scopes t) b bs a.are_scopes e, a.level) in
        (
          (remove_from_hash_train (hash name) old t).hash_table,
          rw (found, lower, e),
          remove_named-Holds name old t _ same a.indexes,
        )
  ]

  -- A name that its innermost scope lacks is entered in front of it.
  pub enter_symbol-new :
      (name : String) (attribute : A) (t : SymbolTable A)
      → IsValid t
      → find name (top t) ≡ none
      → IsValid (enter_symbol name attribute t).1
        × ((enter_symbol name attribute t).0 ≡ some (entry_in t name attribute))
        × (scopes (enter_symbol name attribute t).1
            ≡ (entry_in t name attribute ∷ top t) ∷ outer_scopes t)
  enter_symbol-new name attribute t v new =
      let (table, is, holds) = enter_symbol-link name attribute t v new in
      rw is (
        link_entry-IsValid (entry_in t name attribute) t table v new refl refl holds,
        refl,
        unfold link_entry in
            levels-set_top t.scope_display t.current_level (entry_in t name attribute ∷ top t)
              v.within,
      )

  pub find-top-old :
      (name : String) (t : SymbolTable A) (e : SymbolTableEntry A)
      → IsValid t
      → find name (top t) ≡ some e
      → (find name (t.hash_table (hash name)) ≡ some e)
        × (e.binding.nesting_level ≡ t.current_level)
        × (e.same_name_in_outer_level ≡ visible name (outer_scopes t))
  unfolding visible
  find-top-old name t e v old =
      let a = apart t v in
      let is = find-IsScope name (top t) (outer_scopes t) e a.is_scope old in
      (ground (arith, finds-top name t v), is.0 ∙ a.level, is.1)

  -- A name that its innermost scope holds is refused, and nothing changes.
  pub enter_symbol-old :
      (name : String) (attribute : A) (t : SymbolTable A) (e : SymbolTableEntry A)
      → IsValid t
      → find name (top t) ≡ some e
      → enter_symbol name attribute t ≡ (none, t)
  unfolding enter_symbol
  enter_symbol-old name attribute t e v old =
      let (found, level, _) = find-top-old name t e v old in
      rw (found, (==_iff e.binding.nesting_level t.current_level).1 level)

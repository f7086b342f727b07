-- ===== src/SymbolTable/Leave.antt =====
-- `removeSymbol` of src/symbolTable.c against the stack of scopes.
use ntu_csie_complier.Prelude.{
  ℕ, ◌≡◌, refl, sym, ap, ◌∙◌, inl, inr, String, Option, none, some, List, [], ◌∷◌, arith, str_eq,
  str_eq_iff, str_eq_refl, ◌==◌, ==_iff, false, if◌then◌else◌, Bool-cases, Option-cases,
}
use ntu_csie_complier.SymbolTable.Hash.{hash}
use ntu_csie_complier.SymbolTable.Defs.{
  unlink_scope, Binding, SymbolTableEntry, SymbolTable, entry_name, find, unlink,
  remove_from_hash_train, reenter_outer, remove_symbol,
}
use ntu_csie_complier.SymbolTable.Scopes.{
  IsChain, IsScope, Holds, Indexes, IsValid, visible, as_entry, scopes, visible-lt, find-name,
}
use ntu_csie_complier.SymbolTable.Chains.{
  find-unlink, remove_named-Holds, enter_into_hash_train-Holds, Holds-ext,
}
use ntu_csie_complier.SymbolTable.Display.{levels-set_top}
use ntu_csie_complier.SymbolTable.Top.{
  top, outer_scopes, retop, apart, retop-IsValid, finds-outer, visible_cases,
}
use ntu_csie_complier.SymbolTable.Enter.{find-top-old}

module _ {A : Type 0} where
  -- Putting back what a name stood for before.
  reenter_outer-Holds :
      (name : String) (outer : List (Binding A)) (t : SymbolTable A)
      (expected : String → Option (SymbolTableEntry A))
      → ((b : Binding A) (bs : List (Binding A)) → outer ≡ b ∷ bs → b.name ≡ name)
      → expected name ≡ none
      → Holds t.hash_table expected
      → Holds
          (reenter_outer (hash name) outer t).hash_table
          (λ m. if str_eq name m then as_entry outer else expected m)
  unfolding reenter_outer
  reenter_outer-Holds name [] t expected named new holds =
      Holds-ext _ _ (λ m. ground (arith, str_eq_iff name m)) holds
  reenter_outer-Holds name (b ∷ outer) t expected named new holds =
      let same : b.name ≡ name = named b outer refl in
      let e : SymbolTableEntry A = record { binding = b; same_name_in_outer_level = outer } in
      rw (← same) (enter_into_hash_train-Holds e t expected (rw same new) holds)

  visible-name :
      (name : String) (stack : List (List (SymbolTableEntry A))) (b : Binding A)
      (bs : List (Binding A))
      → visible name stack ≡ b ∷ bs
      → b.name ≡ name
  unfolding visible
  visible-name name [] b bs h = absurd (ground arith)
  visible-name name (scope ∷ stack) b bs h = elim (Option-cases (find name scope)) [
    | inl e ↦ visible-name name stack b bs (ground arith)
    | inr (x, e) ↦ ground (arith, find-name name scope x e)
  ]

  -- Unlinking a name, and putting the declaration that it shadowed back.
  abbrev pub shown_again : String → SymbolTableEntry A → SymbolTable A → SymbolTable A
  shown_again name e t =
      reenter_outer (hash name) e.same_name_in_outer_level (remove_from_hash_train (hash name) e t)

  pub shown_again-Indexes :
      (e : SymbolTableEntry A) (name : String) (t : SymbolTable A)
      (scope scope' : List (SymbolTableEntry A)) (outer : List (List (SymbolTableEntry A)))
      → entry_name e ≡ name
      → e.same_name_in_outer_level ≡ visible name outer
      → ((m : String) → find m scope' ≡ (if str_eq name m then none else find m scope))
      → Indexes t.hash_table (scope ∷ outer)
      → Indexes (shown_again name e t).hash_table (scope' ∷ outer)
  unfolding visible
  shown_again-Indexes e name t scope scope' outer same shadows finds ix =
      Holds-ext _ _ (λ m. ground (arith, finds m, str_eq_iff name m))
        (reenter_outer-Holds name e.same_name_in_outer_level
          (remove_from_hash_train (hash name) e t)
          (λ m. if str_eq name m then none else as_entry (visible m (scope ∷ outer)))
          (λ b bs is. visible-name name outer b bs (sym shadows ∙ is))
          (ground (arith, str_eq_refl name)) (remove_named-Holds name e t _ same ix))

  IsScope-IsChain :
      (scope : List (SymbolTableEntry A)) (outer : List (List (SymbolTableEntry A)))
      → IsScope scope outer
      → IsChain scope
  IsScope-IsChain [] outer is = tt
  IsScope-IsChain (e ∷ scope) outer is = (is.0, IsScope-IsChain scope outer is.3)

  unlink-IsScope :
      (name : String) (scope : List (SymbolTableEntry A)) (outer : List (List (SymbolTableEntry A)))
      → IsScope scope outer
      → IsScope (unlink name scope) outer
  unfolding unlink find
  unlink-IsScope name [] outer is = tt
  unlink-IsScope name (e ∷ scope) outer is = elim (Bool-cases (str_eq (entry_name e) name)) [
    | inl hit ↦ rw hit is.3
    | inr miss ↦ rw miss (
      ground (arith, find-unlink name (entry_name e) scope (IsScope-IsChain scope outer is.3)),
      is.1,
      is.2,
      unlink-IsScope name scope outer is.3,
    )
  ]

  -- Putting an entry back on its chain changes the hash table alone.
  reenter_outer-rest :
      (k : ℕ) (outer : List (Binding A)) (t : SymbolTable A)
      → reenter_outer k outer t ≡ record t { hash_table = (reenter_outer k outer t).hash_table }
  unfolding reenter_outer
  reenter_outer-rest k [] t = refl
  reenter_outer-rest k (b ∷ outer) t = refl

  pub shown_again-rest :
      (name : String) (e : SymbolTableEntry A) (t : SymbolTable A)
      → shown_again name e t ≡ record t { hash_table = (shown_again name e t).hash_table }
  unfolding remove_from_hash_train
  shown_again-rest name e t =
      reenter_outer-rest (hash name) e.same_name_in_outer_level
        (remove_from_hash_train (hash name) e t)

  -- `removeSymbol` of a name that the innermost scope holds takes that declaration away.
  pub remove_symbol-top :
      (name : String) (t : SymbolTable A) (e : SymbolTableEntry A)
      → IsValid t
      → find name (top t) ≡ some e
      → IsValid (remove_symbol name t)
        × (scopes (remove_symbol name t) ≡ unlink name (top t) ∷ outer_scopes t)
  unfolding remove_symbol
  remove_symbol-top name t e v old =
      let a = apart t v in
      let (found, level, shadows) = find-top-old name t e v old in
      let same : entry_name e ≡ name = find-name name (top t) e old in
      let is : remove_symbol name t
          ≡ retop t (shown_again name e t).hash_table (unlink name (top t)) =
        rw (found, (==_iff e.binding.nesting_level t.current_level).1 level)
          (ap (unlink_scope name) (shown_again-rest name e t)) in
      rw is (
        retop-IsValid t (shown_again name e t).hash_table (unlink name (top t)) v
            (unlink-IsScope name (top t) (outer_scopes t) a.is_scope)
            (shown_again-Indexes e name t (top t) (unlink name (top t)) (outer_scopes t) same
              shadows
              (λ m.
                find-unlink name m (top t) (IsScope-IsChain (top t) (outer_scopes t) a.is_scope))
              a.indexes),
        levels-set_top t.scope_display t.current_level (unlink name (top t)) v.within,
      )

  -- In the other cases it changes nothing.
  pub remove_symbol-other :
      (name : String) (t : SymbolTable A)
      → IsValid t
      → find name (top t) ≡ none
      → remove_symbol name t ≡ t
  unfolding remove_symbol
  remove_symbol-other name t v new = elim (visible_cases (visible name (outer_scopes t))) [
    | inl e ↦ rw (finds-outer name t v new, e)
    | inr (b, bs, e) ↦
        let a = apart t v in
        let lower : (b.nesting_level == t.current_level) ≡ false =
          ground (arith, visible-lt name (outer_scopes t) b bs a.are_scopes e, a.level) in
        rw (finds-outer name t v new, e, lower)
  ]

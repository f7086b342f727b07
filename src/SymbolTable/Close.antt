-- ===== src/SymbolTable/Close.antt =====
-- `openScope` and `closeScope` of src/symbolTable.c against the stack of scopes.
use ntu_csie_complier.Prelude.{
  ℕ, suc, ◌<◌, ◌≡◌, refl, sym, ap, subst, ◌∙◌, ◌*◌, inl, inr, some, List, [], ◌∷◌, ◌++◌, arith,
  str_eq_iff, ◌==◌, Bool-cases, length, length-append, length-replicate, replicate, set,
}
use ntu_csie_complier.SymbolTable.Defs.{
  SymbolTableEntry, SymbolTable, entry_name, find, open_scope, close_loop, close_level, close_scope,
}
use ntu_csie_complier.SymbolTable.Scopes.{
  IsScope, AreScopes, Indexes, IsValid, visible, levels, scopes,
}
use ntu_csie_complier.SymbolTable.Display.{
  below, levels-set_top, length-set, levels-append, levels-set_above,
}
use ntu_csie_complier.SymbolTable.Top.{top, outer_scopes, apart}
use ntu_csie_complier.SymbolTable.Leave.{shown_again, shown_again-Indexes, shown_again-rest}

module _ {A : Type 0} where
  -- The loop of `closeScope` leaves the chains as they were before the scope's declarations.
  close_loop-Indexes :
      (scope : List (SymbolTableEntry A)) (outer : List (List (SymbolTableEntry A)))
      (t : SymbolTable A)
      → IsScope scope outer
      → Indexes t.hash_table (scope ∷ outer)
      → Indexes (close_loop scope t).hash_table ([] ∷ outer)
        × (close_loop scope t ≡ record t { hash_table = (close_loop scope t).hash_table })
  unfolding close_loop find
  close_loop-Indexes [] outer t is ix = (ix, refl)
  close_loop-Indexes (e ∷ scope) outer t is ix =
      let next = close_loop-Indexes scope outer (shown_again (entry_name e) e t) is.3 (
        shown_again-Indexes e (entry_name e) t (e ∷ scope) scope outer refl is.2
          (λ m. ground (arith, str_eq_iff (entry_name e) m, is.0)) ix) in
      (
        next.0,
        next.1
            ∙ ap
                (λ (u : SymbolTable A). record u {
                  hash_table = (close_loop (e ∷ scope) t).hash_table;
                })
                (shown_again-rest (entry_name e) e t),
      )

  close_level-lem :
      (level : ℕ) (t : SymbolTable A)
      → IsValid t
      → t.current_level ≡ suc level
      → (t' : SymbolTable A) × (close_level (suc level) t ≡ some t')
        × IsValid t'
        × (scopes t' ≡ levels t.scope_display level)
        × (t'.current_level ≡ level)
  unfolding close_level visible find
  close_level-lem level t v inner =
      let a = apart t v in
      let same : outer_scopes t ≡ levels t.scope_display level = ap (below t.scope_display) inner in
      let (ix, rest) = close_loop-Indexes (top t) (outer_scopes t) t a.is_scope a.indexes in
      let table = (close_loop (top t) t).hash_table in
      let above = levels-set_above t.scope_display (suc level) level [] (omega arith) in
      (
        record t {
          hash_table = table;
          scope_display = set t.scope_display (suc level) [];
          current_level = level;
        },
        rw (← inner, rest),
        record {
          within = omega (arith, v.within, length-set t.scope_display (suc level) []);
          counted = omega (arith, v.counted, length-set t.scope_display (suc level) []);
          scoped = rw (above, ← same) a.are_scopes;
          indexed = rw (above, ← same) ix;
        },
        above,
        refl,
      )

  -- `closeScope` of an inner scope leaves the scopes around it.
  pub close_scope-lem :
      (level : ℕ) (t : SymbolTable A)
      → IsValid t
      → t.current_level ≡ suc level
      → (t' : SymbolTable A) × (close_scope t ≡ some t')
        × IsValid t'
        × (scopes t' ≡ outer_scopes t)
        × (t'.current_level ≡ level)
  unfolding close_scope
  close_scope-lem level t v inner =
      let (t', is, v', sc, lv) = close_level-lem level t v inner in
      (
        t',
        ap (λ (l : ℕ). close_level l t) inner ∙ is,
        v',
        sc ∙ sym (ap (below t.scope_display) inner),
        lv,
      )

  -- The next level of a display that holds the levels of the table.
  abbrev opened : SymbolTable A → List (List (SymbolTableEntry A)) → ℕ → SymbolTable A
  opened t display count = record t {
    current_level = suc t.current_level;
    scope_display = set display (suc t.current_level) [];
    scope_display_element_count = count;
  }

  opened-IsValid :
      (t : SymbolTable A) (display : List (List (SymbolTableEntry A))) (count : ℕ)
      → IsValid t
      → suc t.current_level < length display
      → count ≡ length display
      → levels display t.current_level ≡ scopes t
      → IsValid (opened t display count)
        × (scopes (opened t display count) ≡ [] ∷ scopes t)
        × ((opened t display count).current_level ≡ suc t.current_level)
  unfolding visible find
  opened-IsValid t display count v room counted same =
      let e : scopes (opened t display count) ≡ [] ∷ scopes t =
        levels-set_top display (suc t.current_level) [] room
        ∙ ap (λ (outer : List (List (SymbolTableEntry A))). [] ∷ outer) same in
      (
        record {
          within = omega (arith, room, length-set display (suc t.current_level) []);
          counted = omega (arith, counted, length-set display (suc t.current_level) []);
          scoped = subst AreScopes (sym e) (tt, v.scoped);
          indexed = subst (Indexes t.hash_table) (sym e) v.indexed;
        },
        e,
        refl,
      )

  -- `openScope` puts an empty scope in front, with room for it in the display.
  pub open_scope-lem :
      (t : SymbolTable A)
      → IsValid t
      → IsValid (open_scope t)
        × (scopes (open_scope t) ≡ [] ∷ scopes t)
        × ((open_scope t).current_level ≡ suc t.current_level)
  unfolding open_scope
  open_scope-lem t v =
      let more : List (List (SymbolTableEntry A)) = replicate t.scope_display_element_count [] in
      elim (Bool-cases (suc t.current_level == t.scope_display_element_count)) [
        | inl full ↦ rw full (
            opened-IsValid t (t.scope_display ++ more) (2 * t.scope_display_element_count) v
              (omega (
                arith,
                v.within,
                v.counted,
                length-append t.scope_display more,
                length-replicate {0} {A = List (SymbolTableEntry A)} t.scope_display_element_count
                    [],
              ))
              (omega (
                arith,
                v.counted,
                length-append t.scope_display more,
                length-replicate {0} {A = List (SymbolTableEntry A)} t.scope_display_element_count
                    [],
              ))
              (levels-append t.scope_display more t.current_level v.within))
        | inr room ↦ rw room (
            opened-IsValid t t.scope_display t.scope_display_element_count v
              (ground (arith, v.within, v.counted)) v.counted refl)
      ]

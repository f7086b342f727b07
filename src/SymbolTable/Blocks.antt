-- ===== src/SymbolTable/Blocks.antt =====
-- Sequences of operations of src/symbolTable.c in which every scope that is opened is closed.
use ntu_csie_complier.Prelude.{
  ℕ, ◌≡◌, refl, sym, subst, ◌∙◌, ap, String, Option-cases, some, List, [], ◌∷◌, arith, inl, inr,
}
use ntu_csie_complier.SymbolTable.Defs.{
  SymbolTable, enter_symbol, remove_symbol, open_scope, close_scope, retrieve_symbol, find, Binding,
  reenter_outer, remove_from_hash_train,
}
use ntu_csie_complier.SymbolTable.Hash.{hash}
use ntu_csie_complier.SymbolTable.Scopes.{IsValid}
use ntu_csie_complier.SymbolTable.Spec.{
  ScopedMap, outer, view, declare, undeclare, lookup, attribute_of,
}
use ntu_csie_complier.SymbolTable.Refines.{
  enter_symbol-declare, remove_symbol-undeclare, open_scope-view, close_scope-view,
  retrieve_symbol-lookup,
}

module _ {A : Type 0} where
  -- What the compiler does to the table between two points of one scope.
  pub data Balanced : SymbolTable A → SymbolTable A → Type 0 where
    done : {t : SymbolTable A} → Balanced t t
    entered :
        {t t' : SymbolTable A} (name : String) (attribute : A)
        → Balanced t t'
        → Balanced t (enter_symbol name attribute t').1
    removed :
        {t t' : SymbolTable A} (name : String) → Balanced t t' → Balanced t (remove_symbol name t')
    block :
        {t t1 t2 t3 : SymbolTable A}
        → Balanced t t1
        → Balanced (open_scope t1) t2
        → close_scope t2 ≡ some t3
        → Balanced t t3

  pub append : {t t' t'' : SymbolTable A} → Balanced t t' → Balanced t' t'' → Balanced t t''
  append b done = b
  append b (entered name attribute c) = entered name attribute (append b c)
  append b (removed name c) = removed name (append b c)
  append b (block c inner e) = block (append b c) inner e

  pub outer-declare : (name : String) (a : A) (m : ScopedMap A) → outer (declare name a m) ≡ outer m
  outer-declare name a [] = refl
  outer-declare name a (scope ∷ rest) = ground arith

  outer-undeclare : (name : String) (m : ScopedMap A) → outer (undeclare name m) ≡ outer m
  outer-undeclare name [] = refl
  outer-undeclare name (scope ∷ rest) = refl

  -- The table stays valid, at its level, with the scopes around the innermost one as they were.
  pub record Kept (t t' : SymbolTable A) : Type 0 where
    pub valid : IsValid t'
    pub same_outer : outer (view t') ≡ outer (view t)
    pub same_level : t'.current_level ≡ t.current_level

  pub enter_symbol-level :
      (name : String) (a : A) (t : SymbolTable A)
      → (enter_symbol name a t).1.current_level ≡ t.current_level
  unfolding enter_symbol
  enter_symbol-level name a t = elim (Option-cases (find name (t.hash_table (hash name)))) [
    | inl e ↦ rw e
    | inr (x, e) ↦ rw e (ground arith)
  ]

  reenter_outer-level :
      (k : ℕ) (bs : List (Binding A)) (t : SymbolTable A)
      → (reenter_outer k bs t).current_level ≡ t.current_level
  unfolding reenter_outer
  reenter_outer-level k [] t = refl
  reenter_outer-level k (b ∷ bs) t = refl

  pub remove_symbol-level :
      (name : String) (t : SymbolTable A) → (remove_symbol name t).current_level ≡ t.current_level
  unfolding remove_symbol
  remove_symbol-level name t = elim (Option-cases (find name (t.hash_table (hash name)))) [
    | inl e ↦ rw e
    | inr (x, e) ↦ rw e (
        ground (
          arith,
          reenter_outer-level (hash name) x.same_name_in_outer_level
              (remove_from_hash_train (hash name) x t),
        ))
  ]

  -- A whole block, from `openScope` to `closeScope`, leaves every scope as it was.
  pub block-Kept :
      {t1 t2 t3 : SymbolTable A}
      → IsValid t1
      → Kept (open_scope t1) t2
      → close_scope t2 ≡ some t3
      → IsValid t3 × (view t3 ≡ view t1) × (t3.current_level ≡ t1.current_level)
  block-Kept {t1} {t2} {t3} v k e =
      let (_, opened, up) = open_scope-view t1 v in
      let (u, closed, v', is, level) =
        close_scope-view t1.current_level t2 k.valid (k.same_level ∙ up) in
      let same : u ≡ t3 = cc (closed, e) in
      let view_is : view u ≡ view t1 = is ∙ k.same_outer ∙ ap outer opened in
      (subst IsValid same v', rw (← same) view_is, rw (← same) level)

  -- Every sequence of operations with balanced scopes keeps a valid table valid, at its level, with the
  -- scopes around the innermost one as they were.
  pub Balanced-Kept : {t t' : SymbolTable A} → Balanced t t' → IsValid t → Kept t t'
  Balanced-Kept done v = record { valid = v; same_outer = refl; same_level = refl }
  Balanced-Kept (entered {t'} name a b) v =
      let k = Balanced-Kept b v in
      let (v', is, _) = enter_symbol-declare name a t' k.valid in
      record {
        valid = v';
        same_outer = ap outer is ∙ outer-declare name a (view t') ∙ k.same_outer;
        same_level = enter_symbol-level name a t' ∙ k.same_level;
      }
  Balanced-Kept (removed {t'} name b) v =
      let k = Balanced-Kept b v in
      let (v', is) = remove_symbol-undeclare name t' k.valid in
      record {
        valid = v';
        same_outer = ap outer is ∙ outer-undeclare name (view t') ∙ k.same_outer;
        same_level = remove_symbol-level name t' ∙ k.same_level;
      }
  Balanced-Kept (block {t1} b inner e) v =
      let k = Balanced-Kept b v in
      let (valid, same, level) =
        block-Kept k.valid (Balanced-Kept inner (open_scope-view t1 k.valid).0) e in
      record {
        valid = valid;
        same_outer = ap outer same ∙ k.same_outer;
        same_level = level ∙ k.same_level;
      }

  -- From a valid table, names mean after a block what they meant before it: whatever is declared,
  -- removed and nested in a scope that is opened and closed again, every lookup has the result
  -- that it had.
  pub block-retrieve :
      (t : SymbolTable A) {t1 t2 : SymbolTable A} (name : String)
      → IsValid t
      → Balanced (open_scope t) t1
      → close_scope t1 ≡ some t2
      → attribute_of (retrieve_symbol name t2) ≡ attribute_of (retrieve_symbol name t)
  block-retrieve t {t1} {t2} name v inner e =
      let (v2, same, _) = block-Kept v (Balanced-Kept inner (open_scope-view t v).0) e in
      retrieve_symbol-lookup name t2 v2
      ∙ ap (lookup name) same
      ∙ sym (retrieve_symbol-lookup name t v)

  -- A scope that is opened on a valid table can be closed after every sequence of operations with
  -- balanced scopes.
  pub close_scope_balanced :
      (t : SymbolTable A) {t1 : SymbolTable A}
      → IsValid t
      → Balanced (open_scope t) t1
      → (t2 : SymbolTable A) × (close_scope t1 ≡ some t2)
  close_scope_balanced t {t1} v inner =
      let (v', _, up) = open_scope-view t v in
      let k = Balanced-Kept inner v' in
      let (t2, closed, _, _, _) = close_scope-view t.current_level t1 k.valid (k.same_level ∙ up) in
      (t2, closed)

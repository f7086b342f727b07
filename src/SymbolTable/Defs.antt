-- ===== src/SymbolTable/Defs.antt =====
-- The data and the operations of src/symbolTable.c. A chain of entries is a list. An entry's
-- address is never compared: a hash chain holds a name at most once, so an entry is unlinked by it.
use ntu_csie_complier.Prelude.{
  ℕ, zero, suc, ◌*◌, Bool, true, false, String, Option, none, some, List, [], ◌∷◌, ◌++◌, str_eq,
  ◌==◌, if◌then◌else◌, get_elem?, set, replicate,
}
use ntu_csie_complier.SymbolTable.Hash.{hash}

-- What an entry holds besides its links.
pub record Binding (A : Type 0) : Type 0 where
  pub name : String
  pub attribute : A
  pub nesting_level : ℕ

-- `same_name_in_outer_level` is the chain of shadowed entries that this pointer leads to.
pub record SymbolTableEntry (A : Type 0) : Type 0 where
  pub binding : Binding A
  pub same_name_in_outer_level : List (Binding A)

pub record SymbolTable (A : Type 0) : Type 0 where
  pub hash_table : ℕ → List (SymbolTableEntry A)
  pub scope_display : List (List (SymbolTableEntry A))
  pub current_level : ℕ
  pub scope_display_element_count : ℕ

module _ {A : Type 0} where
  abbrev pub entry_name : SymbolTableEntry A → String
  entry_name e = e.binding.name

  -- The loops that walk a chain for a name.
  unfoldable pub find : String → List (SymbolTableEntry A) → Option (SymbolTableEntry A)
  find name [] = none
  find name (e ∷ chain) = if str_eq (entry_name e) name then some e else find name chain

  unfoldable pub unlink : String → List (SymbolTableEntry A) → List (SymbolTableEntry A)
  unlink name [] = []
  unlink name (e ∷ chain) = if str_eq (entry_name e) name then chain else e ∷ unlink name chain

  abbrev pub update :
      (ℕ → List (SymbolTableEntry A))
      → ℕ
      → List (SymbolTableEntry A)
      → ℕ
      → List (SymbolTableEntry A)
  update table k chain i = if i == k then chain else table i

  abbrev pub scope_at : List (List (SymbolTableEntry A)) → ℕ → List (SymbolTableEntry A)
  scope_at display level = elim (get_elem? display level) [ none ↦ [] | some scope ↦ scope ]

  unfoldable pub remove_from_hash_train : ℕ → SymbolTableEntry A → SymbolTable A → SymbolTable A
  unfolding unlink
  remove_from_hash_train hash_index e t = record t {
    hash_table = update t.hash_table hash_index (unlink (entry_name e) (t.hash_table hash_index));
  }

  unfoldable pub enter_into_hash_train : ℕ → SymbolTableEntry A → SymbolTable A → SymbolTable A
  enter_into_hash_train hash_index e t = record t {
    hash_table = update t.hash_table hash_index (e ∷ t.hash_table hash_index);
  }

  -- `if (entry->sameNameInOuterLevel) enterIntoHashTrain(...)`
  unfoldable pub reenter_outer : ℕ → List (Binding A) → SymbolTable A → SymbolTable A
  unfolding enter_into_hash_train
  reenter_outer hash_index [] t = t
  reenter_outer hash_index (b ∷ outer) t =
      enter_into_hash_train hash_index (record { binding = b; same_name_in_outer_level = outer }) t

  unfoldable pub retrieve_symbol : String → SymbolTable A → Option (SymbolTableEntry A)
  unfolding find
  retrieve_symbol name t = find name (t.hash_table (hash name))

  declared_at : ℕ → Option (SymbolTableEntry A) → Bool
  declared_at level none = false
  declared_at level (some e) = if e.binding.nesting_level == level then true else false

  unfoldable pub declared_locally : String → SymbolTable A → Bool
  unfolding find declared_at
  declared_locally name t = declared_at t.current_level (find name (t.hash_table (hash name)))

  -- The end of `enterSymbol`: into the hash chain and the scope's chain.
  unfoldable pub link_entry : SymbolTableEntry A → SymbolTable A → SymbolTable A
  unfolding enter_into_hash_train
  link_entry e t =
      let t' = enter_into_hash_train (hash (entry_name e)) e t in
      record t' {
        scope_display =
            set t'.scope_display t'.current_level (e ∷ scope_at t'.scope_display t'.current_level);
      }

  abbrev pub new_entry : String → A → ℕ → List (Binding A) → SymbolTableEntry A
  new_entry name attribute level outer = record {
    binding = record { name = name; attribute = attribute; nesting_level = level };
    same_name_in_outer_level = outer;
  }

  -- What `enterSymbol` does with the entry that its loop stops at. `none`: the name is already
  -- declared at this level, and nothing changes.
  unfoldable pub enter_over :
      String
      → A
      → SymbolTable A
      → Option (SymbolTableEntry A)
      → Option (SymbolTableEntry A) × SymbolTable A
  unfolding link_entry remove_from_hash_train
  enter_over name attribute t none =
      let e = new_entry name attribute t.current_level [] in (some e, link_entry e t)
  enter_over name attribute t (some old) =
      if old.binding.nesting_level == t.current_level
      then (none, t)
      else let e =
          new_entry name attribute t.current_level (old.binding ∷ old.same_name_in_outer_level) in
        (some e, link_entry e (remove_from_hash_train (hash name) old t))

  unfoldable pub enter_symbol :
      String → A → SymbolTable A → Option (SymbolTableEntry A) × SymbolTable A
  unfolding find enter_over
  enter_symbol name attribute t = enter_over name attribute t (find name (t.hash_table (hash name)))

  -- The second loop of `removeSymbol`.
  unfoldable pub unlink_scope : String → SymbolTable A → SymbolTable A
  unfolding unlink
  unlink_scope name t = record t {
    scope_display =
        set t.scope_display t.current_level
          (unlink name (scope_at t.scope_display t.current_level));
  }

  -- Both errors of `removeSymbol` print a message and leave the table as it is.
  unfoldable pub remove_found : String → SymbolTable A → Option (SymbolTableEntry A) → SymbolTable A
  unfolding remove_from_hash_train reenter_outer unlink_scope
  remove_found name t none = t
  remove_found name t (some e) =
      if e.binding.nesting_level == t.current_level
      then unlink_scope name (
          reenter_outer (hash name) e.same_name_in_outer_level
            (remove_from_hash_train (hash name) e t))
      else t

  unfoldable pub remove_symbol : String → SymbolTable A → SymbolTable A
  unfolding find remove_found
  remove_symbol name t = remove_found name t (find name (t.hash_table (hash name)))

  unfoldable pub open_scope : SymbolTable A → SymbolTable A
  open_scope t =
      let level = suc t.current_level in
      if level == t.scope_display_element_count
      then record t {
        current_level = level;
        scope_display =
            set (t.scope_display ++ replicate t.scope_display_element_count []) level [];
        scope_display_element_count = 2 * t.scope_display_element_count;
      }
      else record t { current_level = level; scope_display = set t.scope_display level [] }

  -- The loop of `closeScope` over the chain of the scope.
  unfoldable pub close_loop : List (SymbolTableEntry A) → SymbolTable A → SymbolTable A
  unfolding remove_from_hash_train reenter_outer
  close_loop [] t = t
  close_loop (e ∷ chain) t = close_loop chain (
      reenter_outer (hash (entry_name e)) e.same_name_in_outer_level
        (remove_from_hash_train (hash (entry_name e)) e t))

  -- `none`: closing level 0 leads to level -1, where `scopeDisplay[-1]` would be the next access.
  unfoldable pub close_level : ℕ → SymbolTable A → Option (SymbolTable A)
  unfolding close_loop
  close_level zero t = none
  close_level (suc level) t =
      let t' = close_loop (scope_at t.scope_display (suc level)) t in
      some
        (record t' { scope_display = set t'.scope_display (suc level) []; current_level = level })

  unfoldable pub close_scope : SymbolTable A → Option (SymbolTable A)
  unfolding close_level
  close_scope t = close_level t.current_level t

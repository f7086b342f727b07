-- ===== src/SymbolTable/Chains.antt =====
-- Taking an entry off a hash chain and putting one on, seen through `find`.
use ntu_csie_complier.Prelude.{
  ℕ, ◌≡◌, ◌∙◌, inl, inr, String, Option, none, some, List, [], ◌∷◌, arith, str_eq, str_eq_iff,
  if◌then◌else◌, Bool-cases,
}
use ntu_csie_complier.SymbolTable.Hash.{hash}
use ntu_csie_complier.SymbolTable.Defs.{
  SymbolTableEntry, SymbolTable, entry_name, find, unlink, remove_from_hash_train,
  enter_into_hash_train,
}
use ntu_csie_complier.SymbolTable.Scopes.{IsChain, Holds}

module _ {A : Type 0} where
  pub find-unlink :
      (name other : String) (chain : List (SymbolTableEntry A))
      → IsChain chain
      → find other (unlink name chain) ≡ (if str_eq name other then none else find other chain)
  unfolding find unlink
  find-unlink name other [] c = ground arith
  find-unlink name other (e ∷ chain) c = ground (
    arith,
    find-unlink name other chain,
    str_eq_iff name other,
    str_eq_iff (entry_name e) name,
    str_eq_iff (entry_name e) other,
  )

  pub unlink-IsChain :
      (name : String) (chain : List (SymbolTableEntry A))
      → IsChain chain
      → IsChain (unlink name chain)
  unfolding find unlink
  unlink-IsChain name [] c = tt
  unlink-IsChain name (e ∷ chain) c = elim (Bool-cases (str_eq (entry_name e) name)) [
    | inl hit ↦ rw hit c.1
    | inr miss ↦
        rw miss
          (ground (arith, find-unlink name (entry_name e) chain), unlink-IsChain name chain c.1)
  ]

  -- `removeFromHashTrain` of the entry of a name: the name is gone, the others stay.
  pub remove_from_hash_train-Holds :
      (e : SymbolTableEntry A) (t : SymbolTable A) (expected : String → Option (SymbolTableEntry A))
      → Holds t.hash_table expected
      → Holds
          (remove_from_hash_train (hash (entry_name e)) e t).hash_table
          (λ m. if str_eq (entry_name e) m then none else expected m)
  unfolding remove_from_hash_train
  remove_from_hash_train-Holds e t expected h = record {
    chains = λ k. ground (
      arith,
      h.chains k,
      h.chains (hash (entry_name e)),
      unlink-IsChain (entry_name e) (t.hash_table (hash (entry_name e))),
    );
    finds = λ m. ground (
      arith,
      h.finds m,
      h.chains (hash m),
      find-unlink (entry_name e) m (t.hash_table (hash m)),
      str_eq_iff (entry_name e) m,
    );
  }

  pub remove_named-Holds :
      (name : String) (e : SymbolTableEntry A) (t : SymbolTable A)
      (expected : String → Option (SymbolTableEntry A))
      → entry_name e ≡ name
      → Holds t.hash_table expected
      → Holds
          (remove_from_hash_train (hash name) e t).hash_table
          (λ m. if str_eq name m then none else expected m)
  remove_named-Holds name e t expected same h =
      rw (← same) (remove_from_hash_train-Holds e t expected h)

  -- `enterIntoHashTrain` of an entry whose name no chain holds.
  pub enter_into_hash_train-Holds :
      (e : SymbolTableEntry A) (t : SymbolTable A) (expected : String → Option (SymbolTableEntry A))
      → expected (entry_name e) ≡ none
      → Holds t.hash_table expected
      → Holds
          (enter_into_hash_train (hash (entry_name e)) e t).hash_table
          (λ m. if str_eq (entry_name e) m then some e else expected m)
  unfolding enter_into_hash_train find
  enter_into_hash_train-Holds e t expected new h = record {
    chains = λ k. ground (arith, h.chains k, h.finds (entry_name e));
    finds = λ m. ground (arith, h.finds m, str_eq_iff (entry_name e) m);
  }

  pub Holds-ext :
      {table : ℕ → List (SymbolTableEntry A)}
      (expected expected' : String → Option (SymbolTableEntry A))
      → ((m : String) → expected m ≡ expected' m)
      → Holds table expected
      → Holds table expected'
  Holds-ext expected expected' same h = record {
    chains = h.chains;
    finds = λ m. h.finds m ∙ same m;
  }

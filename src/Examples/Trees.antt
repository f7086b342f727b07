-- ===== src/Examples/Trees.antt =====
-- Trees that the model of src/parser.y builds.
use ntu_csie_complier.Prelude.{
  ℕ, true, false, Option, none, some, ◌||◌, [], ◌∷◌, ◌==◌, ◌≡◌, refl, arith,
}
use ntu_csie_complier.Types.{none_type}
use ntu_csie_complier.Parser.{Heap, AstType, allocate, make_sibling, make_child, make_family}
use ntu_csie_complier.Parser.Chains.{Linked}
use ntu_csie_complier.Parser.Joined.{SameElsewhere, make_sibling-Linked}
use ntu_csie_complier.Parser.Families.{Children, make_child-Children}

abbrev empty_heap : Heap
empty_heap = record {
  at = λ k. record {
    child = none;
    parent = none;
    right_sibling = none;
    leftmost_sibling = k;
    node_type = AstType.nul_node;
    data_type = none_type;
    linenumber = 0;
  };
  next = 1;
}

-- The nodes 1, 2 and 3.
abbrev one_more : AstType → Heap → Heap
one_more type h = (allocate type 1 h).1

abbrev three_nodes : Heap
three_nodes =
    one_more AstType.expr_node (one_more AstType.expr_node (one_more AstType.stmt_node empty_heap))

abbrev heap_or_empty : Option Heap → Heap
heap_or_empty none = empty_heap
heap_or_empty (some h) = h

abbrev family : Heap
family = heap_or_empty (make_family 3 1 2 (3 ∷ []) three_nodes)

-- The node 1 has the children 2 and 3.
family_is : Children family 1 (2 ∷ 3 ∷ [])
unfolding make_family allocate
family_is = (refl, (refl, refl, refl, (refl, refl, refl, tt)))

two_apart : (k : ℕ) → (k == 2 || false) ≡ true → (k == 3 || false) ≡ false
two_apart k h = ground (arith, h)

make_sibling-Linked_example :
    (h : Heap) × (make_sibling 1 2 (some 3) three_nodes ≡ some (3, h))
    × Linked h 2 none none (2 ∷ 3 ∷ [])
    × SameElsewhere (2 ∷ 3 ∷ []) three_nodes h
unfolding allocate
make_sibling-Linked_example =
    make_sibling-Linked three_nodes 2 none none [] 2 3 [] (refl, refl, refl, tt)
      (refl, refl, refl, tt) refl two_apart 1 2 3 [] [] refl refl (omega arith) (omega arith)

make_child-Children_example :
    (h : Heap) × (make_child 1 1 (some 2) three_nodes ≡ some h)
    × Children h 1 (2 ∷ [])
    × SameElsewhere (1 ∷ 2 ∷ []) three_nodes h
unfolding allocate
make_child-Children_example =
    make_child-Children three_nodes 1 2 2 [] none 1 (refl, refl, refl, tt) refl refl refl
      (omega arith)

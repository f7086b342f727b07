-- ===== src/Parser.antt =====
-- The nodes of the tree as objects with pointers: `AST_NODE` of src/header.h, `Allocate` of src/alloc.c,
-- and `makeSibling`, `makeChild` and `makeFamily` of src/parser.y.
pub mod Chains
pub mod Joined
pub mod Families
use ntu_csie_complier.Prelude.{
  ℕ, zero, suc, Bool, true, false, Option, none, some, List, [], ◌∷◌, ◌==◌, if◌then◌else◌,
}
use ntu_csie_complier.Types.{DataType, none_type}

pub data AstType : Type 0 where
  program_node declaration_node identifier_node param_list_node nul_node block_node
        variable_decl_list_node stmt_list_node stmt_node expr_node const_value_node
        nonempty_assign_expr_list_node nonempty_relop_expr_list_node :
      AstType

-- A node is known by its number, in place of its address; `none` is NULL.
pub record AstNode : Type 0 where
  pub child : Option ℕ
  pub parent : Option ℕ
  pub right_sibling : Option ℕ
  pub leftmost_sibling : ℕ
  pub node_type : AstType
  pub data_type : DataType
  pub linenumber : ℕ

-- The nodes that there are, with the address of the next one that `malloc` gives.
pub record Heap : Type 0 where
  pub at : ℕ → AstNode
  pub next : ℕ

unfoldable pub set_node : ℕ → AstNode → Heap → Heap
set_node n x h = record h { at = λ k. if k == n then x else h.at k }

-- `Allocate`
unfoldable pub allocate : AstType → ℕ → Heap → ℕ × Heap
unfolding set_node
allocate type line h = (
  h.next,
  record (set_node h.next
      (record {
        child = none;
        parent = none;
        right_sibling = none;
        leftmost_sibling = h.next;
        node_type = type;
        data_type = none_type;
        linenumber = line;
      })
      h) { next = suc h.next },
)

-- The loops follow `rightSibling`; they have no result if there are more siblings than fuel.
abbrev pub step_right : (ℕ → Option ℕ) → ℕ → Option ℕ → Option ℕ
step_right rest n none = some n
step_right rest n (some m) = rest m

-- The first loop of `makeSibling`.
unfoldable pub last_sibling : ℕ → Heap → ℕ → Option ℕ
last_sibling zero h n = none
last_sibling (suc fuel) h n = step_right (last_sibling fuel h) n (h.at n).right_sibling

-- The node `b` becomes a sibling of `a`.
abbrev pub adopted : AstNode → AstNode → AstNode
adopted a b = record b { leftmost_sibling = a.leftmost_sibling; parent = a.parent }

unfoldable pub adopt : ℕ → ℕ → Heap → Heap
unfolding set_node
adopt a b h = set_node b (adopted (h.at a) (h.at b)) h

abbrev pub step_on : (ℕ → Heap → Option (ℕ × Heap)) → ℕ → Heap → Option ℕ → Option (ℕ × Heap)
step_on rest n h none = some (n, h)
step_on rest n h (some m) = rest m h

-- The second loop of `makeSibling`, with the step before it.
unfoldable pub adopt_all : ℕ → ℕ → ℕ → Heap → Option (ℕ × Heap)
unfolding adopt
adopt_all zero a b h = none
adopt_all (suc fuel) a b h =
    let h' = adopt a b h in step_on (adopt_all fuel a) b h' (h'.at b).right_sibling

unfoldable pub link : ℕ → ℕ → Heap → Heap
unfolding set_node
link a b h = set_node a (record (h.at a) { right_sibling = some b }) h

-- `makeSibling` behind its first loop.
unfoldable pub join : ℕ → ℕ → Option ℕ → Heap → Option (ℕ × Heap)
unfolding link adopt_all
join fuel a none h = some (a, h)
join fuel a (some b) h =
    let first = (h.at b).leftmost_sibling in adopt_all fuel a first (link a first h)

abbrev pub join_at : ℕ → Option ℕ → Option ℕ → Heap → Option (ℕ × Heap)
join_at fuel none b h = none
join_at fuel (some a) b h = join fuel a b h

unfoldable pub make_sibling : ℕ → ℕ → Option ℕ → Heap → Option (ℕ × Heap)
unfolding last_sibling join
make_sibling fuel a b h = join_at fuel (last_sibling fuel h a) b h

-- The loop of `makeChild`.
unfoldable pub set_parent : ℕ → ℕ → Heap → Heap
unfolding set_node
set_parent p n h = set_node n (record (h.at n) { parent = some p }) h

abbrev pub step_heap : (ℕ → Heap → Option Heap) → Heap → Option ℕ → Option Heap
step_heap rest h none = some h
step_heap rest h (some m) = rest m h

unfoldable pub set_parents : ℕ → ℕ → ℕ → Heap → Option Heap
unfolding set_parent
set_parents zero p n h = none
set_parents (suc fuel) p n h =
    let h' = set_parent p n h in step_heap (set_parents fuel p) h' (h'.at n).right_sibling

unfoldable pub set_child : ℕ → ℕ → Heap → Heap
unfolding set_node
set_child p n h = set_node p (record (h.at p) { child = some n }) h

abbrev pub heap_of : Option (ℕ × Heap) → Option Heap
heap_of none = none
heap_of (some (n, h)) = some h

-- `makeChild` of a node with children, and of one without.
abbrev pub add_child : ℕ → ℕ → ℕ → Heap → Option ℕ → Option Heap
add_child fuel p n h (some c) = heap_of (make_sibling fuel c (some n) h)
add_child fuel p n h none =
    let first = (h.at n).leftmost_sibling in set_parents fuel p first (set_child p first h)

unfoldable pub make_child : ℕ → ℕ → Option ℕ → Heap → Option Heap
unfolding make_sibling set_parents set_child
make_child fuel p none h = some h
make_child fuel p (some n) h = add_child fuel p n h (h.at p).child

-- The loop of `makeFamily`.
abbrev pub then_siblings : (ℕ → Heap → Option Heap) → Option (ℕ × Heap) → Option Heap
then_siblings rest none = none
then_siblings rest (some (tmp, h)) = rest tmp h

unfoldable pub make_siblings : ℕ → List ℕ → ℕ → Heap → Option Heap
unfolding make_sibling
make_siblings fuel [] tmp h = some h
make_siblings fuel (n ∷ ns) tmp h =
    then_siblings (make_siblings fuel ns) (make_sibling fuel tmp (some n) h)

abbrev pub then_heap : (Heap → Option Heap) → Option Heap → Option Heap
then_heap rest none = none
then_heap rest (some h) = rest h

unfoldable pub make_family : ℕ → ℕ → ℕ → List ℕ → Heap → Option Heap
unfolding make_child make_siblings
make_family fuel p n ns h = then_heap (make_siblings fuel ns n) (make_child fuel p (some n) h)

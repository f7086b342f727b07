-- ===== src/Parser/Families.antt =====
-- What `makeChild` of src/parser.y does to a node without children.
use ntu_csie_complier.Prelude.{
  ℕ, zero, suc, ◌≤◌, ◌<◌, Bool, true, false, Option, none, some, List, [], ◌∷◌, ◌==◌, ==_iff, has,
  length, Bool-cases, inl, inr, if◌then◌else◌, ◌≡◌, refl, ap, subst, ◌∙◌, arith, ◌||◌,
}
use ntu_csie_complier.Parser.{
  AstNode, Heap, set_node, set_parent, set_parents, set_child, step_heap, add_child, make_child,
}
use ntu_csie_complier.Parser.Chains.{Linked, Follows, Linked-Follows, Linked-leftmost}
use ntu_csie_complier.Parser.Joined.{changed, Follows-agree, SameElsewhere}

-- The nodes of the list are the children of the node.
abbrev pub Children : Heap → ℕ → List ℕ → Type 0
Children h p [] = (h.at p).child ≡ none
Children h p (x ∷ xs) = ((h.at p).child ≡ some x) × Linked h x (some p) none (x ∷ xs)

abbrev with_parent : ℕ → AstNode → AstNode
with_parent p n = record n { parent = some p }

set_parent-at :
    (p n k : ℕ) (h : Heap)
    → (set_parent p n h).at k ≡ (if k == n then with_parent p (h.at k) else h.at k)
unfolding set_parent set_node
set_parent-at p n k h = changed (with_parent p) h n k

set_parent-right :
    (p n k : ℕ) (h : Heap) → ((set_parent p n h).at k).right_sibling ≡ (h.at k).right_sibling
set_parent-right p n k h = ap (λ x. x.right_sibling) (set_parent-at p n k h) ∙ of_choice (k == n)
  where
    of_choice :
        (c : Bool)
        → (if c then with_parent p (h.at k) else h.at k).right_sibling ≡ (h.at k).right_sibling
    of_choice true = refl
    of_choice false = refl

Follows-set_parent :
    (p n : ℕ) (h : Heap) (e : Option ℕ) (xs : List ℕ)
    → Follows h e xs
    → Follows (set_parent p n h) e xs
Follows-set_parent p n h e [] f = tt
Follows-set_parent p n h e (x ∷ xs) f =
    (set_parent-right p n x h ∙ f.0, Follows-set_parent p n h e xs f.1)

twice :
    (c d : Bool) (p : ℕ) (n : AstNode)
    → (if d
        then with_parent p (if c then with_parent p n else n)
        else if c
        then with_parent p n
        else n)
      ≡ (if c || d then with_parent p n else n)
twice true true p n = refl
twice true false p n = refl
twice false true p n = refl
twice false false p n = refl

-- All nodes of the list have the parent, and no other one changes.
abbrev Parented : ℕ → List ℕ → Heap → Heap → Type 0
Parented p ys h h' = (k : ℕ) → h'.at k ≡ (if has k ys then with_parent p (h.at k) else h.at k)

set_parents-Parented :
    (fuel p y : ℕ) (ys : List ℕ) (h : Heap)
    → length ys < fuel
    → Follows h none (y ∷ ys)
    → (h' : Heap) × (set_parents fuel p y h ≡ some h') × Parented p (y ∷ ys) h h'
unfolding set_parents
set_parents-Parented zero p y ys h lt f = ground (arith, lt)
set_parents-Parented (suc fuel) p y [] h lt f = (
  set_parent p y h,
  ap (step_heap (set_parents fuel p) (set_parent p y h)) (set_parent-right p y y h ∙ f.0),
  λ k. set_parent-at p y k h ∙ twice (k == y) false p (h.at k),
)
set_parents-Parented (suc fuel) p y (x ∷ ys) h lt f =
    let h1 = set_parent p y h in
    let (h', e, same) =
      set_parents-Parented fuel p x ys h1 (omega arith)
        (Follows-set_parent p y h none (x ∷ ys) f.1) in
    (
      h',
      ap (step_heap (set_parents fuel p) h1) (set_parent-right p y y h ∙ f.0) ∙ e,
      λ k.
          same k
          ∙ ap (λ n. if has k (x ∷ ys) then with_parent p n else n) (set_parent-at p y k h)
          ∙ twice (k == y) (has k (x ∷ ys)) p (h.at k),
    )

Linked-parented :
    (h h' : Heap) (first p : ℕ) (q e : Option ℕ) (xs : List ℕ)
    → ((k : ℕ) → has k xs ≡ true → h'.at k ≡ with_parent p (h.at k))
    → Linked h first q e xs
    → Linked h' first (some p) e xs
Linked-parented h h' first p q e [] same l = tt
Linked-parented h h' first p q e (x ∷ xs) same l =
    let s = same x (ground arith) in
    (
      ap (λ n. n.right_sibling) s ∙ l.0,
      ap (λ n. n.leftmost_sibling) s ∙ l.1,
      ap (λ n. n.parent) s,
      Linked-parented h h' first p q e xs (λ k t. same k (ground (arith, t))) l.3,
    )

set_child-at :
    (p n k : ℕ) (h : Heap)
    → (set_child p n h).at k ≡ (if k == p then record (h.at k) { child = some n } else h.at k)
unfolding set_child set_node
set_child-at p n k h = changed (λ x. record x { child = some n }) h p k

set_child-other : (p n k : ℕ) (h : Heap) → (k == p) ≡ false → (set_child p n h).at k ≡ h.at k
set_child-other p n k h e =
    set_child-at p n k h
    ∙ ap (λ (c : Bool). if c then record (h.at k) { child = some n } else h.at k) e

set_child-same : (p n : ℕ) (h : Heap) → (set_child p n h).at p ≡ record (h.at p) { child = some n }
set_child-same p n h =
    let same : (p == p) ≡ true = ground arith in
    set_child-at p n p h
    ∙ ap (λ (c : Bool). if c then record (h.at p) { child = some n } else h.at p) same

-- For a list of siblings that the parent is not in, a node `b` of the list, a parent without children,
-- and a step of fuel for each node of the list, `makeChild` of the parent and `b` has a result: the
-- nodes of the list are the children of the parent, in their order, and no node but these and the
-- parent has changed.
pub make_child-Children :
    (h : Heap) (p b y : ℕ) (ys : List ℕ) (q : Option ℕ) (fuel : ℕ)
    → Linked h y q none (y ∷ ys)
    → has b (y ∷ ys) ≡ true
    → has p (y ∷ ys) ≡ false
    → Children h p []
    → length (y ∷ ys) ≤ fuel
    → (h' : Heap) × (make_child fuel p (some b) h ≡ some h')
      × Children h' p (y ∷ ys)
      × SameElsewhere (p ∷ y ∷ ys) h h'
unfolding make_child
make_child-Children h p b y ys q fuel l t out no_child le =
    let h1 = set_child p y h in
    let other = λ (k : ℕ) (t : has k (y ∷ ys) ≡ true). not_parent k t in
    let unchanged = λ (k : ℕ) (t : has k (y ∷ ys) ≡ true). set_child-other p y k h (other k t) in
    let f = Follows-agree h h1 none (y ∷ ys) unchanged (Linked-Follows h y q none (y ∷ ys) l) in
    let (h', e, same) = set_parents-Parented fuel p y ys h1 (omega arith) f in
    let at_in = λ (k : ℕ) (t : has k (y ∷ ys) ≡ true).
      same k
      ∙ ap (λ (c : Bool). if c then with_parent p (h1.at k) else h1.at k) t
      ∙ ap (with_parent p) (unchanged k t) in
    let at_out = λ (k : ℕ) (t : has k (y ∷ ys) ≡ false).
      same k ∙ ap (λ (c : Bool). if c then with_parent p (h1.at k) else h1.at k) t in
    (
      h',
      ap (add_child fuel p b h) no_child
          ∙ ap (λ n. set_parents fuel p n (set_child p n h))
              (Linked-leftmost h y q none (y ∷ ys) b l t)
          ∙ e,
      (
        ap (λ n. n.child) (at_out p out ∙ set_child-same p y h),
        Linked-parented h h' y p q none (y ∷ ys) at_in l,
      ),
      λ k o. at_out k (ground (arith, o)) ∙ set_child-other p y k h (ground (arith, o)),
    )
  where
    not_parent : (k : ℕ) → has k (y ∷ ys) ≡ true → (k == p) ≡ false
    not_parent k t = elim (Bool-cases (k == p)) [
      | inl e ↦
          let h : has p (y ∷ ys) ≡ true = subst (λ n. has n (y ∷ ys) ≡ true) ((==_iff k p).0 e) t in
          ground (arith, h, out)
      | inr n ↦ n
    ]

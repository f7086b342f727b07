-- ===== src/Parser/Joined.antt =====
-- What `makeSibling` of src/parser.y does to the lists of siblings.
use ntu_csie_complier.Prelude.{
  ℕ, zero, suc, ◌≤◌, ◌<◌, Bool, true, false, Option, none, some, List, [], ◌∷◌, ◌++◌, ◌==◌, ==_iff,
  has, length, Bool-cases, inl, inr, if◌then◌else◌, ◌≡◌, refl, ap, sym, subst, ◌∙◌, arith, ◌||◌,
}
use ntu_csie_complier.Parser.{
  AstNode, Heap, set_node, adopted, adopt, adopt_all, step_on, link, join, join_at, make_sibling,
}
use ntu_csie_complier.Parser.Chains.{
  last_or, Linked, Follows, Linked-Follows, Follows-suffix, last_sibling-last_or, Linked-agree,
  Linked-append, Linked-prefix, Linked-leftmost, last_or-append, Linked-suffix,
}

-- A change of one node, seen at any node.
pub changed :
    (f : AstNode → AstNode) (h : Heap) (b k : ℕ)
    → (if k == b then f (h.at b) else h.at k) ≡ (if k == b then f (h.at k) else h.at k)
changed f h b k = elim (Bool-cases (k == b)) [
  | inl e ↦ ap (λ n. if k == b then f (h.at n) else h.at k) (sym ((==_iff k b).0 e))
  | inr e ↦
      ap (λ (c : Bool). if c then f (h.at b) else h.at k) e
      ∙ sym (ap (λ (c : Bool). if c then f (h.at k) else h.at k) e)
]

adopt-at :
    (a b k : ℕ) (h : Heap)
    → (adopt a b h).at k ≡ (if k == b then adopted (h.at a) (h.at k) else h.at k)
unfolding adopt set_node
adopt-at a b k h = changed (adopted (h.at a)) h b k

adopt-right : (a b k : ℕ) (h : Heap) → ((adopt a b h).at k).right_sibling ≡ (h.at k).right_sibling
adopt-right a b k h = ap (λ n. n.right_sibling) (adopt-at a b k h) ∙ of_choice (k == b)
  where
    of_choice :
        (c : Bool)
        → (if c then adopted (h.at a) (h.at k) else h.at k).right_sibling ≡ (h.at k).right_sibling
    of_choice true = refl
    of_choice false = refl

Follows-adopt :
    (a b : ℕ) (h : Heap) (e : Option ℕ) (xs : List ℕ) → Follows h e xs → Follows (adopt a b h) e xs
Follows-adopt a b h e [] f = tt
Follows-adopt a b h e (x ∷ xs) f = (adopt-right a b x h ∙ f.0, Follows-adopt a b h e xs f.1)

-- Adopting a node twice changes nothing.
twice :
    (c d : Bool) (a n : AstNode)
    → (if d then adopted a (if c then adopted a n else n) else if c then adopted a n else n)
      ≡ (if c || d then adopted a n else n)
twice true true a n = refl
twice true false a n = refl
twice false true a n = refl
twice false false a n = refl

-- All nodes of the list are adopted by `a`, and no other one changes.
abbrev Adopted : ℕ → List ℕ → Heap → Heap → Type 0
Adopted a ys h h' = (k : ℕ) → h'.at k ≡ (if has k ys then adopted (h.at a) (h.at k) else h.at k)

adopt_all-Adopted :
    (fuel a y : ℕ) (ys : List ℕ) (h : Heap)
    → length ys < fuel
    → Follows h none (y ∷ ys)
    → has a (y ∷ ys) ≡ false
    → (h' : Heap) × (adopt_all fuel a y h ≡ some (last_or y ys, h')) × Adopted a (y ∷ ys) h h'
unfolding adopt_all
adopt_all-Adopted zero a y ys h lt f out = ground (arith, lt)
adopt_all-Adopted (suc fuel) a y [] h lt f out = (
  adopt a y h,
  ap (step_on (adopt_all fuel a) y (adopt a y h)) (adopt-right a y y h ∙ f.0),
  λ k. adopt-at a y k h ∙ twice (k == y) false (h.at a) (h.at k),
)
adopt_all-Adopted (suc fuel) a y (x ∷ ys) h lt f out =
    let h1 = adopt a y h in
    let other : (a == y) ≡ false = ground (arith, out) in
    let rest : has a (x ∷ ys) ≡ false = ground (arith, out) in
    let (h', e, same) =
      adopt_all-Adopted fuel a x ys h1 (omega arith) (Follows-adopt a y h none (x ∷ ys) f.1) rest in
    let of_a : h1.at a ≡ h.at a =
      adopt-at a y a h ∙ ap (λ (c : Bool). if c then adopted (h.at a) (h.at a) else h.at a) other in
    (
      h',
      ap (step_on (adopt_all fuel a) y h1) (adopt-right a y y h ∙ f.0) ∙ e,
      λ k.
          same k
          ∙ ap (λ n. if has k (x ∷ ys) then adopted n (h1.at k) else h1.at k) of_a
          ∙ ap (λ n. if has k (x ∷ ys) then adopted (h.at a) n else n) (adopt-at a y k h)
          ∙ twice (k == y) (has k (x ∷ ys)) (h.at a) (h.at k),
    )

link-at :
    (a b k : ℕ) (h : Heap)
    → (link a b h).at k ≡ (if k == a then record (h.at k) { right_sibling = some b } else h.at k)
unfolding link set_node
link-at a b k h = changed (λ n. record n { right_sibling = some b }) h a k

link-other : (a b k : ℕ) (h : Heap) → (k == a) ≡ false → (link a b h).at k ≡ h.at k
link-other a b k h n =
    link-at a b k h
    ∙ ap (λ (c : Bool). if c then record (h.at k) { right_sibling = some b } else h.at k) n

link-same : (a b : ℕ) (h : Heap) → (link a b h).at a ≡ record (h.at a) { right_sibling = some b }
link-same a b h =
    let same : (a == a) ≡ true = ground arith in
    link-at a b a h
    ∙ ap (λ (c : Bool). if c then record (h.at a) { right_sibling = some b } else h.at a) same

pub Follows-agree :
    (h h' : Heap) (e : Option ℕ) (xs : List ℕ)
    → ((k : ℕ) → has k xs ≡ true → h'.at k ≡ h.at k)
    → Follows h e xs
    → Follows h' e xs
Follows-agree h h' e [] same f = tt
Follows-agree h h' e (x ∷ xs) same f = (
  ap (λ n. n.right_sibling) (same x (ground arith)) ∙ f.0,
  Follows-agree h h' e xs (λ k t. same k (ground (arith, t))) f.1,
)

-- Adopted nodes are siblings under the parent of the node that adopts them.
Linked-adopted :
    (h h' : Heap) (a : AstNode) (e : Option ℕ) (xs : List ℕ)
    → ((k : ℕ) → has k xs ≡ true → h'.at k ≡ adopted a (h.at k))
    → Follows h e xs
    → Linked h' a.leftmost_sibling a.parent e xs
Linked-adopted h h' a e [] same f = tt
Linked-adopted h h' a e (x ∷ xs) same f =
    let s = same x (ground arith) in
    (
      ap (λ n. n.right_sibling) s ∙ f.0,
      ap (λ n. n.leftmost_sibling) s,
      ap (λ n. n.parent) s,
      Linked-adopted h h' a e xs (λ k t. same k (ground (arith, t))) f.1,
    )

has-append : (k : ℕ) (xs ys : List ℕ) → has k (xs ++ ys) ≡ (has k xs || has k ys)
has-append k [] ys = refl
has-append k (x ∷ xs) ys = let e = has-append k xs ys in ground (arith, e)

-- The nodes outside a list are as before.
abbrev pub SameElsewhere : List ℕ → Heap → Heap → Type 0
SameElsewhere xs h h' = (k : ℕ) → has k xs ≡ false → h'.at k ≡ h.at k

-- Two lists of siblings.
module _ (h : Heap) (first : ℕ) (p q : Option ℕ) (ws : List ℕ) (z y : ℕ) (ys : List ℕ)
    (l : Linked h first p none (ws ++ z ∷ [])) (l' : Linked h y q none (y ∷ ys))
    (once : has z ws ≡ false)
    (apart : (k : ℕ) → has k (ws ++ z ∷ []) ≡ true → has k (y ∷ ys) ≡ false) where
  z_apart : has z (y ∷ ys) ≡ false
  z_apart = apart z (let e = has-append z ws (z ∷ []) in ground (arith, e))

  not_last : (k : ℕ) → has k (y ∷ ys) ≡ true → (k == z) ≡ false
  not_last k t = elim (Bool-cases (k == z)) [
    | inl e ↦
        let h : has z (y ∷ ys) ≡ true = subst (λ n. has n (y ∷ ys) ≡ true) ((==_iff k z).0 e) t in
        ground (arith, h, z_apart)
    | inr n ↦ n
  ]

  joined :
      (fuel : ℕ)
      → length (y ∷ ys) ≤ fuel
      → (h' : Heap) × (adopt_all fuel z y (link z y h) ≡ some (last_or y ys, h'))
        × Adopted z (y ∷ ys) (link z y h) h'
  joined fuel le =
      adopt_all-Adopted fuel z y ys (link z y h) (omega arith)
        (Follows-agree h (link z y h) none (y ∷ ys) (λ k t. link-other z y k h (not_last k t))
          (Linked-Follows h y q none (y ∷ ys) l'))
        z_apart

  module _ (h' : Heap) (same : Adopted z (y ∷ ys) (link z y h) h') where
    untouched : (k : ℕ) → has k (y ∷ ys) ≡ false → (k == z) ≡ false → h'.at k ≡ h.at k
    untouched k out n =
        same k
        ∙ ap
            (λ (c : Bool).
              if c then adopted ((link z y h).at z) ((link z y h).at k) else (link z y h).at k)
            out
        ∙ link-other z y k h n

    of_last : h'.at z ≡ record (h.at z) { right_sibling = some y }
    of_last =
        same z
        ∙ ap
            (λ (c : Bool).
              if c then adopted ((link z y h).at z) ((link z y h).at z) else (link z y h).at z)
            z_apart
        ∙ link-same z y h

    of_new : (k : ℕ) → has k (y ∷ ys) ≡ true → h'.at k ≡ adopted (h.at z) (h.at k)
    of_new k t =
        same k
        ∙ ap
            (λ (c : Bool).
              if c then adopted ((link z y h).at z) ((link z y h).at k) else (link z y h).at k)
            t
        ∙ ap (λ a. adopted a ((link z y h).at k)) (link-same z y h)
        ∙ ap (λ n. adopted (h.at z) n) (link-other z y k h (not_last k t))

    abbrev of_z : Linked h first p none (z ∷ [])
    of_z = Linked-suffix h first p none ws (z ∷ []) l

    behind-Linked : Linked h' first p none (y ∷ ys)
    behind-Linked =
        subst (λ f. Linked h' f p none (y ∷ ys)) of_z.1
          (subst (λ r. Linked h' (h.at z).leftmost_sibling r none (y ∷ ys)) of_z.2
            (Linked-adopted h h' (h.at z) none (y ∷ ys) of_new
              (Linked-Follows h y q none (y ∷ ys) l')))

    of_old : (k : ℕ) → has k ws ≡ true → h'.at k ≡ h.at k
    of_old k t =
        let e = has-append k ws (z ∷ []) in
        untouched k (apart k (ground (arith, t, e))) (elim (Bool-cases (k == z)) [
          | inl y ↦
              let w : has z ws ≡ true = subst (λ n. has n ws ≡ true) ((==_iff k z).0 y) t in
              ground (arith, w, once)
          | inr n ↦ n
        ])

    before-Linked : Linked h' first p (some y) (ws ++ z ∷ [])
    before-Linked =
        Linked-append h' first p (some y) ws (z ∷ [])
          (Linked-agree h h' first p (some z) ws of_old
            (Linked-prefix h first p none ws (z ∷ []) l))
          (
            ap (λ n. n.right_sibling) of_last,
            (ap (λ n. n.leftmost_sibling) of_last ∙ of_z.1),
            (ap (λ n. n.parent) of_last ∙ of_z.2),
            tt,
          )

    joined-Linked : Linked h' first p none ((ws ++ z ∷ []) ++ y ∷ ys)
    joined-Linked =
        Linked-append h' first p none (ws ++ z ∷ []) (y ∷ ys) before-Linked behind-Linked

    joined-Same : SameElsewhere ((ws ++ z ∷ []) ++ y ∷ ys) h h'
    joined-Same k out =
        let e = has-append k (ws ++ z ∷ []) (y ∷ ys) in
        let e' = has-append k ws (z ∷ []) in
        untouched k (ground (arith, out, e)) (ground (arith, out, e, e'))

  -- Two lists of siblings in the heap share no node, the last node of the first occurs in it once, `a`
  -- is in the first and `b` in the second, and there is a step of fuel for each node behind `a` and one
  -- more, and for each node of the second. `makeSibling` of `a` and `b` then has a result: it comes to
  -- the last node of the second, makes one list of the two, with the leftmost sibling and the parent of
  -- the first, and changes no other node.
  pub make_sibling-Linked :
      (fuel a b : ℕ) (us vs : List ℕ)
      → us ++ a ∷ vs ≡ ws ++ z ∷ []
      → has b (y ∷ ys) ≡ true
      → length vs < fuel
      → length (y ∷ ys) ≤ fuel
      → (h' : Heap) × (make_sibling fuel a (some b) h ≡ some (last_or y ys, h'))
        × Linked h' first p none ((ws ++ z ∷ []) ++ y ∷ ys)
        × SameElsewhere ((ws ++ z ∷ []) ++ y ∷ ys) h h'
  unfolding make_sibling join
  make_sibling-Linked fuel a b us vs e t lt le =
      let f = Linked-Follows h first p none (ws ++ z ∷ []) l in
      let f' = Follows-suffix h none us (a ∷ vs) (subst (Follows h none) (sym e) f) in
      let last =
        last_sibling-last_or fuel h a vs lt f' ∙ ap (λ n. some n) (last_or-append us a vs ws z e) in
      let (h', run, same) = joined fuel le in
      (
        h',
        ap (λ o. join_at fuel o (some b) h) last
            ∙ ap (λ n. adopt_all fuel z n (link z n h)) (Linked-leftmost h y q none (y ∷ ys) b l' t)
            ∙ run,
        joined-Linked h' same,
        joined-Same h' same,
      )

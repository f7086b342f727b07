-- ===== src/Parser/Chains.antt =====
-- Lists of siblings in the heap (src/parser.y).
use ntu_csie_complier.Prelude.{
  ℕ, zero, suc, ◌<◌, true, Option, none, some, List, [], ◌∷◌, ◌++◌, ◌==◌, has, length, ◌≡◌, refl,
  ap, sym, ◌∙◌, arith, some-injective, Bool-cases, inl, ==_iff, inr,
}
use ntu_csie_complier.Parser.{Heap, last_sibling, step_right}

-- The first node of a list, or the node behind it.
abbrev pub first_or : List ℕ → Option ℕ → Option ℕ
first_or [] e = e
first_or (x ∷ xs) e = some x

-- The last node of a list that begins with a node.
abbrev pub last_or : ℕ → List ℕ → ℕ
last_or x [] = x
last_or x (y ∷ ys) = last_or y ys

-- The nodes of the list are siblings in this order, up to the node `e`, with the leftmost sibling
-- `first` and the parent `p`.
abbrev pub Linked : Heap → ℕ → Option ℕ → Option ℕ → List ℕ → Type 0
Linked h first p e [] = Unit
Linked h first p e (x ∷ xs) =
    ((h.at x).right_sibling ≡ first_or xs e)
    × ((h.at x).leftmost_sibling ≡ first)
    × ((h.at x).parent ≡ p)
    × Linked h first p e xs

-- Each node of the list is linked to the next one.
abbrev pub Follows : Heap → Option ℕ → List ℕ → Type 0
Follows h e [] = Unit
Follows h e (x ∷ xs) = ((h.at x).right_sibling ≡ first_or xs e) × Follows h e xs

pub Linked-Follows :
    (h : Heap) (first : ℕ) (p e : Option ℕ) (xs : List ℕ) → Linked h first p e xs → Follows h e xs
Linked-Follows h first p e [] l = tt
Linked-Follows h first p e (x ∷ xs) l = (l.0, Linked-Follows h first p e xs l.3)

pub Follows-suffix :
    (h : Heap) (e : Option ℕ) (us xs : List ℕ) → Follows h e (us ++ xs) → Follows h e xs
Follows-suffix h e [] xs f = f
Follows-suffix h e (u ∷ us) xs f = Follows-suffix h e us xs f.1

-- The first loop of `makeSibling` comes to the last sibling.
pub last_sibling-last_or :
    (fuel : ℕ) (h : Heap) (x : ℕ) (xs : List ℕ)
    → length xs < fuel
    → Follows h none (x ∷ xs)
    → last_sibling fuel h x ≡ some (last_or x xs)
unfolding last_sibling
last_sibling-last_or zero h x xs lt f = ground (arith, lt)
last_sibling-last_or (suc fuel) h x [] lt f = ap (step_right (last_sibling fuel h) x) f.0
last_sibling-last_or (suc fuel) h x (y ∷ xs) lt f =
    ap (step_right (last_sibling fuel h) x) f.0 ∙ last_sibling-last_or fuel h y xs (omega arith) f.1

-- What holds of a node in the list, and of no other.
pub Linked-agree :
    (h h' : Heap) (first : ℕ) (p e : Option ℕ) (xs : List ℕ)
    → ((k : ℕ) → has k xs ≡ true → h'.at k ≡ h.at k)
    → Linked h first p e xs
    → Linked h' first p e xs
Linked-agree h h' first p e [] same l = tt
Linked-agree h h' first p e (x ∷ xs) same l =
    let s = same x (ground arith) in
    (
      ap (λ n. n.right_sibling) s ∙ l.0,
      ap (λ n. n.leftmost_sibling) s ∙ l.1,
      ap (λ n. n.parent) s ∙ l.2,
      Linked-agree h h' first p e xs (λ k t. same k (ground (arith, t))) l.3,
    )

first_or-append :
    (xs ys : List ℕ) (e : Option ℕ) → first_or xs (first_or ys e) ≡ first_or (xs ++ ys) e
first_or-append [] ys e = refl
first_or-append (x ∷ xs) ys e = refl

pub Linked-append :
    (h : Heap) (first : ℕ) (p e : Option ℕ) (xs ys : List ℕ)
    → Linked h first p (first_or ys e) xs
    → Linked h first p e ys
    → Linked h first p e (xs ++ ys)
Linked-append h first p e [] ys l l' = l'
Linked-append h first p e (x ∷ xs) ys l l' =
    (l.0 ∙ first_or-append xs ys e, l.1, l.2, Linked-append h first p e xs ys l.3 l')

pub Linked-prefix :
    (h : Heap) (first : ℕ) (p e : Option ℕ) (xs ys : List ℕ)
    → Linked h first p e (xs ++ ys)
    → Linked h first p (first_or ys e) xs
Linked-prefix h first p e [] ys l = tt
Linked-prefix h first p e (x ∷ xs) ys l =
    (l.0 ∙ sym (first_or-append xs ys e), l.1, l.2, Linked-prefix h first p e xs ys l.3)

pub Linked-suffix :
    (h : Heap) (first : ℕ) (p e : Option ℕ) (us xs : List ℕ)
    → Linked h first p e (us ++ xs)
    → Linked h first p e xs
Linked-suffix h first p e [] xs l = l
Linked-suffix h first p e (u ∷ us) xs l = Linked-suffix h first p e us xs l.3

pub Linked-leftmost :
    (h : Heap) (first : ℕ) (p e : Option ℕ) (xs : List ℕ) (k : ℕ)
    → Linked h first p e xs
    → has k xs ≡ true
    → (h.at k).leftmost_sibling ≡ first
Linked-leftmost h first p e [] k l t = ground (arith, t)
Linked-leftmost h first p e (x ∷ xs) k l t = elim (Bool-cases (k == x)) [
  | inl y ↦ ap (λ n. (h.at n).leftmost_sibling) ((==_iff k x).0 y) ∙ l.1
  | inr n ↦ Linked-leftmost h first p e xs k l.3 (ground (arith, t, n))
]

abbrev final : List ℕ → Option ℕ
final [] = none
final (x ∷ xs) = some (last_or x xs)

final-append : (us : List ℕ) (a : ℕ) (vs : List ℕ) → final (us ++ a ∷ vs) ≡ some (last_or a vs)
final-append [] a vs = refl
final-append (u ∷ []) a vs = refl
final-append (u ∷ v ∷ us) a vs = final-append (v ∷ us) a vs

-- All parts of a list have its last node.
pub last_or-append :
    (us : List ℕ) (a : ℕ) (vs ws : List ℕ) (z : ℕ) → us ++ a ∷ vs ≡ ws ++ z ∷ [] → last_or a vs ≡ z
last_or-append us a vs ws z e =
    some-injective _ _ (sym (final-append us a vs) ∙ ap final e ∙ final-append ws z [])

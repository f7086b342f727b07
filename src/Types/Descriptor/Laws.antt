-- ===== src/Types/Descriptor/Laws.antt =====
-- Type descriptors of src/symbolTable.c: which are compatible, and what a subscript leaves of an array.
use ntu_csie_complier.Prelude.{
  ℕ, zero, suc, ◌+◌, ◌-◌, ◌<◌, ◌≤◌, Bool, false, Option, none, some, List, [], ◌∷◌, ◌++◌,
  append-nil, append_assoc, ◌==◌, lt→ltb, get_elem?, length, if◌then◌else◌, ◌≡◌, ◌∙◌, sym, refl, ap,
  arith,
}
use ntu_csie_complier.Types.{
  DataType, ArrayProperties, TypeDescriptor, scalar, array, max_array_dimension,
}
use ntu_csie_complier.Types.Descriptor.{
  same_or_numeric, same_sizes, tail, is_compatible, is_compatible_array, add_dimensions,
  add_dimension, get_array_dimension_size, get_sub_array_property, new_array,
}

same_or_numeric_comm : (a b : DataType) → same_or_numeric a b ≡ same_or_numeric b a
same_or_numeric_comm a b = ground arith

same_sizes_comm : (ms ns : List ℕ) → same_sizes ms ns ≡ same_sizes ns ms
same_sizes_comm [] [] = refl
same_sizes_comm [] (n ∷ ns) = refl
same_sizes_comm (m ∷ ms) [] = refl
same_sizes_comm (m ∷ ms) (n ∷ ns) = ground (arith, same_sizes_comm ms ns)

-- Two types are compatible whichever comes first.
pub is_compatible_comm : (a b : TypeDescriptor) → is_compatible a b ≡ is_compatible b a
unfolding is_compatible is_compatible_array
is_compatible_comm (scalar a) (scalar b) = same_or_numeric_comm a b
is_compatible_comm (scalar a) (array q) = refl
is_compatible_comm (array p) (scalar b) = refl
is_compatible_comm (array p) (array q) = ground (
  arith,
  same_or_numeric_comm p.element_type q.element_type,
  same_sizes_comm (tail p.sizes) (tail q.sizes),
)

-- The elements behind the first `i`.
abbrev pub drop : ℕ → List ℕ → List ℕ
drop zero xs = xs
drop (suc i) [] = []
drop (suc i) (x ∷ xs) = drop i xs

nothing_below : (i : ℕ) → i < 0 → ⊥
nothing_below i lt = omega arith

drop_cons :
    (xs : List ℕ) (i : ℕ)
    → i < length xs
    → (x : ℕ) × (get_elem? xs i ≡ some x) × (drop i xs ≡ x ∷ drop (suc i) xs)
drop_cons [] i lt = elim (nothing_below i lt) [ ]
drop_cons (x ∷ xs) zero lt = (x, refl, refl)
drop_cons (x ∷ xs) (suc i) lt = drop_cons xs i (omega arith)

add_step :
    (p : ArrayProperties) (i n : ℕ) (temp temp' : TypeDescriptor) (x : ℕ)
    → get_array_dimension_size i (array p) ≡ some x
    → add_dimension x temp ≡ some temp'
    → add_dimensions (array p) i (suc n) temp ≡ add_dimensions (array p) (suc i) n temp'
unfolding add_dimensions
add_step p i n temp temp' x one two =
    let next = λ (o : Option TypeDescriptor). elim o as (λ _. Option TypeDescriptor) [
      | none ↦ none
      | some t ↦ add_dimensions (array p) (suc i) n t
    ] in
    ap
      (λ (o : Option ℕ). elim o as (λ _. Option TypeDescriptor) [
        | none ↦ none
        | some x ↦ next (add_dimension x temp)
      ])
      one
    ∙ ap next two

dimension_at :
    (p : ArrayProperties) (i x : ℕ)
    → i < p.dimension
    → get_elem? p.sizes i ≡ some x
    → get_array_dimension_size i (array p) ≡ some x
unfolding get_array_dimension_size
dimension_at p i x lt e =
    ap (λ (b : Bool). if b then get_elem? p.sizes i else none) (lt→ltb i p.dimension lt) ∙ e

dimension_added :
    (n k : ℕ) (sizes : List ℕ) (d : DataType)
    → k < max_array_dimension
    → add_dimension n (array (record { dimension = k; sizes = sizes; element_type = d }))
      ≡ some (array (record { dimension = suc k; sizes = sizes ++ n ∷ []; element_type = d }))
unfolding add_dimension
dimension_added n k sizes d lt =
    ap
      (λ (b : Bool).
        if b
        then some (array (record { dimension = suc k; sizes = sizes ++ n ∷ []; element_type = d }))
        else none)
      (lt→ltb k max_array_dimension lt)

drop_all : (xs : List ℕ) (i : ℕ) → length xs ≤ i → drop i xs ≡ []
drop_all [] zero le = refl
drop_all [] (suc i) le = refl
drop_all (x ∷ xs) zero le = ground arith
drop_all (x ∷ xs) (suc i) le = drop_all xs i (omega arith)

-- The loop of `getSubArrayProperty`.
add_dimensions-drop :
    (p : ArrayProperties) (i n k : ℕ) (sizes : List ℕ) (d : DataType)
    → length p.sizes ≡ p.dimension
    → i + n ≡ p.dimension
    → k + n ≤ max_array_dimension
    → add_dimensions
        (array p)
        i
        n
        (array (record { dimension = k; sizes = sizes; element_type = d }))
      ≡ some
          (array (record { dimension = k + n; sizes = sizes ++ drop i p.sizes; element_type = d }))
unfolding add_dimensions
add_dimensions-drop p i zero k sizes d len e le =
    let rest = drop_all p.sizes i (omega (arith, len, e)) in
    let same_k : k ≡ k + 0 = omega arith in
    ap (λ (x : ℕ). some (array (record { dimension = x; sizes = sizes; element_type = d }))) same_k
    ∙ ap
        (λ (xs : List ℕ). some (array (record { dimension = k + 0; sizes = xs; element_type = d })))
        (sym (append-nil sizes) ∙ ap (λ xs. sizes ++ xs) (sym rest))
add_dimensions-drop p i (suc n) k sizes d len e le =
    let (x, at, rest) = drop_cons p.sizes i (omega (arith, len, e)) in
    let one = dimension_at p i x (omega (arith, e)) at in
    let two = dimension_added x k sizes d (omega (arith, le)) in
    let last =
      add_dimensions-drop p (suc i) n (suc k) (sizes ++ x ∷ []) d len (omega (arith, e))
        (omega (arith, le)) in
    add_step p i n (array (record { dimension = k; sizes = sizes; element_type = d })) _ x one two
    ∙ last
    ∙ ap
        (λ (m : ℕ). some (
          array (record {
            dimension = m;
            sizes = sizes ++ x ∷ [] ++ drop (suc i) p.sizes;
            element_type = d;
          })))
        (omega arith)
    ∙ ap
        (λ (xs : List ℕ).
          some (array (record { dimension = k + suc n; sizes = xs; element_type = d })))
        (append_assoc sizes (x ∷ []) (drop (suc i) p.sizes) ∙ ap (λ xs. sizes ++ xs) (sym rest))

-- Subscripts for some but not all dimensions of an array leave the array of the other dimensions.
pub get_sub_array_property-drop :
    (p : ArrayProperties) (k : ℕ)
    → length p.sizes ≡ p.dimension
    → p.dimension ≤ max_array_dimension
    → k < p.dimension
    → get_sub_array_property k (array p)
      ≡ some (array (record p { dimension = p.dimension - k; sizes = drop k p.sizes }))
unfolding get_sub_array_property
get_sub_array_property-drop p k len le lt =
    ap
      (λ (b : Bool).
        if b
        then some (scalar p.element_type)
        else add_dimensions (array p) k (p.dimension - k) (new_array p.element_type))
      (not_same p.dimension k lt)
    ∙ add_dimensions-drop p k (p.dimension - k) 0 [] p.element_type len (omega (arith, lt))
        (omega (arith, le))
    ∙ ap
        (λ (m : ℕ).
          some (
            array
              (record { dimension = m; sizes = drop k p.sizes; element_type = p.element_type })))
        (omega arith)
  where
    not_same : (d k : ℕ) → k < d → (d == k) ≡ false
    not_same d k lt = ground arith

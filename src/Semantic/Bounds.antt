-- ===== src/Semantic/Bounds.antt =====
-- The bounds of array declarations: `sizeInEachDimension` of src/symbolTable.h has
-- `MAX_ARRAY_DIMENSION` members.
use ntu_csie_complier.Prelude.{
  ℕ, suc, ◌+◌, Bool, true, false, ◌&&◌, Option, none, some, List, [], ◌∷◌, ltb, leb, if◌then◌else◌,
  ◌≡◌, refl, Bool-cases, inl, inr,
}
use ntu_csie_complier.Types.{
  DataType, float_type, error_type, TypeDescriptor, scalar, array, same_type, max_array_dimension,
}
use ntu_csie_complier.Ast.{IdNode, Expr, Exprs, nil, cons, data_type_of, DeclId}
use ntu_csie_complier.Semantic.State.{State}
use ntu_csie_complier.Effect.Post.{Post, returns, faults}
use ntu_csie_complier.Semantic.Prints.Exprs.{process_expr_related_node-Prints}
use ntu_csie_complier.Semantic.Expr.{process_expr_related_node}
use ntu_csie_complier.Prelude.{◌≤◌, arith, length, take, length-append, zero, ◌∙◌, ap}
use ntu_csie_complier.Effect.Post
use ntu_csie_complier.Semantic.Dims.{
  Machine, Dims, declare_dims, declare_dim, array_descriptor, eval_flag, eval_value, Named,
  is_void_scalar, is_array,
}
use ntu_csie_complier.Semantic.Fold.{is_negative}
use ntu_csie_complier.Semantic.Declare.{
  NameKind, Attempt, attempt, array_attempt, dims_attempt, init_attempt, is_type_kind,
}

-- A size for each dimension, and no more of them than there is room for.
abbrev pub WellFormed : TypeDescriptor → Type 0
WellFormed (scalar d) = Unit {0}
WellFormed (array p) = (p.dimension ≤ max_array_dimension) × (length p.sizes ≡ p.dimension)

-- The state of the loop of `processDeclDimList`: while the name has no error, each dimension so far
-- has a size.
abbrev pub Sized : List ℕ → ℕ → DataType → Type 0
Sized sizes k d = same_type d error_type ≡ false → length sizes ≡ k

abbrev pub IsDims : Dims → Type 0
IsDims r = (r.dimension ≤ max_array_dimension) × Sized r.sizes r.dimension r.data_type

length-take : {A : Type 0} (k : ℕ) (l : List A) → k ≤ length l → length (take k l) ≡ k
length-take zero l h = refl
length-take (suc k) [] h = absurd (ground arith)
length-take (suc k) (x ∷ l) h = ap suc (length-take k l (ground arith))

if_sized :
    {k : ℕ} (test : Bool) (x y : List ℕ × DataType × State)
    → Sized x.0 k x.1
    → Sized y.0 k y.1
    → Sized
        (if◌then◌else◌ {A = List ℕ × DataType × State} test x y).0
        k
        (if◌then◌else◌ {A = List ℕ × DataType × State} test x y).1
if_sized true x y p q = p
if_sized false x y p q = q

abbrev pub IsNamed : Named → Type 0
IsNamed (i, none) = Unit
IsNamed (i, some t) = WellFormed t

abbrev pub IsAttempt : Attempt → Type 0
IsAttempt (wrap, named) = IsNamed named

array_descriptor-WellFormed :
    (i : IdNode) (t : TypeDescriptor) (r : Dims) (s : State)
    → WellFormed t
    → IsDims r
    → IsNamed (array_descriptor i t r s).0
unfolding array_descriptor
array_descriptor-WellFormed i (scalar d) r s w h =
    elim (Bool-cases (same_type r.data_type error_type)) [
      | inl e ↦ rw e tt
      | inr e ↦ rw e (h.0, h.1 e)
    ]
array_descriptor-WellFormed i (array p) r s w h =
    elim (Bool-cases (same_type r.data_type error_type)) [
      | inl e ↦ rw e tt
      | inr e ↦ elim (Bool-cases (ltb max_array_dimension (p.dimension + r.dimension))) [
        | inl big ↦ rw (e, big) tt
        | inr small ↦
            rw (e, small)
              (
                ground arith,
                length-append r.sizes (take p.dimension p.sizes)
                    ∙ ground
                        (arith, h.1 e, w.1, length-take p.dimension p.sizes (ground (arith, w.1))),
              )
      ]
    ]

if-IsAttempt :
    {x y : Option (Attempt × State)} (test : Bool)
    → Post (λ (a : Attempt) u. IsAttempt a) x
    → Post (λ (a : Attempt) u. IsAttempt a) y
    → Post (λ (a : Attempt) u. IsAttempt a) (if test then x else y)
if-IsAttempt true p q = p
if-IsAttempt false p q = q

dims_attempt-IsAttempt :
    (wrap : Exprs → IdNode → DeclId) (i : IdNode) (t : TypeDescriptor) (r : Option (Dims × State))
    → WellFormed t
    → Post (λ (d : Dims) u. IsDims d) r
    → Post (λ (a : Attempt) u. IsAttempt a) (dims_attempt wrap i t r)
dims_attempt-IsAttempt wrap i t none w faults = faults
dims_attempt-IsAttempt wrap i t (some (r, u)) w (returns h) =
    returns (array_descriptor-WellFormed i t r u w h)

init_attempt-IsAttempt :
    (i : IdNode) (t : TypeDescriptor) (r : Option (Expr × State))
    → WellFormed t
    → Post (λ (a : Attempt) u. IsAttempt a) (init_attempt i t r)
init_attempt-IsAttempt i t none w = faults
init_attempt-IsAttempt i t (some (e, u)) w = returns w

module _ (m : Machine) where
  declare_dim-Sized :
      (line : ℕ) (e : Expr) (sizes : List ℕ) (k : ℕ) (d : DataType) (s : State)
      → Sized sizes k d
      → Sized (declare_dim m line e sizes d s).0 (suc k) (declare_dim m line e sizes d s).1
  unfolding declare_dim
  declare_dim-Sized line e sizes k d s h =
      if_sized (same_type (data_type_of e) error_type) _ _ (λ x. absurd (ground arith))
        (if_sized (same_type (data_type_of e) float_type) _ _ (λ x. absurd (ground arith))
          (if_sized (eval_flag m e && is_negative (eval_value m e)) _ _ (λ x. absurd (ground arith))
            (λ x. ground (arith, length-append sizes (eval_value m e ∷ []), h x))))

  declare_dims-IsDims :
      (line : ℕ) (es : Exprs) (k : ℕ) (sizes : List ℕ) (d : DataType) (s : State)
      → k ≤ max_array_dimension
      → Sized sizes k d
      → Post (λ (r : Dims) t. IsDims r) (declare_dims m line es k sizes d s)
  unfolding declare_dims
  declare_dims-IsDims line nil k sizes d s room h = returns (room, h)
  declare_dims-IsDims line (cons e es) k sizes d s room h =
      elim (Bool-cases (leb max_array_dimension k)) [
        | inl full ↦ rw full (returns (room, λ x. absurd (ground arith)))
        | inr more ↦ rw more (
            Post.bind (process_expr_related_node m.fpu e) _ s
              (Post.weaken (process_expr_related_node-Prints m.fpu e s) (λ a t p. tt))
              (λ e' t x.
                Post.bind (declare_dims m line es (suc k) _ _) _ _
                  (declare_dims-IsDims line es (suc k) _ _ _ (ground arith)
                    (declare_dim-Sized line e' sizes k d t h))
                  (λ r u q. returns q)))
      ]

  array_attempt-IsAttempt :
      (kind : NameKind) (t : TypeDescriptor) (wrap : Exprs → IdNode → DeclId) (i : IdNode)
      (ds : Exprs) (k : ℕ) (sizes : List ℕ) (s : State)
      → WellFormed t
      → k ≤ max_array_dimension
      → length sizes ≡ k
      → Post (λ (a : Attempt) u. IsAttempt a) (array_attempt m kind t wrap i ds k sizes s)
  array_attempt-IsAttempt kind t wrap i ds k sizes s w room all =
      if-IsAttempt (is_type_kind kind && is_void_scalar t) (returns tt) (
        dims_attempt-IsAttempt wrap i t _ w
          (declare_dims-IsDims i.linenumber ds k sizes i.data_type s room (λ x. all)))

  -- Where a declaration finds a descriptor for a name, it is well-formed if the type's is: an
  -- array has a size for each of its dimensions, and at most ten of them.
  pub attempt-WellFormed :
      (kind : NameKind) (t : TypeDescriptor) (x : DeclId) (s : State)
      → WellFormed t
      → Post (λ (a : Attempt) u. IsAttempt a) (attempt m kind t x s)
  unfolding attempt
  attempt-WellFormed kind t (DeclId.normal i) s w = returns w
  attempt-WellFormed kind t (DeclId.array i ds) s w =
      array_attempt-IsAttempt kind t (λ es j. DeclId.array j es) i ds 0 [] s w (ground arith) refl
  attempt-WellFormed kind t (DeclId.array_unsized i ds) s w =
      array_attempt-IsAttempt kind t (λ es j. DeclId.array_unsized j es) i ds 1 (0 ∷ []) s w
        (ground arith) refl
  attempt-WellFormed kind t (DeclId.with_init i e) s w =
      if-IsAttempt (is_array t) (returns tt) (init_attempt-IsAttempt i t _ w)

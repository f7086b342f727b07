-- ===== src/Semantic/Growth.antt =====
-- What declarations of src/semanticAnalysis.c add to the innermost scope.
use ntu_csie_complier.Prelude.{
  Bool, true, false, not, ◌&&◌, Option, none, some, List, [], ◌∷◌, String, ◌≡◌, refl, ◌∙◌, ap, sym,
  subst, arith, str_eq_iff, if◌then◌else◌,
}
use ntu_csie_complier.SymbolTable.Defs.{declared_locally, enter_symbol}
use ntu_csie_complier.SymbolTable.Scopes.{IsValid}
use ntu_csie_complier.SymbolTable.Spec.{ScopedMap, lookup_scope, declare, outer, view}
use ntu_csie_complier.SymbolTable.Refines.{enter_symbol-declare}
use ntu_csie_complier.SymbolTable.Blocks.{enter_symbol-level, outer-declare}
use ntu_csie_complier.Types.{SymbolAttribute, TypeDescriptor, same_type, error_type}
use ntu_csie_complier.Ast.{IdNode, DeclId, Decl}
use ntu_csie_complier.Semantic.State.{State, M, ◌>>=◌}
use ntu_csie_complier.Effect.Post
use ntu_csie_complier.Effect.Post.{Post, faults, returns}
use ntu_csie_complier.Semantic.Prints.{Prints}
use ntu_csie_complier.Semantic.Dims.{Machine, process_type_node, is_void_scalar}
use ntu_csie_complier.Semantic.Declare.{
  NameKind, name_kind, is_type_kind, enter_named, attempt, declare_id, declare_ids, declare_id_list,
  process_declaration_node, id_of, attribute_for,
}
use ntu_csie_complier.Semantic.Runs.Declare.{attempt-Prints, process_type_node-Prints}
use ntu_csie_complier.Semantic.Runs.Facts.{Prints-OnlyMessages}

abbrev pub innermost : {A : Type 0} → ScopedMap A → List (String × A)
innermost [] = []
innermost (scope ∷ rest) = scope

-- The table stays valid, at its level; the other scopes stay as they are; and each name that the
-- innermost scope declares keeps its attribute.
pub record Grows (s t : State) : Type 0 where
  pub valid : IsValid t.table
  pub same_level : t.table.current_level ≡ s.table.current_level
  pub same_outer : outer (view t.table) ≡ outer (view s.table)
  pub keeps :
      (name : String) (a : SymbolAttribute)
      → lookup_scope name (innermost (view s.table)) ≡ some a
      → lookup_scope name (innermost (view t.table)) ≡ some a

abbrev pub Growing : State → State → Type 0
Growing s t = IsValid s.table → Grows s t

Growing-trans : (s t u : State) → Growing s t → Growing t u → Growing s u
Growing-trans s t u p q v =
    let a = p v in
    let b = q a.valid in
    record {
      valid = b.valid;
      same_level = b.same_level ∙ a.same_level;
      same_outer = b.same_outer ∙ a.same_outer;
      keeps = λ name x h. b.keeps name x (a.keeps name x h);
    }

abbrev GrowsOnly : {A : Type 0} → State → Option (A × State) → Type 0
GrowsOnly {A} s = Post (λ (a : A) t. Growing s t)

stays : {s : State} → Growing s s
stays v = record { valid = v; same_level = refl; same_outer = refl; keeps = λ name a h. h }

Prints-Growing : {s t : State} → Prints s t → Growing s t
Prints-Growing {s} {t} p v =
    let same = (Prints-OnlyMessages p).same_table in
    record {
      valid = subst IsValid (sym same) v;
      same_level = rw same;
      same_outer = rw same;
      keeps = λ name a h. rw same h;
    }

prints :
    {A : Type 0} {s : State} {x : Option (A × State)}
    → Post (λ (a : A) t. Prints s t) x
    → GrowsOnly s x
prints h = Post.weaken h (λ a t p. Prints-Growing p)

innermost-declare :
    {A : Type 0} (key name : String) (a x : A) (m : ScopedMap A)
    → lookup_scope name (innermost m) ≡ some x
    → lookup_scope name (innermost (declare key a m)) ≡ some x
innermost-declare key name a x [] h = h
innermost-declare key name a x (scope ∷ rest) h = ground (arith, str_eq_iff key name)

enter-Growing :
    (key : String) (a : SymbolAttribute) (s : State)
    → Growing s (record s { table = (enter_symbol key a s.table).1 })
enter-Growing key a s v =
    let (v', is, _) = enter_symbol-declare key a s.table v in
    record {
      valid = v';
      same_level = enter_symbol-level key a s.table;
      same_outer = ap outer is ∙ outer-declare key a (view s.table);
      keeps = λ name x h. rw is (innermost-declare key name a x (view s.table) h);
    }

if-GrowsOnly :
    {A : Type 0} {s : State} {x x' : Option (A × State)} (test : Bool)
    → GrowsOnly s x
    → GrowsOnly s x'
    → GrowsOnly s (if test then x else x')
if-GrowsOnly true p q = p
if-GrowsOnly false p q = q

if_action-GrowsOnly :
    {A : Type 0} {s : State} (test : Bool) (m k : M A)
    → GrowsOnly s (m s)
    → GrowsOnly s (k s)
    → GrowsOnly s (if◌then◌else◌ {A = M A} test m k s)
if_action-GrowsOnly true m k p q = p
if_action-GrowsOnly false m k p q = q

seq :
    {A B : Type 0} (m : M A) (k : A → M B) (s : State)
    → GrowsOnly s (m s)
    → ((a : A) (t : State) → GrowsOnly t (k a t))
    → GrowsOnly s ((m >>= k) s)
seq = Post.sequence Growing Growing-trans

enter_named-Grows :
    (kind : NameKind) (wrap : IdNode → DeclId) (i : IdNode) (t : Option TypeDescriptor) (s : State)
    → GrowsOnly s (enter_named kind wrap i t s)
enter_named-Grows kind wrap i none s =
    if-GrowsOnly (same_type i.data_type error_type) (returns stays) faults
enter_named-Grows kind wrap i (some t) s =
    if-GrowsOnly (same_type i.data_type error_type) (returns stays)
      (returns (enter-Growing i.identifier_name (attribute_for kind t) s))

module _ (m : Machine) where
  declare_id-Grows :
      (kind : NameKind) (t : TypeDescriptor) (x : DeclId) (s : State)
      → GrowsOnly s (declare_id m kind t x s)
  unfolding declare_id
  declare_id-Grows kind t x s =
      if-GrowsOnly (declared_locally (id_of x).identifier_name s.table)
        (returns (Prints-Growing (Prints.printed _ _ Prints.quiet)))
        (seq (attempt m kind t x) _ s (prints (attempt-Prints m kind t x s))
          (λ a u. let (wrap, (i, d)) = a in enter_named-Grows kind wrap i d u))

  declare_ids-Grows :
      (kind : NameKind) (t : TypeDescriptor) (xs : List DeclId) (s : State)
      → GrowsOnly s (declare_ids m kind t xs s)
  unfolding declare_ids
  declare_ids-Grows kind t [] s = returns stays
  declare_ids-Grows kind t (x ∷ xs) s =
      seq (declare_id m kind t x) _ s (declare_id-Grows kind t x s) (λ r u.
        seq (declare_ids m kind t xs) _ u (declare_ids-Grows kind t xs u) (λ r' v. returns stays))

  declare_id_list-Grows :
      (d : Decl) (t : Option TypeDescriptor) (s : State) → GrowsOnly s (declare_id_list m d t s)
  declare_id_list-Grows d none s = faults
  declare_id_list-Grows d (some t) s =
      if-GrowsOnly (not (is_type_kind (name_kind d.kind)) && is_void_scalar t)
        (returns (Prints-Growing (Prints.printed _ _ Prints.quiet)))
        (seq (declare_ids m (name_kind d.kind) t d.ids) _ s
          (declare_ids-Grows (name_kind d.kind) t d.ids s) (λ r u. returns stays))

  process_declaration_node-GrowsOnly :
      (d : Decl) (s : State) → GrowsOnly s (process_declaration_node m d s)
  unfolding process_declaration_node
  process_declaration_node-GrowsOnly d s =
      seq (process_type_node d.type_node) _ s (prints (process_type_node-Prints d.type_node s))
        (λ i t.
          if_action-GrowsOnly (same_type i.data_type error_type) _ _ (returns stays)
            (declare_id_list-Grows (record d { type_node = i }) _ t))

  -- From a valid table, where processing a declaration has a result, the table is valid, at its
  -- level, each name that the innermost scope declared keeps its attribute, and the scopes around
  -- it have the declarations that they had.
  pub process_declaration_node-Grows :
      (d : Decl) (s : State)
      → IsValid s.table
      → Post (λ (_ : Decl) t. Grows s t) (process_declaration_node m d s)
  process_declaration_node-Grows d s v =
      Post.weaken (process_declaration_node-GrowsOnly d s) (λ _ t p. p v)

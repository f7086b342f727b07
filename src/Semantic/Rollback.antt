-- ===== src/Semantic/Rollback.antt =====
-- What `declareFunction` of src/semanticAnalysis.c leaves of a function: its parts.
pub mod Handler
use ntu_csie_complier.Prelude.{
  ℕ, Bool, true, false, not, ◌&&◌, ◌||◌, Bool-cases, inl, inr, Option, none, some, List, [], ◌∷◌,
  length, String, ◌≡◌, refl, ◌∙◌, ap, sym, subst, arith, str_eq_refl, if◌then◌else◌,
}
use ntu_csie_complier.SymbolTable.Defs.{
  SymbolTable, declared_locally, enter_symbol, remove_symbol, close_scope,
}
use ntu_csie_complier.SymbolTable.Scopes.{IsValid}
use ntu_csie_complier.SymbolTable.Spec.{ScopedMap, declares, declare, undeclare, view}
use ntu_csie_complier.SymbolTable.Refines.{
  enter_symbol-declare, remove_symbol-undeclare, declared_locally-declares,
}
use ntu_csie_complier.SymbolTable.Blocks.{enter_symbol-level, remove_symbol-level}
use ntu_csie_complier.Types.{
  SymbolAttribute, function_signature, TypeDescriptor, same_type, error_type,
}
use ntu_csie_complier.Ast.{IdNode, Function}
use ntu_csie_complier.Semantic.State.{State, M}
use ntu_csie_complier.Effect.Post
use ntu_csie_complier.Effect.Post.{Post, faults, returns}
use ntu_csie_complier.Semantic.Dims.{Machine, process_type_node, entry_descriptor, is_array}
use ntu_csie_complier.Semantic.Stmt.{
  enter_block, leave_block, with_table, process_decl_list, process_stmts,
}
use ntu_csie_complier.Semantic.Function.{
  check_head, enter_function, finish_function, process_body, declare_parameters, with_head,
  process_function,
}
use ntu_csie_complier.Semantic.Prints.{Prints}
use ntu_csie_complier.Semantic.Runs.{Run, inner, whole, start, block, Run-trans, after, widen}
use ntu_csie_complier.Semantic.Runs.Facts.{Prints-OnlyMessages, SameScopes, inner-SameScopes}
use ntu_csie_complier.Semantic.Runs.Declare.{process_type_node-Prints}
use ntu_csie_complier.Semantic.Runs.Stmt.{process_decl_list-Run, process_stmts-Run}
use ntu_csie_complier.Semantic.Runs.Function.{
  check_head-Prints, declare_parameters-Run, set_count-Run,
}

-- What processing a function of that name does to the scopes.
pub data Outcome (name : String) (s t : State) : Type 0 where
  unchanged : view t.table ≡ view s.table → Outcome name s t
  declared :
      (k : ℕ)
      → declares name (view s.table) ≡ false
      → view t.table ≡ declare name (function_signature k) (view s.table)
      → Outcome name s t

pub record Processed (name : String) (s t : State) : Type 0 where
  pub valid : IsValid t.table
  pub same_level : t.table.current_level ≡ s.table.current_level
  pub outcome : Outcome name s t

undeclare-declare :
    {A : Type 0} (name : String) (a : A) (m : ScopedMap A)
    → declares name m ≡ false
    → undeclare name (declare name a m) ≡ m
undeclare-declare name a [] h = refl
undeclare-declare name a (scope ∷ rest) h = ground (arith, str_eq_refl name)

pub check_head-name :
    (a taken : Bool) (f : Function) (s : State)
    → (check_head a taken f s).0.name_node.identifier_name ≡ f.name_node.identifier_name
unfolding check_head
check_head-name true true f s = refl
check_head-name true false f s = refl
check_head-name false true f s = refl
check_head-name false false f s = refl

with_table-Run :
    {t u : State} (x : Option (SymbolTable SymbolAttribute))
    → Run whole (enter_block t) u
    → close_scope u.table ≡ x
    → Post (λ (_ : Unit {0}) w. Run inner t w) (with_table u x)
with_table-Run none q e = faults
with_table-Run (some w) q e = returns (block start q e)

pub leave_block-inner :
    {t u : State}
    → Run whole (enter_block t) u
    → Post (λ (_ : Unit {0}) w. Run inner t w) (leave_block u)
unfolding leave_block
leave_block-inner {u} q = with_table-Run (close_scope u.table) q refl

-- The end of a function that was entered, from the state behind its block.
finish_entered :
    (error : Bool) (f : Function) (k : ℕ) (s t u : State)
    → IsValid s.table
    → declares f.name_node.identifier_name (view s.table) ≡ false
    → view t.table ≡ declare f.name_node.identifier_name (function_signature k) (view s.table)
    → t.table.current_level ≡ s.table.current_level
    → SameScopes t u
    → Processed f.name_node.identifier_name s (finish_function true error f u).1
unfolding finish_function
finish_entered false f k s t u v free is level same = record {
  valid = same.valid;
  same_level = same.same_level ∙ level;
  outcome = declared k free (same.same_view ∙ is);
}
finish_entered true f k s t u v free is level same =
    let name = f.name_node.identifier_name in
    let (v', gone) = remove_symbol-undeclare name u.table same.valid in
    record {
      valid = v';
      same_level = remove_symbol-level name u.table ∙ same.same_level ∙ level;
      outcome = unchanged (
          gone
          ∙ ap (undeclare name) (same.same_view ∙ is)
          ∙ undeclare-declare name (function_signature k) (view s.table) free);
    }

finish_named :
    (name : String) (error : Bool) (f : Function) (k : ℕ) (s t u : State)
    → f.name_node.identifier_name ≡ name
    → IsValid s.table
    → declares name (view s.table) ≡ false
    → view t.table ≡ declare name (function_signature k) (view s.table)
    → t.table.current_level ≡ s.table.current_level
    → SameScopes t u
    → Processed name s (finish_function true error f u).1
finish_named name error f k s t u eq v free is level same =
    subst (λ n. Processed n s (finish_function true error f u).1) eq
      (finish_entered error f k s t u v (rw eq free) (rw eq is) level same)

-- The end of a function that was not entered.
finish_refused :
    (name : String) (error : Bool) (f : Function) (s u : State)
    → SameScopes s u
    → Processed name s (finish_function false error f u).1
unfolding finish_function
finish_refused name true f s u same = record {
  valid = same.valid;
  same_level = same.same_level;
  outcome = unchanged same.same_view;
}
finish_refused name false f s u same = record {
  valid = same.valid;
  same_level = same.same_level;
  outcome = unchanged same.same_view;
}

-- The state that the head leaves, for both values of its error.
pub data Head (name : String) (s t : State) : Bool → Type 0 where
  refused : SameScopes s t → Head name s t true
  accepted :
      (k : ℕ)
      → declares name (view s.table) ≡ false
      → IsValid t.table
      → view t.table ≡ declare name (function_signature k) (view s.table)
      → t.table.current_level ≡ s.table.current_level
      → Head name s t false

pub finish-Processed :
    (name : String) (head_error error : Bool) (f : Function) (s t u : State)
    → f.name_node.identifier_name ≡ name
    → IsValid s.table
    → Head name s t head_error
    → Run inner t u
    → Processed name s (finish_function (not head_error) error f u).1
finish-Processed name true error f s t u eq v (refused same) run =
    let after_block = inner-SameScopes run same.valid in
    finish_refused name error f s u (record {
      valid = after_block.valid;
      same_view = after_block.same_view ∙ same.same_view;
      same_level = after_block.same_level ∙ same.same_level;
    })
finish-Processed name false error f s t u eq v (accepted k free valid is level) run =
    finish_named name error f k s t u eq v free is level (inner-SameScopes run valid)

pub enter_function-name :
    (error : Bool) (f : Function) (s : State)
    → (enter_function error f s).0.name_node.identifier_name ≡ f.name_node.identifier_name
unfolding enter_function
enter_function-name true f s = refl
enter_function-name false f s = refl

pub enter_function-Head :
    (name : String) (error : Bool) (f : Function) (s t : State)
    → f.name_node.identifier_name ≡ name
    → t.table ≡ s.table
    → IsValid s.table
    → (error ≡ false → declared_locally name s.table ≡ false)
    → Head name s (enter_function error f t).1 error
unfolding enter_function
enter_function-Head name true f s t eq same v free = refused (record {
  valid = subst IsValid (sym same) v;
  same_view = ap view same;
  same_level = ap (λ (x : SymbolTable SymbolAttribute). x.current_level) same;
})
enter_function-Head name false f s t eq same v free =
    let k = length t.signatures in
    let (v', is, _) =
      enter_symbol-declare f.name_node.identifier_name (function_signature k) t.table
        (subst IsValid (sym same) v) in
    accepted k (sym (declared_locally-declares name s.table v) ∙ free refl) v'
      (is ∙ rw (eq, same) refl)
      (enter_symbol-level f.name_node.identifier_name (function_signature k) t.table
        ∙ ap (λ (x : SymbolTable SymbolAttribute). x.current_level) same)

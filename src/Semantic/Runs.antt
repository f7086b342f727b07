-- ===== src/Semantic/Runs.antt =====
-- What semantic analysis (src/semanticAnalysis.c) does to its state, as a sequence of steps.
pub mod Declare
pub mod Stmt
pub mod Function
pub mod Facts
use ntu_csie_complier.Prelude.{
  Bool, true, false, ℕ, Option, none, some, List, ◌≡◌, refl, String, if◌then◌else◌,
}
use ntu_csie_complier.SymbolTable.Defs.{SymbolTable, enter_symbol, remove_symbol, close_scope}
use ntu_csie_complier.Types.{SymbolAttribute, FunctionSignature}
use ntu_csie_complier.Semantic.State.{State, M, ErrorMsgKind, print_error_msg, ◌>>=◌, pure}
use ntu_csie_complier.Effect.Post
use ntu_csie_complier.Effect.Post.{Post, returns, faults}
use ntu_csie_complier.Semantic.Prints.{Prints, quiet, PrintsOnly}
use ntu_csie_complier.Semantic.Prints
use ntu_csie_complier.Semantic.Stmt.{enter_block, leave_block, with_table}

-- What a run does to the scope that it starts in.
pub data Reach : Type 0 where
  inner whole : Reach

-- Every scope that is opened is closed again. A run of reach `inner` enters and removes names in such
-- scopes only.
pub data Run : Reach → State → State → Type 0 where
  start : {r : Reach} {s : State} → Run r s s
  printed :
      {r : Reach} {s t : State} (line : ℕ) (kind : ErrorMsgKind)
      → Run r s t
      → Run r s (print_error_msg line kind t)
  entered :
      {s t : State} (name : String) (attribute : SymbolAttribute)
      → Run whole s t
      → Run whole s (record t { table = (enter_symbol name attribute t.table).1 })
  removed :
      {s t : State} (name : String)
      → Run whole s t
      → Run whole s (record t { table = remove_symbol name t.table })
  signed :
      {s t : State} (signatures : List FunctionSignature)
      → Run whole s t
      → Run whole s (record t { signatures = signatures })
  block :
      {r : Reach} {s t u : State} {w : SymbolTable SymbolAttribute}
      → Run r s t
      → Run whole (enter_block t) u
      → close_scope u.table ≡ some w
      → Run r s (record u { table = w })

pub Run-trans : {r : Reach} {s t u : State} → Run r s t → Run r t u → Run r s u
Run-trans p start = p
Run-trans p (printed line kind q) = printed line kind (Run-trans p q)
Run-trans p (entered name a q) = entered name a (Run-trans p q)
Run-trans p (removed name q) = removed name (Run-trans p q)
Run-trans p (signed x q) = signed x (Run-trans p q)
Run-trans p (block q body e) = block (Run-trans p q) body e

widen_run : {s t : State} → Run inner s t → Run whole s t
widen_run start = start
widen_run (printed line kind q) = printed line kind (widen_run q)
widen_run (block q body e) = block (widen_run q) body e

pub Prints-Run : {r : Reach} {s t : State} → Prints s t → Run r s t
Prints-Run quiet = start
Prints-Run (Prints.printed line kind p) = printed line kind (Prints-Run p)

-- An action that is a run.
abbrev pub RunsOnly : Reach → {A : Type 0} → State → Option (A × State) → Type 0
RunsOnly r {A} s = Post (λ (a : A) t. Run r s t)

pub after :
    {r : Reach} {A : Type 0} {s t : State} {x : Option (A × State)}
    → Run r s t
    → RunsOnly r t x
    → RunsOnly r s x
after {r} = Post.after_step (Run r) (λ s t u. Run-trans)

pub seq :
    {r : Reach} {A B : Type 0} (m : M A) (k : A → M B) (s : State)
    → RunsOnly r s (m s)
    → ((a : A) (t : State) → RunsOnly r t (k a t))
    → RunsOnly r s ((m >>= k) s)
seq {r} = Post.sequence (Run r) (λ s t u. Run-trans)

pub prints :
    {r : Reach} {A : Type 0} {s : State} {x : Option (A × State)} → PrintsOnly s x → RunsOnly r s x
prints h = Post.weaken h (λ a t p. Prints-Run p)

pub if-RunsOnly :
    {r : Reach} {A : Type 0} {s : State} {x x' : Option (A × State)} (test : Bool)
    → RunsOnly r s x
    → RunsOnly r s x'
    → RunsOnly r s (if test then x else x')
if-RunsOnly true p q = p
if-RunsOnly false p q = q

-- A choice of actions.
pub if_action-RunsOnly :
    {r : Reach} {A : Type 0} {s : State} (test : Bool) (m k : M A)
    → RunsOnly r s (m s)
    → RunsOnly r s (k s)
    → RunsOnly r s (if◌then◌else◌ {A = M A} test m k s)
if_action-RunsOnly true m k p q = p
if_action-RunsOnly false m k p q = q

with_table-Run :
    {r : Reach} {A : Type 0} {s t u : State} (x : Option (SymbolTable SymbolAttribute))
    (k : Unit {0} → M A)
    → Run r s t
    → Run whole (enter_block t) u
    → close_scope u.table ≡ x
    → ((v : State) → RunsOnly r v (k tt v))
    → RunsOnly r s (((λ (v : State). with_table u x) >>= k) u)
with_table-Run none k p q e next = faults
with_table-Run (some w) k p q e next = after (block p q e) (next _)

-- The end of a block, and what is behind it.
pub leave_block-Run :
    {r : Reach} {A : Type 0} {s t u : State} (k : Unit {0} → M A)
    → Run r s t
    → Run whole (enter_block t) u
    → ((v : State) → RunsOnly r v (k tt v))
    → RunsOnly r s ((leave_block >>= k) u)
unfolding leave_block
leave_block-Run {u} k p q next = with_table-Run (close_scope u.table) k p q refl next

pub widen :
    {A : Type 0} {s : State} {x : Option (A × State)} → RunsOnly inner s x → RunsOnly whole s x
widen h = Post.weaken h (λ a t p. widen_run p)

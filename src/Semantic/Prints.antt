-- ===== src/Semantic/Prints.antt =====
-- What processing an expression (src/semanticAnalysis.c) prints.
pub mod Operands
pub mod Calls
pub mod Variables
pub mod Exprs
use ntu_csie_complier.Prelude.{
  ℕ, zero, suc, ◌≡◌, refl, Bool, true, false, Option, none, some, List, [], ◌∷◌, arith, Bool-cases,
  inl, inr, str_eq, get_elem?, if◌then◌else◌,
}
use ntu_csie_complier.Semantic.State.{
  State, M, pure, ◌>>=◌, ErrorMsgKind, print_error_msg, print_when,
}
use ntu_csie_complier.Effect.Post
use ntu_csie_complier.Effect.Post.{Post, faults, returns}

pub data Prints (s : State) : State → Type 0 where
  quiet : Prints s s
  printed :
      {t : State} (line : ℕ) (kind : ErrorMsgKind)
      → Prints s t
      → Prints s (print_error_msg line kind t)

pub Prints-trans : {s t u : State} → Prints s t → Prints t u → Prints s u
Prints-trans p quiet = p
Prints-trans p (printed line kind q) = printed line kind (Prints-trans p q)

pub print_when-Prints :
    {s t : State} (test : Bool) (line : ℕ) (kind : ErrorMsgKind)
    → Prints s t
    → Prints s (print_when test line kind t)
unfolding print_when
print_when-Prints true line kind p = printed line kind p
print_when-Prints false line kind p = p

-- An action that prints messages at most.
abbrev pub PrintsOnly : {A : Type 0} → State → Option (A × State) → Type 0
PrintsOnly {A} s = Post (λ (a : A) t. Prints s t)

pub after :
    {A : Type 0} {s t : State} {r : Option (A × State)}
    → Prints s t
    → PrintsOnly t r
    → PrintsOnly s r
after = Post.after_step Prints (λ s t u. Prints-trans)

pub seq :
    {A B : Type 0} (m : M A) (k : A → M B) (s : State)
    → PrintsOnly s (m s)
    → ((a : A) (t : State) → PrintsOnly t (k a t))
    → PrintsOnly s ((m >>= k) s)
seq = Post.sequence Prints (λ s t u. Prints-trans)

pub if-Prints :
    {s t u : State} (test : Bool) → Prints s t → Prints s u → Prints s (if test then t else u)
if-Prints true p q = p
if-Prints false p q = q

pub if-PrintsOnly :
    {A : Type 0} {s : State} {r r' : Option (A × State)} (test : Bool)
    → PrintsOnly s r
    → PrintsOnly s r'
    → PrintsOnly s (if test then r else r')
if-PrintsOnly true p q = p
if-PrintsOnly false p q = q

-- A choice of a result and a state.
pub if_pair-Prints :
    {A : Type 0} {s : State} (test : Bool) (x y : A × State)
    → Prints s x.1
    → Prints s y.1
    → Prints s (if◌then◌else◌ {A = A × State} test x y).1
if_pair-Prints true x y p q = p
if_pair-Prints false x y p q = q

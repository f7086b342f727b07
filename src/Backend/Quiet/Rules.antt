-- ===== src/Backend/Quiet/Rules.antt =====
-- Actions on the registers that are quiet from any state, and how they follow one another.
use ntu_csie_complier.Backend.Quiet.{Quiet, Quiet-refl, Quiet-trans, emit-Quiet, IsPlain}
use ntu_csie_complier.Backend.Quiet.Steps.{emits-Quiet}
use ntu_csie_complier.Prelude.{Bool, true, false, List, if◌then◌else◌, All}
use ntu_csie_complier.Effect.{pure, ◌>>=◌, modify}
use ntu_csie_complier.Effect.Post.{Post, returns, sequence}
use ntu_csie_complier.Backend.Code.{Label, Instr}
use ntu_csie_complier.Backend.State.{GenState, Gen, emit}
use ntu_csie_complier.Backend.Operations.{emits}

module _ (l : Label) where
  -- An action that is quiet wherever it starts.
  abbrev pub Silent : {A : Type 0} → Gen A → Type 0
  Silent {A} m = (s : GenState) → Post (λ (a : A) t. Quiet l s t) (m s)

  pub pure-Silent : {A : Type 0} (a : A) → Silent (pure a)
  pure-Silent a s = returns (Quiet-refl l s)

  pub modify-Silent :
      (f : GenState → GenState) → ((s : GenState) → Quiet l s (f s)) → Silent (modify f)
  modify-Silent f h s = returns (h s)

  pub bind-Silent :
      {A B : Type 0} (m : Gen A) (k : A → Gen B)
      → Silent m
      → ((a : A) → Silent (k a))
      → Silent (m >>= k)
  bind-Silent m k h next s = sequence (Quiet l) (Quiet-trans l) m k s (h s) next

  pub if-Silent :
      {A : Type 0} (b : GenState → Bool) (m k : Gen A)
      → Silent m
      → Silent k
      → Silent (λ s. (if b s then m s else k s))
  if-Silent {A} b m k h h' s =
      elim (b s) as (λ c. Post (λ (a : A) t. Quiet l s t) (if c then m s else k s)) [
        | true ↦ h s
        | false ↦ h' s
      ]

  pub choice-Silent :
      {A : Type 0} (b : Bool) (m k : Gen A) → Silent m → Silent k → Silent (if b then m else k)
  choice-Silent true m k h h' = h
  choice-Silent false m k h h' = h'

  pub emit-Silent : (i : Instr) → IsPlain l i → Silent (modify (emit i))
  emit-Silent i h = modify-Silent (emit i) (λ s. emit-Quiet l i s h)

  pub emits-Silent : (code : List Instr) → All (IsPlain l) code → Silent (modify (emits code))
  emits-Silent code h = modify-Silent (emits code) (λ s. emits-Quiet l code s h)

-- One action after another.
infixr 5 ◌▹◌
pub ◌▹◌ :
    {l : Label} {A B : Type 0} {m : Gen A} {k : A → Gen B}
    → Silent l m
    → ((a : A) → Silent l (k a))
    → Silent l (m >>= k)
◌▹◌ {l} {m = m} {k = k} h next = bind-Silent l m k h next

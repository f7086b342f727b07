-- ===== src/Effect.antt =====
-- Actions on a state that may have no result.
pub mod Post
use ntu_csie_complier.Prelude.{Option, none, some}

abbrev pub Action : Type 0 → Type 0 → Type 0
Action S A = S → Option (A × S)

abbrev pub pure : {S A : Type 0} → A → Action S A
pure a s = some (a, s)

infixl 5 ◌>>=◌ ◌>>◌
abbrev pub ◌>>=◌ : {S A B : Type 0} → Action S A → (A → Action S B) → Action S B
◌>>=◌ m f s = elim (m s) [ none ↦ none | some (a, s') ↦ f a s' ]

abbrev pub ◌>>◌ : {S B : Type 0} → Action S (Unit {0}) → Action S B → Action S B
m >> k = m >>= λ _. k

abbrev pub modify : {S : Type 0} → (S → S) → Action S (Unit {0})
modify f s = some (tt, f s)

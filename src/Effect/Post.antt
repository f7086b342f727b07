-- ===== src/Effect/Post.antt =====
-- Postconditions of actions, with a rule for `>>=`.
use ntu_csie_complier.Prelude.{Option, none, some, ◌≡◌, ap}
use ntu_csie_complier.Effect.{Action, ◌>>=◌}

-- `P` holds of the result and of the state behind it, if there is one.
pub data Post {S A : Type 0} (P : A → S → Type 0) : Option (A × S) → Type 0 where
  faults : Post P none
  returns : {a : A} {s : S} → P a s → Post P (some (a, s))

module _ {S A B : Type 0} {P : A → S → Type 0} {Q : B → S → Type 0} where
  bind_result :
      (r : Option (A × S)) (k : A → Action S B)
      → Post P r
      → ((a : A) (s' : S) → P a s' → Post Q (k a s'))
      → Post Q (elim r [ none ↦ none | some (a, s') ↦ k a s' ])
  bind_result none k faults next = faults
  bind_result (some (a, s')) k (returns p) next = next a s' p

  pub bind :
      (m : Action S A) (k : A → Action S B) (s : S)
      → Post P (m s)
      → ((a : A) (s' : S) → P a s' → Post Q (k a s'))
      → Post Q ((m >>= k) s)
  bind m k s = bind_result (m s) k

module _ {S A : Type 0} {P : A → S → Type 0} where
  pub weaken :
      {Q : A → S → Type 0} {r : Option (A × S)}
      → Post P r
      → ((a : A) (s : S) → P a s → Q a s)
      → Post Q r
  weaken faults next = faults
  weaken (returns p) next = returns (next _ _ p)

  pub of_some : {a : A} {s : S} → Post P (some (a, s)) → P a s
  of_some (returns p) = p

-- Actions that are related to the state they start in by one transitive relation.
module _ {S : Type 0} (R : S → S → Type 0) (trans : (s t u : S) → R s t → R t u → R s u) where
  pub after_step :
      {A : Type 0} {s t : S} {x : Option (A × S)}
      → R s t
      → Post (λ (a : A) u. R t u) x
      → Post (λ (a : A) u. R s u) x
  after_step p h = weaken h (λ a u q. trans _ _ u p q)

  pub sequence :
      {A B : Type 0} (m : Action S A) (k : A → Action S B) (s : S)
      → Post (λ (a : A) t. R s t) (m s)
      → ((a : A) (t : S) → Post (λ (b : B) u. R t u) (k a t))
      → Post (λ (b : B) u. R s u) ((m >>= k) s)
  sequence m k s h next = bind m k s h (λ a t p. after_step p (next a t))

-- An action followed by another, where the result of the first is known.
pub bind_eq :
    {S A B : Type 0} (m : Action S A) (k : A → Action S B) (s : S) (a : A) (s' : S)
    → m s ≡ some (a, s')
    → (m >>= k) s ≡ k a s'
bind_eq {S} {A} {B} m k s a s' e =
    ap
      (λ (r : Option (A × S)). elim r as (λ _. Option (B × S)) [
        | none ↦ none
        | some (a, s') ↦ k a s'
      ])
      e

-- ===== src/Xv6/Outcome.antt =====
-- Kernel code that may panic, or not return: an action takes a state to a result and a new state.

-- `hangs` is a sleep that only another process ends, or a loop that runs out of fuel.
pub data Outcome {ℓ} (A : Type ℓ) : Type ℓ where
  done : A → Outcome A
  panics : Outcome A
  hangs : Outcome A

abbrev pub Action : Type 0 → Type 0 → Type 0
Action S A = S → Outcome (A × S)

module _ {S : Type 0} {A : Type 0} where
  abbrev pub pure : A → Action S A
  pure a s = done (a, s)

  abbrev pub panic : Action S A
  panic s = panics

  abbrev pub hang : Action S A
  hang s = hangs

  abbrev pub gets : (S → A) → Action S A
  gets f s = done (f s, s)

abbrev pub modify : {S : Type 0} → (S → S) → Action S (Unit {0})
modify f s = done (tt, f s)

infixl 5 ◌>>=◌ ◌>>◌
abbrev pub ◌>>=◌ : {S A B : Type 0} → Action S A → (A → Action S B) → Action S B
◌>>=◌ m f s = elim (m s) [ done (a, s') ↦ f a s' | panics ↦ panics | hangs ↦ hangs ]

abbrev pub ◌>>◌ : {S A B : Type 0} → Action S A → Action S B → Action S B
m >> k = m >>= λ _. k

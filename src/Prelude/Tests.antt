-- ===== src/Prelude/Tests.antt =====
-- Boolean tests on the native numbers, and the conditional.
use Prim.Native.Nat.{ℕ, zero, suc, ◌≤◌, ◌<◌, compare, Ordering, ◌+◌}
use mathlib.Core.Path.{◌≡◌, refl, sym, ap, ◌∙◌}
use mathlib.Core.Logic.{◌↔◌, ◌⊎◌, inl, inr}
use mathlib.Core.Bool.{Bool, true, false}
use mathlib.Core.Option.{Option, none, some}
use native.Mathlib.Omega.{arith}

-- These compute to `compare`, which `ground` and `grind` read with no lemma listed.
abbrev pub ltb : ℕ → ℕ → Bool
ltb a b = elim (compare a b) [ Ordering.lt ↦ true | _ ↦ false ]

abbrev pub leb : ℕ → ℕ → Bool
leb a b = elim (compare a b) [ Ordering.gt ↦ false | _ ↦ true ]

infix 50 ◌==◌
abbrev pub ◌==◌ : ℕ → ℕ → Bool
a == b = elim (compare a b) [ Ordering.eq ↦ true | _ ↦ false ]

infix 1 if◌then◌else◌
abbrev pub if◌then◌else◌ {ℓ} : {A : Type ℓ} → Bool → A → A → A
if true then x else y = x
if false then x else y = y

-- `omega` reads a test through such lemmas.
pub ltb→lt : (a b : ℕ) → ltb a b ≡ true → a < b
ltb→lt a b h = ground arith

pub lt→ltb : (a b : ℕ) → a < b → ltb a b ≡ true
lt→ltb a b h = ground arith

pub leb→le : (a b : ℕ) → leb a b ≡ true → a ≤ b
leb→le a b h = ground arith

pub ==_iff : (a b : ℕ) → ((a == b) ≡ true) ↔ (a ≡ b)
==_iff a b = ground arith

pub ruleset tests = (arith, ltb→lt, lt→ltb, leb→le)

-- To split on a computed value and keep the equation.
pub Bool-cases : (b : Bool) → (b ≡ true) ⊎ (b ≡ false)
Bool-cases true = inl refl
Bool-cases false = inr refl

pub Option-cases {ℓ} : {A : Type ℓ} (o : Option A) → (o ≡ none) ⊎ ((a : A) × (o ≡ some a))
Option-cases none = inl refl
Option-cases (some a) = inr (a, refl)

abbrev pub is_some {ℓ} : {A : Type ℓ} → Option A → Bool
is_some none = false
is_some (some _) = true

-- What holds of both branches, each under its test.
pub if_keep {ℓ κ} :
    {A : Type ℓ} (P : A → Type κ) (b : Bool) (x y : A)
    → (b ≡ true → P x)
    → (b ≡ false → P y)
    → P (if b then x else y)
if_keep P true x y f g = f refl
if_keep P false x y f g = g refl

-- A test of `left` numbers from `first` on, by evaluation.
unfoldable pub passes : (ℕ → Bool) → ℕ → ℕ → Bool
passes test first zero = true
passes test first (suc left) = if test first then passes test (first + 1) left else false

passed :
    (test : ℕ → Bool) (first left k : ℕ)
    → passes test first left ≡ true
    → first ≤ k
    → k < first + left
    → test k ≡ true
unfolding passes
passed test first zero k all low high = absurd (omega arith)
passed test first (suc left) k all low high = elim (Bool-cases (test first)) [
  | inl good ↦
      let more : passes test (first + 1) left ≡ true = sym (rw good refl) ∙ all in
      elim (Bool-cases (k == first)) [
        | inl here ↦ ap test (ground arith) ∙ good
        | inr later ↦ passed test (first + 1) left k more (ground arith) (omega arith)
      ]
  | inr bad ↦
      let stopped : passes test first (suc left) ≡ false = rw bad refl in cc (sym all ∙ stopped)
]

-- A test that is passed from 0 on is passed at every number below the bound.
pub passes_lem :
    (test : ℕ → Bool) (bound k : ℕ) → passes test 0 bound ≡ true → k < bound → test k ≡ true
passes_lem test bound k all below = passed test 0 bound k all (omega arith) (omega arith)

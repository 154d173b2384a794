-- ===== src/Xv6/Strings/Compare.antt =====
-- memcmp, strncmp and strlen of xv6/kernel/string.c against what they decide.
use p.Prelude.{ℕ, zero, suc, ◌+◌, ◌≤◌, ◌<◌, ◌≡◌, ◌≢◌, ◌↔◌, refl, ap, ◌∙◌, some, ℕ_discrete, arith}
use p.Xv6.Strings.{Memory, memcmp, strlen}

-- The two regions hold the same n bytes.
abbrev pub SameBytes : Memory → ℕ → ℕ → ℕ → Type 0
SameBytes m p q n = (i : ℕ) → i < n → m (p + i) ≡ m (q + i)

SameBytes-suc :
    (m : Memory) (p q n : ℕ) → m p ≡ m q → SameBytes m (p + 1) (q + 1) n → SameBytes m p q (suc n)
SameBytes-suc m p q n e h zero l = ap m (omega arith) ∙ e ∙ ap m (omega arith)
SameBytes-suc m p q n e h (suc i) l = ap m (omega arith) ∙ h i (omega arith) ∙ ap m (omega arith)

SameBytes-tail : (m : Memory) (p q n : ℕ) → SameBytes m p q (suc n) → SameBytes m (p + 1) (q + 1) n
SameBytes-tail m p q n h i l = ap m (omega arith) ∙ h (suc i) (omega arith) ∙ ap m (omega arith)

memcmp_sound :
    (m : Memory) (p q n : ℕ) → ((a : ℕ) → m a < 256) → memcmp m p q n ≡ 0 → SameBytes m p q n
unfolding memcmp
memcmp_sound m p q zero b h = λ i l. elim l [ ]
memcmp_sound m p q (suc n) b h =
    SameBytes-suc m p q n (ground (arith, b p, b q))
      (memcmp_sound m (p + 1) (q + 1) n b (ground (arith, b p, b q)))

memcmp_complete : (m : Memory) (p q n : ℕ) → SameBytes m p q n → memcmp m p q n ≡ 0
unfolding memcmp
memcmp_complete m p q zero h = refl
memcmp_complete m p q (suc n) h =
    ground (arith, head, memcmp_complete m (p + 1) (q + 1) n (SameBytes-tail m p q n h))
  where
    head : m p ≡ m q
    head = ap m (omega arith) ∙ h 0 (omega arith) ∙ ap m (omega arith)

-- memcmp of a memory of bytes returns 0 exactly when the regions hold the same bytes.
memcmp-SameBytes :
    (m : Memory) (p q n : ℕ) → ((a : ℕ) → m a < 256) → (memcmp m p q n ≡ 0) ↔ SameBytes m p q n
memcmp-SameBytes m p q n b = (memcmp_sound m p q n b, memcmp_complete m p q n)

-- strlen from any point finds the first NUL, given fuel for the bytes before it.
strlen-first :
    (m : Memory) (s k : ℕ)
    → m (s + k) ≡ 0
    → ((i : ℕ) → i < k → m (s + i) ≢ 0)
    → (fuel n : ℕ) → n ≤ k
    → k < n + fuel
    → strlen fuel m s n ≡ some k
unfolding strlen
strlen-first m s k z before zero n le lt = absurd (omega arith)
strlen-first m s k z before (suc fuel) n le lt = elim (ℕ_discrete n k) [
  | yes e ↦ rw e (ground (arith, z))
  | no ne ↦ ground (
    arith,
    before n (omega arith),
    strlen-first m s k z before fuel (n + 1) (omega arith) (omega arith),
  )
]

-- ===== src/Xv6/Strings/Move.antt =====
-- memmove, strncpy and safestrcpy of xv6/kernel/string.c: what they leave in memory.
use p.Prelude.{
  ℕ, zero, suc, ◌+◌, ◌-◌, ◌≤◌, ◌<◌, ◌≡◌, ◌∙◌, ◌⊎◌, inl, inr, ◌&&◌, ◌==◌, ltb, leb, if◌then◌else◌,
  Bool-cases, arith,
}
use p.Xv6.Strings.{Memory, store, copy_up, copy_down, memmove, safe_loop, safestrcpy, pad}

-- The memory after a copy that reads all its bytes beforehand.
abbrev pub moved : Memory → ℕ → ℕ → ℕ → Memory
moved m dst src n a = if leb dst a && ltb a (dst + n) then m (src + (a - dst)) else m a

-- Upwards no byte is overwritten before it is read, if the source does not start below the target
-- or ends before it.
copy_up-moved :
    (m : Memory) (d s n a : ℕ) → (d ≤ s) ⊎ (s + n ≤ d) → copy_up m d s n a ≡ moved m d s n a
unfolding copy_up
copy_up-moved m d s zero a h = ground arith
copy_up-moved m d s (suc n) a h =
    copy_up-moved (store m d (m s)) (d + 1) (s + 1) n a (ground arith) ∙ ground arith

copy_down-moved : (m : Memory) (d s n a : ℕ) → s ≤ d → copy_down m d s n a ≡ moved m d s n a
unfolding copy_down
copy_down-moved m d s zero a h = ground arith
copy_down-moved m d s (suc n) a h =
    copy_down-moved (store m (d + n) (m (s + n))) d s n a h ∙ ground arith

-- memmove copies the bytes that the source held before, however the two regions overlap, and
-- changes nothing outside the target.
pub memmove-moved : (m : Memory) (dst src n a : ℕ) → memmove m dst src n a ≡ moved m dst src n a
unfolding memmove
memmove-moved m dst src n a =
    ground (arith, copy_down-moved m dst src n a, copy_up-moved m dst src n a)

pad-above : (m : Memory) (s n a : ℕ) → pad m s n a ≡ (if leb s a && ltb a (s + n) then 0 else m a)
unfolding pad
pad-above m s zero a = ground arith
pad-above m s (suc n) a = pad-above (store m s 0) (s + 1) n a ∙ ground arith

-- safestrcpy writes inside its n bytes alone, and one of them is NUL afterwards.
safe_loop-outside : (m : Memory) (s t n a : ℕ) → (a < s) ⊎ (s + n < a) → safe_loop m s t n a ≡ m a
unfolding safe_loop
safe_loop-outside m s t zero a h = ground arith
safe_loop-outside m s t (suc n) a h =
    ground (arith, safe_loop-outside (store m s (m t)) (s + 1) (t + 1) n a)

safe_loop-ends :
    (m : Memory) (s t n : ℕ) → (a : ℕ) × (s ≤ a) × (a ≤ s + n) × (safe_loop m s t n a ≡ 0)
unfolding safe_loop
safe_loop-ends m s t zero = (s, omega arith, omega arith, ground arith)
safe_loop-ends m s t (suc n) = elim (Bool-cases (m t == 0)) [
  | inl stop ↦ (s + 1, omega arith, omega arith, rw stop (ground arith))
  | inr go ↦
      let (a, lo, hi, z) = safe_loop-ends (store m s (m t)) (s + 1) (t + 1) n in
      (a, omega (arith, lo), omega (arith, hi), rw go z)
]

-- safestrcpy with room for at least one byte writes inside the target's n bytes alone, and leaves a
-- NUL among them.
safestrcpy-terminated :
    (m : Memory) (s t n : ℕ)
    → 0 < n
    → ((a : ℕ) × (s ≤ a) × (a < s + n) × (safestrcpy m s t n a ≡ 0))
      × ((a : ℕ) → (a < s) ⊎ (s + n ≤ a) → safestrcpy m s t n a ≡ m a)
unfolding safestrcpy
safestrcpy-terminated m s t zero h = elim h [ ]
safestrcpy-terminated m s t (suc n) h =
    let (a, lo, hi, z) = safe_loop-ends m s t n in
    ((a, lo, omega (arith, hi), z), λ a out. safe_loop-outside m s t n a (ground arith))

-- ===== src/Xv6/Strings.antt =====
-- xv6/kernel/string.c over a byte memory. Pointers are addresses that do not wrap round; `uint n`
-- counts down, so each loop recurs on the bytes left.
pub mod Move
pub mod Compare
use p.Prelude.{
  ℕ, zero, suc, ◌+◌, ◌-◌, ◌%◌, ◌^◌, Bool, true, false, ◌&&◌, Option, none, some, List, ◌==◌, ltb,
  not, if◌then◌else◌,
}
use p.Word.{Byte, Word, word_mod}

abbrev pub Memory : Type 0
Memory = ℕ → Byte

-- *a = v
abbrev pub store : Memory → ℕ → Byte → Memory
store m a v b = if b == a then v else m b

-- An int difference of two unsigned chars.
abbrev pub sub_bytes : Byte → Byte → Word
sub_bytes a b = (a + word_mod - b) % word_mod

-- stosb stores the low byte of `c`, n times.
unfoldable pub memset : Memory → ℕ → Word → ℕ → Memory
memset m dst c zero = m
memset m dst c (suc n) = memset (store m dst (c % 256)) (dst + 1) c n

unfoldable pub memcmp : Memory → ℕ → ℕ → ℕ → Word
memcmp m s1 s2 zero = 0
memcmp m s1 s2 (suc n) =
    let rest = memcmp m (s1 + 1) (s2 + 1) n in
    if m s1 == m s2 then rest else sub_bytes (m s1) (m s2)

-- *d++ = *s++
unfoldable pub copy_up : Memory → ℕ → ℕ → ℕ → Memory
copy_up m d s zero = m
copy_up m d s (suc n) = copy_up (store m d (m s)) (d + 1) (s + 1) n

-- *--d = *--s, from d + n and s + n.
unfoldable pub copy_down : Memory → ℕ → ℕ → ℕ → Memory
copy_down m d s zero = m
copy_down m d s (suc n) = copy_down (store m (d + n) (m (s + n))) d s n

unfoldable pub memmove : Memory → ℕ → ℕ → ℕ → Memory
unfolding copy_up copy_down
memmove m dst src n =
    if ltb src dst && ltb dst (src + n) then copy_down m dst src n else copy_up m dst src n

unfoldable pub memcpy : Memory → ℕ → ℕ → ℕ → Memory
unfolding memmove
memcpy m dst src n = memmove m dst src n

unfoldable pub strncmp : Memory → ℕ → ℕ → ℕ → Word
strncmp m p q zero = 0
strncmp m p q (suc n) =
    let rest = strncmp m (p + 1) (q + 1) n in
    if not (m p == 0) && m p == m q then rest else sub_bytes (m p) (m q)

-- The second loop of strncpy: the rest is filled with NULs.
unfoldable pub pad : Memory → ℕ → ℕ → Memory
pad m s zero = m
pad m s (suc n) = pad (store m s 0) (s + 1) n

-- `n` is an int; a negative one copies nothing, like 0.
unfoldable pub strncpy : Memory → ℕ → ℕ → ℕ → Memory
unfolding pad
strncpy m s t zero = m
strncpy m s t (suc n) =
    let m' = store m s (m t) in
    let rest = strncpy m' (s + 1) (t + 1) n in
    let padded = pad m' (s + 1) n in if m t == 0 then padded else rest

-- The loop of safestrcpy, with `n` bytes of room before the last, and the NUL at its end.
unfoldable pub safe_loop : Memory → ℕ → ℕ → ℕ → Memory
safe_loop m s t zero = store m s 0
safe_loop m s t (suc n) =
    let m' = store m s (m t) in
    let rest = safe_loop m' (s + 1) (t + 1) n in
    let stopped = store m' (s + 1) 0 in if m t == 0 then stopped else rest

unfoldable pub safestrcpy : Memory → ℕ → ℕ → ℕ → Memory
unfolding safe_loop
safestrcpy m s t zero = m
safestrcpy m s t (suc n) = safe_loop m s t n

-- The loop of strlen on fuel: `none` if no NUL was met.
unfoldable pub strlen : ℕ → Memory → ℕ → ℕ → Option ℕ
strlen zero m s n = none
strlen (suc fuel) m s n =
    let rest = strlen fuel m s (n + 1) in if m (s + n) == 0 then some n else rest

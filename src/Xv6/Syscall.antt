-- ===== src/Xv6/Syscall.antt =====
-- How a system call reads its arguments, in xv6/kernel/syscall.c: the memory of the process below sz is
-- mapped at its own addresses, and esp is the stack pointer of the trap frame.
pub mod Bounds
use p.Prelude.{
  ℕ, zero, suc, ◌+◌, ◌-◌, ◌*◌, ◌||◌, Option, none, some, List, [], ◌∷◌, ltb, leb, ◌==◌,
  if◌then◌else◌,
}
use p.Word.{Word, Byte, add32, bytes_word}

pub record User : Type 0 where
  pub sz : Word
  pub esp : Word
  pub memory : ℕ → Byte

-- *(int*)addr
abbrev pub int_at : (ℕ → Byte) → ℕ → Word
int_at m a = bytes_word (m a) (m (a + 1)) (m (a + 2)) (m (a + 3))

-- -1 is `none` in each of these functions.
unfoldable pub fetchint : User → Word → Option Word
fetchint u addr =
    if leb u.sz addr || ltb u.sz (add32 addr 4) then none else some (int_at u.memory addr)

abbrev pub option_cons : Byte → Option (List Byte) → Option (List Byte)
option_cons c none = none
option_cons c (some s) = some (c ∷ s)

-- The loop of fetchstr over the k bytes from `a` on.
unfoldable pub string_from : (ℕ → Byte) → ℕ → ℕ → Option (List Byte)
string_from m zero a = none
string_from m (suc k) a =
    let rest = string_from m k (a + 1) in if m a == 0 then some [] else option_cons (m a) rest

-- The bytes before the NUL; their number is what the code returns.
unfoldable pub fetchstr : User → Word → Option (List Byte)
fetchstr u addr = if leb u.sz addr then none else string_from u.memory (u.sz - addr) addr

unfoldable pub argint : User → ℕ → Option Word
argint u n = fetchint u (add32 u.esp (4 + 4 * n))

unfoldable pub argptr : User → ℕ → Word → Option Word
argptr u n size = elim (argint u n) [
  | none ↦ none
  | some i ↦ if leb u.sz i || ltb u.sz (add32 i size) then none else some i
]

unfoldable pub argstr : User → ℕ → Option (List Byte)
argstr u n = elim (argint u n) [ none ↦ none | some addr ↦ fetchstr u addr ]

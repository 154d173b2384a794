-- ===== src/Xv6/Syscall/Bounds.antt =====
-- What the checks of xv6/kernel/syscall.c on pointers and strings promise the system calls.
use p.Prelude.{
  ℕ, zero, suc, ◌+◌, ◌-◌, ◌<◌, ◌≤◌, ◌≡◌, ◌≢◌, refl, ap, subst, ◌∙◌, ◌⊎◌, inl, inr, false, ◌||◌,
  Bool-cases, Option, none, some, List, ◌∷◌, ltb, leb, ◌==◌, length, All, arith,
}
use p.Word.{Word, Byte, add32, is_neg, minus_one}
use p.Disk.{bytes_at}
use p.Xv6.Syscall.{User, argint, argptr, argstr, fetchstr, string_from, option_cons}

-- A block of memory of the process.
pub record IsBlock (u : User) (a size : ℕ) : Type 0 where
  pub start : a < u.sz
  pub end : a + size ≤ u.sz

-- For a size that is not negative, and a process of at most 2 GB, argptr gives the pointer of an argument
-- that can be read exactly where the block at it lies in the memory of the process.
pub argptr-IsBlock :
    (u : User) (n : ℕ) (size a : Word)
    → u.sz ≤ 0x8000_0000
    → is_neg size ≡ false
    → argint u n ≡ some a
    → ((argptr u n size ≡ some a) × IsBlock u a size)
      ⊎ ((argptr u n size ≡ none) × (IsBlock u a size → ⊥))
unfolding argptr
argptr-IsBlock u n size a small pos got =
    rw (argptr, got)
      (elim (Bool-cases (leb u.sz a || ltb u.sz (add32 a size))) [
        | inl e ↦ rw e (inr (refl, λ b. ground (arith, b.start, b.end)))
        | inr e ↦ rw e (inl (refl, record { start = ground arith; end = ground arith }))
      ])

-- A negative size gets past the check: for -1 and a pointer above 0, argptr gives the pointer, though no
-- block of that size lies in the memory of the process.
pub argptr-minus_one :
    (u : User) (n : ℕ) (a : Word)
    → u.sz ≤ 0x8000_0000
    → argint u n ≡ some a
    → 0 < a
    → a < u.sz
    → (argptr u n minus_one ≡ some a) × (IsBlock u a minus_one → ⊥)
unfolding argptr
argptr-minus_one u n a small got pos lt =
    let passes : (leb u.sz a || ltb u.sz (add32 a minus_one)) ≡ false = ground arith in
    (rw (argptr, got, passes) refl, λ b. omega (arith, b.end))

-- A string that ends in the memory of the process.
pub record IsString (u : User) (a : ℕ) (s : List Byte) : Type 0 where
  pub bytes : s ≡ bytes_at u.memory a (length s)
  pub nonzero : All (λ c. c ≢ 0) s
  pub ends : u.memory (a + length s) ≡ 0
  pub below : a + length s < u.sz

-- What string_from finds.
abbrev Reads : (ℕ → Byte) → ℕ → ℕ → Option (List Byte) → Type 0
Reads m k a none = (j : ℕ) → j < k → m (a + j) ≢ 0
Reads m k a (some s) =
    (s ≡ bytes_at m a (length s)) × All (λ c. c ≢ 0) s × (m (a + length s) ≡ 0) × (length s < k)

string_from-Reads : (m : ℕ → Byte) (k a : ℕ) → Reads m k a (string_from m k a)
unfolding string_from bytes_at
string_from-Reads m zero a = λ j lt. absurd (omega arith)
string_from-Reads m (suc k) a = elim (Bool-cases (m a == 0)) [
  | inl e ↦
      rw e (refl, tt, ap m (let z : a + 0 ≡ a = omega arith in z) ∙ ground (arith, e), omega arith)
  | inr e ↦ rw e (later e (string_from m k (a + 1)) (string_from-Reads m k (a + 1)))
]
  where
    later :
        (m a == 0) ≡ false
        → (o : Option (List Byte)) → Reads m k (a + 1) o
        → Reads m (suc k) a (option_cons (m a) o)
    later e none all = every
      where
        every : (j : ℕ) → j < suc k → m (a + j) ≢ 0
        every zero lt = λ z. ground (arith, e, z)
        every (suc j) lt = subst (λ b. m b ≢ 0) (omega arith) (all j (omega arith))
    later e (some s) (b, n, z, lt) =
        (ap (λ l. m a ∷ l) b, (λ z. ground (arith, e, z), n), ap m (omega arith) ∙ z, omega arith)

-- argstr gives the string at the pointer: its bytes up to the first NUL, which lies in the memory of the
-- process; it refuses a pointer where no NUL lies between it and the end of that memory.
pub argstr-IsString :
    (u : User) (n : ℕ) (a : Word)
    → argint u n ≡ some a
    → ((s : List Byte) × (argstr u n ≡ some s) × IsString u a s)
      ⊎ ((argstr u n ≡ none) × ((j : ℕ) → a ≤ j → j < u.sz → u.memory j ≢ 0))
unfolding argstr fetchstr
argstr-IsString u n a got = elim (Bool-cases (leb u.sz a)) [
  | inl e ↦ inr (rw (argstr, got, fetchstr, e) refl, λ j at lt. absurd (ground arith))
  | inr e ↦ go e (string_from u.memory (u.sz - a) a) refl (string_from-Reads u.memory (u.sz - a) a)
]
  where
    go :
        leb u.sz a ≡ false
        → (o : Option (List Byte)) → string_from u.memory (u.sz - a) a ≡ o
        → Reads u.memory (u.sz - a) a o
        → ((s : List Byte) × (argstr u n ≡ some s) × IsString u a s)
          ⊎ ((argstr u n ≡ none) × ((j : ℕ) → a ≤ j → j < u.sz → u.memory j ≢ 0))
    go e none q all = inr (
      rw (argstr, got, fetchstr, e, q) refl,
      λ j at lt z.
          all (j - a) (omega arith) (ap u.memory (let s : a + (j - a) ≡ j = omega arith in s) ∙ z),
    )
    go e (some s) q (b, n0, z, lt) = inl (
      s,
      rw (argstr, got, fetchstr, e, q) refl,
      record { bytes = b; nonzero = n0; ends = z; below = omega arith },
    )

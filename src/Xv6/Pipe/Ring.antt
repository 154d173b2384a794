-- ===== src/Xv6/Pipe/Ring.antt =====
-- The ring buffer of a pipe (xv6/kernel/pipe.c) and the queue of bytes that it holds.
use p.Prelude.{
  ℕ, zero, suc, ◌+◌, ◌-◌, ◌%◌, ◌≤◌, ◌<◌, ◌≡◌, ◌≢◌, refl, ap, ◌∙◌, List, [], ◌∷◌, ◌++◌, true, false,
  ◌==◌, if◌then◌else◌, length, arith,
}
use p.Word.{Byte, Word, IsWord, word_mod, add32}
use p.Xv6.Pipe.{Pipe, put_byte, skip_byte, next_byte}

-- The k bytes of the ring from counter r on.
unfoldable pub region : (Word → Byte) → Word → ℕ → List Byte
region d r zero = []
region d r (suc k) = d (r % 512) ∷ region d (add32 r 1) k

-- How many bytes the pipe holds: the difference of the counters, which wrap round.
abbrev pub count : Pipe → ℕ
count p = (p.nwrite + word_mod - p.nread) % word_mod

-- The bytes written and not yet read.
abbrev pub contents : Pipe → List Byte
contents p = region p.bytes p.nread (count p)

-- The counters are words, and at most 512 bytes apart.
pub record IsPipe (p : Pipe) : Type 0 where
  pub nread : IsWord p.nread
  pub nwrite : IsWord p.nwrite
  pub room : count p ≤ 512

pub length-region : (d : Word → Byte) (r : Word) (k : ℕ) → length (region d r k) ≡ k
unfolding region
length-region d r zero = refl
length-region d r (suc k) = ap suc (length-region d (add32 r 1) k)

-- A byte stored behind fewer than 512 bytes is the last one, also where the counter wraps round.
region-store :
    (d : Word → Byte) (x : Byte) (w : Word) (k : ℕ) (r : Word)
    → IsWord r
    → k < 512
    → w ≡ (r + k) % word_mod
    → region (λ i. if i == w % 512 then x else d i) r (suc k) ≡ region d r k ++ (x ∷ [])
unfolding region
region-store d x w zero r h l e = let at : (r % 512 == w % 512) ≡ true = ground arith in rw at refl
region-store d x w (suc k) r h l e =
    let off : (r % 512 == w % 512) ≡ false = ground arith in
    rw off (
      ap (λ xs. d (r % 512) ∷ xs)
        (region-store d x w k (add32 r 1) (omega arith) (omega arith) (omega arith)))

pub put_byte-contents :
    (x : Byte) (p : Pipe)
    → IsPipe p
    → count p < 512
    → IsPipe (put_byte x p)
      × (count (put_byte x p) ≡ count p + 1)
      × (contents (put_byte x p) ≡ contents p ++ (x ∷ []))
put_byte-contents x p v h = (
  record { nread = v.nread; nwrite = omega arith; room = omega (arith, v.nread, v.nwrite, h) },
  omega (arith, more),
  ap (region (put_byte x p).bytes p.nread) more
      ∙ region-store p.bytes x p.nwrite (count p) p.nread v.nread h
          (omega (arith, v.nread, v.nwrite)),
)
  where
    more : count (put_byte x p) ≡ suc (count p)
    more = omega (arith, v.nread, v.nwrite, h)

pub skip_byte-contents :
    (p : Pipe)
    → IsPipe p
    → p.nread ≢ p.nwrite
    → IsPipe (skip_byte p)
      × (count (skip_byte p) + 1 ≡ count p)
      × (contents p ≡ next_byte p ∷ contents (skip_byte p))
unfolding region
skip_byte-contents p v h = (
  record {
    nread = omega arith;
    nwrite = v.nwrite;
    room = omega (arith, v.nread, v.nwrite, v.room, h);
  },
  less,
  ap (region p.bytes p.nread) more,
)
  where
    less : count (skip_byte p) + 1 ≡ count p
    less = omega (arith, v.nread, v.nwrite, h)

    more : count p ≡ suc (count (skip_byte p))
    more = omega (arith, less)

-- ===== src/Disk.antt =====
-- The file image behind a descriptor, as linux/lfs.c uses it: `lseek` with SEEK_SET, `read` and
-- `write` of a regular file, with no input or output errors. The file is its bytes, its size and
-- the offset of the descriptor. A seek to a negative offset is refused and leaves the offset; a
-- read stops at the end of the file; a write past the end leaves a hole of zeros.
pub mod Regions
use p.Prelude.{
  ℕ, zero, suc, ◌+◌, ◌-◌, List, [], ◌∷◌, ◌++◌, ◌&&◌, leb, ltb, if◌then◌else◌, length, get_or, take,
  drop, min, max,
}
use p.Word.{Byte, Word, is_neg}

pub record File : Type 0 where
  pub content : ℕ → Byte
  pub size : ℕ
  pub pos : ℕ

-- The `k` bytes from offset `p` on.
unfoldable pub bytes_at : (ℕ → Byte) → ℕ → ℕ → List Byte
bytes_at c p zero = []
bytes_at c p (suc k) = c p ∷ bytes_at c (p + 1) k

-- The bytes `xs` put at offset `p`.
unfoldable pub splice : (ℕ → Byte) → ℕ → List Byte → ℕ → Byte
splice c p xs a = if leb p a && ltb a (p + length xs) then get_or xs (a - p) 0 else c a

-- The offset is an `int` (or a small unsigned value), so a negative one has its top bit set.
unfoldable pub lseek : File → Word → File
lseek f off = if is_neg off then f else record f { pos = off }

unfoldable pub write : File → List Byte → File
unfolding splice
write f xs = record f {
  content = splice f.content f.pos xs;
  size = max f.size (f.pos + length xs);
  pos = f.pos + length xs;
}

-- `read(fd, buf, n)` where `old` is what the buffer held: the buffer afterwards, and the file.
unfoldable pub read : File → ℕ → List Byte → List Byte × File
unfolding bytes_at
read f n old =
    let got = bytes_at f.content f.pos (min n (f.size - f.pos)) in
    (take n (got ++ drop (length got) old), record f { pos = f.pos + length got })

-- ===== src/Xv6/Fs/File.antt =====
-- Inode contents of xv6/kernel/fs.c: iupdate, bmap, itrunc, stati, readi and writei. The struct inode is
-- a value here: its callers hold its lock. `dev` and `inum` are its other two fields.
pub mod Checked
pub mod Stored
use Prim.Native.Nat.{bit_xor}
use p.Prelude.{
  ℕ, zero, suc, ◌+◌, ◌-◌, ◌*◌, ◌/◌, ◌%◌, ◌^◌, min, Bool, true, false, ◌&&◌, ◌||◌, Option, none,
  some, List, [], ◌∷◌, ◌++◌, ltb, leb, ◌==◌, if◌then◌else◌, get_or, set, take, drop,
}
use p.Word.{Word, Byte, word_mod, minus_one, add32}
use p.Disk.{splice, bytes_at}
use p.Xv6.Outcome.{Outcome, done, Action, pure, panic, hang, ◌>>=◌, ◌>>◌}
use p.Xv6.Fs.{
  Block, Drives, Dinode, bread, bwrite, iblock, ipb, bsize, ndirect, nindirect, maxfile, t_dev,
  t_checked, word_of, set_word, dinode_bytes,
}
use p.Xv6.Fs.Alloc.{balloc, bfree}

-- addr & 0x00ffffff, (addr & 0xff000000) >> SHIFT3BYTES, and the two put together.
abbrev pub address : Word → Word
address w = w % 2 ^ 24

abbrev pub checksum_of : Word → Byte
checksum_of w = w / 2 ^ 24 % 256

abbrev pub with_checksum : Word → Byte → Word
with_checksum w sum = w % 2 ^ 24 + sum * 2 ^ 24

unfoldable pub iupdate : Word → Word → Dinode → Action Drives (Unit {0})
iupdate dev inum n = do
  bytes ← bread dev (iblock inum)
  bwrite dev (iblock inum) (splice bytes (inum % ipb * 64) (dinode_bytes n))

-- A pointer of the inode as bmap reads it.
abbrev pub pointer : Dinode → Word → Word
pointer n w = if n.type == t_checked then address w else w

-- The address at index i of addrs, allocated if it is 0.
unfoldable pub bmap_slot : Word → Dinode → ℕ → Action Drives (Word × Dinode)
bmap_slot dev n i = elim (pointer n (get_or n.addrs i 0) == 0) [
  | false ↦ pure (pointer n (get_or n.addrs i 0), n)
  | true ↦ do b ← balloc dev; pure (pointer n b, record n { addrs = set n.addrs i (pointer n b) })
]

unfoldable pub bmap : Word → Dinode → Word → Action Drives (Word × Dinode)
bmap dev n bn = elim (ltb bn ndirect) [
  | true ↦ bmap_slot dev n bn
  | false ↦ elim (ltb (bn - ndirect) nindirect) [
    | true ↦ do
      (addr, n') ← bmap_slot dev n ndirect
      a ← bread dev addr
      elim (pointer n (word_of a (bn - ndirect)) == 0) [
        | false ↦ pure (pointer n (word_of a (bn - ndirect)), n')
        | true ↦ do
          b ← balloc dev
          bwrite dev addr (set_word a (bn - ndirect) (pointer n b))
          pure (pointer n b, n')
      ]
    | false ↦ panic
  ]
]

-- The loops of itrunc over the direct pointers, and over the words of the indirect block from j on.
unfoldable pub itrunc_direct : Word → List Word → Action Drives (Unit {0})
itrunc_direct dev [] = pure tt
itrunc_direct dev (a ∷ addrs) = elim (a == 0) [
  | true ↦ itrunc_direct dev addrs
  | false ↦ do bfree dev a; itrunc_direct dev addrs
]

unfoldable pub itrunc_indirect : Word → Block → ℕ → ℕ → Action Drives (Unit {0})
itrunc_indirect dev a zero j = pure tt
itrunc_indirect dev a (suc k) j = elim (word_of a j == 0) [
  | true ↦ itrunc_indirect dev a k (j + 1)
  | false ↦ do bfree dev (word_of a j); itrunc_indirect dev a k (j + 1)
]

unfoldable pub itrunc : Word → Word → Dinode → Action Drives Dinode
itrunc dev inum n = do
  itrunc_direct dev (take ndirect n.addrs)
  elim (get_or n.addrs ndirect 0 == 0) [
    | true ↦ pure tt
    | false ↦ do
      a ← bread dev (get_or n.addrs ndirect 0)
      itrunc_indirect dev a nindirect 0
      bfree dev (get_or n.addrs ndirect 0)
  ]
  -- What was not 0 is 0 now.
  let n' : Dinode = record n {
    size = 0;
    addrs = 0 ∷ 0 ∷ 0 ∷ 0 ∷ 0 ∷ 0 ∷ 0 ∷ 0 ∷ 0 ∷ 0 ∷ 0 ∷ 0 ∷ 0 ∷ [];
  }
  iupdate dev inum n'
  pure n'

-- The XOR of k bytes from index i on, in a uchar.
unfoldable pub xor_bytes : Block → ℕ → ℕ → Byte → Byte
xor_bytes bytes zero i sum = sum
xor_bytes bytes (suc k) i sum = xor_bytes bytes k (i + 1) (bit_xor sum (bytes i) % 256)

-- The checksum of a block: bytes[0], XORed with each later byte.
unfoldable pub block_checksum : Block → Byte
block_checksum bytes = xor_bytes bytes 511 1 (bytes 0)

pub record Stat : Type 0 where
  pub dev : Word
  pub ino : Word
  pub type : Word
  pub nlink : Word
  pub size : Word
  pub checksum : Byte

-- The XOR of the checksums of some words.
unfoldable pub xor_checksums : List Word → Byte → Byte
xor_checksums [] sum = sum
xor_checksums (w ∷ ws) sum = xor_checksums ws (bit_xor sum (checksum_of w) % 256)

unfoldable pub xor_indirect : Block → ℕ → ℕ → Byte → Byte
xor_indirect indir zero i sum = sum
xor_indirect indir (suc k) i sum =
    xor_indirect indir k (i + 1) (bit_xor sum (checksum_of (word_of indir i)) % 256)

unfoldable pub stati : Word → Word → Dinode → Action Drives Stat
stati dev inum n = do
  indir ← bread dev (address (get_or n.addrs ndirect 0))
  pure (record {
    dev = dev;
    ino = inum;
    type = n.type;
    nlink = n.nlink;
    size = n.size;
    checksum = xor_indirect indir 64 0 (xor_checksums (take ndirect n.addrs) 0);
  })

-- The functions of the device table (devsw) for each major number: what a read gives, and what a write
-- returns.
pub record Devices : Type 0 where
  pub read : Word → Option (ℕ → Word × List Byte)
  pub write : Word → Option (List Byte → ℕ → Word)

-- major < 0 || major >= NDEV, for a short.
abbrev pub no_device : Word → Bool
no_device major = leb 10 major

-- The checksum that the pointers hold for the block at offset `off`.
unfoldable pub stored_checksum : Word → Dinode → Word → Action Drives Byte
stored_checksum dev n off = elim (ltb (off / bsize) ndirect) [
  | true ↦ pure (checksum_of (get_or n.addrs (off / bsize) 0))
  | false ↦ do
    indir ← bread dev (address (get_or n.addrs ndirect 0))
    pure (checksum_of (word_of indir (off / bsize - ndirect)))
]

-- Is the block at `off` of a checked file what its checksum says?
unfoldable pub verify : Word → Dinode → Word → Action Drives (Bool × Dinode)
verify dev n off = elim (n.type == t_checked) [
  | false ↦ pure (true, n)
  | true ↦ do
    (addr, n') ← bmap dev n (off / bsize)
    bytes ← bread dev addr
    stored ← stored_checksum dev n' off
    pure (stored == block_checksum bytes, n')
]

-- The loop of readi, for the n - tot bytes left; each round reads at least one byte. The result tells
-- whether no checksum was wrong; the bytes have been copied to dst.
unfoldable pub readi_loop : ℕ → Word → Dinode → Word → ℕ → Action Drives (Bool × List Byte × Dinode)
readi_loop fuel dev n off zero = pure (true, [], n)
readi_loop zero dev n off (suc left) = hang
readi_loop (suc fuel) dev n off (suc left) = do
  (addr, n1) ← bmap dev n (off / bsize)
  bytes ← bread dev addr
  let m = min (suc left) (bsize - off % bsize)
  let got = bytes_at bytes (off % bsize) m
  (good, n2) ← verify dev n1 off
  elim good [
    | false ↦ pure (false, got, n2)
    | true ↦ do
      (ok, rest, n3) ← readi_loop fuel dev n2 (off + m) (suc left - m)
      pure (ok, got ++ rest, n3)
  ]

-- The result, the bytes copied to dst, and the inode.
unfoldable pub readi :
    Devices → Word → Dinode → Word → Word → Action Drives (Word × List Byte × Dinode)
readi devsw dev n off count = elim (n.type == t_dev) [
  | true ↦ elim (no_device n.major) [
    | true ↦ pure (minus_one, [], n)
    | false ↦ elim (devsw.read n.major) [
      | none ↦ pure (minus_one, [], n)
      | some read ↦ pure ((read count).0, (read count).1, n)
    ]
  ]
  | false ↦ elim (ltb n.size off || ltb (add32 off count) off) [
    | true ↦ pure (minus_one, [], n)
    | false ↦ do
      let len = if ltb n.size (off + count) then n.size - off else count
      (ok, got, n') ← readi_loop len dev n off len
      pure ((if ok then len else minus_one), got, n')
  ]
]

-- What writei does after a block of a checked file is written: its checksum goes to its pointer.
unfoldable pub update_checksum : Word → Dinode → Word → Action Drives Dinode
update_checksum dev n off = elim (n.type == t_checked) [
  | false ↦ pure n
  | true ↦ do
    (addr, n') ← bmap dev n (off / bsize)
    bytes ← bread dev addr
    elim (ltb (off / bsize) ndirect) [
      | true ↦ pure (record n' {
        addrs =
            set n'.addrs (off / bsize)
              (with_checksum (get_or n'.addrs (off / bsize) 0) (block_checksum bytes));
      })
      | false ↦ do
        let at = address (get_or n'.addrs ndirect 0)
        indir ← bread dev at
        bwrite dev at (
            set_word indir (off / bsize - ndirect)
              (with_checksum (word_of indir (off / bsize - ndirect)) (block_checksum bytes)))
        pure n'
    ]
]

-- The loop of writei; `src` holds the bytes left.
unfoldable pub writei_loop :
    ℕ → Word → Dinode → List Byte → Word → ℕ → Action Drives (Word × Dinode)
writei_loop fuel dev n src off zero = pure (off, n)
writei_loop zero dev n src off (suc left) = hang
writei_loop (suc fuel) dev n src off (suc left) = do
  (addr, n1) ← bmap dev n (off / bsize)
  bytes ← bread dev addr
  let m = min (suc left) (bsize - off % bsize)
  bwrite dev addr (splice bytes (off % bsize) (take m src))
  n2 ← update_checksum dev n1 off
  writei_loop fuel dev n2 (drop m src) (off + m) (suc left - m)

unfoldable pub writei :
    Devices → Word → Word → Dinode → List Byte → Word → Word → Action Drives (Word × Dinode)
writei devsw dev inum n src off count = elim (n.type == t_dev) [
  | true ↦ elim (no_device n.major) [
    | true ↦ pure (minus_one, n)
    | false ↦ elim (devsw.write n.major) [
      | none ↦ pure (minus_one, n)
      | some write ↦ pure (write src count, n)
    ]
  ]
  | false ↦ elim (ltb n.size off || ltb (add32 off count) off) [
    | true ↦ pure (minus_one, n)
    | false ↦ do
      let len =
          if ltb (maxfile * bsize) (off + count)
          then (maxfile * bsize + word_mod - off) % word_mod
          else count
      (end, n1) ← writei_loop len dev n src off len
      let n2 = if ltb 0 len && ltb n1.size end then record n1 { size = end } else n1
      iupdate dev inum n2
      pure (len, n2)
  ]
]

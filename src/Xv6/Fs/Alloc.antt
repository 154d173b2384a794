-- ===== src/Xv6/Fs/Alloc.antt =====
-- The blocks of xv6/kernel/fs.c: bzero, balloc and bfree.
pub mod Bitmap
use p.Prelude.{
  ℕ, zero, suc, ◌+◌, ◌-◌, ◌*◌, ◌/◌, ◌%◌, ◌^◌, true, false, Option, none, some, ltb, ◌==◌,
  if◌then◌else◌,
}
use p.Word.{Word, Byte, add32}
use p.Xv6.Outcome.{Outcome, done, Action, pure, panic, hang, ◌>>=◌, ◌>>◌}
use p.Xv6.Fs.{Block, Drives, bread, bwrite, readsb, bblock, bpb}

-- bytes[bi/8] & m is not 0, for m = 1 << (bi % 8).
abbrev pub bit_of : Block → ℕ → ℕ
bit_of bytes bi = bytes (bi / 8) / 2 ^ (bi % 8) % 2

-- bytes[bi/8] |= m where the bit is clear, and bytes[bi/8] &= ~m where it is set.
abbrev pub set_bit : Block → ℕ → Block
set_bit bytes bi a = if a == bi / 8 then bytes a + 2 ^ (bi % 8) else bytes a

abbrev pub clear_bit : Block → ℕ → Block
clear_bit bytes bi a = if a == bi / 8 then bytes a - 2 ^ (bi % 8) else bytes a

unfoldable pub bzero : Word → Word → Action Drives (Unit {0})
bzero dev bno = do bread dev bno; bwrite dev bno (λ _. 0)

-- The loop over bi, for k bits.
unfoldable pub find_bit : Block → ℕ → ℕ → Option ℕ
find_bit bytes zero bi = none
find_bit bytes (suc k) bi =
    let rest = find_bit bytes k (bi + 1) in if bit_of bytes bi == 0 then some bi else rest

-- The loop over b. A bitmap of 2^32 bits has 2^20 blocks; the fuel is the size of the disk.
unfoldable pub balloc_from : ℕ → Word → Word → Word → Word → Action Drives Word
unfolding find_bit
balloc_from zero dev size ninodes b = hang
balloc_from (suc fuel) dev size ninodes b = elim (ltb b size) [
  | true ↦ do
    bytes ← bread dev (bblock b ninodes)
    elim (find_bit bytes bpb 0) [
      | some bi ↦ do bwrite dev (bblock b ninodes) (set_bit bytes bi); pure (b + bi)
      | none ↦ balloc_from fuel dev size ninodes (b + bpb)
    ]
  | false ↦ panic
]

unfoldable pub balloc : Word → Action Drives Word
unfolding balloc_from
balloc dev = do sb ← readsb dev; balloc_from (suc sb.size) dev sb.size sb.ninodes 0

unfoldable pub bfree : Word → Word → Action Drives (Unit {0})
unfolding bzero
bfree dev b = do
  bzero dev b
  sb ← readsb dev
  bytes ← bread dev (bblock b sb.ninodes)
  elim (bit_of bytes (b % bpb) == 0) [
    | true ↦ panic
    | false ↦ bwrite dev (bblock b sb.ninodes) (clear_bit bytes (b % bpb))
  ]

-- ===== src/Xv6/Fs/File/Checked.antt =====
-- Checked files of xv6/kernel/fs.c: what readi makes of a checksum.
use p.Prelude.{
  ℕ, zero, suc, ◌+◌, ◌-◌, ◌/◌, ◌%◌, ◌^◌, min, ◌≤◌, ◌<◌, ◌≡◌, ◌≢◌, refl, true, false, ◌||◌, inl, inr,
  Bool-cases, List, ltb, ◌==◌, if◌then◌else◌, get_or, append-nil, arith,
}
use p.Word.{Word, Byte, minus_one, add32}
use p.Disk.{bytes_at}
use p.Xv6.Outcome.{done, pure, ◌>>=◌}
use p.Xv6.Fs.{Drives, Dinode}
use p.Xv6.Fs.File.{
  Devices, address, checksum_of, bmap, bmap_slot, block_checksum, verify, stored_checksum,
  readi_loop, readi,
}

-- A direct block of a checked file is there, and a read or write of len bytes at `off` stays inside it.
pub record InBlock (n : Dinode) (off len : ℕ) : Type 0 where
  pub checked : n.type ≡ 4
  pub direct : off / 512 < 12
  pub present : address (get_or n.addrs (off / 512) 0) ≢ 0
  pub some_bytes : 0 < len
  pub inside : off % 512 + len ≤ 512

-- The address of the block.
abbrev pub block_at : Dinode → ℕ → Word
block_at n off = address (get_or n.addrs (off / 512) 0)

module _ {n : Dinode} {off len : ℕ} (v : InBlock n off len) (dev : Word) (d : Drives) where
  pub bmap-InBlock : bmap dev n (off / 512) d ≡ done ((block_at n off, n), d)
  unfolding bmap bmap_slot
  bmap-InBlock =
      let low : ltb (off / 512) 12 ≡ true = ground (arith, v.direct) in
      let t : (n.type == 4) ≡ true = ground (arith, v.checked) in
      let there : (block_at n off == 0) ≡ false = ground (arith, v.present) in
      rw (bmap, low, bmap_slot, t, there) (rw t refl)

  verify-InBlock :
      verify dev n off d
      ≡ done (
        (checksum_of (get_or n.addrs (off / 512) 0) == block_checksum (d dev (block_at n off)), n),
        d,
      )
  unfolding verify stored_checksum
  verify-InBlock =
      let low : ltb (off / 512) 12 ≡ true = ground (arith, v.direct) in
      let t : (n.type == 4) ≡ true = ground (arith, v.checked) in
      rw (verify, t, ◌>>=◌, bmap-InBlock, stored_checksum, low) refl

  round :
      (fuel left : ℕ)
      → left ≡ len
      → 0 < fuel
      → readi_loop fuel dev n off left d
        ≡ done (
          (
            checksum_of (get_or n.addrs (off / 512) 0) == block_checksum (d dev (block_at n off)),
            bytes_at (d dev (block_at n off)) (off % 512) len,
            n,
          ),
          d,
        )
  unfolding readi_loop
  round zero left e some_fuel = elim some_fuel [ ]
  round (suc fuel) zero e some_fuel = absurd (omega (arith, v.some_bytes))
  round (suc fuel) (suc l) e some_fuel =
      let all : min (suc l) (512 - off % 512) ≡ len = omega (arith, v.inside) in
      let rest : suc l - len ≡ 0 = omega arith in
      elim (Bool-cases
        (checksum_of (get_or n.addrs (off / 512) 0) == block_checksum (d dev (block_at n off)))) [
          | inl good ↦
              rw (readi_loop, ◌>>=◌, bmap-InBlock, verify-InBlock, good)
                (rw (all, rest, readi_loop, ◌>>=◌, append-nil) (rw all refl))
          | inr bad ↦ rw (readi_loop, ◌>>=◌, bmap-InBlock, verify-InBlock, bad) (rw all refl)
        ]

  -- readi inside one block of a checked file copies the bytes, and returns their number if the block has
  -- the checksum that its pointer holds, and -1 if it has another.
  pub readi-InBlock :
      (devsw : Devices)
      → off + len ≤ n.size
      → n.size < 2 ^ 32
      → readi devsw dev n off len d
        ≡ done (
          (
            if checksum_of (get_or n.addrs (off / 512) 0) == block_checksum (d dev (block_at n off))
                then len
                else minus_one,
            bytes_at (d dev (block_at n off)) (off % 512) len,
            n,
          ),
          d,
        )
  unfolding readi readi_loop
  readi-InBlock devsw fits small =
      let t : (n.type == 3) ≡ false = ground (arith, v.checked) in
      let ok : (ltb n.size off || ltb (add32 off len) off) ≡ false = ground (arith, fits, small) in
      let whole : ltb n.size (off + len) ≡ false = ground (arith, fits) in
      rw (readi, t, ok)
        (after (if ltb n.size (off + len) then n.size - off else len) (rw whole refl))
    where
      after :
          (c : ℕ)
          → c ≡ len
          → ◌>>=◌ {B = Word × List Byte × Dinode}
              (readi_loop c dev n off c)
              (λ (good, got, n'). pure (if good then c else minus_one, got, n'))
              d
            ≡ done (
              (
                if checksum_of (get_or n.addrs (off / 512) 0)
                      == block_checksum (d dev (block_at n off))
                    then len
                    else minus_one,
                bytes_at (d dev (block_at n off)) (off % 512) len,
                n,
              ),
              d,
            )
      after c e = rw (◌>>=◌, round c c e (omega (arith, v.some_bytes))) (rw e refl)

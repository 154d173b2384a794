-- ===== src/Xv6/Fs/File/Stored.antt =====
-- Checked files of xv6/kernel/fs.c: writei leaves the checksum that readi wants.
use p.Prelude.{
  ℕ, zero, suc, ◌+◌, ◌-◌, ◌*◌, ◌/◌, ◌%◌, ◌^◌, min, ◌≤◌, ◌<◌, ◌≡◌, ◌≢◌, ◌⊎◌, refl, sym, ap, ◌∙◌,
  true, false, ◌&&◌, ◌||◌, inl, inr, Bool-cases, List, [], ◌∷◌, ltb, ◌==◌, if◌then◌else◌, length,
  get_or, set, take, get_or-set_self, take-append_length, append-nil, All, arith,
}
use p.Word.{Word, Byte, word_mod, minus_one, add32}
use p.Disk.{splice, bytes_at}
use p.Disk.Regions.{bytes_at-splice_self}
use p.Xv6.Outcome.{Outcome, done, pure, ◌>>=◌, ◌>>◌}
use p.Xv6.Fs.{Block, Drives, Dinode, dinode_bytes, store_block, iblock}
use p.Xv6.Fs.Alloc.Bitmap.{store_block_self, store_block_ne}
use p.Xv6.Fs.File.{
  Devices, address, checksum_of, with_checksum, block_checksum, xor_bytes, readi, update_checksum,
  writei_loop, writei, iupdate,
}
use p.Xv6.Fs.File.Checked.{InBlock, block_at, bmap-InBlock, readi-InBlock}

-- The pointer with a checksum keeps its address, and gives the checksum back.
with_checksum_lem :
    (w : Word) (sum : Byte)
    → sum < 256
    → (address (with_checksum w sum) ≡ address w) × (checksum_of (with_checksum w sum) ≡ sum)
with_checksum_lem w sum h = omega arith

xor_bytes-lt : (bytes : Block) (k i : ℕ) (sum : Byte) → sum < 256 → xor_bytes bytes k i sum < 256
unfolding xor_bytes
xor_bytes-lt bytes zero i sum h = h
xor_bytes-lt bytes (suc k) i sum h = xor_bytes-lt bytes k (i + 1) _ (omega arith)

block_checksum-lt : (bytes : Block) → bytes 0 < 256 → block_checksum bytes < 256
block_checksum-lt bytes h = unfold block_checksum in xor_bytes-lt bytes 511 1 (bytes 0) h

take_all : (src : List Byte) (k : ℕ) → k ≡ length src → take k src ≡ src
take_all src k e = ap (take k) (sym (append-nil src)) ∙ take-append_length src [] e

-- The block, the pointers and the size after a write of `src` inside one block.
abbrev written : Drives → Word → Dinode → List Byte → ℕ → Block
written d dev n src off = splice (d dev (block_at n off)) (off % 512) src

abbrev repointed : Dinode → ℕ → Byte → Dinode
repointed n off sum = record n {
  addrs = set n.addrs (off / 512) (with_checksum (get_or n.addrs (off / 512) 0) sum);
}

abbrev resized : Dinode → Word → Dinode
resized n end = if ltb n.size end then record n { size = end } else n

resized_lem :
    (n : Dinode) (end : Word)
    → ((resized n end).addrs ≡ n.addrs)
      × ((resized n end).type ≡ n.type)
      × (end ≤ (resized n end).size)
      × (((resized n end).size ≡ end) ⊎ ((resized n end).size ≡ n.size))
resized_lem n end = elim (Bool-cases (ltb n.size end)) [
  | inl more ↦ rw more (refl, refl, omega arith, inl refl)
  | inr enough ↦ let e : end ≤ n.size = ground arith in rw enough (refl, refl, e, inr refl)
]

All-get_or-lt : (xs : List Byte) (i : ℕ) → All (λ b. b < 256) xs → get_or xs i 0 < 256
All-get_or-lt [] i h = omega arith
All-get_or-lt (x ∷ xs) zero h = h.0
All-get_or-lt (x ∷ xs) (suc i) h = All-get_or-lt xs i h.1

module _ (n : Dinode) (off : ℕ) (src : List Byte) (v : InBlock n off (length src)) (dev inum : Word)
    (d : Drives) (devsw : Devices) (start : off ≤ n.size) (small : n.size < 2 ^ 32)
    (thirteen : length n.addrs ≡ 13) (bytes : (a : ℕ) → d dev (block_at n off) a < 256)
    (new_bytes : All (λ b. b < 256) src) (apart : iblock inum ≢ block_at n off) where
  abbrev at : Word
  at = block_at n off

  abbrev block : Block
  block = written d dev n src off

  abbrev d1 : Drives
  d1 = store_block dev at block d

  abbrev n1 : Dinode
  n1 = repointed n off (block_checksum block)

  abbrev n2 : Dinode
  n2 = resized n1 (off + length src)

  abbrev d2 : Drives
  d2 =
      store_block dev (iblock inum)
        (splice (d1 dev (iblock inum)) (inum % 8 * 64) (dinode_bytes n2)) d1

  update_checksum-InBlock : update_checksum dev n off d1 ≡ done (n1, d1)
  unfolding update_checksum
  update_checksum-InBlock =
      let low : ltb (off / 512) 12 ≡ true = ground (arith, v.direct) in
      let t : (n.type == 4) ≡ true = ground (arith, v.checked) in
      rw (update_checksum, t, ◌>>=◌, bmap-InBlock v dev d1, low)
        (rw (store_block_self d dev at block) refl)

  write_round :
      (fuel left : ℕ)
      → left ≡ length src
      → 0 < fuel
      → writei_loop fuel dev n src off left d ≡ done ((off + length src, n1), d1)
  unfolding writei_loop
  write_round zero left e some_fuel = elim some_fuel [ ]
  write_round (suc fuel) zero e some_fuel = absurd (omega (arith, v.some_bytes))
  write_round (suc fuel) (suc l) e some_fuel =
      let all : min (suc l) (512 - off % 512) ≡ length src = omega (arith, v.inside) in
      let rest : suc l - length src ≡ 0 = omega arith in
      let whole : take (length src) src ≡ src = take_all src (length src) refl in
      rw (writei_loop, ◌>>=◌, bmap-InBlock v dev d, all, whole, update_checksum-InBlock)
        (rw (all, rest, writei_loop) refl)

  -- The bytes, their checksum and the size are written, and the inode goes to the disk.
  writei-InBlock : writei devsw dev inum n src off (length src) d ≡ done ((length src, n2), d2)
  unfolding writei iupdate
  writei-InBlock =
      let t : (n.type == 3) ≡ false = ground (arith, v.checked) in
      let ok : (ltb n.size off || ltb (add32 off (length src)) off) ≡ false =
        ground (arith, start, v.direct, v.inside) in
      rw (writei, t, ok)
        (after
          (if ltb (140 * 512) (off + length src)
            then (140 * 512 + word_mod - off) % word_mod
            else length src)
          (let short : ltb (140 * 512) (off + length src) ≡ false =
              ground (arith, v.direct, v.inside) in
            rw short refl))
    where
      after :
          (c : ℕ)
          → c ≡ length src
          → ◌>>=◌ {B = Word × Dinode}
              (writei_loop c dev n src off c)
              (λ (end, m).
                (iupdate dev inum (if ltb 0 c && ltb m.size end then record m { size = end } else m)
                  >> pure (c, (if ltb 0 c && ltb m.size end then record m { size = end } else m))))
              d
            ≡ done ((length src, n2), d2)
      after c e =
          let pos : ltb 0 c ≡ true = ground (arith, e, v.some_bytes) in
          rw (◌>>=◌, write_round c c e (omega (arith, e, v.some_bytes)), pos)
            (ap (λ k. done ((k, n2), d2)) e)

  block-lt : block_checksum block < 256
  block-lt =
      block_checksum-lt block
        (unfold splice in ground (arith, bytes 0, All-get_or-lt src (0 - off % 512) new_bytes))

  new_pointer :
      get_or n2.addrs (off / 512) 0
      ≡ with_checksum (get_or n.addrs (off / 512) 0) (block_checksum block)
  new_pointer =
      ap (λ ws. get_or ws (off / 512) 0) (resized_lem n1 (off + length src)).0
      ∙ get_or-set_self n.addrs (off / 512) _ 0 (omega (arith, v.direct, thirteen))

  -- What was written is still inside one block, whose pointer keeps its address.
  after-InBlock :
      (block_at n2 off ≡ at)
      × (checksum_of (get_or n2.addrs (off / 512) 0) ≡ block_checksum block)
      × InBlock n2 off (length src)
  after-InBlock =
      let (kept, sum) =
        with_checksum_lem (get_or n.addrs (off / 512) 0) (block_checksum block) block-lt in
      let same : block_at n2 off ≡ at = ap address new_pointer ∙ kept in
      (
        same,
        ap checksum_of new_pointer ∙ sum,
        record {
          checked = (resized_lem n1 (off + length src)).1 ∙ v.checked;
          direct = v.direct;
          present = rw same v.present;
          some_bytes = v.some_bytes;
          inside = v.inside;
        },
      )

  -- writei of some bytes inside one block, which is there, of a checked file returns their number; readi
  -- of the same place, with the inode that writei leaves, then finds the right checksum, returns the
  -- number and gives the bytes back.
  pub readi-writei :
      (m : Dinode) × (t : Drives) × (writei devsw dev inum n src off (length src) d
        ≡ done ((length src, m), t))
      × (readi devsw dev m off (length src) t ≡ done ((length src, src, m), t))
  readi-writei =
      let (same, sum, v2) = after-InBlock in
      let size = resized_lem n1 (off + length src) in
      let stored : d2 dev at ≡ block =
        store_block_ne d1 dev (iblock inum) _ at (λ e. apart (sym e))
        ∙ store_block_self d dev at block in
      let big : n2.size < 2 ^ 32 = omega (arith, size.3, small, v.direct, v.inside) in
      (
        n2,
        d2,
        writei-InBlock,
        readi-InBlock v2 dev d2 devsw size.2 big
            ∙ told (d2 dev (block_at n2 off)) _ (ap (d2 dev) same ∙ stored) sum,
      )
    where
      told :
          (x : Block) (c : Byte)
          → x ≡ block
          → c ≡ block_checksum block
          → ◌≡◌ {A = Outcome ((Word × List Byte × Dinode) × Drives)}
              (done (
                (
                  (if c == block_checksum x then length src else minus_one),
                  bytes_at x (off % 512) (length src),
                  n2,
                ),
                d2,
              ))
              (done ((length src, src, n2), d2))
      told x c e f =
          let right : (block_checksum block == block_checksum block) ≡ true = ground arith in
          rw (e, f, right, bytes_at-splice_self) refl

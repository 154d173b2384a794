-- ===== src/Xv6/Fs/Alloc/Bitmap.antt =====
-- The bitmap of xv6/kernel/fs.c: balloc marks a block that was free, and no other.
use p.Prelude.{
  ℕ, zero, suc, ◌+◌, ◌/◌, ◌%◌, ◌^◌, ◌≤◌, ◌<◌, ◌≡◌, ◌≢◌, refl, ap, ◌∙◌, Bool, true, false, ◌||◌, not,
  inl, inr, Bool-cases, Option, none, some, dec_lt, ltb, ◌==◌, ==_iff, ℕ_discrete, passes,
  passes_lem, if◌then◌else◌, arith,
}
use p.Word.{Word}
use p.Xv6.Outcome.{Outcome, done, panics, hangs, Action, pure, ◌>>◌}
use p.Xv6.Fs.{Block, Drives, store_block, super_block, bwrite, bpb, bblock}
use p.Xv6.Fs.Alloc.{bit_of, set_bit, find_bit, balloc_from, balloc}

-- Bit j of a byte, after bit k, which was clear, is added: at all bytes and places.
abbrev law : ℕ → ℕ → ℕ → Bool
law k j x =
    not (x / 2 ^ k % 2 == 0) || (x + 2 ^ k) / 2 ^ j % 2 == (if j == k then 1 else x / 2 ^ j % 2)

set_table : passes (λ k. passes (λ j. passes (law k j) 0 256) 0 8) 0 8 ≡ true
unfolding passes
set_table = refl

law_holds :
    (k j x : ℕ)
    → k < 8
    → j < 8
    → x < 256
    → x / 2 ^ k % 2 ≡ 0
    → (x + 2 ^ k) / 2 ^ j % 2 ≡ (if j == k then 1 else x / 2 ^ j % 2)
law_holds k j x hk hj hx clear =
    let t : law k j x ≡ true =
      passes_lem (law k j) 256 x
        (passes_lem (λ i. passes (law k i) 0 256) 8 j
          (passes_lem (λ h. passes (λ i. passes (law h i) 0 256) 0 8) 8 k set_table hk) hj)
        hx in
    let c : (x / 2 ^ k % 2 == 0) ≡ true = (==_iff (x / 2 ^ k % 2) 0).1 clear in
    (==_iff _ _).0 (rw c at t)

-- The bit set is set, and the others are as before.
bit_of-set_bit :
    (bytes : Block) (bi c : ℕ)
    → ((a : ℕ) → bytes a < 256)
    → bit_of bytes bi ≡ 0
    → bit_of (set_bit bytes bi) c ≡ (if c == bi then 1 else bit_of bytes c)
bit_of-set_bit bytes bi c small clear = elim (ℕ_discrete (c / 8) (bi / 8)) [
  | yes e ↦
      let at : (c / 8 == bi / 8) ≡ true = (==_iff (c / 8) (bi / 8)).1 e in
      let same : (c == bi) ≡ (c % 8 == bi % 8) = ground (arith, e) in
      rw (at, same)
        (law_holds (bi % 8) (c % 8) (bytes (c / 8)) (omega arith) (omega arith) (small (c / 8))
          (rw e clear))
  | no ne ↦
      let at : (c / 8 == bi / 8) ≡ false = ground (arith, ne) in
      let differs : (c == bi) ≡ false = ground (arith, ne) in rw (at, differs) refl
]

find_bit-some :
    (bytes : Block) (k bi : ℕ) {r : ℕ}
    → find_bit bytes k bi ≡ some r
    → (bi ≤ r) × (r < bi + k) × (bit_of bytes r ≡ 0)
unfolding find_bit
find_bit-some bytes zero bi h = cc
find_bit-some bytes (suc k) bi {r} h = elim (Bool-cases (bit_of bytes bi == 0)) [
  | inl clear ↦
      let e : bi ≡ r = ground arith in
      (omega (arith, e), omega (arith, e), rw (← e) ((==_iff (bit_of bytes bi) 0).0 clear))
  | inr taken ↦
      let (lo, hi, z) = find_bit-some bytes k (bi + 1) (rw taken at h) in
      (omega (arith, lo), omega (arith, hi), z)
]

find_bit-none :
    (bytes : Block) (k bi : ℕ)
    → find_bit bytes k bi ≡ none
    → (j : ℕ) → bi ≤ j
    → j < bi + k
    → bit_of bytes j ≡ 1
unfolding find_bit
find_bit-none bytes zero bi h j lo hi = absurd (omega arith)
find_bit-none bytes (suc k) bi h j lo hi = elim (Bool-cases (bit_of bytes bi == 0)) [
  | inl clear ↦ cc (rw clear at h)
  | inr taken ↦ elim (ℕ_discrete bi j) [
    | yes e ↦ rw (← e) (ground arith)
    | no ne ↦ find_bit-none bytes k (bi + 1) (rw taken at h) j (omega arith) (omega arith)
  ]
]

-- The bit of block c, in a bitmap behind `ninodes` inodes.
abbrev pub bit_in : Drives → Word → Word → Word → ℕ
bit_in d dev ninodes c = bit_of (d dev (bblock c ninodes)) (c % 4096)

-- A result of the search: a block that was free, whose bit alone has changed; or a panic with every
-- block of the disk in use. The search ends.
abbrev pub Allocates : Word → Word → Word → Drives → Outcome (Word × Drives) → Type 0
Allocates dev size ninodes d (done (b, t)) =
    (bit_in d dev ninodes b ≡ 0)
    × (bit_in t dev ninodes b ≡ 1)
    × ((c : Word) → c ≢ b → bit_in t dev ninodes c ≡ bit_in d dev ninodes c)
    × ((s : Word) → s ≢ bblock b ninodes → t dev s ≡ d dev s)
Allocates dev size ninodes d panics = (c : Word) → c < size → bit_in d dev ninodes c ≡ 1
Allocates dev size ninodes d hangs = ⊥

pub store_block_self :
    (d : Drives) (dev q : Word) (new : Block) → store_block dev q new d dev q ≡ new
store_block_self d dev q new = ground arith

pub store_block_ne :
    (d : Drives) (dev q : Word) (new : Block) (s : Word)
    → s ≢ q
    → store_block dev q new d dev s ≡ d dev s
store_block_ne d dev q new s ne = ground (arith, ne)

module _ (dev size ninodes : Word) (d : Drives) (small : (s a : ℕ) → d dev s a < 256) where
  in_block :
      (b bi : ℕ)
      → b % 4096 ≡ 0
      → bi < 4096
      → ((b + bi) % 4096 ≡ bi) × (bblock (b + bi) ninodes ≡ bblock b ninodes)
  in_block b bi al h = (omega arith, omega arith)

  marked :
      (b bi : ℕ)
      → b % 4096 ≡ 0
      → bi < 4096
      → bit_of (d dev (bblock b ninodes)) bi ≡ 0
      → Allocates dev size ninodes d (
          done
            (b + bi, store_block dev (bblock b ninodes) (set_bit (d dev (bblock b ninodes)) bi) d))
  marked b bi al h clear =
      let (place, block) = in_block b bi al h in
      (
        rw (place, block) clear,
        rw (place, block, store_block_self d dev q new) (bits bi ∙ ground arith),
        λ c ne. elim (ℕ_discrete (bblock c ninodes) q) [
          | yes e ↦
              let apart : (c % 4096 == bi) ≡ false = ground (arith, e, ne) in
              rw (e, store_block_self d dev q new) (bits (c % 4096) ∙ rw apart refl)
          | no other ↦
              ap (λ (x : Block). bit_of x (c % 4096))
                (store_block_ne d dev q new (bblock c ninodes) other)
        ],
        λ s ne. store_block_ne d dev q new s (rw (← block) ne),
      )
    where
      q : Word
      q = bblock b ninodes

      old : Block
      old = d dev q

      new : Block
      new = set_bit old bi

      bits : (c : ℕ) → bit_of new c ≡ (if c == bi then 1 else bit_of old c)
      bits c = bit_of-set_bit old bi c (small q) clear

  search :
      (fuel b : ℕ)
      → b % 4096 ≡ 0
      → size < b + fuel
      → 0 < fuel
      → ((c : Word) → c < b → bit_in d dev ninodes c ≡ 1)
      → Allocates dev size ninodes d (balloc_from fuel dev size ninodes b d)
  unfolding balloc_from
  search zero b al enough some_left before = elim some_left [ ]
  search (suc fuel) b al enough some_left before = elim (Bool-cases (ltb b size)) [
    | inr last ↦
        let e : size ≤ b = ground arith in
        rw (balloc_from, Allocates, last) (λ c l. before c (omega arith))
    | inl more ↦
        let lt : b < size = ground arith in
        rw (balloc_from, Allocates, more)
          (step lt (find_bit (d dev (bblock b ninodes)) 4096 0) refl
            (search fuel (b + 4096) (omega arith) (omega arith) (omega arith)))
  ]
    where
      bytes : Block
      bytes = d dev (bblock b ninodes)

      step :
          b < size
          → (found : Option ℕ) → find_bit bytes 4096 0 ≡ found
          → (((c : Word) → c < b + 4096 → bit_in d dev ninodes c ≡ 1)
              → Allocates dev size ninodes d (balloc_from fuel dev size ninodes (b + 4096) d))
          → Allocates dev size ninodes d (
              (elim found as (λ x. Action Drives Word) [
                | some bi ↦ bwrite dev (bblock b ninodes) (set_bit bytes bi) >> pure (b + bi)
                | none ↦ balloc_from fuel dev size ninodes (b + bpb)
              ])
                d)
      step lt (some bi) e rest =
          let (lo, hi, clear) = find_bit-some bytes 4096 0 e in
          marked b bi al (omega (arith, hi)) clear
      step lt none e rest = rest (λ c l. elim (dec_lt c b) [
        | yes early ↦ before c early
        | no late ↦
            let block : bblock c ninodes ≡ bblock b ninodes = omega arith in
            rw block (find_bit-none bytes 4096 0 e (c % 4096) (omega arith) (omega arith))
      ])

-- balloc, on drives of bytes, ends: it returns a block whose bit in the bitmap was 0 and is 1 now, every
-- other bit and every sector but the one of that bit being as before; or it panics, and then the bit of
-- every block of the disk was 1.
pub balloc-Allocates :
    (dev : Word) (d : Drives)
    → ((s a : ℕ) → d dev s a < 256)
    → Allocates dev (super_block d dev).size (super_block d dev).ninodes d (balloc dev d)
unfolding balloc
balloc-Allocates dev d small =
    search dev (super_block d dev).size (super_block d dev).ninodes d small
      (suc (super_block d dev).size) 0 (omega arith) (omega arith) (omega arith)
      (λ c l. absurd (omega (arith, l)))

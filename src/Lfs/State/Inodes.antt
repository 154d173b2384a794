-- ===== src/Lfs/State/Inodes.antt =====
-- Where a block lies in the image, what find_inode of linux/lfs.c reads, and which calls leave the
-- image as it was.
use p.Prelude.{
  min, ◌-◌, ℕ, ◌+◌, ◌*◌, ◌%◌, ◌≤◌, ◌<◌, ◌≡◌, refl, sym, ap, ◌∙◌, false, ◌||◌, List, [], append-nil,
  Bool-cases, ◌==◌, true, inl, inr, ◌^◌, leb, arith,
}
use p.Word.{Word, Byte, minus_one, is_neg}
use p.Disk.{read, bytes_at}
use p.Disk.Regions.{read_full, length-bytes_at}
use p.Struct.{Inode, IsInode, encode_inode, decode_inode}
use p.Struct.Roundtrip.{decode_inode-encode_inode}
use p.Lfs.State.{Lfs, seek, seek_block, fetch, find_inode}

-- A block of the log, whose offset is a positive int.
abbrev pub IsBlock : Word → Type 0
IsBlock b = (6 ≤ b) × (b < 0x80000)

pub seek_block_lem : (b : Word) (s : Lfs) → b < 0x80000 → seek_block b s ≡ seek (b * 4096) s
unfolding seek_block seek
seek_block_lem b s h = ground arith

-- The block number -1 of an unused inode: the seek is refused.
pub seek_block_unused : (s : Lfs) → seek_block minus_one s ≡ s
unfolding seek_block
seek_block_unused s = refl

-- Two states with the same globals and the same image, at any offset.
pub record SameImage (s t : Lfs) : Type 0 where
  pub imap : t.imap ≡ s.imap
  pub next_block : t.next_block ≡ s.next_block
  pub content : t.file.content ≡ s.file.content
  pub size : t.file.size ≡ s.file.size

pub SameImage-refl : (s : Lfs) → SameImage s s
SameImage-refl s = record { imap = refl; next_block = refl; content = refl; size = refl }

pub SameImage-trans : {s t u : Lfs} → SameImage s t → SameImage t u → SameImage s u
SameImage-trans a b = record {
  imap = b.imap ∙ a.imap;
  next_block = b.next_block ∙ a.next_block;
  content = b.content ∙ a.content;
  size = b.size ∙ a.size;
}

pub seek_block-SameImage : (b : Word) (s : Lfs) → SameImage s (seek_block b s)
unfolding seek_block
seek_block-SameImage b s = elim (Bool-cases (is_neg (b * 4096 % 2 ^ 32))) [
  | inl e ↦ rw e (SameImage-refl s)
  | inr e ↦ rw e (record { imap = refl; next_block = refl; content = refl; size = refl })
]

pub fetch-SameImage : (n : ℕ) (old : List Byte) (s : Lfs) → SameImage s (fetch n old s).1
unfolding fetch read
fetch-SameImage n old s = record { imap = refl; next_block = refl; content = refl; size = refl }

pub find_inode-SameImage :
    (i : Word) (node : List Byte) (s : Lfs) → SameImage s (find_inode i node s).2
unfolding find_inode
find_inode-SameImage i node s = elim (Bool-cases (is_neg i || leb 4096 i)) [
  | inl e ↦ rw e (SameImage-refl s)
  | inr e ↦ rw e (SameImage-trans (seek_block-SameImage (s.imap i) s) (fetch-SameImage 124 node _))
]

-- A whole region read at a block.
pub fetch_at :
    (b : Word) (n : ℕ) (old : List Byte) (s : Lfs)
    → b < 0x80000
    → b * 4096 + n ≤ s.file.size
    → (fetch n old (seek_block b s)).0 ≡ bytes_at s.file.content (b * 4096) n
unfolding fetch seek
fetch_at b n old s h k = rw (seek_block_lem b s h) (read_full _ n old k)

pub fetch_full :
    (n : ℕ) (old : List Byte) (s : Lfs)
    → s.file.pos + n ≤ s.file.size
    → ((fetch n old s).0 ≡ bytes_at s.file.content s.file.pos n)
      × ((fetch n old s).1.file.pos ≡ s.file.pos + n)
unfolding fetch read
fetch_full n old s h = (
  read_full _ n old h,
  omega (arith, length-bytes_at s.file.content s.file.pos (min n (s.file.size - s.file.pos))),
)

-- Inode `i` is in use, and its block holds `n`.
pub record InodeOn (s : Lfs) (i : Word) (n : Inode) : Type 0 where
  pub number : i < 4096
  pub block : IsBlock (s.imap i)
  pub stored : bytes_at s.file.content (s.imap i * 4096) 124 ≡ encode_inode n
  pub fields : IsInode n
  pub inside : s.imap i * 4096 + 124 ≤ s.file.size

pub in_range : (i : Word) → i < 4096 → (is_neg i || leb 4096 i) ≡ false
in_range i h = ground arith

-- find_inode succeeds for the numbers below MAXINODES alone.
pub find_inode-number :
    (i : Word) (node : List Byte) (s : Lfs) → ((find_inode i node s).0 == 0) ≡ true → i < 4096
unfolding find_inode
find_inode-number i node s h = ground arith

module _ {s : Lfs} {i : Word} {n : Inode} (on : InodeOn s i n) (node : List Byte) where
  pub find_inode-rc : (find_inode i node s).0 ≡ 0
  unfolding find_inode
  find_inode-rc = rw (in_range i on.number)

  pub find_inode-node : decode_inode (find_inode i node s).1 ≡ n
  unfolding find_inode
  find_inode-node = rw (in_range i on.number) (
      ap decode_inode (
        fetch_at (s.imap i) 124 node s on.block.1 on.inside
        ∙ on.stored
        ∙ sym (append-nil (encode_inode n)))
      ∙ decode_inode-encode_inode n [] on.fields)

pub InodeOn-SameImage :
    {s t : Lfs} {i : Word} {n : Inode} → SameImage s t → InodeOn s i n → InodeOn t i n
InodeOn-SameImage {s} {t} {i} {n} e on = record {
  number = on.number;
  block = rw e.imap on.block;
  stored = rw (e.imap, e.content) on.stored;
  fields = on.fields;
  inside = rw (e.imap, e.size) on.inside;
}

-- Block `b` of the image holds the 4096 bytes `bs`.
pub record BlockOn (s : Lfs) (b : Word) (bs : List Byte) : Type 0 where
  pub block : b < 0x80000
  pub stored : bytes_at s.file.content (b * 4096) 4096 ≡ bs
  pub inside : b * 4096 + 4096 ≤ s.file.size

pub fetch-BlockOn :
    {s : Lfs} {b : Word} {bs : List Byte} (old : List Byte)
    → BlockOn s b bs
    → (fetch 4096 old (seek_block b s)).0 ≡ bs
fetch-BlockOn old on = fetch_at _ 4096 old _ on.block on.inside ∙ on.stored

pub BlockOn-SameImage :
    {s t : Lfs} {b : Word} {bs : List Byte} → SameImage s t → BlockOn s b bs → BlockOn t b bs
BlockOn-SameImage e on = record {
  block = on.block;
  stored = rw e.content on.stored;
  inside = rw e.size on.inside;
}

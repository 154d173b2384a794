-- ===== src/Lfs/State/Checkpoint.antt =====
-- The checkpoint region of the image (4096 words of the inode map, then next_block): update_cr of
-- linux/lfs.c writes it, and every other write of a log block leaves it alone.
use p.Prelude.{
  ℕ, ◌+◌, ◌*◌, ◌/◌, ◌%◌, ℕ_discrete, dec_lt, ◌≤◌, ◌<◌, ◌≡◌, ◌≢◌, refl, sym, ap, ◌∙◌, ◌⊎◌, inl, inr,
  false, List, ◌==◌, length, arith,
}
use p.Word.{Word, Byte, IsWord, minus_one, word_bytes, bytes_word, bytes_word-word_bytes}
use p.Disk.{splice, write}
use p.Disk.Regions.{splice_out}
use p.Lfs.State.{Lfs, seek, seek_block, put, update_cr}
use p.Lfs.State.Inodes.{IsBlock, seek_block_lem, SameImage}

-- The word at offset `a`.
abbrev pub word_at : (ℕ → Byte) → ℕ → Word
word_at c a = bytes_word (c a) (c (a + 1)) (c (a + 2)) (c (a + 3))

pub word_at-splice_ne :
    (c : ℕ → Byte) (p : ℕ) (xs : List Byte) (a : ℕ)
    → (a + 4 ≤ p) ⊎ (p + length xs ≤ a)
    → word_at (splice c p xs) a ≡ word_at c a
word_at-splice_ne c p xs a h = rw (
  splice_out c p xs a (ground arith),
  splice_out c p xs (a + 1) (ground arith),
  splice_out c p xs (a + 2) (ground arith),
  splice_out c p xs (a + 3) (ground arith),
)

pub word_at-splice_self :
    (c : ℕ → Byte) (p : ℕ) (w : Word) → IsWord w → word_at (splice c p (word_bytes w)) p ≡ w
word_at-splice_self c p w h = split ∙ bytes_word-word_bytes w h
  where
    split :
        word_at (splice c p (word_bytes w)) p
        ≡ bytes_word (w % 256) (w / 256 % 256) (w / 65536 % 256) (w / 16777216 % 256)
    split = unfold splice word_bytes in ground arith

-- The checkpoint region agrees with the globals.
pub record Saved (s : Lfs) : Type 0 where
  pub table : (j : ℕ) → j < 4096 → word_at s.file.content (4 * j) ≡ s.imap j
  pub next : word_at s.file.content 16384 ≡ s.next_block
  pub inside : 16388 ≤ s.file.size

-- Map entries are -1 or blocks of the log, and the log ends below the blocks whose offset is no
-- longer a positive int.
pub record InRange (s : Lfs) : Type 0 where
  pub entries : (j : ℕ) → j < 4096 → (s.imap j ≡ minus_one) ⊎ IsBlock (s.imap j)
  pub log_end : IsBlock s.next_block

pub entry-IsWord : (w : Word) → (w ≡ minus_one) ⊎ IsBlock w → IsWord w
entry-IsWord w (inl e) = omega arith
entry-IsWord w (inr b) = omega arith

-- From `s` to `t` the map and the checkpoint region have not changed.
pub record Kept (s t : Lfs) : Type 0 where
  pub imap : t.imap ≡ s.imap
  pub low : (a : ℕ) → a < 24576 → t.file.content a ≡ s.file.content a
  pub size : s.file.size ≤ t.file.size

pub Kept-trans : {s t u : Lfs} → Kept s t → Kept t u → Kept s u
Kept-trans p q = record {
  imap = q.imap ∙ p.imap;
  low = λ a h. q.low a h ∙ p.low a h;
  size = omega arith;
}

pub SameImage-Kept : {s t : Lfs} → SameImage s t → Kept s t
SameImage-Kept e = record {
  imap = e.imap;
  low = λ a h. ap (λ (f : ℕ → Byte). f a) e.content;
  size = omega arith;
}

pub put-Kept : (bs : List Byte) (s : Lfs) → 24576 ≤ s.file.pos → Kept s (put bs s)
unfolding put write
put-Kept bs s h = record {
  imap = refl;
  low = λ a l. splice_out s.file.content s.file.pos bs a (inl (omega arith));
  size = omega arith;
}

-- A write at the start of a log block.
pub put_block-Kept :
    (b : Word) (bs : List Byte) (s : Lfs) → IsBlock b → Kept s (put bs (seek_block b s))
unfolding seek
put_block-Kept b bs s h =
    rw (seek_block_lem b s h.1) (record { imap = k.imap; low = k.low; size = k.size })
  where
    k : Kept (seek (b * 4096) s) (put bs (seek (b * 4096) s))
    k = put-Kept bs (seek (b * 4096) s) (omega arith)

pub word_at-Kept :
    {s t : Lfs}
    → Kept s t
    → (a : ℕ) → a + 4 ≤ 24576
    → word_at t.file.content a ≡ word_at s.file.content a
word_at-Kept k a h = rw (
  k.low a (omega arith),
  k.low (a + 1) (omega arith),
  k.low (a + 2) (omega arith),
  k.low (a + 3) (omega arith),
)

-- The map's other entries agree with the image.
abbrev pub SavedBut : Word → Lfs → Type 0
SavedBut i s = (j : ℕ) → j < 4096 → j ≢ i → word_at s.file.content (4 * j) ≡ s.imap j

pub update_cr-content :
    (i : Word) (s : Lfs)
    → i < 4096
    → (update_cr i s).file.content
      ≡ splice
          (splice s.file.content (i * 4) (word_bytes (s.imap i)))
          16384
          (word_bytes s.next_block)
unfolding update_cr put write
update_cr-content i s h = rw (let e : (i == minus_one) ≡ false = ground arith in e)

pub update_cr-imap : (i : Word) (s : Lfs) → (update_cr i s).imap ≡ s.imap
unfolding update_cr put
update_cr-imap i s = ground arith

pub update_cr-next : (i : Word) (s : Lfs) → (update_cr i s).next_block ≡ s.next_block
unfolding update_cr put
update_cr-next i s = ground arith

pub update_cr-size : (i : Word) (s : Lfs) → s.file.size ≤ (update_cr i s).file.size
unfolding update_cr put write
update_cr-size i s = ground arith

update_cr-inside : (i : Word) (s : Lfs) → 16388 ≤ (update_cr i s).file.size
unfolding update_cr put write word_bytes
update_cr-inside i s = ground arith

-- The table after the write of entry `i` alone.
table_entry :
    (i : Word) (s : Lfs) (j : ℕ)
    → IsWord (s.imap i)
    → (j ≢ i → word_at s.file.content (4 * j) ≡ s.imap j)
    → word_at (splice s.file.content (i * 4) (word_bytes (s.imap i))) (4 * j) ≡ s.imap j
unfolding word_bytes
table_entry i s j w other = elim (ℕ_discrete j i) [
  | yes e ↦
      ap (word_at one) (omega arith)
      ∙ word_at-splice_self s.file.content (i * 4) (s.imap i) w
      ∙ ap s.imap (sym e)
  | no ne ↦ word_at-splice_ne s.file.content (i * 4) _ (4 * j) (apart ne) ∙ other ne
]
  where
    one : ℕ → Byte
    one = splice s.file.content (i * 4) (word_bytes (s.imap i))

    apart : j ≢ i → (4 * j + 4 ≤ i * 4) ⊎ (i * 4 + 4 ≤ 4 * j)
    apart ne = elim (dec_lt j i) [ yes l ↦ inl (omega arith) | no g ↦ inr (omega arith) ]

-- update_cr brings the region back in agreement when entry `i` and next_block have changed.
pub update_cr-Saved :
    (i : Word) (s : Lfs)
    → i < 4096
    → IsWord (s.imap i)
    → IsWord s.next_block
    → SavedBut i s
    → Saved (update_cr i s)
update_cr-Saved i s h wi wn others = record {
  table = λ j l. rw (update_cr-content i s h, update_cr-imap i s) (entry j l);
  next =
      rw (update_cr-content i s h, update_cr-next i s)
        (word_at-splice_self _ 16384 s.next_block wn);
  inside = update_cr-inside i s;
}
  where
    one : ℕ → Byte
    one = splice s.file.content (i * 4) (word_bytes (s.imap i))

    entry :
        (j : ℕ) → j < 4096 → word_at (splice one 16384 (word_bytes s.next_block)) (4 * j) ≡ s.imap j
    entry j l =
        word_at-splice_ne one 16384 _ (4 * j) (inl (omega arith))
        ∙ table_entry i s j wi (others j l)

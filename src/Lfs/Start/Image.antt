-- ===== src/Lfs/Start/Image.antt =====
-- The image that start_server of linux/lfs.c makes, and what it takes from an existing one.
use p.Prelude.{
  ℕ, ◌+◌, ◌*◌, ◌<◌, ◌≡◌, refl, sym, ap, ◌∙◌, inl, List, length, get_or, max, ◌==◌, if◌then◌else◌,
  All, ◌⊎◌, arith,
}
use native.Mathlib.Nat.{zero-add}
use p.Word.{
  Word, Byte, IsWord, minus_one, word_bytes, encode_words, decode_words, length-encode_words,
}
use p.Disk.{File, splice, write, bytes_at}
use p.Struct.{encode_inode, encode_dir}
use p.Lfs.State.{Lfs, seek, seek_block, put, fetch, update_cr}
use p.Lfs.State.Inodes.{IsBlock, SameImage, fetch-SameImage, fetch_full}
use p.Lfs.State.Checkpoint.{
  word_at, word_at-splice_ne, Saved, SavedBut, update_cr-Saved, update_cr-imap, update_cr-next,
}
use p.Lfs.Transfer.Saved.{IsSound}
use p.Lfs.Start.{imap_words, root_node, base_block, create_image, load_image}
use p.Lfs.Start.Words.{
  length-imap_words, get_or-imap_words, imap_words-All, word_at-splice_words, decode_words-bytes_at,
}

abbrev table : List Word
table = imap_words (λ _. minus_one) 4096 0

length-table : length (encode_words table) ≡ 16384
length-table =
    length-encode_words table ∙ ap (λ k. 4 * k) (length-imap_words (λ _. minus_one) 4096 0)

module _ (names : List (List Byte)) (f : File) where
  abbrev dir : List Byte
  dir = encode_dir (base_block names)

  abbrev node : List Byte
  node = encode_inode (root_node 6)

  -- The bytes of the image before update_cr.
  abbrev pub image : ℕ → Byte
  image =
      splice
        (splice
          (splice (splice f.content 0 (encode_words table)) (0 + length (encode_words table))
            (word_bytes 6))
          24576 dir)
        28672 node

  abbrev pub before_cr : Lfs
  before_cr = record {
    imap = λ j. if j == 0 then 7 else minus_one;
    next_block = 8;
    file = record {
      content = image;
      size =
          max
            (max
              (max (max f.size (0 + length (encode_words table)))
                (0 + length (encode_words table) + length (word_bytes 6)))
              (24576 + length dir))
            (28672 + length node);
      pos = 28672 + length node;
    };
  }

  pub create_image_lem : create_image names f ≡ update_cr 0 before_cr
  unfolding create_image put write seek seek_block
  create_image_lem = refl

  -- The map as first written, under what was written after it.
  image_table : (j : ℕ) → j < 4096 → word_at image (4 * j) ≡ minus_one
  unfolding word_bytes
  image_table j h =
      word_at-splice_ne _ 28672 node (4 * j) (inl (omega arith))
      ∙ word_at-splice_ne _ 24576 dir (4 * j) (inl (omega arith))
      ∙ word_at-splice_ne _ (0 + length (encode_words table)) _ (4 * j)
          (inl (omega (arith, length-table)))
      ∙ ap (word_at (splice f.content 0 (encode_words table))) (sym (zero-add (4 * j)))
      ∙ word_at-splice_words f.content 0 table j all (omega (arith, len))
          (length-encode_words table) (rw entry (omega arith))
      ∙ entry
    where
      len : length table ≡ 4096
      len = length-imap_words (λ _. minus_one) 4096 0

      entry : get_or table j 0 ≡ minus_one
      entry = get_or-imap_words (λ _. minus_one) 4096 0 j h

      all : All IsWord table
      all = imap_words-All IsWord (λ _. minus_one) 4096 0 (λ _. omega arith)

  -- The globals of a new image are in range, and its checkpoint region agrees with them.
  pub create_image-IsSound : IsSound (create_image names f)
  create_image-IsSound = rw create_image_lem (record {
    range = record {
      entries = rw (update_cr-imap 0 before_cr) entries;
      log_end = rw (update_cr-next 0 before_cr) (omega arith);
    };
    saved = update_cr-Saved 0 before_cr (omega arith) (omega arith) (omega arith) others;
  })
    where
      entries : (j : ℕ) → j < 4096 → (before_cr.imap j ≡ minus_one) ⊎ IsBlock (before_cr.imap j)
      entries j h = ground arith

      others : SavedBut 0 before_cr
      others j h ne = image_table j h ∙ ground arith

-- Loaded at a start, a file with the bytes and the size that a server left, whose checkpoint region
-- agrees with the globals of that server, gives back the same 4096 entries of the map, the same end
-- of the log and the same bytes.
pub load_image-restores :
    (s : Lfs) (f : File)
    → Saved s
    → f.content ≡ s.file.content
    → f.size ≡ s.file.size
    → ((j : ℕ) → j < 4096 → (load_image f).imap j ≡ s.imap j)
      × ((load_image f).next_block ≡ s.next_block)
      × ((load_image f).file.content ≡ s.file.content)
      × ((load_image f).file.size ≡ s.file.size)
unfolding load_image seek
load_image-restores s f v same_content same_size = (
  λ j h.
      ap (λ bs. get_or (decode_words 4096 bs) j 0) whole.0
      ∙ decode_words-bytes_at f.content 4096 0 j h
      ∙ ap (word_at f.content) (zero-add (4 * j))
      ∙ ap (λ c. word_at c (4 * j)) same_content
      ∙ v.table j h,
  ap (λ bs. get_or (decode_words 1 bs) 0 0)
        (last.0 ∙ ap (λ q. bytes_at s1.file.content q 4) whole.1)
      ∙ decode_words-bytes_at s1.file.content 1 16384 0 (omega arith)
      ∙ ap (λ c. word_at c 16384) content1
      ∙ v.next,
  two.content ∙ content1,
  two.size ∙ one.size ∙ same_size,
)
  where
    s0 : Lfs
    s0 = seek 0 (record { imap = λ _. 0; next_block = 0; file = f })

    old : List Byte
    old = encode_words (imap_words (λ _. 0) 4096 0)

    s1 : Lfs
    s1 = (fetch 16384 old s0).1

    one : SameImage s0 s1
    one = fetch-SameImage 16384 old s0

    two : SameImage s1 (fetch 4 (word_bytes 0) s1).1
    two = fetch-SameImage 4 (word_bytes 0) s1

    content1 : s1.file.content ≡ s.file.content
    content1 = one.content ∙ same_content

    whole : ((fetch 16384 old s0).0 ≡ bytes_at f.content 0 16384) × (s1.file.pos ≡ 0 + 16384)
    whole = fetch_full 16384 old s0 (unfold seek in omega (arith, v.inside))

    last :
        ((fetch 4 (word_bytes 0) s1).0 ≡ bytes_at s1.file.content s1.file.pos 4)
        × ((fetch 4 (word_bytes 0) s1).1.file.pos ≡ s1.file.pos + 4)
    last = fetch_full 4 (word_bytes 0) s1 (omega (arith, whole.1, one.size, v.inside))

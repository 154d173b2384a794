-- ===== src/Lfs/Transfer/Write.antt =====
-- What write_server of linux/lfs.c does to a regular file: the block written, the inode, and all
-- that stays as it was.
use p.Prelude.{
  ℕ, ◌+◌, ◌*◌, ◌≤◌, ◌<◌, ◌≡◌, ◌≢◌, refl, sym, ap, ◌∙◌, subst, ◌⊎◌, inl, inr, Bool-cases,
  if◌then◌else◌, get_or-set_self, get_or-set_ne, ◌||◌, false, List, ◌==◌, ltb, if_keep, get_or, All,
  All-set, length, length-set, dec_lt, max, arith,
}
use p.Word.{Word, Byte, IsWord, is_neg, add32, word_bytes}
use p.Disk.{splice, write, bytes_at}
use p.Disk.Regions.{bytes_at-splice_ne, bytes_at-splice_self}
use p.Struct.{Inode, IsInode, encode_inode}
use p.Struct.Roundtrip.{length-encode_inode}
use p.Lfs.State.{Lfs, seek, put, find_inode, update_cr}
use p.Lfs.State.Inodes.{
  IsBlock, SameImage, seek_block_lem, find_inode-SameImage, InodeOn, BlockOn, find_inode-rc,
  find_inode-node, InodeOn-SameImage,
}
use p.Lfs.State.Checkpoint.{update_cr-content, update_cr-imap, update_cr-next, update_cr-size}
use p.Lfs.Transfer.{extend, write_block, write_server}

extend-IsInode :
    (n : Inode) (block at : Word) → IsInode n → block ≤ 13 → IsWord at → IsInode (extend n block at)
unfolding extend
extend-IsInode n block at v h w = record {
  size = ground arith;
  type = v.type;
  inum = v.inum;
  pointers = All-set IsWord n.dpointers block at w v.pointers;
  used = used;
  pointers_len = length-set n.dpointers block at ∙ v.pointers_len;
  used_len = used_len;
}
  where
    used : All IsWord (extend n block at).dp_used
    used =
        if_keep (All IsWord) (get_or n.dp_used block 0 == 0) _ _
          (λ _. All-set IsWord n.dp_used block 1 (omega arith) v.used) (λ _. v.used)

    used_len : length (extend n block at).dp_used ≡ 14
    used_len =
        if_keep (λ (l : List Word). length l ≡ 14) (get_or n.dp_used block 0 == 0) _ _
          (λ _. length-set n.dp_used block 1 ∙ v.used_len) (λ _. v.used_len)

-- The inode after a write: the pointer `block` leads to `at` and is in use, and the size covers the block.
pub record Points (n : Inode) (block at : Word) (m : Inode) : Type 0 where
  pub pointer : get_or m.dpointers block 0 ≡ at
  pub in_use : get_or m.dp_used block 0 ≢ 0
  pub other_pointers : (j : ℕ) → block ≢ j → get_or m.dpointers j 0 ≡ get_or n.dpointers j 0
  pub other_used : (j : ℕ) → block ≢ j → get_or m.dp_used j 0 ≡ get_or n.dp_used j 0
  pub same_type : m.type ≡ n.type
  pub same_inum : m.inum ≡ n.inum
  pub size :
      m.size ≡ (if is_neg n.size then (block + 1) * 4096 else max n.size ((block + 1) * 4096))

extend-Points :
    (n : Inode) (block at : Word)
    → length n.dpointers ≡ 14
    → length n.dp_used ≡ 14
    → block ≤ 13
    → Points n block at (extend n block at)
unfolding extend
extend-Points n block at pointers used fits = record {
  pointer = get_or-set_self n.dpointers block at 0 (omega arith);
  in_use = elim (Bool-cases (get_or n.dp_used block 0 == 0)) [
    | inl e ↦ rw e (λ z. omega (arith, z, get_or-set_self n.dp_used block 1 0 (omega arith)))
    | inr e ↦ rw e (λ z. ground (arith, e, z))
  ];
  other_pointers = λ j ne. get_or-set_ne n.dpointers block j at 0 ne;
  other_used = λ j ne. elim (Bool-cases (get_or n.dp_used block 0 == 0)) [
    | inl e ↦ rw e (get_or-set_ne n.dp_used block j 1 0 ne)
    | inr e ↦ rw e refl
  ];
  same_type = refl;
  same_inum = refl;
  size = elim (Bool-cases (is_neg n.size)) [
    | inl e ↦ rw e refl
    | inr e ↦ elim (Bool-cases (ltb n.size ((block + 1) * 4096))) [
      | inl l ↦ let less : n.size < (block + 1) * 4096 = ground arith in rw (e, l) (omega arith)
      | inr l ↦ let more : (block + 1) * 4096 ≤ n.size = ground arith in rw (e, l) (omega arith)
    ]
  ];
}

-- Two different blocks do not overlap.
pub apart_block :
    (b c j k : ℕ)
    → b ≢ c
    → j ≤ 4096
    → k ≤ 4096
    → (b * 4096 + j ≤ c * 4096) ⊎ (c * 4096 + k ≤ b * 4096)
apart_block b c j k ne hj hk = elim (dec_lt b c) [
  | yes l ↦ inl (omega arith)
  | no g ↦ inr (omega arith)
]

module _ (s : Lfs) (i : Word) (n : Inode) (on : InodeOn s i n) (buffer : List Byte)
    (whole : length buffer ≡ 4096) (block : Word) (fits : block ≤ 13)
    (log_end : IsBlock s.next_block) (fresh : s.imap i ≢ s.next_block) where
  abbrev at : Word
  at = s.imap i

  abbrev nb : Word
  nb = s.next_block

  abbrev n' : Inode
  n' = extend n block nb

  abbrev after : Lfs
  after = write_block i buffer block n s

  n'-IsInode : IsInode n'
  n'-IsInode = extend-IsInode n block nb on.fields fits (omega arith)

  -- The image after the writes of the buffer and of the inode.
  abbrev blocks : ℕ → Byte
  blocks = splice (splice s.file.content (nb * 4096) buffer) (at * 4096) (encode_inode n')

  -- The state before update_cr.
  abbrev before_cr : Lfs
  before_cr = record s {
    next_block = add32 nb 1;
    file = record {
      content = blocks;
      size =
          max (max s.file.size (nb * 4096 + length buffer)) (at * 4096 + length (encode_inode n'));
      pos = at * 4096 + length (encode_inode n');
    };
  }

  after_lem : after ≡ update_cr i before_cr
  unfolding write_block put write seek
  after_lem = rw (seek_block_lem nb s log_end.1, seek_block_lem at _ on.block.1)

  after-content :
      after.file.content
      ≡ splice (splice blocks (i * 4) (word_bytes at)) 16384 (word_bytes (add32 nb 1))
  after-content =
      ap (λ (t : Lfs). t.file.content) after_lem ∙ update_cr-content i before_cr on.number

  -- A region above the checkpoint keeps its bytes under update_cr.
  above : (q k : ℕ) → 24576 ≤ q → bytes_at after.file.content q k ≡ bytes_at blocks q k
  unfolding word_bytes
  above q k h =
      ap (λ c. bytes_at c q k) after-content
      ∙ bytes_at-splice_ne _ 16384 _ q k (inr (omega arith))
      ∙ bytes_at-splice_ne _ (i * 4) _ q k (inr (let l : i < 4096 = on.number in omega arith))

  length-node : length (encode_inode n') ≡ 124
  length-node = length-encode_inode n' n'-IsInode

  -- A region that is neither the block just written nor the inode keeps its bytes.
  pub elsewhere :
      (q k : ℕ)
      → 24576 ≤ q
      → (q + k ≤ at * 4096) ⊎ (at * 4096 + 124 ≤ q)
      → (q + k ≤ nb * 4096) ⊎ (nb * 4096 + 4096 ≤ q)
      → bytes_at after.file.content q k ≡ bytes_at s.file.content q k
  elsewhere q k h a b =
      above q k h
      ∙ bytes_at-splice_ne _ (at * 4096) _ q k (rw length-node a)
      ∙ bytes_at-splice_ne _ (nb * 4096) _ q k (rw whole b)

  pub after-imap : after.imap ≡ s.imap
  after-imap = ap (λ (t : Lfs). t.imap) after_lem ∙ update_cr-imap i before_cr

  after-next : after.next_block ≡ add32 nb 1
  after-next = ap (λ (t : Lfs). t.next_block) after_lem ∙ update_cr-next i before_cr

  pub after-size : (s.file.size ≤ after.file.size) × (nb * 4096 + 4096 ≤ after.file.size)
  after-size = rw after_lem (omega (arith, update_cr-size i before_cr))

  after-InodeOn : InodeOn after i n'
  after-InodeOn = record {
    number = on.number;
    block = rw after-imap on.block;
    stored = rw after-imap (
        above (at * 4096) 124 (omega arith)
        ∙ ap (bytes_at blocks (at * 4096)) (sym length-node)
        ∙ bytes_at-splice_self _ (at * 4096) (encode_inode n'));
    fields = n'-IsInode;
    inside = rw after-imap (omega (arith, after-size, on.inside));
  }

  after-BlockOn : BlockOn after nb buffer
  after-BlockOn = record {
    block = log_end.1;
    stored =
        above (nb * 4096) 4096 (omega arith)
        ∙ bytes_at-splice_ne _ (at * 4096) _ (nb * 4096) 4096 (rw length-node apart)
        ∙ ap (bytes_at (splice s.file.content (nb * 4096) buffer) (nb * 4096)) (sym whole)
        ∙ bytes_at-splice_self s.file.content (nb * 4096) buffer;
    inside = after-size.1;
  }
    where
      apart : (nb * 4096 + 4096 ≤ at * 4096) ⊎ (at * 4096 + 124 ≤ nb * 4096)
      apart = elim (dec_lt nb at) [ yes l ↦ inl (omega arith) | no g ↦ inr (omega arith) ]

module _ {s : Lfs} {i : Word} {n : Inode} (on : InodeOn s i n) (regular : n.type ≡ 1)
    (buffer : List Byte) (whole : length buffer ≡ 4096) (block : Word) (fits : block ≤ 13)
    (node : List Byte) (log_end : IsBlock s.next_block) (fresh : s.imap i ≢ s.next_block) where
  abbrev s1 : Lfs
  s1 = (find_inode i node s).2

  same : SameImage s s1
  same = find_inode-SameImage i node s

  log_end1 : IsBlock s1.next_block
  log_end1 = rw same.next_block log_end

  fresh1 : s1.imap i ≢ s1.next_block
  fresh1 = rw (same.next_block, same.imap) fresh

  on1 : InodeOn s1 i n
  on1 = InodeOn-SameImage same on

  pub write_server_lem : write_server i buffer block node s ≡ (0, write_block i buffer block n s1)
  unfolding write_server
  write_server_lem = rw (find_inode-rc on node, find_inode-node on node, regular, ok)
    where
      ok : (is_neg block || ltb 13 block) ≡ false
      ok = ground arith

  -- The inode is the one that the code makes.
  pub write_server-extend :
      let (rc, t) = write_server i buffer block node s in
      (rc ≡ 0)
      × InodeOn t i (extend n block s.next_block)
      × BlockOn t s.next_block buffer
      × (t.imap ≡ s.imap)
      × (t.next_block ≡ s.next_block + 1)
  write_server-extend = rw write_server_lem (
    refl,
    subst (λ b. InodeOn (write_block i buffer block n s1) i (extend n block b)) same.next_block
        (after-InodeOn s1 i n on1 buffer whole block fits log_end1 fresh1),
    subst (λ b. BlockOn (write_block i buffer block n s1) b buffer) same.next_block
        (after-BlockOn s1 i n on1 buffer whole block fits log_end1 fresh1),
    after-imap s1 i n on1 buffer whole block fits log_end1 fresh1 ∙ same.imap,
    after-next s1 i n on1 buffer whole block fits log_end1 fresh1
        ∙ ap (λ b. add32 b 1) same.next_block
        ∙ omega arith,
  )

  -- write_server of a buffer of 4096 bytes as block 0 to 13 of an inode in use that is a regular
  -- file, where the end of the log is in range and is not the inode's block, returns 0: the buffer is
  -- stored at the end of the log, the inode's pointer of that number leads to it and is in use, its other
  -- pointers, type and number are as before, its size is the larger of the old one and the end of the
  -- block (the latter where the old one is negative), the map of inodes is unchanged, and the log has
  -- grown by one block.
  pub write_server-stores :
      let (rc, t) = write_server i buffer block node s in
      (rc ≡ 0)
      × ((m : Inode) × InodeOn t i m × Points n block s.next_block m)
      × BlockOn t s.next_block buffer
      × (t.imap ≡ s.imap)
      × (t.next_block ≡ s.next_block + 1)
  write_server-stores =
      let (rc, inode, block', map, log) = write_server-extend in
      (
        rc,
        (
          extend n block s.next_block,
          inode,
          extend-Points n block s.next_block on.fields.pointers_len on.fields.used_len fits,
        ),
        block',
        map,
        log,
      )

  -- Every other block of the log keeps its bytes.
  pub write_server-BlockOn :
      {b : Word} {bs : List Byte}
      → IsBlock b
      → b ≢ s.imap i
      → b ≢ s.next_block
      → BlockOn s b bs
      → BlockOn (write_server i buffer block node s).1 b bs
  write_server-BlockOn {b} {bs} k ne_inode ne_end v = rw write_server_lem (record {
    block = v.block;
    stored =
        elsewhere s1 i n on1 buffer whole block fits log_end1 fresh1 (b * 4096) 4096 (omega arith)
          (rw same.imap (apart_block b (s.imap i) 4096 124 ne_inode (omega arith) (omega arith)))
          (rw same.next_block
            (apart_block b s.next_block 4096 4096 ne_end (omega arith) (omega arith)))
        ∙ ap (λ c. bytes_at c (b * 4096) 4096) same.content
        ∙ v.stored;
    inside =
        omega (
          arith,
          after-size s1 i n on1 buffer whole block fits log_end1 fresh1,
          v.inside,
          same.size,
        );
  })

  -- Every other inode in use, at another block, stays as it was.
  pub write_server-InodeOn :
      {j : Word} {m : Inode}
      → j ≢ i
      → s.imap j ≢ s.imap i
      → s.imap j ≢ s.next_block
      → InodeOn s j m
      → InodeOn (write_server i buffer block node s).1 j m
  write_server-InodeOn {j} {m} ne ne_inode ne_end v = rw write_server_lem (record {
    number = v.number;
    block = rw imap v.block;
    stored = rw imap (
        elsewhere s1 i n on1 buffer whole block fits log_end1 fresh1 (s.imap j * 4096) 124
          (omega arith)
          (rw same.imap
            (apart_block (s.imap j) (s.imap i) 124 124 ne_inode (omega arith) (omega arith)))
          (rw same.next_block
            (apart_block (s.imap j) s.next_block 124 4096 ne_end (omega arith) (omega arith)))
        ∙ ap (λ c. bytes_at c (s.imap j * 4096) 124) same.content
        ∙ v.stored);
    fields = v.fields;
    inside = rw imap (
        omega (
          arith,
          after-size s1 i n on1 buffer whole block fits log_end1 fresh1,
          v.inside,
          same.size,
        ));
  })
    where
      imap : (write_block i buffer block n s1).imap ≡ s.imap
      imap = after-imap s1 i n on1 buffer whole block fits log_end1 fresh1 ∙ same.imap

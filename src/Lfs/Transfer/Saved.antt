-- ===== src/Lfs/Transfer/Saved.antt =====
-- write_server of linux/lfs.c keeps the checkpoint region of the image in agreement with the
-- globals, on every branch.
use p.Prelude.{
  ◌+◌, ◌*◌, ◌≤◌, ◌<◌, ◌≡◌, sym, ap, ◌∙◌, ◌⊎◌, inl, inr, ◌||◌, List, ◌==◌, ltb, if_keep, arith,
}
use p.Word.{Word, Byte, minus_one, is_neg}
use p.Disk.{write}
use p.Struct.{Inode, encode_inode, decode_inode}
use p.Lfs.State.{Lfs, seek, seek_block, put, find_inode, update_cr}
use p.Lfs.State.Inodes.{
  IsBlock, SameImage, seek_block_lem, seek_block-SameImage, find_inode-number, seek_block_unused,
  find_inode-SameImage,
}
use p.Lfs.State.Checkpoint.{
  Saved, InRange, Kept, Kept-trans, put_block-Kept, put-Kept, word_at-Kept, update_cr-Saved,
  update_cr-imap, update_cr-next, entry-IsWord,
}
use p.Lfs.Transfer.{extend, write_block, write_server}

-- The globals are in range, and the checkpoint region agrees with them.
pub record IsSound (s : Lfs) : Type 0 where
  pub range : InRange s
  pub saved : Saved s

pub IsSound-SameImage : {s t : Lfs} → SameImage s t → IsSound s → IsSound t
IsSound-SameImage {s} {t} e v = record {
  range = record { entries = rw e.imap v.range.entries; log_end = rw e.next_block v.range.log_end };
  saved = record {
    table = rw (e.content, e.imap) v.saved.table;
    next = rw (e.content, e.next_block) v.saved.next;
    inside = rw e.size v.saved.inside;
  };
}

put_block-pos :
    (b : Word) (bs : List Byte) (s : Lfs) → IsBlock b → 24576 ≤ (put bs (seek_block b s)).file.pos
unfolding put write seek
put_block-pos b bs s h = rw (seek_block_lem b s h.1) (omega arith)

-- A write at the map's block of an inode, or, for an unused one, where the offset stands.
pub put_entry-Kept :
    (b : Word) (bs : List Byte) (s : Lfs)
    → (b ≡ minus_one) ⊎ IsBlock b
    → 24576 ≤ s.file.pos
    → Kept s (put bs (seek_block b s))
put_entry-Kept b bs s (inl e) h = rw (e, seek_block_unused s) (put-Kept bs s h)
put_entry-Kept b bs s (inr k) h = put_block-Kept b bs s k

-- The end of an operation: one entry of the map is renewed, and the log grows by a block.
pub update_cr-IsSound :
    (i : Word) (s t : Lfs)
    → i < 4096
    → IsSound s
    → Kept s t
    → IsBlock t.next_block
    → IsSound (update_cr i t)
update_cr-IsSound i s t h v k n = record {
  range = record {
    entries = rw (update_cr-imap i t, k.imap) v.range.entries;
    log_end = rw (update_cr-next i t) n;
  };
  saved =
      update_cr-Saved i t h (entry-IsWord _ (rw k.imap (v.range.entries i h))) (omega arith)
        (λ j l ne.
          word_at-Kept k (4 * j) (omega arith)
          ∙ v.saved.table j l
          ∙ ap (λ (f : Word → Word). f j) (sym k.imap));
}

put_block-next :
    (b : Word) (bs : List Byte) (s : Lfs) → (put bs (seek_block b s)).next_block ≡ s.next_block
unfolding put
put_block-next b bs s = (seek_block-SameImage b s).next_block

pub write_block-IsSound :
    (i : Word) (buffer : List Byte) (block : Word) (n : Inode) (s : Lfs)
    → i < 4096
    → IsSound s
    → s.next_block + 1 < 0x80000
    → IsSound (write_block i buffer block n s)
unfolding write_block
write_block-IsSound i buffer block n s h v room =
    update_cr-IsSound i s _ h v (record { imap = k.imap; low = k.low; size = k.size })
      (rw next (omega arith))
  where
    s2 : Lfs
    s2 = put buffer (seek_block s.next_block s)

    k2 : Kept s s2
    k2 = put_block-Kept s.next_block buffer s v.range.log_end

    s3 : Lfs
    s3 = put (encode_inode (extend n block s2.next_block)) (seek_block (s2.imap i) s2)

    k : Kept s s3
    k = Kept-trans k2 (
        put_entry-Kept (s2.imap i) _ s2 (rw k2.imap (v.range.entries i h))
          (put_block-pos s.next_block buffer s v.range.log_end))

    next : s3.next_block ≡ s.next_block
    next = put_block-next (s2.imap i) _ s2 ∙ put_block-next s.next_block buffer s

-- Whatever its arguments, and whether it succeeds or not, write_server leaves the globals in range
-- and the checkpoint region in agreement with them, if both were so before and the log has room for
-- one more block.
pub write_server-IsSound :
    (i : Word) (buffer : List Byte) (block : Word) (node : List Byte) (s : Lfs)
    → IsSound s
    → s.next_block + 1 < 0x80000
    → IsSound (write_server i buffer block node s).1
unfolding write_server
write_server-IsSound i buffer block node s v room =
    if_keep (λ (r : Word × Lfs). IsSound r.1) (rc == 0) _ _
      (λ ok.
        if_keep (λ (r : Word × Lfs). IsSound r.1) (n.type == 1) _ _
          (λ _.
            if_keep (λ (r : Word × Lfs). IsSound r.1) (is_neg block || ltb 13 block) _ _ (λ _. v1)
              (λ _.
                write_block-IsSound i buffer block n s1 (find_inode-number i node s ok) v1 room1))
          (λ _. v1))
      (λ _. v1)
  where
    rc : Word
    rc = (find_inode i node s).0

    n : Inode
    n = decode_inode (find_inode i node s).1

    s1 : Lfs
    s1 = (find_inode i node s).2

    same : SameImage s s1
    same = find_inode-SameImage i node s

    v1 : IsSound s1
    v1 = IsSound-SameImage same v

    room1 : s1.next_block + 1 < 0x80000
    room1 = rw same.next_block room

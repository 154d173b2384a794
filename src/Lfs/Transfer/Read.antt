-- ===== src/Lfs/Transfer/Read.antt =====
-- read_server of linux/lfs.c on regular files, and what a read returns after a write.
use p.Prelude.{
  ◌+◌, ◌*◌, ◌≤◌, ◌<◌, ◌≡◌, ◌≢◌, refl, sym, ◌∙◌, ◌||◌, false, List, ltb, get_or, length,
  get_or-set_self, get_or-set_ne, max, arith,
}
use p.Word.{Word, Byte, is_neg}
use p.Struct.{Inode, Stat}
use p.Lfs.State.{Lfs, seek_block, find_inode}
use p.Lfs.State.Inodes.{
  IsBlock, SameImage, SameImage-trans, find_inode-SameImage, InodeOn, BlockOn, find_inode-rc,
  find_inode-node, seek_block-SameImage, fetch-SameImage, fetch-BlockOn, BlockOn-SameImage,
}
use p.Lfs.Lookup.{stat_server}
use p.Lfs.Transfer.{extend, write_server, read_server, ReadLocals}
use p.Lfs.Transfer.Write.{write_server-extend, write_server-BlockOn}

-- A read of a regular file's block returns its bytes and changes nothing.
pub read_server-BlockOn :
    {s : Lfs} {i : Word} {n : Inode} {bs : List Byte} (b : Word) (old : List Byte) (block : Word)
    (l : ReadLocals)
    → InodeOn s i n
    → n.type ≡ 1
    → block ≤ 13
    → get_or n.dpointers block 0 ≡ b
    → BlockOn s b bs
    → ((read_server i old block l s).0 ≡ 0)
      × ((read_server i old block l s).1 ≡ bs)
      × SameImage s (read_server i old block l s).2
unfolding read_server
read_server-BlockOn {s} {i} {n} {bs} b old block l on regular fits points v =
    rw (find_inode-rc on l.node, find_inode-node on l.node, regular, ok, points)
      (
        refl,
        fetch-BlockOn old (BlockOn-SameImage same v),
        SameImage-trans same (
            SameImage-trans (seek_block-SameImage b s1)
              (fetch-SameImage 4096 old (seek_block b s1))),
      )
  where
    s1 : Lfs
    s1 = (find_inode i l.node s).2

    same : SameImage s s1
    same = find_inode-SameImage i l.node s

    ok : (is_neg block || ltb 13 block) ≡ false
    ok = ground arith

module _ {s : Lfs} {i : Word} {n : Inode} (on : InodeOn s i n) (regular : n.type ≡ 1)
    (buffer : List Byte) (whole : length buffer ≡ 4096) (block : Word) (fits : block ≤ 13)
    (node : List Byte) (log_end : IsBlock s.next_block) (fresh : s.imap i ≢ s.next_block) where
  abbrev after : Lfs
  after = (write_server i buffer block node s).1

  stored :
      ((write_server i buffer block node s).0 ≡ 0)
      × InodeOn after i (extend n block s.next_block)
      × BlockOn after s.next_block buffer
      × (after.imap ≡ s.imap)
      × (after.next_block ≡ s.next_block + 1)
  stored = write_server-extend on regular buffer whole block fits node log_end fresh

  extend_pointer : get_or (extend n block s.next_block).dpointers block 0 ≡ s.next_block
  unfolding extend
  extend_pointer =
      get_or-set_self n.dpointers block s.next_block 0 (omega (arith, on.fields.pointers_len))

  extend_type : (extend n block s.next_block).type ≡ 1
  unfolding extend
  extend_type = regular

  -- After write_server of a buffer of 4096 bytes as block 0 to 13 of an inode in use that is a regular
  -- file, where the end of the log is in range and is not the inode's block, read_server of that
  -- block gives the buffer; both return 0.
  pub read_server-write_server :
      (old : List Byte) (l : ReadLocals)
      → ((write_server i buffer block node s).0 ≡ 0)
        × ((read_server i old block l after).0 ≡ 0)
        × ((read_server i old block l after).1 ≡ buffer)
  read_server-write_server old l = (stored.0, r.0, r.1)
    where
      r :
          ((read_server i old block l after).0 ≡ 0)
          × ((read_server i old block l after).1 ≡ buffer)
          × SameImage after (read_server i old block l after).2
      r =
          read_server-BlockOn s.next_block old block l stored.1 extend_type fits extend_pointer
            stored.2

  -- Another block of the file, stored in the log apart from the inode and the log's end, reads after
  -- the same write_server as it stood on the disk before it.
  pub read_server-write_server_ne :
      (other : Word) (b : Word) (bs : List Byte) (old : List Byte) (l : ReadLocals)
      → other ≤ 13
      → other ≢ block
      → get_or n.dpointers other 0 ≡ b
      → IsBlock b
      → b ≢ s.imap i
      → b ≢ s.next_block
      → BlockOn s b bs
      → (read_server i old other l after).1 ≡ bs
  read_server-write_server_ne other b bs old l small ne points k ne_inode ne_end v =
      (read_server-BlockOn b old other l stored.1 extend_type small (kept ∙ points) (
        write_server-BlockOn on regular buffer whole block fits node log_end fresh k ne_inode ne_end
          v)).1
    where
      kept : get_or (extend n block s.next_block).dpointers other 0 ≡ get_or n.dpointers other 0
      kept = unfold extend in get_or-set_ne n.dpointers block other s.next_block 0 (λ e. ne (sym e))

  -- After the same write_server, where the old size is not negative as an int, stat_server gives a
  -- regular file of the larger of the old size and the end of the block written.
  stat_server-write_server :
      (m : Stat) (buf : List Byte)
      → n.size < 0x8000_0000
      → ((stat_server i m buf after).0 ≡ 0)
        × ((stat_server i m buf after).1
            ≡ record { type = 1; size = max n.size ((block + 1) * 4096) })
  unfolding stat_server
  stat_server-write_server m buf h =
      rw (find_inode-rc stored.1 buf, find_inode-node stored.1 buf)
        (refl, λ j. record { type = extend_type j; size = size j })
    where
      size : (extend n block s.next_block).size ≡ max n.size ((block + 1) * 4096)
      size = unfold extend in ground arith

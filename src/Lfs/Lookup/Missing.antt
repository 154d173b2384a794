-- ===== src/Lfs/Lookup/Missing.antt =====
-- stat_server and lookup_server of linux/lfs.c on inode numbers that are out of range or not in use.
use p.Prelude.{◌<◌, ◌≡◌, refl, List}
use p.Word.{Word, Byte, minus_one}
use p.Disk.{read}
use p.Struct.{Stat, decode_inode, Inode}
use p.Lfs.State.{Lfs, fetch, find_inode}
use p.Lfs.State.Inodes.{seek_block_unused, InodeOn, find_inode-rc, find_inode-node, in_range}
use p.Lfs.Lookup.{stat_server}

-- An inode number in range that is not in use (its map entry is -1) is not refused: stat_server
-- succeeds, with the type and size of whatever bytes stand at the descriptor's offset.
pub stat_server-unused :
    (i : Word) (m : Stat) (node : List Byte) (s : Lfs)
    → i < 4096
    → s.imap i ≡ minus_one
    → let n = decode_inode (read s.file 124 node).0 in
      ((stat_server i m node s).0 ≡ 0)
      × ((stat_server i m node s).1 ≡ record { type = n.type; size = n.size })
unfolding stat_server find_inode fetch
stat_server-unused i m node s h e = rw (in_range i h, e, seek_block_unused s) (refl, refl)

-- For an inode in use stat_server gives its type and size.
pub stat_server-InodeOn :
    {s : Lfs} {i : Word} {n : Inode} (m : Stat) (node : List Byte)
    → InodeOn s i n
    → ((stat_server i m node s).0 ≡ 0)
      × ((stat_server i m node s).1 ≡ record { type = n.type; size = n.size })
unfolding stat_server
stat_server-InodeOn m node on = rw (find_inode-rc on node, find_inode-node on node) (refl, refl)

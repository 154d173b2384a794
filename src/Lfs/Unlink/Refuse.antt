-- ===== src/Lfs/Unlink/Refuse.antt =====
-- The calls of unlink_server (linux/lfs.c) that remove nothing.
use p.Prelude.{◌≡◌, refl, inl, inr, Bool-cases, List, ◌==◌, if◌then◌else◌, get_or}
use p.Word.{Word, Byte, minus_one}
use p.CString.{c_str}
use p.Struct.{Inode}
use p.Lfs.State.{Lfs, seek_block, fetch, find_inode}
use p.Lfs.State.Inodes.{
  SameImage, SameImage-trans, seek_block-SameImage, fetch-SameImage, find_inode-SameImage, InodeOn,
  InodeOn-SameImage, find_inode-rc, find_inode-node,
}
use p.Lfs.Lookup.{lookup_server}
use p.Lfs.Lookup.Entries.{
  Entry, first_match, or_minus_one, Listing, Listing-SameImage, lookup_server-first_match,
}
use p.Lfs.Unlink.{UnlinkLocals, unlink_server}

-- unlink_server in a directory in use that lacks the name returns 0, and with a parent in use that is
-- no directory it returns -1. The image stays as it was in both cases.
unlink_server-unchanged :
    {s : Lfs} {p : Word} {n : Inode} {es : List Entry} (l : UnlinkLocals) (name : List Byte)
    → InodeOn s p n
    → Listing s n.dp_used n.dpointers es
    → or_minus_one (first_match es (c_str name)) ≡ minus_one
    → ((unlink_server l p name s).0 ≡ (if n.type == 0 then 0 else minus_one))
      × SameImage s (unlink_server l p name s).1
unfolding unlink_server
unlink_server-unchanged {s} {p} {n} {es} l name on listing missing =
    elim (Bool-cases (n.type == 0)) [
      | inl dir ↦
          rw (find_inode-rc on l.pinode, find_inode-node on l.pinode, dir, looked.0, missing)
            (refl, SameImage-trans same2 looked.1)
      | inr other ↦ rw (find_inode-rc on l.pinode, find_inode-node on l.pinode, other) (refl, same1)
    ]
  where
    s1 : Lfs
    s1 = (find_inode p l.pinode s).2

    same1 : SameImage s s1
    same1 = find_inode-SameImage p l.pinode s

    at : Word
    at = get_or n.dpointers 0 0

    s2 : Lfs
    s2 = (fetch 4096 l.direct (seek_block at s1)).1

    same2 : SameImage s s2
    same2 =
        SameImage-trans same1
          (SameImage-trans (seek_block-SameImage at s1) (fetch-SameImage 4096 l.direct _))

    looked :
        ((lookup_server p name l.lookup_node l.lookup_direct s2).0
          ≡ or_minus_one (first_match es (c_str name)))
        × SameImage s2 (lookup_server p name l.lookup_node l.lookup_direct s2).1
    looked =
        lookup_server-first_match name l.lookup_node l.lookup_direct (InodeOn-SameImage same2 on)
          (Listing-SameImage same2 listing)

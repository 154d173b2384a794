-- ===== src/Lfs/Transfer.antt =====
-- write_server and read_server of linux/lfs.c.
pub mod Saved
pub mod Write
pub mod Read
use p.Prelude.{
  ◌+◌, ◌*◌, true, false, ◌||◌, List, ◌∷◌, ◌++◌, ◌==◌, ltb, if◌then◌else◌, get_or, set, drop,
}
use p.Word.{Word, Byte, minus_one, is_neg, add32, word_bytes}
use p.CString.{strcpy}
use p.Struct.{blocksize, regular_type, Inode, DirEnt, encode_inode, decode_inode, decode_dir}
use p.Lfs.State.{Lfs, seek_block, put, fetch, find_inode, update_cr}

-- The inode after a write of `block` at disk block `at`. The size compared is an int.
unfoldable pub extend : Inode → Word → Word → Inode
extend node block at = record {
  size =
      (if is_neg node.size || ltb node.size ((block + 1) * blocksize)
        then (block + 1) * blocksize
        else node.size);
  type = node.type;
  inum = node.inum;
  dpointers = set node.dpointers block at;
  dp_used = (if get_or node.dp_used block 0 == 0 then set node.dp_used block 1 else node.dp_used);
}

-- The writes, once the arguments have passed the checks.
unfoldable pub write_block : Word → List Byte → Word → Inode → Lfs → Lfs
unfolding extend
write_block inum buffer block n s =
    let s2 = put buffer (seek_block s.next_block s) in
    let s3 = put (encode_inode (extend n block s2.next_block)) (seek_block (s2.imap inum) s2) in
    update_cr inum (record s3 { next_block = add32 s3.next_block 1 })

-- `buffer` holds BLOCKSIZE bytes; `node` is what the local inode holds beforehand.
unfoldable pub write_server : Word → List Byte → Word → List Byte → Lfs → Word × Lfs
write_server inum buffer block node s =
    let (rc, node', s1) = find_inode inum node s in
    let n = decode_inode node' in
    if rc == 0
    then (if n.type == regular_type
        then (if is_neg block || ltb 13 block
            then (minus_one, s1)
            else (0, write_block inum buffer block n s1))
        else (minus_one, s1))
    else (minus_one, s1)

-- The entry of `inum` in one block: the loop over 128 entries keeps the last match.
unfoldable pub scan_entries : Word → List Word → List (List Byte) → DirEnt → DirEnt
scan_entries inum (i ∷ inums) (s ∷ names) ent =
    scan_entries inum inums names
      (if i == inum then record { name = strcpy ent.name s; inum = inum } else ent)
scan_entries inum _ _ ent = ent

-- The loop over the direct pointers of `pnode`.
unfoldable pub scan_blocks : Word → List Word → List Word → List Byte → DirEnt → Lfs → DirEnt × Lfs
unfolding scan_entries
scan_blocks inum (u ∷ used) (b ∷ pointers) direct ent s = elim (u == 1) [
  | true ↦
      let (direct', s') = fetch blocksize direct (seek_block b s) in
      let d = decode_dir direct' in
      scan_blocks inum used pointers direct' (scan_entries inum d.inums d.names ent) s'
  | false ↦ scan_blocks inum used pointers direct ent s
]
scan_blocks inum _ _ direct ent s = (ent, s)

-- What the locals of read_server hold beforehand.
pub record ReadLocals : Type 0 where
  pub node : List Byte
  pub pnode : List Byte
  pub direct : List Byte
  pub dir_ent : DirEnt

-- The result, `buffer` afterwards, and the state. A directory takes the number of its parent from
-- dpointers[1] and copies one MFS_DirEnt_t of 32 bytes to the front of the buffer.
unfoldable pub read_server : Word → List Byte → Word → ReadLocals → Lfs → Word × List Byte × Lfs
unfolding scan_blocks
read_server inum buffer block l s =
    let (rc, node', s1) = find_inode inum l.node s in
    let n = decode_inode node' in
    if rc == 0
    then (if is_neg block || ltb 13 block
        then (minus_one, buffer, s1)
        else (if n.type == regular_type
            then (let (buffer', s2) =
                  fetch blocksize buffer (seek_block (get_or n.dpointers block 0) s1) in
                (0, buffer', s2))
            else (let (_, pnode', s2) = find_inode (get_or n.dpointers 1 0) l.pnode s1 in
                let pn = decode_inode pnode' in
                let (ent, s3) = scan_blocks inum pn.dp_used pn.dpointers l.direct l.dir_ent s2 in
                (0, (ent.name ++ word_bytes ent.inum) ++ drop 32 buffer, s3))))
    else (minus_one, buffer, s1)

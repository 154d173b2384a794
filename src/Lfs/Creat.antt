-- ===== src/Lfs/Creat.antt =====
-- creat_server of linux/lfs.c.
pub mod Refuse
pub mod Slot
pub mod Effect
pub mod Found
use p.Prelude.{
  ℕ, zero, suc, ◌+◌, true, false, ◌&&◌, not, Option, none, some, List, [], ◌∷◌, ◌++◌, ◌==◌,
  if◌then◌else◌, get_or, set,
}
use p.Word.{Word, Byte, minus_one, add32}
use p.Struct.{
  blocksize, max_inodes, directory_type, regular_type, Inode, Directory, encode_inode, decode_inode,
  encode_dir, decode_dir,
}
use p.Lfs.State.{
  Lfs, seek_block, put, fetch, find_inode, update_cr, build_dir_block, set_imap, set_entry,
}
use p.Lfs.Lookup.{lookup_server}

-- The search for an unused inode: the first i, among the next k, with imap[i] == -1.
unfoldable pub find_free : (Word → Word) → ℕ → ℕ → Option Word
find_free imap zero i = none
find_free imap (suc k) i =
    let rest = find_free imap k (i + 1) in if imap i == minus_one then some i else rest

-- The search for an unused entry of a block.
unfoldable pub find_slot : List Word → ℕ → Option ℕ
find_slot [] e = none
find_slot (i ∷ inums) e =
    let rest = find_slot inums (e + 1) in if i == minus_one then some e else rest

-- What the locals hold beforehand: the buffers of creat_server and of its call of lookup_server,
-- the names in build_dir_block, and the bytes behind `parent`, which write(fd, &parent, BLOCKSIZE)
-- puts on the disk with it.
pub record CreatLocals : Type 0 where
  pub parent : List Byte
  pub behind_parent : List Byte
  pub lookup_node : List Byte
  pub lookup_direct : List Byte
  pub block : List Byte
  pub names : List (List Byte)

-- The inode of the new file, before a directory gets its first block.
abbrev pub new_inode : Word → Word → Inode
new_inode inum type = record {
  size = 0;
  type = type;
  inum = inum;
  dpointers =
      minus_one ∷ minus_one ∷ minus_one ∷ minus_one ∷ minus_one ∷ minus_one ∷ minus_one ∷ minus_one
      ∷ minus_one ∷ minus_one ∷ minus_one ∷ minus_one ∷ minus_one ∷ minus_one ∷ [];
  dp_used = 0 ∷ 0 ∷ 0 ∷ 0 ∷ 0 ∷ 0 ∷ 0 ∷ 0 ∷ 0 ∷ 0 ∷ 0 ∷ 0 ∷ 0 ∷ 0 ∷ [];
}

-- The inode and its first block, once the entry is written: the body after the entry's write.
unfoldable pub make_inode : Word → Word → Word → List (List Byte) → Lfs → Word × Lfs
make_inode inum pinum type names s =
    let n0 = new_inode inum type in
    let (n, s1) =
      (let grown : Inode × Lfs = (
        record n0 {
          size = add32 n0.size blocksize;
          dpointers = set n0.dpointers 0 s.next_block;
          dp_used = set n0.dp_used 0 1;
        },
        (build_dir_block true inum pinum names s).1,
      ) in
        let plain : Inode × Lfs = (n0, s) in if type == directory_type then grown else plain) in
    if not (type == directory_type) && not (type == regular_type)
    then (minus_one, s1)
    else (let s2 = set_imap s1 inum s1.next_block in
        let s3 = put (encode_inode n) (seek_block s2.next_block s2) in
        (0, update_cr inum (record s3 { next_block = add32 s3.next_block 1 })))

-- The writes of the parent and of the block with its new entry.
unfoldable pub write_entry :
    Inode → List Byte → Word → Word → Directory → ℕ → Word → List Byte → Lfs → Lfs
write_entry parent behind pinum at block e inum name s =
    let s1 = put (encode_inode parent ++ behind) (seek_block (s.imap pinum) s) in
    put (encode_dir (set_entry block e inum name)) (seek_block at s1)

-- One more directory block for the parent: the branch of a pointer that is not in use.
unfoldable pub grow_parent : ℕ → Word → List (List Byte) → Inode → Lfs → Inode × Lfs
grow_parent b inum names parent s =
    let (bl, s') = build_dir_block false inum minus_one names s in
    (
      record parent {
        size = add32 parent.size blocksize;
        dpointers = set parent.dpointers b bl;
        dp_used = set parent.dp_used b 1;
      },
      s',
    )

-- A pointer that is not in use is given a block, and then the loop comes back to it (`b--`) with
-- the pointer in use; one in use is taken as it is.
unfoldable pub open_block : ℕ → Word → List (List Byte) → Inode → Lfs → Inode × Lfs
open_block b inum names parent s =
    let same : Inode × Lfs = (parent, s) in
    if get_or parent.dp_used b 0 == 0 then grow_parent b inum names parent s else same

module _ (l : CreatLocals) (pinum type inum : Word) (name : List Byte) where
  -- The loop over the parent's pointers from `b` on, `k` of them.
  unfoldable pub creat_blocks : ℕ → ℕ → Inode → List Byte → Lfs → Word × Lfs
  creat_blocks zero b parent raw s = (minus_one, s)
  creat_blocks (suc k) b parent raw s =
      let (parent', s1) = open_block b inum l.names parent s in
      let at = get_or parent'.dpointers b 0 in
      let (raw', s2) = fetch blocksize raw (seek_block at s1) in
      let block = decode_dir raw' in
      elim (find_slot block.inums 0) [
        | some e ↦
            make_inode inum pinum type l.names
              (write_entry parent' l.behind_parent pinum at block e inum name s2)
        | none ↦ creat_blocks k (b + 1) parent' raw' s2
      ]

unfoldable pub creat_server : CreatLocals → Word → Word → List Byte → Lfs → Word × Lfs
creat_server l pinum type name s =
    let (rc, raw, s1) = find_inode pinum l.parent s in
    let parent = decode_inode raw in
    if rc == minus_one
    then (minus_one, s1)
    else (if parent.type == directory_type
        then (let (found, s2) = lookup_server pinum name l.lookup_node l.lookup_direct s1 in
            if found == minus_one
            then elim (find_free s2.imap max_inodes 0) [
              | none ↦ (minus_one, s2)
              | some inum ↦ creat_blocks l pinum type inum name 14 0 parent l.block s2
            ]
            else (0, s2))
        else (minus_one, s1))

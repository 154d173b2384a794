-- ===== src/Lfs/State.antt =====
-- The globals of linux/lfs.c (imap, next_block and the descriptor's file), the calls on the file,
-- and the helpers update_cr, find_inode and build_dir_block.
-- What an uninitialised local holds is an argument: a buffer's bytes, or the names of a directory.
pub mod Inodes
pub mod Checkpoint
use p.Prelude.{
  ℕ, zero, suc, ◌+◌, ◌-◌, ◌*◌, ◌%◌, Bool, ◌||◌, List, [], ◌∷◌, map, ◌==◌, leb, if◌then◌else◌,
  get_or, set,
}
use p.Word.{Word, Byte, word_mod, minus_one, is_neg, add32, word_bytes}
use p.Disk.{File, lseek, read, write}
use p.CString.{strcpy}
use p.Struct.{blocksize, max_inodes, inode_bytes, Inode, Directory, encode_dir, decode_inode}

-- An index outside `imap`, undefined in C, reads and writes a cell that nothing else looks at.
pub record Lfs : Type 0 where
  pub imap : Word → Word
  pub next_block : Word
  pub file : File

abbrev pub set_imap : Lfs → Word → Word → Lfs
set_imap s i v = record s { imap = λ j. if j == i then v else s.imap j }

-- lseek(fd, off, SEEK_SET) for an offset of type size_t.
unfoldable pub seek : ℕ → Lfs → Lfs
seek off s = record s { file = record (s.file) { pos = off } }

-- lseek(fd, block * BLOCKSIZE, SEEK_SET), the product an int.
unfoldable pub seek_block : Word → Lfs → Lfs
unfolding lseek
seek_block block s = record s { file = lseek s.file (block * blocksize % word_mod) }

unfoldable pub put : List Byte → Lfs → Lfs
put bs s = record s { file = write s.file bs }

unfoldable pub fetch : ℕ → List Byte → Lfs → List Byte × Lfs
fetch n old s = let (got, f) = read s.file n old in (got, record s { file = f })

unfoldable pub update_cr : Word → Lfs → Lfs
unfolding seek
update_cr inum s =
    let s1 = if inum == minus_one then s else put (word_bytes (s.imap inum)) (seek (inum * 4) s) in
    put (word_bytes s1.next_block) (seek (max_inodes * 4) s1)

-- The result, the bytes at `node` afterwards, and the state.
unfoldable pub find_inode : Word → List Byte → Lfs → Word × List Byte × Lfs
unfolding seek_block fetch
find_inode inum node s =
    if is_neg inum || leb max_inodes inum
    then (minus_one, node, s)
    else (let (node', s') = fetch inode_bytes node (seek_block (s.imap inum) s) in (0, node', s'))

abbrev pub dne : List Byte
dne = b'D' ∷ b'N' ∷ b'E' ∷ 0 ∷ []

abbrev pub dot : List Byte
dot = b'.' ∷ 0 ∷ []

abbrev pub dotdot : List Byte
dotdot = b'.' ∷ b'.' ∷ 0 ∷ []

-- d.inums[j] = inum; strcpy(d.names[j], name)
abbrev pub set_entry : Directory → ℕ → Word → List Byte → Directory
set_entry d j inum name = record {
  inums = set d.inums j inum;
  names = set d.names j (strcpy (get_or d.names j []) name);
}

-- Every entry unused; `names` are the 128 names that the local held.
abbrev pub blank_dir : List (List Byte) → Directory
blank_dir names = record {
  inums = map (λ _. minus_one) names;
  names = map (λ s. strcpy s dne) names;
}

-- The block written to, and the state.
unfoldable pub build_dir_block : Bool → Word → Word → List (List Byte) → Lfs → Word × Lfs
unfolding seek_block put
build_dir_block first_block inum pinum names s =
    let d0 = blank_dir names in
    let d = (if first_block then set_entry (set_entry d0 0 inum dot) 1 pinum dotdot else d0) in
    let s1 = put (encode_dir d) (seek_block s.next_block s) in
    let next = add32 s1.next_block 1 in
    ((next + word_mod - 1) % word_mod, record s1 { next_block = next })

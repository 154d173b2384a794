-- ===== src/Struct.antt =====
-- The structures of linux/lfs.h and linux/mfs.h, and the bytes in which an inode and a directory
-- block lie in the file image: 31 words for an inode, 128 words and 128 names of 28 bytes for a
-- directory.
pub mod Roundtrip
use p.Prelude.{ℕ, zero, suc, ◌+◌, ◌*◌, ◌≡◌, List, [], ◌∷◌, ◌++◌, length, take, drop, get_or, All}
use p.Word.{Word, Byte, IsWord, encode_words, decode_words}

abbrev pub blocksize : ℕ
blocksize = 4096

abbrev pub max_inodes : ℕ
max_inodes = 4096

abbrev pub cr_size : ℕ
cr_size = 6

-- MFS_DIRECTORY and MFS_REGULAR_FILE
abbrev pub directory_type : Word
directory_type = 0

abbrev pub regular_type : Word
regular_type = 1

-- sizeof(inode)
abbrev pub inode_bytes : ℕ
inode_bytes = 124

pub record Inode : Type 0 where
  pub size : Word
  pub type : Word
  pub inum : Word
  pub dpointers : List Word
  pub dp_used : List Word

pub record Directory : Type 0 where
  pub inums : List Word
  pub names : List (List Byte)

pub record Stat : Type 0 where
  pub type : Word
  pub size : Word

pub record DirEnt : Type 0 where
  pub name : List Byte
  pub inum : Word

abbrev inode_words : Inode → List Word
inode_words n = n.size ∷ n.type ∷ n.inum ∷ n.dpointers ++ n.dp_used

unfoldable pub encode_inode : Inode → List Byte
unfolding encode_words
encode_inode n = encode_words (inode_words n)

abbrev of_words : List Word → Inode
of_words ws = record {
  size = get_or ws 0 0;
  type = get_or ws 1 0;
  inum = get_or ws 2 0;
  dpointers = take 14 (drop 3 ws);
  dp_used = take 14 (drop 17 ws);
}

unfoldable pub decode_inode : List Byte → Inode
unfolding decode_words
decode_inode bs = of_words (decode_words 31 bs)

unfoldable pub encode_names : List (List Byte) → List Byte
encode_names [] = []
encode_names (s ∷ ss) = s ++ encode_names ss

unfoldable pub decode_names : ℕ → List Byte → List (List Byte)
decode_names zero bs = []
decode_names (suc n) bs = take 28 bs ∷ decode_names n (drop 28 bs)

unfoldable pub encode_dir : Directory → List Byte
unfolding encode_words encode_names
encode_dir d = encode_words d.inums ++ encode_names d.names

unfoldable pub decode_dir : List Byte → Directory
unfolding decode_words decode_names
decode_dir bs = record { inums = decode_words 128 bs; names = decode_names 128 (drop 512 bs) }

-- An inode and a directory block with all fields in range.
pub record IsInode (n : Inode) : Type 0 where
  pub size : IsWord n.size
  pub type : IsWord n.type
  pub inum : IsWord n.inum
  pub pointers : All IsWord n.dpointers
  pub used : All IsWord n.dp_used
  pub pointers_len : length n.dpointers ≡ 14
  pub used_len : length n.dp_used ≡ 14

abbrev pub IsName : List Byte → Type 0
IsName s = length s ≡ 28

pub record IsDirectory (d : Directory) : Type 0 where
  pub inums : All IsWord d.inums
  pub names : All IsName d.names
  pub inums_len : length d.inums ≡ 128
  pub names_len : length d.names ≡ 128

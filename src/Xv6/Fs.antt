-- ===== src/Xv6/Fs.antt =====
-- xv6/kernel/fs.c. The buffer cache appears as what it promises: bread gives the contents of a sector,
-- bwrite stores them. A buffer that is read again while the code holds it is not modelled.
pub mod Alloc
pub mod File
pub mod Icache
pub mod Directory
pub mod Path
use p.Prelude.{ℕ, ◌+◌, ◌*◌, ◌/◌, ◌%◌, ◌&&◌, List, [], ◌∷◌, ◌++◌, ◌==◌, if◌then◌else◌}
use p.Word.{Word, Byte, word_bytes, bytes_word, decode_words, encode_words}
use p.Disk.{splice, bytes_at}
use p.Xv6.Outcome.{Action, gets, modify}

abbrev pub bsize : ℕ
bsize = 512

abbrev pub ndirect : ℕ
ndirect = 12

abbrev pub nindirect : ℕ
nindirect = 128

abbrev pub maxfile : ℕ
maxfile = 140

-- Inodes in a block, and bits in a block of the bitmap.
abbrev pub ipb : ℕ
ipb = 8

abbrev pub bpb : ℕ
bpb = 4096

abbrev pub iblock : Word → Word
iblock i = i / ipb + 2

abbrev pub bblock : Word → Word → Word
bblock b ninodes = b / bpb + ninodes / ipb + 3

abbrev pub t_dir : Word
t_dir = 1

abbrev pub t_dev : Word
t_dev = 3

abbrev pub t_checked : Word
t_checked = 4

-- The bytes of a sector, and the sectors of each device.
abbrev pub Block : Type 0
Block = ℕ → Byte

abbrev pub Drives : Type 0
Drives = Word → Word → Block

abbrev pub bread : Word → Word → Action Drives Block
bread dev bno = gets λ d. d dev bno

abbrev pub store_block : Word → Word → Block → Drives → Drives
store_block dev bno bytes d v b = if v == dev && b == bno then bytes else d v b

abbrev pub bwrite : Word → Word → Block → Action Drives (Unit {0})
bwrite dev bno bytes = modify (store_block dev bno bytes)

-- ((uint*)bytes)[i], and its assignment; the same for a short at a byte offset.
abbrev pub word_of : Block → ℕ → Word
word_of bytes i =
    bytes_word (bytes (4 * i)) (bytes (4 * i + 1)) (bytes (4 * i + 2)) (bytes (4 * i + 3))

abbrev pub set_word : Block → ℕ → Word → Block
set_word bytes i w = splice bytes (4 * i) (word_bytes w)

abbrev pub short_at : Block → ℕ → Word
short_at bytes a = bytes a + 256 * bytes (a + 1)

abbrev pub short_bytes : Word → List Byte
short_bytes w = w % 256 ∷ w / 256 % 256 ∷ []

pub record Superblock : Type 0 where
  pub size : Word
  pub nblocks : Word
  pub ninodes : Word

-- What the super block holds, in sector 1.
unfoldable pub super_block : Drives → Word → Superblock
super_block d dev = record {
  size = word_of (d dev 1) 0;
  nblocks = word_of (d dev 1) 1;
  ninodes = word_of (d dev 1) 2;
}

abbrev pub readsb : Word → Action Drives Superblock
readsb dev = gets λ d. super_block d dev

-- What struct inode (file.h) shares with struct dinode: the copy of the inode on the disk.
pub record Dinode : Type 0 where
  pub type : Word
  pub major : Word
  pub minor : Word
  pub nlink : Word
  pub size : Word
  pub addrs : List Word

-- The struct at byte `o` of a block.
unfoldable pub dinode_at : Block → ℕ → Dinode
dinode_at bytes o = record {
  type = short_at bytes o;
  major = short_at bytes (o + 2);
  minor = short_at bytes (o + 4);
  nlink = short_at bytes (o + 6);
  size = bytes_word (bytes (o + 8)) (bytes (o + 9)) (bytes (o + 10)) (bytes (o + 11));
  addrs = decode_words 13 (bytes_at bytes (o + 12) 52);
}

unfoldable pub dinode_bytes : Dinode → List Byte
dinode_bytes n =
    short_bytes n.type
    ++ short_bytes n.major
    ++ short_bytes n.minor
    ++ short_bytes n.nlink
    ++ word_bytes n.size
    ++ encode_words n.addrs

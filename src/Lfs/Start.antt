-- ===== src/Lfs/Start.antt =====
-- start_server of linux/lfs.c up to the call of listenOnServer: a new image, or an existing one.
pub mod Words
pub mod Image
pub mod Root
use p.Prelude.{ℕ, zero, suc, ◌+◌, ◌*◌, Option, none, some, List, [], ◌∷◌, map, get_or, drop}
use p.Word.{Word, Byte, minus_one, add32, word_bytes, encode_words, decode_words}
use p.Disk.{File}
use p.CString.{strcpy}
use p.Struct.{
  blocksize, max_inodes, cr_size, directory_type, Inode, Directory, encode_inode, encode_dir,
}
use p.Lfs.State.{Lfs, seek, seek_block, put, fetch, update_cr, set_imap, dne, dot, dotdot}

-- The words imap[i], ..., imap[i + n - 1].
unfoldable pub imap_words : (Word → Word) → ℕ → ℕ → List Word
imap_words imap zero i = []
imap_words imap (suc n) i = imap i ∷ imap_words imap n (i + 1)

abbrev pub root_node : Word → Inode
root_node block = record {
  size = blocksize;
  type = directory_type;
  inum = 0;
  dpointers =
      block ∷ minus_one ∷ minus_one ∷ minus_one ∷ minus_one ∷ minus_one ∷ minus_one ∷ minus_one
      ∷ minus_one ∷ minus_one ∷ minus_one ∷ minus_one ∷ minus_one ∷ minus_one ∷ [];
  dp_used = 1 ∷ 0 ∷ 0 ∷ 0 ∷ 0 ∷ 0 ∷ 0 ∷ 0 ∷ 0 ∷ 0 ∷ 0 ∷ 0 ∷ 0 ∷ 0 ∷ [];
}

-- `names` are the 128 names that the local `base_block` held.
unfoldable pub base_block : List (List Byte) → Directory
base_block names = record {
  inums = 0 ∷ 0 ∷ map (λ _. minus_one) (drop 2 names);
  names =
      strcpy (get_or names 0 []) dot
      ∷ strcpy (get_or names 1 []) dotdot
      ∷ map (λ s. strcpy s dne) (drop 2 names);
}

-- The new image, in a file that has just been created or truncated.
unfoldable pub create_image : List (List Byte) → File → Lfs
unfolding base_block
create_image names f =
    let s0 : Lfs = record { imap = λ _. minus_one; next_block = cr_size; file = f } in
    let s1 = put (encode_words (imap_words s0.imap max_inodes 0)) (seek 0 s0) in
    let s2 = put (word_bytes s1.next_block) s1 in
    let node = root_node s2.next_block in
    let s3 = put (encode_dir (base_block names)) (seek_block s2.next_block s2) in
    let s4 = record s3 { next_block = add32 s3.next_block 1 } in
    let s5 = set_imap s4 0 s4.next_block in
    let s6 = put (encode_inode node) (seek_block s5.next_block s5) in
    update_cr 0 (record s6 { next_block = add32 s6.next_block 1 })

-- The globals start at zero, and a short read leaves what it does not reach.
unfoldable pub load_image : File → Lfs
load_image f =
    let s0 : Lfs = record { imap = λ _. 0; next_block = 0; file = f } in
    let (table, s1) =
      fetch (4 * max_inodes) (encode_words (imap_words s0.imap max_inodes 0)) (seek 0 s0) in
    let (next, s2) = fetch 4 (word_bytes s0.next_block) s1 in
    record s2 {
      imap = λ i. get_or (decode_words max_inodes table) i 0;
      next_block = get_or (decode_words 1 next) 0 0;
    }

-- `existing` is the file that open(path, O_RDWR) gives, `created` that of the second open; `none`
-- is the return of -1.
unfoldable pub start_server : List (List Byte) → Option File → Option File → Option Lfs
start_server names (some f) created = some (load_image f)
start_server names none none = none
start_server names none (some f) = some (create_image names f)

-- ===== src/Tests/Server.antt =====
-- linux/lfs.c at fixed states, and the theorems on it.
use p.Prelude.{
  ℕ, zero, suc, ◌+◌, ◌<◌, ◌≡◌, refl, ap, ◌∙◌, sym, List, [], ◌∷◌, ◌++◌, ◌==◌, replicate, length,
  if◌then◌else◌, length-replicate, All, arith,
}
use p.Word.{Byte, minus_one}
use p.CString.{c_str}
use p.Disk.{File, splice, bytes_at, read}
use p.Disk.Regions.{bytes_at-splice_self}
use p.Struct.{Inode, IsInode, IsName, Directory, encode_inode, decode_inode}
use p.Struct.Roundtrip.{length-encode_inode}
use p.Lfs.State.{Lfs}
use p.Lfs.State.Inodes.{InodeOn, BlockOn, SameImage}
use p.Lfs.State.Checkpoint.{update_cr-next}
use p.Lfs.Start.{create_image, load_image, base_block}
use p.Lfs.Start.Image.{create_image-IsSound, load_image-restores, create_image_lem, before_cr}
use p.Lfs.Start.Root.{root-InodeOn, root-Listing}
use p.Lfs.Lookup.Entries.{entries, first_match, or_minus_one, lookup_server-first_match}
use p.Tests.Image.{file_inode}
use p.Lfs.Lookup.{lookup_server, stat_server}
use p.Lfs.Lookup.Missing.{stat_server-unused}
use p.Lfs.Transfer.{write_server, read_server, ReadLocals}
use p.Lfs.Transfer.Saved.{IsSound, write_server-IsSound}
use p.Lfs.Transfer.Write.{write_server-stores, Points}
use p.Lfs.Transfer.Read.{read_server-write_server, read_server-write_server_ne}

abbrev pub empty_file : File
empty_file = record { content = λ _. 0; size = 0; pos = 0 }

abbrev pub blank_name : List Byte
blank_name = replicate 28 0

abbrev pub names126 : List (List Byte)
names126 = replicate 126 blank_name

names-All : (n : ℕ) → All IsName (replicate n blank_name)
names-All zero = tt
names-All (suc n) = (refl, names-All n)

pub names126-All : All IsName names126
names126-All = names-All 126

pub length-names126 : length names126 ≡ 126
length-names126 = refl

abbrev pub new_image : Lfs
new_image = create_image (blank_name ∷ blank_name ∷ names126) empty_file

load_image-restores_example :
    ((j : ℕ) → j < 4096 → (load_image new_image.file).imap j ≡ new_image.imap j)
    × ((load_image new_image.file).next_block ≡ new_image.next_block)
    × ((load_image new_image.file).file.content ≡ new_image.file.content)
    × ((load_image new_image.file).file.size ≡ new_image.file.size)
load_image-restores_example =
    load_image-restores new_image new_image.file
      (create_image-IsSound (blank_name ∷ blank_name ∷ names126) empty_file).saved refl refl

new_image_room : new_image.next_block + 1 < 0x80000
new_image_room =
    let e : new_image.next_block ≡ 8 =
      (ap (λ (t : Lfs). t.next_block)
          (create_image_lem (blank_name ∷ blank_name ∷ names126) empty_file)
        ∙ update_cr-next 0 (before_cr (blank_name ∷ blank_name ∷ names126) empty_file)) in
    rw e (omega arith)

write_server-IsSound_example : IsSound (write_server 0 [] 3 [] new_image).1
write_server-IsSound_example =
    write_server-IsSound 0 [] 3 [] new_image
      (create_image-IsSound (blank_name ∷ blank_name ∷ names126) empty_file) new_image_room

-- An image whose block 9 is the inode of file 3.
abbrev pub disk : Lfs
disk = record {
  imap = λ j. if j == 3 then 9 else minus_one;
  next_block = 12;
  file = record {
    content = splice (λ _. 0) 36864 (encode_inode file_inode);
    size = 49152;
    pos = 0;
  };
}

file_inode-IsInode : IsInode file_inode
file_inode-IsInode = omega arith

pub disk-InodeOn : InodeOn disk 3 file_inode
disk-InodeOn = record {
  number = omega arith;
  block = omega arith;
  stored =
      ap (bytes_at disk.file.content 36864)
        (sym (length-encode_inode file_inode file_inode-IsInode))
      ∙ bytes_at-splice_self (λ _. 0) 36864 (encode_inode file_inode);
  fields = file_inode-IsInode;
  inside = omega arith;
}

abbrev buffer : List Byte
buffer = replicate 4096 7

length-buffer : length buffer ≡ 4096
length-buffer = length-replicate {A = Byte} 4096 7

abbrev locals : ReadLocals
locals = record { node = []; pnode = []; direct = []; dir_ent = record { name = []; inum = 0 } }

write_server-stores_example :
    let (rc, t) = write_server 3 buffer 2 [] disk in
    (rc ≡ 0)
    × ((m : Inode) × InodeOn t 3 m × Points file_inode 2 12 m)
    × BlockOn t 12 buffer
    × (t.imap ≡ disk.imap)
    × (t.next_block ≡ disk.next_block + 1)
write_server-stores_example =
    write_server-stores disk-InodeOn refl buffer length-buffer 2 (omega arith) [] (omega arith)
      (omega arith)

read_server-write_server_example :
    ((write_server 3 buffer 2 [] disk).0 ≡ 0)
    × ((read_server 3 [] 2 locals (write_server 3 buffer 2 [] disk).1).0 ≡ 0)
    × ((read_server 3 [] 2 locals (write_server 3 buffer 2 [] disk).1).1 ≡ buffer)
read_server-write_server_example =
    read_server-write_server disk-InodeOn refl buffer length-buffer 2 (omega arith) [] (omega arith)
      (omega arith) [] locals

block10-BlockOn : BlockOn disk 10 (bytes_at disk.file.content 40960 4096)
block10-BlockOn = record { block = omega arith; stored = refl; inside = omega arith }

read_server-write_server_ne_example :
    (read_server 3 [] 0 locals (write_server 3 buffer 2 [] disk).1).1
    ≡ bytes_at disk.file.content 40960 4096
read_server-write_server_ne_example =
    read_server-write_server_ne disk-InodeOn refl buffer length-buffer 2 (omega arith) []
      (omega arith) (omega arith) 0 10 (bytes_at disk.file.content 40960 4096) [] locals
      (omega arith) (omega arith) refl (omega arith) (omega arith) (omega arith) block10-BlockOn

stat_server-unused_example :
    let n = decode_inode (read disk.file 124 []).0 in
    ((stat_server 5 (record { type = 0; size = 0 }) [] disk).0 ≡ 0)
    × ((stat_server 5 (record { type = 0; size = 0 }) [] disk).1
        ≡ record { type = n.type; size = n.size })
stat_server-unused_example =
    stat_server-unused 5 (record { type = 0; size = 0 }) [] disk (omega arith) refl

abbrev root : Directory
root = base_block (blank_name ∷ blank_name ∷ names126)

lookup_server-first_match_example :
    ((lookup_server 0 (b'.' ∷ []) [] [] new_image).0
      ≡ or_minus_one (first_match (entries root.inums root.names ++ []) (c_str (b'.' ∷ []))))
    × SameImage new_image (lookup_server 0 (b'.' ∷ []) [] [] new_image).1
lookup_server-first_match_example =
    lookup_server-first_match (b'.' ∷ []) [] []
      (root-InodeOn blank_name blank_name names126 refl refl names126-All length-names126
        empty_file)
      (root-Listing blank_name blank_name names126 refl refl names126-All length-names126
        empty_file)

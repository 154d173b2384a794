-- ===== src/Tests/Creat.antt =====
-- creat_server and unlink_server (linux/lfs.c) in the root directory of a new image.
use p.Prelude.{
  ℕ, zero, suc, ◌<◌, ◌≡◌, ◌≢◌, refl, sym, ap, ◌∙◌, some, List, [], ◌∷◌, ◌++◌, replicate, length,
  length-replicate, inr, arith,
}
use p.Word.{Word, Byte, minus_one}
use p.CString.{c_str, bytes_eq}
use p.Struct.{Inode, Directory}
use p.Lfs.State.{Lfs, set_entry}
use p.Lfs.State.Checkpoint.{update_cr-next}
use p.Lfs.State.Inodes.{InodeOn}
use p.Lfs.Start.{base_block, root_node}
use p.Lfs.Start.Image.{create_image_lem, before_cr}
use p.Lfs.Start.Root.{
  root-InodeOn, root-BlockOn, root-Listing, d-IsDirectory, map, lookup_server-create_image,
}
use p.Lfs.Lookup.{lookup_server}
use p.Lfs.Lookup.Entries.{
  Listing, unused, end, entries, first_match, or_minus_one, lookup_server-first_match,
}
use p.Lfs.Creat.{CreatLocals, creat_server, find_slot, find_free}
use p.Lfs.Creat.Slot.{SlotIn, here, AllBlocks}
use p.Lfs.Creat.Found.{creat_server-lookup_server, IsOther, IsEmptyFile}
use p.Lfs.Start.Image.{create_image-IsSound}
use p.Lfs.Transfer.Saved.{IsSound}
use p.Lfs.Unlink.{UnlinkLocals, unlink_server}
use p.Lfs.Unlink.Saved.{unlink_server-IsSound}
use p.Tests.Server.{empty_file, blank_name, names126, names126-All, length-names126, new_image}

abbrev name : List Byte
name = b'a' ∷ 0 ∷ []

abbrev padding : List Byte
padding = replicate 3972 0

length-padding : length padding ≡ 3972
length-padding = length-replicate {A = Byte} 3972 0

abbrev locals : CreatLocals
locals = record {
  parent = [];
  behind_parent = padding;
  lookup_node = [];
  lookup_direct = [];
  block = [];
  names = [];
}

abbrev root : Directory
root = base_block (blank_name ∷ blank_name ∷ names126)

next_8 : new_image.next_block ≡ 8
next_8 =
    ap (λ (t : Lfs). t.next_block)
      (create_image_lem (blank_name ∷ blank_name ∷ names126) empty_file)
    ∙ update_cr-next 0 (before_cr (blank_name ∷ blank_name ∷ names126) empty_file)

root_map : new_image.imap ≡ (before_cr (blank_name ∷ blank_name ∷ names126) empty_file).imap
root_map = map blank_name blank_name names126 refl refl names126-All length-names126 empty_file

first_slot : find_slot root.inums 0 ≡ some 2
unfolding find_slot base_block
first_slot = refl

second_free :
    (imap : Word → Word) (k : ℕ)
    → imap 0 ≢ minus_one
    → imap 1 ≡ minus_one
    → find_free imap (suc (suc k)) 0 ≡ some 1
unfolding find_free
second_free imap k h e = ground arith

first_unused : find_free new_image.imap 4096 0 ≡ some 1
first_unused = second_free new_image.imap 4094 (rw root_map (omega arith)) (rw root_map refl)

root_missing :
    or_minus_one (first_match (entries root.inums root.names ++ []) (c_str name)) ≡ minus_one
unfolding bytes_eq c_str
root_missing =
    sym
      (lookup_server-first_match name [] []
        (root-InodeOn blank_name blank_name names126 refl refl names126-All length-names126
          empty_file)
        (root-Listing blank_name blank_name names126 refl refl names126-All length-names126
          empty_file)).0
    ∙ lookup_server-create_image blank_name blank_name names126 refl refl names126-All
        length-names126 empty_file name [] []

abbrev no_more : List Word
no_more = replicate 13 0

zeros-Listing : (s : Lfs) (n : ℕ) → Listing s (replicate n 0) (replicate n minus_one) []
zeros-Listing s zero = end
zeros-Listing s (suc n) = unused (omega arith) (zeros-Listing s n)

zeros-AllBlocks : (P : Word → Type 0) (n : ℕ) → AllBlocks P (replicate n 0) (replicate n minus_one)
zeros-AllBlocks P zero = tt
zeros-AllBlocks P (suc n) = (λ e. absurd (omega (arith, e)), zeros-AllBlocks P n)

root_slot :
    SlotIn new_image
      (IsOther new_image 0 6)
      6
      root
      (set_entry root 2 1 name)
      (root_node 6).dp_used
      (root_node 6).dpointers
      (entries root.inums root.names ++ [])
      (entries (set_entry root 2 1 name).inums (set_entry root 2 1 name).names ++ [])
root_slot = here refl refl (zeros-Listing new_image 13) (zeros-AllBlocks (IsOther new_image 0 6) 13)

creat_server-lookup_server_example :
    ((creat_server locals 0 1 name new_image).0 ≡ 0)
    × ((new_image.imap 1 ≡ minus_one) × ((j : ℕ) → j < 1 → new_image.imap j ≢ minus_one))
    × ((m : Inode) × InodeOn (creat_server locals 0 1 name new_image).1 1 m × IsEmptyFile 1 m)
    × ((lookup_server 0 name [] [] (creat_server locals 0 1 name new_image).1).0 ≡ 1)
creat_server-lookup_server_example =
    creat_server-lookup_server locals name
      (root-InodeOn blank_name blank_name names126 refl refl names126-All length-names126
        empty_file)
      refl length-padding (unfold c_str in omega arith)
      (d-IsDirectory blank_name blank_name names126 refl refl names126-All length-names126
        empty_file)
      (root-BlockOn blank_name blank_name names126 refl refl names126-All length-names126
        empty_file)
      first_slot root_slot root_missing first_unused (omega arith) (rw next_8 (omega arith))
      (rw root_map (omega arith)) (rw (next_8, root_map) (omega arith)) (rw next_8 (omega arith)) []
      []

root_holds :
    or_minus_one (first_match (entries root.inums root.names ++ []) (c_str (b'.' ∷ []))) ≡ 0
unfolding bytes_eq c_str
root_holds =
    sym
      (lookup_server-first_match (b'.' ∷ []) [] []
        (root-InodeOn blank_name blank_name names126 refl refl names126-All length-names126
          empty_file)
        (root-Listing blank_name blank_name names126 refl refl names126-All length-names126
          empty_file)).0
    ∙ lookup_server-create_image blank_name blank_name names126 refl refl names126-All
        length-names126 empty_file (b'.' ∷ []) [] []

abbrev unlink_locals : UnlinkLocals
unlink_locals = record {
  pinode = [];
  direct = [];
  lookup_node = [];
  lookup_direct = [];
  node = [];
  temp_dir = [];
}

unlink_server-IsSound_example : IsSound (unlink_server unlink_locals 0 (b'.' ∷ []) new_image).1
unlink_server-IsSound_example =
    unlink_server-IsSound unlink_locals (b'.' ∷ [])
      (create_image-IsSound (blank_name ∷ blank_name ∷ names126) empty_file)
      (root-InodeOn blank_name blank_name names126 refl refl names126-All length-names126
        empty_file)
      (root-Listing blank_name blank_name names126 refl refl names126-All length-names126
        empty_file)
      (omega arith) (inr (rw root_holds (omega arith)))

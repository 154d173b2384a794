-- ===== src/Lfs/Creat/Found.antt =====
-- A file made by creat_server (linux/lfs.c) is found by lookup_server.
use p.Prelude.{
  ℕ, ◌≤◌, ◌<◌, ◌≡◌, ◌≢◌, refl, sym, ap, subst, [], ◌∙◌, some, List, length, get_or,
  get_or-replicate, ◌==◌, true, arith,
}
use p.Word.{Word, Byte, minus_one}
use p.CString.{c_str, strcpy, c_str-strcpy}
use p.Struct.{Inode, Directory, IsDirectory, IsName, encode_dir}
use p.Lfs.State.{Lfs, find_inode, set_entry}
use p.Lfs.State.Inodes.{
  IsBlock, SameImage, SameImage-trans, find_inode-SameImage, InodeOn, InodeOn-SameImage,
  find_inode-rc, find_inode-node, BlockOn, BlockOn-SameImage,
}
use p.Lfs.Lookup.{lookup_server}
use p.Lfs.Lookup.Entries.{
  Entry, first_match, or_minus_one, Listing, Listing-SameImage, lookup_server-first_match,
}
use p.Lfs.Creat.{
  find_free, find_slot, new_inode, make_inode, write_entry, CreatLocals, creat_blocks, creat_server,
}
use p.Lfs.Creat.Refuse.{find_free-first}
use p.Lfs.Creat.Slot.{
  SlotIn, SlotIn-Listing, SlotIn-after, SlotIn-first, find_slot-first, creat_blocks-SlotIn,
}
use p.Lfs.Creat.Effect.{All-get_or, make_inode-IsMade, set_entry-IsDirectory}

-- The inode of an empty regular file: size 0, no pointer in use, and each pointer -1.
pub record IsEmptyFile (inum : Word) (n : Inode) : Type 0 where
  pub regular : n.type ≡ 1
  pub number : n.inum ≡ inum
  pub empty : n.size ≡ 0
  pub no_block :
      (j : ℕ) → j < 14 → (get_or n.dp_used j 1 ≡ 0) × (get_or n.dpointers j 0 ≡ minus_one)

-- A directory's other blocks: in the log, and none of the three blocks that are written.
abbrev pub IsOther : Lfs → Word → Word → Word → Type 0
IsOther s p at b = IsBlock b × (b ≢ s.imap p) × (b ≢ at) × (b ≢ s.next_block)

new_inode-IsEmptyFile : (inum : Word) → IsEmptyFile inum (new_inode inum 1)
new_inode-IsEmptyFile inum = record {
  regular = refl;
  number = refl;
  empty = refl;
  no_block = λ j lt. (get_or-replicate 14 j 0 1 lt, get_or-replicate 14 j minus_one 0 lt);
}

module _ {s : Lfs} {p : Word} {n : Inode} {at : Word} {d : Directory} {e : ℕ} {inum : Word}
    {es es' : List Entry} (l : CreatLocals) (name : List Byte) (on : InodeOn s p n)
    (directory : n.type ≡ 0) (behind : length l.behind_parent ≡ 3972)
    (short : length (c_str name) ≤ 27) (v : IsDirectory d) (there : BlockOn s at (encode_dir d))
    (slot : find_slot d.inums 0 ≡ some e)
    (entry : SlotIn s (IsOther s p at) at d (set_entry d e inum name) n.dp_used n.dpointers es es')
    (missing : or_minus_one (first_match es (c_str name)) ≡ minus_one)
    (free : find_free s.imap 4096 0 ≡ some inum) (block : IsBlock at)
    (log_end : IsBlock s.next_block) (apart : at ≢ s.imap p) (fresh_p : s.next_block ≢ s.imap p)
    (fresh_at : s.next_block ≢ at) where
  s1 : Lfs
  s1 = (find_inode p l.parent s).2

  s2 : Lfs
  unfolding s1
  s2 = (lookup_server p name l.lookup_node l.lookup_direct s1).1

  same1 : SameImage s s1
  unfolding s1
  same1 = find_inode-SameImage p l.parent s

  looked :
      ((lookup_server p name l.lookup_node l.lookup_direct s1).0
        ≡ or_minus_one (first_match es (c_str name)))
      × SameImage s1 s2
  unfolding s2
  looked =
      lookup_server-first_match name l.lookup_node l.lookup_direct (InodeOn-SameImage same1 on)
        (Listing-SameImage same1 (SlotIn-Listing v there entry))

  same2 : SameImage s s2
  same2 = SameImage-trans same1 looked.1

  made :
      (t : Lfs) × (creat_blocks l p 1 inum name 14 0 n l.block s2
        ≡ make_inode inum p 1 l.names (write_entry n l.behind_parent p at d e inum name t))
      × SameImage s t
  made =
      creat_blocks-SlotIn l p 1 inum name n e 14 0 l.block s2 v there slot same2
        (omega (arith, on.fields.used_len)) refl refl entry

  run :
      creat_server l p 1 name s
      ≡ make_inode inum p 1 l.names (write_entry n l.behind_parent p at d e inum name made.0)
  unfolding creat_server s2
  run =
      let free2 : find_free s2.imap 4096 0 ≡ some inum =
        ap (λ m. find_free m 4096 0) same2.imap ∙ free in
      let dir : (n.type == 0) ≡ true = ground arith in
      rw (find_inode-rc on l.parent, find_inode-node on l.parent, dir, looked.0, missing, free2)
        (rw (find_inode-node on l.parent) made.1)

  slot_lt : e < 128
  slot_lt =
      let (j, eq, lt, vacant, before) = find_slot-first d.inums 0 slot in
      omega (arith, eq, lt, v.inums_len)

  number : (inum < 4096) × (s.imap inum ≡ minus_one)
  number =
      let (lo, hi, unused, before) = find_free-first s.imap 4096 0 free in
      (omega (arith, hi), unused)

  abbrev T : Lfs
  T = (make_inode inum p 1 l.names (write_entry n l.behind_parent p at d e inum name made.0)).1

  effect :
      ((make_inode inum p 1 l.names (write_entry n l.behind_parent p at d e inum name made.0)).0
        ≡ 0)
      × InodeOn T p n
      × InodeOn T inum (new_inode inum 1)
      × BlockOn T at (encode_dir (set_entry d e inum name))
      × ((b : Word) (x : List Byte) → IsOther s p at b → BlockOn s b x → BlockOn T b x)
  effect =
      let same = made.2 in
      let (rc, parent, new, block', frame) =
        make_inode-IsMade made.0 p n (InodeOn-SameImage same on) l.behind_parent behind at d e inum
          name l.names v slot_lt number.0 (rw same.imap number.1) block (rw same.next_block log_end)
          (rw same.imap apart) (rw (same.imap, same.next_block) fresh_p)
          (rw same.next_block fresh_at) in
      (
        rc,
        parent,
        new,
        block',
        λ b x o on'. frame b x (rw (same.imap, same.next_block) o) (BlockOn-SameImage same on'),
      )

  -- creat_server of a regular file with a name of at most 27 bytes, in a directory in use that lacks the
  -- name and has a free slot in a block behind full blocks, where a number is unused and the inode of
  -- the directory, the block and the log's end are apart, returns 0: the first unused number is then
  -- an empty regular file, and lookup_server finds it under the name.
  pub creat_server-lookup_server :
      (node direct : List Byte)
      → ((creat_server l p 1 name s).0 ≡ 0)
        × ((s.imap inum ≡ minus_one) × ((j : ℕ) → j < inum → s.imap j ≢ minus_one))
        × ((m : Inode) × InodeOn (creat_server l p 1 name s).1 inum m × IsEmptyFile inum m)
        × ((lookup_server p name node direct (creat_server l p 1 name s).1).0 ≡ inum)
  creat_server-lookup_server node direct =
      let (lo, hi, unused, before) = find_free-first s.imap 4096 0 free in
      let (rc, parent, new, block', frame) = effect in
      let listing : Listing T n.dp_used n.dpointers es' =
        SlotIn-after frame (set_entry-IsDirectory d e inum name v (omega (arith, number.0)) slot_lt)
          block' entry in
      let copied : c_str (strcpy (get_or d.names e []) name) ≡ c_str name = c_str-strcpy _ name (
        omega (
          arith,
          short,
          All-get_or IsName d.names e [] (omega (arith, v.names_len, slot_lt)) v.names,
        )) in
      let found : first_match es' (c_str name) ≡ some inum =
        SlotIn-first e inum name v slot copied entry missing in
      subst
        (λ r.
          (r.0 ≡ 0)
          × ((s.imap inum ≡ minus_one) × ((j : ℕ) → j < inum → s.imap j ≢ minus_one))
          × ((m : Inode) × InodeOn r.1 inum m × IsEmptyFile inum m)
          × ((lookup_server p name node direct r.1).0 ≡ inum))
        (sym run)
        (
          rc,
          (unused, λ j below. before j (omega arith) below),
          (new_inode inum 1, new, new_inode-IsEmptyFile inum),
          (lookup_server-first_match name node direct parent listing).0 ∙ ap or_minus_one found,
        )

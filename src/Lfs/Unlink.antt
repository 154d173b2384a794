-- ===== src/Lfs/Unlink.antt =====
-- unlink_server of linux/lfs.c.
pub mod Saved
pub mod Refuse
use p.Prelude.{
  ℕ, zero, suc, ◌+◌, Bool, true, false, ◌&&◌, Option, none, some, List, [], ◌∷◌, ◌==◌,
  if◌then◌else◌, get_or, drop, is_some,
}
use p.Word.{Word, Byte, minus_one, is_neg}
use p.CString.{str_eq}
use p.Struct.{
  blocksize, directory_type, regular_type, Inode, Directory, decode_inode, encode_dir, decode_dir,
}
use p.Lfs.State.{Lfs, seek_block, put, fetch, find_inode, update_cr, set_imap, set_entry, dne}
use p.Lfs.Lookup.{lookup_server}

-- Has a directory block no entry in use? (The loop passes over the first two.)
unfoldable pub all_unused : List Word → Bool
all_unused [] = true
all_unused (i ∷ inums) = i == minus_one && all_unused inums

-- What the locals hold beforehand.
pub record UnlinkLocals : Type 0 where
  pub pinode : List Byte
  pub direct : List Byte
  pub lookup_node : List Byte
  pub lookup_direct : List Byte
  pub node : List Byte
  pub temp_dir : List Byte

-- The entry j cleared, and the block written at the parent's first pointer.
unfoldable pub clear_entry : Word → Directory → ℕ → Lfs → Directory × Lfs
clear_entry at direct j s =
    let d = set_entry direct j minus_one dne in (d, put (encode_dir d) (seek_block at s))

module _ (at : Word) (node : Inode) (name : List Byte) where
  -- The loop over the entries from j on, k of them: `none` is the return of -1 in the middle.
  unfoldable pub unlink_entries : ℕ → ℕ → Directory → List Byte → Lfs → Option (Unit {0}) × Lfs
  unfolding all_unused clear_entry
  unlink_entries zero j direct temp s = (some tt, s)
  unlink_entries (suc k) j direct temp s = elim (str_eq (get_or direct.names j []) name) [
    | false ↦ unlink_entries k (j + 1) direct temp s
    | true ↦ elim (node.type == regular_type) [
      | true ↦ let (d, s1) = clear_entry at direct j s in unlink_entries k (j + 1) d temp s1
      | false ↦
          let (temp', s1) = fetch blocksize temp (seek_block (get_or node.dpointers 0 0) s) in
          elim (all_unused (drop 2 (decode_dir temp').inums)) [
            | false ↦ (none, s1)
            | true ↦ let (d, s2) = clear_entry at direct j s1 in unlink_entries k (j + 1) d temp' s2
          ]
    ]
  ]

unfoldable pub unlink_server : UnlinkLocals → Word → List Byte → Lfs → Word × Lfs
unfolding unlink_entries
unlink_server l pinum name s =
    let (rc, raw, s1) = find_inode pinum l.pinode s in
    let pinode = decode_inode raw in
    if rc == 0
    then (if pinode.type == directory_type
        then (let at = get_or pinode.dpointers 0 0 in
            let (rawd, s2) = fetch blocksize l.direct (seek_block at s1) in
            let (inum, s3) = lookup_server pinum name l.lookup_node l.lookup_direct s2 in
            if is_neg inum
            then (0, s3)
            else (let (_, rawn, s4) = find_inode inum l.node s3 in
                let (finished, s5) =
                  unlink_entries at (decode_inode rawn) name 128 0 (decode_dir rawd) l.temp_dir
                    s4 in
                if is_some finished
                then (0, update_cr inum (set_imap s5 inum minus_one))
                else (minus_one, s5)))
        else (minus_one, s1))
    else (minus_one, s1)

-- ===== src/Lfs/Unlink/Saved.antt =====
-- unlink_server (linux/lfs.c) keeps the checkpoint region of the image in agreement with the globals.
use p.Prelude.{
  ℕ, zero, suc, ◌+◌, ◌*◌, ◌<◌, ◌≡◌, sym, ap, ◌∙◌, ◌⊎◌, inl, inr, false, Option, is_some, List, [],
  ◌==◌, if_keep, get_or, drop, Bool-cases, arith,
}
use p.Word.{Word, Byte, minus_one, is_neg}
use p.CString.{c_str, str_eq}
use p.Struct.{Inode, Directory, decode_dir, decode_inode}
use p.Lfs.State.{Lfs, seek_block, put, fetch, find_inode, update_cr, set_imap}
use p.Lfs.State.Inodes.{
  IsBlock, SameImage, SameImage-trans, SameImage-refl, seek_block-SameImage, fetch-SameImage,
  find_inode-SameImage, InodeOn, InodeOn-SameImage, find_inode-rc, find_inode-node,
}
use p.Lfs.State.Checkpoint.{
  Kept, Kept-trans, SameImage-Kept, put_block-Kept, word_at-Kept, update_cr-Saved, update_cr-imap,
  update_cr-next,
}
use p.Lfs.Lookup.{lookup_server}
use p.Lfs.Lookup.Entries.{
  Entry, first_match, or_minus_one, Listing, Listing-SameImage, lookup_server-first_match,
}
use p.Lfs.Transfer.Saved.{IsSound, IsSound-SameImage}
use p.Lfs.Unlink.{UnlinkLocals, all_unused, clear_entry, unlink_entries, unlink_server}

-- Neither the map nor the checkpoint region nor the end of the log has changed.
pub record Untouched (s t : Lfs) : Type 0 where
  pub kept : Kept s t
  pub next_block : t.next_block ≡ s.next_block

Untouched-trans : {s t u : Lfs} → Untouched s t → Untouched t u → Untouched s u
Untouched-trans a b = record {
  kept = Kept-trans a.kept b.kept;
  next_block = b.next_block ∙ a.next_block;
}

SameImage-Untouched : {s t : Lfs} → SameImage s t → Untouched s t
SameImage-Untouched e = record { kept = SameImage-Kept e; next_block = e.next_block }

clear_entry-Untouched :
    (at : Word) (d : Directory) (j : ℕ) (s : Lfs)
    → IsBlock at
    → Untouched s (clear_entry at d j s).1
unfolding clear_entry put
clear_entry-Untouched at d j s h = record {
  kept = put_block-Kept at _ s h;
  next_block = (seek_block-SameImage at s).next_block;
}

unlink_entries-Untouched :
    (at : Word) (node : Inode) (name : List Byte) (k j : ℕ) (d : Directory) (temp : List Byte)
    (s : Lfs)
    → IsBlock at
    → Untouched s (unlink_entries at node name k j d temp s).1
unfolding unlink_entries
unlink_entries-Untouched at node name zero j d temp s h = SameImage-Untouched (SameImage-refl s)
unlink_entries-Untouched at node name (suc k) j d temp s h =
    elim (Bool-cases (str_eq (get_or d.names j []) name)) [
      | inr differs ↦
          rw (unlink_entries, differs) (unlink_entries-Untouched at node name k (j + 1) d temp s h)
      | inl matches ↦ elim (Bool-cases (node.type == 1)) [
        | inl regular ↦
            rw (unlink_entries, matches, regular)
              (Untouched-trans (clear_entry-Untouched at d j s h)
                (unlink_entries-Untouched at node name k (j + 1) _ temp _ h))
        | inr other ↦
            elim (Bool-cases (
              all_unused (
                drop 2
                  (decode_dir
                    (fetch 4096 temp (seek_block (get_or node.dpointers 0 0) s)).0).inums))) [
                      | inr busy ↦ rw (unlink_entries, matches, other, busy) fetched
                      | inl empty ↦
                          rw (unlink_entries, matches, other, empty)
                            (Untouched-trans fetched (
                              Untouched-trans (clear_entry-Untouched at d j _ h)
                                (unlink_entries-Untouched at node name k (j + 1) _ _ _ h)))
                    ]
      ]
    ]
  where
    fetched : Untouched s (fetch 4096 temp (seek_block (get_or node.dpointers 0 0) s)).1
    fetched = SameImage-Untouched (
        SameImage-trans (seek_block-SameImage (get_or node.dpointers 0 0) s)
          (fetch-SameImage 4096 temp _))

IsSound-Untouched : {s t : Lfs} → Untouched s t → IsSound s → IsSound t
IsSound-Untouched {s} {t} u v = record {
  range = record {
    entries = rw u.kept.imap v.range.entries;
    log_end = rw u.next_block v.range.log_end;
  };
  saved = record {
    table = λ j l.
        word_at-Kept u.kept (4 * j) (omega arith)
        ∙ v.saved.table j l
        ∙ ap (λ (f : Word → Word). f j) (sym u.kept.imap);
    next = word_at-Kept u.kept 16384 (omega arith) ∙ v.saved.next ∙ sym u.next_block;
    inside = omega (arith, v.saved.inside, u.kept.size);
  };
}

-- The map's entry is given up, and written.
release-IsSound :
    (i : Word) (s : Lfs) → i < 4096 → IsSound s → IsSound (update_cr i (set_imap s i minus_one))
release-IsSound i s h v = record {
  range = record {
    entries = rw (update_cr-imap i t) (λ j l. ground (arith, v.range.entries j l));
    log_end = rw (update_cr-next i t) v.range.log_end;
  };
  saved =
      update_cr-Saved i t h (ground arith) (omega (arith, v.range.log_end))
        (λ j l ne. v.saved.table j l ∙ ground (arith, ne));
}
  where
    t : Lfs
    t = set_imap s i minus_one

-- unlink_server in a directory in use, whose first block is one of the log, leaves on every branch the
-- globals in range and the checkpoint region in agreement with them, if both were so before and the
-- entry of the name, when the directory has one, holds -1 or a number below 4096.
pub unlink_server-IsSound :
    {s : Lfs} {p : Word} {n : Inode} {es : List Entry} (l : UnlinkLocals) (name : List Byte)
    → IsSound s
    → InodeOn s p n
    → Listing s n.dp_used n.dpointers es
    → IsBlock (get_or n.dpointers 0 0)
    → (or_minus_one (first_match es (c_str name)) ≡ minus_one)
      ⊎ (or_minus_one (first_match es (c_str name)) < 4096)
    → IsSound (unlink_server l p name s).1
unfolding unlink_server
unlink_server-IsSound {s} {p} {n} {es} l name v on listing block h =
    rw (find_inode-rc on l.pinode, find_inode-node on l.pinode)
      (if_keep (λ (r : Word × Lfs). IsSound r.1) (n.type == 0) _ _
        (λ _.
          if_keep (λ (r : Word × Lfs). IsSound r.1) (is_neg found) _ _
            (λ _. IsSound-SameImage same3 v)
            (λ present.
              if_keep (λ (r : Word × Lfs). IsSound r.1) (is_some finished) _ _
                (λ _. release-IsSound found s5 (number present) sound5) (λ _. sound5)))
        (λ _. IsSound-SameImage same1 v))
  where
    s1 : Lfs
    s1 = (find_inode p l.pinode s).2

    same1 : SameImage s s1
    same1 = find_inode-SameImage p l.pinode s

    at : Word
    at = get_or n.dpointers 0 0

    s2 : Lfs
    s2 = (fetch 4096 l.direct (seek_block at s1)).1

    same2 : SameImage s s2
    same2 =
        SameImage-trans same1
          (SameImage-trans (seek_block-SameImage at s1) (fetch-SameImage 4096 l.direct _))

    looked :
        ((lookup_server p name l.lookup_node l.lookup_direct s2).0
          ≡ or_minus_one (first_match es (c_str name)))
        × SameImage s2 (lookup_server p name l.lookup_node l.lookup_direct s2).1
    looked =
        lookup_server-first_match name l.lookup_node l.lookup_direct (InodeOn-SameImage same2 on)
          (Listing-SameImage same2 listing)

    found : Word
    found = (lookup_server p name l.lookup_node l.lookup_direct s2).0

    s3 : Lfs
    s3 = (lookup_server p name l.lookup_node l.lookup_direct s2).1

    same3 : SameImage s s3
    same3 = SameImage-trans same2 looked.1

    number : is_neg found ≡ false → found < 4096
    number e = elim h [
      | inl missing ↦ let m : found ≡ minus_one = looked.0 ∙ missing in ground (arith, m)
      | inr small ↦ rw looked.0 small
    ]

    s4 : Lfs
    s4 = (find_inode found l.node s3).2

    child : Inode
    child = decode_inode (find_inode found l.node s3).1

    finished : Option (Unit {0})
    finished =
        (unlink_entries at child name 128 0 (decode_dir (fetch 4096 l.direct (seek_block at s1)).0)
          l.temp_dir s4).0

    s5 : Lfs
    s5 =
        (unlink_entries at child name 128 0 (decode_dir (fetch 4096 l.direct (seek_block at s1)).0)
          l.temp_dir s4).1

    sound5 : IsSound s5
    sound5 =
        IsSound-Untouched
          (unlink_entries-Untouched at child name 128 0
            (decode_dir (fetch 4096 l.direct (seek_block at s1)).0) l.temp_dir s4 block)
          (IsSound-SameImage (SameImage-trans same3 (find_inode-SameImage found l.node s3)) v)

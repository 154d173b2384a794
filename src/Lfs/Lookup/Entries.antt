-- ===== src/Lfs/Lookup/Entries.antt =====
-- lookup_server of linux/lfs.c against a directory as one sequence of named entries.
use p.Prelude.{
  ◌≡◌, ◌≢◌, refl, ap, ◌∙◌, false, Option, none, some, List, [], ◌∷◌, ◌++◌, ◌==◌, if◌then◌else◌,
  Option-cases, inl, inr, arith,
}
use p.Word.{Word, Byte, minus_one}
use p.CString.{c_str, bytes_eq, str_eq}
use p.Struct.{Inode, Directory, IsDirectory, encode_dir, decode_dir}
use p.Struct.Roundtrip.{decode_dir-encode_dir}
use p.Lfs.State.{Lfs, seek_block, fetch, find_inode}
use p.Lfs.State.Inodes.{
  SameImage, SameImage-trans, seek_block-SameImage, fetch-SameImage, BlockOn, fetch-BlockOn,
  BlockOn-SameImage, InodeOn, find_inode-rc, find_inode-node, find_inode-SameImage,
}
use p.Lfs.Lookup.{find_name, lookup_blocks, lookup_server}

-- An entry as a client sees it: the inode number and the name as a string.
abbrev pub Entry : Type 0
Entry = Word × List Byte

unfoldable pub entries : List Word → List (List Byte) → List Entry
entries (i ∷ inums) (s ∷ names) = (i, c_str s) ∷ entries inums names
entries _ _ = []

-- The inode number of the first entry with the name.
unfoldable pub first_match : List Entry → List Byte → Option Word
first_match [] name = none
first_match ((i, s) ∷ es) name = if bytes_eq s name then some i else first_match es name

-- The number, or -1.
abbrev pub or_minus_one : Option Word → Word
or_minus_one none = minus_one
or_minus_one (some i) = i

-- The blocks of the pointers in use hold these entries, one block after the other.
pub data Listing (s : Lfs) : List Word → List Word → List Entry → Type 0 where
  end : Listing s [] [] []
  used :
      {u b : Word} {us bs : List Word} {es : List Entry} (d : Directory)
      → u ≡ 1
      → IsDirectory d
      → BlockOn s b (encode_dir d)
      → Listing s us bs es
      → Listing s (u ∷ us) (b ∷ bs) (entries d.inums d.names ++ es)
  unused :
      {u b : Word} {us bs : List Word} {es : List Entry}
      → u ≢ 1
      → Listing s us bs es
      → Listing s (u ∷ us) (b ∷ bs) es

find_name-entries :
    (inums : List Word) (names : List (List Byte)) (name : List Byte)
    → find_name inums names name ≡ first_match (entries inums names) (c_str name)
unfolding find_name entries first_match str_eq
find_name-entries (i ∷ inums) (s ∷ names) name = ground (arith, find_name-entries inums names name)
find_name-entries [] [] name = refl
find_name-entries [] (s ∷ names) name = refl
find_name-entries (i ∷ inums) [] name = refl

first_match-append :
    (xs ys : List Entry) (name : List Byte)
    → first_match (xs ++ ys) name
      ≡ elim (first_match xs name) [ none ↦ first_match ys name | some i ↦ some i ]
unfolding first_match
first_match-append [] ys name = refl
first_match-append ((i, s) ∷ xs) ys name = ground (arith, first_match-append xs ys name)

pub Listing-SameImage :
    {s t : Lfs} {us bs : List Word} {es : List Entry}
    → SameImage s t
    → Listing s us bs es
    → Listing t us bs es
Listing-SameImage e end = end
Listing-SameImage e (used d u v on rest) =
    used d u v (BlockOn-SameImage e on) (Listing-SameImage e rest)
Listing-SameImage e (unused u rest) = unused u (Listing-SameImage e rest)

-- The loop from a state `t` that has read, and not changed, the image of `s`.
lookup_blocks-Listing :
    {s : Lfs} {us bs : List Word} {es : List Entry} (name direct : List Byte) (t : Lfs)
    → SameImage s t
    → Listing s us bs es
    → ((lookup_blocks us bs name direct t).0 ≡ or_minus_one (first_match es (c_str name)))
      × SameImage s (lookup_blocks us bs name direct t).1
unfolding lookup_blocks
lookup_blocks-Listing name direct t e end = (unfold first_match in refl, e)
lookup_blocks-Listing {s} name direct t e
      (used {b = b} {us = us} {bs = bs} {es = es} d u v on rest) =
    elim (Option-cases (find_name d.inums d.names name)) [
      | inl missing ↦
          rw
            (
              u,
              lookup_blocks,
              read,
              missing,
              first_match-append,
              ← find_name-entries d.inums d.names name,
              missing,
            )
            (lookup_blocks-Listing name _ t1 e1 rest)
      | inr (i, found) ↦
          rw
            (
              u,
              lookup_blocks,
              read,
              found,
              first_match-append,
              ← find_name-entries d.inums d.names name,
              found,
            )
            (refl, e1)
    ]
  where
    t1 : Lfs
    t1 = (fetch 4096 direct (seek_block b t)).1

    e1 : SameImage s t1
    e1 =
        SameImage-trans e
          (SameImage-trans (seek_block-SameImage b t) (fetch-SameImage 4096 direct _))

    read : decode_dir (fetch 4096 direct (seek_block b t)).0 ≡ d
    read = ap decode_dir (fetch-BlockOn direct (BlockOn-SameImage e on)) ∙ decode_dir-encode_dir d v
lookup_blocks-Listing name direct t e (unused {u = u'} u rest) =
    let skip : (u' == 1) ≡ false = ground arith in
    rw (lookup_blocks, skip) (lookup_blocks-Listing name direct t e rest)

-- In a directory whose blocks hold `es`, lookup_server finds the inode number of the first entry
-- with the name, or -1 if there is none, and changes nothing.
pub lookup_server-first_match :
    {s : Lfs} {i : Word} {n : Inode} {es : List Entry} (name node direct : List Byte)
    → InodeOn s i n
    → Listing s n.dp_used n.dpointers es
    → ((lookup_server i name node direct s).0 ≡ or_minus_one (first_match es (c_str name)))
      × SameImage s (lookup_server i name node direct s).1
unfolding lookup_server
lookup_server-first_match {s} {i} name node direct on l =
    rw (find_inode-rc on node, find_inode-node on node)
      (lookup_blocks-Listing name direct (find_inode i node s).2 (find_inode-SameImage i node s) l)

-- ===== src/Lfs/Creat/Slot.antt =====
-- Where creat_server (linux/lfs.c) puts a new entry, and what a lookup finds afterwards.
use p.Prelude.{
  ℕ, zero, suc, ◌+◌, ◌≤◌, ◌<◌, ◌≡◌, ◌≢◌, refl, ap, ◌∙◌, none, some, List, [], ◌∷◌, ◌++◌, ◌==◌, inl,
  inr, Bool-cases, get_or, set, length, drop, take, All, arith,
}
use p.Word.{Word, Byte, minus_one}
use p.CString.{c_str, bytes_eq_refl, strcpy}
use p.Struct.{Inode, Directory, IsDirectory, encode_dir, decode_dir}
use p.Struct.Roundtrip.{decode_dir-encode_dir}
use p.Lfs.State.{Lfs, seek_block, fetch, set_entry}
use p.Lfs.State.Inodes.{
  SameImage, SameImage-trans, BlockOn, fetch-BlockOn, BlockOn-SameImage, seek_block-SameImage,
  fetch-SameImage,
}
use p.Lfs.Lookup.Entries.{Entry, entries, first_match, or_minus_one, Listing, used, unused, end}
use p.Lfs.Creat.{find_slot, CreatLocals, write_entry, make_inode, open_block, creat_blocks}

abbrev InUse : Word → Type 0
InUse i = i ≢ minus_one

-- A block without a slot has all its entries in use.
find_slot-none : (inums : List Word) (o : ℕ) → find_slot inums o ≡ none → All InUse inums
unfolding find_slot
find_slot-none [] o h = tt
find_slot-none (i ∷ inums) o h = elim (Bool-cases (i == minus_one)) [
  | inl free ↦ cc (rw free at h)
  | inr taken ↦ (ground arith, find_slot-none inums (o + 1) (rw taken at h))
]

-- The slot found is unused, and the entries before it are in use.
pub find_slot-first :
    (inums : List Word) (o : ℕ) {r : ℕ}
    → find_slot inums o ≡ some r
    → (e : ℕ) × (r ≡ o + e)
      × (e < length inums)
      × (get_or inums e 0 ≡ minus_one)
      × All InUse (take e inums)
unfolding find_slot
find_slot-first [] o h = cc
find_slot-first (i ∷ inums) o h = elim (Bool-cases (i == minus_one)) [
  | inl free ↦ (0, ground arith, omega arith, ground arith, tt)
  | inr taken ↦
      let (e, at, lt, vacant, before) = find_slot-first inums (o + 1) (rw taken at h) in
      (suc e, omega (arith, at), omega (arith, lt), vacant, (ground arith, before))
]

-- A search that finds nothing finds the new entry once it stands in the first unused place.
slot_first :
    (inums : List Word) (names : List (List Byte)) (e : ℕ) (inum : Word) (name : List Byte)
    (tail : List Entry)
    → e < length inums
    → e < length names
    → All InUse (take e inums)
    → c_str (strcpy (get_or names e []) name) ≡ c_str name
    → or_minus_one (first_match (entries inums names ++ tail) (c_str name)) ≡ minus_one
    → first_match
        (entries (set inums e inum) (set names e (strcpy (get_or names e []) name)) ++ tail)
        (c_str name)
      ≡ some inum
unfolding first_match entries
slot_first [] names e inum name tail l m busy copied h = elim l [ ]
slot_first (i ∷ inums) [] e inum name tail l m busy copied h = elim m [ ]
slot_first (i ∷ inums) (s ∷ names) zero inum name tail l m busy copied h =
    rw (copied, bytes_eq_refl (c_str name))
slot_first (i ∷ inums) (s ∷ names) (suc e) inum name tail l m busy copied h = ground (
  arith,
  slot_first inums names e inum name tail (omega arith) (omega arith) busy.1 copied,
  busy.0,
)

-- A full block in front is passed over.
full_skip :
    (inums : List Word) (names : List (List Byte)) (name : List Byte) (es es' : List Entry)
    → All InUse inums
    → or_minus_one (first_match (entries inums names ++ es) name) ≡ minus_one
    → (or_minus_one (first_match es name) ≡ minus_one)
      × (first_match (entries inums names ++ es') name ≡ first_match es' name)
unfolding first_match entries
full_skip [] names name es es' busy h = (h, refl)
full_skip (i ∷ inums) [] name es es' busy h = (h, refl)
full_skip (i ∷ inums) (s ∷ names) name es es' busy h =
    ground (arith, full_skip inums names name es es' busy.1, busy.0)

-- Every block of a pointer in use satisfies `P`.
abbrev pub AllBlocks : (Word → Type 0) → List Word → List Word → Type 0
AllBlocks P [] bs = Unit
AllBlocks P (u ∷ us) [] = Unit
AllBlocks P (u ∷ us) (b ∷ bs) = (u ≡ 1 → P b) × AllBlocks P us bs

-- The pointers lead through full blocks to block `at`, which holds `d`: the entries before, and
-- those after the new entry is in place.
pub data SlotIn (s : Lfs) (P : Word → Type 0) (at : Word) (d d' : Directory)
    : List Word → List Word → List Entry → List Entry → Type 0 where
  here :
      {u b : Word} {us bs : List Word} {es : List Entry}
      → u ≡ 1
      → b ≡ at
      → Listing s us bs es
      → AllBlocks P us bs
      → SlotIn s P at d d'
          (u ∷ us)
          (b ∷ bs)
          (entries d.inums d.names ++ es)
          (entries d'.inums d'.names ++ es)
  full :
      {u b : Word} {us bs : List Word} {es es' : List Entry} (d0 : Directory)
      → u ≡ 1
      → IsDirectory d0
      → BlockOn s b (encode_dir d0)
      → P b
      → find_slot d0.inums 0 ≡ none
      → SlotIn s P at d d' us bs es es'
      → SlotIn s P at d d'
          (u ∷ us)
          (b ∷ bs)
          (entries d0.inums d0.names ++ es)
          (entries d0.inums d0.names ++ es')

Listing-frame :
    {s t : Lfs} (P : Word → Type 0) {us bs : List Word} {es : List Entry}
    → ((b : Word) (x : List Byte) → P b → BlockOn s b x → BlockOn t b x)
    → AllBlocks P us bs
    → Listing s us bs es
    → Listing t us bs es
Listing-frame P keep busy end = end
Listing-frame P keep busy (used d1 u v on rest) =
    used d1 u v (keep _ _ (busy.0 u) on) (Listing-frame P keep busy.1 rest)
Listing-frame P keep busy (unused u rest) = unused u (Listing-frame P keep busy.1 rest)

module _ {s : Lfs} {P : Word → Type 0} {at : Word} {d d' : Directory} where
  -- Before the new entry is written.
  pub SlotIn-Listing :
      {us bs : List Word} {es es' : List Entry}
      → IsDirectory d
      → BlockOn s at (encode_dir d)
      → SlotIn s P at d d' us bs es es'
      → Listing s us bs es
  SlotIn-Listing v on (here u e rest busy) = used d u v (rw e on) rest
  SlotIn-Listing v on (full d0 u v0 on0 p none_free rest) =
      used d0 u v0 on0 (SlotIn-Listing v on rest)

  -- After it is written, in a state that has kept the other blocks.
  pub SlotIn-after :
      {t : Lfs} {us bs : List Word} {es es' : List Entry}
      → ((b : Word) (x : List Byte) → P b → BlockOn s b x → BlockOn t b x)
      → IsDirectory d'
      → BlockOn t at (encode_dir d')
      → SlotIn s P at d d' us bs es es'
      → Listing t us bs es'
  SlotIn-after keep v on (here u e rest busy) =
      used d' u v (rw e on) (Listing-frame P keep busy rest)
  SlotIn-after keep v on (full d0 u v0 on0 p none_free rest) =
      used d0 u v0 (keep _ _ p on0) (SlotIn-after keep v on rest)

-- The name, missing before, leads to the new inode.
pub SlotIn-first :
    (e : ℕ) (inum : Word) (name : List Byte) {s : Lfs} {P : Word → Type 0} {at : Word}
    {d : Directory} {us bs : List Word} {es es' : List Entry}
    → IsDirectory d
    → find_slot d.inums 0 ≡ some e
    → c_str (strcpy (get_or d.names e []) name) ≡ c_str name
    → SlotIn s P at d (set_entry d e inum name) us bs es es'
    → or_minus_one (first_match es (c_str name)) ≡ minus_one
    → first_match es' (c_str name) ≡ some inum
SlotIn-first e inum name {d = d} v free copied (here {es = es} u b rest busy) h =
    let (j, at, lt, vacant, before) = find_slot-first d.inums 0 free in
    let same : e ≡ j = omega (arith, at) in
    slot_first d.inums d.names e inum name es (rw same lt)
      (omega (arith, v.names_len, v.inums_len, lt)) (rw same before) copied h
SlotIn-first e inum name v free copied (full {es = es} {es' = es'} d0 u v0 on0 p none_free rest) h =
    let (missing, skipped) =
      full_skip d0.inums d0.names (c_str name) es es' (find_slot-none d0.inums 0 none_free) h in
    skipped ∙ SlotIn-first e inum name v free copied rest missing

drop_head {ℓ} :
    {A : Type ℓ} (xs : List A) (b : ℕ) (d : A) {x : A} {ys : List A}
    → drop b xs ≡ x ∷ ys
    → get_or xs b d ≡ x
drop_head [] zero d h = cc
drop_head [] (suc b) d h = cc
drop_head (x ∷ xs) zero d h = cc
drop_head (x ∷ xs) (suc b) d h = drop_head xs b d h

drop_tail {ℓ} :
    {A : Type ℓ} (xs : List A) (b : ℕ) {x : A} {ys : List A}
    → drop b xs ≡ x ∷ ys
    → drop (suc b) xs ≡ ys
drop_tail [] zero h = cc
drop_tail [] (suc b) h = cc
drop_tail (x ∷ xs) zero h = cc
drop_tail (x ∷ xs) (suc b) h = drop_tail xs b h

drop_next {ℓ} :
    {A : Type ℓ} (xs : List A) (b : ℕ) {x : A} {ys : List A}
    → drop b xs ≡ x ∷ ys
    → drop (b + 1) xs ≡ ys
drop_next xs b h = let e : b + 1 ≡ suc b = omega arith in rw e (drop_tail xs b h)

open_block_used :
    (b : ℕ) (inum : Word) (names : List (List Byte)) (n : Inode) (t : Lfs)
    → get_or n.dp_used b 0 ≡ 1
    → open_block b inum names n t ≡ (n, t)
unfolding open_block
open_block_used b inum names n t h = rw h

-- One round of the loop, at a pointer in use.
module _ (l : CreatLocals) (p type inum : Word) (name : List Byte) (n : Inode) (k b : ℕ)
    (raw : List Byte) (t : Lfs) (at : Word) (d : Directory)
    (opened : open_block b inum l.names n t ≡ (n, t)) (points : get_or n.dpointers b 0 ≡ at)
    (decoded : decode_dir (fetch 4096 raw (seek_block at t)).0 ≡ d) where
  round_slot :
      {e : ℕ}
      → find_slot d.inums 0 ≡ some e
      → creat_blocks l p type inum name (suc k) b n raw t
        ≡ make_inode inum p type l.names
            (write_entry n l.behind_parent p at d e inum name (fetch 4096 raw (seek_block at t)).1)
  unfolding creat_blocks
  round_slot free = rw (opened, creat_blocks, points, decoded, free) (rw (opened, points, decoded))

  round_full :
      find_slot d.inums 0 ≡ none
      → creat_blocks l p type inum name (suc k) b n raw t
        ≡ creat_blocks l p type inum name k
            (b + 1)
            n
            (fetch 4096 raw (seek_block at t)).0
            (fetch 4096 raw (seek_block at t)).1
  unfolding creat_blocks
  round_full packed = rw (opened, creat_blocks, points, decoded, packed) (rw (opened, points))

-- The loop passes over the full blocks, and makes the inode once the entry is written in its slot.
pub creat_blocks-SlotIn :
    {s : Lfs} {P : Word → Type 0} {at : Word} {d d' : Directory} (l : CreatLocals)
    (p type inum : Word) (name : List Byte) (n : Inode) (e : ℕ) (k b : ℕ) (raw : List Byte)
    (t : Lfs) {us bs : List Word} {es es' : List Entry}
    → IsDirectory d
    → BlockOn s at (encode_dir d)
    → find_slot d.inums 0 ≡ some e
    → SameImage s t
    → length us ≤ k
    → drop b n.dp_used ≡ us
    → drop b n.dpointers ≡ bs
    → SlotIn s P at d d' us bs es es'
    → (t' : Lfs) × (creat_blocks l p type inum name k b n raw t
        ≡ make_inode inum p type l.names (write_entry n l.behind_parent p at d e inum name t'))
      × SameImage s t'
unfolding creat_blocks
creat_blocks-SlotIn l p type inum name n e zero b raw t v on free same k du db
      (here u eq rest busy) =
    absurd (omega arith)
creat_blocks-SlotIn l p type inum name n e zero b raw t v on free same k du db
      (full d0 u v0 on0 q nf rest) =
    absurd (omega arith)
creat_blocks-SlotIn {s = s} {at = at} {d = d} l p type inum name n e (suc k) b raw t v on free same
      len du db (here u eq rest busy) =
    (
      t1,
      round_slot l p type inum name n k b raw t at d
          (open_block_used b inum l.names n t (drop_head n.dp_used b 0 du ∙ u))
          (drop_head n.dpointers b 0 db ∙ eq) decoded free,
      same1,
    )
  where
    t1 : Lfs
    t1 = (fetch 4096 raw (seek_block at t)).1

    same1 : SameImage s t1
    same1 =
        SameImage-trans same
          (SameImage-trans (seek_block-SameImage at t) (fetch-SameImage 4096 raw _))

    decoded : decode_dir (fetch 4096 raw (seek_block at t)).0 ≡ d
    decoded =
        ap decode_dir (fetch-BlockOn raw (BlockOn-SameImage same on)) ∙ decode_dir-encode_dir d v
creat_blocks-SlotIn {s = s} {d = d} l p type inum name n e (suc k) b raw t v on free same len du db
      (full {b = b0} d0 u v0 on0 q nf rest) =
    rw
      (round_full l p type inum name n k b raw t b0 d0
        (open_block_used b inum l.names n t (drop_head n.dp_used b 0 du ∙ u))
        (drop_head n.dpointers b 0 db) decoded nf)
      (creat_blocks-SlotIn l p type inum name n e k (b + 1) (fetch 4096 raw (seek_block b0 t)).0 t1
        v on free same1 (omega arith) (drop_next n.dp_used b du) (drop_next n.dpointers b db) rest)
  where
    t1 : Lfs
    t1 = (fetch 4096 raw (seek_block b0 t)).1

    same1 : SameImage s t1
    same1 =
        SameImage-trans same
          (SameImage-trans (seek_block-SameImage b0 t) (fetch-SameImage 4096 raw _))

    decoded : decode_dir (fetch 4096 raw (seek_block b0 t)).0 ≡ d0
    decoded =
        ap decode_dir (fetch-BlockOn raw (BlockOn-SameImage same on0)) ∙ decode_dir-encode_dir d0 v0

-- ===== src/Lfs/Creat/Refuse.antt =====
-- The calls of creat_server (linux/lfs.c) that create nothing.
use p.Prelude.{
  ℕ, zero, suc, ◌+◌, ◌≤◌, ◌<◌, ◌≡◌, ◌≢◌, refl, ◌⊎◌, inl, inr, false, none, some, List, ◌==◌,
  if◌then◌else◌, Bool-cases, ℕ_discrete, arith,
}
use p.Word.{Word, Byte, minus_one}
use p.CString.{c_str}
use p.Struct.{Inode}
use p.Lfs.State.{Lfs, find_inode}
use p.Lfs.State.Inodes.{
  SameImage, SameImage-trans, find_inode-SameImage, InodeOn, find_inode-rc, find_inode-node,
  InodeOn-SameImage,
}
use p.Lfs.Lookup.{lookup_server}
use p.Lfs.Lookup.Entries.{
  Entry, first_match, or_minus_one, Listing, lookup_server-first_match, Listing-SameImage,
}
use p.Lfs.Creat.{find_free, CreatLocals, creat_server}

-- The inode that the search finds is the first unused one of the map.
pub find_free-first :
    (imap : Word → Word) (k i : ℕ) {r : Word}
    → find_free imap k i ≡ some r
    → (i ≤ r) × (r < i + k) × (imap r ≡ minus_one) × ((j : ℕ) → i ≤ j → j < r → imap j ≢ minus_one)
unfolding find_free
find_free-first imap zero i h = cc
find_free-first imap (suc k) i {r} h = elim (Bool-cases (imap i == minus_one)) [
  | inl free ↦
      let e : i ≡ r = ground arith in
      (omega arith, omega arith, ground arith, λ j lo hi. absurd (omega arith))
  | inr taken ↦
      let later : find_free imap k (i + 1) ≡ some r = ground arith in
      let (lo, hi, unused, before) = find_free-first imap k (i + 1) later in
      (omega (arith, lo), omega (arith, hi), unused, λ j a b. skip taken j a (before j) b)
]
  where
    skip :
        (imap i == minus_one) ≡ false
        → (j : ℕ) → i ≤ j
        → (i + 1 ≤ j → j < r → imap j ≢ minus_one)
        → j < r
        → imap j ≢ minus_one
    skip taken j a before b = elim (ℕ_discrete i j) [
      | yes e ↦ rw (← e) (ground arith)
      | no ne ↦ before (omega arith) b
    ]

pub find_free-none :
    (imap : Word → Word) (k i : ℕ)
    → ((j : ℕ) → i ≤ j → j < i + k → imap j ≢ minus_one)
    → find_free imap k i ≡ none
unfolding find_free
find_free-none imap zero i h = refl
find_free-none imap (suc k) i h = ground (
  arith,
  h i (omega arith) (omega arith),
  find_free-none imap k (i + 1) (λ j lo hi. h j (omega arith) (omega arith)),
)

module _ {s : Lfs} {p : Word} {n : Inode} (on : InodeOn s p n) (l : CreatLocals) (type : Word)
    (name : List Byte) where
  -- creat_server in a directory that holds the name returns 0; in a directory without it, when no
  -- number below 4096 is unused, it returns -1. The image stays as it was in both cases.
  creat_server-unchanged :
      {es : List Entry}
      → n.type ≡ 0
      → Listing s n.dp_used n.dpointers es
      → (or_minus_one (first_match es (c_str name)) ≢ minus_one)
        ⊎ ((j : ℕ) → j < 4096 → s.imap j ≢ minus_one)
      → ((creat_server l p type name s).0
          ≡ (if or_minus_one (first_match es (c_str name)) == minus_one then minus_one else 0))
        × SameImage s (creat_server l p type name s).1
  unfolding creat_server
  creat_server-unchanged {es} dir listing h =
      elim (ℕ_discrete (or_minus_one (first_match es (c_str name))) minus_one) [
        | no ne ↦
            let found : (or_minus_one (first_match es (c_str name)) == minus_one) ≡ false =
              ground arith in
            rw (find_inode-rc on l.parent, find_inode-node on l.parent, dir, looked.0, found)
              (refl, SameImage-trans same looked.1)
        | yes e ↦
            let none_free : find_free s2.imap 4096 0 ≡ none =
              find_free-none s2.imap 4096 0
                (λ j lo hi. rw (looked.1.imap, same.imap) (all e j hi)) in
            rw (find_inode-rc on l.parent, find_inode-node on l.parent, dir, looked.0, e, none_free)
              (refl, SameImage-trans same looked.1)
      ]
    where
      s1 : Lfs
      s1 = (find_inode p l.parent s).2

      same : SameImage s s1
      same = find_inode-SameImage p l.parent s

      s2 : Lfs
      s2 = (lookup_server p name l.lookup_node l.lookup_direct s1).1

      looked :
          ((lookup_server p name l.lookup_node l.lookup_direct s1).0
            ≡ or_minus_one (first_match es (c_str name)))
          × SameImage s1 s2
      looked =
          lookup_server-first_match name l.lookup_node l.lookup_direct (InodeOn-SameImage same on)
            (Listing-SameImage same listing)

      all :
          or_minus_one (first_match es (c_str name)) ≡ minus_one
          → (j : ℕ) → j < 4096
          → s.imap j ≢ minus_one
      all e = elim h [ inl ne ↦ absurd (ne e) | inr full ↦ full ]

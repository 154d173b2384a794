-- ===== src/Xv6/Fs/Icache.antt =====
-- The inode cache of xv6/kernel/fs.c: iget, idup, ilock, iunlock, iput, iunlockput and ialloc. A pointer
-- to a struct inode is its index in icache.inode.
pub mod Unique
use p.Prelude.{
  ℕ, zero, suc, ◌+◌, ◌-◌, ◌*◌, ◌%◌, Bool, true, false, ◌&&◌, ◌||◌, not, Option, none, some, List,
  [], ◌∷◌, ◌++◌, ltb, ◌==◌, if◌then◌else◌, get_or, set, replicate,
}
use p.Word.{Word}
use p.Disk.{splice}
use p.Xv6.Outcome.{
  Outcome, done, panics, hangs, Action, pure, panic, hang, gets, modify, ◌>>=◌, ◌>>◌,
}
use p.Xv6.Fs.{Drives, Dinode, bread, bwrite, readsb, iblock, ipb, short_bytes, dinode_at}
use p.Xv6.Fs.File.{iupdate, itrunc}

-- `busy` and `valid` are the flags, `copy` the fields that the disk has too.
pub record IncoreInode : Type 0 where
  pub dev : Word
  pub inum : Word
  pub ref : ℕ
  pub busy : Bool
  pub valid : Bool
  pub copy : Dinode

pub record Fs : Type 0 where
  pub drives : Drives
  pub icache : List IncoreInode

-- What an index outside the table reads; no code uses one.
abbrev pub no_inode : IncoreInode
no_inode = record {
  dev = 0;
  inum = 0;
  ref = 0;
  busy = false;
  valid = false;
  copy = record { type = 0; major = 0; minor = 0; nlink = 0; size = 0; addrs = [] };
}

abbrev pub inode_of : Fs → ℕ → IncoreInode
inode_of s i = get_or s.icache i no_inode

abbrev pub deref : ℕ → Action Fs IncoreInode
deref i = gets λ s. inode_of s i

abbrev pub assign : ℕ → IncoreInode → Action Fs (Unit {0})
assign i ip = modify λ (s : Fs). record s { icache = set s.icache i ip }

-- Code that touches the disk alone.
abbrev pub on_drives : {A : Type 0} → Action Drives A → Action Fs A
on_drives m s = elim (m s.drives) [
  | done (a, d) ↦ done (a, record s { drives = d })
  | panics ↦ panics
  | hangs ↦ hangs
]

-- The loop of iget: the index of a cached inode, or the empty slot that it remembers.
pub data Scan : Type 0 where
  cached : ℕ → Scan
  fresh : Option ℕ → Scan

-- `empty` is set once, at the first slot with no reference.
abbrev pub remember : Option ℕ → ℕ → Bool → Option ℕ
remember (some e) i free = some e
remember none i free = if free then some i else none

unfoldable pub scan : Word → Word → List IncoreInode → ℕ → Option ℕ → Scan
scan dev inum [] i empty = fresh empty
scan dev inum (ip ∷ ips) i empty =
    let rest = scan dev inum ips (i + 1) (remember empty i (ip.ref == 0)) in
    if ltb 0 ip.ref && (ip.dev == dev && ip.inum == inum) then cached i else rest

unfoldable pub iget : Word → Word → Action Fs ℕ
iget dev inum s = elim (scan dev inum s.icache 0 none) [
  | cached i ↦ (do ip ← deref i; assign i (record ip { ref = ip.ref + 1 }); pure i) s
  | fresh none ↦ panics
  | fresh (some i) ↦
      (do
        ip ← deref i
        assign i (record ip { dev = dev; inum = inum; ref = 1; busy = false; valid = false })
        pure i)
        s
]

unfoldable pub idup : ℕ → Action Fs ℕ
idup i = do ip ← deref i; assign i (record ip { ref = ip.ref + 1 }); pure i

-- A busy inode is waited for.
unfoldable pub ilock : ℕ → Action Fs (Unit {0})
ilock i = do
  ip ← deref i
  elim (ip.ref == 0) [
    | true ↦ panic
    | false ↦ elim ip.busy [
      | true ↦ hang
      | false ↦ elim ip.valid [
        | true ↦ assign i (record ip { busy = true })
        | false ↦ do
          bytes ← on_drives (bread ip.dev (iblock ip.inum))
          let n = dinode_at bytes (ip.inum % ipb * 64)
          assign i (record ip { busy = true; valid = true; copy = n })
          elim (n.type == 0) [ true ↦ panic | false ↦ pure tt ]
      ]
    ]
  ]

unfoldable pub iunlock : ℕ → Action Fs (Unit {0})
iunlock i = do
  ip ← deref i
  elim (not ip.busy || ip.ref == 0) [ true ↦ panic | false ↦ assign i (record ip { busy = false }) ]

-- ip->ref--, for a caller that holds a reference.
unfoldable pub drop_ref : ℕ → Action Fs (Unit {0})
drop_ref i = do ip ← deref i; assign i (record ip { ref = ip.ref - 1 })

unfoldable pub iput : ℕ → Action Fs (Unit {0})
iput i = do
  ip ← deref i
  elim (ip.ref == 1 && (ip.valid && ip.copy.nlink == 0)) [
    | false ↦ drop_ref i
    | true ↦ elim ip.busy [
      | true ↦ panic
      | false ↦ do
        n ← on_drives (itrunc ip.dev ip.inum ip.copy)
        let n' : Dinode = record n { type = 0 }
        on_drives (iupdate ip.dev ip.inum n')
        assign i (record ip { busy = false; valid = false; copy = n' })
        drop_ref i
    ]
  ]

unfoldable pub iunlockput : ℕ → Action Fs (Unit {0})
iunlockput i = do iunlock i; iput i

-- The loop of ialloc over the inodes on the disk, `k` of them from `inum` on.
unfoldable pub ialloc_from : ℕ → Word → Word → Word → Action Fs ℕ
ialloc_from zero dev type inum = panic
ialloc_from (suc k) dev type inum = do
  bytes ← on_drives (bread dev (iblock inum))
  elim ((dinode_at bytes (inum % ipb * 64)).type == 0) [
    | true ↦ do
      on_drives (
          bwrite dev (iblock inum)
            (splice bytes (inum % ipb * 64) (short_bytes type ++ replicate 62 0)))
      iget dev inum
    | false ↦ ialloc_from k dev type (inum + 1)
  ]

unfoldable pub ialloc : Word → Word → Action Fs ℕ
ialloc dev type = do sb ← on_drives (readsb dev); ialloc_from (sb.ninodes - 1) dev type 1

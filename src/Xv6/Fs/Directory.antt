-- ===== src/Xv6/Fs/Directory.antt =====
-- Directories of xv6/kernel/fs.c: namecmp, dirlookup and dirlink. A directory entry is a number of two
-- bytes and a name of 14.
use p.Prelude.{
  ℕ, zero, suc, ◌+◌, ◌*◌, ◌/◌, Bool, true, false, Option, none, some, List, ◌++◌, ltb, ◌==◌,
  if◌then◌else◌, get_or, take, drop, replicate,
}
use p.Word.{Word, Byte, minus_one}
use p.CString.{c_str}
use p.Disk.{bytes_at}
use p.Xv6.Outcome.{Action, pure, panic, hang, ◌>>=◌, ◌>>◌}
use p.Xv6.Fs.{Block, bread, bsize, t_dir, short_at, short_bytes}
use p.Xv6.Fs.File.{Devices, bmap, readi, writei}
use p.Xv6.Fs.Icache.{Fs, deref, assign, on_drives, iget, iput}

abbrev pub dirsiz : ℕ
dirsiz = 14

-- strncmp(s, t, k) == 0; a list that ends stands for a NUL.
unfoldable pub same_name : ℕ → List Byte → List Byte → Bool
same_name zero s t = true
same_name (suc k) s t =
    let rest = same_name k (drop 1 s) (drop 1 t) in
    if get_or s 0 0 == 0
    then get_or t 0 0 == 0
    else if get_or s 0 0 == get_or t 0 0
    then rest
    else false

-- namecmp(s, t) == 0
unfoldable pub namecmp : List Byte → List Byte → Bool
namecmp s t = same_name dirsiz s t

-- The loop over the entries of a block, k of them from byte o on: the number and its place.
unfoldable pub find_entry : Block → List Byte → ℕ → ℕ → Option (Word × ℕ)
find_entry bytes name zero o = none
find_entry bytes name (suc k) o =
    let rest = find_entry bytes name k (o + 16) in
    if short_at bytes o == 0
    then rest
    else if namecmp name (bytes_at bytes (o + 2) dirsiz)
    then some (short_at bytes o, o)
    else rest

-- The loop over the blocks of the directory; each round of it advances by a block.
unfoldable pub dirlookup_from : ℕ → ℕ → List Byte → ℕ → Action Fs (Option (ℕ × ℕ))
dirlookup_from zero i name off = hang
dirlookup_from (suc fuel) i name off = do
  dp ← deref i
  elim (ltb off dp.copy.size) [
    | false ↦ pure none
    | true ↦ do
      (addr, n) ← on_drives (bmap dp.dev dp.copy (off / bsize))
      assign i (record dp { copy = n })
      bytes ← on_drives (bread dp.dev addr)
      elim (find_entry bytes name 32 0) [
        | some (inum, o) ↦ do found ← iget dp.dev inum; pure (some (found, off + o))
        | none ↦ dirlookup_from fuel i name (off + bsize)
      ]
  ]

-- The inode found, and *poff.
unfoldable pub dirlookup : ℕ → List Byte → Action Fs (Option (ℕ × ℕ))
dirlookup i name = do
  dp ← deref i
  elim (dp.copy.type == t_dir) [
    | false ↦ panic
    | true ↦ dirlookup_from (dp.copy.size / bsize + 2) i name 0
  ]

module _ (devsw : Devices) where
  -- The offset of the first unused entry, or the end.
  unfoldable pub find_unused : ℕ → ℕ → ℕ → Action Fs ℕ
  find_unused zero i off = hang
  find_unused (suc fuel) i off = do
    dp ← deref i
    elim (ltb off dp.copy.size) [
      | false ↦ pure off
      | true ↦ do
        (rc, de, n) ← on_drives (readi devsw dp.dev dp.copy off 16)
        assign i (record dp { copy = n })
        elim (rc == 16) [
          | false ↦ panic
          | true ↦ elim (get_or de 0 0 + 256 * get_or de 1 0 == 0) [
            | true ↦ pure off
            | false ↦ find_unused fuel i (off + 16)
          ]
        ]
    ]

  unfoldable pub dirlink : ℕ → List Byte → Word → Action Fs Word
  dirlink i name inum = do
    present ← dirlookup i name
    elim present [
      | some (ip, poff) ↦ do iput ip; pure minus_one
      | none ↦ do
        dp ← deref i
        off ← find_unused (dp.copy.size / 16 + 2) i 0
        dp' ← deref i
        let de = short_bytes inum ++ take dirsiz (c_str name ++ replicate dirsiz 0)
        (rc, n) ← on_drives (writei devsw dp'.dev dp'.inum dp'.copy de off 16)
        assign i (record dp' { copy = n })
        elim (rc == 16) [ true ↦ pure 0 | false ↦ panic ]
    ]

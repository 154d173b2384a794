-- ===== src/Xv6/Sysfile/Inodes.antt =====
-- The parts of xv6/kernel/sysfile.c that work on inodes: sys_link, isdirempty, sys_unlink, create and the
-- look-up of sys_open and sys_chdir, after the arguments are read. `stack` is what the local array `name`
-- holds beforehand; nlink is a short.
use p.Prelude.{
  ℕ, zero, suc, ◌+◌, ◌*◌, ◌/◌, ◌%◌, Bool, true, false, ◌&&◌, ◌||◌, not, Option, none, some, List,
  [], ◌∷◌, ltb, leb, ◌==◌, get_or, replicate,
}
use p.Word.{Word, Byte, minus_one, is_neg}
use p.Xv6.Outcome.{Action, pure, panic, hang, ◌>>=◌, ◌>>◌}
use p.Xv6.Fs.{t_dir, t_checked}
use p.Xv6.Fs.File.{Devices, iupdate, readi, writei}
use p.Xv6.Fs.Icache.{
  Fs, IncoreInode, deref, assign, on_drives, ialloc, ilock, iunlock, iput, iunlockput,
}
use p.Xv6.Fs.Directory.{namecmp, dirlookup, dirlink}
use p.Xv6.Fs.Path.{namei, nameiparent}

abbrev pub t_file : Word
t_file = 2

-- omode & mask for a mask of one bit, given by its value.
abbrev pub and_bit : Word → ℕ → Word
and_bit omode mask = omode / mask % 2 * mask

abbrev pub o_create : ℕ
o_create = 0x200

abbrev pub o_checked : ℕ
o_checked = 0x400

abbrev pub dot : List Byte
dot = b'.' ∷ []

abbrev pub dot_dot : List Byte
dot_dot = b'.' ∷ b'.' ∷ []

-- ip->nlink = …; iupdate(ip);
unfoldable pub set_links : (Word → Word) → ℕ → Action Fs (Unit {0})
set_links f i = do
  ip ← deref i
  let ip' : IncoreInode = record ip { copy = record ip.copy { nlink = f ip.copy.nlink } }
  assign i ip'
  on_drives (iupdate ip'.dev ip'.inum ip'.copy)

abbrev pub increment : Word → Word
increment w = (w + 1) % 65536

abbrev pub decrement : Word → Word
decrement w = (w + 65535) % 65536

-- nlink < 1
abbrev pub no_links : Word → Bool
no_links w = w == 0 || leb 32768 w

module _ (devsw : Devices) (stack : List Byte) (cwd : ℕ) where
  -- The part of sys_link after `bad`.
  unfoldable pub undo_link : ℕ → Action Fs Word
  undo_link ip = do ilock ip; set_links decrement ip; iunlockput ip; pure minus_one

  unfoldable pub link_inodes : List Byte → List Byte → Action Fs Word
  link_inodes old new = do
    found ← namei cwd stack old
    elim found [
      | none ↦ pure minus_one
      | some i ↦ do
        ilock i
        ip ← deref i
        elim (ip.copy.type == t_dir) [
          | true ↦ do iunlockput i; pure minus_one
          | false ↦ do
            set_links increment i
            iunlock i
            (parent, name) ← nameiparent cwd new stack
            elim parent [
              | none ↦ undo_link i
              | some d ↦ do
                ilock d
                dp ← deref d
                linked ← elim (dp.dev == ip.dev) [
                  | false ↦ pure minus_one
                  | true ↦ dirlink devsw d name ip.inum
                ]
                elim (is_neg linked) [
                  | true ↦ do iunlockput d; undo_link i
                  | false ↦ do iunlockput d; iput i; pure 0
                ]
            ]
        ]
    ]

  -- The loop of isdirempty; each round of it advances by an entry.
  unfoldable pub empty_from : ℕ → ℕ → ℕ → Action Fs Bool
  empty_from zero i off = hang
  empty_from (suc fuel) i off = do
    dp ← deref i
    elim (ltb off dp.copy.size) [
      | false ↦ pure true
      | true ↦ do
        (rc, de, n) ← on_drives (readi devsw dp.dev dp.copy off 16)
        assign i (record dp { copy = n })
        elim (rc == 16) [
          | false ↦ panic
          | true ↦ elim (get_or de 0 0 + 256 * get_or de 1 0 == 0) [
            | false ↦ pure false
            | true ↦ empty_from fuel i (off + 16)
          ]
        ]
    ]

  unfoldable pub isdirempty : ℕ → Action Fs Bool
  isdirempty i = do dp ← deref i; empty_from (dp.copy.size / 16 + 2) i 32

  -- sys_unlink where the entry at `off` of directory d names inode i, both of them locked.
  unfoldable pub remove_entry : ℕ → ℕ → ℕ → Action Fs Word
  remove_entry d i off = do
    dp ← deref d
    (rc, n) ← on_drives (writei devsw dp.dev dp.inum dp.copy (replicate 16 0) off 16)
    assign d (record dp { copy = n })
    elim (rc == 16) [
      | false ↦ panic
      | true ↦ do
        ip ← deref i
        elim (ip.copy.type == t_dir) [ true ↦ set_links decrement d | false ↦ pure tt ]
        iunlockput d
        set_links decrement i
        iunlockput i
        pure 0
    ]

  unfoldable pub unlink_inode : List Byte → Action Fs Word
  unlink_inode path = do
    (parent, name) ← nameiparent cwd path stack
    elim parent [
      | none ↦ pure minus_one
      | some d ↦ do
        ilock d
        elim (namecmp name dot || namecmp name dot_dot) [
          | true ↦ do iunlockput d; pure minus_one
          | false ↦ do
            entry ← dirlookup d name
            elim entry [
              | none ↦ do iunlockput d; pure minus_one
              | some (i, off) ↦ do
                ilock i
                ip ← deref i
                elim (no_links ip.copy.nlink) [
                  | true ↦ panic
                  | false ↦ do
                    removable ← elim (ip.copy.type == t_dir) [
                      | true ↦ isdirempty i
                      | false ↦ pure true
                    ]
                    elim removable [
                      | false ↦ do iunlockput i; iunlockput d; pure minus_one
                      | true ↦ remove_entry d i off
                    ]
                ]
            ]
        ]
    ]

  -- create where the directory d, which is locked, has no entry of the name.
  unfoldable pub create_in : ℕ → List Byte → Word → Word → Word → Action Fs ℕ
  create_in d name type major minor = do
    dp ← deref d
    i ← ialloc dp.dev type
    ilock i
    ip ← deref i
    let made : IncoreInode = record ip {
      copy = record ip.copy { major = major; minor = minor; nlink = 1 };
    }
    assign i made
    on_drives (iupdate made.dev made.inum made.copy)
    elim (type == t_dir) [
      | false ↦ pure tt
      | true ↦ do
        set_links increment d
        rc ← dirlink devsw i dot made.inum
        elim (is_neg rc) [
          | true ↦ panic
          | false ↦ do
            rc' ← dirlink devsw i dot_dot dp.inum
            elim (is_neg rc') [ true ↦ panic | false ↦ pure tt ]
        ]
    ]
    rc ← dirlink devsw d name made.inum
    elim (is_neg rc) [ true ↦ panic | false ↦ do iunlockput d; pure i ]

  -- May create give a file that is there already?
  abbrev pub same_kind : Word → Word → Bool
  same_kind type there =
      type == t_file && there == t_file || type == t_checked && there == t_checked

  unfoldable pub create : List Byte → Word → Word → Word → Action Fs (Option ℕ)
  create path type major minor = do
    (parent, name) ← nameiparent cwd path stack
    elim parent [
      | none ↦ pure none
      | some d ↦ do
        ilock d
        entry ← dirlookup d name
        elim entry [
          | some (i, off) ↦ do
            iunlockput d
            ilock i
            ip ← deref i
            elim (same_kind type ip.copy.type) [
              | true ↦ pure (some i)
              | false ↦ do iunlockput i; pure none
            ]
          | none ↦ do i ← create_in d name type major minor; pure (some i)
        ]
    ]

  -- sys_open of a file that is there; `changes` is omode != O_RDONLY.
  unfoldable pub open_existing : List Byte → Bool → Action Fs (Option ℕ)
  open_existing path changes = do
    found ← namei cwd stack path
    elim found [
      | none ↦ pure none
      | some i ↦ do
        ilock i
        ip ← deref i
        elim (ip.copy.type == t_dir && changes) [
          | true ↦ do iunlockput i; pure none
          | false ↦ pure (some i)
        ]
    ]

  -- The locked inode that sys_open opens.
  unfoldable pub open_inode : List Byte → Word → Action Fs (Option ℕ)
  open_inode path omode = elim (and_bit omode o_create == 0) [
    | false ↦ create path t_file 0 0
    | true ↦ elim (and_bit (and_bit omode o_create) o_checked == 0) [
      | false ↦ create path t_checked 0 0
      | true ↦ open_existing path (not (omode == 0))
    ]
  ]

  -- The inode of the new directory.
  unfoldable pub chdir_inode : List Byte → Action Fs (Option ℕ)
  chdir_inode path = do
    found ← namei cwd stack path
    elim found [
      | none ↦ pure none
      | some i ↦ do
        ilock i
        ip ← deref i
        elim (ip.copy.type == t_dir) [
          | false ↦ do iunlockput i; pure none
          | true ↦ do iunlock i; iput cwd; pure (some i)
        ]
    ]

-- ===== src/Xv6/Ftable.antt =====
-- xv6/kernel/file.c. A pointer to a file is its index in ftable.file, one to a pipe its index in `pipes`.
-- ftable.lock makes filealloc, filedup and the first part of fileclose one step; the sleeps of a pipe are
-- those of Xv6/Pipe, and a file is not shared while fileread or filewrite sleeps.
pub mod References
use p.Prelude.{
  ℕ, zero, suc, ◌+◌, ◌-◌, Bool, true, false, ◌||◌, not, Option, none, some, List, [], ◌∷◌, ◌==◌,
  if◌then◌else◌, get_or, set, length,
}
use p.Word.{Word, Byte, minus_one, add32, is_neg}
use p.Xv6.Outcome.{
  Outcome, done, panics, hangs, Action, pure, panic, hang, gets, modify, ◌>>=◌, ◌>>◌,
}
use p.Xv6.Pipe.{Pipe, Sleep, piperead, pipewrite, pipeclose}
use p.Xv6.Fs.File.{Stat, Devices, stati, readi, writei}
use p.Xv6.Fs.Icache.{Fs, IncoreInode, deref, assign, on_drives, ilock, iunlock, iput}

pub data FileType : Type 0 where
  fd_none fd_pipe fd_inode : FileType

pub record File : Type 0 where
  pub type : FileType
  pub ref : ℕ
  pub readable : Bool
  pub writable : Bool
  pub pipe : ℕ
  pub ip : ℕ
  pub off : Word

pub record Files : Type 0 where
  pub table : List File
  pub pipes : ℕ → Pipe
  pub fs : Fs

abbrev pub free_file : File
free_file = record {
  type = fd_none;
  ref = 0;
  readable = false;
  writable = false;
  pipe = 0;
  ip = 0;
  off = 0;
}

abbrev pub file_of : ℕ → Action Files File
file_of i = gets λ s. get_or s.table i free_file

abbrev pub put_file : ℕ → File → Action Files (Unit {0})
put_file i f = modify λ (s : Files). record s { table = set s.table i f }

-- Code of fs.c.
abbrev pub on_fs : {A : Type 0} → Action Fs A → Action Files A
on_fs m s = elim (m s.fs) [
  | done (a, fs) ↦ done (a, record s { fs = fs })
  | panics ↦ panics
  | hangs ↦ hangs
]

abbrev pub set_pipe : ℕ → Pipe → Files → Files
set_pipe i q s = record s { pipes = λ j. if j == i then q else s.pipes j }

-- The loop of filealloc over the table from index i on.
unfoldable pub find_free_file : List File → ℕ → Option ℕ
find_free_file [] i = none
find_free_file (f ∷ fs) i =
    let rest = find_free_file fs (i + 1) in if f.ref == 0 then some i else rest

unfoldable pub filealloc : Action Files (Option ℕ)
filealloc s = elim (find_free_file s.table 0) [
  | none ↦ done (none, s)
  | some i ↦ (do f ← file_of i; put_file i (record f { ref = 1 }); pure (some i)) s
]

unfoldable pub filedup : ℕ → Action Files ℕ
filedup i = do
  f ← file_of i
  elim (f.ref == 0) [ true ↦ panic | false ↦ do put_file i (record f { ref = f.ref + 1 }); pure i ]

unfoldable pub fileclose : ℕ → Action Files (Unit {0})
fileclose i = do
  f ← file_of i
  elim (f.ref == 0) [
    | true ↦ panic
    | false ↦ elim (f.ref == 1) [
      | false ↦ put_file i (record f { ref = f.ref - 1 })
      | true ↦ do
        put_file i (record f { ref = 0; type = fd_none })
        elim f.type [
          | fd_pipe ↦
              modify λ (s : Files). set_pipe f.pipe (pipeclose f.writable (s.pipes f.pipe)) s
          | fd_inode ↦ on_fs (iput f.ip)
          | fd_none ↦ pure tt
        ]
    ]
  ]

-- The locked part of filestat.
unfoldable pub stat_inode : ℕ → Action Fs (Option Stat)
stat_inode i = do
  ilock i
  ip ← deref i
  st ← on_drives (stati ip.dev ip.inum ip.copy)
  iunlock i
  pure (some st)

-- -1 is `none`.
unfoldable pub filestat : ℕ → Action Files (Option Stat)
filestat i = do f ← file_of i; elim f.type [ fd_inode ↦ on_fs (stat_inode f.ip) | _ ↦ pure none ]

-- f->off after a result r: it grows where r > 0.
abbrev pub moved : File → Word → File
moved f r = if r == 0 || is_neg r then f else record f { off = add32 f.off r }

-- The bytes that a loop from 0 below the int n moves.
abbrev pub byte_count : Word → ℕ
byte_count n = if is_neg n then 0 else n

module _ (devsw : Devices) where
  -- The locked part of fileread and of filewrite for an inode.
  unfoldable pub read_inode : File → Word → Action Fs (Word × List Byte)
  read_inode f n = do
    ilock f.ip
    ip ← deref f.ip
    (r, bytes, copy) ← on_drives (readi devsw ip.dev ip.copy f.off n)
    assign f.ip (record ip { copy = copy })
    iunlock f.ip
    pure (r, bytes)

  unfoldable pub write_inode : File → List Byte → Word → Action Fs Word
  write_inode f addr n = do
    ilock f.ip
    ip ← deref f.ip
    (r, copy) ← on_drives (writei devsw ip.dev ip.inum ip.copy addr f.off n)
    assign f.ip (record ip { copy = copy })
    iunlock f.ip
    pure r

  -- The result and the bytes that go to addr. `sleeps` and `killed` are those of a pipe.
  unfoldable pub fileread : ℕ → Word → List Sleep → Bool → Action Files (Word × List Byte)
  fileread i n sleeps killed = do
    f ← file_of i
    elim f.readable [
      | false ↦ pure (minus_one, [])
      | true ↦ elim f.type [
        | fd_none ↦ panic
        | fd_pipe ↦ λ s. elim (piperead (byte_count n) sleeps killed (s.pipes f.pipe)) [
          | none ↦ hangs
          | some (r, bytes, q) ↦ done ((r, bytes), set_pipe f.pipe q s)
        ]
        | fd_inode ↦ do (r, bytes) ← on_fs (read_inode f n); put_file i (moved f r); pure (r, bytes)
      ]
    ]

  -- `addr` holds the bytes to write; pipewrite returns its n also where that is negative.
  unfoldable pub filewrite : ℕ → List Byte → Word → List Sleep → Bool → Action Files Word
  filewrite i addr n sleeps killed = do
    f ← file_of i
    elim f.writable [
      | false ↦ pure minus_one
      | true ↦ elim f.type [
        | fd_none ↦ panic
        | fd_pipe ↦ λ s. elim (pipewrite addr sleeps killed (s.pipes f.pipe)) [
          | none ↦ hangs
          | some (r, q) ↦ done ((if is_neg n then n else r), set_pipe f.pipe q s)
        ]
        | fd_inode ↦ do r ← on_fs (write_inode f addr n); put_file i (moved f r); pure r
      ]
    ]

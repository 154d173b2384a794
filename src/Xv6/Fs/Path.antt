-- ===== src/Xv6/Fs/Path.antt =====
-- Path names of xv6/kernel/fs.c: skipelem, namex, namei and nameiparent. A path is the list of its bytes
-- before the NUL; `name` is the array of 14 bytes that receives the last element.
pub mod Elements
use p.Prelude.{
  ℕ, zero, suc, ◌+◌, Bool, true, false, ◌&&◌, Option, none, some, List, [], ◌∷◌, ◌++◌, ltb, leb,
  not, ◌==◌, if◌then◌else◌, length, take, drop, get_or,
}
use p.Word.{Word, Byte}
use p.Xv6.Outcome.{Outcome, done, panics, hangs, Action, pure, panic, hang, ◌>>=◌, ◌>>◌}
use p.Xv6.Fs.{t_dir}
use p.Xv6.Fs.Icache.{Fs, deref, iget, idup, ilock, iunlock, iput, iunlockput}
use p.Xv6.Fs.Directory.{dirsiz, dirlookup}

-- while(*path == '/') path++;
unfoldable pub skip_slashes : List Byte → List Byte
skip_slashes [] = []
skip_slashes (c ∷ path) = let rest = skip_slashes path in if c == b'/' then rest else c ∷ path

-- The bytes before the next slash, and those from it on.
unfoldable pub element : List Byte → List Byte × List Byte
element [] = ([], [])
element (c ∷ path) =
    let (e, rest) = element path in
    let stop : List Byte × List Byte = ([], c ∷ path) in if c == b'/' then stop else (c ∷ e, rest)

-- What is left of the path, and the array `name` afterwards.
unfoldable pub skipelem : List Byte → List Byte → Option (List Byte × List Byte)
unfolding skip_slashes element
skipelem path name = elim (skip_slashes path) [
  | [] ↦ none
  | c ∷ cs ↦
      let (e, rest) = element (c ∷ cs) in
      some (
        skip_slashes rest,
        (if leb dirsiz (length e) then take dirsiz e else e ++ 0 ∷ drop (suc (length e)) name),
      )
]

-- The loop of namex; each round takes at least a byte off the path. The inode, and the array `name`.
unfoldable pub namex_from : ℕ → List Byte → Bool → List Byte → ℕ → Action Fs (Option ℕ × List Byte)
unfolding skipelem
namex_from zero path parent name i = hang
namex_from (suc fuel) path parent name i = elim (skipelem path name) [
  | none ↦ elim parent [ true ↦ do iput i; pure (none, name) | false ↦ pure (some i, name) ]
  | some (path', name') ↦ do
    ilock i
    ip ← deref i
    elim (ip.copy.type == t_dir) [
      | false ↦ do iunlockput i; pure (none, name')
      | true ↦ elim (parent && length path' == 0) [
        | true ↦ do iunlock i; pure (some i, name')
        | false ↦ do
          next ← dirlookup i name'
          elim next [
            | none ↦ do iunlockput i; pure (none, name')
            | some (j, poff) ↦ do iunlockput i; namex_from fuel path' parent name' j
          ]
      ]
    ]
]

-- `cwd` is proc->cwd; the root is inode 1 of device 1.
unfoldable pub namex : ℕ → List Byte → Bool → List Byte → Action Fs (Option ℕ × List Byte)
unfolding namex_from
namex cwd path parent name = do
  i ← elim (get_or path 0 0 == b'/') [ true ↦ iget 1 1 | false ↦ idup cwd ]
  namex_from (suc (length path)) path parent name i

-- `name` is what the local array holds beforehand.
unfoldable pub namei : ℕ → List Byte → List Byte → Action Fs (Option ℕ)
namei cwd name path = do (i, _) ← namex cwd path false name; pure i

unfoldable pub nameiparent : ℕ → List Byte → List Byte → Action Fs (Option ℕ × List Byte)
nameiparent cwd path name = namex cwd path true name

-- ===== src/Lfs/Lookup.antt =====
-- lookup_server and stat_server of linux/lfs.c.
pub mod Entries
pub mod Missing
use p.Prelude.{true, false, Option, none, some, List, ◌∷◌, ◌==◌, if◌then◌else◌}
use p.Word.{Word, Byte, minus_one}
use p.CString.{str_eq}
use p.Struct.{blocksize, Stat, decode_inode, decode_dir}
use p.Lfs.State.{Lfs, seek_block, fetch, find_inode}

-- The loop over the 128 entries of one block: the inode number of the first name that matches.
unfoldable pub find_name : List Word → List (List Byte) → List Byte → Option Word
find_name (i ∷ inums) (s ∷ names) name =
    if str_eq s name then some i else find_name inums names name
find_name _ _ name = none

-- The loop over the direct pointers; `direct` holds the local directory's bytes.
unfoldable pub lookup_blocks : List Word → List Word → List Byte → List Byte → Lfs → Word × Lfs
unfolding find_name
lookup_blocks (u ∷ used) (b ∷ pointers) name direct s = elim (u == 1) [
  | true ↦
      let (direct', s') = fetch blocksize direct (seek_block b s) in
      let d = decode_dir direct' in
      elim (find_name d.inums d.names name) [
        | some i ↦ (i, s')
        | none ↦ lookup_blocks used pointers name direct' s'
      ]
  | false ↦ lookup_blocks used pointers name direct s
]
lookup_blocks _ _ name direct s = (minus_one, s)

-- `node` and `direct` are what the inode and directory buffers hold beforehand.
unfoldable pub lookup_server : Word → List Byte → List Byte → List Byte → Lfs → Word × Lfs
unfolding lookup_blocks
lookup_server pinum name node direct s =
    let (rc, node', s') = find_inode pinum node s in
    if rc == 0
    then (let pinode = decode_inode node' in
        lookup_blocks pinode.dp_used pinode.dpointers name direct s')
    else (minus_one, s')

-- The result, `*m` afterwards, and the state.
unfoldable pub stat_server : Word → Stat → List Byte → Lfs → Word × Stat × Lfs
stat_server inum m node s =
    let (rc, node', s') = find_inode inum node s in
    if rc == minus_one
    then (minus_one, m, s')
    else (let n = decode_inode node' in (0, record { type = n.type; size = n.size }, s'))

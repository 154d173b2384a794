-- ===== src/Tests/Fs.antt =====
-- xv6/kernel/fs.c at fixed inputs, and the theorems on it.
use p.Prelude.{
  ℕ, zero, suc, ◌%◌, ◌/◌, ◌<◌, ◌≡◌, refl, true, ◌&&◌, none, some, List, [], ◌∷◌, ◌==◌,
  if◌then◌else◌, length, replicate, get_or, arith,
}
use p.Word.{Byte, minus_one}
use p.Disk.{bytes_at}
use p.Xv6.Outcome.{done}
use p.Xv6.Fs.{Drives, Dinode, super_block}
use p.Xv6.Fs.Alloc.{balloc}
use p.Xv6.Fs.Alloc.Bitmap.{Allocates, balloc-Allocates}
use p.Xv6.Fs.File.{Devices, checksum_of, block_checksum, readi, writei}
use p.Xv6.Fs.File.Checked.{InBlock, block_at, readi-InBlock}
use p.Xv6.Fs.File.Stored.{readi-writei}
use p.Xv6.Fs.Icache.{Fs, no_inode, iget}
use p.Xv6.Fs.Icache.Unique.{Refers, IsUnique, Gets, iget-Gets}
use p.Xv6.Fs.Directory.{namecmp, same_name}
use p.Xv6.Fs.Path.{skipelem}
use p.Xv6.Fs.Path.Elements.{Removes, skipelem-Removes}

abbrev no_name : List Byte
no_name = replicate 14 0

-- skipelem("///a//bb", name) = "bb", setting name = "a"
skipelem_runs :
    skipelem (b'/' ∷ b'/' ∷ b'/' ∷ b'a' ∷ b'/' ∷ b'/' ∷ b'b' ∷ b'b' ∷ []) no_name
    ≡ some (b'b' ∷ b'b' ∷ [], b'a' ∷ replicate 13 0)
unfolding skipelem
skipelem_runs = refl

-- skipelem("////", name) = 0
skipelem_ends : skipelem (b'/' ∷ b'/' ∷ []) no_name ≡ none
unfolding skipelem
skipelem_ends = refl

namecmp_runs : namecmp (b'a' ∷ []) (b'a' ∷ 0 ∷ b'x' ∷ []) ≡ true
unfolding namecmp same_name
namecmp_runs = refl

skipelem-Removes_example :
    Removes (b'a' ∷ b'/' ∷ b'b' ∷ []) (skipelem (b'a' ∷ b'/' ∷ b'b' ∷ []) no_name)
skipelem-Removes_example =
    skipelem-Removes (b'a' ∷ b'/' ∷ b'b' ∷ []) no_name refl
      (omega arith, (omega arith, (omega arith, tt)))

-- A disk of 100 blocks and 8 inodes, zero but for its super block.
abbrev small_disk : Drives
small_disk v s a = if s == 1 && a == 0 then 100 else if s == 1 && a == 8 then 8 else 0

small_disk_bytes : (s a : ℕ) → small_disk 1 s a < 256
small_disk_bytes s a = ground arith

balloc-Allocates_example :
    Allocates 1
      (super_block small_disk 1).size
      (super_block small_disk 1).ninodes
      small_disk
      (balloc 1 small_disk)
balloc-Allocates_example = balloc-Allocates 1 small_disk small_disk_bytes

-- A checked file of 100 bytes in block 9, whose checksum is said to be 7.
abbrev checked_file : Dinode
checked_file = record {
  type = 4;
  major = 0;
  minor = 0;
  nlink = 1;
  size = 100;
  addrs = 117440521 ∷ replicate 12 0;
}

abbrev devices : Devices
devices = record { read = λ _. none; write = λ _. none }

checked_file-InBlock : InBlock checked_file 3 10
checked_file-InBlock = record {
  checked = refl;
  direct = omega arith;
  present = omega arith;
  some_bytes = omega arith;
  inside = omega arith;
}

readi-InBlock_example :
    readi devices 1 checked_file 3 10 small_disk
    ≡ done (
      (
        if checksum_of (get_or checked_file.addrs (3 / 512) 0)
              == block_checksum (small_disk 1 (block_at checked_file 3))
            then 10
            else minus_one,
        bytes_at (small_disk 1 (block_at checked_file 3)) (3 % 512) 10,
        checked_file,
      ),
      small_disk,
    )
readi-InBlock_example =
    readi-InBlock checked_file-InBlock 1 small_disk devices (omega arith) (omega arith)

abbrev three_bytes : List Byte
three_bytes = 5 ∷ 6 ∷ 7 ∷ []

three_bytes-InBlock : InBlock checked_file 98 (length three_bytes)
three_bytes-InBlock = record {
  checked = refl;
  direct = omega arith;
  present = omega arith;
  some_bytes = omega arith;
  inside = omega arith;
}

readi-writei_example :
    (m : Dinode) × (t : Drives) × (writei devices 1 7 checked_file three_bytes 98
        (length three_bytes)
        small_disk
      ≡ done ((length three_bytes, m), t))
    × (readi devices 1 m 98 (length three_bytes) t ≡ done ((length three_bytes, three_bytes, m), t))
readi-writei_example =
    readi-writei checked_file 98 three_bytes three_bytes-InBlock 1 7 small_disk devices
      (omega arith) (omega arith) refl (small_disk_bytes 9)
      (omega arith, (omega arith, (omega arith, tt))) (omega arith)

-- An empty cache.
abbrev empty_cache : Fs
empty_cache = record { drives = small_disk; icache = replicate 50 no_inode }

get_or-replicate : (n i : ℕ) → get_or (replicate n no_inode) i no_inode ≡ no_inode
get_or-replicate zero i = refl
get_or-replicate (suc n) zero = refl
get_or-replicate (suc n) (suc i) = get_or-replicate n i

empty_cache-IsUnique : IsUnique empty_cache.icache
empty_cache-IsUnique dev inum i j a b =
    let h : Refers dev inum no_inode = rw get_or-replicate at a in elim h.in_use [ ]

iget-Gets_example : Gets 1 2 empty_cache (iget 1 2 empty_cache)
iget-Gets_example = iget-Gets 1 2 empty_cache empty_cache-IsUnique

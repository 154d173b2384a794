-- ===== src/Lfs/Start/Root.antt =====
-- The root directory of a new image (start_server of linux/lfs.c).
use p.Prelude.{
  ℕ, ◌+◌, ◌*◌, ◌≤◌, ◌≡◌, refl, sym, ap, ◌∙◌, inl, inr, List, [], ◌∷◌, ◌++◌, length, if◌then◌else◌,
  All, length-map, arith,
}
use mathlib.Core.List as List
use p.Word.{Byte, IsWord, minus_one, word_bytes}
use p.CString.{c_str, strcpy, bytes_eq, length-strcpy, c_str-strcpy}
use p.Disk.{File, bytes_at}
use p.Disk.Regions.{bytes_at-splice_ne, bytes_at-splice_self}
use p.Struct.{Directory, IsInode, IsDirectory, IsName, encode_inode, encode_dir}
use p.Struct.Roundtrip.{length-encode_inode, length-encode_dir}
use p.Lfs.State.{Lfs, dot, dotdot, dne}
use p.Lfs.State.Inodes.{InodeOn, BlockOn}
use p.Lfs.State.Checkpoint.{update_cr-imap, update_cr-size, update_cr-content}
use p.Lfs.Lookup.{lookup_server}
use p.Lfs.Lookup.Entries.{
  entries, first_match, Listing, end, used, unused, or_minus_one, lookup_server-first_match,
}
use p.Lfs.Start.{root_node, base_block, create_image}
use p.Lfs.Start.Image.{image, before_cr, create_image_lem}

All-map {ℓ κ ν} :
    {A : Type ℓ} {B : Type κ} (P : B → Type ν) (f : A → B) (xs : List A)
    → ((x : A) → P (f x))
    → All P (List.map f xs)
All-map P f [] h = tt
All-map P f (x ∷ xs) h = (h x, All-map P f xs h)

strcpy-All :
    (src : List Byte) (ss : List (List Byte))
    → All IsName ss
    → All IsName (List.map (λ s. strcpy s src) ss)
strcpy-All src [] h = tt
strcpy-All src (s ∷ ss) h = (length-strcpy s src ∙ h.0, strcpy-All src ss h.1)

root_node-IsInode : IsInode (root_node 6)
root_node-IsInode = omega arith

-- `base_block` is an array of 128 names of 28 bytes.
module _ (a b : List Byte) (rest : List (List Byte)) (ha : IsName a) (hb : IsName b)
    (hr : All IsName rest) (len : length rest ≡ 126) (f : File) where
  abbrev names : List (List Byte)
  names = a ∷ b ∷ rest

  abbrev d : Directory
  d = base_block names

  abbrev made : Lfs
  made = create_image names f

  pub d-IsDirectory : IsDirectory d
  unfolding base_block
  d-IsDirectory = record {
    inums = (omega arith, (omega arith, All-map IsWord (λ _. minus_one) rest (λ _. omega arith)));
    names = (length-strcpy a dot ∙ ha, (length-strcpy b dotdot ∙ hb, strcpy-All dne rest hr));
    inums_len = omega (arith, length-map rest (λ (_ : List Byte). minus_one));
    names_len = omega (arith, length-map rest (λ s. strcpy s dne));
  }

  above : (q k : ℕ) → 24576 ≤ q → bytes_at made.file.content q k ≡ bytes_at (image names f) q k
  unfolding word_bytes
  above q k h =
      ap (λ (t : Lfs). bytes_at t.file.content q k) (create_image_lem names f)
      ∙ ap (λ c. bytes_at c q k) (update_cr-content 0 (before_cr names f) (omega arith))
      ∙ bytes_at-splice_ne _ 16384 _ q k (inr (omega arith))
      ∙ bytes_at-splice_ne _ (0 * 4) _ q k (inr (omega arith))

  length-node : length (encode_inode (root_node 6)) ≡ 124
  length-node = length-encode_inode (root_node 6) root_node-IsInode

  length-dir : length (encode_dir d) ≡ 4096
  length-dir = length-encode_dir d d-IsDirectory

  size : 28672 + 124 ≤ made.file.size
  size = rw create_image_lem (omega (arith, length-node, update_cr-size 0 (before_cr names f)))

  pub map : made.imap ≡ (before_cr names f).imap
  map = ap (λ (t : Lfs). t.imap) (create_image_lem names f) ∙ update_cr-imap 0 (before_cr names f)

  -- Inode 0 of a new image is a directory of one block.
  pub root-InodeOn : InodeOn made 0 (root_node 6)
  root-InodeOn = record {
    number = omega arith;
    block = rw map (omega arith);
    stored = rw map (
        above 28672 124 (omega arith)
        ∙ ap (bytes_at (image names f) 28672) (sym length-node)
        ∙ bytes_at-splice_self _ 28672 (encode_inode (root_node 6)));
    fields = root_node-IsInode;
    inside = rw map size;
  }

  pub root-BlockOn : BlockOn made 6 (encode_dir d)
  root-BlockOn = record {
    block = omega arith;
    stored =
        above 24576 4096 (omega arith)
        ∙ bytes_at-splice_ne _ 28672 _ 24576 4096 (inl (omega arith))
        ∙ ap (bytes_at _ 24576) (sym length-dir)
        ∙ bytes_at-splice_self _ 24576 (encode_dir d);
    inside = omega (arith, size);
  }

  pub root-Listing :
      Listing made (root_node 6).dp_used (root_node 6).dpointers (entries d.inums d.names ++ [])
  root-Listing = used d refl d-IsDirectory root-BlockOn (
      unused (omega arith) (
        unused (omega arith) (
          unused (omega arith) (
            unused (omega arith) (
              unused (omega arith) (
                unused (omega arith) (
                  unused (omega arith) (
                    unused (omega arith) (
                      unused (omega arith) (
                        unused (omega arith) (
                          unused (omega arith)
                            (unused (omega arith) (unused (omega arith) end)))))))))))))

  -- Of the unused entries none leads to an inode, whatever the name.
  blank :
      (ss : List (List Byte)) (name : List Byte)
      → or_minus_one (
          first_match
            (entries (List.map (λ _. minus_one) ss) (List.map (λ s. strcpy s dne) ss) ++ [])
            name)
        ≡ minus_one
  unfolding first_match entries
  blank [] name = refl
  blank (s ∷ ss) name = ground (arith, blank ss name)

  -- In a new image "." and ".." lead to the root, and every other name is missing.
  pub lookup_server-create_image :
      (name node direct : List Byte)
      → (lookup_server 0 name node direct made).0 ≡ (
          if bytes_eq (b'.' ∷ []) (c_str name)
          then 0
          else if bytes_eq (b'.' ∷ b'.' ∷ []) (c_str name)
          then 0
          else minus_one)
  lookup_server-create_image name node direct =
      (lookup_server-first_match name node direct root-InodeOn root-Listing).0 ∙ listed
    where
      dot_name : c_str (strcpy a dot) ≡ b'.' ∷ []
      dot_name = unfold c_str in c_str-strcpy a dot (rw ha (omega arith))

      dotdot_name : c_str (strcpy b dotdot) ≡ b'.' ∷ b'.' ∷ []
      dotdot_name = unfold c_str in c_str-strcpy b dotdot (rw hb (omega arith))

      listed : or_minus_one (first_match (entries d.inums d.names ++ []) (c_str name)) ≡ (
          if bytes_eq (b'.' ∷ []) (c_str name)
          then 0
          else if bytes_eq (b'.' ∷ b'.' ∷ []) (c_str name)
          then 0
          else minus_one)
      listed =
          unfold base_block entries first_match in
          rw (dot_name, dotdot_name) (ground (arith, blank rest (c_str name)))

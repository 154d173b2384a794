-- ===== src/Tests/Image.antt =====
-- Bytes and words of linux/lfs.h at fixed inputs, and the theorems on them.
use p.Prelude.{◌≡◌, refl, [], ◌∷◌}
use p.Word.{minus_one, word_bytes}
use p.CString.{c_str, strcpy}
use p.Struct.{Inode, encode_inode, decode_inode}

minus_one_bytes : word_bytes minus_one ≡ 255 ∷ 255 ∷ 255 ∷ 255 ∷ []
unfolding word_bytes
minus_one_bytes = refl

abbrev pub file_inode : Inode
file_inode = record {
  size = 8192;
  type = 1;
  inum = 3;
  dpointers =
      10 ∷ 11 ∷ minus_one ∷ minus_one ∷ minus_one ∷ minus_one ∷ minus_one ∷ minus_one ∷ minus_one
      ∷ minus_one ∷ minus_one ∷ minus_one ∷ minus_one ∷ minus_one ∷ [];
  dp_used = 1 ∷ 1 ∷ 0 ∷ 0 ∷ 0 ∷ 0 ∷ 0 ∷ 0 ∷ 0 ∷ 0 ∷ 0 ∷ 0 ∷ 0 ∷ 0 ∷ [];
}

inode_runs : decode_inode (encode_inode file_inode) ≡ file_inode
unfolding decode_inode encode_inode
inode_runs = refl

strcpy_runs : c_str (strcpy (1 ∷ 2 ∷ 3 ∷ 4 ∷ []) (b'h' ∷ b'i' ∷ 0 ∷ 9 ∷ [])) ≡ b'h' ∷ b'i' ∷ []
unfolding c_str strcpy
strcpy_runs = refl

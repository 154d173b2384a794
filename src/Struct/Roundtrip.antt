-- ===== src/Struct/Roundtrip.antt =====
-- What is written as an inode or a directory block (linux/lfs.h) reads back as it.
use p.Prelude.{
  ◌*◌, ◌≡◌, refl, sym, ap, ap₂, ◌∙◌, List, [], ◌∷◌, ◌++◌, append-nil, length, take, drop,
  length-append, take-append_length, drop-append_length, All, All-append, arith,
}
use p.Word.{Byte, IsWord, encode_words, decode_words, decode_words-encode_words}
use p.Word.{length-encode_words}
use p.Struct.{Inode, Directory, encode_inode, decode_inode, encode_names, decode_names}
use p.Struct.{encode_dir, decode_dir, IsInode, IsName, IsDirectory, inode_words, of_words}

inode_words-All : (n : Inode) → IsInode n → All IsWord (inode_words n)
inode_words-All n v = (v.size, (v.type, (v.inum, All-append IsWord _ _ v.pointers v.used)))

length-inode_words : (n : Inode) → IsInode n → length (inode_words n) ≡ 31
length-inode_words n v = omega (arith, length-append n.dpointers n.dp_used)

of_words-inode_words : (n : Inode) → IsInode n → of_words (inode_words n) ≡ n
of_words-inode_words n v = λ i. record {
  size = n.size;
  type = n.type;
  inum = n.inum;
  dpointers = take-append_length n.dpointers n.dp_used (sym v.pointers_len) i;
  dp_used = used i;
}
  where
    used : take 14 (drop 14 (n.dpointers ++ n.dp_used)) ≡ n.dp_used
    used =
        ap (take 14) (drop-append_length n.dpointers n.dp_used (sym v.pointers_len))
        ∙ ap (take 14) (sym (append-nil n.dp_used))
        ∙ take-append_length n.dp_used [] (sym v.used_len)

pub length-encode_inode : (n : Inode) → IsInode n → length (encode_inode n) ≡ 124
unfolding encode_inode
length-encode_inode n v =
    length-encode_words (inode_words n) ∙ ap (λ k. 4 * k) (length-inode_words n v)

-- An inode whose fields are words, with 14 pointers and 14 marks, is read back from its bytes, whatever
-- follows them in the block.
pub decode_inode-encode_inode :
    (n : Inode) (rest : List Byte) → IsInode n → decode_inode (encode_inode n ++ rest) ≡ n
unfolding decode_inode encode_inode
decode_inode-encode_inode n rest v =
    ap (λ k. of_words (decode_words k (encode_words (inode_words n) ++ rest)))
      (sym (length-inode_words n v))
    ∙ ap of_words (decode_words-encode_words (inode_words n) rest (inode_words-All n v))
    ∙ of_words-inode_words n v

decode_names-encode_names :
    (ss : List (List Byte)) → All IsName ss → decode_names (length ss) (encode_names ss) ≡ ss
unfolding decode_names encode_names
decode_names-encode_names [] h = refl
decode_names-encode_names (s ∷ ss) h = ap₂ ◌∷◌ (take-append_length s _ (sym h.0)) (
    ap (decode_names (length ss)) (drop-append_length s (encode_names ss) (sym h.0))
    ∙ decode_names-encode_names ss h.1)

length-encode_names :
    (ss : List (List Byte)) → All IsName ss → length (encode_names ss) ≡ 28 * length ss
unfolding encode_names
length-encode_names [] h = refl
length-encode_names (s ∷ ss) h =
    omega (arith, length-append s (encode_names ss), length-encode_names ss h.1)

pub length-encode_dir : (d : Directory) → IsDirectory d → length (encode_dir d) ≡ 4096
unfolding encode_dir
length-encode_dir d v = omega (
  arith,
  length-append (encode_words d.inums) (encode_names d.names),
  length-encode_words d.inums,
  length-encode_names d.names v.names,
)

pub decode_dir-encode_dir : (d : Directory) → IsDirectory d → decode_dir (encode_dir d) ≡ d
unfolding decode_dir encode_dir
decode_dir-encode_dir d v = λ i. record { inums = inums i; names = names i }
  where
    inums : decode_words 128 (encode_words d.inums ++ encode_names d.names) ≡ d.inums
    inums =
        ap (λ k. decode_words k (encode_words d.inums ++ encode_names d.names)) (sym v.inums_len)
        ∙ decode_words-encode_words d.inums (encode_names d.names) v.inums

    names : decode_names 128 (drop 512 (encode_words d.inums ++ encode_names d.names)) ≡ d.names
    names =
        ap (decode_names 128) (
          drop-append_length (encode_words d.inums) (encode_names d.names) {n = 512}
            (omega (arith, length-encode_words d.inums)))
        ∙ ap (λ k. decode_names k (encode_names d.names)) (sym v.names_len)
        ∙ decode_names-encode_names d.names v.names

-- ===== src/Lfs/Start/Words.antt =====
-- Arrays of words in the image: the inode map as start_server of linux/lfs.c writes and reads it.
use p.Prelude.{
  ℕ, zero, suc, ◌+◌, ◌-◌, ◌*◌, ◌<◌, ◌≡◌, refl, ap, ◌∙◌, List, [], ◌∷◌, ◌++◌, length, get_or, All,
  arith,
}
use p.Word.{Word, Byte, IsWord, word_bytes, encode_words, decode_words, bytes_word-word_bytes}
use p.Disk.{splice, bytes_at}
use p.Lfs.State.Checkpoint.{word_at}
use p.Lfs.Start.{imap_words}

pub length-imap_words : (m : Word → Word) (n i : ℕ) → length (imap_words m n i) ≡ n
unfolding imap_words
length-imap_words m zero i = refl
length-imap_words m (suc n) i = ap suc (length-imap_words m n (i + 1))

pub get_or-imap_words :
    (m : Word → Word) (n i j : ℕ) → j < n → get_or (imap_words m n i) j 0 ≡ m (i + j)
unfolding imap_words
get_or-imap_words m zero i j h = elim h [ ]
get_or-imap_words m (suc n) i zero h = ap m (omega arith)
get_or-imap_words m (suc n) i (suc j) h =
    get_or-imap_words m n (i + 1) j (omega arith) ∙ ap m (omega arith)

pub imap_words-All :
    (P : Word → Type 0) (m : Word → Word) (n i : ℕ) → ((j : ℕ) → P (m j)) → All P (imap_words m n i)
unfolding imap_words
imap_words-All P m zero i h = tt
imap_words-All P m (suc n) i h = (h i, imap_words-All P m n (i + 1) h)

-- Byte k of word j of an encoded array.
get_or-encode_words :
    (ws : List Word) (j k : ℕ)
    → k < 4
    → j < length ws
    → get_or (encode_words ws) (4 * j + k) 0 ≡ get_or (word_bytes (get_or ws j 0)) k 0
unfolding encode_words
get_or-encode_words [] j k h l = elim l [ ]
get_or-encode_words (w ∷ ws) zero k h l = let e : 4 * 0 + k ≡ k = omega arith in rw e (front k h)
  where
    front :
        (k : ℕ) → k < 4 → get_or (word_bytes w ++ encode_words ws) k 0 ≡ get_or (word_bytes w) k 0
    front zero h = refl
    front (suc zero) h = refl
    front (suc (suc zero)) h = refl
    front (suc (suc (suc zero))) h = refl
    front (suc (suc (suc (suc k)))) h = absurd (omega arith)
get_or-encode_words (w ∷ ws) (suc j) k h l =
    let e : 4 * suc j + k ≡ suc (suc (suc (suc (4 * j + k)))) = omega arith in
    rw e (get_or-encode_words ws j k h (omega arith))

pub word_at-splice_words :
    (c : ℕ → Byte) (p : ℕ) (ws : List Word) (j : ℕ)
    → All IsWord ws
    → j < length ws
    → length (encode_words ws) ≡ 4 * length ws
    → IsWord (get_or ws j 0)
    → word_at (splice c p (encode_words ws)) (p + 4 * j) ≡ get_or ws j 0
word_at-splice_words c p ws j all l len w =
    rw
      (
        byte 0 (p + 4 * j) (omega arith) (omega arith),
        byte 1 (p + 4 * j + 1) (omega arith) (omega arith),
        byte 2 (p + 4 * j + 2) (omega arith) (omega arith),
        byte 3 (p + 4 * j + 3) (omega arith) (omega arith),
      )
      (unfold word_bytes in bytes_word-word_bytes (get_or ws j 0) w)
  where
    inside :
        (k a : ℕ)
        → k < 4
        → a ≡ p + 4 * j + k
        → splice c p (encode_words ws) a ≡ get_or (encode_words ws) (a - p) 0
    inside k a h e = unfold splice in ground arith

    byte :
        (k a : ℕ)
        → k < 4
        → a ≡ p + 4 * j + k
        → splice c p (encode_words ws) a ≡ get_or (word_bytes (get_or ws j 0)) k 0
    byte k a h e =
        inside k a h e
        ∙ ap (λ i. get_or (encode_words ws) i 0) (let d : a - p ≡ 4 * j + k = omega arith in d)
        ∙ get_or-encode_words ws j k h l

-- The words read off a region.
pub decode_words-bytes_at :
    (c : ℕ → Byte) (n p j : ℕ)
    → j < n
    → get_or (decode_words n (bytes_at c p (4 * n))) j 0 ≡ word_at c (p + 4 * j)
unfolding decode_words bytes_at
decode_words-bytes_at c zero p j h = elim h [ ]
decode_words-bytes_at c (suc n) p zero h =
    let four : 4 * suc n ≡ suc (suc (suc (suc (4 * n)))) = omega arith in
    let start : p + 4 * 0 ≡ p = omega arith in
    let two : p + 1 + 1 ≡ p + 2 = omega arith in
    let three : p + 2 + 1 ≡ p + 3 = omega arith in rw (four, start, two, three)
decode_words-bytes_at c (suc n) p (suc j) h =
    let four : 4 * suc n ≡ suc (suc (suc (suc (4 * n)))) = omega arith in
    rw four
      (decode_words-bytes_at c n (p + 1 + 1 + 1 + 1) j (omega arith) ∙ ap (word_at c) (omega arith))

-- ===== src/Word.antt =====
-- Machine words: the `int` and `unsigned` values of the C code as bit patterns below 2 ^ 32, a
-- byte as a number below 256, and the little-endian bytes in which a word lies in memory.
use p.Prelude.{
  ℕ, zero, suc, ◌+◌, ◌*◌, ◌/◌, ◌%◌, ◌^◌, ◌<◌, ◌≡◌, refl, ap₂, Bool, List, [], ◌∷◌, ◌++◌, arith, leb,
  length, All, drop, get_or,
}

abbrev pub Word : Type 0
Word = ℕ

abbrev pub Byte : Type 0
Byte = ℕ

abbrev pub word_mod : ℕ
word_mod = 2 ^ 32

-- (int) -1
abbrev pub minus_one : Word
minus_one = 0xffff_ffff

-- w < 0, read as an int
abbrev pub is_neg : Word → Bool
is_neg w = leb 0x8000_0000 w

abbrev pub add32 : Word → Word → Word
add32 a b = (a + b) % word_mod

abbrev pub IsWord : Word → Type 0
IsWord w = w < word_mod

unfoldable pub word_bytes : Word → List Byte
word_bytes w = w % 256 ∷ w / 256 % 256 ∷ w / 65536 % 256 ∷ w / 16777216 % 256 ∷ []

unfoldable pub bytes_word : Byte → Byte → Byte → Byte → Word
bytes_word a b c d = a + 256 * b + 65536 * c + 16777216 * d

unfoldable pub encode_words : List Word → List Byte
unfolding word_bytes
encode_words [] = []
encode_words (w ∷ ws) = word_bytes w ++ encode_words ws

-- The first `n` words of a byte array; bytes past its end count as 0.
unfoldable pub decode_words : ℕ → List Byte → List Word
unfolding bytes_word
decode_words zero bs = []
decode_words (suc n) bs =
    bytes_word (get_or bs 0 0) (get_or bs 1 0) (get_or bs 2 0) (get_or bs 3 0)
    ∷ decode_words n (drop 4 bs)

pub bytes_word-word_bytes :
    (w : Word)
    → IsWord w
    → bytes_word (w % 256) (w / 256 % 256) (w / 65536 % 256) (w / 16777216 % 256) ≡ w
unfolding bytes_word
bytes_word-word_bytes w h = omega arith

pub decode_words-encode_words :
    (ws : List Word) (rest : List Byte)
    → All IsWord ws
    → decode_words (length ws) (encode_words ws ++ rest) ≡ ws
unfolding decode_words encode_words
decode_words-encode_words [] rest h = refl
decode_words-encode_words (w ∷ ws) rest h =
    ap₂ ◌∷◌ (bytes_word-word_bytes w h.0) (decode_words-encode_words ws rest h.1)

pub length-encode_words : (ws : List Word) → length (encode_words ws) ≡ 4 * length ws
unfolding encode_words
length-encode_words [] = refl
length-encode_words (w ∷ ws) = omega (arith, length-encode_words ws)

-- ===== src/CString.antt =====
-- C strings in byte arrays, as linux/lfs.c uses them: a string is the bytes before the first NUL.
-- `strcpy` writes the string and a NUL over the front of an array and keeps the array's size.
use p.Prelude.{
  ℕ, zero, suc, ◌<◌, ◌≡◌, refl, Bool, true, false, ◌&&◌, List, [], ◌∷◌, ◌++◌, ◌==◌, if◌then◌else◌,
  length, take, drop, length-take, length-drop, length-append, arith,
}
use p.Word.{Byte}

-- The bytes before the first NUL, or all of them.
unfoldable pub c_str : List Byte → List Byte
c_str [] = []
c_str (b ∷ bs) = if b == 0 then [] else b ∷ c_str bs

-- Are two byte lists equal?
unfoldable pub bytes_eq : List Byte → List Byte → Bool
bytes_eq [] [] = true
bytes_eq (x ∷ xs) (y ∷ ys) = x == y && bytes_eq xs ys
bytes_eq _ _ = false

-- strcmp(s, t) == 0
unfoldable pub str_eq : List Byte → List Byte → Bool
unfolding c_str bytes_eq
str_eq s t = bytes_eq (c_str s) (c_str t)

unfoldable pub strcpy : List Byte → List Byte → List Byte
unfolding c_str
strcpy dst src = let s = c_str src ++ (0 ∷ []) in take (length dst) (s ++ drop (length s) dst)

pub bytes_eq_refl : (xs : List Byte) → bytes_eq xs xs ≡ true
unfolding bytes_eq
bytes_eq_refl [] = refl
bytes_eq_refl (x ∷ xs) = ground (arith, bytes_eq_refl xs)

-- The test decides equality.
pub bytes_eq_sound : (xs ys : List Byte) → bytes_eq xs ys ≡ true → xs ≡ ys
unfolding bytes_eq
bytes_eq_sound [] [] h = refl
bytes_eq_sound [] (y ∷ ys) h = cc
bytes_eq_sound (x ∷ xs) [] h = cc
bytes_eq_sound (x ∷ xs) (y ∷ ys) h = ground (arith, bytes_eq_sound xs ys)

pub length-strcpy : (dst src : List Byte) → length (strcpy dst src) ≡ length dst
unfolding strcpy
length-strcpy dst src = omega (
  arith,
  length-take (length dst) (s ++ drop (length s) dst),
  length-append s (drop (length s) dst),
  length-drop (length s) dst,
)
  where
    s : List Byte
    s = c_str src ++ (0 ∷ [])

-- The string in front of a NUL, when at least its NUL is kept.
c_str-take :
    (src tail : List Byte) (n : ℕ)
    → length (c_str src) < n
    → c_str (take n ((c_str src ++ (0 ∷ [])) ++ tail)) ≡ c_str src
unfolding c_str
c_str-take src tail zero h = elim h [ ]
c_str-take [] tail (suc n) h = refl
c_str-take (b ∷ src) tail (suc n) h = ground (arith, c_str-take src tail n)

-- A string that fits is what the array holds afterwards.
pub c_str-strcpy :
    (dst src : List Byte) → length (c_str src) < length dst → c_str (strcpy dst src) ≡ c_str src
unfolding strcpy
c_str-strcpy dst src h = c_str-take src _ (length dst) h

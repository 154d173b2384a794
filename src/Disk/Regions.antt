-- ===== src/Disk/Regions.antt =====
-- What a write leaves alone, and that a region just written reads back (the image of linux/lfs.c).
use p.Prelude.{
  length-append, ◌++◌, ℕ, zero, suc, ◌+◌, ◌-◌, ◌≤◌, ◌<◌, ◌⊎◌, ◌≡◌, refl, ap, ap₂, ◌∙◌, List, [],
  ◌∷◌, min, sym, length, get_or, take-append_length, arith,
}
use p.Word.{Byte}
use p.Disk.{File, bytes_at, splice, read}

pub length-bytes_at : (c : ℕ → Byte) (p k : ℕ) → length (bytes_at c p k) ≡ k
unfolding bytes_at
length-bytes_at c p zero = refl
length-bytes_at c p (suc k) = ap suc (length-bytes_at c (p + 1) k)

pub splice_out :
    (c : ℕ → Byte) (p : ℕ) (xs : List Byte) (a : ℕ)
    → (a < p) ⊎ (p + length xs ≤ a)
    → splice c p xs a ≡ c a
unfolding splice
splice_out c p xs a h = ground arith

-- Two contents that agree on a region read alike there.
pub bytes_at_congr :
    (c d : ℕ → Byte) (p k : ℕ)
    → ((a : ℕ) → p ≤ a → a < p + k → c a ≡ d a)
    → bytes_at c p k ≡ bytes_at d p k
unfolding bytes_at
bytes_at_congr c d p zero h = refl
bytes_at_congr c d p (suc k) h =
    ap₂ ◌∷◌ (h p (omega arith) (omega arith))
      (bytes_at_congr c d (p + 1) k (λ a l u. h a (omega arith) (omega arith)))

pub bytes_at-splice_ne :
    (c : ℕ → Byte) (p : ℕ) (xs : List Byte) (q k : ℕ)
    → (q + k ≤ p) ⊎ (p + length xs ≤ q)
    → bytes_at (splice c p xs) q k ≡ bytes_at c q k
bytes_at-splice_ne c p xs q k h =
    bytes_at_congr _ _ q k (λ a l u. splice_out c p xs a (omega arith))

-- Reading `ys` off a content that holds them one by one.
bytes_at_of_get :
    (c : ℕ → Byte) (ys : List Byte) (p : ℕ)
    → ((i : ℕ) → i < length ys → c (p + i) ≡ get_or ys i 0)
    → bytes_at c p (length ys) ≡ ys
unfolding bytes_at
bytes_at_of_get c [] p h = refl
bytes_at_of_get c (y ∷ ys) p h =
    ap₂ ◌∷◌ (ap c (omega arith) ∙ h 0 (omega arith))
      (bytes_at_of_get c ys (p + 1) (λ i l. ap c (omega arith) ∙ h (suc i) (omega arith)))

pub bytes_at-splice_self :
    (c : ℕ → Byte) (p : ℕ) (xs : List Byte) → bytes_at (splice c p xs) p (length xs) ≡ xs
bytes_at-splice_self c p xs = bytes_at_of_get _ xs p inside
  where
    inside : (i : ℕ) → i < length xs → splice c p xs (p + i) ≡ get_or xs i 0
    inside i l = unfold splice in ground (arith, ap (λ j. get_or xs j 0) (at i))
      where
        at : (i : ℕ) → p + i - p ≡ i
        at i = omega arith

-- The front of a region just written.
pub bytes_at-splice_front :
    (c : ℕ → Byte) (p : ℕ) (xs ys : List Byte) → bytes_at (splice c p (xs ++ ys)) p (length xs) ≡ xs
bytes_at-splice_front c p xs ys = bytes_at_of_get _ xs p front
  where
    got : (zs : List Byte) (i : ℕ) → i < length zs → get_or (zs ++ ys) i 0 ≡ get_or zs i 0
    got [] i h = elim h [ ]
    got (z ∷ zs) zero h = refl
    got (z ∷ zs) (suc i) h = got zs i (omega arith)

    inside : (i : ℕ) → i < length (xs ++ ys) → splice c p (xs ++ ys) (p + i) ≡ get_or (xs ++ ys) i 0
    inside i l =
        let e : p + i - p ≡ i = omega arith in
        unfold splice in ground (arith, ap (λ j. get_or (xs ++ ys) j 0) e)

    front : (i : ℕ) → i < length xs → splice c p (xs ++ ys) (p + i) ≡ get_or xs i 0
    front i l = inside i (omega (arith, length-append xs ys)) ∙ got xs i l

-- A read that lies inside the file fills the whole buffer.
pub read_full :
    (f : File) (n : ℕ) (old : List Byte)
    → f.pos + n ≤ f.size
    → (read f n old).0 ≡ bytes_at f.content f.pos n
unfolding read
read_full f n old h =
    take-append_length (bytes_at f.content f.pos k) _ (k_eq ∙ sym (length-bytes_at _ _ k))
    ∙ ap (bytes_at f.content f.pos) (sym k_eq)
  where
    k : ℕ
    k = min n (f.size - f.pos)

    k_eq : n ≡ min n (f.size - f.pos)
    k_eq = omega arith

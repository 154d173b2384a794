-- ===== src/Xv6/Fs/Path/Elements.antt =====
-- skipelem of xv6/kernel/fs.c against the elements of a path: the parts between its slashes that are
-- not empty.
use p.Prelude.{
  ℕ, zero, suc, ◌≤◌, ◌<◌, ◌≡◌, ◌≢◌, refl, sym, ap, ◌∙◌, false, inl, inr, Bool-cases, Option, none,
  some, List, [], ◌∷◌, ◌++◌, leb, ◌==◌, if◌then◌else◌, length, take, drop, All, length-append,
  length-take, length-drop, arith,
}
use p.Word.{Byte}
use p.CString.{c_str}
use p.Xv6.Fs.Path.{skip_slashes, element, skipelem}

cons_first : Byte → List (List Byte) → List (List Byte)
cons_first c [] = (c ∷ []) ∷ []
cons_first c (w ∷ ws) = (c ∷ w) ∷ ws

-- The parts between slashes, empty ones too.
unfoldable pub split : List Byte → List (List Byte)
unfolding cons_first
split [] = [] ∷ []
split (c ∷ path) = if c == b'/' then [] ∷ split path else cons_first c (split path)

unfoldable pub keep_filled : List (List Byte) → List (List Byte)
keep_filled [] = []
keep_filled ([] ∷ ws) = keep_filled ws
keep_filled ((c ∷ w) ∷ ws) = (c ∷ w) ∷ keep_filled ws

abbrev pub elements : List Byte → List (List Byte)
elements path = keep_filled (split path)

elements-skip_slashes : (path : List Byte) → elements (skip_slashes path) ≡ elements path
unfolding skip_slashes split keep_filled
elements-skip_slashes [] = refl
elements-skip_slashes (c ∷ path) = elim (Bool-cases (c == b'/')) [
  | inl slash ↦ rw slash (elements-skip_slashes path)
  | inr other ↦
      let e : skip_slashes (c ∷ path) ≡ c ∷ path = rw other refl in
      ap (λ p. keep_filled (split p)) e
]

-- The first part, and the parts of what follows it.
split-element :
    (path : List Byte)
    → (split path ≡ (element path).0 ∷ drop 1 (split (element path).1))
      × (elements (element path).1 ≡ keep_filled (drop 1 (split (element path).1)))
      × (length (element path).1 ≤ length path)
unfolding split element keep_filled cons_first
split-element [] = (refl, refl, omega arith)
split-element (c ∷ path) = elim (Bool-cases (c == b'/')) [
  | inl slash ↦ rw (slash, slash) (refl, refl, omega arith)
  | inr other ↦
      let (parts, left, short) = split-element path in
      rw other (ap (cons_first c) parts, left, omega (arith, short))
]

length-skip_slashes : (path : List Byte) → length (skip_slashes path) ≤ length path
unfolding skip_slashes
length-skip_slashes [] = omega arith
length-skip_slashes (c ∷ path) = ground (arith, length-skip_slashes path)

skip_slashes-head :
    (path : List Byte) {c : Byte} {cs : List Byte}
    → skip_slashes path ≡ c ∷ cs
    → (c == b'/') ≡ false
unfolding skip_slashes
skip_slashes-head [] h = cc
skip_slashes-head (d ∷ path) {c} h = elim (Bool-cases (d == b'/')) [
  | inl slash ↦ skip_slashes-head path (rw slash at h)
  | inr other ↦ let e : (d ∷ path) ≡ (c ∷ _) = rw other at h in ground (arith, e)
]

NotNul : Byte → Type 0
NotNul c = c ≢ 0

c_str-NotNul : (xs ys : List Byte) → All NotNul xs → (c_str (xs ++ 0 ∷ ys) ≡ xs) × (c_str xs ≡ xs)
unfolding c_str NotNul
c_str-NotNul [] ys h = (refl, refl)
c_str-NotNul (x ∷ xs) ys h =
    let (a, b) = c_str-NotNul xs ys h.1 in
    let e : (x == 0) ≡ false = ground (arith, h.0) in
    (rw e (ap (λ zs. x ∷ zs) a), rw e (ap (λ zs. x ∷ zs) b))

All-take : (n : ℕ) (xs : List Byte) → All NotNul xs → All NotNul (take n xs)
All-take zero xs h = tt
All-take (suc n) [] h = tt
All-take (suc n) (x ∷ xs) h = (h.0, All-take n xs h.1)

take_twice : (n : ℕ) (xs : List Byte) → take n (take n xs) ≡ take n xs
take_twice zero xs = refl
take_twice (suc n) [] = refl
take_twice (suc n) (x ∷ xs) = ap (λ ys. x ∷ ys) (take_twice n xs)

All-element : (path : List Byte) → All NotNul path → All NotNul (element path).0
unfolding element
All-element [] h = tt
All-element (c ∷ path) h = elim (Bool-cases (c == b'/')) [
  | inl slash ↦ rw slash tt
  | inr other ↦ rw other (h.0, All-element path h.1)
]

All-skip_slashes : (path : List Byte) → All NotNul path → All NotNul (skip_slashes path)
unfolding skip_slashes
All-skip_slashes [] h = tt
All-skip_slashes (c ∷ path) h = elim (Bool-cases (c == b'/')) [
  | inl slash ↦ rw slash (All-skip_slashes path h.1)
  | inr other ↦ rw other h
]

-- What the array holds after an element was copied to it.
abbrev copied : List Byte → List Byte → List Byte
copied e name = if leb 14 (length e) then take 14 e else e ++ 0 ∷ drop (suc (length e)) name

copied_lem :
    (e name : List Byte)
    → length name ≡ 14
    → All NotNul e
    → (take 14 (c_str (copied e name)) ≡ take 14 e) × (length (copied e name) ≡ 14)
copied_lem e name h nul = elim (Bool-cases (leb 14 (length e))) [
  | inl long ↦
      let l : 14 ≤ length e = ground arith in
      rw long (
        ap (take 14) (c_str-NotNul (take 14 e) [] (All-take 14 e nul)).1 ∙ take_twice 14 e,
        omega (arith, length-take 14 e),
      )
  | inr short ↦
      let l : length e < 14 = ground arith in
      rw short (
        ap (take 14) (c_str-NotNul e (drop (suc (length e)) name) nul).0,
        omega (
          arith,
          length-append e (0 ∷ drop (suc (length e)) name),
          length-drop (suc (length e)) name,
        ),
      )
]

-- The result of skipelem: nothing where the path has no element, and else its first element, in the
-- array of 14 bytes, and a path of the other elements.
abbrev pub Removes : List Byte → Option (List Byte × List Byte) → Type 0
Removes path none = elements path ≡ []
Removes path (some (rest, name)) =
    (e : List Byte) × (elements path ≡ e ∷ elements rest)
    × (take 14 (c_str name) ≡ take 14 e)
    × (length name ≡ 14)
    × (length rest < length path)

-- skipelem of a path without a NUL takes the first element off it, its first 14 bytes into the array,
-- and what is left is a shorter path of the other elements; it gives 0 where there is no element.
pub skipelem-Removes :
    (path name : List Byte)
    → length name ≡ 14
    → All (λ c. c ≢ 0) path
    → Removes path (skipelem path name)
unfolding skipelem NotNul
skipelem-Removes path name h nul = step (skip_slashes path) refl (All-skip_slashes path nul)
  where
    step :
        (p : List Byte)
        → skip_slashes path ≡ p
        → All NotNul p
        → Removes path (elim p [
          | [] ↦ none
          | c ∷ cs ↦ some (skip_slashes (element (c ∷ cs)).1, copied (element (c ∷ cs)).0 name)
        ])
    step [] at all =
        sym (elements-skip_slashes path) ∙ ap elements at ∙ unfold split keep_filled in refl
    step (c ∷ cs) at all =
        let (parts, left, shorter) = split-element cs in
        let other : (c == b'/') ≡ false = skip_slashes-head path at in
        let whole : elements (c ∷ cs) ≡ (c ∷ (element cs).0) ∷ elements (element cs).1 =
          unfold split keep_filled cons_first in
          rw (other, parts) (ap (λ ws. (c ∷ (element cs).0) ∷ ws) (sym left)) in
        let e1 : element (c ∷ cs) ≡ (c ∷ (element cs).0, (element cs).1) =
          unfold element in rw other refl in
        let (read, size) = copied_lem (c ∷ (element cs).0) name h (all.0, All-element cs all.1) in
        rw e1 (
          c ∷ (element cs).0,
          sym (elements-skip_slashes path)
              ∙ ap elements at
              ∙ whole
              ∙ ap (λ ws. (c ∷ (element cs).0) ∷ ws) (sym (elements-skip_slashes (element cs).1)),
          read,
          size,
          omega (
            arith,
            length-skip_slashes (element cs).1,
            shorter,
            ap length at,
            length-skip_slashes path,
          ),
        )

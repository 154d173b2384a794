-- ===== src/Xv6/Shell/Tokens.antt =====
-- peek and gettoken of xv6/user/sh.c on text that was printed.
use p.Prelude.{
  ◌≡◌, refl, inl, inr, Bool, true, false, Bool-cases, List, [], ◌∷◌, ◌++◌, ◌==◌, length-append,
  take-append_length, All, arith,
}
use p.Word.{Byte}
use p.Xv6.Outcome.{done, Action, ◌>>=◌}
use p.Xv6.Ulib.{strchr}
use p.Xv6.Shell.{
  Range, whitespace, symbols, contains, skip_white, skip_word, token_at, gettoken, peek,
}
use p.Xv6.Shell.Leaves.{skip_white-cons}
use p.Xv6.Shell.Printer.{text, plain, IsWord, Bare}

pub bind_done :
    {A B : Type 0} (m : Action (List Byte) A) (f : A → Action (List Byte) B) (s : List Byte)
    {r : List Byte} {a : A}
    → m s ≡ done (a, r)
    → (m >>= f) s ≡ f a r
bind_done m f s h = rw (◌>>=◌, h) refl

-- Does the text begin with a byte of the set, or end?
abbrev pub among : List Byte → List Byte → Bool
among set [] = true
among set (c ∷ s) = contains set c

abbrev pub first_in : List Byte → List Byte → Bool
first_in set [] = false
first_in set (c ∷ s) = contains set c

pub peek_lem : (toks s : List Byte) → Bare s → peek toks s ≡ done (first_in toks s, s)
unfolding peek
peek_lem toks [] bare = rw (peek, bare) refl
peek_lem toks (c ∷ s) bare = rw (peek, bare) refl

plain_parts :
    (c : Byte) → plain c ≡ true → (contains whitespace c ≡ false) × (contains symbols c ≡ false)
plain_parts c h = (ground arith, ground arith)

pub Bare-plain : (c : Byte) (s : List Byte) → plain c ≡ true → Bare (c ∷ s)
Bare-plain c s h = skip_white-cons c s (plain_parts c h).0

pub Bare-IsWord : (w s : List Byte) → IsWord w → Bare (w ++ s)
Bare-IsWord [] s h = absurd (omega (arith, h.0))
Bare-IsWord (c ∷ w) s (pos, (p, ps)) = Bare-plain c (w ++ s) p

pub Bare-among :
    (s : List Byte) → among (b'|' ∷ b')' ∷ b'&' ∷ b';' ∷ b'<' ∷ b'>' ∷ []) s ≡ true → Bare s
unfolding skip_white strchr
Bare-among [] h = refl
Bare-among (c ∷ s) h = skip_white-cons c s (ground arith)

skip_word-plain :
    (w rest : List Byte)
    → All (λ c. plain c ≡ true) w
    → skip_word (w ++ (b' ' ∷ rest)) ≡ b' ' ∷ rest
unfolding skip_word
skip_word-plain [] rest h = unfold strchr in refl
skip_word-plain (c ∷ w) rest (p, ps) =
    let (a, b) = plain_parts c p in rw (a, b) (skip_word-plain w rest ps)

plain-single :
    (c : Byte)
    → contains symbols c ≡ false
    → (contains (b'|' ∷ b'(' ∷ b')' ∷ b';' ∷ b'&' ∷ b'<' ∷ []) c ≡ false) × ((c == b'>') ≡ false)
unfolding strchr
plain-single c h = (ground arith, ground arith)

skip_white_space : (rest : List Byte) → Bare rest → skip_white (b' ' ∷ rest) ≡ rest
unfolding skip_white strchr
skip_white_space rest h = h

abbrev pub word_at : List Byte → List Byte → Range
word_at w rest = record { q = w ++ (b' ' ∷ rest); eq = b' ' ∷ rest }

pub gettoken_word :
    (w rest : List Byte)
    → IsWord w
    → Bare rest
    → gettoken (w ++ (b' ' ∷ rest)) ≡ done (record { ret = b'a'; range = word_at w rest }, rest)
unfolding gettoken token_at
gettoken_word [] rest h bare = absurd (omega (arith, h.0))
gettoken_word (c ∷ w) rest (pos, (p, ps)) bare =
    let (a, b) = plain_parts c p in
    let (k, l) = plain-single c b in
    rw (gettoken, Bare-plain c (w ++ (b' ' ∷ rest)) p, k, l, skip_word-plain (c ∷ w) rest (p, ps))
      (rw (skip_white_space rest bare) refl)

pub text-word_at : (w rest : List Byte) → text (word_at w rest) ≡ w
text-word_at w rest =
    take-append_length w (b' ' ∷ rest) (omega (arith, length-append w (b' ' ∷ rest)))

-- A token of one byte, with a space behind it.
pub gettoken_symbol :
    (c : Byte) (rest : List Byte)
    → contains symbols c ≡ true
    → Bare rest
    → gettoken (c ∷ b' ' ∷ rest)
      ≡ done (record { ret = c; range = record { q = c ∷ b' ' ∷ rest; eq = b' ' ∷ rest } }, rest)
unfolding gettoken token_at
gettoken_symbol c rest h bare =
    elim (Bool-cases (contains (b'|' ∷ b'(' ∷ b')' ∷ b';' ∷ b'&' ∷ b'<' ∷ []) c)) [
      | inl e ↦ rw (gettoken, symbol_bare, e) (rw (skip_white_space rest bare) refl)
      | inr e ↦
          let g : (c == b'>') ≡ true = unfold strchr in ground arith in
          rw (gettoken, symbol_bare, e, g) (rw (skip_white_space rest bare) refl)
    ]
  where
    symbol_bare : skip_white (c ∷ b' ' ∷ rest) ≡ c ∷ b' ' ∷ rest
    symbol_bare = skip_white-cons c (b' ' ∷ rest) (unfold strchr in ground arith)

-- ===== src/Xv6/Shell/Leaves.antt =====
-- What the tokenizer of xv6/user/sh.c leaves of the line.
use p.Prelude.{
  ℕ, ◌<◌, ◌≤◌, ◌≡◌, ◌≢◌, refl, sym, ap, ◌∙◌, inl, inr, Bool, true, false, Bool-cases, ◌||◌, List,
  [], ◌∷◌, ◌==◌, length, length-drop, arith,
}
use p.Word.{Byte}
use p.Xv6.Outcome.{Outcome, done, panics, hangs, Action, ◌>>=◌}
use p.Xv6.Ulib.{strchr}
use p.Xv6.Shell.{
  Cmd, Range, Got, whitespace, symbols, contains, skip_white, skip_word, token_at, starts, gettoken,
  peek,
}

pub skip_white-cons :
    (c : Byte) (s : List Byte) → contains whitespace c ≡ false → skip_white (c ∷ s) ≡ c ∷ s
unfolding skip_white
skip_white-cons c s h = rw h refl

skip_white-skip_white : (s : List Byte) → skip_white (skip_white s) ≡ skip_white s
unfolding skip_white
skip_white-skip_white [] = refl
skip_white-skip_white (c ∷ s) = elim (Bool-cases (contains whitespace c)) [
  | inl e ↦ rw e (skip_white-skip_white s)
  | inr e ↦ rw e (rw e refl)
]

length-skip_white : (s : List Byte) → length (skip_white s) ≤ length s
unfolding skip_white
length-skip_white [] = omega arith
length-skip_white (c ∷ s) = elim (Bool-cases (contains whitespace c)) [
  | inl e ↦ rw e (omega (arith, length-skip_white s))
  | inr e ↦ rw e (omega arith)
]

not_white : (c : Byte) (r s : List Byte) → skip_white s ≡ c ∷ r → contains whitespace c ≡ false
unfolding skip_white
not_white c r [] e = cc
not_white c r (d ∷ s) e = elim (Bool-cases (contains whitespace d)) [
  | inl h ↦ let rest : skip_white s ≡ c ∷ r = rw (← e, h) refl in not_white c r s rest
  | inr h ↦
      let here : d ∷ s ≡ c ∷ r = rw (← e, h) refl in
      let same : d ≡ c = cc in ap (contains whitespace) (sym same) ∙ h
]

length-skip_word : (s : List Byte) → length (skip_word s) ≤ length s
unfolding skip_word
length-skip_word [] = omega arith
length-skip_word (c ∷ s) = elim (Bool-cases (contains whitespace c || contains symbols c)) [
  | inl e ↦ rw e (omega arith)
  | inr e ↦ rw e (omega (arith, length-skip_word s))
]

-- A byte that is no token by itself, and no '>', is no symbol.
not_symbol :
    (c : Byte)
    → contains (b'|' ∷ b'(' ∷ b')' ∷ b';' ∷ b'&' ∷ b'<' ∷ []) c ≡ false
    → (c == b'>') ≡ false
    → contains symbols c ≡ false
unfolding strchr
not_symbol c h g = ground arith

length-token_at :
    (c : Byte) (s : List Byte)
    → contains whitespace c ≡ false
    → length (token_at (c ∷ s)).1 ≤ length s
unfolding token_at skip_word
length-token_at c s h =
    elim (Bool-cases (contains (b'|' ∷ b'(' ∷ b')' ∷ b';' ∷ b'&' ∷ b'<' ∷ []) c)) [
      | inl e ↦ rw e (omega arith)
      | inr e ↦ elim (Bool-cases (c == b'>')) [
        | inl g ↦
            rw (e, g)
              (elim (Bool-cases (starts b'>' s)) [
                | inl d ↦ rw d (omega (arith, length-drop 1 s))
                | inr d ↦ rw d (omega arith)
              ])
        | inr g ↦ rw (e, g) (rw (skip_word, h, not_symbol c e g) (length-skip_word s))
      ]
    ]

-- The action ends: it panics, or its result and what is left of the line satisfy P.
abbrev pub Holds : {A : Type 0} → (A → List Byte → Type 0) → Outcome (A × List Byte) → Type 0
Holds P (done (a, r)) = P a r
Holds P panics = Unit
Holds P hangs = ⊥

pub Holds-bind :
    {A B : Type 0} (P : A → List Byte → Type 0) (Q : B → List Byte → Type 0)
    (m : Action (List Byte) A) (f : A → Action (List Byte) B) (s : List Byte)
    → Holds P (m s)
    → ((a : A) (r : List Byte) → P a r → Holds Q (f a r))
    → Holds Q ((m >>= f) s)
Holds-bind {A} {B} P Q m f s h k = after (m s) h
  where
    after :
        (o : Outcome (A × List Byte))
        → Holds P o
        → Holds Q (elim o [ done (a, r) ↦ f a r | panics ↦ panics | hangs ↦ hangs ])
    after (done (a, r)) h = k a r h
    after panics h = tt
    after hangs h = h

-- Bytes of a token are left.
abbrev Filled : List Byte → Type 0
Filled s = 0 < length (skip_white s)

-- What peek leaves of s, and gettoken.
abbrev pub Peeked : List Byte → Bool → List Byte → Type 0
Peeked s b r = (length r ≤ length s) × (b ≡ true → Filled r)

abbrev pub Taken : List Byte → Got → List Byte → Type 0
Taken s g r =
    (length r ≤ length s) × (Filled s → length r < length s) × (g.ret ≢ 0 → length r < length s)

-- What a part of the parser leaves.
abbrev pub Left : ℕ → Cmd Range → List Byte → Type 0
Left n cmd r = length r ≤ n

pub peek-Peeked : (toks s : List Byte) → Holds (Peeked s) (peek toks s)
unfolding peek
peek-Peeked toks s = after (skip_white s) refl
  where
    after : (r : List Byte) → skip_white s ≡ r → Holds (Peeked s) (peek toks s)
    after [] e = rw (peek, e) (omega arith, λ h. cc)
    after (c ∷ r) e =
        let whole : skip_white (c ∷ r) ≡ c ∷ r =
          ap skip_white (sym e) ∙ skip_white-skip_white s ∙ e in
        rw (peek, e)
          (omega (arith, length-skip_white s, ap length e), λ h. omega (arith, ap length whole))

pub gettoken-Taken : (s : List Byte) → Holds (Taken s) (gettoken s)
unfolding gettoken
gettoken-Taken s = after (skip_white s) refl
  where
    after : (r : List Byte) → skip_white s ≡ r → Holds (Taken s) (gettoken s)
    after [] e =
        let none_left : skip_white [] ≡ [] = unfold skip_white in refl in
        rw (gettoken, e)
          (unfold token_at in
            rw none_left (omega arith, λ h. absurd (omega arith), λ h. absurd (h refl)))
    after (c ∷ r) e =
        let shorter : length (skip_white (token_at (c ∷ r)).1) ≤ length r = omega (
          arith,
          length-skip_white (token_at (c ∷ r)).1,
          length-token_at c r (not_white c r s e),
        ) in
        let whole = ap length e in
        let part = length-skip_white s in
        rw (gettoken, e) (omega arith, λ h. omega arith, λ h. omega arith)

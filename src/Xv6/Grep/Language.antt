-- ===== src/Xv6/Grep/Language.antt =====
-- The matcher of xv6/user/grep.c decides what a pattern means.
use p.Prelude.{
  ◌≡◌, ◌≢◌, ◌↔◌, refl, ap, ◌⊎◌, inl, inr, Bool, true, ◌||◌, List, [], ◌∷◌, ◌++◌, ◌==◌, Bool-cases,
  ℕ_discrete, arith,
}
use p.Word.{Byte}
use p.Xv6.Grep.{matchstar, matchhere, match_from, match}

-- A pattern byte that stands for a byte of the text.
abbrev pub Stands : Byte → Byte → Type 0
Stands r t = (r ≡ b'.') ⊎ (r ≡ t)

-- The pattern matches a front part of the text: a byte stands for itself, '.' for any byte, c* for
-- any number of bytes that c stands for, and '$' at the end of the pattern for the end of the text.
pub data Here : List Byte → List Byte → Type 0 where
  done : {text : List Byte} → Here [] text
  dollar : {r : Byte} → r ≡ b'$' → Here (r ∷ []) []
  last : {r t : Byte} {text : List Byte} → r ≢ b'$' → Stands r t → Here (r ∷ []) (t ∷ text)
  skip : {r r1 : Byte} {re text : List Byte} → r1 ≡ b'*' → Here re text → Here (r ∷ r1 ∷ re) text
  more :
      {r r1 t : Byte} {re text : List Byte}
      → r1 ≡ b'*'
      → Stands r t
      → Here (r ∷ r1 ∷ re) text
      → Here (r ∷ r1 ∷ re) (t ∷ text)
  byte :
      {r r1 t : Byte} {re text : List Byte}
      → r1 ≢ b'*'
      → Stands r t
      → Here (r1 ∷ re) text
      → Here (r ∷ r1 ∷ re) (t ∷ text)

stands : (r t : Byte) → (r == b'.' || r == t) ≡ true → Stands r t
stands r t h = ground arith

matchstar_sound :
    (r r1 : Byte) (re : List Byte) (here : List Byte → Bool) (text : List Byte)
    → r1 ≡ b'*'
    → ((x : List Byte) → here x ≡ true → Here re x)
    → matchstar r here text ≡ true
    → Here (r ∷ r1 ∷ re) text
unfolding matchstar
matchstar_sound r r1 re here [] e ih h = skip e (ih [] h)
matchstar_sound r r1 re here (t ∷ text) e ih h = elim (Bool-cases (here (t ∷ text))) [
  | inl now ↦ skip e (ih (t ∷ text) now)
  | inr later ↦ more e (ground arith) (matchstar_sound r r1 re here text e ih (ground arith))
]

pub matchhere_sound : (re text : List Byte) → matchhere re text ≡ true → Here re text
unfolding matchhere
matchhere_sound [] text h = done
matchhere_sound (r ∷ []) [] h = dollar (ground arith)
matchhere_sound (r ∷ []) (t ∷ text) h = last (ground arith) (ground arith)
matchhere_sound (r ∷ r1 ∷ re) [] h =
    let star : r1 ≡ b'*' = ground arith in
    matchstar_sound r r1 re (matchhere re) [] star (matchhere_sound re) (ground arith)
matchhere_sound (r ∷ r1 ∷ re) (t ∷ text) h = elim (ℕ_discrete r1 b'*') [
  | yes star ↦
      matchstar_sound r r1 re (matchhere re) (t ∷ text) star (matchhere_sound re) (ground arith)
  | no ne ↦ byte ne (ground arith) (matchhere_sound (r1 ∷ re) text (ground arith))
]

matchstar_now :
    (c : Byte) (here : List Byte → Bool) (text : List Byte)
    → here text ≡ true
    → matchstar c here text ≡ true
unfolding matchstar
matchstar_now c here [] h = h
matchstar_now c here (t ∷ text) h = rw h

matchhere_complete : {re text : List Byte} → Here re text → matchhere re text ≡ true
unfolding matchhere
matchhere_complete done = refl
matchhere_complete (dollar e) = ground arith
matchhere_complete (last ne s) = ground arith
matchhere_complete (skip {r = r} {re = re} {text = text} e h) =
    ground (arith, matchstar_now r (matchhere re) text (matchhere_complete h))
matchhere_complete (more e s h) = ground (arith, matchhere_complete h)
matchhere_complete (byte ne s h) = ground (arith, matchhere_complete h)

-- A pattern that does not begin with '^'.
abbrev pub IsFree : List Byte → Type 0
IsFree [] = Unit
IsFree (r ∷ re) = r ≢ b'^'

-- The pattern matches somewhere in the text, or, behind a '^', at its start.
pub data Matches : List Byte → List Byte → Type 0 where
  start : {r : Byte} {re text : List Byte} → r ≡ b'^' → Here re text → Matches (r ∷ re) text
  inside :
      {re text : List Byte} (before after : List Byte)
      → IsFree re
      → before ++ after ≡ text
      → Here re after
      → Matches re text

match_from_sound :
    (re text : List Byte)
    → match_from re text ≡ true
    → (before : List Byte) × (after : List Byte) × (before ++ after ≡ text) × Here re after
unfolding match_from
match_from_sound re [] h = ([], [], refl, matchhere_sound re [] h)
match_from_sound re (t ∷ text) h = elim (Bool-cases (matchhere re (t ∷ text))) [
  | inl now ↦ ([], t ∷ text, refl, matchhere_sound re (t ∷ text) now)
  | inr later ↦
      let (before, after, e, m) = match_from_sound re text (ground arith) in
      (t ∷ before, after, ap (◌∷◌ t) e, m)
]

match_from_complete :
    (re before after : List Byte) → Here re after → match_from re (before ++ after) ≡ true
unfolding match_from
match_from_complete re [] [] h = matchhere_complete h
match_from_complete re [] (t ∷ after) h = rw (matchhere_complete h)
match_from_complete re (t ∷ before) after h = ground (arith, match_from_complete re before after h)

match_sound : (re text : List Byte) → match re text ≡ true → Matches re text
unfolding match
match_sound [] text h =
    let (before, after, e, m) = match_from_sound [] text h in inside before after tt e m
match_sound (r ∷ re) text h = elim (ℕ_discrete r b'^') [
  | yes e ↦ start e (matchhere_sound re text (ground arith))
  | no ne ↦
      let (before, after, e, m) = match_from_sound (r ∷ re) text (ground arith) in
      inside before after ne e m
]

match_complete : {re text : List Byte} → Matches re text → match re text ≡ true
unfolding match
match_complete (start e h) = ground (arith, matchhere_complete h)
match_complete (inside {re = []} before after f e h) =
    rw (← e) (match_from_complete [] before after h)
match_complete (inside {re = r ∷ re} {text = text} before after f e h) =
    let found : match_from (r ∷ re) text ≡ true =
      rw (← e) (match_from_complete (r ∷ re) before after h) in
    ground arith

-- match of grep decides whether the pattern matches the text.
pub match-Matches : (re text : List Byte) → (match re text ≡ true) ↔ Matches re text
match-Matches re text = (match_sound re text, match_complete)

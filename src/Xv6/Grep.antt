-- ===== src/Xv6/Grep.antt =====
-- The matcher of xv6/user/grep.c. A string is the list of its bytes before the NUL, so a test for
-- '\0' is one for the end of the list. match and matchstar walk the text, matchhere the pattern.
pub mod Language
use p.Prelude.{ℕ, Bool, true, false, ◌&&◌, ◌||◌, List, [], ◌∷◌, ◌==◌, if◌then◌else◌}
use p.Word.{Byte}

-- The loop of matchstar; `here` is matchhere at the pattern behind the star.
unfoldable pub matchstar : Byte → (List Byte → Bool) → List Byte → Bool
matchstar c here [] = here []
matchstar c here (t ∷ text) =
    let rest = matchstar c here text in
    if here (t ∷ text) then true else if t == c || c == b'.' then rest else false

-- A pattern of one byte: the end of the text, or one byte.
unfoldable pub match_last : Byte → List Byte → Bool
match_last r [] = r == b'$'
match_last r (t ∷ text) = if r == b'$' then false else r == b'.' || r == t

-- One byte of the text, and `here` on what follows it.
unfoldable pub match_byte : Byte → (List Byte → Bool) → List Byte → Bool
match_byte r here [] = false
match_byte r here (t ∷ text) = if r == b'.' || r == t then here text else false

unfoldable pub matchhere : List Byte → List Byte → Bool
unfolding matchstar match_last match_byte
matchhere [] text = true
matchhere (r ∷ []) text = match_last r text
matchhere (r ∷ r1 ∷ re) text =
    let star = matchstar r (matchhere re) text in
    let step = match_byte r (matchhere (r1 ∷ re)) text in if r1 == b'*' then star else step

unfoldable pub match_from : List Byte → List Byte → Bool
unfolding matchhere
match_from re [] = matchhere re []
match_from re (t ∷ text) =
    let rest = match_from re text in if matchhere re (t ∷ text) then true else rest

unfoldable pub match : List Byte → List Byte → Bool
unfolding match_from
match [] text = match_from [] text
match (r ∷ re) text = if r == b'^' then matchhere re text else match_from (r ∷ re) text

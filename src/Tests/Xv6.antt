-- ===== src/Tests/Xv6.antt =====
-- xv6/kernel/string.c and the matcher of xv6/user/grep.c at fixed inputs, and the theorems on them.
use p.Prelude.{ℕ, ◌<◌, ◌≡◌, ◌↔◌, refl, true, [], ◌∷◌, ◌==◌, if◌then◌else◌, arith}
use p.Xv6.Strings.{Memory, memmove, strncpy, strncmp}
use p.Xv6.Strings.Move.{memmove-moved, moved}
use p.Xv6.Grep.{match}
use p.Xv6.Grep.Language.{Matches, match-Matches}

-- "hello" at 10, in zeros.
abbrev memory : Memory
memory a =
    if a == 10
    then b'h'
    else if a == 11
    then b'e'
    else if a == 12
    then b'l'
    else if a == 13
    then b'l'
    else if a == 14
    then b'o'
    else 0

memory_bytes : (a : ℕ) → memory a < 256
memory_bytes a = ground arith

memmove_runs : memmove memory 12 10 5 14 ≡ b'l'
unfolding memmove
memmove_runs = refl

strncmp_runs : strncmp memory 12 13 1 ≡ 0
unfolding strncmp
strncmp_runs = refl

strncpy_runs : strncpy memory 11 14 3 13 ≡ 0
unfolding strncpy
strncpy_runs = refl

memmove-moved_example : memmove memory 12 10 5 14 ≡ moved memory 12 10 5 14
memmove-moved_example = memmove-moved memory 12 10 5 14

match_runs : match (b'^' ∷ b'a' ∷ b'*' ∷ b'$' ∷ []) (b'a' ∷ b'a' ∷ []) ≡ true
unfolding match
match_runs = refl

match-Matches_example :
    (match (b'b' ∷ b'.' ∷ b'$' ∷ []) (b'a' ∷ b'b' ∷ b'c' ∷ []) ≡ true)
    ↔ Matches (b'b' ∷ b'.' ∷ b'$' ∷ []) (b'a' ∷ b'b' ∷ b'c' ∷ [])
match-Matches_example = match-Matches (b'b' ∷ b'.' ∷ b'$' ∷ []) (b'a' ∷ b'b' ∷ b'c' ∷ [])

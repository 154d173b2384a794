-- ===== src/Xv6/Ulib.antt =====
-- xv6/user/ulib.c and the printing of xv6/user/printf.c. A string is the list of its bytes before the
-- NUL, and what is printed is the list of the bytes that putc writes.
pub mod Digits
use p.Prelude.{
  ℕ, zero, suc, ◌+◌, ◌-◌, ◌*◌, ◌/◌, ◌%◌, Bool, true, false, ◌&&◌, ◌||◌, Option, none, some, List,
  [], ◌∷◌, ◌++◌, ltb, leb, ◌==◌, if◌then◌else◌, get_or, length,
}
use p.Word.{Word, Byte, word_mod, is_neg, add32}
use p.Xv6.Strings.{Memory, store, sub_bytes, copy_up}

-- strcpy(s, t) over a memory, on fuel: `none` if no NUL was met.
unfoldable pub strcpy : ℕ → Memory → ℕ → ℕ → Option Memory
strcpy zero m s t = none
strcpy (suc fuel) m s t =
    let m' = store m s (m t) in
    let rest = strcpy fuel m' (s + 1) (t + 1) in if m t == 0 then some m' else rest

unfoldable pub strcmp : List Byte → List Byte → Word
strcmp [] [] = 0
strcmp [] (y ∷ ys) = sub_bytes 0 y
strcmp (x ∷ xs) [] = sub_bytes x 0
strcmp (x ∷ xs) (y ∷ ys) = let rest = strcmp xs ys in if x == y then rest else sub_bytes x y

-- The string from the byte found on.
unfoldable pub strchr : List Byte → Byte → Option (List Byte)
strchr [] c = none
strchr (x ∷ xs) c = let rest = strchr xs c in if x == c then some (x ∷ xs) else rest

-- `input` holds what the calls of read(0, &c, 1) give, one byte each, until one gives none; `room` is
-- max - 1, and the NUL that ends buf is left off.
unfoldable pub gets : ℕ → List Byte → List Byte
gets zero input = []
gets (suc room) [] = []
gets (suc room) (c ∷ input) =
    let rest = gets room input in if c == b'\n' || c == b'\r' then c ∷ [] else c ∷ rest

-- The loop of atoi, in an int.
unfoldable pub atoi_from : List Byte → Word → Word
atoi_from [] n = n
atoi_from (c ∷ s) n =
    let rest = atoi_from s ((n * 10 + c + word_mod - b'0') % word_mod) in
    if leb b'0' c && leb c b'9' then rest else n

unfoldable pub atoi : List Byte → Word
unfolding atoi_from
atoi s = atoi_from s 0

-- memmove of the user library copies upwards, however the regions lie.
unfoldable pub user_memmove : Memory → ℕ → ℕ → ℕ → Memory
unfolding copy_up
user_memmove m dst src n = copy_up m dst src n

abbrev pub digits_of : List Byte
digits_of =
    b'0' ∷ b'1' ∷ b'2' ∷ b'3' ∷ b'4' ∷ b'5' ∷ b'6' ∷ b'7' ∷ b'8' ∷ b'9' ∷ b'A' ∷ b'B' ∷ b'C' ∷ b'D'
    ∷ b'E' ∷ b'F' ∷ []

-- The do loop of printint, on fuel, before `acc`: buf is filled from its front and printed from its back.
unfoldable pub print_digits : ℕ → ℕ → Word → List Byte → List Byte
print_digits zero base x acc = acc
print_digits (suc fuel) base x acc =
    let acc' = get_or digits_of (x % base) 0 ∷ acc in
    let rest = print_digits fuel base (x / base) acc' in if x / base == 0 then acc' else rest

-- A word has at most 32 digits.
unfoldable pub printint : Word → ℕ → Bool → List Byte
unfolding print_digits
printint xx base sgn =
    if sgn && is_neg xx
    then b'-' ∷ print_digits 32 base ((word_mod - xx) % word_mod) []
    else print_digits 32 base xx []

-- An argument of printf: a word, or a string; a null pointer is `none`.
pub data Argument : Type 0 where
  number : Word → Argument
  text : Option (List Byte) → Argument

abbrev pub number_of : List Argument → Word
number_of (number w ∷ args) = w
number_of _ = 0

abbrev pub text_of : List Argument → List Byte
text_of (text (some s) ∷ args) = s
text_of _ = b'(' ∷ b'n' ∷ b'u' ∷ b'l' ∷ b'l' ∷ b')' ∷ []

abbrev pub next_args : List Argument → List Argument
next_args [] = []
next_args (a ∷ args) = args

-- What the byte c after a '%' prints, and the arguments left.
unfoldable pub print_format : Byte → List Argument → List Byte × List Argument
unfolding printint
print_format c args =
    if c == b'd'
    then (printint (number_of args) 10 true, next_args args)
    else if c == b'x' || c == b'p'
    then (printint (number_of args) 16 false, next_args args)
    else if c == b's'
    then (text_of args, next_args args)
    else if c == b'c'
    then (number_of args % 256 ∷ [], next_args args)
    else if c == b'%'
    then (c ∷ [], args)
    else (b'%' ∷ c ∷ [], args)

-- The loop of printf; `pending` is the state after a '%'.
unfoldable pub printf : Bool → List Byte → List Argument → List Byte
unfolding print_format
printf pending [] args = []
printf false (c ∷ fmt) args =
    let plain = c ∷ printf false fmt args in if c == b'%' then printf true fmt args else plain
printf true (c ∷ fmt) args = let (out, args') = print_format c args in out ++ printf false fmt args'

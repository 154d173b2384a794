-- ===== src/Xv6/Shell/Printer.antt =====
-- Commands as text for the parser of xv6/user/sh.c, each piece with a space behind it.
use p.Prelude.{
  ℕ, ◌-◌, ◌<◌, ◌≤◌, ◌≡◌, ◌⊎◌, inl, inr, Bool, true, Bool-cases, ◌||◌, not, List, [], ◌∷◌, ◌++◌,
  ◌==◌, ltb, if◌then◌else◌, length, length-append, take, map, All, arith,
}
use p.Word.{Word, Byte}
use p.Xv6.Shell.{
  Cmd, exec, redir, pipe, list, back, Range, whitespace, symbols, contains, max_args, skip_white,
}

abbrev pub text : Range → List Byte
text a = take (length a.q - length a.eq) a.q

-- The command with the bytes of its strings.
abbrev pub texts : Cmd Range → Cmd (List Byte)
texts (exec args) = exec (map text args)
texts (redir cmd file mode fd) = redir (texts cmd) (text file) mode fd
texts (pipe left right) = pipe (texts left) (texts right)
texts (list left right) = list (texts left) (texts right)
texts (back cmd) = back (texts cmd)

unfoldable pub print_args : List (List Byte) → List Byte → List Byte
print_args [] rest = rest
print_args (w ∷ args) rest = w ++ (b' ' ∷ print_args args rest)

-- '<' for O_RDONLY, '>' for another mode.
abbrev pub mark : Word → Byte
mark mode = if mode == 0 then b'<' else b'>'

-- The command before `rest`, in parentheses where its kind does not fit the place: 0 is that of a part of
-- a pipe, 1 that of a pipe, 2 that before '&', 3 that of a line.
unfoldable pub print : ℕ → Cmd (List Byte) → List Byte → List Byte
print place (exec args) rest = print_args args rest
print place (redir cmd file mode fd) rest = print 0 cmd (mark mode ∷ b' ' ∷ (file ++ (b' ' ∷ rest)))
print place (pipe left right) rest =
    let inside = λ (r : List Byte). print 0 left (b'|' ∷ b' ' ∷ print 1 right r) in
    if ltb place 1 then b'(' ∷ b' ' ∷ inside (b')' ∷ b' ' ∷ rest) else inside rest
print place (back cmd) rest =
    let inside = λ (r : List Byte). print 2 cmd (b'&' ∷ b' ' ∷ r) in
    if ltb place 2 then b'(' ∷ b' ' ∷ inside (b')' ∷ b' ' ∷ rest) else inside rest
print place (list left right) rest =
    let inside = λ (r : List Byte). print 2 left (b';' ∷ b' ' ∷ print 3 right r) in
    if ltb place 3 then b'(' ∷ b' ' ∷ inside (b')' ∷ b' ' ∷ rest) else inside rest

abbrev pub plain : Byte → Bool
plain c = not (contains whitespace c || contains symbols c)

-- A string that is one token.
abbrev pub IsWord : List Byte → Type 0
IsWord w = (0 < length w) × All (λ c. plain c ≡ true) w

-- A command that can be written: fewer than MAXARGS arguments, strings that are tokens, and the modes and
-- descriptors that the shell knows.
abbrev pub IsPrintable : Cmd (List Byte) → Type 0
IsPrintable (exec args) = (length args < max_args) × All IsWord args
IsPrintable (redir cmd file mode fd) =
    IsPrintable cmd × IsWord file × (((mode ≡ 0) × (fd ≡ 0)) ⊎ ((mode ≡ 0x201) × (fd ≡ 1)))
IsPrintable (pipe left right) = IsPrintable left × IsPrintable right
IsPrintable (list left right) = IsPrintable left × IsPrintable right
IsPrintable (back cmd) = IsPrintable cmd

length-print_args :
    (args : List (List Byte)) (rest : List Byte) → length rest ≤ length (print_args args rest)
unfolding print_args
length-print_args [] rest = omega arith
length-print_args (w ∷ args) rest =
    omega (arith, length-append w (b' ' ∷ print_args args rest), length-print_args args rest)

-- Printing puts text before the rest.
pub length-print :
    (place : ℕ) (cmd : Cmd (List Byte)) (rest : List Byte)
    → length rest ≤ length (print place cmd rest)
unfolding print
length-print place (exec args) rest = length-print_args args rest
length-print place (redir cmd file mode fd) rest = omega (
  arith,
  length-print 0 cmd (mark mode ∷ b' ' ∷ (file ++ (b' ' ∷ rest))),
  length-append file (b' ' ∷ rest),
)
length-print place (pipe left right) rest =
    let inside = λ (r : List Byte). print 0 left (b'|' ∷ b' ' ∷ print 1 right r) in
    let whole = λ (r : List Byte). length-print 0 left (b'|' ∷ b' ' ∷ print 1 right r) in
    let part = λ (r : List Byte). length-print 1 right r in
    elim (Bool-cases (ltb place 1)) [
      | inl e ↦ rw e (omega (arith, whole (b')' ∷ b' ' ∷ rest), part (b')' ∷ b' ' ∷ rest)))
      | inr e ↦ rw e (omega (arith, whole rest, part rest))
    ]
length-print place (back cmd) rest =
    let whole = λ (r : List Byte). length-print 2 cmd (b'&' ∷ b' ' ∷ r) in
    elim (Bool-cases (ltb place 2)) [
      | inl e ↦ rw e (omega (arith, whole (b')' ∷ b' ' ∷ rest)))
      | inr e ↦ rw e (omega (arith, whole rest))
    ]
length-print place (list left right) rest =
    let whole = λ (r : List Byte). length-print 2 left (b';' ∷ b' ' ∷ print 3 right r) in
    let part = λ (r : List Byte). length-print 3 right r in
    elim (Bool-cases (ltb place 3)) [
      | inl e ↦ rw e (omega (arith, whole (b')' ∷ b' ' ∷ rest), part (b')' ∷ b' ' ∷ rest)))
      | inr e ↦ rw e (omega (arith, whole rest, part rest))
    ]

-- No white space stands in front.
abbrev pub Bare : List Byte → Type 0
Bare s = skip_white s ≡ s

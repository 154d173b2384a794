-- ===== src/Xv6/Shell.antt =====
-- The parser of xv6/user/sh.c. The line is the list of its bytes before the NUL; a pointer into it is the
-- list of the bytes from it on, so that `es` is []. An action has *ps for its state, and `panics` where
-- the shell prints a message and exits. The memory of malloc is not modelled: it gives a new command.
pub mod Leaves
pub mod Ends
pub mod Printer
pub mod Tokens
pub mod Steps
pub mod Places
pub mod Atoms
pub mod RoundTrip
use p.Prelude.{
  ℕ, zero, suc, ◌+◌, ◌-◌, ◌*◌, Bool, true, false, ◌&&◌, ◌||◌, not, Option, none, some, List, [],
  ◌∷◌, ◌++◌, ltb, leb, ◌==◌, if◌then◌else◌, length, take, drop, set,
}
use p.Word.{Word, Byte}
use p.CString.{c_str}
use p.Xv6.Outcome.{
  Outcome, done, panics, hangs, Action, pure, panic, hang, gets, modify, ◌>>=◌, ◌>>◌,
}
use p.Xv6.Ulib.{strchr}

abbrev pub max_args : ℕ
max_args = 10

abbrev pub o_rdonly : Word
o_rdonly = 0

-- O_WRONLY|O_CREATE
abbrev pub o_wronly_create : Word
o_wronly_create = 0x201

-- struct cmd and its kinds; `argv` ends where the code puts a null pointer.
pub data Cmd (A : Type 0) : Type 0 where
  exec : List A → Cmd A
  redir : Cmd A → A → Word → Word → Cmd A
  pipe list : Cmd A → Cmd A → Cmd A
  back : Cmd A → Cmd A

-- A string of a command before nulterminate: from q up to eq.
pub record Range : Type 0 where
  pub q : List Byte
  pub eq : List Byte

abbrev pub whitespace : List Byte
whitespace = b' ' ∷ b'\t' ∷ b'\r' ∷ b'\n' ∷ 11 ∷ []

abbrev pub symbols : List Byte
symbols = b'<' ∷ b'|' ∷ b'>' ∷ b'&' ∷ b';' ∷ b'(' ∷ b')' ∷ []

-- strchr(set, c), as a test
abbrev pub contains : List Byte → Byte → Bool
contains set c = elim (strchr set c) [ none ↦ false | some s ↦ true ]

-- while(s < es && strchr(whitespace, *s)) s++;
unfoldable pub skip_white : List Byte → List Byte
skip_white [] = []
skip_white (c ∷ s) = let rest = skip_white s in if contains whitespace c then rest else c ∷ s

-- The loop of gettoken over a word.
unfoldable pub skip_word : List Byte → List Byte
skip_word [] = []
skip_word (c ∷ s) =
    let rest = skip_word s in if contains whitespace c || contains symbols c then c ∷ s else rest

pub record Got : Type 0 where
  pub ret : Byte
  pub range : Range

-- *s == c
abbrev pub starts : Byte → List Byte → Bool
starts c [] = false
starts c (d ∷ s) = d == c

-- ret and *eq for the token at s.
unfoldable pub token_at : List Byte → Byte × List Byte
token_at [] = (0, [])
token_at (c ∷ s) =
    if contains (b'|' ∷ b'(' ∷ b')' ∷ b';' ∷ b'&' ∷ b'<' ∷ []) c
    then (c, s)
    else if c == b'>'
    then (if starts b'>' s then (b'+', drop 1 s) else (c, s))
    else (b'a', skip_word (c ∷ s))

unfoldable pub gettoken : Action (List Byte) Got
gettoken s =
    let q = skip_white s in
    let t = token_at q in
    done (record { ret = t.0; range = record { q = q; eq = t.1 } }, skip_white t.1)

unfoldable pub peek : List Byte → Action (List Byte) Bool
peek toks s = elim (skip_white s) [
  | [] ↦ done (false, [])
  | c ∷ s' ↦ done (contains toks c, c ∷ s')
]

-- The switch of parseredirs.
unfoldable pub redirect : Byte → Cmd Range → Range → Cmd Range
redirect tok cmd file =
    if tok == b'<'
    then redir cmd file o_rdonly 0
    else if tok == b'>' || tok == b'+'
    then redir cmd file o_wronly_create 1
    else cmd

-- The loop of parseredirs.
unfoldable pub redirs_from : ℕ → Cmd Range → Action (List Byte) (Cmd Range)
redirs_from zero cmd = hang
redirs_from (suc fuel) cmd = do
  more ← peek (b'<' ∷ b'>' ∷ [])
  elim more [
    | false ↦ pure cmd
    | true ↦ do
      tok ← gettoken
      file ← gettoken
      elim (file.ret == b'a') [
        | false ↦ panic
        | true ↦ redirs_from fuel (redirect tok.ret cmd file.range)
      ]
  ]

unfoldable pub parseredirs : Cmd Range → Action (List Byte) (Cmd Range)
parseredirs cmd s = redirs_from (suc (length s)) cmd s

-- cmd->argv[argc] = q through `cmd`, which points to the execcmd inside the redirections of `ret`.
unfoldable pub add_arg : Range → Cmd Range → Cmd Range
add_arg a (exec args) = exec (args ++ a ∷ [])
add_arg a (redir cmd file mode fd) = redir (add_arg a cmd) file mode fd
add_arg a cmd = cmd

-- The loop of parseexec.
unfoldable pub args_from : ℕ → ℕ → Cmd Range → Action (List Byte) (Cmd Range)
args_from zero argc ret = hang
args_from (suc fuel) argc ret = do
  stop ← peek (b'|' ∷ b')' ∷ b'&' ∷ b';' ∷ [])
  elim stop [
    | true ↦ pure ret
    | false ↦ do
      tok ← gettoken
      elim (tok.ret == 0) [
        | true ↦ pure ret
        | false ↦ elim (tok.ret == b'a') [
          | false ↦ panic
          | true ↦ elim (leb max_args (argc + 1)) [
            | true ↦ panic
            | false ↦ do ret' ← parseredirs (add_arg tok.range ret); args_from fuel (argc + 1) ret'
          ]
        ]
      ]
  ]

unfoldable pub parse_args : Cmd Range → Action (List Byte) (Cmd Range)
parse_args ret s = args_from (suc (length s)) 0 ret s

-- The loop of parseline over '&'.
unfoldable pub backs_from : ℕ → Cmd Range → Action (List Byte) (Cmd Range)
backs_from zero cmd = hang
backs_from (suc fuel) cmd = do
  more ← peek (b'&' ∷ [])
  elim more [ false ↦ pure cmd | true ↦ do gettoken; backs_from fuel (back cmd) ]

unfoldable pub parse_backs : Cmd Range → Action (List Byte) (Cmd Range)
parse_backs cmd s = backs_from (suc (length s)) cmd s

unfoldable mutual
  pub parseline : ℕ → Action (List Byte) (Cmd Range)
  parseline zero = hang
  parseline (suc fuel) = do
    left ← parsepipe fuel
    cmd ← parse_backs left
    more ← peek (b';' ∷ [])
    elim more [
      | false ↦ pure cmd
      | true ↦ do gettoken; right ← parseline fuel; pure (list cmd right)
    ]

  pub parsepipe : ℕ → Action (List Byte) (Cmd Range)
  parsepipe zero = hang
  parsepipe (suc fuel) = do
    cmd ← parseexec fuel
    more ← peek (b'|' ∷ [])
    elim more [
      | false ↦ pure cmd
      | true ↦ do gettoken; right ← parsepipe fuel; pure (pipe cmd right)
    ]

  pub parseexec : ℕ → Action (List Byte) (Cmd Range)
  parseexec zero = hang
  parseexec (suc fuel) = do
    block ← peek (b'(' ∷ [])
    elim block [ true ↦ parseblock fuel | false ↦ do ret ← parseredirs (exec []); parse_args ret ]

  pub parseblock : ℕ → Action (List Byte) (Cmd Range)
  parseblock zero = hang
  parseblock (suc fuel) = do
    open_paren ← peek (b'(' ∷ [])
    elim open_paren [
      | false ↦ panic
      | true ↦ do
        gettoken
        cmd ← parseline fuel
        close_paren ← peek (b')' ∷ [])
        elim close_paren [ false ↦ panic | true ↦ do gettoken; parseredirs cmd ]
    ]

-- *p = 0 in the line's buffer of n bytes and the NUL.
abbrev pub put_nul : ℕ → List Byte → List Byte → List Byte
put_nul n p buf = set buf (n - length p) 0

unfoldable pub terminate_args : ℕ → List Range → List Byte → List Byte
terminate_args n [] buf = buf
terminate_args n (a ∷ args) buf = terminate_args n args (put_nul n a.eq buf)

unfoldable pub nulterminate : ℕ → Cmd Range → List Byte → List Byte
nulterminate n (exec args) buf = terminate_args n args buf
nulterminate n (redir cmd file mode fd) buf = put_nul n file.eq (nulterminate n cmd buf)
nulterminate n (pipe left right) buf = nulterminate n right (nulterminate n left buf)
nulterminate n (list left right) buf = nulterminate n right (nulterminate n left buf)
nulterminate n (back cmd) buf = nulterminate n cmd buf

-- parsecmd up to nulterminate; a unit of fuel for each call, and at most four calls for a byte.
unfoldable pub parse_all : ℕ → Action (List Byte) (Cmd Range)
parse_all fuel = do
  cmd ← parseline fuel
  peek []
  rest ← gets λ (s : List Byte). s
  elim rest [ [] ↦ pure cmd | c ∷ s ↦ panic ]

-- The command, and the buffer of the line afterwards.
unfoldable pub parsecmd : List Byte → Outcome (Cmd Range × List Byte)
parsecmd s = elim (parse_all (4 * length s + 4) s) [
  | done (cmd, rest) ↦ done (cmd, nulterminate (length s) cmd (s ++ 0 ∷ []))
  | panics ↦ panics
  | hangs ↦ hangs
]

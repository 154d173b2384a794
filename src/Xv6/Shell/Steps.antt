-- ===== src/Xv6/Shell/Steps.antt =====
-- The loops of the parser of xv6/user/sh.c on printed arguments and redirections.
use p.Prelude.{
  ℕ, zero, suc, ◌+◌, ◌<◌, ◌≡◌, refl, sym, ap, ◌∙◌, inl, inr, Bool, true, false, Bool-cases, List,
  [], ◌∷◌, ◌++◌, append_assoc, append-nil, ◌==◌, leb, length, length-append, map, All, arith,
}
use mathlib.Core.List.{map-append}
use p.Word.{Word, Byte}
use p.Xv6.Outcome.{Outcome, done, Action, ◌>>=◌}
use p.Xv6.Ulib.{strchr}
use p.Xv6.Shell.{
  Cmd, exec, Range, symbols, contains, skip_white, gettoken, token_at, redirect, redirs_from,
  parseredirs, add_arg, args_from, max_args,
}
use p.Xv6.Shell.Printer.{text, texts, print_args, plain, IsWord, Bare, mark}
use p.Xv6.Shell.Tokens.{
  among, first_in, peek_lem, Bare-IsWord, Bare-among, word_at, gettoken_word, text-word_at,
  gettoken_symbol,
}

-- What may follow a part of a pipe, and its redirections.
abbrev pub stops : List Byte → Bool
stops = among (b'|' ∷ b')' ∷ b'&' ∷ b';' ∷ [])

abbrev pub follows : List Byte → Bool
follows = among (b'|' ∷ b')' ∷ b'&' ∷ b';' ∷ b'<' ∷ b'>' ∷ [])

pub follows-stops : (s : List Byte) → stops s ≡ true → follows s ≡ true
unfolding strchr
follows-stops [] h = refl
follows-stops (c ∷ s) h = ground arith

-- No redirection is left.
pub redirs_from-stops :
    (g : ℕ) (cmd : Cmd Range) (s : List Byte)
    → 0 < g
    → Bare s
    → first_in (b'<' ∷ b'>' ∷ []) s ≡ false
    → redirs_from g cmd s ≡ done (cmd, s)
unfolding redirs_from
redirs_from-stops zero cmd s pos bare h = absurd (omega arith)
redirs_from-stops (suc g) cmd s pos bare h = rw (◌>>=◌, peek_lem (b'<' ∷ b'>' ∷ []) s bare, h) refl

pub first_in-stops : (s : List Byte) → stops s ≡ true → first_in (b'<' ∷ b'>' ∷ []) s ≡ false
unfolding strchr
first_in-stops [] h = refl
first_in-stops (c ∷ s) h = ground arith

first_in-plain :
    (c : Byte) (s : List Byte) → plain c ≡ true → first_in (b'<' ∷ b'>' ∷ []) (c ∷ s) ≡ false
unfolding strchr
first_in-plain c s h = ground arith

stop-plain :
    (c : Byte) (s : List Byte)
    → plain c ≡ true
    → first_in (b'|' ∷ b')' ∷ b'&' ∷ b';' ∷ []) (c ∷ s) ≡ false
unfolding strchr
stop-plain c s h = ground arith

pub first_in-IsWord : (w s : List Byte) → IsWord w → first_in (b'<' ∷ b'>' ∷ []) (w ++ s) ≡ false
first_in-IsWord [] s h = absurd (omega (arith, h.0))
first_in-IsWord (c ∷ w) s (pos, (p, ps)) = first_in-plain c (w ++ s) p

stop-IsWord :
    (w s : List Byte) → IsWord w → first_in (b'|' ∷ b')' ∷ b'&' ∷ b';' ∷ []) (w ++ s) ≡ false
stop-IsWord [] s h = absurd (omega (arith, h.0))
stop-IsWord (c ∷ w) s (pos, (p, ps)) = stop-plain c (w ++ s) p

-- A continuation that leaves the command as it is where a part of a pipe ends.
abbrev pub Quiet : (Cmd Range → Action (List Byte) (Cmd Range)) → Type 0
Quiet k = (cmd : Cmd Range) (s : List Byte) → stops s ≡ true → k cmd s ≡ done (cmd, s)

-- A redirection that was printed.
pub redirs_from-step :
    (g : ℕ) (cmd : Cmd Range) (mode : Word) (file rest : List Byte)
    → IsWord file
    → Bare rest
    → redirs_from (suc g) cmd (mark mode ∷ b' ' ∷ (file ++ (b' ' ∷ rest)))
      ≡ redirs_from g (redirect (mark mode) cmd (word_at file rest)) rest
unfolding redirs_from
redirs_from-step g cmd mode file rest w bare = elim (Bool-cases (mode == 0)) [
  | inl e ↦ rw e (
      chain b'<' (unfold skip_white strchr in refl) (unfold strchr in refl) (unfold strchr in refl))
  | inr e ↦ rw e (
      chain b'>' (unfold skip_white strchr in refl) (unfold strchr in refl) (unfold strchr in refl))
]
  where
    chain :
        (m : Byte)
        → Bare (m ∷ b' ' ∷ (file ++ (b' ' ∷ rest)))
        → contains (b'<' ∷ b'>' ∷ []) m ≡ true
        → contains symbols m ≡ true
        → redirs_from (suc g) cmd (m ∷ b' ' ∷ (file ++ (b' ' ∷ rest)))
          ≡ redirs_from g (redirect m cmd (word_at file rest)) rest
    chain m start known symbol =
        rw (◌>>=◌, peek_lem (b'<' ∷ b'>' ∷ []) _ start, known)
          (rw (◌>>=◌, gettoken_symbol m _ symbol (Bare-IsWord file (b' ' ∷ rest) w))
            (rw (◌>>=◌, gettoken_word file rest w bare) refl))

-- An argument that was printed.
pub args_from-step :
    (h argc : ℕ) (cmd : Cmd Range) (w rest : List Byte)
    → IsWord w
    → Bare rest
    → argc + 1 < max_args
    → args_from (suc h) argc cmd (w ++ (b' ' ∷ rest))
      ≡ (parseredirs (add_arg (word_at w rest) cmd) >>= args_from h (argc + 1)) rest
unfolding args_from
args_from-step h argc cmd w rest word bare room =
    let few : leb max_args (argc + 1) ≡ false = ground (arith, room) in
    rw
      (
        ◌>>=◌,
        peek_lem (b'|' ∷ b')' ∷ b'&' ∷ b';' ∷ []) _ (Bare-IsWord w (b' ' ∷ rest) word),
        stop-IsWord w (b' ' ∷ rest) word,
      )
      (rw (◌>>=◌, gettoken_word w rest word bare) (rw few refl))

pub args_from-Quiet : (h argc : ℕ) → Quiet (args_from (suc h) argc)
unfolding args_from
args_from-Quiet h argc cmd [] stop =
    rw (◌>>=◌, peek_lem (b'|' ∷ b')' ∷ b'&' ∷ b';' ∷ []) [] (unfold skip_white in refl))
      (rw (◌>>=◌, empty) refl)
  where
    empty : gettoken [] ≡ done (record { ret = 0; range = record { q = []; eq = [] } }, [])
    empty = unfold gettoken token_at skip_white in refl
args_from-Quiet h argc cmd (c ∷ s) stop =
    rw
      (
        ◌>>=◌,
        peek_lem (b'|' ∷ b')' ∷ b'&' ∷ b';' ∷ []) (c ∷ s)
            (Bare-among (c ∷ s) (follows-stops (c ∷ s) stop)),
        stop,
      )
      refl

-- The state of parseexec behind a part of a pipe: its command, with redirections still to be read and
-- arguments behind them.
pub record Reading (cmd : Cmd (List Byte)) (rest : List Byte) (o : Outcome (Cmd Range × List Byte))
    : Type 0 where
  pub parsed : Cmd Range
  pub same : texts parsed ≡ cmd
  pub fuel : ℕ
  pub enough : length rest < fuel
  pub next : Cmd Range → Action (List Byte) (Cmd Range)
  pub quiet : Quiet next
  pub result : o ≡ (redirs_from fuel parsed >>= next) rest

pub Bare-print_args :
    (args : List (List Byte)) (rest : List Byte)
    → All IsWord args
    → Bare rest
    → Bare (print_args args rest)
unfolding print_args
Bare-print_args [] rest h bare = bare
Bare-print_args (w ∷ args) rest (word, h) bare = Bare-IsWord w (b' ' ∷ print_args args rest) word

pub args-Reading :
    (args : List (List Byte)) (read : List Range) (argc h : ℕ) (rest : List Byte)
    → All IsWord args
    → Bare rest
    → argc + length args < max_args
    → length (print_args args rest) < h
    → Reading
        (exec (map text read ++ args))
        rest
        ((parseredirs (exec read) >>= args_from h argc) (print_args args rest))
unfolding print_args parseredirs add_arg
args-Reading args read argc zero rest words bare room enough = absurd (omega arith)
args-Reading [] read argc (suc h) rest words bare room enough = record {
  parsed = exec read;
  same = ap exec (sym (append-nil (map text read)));
  fuel = suc (length rest);
  enough = omega arith;
  next = args_from (suc h) argc;
  quiet = args_from-Quiet h argc;
  result = refl;
}
args-Reading (w ∷ args) read argc (suc h) rest (word, words) bare room enough =
    let later = print_args args rest in
    let more =
      args-Reading args (read ++ word_at w later ∷ []) (argc + 1) h rest words bare (omega arith)
        (omega (arith, length-append w (b' ' ∷ later))) in
    record {
      parsed = more.parsed;
      same = more.same ∙ ap exec (rw (map-append, append_assoc, text-word_at w later) refl);
      fuel = more.fuel;
      enough = more.enough;
      next = more.next;
      quiet = more.quiet;
      result =
          rw
            (
              ◌>>=◌,
              redirs_from-stops (suc (length (w ++ (b' ' ∷ later)))) (exec read) _ (omega arith)
                  (Bare-IsWord w (b' ' ∷ later) word) (first_in-IsWord w (b' ' ∷ later) word),
            )
            (args_from-step h argc (exec read) w later word (Bare-print_args args rest words bare)
              (omega arith))
          ∙ more.result;
    }

-- ===== src/Tests/Shell.antt =====
-- The parser of xv6/user/sh.c at fixed inputs, and the theorems on it.
use p.Prelude.{◌≡◌, ◌≢◌, ◌++◌, refl, inr, List, [], ◌∷◌, arith}
use p.Word.{Byte}
use p.Xv6.Outcome.{Outcome, done, panics, hangs}
use p.Xv6.Ulib.{strchr}
use p.Xv6.Shell.{
  Cmd, exec, redir, pipe, list, back, Range, parsecmd, parse_all, parseline, peek, skip_white,
  gettoken, token_at, parseredirs, redirs_from, parse_args, args_from, skip_word, parse_backs,
  backs_from, add_arg, redirect, nulterminate, terminate_args,
}
use p.Xv6.Shell.Printer.{texts, print, IsPrintable, IsWord}
use p.Xv6.Shell.Ends.{parsecmd-ends}
use p.Xv6.Shell.RoundTrip.{parsecmd-print}

abbrev ls : List Byte
ls = b'l' ∷ b's' ∷ []

abbrev wc : List Byte
wc = b'w' ∷ b'c' ∷ []

-- ls > ls | wc; (wc wc ls; ls) &
abbrev mixed : Cmd (List Byte)
mixed =
    list (pipe (redir (exec (ls ∷ [])) ls 0x201 1) (exec (wc ∷ [])))
      (back (list (exec (wc ∷ wc ∷ ls ∷ [])) (exec (ls ∷ []))))

-- ls|wc>ls
abbrev tight : List Byte
tight = ls ++ (b'|' ∷ wc) ++ (b'>' ∷ ls)

abbrev seen : Outcome (Cmd Range × List Byte) → Outcome (Cmd (List Byte) × List Byte)
seen o = elim o [ done (c, buf) ↦ done (texts c, buf) | panics ↦ panics | hangs ↦ hangs ]

tight_runs :
    seen (parsecmd tight)
    ≡ done (
      pipe (exec (ls ∷ [])) (redir (exec (wc ∷ [])) ls 0x201 1),
      ls ++ (0 ∷ wc) ++ (0 ∷ ls) ++ (0 ∷ []),
    )
unfolding parsecmd parse_all parseline peek skip_white strchr gettoken token_at parseredirs
    redirs_from parse_args args_from skip_word parse_backs backs_from add_arg redirect nulterminate
    terminate_args
tight_runs = refl

open_block_panics : parsecmd (b'(' ∷ ls) ≡ panics
unfolding parsecmd parse_all parseline peek skip_white strchr gettoken token_at parseredirs
    redirs_from parse_args args_from skip_word parse_backs backs_from
open_block_panics = refl

parsecmd-ends_example : parsecmd tight ≢ hangs
parsecmd-ends_example = parsecmd-ends tight

mixed-IsPrintable : IsPrintable mixed
unfolding strchr
mixed-IsPrintable =
    let l : IsWord ls = (omega arith, (refl, (refl, tt))) in
    let w : IsWord wc = (omega arith, (refl, (refl, tt))) in
    (
      (((omega arith, (l, tt)), l, inr (refl, refl)), (omega arith, (w, tt))),
      ((omega arith, (w, (w, (l, tt)))), (omega arith, (l, tt))),
    )

parsecmd-print_example :
    (c : Cmd Range) × (buf : List Byte) × (texts c ≡ mixed)
    × (parsecmd (print 3 mixed []) ≡ done (c, buf))
parsecmd-print_example = parsecmd-print mixed mixed-IsPrintable

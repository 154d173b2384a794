-- ===== src/Xv6/Shell/Atoms.antt =====
-- Programs and redirections are read back by the parser of xv6/user/sh.c.
use p.Prelude.{
  ℕ, zero, suc, ◌+◌, ◌*◌, ◌<◌, ◌≤◌, ◌≡◌, refl, sym, ap₂, ◌∙◌, ◌⊎◌, inl, inr, true, false,
  Bool-cases, List, [], ◌∷◌, ◌++◌, ◌==◌, ltb, length, length-append, All, arith,
}
use p.Word.{Word, Byte}
use p.Xv6.Outcome.{Outcome, done, ◌>>=◌}
use p.Xv6.Ulib.{strchr}
use p.Xv6.Shell.{
  Cmd, exec, redir, pipe, list, back, Range, skip_white, redirect, redirs_from, parseredirs,
  parse_args, max_args, parseexec,
}
use p.Xv6.Shell.Printer.{texts, print_args, print, IsWord, IsPrintable, Bare, mark}
use p.Xv6.Shell.Tokens.{first_in, peek_lem, Bare-IsWord, Bare-among, word_at, text-word_at}
use p.Xv6.Shell.Steps.{
  follows, redirs_from-stops, first_in-IsWord, redirs_from-step, args_from-Quiet, Reading,
  Bare-print_args, args-Reading,
}
use p.Xv6.Shell.Places.{Reads, piped-atom, backed-piped, line-backed}

Bare-mark : (mode : Word) (s : List Byte) → Bare (mark mode ∷ b' ' ∷ s)
unfolding skip_white strchr
Bare-mark mode s = elim (Bool-cases (mode == 0)) [ inl e ↦ rw e refl | inr e ↦ rw e refl ]

pub follows-mark : (mode : Word) (s : List Byte) → follows (mark mode ∷ b' ' ∷ s) ≡ true
unfolding strchr
follows-mark mode s = elim (Bool-cases (mode == 0)) [ inl e ↦ rw e refl | inr e ↦ rw e refl ]

pub Bare-print :
    (place : ℕ) (cmd : Cmd (List Byte)) (rest : List Byte)
    → IsPrintable cmd
    → Bare rest
    → Bare (print place cmd rest)
unfolding print strchr skip_white
Bare-print place (exec args) rest h bare = Bare-print_args args rest h.1 bare
Bare-print place (redir cmd file mode fd) rest h bare =
    Bare-print 0 cmd (mark mode ∷ b' ' ∷ (file ++ (b' ' ∷ rest))) h.0 (Bare-mark mode _)
Bare-print place (pipe left right) rest h bare =
    let whole = λ (r : List Byte). Bare-print 0 left (b'|' ∷ b' ' ∷ print 1 right r) h.0 refl in
    elim (Bool-cases (ltb place 1)) [ inl e ↦ rw e refl | inr e ↦ rw e (whole rest) ]
Bare-print place (back cmd) rest h bare =
    let whole = λ (r : List Byte). Bare-print 2 cmd (b'&' ∷ b' ' ∷ r) h refl in
    elim (Bool-cases (ltb place 2)) [ inl e ↦ rw e refl | inr e ↦ rw e (whole rest) ]
Bare-print place (list left right) rest h bare =
    let whole = λ (r : List Byte). Bare-print 2 left (b';' ∷ b' ' ∷ print 3 right r) h.0 refl in
    elim (Bool-cases (ltb place 3)) [ inl e ↦ rw e refl | inr e ↦ rw e (whole rest) ]

-- A command that is printed alike in every place.
pub Reads-atom :
    (cmd : Cmd (List Byte))
    → ((rest : List Byte) → print 1 cmd rest ≡ print 0 cmd rest)
    → ((rest : List Byte) → print 2 cmd rest ≡ print 1 cmd rest)
    → ((rest : List Byte) → print 3 cmd rest ≡ print 2 cmd rest)
    → ((fuel : ℕ) (rest : List Byte)
        → follows rest ≡ true
        → 4 * length (print 0 cmd rest) + 2 ≤ fuel
        → Reading cmd rest (parseexec fuel (print 0 cmd rest)))
    → Reads cmd
Reads-atom cmd one two three atom =
    let piped = piped-atom cmd one atom in
    let backed = backed-piped cmd two piped in
    record { atom = atom; piped = piped; backed = backed; line = line-backed cmd three backed }

no_paren-follows : (s : List Byte) → follows s ≡ true → first_in (b'(' ∷ []) s ≡ false
unfolding strchr
no_paren-follows [] h = refl
no_paren-follows (c ∷ s) h = ground arith

no_paren-IsWord : (w s : List Byte) → IsWord w → first_in (b'(' ∷ []) (w ++ s) ≡ false
unfolding strchr
no_paren-IsWord [] s h = absurd (omega (arith, h.0))
no_paren-IsWord (c ∷ w) s (pos, (p, ps)) = ground arith

pub exec-Reading :
    (args : List (List Byte)) (fuel : ℕ) (rest : List Byte)
    → length args < max_args
    → All IsWord args
    → follows rest ≡ true
    → 4 * length (print 0 (exec args) rest) + 2 ≤ fuel
    → Reading (exec args) rest (parseexec fuel (print 0 (exec args) rest))
unfolding parseexec print print_args parse_args
exec-Reading args zero rest room words h enough = absurd (omega arith)
exec-Reading [] (suc fuel) rest room words h enough = record {
  parsed = exec [];
  same = refl;
  fuel = suc (length rest);
  enough = omega arith;
  next = parse_args;
  quiet = λ c s stop. args_from-Quiet (length s) 0 c s stop;
  result =
      rw (◌>>=◌, peek_lem (b'(' ∷ []) rest (Bare-among rest h), no_paren-follows rest h)
        (unfold parseredirs in refl);
}
exec-Reading (w ∷ args) (suc fuel) rest room (word, words) h enough =
    let later = print_args args rest in
    let input = w ++ (b' ' ∷ later) in
    let bare = Bare-IsWord w (b' ' ∷ later) word in
    let no_redirs : parseredirs (exec []) input ≡ done (exec [], input) =
      unfold parseredirs in
      redirs_from-stops (suc (length input)) (exec []) input (omega arith) bare
        (first_in-IsWord w (b' ' ∷ later) word) in
    let more =
      args-Reading (w ∷ args) [] 0 (suc (length input)) rest (word, words) (Bare-among rest h)
        (omega arith) (omega arith) in
    record {
      parsed = more.parsed;
      same = more.same;
      fuel = more.fuel;
      enough = more.enough;
      next = more.next;
      quiet = more.quiet;
      result =
          rw (◌>>=◌, peek_lem (b'(' ∷ []) input bare, no_paren-IsWord w (b' ' ∷ later) word)
            (rw (◌>>=◌, no_redirs) (sym (rw (◌>>=◌, no_redirs) refl) ∙ more.result));
    }

-- A redirection is read behind its command.
pub redir-Reading :
    (cmd : Cmd (List Byte)) (file : List Byte) (mode fd : Word) (rest : List Byte)
    (o : Outcome (Cmd Range × List Byte))
    → IsWord file
    → ((mode ≡ 0) × (fd ≡ 0)) ⊎ ((mode ≡ 0x201) × (fd ≡ 1))
    → Bare rest
    → Reading cmd (mark mode ∷ b' ' ∷ (file ++ (b' ' ∷ rest))) o
    → Reading (redir cmd file mode fd) rest o
unfolding redirect
redir-Reading cmd file mode fd rest o word known bare r = go r.fuel r.enough r.result
  where
    behind : List Byte
    behind = mark mode ∷ b' ' ∷ (file ++ (b' ' ∷ rest))

    same : texts (redirect (mark mode) r.parsed (word_at file rest)) ≡ redir cmd file mode fd
    same = elim known [
      | inl (m, f) ↦ rw (m, f) (ap₂ (λ c w. redir c w 0 0) r.same (text-word_at file rest))
      | inr (m, f) ↦ rw (m, f) (ap₂ (λ c w. redir c w 0x201 1) r.same (text-word_at file rest))
    ]

    go :
        (g : ℕ)
        → length behind < g
        → o ≡ (redirs_from g r.parsed >>= r.next) behind
        → Reading (redir cmd file mode fd) rest o
    go zero lt e = absurd (omega arith)
    go (suc g) lt e = record {
      parsed = redirect (mark mode) r.parsed (word_at file rest);
      same = same;
      fuel = g;
      enough = omega (arith, length-append file (b' ' ∷ rest));
      next = r.next;
      quiet = r.quiet;
      result = e ∙ rw (◌>>=◌, redirs_from-step g r.parsed mode file rest word bare) refl;
    }

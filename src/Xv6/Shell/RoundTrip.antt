-- ===== src/Xv6/Shell/RoundTrip.antt =====
-- What was printed is read back by the parser of xv6/user/sh.c.
use p.Prelude.{
  ℕ, zero, suc, ◌+◌, ◌*◌, ◌<◌, ◌≤◌, ◌≡◌, refl, ap, ap₂, ◌∙◌, true, List, [], ◌∷◌, ◌++◌, length,
  arith,
}
use p.Word.{Byte}
use p.Xv6.Outcome.{done, ◌>>=◌}
use p.Xv6.Ulib.{strchr}
use p.Xv6.Shell.{
  Cmd, exec, redir, pipe, list, back, Range, skip_white, backs_from, parse_backs, parseline,
  parsepipe, parse_all, parsecmd, nulterminate,
}
use p.Xv6.Shell.Printer.{texts, print, IsPrintable, mark, length-print}
use p.Xv6.Shell.Tokens.{among, peek_lem, Bare-among, gettoken_symbol}
use p.Xv6.Shell.Steps.{follows-stops}
use p.Xv6.Shell.Places.{
  Parsed, BackReading, Reads, stops-piped, piped-line, Reading-stops, backs_from-stops,
  parseline_lem, piped-atom, backed-piped, line-backed, atom-line,
}
use p.Xv6.Shell.Atoms.{follows-mark, Bare-print, Reads-atom, exec-Reading, redir-Reading}

pipe-Parsed :
    (left right : Cmd (List Byte))
    → IsPrintable right
    → Reads left
    → Reads right
    → (fuel : ℕ) (rest : List Byte) → among (b')' ∷ b'&' ∷ b';' ∷ []) rest ≡ true
    → 4 * length (print 1 (pipe left right) rest) + 3 ≤ fuel
    → Parsed (pipe left right) rest (parsepipe fuel (print 1 (pipe left right) rest))
unfolding parsepipe print strchr skip_white
pipe-Parsed left right ok l r zero rest h enough = absurd (omega arith)
pipe-Parsed left right ok l r (suc fuel) rest h enough =
    let later = print 1 right rest in
    let bar : List Byte = b'|' ∷ b' ' ∷ later in
    let whole = length-print 0 left bar in
    let (a, t, e) = Reading-stops left bar _ (l.atom fuel bar refl (omega arith)) refl in
    let (b, u, f) = r.piped fuel rest h (omega arith) in
    (
      pipe a b,
      ap₂ pipe t u,
      rw (◌>>=◌, e)
          (rw (◌>>=◌, peek_lem (b'|' ∷ []) bar refl)
            (rw
              (
                ◌>>=◌,
                gettoken_symbol b'|' later refl (
                    Bare-print 1 right rest ok
                      (Bare-among rest (follows-stops rest (stops-piped rest h)))),
              )
              (rw (◌>>=◌, f) refl))),
    )

back-BackReading :
    (cmd : Cmd (List Byte))
    → Reads cmd
    → (fuel : ℕ) (rest : List Byte) → among (b')' ∷ b'&' ∷ b';' ∷ []) rest ≡ true
    → 4 * length (print 2 (back cmd) rest) + 3 ≤ fuel
    → BackReading (back cmd) rest ((parsepipe fuel >>= parse_backs) (print 2 (back cmd) rest))
unfolding print strchr skip_white backs_from
back-BackReading cmd r fuel rest h enough =
    let (c, g, t, lt, e) = r.backed fuel (b'&' ∷ b' ' ∷ rest) refl enough in go c t g lt e
  where
    go :
        (c : Cmd Range)
        → texts c ≡ cmd
        → (g : ℕ) → length (b'&' ∷ b' ' ∷ rest) < g
        → (parsepipe fuel >>= parse_backs) (print 2 (back cmd) rest)
          ≡ backs_from g c (b'&' ∷ b' ' ∷ rest)
        → BackReading (back cmd) rest ((parsepipe fuel >>= parse_backs) (print 2 (back cmd) rest))
    go c t zero lt e = absurd (omega arith)
    go c t (suc g) lt e = (
      back c,
      g,
      ap back t,
      omega arith,
      e
          ∙ rw (◌>>=◌, peek_lem (b'&' ∷ []) (b'&' ∷ b' ' ∷ rest) refl)
              (rw
                (
                  ◌>>=◌,
                  gettoken_symbol b'&' rest refl
                      (Bare-among rest (follows-stops rest (stops-piped rest h))),
                )
                refl),
    )

list-Parsed :
    (left right : Cmd (List Byte))
    → IsPrintable right
    → Reads left
    → Reads right
    → (fuel : ℕ) (rest : List Byte) → among (b')' ∷ []) rest ≡ true
    → 4 * length (print 3 (list left right) rest) + 4 ≤ fuel
    → Parsed (list left right) rest (parseline fuel (print 3 (list left right) rest))
unfolding print strchr skip_white
list-Parsed left right ok l r zero rest h enough = absurd (omega arith)
list-Parsed left right ok l r (suc fuel) rest h enough =
    let later = print 3 right rest in
    let semi : List Byte = b';' ∷ b' ' ∷ later in
    let whole = length-print 2 left semi in
    let (a, g, t, lt, e) = l.backed fuel semi refl (omega arith) in
    let (b, u, f) = r.line fuel rest h (omega arith) in
    (
      list a b,
      ap₂ list t u,
      parseline_lem fuel (print 2 left semi) semi a
            (e ∙ backs_from-stops g a semi (omega arith) refl refl)
          ∙ rw (◌>>=◌, peek_lem (b';' ∷ []) semi refl)
              (rw
                (
                  ◌>>=◌,
                  gettoken_symbol b';' later refl (
                      Bare-print 3 right rest ok (
                        Bare-among rest
                          (follows-stops rest (stops-piped rest (piped-line rest h))))),
                )
                (rw (◌>>=◌, f) refl)),
    )

Reads-IsPrintable : (cmd : Cmd (List Byte)) → IsPrintable cmd → Reads cmd
unfolding print
Reads-IsPrintable (exec args) h =
    Reads-atom (exec args) (λ rest. refl) (λ rest. refl) (λ rest. refl)
      (λ fuel rest f enough. exec-Reading args fuel rest h.0 h.1 f enough)
Reads-IsPrintable (redir cmd file mode fd) (h, w, known) =
    let inner = Reads-IsPrintable cmd h in
    Reads-atom (redir cmd file mode fd) (λ rest. refl) (λ rest. refl) (λ rest. refl)
      (λ fuel rest f enough. redir-Reading cmd file mode fd rest _ w known (Bare-among rest f) (
        inner.atom fuel (mark mode ∷ b' ' ∷ (file ++ (b' ' ∷ rest)))
          (follows-mark mode (file ++ (b' ' ∷ rest))) enough))
Reads-IsPrintable (pipe left right) (h, k) =
    let cmd = pipe left right in
    let piped = pipe-Parsed left right k (Reads-IsPrintable left h) (Reads-IsPrintable right k) in
    let backed = backed-piped cmd (λ rest. refl) piped in
    let line = line-backed cmd (λ rest. refl) backed in
    record {
      atom = atom-line cmd (λ rest. refl) (λ rest bare. Bare-print 3 cmd rest (h, k) bare) line;
      piped = piped;
      backed = backed;
      line = line;
    }
Reads-IsPrintable (back c) h =
    let cmd = back c in
    let backed = back-BackReading c (Reads-IsPrintable c h) in
    let line = line-backed cmd (λ rest. refl) backed in
    let atom = atom-line cmd (λ rest. refl) (λ rest bare. Bare-print 3 cmd rest h bare) line in
    record { atom = atom; piped = piped-atom cmd (λ rest. refl) atom; backed = backed; line = line }
Reads-IsPrintable (list left right) (h, k) =
    let cmd = list left right in
    let line = list-Parsed left right k (Reads-IsPrintable left h) (Reads-IsPrintable right k) in
    let atom = atom-line cmd (λ rest. refl) (λ rest bare. Bare-print 3 cmd rest (h, k) bare) line in
    let piped = piped-atom cmd (λ rest. refl) atom in
    record {
      atom = atom;
      piped = piped;
      backed = backed-piped cmd (λ rest. refl) piped;
      line = line;
    }

parsecmd_lem :
    (line : List Byte) (c : Cmd Range)
    → parseline (4 * length line + 4) line ≡ done (c, [])
    → parsecmd line ≡ done (c, nulterminate (length line) c (line ++ (0 ∷ [])))
unfolding parsecmd parse_all
parsecmd_lem line c e =
    rw (parsecmd, parse_all, ◌>>=◌, e) (rw (◌>>=◌, peek_lem [] [] (unfold skip_white in refl)) refl)

-- A command with fewer than MAXARGS arguments each time, strings without white space and symbols, and the
-- redirections that the shell knows, is written as a line, with parentheses where they are needed; parsecmd
-- of the line gives a command with the same structure, whose strings lie in the line as they were written.
pub parsecmd-print :
    (cmd : Cmd (List Byte))
    → IsPrintable cmd
    → (c : Cmd Range) × (buf : List Byte) × (texts c ≡ cmd)
      × (parsecmd (print 3 cmd []) ≡ done (c, buf))
parsecmd-print cmd h =
    let line = print 3 cmd [] in
    let (c, t, e) = (Reads-IsPrintable cmd h).line (4 * length line + 4) [] refl (omega arith) in
    (c, nulterminate (length line) c (line ++ (0 ∷ [])), t, parsecmd_lem line c e)

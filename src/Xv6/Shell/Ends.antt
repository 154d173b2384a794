-- ===== src/Xv6/Shell/Ends.antt =====
-- The parser of xv6/user/sh.c ends on every line.
use p.Prelude.{
  ℕ, zero, suc, ◌+◌, ◌*◌, ◌<◌, ◌≤◌, ◌≢◌, inl, inr, Bool-cases, List, [], ◌∷◌, ◌++◌, ◌==◌, leb,
  length, arith,
}
use p.Word.{Byte}
use p.Xv6.Outcome.{Outcome, done, panics, hangs, Action, pure, panic}
use p.Xv6.Shell.{
  Cmd, exec, back, Range, gettoken, peek, redirect, redirs_from, parseredirs, add_arg, args_from,
  parse_args, backs_from, parse_backs, parseline, parsepipe, parseexec, parseblock, parse_all,
  parsecmd, nulterminate, max_args,
}
use p.Xv6.Shell.Leaves.{Holds, Holds-bind, Peeked, Taken, Left, peek-Peeked, gettoken-Taken}

-- A bound on what is left may be weakened.
Left-le :
    (n m : ℕ) (o : Outcome (Cmd Range × List Byte)) → n ≤ m → Holds (Left n) o → Holds (Left m) o
Left-le n m (done (c, r)) le h = omega arith
Left-le n m panics le h = h
Left-le n m hangs le h = h

redirs_from-Left :
    (fuel : ℕ) (cmd : Cmd Range) (s : List Byte)
    → length s < fuel
    → Holds (Left (length s)) (redirs_from fuel cmd s)
unfolding redirs_from
redirs_from-Left zero cmd s lt = absurd (omega arith)
redirs_from-Left (suc fuel) cmd s lt =
    Holds-bind (Peeked s) (Left (length s)) (peek _) _ s (peek-Peeked _ s) λ b r (le, filled).
      elim (Bool-cases b) [
        | inr e ↦ rw e le
        | inl e ↦ rw e (
            Holds-bind (Taken r) (Left (length s)) gettoken _ r (gettoken-Taken r) λ tok r1 t1.
              Holds-bind (Taken r1) (Left (length s)) gettoken _ r1 (gettoken-Taken r1)
                λ file r2 t2. elim (Bool-cases (file.ret == b'a')) [
                  | inr g ↦ rw g tt
                  | inl g ↦ rw g (
                      Left-le (length r2) (length s) _ (omega (arith, t1.0, t2.0)) (
                        redirs_from-Left fuel (redirect tok.ret cmd file.range) r2
                          (omega (arith, t1.1 (filled e), t2.0))))
                ])
      ]

backs_from-Left :
    (fuel : ℕ) (cmd : Cmd Range) (s : List Byte)
    → length s < fuel
    → Holds (Left (length s)) (backs_from fuel cmd s)
unfolding backs_from
backs_from-Left zero cmd s lt = absurd (omega arith)
backs_from-Left (suc fuel) cmd s lt =
    Holds-bind (Peeked s) (Left (length s)) (peek _) _ s (peek-Peeked _ s) λ b r (le, filled).
      elim (Bool-cases b) [
        | inr e ↦ rw e le
        | inl e ↦ rw e (
            Holds-bind (Taken r) (Left (length s)) gettoken _ r (gettoken-Taken r) λ tok r1 t1.
              Left-le (length r1) (length s) _ (omega (arith, t1.0))
                (backs_from-Left fuel (back cmd) r1 (omega (arith, t1.1 (filled e)))))
      ]

args_from-Left :
    (fuel argc : ℕ) (cmd : Cmd Range) (s : List Byte)
    → length s < fuel
    → Holds (Left (length s)) (args_from fuel argc cmd s)
unfolding args_from parseredirs
args_from-Left zero argc cmd s lt = absurd (omega arith)
args_from-Left (suc fuel) argc cmd s lt =
    Holds-bind (Peeked s) (Left (length s)) (peek _) _ s (peek-Peeked _ s) λ b r (le, filled).
      elim (Bool-cases b) [
        | inl e ↦ rw e le
        | inr e ↦ rw e (
            Holds-bind (Taken r) (Left (length s)) gettoken _ r (gettoken-Taken r) λ tok r1 t1.
              elim (Bool-cases (tok.ret == 0)) [
                | inl z ↦ rw z (omega (arith, t1.0))
                | inr z ↦ elim (Bool-cases (tok.ret == b'a')) [
                  | inr g ↦ rw (z, g) tt
                  | inl g ↦ elim (Bool-cases (leb max_args (argc + 1))) [
                    | inl m ↦ rw (z, g, m) tt
                    | inr m ↦
                        let less = t1.2 (λ q. ground (arith, q, z)) in
                        rw (z, g, m)
                          (Holds-bind (Left (length r1)) (Left (length s)) (parseredirs _) _ r1
                            (redirs_from-Left (suc (length r1)) (add_arg tok.range cmd) r1
                              (omega arith))
                            λ cmd' r2 t2.
                              Left-le (length r2) (length s) _ (omega arith)
                                (args_from-Left fuel (argc + 1) cmd' r2 (omega arith)))
                  ]
                ]
              ])
      ]

mutual
  unfolding parseline parsepipe parseexec parseblock parse_backs parseredirs parse_args

  parseline-Left :
      (fuel : ℕ) (s : List Byte)
      → 4 * length s + 4 ≤ fuel
      → Holds (Left (length s)) (parseline fuel s)
  parseline-Left zero s enough = absurd (omega arith)
  parseline-Left (suc fuel) s enough =
      Holds-bind (Left (length s)) (Left (length s)) (parsepipe fuel) _ s
        (parsepipe-Left fuel s (omega arith))
        λ left r le.
          Holds-bind (Left (length r)) (Left (length s)) (parse_backs left) _ r
            (backs_from-Left (suc (length r)) left r (omega arith))
            λ cmd r1 le1.
              Holds-bind (Peeked r1) (Left (length s)) (peek _) _ r1 (peek-Peeked _ r1)
                λ b r2 (le2, filled). elim (Bool-cases b) [
                  | inr e ↦ rw e (omega arith)
                  | inl e ↦ rw e (
                      Holds-bind (Taken r2) (Left (length s)) gettoken _ r2 (gettoken-Taken r2)
                        λ tok r3 t3.
                          Holds-bind (Left (length r3)) (Left (length s)) (parseline fuel) _ r3
                            (parseline-Left fuel r3 (omega (arith, t3.1 (filled e))))
                            λ right r4 le4. omega (arith, t3.0))
                ]

  parsepipe-Left :
      (fuel : ℕ) (s : List Byte)
      → 4 * length s + 3 ≤ fuel
      → Holds (Left (length s)) (parsepipe fuel s)
  parsepipe-Left zero s enough = absurd (omega arith)
  parsepipe-Left (suc fuel) s enough =
      Holds-bind (Left (length s)) (Left (length s)) (parseexec fuel) _ s
        (parseexec-Left fuel s (omega arith))
        λ cmd r le.
          Holds-bind (Peeked r) (Left (length s)) (peek _) _ r (peek-Peeked _ r)
            λ b r2 (le2, filled). elim (Bool-cases b) [
              | inr e ↦ rw e (omega arith)
              | inl e ↦ rw e (
                  Holds-bind (Taken r2) (Left (length s)) gettoken _ r2 (gettoken-Taken r2)
                    λ tok r3 t3.
                      Holds-bind (Left (length r3)) (Left (length s)) (parsepipe fuel) _ r3
                        (parsepipe-Left fuel r3 (omega (arith, t3.1 (filled e))))
                        λ right r4 le4. omega (arith, t3.0))
            ]

  parseexec-Left :
      (fuel : ℕ) (s : List Byte)
      → 4 * length s + 2 ≤ fuel
      → Holds (Left (length s)) (parseexec fuel s)
  parseexec-Left zero s enough = absurd (omega arith)
  parseexec-Left (suc fuel) s enough =
      Holds-bind (Peeked s) (Left (length s)) (peek _) _ s (peek-Peeked _ s) λ b r (le, filled).
        elim (Bool-cases b) [
          | inl e ↦ rw e (Left-le (length r) (length s) _ le (parseblock-Left fuel r (omega arith)))
          | inr e ↦ rw e (
              Holds-bind (Left (length r)) (Left (length s)) (parseredirs (exec [])) _ r
                (redirs_from-Left (suc (length r)) (exec []) r (omega arith))
                λ cmd r2 t2.
                  Left-le (length r2) (length s) _ (omega arith)
                    (args_from-Left (suc (length r2)) 0 cmd r2 (omega arith)))
        ]

  parseblock-Left :
      (fuel : ℕ) (s : List Byte)
      → 4 * length s + 1 ≤ fuel
      → Holds (Left (length s)) (parseblock fuel s)
  parseblock-Left zero s enough = absurd (omega arith)
  parseblock-Left (suc fuel) s enough =
      Holds-bind (Peeked s) (Left (length s)) (peek _) _ s (peek-Peeked _ s) λ b r (le, filled).
        elim (Bool-cases b) [
          | inr e ↦ rw e tt
          | inl e ↦ rw e (
              Holds-bind (Taken r) (Left (length s)) gettoken _ r (gettoken-Taken r) λ tok r1 t1.
                Holds-bind (Left (length r1)) (Left (length s)) (parseline fuel) _ r1
                  (parseline-Left fuel r1 (omega (arith, t1.1 (filled e))))
                  λ cmd r2 le2.
                    Holds-bind (Peeked r2) (Left (length s)) (peek _) _ r2 (peek-Peeked _ r2)
                      λ b2 r3 (le3, filled3). elim (Bool-cases b2) [
                        | inr g ↦ rw g tt
                        | inl g ↦ rw g (
                            Holds-bind (Taken r3) (Left (length s)) gettoken _ r3
                              (gettoken-Taken r3)
                              λ tok2 r4 t4.
                                Left-le (length r4) (length s) _ (omega (arith, t4.0, t1.0))
                                  (redirs_from-Left (suc (length r4)) cmd r4 (omega arith)))
                      ])
        ]

parse_all-Left :
    (fuel : ℕ) (s : List Byte)
    → 4 * length s + 4 ≤ fuel
    → Holds (λ cmd r. Unit {0}) (parse_all fuel s)
unfolding parse_all
parse_all-Left fuel s enough =
    Holds-bind (Left (length s)) (λ cmd r. Unit {0}) (parseline fuel) _ s
      (parseline-Left fuel s enough)
      λ cmd r le.
        Holds-bind (Peeked r) (λ cmd r. Unit {0}) (peek []) _ r (peek-Peeked [] r)
          λ b r1 le1. rest cmd r1 r1
  where
    rest :
        (cmd : Cmd Range) (left r : List Byte)
        → Holds
            (λ c r. Unit {0})
            ((elim left as (λ x. Action (List Byte) (Cmd Range)) [ [] ↦ pure cmd | c ∷ s ↦ panic ])
              r)
    rest cmd [] r = tt
    rest cmd (c ∷ s) r = tt

-- parsecmd ends on every line, whatever it holds: it gives a command and the line, or it prints a message
-- and exits; the fuel for its calls is enough.
pub parsecmd-ends : (s : List Byte) → parsecmd s ≢ hangs
unfolding parsecmd
parsecmd-ends s =
    after (parse_all (4 * length s + 4) s) (parse_all-Left (4 * length s + 4) s (omega arith))
  where
    after :
        (o : Outcome (Cmd Range × List Byte))
        → Holds (λ cmd r. Unit {0}) o
        → (let r : Outcome (Cmd Range × List Byte) = elim o [
          | done (cmd, rest) ↦ done (cmd, nulterminate (length s) cmd (s ++ 0 ∷ []))
          | panics ↦ panics
          | hangs ↦ hangs
        ] in
            r ≢ hangs)
    after (done (cmd, rest)) h = λ e. cc
    after panics h = λ e. cc
    after hangs h = λ e. h

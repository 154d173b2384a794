-- ===== src/Xv6/Shell/Places.antt =====
-- The places of a command in the grammar of xv6/user/sh.c: what is read in one is read in the next.
use p.Prelude.{
  ℕ, zero, suc, ◌+◌, ◌*◌, ◌<◌, ◌≤◌, ◌≡◌, refl, sym, ap, ◌∙◌, true, false, List, [], ◌∷◌, length,
  arith,
}
use p.Word.{Byte}
use p.Xv6.Outcome.{Outcome, done, panics, hangs, Action, pure, ◌>>=◌, ◌>>◌}
use p.Xv6.Ulib.{strchr}
use p.Xv6.Shell.{
  Cmd, list, Range, contains, skip_white, gettoken, peek, redirs_from, parseredirs, backs_from,
  parse_backs, parseline, parsepipe, parseexec, parseblock,
}
use p.Xv6.Shell.Printer.{texts, print, Bare}
use p.Xv6.Shell.Tokens.{among, first_in, peek_lem, Bare-among, gettoken_symbol}
use p.Xv6.Shell.Steps.{stops, follows, follows-stops, redirs_from-stops, first_in-stops, Reading}

-- The action read the command, and left the rest.
abbrev pub Parsed : Cmd (List Byte) → List Byte → Outcome (Cmd Range × List Byte) → Type 0
Parsed cmd rest o = (c : Cmd Range) × (texts c ≡ cmd) × (o ≡ done (c, rest))

-- Before '&', and the '&'s behind.
abbrev pub BackReading : Cmd (List Byte) → List Byte → Outcome (Cmd Range × List Byte) → Type 0
BackReading cmd rest o =
    (c : Cmd Range) × (g : ℕ) × (texts c ≡ cmd) × (length rest < g) × (o ≡ backs_from g c rest)

-- What the parser makes of the command, printed for each place.
pub record Reads (cmd : Cmd (List Byte)) : Type 0 where
  pub atom :
      (fuel : ℕ) (rest : List Byte)
      → follows rest ≡ true
      → 4 * length (print 0 cmd rest) + 2 ≤ fuel
      → Reading cmd rest (parseexec fuel (print 0 cmd rest))
  pub piped :
      (fuel : ℕ) (rest : List Byte)
      → among (b')' ∷ b'&' ∷ b';' ∷ []) rest ≡ true
      → 4 * length (print 1 cmd rest) + 3 ≤ fuel
      → Parsed cmd rest (parsepipe fuel (print 1 cmd rest))
  pub backed :
      (fuel : ℕ) (rest : List Byte)
      → among (b')' ∷ b'&' ∷ b';' ∷ []) rest ≡ true
      → 4 * length (print 2 cmd rest) + 3 ≤ fuel
      → BackReading cmd rest ((parsepipe fuel >>= parse_backs) (print 2 cmd rest))
  pub line :
      (fuel : ℕ) (rest : List Byte)
      → among (b')' ∷ []) rest ≡ true
      → 4 * length (print 3 cmd rest) + 4 ≤ fuel
      → Parsed cmd rest (parseline fuel (print 3 cmd rest))

pub stops-piped : (s : List Byte) → among (b')' ∷ b'&' ∷ b';' ∷ []) s ≡ true → stops s ≡ true
unfolding strchr
stops-piped [] h = refl
stops-piped (c ∷ s) h = ground arith

pub piped-line :
    (s : List Byte) → among (b')' ∷ []) s ≡ true → among (b')' ∷ b'&' ∷ b';' ∷ []) s ≡ true
unfolding strchr
piped-line [] h = refl
piped-line (c ∷ s) h = ground arith

-- A part of a pipe is read whole where it ends.
pub Reading-stops :
    (cmd : Cmd (List Byte)) (rest : List Byte) (o : Outcome (Cmd Range × List Byte))
    → Reading cmd rest o
    → stops rest ≡ true
    → Parsed cmd rest o
Reading-stops cmd rest o r stop = (
  r.parsed,
  r.same,
  r.result
      ∙ rw
          (
            ◌>>=◌,
            redirs_from-stops r.fuel r.parsed rest (omega (arith, r.enough))
                (Bare-among rest (follows-stops rest stop)) (first_in-stops rest stop),
          )
          refl
      ∙ r.quiet r.parsed rest stop,
)

pub first_in-among :
    (set other s : List Byte)
    → ((c : Byte) → contains set c ≡ true → contains other c ≡ false)
    → among set s ≡ true
    → first_in other s ≡ false
first_in-among set other [] apart h = refl
first_in-among set other (c ∷ s) apart h = apart c h

no_bar : (c : Byte) → contains (b')' ∷ b'&' ∷ b';' ∷ []) c ≡ true → contains (b'|' ∷ []) c ≡ false
unfolding strchr
no_bar c h = ground arith

no_amp : (c : Byte) → contains (b')' ∷ b';' ∷ []) c ≡ true → contains (b'&' ∷ []) c ≡ false
unfolding strchr
no_amp c h = ground arith

no_semi : (c : Byte) → contains (b')' ∷ []) c ≡ true → contains (b';' ∷ []) c ≡ false
unfolding strchr
no_semi c h = ground arith

pub backs_from-stops :
    (g : ℕ) (c : Cmd Range) (rest : List Byte)
    → 0 < g
    → among (b')' ∷ b';' ∷ []) rest ≡ true
    → Bare rest
    → backs_from g c rest ≡ done (c, rest)
unfolding backs_from
backs_from-stops zero c rest pos h bare = absurd (omega arith)
backs_from-stops (suc g) c rest pos h bare =
    rw (◌>>=◌, peek_lem (b'&' ∷ []) rest bare, first_in-among _ (b'&' ∷ []) rest no_amp h) refl

-- parseline behind its '&'s.
abbrev pub line_tail : ℕ → Cmd Range → Action (List Byte) (Cmd Range)
line_tail fuel cmd = peek (b';' ∷ []) >>= λ more. elim more [
  | false ↦ pure cmd
  | true ↦ gettoken >> (parseline fuel >>= λ right. pure (list cmd right))
]

pub parseline_lem :
    (fuel : ℕ) (s rest : List Byte) (c : Cmd Range)
    → (parsepipe fuel >>= parse_backs) s ≡ done (c, rest)
    → parseline (suc fuel) s ≡ line_tail fuel c rest
unfolding parseline
parseline_lem fuel s rest c e = go (parsepipe fuel s) refl
  where
    go :
        (o : Outcome (Cmd Range × List Byte))
        → parsepipe fuel s ≡ o
        → parseline (suc fuel) s ≡ line_tail fuel c rest
    go (done (l, r)) p =
        let later : parse_backs l r ≡ done (c, rest) = sym (rw (◌>>=◌, p) refl) ∙ e in
        rw (parseline, ◌>>=◌, p) (rw (◌>>=◌, later) refl)
    go panics p =
        let none : ◌≡◌ {A = Outcome (Cmd Range × List Byte)} panics (done (c, rest)) =
          sym (rw (◌>>=◌, p) refl) ∙ e in
        cc
    go hangs p =
        let none : ◌≡◌ {A = Outcome (Cmd Range × List Byte)} hangs (done (c, rest)) =
          sym (rw (◌>>=◌, p) refl) ∙ e in
        cc

among-backs : (s : List Byte) → among (b')' ∷ []) s ≡ true → among (b')' ∷ b';' ∷ []) s ≡ true
unfolding strchr
among-backs [] h = refl
among-backs (c ∷ s) h = ground arith

Bare-line : (s : List Byte) → among (b')' ∷ []) s ≡ true → Bare s
Bare-line s h = Bare-among s (follows-stops s (stops-piped s (piped-line s h)))

bind_pure : (m : Action (List Byte) (Cmd Range)) (s : List Byte) → (m >>= λ r. pure r) s ≡ m s
bind_pure m s = go (m s)
  where
    go :
        (o : Outcome (Cmd Range × List Byte))
        → (let r : Outcome (Cmd Range × List Byte) = elim o [
          | done (a, t) ↦ done (a, t)
          | panics ↦ panics
          | hangs ↦ hangs
        ] in
            r ≡ o)
    go (done (a, t)) = refl
    go panics = refl
    go hangs = refl

-- A line in parentheses.
block :
    (fuel : ℕ) (c : Cmd Range) (rest inside : List Byte)
    → Bare (b'(' ∷ b' ' ∷ inside)
    → Bare inside
    → Bare (b')' ∷ b' ' ∷ rest)
    → Bare rest
    → parseline fuel inside ≡ done (c, b')' ∷ b' ' ∷ rest)
    → parseblock (suc fuel) (b'(' ∷ b' ' ∷ inside) ≡ redirs_from (suc (length rest)) c rest
unfolding parseblock parseredirs strchr
block fuel c rest inside start bare closed_bare rest_bare e =
    rw (◌>>=◌, peek_lem (b'(' ∷ []) _ start)
      (rw (◌>>=◌, gettoken_symbol b'(' inside refl bare)
        (rw (◌>>=◌, e)
          (rw (◌>>=◌, peek_lem (b')' ∷ []) _ closed_bare)
            (rw (◌>>=◌, gettoken_symbol b')' rest refl rest_bare) refl))))

-- From one place to the next, where the text is the same.
module _ (cmd : Cmd (List Byte)) where
  pub piped-atom :
      ((rest : List Byte) → print 1 cmd rest ≡ print 0 cmd rest)
      → ((fuel : ℕ) (rest : List Byte)
          → follows rest ≡ true
          → 4 * length (print 0 cmd rest) + 2 ≤ fuel
          → Reading cmd rest (parseexec fuel (print 0 cmd rest)))
      → (fuel : ℕ) (rest : List Byte) → among (b')' ∷ b'&' ∷ b';' ∷ []) rest ≡ true
      → 4 * length (print 1 cmd rest) + 3 ≤ fuel
      → Parsed cmd rest (parsepipe fuel (print 1 cmd rest))
  unfolding parsepipe
  piped-atom same atom zero rest h enough = absurd (omega arith)
  piped-atom same atom (suc fuel) rest h enough =
      let stop = stops-piped rest h in
      let (c, t, e) =
        Reading-stops cmd rest _
          (atom fuel rest (follows-stops rest stop) (omega (arith, ap length (same rest)))) stop in
      (
        c,
        t,
        rw (same rest) (
            rw (◌>>=◌, e)
              (rw
                (
                  ◌>>=◌,
                  peek_lem (b'|' ∷ []) rest (Bare-among rest (follows-stops rest stop)),
                  first_in-among _ (b'|' ∷ []) rest no_bar h,
                )
                refl)),
      )

  pub backed-piped :
      ((rest : List Byte) → print 2 cmd rest ≡ print 1 cmd rest)
      → ((fuel : ℕ) (rest : List Byte)
          → among (b')' ∷ b'&' ∷ b';' ∷ []) rest ≡ true
          → 4 * length (print 1 cmd rest) + 3 ≤ fuel
          → Parsed cmd rest (parsepipe fuel (print 1 cmd rest)))
      → (fuel : ℕ) (rest : List Byte) → among (b')' ∷ b'&' ∷ b';' ∷ []) rest ≡ true
      → 4 * length (print 2 cmd rest) + 3 ≤ fuel
      → BackReading cmd rest ((parsepipe fuel >>= parse_backs) (print 2 cmd rest))
  unfolding parse_backs
  backed-piped same piped fuel rest h enough =
      let (c, t, e) = piped fuel rest h (omega (arith, ap length (same rest))) in
      (c, suc (length rest), t, omega arith, rw (same rest) (rw (◌>>=◌, e) refl))

  pub line-backed :
      ((rest : List Byte) → print 3 cmd rest ≡ print 2 cmd rest)
      → ((fuel : ℕ) (rest : List Byte)
          → among (b')' ∷ b'&' ∷ b';' ∷ []) rest ≡ true
          → 4 * length (print 2 cmd rest) + 3 ≤ fuel
          → BackReading cmd rest ((parsepipe fuel >>= parse_backs) (print 2 cmd rest)))
      → (fuel : ℕ) (rest : List Byte) → among (b')' ∷ []) rest ≡ true
      → 4 * length (print 3 cmd rest) + 4 ≤ fuel
      → Parsed cmd rest (parseline fuel (print 3 cmd rest))
  unfolding parseline
  line-backed same backed zero rest h enough = absurd (omega arith)
  line-backed same backed (suc fuel) rest h enough =
      let (c, g, t, more, e) =
        backed fuel rest (piped-line rest h) (omega (arith, ap length (same rest))) in
      let whole =
        e ∙ backs_from-stops g c rest (omega arith) (among-backs rest h) (Bare-line rest h) in
      (
        c,
        t,
        ap (parseline (suc fuel)) (same rest)
            ∙ parseline_lem fuel (print 2 cmd rest) rest c whole
            ∙ rw
                (
                  ◌>>=◌,
                  peek_lem (b';' ∷ []) rest (Bare-line rest h),
                  first_in-among _ (b';' ∷ []) rest no_semi h,
                )
                refl,
      )

  -- In parentheses.
  pub atom-line :
      ((rest : List Byte) → print 0 cmd rest ≡ b'(' ∷ b' ' ∷ print 3 cmd (b')' ∷ b' ' ∷ rest))
      → ((rest : List Byte) → Bare rest → Bare (print 3 cmd rest))
      → ((fuel : ℕ) (rest : List Byte)
          → among (b')' ∷ []) rest ≡ true
          → 4 * length (print 3 cmd rest) + 4 ≤ fuel
          → Parsed cmd rest (parseline fuel (print 3 cmd rest)))
      → (fuel : ℕ) (rest : List Byte) → follows rest ≡ true
      → 4 * length (print 0 cmd rest) + 2 ≤ fuel
      → Reading cmd rest (parseexec fuel (print 0 cmd rest))
  unfolding parseexec strchr
  atom-line same bare line zero rest h enough = absurd (omega arith)
  atom-line same bare line (suc zero) rest h enough = absurd (omega (arith, ap length (same rest)))
  atom-line same bare line (suc (suc fuel)) rest h enough =
      let closed : List Byte = b')' ∷ b' ' ∷ rest in
      let inside = print 3 cmd closed in
      let closed_bare : Bare closed = unfold skip_white strchr in refl in
      let start : Bare (b'(' ∷ b' ' ∷ inside) = unfold skip_white strchr in refl in
      let (c, t, e) =
        line fuel closed (unfold strchr in refl) (omega (arith, ap length (same rest))) in
      record {
        parsed = c;
        same = t;
        fuel = suc (length rest);
        enough = omega arith;
        next = λ r. pure r;
        quiet = λ r s stop. refl;
        result =
            ap (parseexec (suc (suc fuel))) (same rest)
            ∙ rw (◌>>=◌, peek_lem (b'(' ∷ []) _ start)
                (block fuel c rest inside start (bare closed closed_bare) closed_bare
                  (Bare-among rest h) e)
            ∙ sym (bind_pure (redirs_from (suc (length rest)) c) rest);
      }

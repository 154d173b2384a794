-- ===== src/Xv6/Sysfile/Returning.antt =====
-- What the actions of the kernel leave where they return, and how that is put together.
use p.Prelude.{ℕ, ◌≡◌, sym, subst, Option, none, some, List}
use p.Word.{Word, minus_one}
use p.Xv6.Outcome.{Outcome, done, panics, hangs, Action, pure, ◌>>=◌}
use p.Xv6.Fs.Icache.{Fs}
use p.Xv6.Ftable.{File, Files, on_fs}
use p.Xv6.Sysfile.Calls.{Task, on_files, or_fail}

-- If the action returns, Q holds of its result and of the state.
abbrev pub If : {S A : Type 0} → (A → S → Type 0) → Outcome (A × S) → Type 0
If Q (done (a, t)) = Q a t
If Q panics = Unit
If Q hangs = Unit

abbrev pub Keeps : {S A : Type 0} → (S → Type 0) → (A → S → Type 0) → Action S A → Type 0
Keeps {S} P Q m = (s : S) → P s → If Q (m s)

pub Keeps_done :
    {S A : Type 0} (Q : A → S → Type 0) (o : Outcome (A × S)) (a : A) (t : S)
    → o ≡ done (a, t)
    → Q a t
    → If Q o
Keeps_done Q o a t e q = subst (λ o. If Q o) (sym e) q

pub Keeps-bind :
    {S A B : Type 0} (P : S → Type 0) (Q : A → S → Type 0) (R : B → S → Type 0) (m : Action S A)
    (k : A → Action S B)
    → Keeps P Q m
    → ((a : A) → Keeps (Q a) R (k a))
    → Keeps P R (m >>= k)
Keeps-bind {S} {A} {B} P Q R m k h g s p = after (m s) (h s p)
  where
    after :
        (o : Outcome (A × S))
        → If Q o
        → If R (elim o [ done (a, t) ↦ k a t | panics ↦ panics | hangs ↦ hangs ])
    after (done (a, t)) q = g a t q
    after panics q = tt
    after hangs q = tt

-- Code of fs.c changes neither the file table nor the descriptors.
module _ {A : Type 0} (P : List File → Type 0) (m : Action Fs A) where
  pub on_fs-Keeps : Keeps (λ (s : Files). P s.table) (λ a t. P t.table) (on_fs m)
  on_fs-Keeps s p = after (m s.fs)
    where
      after :
          (o : Outcome (A × Fs))
          → If
              (λ (a : A) (t : Files). P t.table)
              (elim o [
                | done (a, fs) ↦ done (a, record s { fs = fs })
                | panics ↦ panics
                | hangs ↦ hangs
              ])
      after (done (a, fs)) = p
      after panics = tt
      after hangs = tt

module _ {A : Type 0} (P : Files → List (Option ℕ) → Type 0)
    (Q : A → Files → List (Option ℕ) → Type 0) (m : Action Files A) where
  pub on_files-Keeps :
      ((ofile : List (Option ℕ)) → Keeps (λ s. P s ofile) (λ a t. Q a t ofile) m)
      → Keeps (λ (s : Task). P s.files s.ofile) (λ a t. Q a t.files t.ofile) (on_files m)
  on_files-Keeps h s p = after (m s.files) (h s.ofile s.files p)
    where
      after :
          (o : Outcome (A × Files))
          → If (λ a t. Q a t s.ofile) o
          → If
              (λ (a : A) (t : Task). Q a t.files t.ofile)
              (elim o [
                | done (a, files) ↦ done (a, record s { files = files })
                | panics ↦ panics
                | hangs ↦ hangs
              ])
      after (done (a, files)) q = q
      after panics q = tt
      after hangs q = tt

module _ (P : Task → Type 0) where
  pub or_fail-Keeps :
      {A : Type 0} (m : Action Task (Option A)) (k : A → Action Task Word)
      → Keeps P (λ r. P) m
      → ((a : A) → Keeps P (λ r. P) (k a))
      → Keeps P (λ r. P) (or_fail m k)
  or_fail-Keeps {A} m k h g = Keeps-bind P (λ r. P) (λ r. P) m _ h next
    where
      next :
          (r : Option A)
          → Keeps P (λ (w : Word). P) (elim r [ none ↦ pure minus_one | some a ↦ k a ])
      next none s p = p
      next (some a) s p = g a s p

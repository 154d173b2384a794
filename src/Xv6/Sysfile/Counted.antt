-- ===== src/Xv6/Sysfile/Counted.antt =====
-- The references to files that descriptors of xv6/kernel/sysfile.c are: each descriptor that is given out,
-- and each file that a call holds, is one reference of the file table.
use p.Prelude.{
  ℕ, zero, suc, ◌+◌, ◌<◌, ◌≡◌, ◌≢◌, refl, sym, ap, subst, ◌∙◌, inl, inr, Bool-cases, Option, none,
  some, List, [], ◌∷◌, ◌==◌, if◌then◌else◌, length, get_or, set, get_or-set_self, get_or-set_ne,
  ℕ_discrete, arith,
}
use p.Xv6.Ftable.{fd_none, File, free_file}
use p.Xv6.Sysfile.Calls.{find_fd}

abbrev pub file_at : List File → ℕ → File
file_at table i = get_or table i free_file

-- Is this the file i?
abbrev pub hit : Option ℕ → ℕ → ℕ
hit none i = 0
hit (some j) i = if j == i then 1 else 0

-- The descriptors of file i.
abbrev pub refs : List (Option ℕ) → ℕ → ℕ
refs [] i = 0
refs (o ∷ os) i = hit o i + refs os i

-- `others` are the references that are not descriptors of this process.
pub record Counted (others : ℕ → ℕ) (table : List File) (ofile : List (Option ℕ)) : Type 0 where
  pub counted : (i : ℕ) → (file_at table i).ref ≡ others i + refs ofile i
  pub idle : (i : ℕ) → (file_at table i).ref ≡ 0 → (file_at table i).type ≡ fd_none

-- A call holds one more reference to f.
abbrev pub held : ℕ → (ℕ → ℕ) → ℕ → ℕ
held f others i = others i + hit (some f) i

pub hit_self : (f : ℕ) → hit (some f) f ≡ 1
hit_self f = elim (Bool-cases (f == f)) [ inl e ↦ rw e refl | inr e ↦ ground (arith, e) ]

pub hit_ne : (f i : ℕ) → f ≢ i → hit (some f) i ≡ 0
hit_ne f i ne = elim (Bool-cases (f == i)) [ inl e ↦ ground (arith, e, ne) | inr e ↦ rw e refl ]

pub refs-set :
    (os : List (Option ℕ)) (fd : ℕ) (o : Option ℕ) (i : ℕ)
    → fd < length os
    → refs (set os fd o) i + hit (get_or os fd none) i ≡ refs os i + hit o i
refs-set [] fd o i lt = absurd (omega arith)
refs-set (x ∷ os) zero o i lt = omega arith
refs-set (x ∷ os) (suc fd) o i lt = omega (arith, refs-set os fd o i (omega arith))

pub refs_pos : (os : List (Option ℕ)) (fd f : ℕ) → get_or os fd none ≡ some f → 0 < refs os f
refs_pos [] fd f e = absurd (cc)
refs_pos (x ∷ os) zero f e = omega (arith, hit_self f, ap (λ o. hit o f) e)
refs_pos (x ∷ os) (suc fd) f e = omega (arith, refs_pos os fd f e)

-- A place that reads as open is in the list.
pub open_lt : (os : List (Option ℕ)) (fd f : ℕ) → get_or os fd none ≡ some f → fd < length os
open_lt [] fd f e = absurd (cc)
open_lt (x ∷ os) zero f e = omega arith
open_lt (x ∷ os) (suc fd) f e = omega (arith, open_lt os fd f e)

-- A file with a reference is in the table.
pub used_lt : (table : List File) (i : ℕ) → (file_at table i).ref ≢ 0 → i < length table
used_lt [] i used = absurd (used refl)
used_lt (f ∷ table) zero used = omega arith
used_lt (f ∷ table) (suc i) used = omega (arith, used_lt table i used)

-- What find_fd finds from descriptor fd on: the lowest place that is free.
abbrev pub Lowest : List (Option ℕ) → ℕ → Option ℕ → Type 0
Lowest os fd none = (k : ℕ) → k < length os → get_or os k none ≢ none
Lowest os fd (some r) =
    (k : ℕ) × (r ≡ fd + k)
    × (k < length os)
    × (get_or os k none ≡ none)
    × ((j : ℕ) → j < k → get_or os j none ≢ none)

pub find_fd-Lowest : (os : List (Option ℕ)) (fd : ℕ) → Lowest os fd (find_fd os fd)
unfolding find_fd
find_fd-Lowest [] fd = λ k lt. absurd (omega arith)
find_fd-Lowest (none ∷ os) fd = (0, omega arith, omega arith, refl, λ j lt. absurd (omega arith))
find_fd-Lowest (some f ∷ os) fd = later (find_fd os (fd + 1)) (find_fd-Lowest os (fd + 1))
  where
    every :
        (n : ℕ)
        → ((j : ℕ) → j < n → get_or os j none ≢ none)
        → (j : ℕ) → j < suc n
        → get_or (some f ∷ os) j none ≢ none
    every n all zero lt = λ e. absurd (cc)
    every n all (suc j) lt = all j (omega arith)

    later : (o : Option ℕ) → Lowest os (fd + 1) o → Lowest (some f ∷ os) fd o
    later none all = every (length os) all
    later (some r) (k, at, lt, free, all) = (suc k, omega arith, omega arith, free, every k all)

module _ {others : ℕ → ℕ} {table : List File} {ofile : List (Option ℕ)} where
  -- A descriptor for a file that is held.
  pub Counted-take :
      (f fd : ℕ)
      → Counted (held f others) table ofile
      → fd < length ofile
      → get_or ofile fd none ≡ none
      → Counted others table (set ofile fd (some f))
  Counted-take f fd c lt free = record {
    counted =
        λ i. omega (arith, c.counted i, refs-set ofile fd (some f) i lt, ap (λ o. hit o i) free);
    idle = c.idle;
  }

  -- A descriptor given up, whose file is held.
  pub Counted-drop :
      (f fd : ℕ)
      → Counted others table ofile
      → get_or ofile fd none ≡ some f
      → Counted (held f others) table (set ofile fd none)
  Counted-drop f fd c e = record {
    counted = λ i.
        omega (
          arith,
          c.counted i,
          refs-set ofile fd none i (open_lt ofile fd f e),
          ap (λ o. hit o i) e,
        );
    idle = c.idle;
  }

  -- Another file at f, with the references that it should have.
  pub Counted-put :
      {others' : ℕ → ℕ}
      → (f : ℕ) (x : File) → Counted others table ofile
      → f < length table
      → x.ref ≡ others' f + refs ofile f
      → (x.ref ≡ 0 → x.type ≡ fd_none)
      → ((i : ℕ) → f ≢ i → others' i ≡ others i)
      → Counted others' (set table f x) ofile
  Counted-put {others'} f x c lt e idle same = record {
    counted = λ i. elim (ℕ_discrete f i) [
      | yes at ↦
          subst (λ (j : ℕ). (file_at (set table f x) j).ref ≡ others' j + refs ofile j) at
            (ap (λ (y : File). y.ref) (get_or-set_self table f x free_file lt) ∙ e)
      | no ne ↦
          ap (λ (y : File). y.ref) (get_or-set_ne table f i x free_file ne)
          ∙ c.counted i
          ∙ ap (λ n. n + refs ofile i) (sym (same i ne))
    ];
    idle = λ i. elim (ℕ_discrete f i) [
      | yes at ↦
          subst
            (λ (j : ℕ).
              (file_at (set table f x) j).ref ≡ 0 → (file_at (set table f x) j).type ≡ fd_none)
            at
            (subst (λ (y : File). y.ref ≡ 0 → y.type ≡ fd_none)
              (sym (get_or-set_self table f x free_file lt)) idle)
      | no ne ↦
          subst (λ (y : File). y.ref ≡ 0 → y.type ≡ fd_none)
            (sym (get_or-set_ne table f i x free_file ne)) (c.idle i)
    ];
  }

  -- One more reference to f.
  pub Counted-hold :
      (f : ℕ)
      → Counted others table ofile
      → f < length table
      → (x : File) → x.ref ≡ (file_at table f).ref + 1
      → Counted (held f others) (set table f x) ofile
  Counted-hold f c lt x e =
      Counted-put f x c lt (omega (arith, e, c.counted f, hit_self f))
        (λ z. absurd (omega (arith, e, z))) (λ i ne. omega (arith, hit_ne f i ne))

-- One reference to f less.
pub Counted-release :
    {others : ℕ → ℕ} {table : List File} {ofile : List (Option ℕ)} (f : ℕ)
    → Counted (held f others) table ofile
    → (x : File) → x.ref + 1 ≡ (file_at table f).ref
    → (x.ref ≡ 0 → x.type ≡ fd_none)
    → Counted others (set table f x) ofile
Counted-release {others} {table} f c x e idle =
    let used : (file_at table f).ref ≢ 0 = λ z. omega (arith, e, z) in
    Counted-put f x c (used_lt table f used) (omega (arith, e, c.counted f, hit_self f)) idle
      (λ i ne. omega (arith, hit_ne f i ne))

-- ===== src/Xv6/Ftable/References.antt =====
-- The references of the file table of xv6/kernel/file.c.
use p.Prelude.{
  ℕ, zero, suc, ◌+◌, ◌-◌, ◌<◌, ◌≡◌, ◌≢◌, refl, sym, ap, ◌∙◌, false, Bool-cases, inl, inr, Option,
  none, some, List, [], ◌∷◌, ◌==◌, get_or, set, length, get_or-set_self, arith,
}
use p.Xv6.Outcome.{Outcome, done, ◌>>=◌}
use p.Xv6.Ftable.{File, Files, free_file, find_free_file, filealloc, filedup, fileclose}

pub set-set : (fs : List File) (i : ℕ) (f g : File) → set (set fs i f) i g ≡ set fs i g
set-set [] i f g = refl
set-set (h ∷ fs) zero f g = refl
set-set (h ∷ fs) (suc i) f g = ap (λ l. h ∷ l) (set-set fs i f g)

pub set-get_or : (fs : List File) (i : ℕ) → set fs i (get_or fs i free_file) ≡ fs
set-get_or [] i = refl
set-get_or (h ∷ fs) zero = refl
set-get_or (h ∷ fs) (suc i) = ap (λ l. h ∷ l) (set-get_or fs i)

-- What find_free_file finds.
abbrev Free : List File → ℕ → Option ℕ → Type 0
Free fs i none = (k : ℕ) → k < length fs → (get_or fs k free_file).ref ≢ 0
Free fs i (some j) = (k : ℕ) × (j ≡ i + k) × (k < length fs) × ((get_or fs k free_file).ref ≡ 0)

find_free_file-Free : (fs : List File) (i : ℕ) → Free fs i (find_free_file fs i)
unfolding find_free_file
find_free_file-Free [] i = λ k lt. absurd (omega arith)
find_free_file-Free (f ∷ fs) i = elim (Bool-cases (f.ref == 0)) [
  | inl e ↦ rw e (0, omega arith, omega arith, ground arith)
  | inr e ↦ rw e (later e (find_free_file fs (i + 1)) (find_free_file-Free fs (i + 1)))
]
  where
    every :
        (f.ref == 0) ≡ false
        → ((k : ℕ) → k < length fs → (get_or fs k free_file).ref ≢ 0)
        → (k : ℕ) → k < length (f ∷ fs)
        → (get_or (f ∷ fs) k free_file).ref ≢ 0
    every e all zero lt = λ z. ground (arith, z)
    every e all (suc k) lt = all k (omega arith)

    later : (f.ref == 0) ≡ false → (o : Option ℕ) → Free fs (i + 1) o → Free (f ∷ fs) i o
    later e none all = every e all
    later e (some j) (k, at, lt, free) = (suc k, omega arith, omega arith, free)

-- What filealloc answers: no file, where every one has a reference, or one that had none, which has one
-- now, everything else being as before.
abbrev pub Allocates : Files → Outcome (Option ℕ × Files) → Type 0
Allocates s (done (none, t)) =
    (t ≡ s) × ((k : ℕ) → k < length s.table → (get_or s.table k free_file).ref ≢ 0)
Allocates s (done (some i, t)) =
    (i < length s.table)
    × ((get_or s.table i free_file).ref ≡ 0)
    × (t ≡ record s { table = set s.table i (record (get_or s.table i free_file) { ref = 1 }) })
Allocates s _ = ⊥

-- filealloc does not panic: it gives a file that had no reference, which has one now, and changes nothing
-- else, or it gives none and changes nothing, where every file has a reference.
pub filealloc-Allocates : (s : Files) → Allocates s (filealloc s)
unfolding filealloc
filealloc-Allocates s = go (find_free_file s.table 0) refl (find_free_file-Free s.table 0)
  where
    go :
        (o : Option ℕ) → find_free_file s.table 0 ≡ o → Free s.table 0 o → Allocates s (filealloc s)
    go none e all = rw (filealloc, e) (refl, all)
    go (some i) e (k, at, lt, free) =
        let same : k ≡ i = omega arith in
        rw (filealloc, e)
          (omega arith, ap (λ m. (get_or s.table m free_file).ref) (sym same) ∙ free, refl)

-- A close of a file with other references.
pub fileclose_lem :
    (t : Files) (i : ℕ)
    → ((get_or t.table i free_file).ref == 0) ≡ false
    → ((get_or t.table i free_file).ref == 1) ≡ false
    → fileclose i t
      ≡ done (
        tt,
        record t {
          table =
              set t.table i (record (get_or t.table i free_file) {
                ref = (get_or t.table i free_file).ref - 1;
              });
        },
      )
unfolding fileclose
fileclose_lem t i some_left others = rw (fileclose, ◌>>=◌, some_left) (rw others refl)

module _ (s : Files) (i : ℕ) (lt : i < length s.table)
    (used : (get_or s.table i free_file).ref ≢ 0) where
  abbrev pub duplicated : Files
  duplicated =
      let f = get_or s.table i free_file in
      record s { table = set s.table i (record f { ref = f.ref + 1 }) }

  pub filedup_lem : filedup i s ≡ done (i, duplicated)
  unfolding filedup
  filedup_lem =
      let some_left : ((get_or s.table i free_file).ref == 0) ≡ false = ground (arith, used) in
      rw (◌>>=◌, some_left) refl

  -- Where a file has a reference, one more and its close leave everything as it was.
  pub filedup-fileclose : (filedup i >>= λ j. fileclose j) s ≡ done (tt, s)
  filedup-fileclose =
      let f = get_or s.table i free_file in
      let f' : File = record f { ref = f.ref + 1 } in
      let held : get_or (set s.table i f') i free_file ≡ f' =
        get_or-set_self s.table i f' free_file lt in
      let count : (get_or (set s.table i f') i free_file).ref ≡ f.ref + 1 =
        ap (λ (x : File). x.ref) held in
      let back : set (set s.table i f') i (record (get_or (set s.table i f') i free_file) {
        ref = (get_or (set s.table i f') i free_file).ref - 1;
      })
          ≡ s.table =
        ap (λ (x : File). set (set s.table i f') i (record x { ref = x.ref - 1 })) held
        ∙ ap (λ n. set (set s.table i f') i (record f { ref = n })) (omega arith)
        ∙ set-set s.table i f' f
        ∙ set-get_or s.table i in
      rw (◌>>=◌, filedup_lem)
        (fileclose_lem duplicated i (ground (arith, count)) (ground (arith, count, used))
          ∙ ap (λ (table : List File). done (tt, record s { table = table })) back)

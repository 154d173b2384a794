-- ===== src/Tests/Bcache.antt =====
-- Runs of the model of xv6/kernel/bio.c.
use p.Prelude.{
  ℕ, ◌<◌, ◌≢◌, ◌⊎◌, inl, inr, List, [], ◌∷◌, ◌++◌, All, arith, false, ◌+◌, ◌%◌, ◌≡◌, refl, true,
  Option, none, some,
}
use mathlib.Core.List.{Memᴰ}
use mathlib.Core.List.Memᴰ
use p.Word.{Word}
use p.Xv6.Outcome.{Outcome, done, ◌>>=◌}
use p.Xv6.Fs.{Drives}
use p.Xv6.Bcache.{Bcache, put, binit, link_bufs, bread, bget, first, last, iderw, bwrite, brelse}
use p.Xv6.Bcache.Coherent.{IsCoherent, binit-IsCoherent, put-IsCoherent}
use p.Xv6.Bcache.Read.{bread-Reads, Reads, filled}
use p.Xv6.Bcache.Write.{bwrite-brelse}

abbrev drives : Drives
drives dev sector a = (sector + a) % 256

abbrev index : Outcome (ℕ × Bcache) → Option ℕ
index (done (i, s)) = some i
index _ = none

-- The first read takes buffer 0, the last one of the list.
first_read : index (bread true 0 7 (binit drives)) ≡ some 0
unfolding bread bget first last iderw binit link_bufs
first_read = refl

-- Buffer 0 holds the sector 7, with bytes that are not on the disk yet.
abbrev edited : Bcache
edited = put 0 (record (filled 0 7 (binit drives)) { bytes = λ a. 1 }) (binit drives)

edited-IsCoherent : IsCoherent edited
unfolding binit
edited-IsCoherent =
    put-IsCoherent 0 (record (filled 0 7 (binit drives)) { bytes = λ a. 1 }) drives
      (binit-IsCoherent drives) (λ e. cc) refl (λ f g. cc) (λ j m ne d e. cc) (λ j m ne. refl)

edited_order : edited.order ≡ (9 ∷ 8 ∷ 7 ∷ 6 ∷ 5 ∷ 4 ∷ 3 ∷ 2 ∷ 1 ∷ []) ++ 0 ∷ []
unfolding binit link_bufs
edited_order = refl

bread-Reads_example : Reads 0 7 (binit drives) (bread true 0 7 (binit drives))
bread-Reads_example = bread-Reads true 0 7 (binit drives) (binit-IsCoherent drives) refl (λ e. cc)

not_zero : (js : List ℕ) → All (λ j. 0 < j) js → Memᴰ 0 js → ⊥
not_zero [] pos m = elim m [ ]
not_zero (j ∷ js) (lt, pos) m = elim (Memᴰ.cases_cons m) [
  | inl e ↦ omega (arith, e)
  | inr t ↦ not_zero js pos t
]

nonzero : All (λ j. 0 < j) (9 ∷ 8 ∷ 7 ∷ 6 ∷ 5 ∷ 4 ∷ 3 ∷ 2 ∷ 1 ∷ [])
nonzero = (
  omega arith,
  (
    omega arith,
    (
      omega arith,
      (omega arith, (omega arith, (omega arith, (omega arith, (omega arith, (omega arith, tt)))))),
    ),
  ),
)

bwrite-brelse_example :
    (t : Bcache) × ((bwrite true 0 >>= λ _. brelse 0) edited ≡ done (tt, t))
    × (t.order ≡ 0 ∷ 9 ∷ 8 ∷ 7 ∷ 6 ∷ 5 ∷ 4 ∷ 3 ∷ 2 ∷ 1 ∷ [])
    × (t.bufs 0 ≡ record (edited.bufs 0) { busy = false; valid = true; dirty = false })
    × ((j : ℕ) → j ≢ 0 → t.bufs j ≡ edited.bufs j)
    × (t.drives 0 7 ≡ λ a. 1)
    × ((d b : Word) → ((d ≢ 0) ⊎ (b ≢ 7)) → t.drives d b ≡ edited.drives d b)
    × IsCoherent t
bwrite-brelse_example =
    bwrite-brelse true edited 0 refl refl (9 ∷ 8 ∷ 7 ∷ 6 ∷ 5 ∷ 4 ∷ 3 ∷ 2 ∷ 1 ∷ []) [] edited_order
      (not_zero (9 ∷ 8 ∷ 7 ∷ 6 ∷ 5 ∷ 4 ∷ 3 ∷ 2 ∷ 1 ∷ []) nonzero) (not_zero [] tt) edited-IsCoherent

-- ===== src/Xv6/Bcache/Write.antt =====
-- bwrite and brelse of xv6/kernel/bio.c.
use p.Prelude.{
  ℕ, ◌≡◌, ◌≢◌, refl, sym, ap, ◌∙◌, inl, inr, Bool, true, false, ◌&&◌, ◌||◌, not, Bool-cases, List,
  [], ◌∷◌, ◌++◌, ◌⊎◌, ◌==◌, arith,
}
use mathlib.Core.List.{Memᴰ}
use mathlib.Core.List.Memᴰ
use p.Word.{Word, minus_one}
use p.Xv6.Outcome.{done, ◌>>=◌}
use p.Xv6.Fs.{Drives, store_block}
use p.Xv6.Fs.Alloc.Bitmap.{store_block_self}
use p.Xv6.Bcache.{Bcache, put, iderw, bwrite, remove, brelse}
use p.Xv6.Bcache.Coherent.{IsCoherent, put-IsCoherent}
use p.Xv6.Bcache.Read.{put-put}

remove_mem : (i j : ℕ) (js : List ℕ) → Memᴰ j (remove i js) → Memᴰ j js
unfolding remove
remove_mem i j [] m = m
remove_mem i j (k ∷ js) m = elim (Bool-cases (k == i)) [
  | inl e ↦ let m' : Memᴰ j (remove i js) = rw (← (rest e)) m in Memᴰ.tail (remove_mem i j js m')
  | inr e ↦
      let m' : Memᴰ j (k ∷ remove i js) = rw (← (kept e)) m in
      elim (Memᴰ.cases_cons m') [ inl h ↦ Memᴰ.head h | inr t ↦ Memᴰ.tail (remove_mem i j js t) ]
]
  where
    rest : (k == i) ≡ true → remove i (k ∷ js) ≡ remove i js
    rest e = rw (remove, e) refl

    kept : (k == i) ≡ false → remove i (k ∷ js) ≡ k ∷ remove i js
    kept e = rw (remove, e) refl

remove_absent : (i : ℕ) (js : List ℕ) → (Memᴰ i js → ⊥) → remove i js ≡ js
unfolding remove
remove_absent i [] out = refl
remove_absent i (k ∷ js) out = elim (Bool-cases (k == i)) [
  | inl e ↦ absurd (out (Memᴰ.head (ground (arith, e))))
  | inr e ↦ rw e (ap (λ l. k ∷ l) (remove_absent i js (λ m. out (Memᴰ.tail m))))
]

-- A buffer that stands once in the list is taken out, and the others keep their order.
remove_once :
    (i : ℕ) (front back : List ℕ)
    → (Memᴰ i front → ⊥)
    → (Memᴰ i back → ⊥)
    → remove i (front ++ i ∷ back) ≡ front ++ back
unfolding remove
remove_once i [] back out out' =
    let self : (i == i) ≡ true = ground arith in rw self (remove_absent i back out')
remove_once i (k ∷ front) back out out' = elim (Bool-cases (k == i)) [
  | inl e ↦ absurd (out (Memᴰ.head (ground (arith, e))))
  | inr e ↦ rw e (ap (λ l. k ∷ l) (remove_once i front back (λ m. out (Memᴰ.tail m)) out'))
]

append_mem : {j : ℕ} (front : List ℕ) {back : List ℕ} → Memᴰ j back → Memᴰ j (front ++ back)
append_mem [] m = m
append_mem (k ∷ front) m = Memᴰ.tail (append_mem front m)

order-IsCoherent :
    {s : Bcache} (order : List ℕ)
    → ((j : ℕ) → Memᴰ j order → Memᴰ j s.order)
    → IsCoherent s
    → IsCoherent (record s { order = order })
order-IsCoherent order h v = record {
  unique = λ i j m n. v.unique i j (h i m) (h j n);
  blank = λ i m. v.blank i (h i m);
  clean = λ i m. v.clean i (h i m);
  current = λ i m. v.current i (h i m);
}

module _ (s : Bcache) (i : ℕ) where
  -- The buffer's bytes on the disk, and the buffer at the front of the list, given up.
  abbrev written : Bcache
  written =
      put i (record (s.bufs i) { busy = false; valid = true; dirty = false })
        (record s {
          order = i ∷ remove i s.order;
          drives = store_block (s.bufs i).dev (s.bufs i).sector (s.bufs i).bytes s.drives;
        })

  abbrev stored : Bcache
  stored = record (put i (record (s.bufs i) { valid = true; dirty = false }) s) {
    drives = store_block (s.bufs i).dev (s.bufs i).sector (s.bufs i).bytes s.drives;
  }

module _ (havedisk1 : Bool) (s : Bcache) (i : ℕ) where
  module _ (busy : (s.bufs i).busy ≡ true)
      (disk : (not ((s.bufs i).dev == 0) && not havedisk1) ≡ false) where
    bwrite_lem : bwrite havedisk1 i s ≡ done (tt, (stored s i))
    unfolding bwrite iderw
    bwrite_lem =
        let self : (i == i) ≡ true = ground arith in
        let quiet : ((s.bufs i).valid && false || false) ≡ false = ground arith in
        rw (bwrite, ◌>>=◌, busy)
          (rw (iderw, self, busy, disk)
            (rw quiet (
              ap
                (λ t. done (
                  tt,
                  record t {
                    drives = store_block (s.bufs i).dev (s.bufs i).sector (s.bufs i).bytes s.drives;
                  },
                ))
                (put-put i _ _ s))))

    brelse_lem : brelse i (stored s i) ≡ done (tt, (written s i))
    unfolding brelse
    brelse_lem =
        let self : (i == i) ≡ true = ground arith in
        rw (self, busy)
          (ap
            (λ t. done (
              tt,
              record t {
                order = i ∷ remove i s.order;
                drives = store_block (s.bufs i).dev (s.bufs i).sector (s.bufs i).bytes s.drives;
              },
            ))
            (put-put i _ _ s))

    -- The whole state afterwards.
    run-IsCoherent :
        IsCoherent s
        → Memᴰ i s.order
        → ((bwrite havedisk1 i >>= λ _. brelse i) s ≡ done (tt, (written s i)))
          × IsCoherent (written s i)
    run-IsCoherent v m = (
      rw (◌>>=◌, bwrite_lem) brelse_lem,
      order-IsCoherent (i ∷ remove i s.order) members (
          put-IsCoherent i (record (s.bufs i) { busy = false; valid = true; dirty = false }) drives
            v real refl
            (λ _ _.
              sym (store_block_self s.drives (s.bufs i).dev (s.bufs i).sector (s.bufs i).bytes))
            (λ j mj ne d e. ne (v.unique j i mj m (λ z. real (sym d ∙ z)) d e)) others),
    )
      where
        drives : Drives
        drives = store_block (s.bufs i).dev (s.bufs i).sector (s.bufs i).bytes s.drives

        real : (s.bufs i).dev ≢ minus_one
        real e = cc (sym busy ∙ (v.blank i m e).0)

        members : (j : ℕ) → Memᴰ j (i ∷ remove i s.order) → Memᴰ j s.order
        members j mj = elim (Memᴰ.cases_cons mj) [
          | inl e ↦ Memᴰ.cast e m
          | inr t ↦ remove_mem i j s.order t
        ]

        others :
            (j : ℕ)
            → Memᴰ j s.order
            → j ≢ i
            → drives (s.bufs j).dev (s.bufs j).sector ≡ s.drives (s.bufs j).dev (s.bufs j).sector
        others j mj ne =
            elim (Bool-cases
              ((s.bufs j).dev == (s.bufs i).dev && (s.bufs j).sector == (s.bufs i).sector)) [
                | inl e ↦
                    let d : (s.bufs j).dev ≡ (s.bufs i).dev = ground arith in
                    absurd (ne (v.unique j i mj m (λ z. real (sym d ∙ z)) d (ground arith)))
                | inr e ↦ rw e refl
              ]

    -- bwrite and then brelse of a buffer in use, which stands once in the list of the buffers, on a cache
    -- that agrees with the disk but in the bytes of buffers in use: the bytes of the buffer are on the disk,
    -- in its sector alone; the buffer is at the front of the list, where the others keep their order, and
    -- not in use; the other buffers are as before, and the cache agrees with the disk.
    pub bwrite-brelse :
        (front back : List ℕ)
        → s.order ≡ front ++ i ∷ back
        → (Memᴰ i front → ⊥)
        → (Memᴰ i back → ⊥)
        → IsCoherent s
        → (t : Bcache) × ((bwrite havedisk1 i >>= λ _. brelse i) s ≡ done (tt, t))
          × (t.order ≡ i ∷ front ++ back)
          × (t.bufs i ≡ record (s.bufs i) { busy = false; valid = true; dirty = false })
          × ((j : ℕ) → j ≢ i → t.bufs j ≡ s.bufs j)
          × (t.drives (s.bufs i).dev (s.bufs i).sector ≡ (s.bufs i).bytes)
          × ((d b : Word)
              → ((d ≢ (s.bufs i).dev) ⊎ (b ≢ (s.bufs i).sector))
              → t.drives d b ≡ s.drives d b)
          × IsCoherent t
    bwrite-brelse front back at not_front not_back v =
        let here : Memᴰ i s.order = rw at (append_mem front (Memᴰ.head refl)) in
        let (run, w) = run-IsCoherent v here in
        let self : (i == i) ≡ true = ground arith in
        (
          written s i,
          run,
          ap (λ l. i ∷ remove i l) at
              ∙ ap (λ l. i ∷ l) (remove_once i front back not_front not_back),
          rw self refl,
          λ j ne. let other : (j == i) ≡ false = ground (arith, ne) in rw other refl,
          store_block_self s.drives (s.bufs i).dev (s.bufs i).sector (s.bufs i).bytes,
          λ d b ne.
              let apart : (d == (s.bufs i).dev && b == (s.bufs i).sector) ≡ false =
                ground (arith, ne) in
              rw apart refl,
          w,
        )

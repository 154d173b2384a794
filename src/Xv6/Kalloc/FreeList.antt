-- ===== src/Xv6/Kalloc/FreeList.antt =====
-- The free list of xv6/kernel/kalloc.c as a list of distinct pages.
use p.Prelude.{
  ℕ, zero, suc, ◌+◌, ◌-◌, ◌*◌, ◌/◌, ◌%◌, ◌≤◌, ◌<◌, ◌≡◌, ◌≢◌, refl, ◌∙◌, ◌⊎◌, inl, inr, true, false,
  ◌||◌, not, some, List, [], ◌∷◌, ◌==◌, ltb, leb, get_or, drop, length, Bool-cases, All, arith,
}
use p.Word.{Word, IsWord, word_bytes}
use p.Disk.{splice}
use p.Disk.Regions.{splice_out}
use p.Lfs.State.Checkpoint.{word_at-splice_self}
use p.Xv6.Strings.{Memory, memset, store}
use p.Xv6.Kalloc.{Kmem, next, kfree, kalloc, kinit, kinit_pages, page_round_up}

-- The page is one that kfree takes, above the kernel.
pub record IsPage (end_address : ℕ) (v : Word) : Type 0 where
  pub aligned : v % 4096 ≡ 0
  pub above : end_address ≤ v
  pub below : v < 0x1000000
  pub some_page : v ≢ 0

-- The list runs through the pages `ps`, no page twice.
abbrev pub FreeList : ℕ → Memory → Word → List Word → Type 0
FreeList e m h [] = h ≡ 0
FreeList e m h (p ∷ ps) = (h ≡ p) × IsPage e p × All (λ q. p ≢ q) ps × FreeList e m (next m p) ps

memset-outside :
    (m : Memory) (dst : ℕ) (c : Word) (n a : ℕ)
    → (a < dst) ⊎ (dst + n ≤ a)
    → memset m dst c n a ≡ m a
unfolding memset
memset-outside m dst c zero a h = refl
memset-outside m dst c (suc n) a h =
    memset-outside (store m dst (c % 256)) (dst + 1) c n a (ground arith) ∙ ground arith

-- The memory after a kfree.
freed : Memory → Word → Word → Memory
freed m v h = splice (memset m v 1 4096) v (word_bytes h)

freed-outside : (m : Memory) (v h a : Word) → (a < v) ⊎ (v + 4096 ≤ a) → freed m v h a ≡ m a
unfolding freed word_bytes
freed-outside m v h a o =
    splice_out (memset m v 1 4096) v (word_bytes h) a (ground arith) ∙ memset-outside m v 1 4096 a o

freed-next :
    (e : ℕ) (m : Memory) (v h p : Word)
    → IsPage e v
    → IsPage e p
    → v ≢ p
    → next (freed m v h) p ≡ next m p
freed-next e m v h p iv ip ne =
    rw
      (
        freed-outside m v h p (ground (arith, apart 0 (omega arith))),
        freed-outside m v h (p + 1) (apart 1 (omega arith)),
        freed-outside m v h (p + 2) (apart 2 (omega arith)),
        freed-outside m v h (p + 3) (apart 3 (omega arith)),
      )
      refl
  where
    apart : (i : ℕ) → i < 4 → (p + i < v) ⊎ (v + 4096 ≤ p + i)
    apart i l = ground (arith, iv.aligned, ip.aligned)

FreeList-freed :
    (e : ℕ) (m : Memory) (v h0 : Word) (h : Word) (ps : List Word)
    → IsPage e v
    → All (λ q. v ≢ q) ps
    → FreeList e m h ps
    → FreeList e (freed m v h0) h ps
FreeList-freed e m v h0 h [] iv ne l = l
FreeList-freed e m v h0 h (p ∷ ps) iv ne l = (
  l.0,
  l.1,
  l.2,
  rw (freed-next e m v h0 p iv l.1 ne.0) (FreeList-freed e m v h0 (next m p) ps iv ne.1 l.3),
)

FreeList-IsWord : (e : ℕ) (m : Memory) (h : Word) (ps : List Word) → FreeList e m h ps → IsWord h
FreeList-IsWord e m h [] l = omega (arith, l)
FreeList-IsWord e m h (p ∷ ps) l = omega (arith, l.0, l.1.below)

-- kfree of a page that is not free puts it in front of the free list, and changes no byte outside it.
pub kfree-FreeList :
    (e : ℕ) (v : Word) (k : Kmem) (ps : List Word)
    → IsPage e v
    → All (λ q. v ≢ q) ps
    → FreeList e k.memory k.freelist ps
    → (t : Kmem) × (kfree e v k ≡ some t)
      × FreeList e t.memory t.freelist (v ∷ ps)
      × ((a : ℕ) → (a < v) ⊎ (v + 4096 ≤ a) → t.memory a ≡ k.memory a)
unfolding kfree freed
kfree-FreeList e v k ps iv ne l = (
  record { memory = freed k.memory v k.freelist; freelist = v },
  rw taken refl,
  (
    refl,
    iv,
    ne,
    rw
        (word_at-splice_self (memset k.memory v 1 4096) v k.freelist
          (FreeList-IsWord e k.memory k.freelist ps l))
        (FreeList-freed e k.memory v k.freelist k.freelist ps iv ne l),
  ),
  λ a o. freed-outside k.memory v k.freelist a o,
)
  where
    taken : (not (v % 4096 == 0) || ltb v e || leb 0x1000000 v) ≡ false
    taken = ground (arith, iv.aligned, iv.above, iv.below)

-- kalloc takes the first page off the free list, or gives 0 and changes nothing where none is free.
kalloc-FreeList :
    (e : ℕ) (k : Kmem) (ps : List Word)
    → FreeList e k.memory k.freelist ps
    → ((kalloc k).0 ≡ get_or ps 0 0)
      × FreeList e (kalloc k).1.memory (kalloc k).1.freelist (drop 1 ps)
      × ((kalloc k).1.memory ≡ k.memory)
unfolding kalloc
kalloc-FreeList e k [] l =
    let empty : (k.freelist == 0) ≡ true = ground (arith, l) in rw empty (l, l, refl)
kalloc-FreeList e k (p ∷ ps) l =
    let some_left : (k.freelist == 0) ≡ false = ground (arith, l.0, l.1.some_page) in
    rw some_left (l.0, rw l.0 l.3, refl)

All-later :
    (a : Word) (ps : List Word)
    → All (λ q. q < a) ps
    → All (λ q. a ≢ q) ps × All (λ q. q < a + 4096) ps
All-later a [] h = (tt, tt)
All-later a (p ∷ ps) h =
    let (x, y) = All-later a ps h.1 in ((omega (arith, h.0), x), (omega (arith, h.0), y))

kinit_pages-FreeList :
    (fuel e : ℕ) (a : Word) (k : Kmem) (ps : List Word)
    → a % 4096 ≡ 0
    → e ≤ a
    → a ≢ 0
    → a ≤ 0x1000000
    → 0x1000000 < a + fuel * 4096
    → All (λ q. q < a) ps
    → FreeList e k.memory k.freelist ps
    → (t : Kmem) × (qs : List Word) × (kinit_pages fuel e a k ≡ some t)
      × FreeList e t.memory t.freelist qs
      × (length qs ≡ length ps + (0x1000000 - a) / 4096)
unfolding kinit_pages
kinit_pages-FreeList zero e a k ps al lo nz hi enough before l =
    (k, ps, absurd (omega arith), l, absurd (omega arith))
kinit_pages-FreeList (suc fuel) e a k ps al lo nz hi enough before l =
    elim (Bool-cases (leb (a + 4096) 0x1000000)) [
      | inl more ↦
          let under : a + 4096 ≤ 0x1000000 = ground arith in
          let iv : IsPage e a = record {
            aligned = al;
            above = lo;
            below = ground arith;
            some_page = nz;
          } in
          let (ne, later) = All-later a ps before in
          let (t, freed_run, l1, kept) = kfree-FreeList e a k ps iv ne l in
          let (t', qs, run, l2, len) =
            kinit_pages-FreeList fuel e (a + 4096) t (a ∷ ps) (omega arith) (omega arith)
              (omega arith) under (omega (arith, enough)) (omega arith, later) l1 in
          (t', qs, rw (kinit_pages, more, freed_run) run, l2, ground (arith, len))
      | inr done ↦ (k, ps, rw done refl, l, ground arith)
    ]

kinit_lem : (e : ℕ) (k : Kmem) → kinit e k ≡ kinit_pages 4097 e (page_round_up e) k
kinit_lem e k = unfold kinit in refl

-- kinit, where the kernel ends below phystop, does not panic: it leaves a free list, from an empty one,
-- of distinct pages above the kernel, as many as there are between it and phystop.
pub kinit-FreeList :
    (e : ℕ) (m : Memory)
    → 0 < e
    → e < 0x1000000
    → (t : Kmem) × (qs : List Word) × (kinit e (record { memory = m; freelist = 0 }) ≡ some t)
      × FreeList e t.memory t.freelist qs
      × (length qs ≡ (0x1000000 - page_round_up e) / 4096)
kinit-FreeList e m lo hi =
    let (t, qs, run, l, len) =
      kinit_pages-FreeList 4097 e (page_round_up e) (record { memory = m; freelist = 0 }) []
        (omega arith) (omega arith) (omega arith) (omega arith) (omega arith) tt refl in
    (t, qs, kinit_lem e (record { memory = m; freelist = 0 }) ∙ run, l, omega (arith, len))

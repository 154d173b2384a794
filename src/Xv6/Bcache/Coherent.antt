-- ===== src/Xv6/Bcache/Coherent.antt =====
-- The buffer cache of xv6/kernel/bio.c agrees with the disk: what bread, bwrite and brelse keep.
use p.Prelude.{
  ℕ, ◌≡◌, ◌≢◌, refl, sym, ap, subst, ◌∙◌, ◌⊎◌, inl, inr, Bool, true, false, Bool-cases, none, some,
  List, [], ◌∷◌, ℕ_discrete, arith,
}
use mathlib.Core.List.{Memᴰ}
use mathlib.Core.List.Memᴰ
use p.Word.{minus_one}
use p.Xv6.Fs.{Drives}
use p.Xv6.Bcache.{Buf, Bcache, put, binit, first, last}

-- No sector stands in two buffers of the list; a buffer of no device is neither in use nor valid; no
-- buffer is dirty; and a valid buffer that is not in use has the bytes of its sector.
pub record IsCoherent (s : Bcache) : Type 0 where
  pub unique :
      (i j : ℕ)
      → Memᴰ i s.order
      → Memᴰ j s.order
      → (s.bufs i).dev ≢ minus_one
      → (s.bufs i).dev ≡ (s.bufs j).dev
      → (s.bufs i).sector ≡ (s.bufs j).sector
      → i ≡ j
  pub blank :
      (i : ℕ)
      → Memᴰ i s.order
      → (s.bufs i).dev ≡ minus_one
      → ((s.bufs i).busy ≡ false) × ((s.bufs i).valid ≡ false)
  pub clean : (i : ℕ) → Memᴰ i s.order → (s.bufs i).dirty ≡ false
  pub current :
      (i : ℕ)
      → Memᴰ i s.order
      → (s.bufs i).valid ≡ true
      → (s.bufs i).busy ≡ false
      → (s.bufs i).bytes ≡ s.drives (s.bufs i).dev (s.bufs i).sector

pub binit-IsCoherent : (drives : Drives) → IsCoherent (binit drives)
unfolding binit
binit-IsCoherent drives = record {
  unique = λ i j m n real d e. absurd (real refl);
  blank = λ i m d. (refl, refl);
  clean = λ i m. refl;
  current = λ i m valid idle. cc;
}

pub first_lem :
    (test : ℕ → Bool) (is : List ℕ)
    → ((first test is ≡ none) × ((i : ℕ) → Memᴰ i is → test i ≡ false))
      ⊎ ((i : ℕ) × (first test is ≡ some i) × (Memᴰ i is) × (test i ≡ true))
unfolding first
first_lem test [] = inl (refl, λ i m. absurd (Memᴰ.not-nil m))
first_lem test (j ∷ is) = elim (Bool-cases (test j)) [
  | inl e ↦ inr (j, rw e refl, Memᴰ.head refl, e)
  | inr e ↦ elim (first_lem test is) [
    | inl (h, all) ↦ inl (
      rw (e, h) refl,
      λ i m. elim (Memᴰ.cases_cons m) [ inl f ↦ ap test f ∙ e | inr m' ↦ all i m' ],
    )
    | inr (i, h, m, t) ↦ inr (i, rw (e, h) refl, Memᴰ.tail m, t)
  ]
]

pub last_lem :
    (test : ℕ → Bool) (is : List ℕ)
    → ((last test is ≡ none) × ((i : ℕ) → Memᴰ i is → test i ≡ false))
      ⊎ ((i : ℕ) × (last test is ≡ some i) × (Memᴰ i is) × (test i ≡ true))
unfolding last
last_lem test [] = inl (refl, λ i m. absurd (Memᴰ.not-nil m))
last_lem test (j ∷ is) = elim (last_lem test is) [
  | inr (i, h, m, t) ↦ inr (i, rw h refl, Memᴰ.tail m, t)
  | inl (h, all) ↦ elim (Bool-cases (test j)) [
    | inl e ↦ inr (j, rw (h, e) refl, Memᴰ.head refl, e)
    | inr e ↦ inl (
      rw (h, e) refl,
      λ i m. elim (Memᴰ.cases_cons m) [ inl f ↦ ap test f ∙ e | inr m' ↦ all i m' ],
    )
  ]
]

pub put_self : (i : ℕ) (b : Buf) (s : Bcache) → (put i b s).bufs i ≡ b
put_self i b s = ground arith

pub put_ne : (i : ℕ) (b : Buf) (s : Bcache) (j : ℕ) → j ≢ i → (put i b s).bufs j ≡ s.bufs j
put_ne i b s j h = ground (arith, h)

-- A buffer of the list is replaced by a clean one, which no other buffer has the sector of, and the disk
-- changes in no other buffer's sector.
pub put-IsCoherent :
    {s : Bcache} (i : ℕ) (b : Buf) (drives : Drives)
    → IsCoherent s
    → b.dev ≢ minus_one
    → b.dirty ≡ false
    → (b.valid ≡ true → b.busy ≡ false → b.bytes ≡ drives b.dev b.sector)
    → ((j : ℕ) → Memᴰ j s.order → j ≢ i → (s.bufs j).dev ≡ b.dev → (s.bufs j).sector ≡ b.sector → ⊥)
    → ((j : ℕ)
        → Memᴰ j s.order
        → j ≢ i
        → drives (s.bufs j).dev (s.bufs j).sector ≡ s.drives (s.bufs j).dev (s.bufs j).sector)
    → IsCoherent (record (put i b s) { drives = drives })
put-IsCoherent {s} i b drives v real undirty fresh_bytes alone same = record {
  unique = λ j k mj mk d e f. elim (ℕ_discrete j i) [
    | yes h ↦ elim (ℕ_discrete k i) [
      | yes g ↦ h ∙ sym g
      | no ng ↦ absurd (
          alone k mk ng
            (sym (ap (λ (x : Buf). x.dev) (there k ng))
              ∙ sym e
              ∙ ap (λ (x : Buf). x.dev) (here j h))
            (sym (ap (λ (x : Buf). x.sector) (there k ng))
              ∙ sym f
              ∙ ap (λ (x : Buf). x.sector) (here j h)))
    ]
    | no nh ↦ elim (ℕ_discrete k i) [
      | yes g ↦ absurd (
          alone j mj nh
            (sym (ap (λ (x : Buf). x.dev) (there j nh)) ∙ e ∙ ap (λ (x : Buf). x.dev) (here k g))
            (sym (ap (λ (x : Buf). x.sector) (there j nh))
              ∙ f
              ∙ ap (λ (x : Buf). x.sector) (here k g)))
      | no ng ↦
          v.unique j k mj mk (λ z. d (ap (λ (x : Buf). x.dev) (there j nh) ∙ z))
            (sym (ap (λ (x : Buf). x.dev) (there j nh)) ∙ e ∙ ap (λ (x : Buf). x.dev) (there k ng))
            (sym (ap (λ (x : Buf). x.sector) (there j nh))
              ∙ f
              ∙ ap (λ (x : Buf). x.sector) (there k ng))
    ]
  ];
  blank = λ j m d. elim (ℕ_discrete j i) [
    | yes h ↦ absurd (real (sym (ap (λ (x : Buf). x.dev) (here j h)) ∙ d))
    | no nh ↦
        let (idle, empty) = v.blank j m (sym (ap (λ (x : Buf). x.dev) (there j nh)) ∙ d) in
        (
          ap (λ (x : Buf). x.busy) (there j nh) ∙ idle,
          ap (λ (x : Buf). x.valid) (there j nh) ∙ empty,
        )
  ];
  clean = λ j m. elim (ℕ_discrete j i) [
    | yes h ↦ ap (λ (x : Buf). x.dirty) (here j h) ∙ undirty
    | no nh ↦ ap (λ (x : Buf). x.dirty) (there j nh) ∙ v.clean j m
  ];
  current = λ j m valid idle. elim (ℕ_discrete j i) [
    | yes h ↦
        subst (λ (x : Buf). x.bytes ≡ drives x.dev x.sector) (sym (here j h))
          (fresh_bytes (sym (ap (λ (x : Buf). x.valid) (here j h)) ∙ valid)
            (sym (ap (λ (x : Buf). x.busy) (here j h)) ∙ idle))
    | no nh ↦
        subst (λ (x : Buf). x.bytes ≡ drives x.dev x.sector) (sym (there j nh))
          (v.current j m (sym (ap (λ (x : Buf). x.valid) (there j nh)) ∙ valid)
              (sym (ap (λ (x : Buf). x.busy) (there j nh)) ∙ idle)
            ∙ sym (same j m nh))
  ];
}
  where
    here : (j : ℕ) → j ≡ i → (put i b s).bufs j ≡ b
    here j h = ap (put i b s).bufs h ∙ put_self i b s

    there : (j : ℕ) → j ≢ i → (put i b s).bufs j ≡ s.bufs j
    there j h = put_ne i b s j h

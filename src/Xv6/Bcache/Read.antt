-- ===== src/Xv6/Bcache/Read.antt =====
-- bread of xv6/kernel/bio.c.
use p.Prelude.{
  ℕ, ◌≡◌, ◌≢◌, refl, sym, ap, subst, ◌∙◌, fun_ext, inl, inr, Bool, true, false, ◌&&◌, not,
  Bool-cases, ◌==◌, arith,
}
use mathlib.Core.List.{Memᴰ}
use p.Word.{Word, minus_one}
use p.Xv6.Outcome.{Outcome, done, panics, hangs, pure, gets, ◌>>=◌}
use p.Xv6.Fs.{Block}
use p.Xv6.Bcache.{Buf, Bcache, put, holds, bget, iderw, bread}
use p.Xv6.Bcache.Coherent.{IsCoherent, first_lem, last_lem, put-IsCoherent}

pub put-put : (i : ℕ) (a b : Buf) (s : Bcache) → put i b (put i a s) ≡ put i b s
put-put i a b s =
    ap (λ bufs. record s { bufs = bufs })
      (fun_ext λ j. elim (Bool-cases (j == i)) [ inl e ↦ rw e refl | inr e ↦ rw e refl ])

module _ (dev sector : Word) (s : Bcache) where
  -- The buffer that bread returns: in use, with the bytes of the sector.
  abbrev pub filled : Buf
  filled = record {
    busy = true;
    valid = true;
    dirty = false;
    dev = dev;
    sector = sector;
    bytes = s.drives dev sector;
  }

  -- What becomes of a read: a buffer of the list that was not in use holds the sector now, and nothing else
  -- has changed; or it panics, all buffers being in use; or it sleeps, as the sector's buffer is in use.
  abbrev pub Reads : Outcome (ℕ × Bcache) → Type 0
  Reads (done (i, t)) =
      (Memᴰ i s.order) × ((s.bufs i).busy ≡ false) × (t ≡ put i filled s) × IsCoherent t
  Reads panics = (i : ℕ) → Memᴰ i s.order → (s.bufs i).busy ≡ true
  Reads hangs =
      (i : ℕ) × (Memᴰ i s.order)
      × ((s.bufs i).busy ≡ true)
      × ((s.bufs i).dev ≡ dev)
      × ((s.bufs i).sector ≡ sector)

module _ (havedisk1 : Bool) (dev sector : Word) (s : Bcache) (v : IsCoherent s) where
  -- A locked buffer of the sector, as bget leaves it.
  record IsLocked (b : Buf) : Type 0 where
    pub busy : b.busy ≡ true
    pub clean : b.dirty ≡ false
    pub same_dev : b.dev ≡ dev
    pub same_sector : b.sector ≡ sector
    pub current : b.valid ≡ true → b.bytes ≡ s.drives dev sector

  filled_lem : (b : Buf) → IsLocked b → b.valid ≡ true → b ≡ (filled dev sector s)
  filled_lem b l valid = λ i. record {
    busy = l.busy i;
    valid = valid i;
    dirty = l.clean i;
    dev = l.same_dev i;
    sector = l.same_sector i;
    bytes = l.current valid i;
  }

  -- A locked buffer of the sector without its bytes.
  abbrev emptied : Block → Buf
  emptied bytes = record (filled dev sector s) { valid = false; bytes = bytes }

  emptied_lem : (b : Buf) → IsLocked b → b.valid ≡ false → b ≡ emptied b.bytes
  emptied_lem b l empty = λ i. record {
    busy = l.busy i;
    valid = empty i;
    dirty = l.clean i;
    dev = l.same_dev i;
    sector = l.same_sector i;
    bytes = b.bytes;
  }

  -- What bread makes of the buffer that bget locked.
  abbrev Fills : ℕ → Buf → Type 0
  Fills i b =
      (gets (λ t. t) >>= λ (t : Bcache). elim (t.bufs i).valid [
        | true ↦ pure i
        | false ↦ iderw havedisk1 i >>= λ _. pure i
      ])
        (put i b s)
      ≡ done (i, put i (filled dev sector s) s)

  module _ (disk : (not (dev == 0) && not havedisk1) ≡ false) where
    iderw-emptied :
        (i : ℕ) (bytes : Block)
        → iderw havedisk1 i (put i (emptied bytes) s) ≡ done (tt, put i (filled dev sector s) s)
    unfolding iderw
    iderw-emptied i bytes =
        let self : (i == i) ≡ true = ground arith in
        rw (self, disk) (ap (λ t. done (tt, t)) (put-put i (emptied bytes) (filled dev sector s) s))

    Fills-IsLocked : (i : ℕ) (b : Buf) → IsLocked b → Fills i b
    Fills-IsLocked i b l =
        let self : (i == i) ≡ true = ground arith in
        elim (Bool-cases b.valid) [
          | inl full ↦ subst (Fills i) (sym (filled_lem b l full)) (rw (◌>>=◌, self) refl)
          | inr empty ↦
              subst (Fills i) (sym (emptied_lem b l empty))
                (rw (◌>>=◌, self) (rw (◌>>=◌, iderw-emptied i b.bytes) refl))
        ]

    bread-bget :
        (i : ℕ) (b : Buf)
        → bget dev sector s ≡ done (i, put i b s)
        → IsLocked b
        → bread havedisk1 dev sector s ≡ done (i, put i (filled dev sector s) s)
    unfolding bread
    bread-bget i b h l = rw (bread, ◌>>=◌, h) (Fills-IsLocked i b l)

    bread-hangs : bget dev sector s ≡ hangs → bread havedisk1 dev sector s ≡ hangs
    unfolding bread
    bread-hangs h = rw (bread, ◌>>=◌, h) refl

    bread-panics : bget dev sector s ≡ panics → bread havedisk1 dev sector s ≡ panics
    unfolding bread
    bread-panics h = rw (bread, ◌>>=◌, h) refl

    filled-IsCoherent :
        dev ≢ minus_one
        → (i : ℕ)
        → ((j : ℕ) → Memᴰ j s.order → j ≢ i → (s.bufs j).dev ≡ dev → (s.bufs j).sector ≡ sector → ⊥)
        → IsCoherent (put i (filled dev sector s) s)
    filled-IsCoherent real i alone =
        put-IsCoherent i (filled dev sector s) s.drives v real refl (λ f g. cc) alone
          (λ j m ne. refl)

    -- bread, on a cache where no sector stands in two buffers, none is dirty, and idle valid buffers agree
    -- with the disk, of a device that is there: it returns a buffer that was not in use and now holds the
    -- sector with its bytes on the disk, nothing else changes, and the cache is such a one again; or it
    -- panics, and all buffers are in use; or it sleeps, as the sector's buffer is in use.
    pub bread-Reads : dev ≢ minus_one → Reads dev sector s (bread havedisk1 dev sector s)
    unfolding bget
    bread-Reads real = elim (first_lem (λ i. holds dev sector (s.bufs i)) s.order) [
      | inr (i, h, m, t) ↦ elim (Bool-cases (s.bufs i).busy) [
        | inl busy ↦
            rw (bread-hangs (rw (bget, h, busy) refl))
              (i, m, busy, (same (s.bufs i) t).0, (same (s.bufs i) t).1)
        | inr idle ↦
            rw
              (bread-bget i (record (s.bufs i) { busy = true }) (rw (bget, h, idle) refl)
                (record {
                  busy = refl;
                  clean = v.clean i m;
                  same_dev = (same (s.bufs i) t).0;
                  same_sector = (same (s.bufs i) t).1;
                  current = λ valid.
                      v.current i m valid idle
                      ∙ ap (λ d. s.drives d (s.bufs i).sector) (same (s.bufs i) t).0
                      ∙ ap (s.drives dev) (same (s.bufs i) t).1;
                }))
              (
                m,
                idle,
                refl,
                filled-IsCoherent real i (λ j mj ne d e. ne (
                    v.unique j i mj m (λ z. real (sym d ∙ z)) (d ∙ sym (same (s.bufs i) t).0)
                      (e ∙ sym (same (s.bufs i) t).1))),
              )
      ]
      | inl (h, none_there) ↦ elim (last_lem (λ i. not (s.bufs i).busy) s.order) [
        | inr (i, g, m, t) ↦
            rw
              (bread-bget i
                (record (s.bufs i) {
                  dev = dev;
                  sector = sector;
                  busy = true;
                  valid = false;
                  dirty = false;
                })
                (rw (bget, h, g) refl)
                (record {
                  busy = refl;
                  clean = refl;
                  same_dev = refl;
                  same_sector = refl;
                  current = λ f. cc;
                }))
              (
                m,
                not_true t,
                refl,
                filled-IsCoherent real i
                    (λ j mj ne d e. cc (sym (none_there j mj) ∙ holding (s.bufs j) d e)),
              )
        | inl (g, all) ↦ rw (bread-panics (rw (bget, h, g) refl)) (λ i m. not_false (all i m))
      ]
    ]
      where
        same : (b : Buf) → holds dev sector b ≡ true → (b.dev ≡ dev) × (b.sector ≡ sector)
        same b t = (ground arith, ground arith)

        holding : (b : Buf) → b.dev ≡ dev → b.sector ≡ sector → holds dev sector b ≡ true
        holding b d e = ground arith

        not_true : {b : Bool} → not b ≡ true → b ≡ false
        not_true t = ground arith

        not_false : {b : Bool} → not b ≡ false → b ≡ true
        not_false t = ground arith

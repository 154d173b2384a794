-- ===== src/Xv6/Fs/Icache/Unique.antt =====
-- The inode cache of xv6/kernel/fs.c holds no inode twice.
use p.Prelude.{
  ℕ, zero, suc, ◌+◌, ◌<◌, ◌≡◌, ◌≢◌, refl, sym, ap, subst, ◌∙◌, ◌⊎◌, inl, inr, false, ◌&&◌,
  Bool-cases, Option, none, some, List, [], ◌∷◌, ltb, ◌==◌, length, get_or, set, get_or-set_self,
  get_or-set_ne, ℕ_discrete, arith,
}
use p.Word.{Word}
use p.Xv6.Outcome.{Outcome, done, panics, hangs, pure, ◌>>=◌, ◌>>◌}
use p.Xv6.Fs.Icache.{
  IncoreInode, Fs, no_inode, inode_of, Scan, cached, fresh, remember, scan, iget, deref, assign,
}

-- The slot is a reference to that inode.
pub record Refers (dev inum : Word) (ip : IncoreInode) : Type 0 where
  pub in_use : 0 < ip.ref
  pub same_dev : ip.dev ≡ dev
  pub same_inum : ip.inum ≡ inum

-- No two slots refer to one inode.
abbrev pub IsUnique : List IncoreInode → Type 0
IsUnique ips =
    (dev inum : Word) (i j : ℕ)
    → Refers dev inum (get_or ips i no_inode)
    → Refers dev inum (get_or ips j no_inode)
    → i ≡ j

module _ (dev inum : Word) where
  -- What the loop of iget finds, from index i on with the slot `empty` in mind.
  abbrev Scans : List IncoreInode → ℕ → Option ℕ → Scan → Type 0
  Scans ips i empty (cached r) =
      (k : ℕ) × (r ≡ i + k) × (k < length ips) × Refers dev inum (get_or ips k no_inode)
  Scans ips i empty (fresh none) =
      (empty ≡ none) × ((k : ℕ) → k < length ips → 0 < (get_or ips k no_inode).ref)
  Scans ips i empty (fresh (some r)) =
      ((empty ≡ some r)
        ⊎ ((k : ℕ) × (r ≡ i + k) × (k < length ips) × ((get_or ips k no_inode).ref ≡ 0)))
      × ((k : ℕ) → Refers dev inum (get_or ips k no_inode) → ⊥)

  scan-Scans :
      (ips : List IncoreInode) (i : ℕ) (empty : Option ℕ)
      → Scans ips i empty (scan dev inum ips i empty)
  unfolding scan
  scan-Scans [] i none = (refl, λ k h. elim h [ ])
  scan-Scans [] i (some r) = (inl refl, λ k h. elim h.in_use [ ])
  scan-Scans (ip ∷ ips) i empty =
      elim (Bool-cases (ltb 0 ip.ref && (ip.dev == dev && ip.inum == inum))) [
        | inl found ↦
            rw (found, Scans)
              (
                0,
                omega arith,
                omega arith,
                record { in_use = ground arith; same_dev = ground arith; same_inum = ground arith },
              )
        | inr other ↦
            let rest = scan-Scans ips (i + 1) (remember empty i (ip.ref == 0)) in
            rw (other, Scans)
              (later other empty (scan dev inum ips (i + 1) (remember empty i (ip.ref == 0))) rest)
      ]
    where
      not_here :
          (ltb 0 ip.ref && (ip.dev == dev && ip.inum == inum)) ≡ false → Refers dev inum ip → ⊥
      not_here other h = ground (arith, h.in_use, h.same_dev, h.same_inum)

      every :
          0 < ip.ref
          → ((k : ℕ) → k < length ips → 0 < (get_or ips k no_inode).ref)
          → (k : ℕ) → k < length (ip ∷ ips)
          → 0 < (get_or (ip ∷ ips) k no_inode).ref
      every pos all zero lt = pos
      every pos all (suc k) lt = all k (omega arith)

      nowhere :
          (ltb 0 ip.ref && (ip.dev == dev && ip.inum == inum)) ≡ false
          → ((k : ℕ) → Refers dev inum (get_or ips k no_inode) → ⊥)
          → (k : ℕ) → Refers dev inum (get_or (ip ∷ ips) k no_inode)
          → ⊥
      nowhere other h zero q = not_here other q
      nowhere other h (suc k) q = h k q

      later :
          (ltb 0 ip.ref && (ip.dev == dev && ip.inum == inum)) ≡ false
          → (e : Option ℕ) → (r : Scan) → Scans ips (i + 1) (remember e i (ip.ref == 0)) r
          → Scans (ip ∷ ips) i e r
      later other e (cached r) (k, at, lt, q) = (suc k, omega (arith, at), omega (arith, lt), q)
      later other none (fresh none) (h, all) = (refl, every (ground (arith, h)) all)
      later other (some x) (fresh none) (h, all) = cc
      later other none (fresh (some r)) (inl e, none_of) = elim (Bool-cases (ip.ref == 0)) [
        | inl free ↦
            let at : i ≡ r = ground (arith, e, free) in
            (inr (0, omega (arith, at), omega arith, ground arith), nowhere other none_of)
        | inr taken ↦ cc (rw taken at e)
      ]
      later other none (fresh (some r)) (inr (k, at, lt, z), none_of) =
          (inr (suc k, omega (arith, at), omega (arith, lt), z), nowhere other none_of)
      later other (some x) (fresh (some r)) (inl e, none_of) = (inl e, nowhere other none_of)
      later other (some x) (fresh (some r)) (inr (k, at, lt, z), none_of) =
          (inr (suc k, omega (arith, at), omega (arith, lt), z), nowhere other none_of)

  -- Slot i after iget: the slot that referred to the inode, with one reference more; or, where no slot
  -- referred to it, a slot that was not in use, with one reference and its flags clear.
  abbrev pub Referenced : Fs → ℕ → Fs → Type 0
  Referenced s i t =
      (Refers dev inum (inode_of s i)
        × (inode_of t i ≡ record (inode_of s i) { ref = (inode_of s i).ref + 1 }))
      ⊎ (((k : ℕ) → Refers dev inum (inode_of s k) → ⊥)
          × ((inode_of s i).ref ≡ 0)
          × ((inode_of t i).ref ≡ 1)
          × ((inode_of t i).busy ≡ false)
          × ((inode_of t i).valid ≡ false))

  -- What iget does: the index of a slot that refers to the inode, in a cache that holds no inode twice
  -- and is otherwise as before; or a panic, with every slot in use.
  abbrev pub Gets : Fs → Outcome (ℕ × Fs) → Type 0
  Gets s (done (i, t)) =
      Refers dev inum (inode_of t i)
      × Referenced s i t
      × IsUnique t.icache
      × ((j : ℕ) → j ≢ i → inode_of t j ≡ inode_of s j)
      × (t.drives ≡ s.drives)
  Gets s panics = (j : ℕ) → j < length s.icache → 0 < (inode_of s j).ref
  Gets s hangs = ⊥

  -- One slot of a cache without doubles comes to refer to an inode that no other refers to.
  assign-IsUnique :
      (ips : List IncoreInode) (i : ℕ) (ip : IncoreInode)
      → i < length ips
      → IsUnique ips
      → Refers dev inum ip
      → ((k : ℕ) → k ≢ i → Refers dev inum (get_or ips k no_inode) → ⊥)
      → IsUnique (set ips i ip)
  assign-IsUnique ips i ip lt u v others d n j k a b = elim (ℕ_discrete j i) [
    | yes e ↦ elim (ℕ_discrete k i) [ yes f ↦ e ∙ sym f | no f ↦ absurd (clash j k e f a b) ]
    | no e ↦ elim (ℕ_discrete k i) [
      | yes f ↦ absurd (clash k j f e b a)
      | no f ↦ u d n j k (old j e a) (old k f b)
    ]
  ]
    where
      old :
          (j : ℕ)
          → j ≢ i
          → Refers d n (get_or (set ips i ip) j no_inode)
          → Refers d n (get_or ips j no_inode)
      old j e a = subst (Refers d n) (get_or-set_ne ips i j ip no_inode (λ q. e (sym q))) a

      clash :
          (j k : ℕ)
          → j ≡ i
          → k ≢ i
          → Refers d n (get_or (set ips i ip) j no_inode)
          → Refers d n (get_or (set ips i ip) k no_inode)
          → ⊥
      clash j k e f a b =
          let here : Refers d n ip =
            subst (Refers d n)
              (ap (λ x. get_or (set ips i ip) x no_inode) e ∙ get_or-set_self ips i ip no_inode lt)
              a in
          let there : Refers d n (get_or ips k no_inode) = old k f b in
          others k f (record {
            in_use = there.in_use;
            same_dev = there.same_dev ∙ sym here.same_dev ∙ v.same_dev;
            same_inum = there.same_inum ∙ sym here.same_inum ∙ v.same_inum;
          })

  -- iget on a cache that holds no inode twice ends, either with an index of the inode, the cache still
  -- holding no inode twice and its other slots and the disk as they were, or, if every slot is in use,
  -- in a panic. The slot of the index has one reference more, if it referred to the inode before;
  -- otherwise no slot did, and it was not in use and has one reference now.
  pub iget-Gets : (s : Fs) → IsUnique s.icache → Gets s (iget dev inum s)
  unfolding iget
  iget-Gets s u = step (scan dev inum s.icache 0 none) (scan-Scans s.icache 0 none)
    where
      put_at :
          (i : ℕ) (ip : IncoreInode)
          → i < length s.icache
          → Refers dev inum ip
          → ((k : ℕ) → k ≢ i → Refers dev inum (inode_of s k) → ⊥)
          → ((t : Fs) → inode_of t i ≡ ip → Referenced s i t)
          → Gets s (done (i, record s { icache = set s.icache i ip }))
      put_at i ip lt v others counts = (
        subst (Refers dev inum) (sym (get_or-set_self s.icache i ip no_inode lt)) v,
        counts (record s { icache = set s.icache i ip })
            (get_or-set_self s.icache i ip no_inode lt),
        assign-IsUnique s.icache i ip lt u v others,
        λ j ne. get_or-set_ne s.icache i j ip no_inode (λ q. ne (sym q)),
        refl,
      )

      step :
          (r : Scan)
          → Scans s.icache 0 none r
          → Gets s (elim r [
            | cached i ↦ (do ip ← deref i; assign i (record ip { ref = ip.ref + 1 }); pure i) s
            | fresh none ↦ panics
            | fresh (some i) ↦
                (do
                  ip ← deref i
                  assign i
                      (record ip { dev = dev; inum = inum; ref = 1; busy = false; valid = false })
                  pure i)
                  s
          ])
      step (cached i) (k, at, lt, v) =
          let e : i ≡ k = omega (arith, at) in
          let here : Refers dev inum (inode_of s i) = rw e v in
          put_at i _ (omega (arith, e, lt))
            (record { in_use = omega arith; same_dev = here.same_dev; same_inum = here.same_inum })
            (λ j ne q. ne (u dev inum j i q here)) (λ t e. inl (here, e))
      step (fresh none) (e, all) = all
      step (fresh (some i)) (inl e, none_of) = cc
      step (fresh (some i)) (inr (k, at, lt, z), none_of) =
          put_at i _ (omega (arith, at, lt))
            (record { in_use = omega arith; same_dev = refl; same_inum = refl })
            (λ j ne q. none_of j q)
            (λ t e.
              let same : k ≡ i = omega (arith, at) in
              inr (
                none_of,
                ap (λ x. (inode_of s x).ref) (sym same) ∙ z,
                ap (λ (x : IncoreInode). x.ref) e,
                ap (λ (x : IncoreInode). x.busy) e,
                ap (λ (x : IncoreInode). x.valid) e,
              ))

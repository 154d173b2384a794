-- ===== src/Xv6/Spinlock/Matched.antt =====
-- A release of xv6/kernel/spinlock.c undoes an acquire.
use p.Prelude.{
  ℕ, ◌+◌, ◌-◌, ◌<◌, ◌≡◌, refl, Bool, true, false, Bool-cases, inl, inr, Option, none, some, ◌==◌,
  arith,
}
use p.Xv6.Outcome.{done, panics, ◌>>=◌, ◌>>◌}
use p.Xv6.Spinlock.{Cpu, Machine, pushcli, popcli, holding, acquire, release}

-- Where interrupts are on, no pushcli is open.
abbrev pub IsNested : Cpu → Type 0
IsNested c = 0 < c.ncli → c.interrupts ≡ false

abbrev matched : Cpu → Cpu
matched c = record (pushcli c) { ncli = c.ncli; interrupts = c.interrupts }

popcli-pushcli : (c : Cpu) → IsNested c → popcli (pushcli c) ≡ some (matched c)
unfolding pushcli popcli
popcli-pushcli c nested =
    let some_left : (c.ncli + 1 == 0) ≡ false = ground arith in
    let back : c.ncli + 1 - 1 ≡ c.ncli = omega arith in
    elim (Bool-cases (c.ncli == 0)) [
      | inl e ↦ rw (some_left, back, e) refl
      | inr e ↦
          let off : c.interrupts ≡ false = nested (ground (arith, e)) in
          rw (some_left, back, e, off) refl
    ]

acquire_free :
    (me : ℕ) (c : Cpu) (cpu : Option ℕ) (locked : Bool)
    → locked ≡ false
    → acquire me (record { processor = c; lock = record { locked = locked; cpu = cpu } })
      ≡ done (tt, record { processor = pushcli c; lock = record { locked = true; cpu = some me } })
unfolding acquire holding
acquire_free me c cpu false e = refl
acquire_free me c cpu true e = absurd (cc)

self : (me : ℕ) → (me == me) ≡ true
self me = ground arith

-- A processor on which interrupts are off where a pushcli is open acquires a lock that is free: it then
-- holds it, with interrupts off, a second acquire panics, and release returns and leaves the lock free, the
-- count of pushcli and the interrupts being as they were.
pub acquire-release :
    (me : ℕ) (s : Machine)
    → IsNested s.processor
    → s.lock.locked ≡ false
    → (t u : Machine) × (acquire me s ≡ done (tt, t))
      × (holding me t.lock ≡ true)
      × (t.processor.interrupts ≡ false)
      × (acquire me t ≡ panics)
      × (release me t ≡ done (tt, u))
      × (u.lock.locked ≡ false)
      × (u.processor.ncli ≡ s.processor.ncli)
      × (u.processor.interrupts ≡ s.processor.interrupts)
unfolding acquire release holding
acquire-release me s nested free =
    let t : Machine = record {
      processor = pushcli s.processor;
      lock = record { locked = true; cpu = some me };
    } in
    (
      t,
      record { processor = matched s.processor; lock = record { locked = false; cpu = none } },
      acquire_free me s.processor s.lock.cpu s.lock.locked free,
      self me,
      unfold pushcli in refl,
      rw (◌>>=◌, self me) refl,
      rw (◌>>=◌, self me) (rw (◌>>◌, ◌>>=◌, popcli-pushcli s.processor nested) refl),
      refl,
      refl,
      refl,
    )

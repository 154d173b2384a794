-- ===== src/Tests/Spinlock.antt =====
-- The theorems on xv6/kernel/spinlock.c at a fixed input.
use p.Prelude.{◌≡◌, refl, true, false, none, some, arith}
use p.Xv6.Outcome.{done, panics}
use p.Xv6.Spinlock.{Machine, initlock, acquire, release, holding}
use p.Xv6.Spinlock.Matched.{acquire-release}

-- A processor that runs with interrupts, and a lock that another one held.
abbrev machine : Machine
machine = record {
  processor = record { ncli = 0; intena = false; interrupts = true };
  lock = record { locked = false; cpu = some 1 };
}

initlock_runs : (initlock machine).lock ≡ record { locked = false; cpu = none }
unfolding initlock
initlock_runs = refl

acquire-release_example :
    (t u : Machine) × (acquire 0 machine ≡ done (tt, t))
    × (holding 0 t.lock ≡ true)
    × (t.processor.interrupts ≡ false)
    × (acquire 0 t ≡ panics)
    × (release 0 t ≡ done (tt, u))
    × (u.lock.locked ≡ false)
    × (u.processor.ncli ≡ machine.processor.ncli)
    × (u.processor.interrupts ≡ machine.processor.interrupts)
acquire-release_example = acquire-release 0 machine (λ h. absurd (omega (arith, h))) refl

-- ===== src/Xv6/Spinlock.antt =====
-- xv6/kernel/spinlock.c as one processor runs it: a lock that another one holds is waited for. `pcs` and
-- the name of a lock, which serve debugging, are not modelled; ncli does not overflow.
pub mod Matched
use p.Prelude.{ℕ, ◌+◌, ◌-◌, Bool, true, false, ◌&&◌, Option, none, some, ◌==◌, if◌then◌else◌}
use p.Xv6.Outcome.{
  Outcome, done, panics, hangs, Action, pure, panic, hang, gets, modify, ◌>>=◌, ◌>>◌,
}

-- `interrupts` is the flag FL_IF.
pub record Cpu : Type 0 where
  pub ncli : ℕ
  pub intena : Bool
  pub interrupts : Bool

pub record Spinlock : Type 0 where
  pub locked : Bool
  pub cpu : Option ℕ

-- A processor and a lock.
pub record Machine : Type 0 where
  pub processor : Cpu
  pub lock : Spinlock

unfoldable pub initlock : Machine → Machine
initlock s = record s { lock = record { locked = false; cpu = none } }

unfoldable pub pushcli : Cpu → Cpu
pushcli c = record {
  ncli = c.ncli + 1;
  intena = if c.ncli == 0 then c.interrupts else c.intena;
  interrupts = false;
}

-- `none` is a panic.
unfoldable pub popcli : Cpu → Option Cpu
popcli c =
    let left = c.ncli - 1 in
    if c.interrupts
    then none
    else if c.ncli == 0
    then none
    else some (record c { ncli = left; interrupts = left == 0 && c.intena })

-- Is the processor `me` holding the lock?
abbrev pub same_cpu : Option ℕ → ℕ → Bool
same_cpu none me = false
same_cpu (some i) me = i == me

unfoldable pub holding : ℕ → Spinlock → Bool
holding me lk = lk.locked && same_cpu lk.cpu me

unfoldable pub acquire : ℕ → Action Machine (Unit {0})
acquire me = do
  modify λ (s : Machine). record s { processor = pushcli s.processor }
  lk ← gets λ (s : Machine). s.lock
  elim (holding me lk) [
    | true ↦ panic
    | false ↦ elim lk.locked [
      | true ↦ hang
      | false ↦ modify λ (s : Machine). record s { lock = record { locked = true; cpu = some me } }
    ]
  ]

unfoldable pub release : ℕ → Action Machine (Unit {0})
release me = do
  lk ← gets λ (s : Machine). s.lock
  elim (holding me lk) [
    | false ↦ panic
    | true ↦ do
      modify λ (s : Machine). record s { lock = record { locked = false; cpu = none } }
      c ← gets λ (s : Machine). s.processor
      elim (popcli c) [
        | none ↦ panic
        | some c' ↦ modify λ (s : Machine). record s { processor = c' }
      ]
  ]

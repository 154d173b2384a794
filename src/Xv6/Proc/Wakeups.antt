-- ===== src/Xv6/Proc/Wakeups.antt =====
-- xv6/kernel/proc.c loses no wakeup of wait: an invariant of the process table.
use p.Prelude.{
  ℕ, ◌<◌, ◌≡◌, ◌≢◌, refl, sym, ap, subst, ◌∙◌, ◌⊎◌, inl, inr, true, Bool-cases, none, some, ◌==◌,
  if◌then◌else◌, ℕ_discrete, arith,
}
use p.Xv6.Proc.{
  ProcState, unused, embryo, sleeping, runnable, running, zombie, is_state, Channel, process,
  same_channel, Proc, wakeup1,
}

pub is_state_sound : (a b : ProcState) → is_state a b ≡ true → a ≡ b
is_state_sound unused unused h = refl
is_state_sound embryo embryo h = refl
is_state_sound sleeping sleeping h = refl
is_state_sound runnable runnable h = refl
is_state_sound running running h = refl
is_state_sound zombie zombie h = refl
is_state_sound _ _ h = cc

pub is_state_refl : (a : ProcState) → is_state a a ≡ true
is_state_refl unused = refl
is_state_refl _ = refl

-- The process sleeps in wait.
pub record Waits (procs : ℕ → Proc) (i : ℕ) : Type 0 where
  pub asleep : (procs i).state ≡ sleeping
  pub on_self : (procs i).chan ≡ some (process i)

-- No process sleeps in wait while it has a zombie among its children; besides, init has no parent and
-- its slot is in use, and no process is its own parent.
pub record IsSound (init : ℕ) (procs : ℕ → Proc) : Type 0 where
  pub no_lost :
      (i j : ℕ) → Waits procs i → (procs j).parent ≡ some i → j < 64 → (procs j).state ≢ zombie
  pub root : (procs init).parent ≡ none
  pub alive : (procs init).state ≢ unused
  pub no_self : (i : ℕ) → (procs i).parent ≢ some i

abbrev pub update : (ℕ → Proc) → ℕ → Proc → ℕ → Proc
update procs c p j = if j == c then p else procs j

pub update_self : (procs : ℕ → Proc) (c : ℕ) (p : Proc) → update procs c p c ≡ p
update_self procs c p = ground arith

pub update_ne : (procs : ℕ → Proc) (c : ℕ) (p : Proc) (j : ℕ) → j ≢ c → update procs c p j ≡ procs j
update_ne procs c p j h = ground (arith, h)

-- A slot is replaced by one that waits only if it did, and is a zombie only if it was one with that
-- parent or its parent does not wait.
pub update-IsSound :
    {init : ℕ} {procs : ℕ → Proc} (c : ℕ) (p : Proc)
    → IsSound init procs
    → (p.state ≡ sleeping → p.chan ≡ some (process c) → Waits procs c)
    → (p.state ≡ zombie
        → (((procs c).state ≡ zombie) × (p.parent ≡ (procs c).parent))
          ⊎ ((q : ℕ) → p.parent ≡ some q → Waits procs q → ⊥))
    → (p.parent ≢ some c)
    → (c ≡ init → (p.parent ≡ none) × (p.state ≢ unused))
    → IsSound init (update procs c p)
update-IsSound {init} {procs} c p v awake dead own first = record {
  no_lost = λ i j w child lt z. elim (ℕ_discrete j c) [
    | yes f ↦
        let here : update procs c p j ≡ p = at j f in
        let parent : p.parent ≡ some i = sym (ap (λ (x : Proc). x.parent) here) ∙ child in
        elim (dead (sym (ap (λ (x : Proc). x.state) here) ∙ z)) [
          | inl (was, same) ↦ v.no_lost i c (old i w) (sym same ∙ parent) (rw (← f) lt) was
          | inr nobody ↦ nobody i parent (old i w)
        ]
    | no nf ↦
        let there : update procs c p j ≡ procs j = update_ne procs c p j nf in
        v.no_lost i j (old i w) (sym (ap (λ (x : Proc). x.parent) there) ∙ child) lt
          (sym (ap (λ (x : Proc). x.state) there) ∙ z)
  ];
  root = elim (ℕ_discrete init c) [
    | yes e ↦ ap (λ (x : Proc). x.parent) (at init e) ∙ (first (sym e)).0
    | no ne ↦ ap (λ (x : Proc). x.parent) (update_ne procs c p init ne) ∙ v.root
  ];
  alive = λ q. elim (ℕ_discrete init c) [
    | yes e ↦ (first (sym e)).1 (sym (ap (λ (x : Proc). x.state) (at init e)) ∙ q)
    | no ne ↦ v.alive (sym (ap (λ (x : Proc). x.state) (update_ne procs c p init ne)) ∙ q)
  ];
  no_self = λ i q. elim (ℕ_discrete i c) [
    | yes e ↦ own (sym (ap (λ (x : Proc). x.parent) (at i e)) ∙ q ∙ ap some e)
    | no ne ↦ v.no_self i (sym (ap (λ (x : Proc). x.parent) (update_ne procs c p i ne)) ∙ q)
  ];
}
  where
    at : (j : ℕ) → j ≡ c → update procs c p j ≡ p
    at j e = ap (update procs c p) e ∙ update_self procs c p

    old : (i : ℕ) → Waits (update procs c p) i → Waits procs i
    old i w = elim (ℕ_discrete i c) [
      | yes e ↦ subst (Waits procs) (sym e) (
          awake (sym (ap (λ (x : Proc). x.state) (at i e)) ∙ w.asleep)
            (sym (ap (λ (x : Proc). x.chan) (at i e)) ∙ w.on_self ∙ ap (λ k. some (process k)) e))
      | no ne ↦ record {
        asleep = sym (ap (λ (x : Proc). x.state) (update_ne procs c p i ne)) ∙ w.asleep;
        on_self = sym (ap (λ (x : Proc). x.chan) (update_ne procs c p i ne)) ∙ w.on_self;
      }
    ]

-- What wakeup1 does to a slot: nothing, or a sleeper on the channel becomes runnable.
pub wakeup1-cases :
    (chan : Channel) (procs : ℕ → Proc) (i : ℕ)
    → (wakeup1 chan procs i ≡ procs i)
      ⊎ (((procs i).state ≡ sleeping)
          × (wakeup1 chan procs i ≡ record (procs i) { state = runnable }))
unfolding wakeup1
wakeup1-cases chan procs i = elim (Bool-cases (is_state (procs i).state sleeping)) [
  | inl asleep ↦ elim (Bool-cases (same_channel (procs i).chan chan)) [
    | inl same ↦ inr (is_state_sound _ _ asleep, rw (asleep, same) refl)
    | inr other ↦ inl (rw (asleep, other) refl)
  ]
  | inr awake ↦ inl (rw awake refl)
]

pub wakeup1-parent :
    (chan : Channel) (procs : ℕ → Proc) (i : ℕ) → (wakeup1 chan procs i).parent ≡ (procs i).parent
wakeup1-parent chan procs i = elim (wakeup1-cases chan procs i) [
  | inl e ↦ ap (λ (x : Proc). x.parent) e
  | inr (a, e) ↦ ap (λ (x : Proc). x.parent) e
]

-- A state that is neither sleeping nor runnable is as before.
wakeup1-state :
    (chan : Channel) (procs : ℕ → Proc) (i : ℕ) {a : ProcState}
    → a ≢ runnable
    → (wakeup1 chan procs i).state ≡ a
    → (procs i).state ≡ a
wakeup1-state chan procs i ne h = elim (wakeup1-cases chan procs i) [
  | inl e ↦ sym (ap (λ (x : Proc). x.state) e) ∙ h
  | inr (a, e) ↦ absurd (ne (sym h ∙ ap (λ (x : Proc). x.state) e))
]

pub wakeup1-Waits :
    (chan : Channel) (procs : ℕ → Proc) (i : ℕ) → Waits (wakeup1 chan procs) i → Waits procs i
wakeup1-Waits chan procs i w = record {
  asleep = wakeup1-state chan procs i (λ e. cc) w.asleep;
  on_self = elim (wakeup1-cases chan procs i) [
    | inl e ↦ sym (ap (λ (x : Proc). x.chan) e) ∙ w.on_self
    | inr (a, e) ↦ sym (ap (λ (x : Proc). x.chan) e) ∙ w.on_self
  ];
}

pub wakeup1-IsSound :
    {init : ℕ} {procs : ℕ → Proc} (chan : Channel)
    → IsSound init procs
    → IsSound init (wakeup1 chan procs)
wakeup1-IsSound {init} {procs} chan v = record {
  no_lost = λ i j w child lt z.
      v.no_lost i j (wakeup1-Waits chan procs i w) (sym (wakeup1-parent chan procs j) ∙ child) lt
        (wakeup1-state chan procs j (λ e. cc) z);
  root = wakeup1-parent chan procs init ∙ v.root;
  alive = λ q. v.alive (wakeup1-state chan procs init (λ e. cc) q);
  no_self = λ i q. v.no_self i (sym (wakeup1-parent chan procs i) ∙ q);
}

-- Who waited is awake.
pub wakeup1-awake : (procs : ℕ → Proc) (q : ℕ) → Waits (wakeup1 (process q) procs) q → ⊥
unfolding wakeup1
wakeup1-awake procs q w =
    let old = wakeup1-Waits (process q) procs q w in
    let same : (q == q) ≡ true = ground arith in
    let woken : wakeup1 (process q) procs q ≡ record (procs q) { state = runnable } =
      rw (old.asleep, old.on_self, same) refl in
    cc (sym w.asleep ∙ ap (λ (x : Proc). x.state) woken)

-- ===== src/Xv6/Proc/Wait.antt =====
-- wait of xv6/kernel/proc.c: a pass that finds no zombie leaves none among the children, so that the
-- process may sleep; one that finds a zombie reaps it.
use p.Prelude.{
  ℕ, zero, suc, ◌+◌, ◌<◌, ◌≤◌, ◌≡◌, ◌≢◌, refl, sym, ap, ◌∙◌, inl, inr, Bool, true, false, ◌||◌, not,
  Bool-cases, Option, none, some, [], ◌∷◌, if◌then◌else◌, ℕ_discrete, arith,
}
use p.Word.{Word, minus_one}
use p.Xv6.Proc.{
  freevm, kfree, unused, sleeping, running, zombie, is_state, Channel, process, Proc, Ptable,
  points_to, wait_scan, found, none_dead, Children, reap, sleep, wait,
}
use p.Xv6.Proc.Wakeups.{is_state_sound, IsSound, update, update_self, update_ne, update-IsSound}
use p.Xv6.Proc.Exit.{points_to_sound}

-- No child of the process is a zombie, among k slots from i on.
abbrev pub NoneDead : (ℕ → Proc) → ℕ → ℕ → ℕ → Type 0
NoneDead procs cur k i =
    (j : ℕ) → i ≤ j → j < i + k → (procs j).parent ≡ some cur → (procs j).state ≢ zombie

-- What a pass answers.
abbrev pub Answers : (ℕ → Proc) → ℕ → ℕ → ℕ → Children → Type 0
Answers procs cur k i (found j) =
    ((procs j).parent ≡ some cur) × (((procs j).state ≡ zombie) × (j < i + k))
Answers procs cur k i (none_dead b) = NoneDead procs cur k i

points_to_self : (o : Option ℕ) (i : ℕ) → o ≡ some i → points_to o i ≡ true
points_to_self none i h = cc
points_to_self (some j) i h = let e : j ≡ i = cc in ground (arith, e)

Answers-suc :
    (procs : ℕ → Proc) (cur k i : ℕ) (c : Children)
    → ((procs i).parent ≡ some cur → (procs i).state ≢ zombie)
    → Answers procs cur k (i + 1) c
    → Answers procs cur (suc k) i c
Answers-suc procs cur k i (found j) h (a, (b, lt)) = (a, (b, (omega arith)))
Answers-suc procs cur k i (none_dead b) h rest = λ j le lt child. elim (ℕ_discrete j i) [
  | yes e ↦
      λ z. h (ap (λ m. (procs m).parent) (sym e) ∙ child) (ap (λ m. (procs m).state) (sym e) ∙ z)
  | no ne ↦ rest j (omega arith) (omega arith) child
]

pub wait_scan-Answers :
    (procs : ℕ → Proc) (cur k i : ℕ) (b : Bool) → Answers procs cur k i (wait_scan procs cur k i b)
unfolding wait_scan
wait_scan-Answers procs cur zero i b = λ j le lt child. absurd (omega arith)
wait_scan-Answers procs cur (suc k) i b = elim (Bool-cases (points_to (procs i).parent cur)) [
  | inl mine ↦ elim (Bool-cases (is_state (procs i).state zombie)) [
    | inl dead ↦
        rw (mine, dead) (points_to_sound _ _ mine, (is_state_sound _ _ dead, (omega arith)))
    | inr other ↦
        rw (mine, other)
          (Answers-suc procs cur k i _ (λ _ z. cc (sym (ap (λ a. is_state a zombie) z) ∙ other))
            (wait_scan-Answers procs cur k (i + 1) (b || true)))
  ]
  | inr other ↦ rw other (
      Answers-suc procs cur k i _ (λ child. absurd (cc (sym (points_to_self _ _ child) ∙ other)))
        (wait_scan-Answers procs cur k (i + 1) (b || false)))
]

-- A process without a zombie child may sleep in wait.
pub sleep-IsSound :
    {init : ℕ} (cur : ℕ) (chan : Channel) (t : Ptable)
    → IsSound init t.procs
    → (t.procs cur).state ≡ running
    → (chan ≡ process cur → NoneDead t.procs cur 64 0)
    → IsSound init (sleep cur chan t).procs
unfolding sleep
sleep-IsSound {init} cur chan t v now childless = record {
  no_lost = λ i j w child lt z. elim (ℕ_discrete j cur) [
    | yes e ↦ cc (sym (ap (λ (x : Proc). x.state) (at j e)) ∙ z)
    | no ne ↦
        let there = update_ne t.procs cur p j ne in
        let kid = sym (ap (λ (x : Proc). x.parent) there) ∙ child in
        let dead = sym (ap (λ (x : Proc). x.state) there) ∙ z in
        elim (ℕ_discrete i cur) [
          | yes f ↦
              let on : some chan ≡ some (process cur) =
                sym (ap (λ (x : Proc). x.chan) (at i f))
                ∙ w.on_self
                ∙ ap (λ m. some (process m)) f in
              let same : chan ≡ process cur = cc in
              childless same j (omega arith) lt (kid ∙ ap some f) dead
          | no nf ↦
              let apart = update_ne t.procs cur p i nf in
              v.no_lost i j
                (record {
                  asleep = sym (ap (λ (x : Proc). x.state) apart) ∙ w.asleep;
                  on_self = sym (ap (λ (x : Proc). x.chan) apart) ∙ w.on_self;
                })
                kid lt dead
        ]
  ];
  root = parent init ∙ v.root;
  alive = λ q. elim (ℕ_discrete init cur) [
    | yes e ↦ cc (sym (ap (λ (x : Proc). x.state) (at init e)) ∙ q)
    | no ne ↦ v.alive (sym (ap (λ (x : Proc). x.state) (update_ne t.procs cur p init ne)) ∙ q)
  ];
  no_self = λ i q. v.no_self i (sym (parent i) ∙ q);
}
  where
    p : Proc
    p = record (t.procs cur) { chan = some chan; state = sleeping }

    at : (j : ℕ) → j ≡ cur → update t.procs cur p j ≡ p
    at j e = ap (update t.procs cur p) e ∙ update_self t.procs cur p

    parent : (i : ℕ) → (update t.procs cur p i).parent ≡ (t.procs i).parent
    parent i = elim (ℕ_discrete i cur) [
      | yes e ↦ ap (λ (x : Proc). x.parent) (at i e) ∙ ap (λ m. (t.procs m).parent) (sym e)
      | no ne ↦ ap (λ (x : Proc). x.parent) (update_ne t.procs cur p i ne)
    ]

pub reap-IsSound :
    {init : ℕ} (cur i : ℕ) (t : Ptable)
    → IsSound init t.procs
    → (t.procs i).parent ≡ some cur
    → IsSound init (reap i t).procs
unfolding reap
reap-IsSound {init} cur i t v child =
    update-IsSound i _ v (λ s. cc) (λ z. cc) (λ z. cc)
      (λ e. absurd (cc (sym child ∙ ap (λ k. (t.procs k).parent) e ∙ v.root)))

pub wait-IsSound :
    {init : ℕ} (cur : ℕ) (t : Ptable)
    → IsSound init t.procs
    → (t.procs cur).state ≡ running
    → IsSound init (wait cur t).1.procs
unfolding wait
wait-IsSound {init} cur t v now =
    after (wait_scan t.procs cur 64 0 false) (wait_scan-Answers t.procs cur 64 0 false)
  where
    after :
        (c : Children)
        → Answers t.procs cur 64 0 c
        → (let r : Option Word × Ptable = elim c [
          | found i ↦ (some (t.procs i).pid, reap i t)
          | none_dead havekids ↦
              if not havekids || (t.procs cur).killed
              then (some minus_one, t)
              else (none, sleep cur (process cur) t)
        ] in
            IsSound init r.1.procs)
    after (found i) (child, rest) = reap-IsSound cur i t v child
    after (none_dead b) none_there = elim (Bool-cases (not b || (t.procs cur).killed)) [
      | inl e ↦ rw e v
      | inr e ↦ rw e (sleep-IsSound cur (process cur) t v now (λ _. none_there))
    ]

-- The slot of process i is given up in t: it is unused, with no pid, parent or name, the page table and
-- the stack that it had are freed, and the other slots and the next pid are as before.
pub record IsGivenUp (i : ℕ) (s t : Ptable) : Type 0 where
  pub state : (t.procs i).state ≡ unused
  pub pid : (t.procs i).pid ≡ 0
  pub parent : (t.procs i).parent ≡ none
  pub kstack : (t.procs i).kstack ≡ 0
  pub killed : (t.procs i).killed ≡ false
  pub name : (t.procs i).name ≡ []
  pub calls : t.calls ≡ freevm (s.procs i).pgdir ∷ kfree (s.procs i).kstack ∷ s.calls
  pub others : (k : ℕ) → k ≢ i → t.procs k ≡ s.procs k
  pub nextpid : t.nextpid ≡ s.nextpid

reap-IsGivenUp : (i : ℕ) (t : Ptable) → IsGivenUp i t (reap i t)
unfolding reap
reap-IsGivenUp i t =
    let there : (reap i t).procs i ≡ cleared = update_self t.procs i cleared in
    record {
      state = ap (λ (p : Proc). p.state) there;
      pid = ap (λ (p : Proc). p.pid) there;
      parent = ap (λ (p : Proc). p.parent) there;
      kstack = ap (λ (p : Proc). p.kstack) there;
      killed = ap (λ (p : Proc). p.killed) there;
      name = ap (λ (p : Proc). p.name) there;
      calls = refl;
      others = λ k ne. update_ne t.procs i cleared k ne;
      nextpid = refl;
    }
  where
    cleared : Proc
    cleared = record (t.procs i) {
      kstack = 0;
      state = unused;
      pid = 0;
      parent = none;
      name = [];
      killed = false;
    }

-- A process with a zombie among its children does not sleep in wait: wait gives the pid of such a child
-- and gives up its slot, which is then unused, with no pid, parent or name; the child's page table and
-- stack are freed, and the other slots are as before.
pub wait-reap :
    (cur j : ℕ) (t : Ptable)
    → j < 64
    → (t.procs j).parent ≡ some cur
    → (t.procs j).state ≡ zombie
    → (i : ℕ) × (u : Ptable) × ((t.procs i).parent ≡ some cur)
      × ((t.procs i).state ≡ zombie)
      × (wait cur t ≡ (some (t.procs i).pid, u))
      × IsGivenUp i t u
unfolding wait
wait-reap cur j t lt child dead =
    go (wait_scan t.procs cur 64 0 false) refl (wait_scan-Answers t.procs cur 64 0 false)
  where
    go :
        (c : Children)
        → wait_scan t.procs cur 64 0 false ≡ c
        → Answers t.procs cur 64 0 c
        → (i : ℕ) × (u : Ptable) × ((t.procs i).parent ≡ some cur)
          × ((t.procs i).state ≡ zombie)
          × (wait cur t ≡ (some (t.procs i).pid, u))
          × IsGivenUp i t u
    go (found i) e (mine, (z, below)) =
        (i, reap i t, mine, z, rw (wait, e) refl, reap-IsGivenUp i t)
    go (none_dead b) e nobody = absurd (nobody j (omega arith) lt child dead)

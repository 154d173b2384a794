-- ===== src/Xv6/Proc/Safe.antt =====
-- The steps of xv6/kernel/proc.c keep the invariant of the process table.
use p.Prelude.{
  ℕ, zero, suc, ◌+◌, ◌≡◌, ◌≢◌, refl, sym, ap, ◌∙◌, fun_ext, inl, inr, true, false, Bool-cases,
  Option, none, some, take, ◌==◌,
}
use p.Word.{Word, add32}
use p.Xv6.Proc.{
  share_files, copy_process, wakeup, set_proc, unused, embryo, sleeping, runnable, running, zombie,
  is_state, address, Proc, Ptable, unused_slot, allocproc, growproc, fork, run, yield, tidy_up,
  find_pid, kill,
}
use p.Xv6.Proc.Steps.{
  Step, forks, grows, exits, waits, runs, yields, sleeps, tidies, wakes, kills, Steps, stop, next,
}
use p.Xv6.Proc.Wakeups.{
  is_state_sound, IsSound, update, update_self, update_ne, update-IsSound, wakeup1-IsSound,
}
use p.Xv6.Proc.Exit.{exit-IsSound}
use p.Xv6.Proc.Wait.{sleep-IsSound, wait-IsSound}

-- A slot that stays in use, neither asleep nor a zombie, with its parent.
own-IsSound :
    {init : ℕ} {procs : ℕ → Proc} (cur : ℕ) (p : Proc)
    → IsSound init procs
    → p.parent ≡ (procs cur).parent
    → p.state ≢ sleeping
    → p.state ≢ zombie
    → p.state ≢ unused
    → IsSound init (update procs cur p)
own-IsSound {init} {procs} cur p v same asleep dead gone =
    update-IsSound cur p v (λ s. absurd (asleep s)) (λ z. absurd (dead z))
      (λ e. v.no_self cur (sym same ∙ e))
      (λ e. (same ∙ ap (λ k. (procs k).parent) e ∙ v.root, gone))

find_unused_lem :
    (procs : ℕ → Proc) (k i : ℕ) {j : ℕ} → unused_slot procs k i ≡ some j → (procs j).state ≡ unused
unfolding unused_slot
find_unused_lem procs zero i h = cc
find_unused_lem procs (suc k) i {j} h = elim (Bool-cases (is_state (procs i).state unused)) [
  | inl e ↦
      let here : some i ≡ some j = rw (← h, e) refl in
      let same : i ≡ j = cc in ap (λ m. (procs m).state) (sym same) ∙ is_state_sound _ _ e
  | inr e ↦
      let there : unused_slot procs k (i + 1) ≡ some j = rw (← h, e) refl in
      find_unused_lem procs k (i + 1) there
]

-- An unused slot, taken or left so, for one that is neither asleep nor a zombie.
slot-IsSound :
    {init : ℕ} {procs : ℕ → Proc} (i : ℕ) (p : Proc)
    → IsSound init procs
    → (procs i).state ≡ unused
    → p.state ≢ sleeping
    → p.state ≢ zombie
    → p.parent ≢ some i
    → IsSound init (update procs i p)
slot-IsSound {init} {procs} i p v free asleep dead own =
    update-IsSound i p v (λ s. absurd (asleep s)) (λ z. absurd (dead z)) own
      (λ e. absurd (v.alive (ap (λ k. (procs k).state) (sym e) ∙ free)))

-- A slot replaced twice.
update-update :
    (procs : ℕ → Proc) (i : ℕ) (p q : Proc) → update (update procs i p) i q ≡ update procs i q
update-update procs i p q =
    fun_ext λ j. elim (Bool-cases (j == i)) [ inl e ↦ rw e refl | inr e ↦ rw e refl ]

allocproc-none :
    (stack : Word) (t : Ptable) → unused_slot t.procs 64 0 ≡ none → allocproc stack t ≡ (none, t)
unfolding allocproc
allocproc-none stack t e = rw (allocproc, e) refl

allocproc-failed :
    (stack : Word) (t : Ptable) {i : ℕ}
    → unused_slot t.procs 64 0 ≡ some i
    → (stack == 0) ≡ true
    → allocproc stack t ≡ (
      none,
      set_proc
          (record t { nextpid = add32 t.nextpid 1 })
          i
          (record (t.procs i) { state = unused; pid = t.nextpid; kstack = stack }),
    )
unfolding allocproc
allocproc-failed stack t e s = rw (allocproc, e, s) refl

allocproc-some :
    (stack : Word) (t : Ptable) {i : ℕ}
    → unused_slot t.procs 64 0 ≡ some i
    → (stack == 0) ≡ false
    → allocproc stack t ≡ (
      some i,
      set_proc
          (record t { nextpid = add32 t.nextpid 1 })
          i
          (record (t.procs i) { state = embryo; pid = t.nextpid; kstack = stack }),
    )
unfolding allocproc
allocproc-some stack t e s = rw (allocproc, e, s) refl

fork-IsSound :
    {init : ℕ} (cur : ℕ) (stack pgdir : Word) (t : Ptable)
    → IsSound init t.procs
    → (t.procs cur).state ≡ running
    → IsSound init (fork cur stack pgdir t).1.procs
unfolding fork copy_process
fork-IsSound {init} cur stack pgdir t v now = go (unused_slot t.procs 64 0) refl
  where
    child : Proc → Proc → Proc
    child np p = record np {
      pgdir = pgdir;
      sz = p.sz;
      parent = some cur;
      ofile = share_files p.ofile np.ofile;
      cwd = p.cwd;
      state = runnable;
      name = take 15 p.name;
    }

    go :
        (o : Option ℕ)
        → unused_slot t.procs 64 0 ≡ o
        → IsSound init (fork cur stack pgdir t).1.procs
    go none e = rw (allocproc-none stack t e) v
    go (some i) e =
        let free = find_unused_lem t.procs 64 0 e in
        let apart : cur ≢ i = λ f. cc (sym now ∙ ap (λ k. (t.procs k).state) f ∙ free) in
        let new = record (t.procs i) { state = embryo; pid = t.nextpid; kstack = stack } in
        elim (Bool-cases (stack == 0)) [
          | inl s ↦ rw (allocproc-failed stack t e s) (
              slot-IsSound i (record new { state = unused }) v free (λ z. cc) (λ z. cc)
                (v.no_self i))
          | inr s ↦ elim (Bool-cases (pgdir == 0)) [
            | inl g ↦
                rw
                  (
                    allocproc-some stack t e s,
                    g,
                    update_self t.procs i new,
                    update-update t.procs i new (record new { kstack = 0; state = unused }),
                  )
                  (slot-IsSound i _ v free (λ z. cc) (λ z. cc) (v.no_self i))
            | inr g ↦
                rw
                  (
                    allocproc-some stack t e s,
                    g,
                    update_self t.procs i new,
                    update_ne t.procs i new cur apart,
                    update-update t.procs i new (child new (t.procs cur)),
                  )
                  (slot-IsSound i _ v free (λ z. cc) (λ z. cc) (λ z. apart cc))
          ]
        ]

growproc-IsSound :
    {init : ℕ} (cur : ℕ) (n grown : Word) (t : Ptable)
    → IsSound init t.procs
    → (t.procs cur).state ≡ running
    → IsSound init (growproc cur n grown t).1.procs
unfolding growproc
growproc-IsSound cur n grown t v now =
    let sized = λ (sz : Word).
      own-IsSound cur (record (t.procs cur) { sz = sz }) v refl (λ s. cc (sym now ∙ s))
        (λ s. cc (sym now ∙ s)) (λ s. cc (sym now ∙ s)) in
    elim (Bool-cases (n == 0)) [
      | inl e ↦ rw e (sized (t.procs cur).sz)
      | inr e ↦ elim (Bool-cases (grown == 0)) [
        | inl g ↦ rw (e, g) v
        | inr g ↦ rw (e, g) (sized grown)
      ]
    ]

kill-IsSound :
    {init : ℕ} (pid : Word) (t : Ptable) → IsSound init t.procs → IsSound init (kill pid t).1.procs
unfolding kill
kill-IsSound {init} pid t v = go (find_pid t.procs pid 64 0) refl
  where
    go : (o : Option ℕ) → find_pid t.procs pid 64 0 ≡ o → IsSound init (kill pid t).1.procs
    go none e = rw (kill, e) v
    go (some i) e = elim (Bool-cases (is_state (t.procs i).state sleeping)) [
      | inl s ↦ rw (kill, e, s) (own-IsSound i _ v refl (λ z. cc) (λ z. cc) (λ z. cc))
      | inr s ↦
          rw (kill, e, s)
            (update-IsSound i _ v (λ a c. record { asleep = a; on_self = c }) (λ z. inl (z, refl))
              (v.no_self i)
              (λ f. (
                ap (λ k. (t.procs k).parent) f ∙ v.root,
                λ u. v.alive (ap (λ k. (t.procs k).state) (sym f) ∙ u),
              )))
    ]

Step-IsSound :
    {init : ℕ} {t u : Ptable} → IsSound init t.procs → Step init t u → IsSound init u.procs
unfolding run yield tidy_up wakeup
Step-IsSound v (forks cur stack pgdir now) = fork-IsSound cur stack pgdir _ v now
Step-IsSound v (grows cur n grown now) = growproc-IsSound cur n grown _ v now
Step-IsSound {init} {t} v (exits cur now h) = exit-IsSound cur init t v now h
Step-IsSound v (waits cur now) = wait-IsSound cur _ v now
Step-IsSound v (runs i lt now) = own-IsSound i _ v refl (λ s. cc) (λ s. cc) (λ s. cc)
Step-IsSound v (yields cur now) = own-IsSound cur _ v refl (λ s. cc) (λ s. cc) (λ s. cc)
Step-IsSound v (sleeps cur chan now) = sleep-IsSound cur (address chan) _ v now (λ e. cc)
Step-IsSound v (tidies cur now) =
    own-IsSound cur _ v refl (λ s. cc (sym now ∙ s)) (λ s. cc (sym now ∙ s)) (λ s. cc (sym now ∙ s))
Step-IsSound v (wakes chan) = wakeup1-IsSound (address chan) v
Step-IsSound v (kills pid) = kill-IsSound pid _ v

-- From a table where no process sleeps in wait while it has a zombie child, initproc has no parent and
-- its slot is in use, and no process is its own parent, any number of steps reach such a table only:
-- those of fork, growproc, exit, wait, scheduler, yield, sleep on another channel, wakeup of one, and kill.
pub Steps-IsSound :
    {init : ℕ} {t u : Ptable} → IsSound init t.procs → Steps init t u → IsSound init u.procs
Steps-IsSound v stop = v
Steps-IsSound v (next s rest) = Steps-IsSound (Step-IsSound v s) rest

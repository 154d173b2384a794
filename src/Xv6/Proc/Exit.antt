-- ===== src/Xv6/Proc/Exit.antt =====
-- exit of xv6/kernel/proc.c: its children go to init, which wakes for a zombie among them, and its own
-- parent is awake when it becomes one.
use p.Prelude.{
  ℕ, zero, suc, ◌+◌, ◌≡◌, ◌≢◌, refl, sym, ap, subst, ◌∙◌, fun_ext, inl, inr, Bool, true, false,
  Bool-cases, Option, none, some, ◌==◌, replicate, if◌then◌else◌, ℕ_discrete, arith,
}
use p.Xv6.Proc.{
  zombie, running, is_state, process, Proc, Ptable, points_to, wakeup1, abandon, wake_parent, exit,
}
use p.Xv6.Proc.Wakeups.{
  is_state_sound, Waits, IsSound, update, update_self, update_ne, update-IsSound, wakeup1-parent,
  wakeup1-Waits, wakeup1-IsSound, wakeup1-awake,
}

pub points_to_sound : (o : Option ℕ) (i : ℕ) → points_to o i ≡ true → o ≡ some i
points_to_sound none i h = cc
points_to_sound (some j) i h = ap some (ground arith)

-- Who waits with a slot replaced that keeps its state and channel waits without.
update-Waits :
    (procs : ℕ → Proc) (c : ℕ) (p : Proc)
    → p.state ≡ (procs c).state
    → p.chan ≡ (procs c).chan
    → (q : ℕ) → Waits (update procs c p) q
    → Waits procs q
update-Waits procs c p s h q w = elim (ℕ_discrete q c) [
  | yes e ↦
      let at : update procs c p q ≡ p = ap (update procs c p) e ∙ update_self procs c p in
      subst (Waits procs) (sym e) (record {
        asleep = sym s ∙ sym (ap (λ (x : Proc). x.state) at) ∙ w.asleep;
        on_self =
            sym h ∙ sym (ap (λ (x : Proc). x.chan) at) ∙ w.on_self ∙ ap (λ k. some (process k)) e;
      })
  | no ne ↦ record {
    asleep = sym (ap (λ (x : Proc). x.state) (update_ne procs c p q ne)) ∙ w.asleep;
    on_self = sym (ap (λ (x : Proc). x.chan) (update_ne procs c p q ne)) ∙ w.on_self;
  }
]

-- A wakeup and the replacement of a slot by one that does not sleep may be exchanged.
wakeup1-update :
    (q c : ℕ) (procs : ℕ → Proc) (p : Proc)
    → p.state ≡ zombie
    → wakeup1 (process q) (update procs c p) ≡ update (wakeup1 (process q) procs) c p
unfolding wakeup1
wakeup1-update q c procs p h = fun_ext λ j. elim (ℕ_discrete j c) [
  | yes e ↦ let at : (j == c) ≡ true = ground (arith, e) in rw (at, h) refl
  | no ne ↦ let at : (j == c) ≡ false = ground (arith, ne) in rw at refl
]

-- What the loop of exit keeps.
record Keeps (init cur : ℕ) (procs after : ℕ → Proc) : Type 0 where
  pub sound : IsSound init after
  pub parent : (after cur).parent ≡ (procs cur).parent
  pub waits : (q : ℕ) → Waits after q → Waits procs q

module _ (init cur : ℕ) (not_init : cur ≢ init) where
  -- One child.
  given-Keeps :
      (procs : ℕ → Proc) (i : ℕ)
      → IsSound init procs
      → (procs i).parent ≡ some cur
      → Keeps init cur procs (
          if is_state (procs i).state zombie
          then wakeup1 (process init) (update procs i (record (procs i) { parent = some init }))
          else update procs i (record (procs i) { parent = some init }))
  given-Keeps procs i v child = elim (Bool-cases (is_state (procs i).state zombie)) [
    | inl dead ↦
        let z : (procs i).state ≡ zombie = is_state_sound _ _ dead in
        let swap = wakeup1-update init i procs p z in
        rw dead (record {
          sound = subst (IsSound init) (sym swap) (
              update-IsSound i p (wakeup1-IsSound (process init) v) (λ s. cc (sym s ∙ z))
                (λ _. inr (λ q e w.
                  wakeup1-awake procs init
                    (subst (Waits (wakeup1 (process init) procs)) (some-inj (sym e)) w)))
                (λ e. not_first (sym (some-inj e))) (λ e. absurd (not_first e)));
          parent =
              wakeup1-parent (process init) (update procs i p) cur
              ∙ ap (λ (x : Proc). x.parent) (update_ne procs i p cur apart);
          waits = λ q w.
              update-Waits procs i p refl refl q
                (wakeup1-Waits (process init) (update procs i p) q w);
        })
    | inr other ↦ rw other (record {
      sound =
          update-IsSound i p v (λ s h. record { asleep = s; on_self = h })
            (λ z. cc (sym (ap (λ a. is_state a zombie) z) ∙ other))
            (λ e. not_first (sym (some-inj e))) (λ e. absurd (not_first e));
      parent = ap (λ (x : Proc). x.parent) (update_ne procs i p cur apart);
      waits = update-Waits procs i p refl refl;
    })
  ]
    where
      p : Proc
      p = record (procs i) { parent = some init }

      some-inj : {a b : ℕ} → some a ≡ some b → a ≡ b
      some-inj h = cc

      not_first : i ≢ init
      not_first e = cc (sym child ∙ ap (λ k. (procs k).parent) e ∙ v.root)

      apart : cur ≢ i
      apart e = v.no_self i (child ∙ ap some e)

  abandon-Keeps :
      (k i : ℕ) (procs : ℕ → Proc)
      → IsSound init procs
      → Keeps init cur procs (abandon cur init k i procs)
  unfolding abandon
  abandon-Keeps zero i procs v = record { sound = v; parent = refl; waits = λ q w. w }
  abandon-Keeps (suc k) i procs v = elim (Bool-cases (points_to (procs i).parent cur)) [
    | inl mine ↦
        let one = given-Keeps procs i v (points_to_sound _ _ mine) in
        let rest = abandon-Keeps k (i + 1) _ one.sound in
        rw mine (record {
          sound = rest.sound;
          parent = rest.parent ∙ one.parent;
          waits = λ q w. one.waits q (rest.waits q w);
        })
    | inr other ↦ rw other (abandon-Keeps k (i + 1) procs v)
  ]

wake_parent-IsSound :
    {init : ℕ} {procs : ℕ → Proc} (o : Option ℕ)
    → IsSound init procs
    → IsSound init (wake_parent o procs)
wake_parent-IsSound none v = v
wake_parent-IsSound (some j) v = wakeup1-IsSound (process j) v

wake_parent-parent :
    (o : Option ℕ) (procs : ℕ → Proc) (i : ℕ) → (wake_parent o procs i).parent ≡ (procs i).parent
wake_parent-parent none procs i = refl
wake_parent-parent (some j) procs i = wakeup1-parent (process j) procs i

wake_parent-awake :
    (o : Option ℕ) (procs : ℕ → Proc) (q : ℕ) → o ≡ some q → Waits (wake_parent o procs) q → ⊥
wake_parent-awake none procs q h w = cc
wake_parent-awake (some j) procs q h w =
    let e : j ≡ q = cc in
    wakeup1-awake procs q (subst (λ k. Waits (wakeup1 (process k) procs) q) e w)

-- What exit leaves when it does not panic.
taken :
    {A : Type 0} (b : Bool) {x y : A}
    → (if b then none else some x) ≡ some y
    → (b ≡ false) × (x ≡ y)
taken true h = cc
taken false h = (refl, cc)

pub exit-IsSound :
    (cur init : ℕ) (t : Ptable) {t' : Ptable}
    → IsSound init t.procs
    → (t.procs cur).state ≡ running
    → exit cur init t ≡ some t'
    → IsSound init t'.procs
unfolding exit
exit-IsSound cur init t v now h =
    let (other, made) = taken (cur == init) h in
    let p = t.procs cur in
    let closed : Proc = record p { ofile = replicate 16 none; cwd = none } in
    let not_init : cur ≢ init = λ e. ground (arith, e, other) in
    let start =
      update-IsSound cur closed v (λ s. cc (sym now ∙ s)) (λ z. cc (sym now ∙ z)) (v.no_self cur)
        (λ e. absurd (not_init e)) in
    let woken = wake_parent-IsSound p.parent start in
    let kept = abandon-Keeps init cur not_init 64 0 _ woken in
    let procs = abandon cur init 64 0 (wake_parent p.parent (update t.procs cur closed)) in
    let parent : (procs cur).parent ≡ p.parent =
      kept.parent
      ∙ wake_parent-parent p.parent _ cur
      ∙ ap (λ (x : Proc). x.parent) (update_self t.procs cur closed) in
    subst (λ (u : Ptable). IsSound init u.procs) made
      (update-IsSound cur (record (procs cur) { state = zombie }) kept.sound (λ s. cc)
        (λ _. inr (λ q e w. wake_parent-awake p.parent _ q (sym parent ∙ e) (kept.waits q w)))
        (kept.sound.no_self cur) (λ e. absurd (not_init e)))

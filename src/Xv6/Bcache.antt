-- ===== src/Xv6/Bcache.antt =====
-- The buffer cache of xv6/kernel/bio.c over the disk of xv6/kernel/ide.c. A pointer to a buffer is its
-- index in bcache.buf, and the links prev and next appear as the list of the buffers from head.next to
-- head.prev. bcache.lock makes each function one step. Of iderw the request is modelled as done when
-- it returns: the queue, the ports and the interrupt are not, and no transfer fails.
pub mod Coherent
pub mod Read
pub mod Write
use p.Prelude.{
  ℕ, zero, suc, ◌+◌, ◌≡◌, Bool, true, false, ◌&&◌, ◌||◌, not, Option, none, some, List, [], ◌∷◌,
  ◌==◌, if◌then◌else◌,
}
use p.Word.{Word, minus_one}
use p.Xv6.Outcome.{
  Outcome, done, panics, hangs, Action, pure, panic, hang, gets, modify, ◌>>=◌, ◌>>◌,
}
use p.Xv6.Fs.{Block, Drives, store_block}

-- `busy`, `valid` and `dirty` are the flags.
pub record Buf : Type 0 where
  pub busy : Bool
  pub valid : Bool
  pub dirty : Bool
  pub dev : Word
  pub sector : Word
  pub bytes : Block

-- `order` lists the buffers, the most recently used one first.
pub record Bcache : Type 0 where
  pub bufs : ℕ → Buf
  pub order : List ℕ
  pub drives : Drives

abbrev pub put : ℕ → Buf → Bcache → Bcache
put i b s = record s { bufs = λ j. if j == i then b else s.bufs j }

abbrev pub nbuf : ℕ
nbuf = 10

-- The loop of binit over k buffers from i on: each goes to the front of the list.
unfoldable pub link_bufs : ℕ → ℕ → List ℕ → List ℕ
link_bufs zero i order = order
link_bufs (suc k) i order = link_bufs k (i + 1) (i ∷ order)

-- The buffers are zero beforehand.
unfoldable pub binit : Drives → Bcache
unfolding link_bufs
binit drives = record {
  bufs = λ i. record {
    busy = false;
    valid = false;
    dirty = false;
    dev = minus_one;
    sector = 0;
    bytes = λ a. 0;
  };
  order = link_bufs nbuf 0 [];
  drives = drives;
}

-- A buffer holds the sector.
abbrev pub holds : Word → Word → Buf → Bool
holds dev sector b = b.dev == dev && b.sector == sector

-- The loops of bget, over the list from its front and from its end.
unfoldable pub first : (ℕ → Bool) → List ℕ → Option ℕ
first test [] = none
first test (i ∷ is) = let rest = first test is in if test i then some i else rest

unfoldable pub last : (ℕ → Bool) → List ℕ → Option ℕ
last test [] = none
last test (i ∷ is) = elim (last test is) [
  | some j ↦ some j
  | none ↦ if test i then some i else none
]

-- `hangs` is the sleep on a busy buffer, after which the code starts again.
unfoldable pub bget : Word → Word → Action Bcache ℕ
bget dev sector s = elim (first (λ i. holds dev sector (s.bufs i)) s.order) [
  | some i ↦
      if (s.bufs i).busy then hangs else done (i, put i (record (s.bufs i) { busy = true }) s)
  | none ↦ elim (last (λ i. not (s.bufs i).busy) s.order) [
    | some i ↦ done (
      i,
      put i
          (record (s.bufs i) {
            dev = dev;
            sector = sector;
            busy = true;
            valid = false;
            dirty = false;
          })
          s,
    )
    | none ↦ panics
  ]
]

module _ (havedisk1 : Bool) where
  -- A dirty buffer is written, and another one read.
  unfoldable pub iderw : ℕ → Action Bcache (Unit {0})
  iderw i s =
      let b = s.bufs i in
      let synced : Bcache =
        if b.dirty
        then record (put i (record b { valid = true; dirty = false }) s) {
          drives = store_block b.dev b.sector b.bytes s.drives;
        }
        else put i (record b { valid = true; dirty = false; bytes = s.drives b.dev b.sector }) s in
      if not b.busy || (b.valid && not b.dirty) || (not (b.dev == 0) && not havedisk1)
      then panics
      else done (tt, synced)

  unfoldable pub bread : Word → Word → Action Bcache ℕ
  bread dev sector = do
    i ← bget dev sector
    s ← gets λ s. s
    elim (s.bufs i).valid [ true ↦ pure i | false ↦ do iderw i; pure i ]

  unfoldable pub bwrite : ℕ → Action Bcache (Unit {0})
  bwrite i = do
    s ← gets λ s. s
    elim (s.bufs i).busy [
      | false ↦ panic
      | true ↦ do modify (put i (record (s.bufs i) { dirty = true })); iderw i
    ]

unfoldable pub remove : ℕ → List ℕ → List ℕ
remove i [] = []
remove i (j ∷ js) = let rest = remove i js in if j == i then rest else j ∷ rest

unfoldable pub brelse : ℕ → Action Bcache (Unit {0})
brelse i s =
    let moved : Bcache = record s { order = i ∷ remove i s.order } in
    if (s.bufs i).busy then done (tt, put i (record (s.bufs i) { busy = false }) moved) else panics

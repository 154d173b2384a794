-- ===== src/Xv6/Kalloc.antt =====
-- xv6/kernel/kalloc.c over a byte memory. `end_address` is the address of `end`, and a free page holds
-- in its first word the address of the next one, 0 at the end of the list.
pub mod FreeList
use p.Prelude.{
  ℕ, zero, suc, ◌+◌, ◌-◌, ◌*◌, ◌/◌, ◌%◌, ◌||◌, true, false, not, Option, none, some, ltb, leb, ◌==◌,
  if◌then◌else◌,
}
use p.Word.{Word, word_mod, word_bytes, bytes_word}
use p.Disk.{splice}
use p.Xv6.Strings.{Memory, memset}

abbrev pub page_size : ℕ
page_size = 4096

abbrev pub phystop : ℕ
phystop = 0x1000000

pub record Kmem : Type 0 where
  pub memory : Memory
  pub freelist : Word

-- r->next
abbrev pub next : Memory → Word → Word
next m r = bytes_word (m r) (m (r + 1)) (m (r + 2)) (m (r + 3))

-- `none` is a panic.
unfoldable pub kfree : ℕ → Word → Kmem → Option Kmem
kfree end_address v k =
    if not (v % page_size == 0) || ltb v end_address || leb phystop v
    then none
    else some (record {
      memory = splice (memset k.memory v 1 page_size) v (word_bytes k.freelist);
      freelist = v;
    })

unfoldable pub kalloc : Kmem → Word × Kmem
kalloc k =
    let r = k.freelist in if r == 0 then (r, k) else (r, record k { freelist = next k.memory r })

abbrev pub page_round_up : ℕ → ℕ
page_round_up sz = (sz + page_size - 1) % word_mod / page_size * page_size

-- The loop of kinit, on fuel: `none` is a panic of kfree, or no fuel left.
unfoldable pub kinit_pages : ℕ → ℕ → ℕ → Kmem → Option Kmem
unfolding kfree
kinit_pages zero end_address a k = none
kinit_pages (suc fuel) end_address a k =
    let rest : Kmem → Option Kmem = kinit_pages fuel end_address (a + page_size) in
    if leb (a + page_size) phystop
    then elim (kfree end_address a k) [ none ↦ none | some k' ↦ rest k' ]
    else some k

-- 4096 pages are all below phystop.
unfoldable pub kinit : ℕ → Kmem → Option Kmem
unfolding kinit_pages
kinit end_address k = kinit_pages 4097 end_address (page_round_up end_address) k

-- ===== src/Tests/Kalloc.antt =====
-- The theorems on xv6/kernel/kalloc.c at fixed inputs.
use p.Prelude.{ℕ, ◌+◌, ◌-◌, ◌/◌, ◌<◌, ◌≤◌, ◌≡◌, ◌⊎◌, refl, some, List, [], ◌∷◌, length, arith}
use p.Word.{Word, bytes_word}
use p.Xv6.Strings.{Memory}
use p.Xv6.Kalloc.{Kmem, kfree, kinit, page_round_up}
use p.Xv6.Kalloc.FreeList.{IsPage, FreeList, kfree-FreeList, kinit-FreeList}

abbrev zeros : Memory
zeros a = 0

-- One free page, which ends the list.
abbrev one_page : Kmem
one_page = record { memory = zeros; freelist = 8192 }

low-IsPage : IsPage 5000 8192
low-IsPage = record {
  aligned = omega arith;
  above = omega arith;
  below = omega arith;
  some_page = omega arith;
}

high-IsPage : IsPage 5000 12288
high-IsPage = record {
  aligned = omega arith;
  above = omega arith;
  below = omega arith;
  some_page = omega arith;
}

one_page-FreeList : FreeList 5000 zeros 8192 (8192 ∷ [])
unfolding bytes_word
one_page-FreeList = (refl, low-IsPage, tt, refl)

kfree-FreeList_example :
    (t : Kmem) × (kfree 5000 12288 one_page ≡ some t)
    × FreeList 5000 t.memory t.freelist (12288 ∷ 8192 ∷ [])
    × ((a : ℕ) → (a < 12288) ⊎ (12288 + 4096 ≤ a) → t.memory a ≡ zeros a)
kfree-FreeList_example =
    kfree-FreeList 5000 12288 one_page (8192 ∷ []) high-IsPage (omega arith, tt) one_page-FreeList

kinit-FreeList_example :
    (t : Kmem) × (qs : List Word) × (kinit 5000 (record { memory = zeros; freelist = 0 }) ≡ some t)
    × FreeList 5000 t.memory t.freelist qs
    × (length qs ≡ (0x1000000 - page_round_up 5000) / 4096)
kinit-FreeList_example = kinit-FreeList 5000 zeros (omega arith) (omega arith)

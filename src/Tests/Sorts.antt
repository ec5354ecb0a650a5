-- ===== src/Tests/Sorts.antt =====
-- list.c, msort_r.c and memory-pool.c on concrete values: runs, and the theorems where their hypotheses hold.
use fcitx_ng.Prelude.{
  ℕ, ◌+◌, ◌-◌, ◌^◌, ◌≡◌, ◌<◌, ◌≤◌, refl, true, false, count_if, some, List, [], ◌∷◌, arith, leb,
}
use fcitx_ng.Sort.{
  Order, list_sort_r, msort_r, insertion_sort, insertion_rounds, sink, reverse_onto, sorted_merge,
  halves,
}
use fcitx_ng.Sort.Sorted.{Sorts}
use fcitx_ng.Sort.Lists.{list_sort_r-Sorts}
use fcitx_ng.Sort.Arrays.{msort_r-Sorts}
use fcitx_ng.MemoryPool.{memory_pool_new, alloc_align, find_chunk, chunk_size}
use fcitx_ng.MemoryPool.Used.{holds, pool_count, IsValid, Allocates, alloc_align-Allocates}

leb_total : (a b : ℕ) → leb a b ≡ false → leb b a ≡ true
leb_total a b h = ground arith

leb_trans : (a b c : ℕ) → leb a b ≡ true → leb b c ≡ true → leb a c ≡ true
leb_trans a b c h g = ground arith

abbrev by_value : Order ℕ
by_value = record { at_most = leb; total = leb_total; trans = leb_trans }

abbrev numbers : List ℕ
numbers = 3 ∷ 1 ∷ 2 ∷ []

numbers_sorted : list_sort_r by_value 4 numbers ≡ some (1 ∷ 2 ∷ 3 ∷ [])
unfolding list_sort_r sorted_merge halves
numbers_sorted = refl

array_sorted : msort_r by_value 4 numbers ≡ some (1 ∷ 2 ∷ 3 ∷ [])
unfolding msort_r insertion_sort insertion_rounds sink reverse_onto
array_sorted = refl

list_sort_r-Sorts_example :
    (sorted : List ℕ) × ((list_sort_r by_value 4 numbers ≡ some sorted)
      × Sorts by_value numbers sorted)
list_sort_r-Sorts_example = list_sort_r-Sorts by_value 4 numbers (omega arith)

msort_r-Sorts_example :
    (sorted : List ℕ) × ((msort_r by_value 4 numbers ≡ some sorted) × Sorts by_value numbers sorted)
msort_r-Sorts_example = msort_r-Sorts by_value 4 numbers (omega arith)

-- Two allocations from one chunk, the second one aligned.
two_allocations : (alloc_align 0 8 true (alloc_align 4096 5 false memory_pool_new).1).0 ≡ 4104
unfolding alloc_align find_chunk
two_allocations = refl

-- A request of 2 ^ 64 - 1 bytes gets a chunk of none.
no_chunk : chunk_size (2 ^ 64 - 1) ≡ 0
no_chunk = refl

new_pool-IsValid : IsValid memory_pool_new
unfolding count_if
new_pool-IsValid = record { fits = refl; apart = λ a. omega arith }

nothing_held :
    (a : ℕ) → 4096 ≤ a → a < 4096 + chunk_size 5 → pool_count (holds a) memory_pool_new ≡ 0
unfolding count_if
nothing_held a h g = refl

alloc_align-Allocates_example :
    Allocates 5
      (alloc_align 4096 5 false memory_pool_new).0
      memory_pool_new
      (alloc_align 4096 5 false memory_pool_new).1
alloc_align-Allocates_example =
    alloc_align-Allocates 4096 5 false memory_pool_new new_pool-IsValid (omega arith) (omega arith)
      nothing_held

-- ===== src/Sort.antt =====
-- lib/fcitx-utils/list.c, msort_r.c and sort_common.h: the merge sorts and the insertion sort. A list, or the
-- array from `b` on, is the list of its elements, and `compare(a, b) <= 0` is `at_most a b`.
pub mod Sorted
pub mod Merged
pub mod Lists
pub mod Arrays
use fcitx_ng.Prelude.{
  ℕ, zero, suc, ◌-◌, ◌/◌, ◌≡◌, Bool, true, false, Option, none, some, List, [], ◌∷◌, ◌++◌, ltb,
  if◌then◌else◌, length, take, drop,
}

-- The comparison that the caller hands over, with what sorting relies on.
pub record Order {ℓ} (A : Type ℓ) : Type ℓ where
  pub at_most : A → A → Bool
  pub total : (a b : A) → at_most a b ≡ false → at_most b a ≡ true
  pub trans : (a b c : A) → at_most a b ≡ true → at_most b c ≡ true → at_most a c ≡ true

abbrev pub minimum_insert_sort : ℕ
minimum_insert_sort = 10

-- The last element first.
unfoldable pub reverse_onto {ℓ} : {A : Type ℓ} → List A → List A → List A
reverse_onto [] onto = onto
reverse_onto (x ∷ l) onto = reverse_onto l (x ∷ onto)

module _ {ℓ} {A : Type ℓ} (order : Order A) where
  -- `fcitx_list_sorted_merge`.
  unfoldable pub sorted_merge : List A → List A → List A
  sorted_merge [] b = b
  sorted_merge (x ∷ a) [] = x ∷ a
  sorted_merge (x ∷ a) (y ∷ b) = elim (order.at_most x y) [
    | true ↦ x ∷ sorted_merge a (y ∷ b)
    | false ↦ y ∷ sorted_merge (x ∷ a) b
  ]

  -- The loop with `slow` and `fast`: the entries that `slow` passes, and the ones behind it.
  unfoldable pub halves : List A → List A → List A × List A
  halves [] slow = ([], slow)
  halves (f ∷ []) slow = ([], slow)
  halves (f ∷ g ∷ fast) [] = ([], [])
  halves (f ∷ g ∷ fast) (s ∷ slow) = let rest = halves fast slow in (s ∷ rest.0, rest.1)

  abbrev pub merge_sorted : Option (List A) → Option (List A) → Option (List A)
  merge_sorted none b = none
  merge_sorted (some a) none = none
  merge_sorted (some a) (some b) = some (sorted_merge a b)

  -- `fcitx_list_sort_r`, `none` when the fuel runs out.
  unfoldable pub list_sort_r : ℕ → List A → Option (List A)
  unfolding sorted_merge halves
  list_sort_r zero l = none
  list_sort_r (suc fuel) [] = some []
  list_sort_r (suc fuel) (x ∷ []) = some (x ∷ [])
  list_sort_r (suc fuel) (x ∷ y ∷ l) =
      let split = halves (y ∷ l) (y ∷ l) in
      merge_sorted (list_sort_r fuel (x ∷ split.0)) (list_sort_r fuel split.1)

  -- The inner loop of `insertion_sort`: `sorted` has the elements before, the last one first.
  unfoldable pub sink : A → List A → List A
  sink x [] = x ∷ []
  sink x (y ∷ sorted) =
      let rest = sink x sorted in if order.at_most y x then x ∷ y ∷ sorted else y ∷ rest

  unfoldable pub insertion_rounds : List A → List A → List A
  unfolding sink
  insertion_rounds sorted [] = reverse_onto sorted []
  insertion_rounds sorted (x ∷ l) = insertion_rounds (sink x sorted) l

  unfoldable pub insertion_sort : List A → List A
  unfolding insertion_rounds
  insertion_sort l = insertion_rounds [] l

  -- The loop that fills `tmp`, and what it leaves of both parts.
  unfoldable pub merge_tmp : List A → List A → List A × (List A × List A)
  merge_tmp [] b = ([], ([], b))
  merge_tmp (x ∷ a) [] = ([], (x ∷ a, []))
  merge_tmp (x ∷ a) (y ∷ b) = elim (order.at_most x y) [
    | true ↦ (let rest = merge_tmp a (y ∷ b) in (x ∷ rest.0, rest.1))
    | false ↦ (let rest = merge_tmp (x ∷ a) b in (y ∷ rest.0, rest.1))
  ]

  -- The two `memcpy` behind it: what is left of the first part, then of the second, which is in its place.
  abbrev pub copy_back : List A × (List A × List A) → List A
  copy_back (tmp, (a, b)) = tmp ++ a ++ b

  abbrev pub merge_parts : Option (List A) → Option (List A) → Option (List A)
  merge_parts none b = none
  merge_parts (some a) none = none
  merge_parts (some a) (some b) = some (copy_back (merge_tmp a b))

  -- `fcitx_msort_r`, and `fcitx_msort_r_with_tmp`, `none` when the fuel runs out.
  unfoldable pub msort_r : ℕ → List A → Option (List A)
  unfolding insertion_sort merge_tmp
  msort_r zero b = none
  msort_r (suc fuel) b =
      let n_a = length b / 2 in
      elim (ltb (length b) minimum_insert_sort) [
        | true ↦ some (insertion_sort b)
        | false ↦ merge_parts (msort_r fuel (take n_a b)) (msort_r fuel (drop n_a b))
      ]

-- ===== src/Sort/Lists.antt =====
-- list.c: `fcitx_list_sort_r` ends and sorts.
use fcitx_ng.Prelude.{
  count_if, count_if-append, ℕ, zero, suc, ◌+◌, ◌/◌, ◌≤◌, ◌<◌, ◌≡◌, refl, ap, Bool, some, List, [],
  ◌∷◌, ◌++◌, length, arith,
}
use fcitx_ng.Sort.{Order, sorted_merge, halves, list_sort_r}
use fcitx_ng.Sort.Sorted.{IsSorted, Sorts}
use fcitx_ng.Sort.Merged.{merge-Sorts}

module _ {ℓ} {A : Type ℓ} (order : Order A) where
  halves-append :
      (fast slow : List A)
      → length fast ≤ length slow
      → (halves order fast slow).0 ++ (halves order fast slow).1 ≡ slow
  unfolding halves
  halves-append [] slow h = refl
  halves-append (f ∷ []) slow h = refl
  halves-append (f ∷ g ∷ fast) [] h = absurd (omega arith)
  halves-append (f ∷ g ∷ fast) (s ∷ slow) h =
      ap (λ (l : List A). s ∷ l) (halves-append fast slow (omega arith))

  halves-count :
      (p : A → Bool) (x : A) (l : List A)
      → count_if p (x ∷ (halves order l l).0) + count_if p (halves order l l).1 ≡ count_if p (x ∷ l)
  unfolding count_if
  halves-count p x l =
      let whole = ap (λ (k : List A). count_if p k) (halves-append l l (omega arith)) in
      omega (arith, whole, count_if-append p (halves order l l).0 (halves order l l).1)

  halves-length :
      (fast slow : List A)
      → length fast ≤ length slow
      → (length (halves order fast slow).0 ≤ length fast / 2)
        × (length (halves order fast slow).1 ≤ length slow)
  unfolding halves
  halves-length [] slow h = (omega arith, omega arith)
  halves-length (f ∷ []) slow h = (omega arith, omega arith)
  halves-length (f ∷ g ∷ fast) [] h = absurd (omega arith)
  halves-length (f ∷ g ∷ fast) (s ∷ slow) h =
      let rest = halves-length fast slow (omega arith) in (omega arith, omega arith)

  -- For a total and transitive comparison the sort of a list ends, with the recursion no deeper
  -- than its length, and gives the same entries as often, in order.
  pub list_sort_r-Sorts :
      (fuel : ℕ) (l : List A)
      → length l < fuel
      → (sorted : List A) × ((list_sort_r order fuel l ≡ some sorted) × Sorts order l sorted)
  unfolding list_sort_r count_if IsSorted
  list_sort_r-Sorts zero l enough = absurd (omega arith)
  list_sort_r-Sorts (suc fuel) [] enough =
      ([], (refl, record { in_order = refl; same = λ p. refl }))
  list_sort_r-Sorts (suc fuel) (x ∷ []) enough =
      (x ∷ [], (refl, record { in_order = (refl, refl); same = λ p. refl }))
  list_sort_r-Sorts (suc fuel) (x ∷ y ∷ l) enough =
      let split = halves order (y ∷ l) (y ∷ l) in
      let size = halves-length (y ∷ l) (y ∷ l) (omega arith) in
      let first = list_sort_r-Sorts fuel (x ∷ split.0) (omega arith) in
      let second = list_sort_r-Sorts fuel split.1 (omega arith) in
      (
        sorted_merge order first.0 second.0,
        (
          ground (arith, first.1.0, second.1.0),
          merge-Sorts order (x ∷ y ∷ l) (x ∷ split.0) split.1 first.0 second.0
              (λ p. halves-count p x (y ∷ l)) first.1.1 second.1.1,
        ),
      )

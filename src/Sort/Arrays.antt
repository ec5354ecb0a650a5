-- ===== src/Sort/Arrays.antt =====
-- sort_common.h and msort_r.c: the insertion sort and the merge sort of arrays sort.
use fcitx_ng.Prelude.{
  count_if, count_if-append, ℕ, zero, suc, ◌+◌, ◌/◌, ◌≤◌, ◌<◌, ◌≡◌, refl, sym, ap, ◌∙◌, Bool, true,
  not, some, List, [], ◌∷◌, ltb, length, take, drop, length-take, length-drop, take-append-drop,
  arith, Bool-cases, inl, inr, subst,
}
use fcitx_ng.Sort.{
  Order, minimum_insert_sort, reverse_onto, sink, insertion_rounds, insertion_sort, merge_tmp,
  copy_back, msort_r,
}
use fcitx_ng.Sort.Sorted.{IsBelow, IsSorted, Sorts}
use fcitx_ng.Sort.Merged.{merge-Sorts, copy_back-sorted_merge}

module _ {ℓ} {A : Type ℓ} (order : Order A) where
  -- No element of the list is above `x`.
  abbrev IsAbove : A → List A → Type 0
  IsAbove x l = count_if (λ y. not (order.at_most y x)) l ≡ 0

  -- The elements before the one that moves, the last one first.
  unfoldable IsDescending : List A → Type 0
  IsDescending [] = true ≡ true
  IsDescending (x ∷ l) = IsAbove x l × IsDescending l

  sink-count :
      (p : A → Bool) (x : A) (l : List A) → count_if p (sink order x l) ≡ count_if p (x ∷ l)
  unfolding sink count_if
  sink-count p x [] = refl
  sink-count p x (y ∷ l) = elim (Bool-cases (order.at_most y x)) [
    | inl e ↦ rw e refl
    | inr e ↦ rw e (omega (arith, sink-count p x l))
  ]

  IsAbove-trans : (x y : A) (l : List A) → order.at_most y x ≡ true → IsAbove y l → IsAbove x l
  unfolding count_if
  IsAbove-trans x y [] h b = refl
  IsAbove-trans x y (z ∷ l) h b =
      let rest : count_if (λ w. not (order.at_most w y)) l ≡ 0 = omega (arith, b) in
      let here : order.at_most z y ≡ true = ground (arith, b) in
      let up = order.trans z y x here h in ground (arith, IsAbove-trans x y l h rest, up)

  sink-IsDescending : (x : A) (l : List A) → IsDescending l → IsDescending (sink order x l)
  unfolding sink IsDescending count_if
  sink-IsDescending x [] d = (refl, refl)
  sink-IsDescending x (y ∷ l) d = elim (Bool-cases (order.at_most y x)) [
    | inl e ↦ rw e ((ground (arith, e, IsAbove-trans x y l e d.0), d))
    | inr e ↦ rw e (
      sink-count (λ z. not (order.at_most z y)) x l ∙ ground (arith, d.0, order.total y x e),
      sink-IsDescending x l d.1,
    )
  ]

  reverse_onto-count :
      (p : A → Bool) (l onto : List A)
      → count_if p (reverse_onto l onto) ≡ count_if p l + count_if p onto
  unfolding reverse_onto count_if
  reverse_onto-count p [] onto = omega arith
  reverse_onto-count p (x ∷ l) onto = omega (arith, reverse_onto-count p l (x ∷ onto))

  -- Every element of the first list is below all of the second.
  unfoldable AllBelow : List A → List A → Type 0
  AllBelow [] onto = true ≡ true
  AllBelow (x ∷ l) onto = IsBelow order x onto × AllBelow l onto

  AllBelow-cons : (x : A) (l onto : List A) → IsAbove x l → AllBelow l onto → AllBelow l (x ∷ onto)
  unfolding AllBelow count_if
  AllBelow-cons x [] onto h b = refl
  AllBelow-cons x (y ∷ l) onto h b =
      (ground (arith, h, b.0), AllBelow-cons x l onto (omega (arith, h)) b.1)

  AllBelow-nil : (l : List A) → AllBelow l []
  unfolding AllBelow count_if
  AllBelow-nil [] = refl
  AllBelow-nil (x ∷ l) = (refl, AllBelow-nil l)

  reverse_onto-IsSorted :
      (l onto : List A)
      → IsDescending l
      → IsSorted order onto
      → AllBelow l onto
      → IsSorted order (reverse_onto l onto)
  unfolding reverse_onto IsDescending AllBelow IsSorted
  reverse_onto-IsSorted [] onto d s b = s
  reverse_onto-IsSorted (x ∷ l) onto d s b =
      reverse_onto-IsSorted l (x ∷ onto) d.1 (b.0, s) (AllBelow-cons x l onto d.0 b.1)

  insertion_rounds-Sorts :
      (sorted l : List A)
      → IsDescending sorted
      → IsSorted order (insertion_rounds order sorted l)
        × ((p : A → Bool)
            → count_if p (insertion_rounds order sorted l) ≡ count_if p sorted + count_if p l)
  unfolding insertion_rounds IsSorted count_if
  insertion_rounds-Sorts sorted [] d = (
    reverse_onto-IsSorted sorted [] d refl (AllBelow-nil sorted),
    λ p. reverse_onto-count p sorted [],
  )
  insertion_rounds-Sorts sorted (x ∷ l) d =
      let rest = insertion_rounds-Sorts (sink order x sorted) l (sink-IsDescending x sorted d) in
      (rest.0, λ p. omega (arith, rest.1 p, sink-count p x sorted))

  pub insertion_sort-Sorts : (l : List A) → Sorts order l (insertion_sort order l)
  unfolding insertion_sort IsDescending count_if
  insertion_sort-Sorts l =
      let rounds = insertion_rounds-Sorts [] l refl in
      record { in_order = rounds.0; same = λ p. omega (arith, rounds.1 p) }

  parts-count :
      (p : A → Bool) (n : ℕ) (l : List A)
      → count_if p (take n l) + count_if p (drop n l) ≡ count_if p l
  parts-count p n l =
      let whole = ap (λ (k : List A). count_if p k) (take-append-drop n l) in
      omega (arith, whole, count_if-append p (take n l) (drop n l))

  -- For a total and transitive comparison the merge sort of an array ends, with the recursion no
  -- deeper than its length, and gives the same elements as often, in order, by the insertion sort
  -- below ten elements and by merging above.
  pub msort_r-Sorts :
      (fuel : ℕ) (b : List A)
      → length b < fuel
      → (sorted : List A) × ((msort_r order fuel b ≡ some sorted) × Sorts order b sorted)
  unfolding msort_r
  msort_r-Sorts zero b enough = absurd (omega arith)
  msort_r-Sorts (suc fuel) b enough = elim (Bool-cases (ltb (length b) minimum_insert_sort)) [
    | inl e ↦ rw (e, msort_r) (insertion_sort order b, (refl, insertion_sort-Sorts b))
    | inr e ↦
        let n_a = length b / 2 in
        let size_a = length-take n_a b in
        let size_b = length-drop n_a b in
        let many : minimum_insert_sort ≤ length b = ground (arith, e) in
        let first = msort_r-Sorts fuel (take n_a b) (omega (arith, size_a, many)) in
        let second = msort_r-Sorts fuel (drop n_a b) (omega (arith, size_b, many)) in
        let merged =
          merge-Sorts order b (take n_a b) (drop n_a b) first.0 second.0 (λ p. parts-count p n_a b)
            first.1.1 second.1.1 in
        rw (e, msort_r)
          (
            copy_back order (merge_tmp order first.0 second.0),
            (
              rw first.1.0 (rw second.1.0 refl),
              subst (λ (k : List A). Sorts order b k)
                  (sym (copy_back-sorted_merge order first.0 second.0)) merged,
            ),
          )
  ]

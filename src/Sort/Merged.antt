-- ===== src/Sort/Merged.antt =====
-- list.c and msort_r.c: merging two sorted lists.
use fcitx_ng.Prelude.{
  count_if, ◌+◌, ◌≡◌, refl, ap, ◌∙◌, Bool, true, false, not, List, [], ◌∷◌, arith, Bool-cases, inl,
  inr, append-nil,
}
use fcitx_ng.Sort.{Order, sorted_merge, merge_tmp, copy_back}
use fcitx_ng.Sort.Sorted.{IsBelow, IsSorted, Sorts, IsBelow-trans}

module _ {ℓ} {A : Type ℓ} (order : Order A) where
  sorted_merge_left :
      (x y : A) (a b : List A)
      → order.at_most x y ≡ true
      → sorted_merge order (x ∷ a) (y ∷ b) ≡ x ∷ sorted_merge order a (y ∷ b)
  unfolding sorted_merge
  sorted_merge_left x y a b e = rw (e, sorted_merge) refl

  sorted_merge_right :
      (x y : A) (a b : List A)
      → order.at_most x y ≡ false
      → sorted_merge order (x ∷ a) (y ∷ b) ≡ y ∷ sorted_merge order (x ∷ a) b
  unfolding sorted_merge
  sorted_merge_right x y a b e = rw (e, sorted_merge) refl

  pub sorted_merge-count :
      (p : A → Bool) (a b : List A)
      → count_if p (sorted_merge order a b) ≡ count_if p a + count_if p b
  unfolding sorted_merge count_if
  sorted_merge-count p [] b = omega arith
  sorted_merge-count p (x ∷ a) [] = omega arith
  sorted_merge-count p (x ∷ a) (y ∷ b) = elim (Bool-cases (order.at_most x y)) [
    | inl e ↦ rw (sorted_merge_left x y a b e) (omega (arith, sorted_merge-count p a (y ∷ b)))
    | inr e ↦ rw (sorted_merge_right x y a b e) (omega (arith, sorted_merge-count p (x ∷ a) b))
  ]

  -- The head that is taken is at most all elements of both lists.
  sorted_merge-IsBelow :
      (x : A) (a b : List A)
      → IsBelow order x a
      → IsBelow order x b
      → IsBelow order x (sorted_merge order a b)
  sorted_merge-IsBelow x a b h g =
      sorted_merge-count (λ y. not (order.at_most x y)) a b ∙ omega (arith, h, g)

  IsBelow-cons :
      (x y : A) (l : List A)
      → order.at_most x y ≡ true
      → IsBelow order y l
      → IsBelow order x (y ∷ l)
  unfolding count_if
  IsBelow-cons x y l h b = ground (arith, h, IsBelow-trans order x y l h b)

  pub sorted_merge-IsSorted :
      (a b : List A) → IsSorted order a → IsSorted order b → IsSorted order (sorted_merge order a b)
  unfolding sorted_merge IsSorted
  sorted_merge-IsSorted [] b s t = t
  sorted_merge-IsSorted (x ∷ a) [] s t = s
  sorted_merge-IsSorted (x ∷ a) (y ∷ b) s t = elim (Bool-cases (order.at_most x y)) [
    | inl e ↦ rw (sorted_merge_left x y a b e) (
      sorted_merge-IsBelow x a (y ∷ b) s.0 (IsBelow-cons x y b e t.0),
      sorted_merge-IsSorted a (y ∷ b) s.1 t,
    )
    | inr e ↦ rw (sorted_merge_right x y a b e) (
      sorted_merge-IsBelow y (x ∷ a) b (IsBelow-cons y x a (order.total x y e) s.0) t.0,
      sorted_merge-IsSorted (x ∷ a) b s t.1,
    )
  ]

  -- With what is left behind it, the temporary array has the merged list.
  pub copy_back-sorted_merge :
      (a b : List A) → copy_back order (merge_tmp order a b) ≡ sorted_merge order a b
  unfolding sorted_merge merge_tmp
  copy_back-sorted_merge [] b = refl
  copy_back-sorted_merge (x ∷ a) [] = append-nil (x ∷ a)
  copy_back-sorted_merge (x ∷ a) (y ∷ b) = elim (Bool-cases (order.at_most x y)) [
    | inl e ↦
        rw (e, sorted_merge, merge_tmp)
          (ap (λ (l : List A). x ∷ l) (copy_back-sorted_merge a (y ∷ b)))
    | inr e ↦
        rw (e, sorted_merge, merge_tmp)
          (ap (λ (l : List A). y ∷ l) (copy_back-sorted_merge (x ∷ a) b))
  ]

  pub merge-Sorts :
      (l a b m n : List A)
      → ((p : A → Bool) → count_if p a + count_if p b ≡ count_if p l)
      → Sorts order a m
      → Sorts order b n
      → Sorts order l (sorted_merge order m n)
  merge-Sorts l a b m n whole s t = record {
    in_order = sorted_merge-IsSorted m n s.in_order t.in_order;
    same = λ p. omega (arith, sorted_merge-count p m n, s.same p, t.same p, whole p);
  }

-- ===== src/Sort/Sorted.antt =====
-- What sorting promises: the same elements as often, each at most the ones behind it.
use fcitx_ng.Prelude.{count_if, ◌≡◌, refl, Bool, true, not, List, [], ◌∷◌, arith}
use fcitx_ng.Sort.{Order}

module _ {ℓ} {A : Type ℓ} (order : Order A) where
  -- No element of the list is below `x`.
  abbrev pub IsBelow : A → List A → Type 0
  IsBelow x l = count_if (λ y. not (order.at_most x y)) l ≡ 0

  unfoldable pub IsSorted : List A → Type 0
  IsSorted [] = true ≡ true
  IsSorted (x ∷ l) = IsBelow x l × IsSorted l

  pub record Sorts (l sorted : List A) : Type ℓ where
    pub in_order : IsSorted sorted
    pub same : (p : A → Bool) → count_if p sorted ≡ count_if p l

  pub IsBelow-trans : (x y : A) (l : List A) → order.at_most x y ≡ true → IsBelow y l → IsBelow x l
  unfolding count_if
  IsBelow-trans x y [] h b = refl
  IsBelow-trans x y (z ∷ l) h b =
      let rest : count_if (λ w. not (order.at_most y w)) l ≡ 0 = omega (arith, b) in
      let here : order.at_most y z ≡ true = ground (arith, b) in
      let up = order.trans x y z h here in ground (arith, IsBelow-trans x y l h rest, up)

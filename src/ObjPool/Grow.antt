-- ===== src/ObjPool/Grow.antt =====
-- objpool.c: the elements that are linked when a pool is made or grows.
use fcitx_ng.Prelude.{
  elem, ℕ, zero, suc, ◌+◌, ◌-◌, ◌≤◌, ◌<◌, ◌≡◌, ◌⊎◌, inl, inr, refl, sym, ap, ◌∙◌, subst, true,
  false, List, [], ◌∷◌, ◌++◌, append_assoc, ltb, ◌==◌, ==_iff, ℤ, pos, arith, length, get_or,
  length-append, Bool-cases,
}
use fcitx_ng.ObjPool.{invalid_id, alloced_id, links, is_alloced}
use fcitx_ng.ObjPool.Chain.{Chain, done, link, Chain-free}

-- What `IsValid` says of the elements that are not linked.
abbrev pub Covers : List ℤ → List ℕ → Type 0
Covers array l =
    (i : ℕ) → i < length array → (is_alloced (get_or array i invalid_id) ≡ true) ⊎ (elem i l ≡ true)

-- The ids from `i` on, `n` of them.
unfoldable pub range : ℕ → ℕ → List ℕ
range i zero = []
range i (suc n) = i ∷ range (i + 1) n

elem-range : (k i n : ℕ) → k < i → elem k (range i n) ≡ false
unfolding range
elem-range k i zero h = refl
elem-range k i (suc n) h = ground (arith, elem-range k (i + 1) n (omega arith))

pub range-elem : (k i n : ℕ) → i ≤ k → k < i + n → elem k (range i n) ≡ true
unfolding range
range-elem k i zero h g = absurd (omega arith)
range-elem k i (suc n) h g = elim (Bool-cases (k == i)) [
  | inl e ↦ rw e refl
  | inr e ↦ rw e (range-elem k (i + 1) n (ground arith) (ground arith))
]

pub length-links : (i n : ℕ) → length (links i n) ≡ n
unfolding links
length-links i zero = refl
length-links i (suc zero) = refl
length-links i (suc (suc n)) = ap suc (length-links (i + 1) (suc n))

get_or-append : (a b : List ℤ) (x : ℤ) (i : ℕ) → length a ≡ i → get_or (a ++ x ∷ b) i invalid_id ≡ x
get_or-append [] b x zero e = refl
get_or-append [] b x (suc i) e = absurd (omega (arith, e))
get_or-append (y ∷ a) b x zero e = absurd (omega (arith, e))
get_or-append (y ∷ a) b x (suc i) e = get_or-append a b x i (omega (arith, e))

get_or-append_left :
    (a b : List ℤ) (j : ℕ) → j < length a → get_or (a ++ b) j invalid_id ≡ get_or a j invalid_id
get_or-append_left [] b j h = absurd (omega arith)
get_or-append_left (y ∷ a) b zero h = refl
get_or-append_left (y ∷ a) b (suc j) h = get_or-append_left a b j (omega arith)

pub get_or_past : (a : List ℤ) (j : ℕ) → length a ≤ j → get_or a j invalid_id ≡ invalid_id
get_or_past [] j h = refl
get_or_past (y ∷ a) zero h = absurd (omega arith)
get_or_past (y ∷ a) (suc j) h = get_or_past a j (omega arith)

-- Behind `before` the written links go through all their elements.
pub links-Chain :
    (before : List ℤ) (i n : ℕ)
    → length before ≡ i
    → Chain (before ++ links i (suc n)) (pos i) (range i (suc n))
unfolding links range
links-Chain before i zero e =
    let inside : i < length (before ++ invalid_id ∷ []) =
      omega (arith, e, length-append before (invalid_id ∷ [])) in
    link i [] inside (elem-range i (i + 1) 0 (omega arith)) (
      subst (λ (n : ℤ). Chain (before ++ invalid_id ∷ []) n [])
        (sym (get_or-append before [] invalid_id i e)) done)
links-Chain before i (suc n) e =
    let size : length (before ++ pos (i + 1) ∷ []) ≡ i + 1 =
      omega (arith, e, length-append before (pos (i + 1) ∷ [])) in
    let behind = links-Chain (before ++ pos (i + 1) ∷ []) (i + 1) n size in
    let whole = append_assoc before (pos (i + 1) ∷ []) (links (i + 1) (suc n)) in
    let here = get_or-append before (links (i + 1) (suc n)) (pos (i + 1)) i e in
    let inside : i < length (before ++ pos (i + 1) ∷ links (i + 1) (suc n)) =
      omega (arith, e, length-append before (pos (i + 1) ∷ links (i + 1) (suc n))) in
    link i (range (i + 1) (suc n)) inside (elem-range i (i + 1) (suc n) (omega arith)) (
      subst
        (λ (next : ℤ).
          Chain (before ++ pos (i + 1) ∷ links (i + 1) (suc n)) next (range (i + 1) (suc n)))
        (sym here)
        (subst (λ (a : List ℤ). Chain a (pos (i + 1)) (range (i + 1) (suc n))) whole behind))

-- The array of `old` elements, all allocated, after it has grown.
abbrev pub grown : List ℤ → List ℤ
grown array = array ++ alloced_id ∷ links (length array + 1) (length array - 1)

abbrev pub new_ids : List ℤ → List ℕ
new_ids array = range (length array + 1) (length array - 1)

pub length-grown : (array : List ℤ) → length (grown array) ≡ length array + suc (length array - 1)
length-grown array =
    length-append array (alloced_id ∷ links (length array + 1) (length array - 1))
    ∙ ap (λ (n : ℕ). length array + suc n) (length-links (length array + 1) (length array - 1))

pub grown-Chain :
    (array : List ℤ)
    → 2 ≤ length array
    → Chain (grown array) (pos (length array + 1)) (new_ids array)
grown-Chain array room =
    let more : length array - 1 ≡ suc (length array - 2) = omega arith in
    let size : length (array ++ alloced_id ∷ []) ≡ length array + 1 =
      omega (arith, length-append array (alloced_id ∷ [])) in
    let behind =
      links-Chain (array ++ alloced_id ∷ []) (length array + 1) (length array - 2) size in
    let whole =
      append_assoc array (alloced_id ∷ []) (links (length array + 1) (suc (length array - 2))) in
    subst
      (λ (n : ℕ).
        Chain (array ++ alloced_id ∷ links (length array + 1) n) (pos (length array + 1))
          (range (length array + 1) n))
      (sym more)
      (subst
        (λ (a : List ℤ).
          Chain a (pos (length array + 1)) (range (length array + 1) (suc (length array - 2))))
        whole behind)

-- The ids that are there already, the new one, and the ones behind it.
pub grown_before :
    (array : List ℤ) (i : ℕ)
    → i < length array
    → get_or (grown array) i invalid_id ≡ get_or array i invalid_id
grown_before array i h =
    get_or-append_left array (alloced_id ∷ links (length array + 1) (length array - 1)) i h

pub grown_at : (array : List ℤ) → get_or (grown array) (length array) invalid_id ≡ alloced_id
grown_at array =
    get_or-append array (links (length array + 1) (length array - 1)) alloced_id (length array) refl

pub grown_behind :
    (array : List ℤ) (i : ℕ)
    → 2 ≤ length array
    → length array < i
    → is_alloced (get_or (grown array) i invalid_id) ≡ false
grown_behind array i room h = elim (Bool-cases (ltb i (length (grown array)))) [
  | inl e ↦
      Chain-free (grown array) (pos (length array + 1)) (new_ids array) i (grown-Chain array room) (
        range-elem i (length array + 1) (length array - 1) (omega arith)
          (ground (arith, length-grown array)))
  | inr e ↦ rw (get_or_past (grown array) i (ground arith)) refl
]

pub grown-Covers :
    (array : List ℤ) → 2 ≤ length array → Covers array [] → Covers (grown array) (new_ids array)
grown-Covers array room covers i h = elim (Bool-cases (ltb i (length array))) [
  | inl e ↦ elim (covers i (ground arith)) [
    | inl a ↦ inl (rw (grown_before array i (ground arith)) a)
    | inr m ↦ absurd (ground (arith, none m))
  ]
  | inr e ↦ elim (Bool-cases (length array == i)) [
    | inl q ↦ inl (rw (sym ((==_iff (length array) i).0 q)) (rw (grown_at array) refl))
    | inr q ↦ inr (
        range-elem i (length array + 1) (length array - 1) (ground arith)
          (ground (arith, length-grown array)))
  ]
]
  where
    none : elem i [] ≡ true → false ≡ true
    none m = m

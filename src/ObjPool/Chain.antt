-- ===== src/ObjPool/Chain.antt =====
-- objpool.c: the linked free elements, and that allocating and freeing keep them apart from the others.
use fcitx_ng.Prelude.{
  elem, ℕ, zero, suc, ◌≤◌, ◌<◌, ◌≡◌, ◌⊎◌, inl, inr, refl, sym, subst, true, false, List, [], ◌∷◌,
  ◌==◌, ==_iff, ℤ, pos, arith, length, get_or, set, length-set, Bool-cases,
}
use fcitx_ng.ObjPool.{invalid_id, ObjPool, is_alloced, alloced}

-- From `next` on the array links the elements of the list, which are different.
pub data Chain (array : List ℤ) : ℤ → List ℕ → Type 0 where
  done : Chain array invalid_id []
  link :
      (i : ℕ) (l : List ℕ)
      → i < length array
      → elem i l ≡ false
      → Chain array (get_or array i invalid_id) l
      → Chain array (pos i) (i ∷ l)

-- Every element of the array is either allocated or linked.
pub record IsValid (pool : ObjPool) : Type 0 where
  pub free : List ℕ
  pub chain : Chain pool.array pool.next_free free
  pub covers : (i : ℕ) → i < length pool.array → (alloced pool i ≡ true) ⊎ (elem i free ≡ true)
  pub room : 2 ≤ length pool.array

pub get_or-set_ne :
    (a : List ℤ) (i j : ℕ) (v : ℤ)
    → (i == j) ≡ false
    → get_or (set a i v) j invalid_id ≡ get_or a j invalid_id
get_or-set_ne [] i j v h = refl
get_or-set_ne (x ∷ a) zero zero v h = ground arith
get_or-set_ne (x ∷ a) zero (suc j) v h = refl
get_or-set_ne (x ∷ a) (suc i) zero v h = refl
get_or-set_ne (x ∷ a) (suc i) (suc j) v h = get_or-set_ne a i j v (ground arith)

pub get_or-set_self :
    (a : List ℤ) (i : ℕ) (v : ℤ) → i < length a → get_or (set a i v) i invalid_id ≡ v
get_or-set_self [] i v h = absurd (omega arith)
get_or-set_self (x ∷ a) zero v h = refl
get_or-set_self (x ∷ a) (suc i) v h = get_or-set_self a i v (omega arith)

-- A write to an element that is not linked leaves the links.
pub Chain-set :
    (a : List ℤ) (next : ℤ) (l : List ℕ) (i : ℕ) (v : ℤ)
    → elem i l ≡ false
    → Chain a next l
    → Chain (set a i v) next l
Chain-set a _ _ i v h done = done
Chain-set a _ _ i v h (link j l inside once rest) =
    let next = Chain-set a (get_or a j invalid_id) l i v (ground arith) rest in
    let apart : (i == j) ≡ false = ground arith in
    link j l (rw (length-set a i v) inside) once
      (subst (λ (n : ℤ). Chain (set a i v) n l) (sym (get_or-set_ne a i j v apart)) next)

-- What is linked is not allocated.
pub Chain-next : (a : List ℤ) (next : ℤ) (l : List ℕ) → Chain a next l → is_alloced next ≡ false
Chain-next a _ _ done = refl
Chain-next a _ _ (link i l inside once rest) = refl

pub Chain-free :
    (a : List ℤ) (next : ℤ) (l : List ℕ) (i : ℕ)
    → Chain a next l
    → elem i l ≡ true
    → is_alloced (get_or a i invalid_id) ≡ false
Chain-free a _ _ i done h = ground arith
Chain-free a _ _ i (link j l inside once rest) h = elim (Bool-cases (i == j)) [
  | inl e ↦ rw ((==_iff i j).0 e) (Chain-next a (get_or a j invalid_id) l rest)
  | inr e ↦ Chain-free a (get_or a j invalid_id) l i rest (ground arith)
]

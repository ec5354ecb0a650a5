-- ===== src/PtrArray/Items.antt =====
-- array.c: the elements after each operation.
use fcitx_ng.Prelude.{
  ℕ, zero, suc, ◌+◌, ◌-◌, ◌^◌, ◌≤◌, ◌<◌, ◌≡◌, refl, ◌∙◌, Bool, false, Option, none, some, List, [],
  ◌∷◌, ◌++◌, ltb, ◌==◌, if◌then◌else◌, length, get_or, set, replicate, arith, Bool-cases, inl, inr,
  length-set, length-append, length-replicate,
}
use fcitx_ng.PtrArray.{
  PtrArray, item, next_size, grow_size, with_size, grow, shift_up, place, insert, shift_down,
  one_less, destroy, remove_fast,
}

get_or-set :
    (l : List ℕ) (i j v : ℕ)
    → i < length l
    → get_or (set l i v) j 0 ≡ (if i == j then v else get_or l j 0)
get_or-set [] i j v h = absurd (omega arith)
get_or-set (x ∷ l) zero zero v h = ground arith
get_or-set (x ∷ l) zero (suc j) v h = ground arith
get_or-set (x ∷ l) (suc i) zero v h = ground arith
get_or-set (x ∷ l) (suc i) (suc j) v h = ground (arith, get_or-set l i j v)

length-shift_up : (n p : ℕ) (l : List ℕ) → length (shift_up n p l) ≡ length l
unfolding shift_up
length-shift_up zero p l = refl
length-shift_up (suc n) p l =
    length-shift_up n p (set l (p + n + 1) (get_or l (p + n) 0))
    ∙ length-set l (p + n + 1) (get_or l (p + n) 0)

-- The elements from `p` on, `n` of them, move up.
shift_up_lem :
    (n p j : ℕ) (l : List ℕ)
    → p + n < length l
    → get_or (shift_up n p l) j 0 ≡ (
        if ltb p j
        then (if ltb (p + n) j then get_or l j 0 else get_or l (j - 1) 0)
        else get_or l j 0)
unfolding shift_up
shift_up_lem zero p j l h = ground arith
shift_up_lem (suc n) p j l h =
    let v = get_or l (p + n) 0 in
    let rest =
      shift_up_lem n p j (set l (p + n + 1) v) (omega (arith, h, length-set l (p + n + 1) v)) in
    ground (
      arith,
      rest,
      get_or-set l (p + n + 1) j v (omega (arith, h)),
      get_or-set l (p + n + 1) (j - 1) v (omega (arith, h)),
    )

-- The array has one element more, `x` at `p`, and the ones from `p` on have moved up.
pub record Inserts (a : PtrArray) (x p : ℕ) (b : PtrArray) : Type 0 where
  pub longer : b.len ≡ a.len + 1
  pub fits : b.len ≤ length b.memory
  pub items :
      (i : ℕ)
      → i < b.len
      → item b i ≡ (if ltb i p then item a i else if i == p then x else item a (i - 1))
  pub kept : b.destroyed ≡ a.destroyed

place-Inserts :
    (a : PtrArray) (x p : ℕ) → p ≤ a.len → a.len < length a.memory → Inserts a x p (place x p a)
unfolding place
place-Inserts a x p h room =
    let n = a.len - p in
    let size = length-shift_up n p a.memory in
    record {
      longer = refl;
      fits = omega (arith, length-set (shift_up n p a.memory) p x, size);
      items = λ i k. ground (
        arith,
        get_or-set (shift_up n p a.memory) p i x (omega (arith, size)),
        shift_up_lem n p i a.memory (omega arith),
      );
      kept = refl;
    }

-- The size function never stops short of growing.
unfoldable pub IsGrowing : Option (ℕ → ℕ) → Type 0
IsGrowing f = (size : ℕ) → size < next_size f size

grow_size_lem :
    (fuel : ℕ) (f : Option (ℕ → ℕ)) (size target : ℕ)
    → IsGrowing f
    → target - size < fuel
    → (s : ℕ) × ((grow_size fuel f size target ≡ some s) × ((target ≤ s) × (size ≤ s)))
unfolding grow_size IsGrowing
grow_size_lem zero f size target g h = absurd (omega arith)
grow_size_lem (suc fuel) f size target g h = elim (Bool-cases (ltb size target)) [
  | inl e ↦
      let more = g size in
      let rest = grow_size_lem fuel f (next_size f size) target g (ground arith) in
      rw e (rest.0, (rest.1.0, (rest.1.1.0, omega (arith, rest.1.1.1, more))))
  | inr e ↦ rw e (size, (refl, (ground arith, omega arith)))
]

get_or-append_left : (a b : List ℕ) (j : ℕ) → j < length a → get_or (a ++ b) j 0 ≡ get_or a j 0
get_or-append_left [] b j h = absurd (omega arith)
get_or-append_left (y ∷ a) b zero h = refl
get_or-append_left (y ∷ a) b (suc j) h = get_or-append_left a b j (omega arith)

grown-Inserts :
    (a : PtrArray) (x p : ℕ) (more : List ℕ)
    → p ≤ a.len
    → a.len ≤ length a.memory
    → a.len < length (a.memory ++ more)
    → Inserts a x p (place x p (record a { memory = a.memory ++ more }))
grown-Inserts a x p more h fit room =
    let r = place-Inserts (record a { memory = a.memory ++ more }) x p h room in
    record {
      longer = r.longer;
      fits = r.fits;
      items = λ i k. ground (
        arith,
        r.items i k,
        r.longer,
        get_or-append_left a.memory more i,
        get_or-append_left a.memory more (i - 1),
      );
      kept = r.kept;
    }

-- With a size function that grows, and as much fuel as the length and two more, inserting at a
-- position up to the length gives a result: the element is at the position, the ones from there on
-- have moved up by one, the others are unchanged, and the memory has room for all of them.
pub insert-Inserts :
    (fuel : ℕ) (a : PtrArray) (x p : ℕ)
    → IsGrowing a.size_grow_func
    → a.len ≤ length a.memory
    → a.len + 1 < fuel
    → p ≤ a.len
    → (b : PtrArray) × ((insert fuel a x p ≡ some b) × Inserts a x p b)
unfolding insert grow
insert-Inserts fuel a x p g fit enough h =
    let inside : ltb a.len p ≡ false = ground arith in
    elim (Bool-cases (ltb (length a.memory) (a.len + 1))) [
      | inl e ↦
          let found =
            grow_size_lem fuel a.size_grow_func (length a.memory) (a.len + 1) g (omega arith) in
          let more = replicate (found.0 - length a.memory) 0 in
          let size : a.len < length (a.memory ++ more) = omega (
            arith,
            length-append a.memory more,
            length-replicate {A = ℕ} (found.0 - length a.memory) 0,
            found.1.1,
          ) in
          rw inside (
            rw e (
              rw found.1.0 (
                unfold with_size in
                (
                  place x p (record a { memory = a.memory ++ more }),
                  (refl, grown-Inserts a x p more h fit size),
                ))))
      | inr e ↦ rw inside (rw e (place x p a, (refl, place-Inserts a x p h (ground arith))))
    ]

length-shift_down : (n p : ℕ) (l : List ℕ) → length (shift_down n p l) ≡ length l
unfolding shift_down
length-shift_down zero p l = refl
length-shift_down (suc n) p l =
    length-shift_down n (p + 1) (set l p (get_or l (p + 1) 0)) ∙ length-set l p (get_or l (p + 1) 0)

-- The element at `p` is gone; it goes to the caller that steals it, or else is destroyed.
pub record Removes (a : PtrArray) (p : ℕ) (steal : Bool) (r : PtrArray × Option ℕ) : Type 0 where
  pub shorter : r.0.len + 1 ≡ a.len
  pub items : (i : ℕ) → i < r.0.len → item r.0 i ≡ (if ltb i p then item a i else item a (i + 1))
  pub stolen : r.1 ≡ (if steal then some (item a p) else none)
  pub called : r.0.destroyed ≡ (if steal then a.destroyed else (destroy (item a p) a).destroyed)

one_less_lem : (len : ℕ) → 0 < len → len < 2 ^ 64 → one_less len ≡ len - 1
one_less_lem len h k = omega arith

-- The last element takes the place of the one at `p`, which is written to `*steal` or destroyed.
pub record MovesLast (a : PtrArray) (p steal : ℕ) (r : PtrArray × Option ℕ) : Type 0 where
  pub shorter : r.0.len + 1 ≡ a.len
  pub items : (i : ℕ) → i < r.0.len → item r.0 i ≡ (if i == p then item a (a.len - 1) else item a i)
  pub stolen : r.1 ≡ (if steal == item a p then some (item a p) else none)
  pub called :
      r.0.destroyed ≡ (if steal == item a p then a.destroyed else (destroy (item a p) a).destroyed)

-- The fast removal at a position below the length puts the last element there and leaves the
-- others; the element is written to *steal only if the pointer steal is equal to the element, and
-- is destroyed otherwise.
pub remove_fast-MovesLast :
    (a : PtrArray) (p steal : ℕ)
    → a.len ≤ length a.memory
    → a.len < 2 ^ 64
    → p < a.len
    → MovesLast a p steal (remove_fast a p steal)
unfolding remove_fast destroy
remove_fast-MovesLast a p steal fit small h =
    let inside : ltb a.len p ≡ false = ground arith in
    let less = one_less_lem a.len (omega arith) small in
    elim (Bool-cases (steal == item a p)) [
      | inl e ↦ rw inside (
          rw less (
            rw e (record {
              shorter = omega arith;
              items =
                  λ i k. ground (arith, get_or-set a.memory p i (item a (a.len - 1)) (omega arith));
              stolen = rw e refl;
              called = rw e refl;
            })))
      | inr e ↦ rw inside (
          rw less (
            rw e (record {
              shorter = omega arith;
              items =
                  λ i k. ground (arith, get_or-set a.memory p i (item a (a.len - 1)) (omega arith));
              stolen = rw e refl;
              called = rw e refl;
            })))
    ]

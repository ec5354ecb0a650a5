-- ===== src/ObjPool/Alloc.antt =====
-- objpool.c: what `fcitx_obj_pool_alloc_id` and `fcitx_obj_pool_free_id` do to the set of allocated ids.
use fcitx_ng.Prelude.{
  elem, some, ◌*◌, ◌%◌, ◌^◌, ℕ, zero, suc, ◌≤◌, ◌<◌, ◌≡◌, inl, inr, refl, sym, ap, subst, Bool,
  true, false, List, [], ◌∷◌, ltb, ◌==◌, ==_iff, ℤ, pos, arith, length, get_or, set, length-set,
  Bool-cases, lt→ltb,
}
use native.Mathlib.Nat.{
  mod-eq_of_lt, mul-mod_left, mul-div_cancel, mul-lt-mul_of_pos_right, mul-le-mul_right,
}
use fcitx_ng.ObjPool.{
  invalid_id, alloced_id, ObjPool, links, init_with_prealloc, grow, alloc_at, alloc_id, is_alloced,
  alloced, free_element, free_id,
}
use fcitx_ng.ObjPool.Chain.{
  Chain, done, link, IsValid, get_or-set_ne, get_or-set_self, Chain-set, Chain-free, Chain-next,
}
use fcitx_ng.ObjPool.Grow.{
  Covers, range, range-elem, length-links, get_or_past, links-Chain, new_ids, length-grown,
  grown-Chain, grown_before, grown_at, grown_behind, grown-Covers,
}

-- The id is a new one, no other id changes, and the pool stays valid.
pub record Allocates (pool : ObjPool) (r : ℕ × ObjPool) : Type 0 where
  pub fresh : alloced pool r.0 ≡ false
  pub taken : alloced r.1 r.0 ≡ true
  pub others : (j : ℕ) → (r.0 == j) ≡ false → alloced r.1 j ≡ alloced pool j
  pub valid : IsValid r.1

taken-Covers :
    (array : List ℤ) (id : ℕ) (l : List ℕ)
    → id < length array
    → Covers array (id ∷ l)
    → Covers (set array id alloced_id) l
taken-Covers array id l inside covers i h = elim (Bool-cases (id == i)) [
  | inl e ↦
      let self = get_or-set_self array id alloced_id inside in
      inl (rw (sym ((==_iff id i).0 e)) (rw self refl))
  | inr e ↦ elim (covers i (omega (arith, h, length-set array id alloced_id))) [
    | inl a ↦ inl (rw (get_or-set_ne array id i alloced_id e) a)
    | inr m ↦ inr (ground arith)
  ]
]

grow_lem :
    (array : List ℤ)
    → 2 ≤ length array
    → Covers array []
    → Allocates (record { array = array; next_free = invalid_id }) (grow array)
unfolding grow alloced
grow_lem array room covers = record {
  fresh = rw (get_or_past array (length array) (omega arith)) refl;
  taken = rw (grown_at array) refl;
  others = λ j h. elim (Bool-cases (ltb j (length array))) [
    | inl e ↦ ap is_alloced (grown_before array j (ground arith))
    | inr e ↦ rw (get_or_past array j (ground arith)) (grown_behind array j room (ground arith))
  ];
  valid = record {
    free = new_ids array;
    chain = grown-Chain array room;
    covers = grown-Covers array room covers;
    room = omega (arith, length-grown array);
  };
}

alloc_at_lem :
    (array : List ℤ) (next : ℤ) (l : List ℕ)
    → Chain array next l
    → 2 ≤ length array
    → Covers array l
    → Allocates (record { array = array; next_free = next }) (alloc_at array next)
unfolding alloc_at
alloc_at_lem array _ _ done room covers = grow_lem array room covers
alloc_at_lem array _ _ (link id l inside once rest) room covers = record {
  fresh =
      unfold alloced in
      Chain-free array (pos id) (id ∷ l) id (link id l inside once rest) (ground arith);
  taken = unfold alloced in rw (get_or-set_self array id alloced_id inside) refl;
  others = λ j h. unfold alloced in ap is_alloced (get_or-set_ne array id j alloced_id h);
  valid = record {
    free = l;
    chain = Chain-set array (get_or array id invalid_id) l id alloced_id once rest;
    covers = unfold alloced in taken-Covers array id l inside covers;
    room = rw (length-set array id alloced_id) room;
  };
}

-- From a valid pool, full or not, the id that is returned was not allocated and is afterwards, no
-- other id changes, and the pool stays valid: its free elements are linked once each, and no
-- element is lost.
pub alloc_id-Allocates : (pool : ObjPool) → IsValid pool → Allocates pool (alloc_id pool)
unfolding alloc_id
alloc_id-Allocates pool v =
    alloc_at_lem pool.array pool.next_free v.free v.chain v.room (unfold alloced in v.covers)

-- The answer is whether the id was allocated, it no longer is, and no other id changes.
pub record Frees (pool : ObjPool) (i : ℕ) (r : Bool × ObjPool) : Type 0 where
  pub told : r.0 ≡ alloced pool i
  pub freed : alloced r.1 i ≡ false
  pub others : (j : ℕ) → (i == j) ≡ false → alloced r.1 j ≡ alloced pool j
  pub valid : IsValid r.1

refused_lem :
    (pool : ObjPool) (i : ℕ) → IsValid pool → alloced pool i ≡ false → Frees pool i (false, pool)
refused_lem pool i v h = record { told = sym h; freed = h; others = λ j e. refl; valid = v }

-- An allocated element is not linked.
unlinked :
    (pool : ObjPool) (v : IsValid pool) (i : ℕ) → alloced pool i ≡ true → elem i v.free ≡ false
unlinked pool v i h = elim (Bool-cases (elem i v.free)) [
  | inl m ↦
      let free = Chain-free pool.array pool.next_free v.free i v.chain m in
      let held : is_alloced (get_or pool.array i invalid_id) ≡ true = unfold alloced in h in
      ground (arith, free, held)
  | inr e ↦ e
]

released-Covers :
    (array : List ℤ) (i : ℕ) (next : ℤ) (l : List ℕ)
    → Covers array l
    → Covers (set array i next) (i ∷ l)
released-Covers array i next l covers j h = elim (Bool-cases (i == j)) [
  | inl e ↦ inr (ground arith)
  | inr e ↦ elim (covers j (omega (arith, h, length-set array i next))) [
    | inl a ↦ inl (rw (get_or-set_ne array i j next e) a)
    | inr m ↦ inr (ground arith)
  ]
]

released_lem :
    (pool : ObjPool) (i : ℕ)
    → IsValid pool
    → i < length pool.array
    → alloced pool i ≡ true
    → Frees pool i (true, record { array = set pool.array i pool.next_free; next_free = pos i })
released_lem pool i v inside h =
    let apart = unlinked pool v i h in
    let still = Chain-set pool.array pool.next_free v.free i pool.next_free apart v.chain in
    let self = get_or-set_self pool.array i pool.next_free inside in
    record {
      told = sym h;
      freed = unfold alloced in rw self (Chain-next pool.array pool.next_free v.free v.chain);
      others =
          λ j e. unfold alloced in ap is_alloced (get_or-set_ne pool.array i j pool.next_free e);
      valid = record {
        free = i ∷ v.free;
        chain =
            link i v.free (rw (length-set pool.array i pool.next_free) inside) apart (
              subst (λ (n : ℤ). Chain (set pool.array i pool.next_free) n v.free) (sym self) still);
        covers = unfold alloced in released-Covers pool.array i pool.next_free v.free v.covers;
        room = rw (length-set pool.array i pool.next_free) v.room;
      };
    }

-- The same where the offset is that of an element.
pub free_element-Frees :
    (pool : ObjPool) (i : ℕ) → IsValid pool → Frees pool i (free_element pool i)
unfolding free_element
free_element-Frees pool i v = elim (Bool-cases (ltb i (length pool.array))) [
  | inl e ↦ elim (Bool-cases (is_alloced (get_or pool.array i invalid_id))) [
    | inl a ↦ rw e (rw a (released_lem pool i v (ground arith) (unfold alloced in a)))
    | inr a ↦ rw e (rw a (refused_lem pool i v (unfold alloced in a)))
  ]
  | inr e ↦
      rw e
        (refused_lem pool i v (unfold alloced in rw (get_or_past pool.array i (ground arith)) refl))
]

free_id-element :
    (ele_size : ℕ) (pool : ObjPool) (i : ℕ)
    → 0 < ele_size
    → i * ele_size < 2 ^ 32
    → free_id ele_size pool (pos i) ≡ some (free_element pool i)
unfolding free_id free_element
free_id-element ele_size pool i some_byte low =
    let exact : i * ele_size % 2 ^ 32 ≡ i * ele_size = mod-eq_of_lt low in
    rw exact (elim (Bool-cases (ltb i (length pool.array))) [
      | inl e ↦
          let inside : ltb (i * ele_size) (length pool.array * ele_size) ≡ true =
            lt→ltb _ _ (mul-lt-mul_of_pos_right (ground (arith, e)) some_byte) in
          rw inside (rw (mul-mod_left i ele_size) (rw (mul-div_cancel i some_byte) (rw e refl)))
      | inr e ↦
          let behind : length pool.array * ele_size ≤ i * ele_size =
            mul-le-mul_right ele_size (ground (arith, e)) in
          let outside : ltb (i * ele_size) (length pool.array * ele_size) ≡ false =
            ground (arith, behind) in
          rw outside (rw e refl)
    ])

-- On a valid pool, for an id that is not negative and whose offset in bytes is below 2^32, the
-- answer is whether the id was allocated; afterwards it is not, no other id changes, and the pool
-- stays valid.
pub free_id-Frees :
    (ele_size : ℕ) (pool : ObjPool) (i : ℕ)
    → IsValid pool
    → 0 < ele_size
    → i * ele_size < 2 ^ 32
    → (r : Bool × ObjPool) × ((free_id ele_size pool (pos i) ≡ some r) × Frees pool i r)
free_id-Frees ele_size pool i v some_byte low = (
  free_element pool i,
  (free_id-element ele_size pool i some_byte low, free_element-Frees pool i v),
)

-- A pool that is made with at least two elements is valid and has none allocated.
pub init_with_prealloc-IsValid :
    (prealloc : ℕ)
    → 2 ≤ prealloc
    → IsValid (init_with_prealloc prealloc)
      × ((i : ℕ) → alloced (init_with_prealloc prealloc) i ≡ false)
unfolding init_with_prealloc alloced
init_with_prealloc-IsValid zero h = absurd (omega arith)
init_with_prealloc-IsValid (suc n) h =
    let chain = links-Chain [] 0 n refl in
    let size = length-links 0 (suc n) in
    (
      record {
        free = range 0 (suc n);
        chain = chain;
        covers = λ i j. inr (range-elem i 0 (suc n) (omega arith) (omega (arith, j, size)));
        room = omega (arith, size, h);
      },
      λ i. elim (Bool-cases (ltb i (suc n))) [
        | inl e ↦
            Chain-free (links 0 (suc n)) (pos 0) (range 0 (suc n)) i chain
              (range-elem i 0 (suc n) (omega arith) (ground arith))
        | inr e ↦ rw (get_or_past (links 0 (suc n)) i (ground (arith, size))) refl
      ],
    )

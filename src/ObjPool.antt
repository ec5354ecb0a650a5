-- ===== src/ObjPool.antt =====
-- lib/fcitx-utils/objpool.c: a growing array of elements, of which the free ones are linked.
-- `pool->array` is the list of the `int` at the start of each element, `pool->alloc` and an element's
-- offset are counted in elements, and the object behind that `int` is left out. Ids stay below 2 ^ 31.
pub mod Chain
pub mod Grow
pub mod Alloc
use fcitx_ng.Prelude.{
  Option, some, none, ◌*◌, ◌/◌, ◌%◌, ◌^◌, ℕ, zero, suc, ◌+◌, ◌-◌, not, Bool, true, false, List, [],
  ◌∷◌, ◌++◌, ltb, ◌==◌, if◌then◌else◌, ℤ, pos, negsuc, length, get_or, set,
}

-- `FCITX_OBJECT_POOL_INVALID_ID` and `FCITX_OBJECT_POOL_ALLOCED_ID`.
abbrev pub invalid_id : ℤ
invalid_id = negsuc 0

abbrev pub alloced_id : ℤ
alloced_id = negsuc 1

pub record ObjPool : Type 0 where
  pub array : List ℤ
  pub next_free : ℤ

-- The loops that link `n` elements from `i` on, and the write to the last one. Where there is no element
-- to link, which takes a pool made with fewer than two, the code writes past the end; here nothing is.
unfoldable pub links : ℕ → ℕ → List ℤ
links i zero = []
links i (suc zero) = invalid_id ∷ []
links i (suc (suc n)) = pos (i + 1) ∷ links (i + 1) (suc n)

unfoldable pub init_with_prealloc : ℕ → ObjPool
unfolding links
init_with_prealloc prealloc = record { array = links 0 prealloc; next_free = pos 0 }

-- The branch that doubles the array: `old` elements, and as many more.
unfoldable pub grow : List ℤ → ℕ × ObjPool
unfolding links
grow array =
    let old = length array in
    (
      old,
      record { array = array ++ alloced_id ∷ links (old + 1) (old - 1); next_free = pos (old + 1) },
    )

unfoldable pub alloc_at : List ℤ → ℤ → ℕ × ObjPool
alloc_at array (pos id) =
    (id, record { array = set array id alloced_id; next_free = get_or array id invalid_id })
alloc_at array (negsuc n) = grow array

unfoldable pub alloc_id : ObjPool → ℕ × ObjPool
alloc_id pool = alloc_at pool.array pool.next_free

abbrev pub is_alloced : ℤ → Bool
is_alloced (pos n) = false
is_alloced (negsuc n) = n == 1

-- `*(int*)(pool->array + offset) == FCITX_OBJECT_POOL_ALLOCED_ID`, within the array.
unfoldable pub alloced : ObjPool → ℕ → Bool
alloced pool i = is_alloced (get_or pool.array i invalid_id)

-- The rest of `fcitx_obj_pool_free_id` for the id `id`, whose offset is that of the element `i`.
abbrev pub free_at : ObjPool → ℕ → ℤ → Bool × ObjPool
free_at pool i id =
    if not (is_alloced (get_or pool.array i invalid_id))
    then (false, pool)
    else (true, record { array = set pool.array i pool.next_free; next_free = id })

-- `fcitx_obj_pool_free_id` where the offset is that of the element `i`.
unfoldable pub free_element : ObjPool → ℕ → Bool × ObjPool
free_element pool i =
    if not (ltb i (length pool.array)) then (false, pool) else free_at pool i (pos i)

-- The offset of an id in bytes, as an `unsigned int`.
abbrev pub free_offset : ℕ → ℤ → ℕ
free_offset ele_size (pos i) = i * ele_size % 2 ^ 32
free_offset ele_size (negsuc n) = (2 ^ 32 - (n + 1)) * ele_size % 2 ^ 32

-- `fcitx_obj_pool_free_id`, with the size of an element; `none` when the offset is inside of an element, whose
-- bytes are not in the model.
unfoldable pub free_id : ℕ → ObjPool → ℤ → Option (Bool × ObjPool)
free_id ele_size pool id =
    let offset = free_offset ele_size id in
    if not (ltb offset (length pool.array * ele_size))
    then some (false, pool)
    else if offset % ele_size == 0
    then some (free_at pool (offset / ele_size) id)
    else none

-- ===== src/PtrArray.antt =====
-- lib/fcitx-utils/array.c: a growing array of pointers. A pointer is a number. `memory` is what
-- `array->data` points to, as long as `priv->size`; what `realloc` adds is 0 here, and so is a read past
-- the end. The calls of `freeFunc` and `destoryNotify2` are the list of the pointers, the newest first.
pub mod Items
use fcitx_ng.Prelude.{
  ℕ, zero, suc, ◌+◌, ◌-◌, ◌*◌, ◌%◌, ◌^◌, Bool, true, false, not, Option, none, some, List, [], ◌∷◌,
  ◌++◌, ltb, leb, ◌==◌, if◌then◌else◌, length, get_or, set, replicate,
}

pub record PtrArray : Type 0 where
  pub memory : List ℕ
  pub len : ℕ
  pub size_grow_func : Option (ℕ → ℕ)
  pub free_func : Bool
  pub destroy_notify2 : Bool
  pub destroyed : List ℕ

-- The element at `i`.
abbrev pub item : PtrArray → ℕ → ℕ
item array i = get_or array.memory i 0

abbrev pub next_size : Option (ℕ → ℕ) → ℕ → ℕ
next_size none size = if not (size == 0) then size * 2 else 1
next_size (some f) size = f size

-- The loop of `_fcitx_ptr_array_grow`; no result when the fuel is used up.
unfoldable pub grow_size : ℕ → Option (ℕ → ℕ) → ℕ → ℕ → Option ℕ
grow_size zero f size target = none
grow_size (suc fuel) f size target =
    let rest = grow_size fuel f (next_size f size) target in
    if ltb size target then rest else some size

unfoldable pub with_size : PtrArray → Option ℕ → Option PtrArray
with_size array none = none
with_size array (some size) =
    some (record array { memory = array.memory ++ replicate (size - length array.memory) 0 })

unfoldable pub grow : ℕ → PtrArray → ℕ → Option PtrArray
unfolding grow_size with_size
grow fuel array target =
    with_size array (grow_size fuel array.size_grow_func (length array.memory) target)

-- `for (i = len; i-- > position; ) data[i + 1] = data[i]`, with `n` rounds left.
unfoldable pub shift_up : ℕ → ℕ → List ℕ → List ℕ
shift_up zero position memory = memory
shift_up (suc n) position memory =
    shift_up n position (set memory (position + n + 1) (get_or memory (position + n) 0))

-- The element is written, and the array has one more.
unfoldable pub place : ℕ → ℕ → PtrArray → PtrArray
unfolding shift_up
place x position array = record array {
  memory = set (shift_up (array.len - position) position array.memory) position x;
  len = array.len + 1;
}

unfoldable pub insert : ℕ → PtrArray → ℕ → ℕ → Option PtrArray
unfolding grow place
insert fuel array x position =
    if ltb array.len position
    then some array
    else if ltb (length array.memory) (array.len + 1)
    then elim (grow fuel array (array.len + 1)) [
      | none ↦ none
      | some grown ↦ some (place x position grown)
    ]
    else some (place x position array)

-- `for (i = position; i < len; i++) data[i] = data[i + 1]`, with `n` rounds left.
unfoldable pub shift_down : ℕ → ℕ → List ℕ → List ℕ
shift_down zero i memory = memory
shift_down (suc n) i memory = shift_down n (i + 1) (set memory i (get_or memory (i + 1) 0))

-- `array->len --` of a `size_t`.
abbrev pub one_less : ℕ → ℕ
one_less len = (len + (2 ^ 64 - 1)) % 2 ^ 64

-- `destoryNotify2`, then `freeFunc`.
unfoldable pub destroy : ℕ → PtrArray → PtrArray
destroy x array =
    let notified = if array.destroy_notify2 then x ∷ array.destroyed else array.destroyed in
    record array { destroyed = if array.free_func then x ∷ notified else notified }

-- The array, and what is written to `*steal`.
unfoldable pub remove : PtrArray → ℕ → Bool → PtrArray × Option ℕ
unfolding shift_down destroy
remove array position steal =
    if ltb array.len position
    then (array, none)
    else let x = item array position in
      let len = one_less array.len in
      let array₁ = record array {
        len = len;
        memory = shift_down (len - position) position array.memory;
      } in
      if steal then (array₁, some x) else (destroy x array₁, none)

-- `steal`, a pointer or 0 for NULL, is compared with the element.
unfoldable pub remove_fast : PtrArray → ℕ → ℕ → PtrArray × Option ℕ
unfolding destroy
remove_fast array position steal =
    if ltb array.len position
    then (array, none)
    else let x = item array position in
      let len = one_less array.len in
      let array₁ = record array {
        len = len;
        memory = set array.memory position (item array len);
      } in
      if steal == x then (array₁, some x) else (destroy x array₁, none)

unfoldable pub set_at : PtrArray → ℕ → ℕ → PtrArray
unfolding destroy
set_at array index x =
    if not (ltb index array.len)
    then array
    else let array₁ = destroy (item array index) array in
      record array₁ { memory = set array₁.memory index x }

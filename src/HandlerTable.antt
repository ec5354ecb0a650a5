-- ===== src/HandlerTable.antt =====
-- lib/fcitx-utils/handler-table.c: the handlers of a key, a doubly linked list through the object pool.
-- A pointer to a `FcitxHandlerKey` is a number, and the structures behind the pointers and the ids are
-- functions of them. `FCITX_OBJECT_POOL_INVALID_ID` is `none`. A handler's payload is a number, and the
-- calls of `table->free_func` are the list of their arguments, the newest first.
pub mod Links
pub mod Append
pub mod Prepend
pub mod Without
pub mod Remove
pub mod Visit
pub mod FreeKey
use fcitx_ng.Prelude.{
  ℕ, zero, suc, Bool, true, false, ◌&&◌, Option, none, some, List, [], ◌∷◌, ◌==◌, if◌then◌else◌,
}
use fcitx_ng.ObjPool.{ObjPool, alloc_id, free_element, init_with_prealloc}

pub record HandlerKey : Type 0 where
  pub first : Option ℕ
  pub last : Option ℕ

pub record HandlerObj : Type 0 where
  pub prev : Option ℕ
  pub next : Option ℕ
  pub key : ℕ
  pub payload : ℕ

pub record HandlerTable : Type 0 where
  pub objs : ObjPool
  pub obj : ℕ → HandlerObj
  pub keys : ℕ → HandlerKey
  pub free_func : Bool
  pub freed : List ℕ

abbrev pub update {ℓ} : {A : Type ℓ} → ℕ → A → (ℕ → A) → ℕ → A
update i a f = λ j. if i == j then a else f j

-- `fcitx_handler_table_new_with_keydata`, with the memory that the pool comes with. A key that does not
-- exist yet stands as `fcitx_handler_table_find_key` makes it, with no handlers.
unfoldable pub new_with_keydata : Bool → (ℕ → HandlerObj) → HandlerTable
new_with_keydata free_func memory = record {
  objs = init_with_prealloc 4;
  obj = memory;
  keys = λ k. record { first = none; last = none };
  free_func = free_func;
  freed = [];
}

-- `fcitx_handler_table_get_obj(table, id)->next = next`, and the like.
abbrev pub set_next : ℕ → Option ℕ → HandlerTable → HandlerTable
set_next i next t = record t { obj = update i (record (t.obj i) { next = next }) t.obj }

abbrev pub set_prev : ℕ → Option ℕ → HandlerTable → HandlerTable
set_prev i prev t = record t { obj = update i (record (t.obj i) { prev = prev }) t.obj }

abbrev pub set_first : ℕ → Option ℕ → HandlerTable → HandlerTable
set_first k first t = record t { keys = update k (record (t.keys k) { first = first }) t.keys }

abbrev pub set_last : ℕ → Option ℕ → HandlerTable → HandlerTable
set_last k last t = record t { keys = update k (record (t.keys k) { last = last }) t.keys }

-- The new object, with the links that its caller sets.
abbrev pub new_obj : ℕ → ℕ → Option ℕ → Option ℕ → ℕ → HandlerTable → HandlerTable
new_obj new_id k prev next payload t = record t {
  objs = (alloc_id t.objs).1;
  obj = update new_id (record { prev = prev; next = next; key = k; payload = payload }) t.obj;
}

-- `fcitx_handler_key_append`, on `key_struct->last`.
unfoldable pub append_at : Option ℕ → ℕ → ℕ → ℕ → HandlerTable → HandlerTable
append_at none new_id k payload t =
    set_last k (some new_id) (set_first k (some new_id) (new_obj new_id k none none payload t))
append_at (some id) new_id k payload t =
    set_next id (some new_id) (set_last k (some new_id) (new_obj new_id k (some id) none payload t))

unfoldable pub key_append : ℕ → ℕ → HandlerTable → ℕ × HandlerTable
unfolding append_at
key_append k payload t =
    let new_id = (alloc_id t.objs).0 in (new_id, append_at (t.keys k).last new_id k payload t)

-- `fcitx_handler_key_prepend`, on `key_struct->first`.
unfoldable pub prepend_at : Option ℕ → ℕ → ℕ → ℕ → HandlerTable → HandlerTable
prepend_at none new_id k payload t =
    set_last k (some new_id) (set_first k (some new_id) (new_obj new_id k none none payload t))
prepend_at (some id) new_id k payload t =
    set_prev id (some new_id)
      (set_first k (some new_id) (new_obj new_id k none (some id) payload t))

unfoldable pub key_prepend : ℕ → ℕ → HandlerTable → ℕ × HandlerTable
unfolding prepend_at
key_prepend k payload t =
    let new_id = (alloc_id t.objs).0 in (new_id, prepend_at (t.keys k).first new_id k payload t)

unfoldable pub key_is_empty : HandlerKey → Bool
key_is_empty k = is_invalid k.last && is_invalid k.first
  where
    is_invalid : Option ℕ → Bool
    is_invalid none = true
    is_invalid (some i) = false

-- `fcitx_handler_table_remove_by_id`: what the neighbours, or the key, link to.
unfoldable pub unlink_next : Option ℕ → ℕ → Option ℕ → HandlerTable → HandlerTable
unlink_next none k next t = set_first k next t
unlink_next (some prev) k next t = set_next prev next t

unfoldable pub unlink_prev : Option ℕ → ℕ → Option ℕ → HandlerTable → HandlerTable
unlink_prev none k prev t = set_last k prev t
unlink_prev (some next) k prev t = set_prev next prev t

-- The call of `free_func`, then `fcitx_obj_pool_free_id` on an id whose offset is below 2 ^ 32.
unfoldable pub release : ℕ → HandlerTable → HandlerTable
release i t = record t {
  freed = if t.free_func then (t.obj i).payload ∷ t.freed else t.freed;
  objs = (free_element t.objs i).1;
}

unfoldable pub remove_at : ℕ → HandlerTable → HandlerTable
unfolding unlink_next unlink_prev release
remove_at i t =
    let o = t.obj i in
    release i (unlink_prev o.next o.key o.prev (unlink_next o.prev o.key o.next t))

unfoldable pub remove_by_id : Option ℕ → HandlerTable → HandlerTable
unfolding remove_at
remove_by_id none t = t
remove_by_id (some i) t = remove_at i t

-- The loop of `fcitx_handler_table_free_key` from `id` on.
unfoldable pub free_loop : ℕ → Option ℕ → HandlerTable → Option HandlerTable
unfolding release
free_loop zero id t = none
free_loop (suc fuel) none t = some t
free_loop (suc fuel) (some id) t = free_loop fuel (t.obj id).next (release id t)

-- `free(key_struct)`, and the structure as the next owner of the pointer makes it.
unfoldable pub reset_key : ℕ → HandlerTable → HandlerTable
reset_key k t = record t { keys = update k (record { first = none; last = none }) t.keys }

-- A pointer to the payload, `none` for NULL.
unfoldable pub get_by_id : HandlerTable → Option ℕ → Option ℕ
get_by_id t none = none
get_by_id t (some id) = some (t.obj id).payload

unfoldable pub get_key_by_id : HandlerTable → Option ℕ → Option ℕ
get_key_by_id t none = none
get_key_by_id t (some id) = some (t.obj id).key

-- The key's pointer may be NULL.
unfoldable pub key_first_id : HandlerTable → Option ℕ → Option ℕ
key_first_id t none = none
key_first_id t (some k) = (t.keys k).first

unfoldable pub key_last_id : HandlerTable → Option ℕ → Option ℕ
key_last_id t none = none
key_last_id t (some k) = (t.keys k).last

-- The handler is given by the id of its payload.
unfoldable pub next_id : HandlerTable → ℕ → Option ℕ
next_id t id = (t.obj id).next

unfoldable pub prev_id : HandlerTable → ℕ → Option ℕ
prev_id t id = (t.obj id).prev

unfoldable pub key_first : HandlerTable → Option ℕ → Option ℕ
unfolding get_by_id key_first_id
key_first t k = get_by_id t (key_first_id t k)

unfoldable pub key_last : HandlerTable → Option ℕ → Option ℕ
unfolding get_by_id key_last_id
key_last t k = get_by_id t (key_last_id t k)

unfoldable pub next : HandlerTable → ℕ → Option ℕ
unfolding get_by_id next_id
next t id = get_by_id t (next_id t id)

unfoldable pub prev : HandlerTable → ℕ → Option ℕ
unfolding get_by_id prev_id
prev t id = get_by_id t (prev_id t id)

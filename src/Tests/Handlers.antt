-- ===== src/Tests/Handlers.antt =====
-- handler-table.c on concrete tables: runs, and the theorems at tables that meet their hypotheses.
use fcitx_ng.Prelude.{
  elem, ℕ, ◌≡◌, refl, true, none, some, List, [], ◌∷◌, ◌++◌, arith, if◌then◌else◌,
}
use fcitx_ng.ObjPool.{init_with_prealloc, alloc_at, alloc_id}
use fcitx_ng.HandlerTable.{
  HandlerTable, HandlerObj, update, new_with_keydata, key_append, key_prepend, remove_by_id,
  free_loop, reset_key, key_first_id, next_id,
}
use fcitx_ng.HandlerTable.Links.{Represents}
use fcitx_ng.HandlerTable.Append.{new_with_keydata-Represents, key_append-Represents, Adds}
use fcitx_ng.HandlerTable.Prepend.{key_prepend-Represents}
use fcitx_ng.HandlerTable.Without.{without}
use fcitx_ng.HandlerTable.Remove.{remove_by_id-Represents}
use fcitx_ng.HandlerTable.Visit.{visits}
use fcitx_ng.HandlerTable.FreeKey.{freed_of, free_loop-Represents}

abbrev memory : ℕ → HandlerObj
memory i = record { prev = none; next = none; key = 0; payload = 0 }

abbrev empty_table : HandlerTable
empty_table = new_with_keydata true memory

-- Key 7 with two handlers, the second one put in front.
abbrev two_handlers : HandlerTable
two_handlers = (key_prepend 7 101 (key_append 7 100 empty_table).1).1

abbrev ids : ℕ → List ℕ
ids =
    update 7
      ((key_prepend 7 101 (key_append 7 100 empty_table).1).0
        ∷ update 7 ([] ++ (key_append 7 100 empty_table).0 ∷ []) (λ k. []) 7)
      (update 7 ([] ++ (key_append 7 100 empty_table).0 ∷ []) (λ k. []))

prepended_first :
    visits (next_id two_handlers) 3 (key_first_id two_handlers (some 7)) ≡ some (1 ∷ 0 ∷ [])
unfolding visits next_id key_first_id key_prepend key_append new_with_keydata alloc_id alloc_at
    init_with_prealloc
prepended_first = refl

key_append-Represents_example :
    Represents
      (key_append 7 100 empty_table).1
      (update 7 ([] ++ (key_append 7 100 empty_table).0 ∷ []) (λ k. []))
    × Adds empty_table 100 (key_append 7 100 empty_table)
key_append-Represents_example =
    key_append-Represents empty_table (λ k. []) 7 100 (new_with_keydata-Represents true memory)

one_handler-Represents :
    Represents
      (key_append 7 100 empty_table).1
      (update 7 ([] ++ (key_append 7 100 empty_table).0 ∷ []) (λ k. []))
one_handler-Represents =
    (key_append-Represents empty_table (λ k. []) 7 100 (new_with_keydata-Represents true memory)).0

key_prepend-Represents_example :
    Represents two_handlers ids
    × Adds (key_append 7 100 empty_table).1 101 (key_prepend 7 101 (key_append 7 100 empty_table).1)
key_prepend-Represents_example =
    key_prepend-Represents (key_append 7 100 empty_table).1
      (update 7 ([] ++ (key_append 7 100 empty_table).0 ∷ []) (λ k. [])) 7 101
      one_handler-Represents

two_handlers-Represents : Represents two_handlers ids
two_handlers-Represents =
    (key_prepend-Represents (key_append 7 100 empty_table).1
      (update 7 ([] ++ (key_append 7 100 empty_table).0 ∷ []) (λ k. [])) 7 101
      one_handler-Represents).0

listed : elem 0 (ids 7) ≡ true
unfolding key_prepend key_append new_with_keydata alloc_id alloc_at init_with_prealloc
listed = refl

remove_by_id-Represents_example :
    Represents (remove_by_id (some 0) two_handlers) (update 7 (without 0 (ids 7)) ids)
    × ((remove_by_id (some 0) two_handlers).freed ≡ (
        if two_handlers.free_func
        then (two_handlers.obj 0).payload ∷ two_handlers.freed
        else two_handlers.freed))
remove_by_id-Represents_example =
    remove_by_id-Represents two_handlers ids 7 0 two_handlers-Represents listed

free_loop-Represents_example :
    (u : HandlerTable) × ((free_loop 3 (two_handlers.keys 7).first two_handlers ≡ some u)
      × (Represents (reset_key 7 u) (update 7 [] ids)
          × (u.freed
              ≡ freed_of two_handlers.free_func two_handlers.obj (ids 7) two_handlers.freed)))
free_loop-Represents_example =
    free_loop-Represents two_handlers ids 7 3 two_handlers-Represents (omega arith)

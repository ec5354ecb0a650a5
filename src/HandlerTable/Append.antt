-- ===== src/HandlerTable/Append.antt =====
-- handler-table.c: `fcitx_handler_key_append` puts the new handler at the end of its key's list.
use fcitx_ng.Prelude.{
  elem, ℕ, ◌≡◌, refl, sym, Bool, false, Option, none, some, List, [], ◌∷◌, ◌++◌, ◌==◌, arith,
}
use fcitx_ng.ObjPool.{alloced, alloc_id}
use fcitx_ng.ObjPool.Chain.{IsValid}
use fcitx_ng.ObjPool.Alloc.{alloc_id-Allocates, init_with_prealloc-IsValid}
use fcitx_ng.HandlerTable.{
  HandlerTable, HandlerObj, update, new_with_keydata, append_at, key_append,
}
use fcitx_ng.HandlerTable.Links.{
  head?, last?, next_in, prev_from, distinct, Represents, last?-append, last?-none, last?-elem,
  head?-append, elem-append, distinct-append, next_in-append_new, next_in-append, prev_from-append,
  prev_from-append_new,
}

-- The new handler is in no list.
pub new_id-elem :
    (t : HandlerTable) (ids : ℕ → List ℕ) (k : ℕ)
    → Represents t ids
    → elem (alloc_id t.objs).0 (ids k) ≡ false
new_id-elem t ids k r =
    let fresh = (alloc_id-Allocates t.objs r.pool).fresh in
    ground (arith, r.members k (alloc_id t.objs).0, fresh)

append_at_last :
    (t : HandlerTable) (ids : ℕ → List ℕ) (k payload z : ℕ)
    → Represents t ids
    → last? (ids k) ≡ some z
    → Represents
        (append_at (some z) (alloc_id t.objs).0 k payload t)
        (update k (ids k ++ (alloc_id t.objs).0 ∷ []) ids)
unfolding append_at
append_at_last t ids k payload z r e =
    let new_id = (alloc_id t.objs).0 in
    let a = alloc_id-Allocates t.objs r.pool in
    let apart = new_id-elem t ids k r in
    let there = last?-elem (ids k) z e in
    record {
      pool = a.valid;
      members =
          λ h i. ground (arith, r.members h i, elem-append i new_id (ids k), a.taken, a.others i);
      once = λ h. ground (arith, r.once h, distinct-append new_id (ids k));
      first = λ h. ground (arith, r.first h, head?-append new_id z (ids k));
      last = λ h. ground (arith, r.last h, last?-append new_id (ids k));
      next = λ h i m. ground (
        arith,
        r.next h i,
        r.members h i,
        r.members k z,
        new_id-elem t ids h r,
        elem-append i new_id (ids k),
        next_in-append i new_id z (ids k) (r.once k) e,
        next_in-append_new new_id (ids k) apart,
      );
      prev = λ h i m. ground (
        arith,
        r.prev h i,
        r.members h i,
        r.members k z,
        new_id-elem t ids h r,
        elem-append i new_id (ids k),
        prev_from-append none i new_id (ids k),
        prev_from-append_new none new_id z (ids k) apart e,
      );
    }

-- The handler that is the only one of its key.
append_at_first :
    (t : HandlerTable) (ids : ℕ → List ℕ) (k payload : ℕ)
    → Represents t ids
    → ids k ≡ []
    → Represents
        (append_at none (alloc_id t.objs).0 k payload t)
        (update k ((alloc_id t.objs).0 ∷ []) ids)
unfolding append_at head? last? next_in prev_from distinct
append_at_first t ids k payload r e =
    let new_id = (alloc_id t.objs).0 in
    let a = alloc_id-Allocates t.objs r.pool in
    record {
      pool = a.valid;
      members = λ h i. ground (arith, r.members h i, e, a.taken, a.others i);
      once = λ h. ground (arith, r.once h);
      first = λ h. ground (arith, r.first h);
      last = λ h. ground (arith, r.last h);
      next = λ h i m. ground (arith, r.next h i, r.members h i, new_id-elem t ids h r);
      prev = λ h i m. ground (arith, r.prev h i, r.members h i, new_id-elem t ids h r);
    }

append_at_lem :
    (t : HandlerTable) (ids : ℕ → List ℕ) (k payload : ℕ) (last : Option ℕ)
    → Represents t ids
    → last? (ids k) ≡ last
    → Represents
        (append_at last (alloc_id t.objs).0 k payload t)
        (update k (ids k ++ (alloc_id t.objs).0 ∷ []) ids)
append_at_lem t ids k payload none r e =
    let empty = last?-none (ids k) e in rw empty (append_at_first t ids k payload r empty)
append_at_lem t ids k payload (some z) r e = append_at_last t ids k payload z r e

-- The id is a new one with the payload, and all other payloads are as before.
pub record Adds (t : HandlerTable) (payload : ℕ) (r : ℕ × HandlerTable) : Type 0 where
  pub fresh : alloced t.objs r.0 ≡ false
  pub stored : (r.1.obj r.0).payload ≡ payload
  pub kept : (i : ℕ) → (r.0 == i) ≡ false → (r.1.obj i).payload ≡ (t.obj i).payload

append_at-Adds :
    (t : HandlerTable) (k payload : ℕ) (last : Option ℕ)
    → IsValid t.objs
    → Adds t payload ((alloc_id t.objs).0, append_at last (alloc_id t.objs).0 k payload t)
unfolding append_at
append_at-Adds t k payload none v = record {
  fresh = (alloc_id-Allocates t.objs v).fresh;
  stored = ground arith;
  kept = λ i h. ground arith;
}
append_at-Adds t k payload (some z) v = record {
  fresh = (alloc_id-Allocates t.objs v).fresh;
  stored = ground arith;
  kept = λ i h. ground arith;
}

-- A new table, whatever the memory of its pool holds, represents the empty list for every key.
pub new_with_keydata-Represents :
    (free_func : Bool) (memory : ℕ → HandlerObj)
    → Represents (new_with_keydata free_func memory) (λ k. [])
unfolding new_with_keydata head? last? distinct
new_with_keydata-Represents free_func memory =
    let p = init_with_prealloc-IsValid 4 (omega arith) in
    record {
      pool = p.0;
      members = λ k i. ground (arith, p.1 i);
      once = λ k. refl;
      first = λ k. refl;
      last = λ k. refl;
      next = λ k i m. absurd (ground (arith, m));
      prev = λ k i m. absurd (ground (arith, m));
    }

-- In a table that represents a list of ids for each key, appending for a key gives an id that was
-- not allocated, and a table that represents the lists with that id at the end of the list of the
-- key; the new handler has the payload and all other payloads stay.
pub key_append-Represents :
    (t : HandlerTable) (ids : ℕ → List ℕ) (k payload : ℕ)
    → Represents t ids
    → Represents
        (key_append k payload t).1
        (update k (ids k ++ (key_append k payload t).0 ∷ []) ids)
      × Adds t payload (key_append k payload t)
unfolding key_append
key_append-Represents t ids k payload r = (
  append_at_lem t ids k payload (t.keys k).last r (sym (r.last k)),
  append_at-Adds t k payload (t.keys k).last r.pool,
)

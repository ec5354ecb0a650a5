-- ===== src/HandlerTable/Prepend.antt =====
-- handler-table.c: `fcitx_handler_key_prepend` puts the new handler at the front of its key's list.
use fcitx_ng.Prelude.{ℕ, ◌≡◌, sym, Option, none, some, List, [], ◌∷◌, arith}
use fcitx_ng.ObjPool.{alloc_id}
use fcitx_ng.ObjPool.Chain.{IsValid}
use fcitx_ng.ObjPool.Alloc.{alloc_id-Allocates}
use fcitx_ng.HandlerTable.{HandlerTable, update, prepend_at, key_prepend}
use fcitx_ng.HandlerTable.Links.{
  head?, last?, next_in, prev_from, distinct, Represents, head?-none, head?-elem, last?-cons,
  prev_from-head,
}
use fcitx_ng.HandlerTable.Append.{new_id-elem, Adds}

prepend_at_head :
    (t : HandlerTable) (ids : ℕ → List ℕ) (k payload z : ℕ)
    → Represents t ids
    → head? (ids k) ≡ some z
    → Represents
        (prepend_at (some z) (alloc_id t.objs).0 k payload t)
        (update k ((alloc_id t.objs).0 ∷ ids k) ids)
unfolding prepend_at head? next_in prev_from distinct
prepend_at_head t ids k payload z r e =
    let new_id = (alloc_id t.objs).0 in
    let a = alloc_id-Allocates t.objs r.pool in
    let apart = new_id-elem t ids k r in
    let there = head?-elem (ids k) z e in
    record {
      pool = a.valid;
      members = λ h i. ground (arith, r.members h i, a.taken, a.others i);
      once = λ h. ground (arith, r.once h);
      first = λ h. ground (arith, r.first h);
      last = λ h. ground (arith, r.last h, last?-cons new_id z (ids k) e);
      next =
          λ h i m. ground (arith, r.next h i, r.members h i, r.members k z, new_id-elem t ids h r);
      prev = λ h i m. ground (
        arith,
        r.prev h i,
        r.members h i,
        r.members k z,
        new_id-elem t ids h r,
        prev_from-head (some new_id) none i z (ids k) e,
      );
    }

prepend_at_first :
    (t : HandlerTable) (ids : ℕ → List ℕ) (k payload : ℕ)
    → Represents t ids
    → ids k ≡ []
    → Represents
        (prepend_at none (alloc_id t.objs).0 k payload t)
        (update k ((alloc_id t.objs).0 ∷ []) ids)
unfolding prepend_at head? last? next_in prev_from distinct
prepend_at_first t ids k payload r e =
    let new_id = (alloc_id t.objs).0 in
    let a = alloc_id-Allocates t.objs r.pool in
    record {
      pool = a.valid;
      members = λ h i. ground (arith, r.members h i, e, a.taken, a.others i);
      once = λ h. ground (arith, r.once h);
      first = λ h. ground (arith, r.first h);
      last = λ h. ground (arith, r.last h);
      next = λ h i m. ground (arith, r.next h i, r.members h i, new_id-elem t ids h r);
      prev = λ h i m. ground (arith, r.prev h i, r.members h i, new_id-elem t ids h r);
    }

prepend_at_lem :
    (t : HandlerTable) (ids : ℕ → List ℕ) (k payload : ℕ) (first : Option ℕ)
    → Represents t ids
    → head? (ids k) ≡ first
    → Represents
        (prepend_at first (alloc_id t.objs).0 k payload t)
        (update k ((alloc_id t.objs).0 ∷ ids k) ids)
prepend_at_lem t ids k payload none r e =
    let empty = head?-none (ids k) e in rw empty (prepend_at_first t ids k payload r empty)
prepend_at_lem t ids k payload (some z) r e = prepend_at_head t ids k payload z r e

prepend_at-Adds :
    (t : HandlerTable) (k payload : ℕ) (first : Option ℕ)
    → IsValid t.objs
    → Adds t payload ((alloc_id t.objs).0, prepend_at first (alloc_id t.objs).0 k payload t)
unfolding prepend_at
prepend_at-Adds t k payload none v = record {
  fresh = (alloc_id-Allocates t.objs v).fresh;
  stored = ground arith;
  kept = λ i h. ground arith;
}
prepend_at-Adds t k payload (some z) v = record {
  fresh = (alloc_id-Allocates t.objs v).fresh;
  stored = ground arith;
  kept = λ i h. ground arith;
}

-- In a table that represents a list of ids for each key, prepending for a key gives an id that was
-- not allocated, and a table that represents the lists with that id at the front of the list of
-- the key; the new handler has the payload and all other payloads stay.
pub key_prepend-Represents :
    (t : HandlerTable) (ids : ℕ → List ℕ) (k payload : ℕ)
    → Represents t ids
    → Represents (key_prepend k payload t).1 (update k ((key_prepend k payload t).0 ∷ ids k) ids)
      × Adds t payload (key_prepend k payload t)
unfolding key_prepend
key_prepend-Represents t ids k payload r = (
  prepend_at_lem t ids k payload (t.keys k).first r (sym (r.first k)),
  prepend_at-Adds t k payload (t.keys k).first r.pool,
)

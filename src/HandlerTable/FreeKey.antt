-- ===== src/HandlerTable/FreeKey.antt =====
-- handler-table.c: the loop of `fcitx_handler_table_free_key` over the handlers of a key.
use fcitx_ng.Prelude.{
  elem, ℕ, zero, suc, ◌<◌, ◌≡◌, refl, ap, Bool, true, not, ◌&&◌, some, List, [], ◌∷◌, if◌then◌else◌,
  arith, length,
}
use fcitx_ng.ObjPool.{alloced}
use fcitx_ng.ObjPool.Chain.{IsValid}
use fcitx_ng.ObjPool.Alloc.{free_element-Frees}
use fcitx_ng.HandlerTable.{
  HandlerTable, HandlerObj, HandlerKey, update, release, free_loop, reset_key,
}
use fcitx_ng.HandlerTable.Links.{head?, last?, next_in, distinct, Represents}

-- The calls of `free_func` for the handlers of the list, the last one first.
unfoldable pub freed_of : Bool → (ℕ → HandlerObj) → List ℕ → List ℕ → List ℕ
freed_of free_func obj [] log = log
freed_of free_func obj (i ∷ l) log =
    freed_of free_func obj l (if free_func then (obj i).payload ∷ log else log)

-- Only the pool and the calls change: the list's ids are given back, and no other.
record Freed (t : HandlerTable) (l : List ℕ) (u : HandlerTable) : Type 0 where
  pool : IsValid u.objs
  alive : (j : ℕ) → alloced u.objs j ≡ (alloced t.objs j && not (elem j l))
  links : u.obj ≡ t.obj
  keys : u.keys ≡ t.keys
  calls : u.freed ≡ freed_of t.free_func t.obj l t.freed

free_loop-Freed :
    (fuel : ℕ) (l : List ℕ) (t : HandlerTable)
    → length l < fuel
    → distinct l ≡ true
    → IsValid t.objs
    → ((i : ℕ) → elem i l ≡ true → (t.obj i).next ≡ next_in i l)
    → (u : HandlerTable) × ((free_loop fuel (head? l) t ≡ some u) × Freed t l u)
unfolding free_loop head? release distinct next_in freed_of
free_loop-Freed zero l t h d v n = absurd (omega arith)
free_loop-Freed (suc fuel) [] t h d v n = (
  t,
  (refl, record { pool = v; alive = λ j. ground arith; links = refl; keys = refl; calls = refl }),
)
free_loop-Freed (suc fuel) (i ∷ l) t h d v n =
    let f = free_element-Frees t.objs i v in
    let rest =
      free_loop-Freed fuel l (release i t) (omega arith) (ground arith) f.valid
        (λ j m. ground (arith, n j)) in
    let first : (t.obj i).next ≡ head? l = ground (arith, n i) in
    let w = rest.1.1 in
    (
      rest.0,
      (
        rw first rest.1.0,
        record {
          pool = w.pool;
          alive = λ j. ground (arith, w.alive j, f.freed, f.others j);
          links = w.links;
          keys = w.keys;
          calls = w.calls;
        },
      ),
    )

-- In a table that represents a list of ids for each key, the loop that frees a key ends after as
-- many rounds as the list is long; it calls free_func, if there is one, on the payloads in the
-- order of the list, and once the key is made anew the table represents the lists with an empty
-- one for the key.
pub free_loop-Represents :
    (t : HandlerTable) (ids : ℕ → List ℕ) (k fuel : ℕ)
    → Represents t ids
    → length (ids k) < fuel
    → (u : HandlerTable) × ((free_loop fuel (t.keys k).first t ≡ some u)
        × (Represents (reset_key k u) (update k [] ids)
            × (u.freed ≡ freed_of t.free_func t.obj (ids k) t.freed)))
free_loop-Represents t ids k fuel r h =
    let found = free_loop-Freed fuel (ids k) t h (r.once k) r.pool (r.next k) in
    let w = found.1.1 in (found.0, (rw (r.first k) found.1.0, (rest found.0 w, w.calls)))
  where
    rest : (u : HandlerTable) → Freed t (ids k) u → Represents (reset_key k u) (update k [] ids)
    rest u w =
        unfold reset_key head? last? distinct in
        record {
          pool = w.pool;
          members = λ h i. ground (arith, w.alive i, r.members h i, r.members k i, same_obj i);
          once = λ h. ground (arith, r.once h);
          first = λ h. ground (arith, r.first h, same_key h);
          last = λ h. ground (arith, r.last h, same_key h);
          next = λ h i m. ground (arith, r.next h i, same_obj i);
          prev = λ h i m. ground (arith, r.prev h i, same_obj i);
        }
      where
        same_obj : (i : ℕ) → u.obj i ≡ t.obj i
        same_obj i = ap (λ (f : ℕ → HandlerObj). f i) w.links

        same_key : (i : ℕ) → u.keys i ≡ t.keys i
        same_key i = ap (λ (f : ℕ → HandlerKey). f i) w.keys

-- ===== src/HandlerTable/Visit.antt =====
-- handler-table.c: what loops over the handlers of a key see, forward and backward.
use fcitx_ng.Prelude.{
  elem, ℕ, zero, suc, ◌<◌, ◌≡◌, ◌↔◌, refl, true, Option, none, some, List, [], ◌∷◌, arith, length,
}
use mathlib.Core.Option.{map}
use fcitx_ng.HandlerTable.{HandlerTable, HandlerKey, key_is_empty, key_first_id, next_id}
use fcitx_ng.HandlerTable.Links.{head?, last?, next_in, distinct, Represents}

-- `for (id = start; id != FCITX_OBJECT_POOL_INVALID_ID; id = step(id))`: the ids that are visited.
unfoldable pub visits : (ℕ → Option ℕ) → ℕ → Option ℕ → Option (List ℕ)
visits step zero id = none
visits step (suc fuel) none = some []
visits step (suc fuel) (some id) = map (λ (l : List ℕ). id ∷ l) (visits step fuel (step id))

visits-next_in :
    (step : ℕ → Option ℕ) (fuel : ℕ) (l : List ℕ)
    → length l < fuel
    → distinct l ≡ true
    → ((i : ℕ) → elem i l ≡ true → step i ≡ next_in i l)
    → visits step fuel (head? l) ≡ some l
unfolding visits head? distinct next_in
visits-next_in step zero l h d s = absurd (omega arith)
visits-next_in step (suc fuel) [] h d s = refl
visits-next_in step (suc fuel) (j ∷ l) h d s =
    let first : step j ≡ head? l = ground (arith, s j) in
    let rest =
      visits-next_in step fuel l (omega arith) (ground arith) (λ i m. ground (arith, s i)) in
    rw first (rw rest refl)

-- In a table that represents a list of ids for each key, a loop from the first id of a key along
-- the next ids ends and visits the list in its order.
pub visits-next_id :
    (t : HandlerTable) (ids : ℕ → List ℕ) (k fuel : ℕ)
    → Represents t ids
    → length (ids k) < fuel
    → visits (next_id t) fuel (key_first_id t (some k)) ≡ some (ids k)
unfolding next_id key_first_id
visits-next_id t ids k fuel r h =
    rw (r.first k) (visits-next_in (next_id t) fuel (ids k) h (r.once k) (r.next k))

is_empty_iff :
    (s : HandlerKey) (l : List ℕ)
    → s.first ≡ head? l
    → s.last ≡ last? l
    → (key_is_empty s ≡ true) ↔ (l ≡ [])
unfolding key_is_empty head? last?
is_empty_iff s [] f e = ground arith
is_empty_iff s (j ∷ l) f e = ground arith

-- In a table that represents a list of ids for each key, the test is true exactly if the list of
-- the key is empty.
pub key_is_empty_iff :
    (t : HandlerTable) (ids : ℕ → List ℕ) (k : ℕ)
    → Represents t ids
    → (key_is_empty (t.keys k) ≡ true) ↔ (ids k ≡ [])
key_is_empty_iff t ids k r = is_empty_iff (t.keys k) (ids k) (r.first k) (r.last k)

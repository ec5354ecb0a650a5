-- ===== src/HandlerTable/Remove.antt =====
-- handler-table.c: `fcitx_handler_table_remove_by_id` takes a handler out of its key's list.
use fcitx_ng.Prelude.{
  elem, ℕ, ◌≡◌, refl, sym, ◌∙◌, subst, true, Option, none, some, List, ◌∷◌, ==_iff, if◌then◌else◌,
  arith,
}
use fcitx_ng.ObjPool.Alloc.{free_element-Frees}
use fcitx_ng.HandlerTable.{
  HandlerTable, update, unlink_next, unlink_prev, release, remove_at, remove_by_id,
}
use fcitx_ng.HandlerTable.Links.{last?, next_in, prev_from, distinct, Represents}
use fcitx_ng.HandlerTable.Without.{
  without, elem-without, distinct-without, prev_from-none, head?-without_first, head?-without,
  last_from-last?, last_from-without_last, last_from-without, next_in-without_first,
  next_in-without, prev_from-without_last, prev_from-without, next_in-elem,
}

last?-without_last :
    (i : ℕ) (l : List ℕ)
    → distinct l ≡ true
    → elem i l ≡ true
    → next_in i l ≡ none
    → last? (without i l) ≡ prev_from none i l
last?-without_last i l d h e =
    sym (last_from-last? (without i l)) ∙ last_from-without_last none i l d h e

last?-without :
    (i q : ℕ) (l : List ℕ) → elem i l ≡ true → next_in i l ≡ some q → last? (without i l) ≡ last? l
last?-without i q l h e =
    sym (last_from-last? (without i l)) ∙ last_from-without none i q l h e ∙ last_from-last? l

-- The state with the links of `remove_by_id`, for each of the four ways in which a handler can stand.
relinked :
    (prev next : Option ℕ) (i k : ℕ) (t : HandlerTable) (ids : ℕ → List ℕ)
    → Represents t ids
    → elem i (ids k) ≡ true
    → prev_from none i (ids k) ≡ prev
    → next_in i (ids k) ≡ next
    → Represents
        (release i (unlink_prev next k prev (unlink_next prev k next t)))
        (update k (without i (ids k)) ids)
unfolding release unlink_prev unlink_next
relinked none none i k t ids r m p n =
    let f = free_element-Frees t.objs i r.pool in
    record {
      pool = f.valid;
      members = λ h j. ground (
        arith,
        r.members h j,
        r.members k i,
        elem-without i j (ids k) (r.once k),
        f.freed,
        f.others j,
      );
      once = λ h. ground (arith, r.once h, distinct-without i (ids k));
      first = λ h. ground (arith, r.first h, head?-without_first i (ids k) m p);
      last = λ h. ground (arith, r.last h, last?-without_last i (ids k) (r.once k) m n);
      next = λ h j w. ground (
        arith,
        r.next h j,
        elem-without i j (ids k) (r.once k),
        next_in-without_first i j (ids k) (r.once k) m,
      );
      prev = λ h j w. ground (
        arith,
        r.prev h j,
        elem-without i j (ids k) (r.once k),
        prev_from-without_last none i j (ids k) (r.once k) m,
      );
    }
relinked none (some next) i k t ids r m p n =
    let f = free_element-Frees t.objs i r.pool in
    let behind = next_in-elem i next (ids k) n in
    record {
      pool = f.valid;
      members = λ h j. ground (
        arith,
        r.members h j,
        r.members k i,
        elem-without i j (ids k) (r.once k),
        f.freed,
        f.others j,
      );
      once = λ h. ground (arith, r.once h, distinct-without i (ids k));
      first = λ h. ground (arith, r.first h, head?-without_first i (ids k) m p);
      last = λ h. ground (arith, r.last h, last?-without i next (ids k) m n);
      next = λ h j w. ground (
        arith,
        r.next h j,
        elem-without i j (ids k) (r.once k),
        next_in-without_first i j (ids k) (r.once k) m,
      );
      prev = λ h j w. ground (
        arith,
        r.prev h j,
        r.members h j,
        r.members k next,
        elem-without i j (ids k) (r.once k),
        prev_from-without none i j next (ids k) (r.once k) m,
      );
    }
relinked (some prev) none i k t ids r m p n =
    let f = free_element-Frees t.objs i r.pool in
    let before = prev_from-none i prev (ids k) p in
    record {
      pool = f.valid;
      members = λ h j. ground (
        arith,
        r.members h j,
        r.members k i,
        elem-without i j (ids k) (r.once k),
        f.freed,
        f.others j,
      );
      once = λ h. ground (arith, r.once h, distinct-without i (ids k));
      first = λ h. ground (arith, r.first h, head?-without i prev (ids k) m p);
      last = λ h. ground (arith, r.last h, last?-without_last i (ids k) (r.once k) m n);
      next = λ h j w. ground (
        arith,
        r.next h j,
        r.members h j,
        r.members k prev,
        elem-without i j (ids k) (r.once k),
        next_in-without i j prev (ids k) (r.once k) m,
      );
      prev = λ h j w. ground (
        arith,
        r.prev h j,
        elem-without i j (ids k) (r.once k),
        prev_from-without_last none i j (ids k) (r.once k) m,
      );
    }
relinked (some prev) (some next) i k t ids r m p n =
    let f = free_element-Frees t.objs i r.pool in
    let before = prev_from-none i prev (ids k) p in
    let behind = next_in-elem i next (ids k) n in
    record {
      pool = f.valid;
      members = λ h j. ground (
        arith,
        r.members h j,
        r.members k i,
        elem-without i j (ids k) (r.once k),
        f.freed,
        f.others j,
      );
      once = λ h. ground (arith, r.once h, distinct-without i (ids k));
      first = λ h. ground (arith, r.first h, head?-without i prev (ids k) m p);
      last = λ h. ground (arith, r.last h, last?-without i next (ids k) m n);
      next = λ h j w. ground (
        arith,
        r.next h j,
        r.members h j,
        r.members k prev,
        elem-without i j (ids k) (r.once k),
        next_in-without i j prev (ids k) (r.once k) m,
      );
      prev = λ h j w. ground (
        arith,
        r.prev h j,
        r.members h j,
        r.members k next,
        elem-without i j (ids k) (r.once k),
        prev_from-without none i j next (ids k) (r.once k) m,
      );
    }

remove_at-freed :
    (i : ℕ) (t : HandlerTable)
    → (remove_at i t).freed ≡ (if t.free_func then (t.obj i).payload ∷ t.freed else t.freed)
unfolding remove_at release
remove_at-freed i t = both (t.obj i).prev (t.obj i).next
  where
    both :
        (prev next : Option ℕ)
        → (release i
            (unlink_prev next (t.obj i).key prev (unlink_next prev (t.obj i).key next t))).freed
          ≡ (if t.free_func then (t.obj i).payload ∷ t.freed else t.freed)
    both none none = unfold unlink_prev unlink_next in refl
    both none (some next) = unfold unlink_prev unlink_next in ground arith
    both (some prev) none = unfold unlink_prev unlink_next in ground arith
    both (some prev) (some next) = unfold unlink_prev unlink_next in ground arith

-- In a table that represents a list of ids for each key, removing an id of a key leaves a table
-- that represents the lists without that id, and calls free_func, if there is one, once, on the
-- payload of the handler.
pub remove_by_id-Represents :
    (t : HandlerTable) (ids : ℕ → List ℕ) (k i : ℕ)
    → Represents t ids
    → elem i (ids k) ≡ true
    → Represents (remove_by_id (some i) t) (update k (without i (ids k)) ids)
      × ((remove_by_id (some i) t).freed
          ≡ (if t.free_func then (t.obj i).payload ∷ t.freed else t.freed))
unfolding remove_by_id
remove_by_id-Represents t ids k i r m =
    let owner : k ≡ (t.obj i).key =
      sym ((==_iff (t.obj i).key k).0 (ground (arith, r.members k i))) in
    let o = t.obj i in
    let done = relinked o.prev o.next i k t ids r m (sym (r.prev k i m)) (sym (r.next k i m)) in
    (
      unfold remove_at in
          subst
            (λ (x : ℕ).
              Represents (release i (unlink_prev o.next x o.prev (unlink_next o.prev x o.next t)))
                (update k (without i (ids k)) ids))
            owner done,
      remove_at-freed i t,
    )

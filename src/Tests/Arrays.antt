-- ===== src/Tests/Arrays.antt =====
-- array.c on concrete arrays: runs, and the theorems at arrays that meet their hypotheses.
use fcitx_ng.Prelude.{◌≡◌, refl, true, false, none, some, [], ◌∷◌, arith}
use fcitx_ng.PtrArray.{
  PtrArray, insert, place, shift_up, grow, grow_size, with_size, remove, shift_down,
}
use fcitx_ng.PtrArray.Items.{Inserts, IsGrowing, insert-Inserts}

-- Two elements, and no room for a third.
abbrev pair : PtrArray
pair = record {
  memory = 10 ∷ 20 ∷ [];
  len = 2;
  size_grow_func = none;
  free_func = true;
  destroy_notify2 = false;
  destroyed = [];
}

insert_grows : insert 4 pair 15 1 ≡ some (record pair { memory = 10 ∷ 15 ∷ 20 ∷ 0 ∷ []; len = 3 })
unfolding insert place shift_up grow grow_size with_size
insert_grows = refl

remove_shifts : (remove pair 0 true).0 ≡ record pair { memory = 20 ∷ 20 ∷ []; len = 1 }
unfolding remove shift_down
remove_shifts = refl

doubling : IsGrowing pair.size_grow_func
unfolding IsGrowing
doubling size = ground arith

insert-Inserts_example : (b : PtrArray) × ((insert 4 pair 15 1 ≡ some b) × Inserts pair 15 1 b)
insert-Inserts_example =
    insert-Inserts 4 pair 15 1 doubling (omega arith) (omega arith) (omega arith)

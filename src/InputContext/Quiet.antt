-- ===== src/InputContext/Quiet.antt =====
-- inputcontext.c: the operations that dispatch an event and leave the focus and the groups.
use fcitx_ng.Prelude.{ℕ, ◌≡◌, refl, arith, Bool-cases, inl, inr}
use fcitx_ng.InputContext.{Manager, Rect, reset, set_capability_flags, set_cursor_rect, same_rect}
use fcitx_ng.InputContext.Events.{seen}

-- The second manager has the same groups and focus as the first, and an observer sees the same.
pub record Quiet (m n : Manager) : Type 0 where
  pub owner : (i : ℕ) → (n.ic i).group ≡ (m.ic i).group
  pub same : (i : ℕ) → (n.ic i).focused ≡ (m.ic i).focused
  pub focus : (g : ℕ) → (n.group g).focus ≡ (m.group g).focus
  pub members : (g : ℕ) → (n.group g).input_contexts ≡ (m.group g).input_contexts
  pub groups : n.groups ≡ m.groups
  pub global : n.global_group ≡ m.global_group
  pub callback : n.callback ≡ m.callback
  pub told : (i : ℕ) → seen i n.dispatched ≡ seen i m.dispatched

pub reset-Quiet : (i : ℕ) (m : Manager) → Quiet m (reset i m)
unfolding reset
reset-Quiet i m = record {
  owner = λ j. ground arith;
  same = λ j. ground arith;
  focus = λ g. ground arith;
  members = λ g. ground arith;
  groups = ground arith;
  global = ground arith;
  callback = ground arith;
  told = λ j. ground arith;
}

pub set_capability_flags-Quiet :
    (i flags : ℕ) (m : Manager) → Quiet m (set_capability_flags i flags m)
unfolding set_capability_flags
set_capability_flags-Quiet i flags m = record {
  owner = λ j. ground arith;
  same = λ j. ground arith;
  focus = λ g. ground arith;
  members = λ g. ground arith;
  groups = ground arith;
  global = ground arith;
  callback = ground arith;
  told = λ j. ground arith;
}

pub set_cursor_rect-Quiet : (i : ℕ) (rect : Rect) (m : Manager) → Quiet m (set_cursor_rect i rect m)
unfolding set_cursor_rect
set_cursor_rect-Quiet i rect m = elim (Bool-cases (same_rect (m.ic i).rect rect)) [
  | inl e ↦ rw e (record {
    owner = λ j. refl;
    same = λ j. refl;
    focus = λ g. refl;
    members = λ g. refl;
    groups = refl;
    global = refl;
    callback = refl;
    told = λ j. refl;
  })
  | inr e ↦ rw e (record {
    owner = λ j. ground arith;
    same = λ j. ground arith;
    focus = λ g. ground arith;
    members = λ g. ground arith;
    groups = ground arith;
    global = ground arith;
    callback = ground arith;
    told = λ j. ground arith;
  })
]

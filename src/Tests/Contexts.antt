-- ===== src/Tests/Contexts.antt =====
-- inputcontext.c on a manager with a global group 0 and local groups 1 and 2.
use fcitx_ng.Prelude.{ℕ, ◌≡◌, ◌||◌, refl, true, false, none, some, [], ◌∷◌, ◌==◌, if◌then◌else◌}
use fcitx_ng.InputContext.{
  Manager, focused_in, focused_out, global, local, is_ptr, focus_in, set_focus_group,
  set_focus_group_type, focus_group_new, focus_group_free, list_remove, focus_in_at,
  group_set_focus, unfocus_groups, move, leave, enter,
}
use fcitx_ng.InputContext.Focus.{IsConsistent, focus_in-focused}
use fcitx_ng.InputContext.Group.{set_focus_group-group}
use fcitx_ng.InputContext.Free.{focus_group_free-IsConsistent}
use fcitx_ng.InputContext.Reach.{
  Reach, here, next, focus, assign, make_group, IsInitial, IsSafe, Reach-IsSafe,
}

abbrev start : Manager
start = record {
  ic = λ i. record {
    id = i;
    flags = 0;
    group = none;
    focused = false;
    rect = record { x1 = 0; y1 = 0; x2 = 0; y2 = 0 };
  };
  group = λ g. record { input_contexts = []; focus = none };
  groups = [];
  global_group = 0;
  callback = true;
  dispatched = [];
}

start-IsInitial : IsInitial start
start-IsInitial = record {
  connected = refl;
  silent = refl;
  ungrouped = λ i. refl;
  unfocused = λ i. refl;
  empty = λ g. (refl, refl);
}

abbrev m₁ : Manager
m₁ = focus_group_new 1 start

-- Context 7 in the local group 1, context 8 in the global one; then each gets the focus.
abbrev m₂ : Manager
m₂ = set_focus_group_type 8 global none (set_focus_group_type 7 local (some 1) m₁)

abbrev m₃ : Manager
m₃ = focus_in 8 (focus_in 7 m₂)

run :
    (m₃.dispatched ≡ focused_in 8 ∷ focused_out 7 ∷ focused_in 7 ∷ []) × ((m₃.ic 7).focused ≡ false)
unfolding focus_group_new set_focus_group_type set_focus_group focus_in focus_in_at group_set_focus
    unfocus_groups move leave enter
run = (refl, refl)

reach : Reach start m₂
unfolding focus_group_new set_focus_group_type set_focus_group move leave enter
reach =
    next (next (next here (make_group 1 start refl)) (assign 7 local (some 1) m₁ refl))
      (assign 8 global none (set_focus_group_type 7 local (some 1) m₁) tt)

Reach-IsSafe_example : IsSafe m₃
Reach-IsSafe_example =
    Reach-IsSafe start m₃ start-IsInitial (next (next reach (focus 7 m₂)) (focus 8 (focus_in 7 m₂)))

m₂-IsSafe : IsSafe m₂
m₂-IsSafe = Reach-IsSafe start m₂ start-IsInitial reach

placed : ((m₂.ic 7).group ≡ some 1) × ((m₂.ic 8).group ≡ some 0)
unfolding focus_group_new set_focus_group_type set_focus_group move leave enter
placed = (refl, refl)

groups_known : (1 == m₂.global_group) ≡ false
unfolding focus_group_new set_focus_group_type set_focus_group move leave enter
groups_known = refl

focus_in-focused_example : ((focus_in 8 m₂).ic 7).focused ≡ (
    if 7 == 8
    then true
    else if 1 == 0 || 1 == m₂.global_group || 0 == m₂.global_group
    then false
    else (m₂.ic 7).focused)
focus_in-focused_example = focus_in-focused 8 0 m₂ m₂-IsSafe.consistent placed.1 7 1 placed.0

set_focus_group-group_example :
    (((set_focus_group 8 none m₂).ic 8).group ≡ none)
    × (((set_focus_group 8 none m₂).ic 8).focused ≡ (m₂.ic 8).focused)
set_focus_group-group_example = set_focus_group-group 8 none m₂ m₂-IsSafe.consistent tt

focus_group_free-IsConsistent_example :
    IsConsistent (focus_group_free 1 m₂)
    × ((j : ℕ)
        → (((focus_group_free 1 m₂).ic j).group
            ≡ (if is_ptr (m₂.ic j).group 1 then none else (m₂.ic j).group))
          × (((focus_group_free 1 m₂).ic j).focused ≡ (m₂.ic j).focused))
    × ((focus_group_free 1 m₂).groups ≡ list_remove 1 m₂.groups)
focus_group_free-IsConsistent_example =
    focus_group_free-IsConsistent 1 m₂ m₂-IsSafe.consistent m₂-IsSafe.lists groups_known

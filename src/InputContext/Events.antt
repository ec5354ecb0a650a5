-- ===== src/InputContext/Events.antt =====
-- What an observer of the dispatched events knows of the focus.
use fcitx_ng.Prelude.{
  ℕ, ◌≡◌, inl, inr, refl, sym, ◌∙◌, Bool, true, false, Option, none, some, List, [], ◌∷◌, ◌==◌,
  arith, if◌then◌else◌, Bool-cases,
}
use fcitx_ng.InputContext.Group.{move_same}
use fcitx_ng.InputContext.{
  Event, focused_in, focused_out, Manager, is_ptr, list_remove, same_ptr, leave, enter, move,
  raw_focus_in, raw_focus_out, group_set_focus, unfocus_groups, focus_in, focus_in_at, focus_out,
  focus_out_at, set_focus_group, dismiss, focus_group_free,
}

-- The focus of a context by its last event, the newest event first.
abbrev pub seen : ℕ → List Event → Bool
seen i [] = false
seen i (focused_in j ∷ es) = if i == j then true else seen i es
seen i (focused_out j ∷ es) = if i == j then false else seen i es
seen i (e ∷ es) = seen i es

pub record Observed (m : Manager) : Type 0 where
  pub connected : m.callback ≡ true
  pub tells : (i : ℕ) → seen i m.dispatched ≡ (m.ic i).focused

raw_focus_in-Observed : (i : ℕ) (m : Manager) → Observed m → Observed (raw_focus_in i m)
unfolding raw_focus_in
raw_focus_in-Observed i m o = record {
  connected = ground (arith, o.connected);
  tells = λ j. ground (arith, o.connected, o.tells j);
}

raw_focus_out-Observed : (i : ℕ) (m : Manager) → Observed m → Observed (raw_focus_out i m)
unfolding raw_focus_out
raw_focus_out-Observed i m o = record {
  connected = ground (arith, o.connected);
  tells = λ j. ground (arith, o.connected, o.tells j);
}

group_set_focus-Observed :
    (g : ℕ) (f : Option ℕ) (m : Manager) → Observed m → Observed (group_set_focus g f m)
unfolding group_set_focus
group_set_focus-Observed g none m o = record {
  connected = ground (arith, o.connected);
  tells = λ j. ground (arith, o.connected, o.tells j);
}
group_set_focus-Observed g (some i) m o = record {
  connected = ground (arith, o.connected);
  tells = λ j. ground (arith, o.connected, o.tells j);
}

unfocus-Observed : (gs : List ℕ) (m : Manager) → Observed m → Observed (unfocus_groups gs m)
unfolding unfocus_groups
unfocus-Observed [] m o = o
unfocus-Observed (g ∷ gs) m o =
    unfocus-Observed gs (group_set_focus g none m) (group_set_focus-Observed g none m o)

focus_in_at-Observed :
    (f : Option ℕ) (i : ℕ) (m : Manager) → Observed m → Observed (focus_in_at f i m)
unfolding focus_in_at
focus_in_at-Observed none i m o = elim (Bool-cases (m.ic i).focused) [
  | inl e ↦ rw e o
  | inr e ↦ rw e (raw_focus_in-Observed i m o)
]
focus_in_at-Observed (some g) i m o = elim (Bool-cases (g == m.global_group)) [
  | inl e ↦
      rw e (group_set_focus-Observed m.global_group (some i) _ (unfocus-Observed m.groups m o))
  | inr e ↦
      rw e
        (group_set_focus-Observed g (some i) _ (group_set_focus-Observed m.global_group none m o))
]

pub focus_in-Observed : (i : ℕ) (m : Manager) → Observed m → Observed (focus_in i m)
unfolding focus_in
focus_in-Observed i m = focus_in_at-Observed (m.ic i).group i m

focus_out_at-Observed :
    (f : Option ℕ) (i : ℕ) (m : Manager) → Observed m → Observed (focus_out_at f i m)
unfolding focus_out_at
focus_out_at-Observed none i m o = elim (Bool-cases (m.ic i).focused) [
  | inl e ↦ rw e (raw_focus_out-Observed i m o)
  | inr e ↦ rw e o
]
focus_out_at-Observed (some g) i m o = elim (Bool-cases (is_ptr (m.group g).focus i)) [
  | inl e ↦ rw e (group_set_focus-Observed g none m o)
  | inr e ↦ rw e o
]

pub focus_out-Observed : (i : ℕ) (m : Manager) → Observed m → Observed (focus_out i m)
unfolding focus_out
focus_out-Observed i m = focus_out_at-Observed (m.ic i).group i m

leave_quiet :
    (f : Option ℕ) (i : ℕ) (m : Manager)
    → ((leave f i m).dispatched ≡ m.dispatched) × ((leave f i m).callback ≡ m.callback)
unfolding leave
leave_quiet none i m = (refl, refl)
leave_quiet (some g) i m = (refl, refl)

enter_quiet :
    (f : Option ℕ) (i : ℕ) (m : Manager)
    → ((enter f i m).dispatched ≡ m.dispatched) × ((enter f i m).callback ≡ m.callback)
unfolding enter
enter_quiet none i m = (refl, refl)
enter_quiet (some g) i m = (refl, refl)

move_quiet :
    (i : ℕ) (g : Option ℕ) (m : Manager)
    → ((move i g m).dispatched ≡ m.dispatched) × ((move i g m).callback ≡ m.callback)
unfolding move
move_quiet i g m =
    ground (arith, leave_quiet (m.ic i).group i m, enter_quiet g i (leave (m.ic i).group i m))

move-Observed : (i : ℕ) (g : Option ℕ) (m : Manager) → Observed m → Observed (move i g m)
move-Observed i g m o = record {
  connected = (move_quiet i g m).1 ∙ o.connected;
  tells = λ j. rw (move_quiet i g m).0 (o.tells j ∙ sym (move_same i g m j j).1);
}

pub set_focus_group-Observed :
    (i : ℕ) (g : Option ℕ) (m : Manager) → Observed m → Observed (set_focus_group i g m)
unfolding set_focus_group
set_focus_group-Observed i g m o = elim (Bool-cases (same_ptr (m.ic i).group g)) [
  | inl e ↦ rw e o
  | inr e ↦ elim (Bool-cases (m.ic i).focused) [
    | inl f ↦ rw (e, f) (focus_in-Observed i _ (move-Observed i g _ (focus_out-Observed i m o)))
    | inr f ↦ rw (e, f) (move-Observed i g m o)
  ]
]

dismiss-Observed : (is : List ℕ) (m : Manager) → Observed m → Observed (dismiss is m)
unfolding dismiss
dismiss-Observed [] m o = o
dismiss-Observed (i ∷ is) m o =
    dismiss-Observed is (set_focus_group i none m) (set_focus_group-Observed i none m o)

pub focus_group_free-Observed : (g : ℕ) (m : Manager) → Observed m → Observed (focus_group_free g m)
unfolding focus_group_free
focus_group_free-Observed g m o = elim (Bool-cases (g == m.global_group)) [
  | inl e ↦ rw e (dismiss-Observed (m.group g).input_contexts m o)
  | inr e ↦ rw e (
      dismiss-Observed (m.group g).input_contexts (record m { groups = list_remove g m.groups })
        (record { connected = o.connected; tells = o.tells }))
]

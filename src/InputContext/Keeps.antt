-- ===== src/InputContext/Keeps.antt =====
-- What the focus operations leave alone.
use fcitx_ng.Prelude.{
  ℕ, ◌≡◌, inl, inr, refl, ◌∙◌, Option, none, some, List, [], ◌∷◌, ◌==◌, arith, Bool-cases,
}
use fcitx_ng.InputContext.{
  Manager, is_ptr, group_set_focus, raw_focus_in, raw_focus_out, unfocus_groups, focus_in,
  focus_in_at, focus_out, focus_out_at,
}

-- What no focus operation changes: which groups there are, and who is in them.
pub record Keeps (m n : Manager) : Type 0 where
  pub global_group : n.global_group ≡ m.global_group
  pub groups : n.groups ≡ m.groups
  pub owner : (i : ℕ) → (n.ic i).group ≡ (m.ic i).group
  pub members : (g : ℕ) → (n.group g).input_contexts ≡ (m.group g).input_contexts

pub Keeps-refl : (m : Manager) → Keeps m m
Keeps-refl m = record { global_group = refl; groups = refl; owner = λ i. refl; members = λ g. refl }

pub Keeps-trans : {l m n : Manager} → Keeps l m → Keeps m n → Keeps l n
Keeps-trans a b = record {
  global_group = b.global_group ∙ a.global_group;
  groups = b.groups ∙ a.groups;
  owner = λ i. b.owner i ∙ a.owner i;
  members = λ g. b.members g ∙ a.members g;
}

raw_focus_in-Keeps : (i : ℕ) (m : Manager) → Keeps m (raw_focus_in i m)
unfolding raw_focus_in
raw_focus_in-Keeps i m = record {
  global_group = ground arith;
  groups = ground arith;
  owner = λ j. ground arith;
  members = λ g. ground arith;
}

raw_focus_out-Keeps : (i : ℕ) (m : Manager) → Keeps m (raw_focus_out i m)
unfolding raw_focus_out
raw_focus_out-Keeps i m = record {
  global_group = ground arith;
  groups = ground arith;
  owner = λ j. ground arith;
  members = λ g. ground arith;
}

pub group_set_focus-Keeps : (g : ℕ) (f : Option ℕ) (m : Manager) → Keeps m (group_set_focus g f m)
unfolding group_set_focus
group_set_focus-Keeps g none m = record {
  global_group = ground arith;
  groups = ground arith;
  owner = λ j. ground arith;
  members = λ h. ground arith;
}
group_set_focus-Keeps g (some i) m = record {
  global_group = ground arith;
  groups = ground arith;
  owner = λ j. ground arith;
  members = λ h. ground arith;
}

pub unfocus_groups-Keeps : (gs : List ℕ) (m : Manager) → Keeps m (unfocus_groups gs m)
unfolding unfocus_groups
unfocus_groups-Keeps [] m = Keeps-refl m
unfocus_groups-Keeps (g ∷ gs) m =
    Keeps-trans (group_set_focus-Keeps g none m)
      (unfocus_groups-Keeps gs (group_set_focus g none m))

focus_in_at-Keeps : (g : Option ℕ) (i : ℕ) (m : Manager) → Keeps m (focus_in_at g i m)
unfolding focus_in_at
focus_in_at-Keeps none i m = elim (Bool-cases (m.ic i).focused) [
  | inl e ↦ rw e (Keeps-refl m)
  | inr e ↦ rw e (raw_focus_in-Keeps i m)
]
focus_in_at-Keeps (some g) i m = elim (Bool-cases (g == m.global_group)) [
  | inl e ↦ rw e (
      Keeps-trans (unfocus_groups-Keeps m.groups m)
        (group_set_focus-Keeps m.global_group (some i) (unfocus_groups m.groups m)))
  | inr e ↦ rw e (
      Keeps-trans (group_set_focus-Keeps m.global_group none m)
        (group_set_focus-Keeps g (some i) (group_set_focus m.global_group none m)))
]

pub focus_in-Keeps : (i : ℕ) (m : Manager) → Keeps m (focus_in i m)
unfolding focus_in
focus_in-Keeps i m = focus_in_at-Keeps (m.ic i).group i m

focus_out_at-Keeps : (g : Option ℕ) (i : ℕ) (m : Manager) → Keeps m (focus_out_at g i m)
unfolding focus_out_at
focus_out_at-Keeps none i m = elim (Bool-cases (m.ic i).focused) [
  | inl e ↦ rw e (raw_focus_out-Keeps i m)
  | inr e ↦ rw e (Keeps-refl m)
]
focus_out_at-Keeps (some g) i m = elim (Bool-cases (is_ptr (m.group g).focus i)) [
  | inl e ↦ rw e (group_set_focus-Keeps g none m)
  | inr e ↦ rw e (Keeps-refl m)
]

pub focus_out-Keeps : (i : ℕ) (m : Manager) → Keeps m (focus_out i m)
unfolding focus_out
focus_out-Keeps i m = focus_out_at-Keeps (m.ic i).group i m

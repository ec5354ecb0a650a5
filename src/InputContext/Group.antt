-- ===== src/InputContext/Group.antt =====
-- Moving a context between groups, and freeing a group.
use fcitx_ng.Prelude.{
  elem, ℕ, ◌≡◌, inl, inr, refl, ◌∙◌, ap, true, false, ◌||◌, Option, none, some, ◌==◌, ==_iff, arith,
  if◌then◌else◌, Bool-cases,
}
use fcitx_ng.InputContext.{Manager, same_ptr, leave, enter, move, set_focus_group, focus_out}
use fcitx_ng.InputContext.Keeps.{Keeps, focus_in-Keeps, focus_out-Keeps}
use fcitx_ng.InputContext.Focus.{
  IsConsistent, focus_in-IsConsistent, focus_out-IsConsistent, focus_out-unfocused, focus_in_self,
}

-- NULL, or a group that the manager has.
abbrev pub IsGroup : Option ℕ → Manager → Type 0
IsGroup none m = Unit
IsGroup (some g) m = (g == m.global_group || elem g m.groups) ≡ true

module _ (i : ℕ) (m : Manager) where
  leave_same :
      (f : Option ℕ) (j h : ℕ)
      → ((leave f i m).ic j ≡ m.ic j)
        × (((leave f i m).group h).focus ≡ (m.group h).focus)
        × ((leave f i m).global_group ≡ m.global_group)
        × ((leave f i m).groups ≡ m.groups)
  unfolding leave
  leave_same none j h = (refl, refl, refl, refl)
  leave_same (some f) j h = ground arith

  enter_same :
      (f : Option ℕ) (j h : ℕ)
      → ((enter f i m).ic j ≡ m.ic j)
        × (((enter f i m).group h).focus ≡ (m.group h).focus)
        × ((enter f i m).global_group ≡ m.global_group)
        × ((enter f i m).groups ≡ m.groups)
  unfolding enter
  enter_same none j h = (refl, refl, refl, refl)
  enter_same (some f) j h = ground arith

pub move_same :
    (i : ℕ) (g : Option ℕ) (m : Manager) (j h : ℕ)
    → (((move i g m).ic j).group ≡ (if j == i then g else (m.ic j).group))
      × (((move i g m).ic j).focused ≡ (m.ic j).focused)
      × (((move i g m).group h).focus ≡ (m.group h).focus)
      × ((move i g m).global_group ≡ m.global_group)
      × ((move i g m).groups ≡ m.groups)
unfolding move
move_same i g m j h =
    let n = leave (m.ic i).group i m in
    ground (
      arith,
      leave_same i m (m.ic i).group j h,
      leave_same i m (m.ic i).group i h,
      enter_same i n g j h,
      enter_same i n g i h,
    )

IsGroup-known :
    (g : Option ℕ) (h : ℕ) (m : Manager)
    → g ≡ some h
    → IsGroup g m
    → (h == m.global_group || elem h m.groups) ≡ true
IsGroup-known none h m e k = cc
IsGroup-known (some g) h m e k = ground arith

move-IsConsistent :
    (i : ℕ) (g : Option ℕ) (m : Manager)
    → IsConsistent m
    → (m.ic i).focused ≡ false
    → IsGroup g m
    → IsConsistent (move i g m)
move-IsConsistent i g m c out ok = record {
  agrees = record {
    reflected = λ h j e. ground (
      arith,
      move_same i g m j h,
      c.agrees.reflected h j,
      c.agrees.holder h j,
      c.agrees.reflected h i,
    );
    holder =
        λ h j e. ground (arith, move_same i g m j h, c.agrees.holder h j, c.agrees.reflected h j);
  };
  exclusive = λ h j k p q.
      ground (arith, move_same i g m j h, move_same i g m j m.global_group, c.exclusive h j k);
  known = λ h j e. ground (arith, move_same i g m j h, c.known h j, IsGroup-known g h m);
}

IsGroup-Keeps : (g : Option ℕ) {m n : Manager} → Keeps m n → IsGroup g m → IsGroup g n
IsGroup-Keeps none k ok = tt
IsGroup-Keeps (some g) k ok = rw (k.global_group, k.groups) ok

-- The first focus change and the writes.
moved : ℕ → Option ℕ → Manager → Manager
moved i g m = move i g (if (m.ic i).focused then focus_out i m else m)

moved-IsConsistent :
    (i : ℕ) (g : Option ℕ) (m : Manager) → IsConsistent m → IsGroup g m → IsConsistent (moved i g m)
unfolding moved
moved-IsConsistent i g m c ok = elim (Bool-cases (m.ic i).focused) [
  | inl e ↦ rw e (
      move-IsConsistent i g (focus_out i m) (focus_out-IsConsistent i m c)
        (focus_out-unfocused i m c) (IsGroup-Keeps g (focus_out-Keeps i m) ok))
  | inr e ↦ rw e (move-IsConsistent i g m c e ok)
]

-- Moving a context to no group, or to one that the manager has, keeps the focus consistent.
pub set_focus_group-IsConsistent :
    (i : ℕ) (g : Option ℕ) (m : Manager)
    → IsConsistent m
    → IsGroup g m
    → IsConsistent (set_focus_group i g m)
unfolding set_focus_group moved
set_focus_group-IsConsistent i g m c ok = elim (Bool-cases (same_ptr (m.ic i).group g)) [
  | inl e ↦ rw e c
  | inr e ↦
      let k = moved-IsConsistent i g m c ok in
      elim (Bool-cases (m.ic i).focused) [
        | inl f ↦ rw (e, f) (focus_in-IsConsistent i _ (rw f at k))
        | inr f ↦ rw (e, f) (rw f at k)
      ]
]

same_ptr-eq : (f g : Option ℕ) → same_ptr f g ≡ true → f ≡ g
same_ptr-eq none none e = refl
same_ptr-eq none (some h) e = cc
same_ptr-eq (some h) none e = cc
same_ptr-eq (some h) (some k) e = ap some ((==_iff h k).0 e)

-- In a consistent manager, a context that is moved to no group or to one that the manager has is
-- in that group afterwards, and focused exactly if it was.
pub set_focus_group-group :
    (i : ℕ) (g : Option ℕ) (m : Manager)
    → IsConsistent m
    → IsGroup g m
    → (((set_focus_group i g m).ic i).group ≡ g)
      × (((set_focus_group i g m).ic i).focused ≡ (m.ic i).focused)
unfolding set_focus_group moved
set_focus_group-group i g m c ok = elim (Bool-cases (same_ptr (m.ic i).group g)) [
  | inl e ↦ rw e (same_ptr-eq (m.ic i).group g e, refl)
  | inr e ↦
      let k = moved-IsConsistent i g m c ok in
      elim (Bool-cases (m.ic i).focused) [
        | inl f ↦
            let n = move i g (focus_out i m) in
            rw (e, f)
              (
                (focus_in-Keeps i n).owner i ∙ ground (arith, move_same i g (focus_out i m) i i),
                focus_in_self i n (rw f at k),
              )
        | inr f ↦ rw (e, f) (ground (arith, move_same i g m i i))
      ]
]

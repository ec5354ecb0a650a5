-- ===== src/InputContext/Focus.antt =====
-- What the focus operations do to the contexts and the groups, and the invariant that they keep.
use fcitx_ng.Prelude.{
  elem, ℕ, ◌≡◌, inl, inr, refl, sym, ◌∙◌, ap, true, false, not, ◌&&◌, ◌||◌, Option, none, some,
  List, [], ◌∷◌, ◌==◌, ==_iff, arith, if◌then◌else◌, Bool-cases, Option-cases,
}
use fcitx_ng.InputContext.{
  Manager, is_ptr, group_set_focus, raw_focus_in, raw_focus_out, unfocus_groups, focus_in,
  focus_in_at, focus_out, focus_out_at,
}
use fcitx_ng.InputContext.Keeps.{
  Keeps, focus_in-Keeps, focus_out-Keeps, unfocus_groups-Keeps, group_set_focus-Keeps,
}

-- After a focus is set, who holds it, and who is focused.
module _ (g : ℕ) (m : Manager) where
  unset_focus :
      (h : ℕ)
      → ((group_set_focus g none m).group h).focus ≡ (if h == g then none else (m.group h).focus)
  unfolding group_set_focus
  unset_focus h = ground arith

  unset_owner : (i : ℕ) → ((group_set_focus g none m).ic i).group ≡ (m.ic i).group
  unfolding group_set_focus
  unset_owner i = ground arith

  pub unset_focused :
      (i : ℕ)
      → ((group_set_focus g none m).ic i).focused
        ≡ (if is_ptr (m.group g).focus i then false else (m.ic i).focused)
  unfolding group_set_focus
  unset_focused i = ground arith

  set_focus_focus :
      (h i : ℕ)
      → ((group_set_focus g (some i) m).group h).focus
        ≡ (if h == g then some i else (m.group h).focus)
  unfolding group_set_focus
  set_focus_focus h i = ground arith

  set_owner : (j i : ℕ) → ((group_set_focus g (some i) m).ic j).group ≡ (m.ic j).group
  unfolding group_set_focus
  set_owner j i = ground arith

  set_focus_focused :
      (j i : ℕ)
      → ((group_set_focus g (some i) m).ic j).focused
        ≡ (if j == i then true else if is_ptr (m.group g).focus j then false else (m.ic j).focused)
  unfolding group_set_focus
  set_focus_focused j i = ground arith

-- A context in a group is focused exactly if its group says so, and a group's focus is one of its own.
pub record Agrees (m : Manager) : Type 0 where
  pub reflected :
      (g i : ℕ) → (m.ic i).group ≡ some g → (m.ic i).focused ≡ is_ptr (m.group g).focus i
  pub holder : (g i : ℕ) → (m.group g).focus ≡ some i → (m.ic i).group ≡ some g

unset-Agrees : (g : ℕ) (m : Manager) → Agrees m → Agrees (group_set_focus g none m)
unset-Agrees g m a = record {
  reflected = λ h i e. ground (
    arith,
    unset_focus g m h,
    unset_focused g m i,
    a.reflected h i,
    unset_owner g m i,
    a.holder g i,
  );
  holder = λ h i e. ground (arith, unset_focus g m h, unset_owner g m i, a.holder h i);
}

set-Agrees :
    (g i : ℕ) (m : Manager)
    → (m.ic i).group ≡ some g
    → Agrees m
    → Agrees (group_set_focus g (some i) m)
set-Agrees g i m own a = record {
  reflected = λ h j e. ground (
    arith,
    set_focus_focus g m h i,
    set_focus_focused g m j i,
    a.reflected h j,
    set_owner g m j i,
    a.holder g j,
  );
  holder = λ h j e. ground (arith, set_focus_focus g m h i, set_owner g m j i, a.holder h j);
}

unfocus-Agrees : (gs : List ℕ) (m : Manager) → Agrees m → Agrees (unfocus_groups gs m)
unfolding unfocus_groups
unfocus-Agrees [] m a = a
unfocus-Agrees (g ∷ gs) m a = unfocus-Agrees gs (group_set_focus g none m) (unset-Agrees g m a)

module _ (h i : ℕ) where
  unfocus_focus :
      (gs : List ℕ) (m : Manager)
      → ((unfocus_groups gs m).group h).focus ≡ (if elem h gs then none else (m.group h).focus)
  unfolding unfocus_groups
  unfocus_focus [] m = refl
  unfocus_focus (g ∷ gs) m =
      ground (arith, unfocus_focus gs (group_set_focus g none m), unset_focus g m h)

-- The focus is global or in local groups, never both, and the manager knows the groups of its contexts.
pub record IsConsistent (m : Manager) : Type 0 where
  pub agrees : Agrees m
  pub exclusive :
      (g i j : ℕ)
      → (m.group m.global_group).focus ≡ some i
      → (m.group g).focus ≡ some j
      → g ≡ m.global_group
  pub known : (g i : ℕ) → (m.ic i).group ≡ some g → (g == m.global_group || elem g m.groups) ≡ true

-- The focus of each group after a context of `g` gets the focus.
pub focus_after : ℕ → ℕ → Manager → ℕ → Option ℕ
focus_after g i m h =
    if h == g
    then some i
    else if g == m.global_group && elem h m.groups
    then none
    else if not (g == m.global_group) && h == m.global_group
    then none
    else (m.group h).focus

focus_in_focus :
    (i g : ℕ) (m : Manager)
    → (m.ic i).group ≡ some g
    → (h : ℕ) → ((focus_in i m).group h).focus ≡ focus_after g i m h
unfolding focus_in focus_after
focus_in_focus i g m e h = rw e (elim (Bool-cases (g == m.global_group)) [
  | inl q ↦ rw q (
      ground (
        arith,
        set_focus_focus m.global_group (unfocus_groups m.groups m) h i,
        unfocus_focus h i m.groups m,
      ))
  | inr q ↦ rw q (
      ground (
        arith,
        set_focus_focus g (group_set_focus m.global_group none m) h i,
        unset_focus m.global_group m h,
      ))
])

focus_in_at-Agrees :
    (i : ℕ) (f : Option ℕ) (m : Manager)
    → (m.ic i).group ≡ f
    → Agrees m
    → Agrees (focus_in_at f i m)
unfolding focus_in_at raw_focus_in
focus_in_at-Agrees i none m e a = record {
  reflected = λ h j q. ground (arith, a.reflected h j);
  holder = λ h j q. ground (arith, a.holder h j);
}
focus_in_at-Agrees i (some g) m e a = elim (Bool-cases (g == m.global_group)) [
  | inl q ↦ rw q (
      set-Agrees m.global_group i (unfocus_groups m.groups m)
        ((unfocus_groups-Keeps m.groups m).owner i ∙ e ∙ ap some ((==_iff g m.global_group).0 q))
        (unfocus-Agrees m.groups m a))
  | inr q ↦ rw q (
      set-Agrees g i (group_set_focus m.global_group none m)
        ((group_set_focus-Keeps m.global_group none m).owner i ∙ e)
        (unset-Agrees m.global_group m a))
]

focus_in-none :
    (i : ℕ) (m : Manager)
    → (m.ic i).group ≡ none
    → (h : ℕ) → ((focus_in i m).group h).focus ≡ (m.group h).focus
unfolding focus_in raw_focus_in
focus_in-none i m e h = rw e (ground arith)

listed :
    {m : Manager}
    → IsConsistent m
    → (g i : ℕ) → (m.group g).focus ≡ some i
    → (g == m.global_group || elem g m.groups) ≡ true
listed c g i e = c.known g i (c.agrees.holder g i e)

-- An operation that changes neither groups nor membership keeps what is known.
known_after :
    {m n : Manager}
    → IsConsistent m
    → Keeps m n
    → (g i : ℕ) → (n.ic i).group ≡ some g
    → (g == n.global_group || elem g n.groups) ≡ true
known_after c k g i e = rw (k.global_group, k.groups) (c.known g i (sym (k.owner i) ∙ e))

pub focus_in-IsConsistent : (i : ℕ) (m : Manager) → IsConsistent m → IsConsistent (focus_in i m)
unfolding focus_in focus_after
focus_in-IsConsistent i m c = elim (Option-cases (m.ic i).group) [
  | inl e ↦ record {
    agrees = focus_in_at-Agrees i (m.ic i).group m refl c.agrees;
    exclusive = λ h j k p q. ground (
      arith,
      focus_in-none i m e h,
      focus_in-none i m e m.global_group,
      c.exclusive h j k,
      (focus_in-Keeps i m).global_group,
    );
    known = known_after c (focus_in-Keeps i m);
  }
  | inr (g, e) ↦ record {
    agrees = focus_in_at-Agrees i (m.ic i).group m refl c.agrees;
    exclusive = λ h j k p q. ground (
      arith,
      focus_in_focus i g m e h,
      focus_in_focus i g m e m.global_group,
      listed c h k,
      (focus_in-Keeps i m).global_group,
    );
    known = known_after c (focus_in-Keeps i m);
  }
]

pub focus_out_at-Agrees :
    (i : ℕ) (f : Option ℕ) (m : Manager)
    → (m.ic i).group ≡ f
    → Agrees m
    → Agrees (focus_out_at f i m)
unfolding focus_out_at raw_focus_out
focus_out_at-Agrees i none m e a = record {
  reflected = λ h j q. ground (arith, a.reflected h j);
  holder = λ h j q. ground (arith, a.holder h j);
}
focus_out_at-Agrees i (some g) m e a = elim (Bool-cases (is_ptr (m.group g).focus i)) [
  | inl q ↦ rw q (unset-Agrees g m a)
  | inr q ↦ rw q a
]

-- A context that gives up the focus takes it from its own group only.
pub focus_out_focus :
    (i h : ℕ) (m : Manager)
    → Agrees m
    → ((focus_out i m).group h).focus
      ≡ (if is_ptr (m.group h).focus i then none else (m.group h).focus)
unfolding focus_out focus_out_at raw_focus_out
focus_out_focus i h m a = elim (Option-cases (m.ic i).group) [
  | inl e ↦ rw e (ground (arith, a.holder h i))
  | inr (g, e) ↦ rw e (ground (arith, unset_focus g m h, a.holder h i))
]

pub focus_out-IsConsistent : (i : ℕ) (m : Manager) → IsConsistent m → IsConsistent (focus_out i m)
unfolding focus_out
focus_out-IsConsistent i m c = record {
  agrees = focus_out_at-Agrees i (m.ic i).group m refl c.agrees;
  exclusive = λ h j k p q. ground (
    arith,
    focus_out_focus i h m c.agrees,
    focus_out_focus i m.global_group m c.agrees,
    c.exclusive h j k,
    (focus_out-Keeps i m).global_group,
  );
  known = known_after c (focus_out-Keeps i m);
}

-- Afterwards the context is not focused, in a group or in none.
pub focus_out-unfocused :
    (i : ℕ) (m : Manager) → IsConsistent m → ((focus_out i m).ic i).focused ≡ false
unfolding focus_out focus_out_at raw_focus_out
focus_out-unfocused i m c = elim (Option-cases (m.ic i).group) [
  | inl e ↦ rw e (ground arith)
  | inr (g, e) ↦ rw e (ground (arith, unset_focused g m i, c.agrees.reflected g i))
]

-- In a consistent manager, a context of a group that gets the focus is focused; a context in
-- another group keeps its own focus only if both groups are local; all others in groups lose
-- theirs.
pub focus_in-focused :
    (i g : ℕ) (m : Manager)
    → IsConsistent m
    → (m.ic i).group ≡ some g
    → (j h : ℕ) → (m.ic j).group ≡ some h
    → ((focus_in i m).ic j).focused ≡ (
        if j == i
        then true
        else if h == g || h == m.global_group || g == m.global_group
        then false
        else (m.ic j).focused)
unfolding focus_after
focus_in-focused i g m c e j h f =
    let a = (focus_in-IsConsistent i m c).agrees in
    ground (
      arith,
      a.reflected h j ((focus_in-Keeps i m).owner j ∙ f),
      focus_in_focus i g m e h,
      c.agrees.reflected h j f,
      c.known h j f,
    )

pub focus_in_self : (i : ℕ) (m : Manager) → IsConsistent m → ((focus_in i m).ic i).focused ≡ true
unfolding focus_in focus_in_at raw_focus_in
focus_in_self i m c = elim (Option-cases (m.ic i).group) [
  | inl e ↦ rw e (ground arith)
  | inr (g, e) ↦ focus_in-focused i g m c e i g e ∙ ground arith
]

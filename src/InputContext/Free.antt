-- ===== src/InputContext/Free.antt =====
-- Freeing a focus group: who is in which group afterwards, and who is focused.
use fcitx_ng.Prelude.{
  elem, ℕ, suc, ◌+◌, ◌-◌, ◌≡◌, inl, inr, refl, sym, ◌∙◌, true, false, not, ◌&&◌, Option, none, some,
  List, [], ◌∷◌, ◌++◌, ◌==◌, arith, if◌then◌else◌, Bool-cases, Option-cases,
}
use fcitx_ng.InputContext.{
  Manager, is_ptr, same_ptr, list_remove, leave, enter, move, set_focus_group, focus_in,
  focus_in_at, focus_out, focus_out_at, raw_focus_in, raw_focus_out, dismiss, focus_group_free,
}
use fcitx_ng.InputContext.Keeps.{Keeps, focus_in-Keeps, focus_out-Keeps}
use fcitx_ng.InputContext.Focus.{Agrees, IsConsistent, focus_out_focus, unset_focused}
use fcitx_ng.InputContext.Group.{move_same}

-- What taking the contexts `is` out of their groups does.
pub record Detaches (is : List ℕ) (m n : Manager) : Type 0 where
  pub agrees : Agrees n
  pub owner : (j : ℕ) → (n.ic j).group ≡ (if elem j is then none else (m.ic j).group)
  pub focused : (j : ℕ) → (n.ic j).focused ≡ (m.ic j).focused
  pub shrinks : (h j : ℕ) → (n.group h).focus ≡ some j → (m.group h).focus ≡ some j
  pub global_group : n.global_group ≡ m.global_group
  pub groups : n.groups ≡ m.groups

-- Only the context itself is unfocused.
focus_out_focused :
    (i j : ℕ) (m : Manager)
    → Agrees m
    → ((focus_out i m).ic j).focused ≡ (if j == i then false else (m.ic j).focused)
unfolding focus_out focus_out_at raw_focus_out
focus_out_focused i j m a = elim (Option-cases (m.ic i).group) [
  | inl e ↦ rw e (ground arith)
  | inr (g, e) ↦ rw e (ground (arith, unset_focused g m j, a.reflected g i))
]

-- In no group, the focus is the context's own.
focus_in_ungrouped :
    (i : ℕ) (m : Manager)
    → (m.ic i).group ≡ none
    → (j h : ℕ)
    → (((focus_in i m).ic j).focused ≡ (if j == i then true else (m.ic j).focused))
      × (((focus_in i m).group h).focus ≡ (m.group h).focus)
unfolding focus_in focus_in_at raw_focus_in
focus_in_ungrouped i m e j h = rw e (ground arith)

-- What taking one context out of its group does, field by field.
record Detached (i : ℕ) (m n : Manager) : Type 0 where
  owner : (j : ℕ) → (n.ic j).group ≡ (if j == i then none else (m.ic j).group)
  focused : (j : ℕ) → (n.ic j).focused ≡ (m.ic j).focused
  focus :
      (h : ℕ) → (n.group h).focus ≡ (if is_ptr (m.group h).focus i then none else (m.group h).focus)
  global_group : n.global_group ≡ m.global_group
  groups : n.groups ≡ m.groups

Detached-Detaches : (i : ℕ) (m n : Manager) → Agrees m → Detached i m n → Detaches (i ∷ []) m n
Detached-Detaches i m n a d = record {
  agrees = record {
    reflected =
        λ h j e. ground (arith, d.owner j, d.focused j, d.focus h, a.reflected h j, a.holder h j);
    holder = λ h j e. ground (arith, d.owner j, d.focus h, a.holder h j);
  };
  owner = λ j. ground (arith, d.owner j);
  focused = d.focused;
  shrinks = λ h j e. ground (arith, d.focus h);
  global_group = d.global_group;
  groups = d.groups;
}

detach_focused :
    (i : ℕ) (m : Manager)
    → Agrees m
    → (m.ic i).focused ≡ true
    → Detached i m (focus_in i (move i none (focus_out i m)))
detach_focused i m a f =
    let o = focus_out i m in
    let n = move i none o in
    let at_i : (n.ic i).group ≡ none = ground (arith, move_same i none o i i) in
    record {
      owner = λ j.
          (focus_in-Keeps i n).owner j
          ∙ ground (arith, move_same i none o j j, (focus_out-Keeps i m).owner j);
      focused = λ j. ground (
        arith,
        focus_in_ungrouped i n at_i j j,
        move_same i none o j j,
        focus_out_focused i j m a,
      );
      focus = λ h.
          ground (
            arith,
            focus_in_ungrouped i n at_i i h,
            move_same i none o i h,
            focus_out_focus i h m a,
          );
      global_group =
          (focus_in-Keeps i n).global_group
          ∙ ground (arith, move_same i none o i i, (focus_out-Keeps i m).global_group);
      groups =
          (focus_in-Keeps i n).groups
          ∙ ground (arith, move_same i none o i i, (focus_out-Keeps i m).groups);
    }

detach_unfocused :
    (i : ℕ) (m : Manager) → Agrees m → (m.ic i).focused ≡ false → Detached i m (move i none m)
detach_unfocused i m a f = record {
  owner = λ j. ground (arith, move_same i none m j j);
  focused = λ j. ground (arith, move_same i none m j j);
  focus = λ h. ground (arith, move_same i none m i h, a.holder h i, a.reflected h i);
  global_group = ground (arith, move_same i none m i i);
  groups = ground (arith, move_same i none m i i);
}

detach_none : (i : ℕ) (m : Manager) → Agrees m → (m.ic i).group ≡ none → Detached i m m
detach_none i m a e = record {
  owner = λ j. ground arith;
  focused = λ j. refl;
  focus = λ h. ground (arith, a.holder h i);
  global_group = refl;
  groups = refl;
}

detach : (i : ℕ) (m : Manager) → Agrees m → Detached i m (set_focus_group i none m)
unfolding set_focus_group
detach i m a = elim (Option-cases (m.ic i).group) [
  | inl e ↦ rw e (detach_none i m a e)
  | inr (g, e) ↦ elim (Bool-cases (m.ic i).focused) [
    | inl f ↦ rw (e, f) (detach_focused i m a f)
    | inr f ↦ rw (e, f) (detach_unfocused i m a f)
  ]
]

dismiss-Detaches : (is : List ℕ) (m : Manager) → Agrees m → Detaches is m (dismiss is m)
unfolding dismiss
dismiss-Detaches [] m a = record {
  agrees = a;
  owner = λ j. refl;
  focused = λ j. refl;
  shrinks = λ h j e. e;
  global_group = refl;
  groups = refl;
}
dismiss-Detaches (i ∷ is) m a =
    let d = Detached-Detaches i m _ a (detach i m a) in
    let r = dismiss-Detaches is (set_focus_group i none m) d.agrees in
    record {
      agrees = r.agrees;
      owner = λ j. ground (arith, r.owner j, d.owner j);
      focused = λ j. r.focused j ∙ d.focused j;
      shrinks = λ h j e. d.shrinks h j (r.shrinks h j e);
      global_group = r.global_group ∙ d.global_group;
      groups = r.groups ∙ d.groups;
    }

abbrev pub count : ℕ → List ℕ → ℕ
count i [] = 0
count i (j ∷ l) = if i == j then suc (count i l) else count i l

-- Each group lists its contexts, each once.
abbrev pub Lists : Manager → Type 0
Lists m =
    (g i : ℕ) → count i (m.group g).input_contexts ≡ (if is_ptr (m.ic i).group g then 1 else 0)

elem-count : (i : ℕ) (l : List ℕ) → elem i l ≡ not (count i l == 0)
elem-count i [] = refl
elem-count i (j ∷ l) = ground (arith, elem-count i l)

elem-list_remove : (i j : ℕ) (l : List ℕ) → (i == j) ≡ false → elem i (list_remove j l) ≡ elem i l
elem-list_remove i j [] e = refl
elem-list_remove i j (k ∷ l) e = ground (arith, elem-list_remove i j l e)

-- The state that the loop starts from.
abbrev unlisted : ℕ → Manager → Manager
unlisted g m = record m { groups = list_remove g m.groups }

-- In a consistent manager whose groups list their contexts once each, freeing a local group leaves
-- its contexts in no group and each context focused exactly if it was; all other contexts stay in
-- their groups, the group is gone from the list, and the manager is consistent.
pub focus_group_free-IsConsistent :
    (g : ℕ) (m : Manager)
    → IsConsistent m
    → Lists m
    → (g == m.global_group) ≡ false
    → IsConsistent (focus_group_free g m)
      × ((j : ℕ)
          → (((focus_group_free g m).ic j).group
              ≡ (if is_ptr (m.ic j).group g then none else (m.ic j).group))
            × (((focus_group_free g m).ic j).focused ≡ (m.ic j).focused))
      × ((focus_group_free g m).groups ≡ list_remove g m.groups)
unfolding focus_group_free
focus_group_free-IsConsistent g m c l e =
    let is = (m.group g).input_contexts in
    let a : Agrees (unlisted g m) = record {
      reflected = c.agrees.reflected;
      holder = c.agrees.holder;
    } in
    let d = dismiss-Detaches is (unlisted g m) a in
    let owner : (j : ℕ)
        → ((dismiss is (unlisted g m)).ic j).group
          ≡ (if is_ptr (m.ic j).group g then none else (m.ic j).group) =
      λ j. ground (arith, d.owner j, elem-count j is, l g j) in
    rw e (
      record {
        agrees = d.agrees;
        exclusive = λ h j k p q.
            c.exclusive h j k (d.shrinks m.global_group j (rw d.global_group at p))
              (d.shrinks h k q)
            ∙ sym d.global_group;
        known = λ h j q.
            ground (
              arith,
              owner j,
              c.known h j,
              d.global_group,
              d.groups,
              elem-list_remove h g m.groups,
            );
      },
      (λ j. (owner j, d.focused j)),
      d.groups,
    )

count-append : (i : ℕ) (l k : List ℕ) → count i (l ++ k) ≡ count i l + count i k
count-append i [] k = omega arith
count-append i (j ∷ l) k = ground (arith, count-append i l k)

count-list_remove :
    (i j : ℕ) (l : List ℕ)
    → count i (list_remove j l) ≡ (if i == j then count i l - 1 else count i l)
count-list_remove i j [] = ground arith
count-list_remove i j (k ∷ l) = ground (arith, count-list_remove i j l)

leave_members :
    (f : Option ℕ) (i : ℕ) (m : Manager) (h j : ℕ)
    → count j ((leave f i m).group h).input_contexts ≡ (
        if is_ptr f h && j == i
        then count j (m.group h).input_contexts - 1
        else count j (m.group h).input_contexts)
unfolding leave
leave_members none i m h j = refl
leave_members (some g) i m h j = ground (arith, count-list_remove j i (m.group g).input_contexts)

enter_members :
    (f : Option ℕ) (i : ℕ) (m : Manager) (h j : ℕ)
    → count j ((enter f i m).group h).input_contexts ≡ (
        if is_ptr f h && j == i
        then count j (m.group h).input_contexts + 1
        else count j (m.group h).input_contexts)
unfolding enter
enter_members none i m h j = refl
enter_members (some g) i m h j = ground (arith, count-append j (m.group g).input_contexts (i ∷ []))

move_members :
    (i : ℕ) (g : Option ℕ) (m : Manager) (h j : ℕ)
    → count j ((move i g m).group h).input_contexts
      ≡ count j ((enter g i (leave (m.ic i).group i m)).group h).input_contexts
unfolding move
move_members i g m h j = refl

move-Lists :
    (i : ℕ) (g : Option ℕ) (m : Manager)
    → Lists m
    → same_ptr (m.ic i).group g ≡ false
    → Lists (move i g m)
move-Lists i g m l e h j = ground (
  arith,
  move_members i g m h j,
  move_same i g m j h,
  enter_members g i (leave (m.ic i).group i m) h j,
  leave_members (m.ic i).group i m h j,
  l h j,
)

pub Keeps-Lists : {m n : Manager} → Keeps m n → Lists m → Lists n
Keeps-Lists k l h j = rw (k.members h, k.owner j) (l h j)

-- The lists of the groups stay exact when a context moves.
pub set_focus_group-Lists :
    (i : ℕ) (g : Option ℕ) (m : Manager) → Lists m → Lists (set_focus_group i g m)
unfolding set_focus_group
set_focus_group-Lists i g m l = elim (Bool-cases (same_ptr (m.ic i).group g)) [
  | inl e ↦ rw e l
  | inr e ↦ elim (Bool-cases (m.ic i).focused) [
    | inl f ↦
        let o = focus_out-Keeps i m in
        let n = move i g (focus_out i m) in
        rw (e, f)
          (Keeps-Lists (focus_in-Keeps i n)
            (move-Lists i g (focus_out i m) (Keeps-Lists o l) (rw (o.owner i) e)))
    | inr f ↦ rw (e, f) (move-Lists i g m l e)
  ]
]

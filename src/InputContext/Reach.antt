-- ===== src/InputContext/Reach.antt =====
-- The focus operations as steps from a manager whose contexts are in no group, and what holds of every
-- state that they reach.
use fcitx_ng.Prelude.{
  elem, ℕ, ◌≡◌, true, false, ◌||◌, Option, none, some, List, [], ◌∷◌, ◌++◌, ◌==◌, arith,
}
use fcitx_ng.InputContext.{
  Manager, FocusGroupType, global, local, independent, is_ptr, focus_in, focus_out, set_focus_group,
  set_focus_group_type, Rect, reset, set_capability_flags, set_cursor_rect, dismiss,
  focus_group_new, focus_group_free, list_remove,
}
use fcitx_ng.InputContext.Keeps.{focus_in-Keeps, focus_out-Keeps}
use fcitx_ng.InputContext.Focus.{IsConsistent, focus_in-IsConsistent, focus_out-IsConsistent}
use fcitx_ng.InputContext.Group.{IsGroup, set_focus_group-IsConsistent}
use fcitx_ng.InputContext.Free.{
  Lists, Keeps-Lists, set_focus_group-Lists, focus_group_free-IsConsistent,
}
use fcitx_ng.InputContext.Events.{
  Observed, focus_in-Observed, focus_out-Observed, set_focus_group-Observed,
  focus_group_free-Observed,
}
use fcitx_ng.InputContext.Quiet.{
  Quiet, reset-Quiet, set_capability_flags-Quiet, set_cursor_rect-Quiet,
}

-- A pointer that no live group has.
abbrev pub IsFresh : ℕ → Manager → Type 0
IsFresh g m = (g == m.global_group || elem g m.groups) ≡ false

pub data Step : Manager → Manager → Type 0 where
  focus : (i : ℕ) (m : Manager) → Step m (focus_in i m)
  unfocus : (i : ℕ) (m : Manager) → Step m (focus_out i m)
  assign :
      (i : ℕ) (t : FocusGroupType) (g : Option ℕ) (m : Manager)
      → IsGroup g m
      → Step m (set_focus_group_type i t g m)
  make_group : (g : ℕ) (m : Manager) → IsFresh g m → Step m (focus_group_new g m)
  free_group : (g : ℕ) (m : Manager) → (g == m.global_group) ≡ false → Step m (focus_group_free g m)
  clear : (i : ℕ) (m : Manager) → Step m (reset i m)
  capability : (i flags : ℕ) (m : Manager) → Step m (set_capability_flags i flags m)
  cursor : (i : ℕ) (rect : Rect) (m : Manager) → Step m (set_cursor_rect i rect m)

pub data Reach (m : Manager) : Manager → Type 0 where
  here : Reach m m
  next : {n o : Manager} → Reach m n → Step n o → Reach m o

pub record IsSafe (m : Manager) : Type 0 where
  pub consistent : IsConsistent m
  pub lists : Lists m
  pub observed : Observed m

-- A manager with an event dispatcher, no event so far, no local group, and every context in no group.
pub record IsInitial (m : Manager) : Type 0 where
  pub connected : m.callback ≡ true
  pub silent : m.dispatched ≡ []
  pub ungrouped : (i : ℕ) → (m.ic i).group ≡ none
  pub unfocused : (i : ℕ) → (m.ic i).focused ≡ false
  pub empty : (g : ℕ) → ((m.group g).input_contexts ≡ []) × ((m.group g).focus ≡ none)

IsInitial-IsSafe : (m : Manager) → IsInitial m → IsSafe m
IsInitial-IsSafe m s = record {
  consistent = record {
    agrees = record {
      reflected = λ g i e. ground (arith, s.ungrouped i);
      holder = λ g i e. ground (arith, s.empty g);
    };
    exclusive = λ g i j p q. ground (arith, s.empty g);
    known = λ g i e. ground (arith, s.ungrouped i);
  };
  lists = λ g i. ground (arith, s.empty g, s.ungrouped i);
  observed = record {
    connected = s.connected;
    tells = λ i. ground (arith, s.silent, s.unfocused i);
  };
}

elem-append : (h g : ℕ) (l : List ℕ) → elem h (l ++ g ∷ []) ≡ (elem h l || h == g)
elem-append h g [] = ground arith
elem-append h g (k ∷ l) = ground (arith, elem-append h g l)

fresh_ungrouped :
    (g : ℕ) (m : Manager) → IsConsistent m → IsFresh g m → (i : ℕ) → is_ptr (m.ic i).group g ≡ false
fresh_ungrouped g m c f i = ground (arith, c.known g i)

focus_group_new-IsSafe :
    (g : ℕ) (m : Manager) → IsSafe m → IsFresh g m → IsSafe (focus_group_new g m)
unfolding focus_group_new
focus_group_new-IsSafe g m s f = record {
  consistent = record {
    agrees = record {
      reflected =
          λ h i e. ground (arith, s.consistent.agrees.reflected h i, s.consistent.known h i);
      holder = λ h i e. ground (arith, s.consistent.agrees.holder h i);
    };
    exclusive = λ h i j p q. ground (arith, s.consistent.exclusive h i j);
    known = λ h i e. ground (arith, s.consistent.known h i, elem-append h g m.groups);
  };
  lists = λ h i. ground (arith, s.lists h i, fresh_ungrouped g m s.consistent f i);
  observed = record { connected = s.observed.connected; tells = s.observed.tells };
}

dismiss-Lists : (is : List ℕ) (m : Manager) → Lists m → Lists (dismiss is m)
unfolding dismiss
dismiss-Lists [] m l = l
dismiss-Lists (i ∷ is) m l =
    dismiss-Lists is (set_focus_group i none m) (set_focus_group-Lists i none m l)

set_focus_group-IsSafe :
    (i : ℕ) (g : Option ℕ) (m : Manager) → IsSafe m → IsGroup g m → IsSafe (set_focus_group i g m)
set_focus_group-IsSafe i g m s ok = record {
  consistent = set_focus_group-IsConsistent i g m s.consistent ok;
  lists = set_focus_group-Lists i g m s.lists;
  observed = set_focus_group-Observed i g m s.observed;
}

focus_group_free-IsSafe :
    (g : ℕ) (m : Manager) → IsSafe m → (g == m.global_group) ≡ false → IsSafe (focus_group_free g m)
focus_group_free-IsSafe g m s e = record {
  consistent = (focus_group_free-IsConsistent g m s.consistent s.lists e).0;
  lists =
      unfold focus_group_free in
      rw e (
        dismiss-Lists (m.group g).input_contexts (record m { groups = list_remove g m.groups })
          s.lists);
  observed = focus_group_free-Observed g m s.observed;
}

-- An operation that says and changes nothing of the focus.
Quiet-IsSafe : {m n : Manager} → Quiet m n → IsSafe m → IsSafe n
Quiet-IsSafe {m = m} q s = record {
  consistent = record {
    agrees = record {
      reflected = λ g i e.
          ground (arith, s.consistent.agrees.reflected g i, q.owner i, q.same i, q.focus g);
      holder = λ g i e. ground (arith, s.consistent.agrees.holder g i, q.owner i, q.focus g);
    };
    exclusive = λ g i j p r.
        ground (arith, s.consistent.exclusive g i j, q.focus g, q.focus m.global_group, q.global);
    known = λ g i e. ground (arith, s.consistent.known g i, q.owner i, q.global, q.groups);
  };
  lists = λ g i. ground (arith, s.lists g i, q.owner i, q.members g);
  observed = record {
    connected = ground (arith, s.observed.connected, q.callback);
    tells = λ i. ground (arith, s.observed.tells i, q.told i, q.same i);
  };
}

Step-IsSafe : {m n : Manager} → Step m n → IsSafe m → IsSafe n
unfolding set_focus_group_type
Step-IsSafe (focus i m) s = record {
  consistent = focus_in-IsConsistent i m s.consistent;
  lists = Keeps-Lists (focus_in-Keeps i m) s.lists;
  observed = focus_in-Observed i m s.observed;
}
Step-IsSafe (unfocus i m) s = record {
  consistent = focus_out-IsConsistent i m s.consistent;
  lists = Keeps-Lists (focus_out-Keeps i m) s.lists;
  observed = focus_out-Observed i m s.observed;
}
Step-IsSafe (assign i local none m ok) s = s
Step-IsSafe (assign i local (some g) m ok) s = set_focus_group-IsSafe i (some g) m s ok
Step-IsSafe (assign i global none m ok) s =
    set_focus_group-IsSafe i (some m.global_group) m s (ground arith)
Step-IsSafe (assign i global (some g) m ok) s = s
Step-IsSafe (assign i independent none m ok) s = set_focus_group-IsSafe i none m s tt
Step-IsSafe (assign i independent (some g) m ok) s = s
Step-IsSafe (make_group g m f) s = focus_group_new-IsSafe g m s f
Step-IsSafe (free_group g m e) s = focus_group_free-IsSafe g m s e
Step-IsSafe (clear i m) s = Quiet-IsSafe (reset-Quiet i m) s
Step-IsSafe (capability i flags m) s = Quiet-IsSafe (set_capability_flags-Quiet i flags m) s
Step-IsSafe (cursor i rect m) s = Quiet-IsSafe (set_cursor_rect-Quiet i rect m) s

-- In every state that focus changes, moves between groups, making and freeing local groups,
-- resets, and changes of capabilities and of cursor rectangles reach from an initial manager: each
-- group lists its contexts once each; a context in a group is focused exactly if it is the group's
-- focus; the focus is in the global group or in local ones, never both; and a context is focused
-- exactly if the newest focus event that names it says so.
pub Reach-IsSafe : (m n : Manager) → IsInitial m → Reach m n → IsSafe n
Reach-IsSafe m n s here = IsInitial-IsSafe m s
Reach-IsSafe m n s (next {n = k} r t) = Step-IsSafe t (Reach-IsSafe m k s r)

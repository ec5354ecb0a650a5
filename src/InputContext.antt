-- ===== src/InputContext.antt =====
-- lib/fcitx/inputcontext.c: input contexts, focus groups, and the events that the manager dispatches.
-- A pointer to an input context or to a group is a number, and the structures behind the pointers are
-- functions of it. An intrusive list of `fcitx-utils/list.h` is the list of its entries' owners. The
-- event dispatcher is the list of the events that it was called with, the newest first: it makes no
-- call of its own back into the manager.
pub mod Keeps
pub mod Focus
pub mod Group
pub mod Free
pub mod Events
pub mod Quiet
pub mod Reach
pub mod Surrounding
use fcitx_ng.Prelude.{
  ℕ, Bool, true, false, not, ◌&&◌, ◌||◌, Option, none, some, List, [], ◌∷◌, ◌++◌, ◌==◌,
  if◌then◌else◌,
}

-- The events of `FcitxEventType` that the operations below dispatch, with the context's pointer.
pub data Event : Type 0 where
  created destroyed focused_in focused_out : ℕ → Event
  was_reset capability_changed cursor_rect_changed : ℕ → Event

-- The coordinates of a rectangle are only compared.
pub record Rect : Type 0 where
  pub x1 : ℕ
  pub y1 : ℕ
  pub x2 : ℕ
  pub y2 : ℕ

pub record InputContext : Type 0 where
  pub id : ℕ
  pub flags : ℕ
  pub group : Option ℕ
  pub focused : Bool
  pub rect : Rect

pub record FocusGroup : Type 0 where
  pub input_contexts : List ℕ
  pub focus : Option ℕ

pub record Manager : Type 0 where
  pub ic : ℕ → InputContext
  pub group : ℕ → FocusGroup
  pub groups : List ℕ
  pub global_group : ℕ
  pub callback : Bool
  pub dispatched : List Event

-- `p == NULL` aside, equality of a pointer that may be NULL with one that is not.
abbrev pub is_ptr : Option ℕ → ℕ → Bool
is_ptr none i = false
is_ptr (some j) i = j == i

abbrev pub update {ℓ} : {A : Type ℓ} → (ℕ → A) → ℕ → A → ℕ → A
update f i a j = if j == i then a else f j

-- `fcitx_list_remove` of the entry that `i` owns.
abbrev pub list_remove : ℕ → List ℕ → List ℕ
list_remove i [] = []
list_remove i (j ∷ l) = if j == i then l else j ∷ list_remove i l

abbrev pub dispatch : Event → Manager → Manager
dispatch e m = if m.callback then record m { dispatched = e ∷ m.dispatched } else m

abbrev pub set_focused : ℕ → Bool → Manager → Manager
set_focused i b m = record m { ic = update m.ic i (record (m.ic i) { focused = b }) }

abbrev pub set_focus : ℕ → Option ℕ → Manager → Manager
set_focus g f m = record m { group = update m.group g (record (m.group g) { focus = f }) }

-- `_fcitx_input_context_focus_in` and `_fcitx_input_context_focus_out`.
unfoldable pub raw_focus_in : ℕ → Manager → Manager
raw_focus_in i m = dispatch (focused_in i) (set_focused i true m)

unfoldable pub raw_focus_out : ℕ → Manager → Manager
raw_focus_out i m = dispatch (focused_out i) (set_focused i false m)

raw_focus_out? : Option ℕ → Manager → Manager
unfolding raw_focus_out
raw_focus_out? none m = m
raw_focus_out? (some i) m = raw_focus_out i m

raw_focus_in? : Option ℕ → Manager → Manager
unfolding raw_focus_in
raw_focus_in? none m = m
raw_focus_in? (some i) m = raw_focus_in i m

-- `_fcitx_input_context_group_set_focus`.
unfoldable pub group_set_focus : ℕ → Option ℕ → Manager → Manager
unfolding raw_focus_out? raw_focus_in?
group_set_focus g i m = raw_focus_in? i (raw_focus_out? (m.group g).focus (set_focus g i m))

-- The loop over `manager->groups`.
unfoldable pub unfocus_groups : List ℕ → Manager → Manager
unfocus_groups [] m = m
unfocus_groups (g ∷ gs) m = unfocus_groups gs (group_set_focus g none m)

-- `fcitx_input_context_focus_in`, on `inputContext->group`.
unfoldable pub focus_in_at : Option ℕ → ℕ → Manager → Manager
focus_in_at none i m = if not (m.ic i).focused then raw_focus_in i m else m
focus_in_at (some g) i m =
    if g == m.global_group
    then group_set_focus m.global_group (some i) (unfocus_groups m.groups m)
    else group_set_focus g (some i) (group_set_focus m.global_group none m)

unfoldable pub focus_in : ℕ → Manager → Manager
unfolding focus_in_at
focus_in i m = focus_in_at (m.ic i).group i m

-- `fcitx_input_context_focus_out`.
unfoldable pub focus_out_at : Option ℕ → ℕ → Manager → Manager
focus_out_at none i m = if (m.ic i).focused then raw_focus_out i m else m
focus_out_at (some g) i m = if is_ptr (m.group g).focus i then group_set_focus g none m else m

unfoldable pub focus_out : ℕ → Manager → Manager
unfolding focus_out_at
focus_out i m = focus_out_at (m.ic i).group i m

-- `ic->group == group`, both possibly NULL.
abbrev pub same_ptr : Option ℕ → Option ℕ → Bool
same_ptr none none = true
same_ptr none (some g) = false
same_ptr (some g) none = false
same_ptr (some g) (some h) = g == h

abbrev pub set_members : ℕ → List ℕ → Manager → Manager
set_members g l m = record m {
  group = update m.group g (record (m.group g) { input_contexts = l });
}

unfoldable pub leave : Option ℕ → ℕ → Manager → Manager
leave none i m = m
leave (some g) i m = set_members g (list_remove i (m.group g).input_contexts) m

unfoldable pub enter : Option ℕ → ℕ → Manager → Manager
enter none i m = m
enter (some g) i m = set_members g ((m.group g).input_contexts ++ i ∷ []) m

abbrev pub set_group : ℕ → Option ℕ → Manager → Manager
set_group i g m = record m { ic = update m.ic i (record (m.ic i) { group = g }) }

-- The writes between the two focus changes: the lists, then `ic->group`.
unfoldable pub move : ℕ → Option ℕ → Manager → Manager
move i g m = set_group i g (enter g i (leave (m.ic i).group i m))

-- `_fcitx_input_context_set_focus_group`.
unfoldable pub set_focus_group : ℕ → Option ℕ → Manager → Manager
set_focus_group i g m =
    if same_ptr (m.ic i).group g
    then m
    else let old_focus = (m.ic i).focused in
      let m₁ = if old_focus then focus_out i m else m in
      let m₂ = move i g m₁ in if old_focus then focus_in i m₂ else m₂

-- `fcitx_input_context_focus_group_new`; `g` is the pointer that the allocation returns.
unfoldable pub focus_group_new : ℕ → Manager → Manager
focus_group_new g m = record m {
  group = update m.group g (record { input_contexts = []; focus = none });
  groups = m.groups ++ g ∷ [];
}

pub data FocusGroupType : Type 0 where
  global local independent : FocusGroupType

-- `fcitx_input_context_set_focus_group`: a group is given for a local one, and only then.
unfoldable pub set_focus_group_type : ℕ → FocusGroupType → Option ℕ → Manager → Manager
set_focus_group_type i local none m = m
set_focus_group_type i local (some g) m = set_focus_group i (some g) m
set_focus_group_type i global none m = set_focus_group i (some m.global_group) m
set_focus_group_type i global (some g) m = m
set_focus_group_type i independent none m = set_focus_group i none m
set_focus_group_type i independent (some g) m = m

-- The loop over the group's contexts, each with its successor read before the call.
unfoldable pub dismiss : List ℕ → Manager → Manager
dismiss [] m = m
dismiss (i ∷ is) m = dismiss is (set_focus_group i none m)

-- `fcitx_input_context_focus_group_free`; a local group leaves `manager->groups` first.
unfoldable pub focus_group_free : ℕ → Manager → Manager
unfolding dismiss
focus_group_free g m =
    let m₁ = if g == m.global_group then m else record m { groups = list_remove g m.groups } in
    dismiss (m₁.group g).input_contexts m₁

-- `fcitx_input_context_reset`.
unfoldable pub reset : ℕ → Manager → Manager
reset i m = dispatch (was_reset i) m

-- `fcitx_input_context_set_capability_flags`.
unfoldable pub set_capability_flags : ℕ → ℕ → Manager → Manager
set_capability_flags i flags m =
    if not ((m.ic i).flags == flags)
    then dispatch (capability_changed i)
        (record m { ic = update m.ic i (record (m.ic i) { flags = flags }) })
    else m

abbrev pub same_rect : Rect → Rect → Bool
same_rect r q = r.x1 == q.x1 && r.x2 == q.x2 && r.y1 == q.y1 && r.y2 == q.y2

-- `fcitx_input_context_set_cursor_rect`.
unfoldable pub set_cursor_rect : ℕ → Rect → Manager → Manager
set_cursor_rect i rect m =
    if not (same_rect (m.ic i).rect rect)
    then dispatch (cursor_rect_changed i)
        (record m { ic = update m.ic i (record (m.ic i) { rect = rect }) })
    else m

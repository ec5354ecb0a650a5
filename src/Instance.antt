-- ===== src/Instance.antt =====
-- lib/fcitx/instance.c: `fcitx_instance_event_dispatch`, with its three branches: the hotkeys of a key event,
-- the frontend of an input method's event, and the groups of input methods.
pub mod Dispatch
use fcitx_ng.Prelude.{
  bit_and, ℕ, zero, suc, ◌+◌, ◌%◌, ◌^◌, Bool, true, false, not, ◌&&◌, Option, none, some, List, [],
  ◌∷◌, ◌++◌, map, ltb, leb, ◌==◌, if◌then◌else◌, length, get_elem?, ℤ, pos, negsuc,
}
use fcitx_ng.Key.{Key, is_modifier, list_check}
use fcitx_ng.Addon.{AddonManager}

-- `FcitxLastReleasedKey`: `LRK_None` is 0, and the six of `keyHandle` are the numbers from 1 on.
abbrev pub lrk_none : ℕ
lrk_none = 0

pub record PrivateState : Type 0 where
  pub last_key_pressed_time : ℕ
  pub released_key : ℕ

-- The detail of a key event.
pub record KeyEvent : Type 0 where
  pub key : Key
  pub is_release : Bool
  pub time : ℕ

-- One entry of `keyHandle`: all of them have the trigger key, and no callback.
abbrev pub handle_matches : List Key → Bool → KeyEvent → PrivateState → ℕ → Bool
handle_matches trigger_key has_more_than_one_im event s handle =
    s.released_key == handle && has_more_than_one_im && list_check trigger_key event.key

-- The loop over `keyHandle`, with `n` entries left: the one that is handled.
unfoldable pub find_handle : ℕ → ℕ → List Key → Bool → KeyEvent → PrivateState → Option ℕ
find_handle zero handle trigger_key valid event s = none
find_handle (suc n) handle trigger_key valid event s =
    let rest = find_handle n (handle + 1) trigger_key valid event s in
    if handle_matches trigger_key valid event s handle then some handle else rest

-- The result of the dispatch, and the state of the context; `none` is a call of the NULL callback.
abbrev pub press_handled : Option ℕ → KeyEvent → PrivateState → Option (Bool × PrivateState)
press_handled none event s = some (false, record s { released_key = lrk_none })
press_handled (some handle) event s =
    if is_modifier event.key then some (true, record s { released_key = handle }) else none

abbrev pub key_pressed : List Key → Bool → KeyEvent → PrivateState → Option (Bool × PrivateState)
key_pressed trigger_key valid event s =
    let s₁ : PrivateState = record s { last_key_pressed_time = event.time } in
    press_handled (find_handle 6 1 trigger_key valid event s₁) event s₁

abbrev pub release_handled : Option ℕ → PrivateState → Option (Bool × PrivateState)
release_handled none s = some (false, record s { released_key = lrk_none })
release_handled (some handle) s = none

abbrev pub key_released : List Key → Bool → KeyEvent → PrivateState → Option (Bool × PrivateState)
key_released trigger_key valid event s =
    let in_time =
      is_modifier event.key && ltb event.time ((s.last_key_pressed_time + 500) % 2 ^ 64) in
    release_handled (if in_time then find_handle 6 1 trigger_key valid event s else none) s

-- The branch of a key event, with the size of the instance's group. The test of the trigger key behind the
-- hotkeys returns `false` either way.
unfoldable pub dispatch_key : List Key → ℕ → KeyEvent → PrivateState → Option (Bool × PrivateState)
unfolding find_handle
dispatch_key trigger_key group_size event s =
    let valid = ltb 0 group_size in
    if not event.is_release
    then key_pressed trigger_key valid event s
    else key_released trigger_key valid event s

-- In the branch of an input method's event, the frontend addon whose `handleEvent` is called for a context
-- that has the index `frontend`.
abbrev pub frontend_target : AddonManager → ℕ → Option ℕ
frontend_target m frontend =
    if ltb frontend (length m.frontends) then get_elem? m.frontends frontend else none

-- The groups: an input method is a number, NULL is `none`. `local_input_methods` has an entry for every
-- context, `none` where it has no state or no array.
pub record Instance : Type 0 where
  pub group : ℤ
  pub global_input_method : List (Option ℕ)
  pub local_input_methods : List (Option (List (Option ℕ)))

-- `fcitx_instance_set_input_method_group`.
abbrev pub set_input_method_group : ℤ → Instance → Instance
set_input_method_group (negsuc n) i = record i { group = negsuc n }
set_input_method_group (pos n) i =
    if leb (length i.global_input_method) n then i else record i { group = pos n }

-- `fcitx_instance_input_method_group_reset_foreach`.
abbrev pub clear_local : Option (List (Option ℕ)) → Option (List (Option ℕ))
clear_local none = none
clear_local (some input_methods) = some []

pub data GroupEvent : Type 0 where
  group_about_to_reset group_reset new_group other_event : GroupEvent

abbrev pub enter_first : ℤ → Instance → Instance
enter_first (negsuc n) i = set_input_method_group (pos 0) i
enter_first (pos n) i = i

-- The branch of an event of the input method manager.
unfoldable pub dispatch_group : GroupEvent → Instance → Instance
dispatch_group group_about_to_reset i = i
dispatch_group group_reset i = set_input_method_group (negsuc 0) (record i {
  global_input_method = [];
  local_input_methods = map clear_local i.local_input_methods;
})
dispatch_group new_group i =
    let i₁ : Instance = record i { global_input_method = i.global_input_method ++ none ∷ [] } in
    enter_first i₁.group i₁
dispatch_group other_event i = i

-- `ET_EventTypeFlag`, `ET_InputContextEventFlag`, `ET_InputMethodEventFlag`, `ET_InputMethodManagerEventFlag` and
-- `ET_InputContextKeyEvent`.
abbrev pub event_type_flag : ℕ
event_type_flag = 0xffff_0000

abbrev pub input_context_event_flag : ℕ
input_context_event_flag = 0x1000

abbrev pub input_method_event_flag : ℕ
input_method_event_flag = 0x2000

abbrev pub input_method_manager_event_flag : ℕ
input_method_manager_event_flag = 0x4000

abbrev pub key_event_type : ℕ
key_event_type = 0x1005

-- The cases of the manager's events.
abbrev pub group_event : ℕ → GroupEvent
group_event event_type =
    if event_type == 0x4001
    then group_about_to_reset
    else if event_type == 0x4002
    then group_reset
    else if event_type == 0x4003
    then new_group
    else other_event

-- An event, with the details of a key event, and the index of the frontend of its context.
pub record DispatchedEvent : Type 0 where
  pub event_type : ℕ
  pub key_event : KeyEvent
  pub frontend : ℕ

-- What the dispatch reads. `handle_event` is what `handleEvent` of a frontend addon returns.
pub record Environment : Type 0 where
  pub trigger_key : List Key
  pub group_size : ℕ
  pub addon_manager : AddonManager
  pub handle_event : ℕ → DispatchedEvent → Bool

-- What it changes: the private state of the event's context, the groups, and the calls of `handleEvent`, by
-- the addon, the newest first.
pub record DispatchState : Type 0 where
  pub private_state : PrivateState
  pub groups : Instance
  pub handled_by : List ℕ

abbrev pub with_private :
    Option (Bool × PrivateState) → DispatchState → Option (Bool × DispatchState)
with_private none s = none
with_private (some (handled, private_state)) s =
    some (handled, record s { private_state = private_state })

abbrev pub dispatch_to :
    Option ℕ → Environment → DispatchedEvent → DispatchState → Option (Bool × DispatchState)
dispatch_to none env event s = some (false, s)
dispatch_to (some addon) env event s =
    some (env.handle_event addon event, record s { handled_by = addon ∷ s.handled_by })

abbrev pub has_flag : ℕ → DispatchedEvent → Bool
has_flag flag event = bit_and event.event_type event_type_flag == flag

-- `fcitx_instance_event_dispatch`, `none` for a call of a callback that is NULL.
unfoldable pub event_dispatch :
    Environment → DispatchedEvent → DispatchState → Option (Bool × DispatchState)
unfolding dispatch_key dispatch_group
event_dispatch env event s =
    if has_flag input_context_event_flag event
    then (if event.event_type == key_event_type
        then with_private
            (dispatch_key env.trigger_key env.group_size event.key_event s.private_state) s
        else some (false, s))
    else if has_flag input_method_event_flag event
    then dispatch_to (frontend_target env.addon_manager event.frontend) env event s
    else if has_flag input_method_manager_event_flag event
    then some (false, record s { groups = dispatch_group (group_event event.event_type) s.groups })
    else some (false, s)

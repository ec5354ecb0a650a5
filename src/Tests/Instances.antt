-- ===== src/Tests/Instances.antt =====
-- instance.c on a concrete manager and concrete events: runs, and the theorems where their hypotheses hold.
use fcitx_ng.Prelude.{ℕ, ◌≡◌, refl, true, false, none, some, List, [], ◌∷◌, pos}
use fcitx_ng.Key.{Key}
use fcitx_ng.Addon.{fac_frontend, Addon, AddonApi, AddonManager}
use fcitx_ng.Instance.{
  PrivateState, KeyEvent, Instance, new_group, group_reset, dispatch_group, dispatch_key,
  find_handle, DispatchedEvent, Environment, DispatchState, event_dispatch,
}
use fcitx_ng.Instance.Dispatch.{event_dispatch-unhandled}

abbrev api : AddonApi
api = record { init = some (some 1); destroy = true; register_callback = none; frontend_id = 9 }

-- A frontend, in the memory of a manager that has one frontend already.
abbrev addon : ℕ → Addon
addon p = record {
  config = record {
    name = 97 ∷ [];
    addon_type = 83 ∷ [];
    category = fac_frontend;
    library = [];
    enabled = true;
    dependency = [];
  };
  loaded = false;
  dependencies = [];
  inst = record { api = some api; payload = none; resolver_data = none; functions = none };
}

abbrev manager : AddonManager
manager = record {
  resolvers = [];
  standard_path = λ name. none;
  store = addon;
  next_addon = 2;
  addons = 0 ∷ 1 ∷ [];
  enabled_addons = none;
  disabled_addons = none;
  disabled_all_addons = false;
  loaded_addons = 0 ∷ [];
  loaded = false;
  frontends = 0 ∷ [];
  ims = [];
  properties = [];
}

-- Two groups, of which the second is the current one.
abbrev two_groups : Instance
two_groups = record {
  group = pos 1;
  global_input_method = none ∷ some 4 ∷ [];
  local_input_methods = some (some 3 ∷ []) ∷ none ∷ [];
}

-- After a reset, the first new group becomes the current one.
reset_and_new : dispatch_group new_group (dispatch_group group_reset two_groups) ≡ record {
  group = pos 0;
  global_input_method = none ∷ [];
  local_input_methods = some [] ∷ none ∷ [];
}
unfolding dispatch_group
reset_and_new = refl

-- Control and the space bar.
abbrev trigger : List Key
trigger = record { sym = 32; state = 4 } ∷ []

abbrev press : KeyEvent
press = record { key = record { sym = 32; state = 4 }; is_release = false; time = 1000 }

abbrev idle : PrivateState
idle = record { last_key_pressed_time = 0; released_key = 0 }

-- The branch of key events would set the time of the last press.
press_timed :
    dispatch_key trigger 2 press idle
    ≡ some (false, record { last_key_pressed_time = 1000; released_key = 0 })
unfolding dispatch_key find_handle
press_timed = refl

abbrev environment : Environment
environment = record {
  trigger_key = trigger;
  group_size = 2;
  addon_manager = manager;
  handle_event = λ addon event. true;
}

-- `ET_InputContextKeyEvent`.
abbrev key_event : DispatchedEvent
key_event = record { event_type = 0x1005; key_event = press; frontend = 0 }

abbrev start : DispatchState
start = record { private_state = idle; groups = two_groups; handled_by = [] }

event_dispatch-unhandled_example : event_dispatch environment key_event start ≡ some (false, start)
event_dispatch-unhandled_example = event_dispatch-unhandled environment key_event start

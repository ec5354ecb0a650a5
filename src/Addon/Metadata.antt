-- ===== src/Addon/Metadata.antt =====
-- addon.c: `_fcitx_addon_load_metadata` on the configuration that has been read from an addon's files, and
-- `fcitx_addon_manager_set_override`.
pub mod Registers
pub mod Described
use fcitx_ng.Prelude.{
  ℕ, zero, suc, ◌+◌, ◌≤◌, ◌<◌, ◌≡◌, ◌≢◌, ◌⊎◌, inl, inr, refl, sym, ap, ◌∙◌, Bool, true, false, not,
  ◌&&◌, ◌||◌, Option, none, some, List, [], ◌∷◌, ◌++◌, leb, ◌==◌, ==_iff, if◌then◌else◌, length,
  get_elem?, arith, Bool-cases, Option-cases, elem, subst,
}
use fcitx_ng.Strings.{Text}
use fcitx_ng.HashSet.{same_key, StringHashSet, contains, parse}
use fcitx_ng.Addon.{
  Addon, AddonConfig, AddonManager, AddonInstance, AddonResolver, fac_last, lookup, find_addon,
  update, set_addon, set_enabled,
}

-- `fcitx_addon_new`.
abbrev pub addon_new : AddonConfig → Addon
addon_new config = record {
  config = config;
  loaded = false;
  dependencies = [];
  inst = record { api = none; payload = none; resolver_data = none; functions = none };
}

abbrev pub is_complete : AddonConfig → Bool
is_complete config =
    not (length config.name == 0 || length config.addon_type == 0 || leb fac_last config.category)

abbrev pub contains_opt : Option StringHashSet → Text → Bool
contains_opt none name = false
contains_opt (some sset) name = contains sset name

-- Whether the addon is enabled once both lists have been looked at.
abbrev pub override : AddonManager → Text → Bool → Bool
override m name enabled =
    let kept : Bool =
      if m.disabled_all_addons || contains_opt m.disabled_addons name then false else enabled in
    if contains_opt m.enabled_addons name then true else kept

-- The end: the dependencies and the overrides of the addon `p`.
abbrev pub set_dependencies : ℕ → AddonManager → AddonManager
set_dependencies p m =
    let a = m.store p in
    set_addon p
      (set_enabled (override m a.config.name a.config.enabled)
        (record a { dependencies = parse a.config.dependency 44 }))
      m

-- An addon that runs is not touched.
abbrev pub known_when : Bool → ℕ → AddonConfig → AddonManager → AddonManager
known_when true p config m = m
known_when false p config m =
    set_dependencies p (set_addon p (record (m.store p) { config = config }) m)

abbrev pub known_metadata : ℕ → AddonConfig → AddonManager → AddonManager
known_metadata p config m = known_when (m.store p).loaded p config m

abbrev pub new_metadata : AddonConfig → AddonManager → AddonManager
new_metadata config m =
    let p = m.next_addon in
    set_dependencies p (record (set_addon p (addon_new config) m) {
      addons = m.addons ++ p ∷ [];
      next_addon = p + 1;
    })

abbrev pub found_metadata : Option ℕ → AddonConfig → AddonManager → AddonManager
found_metadata none config m = new_metadata config m
found_metadata (some p) config m = known_metadata p config m

unfoldable pub load_metadata : AddonConfig → AddonManager → AddonManager
load_metadata config m =
    if is_complete config
    then found_metadata (find_addon config.name m.store m.addons) config m
    else m

-- `fcitx_dict_foreach(fileDict, _fcitx_addon_load_metadata, manager)`.
unfoldable pub load_all_metadata : List AddonConfig → AddonManager → AddonManager
unfolding load_metadata
load_all_metadata [] m = m
load_all_metadata (config ∷ configs) m = load_all_metadata configs (load_metadata config m)

abbrev parse_opt : Option Text → Option StringHashSet
parse_opt none = none
parse_opt (some str) = some (parse str 44)

-- "all".
abbrev all_name : Text
all_name = 97 ∷ 108 ∷ 108 ∷ []

unfoldable pub set_override : Option Text → Option Text → AddonManager → AddonManager
set_override enabled disabled m = record m {
  enabled_addons = parse_opt enabled;
  disabled_addons = parse_opt disabled;
  disabled_all_addons = contains_opt (parse_opt disabled) all_name;
}

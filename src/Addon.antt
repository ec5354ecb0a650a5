-- ===== src/Addon.antt =====
-- lib/fcitx/addon.c: the addons of a manager, their configuration, resolvers and load order.
-- A pointer to a `FcitxAddon` is a number, and the structure behind it is a function of that. A dictionary is
-- the list of its items in the order of its hash table. What the files, the libraries and the functions of an
-- addon give is part of the state: `standard_path` finds a library by its name, and `init` of an addon's
-- functions returns what `FcitxAddonAPICommon.init` returns, which does not call the manager back.
pub mod Frame
pub mod Ready
pub mod Visit
pub mod Rounds
pub mod Order
pub mod Metadata
pub mod Load
pub mod Waits
pub mod Unload
pub mod Invoke
pub mod Properties
use fcitx_ng.Prelude.{
  ℕ, zero, suc, ◌+◌, ◌%◌, ◌^◌, ◌<◌, Bool, true, false, not, ◌&&◌, ◌||◌, Option, none, some, List,
  [], ◌∷◌, ◌++◌, ltb, leb, ◌==◌, if◌then◌else◌, length, get_elem?, get_or,
}
use fcitx_ng.Strings.{Text}
use fcitx_ng.Strings.Affix.{string_ends_with}
use fcitx_ng.HashSet.{same_key, StringHashSet, contains, parse}

-- `FcitxAddonCategory`.
abbrev pub fac_input_method : ℕ
fac_input_method = 0

abbrev pub fac_frontend : ℕ
fac_frontend = 1

abbrev pub fac_last : ℕ
fac_last = 5

pub record AddonConfig : Type 0 where
  pub name : Text
  pub addon_type : Text
  pub category : ℕ
  pub library : Text
  pub enabled : Bool
  pub dependency : Text

-- `function` tells whether the pointer is set.
pub record AddonFunctionEntry : Type 0 where
  pub function : Bool
  pub signature : Text

abbrev pub Functions : Type 0
Functions = List (Text × AddonFunctionEntry)

-- A function pointer that is NULL is `none` or `false`; `init` is what a call of it returns.
pub record AddonApi : Type 0 where
  pub init : Option (Option ℕ)
  pub destroy : Bool
  pub register_callback : Option (Option Functions)
  pub frontend_id : ℕ

-- What `fcitx_library_load` and `fcitx_library_resolve` give, for a version and for an addon's functions.
pub record Library : Type 0 where
  pub load : Bool
  pub version : Text → Option ℕ
  pub api : Text → Option AddonApi

pub record AddonInstance : Type 0 where
  pub api : Option AddonApi
  pub payload : Option ℕ
  pub resolver_data : Option Library
  pub functions : Option Functions

pub record Addon : Type 0 where
  pub config : AddonConfig
  pub loaded : Bool
  pub dependencies : StringHashSet
  pub inst : AddonInstance

-- The two resolvers of `fcitx_addon_manager_register_default_resolver`.
pub data AddonResolver : Type 0 where
  static_library : List (Text × AddonApi) → AddonResolver
  shared_library : AddonResolver

-- What unloading calls, with the addon.
pub data UnloadCall : Type 0 where
  destroy_addon : ℕ → UnloadCall
  library_unload : ℕ → UnloadCall

-- `next_addon` is the pointer that the next `fcitx_addon_new` returns.
pub record AddonManager : Type 0 where
  pub resolvers : List (Text × AddonResolver)
  pub standard_path : Text → Option Library
  pub store : ℕ → Addon
  pub next_addon : ℕ
  pub addons : List ℕ
  pub enabled_addons : Option StringHashSet
  pub disabled_addons : Option StringHashSet
  pub disabled_all_addons : Bool
  pub loaded_addons : List ℕ
  pub loaded : Bool
  pub frontends : List ℕ
  pub ims : List ℕ
  pub properties : List (Text × ℕ)

-- `fcitx_dict_lookup_by_str`.
abbrev pub lookup {ℓ} : {A : Type ℓ} → Text → List (Text × A) → Option A
lookup key [] = none
lookup key (item ∷ items) = if same_key item.0 key then some item.1 else lookup key items

-- `fcitx_dict_lookup_by_str(manager->addons, name, &addon)`; an item's key is the name of its addon.
abbrev pub find_addon : Text → (ℕ → Addon) → List ℕ → Option ℕ
find_addon name store [] = none
find_addon name store (p ∷ ps) =
    if same_key (store p).config.name name then some p else find_addon name store ps

abbrev pub update : ℕ → Addon → (ℕ → Addon) → ℕ → Addon
update p a store = λ q. if p == q then a else store q

abbrev pub set_addon : ℕ → Addon → AddonManager → AddonManager
set_addon p a m = record m { store = update p a m.store }

-- `addon->config->addon.enabled = enabled`.
abbrev pub set_enabled : Bool → Addon → Addon
set_enabled enabled a = record a { config = record (a.config) { enabled = enabled } }

abbrev pub disable : ℕ → AddonManager → AddonManager
disable p m = set_addon p (set_enabled false (m.store p)) m

-- The end of `fcitx_addon_init_general`: the lists of the category, and the functions that are called by name.
abbrev pub init_lists : ℕ → AddonManager → AddonManager
init_lists p m =
    let category = (m.store p).config.category in
    if category == fac_frontend
    then record m { frontends = m.frontends ++ p ∷ [] }
    else if category == fac_input_method
    then record m { ims = m.ims ++ p ∷ [] }
    else m

abbrev pub register_functions : AddonApi → AddonInstance → AddonInstance
register_functions api inst = elim (api.register_callback) [
  | none ↦ inst
  | some functions ↦ record inst { functions = functions }
]

abbrev pub set_api : Option AddonApi → ℕ → AddonManager → AddonManager
set_api api p m =
    set_addon p (record (m.store p) { inst = record ((m.store p).inst) { api = api } }) m

-- A frontend is told its index in `manager->frontends`.
abbrev pub with_frontend_id : AddonApi → ℕ → AddonManager → AddonApi
with_frontend_id api p m =
    if (m.store p).config.category == fac_frontend
    then record api { frontend_id = length m.frontends % 2 ^ 32 }
    else api

abbrev pub init_inst : Option ℕ → AddonApi → ℕ → AddonManager → AddonInstance
init_inst result api p m = record ((m.store p).inst) {
  api = some (with_frontend_id api p m);
  payload = result;
}

abbrev pub set_inst : AddonInstance → ℕ → AddonManager → AddonManager
set_inst inst p m = set_addon p (record (m.store p) { inst = inst }) m

-- `fcitx_addon_init_general` behind its first test, with what `init` returns.
abbrev pub init_with : Option ℕ → AddonApi → ℕ → AddonManager → Bool × AddonManager
init_with none api p m = (false, set_inst (init_inst none api p m) p m)
init_with (some payload) api p m =
    (true, init_lists p (set_inst (register_functions api (init_inst (some payload) api p m)) p m))

abbrev pub init_checked : Bool → Option ℕ → AddonApi → ℕ → AddonManager → Bool × AddonManager
init_checked false result api p m = (false, m)
init_checked true result api p m = init_with result api p m

abbrev pub init_called : Option (Option ℕ) → AddonApi → ℕ → AddonManager → Bool × AddonManager
init_called none api p m = (false, m)
init_called (some result) api p m = init_checked api.destroy result api p m

abbrev pub init_from : Option AddonApi → ℕ → AddonManager → Bool × AddonManager
init_from none p m = (false, m)
init_from (some api) p m = init_called api.init api p m

-- `fcitx_addon_init_general` on the addon `p`, with its `inst.api` set.
abbrev pub init_general : ℕ → AddonManager → Bool × AddonManager
init_general p m = init_from (m.store p).inst.api p m

-- `_fcitx_library_get_symbol`: the name that is looked up, with `_` for `-`.
abbrev pub escape_symbol : Text → Text
escape_symbol [] = []
escape_symbol (c ∷ s) = (if c == 45 then 95 else c) ∷ escape_symbol s

abbrev pub symbol_name : Text → Text → Text
symbol_name addon_name symbol = escape_symbol (addon_name ++ 95 ∷ symbol)

-- "ABI_VERSION".
abbrev pub abi_version_symbol : Text
abi_version_symbol = 65 ∷ 66 ∷ 73 ∷ 95 ∷ 86 ∷ 69 ∷ 82 ∷ 83 ∷ 73 ∷ 79 ∷ 78 ∷ []

abbrev pub abi_version : ℕ
abi_version = 6

-- `addonType`: "inputmethod", "frontend", "module", "ui" and "addonresolver".
abbrev pub addon_type_names : List Text
addon_type_names =
    (105 ∷ 110 ∷ 112 ∷ 117 ∷ 116 ∷ 109 ∷ 101 ∷ 116 ∷ 104 ∷ 111 ∷ 100 ∷ [])
    ∷ (102 ∷ 114 ∷ 111 ∷ 110 ∷ 116 ∷ 101 ∷ 110 ∷ 100 ∷ [])
    ∷ (109 ∷ 111 ∷ 100 ∷ 117 ∷ 108 ∷ 101 ∷ [])
    ∷ (117 ∷ 105 ∷ [])
    ∷ (97 ∷ 100 ∷ 100 ∷ 111 ∷ 110 ∷ 114 ∷ 101 ∷ 115 ∷ 111 ∷ 108 ∷ 118 ∷ 101 ∷ 114 ∷ [])
    ∷ []

-- `FCITX_LIBRARY_SUFFIX`, ".so" in CMakeLists.txt.
abbrev pub library_suffix : Text
library_suffix = 46 ∷ 115 ∷ 111 ∷ []

abbrev pub library_name : Text → Text
library_name library =
    if string_ends_with library library_suffix then library else library ++ library_suffix

abbrev pub check_version : Option ℕ → Library → AddonConfig → Option AddonApi
check_version none library config = none
check_version (some version) library config =
    if version == abi_version
    then library.api (symbol_name config.name (get_or addon_type_names config.category []))
    else none

-- The checks of `fcitx_shared_library_resolve` on a library that has been found: the functions of the addon.
abbrev pub checked_api : Library → AddonConfig → Option AddonApi
checked_api library config =
    if library.load
    then check_version (library.version (symbol_name config.name abi_version_symbol)) library config
    else none

-- The end of both resolvers: `addonInst->resolverData = data` when `fcitx_addon_init_general` succeeds.
abbrev pub set_resolver_data : Option Library → ℕ → Bool × AddonManager → Bool × AddonManager
set_resolver_data found p (false, m) = (false, m)
set_resolver_data found p (true, m) = (
  true,
  set_addon p (record (m.store p) { inst = record ((m.store p).inst) { resolver_data = found } }) m,
)

abbrev pub shared_checked : Option AddonApi → Library → ℕ → AddonManager → Bool × AddonManager
shared_checked none library p m = (false, m)
shared_checked (some api) library p m =
    set_resolver_data (some library) p (init_general p (set_api (some api) p m))

abbrev pub shared_found : Option Library → ℕ → AddonManager → Bool × AddonManager
shared_found none p m = (false, m)
shared_found (some library) p m =
    shared_checked (checked_api library (m.store p).config) library p m

-- `fcitx_shared_library_resolve`.
abbrev pub shared_library_resolve : ℕ → AddonManager → Bool × AddonManager
shared_library_resolve p m =
    shared_found (m.standard_path (library_name (m.store p).config.library)) p m

-- `fcitx_static_library_resolve`: `inst.api` stays what it was when the name is not found.
abbrev pub static_api : Option AddonApi → ℕ → AddonManager → AddonManager
static_api none p m = m
static_api (some api) p m = set_api (some api) p m

abbrev pub static_library_resolve : List (Text × AddonApi) → ℕ → AddonManager → Bool × AddonManager
static_library_resolve static_addons p m =
    set_resolver_data none p
      (init_general p (static_api (lookup (m.store p).config.name static_addons) p m))

-- `resolver->resolve(...)`.
abbrev pub resolve : AddonResolver → ℕ → AddonManager → Bool × AddonManager
resolve (static_library static_addons) p m = static_library_resolve static_addons p m
resolve shared_library p m = shared_library_resolve p m

abbrev pub finish_load : ℕ → Bool × AddonManager → AddonManager
finish_load p (false, m) = disable p m
finish_load p (true, m) = record (set_addon p (record (m.store p) { loaded = true }) m) {
  loaded_addons = m.loaded_addons ++ p ∷ [];
}

abbrev pub load_with : Option AddonResolver → ℕ → AddonManager → AddonManager
load_with none p m = disable p m
load_with (some resolver) p m = finish_load p (resolve resolver p m)

-- `_fcitx_addon_manager_load_addon`.
unfoldable pub load_addon : ℕ → AddonManager → AddonManager
load_addon p m =
    if (m.store p).loaded
    then m
    else load_with (lookup (m.store p).config.addon_type m.resolvers) p m

abbrev pub check_dependency : Option ℕ → Option Bool → AddonManager → Option Bool
check_dependency none rest m = none
check_dependency (some q) none m = none
check_dependency (some q) (some all_loaded) m = some ((m.store q).loaded && all_loaded)

-- The loop over the dependencies: `none` when one of them is no addon, else whether all are loaded.
unfoldable pub check_dependencies : StringHashSet → AddonManager → Option Bool
check_dependencies [] m = some true
check_dependencies (key ∷ dependencies) m =
    check_dependency (find_addon key m.store m.addons) (check_dependencies dependencies m) m

-- The end of the body of the loop over the addons: whether `update` is set, and the manager.
abbrev pub visit_checked : Option Bool → ℕ → AddonManager → Bool × AddonManager
visit_checked none p m = (true, disable p m)
visit_checked (some all_loaded) p m = (false, if all_loaded then load_addon p m else m)

unfoldable pub visit_addon : ℕ → AddonManager → Bool × AddonManager
unfolding check_dependencies
visit_addon p m =
    if not (m.store p).config.enabled
    then (false, m)
    else visit_checked (check_dependencies (m.store p).dependencies m) p m

-- One round of the `do` loop, from the addons that are left.
unfoldable pub load_round : List ℕ → AddonManager → Bool × AddonManager
unfolding visit_addon
load_round [] m = (false, m)
load_round (p ∷ ps) m =
    let step = visit_addon p m in let rest = load_round ps step.1 in (step.0 || rest.0, rest.1)

-- The `do` loop, `none` when the fuel runs out.
unfoldable pub load_rounds : ℕ → AddonManager → Option AddonManager
unfolding load_round
load_rounds zero m = none
load_rounds (suc fuel) m =
    let round = load_round m.addons m in
    let again = load_rounds fuel round.1 in if round.0 then again else some round.1

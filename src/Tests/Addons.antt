-- ===== src/Tests/Addons.antt =====
-- addon.c and stringhashset.c on concrete managers and sets: runs, and the theorems where their hypotheses hold.
use fcitx_ng.Prelude.{
  ◌+◌, length, ℕ, ◌≡◌, ◌<◌, ◌⊎◌, refl, true, false, Option, none, some, List, [], ◌∷◌, ◌++◌,
  get_elem?, arith,
}
use fcitx_ng.Strings.{Text, strchr}
use fcitx_ng.Strings.Affix.{string_ends_with, strncmp}
use fcitx_ng.HashSet.{parse_from, parse, join, joined}
use fcitx_ng.HashSet.Parse.{Joinable, has_byte, join-parse}
use fcitx_ng.Addon.{
  Addon, AddonConfig, AddonApi, AddonManager, AddonFunctionEntry, static_library, UnloadCall,
  load_addon, check_dependencies, visit_addon, load_round, load_rounds, find_addon,
}
use fcitx_ng.Addon.Rounds.{is_enabled}
use fcitx_ng.Addon.Order.{IsOrdered}
use fcitx_ng.Addon.Metadata.{load_metadata, load_all_metadata}
use fcitx_ng.Addon.Metadata.Described.{Described, load_metadata-Described}
use fcitx_ng.Addon.Load.{
  manager_new, register_resolver, manager_load, manager_new-IsOrdered, register_resolver-IsOrdered,
  manager_load-IsOrdered, manager_load-ends, all_loaded,
}
use fcitx_ng.Addon.Waits.{is_loaded, WaitsFor, manager_load-waits}
use fcitx_ng.Addon.Unload.{
  manager_unload, unload_loop, Unloads, manager_unload-Unloads, DestroysBefore,
  manager_unload_order,
}
use fcitx_ng.Addon.Invoke.{
  FfiCall, IsWellFormed, manager_invoke, prepare_call, set_types, valid_from, arg_to_ffi_args,
}
use fcitx_ng.Addon.Invoke.Types.{manager_invoke-IsWellFormed}

-- The keys "ab" and "c".
abbrev two_keys : List Text
two_keys = (97 ∷ 98 ∷ []) ∷ (99 ∷ []) ∷ []

two_keys_joined : join (some two_keys) 44 ≡ some (97 ∷ 98 ∷ 44 ∷ 99 ∷ [])
unfolding join joined
two_keys_joined = refl

-- A last key that is empty is lost.
empty_key_lost : parse (97 ∷ 44 ∷ []) 44 ≡ (97 ∷ []) ∷ []
unfolding parse_from
empty_key_lost = refl

two_keys-Joinable : Joinable 44 [] two_keys
unfolding Joinable has_byte
two_keys-Joinable = (refl, (refl, (refl, (refl, omega arith))))

join-parse_example :
    (text : Text) × ((join (some two_keys) 44 ≡ some text) × (parse text 44 ≡ two_keys))
join-parse_example = join-parse 44 two_keys two_keys-Joinable

abbrev entry : AddonFunctionEntry
entry = record { function = true; signature = 105 ∷ 97 ∷ 117 ∷ [] }

-- The functions of an addon: `init` returns a pointer, and "f" can be called by name.
abbrev api : AddonApi
api = record {
  init = some (some 1);
  destroy = true;
  register_callback = some (some ((102 ∷ [], entry) ∷ []));
  frontend_id = 0;
}

abbrev config : Text → Text → AddonConfig
config name dependency = record {
  name = name;
  addon_type = 83 ∷ [];
  category = 2;
  library = [];
  enabled = true;
  dependency = dependency;
}

abbrev memory : ℕ → Addon
memory p = record {
  config = config [] [];
  loaded = false;
  dependencies = [];
  inst = record { api = none; payload = none; resolver_data = none; functions = none };
}

-- A resolver "S" for the static addons "a" and "b".
abbrev manager : AddonManager
manager =
    register_resolver (83 ∷ []) (static_library ((97 ∷ [], api) ∷ (98 ∷ [], api) ∷ []))
      (manager_new (λ name. none) memory)

abbrev loaded_list : Option AddonManager → List ℕ
loaded_list none = []
loaded_list (some m) = m.loaded_addons

-- "b" depends on "a", which is read first: both are loaded.
abbrev in_order : List AddonConfig
in_order = config (97 ∷ []) [] ∷ config (98 ∷ []) (97 ∷ []) ∷ []

both_loaded : loaded_list (manager_load 3 in_order manager) ≡ 0 ∷ 1 ∷ []
unfolding manager_load manager_new load_rounds load_round visit_addon load_addon check_dependencies
    load_all_metadata load_metadata parse_from string_ends_with strncmp
both_loaded = refl

-- "a" depends on "b", which is read later: "a" stays enabled and is never loaded.
abbrev out_of_order : List AddonConfig
out_of_order = config (97 ∷ []) (98 ∷ []) ∷ config (98 ∷ []) [] ∷ []

one_loaded : loaded_list (manager_load 3 out_of_order manager) ≡ 1 ∷ []
unfolding manager_load manager_new load_rounds load_round visit_addon load_addon check_dependencies
    load_all_metadata load_metadata parse_from string_ends_with strncmp
one_loaded = refl

-- A second load, with "a" still in the dictionary and not loaded, deletes its item twice.
abbrev or_manager : Option AddonManager → AddonManager
or_manager none = manager
or_manager (some m) = m

item_deleted_twice :
    manager_load 3 out_of_order (or_manager (manager_load 3 out_of_order manager)) ≡ none
unfolding manager_load manager_new load_rounds load_round visit_addon load_addon check_dependencies
    load_all_metadata load_metadata parse_from string_ends_with strncmp
item_deleted_twice = refl

manager-IsOrdered : IsOrdered manager
manager-IsOrdered =
    register_resolver-IsOrdered (83 ∷ []) (static_library ((97 ∷ [], api) ∷ (98 ∷ [], api) ∷ []))
      (manager_new (λ name. none) memory) (manager_new-IsOrdered (λ name. none) memory)

abbrev both : AddonManager
both = or_manager (manager_load 3 in_order manager)

both_facts :
    (manager_load 3 in_order manager ≡ some both)
    × ((both.loaded ≡ true)
        × ((is_loaded 1 both ≡ true) × (get_elem? (both.store 1).dependencies 0 ≡ some (97 ∷ []))))
unfolding manager_load manager_new load_rounds load_round visit_addon load_addon check_dependencies
    load_all_metadata load_metadata parse_from string_ends_with strncmp
both_facts = (refl, (refl, (refl, refl)))

abbrev one : AddonManager
one = or_manager (manager_load 3 out_of_order manager)

one_facts :
    (manager_load 3 out_of_order manager ≡ some one)
    × ((one.addons ≡ [] ++ 0 ∷ 1 ∷ []) × ((is_enabled 0 one ≡ true) × (is_loaded 0 one ≡ false)))
unfolding manager_load manager_new load_rounds load_round visit_addon load_addon check_dependencies
    load_all_metadata load_metadata parse_from string_ends_with strncmp
one_facts = (refl, (refl, (refl, refl)))

none_left : all_loaded manager.store manager.addons ≡ true
unfolding manager_new
none_left = refl

few_enough : length manager.addons + length in_order < 3
unfolding manager_new
few_enough = omega arith

manager_load-ends_example : (n : AddonManager) × (manager_load 3 in_order manager ≡ some n)
manager_load-ends_example = manager_load-ends 3 in_order manager none_left few_enough

manager_load-IsOrdered_example : IsOrdered both
manager_load-IsOrdered_example =
    manager_load-IsOrdered 3 in_order manager both manager-IsOrdered both_facts.0

manager_load-waits_example : WaitsFor 0 (1 ∷ []) one
manager_load-waits_example =
    manager_load-waits 3 out_of_order manager one one_facts.0 [] 0 (1 ∷ []) one_facts.1.0
      one_facts.1.1.0 one_facts.1.1.1

load_metadata-Described_example :
    (p : ℕ) × (((find_addon (97 ∷ []) manager.store manager.addons ≡ some p)
        × (((manager.store p).loaded ≡ true)
            × (load_metadata (config (97 ∷ []) []) manager ≡ manager)))
      ⊎ Described (config (97 ∷ []) []) p manager (load_metadata (config (97 ∷ []) []) manager))
load_metadata-Described_example =
    load_metadata-Described (config (97 ∷ []) []) manager manager-IsOrdered refl

manager_unload-Unloads_example :
    (calls : List UnloadCall) × ((n : AddonManager) × ((manager_unload both ≡ some (calls, n))
        × Unloads both n calls))
manager_unload-Unloads_example =
    manager_unload-Unloads both
      (manager_load-IsOrdered 3 in_order manager both manager-IsOrdered both_facts.0) both_facts.1.0

abbrev or_calls : Option (List UnloadCall × AddonManager) → List UnloadCall × AddonManager
or_calls none = ([], manager)
or_calls (some rest) = rest

abbrev unloaded : List UnloadCall × AddonManager
unloaded = or_calls (manager_unload both)

unloaded_result : manager_unload both ≡ some (unloaded.0, unloaded.1)
unfolding manager_unload unload_loop manager_load manager_new load_rounds load_round visit_addon
    load_addon check_dependencies load_all_metadata load_metadata parse_from string_ends_with
    strncmp
unloaded_result = refl

manager_unload_order_example : DestroysBefore both unloaded.0 1 (97 ∷ [])
manager_unload_order_example =
    manager_unload_order both unloaded.1 unloaded.0
      (manager_load-IsOrdered 3 in_order manager both manager-IsOrdered both_facts.0) both_facts.1.0
      unloaded_result 1 0 (97 ∷ []) both_facts.1.1.0 both_facts.1.1.1

abbrev or_call : Option FfiCall → FfiCall
or_call none = record { nargs = 0; ffi_rettype = none; ffi_types = [] }
or_call (some call) = call

abbrev called : FfiCall
called = or_call (manager_invoke (97 ∷ []) (102 ∷ []) both)

called_result : manager_invoke (97 ∷ []) (102 ∷ []) both ≡ some called
unfolding manager_invoke prepare_call set_types valid_from arg_to_ffi_args strchr manager_load
    manager_new load_rounds load_round visit_addon load_addon check_dependencies load_all_metadata
    load_metadata parse_from string_ends_with strncmp
called_result = refl

manager_invoke-IsWellFormed_example : IsWellFormed called
manager_invoke-IsWellFormed_example =
    manager_invoke-IsWellFormed (97 ∷ []) (102 ∷ []) both called called_result

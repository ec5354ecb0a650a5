-- ===== src/Addon/Load.antt =====
-- addon.c: `fcitx_addon_manager_new` and `fcitx_addon_manager_load`.
use fcitx_ng.Prelude.{
  ◌==◌, ==_iff, not, ◌&&◌, ◌∙◌, ℕ, ◌+◌, ◌≤◌, ◌<◌, ◌≡◌, inl, inr, refl, ap, Bool, true, false,
  Option, none, some, List, [], ◌∷◌, ◌++◌, if◌then◌else◌, length, length-append, arith, Bool-cases,
  Option-cases, elem, subst,
}
use fcitx_ng.Strings.{Text}
use fcitx_ng.Addon.{
  AddonApi, static_library, shared_library, Addon, AddonConfig, AddonManager, AddonResolver,
  Library, find_addon, lookup, load_rounds,
}
use fcitx_ng.Addon.Rounds.{enabled_count, load_rounds_end, load_rounds_keeps}
use fcitx_ng.Addon.Order.{IsOrdered, Visit-IsOrdered}
use fcitx_ng.Addon.Metadata.{
  is_complete, load_metadata, load_all_metadata, found_metadata, known_when,
}
use fcitx_ng.Addon.Metadata.Registers.{load_all_metadata-IsOrdered}

-- `fcitx_addon_manager_new`, with the files that can be found and the memory of the addons to come.
unfoldable pub manager_new : (Text → Option Library) → (ℕ → Addon) → AddonManager
manager_new standard_path memory = record {
  resolvers = [];
  standard_path = standard_path;
  store = λ p. record (memory p) { loaded = false };
  next_addon = 0;
  addons = [];
  enabled_addons = none;
  disabled_addons = none;
  disabled_all_addons = false;
  loaded_addons = [];
  loaded = false;
  frontends = [];
  ims = [];
  properties = [];
}

abbrev pub insert_new :
    Option AddonApi → Text × AddonApi → List (Text × AddonApi) → List (Text × AddonApi)
insert_new (some old) item dict = dict
insert_new none item dict = dict ++ item ∷ []

-- `fcitx_addon_manager_register_resolver`: a name that is there keeps its resolver.
abbrev pub register_with : Option AddonResolver → Text → AddonResolver → AddonManager → AddonManager
register_with (some old) name resolver m = m
register_with none name resolver m = record m { resolvers = m.resolvers ++ (name, resolver) ∷ [] }

abbrev pub register_resolver : Text → AddonResolver → AddonManager → AddonManager
register_resolver name resolver m = register_with (lookup name m.resolvers) name resolver m

-- The loop of `fcitx_addon_manager_register_default_resolver`: a name that is there keeps its functions.
abbrev pub static_dict : List (Text × AddonApi) → List (Text × AddonApi) → List (Text × AddonApi)
static_dict dict [] = dict
static_dict dict (static_addon ∷ static_addons) =
    static_dict (insert_new (lookup static_addon.0 dict) static_addon dict) static_addons

-- "StaticLibrary" and "SharedLibrary".
abbrev pub static_library_name : Text
static_library_name = 83 ∷ 116 ∷ 97 ∷ 116 ∷ 105 ∷ 99 ∷ 76 ∷ 105 ∷ 98 ∷ 114 ∷ 97 ∷ 114 ∷ 121 ∷ []

abbrev pub shared_library_name : Text
shared_library_name = 83 ∷ 104 ∷ 97 ∷ 114 ∷ 101 ∷ 100 ∷ 76 ∷ 105 ∷ 98 ∷ 114 ∷ 97 ∷ 114 ∷ 121 ∷ []

abbrev pub register_default_resolver : List (Text × AddonApi) → AddonManager → AddonManager
register_default_resolver static_addons m =
    register_resolver shared_library_name shared_library
      (register_resolver static_library_name (static_library (static_dict [] static_addons)) m)

-- `HASH_DEL` on the items of a dictionary: an item that is not in the table cannot be taken out of it.
abbrev pub without_item : ℕ → List ℕ → List ℕ
without_item p [] = []
without_item p (q ∷ ps) = if q == p then without_item p ps else q ∷ without_item p ps

abbrev pub hash_del : ℕ → Option (List ℕ) → Option (List ℕ)
hash_del p none = none
hash_del p (some ps) = if elem p ps then some (without_item p ps) else none

-- `fcitx_dict_remove_data`, which calls `HASH_DEL` twice.
abbrev pub dict_remove_data : ℕ → Option (List ℕ) → Option (List ℕ)
dict_remove_data p items = hash_del p (hash_del p items)

-- The first loop of `fcitx_addon_manager_load`, with the items of the dictionary as it leaves them.
abbrev pub remove_loop : (ℕ → Addon) → List ℕ → Option (List ℕ) → Option (List ℕ)
remove_loop store [] items = items
remove_loop store (p ∷ ps) items =
    remove_loop store ps (if not (store p).loaded then dict_remove_data p items else items)

abbrev pub with_items : Option (List ℕ) → AddonManager → Option AddonManager
with_items none m = none
with_items (some ps) m = some (record m { addons = ps })

abbrev pub remove_unloaded : AddonManager → Option AddonManager
remove_unloaded m = with_items (remove_loop m.store m.addons (some m.addons)) m

abbrev pub mark_loaded : AddonManager → AddonManager
mark_loaded m = record m { loaded = true }

abbrev pub finish_rounds : Option AddonManager → Option AddonManager
finish_rounds none = none
finish_rounds (some m) = some (mark_loaded m)

abbrev pub load_removed : ℕ → List AddonConfig → Option AddonManager → Option AddonManager
load_removed fuel configs none = none
load_removed fuel configs (some m) = finish_rounds (load_rounds fuel (load_all_metadata configs m))

-- `fcitx_addon_manager_load`, on the configurations that the files give, `none` when an item is deleted that
-- is not in the dictionary, or when the fuel runs out.
unfoldable pub manager_load : ℕ → List AddonConfig → AddonManager → Option AddonManager
manager_load fuel configs m = load_removed fuel configs (remove_unloaded m)

pub manager_new-IsOrdered :
    (standard_path : Text → Option Library) (memory : ℕ → Addon)
    → IsOrdered (manager_new standard_path memory)
unfolding manager_new
manager_new-IsOrdered standard_path memory = record {
  marked = λ i p h. absurd (ground arith);
  listed = λ p h. absurd (ground arith);
  once = λ i j p h g. absurd (ground arith);
  before = λ i p k d h g. absurd (ground arith);
  resolved = λ i p h. absurd (ground arith);
  callable = λ i p h. absurd (ground arith);
  known = λ p h. absurd (ground arith);
  fresh = λ p h. absurd (ground arith);
}

lookup-append :
    {A : Type 0} (key : Text) (items : List (Text × A)) (item : Text × A) (a : A)
    → lookup key items ≡ some a
    → lookup key (items ++ item ∷ []) ≡ some a
lookup-append key [] item a h = absurd (ground arith)
lookup-append key (first ∷ items) item a h = ground (arith, h, lookup-append key items item a)

register_with-IsOrdered :
    (found : Option AddonResolver) (name : Text) (resolver : AddonResolver) (m : AddonManager)
    → IsOrdered m
    → IsOrdered (register_with found name resolver m)
register_with-IsOrdered (some old) name resolver m o = o
register_with-IsOrdered none name resolver m o = record {
  marked = o.marked;
  listed = o.listed;
  once = o.once;
  before = λ i p k d h g.
      let b = o.before i p k d h g in
      record {
        addon = b.addon;
        found = b.found;
        position = b.position;
        earlier = b.earlier;
        listed = b.listed;
      };
  resolved = λ i p h.
      let r = o.resolved i p h in (r.0, lookup-append _ m.resolvers (name, resolver) r.0 r.1);
  callable = o.callable;
  known = o.known;
  fresh = o.fresh;
}

pub register_resolver-IsOrdered :
    (name : Text) (resolver : AddonResolver) (m : AddonManager)
    → IsOrdered m
    → IsOrdered (register_resolver name resolver m)
register_resolver-IsOrdered name resolver m o =
    register_with-IsOrdered (lookup name m.resolvers) name resolver m o

elem-without_item : (p : ℕ) (ps : List ℕ) → elem p (without_item p ps) ≡ false
elem-without_item p [] = refl
elem-without_item p (q ∷ ps) = ground (arith, elem-without_item p ps, ==_iff q p)

-- The second `HASH_DEL` finds nothing.
dict_remove_data-none : (p : ℕ) (items : Option (List ℕ)) → dict_remove_data p items ≡ none
dict_remove_data-none p none = refl
dict_remove_data-none p (some ps) = ground (arith, elem-without_item p ps)

remove_loop-none : (store : ℕ → Addon) (ps : List ℕ) → remove_loop store ps none ≡ none
remove_loop-none store [] = refl
remove_loop-none store (p ∷ ps) = elim (Bool-cases ((store p).loaded)) [
  | inl e ↦ rw e (remove_loop-none store ps)
  | inr e ↦ rw e (remove_loop-none store ps)
]

-- Every addon of the list is loaded.
abbrev pub all_loaded : (ℕ → Addon) → List ℕ → Bool
all_loaded store [] = true
all_loaded store (p ∷ ps) = (store p).loaded && all_loaded store ps

remove_loop-all_loaded :
    (store : ℕ → Addon) (ps items : List ℕ)
    → remove_loop store ps (some items) ≡ (if all_loaded store ps then some items else none)
remove_loop-all_loaded store [] items = refl
remove_loop-all_loaded store (p ∷ ps) items = elim (Bool-cases ((store p).loaded)) [
  | inl e ↦ rw e (remove_loop-all_loaded store ps items)
  | inr e ↦
      rw e (
        ap (remove_loop store ps) (dict_remove_data-none p (some items))
        ∙ remove_loop-none store ps)
]

-- What the first loop leaves of a manager, if it ends.
remove_unloaded-all_loaded :
    (m : AddonManager) → remove_unloaded m ≡ (if all_loaded m.store m.addons then some m else none)
remove_unloaded-all_loaded m =
    ap (λ (items : Option (List ℕ)). with_items items m)
      (remove_loop-all_loaded m.store m.addons m.addons)
    ∙ elim (Bool-cases (all_loaded m.store m.addons)) [ inl e ↦ rw e refl | inr e ↦ rw e refl ]

mark_loaded-IsOrdered : (m : AddonManager) → IsOrdered m → IsOrdered (mark_loaded m)
mark_loaded-IsOrdered m o = record {
  marked = o.marked;
  listed = o.listed;
  once = o.once;
  before = λ i p k d h g.
      let b = o.before i p k d h g in
      record {
        addon = b.addon;
        found = b.found;
        position = b.position;
        earlier = b.earlier;
        listed = b.listed;
      };
  resolved = o.resolved;
  callable = o.callable;
  known = o.known;
  fresh = o.fresh;
}

pub manager_load_cases :
    (fuel : ℕ) (configs : List AddonConfig) (m n : AddonManager)
    → manager_load fuel configs m ≡ some n
    → (l : AddonManager) × ((load_rounds fuel (load_all_metadata configs m) ≡ some l)
        × (mark_loaded l ≡ n))
unfolding manager_load
manager_load_cases fuel configs m n e =
    elim (Option-cases (load_rounds fuel (load_all_metadata configs m))) [
      | inl f ↦ absurd (ground (arith, e, f, remove_unloaded-all_loaded m))
      | inr (l, f) ↦ (l, (f, ground (arith, e, f, remove_unloaded-all_loaded m)))
    ]

-- If the load order of a manager is in order, it is so after a load that gives a result, which
-- takes that it deletes no item of the dictionary twice: it has every loaded addon once, each one
-- behind all its dependencies, and each has a resolver and functions that can destroy it.
pub manager_load-IsOrdered :
    (fuel : ℕ) (configs : List AddonConfig) (m n : AddonManager)
    → IsOrdered m
    → manager_load fuel configs m ≡ some n
    → IsOrdered n
manager_load-IsOrdered fuel configs m n o e =
    let l = manager_load_cases fuel configs m n e in
    let start = load_all_metadata-IsOrdered configs m o in
    subst IsOrdered l.1.1 (
      mark_loaded-IsOrdered l.0 (
        load_rounds_keeps IsOrdered (λ p k j member h v. Visit-IsOrdered p k j member h v) fuel _
          l.0 l.1.0 start))

enabled_count-length : (ps : List ℕ) (m : AddonManager) → enabled_count ps m ≤ length ps
unfolding enabled_count
enabled_count-length [] m = omega arith
enabled_count-length (p ∷ ps) m = ground (arith, enabled_count-length ps m)

known_when-addons :
    (flag : Bool) (p : ℕ) (config : AddonConfig) (m : AddonManager)
    → (known_when flag p config m).addons ≡ m.addons
known_when-addons true p config m = refl
known_when-addons false p config m = refl

length-found_metadata :
    (found : Option ℕ) (config : AddonConfig) (m : AddonManager)
    → length (found_metadata found config m).addons ≤ length m.addons + 1
length-found_metadata none config m =
    let grown = length-append m.addons (m.next_addon ∷ []) in omega arith
length-found_metadata (some p) config m =
    let same = ap (λ (l : List ℕ). length l) (known_when-addons (m.store p).loaded p config m) in
    omega (arith, same)

length-load_metadata :
    (config : AddonConfig) (m : AddonManager)
    → length (load_metadata config m).addons ≤ length m.addons + 1
unfolding load_metadata
length-load_metadata config m = elim (Bool-cases (is_complete config)) [
  | inl e ↦ rw e (length-found_metadata (find_addon config.name m.store m.addons) config m)
  | inr e ↦ rw e (omega arith)
]

length-load_all_metadata :
    (configs : List AddonConfig) (m : AddonManager)
    → length (load_all_metadata configs m).addons ≤ length m.addons + length configs
unfolding load_all_metadata
length-load_all_metadata [] m = omega arith
length-load_all_metadata (config ∷ configs) m =
    let first = length-load_metadata config m in
    let others = length-load_all_metadata configs (load_metadata config m) in omega arith

-- A load of a manager in which every addon is loaded, so that no item of the dictionary is deleted
-- twice, ends within one round more than there are addons and configurations.
pub manager_load-ends :
    (fuel : ℕ) (configs : List AddonConfig) (m : AddonManager)
    → all_loaded m.store m.addons ≡ true
    → length m.addons + length configs < fuel
    → (n : AddonManager) × (manager_load fuel configs m ≡ some n)
unfolding manager_load
manager_load-ends fuel configs m all enough =
    let start = load_all_metadata configs m in
    let few = enabled_count-length start.addons start in
    let read = length-load_all_metadata configs m in
    let end = load_rounds_end fuel start (omega arith) in
    (
      mark_loaded end.0,
      rw (remove_unloaded-all_loaded m)
          (rw all (ap (λ (l : Option AddonManager). finish_rounds l) end.1)),
    )

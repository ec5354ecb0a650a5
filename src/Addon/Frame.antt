-- ===== src/Addon/Frame.antt =====
-- addon.c: what the resolvers and the loading of an addon leave as it was.
use fcitx_ng.Prelude.{
  ℕ, ◌≡◌, ◌≢◌, inl, inr, refl, ◌∙◌, Bool, true, false, Option, none, some, List, [], ◌∷◌, ◌++◌,
  ◌==◌, arith, Bool-cases,
}
use fcitx_ng.Addon.{
  AddonManager, AddonApi, AddonInstance, AddonResolver, Library, static_library, shared_library,
  set_api, init_lists, init_with, init_checked, init_called, init_from, shared_checked,
  shared_found, static_api, set_resolver_data, resolve, set_addon, library_name, fac_frontend,
  fac_input_method,
}

-- The steps of a resolver write the instance of the addon `p` and the lists of the categories.
pub record Resolves (p : ℕ) (m n : AddonManager) : Type 0 where
  pub config : (q : ℕ) → (n.store q).config ≡ (m.store q).config
  pub dependencies : (q : ℕ) → (n.store q).dependencies ≡ (m.store q).dependencies
  pub marks : (q : ℕ) → (n.store q).loaded ≡ (m.store q).loaded
  pub others : (q : ℕ) → q ≢ p → n.store q ≡ m.store q
  pub addons : n.addons ≡ m.addons
  pub loaded_addons : n.loaded_addons ≡ m.loaded_addons
  pub resolvers : n.resolvers ≡ m.resolvers
  pub next_addon : n.next_addon ≡ m.next_addon

pub Resolves-refl : (p : ℕ) (m : AddonManager) → Resolves p m m
Resolves-refl p m = record {
  config = λ q. refl;
  dependencies = λ q. refl;
  marks = λ q. refl;
  others = λ q h. refl;
  addons = refl;
  loaded_addons = refl;
  resolvers = refl;
  next_addon = refl;
}

Resolves-trans : (p : ℕ) (l m n : AddonManager) → Resolves p l m → Resolves p m n → Resolves p l n
Resolves-trans p l m n f g = record {
  config = λ q. g.config q ∙ f.config q;
  dependencies = λ q. g.dependencies q ∙ f.dependencies q;
  marks = λ q. g.marks q ∙ f.marks q;
  others = λ q h. g.others q h ∙ f.others q h;
  addons = g.addons ∙ f.addons;
  loaded_addons = g.loaded_addons ∙ f.loaded_addons;
  resolvers = g.resolvers ∙ f.resolvers;
  next_addon = g.next_addon ∙ f.next_addon;
}

set_inst-Resolves :
    (p : ℕ) (inst : AddonInstance) (m : AddonManager)
    → Resolves p m (set_addon p (record (m.store p) { inst = inst }) m)
set_inst-Resolves p inst m = record {
  config = λ q. ground arith;
  dependencies = λ q. ground arith;
  marks = λ q. ground arith;
  others = λ q h. ground arith;
  addons = refl;
  loaded_addons = refl;
  resolvers = refl;
  next_addon = refl;
}

lists-Resolves :
    (p : ℕ) (frontends ims : List ℕ) (m : AddonManager)
    → Resolves p m (record m { frontends = frontends; ims = ims })
lists-Resolves p frontends ims m = record {
  config = λ q. refl;
  dependencies = λ q. refl;
  marks = λ q. refl;
  others = λ q h. refl;
  addons = refl;
  loaded_addons = refl;
  resolvers = refl;
  next_addon = refl;
}

init_lists-Resolves : (p : ℕ) (m : AddonManager) → Resolves p m (init_lists p m)
init_lists-Resolves p m = elim (Bool-cases ((m.store p).config.category == fac_frontend)) [
  | inl e ↦ rw e (lists-Resolves p (m.frontends ++ p ∷ []) m.ims m)
  | inr e ↦ elim (Bool-cases ((m.store p).config.category == fac_input_method)) [
    | inl f ↦ rw e (rw f (lists-Resolves p m.frontends (m.ims ++ p ∷ []) m))
    | inr f ↦ rw e (rw f (Resolves-refl p m))
  ]
]

init_with-Resolves :
    (result : Option ℕ) (api : AddonApi) (p : ℕ) (m : AddonManager)
    → Resolves p m (init_with result api p m).1
init_with-Resolves none api p m = set_inst-Resolves p _ m
init_with-Resolves (some payload) api p m =
    Resolves-trans p m _ _ (set_inst-Resolves p _ m) (init_lists-Resolves p _)

init_checked-Resolves :
    (destroy : Bool) (result : Option ℕ) (api : AddonApi) (p : ℕ) (m : AddonManager)
    → Resolves p m (init_checked destroy result api p m).1
init_checked-Resolves false result api p m = Resolves-refl p m
init_checked-Resolves true result api p m = init_with-Resolves result api p m

init_called-Resolves :
    (init : Option (Option ℕ)) (api : AddonApi) (p : ℕ) (m : AddonManager)
    → Resolves p m (init_called init api p m).1
init_called-Resolves none api p m = Resolves-refl p m
init_called-Resolves (some result) api p m = init_checked-Resolves api.destroy result api p m

init_from-Resolves :
    (api : Option AddonApi) (p : ℕ) (m : AddonManager) → Resolves p m (init_from api p m).1
init_from-Resolves none p m = Resolves-refl p m
init_from-Resolves (some api) p m = init_called-Resolves api.init api p m

set_resolver_data-Resolves :
    (found : Option Library) (p : ℕ) (m : AddonManager) (result : Bool × AddonManager)
    → Resolves p m result.1
    → Resolves p m (set_resolver_data found p result).1
set_resolver_data-Resolves found p m (false, n) kept = kept
set_resolver_data-Resolves found p m (true, n) kept =
    Resolves-trans p m n _ kept (set_inst-Resolves p _ n)

shared_checked-Resolves :
    (api : Option AddonApi) (library : Library) (p : ℕ) (m : AddonManager)
    → Resolves p m (shared_checked api library p m).1
shared_checked-Resolves none library p m = Resolves-refl p m
shared_checked-Resolves (some api) library p m = set_resolver_data-Resolves (some library) p m _ (
    Resolves-trans p m _ _ (set_inst-Resolves p _ m)
      (init_from-Resolves _ p (set_api (some api) p m)))

shared_found-Resolves :
    (found : Option Library) (p : ℕ) (m : AddonManager) → Resolves p m (shared_found found p m).1
shared_found-Resolves none p m = Resolves-refl p m
shared_found-Resolves (some library) p m = shared_checked-Resolves _ library p m

static_api-Resolves :
    (api : Option AddonApi) (p : ℕ) (m : AddonManager) → Resolves p m (static_api api p m)
static_api-Resolves none p m = Resolves-refl p m
static_api-Resolves (some api) p m = set_inst-Resolves p _ m

pub resolve-Resolves :
    (resolver : AddonResolver) (p : ℕ) (m : AddonManager) → Resolves p m (resolve resolver p m).1
resolve-Resolves (static_library static_addons) p m =
    set_resolver_data-Resolves none p m _
      (Resolves-trans p m _ _ (static_api-Resolves _ p m) (init_from-Resolves _ p _))
resolve-Resolves shared_library p m =
    shared_found-Resolves (m.standard_path (library_name (m.store p).config.library)) p m

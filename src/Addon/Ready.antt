-- ===== src/Addon/Ready.antt =====
-- addon.c: an addon that a resolver has resolved has functions that can destroy it.
use fcitx_ng.Prelude.{ℕ, ◌≡◌, refl, ap, ◌∙◌, Bool, true, false, Option, none, some, arith}
use fcitx_ng.Addon.{
  with_frontend_id, init_inst, set_inst, AddonManager, AddonApi, AddonInstance, AddonResolver,
  Library, static_library, shared_library, set_api, init_lists, init_with, init_checked,
  init_called, init_from, init_general, set_resolver_data, shared_checked, shared_found, static_api,
  resolve, lookup, register_functions, checked_api, library_name,
}

-- The functions of the addon `p` are set and can be told to destroy it.
abbrev pub IsCallable : ℕ → AddonManager → Type 0
IsCallable p m = (api : AddonApi) × (((m.store p).inst.api ≡ some api) × (api.destroy ≡ true))

abbrev pub Ready : ℕ → Bool × AddonManager → Type 0
Ready p result = result.0 ≡ true → IsCallable p result.1

init_lists-inst : (p q : ℕ) (m : AddonManager) → ((init_lists p m).store q).inst ≡ (m.store q).inst
init_lists-inst p q m = ground arith

register_functions-api :
    (api : AddonApi) (inst : AddonInstance) → (register_functions api inst).api ≡ inst.api
register_functions-api api inst = ground arith

init_with-Ready :
    (result : Option ℕ) (api : AddonApi) (p : ℕ) (m : AddonManager)
    → api.destroy ≡ true
    → Ready p (init_with result api p m)
init_with-Ready none api p m d h = absurd (ground arith)
init_with-Ready (some payload) api p m d h = (
  with_frontend_id api p m,
  (
    ap (λ (i : AddonInstance). i.api)
          (init_lists-inst p p
            (set_inst (register_functions api (init_inst (some payload) api p m)) p m))
        ∙ ground (arith, register_functions-api api (init_inst (some payload) api p m)),
    ground (arith, d),
  ),
)

init_checked-Ready :
    (destroy : Bool) (result : Option ℕ) (api : AddonApi) (p : ℕ) (m : AddonManager)
    → api.destroy ≡ destroy
    → Ready p (init_checked destroy result api p m)
init_checked-Ready false result api p m d h = absurd (ground arith)
init_checked-Ready true result api p m d h = init_with-Ready result api p m d h

init_called-Ready :
    (init : Option (Option ℕ)) (api : AddonApi) (p : ℕ) (m : AddonManager)
    → Ready p (init_called init api p m)
init_called-Ready none api p m h = absurd (ground arith)
init_called-Ready (some result) api p m h = init_checked-Ready api.destroy result api p m refl h

init_from-Ready : (api : Option AddonApi) (p : ℕ) (m : AddonManager) → Ready p (init_from api p m)
init_from-Ready none p m h = absurd (ground arith)
init_from-Ready (some api) p m h = init_called-Ready api.init api p m h

set_resolver_data-Ready :
    (found : Option Library) (p : ℕ) (result : Bool × AddonManager)
    → Ready p result
    → Ready p (set_resolver_data found p result)
set_resolver_data-Ready found p (false, n) r h = absurd (ground arith)
set_resolver_data-Ready found p (true, n) r h =
    let c = r refl in (c.0, (ground (arith, c.1.0), c.1.1))

shared_checked-Ready :
    (api : Option AddonApi) (library : Library) (p : ℕ) (m : AddonManager)
    → Ready p (shared_checked api library p m)
shared_checked-Ready none library p m h = absurd (ground arith)
shared_checked-Ready (some api) library p m h =
    set_resolver_data-Ready (some library) p (init_general p (set_api (some api) p m))
      (init_from-Ready ((set_api (some api) p m).store p).inst.api p (set_api (some api) p m)) h

shared_found-Ready :
    (found : Option Library) (p : ℕ) (m : AddonManager) → Ready p (shared_found found p m)
shared_found-Ready none p m h = absurd (ground arith)
shared_found-Ready (some library) p m h =
    shared_checked-Ready (checked_api library (m.store p).config) library p m h

pub resolve-Ready :
    (resolver : AddonResolver) (p : ℕ) (m : AddonManager) → Ready p (resolve resolver p m)
resolve-Ready (static_library static_addons) p m h =
    let n = static_api (lookup (m.store p).config.name static_addons) p m in
    set_resolver_data-Ready none p (init_general p n) (init_from-Ready (n.store p).inst.api p n) h
resolve-Ready shared_library p m h =
    shared_found-Ready (m.standard_path (library_name (m.store p).config.library)) p m h

-- ===== src/Addon/Visit.antt =====
-- addon.c: what the body of the loop over the addons does with the addon `p`.
use fcitx_ng.Prelude.{
  ℕ, ◌≡◌, ◌≢◌, ◌⊎◌, inl, inr, refl, ap, Bool, true, false, Option, none, some, List, [], ◌∷◌, ◌++◌,
  if◌then◌else◌, arith, Bool-cases, Option-cases,
}
use fcitx_ng.Addon.{
  AddonManager, AddonResolver, resolve, finish_load, load_with, load_addon, disable, lookup,
  check_dependencies, visit_checked, visit_addon,
}
use fcitx_ng.Addon.Ready.{IsCallable, Ready, resolve-Ready}
use fcitx_ng.Addon.Frame.{Resolves, Resolves-refl, resolve-Resolves}

pub record Keeps (p : ℕ) (m n : AddonManager) : Type 0 where
  pub name : (q : ℕ) → (n.store q).config.name ≡ (m.store q).config.name
  pub addon_type : (q : ℕ) → (n.store q).config.addon_type ≡ (m.store q).config.addon_type
  pub dependencies : (q : ℕ) → (n.store q).dependencies ≡ (m.store q).dependencies
  pub others : (q : ℕ) → q ≢ p → n.store q ≡ m.store q
  pub addons : n.addons ≡ m.addons
  pub resolvers : n.resolvers ≡ m.resolvers
  pub next_addon : n.next_addon ≡ m.next_addon

pub record Disables (p : ℕ) (m n : AddonManager) : Type 0 where
  pub keeps : Keeps p m n
  pub enabled : (n.store p).config.enabled ≡ false
  pub marks : (n.store p).loaded ≡ (m.store p).loaded
  pub inst : (m.store p).loaded ≡ true → (n.store p).inst ≡ (m.store p).inst
  pub loaded_addons : n.loaded_addons ≡ m.loaded_addons

pub record Loads (p : ℕ) (m n : AddonManager) : Type 0 where
  pub keeps : Keeps p m n
  pub enabled : (n.store p).config.enabled ≡ (m.store p).config.enabled
  pub was : (m.store p).loaded ≡ false
  pub marks : (n.store p).loaded ≡ true
  pub loaded_addons : n.loaded_addons ≡ m.loaded_addons ++ p ∷ []
  pub resolver : AddonResolver
  pub resolved : lookup (m.store p).config.addon_type m.resolvers ≡ some resolver
  pub callable : IsCallable p n

pub data Visit (p : ℕ) (m n : AddonManager) : Type 0 where
  unchanged : n ≡ m → Visit p m n
  disables : Disables p m n → Visit p m n
  loads : Loads p m n → check_dependencies (m.store p).dependencies m ≡ some true → Visit p m n

Resolves-disable :
    (p : ℕ) (m n : AddonManager)
    → Resolves p m n
    → ((m.store p).loaded ≡ true → (n.store p).inst ≡ (m.store p).inst)
    → Disables p m (disable p n)
Resolves-disable p m n f inst = record {
  keeps = record {
    name = λ q. ground (arith, f.config q);
    addon_type = λ q. ground (arith, f.config q);
    dependencies = λ q. ground (arith, f.dependencies q);
    others = λ q h. ground (arith, f.others q h);
    addons = f.addons;
    resolvers = f.resolvers;
    next_addon = f.next_addon;
  };
  enabled = ground arith;
  marks = ground (arith, f.marks p);
  inst = λ h. ground (arith, inst h);
  loaded_addons = f.loaded_addons;
}

finish_load-cases :
    (resolver : AddonResolver) (p : ℕ) (m : AddonManager) (result : Bool × AddonManager)
    → (m.store p).loaded ≡ false
    → lookup (m.store p).config.addon_type m.resolvers ≡ some resolver
    → Resolves p m result.1
    → Ready p result
    → Disables p m (finish_load p result) ⊎ Loads p m (finish_load p result)
finish_load-cases resolver p m (false, n) was e f r =
    inl (Resolves-disable p m n f (λ h. absurd (ground (arith, was, h))))
finish_load-cases resolver p m (true, n) was e f r = inr (record {
  keeps = record {
    name = λ q. ground (arith, f.config q);
    addon_type = λ q. ground (arith, f.config q);
    dependencies = λ q. ground (arith, f.dependencies q);
    others = λ q h. ground (arith, f.others q h);
    addons = f.addons;
    resolvers = f.resolvers;
    next_addon = f.next_addon;
  };
  enabled = ground (arith, f.config p);
  was = was;
  marks = ground arith;
  loaded_addons = ap (λ (l : List ℕ). l ++ p ∷ []) f.loaded_addons;
  resolver = resolver;
  resolved = e;
  callable = let c = r refl in (c.0, (ground (arith, c.1.0), c.1.1));
})

load_with-cases :
    (resolver : Option AddonResolver) (p : ℕ) (m : AddonManager)
    → (m.store p).loaded ≡ false
    → lookup (m.store p).config.addon_type m.resolvers ≡ resolver
    → Disables p m (load_with resolver p m) ⊎ Loads p m (load_with resolver p m)
load_with-cases none p m was e = inl (Resolves-disable p m m (Resolves-refl p m) (λ h. refl))
load_with-cases (some resolver) p m was e =
    finish_load-cases resolver p m (resolve resolver p m) was e (resolve-Resolves resolver p m)
      (resolve-Ready resolver p m)

checked-Visit :
    (all_loaded : Bool) (p : ℕ) (m : AddonManager)
    → check_dependencies (m.store p).dependencies m ≡ some all_loaded
    → Visit p m (if all_loaded then load_addon p m else m)
unfolding load_addon
checked-Visit false p m e = unchanged refl
checked-Visit true p m e = elim (Bool-cases ((m.store p).loaded)) [
  | inl f ↦ rw f (unchanged refl)
  | inr f ↦
      rw f (elim (load_with-cases (lookup (m.store p).config.addon_type m.resolvers) p m f refl) [
        | inl d ↦ disables d
        | inr l ↦ loads l e
      ])
]

visit_checked-Visit :
    (checked : Option Bool) (p : ℕ) (m : AddonManager)
    → check_dependencies (m.store p).dependencies m ≡ checked
    → Visit p m (visit_checked checked p m).1
visit_checked-Visit none p m e = disables (Resolves-disable p m m (Resolves-refl p m) (λ h. refl))
visit_checked-Visit (some all_loaded) p m e = checked-Visit all_loaded p m e

pub visit_addon-Visit : (p : ℕ) (m : AddonManager) → Visit p m (visit_addon p m).1
unfolding visit_addon
visit_addon-Visit p m = elim (Bool-cases ((m.store p).config.enabled)) [
  | inl e ↦ rw e (visit_checked-Visit (check_dependencies (m.store p).dependencies m) p m refl)
  | inr e ↦ rw e (unchanged refl)
]

-- `update` is set exactly when an enabled addon has a dependency that is no addon, and it is disabled then.
pub visit_addon_update :
    (p : ℕ) (m : AddonManager)
    → (visit_addon p m).0 ≡ true
    → ((m.store p).config.enabled ≡ true) × (((visit_addon p m).1.store p).config.enabled ≡ false)
unfolding visit_addon
visit_addon_update p m h = elim (Bool-cases ((m.store p).config.enabled)) [
  | inl e ↦ elim (Option-cases (check_dependencies (m.store p).dependencies m)) [
    | inl f ↦ ground arith
    | inr (all_loaded, f) ↦ absurd (ground arith)
  ]
  | inr e ↦ absurd (ground arith)
]

load_addon_cases :
    (p : ℕ) (m : AddonManager)
    → (((load_addon p m).store p).config.enabled ≡ false)
      ⊎ (((load_addon p m).store p).loaded ≡ true)
unfolding load_addon
load_addon_cases p m = elim (Bool-cases ((m.store p).loaded)) [
  | inl f ↦ rw f (inr f)
  | inr f ↦
      rw f (elim (load_with-cases (lookup (m.store p).config.addon_type m.resolvers) p m f refl) [
        | inl d ↦ inl d.enabled
        | inr l ↦ inr l.marks
      ])
]

visit_checked_waits :
    (checked : Option Bool) (p : ℕ) (m : AddonManager)
    → (visit_checked checked p m).0 ≡ false
    → ((visit_checked checked p m).1.store p).config.enabled ≡ true
    → ((visit_checked checked p m).1.store p).loaded ≡ false
    → checked ≡ some false
visit_checked_waits none p m h on unloaded = absurd (ground arith)
visit_checked_waits (some false) p m h on unloaded = refl
visit_checked_waits (some true) p m h on unloaded =
    absurd (ground (arith, on, unloaded, load_addon_cases p m))

-- Without `update`, an addon that is left enabled and not loaded had all its dependencies and waits for one.
pub visit_addon_waits :
    (p : ℕ) (m : AddonManager)
    → (visit_addon p m).0 ≡ false
    → ((visit_addon p m).1.store p).config.enabled ≡ true
    → ((visit_addon p m).1.store p).loaded ≡ false
    → check_dependencies (m.store p).dependencies m ≡ some false
unfolding visit_addon
visit_addon_waits p m h on unloaded = elim (Bool-cases ((m.store p).config.enabled)) [
  | inl e ↦
      visit_checked_waits (check_dependencies (m.store p).dependencies m) p m (simp e at h)
        (simp e at on) (simp e at unloaded)
  | inr e ↦ absurd (ground (arith, e, on))
]

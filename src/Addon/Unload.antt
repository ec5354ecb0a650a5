-- ===== src/Addon/Unload.antt =====
-- addon.c: `fcitx_addon_manager_unload`. A call through a NULL pointer, or through the resolver that was not
-- found, is `none`.
use fcitx_ng.Prelude.{
  ℕ, zero, suc, ◌+◌, ◌-◌, ◌≤◌, ◌<◌, ◌≡◌, inl, inr, refl, sym, ap, ◌∙◌, true, false, not, Option,
  none, some, List, [], ◌∷◌, ◌++◌, ◌==◌, ==_iff, if◌then◌else◌, length, get_elem?, get_elem?_bound,
  arith, Bool-cases,
}
use fcitx_ng.Strings.{Text}
use fcitx_ng.Addon.{
  AddonApi, AddonManager, AddonResolver, static_library, shared_library, UnloadCall, destroy_addon,
  library_unload, find_addon, lookup, set_addon,
}
use fcitx_ng.Addon.Ready.{IsCallable}
use fcitx_ng.Addon.Order.{IsOrdered}

-- `resolver->unload(...)` of the two resolvers.
abbrev pub resolver_unload : AddonResolver → ℕ → List UnloadCall
resolver_unload (static_library static_addons) p = []
resolver_unload shared_library p = library_unload p ∷ []

abbrev pub unload_with : Option AddonResolver → ℕ → Option (List UnloadCall)
unload_with none p = none
unload_with (some resolver) p = some (destroy_addon p ∷ resolver_unload resolver p)

abbrev pub destroy_then : Option AddonApi → Option AddonResolver → ℕ → Option (List UnloadCall)
destroy_then none resolver p = none
destroy_then (some api) resolver p = if api.destroy then unload_with resolver p else none

-- `_fcitx_addon_manager_unload_addon`: the calls that it makes.
abbrev pub unload_addon : ℕ → AddonManager → Option (List UnloadCall)
unload_addon p m =
    destroy_then (m.store p).inst.api (lookup (m.store p).config.addon_type m.resolvers) p

abbrev pub unmark : ℕ → AddonManager → AddonManager
unmark p m = set_addon p (record (m.store p) { loaded = false }) m

abbrev pub then_calls :
    Option (List UnloadCall)
    → Option (List UnloadCall × AddonManager)
    → Option (List UnloadCall × AddonManager)
then_calls none rest = none
then_calls (some calls) none = none
then_calls (some calls) (some rest) = some (calls ++ rest.0, rest.1)

-- The loop, with `i` addons left.
unfoldable pub unload_loop : ℕ → AddonManager → Option (List UnloadCall × AddonManager)
unload_loop zero m = some ([], m)
unload_loop (suc i) m = elim (get_elem? m.loaded_addons i) [
  | none ↦ none
  | some p ↦ then_calls (unload_addon p m) (unload_loop i (unmark p m))
]

abbrev pub clear_loaded :
    Option (List UnloadCall × AddonManager) → Option (List UnloadCall × AddonManager)
clear_loaded none = none
clear_loaded (some rest) = some (rest.0, record (rest.1) { loaded_addons = [] })

-- `manager->loaded` stays what it was.
unfoldable pub manager_unload : AddonManager → Option (List UnloadCall × AddonManager)
unfolding unload_loop
manager_unload m =
    if not m.loaded then some ([], m) else clear_loaded (unload_loop (length m.loaded_addons) m)

-- The addons whose `destroy` is called, in the order of the calls.
unfoldable pub destroyed : List UnloadCall → List ℕ
destroyed [] = []
destroyed (destroy_addon p ∷ calls) = p ∷ destroyed calls
destroyed (library_unload p ∷ calls) = destroyed calls

record CanUnload (m : AddonManager) : Type 0 where
  resolved :
      (i p : ℕ)
      → get_elem? m.loaded_addons i ≡ some p
      → (r : AddonResolver) × (lookup (m.store p).config.addon_type m.resolvers ≡ some r)
  callable : (i p : ℕ) → get_elem? m.loaded_addons i ≡ some p → IsCallable p m

unmark-CanUnload : (p : ℕ) (m : AddonManager) → CanUnload m → CanUnload (unmark p m)
unmark-CanUnload p m c = record {
  resolved = λ i q h. let r = c.resolved i q h in (r.0, ground (arith, r.1, ==_iff p q));
  callable = λ i q h. let r = c.callable i q h in (r.0, (ground (arith, r.1.0, ==_iff p q), r.1.1));
}

unload_addon_calls :
    (i p : ℕ) (m : AddonManager)
    → CanUnload m
    → get_elem? m.loaded_addons i ≡ some p
    → (r : AddonResolver) × (unload_addon p m ≡ some (destroy_addon p ∷ resolver_unload r p))
unload_addon_calls i p m c h =
    let r = c.resolved i p h in let a = c.callable i p h in (r.0, ground (arith, r.1, a.1.0, a.1.1))

destroyed-append :
    (r : AddonResolver) (p : ℕ) (calls : List UnloadCall)
    → destroyed ((destroy_addon p ∷ resolver_unload r p) ++ calls) ≡ p ∷ destroyed calls
unfolding destroyed
destroyed-append (static_library static_addons) p calls = refl
destroyed-append shared_library p calls = refl

-- What the rounds from `i` down leave.
record Unloaded (i : ℕ) (m n : AddonManager) (calls : List UnloadCall) : Type 0 where
  order : (k a : ℕ) → k + a + 1 ≡ i → get_elem? (destroyed calls) a ≡ get_elem? m.loaded_addons k
  size : length (destroyed calls) ≡ i
  unmarked : (k p : ℕ) → k < i → get_elem? m.loaded_addons k ≡ some p → (n.store p).loaded ≡ false
  marks : (p : ℕ) → (m.store p).loaded ≡ false → (n.store p).loaded ≡ false
  next_addon : n.next_addon ≡ m.next_addon
  addons : n.addons ≡ m.addons

get_elem?-some : (xs : List ℕ) (i : ℕ) → i < length xs → (p : ℕ) × (get_elem? xs i ≡ some p)
get_elem?-some [] i h = absurd (omega arith)
get_elem?-some (x ∷ xs) zero h = (x, refl)
get_elem?-some (x ∷ xs) (suc i) h = get_elem?-some xs i (omega arith)

order_step :
    (xs ds : List ℕ) (p i : ℕ)
    → get_elem? xs i ≡ some p
    → ((k a : ℕ) → k + a + 1 ≡ i → get_elem? ds a ≡ get_elem? xs k)
    → (k a : ℕ) → k + a + 1 ≡ suc i
    → get_elem? (p ∷ ds) a ≡ get_elem? xs k
order_step xs ds p i h rest k zero e =
    let is : i ≡ k = omega (arith, e) in sym h ∙ ap (λ (j : ℕ). get_elem? xs j) is
order_step xs ds p i h rest k (suc a) e = rest k a (omega (arith, e))

Unloaded-step :
    (i p : ℕ) (m n : AddonManager) (r : AddonResolver) (calls : List UnloadCall)
    → get_elem? m.loaded_addons i ≡ some p
    → Unloaded i (unmark p m) n calls
    → Unloaded (suc i) m n ((destroy_addon p ∷ resolver_unload r p) ++ calls)
Unloaded-step i p m n r calls here u =
    let made = destroyed-append r p calls in
    record {
      order = λ k a e.
          ap (λ (l : List ℕ). get_elem? l a) made
          ∙ order_step m.loaded_addons (destroyed calls) p i here u.order k a e;
      size = ap (λ (l : List ℕ). length l) made ∙ ap suc u.size;
      unmarked = λ k q f g. elim (Bool-cases (k == i)) [
        | inl e ↦ u.marks q (
            let is : k ≡ i = ground (arith, ==_iff k i, e) in
            let same : p ≡ q = ground (arith, here, g, is) in ground (arith, same))
        | inr e ↦ u.unmarked k q (ground (arith, ==_iff k i)) g
      ];
      marks = λ q f. u.marks q (ground (arith, f));
      next_addon = u.next_addon;
      addons = u.addons;
    }

unload_loop-Unloaded :
    (i : ℕ) (m : AddonManager)
    → CanUnload m
    → i ≤ length m.loaded_addons
    → (calls : List UnloadCall) × ((n : AddonManager) × ((unload_loop i m ≡ some (calls, n))
          × Unloaded i m n calls))
unfolding unload_loop destroyed
unload_loop-Unloaded zero m c h = (
  [],
  (
    m,
    (
      refl,
      record {
        order = λ k a e. absurd (omega (arith, e));
        size = refl;
        unmarked = λ k p f. absurd (omega arith);
        marks = λ p f. f;
        next_addon = refl;
        addons = refl;
      },
    ),
  ),
)
unload_loop-Unloaded (suc i) m c h =
    let here = get_elem?-some m.loaded_addons i (omega arith) in
    let p = here.0 in
    let first = unload_addon_calls i p m c here.1 in
    let rest = unload_loop-Unloaded i (unmark p m) (unmark-CanUnload p m c) (omega arith) in
    (
      (destroy_addon p ∷ resolver_unload first.0 p) ++ rest.0,
      (
        rest.1.0,
        (
          ground (arith, here.1, first.1, rest.1.1.0),
          Unloaded-step i p m rest.1.0 first.0 rest.0 here.1 rest.1.1.1,
        ),
      ),
    )

-- What unloading promises: the order of the `destroy` calls, and that no addon is loaded any more.
pub record Unloads (m n : AddonManager) (calls : List UnloadCall) : Type 0 where
  pub order :
      (k a : ℕ)
      → k + a + 1 ≡ length m.loaded_addons
      → get_elem? (destroyed calls) a ≡ get_elem? m.loaded_addons k
  pub size : length (destroyed calls) ≡ length m.loaded_addons
  pub unloaded : (p : ℕ) → (n.store p).loaded ≡ false
  pub emptied : n.loaded_addons ≡ []
  pub addons : n.addons ≡ m.addons

IsOrdered-CanUnload : (m : AddonManager) → IsOrdered m → CanUnload m
IsOrdered-CanUnload m o = record { resolved = o.resolved; callable = o.callable }

-- A loaded manager whose load order is in order is unloaded without a call through a NULL or unset
-- pointer: the addons are destroyed once each, in the reverse order, and none is loaded
-- afterwards.
pub manager_unload-Unloads :
    (m : AddonManager)
    → IsOrdered m
    → m.loaded ≡ true
    → (calls : List UnloadCall) × ((n : AddonManager) × ((manager_unload m ≡ some (calls, n))
          × Unloads m n calls))
unfolding manager_unload
manager_unload-Unloads m o on =
    let all =
      unload_loop-Unloaded (length m.loaded_addons) m (IsOrdered-CanUnload m o) (omega arith) in
    let u = all.1.1.1 in
    (
      all.0,
      (
        record (all.1.0) { loaded_addons = [] },
        (
          ground (arith, on, all.1.1.0),
          record {
            order = u.order;
            size = u.size;
            unloaded = λ p. elim (Bool-cases ((m.store p).loaded)) [
              | inl e ↦
                  let l = o.listed p e in
                  u.unmarked l.0 p (get_elem?_bound m.loaded_addons l.0 p l.1) l.1
              | inr e ↦ u.marks p e
            ];
            emptied = refl;
            addons = u.addons;
          },
        ),
      ),
    )

-- The calls that destroy an addon and one that it depends on.
pub record DestroysBefore (m : AddonManager) (calls : List UnloadCall) (p : ℕ) (d : Text)
    : Type 0 where
  pub addon : ℕ
  pub found : find_addon d m.store m.addons ≡ some addon
  pub first : ℕ
  pub second : ℕ
  pub earlier : first < second
  pub user : get_elem? (destroyed calls) first ≡ some p
  pub used : get_elem? (destroyed calls) second ≡ some addon

-- When a loaded manager whose load order is in order is unloaded, the destruction of a loaded
-- addon is called before that of each of its dependencies.
pub manager_unload_order :
    (m n : AddonManager) (calls : List UnloadCall)
    → IsOrdered m
    → m.loaded ≡ true
    → manager_unload m ≡ some (calls, n)
    → (p k : ℕ) (d : Text) → (m.store p).loaded ≡ true
    → get_elem? (m.store p).dependencies k ≡ some d
    → DestroysBefore m calls p d
manager_unload_order m n calls o on e p k d h g =
    let all = manager_unload-Unloads m o on in
    let same : all.0 ≡ calls = ground (arith, e, all.1.1.0) in
    let l = o.listed p h in
    let b = o.before l.0 p k d l.1 g in
    let size = length m.loaded_addons in
    let inside = get_elem?_bound m.loaded_addons l.0 p l.1 in
    let u = all.1.1.1 in
    record {
      addon = b.addon;
      found = b.found;
      first = size - l.0 - 1;
      second = size - b.position - 1;
      earlier = let q = b.earlier in omega arith;
      user =
          ap (λ (c : List UnloadCall). get_elem? (destroyed c) (size - l.0 - 1)) (sym same)
          ∙ u.order l.0 (size - l.0 - 1) (omega arith)
          ∙ l.1;
      used =
          ap (λ (c : List UnloadCall). get_elem? (destroyed c) (size - b.position - 1)) (sym same)
          ∙ u.order b.position (size - b.position - 1) (let q = b.earlier in omega arith)
          ∙ b.listed;
    }

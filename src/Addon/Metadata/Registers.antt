-- ===== src/Addon/Metadata/Registers.antt =====
-- addon.c: `_fcitx_addon_load_metadata` keeps the load order in order.
use fcitx_ng.Prelude.{
  ℕ, ◌+◌, ◌≤◌, ◌<◌, ◌≡◌, ◌≢◌, inl, inr, refl, sym, ap, ◌∙◌, Bool, true, false, ◌||◌, Option, none,
  some, List, [], ◌∷◌, ◌++◌, ◌==◌, ==_iff, get_elem?, arith, Bool-cases, elem,
}
use fcitx_ng.Strings.{Text}
use fcitx_ng.HashSet.Parse.{same_key-eq}
use fcitx_ng.HashSet.{same_key}
use fcitx_ng.Addon.{Addon, AddonConfig, AddonManager, AddonResolver, lookup, find_addon, set_addon}
use fcitx_ng.Addon.Order.{IsOrdered, find_addon-names}
use fcitx_ng.Addon.Metadata.{
  addon_new, is_complete, set_dependencies, known_when, new_metadata, found_metadata, load_metadata,
  load_all_metadata,
}

-- What the reading of an addon's files changes is an addon that is not loaded, or a new one.
pub record Registers (m n : AddonManager) : Type 0 where
  pub marks : (q : ℕ) → (n.store q).loaded ≡ true → n.store q ≡ m.store q
  pub found :
      (d : Text) (q : ℕ)
      → find_addon d m.store m.addons ≡ some q
      → find_addon d n.store n.addons ≡ some q
  pub loaded : (q : ℕ) → (m.store q).loaded ≡ true → q < m.next_addon → n.store q ≡ m.store q
  pub loaded_addons : n.loaded_addons ≡ m.loaded_addons
  pub resolvers : n.resolvers ≡ m.resolvers
  pub more : m.next_addon ≤ n.next_addon
  pub fresh :
      ((q : ℕ) → elem q m.addons ≡ true → q < m.next_addon)
      → (q : ℕ) → elem q n.addons ≡ true
      → q < n.next_addon

pub Registers-IsOrdered : (m n : AddonManager) → IsOrdered m → Registers m n → IsOrdered n
Registers-IsOrdered m n o r =
    let at : (i q : ℕ)
        → get_elem? n.loaded_addons i ≡ some q
        → get_elem? m.loaded_addons i ≡ some q =
      λ i q h. ap (λ (l : List ℕ). get_elem? l i) (sym r.loaded_addons) ∙ h in
    let to : (i q : ℕ)
        → get_elem? m.loaded_addons i ≡ some q
        → get_elem? n.loaded_addons i ≡ some q =
      λ i q h. ap (λ (l : List ℕ). get_elem? l i) r.loaded_addons ∙ h in
    let same : (i q : ℕ) → get_elem? n.loaded_addons i ≡ some q → n.store q ≡ m.store q =
      λ i q h. let l = o.marked i q (at i q h) in r.loaded q l (o.known q l) in
    record {
      marked = λ i q h. ap (λ (a : Addon). a.loaded) (same i q h) ∙ o.marked i q (at i q h);
      listed = λ q h.
          let l = o.listed q (ap (λ (a : Addon). a.loaded) (sym (r.marks q h)) ∙ h) in
          (l.0, to l.0 q l.1);
      once = λ i j q h g. o.once i j q (at i q h) (at j q g);
      before = λ i q k d h g.
          let b =
            o.before i q k d (at i q h)
              (ap (λ (a : Addon). get_elem? a.dependencies k) (sym (same i q h)) ∙ g) in
          record {
            addon = b.addon;
            found = r.found d b.addon b.found;
            position = b.position;
            earlier = b.earlier;
            listed = to b.position b.addon b.listed;
          };
      resolved = λ i q h.
          let c = o.resolved i q (at i q h) in
          (
            c.0,
            ap (λ (a : Addon). lookup a.config.addon_type n.resolvers) (same i q h)
                ∙ ap (λ (l : List (Text × AddonResolver)). lookup (m.store q).config.addon_type l)
                    r.resolvers
                ∙ c.1,
          );
      callable = λ i q h.
          let c = o.callable i q (at i q h) in
          (c.0, (ap (λ (a : Addon). a.inst.api) (same i q h) ∙ c.1.0, c.1.1));
      known = λ q h.
          ground (arith, r.more, o.known q (ap (λ (a : Addon). a.loaded) (sym (r.marks q h)) ∙ h));
      fresh = r.fresh o.fresh;
    }

-- The overrides and the dependencies leave every other addon and the name of `p`.
set_dependencies-name :
    (p : ℕ) (m : AddonManager) (q : ℕ)
    → ((set_dependencies p m).store q).config.name ≡ (m.store q).config.name
set_dependencies-name p m q = ground arith

set_dependencies-marks :
    (p : ℕ) (m : AddonManager) (q : ℕ)
    → ((set_dependencies p m).store q).loaded ≡ (m.store q).loaded
set_dependencies-marks p m q = ground arith

set_dependencies-others :
    (p : ℕ) (m : AddonManager) (q : ℕ) → q ≢ p → (set_dependencies p m).store q ≡ m.store q
set_dependencies-others p m q apart = ground (arith, ==_iff p q)

pub find_addon-found :
    (d : Text) (store : ℕ → Addon) (ps : List ℕ) (q : ℕ)
    → find_addon d store ps ≡ some q
    → ((store q).config.name ≡ d) × (elem q ps ≡ true)
find_addon-found d store [] q h = absurd (ground arith)
find_addon-found d store (p ∷ ps) q h = elim (Bool-cases (same_key (store p).config.name d)) [
  | inl e ↦
      let is : p ≡ q = ground (arith, e, h) in
      (
        ap (λ (s : ℕ). (store s).config.name) (sym is) ∙ same_key-eq (store p).config.name d e,
        ground (arith, ==_iff q p, is),
      )
  | inr e ↦
      let rest = find_addon-found d store ps q (simp e at h) in (rest.0, ground (arith, rest.1))
]

known_metadata-Registers :
    (p : ℕ) (config : AddonConfig) (m : AddonManager)
    → find_addon config.name m.store m.addons ≡ some p
    → (m.store p).loaded ≡ false
    → Registers m (set_dependencies p (set_addon p (record (m.store p) { config = config }) m))
known_metadata-Registers p config m found off =
    let m₁ = set_addon p (record (m.store p) { config = config }) m in
    let name = (find_addon-found config.name m.store m.addons p found).0 in
    let others : (q : ℕ) → q ≢ p → (set_dependencies p m₁).store q ≡ m.store q =
      λ q apart. set_dependencies-others p m₁ q apart ∙ ground (arith, ==_iff p q) in
    let names : (q : ℕ) → ((set_dependencies p m₁).store q).config.name ≡ (m.store q).config.name =
      λ q. set_dependencies-name p m₁ q ∙ ground (arith, ==_iff p q, name) in
    record {
      marks =
          λ q h. others q (λ e. absurd (ground (arith, set_dependencies-marks p m₁ q, h, e, off)));
      found = λ d q h. find_addon-names d m.addons m (set_dependencies p m₁) names ∙ h;
      loaded = λ q h k. others q (λ e. absurd (ground (arith, h, e, off)));
      loaded_addons = refl;
      resolvers = refl;
      more = omega arith;
      fresh = λ f. f;
    }

find_addon-append :
    (d : Text) (ps : List ℕ) (store store₁ : ℕ → Addon) (p q : ℕ)
    → ((r : ℕ) → elem r ps ≡ true → (store₁ r).config.name ≡ (store r).config.name)
    → find_addon d store ps ≡ some q
    → find_addon d store₁ (ps ++ p ∷ []) ≡ some q
find_addon-append d [] store store₁ p q same h = absurd (ground arith)
find_addon-append d (r ∷ ps) store store₁ p q same h =
    let here = same r (ground (arith, ==_iff r r)) in
    elim (Bool-cases (same_key (store r).config.name d)) [
      | inl e ↦ rw here (rw e (simp e at h))
      | inr e ↦ rw here (
          rw e (
            find_addon-append d ps store store₁ p q (λ s f. same s (ground (arith, f)))
              (simp e at h)))
    ]

elem-append : (q p : ℕ) (ps : List ℕ) → elem q (ps ++ p ∷ []) ≡ (elem q ps || q == p)
elem-append q p [] = ground arith
elem-append q p (r ∷ ps) = ground (arith, elem-append q p ps)

new_metadata-Registers :
    (config : AddonConfig) (m : AddonManager)
    → ((q : ℕ) → elem q m.addons ≡ true → q < m.next_addon)
    → Registers m (new_metadata config m)
new_metadata-Registers config m fresh =
    let p = m.next_addon in
    let m₁ : AddonManager = record (set_addon p (addon_new config) m) {
      addons = m.addons ++ p ∷ [];
      next_addon = p + 1;
    } in
    let others : (q : ℕ) → q ≢ p → (new_metadata config m).store q ≡ m.store q =
      λ q apart. set_dependencies-others p m₁ q apart ∙ ground (arith, ==_iff p q) in
    record {
      marks = λ q h.
          others q (λ e. absurd (ground (arith, set_dependencies-marks p m₁ q, h, e, ==_iff p q)));
      found = λ d q h.
          find_addon-append d m.addons m.store (new_metadata config m).store p q
            (λ r f.
              ap (λ (a : Addon). a.config.name)
                (others r (λ e. absurd (omega (arith, fresh r f, e)))))
            h;
      loaded = λ q h k. others q (λ e. absurd (omega (arith, k, e)));
      loaded_addons = refl;
      resolvers = refl;
      more = omega arith;
      fresh = λ f q h. ground (arith, elem-append q p m.addons, ==_iff q p, f q, h);
    }

Registers-refl : (m : AddonManager) → Registers m m
Registers-refl m = record {
  marks = λ q h. refl;
  found = λ d q h. h;
  loaded = λ q h k. refl;
  loaded_addons = refl;
  resolvers = refl;
  more = omega arith;
  fresh = λ f. f;
}

known_when-Registers :
    (loaded : Bool) (p : ℕ) (config : AddonConfig) (m : AddonManager)
    → find_addon config.name m.store m.addons ≡ some p
    → (m.store p).loaded ≡ loaded
    → Registers m (known_when loaded p config m)
known_when-Registers true p config m found is = Registers-refl m
known_when-Registers false p config m found is = known_metadata-Registers p config m found is

found_metadata-Registers :
    (found : Option ℕ) (config : AddonConfig) (m : AddonManager)
    → IsOrdered m
    → find_addon config.name m.store m.addons ≡ found
    → Registers m (found_metadata found config m)
found_metadata-Registers none config m o e = new_metadata-Registers config m o.fresh
found_metadata-Registers (some p) config m o e =
    known_when-Registers (m.store p).loaded p config m e refl

load_metadata-Registers :
    (config : AddonConfig) (m : AddonManager) → IsOrdered m → Registers m (load_metadata config m)
unfolding load_metadata
load_metadata-Registers config m o = elim (Bool-cases (is_complete config)) [
  | inl e ↦
      rw e (found_metadata-Registers (find_addon config.name m.store m.addons) config m o refl)
  | inr e ↦ rw e (Registers-refl m)
]

pub load_all_metadata-IsOrdered :
    (configs : List AddonConfig) (m : AddonManager)
    → IsOrdered m
    → IsOrdered (load_all_metadata configs m)
unfolding load_all_metadata
load_all_metadata-IsOrdered [] m o = o
load_all_metadata-IsOrdered (config ∷ configs) m o =
    load_all_metadata-IsOrdered configs (load_metadata config m)
      (Registers-IsOrdered m (load_metadata config m) o (load_metadata-Registers config m o))

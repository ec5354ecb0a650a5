-- ===== src/Addon/Order.antt =====
-- addon.c: `manager->loadedAddons` has every loaded addon once, behind all its dependencies.
use fcitx_ng.Prelude.{
  ℕ, zero, suc, ◌<◌, ◌≡◌, ◌≢◌, ◌⊎◌, inl, inr, refl, sym, ap, ◌∙◌, Bool, true, Option, none, some,
  List, [], ◌∷◌, ◌==◌, ==_iff, length, get_elem?, arith, Bool-cases, elem, subst, get_elem?_bound,
  get_elem?-append, get_elem?-append_last, get_elem?-append_cases,
}
use fcitx_ng.Strings.{Text}
use fcitx_ng.HashSet.{StringHashSet}
use fcitx_ng.Addon.{
  Addon, AddonManager, AddonInstance, AddonResolver, lookup, find_addon, check_dependency,
  check_dependencies,
}
use fcitx_ng.Addon.Ready.{IsCallable}
use fcitx_ng.Addon.Visit.{Keeps, Disables, Loads, Visit, unchanged, disables, loads}

-- The addon that the name `d` finds stands before `i` in the load order.
pub record LoadedBefore (m : AddonManager) (i : ℕ) (d : Text) : Type 0 where
  pub addon : ℕ
  pub found : find_addon d m.store m.addons ≡ some addon
  pub position : ℕ
  pub earlier : position < i
  pub listed : get_elem? m.loaded_addons position ≡ some addon

pub record IsOrdered (m : AddonManager) : Type 0 where
  pub marked : (i p : ℕ) → get_elem? m.loaded_addons i ≡ some p → (m.store p).loaded ≡ true
  pub listed :
      (p : ℕ) → (m.store p).loaded ≡ true → (i : ℕ) × (get_elem? m.loaded_addons i ≡ some p)
  pub once :
      (i j p : ℕ)
      → get_elem? m.loaded_addons i ≡ some p
      → get_elem? m.loaded_addons j ≡ some p
      → i ≡ j
  pub before :
      (i p k : ℕ) (d : Text)
      → get_elem? m.loaded_addons i ≡ some p
      → get_elem? (m.store p).dependencies k ≡ some d
      → LoadedBefore m i d
  pub resolved :
      (i p : ℕ)
      → get_elem? m.loaded_addons i ≡ some p
      → (r : AddonResolver) × (lookup (m.store p).config.addon_type m.resolvers ≡ some r)
  pub callable : (i p : ℕ) → get_elem? m.loaded_addons i ≡ some p → IsCallable p m
  pub known : (p : ℕ) → (m.store p).loaded ≡ true → p < m.next_addon
  pub fresh : (p : ℕ) → elem p m.addons ≡ true → p < m.next_addon

pub find_addon-names :
    (d : Text) (ps : List ℕ) (m n : AddonManager)
    → ((q : ℕ) → (n.store q).config.name ≡ (m.store q).config.name)
    → find_addon d n.store ps ≡ find_addon d m.store ps
find_addon-names d [] m n same = refl
find_addon-names d (p ∷ ps) m n same = ground (arith, same p, find_addon-names d ps m n same)

check_dependency_loaded :
    (found : Option ℕ) (rest : Option Bool) (m : AddonManager)
    → check_dependency found rest m ≡ some true
    → (rest ≡ some true) × ((q : ℕ) × ((found ≡ some q) × ((m.store q).loaded ≡ true)))
check_dependency_loaded none rest m h = absurd (ground arith)
check_dependency_loaded (some q) none m h = absurd (ground arith)
check_dependency_loaded (some q) (some all_loaded) m h = (ground arith, (q, (refl, ground arith)))

check_dependencies_loaded :
    (dependencies : StringHashSet) (m : AddonManager) (k : ℕ) (d : Text)
    → check_dependencies dependencies m ≡ some true
    → get_elem? dependencies k ≡ some d
    → (q : ℕ) × ((find_addon d m.store m.addons ≡ some q) × ((m.store q).loaded ≡ true))
unfolding check_dependencies
check_dependencies_loaded [] m k d h e = absurd (ground arith)
check_dependencies_loaded (key ∷ dependencies) m zero d h e =
    let here = check_dependency_loaded _ _ m h in
    (here.1.0, (ground (arith, here.1.1.0, e), here.1.1.1))
check_dependencies_loaded (key ∷ dependencies) m (suc k) d h e =
    check_dependencies_loaded dependencies m k d (check_dependency_loaded _ _ m h).0 e

pub Keeps-find :
    (p : ℕ) (m n : AddonManager) (d : Text)
    → Keeps p m n
    → find_addon d n.store n.addons ≡ find_addon d m.store m.addons
Keeps-find p m n d k =
    ap (λ (l : List ℕ). find_addon d n.store l) k.addons ∙ find_addon-names d m.addons m n k.name

Keeps-lookup :
    (p : ℕ) (m n : AddonManager) (q : ℕ)
    → Keeps p m n
    → lookup (n.store q).config.addon_type n.resolvers
      ≡ lookup (m.store q).config.addon_type m.resolvers
Keeps-lookup p m n q k =
    ap (λ (t : Text). lookup t n.resolvers) (k.addon_type q)
    ∙ ap (λ (l : List (Text × AddonResolver)). lookup (m.store q).config.addon_type l) k.resolvers

LoadedBefore-Keeps :
    (p : ℕ) (m n : AddonManager) (i : ℕ) (d : Text)
    → Keeps p m n
    → ((j q : ℕ) → get_elem? m.loaded_addons j ≡ some q → get_elem? n.loaded_addons j ≡ some q)
    → LoadedBefore m i d
    → LoadedBefore n i d
LoadedBefore-Keeps p m n i d keeps more b = record {
  addon = b.addon;
  found = Keeps-find p m n d keeps ∙ b.found;
  position = b.position;
  earlier = b.earlier;
  listed = more b.position b.addon b.listed;
}

Disables-marks :
    (p : ℕ) (m n : AddonManager)
    → Disables p m n
    → (q : ℕ) → (n.store q).loaded ≡ (m.store q).loaded
Disables-marks p m n d q = ground (arith, d.marks, d.keeps.others q, ==_iff q p)

Disables-inst :
    (p : ℕ) (m n : AddonManager)
    → Disables p m n
    → (q : ℕ) → (m.store q).loaded ≡ true
    → (n.store q).inst ≡ (m.store q).inst
Disables-inst p m n d q h = elim (Bool-cases (q == p)) [
  | inl e ↦
      let same : q ≡ p = ground (arith, ==_iff q p, e) in
      rw same (d.inst (ap (λ (s : ℕ). (m.store s).loaded) (sym same) ∙ h))
  | inr e ↦ ground (arith, ==_iff q p, e, d.keeps.others q)
]

Keeps-fresh :
    (p : ℕ) (m n : AddonManager) (q : ℕ)
    → IsOrdered m
    → Keeps p m n
    → elem q n.addons ≡ true
    → q < n.next_addon
Keeps-fresh p m n q o k h =
    subst (λ (l : ℕ). q < l) (sym k.next_addon)
      (o.fresh q (ap (λ (xs : List ℕ). elem q xs) (sym k.addons) ∙ h))

Disables-IsOrdered : (p : ℕ) (m n : AddonManager) → IsOrdered m → Disables p m n → IsOrdered n
Disables-IsOrdered p m n o d =
    let at : (i q : ℕ)
        → get_elem? n.loaded_addons i ≡ some q
        → get_elem? m.loaded_addons i ≡ some q =
      λ i q h. ap (λ (l : List ℕ). get_elem? l i) (sym d.loaded_addons) ∙ h in
    let to : (i q : ℕ)
        → get_elem? m.loaded_addons i ≡ some q
        → get_elem? n.loaded_addons i ≡ some q =
      λ i q h. ap (λ (l : List ℕ). get_elem? l i) d.loaded_addons ∙ h in
    record {
      marked = λ i q h. Disables-marks p m n d q ∙ o.marked i q (at i q h);
      listed =
          λ q h. let l = o.listed q (sym (Disables-marks p m n d q) ∙ h) in (l.0, to l.0 q l.1);
      once = λ i j q h g. o.once i j q (at i q h) (at j q g);
      before = λ i q k e h g. LoadedBefore-Keeps p m n i e d.keeps to (
          o.before i q k e (at i q h)
            (ap (λ (l : StringHashSet). get_elem? l k) (sym (d.keeps.dependencies q)) ∙ g));
      resolved =
          λ i q h. let r = o.resolved i q (at i q h) in (r.0, Keeps-lookup p m n q d.keeps ∙ r.1);
      callable = λ i q h.
          let c = o.callable i q (at i q h) in
          (
            c.0,
            (
              ap (λ (x : AddonInstance). x.api) (Disables-inst p m n d q (o.marked i q (at i q h)))
                  ∙ c.1.0,
              c.1.1,
            ),
          );
      known = λ q h.
          subst (λ (k : ℕ). q < k) (sym d.keeps.next_addon)
            (o.known q (sym (Disables-marks p m n d q) ∙ h));
      fresh = λ q h. Keeps-fresh p m n q o d.keeps h;
    }

-- What is listed when `p` has been appended.
listed_cases :
    (p : ℕ) (m n : AddonManager) (i q : ℕ)
    → Loads p m n
    → get_elem? n.loaded_addons i ≡ some q
    → (get_elem? m.loaded_addons i ≡ some q) ⊎ ((i ≡ length m.loaded_addons) × (q ≡ p))
listed_cases p m n i q l h =
    get_elem?-append_cases m.loaded_addons p q i
      (ap (λ (xs : List ℕ). get_elem? xs i) (sym l.loaded_addons) ∙ h)

listed_more :
    (p : ℕ) (m n : AddonManager) (i q : ℕ)
    → Loads p m n
    → get_elem? m.loaded_addons i ≡ some q
    → get_elem? n.loaded_addons i ≡ some q
listed_more p m n i q l h =
    ap (λ (xs : List ℕ). get_elem? xs i) l.loaded_addons
    ∙ get_elem?-append m.loaded_addons (p ∷ []) i q h

Loads-marked :
    (p : ℕ) (m n : AddonManager) (q : ℕ)
    → Loads p m n
    → (n.store q).loaded ≡ true
    → (q ≡ p) ⊎ ((m.store q).loaded ≡ true)
Loads-marked p m n q l h = elim (Bool-cases (q == p)) [
  | inl e ↦ inl (ground (arith, ==_iff q p, e))
  | inr e ↦ inr (ground (arith, ==_iff q p, e, l.keeps.others q, h))
]

-- The dependencies of the new addon are all loaded, so they stand before it.
new_before :
    (p : ℕ) (m n : AddonManager) (k : ℕ) (d : Text)
    → IsOrdered m
    → Loads p m n
    → check_dependencies (m.store p).dependencies m ≡ some true
    → get_elem? (n.store p).dependencies k ≡ some d
    → LoadedBefore n (length m.loaded_addons) d
new_before p m n k d o l checked g =
    let e = ap (λ (xs : StringHashSet). get_elem? xs k) (sym (l.keeps.dependencies p)) ∙ g in
    let found = check_dependencies_loaded (m.store p).dependencies m k d checked e in
    let position = o.listed found.0 found.1.1 in
    record {
      addon = found.0;
      found = Keeps-find p m n d l.keeps ∙ found.1.0;
      position = position.0;
      earlier = get_elem?_bound m.loaded_addons position.0 found.0 position.1;
      listed = listed_more p m n position.0 found.0 l position.1;
    }

-- The addon that is appended was not listed.
new_unlisted :
    (p : ℕ) (m n : AddonManager) (i q : ℕ) {A : Type 0}
    → IsOrdered m
    → Loads p m n
    → get_elem? m.loaded_addons i ≡ some q
    → q ≡ p
    → A
new_unlisted p m n i q o l h e = absurd (ground (arith, o.marked i q h, e, l.was))

Loads-once :
    (p : ℕ) (m n : AddonManager)
    → IsOrdered m
    → Loads p m n
    → (i j q : ℕ) → get_elem? n.loaded_addons i ≡ some q
    → get_elem? n.loaded_addons j ≡ some q
    → i ≡ j
Loads-once p m n o l i j q h g = elim (listed_cases p m n i q l h) [
  | inl e ↦ elim (listed_cases p m n j q l g) [
    | inl f ↦ o.once i j q e f
    | inr f ↦ new_unlisted p m n i q o l e f.1
  ]
  | inr e ↦ elim (listed_cases p m n j q l g) [
    | inl f ↦ new_unlisted p m n j q o l f e.1
    | inr f ↦ e.0 ∙ sym f.0
  ]
]

Loads-IsOrdered :
    (p : ℕ) (m n : AddonManager)
    → IsOrdered m
    → Loads p m n
    → check_dependencies (m.store p).dependencies m ≡ some true
    → elem p m.addons ≡ true
    → IsOrdered n
Loads-IsOrdered p m n o l checked member = record {
  marked = λ i q h. elim (listed_cases p m n i q l h) [
    | inl g ↦ ground (arith, l.marks, l.keeps.others q, ==_iff q p, o.marked i q g)
    | inr g ↦ ground (arith, g.1, l.marks)
  ];
  listed = λ q h. elim (Loads-marked p m n q l h) [
    | inl e ↦ (
      length m.loaded_addons,
      (ap (λ (xs : List ℕ). get_elem? xs (length m.loaded_addons)) l.loaded_addons
          ∙ get_elem?-append_last m.loaded_addons p
          ∙ ap (λ (s : ℕ). some s) (sym e)),
    )
    | inr e ↦ let g = o.listed q e in (g.0, listed_more p m n g.0 q l g.1)
  ];
  once = Loads-once p m n o l;
  before = λ i q k e h g. elim (listed_cases p m n i q l h) [
    | inl f ↦
        LoadedBefore-Keeps p m n i e l.keeps (λ j r. listed_more p m n j r l)
          (o.before i q k e f
            (ap (λ (xs : StringHashSet). get_elem? xs k) (sym (l.keeps.dependencies q)) ∙ g))
    | inr f ↦
        subst (λ (j : ℕ). LoadedBefore n j e) (sym f.0)
          (new_before p m n k e o l checked
            (ap (λ (s : ℕ). get_elem? (n.store s).dependencies k) (sym f.1) ∙ g))
  ];
  resolved = λ i q h. elim (listed_cases p m n i q l h) [
    | inl g ↦ let r = o.resolved i q g in (r.0, Keeps-lookup p m n q l.keeps ∙ r.1)
    | inr g ↦ (
      l.resolver,
      Keeps-lookup p m n q l.keeps
          ∙ ap (λ (s : ℕ). lookup (m.store s).config.addon_type m.resolvers) g.1
          ∙ l.resolved,
    )
  ];
  callable = λ i q h. elim (listed_cases p m n i q l h) [
    | inl g ↦
        let apart : q ≢ p = λ e. new_unlisted p m n i q o l g e in
        let c = o.callable i q g in
        (c.0, (ap (λ (a : Addon). a.inst.api) (l.keeps.others q apart) ∙ c.1.0, c.1.1))
    | inr g ↦ subst (λ (s : ℕ). IsCallable s n) (sym g.1) l.callable
  ];
  known = λ q h.
      subst (λ (k : ℕ). q < k) (sym l.keeps.next_addon)
        (elim (Loads-marked p m n q l h) [
          | inl e ↦ subst (λ (s : ℕ). s < m.next_addon) (sym e) (o.fresh p member)
          | inr e ↦ o.known q e
        ]);
  fresh = λ q h. Keeps-fresh p m n q o l.keeps h;
}

pub Visit-IsOrdered :
    (p : ℕ) (m n : AddonManager) → elem p m.addons ≡ true → IsOrdered m → Visit p m n → IsOrdered n
Visit-IsOrdered p m n member o (unchanged e) = subst IsOrdered (sym e) o
Visit-IsOrdered p m n member o (disables d) = Disables-IsOrdered p m n o d
Visit-IsOrdered p m n member o (loads l checked) = Loads-IsOrdered p m n o l checked member

-- ===== src/Addon/Waits.antt =====
-- addon.c: the addons that `fcitx_addon_manager_load` leaves enabled without loading them.
use fcitx_ng.Prelude.{
  ℕ, suc, ◌≡◌, ◌⊎◌, inl, inr, refl, sym, ap, ◌∙◌, Bool, true, false, Option, none, some, List, [],
  ◌∷◌, ◌++◌, ==_iff, get_elem?, arith, Bool-cases, Option-cases, elem, subst,
}
use fcitx_ng.Strings.{Text}
use fcitx_ng.HashSet.{StringHashSet}
use fcitx_ng.Addon.{
  AddonConfig, AddonManager, find_addon, check_dependency, check_dependencies, visit_addon,
  load_round,
}
use fcitx_ng.Addon.Visit.{Visit, unchanged, disables, loads, visit_addon-Visit, visit_addon_waits}
use fcitx_ng.Addon.Rounds.{is_enabled, load_round_enabled, load_round-addons, load_rounds_last}
use fcitx_ng.Addon.Order.{Keeps-find}
use fcitx_ng.Addon.Load.{manager_load, manager_load_cases, mark_loaded}

abbrev pub is_loaded : ℕ → AddonManager → Bool
is_loaded q m = (m.store q).loaded

-- What the visits of the addons of a list leave.
record Visited (ps : List ℕ) (m n : AddonManager) : Type 0 where
  find : (d : Text) → find_addon d n.store n.addons ≡ find_addon d m.store m.addons
  dependencies : (q : ℕ) → (n.store q).dependencies ≡ (m.store q).dependencies
  marks : (q : ℕ) → is_loaded q m ≡ true → is_loaded q n ≡ true
  others : (q : ℕ) → elem q ps ≡ false → is_loaded q n ≡ is_loaded q m

Visit-Visited : (p : ℕ) (m n : AddonManager) → Visit p m n → Visited (p ∷ []) m n
Visit-Visited p m n (unchanged e) = record {
  find = λ d. ap (λ (l : AddonManager). find_addon d l.store l.addons) e;
  dependencies = λ q. ap (λ (l : AddonManager). (l.store q).dependencies) e;
  marks = λ q h. ap (λ (l : AddonManager). is_loaded q l) e ∙ h;
  others = λ q h. ap (λ (l : AddonManager). is_loaded q l) e;
}
Visit-Visited p m n (disables d) = record {
  find = λ f. Keeps-find p m n f d.keeps;
  dependencies = d.keeps.dependencies;
  marks = λ q h. ground (arith, d.marks, d.keeps.others q, ==_iff q p);
  others = λ q h. ground (arith, d.keeps.others q, ==_iff q p);
}
Visit-Visited p m n (loads l checked) = record {
  find = λ f. Keeps-find p m n f l.keeps;
  dependencies = l.keeps.dependencies;
  marks = λ q h. ground (arith, l.marks, l.keeps.others q, ==_iff q p);
  others = λ q h. ground (arith, l.keeps.others q, ==_iff q p);
}

load_round-Visited : (ps : List ℕ) (m : AddonManager) → Visited ps m (load_round ps m).1
unfolding load_round
load_round-Visited [] m = record {
  find = λ d. refl;
  dependencies = λ q. refl;
  marks = λ q h. h;
  others = λ q h. refl;
}
load_round-Visited (p ∷ ps) m =
    let first = Visit-Visited p m _ (visit_addon-Visit p m) in
    let rest = load_round-Visited ps (visit_addon p m).1 in
    record {
      find = λ d. rest.find d ∙ first.find d;
      dependencies = λ q. rest.dependencies q ∙ first.dependencies q;
      marks = λ q h. rest.marks q (first.marks q h);
      others = λ q h. rest.others q (ground arith) ∙ first.others q (ground arith);
    }

-- A dependency of `p` that is not loaded, or does not stand before `p`.
pub record WaitsFor (p : ℕ) (behind : List ℕ) (n : AddonManager) : Type 0 where
  pub index : ℕ
  pub name : Text
  pub dependency : get_elem? (n.store p).dependencies index ≡ some name
  pub addon : ℕ
  pub found : find_addon name n.store n.addons ≡ some addon
  pub missing : (is_loaded addon n ≡ false) ⊎ (elem addon (p ∷ behind) ≡ true)

rest_unloaded :
    (q : ℕ) (rest : Option Bool) (m : AddonManager)
    → is_loaded q m ≡ true
    → check_dependency (some q) rest m ≡ some false
    → rest ≡ some false
rest_unloaded q none m on h = absurd (ground arith)
rest_unloaded q (some all_loaded) m on h = ground (arith, on, h)

-- The dependency that keeps the loop over the dependencies from finding them all loaded.
unloaded_dependency :
    (dependencies : StringHashSet) (m : AddonManager)
    → check_dependencies dependencies m ≡ some false
    → (k : ℕ) × ((d : Text) × ((q : ℕ) × ((get_elem? dependencies k ≡ some d)
            × ((find_addon d m.store m.addons ≡ some q) × (is_loaded q m ≡ false)))))
unfolding check_dependencies
unloaded_dependency [] m h = absurd (ground arith)
unloaded_dependency (key ∷ dependencies) m h =
    elim (Option-cases (find_addon key m.store m.addons)) [
      | inl e ↦ absurd (ground (arith, e, h))
      | inr (q, e) ↦ elim (Bool-cases (is_loaded q m)) [
        | inl f ↦
            let here : check_dependency (some q) (check_dependencies dependencies m) m
                ≡ some false =
              subst
                (λ (o : Option ℕ).
                  check_dependency o (check_dependencies dependencies m) m ≡ some false)
                e h in
            let rest =
              unloaded_dependency dependencies m
                (rest_unloaded q (check_dependencies dependencies m) m f here) in
            (suc rest.0, rest.1)
        | inr f ↦ (0, (key, (q, (refl, (e, f)))))
      ]
    ]

round_waits :
    (before : List ℕ) (p : ℕ) (behind : List ℕ) (m : AddonManager)
    → (load_round (before ++ p ∷ behind) m).0 ≡ false
    → is_enabled p (load_round (before ++ p ∷ behind) m).1 ≡ true
    → is_loaded p (load_round (before ++ p ∷ behind) m).1 ≡ false
    → WaitsFor p behind (load_round (before ++ p ∷ behind) m).1
unfolding load_round
round_waits (q ∷ before) p behind m h on off =
    round_waits before p behind (visit_addon q m).1 (ground arith) on off
round_waits [] p behind m h on off =
    let l = (visit_addon p m).1 in
    let later = load_round-Visited behind l in
    let all = load_round-Visited (p ∷ behind) m in
    let off_then : is_loaded p l ≡ false = ground (arith, off, later.marks p) in
    let checked =
      visit_addon_waits p m (ground arith) (load_round_enabled behind l p on) off_then in
    let u = unloaded_dependency (m.store p).dependencies m checked in
    record {
      index = u.0;
      name = u.1.0;
      dependency = ap (λ (xs : StringHashSet). get_elem? xs u.0) (all.dependencies p) ∙ u.1.1.1.0;
      addon = u.1.1.0;
      found = all.find u.1.0 ∙ u.1.1.1.1.0;
      missing = elim (Bool-cases (elem u.1.1.0 (p ∷ behind))) [
        | inl e ↦ inr e
        | inr e ↦ inl (all.others u.1.1.0 e ∙ u.1.1.1.1.1)
      ];
    }

split_waits :
    (before : List ℕ) (p : ℕ) (behind ps : List ℕ) (m : AddonManager)
    → ps ≡ before ++ p ∷ behind
    → (load_round ps m).0 ≡ false
    → is_enabled p (load_round ps m).1 ≡ true
    → is_loaded p (load_round ps m).1 ≡ false
    → WaitsFor p behind (load_round ps m).1
split_waits before p behind ps m split =
    subst
      (λ (l : List ℕ).
        (load_round l m).0 ≡ false
        → is_enabled p (load_round l m).1 ≡ true
        → is_loaded p (load_round l m).1 ≡ false
        → WaitsFor p behind (load_round l m).1)
      (sym split) (round_waits before p behind m)

mark_loaded-WaitsFor :
    (p : ℕ) (behind : List ℕ) (m : AddonManager)
    → WaitsFor p behind m
    → WaitsFor p behind (mark_loaded m)
mark_loaded-WaitsFor p behind m w = record {
  index = w.index;
  name = w.name;
  dependency = w.dependency;
  addon = w.addon;
  found = w.found;
  missing = w.missing;
}

-- After a load that gives a result, which takes that it deletes no item of the dictionary twice,
-- an addon that is enabled and not loaded has a dependency that is an addon, and that addon is not
-- loaded or does not stand before it in the dictionary: no other enabled addon is left out.
pub manager_load-waits :
    (fuel : ℕ) (configs : List AddonConfig) (m n : AddonManager)
    → manager_load fuel configs m ≡ some n
    → (before : List ℕ) (p : ℕ) (behind : List ℕ) → n.addons ≡ before ++ p ∷ behind
    → is_enabled p n ≡ true
    → is_loaded p n ≡ false
    → WaitsFor p behind n
manager_load-waits fuel configs m n e before p behind split on off =
    let l = manager_load_cases fuel configs m n e in
    let last = load_rounds_last fuel _ l.0 l.1.0 in
    let k = last.0 in
    let end : mark_loaded (load_round k.addons k).1 ≡ n =
      ap (λ (j : AddonManager). mark_loaded j) last.1.1 ∙ l.1.1 in
    let split_k : k.addons ≡ before ++ p ∷ behind =
      sym (load_round-addons k.addons k) ∙ ap (λ (j : AddonManager). j.addons) end ∙ split in
    subst (λ (j : AddonManager). WaitsFor p behind j) end
      (mark_loaded-WaitsFor p behind (load_round k.addons k).1 (
        split_waits before p behind k.addons k split_k last.1.0
          (ap (λ (j : AddonManager). is_enabled p j) end ∙ on)
          (ap (λ (j : AddonManager). is_loaded p j) end ∙ off)))

-- ===== src/Addon/Metadata/Described.antt =====
-- addon.c: the addon that `_fcitx_addon_load_metadata` leaves for a configuration.
use fcitx_ng.Prelude.{
  ℕ, ◌≡◌, ◌⊎◌, inl, inr, refl, sym, ap, ◌∙◌, Bool, true, false, not, ◌&&◌, ◌||◌, Option, none, some,
  List, [], ◌∷◌, ◌++◌, ◌==◌, ==_iff, arith, Bool-cases, elem, subst,
}
use fcitx_ng.Strings.{Text}
use fcitx_ng.HashSet.{same_key, parse}
use fcitx_ng.HashSet.Parse.{same_key_self}
use fcitx_ng.Addon.{Addon, AddonConfig, AddonManager, find_addon}
use fcitx_ng.Addon.Order.{IsOrdered, find_addon-names}
use fcitx_ng.Addon.Metadata.{
  is_complete, contains_opt, override, known_when, new_metadata, found_metadata, load_metadata,
}
use fcitx_ng.Addon.Metadata.Registers.{find_addon-found}

-- The list of enabled addons wins over the disabled ones, and those over the configuration.
abbrev pub enabled_by : AddonManager → AddonConfig → Bool
enabled_by m config =
    contains_opt m.enabled_addons config.name
    || config.enabled && not (m.disabled_all_addons || contains_opt m.disabled_addons config.name)

-- What the addon `p` is after `config` has been read.
pub record Described (config : AddonConfig) (p : ℕ) (m n : AddonManager) : Type 0 where
  pub found : find_addon config.name n.store n.addons ≡ some p
  pub config_is : (n.store p).config ≡ record config { enabled = enabled_by m config }
  pub dependencies : (n.store p).dependencies ≡ parse config.dependency 44
  pub unloaded : (n.store p).loaded ≡ false

enabled_by-override :
    (m : AddonManager) (config : AddonConfig)
    → override m config.name config.enabled ≡ enabled_by m config
enabled_by-override m config = ground arith

find_addon-new :
    (d : Text) (ps : List ℕ) (store store₁ : ℕ → Addon) (p : ℕ)
    → ((r : ℕ) → elem r ps ≡ true → (store₁ r).config.name ≡ (store r).config.name)
    → (store₁ p).config.name ≡ d
    → find_addon d store ps ≡ none
    → find_addon d store₁ (ps ++ p ∷ []) ≡ some p
find_addon-new d [] store store₁ p same is h = rw is (rw (same_key_self d) refl)
find_addon-new d (r ∷ ps) store store₁ p same is h =
    let here = same r (ground (arith, ==_iff r r)) in
    elim (Bool-cases (same_key (store r).config.name d)) [
      | inl e ↦ absurd (ground (arith, h, e))
      | inr e ↦ rw here (
          rw e (
            find_addon-new d ps store store₁ p (λ s f. same s (ground (arith, f))) is
              (simp e at h)))
    ]

new_metadata-Described :
    (config : AddonConfig) (m : AddonManager)
    → IsOrdered m
    → find_addon config.name m.store m.addons ≡ none
    → Described config m.next_addon m (new_metadata config m)
new_metadata-Described config m o missing =
    let p = m.next_addon in
    record {
      found =
          find_addon-new config.name m.addons m.store (new_metadata config m).store p
            (λ r f. ground (arith, ==_iff p r, o.fresh r f)) (ground (arith, ==_iff p p)) missing;
      config_is =
          let self : (p == p) ≡ true = ground (arith, ==_iff p p) in
          rw self (ap (λ (b : Bool). record config { enabled = b }) (enabled_by-override m config));
      dependencies = ground (arith, ==_iff p p);
      unloaded = ground (arith, ==_iff p p);
    }

known_when-Described :
    (p : ℕ) (config : AddonConfig) (m : AddonManager)
    → find_addon config.name m.store m.addons ≡ some p
    → (m.store p).loaded ≡ false
    → Described config p m (known_when false p config m)
known_when-Described p config m found off =
    let name = (find_addon-found config.name m.store m.addons p found).0 in
    record {
      found =
          find_addon-names config.name m.addons m (known_when false p config m)
            (λ q. ground (arith, ==_iff p q, name))
          ∙ found;
      config_is =
          let self : (p == p) ≡ true = ground (arith, ==_iff p p) in
          rw self (ap (λ (b : Bool). record config { enabled = b }) (enabled_by-override m config));
      dependencies = ground (arith, ==_iff p p);
      unloaded = ground (arith, ==_iff p p, off);
    }

found_metadata-Described :
    (found : Option ℕ) (config : AddonConfig) (m : AddonManager)
    → IsOrdered m
    → find_addon config.name m.store m.addons ≡ found
    → (p : ℕ) × (((found ≡ some p)
          × (((m.store p).loaded ≡ true) × (found_metadata found config m ≡ m)))
        ⊎ Described config p m (found_metadata found config m))
found_metadata-Described none config m o e =
    (m.next_addon, inr (new_metadata-Described config m o e))
found_metadata-Described (some p) config m o e = elim (Bool-cases ((m.store p).loaded)) [
  | inl f ↦ (p, inl (refl, (f, ap (λ (b : Bool). known_when b p config m) f)))
  | inr f ↦ (
    p,
    inr (
        subst (λ (b : Bool). Described config p m (known_when b p config m)) (sym f)
          (known_when-Described p config m e f)),
  )
]

-- For a complete configuration, and a load order that is in order, either its name is that of a
-- loaded addon and nothing changes, or afterwards its name finds an addon that is not loaded, with
-- this configuration, the dependencies that it lists, and enabled as the override lists say: the
-- enabled list wins over the disabled one, and that one over the configuration.
pub load_metadata-Described :
    (config : AddonConfig) (m : AddonManager)
    → IsOrdered m
    → is_complete config ≡ true
    → (p : ℕ) × (((find_addon config.name m.store m.addons ≡ some p)
          × (((m.store p).loaded ≡ true) × (load_metadata config m ≡ m)))
        ⊎ Described config p m (load_metadata config m))
unfolding load_metadata
load_metadata-Described config m o complete =
    rw complete (found_metadata-Described (find_addon config.name m.store m.addons) config m o refl)

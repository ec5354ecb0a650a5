-- ===== src/Addon/Properties.antt =====
-- addon.c: `fcitx_addon_manager_set_property` and `fcitx_addon_manager_get_property`.
use fcitx_ng.Prelude.{
  ℕ, ◌≡◌, refl, false, Option, some, List, [], ◌∷◌, arith, if◌then◌else◌, Bool-cases, inl, inr,
  subst,
}
use fcitx_ng.Strings.{Text}
use fcitx_ng.HashSet.{same_key}
use fcitx_ng.HashSet.Parse.{same_key_self, same_key-eq}
use fcitx_ng.Addon.{AddonManager, lookup}

-- `fcitx_dict_insert_by_str` with `replace`: an item that is there keeps its place.
unfoldable pub insert_replace : Text → ℕ → List (Text × ℕ) → List (Text × ℕ)
insert_replace key payload [] = (key, payload) ∷ []
insert_replace key payload (item ∷ items) =
    let rest = insert_replace key payload items in
    if same_key item.0 key then (item.0, payload) ∷ items else item ∷ rest

abbrev pub set_property : Text → ℕ → AddonManager → AddonManager
set_property name payload m = record m { properties = insert_replace name payload m.properties }

-- NULL is `none`.
abbrev pub get_property : AddonManager → Text → Option ℕ
get_property m name = lookup name m.properties

insert_replace_same :
    (key : Text) (payload : ℕ) (items : List (Text × ℕ))
    → lookup key (insert_replace key payload items) ≡ some payload
unfolding insert_replace
insert_replace_same key payload [] = rw (same_key_self key) refl
insert_replace_same key payload (item ∷ items) = elim (Bool-cases (same_key item.0 key)) [
  | inl e ↦ ground (arith, e)
  | inr e ↦ ground (arith, e, insert_replace_same key payload items)
]

insert_replace_other :
    (key other : Text) (payload : ℕ) (items : List (Text × ℕ))
    → same_key key other ≡ false
    → lookup other (insert_replace key payload items) ≡ lookup other items
unfolding insert_replace
insert_replace_other key other payload [] h = rw h refl
insert_replace_other key other payload (item ∷ items) h = elim (Bool-cases (same_key item.0 key)) [
  | inl e ↦ ground (arith, e, h, same_key-eq item.0 key e)
  | inr e ↦ ground (arith, e, h, insert_replace_other key other payload items h)
]

-- After a property is set, its name finds the new value and every other name what it found before.
pub get_property-set_property :
    (name other : Text) (payload : ℕ) (m : AddonManager)
    → get_property (set_property name payload m) other
      ≡ (if same_key name other then some payload else get_property m other)
get_property-set_property name other payload m = elim (Bool-cases (same_key name other)) [
  | inl e ↦ rw e (
      subst (λ (k : Text). lookup k (insert_replace name payload m.properties) ≡ some payload)
        (same_key-eq name other e) (insert_replace_same name payload m.properties))
  | inr e ↦ rw e (insert_replace_other name other payload m.properties e)
]

-- ===== src/Addon/Rounds.antt =====
-- addon.c: the `do` loop of `fcitx_addon_manager_load` ends. Every round but the last disables an addon.
use fcitx_ng.Prelude.{
  ℕ, zero, suc, ◌+◌, ◌≤◌, ◌<◌, ◌≡◌, inl, inr, refl, ap, ◌∙◌, Bool, true, false, some, List, [], ◌∷◌,
  ◌==◌, ==_iff, if◌then◌else◌, arith, Bool-cases, elem, subst,
}
use fcitx_ng.Addon.{AddonManager, visit_addon, load_round, load_rounds}
use fcitx_ng.Addon.Visit.{Visit, unchanged, disables, loads, visit_addon-Visit, visit_addon_update}

abbrev pub is_enabled : ℕ → AddonManager → Bool
is_enabled q m = (m.store q).config.enabled

-- The addons of the list that are enabled.
unfoldable pub enabled_count : List ℕ → AddonManager → ℕ
enabled_count [] m = 0
enabled_count (p ∷ ps) m = (if is_enabled p m then 1 else 0) + enabled_count ps m

-- No step enables an addon.
Visit-enabled :
    (p : ℕ) (m n : AddonManager)
    → Visit p m n
    → (q : ℕ) → is_enabled q n ≡ true
    → is_enabled q m ≡ true
Visit-enabled p m n (unchanged e) q h = ground (arith, ap (λ (l : AddonManager). is_enabled q l) e)
Visit-enabled p m n (disables d) q h = ground (arith, d.enabled, d.keeps.others q, ==_iff q p)
Visit-enabled p m n (loads l e) q h = ground (arith, l.enabled, l.keeps.others q, ==_iff q p)

pub load_round_enabled :
    (ps : List ℕ) (m : AddonManager) (q : ℕ)
    → is_enabled q (load_round ps m).1 ≡ true
    → is_enabled q m ≡ true
unfolding load_round
load_round_enabled [] m q h = h
load_round_enabled (p ∷ ps) m q h =
    Visit-enabled p m _ (visit_addon-Visit p m) q (load_round_enabled ps (visit_addon p m).1 q h)

enabled_count_le :
    (ps : List ℕ) (m n : AddonManager)
    → ((q : ℕ) → is_enabled q n ≡ true → is_enabled q m ≡ true)
    → enabled_count ps n ≤ enabled_count ps m
unfolding enabled_count
enabled_count_le [] m n mono = omega arith
enabled_count_le (p ∷ ps) m n mono = ground (arith, mono p, enabled_count_le ps m n mono)

enabled_count_lt :
    (ps : List ℕ) (m n : AddonManager) (p : ℕ)
    → ((q : ℕ) → is_enabled q n ≡ true → is_enabled q m ≡ true)
    → elem p ps ≡ true
    → is_enabled p m ≡ true
    → is_enabled p n ≡ false
    → enabled_count ps n < enabled_count ps m
unfolding enabled_count
enabled_count_lt [] m n p mono h on off = absurd (ground arith)
enabled_count_lt (q ∷ ps) m n p mono h on off = elim (Bool-cases (p == q)) [
  | inl e ↦ ground (arith, ==_iff p q, e, enabled_count_le ps m n mono)
  | inr e ↦ ground (arith, mono q, enabled_count_lt ps m n p mono (ground arith) on off)
]

-- An addon of the list that the round has disabled.
abbrev Disabled : List ℕ → AddonManager → AddonManager → Type 0
Disabled ps m n =
    (p : ℕ) × ((elem p ps ≡ true) × ((is_enabled p m ≡ true) × (is_enabled p n ≡ false)))

load_round_update :
    (ps : List ℕ) (m : AddonManager)
    → (load_round ps m).0 ≡ true
    → Disabled ps m (load_round ps m).1
unfolding load_round
load_round_update [] m h = absurd (ground arith)
load_round_update (p ∷ ps) m h = elim (Bool-cases ((visit_addon p m).0)) [
  | inl e ↦ (
    p,
    (
      ground arith,
      (
        (visit_addon_update p m e).0,
        ground (arith, visit_addon_update p m e, load_round_enabled ps (visit_addon p m).1 p),
      ),
    ),
  )
  | inr e ↦
      let later = load_round_update ps (visit_addon p m).1 (ground (arith, e, h)) in
      (
        later.0,
        (
          ground (arith, later.1.0),
          (Visit-enabled p m _ (visit_addon-Visit p m) later.0 later.1.1.0, later.1.1.1),
        ),
      )
]

-- What every visit of an addon of the list `all` keeps, a round and the whole loop keep.
pub load_round_keeps {ℓ} :
    (P : AddonManager → Type ℓ) (all : List ℕ)
    → ((p : ℕ) (m n : AddonManager) → elem p all ≡ true → P m → Visit p m n → P n)
    → (ps : List ℕ) (m : AddonManager) → ((q : ℕ) → elem q ps ≡ true → elem q all ≡ true)
    → P m
    → P (load_round ps m).1
unfolding load_round
load_round_keeps P all keep [] m within h = h
load_round_keeps P all keep (p ∷ ps) m within h =
    load_round_keeps P all keep ps _ (λ q e. within q (ground (arith, e)))
      (keep p m _ (within p (ground (arith, ==_iff p p))) h (visit_addon-Visit p m))

pub Visit-addons : (p : ℕ) (m n : AddonManager) → Visit p m n → n.addons ≡ m.addons
Visit-addons p m n (unchanged e) = ap (λ (l : AddonManager). l.addons) e
Visit-addons p m n (disables d) = d.keeps.addons
Visit-addons p m n (loads l e) = l.keeps.addons

pub load_round-addons : (ps : List ℕ) (m : AddonManager) → (load_round ps m).1.addons ≡ m.addons
load_round-addons ps m =
    load_round_keeps (λ (n : AddonManager). n.addons ≡ m.addons) ps
      (λ p l n e h v. Visit-addons p l n v ∙ h) ps m (λ q e. e) refl

-- A round that sets `update` leaves fewer addons enabled.
load_round_fewer :
    (m : AddonManager)
    → (load_round m.addons m).0 ≡ true
    → enabled_count m.addons (load_round m.addons m).1 < enabled_count m.addons m
load_round_fewer m h =
    let gone = load_round_update m.addons m h in
    enabled_count_lt m.addons m (load_round m.addons m).1 gone.0 (load_round_enabled m.addons m)
      gone.1.0 gone.1.1.0 gone.1.1.1

-- The loop ends within one round more than there are addons enabled when it starts.
pub load_rounds_end :
    (fuel : ℕ) (m : AddonManager)
    → enabled_count m.addons m < fuel
    → (n : AddonManager) × (load_rounds fuel m ≡ some n)
unfolding load_rounds
load_rounds_end zero m enough = absurd (omega arith)
load_rounds_end (suc fuel) m enough = elim (Bool-cases ((load_round m.addons m).0)) [
  | inl e ↦
      let fewer = load_round_fewer m e in
      let same = load_round-addons m.addons m in
      let least : enabled_count (load_round m.addons m).1.addons (load_round m.addons m).1 < fuel =
        rw same (omega arith) in
      rw e (load_rounds_end fuel (load_round m.addons m).1 least)
  | inr e ↦ rw e ((load_round m.addons m).1, refl)
]

pub load_rounds_keeps {ℓ} :
    (P : AddonManager → Type ℓ)
    → ((p : ℕ) (m n : AddonManager) → elem p m.addons ≡ true → P m → Visit p m n → P n)
    → (fuel : ℕ) (m n : AddonManager) → load_rounds fuel m ≡ some n
    → P m
    → P n
unfolding load_rounds
load_rounds_keeps P keep zero m n e h = absurd (ground arith)
load_rounds_keeps P keep (suc fuel) m n e h =
    let after : P (load_round m.addons m).1 =
      (load_round_keeps (λ (l : AddonManager). (l.addons ≡ m.addons) × P l) m.addons
        (λ p k l i a v.
          (Visit-addons p k l v ∙ a.0, keep p k l (ap (λ (xs : List ℕ). elem p xs) a.0 ∙ i) a.1 v))
        m.addons m (λ q i. i) (refl, h)).1 in
    elim (Bool-cases ((load_round m.addons m).0)) [
      | inl u ↦ load_rounds_keeps P keep fuel _ n (simp u at e) after
      | inr u ↦ subst P (ground (arith, u, e)) after
    ]

-- The loop ends with a round that does not set `update`.
pub load_rounds_last :
    (fuel : ℕ) (m n : AddonManager)
    → load_rounds fuel m ≡ some n
    → (l : AddonManager) × (((load_round l.addons l).0 ≡ false) × ((load_round l.addons l).1 ≡ n))
unfolding load_rounds
load_rounds_last zero m n e = absurd (ground arith)
load_rounds_last (suc fuel) m n e = elim (Bool-cases ((load_round m.addons m).0)) [
  | inl u ↦ load_rounds_last fuel _ n (simp u at e)
  | inr u ↦ (m, (u, ground (arith, u, e)))
]

-- ===== src/Key/Search.antt =====
-- key.c: the binary searches find the entry of an ordered table, and symbols and code points agree.
use fcitx_ng.Prelude.{
  ℕ, zero, suc, ◌+◌, ◌-◌, ◌/◌, ◌^◌, ◌≤◌, ◌<◌, ◌≡◌, ◌≢◌, inl, inr, refl, sym, ap, ◌∙◌, true, false,
  Option, none, some, ltb, arith, Bool-cases, bit_and, bit_or,
}
use fcitx_ng.Prelude.Bits.{bit_or_fields, bit_and_mask, bit_and-shl}
use fcitx_ng.Key.{
  search, Table, is_latin1, ucs_found, keysym_to_unicode, keysym_found, keysym_from_unicode,
}

unfoldable pub IsOrdered : (ℕ → ℕ) → ℕ → Type 0
IsOrdered field n = (i j : ℕ) → i ≤ j → j < n → field i ≤ field j

-- An index at which the field is `x`, or there is none.
pub data Finds (field : ℕ → ℕ) (n x : ℕ) : Option (Option ℕ) → Type 0 where
  hit : (mid : ℕ) → mid < n → field mid ≡ x → Finds field n x (some (some mid))
  miss : ((i : ℕ) → i < n → field i ≢ x) → Finds field n x (some none)

search_lem :
    (fuel : ℕ) (field : ℕ → ℕ) (n x min hi : ℕ)
    → IsOrdered field n
    → hi - min < fuel
    → hi ≤ n
    → ((i : ℕ) → i < n → field i ≡ x → (min ≤ i) × (i < hi))
    → Finds field n x (search fuel field x min hi)
unfolding search IsOrdered
search_lem zero field n x min hi o h b w = absurd (omega arith)
search_lem (suc fuel) field n x min hi o h b w = elim (Bool-cases (ltb min hi)) [
  | inl e ↦
      let mid = (min + (hi - 1)) / 2 in
      let low : min ≤ mid = ground arith in
      let high : mid < hi = ground arith in
      elim (Bool-cases (ltb (field mid) x)) [
        | inl f ↦
            let rest =
              search_lem fuel field n x (mid + 1) hi o (omega arith) b
                (λ i k q. (ground (arith, w i k q, o i mid), (w i k q).1)) in
            rw e (rw f rest)
        | inr f ↦ elim (Bool-cases (ltb x (field mid))) [
          | inl g ↦
              let rest =
                search_lem fuel field n x min mid o (omega arith) (omega arith)
                  (λ i k q. ((w i k q).0, ground (arith, w i k q, o mid i))) in
              rw e (rw f (rw g rest))
          | inr g ↦ rw e (rw f (rw g (hit mid (omega arith) (ground arith))))
        ]
      ]
  | inr e ↦ rw e (miss (λ i k q. ground (arith, w i k q)))
]

-- On a field that does not decrease, the binary search ends, with an index at which the field has
-- the value, or with none if there is no such index.
pub search-Finds :
    (field : ℕ → ℕ) (n x : ℕ) → IsOrdered field n → Finds field n x (search (suc n) field x 0 n)
search-Finds field n x o =
    search_lem (suc n) field n x 0 n o (omega arith) (omega arith) (λ i k q. (omega arith, k))

-- Every entry of `from`, ordered by code points, is an entry of `to`, strictly ordered by symbols of
-- 16 bits outside Latin-1.
pub record IsInverse (to from : Table) : Type 0 where
  pub by_ucs : IsOrdered from.ucs from.size
  pub by_keysym : (i j : ℕ) → i < j → j < to.size → to.keysym i < to.keysym j
  pub index : ℕ → ℕ
  pub inside : (j : ℕ) → j < from.size → index j < to.size
  pub same_keysym : (j : ℕ) → j < from.size → to.keysym (index j) ≡ from.keysym j
  pub same_ucs : (j : ℕ) → j < from.size → to.ucs (index j) ≡ from.ucs j
  pub short : (j : ℕ) → j < from.size → from.keysym j < 2 ^ 16
  pub special : (j : ℕ) → j < from.size → is_latin1 (from.keysym j) ≡ false

strict-IsOrdered : (to from : Table) → IsInverse to from → IsOrdered to.keysym to.size
unfolding IsOrdered
strict-IsOrdered to from v i j h k = elim (Bool-cases (ltb i j)) [
  | inl e ↦ ground (arith, v.by_keysym i j)
  | inr e ↦ let same : i ≡ j = ground arith in rw same (omega arith)
]

-- An index is determined by its symbol.
only_index :
    (to from : Table) (i j : ℕ)
    → IsInverse to from
    → i < to.size
    → j < to.size
    → to.keysym i ≡ to.keysym j
    → i ≡ j
only_index to from i j v h k e = ground (arith, v.by_keysym i j, v.by_keysym j i)

short_bits : (s : ℕ) → s < 2 ^ 16 → bit_and s 0xff00_0000 ≡ 0
short_bits s h = bit_and-shl 24 s 0 s 0xff (omega arith) (omega arith)

direct_bits : (wc : ℕ) → wc < 2 ^ 24 → bit_and (0x100_0000 + wc) 0xff00_0000 ≡ 0x100_0000
direct_bits wc h = bit_and-shl 24 (0x100_0000 + wc) 1 wc 0xff (omega arith) (omega arith)

direct_sym : (wc : ℕ) → wc < 2 ^ 24 → bit_or 0x100_0000 wc ≡ 0x100_0000 + wc
direct_sym wc h = bit_or_fields 24 1 wc (omega arith)

direct_back : (to : Table) (wc : ℕ) → wc < 2 ^ 24 → keysym_to_unicode to (0x100_0000 + wc) ≡ some wc
unfolding keysym_to_unicode
direct_back to wc h =
    let low : bit_and (0x100_0000 + wc) 0xff_ffff ≡ wc =
      ground (arith, bit_and_mask 24 (0x100_0000 + wc)) in
    let other : is_latin1 (0x100_0000 + wc) ≡ false = ground arith in
    rw other (rw (direct_bits wc h) (rw low refl))

ucs_back :
    (to from : Table) (j : ℕ) (o : Option (Option ℕ))
    → IsInverse to from
    → j < from.size
    → Finds to.keysym to.size (from.keysym j) o
    → ucs_found to o ≡ some (from.ucs j)
unfolding ucs_found
ucs_back to from j _ v h (hit mid inside e) =
    let same =
      only_index to from mid (v.index j) v inside (v.inside j h) (e ∙ sym (v.same_keysym j h)) in
    ap some (ap to.ucs same ∙ v.same_ucs j h)
ucs_back to from j _ v h (miss absent) =
    absurd (absent (v.index j) (v.inside j h) (v.same_keysym j h))

entry_back :
    (to from : Table) (j : ℕ)
    → IsInverse to from
    → j < from.size
    → keysym_to_unicode to (from.keysym j) ≡ some (from.ucs j)
unfolding keysym_to_unicode
entry_back to from j v h = rw (v.special j h) (
    rw (short_bits (from.keysym j) (v.short j h)) (
      ucs_back to from j (search (suc to.size) to.keysym (from.keysym j) 0 to.size) v h
        (search-Finds to.keysym to.size (from.keysym j) (strict-IsOrdered to from v))))

-- The symbol of a code point stands for it.
abbrev Back : Table → ℕ → Option ℕ → Type 0
Back to wc o = (s : ℕ) × ((o ≡ some s) × (keysym_to_unicode to s ≡ some wc))

keysym_found-Back :
    (to from : Table) (wc : ℕ) (o : Option (Option ℕ))
    → IsInverse to from
    → wc < 2 ^ 24
    → Finds from.ucs from.size wc o
    → Back to wc (keysym_found from wc o)
unfolding keysym_found
keysym_found-Back to from wc _ v h (hit j inside e) =
    (from.keysym j, (refl, entry_back to from j v inside ∙ ap some e))
keysym_found-Back to from wc _ v h (miss absent) =
    (0x100_0000 + wc, (ap some (direct_sym wc h), direct_back to wc h))

-- For tables of which the first has every entry of the second, each ordered by its compared field,
-- with symbols of 16 bits outside Latin-1, every code point below 2 ^ 24 has a symbol, and the
-- symbol gives the code point back.
pub keysym_to_unicode-keysym_from_unicode :
    (to from : Table) (wc : ℕ)
    → IsInverse to from
    → wc < 2 ^ 24
    → (s : ℕ) × ((keysym_from_unicode from wc ≡ some s) × (keysym_to_unicode to s ≡ some wc))
unfolding keysym_from_unicode
keysym_to_unicode-keysym_from_unicode to from wc v h = elim (Bool-cases (is_latin1 wc)) [
  | inl e ↦ rw e (wc, (refl, latin1_back e))
  | inr e ↦ rw e (
      keysym_found-Back to from wc (search (suc from.size) from.ucs wc 0 from.size) v h
        (search-Finds from.ucs from.size wc v.by_ucs))
]
  where
    latin1_back : is_latin1 wc ≡ true → keysym_to_unicode to wc ≡ some wc
    latin1_back e = unfold keysym_to_unicode in rw e refl

-- ===== src/Utf8/Validated/Extended.antt =====
-- The loop of `fcitx_utf8_get_char_extended`, round by round, and its tests on the first byte.
use fcitx_ng.Prelude.{
  ℕ, zero, suc, ◌+◌, ◌-◌, ◌*◌, ◌%◌, ◌^◌, ◌≤◌, ◌<◌, ◌≡◌, ◌⊎◌, refl, sym, ap, subst, ◌∙◌, bit_and,
  bit_or, Bool, true, ◌&&◌, none, some, [], ◌∷◌, ltb, ◌==◌, arith, all_below, all_below_sound,
  if◌then◌else◌, dec_lt,
}
use native.Mathlib.Nat.{pow-suc, one-le-pow}
use fcitx_ng.Prelude.Bits.{shl, bit_or_fields}
use fcitx_ng.Utf8.{Bytes, IsCString, byte, minus_one, minus_two, is_utf8_cb}
use fcitx_ng.Utf8.Masks.{continuation, two, three, four, five, six}
use fcitx_ng.Utf8.RoundTrip.{join}
use fcitx_ng.Utf8.Validated.{value, stop, scan, lead}

-- The continuation test in bytes: the six low bits, and 0x80.
pub continuation_inv :
    (x : ℕ)
    → x < 0x100
    → (bit_and x 0xc0 == 0x80) ≡ true
    → (x ≡ 0x80 + (x - 0x80)) × (x - 0x80 < 0x40)
unfolding all_below
continuation_inv x h e = ground (arith, all_below_sound 0x100 test x refl h)
  where
    test : ℕ → Bool
    test y = if bit_and y 0xc0 == 0x80 then ltb 0x7f y && ltb y 0xc0 else true

pub scan_tail : (n i x wc : ℕ) (s : Bytes) → scan n (suc i) (x ∷ s) wc ≡ scan n i s wc
unfolding scan
scan_tail zero i x wc s = refl
scan_tail (suc n) i x wc s =
    let e : suc i + 1 ≡ suc (i + 1) = omega arith in
    rw e (
      ground
        (arith, scan_tail n (i + 1) x (bit_or (shl wc 6 % 2 ^ 32) (bit_and (byte s i) 0x3f)) s))

-- One round on a continuation byte, where the value fits.
pub scan_step :
    (n wc b : ℕ) (s : Bytes)
    → wc < 0x4000000
    → b < 0x40
    → scan (suc n) 0 ((0x80 + b) ∷ s) wc ≡ scan n 0 s (join wc b)
unfolding scan is_utf8_cb
scan_step n wc b s h k =
    let e : shl wc 6 % 2 ^ 32 ≡ shl wc 6 = omega arith in
    let c = continuation b k in
    ground (arith, bit_or_fields 6 wc b, scan_tail n 0 (0x80 + b) (join wc b) s)

-- A round that goes on has read a continuation byte.
scan_inv :
    (n wc : ℕ) {w : ℕ} (s : Bytes)
    → scan (suc n) 0 s wc ≡ value w
    → (byte s 0 < 0x100)
    → (bit_and (byte s 0) 0xc0 == 0x80) ≡ true
unfolding scan
scan_inv n wc s e h = ground arith

pub record Round (n wc w : ℕ) (s : Bytes) : Type 0 where
  pub bits : ℕ
  pub behind : Bytes
  pub shape : s ≡ (0x80 + bits) ∷ behind
  pub small : bits < 0x40
  pub goes_on : scan n 0 behind (join wc bits) ≡ value w

pub scan-Round :
    (n wc : ℕ) {w : ℕ} (s : Bytes)
    → IsCString s
    → wc < 0x4000000
    → scan (suc n) 0 s wc ≡ value w
    → Round n wc w s
scan-Round n wc [] k h e = absurd (cc (scan_inv n wc [] e (omega arith)))
scan-Round n wc (x ∷ s) k h e =
    let (shape, small) = continuation_inv x k.1 (scan_inv n wc (x ∷ s) e k.1) in
    let shape' : x ∷ s ≡ (0x80 + (x - 0x80)) ∷ s = ap (λ y. y ∷ s) shape in
    record {
      bits = x - 0x80;
      behind = s;
      shape = shape';
      small = small;
      goes_on =
          sym (scan_step n wc (x - 0x80) s h small)
          ∙ ap (λ l. scan (suc n) 0 l wc) (sym shape')
          ∙ e;
    }

le_mul_pow : (n a : ℕ) → a ≤ a * 64 ^ n
le_mul_pow n a = let p : 1 ≤ 64 ^ n = one-le-pow n 64 (omega arith) in grind arith

pub scan_bound :
    (n B wc : ℕ) {w : ℕ} (s : Bytes)
    → IsCString s
    → wc < B
    → B * 64 ^ n ≤ 2 ^ 31
    → scan n 0 s wc ≡ value w
    → w < 2 ^ 31
unfolding scan
scan_bound zero B wc s k h f e = ground arith
scan_bound (suc n) B wc s k h f e =
    let g : B * 64 ^ suc n ≡ (B * 64) * 64 ^ n = rw pow-suc (omega arith) in
    let small : wc < 0x4000000 = omega (arith, le_mul_pow n (B * 64)) in
    let r = scan-Round n wc s k small e in
    scan_bound n (B * 64) (join wc r.bits) r.behind (subst IsCString r.shape k).2
      (omega (arith, r.small)) (omega arith) r.goes_on

pub lead_two : (a : ℕ) → a < 0x20 → lead (0xc0 + a) ≡ some (2, a)
unfolding lead
lead_two a h = ground (arith, two a)

pub lead_three : (a : ℕ) → a < 0x10 → lead (0xe0 + a) ≡ some (3, a)
unfolding lead
lead_three a h = ground (arith, three a)

pub lead_four : (a : ℕ) → a < 0x8 → lead (0xf0 + a) ≡ some (4, a)
unfolding lead
lead_four a h = ground (arith, four a)

pub lead_five : (a : ℕ) → a < 0x4 → lead (0xf8 + a) ≡ some (5, a)
unfolding lead
lead_five a h = ground (arith, five a)

pub lead_six : (a : ℕ) → a < 0x2 → lead (0xfc + a) ≡ some (6, a)
unfolding lead
lead_six a h = ground (arith, six a)

-- What a first byte from 0x80 on announces.
pub data Leads (x : ℕ) : Type 0 where
  refused : lead x ≡ none → Leads x
  announces_two : (a : ℕ) → a < 0x20 → x ≡ 0xc0 + a → Leads x
  announces_three : (a : ℕ) → a < 0x10 → x ≡ 0xe0 + a → Leads x
  announces_four : (a : ℕ) → a < 0x8 → x ≡ 0xf0 + a → Leads x
  announces_five : (a : ℕ) → a < 0x4 → x ≡ 0xf8 + a → Leads x
  announces_six : (a : ℕ) → a < 0x2 → x ≡ 0xfc + a → Leads x

pub leads : (x : ℕ) → 0x80 ≤ x → x < 0x100 → Leads x
unfolding lead
leads x h k = elim (dec_lt x 0xc0) [
  | yes p ↦ refused (ground arith)
  | no p ↦ elim (dec_lt x 0xe0) [
    | yes q ↦ announces_two (x - 0xc0) (omega arith) (omega arith)
    | no q ↦ elim (dec_lt x 0xf0) [
      | yes r ↦ announces_three (x - 0xe0) (omega arith) (omega arith)
      | no r ↦ elim (dec_lt x 0xf8) [
        | yes t ↦ announces_four (x - 0xf0) (omega arith) (omega arith)
        | no t ↦ elim (dec_lt x 0xfc) [
          | yes u ↦ announces_five (x - 0xf8) (omega arith) (omega arith)
          | no u ↦ elim (dec_lt x 0xfe) [
            | yes v ↦ announces_six (x - 0xfc) (omega arith) (omega arith)
            | no v ↦ refused (ground arith)
          ]
        ]
      ]
    ]
  ]
]

pub scan_stop :
    (n i : ℕ) {e : ℕ} (wc : ℕ) (s : Bytes)
    → scan n i s wc ≡ stop e
    → (e ≡ minus_one) ⊎ (e ≡ minus_two)
unfolding scan
scan_stop zero i wc s h = cc
scan_stop (suc n) i {e} wc s h =
    ground
      (arith, scan_stop n (i + 1) {e = e} (bit_or (shl wc 6 % 2 ^ 32) (bit_and (byte s i) 0x3f)) s)

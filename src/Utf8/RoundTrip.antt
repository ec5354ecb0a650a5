-- ===== src/Utf8/RoundTrip.antt =====
-- `fcitx_utf8_get_char` on what `fcitx_ucs4_to_utf8` writes. `join` puts six more bits behind a value.
use fcitx_ng.Prelude.{
  ℕ, ◌+◌, ◌*◌, ◌/◌, ◌%◌, ◌<◌, ◌≤◌, ◌≡◌, ◌∙◌, refl, [], ◌∷◌, ◌++◌, arith, take, ◌⊎◌, inl, inr,
  length, dec_lt, drop, zero, suc,
}
use fcitx_ng.Prelude.Bits.{shr, bit_or_fields, bit_and_mask}
use fcitx_ng.Utf8.{Bytes, next, get_char, ucs4_to_utf8, ucs4_char_len}
use fcitx_ng.Utf8.Masks.{continuation, ascii, two, three, four, five, six}

abbrev pub join : ℕ → ℕ → ℕ
join a b = a * 0x40 + b

pub get_char_one : (a : ℕ) (s : Bytes) → a < 0x80 → get_char (a ∷ s) ≡ (a, 1)
unfolding get_char
get_char_one a s h = ground (arith, ascii a)

pub get_char_two :
    (a b : ℕ) (s : Bytes)
    → a < 0x20
    → b < 0x40
    → get_char ((0xc0 + a) ∷ (0x80 + b) ∷ s) ≡ (join a b, 2)
unfolding get_char
get_char_two a b s ha hb = ground (arith, two a, continuation b, bit_or_fields 6 a b)

module _ (a b c : ℕ) (hb : b < 0x40) (hc : c < 0x40) where
  pub get_char_three :
      (s : Bytes)
      → a < 0x10
      → get_char ((0xe0 + a) ∷ (0x80 + b) ∷ (0x80 + c) ∷ s) ≡ (join (join a b) c, 3)
  unfolding get_char
  get_char_three s ha = ground (
    arith,
    three a,
    continuation b,
    continuation c,
    bit_or_fields 12 a (b * 0x40),
    bit_or_fields 6 (join a b) c,
  )

  module _ (d : ℕ) (hd : d < 0x40) where
    pub get_char_four :
        (s : Bytes)
        → a < 0x8
        → get_char ((0xf0 + a) ∷ (0x80 + b) ∷ (0x80 + c) ∷ (0x80 + d) ∷ s)
          ≡ (join (join (join a b) c) d, 4)
    unfolding get_char
    get_char_four s ha = ground (
      arith,
      four a,
      continuation b,
      continuation c,
      continuation d,
      bit_or_fields 18 a (b * 0x1000),
      bit_or_fields 12 (join a b) (c * 0x40),
      bit_or_fields 6 (join (join a b) c) d,
    )

    module _ (e : ℕ) (he : e < 0x40) where
      pub get_char_five :
          (s : Bytes)
          → a < 0x4
          → get_char ((0xf8 + a) ∷ (0x80 + b) ∷ (0x80 + c) ∷ (0x80 + d) ∷ (0x80 + e) ∷ s)
            ≡ (join (join (join (join a b) c) d) e, 5)
      unfolding get_char
      get_char_five s ha = ground (
        arith,
        five a,
        continuation b,
        continuation c,
        continuation d,
        continuation e,
        bit_or_fields 24 a (b * 0x40000),
        bit_or_fields 18 (join a b) (c * 0x1000),
        bit_or_fields 12 (join (join a b) c) (d * 0x40),
        bit_or_fields 6 (join (join (join a b) c) d) e,
      )

      pub get_char_six :
          (f : ℕ) (s : Bytes)
          → f < 0x40
          → a < 0x2
          → get_char
              ((0xfc + a) ∷ (0x80 + b) ∷ (0x80 + c) ∷ (0x80 + d) ∷ (0x80 + e) ∷ (0x80 + f) ∷ s)
            ≡ (join (join (join (join (join a b) c) d) e) f, 6)
      unfolding get_char
      get_char_six f s hf ha = ground (
        arith,
        six a,
        continuation b,
        continuation c,
        continuation d,
        continuation e,
        continuation f,
        bit_or_fields 30 a (b * 0x1000000),
        bit_or_fields 24 (join a b) (c * 0x40000),
        bit_or_fields 18 (join (join a b) c) (d * 0x1000),
        bit_or_fields 12 (join (join (join a b) c) d) (e * 0x40),
        bit_or_fields 6 (join (join (join (join a b) c) d) e) f,
      )

-- The bytes of one character, without the terminator.
abbrev pub encode : ℕ → Bytes
encode c = take (ucs4_to_utf8 c).0 (ucs4_to_utf8 c).1

-- Both lengths agree, and the terminator stands behind the bytes of the character.
pub ucs4_to_utf8-char_len :
    (c : ℕ)
    → ((ucs4_to_utf8 c).0 ≡ ucs4_char_len c)
      × ((ucs4_to_utf8 c).1 ≡ encode c ++ 0 ∷ [])
      × (length (encode c) ≡ ucs4_char_len c)
unfolding ucs4_to_utf8 ucs4_char_len
ucs4_to_utf8-char_len c = ground arith

pub encode_one : (c : ℕ) → c < 0x80 → encode c ≡ c ∷ []
unfolding ucs4_to_utf8
encode_one c h = ground (arith, bit_and_mask 8 c)

pub encode_two :
    (c : ℕ) → 0x80 ≤ c → c < 0x800 → encode c ≡ (0xc0 + c / 0x40) ∷ (0x80 + c % 0x40) ∷ []
unfolding ucs4_to_utf8
encode_two c h k = ground (arith, bit_and_mask 5 (shr c 6), bit_and_mask 6 c)

pub encode_three :
    (c : ℕ)
    → 0x800 ≤ c
    → c < 0x10000
    → encode c ≡ (0xe0 + c / 0x1000) ∷ (0x80 + c / 0x40 % 0x40) ∷ (0x80 + c % 0x40) ∷ []
unfolding ucs4_to_utf8
encode_three c h k =
    ground (arith, bit_and_mask 4 (shr c 12), bit_and_mask 6 (shr c 6), bit_and_mask 6 c)

pub encode_four :
    (c : ℕ)
    → 0x10000 ≤ c
    → c < 0x200000
    → encode c
      ≡ (0xf0 + c / 0x40000)
        ∷ (0x80 + c / 0x1000 % 0x40)
        ∷ (0x80 + c / 0x40 % 0x40)
        ∷ (0x80 + c % 0x40)
        ∷ []
unfolding ucs4_to_utf8
encode_four c h k = ground (
  arith,
  bit_and_mask 3 (shr c 18),
  bit_and_mask 6 (shr c 12),
  bit_and_mask 6 (shr c 6),
  bit_and_mask 6 c,
)

pub encode_five :
    (c : ℕ)
    → 0x200000 ≤ c
    → c < 0x8000000
    → encode c
      ≡ (0xf8 + c / 0x1000000 % 4)
        ∷ (0x80 + c / 0x40000 % 0x40)
        ∷ (0x80 + c / 0x1000 % 0x40)
        ∷ (0x80 + c / 0x40 % 0x40)
        ∷ (0x80 + c % 0x40)
        ∷ []
unfolding ucs4_to_utf8
encode_five c h k = ground (
  arith,
  bit_and_mask 2 (shr c 24),
  bit_and_mask 6 (shr c 18),
  bit_and_mask 6 (shr c 12),
  bit_and_mask 6 (shr c 6),
  bit_and_mask 6 c,
)

pub encode_six :
    (c : ℕ)
    → 0x8000000 ≤ c
    → c < 0x80000000
    → encode c
      ≡ (0xfc + c / 0x40000000)
        ∷ (0x80 + c / 0x1000000 % 0x40)
        ∷ (0x80 + c / 0x40000 % 0x40)
        ∷ (0x80 + c / 0x1000 % 0x40)
        ∷ (0x80 + c / 0x40 % 0x40)
        ∷ (0x80 + c % 0x40)
        ∷ []
unfolding ucs4_to_utf8
encode_six c h k = ground (
  arith,
  bit_and_mask 1 (shr c 30),
  bit_and_mask 6 (shr c 24),
  bit_and_mask 6 (shr c 18),
  bit_and_mask 6 (shr c 12),
  bit_and_mask 6 (shr c 6),
  bit_and_mask 6 c,
)

-- What is read back from the bytes of one character, by its range.
module _ (c : ℕ) (s : Bytes) where
  read_one : c < 0x80 → get_char (encode c ++ s) ≡ (c, ucs4_char_len c)
  unfolding ucs4_char_len
  read_one h = rw (encode_one c h) (get_char_one c s h ∙ ground arith)

  read_two : 0x80 ≤ c → c < 0x800 → get_char (encode c ++ s) ≡ (c, ucs4_char_len c)
  unfolding ucs4_char_len
  read_two h k =
      rw (encode_two c h k)
        (get_char_two (c / 0x40) (c % 0x40) s (omega arith) (omega arith) ∙ ground arith)

  read_three : 0x800 ≤ c → c < 0x10000 → get_char (encode c ++ s) ≡ (c, ucs4_char_len c)
  unfolding ucs4_char_len
  read_three h k = rw (encode_three c h k) (
      get_char_three (c / 0x1000) (c / 0x40 % 0x40) (c % 0x40) (omega arith) (omega arith) s
        (omega arith)
      ∙ ground arith)

  read_four : 0x10000 ≤ c → c < 0x200000 → get_char (encode c ++ s) ≡ (c, ucs4_char_len c)
  unfolding ucs4_char_len
  read_four h k = rw (encode_four c h k) (
      get_char_four (c / 0x40000) (c / 0x1000 % 0x40) (c / 0x40 % 0x40) (omega arith) (omega arith)
        (c % 0x40) (omega arith) s (omega arith)
      ∙ ground arith)

  -- The lead byte of five keeps two of the three bits above the low 24.
  pub read_five :
      0x200000 ≤ c → c < 0x8000000 → get_char (encode c ++ s) ≡ (c % 0x4000000, ucs4_char_len c)
  unfolding ucs4_char_len
  read_five h k = rw (encode_five c h k) (
      get_char_five (c / 0x1000000 % 4) (c / 0x40000 % 0x40) (c / 0x1000 % 0x40) (omega arith)
        (omega arith) (c / 0x40 % 0x40) (omega arith) (c % 0x40) (omega arith) s (omega arith)
      ∙ ground arith)

  read_six : 0x8000000 ≤ c → c < 0x80000000 → get_char (encode c ++ s) ≡ (c, ucs4_char_len c)
  unfolding ucs4_char_len
  read_six h k = rw (encode_six c h k) (
      get_char_six (c / 0x40000000) (c / 0x1000000 % 0x40) (c / 0x40000 % 0x40) (omega arith)
        (omega arith) (c / 0x1000 % 0x40) (omega arith) (c / 0x40 % 0x40) (omega arith) (c % 0x40) s
        (omega arith) (omega arith)
      ∙ ground arith)

  read_below_four : c < 0x200000 → get_char (encode c ++ s) ≡ (c, ucs4_char_len c)
  read_below_four h = elim (dec_lt c 0x80) [
    | yes p ↦ read_one p
    | no p ↦ elim (dec_lt c 0x800) [
      | yes q ↦ read_two (omega arith) q
      | no q ↦ elim (dec_lt c 0x10000) [
        | yes r ↦ read_three (omega arith) r
        | no r ↦ read_four (omega arith) h
      ]
    ]
  ]

-- Below 2 ^ 31 and outside the gap from 0x4000000 to 0x8000000, the decoder reads back the
-- character that the encoder wrote, whatever follows, and moves on by its fcitx_ucs4_char_len
-- bytes.
pub get_char-encode :
    (c : ℕ) (s : Bytes)
    → (c < 0x4000000) ⊎ ((0x8000000 ≤ c) × (c < 0x80000000))
    → get_char (encode c ++ s) ≡ (c, ucs4_char_len c)
get_char-encode c s (inr (h, k)) = read_six c s h k
get_char-encode c s (inl h) = elim (dec_lt c 0x200000) [
  | yes p ↦ read_below_four c s p
  | no p ↦ read_five c s (omega arith) (omega arith) ∙ ground arith
]

-- Every character from 0x4000000 up to 0x8000000 is read back 0x4000000 too small.
pub get_char-encode_gap :
    (c : ℕ) (s : Bytes)
    → 0x4000000 ≤ c
    → c < 0x8000000
    → (get_char (encode c ++ s)).0 + 0x4000000 ≡ c
get_char-encode_gap c s h k = rw (read_five c s (omega arith) k) (omega arith)

drop_append : (xs ys : Bytes) (n : ℕ) → length xs ≡ n → drop n (xs ++ ys) ≡ ys
drop_append [] ys zero e = refl
drop_append [] ys (suc n) e = absurd (omega arith)
drop_append (x ∷ xs) ys zero e = absurd (omega arith)
drop_append (x ∷ xs) ys (suc n) e = drop_append xs ys n (omega arith)

-- The decoder moves to what stands behind the character.
pub next-encode : (c : ℕ) (s : Bytes) → c < 0x200000 → next (encode c ++ s) ≡ s
next-encode c s h =
    rw (get_char-encode c s (inl (omega arith)))
      (drop_append (encode c) s (ucs4_char_len c) (ucs4_to_utf8-char_len c).2)

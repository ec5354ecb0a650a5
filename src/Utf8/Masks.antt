-- ===== src/Utf8/Masks.antt =====
-- The bit tests of utf8.c on lead and continuation bytes, read off by evaluation of all their values.
use fcitx_ng.Prelude.{
  ℕ, ◌+◌, ◌<◌, ◌≡◌, refl, bit_and, Bool, true, false, not, ◌&&◌, ◌==◌, arith, all_below,
  all_below_sound,
}
use fcitx_ng.Utf8.{is_utf8_cb}

-- The test `(c & mask) == tag`.
abbrev pub has : ℕ → ℕ → ℕ → Bool
has mask tag c = bit_and c mask == tag

pub continuation :
    (b : ℕ) → b < 0x40 → (is_utf8_cb (0x80 + b) ≡ true) × (bit_and (0x80 + b) 0x3f ≡ b)
unfolding is_utf8_cb all_below
continuation b h = ground (arith, all_below_sound 0x40 test b refl h)
  where
    test : ℕ → Bool
    test x = has 0xc0 0x80 (0x80 + x) && bit_and (0x80 + x) 0x3f == x

pub ascii : (b : ℕ) → b < 0x80 → has 0x80 0 b ≡ true
unfolding all_below
ascii b h = all_below_sound 0x80 (has 0x80 0) b refl h

pub two :
    (b : ℕ)
    → b < 0x20
    → (has 0x80 0 (0xc0 + b) ≡ false)
      × (has 0xe0 0xc0 (0xc0 + b) ≡ true)
      × (bit_and (0xc0 + b) 0x1f ≡ b)
unfolding all_below
two b h = ground (arith, all_below_sound 0x20 test b refl h)
  where
    test : ℕ → Bool
    test x = not (has 0x80 0 (0xc0 + x)) && has 0xe0 0xc0 (0xc0 + x) && bit_and (0xc0 + x) 0x1f == x

pub three :
    (b : ℕ)
    → b < 0x10
    → (has 0x80 0 (0xe0 + b) ≡ false)
      × (has 0xe0 0xc0 (0xe0 + b) ≡ false)
      × (has 0xf0 0xe0 (0xe0 + b) ≡ true)
      × (bit_and (0xe0 + b) 0xf ≡ b)
unfolding all_below
three b h = ground (arith, all_below_sound 0x10 test b refl h)
  where
    test : ℕ → Bool
    test x =
        not (has 0x80 0 (0xe0 + x))
        && not (has 0xe0 0xc0 (0xe0 + x))
        && has 0xf0 0xe0 (0xe0 + x)
        && bit_and (0xe0 + x) 0xf == x

pub four :
    (b : ℕ)
    → b < 0x8
    → (has 0x80 0 (0xf0 + b) ≡ false)
      × (has 0xe0 0xc0 (0xf0 + b) ≡ false)
      × (has 0xf0 0xe0 (0xf0 + b) ≡ false)
      × (has 0xf8 0xf0 (0xf0 + b) ≡ true)
      × (bit_and (0xf0 + b) 0x7 ≡ b)
unfolding all_below
four b h = ground (arith, all_below_sound 0x8 test b refl h)
  where
    test : ℕ → Bool
    test x =
        not (has 0x80 0 (0xf0 + x))
        && not (has 0xe0 0xc0 (0xf0 + x))
        && not (has 0xf0 0xe0 (0xf0 + x))
        && has 0xf8 0xf0 (0xf0 + x)
        && bit_and (0xf0 + x) 0x7 == x

pub five :
    (b : ℕ)
    → b < 0x4
    → (has 0x80 0 (0xf8 + b) ≡ false)
      × (has 0xe0 0xc0 (0xf8 + b) ≡ false)
      × (has 0xf0 0xe0 (0xf8 + b) ≡ false)
      × (has 0xf8 0xf0 (0xf8 + b) ≡ false)
      × (has 0xfc 0xf8 (0xf8 + b) ≡ true)
      × (bit_and (0xf8 + b) 0x3 ≡ b)
unfolding all_below
five b h = ground (arith, all_below_sound 0x4 test b refl h)
  where
    test : ℕ → Bool
    test x =
        not (has 0x80 0 (0xf8 + x))
        && not (has 0xe0 0xc0 (0xf8 + x))
        && not (has 0xf0 0xe0 (0xf8 + x))
        && not (has 0xf8 0xf0 (0xf8 + x))
        && has 0xfc 0xf8 (0xf8 + x)
        && bit_and (0xf8 + x) 0x3 == x

pub six :
    (b : ℕ)
    → b < 0x2
    → (has 0x80 0 (0xfc + b) ≡ false)
      × (has 0xe0 0xc0 (0xfc + b) ≡ false)
      × (has 0xf0 0xe0 (0xfc + b) ≡ false)
      × (has 0xf8 0xf0 (0xfc + b) ≡ false)
      × (has 0xfc 0xf8 (0xfc + b) ≡ false)
      × (has 0xfe 0xfc (0xfc + b) ≡ true)
      × (bit_and (0xfc + b) 0x1 ≡ b)
unfolding all_below
six b h = ground (arith, all_below_sound 0x2 test b refl h)
  where
    test : ℕ → Bool
    test x =
        not (has 0x80 0 (0xfc + x))
        && not (has 0xe0 0xc0 (0xfc + x))
        && not (has 0xf0 0xe0 (0xfc + x))
        && not (has 0xf8 0xf0 (0xfc + x))
        && not (has 0xfc 0xf8 (0xfc + x))
        && has 0xfe 0xfc (0xfc + x)
        && bit_and (0xfc + x) 0x1 == x

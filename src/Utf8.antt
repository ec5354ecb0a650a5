-- ===== src/Utf8.antt =====
-- lib/fcitx-utils/utf8.c and utf8.h.
-- A string is the list of its bytes; reading at or behind the end gives the terminator 0. A pointer
-- into a string is the rest of the string from there, or the offset that was added. A loop
-- `while (*s)` takes fuel, one more than the bytes of the string, and gives `none` if that runs out.
pub mod Masks
pub mod RoundTrip
pub mod Validated
pub mod Copy
pub mod Walk
pub mod Ascii
use fcitx_ng.Prelude.{
  ℕ, zero, suc, ◌+◌, ◌<◌, bit_and, bit_or, Bool, not, ◌&&◌, ◌||◌, Option, none, some, List, [], ◌∷◌,
  ltb, ◌==◌, if◌then◌else◌, length, get_or, drop,
}
use fcitx_ng.Prelude.Bits.{shl, shr}

abbrev pub Bytes : Type 0
Bytes = List ℕ

-- The bytes in front of the terminator: none of them is 0.
abbrev pub IsCString : Bytes → Type 0
IsCString [] = Unit
IsCString (c ∷ s) = (0 < c) × (c < 0x100) × IsCString s

-- `s[i]`.
abbrev pub byte : Bytes → ℕ → ℕ
byte s i = get_or s i 0

-- `(uint32_t) -1` and `(uint32_t) -2`.
abbrev pub minus_one : ℕ
minus_one = 0xffff_ffff

abbrev pub minus_two : ℕ
minus_two = 0xffff_fffe

-- `FCITX_ISUTF8_CB` of one byte, `CONT(i)` and `VAL(i, s)`.
unfoldable pub is_utf8_cb : ℕ → Bool
is_utf8_cb c = bit_and c 0xc0 == 0x80

abbrev pub cont : Bytes → ℕ → Bool
cont s i = is_utf8_cb (byte s i)

abbrev pub val : Bytes → ℕ → ℕ → ℕ
val s i k = shl (bit_and (byte s i) 0x3f) k

unfoldable pub char_len : Bytes → ℕ
char_len s =
    if bit_and (byte s 0) 0x80 == 0
    then 1
    else if bit_and (byte s 0) 0xe0 == 0xc0 && cont s 1
    then 2
    else if bit_and (byte s 0) 0xf0 == 0xe0 && cont s 1 && cont s 2
    then 3
    else if bit_and (byte s 0) 0xf8 == 0xf0 && cont s 1 && cont s 2 && cont s 3
    then 4
    else if bit_and (byte s 0) 0xfc == 0xf8 && cont s 1 && cont s 2 && cont s 3 && cont s 4
    then 5
    else if bit_and (byte s 0) 0xfe == 0xfc
        && cont s 1
        && cont s 2
        && cont s 3
        && cont s 4
        && cont s 5
    then 6
    else 1

-- The character, and the offset of the returned pointer.
unfoldable pub get_char : Bytes → ℕ × ℕ
get_char s =
    if bit_and (byte s 0) 0x80 == 0
    then (byte s 0, 1)
    else if bit_and (byte s 0) 0xe0 == 0xc0 && cont s 1
    then (bit_or (shl (bit_and (byte s 0) 0x1f) 6) (val s 1 0), 2)
    else if bit_and (byte s 0) 0xf0 == 0xe0 && cont s 1 && cont s 2
    then (bit_or (bit_or (shl (bit_and (byte s 0) 0xf) 12) (val s 1 6)) (val s 2 0), 3)
    else if bit_and (byte s 0) 0xf8 == 0xf0 && cont s 1 && cont s 2 && cont s 3
    then (
      bit_or (bit_or (bit_or (shl (bit_and (byte s 0) 0x7) 18) (val s 1 12)) (val s 2 6))
          (val s 3 0),
      4,
    )
    else if bit_and (byte s 0) 0xfc == 0xf8 && cont s 1 && cont s 2 && cont s 3 && cont s 4
    then (
      bit_or
          (bit_or (bit_or (bit_or (shl (bit_and (byte s 0) 0x3) 24) (val s 1 18)) (val s 2 12))
            (val s 3 6))
          (val s 4 0),
      5,
    )
    else if bit_and (byte s 0) 0xfe == 0xfc
        && cont s 1
        && cont s 2
        && cont s 3
        && cont s 4
        && cont s 5
    then (
      bit_or
          (bit_or
            (bit_or (bit_or (bit_or (shl (bit_and (byte s 0) 0x1) 30) (val s 1 24)) (val s 2 18))
              (val s 3 12))
            (val s 4 6))
          (val s 5 0),
      6,
    )
    else (byte s 0, 1)

-- The pointer that `fcitx_utf8_get_char` returns.
abbrev pub next : Bytes → Bytes
next s = drop (get_char s).1 s

unfoldable pub ucs4_char_len : ℕ → ℕ
ucs4_char_len c =
    if ltb c 0x80
    then 1
    else if ltb c 0x800
    then 2
    else if ltb c 0x10000
    then 3
    else if ltb c 0x200000
    then 4
    else if ltb c 0x8000000
    then 5
    else 6

-- The returned length, and the bytes that are stored in `output`, the terminator included.
unfoldable pub ucs4_to_utf8 : ℕ → ℕ × Bytes
ucs4_to_utf8 c =
    if ltb c 0x80
    then (1, bit_and c 0xff ∷ 0 ∷ [])
    else if ltb c 0x800
    then (2, (0xc0 + bit_and (shr c 6) 0x1f) ∷ (0x80 + bit_and c 0x3f) ∷ 0 ∷ [])
    else if ltb c 0x10000
    then (
      3,
      (0xe0 + bit_and (shr c 12) 0xf)
          ∷ (0x80 + bit_and (shr c 6) 0x3f)
          ∷ (0x80 + bit_and c 0x3f)
          ∷ 0
          ∷ [],
    )
    else if ltb c 0x200000
    then (
      4,
      (0xf0 + bit_and (shr c 18) 0x7)
          ∷ (0x80 + bit_and (shr c 12) 0x3f)
          ∷ (0x80 + bit_and (shr c 6) 0x3f)
          ∷ (0x80 + bit_and c 0x3f)
          ∷ 0
          ∷ [],
    )
    else if ltb c 0x8000000
    then (
      5,
      (0xf8 + bit_and (shr c 24) 0x3)
          ∷ (0x80 + bit_and (shr c 18) 0x3f)
          ∷ (0x80 + bit_and (shr c 12) 0x3f)
          ∷ (0x80 + bit_and (shr c 6) 0x3f)
          ∷ (0x80 + bit_and c 0x3f)
          ∷ 0
          ∷ [],
    )
    else (
      6,
      (0xfc + bit_and (shr c 30) 0x1)
          ∷ (0x80 + bit_and (shr c 24) 0x3f)
          ∷ (0x80 + bit_and (shr c 18) 0x3f)
          ∷ (0x80 + bit_and (shr c 12) 0x3f)
          ∷ (0x80 + bit_and (shr c 6) 0x3f)
          ∷ (0x80 + bit_and c 0x3f)
          ∷ 0
          ∷ [],
    )

pub strlen_loop : ℕ → Bytes → ℕ → Option ℕ
strlen_loop zero s l = none
strlen_loop (suc fuel) s l =
    let rest = strlen_loop fuel (next s) (l + 1) in if byte s 0 == 0 then some l else rest

unfoldable pub strlen : Bytes → Option ℕ
unfolding strlen_loop
strlen s = strlen_loop (suc (length s)) s 0

-- 0 for equal, 1 for different.
unfoldable pub strncmp : Bytes → Bytes → ℕ → ℕ
strncmp s t zero = 0
strncmp s t (suc n) =
    let ascii = strncmp (drop 1 s) (drop 1 t) n in
    let wide = strncmp (next s) (next t) n in
    if bit_and (byte s 0) 0x80 == 0
    then (if not (byte s 0 == byte t 0) then 1 else if byte s 0 == 0 then 0 else ascii)
    else (if not ((get_char s).0 == (get_char t).0) then 1 else wide)

-- The pointer to the character number `n`: a loop of at most `n` rounds.
unfoldable pub get_nth_char : Bytes → ℕ → Bytes
get_nth_char s zero = s
get_nth_char s (suc n) = let rest = get_nth_char (next s) n in if byte s 0 == 0 then s else rest

-- The macros `UTF8_LENGTH` and `UNICODE_VALID`.
unfoldable pub utf8_length : ℕ → ℕ
utf8_length c =
    if ltb c 0x80
    then 1
    else if ltb c 0x800
    then 2
    else if ltb c 0x10000
    then 3
    else if ltb c 0x200000
    then 4
    else if ltb c 0x4000000
    then 5
    else 6

unfoldable pub unicode_valid : ℕ → Bool
unicode_valid c =
    ltb c 0x110000
    && not (bit_and c 0xffff_f800 == 0xd800)
    && (ltb c 0xfdd0 || ltb 0xfdef c)
    && not (bit_and c 0xfffe == 0xfffe)

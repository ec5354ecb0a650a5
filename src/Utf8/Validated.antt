-- ===== src/Utf8/Validated.antt =====
-- utf8.c: `fcitx_utf8_get_char_extended`, `fcitx_utf8_get_char_validated`, `fcitx_utf8_check_string`.
pub mod Extended
pub mod Outcome
pub mod Encoded
pub mod Check
use fcitx_ng.Prelude.{
  ℕ, zero, suc, ◌+◌, ◌-◌, ◌%◌, ◌^◌, bit_and, bit_or, Bool, true, false, not, ◌||◌, Option, none,
  some, ltb, ◌==◌, if◌then◌else◌, length, ℤ, pos, negsuc,
}
use fcitx_ng.Prelude.Bits.{shl}
use fcitx_ng.Utf8.{Bytes, byte, minus_one, minus_two, next, utf8_length, unicode_valid}

-- A value, or the code with which the function returns early.
pub data Scan : Type 0 where
  value : ℕ → Scan
  stop : ℕ → Scan

-- The chain of tests on the first byte, from 0x80 on: the length, and the bits of `wc` that are kept.
unfoldable pub lead : ℕ → Option (ℕ × ℕ)
lead wc =
    if ltb wc 0xc0
    then none
    else if ltb wc 0xe0
    then some (2, bit_and wc 0x1f)
    else if ltb wc 0xf0
    then some (3, bit_and wc 0x0f)
    else if ltb wc 0xf8
    then some (4, bit_and wc 0x07)
    else if ltb wc 0xfc
    then some (5, bit_and wc 0x03)
    else if ltb wc 0xfe
    then some (6, bit_and wc 0x01)
    else none

-- `max_len >= 0 && len > max_len`.
abbrev pub exceeds : ℕ → ℤ → Bool
exceeds len (pos m) = ltb m len
exceeds len (negsuc m) = false

-- The first loop, with `n` rounds left: the bytes that `max_len` leaves are continuation bytes.
pub partial_loop : ℕ → ℕ → Bytes → ℕ
partial_loop zero i s = minus_two
partial_loop (suc n) i s =
    let rest = partial_loop n (i + 1) s in
    if not (bit_and (byte s i) 0xc0 == 0x80) then minus_one else rest

pub partial : ℤ → Bytes → ℕ
unfolding partial_loop
partial (pos m) s = partial_loop (m - 1) 1 s
partial (negsuc m) s = minus_two

-- The second loop, with `n` rounds left, from `s[i]` on. `wc` has 32 bits.
unfoldable pub scan : ℕ → ℕ → Bytes → ℕ → Scan
scan zero i s wc = value wc
scan (suc n) i s wc =
    let ch = byte s i in
    let rest = scan n (i + 1) s (bit_or (shl wc 6 % 2 ^ 32) (bit_and ch 0x3f)) in
    if not (bit_and ch 0xc0 == 0x80)
    then (if not (ch == 0) then stop minus_one else stop minus_two)
    else rest

-- The last test, `UTF8_LENGTH(wc) != len`.
unfoldable pub shortest : ℕ → Scan → ℕ
shortest len (value wc) = if not (utf8_length wc == len) then minus_one else wc
shortest len (stop e) = e

unfoldable pub multibyte : Bytes → ℤ → Option (ℕ × ℕ) → ℕ
multibyte s max_len none = minus_one
multibyte s max_len (some (len, wc)) =
    if exceeds len max_len then partial max_len s else shortest len (scan (len - 1) 1 s wc)

unfoldable pub get_char_extended : Bytes → ℤ → ℕ
get_char_extended s max_len =
    if ltb (byte s 0) 0x80 then byte s 0 else multibyte s max_len (lead (byte s 0))

abbrev is_zero : ℤ → Bool
is_zero (pos m) = m == 0
is_zero (negsuc m) = false

unfoldable pub get_char_validated : Bytes → ℤ → ℕ
get_char_validated s max_len =
    if is_zero max_len
    then minus_two
    else let result = get_char_extended s max_len in
      if not (bit_and result 0x8000_0000 == 0)
      then result
      else if not (unicode_valid result)
      then minus_one
      else result

check_string_loop : ℕ → Bytes → Option Bool
check_string_loop zero s = none
check_string_loop (suc fuel) s =
    let chr = get_char_validated s (pos 6) in
    let rest = check_string_loop fuel (next s) in
    if byte s 0 == 0
    then some true
    else if chr == minus_one || chr == minus_two
    then some false
    else rest

unfoldable pub check_string : Bytes → Option Bool
unfolding check_string_loop
check_string s = check_string_loop (suc (length s)) s

-- ===== src/Utf8/Copy.antt =====
-- utf8.c: `fcitx_utf8_strncpy` and `fcitx_utf8_strnlen`, with the walk that `fcitx_utf8_strlen` makes.
pub mod Cut
use mathlib.Core.Option
use fcitx_ng.Prelude.{
  ℕ, zero, suc, ◌+◌, ◌-◌, ◌&&◌, Option, none, some, ◌++◌, ltb, ◌==◌, if◌then◌else◌, not, length,
  take, replicate,
}
use fcitx_ng.Utf8.{Bytes, byte, get_char, next}

-- The bytes that are stored in `str`: whole characters while they fit, then zeros.
strncpy_loop : ℕ → Bytes → ℕ → Option Bytes
strncpy_loop zero s n = none
strncpy_loop (suc fuel) s n =
    let diff = (get_char s).1 in
    let rest = Option.map (λ out. take diff s ++ out) (strncpy_loop fuel (next s) (n - diff)) in
    if byte s 0 == 0
    then some (replicate n 0)
    else if ltb n diff
    then some (replicate n 0)
    else rest

unfoldable pub strncpy : Bytes → ℕ → Option Bytes
unfolding strncpy_loop
strncpy s n = strncpy_loop (suc (length s)) s n

strnlen_loop : ℕ → Bytes → ℕ → ℕ → Option ℕ
strnlen_loop zero s n len = none
strnlen_loop (suc fuel) s n len =
    let diff = (get_char s).1 in
    let rest = strnlen_loop fuel (next s) (n - diff) (len + 1) in
    if not (byte s 0 == 0) && ltb 0 n then (if ltb n diff then some len else rest) else some len

unfoldable pub strnlen : Bytes → ℕ → Option ℕ
unfolding strnlen_loop
strnlen s n = strnlen_loop (suc (length s)) s n 0

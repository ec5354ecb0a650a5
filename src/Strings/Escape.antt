-- ===== src/Strings/Escape.antt =====
-- stringutils.c: `fcitx_utils_set_escape_str_with_set` and `fcitx_utils_set_unescape_str`.
pub mod RoundTrip
use fcitx_ng.Prelude.{
  ℕ, zero, suc, ◌+◌, ◌*◌, ◌≤◌, ◌≡◌, refl, ◌∙◌, Bool, true, false, Option, none, some, List, [], ◌∷◌,
  ◌++◌, ◌==◌, if◌then◌else◌, arith, take, drop, length, length-drop, Bool-cases, inl, inr, ◌<◌,
}
use mathlib.Core.Option.{map}
use fcitx_ng.Strings.{Text, strchr, strcspn}

-- The bytes of '\\' and of the letters and controls of both switches.
unfoldable pub backslash : ℕ
backslash = 0x5c

unfoldable pub escape_char : ℕ → ℕ
escape_char c =
    if c == 7
    then 0x61
    else if c == 8
    then 0x62
    else if c == 12
    then 0x66
    else if c == 10
    then 0x6e
    else if c == 13
    then 0x72
    else if c == 9
    then 0x74
    else if c == 27
    then 0x65
    else if c == 11
    then 0x76
    else c

unfoldable pub unescape_char : ℕ → ℕ
unescape_char c =
    if c == 0x61
    then 7
    else if c == 0x62
    then 8
    else if c == 0x66
    then 12
    else if c == 0x6e
    then 10
    else if c == 0x72
    then 13
    else if c == 0x74
    then 9
    else if c == 0x65
    then 27
    else if c == 0x76
    then 11
    else c

-- The body of the loop, for what is written after `pos`: the text up to `pos`, then the escape.
unfoldable pub escape_step : Text → Text → Option Text → Option Text
unfolding backslash
escape_step dest [] after = some dest
escape_step dest (pos ∷ s) after = map (λ (t : Text). dest ++ backslash ∷ escape_char pos ∷ t) after

-- What is written from `dest` on for the text `src`; no result when the fuel is used up.
unfoldable pub escape_loop : ℕ → Text → Text → Option Text
unfolding escape_step
escape_loop zero set src = none
escape_loop (suc fuel) set src =
    let len = strcspn src set in
    let after = escape_loop fuel set (drop (suc len) src) in
    escape_step (take len src) (drop len src) after

unfoldable pub set_escape_str_with_set : Text → Text → Option Text
unfolding escape_loop
set_escape_str_with_set str set = escape_loop (suc (length str)) set str

-- `FCITX_CHAR_NEED_ESCAPE`.
abbrev pub need_escape : Text
need_escape = 7 ∷ 8 ∷ 12 ∷ 10 ∷ 13 ∷ 9 ∷ 27 ∷ 11 ∷ 0x27 ∷ 0x22 ∷ 0x5c ∷ []

-- A text, a read past the terminator, or no fuel left.
pub data Unescaped : Type 0 where
  unescaped : Text → Unescaped
  overrun : Unescaped
  out_of_fuel : Unescaped

unfoldable pub prepend : Text → Unescaped → Unescaped
prepend s (unescaped t) = unescaped (s ++ t)
prepend s overrun = overrun
prepend s out_of_fuel = out_of_fuel

-- Behind a last backslash `src` is the terminator, and the next round starts past it.
unfoldable pub unescape_step : Text → Text → Unescaped → Unescaped
unfolding prepend
unescape_step dest [] after = unescaped dest
unescape_step dest (pos ∷ []) after = overrun
unescape_step dest (pos ∷ c ∷ s) after = prepend (dest ++ unescape_char c ∷ []) after

unfoldable pub unescape_loop : ℕ → Text → Unescaped
unfolding unescape_step
unescape_loop zero src = out_of_fuel
unescape_loop (suc fuel) src =
    let len = strcspn src (0x5c ∷ []) in
    let after = unescape_loop fuel (drop (suc (suc len)) src) in
    unescape_step (take len src) (drop len src) after

unfoldable pub set_unescape_str : Text → Unescaped
unfolding unescape_loop
set_unescape_str str = unescape_loop (suc (length str)) str

-- Byte by byte: every byte of the set becomes two.
unfoldable pub escaped : Text → Text → Text
escaped set [] = []
escaped set (c ∷ s) =
    let rest = escaped set s in if strchr set c then backslash ∷ escape_char c ∷ rest else c ∷ rest

-- Byte by byte, with whether the byte before is a backslash that still waits for this one.
unfoldable pub plain : Bool → Text → Unescaped
plain false [] = unescaped []
plain true [] = overrun
plain true (c ∷ s) = prepend (unescape_char c ∷ []) (plain false s)
plain false (c ∷ s) =
    let rest = prepend (c ∷ []) (plain false s) in if c == 0x5c then plain true s else rest

-- The escapes stand for single letters or controls, and no byte of the set is such a letter.
pub record IsEscapeSet (set : Text) : Type 0 where
  pub has_backslash : strchr set 0x5c ≡ true
  pub reversible : (c : ℕ) → strchr set c ≡ true → unescape_char (escape_char c) ≡ c

escape_step-cons :
    (c : ℕ) (d l : Text) (after : Option Text)
    → escape_step (c ∷ d) l after ≡ map (λ (t : Text). c ∷ t) (escape_step d l after)
unfolding escape_step
escape_step-cons c d [] after = refl
escape_step-cons c d (p ∷ l) none = refl
escape_step-cons c d (p ∷ l) (some t) = refl

escaped_split :
    (set s : Text)
    → escape_step
        (take (strcspn s set) s)
        (drop (strcspn s set) s)
        (some (escaped set (drop (suc (strcspn s set)) s)))
      ≡ some (escaped set s)
unfolding strcspn escaped
escaped_split set [] = unfold escape_step in refl
escaped_split set (c ∷ s) = elim (Bool-cases (strchr set c)) [
  | inl e ↦ rw e (unfold escape_step in refl)
  | inr e ↦ rw e (
      escape_step-cons c (take (strcspn s set) s) (drop (strcspn s set) s)
        (some (escaped set (drop (suc (strcspn s set)) s)))
      ∙ rw (escaped_split set s) refl)
]

escape_loop_lem :
    (fuel : ℕ) (set s : Text) → length s < fuel → escape_loop fuel set s ≡ some (escaped set s)
unfolding escape_loop
escape_loop_lem zero set s h = absurd (omega arith)
escape_loop_lem (suc fuel) set [] h = unfold strcspn escape_step escaped in refl
escape_loop_lem (suc fuel) set (c ∷ s) h =
    rw
      (escape_loop_lem fuel set (drop (strcspn (c ∷ s) set) s)
        (omega (arith, length-drop (strcspn (c ∷ s) set) s)))
      (escaped_split set (c ∷ s))

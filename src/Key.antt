-- ===== src/Key.antt =====
-- lib/fcitx-utils/key.c: classes of keys, normalizing and matching, and symbols and code points.
-- A symbol and a state are natural numbers below 2 ^ 32.
pub mod Search
pub mod Normal
pub mod Match
use fcitx_ng.Prelude.{
  ℕ, zero, suc, ◌+◌, ◌-◌, ◌/◌, bit_and, bit_or, Bool, true, false, not, ◌&&◌, ◌||◌, Option, none,
  some, List, [], ◌∷◌, ltb, leb, ◌==◌, if◌then◌else◌,
}

pub record Key : Type 0 where
  pub sym : ℕ
  pub state : ℕ

-- `FcitxKeyState_Shift`, `..._Ctrl`, `..._Alt`, `..._Super`, `..._Hyper`, and two unions.
abbrev pub state_shift : ℕ
state_shift = 1

abbrev pub state_ctrl : ℕ
state_ctrl = 4

abbrev pub state_alt : ℕ
state_alt = 8

abbrev pub state_super : ℕ
state_super = 64

abbrev pub state_hyper : ℕ
state_hyper = 0x800_0000

abbrev pub state_ctrl_shift : ℕ
state_ctrl_shift = 5

-- `x & ~b`.
abbrev pub and_not : ℕ → ℕ → ℕ
and_not x b = x - bit_and x b

abbrev pub between : ℕ → ℕ → ℕ → Bool
between a x b = leb a x && leb x b

unfoldable pub is_digit : Key → Bool
is_digit key = if not (key.state == 0) then false else between 0x30 key.sym 0x39

unfoldable pub is_uaz : Key → Bool
is_uaz key = if not (key.state == 0) then false else between 0x41 key.sym 0x5a

unfoldable pub is_laz : Key → Bool
is_laz key = if not (key.state == 0) then false else between 0x61 key.sym 0x7a

unfoldable pub is_simple : Key → Bool
is_simple key = if not (key.state == 0) then false else between 0x20 key.sym 0x7e

unfoldable pub is_modifier : Key → Bool
is_modifier key =
    key.sym == 0xffe3
    || key.sym == 0xffe4
    || key.sym == 0xffe9
    || key.sym == 0xffea
    || key.sym == 0xffeb
    || key.sym == 0xffec
    || key.sym == 0xffed
    || key.sym == 0xffee
    || key.sym == 0xffe1
    || key.sym == 0xffe2

unfoldable pub is_cursor_move : Key → Bool
is_cursor_move key =
    (key.sym == 0xff51
      || key.sym == 0xff53
      || key.sym == 0xff52
      || key.sym == 0xff54
      || key.sym == 0xff55
      || key.sym == 0xff56
      || key.sym == 0xff50
      || key.sym == 0xff57)
    && (key.state == state_ctrl
        || key.state == state_ctrl_shift
        || key.state == state_shift
        || key.state == 0)

unfoldable pub keysym_to_state : ℕ → ℕ
keysym_to_state sym =
    if sym == 0xffe3 || sym == 0xffe4
    then state_ctrl
    else if sym == 0xffe9 || sym == 0xffea
    then state_alt
    else if sym == 0xffe1 || sym == 0xffe2
    then state_shift
    else if sym == 0xffeb || sym == 0xffec
    then state_super
    else if sym == 0xffed || sym == 0xffee
    then state_hyper
    else 0

abbrev pub same_key : Key → Key → Bool
same_key a b = a.sym == b.sym && a.state == b.state

-- `FcitxKeyState_Ctrl_Alt_Shift | FcitxKeyState_Super` is 77.
unfoldable pub check : Key → Key → Bool
check to_check key =
    if is_modifier key
    then (let key₁ = record key { state = and_not key.state (keysym_to_state key.sym) } in
        let key_alt = record key { state = bit_or key.state (keysym_to_state key₁.state) } in
        same_key to_check key₁ || same_key to_check key_alt)
    else same_key (record to_check { state = bit_and to_check.state 77 }) key

unfoldable pub list_check : List Key → Key → Bool
list_check [] key = false
list_check (cur ∷ list) key = let rest = list_check list key in if check key cur then true else rest

-- The loop of the binary searches: `hi` is `max + 1`, since `max` may be -1. The fields of the table's
-- entries that are compared are a function of the index. No result when the fuel is used up.
unfoldable pub search : ℕ → (ℕ → ℕ) → ℕ → ℕ → ℕ → Option (Option ℕ)
search zero field x min hi = none
search (suc fuel) field x min hi =
    let mid = (min + (hi - 1)) / 2 in
    let next : ℕ × ℕ = if ltb (field mid) x then (mid + 1, hi) else (min, mid) in
    let rest = search fuel field x next.0 next.1 in
    if ltb min hi
    then (if ltb (field mid) x then rest else if ltb x (field mid) then rest else some (some mid))
    else some none

-- A table of `size` entries.
pub record Table : Type 0 where
  pub size : ℕ
  pub keysym : ℕ → ℕ
  pub ucs : ℕ → ℕ

abbrev pub is_latin1 : ℕ → Bool
is_latin1 c = between 0x20 c 0x7e || between 0xa0 c 0xff

unfoldable pub ucs_found : Table → Option (Option ℕ) → Option ℕ
ucs_found table none = none
ucs_found table (some none) = some 0
ucs_found table (some (some mid)) = some (table.ucs mid)

unfoldable pub keysym_to_unicode : Table → ℕ → Option ℕ
unfolding search ucs_found
keysym_to_unicode table keyval =
    if is_latin1 keyval
    then some keyval
    else if bit_and keyval 0xff00_0000 == 0x100_0000
    then some (bit_and keyval 0xff_ffff)
    else ucs_found table (search (suc table.size) table.keysym keyval 0 table.size)

unfoldable pub keysym_found : Table → ℕ → Option (Option ℕ) → Option ℕ
keysym_found table wc none = none
keysym_found table wc (some none) = some (bit_or 0x100_0000 wc)
keysym_found table wc (some (some mid)) = some (table.keysym mid)

unfoldable pub keysym_from_unicode : Table → ℕ → Option ℕ
unfolding search keysym_found
keysym_from_unicode table wc =
    if is_latin1 wc
    then some wc
    else keysym_found table wc (search (suc table.size) table.ucs wc 0 table.size)

-- `fcitx_keysym_to_unicode(sym) != 0`.
unfoldable pub is_unicode : Table → ℕ → Bool
is_unicode table sym = elim (keysym_to_unicode table sym) [ none ↦ false | some c ↦ not (c == 0) ]

-- The first test: a letter with more than Shift is a capital.
unfoldable pub upper : Key → Key
upper key =
    if not (key.state == state_shift) && is_laz (record { sym = key.sym; state = 0 })
    then record key { sym = key.sym + 0x41 - 0x61 }
    else key

-- The keys that Shift belongs to already.
unfoldable pub is_shifted : Table → ℕ → Bool
is_shifted table sym =
    ((is_simple (record { sym = sym; state = 0 }) || is_unicode table sym)
      && not (sym == 0x20)
      && not (sym == 0xff0d))
    || between 0xffb0 sym 0xffb9

unfoldable pub drop_shift : Table → Key → Key
drop_shift table key =
    if is_laz (record { sym = key.sym; state = 0 }) || is_uaz (record { sym = key.sym; state = 0 })
    then (if key.state == state_shift
        then record key { state = and_not key.state state_shift }
        else key)
    else if not (bit_and key.state state_shift == 0) && is_shifted table key.sym
    then record key { state = and_not key.state state_shift }
    else key

unfoldable pub untab : Key → Key
untab key = if key.sym == 0xfe20 then record key { sym = 0xff09 } else key

unfoldable pub normalize : Table → Key → Key
unfolding upper drop_shift untab
normalize table key = untab (if not (key.state == 0) then drop_shift table (upper key) else key)

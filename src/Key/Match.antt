-- ===== src/Key/Match.antt =====
-- key.c: `fcitx_key_check` and `fcitx_key_list_check`.
use fcitx_ng.Prelude.{ℕ, ◌<◌, ◌≡◌, true, ◌&&◌, ◌||◌, ◌==◌, arith}
use fcitx_ng.Prelude.Bits.{bit_or-zero}
use fcitx_ng.Key.{Key, check, is_modifier, keysym_to_state, and_not}

-- No modifier's symbol is as small as a state.
no_state : (s : ℕ) → s < 0xff00 → keysym_to_state s ≡ 0
unfolding keysym_to_state
no_state s h = ground arith

-- For a modifier with a state below 0xff00 a key matches exactly if its symbol is the same, and
-- its state is the same or is the same without the bit of the modifier.
pub check-modifier :
    (to_check key : Key)
    → is_modifier key ≡ true
    → key.state < 0xff00
    → check to_check key ≡ (
        to_check.sym == key.sym
        && (to_check.state == and_not key.state (keysym_to_state key.sym)
            || to_check.state == key.state))
unfolding check
check-modifier to_check key m h =
    let less = no_state (and_not key.state (keysym_to_state key.sym)) (omega (arith, h)) in
    rw m (rw less (rw (bit_or-zero key.state) (ground arith)))

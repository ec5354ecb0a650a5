-- ===== src/Key/Normal.antt =====
-- key.c: `fcitx_key_normalize` leaves what it has normalized.
use fcitx_ng.Prelude.{ℕ, ◌%◌, ◌≡◌, sym, Bool, true, false, ◌||◌, ◌==◌}
use fcitx_ng.Key.{Key, Table, is_laz, is_uaz, is_shifted}

-- The letters as they stand in the tests.
abbrev small : ℕ → Bool
small sym = is_laz (record { sym = sym; state = 0 })

abbrev capital : ℕ → Bool
capital sym = is_uaz (record { sym = sym; state = 0 })

-- A state for which `fcitx_key_normalize` has nothing to do.
pub record IsSteady (table : Table) (key : Key) : Type 0 where
  pub no_small : (key.state == 0) ≡ false → small key.sym ≡ true → (key.state == 1) ≡ true
  pub no_letter_shift : (small key.sym || capital key.sym) ≡ true → (key.state == 1) ≡ false
  pub no_shift :
      (small key.sym || capital key.sym) ≡ false
      → is_shifted table key.sym ≡ true
      → key.state % 2 ≡ 0

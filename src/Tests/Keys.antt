-- ===== src/Tests/Keys.antt =====
-- key.c on concrete keys and tables: runs, and the theorems at inputs that meet their hypotheses.
use fcitx_ng.Prelude.{ℕ, ◌≡◌, refl, true, false, some, arith}
use fcitx_ng.Key.{
  Key, Table, check, is_modifier, keysym_to_state, search, keysym_to_unicode, keysym_from_unicode,
  normalize, upper, drop_shift, untab, is_laz, is_uaz, is_simple, is_shifted,
}
use fcitx_ng.Key.Search.{
  IsOrdered, Finds, IsInverse, search-Finds, keysym_to_unicode-keysym_from_unicode,
}

-- The entry of A with ogonek, in both directions.
abbrev ogonek : Table
ogonek = record { size = 1; keysym = λ i. 0x1a1; ucs = λ i. 0x104 }

ogonek-IsOrdered : IsOrdered ogonek.ucs ogonek.size
unfolding IsOrdered
ogonek-IsOrdered i j h k = omega arith

ogonek-IsInverse : IsInverse ogonek ogonek
ogonek-IsInverse = record {
  by_ucs = ogonek-IsOrdered;
  by_keysym = λ i j h k. absurd (omega arith);
  index = λ j. j;
  inside = λ j h. h;
  same_keysym = λ j h. refl;
  same_ucs = λ j h. refl;
  short = λ j h. omega arith;
  special = λ j h. refl;
}

keysym_to_unicode-keysym_from_unicode_example :
    (s : ℕ) × ((keysym_from_unicode ogonek 0x104 ≡ some s)
      × (keysym_to_unicode ogonek s ≡ some 0x104))
keysym_to_unicode-keysym_from_unicode_example =
    keysym_to_unicode-keysym_from_unicode ogonek ogonek 0x104 ogonek-IsInverse (omega arith)

search-Finds_example : Finds ogonek.ucs 1 0x104 (search 2 ogonek.ucs 0x104 0 1)
search-Finds_example = search-Finds ogonek.ucs 1 0x104 ogonek-IsOrdered

-- Control_L, and the same key as it comes with the state of its own release.
abbrev control : Key
control = record { sym = 0xffe3; state = 0 }

abbrev control_up : Key
control_up = record { sym = 0xffe3; state = 4 }

control-is_modifier : is_modifier control ≡ true
unfolding is_modifier
control-is_modifier = refl

check_own_state : check control_up control ≡ false
unfolding check is_modifier keysym_to_state
check_own_state = refl

-- Alt and Shift with 1, which the keyboard gives as an exclamation mark.
normalize_exclam :
    normalize ogonek (record { sym = 0x21; state = 9 }) ≡ record { sym = 0x21; state = 8 }
unfolding normalize drop_shift upper untab is_laz is_uaz is_shifted is_simple
normalize_exclam = refl

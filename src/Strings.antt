-- ===== src/Strings.antt =====
-- lib/fcitx-utils/stringutils.c. A C string is the list of its bytes before the terminator, and a
-- `char` is its byte, below 256.
pub mod Affix
pub mod Cat
pub mod Escape
pub mod Trim
pub mod Search
use fcitx_ng.Prelude.{
  ℕ, zero, suc, ◌+◌, Bool, true, false, ◌||◌, Option, none, some, List, [], ◌∷◌, ◌==◌,
  if◌then◌else◌,
}

abbrev pub Text : Type 0
Text = List ℕ

-- `strchr(set, c) != NULL` for a `c` that is not the terminator.
unfoldable pub strchr : Text → ℕ → Bool
strchr [] c = false
strchr (d ∷ set) c = c == d || strchr set c

-- The number of bytes before the first one of the set.
unfoldable pub strcspn : Text → Text → ℕ
strcspn [] set = 0
strcspn (c ∷ s) set = let rest = strcspn s set in if strchr set c then 0 else suc rest

-- ===== src/HashSet.antt =====
-- lib/fcitx-utils/stringhashset.c: sets of strings. A set is its keys, in the order in which the hash table
-- of dict.c goes through them: a new key comes last.
pub mod Parse
use fcitx_ng.Prelude.{
  ℕ, zero, suc, ◌-◌, Bool, true, false, not, ◌&&◌, Option, none, some, List, [], ◌∷◌, ◌++◌, ◌==◌,
  if◌then◌else◌, length, take,
}
use fcitx_ng.Strings.{Text}

-- `HASH_FIND` compares the length and the bytes of two keys.
abbrev pub same_key : Text → Text → Bool
same_key [] [] = true
same_key [] (d ∷ t) = false
same_key (c ∷ s) [] = false
same_key (c ∷ s) (d ∷ t) = c == d && same_key s t

abbrev pub StringHashSet : Type 0
StringHashSet = List Text

abbrev pub contains : StringHashSet → Text → Bool
contains [] key = false
contains (k ∷ sset) key = if same_key k key then true else contains sset key

-- `fcitx_string_hashset_insert_len`: `fcitx_dict_insert` without `replace`.
abbrev pub insert : StringHashSet → Text → StringHashSet
insert sset key = if contains sset key then sset else sset ++ key ∷ []

-- The loop of `fcitx_string_hashset_parse`, with the bytes behind `src` that `strcspn` has passed in `part`.
unfoldable pub parse_from : ℕ → Text → Text → StringHashSet → StringHashSet
parse_from delim [] part sset = if length part == 0 then sset else insert sset part
parse_from delim (c ∷ str) part sset =
    let found = parse_from delim str [] (insert sset part) in
    let passed = parse_from delim str (part ++ c ∷ []) sset in if c == delim then found else passed

abbrev pub parse : Text → ℕ → StringHashSet
parse str delim = parse_from delim str [] []

-- `add_length` and `copy_string` for each key.
unfoldable pub joined : ℕ → StringHashSet → Text
joined delim [] = []
joined delim (key ∷ sset) = key ++ delim ∷ joined delim sset

-- `fcitx_string_hashset_join`: the last delimiter becomes the terminator. A NULL set has no text.
unfoldable pub join : Option StringHashSet → ℕ → Option Text
unfolding joined
join none delim = none
join (some []) delim = some []
join (some (key ∷ sset)) delim =
    let result = joined delim (key ∷ sset) in some (take (length result - 1) result)

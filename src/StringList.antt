-- ===== src/StringList.antt =====
-- lib/fcitx-utils/stringlist.c: lists of strings: splitting and joining.
pub mod Split
use fcitx_ng.Prelude.{
  ℕ, zero, suc, ◌-◌, Bool, true, false, not, ◌||◌, Option, none, some, List, [], ◌∷◌, ◌++◌, ◌==◌,
  if◌then◌else◌, length, take,
}
use fcitx_ng.Strings.{Text, strchr}
use fcitx_ng.HashSet.{same_key}

-- `fcitx_utils_string_list_append_len`.
abbrev pub append_len : List Text → Text → List Text
append_len list str = list ++ str ∷ []

abbrev pub append_found : Bool → List Text → Text → List Text
append_found keep_empty list part =
    if keep_empty || not (length part == 0) then append_len list part else list

-- The loop of `fcitx_utils_string_list_append_split_full`, with the bytes behind `src` that `strcspn` has
-- passed in `part`.
unfoldable pub split_from : Bool → Text → Text → Text → List Text → List Text
split_from keep_empty delm [] part list = if length part == 0 then list else append_len list part
split_from keep_empty delm (c ∷ str) part list =
    let found = split_from keep_empty delm str [] (append_found keep_empty list part) in
    let passed = split_from keep_empty delm str (part ++ c ∷ []) list in
    if strchr delm c then found else passed

abbrev pub append_split_full : List Text → Text → Text → Bool → List Text
append_split_full list str delm keep_empty = split_from keep_empty delm str [] list

abbrev pub split_full : Text → Text → Bool → List Text
split_full str delm keep_empty = append_split_full [] str delm keep_empty

-- The strings that `fcitx_utils_string_list_join` copies, a delimiter behind each.
unfoldable pub list_copied : ℕ → List Text → Text
list_copied delm [] = []
list_copied delm (str ∷ list) = str ++ delm ∷ list_copied delm list

-- `fcitx_utils_string_list_join`: the last delimiter becomes the terminator. A NULL list has no text.
unfoldable pub list_join : Option (List Text) → ℕ → Option Text
unfolding list_copied
list_join none delm = none
list_join (some []) delm = some []
list_join (some (str ∷ list)) delm =
    let result = list_copied delm (str ∷ list) in some (take (length result - 1) result)

-- `fcitx_utils_string_list_contains`.
unfoldable pub list_contains : List Text → Text → Bool
list_contains [] scmp = false
list_contains (str ∷ list) scmp = if same_key scmp str then true else list_contains list scmp

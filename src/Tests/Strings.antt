-- ===== src/Tests/Strings.antt =====
-- stringutils.c on concrete texts: runs, and the theorems at inputs that meet their hypotheses.
use fcitx_ng.Prelude.{◌≡◌, refl, List, Option, none, some, [], ◌∷◌, arith}
use mathlib.Core.Option.{map}
use fcitx_ng.Strings.{Text, strchr, strcspn}
use fcitx_ng.Strings.Escape.{
  escape_char, unescape_char, set_escape_str_with_set, need_escape, unescaped, overrun,
  set_unescape_str, IsEscapeSet,
}
use fcitx_ng.Strings.Trim.{
  spaces, isspace, skip_trailing, inplace_trim, trim, IsTrimmed, inplace_trim-IsTrimmed,
}
use fcitx_ng.Strings.Cat.{cat_str_with_len, str_lens, size, memcpy}
use fcitx_ng.Strings.Search.{backward_search, hash_loop, back_loop, memeq, strrstr}
use fcitx_ng.Strings.Escape.RoundTrip.{set_unescape_str-set_escape_str}

-- "a\n\"\\b"
abbrev mixed : Text
mixed = 0x61 ∷ 10 ∷ 0x22 ∷ 0x5c ∷ 0x62 ∷ []

escape_mixed :
    set_escape_str_with_set mixed need_escape
    ≡ some (0x61 ∷ 0x5c ∷ 0x6e ∷ 0x5c ∷ 0x22 ∷ 0x5c ∷ 0x5c ∷ 0x62 ∷ [])
unfolding set_escape_str_with_set strcspn strchr escape_char
escape_mixed = refl

unescape_lone_backslash : set_unescape_str (0x61 ∷ 0x5c ∷ []) ≡ overrun
unfolding set_unescape_str strcspn strchr
unescape_lone_backslash = refl

need_escape-IsEscapeSet : IsEscapeSet need_escape
unfolding strchr unescape_char escape_char
need_escape-IsEscapeSet = record { has_backslash = refl; reversible = λ c h. ground arith }

set_unescape_str-set_escape_str_example :
    map set_unescape_str (set_escape_str_with_set mixed need_escape) ≡ some (unescaped mixed)
set_unescape_str-set_escape_str_example =
    set_unescape_str-set_escape_str need_escape mixed need_escape-IsEscapeSet

-- " a b \t"
abbrev spaced : Text
spaced = 0x20 ∷ 0x61 ∷ 0x20 ∷ 0x62 ∷ 0x20 ∷ 0x09 ∷ []

inplace_trim-spaced : inplace_trim spaced ≡ 0x61 ∷ 0x20 ∷ 0x62 ∷ []
unfolding inplace_trim spaces isspace skip_trailing
inplace_trim-spaced = refl

trim-spaced : trim spaced ≡ 0x20 ∷ 0x61 ∷ 0x20 ∷ 0x62 ∷ []
unfolding trim spaces isspace skip_trailing
trim-spaced = refl

inplace_trim-IsTrimmed_example : IsTrimmed spaced (inplace_trim spaced)
inplace_trim-IsTrimmed_example = inplace_trim-IsTrimmed spaced

-- "ab", NULL, "", "cde"
abbrev pieces : List (Option Text)
pieces = some (0x61 ∷ 0x62 ∷ []) ∷ none ∷ some [] ∷ some (0x63 ∷ 0x64 ∷ 0x65 ∷ []) ∷ []

cat_pieces_cut : cat_str_with_len 5 pieces (str_lens pieces).1 ≡ 0x61 ∷ 0x62 ∷ 0x63 ∷ 0x64 ∷ []
unfolding cat_str_with_len str_lens size memcpy
cat_pieces_cut = refl

-- "abab", and "ab", which stands in it twice.
abbrev twice : Text
twice = 0x61 ∷ 0x62 ∷ 0x61 ∷ 0x62 ∷ []

abbrev once : Text
once = 0x61 ∷ 0x62 ∷ []

search_from_end : backward_search twice 4 once 2 4 ≡ some 2
unfolding backward_search hash_loop back_loop memeq
search_from_end = refl

search_from_start : strrstr twice once ≡ some 0
unfolding strrstr hash_loop back_loop memeq
search_from_start = refl

-- ===== src/Tests/Utf8.antt =====
-- utf8.c on concrete texts: runs, and the theorems at inputs that meet their hypotheses.
use fcitx_ng.Prelude.{
  ℕ, suc, ◌+◌, ◌≤◌, ◌<◌, ◌≡◌, ◌⊎◌, inl, refl, true, false, some, List, [], ◌∷◌, ◌++◌, arith, length,
  take,
}
use fcitx_ng.Utf8.{
  Bytes, is_utf8_cb, IsCString, get_char, ucs4_to_utf8, ucs4_char_len, strlen, unicode_valid,
  strncmp, get_nth_char, utf8_length,
}
use fcitx_ng.Utf8.RoundTrip.{encode, get_char-encode, get_char-encode_gap}
use fcitx_ng.Utf8.Validated.{
  check_string, get_char_validated, get_char_extended, multibyte, shortest, scan, lead,
}
use fcitx_ng.Utf8.Validated.Check.{AllValid, encode_all, IsUtf8, check_string_Decides}
use fcitx_ng.Utf8.Copy.{strncpy, strnlen}
use fcitx_ng.Utf8.Copy.Cut.{padded, strncpy-strnlen, strlen-encode_all}
use fcitx_ng.Utf8.Walk.{checked_loop, strlen_within}

-- "aß€😀": characters of one to four bytes.
abbrev chars : List ℕ
chars = 0x61 ∷ 0xdf ∷ 0x20ac ∷ 0x1f600 ∷ []

abbrev text : Bytes
text = 0x61 ∷ 0xc3 ∷ 0x9f ∷ 0xe2 ∷ 0x82 ∷ 0xac ∷ 0xf0 ∷ 0x9f ∷ 0x98 ∷ 0x80 ∷ []

text_encodes : encode_all chars ≡ text
unfolding ucs4_to_utf8
text_encodes = refl

text_checks : check_string text ≡ some true
unfolding check_string get_char_validated get_char_extended multibyte shortest scan lead get_char
    unicode_valid utf8_length is_utf8_cb
text_checks = refl

overlong_refused : check_string (0xc1 ∷ 0x81 ∷ []) ≡ some false
unfolding check_string get_char_validated get_char_extended multibyte shortest scan lead get_char
    unicode_valid utf8_length is_utf8_cb
overlong_refused = refl

truncated_refused : check_string (0xe2 ∷ 0x82 ∷ []) ≡ some false
unfolding check_string get_char_validated get_char_extended multibyte shortest scan lead get_char
    unicode_valid utf8_length is_utf8_cb
truncated_refused = refl

third : get_nth_char text 3 ≡ 0xf0 ∷ 0x9f ∷ 0x98 ∷ 0x80 ∷ []
unfolding get_nth_char get_char is_utf8_cb
third = refl

compares : (strncmp text text 9 ≡ 0) × (strncmp text (0x61 ∷ 0xc3 ∷ 0xa0 ∷ []) 2 ≡ 1)
unfolding strncmp get_char is_utf8_cb
compares = (refl, refl)

text-IsCString : IsCString text
text-IsCString = omega arith

chars-AllValid : AllValid chars
unfolding unicode_valid
chars-AllValid = (refl, (refl, (refl, (refl, tt))))

encoded-IsCString : IsCString (encode_all chars)
unfolding ucs4_to_utf8
encoded-IsCString = omega arith

check_string_Decides_example :
    ((check_string text ≡ some true) × IsUtf8 text)
    ⊎ ((check_string text ≡ some false) × (¬ IsUtf8 text))
check_string_Decides_example = check_string_Decides text text-IsCString

get_char-encode_example : get_char (encode 0x20ac ++ text) ≡ (0x20ac, ucs4_char_len 0x20ac)
get_char-encode_example = get_char-encode 0x20ac text (inl (omega arith))

get_char-encode_gap_example : (get_char (encode 0x4000041 ++ text)).0 + 0x4000000 ≡ 0x4000041
get_char-encode_gap_example = get_char-encode_gap 0x4000041 text (omega arith) (omega arith)

strncpy-strnlen_example :
    (k : ℕ) × (strnlen (encode_all chars) 5 ≡ some k)
    × (strncpy (encode_all chars) 5 ≡ some (padded 5 (take k chars)))
    × (length (encode_all (take k chars)) ≤ 5)
    × ((k ≡ length chars) ⊎ (5 < length (encode_all (take (suc k) chars))))
strncpy-strnlen_example = strncpy-strnlen 5 chars chars-AllValid encoded-IsCString

strlen-encode_all_example : strlen (encode_all chars) ≡ some (length chars)
strlen-encode_all_example = strlen-encode_all chars chars-AllValid encoded-IsCString

strlen_within_example :
    (n : ℕ) × ((strlen (0xe4 ∷ 97 ∷ []) ≡ some n)
      × ((checked_loop 3 (0xe4 ∷ 97 ∷ []) 0 ≡ some n) × (n ≤ 2)))
strlen_within_example = strlen_within (0xe4 ∷ 97 ∷ [])

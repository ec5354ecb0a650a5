-- ===== src/Tests/Surroundings.antt =====
-- inputcontext.c on a concrete text: runs, and the theorems where their hypotheses hold.
use fcitx_ng.Prelude.{ℕ, ◌≡◌, refl, true, Option, none, some, List, [], ◌∷◌, pos}
use fcitx_ng.Utf8.{Bytes, strlen, get_nth_char, get_char, ucs4_to_utf8}
use fcitx_ng.Utf8.Validated.Check.{encode_all}
use fcitx_ng.InputContext.Surrounding.{
  SurroundingText, delete_surrounding_text, get_surrounding_text, set_surrounding_text,
  get_surrounding_text-set_surrounding_text,
}

-- "abc" with the cursor behind it.
abbrev characters : List ℕ
characters = 97 ∷ 98 ∷ 99 ∷ []

abbrev context : SurroundingText
context = record {
  flags = 64;
  surrounding_text = some (encode_all characters);
  cursor = 3;
  anchor = 3;
  callback = true;
  events = [];
}

abbrev text_of : Option SurroundingText → Option Bytes × ℕ
text_of none = (none, 0)
text_of (some s) = (s.surrounding_text, s.cursor)

-- A deletion that begins behind the end leaves the text, and the cursor there.
deleted_behind : text_of (delete_surrounding_text (pos 4) 1 context) ≡ (some (97 ∷ 98 ∷ 99 ∷ []), 7)
unfolding delete_surrounding_text strlen get_nth_char ucs4_to_utf8 get_char
deleted_behind = refl

get_surrounding_text-set_surrounding_text_example :
    get_surrounding_text (set_surrounding_text (some (120 ∷ [])) 1 0 context)
    ≡ some (120 ∷ [], (1, 0))
get_surrounding_text-set_surrounding_text_example =
    get_surrounding_text-set_surrounding_text (120 ∷ []) 1 0 context refl

-- ===== src/InputContext/Surrounding.antt =====
-- inputcontext.c: the text around the cursor of a context: `fcitx_input_context_get_surrounding_text`,
-- `fcitx_input_context_set_surrounding_text` and `fcitx_input_context_delete_surrounding_text`. The state has
-- the fields of the context that they use, and the events that they dispatch, the newest first.
pub mod Deletion
use fcitx_ng.Prelude.{
  ℕ, zero, suc, ◌+◌, ◌-◌, ◌%◌, ◌^◌, ◌≡◌, refl, bit_and, Bool, true, false, not, ◌&&◌, ◌||◌, Option,
  none, some, List, [], ◌∷◌, ◌++◌, ltb, leb, ◌==◌, if◌then◌else◌, length, take, ℤ, pos, negsuc,
  arith, Bool-cases, Option-cases, ==_iff, inl, inr,
}
use fcitx_ng.HashSet.{same_key}
use fcitx_ng.HashSet.Parse.{same_key-eq}
use fcitx_ng.Utf8.{Bytes, strlen, get_nth_char}

-- `ET_InputContextFocusIn` and `ET_InputContextDeleteSurroundingText`.
pub data SurroundingEvent : Type 0 where
  focus_in_event : SurroundingEvent
  delete_event : ℤ → ℕ → SurroundingEvent

-- A text that is NULL is `none`.
pub record SurroundingText : Type 0 where
  pub flags : ℕ
  pub surrounding_text : Option Bytes
  pub cursor : ℕ
  pub anchor : ℕ
  pub callback : Bool
  pub events : List SurroundingEvent

abbrev pub dispatch_event : SurroundingEvent → SurroundingText → SurroundingText
dispatch_event e s = if s.callback then record s { events = e ∷ s.events } else s

-- `CAPABILITY_SURROUNDING_TEXT`.
abbrev pub has_capability : SurroundingText → Bool
has_capability s = not (bit_and s.flags 64 == 0)

-- `none` for `false`, else the text, the cursor and the anchor.
abbrev pub get_with : Option Bytes → SurroundingText → Option (Bytes × (ℕ × ℕ))
get_with none s = none
get_with (some text) s = some (text, (s.cursor, s.anchor))

abbrev pub get_surrounding_text : SurroundingText → Option (Bytes × (ℕ × ℕ))
get_surrounding_text s = if has_capability s then get_with s.surrounding_text s else none

-- `!surroundingText || (str && strcmp(surroundingText, str) != 0)`.
abbrev pub text_differs : Option Bytes → Option Bytes → Bool
text_differs none str = true
text_differs (some text) none = false
text_differs (some text) (some str) = not (same_key text str)

-- `if (str) fcitx_utils_string_swap(&surroundingText, str)`.
abbrev pub swap_text : Option Bytes → Option Bytes → Option Bytes
swap_text text none = text
swap_text text (some str) = some str

unfoldable pub set_surrounding_text : Option Bytes → ℕ → ℕ → SurroundingText → SurroundingText
set_surrounding_text str cursor anchor s =
    if not (has_capability s)
    then s
    else if text_differs s.surrounding_text str
        || (not (cursor == s.cursor) || not (anchor == s.anchor))
    then dispatch_event focus_in_event (record s {
      surrounding_text = swap_text s.surrounding_text str;
      cursor = cursor;
      anchor = anchor;
    })
    else s

-- `cursor + offset` of an `unsigned int` and an `int`.
abbrev pub cursor_plus : ℕ → ℤ → ℕ
cursor_plus cursor (pos n) = (cursor + n) % 2 ^ 32
cursor_plus cursor (negsuc n) = (cursor + (2 ^ 32 - (n + 1))) % 2 ^ 32

-- As an `int` it is not negative.
abbrev pub is_nonnegative : ℕ → Bool
is_nonnegative u = ltb u (2 ^ 31)

-- `memmove(start, end, copylen)` and the terminator behind: the bytes before `start`, and `copylen` of those
-- from `end` on. `copylen` is an `int`; one that is negative is written out of bounds, `none`.
abbrev pub cut_text : Bytes → Bytes → Bytes → Option Bytes
cut_text text start end =
    let copylen = length end % 2 ^ 32 in
    if is_nonnegative copylen
    then some (take (length text - length start) text ++ take copylen end)
    else none

abbrev pub with_cursor : ℕ → Option Bytes → Option (Bytes × ℕ)
with_cursor cursor_pos none = none
with_cursor cursor_pos (some text) = some (text, cursor_pos)

-- The text and the cursor after the deletion, with `len` what `fcitx_utf8_strlen` gives.
abbrev pub delete_in : ℕ → ℕ → ℕ → Bytes → Option (Bytes × ℕ)
delete_in len cursor_pos length₁ text =
    if is_nonnegative cursor_pos && leb length₁ ((len + (2 ^ 64 - cursor_pos)) % 2 ^ 64)
    then (let start = get_nth_char text cursor_pos in
        with_cursor cursor_pos (cut_text text start (get_nth_char start length₁)))
    else some ([], 0)

abbrev pub set_deleted : Bytes × ℕ → SurroundingText → SurroundingText
set_deleted deleted s = record s {
  surrounding_text = some deleted.0;
  cursor = deleted.1;
  anchor = deleted.1;
}

abbrev pub set_result : Option (Bytes × ℕ) → SurroundingText → Option SurroundingText
set_result none s = none
set_result (some deleted) s = some (set_deleted deleted s)

abbrev pub delete_counted : Option ℕ → ℤ → ℕ → Bytes → SurroundingText → Option SurroundingText
delete_counted none offset length₁ text s = none
delete_counted (some len) offset length₁ text s =
    set_result (delete_in len (cursor_plus s.cursor offset) length₁ text) s

abbrev pub delete_with : Option Bytes → ℤ → ℕ → SurroundingText → Option SurroundingText
delete_with none offset length₁ s = some s
delete_with (some text) offset length₁ s = delete_counted (strlen text) offset length₁ text s

abbrev pub dispatch_deleted : ℤ → ℕ → Option SurroundingText → Option SurroundingText
dispatch_deleted offset length₁ none = none
dispatch_deleted offset length₁ (some s) = some (dispatch_event (delete_event offset length₁) s)

-- `none` when the count of the characters does not end, or for a write out of bounds.
unfoldable pub delete_surrounding_text : ℤ → ℕ → SurroundingText → Option SurroundingText
delete_surrounding_text offset length₁ s =
    dispatch_deleted offset length₁ (delete_with s.surrounding_text offset length₁ s)

-- With the capability for it, the text, cursor and anchor that are set are the ones that are read,
-- whether or not they differ from the ones before.
pub get_surrounding_text-set_surrounding_text :
    (str : Bytes) (cursor anchor : ℕ) (s : SurroundingText)
    → has_capability s ≡ true
    → get_surrounding_text (set_surrounding_text (some str) cursor anchor s)
      ≡ some (str, (cursor, anchor))
unfolding set_surrounding_text
get_surrounding_text-set_surrounding_text str cursor anchor s can =
    elim (Option-cases (s.surrounding_text)) [
      | inl e ↦ ground (arith, e, can)
      | inr (text, e) ↦ elim (Bool-cases (same_key text str)) [
        | inl f ↦
            let same = same_key-eq text str f in
            ground (arith, e, can, f, same, ==_iff cursor s.cursor, ==_iff anchor s.anchor)
        | inr f ↦ ground (arith, e, can, f)
      ]
    ]

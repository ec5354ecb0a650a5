-- ===== src/InputContext/Surrounding/Deletion.antt =====
-- inputcontext.c: deleting characters around the cursor.
use fcitx_ng.Prelude.{ℕ, ◌+◌, not, List, [], ◌++◌, ltb, leb, if◌then◌else◌, length, take, drop}
use fcitx_ng.Utf8.{Bytes}
use fcitx_ng.Utf8.Validated.Check.{encode_all}
use fcitx_ng.InputContext.Surrounding.{is_nonnegative}

-- The deletion of `count` characters from the character number `p` on, of a text that has them.
abbrev pub remove_chars : ℕ → ℕ → List ℕ → List ℕ
remove_chars p count cs = take p cs ++ drop (p + count) cs

-- What the characters and the cursor are to be. A cursor behind the end stays there.
unfoldable pub deleted_chars : ℕ → ℕ → List ℕ → List ℕ × ℕ
deleted_chars p count cs =
    if not (is_nonnegative p)
    then ([], 0)
    else if ltb (length cs) p
    then (cs, p)
    else if leb (p + count) (length cs)
    then (remove_chars p count cs, p)
    else ([], 0)

abbrev pub encode_pair : List ℕ × ℕ → Bytes × ℕ
encode_pair (cs, p) = (encode_all cs, p)

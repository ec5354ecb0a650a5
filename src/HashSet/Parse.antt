-- ===== src/HashSet/Parse.antt =====
-- stringhashset.c: joining the keys of a set and parsing the text again.
use fcitx_ng.Prelude.{
  ℕ, zero, suc, ◌-◌, ◌≤◌, ◌≡◌, refl, ap, sym, ◌∙◌, Bool, true, false, some, [], ◌∷◌, ◌++◌, ◌==◌,
  if◌then◌else◌, length, take, length-append, append_assoc, append-nil, arith,
}
use fcitx_ng.Strings.{Text}
use fcitx_ng.HashSet.{same_key, StringHashSet, contains, insert, parse_from, parse, joined, join}

pub same_key-eq : (s t : Text) → same_key s t ≡ true → s ≡ t
same_key-eq [] [] h = refl
same_key-eq [] (d ∷ t) h = absurd (ground arith)
same_key-eq (c ∷ s) [] h = absurd (ground arith)
same_key-eq (c ∷ s) (d ∷ t) h = ground (arith, same_key-eq s t)

pub same_key_self : (s : Text) → same_key s s ≡ true
same_key_self [] = refl
same_key_self (c ∷ s) = ground (arith, same_key_self s)

unfoldable pub has_byte : ℕ → Text → Bool
has_byte b [] = false
has_byte b (c ∷ s) = if c == b then true else has_byte b s

-- Each key is new to the ones before it and free of the delimiter, and the last one is not empty.
unfoldable pub Joinable : ℕ → StringHashSet → StringHashSet → Type 0
Joinable delim before [] = before ≡ before
Joinable delim before (key ∷ []) =
    (contains before key ≡ false) × ((has_byte delim key ≡ false) × (1 ≤ length key))
Joinable delim before (key ∷ next ∷ sset) =
    (contains before key ≡ false)
    × ((has_byte delim key ≡ false) × Joinable delim (before ++ key ∷ []) (next ∷ sset))

-- The keys with a delimiter between any two.
text_of : ℕ → StringHashSet → Text
text_of delim [] = []
text_of delim (key ∷ []) = key
text_of delim (key ∷ next ∷ sset) = key ++ delim ∷ text_of delim (next ∷ sset)

pub take-append_last : (s : Text) (c n : ℕ) → length s ≡ n → take n (s ++ c ∷ []) ≡ s
take-append_last [] c zero e = refl
take-append_last [] c (suc n) e = absurd (omega (arith, e))
take-append_last (d ∷ s) c zero e = absurd (omega (arith, e))
take-append_last (d ∷ s) c (suc n) e =
    ap (λ (t : Text). d ∷ t) (take-append_last s c n (omega (arith, e)))

joined-text_of :
    (delim : ℕ) (key : Text) (sset : StringHashSet)
    → joined delim (key ∷ sset) ≡ text_of delim (key ∷ sset) ++ delim ∷ []
unfolding joined text_of
joined-text_of delim key [] = refl
joined-text_of delim key (next ∷ sset) =
    rw (joined-text_of delim next sset)
      (sym (append_assoc key (delim ∷ text_of delim (next ∷ sset)) (delim ∷ [])))

parse_from_key :
    (delim : ℕ) (key rest part : Text) (sset : StringHashSet)
    → has_byte delim key ≡ false
    → parse_from delim (key ++ delim ∷ rest) part sset
      ≡ parse_from delim rest [] (insert sset (part ++ key))
unfolding parse_from has_byte
parse_from_key delim [] rest part sset free = ground (arith, append-nil part)
parse_from_key delim (c ∷ key) rest part sset free =
    ground
      (arith, append_assoc part (c ∷ []) key, parse_from_key delim key rest (part ++ c ∷ []) sset)

parse_from_last :
    (delim : ℕ) (key part : Text) (sset : StringHashSet)
    → has_byte delim key ≡ false
    → 1 ≤ length (part ++ key)
    → parse_from delim key part sset ≡ insert sset (part ++ key)
unfolding parse_from has_byte
parse_from_last delim [] part sset free some_byte = ground (arith, append-nil part)
parse_from_last delim (c ∷ key) part sset free some_byte =
    ground (arith, append_assoc part (c ∷ []) key, parse_from_last delim key (part ++ c ∷ []) sset)

parse_from-text_of :
    (delim : ℕ) (before sset : StringHashSet)
    → Joinable delim before sset
    → parse_from delim (text_of delim sset) [] before ≡ before ++ sset
unfolding Joinable text_of parse_from
parse_from-text_of delim before [] h = sym (append-nil before)
parse_from-text_of delim before (key ∷ []) h =
    parse_from_last delim key [] before h.1.0 h.1.1 ∙ ground (arith, h.0)
parse_from-text_of delim before (key ∷ next ∷ sset) h =
    let first = parse_from_key delim key (text_of delim (next ∷ sset)) [] before h.1.0 in
    let others = parse_from-text_of delim (before ++ key ∷ []) (next ∷ sset) h.1.1 in
    first ∙ ground (arith, h.0, others, append_assoc before (key ∷ []) (next ∷ sset))

-- Parsing the joined keys of a set gives the set again, when no key has the delimiter in it, none
-- occurs twice and the last one is not empty.
pub join-parse :
    (delim : ℕ) (sset : StringHashSet)
    → Joinable delim [] sset
    → (text : Text) × ((join (some sset) delim ≡ some text) × (parse text delim ≡ sset))
unfolding join parse_from
join-parse delim [] h = ([], (refl, refl))
join-parse delim (key ∷ sset) h =
    let whole = joined-text_of delim key sset in
    let size : length (joined delim (key ∷ sset)) - 1 ≡ length (text_of delim (key ∷ sset)) =
      omega (
        arith,
        ap (λ (t : Text). length t) whole,
        length-append (text_of delim (key ∷ sset)) (delim ∷ []),
      ) in
    let cut =
      ap (λ (t : Text). take (length (joined delim (key ∷ sset)) - 1) t) whole
      ∙ take-append_last (text_of delim (key ∷ sset)) delim _ (sym size) in
    (
      text_of delim (key ∷ sset),
      (ap (λ (t : Text). some t) cut, parse_from-text_of delim [] (key ∷ sset) h),
    )

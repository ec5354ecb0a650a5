-- ===== src/Utf8/Validated/Check.antt =====
-- `fcitx_utf8_check_string` decides whether a string is made of encoded, valid characters.
use fcitx_ng.Prelude.{
  ℕ, zero, suc, ◌<◌, ◌≡◌, ◌⊎◌, inl, inr, refl, sym, ap, subst, ◌∙◌, Bool, true, false, ◌||◌, Option,
  some, List, [], ◌∷◌, ◌++◌, ◌==◌, arith, pos, Bool-cases, length, length-append,
}
use fcitx_ng.Prelude.Bits.{bit_and_above}
use fcitx_ng.Utf8.{Bytes, IsCString, next, minus_one, minus_two, unicode_valid, ucs4_char_len}
use fcitx_ng.Utf8.RoundTrip.{encode, next-encode, ucs4_to_utf8-char_len}
use fcitx_ng.Utf8.Validated.{get_char_extended, get_char_validated, check_string_loop, check_string}
use fcitx_ng.Utf8.Validated.Outcome.{Outcome, malformed, encoded, too_large, extended-Outcome}
use fcitx_ng.Utf8.Validated.Encoded.{extended-encode}

abbrev pub AllValid : List ℕ → Type 0
AllValid [] = Unit
AllValid (c ∷ cs) = (unicode_valid c ≡ true) × AllValid cs

abbrev pub encode_all : List ℕ → Bytes
encode_all [] = []
encode_all (c ∷ cs) = encode c ++ encode_all cs

-- The string is the UTF-8 encoding, each character in its shortest form, of valid code points.
abbrev pub IsUtf8 : Bytes → Type 0
IsUtf8 s = (cs : List ℕ) × AllValid cs × (s ≡ encode_all cs)

pub valid_bound : (c : ℕ) → unicode_valid c ≡ true → c < 0x110000
unfolding unicode_valid
valid_bound c h = ground arith

-- A valid character in front is read back with its value.
pub validated-encode :
    (c : ℕ) (s : Bytes) → unicode_valid c ≡ true → get_char_validated (encode c ++ s) (pos 6) ≡ c
unfolding get_char_validated
validated-encode c s v =
    let h = valid_bound c v in
    rw (extended-encode c s (omega arith), bit_and_above 31 c (omega arith), v)

record Reads (s : Bytes) (w : ℕ) : Type 0 where
  valid : unicode_valid w ≡ true
  behind : Bytes
  shape : s ≡ encode w ++ behind

validated_value :
    (x : ℕ) (s : Bytes) (w : ℕ)
    → Outcome (x ∷ s) w
    → get_char_extended (x ∷ s) (pos 6) ≡ w
    → (get_char_validated (x ∷ s) (pos 6) ≡ minus_one)
      ⊎ (get_char_validated (x ∷ s) (pos 6) ≡ minus_two)
      ⊎ (Reads (x ∷ s) (get_char_validated (x ∷ s) (pos 6)))
unfolding get_char_validated
validated_value x s w (malformed (inl e)) h = inl (rw (h, e))
validated_value x s w (malformed (inr e)) h = inr (inl (rw (h, e)))
validated_value x s w (too_large l u) h =
    inl (rw (h, bit_and_above 31 w u) (unfold unicode_valid in ground arith))
validated_value x s w (encoded t l e) h = elim (Bool-cases (unicode_valid w)) [
  | inl v ↦ inr (
      inr
        (rw (h, bit_and_above 31 w (omega arith), v) (record { valid = v; behind = t; shape = e })))
  | inr v ↦ inl (rw (h, bit_and_above 31 w (omega arith), v))
]

-- The answer, with what it means.
abbrev Decides : Bytes → Option Bool → Type 0
Decides s r = ((r ≡ some true) × IsUtf8 s) ⊎ ((r ≡ some false) × (¬ IsUtf8 s))

valid_not_code : (c : ℕ) → unicode_valid c ≡ true → (c == minus_one || c == minus_two) ≡ false
valid_not_code c v = let h = valid_bound c v in ground arith

IsUtf8-code :
    (x : ℕ) (s : Bytes)
    → IsCString (x ∷ s)
    → (get_char_validated (x ∷ s) (pos 6) == minus_one
        || get_char_validated (x ∷ s) (pos 6) == minus_two)
      ≡ true
    → ¬ IsUtf8 (x ∷ s)
IsUtf8-code x s k code ([], v, e) = cc
IsUtf8-code x s k code (c ∷ cs, v, e) =
    let same : get_char_validated (x ∷ s) (pos 6) ≡ c =
      rw e (validated-encode c (encode_all cs) v.0) in
    cc (sym code, valid_not_code c v.0, same)

next_behind : (w : ℕ) (s t : Bytes) → unicode_valid w ≡ true → s ≡ encode w ++ t → next s ≡ t
next_behind w s t v e = ap next e ∙ next-encode w t (omega (arith, valid_bound w v))

IsUtf8-next : (x : ℕ) (s : Bytes) → IsUtf8 (x ∷ s) → IsUtf8 (next (x ∷ s))
IsUtf8-next x s ([], v, e) = cc
IsUtf8-next x s (c ∷ cs, v, e) = (cs, v.1, next_behind c (x ∷ s) (encode_all cs) v.0 e)

-- What stands behind the first character decides.
next-Decides :
    (x : ℕ) (s : Bytes) (r : Option Bool)
    → Reads (x ∷ s) (get_char_validated (x ∷ s) (pos 6))
    → Decides (next (x ∷ s)) r
    → Decides (x ∷ s) r
next-Decides x s r d (inl (e, (cs, v, p))) =
    let w = get_char_validated (x ∷ s) (pos 6) in
    let q = sym (next_behind w (x ∷ s) d.behind d.valid d.shape) ∙ p in
    inl (e, (w ∷ cs, (d.valid, v), d.shape ∙ ap (λ t. encode w ++ t) q))
next-Decides x s r d (inr (e, f)) = inr (e, λ u. f (IsUtf8-next x s u))

pub IsCString-behind : (xs ys : Bytes) → IsCString (xs ++ ys) → IsCString ys
IsCString-behind [] ys k = k
IsCString-behind (x ∷ xs) ys k = IsCString-behind xs ys k.2

pub char_len_pos : (c : ℕ) → 0 < ucs4_char_len c
unfolding ucs4_char_len
char_len_pos c = ground arith

Reads-IsCString : {w : ℕ} (s : Bytes) → IsCString s → Reads s w → IsCString (next s)
Reads-IsCString {w} s k d =
    rw (next_behind w s d.behind d.valid d.shape)
      (IsCString-behind (encode w) d.behind (subst IsCString d.shape k))

Reads-length : {w : ℕ} (s : Bytes) → Reads s w → length (next s) < length s
Reads-length {w} s d = rw (next_behind w s d.behind d.valid d.shape) (
    omega (
      arith,
      ap length d.shape,
      length-append (encode w) d.behind,
      (ucs4_to_utf8-char_len w).2,
      char_len_pos w,
    ))

reads :
    (x : ℕ) (s : Bytes)
    → IsCString (x ∷ s)
    → (get_char_validated (x ∷ s) (pos 6) == minus_one
        || get_char_validated (x ∷ s) (pos 6) == minus_two)
      ≡ false
    → Reads (x ∷ s) (get_char_validated (x ∷ s) (pos 6))
reads x s k fine = elim (validated_value x s _ (extended-Outcome x s k) refl) [
  | inl e ↦ absurd (ground arith)
  | inr (inl e) ↦ absurd (ground arith)
  | inr (inr d) ↦ d
]

loop_Decides :
    (fuel : ℕ) (s : Bytes) → length s < fuel → IsCString s → Decides s (check_string_loop fuel s)
unfolding check_string_loop
loop_Decides zero s h k = elim h [ ]
loop_Decides (suc fuel) [] h k = inl (refl, ([], tt, refl))
loop_Decides (suc fuel) (x ∷ s) h k =
    let code =
      get_char_validated (x ∷ s) (pos 6) == minus_one
      || get_char_validated (x ∷ s) (pos 6) == minus_two in
    let more : (x == 0) ≡ false = ground (arith, k.0) in
    elim (Bool-cases code) [
      | inl e ↦ inr (rw (more, e), IsUtf8-code x s k e)
      | inr e ↦
          let d = reads x s k e in
          let ih =
            loop_Decides fuel (next (x ∷ s)) (omega (arith, Reads-length (x ∷ s) d))
              (Reads-IsCString (x ∷ s) k d) in
          rw (more, e) (next-Decides x s _ d ih)
    ]

-- The check ends on every C string, with true exactly if the string is the shortest-form UTF-8
-- encoding of valid code points, and with false otherwise.
pub check_string_Decides :
    (s : Bytes)
    → IsCString s
    → ((check_string s ≡ some true) × IsUtf8 s) ⊎ ((check_string s ≡ some false) × (¬ IsUtf8 s))
unfolding check_string
check_string_Decides s k = loop_Decides (suc (length s)) s (omega arith) k

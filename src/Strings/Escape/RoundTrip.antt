-- ===== src/Strings/Escape/RoundTrip.antt =====
-- stringutils.c: unescaping byte by byte, what it makes of an escaped text, and both lengths.
use fcitx_ng.Prelude.{
  ℕ, zero, suc, ◌+◌, ◌*◌, ◌≤◌, ◌<◌, ◌≡◌, refl, sym, ap, ◌∙◌, subst, Bool, true, false, some, [],
  ◌∷◌, ◌++◌, ◌==◌, arith, take, drop, length, length-drop, Bool-cases, inl, inr, ==_iff,
}
use mathlib.Core.Option.{map}
use fcitx_ng.Strings.{Text, strchr, strcspn}
use fcitx_ng.Strings.Escape.{
  unescape_char, set_escape_str_with_set, Unescaped, unescaped, overrun, out_of_fuel, prepend,
  unescape_step, unescape_loop, set_unescape_str, escaped, plain, IsEscapeSet, escape_loop_lem,
  backslash,
}

prepend-cons :
    (c : ℕ) (d : Text) (after : Unescaped)
    → prepend (c ∷ d) after ≡ prepend (c ∷ []) (prepend d after)
unfolding prepend
prepend-cons c d (unescaped t) = refl
prepend-cons c d overrun = refl
prepend-cons c d out_of_fuel = refl

unescape_step-cons :
    (c : ℕ) (d l : Text) (after : Unescaped)
    → unescape_step (c ∷ d) l after ≡ prepend (c ∷ []) (unescape_step d l after)
unfolding unescape_step
unescape_step-cons c d [] after = unfold prepend in refl
unescape_step-cons c d (p ∷ []) after = unfold prepend in refl
unescape_step-cons c d (p ∷ q ∷ l) after = prepend-cons c (d ++ unescape_char q ∷ []) after

strchr_one : (c : ℕ) → strchr (0x5c ∷ []) c ≡ (c == 0x5c)
unfolding strchr
strchr_one c = ground arith

strcspn-in : (c : ℕ) (s set : Text) → strchr set c ≡ true → strcspn (c ∷ s) set ≡ 0
unfolding strcspn
strcspn-in c s set e = rw e refl

strcspn-out :
    (c : ℕ) (s set : Text) → strchr set c ≡ false → strcspn (c ∷ s) set ≡ suc (strcspn s set)
unfolding strcspn
strcspn-out c s set e = rw e refl

-- One round of the loop, with `len` bytes before the backslash.
abbrev one_round : Text → ℕ → Unescaped
one_round s len = unescape_step (take len s) (drop len s) (plain false (drop (suc (suc len)) s))

plain_split : (s : Text) → one_round s (strcspn s (0x5c ∷ [])) ≡ plain false s
plain_split [] = unfold strcspn unescape_step plain in refl
plain_split (c ∷ s) = elim (Bool-cases (c == 0x5c)) [
  | inl e ↦
      ap (one_round (c ∷ s)) (strcspn-in c s (0x5c ∷ []) (strchr_one c ∙ e))
      ∙ at_backslash s
      ∙ waiting e
  | inr e ↦
      ap (one_round (c ∷ s)) (strcspn-out c s (0x5c ∷ []) (strchr_one c ∙ e))
      ∙ unescape_step-cons c (take (strcspn s (0x5c ∷ [])) s) (drop (strcspn s (0x5c ∷ [])) s)
          (plain false (drop (suc (suc (strcspn s (0x5c ∷ [])))) s))
      ∙ ap (prepend (c ∷ [])) (plain_split s)
      ∙ copied e
]
  where
    at_backslash : (t : Text) → unescape_step [] (c ∷ t) (plain false (drop 1 t)) ≡ plain true t
    at_backslash [] = unfold unescape_step plain in refl
    at_backslash (d ∷ t) = unfold unescape_step plain in refl

    waiting : (c == 0x5c) ≡ true → plain true s ≡ plain false (c ∷ s)
    waiting e = unfold plain in rw e refl

    copied : (c == 0x5c) ≡ false → prepend (c ∷ []) (plain false s) ≡ plain false (c ∷ s)
    copied e = unfold plain in rw e refl

unescape_loop_lem : (fuel : ℕ) (s : Text) → length s < fuel → unescape_loop fuel s ≡ plain false s
unfolding unescape_loop
unescape_loop_lem zero s h = absurd (omega arith)
unescape_loop_lem (suc fuel) [] h = unfold strcspn unescape_step plain in refl
unescape_loop_lem (suc fuel) (c ∷ s) h =
    rw
      (unescape_loop_lem fuel (drop (suc (strcspn (c ∷ s) (0x5c ∷ []))) s)
        (omega (arith, length-drop (suc (strcspn (c ∷ s) (0x5c ∷ []))) s)))
      (plain_split (c ∷ s))

pub set_unescape_str_lem : (s : Text) → set_unescape_str s ≡ plain false s
unfolding set_unescape_str
set_unescape_str_lem s = unescape_loop_lem (suc (length s)) s (omega arith)

pub set_escape_str_lem : (set s : Text) → set_escape_str_with_set s set ≡ some (escaped set s)
unfolding set_escape_str_with_set
set_escape_str_lem set s = escape_loop_lem (suc (length s)) set s (omega arith)

plain-escaped : (set s : Text) → IsEscapeSet set → plain false (escaped set s) ≡ unescaped s
unfolding escaped plain prepend backslash
plain-escaped set [] h = refl
plain-escaped set (c ∷ s) h = elim (Bool-cases (strchr set c)) [
  | inl e ↦
      let rest = plain-escaped set s h in
      let back = h.reversible c e in rw e (rw rest (rw back refl))
  | inr e ↦
      let rest = plain-escaped set s h in
      let other = other_byte c e in rw e (rw other (rw rest refl))
]
  where
    other_byte : (d : ℕ) → strchr set d ≡ false → (d == 0x5c) ≡ false
    other_byte d e = elim (Bool-cases (d == 0x5c)) [
      | inl q ↦
          ground
            (arith, subst (λ x. strchr set x ≡ true) (sym ((==_iff d 0x5c).0 q)) h.has_backslash)
      | inr q ↦ q
    ]

-- For a set of bytes that has the backslash and whose escapes stand for themselves, unescaping an
-- escaped text gives the text, without a read past the terminator.
pub set_unescape_str-set_escape_str :
    (set s : Text)
    → IsEscapeSet set
    → map set_unescape_str (set_escape_str_with_set s set) ≡ some (unescaped s)
set_unescape_str-set_escape_str set s h =
    rw (set_escape_str_lem set s)
      (ap some (set_unescape_str_lem (escaped set s) ∙ plain-escaped set s h))

length-escaped : (set s : Text) → length (escaped set s) ≤ 2 * length s
unfolding escaped
length-escaped set [] = omega arith
length-escaped set (c ∷ s) = let rest = length-escaped set s in ground (arith, rest)

-- Escaping always ends, and its result fits with the terminator in the strlen(str) * 2 + 1 bytes
-- that the code allocates.
pub escape_fits :
    (set s : Text)
    → (out : Text) × ((set_escape_str_with_set s set ≡ some out)
        × (length out + 1 ≤ length s * 2 + 1))
escape_fits set s = (escaped set s, (set_escape_str_lem set s, omega (arith, length-escaped set s)))

-- A result that fits with its terminator in a buffer for `n` bytes and a terminator, or an overrun.
pub data Fits (n : ℕ) : Unescaped → Type 0 where
  fits : (t : Text) → length t ≤ n → Fits n (unescaped t)
  unfinished : Fits n overrun

prepend-Fits : (c n : ℕ) (u : Unescaped) → Fits n u → Fits (suc n) (prepend (c ∷ []) u)
unfolding prepend
prepend-Fits c n _ (fits t h) = fits (c ∷ t) (omega arith)
prepend-Fits c n _ unfinished = unfinished

suc-Fits : (n : ℕ) (u : Unescaped) → Fits n u → Fits (suc n) u
suc-Fits n _ (fits t h) = fits t (omega arith)
suc-Fits n _ unfinished = unfinished

plain-Fits : (pending : Bool) (s : Text) → Fits (length s) (plain pending s)
unfolding plain
plain-Fits false [] = fits [] (omega arith)
plain-Fits true [] = unfinished
plain-Fits true (c ∷ s) =
    prepend-Fits (unescape_char c) (length s) (plain false s) (plain-Fits false s)
plain-Fits false (c ∷ s) =
    let waits = suc-Fits (length s) (plain true s) (plain-Fits true s) in
    let copies = prepend-Fits c (length s) (plain false s) (plain-Fits false s) in
    elim (Bool-cases (c == 0x5c)) [ inl e ↦ rw e waits | inr e ↦ rw e copies ]

-- Unescaping always ends and is the byte by byte reading of the text, with a read past the
-- terminator exactly if that reading ends behind a backslash that waits for its letter; a result
-- fits in a buffer as large as the text.
pub set_unescape_str-plain :
    (s : Text) → (set_unescape_str s ≡ plain false s) × Fits (length s) (set_unescape_str s)
set_unescape_str-plain s =
    (set_unescape_str_lem s, rw (set_unescape_str_lem s) (plain-Fits false s))

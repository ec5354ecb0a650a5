-- ===== src/Strings/Affix.antt =====
-- stringutils.c: `fcitx_utils_string_starts_with` and `fcitx_utils_string_ends_with`.
use fcitx_ng.Prelude.{
  ℕ, zero, suc, ◌-◌, ◌≡◌, ◌↔◌, refl, sym, ap, subst, ◌∙◌, Bool, true, false, [], ◌∷◌, ◌++◌, ltb,
  ◌==◌, if◌then◌else◌, ℤ, pos, negsuc, arith, take, drop, length, length-append, length-drop,
  take-append-drop, append-nil, Bool-cases, inl, inr,
}
use fcitx_ng.Strings.{Text}

-- `strncmp` of the C library: the sign of the first difference within `n` bytes.
unfoldable pub strncmp : Text → Text → ℕ → ℤ
strncmp s t zero = pos 0
strncmp [] [] (suc n) = pos 0
strncmp [] (d ∷ t) (suc n) = negsuc 0
strncmp (c ∷ s) [] (suc n) = pos 1
strncmp (c ∷ s) (d ∷ t) (suc n) =
    let rest = strncmp s t n in if c == d then rest else if ltb c d then negsuc 0 else pos 1

abbrev pub is_zero : ℤ → Bool
is_zero (pos m) = m == 0
is_zero (negsuc m) = false

unfoldable pub string_starts_with : Text → Text → Bool
string_starts_with s needle = is_zero (strncmp s needle (length needle))

unfoldable pub string_ends_with : Text → Text → Bool
string_ends_with s needle =
    if ltb (length s) (length needle)
    then false
    else is_zero (strncmp (drop (length s - length needle) s) needle (length needle))

abbrev HasPrefix : Text → Text → Type 0
HasPrefix s needle = (t : Text) × (s ≡ needle ++ t)

strncmp-append : (needle t : Text) → is_zero (strncmp (needle ++ t) needle (length needle)) ≡ true
unfolding strncmp
strncmp-append [] t = refl
strncmp-append (c ∷ needle) t = ground (arith, strncmp-append needle t)

strncmp-HasPrefix :
    (s needle : Text) → is_zero (strncmp s needle (length needle)) ≡ true → HasPrefix s needle
unfolding strncmp
strncmp-HasPrefix s [] h = (s, refl)
strncmp-HasPrefix [] (d ∷ needle) h = ground arith
strncmp-HasPrefix (c ∷ s) (d ∷ needle) h = elim (Bool-cases (c == d)) [
  | inl e ↦ let rest = strncmp-HasPrefix s needle (ground arith) in (rest.0, ground (arith, rest.1))
  | inr e ↦ absurd (ground arith)
]

-- The test is true exactly if the needle followed by some text is the string.
pub string_starts_with_iff :
    (s needle : Text) → (string_starts_with s needle ≡ true) ↔ ((t : Text) × (s ≡ needle ++ t))
unfolding string_starts_with
string_starts_with_iff s needle =
    (strncmp-HasPrefix s needle, λ (p : HasPrefix s needle). rw p.1 (strncmp-append needle p.0))

drop-append : (t needle : Text) → drop (length t) (t ++ needle) ≡ needle
drop-append [] needle = refl
drop-append (c ∷ t) needle = drop-append t needle

-- A text with a prefix as long as itself is the prefix.
whole_prefix : (s needle t : Text) → s ≡ needle ++ t → length s ≡ length needle → s ≡ needle
whole_prefix s needle [] e h = ground (arith, append-nil needle)
whole_prefix s needle (c ∷ t) e h =
    absurd (omega (arith, ap length e, length-append needle (c ∷ t)))

ends_with-suffix :
    (s needle : Text) → string_ends_with s needle ≡ true → (t : Text) × (s ≡ t ++ needle)
unfolding string_ends_with
ends_with-suffix s needle h = elim (Bool-cases (ltb (length s) (length needle))) [
  | inl e ↦ absurd (ground arith)
  | inr e ↦
      let found = strncmp-HasPrefix (drop (length s - length needle) s) needle (ground arith) in
      let whole =
        whole_prefix (drop (length s - length needle) s) needle found.0 found.1
          (ground (arith, length-drop (length s - length needle) s)) in
      (
        take (length s - length needle) s,
        sym (take-append-drop (length s - length needle) s)
            ∙ ap (λ u. take (length s - length needle) s ++ u) whole,
      )
]

suffix-ends_with : (t needle : Text) → string_ends_with (t ++ needle) needle ≡ true
unfolding string_ends_with
suffix-ends_with t needle =
    let size : length (t ++ needle) - length needle ≡ length t =
      omega (arith, length-append t needle) in
    let longer : ltb (length (t ++ needle)) (length needle) ≡ false =
      ground (arith, length-append t needle) in
    rw longer (
      rw size (
        rw (drop-append t needle) (
          subst (λ u. is_zero (strncmp u needle (length needle)) ≡ true) (append-nil needle)
            (strncmp-append needle []))))

-- The test is true exactly if some text followed by the needle is the string.
pub string_ends_with_iff :
    (s needle : Text) → (string_ends_with s needle ≡ true) ↔ ((t : Text) × (s ≡ t ++ needle))
string_ends_with_iff s needle = (
  ends_with-suffix s needle,
  λ (p : (t : Text) × (s ≡ t ++ needle)). rw p.1 (suffix-ends_with p.0 needle),
)

-- ===== src/Strings/Cat.antt =====
-- stringutils.c: `fcitx_utils_str_lens`, `fcitx_utils_cat_str` and `fcitx_utils_cat_str_with_len`.
-- What is written before the terminator is returned.
use fcitx_ng.Prelude.{
  ℕ, zero, suc, ◌+◌, ◌-◌, ◌%◌, ◌^◌, ◌≤◌, ◌<◌, ◌≡◌, refl, sym, ap, ◌∙◌, Option, none, some, List, [],
  ◌∷◌, ◌++◌, map, ltb, if◌then◌else◌, arith, take, length, length-append, Bool-cases, inl, inr,
}
use fcitx_ng.Strings.{Text}

-- `size_list[i]` for `str_list[i]`, which may be NULL.
unfoldable pub size : Option Text → ℕ
size none = 0
size (some s) = length s

-- `total` is a `size_t`.
lens_loop : List (Option Text) → ℕ → ℕ
lens_loop [] total = (total + 1) % 2 ^ 64
lens_loop (s ∷ list) total = lens_loop list ((total + size s) % 2 ^ 64)

unfoldable pub str_lens : List (Option Text) → ℕ × List ℕ
unfolding lens_loop
str_lens list = (lens_loop list 0, map size list)

-- `memcpy` of `n` bytes.
unfoldable pub memcpy : Option Text → ℕ → Text
memcpy none n = []
memcpy (some s) n = take n s

unfoldable pub cat_str : List (Option Text) → List ℕ → Text
unfolding memcpy
cat_str [] sizes = []
cat_str (s ∷ list) [] = []
cat_str (s ∷ list) (zero ∷ sizes) = cat_str list sizes
cat_str (s ∷ list) (suc n ∷ sizes) = memcpy s (suc n) ++ cat_str list sizes

-- `room` is `limit - out`.
cat_loop : ℕ → List (Option Text) → List ℕ → Text
unfolding memcpy
cat_loop room [] sizes = []
cat_loop room (s ∷ list) [] = []
cat_loop room (s ∷ list) (zero ∷ sizes) = cat_loop room list sizes
cat_loop room (s ∷ list) (suc n ∷ sizes) =
    let rest = cat_loop (room - suc n) list sizes in
    if ltb room (suc n) then memcpy s room else memcpy s (suc n) ++ rest

unfoldable pub cat_str_with_len : ℕ → List (Option Text) → List ℕ → Text
unfolding cat_loop
cat_str_with_len len list sizes = cat_loop (len - 1) list sizes

-- All the strings one after the other.
unfoldable pub joined : List (Option Text) → Text
joined [] = []
joined (none ∷ list) = joined list
joined (some s ∷ list) = s ++ joined list

cat_str_lem : (list : List (Option Text)) → cat_str list (map size list) ≡ joined list
unfolding cat_str joined size memcpy
cat_str_lem [] = refl
cat_str_lem (none ∷ list) = cat_str_lem list
cat_str_lem (some [] ∷ list) = cat_str_lem list
cat_str_lem (some (c ∷ s) ∷ list) = let rest = cat_str_lem list in rw rest (rw (take_all s) refl)
  where
    take_all : (t : Text) → take (length t) t ≡ t
    take_all [] = refl
    take_all (d ∷ t) = ap (λ u. d ∷ u) (take_all t)

take-append_short : (n : ℕ) (s t : Text) → n ≤ length s → take n (s ++ t) ≡ take n s
take-append_short zero s t h = refl
take-append_short (suc n) [] t h = absurd (omega arith)
take-append_short (suc n) (c ∷ s) t h = ap (λ u. c ∷ u) (take-append_short n s t (omega arith))

take-append_long :
    (n : ℕ) (s t : Text)
    → length s ≤ n
    → take n (s ++ t) ≡ take (length s) s ++ take (n - length s) t
take-append_long n [] t h = ap (λ (k : ℕ). take k t) (omega arith)
take-append_long zero (c ∷ s) t h = absurd (omega arith)
take-append_long (suc n) (c ∷ s) t h =
    ap (λ u. c ∷ u)
      (take-append_long n s t (omega arith)
        ∙ ap (λ (k : ℕ). take (length s) s ++ take k t) (omega arith))

cat_loop_lem :
    (room : ℕ) (list : List (Option Text))
    → cat_loop room list (map size list) ≡ take room (joined list)
unfolding cat_loop joined size memcpy
cat_loop_lem zero [] = refl
cat_loop_lem (suc room) [] = refl
cat_loop_lem room (none ∷ list) = cat_loop_lem room list
cat_loop_lem room (some [] ∷ list) = cat_loop_lem room list
cat_loop_lem room (some (c ∷ s) ∷ list) =
    let rest = cat_loop_lem (room - suc (length s)) list in
    elim (Bool-cases (ltb room (suc (length s)))) [
      | inl e ↦ rw e (sym (take-append_short room (c ∷ s) (joined list) (ground arith)))
      | inr e ↦ rw e (rw rest (sym (take-append_long room (c ∷ s) (joined list) (ground arith))))
    ]

lens_loop_lem :
    (list : List (Option Text)) (total : ℕ)
    → total + length (joined list) + 1 < 2 ^ 64
    → lens_loop list total ≡ total + length (joined list) + 1
unfolding lens_loop joined size
lens_loop_lem [] total h = omega arith
lens_loop_lem (none ∷ list) total h =
    omega (arith, lens_loop_lem list ((total + 0) % 2 ^ 64) (omega arith))
lens_loop_lem (some s ∷ list) total h = omega (
  arith,
  length-append s (joined list),
  lens_loop_lem list ((total + length s) % 2 ^ 64) (omega (arith, length-append s (joined list))),
)

-- With the sizes of fcitx_utils_str_lens, and a total below 2 ^ 64, fcitx_utils_cat_str writes the
-- strings one after the other, NULL as the empty one, and with the terminator as many bytes as
-- fcitx_utils_str_lens returned.
pub cat_str-str_lens :
    (list : List (Option Text))
    → length (joined list) + 1 < 2 ^ 64
    → (cat_str list (str_lens list).1 ≡ joined list)
      × (length (cat_str list (str_lens list).1) + 1 ≡ (str_lens list).0)
unfolding str_lens
cat_str-str_lens list h = (
  cat_str_lem list,
  omega (arith, lens_loop_lem list 0 (omega (arith, h)), ap length (cat_str_lem list)),
)

-- In a buffer of room + 1 bytes fcitx_utils_cat_str_with_len writes the first room bytes of what
-- fcitx_utils_cat_str writes.
pub cat_str_with_len-cat_str :
    (room : ℕ) (list : List (Option Text))
    → cat_str_with_len (suc room) list (str_lens list).1
      ≡ take room (cat_str list (str_lens list).1)
unfolding cat_str_with_len str_lens
cat_str_with_len-cat_str room list =
    ap (λ (k : ℕ). cat_loop k list (map size list)) (omega arith)
    ∙ cat_loop_lem room list
    ∙ ap (take room) (sym (cat_str_lem list))

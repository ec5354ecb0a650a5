-- ===== src/Strings/Search.antt =====
-- stringutils.c: `fcitx_utils_backward_search` with its rolling hash, and `fcitx_utils_strrstr`.
use fcitx_ng.Prelude.{
  ℕ, zero, suc, ◌+◌, ◌-◌, ◌*◌, ◌%◌, ◌^◌, Bool, true, false, ◌&&◌, Option, none, some, [], ◌∷◌, ltb,
  ◌==◌, if◌then◌else◌, length, drop,
}
use fcitx_ng.Prelude.Bits.{shl}
use fcitx_ng.Strings.{Text}
use fcitx_ng.Strings.Trim.{at}

-- A `char`, which is signed, as a `uint`.
abbrev pub as_uint : ℕ → ℕ
as_uint c = (if ltb c 128 then c else c + (2 ^ 32 - 256)) % 2 ^ 32

-- The rounds of the first loop, from the last byte to the first, with `n` left.
unfoldable pub hash_loop : ℕ → Text → ℕ → ℕ
hash_loop zero s hash = hash
hash_loop (suc n) s hash = hash_loop n s ((hash * 2 + as_uint (at s n)) % 2 ^ 32)

-- `memcmp(...) == 0` for the first `n` bytes of texts that have as many.
unfoldable pub memeq : Text → Text → ℕ → Bool
memeq s t zero = true
memeq [] t (suc n) = false
memeq (c ∷ s) [] (suc n) = false
memeq (c ∷ s) (d ∷ t) (suc n) = c == d && memeq s t n

-- `a - b` of two `uint`s.
abbrev pub uint_minus : ℕ → ℕ → ℕ
uint_minus a b = (a + 2 ^ 32 - b) % 2 ^ 32

-- `REHASH(a)`; a shift by 32 or more would have no bit of `a` left.
abbrev pub rehash : ℕ → ℕ → ℕ → ℕ
rehash ol a hash =
    let less =
      if ltb (ol - 1) 32 then uint_minus hash (shl (as_uint a) (ol - 1) % 2 ^ 32) else hash in
    shl less 1 % 2 ^ 32

-- The second loop, with `haystack` at the offset `i`.
unfoldable pub back_loop : ℕ → Text → Text → ℕ → ℕ → ℕ → Option ℕ
back_loop zero s needle ol hash_needle hash =
    let hash₁ = (hash + as_uint (at s 0)) % 2 ^ 32 in
    if hash₁ == hash_needle && memeq s needle ol then some 0 else none
back_loop (suc i) s needle ol hash_needle hash =
    let hash₁ = (hash + as_uint (at s (suc i))) % 2 ^ 32 in
    let rest = back_loop i s needle ol hash_needle (rehash ol (at s (i + ol)) hash₁) in
    if hash₁ == hash_needle && memeq (drop (suc i) s) needle ol then some (suc i) else rest

-- For `ol` of at least 1. The result is an offset, `none` for NULL.
unfoldable pub backward_search : Text → ℕ → Text → ℕ → ℕ → Option ℕ
unfolding hash_loop back_loop
backward_search haystack l needle ol from =
    if ltb l ol
    then none
    else if ltb l from
    then none
    else let start = if ltb (l - ol) from then l - ol else from in
      let hash = hash_loop ol (drop start haystack) 0 in
      back_loop start haystack needle ol (hash_loop ol needle 0)
        (uint_minus hash (as_uint (at haystack start)))

-- The last place of a byte.
unfoldable pub strrchr : Text → ℕ → Option ℕ
strrchr [] c = none
strrchr (d ∷ s) c =
    let rest = strrchr s c in
    elim rest [ some i ↦ some (suc i) | none ↦ if d == c then some 0 else none ]

unfoldable pub strrstr : Text → Text → Option ℕ
unfolding backward_search strrchr
strrstr haystack [] = none
strrstr haystack (c ∷ []) = strrchr haystack c
strrstr haystack (c ∷ d ∷ needle) =
    backward_search haystack (length haystack) (c ∷ d ∷ needle) (length (c ∷ d ∷ needle)) 0

-- ===== src/Utf8/Copy/Cut.antt =====
-- Where `fcitx_utf8_strncpy` cuts the encoding of valid characters, and what `strnlen` and `strlen` count.
use fcitx_ng.Prelude.{
  ℕ, zero, suc, ◌+◌, ◌-◌, ◌≤◌, ◌<◌, ◌≡◌, ◌⊎◌, inl, inr, refl, sym, ap, ◌∙◌, true, false, some, List,
  [], ◌∷◌, ◌++◌, ltb, ◌==◌, arith, if◌then◌else◌, length, length-append, take, replicate,
  append_assoc, Bool-cases,
}
use fcitx_ng.Utf8.{
  Bytes, IsCString, byte, get_char, next, ucs4_char_len, unicode_valid, strlen, strlen_loop,
}
use fcitx_ng.Utf8.RoundTrip.{encode, next-encode, get_char-encode, ucs4_to_utf8-char_len}
use fcitx_ng.Utf8.Validated.Check.{
  AllValid, encode_all, valid_bound, IsCString-behind, char_len_pos,
}
use fcitx_ng.Utf8.Copy.{strncpy, strncpy_loop, strnlen, strnlen_loop}

pub take_append : (xs ys : Bytes) (n : ℕ) → length xs ≡ n → take n (xs ++ ys) ≡ xs
take_append [] ys zero e = refl
take_append [] ys (suc n) e = absurd (omega arith)
take_append (x ∷ xs) ys zero e = absurd (omega arith)
take_append (x ∷ xs) ys (suc n) e = ap (λ t. x ∷ t) (take_append xs ys n (omega arith))

byte_append :
    (xs ys : Bytes) → 0 < length xs → IsCString (xs ++ ys) → (byte (xs ++ ys) 0 == 0) ≡ false
byte_append [] ys h k = absurd (omega arith)
byte_append (x ∷ xs) ys h k = ground (arith, k.0)

-- Facts about a string that begins with a valid character.
module _ (c : ℕ) (s : Bytes) (v : unicode_valid c ≡ true) (k : IsCString (encode c ++ s)) where
  get_char_front : get_char (encode c ++ s) ≡ (c, ucs4_char_len c)
  get_char_front = get_char-encode c s (inl (omega (arith, valid_bound c v)))

  pub next_front : next (encode c ++ s) ≡ s
  next_front = next-encode c s (omega (arith, valid_bound c v))

  take_front : take (ucs4_char_len c) (encode c ++ s) ≡ encode c
  take_front = take_append (encode c) s (ucs4_char_len c) (ucs4_to_utf8-char_len c).2

  pub byte_front : (byte (encode c ++ s) 0 == 0) ≡ false
  byte_front =
      byte_append (encode c) s (omega (arith, (ucs4_to_utf8-char_len c).2, char_len_pos c)) k

  length_front : length (encode c ++ s) ≡ ucs4_char_len c + length s
  length_front = length-append (encode c) s ∙ omega (arith, (ucs4_to_utf8-char_len c).2)

strlen_loop-encode_all :
    (fuel l : ℕ) (cs : List ℕ)
    → length (encode_all cs) < fuel
    → AllValid cs
    → IsCString (encode_all cs)
    → strlen_loop fuel (encode_all cs) l ≡ some (l + length cs)
unfolding strlen_loop
strlen_loop-encode_all zero l cs h v k = elim h [ ]
strlen_loop-encode_all (suc fuel) l [] h v k = ap some (omega arith)
strlen_loop-encode_all (suc fuel) l (c ∷ cs) h v k =
    let s = encode_all cs in
    rw (byte_front c s v.0 k, next_front c s v.0 k)
      (strlen_loop-encode_all fuel (l + 1) cs
          (omega (arith, length_front c s v.0 k, char_len_pos c)) v.1
          (IsCString-behind (encode c) s k)
        ∙ ap some (omega arith))

-- fcitx_utf8_strlen counts the characters of an encoded text of valid code points.
pub strlen-encode_all :
    (cs : List ℕ)
    → AllValid cs
    → IsCString (encode_all cs)
    → strlen (encode_all cs) ≡ some (length cs)
unfolding strlen
strlen-encode_all cs v k =
    strlen_loop-encode_all (suc (length (encode_all cs))) 0 cs (omega arith) v k
    ∙ ap some (omega arith)

-- The number of characters that fit in `n` bytes, by their lengths.
abbrev pub fitting : ℕ → List ℕ → ℕ
fitting n [] = 0
fitting n (c ∷ cs) = if ltb n (ucs4_char_len c) then 0 else suc (fitting (n - ucs4_char_len c) cs)

strnlen_loop-encode_all :
    (fuel n l : ℕ) (cs : List ℕ)
    → length (encode_all cs) < fuel
    → AllValid cs
    → IsCString (encode_all cs)
    → strnlen_loop fuel (encode_all cs) n l ≡ some (l + fitting n cs)
unfolding strnlen_loop
strnlen_loop-encode_all zero n l cs h v k = elim h [ ]
strnlen_loop-encode_all (suc fuel) n l [] h v k = ap some (omega arith)
strnlen_loop-encode_all (suc fuel) n l (c ∷ cs) h v k =
    let s = encode_all cs in
    rw (byte_front c s v.0 k, next_front c s v.0 k, get_char_front c s v.0 k)
      (ground (
        arith,
        char_len_pos c,
        strnlen_loop-encode_all fuel (n - ucs4_char_len c) (l + 1) cs
            (omega (arith, length_front c s v.0 k, char_len_pos c)) v.1
            (IsCString-behind (encode c) s k),
      ))

-- What the copy holds: the first characters that fit, then zeros up to `n` bytes.
abbrev pub padded : ℕ → List ℕ → Bytes
padded n cs = encode_all cs ++ replicate (n - length (encode_all cs)) 0

padded_cons :
    (n c : ℕ) (ds : List ℕ) → encode c ++ padded (n - ucs4_char_len c) ds ≡ padded n (c ∷ ds)
padded_cons n c ds =
    let e : n - ucs4_char_len c - length (encode_all ds) ≡ n - length (encode c ++ encode_all ds) =
      omega (arith, length-append (encode c) (encode_all ds), (ucs4_to_utf8-char_len c).2) in
    sym (append_assoc (encode c) (encode_all ds) _)
    ∙ ap (λ m. (encode c ++ encode_all ds) ++ replicate m 0) e

strncpy_loop-encode_all :
    (fuel n : ℕ) (cs : List ℕ)
    → length (encode_all cs) < fuel
    → AllValid cs
    → IsCString (encode_all cs)
    → strncpy_loop fuel (encode_all cs) n ≡ some (padded n (take (fitting n cs) cs))
unfolding strncpy_loop
strncpy_loop-encode_all zero n cs h v k = elim h [ ]
strncpy_loop-encode_all (suc fuel) n [] h v k = ap (λ m. some (replicate m 0)) (omega arith)
strncpy_loop-encode_all (suc fuel) n (c ∷ cs) h v k =
    let s = encode_all cs in
    let ih =
      strncpy_loop-encode_all fuel (n - ucs4_char_len c) cs
        (omega (arith, length_front c s v.0 k, char_len_pos c)) v.1
        (IsCString-behind (encode c) s k) in
    rw
      (
        byte_front c s v.0 k,
        next_front c s v.0 k,
        get_char_front c s v.0 k,
        take_front c s v.0 k,
        ih,
      )
      (elim (Bool-cases (ltb n (ucs4_char_len c))) [
        | inl e ↦ rw e (ap (λ m. some (replicate m 0)) (omega arith))
        | inr e ↦ rw e (ap some (padded_cons n c (take (fitting (n - ucs4_char_len c) cs) cs)))
      ])

fitting_cut :
    (n : ℕ) (cs : List ℕ)
    → (length (encode_all (take (fitting n cs) cs)) ≤ n)
      × ((fitting n cs ≡ length cs) ⊎ (n < length (encode_all (take (suc (fitting n cs)) cs))))
fitting_cut n [] = (omega arith, inl refl)
fitting_cut n (c ∷ cs) = ground (
  arith,
  fitting_cut (n - ucs4_char_len c) cs,
  length-append (encode c) (encode_all (take (fitting (n - ucs4_char_len c) cs) cs)),
  length-append (encode c) (encode_all (take (suc (fitting (n - ucs4_char_len c) cs)) cs)),
  length-append (encode c) [],
  ucs4_to_utf8-char_len c,
)

-- On an encoded text the bounded copy and the bounded count take the same characters: the first k,
-- which fit in n bytes, and as many as fit; the copy fills the rest of the n bytes with zeros.
pub strncpy-strnlen :
    (n : ℕ) (cs : List ℕ)
    → AllValid cs
    → IsCString (encode_all cs)
    → (k : ℕ) × (strnlen (encode_all cs) n ≡ some k)
      × (strncpy (encode_all cs) n ≡ some (padded n (take k cs)))
      × (length (encode_all (take k cs)) ≤ n)
      × ((k ≡ length cs) ⊎ (n < length (encode_all (take (suc k) cs))))
unfolding strncpy strnlen
strncpy-strnlen n cs v k =
    let fuel = suc (length (encode_all cs)) in
    (
      fitting n cs,
      strnlen_loop-encode_all fuel n 0 cs (omega arith) v k ∙ ap some (omega arith),
      strncpy_loop-encode_all fuel n cs (omega arith) v k,
      (fitting_cut n cs).0,
      (fitting_cut n cs).1,
    )

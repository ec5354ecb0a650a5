-- ===== src/Utf8/Walk.antt =====
-- The advance of `fcitx_utf8_get_char`, and the end of the loops over a string that may be malformed.
use fcitx_ng.Prelude.{
  Option, none, true, false, bit_and, ltb, if◌then◌else◌, get_or, ap, ℕ, zero, suc, ◌+◌, ◌≤◌, ◌<◌,
  ◌≡◌, Bool-cases, inl, inr, refl, some, [], ◌∷◌, ◌==◌, arith, length, length-drop,
}
use fcitx_ng.Utf8.{Bytes, cont, is_utf8_cb, get_char, char_len, next, strlen, strlen_loop}

-- The decoder moves on by fcitx_utf8_char_len bytes, malformed input included.
pub get_char-char_len : (s : Bytes) → (get_char s).1 ≡ char_len s
unfolding get_char char_len
get_char-char_len s = ground arith

char_len_bounds : (s : Bytes) → (1 ≤ char_len s) × (char_len s ≤ 6)
unfolding char_len
char_len_bounds s = ground arith

get_or-past : (s : Bytes) (i : ℕ) → length s ≤ i → get_or s i 0 ≡ 0
get_or-past [] i h = refl
get_or-past (x ∷ s) zero h = absurd (omega arith)
get_or-past (x ∷ s) (suc i) h = get_or-past s i (omega arith)

-- A continuation byte stands in front of the terminator.
cont-inside : (s : Bytes) (i : ℕ) → cont s i ≡ true → i < length s
unfolding is_utf8_cb
cont-inside s i h = elim (Bool-cases (ltb i (length s))) [
  | inl e ↦ ground (arith, e)
  | inr e ↦
      let zero_byte = get_or-past s i (ground (arith, e)) in
      absurd (ground (arith, ap (λ b. bit_and b 0xc0 == 0x80) zero_byte, h))
]

-- The decoder does not move behind the terminator, malformed input included.
get_char_within : (x : ℕ) (s : Bytes) → (get_char (x ∷ s)).1 ≤ length (x ∷ s)
unfolding get_char
get_char_within x s = ground (
  arith,
  cont-inside (x ∷ s) 1,
  cont-inside (x ∷ s) 2,
  cont-inside (x ∷ s) 3,
  cont-inside (x ∷ s) 4,
  cont-inside (x ∷ s) 5,
)

length-next : (x : ℕ) (s : Bytes) → length (next (x ∷ s)) < length (x ∷ s)
length-next x s = omega (
  arith,
  length-drop (get_char (x ∷ s)).1 (x ∷ s),
  get_char-char_len (x ∷ s),
  (char_len_bounds (x ∷ s)).0,
)

-- The loop of the count, which stops with `none` where the pointer would move behind the terminator.
unfoldable pub checked_loop : ℕ → Bytes → ℕ → Option ℕ
checked_loop zero s l = none
checked_loop (suc fuel) [] l = some l
checked_loop (suc fuel) (x ∷ s) l =
    let rest = checked_loop fuel (next (x ∷ s)) (l + 1) in
    if x == 0 then some l else if ltb (length (x ∷ s)) (get_char (x ∷ s)).1 then none else rest

strlen_loop_within :
    (fuel l : ℕ) (s : Bytes)
    → length s < fuel
    → (n : ℕ) × ((strlen_loop fuel s l ≡ some n)
        × ((checked_loop fuel s l ≡ some n) × ((l ≤ n) × (n ≤ l + length s))))
unfolding strlen_loop checked_loop
strlen_loop_within zero l s h = absurd (omega arith)
strlen_loop_within (suc fuel) l [] h = (l, (refl, (refl, (omega arith, omega arith))))
strlen_loop_within (suc fuel) l (x ∷ s) h = elim (Bool-cases (x == 0)) [
  | inl e ↦ (l, (rw e refl, (rw e refl, (omega arith, omega arith))))
  | inr e ↦
      let shorter = length-next x s in
      let inside : ltb (length (x ∷ s)) (get_char (x ∷ s)).1 ≡ false =
        ground (arith, get_char_within x s) in
      let r = strlen_loop_within fuel (l + 1) (next (x ∷ s)) (omega arith) in
      (
        r.0,
        (
          rw e r.1.0,
          (rw e (rw inside r.1.1.0), (omega (arith, r.1.1.1.0), omega (arith, r.1.1.1.1, shorter))),
        ),
      )
]

-- fcitx_utf8_strlen ends on any bytes, malformed ones included, with the count of a loop that
-- stops where fcitx_utf8_get_char would move behind the terminator, which is at most the number of
-- the bytes.
pub strlen_within :
    (s : Bytes)
    → (n : ℕ) × ((strlen s ≡ some n)
        × ((checked_loop (suc (length s)) s 0 ≡ some n) × (n ≤ length s)))
unfolding strlen
strlen_within s =
    let r = strlen_loop_within (suc (length s)) 0 s (omega arith) in
    (r.0, (r.1.0, (r.1.1.0, omega (arith, r.1.1.1.1))))

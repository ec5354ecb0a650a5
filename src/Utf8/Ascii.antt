-- ===== src/Utf8/Ascii.antt =====
-- utf8.c: the ASCII part at the end of a string, and the first byte that is not ASCII.
use fcitx_ng.Prelude.{
  ℕ, zero, suc, ◌+◌, ◌≤◌, ◌<◌, ◌≡◌, ◌⊎◌, inl, inr, Bool-cases, refl, sym, subst, ==_iff, Bool, true,
  false, not, ◌&&◌, bit_and, Option, none, some, ◌==◌, arith, if◌then◌else◌, length,
}
use fcitx_ng.Utf8.{Bytes, byte}

abbrev pub is_ascii : ℕ → Bool
is_ascii c = bit_and c 0x80 == 0

abbrev pub is_valid_ascii : ℕ → Bool
is_valid_ascii c = is_ascii c && not (c == 0)

-- The loop over `s`, from the offset `n` down: where it stops, plus one.
unfoldable pub ascii_start : Bytes → ℕ → ℕ
ascii_start string zero = 0
ascii_start string (suc n) = if is_ascii (byte string n) then ascii_start string n else suc n

-- The offset of the returned pointer, `none` for NULL.
unfoldable pub get_ascii_partn : Option Bytes → ℕ → Option ℕ
get_ascii_partn none len = none
get_ascii_partn (some string) len = some (ascii_start string len)

unfoldable pub get_ascii_part : Option Bytes → Option ℕ
unfolding get_ascii_partn
get_ascii_part none = none
get_ascii_part (some string) = get_ascii_partn (some string) (length string)

-- The offset where the loop up to `string + len` stops, with `n` bytes left.
ascii_stop : Bytes → ℕ → ℕ → ℕ
ascii_stop string i zero = i
ascii_stop string i (suc n) =
    let rest = ascii_stop string (i + 1) n in if is_valid_ascii (byte string i) then rest else i

unfoldable pub get_ascii_endn : Option Bytes → ℕ → Option ℕ
unfolding ascii_stop
get_ascii_endn none len = none
get_ascii_endn (some string) len = some (ascii_stop string 0 len)

-- The longest run of ASCII bytes that ends at `n`, from `b` on.
pub record EndsAscii (s : Bytes) (n b : ℕ) : Type 0 where
  pub within : b ≤ n
  pub all : (i : ℕ) → b ≤ i → i < n → is_ascii (byte s i) ≡ true
  pub longest : (j : ℕ) → b ≡ suc j → is_ascii (byte s j) ≡ false

ascii_start_lem : (s : Bytes) (n : ℕ) → EndsAscii s n (ascii_start s n)
unfolding ascii_start
ascii_start_lem s zero = record {
  within = omega arith;
  all = λ i h k. absurd (omega arith);
  longest = λ j e. absurd (omega arith);
}
ascii_start_lem s (suc n) = elim (Bool-cases (is_ascii (byte s n))) [
  | inl e ↦
      let ih = ascii_start_lem s n in
      rw e (record {
        within = omega (arith, ih.within);
        all = λ i h k. elim (Bool-cases (i == n)) [
          | inl q ↦ subst (λ m. is_ascii (byte s m) ≡ true) (sym ((==_iff i n).0 q)) e
          | inr q ↦ ih.all i h (ground arith)
        ];
        longest = ih.longest;
      })
  | inr e ↦ rw e (record {
    within = omega arith;
    all = λ i h k. absurd (omega arith);
    longest = λ j q. subst (λ m. is_ascii (byte s m) ≡ false) (omega arith) e;
  })
]

-- The result is NULL for NULL, and else the start of the longest run of ASCII bytes that ends at
-- len.
pub get_ascii_partn-EndsAscii :
    (s : Bytes) (len : ℕ)
    → (get_ascii_partn none len ≡ none)
      × ((b : ℕ) × (get_ascii_partn (some s) len ≡ some b) × EndsAscii s len b)
unfolding get_ascii_partn
get_ascii_partn-EndsAscii s len = (refl, (ascii_start s len, refl, ascii_start_lem s len))

-- The first offset in `i .. i + n` that holds no ASCII byte or the terminator.
pub record StartsAscii (s : Bytes) (i n b : ℕ) : Type 0 where
  pub from : i ≤ b
  pub within : b ≤ i + n
  pub all : (j : ℕ) → i ≤ j → j < b → is_valid_ascii (byte s j) ≡ true
  pub stops : (b ≡ i + n) ⊎ (is_valid_ascii (byte s b) ≡ false)

ascii_stop_lem : (s : Bytes) (i n : ℕ) → StartsAscii s i n (ascii_stop s i n)
unfolding ascii_stop
ascii_stop_lem s i zero = record {
  from = omega arith;
  within = omega arith;
  all = λ j h k. absurd (omega arith);
  stops = inl (omega arith);
}
ascii_stop_lem s i (suc n) = elim (Bool-cases (is_valid_ascii (byte s i))) [
  | inl e ↦
      let ih = ascii_stop_lem s (i + 1) n in
      rw e (record {
        from = omega (arith, ih.from);
        within = omega (arith, ih.within);
        all = λ j h k. elim (Bool-cases (j == i)) [
          | inl q ↦ subst (λ m. is_valid_ascii (byte s m) ≡ true) (sym ((==_iff j i).0 q)) e
          | inr q ↦ ih.all j (ground arith) k
        ];
        stops = elim ih.stops [ inl q ↦ inl (omega arith) | inr q ↦ inr q ];
      })
  | inr e ↦ rw e (record {
    from = omega arith;
    within = omega arith;
    all = λ j h k. absurd (omega arith);
    stops = inr e;
  })
]

-- The result is NULL for NULL, and else the first of the len bytes that is not ASCII or is the
-- terminator, or the end.
pub get_ascii_endn-StartsAscii :
    (s : Bytes) (len : ℕ)
    → (get_ascii_endn none len ≡ none)
      × ((b : ℕ) × (get_ascii_endn (some s) len ≡ some b) × StartsAscii s 0 len b)
unfolding get_ascii_endn
get_ascii_endn-StartsAscii s len = (refl, (ascii_stop s 0 len, refl, ascii_stop_lem s 0 len))

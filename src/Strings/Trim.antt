-- ===== src/Strings/Trim.antt =====
-- stringutils.c: `fcitx_utils_trim_helper`, `fcitx_utils_inplace_trim` and `fcitx_utils_trim`, with
-- `fcitx_utils_isspace` of misc.h.
use fcitx_ng.Prelude.{
  ℕ, zero, suc, ◌+◌, ◌-◌, ◌≤◌, ◌<◌, ◌≡◌, refl, sym, ap, ◌∙◌, Bool, true, false, ◌||◌, [], ◌∷◌, ◌++◌,
  ◌==◌, ==_iff, subst, if◌then◌else◌, arith, take, drop, length, length-drop, length-take,
  take-append-drop, Bool-cases, inl, inr, ◌⊎◌,
}
use fcitx_ng.Strings.{Text}

unfoldable pub isspace : ℕ → Bool
isspace c = c == 0x0c || c == 0x0a || c == 0x0d || c == 0x09 || c == 0x0b || c == 0x20

-- `strspn(s, "\f\n\r\t\v ")`.
unfoldable pub spaces : Text → ℕ
spaces [] = 0
spaces (c ∷ s) = let rest = spaces s in if isspace c then suc rest else 0

-- The byte at `i`; the terminator at the end.
abbrev pub at : Text → ℕ → ℕ
at [] i = 0
at (c ∷ s) zero = c
at (c ∷ s) (suc i) = at s i

-- The loop on `end`, which starts on the last byte: `n` is `end + 1 - s`.
unfoldable pub skip_trailing : Text → ℕ → ℕ
skip_trailing s zero = 0
skip_trailing s (suc n) = let rest = skip_trailing s n in if isspace (at s n) then rest else suc n

-- The offsets of `*pStart` and `*pEnd`.
unfoldable pub trim_helper : Text → ℕ × ℕ
unfolding spaces skip_trailing
trim_helper s =
    let start = spaces s in
    let rest = drop start s in (start, start + skip_trailing rest (length rest))

-- `memcpy(result, s, len)` takes the bytes from `s` on.
unfoldable pub trim : Text → Text
unfolding trim_helper
trim s = let p = trim_helper s in take p.1 s

-- The text from `start` on, with the terminator at `end`.
unfoldable pub inplace_trim : Text → Text
unfolding trim_helper
inplace_trim s = let p = trim_helper s in take (p.1 - p.0) (drop p.0 s)

-- Every byte is white space.
pub AllSpace : Text → Type 0
AllSpace s = (i : ℕ) → i < length s → isspace (at s i) ≡ true

-- The rest of `s` between white space, which neither starts nor ends with any.
pub record IsTrimmed (s t : Text) : Type 0 where
  pub before : Text
  pub after : Text
  pub split : s ≡ before ++ (t ++ after)
  pub before_space : AllSpace before
  pub after_space : AllSpace after
  pub starts : t ≡ [] ⊎ (isspace (at t 0) ≡ false)
  pub ends : t ≡ [] ⊎ (isspace (at t (length t - 1)) ≡ false)

at-take : (k : ℕ) (s : Text) (i : ℕ) → i < k → at (take k s) i ≡ at s i
at-take zero s i h = absurd (omega arith)
at-take (suc k) [] i h = refl
at-take (suc k) (c ∷ s) zero h = refl
at-take (suc k) (c ∷ s) (suc i) h = at-take k s i (omega arith)

at-drop : (k : ℕ) (s : Text) (i : ℕ) → at (drop k s) i ≡ at s (k + i)
at-drop zero s i = let same : i ≡ 0 + i = omega arith in ap (at s) same
at-drop (suc k) [] i = refl
at-drop (suc k) (c ∷ s) i =
    let next : suc (k + i) ≡ suc k + i = omega arith in at-drop k s i ∙ ap (at (c ∷ s)) next

spaces-AllSpace : (s : Text) → AllSpace (take (spaces s) s)
unfolding spaces AllSpace
spaces-AllSpace [] = λ i h. absurd (omega arith)
spaces-AllSpace (c ∷ s) =
    let rest = spaces-AllSpace s in
    elim (Bool-cases (isspace c)) [
      | inl e ↦ rw e (both rest e)
      | inr e ↦ rw e (λ i h. absurd (omega arith))
    ]
  where
    both :
        AllSpace (take (spaces s) s)
        → isspace c ≡ true
        → (i : ℕ) → i < length (c ∷ take (spaces s) s)
        → isspace (at (c ∷ take (spaces s) s) i) ≡ true
    both rest e zero h = e
    both rest e (suc i) h = rest i (omega arith)

spaces_stop : (s : Text) → (drop (spaces s) s ≡ []) ⊎ (isspace (at (drop (spaces s) s) 0) ≡ false)
unfolding spaces
spaces_stop [] = inl refl
spaces_stop (c ∷ s) =
    let rest = spaces_stop s in
    elim (Bool-cases (isspace c)) [ inl e ↦ rw e rest | inr e ↦ rw e (inr e) ]

-- From `n'` to `n` there is white space only, and `n'` is the first such.
record Trailing (s : Text) (n n' : ℕ) : Type 0 where
  within : n' ≤ n
  all : (i : ℕ) → n' ≤ i → i < n → isspace (at s i) ≡ true
  last : (n' ≡ 0) ⊎ (isspace (at s (n' - 1)) ≡ false)

skip_trailing-Trailing : (s : Text) (n : ℕ) → Trailing s n (skip_trailing s n)
unfolding skip_trailing
skip_trailing-Trailing s zero = record {
  within = omega arith;
  all = λ i h k. absurd (omega arith);
  last = inl refl;
}
skip_trailing-Trailing s (suc n) =
    let rest = skip_trailing-Trailing s n in
    elim (Bool-cases (isspace (at s n))) [
      | inl e ↦ rw e (record {
        within = omega (arith, rest.within);
        all = λ i h k. elim (Bool-cases (i == n)) [
          | inl q ↦ subst (λ (x : ℕ). isspace (at s x) ≡ true) (sym ((==_iff i n).0 q)) e
          | inr q ↦ rest.all i h (ground arith)
        ];
        last = rest.last;
      })
      | inr e ↦ rw e (record {
        within = omega arith;
        all = λ i h k. absurd (omega arith);
        last = inr (subst (λ (x : ℕ). isspace (at s x) ≡ false) (omega arith) e);
      })
    ]

take_starts :
    (n : ℕ) (t : Text)
    → (t ≡ []) ⊎ (isspace (at t 0) ≡ false)
    → (take n t ≡ []) ⊎ (isspace (at (take n t) 0) ≡ false)
take_starts zero t h = inl refl
take_starts (suc n) t (inl e) = inl (rw e refl)
take_starts (suc n) t (inr e) = inr (rw (at-take (suc n) t 0 (omega arith)) e)

take_ends :
    (n : ℕ) (t : Text)
    → n ≤ length t
    → (n ≡ 0) ⊎ (isspace (at t (n - 1)) ≡ false)
    → (take n t ≡ []) ⊎ (isspace (at (take n t) (length (take n t) - 1)) ≡ false)
take_ends zero t h last = inl refl
take_ends (suc n) t h (inl e) = absurd (omega arith)
take_ends (suc n) t h (inr e) =
    let size : length (take (suc n) t) ≡ suc n = omega (arith, length-take (suc n) t) in
    inr (rw size (rw (at-take (suc n) t (suc n - 1) (omega arith)) e))

-- The text behind the leading white space, and how much of it is kept.
abbrev rest_of : Text → Text
rest_of s = drop (spaces s) s

abbrev kept : Text → ℕ
kept s = skip_trailing (rest_of s) (length (rest_of s))

inplace_trim_lem : (s : Text) → inplace_trim s ≡ take (kept s) (rest_of s)
unfolding inplace_trim trim_helper
inplace_trim_lem s =
    let size : spaces s + kept s - spaces s ≡ kept s = omega arith in
    ap (λ (n : ℕ). take n (rest_of s)) size

-- The text is white space, the result, and white space; the result neither starts nor ends with
-- white space.
pub inplace_trim-IsTrimmed : (s : Text) → IsTrimmed s (inplace_trim s)
inplace_trim-IsTrimmed s =
    let stop = skip_trailing-Trailing (rest_of s) (length (rest_of s)) in
    rw (inplace_trim_lem s) (record {
      before = take (spaces s) s;
      after = drop (kept s) (rest_of s);
      split = sym (
          ap (λ (u : Text). take (spaces s) s ++ u) (take-append-drop (kept s) (rest_of s))
          ∙ take-append-drop (spaces s) s);
      before_space = spaces-AllSpace s;
      after_space = after stop;
      starts = take_starts (kept s) (rest_of s) (spaces_stop s);
      ends = take_ends (kept s) (rest_of s) stop.within stop.last;
    })
  where
    after :
        Trailing (rest_of s) (length (rest_of s)) (kept s) → AllSpace (drop (kept s) (rest_of s))
    after stop =
        unfold AllSpace in
        λ i h.
          rw (at-drop (kept s) (rest_of s) i) (
            stop.all (kept s + i) (omega arith)
              (omega (arith, h, length-drop (kept s) (rest_of s))))

take-nil : (n : ℕ) → take {A = ℕ} n [] ≡ []
take-nil zero = refl
take-nil (suc n) = refl

take-sum : (m n : ℕ) (t : Text) → take (m + n) t ≡ take m t ++ take n (drop m t)
take-sum zero n t = ap (λ (k : ℕ). take k t) (omega arith)
take-sum (suc m) n [] = rw (take-nil (suc m + n)) (rw (take-nil n) refl)
take-sum (suc m) n (c ∷ t) =
    let next : suc m + n ≡ suc (m + n) = omega arith in
    rw next (ap (λ (u : Text). c ∷ u) (take-sum m n t))

-- fcitx_utils_trim returns the leading white space of the text, and then what
-- fcitx_utils_inplace_trim returns.
pub trim-inplace_trim : (s : Text) → trim s ≡ take (spaces s) s ++ inplace_trim s
trim-inplace_trim s =
    rw (inplace_trim_lem s) (unfold trim trim_helper in take-sum (spaces s) (kept s) s)

-- ===== src/Utf8/Validated/Outcome.antt =====
-- What `fcitx_utf8_get_char_extended` may return, and what its value says of the bytes.
use fcitx_ng.Prelude.{
  ℕ, suc, ◌+◌, ◌-◌, ◌*◌, ◌/◌, ◌%◌, ◌^◌, ◌≤◌, ◌<◌, ◌≡◌, ◌⊎◌, inl, inr, refl, ap, subst, ◌∙◌, true,
  some, [], ◌∷◌, ◌++◌, ◌==◌, ==_iff, leb, lt→ltb, ge→ltb, arith, pos, Bool-cases, dec_lt,
}
use fcitx_ng.Utf8.{Bytes, IsCString, minus_one, minus_two, utf8_length}
use fcitx_ng.Utf8.RoundTrip.{join, encode, encode_one, encode_two, encode_three, encode_four}
use fcitx_ng.Utf8.Validated.{Scan, value, stop, scan, lead, shortest, multibyte, get_char_extended}
use fcitx_ng.Utf8.Validated.Extended.{
  scan_tail, scan-Round, scan_bound, scan_stop, lead_two, lead_three, lead_four, lead_five,
  lead_six, Leads, refused, announces_two, announces_three, announces_four, announces_five,
  announces_six, leads,
}

Scan-cases : (r : Scan) → ((w : ℕ) × (r ≡ value w)) ⊎ ((e : ℕ) × (r ≡ stop e))
Scan-cases (value w) = inl (w, refl)
Scan-cases (stop e) = inr (e, refl)

-- What `fcitx_utf8_get_char_extended` may return: an error, a character of which the bytes in front are
-- the encoding, or a value of more than four bytes.
pub data Outcome (s : Bytes) (w : ℕ) : Type 0 where
  malformed : (w ≡ minus_one) ⊎ (w ≡ minus_two) → Outcome s w
  encoded : (t : Bytes) → w < 0x200000 → s ≡ encode w ++ t → Outcome s w
  too_large : 0x200000 ≤ w → w < 2 ^ 31 → Outcome s w

-- The value behind the last test, for a length `n + 1` and the bytes `s` behind the first.
module _ (n wc x : ℕ) (s : Bytes) where
  shortest-Outcome :
      ((w : ℕ) → scan n 0 s wc ≡ value w → utf8_length w ≡ suc n → Outcome (x ∷ s) w)
      → Outcome (x ∷ s) (shortest (suc n) (scan n 1 (x ∷ s) wc))
  unfolding shortest
  shortest-Outcome good = rw (scan_tail n 0 x wc s) (elim (Scan-cases (scan n 0 s wc)) [
    | inr (e, h) ↦ rw h (malformed (scan_stop n 0 wc s h))
    | inl (w, h) ↦ rw h (elim (Bool-cases (utf8_length w == suc n)) [
      | inl same ↦ rw same (good w h ((==_iff _ _).0 same))
      | inr other ↦ rw other (malformed (inl refl))
    ])
  ])

scan_end : (wc w : ℕ) (s : Bytes) → scan 0 0 s wc ≡ value w → wc ≡ w
unfolding scan
scan_end wc w s e = ground arith

-- The bytes of a value that its length fits are those of its encoding.
module _ (w : ℕ) where
  encode-eq_two :
      (a b : ℕ)
      → b < 0x40
      → join a b ≡ w
      → utf8_length w ≡ 2
      → encode w ≡ (0xc0 + a) ∷ (0x80 + b) ∷ []
  unfolding utf8_length
  encode-eq_two a b hb e l =
      let p : w / 0x40 ≡ a = omega arith in
      let q : w % 0x40 ≡ b = omega arith in encode_two w (ground arith) (ground arith) ∙ cc

  encode-eq_three :
      (a b c : ℕ)
      → b < 0x40
      → c < 0x40
      → join (join a b) c ≡ w
      → utf8_length w ≡ 3
      → encode w ≡ (0xe0 + a) ∷ (0x80 + b) ∷ (0x80 + c) ∷ []
  unfolding utf8_length
  encode-eq_three a b c hb hc e l =
      let p : w / 0x1000 ≡ a = omega arith in
      let q : w / 0x40 % 0x40 ≡ b = omega arith in
      let r : w % 0x40 ≡ c = omega arith in encode_three w (ground arith) (ground arith) ∙ cc

  encode-eq_four :
      (a b c d : ℕ)
      → b < 0x40
      → c < 0x40
      → d < 0x40
      → join (join (join a b) c) d ≡ w
      → utf8_length w ≡ 4
      → encode w ≡ (0xf0 + a) ∷ (0x80 + b) ∷ (0x80 + c) ∷ (0x80 + d) ∷ []
  unfolding utf8_length
  encode-eq_four a b c d hb hc hd e l =
      let p : w / 0x40000 ≡ a = omega arith in
      let q : w / 0x1000 % 0x40 ≡ b = omega arith in
      let r : w / 0x40 % 0x40 ≡ c = omega arith in
      let t : w % 0x40 ≡ d = omega arith in encode_four w (ground arith) (ground arith) ∙ cc

utf8_length_small : (w n : ℕ) → utf8_length w ≡ n → n < 5 → w < 0x200000
unfolding utf8_length
utf8_length_small w n e h = ground arith

utf8_length_large : (w n : ℕ) → utf8_length w ≡ n → 4 < n → 0x200000 ≤ w
unfolding utf8_length
utf8_length_large w n e h = ground arith

two-Outcome :
    (a w : ℕ) (s : Bytes)
    → IsCString s
    → a < 0x20
    → scan 1 0 s a ≡ value w
    → utf8_length w ≡ 2
    → Outcome ((0xc0 + a) ∷ s) w
two-Outcome a w s k h e l =
    let r = scan-Round 0 a s k (omega arith) e in
    let j : join a r.bits ≡ w = scan_end (join a r.bits) w r.behind r.goes_on in
    encoded r.behind (utf8_length_small w 2 l (omega arith))
      (rw (encode-eq_two w a r.bits r.small j l) (ap (λ t. (0xc0 + a) ∷ t) r.shape))

three-Outcome :
    (a w : ℕ) (s : Bytes)
    → IsCString s
    → a < 0x10
    → scan 2 0 s a ≡ value w
    → utf8_length w ≡ 3
    → Outcome ((0xe0 + a) ∷ s) w
three-Outcome a w s k h e l =
    let r = scan-Round 1 a s k (omega arith) e in
    let k' = (subst IsCString r.shape k).2 in
    let q = scan-Round 0 (join a r.bits) r.behind k' (omega (arith, r.small)) r.goes_on in
    let j : join (join a r.bits) q.bits ≡ w = scan_end _ w q.behind q.goes_on in
    encoded q.behind (utf8_length_small w 3 l (omega arith)) (
      rw (encode-eq_three w a r.bits q.bits r.small q.small j l)
        (ap (λ t. (0xe0 + a) ∷ t) (r.shape ∙ ap (λ t. (0x80 + r.bits) ∷ t) q.shape)))

four-Outcome :
    (a w : ℕ) (s : Bytes)
    → IsCString s
    → a < 0x8
    → scan 3 0 s a ≡ value w
    → utf8_length w ≡ 4
    → Outcome ((0xf0 + a) ∷ s) w
four-Outcome a w s k h e l =
    let r = scan-Round 2 a s k (omega arith) e in
    let k' = (subst IsCString r.shape k).2 in
    let q = scan-Round 1 (join a r.bits) r.behind k' (omega (arith, r.small)) r.goes_on in
    let k'' = (subst IsCString q.shape k').2 in
    let p =
      scan-Round 0 (join (join a r.bits) q.bits) q.behind k'' (omega (arith, r.small, q.small))
        q.goes_on in
    let j : join (join (join a r.bits) q.bits) p.bits ≡ w = scan_end _ w p.behind p.goes_on in
    encoded p.behind (utf8_length_small w 4 l (omega arith)) (
      rw (encode-eq_four w a r.bits q.bits p.bits r.small q.small p.small j l) (
        ap (λ t. (0xf0 + a) ∷ t)
          (r.shape
            ∙ ap (λ t. (0x80 + r.bits) ∷ t) (q.shape ∙ ap (λ t. (0x80 + q.bits) ∷ t) p.shape))))

module _ (x : ℕ) (s : Bytes) where
  -- No length exceeds the six bytes that are asked for.
  pub multibyte_six :
      (len wc : ℕ)
      → leb len 6 ≡ true
      → lead x ≡ some (len, wc)
      → multibyte (x ∷ s) (pos 6) (lead x) ≡ shortest len (scan (len - 1) 1 (x ∷ s) wc)
  unfolding multibyte
  multibyte_six len wc h e = rw e (ground arith)

  large-Outcome :
      (n wc B : ℕ)
      → IsCString s
      → 3 < n
      → wc < B
      → B * 64 ^ n ≤ 2 ^ 31
      → Outcome (x ∷ s) (shortest (suc n) (scan n 1 (x ∷ s) wc))
  large-Outcome n wc B k h b f = shortest-Outcome n wc x s (λ w e l.
      too_large (utf8_length_large w (suc n) l (omega arith)) (scan_bound n B wc s k b f e))

  multibyte-Outcome : IsCString s → Leads x → Outcome (x ∷ s) (multibyte (x ∷ s) (pos 6) (lead x))
  multibyte-Outcome k (refused e) = rw e (malformed (inl (unfold multibyte in refl)))
  multibyte-Outcome k (announces_two a h e) =
      rw (multibyte_six 2 a refl (ap lead e ∙ lead_two a h))
        (rw e (shortest-Outcome 1 a (0xc0 + a) s (λ w. two-Outcome a w s k h)))
  multibyte-Outcome k (announces_three a h e) =
      rw (multibyte_six 3 a refl (ap lead e ∙ lead_three a h))
        (rw e (shortest-Outcome 2 a (0xe0 + a) s (λ w. three-Outcome a w s k h)))
  multibyte-Outcome k (announces_four a h e) =
      rw (multibyte_six 4 a refl (ap lead e ∙ lead_four a h))
        (rw e (shortest-Outcome 3 a (0xf0 + a) s (λ w. four-Outcome a w s k h)))
  multibyte-Outcome k (announces_five a h e) =
      rw (multibyte_six 5 a refl (ap lead e ∙ lead_five a h))
        (large-Outcome 4 a 4 k (omega arith) h (omega arith))
  multibyte-Outcome k (announces_six a h e) =
      rw (multibyte_six 6 a refl (ap lead e ∙ lead_six a h))
        (large-Outcome 5 a 2 k (omega arith) h (omega arith))

pub extended-Outcome :
    (x : ℕ) (s : Bytes) → IsCString (x ∷ s) → Outcome (x ∷ s) (get_char_extended (x ∷ s) (pos 6))
unfolding get_char_extended
extended-Outcome x s k = elim (dec_lt x 0x80) [
  | yes p ↦ rw (lt→ltb x 0x80 p) (encoded s (omega arith) (rw (encode_one x p)))
  | no p ↦ rw (ge→ltb x 0x80 (omega arith)) (multibyte-Outcome x s k.2 (leads x (omega arith) k.1))
]

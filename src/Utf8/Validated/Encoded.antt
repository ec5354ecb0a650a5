-- ===== src/Utf8/Validated/Encoded.antt =====
-- `fcitx_utf8_get_char_extended` on the bytes of a character of at most four bytes.
use fcitx_ng.Prelude.{
  ℕ, ◌+◌, ◌/◌, ◌%◌, ◌<◌, ◌≡◌, refl, ap, ◌∙◌, ◌∷◌, ◌++◌, ge→ltb, arith, pos, dec_lt,
}
use fcitx_ng.Utf8.{Bytes, utf8_length}
use fcitx_ng.Utf8.RoundTrip.{join, encode, encode_one, encode_two, encode_three, encode_four}
use fcitx_ng.Utf8.Validated.{scan, shortest, get_char_extended}
use fcitx_ng.Utf8.Validated.Extended.{scan_tail, scan_step, lead_two, lead_three, lead_four}
use fcitx_ng.Utf8.Validated.Outcome.{multibyte_six}

extended_two :
    (a b : ℕ) (s : Bytes)
    → a < 0x20
    → b < 0x40
    → utf8_length (join a b) ≡ 2
    → get_char_extended ((0xc0 + a) ∷ (0x80 + b) ∷ s) (pos 6) ≡ join a b
unfolding get_char_extended shortest scan
extended_two a b s ha hb l = rw (ge→ltb (0xc0 + a) 0x80 (omega arith)) (
    multibyte_six (0xc0 + a) ((0x80 + b) ∷ s) 2 a refl (lead_two a ha)
    ∙ ap (shortest 2)
        (scan_tail 1 0 (0xc0 + a) a ((0x80 + b) ∷ s) ∙ scan_step 0 a b s (omega arith) hb)
    ∙ rw l)

extended_three :
    (a b c : ℕ) (s : Bytes)
    → a < 0x10
    → b < 0x40
    → c < 0x40
    → utf8_length (join (join a b) c) ≡ 3
    → get_char_extended ((0xe0 + a) ∷ (0x80 + b) ∷ (0x80 + c) ∷ s) (pos 6) ≡ join (join a b) c
unfolding get_char_extended shortest scan
extended_three a b c s ha hb hc l =
    let t = (0x80 + b) ∷ (0x80 + c) ∷ s in
    rw (ge→ltb (0xe0 + a) 0x80 (omega arith)) (
      multibyte_six (0xe0 + a) t 3 a refl (lead_three a ha)
      ∙ ap (shortest 3) (
          scan_tail 2 0 (0xe0 + a) a t
          ∙ scan_step 1 a b ((0x80 + c) ∷ s) (omega arith) hb
          ∙ scan_step 0 (join a b) c s (omega arith) hc)
      ∙ rw l)

extended_four :
    (a b c d : ℕ) (s : Bytes)
    → a < 0x8
    → b < 0x40
    → c < 0x40
    → d < 0x40
    → utf8_length (join (join (join a b) c) d) ≡ 4
    → get_char_extended ((0xf0 + a) ∷ (0x80 + b) ∷ (0x80 + c) ∷ (0x80 + d) ∷ s) (pos 6)
      ≡ join (join (join a b) c) d
unfolding get_char_extended shortest scan
extended_four a b c d s ha hb hc hd l =
    let t = (0x80 + b) ∷ (0x80 + c) ∷ (0x80 + d) ∷ s in
    rw (ge→ltb (0xf0 + a) 0x80 (omega arith)) (
      multibyte_six (0xf0 + a) t 4 a refl (lead_four a ha)
      ∙ ap (shortest 4) (
          scan_tail 3 0 (0xf0 + a) a t
          ∙ scan_step 2 a b ((0x80 + c) ∷ (0x80 + d) ∷ s) (omega arith) hb
          ∙ scan_step 1 (join a b) c ((0x80 + d) ∷ s) (omega arith) hc
          ∙ scan_step 0 (join (join a b) c) d s (omega arith) hd)
      ∙ rw l)

pub extended-encode :
    (c : ℕ) (s : Bytes) → c < 0x200000 → get_char_extended (encode c ++ s) (pos 6) ≡ c
unfolding get_char_extended utf8_length
extended-encode c s h = elim (dec_lt c 0x80) [
  | yes p ↦ rw (encode_one c p) (ground arith)
  | no p ↦ elim (dec_lt c 0x800) [
    | yes q ↦ rw (encode_two c (omega arith) q) (
        extended_two (c / 0x40) (c % 0x40) s (omega arith) (omega arith) (ground arith)
        ∙ omega arith)
    | no q ↦ elim (dec_lt c 0x10000) [
      | yes r ↦ rw (encode_three c (omega arith) r) (
          extended_three (c / 0x1000) (c / 0x40 % 0x40) (c % 0x40) s (omega arith) (omega arith)
            (omega arith) (ground arith)
          ∙ omega arith)
      | no r ↦ rw (encode_four c (omega arith) h) (
          extended_four (c / 0x40000) (c / 0x1000 % 0x40) (c / 0x40 % 0x40) (c % 0x40) s
            (omega arith) (omega arith) (omega arith) (omega arith) (ground arith)
          ∙ omega arith)
    ]
  ]
]

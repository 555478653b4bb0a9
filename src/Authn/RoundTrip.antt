-- ===== src/Authn/RoundTrip.antt =====
-- Decoding what base64 has encoded gives the bytes back.
use supermq.Common.{
  ℕ, ◌+◌, ◌*◌, ◌/◌, ◌%◌, ◌<◌, ◌≡◌, refl, ap, ◌∙◌, arith, false, Option, some, [], ◌∷◌, All,
  if◌then◌else◌, ◌==◌,
}
use supermq.Messaging.Bytes.{Bytes}
use supermq.Authn.Base64.{
  char_of, number_of, second, third, encode, is_break, without_breaks, one_byte, two_bytes,
  three_bytes, decode_groups, decode,
}
use supermq.Authn.Sextets.{
  number_of-char_of, is_break-char_of, not_padding, first_byte, second_byte, third_byte,
  first_below, second_below, third_below,
}

-- Every number is that of a byte.
abbrev pub AreBytes : Bytes → Type 0
AreBytes = All (λ b. b < 256)

keep :
    (c : ℕ) (s : Bytes) → is_break c ≡ false → without_breaks s ≡ s → without_breaks (c ∷ s) ≡ c ∷ s
unfolding without_breaks
keep c s h e = ap (λ b. if b then without_breaks s else c ∷ without_breaks s) h ∙ ap (λ r. c ∷ r) e

zero_byte : 0 < 256
zero_byte = omega arith

rest_below : (c : ℕ) → c % 64 < 64
rest_below c = omega arith

without_breaks-encode : (s : Bytes) → AreBytes s → without_breaks (encode s) ≡ encode s
unfolding encode without_breaks
without_breaks-encode [] h = refl
without_breaks-encode (a ∷ []) (x, _) =
    keep (char_of (a / 4)) (char_of (second a 0) ∷ b'=' ∷ b'=' ∷ [])
      (is_break-char_of (a / 4) (first_below a x))
      (keep (char_of (second a 0)) (b'=' ∷ b'=' ∷ [])
        (is_break-char_of (second a 0) (second_below a 0 zero_byte)) refl)
without_breaks-encode (a ∷ b ∷ []) (x, (y, _)) =
    keep (char_of (a / 4)) (char_of (second a b) ∷ char_of (third b 0) ∷ b'=' ∷ [])
      (is_break-char_of (a / 4) (first_below a x))
      (keep (char_of (second a b)) (char_of (third b 0) ∷ b'=' ∷ [])
        (is_break-char_of (second a b) (second_below a b y))
        (keep (char_of (third b 0)) (b'=' ∷ [])
          (is_break-char_of (third b 0) (third_below b 0 zero_byte)) refl))
without_breaks-encode (a ∷ b ∷ c ∷ s) (x, (y, (z, h))) =
    keep (char_of (a / 4))
      (char_of (second a b) ∷ char_of (third b c) ∷ char_of (c % 64) ∷ encode s)
      (is_break-char_of (a / 4) (first_below a x))
      (keep (char_of (second a b)) (char_of (third b c) ∷ char_of (c % 64) ∷ encode s)
        (is_break-char_of (second a b) (second_below a b y))
        (keep (char_of (third b c)) (char_of (c % 64) ∷ encode s)
          (is_break-char_of (third b c) (third_below b c z))
          (keep (char_of (c % 64)) (encode s) (is_break-char_of (c % 64) (rest_below c))
            (without_breaks-encode s h))))

-- A group without padding.
full_group :
    (a b c d : ℕ) (s : Bytes)
    → (d == b'=') ≡ false
    → decode_groups (a ∷ b ∷ c ∷ d ∷ s)
      ≡ three_bytes (number_of a) (number_of b) (number_of c) (number_of d) (decode_groups s)
unfolding decode_groups
full_group a b c d [] h =
    ap
      (λ t.
        if t
        then (if c == b'='
            then one_byte (number_of a) (number_of b)
            else two_bytes (number_of a) (number_of b) (number_of c))
        else three_bytes (number_of a) (number_of b) (number_of c) (number_of d) (some []))
      h
full_group a b c d (e ∷ s) h = refl

decode_groups-encode : (s : Bytes) → AreBytes s → decode_groups (encode s) ≡ some s
unfolding encode decode_groups
decode_groups-encode [] h = refl
decode_groups-encode (a ∷ []) (x, _) =
    ap (λ o. one_byte o (number_of (char_of (second a 0))))
      (number_of-char_of (a / 4) (first_below a x))
    ∙ ap (one_byte (some (a / 4))) (number_of-char_of (second a 0) (second_below a 0 zero_byte))
    ∙ ap (λ n. some (n ∷ [])) (first_byte a 0 zero_byte)
decode_groups-encode (a ∷ b ∷ []) (x, (y, _)) =
    ap
      (λ t.
        if t
        then one_byte (number_of (char_of (a / 4))) (number_of (char_of (second a b)))
        else two_bytes (number_of (char_of (a / 4))) (number_of (char_of (second a b)))
            (number_of (char_of (third b 0))))
      (not_padding (third b 0) (third_below b 0 zero_byte))
    ∙ ap (λ o. two_bytes o (number_of (char_of (second a b))) (number_of (char_of (third b 0))))
        (number_of-char_of (a / 4) (first_below a x))
    ∙ ap (λ o. two_bytes (some (a / 4)) o (number_of (char_of (third b 0))))
        (number_of-char_of (second a b) (second_below a b y))
    ∙ ap (two_bytes (some (a / 4)) (some (second a b)))
        (number_of-char_of (third b 0) (third_below b 0 zero_byte))
    ∙ ap (λ n. some (n ∷ (second a b % 16 * 16 + third b 0 / 4) ∷ [])) (first_byte a b y)
    ∙ ap (λ n. some (a ∷ n ∷ [])) (second_byte a b 0 y zero_byte)
decode_groups-encode (a ∷ b ∷ c ∷ s) (x, (y, (z, h))) =
    full_group (char_of (a / 4)) (char_of (second a b)) (char_of (third b c)) (char_of (c % 64))
      (encode s) (not_padding (c % 64) (rest_below c))
    ∙ ap
        (λ o.
          three_bytes o (number_of (char_of (second a b))) (number_of (char_of (third b c)))
            (number_of (char_of (c % 64))) (decode_groups (encode s)))
        (number_of-char_of (a / 4) (first_below a x))
    ∙ ap
        (λ o.
          three_bytes (some (a / 4)) o (number_of (char_of (third b c)))
            (number_of (char_of (c % 64))) (decode_groups (encode s)))
        (number_of-char_of (second a b) (second_below a b y))
    ∙ ap
        (λ o.
          three_bytes (some (a / 4)) (some (second a b)) o (number_of (char_of (c % 64)))
            (decode_groups (encode s)))
        (number_of-char_of (third b c) (third_below b c z))
    ∙ ap
        (λ o.
          three_bytes (some (a / 4)) (some (second a b)) (some (third b c)) o
            (decode_groups (encode s)))
        (number_of-char_of (c % 64) (rest_below c))
    ∙ ap (three_bytes (some (a / 4)) (some (second a b)) (some (third b c)) (some (c % 64)))
        (decode_groups-encode s h)
    ∙ bytes_back
  where
    bytes_back :
        ◌≡◌ {A = Option Bytes}
          (three_bytes
            (some (a / 4))
            (some (second a b))
            (some (third b c))
            (some (c % 64))
            (some s))
          (some (a ∷ b ∷ c ∷ s))
    bytes_back =
        ap
          (λ n.
            some (n ∷ (second a b % 16 * 16 + third b c / 4) ∷ (third b c % 4 * 64 + c % 64) ∷ s))
          (first_byte a b y)
        ∙ ap (λ n. some (a ∷ n ∷ (third b c % 4 * 64 + c % 64) ∷ s)) (second_byte a b c y z)
        ∙ ap (λ n. some (a ∷ b ∷ n ∷ s)) (third_byte b c z)

pub decode-encode : (s : Bytes) → AreBytes s → decode (encode s) ≡ some s
unfolding decode
decode-encode s h = ap decode_groups (without_breaks-encode s h) ∙ decode_groups-encode s h

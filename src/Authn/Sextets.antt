-- ===== src/Authn/Sextets.antt =====
-- Numbers below 64 and their characters in base64.
use supermq.Common.{ℕ, ◌+◌, ◌*◌, ◌/◌, ◌%◌, ◌<◌, ◌≡◌, arith, false, some, ◌==◌}
use supermq.Authn.Base64.{char_of, number_of, second, third, is_break}

pub number_of-char_of : (n : ℕ) → n < 64 → number_of (char_of n) ≡ some n
number_of-char_of n h = ground arith

pub is_break-char_of : (n : ℕ) → n < 64 → is_break (char_of n) ≡ false
is_break-char_of n h = ground arith

pub not_padding : (n : ℕ) → n < 64 → (char_of n == b'=') ≡ false
not_padding n h = ground arith

pub first_byte : (a b : ℕ) → b < 256 → a / 4 * 4 + second a b / 16 ≡ a
first_byte a b h = omega arith

pub second_byte : (a b c : ℕ) → b < 256 → c < 256 → second a b % 16 * 16 + third b c / 4 ≡ b
second_byte a b c h k = omega arith

pub third_byte : (b c : ℕ) → c < 256 → third b c % 4 * 64 + c % 64 ≡ c
third_byte b c h = omega arith

pub first_below : (a : ℕ) → a < 256 → a / 4 < 64
first_below a h = omega arith

pub second_below : (a b : ℕ) → b < 256 → second a b < 64
second_below a b h = omega arith

pub third_below : (b c : ℕ) → c < 256 → third b c < 64
third_below b c h = omega arith

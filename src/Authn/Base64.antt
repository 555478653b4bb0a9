-- ===== src/Authn/Base64.antt =====
-- base64.StdEncoding, which pkg/authn/authn.go calls, on bytes.
use supermq.Common.{
  ℕ, ◌+◌, ◌-◌, ◌*◌, ◌/◌, ◌%◌, Bool, ◌&&◌, ◌||◌, Option, none, some, [], ◌∷◌, ltb, leb, ◌==◌,
  if◌then◌else◌,
}
use supermq.Messaging.Bytes.{Bytes}

-- The character of a number below 64.
abbrev pub char_of : ℕ → ℕ
char_of n =
    if ltb n 26
    then n + 65
    else if ltb n 52
    then n + 71
    else if ltb n 62
    then n - 4
    else if n == 62
    then 43
    else 47

abbrev pub in_range : ℕ → ℕ → ℕ → Bool
in_range a b c = leb a c && leb c b

-- The number of a character.
abbrev pub number_of : ℕ → Option ℕ
number_of c =
    if in_range 65 90 c
    then some (c - 65)
    else if in_range 97 122 c
    then some (c - 71)
    else if in_range 48 57 c
    then some (c + 4)
    else if c == 43
    then some 62
    else if c == 47
    then some 63
    else none

abbrev pub second : ℕ → ℕ → ℕ
second a b = a % 4 * 16 + b / 16

abbrev pub third : ℕ → ℕ → ℕ
third b c = b % 16 * 4 + c / 64

-- EncodeToString
unfoldable pub encode : Bytes → Bytes
encode [] = []
encode (a ∷ []) = char_of (a / 4) ∷ char_of (second a 0) ∷ b'=' ∷ b'=' ∷ []
encode (a ∷ b ∷ []) = char_of (a / 4) ∷ char_of (second a b) ∷ char_of (third b 0) ∷ b'=' ∷ []
encode (a ∷ b ∷ c ∷ s) =
    char_of (a / 4) ∷ char_of (second a b) ∷ char_of (third b c) ∷ char_of (c % 64) ∷ encode s

-- The decoder skips line breaks wherever they stand.
abbrev pub is_break : ℕ → Bool
is_break c = c == 0x0a || c == 0x0d

unfoldable pub without_breaks : Bytes → Bytes
without_breaks [] = []
without_breaks (c ∷ s) = let rest = without_breaks s in if is_break c then rest else c ∷ rest

-- The bytes of the numbers of a group.
abbrev pub one_byte : Option ℕ → Option ℕ → Option Bytes
one_byte (some m) (some n) = some ((m * 4 + n / 16) ∷ [])
one_byte _ _ = none

abbrev pub two_bytes : Option ℕ → Option ℕ → Option ℕ → Option Bytes
two_bytes (some m) (some n) (some k) = some ((m * 4 + n / 16) ∷ (n % 16 * 16 + k / 4) ∷ [])
two_bytes _ _ _ = none

-- A group of four, and the bytes of those that follow.
abbrev pub three_bytes : Option ℕ → Option ℕ → Option ℕ → Option ℕ → Option Bytes → Option Bytes
three_bytes (some m) (some n) (some k) (some l) (some s) =
    some ((m * 4 + n / 16) ∷ (n % 16 * 16 + k / 4) ∷ (k % 4 * 64 + l) ∷ s)
three_bytes _ _ _ _ _ = none

-- The last group, whose last characters may be padding; the bits that are left over are ignored.
abbrev pub last_group : ℕ → ℕ → ℕ → ℕ → Option Bytes
last_group a b c d =
    if d == b'='
    then if c == b'='
      then one_byte (number_of a) (number_of b)
      else two_bytes (number_of a) (number_of b) (number_of c)
    else three_bytes (number_of a) (number_of b) (number_of c) (number_of d) (some [])

unfoldable pub decode_groups : Bytes → Option Bytes
decode_groups [] = some []
decode_groups (a ∷ b ∷ c ∷ d ∷ []) = last_group a b c d
decode_groups (a ∷ b ∷ c ∷ d ∷ e ∷ s) =
    three_bytes (number_of a) (number_of b) (number_of c) (number_of d) (decode_groups (e ∷ s))
decode_groups _ = none

-- DecodeString
unfoldable pub decode : Bytes → Option Bytes
unfolding decode_groups without_breaks
decode s = decode_groups (without_breaks s)

-- ===== src/Messaging/Bytes.antt =====
-- Go strings as lists of bytes, and the functions of `strings` that topics.go calls on them.
use supermq.Common.{
  ℕ, zero, suc, Option, none, some, length, Bool, true, false, ◌&&◌, ◌||◌, List, [], ◌∷◌, map,
  reverse, ◌==◌, if◌then◌else◌, ◌≢◌, All,
}

abbrev pub Bytes : Type 0
Bytes = List ℕ

abbrev pub is_empty : Bytes → Bool
is_empty [] = true
is_empty (c ∷ s) = false

-- s == t
unfoldable pub eq_bytes : Bytes → Bytes → Bool
eq_bytes [] [] = true
eq_bytes (a ∷ s) (b ∷ t) = a == b && eq_bytes s t
eq_bytes _ _ = false

-- `c` occurs in `s`: a loop over the bytes, or `strings.ContainsAny` with one character.
unfoldable pub has_byte : ℕ → Bytes → Bool
has_byte c [] = false
has_byte c (b ∷ s) = b == c || has_byte c s

-- strings.ContainsAny(s, chars), for ASCII `chars`
unfoldable pub contains_any : Bytes → Bytes → Bool
unfolding has_byte
contains_any [] chars = false
contains_any (b ∷ s) chars = has_byte b chars || contains_any s chars

-- strings.Contains(s, "..")
unfoldable pub has_dots : Bytes → Bool
has_dots (a ∷ b ∷ s) = (a == b'.' && b == b'.') || has_dots (b ∷ s)
has_dots _ = false

abbrev pub push_head : ℕ → List Bytes → List Bytes
push_head b [] = (b ∷ []) ∷ []
push_head b (e ∷ es) = (b ∷ e) ∷ es

-- strings.Split(s, string(sep))
unfoldable pub split : ℕ → Bytes → List Bytes
split sep [] = [] ∷ []
split sep (b ∷ s) = let rest = split sep s in if b == sep then [] ∷ rest else push_head b rest

-- strings.TrimPrefix(s, string(c))
abbrev pub trim_prefix : ℕ → Bytes → Bytes
trim_prefix c [] = []
trim_prefix c (b ∷ s) = if b == c then s else b ∷ s

-- strings.TrimSuffix(s, string(c))
abbrev pub trim_suffix : ℕ → Bytes → Bytes
trim_suffix c s = reverse (trim_prefix c (reverse s))

-- A one-byte replacement of strings.NewReplacer, at one byte.
abbrev pub replace_byte : ℕ → ℕ → ℕ → ℕ
replace_byte from to b = if b == from then to else b

abbrev pub Lacks : ℕ → Bytes → Type 0
Lacks c = All (λ b. b ≢ c)

-- The characters of `unicode.IsSpace` in UTF-8, and their bytes from the end.
abbrev pub spaces : List Bytes
spaces =
    (0x20 ∷ [])
    ∷ (0x09 ∷ [])
    ∷ (0x0a ∷ [])
    ∷ (0x0b ∷ [])
    ∷ (0x0c ∷ [])
    ∷ (0x0d ∷ [])
    ∷ (0xc2 ∷ 0x85 ∷ [])
    ∷ (0xc2 ∷ 0xa0 ∷ [])
    ∷ (0xe1 ∷ 0x9a ∷ 0x80 ∷ [])
    ∷ (0xe2 ∷ 0x80 ∷ 0x80 ∷ [])
    ∷ (0xe2 ∷ 0x80 ∷ 0x81 ∷ [])
    ∷ (0xe2 ∷ 0x80 ∷ 0x82 ∷ [])
    ∷ (0xe2 ∷ 0x80 ∷ 0x83 ∷ [])
    ∷ (0xe2 ∷ 0x80 ∷ 0x84 ∷ [])
    ∷ (0xe2 ∷ 0x80 ∷ 0x85 ∷ [])
    ∷ (0xe2 ∷ 0x80 ∷ 0x86 ∷ [])
    ∷ (0xe2 ∷ 0x80 ∷ 0x87 ∷ [])
    ∷ (0xe2 ∷ 0x80 ∷ 0x88 ∷ [])
    ∷ (0xe2 ∷ 0x80 ∷ 0x89 ∷ [])
    ∷ (0xe2 ∷ 0x80 ∷ 0x8a ∷ [])
    ∷ (0xe2 ∷ 0x80 ∷ 0xa8 ∷ [])
    ∷ (0xe2 ∷ 0x80 ∷ 0xa9 ∷ [])
    ∷ (0xe2 ∷ 0x80 ∷ 0xaf ∷ [])
    ∷ (0xe2 ∷ 0x81 ∷ 0x9f ∷ [])
    ∷ (0xe3 ∷ 0x80 ∷ 0x80 ∷ [])
    ∷ []

-- One of `pats` is a prefix of the text: what follows the first of them that is.
unfoldable pub strip_one : Bytes → Bytes → Option Bytes
strip_one [] s = some s
strip_one (p ∷ ps) [] = none
strip_one (p ∷ ps) (b ∷ s) = if b == p then strip_one ps s else none

unfoldable pub strip_any : List Bytes → Bytes → Option Bytes
unfolding strip_one
strip_any [] s = none
strip_any (p ∷ ps) s = elim (strip_one p s) [ some r ↦ some r | none ↦ strip_any ps s ]

-- `pats` are stripped as long as one fits; each takes a byte at least, so the length of the text
-- is fuel enough.
unfoldable pub strip_all : ℕ → List Bytes → Bytes → Bytes
unfolding strip_any
strip_all zero pats s = s
strip_all (suc n) pats s = elim (strip_any pats s) [ some r ↦ strip_all n pats r | none ↦ s ]

unfoldable pub trim_left : List Bytes → Bytes → Bytes
unfolding strip_all
trim_left pats s = strip_all (length s) pats s

-- strings.TrimSpace
unfoldable pub trim_space : Bytes → Bytes
unfolding trim_left
trim_space s = reverse (trim_left (map reverse spaces) (reverse (trim_left spaces s)))

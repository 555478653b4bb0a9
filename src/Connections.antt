-- ===== src/Connections.antt =====
-- The types of connections, pkg/connections/conntypes.go: numbers of 8 bits.
use Prim.Native.String.{◌++◌ as join}
use supermq.Common.{ℕ, ◌%◌, ◌/◌, ◌≡◌, ◌⊎◌, ◌↔◌, String, arith, ltb, if◌then◌else◌, ◌==◌, ==_iff}
use supermq.Errors.{foreign, Result, ok, err, ◌>>=◌}

abbrev pub publish_type : ℕ
publish_type = 1

abbrev pub subscribe_type : ℕ
subscribe_type = 2

abbrev digit : ℕ → String
digit n =
    if n == 0
    then "0"
    else if n == 1
    then "1"
    else if n == 2
    then "2"
    else if n == 3
    then "3"
    else if n == 4
    then "4"
    else if n == 5
    then "5"
    else if n == 6
    then "6"
    else if n == 7
    then "7"
    else if n == 8
    then "8"
    else "9"

-- `%d` of a number of 8 bits, which has at most three digits.
unfoldable pub decimal : ℕ → String
decimal n =
    if ltb n 10
    then digit n
    else if ltb n 100
    then join (digit (n / 10)) (digit (n % 10))
    else join (digit (n / 100)) (join (digit (n / 10 % 10)) (digit (n % 10)))

abbrev pub unknown_text : ℕ → String
unknown_text c = join "Unknown connection type " (decimal c)

-- CheckConnType
unfoldable pub check_conn_type : ℕ → Result (Unit {0})
check_conn_type c =
    if c == publish_type
    then ok tt
    else if c == subscribe_type
    then ok tt
    else err (foreign (unknown_text c))

-- `String()`
unfoldable pub conn_type_text : ℕ → String
unfolding decimal
conn_type_text c =
    if c == publish_type
    then "Publish"
    else if c == subscribe_type
    then "Subscribe"
    else unknown_text c

-- `Permission()`
unfoldable pub conn_permission : ℕ → Result String
unfolding decimal
conn_permission c =
    if c == publish_type
    then ok "publish_permission"
    else if c == subscribe_type
    then ok "subscribe_permission"
    else err (foreign (unknown_text c))

-- `ConnType(c)` of an unsigned number
abbrev pub to_conn_type : ℕ → ℕ
to_conn_type c = c % 256

-- NewType
unfoldable pub new_type : ℕ → Result ℕ
unfolding check_conn_type
new_type c = check_conn_type (to_conn_type c) >>= λ _. ok (to_conn_type c)

new_type_if :
    (c t : ℕ)
    → (((check_conn_type c >>= λ _. ok c) ≡ ok t)
        ↔ ((c ≡ t) × ((t ≡ publish_type) ⊎ (t ≡ subscribe_type))))
unfolding check_conn_type
new_type_if c t = ground (arith, ==_iff c publish_type, ==_iff c subscribe_type)

-- NewType accepts exactly the numbers that are Publish or Subscribe in their lowest 8 bits, and
-- returns that type.
pub new_type_iff :
    (c t : ℕ) → (new_type c ≡ ok t) ↔ ((c % 256 ≡ t) × ((t ≡ publish_type) ⊎ (t ≡ subscribe_type)))
unfolding new_type
new_type_iff c t = new_type_if (c % 256) t

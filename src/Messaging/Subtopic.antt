-- ===== src/Messaging/Subtopic.antt =====
-- The subtopics of pkg/messaging/topics.go: decoding, trimming and the rules for publishing and
-- for subscribing. `url.QueryUnescape` and `strings.TrimSpace` are the standard library's.
pub mod Space
pub mod Laws
pub mod Agree
pub mod RoundTrip
pub mod Parts
use supermq.Common.{
  ℕ, ◌+◌, ◌-◌, ◌*◌, Bool, false, ◌&&◌, ◌||◌, none, List, [], ◌∷◌, ◌++◌, map, ◌==◌, ltb, leb,
  if◌then◌else◌, length,
}
use supermq.Errors.{Err, foreign, new, Result, ok, err, ◌>>=◌, wrapping}
use supermq.Messaging.Bytes.{
  Bytes, is_empty, contains_any, has_dots, split, trim_prefix, trim_suffix, replace_byte,
  trim_space,
}
use supermq.Messaging.Topic.{Topic, malformed_topic, parse_topic}

abbrev pub malformed_subtopic : Err
malformed_subtopic = new none "malformed subtopic"

-- "+#"
abbrev pub mq_wildcards : Bytes
mq_wildcards = b'+' ∷ b'#' ∷ []

-- "*>"
abbrev pub wildcards : Bytes
wildcards = b'*' ∷ b'>' ∷ []

-- " #+"
abbrev pub subtopic_invalid_chars : Bytes
subtopic_invalid_chars = b' ' ∷ b'#' ∷ b'+' ∷ []

-- wildcardsReplacer
abbrev pub replace_wildcard : ℕ → ℕ
replace_wildcard b = if b == b'+' then b'*' else if b == b'#' then b'>' else b

-- `ishex` and `unhex` of net/url
abbrev pub is_hex : ℕ → Bool
is_hex c = (leb b'0' c && leb c b'9') || ((leb b'a' c && leb c b'f') || (leb b'A' c && leb c b'F'))

abbrev pub unhex : ℕ → ℕ
unhex c = if leb c b'9' then c - b'0' else if leb c b'F' then (c - b'A') + 10 else (c - b'a') + 10

-- `url.EscapeError`; the offending characters that its text quotes are left out.
abbrev pub escape_error : Err
escape_error = foreign "invalid URL escape"

abbrev pub prepend : ℕ → Result Bytes → Result Bytes
prepend b (ok s) = ok (b ∷ s)
prepend b (err e) = err e

-- url.QueryUnescape
unfoldable pub query_unescape : Bytes → Result Bytes
query_unescape [] = ok []
query_unescape (a ∷ []) =
    if a == b'%' then err escape_error else ok ((if a == b'+' then b' ' else a) ∷ [])
query_unescape (a ∷ x ∷ []) =
    let rest = query_unescape (x ∷ []) in
    if a == b'%' then err escape_error else prepend (if a == b'+' then b' ' else a) rest
query_unescape (a ∷ x ∷ y ∷ s) =
    let decoded = query_unescape s in
    let rest = query_unescape (x ∷ y ∷ s) in
    if a == b'%'
    then (if is_hex x && is_hex y
        then prepend (unhex x * 16 + unhex y) decoded
        else err escape_error)
    else prepend (if a == b'+' then b' ' else a) rest

-- What formatSubtopic does once the subtopic is decoded.
unfoldable pub trim_subtopic : Bytes → Bytes
trim_subtopic s = map (replace_byte b'/' b'.') (trim_space (trim_suffix b'/' (trim_prefix b'/' s)))

-- formatSubtopic
unfoldable pub format_subtopic : Bytes → Result Bytes
unfolding query_unescape trim_subtopic trim_space
format_subtopic s = query_unescape s >>= λ d. ok (trim_subtopic d)

-- ParsePublishSubtopic from the first test of the formatted subtopic on.
unfoldable pub check_publish : Bytes → Result Bytes
unfolding contains_any has_dots
check_publish s =
    if contains_any s (subtopic_invalid_chars ++ wildcards)
    then err malformed_subtopic
    else if has_dots s
    then err malformed_subtopic
    else ok s

-- ParsePublishSubtopic
unfoldable pub parse_publish_subtopic : Bytes → Result Bytes
unfolding format_subtopic check_publish
parse_publish_subtopic s =
    if is_empty s
    then ok s
    else (wrapping malformed_subtopic (format_subtopic s) >>= λ t. check_publish t)

-- The loop over the levels in ParseSubscribeSubtopic: a wildcard shares its level with nothing.
unfoldable pub bad_level : List Bytes → Bool
bad_level [] = false
bad_level (e ∷ es) = (ltb 1 (length e) && contains_any e wildcards) || bad_level es

-- ParseSubscribeSubtopic from the first test of the formatted subtopic on.
unfoldable pub check_subscribe : Bytes → Result Bytes
unfolding contains_any has_dots split bad_level
check_subscribe s =
    if contains_any s subtopic_invalid_chars
    then err malformed_subtopic
    else if has_dots s
    then err malformed_subtopic
    else if bad_level (split b'.' s)
    then err malformed_subtopic
    else ok s

-- The rewriting of MQTT wildcards, before the subtopic is decoded.
unfoldable pub rewrite_wildcards : Bytes → Bytes
rewrite_wildcards s = if contains_any s mq_wildcards then map replace_wildcard s else s

-- ParseSubscribeSubtopic
unfoldable pub parse_subscribe_subtopic : Bytes → Result Bytes
unfolding format_subtopic check_subscribe rewrite_wildcards
parse_subscribe_subtopic s =
    if is_empty s
    then ok []
    else (wrapping malformed_subtopic (format_subtopic (rewrite_wildcards s)) >>= λ t.
        check_subscribe t)

-- The part that ParsePublishTopic and ParseSubscribeTopic share: the topic, then its subtopic.
abbrev pub with_subtopic : (Bytes → Result Bytes) → Topic → Result Topic
with_subtopic sub p =
    wrapping malformed_topic (sub p.subtopic) >>= λ s. ok (record p { subtopic = s })

-- ParsePublishTopic
unfoldable pub parse_publish_topic : Bytes → Result Topic
unfolding parse_topic parse_publish_subtopic
parse_publish_topic t = parse_topic t >>= with_subtopic parse_publish_subtopic

-- ParseSubscribeTopic
unfoldable pub parse_subscribe_topic : Bytes → Result Topic
unfolding parse_topic parse_subscribe_subtopic
parse_subscribe_topic t = parse_topic t >>= with_subtopic parse_subscribe_subtopic

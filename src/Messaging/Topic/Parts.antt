-- ===== src/Messaging/Topic/Parts.antt =====
-- The branches of ParseTopic against the grammar.
use supermq.Common.{
  ℕ, zero, suc, ◌≡◌, ◌≢◌, ◌↔◌, refl, sym, ap, ◌∙◌, false, ◌&&◌, some, [], ◌∷◌, ◌++◌, inl, inr,
  arith, ◌==◌, length, take, drop, Bool-cases, Option-cases, length-append, take-length_append,
  drop-length_append, ltb,
}
use mathlib.Core.Path.{subst}
use mathlib.Core.List.{append_assoc}
use supermq.Errors.{ok}
use supermq.Messaging.Bytes.{Bytes, Lacks, has_byte, is_empty}
use supermq.Messaging.Topic.{
  Topic, message_path, message_topic, health_topic, marker, find_marker, find_slash, parse_health,
  parse_channel, parse_body, parse_message,
}
use supermq.Messaging.Topic.Find.{
  LacksMarker, half_marker, find_slash-append, find_slash-Lacks, find_slash-none, find_slash-some,
  find_marker-append, find_marker-some,
}
use supermq.Messaging.Topic.Grammar.{IsMessage, IsHealth}

pub has_byte_iff : (c : ℕ) (s : Bytes) → (has_byte c s ≡ false) ↔ Lacks c s
unfolding has_byte
has_byte_iff c [] = (λ _. tt, λ _. refl)
has_byte_iff c (b ∷ s) = ground (arith, has_byte_iff c s)

pub is_empty_iff : (s : Bytes) → (is_empty s ≡ false) ↔ (s ≢ [])
is_empty_iff [] = ground arith
is_empty_iff (b ∷ s) = ground arith

-- What follows "m/" in a message topic.
abbrev pub body_of : Bytes → Bytes → Bytes
body_of d rest = d ++ (marker ++ rest)

pub message_path-append :
    (d c s : Bytes) → message_path d c ++ b'/' ∷ s ≡ b'm' ∷ b'/' ∷ body_of d (c ++ b'/' ∷ s)
message_path-append d c s = simp append_assoc

parse_channel_sound :
    (d rest : Bytes) (p : Topic)
    → parse_channel d rest ≡ ok p
    → d ≢ []
    → LacksMarker (d ++ half_marker)
    → IsMessage (b'm' ∷ b'/' ∷ body_of d rest) p
unfolding parse_channel
parse_channel_sound d rest p h ne lacks = elim (Option-cases (find_slash rest)) [
  | inl e ↦
      let q : (is_empty rest ≡ false) × (message_topic d rest [] ≡ p) = ground arith in
      subst (IsMessage (b'm' ∷ b'/' ∷ body_of d rest)) q.1 (record {
        split = record {
          domain_ne = ne;
          channel_ne = (is_empty_iff rest).0 q.0;
          domain_lacks = lacks;
          channel_lacks = find_slash-none rest e;
        };
        is_message = refl;
        layout = inl (refl, refl);
      })
  | inr (i, e) ↦
      let q : (is_empty (take i rest) ≡ false)
          × (message_topic d (take i rest) (drop 1 (drop i rest)) ≡ p) =
        ground arith in
      let (lack, same) = find_slash-some rest i e in
      subst (IsMessage (b'm' ∷ b'/' ∷ body_of d rest)) q.1 (record {
        split = record {
          domain_ne = ne;
          channel_ne = (is_empty_iff (take i rest)).0 q.0;
          domain_lacks = lacks;
          channel_lacks = lack;
        };
        is_message = refl;
        layout = inr (
            ap (λ r. b'm' ∷ b'/' ∷ body_of d r) same
            ∙ sym (message_path-append d (take i rest) (drop 1 (drop i rest))));
      })
]

pub parse_channel_complete :
    (d c : Bytes) → c ≢ [] → Lacks b'/' c → parse_channel d c ≡ ok (message_topic d c [])
unfolding parse_channel
parse_channel_complete d c ne h =
    rw ((is_empty_iff c).1 ne, find_slash-Lacks c h, (is_empty_iff c).1 ne)

pub parse_channel_complete_sub :
    (d c s : Bytes)
    → c ≢ []
    → Lacks b'/' c
    → parse_channel d (c ++ b'/' ∷ s) ≡ ok (message_topic d c s)
unfolding parse_channel
parse_channel_complete_sub d [] s ne h = absurd (ne refl)
parse_channel_complete_sub d (b ∷ c) s ne h =
    rw (find_slash-append (b ∷ c) s h)
      (rw (take-length_append c (b'/' ∷ s), drop-length_append c (b'/' ∷ s)))

take-ne_nil : (s : Bytes) (k : ℕ) → find_marker s ≡ some (suc k) → take (suc k) s ≢ []
unfolding find_marker
take-ne_nil [] k e = cc
take-ne_nil (b ∷ s) k e = λ q. cc

parse_body_sound :
    (body : Bytes) (p : Topic) → parse_body (some body) ≡ ok p → IsMessage (b'm' ∷ b'/' ∷ body) p
parse_body_sound body p h = elim (Option-cases (find_marker body)) [
  | inl e ↦ ground arith
  | inr (zero, e) ↦ ground arith
  | inr (suc k, e) ↦
      let (lacks, same) = find_marker-some body (suc k) e in
      subst (λ b. IsMessage (b'm' ∷ b'/' ∷ b) p) (sym same)
        (parse_channel_sound (take (suc k) body) (drop 3 (drop (suc k) body)) p (rw e at h)
          (take-ne_nil body k e) lacks)
]

parse_body_complete :
    (d rest : Bytes)
    → d ≢ []
    → LacksMarker (d ++ half_marker)
    → parse_body (some (body_of d rest)) ≡ parse_channel d rest
parse_body_complete [] rest ne h = absurd (ne refl)
parse_body_complete (b ∷ d) rest ne h =
    rw (find_marker-append (b ∷ d) rest h)
      (rw (take-length_append d (marker ++ rest), drop-length_append d (marker ++ rest)))

message_length : (d rest : Bytes) → d ≢ [] → ltb (length (b'm' ∷ b'/' ∷ body_of d rest)) 5 ≡ false
message_length [] rest ne = absurd (ne refl)
message_length (b ∷ d) rest ne = grind (arith, length-append d (marker ++ rest))

pub parse_message_sound : (t : Bytes) (p : Topic) → parse_message t ≡ ok p → IsMessage t p
unfolding parse_message
parse_message_sound (a ∷ b ∷ body) p h = elim (Bool-cases (a == b'm' && b == b'/')) [
  | inl e ↦
      let q : (a ≡ b'm') × (b ≡ b'/') × (parse_body (some body) ≡ ok p) = ground arith in
      rw (q.0, q.1) (parse_body_sound body p q.2)
  | inr e ↦ ground arith
]
parse_message_sound _ p h = ground arith

pub parse_message_complete :
    (d rest : Bytes)
    → d ≢ []
    → LacksMarker (d ++ half_marker)
    → parse_message (b'm' ∷ b'/' ∷ body_of d rest) ≡ parse_channel d rest
unfolding parse_message
parse_message_complete d rest ne h = rw (message_length d rest ne) (parse_body_complete d rest ne h)

pub parse_health_sound :
    (x : ℕ) (d : Bytes) (p : Topic)
    → d ≢ []
    → parse_health d ≡ ok p
    → IsHealth (b'h' ∷ b'c' ∷ x ∷ d) p
unfolding parse_health
parse_health_sound x d p ne h =
    let q : (has_byte b'/' d ≡ false) × (health_topic d ≡ p) = ground arith in
    subst (IsHealth (b'h' ∷ b'c' ∷ x ∷ d)) q.1 (record {
      separator = x;
      domain_ne = ne;
      domain_lacks = (has_byte_iff b'/' d).0 q.0;
      is_health = refl;
      layout = refl;
    })

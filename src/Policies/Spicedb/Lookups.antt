-- ===== src/Policies/Spicedb/Lookups.antt =====
-- The lookups of pkg/policies/spicedb/service.go: one page, all pages, counting, and permissions.
use text.Mathlib.Text.{◌==◌}
use supermq.Common.{
  ℕ, zero, suc, ◌+◌, ◌%◌, ◌^◌, String, ◌||◌, ltb, length, Option, none, some, List, [], ◌∷◌, ◌++◌,
  map, if◌then◌else◌, ◌==◌ as equal,
}
use supermq.Errors.{Err, nil, new, wrap, Result, ok, err, ◌>>=◌}
use supermq.Policies.{Policy, no_policy}
use supermq.Policies.Spicedb.{CallError, or_handled, handle_spicedb_error}
use supermq.Policies.Spicedb.Data.{Check, Found, Stream, SpiceDb}
use supermq.Policies.Spicedb.Preconditions.{check_of}

abbrev pub retrieve_failed : Err
retrieve_failed = new none "failed to retrieve policies"

abbrev pub retrieve_all_limit : ℕ
retrieve_all_limit = 1000

abbrev pub default_limit : ℕ
default_limit = 100

-- `uint32(limit)`
abbrev pub to_uint32 : ℕ → ℕ
to_uint32 n = n % 2 ^ 32

abbrev pub to_uint64 : ℕ → ℕ
to_uint64 n = n % 2 ^ 64

-- What a retrieval returns: the policies, and the token of the next page.
pub record Page : Type 0 where
  pub policies : List Policy
  pub token : String

-- PolicyPage
pub record PolicyPage : Type 0 where
  pub ids : List String
  pub next_page_token : String

abbrev pub to_object : Found → Policy
to_object f = record no_policy { object = f.id }

abbrev pub to_subject : Found → Policy
to_subject f = record no_policy { subject = f.id }

abbrev pub cursor_text : Option String → String
cursor_text none = ""
cursor_text (some t) = t

-- The cursor after the last answer, if there is one.
unfoldable pub last_token : List Found → String
last_token [] = ""
last_token (f ∷ []) = cursor_text f.cursor
last_token (f ∷ g ∷ gs) = last_token (g ∷ gs)

-- The policies and the token, or the error that ended the stream.
abbrev pub page_if : (Found → Policy) → List Found → Option CallError → Result Page
page_if to_policy items none =
    ok (record { policies = map to_policy items; token = last_token items })
page_if to_policy items (some e) = err (wrap retrieve_failed (handle_spicedb_error e))

-- The end of retrieveObjects and retrieveSubjects, once the stream has ended.
unfoldable pub page_of : (Found → Policy) → Stream → Result Page
page_of to_policy s = page_if to_policy s.items s.failure

-- The end of retrieveAllObjects.
abbrev pub all_of : Stream → Result (List Policy)
all_of s = elim s.failure [
  | none ↦ ok (map to_object s.items)
  | some e ↦ err (wrap retrieve_failed (handle_spicedb_error e))
]

-- What CountObjects and CountSubjects return: the count so far also with an error.
pub record Counted : Type 0 where
  pub count : ℕ
  pub error : Err

-- The loop of CountObjects and CountSubjects over a retrieval; none when the fuel is used up.
unfoldable pub count_from : ℕ → (String → Result Page) → ℕ → String → Option Counted
count_from zero retrieve count token = none
count_from (suc fuel) retrieve count token = elim (retrieve token) [
  | err e ↦ some (record { count = count; error = e })
  | ok page ↦
      let total = to_uint64 (count + to_uint64 (length page.policies)) in
      let rest = count_from fuel retrieve total page.token in
      if page.token == "" then some (record { count = total; error = nil }) else rest
]

-- The loop of retrieveAllSubjects.
unfoldable pub all_from :
    ℕ → (String → Result Page) → List Policy → String → Option (Result (List Policy))
all_from zero retrieve tuples token = none
all_from (suc fuel) retrieve tuples token = elim (retrieve token) [
  | err e ↦ some (err e)
  | ok page ↦
      let total = tuples ++ page.policies in
      let rest = all_from fuel retrieve total page.token in
      if page.token == "" || ltb (length total) retrieve_all_limit then some (ok total) else rest
]

abbrev pub or_default : ℕ → ℕ
or_default limit = if equal limit 0 then default_limit else limit

abbrev pub objects_page : Page → PolicyPage
objects_page p = record {
  ids = map (λ (t : Policy). t.object) p.policies;
  next_page_token = p.token;
}

abbrev pub subjects_page : Page → PolicyPage
subjects_page p = record {
  ids = map (λ (t : Policy). t.subject) p.policies;
  next_page_token = p.token;
}

-- The requests name no object, or no subject, besides what is looked up.
abbrev pub objects_check : Policy → Check
objects_check pr = record (check_of pr) { resource = "" }

abbrev pub subjects_check : Policy → Check
subjects_check pr = record (check_of pr) { subject = "" }

module _ {W : Type 0} (db : SpiceDb W) where
  -- retrieveObjects
  unfoldable pub retrieve_objects : Policy → String → ℕ → W → Result Page
  unfolding page_of
  retrieve_objects pr token limit w =
      or_handled retrieve_failed (db.lookup_resources (objects_check pr) token (to_uint32 limit) w)
      >>= page_of to_object

  -- retrieveSubjects
  unfoldable pub retrieve_subjects : Policy → String → ℕ → W → Result Page
  unfolding page_of
  retrieve_subjects pr token limit w =
      or_handled retrieve_failed (db.lookup_subjects (subjects_check pr) token (to_uint32 limit) w)
      >>= page_of to_subject

  -- retrieveAllObjects: one stream without a limit.
  unfoldable pub retrieve_all_objects : Policy → W → Result (List Policy)
  retrieve_all_objects pr w =
      or_handled retrieve_failed (db.lookup_resources (objects_check pr) "" 0 w) >>= all_of

  -- retrieveAllSubjects
  unfoldable pub retrieve_all_subjects : ℕ → Policy → W → Option (Result (List Policy))
  unfolding all_from
  retrieve_all_subjects fuel pr w =
      all_from fuel (λ token. retrieve_subjects pr token retrieve_all_limit w) [] ""

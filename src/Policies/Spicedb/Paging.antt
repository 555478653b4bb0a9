-- ===== src/Policies/Spicedb/Paging.antt =====
-- What the loops over pages in pkg/policies/spicedb/service.go count and list, and how many answers
-- a page has.
use text.Mathlib.Text.{◌==◌}
use mathlib.Core.Option
use mathlib.Core.List.{append-nil, append_assoc}
use supermq.Common.{
  ℕ, zero, suc, ◌+◌, ◌≤◌, arith, String, ◌≡◌, sym, ap, ◌∙◌, Bool, true, false, ◌||◌, ltb, length,
  length-append, Option, some, List, [], ◌∷◌, ◌++◌, if◌then◌else◌,
}
use supermq.Errors.{nil, Result, ok, err, wrapping, ◌>>=◌}
use supermq.Service.{view_entity}
use supermq.Policies.{Policy}
use supermq.Policies.Spicedb.Data.{SpiceDb}
use supermq.Policies.Spicedb.Lookups.{
  Page, Counted, to_uint64, retrieve_all_limit, count_from, all_from, subjects_page,
  retrieve_all_subjects, retrieve_subjects,
}
use supermq.Policies.Spicedb.Listing.{list_all_subjects, count_subjects}

-- The pages that a retrieval gives from a token on, up to one without a token.
pub data Pages (retrieve : String → Result Page) : String → List (List Policy) → Type 0 where
  last :
      {token : String} {ps : List Policy}
      → retrieve token ≡ ok (record { policies = ps; token = "" })
      → Pages retrieve token (ps ∷ [])
  next :
      {token after : String} {ps : List Policy} {pages : List (List Policy)}
      → retrieve token ≡ ok (record { policies = ps; token = after })
      → (after == "") ≡ false
      → Pages retrieve after pages
      → Pages retrieve token (ps ∷ pages)

abbrev pub concat : List (List Policy) → List Policy
concat [] = []
concat (ps ∷ pages) = ps ++ concat pages

-- The first page is a full one, or the only one.
abbrev pub Full : List (List Policy) → Type 0
Full [] = Unit
Full (ps ∷ []) = Unit
Full (ps ∷ qs ∷ pages) = retrieve_all_limit ≤ length ps

abbrev counted : ℕ → Option Counted
counted n = some (record { count = n; error = nil })

add_mod : (n m k : ℕ) → to_uint64 (to_uint64 (n + to_uint64 m) + k) ≡ to_uint64 (n + (m + k))
add_mod n m k = omega arith

last_mod : (n m : ℕ) → to_uint64 (n + to_uint64 m) ≡ to_uint64 (n + (m + 0))
last_mod n m = omega arith

abbrev count_answer : ℕ → (String → Result Page) → ℕ → Result Page → Option Counted
count_answer fuel retrieve n answer = elim answer [
  | err e ↦ some (record { count = n; error = e })
  | ok page ↦
      let total = to_uint64 (n + to_uint64 (length page.policies)) in
      let rest = count_from fuel retrieve total page.token in
      if page.token == "" then some (record { count = total; error = nil }) else rest
]

abbrev all_answer :
    ℕ → (String → Result Page) → List Policy → Result Page → Option (Result (List Policy))
all_answer fuel retrieve before answer = elim answer [
  | err e ↦ some (err e)
  | ok page ↦
      let total = before ++ page.policies in
      let rest = all_from fuel retrieve total page.token in
      if page.token == "" || ltb (length total) retrieve_all_limit then some (ok total) else rest
]

count_from_lem :
    (retrieve : String → Result Page) (fuel n : ℕ) (token : String) (pages : List (List Policy))
    → Pages retrieve token pages
    → length pages ≤ fuel
    → count_from fuel retrieve n token ≡ counted (to_uint64 (n + length (concat pages)))
unfolding count_from
count_from_lem retrieve zero n token [] p le = elim p [ ]
count_from_lem retrieve (suc fuel) n token [] p le = elim p [ ]
count_from_lem retrieve zero n token (ps ∷ pages) p le = absurd (omega arith)
count_from_lem retrieve (suc fuel) n token (ps ∷ []) (last e) le =
    ap (count_answer fuel retrieve n) e
    ∙ ap counted (last_mod n (length ps) ∙ ap (λ k. to_uint64 (n + k)) (sym (length-append ps [])))
count_from_lem retrieve (suc fuel) n token (ps ∷ pages) (next {after} e ne rest) le =
    ap (count_answer fuel retrieve n) e
    ∙ ap
        (λ b.
          if b
          then counted (to_uint64 (n + to_uint64 (length ps)))
          else count_from fuel retrieve (to_uint64 (n + to_uint64 (length ps))) after)
        ne
    ∙ count_from_lem retrieve fuel (to_uint64 (n + to_uint64 (length ps))) after pages rest
        (omega arith)
    ∙ ap counted (
        add_mod n (length ps) (length (concat pages))
        ∙ ap (λ k. to_uint64 (n + k)) (sym (length-append ps (concat pages))))

goes_on :
    (b : Bool) (n : ℕ)
    → b ≡ false
    → retrieve_all_limit ≤ n
    → (b || ltb n retrieve_all_limit) ≡ false
goes_on true n h le = cc
goes_on false n h le = ground arith

longer :
    (before ps : List Policy)
    → retrieve_all_limit ≤ length before
    → retrieve_all_limit ≤ length (before ++ ps)
longer before ps h = omega (arith, length-append before ps)

all_from_lem :
    (retrieve : String → Result Page) (fuel : ℕ) (before : List Policy) (token : String)
    (pages : List (List Policy))
    → Pages retrieve token pages
    → length pages ≤ fuel
    → retrieve_all_limit ≤ length before
    → all_from fuel retrieve before token ≡ some (ok (before ++ concat pages))
unfolding all_from
all_from_lem retrieve zero before token [] p le full = elim p [ ]
all_from_lem retrieve (suc fuel) before token [] p le full = elim p [ ]
all_from_lem retrieve zero before token (ps ∷ pages) p le full = absurd (omega arith)
all_from_lem retrieve (suc fuel) before token (ps ∷ []) (last e) le full =
    ap (all_answer fuel retrieve before) e ∙ ap (λ l. some (ok (before ++ l))) (sym (append-nil ps))
all_from_lem retrieve (suc fuel) before token (ps ∷ pages) (next {after} e ne rest) le full =
    ap (all_answer fuel retrieve before) e
    ∙ ap (λ b. if b then some (ok (before ++ ps)) else all_from fuel retrieve (before ++ ps) after)
        (goes_on (after == "") (length (before ++ ps)) ne (longer before ps full))
    ∙ all_from_lem retrieve fuel (before ++ ps) after pages rest (omega arith)
        (longer before ps full)
    ∙ ap (λ l. some (ok l)) (append_assoc before ps (concat pages))

-- From the start, where only the first page can be short.
all_from_start :
    (retrieve : String → Result Page) (fuel : ℕ) (token : String) (pages : List (List Policy))
    → Pages retrieve token pages
    → Full pages
    → length pages ≤ fuel
    → all_from fuel retrieve [] token ≡ some (ok (concat pages))
unfolding all_from
all_from_start retrieve zero token [] p full le = elim p [ ]
all_from_start retrieve (suc fuel) token [] p full le = elim p [ ]
all_from_start retrieve zero token (ps ∷ pages) p full le = absurd (omega arith)
all_from_start retrieve (suc fuel) token (ps ∷ []) (last e) full le =
    ap (all_answer fuel retrieve []) e ∙ ap (λ l. some (ok l)) (sym (append-nil ps))
all_from_start retrieve (suc fuel) token (ps ∷ []) (next _ _ rest) full le = elim rest [ ]
all_from_start retrieve (suc fuel) token (ps ∷ qs ∷ pages) (next {after} e ne rest) full le =
    ap (all_answer fuel retrieve []) e
    ∙ ap (λ b. if b then some (ok ps) else all_from fuel retrieve ps after)
        (goes_on (after == "") (length ps) ne full)
    ∙ all_from_lem retrieve fuel ps after (qs ∷ pages) rest (omega arith) full

zero_add : (n : ℕ) → 0 + n ≡ n
zero_add n = omega arith

module _ {W : Type 0} (db : SpiceDb W) where
  abbrev pub AllPages : Policy → W → List (List Policy) → Type 0
  AllPages pr w = Pages (λ token. retrieve_subjects db pr token retrieve_all_limit w) ""

  -- When the pages of subjects end, and the first of several is a full one, both loops end after as
  -- many rounds as there are pages: ListAllSubjects lists the subjects of all of them, and
  -- CountSubjects returns their number modulo 2 ^ 64, without an error.
  pub count_subjects-list_all_subjects :
      (pr : Policy) (w : W) (pages : List (List Policy)) (fuel : ℕ)
      → AllPages pr w pages
      → Full pages
      → length pages ≤ fuel
      → (list_all_subjects db fuel pr w
          ≡ some (ok (subjects_page (record { policies = concat pages; token = "" }))))
        × (count_subjects db fuel pr w
            ≡ some (record { count = to_uint64 (length (concat pages)); error = nil }))
  unfolding list_all_subjects retrieve_all_subjects count_subjects
  count_subjects-list_all_subjects pr w pages fuel p full le =
      let retrieve = λ (token : String). retrieve_subjects db pr token retrieve_all_limit w in
      (
        ap
            (Option.map (λ r. wrapping view_entity r >>= λ policies.
              ok (subjects_page (record { policies = policies; token = "" }))))
            (all_from_start retrieve fuel "" pages p full le),
        count_from_lem retrieve fuel 0 "" pages p le
            ∙ ap (λ n. counted (to_uint64 n)) (zero_add (length (concat pages))),
      )

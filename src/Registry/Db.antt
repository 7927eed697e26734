-- ===== src/Registry/Db.antt =====
-- src/model_passport/registry/db.py: the table of passports.
--
-- The table is the list of its rows in the order of their insertion. A query without an order of
-- its own gives them so, and equal times stay in that order.
use model_passport.Prelude.{
  if◌then◌else◌, length, keep, any, first, update, ltb, leb, str_eq, ℕ, zero, suc, String, Bool,
  true, ◌&&◌, Option, none, some, List, [], ◌∷◌, ◌++◌, map,
}
use mathlib.Core.Option
use mathlib.Core.Option.{bind}
use model_passport.Prelude.Outcome.{Outcome, ok, err}
use model_passport.Core.Schema.{Verdict, Verdict-discrete}
use model_passport.Core.Identity.{sorted}
use model_passport.Core.Document.{Document}

pub record StoredPassport : Type 0 where
  pub passport_id : String
  pub model_name : String
  pub version : String
  pub created_at : ℕ
  pub verdict : Option Verdict
  pub merkle_root : String
  pub key_fingerprint : String
  pub supersedes : Option String
  pub public_key_pem : String
  pub document : Document
  pub uploaded_at : ℕ

-- What `summary` shows of a row.
pub record Summary : Type 0 where
  pub passport_id : String
  pub model_name : String
  pub version : String
  pub created_at : ℕ
  pub verdict : Option Verdict
  pub merkle_root : String
  pub key_fingerprint : String
  pub supersedes : Option String
  pub events : ℕ
  pub uploaded_at : ℕ

unfoldable pub summary : StoredPassport → Summary
summary row = record {
  passport_id = row.passport_id;
  model_name = row.model_name;
  version = row.version;
  created_at = row.created_at;
  verdict = row.verdict;
  merkle_root = row.merkle_root;
  key_fingerprint = row.key_fingerprint;
  supersedes = row.supersedes;
  events = length row.document.events;
  uploaded_at = row.uploaded_at;
}

pub data DbError : Type 0 where
  duplicate_passport : String → DbError

-- The columns of a new row.
unfoldable pub row_of : Document → String → ℕ → StoredPassport
row_of document public_key_pem now = record {
  passport_id = document.passport_id;
  model_name = document.model_name;
  version = document.version;
  created_at = document.created_at;
  verdict = document.policy_verdict;
  merkle_root = document.merkle_root;
  key_fingerprint = document.public_key_fingerprint;
  supersedes = Option.map (λ r. r.previous_passport_id) document.revision;
  public_key_pem = public_key_pem;
  document = document;
  uploaded_at = now;
}

-- `RegistryDB.get`
unfoldable pub find_passport : List StoredPassport → String → Option StoredPassport
find_passport rows passport_id = first (λ row. str_eq row.passport_id passport_id) rows

-- `RegistryDB.insert`: the identifier is the primary key.
unfoldable pub insert_passport :
    List StoredPassport
    → Document
    → String
    → ℕ
    → Outcome DbError (StoredPassport × List StoredPassport)
unfolding row_of
insert_passport rows document public_key_pem now =
    if any (λ row. str_eq row.passport_id document.passport_id) rows
    then err (duplicate_passport document.passport_id)
    else ok (row_of document public_key_pem now, rows ++ row_of document public_key_pem now ∷ [])

-- `RegistryDB.replace_document`
unfoldable pub replace_document : List StoredPassport → String → Document → List StoredPassport
replace_document rows passport_id document =
    update (λ row. str_eq row.passport_id passport_id) (λ row. record row { document = document })
      rows

-- `if model_name:` leaves the clause out for nothing and for the empty text.
unfoldable pub model_matches : Option String → StoredPassport → Bool
model_matches none row = true
model_matches (some name) row = if str_eq name "" then true else str_eq row.model_name name

abbrev same_verdict : Option Verdict → Verdict → Bool
same_verdict none v = Bool.false
same_verdict (some w) v = elim (Verdict-discrete w v) [ yes _ ↦ true | no _ ↦ Bool.false ]

unfoldable pub verdict_matches : Option Verdict → StoredPassport → Bool
verdict_matches none row = true
verdict_matches (some v) row = same_verdict row.verdict v

-- `ORDER BY created_at DESC`
unfoldable pub insert_newest : StoredPassport → List StoredPassport → List StoredPassport
insert_newest row [] = row ∷ []
insert_newest row (other ∷ rest) =
    let later = insert_newest row rest in
    if leb other.created_at row.created_at then row ∷ other ∷ rest else other ∷ later

unfoldable pub newest_first : List StoredPassport → List StoredPassport
unfolding insert_newest
newest_first [] = []
newest_first (row ∷ rest) = insert_newest row (newest_first rest)

-- `LIMIT`
unfoldable pub limit_to : ℕ → List StoredPassport → List StoredPassport
limit_to zero rows = []
limit_to (suc n) [] = []
limit_to (suc n) (row ∷ rest) = row ∷ limit_to n rest

unfoldable pub search :
    List StoredPassport → Option String → Option Verdict → ℕ → List StoredPassport
unfolding newest_first limit_to model_matches verdict_matches
search rows model_name verdict limit =
    limit_to limit (
      newest_first (keep (λ row. model_matches model_name row && verdict_matches verdict row) rows))

pub record ModelRow : Type 0 where
  pub model_name : String
  pub passports : ℕ
  pub latest : ℕ

abbrev later_of : ℕ → ℕ → ℕ
later_of a b = if ltb a b then b else a

unfoldable pub latest_of : List StoredPassport → ℕ
latest_of [] = 0
latest_of (row ∷ rest) = later_of row.created_at (latest_of rest)

-- `GROUP BY`, on sorted names.
unfoldable pub distinct_names : List String → List String
distinct_names [] = []
distinct_names (name ∷ rest) =
    name ∷ keep (λ other. if str_eq other name then Bool.false else true) (distinct_names rest)

-- `RegistryDB.models`
unfoldable pub models : List StoredPassport → List ModelRow
unfolding distinct_names latest_of
models rows =
    map
      (λ name.
        let group = keep (λ row. str_eq row.model_name name) rows in
        record { model_name = name; passports = length group; latest = latest_of group })
      (distinct_names (sorted (map (λ row. row.model_name) rows)))

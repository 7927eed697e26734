-- ===== src/Registry/Api.antt =====
-- src/model_passport/registry/api.py: the routes of the registry.
--
-- A route gives back the table that it leaves. The loading of a PEM key and `strip` are the
-- parameter `Keys`.
pub mod Accepted
pub mod Verified
use Prim.Native.Char.{code}
use model_passport.Prelude.{
  if◌then◌else◌, length, keep, any, concat, is_some, str_eq, ℕ, zero, suc, ◌==◌, String, Bool, true,
  false, not, Option, none, some, List, [], ◌∷◌, ◌++◌, map,
}
use mathlib.Core.Option
use mathlib.Core.Option.{bind}
use model_passport.Prelude.Outcome.{Outcome, ok, err, require, ◌>>=◌, ◌>>◌}
use model_passport.Core.Schema.{Verdict}
use model_passport.Core.Events.{LifecycleEvent, EventProblem, verify_events}
use model_passport.Core.Identity.{MerkleError}
use model_passport.Core.Document.{Document}
use model_passport.Core.Verifier.{
  Checking, ReportError, VerificationReport, is_empty, report_ok, event_view, verify_document,
}
use model_passport.Registry.Db.{
  StoredPassport, Summary, DbError, duplicate_passport, summary, find_passport, insert_passport,
  replace_document, search,
}

-- What `load_pem_public_key` gives.
pub data LoadedKey (Key : Type 0) : Type 0 where
  ed25519 : Key → LoadedKey Key
  other_key invalid_pem : LoadedKey Key

pub record Keys (c : Checking) : Type 0 where
  pub load_pem_public_key : String → LoadedKey c.signing.PublicKey
  pub strip : String → String

pub data UploadProblem : Type 0 where
  report_problem : ReportError → UploadProblem
  event_problem : EventProblem → UploadProblem
  signature_invalid merkle_mismatch fingerprint_mismatch : UploadProblem

pub data ApiError : Type 0 where
  invalid_token invalid_key not_ed25519 : ApiError
  failed_verification : List UploadProblem → ApiError
  already_exists not_found : String → ApiError
  event_invalid : ApiError
  event_rejected : List EventProblem → ApiError
  merkle_raised : MerkleError → ApiError

-- `trusted` are the fingerprints of the trusted keys, if a directory of them is set.
pub record RegistryContext : Type 0 where
  pub rows : List StoredPassport
  pub token : Option String
  pub trusted : Option (List String)

-- `_load_key`, on what the library gives.
unfoldable pub usable_key : {Key : Type 0} → LoadedKey Key → Outcome ApiError Key
usable_key (ed25519 key) = ok key
usable_key other_key = err not_ed25519
usable_key invalid_pem = err invalid_key

-- `s.removeprefix(prefix)`
unfoldable pub after_prefix : String → String → Option String
after_prefix String.[] s = some s
after_prefix (String.◌∷◌ p ps) String.[] = none
after_prefix (String.◌∷◌ p ps) (String.◌∷◌ c s) =
    let rest = after_prefix ps s in if code p == code c then rest else none

unfoldable pub removeprefix : String → String → String
unfolding after_prefix
removeprefix s prefix = elim (after_prefix prefix s) [ none ↦ s | some rest ↦ rest ]

abbrev pub text_or_empty : Option String → String
text_or_empty none = ""
text_or_empty (some s) = s

unfoldable pub problems : VerificationReport → List UploadProblem
problems report =
    map report_problem report.errors
    ++ map event_problem report.event_errors
    ++ (if report.signature_ok then [] else signature_invalid ∷ [])
    ++ (if report.merkle_ok then [] else merkle_mismatch ∷ [])
    ++ (if report.fingerprint_ok then [] else fingerprint_mismatch ∷ [])

unfoldable pub get_stored : RegistryContext → String → Outcome ApiError StoredPassport
get_stored context passport_id = elim (find_passport context.rows passport_id) [
  | none ↦ err (not_found passport_id)
  | some stored ↦ ok stored
]

pub record VerificationResponse : Type 0 where
  pub passport_id : String
  pub ok_overall : Bool
  pub signature_ok : Bool
  pub merkle_ok : Bool
  pub fingerprint_ok : Bool
  pub key_trusted : Option Bool
  pub event_errors : List UploadProblem

-- `context.db.insert` in `upload`.
unfoldable pub insert_row :
    RegistryContext → Document → String → ℕ → Outcome ApiError (Summary × RegistryContext)
insert_row context document pem now = elim (insert_passport context.rows document pem now) [
  | ok (stored, rows) ↦ ok (summary stored, record context { rows = rows })
  | err (duplicate_passport id) ↦ err (already_exists id)
]

module _ (c : Checking) (lib : Keys c) where
  unfoldable pub load_key : String → Outcome ApiError c.signing.PublicKey
  unfolding usable_key
  load_key pem = usable_key (lib.load_pem_public_key pem)

  -- The token that is compared is what follows `Bearer ` in the header.
  unfoldable pub require_token : RegistryContext → Option String → Outcome ApiError (Unit {0})
  unfolding removeprefix
  require_token context authorization = elim context.token [
    | none ↦ ok tt
    | some token ↦
        require (str_eq (lib.strip (removeprefix (text_or_empty authorization) "Bearer ")) token)
          invalid_token
  ]

  unfoldable pub checked : Document → c.signing.PublicKey → Outcome ApiError VerificationReport
  checked document key = elim (verify_document c document key) [
    | ok report ↦ ok report
    | err e ↦ err (merkle_raised e)
  ]

  unfoldable pub upload :
      RegistryContext
      → Option String
      → Document
      → String
      → ℕ
      → Outcome ApiError (Summary × RegistryContext)
  unfolding require_token load_key checked problems insert_row
  upload context authorization document public_key_pem now = do
    require_token context authorization
    key ← load_key public_key_pem
    report ← checked document key
    require (report_ok report) (failed_verification (problems report))
    insert_row context document public_key_pem now

  -- The handler of an appended event, from the row that its request loaded.
  unfoldable pub append_to :
      RegistryContext → StoredPassport → LifecycleEvent → Outcome ApiError (ℕ × RegistryContext)
  unfolding load_key
  append_to context stored event =
      let events = stored.document.events ++ event ∷ [] in
      let document = record stored.document { events = events } in
      do
        require (c.event_validates event) event_invalid
        key ← load_key stored.public_key_pem
        let errors = verify_events c.signing (event_view c document) key
        require (is_empty errors) (event_rejected errors)
        ok (
          length events,
          record context { rows = replace_document context.rows stored.passport_id document },
        )

  unfoldable pub append_registry_event :
      RegistryContext
      → Option String
      → String
      → LifecycleEvent
      → Outcome ApiError (ℕ × RegistryContext)
  unfolding require_token get_stored append_to
  append_registry_event context authorization passport_id event = do
    require_token context authorization
    stored ← get_stored context passport_id
    append_to context stored event

  unfoldable pub verify : RegistryContext → String → Outcome ApiError VerificationResponse
  unfolding get_stored load_key checked
  verify context passport_id = do
    stored ← get_stored context passport_id
    key ← load_key stored.public_key_pem
    report ← checked stored.document key
    ok record {
      passport_id = stored.passport_id;
      ok_overall = report_ok report;
      signature_ok = report.signature_ok;
      merkle_ok = report.merkle_ok;
      fingerprint_ok = report.fingerprint_ok;
      key_trusted =
          Option.map (λ trusted. any (str_eq stored.key_fingerprint) trusted) context.trusted;
      event_errors = map event_problem report.event_errors ++ map report_problem report.errors;
    }

unfoldable pub list_passports : RegistryContext → Option String → Option Verdict → ℕ → List Summary
list_passports context model_name verdict limit =
    map summary (search context.rows model_name verdict limit)

unfoldable pub get_passport : RegistryContext → String → Outcome ApiError Document
unfolding get_stored
get_passport context passport_id = do stored ← get_stored context passport_id; ok stored.document

unfoldable pub get_public_key : RegistryContext → String → Outcome ApiError (String × String)
unfolding get_stored
get_public_key context passport_id = do
  stored ← get_stored context passport_id
  ok (stored.key_fingerprint, stored.public_key_pem)

-- ===== src/Core/Verifier.antt =====
-- src/model_passport/core/verifier.py: the checks of a passport, with and without its files.
--
-- The file tree maps a path to the digest of what is there (`identity.sha256_path`), or to nothing.
-- JSON encoding, SHA-256, Ed25519 and the validation of the schema (pydantic) are the parameter
-- `Checking`; the laws of the validation are the schema's patterns and lengths.
pub mod Laws
use model_passport.Prelude.{
  if◌then◌else◌, length, keep, concat, str_eq, ◌<◌, String, ◌≡◌, Bool, true, false, ◌&&◌, not,
  Option, none, some, List, [], ◌∷◌, ◌++◌, map,
}
use model_passport.Prelude.Outcome.{Outcome, ok, err}
use model_passport.Core.Document.{ArtifactKind, Document}
use model_passport.Core.Events.{LifecycleEvent, Passport, Signing, EventProblem, verify_events}
use model_passport.Core.Identity.{Digests, MerkleError, sorted, all_bytes, merkle_root}

-- `canonical_document` is `canonical_json` of a passport, and `raw_bytes` the raw form of a key.
pub record Checking : Type 1 where
  pub signing : Signing
  pub digests : Digests
  pub hex_text : digests.Hex → String
  pub canonical_document : Document → String
  pub raw_bytes : signing.PublicKey → String
  pub validates : Document → Bool
  pub event_validates : LifecycleEvent → Bool
  pub artifacts_given : (d : Document) → validates d ≡ true → 0 < length d.artifacts
  pub hashes_hex :
      (d : Document)
      → validates d ≡ true
      → (bytes : _) × (all_bytes digests.fromhex (sorted (map (λ a. a.sha256) d.artifacts))
          ≡ some bytes)
  pub event_added :
      (d : Document) (event : LifecycleEvent)
      → validates d ≡ true
      → event_validates event ≡ true
      → validates (record d { events = d.events ++ event ∷ [] }) ≡ true

pub data ArtifactStatus : Type 0 where
  intact modified missing : ArtifactStatus

pub record ArtifactCheck : Type 0 where
  pub path : String
  pub kind : ArtifactKind
  pub expected_sha256 : String
  pub actual_sha256 : Option String
  pub status : ArtifactStatus

pub data ReportError : Type 0 where
  unreadable_passport unreadable_key invalid_passport : ReportError

pub record VerificationReport : Type 0 where
  pub artifacts : List ArtifactCheck
  pub merkle_ok : Bool
  pub fingerprint_ok : Bool
  pub signature_ok : Bool
  pub event_errors : List EventProblem
  pub errors : List ReportError

-- `VerificationReport()`
abbrev pub new_report : VerificationReport
new_report = record {
  artifacts = [];
  merkle_ok = false;
  fingerprint_ok = false;
  signature_ok = false;
  event_errors = [];
  errors = [];
}

-- `not xs`
abbrev pub is_empty {ℓ} : {A : Type ℓ} → List A → Bool
is_empty [] = true
is_empty (_ ∷ _) = false

abbrev pub is_intact : ArtifactStatus → Bool
is_intact intact = true
is_intact modified = false
is_intact missing = false

-- `VerificationReport.changed`
unfoldable pub artifacts_changed : VerificationReport → List ArtifactCheck
artifacts_changed report = keep (λ a. not (is_intact a.status)) report.artifacts

-- `VerificationReport.ok`
unfoldable pub report_ok : VerificationReport → Bool
unfolding artifacts_changed
report_ok report =
    is_empty report.errors
    && (is_empty (artifacts_changed report)
        && (is_empty report.event_errors
            && (report.merkle_ok && (report.fingerprint_ok && report.signature_ok))))

unfoldable pub check_artifact :
    (String → Option String) → String → ArtifactKind → String → ArtifactCheck
check_artifact sha256_path path kind expected = elim (sha256_path path) [
  | none ↦ record {
    path = path;
    kind = kind;
    expected_sha256 = expected;
    actual_sha256 = none;
    status = missing;
  }
  | some actual ↦ record {
    path = path;
    kind = kind;
    expected_sha256 = expected;
    actual_sha256 = some actual;
    status = if str_eq actual expected then intact else modified;
  }
]

-- The files are read only if the document has no errors.
unfoldable pub with_artifacts :
    (String → Option String) → Document → VerificationReport → VerificationReport
unfolding check_artifact
with_artifacts sha256_path d report =
    if is_empty report.errors
    then record report {
      artifacts = map (λ a. check_artifact sha256_path a.path a.kind a.sha256) d.artifacts;
    }
    else report

module _ (c : Checking) where
  -- `identity.signing_payload`
  unfoldable pub signing_payload : Document → String
  signing_payload d = c.canonical_document record d { signature = none; events = [] }

  -- `identity.public_key_fingerprint`
  unfoldable pub public_key_fingerprint : c.signing.PublicKey → String
  public_key_fingerprint key = concat "sha256:" (c.signing.sha256_bytes (c.raw_bytes key))

  -- The part of the document that its events are checked against.
  unfoldable pub event_view : Document → Passport
  unfolding signing_payload
  event_view d = record { signing_payload = signing_payload d; events = d.events }

  -- `bool(signature) and identity.verify_signature(...)`
  unfoldable pub signature_valid : c.signing.PublicKey → String → Option String → Bool
  signature_valid key payload none = false
  signature_valid key payload (some s) = not (str_eq s "") && c.signing.verifies key payload s

  -- The report on a passport that validates, once its Merkle root is computed.
  unfoldable pub integrity : c.signing.PublicKey → Document → String → VerificationReport
  unfolding public_key_fingerprint signature_valid event_view
  integrity key d root = record new_report {
    merkle_ok = str_eq root d.merkle_root;
    fingerprint_ok = str_eq (public_key_fingerprint key) d.public_key_fingerprint;
    signature_ok = signature_valid key (signing_payload d) d.signature;
    event_errors = verify_events c.signing (event_view d) key;
  }

  unfoldable pub verify_document :
      Document → c.signing.PublicKey → Outcome MerkleError VerificationReport
  unfolding integrity
  verify_document d key =
      if c.validates d
      then elim (merkle_root c.digests (map (λ a. a.sha256) d.artifacts)) [
        | ok root ↦ ok (integrity key d (c.hex_text root))
        | err e ↦ err e
      ]
      else ok (record new_report { errors = invalid_passport ∷ [] })

  -- Nothing stands for a passport or a key that cannot be read.
  unfoldable pub verify_passport :
      (String → Option String)
      → Option Document
      → Option c.signing.PublicKey
      → Outcome MerkleError VerificationReport
  unfolding verify_document with_artifacts
  verify_passport sha256_path none key =
      ok (record new_report { errors = unreadable_passport ∷ [] })
  verify_passport sha256_path (some d) none =
      ok (record new_report { errors = unreadable_key ∷ [] })
  verify_passport sha256_path (some d) (some key) = elim (verify_document d key) [
    | ok report ↦ ok (with_artifacts sha256_path d report)
    | err e ↦ err e
  ]

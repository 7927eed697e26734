-- ===== src/Core/Verifier/Laws.antt =====
-- What it takes for a passport to be verified.
use model_passport.Prelude.{
  Bool-cases, Option-cases, some-eq, not-true, keep, length-map, All, str_eq, str_eq_iff, String,
  ◌≡◌, refl, sym, ap, ◌∙◌, ◌↔◌, inl, inr, Bool, true, false, ◌&&◌, not, Option, none, some, List,
  [], ◌∷◌, map, arith,
}
use model_passport.Prelude.Outcome.{ok, ok-eq, Outcome-cases}
use model_passport.Core.Document.{ArtifactRef, Document}
use model_passport.Core.Events.Chain.{IsLinked, verify_events_iff}
use model_passport.Core.Identity.{merkle_root}
use model_passport.Core.Verifier.{
  Checking, VerificationReport, is_empty, is_intact, report_ok, check_artifact, signing_payload,
  public_key_fingerprint, signature_valid, with_artifacts, invalid_passport, new_report,
  artifacts_changed, event_view, integrity, verify_document, verify_passport,
}
use model_passport.Core.Events.{anchor_hash, signed, verify_events}
use model_passport.Core.Identity.Total.{merkle_root_total}

pub is_empty_iff : {A : Type 0} (xs : List A) → (is_empty xs ≡ true) ↔ (xs ≡ [])
is_empty_iff [] = (λ _. refl, λ _. refl)
is_empty_iff (x ∷ xs) = (λ e. absurd (cc), λ e. absurd (cc))

pub and_iff : (a b : Bool) → ((a && b) ≡ true) ↔ ((a ≡ true) × (b ≡ true))
and_iff true b = (λ e. (refl, e), λ (_, e). e)
and_iff false b = (λ e. absurd (cc), λ (e, _). absurd (cc))

and_middle : {a b c : Bool} → a ≡ true → ((a && (b && c)) ≡ true) ↔ ((c ≡ true) × (b ≡ true))
and_middle h = (λ e. ground arith, λ (e, e'). ground arith)

check_artifact_iff :
    (tree : String → Option String) (a : ArtifactRef)
    → (is_intact (check_artifact tree a.path a.kind a.sha256).status ≡ true)
      ↔ (tree a.path ≡ some a.sha256)
unfolding check_artifact
check_artifact_iff tree a = elim (Option-cases (tree a.path)) [
  | inl e ↦ rw (check_artifact, e) (λ h. absurd (cc), λ h. absurd (cc))
  | inr (actual, e) ↦ elim (Bool-cases (str_eq actual a.sha256)) [
    | inl same ↦
        rw (check_artifact, e, same) (λ _. ap some ((str_eq_iff actual a.sha256).0 same), λ _. refl)
    | inr differs ↦
        rw (check_artifact, e, differs)
          (λ h. absurd (cc), λ h. absurd (cc (differs, (str_eq_iff actual a.sha256).1 (some-eq h))))
  ]
]

unchanged_iff :
    (tree : String → Option String) (xs : List ArtifactRef)
    → (is_empty (
          keep
            (λ a. not (is_intact a.status))
            (map (λ a. check_artifact tree a.path a.kind a.sha256) xs))
        ≡ true)
      ↔ All (λ a. tree a.path ≡ some a.sha256) xs
unfolding keep
unchanged_iff tree [] = (λ _. tt, λ _. refl)
unchanged_iff tree (a ∷ xs) =
    let (to, from) = unchanged_iff tree xs in
    let (seen, back) = check_artifact_iff tree a in
    elim (Bool-cases (is_intact (check_artifact tree a.path a.kind a.sha256).status)) [
      | inl e ↦ rw (keep, e) (λ h. (seen e, to h), λ (_, h). from h)
      | inr e ↦ rw (keep, e) (λ h. absurd (cc), λ (h, _). absurd (cc (back h, e)))
    ]

-- With artifacts, a report is in order exactly if it was without and no artifact is changed.
report_ok-with_artifacts :
    (tree : String → Option String) (d : Document) (report : VerificationReport)
    → report.artifacts ≡ []
    → (report_ok (with_artifacts tree d report) ≡ true)
      ↔ ((report_ok report ≡ true) × All (λ a. tree a.path ≡ some a.sha256) d.artifacts)
unfolding report_ok with_artifacts artifacts_changed
report_ok-with_artifacts tree d report no_artifacts = elim (Bool-cases (is_empty report.errors)) [
  | inr e ↦ rw (e) (λ h. absurd (cc), λ (h, _). absurd (cc))
  | inl e ↦
      let (to, from) = unchanged_iff tree d.artifacts in
      rw (e, no_artifacts)
        unfold keep in
          let (apart, join) = and_middle e in
          (λ h. (let (a, b) = apart h in (a, to b)), λ (a, b). join (a, from b))
]

module _ (c : Checking) where
  -- What a verified document satisfies: it validates, the Merkle root of its artifacts and the
  -- fingerprint of the key are the recorded ones, its signature is a text that verifies over the
  -- signed payload, and its events are linked to that payload and signed.
  abbrev pub IsIntegral : c.signing.PublicKey → Document → Type 0
  IsIntegral key d =
      (c.validates d ≡ true)
      × ((root : c.digests.Hex) × (merkle_root c.digests (map (λ a. a.sha256) d.artifacts)
            ≡ ok root)
          × (c.hex_text root ≡ d.merkle_root))
      × (public_key_fingerprint c key ≡ d.public_key_fingerprint)
      × ((s : String) × (d.signature ≡ some s)
          × (str_eq s "" ≡ false)
          × (c.signing.verifies key (signing_payload c d) s ≡ true))
      × IsLinked c.signing key (c.signing.sha256_bytes (signing_payload c d)) d.events

  signature_valid_iff :
      (key : c.signing.PublicKey) (payload : String) (signature : Option String)
      → (signature_valid c key payload signature ≡ true) ↔ (
          (s : String) × (signature ≡ some s)
          × (str_eq s "" ≡ false)
          × (c.signing.verifies key payload s ≡ true))
  unfolding signature_valid
  signature_valid_iff key payload none = (λ h. absurd (cc), λ (s, h, _, _). absurd (cc))
  signature_valid_iff key payload (some s) = (
    λ h. (let (a, b) = (and_iff _ _).0 h in (s, refl, not-true a, b)),
    λ (t, same, given, verified).
        (and_iff (not (str_eq s "")) (c.signing.verifies key payload s)).1
          (rw (some-eq same, given) refl, rw (some-eq same) verified),
  )

  integrity_iff :
      (key : c.signing.PublicKey) (d : Document) (root : c.digests.Hex)
      → c.validates d ≡ true
      → merkle_root c.digests (map (λ a. a.sha256) d.artifacts) ≡ ok root
      → (report_ok (integrity c key d (c.hex_text root)) ≡ true) ↔ IsIntegral key d
  unfolding report_ok integrity artifacts_changed keep event_view anchor_hash
  integrity_iff key d root v e =
      let (signed, sign_back) = signature_valid_iff key (signing_payload c d) d.signature in
      let (linked, link_back) = verify_events_iff c.signing (event_view c d) key in
      let (clear, clear_back) = is_empty_iff (verify_events c.signing (event_view c d) key) in
      let (same_root, root_back) = str_eq_iff (c.hex_text root) d.merkle_root in
      let (same_key, key_back) =
        str_eq_iff (public_key_fingerprint c key) d.public_key_fingerprint in
      (
        λ h.
            (let (h1, rest1) = (and_iff _ _).0 h in
              let (h2, rest2) = (and_iff _ _).0 rest1 in
              let (h3, h4) = (and_iff _ _).0 rest2 in
              (v, (root, e, same_root h2), same_key h3, signed h4, linked (clear h1))),
        λ (_, (other_root, e', h2), h3, h4, h5). (and_iff _ _).1 (
          clear_back (link_back h5),
          (and_iff _ _).1 (
            root_back (ap c.hex_text (ok-eq (sym e ∙ e')) ∙ h2),
            (and_iff _ _).1 (key_back h3, sign_back h4),
          ),
        ),
      )

  -- The checks of a document end with a report, which is in order exactly if the document
  -- validates, the Merkle root and the fingerprint of the key are those it records, its signature
  -- verifies, and its events are linked and signed.
  pub verify_document_iff :
      (d : Document) (key : c.signing.PublicKey)
      → (report : VerificationReport) × (verify_document c d key ≡ ok report)
        × ((report_ok report ≡ true) ↔ IsIntegral key d)
  unfolding verify_document
  verify_document_iff d key = elim (Bool-cases (c.validates d)) [
    | inl v ↦
        let (bytes, hex) = c.hashes_hex d v in
        let (root, e) =
          merkle_root_total c.digests (map (λ a. a.sha256) d.artifacts)
            (omega (arith, c.artifacts_given d v, length-map (λ a. a.sha256) d.artifacts)) hex in
        (
          integrity c key d (c.hex_text root),
          rw (verify_document, v, e) refl,
          integrity_iff key d root v e,
        )
    | inr v ↦ (
      record new_report { errors = invalid_passport ∷ [] },
      rw (verify_document, v) refl,
      unfold report_ok in (λ h. absurd (cc), λ (v', _, _, _, _). absurd (cc (v, v'))),
    )
  ]

  verify_document-artifacts :
      (d : Document) (key : c.signing.PublicKey) {report : VerificationReport}
      → verify_document c d key ≡ ok report
      → report.artifacts ≡ []
  unfolding verify_document integrity
  verify_document-artifacts d key h = elim (Bool-cases (c.validates d)) [
    | inr v ↦ rw (← ok-eq (rw (verify_document, v) at h)) refl
    | inl v ↦ elim (Outcome-cases (merkle_root c.digests (map (λ a. a.sha256) d.artifacts))) [
      | inl (root, e) ↦ rw (← ok-eq (rw (verify_document, v, e) at h)) refl
      | inr (x, e) ↦ absurd (let h' = rw (verify_document, v, e) at h in cc)
    ]
  ]

  -- With the files of a tree, the report on a document is in order exactly if the document passes
  -- its checks and every artifact is in the tree with the recorded digest.
  pub verify_passport_iff :
      (tree : String → Option String) (d : Document) (key : c.signing.PublicKey)
      → (report : VerificationReport) × (verify_passport c tree (some d) (some key) ≡ ok report)
        × ((report_ok report ≡ true)
            ↔ (IsIntegral key d × All (λ a. tree a.path ≡ some a.sha256) d.artifacts))
  unfolding verify_passport
  verify_passport_iff tree d key =
      let (report, e, (to, from)) = verify_document_iff d key in
      let (there, back) =
        report_ok-with_artifacts tree d report (verify_document-artifacts d key e) in
      (
        with_artifacts tree d report,
        rw (verify_passport, e) refl,
        (λ h. (let (a, b) = there h in (to a, b)), λ (a, b). back (from a, b)),
      )

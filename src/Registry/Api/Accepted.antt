-- ===== src/Registry/Api/Accepted.antt =====
-- What an accepted upload and an accepted event leave in the registry.
use model_passport.Prelude.{
  Bool-cases, any, str_eq, ℕ, String, ◌≡◌, refl, sym, ap, ◌∙◌, subst, inl, inr, true, false, Option,
  [], ◌∷◌, ◌++◌,
}
use mathlib.Core.Option
use model_passport.Prelude.Outcome.{ok, >>=-eq-ok, ok-eq, require-ok, >>-eq-ok}
use model_passport.Core.Events.{LifecycleEvent, anchor_hash, verify_events}
use model_passport.Core.Events.Chain.{verify_events_iff}
use model_passport.Core.Document.{Document}
use model_passport.Core.Verifier.{
  Checking, VerificationReport, report_ok, signing_payload, event_view,
}
use model_passport.Core.Verifier.Laws.{is_empty_iff, IsIntegral, verify_document_iff}
use model_passport.Registry.Db.{StoredPassport, Summary, row_of, insert_passport, replace_document}
use model_passport.Registry.Api.{
  LoadedKey, ed25519, other_key, invalid_pem, Keys, RegistryContext, usable_key, insert_row,
  load_key, require_token, checked, upload, append_to,
}

usable_key-ok :
    {Key : Type 0} (l : LoadedKey Key) {key : Key} → usable_key l ≡ ok key → l ≡ ed25519 key
unfolding usable_key
usable_key-ok (ed25519 k) e = ap ed25519 (ok-eq e)
usable_key-ok other_key e = absurd (cc)
usable_key-ok invalid_pem e = absurd (cc)

ed25519-eq : {Key : Type 0} {a b : Key} → ed25519 a ≡ ed25519 b → a ≡ b
ed25519-eq e = cc

-- The columns that the listing and the lineage read are those of the document.
abbrev pub IsDescribed : StoredPassport → Type 0
IsDescribed row =
    (row.model_name ≡ row.document.model_name)
    × (row.version ≡ row.document.version)
    × (row.created_at ≡ row.document.created_at)
    × (row.verdict ≡ row.document.policy_verdict)
    × (row.supersedes ≡ Option.map (λ r. r.previous_passport_id) row.document.revision)

module _ (c : Checking) (lib : Keys c) where
  -- The key of the row loads, its document is integral under it, and its columns are those of the
  -- document.
  abbrev pub IsStored : StoredPassport → Type 0
  IsStored row =
      ((key : c.signing.PublicKey) × (lib.load_pem_public_key row.public_key_pem ≡ ed25519 key)
        × IsIntegral c key row.document)
      × (row.passport_id ≡ row.document.passport_id)
      × (row.key_fingerprint ≡ row.document.public_key_fingerprint)
      × (row.merkle_root ≡ row.document.merkle_root)
      × IsDescribed row

  -- What `append_to` leaves when it succeeds.
  pub append_to-ok :
      (context : RegistryContext) (row : StoredPassport) (event : LifecycleEvent) {count : ℕ}
      {next : RegistryContext}
      → append_to c lib context row event ≡ ok (count, next)
      → (key : c.signing.PublicKey) × (lib.load_pem_public_key row.public_key_pem ≡ ed25519 key)
        × (c.event_validates event ≡ true)
        × (verify_events c.signing
              (event_view c record row.document { events = row.document.events ++ event ∷ [] })
              key
            ≡ [])
        × (next ≡ record context {
          rows =
              replace_document context.rows row.passport_id
                record row.document { events = row.document.events ++ event ∷ [] };
        })
  unfolding append_to load_key
  append_to-ok context row event h =
      let (valid, h1) = require-ok _ _ _ h in
      let (key, loads, h2) =
        >>=-eq-ok (usable_key (lib.load_pem_public_key row.public_key_pem)) _ h1 in
      let (clear, h3) = require-ok _ _ _ h2 in
      (
        key,
        usable_key-ok _ loads,
        valid,
        (is_empty_iff _).0 clear,
        sym (ap (λ (p : ℕ × RegistryContext). p.1) (ok-eq h3)),
      )

  appended-IsIntegral :
      (key : c.signing.PublicKey) (d : Document) (event : LifecycleEvent)
      → IsIntegral c key d
      → c.event_validates event ≡ true
      → verify_events c.signing (event_view c record d { events = d.events ++ event ∷ [] }) key ≡ []
      → IsIntegral c key (record d { events = d.events ++ event ∷ [] })
  unfolding event_view anchor_hash signing_payload
  appended-IsIntegral key d event (valid, roots, prints, signs, links) event_valid clear = (
    c.event_added d event valid event_valid,
    roots,
    prints,
    signs,
    (verify_events_iff c.signing (event_view c record d { events = d.events ++ event ∷ [] }) key).0
        clear,
  )

  checked-ok :
      (document : Document) (key : c.signing.PublicKey) {report : VerificationReport}
      → checked c lib document key ≡ ok report
      → report_ok report ≡ true
      → IsIntegral c key document
  unfolding checked
  checked-ok document key h fine =
      let (report, e, (to, _)) = verify_document_iff c document key in
      to (subst (λ r. report_ok r ≡ true) (sym (ok-eq (rw (checked, e) at h))) fine)

  -- What `upload` leaves when it succeeds.
  pub upload-ok :
      (context : RegistryContext) (authorization : Option String) (document : Document)
      (pem : String) (now : ℕ) {shown : Summary} {next : RegistryContext}
      → upload c lib context authorization document pem now ≡ ok (shown, next)
      → (any (λ row. str_eq row.passport_id document.passport_id) context.rows ≡ false)
        × IsStored (row_of document pem now)
        × (next ≡ record context { rows = context.rows ++ row_of document pem now ∷ [] })
  unfolding upload load_key checked insert_row insert_passport
  upload-ok context authorization document pem now h =
      let (_, _, h1) = >>-eq-ok (require_token c lib context authorization) _ h in
      let (key, loads, h2) = >>=-eq-ok (usable_key (lib.load_pem_public_key pem)) _ h1 in
      let (report, e', h3) = >>=-eq-ok (checked c lib document key) _ h2 in
      let (fine, h4) = require-ok (report_ok report) _ (insert_row context document pem now) h3 in
      elim (Bool-cases (any (λ row. str_eq row.passport_id document.passport_id) context.rows)) [
        | inl taken ↦ absurd (let h5 = rw (insert_row, insert_passport, taken) at h4 in cc)
        | inr free ↦ (
          free,
          (
            (key, usable_key-ok _ loads, checked-ok document key e' fine),
            refl,
            refl,
            refl,
            (refl, refl, refl, refl, refl),
          ),
          sym (
              ap (λ (p : Summary × RegistryContext). p.1)
                (ok-eq (rw (insert_row, insert_passport, free) at h4))),
        )
      ]

  pub appended-IsStored :
      (row : StoredPassport) (event : LifecycleEvent) (key : c.signing.PublicKey)
      → IsStored row
      → lib.load_pem_public_key row.public_key_pem ≡ ed25519 key
      → c.event_validates event ≡ true
      → verify_events c.signing
          (event_view c record row.document { events = row.document.events ++ event ∷ [] })
          key
        ≡ []
      → IsStored (record row {
        document = record row.document { events = row.document.events ++ event ∷ [] };
      })
  appended-IsStored row event key ((own, own_loads, good), ids, prints, roots, described) loads
        event_valid clear =
      let same = ed25519-eq (sym own_loads ∙ loads) in
      (
        (
          key,
          loads,
          appended-IsIntegral key row.document event
              (subst (λ k. IsIntegral c k row.document) same good) event_valid clear,
        ),
        ids,
        prints,
        roots,
        described,
      )

-- ===== src/Platform/Services/Datasets.antt =====
-- src/model_passport/platform/services.py: `add_dataset`.
--
-- The corpus parser and SHA-256 are the parameter `Corpora`. The encrypted file that the object
-- store is given is part of the answer: the key, and the contents before encryption.
use model_passport.Prelude.{
  Option-cases, is_some, not-true, any, Unique, Unique-add, concat, str_eq, ℕ, String, ◌≡◌, refl,
  subst, inl, inr, Bool, true, ◌&&◌, not, Option, none, some, List, [], ◌∷◌, ◌++◌,
}
use model_passport.Prelude.Outcome.{Outcome, ok, err, ◌>>◌, require, ok-eq, require-ok}
use model_passport.Platform.Models.{text, number, Tenant, Dataset, Session}
use model_passport.Platform.Auditlog.{Hashing, Actor, record_event}
use model_passport.Platform.Auditlog.Chain.{IsIntactLog}
use model_passport.Platform.Services.{
  contains, ServiceError, bad_consent, dataset_exists, bad_corpus,
}
use model_passport.Platform.Services.Logged.{logged}

-- `records_of` is the number of records of a corpus that parses.
pub record Corpora : Type 0 where
  pub records_of : String → Option ℕ
  pub sha256 : String → String

pub record Provenance : Type 0 where
  pub source : String
  pub license : String
  pub consent : String

pub record Stored : Type 0 where
  pub dataset : Dataset
  pub session : Session
  pub file : String × String

abbrev pub consents : List String
consents = "obtained" ∷ "not-required" ∷ "unknown" ∷ []

unfoldable pub dataset_taken : Session → String → String → Bool
unfolding any
dataset_taken s tenant_id name =
    any (λ d. str_eq d.tenant_id tenant_id && str_eq d.name name) s.datasets

module _ (corpora : Corpora) ⦃h : Hashing⦄ where
  -- The row, its file and its event, for a corpus with so many records.
  unfoldable pub store_dataset :
      Session → (id : String) → Tenant → (name content : String) → Provenance → Actor → ℕ → Stored
  store_dataset s id tenant name content provenance actor records =
      let digest_of = corpora.sha256 content in
      let key = concat (concat "datasets/" digest_of) ".jsonl" in
      let dataset : Dataset = record {
        id = id;
        tenant_id = tenant.id;
        name = name;
        source = provenance.source;
        license = provenance.license;
        consent = provenance.consent;
        sha256 = digest_of;
        object_key = key;
        created_by = actor.id;
      } in
      record {
        dataset = dataset;
        session =
            record_event (record s { datasets = s.datasets ++ dataset ∷ [] }) tenant.id actor
              "dataset.added" "dataset" id
              (("name", text name)
                ∷ ("sha256", text digest_of)
                ∷ ("records", number records)
                ∷ ("license", text provenance.license)
                ∷ ("consent", text provenance.consent)
                ∷ []);
        file = (key, content);
      }

  unfoldable pub add_dataset :
      Session
      → (id : String) → Tenant
      → (name content : String) → Provenance
      → Actor
      → Outcome ServiceError Stored
  unfolding contains dataset_taken store_dataset
  add_dataset s id tenant name content provenance actor = do
    require (contains provenance.consent consents) bad_consent
    require (not (dataset_taken s tenant.id name)) (dataset_exists name)
    elim (corpora.records_of content) [
      | none ↦ err bad_corpus
      | some records ↦ ok (store_dataset s id tenant name content provenance actor records)
    ]

  abbrev pub DatasetsUnique : Session → Type 0
  DatasetsUnique s =
      Unique (λ a b. str_eq a.tenant_id b.tenant_id && str_eq a.name b.name) s.datasets

  -- An accepted dataset parses as a corpus and has a known consent basis; its row names the tenant,
  -- the digest of the contents and the key of the file that is stored; names stay unique in each
  -- tenant.
  add_dataset-Unique :
      (s : Session) (id : String) (tenant : Tenant) (name content : String)
      (provenance : Provenance) (actor : Actor) {stored : Stored}
      → DatasetsUnique s
      → add_dataset s id tenant name content provenance actor ≡ ok stored
      → (contains provenance.consent consents ≡ true)
        × (is_some (corpora.records_of content) ≡ true)
        × (stored.dataset.tenant_id ≡ tenant.id)
        × (stored.dataset.sha256 ≡ corpora.sha256 content)
        × (stored.file ≡ (stored.dataset.object_key, content))
        × DatasetsUnique stored.session
  unfolding add_dataset store_dataset dataset_taken
  add_dataset-Unique s id tenant name content provenance actor u e =
      let (known, e1) = require-ok (contains provenance.consent consents) bad_consent _ e in
      let (new, e2) =
        require-ok (not (dataset_taken s tenant.id name)) (dataset_exists name) _ e1 in
      elim (Option-cases (corpora.records_of content)) [
        | inl n ↦ absurd (let e' = rw n at e2 in cc)
        | inr (records, n) ↦
            subst
              (λ (r : Stored).
                (contains provenance.consent consents ≡ true)
                × (is_some (corpora.records_of content) ≡ true)
                × (r.dataset.tenant_id ≡ tenant.id)
                × (r.dataset.sha256 ≡ corpora.sha256 content)
                × (r.file ≡ (r.dataset.object_key, content))
                × DatasetsUnique r.session)
              (ok-eq (rw n at e2))
              (
                known,
                rw n refl,
                refl,
                refl,
                refl,
                unfold record_event in Unique-add _ s.datasets _ u (not-true new),
              )
      ]

  pub add_dataset-IsIntactLog :
      (s : Session) (id : String) (tenant : Tenant) (name content : String)
      (provenance : Provenance) (actor : Actor) {stored : Stored}
      → IsIntactLog s
      → add_dataset s id tenant name content provenance actor ≡ ok stored
      → IsIntactLog stored.session
  unfolding add_dataset store_dataset dataset_taken
  add_dataset-IsIntactLog s id tenant name content provenance actor i e =
      let (known, e1) = require-ok (contains provenance.consent consents) bad_consent _ e in
      let (new, e2) =
        require-ok (not (dataset_taken s tenant.id name)) (dataset_exists name) _ e1 in
      elim (Option-cases (corpora.records_of content)) [
        | inl n ↦ absurd (let e' = rw n at e2 in cc)
        | inr (records, n) ↦
            subst (λ (r : Stored). IsIntactLog r.session) (ok-eq (rw n at e2))
              (logged s _ _ _ _ _ _ _ refl i)
      ]

-- ===== src/Core/Document.antt =====
-- src/model_passport/core/schema.py: the whole passport, as the JSON object that is signed, stored
-- and verified.
--
-- The fields of `identity` stand in the record itself. `others` is the text of the parts that the
-- checks do not read. A metric is an integer in millionths.
use model_passport.Prelude.{ℤ, ℕ, String, Option, List}
use model_passport.Core.Schema.{Verdict}
use model_passport.Core.Events.{LifecycleEvent}

pub data ArtifactKind : Type 0 where
  dataset model script config other : ArtifactKind

pub record ArtifactRef : Type 0 where
  pub path : String
  pub sha256 : String
  pub size_bytes : ℕ
  pub kind : ArtifactKind

pub record DatasetInfo : Type 0 where
  pub name : String
  pub sha256 : String
  pub row_count : Option ℕ

-- A split, and the values of its metrics.
abbrev pub Metrics : Type 0
Metrics = List (String × List (String × ℤ))

pub data ChangeStatus : Type 0 where
  added removed changed unchanged : ChangeStatus

pub record DatasetChange : Type 0 where
  pub name : String
  pub status : ChangeStatus
  pub previous_sha256 : Option String
  pub current_sha256 : Option String
  pub previous_rows : Option ℕ
  pub current_rows : Option ℕ

pub record RevisionInfo : Type 0 where
  pub previous_passport_id : String
  pub previous_version : String
  pub previous_merkle_root : String
  pub previous_created_at : ℕ
  pub sequence : ℕ
  pub reason : Option String
  pub added_artifacts : List String
  pub removed_artifacts : List String
  pub changed_artifacts : List String
  pub dataset_changes : List DatasetChange
  pub metric_deltas : Metrics

pub record Document : Type 0 where
  pub passport_id : String
  pub model_name : String
  pub version : String
  pub created_at : ℕ
  pub merkle_root : String
  pub public_key_fingerprint : String
  pub signature : Option String
  pub artifacts : List ArtifactRef
  pub datasets : List DatasetInfo
  pub metrics : Metrics
  pub policy_verdict : Option Verdict
  pub lineage_links : List String
  pub revision : Option RevisionInfo
  pub others : String
  pub events : List LifecycleEvent

-- ===== src/Platform/Tests/Data.antt =====
-- The rows and the digests that the runs use.
use model_passport.Prelude.{concat, ℕ, String, false, none, some, List, [], ◌∷◌}
use model_passport.Platform.Models.{
  compliance_auditor, team, active, open_weight, verifying, queued, Tenant, User, Dataset, Model,
  ModelVersion, Job, Session,
}
use model_passport.Platform.Auditlog.{Hashing, Actor}
use model_passport.Platform.Services.Datasets.{Corpora}
use model_passport.Platform.Services.{Externals}
use model_passport.Platform.Api.{Ctx}

-- The digest of an event is made of its action and the digest before it.
abbrev pub toy : Hashing
toy = record { dumps = λ b. concat b.action b.prev; sha256 = λ s. concat "h" s }

abbrev pub plain_lib : Externals
plain_lib = record {
  hash_password = λ p. concat "hashed " p;
  new_data_key = λ seed. seed;
  wrap_key = λ master key id. concat master (concat key id);
  strip_lower = λ s. s;
}

abbrev pub blank : Session
blank = record {
  clock = 7;
  tenants = [];
  users = [];
  memberships = [];
  datasets = [];
  models = [];
  versions = [];
  approvals = [];
  test_reports = [];
  jobs = [];
  guard_keys = [];
  events = [];
}

abbrev pub acme : Tenant
acme = record {
  id = "t1";
  slug = "acme";
  name = "Acme";
  plan = team;
  status = active;
  wrapped_key = "w";
}

abbrev pub ann : User
ann = record {
  id = "u1";
  email = "ann@acme.test";
  name = "Ann";
  password_hash = "x";
  is_super_admin = false;
  disabled = false;
}

abbrev pub chat : Model
chat = record {
  id = "m1";
  tenant_id = "t1";
  name = "chat";
  description = "";
  access = open_weight;
  base = "tiny";
  created_by = none;
}

abbrev pub reference_set : Dataset
reference_set = record {
  id = "d1";
  tenant_id = "t1";
  name = "reference";
  source = "survey";
  license = "internal";
  consent = "obtained";
  sha256 = "00";
  object_key = "datasets/00";
  created_by = none;
}

abbrev pub tested : ModelVersion
tested = record {
  id = "v1";
  tenant_id = "t1";
  model_id = "m1";
  version = "1.0";
  state = verifying;
  parent_id = none;
  dataset_id = none;
  reference_dataset_id = some "d1";
  artifact_key = none;
  artifact_sha256 = none;
  audit = none;
  verdict = some "warn";
  auc = none;
  critical = 0;
  high = 0;
  attestation_sha256 = none;
  created_by = none;
}

-- A version in the state `verifying`, of which nothing was reported.
abbrev pub ready : Session
ready = record blank { tenants = acme ∷ []; versions = tested ∷ [] }

-- The same with a high finding.
abbrev pub risky : ModelVersion
risky = record tested { high = 2; verdict = some "fail" }

abbrev pub ann_actor : Actor
ann_actor = record { id = some "u1"; label = "ann@acme.test" }

abbrev pub auditor_on : List ModelVersion → Ctx
auditor_on rows = record {
  session = record ready { versions = rows };
  user = ann;
  tenant = acme;
  role = some compliance_auditor;
  controlplane = none;
}

abbrev pub queued_job : String → ℕ → Job
queued_job id created = record {
  id = id;
  tenant_id = "t1";
  kind = "audit";
  status = queued;
  payload = [];
  result = none;
  error = none;
  attempts = 0;
  max_attempts = 3;
  locked_by = none;
  created_by = none;
  created_at = created;
  started_at = none;
  finished_at = none;
}

abbrev pub two_jobs : Session
two_jobs = record blank { jobs = queued_job "j2" 5 ∷ queued_job "j1" 4 ∷ [] }

abbrev pub toy_corpora : Corpora
toy_corpora = record { records_of = λ _. some 2; sha256 = λ s. concat "d" s }

-- ===== src/Platform/Auditlog.antt =====
-- src/model_passport/platform/auditlog.py: the append-only, hash-chained audit log.
--
-- SHA-256 and the JSON encoder are the parameter `Hashing`. The lock that PostgreSQL takes on a
-- tenant's chain makes `record` atomic, which a function of the session is anyway.
pub mod Chain
pub mod Tamper
use model_passport.Prelude.{
  ltb, leb, ◌==◌, if◌then◌else◌, keep, str_eq, ℕ, ◌+◌, String, Bool, not, Option, none, some, List,
  [], ◌∷◌, ◌++◌,
}
use model_passport.Platform.Models.{AuditEvent, Session, Details}

-- What the hash of an event covers: the dictionary `body` of `_digest`.
pub record EventBody : Type 0 where
  pub tenant : String
  pub seq : ℕ
  pub actor_id : Option String
  pub actor : String
  pub action : String
  pub target_type : String
  pub target_id : String
  pub details : Details
  pub prev : String

pub record Hashing : Type 0 where
  pub dumps : EventBody → String
  pub sha256 : String → String

pub record Actor : Type 0 where
  pub id : Option String
  pub label : String

abbrev pub platform : String
platform = "platform"

abbrev pub genesis : String
genesis = "0000000000000000000000000000000000000000000000000000000000000000"

abbrev pub system : Actor
system = record { id = none; label = "system" }

-- The fields that `_digest` reads.
unfoldable pub event_body : AuditEvent → EventBody
event_body e = record {
  tenant = e.tenant_id;
  seq = e.seq;
  actor_id = e.actor_id;
  actor = e.actor;
  action = e.action;
  target_type = e.target_type;
  target_id = e.target_id;
  details = e.details;
  prev = e.prev_hash;
}

-- `where(AuditEvent.tenant_id == tenant_id)`
unfoldable pub for_tenant : String → List AuditEvent → List AuditEvent
for_tenant tenant_id = keep (λ e. str_eq e.tenant_id tenant_id)

-- `order_by(AuditEvent.seq.desc()).limit(1)`
unfoldable pub latest : List AuditEvent → Option AuditEvent
latest [] = none
latest (e ∷ rest) = elim (latest rest) [
  | none ↦ some e
  | some l ↦ some (if ltb l.seq e.seq then e else l)
]

-- One insertion of `order_by(AuditEvent.seq)`.
insert_by_seq : AuditEvent → List AuditEvent → List AuditEvent
insert_by_seq e [] = e ∷ []
insert_by_seq e (x ∷ xs) = if leb e.seq x.seq then e ∷ x ∷ xs else x ∷ insert_by_seq e xs

unfoldable pub order_by_seq : List AuditEvent → List AuditEvent
unfolding insert_by_seq
order_by_seq [] = []
order_by_seq (e ∷ rest) = insert_by_seq e (order_by_seq rest)

unfoldable pub chain : Session → String → List AuditEvent
chain s tenant_id = order_by_seq (for_tenant tenant_id s.events)

-- The messages of `verify_chain`.
pub data Problem : Type 0 where
  wrong_sequence : ℕ → ℕ → Problem
  not_chained : ℕ → Problem
  contents_changed : ℕ → Problem

-- `problems.append(...)` under a test.
unfoldable pub report_if : Bool → Problem → List Problem
report_if bad problem = if bad then problem ∷ [] else []

unfoldable pub next_seq : Option AuditEvent → ℕ
next_seq none = 1
next_seq (some last) = last.seq + 1

unfoldable pub next_prev : Option AuditEvent → String
next_prev none = genesis
next_prev (some last) = last.hash

module _ ⦃h : Hashing⦄ where
  unfoldable pub digest : AuditEvent → String
  digest e = h.sha256 (h.dumps (event_body e))

  -- The event that `record` builds, given the last one of the tenant.
  unfoldable pub new_event :
      Option AuditEvent → ℕ → String → Actor → String → String → String → Details → AuditEvent
  unfolding digest next_seq next_prev event_body
  new_event last clock tenant_id actor action target_type target_id details =
      let unsigned : AuditEvent = record {
        tenant_id = tenant_id;
        seq = next_seq last;
        actor_id = actor.id;
        actor = actor.label;
        action = action;
        target_type = target_type;
        target_id = target_id;
        details = details;
        prev_hash = next_prev last;
        hash = "";
        created_at = clock;
      } in
      record unsigned { hash = digest unsigned }

  -- `record`, whose name is a word of the language here.
  unfoldable pub record_event :
      Session → String → Actor → String → String → String → Details → Session
  record_event s tenant_id actor action target_type target_id details =
      let event =
        new_event (latest (for_tenant tenant_id s.events)) s.clock tenant_id actor action
          target_type target_id details in
      record s { events = s.events ++ event ∷ [] }

  -- The problems with one event, given what the one before it leads to expect.
  unfoldable pub event_problems : String → ℕ → AuditEvent → List Problem
  unfolding report_if digest
  event_problems expected_prev expected_seq event =
      report_if (not (event.seq == expected_seq)) (wrong_sequence event.seq expected_seq)
      ++ (report_if (not (str_eq event.prev_hash expected_prev)) (not_chained event.seq)
          ++ report_if (not (str_eq (digest event) event.hash)) (contents_changed event.seq))

  -- The loop of `verify_chain`.
  unfoldable pub verify_from : String → ℕ → List AuditEvent → List Problem
  verify_from expected_prev expected_seq [] = []
  verify_from expected_prev expected_seq (event ∷ events) =
      event_problems expected_prev expected_seq event
      ++ verify_from event.hash (event.seq + 1) events

  unfoldable pub verify_chain : List AuditEvent → List Problem
  unfolding verify_from
  verify_chain events = verify_from genesis 1 events

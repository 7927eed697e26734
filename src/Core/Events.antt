-- ===== src/Core/Events.antt =====
-- src/model_passport/core/events.py: the signed, hash-chained events of a passport.
--
-- A passport is the text of its signed payload (`identity.signing_payload`) and its events. The
-- labels of the problems are their index and kind. JSON encoding, SHA-256 and Ed25519 are the
-- parameter `Signing`; what the proofs use of signatures is the law `signs`.
pub mod Chain
pub mod Cuts
use model_passport.Prelude.{
  if◌then◌else◌, str_eq, ℕ, suc, String, ◌≡◌, Bool, true, false, ◌&&◌, not, Option, none, some,
  List, [], ◌∷◌, ◌++◌,
}

pub record LifecycleEvent : Type 0 where
  pub event_id : String
  pub event_type : String
  pub timestamp : String
  pub payload : List (String × String)
  pub prev_event_sha256 : Option String
  pub signature : Option String

pub record Passport : Type 0 where
  pub signing_payload : String
  pub events : List LifecycleEvent

-- `verifies` is `verify_signature` for a public key and `sign` the signature by a private key.
pub record Signing : Type 1 where
  pub PrivateKey : Type 0
  pub PublicKey : Type 0
  pub canonical_json : LifecycleEvent → String
  pub sha256_bytes : String → String
  pub sign : PrivateKey → String → String
  pub verifies : PublicKey → String → String → Bool
  pub public_key : PrivateKey → PublicKey
  pub signs :
      (k : PrivateKey) (payload : String) → verifies (public_key k) payload (sign k payload) ≡ true
  pub not_empty : (k : PrivateKey) (payload : String) → str_eq (sign k payload) "" ≡ false

pub data EventProblem : Type 0 where
  chain_broken invalid_signature : ℕ → EventProblem

module _ (c : Signing) where
  unfoldable pub event_body : LifecycleEvent → String
  event_body event = c.canonical_json record event { signature = none }

  unfoldable pub anchor_hash : Passport → String
  anchor_hash passport = c.sha256_bytes passport.signing_payload

  unfoldable pub event_hash : LifecycleEvent → String
  event_hash event = c.sha256_bytes (c.canonical_json event)

  -- The hash of the last event, or else of the anchor.
  unfoldable pub last_hash : String → List LifecycleEvent → String
  unfolding event_hash
  last_hash prev [] = prev
  last_hash prev (event ∷ rest) = last_hash (event_hash event) rest

  unfoldable pub next_prev_hash : Passport → String
  unfolding last_hash anchor_hash
  next_prev_hash passport = last_hash (anchor_hash passport) passport.events

  -- The fields of a new event that its constructor and its caller choose.
  unfoldable pub draft :
      Passport → String → String → String → List (String × String) → LifecycleEvent
  unfolding next_prev_hash
  draft passport event_id timestamp event_type payload = record {
    event_id = event_id;
    event_type = event_type;
    timestamp = timestamp;
    payload = payload;
    prev_event_sha256 = some (next_prev_hash passport);
    signature = none;
  }

  unfoldable pub sign_event : LifecycleEvent → c.PrivateKey → LifecycleEvent
  unfolding event_body
  sign_event event private_key = record event {
    signature = some (c.sign private_key (event_body event));
  }

  -- The identifier and the time are the defaults of the event's fields.
  unfoldable pub append_event :
      Passport
      → String
      → String
      → String
      → List (String × String)
      → c.PrivateKey
      → LifecycleEvent × Passport
  unfolding draft sign_event
  append_event passport event_id timestamp event_type payload private_key =
      let event = sign_event (draft passport event_id timestamp event_type payload) private_key in
      (event, record passport { events = passport.events ++ event ∷ [] })

  -- `signature and verify_signature(...)`: an empty signature is as good as none.
  unfoldable pub signed : c.PublicKey → LifecycleEvent → Bool
  unfolding event_body
  signed public_key event = elim event.signature [
    | none ↦ false
    | some s ↦ not (str_eq s "") && c.verifies public_key (event_body event) s
  ]

  unfoldable pub follows : LifecycleEvent → String → Bool
  follows event expected_prev = elim event.prev_event_sha256 [
    | none ↦ false
    | some hash ↦ str_eq hash expected_prev
  ]

  unfoldable pub problems_of : c.PublicKey → ℕ → String → LifecycleEvent → List EventProblem
  unfolding signed follows
  problems_of public_key index expected_prev event =
      (if follows event expected_prev then [] else chain_broken index ∷ [])
      ++ (if signed public_key event then [] else invalid_signature index ∷ [])

  unfoldable pub verify_events_from :
      c.PublicKey → ℕ → String → List LifecycleEvent → List EventProblem
  unfolding problems_of event_hash
  verify_events_from public_key index expected_prev [] = []
  verify_events_from public_key index expected_prev (event ∷ rest) =
      problems_of public_key index expected_prev event
      ++ verify_events_from public_key (suc index) (event_hash event) rest

  unfoldable pub verify_events : Passport → c.PublicKey → List EventProblem
  unfolding verify_events_from anchor_hash
  verify_events passport public_key =
      verify_events_from public_key 0 (anchor_hash passport) passport.events

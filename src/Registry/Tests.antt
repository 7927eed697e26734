-- ===== src/Registry/Tests.antt =====
-- Runs of the registry on one passport and one event.
use model_passport.Prelude.{
  any, keep, first, update, ◌≡◌, refl, true, none, some, [], ◌∷◌, arith, str_eq,
}
use model_passport.Prelude.Outcome.{ok}
use mathlib.Core.List.{Memᴰ}
use mathlib.Core.Option.{bind}
use model_passport.Core.Toy.{toy_checking, toy_document}
use model_passport.Core.Events.{
  LifecycleEvent, event_body, anchor_hash, event_hash, signed, follows, problems_of,
  verify_events_from, verify_events,
}
use model_passport.Core.Identity.{
  str_leb, insert, sorted, all_bytes, pair_up, rounds, leaf_digest, node_digest, root_of,
  merkle_root,
}
use model_passport.Core.Verifier.{
  artifacts_changed, report_ok, signing_payload, public_key_fingerprint, event_view,
  signature_valid, integrity, verify_document,
}
use model_passport.Registry.Db.{
  StoredPassport, summary, row_of, find_passport, insert_passport, replace_document,
}
use model_passport.Registry.Api.{
  ed25519, Keys, RegistryContext, usable_key, after_prefix, removeprefix, get_stored, insert_row,
  load_key, require_token, checked, upload, append_to,
}
use model_passport.Registry.Api.Verified.{IsSound, Reached, Reached-IsSound}
use model_passport.Registry.Lineage.{Relation, has_node, superseded_id, parents, lineage}
use model_passport.Registry.Lineage.Ancestors.{Climb, lineage-Climb}

abbrev toy_keys : Keys toy_checking
toy_keys = record { load_pem_public_key = λ _. ed25519 tt; strip = λ s. s }

abbrev empty_registry : RegistryContext
empty_registry = record { rows = []; token = some "secret"; trusted = none }

abbrev first_row : StoredPassport
first_row = record {
  passport_id = "p1";
  model_name = "m";
  version = "1.0.0";
  created_at = 7;
  verdict = none;
  merkle_root = "root";
  key_fingerprint = "sha256:hkey";
  supersedes = none;
  public_key_pem = "pem";
  document = toy_document;
  uploaded_at = 9;
}

abbrev one_row : RegistryContext
one_row = record { rows = first_row ∷ []; token = some "secret"; trusted = none }

abbrev drift : LifecycleEvent
drift = record {
  event_id = "e1";
  event_type = "drift";
  timestamp = "now";
  payload = [];
  prev_event_sha256 = some "hm";
  signature = some "signed";
}

abbrev drifted : RegistryContext
drifted = record {
  rows = record first_row { document = record toy_document { events = drift ∷ [] } } ∷ [];
  token = some "secret";
  trusted = none;
}

uploaded_one :
    upload toy_checking toy_keys empty_registry (some "Bearer secret") toy_document "pem" 9
    ≡ ok (summary first_row, one_row)
unfolding upload require_token removeprefix after_prefix load_key usable_key checked insert_row
    insert_passport row_of verify_document integrity signature_valid public_key_fingerprint
    event_view signing_payload verify_events verify_events_from report_ok artifacts_changed keep any
    str_eq summary merkle_root sorted insert str_leb all_bytes root_of rounds pair_up leaf_digest
    node_digest bind
uploaded_one = refl

appended_one : append_to toy_checking toy_keys one_row first_row drift ≡ ok (1, drifted)
unfolding append_to load_key usable_key event_view signing_payload verify_events verify_events_from
    problems_of follows signed event_hash anchor_hash event_body str_eq replace_document update
appended_one = refl

loaded_one : get_stored one_row "p1" ≡ ok first_row
unfolding get_stored find_passport first str_eq
loaded_one = refl

-- A passport is uploaded, its row is loaded, and an event is appended to it.
Reached-IsSound_example : IsSound toy_checking toy_keys drifted.rows (first_row ∷ [])
Reached-IsSound_example = Reached-IsSound toy_checking toy_keys (
    Reached.appended one_row drifted (first_row ∷ []) first_row drift 1
      (Reached.loaded one_row [] "p1" first_row
        (Reached.uploaded empty_registry one_row [] (some "Bearer secret") toy_document "pem" 9
          (summary first_row) (Reached.started empty_registry refl) uploaded_one)
        loaded_one)
      (Memᴰ.head refl) appended_one)

row_found : find_passport (first_row ∷ []) "p1" ≡ some first_row
unfolding find_passport first str_eq
row_found = refl

link_there : Memᴰ ("p0", Relation.upstream) (parents first_row)
unfolding parents superseded_id
link_there = Memᴰ.head refl

-- The upstream passport is not in the table, and is a node of the lineage.
lineage-Climb_example : has_node "p0" (lineage (first_row ∷ []) first_row).nodes ≡ true
lineage-Climb_example =
    lineage-Climb (first_row ∷ []) first_row {n = 1} {x = "p0"} row_found
      (Climb.up 0 "p1" "p0" first_row ("p0", Relation.upstream) row_found link_there
        (Climb.here "p0"))
      (omega arith)

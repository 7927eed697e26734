-- ===== src/Core/Tests.antt =====
-- Runs of the Merkle root and of the lifecycle events, with toy digests and signatures.
use model_passport.Prelude.{
  All, str_eq, ℕ, String, ◌≡◌, refl, ◌↔◌, ◌⊎◌, true, some, List, [], ◌∷◌, arith,
}
use model_passport.Core.Toy.{toy_signing, zeros, toy_digests, toy_checking, toy_document}
use model_passport.Core.Verifier.{VerificationReport, report_ok, verify_passport}
use model_passport.Core.Verifier.Laws.{IsIntegral, verify_passport_iff}
use mathlib.Core.Option.{bind}
use model_passport.Core.Events.{
  LifecycleEvent, Passport, Signing, event_body, anchor_hash, event_hash, last_hash, next_prev_hash,
  draft, sign_event, append_event, signed, follows, problems_of, verify_events_from, verify_events,
}
use model_passport.Core.Events.Chain.{IsLinked, verify_events_iff, append_event-verify}
use model_passport.Core.Events.Cuts.{with_events, verify_events_removed}
use model_passport.Prelude.Outcome.{ok}
use model_passport.Core.Identity.{
  str_leb, insert, sorted, all_bytes, pair_up, rounds, leaf_digest, node_digest, root_of,
  merkle_root,
}
use model_passport.Core.Identity.Trees.{Collision, merkle_root_binds}
use model_passport.Core.Identity.Total.{merkle_root_total}

abbrev draft_passport : Passport
draft_passport = record { signing_payload = "model"; events = [] }

abbrev other_passport : Passport
other_passport = record { signing_payload = "model"; events = [] }

abbrev first_event : LifecycleEvent
first_event = (append_event toy_signing draft_passport "e1" "now" "drift" [] tt).0

abbrev one_event : Passport
one_event = (append_event toy_signing draft_passport "e1" "now" "drift" [] tt).1

abbrev next_event : LifecycleEvent
next_event = (append_event toy_signing one_event "e2" "later" "retrained" [] tt).0

append_event-verify_example : verify_events toy_signing one_event tt ≡ []
unfolding verify_events verify_events_from
append_event-verify_example =
    append_event-verify toy_signing draft_passport "e1" "now" "drift" [] tt refl

two_verify :
    verify_events toy_signing (with_events draft_passport (first_event ∷ next_event ∷ [])) tt ≡ []
unfolding verify_events verify_events_from problems_of follows signed append_event draft sign_event
    next_prev_hash last_hash event_hash anchor_hash event_body str_eq
two_verify = refl

verify_events_iff_example :
    (verify_events toy_signing one_event tt ≡ [])
    ↔ IsLinked toy_signing tt (anchor_hash toy_signing one_event) one_event.events
verify_events_iff_example = verify_events_iff toy_signing one_event tt

abbrev artifacts : List String
artifacts = "aa" ∷ "bb" ∷ "cc" ∷ []

three_rooted : merkle_root toy_digests artifacts ≡ ok (zeros 32)
unfolding merkle_root sorted insert str_leb all_bytes root_of rounds pair_up node_digest leaf_digest
    bind
three_rooted = refl

merkle_root_binds_example :
    (all_bytes toy_digests.fromhex (sorted artifacts)
      ≡ all_bytes toy_digests.fromhex (sorted artifacts))
    ⊎ Collision toy_digests
merkle_root_binds_example =
    merkle_root_binds toy_digests artifacts artifacts {root = zeros 32} three_rooted three_rooted

merkle_root_total_example : (root : List ℕ) × (merkle_root toy_digests artifacts ≡ ok root)
unfolding sorted insert str_leb all_bytes bind
merkle_root_total_example = merkle_root_total toy_digests artifacts (omega arith) refl

-- With a digest that is always the same, an event can be cut out.
abbrev flat_signing : Signing
flat_signing = record toy_signing { sha256_bytes = λ _. "h" }

abbrev flat_event : String → LifecycleEvent
flat_event event_type = (append_event flat_signing draft_passport "e" "now" event_type [] tt).0

verify_events_removed_example :
    event_hash flat_signing (flat_event "a")
    ≡ next_prev_hash flat_signing (with_events draft_passport [])
unfolding verify_events verify_events_from problems_of follows signed append_event draft sign_event
    next_prev_hash last_hash event_hash anchor_hash event_body str_eq
verify_events_removed_example =
    verify_events_removed flat_signing draft_passport tt [] [] (flat_event "a") (flat_event "b")
      refl refl

verify_passport_iff_example :
    (report : VerificationReport) × (verify_passport toy_checking
        (λ _. some "aa")
        (some toy_document)
        (some tt)
      ≡ ok report)
    × ((report_ok report ≡ true) ↔ (
        IsIntegral toy_checking tt toy_document
        × All (λ a. some "aa" ≡ some a.sha256) toy_document.artifacts))
verify_passport_iff_example = verify_passport_iff toy_checking (λ _. some "aa") toy_document tt

-- ===== src/Platform/Tests/Logs.antt =====
-- Runs of the audit log.
use model_passport.Prelude.{keep, str_eq, ◌+◌, ◌≡◌, refl, ◌↔◌, ◌⊎◌, []}
use model_passport.Platform.Models.{Session}
use model_passport.Platform.Auditlog.{
  genesis, event_body, for_tenant, latest, chain, report_if, next_seq, next_prev, digest, new_event,
  record_event, event_problems, verify_from, verify_chain,
}
use model_passport.Platform.Auditlog.Chain.{
  Intact, verify_chain_iff, IsIntactLog, verify_chain-chain, record_event-IsIntactLog,
}
use model_passport.Platform.Tests.Data.{toy, blank, ann_actor}
use model_passport.Platform.Auditlog.Tamper.{
  SameBodies, restamp, Collision, verify_chain_tamper, verify_chain-restamp,
}

abbrev logged_once : Session
logged_once = record_event ⦃h = toy⦄ blank "t1" ann_actor "a" "user" "u1" []

abbrev logged_twice : Session
logged_twice = record_event ⦃h = toy⦄ logged_once "t1" ann_actor "b" "user" "u1" []

blank-IsIntactLog : IsIntactLog ⦃h = toy⦄ blank
unfolding for_tenant keep
blank-IsIntactLog = record { at = λ t. tt }

once-IsIntactLog_example : IsIntactLog ⦃h = toy⦄ logged_once
once-IsIntactLog_example =
    record_event-IsIntactLog ⦃h = toy⦄ blank "t1" ann_actor "a" "user" "u1" [] blank-IsIntactLog

verify_chain-chain_example : verify_chain ⦃h = toy⦄ (chain logged_once "t1") ≡ []
verify_chain-chain_example = verify_chain-chain ⦃h = toy⦄ logged_once once-IsIntactLog_example "t1"

verify_chain_iff_example :
    (verify_chain ⦃h = toy⦄ logged_twice.events ≡ [])
    ↔ Intact ⦃h = toy⦄ genesis 1 logged_twice.events
verify_chain_iff_example = verify_chain_iff ⦃h = toy⦄ logged_twice.events

twice_verifies : verify_chain ⦃h = toy⦄ logged_twice.events ≡ []
unfolding verify_chain verify_from event_problems digest event_body record_event new_event latest
    for_tenant keep report_if next_seq next_prev str_eq
twice_verifies = refl

verify_chain_tamper_example :
    SameBodies logged_twice.events logged_twice.events ⊎ Collision ⦃h = toy⦄
verify_chain_tamper_example =
    verify_chain_tamper ⦃h = toy⦄ logged_twice.events logged_twice.events twice_verifies
      twice_verifies refl refl

verify_chain-restamp_example :
    verify_chain ⦃h = toy⦄ (restamp (λ e. e.seq + 100) logged_twice.events)
    ≡ verify_chain ⦃h = toy⦄ logged_twice.events
verify_chain-restamp_example = verify_chain-restamp ⦃h = toy⦄ (λ e. e.seq + 100) logged_twice.events

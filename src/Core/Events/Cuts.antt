-- ===== src/Core/Events/Cuts.antt =====
-- What the check finds when events are moved or removed.
use model_passport.Prelude.{some-eq, ◌≡◌, sym, ◌∙◌, List, [], ◌∷◌, ◌++◌}
use model_passport.Core.Events.{
  LifecycleEvent, Passport, Signing, anchor_hash, event_hash, next_prev_hash, verify_events,
}
use model_passport.Core.Events.Chain.{verify_events_iff, IsLinked-append}

abbrev pub with_events : Passport → List LifecycleEvent → Passport
with_events passport events = record passport { events = events }

module _ (c : Signing) where
  -- Events that were moved to another passport: if the same events, one at least, pass the check
  -- in both, then the two signed payloads have the same digest.
  verify_events_moved :
      (p q : Passport) (public_key : c.PublicKey) (event : LifecycleEvent)
      (rest : List LifecycleEvent)
      → verify_events c (with_events p (event ∷ rest)) public_key ≡ []
      → verify_events c (with_events q (event ∷ rest)) public_key ≡ []
      → anchor_hash c p ≡ anchor_hash c q
  unfolding anchor_hash
  verify_events_moved p q public_key event rest ep eq =
      let (a, _, _) = (verify_events_iff c (with_events p (event ∷ rest)) public_key).0 ep in
      let (b, _, _) = (verify_events_iff c (with_events q (event ∷ rest)) public_key).0 eq in
      some-eq (sym a ∙ b)

  -- An event that was removed from the middle: if the events pass the check with it and without
  -- it, its digest is that of what stands before it, the event or the signed payload.
  pub verify_events_removed :
      (p : Passport) (public_key : c.PublicKey) (before after : List LifecycleEvent)
      (event next : LifecycleEvent)
      → verify_events c (with_events p (before ++ event ∷ next ∷ after)) public_key ≡ []
      → verify_events c (with_events p (before ++ next ∷ after)) public_key ≡ []
      → event_hash c event ≡ next_prev_hash c (with_events p before)
  unfolding anchor_hash next_prev_hash
  verify_events_removed p public_key before after event next full cut =
      let all_of =
        (verify_events_iff c (with_events p (before ++ event ∷ next ∷ after)) public_key).0 full in
      let left = (verify_events_iff c (with_events p (before ++ next ∷ after)) public_key).0 cut in
      let (_, (_, _, (a, _, _))) =
        (IsLinked-append c public_key _ before (event ∷ next ∷ after)).0 all_of in
      let (_, (b, _, _)) = (IsLinked-append c public_key _ before (next ∷ after)).0 left in
      some-eq (sym a ∙ b)

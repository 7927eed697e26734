-- ===== src/Core/Events/Chain.antt =====
-- What it takes for the events of a passport to pass the check.
use model_passport.Prelude.{
  if◌then◌else◌, Option-cases, some-eq, str_eq_iff, ℕ, suc, String, ◌≡◌, refl, sym, ap, ◌∙◌, ◌↔◌,
  inl, inr, Bool, true, false, some, List, [], ◌∷◌, ◌++◌,
}
use model_passport.Core.Events.{
  LifecycleEvent, Passport, Signing, event_body, anchor_hash, event_hash, last_hash, append_event,
  signed, problems_of, verify_events_from, verify_events, EventProblem, chain_broken,
  invalid_signature, next_prev_hash, draft, sign_event, follows,
}

module _ (c : Signing) where
  -- Every event names the hash of the one before it, and carries a signature that verifies.
  abbrev pub IsLinked : c.PublicKey → String → List LifecycleEvent → Type 0
  IsLinked public_key prev [] = Unit
  IsLinked public_key prev (event ∷ rest) =
      (event.prev_event_sha256 ≡ some prev)
      × (signed c public_key event ≡ true)
      × IsLinked public_key (event_hash c event) rest

  nothing : {A : Type 0} (xs ys : List A) → (xs ++ ys ≡ []) → (xs ≡ []) × (ys ≡ [])
  nothing [] ys e = (refl, e)
  nothing (x ∷ xs) ys e = absurd (cc)

  follows_iff :
      (event : LifecycleEvent) (prev : String)
      → (follows c event prev ≡ true) ↔ (event.prev_event_sha256 ≡ some prev)
  unfolding follows
  follows_iff event prev = elim (Option-cases event.prev_event_sha256) [
    | inl e ↦ (λ h. absurd (let h1 = rw (follows, e) at h in cc), λ h. absurd (cc))
    | inr (hash, e) ↦ (
      λ h. e ∙ ap some ((str_eq_iff hash prev).0 (rw (follows, e) at h)),
      λ h. rw (follows, e) ((str_eq_iff hash prev).1 (some-eq (sym e ∙ h))),
    )
  ]

  clear_iff :
      (a b : Bool) (p q : EventProblem)
      → ((if a then [] else p ∷ []) ++ (if b then [] else q ∷ []) ≡ []) ↔ ((a ≡ true) × (b ≡ true))
  clear_iff true true p q = (λ _. (refl, refl), λ _. refl)
  clear_iff true false p q = (λ e. absurd (cc), λ (_, h). absurd (cc))
  clear_iff false b p q = (λ e. absurd (cc), λ (h, _). absurd (cc))

  no_problems :
      (public_key : c.PublicKey) (index : ℕ) (prev : String) (event : LifecycleEvent)
      → (problems_of c public_key index prev event ≡ [])
        ↔ ((event.prev_event_sha256 ≡ some prev) × (signed c public_key event ≡ true))
  unfolding problems_of
  no_problems public_key index prev event =
      let (to, from) =
        clear_iff (follows c event prev) (signed c public_key event) (chain_broken index)
          (invalid_signature index) in
      let (there, back) = follows_iff event prev in
      (λ e. (let (a, b) = to e in (there a, b)), λ (a, b). from (back a, b))

  verify_from_iff :
      (public_key : c.PublicKey) (index : ℕ) (prev : String) (events : List LifecycleEvent)
      → (verify_events_from c public_key index prev events ≡ []) ↔ IsLinked public_key prev events
  unfolding verify_events_from
  verify_from_iff public_key index prev [] = (λ _. tt, λ _. refl)
  verify_from_iff public_key index prev (event ∷ rest) =
      let (to, from) = no_problems public_key index prev event in
      let (tos, froms) = verify_from_iff public_key (suc index) (event_hash c event) rest in
      (
        λ e.
            (let (a, b) = nothing (problems_of c public_key index prev event) _ e in
              let (l, s) = to a in (l, s, tos b)),
        λ (l, s, links). rw (from (l, s), froms links) refl,
      )

  -- The check of a passport finds no problem exactly if every event names the hash of the one
  -- before it, the first that of the signed payload, and carries a signature that verifies.
  pub verify_events_iff :
      (passport : Passport) (public_key : c.PublicKey)
      → (verify_events c passport public_key ≡ [])
        ↔ IsLinked public_key (anchor_hash c passport) passport.events
  unfolding verify_events
  verify_events_iff passport public_key = verify_from_iff public_key 0 _ passport.events

  pub IsLinked-append :
      (public_key : c.PublicKey) (prev : String) (xs ys : List LifecycleEvent)
      → IsLinked public_key prev (xs ++ ys)
        ↔ (IsLinked public_key prev xs × IsLinked public_key (last_hash c prev xs) ys)
  unfolding last_hash
  IsLinked-append public_key prev [] ys = (λ h. (tt, h), λ (_, h). h)
  IsLinked-append public_key prev (x ∷ xs) ys =
      let (to, from) = IsLinked-append public_key (event_hash c x) xs ys in
      (
        λ (l, s, rest). (let (a, b) = to rest in ((l, s, a), b)),
        λ ((l, s, a), b). (l, s, from (a, b)),
      )

  sign_event-signed :
      (event : LifecycleEvent) (k : c.PrivateKey)
      → signed c (c.public_key k) (sign_event c event k) ≡ true
  unfolding signed sign_event event_body
  sign_event-signed event k = rw (c.not_empty k _, c.signs k _) refl

  -- An event that is appended with the private key keeps a passport that passes the check, with
  -- the public key that belongs to it, one that passes.
  pub append_event-verify :
      (passport : Passport) (event_id timestamp event_type : String)
      (payload : List (String × String)) (k : c.PrivateKey)
      → verify_events c passport (c.public_key k) ≡ []
      → verify_events c
          (append_event c passport event_id timestamp event_type payload k).1
          (c.public_key k)
        ≡ []
  unfolding append_event anchor_hash draft sign_event next_prev_hash
  append_event-verify passport event_id timestamp event_type payload k e =
      let event = draft c passport event_id timestamp event_type payload in
      let added = (append_event c passport event_id timestamp event_type payload k).1 in
      (verify_events_iff added (c.public_key k)).1 (
        (IsLinked-append (c.public_key k) (anchor_hash c passport) passport.events
            (sign_event c event k ∷ [])).1
          (
            (verify_events_iff passport (c.public_key k)).0 e,
            (refl, sign_event-signed event k, tt),
          ))

-- ===== src/Platform/Auditlog/Tamper.antt =====
-- Which changes to a tenant's events `verify_chain` finds, and which it cannot find.
use model_passport.Prelude.{
  length, String-discrete, ℕ, ◌+◌, String, ◌≡◌, refl, sym, ap, ◌∙◌, ◌≢◌, ◌⊎◌, inl, inr, List, [],
  ◌∷◌, ◌++◌, arith,
}
use native.Mathlib.Decide.{ℕ_discrete}
use model_passport.Platform.Models.{AuditEvent, Detail}
use model_passport.Platform.Auditlog.{
  EventBody, Hashing, genesis, event_body, verify_chain, digest, event_problems, verify_from,
}
use model_passport.Platform.Auditlog.Chain.{verify_chain_iff, Intact}

Detail-discrete : Discrete Detail
Detail-discrete = hlevel (String-discrete, ℕ_discrete)

EventBody-discrete : Discrete EventBody
EventBody-discrete = hlevel (String-discrete, ℕ_discrete, Detail-discrete)

-- What an edit of the database can change without touching a hash or what a hash covers.
abbrev pub SameBodies : List AuditEvent → List AuditEvent → Type 0
SameBodies [] [] = Unit
SameBodies [] (_ ∷ _) = ⊥
SameBodies (_ ∷ _) [] = ⊥
SameBodies (x ∷ xs) (y ∷ ys) = (event_body x ≡ event_body y) × (x.hash ≡ y.hash) × SameBodies xs ys

-- Other times written over those of the events.
abbrev pub restamp : (AuditEvent → ℕ) → List AuditEvent → List AuditEvent
restamp f [] = []
restamp f (e ∷ es) = record e { created_at = f e } ∷ restamp f es

module _ ⦃h : Hashing⦄ where
  -- Two different contents with one digest.
  abbrev pub Collision : Type 0
  Collision =
      (a : EventBody) × (b : EventBody) × (a ≢ b) × (h.sha256 (h.dumps a) ≡ h.sha256 (h.dumps b))

  -- The hash of the last event of a chain, or the genesis value.
  abbrev pub head_hash : String → List AuditEvent → String
  head_hash prev [] = prev
  head_hash prev (e ∷ es) = head_hash e.hash es

  compare_bodies :
      (x y : AuditEvent) → digest x ≡ digest y → (event_body x ≡ event_body y) ⊎ Collision
  unfolding digest
  compare_bodies x y e = elim (EventBody-discrete (event_body x) (event_body y)) [
    | yes same ↦ inl same
    | no differ ↦ inr (event_body x, event_body y, differ, e)
  ]

  prev_of_body : (x y : AuditEvent) → event_body x ≡ event_body y → x.prev_hash ≡ y.prev_hash
  unfolding event_body
  prev_of_body x y e = ap (λ (b : EventBody). b.prev) e

  same_or_collision :
      (p q : String) (m n : ℕ) (xs ys : List AuditEvent)
      → Intact p m xs
      → Intact q n ys
      → length xs ≡ length ys
      → head_hash p xs ≡ head_hash q ys
      → (SameBodies xs ys × (p ≡ q)) ⊎ Collision
  same_or_collision p q m n [] [] i j len head = inl (tt, head)
  same_or_collision p q m n [] (y ∷ ys) i j len head = absurd (omega arith)
  same_or_collision p q m n (x ∷ xs) [] i j len head = absurd (omega arith)
  same_or_collision p q m n (x ∷ xs) (y ∷ ys) (_, px, hx, i) (_, py, hy, j) len head =
      elim (same_or_collision x.hash y.hash (x.seq + 1) (y.seq + 1) xs ys i j (omega arith) head) [
        | inr found ↦ inr found
        | inl (rest, same) ↦ elim (compare_bodies x y (hx ∙ same ∙ sym hy)) [
          | inr found ↦ inr found
          | inl body ↦ inl ((body, same, rest), sym px ∙ prev_of_body x y body ∙ py)
        ]
      ]

  -- If two chains of the same length pass `verify_chain` and end in the same hash, then each event
  -- of the one has the contents that the hash covers, and the hash, of the event in the same place
  -- of the other; or two different contents with the same digest are at hand.
  pub verify_chain_tamper :
      (original edited : List AuditEvent)
      → verify_chain original ≡ []
      → verify_chain edited ≡ []
      → length original ≡ length edited
      → head_hash genesis original ≡ head_hash genesis edited
      → SameBodies original edited ⊎ Collision
  verify_chain_tamper original edited p q len head =
      elim (same_or_collision genesis genesis 1 1 original edited ((verify_chain_iff original).0 p)
        ((verify_chain_iff edited).0 q) len head) [
          | inl (same, _) ↦ inl same
          | inr found ↦ inr found
        ]

  restamp_from :
      (f : AuditEvent → ℕ) (prev : String) (seq : ℕ) (es : List AuditEvent)
      → verify_from prev seq (restamp f es) ≡ verify_from prev seq es
  unfolding verify_from event_problems digest event_body
  restamp_from f prev seq [] = refl
  restamp_from f prev seq (e ∷ es) =
      ap (◌++◌ (event_problems prev seq e)) (restamp_from f e.hash (e.seq + 1) es)

  -- The time of an event is not covered by its hash: whatever times are written over those of the
  -- events, `verify_chain` answers as before.
  pub verify_chain-restamp :
      (f : AuditEvent → ℕ) (es : List AuditEvent) → verify_chain (restamp f es) ≡ verify_chain es
  unfolding verify_chain
  verify_chain-restamp f es = restamp_from f genesis 1 es

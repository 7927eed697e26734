-- ===== src/Platform/Auditlog/Chain.antt =====
-- What an empty answer of `verify_chain` means, and that recording keeps every chain intact.
use model_passport.Prelude.{
  ==_iff, Bool-cases, keep, keep-append, str_eq, str_eq_iff, str_eq_refl, ℕ, ◌+◌, ◌≤◌, String, ◌≡◌,
  refl, sym, ap, ◌∙◌, subst, ◌↔◌, inl, inr, Bool, true, false, not, some, List, [], ◌∷◌, ◌++◌,
  arith,
}
use mathlib.Core.List.{append-nil}
use model_passport.Platform.Models.{AuditEvent, Session, Details}
use model_passport.Platform.Auditlog.{
  Hashing, Problem, report_if, digest, event_problems, genesis, for_tenant, latest, order_by_seq,
  chain, next_seq, next_prev, verify_from, verify_chain, insert_by_seq, Actor, new_event,
  record_event,
}

module _ ⦃h : Hashing⦄ where
  -- The events are numbered in turn, each chains from the one before, and each hash is right.
  abbrev pub Intact : String → ℕ → List AuditEvent → Type 0
  Intact prev seq [] = Unit
  Intact prev seq (e ∷ es) =
      (e.seq ≡ seq) × (e.prev_hash ≡ prev) × (digest e ≡ e.hash) × Intact e.hash (e.seq + 1) es

  report_none : (b : Bool) (p : Problem) → report_if (not b) p ≡ [] → b ≡ true
  unfolding report_if
  report_none b p e = ground arith

  append_eq_nil : (xs ys : List Problem) → xs ++ ys ≡ [] → (xs ≡ []) × (ys ≡ [])
  append_eq_nil [] ys e = (refl, e)
  append_eq_nil (x ∷ xs) ys e = absurd (cc)

  event_sound :
      (prev : String) (seq : ℕ) (e : AuditEvent)
      → event_problems prev seq e ≡ []
      → (e.seq ≡ seq) × (e.prev_hash ≡ prev) × (digest e ≡ e.hash)
  unfolding event_problems
  event_sound prev seq e p =
      let (a, bc) = append_eq_nil _ _ p in
      let (b, c) = append_eq_nil _ _ bc in
      (
        (==_iff e.seq seq).0 (report_none _ _ a),
        (str_eq_iff e.prev_hash prev).0 (report_none _ _ b),
        (str_eq_iff (digest e) e.hash).0 (report_none _ _ c),
      )

  event_complete :
      (prev : String) (seq : ℕ) (e : AuditEvent)
      → e.seq ≡ seq
      → e.prev_hash ≡ prev
      → digest e ≡ e.hash
      → event_problems prev seq e ≡ []
  unfolding event_problems report_if
  event_complete prev seq e p q r = simp (
    (==_iff e.seq seq).1 p,
    (str_eq_iff e.prev_hash prev).1 q,
    (str_eq_iff (digest e) e.hash).1 r,
  )

  Intact-of_verify_from :
      (prev : String) (seq : ℕ) (es : List AuditEvent)
      → verify_from prev seq es ≡ []
      → Intact prev seq es
  unfolding verify_from
  Intact-of_verify_from prev seq [] p = tt
  Intact-of_verify_from prev seq (e ∷ es) p =
      let (a, b) = append_eq_nil _ _ p in
      let (q, r, d) = event_sound prev seq e a in
      (q, r, d, Intact-of_verify_from e.hash (e.seq + 1) es b)

  pub verify_from_of_Intact :
      (prev : String) (seq : ℕ) (es : List AuditEvent)
      → Intact prev seq es
      → verify_from prev seq es ≡ []
  unfolding verify_from
  verify_from_of_Intact prev seq [] p = refl
  verify_from_of_Intact prev seq (e ∷ es) (q, r, d, rest) =
      rw (event_complete prev seq e q r d) (verify_from_of_Intact e.hash (e.seq + 1) es rest)

  -- `verify_chain` reports nothing exactly when the events are numbered 1, 2, 3 and so on, the
  -- first chains from the genesis value, each other one from the hash of the event before it, and
  -- each stored hash is the digest of its event.
  pub verify_chain_iff : (es : List AuditEvent) → (verify_chain es ≡ []) ↔ Intact genesis 1 es
  unfolding verify_chain
  verify_chain_iff es = (Intact-of_verify_from genesis 1 es, verify_from_of_Intact genesis 1 es)

  -- What the next event has to carry.
  abbrev seq_after : ℕ → List AuditEvent → ℕ
  seq_after seq [] = seq
  seq_after seq (e ∷ es) = seq_after (e.seq + 1) es

  abbrev prev_after : String → List AuditEvent → String
  prev_after prev [] = prev
  prev_after prev (e ∷ es) = prev_after e.hash es

  pub Intact-append :
      (prev : String) (seq : ℕ) (xs ys : List AuditEvent)
      → Intact prev seq xs
      → Intact (prev_after prev xs) (seq_after seq xs) ys
      → Intact prev seq (xs ++ ys)
  Intact-append prev seq [] ys p q = q
  Intact-append prev seq (x ∷ xs) ys (a, b, c, p) q =
      (a, b, c, Intact-append x.hash (x.seq + 1) xs ys p q)

  pub Intact-of_append :
      (prev : String) (seq : ℕ) (xs ys : List AuditEvent)
      → Intact prev seq (xs ++ ys)
      → Intact prev seq xs
  Intact-of_append prev seq [] ys p = tt
  Intact-of_append prev seq (x ∷ xs) ys (a, b, c, p) =
      (a, b, c, Intact-of_append x.hash (x.seq + 1) xs ys p)

  -- In an intact chain the event with the highest number is the last one.
  latest-Intact :
      (prev : String) (seq : ℕ) (e : AuditEvent) (es : List AuditEvent)
      → Intact prev seq (e ∷ es)
      → (l : AuditEvent) × (latest (e ∷ es) ≡ some l)
        × (seq ≤ l.seq)
        × (l.seq + 1 ≡ seq_after (e.seq + 1) es)
        × (l.hash ≡ prev_after e.hash es)
  unfolding latest
  latest-Intact prev seq e [] (a, b, c, p) = (e, refl, omega arith, refl, refl)
  latest-Intact prev seq e (x ∷ es) (a, b, c, p) =
      let (l, found, bound, numbered, hashed) = latest-Intact e.hash (e.seq + 1) x es p in
      (l, ground arith, omega arith, numbered, hashed)

  next-Intact :
      (es : List AuditEvent)
      → Intact genesis 1 es
      → (next_seq (latest es) ≡ seq_after 1 es) × (next_prev (latest es) ≡ prev_after genesis es)
  unfolding next_seq next_prev latest
  next-Intact [] p = (refl, refl)
  next-Intact (e ∷ es) p =
      let (l, found, bound, numbered, hashed) = latest-Intact genesis 1 e es p in
      rw found (numbered, hashed)

  insert-Intact :
      (e : AuditEvent) (es : List AuditEvent)
      → Intact e.hash (e.seq + 1) es
      → insert_by_seq e es ≡ e ∷ es
  unfolding insert_by_seq
  insert-Intact e [] p = refl
  insert-Intact e (x ∷ es) p = ground arith

  order_by_seq-Intact :
      (prev : String) (seq : ℕ) (es : List AuditEvent) → Intact prev seq es → order_by_seq es ≡ es
  unfolding order_by_seq
  order_by_seq-Intact prev seq [] p = refl
  order_by_seq-Intact prev seq (e ∷ es) (a, b, c, p) =
      rw (order_by_seq-Intact e.hash (e.seq + 1) es p) (insert-Intact e es p)

  -- Every tenant's part of the log is an intact chain.
  pub record IsIntactLog (s : Session) : Type 0 where
    pub at : (tenant_id : String) → Intact genesis 1 (for_tenant tenant_id s.events)

  -- Where every tenant's part of the log is intact, `verify_chain` finds no problem in the chain
  -- of any tenant.
  pub verify_chain-chain :
      (s : Session) → IsIntactLog s → (tenant_id : String) → verify_chain (chain s tenant_id) ≡ []
  unfolding chain verify_chain
  verify_chain-chain s intact tenant_id =
      rw (order_by_seq-Intact genesis 1 _ (intact.at tenant_id))
        (verify_from_of_Intact genesis 1 _ (intact.at tenant_id))

  module _ (s : Session) (tenant_id : String) (actor : Actor)
      (action target_type target_id : String) (details : Details) where
    abbrev recorded : AuditEvent
    recorded =
        new_event (latest (for_tenant tenant_id s.events)) s.clock tenant_id actor action
          target_type target_id details

    abbrev after : Session
    after = record_event s tenant_id actor action target_type target_id details

    recorded-Intact :
        (es : List AuditEvent)
        → Intact genesis 1 es
        → latest es ≡ latest (for_tenant tenant_id s.events)
        → Intact (prev_after genesis es) (seq_after 1 es) (recorded ∷ [])
    unfolding new_event
    recorded-Intact es p same =
        let (q, r) = next-Intact es p in
        (ap next_seq (sym same) ∙ q, ap next_prev (sym same) ∙ r, refl, tt)

    for_tenant_self :
        for_tenant tenant_id after.events ≡ for_tenant tenant_id s.events ++ recorded ∷ []
    unfolding for_tenant record_event keep new_event
    for_tenant_self = rw keep-append (ground (arith, str_eq_refl tenant_id))

    for_tenant_other :
        (t : String)
        → str_eq tenant_id t ≡ false
        → for_tenant t after.events ≡ for_tenant t s.events
    unfolding for_tenant record_event keep new_event
    for_tenant_other t ne = rw keep-append (rw (ne, append-nil))

    -- Appending an event with `record` keeps every tenant's part of the log intact.
    pub record_event-IsIntactLog : IsIntactLog s → IsIntactLog after
    record_event-IsIntactLog intact = record {
      at = λ t. elim (Bool-cases (str_eq tenant_id t)) [
        | inl same ↦
            subst (λ u. Intact genesis 1 (for_tenant u after.events))
              ((str_eq_iff tenant_id t).0 same)
              (rw for_tenant_self (
                Intact-append genesis 1 _ _ (intact.at tenant_id)
                  (recorded-Intact _ (intact.at tenant_id) refl)))
        | inr other ↦ rw (for_tenant_other t other) (intact.at t)
      ];
    }

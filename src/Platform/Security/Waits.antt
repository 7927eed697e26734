-- ===== src/Platform/Security/Waits.antt =====
-- A sign-in that is refused may be tried again after the time that it is told.
use model_passport.Prelude.{
  ltb, leb, ◌==◌, if◌then◌else◌, Bool-cases, length, ℕ, ◌+◌, ◌*◌, ◌/◌, ◌≤◌, ◌<◌, String, ◌≡◌, refl,
  ◌∙◌, inl, inr, false, List, [], ◌∷◌, arith,
}
use model_passport.Platform.Security.{
  ThrottleKey, account_key, client_key, same_key, LoginThrottle, set_failures, limit_of, unexpired,
  wait_for, check_key, second, max, retry_after,
}
use model_passport.Platform.Security.Throttle.{
  IsWithin, IsBlocked, length-unexpired, unexpired-head, wait_of, retry_after-IsBlocked,
}
use model_passport.Platform.Security.Freed.{check_key-limit_of, check_key-IsWithin, check_key-own}

freed :
    (limit window now later : ℕ) (times : List ℕ)
    → 0 < limit
    → length times ≤ limit
    → ((t : ℕ) (rest : List ℕ) → times ≡ t ∷ rest → now < t + window)
    → now + wait_for limit window now times ≤ later
    → ¬ (limit ≤ length (unexpired window later times))
unfolding wait_for unexpired
freed limit window now later [] some_limit few live waited =
    λ h. absurd (omega (arith, h, some_limit))
freed limit window now later (t ∷ times) some_limit few live waited =
    let old = live t times refl in
    elim (Bool-cases (leb limit (length (t ∷ times)))) [
      | inr e ↦ λ h. absurd (let l = length-unexpired window later (t ∷ times) in ground arith)
      | inl e ↦
          let waited' = rw e at waited in
          elim (Bool-cases (leb (t + window) later)) [
            | inl gone ↦ rw gone (λ h. omega (arith, h, few, length-unexpired window later times))
            | inr still ↦ absurd (ground arith)
          ]
    ]

max-le : (a b : ℕ) → (a ≤ max a b) × (b ≤ max a b)
max-le a b = (ground arith, ground arith)

-- The time that is told covers both waits.
enough :
    (a b : ℕ)
    → (a ≤ (if ltb 0 (max a b) then max a b / second + 1 else 0) * second)
      × (b ≤ (if ltb 0 (max a b) then max a b / second + 1 else 0) * second)
enough a b =
    let (left, right) = max-le a b in
    elim (Bool-cases (ltb 0 (max a b))) [
      | inl e ↦ rw e (omega (arith, left), omega (arith, right))
      | inr e ↦ rw e (ground (arith, left), ground (arith, right))
    ]

check_key-other :
    (throttle : LoginThrottle) (key : ThrottleKey) (now : ℕ) (k : ThrottleKey)
    → same_key k key ≡ false
    → (check_key throttle key now).1.failures k ≡ throttle.failures k
unfolding check_key set_failures
check_key-other throttle key now k differs = elim (Bool-cases (limit_of throttle key == 0)) [
  | inl e ↦ rw (check_key, e) refl
  | inr e ↦ rw (check_key, e, differs) refl
]

check_key-window :
    (throttle : LoginThrottle) (key : ThrottleKey) (now : ℕ)
    → (check_key throttle key now).1.window ≡ throttle.window
unfolding check_key set_failures
check_key-window throttle key now = elim (Bool-cases (limit_of throttle key == 0)) [
  | inl e ↦ rw (check_key, e) refl
  | inr e ↦ rw (check_key, e) refl
]

wait_of-limited :
    (throttle : LoginThrottle) (key : ThrottleKey) (now : ℕ)
    → 0 < limit_of throttle key
    → wait_of throttle key now
      ≡ wait_for
          (limit_of throttle key)
          throttle.window
          now
          (unexpired throttle.window now (throttle.failures key))
unfolding check_key
wait_of-limited throttle key now limited = elim (Bool-cases (limit_of throttle key == 0)) [
  | inl e ↦ absurd (ground arith)
  | inr e ↦ rw (wait_of, check_key, e) refl
]

-- A key whose failures are those that counted at `now` is free once its wait is over.
key_freed :
    (throttle next : LoginThrottle) (key : ThrottleKey) (now later : ℕ)
    → IsWithin throttle
    → next.window ≡ throttle.window
    → limit_of next key ≡ limit_of throttle key
    → (0 < limit_of throttle key
        → next.failures key ≡ unexpired throttle.window now (throttle.failures key))
    → now + wait_of throttle key now ≤ later
    → ¬ IsBlocked next key later
key_freed throttle next key now later within window limit pruned waited (limited', full) =
    let limited : 0 < limit_of throttle key = omega (arith, limit, limited') in
    freed (limit_of throttle key) throttle.window now later
      (unexpired throttle.window now (throttle.failures key)) limited
      (omega
        (arith, within key limited, length-unexpired throttle.window now (throttle.failures key)))
      (λ t rest e. unexpired-head throttle.window now (throttle.failures key) e)
      (rw (wait_of-limited throttle key now limited) at waited)
      (rw (limit, window, pruned limited) at full)

-- After a check of the sign-in limits, within which the failures stay, the same account may try
-- again from the same address once the time that the check tells is over.
pub retry_after-frees :
    (throttle : LoginThrottle) (email client : String) (now : ℕ)
    → IsWithin throttle
    → (retry_after
        (retry_after throttle email client now).1
        email
        client
        (now + (retry_after throttle email client now).0 * second)).0
      ≡ 0
unfolding retry_after same_key
retry_after-frees throttle email client now within =
    let one = (check_key throttle (account_key email) now).1 in
    let two = (retry_after throttle email client now).1 in
    let later = now + (retry_after throttle email client now).0 * second in
    let (covers, covers_client) =
      enough (wait_of throttle (account_key email) now) (wait_of one (client_key client) now) in
    let (to, _) = retry_after-IsBlocked two email client later in
    elim (Bool-cases ((retry_after two email client later).0 == 0)) [
      | inl e ↦ ground arith
      | inr e ↦ elim (to (ground arith)) [
        | inl b ↦ absurd (
            key_freed throttle two (account_key email) now later within
              (check_key-window one (client_key client) now
                ∙ check_key-window throttle (account_key email) now)
              (check_key-limit_of one (client_key client) now (account_key email)
                ∙ check_key-limit_of throttle (account_key email) now (account_key email))
              (λ limited.
                check_key-other one (client_key client) now (account_key email) refl
                ∙ check_key-own throttle (account_key email) now limited)
              (omega (arith, covers)) b)
        | inr b ↦ absurd (
            key_freed one two (client_key client) now later
              (check_key-IsWithin throttle (account_key email) now within)
              (check_key-window one (client_key client) now)
              (check_key-limit_of one (client_key client) now (client_key client))
              (λ limited. check_key-own one (client_key client) now limited)
              (omega (arith, covers_client)) b)
      ]
    ]

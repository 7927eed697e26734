-- ===== src/Platform/Security/Recorded.antt =====
-- The deques of the throttle hold their failures in the order in which they happened.
use model_passport.Prelude.{
  leb, ◌==◌, Bool-cases, All, All-append, All-map, first, str_eq, ℕ, String, ◌+◌, ◌≤◌, inl, inr,
  List, [], ◌∷◌, ◌++◌, arith,
}
use model_passport.Platform.Security.{
  ThrottleKey, account_key, client_key, same_key, LoginThrottle, set_failures, limit_of, unexpired,
  check_key, retry_after, failed, succeeded, Account, Sessions, login, credentials_ok,
}
use model_passport.Platform.Security.Throttle.{IsAscending}

-- Times in order, none after `now`.
abbrev IsPast : ℕ → List ℕ → Type 0
IsPast now times = IsAscending times × All (λ t. t ≤ now) times

abbrev pub IsRecorded : ℕ → LoginThrottle → Type 0
IsRecorded now throttle =
    (key : ThrottleKey)
    → IsAscending (throttle.failures key) × All (λ t. t ≤ now) (throttle.failures key)

appended-IsPast : (now : ℕ) (times : List ℕ) → IsPast now times → IsPast now (times ++ now ∷ [])
appended-IsPast now [] past = ((tt, tt), (omega arith, tt))
appended-IsPast now (t ∷ times) ((after, up), (le, past)) =
    let (up', past') = appended-IsPast now times (up, past) in
    ((All-append (λ u. t ≤ u) times (now ∷ []) after (le, tt), up'), (le, past'))

unexpired-IsPast :
    (window now at : ℕ) (times : List ℕ) → IsPast now times → IsPast now (unexpired window at times)
unfolding unexpired
unexpired-IsPast window now at [] past = past
unexpired-IsPast window now at (t ∷ times) ((after, up), (le, past)) =
    elim (Bool-cases (leb (t + window) at)) [
      | inl e ↦ rw e (unexpired-IsPast window now at times (up, past))
      | inr e ↦ rw e ((after, up), (le, past))
    ]

set_failures-IsRecorded :
    (now : ℕ) (throttle : LoginThrottle) (key : ThrottleKey) (value : List ℕ)
    → IsRecorded now throttle
    → IsPast now value
    → IsRecorded now (set_failures throttle key value)
unfolding set_failures
set_failures-IsRecorded now throttle key value recorded past k =
    elim (Bool-cases (same_key k key)) [ inl e ↦ rw e past | inr e ↦ rw e (recorded k) ]

check_key-IsRecorded :
    (now : ℕ) (throttle : LoginThrottle) (key : ThrottleKey) (at : ℕ)
    → IsRecorded now throttle
    → IsRecorded now (check_key throttle key at).1
unfolding check_key
check_key-IsRecorded now throttle key at recorded = elim (Bool-cases (limit_of throttle key == 0)) [
  | inl e ↦ rw (check_key, e) recorded
  | inr e ↦
      rw (check_key, e)
        (set_failures-IsRecorded now throttle key _ recorded
          (unexpired-IsPast throttle.window now at (throttle.failures key) (recorded key)))
]

failed-IsRecorded :
    (now : ℕ) (throttle : LoginThrottle) (email client : String)
    → IsRecorded now throttle
    → IsRecorded now (failed throttle email client now)
unfolding failed
failed-IsRecorded now throttle email client recorded =
    let one = throttle.failures (account_key email) ++ now ∷ [] in
    let next = set_failures-IsRecorded now throttle (account_key email) one recorded (
      appended-IsPast now (throttle.failures (account_key email)) (recorded (account_key email))) in
    set_failures-IsRecorded now (set_failures throttle (account_key email) one) (client_key client)
      _ next
      (appended-IsPast now
        ((set_failures throttle (account_key email) one).failures (client_key client))
        (next (client_key client)))

-- A sign-in, whatever comes of it, leaves the failures of every account and address in the order in
-- which they happened, none of them after it, if they were so at an earlier time.
pub login-IsRecorded :
    (lib : Sessions) (throttle : LoginThrottle) (users : List Account)
    (email password client : String) (before now : ℕ)
    → before ≤ now
    → IsRecorded before throttle
    → IsRecorded now (login lib throttle users email password client now).1
unfolding login retry_after succeeded
login-IsRecorded lib throttle users body_email password client before now le earlier =
    let email = lib.strip_lower body_email in
    let recorded : IsRecorded now throttle = λ key. (
      (earlier key).0,
      All-map _ _ (throttle.failures key) (λ t h. omega (arith, le, h)) (earlier key).1,
    ) in
    let one = (check_key throttle (account_key email) now).1 in
    let two = (check_key one (client_key client) now).1 in
    let kept : IsRecorded now two =
      check_key-IsRecorded now one (client_key client) now
        (check_key-IsRecorded now throttle (account_key email) now recorded) in
    let user = first (λ u. str_eq u.email email) users in
    elim (Bool-cases ((retry_after throttle email client now).0 == 0)) [
      | inr e ↦ rw (e) kept
      | inl e ↦ elim (Bool-cases (credentials_ok lib user password)) [
        | inl good ↦
            rw (e, good) (set_failures-IsRecorded now two (account_key email) [] kept (tt, tt))
        | inr bad ↦ rw (e, bad) (failed-IsRecorded now two email client kept)
      ]
    ]

-- ===== src/Platform/Security/Freed.antt =====
-- The deques of the throttle stay within their limits, and a refused account is freed.
use model_passport.Prelude.{◌==◌, Bool-cases, length, ℕ, ◌<◌, String, ◌≡◌, refl, inl, inr, arith}
use model_passport.Platform.Security.{
  ThrottleKey, account_key, client_key, LoginThrottle, set_failures, limit_of, unexpired, check_key,
  retry_after,
}
use model_passport.Platform.Security.Throttle.{IsWithin, same_key_refl, check_key-failures}

-- A check changes no limit.
pub check_key-limit_of :
    (throttle : LoginThrottle) (key : ThrottleKey) (now : ℕ) (k : ThrottleKey)
    → limit_of (check_key throttle key now).1 k ≡ limit_of throttle k
unfolding check_key set_failures limit_of
check_key-limit_of throttle key now (account_key e) =
    elim (Bool-cases (limit_of throttle key == 0)) [
      | inl e ↦ rw (check_key, e) refl
      | inr e ↦ rw (check_key, e) refl
    ]
check_key-limit_of throttle key now (client_key c) =
    elim (Bool-cases (limit_of throttle key == 0)) [
      | inl e ↦ rw (check_key, e) refl
      | inr e ↦ rw (check_key, e) refl
    ]

pub check_key-IsWithin :
    (throttle : LoginThrottle) (key : ThrottleKey) (now : ℕ)
    → IsWithin throttle
    → IsWithin (check_key throttle key now).1
check_key-IsWithin throttle key now within k limited =
    let same = check_key-limit_of throttle key now k in
    omega
      (arith, same, check_key-failures throttle key now k, within k (omega (arith, same, limited)))

pub retry_after-IsWithin :
    (throttle : LoginThrottle) (email client : String) (now : ℕ)
    → IsWithin throttle
    → IsWithin (retry_after throttle email client now).1
unfolding retry_after
retry_after-IsWithin throttle email client now within =
    check_key-IsWithin (check_key throttle (account_key email) now).1 (client_key client) now
      (check_key-IsWithin throttle (account_key email) now within)

-- If the key is limited, another failure fits.
abbrev HasRoom : LoginThrottle → ThrottleKey → Type 0
HasRoom throttle key =
    0 < limit_of throttle key → length (throttle.failures key) < limit_of throttle key

-- The failures of the two keys after a check that lets a sign-in try.
pub check_key-own :
    (throttle : LoginThrottle) (key : ThrottleKey) (now : ℕ)
    → 0 < limit_of throttle key
    → (check_key throttle key now).1.failures key
      ≡ unexpired throttle.window now (throttle.failures key)
unfolding check_key set_failures
check_key-own throttle key now limited = elim (Bool-cases (limit_of throttle key == 0)) [
  | inl e ↦ absurd (ground arith)
  | inr e ↦ rw (check_key, e, same_key_refl key) refl
]

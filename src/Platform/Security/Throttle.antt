-- ===== src/Platform/Security/Throttle.antt =====
-- When the throttle refuses, and that it lets a refused account try again.
use model_passport.Prelude.{
  keep, All, ltb, leb, ◌==◌, if◌then◌else◌, Bool-cases, length, str_eq_iff, str_eq_refl, ℕ, zero,
  suc, ◌+◌, ◌/◌, ◌≤◌, ◌<◌, String, ◌≡◌, refl, ap, subst, ◌↔◌, ◌⊎◌, inl, inr, true, List, [], ◌∷◌,
  arith, sym,
}
use model_passport.Platform.Security.{
  ThrottleKey, account_key, client_key, same_key, LoginThrottle, set_failures, limit_of, unexpired,
  wait_for, check_key, second, max, retry_after, false,
}

-- No key that is limited has more failures than its limit.
abbrev pub IsWithin : LoginThrottle → Type 0
IsWithin throttle =
    (key : ThrottleKey)
    → 0 < limit_of throttle key
    → length (throttle.failures key) ≤ limit_of throttle key

-- The failures that still count make as many as the limit.
abbrev pub IsBlocked : LoginThrottle → ThrottleKey → ℕ → Type 0
IsBlocked throttle key now =
    (0 < limit_of throttle key)
    × (limit_of throttle key ≤ length (unexpired throttle.window now (throttle.failures key)))

pub length-unexpired :
    (window now : ℕ) (times : List ℕ) → length (unexpired window now times) ≤ length times
unfolding unexpired
length-unexpired window now [] = omega arith
length-unexpired window now (t ∷ times) = elim (Bool-cases (leb (t + window) now)) [
  | inl e ↦ rw e omega (arith, length-unexpired window now times)
  | inr e ↦ rw e omega arith
]

-- What is left starts with a time that still counts.
pub unexpired-head :
    (window now : ℕ) (times : List ℕ) {t : ℕ} {rest : List ℕ}
    → unexpired window now times ≡ t ∷ rest
    → now < t + window
unfolding unexpired
unexpired-head window now [] e = absurd (cc)
unexpired-head window now (s ∷ times) e = elim (Bool-cases (leb (s + window) now)) [
  | inl h ↦ unexpired-head window now times (rw h at e)
  | inr h ↦ let same = head-eq (rw h at e) in ground arith
]
  where
    head-eq : {a b : ℕ} {xs ys : List ℕ} → a ∷ xs ≡ b ∷ ys → a ≡ b
    head-eq e = cc

abbrev pub wait_of : LoginThrottle → ThrottleKey → ℕ → ℕ
wait_of throttle key now = (check_key throttle key now).0

wait_for_iff :
    (limit window now : ℕ) (times : List ℕ)
    → 0 < limit
    → ((t : ℕ) (rest : List ℕ) → times ≡ t ∷ rest → now < t + window)
    → (0 < wait_for limit window now times) ↔ (limit ≤ length times)
unfolding wait_for
wait_for_iff limit window now [] some_limit live =
    (λ h. absurd (omega (arith, h)), λ h. absurd (omega (arith, h, some_limit)))
wait_for_iff limit window now (t ∷ times) some_limit live =
    let later = live t times refl in
    elim (Bool-cases (leb limit (length (t ∷ times)))) [
      | inl e ↦ rw e (λ _. ground arith, λ _. omega (arith, later))
      | inr e ↦ rw e (λ h. absurd (omega (arith, h)), λ h. absurd (ground arith))
    ]

pub wait_of_iff :
    (throttle : LoginThrottle) (key : ThrottleKey) (now : ℕ)
    → (0 < wait_of throttle key now) ↔ IsBlocked throttle key now
unfolding check_key
wait_of_iff throttle key now = elim (Bool-cases (limit_of throttle key == 0)) [
  | inl e ↦
      rw (wait_of, check_key, e) (λ h. absurd (omega (arith, h)), λ (h, _). absurd (ground arith))
  | inr e ↦
      let some_limit : 0 < limit_of throttle key = ground arith in
      let (to, from) =
        wait_for_iff (limit_of throttle key) throttle.window now
          (unexpired throttle.window now (throttle.failures key)) some_limit
          (λ t rest same. unexpired-head throttle.window now (throttle.failures key) same) in
      rw (wait_of, check_key, e) (λ h. (some_limit, to h), λ (_, h). from h)
]

same_key-eq : (a b : ThrottleKey) → same_key a b ≡ true → a ≡ b
unfolding same_key
same_key-eq (account_key a) (account_key b) e = ap account_key ((str_eq_iff a b).0 e)
same_key-eq (client_key a) (client_key b) e = ap client_key ((str_eq_iff a b).0 e)
same_key-eq (account_key a) (client_key b) e = absurd (cc)
same_key-eq (client_key a) (account_key b) e = absurd (cc)

pub same_key_refl : (key : ThrottleKey) → same_key key key ≡ true
unfolding same_key
same_key_refl (account_key a) = str_eq_refl a
same_key_refl (client_key a) = str_eq_refl a

-- What a check leaves: the failures of its key that still count, and those of the other keys.
pub check_key-failures :
    (throttle : LoginThrottle) (key : ThrottleKey) (now : ℕ) (k : ThrottleKey)
    → length ((check_key throttle key now).1.failures k) ≤ length (throttle.failures k)
unfolding check_key set_failures
check_key-failures throttle key now k = elim (Bool-cases (limit_of throttle key == 0)) [
  | inl e ↦ rw (check_key, e) omega arith
  | inr e ↦ elim (Bool-cases (same_key k key)) [
    | inl same ↦
        rw (check_key, e, same)
          (subst
            (λ x.
              length (unexpired throttle.window now (throttle.failures x))
              ≤ length (throttle.failures k))
            (same_key-eq k key same) (length-unexpired throttle.window now (throttle.failures k)))
    | inr differs ↦ rw (check_key, e, differs) omega arith
  ]
]

positive_max :
    (a b : ℕ) → 0 < (if ltb 0 (max a b) then max a b / second + 1 else 0) → (0 < a) ⊎ (0 < b)
positive_max zero b h = inr (ground arith)
positive_max (suc a) b h = inl (omega arith)

max_positive :
    (a b : ℕ) → (0 < a) ⊎ (0 < b) → 0 < (if ltb 0 (max a b) then max a b / second + 1 else 0)
max_positive a b (inl h) = ground arith
max_positive a b (inr h) = ground arith

pub check_account-client :
    (throttle : LoginThrottle) (email client : String) (now : ℕ)
    → IsBlocked (check_key throttle (account_key email) now).1 (client_key client) now
      ↔ IsBlocked throttle (client_key client) now
unfolding check_key set_failures limit_of same_key
check_account-client throttle email client now = elim (Bool-cases (throttle.per_account == 0)) [
  | inl e ↦ rw (check_key, e) (λ h. h, λ h. h)
  | inr e ↦ rw (check_key, e) (λ h. h, λ h. h)
]

-- The times of a deque are in the order in which they were recorded.
abbrev pub IsAscending : List ℕ → Type 0
IsAscending [] = Unit
IsAscending (t ∷ times) = All (λ u. t ≤ u) times × IsAscending times

-- How many of the recorded failures are younger than the window.
abbrev pub recent : LoginThrottle → ThrottleKey → ℕ → ℕ
recent throttle key now = length (keep (λ t. ltb now (t + throttle.window)) (throttle.failures key))

abbrev pub IsThrottled : LoginThrottle → ThrottleKey → ℕ → Type 0
IsThrottled throttle key now =
    (0 < limit_of throttle key) × (limit_of throttle key ≤ recent throttle key now)

keep-recent :
    (window now t : ℕ) (times : List ℕ)
    → now < t + window
    → All (λ u. t ≤ u) times
    → keep (λ u. ltb now (u + window)) times ≡ times
unfolding keep
keep-recent window now t [] live after = refl
keep-recent window now t (u ∷ times) live (le, after) =
    let young : ltb now (u + window) ≡ true = ground arith in
    rw young (ap (◌∷◌ u) (keep-recent window now t times live after))

-- Pruning from the left leaves the failures that are younger than the window.
unexpired-recent :
    (window now : ℕ) (times : List ℕ)
    → IsAscending times
    → unexpired window now times ≡ keep (λ t. ltb now (t + window)) times
unfolding unexpired keep
unexpired-recent window now [] up = refl
unexpired-recent window now (t ∷ times) (after, up) = elim (Bool-cases (leb (t + window) now)) [
  | inl e ↦
      let old : ltb now (t + window) ≡ false = ground arith in
      rw (e, old) (unexpired-recent window now times up)
  | inr e ↦
      let young : ltb now (t + window) ≡ true = ground arith in
      rw (e, young) (ap (◌∷◌ t) (sym (keep-recent window now t times (ground arith) after)))
]

IsBlocked-iff :
    (throttle : LoginThrottle) (key : ThrottleKey) (now : ℕ)
    → IsAscending (throttle.failures key)
    → IsBlocked throttle key now ↔ IsThrottled throttle key now
IsBlocked-iff throttle key now up =
    let same = ap length (unexpired-recent throttle.window now (throttle.failures key) up) in
    (
      λ (limited, full). (limited, omega (arith, same, full)),
      λ (limited, full). (limited, omega (arith, same, full)),
    )

pub retry_after-IsBlocked :
    (throttle : LoginThrottle) (email client : String) (now : ℕ)
    → (0 < (retry_after throttle email client now).0)
      ↔ (IsBlocked throttle (account_key email) now ⊎ IsBlocked throttle (client_key client) now)
unfolding retry_after
retry_after-IsBlocked throttle email client now =
    let (to, from) = wait_of_iff throttle (account_key email) now in
    let next = (check_key throttle (account_key email) now).1 in
    let (to', from') = wait_of_iff next (client_key client) now in
    let (there, back) = check_account-client throttle email client now in
    let a = wait_of throttle (account_key email) now in
    let b = wait_of next (client_key client) now in
    (
      λ h. elim (positive_max a b h) [ inl e ↦ inl (to e) | inr e ↦ inr (there (to' e)) ],
      λ h. elim h [
        | inl e ↦ max_positive a b (inl (from e))
        | inr e ↦ max_positive a b (inr (from' (back e)))
      ],
    )

-- Where the failures of the account and of the address stand in the order in which they were
-- recorded: a sign-in has to wait exactly if one of the two has, among all its recorded failures, at
-- least as many that are younger than the window as its limit, where a limit of 0 is none.
pub retry_after_iff :
    (throttle : LoginThrottle) (email client : String) (now : ℕ)
    → IsAscending (throttle.failures (account_key email))
    → IsAscending (throttle.failures (client_key client))
    → (0 < (retry_after throttle email client now).0) ↔ (
        IsThrottled throttle (account_key email) now ⊎ IsThrottled throttle (client_key client) now)
retry_after_iff throttle email client now up up' =
    let (to, from) = retry_after-IsBlocked throttle email client now in
    let (out, back) = IsBlocked-iff throttle (account_key email) now up in
    let (out', back') = IsBlocked-iff throttle (client_key client) now up' in
    (
      λ h. elim (to h) [ inl e ↦ inl (out e) | inr e ↦ inr (out' e) ],
      λ h. from (elim h [ inl e ↦ inl (back e) | inr e ↦ inr (back' e) ]),
    )

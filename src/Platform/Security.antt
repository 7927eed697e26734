-- ===== src/Platform/Security.antt =====
-- src/model_passport/platform/security.py: sealed bytes and keys, and the throttle of sign-ins.
--
-- A byte string is the list of its bytes. AES-GCM is the parameter `Aead`: what is sealed opens
-- with its key, nonce and context, and a blob that opens was sealed with the key and the context it
-- is opened with; `encode` is `str.encode`, which is injective. The random nonce is an argument. A time is a number of microseconds, and a deque of
-- failures is the list of their times.
pub mod Sealed
pub mod Throttle
pub mod Freed
pub mod Waits
pub mod Recorded
use model_passport.Prelude.{
  ltb, leb, ◌==◌, if◌then◌else◌, length, first, str_eq, ℕ, zero, suc, ◌+◌, ◌-◌, ◌/◌, String, ◌≡◌,
  Bool, false, ◌&&◌, not, Option, none, some, List, [], ◌∷◌, ◌++◌,
}
use model_passport.Prelude.Outcome.{Outcome, ok, err}

pub record Aead : Type 0 where
  pub encode : List ℕ → List ℕ
  pub encode_injective : (s t : List ℕ) → encode s ≡ encode t → s ≡ t
  pub seal : List ℕ → List ℕ → List ℕ → List ℕ → List ℕ
  pub unseal : List ℕ → List ℕ → List ℕ → List ℕ → Option (List ℕ)
  pub opens :
      (key nonce plaintext context : List ℕ)
      → unseal key nonce (seal key nonce plaintext context) context ≡ some plaintext
  pub authentic :
      (key key' nonce plaintext context context' found : List ℕ)
      → unseal key nonce (seal key' nonce plaintext context') context ≡ some found
      → (key ≡ key') × (context ≡ context')

pub data DecryptionError : Type 0 where
  cannot_decrypt : DecryptionError

-- `NONCE_BYTES`
abbrev pub nonce_bytes : ℕ
nonce_bytes = 12

-- `blob[:n]`
unfoldable pub take : ℕ → List ℕ → List ℕ
take zero xs = []
take (suc n) [] = []
take (suc n) (x ∷ xs) = x ∷ take n xs

-- `blob[n:]`
unfoldable pub drop : ℕ → List ℕ → List ℕ
drop zero xs = xs
drop (suc n) [] = []
drop (suc n) (x ∷ xs) = drop n xs

module _ (aead : Aead) where
  unfoldable pub encrypt : List ℕ → List ℕ → List ℕ → List ℕ → List ℕ
  encrypt nonce key plaintext context = nonce ++ aead.seal key nonce plaintext context

  unfoldable pub decrypt : List ℕ → List ℕ → List ℕ → Outcome DecryptionError (List ℕ)
  unfolding take drop
  decrypt key blob context =
      elim (aead.unseal key (take nonce_bytes blob) (drop nonce_bytes blob) context) [
        | none ↦ err cannot_decrypt
        | some plaintext ↦ ok plaintext
      ]

  -- `b"tenant-key:"`
  abbrev key_prefix : List ℕ
  key_prefix = b't' ∷ b'e' ∷ b'n' ∷ b'a' ∷ b'n' ∷ b't' ∷ b'-' ∷ b'k' ∷ b'e' ∷ b'y' ∷ b':' ∷ []

  unfoldable pub wrap_key : List ℕ → List ℕ → List ℕ → List ℕ → List ℕ
  unfolding encrypt
  wrap_key nonce master data_key tenant_id =
      encrypt nonce master data_key (key_prefix ++ aead.encode tenant_id)

  unfoldable pub unwrap_key : List ℕ → List ℕ → List ℕ → Outcome DecryptionError (List ℕ)
  unfolding decrypt
  unwrap_key master wrapped tenant_id = decrypt master wrapped (key_prefix ++ aead.encode tenant_id)

-- The dictionary of failures has a key for an account and one for an address.
pub data ThrottleKey : Type 0 where
  account_key client_key : String → ThrottleKey

unfoldable pub same_key : ThrottleKey → ThrottleKey → Bool
same_key (account_key a) (account_key b) = str_eq a b
same_key (client_key a) (client_key b) = str_eq a b
same_key _ _ = false

pub record LoginThrottle : Type 0 where
  pub per_account : ℕ
  pub per_client : ℕ
  pub window : ℕ
  pub failures : ThrottleKey → List ℕ

-- `self._failures[key] = value`
unfoldable pub set_failures : LoginThrottle → ThrottleKey → List ℕ → LoginThrottle
unfolding same_key
set_failures throttle key value = record throttle {
  failures = λ k. if same_key k key then value else throttle.failures k;
}

unfoldable pub limit_of : LoginThrottle → ThrottleKey → ℕ
limit_of throttle (account_key _) = throttle.per_account
limit_of throttle (client_key _) = throttle.per_client

-- `while failures and failures[0] <= now - self.window`
unfoldable pub unexpired : ℕ → ℕ → List ℕ → List ℕ
unexpired window now [] = []
unexpired window now (t ∷ times) =
    let later = unexpired window now times in if leb (t + window) now then later else t ∷ times

-- `max(wait, failures[0] + self.window - now)`, once there are as many failures as the limit.
unfoldable pub wait_for : ℕ → ℕ → ℕ → List ℕ → ℕ
wait_for limit window now [] = 0
wait_for limit window now (t ∷ times) =
    if leb limit (length (t ∷ times)) then (t + window) - now else 0

-- One turn of the loop over the keys. A limit of 0 is off.
unfoldable pub check_key : LoginThrottle → ThrottleKey → ℕ → ℕ × LoginThrottle
unfolding limit_of unexpired wait_for set_failures
check_key throttle key now = if limit_of throttle key == 0 then (0, throttle) else (
  wait_for (limit_of throttle key) throttle.window now
      (unexpired throttle.window now (throttle.failures key)),
  set_failures throttle key (unexpired throttle.window now (throttle.failures key)),
)

abbrev pub second : ℕ
second = 1000000

abbrev pub max : ℕ → ℕ → ℕ
max a b = if ltb a b then b else a

unfoldable pub retry_after : LoginThrottle → String → String → ℕ → ℕ × LoginThrottle
unfolding check_key
retry_after throttle email client now =
    let (wait, throttle) = check_key throttle (account_key email) now in
    let (wait_client, throttle) = check_key throttle (client_key client) now in
    let longest = max wait wait_client in
    (if ltb 0 longest then longest / second + 1 else 0, throttle)

unfoldable pub failed : LoginThrottle → String → String → ℕ → LoginThrottle
unfolding set_failures
failed throttle email client now =
    let throttle =
      set_failures throttle (account_key email)
        (throttle.failures (account_key email) ++ now ∷ []) in
    set_failures throttle (client_key client) (throttle.failures (client_key client) ++ now ∷ [])

unfoldable pub succeeded : LoginThrottle → String → LoginThrottle
unfolding set_failures
succeeded throttle email = set_failures throttle (account_key email) []

pub record Account : Type 0 where
  pub email : String
  pub disabled : Bool
  pub password_hash : String

-- `strip_lower` is `.strip().lower()`, `verify_password` is Argon2id's check, and `issue_token` the
-- signed session token of an account.
pub record Sessions : Type 0 where
  pub strip_lower : String → String
  pub verify_password : String → String → Bool
  pub issue_token : Account → String

pub data LoginResult : Type 0 where
  too_many_failures : ℕ → LoginResult
  wrong_password : LoginResult
  signed_in : String → LoginResult

abbrev credentials_ok : Sessions → Option Account → String → Bool
credentials_ok lib none password = false
credentials_ok lib (some user) password =
    not user.disabled && lib.verify_password user.password_hash password

abbrev token_of : Sessions → Option Account → String
token_of lib none = ""
token_of lib (some user) = lib.issue_token user

-- The route of a sign-in, from `retry_after` to the token. `client` is the address of the request.
unfoldable pub login :
    Sessions
    → LoginThrottle
    → List Account
    → String
    → String
    → String
    → ℕ
    → LoginResult × LoginThrottle
unfolding retry_after failed succeeded first
login lib throttle users body_email password client now =
    let email = lib.strip_lower body_email in
    let (wait, throttle) = retry_after throttle email client now in
    let user = first (λ u. str_eq u.email email) users in
    if not (wait == 0)
    then (too_many_failures wait, throttle)
    else if credentials_ok lib user password
    then (signed_in (token_of lib user), succeeded throttle email)
    else (wrong_password, failed throttle email client now)

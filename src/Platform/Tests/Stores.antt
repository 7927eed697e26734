-- ===== src/Platform/Tests/Stores.antt =====
-- Runs of the tenant's store and of the throttle of sign-ins.
use model_passport.Prelude.{
  ◌==◌, if◌then◌else◌, ==_iff, Bool-cases, Option-cases, some-eq, length, keep, any, str_eq,
  letters, ℕ, ◌+◌, ◌*◌, ◌<◌, ◌≡◌, refl, sym, ap, subst, ◌↔◌, ◌⊎◌, inl, inr, false, Option, none,
  some, List, [], ◌∷◌, ◌++◌, arith, same_text, same_text_iff,
}
use model_passport.Platform.Security.{
  Aead, take, drop, encrypt, decrypt, account_key, client_key, same_key, LoginThrottle,
  set_failures, limit_of, unexpired, wait_for, check_key, second, retry_after, failed, Account,
  Sessions, login,
}
use model_passport.Platform.Security.Recorded.{IsRecorded, login-IsRecorded}
use model_passport.Platform.Security.Throttle.{IsWithin, IsThrottled, IsAscending, retry_after_iff}
use model_passport.Platform.Security.Waits.{retry_after-frees}
use model_passport.Platform.Storage.Keys.{}
use model_passport.Platform.Storage.Bound.{put_kept, IsNamed, put-get_sealed, get_sealed-bound}
use model_passport.Prelude.Outcome.{ok}
use model_passport.Platform.Storage.{
  Text, split, parts_of, is_dots, join, safe, Bucket, object_at, without, s3_put, s3_get, s3_store,
  TenantStore, full_key, context_of, put, get_sealed,
}

-- A cipher that hides nothing: the key and the context stand before the text, each after its length.
abbrev strip : List ℕ → List ℕ → Option (List ℕ)
strip [] xs = some xs
strip (p ∷ ps) [] = none
strip (p ∷ ps) (x ∷ xs) = let rest = strip ps xs in if p == x then rest else none

strip-append : (p q : List ℕ) → strip p (p ++ q) ≡ some q
strip-append [] q = refl
strip-append (x ∷ p) q = rw ((==_iff x x).1 refl) (strip-append p q)

strip_same :
    (a b rest : List ℕ) {r : List ℕ}
    → length a ≡ length b
    → strip a (b ++ rest) ≡ some r
    → (a ≡ b) × (r ≡ rest)
strip_same [] [] rest e h = (refl, sym (some-eq h))
strip_same [] (y ∷ b) rest e h = absurd (omega (arith, e))
strip_same (x ∷ a) [] rest e h = absurd (omega (arith, e))
strip_same (x ∷ a) (y ∷ b) rest e h = elim (Bool-cases (x == y)) [
  | inl same ↦
      let (tails, left) = strip_same a b rest (omega (arith, e)) (rw same at h) in
      (cc ((==_iff x y).0 same, tails), left)
  | inr differs ↦ absurd (let h' = rw differs at h in cc)
]

abbrev framed : List ℕ → List ℕ
framed xs = length xs ∷ xs

framed_same :
    (a b rest : List ℕ) {r : List ℕ}
    → strip (framed a) (framed b ++ rest) ≡ some r
    → (a ≡ b) × (r ≡ rest)
framed_same a b rest h = elim (Bool-cases (length a == length b)) [
  | inl same ↦ strip_same a b rest ((==_iff _ _).0 same) (rw same at h)
  | inr differs ↦ absurd (let h' = rw differs at h in cc)
]

abbrev open_frames : List ℕ → List ℕ → List ℕ → Option (List ℕ)
open_frames key context blob = elim (strip (framed key) blob) [
  | none ↦ none
  | some rest ↦ strip (framed context) rest
]

append_twice : (a b c : List ℕ) → (a ++ b) ++ c ≡ a ++ (b ++ c)
append_twice [] b c = refl
append_twice (x ∷ a) b c = ap (◌∷◌ x) (append_twice a b c)

toy_opens :
    (key plaintext context : List ℕ)
    → open_frames key context (framed key ++ (framed context ++ plaintext)) ≡ some plaintext
toy_opens key plaintext context =
    rw (open_frames, strip-append (framed key) (framed context ++ plaintext))
      (strip-append (framed context) plaintext)

toy_authentic :
    (key key' plaintext context context' found : List ℕ)
    → open_frames key context (framed key' ++ (framed context' ++ plaintext)) ≡ some found
    → (key ≡ key') × (context ≡ context')
toy_authentic key key' plaintext context context' found h =
    elim (Option-cases (strip (framed key) (framed key' ++ (framed context' ++ plaintext)))) [
      | inl e ↦ absurd (let h' = rw (open_frames, e) at h in cc)
      | inr (rest, e) ↦
          let (same_key, same_rest) = framed_same key key' (framed context' ++ plaintext) e in
          let (same_context, _) = framed_same context context' plaintext (
            subst (λ r. strip (framed context) r ≡ some found) same_rest
              (rw (open_frames, e) at h)) in
          (same_key, same_context)
    ]

abbrev toy_aead : Aead
toy_aead = record {
  encode = λ t. t;
  encode_injective = λ s t e. e;
  seal = λ key nonce plaintext context. framed key ++ (framed context ++ plaintext);
  unseal = λ key nonce blob context. open_frames key context blob;
  opens = λ key nonce plaintext context. toy_opens key plaintext context;
  authentic = λ key key' nonce plaintext context context' found h.
      toy_authentic key key' plaintext context context' found h;
}

abbrev acme_store : TenantStore
acme_store = record { tenant_id = letters "acme"; data_key = 1 ∷ [] }

abbrev rival_store : TenantStore
rival_store = record { tenant_id = letters "rival"; data_key = 2 ∷ [] }

abbrev model_key : Text
model_key = letters "models//m1"

abbrev model_name : Text
model_name = letters "acme/models/m1"

abbrev toy_nonce : List ℕ
toy_nonce = 0 ∷ 0 ∷ 0 ∷ 0 ∷ 0 ∷ 0 ∷ 0 ∷ 0 ∷ 0 ∷ 0 ∷ 0 ∷ 0 ∷ []

acme-IsNamed : IsNamed acme_store
unfolding is_dots same_text
acme-IsNamed = ((refl, (refl, (refl, (refl, (refl, tt))))), refl)

rival-IsNamed : IsNamed rival_store
unfolding is_dots same_text
rival-IsNamed = ((refl, (refl, (refl, (refl, (refl, (refl, tt)))))), refl)

model_full : full_key acme_store model_key ≡ ok model_name
unfolding full_key safe parts_of split keep any is_dots same_text join
model_full = refl

put-get_sealed_example :
    (after : Bucket) × (put toy_aead s3_store acme_store [] toy_nonce model_key (5 ∷ []) ≡ ok after)
    × (get_sealed toy_aead s3_store acme_store after model_key ≡ ok (5 ∷ []))
put-get_sealed_example =
    put-get_sealed toy_aead acme_store [] toy_nonce model_key (5 ∷ []) acme-IsNamed refl model_full

abbrev model_blob : List ℕ
model_blob = toy_nonce ++ toy_aead.seal (1 ∷ []) toy_nonce (5 ∷ []) (context_of toy_aead model_name)

abbrev with_model : Bucket
with_model = (model_name, model_blob) ∷ []

model_put : put toy_aead s3_store acme_store [] toy_nonce model_key (5 ∷ []) ≡ ok with_model
unfolding put full_key safe parts_of split keep any is_dots same_text join s3_store s3_put without
    encrypt
model_put = refl

not_rival : ¬ (acme_store.tenant_id ≡ rival_store.tenant_id)
unfolding same_text
not_rival e = absurd (let h = (same_text_iff acme_store.tenant_id rival_store.tenant_id).1 e in cc)

put_kept_example :
    get_sealed toy_aead s3_store rival_store with_model model_key
    ≡ get_sealed toy_aead s3_store rival_store [] model_key
put_kept_example =
    put_kept toy_aead acme_store rival_store [] with_model toy_nonce model_key model_key (5 ∷ [])
      acme-IsNamed rival-IsNamed (λ (e, _). not_rival e) model_put

model_read : get_sealed toy_aead s3_store acme_store with_model model_key ≡ ok (5 ∷ [])
unfolding get_sealed full_key safe parts_of split keep any is_dots same_text join s3_store s3_get
    object_at decrypt take drop
model_read = refl

model_there : s3_store.get_object with_model model_name ≡ ok model_blob
unfolding safe parts_of split keep any is_dots same_text join s3_store s3_get object_at
model_there = refl

get_sealed-bound_example :
    (acme_store.data_key ≡ acme_store.data_key)
    × (acme_store.tenant_id ≡ acme_store.tenant_id)
    × (parts_of model_key ≡ parts_of model_key)
unfolding encrypt
get_sealed-bound_example =
    get_sealed-bound toy_aead s3_store acme_store acme_store with_model toy_nonce model_key
      model_key (5 ∷ []) (5 ∷ []) {full = model_name} {origin = model_name} acme-IsNamed
      acme-IsNamed refl model_full model_full model_there model_read

-- Two failures block an account, and addresses have no limit.
abbrev fresh_throttle : LoginThrottle
fresh_throttle = record { per_account = 2; per_client = 0; window = 900; failures = λ _. [] }

abbrev plain_sessions : Sessions
plain_sessions = record {
  strip_lower = λ s. s;
  verify_password = λ kept given. str_eq kept given;
  issue_token = λ user. user.email;
}

abbrev ann_account : Account
ann_account = record { email = "ann"; disabled = false; password_hash = "right" }

abbrev wrong_once : LoginThrottle
wrong_once = (login plain_sessions fresh_throttle (ann_account ∷ []) "ann" "wrong" "here" 10).1

login-IsRecorded_example : IsRecorded 10 wrong_once
login-IsRecorded_example =
    login-IsRecorded plain_sessions fresh_throttle (ann_account ∷ []) "ann" "wrong" "here" 0 10
      (omega arith) (λ key. (tt, tt))

abbrev wrong_twice : LoginThrottle
wrong_twice = failed (failed fresh_throttle "ann" "here" 10) "ann" "here" 20

blocked_twice : (retry_after wrong_twice "ann" "here" 30).0 ≡ 1
unfolding retry_after failed set_failures same_key check_key limit_of unexpired wait_for str_eq
blocked_twice = refl

twice-IsAscending : IsAscending (wrong_twice.failures (account_key "ann"))
unfolding failed set_failures same_key str_eq
twice-IsAscending = ((omega arith, tt), (tt, tt))

client-IsAscending : IsAscending (wrong_twice.failures (client_key "here"))
unfolding failed set_failures same_key str_eq
client-IsAscending = ((omega arith, tt), (tt, tt))

retry_after_iff_example : (0 < (retry_after wrong_twice "ann" "here" 30).0) ↔ (
    IsThrottled wrong_twice (account_key "ann") 30 ⊎ IsThrottled wrong_twice (client_key "here") 30)
retry_after_iff_example =
    retry_after_iff wrong_twice "ann" "here" 30 twice-IsAscending client-IsAscending

twice-IsWithin : IsWithin wrong_twice
unfolding failed set_failures same_key limit_of str_eq
twice-IsWithin (account_key e) limited = elim (Bool-cases (str_eq e "ann")) [
  | inl same ↦ rw same omega arith
  | inr differs ↦ rw differs omega arith
]
twice-IsWithin (client_key c) limited = absurd (omega (arith, limited))

retry_after-frees_example :
    (retry_after
      (retry_after wrong_twice "ann" "here" 30).1
      "ann"
      "here"
      (30 + (retry_after wrong_twice "ann" "here" 30).0 * second)).0
    ≡ 0
retry_after-frees_example = retry_after-frees wrong_twice "ann" "here" 30 twice-IsWithin

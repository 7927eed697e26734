-- ===== src/Platform/Storage/Bound.antt =====
-- Objects round trip, keep apart, and open only for the tenant and the key they were put under.
use model_passport.Prelude.{
  Bool-cases, length, keep, any, ℕ, ◌≡◌, refl, sym, ap, ◌∙◌, subst, inl, inr, Bool, false, ◌||◌,
  some, List, [], ◌∷◌, ◌++◌, arith, cons-tail, cons-head, same_text_iff,
}
use model_passport.Prelude.Outcome.{Outcome, ok, err, ◌>>=◌, >>=-eq-ok, ok-eq, Outcome-cases}
use model_passport.Platform.Storage.{
  Text, StorageError, parts_of, is_dots, join, no_parts, safe, ObjectStore, Bucket, object_at,
  without, from_object, s3_put, s3_get, s3_store, TenantStore, object_prefix, full_key, context_of,
  opened, put, get_sealed, same_text,
}
use model_passport.Platform.Storage.Keys.{
  IsPart, parts_of-append, parts_of-whole, parts_of-join, parts_of-IsPart,
}
use model_passport.Platform.Security.Sealed.{decrypt-encrypt, decrypt-bound}
use model_passport.Platform.Security.{
  Aead, DecryptionError, nonce_bytes, encrypt, decrypt, same_key,
}

-- The identifier of a tenant is a part that a key can have, and not dots.
abbrev pub IsNamed : TenantStore → Type 0
IsNamed tenant = IsPart tenant.tenant_id × (is_dots tenant.tenant_id ≡ false)

or_false : (a b : Bool) → (a || b) ≡ false → (a ≡ false) × (b ≡ false)
or_false a b e = (ground arith, ground arith)

append-cancel : {A : Type 0} (p : List A) {a b : List A} → p ++ a ≡ p ++ b → a ≡ b
append-cancel [] e = e
append-cancel (x ∷ p) e = append-cancel p (cons-tail e)

join-cons :
    (part : Text) (parts : List Text)
    → no_parts parts ≡ false
    → join (part ∷ parts) ≡ part ++ b'/' ∷ join parts
unfolding join
join-cons part [] e = absurd (cc)
join-cons part (p ∷ parts) e = refl

safe-ok :
    (key : Text) {name : Text}
    → safe key ≡ ok name
    → (no_parts (parts_of key) ≡ false)
      × (any is_dots (parts_of key) ≡ false)
      × (name ≡ join (parts_of key))
unfolding safe
safe-ok key h = elim (Bool-cases (no_parts (parts_of key) || any is_dots (parts_of key))) [
  | inl e ↦ absurd (let h' = rw (safe, e) at h in cc)
  | inr e ↦
      let (some_parts, no_dots) = or_false _ _ e in
      (some_parts, no_dots, sym (ok-eq (rw (safe, e) at h)))
]

-- A full key is the parts of the tenant and of the key, joined, and it is safe as it is.
full_key-ok :
    (tenant : TenantStore) (key : Text) {full : Text}
    → IsNamed tenant
    → full_key tenant key ≡ ok full
    → (parts_of full ≡ tenant.tenant_id ∷ parts_of key) × (safe full ≡ ok full)
unfolding full_key safe any
full_key-ok tenant key {full} (is_part, no_dots) h =
    let (name, e, h') = >>=-eq-ok (safe key) _ h in
    let (some_parts, none_dots, same) = safe-ok key e in
    let whole : full ≡ tenant.tenant_id ++ b'/' ∷ join (parts_of key) =
      sym (ok-eq h') ∙ ap (λ n. tenant.tenant_id ++ b'/' ∷ n) same in
    let split_up : parts_of full ≡ tenant.tenant_id ∷ parts_of key =
      ap parts_of whole
      ∙ parts_of-append tenant.tenant_id (join (parts_of key))
      ∙ rw
          (
            parts_of-whole tenant.tenant_id is_part,
            parts_of-join (parts_of key) (parts_of-IsPart key),
          )
          refl in
    (
      split_up,
      rw (safe, split_up, no_dots, none_dots)
          (ap ok (join-cons tenant.tenant_id (parts_of key) some_parts ∙ sym whole)),
    )

-- Two tenants' keys that give the same full key are the same.
full_key_same :
    (tenant owner : TenantStore) (key key' : Text) {full : Text}
    → IsNamed tenant
    → IsNamed owner
    → full_key tenant key ≡ ok full
    → full_key owner key' ≡ ok full
    → (tenant.tenant_id ≡ owner.tenant_id) × (parts_of key ≡ parts_of key')
full_key_same tenant owner key key' named named' e e' =
    let (split_up, _) = full_key-ok tenant key named e in
    let (split_up', _) = full_key-ok owner key' named' e' in
    let same = sym split_up ∙ split_up' in (cons-head same, cons-tail same)

object_at-without :
    (key other_key : Text) (bucket : Bucket)
    → same_text key other_key ≡ false
    → object_at other_key (without key bucket) ≡ object_at other_key bucket
unfolding object_at without keep
object_at-without key other_key [] differs = refl
object_at-without key other_key ((name, data_) ∷ bucket) differs =
    let later = object_at-without key other_key bucket differs in
    elim (Bool-cases (same_text name key)) [
      | inl e ↦
          let apart =
            subst (λ n. same_text n other_key ≡ false) (sym ((same_text_iff name key).0 e))
              differs in
          rw (e, apart) later
      | inr e ↦ rw e rw later refl
    ]

object_at-here :
    (name : Text) (data_ : List ℕ) (bucket : Bucket)
    → object_at name ((name, data_) ∷ bucket) ≡ some data_
unfolding object_at
object_at-here name data_ bucket = rw ((same_text_iff name name).1 refl) refl

object_at-there :
    (name other_name : Text) (data_ : List ℕ) (bucket : Bucket)
    → same_text name other_name ≡ false
    → object_at other_name ((name, data_) ∷ bucket) ≡ object_at other_name bucket
unfolding object_at
object_at-there name other_name data_ bucket differs = rw differs refl

s3_put-get :
    (bucket : Bucket) (key : Text) (data_ : List ℕ) {name : Text}
    → safe key ≡ ok name
    → (s3_put bucket key data_ ≡ ok ((name, data_) ∷ without name bucket))
      × (s3_get ((name, data_) ∷ without name bucket) key ≡ ok data_)
unfolding s3_put s3_get
s3_put-get bucket key data_ {name} e = (
  rw (s3_put, e) refl,
  rw (s3_get, e) (ap from_object (object_at-here name data_ (without name bucket))),
)

ne-same_text : {s t : Text} → ¬ (s ≡ t) → same_text s t ≡ false
ne-same_text {s} {t} differs = elim (Bool-cases (same_text s t)) [
  | inl e ↦ absurd (differs ((same_text_iff s t).0 e))
  | inr e ↦ e
]

-- A put leaves what other names give.
s3_put_kept :
    (bucket : Bucket) (key other_key : Text) (data_ : List ℕ) {name other_name : Text}
    → safe key ≡ ok name
    → safe other_key ≡ ok other_name
    → same_text name other_name ≡ false
    → s3_get ((name, data_) ∷ without name bucket) other_key ≡ s3_get bucket other_key
unfolding s3_get
s3_put_kept bucket key other_key data_ {name} {other_name} e e' differs =
    rw (s3_get, e')
      (ap from_object (
        object_at-there name other_name data_ (without name bucket) differs
        ∙ object_at-without name other_name bucket differs))

opened-ok :
    (o : Outcome DecryptionError (List ℕ)) {found : List ℕ}
    → opened o ≡ ok found
    → (value : List ℕ) × (o ≡ ok value) × (value ≡ found)
opened-ok (ok value) e = (value, refl, ok-eq e)
opened-ok (err x) e = absurd (cc)

module _ (aead : Aead) where
  -- What a tenant puts under a key that is safe, with a nonce of twelve bytes, it gets back, through
  -- the bucket and the encryption.
  pub put-get_sealed :
      (tenant : TenantStore) (bucket : Bucket) (nonce : List ℕ) (key : Text) (data_ : List ℕ)
      {full : Text}
      → IsNamed tenant
      → length nonce ≡ nonce_bytes
      → full_key tenant key ≡ ok full
      → (after : Bucket) × (put aead s3_store tenant bucket nonce key data_ ≡ ok after)
        × (get_sealed aead s3_store tenant after key ≡ ok data_)
  unfolding put get_sealed s3_store
  put-get_sealed tenant bucket nonce key data_ {full} named width e =
      let (_, safe_full) = full_key-ok tenant key named e in
      let blob = encrypt aead nonce tenant.data_key data_ (context_of aead full) in
      let (stored, found) = s3_put-get bucket full blob safe_full in
      (
        (full, blob) ∷ without full bucket,
        rw (put, e, stored) refl,
        rw
            (
              get_sealed,
              e,
              found,
              decrypt-encrypt aead nonce tenant.data_key data_ (context_of aead full) width,
            )
            refl,
      )

  -- A put changes nothing that another tenant gets, nor what the tenant gets under another key.
  pub put_kept :
      (tenant reader : TenantStore) (bucket after : Bucket) (nonce : List ℕ) (key other_key : Text)
      (data_ : List ℕ)
      → IsNamed tenant
      → IsNamed reader
      → ¬ ((tenant.tenant_id ≡ reader.tenant_id) × (parts_of key ≡ parts_of other_key))
      → put aead s3_store tenant bucket nonce key data_ ≡ ok after
      → get_sealed aead s3_store reader after other_key
        ≡ get_sealed aead s3_store reader bucket other_key
  unfolding put get_sealed s3_store
  put_kept tenant reader bucket after nonce key other_key data_ named named' differs h =
      let (full, e, h') = >>=-eq-ok (full_key tenant key) _ h in
      let (_, safe_full) = full_key-ok tenant key named e in
      let blob = encrypt aead nonce tenant.data_key data_ (context_of aead full) in
      let (stored, _) = s3_put-get bucket full blob safe_full in
      let same = ok-eq (sym h' ∙ stored) in
      elim (Outcome-cases (full_key reader other_key)) [
        | inr (x, e') ↦ rw (get_sealed, e') refl
        | inl (full', e') ↦
            let (_, safe_full') = full_key-ok reader other_key named' e' in
            let apart : same_text full full' ≡ false = ne-same_text (λ equal.
              differs
                (full_key_same tenant reader key other_key named named' (e ∙ ap ok equal) e')) in
            rw (get_sealed, e', same)
              (ap
                (λ (b : Outcome StorageError (List ℕ)). b >>= (λ blob'.
                  opened (decrypt aead reader.data_key blob' (context_of aead full'))))
                (s3_put_kept bucket full full' blob safe_full safe_full' apart))
      ]

  -- A blob that a tenant can read under a key was put there, by whoever put it and wherever it was
  -- copied from, with that tenant's data key, for that tenant and for that key.
  pub get_sealed-bound :
      {Store : Type 0} (objects : ObjectStore Store) (reader owner : TenantStore) (store : Store)
      (nonce : List ℕ) (key written : Text) (plain found : List ℕ) {full origin : Text}
      → IsNamed reader
      → IsNamed owner
      → length nonce ≡ nonce_bytes
      → full_key reader key ≡ ok full
      → full_key owner written ≡ ok origin
      → objects.get_object store full
        ≡ ok (encrypt aead nonce owner.data_key plain (context_of aead origin))
      → get_sealed aead objects reader store key ≡ ok found
      → (reader.data_key ≡ owner.data_key)
        × (reader.tenant_id ≡ owner.tenant_id)
        × (parts_of key ≡ parts_of written)
  unfolding get_sealed
  get_sealed-bound objects reader owner store nonce key written plain found {full} {origin} named
        named' width e e' there h =
      let h1 = rw (get_sealed, e, there) at h in
      let (value, decrypted_value, _) = opened-ok _ h1 in
      let (same_key, same_context) =
        decrypt-bound aead nonce reader.data_key owner.data_key plain (context_of aead full)
          (context_of aead origin) width decrypted_value in
      let same_full : full ≡ origin =
        append-cancel object_prefix (aead.encode_injective _ _ same_context) in
      let (ids, parts) =
        full_key_same reader owner key written named named' e (e' ∙ ap ok (sym same_full)) in
      (same_key, ids, parts)

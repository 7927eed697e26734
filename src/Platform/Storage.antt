-- ===== src/Platform/Storage.antt =====
-- src/model_passport/platform/storage.py: one tenant's objects, sealed, in a shared store.
--
-- A key is the list of its characters. The bucket of `S3Store` is the list of its objects; a store
-- is used through the record `ObjectStore`.
pub mod Keys
pub mod Bound
use model_passport.Prelude.{
  ◌==◌, if◌then◌else◌, keep, any, ℕ, Bool, true, false, ◌||◌, not, Option, none, some, List, [],
  ◌∷◌, ◌++◌, same_text,
}
use model_passport.Prelude.Outcome.{Outcome, ok, err, ◌>>=◌, ◌>>◌}
use model_passport.Platform.Security.{Aead, DecryptionError, encrypt, decrypt}

abbrev pub Text : Type 0
Text = List ℕ

pub data StorageError : Type 0 where
  invalid_key object_not_found undecryptable : StorageError

-- The first part of a split text is extended to the left.
abbrev pub onto_first : ℕ → List Text → List Text
onto_first c [] = (c ∷ []) ∷ []
onto_first c (part ∷ parts) = (c ∷ part) ∷ parts

-- `key.split("/")`
unfoldable pub split : Text → List Text
split [] = [] ∷ []
split (c ∷ s) = let rest = split s in if c == b'/' then [] ∷ rest else onto_first c rest

-- `if p`
abbrev pub is_given : Text → Bool
is_given [] = false
is_given (_ ∷ _) = true

unfoldable pub parts_of : Text → List Text
unfolding split
parts_of key = keep is_given (split key)

-- `p in {".", ".."}`
unfoldable pub is_dots : Text → Bool
unfolding same_text
is_dots part = same_text part (b'.' ∷ []) || same_text part (b'.' ∷ b'.' ∷ [])

-- `"/".join(parts)`
unfoldable pub join : List Text → Text
join [] = []
join (part ∷ []) = part
join (part ∷ other ∷ parts) = part ++ b'/' ∷ join (other ∷ parts)

abbrev pub no_parts : List Text → Bool
no_parts [] = true
no_parts (_ ∷ _) = false

-- `_safe`
unfoldable pub safe : Text → Outcome StorageError Text
unfolding parts_of is_dots join
safe key =
    if no_parts (parts_of key) || any is_dots (parts_of key)
    then err invalid_key
    else ok (join (parts_of key))

-- What a tenant's store needs of an object store.
pub record ObjectStore (Store : Type 0) : Type 0 where
  pub put_object : Store → Text → List ℕ → Outcome StorageError Store
  pub get_object : Store → Text → Outcome StorageError (List ℕ)
  pub delete_object : Store → Text → Outcome StorageError Store

abbrev pub Bucket : Type 0
Bucket = List (Text × List ℕ)

unfoldable pub object_at : Text → Bucket → Option (List ℕ)
unfolding same_text
object_at key [] = none
object_at key ((other, data_) ∷ bucket) =
    let rest = object_at key bucket in if same_text other key then some data_ else rest

unfoldable pub without : Text → Bucket → Bucket
unfolding same_text
without key bucket = keep (λ o. not (same_text o.0 key)) bucket

abbrev pub from_object : Option (List ℕ) → Outcome StorageError (List ℕ)
from_object none = err object_not_found
from_object (some data_) = ok data_

unfoldable pub s3_put : Bucket → Text → List ℕ → Outcome StorageError Bucket
unfolding safe without
s3_put bucket key data_ = do name ← safe key; ok ((name, data_) ∷ without name bucket)

unfoldable pub s3_get : Bucket → Text → Outcome StorageError (List ℕ)
unfolding safe object_at
s3_get bucket key = do name ← safe key; from_object (object_at name bucket)

unfoldable pub s3_delete : Bucket → Text → Outcome StorageError Bucket
unfolding safe without
s3_delete bucket key = do name ← safe key; ok (without name bucket)

unfoldable pub s3_store : ObjectStore Bucket
unfolding s3_put s3_get s3_delete
s3_store = record { put_object = s3_put; get_object = s3_get; delete_object = s3_delete }

pub record TenantStore : Type 0 where
  pub tenant_id : Text
  pub data_key : List ℕ

-- `object:`
abbrev pub object_prefix : Text
object_prefix = b'o' ∷ b'b' ∷ b'j' ∷ b'e' ∷ b'c' ∷ b't' ∷ b':' ∷ []

-- `TenantStore._key`
unfoldable pub full_key : TenantStore → Text → Outcome StorageError Text
unfolding safe
full_key tenant key = do name ← safe key; ok (tenant.tenant_id ++ b'/' ∷ name)

-- `TenantStore._context`
abbrev pub context_of : Aead → Text → List ℕ
context_of aead full = aead.encode (object_prefix ++ full)

abbrev pub opened : Outcome DecryptionError (List ℕ) → Outcome StorageError (List ℕ)
opened (ok data_) = ok data_
opened (err _) = err undecryptable

module _ {Store : Type 0} (aead : Aead) (objects : ObjectStore Store) where
  unfoldable pub put : TenantStore → Store → List ℕ → Text → List ℕ → Outcome StorageError Store
  unfolding full_key encrypt
  put tenant store nonce key data_ = do
    full ← full_key tenant key
    objects.put_object store full (encrypt aead nonce tenant.data_key data_ (context_of aead full))

  unfoldable pub get_sealed : TenantStore → Store → Text → Outcome StorageError (List ℕ)
  unfolding full_key decrypt
  get_sealed tenant store key = do
    full ← full_key tenant key
    blob ← objects.get_object store full
    opened (decrypt aead tenant.data_key blob (context_of aead full))

  unfoldable pub delete : TenantStore → Store → Text → Outcome StorageError Store
  unfolding full_key
  delete tenant store key = do full ← full_key tenant key; objects.delete_object store full

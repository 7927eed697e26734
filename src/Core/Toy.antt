-- ===== src/Core/Toy.antt =====
-- Small instances of the parameters of the core, for the tests.
use model_passport.Prelude.{
  ltb, if◌then◌else◌, length, concat, str_eq, str_eq_refl, ℕ, zero, suc, String, ◌≡◌, refl, ap,
  true, none, some, List, [], ◌∷◌, map, arith, false, ◌<◌,
}
use mathlib.Core.Option.{bind}
use model_passport.Core.Events.{Signing}
use model_passport.Core.Identity.{Digests, sorted, all_bytes}
use model_passport.Core.Document.{ArtifactKind, ArtifactRef, Document}
use model_passport.Core.Verifier.{Checking}

pub signed_not_empty : str_eq "signed" "" ≡ false
unfolding str_eq
signed_not_empty = refl

-- Every signature is the same text.
abbrev pub toy_signing : Signing
toy_signing = record {
  PrivateKey = Unit;
  PublicKey = Unit;
  canonical_json = λ e. e.event_type;
  sha256_bytes = λ s. concat "h" s;
  sign = λ _ _. "signed";
  verifies = λ _ _ s. str_eq s "signed";
  public_key = λ k. k;
  signs = λ k payload. str_eq_refl "signed";
  not_empty = λ k payload. signed_not_empty;
}

-- Every digest is 32 zeros.
abbrev pub zeros : ℕ → List ℕ
zeros zero = []
zeros (suc n) = 0 ∷ zeros n

pub zeros-length : (n : ℕ) → length (zeros n) ≡ n
zeros-length zero = refl
zeros-length (suc n) = ap suc (zeros-length n)

abbrev pub toy_digests : Digests
toy_digests = record {
  Hex = List ℕ;
  sha256 = λ _. zeros 32;
  fromhex = λ s. some ((if str_eq s "aa" then 1 else 2) ∷ []);
  hex = λ bytes. bytes;
  width = λ _. zeros-length 32;
  hex_injective = λ _ _ e. e;
}

pub all_bytes-toy :
    (hashes : List String)
    → (bytes : List (List ℕ)) × (all_bytes toy_digests.fromhex hashes ≡ some bytes)
unfolding all_bytes bind
all_bytes-toy [] = ([], refl)
all_bytes-toy (h ∷ hashes) =
    let (bytes, e) = all_bytes-toy hashes in
    (((if str_eq h "aa" then 1 else 2) ∷ []) ∷ bytes, rw e refl)

pub some_given : (n : ℕ) → ltb 0 n ≡ true → 0 < n
some_given n e = ground arith

-- A document validates if it has an artifact, and its payload is the name of the model.
abbrev pub toy_checking : Checking
toy_checking = record {
  signing = toy_signing;
  digests = toy_digests;
  hex_text = λ _. "root";
  canonical_document = λ d. d.model_name;
  raw_bytes = λ _. "key";
  validates = λ d. ltb 0 (length d.artifacts);
  event_validates = λ _. true;
  artifacts_given = λ d e. some_given (length d.artifacts) e;
  hashes_hex = λ d _. all_bytes-toy (sorted (map (λ a. a.sha256) d.artifacts));
  event_added = λ d event e _. e;
}

abbrev pub weights : ArtifactRef
weights = record { path = "model.bin"; sha256 = "aa"; size_bytes = 3; kind = ArtifactKind.model }

abbrev pub toy_document : Document
toy_document = record {
  passport_id = "p1";
  model_name = "m";
  version = "1.0.0";
  created_at = 7;
  merkle_root = "root";
  public_key_fingerprint = "sha256:hkey";
  signature = some "signed";
  artifacts = weights ∷ [];
  datasets = [];
  metrics = [];
  policy_verdict = none;
  lineage_links = "p0" ∷ [];
  revision = none;
  others = "";
  events = [];
}

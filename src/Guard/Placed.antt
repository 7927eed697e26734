-- ===== src/Guard/Placed.antt =====
-- The vault: every placeholder stands for the value that it was made for.
use model_passport.Prelude.{
  Bool-cases, Option-cases, All, All-map, same_text, same_text_iff, ℕ, ◌+◌, ◌≤◌, ◌≡◌, refl, sym,
  ◌∙◌, subst, inl, inr, ◌&&◌, some, List, [], ◌∷◌, arith, some-eq,
}
use model_passport.Llm.Entities.{Text}
use model_passport.Guard.Vault.{
  Vault, token_of_value, value_of_token, count_of_kind, render, placeholder,
}
use model_passport.Guard.Tokens.{IsKind, render_injective}

-- The placeholder of an entry is that of a type and of a number that was counted.
abbrev pub IsCounted : List (Text × ℕ) → Text → Type 0
IsCounted counts token =
    (kind : Text) × (n : ℕ) × IsKind kind
    × (token ≡ render kind n)
    × (n ≤ count_of_kind kind counts)

-- Every placeholder of the vault was counted, and stands for the value that it was made for.
abbrev pub IsVault : Vault → Type 0
IsVault vault =
    All (λ (e : Text × Text). IsCounted vault.counts e.0) vault.values
    × All
        (λ (e : (Text × Text) × Text).
          (value_of_token e.1 vault.values ≡ some e.0.1)
          × ((kind : Text) × (n : ℕ) × IsKind kind × (e.1 ≡ render kind n)))
        vault.tokens

value_of_token-IsCounted :
    (counts : List (Text × ℕ)) (values : List (Text × Text)) (token : Text) {value : Text}
    → All (λ (e : Text × Text). IsCounted counts e.0) values
    → value_of_token token values ≡ some value
    → IsCounted counts token
unfolding value_of_token
value_of_token-IsCounted counts [] token all e = absurd (cc)
value_of_token-IsCounted counts ((t, v) ∷ values) token (h, all) e =
    elim (Bool-cases (same_text t token)) [
      | inl same ↦ subst (IsCounted counts) ((same_text_iff t token).0 same) h
      | inr differs ↦ value_of_token-IsCounted counts values token all (rw differs at e)
    ]

count_of_kind-more :
    (counts : List (Text × ℕ)) (kind other_kind : Text)
    → count_of_kind other_kind counts
      ≤ count_of_kind other_kind ((kind, count_of_kind kind counts + 1) ∷ counts)
unfolding count_of_kind
count_of_kind-more counts kind other_kind = elim (Bool-cases (same_text kind other_kind)) [
  | inl same ↦ rw same (
      subst (λ k. count_of_kind other_kind counts ≤ count_of_kind k counts + 1)
        (sym ((same_text_iff kind other_kind).0 same)) (omega arith))
  | inr differs ↦ rw differs omega arith
]

count_of_kind-new :
    (counts : List (Text × ℕ)) (kind : Text) (n : ℕ) → count_of_kind kind ((kind, n) ∷ counts) ≡ n
unfolding count_of_kind
count_of_kind-new counts kind n = rw ((same_text_iff kind kind).1 refl) refl

value_of_token-new :
    (values : List (Text × Text)) (token value : Text)
    → value_of_token token ((token, value) ∷ values) ≡ some value
unfolding value_of_token
value_of_token-new values token value = rw ((same_text_iff token token).1 refl) refl

value_of_token-old :
    (values : List (Text × Text)) (token new value : Text)
    → ¬ (new ≡ token)
    → value_of_token token ((new, value) ∷ values) ≡ value_of_token token values
unfolding value_of_token
value_of_token-old values token new value differs = elim (Bool-cases (same_text new token)) [
  | inl same ↦ absurd (differs ((same_text_iff new token).0 same))
  | inr e ↦ rw e refl
]

-- The next placeholder of a type is none of those in the vault.
fresh :
    (vault : Vault) (kind token : Text) {value : Text}
    → IsKind kind
    → All (λ (e : Text × Text). IsCounted vault.counts e.0) vault.values
    → value_of_token token vault.values ≡ some value
    → ¬ (render kind (count_of_kind kind vault.counts + 1) ≡ token)
fresh vault kind token k all e same =
    let (kind', n, k', made, counted) =
      value_of_token-IsCounted vault.counts vault.values token all e in
    let (kinds, numbers) =
      render_injective kind kind' (count_of_kind kind vault.counts + 1) n k k' (same ∙ made) in
    let counted' : n ≤ count_of_kind kind vault.counts =
      subst (λ x. n ≤ count_of_kind x vault.counts) (sym kinds) counted in
    omega (arith, numbers, counted')

token_of_value-at :
    (P : (Text × Text) × Text → Type 0) (kind value : Text) (tokens : List ((Text × Text) × Text))
    {token : Text}
    → All P tokens
    → token_of_value kind value tokens ≡ some token
    → P ((kind, value), token)
unfolding token_of_value
token_of_value-at P kind value [] all e = absurd (cc)
token_of_value-at P kind value (((k, v), t) ∷ tokens) (h, all) e =
    elim (Bool-cases (same_text k kind && same_text v value)) [
      | inl same ↦
          let same_kind : k ≡ kind = (same_text_iff k kind).0 (ground arith) in
          let same_value : v ≡ value = (same_text_iff v value).0 (ground arith) in
          let same_token = some-eq (rw same at e) in
          subst P (cc (same_kind, same_value, same_token)) h
      | inr differs ↦ token_of_value-at P kind value tokens all (rw differs at e)
    ]

-- What a new or a known placeholder leaves of the vault.
abbrev pub Placed : Vault → Text → Text × Vault → Type 0
Placed vault value (token, next) =
    IsVault next
    × (value_of_token token next.values ≡ some value)
    × ((kind : Text) × (n : ℕ) × IsKind kind × (token ≡ render kind n))
    × ((t v : Text)
        → value_of_token t vault.values ≡ some v
        → value_of_token t next.values ≡ some v)

pub placeholder-Placed :
    (kind value : Text) (vault : Vault)
    → IsKind kind
    → IsVault vault
    → Placed vault value (placeholder kind value vault)
unfolding placeholder
placeholder-Placed kind value vault k (values, tokens) =
    elim (Option-cases (token_of_value kind value vault.tokens)) [
      | inr (token, e) ↦
          let (stands, made) = token_of_value-at _ kind value vault.tokens tokens e in
          rw (placeholder, e) ((values, tokens), stands, made, λ t v h. h)
      | inl e ↦
          let n = count_of_kind kind vault.counts + 1 in
          let new = render kind n in
          rw (placeholder, e)
            (
              (
                (
                  (kind, n, k, refl, omega (arith, count_of_kind-new vault.counts kind n)),
                  All-map _ _ vault.values
                      (λ e' (kind', m, k', made, counted). (
                        kind',
                        m,
                        k',
                        made,
                        omega (arith, counted, count_of_kind-more vault.counts kind kind'),
                      ))
                      values,
                ),
                (
                  (value_of_token-new vault.values new value, (kind, n, k, refl)),
                  All-map _ _ vault.tokens
                      (λ e' (stands, made). (
                        value_of_token-old vault.values e'.1 new value
                              (fresh vault kind e'.1 k values stands)
                            ∙ stands,
                        made,
                      ))
                      tokens,
                ),
              ),
              value_of_token-new vault.values new value,
              (kind, n, k, refl),
              λ t v h.
                  value_of_token-old vault.values t new value (fresh vault kind t k values h) ∙ h,
            )
    ]

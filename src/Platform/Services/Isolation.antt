-- ===== src/Platform/Services/Isolation.antt =====
-- `get` of services.py keeps tenants apart.
use model_passport.Prelude.{
  Bool-cases, Option-cases, first, first_sound, All, first-Mem, All-at, str_eq, str_eq_iff, String,
  ◌≡◌, subst, inl, inr, false, ◌&&◌, List, arith,
}
use mathlib.Core.List.{Memᴰ}
use model_passport.Prelude.Outcome.{ok, err, ok-eq}
use model_passport.Platform.Services.{not_found, get_owned}

module _ {A : Type 0} (id_of tenant_of : A → String) (table : List A)
    (tenant_id object_id : String) where
  -- What `get` returns is a row of the table with the identifier that was asked for, and it
  -- belongs to the tenant.
  pub get_owned_sound :
      {r : A}
      → get_owned id_of tenant_of table tenant_id object_id ≡ ok r
      → Memᴰ r table × (id_of r ≡ object_id) × (tenant_of r ≡ tenant_id)
  unfolding get_owned
  get_owned_sound e = elim (Option-cases (first (λ r. str_eq (id_of r) object_id) table)) [
    | inl f ↦ absurd (let e' = rw (f, get_owned) at e in cc)
    | inr (found, f) ↦ elim (Bool-cases (str_eq (tenant_of found) tenant_id)) [
      | inr other ↦ absurd (let e' = rw (f, other, get_owned) at e in cc)
      | inl own ↦
          let same = ok-eq (rw (f, own, get_owned) at e) in
          subst (λ r. Memᴰ r table × (id_of r ≡ object_id) × (tenant_of r ≡ tenant_id)) same
            (
              first-Mem _ table f,
              (str_eq_iff _ _).0 (first_sound (λ r. str_eq (id_of r) object_id) table f),
              (str_eq_iff _ _).0 own,
            )
    ]
  ]

  -- Where no row of the tenant has the identifier, `get` answers as for an identifier that no row
  -- has: whether another tenant owns such an object cannot be told from the answer.
  get_owned_hidden :
      All (λ r. (str_eq (id_of r) object_id && str_eq (tenant_of r) tenant_id) ≡ false) table
      → get_owned id_of tenant_of table tenant_id object_id ≡ err (not_found object_id)
  unfolding get_owned
  get_owned_hidden none_owned =
      elim (Option-cases (first (λ r. str_eq (id_of r) object_id) table)) [
        | inl f ↦ rw (f, get_owned)
        | inr (found, f) ↦
            let matching = first_sound (λ r. str_eq (id_of r) object_id) table f in
            let foreign = All-at _ table none_owned (first-Mem _ table f) in
            let not_own : str_eq (tenant_of found) tenant_id ≡ false = ground arith in
            rw (f, get_owned) (rw not_own)
      ]

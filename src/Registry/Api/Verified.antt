-- ===== src/Registry/Api/Verified.antt =====
-- The rows of the registry stay verified, whatever requests are interleaved.
use model_passport.Prelude.{
  Option-cases, any, All, All-append, All-map, first-Mem, All-at, Unique, Unique-add, any-update,
  any-Mem, any-append, All-update_keep, Unique-update, All-zip, All-update_from, Unique-at, str_eq,
  str_eq_iff, str_eq_refl, ℕ, String, ◌≡◌, refl, sym, ap, ◌∙◌, subst, inl, inr, true, false, Option,
  List, [], ◌∷◌, ◌++◌,
}
use model_passport.Prelude.Outcome.{ok, ok-eq}
use model_passport.Core.Events.{LifecycleEvent}
use model_passport.Core.Document.{Document}
use model_passport.Core.Verifier.{Checking}
use model_passport.Registry.Db.{StoredPassport, Summary, row_of, find_passport, replace_document}
use model_passport.Registry.Api.{ed25519, Keys, RegistryContext, get_stored, upload, append_to}
use mathlib.Core.List.{Memᴰ}
use model_passport.Registry.Api.Accepted.{IsStored, append_to-ok, upload-ok, appended-IsStored}

abbrev pub SameColumns : StoredPassport → StoredPassport → Type 0
SameColumns a b =
    (a.public_key_pem ≡ b.public_key_pem)
    × (a.key_fingerprint ≡ b.key_fingerprint)
    × (a.merkle_root ≡ b.merkle_root)
    × (a.model_name ≡ b.model_name)
    × (a.version ≡ b.version)
    × (a.created_at ≡ b.created_at)
    × (a.verdict ≡ b.verdict)
    × (a.supersedes ≡ b.supersedes)

-- The table still has the row, and what it has under its identifier has the same columns.
abbrev pub IsPinned : List StoredPassport → StoredPassport → Type 0
IsPinned rows row =
    (any (λ r. str_eq r.passport_id row.passport_id) rows ≡ true)
    × All (λ r. str_eq r.passport_id row.passport_id ≡ true → SameColumns r row) rows

abbrev pub IdsUnique : List StoredPassport → Type 0
IdsUnique rows = Unique (λ a b. str_eq a.passport_id b.passport_id) rows

get_stored-Mem :
    (context : RegistryContext) (passport_id : String) {row : StoredPassport}
    → get_stored context passport_id ≡ ok row
    → Memᴰ row context.rows
unfolding get_stored find_passport
get_stored-Mem context passport_id h =
    elim (Option-cases (find_passport context.rows passport_id)) [
      | inl e ↦ absurd (let h' = rw (get_stored, e) at h in cc)
      | inr (row, e) ↦
          subst (λ r. Memᴰ r context.rows) (ok-eq (rw (get_stored, e) at h))
            (first-Mem _ context.rows (unfold find_passport in e))
    ]

module _ (c : Checking) (lib : Keys c) where
  -- Requests against one table: `held` are the rows that requests have loaded and not yet used.
  pub data Reached : RegistryContext → List StoredPassport → Type 0 where
    started : (context : RegistryContext) → context.rows ≡ [] → Reached context []
    loaded :
        (context : RegistryContext) (held : List StoredPassport) (passport_id : String)
        (row : StoredPassport)
        → Reached context held
        → get_stored context passport_id ≡ ok row
        → Reached context (row ∷ held)
    uploaded :
        (context next : RegistryContext) (held : List StoredPassport)
        (authorization : Option String) (document : Document) (pem : String) (now : ℕ)
        (shown : Summary)
        → Reached context held
        → upload c lib context authorization document pem now ≡ ok (shown, next)
        → Reached next held
    appended :
        (context next : RegistryContext) (held : List StoredPassport) (row : StoredPassport)
        (event : LifecycleEvent) (count : ℕ)
        → Reached context held
        → Memᴰ row held
        → append_to c lib context row event ≡ ok (count, next)
        → Reached next held

  IsStored-replaced :
      (row r : StoredPassport) (event : LifecycleEvent)
      → IsStored c lib row
      → IsStored c lib (record row {
        document = record row.document { events = row.document.events ++ event ∷ [] };
      })
      → SameColumns r row
      → str_eq r.passport_id row.passport_id ≡ true
      → IsStored c lib (record r {
        document = record row.document { events = row.document.events ++ event ∷ [] };
      })
  IsStored-replaced row r event
        (
          _,
          same_id,
          same_key,
          same_root,
          (same_name, same_version, same_created, same_verdict, same_parent),
        )
        ((key, loads, good), _, _, _, _)
        (pem, key_column, root_column, name, version, created, verdict, parent) same =
      (
        (key, pem_loads, good),
        (str_eq_iff _ _).0 same ∙ same_id,
        key_column ∙ same_key,
        root_column ∙ same_root,
        (
          name ∙ same_name,
          version ∙ same_version,
          created ∙ same_created,
          verdict ∙ same_verdict,
          parent ∙ same_parent,
        ),
      )
    where
      pem_loads : lib.load_pem_public_key r.public_key_pem ≡ ed25519 key
      pem_loads = ap lib.load_pem_public_key pem ∙ loads

  abbrev pub IsSound : List StoredPassport → List StoredPassport → Type 0
  IsSound rows held =
      All (IsStored c lib) rows
      × IdsUnique rows
      × All (λ row. IsStored c lib row × IsPinned rows row) held

  replaced-IsSound :
      (rows held : List StoredPassport) (row : StoredPassport) (document : Document)
      → ((r : StoredPassport)
          → SameColumns r row
          → str_eq r.passport_id row.passport_id ≡ true
          → IsStored c lib (record r { document = document }))
      → IsPinned rows row
      → IsSound rows held
      → IsSound (replace_document rows row.passport_id document) held
  unfolding replace_document
  replaced-IsSound rows held row document good (_, pinned) (all, ids, kept) = (
    All-update_from
        (λ r. IsStored c lib r × (str_eq r.passport_id row.passport_id ≡ true → SameColumns r row))
        (IsStored c lib) _ _ rows (λ r (_, columns) e. good r (columns e) e)
        (λ r (stored, _) _. stored) (All-zip (IsStored c lib) _ rows all pinned),
    Unique-update _ _ _ rows (λ a b. refl) (λ a b. refl) ids,
    All-map _ _ held
        (λ l (stored, (there, same)). (
          stored,
          (any-update _ _ _ rows (λ r _. refl) ∙ there, All-update_keep _ _ _ rows (λ r f. f) same),
        ))
        kept,
  )

  str_eq-swap : (s t : String) → str_eq s t ≡ true → str_eq t s ≡ true
  str_eq-swap s t e = (str_eq_iff t s).1 (sym ((str_eq_iff s t).0 e))

  loaded-IsPinned :
      (rows : List StoredPassport) (row : StoredPassport)
      → IdsUnique rows
      → Memᴰ row rows
      → IsPinned rows row
  loaded-IsPinned rows row ids m = (
    any-Mem _ m (str_eq_refl row.passport_id),
    All-map _ _ rows
        (λ r only e.
          subst (λ x. SameColumns x row) (sym (only e))
            (refl, refl, refl, refl, refl, refl, refl, refl))
        (Unique-at _ (λ a b e. str_eq-swap a.passport_id b.passport_id e) rows ids m),
  )

  added-IsPinned :
      (rows : List StoredPassport) (row new : StoredPassport)
      → any (λ r. str_eq r.passport_id new.passport_id) rows ≡ false
      → IsPinned rows row
      → IsPinned (rows ++ new ∷ []) row
  added-IsPinned rows row new free (there, pinned) = (
    any-append _ rows _ there,
    All-append _ rows (new ∷ []) pinned (
      (λ e. absurd (
          cc (
            free,
            subst (λ x. any (λ r. str_eq r.passport_id x) rows ≡ true) (sym ((str_eq_iff _ _).0 e))
                there,
          ))),
      tt,
    ),
  )

  -- Whatever uploads and appended events are interleaved, with rows that were loaded before other
  -- requests changed the table: every row of the table has a key that loads, and a document that
  -- passes every check with that key, and its identifier, fingerprint, Merkle root, model name,
  -- version, time, verdict and superseded passport are those of the document; identifiers stay
  -- unique; and the rows that are held are such rows too.
  pub Reached-IsSound :
      {context : RegistryContext} {held : List StoredPassport}
      → Reached context held
      → IsSound context.rows held
  unfolding row_of
  Reached-IsSound (started context e) = rw e (tt, tt, tt)
  Reached-IsSound (loaded context held passport_id row before e) =
      let (all, ids, kept) = Reached-IsSound before in
      let m = get_stored-Mem context passport_id e in
      (
        all,
        ids,
        (
          (All-at (IsStored c lib) context.rows all m, loaded-IsPinned context.rows row ids m),
          kept,
        ),
      )
  Reached-IsSound (uploaded context next held authorization document pem now shown before e) =
      let (all, ids, kept) = Reached-IsSound before in
      let (free, stored, same) = upload-ok c lib context authorization document pem now e in
      subst (λ (x : RegistryContext). IsSound x.rows held) (sym same)
        (
          All-append (IsStored c lib) context.rows _ all (stored, tt),
          Unique-add _ context.rows (row_of document pem now) ids free,
          All-map _ _ held
              (λ row (good, pinned).
                (good, added-IsPinned context.rows row (row_of document pem now) free pinned))
              kept,
        )
  Reached-IsSound (appended context next held row event count before m e) =
      let (all, ids, kept) = Reached-IsSound before in
      let (good, pinned) = All-at (λ r. IsStored c lib r × IsPinned context.rows r) held kept m in
      let (key, loads, event_valid, clear, same) = append_to-ok c lib context row event e in
      subst (λ (x : RegistryContext). IsSound x.rows held) (sym same)
        (replaced-IsSound context.rows held row _
          (λ r columns here.
            IsStored-replaced row r event good
              (appended-IsStored c lib row event key good loads event_valid clear) columns here)
          pinned (all, ids, kept))

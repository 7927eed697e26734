-- ===== src/Llm/Remediate/Originals.antt =====
-- What the findings are translated to: values that no earlier round replaced.
use model_passport.Prelude.{
  Bool-cases, Option-cases, length, All, All-append, All-map, same_text, same_text_iff, ◌==◌, ℕ,
  ◌≡◌, refl, subst, inl, inr, true, some, List, [], ◌∷◌,
}
use mathlib.Core.List.{Memᴰ}
use mathlib.Core.List.Memᴰ.{head, tail}
use model_passport.Llm.Entities.{Text, Span, slice}
use model_passport.Llm.Sanitize.{Record, Targets, is_target}
use model_passport.Llm.Remediate.{translated, translate_one, translate, last_of}

-- A position of the copy that stands for a wanted one of the original, with the same value there.
abbrev pub IsOriginalIn : Targets → Record → Record → ℕ × ℕ → Type 0
IsOriginalIn wanted original copy t =
    (s : Span) × Memᴰ s original.entities
    × (now : Span) × Memᴰ now copy.entities
    × (t ≡ (now.start, now.end))
    × (is_target s wanted ≡ true)
    × (slice now.start now.end copy.text ≡ slice s.start s.end original.text)

-- The same, for the records of an id in two corpora.
abbrev pub IsOriginal : (Text → Targets) → List Record → List Record → Text → ℕ × ℕ → Type 0
IsOriginal targets raw train id t =
    (original : Record) × Memᴰ original raw
    × (original.id ≡ id)
    × (copy : Record) × (last_of id train ≡ some copy)
    × IsOriginalIn (targets id) original copy t

translated-IsOriginal :
    (wanted : Targets) (original copy : Record) (spans copies : List Span)
    → ((s : Span) → Memᴰ s spans → Memᴰ s original.entities)
    → ((s : Span) → Memᴰ s copies → Memᴰ s copy.entities)
    → All (IsOriginalIn wanted original copy) (translated true wanted original copy spans copies)
unfolding translated
translated-IsOriginal wanted original copy [] copies in_one in_other = tt
translated-IsOriginal wanted original copy (s ∷ spans) [] in_one in_other = tt
translated-IsOriginal wanted original copy (s ∷ spans) (now ∷ copies) in_one in_other =
    let rest =
      translated-IsOriginal wanted original copy spans copies (λ x m. in_one x (tail m))
        (λ x m. in_other x (tail m)) in
    let same = same_text (slice now.start now.end copy.text) (slice s.start s.end original.text) in
    elim (Bool-cases (is_target s wanted)) [
      | inr e ↦ rw e rest
      | inl e ↦ elim (Bool-cases same) [
        | inr e' ↦ rw (e, e') rest
        | inl e' ↦
            rw (e, e')
              (
                (
                  s,
                  in_one s (head refl),
                  now,
                  in_other now (head refl),
                  refl,
                  e,
                  (same_text_iff _ _).0 e',
                ),
                rest,
              )
      ]
    ]

translate_one-IsOriginal :
    (wanted : Targets) (original copy : Record)
    → All (IsOriginalIn wanted original copy) (translate_one true wanted original (some copy))
unfolding translate_one
translate_one-IsOriginal wanted original copy =
    elim (Bool-cases (length copy.entities == length original.entities)) [
      | inl e ↦ rw e (
          translated-IsOriginal wanted original copy original.entities copy.entities (λ _ m. m)
            (λ _ m. m))
      | inr e ↦ rw e tt
    ]

translate_one-here :
    (targets : Text → Targets) (r : Record) (raw train : List Record) (id : Text)
    → r.id ≡ id
    → All
        (IsOriginal targets (r ∷ raw) train id)
        (translate_one true (targets r.id) r (last_of r.id train))
unfolding translate_one
translate_one-here targets r raw train id same = elim (Option-cases (last_of r.id train)) [
  | inl e ↦ rw e tt
  | inr (copy, e) ↦ rw e (
      All-map _ _ (translate_one true (targets r.id) r (some copy))
        (λ t h. (
          r,
          head refl,
          same,
          copy,
          subst (λ i. last_of i train ≡ some copy) same e,
          subst (λ i. IsOriginalIn (targets i) r copy t) same h,
        ))
        (translate_one-IsOriginal (targets r.id) r copy))
]

-- Every position that the findings are translated to is that of a span in the last record of the
-- id, which stands for a wanted span of a record with the id in the original corpus, and its value is
-- still the original one.
pub translate-IsOriginal :
    (targets : Text → Targets) (raw train : List Record) (id : Text)
    → All (IsOriginal targets raw train id) (translate true targets raw train id)
unfolding translate translate_one
translate-IsOriginal targets [] train id = tt
translate-IsOriginal targets (r ∷ raw) train id =
    let rest =
      All-map (IsOriginal targets raw train id) (IsOriginal targets (r ∷ raw) train id)
        (translate true targets raw train id)
        (λ t (original, m, same, copy, last, found). (original, tail m, same, copy, last, found))
        (translate-IsOriginal targets raw train id) in
    elim (Bool-cases (same_text r.id id)) [
      | inr e ↦ rw e rest
      | inl e ↦ rw e (
          All-append (IsOriginal targets (r ∷ raw) train id) _ _
            (translate_one-here targets r raw train id ((same_text_iff r.id id).0 e)) rest)
    ]

-- ===== src/Llm/Sanitize/Rewritten.antt =====
-- The spans of a rewritten record point at what stands for the values, and the rest is unchanged.
use model_passport.Prelude.{
  Bool-cases, Option-cases, length, length-append, All, All-map, same_text, same_text_iff, ℕ, zero,
  suc, ◌+◌, ◌-◌, ◌≤◌, ◌≡◌, refl, sym, ap, ◌∙◌, subst, ◌⊎◌, inl, inr, true, false, none, some, List,
  [], ◌∷◌, ◌++◌, arith,
}
use mathlib.Core.List.{append_assoc}
use model_passport.Llm.Entities.{Text, Span, from_index, up_to, slice, sort_spans}
use model_passport.Llm.Sanitize.{
  Record, Sampler, Strategy, Targets, is_target, replaced_at, replace_key, Shared, new_value,
  replacement_of, value_for, rewrite_from, rewrite,
}
use model_passport.Llm.Entities.Apart.{IsSpan, IsOrdered}

-- What two lists of spans have to do with each other, over the old and the new text: the types are
-- the same, a target's value is what the dictionary has for the old one, and another's is the old.
abbrev pub IsRewritten : Targets → Text → Text → List (Text × Text) → List Span → List Span → Type 0
IsRewritten targets text out known [] [] = Unit
IsRewritten targets text out known [] (_ ∷ _) = ⊥
IsRewritten targets text out known (_ ∷ _) [] = ⊥
IsRewritten targets text out known (s ∷ spans) (t ∷ new_spans) =
    (t.entity_type ≡ s.entity_type)
    × ((is_target s targets ≡ true)
          × (replaced_at (replace_key s.entity_type (slice s.start s.end text)) known
              ≡ some (slice t.start t.end out))
        ⊎ (is_target s targets ≡ false) × (slice t.start t.end out ≡ slice s.start s.end text))
    × IsRewritten targets text out known spans new_spans

from_index-append : (a b : Text) (n : ℕ) → n ≡ length a → from_index n (a ++ b) ≡ b
unfolding from_index
from_index-append [] b zero e = refl
from_index-append [] b (suc n) e = absurd (omega (arith, e))
from_index-append (x ∷ a) b zero e = absurd (omega (arith, e))
from_index-append (x ∷ a) b (suc n) e = from_index-append a b n (omega (arith, e))

up_to-append : (a b : Text) (n : ℕ) → n ≡ length a → up_to n (a ++ b) ≡ a
unfolding up_to
up_to-append [] b zero e = refl
up_to-append [] b (suc n) e = absurd (omega (arith, e))
up_to-append (x ∷ a) b zero e = absurd (omega (arith, e))
up_to-append (x ∷ a) b (suc n) e = ap (◌∷◌ x) (up_to-append a b n (omega (arith, e)))

-- The middle of a text.
slice-middle :
    (a b c : Text) (n m : ℕ) → n ≡ length a → m ≡ n + length b → slice n m (a ++ (b ++ c)) ≡ b
unfolding slice
slice-middle a b c n m e e' =
    ap (up_to (m - n)) (from_index-append a (b ++ c) n e)
    ∙ up_to-append b c (m - n) (omega (arith, e'))

length-up_to : (n : ℕ) (text : Text) → n ≤ length text → length (up_to n text) ≡ n
unfolding up_to
length-up_to zero text le = refl
length-up_to (suc n) [] le = absurd (omega (arith, le))
length-up_to (suc n) (c ∷ text) le = omega (arith, length-up_to n text (omega (arith, le)))

length-from_index : (n : ℕ) (text : Text) → length (from_index n text) ≡ length text - n
unfolding from_index
length-from_index zero text = omega arith
length-from_index (suc n) [] = omega arith
length-from_index (suc n) (c ∷ text) = omega (arith, length-from_index n text)

length-slice : (a b : ℕ) (text : Text) → b ≤ length text → length (slice a b text) ≡ b - a
unfolding slice
length-slice a b text le =
    length-up_to (b - a) (from_index a text) (omega (arith, length-from_index a text, le))

module _ (lib : Sampler) where
  abbrev Keeps : List (Text × Text) → List (Text × Text) → Type 0
  Keeps old next = (k v : Text) → replaced_at k old ≡ some v → replaced_at k next ≡ some v

  replaced_at-add :
      (entries : List (Text × Text)) (key value : Text)
      → replaced_at key entries ≡ none
      → Keeps entries ((key, value) ∷ entries)
  unfolding replaced_at
  replaced_at-add entries key value absent k v h = elim (Bool-cases (same_text key k)) [
    | inl same ↦ absurd (
        let gone =
          subst (λ x. replaced_at x entries ≡ none) ((same_text_iff key k).0 same) absent in
        cc)
    | inr differs ↦ rw differs h
  ]

  replaced_at-here :
      (entries : List (Text × Text)) (key value : Text)
      → replaced_at key ((key, value) ∷ entries) ≡ some value
  unfolding replaced_at
  replaced_at-here entries key value = rw ((same_text_iff key key).1 refl) refl

  -- What stands for a value: the dictionary has it, and keeps what it had.
  value_for-known :
      (strategy : Strategy) (targets : Targets) (text : Text) (s : Span) (state : Shared lib)
      → Keeps state.replace (value_for lib strategy targets text s state).1.replace
        × ((is_target s targets ≡ true)
              × (replaced_at
                    (replace_key s.entity_type (slice s.start s.end text))
                    (value_for lib strategy targets text s state).1.replace
                  ≡ some (value_for lib strategy targets text s state).0)
            ⊎ (is_target s targets ≡ false)
              × ((value_for lib strategy targets text s state).0 ≡ slice s.start s.end text))
  unfolding value_for replacement_of
  value_for-known strategy targets text s state =
      let key = replace_key s.entity_type (slice s.start s.end text) in
      elim (Bool-cases (is_target s targets)) [
        | inr no_target ↦ rw (no_target) (λ k v h. h, inr (refl, refl))
        | inl target ↦ elim (Option-cases (replaced_at key state.replace)) [
          | inr (known, e) ↦ rw (value_for, target, replacement_of, e) (λ k v h. h, inl (refl, e))
          | inl e ↦
              let fresh =
                new_value lib strategy s.entity_type (slice s.start s.end text) state.sampler in
              rw (value_for, target, replacement_of, e)
                (
                  replaced_at-add state.replace key fresh.0 e,
                  inl (refl, replaced_at-here state.replace key fresh.0),
                )
        ]
      ]

  rewrite_from-IsRewritten :
      (strategy : Strategy) (targets : Targets) (text : Text) (cursor grown cut : ℕ)
      (spans : List Span) (state : Shared lib)
      → All (λ s. cursor ≤ s.start) spans
      → IsOrdered spans
      → All (IsSpan (length text)) spans
      → Keeps state.replace
          (rewrite_from lib strategy targets text cursor grown cut spans state).1.1.replace
        × ((done : Text) (known : List (Text × Text))
            → length done + cut ≡ cursor + grown
            → Keeps
                (rewrite_from lib strategy targets text cursor grown cut spans state).1.1.replace
                known
            → IsRewritten targets text
                (done ++ (rewrite_from lib strategy targets text cursor grown cut spans state).0)
                known
                spans
                (rewrite_from lib strategy targets text cursor grown cut spans state).1.0)
  unfolding rewrite_from
  rewrite_from-IsRewritten strategy targets text cursor grown cut [] state le ordered inside =
      (λ k v h. h, λ done known e keeps. tt)
  rewrite_from-IsRewritten strategy targets text cursor grown cut (s ∷ spans) state (le, _)
        (after, ordered) ((some_span, within), inside) =
      let v = value_for lib strategy targets text s state in
      let gap = slice cursor s.start text in
      let gap_size : length gap ≡ s.start - cursor =
        length-slice cursor s.start text (omega (arith, some_span, within)) in
      let (keeps_one, cases) = value_for-known strategy targets text s state in
      let more =
        rewrite_from lib strategy targets text s.end (grown + length v.0) (cut + (s.end - s.start))
          spans v.1 in
      let (keeps_more, later) =
        rewrite_from-IsRewritten strategy targets text s.end (grown + length v.0)
          (cut + (s.end - s.start)) spans v.1 after ordered inside in
      (
        λ k w h. keeps_more k w (keeps_one k w h),
        λ done known e keeps.
            (let before = length-append done gap in
              let start : s.start + grown - cut ≡ length (done ++ gap) =
                omega (arith, before, gap_size, e, le) in
              let whole : done ++ (gap ++ v.0 ++ more.0) ≡ (done ++ gap) ++ (v.0 ++ more.0) =
                ap (λ x. done ++ x) (append_assoc gap v.0 more.0)
                ∙ sym (append_assoc done gap (v.0 ++ more.0)) in
              let joined : (done ++ gap ++ v.0) ++ more.0 ≡ done ++ (gap ++ v.0 ++ more.0) =
                append_assoc (done ++ gap) v.0 more.0 ∙ sym whole in
              let shown =
                ap (slice (s.start + grown - cut) (s.start + grown - cut + length v.0)) whole
                ∙ slice-middle (done ++ gap) v.0 more.0 (s.start + grown - cut) _ start refl in
              (
                refl,
                elim cases [
                  | inl (target, h) ↦
                      inl (target, keeps _ _ (keeps_more _ _ h) ∙ ap some (sym shown))
                  | inr (other, h) ↦ inr (other, shown ∙ h)
                ],
                subst (λ x. IsRewritten targets text x known spans more.1.0) joined
                    (later (done ++ gap ++ v.0) known
                      (omega (
                        arith,
                        length-append (done ++ gap) v.0,
                        before,
                        gap_size,
                        e,
                        le,
                        some_span,
                      ))
                      keeps),
              )),
      )

  -- The spans of a record that was rewritten are, in order, those of the record: each has its type,
  -- and in the new text its value is the old one, or, where it is a target, what the dictionary has
  -- for the type and the old value, when the spans do not overlap and are inside the old text.
  pub rewrite-IsRewritten :
      (strategy : Strategy) (targets : Targets) (r : Record) (state : Shared lib)
      → IsOrdered (sort_spans r.entities)
      → All (IsSpan (length r.text)) (sort_spans r.entities)
      → IsRewritten targets r.text
          (rewrite lib strategy targets r state).0.text
          (rewrite lib strategy targets r state).1.replace
          (sort_spans r.entities)
          (rewrite lib strategy targets r state).0.entities
  unfolding rewrite
  rewrite-IsRewritten strategy targets r state ordered inside =
      (rewrite_from-IsRewritten strategy targets r.text 0 0 0 (sort_spans r.entities) state
          (All-map _ _ (sort_spans r.entities) (λ s _. omega arith) inside) ordered inside).1
        [] _ refl (λ k v h. h)

-- ===== src/Llm/Entities/Apart.antt =====
-- The detected spans are inside the text, in order, and do not overlap.
use model_passport.Prelude.{
  leb, Bool-cases, leb-le, length, All, All-append, All-map, All-zip, ℕ, suc, ◌+◌, ◌≤◌, ◌<◌, ◌≡◌,
  ◌⊎◌, inl, inr, true, false, ◌||◌, not, List, [], ◌∷◌, ◌++◌, arith,
}
use model_passport.Llm.Entities.{
  Text, Span, Match, Patterns, detected_types, lstrip, rstrip, span_of, spans_of, found_by,
  apart_from, keep_apart, insert_span, sort_spans, detect, is_nil, onto_stripped, validates,
}

abbrev pub IsSpan : ℕ → Span → Type 0
IsSpan size s = (s.start < s.end) × (s.end ≤ size)

-- Each span ends before the next ones start.
abbrev pub IsOrdered : List Span → Type 0
IsOrdered [] = Unit
IsOrdered (s ∷ rest) = All (λ t. s.end ≤ t.start) rest × IsOrdered rest

abbrev Apart : Span → Span → Type 0
Apart s t = (s.end ≤ t.start) ⊎ (t.end ≤ s.start)

abbrev IsApart : List Span → Type 0
IsApart [] = Unit
IsApart (s ∷ rest) = All (Apart s) rest × IsApart rest

is_nil-length : (text : Text) → is_nil text ≡ false → 0 < length text
is_nil-length [] e = absurd (cc)
is_nil-length (c ∷ text) e = omega arith

module _ (lib : Patterns) where
  length-lstrip : (text : Text) → length (lstrip lib text) ≤ length text
  unfolding lstrip
  length-lstrip [] = omega arith
  length-lstrip (c ∷ text) = elim (Bool-cases (lib.is_space c)) [
    | inl e ↦ rw e omega (arith, length-lstrip text)
    | inr e ↦ rw e omega arith
  ]

  length-onto_stripped :
      (c : ℕ) (rest : Text) → length (onto_stripped lib c rest) ≤ suc (length rest)
  unfolding onto_stripped
  length-onto_stripped c [] = elim (Bool-cases (lib.is_space c)) [
    | inl e ↦ rw e omega arith
    | inr e ↦ rw e omega arith
  ]
  length-onto_stripped c (d ∷ rest) = omega arith

  length-rstrip : (text : Text) → length (rstrip lib text) ≤ length text
  unfolding rstrip
  length-rstrip [] = omega arith
  length-rstrip (c ∷ text) =
      omega (arith, length-onto_stripped c (rstrip lib text), length-rstrip text)

  span_of-IsSpan :
      (kind : Text) (m : Match) (size : ℕ)
      → m.at + length m.group ≤ size
      → All (IsSpan size) (span_of lib kind m)
  unfolding span_of
  span_of-IsSpan kind m size inside =
      let left = lstrip lib m.group in
      let value = rstrip lib left in
      let shorter = length-lstrip m.group in
      let shorter' = length-rstrip left in
      elim (Bool-cases (is_nil value || not (validates lib kind value))) [
        | inl e ↦ rw e tt
        | inr e ↦ rw e (
          (
            omega (arith, is_nil-length value (ground arith)),
            omega (arith, shorter, shorter', inside),
          ),
          tt,
        )
      ]

  spans_of-IsSpan :
      (kind : Text) (matches : List Match) (size : ℕ)
      → All (λ m. m.at + length m.group ≤ size) matches
      → All (IsSpan size) (spans_of lib kind matches)
  unfolding spans_of
  spans_of-IsSpan kind [] size inside = tt
  spans_of-IsSpan kind (m ∷ matches) size (h, inside) =
      All-append (IsSpan size) (span_of lib kind m) _ (span_of-IsSpan kind m size h)
        (spans_of-IsSpan kind matches size inside)

  found_by-IsSpan :
      (kinds : List Text) (text : Text) → All (IsSpan (length text)) (found_by lib kinds text)
  unfolding found_by
  found_by-IsSpan [] text = tt
  found_by-IsSpan (kind ∷ kinds) text =
      All-append (IsSpan (length text)) (spans_of lib kind (lib.finditer kind text)) _
        (spans_of-IsSpan kind (lib.finditer kind text) (length text) (lib.inside kind text))
        (found_by-IsSpan kinds text)

apart_from-Apart :
    (span : Span) (kept : List Span) → apart_from span kept ≡ true → All (λ k. Apart k span) kept
unfolding apart_from
apart_from-Apart span [] e = tt
apart_from-Apart span (k ∷ kept) e = (one, apart_from-Apart span kept (ground arith))
  where
    one : Apart k span
    one = elim (Bool-cases (leb k.end span.start)) [
      | inl h ↦ inl (leb-le _ _ h)
      | inr h ↦ inr (leb-le _ _ (ground arith))
    ]

IsApart-add :
    (kept : List Span) (span : Span)
    → All (λ k. Apart k span) kept
    → IsApart kept
    → IsApart (kept ++ span ∷ [])
IsApart-add [] span all apart = (tt, tt)
IsApart-add (k ∷ kept) span (h, all) (hs, apart) =
    (All-append (Apart k) kept (span ∷ []) hs (h, tt), IsApart-add kept span all apart)

keep_apart-IsApart :
    (size : ℕ) (kept found : List Span)
    → IsApart kept
    → All (IsSpan size) kept
    → All (IsSpan size) found
    → IsApart (keep_apart kept found) × All (IsSpan size) (keep_apart kept found)
unfolding keep_apart
keep_apart-IsApart size kept [] apart spans found = (apart, spans)
keep_apart-IsApart size kept (span ∷ found) apart spans (h, hs) =
    elim (Bool-cases (apart_from span kept)) [
      | inl e ↦ rw e (
          keep_apart-IsApart size (kept ++ span ∷ []) found
            (IsApart-add kept span (apart_from-Apart span kept e) apart)
            (All-append (IsSpan size) kept (span ∷ []) spans (h, tt)) hs)
      | inr e ↦ rw e (keep_apart-IsApart size kept found apart spans hs)
    ]

All-insert_span :
    (P : Span → Type 0) (span : Span) (spans : List Span)
    → P span
    → All P spans
    → All P (insert_span span spans)
unfolding insert_span
All-insert_span P span [] h all = (h, tt)
All-insert_span P span (s ∷ spans) h (hs, all) = elim (Bool-cases (leb span.start s.start)) [
  | inl e ↦ rw e (h, (hs, all))
  | inr e ↦ rw e (hs, All-insert_span P span spans h all)
]

insert_span-IsOrdered :
    (size : ℕ) (span : Span) (spans : List Span)
    → IsSpan size span
    → All (Apart span) spans
    → All (IsSpan size) spans
    → IsOrdered spans
    → IsOrdered (insert_span span spans)
unfolding insert_span
insert_span-IsOrdered size span [] is_span apart all ordered = (tt, tt)
insert_span-IsOrdered size span (s ∷ spans) is_span (h, apart) (hs, all) (later, ordered) =
    elim (Bool-cases (leb span.start s.start)) [
      | inl e ↦ rw e (
        (
          before s h hs (leb-le _ _ e),
          All-map _ _ spans
              (λ t ((ap_t, is_t), after).
                before t ap_t is_t (omega (arith, leb-le _ _ e, hs, after)))
              (All-zip _ _ spans (All-zip _ _ spans apart all) later),
        ),
        (later, ordered),
      )
      | inr e ↦ rw e (
        All-insert_span _ span spans (after_it e h) later,
        insert_span-IsOrdered size span spans is_span apart all ordered,
      )
    ]
  where
    before : (t : Span) → Apart span t → IsSpan size t → span.start ≤ t.start → span.end ≤ t.start
    before t (inl fine) is_t le = fine
    before t (inr back) (some_t, _) le = absurd (omega (arith, back, some_t, le))

    after_it : leb span.start s.start ≡ false → Apart span s → s.end ≤ span.start
    after_it e (inl fine) = let (pos_span, _) = is_span in absurd (ground (arith, fine))
    after_it e (inr back) = back

All-sort_spans : (P : Span → Type 0) (spans : List Span) → All P spans → All P (sort_spans spans)
unfolding sort_spans
All-sort_spans P [] all = tt
All-sort_spans P (s ∷ spans) (h, all) =
    All-insert_span P s (sort_spans spans) h (All-sort_spans P spans all)

sort_spans-IsOrdered :
    (size : ℕ) (spans : List Span)
    → IsApart spans
    → All (IsSpan size) spans
    → IsOrdered (sort_spans spans)
unfolding sort_spans
sort_spans-IsOrdered size [] apart all = tt
sort_spans-IsOrdered size (s ∷ spans) (h, apart) (is_span, all) =
    insert_span-IsOrdered size s (sort_spans spans) is_span (All-sort_spans (Apart s) spans h)
      (All-sort_spans (IsSpan size) spans all) (sort_spans-IsOrdered size spans apart all)

-- The spans that `detect` finds in a text are not empty, end inside it, are sorted by their start,
-- and each ends before the next one starts.
pub detect-IsOrdered :
    (lib : Patterns) (text : Text)
    → IsOrdered (detect lib text) × All (IsSpan (length text)) (detect lib text)
unfolding detect
detect-IsOrdered lib text =
    let size = length text in
    let kept = keep_apart [] (found_by lib detected_types text) in
    let (apart, all) =
      keep_apart-IsApart size [] _ tt tt (found_by-IsSpan lib detected_types text) in
    (sort_spans-IsOrdered size kept apart all, All-sort_spans (IsSpan size) kept all)

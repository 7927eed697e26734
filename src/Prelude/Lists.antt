-- ===== src/Prelude/Lists.antt =====
-- Lists measured and filtered by native numbers and tests, under the library's names.
use Prim.Native.Nat.{ℕ, suc, ◌+◌}
use mathlib.Core.Path.{◌≡◌, refl, sym, ◌∙◌, subst}
use mathlib.Core.Bool.{Bool, true, false, ◌||◌}
use mathlib.Core.List.{List, [], ◌∷◌, ◌++◌, map, Memᴰ}
use mathlib.Core.Option.{Option, none, some}
use native.Mathlib.Omega.{arith}
use mathlib.Core.Logic.{◌↔◌, inl, inr}
use model_passport.Prelude.Tests.{if◌then◌else◌, Bool-cases, ◌==◌, ==_iff}

module _ {ℓ} {A : Type ℓ} where
  abbrev pub length : List A → ℕ
  length [] = 0
  length (x ∷ xs) = suc (length xs)

  -- `[x for x in xs if p(x)]`
  unfoldable pub keep : (A → Bool) → List A → List A
  keep p [] = []
  keep p (x ∷ xs) = let rest = keep p xs in if p x then x ∷ rest else rest

  -- `any(p(x) for x in xs)`
  unfoldable pub any : (A → Bool) → List A → Bool
  any p [] = false
  any p (x ∷ xs) = p x || any p xs

  -- The first element that passes, as `.first()` of a query gives it.
  unfoldable pub first : (A → Bool) → List A → Option A
  first p [] = none
  first p (x ∷ xs) = let rest = first p xs in if p x then some x else rest

  -- Every row that passes is replaced.
  unfoldable pub update : (A → Bool) → (A → A) → List A → List A
  update p f [] = []
  update p f (x ∷ xs) = (if p x then f x else x) ∷ update p f xs

  pub length-append : (xs ys : List A) → length (xs ++ ys) ≡ length xs + length ys
  length-append [] ys = omega arith
  length-append (x ∷ xs) ys = omega (arith, length-append xs ys)

pub length-map : {A B : Type 0} (g : A → B) (items : List A) → length (map g items) ≡ length items
length-map g [] = refl
length-map g (item ∷ items) = omega (arith, length-map g items)

module _ {ℓ} {A : Type ℓ} where
  pub keep-append : (p : A → Bool) (xs ys : List A) → keep p (xs ++ ys) ≡ keep p xs ++ keep p ys
  unfolding keep
  keep-append p [] ys = refl
  keep-append p (x ∷ xs) ys = ground (arith, keep-append p xs ys)

  -- What `first` finds passes the test.
  pub first_sound : (p : A → Bool) (xs : List A) {x : A} → first p xs ≡ some x → p x ≡ true
  unfolding first
  first_sound p [] h = ground arith
  first_sound p (y ∷ xs) {x = x} h = ground (arith, first_sound p xs {x = x})

abbrev pub All {ℓ κ} : {A : Type ℓ} → (A → Type κ) → List A → Type κ
All P [] = Unit
All P (x ∷ xs) = P x × All P xs

pub All-append {ℓ κ} :
    {A : Type ℓ} (P : A → Type κ) (xs ys : List A) → All P xs → All P ys → All P (xs ++ ys)
All-append P [] later before after = after
All-append P (x ∷ first_ones) later (px, before) after =
    (px, All-append P first_ones later before after)

-- What holds of every row, and of the row that is written, holds after an update.
pub All-update {ℓ κ} :
    {A : Type ℓ} (P : A → Type κ) (p : A → Bool) (f : A → A) (xs : List A)
    → ((x : A) → p x ≡ true → P (f x))
    → All P xs
    → All P (update p f xs)
unfolding update
All-update P p f [] new all = tt
All-update P p f (x ∷ xs) new (h, rest) = elim (Bool-cases (p x)) [
  | inl e ↦ rw e (new x e, All-update P p f xs new rest)
  | inr e ↦ rw e (h, All-update P p f xs new rest)
]

-- What is written to the rows that pass, and what is known of the others, holds of all.
pub All-update_split {ℓ κ} :
    {A : Type ℓ} (P : A → Type κ) (p : A → Bool) (f : A → A) (xs : List A)
    → ((x : A) → p x ≡ true → P (f x))
    → ((x : A) → p x ≡ false → P x)
    → All P (update p f xs)
unfolding update
All-update_split P p f [] new old = tt
All-update_split P p f (x ∷ xs) new old = elim (Bool-cases (p x)) [
  | inl e ↦ rw e (new x e, All-update_split P p f xs new old)
  | inr e ↦ rw e (old x e, All-update_split P p f xs new old)
]

pub All-map {ℓ κ μ} :
    {A : Type ℓ} (P : A → Type κ) (Q : A → Type μ) (xs : List A)
    → ((x : A) → P x → Q x)
    → All P xs
    → All Q xs
All-map P Q [] h all = tt
All-map P Q (x ∷ xs) h (a, all) = (h x a, All-map P Q xs h all)

-- Every element of a list is in it.
pub All-Mem {ℓ} : {A : Type ℓ} (xs : List A) → All (λ x. Memᴰ x xs) xs
All-Mem [] = tt
All-Mem (x ∷ xs) = (
  Memᴰ.head refl,
  All-map (λ y. Memᴰ y xs) (λ y. Memᴰ y (x ∷ xs)) xs (λ y m. Memᴰ.tail m) (All-Mem xs),
)

pub first-Mem {ℓ} :
    {A : Type ℓ} (p : A → Bool) (xs : List A) {x : A} → first p xs ≡ some x → Memᴰ x xs
unfolding first
first-Mem p [] e = absurd (cc)
first-Mem p (y ∷ xs) e = elim (Bool-cases (p y)) [
  | inl h ↦ Memᴰ.head (let e' = rw h at e in cc)
  | inr h ↦ Memᴰ.tail (first-Mem p xs (rw h at e))
]

-- What holds of all elements of a list holds of each.
pub All-at {ℓ κ} :
    {A : Type ℓ} (P : A → Type κ) (xs : List A) → All P xs → {x : A} → Memᴰ x xs → P x
All-at P [] all m = elim m [ ]
All-at P (y ∷ xs) (h, all) (Memᴰ.head e) = subst P (sym e) h
All-at P (y ∷ xs) (h, all) (Memᴰ.tail m) = All-at P xs all m

-- No two rows of a table are the same by the test, such as one on a column that must be unique.
abbrev pub Unique {ℓ} : {A : Type ℓ} → (A → A → Bool) → List A → Type 0
Unique same [] = Unit
Unique same (x ∷ xs) = All (λ y. same x y ≡ false) xs × Unique same xs

-- A row that no row of the table is the same as can be added at the end.
pub Unique-add {ℓ} :
    {A : Type ℓ} (same : A → A → Bool) (xs : List A) (y : A)
    → Unique same xs
    → any (λ x. same x y) xs ≡ false
    → Unique same (xs ++ y ∷ [])
unfolding any
Unique-add same [] y u e = (tt, tt)
Unique-add same (x ∷ xs) y (h, u) e =
    (All-append _ xs (y ∷ []) h (ground arith, tt), Unique-add same xs y u (ground arith))

-- A test that an update does not change finds as much after it.
pub any-update {ℓ} :
    {A : Type ℓ} (test p : A → Bool) (f : A → A) (xs : List A)
    → ((x : A) → p x ≡ true → test (f x) ≡ test x)
    → any test (update p f xs) ≡ any test xs
unfolding any update
any-update test p f [] same = refl
any-update test p f (x ∷ xs) same = elim (Bool-cases (p x)) [
  | inl e ↦ rw (e, same x e, any-update test p f xs same) refl
  | inr e ↦ rw (e, any-update test p f xs same) refl
]

pub any-none {ℓ} :
    {A : Type ℓ} (test : A → Bool) (xs : List A)
    → any test xs ≡ false
    → All (λ x. test x ≡ false) xs
unfolding any
any-none test [] e = tt
any-none test (x ∷ xs) e = (ground arith, any-none test xs (ground arith))

pub any-Mem {ℓ} :
    {A : Type ℓ} (test : A → Bool) {x : A} {xs : List A}
    → Memᴰ x xs
    → test x ≡ true
    → any test xs ≡ true
unfolding any
any-Mem test {xs = []} m e = elim m [ ]
any-Mem test {xs = y ∷ ys} (Memᴰ.head same) e = rw (← same, e) refl
any-Mem test {xs = y ∷ ys} (Memᴰ.tail m) e = rw (any-Mem test m e) ground arith

pub any-append {ℓ} :
    {A : Type ℓ} (test : A → Bool) (xs ys : List A)
    → any test xs ≡ true
    → any test (xs ++ ys) ≡ true
unfolding any
any-append test [] ys e = absurd (cc)
any-append test (x ∷ xs) ys e = elim (Bool-cases (test x)) [
  | inl h ↦ rw (h) refl
  | inr h ↦ rw (h) (any-append test xs ys (rw h at e))
]

-- What an update keeps of each row holds after it.
pub All-update_keep {ℓ κ} :
    {A : Type ℓ} (P : A → Type κ) (p : A → Bool) (f : A → A) (xs : List A)
    → ((x : A) → P x → P (f x))
    → All P xs
    → All P (update p f xs)
unfolding update
All-update_keep P p f [] kept all = tt
All-update_keep P p f (x ∷ xs) kept (h, all) = elim (Bool-cases (p x)) [
  | inl e ↦ rw e (kept x h, All-update_keep P p f xs kept all)
  | inr e ↦ rw e (h, All-update_keep P p f xs kept all)
]

pub any-split {ℓ} :
    {A : Type ℓ} (test : A → Bool) (xs ys : List A)
    → any test (xs ++ ys) ≡ (any test xs || any test ys)
unfolding any
any-split test [] ys = refl
any-split test (x ∷ xs) ys = rw (any-split test xs ys) ground arith

-- Rows that were unique stay so, if an update keeps what makes them the same.
pub Unique-update {ℓ} :
    {A : Type ℓ} (same : A → A → Bool) (p : A → Bool) (f : A → A) (xs : List A)
    → ((a b : A) → same (f a) b ≡ same a b)
    → ((a b : A) → same a (f b) ≡ same a b)
    → Unique same xs
    → Unique same (update p f xs)
unfolding update
Unique-update same p f [] left right u = tt
Unique-update same p f (x ∷ xs) left right (h, u) =
    let later = Unique-update same p f xs left right u in
    let apart = All-update_keep (λ y. same x y ≡ false) p f xs (λ y g. right x y ∙ g) h in
    elim (Bool-cases (p x)) [
      | inl e ↦ rw e (All-map _ _ _ (λ y g. left x y ∙ g) apart, later)
      | inr e ↦ rw e (apart, later)
    ]

pub All-zip {ℓ κ μ} :
    {A : Type ℓ} (P : A → Type κ) (Q : A → Type μ) (xs : List A)
    → All P xs
    → All Q xs
    → All (λ x. P x × Q x) xs
All-zip P Q [] ps qs = tt
All-zip P Q (x ∷ xs) (p, ps) (q, qs) = ((p, q), All-zip P Q xs ps qs)

-- An update, from what is known of each row before it.
pub All-update_from {ℓ κ μ} :
    {A : Type ℓ} (R : A → Type κ) (P : A → Type μ) (p : A → Bool) (f : A → A) (xs : List A)
    → ((x : A) → R x → p x ≡ true → P (f x))
    → ((x : A) → R x → p x ≡ false → P x)
    → All R xs
    → All P (update p f xs)
unfolding update
All-update_from R P p f [] written left all = tt
All-update_from R P p f (x ∷ xs) written left (h, all) = elim (Bool-cases (p x)) [
  | inl e ↦ rw e (written x h e, All-update_from R P p f xs written left all)
  | inr e ↦ rw e (left x h e, All-update_from R P p f xs written left all)
]

-- In a table without two rows that are the same, what is the same as a row is that row.
pub Unique-at {ℓ} :
    {A : Type ℓ} (same : A → A → Bool) (swap : (a b : A) → same a b ≡ true → same b a ≡ true)
    {row : A} (xs : List A)
    → Unique same xs
    → Memᴰ row xs
    → All (λ r. same r row ≡ true → r ≡ row) xs
Unique-at same swap [] u m = tt
Unique-at same swap {row = row} (x ∷ xs) (h, u) (Memᴰ.head e) = (
  λ _. sym e,
  All-map _ _ xs
      (λ r apart found. absurd (cc (apart, swap r x (subst (λ y. same r y ≡ true) e found)))) h,
)
Unique-at same swap (x ∷ xs) (h, u) (Memᴰ.tail m) = (
  λ found. absurd (cc (found, All-at (λ y. same x y ≡ false) xs h m)),
  Unique-at same swap xs u m,
)

pub cons-head {ℓ} : {A : Type ℓ} {a b : A} {xs ys : List A} → a ∷ xs ≡ b ∷ ys → a ≡ b
cons-head e = cc

pub cons-tail {ℓ} : {A : Type ℓ} {a b : A} {xs ys : List A} → a ∷ xs ≡ b ∷ ys → xs ≡ ys
cons-tail e = cc

-- `==` on texts that are taken apart, as lists of code points.
unfoldable pub same_text : List ℕ → List ℕ → Bool
same_text [] [] = true
same_text [] (_ ∷ _) = false
same_text (_ ∷ _) [] = false
same_text (a ∷ s) (b ∷ t) = let rest = same_text s t in if a == b then rest else false

pub same_text_iff : (s t : List ℕ) → (same_text s t ≡ true) ↔ (s ≡ t)
unfolding same_text
same_text_iff [] [] = (λ _. refl, λ _. refl)
same_text_iff [] (b ∷ t) = (λ e. absurd (cc), λ e. absurd (cc))
same_text_iff (a ∷ s) [] = (λ e. absurd (cc), λ e. absurd (cc))
same_text_iff (a ∷ s) (b ∷ t) =
    let (to, from) = same_text_iff s t in
    elim (Bool-cases (a == b)) [
      | inl e ↦ let same = (==_iff a b).0 e in rw e (λ h. cc (same, to h), λ h. from (cc h))
      | inr e ↦ rw e (λ h. absurd (cc), λ h. absurd (cc (e, (==_iff a b).1 (cc h))))
    ]

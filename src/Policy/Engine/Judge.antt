-- ===== src/Policy/Engine/Judge.antt =====
-- How the verdict of a rule follows the observation.
use model_passport.Prelude.{
  if◌then◌else◌, Bool-cases, ℤ, pos, ◌≤ℤ◌, ltb_int, ◌≤◌, String, ◌≡◌, refl, sym, ap, ◌∙◌, subst,
  inl, inr, Bool, true, false, arith,
}
use model_passport.Prelude.Outcome.{ok, >>=-eq-ok, ok-eq, Outcome, err, ◌>>=◌}
use model_passport.Core.Schema.{Verdict, pass, warn, fail}
use model_passport.Policy.Evidence.{Kind, minimum, maximum, flag}
use model_passport.Policy.Engine.{
  Scalar, num, word, boolean, null, compound, verdict_index, beyond, violates, judge_limits,
  Threshold, PolicyError, thresholds, flag_verdict, judge,
}

-- Of two observations, the second is no better for a rule of the kind.
abbrev pub NoBetter : Kind → ℤ → ℤ → Type 0
NoBetter minimum a b = b ≤ℤ a
NoBetter _ a b = a ≤ℤ b

module _ (name : String) (kind : Kind) (a b : ℤ) where
  violates_mono :
      (limit : Scalar)
      → ((l : ℤ) → beyond kind a l ≡ true → beyond kind b l ≡ true)
      → violates name kind a limit ≡ ok true
      → (r : Bool) → violates name kind b limit ≡ ok r
      → r ≡ true
  unfolding violates
  violates_mono null mono ea r eb = absurd (cc)
  violates_mono (num l) mono ea r eb = sym (ok-eq eb) ∙ mono l (ok-eq ea)
  violates_mono (boolean x) mono ea r eb = sym (ok-eq eb) ∙ mono _ (ok-eq ea)
  violates_mono (word s) mono ea r eb = absurd (cc)
  violates_mono compound mono ea r eb = absurd (cc)

  -- The verdict once both limits are compared with.
  of_tests : Bool → Outcome PolicyError Bool → Outcome PolicyError Verdict
  of_tests failed warning =
      if failed then ok fail else (warning >>= λ warned. ok (if warned then warn else pass))

  of_warned_mono :
      (wa wb : Bool) {v w : Verdict}
      → (wa ≡ true → wb ≡ true)
      → (if wa then warn else pass) ≡ v
      → (if wb then warn else pass) ≡ w
      → verdict_index v ≤ verdict_index w
  unfolding verdict_index
  of_warned_mono true true mono ea eb = ground arith
  of_warned_mono true false mono ea eb = absurd (let h = mono refl in cc)
  of_warned_mono false wb {v = v} {w = w} mono ea eb =
      subst (λ x. verdict_index x ≤ verdict_index w) ea (omega arith)

  of_tests_mono :
      (fa fb : Bool) (wa wb : Outcome PolicyError Bool) {v w : Verdict}
      → (fa ≡ true → fb ≡ true)
      → (wa ≡ ok true → (r : Bool) → wb ≡ ok r → r ≡ true)
      → of_tests fa wa ≡ ok v
      → of_tests fb wb ≡ ok w
      → verdict_index v ≤ verdict_index w
  unfolding of_tests verdict_index
  of_tests_mono fa true wa wb {v = v} mono warned ea eb =
      subst (λ x. verdict_index v ≤ verdict_index x) (ok-eq eb) (ground arith)
  of_tests_mono true false wa wb mono warned ea eb = absurd (let h = mono refl in cc)
  of_tests_mono false false (ok true) (ok r) mono warned ea eb =
      of_warned_mono true r (λ _. warned refl r refl) (ok-eq ea) (ok-eq eb)
  of_tests_mono false false (ok false) (ok r) mono warned ea eb =
      of_warned_mono false r (λ h. absurd (cc)) (ok-eq ea) (ok-eq eb)
  of_tests_mono false false (err x) wb mono warned ea eb = absurd (cc)
  of_tests_mono false false (ok x) (err y) mono warned ea eb = absurd (cc)

  judge_limits_mono :
      (warn_at fail_at : Scalar) {v w : Verdict}
      → ((l : ℤ) → beyond kind a l ≡ true → beyond kind b l ≡ true)
      → judge_limits name kind a warn_at fail_at ≡ ok v
      → judge_limits name kind b warn_at fail_at ≡ ok w
      → verdict_index v ≤ verdict_index w
  unfolding judge_limits of_tests
  judge_limits_mono warn_at fail_at mono ea eb =
      let (fa, ra, ea1) = >>=-eq-ok (violates name kind a fail_at) _ ea in
      let (fb, rb, eb1) = >>=-eq-ok (violates name kind b fail_at) _ eb in
      of_tests_mono fa fb _ _ (λ h. violates_mono fail_at mono (ra ∙ ap ok h) fb rb)
        (λ h. violates_mono warn_at mono h) ea1 eb1

judge_of_limits :
    (name : String) (kind : Kind) (a b : ℤ) (threshold : Threshold) {v w : Verdict}
    → ((l : ℤ) → beyond kind a l ≡ true → beyond kind b l ≡ true)
    → (thresholds name threshold >>= λ l. judge_limits name kind a l.0 l.1) ≡ ok v
    → (thresholds name threshold >>= λ l. judge_limits name kind b l.0 l.1) ≡ ok w
    → verdict_index v ≤ verdict_index w
judge_of_limits name kind a b threshold {w = w} mono ea eb =
    let (la, ra, ea1) = >>=-eq-ok (thresholds name threshold) _ ea in
    let (lb, rb, eb1) = >>=-eq-ok (thresholds name threshold) _ eb in
    let same = ok-eq (sym ra ∙ rb) in
    judge_limits_mono name kind a b la.0 la.1 mono ea1
      (subst (λ l. judge_limits name kind b l.0 l.1 ≡ ok w) (sym same) eb1)

above : (a b : ℤ) → a ≤ℤ b → (l : ℤ) → beyond maximum a l ≡ true → beyond maximum b l ≡ true
unfolding beyond
above a b h l e = ground arith

below : (a b : ℤ) → b ≤ℤ a → (l : ℤ) → beyond minimum a l ≡ true → beyond minimum b l ≡ true
unfolding beyond
below a b h l e = ground arith

ltb_int_mono : (a b : ℤ) → a ≤ℤ b → ltb_int (pos 0) a ≡ true → ltb_int (pos 0) b ≡ true
ltb_int_mono a b h e = ground arith

flag_mono :
    (name : String) (threshold : Threshold) (a b : ℤ) {v w : Verdict}
    → a ≤ℤ b
    → (if ltb_int (pos 0) a then flag_verdict name threshold else ok pass) ≡ ok v
    → (if ltb_int (pos 0) b then flag_verdict name threshold else ok pass) ≡ ok w
    → verdict_index v ≤ verdict_index w
unfolding verdict_index
flag_mono name threshold a b {w = w} h ea eb = elim (Bool-cases (ltb_int (pos 0) a)) [
  | inl more ↦
      subst (λ x. verdict_index x ≤ verdict_index w)
        (ok-eq (sym (rw (ltb_int_mono a b h more) at eb) ∙ rw more at ea)) (omega arith)
  | inr none_seen ↦
      subst (λ x. verdict_index x ≤ verdict_index w) (ok-eq (rw none_seen at ea)) (omega arith)
]

-- An observation that is no better gets a verdict that is no better: where a rule judges two
-- observations by the same threshold without an error, the verdict on the larger one (on the
-- smaller one, for a rule with a minimum) is at least as bad.
pub judge_mono :
    (name : String) (kind : Kind) (threshold : Threshold) (a b : ℤ) {v w : Verdict}
    → NoBetter kind a b
    → judge name kind threshold a ≡ ok v
    → judge name kind threshold b ≡ ok w
    → verdict_index v ≤ verdict_index w
unfolding judge
judge_mono name flag threshold a b h ea eb = flag_mono name threshold a b h ea eb
judge_mono name maximum threshold a b h ea eb =
    judge_of_limits name maximum a b threshold (above a b h) ea eb
judge_mono name minimum threshold a b h ea eb =
    judge_of_limits name minimum a b threshold (below a b h) ea eb

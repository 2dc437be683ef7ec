-- ===== src/Effect/Cost.antt =====
-- How often an action does something that the world counts.

use webrana_infinimail_backe.Effect.Rules.{outcome_cases}
use webrana_infinimail_backe.Effect.{
  Action, pure, Err, raise, attempt, or_else, guard, on_error, ◌>>=◌,
}
use webrana_infinimail_backe.Prelude.{true, false, inl, inr, ℕ, Bool, ◌≤◌, arith, ◌+◌}

module _ {W : Type 0} (count : W → ℕ) where
  -- The action adds at most `k`, whatever its outcome.
  pub record AtMost {A : Type 0} (k : ℕ) (m : Action W A) : Type 0 where
    pub at : (w : W) → count (m w).1 ≤ count w + k

  module _ {A : Type 0} where
    pub AtMost-weaken : (j k : ℕ) (m : Action W A) → j ≤ k → AtMost j m → AtMost k m
    AtMost-weaken j k m h c = record { at = λ w. omega (arith, h, c.at w) }

    pub AtMost-pure : (a : A) → AtMost 0 (pure a)
    AtMost-pure a = record { at = λ w. omega arith }

    pub AtMost-raise : (e : Err) → AtMost 0 (raise {A = A} e)
    AtMost-raise e = record { at = λ w. omega arith }

    pub AtMost-attempt : (k : ℕ) (m : Action W A) → AtMost k m → AtMost k (attempt m)
    AtMost-attempt k m c = record { at = c.at }

    pub AtMost-or_else :
        (k : ℕ) (m : Action W A) (f : Err → Err) → AtMost k m → AtMost k (or_else m f)
    AtMost-or_else k m f c = record {
      at = λ w. elim (outcome_cases m w) [
        | inl (a, v, q) ↦ rw q (rw q at (c.at w))
        | inr (e, v, q) ↦ rw q (rw q at (c.at w))
      ];
    }

  pub AtMost-guard : (b : Bool) (e : Err) → AtMost 0 (guard b e)
  AtMost-guard true e = record { at = λ w. omega arith }
  AtMost-guard false e = record { at = λ w. omega arith }

  pub AtMost-bind :
      {A B : Type 0} (j k l : ℕ) (m : Action W A) (f : A → Action W B)
      → j + k ≤ l
      → AtMost j m
      → ((a : A) → AtMost k (f a))
      → AtMost l (m >>= f)
  AtMost-bind j k l m f h cm cf = record {
    at = λ w. elim (outcome_cases m w) [
      | inl (a, v, q) ↦ rw q (omega (arith, h, (cf a).at v, rw q at (cm.at w)))
      | inr (e, v, q) ↦ rw q (omega (arith, h, rw q at (cm.at w)))
    ];
  }

  pub AtMost-on_error :
      {A : Type 0} (j k l : ℕ) (m : Action W A) (h : Err → Action W A)
      → j + k ≤ l
      → AtMost j m
      → ((e : Err) → AtMost k (h e))
      → AtMost l (on_error m h)
  AtMost-on_error j k l m h le cm ch = record {
    at = λ w. elim (outcome_cases m w) [
      | inl (a, v, q) ↦ rw q (omega (arith, le, rw q at (cm.at w)))
      | inr (e, v, q) ↦ rw q (omega (arith, le, (ch e).at v, rw q at (cm.at w)))
    ];
  }

-- ===== src/Effect/Ensures.antt =====
-- What holds of the result and of the world after an action that succeeds.
use mathlib.Core.Path.{subst₂}
use webrana_infinimail_backe.Effect.Rules.{Keeps, or_else-ok, outcome_cases}
use webrana_infinimail_backe.Effect.{
  ok, Action, pure, Err, raise, or_else, on_error, ◌>>=◌, guard, Result, ◌>>◌, reads, err, ignore,
}
use webrana_infinimail_backe.Prelude.{
  true, false, inl, inr, refl, Bool, ◌≡◌, subst, ◌∙◌, if◌then◌else◌,
}

pub record Ensures {W A : Type 0} (m : Action W A) (w : W) (Q : A → W → Type 0) : Type 0 where
  pub at : (a : A) (w' : W) → m w ≡ (ok a, w') → Q a w'

module _ {W A : Type 0} where
  -- The same of an outcome.
  abbrev pub Holds : (A → W → Type 0) → Result A × W → Type 0
  Holds Q (ok a, w) = Q a w
  Holds Q (err e, w) = Unit

  pub Ensures-of : (m : Action W A) (w : W) (Q : A → W → Type 0) → Holds Q (m w) → Ensures m w Q
  Ensures-of m w Q q = record { at = λ a v h. subst (Holds Q) h q }

  pub Ensures-pure : (a : A) (w : W) (Q : A → W → Type 0) → Q a w → Ensures (pure a) w Q
  Ensures-pure a w Q q = record { at = λ b v h. subst₂ Q (cc h) (cc h) q }

  pub Ensures-raise : (e : Err) (w : W) (Q : A → W → Type 0) → Ensures (raise e) w Q
  Ensures-raise e w Q = record { at = λ b v h. cc h }

  pub Ensures-weaken :
      (m : Action W A) (w : W) (P Q : A → W → Type 0)
      → Ensures m w P
      → ((a : A) (v : W) → P a v → Q a v)
      → Ensures m w Q
  Ensures-weaken m w P Q e f = record { at = λ a v h. f a v (e.at a v h) }

  pub Ensures-or_else :
      (m : Action W A) (f : Err → Err) (w : W) (Q : A → W → Type 0)
      → Ensures m w Q
      → Ensures (or_else m f) w Q
  Ensures-or_else m f w Q e = record { at = λ a v h. e.at a v (or_else-ok m f h) }

  pub Ensures-on_error :
      (m : Action W A) (f : Err → Action W A) (w : W) (Q : A → W → Type 0)
      → Ensures m w Q
      → ((e : Err) (v : W) → Ensures (f e) v Q)
      → Ensures (on_error m f) w Q
  Ensures-on_error m f w Q e g = record {
    at = λ a v h. elim (outcome_cases m w) [
      | inl (b, u, p) ↦ e.at a v (p ∙ (rw p at h))
      | inr (x, u, p) ↦ (g x u).at a v (rw p at h)
    ];
  }

  -- The world after an action that keeps a relation.
  pub Ensures-keeps :
      {R : W → W → Type 0} (m : Action W A) (w : W) → Keeps R m → Ensures m w (λ a v. R w v)
  Ensures-keeps {R} m w k = record {
    at = λ a v h. subst (λ (x : Result A × W). R w x.1) h (k.at w);
  }

module _ {W A B : Type 0} where
  pub Ensures-bind :
      (m : Action W A) (f : A → Action W B) (w : W) (Q : B → W → Type 0)
      → Ensures m w (λ a v. Ensures (f a) v Q)
      → Ensures (m >>= f) w Q
  Ensures-bind m f w Q e = record {
    at = λ b v h. elim (outcome_cases m w) [
      | inl (a, u, p) ↦ (e.at a u p).at b v (rw p at h)
      | inr (x, u, p) ↦ cc (rw p at h)
    ];
  }

  -- A first part of which only a relation is needed.
  pub Ensures-skip :
      {R : W → W → Type 0} (m : Action W A) (f : A → Action W B) (w : W) (Q : B → W → Type 0)
      → Keeps R m
      → ((a : A) (v : W) → R w v → Ensures (f a) v Q)
      → Ensures (m >>= f) w Q
  Ensures-skip {R} m f w Q k g =
      Ensures-bind m f w Q
        (Ensures-weaken m w (λ a v. R w v) (λ a v. Ensures (f a) v Q) (Ensures-keeps m w k) g)

  -- The same for statements.
  pub Ensures-then :
      {R : W → W → Type 0} (m : Action W A) (n : Action W B) (w : W) (Q : B → W → Type 0)
      → Keeps R m
      → ((v : W) → R w v → Ensures n v Q)
      → Ensures (m >> n) w Q
  Ensures-then m n w Q k g = Ensures-skip m (λ _. n) w Q k (λ a v r. g v r)

pub Ensures-guard :
    {W B : Type 0} (b : Bool) (e : Err) (n : Action W B) (w : W) (Q : B → W → Type 0)
    → (b ≡ true → Ensures n w Q)
    → Ensures (guard b e >> n) w Q
Ensures-guard true e n w Q g = record { at = λ b v h. (g refl).at b v h }
Ensures-guard false e n w Q g = record { at = λ b v h. cc h }

pub Ensures-if :
    {W A : Type 0} (b : Bool) (m n : Action W A) (w : W) (Q : A → W → Type 0)
    → (b ≡ true → Ensures m w Q)
    → (b ≡ false → Ensures n w Q)
    → Ensures (if b then m else n) w Q
Ensures-if true m n w Q p q = p refl
Ensures-if false m n w Q p q = q refl

pub Ensures-reads :
    {W A B : Type 0} (g : W → A) (f : A → Action W B) (w : W) (Q : B → W → Type 0)
    → Ensures (f (g w)) w Q
    → Ensures (reads g >>= f) w Q
Ensures-reads g f w Q e = record { at = e.at }

pub Ensures-ignore :
    {W A B : Type 0} (m : Action W A) (n : Action W B) (w : W) (Q : B → W → Type 0)
    → Ensures n (m w).1 Q
    → Ensures (ignore m >> n) w Q
Ensures-ignore m n w Q e = record { at = e.at }

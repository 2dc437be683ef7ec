-- ===== src/Effect/Rules.antt =====
-- Inversion of successful actions, and relations between the world before and after an action.
use webrana_infinimail_backe.Text.{codes}
use webrana_infinimail_backe.Prelude.{
  ◌≡◌, refl, ◌⊎◌, inl, inr, Bool, true, false, if◌then◌else◌, String,
}
use webrana_infinimail_backe.Effect.{
  Err, Result, ok, err, Action, pure, raise, reads, changes, attempt, or_else, ignore, guard, ◌>>=◌,
  on_error, or_wrap, wrap,
}

module _ {W A : Type 0} where
  -- The two outcomes of an action.
  pub outcome_cases :
      (m : Action W A) (w : W)
      → ((a : A) × (w' : W) × (m w ≡ (ok a, w'))) ⊎ ((e : Err) × (w' : W) × (m w ≡ (err e, w')))
  outcome_cases m w = go (m w) refl
    where
      go :
          (r : Result A × W)
          → m w ≡ r
          → ((a : A) × (w' : W) × (m w ≡ (ok a, w'))) ⊎ ((e : Err) × (w' : W) × (m w ≡ (err e, w')))
      go (ok a, w') p = inl (a, w', p)
      go (err e, w') p = inr (e, w', p)

  -- Where the handler raises whatever happens, success is the first action's.
  pub on_error-ok :
      (m : Action W A) (h : Err → Action W A)
      → ((e : Err) (v : W) → (x : Err) × (v' : W) × (h e v ≡ (err x, v')))
      → {w w' : W} {a : A} → on_error m h w ≡ (ok a, w')
      → m w ≡ (ok a, w')
  on_error-ok m h raises {w} p = elim (outcome_cases m w) [
    | inl (b, v, q) ↦ cc (q, rw q at p)
    | inr (e, v, q) ↦ let (x, v', r) = raises e v in cc (r, rw q at p)
  ]

  pub or_else-ok :
      (m : Action W A) (f : Err → Err) {w w' : W} {a : A}
      → or_else m f w ≡ (ok a, w')
      → m w ≡ (ok a, w')
  or_else-ok m f {w} h = elim (outcome_cases m w) [
    | inl (b, v, p) ↦ cc (p, rw p at h)
    | inr (e, v, p) ↦ cc (rw p at h)
  ]

  pub or_wrap-ok :
      (m : Action W A) (s : String) {w w' : W} {a : A}
      → or_wrap m s w ≡ (ok a, w')
      → m w ≡ (ok a, w')
  or_wrap-ok m s h = or_else-ok m (wrap (codes s)) h

pub guard-ok :
    {W : Type 0} (b : Bool) (e : Err) {w w' : W} {u : Unit {0}}
    → guard b e w ≡ (ok u, w')
    → (b ≡ true) × (w ≡ w')
guard-ok true e h = (refl, cc h)
guard-ok false e h = cc h

module _ {W A B : Type 0} where
  -- A chain that succeeds has a first part that succeeds.
  pub bind-ok :
      (m : Action W A) (f : A → Action W B) {w w'' : W} {b : B}
      → (m >>= f) w ≡ (ok b, w'')
      → (a : A) × (w' : W) × (m w ≡ (ok a, w')) × (f a w' ≡ (ok b, w''))
  bind-ok m f {w} h = elim (outcome_cases m w) [
    | inl (a, v, p) ↦ (a, v, p, rw p at h)
    | inr (e, v, p) ↦ cc (rw p at h)
  ]

  -- The same, with what follows from the two parts.
  pub bind_case :
      (m : Action W A) (f : A → Action W B) {w w'' : W} {b : B}
      → (m >>= f) w ≡ (ok b, w'')
      → {P : Type 0} → ((a : A) (w' : W) → m w ≡ (ok a, w') → f a w' ≡ (ok b, w'') → P)
      → P
  bind_case m f h k = let (a, w', p, q) = bind-ok m f h in k a w' p q

-- A relation between the world before and after, such as "this row is the same".
pub record IsPreorder {W : Type 0} (R : W → W → Type 0) : Type 0 where
  pub reflexive : (w : W) → R w w
  pub transitive : (u v w : W) → R u v → R v w → R u w

-- The world after the action, whatever its outcome, is related to the world before.
pub record Keeps {W A : Type 0} (R : W → W → Type 0) (m : Action W A) : Type 0 where
  pub at : (w : W) → R w (m w).1

module _ {W : Type 0} {R : W → W → Type 0} (p : IsPreorder R) where
  module _ {A : Type 0} where
    pub Keeps-pure : (a : A) → Keeps R (pure a)
    Keeps-pure a = record { at = p.reflexive }

    pub Keeps-raise : (e : Err) → Keeps R (raise {A = A} e)
    Keeps-raise e = record { at = p.reflexive }

    pub Keeps-reads : (f : W → A) → Keeps R (reads f)
    Keeps-reads f = record { at = p.reflexive }

    pub Keeps-attempt : (m : Action W A) → Keeps R m → Keeps R (attempt m)
    Keeps-attempt m k = record { at = k.at }

    pub Keeps-ignore : (m : Action W A) → Keeps R m → Keeps R (ignore m)
    Keeps-ignore m k = record { at = k.at }

    pub Keeps-or_else : (m : Action W A) (f : Err → Err) → Keeps R m → Keeps R (or_else m f)
    Keeps-or_else m f k = record {
      at = λ w. elim (outcome_cases m w) [
        | inl (a, v, q) ↦ rw q (rw q at (k.at w))
        | inr (e, v, q) ↦ rw q (rw q at (k.at w))
      ];
    }

    pub Keeps-on_error :
        (m : Action W A) (h : Err → Action W A)
        → Keeps R m
        → ((e : Err) → Keeps R (h e))
        → Keeps R (on_error m h)
    Keeps-on_error m h k kh = record {
      at = λ w. elim (outcome_cases m w) [
        | inl (a, v, q) ↦ rw q (rw q at (k.at w))
        | inr (e, v, q) ↦ rw q (p.transitive w v (h e v).1 (rw q at (k.at w)) ((kh e).at v))
      ];
    }

    pub Keeps-if :
        (b : Bool) (m n : Action W A) → Keeps R m → Keeps R n → Keeps R (if b then m else n)
    Keeps-if true m n km kn = km
    Keeps-if false m n km kn = kn

  pub Keeps-guard : (b : Bool) (e : Err) → Keeps R (guard b e)
  Keeps-guard true e = record { at = p.reflexive }
  Keeps-guard false e = record { at = p.reflexive }

  pub Keeps-changes : (f : W → W) → ((w : W) → R w (f w)) → Keeps R (changes f)
  Keeps-changes f k = record { at = k }

  pub Keeps-bind :
      {A B : Type 0} (m : Action W A) (f : A → Action W B)
      → Keeps R m
      → ((a : A) → Keeps R (f a))
      → Keeps R (m >>= f)
  Keeps-bind m f km kf = record {
    at = λ w. elim (outcome_cases m w) [
      | inl (a, v, q) ↦ rw q (p.transitive w v (f a v).1 (rw q at (km.at w)) ((kf a).at v))
      | inr (e, v, q) ↦ rw q (rw q at (km.at w))
    ];
  }

pub ruleset keeps_rules = (
  Keeps-pure, Keeps-raise, Keeps-reads, Keeps-attempt, Keeps-ignore, Keeps-or_else, Keeps-on_error,
  Keeps-if, Keeps-guard, Keeps-changes, Keeps-bind,
)

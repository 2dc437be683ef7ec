-- ===== src/Services/DnsVerifier/Retry.antt =====
-- The retries of internal/services/dns_verifier.go: how often the resolver is asked, and what a
-- success rests on.
use webrana_infinimail_backe.Effect.Cost.{
  AtMost, AtMost-pure, AtMost-weaken, AtMost-bind, AtMost-raise, AtMost-attempt,
}
use webrana_infinimail_backe.Effect.Rules.{bind_case, outcome_cases}
use webrana_infinimail_backe.Services.DnsVerifier.{
  DnsVerifier, rounds, give_up, check_context, after_attempt, next_round, verify_with_retry,
}
use webrana_infinimail_backe.Effect.{ok, err, Action, Err, Result, attempt}
use webrana_infinimail_backe.Prelude.{
  zero, suc, true, false, none, some, ℕ, Bool, Option, ◌≡◌, inl, inr, ◌⊎◌, ◌==◌, arith, refl, ◌<◌,
  ap, ◌≤◌,
}

attempted :
    {W A : Type 0} (m : Action W A) (w : W) (r : Result A) (u : W)
    → attempt m w ≡ (ok r, u)
    → m w ≡ (r, u)
attempted m w r u h = elim (outcome_cases m w) [
  | inl (a, v, q) ↦ cc (q, rw q at h)
  | inr (e, v, q) ↦ cc (q, rw q at h)
]

module _ {W : Type 0} (s : DnsVerifier W) where
  -- A success is the success of one of the attempts.
  after-true :
      (verify : Action W Bool) (last : Option Err) (next : Option Err → Action W Bool)
      (r : Result Bool) (v u w' : W)
      → verify v ≡ (r, u)
      → after_attempt last next r u ≡ (ok true, w')
      → (verify v ≡ (ok true, u)) ⊎ ((e : Option Err) × (next e u ≡ (ok true, w')))
  unfolding after_attempt
  after-true verify last next (ok true) v u w' p h = inl p
  after-true verify last next (ok false) v u w' p h = inr (last, h)
  after-true verify last next (err e) v u w' p h = inr (some e, h)

  next_round-true :
      (b : Bool) (rest : Option Err → Action W Bool) (e : Option Err) (w w' : W)
      → next_round s b rest e w ≡ (ok true, w')
      → (u : W) × (rest e u ≡ (ok true, w'))
  unfolding next_round
  next_round-true true rest e w w' h = (w, h)
  next_round-true false rest e w w' h = bind_case s.wait (λ _. rest e) h (λ _ u _ q. (u, q))

  pub rounds-true :
      (verify : Action W Bool) (n : ℕ) (last : Option Err) (w w' : W)
      → rounds s verify n last w ≡ (ok true, w')
      → (v : W) × (v' : W) × (verify v ≡ (ok true, v'))
  unfolding rounds give_up
  rounds-true verify zero none w w' h = cc h
  rounds-true verify zero (some e) w w' h = cc h
  rounds-true verify (suc n) last w w' h = bind_case (check_context (s.cancelled w)) _ h (λ _ v g h.
      bind_case (attempt verify) _ h (λ r u p h.
        elim (after-true verify last (next_round s (n == 0) (rounds s verify n)) r v u w'
          (attempted verify v r u p) h) [
            | inl q ↦ (v, u, q)
            | inr (e, q) ↦
                let (u', q') = next_round-true (n == 0) (rounds s verify n) e u w' q in
                rounds-true verify n e u' w' q'
          ]))

module _ {W : Type 0} (s : DnsVerifier W) (count : W → ℕ) where
  -- Waiting asks nothing.
  module _ (wait : AtMost count 0 s.wait) (verify : Action W Bool)
      (one : AtMost count 1 verify) where
    give_up-AtMost : (last : Option Err) → AtMost count 0 (give_up last)
    unfolding give_up
    give_up-AtMost none = AtMost-pure count false
    give_up-AtMost (some e) = AtMost-raise count e

    check_context-AtMost : (o : Option Err) → AtMost count 0 (check_context o)
    unfolding check_context
    check_context-AtMost none = AtMost-pure count tt
    check_context-AtMost (some e) = AtMost-raise count e

    after_attempt-AtMost :
        (k : ℕ) (last : Option Err) (next : Option Err → Action W Bool) (r : Result Bool)
        → ((e : Option Err) → AtMost count k (next e))
        → AtMost count k (after_attempt last next r)
    unfolding after_attempt
    after_attempt-AtMost k last next (ok true) h =
        AtMost-weaken count 0 k _ (omega arith) (AtMost-pure count true)
    after_attempt-AtMost k last next (ok false) h = h last
    after_attempt-AtMost k last next (err e) h = h (some e)

    next_round-AtMost :
        (b : Bool) (n : ℕ) (rest : Option Err → Action W Bool)
        → ((e : Option Err) → AtMost count n (rest e))
        → (e : Option Err) → AtMost count n (next_round s b rest e)
    unfolding next_round
    next_round-AtMost true n rest h e = h e
    next_round-AtMost false n rest h e =
        AtMost-bind count 0 n n s.wait (λ _. rest e) (omega arith) wait (λ _. h e)

    pub rounds-AtMost : (n : ℕ) (last : Option Err) → AtMost count n (rounds s verify n last)
    unfolding rounds
    rounds-AtMost zero last = record { at = (give_up-AtMost last).at }
    rounds-AtMost (suc n) last = record {
      at = λ w.
          (AtMost-bind count 0 (suc n) (suc n) (check_context (s.cancelled w)) _ (omega arith)
              (check_context-AtMost (s.cancelled w))
              (λ _.
                AtMost-bind count 1 n (suc n) (attempt verify) _ (omega arith)
                  (AtMost-attempt count 1 verify one)
                  (λ r.
                    after_attempt-AtMost n last _ r
                      (next_round-AtMost (n == 0) n (rounds s verify n) (rounds-AtMost n))))).at
            w;
    }

module _ {W : Type 0} (s : DnsVerifier W) (verify : Action W Bool) where
  -- The world at the attempt `i`, counted from 0, if the attempts before fail.
  abbrev pub world_at : ℕ → W → W
  world_at zero w = w
  world_at (suc i) w = world_at i (s.wait (verify w).1).1

  outcome :
      (last : Option Err) (next : Option Err → Action W Bool) (m : Result Bool × W)
      → ((e : Option Err) → (next e m.1).0 ≡ ok true)
      → (after_attempt last next m.0 m.1).0 ≡ ok true
  unfolding after_attempt
  outcome last next (ok true, v) h = refl
  outcome last next (ok false, v) h = h last
  outcome last next (err e, v) h = h (some e)

  module _ (runs : (w : W) → s.cancelled w ≡ none) (waits : (w : W) → (s.wait w).0 ≡ ok tt) where
    next-found :
        (n : ℕ) (rest : Option Err → Action W Bool) (e : Option Err) (v : W)
        → 0 < n
        → (rest e (s.wait v).1).0 ≡ ok true
        → (next_round s (n == 0) rest e v).0 ≡ ok true
    unfolding next_round
    next-found n rest e v h p =
        let more : (n == 0) ≡ false = ground arith in
        rw more (elim (outcome_cases s.wait v) [
          | inl (u, v', q) ↦ rw q (rw q at p)
          | inr (x, v', q) ↦ cc (rw q at (waits v))
        ])

    rounds-found :
        (n i : ℕ) (last : Option Err) (w : W)
        → i < n
        → (verify (world_at i w)).0 ≡ ok true
        → (rounds s verify n last w).0 ≡ ok true
    unfolding rounds check_context after_attempt
    rounds-found zero i last w h p = let never : ⊥ = omega (arith, h) in elim never [ ]
    rounds-found (suc n) zero last w h p = rw (runs w) (
        ap (λ r. (after_attempt last (next_round s (n == 0) (rounds s verify n)) r (verify w).1).0)
          p)
    rounds-found (suc n) (suc i) last w h p = rw (runs w) (
        outcome last (next_round s (n == 0) (rounds s verify n)) (verify w) (λ e.
          next-found n (rounds s verify n) e (verify w).1 (omega (arith, h))
            (rounds-found n i e (s.wait (verify w).1).1 (omega (arith, h)) p)))

    -- If the context is never done, `verifyWithRetry` succeeds as soon as one of its first
    -- `MaxRetries + 1` attempts does, each of them made in the world after the wait that follows
    -- the attempt before.
    pub verify_with_retry-finds :
        (i : ℕ) (w : W)
        → i ≤ s.max_retries
        → (verify (world_at i w)).0 ≡ ok true
        → (verify_with_retry s verify w).0 ≡ ok true
    unfolding verify_with_retry
    verify_with_retry-finds i w h p = rounds-found (suc s.max_retries) i none w (omega (arith, h)) p

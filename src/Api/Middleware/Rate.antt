-- ===== src/Api/Middleware/Rate.antt =====
-- internal/api/middleware/ratelimit.go, over the limiter of golang.org/x/time/rate: a new limiter,
-- and `Allow` at a time, are parameters.
use webrana_infinimail_backe.Dict.{put, get, Dict, get-put}
use webrana_infinimail_backe.Api.{Response, reply, Handler, http_error_body}
use webrana_infinimail_backe.Text.{codes, Bytes, bytes_eq, bytes_eq_sound}
use webrana_infinimail_backe.Prelude.{
  [], true, false, none, some, ◌∷◌, ℕ, List, Bool, if◌then◌else◌, Option, ◌≡◌, inl, inr, refl,
  Option-cases, Bool-cases,
}

-- the answer to a request that is over the limit
unfoldable pub rate_limited : Response
unfolding codes
rate_limited = reply 429 (http_error_body (codes "rate limit exceeded") (codes "RATE_LIMITED"))

-- a request of an IP at a time, or a tick of the clean-up
pub data RateEvent : Type 0 where
  request_of : Bytes → ℕ → RateEvent
  cleanup : RateEvent

-- the answers to one IP
unfoldable pub answers_to : Bytes → List (Bytes × Bool) → List Bool
unfolding bytes_eq
answers_to ip [] = []
answers_to ip ((j, b) ∷ answers) =
    let rest = answers_to ip answers in if bytes_eq j ip then b ∷ rest else rest

module _ {L : Type 0} (new_limiter : L) (allow : ℕ → L → Bool × L) where
  unfoldable pub found_or_new : Bytes → Dict L → Option L → L × Dict L
  unfolding put
  found_or_new ip limiters (some l) = (l, limiters)
  found_or_new ip limiters none = (new_limiter, put ip new_limiter limiters)

  -- `GetLimiter`
  unfoldable pub get_limiter : Bytes → Dict L → L × Dict L
  unfolding get found_or_new
  get_limiter ip limiters = found_or_new ip limiters (get ip limiters)

  -- `CleanupOldEntries`
  unfoldable pub cleanup_old_entries : Dict L → Dict L
  cleanup_old_entries limiters = []

  abbrev pub used : Bytes → Bool × L → Dict L → Bool × Dict L
  used ip (allowed, l) limiters = (allowed, put ip l limiters)

  -- `limiter.GetLimiter(ip).Allow()`, which changes the limiter that the map holds
  unfoldable pub allow_request : Bytes → ℕ → Dict L → Bool × Dict L
  unfolding get_limiter put
  allow_request ip now limiters =
      used ip (allow now (get_limiter ip limiters).0) (get_limiter ip limiters).1

  abbrev pub limited : {W : Type 0} → Bool × Dict L → Handler W → W → Response × (Dict L × W)
  unfolding rate_limited
  limited (true, limiters) next w = let answer = next w in (answer.0, (limiters, answer.1))
  limited (false, limiters) next w = (rate_limited, (limiters, w))

  -- `RateLimiterWithConfig`, and `RateLimiter` after it has read its two numbers
  unfoldable pub rate_limiter : {W : Type 0} → ℕ → Bytes → Handler W → Handler (Dict L × W)
  unfolding allow_request
  rate_limiter now ip next (limiters, w) = limited (allow_request ip now limiters) next w

  -- the answers to a run of requests, each with its IP
  unfoldable pub answers : Dict L → List RateEvent → List (Bytes × Bool)
  unfolding allow_request cleanup_old_entries
  answers limiters [] = []
  answers limiters (request_of ip now ∷ es) =
      (ip, (allow_request ip now limiters).0) ∷ answers (allow_request ip now limiters).1 es
  answers limiters (cleanup ∷ es) = answers (cleanup_old_entries limiters) es

  -- what an IP with a limiter of its own is answered
  unfoldable pub alone : Bytes → L → List RateEvent → List Bool
  unfolding bytes_eq
  alone ip l [] = []
  alone ip l (request_of j now ∷ es) =
      let same = (allow now l).0 ∷ alone ip (allow now l).1 es in
      let other = alone ip l es in if bytes_eq j ip then same else other
  alone ip l (cleanup ∷ es) = alone ip new_limiter es

  abbrev pub limiter_or_new : Option L → L
  limiter_or_new none = new_limiter
  limiter_or_new (some l) = l

  get_limiter-OrNew : (ip : Bytes) (d : Dict L) → (get_limiter ip d).0 ≡ limiter_or_new (get ip d)
  unfolding get_limiter found_or_new
  get_limiter-OrNew ip d = elim (Option-cases (get ip d)) [
    | inl p ↦ rw p refl
    | inr (l, p) ↦ rw p refl
  ]

  get_limiter-keeps :
      (ip j : Bytes) (d : Dict L)
      → limiter_or_new (get ip (get_limiter j d).1) ≡ limiter_or_new (get ip d)
  unfolding get_limiter found_or_new
  get_limiter-keeps ip j d = elim (Option-cases (get j d)) [
    | inl p ↦
        rw (p, get-put j new_limiter d ip)
          (elim (Bool-cases (bytes_eq j ip)) [
            | inl e ↦ rw (e, rw (bytes_eq_sound j ip e) at p) refl
            | inr e ↦ rw e refl
          ])
    | inr (l, p) ↦ rw p refl
  ]

  after_request :
      (ip j : Bytes) (now : ℕ) (d : Dict L)
      → limiter_or_new (get ip (allow_request j now d).1) ≡ (
          if bytes_eq j ip
          then (allow now (limiter_or_new (get ip d))).1
          else limiter_or_new (get ip d))
  unfolding allow_request get_limiter found_or_new
  after_request ip j now d =
      rw (get-put j (allow now (get_limiter j d).0).1 (get_limiter j d).1 ip)
        (elim (Bool-cases (bytes_eq j ip)) [
          | inl e ↦ rw (e, get_limiter-OrNew j d, bytes_eq_sound j ip e) refl
          | inr e ↦ rw e (get_limiter-keeps ip j d)
        ])

  own_answer :
      (ip j : Bytes) (now : ℕ) (d : Dict L)
      → bytes_eq j ip ≡ true
      → (allow_request j now d).0 ≡ (allow now (limiter_or_new (get ip d))).0
  unfolding allow_request
  own_answer ip j now d e = rw (get_limiter-OrNew j d, bytes_eq_sound j ip e) refl

  -- For every map of limiters and every run of requests and ticks of the clean-up, the answers to an
  -- IP are those that it would get with a limiter of its own, which is that of the map or, if there
  -- is none, a new one, and which a tick replaces by a new one: what other IPs ask makes no
  -- difference.
  pub limits-Isolated :
      (ip : Bytes) (es : List RateEvent) (limiters : Dict L)
      → answers_to ip (answers limiters es) ≡ alone ip (limiter_or_new (get ip limiters)) es
  unfolding answers_to answers alone cleanup_old_entries get
  limits-Isolated ip [] d = refl
  limits-Isolated ip (cleanup ∷ es) d = limits-Isolated ip es []
  limits-Isolated ip (request_of j now ∷ es) d =
      rw (limits-Isolated ip es (allow_request j now d).1, after_request ip j now d)
        (elim (Bool-cases (bytes_eq j ip)) [
          | inl e ↦ rw (e, own_answer ip j now d e) refl
          | inr e ↦ rw e refl
        ])

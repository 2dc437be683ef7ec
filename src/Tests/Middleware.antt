-- ===== src/Tests/Middleware.antt =====
-- The check of the API key and the lists of origins, on concrete requests.

use webrana_infinimail_backe.Text.Split.{AllWithout, join}
use webrana_infinimail_backe.Dict.{get}
use webrana_infinimail_backe.Api.Middleware.Rate.{
  answers, answers_to, RateEvent, allow_request, alone, request_of, get_limiter, limiter_or_new,
  cleanup, limits-Isolated,
}
use webrana_infinimail_backe.Api.Middleware.Origins.{
  check_origin, upgrader_origins, is_listed, cors_origins, taken_origins-Outcome, Lists, AllAre,
}
use webrana_infinimail_backe.Text.{codes, Bytes}
use webrana_infinimail_backe.Api.{Handler, reply, no_body}
use webrana_infinimail_backe.Api.Middleware.Auth.{
  AuthRequest, api_key_auth, IsOpen, Shows, refusal, api_key_auth-Outcome,
}
use webrana_infinimail_backe.Prelude.{
  [], true, refl, ℕ, ◌≡◌, ◌⊎◌, ◌+◌, zero, suc, false, ◌∷◌, Bool, List, arith, ◌↔◌, ◌≢◌,
}

abbrev bearer : AuthRequest
bearer = record {
  path = codes "/api/domains";
  api_key_header = [];
  authorization = codes "Bearer  s3cret ";
}

abbrev counted : Handler ℕ
counted w = (reply 204 no_body, w + 1)

accepted : api_key_auth (codes "s3cret") bearer counted 0 ≡ (reply 204 no_body, 1)
unfolding codes api_key_auth
accepted = refl

api_key_auth-Outcome_example :
    ((api_key_auth (codes "other") bearer counted 0 ≡ counted 0)
      × (IsOpen (codes "other") bearer ⊎ Shows (codes "other") bearer))
    ⊎ ((api_key_auth (codes "other") bearer counted 0 ≡ (refusal bearer, 0))
        × (¬ IsOpen (codes "other") bearer)
        × (¬ Shows (codes "other") bearer))
api_key_auth-Outcome_example = api_key_auth-Outcome (codes "other") bearer counted 0

-- two origins, with a wildcard and nothing between them
abbrev first_part : Bytes
first_part = codes " https://a.test"

abbrev other_parts : List Bytes
other_parts = [] ∷ codes "* " ∷ codes " https://b.test" ∷ []

parts-AllWithout : AllWithout b',' (first_part ∷ other_parts)
unfolding codes
parts-AllWithout = ground arith

taken_origins-Outcome_example :
    ((check_origin (upgrader_origins (join b',' (first_part ∷ other_parts))) (codes "*") ≡ true) ↔ (
      (codes "*" ≡ [])
      ⊎ Lists (first_part ∷ other_parts) (codes "*")
      ⊎ (AllAre [] (first_part ∷ other_parts) × (codes "*" ≡ codes "http://localhost:3000"))))
    × ((is_listed
            (codes "*")
            (cors_origins (join b',' (first_part ∷ other_parts)) (codes "production"))
          ≡ true)
        ↔ (((join b',' (first_part ∷ other_parts) ≢ [])
              × Lists (first_part ∷ other_parts) (codes "*")
              × (codes "*" ≢ codes "*"))
            ⊎ (((join b',' (first_part ∷ other_parts) ≡ [])
                  ⊎ AllAre (codes "*") (first_part ∷ other_parts))
                × (codes "*" ≡ codes "http://localhost:3000"))))
taken_origins-Outcome_example =
    taken_origins-Outcome first_part other_parts (codes "*") parts-AllWithout

-- a limiter with a number of tokens that are never given back
abbrev take_token : ℕ → ℕ → Bool × ℕ
take_token now zero = (false, 0)
take_token now (suc n) = (true, n)

abbrev some_requests : List RateEvent
some_requests =
    request_of (codes "a") 0
    ∷ request_of (codes "b") 1
    ∷ request_of (codes "a") 2
    ∷ cleanup
    ∷ request_of (codes "a") 3
    ∷ []

answered : answers_to (codes "a") (answers 1 take_token [] some_requests) ≡ true ∷ false ∷ true ∷ []
unfolding codes answers answers_to allow_request get_limiter
answered = refl

limits-Isolated_example :
    answers_to (codes "a") (answers 1 take_token [] some_requests)
    ≡ alone 1 take_token
        (codes "a")
        (limiter_or_new 1 take_token (get (codes "a") []))
        some_requests
limits-Isolated_example = limits-Isolated 1 take_token (codes "a") some_requests []

-- ===== src/Api/Middleware/Auth.antt =====
-- internal/api/middleware/auth.go. A header that is missing is the empty text; the time that a
-- comparison takes is not modelled.

use mathlib.Core.List.{reverse}
use webrana_infinimail_backe.Api.{Response, reply, Handler, http_error_body, respond}
use webrana_infinimail_backe.Text.Trim.{trim_space, StartsDark, trim_space_fixed, trim_left}
use webrana_infinimail_backe.Text.{
  Bytes, codes, has_prefix, bytes_eq, trim_prefix_text, is_empty, bytes_eq_sound, bytes_eq_complete,
}
use webrana_infinimail_backe.Prelude.{
  [], true, if◌then◌else◌, ◌≡◌, Bool, ◌⊎◌, ◌||◌, ◌++◌, false, inl, inr, refl, ◌∷◌, sym,
}

-- what the middleware reads of a request
pub record AuthRequest : Type 0 where
  pub path : Bytes
  pub api_key_header : Bytes
  pub authorization : Bytes

unfoldable pub is_open_path : Bytes → Bool
unfolding codes has_prefix
is_open_path path = has_prefix path (codes "/health") || has_prefix path (codes "/ready")

unfoldable pub bearer_token : Bytes → Bytes
unfolding codes trim_space trim_prefix_text
bearer_token header = trim_space (trim_prefix_text header (codes "Bearer "))

unfoldable pub request_token : AuthRequest → Bytes
unfolding bearer_token
request_token r =
    if is_empty r.api_key_header
    then if is_empty r.authorization then [] else bearer_token r.authorization
    else r.api_key_header

unfoldable pub unauthorized : Bytes → Response
unfolding codes
unauthorized text = reply 401 (http_error_body text (codes "UNAUTHORIZED"))

-- the four tests of the middleware, in their order
unfoldable pub checked_key : {W : Type 0} → Bool → Bool → Bool → Bool → Handler W → Handler W
unfolding codes unauthorized
checked_key open_path unset missing valid next =
    if open_path
    then next
    else if unset
    then next
    else if missing
    then respond (unauthorized (codes "missing API key"))
    else if valid
    then next
    else respond (unauthorized (codes "invalid API key"))

-- `APIKeyAuth` with the value of the environment
unfoldable pub api_key_auth : {W : Type 0} → Bytes → AuthRequest → Handler W → Handler W
unfolding is_open_path request_token bytes_eq checked_key
api_key_auth valid_api_key r next =
    checked_key (is_open_path r.path) (is_empty valid_api_key) (is_empty (request_token r))
      (bytes_eq (request_token r) valid_api_key) next

-- The headers `X-API-Key` and `Authorization` have the key in the first, or nothing there and the
-- key in the second.
abbrev Holds : Bytes → Bytes → Bytes → Type 0
Holds key a b = (a ≡ key) ⊎ ((a ≡ []) × (bearer_token b ≡ key))

abbrev pub Shows : Bytes → AuthRequest → Type 0
Shows key r = Holds key r.api_key_header r.authorization

-- The path needs no key, or there is none.
abbrev pub IsOpen : Bytes → AuthRequest → Type 0
IsOpen key r = (is_open_path r.path ≡ true) ⊎ (key ≡ [])

pub bearer_token-Bearer :
    (key : Bytes)
    → StartsDark key
    → StartsDark (reverse key)
    → bearer_token (codes "Bearer " ++ key) ≡ key
unfolding bearer_token codes trim_prefix_text has_prefix
bearer_token-Bearer key h k = trim_space_fixed key h k

abbrev pub refusal : AuthRequest → Response
refusal r =
    unauthorized
      (if is_empty (request_token r) then codes "missing API key" else codes "invalid API key")

abbrev token_of : Bytes → Bytes → Bytes
token_of a b = if is_empty a then if is_empty b then [] else bearer_token b else a

token_of_sound : (key a b : Bytes) → token_of a b ≡ key → (key ≡ []) ⊎ Holds key a b
token_of_sound key [] [] p = inl (sym p)
token_of_sound key [] (c ∷ b) p = inr (inr (refl, p))
token_of_sound key (c ∷ a) b p = inr (inl p)

no_bearer_token : bearer_token [] ≡ []
unfolding bearer_token codes trim_prefix_text has_prefix trim_space trim_left
no_bearer_token = refl

token_of_complete : (key a b : Bytes) → is_empty key ≡ false → Holds key a b → token_of a b ≡ key
token_of_complete key [] [] set (inl p) = p
token_of_complete key [] [] set (inr (none_there, p)) = cc (no_bearer_token, p)
token_of_complete key [] (c ∷ b) set (inl p) = cc (p, set)
token_of_complete key [] (c ∷ b) set (inr (none_there, p)) = p
token_of_complete key (c ∷ a) b set (inl p) = p
token_of_complete key (c ∷ a) b set (inr (none_there, p)) = cc

checked_key-Outcome :
    {W : Type 0} (open_path unset missing valid : Bool) (next : Handler W) (w : W)
    → ((checked_key open_path unset missing valid next w ≡ next w)
        × ((open_path ≡ true) ⊎ (unset ≡ true) ⊎ (valid ≡ true)))
      ⊎ ((checked_key open_path unset missing valid next w ≡ (
        unauthorized (if missing then codes "missing API key" else codes "invalid API key"),
        w,
      ))
          × (open_path ≡ false)
          × (unset ≡ false)
          × ((missing ≡ true) ⊎ (valid ≡ false)))
unfolding checked_key
checked_key-Outcome true u m v next w = inl (refl, inl refl)
checked_key-Outcome false true m v next w = inl (refl, inr (inl refl))
checked_key-Outcome false false true v next w = inr (refl, refl, refl, inl refl)
checked_key-Outcome false false false true next w = inl (refl, inr (inr refl))
checked_key-Outcome false false false false next w = inr (refl, refl, refl, inr refl)

token_sound : (key : Bytes) (r : AuthRequest) → request_token r ≡ key → IsOpen key r ⊎ Shows key r
unfolding request_token
token_sound key r p = elim (token_of_sound key r.api_key_header r.authorization p) [
  | inl unset ↦ inl (inr unset)
  | inr shows ↦ inr shows
]

token_complete :
    (key : Bytes) (r : AuthRequest) → is_empty key ≡ false → Shows key r → request_token r ≡ key
unfolding request_token
token_complete key r = token_of_complete key r.api_key_header r.authorization

is_empty_sound : (s : Bytes) → is_empty s ≡ true → s ≡ []
is_empty_sound [] p = refl
is_empty_sound (c ∷ s) p = cc

reason_to_run :
    (key : Bytes) (r : AuthRequest)
    → ((is_open_path r.path ≡ true)
        ⊎ (is_empty key ≡ true)
        ⊎ (bytes_eq (request_token r) key ≡ true))
    → IsOpen key r ⊎ Shows key r
reason_to_run key r (inl p) = inl (inl p)
reason_to_run key r (inr (inl p)) = inl (inr (is_empty_sound key p))
reason_to_run key r (inr (inr p)) = token_sound key r (bytes_eq_sound (request_token r) key p)

why_refused :
    (key : Bytes) (r : AuthRequest)
    → is_empty key ≡ false
    → ((is_empty (request_token r) ≡ true) ⊎ (bytes_eq (request_token r) key ≡ false))
    → ¬ Shows key r
why_refused key r set (inl missing) shows = cc (token_complete key r set shows)
why_refused key r set (inr differs) shows =
    cc (bytes_eq_complete (request_token r) key (token_complete key r set shows))

needs_key :
    (key : Bytes) (r : AuthRequest)
    → is_open_path r.path ≡ false
    → is_empty key ≡ false
    → ¬ IsOpen key r
needs_key key r closed set (inl p) = cc
needs_key key r closed set (inr p) = cc

-- For every key, request, handler and state: the middleware runs the handler, and the path needs no
-- key, or no key is set, or a header of the request shows the key; or it refuses the request and
-- leaves the state as it was, and the path needs a key, a key is set, and no header shows it.
pub api_key_auth-Outcome :
    {W : Type 0} (key : Bytes) (r : AuthRequest) (next : Handler W) (w : W)
    → ((api_key_auth key r next w ≡ next w) × (IsOpen key r ⊎ Shows key r))
      ⊎ ((api_key_auth key r next w ≡ (refusal r, w)) × (¬ IsOpen key r) × ¬ Shows key r)
unfolding api_key_auth
api_key_auth-Outcome key r next w =
    elim (checked_key-Outcome (is_open_path r.path) (is_empty key) (is_empty (request_token r))
      (bytes_eq (request_token r) key) next w) [
        | inl (runs, why) ↦ inl (runs, reason_to_run key r why)
        | inr (answer, closed, set, why) ↦
            inr (answer, needs_key key r closed set, why_refused key r set why)
      ]

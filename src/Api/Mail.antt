-- ===== src/Api/Mail.antt =====
-- internal/api/handlers: what the handlers of mailboxes, messages and attachments share.
pub mod Mailboxes
pub mod Messages
pub mod Reachable
use webrana_infinimail_backe.Api.{
  internal_error, not_found_reply, bad_request, Response, Handler, given,
}
use webrana_infinimail_backe.Effect.{is_not_found, Action, Err, Result}
use webrana_infinimail_backe.Text.{Bytes, is_empty}
use webrana_infinimail_backe.Text.Decimal.{all_digits, parse_uint32, decimal_value}
use webrana_infinimail_backe.Prelude.{
  [], none, some, ◌∷◌, Option, ℕ, if◌then◌else◌, not, ◌==◌, ◌&&◌, ltb,
}

-- `strconv.Atoi`, of which only a value that is not negative is used
unfoldable pub atoi_digits : Bytes → Option ℕ
unfolding all_digits decimal_value
atoi_digits s =
    if not (is_empty s) && all_digits s && ltb (decimal_value s 0) 9223372036854775808
    then some (decimal_value s 0)
    else none

unfoldable pub zero_only : Option ℕ → Option ℕ
zero_only none = none
zero_only (some n) = if n == 0 then some 0 else none

unfoldable pub atoi : Bytes → Option ℕ
unfolding atoi_digits zero_only
atoi [] = none
atoi (c ∷ s) =
    if c == b'+'
    then atoi_digits s
    else if c == b'-'
    then zero_only (atoi_digits s)
    else atoi_digits (c ∷ s)

unfoldable pub limit_or : Option ℕ → ℕ → ℕ
limit_or none default = default
limit_or (some n) default = if n == 0 then default else n

unfoldable pub offset_or : Option ℕ → ℕ → ℕ
offset_or none default = default
offset_or (some n) default = n

-- the query parameters `limit` and `offset`
unfoldable pub page_limit : Bytes → ℕ
unfolding atoi limit_or
page_limit param = limit_or (atoi param) 20

unfoldable pub page_offset : Bytes → ℕ
unfolding atoi offset_or
page_offset param = offset_or (atoi param) 0

-- The error of a call: a missing row or another.
unfoldable pub absent_or : Bytes → Bytes → Err → Response
unfolding is_not_found not_found_reply internal_error
absent_or missing text e = if is_not_found e then not_found_reply missing else internal_error text

unfoldable pub failing : Bytes → Err → Response
unfolding internal_error
failing text e = internal_error text

module _ {W : Type 0} where
  -- a numeric parameter, with the text of its error
  unfoldable pub with_number : Bytes → Bytes → (ℕ → Handler W) → Handler W
  unfolding parse_uint32 bad_request
  with_number text param k = given (parse_uint32 param) (bad_request text) k

  -- a call whose error does not end the handler
  abbrev pub attempting : {A : Type 0} → Action W A → (Result A → Handler W) → Handler W
  attempting m k w = let (r, v) = m w in k r v

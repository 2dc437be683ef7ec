-- ===== src/Tests/AcmePolling.antt =====
-- The ACME client over a server that leaves the authorization pending for ever. The world is the
-- number of readings.

use webrana_infinimail_backe.Services.Acme.Ends.{CountsReadings, complete_dns_challenge-ends}
use webrana_infinimail_backe.Text.{codes}
use webrana_infinimail_backe.Services.Acme.{
  Order, Challenge, AcmeLibrary, Client, complete_dns_challenge, status_pending,
}
use webrana_infinimail_backe.Effect.{ok, err, not_found}
use webrana_infinimail_backe.Prelude.{
  suc, [], false, none, some, refl, ◌∷◌, ℕ, ◌≡◌, arith, ◌≤◌, ◌+◌,
}

abbrev an_order : Order
an_order = record {
  uri = codes "order";
  status = status_pending;
  authz_urls = codes "authz" ∷ [];
  finalize_url = codes "finalize";
}

abbrev a_challenge : Challenge
a_challenge = record {
  kind = codes "dns-01";
  uri = codes "challenge";
  token = codes "token";
  status = status_pending;
  error = none;
}

abbrev library : AcmeLibrary ℕ
library = record {
  register = λ contact w. (err not_found, w);
  is_conflict_error = λ e. false;
  get_reg = λ w. (err not_found, w);
  authorize_order = λ name w. (ok an_order, w);
  get_authorization = λ url w. (ok (record { status = status_pending; challenges = [] }), suc w);
  dns01_challenge_record = λ token w. (err not_found, w);
  accept = λ c w. (ok tt, w);
  wait_order = λ uri w. (ok an_order, w);
  create_order_cert = λ url csr w. (err not_found, w);
  wait_poll = λ w. (ok tt, w);
  generate_key = λ w. (err not_found, w);
  create_certificate_request = λ key name names w. (err not_found, w);
  not_after = λ der. none;
  encode_pem = λ kind der. der;
  marshal_key = λ key. ok key;
  log = λ call w. w;
}

abbrev waiting : Client ℕ
waiting = record {
  account = some (codes "account");
  active_orders = (codes "a.test", an_order) ∷ [];
  active_challenges = (codes "a.test", a_challenge) ∷ [];
  outside = 0;
}

-- the bound is reached
all_readings : (complete_dns_challenge library [] (codes "a.test") waiting).1.outside ≡ 60
unfolding codes complete_dns_challenge webrana_infinimail_backe.Dict.get
    webrana_infinimail_backe.Text.bytes_eq
all_readings = refl

library-CountsReadings : CountsReadings library (λ w. w)
library-CountsReadings = record {
  reading = λ url. record { at = λ w. omega arith };
  accepting = λ c. record { at = λ w. omega arith };
  order_wait = λ uri. record { at = λ w. omega arith };
  poll_wait = record { at = λ w. omega arith };
  logging = λ call w. omega arith;
}

complete_dns_challenge-ends_example :
    (complete_dns_challenge library [] (codes "a.test") waiting).1.outside ≤ 0 + 60
complete_dns_challenge-ends_example =
    complete_dns_challenge-ends library [] (λ w. w) library-CountsReadings (codes "a.test") waiting

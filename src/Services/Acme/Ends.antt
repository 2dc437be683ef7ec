-- ===== src/Services/Acme/Ends.antt =====
-- How often CompleteDNSChallenge of internal/services/acme_client.go asks for an authorization.

use webrana_infinimail_backe.Dict.{get}
use webrana_infinimail_backe.Services.{LogCall, log_error}
use webrana_infinimail_backe.Effect.{Action, Err, ◌>>◌, on_error, raise, pure, wrap}
use webrana_infinimail_backe.Effect.Cost.{
  AtMost, AtMost-raise, AtMost-bind, AtMost-on_error, AtMost-weaken, AtMost-pure,
}
use webrana_infinimail_backe.Text.{Bytes, codes}
use webrana_infinimail_backe.Services.Acme.{
  refuse, submit_challenge, poll_authorization, AcmeLibrary, Client, await_order, wait_then,
  on_status, poll, complete_dns_challenge, Challenge, lifted, said, Order, Completion,
  poll_authorization, submit_challenge, Authorization, poll_first, ProtocolStatus, refuse_status,
  or_missing, status_other, index_panic, status_valid, validated, status_invalid, status_pending,
  status_processing, status_deactivated, status_expired, status_revoked, status_ready,
}
use webrana_infinimail_backe.Prelude.{
  zero, suc, ℕ, String, ◌≤◌, arith, ◌+◌, [], none, some, ◌∷◌, List, Option,
}

-- The world counts the readings of authorizations: each adds at most one, the other calls of
-- `CompleteDNSChallenge` add none.
pub record CountsReadings {W : Type 0} (lib : AcmeLibrary W) (count : W → ℕ) : Type 0 where
  pub reading : (url : Bytes) → AtMost count 1 (lib.get_authorization url)
  pub accepting : (challenge : Challenge) → AtMost count 0 (lib.accept challenge)
  pub order_wait : (url : Bytes) → AtMost count 0 (lib.wait_order url)
  pub poll_wait : AtMost count 0 lib.wait_poll
  pub logging : (call : LogCall) (w : W) → count (lib.log call w) ≤ count w

module _ {W : Type 0} (lib : AcmeLibrary W) (email : Bytes) (count : W → ℕ)
    (counts : CountsReadings lib count) where
  abbrev readings : Client W → ℕ
  readings s = count s.outside

  abbrev Costs : {A : Type 0} → ℕ → Action (Client W) A → Type 0
  Costs k m = AtMost readings k m

  lifted-Costs : {A : Type 0} (k : ℕ) (m : Action W A) → AtMost count k m → Costs k (lifted m)
  lifted-Costs k m c = record { at = λ s. c.at s.outside }

  said-Costs : (call : LogCall) → Costs 0 (said lib email call)
  said-Costs call = record { at = λ s. omega (arith, counts.logging call s.outside) }

  -- a log entry before an action
  after_said :
      {A : Type 0} (k : ℕ) (call : LogCall) (m : Action (Client W) A)
      → Costs k m
      → Costs k (said lib email call >> m)
  after_said k call m c =
      AtMost-bind readings 0 k k (said lib email call) (λ _. m) (omega arith) (said-Costs call)
        (λ _. c)

  -- a call whose error is logged and wrapped
  logged_call :
      {A : Type 0} (k : ℕ) (m : Action (Client W) A) (call : Err → LogCall) (f : Err → Err)
      → Costs k m
      → Costs k (on_error m (λ e. said lib email (call e) >> raise (f e)))
  logged_call k m call f c =
      AtMost-on_error readings k 0 k m _ (omega arith) c
        (λ e. after_said 0 (call e) (raise (f e)) (AtMost-raise readings (f e)))

  refuse-Costs :
      (domain : Bytes) (step : String) (text : Bytes) → Costs 0 (refuse lib email domain step text)
  unfolding refuse
  refuse-Costs domain step text = after_said 0 _ _ (AtMost-raise readings _)

  await_order-Costs :
      (domain : Bytes) (order : Order) → Costs 0 (await_order lib email domain order)
  unfolding await_order
  await_order-Costs domain order = after_said 0 _ _ (
      AtMost-bind readings 0 0 0
        (on_error (lifted (lib.wait_order order.uri) >> pure tt) (λ e.
          said lib email (log_error domain "order_wait_failed" e)
          >> raise (wrap (codes "failed waiting for order after authorization") e)))
        _ (omega arith)
        (logged_call 0 (lifted (lib.wait_order order.uri) >> pure tt) _ _ (
          AtMost-bind readings 0 0 0 (lifted (lib.wait_order order.uri)) _ (omega arith)
            (lifted-Costs 0 (lib.wait_order order.uri) (counts.order_wait order.uri))
            (λ _. AtMost-pure readings tt)))
        (λ _. after_said 0 _ _ (AtMost-pure readings validated)))

  wait_then-Costs :
      (k : ℕ) (domain : Bytes) (next : Action (Client W) Completion)
      → Costs k next
      → Costs k (wait_then lib email domain next)
  unfolding wait_then
  wait_then-Costs k domain next c =
      AtMost-bind readings 0 k k
        (on_error (lifted lib.wait_poll) (λ e.
          said lib email (log_error domain "authz_timeout" e)
          >> raise (wrap (codes "timeout waiting for authorization") e)))
        _ (omega arith)
        (logged_call 0 (lifted lib.wait_poll) _ _ (lifted-Costs 0 lib.wait_poll counts.poll_wait))
        (λ _. c)

  free : {A : Type 0} (k : ℕ) (m : Action (Client W) A) → Costs 0 m → Costs k m
  free k m c = AtMost-weaken readings 0 k m (omega arith) c

  on_status-Costs :
      (k : ℕ) (domain : Bytes) (order : Order) (authz : Authorization)
      (next : Action (Client W) Completion) (status : ProtocolStatus)
      → Costs k next
      → Costs k (on_status lib email domain order authz next status)
  unfolding on_status refuse_status
  on_status-Costs k domain order authz next status_valid c =
      free k _ (await_order-Costs domain order)
  on_status-Costs k domain order authz next status_invalid c =
      free k _ (after_said 0 _ _ (AtMost-raise readings _))
  on_status-Costs k domain order authz next status_pending c = wait_then-Costs k domain next c
  on_status-Costs k domain order authz next status_processing c = wait_then-Costs k domain next c
  on_status-Costs k domain order authz next status_deactivated c =
      free k _ (refuse-Costs domain _ _)
  on_status-Costs k domain order authz next status_expired c = free k _ (refuse-Costs domain _ _)
  on_status-Costs k domain order authz next status_revoked c = free k _ (refuse-Costs domain _ _)
  on_status-Costs k domain order authz next status_ready c = after_said k _ next c
  on_status-Costs k domain order authz next (status_other text) c = after_said k _ next c

  poll-Costs :
      (domain : Bytes) (order : Order) (url : Bytes) (n : ℕ)
      → Costs n (poll lib email domain order url n)
  unfolding poll poll_authorization
  poll-Costs domain order url zero = refuse-Costs domain _ _
  poll-Costs domain order url (suc n) =
      AtMost-bind readings 1 n (suc n) (poll_authorization lib email domain url) _ (omega arith)
        (logged_call 1 (lifted (lib.get_authorization url)) _ _
          (lifted-Costs 1 (lib.get_authorization url) (counts.reading url)))
        (λ authz. after_said n _ _ (
          on_status-Costs n domain order authz (poll lib email domain order url n) authz.status
            (poll-Costs domain order url n)))

  poll_first-Costs :
      (domain : Bytes) (order : Order) (urls : List Bytes)
      → Costs 60 (poll_first lib email domain order urls)
  unfolding poll_first
  poll_first-Costs domain order [] = free 60 _ (AtMost-pure readings index_panic)
  poll_first-Costs domain order (url ∷ urls) = poll-Costs domain order url 60

  submit-Costs :
      (domain : Bytes) (challenge : Challenge)
      → Costs 0 (submit_challenge lib email domain challenge)
  unfolding submit_challenge
  submit-Costs domain challenge = after_said 0 _ _ (
      after_said 0 _ _ (
        AtMost-bind readings 0 0 0
          (on_error (lifted (lib.accept challenge)) (λ e.
            said lib email (log_error domain "challenge_accept_failed" e)
            >> raise (wrap (codes "failed to accept challenge") e)))
          _ (omega arith)
          (logged_call 0 (lifted (lib.accept challenge)) _ _
            (lifted-Costs 0 (lib.accept challenge) (counts.accepting challenge)))
          (λ _. said-Costs _)))

  or_missing-Costs :
      {A : Type 0} (o : Option A) (text : Bytes) → Costs 0 (or_missing {W = W} o text)
  or_missing-Costs none text = AtMost-raise readings _
  or_missing-Costs (some a) text = AtMost-pure readings a

  -- Whatever the ACME server answers, and however long an authorization stays pending,
  -- `CompleteDNSChallenge` returns after at most 60 readings of an authorization.
  pub complete_dns_challenge-ends :
      (domain : Bytes) (s : Client W)
      → count (complete_dns_challenge lib email domain s).1.outside ≤ count s.outside + 60
  unfolding complete_dns_challenge
  complete_dns_challenge-ends domain s =
      (AtMost-bind readings 0 60 60 (or_missing (get domain s.active_challenges) _) _ (omega arith)
          (or_missing-Costs _ _)
          (λ challenge.
            AtMost-bind readings 0 60 60 (or_missing (get domain s.active_orders) _) _ (omega arith)
              (or_missing-Costs _ _)
              (λ order.
                AtMost-bind readings 0 60 60 (submit_challenge lib email domain challenge) _
                  (omega arith) (submit-Costs domain challenge)
                  (λ _. poll_first-Costs domain order order.authz_urls)))).at
        s

-- ===== src/Services/Acme/Polling.antt =====
-- What a `CompleteDNSChallenge` that returns no error has seen of the ACME server.

use webrana_infinimail_backe.Dict.{get}
use webrana_infinimail_backe.Services.{log_info, log_debug}
use webrana_infinimail_backe.Effect.Rules.{outcome_cases}
use webrana_infinimail_backe.Text.{Bytes}
use webrana_infinimail_backe.Services.Acme.{
  AcmeLibrary, Client, Order, await_order, Authorization, Completion, status_valid, ProtocolStatus,
  on_status, wait_then, refuse_status, poll, Challenge, poll_first, poll_authorization,
  submit_challenge, status_other, status_invalid, status_pending, status_processing,
  status_deactivated, status_expired, status_revoked, status_ready, validated,
  complete_dns_challenge, refuse,
}
use webrana_infinimail_backe.Prelude.{
  inl, inr, refl, ◌≡◌, zero, suc, [], some, ◌∷◌, List, ℕ, Option-cases,
}
use webrana_infinimail_backe.Effect.{ok, Action}

module _ {W : Type 0} (lib : AcmeLibrary W) (email : Bytes) where
  -- An authorization that is valid was read, and then the order was awaited.
  pub record Seen (order : Order) (url : Bytes) : Type 0 where
    pub authz : Authorization
    pub final : Order
    pub before : W
    pub after : W
    pub later : W
    pub last : W
    pub read : lib.get_authorization url before ≡ (ok authz, after)
    pub valid : authz.status ≡ status_valid
    pub awaited : lib.wait_order order.uri later ≡ (ok final, last)

  abbrev Awaited : Order → Type 0
  Awaited order =
      (final : Order) × (v : W) × (v' : W) × (lib.wait_order order.uri v ≡ (ok final, v'))

  await-Awaited :
      (domain : Bytes) (order : Order) (s s' : Client W)
      → await_order lib email domain order s ≡ (ok validated, s')
      → Awaited order
  unfolding await_order
  await-Awaited domain order s s' h =
      let v : W = lib.log (log_info domain "authz_valid") s.outside in
      elim (outcome_cases (lib.wait_order order.uri) v) [
        | inl (final, w, p) ↦ (final, v, w, p)
        | inr (e, w, p) ↦ cc (rw p at h)
      ]

  wait-Later :
      (domain : Bytes) (next : Action (Client W) Completion) (s s' : Client W)
      → wait_then lib email domain next s ≡ (ok validated, s')
      → (t : Client W) × (next t ≡ (ok validated, s'))
  unfolding wait_then
  wait-Later domain next s s' h = elim (outcome_cases lib.wait_poll s.outside) [
    | inl (u, w, p) ↦ (record s { outside = w }, rw p at h)
    | inr (e, w, p) ↦ cc (rw p at h)
  ]

  on_status-Seen :
      (domain url : Bytes) (order : Order) (authz : Authorization)
      (next : Action (Client W) Completion) (status : ProtocolStatus) (s s' : Client W)
      → ((t : Client W) → next t ≡ (ok validated, s') → Seen order url)
      → (status ≡ status_valid → Awaited order → Seen order url)
      → on_status lib email domain order authz next status s ≡ (ok validated, s')
      → Seen order url
  unfolding on_status refuse_status refuse
  on_status-Seen domain url order authz next status_valid s s' rest now h =
      now refl (await-Awaited domain order s s' h)
  on_status-Seen domain url order authz next status_invalid s s' rest now h = cc h
  on_status-Seen domain url order authz next status_pending s s' rest now h =
      let (t, p) = wait-Later domain next s s' h in rest t p
  on_status-Seen domain url order authz next status_processing s s' rest now h =
      let (t, p) = wait-Later domain next s s' h in rest t p
  on_status-Seen domain url order authz next status_deactivated s s' rest now h = cc h
  on_status-Seen domain url order authz next status_expired s s' rest now h = cc h
  on_status-Seen domain url order authz next status_revoked s s' rest now h = cc h
  on_status-Seen domain url order authz next status_ready s s' rest now h = rest _ h
  on_status-Seen domain url order authz next (status_other text) s s' rest now h = rest _ h

  poll-Seen :
      (domain url : Bytes) (order : Order) (n : ℕ) (s s' : Client W)
      → poll lib email domain order url n s ≡ (ok validated, s')
      → Seen order url
  unfolding poll poll_authorization refuse
  poll-Seen domain url order zero s s' h = cc h
  poll-Seen domain url order (suc n) s s' h =
      elim (outcome_cases (lib.get_authorization url) s.outside) [
        | inl (authz, w, p) ↦
            on_status-Seen domain url order authz (poll lib email domain order url n) authz.status
              (record s { outside = lib.log (log_debug domain "authz_poll") w }) s'
              (λ t q. poll-Seen domain url order n t s' q)
              (λ valid awaited. record {
                authz = authz;
                final = awaited.0;
                before = s.outside;
                after = w;
                later = awaited.1;
                last = awaited.2;
                read = p;
                valid = valid;
                awaited = awaited.3;
              })
              (rw p at h)
        | inr (e, w, p) ↦ cc (rw p at h)
      ]

  -- What a validated challenge rests on.
  pub record Validated (domain : Bytes) (s : Client W) : Type 0 where
    pub challenge : Challenge
    pub order : Order
    pub url : Bytes
    pub urls : List Bytes
    pub stored_challenge : get domain s.active_challenges ≡ some challenge
    pub stored_order : get domain s.active_orders ≡ some order
    pub first_authorization : order.authz_urls ≡ url ∷ urls
    pub accepted : (v : W) × (v' : W) × (lib.accept challenge v ≡ (ok tt, v'))
    pub seen : Seen order url

  poll_first-Seen :
      (domain : Bytes) (order : Order) (us : List Bytes) (s s' : Client W)
      → poll_first lib email domain order us s ≡ (ok validated, s')
      → (url : Bytes) × (urls : List Bytes) × (us ≡ url ∷ urls) × Seen order url
  unfolding poll_first
  poll_first-Seen domain order [] s s' h = cc h
  poll_first-Seen domain order (u ∷ us) s s' h = (u, us, refl, poll-Seen domain u order 60 s s' h)

  -- When `CompleteDNSChallenge` returns no error, the client had a challenge and an order for the
  -- domain, the challenge was accepted, the first authorization of that order was read with the
  -- status valid, and the wait for that order succeeded.
  pub complete-Validated :
      (domain : Bytes) (s s' : Client W)
      → complete_dns_challenge lib email domain s ≡ (ok validated, s')
      → Validated domain s
  unfolding complete_dns_challenge submit_challenge
  complete-Validated domain s s' h = elim (Option-cases (get domain s.active_challenges)) [
    | inl absent ↦ cc (rw absent at h)
    | inr (challenge, found) ↦ elim (Option-cases (get domain s.active_orders)) [
      | inl absent ↦ cc (rw (found, absent) at h)
      | inr (order, kept) ↦
          let v : W =
            lib.log (log_info domain "challenge_accept")
              (lib.log (log_info domain "challenge_start") s.outside) in
          elim (outcome_cases (lib.accept challenge) v) [
            | inr (e, w, p) ↦ cc (rw (found, kept, p) at h)
            | inl (u, w, p) ↦
                let (url, urls, first, seen) =
                  poll_first-Seen domain order order.authz_urls _ s' (rw (found, kept, p) at h) in
                record {
                  challenge = challenge;
                  order = order;
                  url = url;
                  urls = urls;
                  stored_challenge = found;
                  stored_order = kept;
                  first_authorization = first;
                  accepted = (v, w, p);
                  seen = seen;
                }
          ]
    ]
  ]
